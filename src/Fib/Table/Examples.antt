-- ===== src/Fib/Table/Examples.antt =====
-- The table of internal/transport/fib/fib.go with two routes.
use corelink.Prelude.{
  ◌↔◌, ◌≤◌, ◌≡◌, refl, subst, List, [], ◌∷◌, true, false, none, some, arith, Bool-cases, inl, inr,
}
use corelink.Prelude.Assoc.{lookup, IsMap}
use corelink.Wire.Addr.{Addr, v4}
use corelink.Fib.Prefix.{Prefix, p4, bits, contains, prefix_eq, IsMasked}
use corelink.Fib.Table.{NextHop, Fib, lookup_addr, insert_route, remove_route}
use corelink.Fib.Table.LongestMatch.{IsLongest, lookup_addr-IsLongest, lookup_addr-none}
use corelink.Fib.Table.Updates.{
  IsOrderFree, IsSettled, AllMasked-IsSettled, lookup_addr_order, lookup_addr-update,
  lookup_addr-insert_route,
}

-- 10.0.0.0/8 and 10.1.0.0/16, each without next hops.
abbrev wide : Prefix
wide = p4 167772160 8

abbrev narrow : Prefix
narrow = p4 167837696 16

abbrev wide_first : Fib
wide_first = record { entries = (wide, []) ∷ (narrow, []) ∷ [] }

abbrev narrow_first : Fib
narrow_first = record { entries = (narrow, []) ∷ (wide, []) ∷ [] }

-- 10.1.2.3 and 192.0.0.1
abbrev inside : Addr
inside = v4 167838211

abbrev outside : Addr
outside = v4 3221225473

wide_first-IsMap : IsMap wide_first.entries
unfolding lookup
wide_first-IsMap = (refl, (refl, tt))

narrow-present : lookup narrow wide_first.entries ≡ some []
unfolding lookup
narrow-present = refl

found : lookup_addr wide_first inside ≡ some []
unfolding lookup_addr contains bits
found = refl

lookup_addr-IsLongest_example : (p : Prefix) × IsLongest wide_first.entries inside p []
lookup_addr-IsLongest_example = lookup_addr-IsLongest wide_first inside [] wide_first-IsMap found

missed : lookup_addr wide_first outside ≡ none
unfolding lookup_addr contains bits
missed = refl

lookup_addr-none_run : contains narrow outside ≡ false
lookup_addr-none_run = lookup_addr-none wide_first outside narrow [] missed narrow-present

same_entries : (p : Prefix) → lookup p wide_first.entries ≡ lookup p narrow_first.entries
unfolding lookup
same_entries p = ground (arith, prefix_eq.beq_iff wide p, prefix_eq.beq_iff narrow p)

narrow_first-IsMap : IsMap narrow_first.entries
unfolding lookup
narrow_first-IsMap = (refl, (refl, tt))

masked : (p : Prefix) (hs : List NextHop) → lookup p narrow_first.entries ≡ some hs → IsMasked p
unfolding lookup
masked p hs h = elim (Bool-cases (prefix_eq.beq narrow p)) [
  | inl e ↦ subst IsMasked ((prefix_eq.beq_iff narrow p).0 e) refl
  | inr e ↦ elim (Bool-cases (prefix_eq.beq wide p)) [
    | inl d ↦ subst IsMasked ((prefix_eq.beq_iff wide p).0 d) refl
    | inr d ↦ absurd (ground (arith, e, d, h))
  ]
]

lookup_addr_order_example : IsOrderFree narrow_first inside ↔ IsSettled narrow_first inside
lookup_addr_order_example = lookup_addr_order narrow_first inside narrow_first-IsMap

lookup_addr_order_run : IsOrderFree narrow_first inside
lookup_addr_order_run =
    (lookup_addr_order narrow_first inside narrow_first-IsMap).1
      (AllMasked-IsSettled narrow_first inside masked)

-- 10.1.2.3/8, which is not masked, beside 10.0.0.0/8: the first of the two answers.
abbrev rough : Prefix
rough = p4 167838211 8

abbrev via : NextHop
via = record { peer_id = "p"; weight = 1; ingress_id = "i" }

wide_answers :
    lookup_addr (record { entries = (wide, []) ∷ (rough, via ∷ []) ∷ [] }) inside ≡ some []
unfolding lookup_addr contains bits
wide_answers = refl

rough_answers :
    lookup_addr (record { entries = (rough, via ∷ []) ∷ (wide, []) ∷ [] }) inside ≡ some (via ∷ [])
unfolding lookup_addr contains bits
rough_answers = refl

lookup_addr-update_run :
    (lookup_addr (insert_route wide [] narrow_first) outside ≡ lookup_addr narrow_first outside)
    × (lookup_addr (remove_route wide narrow_first) outside ≡ lookup_addr narrow_first outside)
unfolding contains
lookup_addr-update_run =
    lookup_addr-update narrow_first outside wide [] narrow_first-IsMap masked refl

-- 10.1.2.0/24
abbrev narrower : Prefix
narrower = p4 167838208 24

abbrev hop : NextHop
hop = record { peer_id = "relay"; weight = 1; ingress_id = "" }

at_most_24 :
    (q : Prefix) (ks : List NextHop)
    → lookup q narrow_first.entries ≡ some ks
    → contains q inside ≡ true
    → bits q ≤ bits narrower
unfolding lookup bits
at_most_24 q ks h c = elim (Bool-cases (prefix_eq.beq narrow q)) [
  | inl e ↦ subst (λ q. bits q ≤ 24) ((prefix_eq.beq_iff narrow q).0 e) (omega arith)
  | inr e ↦ elim (Bool-cases (prefix_eq.beq wide q)) [
    | inl d ↦ subst (λ q. bits q ≤ 24) ((prefix_eq.beq_iff wide q).0 d) (omega arith)
    | inr d ↦ absurd (ground (arith, e, d, h))
  ]
]

lookup_addr-insert_route_run :
    lookup_addr (insert_route narrower (hop ∷ []) narrow_first) inside ≡ some (hop ∷ [])
unfolding contains
lookup_addr-insert_route_run =
    lookup_addr-insert_route narrow_first inside narrower (hop ∷ []) narrow_first-IsMap masked refl
      refl at_most_24
