-- ===== src/Fib/Table/Updates.antt =====
-- What an update of the table of internal/transport/fib/fib.go does to the answers of `Lookup`.
use corelink.Prelude.{
  ◌≤◌, ◌≡◌, ◌⊎◌, ◌↔◌, ap, ◌∷◌, inl, inr, refl, sym, subst, ◌∙◌, true, false, List, Option, none,
  some, if◌then◌else◌, arith, Bool-cases, Option-cases,
}
use corelink.Prelude.Assoc.{
  Assoc, insert, erase, lookup, IsMap, insert-IsMap, erase-IsMap, lookup-insert, lookup-erase,
}
use corelink.Wire.Addr.{Addr}
use corelink.Fib.Prefix.{Prefix, prefix_eq, bits, contains, IsMasked, contains_unique}
use corelink.Fib.Table.{NextHop, Fib, lookup_addr, insert_route, remove_route}
use corelink.Fib.Table.LongestMatch.{
  IsLongest, lookup_addr-IsLongest, lookup_addr-none, lookup_addr-front,
}

abbrev pub AllMasked : Assoc Prefix (List NextHop) → Type 0
AllMasked m = (p : Prefix) (hs : List NextHop) → lookup p m ≡ some hs → IsMasked p

-- The longest match is what `Lookup` answers: with masked prefixes there is one at most.
pub lookup_addr-found :
    (f : Fib) (addr : Addr) (p : Prefix) (hs : List NextHop)
    → IsMap f.entries
    → AllMasked f.entries
    → IsLongest f.entries addr p hs
    → lookup_addr f addr ≡ some hs
lookup_addr-found f addr p hs u masked l = elim (Option-cases (lookup_addr f addr)) [
  | inl e ↦ absurd (ground (arith, lookup_addr-none f addr p hs e l.present, l.holds))
  | inr (ks, e) ↦
      let (q, k) = lookup_addr-IsLongest f addr ks u e in
      let one : p ≡ q =
        contains_unique p q addr (masked p hs l.present) (masked q ks k.present) l.holds k.holds
          (omega (arith, l.longest q ks k.present k.holds, k.longest p hs l.present l.holds)) in
      ground (arith, e, k.present, rw one at l.present)
]

some_inj : {x y : List NextHop} → some x ≡ some y → x ≡ y
some_inj h = cc (h)

-- Tables that agree on the prefixes that hold an address give it the same answer.
lookup_addr_agree :
    (f g : Fib) (addr : Addr)
    → IsMap f.entries
    → IsMap g.entries
    → AllMasked g.entries
    → ((p : Prefix) → contains p addr ≡ true → lookup p f.entries ≡ lookup p g.entries)
    → lookup_addr f addr ≡ lookup_addr g addr
lookup_addr_agree f g addr u v masked same = elim (Option-cases (lookup_addr f addr)) [
  | inl e ↦ elim (Option-cases (lookup_addr g addr)) [
    | inl e' ↦ e ∙ sym e'
    | inr (ks, e') ↦
        let (q, k) = lookup_addr-IsLongest g addr ks v e' in
        absurd
          (ground (arith, lookup_addr-none f addr q ks e (same q k.holds ∙ k.present), k.holds))
  ]
  | inr (hs, e) ↦
      let (p, l) = lookup_addr-IsLongest f addr hs u e in
      e
      ∙ sym (
          lookup_addr-found g addr p hs v masked (record {
            present = sym (same p l.holds) ∙ l.present;
            holds = l.holds;
            longest = λ q ks h c. l.longest q ks (same q c ∙ h) c;
          }))
]

-- The tables with the entries of `f`, in every order, give the address one answer.
abbrev pub IsOrderFree : Fib → Addr → Type 0
IsOrderFree f addr =
    (g : Fib)
    → IsMap g.entries
    → ((p : Prefix) → lookup p f.entries ≡ lookup p g.entries)
    → lookup_addr f addr ≡ lookup_addr g addr

-- All longest matches of the address have the same next hops.
abbrev pub IsSettled : Fib → Addr → Type 0
IsSettled f addr =
    (p q : Prefix) (hs ks : List NextHop)
    → IsLongest f.entries addr p hs
    → IsLongest f.entries addr q ks
    → hs ≡ ks

IsLongest-same :
    {m m' : Assoc Prefix (List NextHop)} {addr : Addr} {p : Prefix} {hs : List NextHop}
    → ((p : Prefix) → lookup p m ≡ lookup p m')
    → IsLongest m' addr p hs
    → IsLongest m addr p hs
IsLongest-same {p} same l = record {
  present = same p ∙ l.present;
  holds = l.holds;
  longest = λ q ks h c. l.longest q ks (sym (same q) ∙ h) c;
}

IsSettled-IsOrderFree :
    (f : Fib) (addr : Addr) → IsMap f.entries → IsSettled f addr → IsOrderFree f addr
IsSettled-IsOrderFree f addr u settled g v same = elim (Option-cases (lookup_addr f addr)) [
  | inl e ↦ elim (Option-cases (lookup_addr g addr)) [
    | inl e' ↦ e ∙ sym e'
    | inr (ks, e') ↦
        let (q, k) = lookup_addr-IsLongest g addr ks v e' in
        let l : IsLongest f.entries addr q ks = IsLongest-same same k in
        absurd (ground (arith, lookup_addr-none f addr q ks e l.present, l.holds))
  ]
  | inr (hs, e) ↦
      let (p, l) = lookup_addr-IsLongest f addr hs u e in
      elim (Option-cases (lookup_addr g addr)) [
        | inl e' ↦
            absurd
              (ground (arith, lookup_addr-none g addr p hs e' (sym (same p) ∙ l.present), l.holds))
        | inr (ks, e') ↦
            let (q, k) = lookup_addr-IsLongest g addr ks v e' in
            e ∙ ap some (settled p q hs ks l (IsLongest-same same k)) ∙ sym e'
      ]
]

-- The order that walks an entry first.
abbrev in_front : Prefix → List NextHop → Fib → Fib
in_front p hs f = record { entries = (p, hs) ∷ erase p f.entries }

lookup-erased :
    (p q : Prefix) (ks : List NextHop) (m : Assoc Prefix (List NextHop))
    → lookup q (erase p m) ≡ some ks
    → lookup q m ≡ some ks
lookup-erased p q ks m h = ground (arith, lookup-erase p q m, h)

in_front-same :
    (f : Fib) (p : Prefix) (hs : List NextHop)
    → lookup p f.entries ≡ some hs
    → (q : Prefix) → lookup q f.entries ≡ lookup q (in_front p hs f).entries
unfolding lookup
in_front-same f p hs l q = elim (Bool-cases (prefix_eq.beq p q)) [
  | inl e ↦
      rw (lookup, e) (subst (λ z. lookup z f.entries ≡ some hs) ((prefix_eq.beq_iff p q).0 e) l)
  | inr e ↦ rw (lookup, e) (ground (arith, lookup-erase p q f.entries, e))
]

in_front-answers :
    (f : Fib) (addr : Addr) (p : Prefix) (hs : List NextHop)
    → IsMap f.entries
    → IsOrderFree f addr
    → IsLongest f.entries addr p hs
    → lookup_addr f addr ≡ some hs
in_front-answers f addr p hs u free l =
    let v = erase-IsMap p f.entries u in
    let gone : lookup p (erase p f.entries) ≡ none =
      ground (arith, lookup-erase p p f.entries, prefix_eq.beq_iff p p) in
    free (in_front p hs f) (gone, v) (in_front-same f p hs l.present)
    ∙ lookup_addr-front addr p hs (erase p f.entries) v l.holds
        (λ q ks h c. l.longest q ks (lookup-erased p q ks f.entries h) c)

-- On a table without repeated prefixes, the order in which the map is walked does not show in the
-- answer to an address exactly when all longest matches of the address have the same next hops.
pub lookup_addr_order :
    (f : Fib) (addr : Addr) → IsMap f.entries → IsOrderFree f addr ↔ IsSettled f addr
lookup_addr_order f addr u = (
  λ free p q hs ks l k.
      some_inj
        (sym (in_front-answers f addr p hs u free l) ∙ in_front-answers f addr q ks u free k),
  IsSettled-IsOrderFree f addr u,
)

-- So it is on a table of masked prefixes, which has one longest match at most.
pub AllMasked-IsSettled : (f : Fib) (addr : Addr) → AllMasked f.entries → IsSettled f addr
AllMasked-IsSettled f addr masked p q hs ks l k =
    let one : p ≡ q =
      contains_unique p q addr (masked p hs l.present) (masked q ks k.present) l.holds k.holds
        (omega (arith, l.longest q ks k.present k.holds, k.longest p hs l.present l.holds)) in
    some_inj (sym (subst (λ z. lookup z f.entries ≡ some hs) one l.present) ∙ k.present)

-- On a table of masked prefixes without repeats, inserting or removing a prefix that does not hold an
-- address does not change the answer to that address.
pub lookup_addr-update :
    (f : Fib) (addr : Addr) (p : Prefix) (hs : List NextHop)
    → IsMap f.entries
    → AllMasked f.entries
    → contains p addr ≡ false
    → (lookup_addr (insert_route p hs f) addr ≡ lookup_addr f addr)
      × (lookup_addr (remove_route p f) addr ≡ lookup_addr f addr)
unfolding insert_route remove_route
lookup_addr-update f addr p hs u masked out = (
  lookup_addr_agree _ f addr (insert-IsMap p hs f.entries u) u masked
      (λ q c. lookup-insert p q hs f.entries ∙ elsewhere q c (some hs)),
  lookup_addr_agree _ f addr (erase-IsMap p f.entries u) u masked
      (λ q c. lookup-erase p q f.entries ∙ elsewhere q c none),
)
  where
    elsewhere :
        (q : Prefix)
        → contains q addr ≡ true
        → (o : Option (List NextHop))
        → (if prefix_eq.beq p q then o else lookup q f.entries) ≡ lookup q f.entries
    elsewhere q c o = elim (Bool-cases (prefix_eq.beq p q)) [
      | inl same ↦ absurd (ground (arith, c, rw ((prefix_eq.beq_iff p q).0 same) at out))
      | inr other ↦ rw other
    ]

-- On a table of masked prefixes without repeats, an inserted masked prefix that holds the address and is
-- at least as long as every other that does takes the traffic of the address.
pub lookup_addr-insert_route :
    (f : Fib) (addr : Addr) (p : Prefix) (hs : List NextHop)
    → IsMap f.entries
    → AllMasked f.entries
    → IsMasked p
    → contains p addr ≡ true
    → ((q : Prefix) (ks : List NextHop)
        → lookup q f.entries ≡ some ks
        → contains q addr ≡ true
        → bits q ≤ bits p)
    → lookup_addr (insert_route p hs f) addr ≡ some hs
unfolding insert_route
lookup_addr-insert_route f addr p hs u masked mine c longest =
    lookup_addr-found _ addr p hs (insert-IsMap p hs f.entries u)
      (λ q ks h. elim (seen q ks h) [ inl e ↦ subst IsMasked e mine | inr old ↦ masked q ks old ])
      (record {
        present = rw (lookup-insert p p hs f.entries) (rw ((prefix_eq.beq_iff p p).1 refl));
        holds = c;
        longest = λ q ks h d. elim (seen q ks h) [
          | inl e ↦ rw e (omega arith)
          | inr old ↦ longest q ks old d
        ];
      })
  where
    seen :
        (q : Prefix) (ks : List NextHop)
        → lookup q (insert p hs f.entries) ≡ some ks
        → (p ≡ q) ⊎ (lookup q f.entries ≡ some ks)
    seen q ks h = elim (Bool-cases (prefix_eq.beq p q)) [
      | inl same ↦ inl ((prefix_eq.beq_iff p q).0 same)
      | inr other ↦ inr (sym (lookup-insert p q hs f.entries ∙ rw other) ∙ h)
    ]
