-- ===== src/Topology/Tables/Aggregate.antt =====
-- internal/controller/topology/fib.go: what is kept of the first hops of the baseline routes.
use Prim.Native.String.{String}
use mathlib.Core.List.{Memᴰ}
use corelink.Prelude.Members.{Mem-snoc}
use corelink.Prelude.{
  ◌≡◌, ◌≢◌, refl, sym, subst, ◌⊎◌, inl, inr, true, false, List, [], ◌∷◌, Option, none, some, arith,
  Bool-cases, Option-cases,
}
use corelink.Prelude.Assoc.{Assoc, lookup, insert, lookup-insert, ◌=?◌, string_eq}
use corelink.Topology.Dag.{FibNextHop, or_nil}
use corelink.Topology.Dag.Colors.{string_cases}
use corelink.Topology.Tables.{
  Hop, RoutePair, Baseline, DstAgg, PerSourceAgg, seen_key, add_first_hop, or_new, add_route,
  add_routes, host_prefix, add_pair, aggregate,
}

abbrev pub Dsts : Type 0
Dsts = Assoc String DstAgg

insert_here :
    (k : String) (v : DstAgg) (j : String) (w : DstAgg) (m : Dsts)
    → (j =? k) ≡ true
    → insert k v ((j, w) ∷ m) ≡ (k, v) ∷ m
unfolding insert
insert_here k v j w m e = rw e

insert_on :
    (k : String) (v : DstAgg) (j : String) (w : DstAgg) (m : Dsts)
    → (j =? k) ≡ false
    → insert k v ((j, w) ∷ m) ≡ (j, w) ∷ insert k v m
unfolding insert
insert_on k v j w m e = rw e

Mem-insert :
    (k : String) (v : DstAgg) (m : Dsts) (x : String × DstAgg)
    → Memᴰ x (insert k v m)
    → (x ≡ (k, v)) ⊎ Memᴰ x m
unfolding insert
Mem-insert k v [] x h = elim h [ Memᴰ.head e ↦ inl e | Memᴰ.tail r ↦ inr r ]
Mem-insert k v ((j, w) ∷ m) x h = elim (Bool-cases (j =? k)) [
  | inl e ↦ elim (subst (Memᴰ x) (insert_here k v j w m e) h) [
    | Memᴰ.head q ↦ inl q
    | Memᴰ.tail r ↦ inr (Memᴰ.tail r)
  ]
  | inr e ↦ elim (subst (Memᴰ x) (insert_on k v j w m e) h) [
    | Memᴰ.head q ↦ inr (Memᴰ.head q)
    | Memᴰ.tail r ↦ elim (Mem-insert k v m x r) [ inl q ↦ inl q | inr q ↦ inr (Memᴰ.tail q) ]
  ]
]

pub lookup-Mem : (k : String) (v : DstAgg) (m : Dsts) → lookup k m ≡ some v → Memᴰ (k, v) m
unfolding lookup
lookup-Mem k v [] h = cc
lookup-Mem k v ((j, w) ∷ m) h = elim (Bool-cases (j =? k)) [
  | inl e ↦ Memᴰ.head (ground (arith, string_eq.beq_iff j k))
  | inr e ↦ Memᴰ.tail (lookup-Mem k v m (ground arith))
]

abbrev pub first_hop : Hop → FibNextHop
first_hop h = record { peer_id = h.node; weight = 100; ingress_id = h.ingress }

pub dsts_here :
    (src u : String) (dsts : Dsts) (m : PerSourceAgg)
    → src ≡ u
    → or_nil (lookup u (insert src dsts m)) ≡ dsts
dsts_here src u dsts m q = ground (arith, lookup-insert src u dsts m, string_eq.beq_iff src u)

pub dsts_other :
    (src u : String) (dsts : Dsts) (m : PerSourceAgg)
    → src ≢ u
    → or_nil (lookup u (insert src dsts m)) ≡ or_nil (lookup u m)
dsts_other src u dsts m q = ground (arith, lookup-insert src u dsts m, string_eq.beq_iff src u)

pub add_pair-none :
    (vips : Assoc String String) (rp : RoutePair) (routes : List (List Hop)) (m : PerSourceAgg)
    → lookup rp.dst vips ≡ none
    → add_pair vips rp routes m ≡ m
unfolding add_pair
add_pair-none vips rp routes m e = rw (add_pair, e)

pub add_pair-some :
    (vips : Assoc String String) (rp : RoutePair) (routes : List (List Hop)) (m : PerSourceAgg)
    (vip : String)
    → lookup rp.dst vips ≡ some vip
    → add_pair vips rp routes m ≡ add_routes rp.src (host_prefix vip) routes m
unfolding add_pair
add_pair-some vips rp routes m vip e = rw (add_pair, e)

-- What holds of the hops that are added holds of all hops that are kept.
module _ (P : String → String → FibNextHop → Type 0) where
  abbrev pub Holds : String → String → DstAgg → Type 0
  Holds src prefix agg =
      (agg.prefix ≡ prefix) × ((nh : FibNextHop) → Memᴰ nh agg.hops → P src prefix nh)

  abbrev pub AllHold : PerSourceAgg → Type 0
  AllHold m =
      (src prefix : String) (agg : DstAgg)
      → Memᴰ (prefix, agg) (or_nil (lookup src m))
      → Holds src prefix agg

  Holds-add_first_hop :
      (src prefix : String) (h : Hop) (agg : DstAgg)
      → P src prefix (first_hop h)
      → Holds src prefix agg
      → Holds src prefix (add_first_hop h agg)
  unfolding add_first_hop
  Holds-add_first_hop src prefix h agg p (e, all) =
      elim (Bool-cases (seen_key h.node h.ingress agg.seen)) [
        | inl q ↦ rw (add_first_hop, q) (e, all)
        | inr q ↦
            rw (add_first_hop, q)
              (
                e,
                λ nh m. elim ((Mem-snoc nh _ agg.hops).0 m) [
                  | inl r ↦ subst (P src prefix) (sym r) p
                  | inr r ↦ all nh r
                ],
              )
      ]

  Holds-old :
      (src prefix : String) (m : PerSourceAgg) (o : Option DstAgg)
      → AllHold m
      → lookup prefix (or_nil (lookup src m)) ≡ o
      → Holds src prefix (or_new prefix o)
  Holds-old src prefix m none all e = (refl, λ nh x. elim x [ ])
  Holds-old src prefix m (some agg) all e =
      all src prefix agg (lookup-Mem prefix agg (or_nil (lookup src m)) e)

  AllHold-set :
      (src : String) (dsts : Dsts) (m : PerSourceAgg)
      → ((prefix : String) (agg : DstAgg) → Memᴰ (prefix, agg) dsts → Holds src prefix agg)
      → AllHold m
      → AllHold (insert src dsts m)
  AllHold-set src dsts m new all src' prefix' agg x = elim (string_cases src src') [
    | inl q ↦
        subst (λ s. Holds s prefix' agg) q
          (new prefix' agg (subst (Memᴰ (prefix', agg)) (dsts_here src src' dsts m q) x))
    | inr q ↦ all src' prefix' agg (subst (Memᴰ (prefix', agg)) (dsts_other src src' dsts m q) x)
  ]

  AllHold-add_route :
      (src prefix : String) (h : Hop) (rest : List Hop) (m : PerSourceAgg)
      → P src prefix (first_hop h)
      → AllHold m
      → AllHold (add_route src prefix (h ∷ rest) m)
  unfolding add_route
  AllHold-add_route src prefix h rest m p all =
      let dsts = or_nil (lookup src m) in
      let old = or_new prefix (lookup prefix dsts) in
      let good =
        Holds-add_first_hop src prefix h old p
          (Holds-old src prefix m (lookup prefix dsts) all refl) in
      AllHold-set src (insert prefix (add_first_hop h old) dsts) m
        (λ prefix' agg x. elim (Mem-insert prefix (add_first_hop h old) dsts (prefix', agg) x) [
          | inl q ↦ subst (λ (z : String × DstAgg). Holds src (z.0) (z.1)) (sym q) good
          | inr r ↦ all src prefix' agg r
        ])
        all

  AllHold-add_routes :
      (src prefix : String) (routes : List (List Hop)) (m : PerSourceAgg)
      → ((h : Hop) (rest : List Hop) → Memᴰ (h ∷ rest) routes → P src prefix (first_hop h))
      → AllHold m
      → AllHold (add_routes src prefix routes m)
  unfolding add_routes
  AllHold-add_routes src prefix [] m p all = all
  AllHold-add_routes src prefix ([] ∷ routes) m p all =
      AllHold-add_routes src prefix routes (add_route src prefix [] m)
        (λ h rest x. p h rest (Memᴰ.tail x)) (unfold add_route in all)
  AllHold-add_routes src prefix ((h ∷ r) ∷ routes) m p all =
      AllHold-add_routes src prefix routes (add_route src prefix (h ∷ r) m)
        (λ h' rest x. p h' rest (Memᴰ.tail x))
        (AllHold-add_route src prefix h r m (p h r (Memᴰ.head refl)) all)

  pub AllHold-aggregate :
      (vips : Assoc String String) (baseline : Baseline) (m : PerSourceAgg)
      → ((rp : RoutePair) (routes : List (List Hop)) (vip : String) (h : Hop) (rest : List Hop)
          → Memᴰ (rp, routes) baseline
          → lookup rp.dst vips ≡ some vip
          → Memᴰ (h ∷ rest) routes
          → P rp.src (host_prefix vip) (first_hop h))
      → AllHold m
      → AllHold (aggregate vips baseline m)
  unfolding aggregate
  AllHold-aggregate vips [] m p all = all
  AllHold-aggregate vips ((rp, routes) ∷ baseline) m p all =
      AllHold-aggregate vips baseline (add_pair vips rp routes m)
        (λ rp' routes' vip h rest x. p rp' routes' vip h rest (Memᴰ.tail x))
        (elim (Option-cases (lookup rp.dst vips)) [
          | inl e ↦ subst AllHold (sym (add_pair-none vips rp routes m e)) all
          | inr (vip, e) ↦ subst AllHold (sym (add_pair-some vips rp routes m vip e)) (
              AllHold-add_routes rp.src (host_prefix vip) routes m
                (λ h rest x. p rp routes vip h rest (Memᴰ.head refl) e x) all)
        ])
