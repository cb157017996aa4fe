-- ===== src/Topology/Tables/Growth.antt =====
-- internal/controller/topology/fib.go: the aggregates grow by every first hop of a baseline route.
use Prim.Native.String.{String}
use mathlib.Core.List.{Memᴰ}
use corelink.Prelude.{
  ◌≡◌, refl, subst, inl, inr, true, ◌&&◌, List, [], ◌∷◌, ◌++◌, if◌then◌else◌, some, arith,
  Bool-cases, Option-cases,
}
use corelink.Prelude.Assoc.{Assoc, lookup, insert, lookup-insert, ◌=?◌, string_eq}
use corelink.Topology.Dag.{FibNextHop, or_nil}
use corelink.Topology.Tables.{
  Hop, RoutePair, Baseline, DstAgg, PerSourceAgg, seen_key, add_first_hop, or_new, add_route,
  add_routes, host_prefix, add_pair, aggregate,
}
use corelink.Topology.Tables.Aggregate.{first_hop, add_pair-none, add_pair-some}

Mem-snoc_old {ℓ} : {A : Type ℓ} (x y : A) (xs : List A) → Memᴰ x xs → Memᴰ x (xs ++ (y ∷ []))
Mem-snoc_old x y [] m = elim m [ ]
Mem-snoc_old x y (z ∷ xs) (Memᴰ.head e) = Memᴰ.head e
Mem-snoc_old x y (z ∷ xs) (Memᴰ.tail r) = Memᴰ.tail (Mem-snoc_old x y xs r)

Mem-snoc_new {ℓ} : {A : Type ℓ} (y : A) (xs : List A) → Memᴰ y (xs ++ (y ∷ []))
Mem-snoc_new y [] = Memᴰ.head refl
Mem-snoc_new y (z ∷ xs) = Memᴰ.tail (Mem-snoc_new y xs)

abbrev pub hop_of : String → String → FibNextHop
hop_of peer ingress = record { peer_id = peer; weight = 100; ingress_id = ingress }

-- The pairs that are marked as seen are among the hops.
abbrev pub SeenOk : DstAgg → Type 0
SeenOk agg = (p i : String) → seen_key p i agg.seen ≡ true → Memᴰ (hop_of p i) agg.hops

add_first_hop-keeps :
    (h : Hop) (agg : DstAgg) (nh : FibNextHop)
    → Memᴰ nh agg.hops
    → Memᴰ nh (add_first_hop h agg).hops
unfolding add_first_hop
add_first_hop-keeps h agg nh m = elim (Bool-cases (seen_key h.node h.ingress agg.seen)) [
  | inl e ↦ rw (add_first_hop, e) m
  | inr e ↦ rw (add_first_hop, e) (Mem-snoc_old nh (hop_of h.node h.ingress) agg.hops m)
]

add_first_hop-has :
    (h : Hop) (agg : DstAgg) → SeenOk agg → Memᴰ (first_hop h) (add_first_hop h agg).hops
unfolding add_first_hop
add_first_hop-has h agg ok = elim (Bool-cases (seen_key h.node h.ingress agg.seen)) [
  | inl e ↦ rw (add_first_hop, e) (ok h.node h.ingress e)
  | inr e ↦ rw (add_first_hop, e) (Mem-snoc_new (hop_of h.node h.ingress) agg.hops)
]

add_first_hop-SeenOk : (h : Hop) (agg : DstAgg) → SeenOk agg → SeenOk (add_first_hop h agg)
unfolding add_first_hop
add_first_hop-SeenOk h agg ok = elim (Bool-cases (seen_key h.node h.ingress agg.seen)) [
  | inl e ↦ rw (add_first_hop, e) ok
  | inr e ↦
      rw (add_first_hop, e)
        (λ p i s. elim (Bool-cases ((h.node =? p) && (h.ingress =? i))) [
          | inl q ↦
              subst (λ x. Memᴰ x (agg.hops ++ (hop_of h.node h.ingress ∷ [])))
                (ground (arith, string_eq.beq_iff h.node p, string_eq.beq_iff h.ingress i, q))
                (Mem-snoc_new (hop_of h.node h.ingress) agg.hops)
          | inr q ↦
              Mem-snoc_old (hop_of p i) (hop_of h.node h.ingress) agg.hops
                (ok p i (ground (arith, s, q)))
        ])
]

abbrev pub agg_of : PerSourceAgg → String → String → DstAgg
agg_of m s p = or_new p (lookup p (or_nil (lookup s m)))

agg_of-add_route :
    (src prefix s p : String) (h : Hop) (rest : List Hop) (m : PerSourceAgg)
    → agg_of (add_route src prefix (h ∷ rest) m) s p
      ≡ (if (src =? s) && (prefix =? p) then add_first_hop h (agg_of m s p) else agg_of m s p)
unfolding add_route
agg_of-add_route src prefix s p h rest m =
    let dsts = or_nil (lookup src m) in
    let new = add_first_hop h (or_new prefix (lookup prefix dsts)) in
    ground (
      arith,
      lookup-insert src s (insert prefix new dsts) m,
      lookup-insert prefix p new dsts,
      string_eq.beq_iff src s,
      string_eq.beq_iff prefix p,
    )

abbrev pub AllSeenOk : PerSourceAgg → Type 0
AllSeenOk m = (s p : String) → SeenOk (agg_of m s p)

-- What one step of the walk does.
record Grows (m m' : PerSourceAgg) : Type 0 where
  seen_ok : AllSeenOk m → AllSeenOk m'
  keeps :
      (s p : String) (nh : FibNextHop) → Memᴰ nh (agg_of m s p).hops → Memᴰ nh (agg_of m' s p).hops

Grows-refl : (m : PerSourceAgg) → Grows m m
Grows-refl m = record { seen_ok = λ h. h; keeps = λ s p nh x. x }

Grows-trans : (a b c : PerSourceAgg) → Grows a b → Grows b c → Grows a c
Grows-trans a b c g k = record {
  seen_ok = λ h. k.seen_ok (g.seen_ok h);
  keeps = λ s p nh x. k.keeps s p nh (g.keeps s p nh x);
}

add_route-Grows :
    (src prefix : String) (h : Hop) (rest : List Hop) (m : PerSourceAgg)
    → Grows m (add_route src prefix (h ∷ rest) m)
add_route-Grows src prefix h rest m = record {
  seen_ok = λ ok s p.
      rw (agg_of-add_route src prefix s p h rest m)
        (elim (Bool-cases ((src =? s) && (prefix =? p))) [
          | inl e ↦ rw e (add_first_hop-SeenOk h (agg_of m s p) (ok s p))
          | inr e ↦ rw e (ok s p)
        ]);
  keeps = λ s p nh x.
      rw (agg_of-add_route src prefix s p h rest m)
        (elim (Bool-cases ((src =? s) && (prefix =? p))) [
          | inl e ↦ rw e (add_first_hop-keeps h (agg_of m s p) nh x)
          | inr e ↦ rw e x
        ]);
}

both_same : (s p : String) → ((s =? s) && (p =? p)) ≡ true
both_same s p = ground (arith, string_eq.beq_iff s s, string_eq.beq_iff p p)

add_route-has :
    (src prefix : String) (h : Hop) (rest : List Hop) (m : PerSourceAgg)
    → AllSeenOk m
    → Memᴰ (first_hop h) (agg_of (add_route src prefix (h ∷ rest) m) src prefix).hops
add_route-has src prefix h rest m ok =
    rw (agg_of-add_route src prefix src prefix h rest m, both_same src prefix)
      (add_first_hop-has h (agg_of m src prefix) (ok src prefix))

add_routes-Grows :
    (src prefix : String) (routes : List (List Hop)) (m : PerSourceAgg)
    → Grows m (add_routes src prefix routes m)
unfolding add_routes add_route
add_routes-Grows src prefix [] m = Grows-refl m
add_routes-Grows src prefix ([] ∷ routes) m = add_routes-Grows src prefix routes m
add_routes-Grows src prefix ((h ∷ r) ∷ routes) m =
    Grows-trans m _ _ (add_route-Grows src prefix h r m)
      (add_routes-Grows src prefix routes (add_route src prefix (h ∷ r) m))

route_step :
    (src prefix : String) (hops : List Hop) (m : PerSourceAgg)
    → Grows m (add_route src prefix hops m)
unfolding add_route
route_step src prefix [] m = Grows-refl m
route_step src prefix (h ∷ rest) m = add_route-Grows src prefix h rest m

add_routes-has :
    (src prefix : String) (routes : List (List Hop)) (m : PerSourceAgg) (h : Hop) (rest : List Hop)
    → AllSeenOk m
    → Memᴰ (h ∷ rest) routes
    → Memᴰ (first_hop h) (agg_of (add_routes src prefix routes m) src prefix).hops
unfolding add_routes
add_routes-has src prefix [] m h rest ok x = elim x [ ]
add_routes-has src prefix (r ∷ routes) m h rest ok x = elim x [
  | Memᴰ.head q ↦
      subst
        (λ r.
          Memᴰ (first_hop h)
            (agg_of (add_routes src prefix routes (add_route src prefix r m)) src prefix).hops)
        q
        ((add_routes-Grows src prefix routes (add_route src prefix (h ∷ rest) m)).keeps src prefix
          (first_hop h) (add_route-has src prefix h rest m ok))
  | Memᴰ.tail y ↦
      add_routes-has src prefix routes (add_route src prefix r m) h rest
        ((route_step src prefix r m).seen_ok ok) y
]

add_pair-Grows :
    (vips : Assoc String String) (rp : RoutePair) (routes : List (List Hop)) (m : PerSourceAgg)
    → Grows m (add_pair vips rp routes m)
add_pair-Grows vips rp routes m = elim (Option-cases (lookup rp.dst vips)) [
  | inl e ↦ rw (add_pair-none vips rp routes m e) (Grows-refl m)
  | inr (vip, e) ↦
      rw (add_pair-some vips rp routes m vip e) (add_routes-Grows rp.src (host_prefix vip) routes m)
]

aggregate-Grows :
    (vips : Assoc String String) (baseline : Baseline) (m : PerSourceAgg)
    → Grows m (aggregate vips baseline m)
unfolding aggregate
aggregate-Grows vips [] m = Grows-refl m
aggregate-Grows vips ((rp, routes) ∷ baseline) m =
    Grows-trans m _ _ (add_pair-Grows vips rp routes m)
      (aggregate-Grows vips baseline (add_pair vips rp routes m))

pub aggregate-has :
    (vips : Assoc String String) (baseline : Baseline) (m : PerSourceAgg) (rp : RoutePair)
    (routes : List (List Hop)) (vip : String) (h : Hop) (rest : List Hop)
    → AllSeenOk m
    → Memᴰ (rp, routes) baseline
    → lookup rp.dst vips ≡ some vip
    → Memᴰ (h ∷ rest) routes
    → Memᴰ (first_hop h) (agg_of (aggregate vips baseline m) rp.src (host_prefix vip)).hops
unfolding aggregate
aggregate-has vips [] m rp routes vip h rest ok x e y = elim x [ ]
aggregate-has vips ((rp', routes') ∷ baseline) m rp routes vip h rest ok x e y = elim x [
  | Memᴰ.head q ↦
      subst
        (λ (z : RoutePair × List (List Hop)).
          Memᴰ (first_hop h)
            (agg_of (aggregate vips baseline (add_pair vips (z.0) (z.1) m)) rp.src
              (host_prefix vip)).hops)
        q
        ((aggregate-Grows vips baseline (add_pair vips rp routes m)).keeps rp.src (host_prefix vip)
          (first_hop h)
          (rw (add_pair-some vips rp routes m vip e)
            (add_routes-has rp.src (host_prefix vip) routes m h rest ok y)))
  | Memᴰ.tail r ↦
      aggregate-has vips baseline (add_pair vips rp' routes' m) rp routes vip h rest
        ((add_pair-Grows vips rp' routes' m).seen_ok ok) r e y
]
