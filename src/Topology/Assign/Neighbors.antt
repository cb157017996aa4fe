-- ===== src/Topology/Assign/Neighbors.antt =====
-- The neighbours and the ingress index of internal/controller/topology/assign.go.
use Prim.Native.String.{String}
use mathlib.Core.List.{Memᴰ}
use corelink.Prelude.{
  ◌≡◌, refl, sym, ap, subst, ◌∙◌, ◌⊎◌, true, List, [], ◌∷◌, some, inl, inr, Bool-cases, arith,
}
use corelink.Prelude.Assoc.{Assoc, lookup, insert, ◌=?◌, string_eq}
use corelink.Prelude.Sort.{string_lt, sort_func, Mem-sort_func}
use corelink.Topology.Dag.{or_nil}
use corelink.Topology.Dag.Colors.{string_cases}
use corelink.Topology.Prune.{contains}
use corelink.Topology.Baseline.{PrunedEdge}
use corelink.Topology.Roles.{IngressMeta, NodeEligibilityInput}
use corelink.Topology.Peers.{IngressIndex, ingresses_of}
use corelink.Topology.Shortest.Walks.{lookup-insert_self, lookup-insert_ne}
use corelink.Topology.Assign.{
  NeighborSpec, neighbor_lt, reachable_ids, reachable_ingress_ids, index_nodes, build_ingress_index,
  add_key, sorted_keys, Agg, add_ingress, aggregate_edges, specs_of, neighbor_table,
  build_neighbors_from_edges,
}

-- The table lists for `a` the neighbour `b` with the ingress `i`.
abbrev pub Listed : Assoc String (List NeighborSpec) → String → String → String → Type 0
Listed table a b i =
    (specs : List NeighborSpec) × (lookup a table ≡ some specs)
    × (spec : NeighborSpec) × Memᴰ spec specs
    × (spec.node_id ≡ b)
    × Memᴰ i spec.ingresses

contains-Mem : (k : String) (ks : List String) → contains k ks ≡ true → Memᴰ k ks
contains-Mem k [] h = cc
contains-Mem k (j ∷ ks) h = elim (Bool-cases (j =? k)) [
  | inl e ↦ Memᴰ.head (sym ((string_eq.beq_iff j k).0 e))
  | inr e ↦ Memᴰ.tail (contains-Mem k ks (ground (arith, e, h)))
]

pub Mem-add_key : (i k : String) (ks : List String) → (i ≡ k) ⊎ Memᴰ i ks → Memᴰ i (add_key k ks)
Mem-add_key i k ks h = elim (Bool-cases (contains k ks)) [
  | inl e ↦ rw (e) (elim h [
    | inl q ↦ subst (λ (z : String). Memᴰ z ks) (sym q) (contains-Mem k ks e)
    | inr m ↦ m
  ])
  | inr e ↦ rw (e) (elim h [ inl q ↦ Memᴰ.head q | inr m ↦ Memᴰ.tail m ])
]

-- The ingresses that are aggregated for `a` and `b`.
abbrev Has : Agg → String → String → String → Type 0
Has agg a b i =
    (by_dst : Assoc String (List String)) × (ings : List String) × (lookup a agg ≡ some by_dst)
    × (lookup b by_dst ≡ some ings)
    × Memᴰ i ings

add_ingress-new : (e : PrunedEdge) (agg : Agg) → Has (add_ingress e agg) e.src e.dst e.ingress
unfolding add_ingress
add_ingress-new e agg =
    let by_dst = or_nil (lookup e.src agg) in
    let ings = add_key e.ingress (or_nil (lookup e.dst by_dst)) in
    (
      insert e.dst ings by_dst,
      ings,
      lookup-insert_self e.src (insert e.dst ings by_dst) agg,
      lookup-insert_self e.dst ings by_dst,
      Mem-add_key e.ingress e.ingress (or_nil (lookup e.dst by_dst)) (inl refl),
    )

add_ingress-keeps :
    (e : PrunedEdge) (agg : Agg) (a b i : String) → Has agg a b i → Has (add_ingress e agg) a b i
unfolding add_ingress
add_ingress-keeps e agg a b i (by_dst, ings, p, q, m) =
    let old = or_nil (lookup e.src agg) in
    let new = add_key e.ingress (or_nil (lookup e.dst old)) in
    elim (string_cases e.src a) [
      | inr n ↦ (by_dst, ings, lookup-insert_ne e.src a (insert e.dst new old) agg n ∙ p, q, m)
      | inl s ↦
          let here : old ≡ by_dst = ap or_nil (ap (λ (z : String). lookup z agg) s ∙ p) in
          let found : lookup a (insert e.src (insert e.dst new old) agg)
              ≡ some (insert e.dst new old) =
            subst
              (λ (z : String).
                lookup z (insert e.src (insert e.dst new old) agg) ≡ some (insert e.dst new old))
              s (lookup-insert_self e.src (insert e.dst new old) agg) in
          elim (string_cases e.dst b) [
            | inl t ↦
                let there : or_nil (lookup e.dst old) ≡ ings =
                  ap or_nil (ap (λ (z : String). lookup z old) t ∙ ap (lookup b) here ∙ q) in
                (
                  insert e.dst new old,
                  new,
                  found,
                  subst (λ (z : String). lookup z (insert e.dst new old) ≡ some new) t
                      (lookup-insert_self e.dst new old),
                  Mem-add_key i e.ingress (or_nil (lookup e.dst old))
                      (inr (subst (Memᴰ i) (sym there) m)),
                )
            | inr n ↦ (
              insert e.dst new old,
              ings,
              found,
              lookup-insert_ne e.dst b new old n ∙ ap (lookup b) here ∙ q,
              m,
            )
          ]
    ]

aggregate_edges-keeps :
    (es : List PrunedEdge) (agg : Agg) (a b i : String)
    → Has agg a b i
    → Has (aggregate_edges es agg) a b i
unfolding aggregate_edges
aggregate_edges-keeps [] agg a b i h = h
aggregate_edges-keeps (e ∷ es) agg a b i h =
    aggregate_edges-keeps es (add_ingress e agg) a b i (add_ingress-keeps e agg a b i h)

aggregate_edges-Has :
    (es : List PrunedEdge) (agg : Agg) (pe : PrunedEdge)
    → Memᴰ pe es
    → Has (aggregate_edges es agg) pe.src pe.dst pe.ingress
unfolding aggregate_edges
aggregate_edges-Has [] agg pe m = elim m [ ]
aggregate_edges-Has (e ∷ es) agg pe (Memᴰ.head q) =
    subst (λ (z : PrunedEdge). Has (aggregate_edges es (add_ingress e agg)) z.src z.dst z.ingress)
      (sym q)
      (aggregate_edges-keeps es (add_ingress e agg) e.src e.dst e.ingress (add_ingress-new e agg))
aggregate_edges-Has (e ∷ es) agg pe (Memᴰ.tail k) = aggregate_edges-Has es (add_ingress e agg) pe k

specs_of-Mem :
    (by_dst : Assoc String (List String)) (b : String) (ings : List String)
    → lookup b by_dst ≡ some ings
    → Memᴰ (record { node_id = b; ingresses = sorted_keys ings }) (specs_of by_dst)
unfolding specs_of lookup
specs_of-Mem [] b ings h = cc
specs_of-Mem ((dst, is) ∷ by_dst) b ings h = elim (Bool-cases (dst =? b)) [
  | inl e ↦
      let same = (string_eq.beq_iff dst b).0 e in
      let all : is ≡ ings = ground (arith, e, h) in
      Memᴰ.head (λ t. record { node_id = sym same t; ingresses = sorted_keys (sym all t) })
  | inr e ↦ Memᴰ.tail (specs_of-Mem by_dst b ings (ground (arith, e, h)))
]

lookup-neighbor_table :
    (agg : Agg) (a : String) (by_dst : Assoc String (List String))
    → lookup a agg ≡ some by_dst
    → lookup a (neighbor_table agg) ≡ some (sort_func neighbor_lt (specs_of by_dst))
unfolding neighbor_table lookup
lookup-neighbor_table [] a by_dst h = cc
lookup-neighbor_table ((src, bd) ∷ agg) a by_dst h = elim (Bool-cases (src =? a)) [
  | inl e ↦
      let same : bd ≡ by_dst = ground (arith, e, h) in
      rw (e)
        (ap (λ (z : Assoc String (List String)). some (sort_func neighbor_lt (specs_of z))) same)
  | inr e ↦ rw (e) (lookup-neighbor_table agg a by_dst (ground (arith, e, h)))
]

-- Every edge is listed: its source has its end as a neighbour, with its ingress.
pub build_neighbors-Listed :
    (edges : List PrunedEdge) (pe : PrunedEdge)
    → Memᴰ pe edges
    → Listed (build_neighbors_from_edges edges) pe.src pe.dst pe.ingress
unfolding build_neighbors_from_edges
build_neighbors-Listed edges pe m =
    let (by_dst, ings, p, q, k) = aggregate_edges-Has edges [] pe m in
    let spec : NeighborSpec = record { node_id = pe.dst; ingresses = sorted_keys ings } in
    (
      sort_func neighbor_lt (specs_of by_dst),
      lookup-neighbor_table (aggregate_edges edges []) pe.src by_dst p,
      spec,
      (Mem-sort_func neighbor_lt spec (specs_of by_dst)).1 (specs_of-Mem by_dst pe.dst ings q),
      refl,
      (Mem-sort_func string_lt pe.ingress ings).1 k,
    )

-- A reachable ingress of a node of the name.
abbrev pub Reachable : List NodeEligibilityInput → String → String → Type 0
Reachable nodes b i =
    (n : NodeEligibilityInput) × Memᴰ n nodes
    × (n.node_id ≡ b)
    × (ing : IngressMeta) × Memᴰ ing n.ingresses
    × (ing.id ≡ i)
    × (ing.reachable ≡ true)

reachable_ids_sound :
    (ings : List IngressMeta) (i : String)
    → Memᴰ i (reachable_ids ings)
    → (ing : IngressMeta) × Memᴰ ing ings × (ing.id ≡ i) × (ing.reachable ≡ true)
unfolding reachable_ids
reachable_ids_sound [] i m = elim m [ ]
reachable_ids_sound (ing ∷ ings) i m = elim (Bool-cases ing.reachable) [
  | inl e ↦
      let k : Memᴰ i (ing.id ∷ reachable_ids ings) = rw (e) at m in
      elim k [
        | Memᴰ.head q ↦ (ing, Memᴰ.head refl, sym q, e)
        | Memᴰ.tail l ↦ let (j, n, p, r) = reachable_ids_sound ings i l in (j, Memᴰ.tail n, p, r)
      ]
  | inr e ↦ let (j, n, p, r) = reachable_ids_sound ings i (rw (e) at m) in (j, Memᴰ.tail n, p, r)
]

index_nodes_sound :
    (nodes : List NodeEligibilityInput) (idx : IngressIndex) (b i : String)
    → Memᴰ i (ingresses_of (index_nodes nodes idx) b)
    → Reachable nodes b i ⊎ Memᴰ i (ingresses_of idx b)
unfolding index_nodes reachable_ingress_ids ingresses_of
index_nodes_sound [] idx b i m = inr m
index_nodes_sound (n ∷ nodes) idx b i m =
    elim (index_nodes_sound nodes (insert n.node_id (reachable_ingress_ids n) idx) b i m) [
      | inl (z, k, e, j, l, p, r) ↦ inl (z, Memᴰ.tail k, e, j, l, p, r)
      | inr k ↦ elim (string_cases n.node_id b) [
        | inl q ↦
            let at_b : lookup b (insert n.node_id (reachable_ingress_ids n) idx)
                ≡ some (reachable_ingress_ids n) =
              subst
                (λ (z : String).
                  lookup z (insert n.node_id (reachable_ingress_ids n) idx)
                  ≡ some (reachable_ingress_ids n))
                q (lookup-insert_self n.node_id (reachable_ingress_ids n) idx) in
            let (j, l, p, r) = reachable_ids_sound n.ingresses i (
              (Mem-sort_func string_lt i (reachable_ids n.ingresses)).0
                (subst (Memᴰ i) (ap or_nil at_b) k)) in
            inl (n, Memᴰ.head refl, q, j, l, p, r)
        | inr q ↦ inr (
            subst (Memᴰ i)
              (ap or_nil (lookup-insert_ne n.node_id b (reachable_ingress_ids n) idx q)) k)
      ]
    ]

pub build_ingress_index_sound :
    (nodes : List NodeEligibilityInput) (b i : String)
    → Memᴰ i (ingresses_of (build_ingress_index nodes) b)
    → Reachable nodes b i
unfolding build_ingress_index ingresses_of lookup
build_ingress_index_sound nodes b i m = elim (index_nodes_sound nodes [] b i m) [
  | inl r ↦ r
  | inr k ↦ elim k [ ]
]
