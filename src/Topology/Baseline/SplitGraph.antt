-- ===== src/Topology/Baseline/SplitGraph.antt =====
-- The edges of the split graph of internal/controller/topology/kpaths.go come from the pruned edges.
use mathlib.Core.List.{Memᴰ}
use corelink.Prelude.{
  ◌≡◌, refl, sym, ap, subst, ◌∙◌, ◌⊎◌, List, [], ◌∷◌, ◌++◌, inl, inr, Bool-cases, Option-cases,
  if◌then◌else◌, arith,
}
use corelink.Prelude.Assoc.{Assoc, lookup, lookup-insert, ◌=?◌, string_eq}
use corelink.Prelude.Members.{Mem-snoc, Mem-append_left, Mem-append_right}
use corelink.Prelude.Sort.{Mem-sort_func, sort_func}
use corelink.Topology.Dag.{or_nil}
use corelink.Topology.Prune.{contains}
use corelink.Topology.Vertex.{Vertex, core_v, ing_v}
use corelink.Topology.Shortest.{Edge, Graph, edges_of}
use corelink.Topology.Baseline.{
  PrunedEdge, ensure, add_edge, Split, add_pruned, add_all_pruned, edge_lt, sort_edges,
  build_split_graph,
}

abbrev pub cross_edge : PrunedEdge → Edge
cross_edge pe = record { to = ing_v pe.dst pe.ingress; w = pe.w }

-- The edge `e` of the vertex `v` is one of the two that the pruned edge gives.
abbrev pub ComesFrom : PrunedEdge → Vertex → Edge → Type 0
ComesFrom pe v e =
    ((v ≡ core_v pe.src) × (e ≡ cross_edge pe))
    ⊎ ((v ≡ ing_v pe.dst pe.ingress) × (e ≡ record { to = core_v pe.dst; w = 0 }))

edges_of-ensure : (g : Graph) (v u : Vertex) → edges_of (ensure v g) u ≡ edges_of g u
unfolding edges_of
edges_of-ensure g v u = elim (Option-cases (lookup v g.adj)) [
  | inl e ↦ ground (arith, e, lookup-insert v u [] g.adj, string_eq.beq_iff v u)
  | inr (es, e) ↦ ground (arith, e)
]

edges_of-add_edge :
    (g : Graph) (v u : Vertex) (e : Edge)
    → edges_of (add_edge v e g) u ≡ (if v =? u then edges_of g u ++ (e ∷ []) else edges_of g u)
unfolding edges_of
edges_of-add_edge g v u e = elim (Bool-cases (v =? u)) [
  | inl q ↦
      let same = (string_eq.beq_iff v u).0 q in
      ground (arith, q, same, lookup-insert v u (edges_of g v ++ (e ∷ [])) g.adj)
  | inr q ↦ ground (arith, q, lookup-insert v u (edges_of g v ++ (e ∷ [])) g.adj)
]

Mem-add_edge :
    (g : Graph) (v u : Vertex) (e d : Edge)
    → Memᴰ d (edges_of (add_edge v e g) u)
    → ((v ≡ u) × (d ≡ e)) ⊎ Memᴰ d (edges_of g u)
Mem-add_edge g v u e d m =
    let k = subst (Memᴰ d) (edges_of-add_edge g v u e) m in
    elim (Bool-cases (v =? u)) [
      | inl q ↦ elim ((Mem-snoc d e (edges_of g u)).0 (rw (q) at k)) [
        | inl z ↦ inl ((string_eq.beq_iff v u).0 q, z)
        | inr z ↦ inr z
      ]
      | inr q ↦ inr (rw (q) at k)
    ]

Mem-kept :
    (g : Graph) (v u : Vertex) (e d : Edge)
    → Memᴰ d (edges_of g u)
    → Memᴰ d (edges_of (add_edge v e g) u)
Mem-kept g v u e d m =
    subst (Memᴰ d) (sym (edges_of-add_edge g v u e)) (elim (Bool-cases (v =? u)) [
      | inl q ↦ rw (q) (Mem-append_left d (edges_of g u) (e ∷ []) m)
      | inr q ↦ rw (q) m
    ])

Mem-added : (g : Graph) (v : Vertex) (e : Edge) → Memᴰ e (edges_of (add_edge v e g) v)
Mem-added g v e = subst (Memᴰ e) (sym (edges_of-add_edge g v v e)) (
    rw ((string_eq.beq_iff v v).1 refl)
      (Mem-append_right e (edges_of g v) (e ∷ []) (Memᴰ.head refl)))

-- The graph with the three vertices of the pruned edge.
abbrev ensured : PrunedEdge → Graph → Graph
ensured pe g = ensure (core_v pe.dst) (ensure (ing_v pe.dst pe.ingress) (ensure (core_v pe.src) g))

edges_of-ensured :
    (pe : PrunedEdge) (g : Graph) (u : Vertex) → edges_of (ensured pe g) u ≡ edges_of g u
edges_of-ensured pe g u =
    edges_of-ensure (ensure (ing_v pe.dst pe.ingress) (ensure (core_v pe.src) g)) (core_v pe.dst) u
    ∙ edges_of-ensure (ensure (core_v pe.src) g) (ing_v pe.dst pe.ingress) u
    ∙ edges_of-ensure g (core_v pe.src) u

Mem-crossed :
    (pe : PrunedEdge) (g : Graph) (u : Vertex) (d : Edge)
    → Memᴰ d (edges_of (add_edge (core_v pe.src) (cross_edge pe) (ensured pe g)) u)
    → ComesFrom pe u d ⊎ Memᴰ d (edges_of g u)
Mem-crossed pe g u d m = elim (Mem-add_edge (ensured pe g) (core_v pe.src) u (cross_edge pe) d m) [
  | inl (v, e) ↦ inl (inl (sym v, e))
  | inr k ↦ inr (subst (Memᴰ d) (edges_of-ensured pe g u) k)
]

add_pruned_sound :
    (pe : PrunedEdge) (s : Split) (u : Vertex) (d : Edge)
    → Memᴰ d (edges_of (add_pruned pe s).graph u)
    → ComesFrom pe u d ⊎ Memᴰ d (edges_of s.graph u)
unfolding add_pruned
add_pruned_sound pe s u d m =
    let iv = ing_v pe.dst pe.ingress in
    let crossed = add_edge (core_v pe.src) (cross_edge pe) (ensured pe s.graph) in
    elim (Bool-cases (contains iv s.internal_done)) [
      | inl q ↦ Mem-crossed pe s.graph u d (rw (q) at m)
      | inr q ↦
          elim (Mem-add_edge crossed iv u (record { to = core_v pe.dst; w = 0 }) d (rw (q) at m)) [
            | inl (v, e) ↦ inl (inr (sym v, e))
            | inr k ↦ Mem-crossed pe s.graph u d k
          ]
    ]

add_all_pruned_sound :
    (pes : List PrunedEdge) (s : Split) (u : Vertex) (d : Edge)
    → Memᴰ d (edges_of (add_all_pruned pes s).graph u)
    → ((pe : PrunedEdge) × Memᴰ pe pes × ComesFrom pe u d) ⊎ Memᴰ d (edges_of s.graph u)
unfolding add_all_pruned
add_all_pruned_sound [] s u d m = inr m
add_all_pruned_sound (pe ∷ pes) s u d m = elim (add_all_pruned_sound pes (add_pruned pe s) u d m) [
  | inl (q, k, c) ↦ inl (q, Memᴰ.tail k, c)
  | inr k ↦ elim (add_pruned_sound pe s u d k) [
    | inl c ↦ inl (pe, Memᴰ.head refl, c)
    | inr l ↦ inr l
  ]
]

add_pruned-keeps :
    (pe : PrunedEdge) (s : Split) (u : Vertex) (d : Edge)
    → Memᴰ d (edges_of s.graph u) ⊎ ((u ≡ core_v pe.src) × (d ≡ cross_edge pe))
    → Memᴰ d (edges_of (add_pruned pe s).graph u)
unfolding add_pruned
add_pruned-keeps pe s u d h =
    let iv = ing_v pe.dst pe.ingress in
    let g = ensured pe s.graph in
    let crossed = add_edge (core_v pe.src) (cross_edge pe) g in
    let there : Memᴰ d (edges_of crossed u) = elim h [
      | inl m ↦
          Mem-kept g (core_v pe.src) u (cross_edge pe) d
            (subst (Memᴰ d) (sym (edges_of-ensured pe s.graph u)) m)
      | inr (v, e) ↦ rw (v, e) (Mem-added g (core_v pe.src) (cross_edge pe))
    ] in
    elim (Bool-cases (contains iv s.internal_done)) [
      | inl q ↦ rw (q) there
      | inr q ↦ rw (q) (Mem-kept crossed iv u (record { to = core_v pe.dst; w = 0 }) d there)
    ]

add_all_pruned-keeps :
    (pes : List PrunedEdge) (s : Split) (u : Vertex) (d : Edge)
    → Memᴰ d (edges_of s.graph u)
    → Memᴰ d (edges_of (add_all_pruned pes s).graph u)
unfolding add_all_pruned
add_all_pruned-keeps [] s u d m = m
add_all_pruned-keeps (pe ∷ pes) s u d m =
    add_all_pruned-keeps pes (add_pruned pe s) u d (add_pruned-keeps pe s u d (inl m))

add_all_pruned-crosses :
    (pes : List PrunedEdge) (s : Split) (pe : PrunedEdge)
    → Memᴰ pe pes
    → Memᴰ (cross_edge pe) (edges_of (add_all_pruned pes s).graph (core_v pe.src))
unfolding add_all_pruned
add_all_pruned-crosses [] s pe m = elim m [ ]
add_all_pruned-crosses (q ∷ pes) s pe (Memᴰ.head e) =
    add_all_pruned-keeps pes (add_pruned q s) (core_v pe.src) (cross_edge pe) (
      add_pruned-keeps q s (core_v pe.src) (cross_edge pe)
        (inr (ap (λ (z : PrunedEdge). core_v z.src) e, ap cross_edge e)))
add_all_pruned-crosses (q ∷ pes) s pe (Memᴰ.tail m) =
    add_all_pruned-crosses pes (add_pruned q s) pe m

lookup-sort_edges :
    (u : Vertex) (adj : Assoc Vertex (List Edge))
    → or_nil (lookup u (sort_edges adj)) ≡ sort_func edge_lt (or_nil (lookup u adj))
unfolding sort_edges lookup sort_func
lookup-sort_edges u [] = refl
lookup-sort_edges u ((v, es) ∷ adj) = elim (Bool-cases (v =? u)) [
  | inl q ↦ rw (q) refl
  | inr q ↦ rw (q) (lookup-sort_edges u adj)
]

-- Every edge of the split graph comes from a pruned edge, as the edge between two nodes or as the edge
-- inside the entered one; and every pruned edge is an edge from its source to its entry.
pub build_split_graph_lem :
    (pes : List PrunedEdge)
    → ((u : Vertex) (d : Edge)
        → Memᴰ d (edges_of (build_split_graph pes) u)
        → (pe : PrunedEdge) × Memᴰ pe pes × ComesFrom pe u d)
      × ((pe : PrunedEdge)
          → Memᴰ pe pes
          → Memᴰ (cross_edge pe) (edges_of (build_split_graph pes) (core_v pe.src)))
unfolding build_split_graph edges_of lookup
build_split_graph_lem pes =
    let start : Split = record { graph = record { adj = [] }; internal_done = [] } in
    let built = (add_all_pruned pes start).graph in
    (
      λ u d m.
          let unsorted =
            (Mem-sort_func edge_lt d (or_nil (lookup u built.adj))).0
              (subst (Memᴰ d) (lookup-sort_edges u built.adj) m) in
          elim (add_all_pruned_sound pes start u d unsorted) [ inl r ↦ r | inr k ↦ elim k [ ] ],
      λ pe m. subst (Memᴰ (cross_edge pe)) (sym (lookup-sort_edges (core_v pe.src) built.adj)) (
          (Mem-sort_func edge_lt (cross_edge pe) (or_nil (lookup (core_v pe.src) built.adj))).1
            (add_all_pruned-crosses pes start pe m)),
    )
