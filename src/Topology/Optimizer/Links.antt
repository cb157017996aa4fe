-- ===== src/Topology/Optimizer/Links.antt =====
-- The baseline routes of internal/controller/topology/optimizer.go run along the neighbours of the same
-- result.
use Prim.Native.String.{String}
use Prim.{¬◌}
use mathlib.Core.List.{Memᴰ}
use corelink.Prelude.{
  ℕ, zero, suc, ◌≡◌, ◌≢◌, refl, sym, ap, subst, ◌∙◌, ◌*◌, ◌^◌, ◌≤◌, ◌<◌, ◌||◌, true, List, [], ◌∷◌,
  length, some, inl, inr, Option-cases, ◌==◌, arith,
}
use corelink.Prelude.Assoc.{lookup, insert, string_eq}
use corelink.Prelude.Outcome.{ok}
use corelink.Prelude.Sort.{string_lt, sort_func}
use corelink.Topology.Tables.{Hop, RoutePair}
use corelink.Topology.Vertex.Parsing.{IsPlain}
use corelink.Topology.Shortest.{Edge, edges_of, count_edges}
use corelink.Topology.Shortest.Walks.{lookup-insert_ne}
use corelink.Topology.Baseline.{PrunedEdge, route_pair_eq, build_split_graph}
use corelink.Topology.Baseline.SplitGraph.{build_split_graph_lem}
use corelink.Topology.Baseline.Compress.{IsName, AreNamed, IsHopRoute}
use corelink.Topology.Baseline.HopRoutes.{baseline_routes-IsHopRoute}
use corelink.Topology.Roles.{IngressMeta, NodeEligibilityInput, classify_nodes}
use corelink.Topology.Roles.Partition.{HasStable, classify_nodes_iff}
use corelink.Topology.Peers.{QualityMatrix, IngressIndex, prune, ingresses_of}
use corelink.Topology.Peers.Symmetry.{prune_iff}
use corelink.Topology.Peers.Best.{top_d_sound}
use corelink.Topology.Assign.{
  build_ingress_index, build_neighbors_from_edges, assign_leaf_uplinks, build_probe_sets,
}
use corelink.Topology.Assign.Neighbors.{Listed, build_neighbors-Listed, build_ingress_index_sound}
use corelink.Topology.Optimizer.{
  role_leaf, role_transit, OptimizerInput, Result, Neighbors, ensure_entries, or_no_specs,
  add_leaves, set_roles, node_ids, optimize,
}

ensure_entries-keeps :
    (ids : List String) (ns : Neighbors) (a b i : String)
    → Listed ns a b i
    → Listed (ensure_entries ids ns) a b i
unfolding ensure_entries
ensure_entries-keeps [] ns a b i l = l
ensure_entries-keeps (t ∷ ids) ns a b i l = elim (Option-cases (lookup t ns)) [
  | inr (specs, h) ↦ rw (ensure_entries, h) (ensure_entries-keeps ids ns a b i l)
  | inl h ↦
      let (specs, e, spec, m, q, k) = l in
      let other : t ≢ a = λ z. cc (ap (λ (x : String). lookup x ns) z, h, e) in
      rw (ensure_entries, h)
        (ensure_entries-keeps ids (insert t [] ns) a b i
          (specs, lookup-insert_ne t a [] ns other ∙ e, spec, m, q, k))
]

add_leaves-keeps :
    (uplinks : Neighbors) (leaves : List String) (ns : Neighbors) (a b i : String)
    → ¬ Memᴰ a leaves
    → Listed ns a b i
    → Listed (add_leaves uplinks leaves ns) a b i
unfolding add_leaves
add_leaves-keeps uplinks [] ns a b i n l = l
add_leaves-keeps uplinks (t ∷ leaves) ns a b i n l =
    let (specs, e, spec, m, q, k) = l in
    let new = or_no_specs (lookup t uplinks) in
    let other : t ≢ a = λ z. n (Memᴰ.head (sym z)) in
    add_leaves-keeps uplinks leaves (insert t new ns) a b i (λ z. n (Memᴰ.tail z))
      (specs, lookup-insert_ne t a new ns other ∙ e, spec, m, q, k)

prune-zero :
    (qm : QualityMatrix) (by_node : IngressIndex) (d k : ℕ) (transits : List String)
    → ((d == 0) || (k == 0)) ≡ true
    → prune qm by_node d k transits ≡ []
unfolding prune
prune-zero qm by_node d k transits e = rw (prune, e) refl

-- An edge that is kept joins two relays, through an ingress of its end.
pub prune-ends :
    (qm : QualityMatrix) (by_node : IngressIndex) (d k : ℕ) (transits : List String)
    (pe : PrunedEdge)
    → Memᴰ pe (prune qm by_node d k transits)
    → Memᴰ pe.src transits × Memᴰ pe.dst transits × Memᴰ pe.ingress (ingresses_of by_node pe.dst)
prune-ends qm by_node zero k transits pe m =
    elim (subst (Memᴰ pe) (prune-zero qm by_node 0 k transits (ground arith)) m) [ ]
prune-ends qm by_node (suc d) zero transits pe m =
    elim (subst (Memᴰ pe) (prune-zero qm by_node (suc d) 0 transits (ground arith)) m) [ ]
prune-ends qm by_node (suc d) (suc k) transits pe m =
    let (linked, along) = prune_iff qm by_node d k transits in
    let (chosen, some_ingress) = (linked pe.src pe.dst).0 (pe, m, refl, refl) in
    elim chosen [
      | inl (a, (c, t, e)) ↦ (
        a,
        subst (λ (z : String). Memᴰ z transits) e
            (top_d_sound qm by_node (suc d) transits pe.src c t).0,
        (along pe m).through,
      )
      | inr (a, (c, t, e)) ↦ (
        subst (λ (z : String). Memᴰ z transits) e
            (top_d_sound qm by_node (suc d) transits pe.dst c t).0,
        a,
        (along pe m).through,
      )
    ]

-- Each hop goes to a neighbour that is listed for the node before it, through an ingress that is listed for
-- it, and the last hop leads to `b`.
abbrev pub IsLinked : Neighbors → String → List Hop → String → Type 0
IsLinked ns a [] b = a ≡ b
IsLinked ns a (h ∷ hops) b = Listed ns a h.node h.ingress × IsLinked ns h.node hops b

IsHopRoute-IsLinked :
    (edges : List PrunedEdge) (ns : Neighbors)
    → ((pe : PrunedEdge) → Memᴰ pe edges → Listed ns pe.src pe.dst pe.ingress)
    → (hops : List Hop) (a b : String) → IsHopRoute edges a hops b
    → IsLinked ns a hops b
IsHopRoute-IsLinked edges ns listed [] a b r = r
IsHopRoute-IsLinked edges ns listed (h ∷ hops) a b r =
    let (pe, m, s, d, i) = r.0 in
    (
      subst (λ (x : String). Listed ns x h.node h.ingress) s
          (subst (λ (x : String). Listed ns pe.src x h.ingress) d
            (subst (λ (x : String). Listed ns pe.src pe.dst x) i (listed pe m))),
      IsHopRoute-IsLinked edges ns listed hops h.node b r.1,
    )

module _ (inp : OptimizerInput) where
  abbrev pub index : IngressIndex
  index = build_ingress_index inp.nodes

  abbrev pub transits : List String
  transits = (classify_nodes inp.nodes).0

  abbrev pub leaves : List String
  leaves = (classify_nodes inp.nodes).1

  abbrev pub pruned_edges : List PrunedEdge
  pruned_edges = prune inp.quality index inp.max_peers inp.ingress_k transits

  -- Names are not empty and have no separator, and no two nodes have the same.
  pub record IsNamed : Type 0 where
    pub named : (n : NodeEligibilityInput) → Memᴰ n inp.nodes → IsName n.node_id
    pub plain :
        (n : NodeEligibilityInput) (ing : IngressMeta)
        → Memᴰ n inp.nodes
        → Memᴰ ing n.ingresses
        → IsPlain ing.id
    pub unique :
        (n m : NodeEligibilityInput)
        → Memᴰ n inp.nodes
        → Memᴰ m inp.nodes
        → n.node_id ≡ m.node_id
        → n ≡ m

  transit-IsName : IsNamed → (a : String) → Memᴰ a transits → IsName a
  transit-IsName names a m =
      let (n, k, e, h) = (classify_nodes_iff a inp.nodes).0.0 m in subst IsName e (names.named n k)

  apart : IsNamed → (a : String) → Memᴰ a transits → ¬ Memᴰ a leaves
  apart names a m l =
      let (n, k, e, h) = (classify_nodes_iff a inp.nodes).0.0 m in
      let (z, j, f, no_stable) = (classify_nodes_iff a inp.nodes).1.0 l in
      no_stable (
        subst (λ (x : NodeEligibilityInput). HasStable x.ingresses)
          (names.unique n z k j (e ∙ sym f)) h)

  pruned-AreNamed : IsNamed → AreNamed pruned_edges
  pruned-AreNamed names pe m =
      let (s, d, i) = prune-ends inp.quality index inp.max_peers inp.ingress_k transits pe m in
      let (n, k, e, ing, l, p, r) = build_ingress_index_sound inp.nodes pe.dst pe.ingress i in
      (
        transit-IsName names pe.src s,
        transit-IsName names pe.dst d,
        subst IsPlain p (names.plain n ing k l),
      )

  light-edges :
      (most : ℕ)
      → ((pe : PrunedEdge) → Memᴰ pe pruned_edges → pe.w ≤ most)
      → (u : String) (e : Edge) → Memᴰ e (edges_of (build_split_graph pruned_edges) u)
      → e.w ≤ most
  light-edges most light u e m =
      let (pe, k, c) = (build_split_graph_lem pruned_edges).0 u e m in
      elim c [
        | inl (v, q) ↦ omega (arith, ap (λ (z : Edge). z.w) q, light pe k)
        | inr (v, q) ↦ omega (arith, ap (λ (z : Edge). z.w) q)
      ]

  -- For nodes with proper names, each of its own, and weights that cannot pass 64 bits, `optimize` returns a
  -- result, without a panic and within its fuel, with the version of its input. In it every pair has at most
  -- `route_k` baseline routes, each hop of which goes to a neighbour that the result lists for the node before
  -- it, through an ingress that it lists for it, from the pair's source up to its other end.
  pub optimize-IsLinked :
      (most : ℕ)
      → IsNamed
      → ((pe : PrunedEdge) → Memᴰ pe pruned_edges → pe.w ≤ most)
      → suc (count_edges (build_split_graph pruned_edges).adj) * most < 2 ^ 64
      → (result : Result) × (optimize inp ≡ ok result)
        × (result.version ≡ inp.version)
        × ((rp : RoutePair) (routes : List (List Hop))
            → lookup rp result.baseline ≡ some routes
            → (length routes ≤ inp.route_k)
              × ((hops : List Hop)
                  → Memᴰ hops routes
                  → IsLinked result.neighbors rp.src hops rp.dst))
  unfolding optimize
  optimize-IsLinked most names light fits =
      let (out, e, routes_ok) =
        baseline_routes-IsHopRoute pruned_edges (pruned-AreNamed names) most
          (light-edges most light) fits inp.route_k transits (transit-IsName names) in
      let linked = ensure_entries transits (build_neighbors_from_edges pruned_edges) in
      let uplinks = assign_leaf_uplinks inp.quality index leaves transits inp.leaf_uplinks in
      let listed : (pe : PrunedEdge)
          → Memᴰ pe pruned_edges
          → Listed (add_leaves uplinks leaves linked) pe.src pe.dst pe.ingress =
        λ pe m.
          let (s, d, i) = prune-ends inp.quality index inp.max_peers inp.ingress_k transits pe m in
          add_leaves-keeps uplinks leaves linked pe.src pe.dst pe.ingress (apart names pe.src s) (
            ensure_entries-keeps transits (build_neighbors_from_edges pruned_edges) pe.src pe.dst
              pe.ingress (build_neighbors-Listed pruned_edges pe m)) in
      (
        record {
          version = inp.version;
          roles = set_roles role_leaf leaves (set_roles role_transit transits []);
          neighbors = add_leaves uplinks leaves linked;
          baseline = out;
          probe_sets =
              build_probe_sets inp.quality index (sort_func string_lt (node_ids inp.nodes))
                inp.probe_full inp.probe_limit;
        },
        rw (optimize, e) refl,
        refl,
        λ rp routes h.
            let (ne, l, all) = routes_ok rp routes h in
            (
              l,
              λ hops m.
                  IsHopRoute-IsLinked pruned_edges (add_leaves uplinks leaves linked) listed hops
                    rp.src rp.dst (all hops m),
            ),
      )
