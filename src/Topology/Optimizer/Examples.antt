-- ===== src/Topology/Optimizer/Examples.antt =====
-- A run of internal/controller/topology/optimizer.go at a fixed input.
use Prim.Native.String.{String}
use mathlib.Core.List.{Memᴰ}
use corelink.Prelude.{
  suc, ◌≡◌, refl, sym, ap, subst, ◌∙◌, ◌*◌, ◌^◌, ◌≤◌, ◌<◌, true, List, [], ◌∷◌, length, some, inl,
  inr, arith,
}
use corelink.Prelude.Assoc.{lookup, insert, string_eq}
use corelink.Prelude.Outcome.{ok}
use corelink.Prelude.Sort.{sort_func}
use corelink.Topology.Tables.{Hop, RoutePair}
use corelink.Topology.Vertex.Parsing.{IsPlain}
use corelink.Topology.Shortest.{count_edges}
use corelink.Topology.Baseline.{PrunedEdge, route_pair_eq, build_split_graph}
use corelink.Topology.Baseline.Compress.{IsName}
use corelink.Topology.Roles.{IngressMeta, NodeEligibilityInput, classify_nodes}
use corelink.Topology.Peers.{
  QKey, QualityMatrix, IngressIndex, Cand, ingresses_of, best_w, prune, top_d, or_default,
}
use corelink.Topology.Assign.{
  neighbor_lt, best_quality, uplink_specs, chosen_uplinks, assign_leaf_uplinks, has_ingress,
  probe_targets,
}
use corelink.Topology.Optimizer.{OptimizerInput, Result, optimize}
use corelink.Topology.Optimizer.Links.{IsLinked, IsNamed, pruned_edges, optimize-IsLinked}
use corelink.Topology.Baseline.Examples.{
  ne_of, named_a, named_b, two_edges, two_edges-cases, g-fits,
}
use corelink.Topology.Assign.Examples.{ingress, nodes, nodes-cases, quality}

abbrev inp : OptimizerInput
inp = record {
  version = 5;
  nodes = nodes;
  quality = quality;
  max_peers = 2;
  ingress_k = 2;
  route_k = 2;
  leaf_uplinks = 0;
  probe_full = true;
  probe_limit = 0;
}

ingress-IsPlain :
    (n : NodeEligibilityInput) (ing : IngressMeta)
    → Memᴰ n nodes
    → Memᴰ ing n.ingresses
    → IsPlain ing.id
ingress-IsPlain n ing m k = elim (nodes-cases n m) [
  | inl q ↦
      only "i1" (refl, (refl, tt)) (subst (λ (z : NodeEligibilityInput). Memᴰ ing z.ingresses) q k)
  | inr q ↦
      only "i2" (refl, (refl, tt)) (subst (λ (z : NodeEligibilityInput). Memᴰ ing z.ingresses) q k)
]
  where
    only : (id : String) → IsPlain id → Memᴰ ing (ingress id ∷ []) → IsPlain ing.id
    only id p (Memᴰ.head q) = subst (λ (z : IngressMeta). IsPlain z.id) (sym q) p
    only id p (Memᴰ.tail l) = elim l [ ]

inp-IsNamed : IsNamed inp
inp-IsNamed = record {
  named = λ n m. elim (nodes-cases n m) [
    | inl q ↦ subst (λ (z : NodeEligibilityInput). IsName z.node_id) (sym q) named_a
    | inr q ↦ subst (λ (z : NodeEligibilityInput). IsName z.node_id) (sym q) named_b
  ];
  plain = ingress-IsPlain;
  unique = λ n m k l e. elim (nodes-cases n k) [
    | inl q ↦ elim (nodes-cases m l) [
      | inl r ↦ q ∙ sym r
      | inr r ↦ absurd (
          ne_of "a" "b" refl (
            sym (ap (λ (z : NodeEligibilityInput). z.node_id) q)
            ∙ e
            ∙ ap (λ (z : NodeEligibilityInput). z.node_id) r))
    ]
    | inr q ↦ elim (nodes-cases m l) [
      | inl r ↦ absurd (
          ne_of "b" "a" refl (
            sym (ap (λ (z : NodeEligibilityInput). z.node_id) q)
            ∙ e
            ∙ ap (λ (z : NodeEligibilityInput). z.node_id) r))
      | inr r ↦ q ∙ sym r
    ]
  ];
}

pruned-two : pruned_edges inp ≡ two_edges
unfolding lookup insert sort_func classify_nodes prune ingresses_of corelink.Topology.Roles.eligible
    corelink.Topology.Roles.partition corelink.Topology.Assign.build_ingress_index
    corelink.Topology.Assign.index_nodes corelink.Topology.Assign.reachable_ingress_ids
    corelink.Topology.Assign.reachable_ids corelink.Topology.Peers.scan_quality best_w
    corelink.Topology.Peers.ingress_edges corelink.Topology.Peers.top_k_ingress_edges
    corelink.Topology.Peers.cands_of top_d corelink.Topology.Peers.add_pairs
    corelink.Topology.Peers.collect_pairs corelink.Topology.Peers.pair_edges
pruned-two = refl

optimize-IsLinked_example :
    (result : Result) × (optimize inp ≡ ok result)
    × (result.version ≡ 5)
    × ((rp : RoutePair) (routes : List (List Hop))
        → lookup rp result.baseline ≡ some routes
        → (length routes ≤ 2)
          × ((hops : List Hop) → Memᴰ hops routes → IsLinked result.neighbors rp.src hops rp.dst))
optimize-IsLinked_example =
    optimize-IsLinked inp 10 inp-IsNamed
      (λ pe m. elim (two_edges-cases pe (subst (Memᴰ pe) pruned-two m)) [
        | inl q ↦ omega (arith, ap (λ (z : PrunedEdge). z.w) q)
        | inr q ↦ omega (arith, ap (λ (z : PrunedEdge). z.w) q)
      ])
      (subst (λ (es : List PrunedEdge). suc (count_edges (build_split_graph es).adj) * 10 < 2 ^ 64)
        (sym pruned-two) g-fits)
