-- ===== src/Topology/Assign/Examples.antt =====
-- Runs of internal/controller/topology/eligibility.go, prune.go and assign.go at fixed inputs.
use Prim.Native.String.{String}
use mathlib.Core.List.{Memᴰ}
use corelink.Prelude.{
  arith, ◌≡◌, ◌≢◌, refl, ◌≤◌, ◌⊎◌, ◌↔◌, true, false, List, [], ◌∷◌, length, some, inl, inr,
}
use corelink.Prelude.Assoc.{lookup, insert, string_eq}
use corelink.Prelude.Sort.{sort_func}
use corelink.Topology.Baseline.{PrunedEdge, route_pair_eq}
use corelink.Topology.Roles.{IngressMeta, NodeEligibilityInput, classify_nodes}
use corelink.Topology.Roles.Partition.{Stable, Unstable, classify_nodes_iff}
use corelink.Topology.Peers.{
  QKey, QualityMatrix, IngressIndex, Cand, ingresses_of, best_w, prune, top_d, or_default,
}
use corelink.Topology.Peers.Edges.{Along}
use corelink.Topology.Peers.Pairs.{Chosen}
use corelink.Topology.Peers.Symmetry.{Linked, prune_iff}
use corelink.Topology.Peers.Best.{top_d-best}
use corelink.Topology.Assign.{
  neighbor_lt, best_quality, uplink_specs, chosen_uplinks, assign_leaf_uplinks, has_ingress,
  probe_targets,
}
use corelink.Topology.Assign.Quality.{IsLeast}
use corelink.Topology.Assign.Uplinks.{HasUplinks, assign_leaf_uplinks-best}
use corelink.Topology.Assign.Probes.{Probes, probe_targets-symmetric}
use corelink.Topology.Baseline.Examples.{ne_of}

abbrev pub ingress : String → IngressMeta
ingress id = record { id = id; confidence = 80; reachable = true }

abbrev pub node_a : NodeEligibilityInput
node_a = record { node_id = "a"; nat = 1; ingresses = ingress "i1" ∷ [] }

abbrev pub node_b : NodeEligibilityInput
node_b = record { node_id = "b"; nat = 1; ingresses = ingress "i2" ∷ [] }

abbrev pub nodes : List NodeEligibilityInput
nodes = node_a ∷ node_b ∷ []

pub nodes-cases : (n : NodeEligibilityInput) → Memᴰ n nodes → (n ≡ node_a) ⊎ (n ≡ node_b)
nodes-cases n (Memᴰ.head q) = inl q
nodes-cases n (Memᴰ.tail m) = elim m [ Memᴰ.head q ↦ inr q | Memᴰ.tail k ↦ elim k [ ] ]

classify_nodes_iff_example :
    (Memᴰ "a" (classify_nodes nodes).0 ↔ Stable "a" nodes)
    × (Memᴰ "a" (classify_nodes nodes).1 ↔ Unstable "a" nodes)
classify_nodes_iff_example = classify_nodes_iff "a" nodes

abbrev pub quality : QualityMatrix
quality = λ k. some 10

abbrev by_node : IngressIndex
by_node = ("a", "i1" ∷ []) ∷ ("b", "i2" ∷ []) ∷ []

abbrev ids : List String
ids = "a" ∷ "b" ∷ []

prune_iff_example :
    ((x y : String)
      → Linked (prune quality by_node 2 2 ids) x y ↔ (
          (Chosen quality by_node 2 ids x y ⊎ Chosen quality by_node 2 ids y x)
          × ((e : String) × Memᴰ e (ingresses_of by_node y))))
    × ((pe : PrunedEdge)
        → Memᴰ pe (prune quality by_node 2 2 ids)
        → Along quality by_node pe.src pe.dst pe)
prune_iff_example = prune_iff quality by_node 1 1 ids

best_w-a_b : best_w quality by_node "a" "b" ≡ some 10
unfolding best_w ingresses_of lookup corelink.Topology.Peers.scan_quality
best_w-a_b = refl

top_d-best_example :
    ((c : Cand)
      → Memᴰ c (top_d quality by_node 1 ids "a")
      → Memᴰ c.dst ids × (c.dst ≢ "a") × (best_w quality by_node "a" c.dst ≡ some c.w))
    × (Memᴰ (record { dst = "b"; w = 10 }) (top_d quality by_node 1 ids "a")
        ⊎ ((length (top_d quality by_node 1 ids "a") ≡ 1)
            × ((c : Cand) → Memᴰ c (top_d quality by_node 1 ids "a") → c.w ≤ 10)))
top_d-best_example =
    top_d-best quality by_node 1 ids "a" "b" 10 (Memᴰ.tail (Memᴰ.head refl)) (ne_of "b" "a" refl)
      best_w-a_b

b_measured : IsLeast quality "c" "b" (ingresses_of by_node "b") 10
unfolding ingresses_of lookup
b_measured = record {
  ingress = "i2";
  own = Memᴰ.head refl;
  quality = refl;
  least = λ e v m q. ground (arith, q);
}

assign_leaf_uplinks-best_example :
    HasUplinks quality by_node ids 1 "c" "b" 10
      (assign_leaf_uplinks quality by_node ("c" ∷ []) ids 1)
assign_leaf_uplinks-best_example =
    assign_leaf_uplinks-best quality by_node ("c" ∷ []) ids 1 "c" "b" 10 (Memᴰ.head refl)
      (Memᴰ.tail (Memᴰ.head refl)) b_measured

a-has_ingress : has_ingress by_node "a" ≡ true
unfolding ingresses_of lookup
a-has_ingress = refl

a-Probes-b : Probes (probe_targets quality by_node false 1 ids) "a" "b"
unfolding probe_targets lookup insert sort_func ingresses_of best_quality
    corelink.Topology.Peers.scan_quality corelink.Topology.Assign.first_targets
    corelink.Topology.Assign.close corelink.Topology.Assign.add_back
    corelink.Topology.Assign.add_target corelink.Topology.Assign.targets_of
    corelink.Topology.Assign.sampled_targets corelink.Topology.Assign.cand_names
    corelink.Topology.Assign.probe_cands
a-Probes-b = Memᴰ.head refl

probe_targets-symmetric_example : Probes (probe_targets quality by_node false 1 ids) "b" "a"
probe_targets-symmetric_example =
    probe_targets-symmetric quality by_node 1 ids "a" "b" (Memᴰ.head refl) a-has_ingress a-Probes-b
