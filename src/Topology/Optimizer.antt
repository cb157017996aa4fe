-- ===== src/Topology/Optimizer.antt =====
-- internal/controller/topology/optimizer.go: the roles, neighbours, baseline routes and probe targets of
-- one version of the topology. The negative values of the limits are those of zero.
pub mod Links
mod Examples
use Prim.Native.String.{String}
use corelink.Prelude.{ℕ, Bool, true, false, List, [], ◌∷◌, if◌then◌else◌, Option, none, some}
use corelink.Prelude.Assoc.{Assoc, lookup, insert, string_eq}
use corelink.Prelude.Outcome.{Outcome, ok, ◌>>=◌}
use corelink.Prelude.Sort.{string_lt, sort_func}
use corelink.Topology.Tables.{Baseline}
use corelink.Topology.Baseline.{Exhausted, baseline_routes}
use corelink.Topology.Roles.{NodeEligibilityInput, classify_nodes}
use corelink.Topology.Peers.{QualityMatrix, prune}
use corelink.Topology.Assign.{
  NeighborSpec, ProbeTarget, build_ingress_index, build_neighbors_from_edges, assign_leaf_uplinks,
  build_probe_sets,
}

pub data Role : Type 0 where
  role_leaf role_transit : Role

pub record OptimizerInput : Type 0 where
  pub version : ℕ
  pub nodes : List NodeEligibilityInput
  pub quality : QualityMatrix
  pub max_peers : ℕ
  pub ingress_k : ℕ
  pub route_k : ℕ
  pub leaf_uplinks : ℕ
  pub probe_full : Bool
  pub probe_limit : ℕ

pub record Result : Type 0 where
  pub version : ℕ
  pub roles : Assoc String Role
  pub neighbors : Assoc String (List NeighborSpec)
  pub baseline : Baseline
  pub probe_sets : Assoc String (List ProbeTarget)

abbrev pub Neighbors : Type 0
Neighbors = Assoc String (List NeighborSpec)

-- Each transit has an entry.
unfoldable pub ensure_entries : List String → Neighbors → Neighbors
ensure_entries [] ns = ns
ensure_entries (t ∷ transits) ns =
    ensure_entries transits (elim (lookup t ns) [ none ↦ insert t [] ns | some specs ↦ ns ])

abbrev pub or_no_specs : Option (List NeighborSpec) → List NeighborSpec
or_no_specs none = []
or_no_specs (some specs) = specs

unfoldable pub add_leaves : Neighbors → List String → Neighbors → Neighbors
add_leaves uplinks [] ns = ns
add_leaves uplinks (l ∷ leaves) ns =
    add_leaves uplinks leaves (insert l (or_no_specs (lookup l uplinks)) ns)

unfoldable pub set_roles : Role → List String → Assoc String Role → Assoc String Role
set_roles role [] roles = roles
set_roles role (id ∷ ids) roles = set_roles role ids (insert id role roles)

unfoldable pub node_ids : List NodeEligibilityInput → List String
node_ids [] = []
node_ids (n ∷ nodes) = n.node_id ∷ node_ids nodes

unfoldable pub optimize : OptimizerInput → Outcome Exhausted Result
optimize inp =
    let by_node = build_ingress_index inp.nodes in
    let roles = classify_nodes inp.nodes in
    let pruned_edges = prune inp.quality by_node inp.max_peers inp.ingress_k roles.0 in
    let linked = ensure_entries roles.0 (build_neighbors_from_edges pruned_edges) in
    let uplinks = assign_leaf_uplinks inp.quality by_node roles.1 roles.0 inp.leaf_uplinks in
    baseline_routes pruned_edges roles.0 inp.route_k >>= λ baseline. ok (record {
      version = inp.version;
      roles = set_roles role_leaf roles.1 (set_roles role_transit roles.0 []);
      neighbors = add_leaves uplinks roles.1 linked;
      baseline = baseline;
      probe_sets =
          build_probe_sets inp.quality by_node (sort_func string_lt (node_ids inp.nodes))
            inp.probe_full inp.probe_limit;
    })
