-- ===== src/Topology/Assign.antt =====
-- internal/controller/topology/assign.go: the ingresses of the nodes, the neighbours of the relays, the
-- uplinks of the leaves and the probe targets. The sets of a Go map are lists without repeated elements.
pub mod Quality
pub mod Candidates
pub mod Uplinks
pub mod Neighbors
pub mod Probes
pub mod Examples
use Prim.Native.String.{String}
use corelink.Prelude.{
  ℕ, Bool, true, false, not, ◌&&◌, ◌||◌, List, [], ◌∷◌, ◌++◌, take, ltb, ◌==◌, if◌then◌else◌,
  Option, none, some,
}
use corelink.Prelude.Assoc.{Assoc, lookup, insert, ◌=?◌, string_eq}
use corelink.Prelude.Sort.{string_lt, sort_func}
use corelink.Topology.Dag.{or_nil}
use corelink.Topology.Prune.{contains}
use corelink.Topology.Baseline.{PrunedEdge}
use corelink.Topology.Roles.{IngressMeta, NodeEligibilityInput}
use corelink.Topology.Peers.{
  QualityMatrix, quality_of, IngressIndex, ingresses_of, scan_quality, Cand, cand_lt,
}

pub record NeighborSpec : Type 0 where
  pub node_id : String
  pub ingresses : List String

pub record ProbeTarget : Type 0 where
  pub node_id : String
  pub ingress_ids : List String

abbrev pub default_leaf_uplinks : ℕ
default_leaf_uplinks = 2

abbrev pub neighbor_lt : NeighborSpec → NeighborSpec → Bool
neighbor_lt a b = string_lt a.node_id b.node_id

abbrev pub target_lt : ProbeTarget → ProbeTarget → Bool
target_lt a b = string_lt a.node_id b.node_id

unfoldable pub best_quality : QualityMatrix → String → String → List String → Option ℕ
best_quality qm src dst ingress_ids = scan_quality qm src dst none ingress_ids

unfoldable pub reachable_ids : List IngressMeta → List String
reachable_ids [] = []
reachable_ids (ing ∷ ings) =
    let rest = reachable_ids ings in if ing.reachable then ing.id ∷ rest else rest

unfoldable pub reachable_ingress_ids : NodeEligibilityInput → List String
reachable_ingress_ids n = sort_func string_lt (reachable_ids n.ingresses)

-- A later node of the same name replaces an earlier one.
unfoldable pub index_nodes : List NodeEligibilityInput → IngressIndex → IngressIndex
index_nodes [] idx = idx
index_nodes (n ∷ nodes) idx = index_nodes nodes (insert n.node_id (reachable_ingress_ids n) idx)

unfoldable pub build_ingress_index : List NodeEligibilityInput → IngressIndex
build_ingress_index nodes = index_nodes nodes []

abbrev pub add_key : String → List String → List String
add_key k ks = if contains k ks then ks else k ∷ ks

abbrev pub sorted_keys : List String → List String
sorted_keys ks = sort_func string_lt ks

abbrev pub Agg : Type 0
Agg = Assoc String (Assoc String (List String))

unfoldable pub add_ingress : PrunedEdge → Agg → Agg
add_ingress e agg =
    let by_dst = or_nil (lookup e.src agg) in
    let ings = or_nil (lookup e.dst by_dst) in
    insert e.src (insert e.dst (add_key e.ingress ings) by_dst) agg

unfoldable pub aggregate_edges : List PrunedEdge → Agg → Agg
aggregate_edges [] agg = agg
aggregate_edges (e ∷ es) agg = aggregate_edges es (add_ingress e agg)

unfoldable pub specs_of : Assoc String (List String) → List NeighborSpec
specs_of [] = []
specs_of ((dst, ings) ∷ by_dst) =
    record { node_id = dst; ingresses = sorted_keys ings } ∷ specs_of by_dst

unfoldable pub neighbor_table : Agg → Assoc String (List NeighborSpec)
neighbor_table [] = []
neighbor_table ((src, by_dst) ∷ agg) =
    (src, sort_func neighbor_lt (specs_of by_dst)) ∷ neighbor_table agg

unfoldable pub build_neighbors_from_edges : List PrunedEdge → Assoc String (List NeighborSpec)
build_neighbors_from_edges edges = neighbor_table (aggregate_edges edges [])

-- The ingresses with a quality from `src` to `dst`.
unfoldable pub measured : QualityMatrix → String → String → List String → List String
measured qm src dst [] = []
measured qm src dst (e ∷ es) =
    let rest = measured qm src dst es in
    elim (quality_of qm src dst e) [ none ↦ rest | some w ↦ e ∷ rest ]

module _ (qm : QualityMatrix) (by_node : IngressIndex) where
  unfoldable pub uplink_cands : String → List String → List Cand
  uplink_cands leaf [] = []
  uplink_cands leaf (b ∷ bs) =
      let rest = uplink_cands leaf bs in
      elim (best_quality qm leaf b (ingresses_of by_node b)) [
        | none ↦ rest
        | some w ↦ record { dst = b; w = w } ∷ rest
      ]

  -- The candidate's list of ingresses is a function of its name.
  abbrev pub uplink_spec : String → Cand → NeighborSpec
  uplink_spec leaf c = record {
    node_id = c.dst;
    ingresses = sort_func string_lt (measured qm leaf c.dst (ingresses_of by_node c.dst));
  }

  unfoldable pub uplink_specs : String → List Cand → List NeighborSpec
  uplink_specs leaf [] = []
  uplink_specs leaf (c ∷ cs) = uplink_spec leaf c ∷ uplink_specs leaf cs

  unfoldable pub chosen_uplinks : ℕ → String → List String → List Cand
  chosen_uplinks n leaf transits = take n (sort_func cand_lt (uplink_cands leaf transits))

  abbrev pub with_uplinks :
      ℕ → List String → String → Assoc String (List NeighborSpec) → Assoc String (List NeighborSpec)
  with_uplinks n transits leaf out = elim (uplink_cands leaf transits) [
    | [] ↦ out
    | c ∷ cs ↦
        insert leaf (sort_func neighbor_lt (uplink_specs leaf (chosen_uplinks n leaf transits))) out
  ]

  unfoldable pub assign_uplinks :
      ℕ
      → List String
      → List String
      → Assoc String (List NeighborSpec)
      → Assoc String (List NeighborSpec)
  assign_uplinks n transits [] out = out
  assign_uplinks n transits (leaf ∷ leaves) out =
      assign_uplinks n transits leaves (with_uplinks n transits leaf out)

  unfoldable pub assign_leaf_uplinks :
      List String → List String → ℕ → Assoc String (List NeighborSpec)
  assign_leaf_uplinks leaves transits n =
      assign_uplinks (if n == 0 then default_leaf_uplinks else n) transits leaves []

abbrev pub Targets : Type 0
Targets = Assoc String (List String)

unfoldable pub targets_of : Targets → String → List String
targets_of ts src = or_nil (lookup src ts)

abbrev pub is_some_list : List String → Bool
is_some_list [] = false
is_some_list (x ∷ xs) = true

-- `targets[src][dst] = true`
unfoldable pub add_target : String → String → Targets → Targets
add_target src dst ts = insert src (add_key dst (targets_of ts src)) ts

unfoldable pub add_back : String → List String → Targets → Targets
add_back src [] ts = ts
add_back src (dst ∷ dsts) ts = add_back src dsts (add_target dst src ts)

unfoldable pub cand_names : List Cand → List String
cand_names [] = []
cand_names (c ∷ cs) = add_key c.dst (cand_names cs)

abbrev pub has_ingress : IngressIndex → String → Bool
has_ingress by_node id = is_some_list (ingresses_of by_node id)

unfoldable pub target_specs : IngressIndex → List String → List ProbeTarget
target_specs by_node [] = []
target_specs by_node (dst ∷ dsts) =
    record { node_id = dst; ingress_ids = sort_func string_lt (ingresses_of by_node dst) }
    ∷ target_specs by_node dsts

unfoldable pub probe_table : IngressIndex → Targets → Assoc String (List ProbeTarget)
probe_table by_node [] = []
probe_table by_node ((src, dsts) ∷ ts) =
    (src, sort_func target_lt (target_specs by_node dsts)) ∷ probe_table by_node ts

module _ (qm : QualityMatrix) (by_node : IngressIndex) where
  unfoldable pub full_targets : String → List String → List String
  full_targets src [] = []
  full_targets src (dst ∷ ids) =
      let rest = full_targets src ids in
      if not (dst =? src) && has_ingress by_node dst then add_key dst rest else rest

  unfoldable pub probe_cands : String → List String → List Cand
  probe_cands src [] = []
  probe_cands src (dst ∷ ids) =
      let rest = probe_cands src ids in
      if (dst =? src) || not (has_ingress by_node dst)
      then rest
      else elim (best_quality qm src dst (ingresses_of by_node dst)) [
        | none ↦ rest
        | some w ↦ record { dst = dst; w = w } ∷ rest
      ]

  unfoldable pub sampled_targets : ℕ → String → List String → List String
  sampled_targets limit src ids = cand_names (take limit (sort_func cand_lt (probe_cands src ids)))

  unfoldable pub first_targets : Bool → ℕ → List String → List String → Targets → Targets
  first_targets probe_full limit ids [] ts = ts
  first_targets probe_full limit ids (src ∷ srcs) ts =
      first_targets probe_full limit ids srcs
        (insert src (if probe_full then full_targets src ids else sampled_targets limit src ids) ts)

  -- The closure, over the keys in the order of the list; a set is read when its key is reached.
  unfoldable pub close : List String → Targets → Targets
  close [] ts = ts
  close (src ∷ srcs) ts =
      close srcs (if has_ingress by_node src then add_back src (targets_of ts src) ts else ts)

  unfoldable pub probe_targets : Bool → ℕ → List String → Targets
  probe_targets probe_full limit ids =
      let ts = first_targets probe_full limit ids ids [] in if probe_full then ts else close ids ts

  unfoldable pub build_probe_sets : List String → Bool → ℕ → Assoc String (List ProbeTarget)
  build_probe_sets ids probe_full limit = probe_table by_node (probe_targets probe_full limit ids)
