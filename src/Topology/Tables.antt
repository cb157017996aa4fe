-- ===== src/Topology/Tables.antt =====
-- internal/controller/topology/fib.go: the forwarding tables of the nodes, from the baseline routes. A
-- Go map is an association list in the order in which one walk meets its keys.
pub mod Acyclic
pub mod Aggregate
pub mod Offers
pub mod Origin
pub mod Growth
pub mod Kept
use Prim.Native.String.{String}
use Prim.Native.String.{◌++◌ as append_string}
use corelink.Prelude.{
  ℕ, Bool, true, false, ◌&&◌, not, List, [], ◌∷◌, ◌++◌, map, if◌then◌else◌, Option, none, some,
}
use corelink.Prelude.Assoc.{Assoc, lookup, insert, ◌=?◌, string_eq}
use corelink.Prelude.Sort.{string_lt, sort_func}
use corelink.Topology.Dag.{
  Graph, PerSource, FibNextHop, FibRouteEntry, or_nil, Verdict, valid, invalid, undecided,
  validate_dag,
}
use corelink.Topology.Prune.{build_forwarding_graph, Pruned, pruned, stuck, prune_graph_cycles}

pub record Hop : Type 0 where
  pub node : String
  pub ingress : String

pub record RoutePair : Type 0 where
  pub src : String
  pub dst : String

abbrev pub Baseline : Type 0
Baseline = List (RoutePair × List (List Hop))

-- The aggregate of one prefix; `seen` has the pairs of a peer and an ingress that are in `hops`.
pub record DstAgg : Type 0 where
  pub prefix : String
  pub seen : List (String × String)
  pub hops : List FibNextHop

abbrev pub PerSourceAgg : Type 0
PerSourceAgg = Assoc String (Assoc String DstAgg)

abbrev pub seen_key : String → String → List (String × String) → Bool
seen_key peer ingress [] = false
seen_key peer ingress ((p, i) ∷ seen) =
    if (p =? peer) && (i =? ingress) then true else seen_key peer ingress seen

unfoldable pub add_first_hop : Hop → DstAgg → DstAgg
add_first_hop h agg = if seen_key h.node h.ingress agg.seen then agg else record agg {
  seen = (h.node, h.ingress) ∷ agg.seen;
  hops = agg.hops ++ (record { peer_id = h.node; weight = 100; ingress_id = h.ingress } ∷ []);
}

abbrev pub or_new : String → Option DstAgg → DstAgg
or_new prefix none = record { prefix = prefix; seen = []; hops = [] }
or_new prefix (some agg) = agg

unfoldable pub add_route : String → String → List Hop → PerSourceAgg → PerSourceAgg
add_route src prefix [] m = m
add_route src prefix (h ∷ rest) m =
    let dsts = or_nil (lookup src m) in
    insert src (insert prefix (add_first_hop h (or_new prefix (lookup prefix dsts))) dsts) m

unfoldable pub add_routes : String → String → List (List Hop) → PerSourceAgg → PerSourceAgg
add_routes src prefix [] m = m
add_routes src prefix (hops ∷ routes) m = add_routes src prefix routes (add_route src prefix hops m)

-- `fmt.Sprintf("%s/32", vip)`
unfoldable pub host_prefix : String → String
host_prefix vip = append_string vip "/32"

unfoldable pub add_pair :
    Assoc String String → RoutePair → List (List Hop) → PerSourceAgg → PerSourceAgg
add_pair node_vips rp routes m = elim (lookup rp.dst node_vips) [
  | none ↦ m
  | some vip ↦ add_routes rp.src (host_prefix vip) routes m
]

unfoldable pub aggregate : Assoc String String → Baseline → PerSourceAgg → PerSourceAgg
aggregate node_vips [] m = m
aggregate node_vips ((rp, routes) ∷ baseline) m =
    aggregate node_vips baseline (add_pair node_vips rp routes m)

abbrev pub hop_lt : FibNextHop → FibNextHop → Bool
hop_lt a b =
    if not (a.peer_id =? b.peer_id)
    then string_lt a.peer_id b.peer_id
    else string_lt a.ingress_id b.ingress_id

unfoldable pub route_entry : DstAgg → FibRouteEntry
route_entry agg = record { prefix = agg.prefix; next_hops = sort_func hop_lt agg.hops }

abbrev pub route_entries : Assoc String DstAgg → List FibRouteEntry
route_entries [] = []
route_entries ((prefix, agg) ∷ dsts) = route_entry agg ∷ route_entries dsts

abbrev pub per_source : PerSourceAgg → PerSource
per_source [] = []
per_source ((src, dsts) ∷ m) = (src, route_entries dsts) ∷ per_source m

unfoldable pub build_per_source_fib : Baseline → Assoc String String → PerSource
build_per_source_fib baseline node_vips = per_source (aggregate node_vips baseline [])

pub record NextHopEntry : Type 0 where
  pub peer_id : String
  pub weight : ℕ
  pub ingress_id : String

pub record FibEntry : Type 0 where
  pub prefix : String
  pub next_hops : List NextHopEntry

pub record FibTable : Type 0 where
  pub version : ℕ
  pub entries : List FibEntry

abbrev pub entry_lt : FibRouteEntry → FibRouteEntry → Bool
entry_lt a b = string_lt a.prefix b.prefix

unfoldable pub convert_hop : FibNextHop → NextHopEntry
convert_hop nh = record { peer_id = nh.peer_id; weight = nh.weight; ingress_id = nh.ingress_id }

unfoldable pub convert_entry : FibRouteEntry → FibEntry
convert_entry entry = record { prefix = entry.prefix; next_hops = map convert_hop entry.next_hops }

unfoldable pub convert_to_proto : PerSource → ℕ → Assoc String FibTable
convert_to_proto [] version = []
convert_to_proto ((src, entries) ∷ per_src) version =
    (src, record { version = version; entries = map convert_entry (sort_func entry_lt entries) })
    ∷ convert_to_proto per_src version

-- The tables as `pruneGraphCycles` leaves them; `none` if it does not end.
abbrev pub convert_pruned : ℕ → Pruned → Option (Assoc String FibTable)
convert_pruned version (pruned per_src g) = some (convert_to_proto per_src version)
convert_pruned version stuck = none

unfoldable pub compute_fib : Baseline → Assoc String String → ℕ → Option (Assoc String FibTable)
compute_fib baseline node_vips version =
    let per_src = build_per_source_fib baseline node_vips in
    let g = build_forwarding_graph per_src in
    elim (validate_dag g) [
      | valid ↦ some (convert_to_proto per_src version)
      | invalid cycle ↦ convert_pruned version (prune_graph_cycles per_src g)
      | undecided ↦ none
    ]
