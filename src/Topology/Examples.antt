-- ===== src/Topology/Examples.antt =====
-- The theorems of internal/controller/topology at concrete inputs, and runs of its functions.
use Prim.Native.String.{String}
use mathlib.Core.List.{Memᴰ}
use corelink.Prelude.{◌≡◌, refl, ◌⊎◌, ◌↔◌, List, [], ◌∷◌, some}
use corelink.Prelude.Assoc.{Assoc, lookup, insert, erase, string_eq}
use corelink.Prelude.Sort.{sort_func}
use corelink.Topology.Dag.{
  Graph, PerSource, FibNextHop, Colors, Parents, found, clear, find_one_cycle, valid, invalid,
  validate_dag, visit_keys, dfs_visit, visit_succs, search_keys, dfs_find_cycle, scan_succs, trace,
  color_of, whiten,
}
use corelink.Topology.Dag.Cycle.{find_one_cycle_lem}
use corelink.Topology.Dag.Paths.{Edge, IsCycle, IsAcyclic}
use corelink.Topology.Dag.Validation.{validate_dag_lem}
use corelink.Topology.Prune.{
  build_forwarding_graph, pruned, prune_graph_cycles, prune_rounds, remove_next_hop, remove_edge,
}
use corelink.Topology.Prune.Forwarding.{
  add_all_new, peers_of, succs-build_forwarding_graph, build_forwarding_graph-IsForwarding,
}
use corelink.Topology.Prune.Loop.{IsOnCycle, IsPruned, prune_graph_cycles_lem}
use corelink.Topology.Dag.{succs}
use corelink.Topology.Published.{
  inject_published_prefixes, inject_table, inject_owners, inject_owner, inject_prefixes,
  inject_prefix,
}
use corelink.Topology.Published.Injection.{IsInjected, inject_table-IsInjected}
use corelink.Topology.Published.Edges.{inject_published_prefixes-IsAcyclic}
use corelink.Topology.Tables.{
  Baseline, FibTable, FibEntry, build_per_source_fib, compute_fib, aggregate, add_pair, add_routes,
  add_route, add_first_hop, host_prefix, route_entry, convert_to_proto, convert_entry, convert_hop,
}
use corelink.Topology.Tables.Acyclic.{table_peers, compute_fib-IsAcyclic}
use corelink.Topology.Tables.Kept.{compute_fib-keeps}
use corelink.Topology.Tables.Offers.{origin}
use corelink.Topology.Tables.Origin.{FromBaseline, compute_fib-FromBaseline}

abbrev ring : Graph
ring = ("a", "b" ∷ []) ∷ ("b", "c" ∷ "d" ∷ []) ∷ ("c", "d" ∷ "a" ∷ []) ∷ []

find_one_cycle_lem_run :
    ((l : List String) × (find_one_cycle ring ≡ found (some l)) × IsCycle ring l)
    ⊎ ((c : Colors) × (p : Parents) × (find_one_cycle ring ≡ clear c p) × IsAcyclic ring)
find_one_cycle_lem_run = find_one_cycle_lem ring

validate_dag_lem_example :
    ((validate_dag ring ≡ valid) × IsAcyclic ring)
    ⊎ ((l : List String) × (validate_dag ring ≡ invalid (some l))
        × IsCycle ring l
        × (¬ IsAcyclic ring))
validate_dag_lem_example = validate_dag_lem ring

abbrev hop : String → FibNextHop
hop peer = record { peer_id = peer; weight = 100; ingress_id = "i" }

abbrev two_sources : PerSource
two_sources =
    (
      "a",
      record { prefix = "10.0.0.3/32"; next_hops = hop "b" ∷ [] }
          ∷ record { prefix = "10.0.0.2/32"; next_hops = hop "b" ∷ hop "c" ∷ [] }
          ∷ [],
    )
    ∷ ("b", record { prefix = "10.0.0.3/32"; next_hops = hop "a" ∷ [] } ∷ [])
    ∷ []

succs-build_forwarding_graph_run :
    succs (build_forwarding_graph two_sources) "a" ≡ add_all_new [] (peers_of two_sources "a")
unfolding lookup
succs-build_forwarding_graph_run = succs-build_forwarding_graph "a" two_sources (refl, (refl, tt))

prune_graph_cycles_lem_example :
    (per_src' : PerSource) × (g' : Graph) × (prune_graph_cycles two_sources
        (build_forwarding_graph two_sources)
      ≡ pruned per_src' g')
    × IsPruned (build_forwarding_graph two_sources) per_src' g'
unfolding lookup
prune_graph_cycles_lem_example =
    prune_graph_cycles_lem two_sources (build_forwarding_graph two_sources)
      (build_forwarding_graph-IsForwarding two_sources (refl, (refl, tt)))

abbrev routes : Baseline
routes =
    (
      record { src = "a"; dst = "c" },
      (record { node = "b"; ingress = "i" } ∷ record { node = "c"; ingress = "i" } ∷ []) ∷ [],
    )
    ∷ (record { src = "b"; dst = "c" }, (record { node = "a"; ingress = "j" } ∷ []) ∷ [] ∷ [])
    ∷ (record { src = "b"; dst = "d" }, (record { node = "c"; ingress = "i" } ∷ []) ∷ [])
    ∷ []

abbrev vips : Assoc String String
vips = ("c", "10.0.0.3") ∷ ("d", "10.0.0.4") ∷ []

compute_fib-IsAcyclic_example :
    (tables : Assoc String FibTable) × (g : Graph) × (compute_fib routes vips 7 ≡ some tables)
    × IsAcyclic g
    × ((u v : String) → Edge g u v ↔ Memᴰ v (table_peers (lookup u tables)))
compute_fib-IsAcyclic_example = compute_fib-IsAcyclic routes vips 7

abbrev to_d : FibEntry
to_d = record {
  prefix = "10.0.0.4/32";
  next_hops = record { peer_id = "c"; weight = 100; ingress_id = "i" } ∷ [];
}

abbrev to_c : FibEntry
to_c = record {
  prefix = "10.0.0.3/32";
  next_hops = record { peer_id = "b"; weight = 100; ingress_id = "i" } ∷ [];
}

abbrev tables : Assoc String FibTable
tables =
    ("a", record { version = 7; entries = to_c ∷ [] })
    ∷ ("b", record { version = 7; entries = to_d ∷ [] })
    ∷ []

-- The routes over a and b, each by the other, are a cycle; one of the two is gone.
compute_fib_run : compute_fib routes vips 7 ≡ some tables
unfolding compute_fib build_per_source_fib aggregate add_pair add_routes add_route add_first_hop
    host_prefix route_entry sort_func convert_to_proto convert_entry convert_hop
    build_forwarding_graph validate_dag visit_keys dfs_visit visit_succs find_one_cycle search_keys
    dfs_find_cycle scan_succs trace color_of whiten succs prune_graph_cycles prune_rounds
    remove_next_hop remove_edge lookup insert erase
compute_fib_run = refl

compute_fib-FromBaseline_example :
    FromBaseline routes vips "b" "10.0.0.4/32"
      (record { peer_id = "c"; weight = 100; ingress_id = "i" })
unfolding lookup origin
compute_fib-FromBaseline_example =
    compute_fib-FromBaseline routes vips 7 tables "b" (record { version = 7; entries = to_d ∷ [] })
      to_d (record { peer_id = "c"; weight = 100; ingress_id = "i" }) compute_fib_run refl
      (Memᴰ.head refl) (Memᴰ.head refl)

compute_fib-keeps_example :
    (t : Assoc String FibTable) × (compute_fib routes vips 7 ≡ some t)
    × (Memᴰ "c" (table_peers (lookup "b" t))
        ⊎ IsOnCycle (build_forwarding_graph (build_per_source_fib routes vips)) "b" "c")
unfolding lookup
compute_fib-keeps_example =
    compute_fib-keeps routes vips 7 (record { src = "b"; dst = "d" })
      ((record { node = "c"; ingress = "i" } ∷ []) ∷ []) "10.0.0.4"
      (record { node = "c"; ingress = "i" }) [] (Memᴰ.tail (Memᴰ.tail (Memᴰ.head refl))) refl
      (Memᴰ.head refl)

abbrev published : Assoc String (List String)
published = ("c", "192.168.7.0/24" ∷ []) ∷ ("a", "172.16.0.0/16" ∷ []) ∷ []

inject_published_prefixes-IsAcyclic_example :
    (t : Assoc String FibTable) × (g : Graph) × (compute_fib routes vips 7 ≡ some t)
    × IsAcyclic g
    × ((u v : String)
        → Edge g u v ↔ Memᴰ v (table_peers (lookup u (inject_published_prefixes t published vips))))
inject_published_prefixes-IsAcyclic_example =
    inject_published_prefixes-IsAcyclic routes vips 7 published vips

abbrev table_a : FibTable
table_a = record { version = 7; entries = to_c ∷ [] }

inject_table-IsInjected_example :
    IsInjected "a" vips published table_a (inject_table "a" vips published table_a)
inject_table-IsInjected_example = inject_table-IsInjected "a" vips published table_a

-- The prefix of c goes where the address of c goes, and a does not get its own.
inject_table_run : inject_table "a" vips published table_a ≡ record {
  version = 7;
  entries = to_c ∷ record { prefix = "192.168.7.0/24"; next_hops = to_c.next_hops } ∷ [];
}
unfolding inject_table inject_owners inject_owner inject_prefixes inject_prefix sort_func lookup
    insert host_prefix
inject_table_run = refl
