-- ===== src/Topology/Prune.antt =====
-- internal/controller/topology/dag.go: the forwarding graph of the tables of all nodes, and the removal
-- of its cycles. The loop of `pruneGraphCycles` has fuel for every edge.
pub mod Forwarding
pub mod Removal
pub mod Loop
use Prim.Native.String.{String}
use corelink.Prelude.{
  ℕ, zero, suc, ◌+◌, Bool, true, false, not, List, [], ◌∷◌, ◌++◌, length, if◌then◌else◌, Option,
  none, some,
}
use corelink.Prelude.Assoc.{lookup, insert, erase, ◌=?◌, string_eq}
use corelink.Topology.Dag.{
  Graph, PerSource, FibNextHop, FibRouteEntry, or_nil, succs, Search, found, clear, exhausted,
  find_one_cycle,
}

abbrev pub contains : String → List String → Bool
contains v [] = false
contains v (w ∷ vs) = if w =? v then true else contains v vs

abbrev pub add_hop : String → Graph → FibNextHop → Graph
add_hop src g nh =
    if contains nh.peer_id (succs g src) then g else insert src (succs g src ++ (nh.peer_id ∷ [])) g

abbrev pub add_hops : String → Graph → List FibNextHop → Graph
add_hops src g [] = g
add_hops src g (nh ∷ hops) = add_hops src (add_hop src g nh) hops

abbrev pub add_entries : String → Graph → List FibRouteEntry → Graph
add_entries src g [] = g
add_entries src g (entry ∷ entries) = add_entries src (add_hops src g entry.next_hops) entries

-- `if _, ok := graph[src]; !ok`
abbrev pub add_source : String → Graph → Graph
add_source src g = elim (lookup src g) [ none ↦ insert src [] g | some ss ↦ g ]

abbrev pub add_sources : Graph → PerSource → Graph
add_sources g [] = g
add_sources g ((src, entries) ∷ per_src) =
    add_sources (add_entries src (add_source src g) entries) per_src

unfoldable pub build_forwarding_graph : PerSource → Graph
build_forwarding_graph per_src = add_sources [] per_src

-- `slices.DeleteFunc`
abbrev pub delete_func {ℓ} : {A : Type ℓ} → (A → Bool) → List A → List A
delete_func del [] = []
delete_func del (x ∷ xs) = let rest = delete_func del xs in if del x then rest else x ∷ rest

abbrev pub keep_entry : FibRouteEntry → List FibRouteEntry → List FibRouteEntry
keep_entry entry kept = elim entry.next_hops [ [] ↦ kept | nh ∷ hops ↦ entry ∷ kept ]

-- The entries that keep a next hop.
abbrev pub without_hop : String → List FibRouteEntry → List FibRouteEntry
without_hop to [] = []
without_hop to (entry ∷ entries) =
    keep_entry
      (record entry {
        next_hops = delete_func (λ (nh : FibNextHop). nh.peer_id =? to) entry.next_hops;
      })
      (without_hop to entries)

unfoldable pub remove_next_hop : PerSource → String → String → PerSource
remove_next_hop per_src from to = elim (without_hop to (or_nil (lookup from per_src))) [
  | [] ↦ erase from per_src
  | e ∷ kept ↦ insert from (e ∷ kept) per_src
]

-- `cycle[n-2]` and `cycle[n-1]`
abbrev pub last_two : List String → Option (String × String)
last_two [] = none
last_two (u ∷ []) = none
last_two (u ∷ v ∷ []) = some (u, v)
last_two (u ∷ v ∷ w ∷ l) = last_two (v ∷ w ∷ l)

unfoldable pub remove_edge : Graph → String → String → Graph
remove_edge g from to = insert from (delete_func (λ s. s =? to) (succs g from)) g

-- `stuck` stands for an index out of range and for a lack of fuel.
pub data Pruned : Type 0 where
  pruned : PerSource → Graph → Pruned
  stuck : Pruned

unfoldable pub prune_rounds : ℕ → PerSource → Graph → Pruned
prune_rounds zero per_src g = stuck
prune_rounds (suc n) per_src g = elim (find_one_cycle g) [
  | clear color parent ↦ pruned per_src g
  | exhausted ↦ stuck
  | found none ↦ stuck
  | found (some cycle) ↦ elim (last_two cycle) [
    | none ↦ stuck
    | some (from, to) ↦ prune_rounds n (remove_next_hop per_src from to) (remove_edge g from to)
  ]
]

abbrev pub edge_count : Graph → ℕ
edge_count [] = 0
edge_count ((k, ss) ∷ g) = length ss + edge_count g

unfoldable pub prune_graph_cycles : PerSource → Graph → Pruned
prune_graph_cycles per_src g = prune_rounds (suc (edge_count g)) per_src g
