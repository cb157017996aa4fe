-- ===== src/Topology/Dag.antt =====
-- internal/controller/topology/dag.go: cycles in the forwarding graph, and how they are removed. A Go
-- map is an association list in the order in which one walk meets its keys. The recursion has fuel for
-- every vertex; `exhausted` stands for a lack of it.
pub mod Paths
pub mod Colors
pub mod Visits
pub mod Cycle
pub mod Validation
use Prim.Native.Nat.{ℕ, zero, suc}
use Prim.Native.String.{String}
use corelink.Prelude.{
  ◌+◌, Bool, true, false, not, List, [], ◌∷◌, ◌++◌, length, map, if◌then◌else◌, Option, none, some,
  any,
}
use corelink.Prelude.Assoc.{Assoc, lookup, insert, erase, ◌=?◌, string_eq}

pub record FibNextHop : Type 0 where
  pub peer_id : String
  pub weight : ℕ
  pub ingress_id : String

pub record FibRouteEntry : Type 0 where
  pub prefix : String
  pub next_hops : List FibNextHop

abbrev pub Graph : Type 0
Graph = Assoc String (List String)

abbrev pub PerSource : Type 0
PerSource = Assoc String (List FibRouteEntry)

abbrev pub or_nil {ℓ} : {A : Type ℓ} → Option (List A) → List A
or_nil none = []
or_nil (some xs) = xs

-- `graph[node]`
unfoldable pub succs : Graph → String → List String
succs g u = or_nil (lookup u g)

pub data Color : Type 0 where
  white gray black : Color

abbrev pub Colors : Type 0
Colors = Assoc String Color

abbrev pub Parents : Type 0
Parents = Assoc String String

-- `color[node]`: white is the zero value.
abbrev pub or_white : Option Color → Color
or_white none = white
or_white (some c) = c

unfoldable pub color_of : Colors → String → Color
color_of color v = or_white (lookup v color)

abbrev pub or_empty : Option String → String
or_empty none = ""
or_empty (some s) = s

abbrev pub keys {ℓ κ} : {K : Type ℓ} {V : Type κ} → Assoc K V → List K
keys [] = []
keys ((k, v) ∷ m) = k ∷ keys m

-- All keys, and all that they refer to.
abbrev pub vertices : Graph → List String
vertices [] = []
vertices ((k, ss) ∷ m) = k ∷ (ss ++ vertices m)

unfoldable pub whiten : List String → Colors
whiten [] = []
whiten (v ∷ vs) = insert v white (whiten vs)

-- The path of a back edge, once the walk back over the parents is done.
pub data Search : Type 0 where
  found : Option (List String) → Search
  clear : Colors → Parents → Search
  exhausted : Search

abbrev pub and_then : Search → (Colors → Parents → Search) → Search
and_then (found path) k = found path
and_then (clear color parent) k = k color parent
and_then exhausted k = exhausted

-- `for cur != succ`, on the reversed list.
unfoldable pub trace : ℕ → Parents → String → String → List String → Option (List String)
trace zero parent target cur path = none
trace (suc n) parent target cur path = elim (cur =? target) [
  | true ↦ some path
  | false ↦ let up = or_empty (lookup cur parent) in trace n parent target up (up ∷ path)
]

-- The loop of `dfsFindCycle` over the successors; `visit` is the recursive call.
unfoldable pub scan_succs :
    ℕ → (String → Colors → Parents → Search) → String → List String → Colors → Parents → Search
scan_succs size visit node [] color parent = clear color parent
scan_succs size visit node (s ∷ ss) color parent = elim (color_of color s) [
  | gray ↦ found (trace size parent s node (node ∷ s ∷ []))
  | white ↦ and_then (visit s color (insert s node parent)) (scan_succs size visit node ss)
  | black ↦ scan_succs size visit node ss color parent
]

unfoldable pub dfs_find_cycle : ℕ → ℕ → Graph → String → Colors → Parents → Search
dfs_find_cycle zero size g node color parent = exhausted
dfs_find_cycle (suc n) size g node color parent =
    and_then
      (scan_succs size (dfs_find_cycle n size g) node (succs g node) (insert node gray color)
        parent)
      (λ c p. clear (insert node black c) p)

-- The loop of `findOneCycle` over the keys of the graph.
unfoldable pub search_keys : ℕ → Graph → List String → Colors → Parents → Search
search_keys size g [] color parent = clear color parent
search_keys size g (k ∷ ks) color parent = elim (color_of color k) [
  | white ↦ and_then (dfs_find_cycle size size g k color parent) (search_keys size g ks)
  | gray ↦ search_keys size g ks color parent
  | black ↦ search_keys size g ks color parent
]

unfoldable pub find_one_cycle : Graph → Search
find_one_cycle g = let vs = vertices g in search_keys (suc (length vs)) g (keys g) (whiten vs) []

-- `dfsVisit`: true is `back_edge`, false is `done` with the colors.
pub data Visit : Type 0 where
  back_edge : Visit
  done : Colors → Visit
  no_fuel : Visit

abbrev pub then_visit : Visit → (Colors → Visit) → Visit
then_visit back_edge k = back_edge
then_visit (done color) k = k color
then_visit no_fuel k = no_fuel

-- The loop of `dfsVisit` over the successors; `visit` is the recursive call.
unfoldable pub visit_succs : (String → Colors → Visit) → List String → Colors → Visit
visit_succs visit [] color = done color
visit_succs visit (s ∷ ss) color = elim (color_of color s) [
  | gray ↦ back_edge
  | white ↦ then_visit (visit s color) (visit_succs visit ss)
  | black ↦ visit_succs visit ss color
]

unfoldable pub dfs_visit : ℕ → Graph → String → Colors → Visit
dfs_visit zero g node color = no_fuel
dfs_visit (suc n) g node color =
    then_visit (visit_succs (dfs_visit n g) (succs g node) (insert node gray color))
      (λ c. done (insert node black c))

-- The loop of `validateDAG` over the keys of the graph.
unfoldable pub visit_keys : ℕ → Graph → List String → Colors → Visit
visit_keys size g [] color = done color
visit_keys size g (k ∷ ks) color = elim (color_of color k) [
  | white ↦ then_visit (dfs_visit size g k color) (visit_keys size g ks)
  | gray ↦ visit_keys size g ks color
  | black ↦ visit_keys size g ks color
]

-- An error names the cycle that is found, if one is.
pub data Verdict : Type 0 where
  valid : Verdict
  invalid : Option (List String) → Verdict
  undecided : Verdict

abbrev pub cycle_of : Search → Option (List String)
cycle_of (found path) = path
cycle_of _ = none

unfoldable pub validate_dag : Graph → Verdict
validate_dag g =
    let vs = vertices g in
    elim (visit_keys (suc (length vs)) g (keys g) (whiten vs)) [
      | back_edge ↦ invalid (cycle_of (find_one_cycle g))
      | done color ↦ valid
      | no_fuel ↦ undecided
    ]
