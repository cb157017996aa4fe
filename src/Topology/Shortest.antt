-- ===== src/Topology/Shortest.antt =====
-- internal/controller/topology/kpaths.go: shortest paths in the split graph by Dijkstra's algorithm. A
-- Go map is an association list, a set of strings a list. The heap of the source is a list from which
-- the least item is taken: items that `less` does not tell apart are equal. Both loops have fuel.
pub mod Walks
pub mod Invariant
pub mod Relax
pub mod Rounds
pub mod Fuel
pub mod Search
pub mod Correct
use Prim.Native.String.{String, ◌++◌ as append_string}
use corelink.Prelude.{
  ℕ, zero, suc, ◌+◌, ◌*◌, ◌%◌, ◌^◌, ◌⊎◌, inl, inr, Bool, true, false, List, [], ◌∷◌, ◌++◌, length,
  if◌then◌else◌, Option, none, some, ltb, leb, ◌==◌,
}
use corelink.Prelude.Assoc.{Assoc, lookup, insert, ◌=?◌, string_eq}
use corelink.Prelude.Sort.{string_lt}
use corelink.Topology.Dag.{or_nil}
use corelink.Topology.Prune.{contains}
use corelink.Topology.Vertex.{Vertex, sep}

pub record Edge : Type 0 where
  pub to : Vertex
  pub w : ℕ

pub record Graph : Type 0 where
  pub adj : Assoc Vertex (List Edge)

-- `g.Adj[v]`
unfoldable pub edges_of : Graph → Vertex → List Edge
edges_of g v = or_nil (lookup v g.adj)

abbrev pub max_w : ℕ
max_w = 2 ^ 63

abbrev pub edge_key : Vertex → Vertex → String
edge_key from to = append_string from (append_string sep to)

pub record PqItem : Type 0 where
  pub v : Vertex
  pub dist : ℕ

abbrev pub less : PqItem → PqItem → Bool
less a b = if a.dist == b.dist then string_lt a.v b.v else ltb a.dist b.dist

-- The least of `x ∷ items`, and the others.
unfoldable pub pop_min : PqItem → List PqItem → PqItem × List PqItem
pop_min x [] = (x, [])
pop_min x (y ∷ items) =
    let popped = pop_min (if less y x then y else x) items in
    (popped.0, (if less y x then x else y) ∷ popped.1)

pub record Dijkstra : Type 0 where
  pub dist : Assoc Vertex ℕ
  pub prev : Assoc Vertex Vertex
  pub visited : List Vertex
  pub pq : List PqItem

abbrev pub start_at : Vertex → Dijkstra
start_at src = record {
  dist = (src, 0) ∷ [];
  prev = [];
  visited = [];
  pq = record { v = src; dist = 0 } ∷ [];
}

unfoldable pub improve : Vertex → Vertex → ℕ → Dijkstra → Dijkstra
improve u to nd s = record s {
  dist = insert to nd s.dist;
  prev = insert to u s.prev;
  pq = record { v = to; dist = nd } ∷ s.pq;
}

module _ (g : Graph) (removed_v : List Vertex) (removed_e : List String) where
  unfoldable pub allowed : Vertex → Edge → Bool
  allowed u e =
      if contains e.to removed_v
      then false
      else (if contains (edge_key u e.to) removed_e then false else true)

  unfoldable pub relax_edge : PqItem → Edge → Dijkstra → Dijkstra
  relax_edge cur e s =
      if allowed cur.v e
      then (let nd = (cur.dist + e.w) % 2 ^ 64 in
          elim (lookup e.to s.dist) [
            | none ↦ improve cur.v e.to nd s
            | some old ↦ if ltb nd old then improve cur.v e.to nd s else s
          ])
      else s

  unfoldable pub relax_edges : PqItem → List Edge → Dijkstra → Dijkstra
  relax_edges cur [] s = s
  relax_edges cur (e ∷ es) s = relax_edges cur es (relax_edge cur e s)

  -- The item `cur` was popped: `inl` leaves the loop, `inr` goes on.
  unfoldable pub take_item : Vertex → PqItem → Dijkstra → Dijkstra ⊎ Dijkstra
  take_item dst cur s =
      if contains cur.v s.visited
      then inr s
      else (let seen = record s { visited = cur.v ∷ s.visited } in
          if cur.v =? dst then inl seen else inr (relax_edges cur (edges_of g cur.v) seen))

  unfoldable pub round : Vertex → Dijkstra → Dijkstra ⊎ Dijkstra
  round dst s = elim s.pq [
    | [] ↦ inl s
    | item ∷ items ↦
        let popped = pop_min item items in take_item dst popped.0 (record s { pq = popped.1 })
  ]

  unfoldable pub search : ℕ → Vertex → Dijkstra → Option Dijkstra
  search zero dst s = none
  search (suc fuel) dst s = elim (round dst s) [ inl t ↦ some t | inr t ↦ search fuel dst t ]

abbrev pub or_empty : Option Vertex → Vertex
or_empty none = ""
or_empty (some v) = v

-- The path from `v` back to `src`.
unfoldable pub backtrack : ℕ → Assoc Vertex Vertex → Vertex → Vertex → Option (List Vertex)
backtrack zero prev src v = none
backtrack (suc fuel) prev src v =
    let rest = backtrack fuel prev src (or_empty (lookup v prev)) in
    if v =? src then some (v ∷ []) else elim rest [ none ↦ none | some rev ↦ some (v ∷ rev) ]

-- `slices.Reverse`
abbrev pub reverse {ℓ} : {A : Type ℓ} → List A → List A
reverse [] = []
reverse (x ∷ xs) = reverse xs ++ (x ∷ [])

-- `dist[dst]`
abbrev pub or_zero : Option ℕ → ℕ
or_zero none = 0
or_zero (some d) = d

-- All edges of the lists.
abbrev pub count_edges : Assoc Vertex (List Edge) → ℕ
count_edges [] = 0
count_edges ((v, es) ∷ adj) = length es + count_edges adj

-- The code after the loop: no path is the empty list, as Go's nil is.
unfoldable pub path_to : Vertex → Vertex → Dijkstra → Option (List Vertex × ℕ)
path_to src dst s =
    if contains dst s.visited
    then elim (backtrack (length s.visited) s.prev src dst) [
      | none ↦ none
      | some rev ↦ some (reverse rev, or_zero (lookup dst s.dist))
    ]
    else some ([], max_w)

-- `none` stands for a lack of fuel.
unfoldable pub dijkstra :
    Graph → Vertex → Vertex → List Vertex → List String → Option (List Vertex × ℕ)
dijkstra g src dst removed_v removed_e =
    if contains src removed_v
    then some ([], max_w)
    else (if contains dst removed_v
        then some ([], max_w)
        else elim (search g removed_v removed_e (suc (suc (count_edges g.adj))) dst
            (start_at src)) [ none ↦ none | some s ↦ path_to src dst s ])
