-- ===== src/Topology/Shortest/Fuel.antt =====
-- A measure of the loop of `dijkstra` in internal/controller/topology/kpaths.go: the items of the queue
-- and the edges of the vertices that are not visited.
use Prim.Native.String.{String}
use corelink.Prelude.{
  ℕ, suc, ◌≡◌, refl, ◌+◌, ◌≤◌, false, List, [], ◌∷◌, length, if◌then◌else◌, arith,
}
use corelink.Prelude.Assoc.{Assoc, lookup, string_eq}
use corelink.Topology.Dag.{or_nil}
use corelink.Topology.Prune.{contains}
use corelink.Topology.Vertex.{Vertex}
use corelink.Topology.Shortest.{
  Edge, Graph, edges_of, PqItem, Dijkstra, improve, relax_edge, relax_edges, count_edges,
}

-- The edges of the vertices that are not among `vs`.
abbrev pub unvisited : Assoc Vertex (List Edge) → List Vertex → ℕ
unvisited [] vs = 0
unvisited ((v, es) ∷ adj) vs = (if contains v vs then 0 else length es) + unvisited adj vs

pub unvisited-nil : (adj : Assoc Vertex (List Edge)) → unvisited adj [] ≡ count_edges adj
unvisited-nil [] = refl
unvisited-nil ((v, es) ∷ adj) = omega (arith, unvisited-nil adj)

unvisited_le :
    (adj : Assoc Vertex (List Edge)) (u : Vertex) (vs : List Vertex)
    → unvisited adj (u ∷ vs) ≤ unvisited adj vs
unvisited_le [] u vs = omega arith
unvisited_le ((v, es) ∷ adj) u vs = ground (arith, unvisited_le adj u vs)

unvisited_list :
    (adj : Assoc Vertex (List Edge)) (u : Vertex) (vs : List Vertex)
    → contains u vs ≡ false
    → unvisited adj (u ∷ vs) + length (or_nil (lookup u adj)) ≤ unvisited adj vs
unfolding lookup
unvisited_list [] u vs n = omega arith
unvisited_list ((v, es) ∷ adj) u vs n = ground (
  arith,
  n,
  unvisited_le adj u vs,
  unvisited_list adj u vs n,
  string_eq.beq_iff v u,
  string_eq.beq_iff u v,
)

-- A visit of `u` takes the edges of `u` from the measure.
pub unvisited-visit :
    (g : Graph) (u : Vertex) (vs : List Vertex)
    → contains u vs ≡ false
    → unvisited g.adj (u ∷ vs) + length (edges_of g u) ≤ unvisited g.adj vs
unfolding edges_of
unvisited-visit g u vs n = unvisited_list g.adj u vs n

module _ (g : Graph) (removed_v : List Vertex) (removed_e : List String) where
  length-relax_edge :
      (cur : PqItem) (e : Edge) (s : Dijkstra)
      → length (relax_edge g removed_v removed_e cur e s).pq ≤ suc (length s.pq)
  unfolding relax_edge improve
  length-relax_edge cur e s = ground (arith)

  -- A relaxation queues an item for an edge at most.
  pub length-relax_edges :
      (cur : PqItem) (es : List Edge) (s : Dijkstra)
      → length (relax_edges g removed_v removed_e cur es s).pq ≤ length es + length s.pq
  unfolding relax_edges
  length-relax_edges cur [] s = omega arith
  length-relax_edges cur (e ∷ es) s = omega (
    arith,
    length-relax_edge cur e s,
    length-relax_edges cur es (relax_edge g removed_v removed_e cur e s),
  )
