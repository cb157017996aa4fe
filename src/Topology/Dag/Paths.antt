-- ===== src/Topology/Dag/Paths.antt =====
-- Paths and cycles of a graph of internal/controller/topology/dag.go.
use Prim.Native.String.{String}
use mathlib.Core.List.{Memᴰ}
use corelink.Prelude.{◌≤◌, ◌≡◌, subst, arith, List, [], ◌∷◌, length}
use corelink.Topology.Dag.{Graph, succs}

abbrev pub Edge : Graph → String → String → Type 0
Edge g u v = Memᴰ v (succs g u)

-- Walks of one edge or more.
pub data Walk (g : Graph) (u : String) : String → Type 0 where
  edge : {v : String} → Edge g u v → Walk g u v
  onward : {v w : String} → Walk g u v → Edge g v w → Walk g u w

abbrev pub IsAcyclic : Graph → Type 0
IsAcyclic g = (u : String) → ¬ Walk g u u

-- Each vertex of the list has an edge to the next.
abbrev pub IsPath : Graph → List String → Type 0
IsPath g [] = Unit {0}
IsPath g (u ∷ []) = Unit {0}
IsPath g (u ∷ v ∷ l) = Edge g u v × IsPath g (v ∷ l)

abbrev pub StartsAt : String → List String → Type 0
StartsAt u [] = ⊥
StartsAt u (v ∷ l) = v ≡ u

abbrev pub EndsAt : String → List String → Type 0
EndsAt u [] = ⊥
EndsAt u (v ∷ []) = v ≡ u
EndsAt u (v ∷ w ∷ l) = EndsAt u (w ∷ l)

-- A closed path of one edge or more.
pub record IsCycle (g : Graph) (path : List String) : Type 0 where
  pub at : String
  pub along : IsPath g path
  pub starts : StartsAt at path
  pub ends : EndsAt at path
  pub long : 2 ≤ length path

pub prepend : (g : Graph) (u v w : String) → Edge g u v → Walk g v w → Walk g u w
prepend g u v w d (edge e) = onward (edge d) e
prepend g u v w d (onward {v = x} r e) = onward (prepend g u v x d r) e

path_Walk :
    (g : Graph) (u v w : String) (l : List String)
    → IsPath g (u ∷ v ∷ l)
    → EndsAt w (u ∷ v ∷ l)
    → Walk g u w
path_Walk g u v w [] (d, _) e = subst (Walk g u) e (edge d)
path_Walk g u v w (x ∷ l) (d, p) e = prepend g u v w d (path_Walk g v x w l p e)

-- A cycle is a walk from a vertex to itself.
pub IsCycle-Walk : (g : Graph) (l : List String) (c : IsCycle g l) → Walk g c.at c.at
IsCycle-Walk g [] c = absurd c.starts
IsCycle-Walk g (u ∷ []) c = let h = c.long in absurd (omega arith)
IsCycle-Walk g (u ∷ v ∷ l) c =
    subst (λ x. Walk g x c.at) c.starts (path_Walk g u v c.at l c.along c.ends)
