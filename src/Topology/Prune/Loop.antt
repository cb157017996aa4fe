-- ===== src/Topology/Prune/Loop.antt =====
-- `pruneGraphCycles` of internal/controller/topology/dag.go: it ends, without cycles.
use Prim.Native.String.{String}
use mathlib.Core.List.{Memᴰ}
use corelink.Prelude.{
  ℕ, zero, suc, ◌+◌, ◌≤◌, ◌<◌, ◌≡◌, refl, sym, ap, subst, ◌∙◌, ◌⊎◌, inl, inr, List, [], ◌∷◌, length,
  some, arith,
}
use corelink.Prelude.Assoc.{lookup, insert, ◌=?◌, string_eq}
use corelink.Topology.Dag.{Graph, PerSource, succs}
use corelink.Topology.Dag.Colors.{string_cases}
use corelink.Topology.Dag.Cycle.{find_one_cycle_lem}
use corelink.Topology.Dag.Paths.{
  Edge, Walk, edge, onward, prepend, IsPath, EndsAt, IsCycle, IsAcyclic,
}
use corelink.Topology.Prune.{
  delete_func, last_two, remove_next_hop, remove_edge, edge_count, pruned, prune_rounds,
  prune_graph_cycles,
}
use corelink.Topology.Prune.Forwarding.{IsForwarding}
use corelink.Topology.Prune.Removal.{remove-IsForwarding, Edge-remove_edge}

edge_count-insert :
    (k : String) (ss : List String) (g : Graph)
    → edge_count (insert k ss g) + length (succs g k) ≡ edge_count g + length ss
unfolding insert succs lookup
edge_count-insert k ss [] = omega arith
edge_count-insert k ss ((j, w) ∷ g) = ground (arith, edge_count-insert k ss g)

length-delete_le :
    (to : String) (vs : List String) → length (delete_func (λ s. s =? to) vs) ≤ length vs
length-delete_le to [] = omega arith
length-delete_le to (v ∷ vs) = ground (arith, length-delete_le to vs)

length-delete_lt :
    (to : String) (vs : List String)
    → Memᴰ to vs
    → length (delete_func (λ s. s =? to) vs) < length vs
length-delete_lt to [] m = elim m [ ]
length-delete_lt to (v ∷ vs) (Memᴰ.head e) =
    ground (arith, length-delete_le to vs, string_eq.beq_iff v to)
length-delete_lt to (v ∷ vs) (Memᴰ.tail m) = ground (arith, length-delete_lt to vs m)

edge_count-remove_edge :
    (g : Graph) (from to : String)
    → Edge g from to
    → edge_count (remove_edge g from to) < edge_count g
unfolding remove_edge
edge_count-remove_edge g from to e =
    let ss = delete_func (λ s. s =? to) (succs g from) in
    let a = edge_count-insert from ss g in
    let b = length-delete_lt to (succs g from) e in omega arith

-- An edge that lies on a cycle.
abbrev pub IsOnCycle : Graph → String → String → Type 0
IsOnCycle g u v = Edge g u v × ((v ≡ u) ⊎ Walk g v u)

last_edge :
    (g : Graph) (u v w : String) (l : List String)
    → IsPath g (u ∷ v ∷ l)
    → EndsAt w (u ∷ v ∷ l)
    → (a : String) × (last_two (u ∷ v ∷ l) ≡ some (a, w)) × Edge g a w × ((u ≡ a) ⊎ Walk g u a)
last_edge g u v w [] (d, _) e = (u, ap (λ x. some (u, x)) e, subst (Edge g u) e d, inl refl)
last_edge g u v w (x ∷ l) (d, p) e =
    let (a, q, b, r) = last_edge g v x w l p e in
    (
      a,
      q,
      b,
      elim r [ inl s ↦ inr (subst (Walk g u) s (edge d)) | inr s ↦ inr (prepend g u v a d s) ],
    )

pub cycle-last_two :
    (g : Graph) (l : List String)
    → IsCycle g l
    → (a w : String) × (last_two l ≡ some (a, w)) × IsOnCycle g a w
cycle-last_two g [] c = absurd c.starts
cycle-last_two g (u ∷ []) c = let h = c.long in absurd (omega arith)
cycle-last_two g (u ∷ v ∷ l) c =
    let (a, q, b, r) = last_edge g u v c.at l c.along c.ends in
    (
      a,
      c.at,
      q,
      (
        b,
        elim r [
          | inl s ↦ inl (sym c.starts ∙ s)
          | inr s ↦ inr (subst (λ x. Walk g x a) c.starts s)
        ],
      ),
    )

Walk-mono :
    (g g' : Graph) (u v : String)
    → ((x y : String) → Edge g' x y → Edge g x y)
    → Walk g' u v
    → Walk g u v
Walk-mono g g' u v h (edge e) = edge (h u v e)
Walk-mono g g' u v h (onward {v = x} r e) = onward (Walk-mono g g' u x h r) (h x v e)

-- What becomes of a graph and its tables.
pub record IsPruned (g : Graph) (per_src' : PerSource) (g' : Graph) : Type 0 where
  pub acyclic : IsAcyclic g'
  pub forwarding : IsForwarding per_src' g'
  pub kept : (u v : String) → Edge g' u v → Edge g u v
  pub removed : (u v : String) → Edge g u v → Edge g' u v ⊎ IsOnCycle g u v

same_edge : (u from v to : String) → ((u ≡ from) × (v ≡ to)) ⊎ (¬ ((u ≡ from) × (v ≡ to)))
same_edge u from v to = elim (string_cases u from) [
  | inr q ↦ inr (λ c. q c.0)
  | inl p ↦ elim (string_cases v to) [ inl q ↦ inl (p, q) | inr q ↦ inr (λ c. q c.1) ]
]

round-IsPruned :
    (g g' : Graph) (per_src' : PerSource) (from to : String)
    → IsOnCycle g from to
    → IsPruned (remove_edge g from to) per_src' g'
    → IsPruned g per_src' g'
round-IsPruned g g' per_src' from to on h =
    let less = λ (u v : String) (e : Edge (remove_edge g from to) u v).
      ((Edge-remove_edge g from to u v).0 e).0 in
    record {
      acyclic = h.acyclic;
      forwarding = h.forwarding;
      kept = λ u v e. less u v (h.kept u v e);
      removed = λ u v e. elim (same_edge u from v to) [
        | inl (p, q) ↦
            inr (subst (λ x. IsOnCycle g x v) (sym p) (subst (IsOnCycle g from) (sym q) on))
        | inr ne ↦ elim (h.removed u v ((Edge-remove_edge g from to u v).1 (e, ne))) [
          | inl k ↦ inl k
          | inr (k, c) ↦ inr (
            e,
            elim c [ inl q ↦ inl q | inr w ↦ inr (Walk-mono g (remove_edge g from to) v u less w) ],
          )
        ]
      ];
    }

prune_rounds_lem :
    (n : ℕ) (per_src : PerSource) (g : Graph)
    → edge_count g < n
    → IsForwarding per_src g
    → (per_src' : PerSource) × (g' : Graph) × (prune_rounds n per_src g ≡ pruned per_src' g')
      × IsPruned g per_src' g'
unfolding prune_rounds
prune_rounds_lem zero per_src g lt f = absurd (omega arith)
prune_rounds_lem (suc n) per_src g lt f = elim (find_one_cycle_lem g) [
  | inr (c, p, e, a) ↦ (
    per_src,
    g,
    rw (prune_rounds, e),
    record { acyclic = a; forwarding = f; kept = λ u v x. x; removed = λ u v x. inl x },
  )
  | inl (l, e, c) ↦
      let (from, to, q, on) = cycle-last_two g l c in
      let d = edge_count-remove_edge g from to on.0 in
      let (per_src', g', r, h) =
        prune_rounds_lem n (remove_next_hop per_src from to) (remove_edge g from to) (omega arith)
          (remove-IsForwarding per_src g from to f) in
      (per_src', g', rw (prune_rounds, e, q) r, round-IsPruned g g' per_src' from to on h)
]

-- Where the graph is that of the tables, `pruneGraphCycles` ends within one round for every edge. What
-- it leaves has no cycle, the graph is still that of the tables, no edge is new, and each edge that is
-- gone lay on a cycle of the given graph.
pub prune_graph_cycles_lem :
    (per_src : PerSource) (g : Graph)
    → IsForwarding per_src g
    → (per_src' : PerSource) × (g' : Graph) × (prune_graph_cycles per_src g ≡ pruned per_src' g')
      × IsPruned g per_src' g'
unfolding prune_graph_cycles
prune_graph_cycles_lem per_src g f = prune_rounds_lem (suc (edge_count g)) per_src g (omega arith) f
