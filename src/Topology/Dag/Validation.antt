-- ===== src/Topology/Dag/Validation.antt =====
-- `validateDAG` of internal/controller/topology/dag.go: its search is that of `findOneCycle` without
-- the parents.
use Prim.Native.String.{String}
use corelink.Prelude.{
  ℕ, zero, suc, ◌≡◌, refl, sym, ap, ◌∙◌, ◌⊎◌, inl, inr, List, [], ◌∷◌, length, some,
}
use corelink.Prelude.Assoc.{insert, string_eq}
use corelink.Topology.Dag.{
  Graph, gray, black, Colors, Parents, color_of, succs, vertices, whiten, keys, Search, found,
  clear, exhausted, and_then, scan_succs, dfs_find_cycle, search_keys, find_one_cycle, Visit,
  back_edge, done, no_fuel, then_visit, visit_succs, dfs_visit, visit_keys, Verdict, valid, invalid,
  undecided, cycle_of, validate_dag,
}
use corelink.Topology.Dag.Paths.{IsCycle, IsAcyclic, IsCycle-Walk}
use corelink.Topology.Dag.Visits.{Color-cases}
use corelink.Topology.Dag.Cycle.{find_one_cycle_lem}

abbrev forget : Search → Visit
forget (found path) = back_edge
forget (clear c p) = done c
forget exhausted = no_fuel

forget-and_then :
    (r : Search) (k : Colors → Parents → Search) (k' : Colors → Visit)
    → ((c : Colors) (p : Parents) → forget (k c p) ≡ k' c)
    → forget (and_then r k) ≡ then_visit (forget r) k'
forget-and_then (found path) k k' h = refl
forget-and_then (clear c p) k k' h = h c p
forget-and_then exhausted k k' h = refl

forget-scan :
    (size : ℕ) (visit : String → Colors → Parents → Search) (visit' : String → Colors → Visit)
    → ((s : String) (c : Colors) (p : Parents) → forget (visit s c p) ≡ visit' s c)
    → (node : String) (ss : List String) (c : Colors) (p : Parents)
    → forget (scan_succs size visit node ss c p) ≡ visit_succs visit' ss c
unfolding scan_succs visit_succs
forget-scan size visit visit' h node [] c p = refl
forget-scan size visit visit' h node (s ∷ ss) c p = elim (Color-cases (color_of c s)) [
  | inl e ↦
      rw (scan_succs, visit_succs, e)
        (forget-and_then _ _ (visit_succs visit' ss)
            (λ c' p'. forget-scan size visit visit' h node ss c' p')
          ∙ ap (λ r. then_visit r (visit_succs visit' ss)) (h s c (insert s node p)))
  | inr (inl e) ↦ rw (scan_succs, visit_succs, e)
  | inr (inr e) ↦ rw (scan_succs, visit_succs, e) (forget-scan size visit visit' h node ss c p)
]

forget-dfs :
    (n size : ℕ) (g : Graph) (node : String) (c : Colors) (p : Parents)
    → forget (dfs_find_cycle n size g node c p) ≡ dfs_visit n g node c
unfolding dfs_find_cycle dfs_visit
forget-dfs zero size g node c p = refl
forget-dfs (suc n) size g node c p =
    forget-and_then _ _ (λ c'. done (insert node black c')) (λ c' p'. refl)
    ∙ ap (λ r. then_visit r (λ c'. done (insert node black c')))
        (forget-scan size (dfs_find_cycle n size g) (dfs_visit n g) (forget-dfs n size g) node
          (succs g node) (insert node gray c) p)

forget-keys :
    (size : ℕ) (g : Graph) (ks : List String) (c : Colors) (p : Parents)
    → forget (search_keys size g ks c p) ≡ visit_keys size g ks c
unfolding search_keys visit_keys
forget-keys size g [] c p = refl
forget-keys size g (k ∷ ks) c p = elim (Color-cases (color_of c k)) [
  | inl e ↦
      rw (search_keys, visit_keys, e)
        (forget-and_then _ _ (visit_keys size g ks) (forget-keys size g ks)
          ∙ ap (λ r. then_visit r (visit_keys size g ks)) (forget-dfs size size g k c p))
  | inr (inl e) ↦ rw (search_keys, visit_keys, e) (forget-keys size g ks c p)
  | inr (inr e) ↦ rw (search_keys, visit_keys, e) (forget-keys size g ks c p)
]

abbrev verdict : Graph → Visit → Verdict
verdict g back_edge = invalid (cycle_of (find_one_cycle g))
verdict g (done color) = valid
verdict g no_fuel = undecided

validate_dag-search : (g : Graph) → validate_dag g ≡ verdict g (forget (find_one_cycle g))
unfolding validate_dag find_one_cycle
validate_dag-search g =
    ap (verdict g)
      (sym (forget-keys (suc (length (vertices g))) g (keys g) (whiten (vertices g)) []))

-- `validateDAG` decides within its fuel whether a graph has no cycle: it either accepts, and then no
-- vertex of the graph reaches itself, or its error names a cycle of the graph.
pub validate_dag_lem :
    (g : Graph)
    → ((validate_dag g ≡ valid) × IsAcyclic g)
      ⊎ ((l : List String) × (validate_dag g ≡ invalid (some l)) × IsCycle g l × (¬ IsAcyclic g))
validate_dag_lem g = elim (find_one_cycle_lem g) [
  | inl (l, e, c) ↦ inr (
    l,
    validate_dag-search g ∙ ap (λ r. verdict g (forget r)) e ∙ ap (λ r. invalid (cycle_of r)) e,
    c,
    λ h. h c.at (IsCycle-Walk g l c),
  )
  | inr (c, p, e, h) ↦ inl (validate_dag-search g ∙ ap (λ r. verdict g (forget r)) e, h)
]
