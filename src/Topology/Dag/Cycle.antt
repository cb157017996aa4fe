-- ===== src/Topology/Dag/Cycle.antt =====
-- `findOneCycle` of internal/controller/topology/dag.go: what it finds is a cycle, and it finds one.
use Prim.Native.String.{String}
use mathlib.Core.List.{Memᴰ}
use corelink.Prelude.Members.{Mem-append_left, Mem-append_right}
use corelink.Prelude.{
  ℕ, suc, ◌≡◌, ◌≢◌, refl, sym, ap, subst, ◌∙◌, ◌⊎◌, inl, inr, List, [], ◌∷◌, length, if◌then◌else◌,
  none, some, arith,
}
use corelink.Prelude.Assoc.{lookup, ◌=?◌, string_eq}
use corelink.Topology.Dag.{
  Graph, Colors, Parents, color_of, succs, vertices, whiten, keys, Search, found, clear, exhausted,
  dfs_find_cycle, search_keys, find_one_cycle,
}
use corelink.Topology.Dag.Paths.{Edge, Walk, edge, onward, IsCycle, IsAcyclic}
use corelink.Topology.Dag.Colors.{Inv, string_cases, color_of-whiten, whites_le}
use corelink.Topology.Dag.Visits.{Good, Good-cons, and_then-Good, dfs-Good, Color-cases}

succs-cons :
    (g : Graph) (k u : String) (ss : List String)
    → succs ((k, ss) ∷ g) u ≡ (if k =? u then ss else succs g u)
unfolding succs lookup
succs-cons g k u ss = ground arith

succs-other :
    (g : Graph) (k u : String) (ss : List String) → k ≢ u → succs ((k, ss) ∷ g) u ≡ succs g u
succs-other g k u ss q = ground (arith, succs-cons g k u ss, string_eq.beq_iff k u)

no_edge : (u v : String) → ¬ Edge [] u v
unfolding succs lookup
no_edge u v e = elim e [ ]

pub edge_ends : (g : Graph) (u v : String) → Edge g u v → Memᴰ u (keys g) × Memᴰ v (vertices g)
edge_ends [] u v e = absurd (no_edge u v e)
edge_ends ((k, ss) ∷ g) u v e = elim (string_cases k u) [
  | inl q ↦
      let m : Memᴰ v ss =
        subst (λ l. Memᴰ v l)
          (succs-cons g k u ss
            ∙ ap (λ b. if b then ss else succs g u) ((string_eq.beq_iff k u).1 q))
          e in
      (Memᴰ.head (sym q), Memᴰ.tail (Mem-append_left v ss (vertices g) m))
  | inr q ↦
      let m : Edge g u v = subst (λ l. Memᴰ v l) (succs-other g k u ss q) e in
      let (a, b) = edge_ends g u v m in
      (Memᴰ.tail a, Memᴰ.tail (Mem-append_right v ss (vertices g) b))
]

pub keys-vertices : (g : Graph) (u : String) → Memᴰ u (keys g) → Memᴰ u (vertices g)
keys-vertices [] u h = h
keys-vertices ((k, ss) ∷ g) u (Memᴰ.head e) = Memᴰ.head e
keys-vertices ((k, ss) ∷ g) u (Memᴰ.tail m) =
    Memᴰ.tail (Mem-append_right u ss (vertices g) (keys-vertices g u m))

module _ (g : Graph) (size : ℕ) where
  keys-Good :
      (ks : List String) (c : Colors) (p : Parents)
      → Inv g size p c []
      → ((k : String) → Memᴰ k ks → Memᴰ k (vertices g))
      → Good g size c [] ks (search_keys size g ks c p)
  unfolding search_keys
  keys-Good [] c p h sub = (h, λ v m. elim m [ ], λ v x. x)
  keys-Good (k ∷ ks) c p h sub =
      let next = λ (c' : Colors) (p' : Parents) (i : Inv g size p' c' []).
        keys-Good ks c' p' i (λ x m. sub x (Memᴰ.tail m)) in
      elim (Color-cases (color_of c k)) [
        | inl e ↦
            rw (search_keys, e)
              (and_then-Good g size c c [] [] (k ∷ []) (k ∷ ks) (dfs_find_cycle size size g k c p)
                (search_keys size g ks)
                (dfs-Good g size size k c p [] (λ u v d. (edge_ends g u v d).1) (omega arith) h e tt
                  (sub k (Memᴰ.head refl)))
                (λ c' p' (i, b, kept).
                  Good-cons g size c c' k ks [] _ kept (b k (Memᴰ.head refl)) (next c' p' i)))
        | inr (inl e) ↦ elim (h.gray_on k e) [ ]
        | inr (inr e) ↦
            rw (search_keys, e) (Good-cons g size c c k ks [] _ (λ v x. x) e (next c p h))
      ]

start-Inv : (g : Graph) → Inv g (suc (length (vertices g))) [] (whiten (vertices g)) []
start-Inv g =
    let col = λ (v : String). color_of-whiten (vertices g) v in
    record {
      gray_on = λ v e. absurd (cc (col v, e));
      on_gray = λ v m. elim m [ ];
      linked = tt;
      closed = λ u v b d. absurd (cc (col u, b));
      acyclic = λ u b. absurd (cc (col u, b));
      room = omega (arith, whites_le (whiten (vertices g)) (vertices g));
    }

find_one_cycle-Good :
    (g : Graph)
    → Good g (suc (length (vertices g))) (whiten (vertices g)) [] (keys g) (find_one_cycle g)
unfolding find_one_cycle
find_one_cycle-Good g =
    keys-Good g (suc (length (vertices g))) (keys g) (whiten (vertices g)) [] (start-Inv g)
      (keys-vertices g)

walk_start : (g : Graph) (u w : String) → Walk g u w → Memᴰ u (keys g)
walk_start g u w (edge e) = (edge_ends g u w e).0
walk_start g u w (onward {v} r e) = walk_start g u v r

search_ends :
    (g : Graph) (r : Search) (size : ℕ) (b : Colors)
    → Good g size b [] (keys g) r
    → ((l : List String) × (r ≡ found (some l)) × IsCycle g l)
      ⊎ ((c : Colors) × (p : Parents) × (r ≡ clear c p) × IsAcyclic g)
search_ends g (found none) size b h = absurd h
search_ends g (found (some l)) size b h = inl (l, refl, h)
search_ends g exhausted size b h = absurd h
search_ends g (clear c p) size b (i, over, kept) =
    inr (c, p, refl, λ u w. i.acyclic u (over u (walk_start g u u w)) w)

-- `findOneCycle` ends within its fuel on every graph: either it returns a closed path of one edge or
-- more along the edges of the graph, or it returns none and no vertex of the graph reaches itself.
pub find_one_cycle_lem :
    (g : Graph)
    → ((l : List String) × (find_one_cycle g ≡ found (some l)) × IsCycle g l)
      ⊎ ((c : Colors) × (p : Parents) × (find_one_cycle g ≡ clear c p) × IsAcyclic g)
find_one_cycle_lem g =
    search_ends g (find_one_cycle g) (suc (length (vertices g))) (whiten (vertices g))
      (find_one_cycle-Good g)
