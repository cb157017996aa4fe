-- ===== src/Topology/Shortest/Correct.antt =====
-- What `dijkstra` of internal/controller/topology/kpaths.go returns.
use Prim.Native.String.{String}
use Prim.{¬◌}
use mathlib.Core.List.{Memᴰ}
use corelink.Prelude.{
  ℕ, zero, suc, ◌≡◌, ◌≢◌, refl, sym, ap, subst, ◌∙◌, ◌*◌, ◌^◌, ◌≤◌, ◌<◌, ◌⊎◌, true, false, List, [],
  ◌∷◌, length, Option, some, inl, inr, Bool-cases, arith,
}
use corelink.Prelude.Assoc.{lookup, ◌=?◌, string_eq}
use corelink.Topology.Dag.Colors.{string_cases}
use corelink.Topology.Prune.{contains}
use corelink.Topology.Vertex.{Vertex}
use corelink.Topology.Shortest.{
  Edge, Graph, edges_of, allowed, max_w, PqItem, Dijkstra, start_at, backtrack, reverse,
  count_edges, path_to, dijkstra,
}
use corelink.Topology.Shortest.Walks.{Walk, origin, extend, Walk-removed, Walk-origin}
use corelink.Topology.Shortest.Invariant.{Inv, IsChained, NoRepeat}
use corelink.Topology.Shortest.Rounds.{Ready, frontier, contains-cons, contains-cons_self}
use corelink.Topology.Shortest.Fuel.{unvisited-nil}
use corelink.Topology.Shortest.Search.{Stopped, arrived, drained, search_lem}

contains-tail :
    (v w : String) (vs : List String) → w ≢ v → contains v (w ∷ vs) ≡ true → contains v vs ≡ true
contains-tail v w vs n h = ground (arith, string_eq.beq_iff w v, h)

module _ (g : Graph) (removed_v : List Vertex) (removed_e : List String) (src dst : Vertex) where
  -- The path is a walk of the weight, and no walk weighs less.
  abbrev pub IsShortest : List Vertex → ℕ → Type 0
  IsShortest rev w =
      Walk g removed_v removed_e src dst rev w
      × NoRepeat rev
      × ((vs : List Vertex) (d : ℕ) → Walk g removed_v removed_e src dst vs d → w ≤ d)

  abbrev pub NoWalk : Type 0
  NoWalk = (vs : List Vertex) (d : ℕ) → ¬ Walk g removed_v removed_e src dst vs d

module _ (g : Graph) (removed_v : List Vertex) (removed_e : List String) (src dst : Vertex)
    (most : ℕ) where
  -- The predecessors of a visited vertex give a walk of its distance.
  backtrack_lem :
      (s : Dijkstra)
      → Inv g removed_v removed_e src most s
      → (vs : List Vertex) (fuel : ℕ) (v : Vertex) (d : ℕ) → IsChained src s.prev vs
      → NoRepeat vs
      → contains v vs ≡ true
      → lookup v s.dist ≡ some d
      → length vs ≤ fuel
      → (rev : List Vertex) × (backtrack fuel s.prev src v ≡ some rev)
        × Walk g removed_v removed_e src v rev d
        × ((x : Vertex) → contains x rev ≡ true → contains x vs ≡ true)
        × NoRepeat rev
  unfolding backtrack
  backtrack_lem s inv [] fuel v d c nr m h l = cc
  backtrack_lem s inv (w ∷ vs) zero v d c nr m h l = absurd (omega (arith, l))
  backtrack_lem s inv (w ∷ vs) (suc fuel) v d c nr m h l = elim (string_cases w v) [
    | inr n ↦
        let (rev, e, p, sub, simple) =
          backtrack_lem s inv vs (suc fuel) v d c.1 nr.1 (contains-tail v w vs n m) h
            (omega (arith, l)) in
        (rev, e, p, λ x k. contains-cons x w vs (sub x k), simple)
    | inl q ↦ elim (string_cases v src) [
      | inl here ↦
          let at_v : lookup v s.dist ≡ some 0 =
            ap (λ (x : Vertex). lookup x s.dist) here ∙ inv.at_origin in
          let zero_d : d ≡ 0 = cc (h, at_v) in
          let (us, p) = inv.sound src 0 inv.at_origin in
          (
            v ∷ [],
            rw (backtrack, (string_eq.beq_iff v src).1 here) refl,
            origin (Walk-origin g removed_v removed_e src p) here refl zero_d,
            λ x k. ground (
              arith,
              ap (λ (z : Vertex). contains x (z ∷ vs)) q,
              k,
              string_eq.beq_iff v x,
              string_eq.beq_iff w x,
              q,
            ),
            (refl, tt),
          )
      | inr far ↦
          let (u, at_u, older) = c.0 (λ e. far (sym q ∙ e)) in
          let prev_v : lookup v s.prev ≡ some u =
            ap (λ (x : Vertex). lookup x s.prev) (sym q) ∙ at_u in
          let k = inv.linked v d h far in
          let same : k.u ≡ u = cc (k.prev_of, prev_v) in
          let at : lookup u s.dist ≡ some k.du =
            ap (λ (x : Vertex). lookup x s.dist) (sym same) ∙ k.dist_of in
          let (rev, e, p, sub, simple) =
            backtrack_lem s inv vs fuel u k.du c.1 nr.1 older at (omega (arith, l)) in
          let new : contains v vs ≡ false = subst (λ (x : Vertex). contains x vs ≡ false) q nr.0 in
          let no : (v =? src) ≡ false = ground (arith, string_eq.beq_iff v src, far) in
          (
            v ∷ rev,
            rw (backtrack, no, prev_v, e) refl,
            extend k.e p (subst (λ (x : Vertex). Memᴰ k.e (edges_of g x)) same k.edge)
                (subst (λ (x : Vertex). allowed g removed_v removed_e x k.e ≡ true) same k.free)
                k.leads refl k.weight,
            λ x i. elim (string_cases v x) [
              | inl here ↦
                  subst (λ (z : Vertex). contains z (w ∷ vs) ≡ true) (q ∙ here)
                    (contains-cons_self w vs)
              | inr n ↦ contains-cons x w vs (sub x (contains-tail x v rev n i))
            ],
            (
              elim (Bool-cases (contains v rev)) [ inl i ↦ absurd (cc (sub v i, new)) | inr i ↦ i ],
              simple,
            ),
          )
    ]
  ]

  abbrev pub Answers : Option (List Vertex × ℕ) → Type 0
  Answers o =
      ((rev : List Vertex) × (w : ℕ) × (o ≡ some (reverse rev, w))
        × IsShortest g removed_v removed_e src dst rev w)
      ⊎ ((o ≡ some ([], max_w)) × NoWalk g removed_v removed_e src dst)

  visited-Answers :
      (s : Dijkstra)
      → Inv g removed_v removed_e src most s
      → contains dst s.visited ≡ true
      → Answers (path_to src dst s)
  unfolding path_to
  visited-Answers s inv m =
      let (d, h, least) = inv.final dst m in
      let (rev, e, p, sub, simple) =
        backtrack_lem s inv s.visited (length s.visited) dst d inv.chained inv.distinct m h
          (omega arith) in
      inl (rev, d, rw (path_to, m, e, h) refl, (p, simple, least))

  path_to-Answers :
      (s : Dijkstra) → Stopped g removed_v removed_e src dst most s → Answers (path_to src dst s)
  unfolding path_to
  path_to-Answers s (arrived inv m) = visited-Answers s inv m
  path_to-Answers s (drained r e) = elim (Bool-cases (contains dst s.visited)) [
    | inl m ↦ visited-Answers s r.inv m
    | inr n ↦ inr (
      rw (path_to, n) refl,
      λ vs d p. elim (frontier g removed_v removed_e src most s r p) [
        | inl (d0, h, c, l) ↦ absurd (cc (c, n))
        | inr (it, m, l) ↦ elim (subst (λ (q : List PqItem). Memᴰ it q) e m) [ ]
      ],
    )
  ]

  start_dist : (v : Vertex) (d : ℕ) → lookup v (start_at src).dist ≡ some d → (v ≡ src) × (d ≡ 0)
  unfolding lookup
  start_dist v d h = elim (Bool-cases (src =? v)) [
    | inl q ↦ (sym ((string_eq.beq_iff src v).0 q), ground (arith, q, h))
    | inr q ↦ absurd (ground (arith, q, h))
  ]

  start_origin : lookup src (start_at src).dist ≡ some 0
  unfolding lookup
  start_origin = ground (arith, string_eq.beq_iff src src)

  start-Ready : contains src removed_v ≡ false → Ready g removed_v removed_e src most (start_at src)
  start-Ready free = record {
    inv = record {
      sound = λ v d h. (v ∷ [], origin free (start_dist v d h).0 refl (start_dist v d h).1);
      final = λ v h. cc;
      pending = λ v d h n. let (here, z) = start_dist v d h in Memᴰ.head (cc (here, z));
      above = λ it m. elim m [
        | Memᴰ.head q ↦
            (0, ap (λ (i : PqItem). lookup i.v (start_at src).dist) q ∙ start_origin, omega arith)
        | Memᴰ.tail r ↦ elim r [ ]
      ];
      at_origin = start_origin;
      linked = λ v d h n. absurd (n (start_dist v d h).0);
      chained = tt;
      distinct = tt;
      small = λ it m. elim m [
        | Memᴰ.head q ↦ omega (arith, ap (λ (i : PqItem). i.dist) q)
        | Memᴰ.tail r ↦ elim r [ ]
      ];
    };
    closed = λ x e dx h. cc;
  }

  -- When no edge weighs more than `most`, and the weights of as many edges as the graph has cannot pass 64
  -- bits, `dijkstra` returns a path that avoids what is removed and visits no vertex twice, with its weight,
  -- and no other such path weighs less; or it returns no path and the largest weight, and there is no such path.
  pub dijkstra-IsShortest :
      ((u : Vertex) (e : Edge) → Memᴰ e (edges_of g u) → e.w ≤ most)
      → suc (count_edges g.adj) * most < 2 ^ 64
      → ((rev : List Vertex) × (w : ℕ) × (dijkstra g src dst removed_v removed_e
            ≡ some (reverse rev, w))
          × IsShortest g removed_v removed_e src dst rev w)
        ⊎ ((dijkstra g src dst removed_v removed_e ≡ some ([], max_w))
            × NoWalk g removed_v removed_e src dst)
  unfolding dijkstra
  dijkstra-IsShortest light fits = elim (Bool-cases (contains src removed_v)) [
    | inl shut ↦ inr (
      rw (dijkstra, shut) refl,
      λ vs d p. absurd (cc (Walk-origin g removed_v removed_e src p, shut)),
    )
    | inr free ↦ elim (Bool-cases (contains dst removed_v)) [
      | inl shut ↦ inr (
        rw (dijkstra, free, shut) refl,
        λ vs d p. absurd (cc (Walk-removed g removed_v removed_e src p, shut)),
      )
      | inr open_dst ↦
          let none_seen = unvisited-nil g.adj in
          let (s, e, stop) =
            search_lem g removed_v removed_e src dst most light (suc (count_edges g.adj)) fits
              (suc (suc (count_edges g.adj))) (start_at src) (start-Ready free)
              (omega (arith, none_seen)) (omega (arith, none_seen)) in
          let returned : dijkstra g src dst removed_v removed_e ≡ path_to src dst s =
            rw (dijkstra, free, open_dst, e) refl in
          subst Answers (sym returned) (path_to-Answers s stop)
    ]
  ]
