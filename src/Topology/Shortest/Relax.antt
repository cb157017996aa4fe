-- ===== src/Topology/Shortest/Relax.antt =====
-- The relaxation of the edges of a vertex in `dijkstra` of internal/controller/topology/kpaths.go.
use Prim.Native.String.{String}
use mathlib.Core.List.{Memᴰ}
use corelink.Prelude.{
  ℕ, ◌≡◌, refl, sym, subst, ◌∙◌, ◌+◌, ◌*◌, ◌%◌, ◌^◌, ◌≤◌, ◌<◌, true, List, [], ◌∷◌, length, some,
  inl, inr, Bool-cases, Option-cases, ltb, ltb→lt, ltb-false→le, arith,
}
use corelink.Prelude.Assoc.{lookup, string_eq}
use corelink.Topology.Prune.{contains}
use corelink.Topology.Vertex.{Vertex}
use corelink.Topology.Shortest.{
  Edge, Graph, edges_of, allowed, PqItem, Dijkstra, improve, relax_edge, relax_edges,
}
use corelink.Topology.Shortest.Invariant.{
  Inv, Kept, Kept-refl, Kept-trans, improve-Kept, improve-Inv,
}
use corelink.Topology.Shortest.Walks.{lookup-insert_self}

module _ (g : Graph) (removed_v : List Vertex) (removed_e : List String) (src : Vertex)
    (most : ℕ) where
  -- The end of the edge `e` is known at no more than `du` and its weight.
  abbrev pub Reaches : Dijkstra → Vertex → ℕ → Edge → Type 0
  Reaches s u du e =
      allowed g removed_v removed_e u e ≡ true
      → (d : ℕ) × (lookup e.to s.dist ≡ some d) × (d ≤ du + e.w)

  -- The item `cur` is of a visited vertex at its distance, and no sum with an edge wraps around.
  pub record Expands (cur : PqItem) (s : Dijkstra) : Type 0 where
    pub seen : contains cur.v s.visited ≡ true
    pub at_cur : lookup cur.v s.dist ≡ some cur.dist
    pub room :
        (e : Edge)
        → Memᴰ e (edges_of g cur.v)
        → (cur.dist + e.w ≤ length s.visited * most) × (cur.dist + e.w < 2 ^ 64)

  Expands-Kept :
      (cur : PqItem) (s t : Dijkstra)
      → Kept g removed_v removed_e src most s t
      → Expands cur s
      → Expands cur t
  Expands-Kept cur s t k x = record {
    seen = subst (λ (vs : List Vertex). contains cur.v vs ≡ true) (sym k.same) x.seen;
    at_cur = k.settled cur.v x.seen ∙ x.at_cur;
    room = λ e m.
        subst
          (λ (vs : List Vertex). (cur.dist + e.w ≤ length vs * most) × (cur.dist + e.w < 2 ^ 64))
          (sym k.same) (x.room e m);
  }

  abbrev pub Relaxed : Dijkstra → Dijkstra → Type 0
  Relaxed s t = Kept g removed_v removed_e src most s t × Inv g removed_v removed_e src most t

  improved :
      (cur : PqItem) (e : Edge) (s : Dijkstra)
      → Inv g removed_v removed_e src most s
      → Expands cur s
      → Memᴰ e (edges_of g cur.v)
      → allowed g removed_v removed_e cur.v e ≡ true
      → ((old : ℕ) → lookup e.to s.dist ≡ some old → cur.dist + e.w < old)
      → Relaxed s (improve cur.v e.to (cur.dist + e.w) s)
        × Reaches (improve cur.v e.to (cur.dist + e.w) s) cur.v cur.dist e
  unfolding improve
  improved cur e s inv x m free better =
      let (bound, small) = x.room e m in
      (
        (
          improve-Kept g removed_v removed_e src most s inv cur.v cur.dist e x.seen x.at_cur m free
              bound better,
          improve-Inv g removed_v removed_e src most s inv cur.v cur.dist e x.seen x.at_cur m free
              bound better,
        ),
        λ f. (cur.dist + e.w, lookup-insert_self e.to (cur.dist + e.w) s.dist, omega arith),
      )

  relax_edge-Relaxed :
      (cur : PqItem) (e : Edge) (s : Dijkstra)
      → Inv g removed_v removed_e src most s
      → Expands cur s
      → Memᴰ e (edges_of g cur.v)
      → Relaxed s (relax_edge g removed_v removed_e cur e s)
        × Reaches (relax_edge g removed_v removed_e cur e s) cur.v cur.dist e
  unfolding relax_edge
  relax_edge-Relaxed cur e s inv x m =
      let nd : (cur.dist + e.w) % 2 ^ 64 ≡ cur.dist + e.w = omega (arith, (x.room e m).1) in
      let new = improve cur.v e.to (cur.dist + e.w) s in
      let goal = λ (t : Dijkstra). Relaxed s t × Reaches t cur.v cur.dist e in
      let kept : Relaxed s s = (Kept-refl g removed_v removed_e src most s, inv) in
      elim (Bool-cases (allowed g removed_v removed_e cur.v e)) [
        | inl free ↦ elim (Option-cases (lookup e.to s.dist)) [
          | inl h ↦
              let step : relax_edge g removed_v removed_e cur e s ≡ new =
                rw (relax_edge, free, h, nd) refl in
              subst goal (sym step) (improved cur e s inv x m free (λ old q. cc))
          | inr (old, h) ↦ elim (Bool-cases (ltb (cur.dist + e.w) old)) [
            | inl lt ↦
                let step : relax_edge g removed_v removed_e cur e s ≡ new =
                  rw (relax_edge, free, h, nd, lt) refl in
                subst goal (sym step) (
                  improved cur e s inv x m free
                    (λ old' q. ground (arith, h, q, ltb→lt (cur.dist + e.w) old lt)))
            | inr ge ↦
                let step : relax_edge g removed_v removed_e cur e s ≡ s =
                  rw (relax_edge, free, h, nd, ge) refl in
                subst goal (sym step) (kept, λ f. (old, h, ltb-false→le (cur.dist + e.w) old ge))
          ]
        ]
        | inr shut ↦
            let step : relax_edge g removed_v removed_e cur e s ≡ s = rw (relax_edge, shut) refl in
            subst goal (sym step) (kept, λ free. cc)
      ]

  pub relax_edges-Relaxed :
      (cur : PqItem) (es : List Edge) (s : Dijkstra)
      → Inv g removed_v removed_e src most s
      → Expands cur s
      → ((e : Edge) → Memᴰ e es → Memᴰ e (edges_of g cur.v))
      → Relaxed s (relax_edges g removed_v removed_e cur es s)
        × ((e : Edge)
            → Memᴰ e es
            → Reaches (relax_edges g removed_v removed_e cur es s) cur.v cur.dist e)
  unfolding relax_edges
  relax_edges-Relaxed cur [] s inv x sub =
      ((Kept-refl g removed_v removed_e src most s, inv), λ e m. elim m [ ])
  relax_edges-Relaxed cur (e ∷ es) s inv x sub =
      let t = relax_edge g removed_v removed_e cur e s in
      let (first, reach) = relax_edge-Relaxed cur e s inv x (sub e (Memᴰ.head refl)) in
      let (rest, reaches) =
        relax_edges-Relaxed cur es t first.1 (Expands-Kept cur s t first.0 x)
          (λ e' m. sub e' (Memᴰ.tail m)) in
      (
        (
          Kept-trans g removed_v removed_e src most s t (relax_edges g removed_v removed_e cur es t)
              first.0 rest.0,
          rest.1,
        ),
        λ e' m. elim m [
          | Memᴰ.head q ↦ λ free.
              let (d, h, l) =
                reach (subst (λ (z : Edge). allowed g removed_v removed_e cur.v z ≡ true) q free) in
              let (d', h', l') = rest.0.lower e.to d h in
              subst
                (λ (z : Edge).
                  (n : ℕ) × (lookup z.to (relax_edges g removed_v removed_e cur es t).dist ≡ some n)
                  × (n ≤ cur.dist + z.w))
                (sym q) (d', h', omega (arith, l, l'))
          | Memᴰ.tail r ↦ reaches e' r
        ],
      )
