-- ===== src/Topology/Peers/Edges.antt =====
-- The edges that internal/controller/topology/prune.go keeps for the pairs of relays.
use Prim.Native.String.{String}
use mathlib.Core.List.{Memᴰ}
use corelink.Prelude.{
  ℕ, suc, ◌≡◌, refl, sym, ap, subst, ◌∙◌, ◌⊎◌, List, [], ◌∷◌, ◌++◌, take, inl, inr,
}
use corelink.Prelude.Assoc.{string_eq}
use corelink.Prelude.Members.{Mem-append, Mem-append_left, Mem-append_right, Mem-take}
use corelink.Prelude.Sort.{sort_func, Mem-sort_func}
use corelink.Topology.Baseline.{PrunedEdge}
use corelink.Topology.Peers.{
  QualityMatrix, IngressIndex, quality_of, ingresses_of, or_default, ingress_lt, Pair,
  ingress_edges, top_k_ingress_edges, pair_edges,
}

some_first :
    (n : ℕ) (xs : List PrunedEdge) (x : PrunedEdge)
    → Memᴰ x xs
    → (y : PrunedEdge) × Memᴰ y (take (suc n) xs)
some_first n [] x m = elim m [ ]
some_first n (y ∷ xs) x m = (y, Memᴰ.head refl)

-- The pair, in either order.
abbrev pub Joins : Pair → String → String → Type 0
Joins p a b = ((p.x ≡ a) × (p.y ≡ b)) ⊎ ((p.x ≡ b) × (p.y ≡ a))

module _ (qm : QualityMatrix) (by_node : IngressIndex) where
  -- The edge is one from `a` to `b` through an ingress of `b`, with its quality or the default.
  pub record Along (a b : String) (pe : PrunedEdge) : Type 0 where
    pub from : pe.src ≡ a
    pub to : pe.dst ≡ b
    pub through : Memᴰ pe.ingress (ingresses_of by_node b)
    pub weighs : pe.w ≡ or_default (quality_of qm a b pe.ingress)

  ingress_edges-Along :
      (a b : String) (es : List String) (pe : PrunedEdge)
      → Memᴰ pe (ingress_edges qm by_node a b es)
      → (pe.src ≡ a)
        × (pe.dst ≡ b)
        × Memᴰ pe.ingress es
        × (pe.w ≡ or_default (quality_of qm a b pe.ingress))
  unfolding ingress_edges
  ingress_edges-Along a b [] pe m = elim m [ ]
  ingress_edges-Along a b (e ∷ es) pe (Memᴰ.head q) = (
    ap (λ (z : PrunedEdge). z.src) q,
    ap (λ (z : PrunedEdge). z.dst) q,
    Memᴰ.head (ap (λ (z : PrunedEdge). z.ingress) q),
    ap (λ (z : PrunedEdge). z.w) q
        ∙ ap (λ (z : String). or_default (quality_of qm a b z))
            (sym (ap (λ (z : PrunedEdge). z.ingress) q)),
  )
  ingress_edges-Along a b (e ∷ es) pe (Memᴰ.tail k) =
      let (s, d, i, w) = ingress_edges-Along a b es pe k in (s, d, Memᴰ.tail i, w)

  pub top_k-Along :
      (k : ℕ) (a b : String) (pe : PrunedEdge)
      → Memᴰ pe (top_k_ingress_edges qm by_node k a b)
      → Along a b pe
  unfolding top_k_ingress_edges
  top_k-Along k a b pe m =
      let edges = ingress_edges qm by_node a b (ingresses_of by_node b) in
      let (s, d, i, w) =
        ingress_edges-Along a b (ingresses_of by_node b) pe
          ((Mem-sort_func ingress_lt pe edges).0 (Mem-take pe k (sort_func ingress_lt edges) m)) in
      record { from = s; to = d; through = i; weighs = w }

  top_k-some :
      (k : ℕ) (a b e : String)
      → Memᴰ e (ingresses_of by_node b)
      → (pe : PrunedEdge) × Memᴰ pe (top_k_ingress_edges qm by_node (suc k) a b)
  unfolding top_k_ingress_edges ingress_edges
  top_k-some k a b e m =
      let edges = ingress_edges qm by_node a b (ingresses_of by_node b) in
      let (pe, l) = there (ingresses_of by_node b) m in
      some_first k (sort_func ingress_lt edges) pe ((Mem-sort_func ingress_lt pe edges).1 l)
    where
      there :
          (es : List String)
          → Memᴰ e es
          → (pe : PrunedEdge) × Memᴰ pe (ingress_edges qm by_node a b es)
      there [] n = elim n [ ]
      there (i ∷ es) n = (_, Memᴰ.head refl)

  pub pair_edges_sound :
      (k : ℕ) (ps : List Pair) (pe : PrunedEdge)
      → Memᴰ pe (pair_edges qm by_node k ps)
      → (p : Pair) × Memᴰ p ps × Joins p pe.src pe.dst × Along pe.src pe.dst pe
  unfolding pair_edges
  pair_edges_sound k [] pe m = elim m [ ]
  pair_edges_sound k (p ∷ ps) pe m =
      let there = top_k_ingress_edges qm by_node k p.x p.y in
      let back = top_k_ingress_edges qm by_node k p.y p.x in
      elim (Mem-append pe there (back ++ pair_edges qm by_node k ps) m) [
        | inl h ↦
            let a = top_k-Along k p.x p.y pe h in
            (p, Memᴰ.head refl, inl (sym a.from, sym a.to), moved p.x p.y pe a)
        | inr h ↦ elim (Mem-append pe back (pair_edges qm by_node k ps) h) [
          | inl l ↦
              let a = top_k-Along k p.y p.x pe l in
              (p, Memᴰ.head refl, inr (sym a.to, sym a.from), moved p.y p.x pe a)
          | inr l ↦ let (q, n, j, a) = pair_edges_sound k ps pe l in (q, Memᴰ.tail n, j, a)
        ]
      ]
    where
      moved : (a b : String) (e : PrunedEdge) → Along a b e → Along e.src e.dst e
      moved a b e h =
          subst (λ (z : String). Along e.src z e) (sym h.to)
            (subst (λ (z : String). Along z b e) (sym h.from) h)

  pub pair_edges_complete :
      (k : ℕ) (ps : List Pair) (p : Pair) (a b e : String)
      → Memᴰ p ps
      → Joins p a b
      → Memᴰ e (ingresses_of by_node b)
      → (pe : PrunedEdge) × Memᴰ pe (pair_edges qm by_node (suc k) ps) × (pe.src ≡ a) × (pe.dst ≡ b)
  unfolding pair_edges
  pair_edges_complete k [] p a b e m j i = elim m [ ]
  pair_edges_complete k (q ∷ ps) p a b e (Memᴰ.tail m) j i =
      let (pe, l, s, d) = pair_edges_complete k ps p a b e m j i in
      (
        pe,
        Mem-append_right pe (top_k_ingress_edges qm by_node (suc k) q.x q.y)
            (top_k_ingress_edges qm by_node (suc k) q.y q.x ++ pair_edges qm by_node (suc k) ps)
            (Mem-append_right pe (top_k_ingress_edges qm by_node (suc k) q.y q.x)
              (pair_edges qm by_node (suc k) ps) l),
        s,
        d,
      )
  pair_edges_complete k (q ∷ ps) p a b e (Memᴰ.head z) j i =
      let there = top_k_ingress_edges qm by_node (suc k) q.x q.y in
      let back = top_k_ingress_edges qm by_node (suc k) q.y q.x in
      let rest = pair_edges qm by_node (suc k) ps in
      let (pe, l) = top_k-some k a b e i in
      let along = top_k-Along (suc k) a b pe l in
      elim (subst (λ (r : Pair). Joins r a b) z j) [
        | inl (x, y) ↦ (
          pe,
          Mem-append_left pe there (back ++ rest) (
              subst (λ (r : String). Memᴰ pe (top_k_ingress_edges qm by_node (suc k) r q.y)) (sym x)
                (subst (λ (r : String). Memᴰ pe (top_k_ingress_edges qm by_node (suc k) a r))
                  (sym y) l)),
          along.from,
          along.to,
        )
        | inr (x, y) ↦ (
          pe,
          Mem-append_right pe there (back ++ rest) (
              Mem-append_left pe back rest (
                subst (λ (r : String). Memᴰ pe (top_k_ingress_edges qm by_node (suc k) r q.x))
                  (sym y)
                  (subst (λ (r : String). Memᴰ pe (top_k_ingress_edges qm by_node (suc k) a r))
                    (sym x) l))),
          along.from,
          along.to,
        )
      ]
