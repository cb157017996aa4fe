-- ===== src/Topology/Peers/Symmetry.antt =====
-- Which relays internal/controller/topology/prune.go links.
use Prim.Native.String.{String}
use mathlib.Core.List.{Memᴰ}
use corelink.Prelude.{
  ℕ, suc, ◌≡◌, refl, sym, ap, subst, ◌⊎◌, ◌↔◌, false, List, [], inl, inr, ◌==◌, arith,
}
use corelink.Prelude.Assoc.{string_eq}
use corelink.Prelude.Sort.{sort_func, Mem-sort_func}
use corelink.Topology.Baseline.{PrunedEdge}
use corelink.Topology.Peers.{
  QualityMatrix, IngressIndex, ingresses_of, edge_order, in_order, collect_pairs, pair_edges, prune,
}
use corelink.Topology.Peers.Edges.{Joins, Along, pair_edges_sound, pair_edges_complete}
use corelink.Topology.Peers.Pairs.{
  in_order-Joins, Chosen, from_joined, collect_pairs_sound, collect_pairs_complete,
}

-- An edge from `a` to `b` among the edges.
abbrev pub Linked : List PrunedEdge → String → String → Type 0
Linked edges a b = (pe : PrunedEdge) × Memᴰ pe edges × (pe.src ≡ a) × (pe.dst ≡ b)

module _ (qm : QualityMatrix) (by_node : IngressIndex) where
  -- With positive limits `d` and `k`, `prune` keeps an edge from `a` to `b` exactly when one of the two is
  -- among the `d` best candidates of the other and `b` has an ingress; and an edge that is kept goes through
  -- an ingress of its end, with the measured quality or the default.
  pub prune_iff :
      (d k : ℕ) (transits : List String)
      → ((a b : String)
          → Linked (prune qm by_node (suc d) (suc k) transits) a b ↔ (
              (Chosen qm by_node (suc d) transits a b ⊎ Chosen qm by_node (suc d) transits b a)
              × ((e : String) × Memᴰ e (ingresses_of by_node b))))
        × ((pe : PrunedEdge)
            → Memᴰ pe (prune qm by_node (suc d) (suc k) transits)
            → Along qm by_node pe.src pe.dst pe)
  unfolding prune
  prune_iff d k transits =
      let ps = collect_pairs qm by_node (suc d) transits transits [] in
      let edges = pair_edges qm by_node (suc k) ps in
      let no_d : (suc d == 0) ≡ false = ground arith in
      let no_k : (suc k == 0) ≡ false = ground arith in
      let body : prune qm by_node (suc d) (suc k) transits ≡ sort_func edge_order edges =
        rw (prune, no_d, no_k) refl in
      let into : (pe : PrunedEdge)
          → Memᴰ pe (prune qm by_node (suc d) (suc k) transits)
          → Memᴰ pe edges =
        λ pe m. (Mem-sort_func edge_order pe edges).0 (subst (Memᴰ pe) body m) in
      let out : (pe : PrunedEdge)
          → Memᴰ pe edges
          → Memᴰ pe (prune qm by_node (suc d) (suc k) transits) =
        λ pe m. subst (Memᴰ pe) (sym body) ((Mem-sort_func edge_order pe edges).1 m) in
      (
        λ a b. (
          λ l.
              let (pe, m, s, t) = l in
              let (p, n, j, along) = pair_edges_sound qm by_node (suc k) ps pe (into pe m) in
              let joins : Joins p a b =
                subst (λ (z : String). Joins p z b) s
                  (subst (λ (z : String). Joins p pe.src z) t j) in
              (
                elim (collect_pairs_sound qm by_node (suc d) transits transits [] p n) [
                  | inl h ↦ from_joined qm by_node (suc d) transits p a b joins h
                  | inr h ↦ elim h [ ]
                ],
                (
                  pe.ingress,
                  subst (λ (z : String). Memᴰ pe.ingress (ingresses_of by_node z)) t along.through,
                ),
              ),
          λ h.
              let (c, (e, i)) = h in
              let joined : (x y : String)
                  → Joins (in_order x y) a b
                  → Chosen qm by_node (suc d) transits x y
                  → Linked (prune qm by_node (suc d) (suc k) transits) a b =
                λ x y j ch.
                  let (m, (cand, t, q)) = ch in
                  let p = in_order x y in
                  let there =
                    collect_pairs_complete qm by_node (suc d) transits transits [] p
                      (inl (x, cand, m, t, ap (in_order x) (sym q))) in
                  let (pe, l, s, r) = pair_edges_complete qm by_node k ps p a b e there j i in
                  (pe, out pe l, s, r) in
              elim c [
                | inl ch ↦ joined a b (in_order-Joins a b) ch
                | inr ch ↦
                    joined b a (elim (in_order-Joins b a) [ inl j ↦ inr j | inr j ↦ inl j ]) ch
              ],
        ),
        λ pe m.
            let (p, n, j, along) = pair_edges_sound qm by_node (suc k) ps pe (into pe m) in along,
      )
