-- ===== src/Topology/Baseline/Compress.antt =====
-- The compressed paths of internal/controller/topology/kpaths.go are chains of pruned edges.
use Prim.Native.String.{String}
use mathlib.Core.List.{Memᴰ}
use corelink.Prelude.{◌≡◌, ◌≢◌, refl, sym, ap, subst, ◌∙◌, false, List, [], ◌∷◌, inl, inr, arith}
use corelink.Prelude.Assoc.{◌=?◌, string_eq}
use corelink.Topology.Tables.{Hop}
use corelink.Topology.Vertex.{Vertex, core_v, ing_v, Parsed, parse_v}
use corelink.Topology.Vertex.Parsing.{IsPlain, parse_v-inverts}
use corelink.Topology.Shortest.{Edge}
use corelink.Topology.Baseline.{PrunedEdge, build_split_graph, compress_path, route_pair_eq}
use corelink.Topology.Baseline.Routes.{HasEdge, IsRoute}
use corelink.Topology.Baseline.SplitGraph.{build_split_graph_lem}

abbrev pub IsName : String → Type 0
IsName node = (node ≢ "") × IsPlain node

-- Names without separators, so that vertices can be read back.
abbrev pub AreNamed : List PrunedEdge → Type 0
AreNamed pes = (pe : PrunedEdge) → Memᴰ pe pes → IsName pe.src × IsName pe.dst × IsPlain pe.ingress

-- Each hop takes a pruned edge from the node that the hops before it lead to, and the last one leads to
-- `b`.
abbrev pub IsHopRoute : List PrunedEdge → String → List Hop → String → Type 0
IsHopRoute pes a [] b = a ≡ b
IsHopRoute pes a (h ∷ hops) b =
    ((pe : PrunedEdge) × Memᴰ pe pes × (pe.src ≡ a) × (pe.dst ≡ h.node) × (pe.ingress ≡ h.ingress))
    × IsHopRoute pes h.node hops b

core_v-inj : (a b : String) → IsName a → IsName b → core_v a ≡ core_v b → a ≡ b
core_v-inj a b n m e =
    ap (λ (p : Parsed). p.node)
      (sym (parse_v-inverts a "" n.0 n.1 tt).0 ∙ ap parse_v e ∙ (parse_v-inverts b "" m.0 m.1 tt).0)

ing_v-inj :
    (a b i j : String) → IsName a → IsName b → IsPlain i → IsPlain j → ing_v a i ≡ ing_v b j → a ≡ b
ing_v-inj a b i j n m p q e =
    ap (λ (r : Parsed). r.node)
      (sym (parse_v-inverts a i n.0 n.1 p).1 ∙ ap parse_v e ∙ (parse_v-inverts b j m.0 m.1 q).1)

core_v-ne-ing_v : (a b i : String) → IsName a → IsName b → IsPlain i → core_v a ≡ ing_v b i → ⊥
core_v-ne-ing_v a b i n m p e = cc (
    ap (λ (r : Parsed). r.is_core)
      (sym (parse_v-inverts a "" n.0 n.1 tt).0 ∙ ap parse_v e ∙ (parse_v-inverts b i m.0 m.1 p).1))

compress_path-core_v :
    (a : String) (path : List Vertex)
    → IsName a
    → compress_path (core_v a ∷ path) ≡ compress_path path
unfolding compress_path
compress_path-core_v a path n = rw ((parse_v-inverts a "" n.0 n.1 tt).0) (ground arith)

compress_path-ing_v :
    (a i : String) (path : List Vertex)
    → IsName a
    → IsPlain i
    → compress_path (ing_v a i ∷ path) ≡ record { node = a; ingress = i } ∷ compress_path path
unfolding compress_path
compress_path-ing_v a i path n p =
    let named : (a =? "") ≡ false = ground (arith, string_eq.beq_iff a "", n.0) in
    rw ((parse_v-inverts a i n.0 n.1 p).1, named) refl

compress_path-nil : compress_path [] ≡ []
unfolding compress_path
compress_path-nil = refl

module _ (pes : List PrunedEdge) (named : AreNamed pes) where
  -- The edge that leaves a core, and the one that leaves an entry.
  from_core :
      (a : String) (u : Vertex)
      → IsName a
      → HasEdge (build_split_graph pes) (core_v a) u
      → (pe : PrunedEdge) × Memᴰ pe pes × (pe.src ≡ a) × (u ≡ ing_v pe.dst pe.ingress)
  from_core a u n h =
      let (pe, m, c) = (build_split_graph_lem pes).0 (core_v a) h.e h.edge in
      let (s, d, i) = named pe m in
      elim c [
        | inl (v, e) ↦
            (pe, m, sym (core_v-inj a pe.src n s v), sym h.leads ∙ ap (λ (z : Edge). z.to) e)
        | inr (v, e) ↦ absurd (core_v-ne-ing_v a pe.dst pe.ingress n d i v)
      ]

  from_entry :
      (a i : String) (u : Vertex)
      → IsName a
      → IsPlain i
      → HasEdge (build_split_graph pes) (ing_v a i) u
      → u ≡ core_v a
  from_entry a i u n p h =
      let (pe, m, c) = (build_split_graph_lem pes).0 (ing_v a i) h.e h.edge in
      let (s, d, q) = named pe m in
      elim c [
        | inl (v, e) ↦ absurd (core_v-ne-ing_v pe.src a i s n p (sym v))
        | inr (v, e) ↦
            sym h.leads
            ∙ ap (λ (z : Edge). z.to) e
            ∙ ap core_v (sym (ing_v-inj a pe.dst i pe.ingress n d p q v))
      ]

  pub compress_path-IsHopRoute :
      (a b : String) (path : List Vertex)
      → IsName a
      → IsName b
      → IsRoute (build_split_graph pes) (core_v b) (core_v a ∷ path)
      → IsHopRoute pes a (compress_path (core_v a ∷ path)) b
  compress_path-IsHopRoute a b [] n m r =
      subst (λ (hops : List Hop). IsHopRoute pes a hops b)
        (sym (compress_path-core_v a [] n ∙ compress_path-nil)) (core_v-inj a b n m r)
  compress_path-IsHopRoute a b (u ∷ []) n m r =
      let (pe, k, s, e) = from_core a u n r.0 in
      let (x, d, i) = named pe k in absurd (core_v-ne-ing_v b pe.dst pe.ingress m d i (sym r.1 ∙ e))
  compress_path-IsHopRoute a b (u ∷ v ∷ path) n m r =
      let (pe, k, s, e) = from_core a u n r.0 in
      let (x, d, i) = named pe k in
      let next : v ≡ core_v pe.dst =
        from_entry pe.dst pe.ingress v d i
          (subst (λ (z : Vertex). HasEdge (build_split_graph pes) z v) e r.1.0) in
      let rest : IsRoute (build_split_graph pes) (core_v b) (core_v pe.dst ∷ path) =
        subst (λ (z : Vertex). IsRoute (build_split_graph pes) (core_v b) (z ∷ path)) next r.1.1 in
      let onward : IsHopRoute pes pe.dst (compress_path (core_v pe.dst ∷ path)) b =
        compress_path-IsHopRoute pe.dst b path d m rest in
      let shape : compress_path (core_v a ∷ u ∷ v ∷ path)
          ≡ record { node = pe.dst; ingress = pe.ingress } ∷ compress_path (core_v pe.dst ∷ path) =
        compress_path-core_v a (u ∷ v ∷ path) n
        ∙ ap (λ (z : Vertex). compress_path (z ∷ v ∷ path)) e
        ∙ compress_path-ing_v pe.dst pe.ingress (v ∷ path) d i
        ∙ ap
            (λ (z : Vertex).
              record { node = pe.dst; ingress = pe.ingress } ∷ compress_path (z ∷ path))
            next in
      subst (λ (hops : List Hop). IsHopRoute pes a hops b) (sym shape)
        ((pe, k, s, refl, refl), onward)
