-- ===== src/Topology/Baseline/HopRoutes.antt =====
-- The baseline routes of internal/controller/topology/kpaths.go run along pruned edges.
use Prim.Native.String.{String}
use mathlib.Core.List.{Memᴰ}
use corelink.Prelude.{
  ℕ, suc, ◌≡◌, ◌≢◌, refl, sym, ap, subst, ◌∙◌, ◌*◌, ◌^◌, ◌≤◌, ◌<◌, ◌⊎◌, List, [], ◌∷◌, map, length,
  some, inl, inr, Bool-cases, arith,
}
use corelink.Prelude.Assoc.{lookup, lookup-insert, ◌=?◌, string_eq}
use corelink.Prelude.Outcome.{ok}
use corelink.Topology.Tables.{Hop, RoutePair, Baseline}
use corelink.Topology.Vertex.{Vertex, core_v}
use corelink.Topology.Shortest.{Edge, edges_of, count_edges}
use corelink.Topology.Baseline.{
  PrunedEdge, build_split_graph, compress_path, route_pair_eq, with_paths, routes_to, routes_from,
  baseline_routes,
}
use corelink.Topology.Baseline.Routes.{IsRoute}
use corelink.Topology.Baseline.Spurs.{Paths}
use corelink.Topology.Baseline.KShortest.{k_shortest-Paths}
use corelink.Topology.Baseline.Compress.{IsName, AreNamed, IsHopRoute, compress_path-IsHopRoute}

-- The routes of each pair are at most `k`, and lead from its source to its other end.
abbrev pub IsBaseline : List PrunedEdge → ℕ → Baseline → Type 0
IsBaseline pes k out =
    (rp : RoutePair) (routes : List (List Hop))
    → lookup rp out ≡ some routes
    → (rp.src ≢ rp.dst)
      × (length routes ≤ k)
      × ((hops : List Hop) → Memᴰ hops routes → IsHopRoute pes rp.src hops rp.dst)

module _ (pes : List PrunedEdge) (named : AreNamed pes) where
  IsHopRoute-map :
      (a b : String) (paths : List (List Vertex))
      → IsName a
      → IsName b
      → Paths (build_split_graph pes) (core_v a) (core_v b) paths
      → (hops : List Hop) → Memᴰ hops (map compress_path paths)
      → IsHopRoute pes a hops b
  IsHopRoute-map a b [] n m all hops k = elim k [ ]
  IsHopRoute-map a b ([] ∷ paths) n m all hops k = elim ((all [] (Memᴰ.head refl)).starts) [ ]
  IsHopRoute-map a b ((v ∷ path) ∷ paths) n m all hops (Memᴰ.head q) =
      let p = all (v ∷ path) (Memᴰ.head refl) in
      let at : v ≡ core_v a = p.starts in
      let r : IsRoute (build_split_graph pes) (core_v b) (core_v a ∷ path) =
        subst (λ (z : Vertex). IsRoute (build_split_graph pes) (core_v b) (z ∷ path)) at p.route in
      subst (λ (h : List Hop). IsHopRoute pes a h b)
        (sym (q ∙ ap (λ (z : Vertex). compress_path (z ∷ path)) at))
        (compress_path-IsHopRoute pes named a b path n m r)
  IsHopRoute-map a b ((v ∷ path) ∷ paths) n m all hops (Memᴰ.tail k) =
      IsHopRoute-map a b paths n m (λ p l. all p (Memᴰ.tail l)) hops k

  length-map : (paths : List (List Vertex)) → length (map compress_path paths) ≡ length paths
  length-map [] = refl
  length-map (p ∷ paths) = ap suc (length-map paths)

  with_paths-IsBaseline :
      (k : ℕ) (a b : String) (paths : List (List Vertex)) (out : Baseline)
      → IsName a
      → IsName b
      → (paths ≡ []) ⊎ (a ≢ b)
      → length paths ≤ k
      → Paths (build_split_graph pes) (core_v a) (core_v b) paths
      → IsBaseline pes k out
      → IsBaseline pes k (with_paths a b paths out)
  with_paths-IsBaseline k a b [] out n m c l all have = have
  with_paths-IsBaseline k a b (p ∷ paths) out n m c l all have = λ rp routes h.
      let new = map compress_path (p ∷ paths) in
      let apart : a ≢ b = elim c [ inl e ↦ absurd (cc e) | inr e ↦ e ] in
      let pair : RoutePair = record { src = a; dst = b } in
      let seen = lookup-insert pair rp new out in
      elim (Bool-cases (pair =? rp)) [
        | inl q ↦
            let same : pair ≡ rp = (route_pair_eq.beq_iff pair rp).0 q in
            let here : new ≡ routes = ground (arith, q, seen, h) in
            subst
              (λ (z : RoutePair).
                (z.src ≢ z.dst)
                × (length routes ≤ k)
                × ((hops : List Hop) → Memᴰ hops routes → IsHopRoute pes z.src hops z.dst))
              same
              (subst
                (λ (rs : List (List Hop)).
                  (a ≢ b)
                  × (length rs ≤ k)
                  × ((hops : List Hop) → Memᴰ hops rs → IsHopRoute pes a hops b))
                here
                (
                  apart,
                  omega (arith, length-map (p ∷ paths), l),
                  IsHopRoute-map a b (p ∷ paths) n m all,
                ))
        | inr q ↦ have rp routes (ground (arith, q, seen, h))
      ]

  module _ (most : ℕ)
      (light : (u : Vertex) (e : Edge) → Memᴰ e (edges_of (build_split_graph pes) u) → e.w ≤ most)
      (fits : suc (count_edges (build_split_graph pes).adj) * most < 2 ^ 64) (k : ℕ) where
    routes_to-IsBaseline :
        (a : String) (bs : List String) (out : Baseline)
        → IsName a
        → ((b : String) → Memᴰ b bs → IsName b)
        → IsBaseline pes k out
        → (done : Baseline) × (routes_to (build_split_graph pes) k a bs out ≡ ok done)
          × IsBaseline pes k done
    unfolding routes_to
    routes_to-IsBaseline a [] out n all have = (out, refl, have)
    routes_to-IsBaseline a (b ∷ bs) out n all have = elim (Bool-cases (a =? b)) [
      | inl q ↦
          let (done, e, r) = routes_to-IsBaseline a bs out n (λ c m. all c (Memᴰ.tail m)) have in
          (done, rw (routes_to, q) e, r)
      | inr q ↦
          let (paths, e, l, ps, s) =
            k_shortest-Paths (build_split_graph pes) (core_v a) (core_v b) most light fits k in
          let apart : a ≢ b = λ z. ground (arith, q, string_eq.beq_iff a b, z) in
          let more =
            with_paths-IsBaseline k a b paths out n (all b (Memᴰ.head refl)) (inr apart) l ps
              have in
          let (done, f, r) =
            routes_to-IsBaseline a bs (with_paths a b paths out) n (λ c m. all c (Memᴰ.tail m))
              more in
          (done, rw (routes_to, q, e) f, r)
    ]

    routes_from-IsBaseline :
        (transits sources : List String) (out : Baseline)
        → ((b : String) → Memᴰ b transits → IsName b)
        → ((a : String) → Memᴰ a sources → IsName a)
        → IsBaseline pes k out
        → (done : Baseline) × (routes_from (build_split_graph pes) k transits sources out ≡ ok done)
          × IsBaseline pes k done
    unfolding routes_from
    routes_from-IsBaseline transits [] out all here have = (out, refl, have)
    routes_from-IsBaseline transits (a ∷ others) out all here have =
        let (mid, e, r) = routes_to-IsBaseline a transits out (here a (Memᴰ.head refl)) all have in
        let (done, f, t) =
          routes_from-IsBaseline transits others mid all (λ c m. here c (Memᴰ.tail m)) r in
        (done, rw (routes_from, e) f, t)

    -- For pruned edges and transits whose names are not empty and have no separator, and weights that
    -- cannot pass 64 bits, `baseline_routes` returns, without a panic and within its fuel, a table in which
    -- every pair has two different ends and at most `k` routes, and each hop of a route takes a pruned edge
    -- from the node before it, from the pair's source up to its other end.
    pub baseline_routes-IsHopRoute :
        (transits : List String)
        → ((a : String) → Memᴰ a transits → IsName a)
        → (out : Baseline) × (baseline_routes pes transits k ≡ ok out) × IsBaseline pes k out
    unfolding baseline_routes lookup
    baseline_routes-IsHopRoute transits all =
        routes_from-IsBaseline transits transits [] all all (λ rp routes h. cc)
