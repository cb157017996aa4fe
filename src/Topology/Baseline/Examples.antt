-- ===== src/Topology/Baseline/Examples.antt =====
-- Runs of internal/controller/topology/graph.go and kpaths.go at fixed inputs.
use Prim.Native.String.{String}
use mathlib.Core.List.{Memᴰ}
use corelink.Prelude.{
  ℕ, suc, ◌≡◌, ◌≢◌, refl, sym, ap, subst, ◌*◌, ◌^◌, ◌≤◌, ◌<◌, ◌⊎◌, true, false, List, [], ◌∷◌,
  length, some, inl, inr, arith,
}
use corelink.Prelude.Assoc.{lookup, insert, ◌=?◌, string_eq}
use corelink.Prelude.Outcome.{ok}
use corelink.Prelude.Sort.{sort_func}
use corelink.Topology.Tables.{Hop, RoutePair}
use corelink.Topology.Vertex.{core_v, ing_v, parse_v}
use corelink.Topology.Vertex.Parsing.{IsPlain, parse_v-inverts}
use corelink.Topology.Shortest.{Edge, Graph, edges_of, count_edges, max_w, reverse, dijkstra}
use corelink.Topology.Shortest.Correct.{IsShortest, NoWalk, dijkstra-IsShortest}
use corelink.Topology.Baseline.{
  PrunedEdge, route_pair_eq, build_split_graph, k_shortest, baseline_routes,
}
use corelink.Topology.Baseline.Spurs.{Paths}
use corelink.Topology.Baseline.KShortest.{StartsShortest, k_shortest-Paths}
use corelink.Topology.Baseline.SplitGraph.{cross_edge, ComesFrom, build_split_graph_lem}
use corelink.Topology.Baseline.Compress.{IsName, AreNamed}
use corelink.Topology.Baseline.HopRoutes.{IsBaseline, baseline_routes-IsHopRoute}

pub ne_of : (s t : String) → (s =? t) ≡ false → s ≢ t
ne_of s t h e = ground (arith, string_eq.beq_iff s t, h, e)

pub named_a : IsName "a"
named_a = (ne_of "a" "" refl, (refl, tt))

pub named_b : IsName "b"
named_b = (ne_of "b" "" refl, (refl, tt))

parse_v-inverts_run :
    (parse_v (core_v "a") ≡ record { node = "a"; ingress_id = ""; is_core = true })
    × (parse_v (ing_v "a" "i1") ≡ record { node = "a"; ingress_id = "i1"; is_core = false })
parse_v-inverts_run = parse_v-inverts "a" "i1" named_a.0 named_a.1 (refl, (refl, tt))

-- Two relays that measure 10 towards each other.
abbrev pub there : PrunedEdge
there = record { src = "a"; dst = "b"; ingress = "i2"; w = 10 }

abbrev pub back : PrunedEdge
back = record { src = "b"; dst = "a"; ingress = "i1"; w = 10 }

abbrev pub two_edges : List PrunedEdge
two_edges = there ∷ back ∷ []

pub two_edges-cases : (pe : PrunedEdge) → Memᴰ pe two_edges → (pe ≡ there) ⊎ (pe ≡ back)
two_edges-cases pe (Memᴰ.head q) = inl q
two_edges-cases pe (Memᴰ.tail m) = elim m [ Memᴰ.head q ↦ inr q | Memᴰ.tail k ↦ elim k [ ] ]

build_split_graph_lem_run :
    ((u : String) (d : Edge)
      → Memᴰ d (edges_of (build_split_graph two_edges) u)
      → (pe : PrunedEdge) × Memᴰ pe two_edges × ComesFrom pe u d)
    × ((pe : PrunedEdge)
        → Memᴰ pe two_edges
        → Memᴰ (cross_edge pe) (edges_of (build_split_graph two_edges) (core_v pe.src)))
build_split_graph_lem_run = build_split_graph_lem two_edges

abbrev pub g : Graph
g = build_split_graph two_edges

g-light : (u : String) (e : Edge) → Memᴰ e (edges_of g u) → e.w ≤ 10
g-light u e m =
    let (pe, k, c) = (build_split_graph_lem two_edges).0 u e m in
    elim c [
      | inl (v, q) ↦ elim (two_edges-cases pe k) [
        | inl z ↦ omega (arith, ap (λ (x : Edge). x.w) q, ap (λ (x : PrunedEdge). x.w) z)
        | inr z ↦ omega (arith, ap (λ (x : Edge). x.w) q, ap (λ (x : PrunedEdge). x.w) z)
      ]
      | inr (v, q) ↦ omega (arith, ap (λ (x : Edge). x.w) q)
    ]

pub g-fits : suc (count_edges g.adj) * 10 < 2 ^ 64
unfolding build_split_graph core_v ing_v edges_of lookup insert sort_func
    corelink.Topology.Baseline.add_pruned corelink.Topology.Baseline.add_all_pruned
    corelink.Topology.Baseline.sort_edges
g-fits = omega arith

dijkstra-IsShortest_example :
    ((rev : List String) × (w : ℕ) × (dijkstra g (core_v "a") (core_v "b") [] []
        ≡ some (reverse rev, w))
      × IsShortest g [] [] (core_v "a") (core_v "b") rev w)
    ⊎ ((dijkstra g (core_v "a") (core_v "b") [] [] ≡ some ([], max_w))
        × NoWalk g [] [] (core_v "a") (core_v "b"))
dijkstra-IsShortest_example =
    dijkstra-IsShortest g [] [] (core_v "a") (core_v "b") 10 g-light g-fits

k_shortest-Paths_example :
    (paths : List (List String)) × (k_shortest g (core_v "a") (core_v "b") 3 ≡ ok paths)
    × (length paths ≤ 3)
    × Paths g (core_v "a") (core_v "b") paths
    × StartsShortest g (core_v "a") (core_v "b") 3 paths
k_shortest-Paths_example = k_shortest-Paths g (core_v "a") (core_v "b") 10 g-light g-fits 3

two_edges-AreNamed : AreNamed two_edges
two_edges-AreNamed pe m = elim (two_edges-cases pe m) [
  | inl q ↦
      subst (λ (z : PrunedEdge). IsName z.src × IsName z.dst × IsPlain z.ingress) (sym q)
        (named_a, named_b, (refl, (refl, tt)))
  | inr q ↦
      subst (λ (z : PrunedEdge). IsName z.src × IsName z.dst × IsPlain z.ingress) (sym q)
        (named_b, named_a, (refl, (refl, tt)))
]

a_b-IsName : (x : String) → Memᴰ x ("a" ∷ "b" ∷ []) → IsName x
a_b-IsName x (Memᴰ.head q) = subst IsName (sym q) named_a
a_b-IsName x (Memᴰ.tail m) = elim m [
  | Memᴰ.head q ↦ subst IsName (sym q) named_b
  | Memᴰ.tail k ↦ elim k [ ]
]

baseline_routes-IsHopRoute_example :
    (out : List (RoutePair × List (List Hop))) × (baseline_routes two_edges ("a" ∷ "b" ∷ []) 2
      ≡ ok out)
    × IsBaseline two_edges 2 out
baseline_routes-IsHopRoute_example =
    baseline_routes-IsHopRoute two_edges two_edges-AreNamed 10 g-light g-fits 2 ("a" ∷ "b" ∷ [])
      a_b-IsName
