-- ===== src/Topology/Tables/Acyclic.antt =====
-- `computeFIB` of internal/controller/topology/fib.go: the tables of all nodes have no cycle.
use Prim.Native.String.{String}
use mathlib.Core.List.{Memᴰ}
use corelink.Prelude.{
  ℕ, ◌≡◌, refl, ap, subst, ◌∙◌, inl, inr, ◌↔◌, List, [], ◌∷◌, ◌++◌, map, Option, none, some, arith,
  Bool-cases,
}
use corelink.Prelude.Assoc.{Assoc, lookup, IsMap, insert-IsMap, ◌=?◌, string_eq}
use corelink.Prelude.Sort.{sort_func, Mem-sort_func}
use corelink.Topology.Dag.{Graph, PerSource, FibNextHop, FibRouteEntry}
use corelink.Topology.Dag.Paths.{Edge, IsAcyclic}
use corelink.Prelude.Members.{Mem-append, Mem-append_left, Mem-append_right}
use corelink.Topology.Dag.Validation.{validate_dag_lem}
use corelink.Topology.Prune.{build_forwarding_graph}
use corelink.Topology.Prune.Forwarding.{peers, peers_of, build_forwarding_graph-IsForwarding}
use corelink.Topology.Prune.Loop.{prune_graph_cycles_lem}
use corelink.Topology.Tables.{
  Hop, RoutePair, Baseline, PerSourceAgg, add_route, add_routes, host_prefix, add_pair, aggregate,
  per_source, build_per_source_fib, NextHopEntry, FibEntry, FibTable, entry_lt, convert_hop,
  convert_entry, convert_to_proto, compute_fib,
}

add_route-IsMap :
    (src prefix : String) (hops : List Hop) (m : PerSourceAgg)
    → IsMap m
    → IsMap (add_route src prefix hops m)
unfolding add_route
add_route-IsMap src prefix [] m h = h
add_route-IsMap src prefix (x ∷ rest) m h = insert-IsMap src _ m h

add_routes-IsMap :
    (src prefix : String) (routes : List (List Hop)) (m : PerSourceAgg)
    → IsMap m
    → IsMap (add_routes src prefix routes m)
unfolding add_routes
add_routes-IsMap src prefix [] m h = h
add_routes-IsMap src prefix (hops ∷ routes) m h =
    add_routes-IsMap src prefix routes (add_route src prefix hops m)
      (add_route-IsMap src prefix hops m h)

add_pair-IsMap :
    (vips : Assoc String String) (rp : RoutePair) (routes : List (List Hop)) (m : PerSourceAgg)
    → IsMap m
    → IsMap (add_pair vips rp routes m)
unfolding add_pair
add_pair-IsMap vips rp routes m h =
    elim (lookup rp.dst vips)
      as (λ o.
        IsMap (elim o [ none ↦ m | some vip ↦ add_routes rp.src (host_prefix vip) routes m ])) [
          | none ↦ h
          | some vip ↦ add_routes-IsMap rp.src (host_prefix vip) routes m h
        ]

aggregate-IsMap :
    (vips : Assoc String String) (baseline : Baseline) (m : PerSourceAgg)
    → IsMap m
    → IsMap (aggregate vips baseline m)
unfolding aggregate
aggregate-IsMap vips [] m h = h
aggregate-IsMap vips ((rp, routes) ∷ baseline) m h =
    aggregate-IsMap vips baseline (add_pair vips rp routes m) (add_pair-IsMap vips rp routes m h)

lookup-per_source :
    (u : String) (m : PerSourceAgg) → lookup u m ≡ none → lookup u (per_source m) ≡ none
unfolding lookup
lookup-per_source u [] h = refl
lookup-per_source u ((src, dsts) ∷ m) h = ground (arith, lookup-per_source u m)

per_source-IsMap : (m : PerSourceAgg) → IsMap m → IsMap (per_source m)
per_source-IsMap [] h = tt
per_source-IsMap ((src, dsts) ∷ m) (a, b) = (lookup-per_source src m a, per_source-IsMap m b)

pub build_per_source_fib-IsMap :
    (baseline : Baseline) (vips : Assoc String String) → IsMap (build_per_source_fib baseline vips)
unfolding build_per_source_fib
build_per_source_fib-IsMap baseline vips =
    per_source-IsMap (aggregate vips baseline []) (aggregate-IsMap vips baseline [] tt)

-- The next hops that the entries of a table name.
abbrev pub entry_peers : List FibEntry → List String
entry_peers [] = []
entry_peers (e ∷ es) = map (λ (h : NextHopEntry). h.peer_id) e.next_hops ++ entry_peers es

abbrev pub table_peers : Option FibTable → List String
table_peers none = []
table_peers (some table) = entry_peers table.entries

map-convert_hop :
    (hops : List FibNextHop)
    → map (λ (h : NextHopEntry). h.peer_id) (map convert_hop hops)
      ≡ map (λ (h : FibNextHop). h.peer_id) hops
unfolding convert_hop
map-convert_hop [] = refl
map-convert_hop (h ∷ hops) = ap (λ l. h.peer_id ∷ l) (map-convert_hop hops)

entry_peers-convert : (es : List FibRouteEntry) → entry_peers (map convert_entry es) ≡ peers es
unfolding convert_entry
entry_peers-convert [] = refl
entry_peers-convert (e ∷ es) =
    ap (λ l. l ++ entry_peers (map convert_entry es)) (map-convert_hop e.next_hops)
    ∙ ap (λ l. map (λ (h : FibNextHop). h.peer_id) e.next_hops ++ l) (entry_peers-convert es)

pub through : {A B C : Type 0} → (A ↔ B) → (C ↔ B) → A ↔ C
through (ab, ba) (cb, bc) = (λ a. bc (ab a), λ c. ba (cb c))

pub peers-Mem :
    (v : String) (es : List FibRouteEntry)
    → Memᴰ v (peers es)
      ↔ ((e : FibRouteEntry) × Memᴰ e es × Memᴰ v (map (λ (h : FibNextHop). h.peer_id) e.next_hops))
peers-Mem v [] = (λ m. elim m [ ], λ (e, m, k). elim m [ ])
peers-Mem v (e ∷ es) = (
  λ m. elim (Mem-append v (map (λ (h : FibNextHop). h.peer_id) e.next_hops) (peers es) m) [
    | inl k ↦ (e, Memᴰ.head refl, k)
    | inr k ↦ let (x, a, b) = (peers-Mem v es).0 k in (x, Memᴰ.tail a, b)
  ],
  λ (x, m, k). elim m [
    | Memᴰ.head q ↦
        Mem-append_left v _ (peers es)
          (subst (λ y. Memᴰ v (map (λ (h : FibNextHop). h.peer_id) y.next_hops)) q k)
    | Memᴰ.tail r ↦
        Mem-append_right v (map (λ (h : FibNextHop). h.peer_id) e.next_hops) (peers es)
          ((peers-Mem v es).1 (x, r, k))
  ],
)

peers-sort :
    (v : String) (es : List FibRouteEntry)
    → Memᴰ v (peers (sort_func entry_lt es)) ↔ Memᴰ v (peers es)
peers-sort v es = (
  λ m.
      let (e, a, b) = (peers-Mem v (sort_func entry_lt es)).0 m in
      (peers-Mem v es).1 (e, (Mem-sort_func entry_lt e es).0 a, b),
  λ m.
      let (e, a, b) = (peers-Mem v es).0 m in
      (peers-Mem v (sort_func entry_lt es)).1 (e, (Mem-sort_func entry_lt e es).1 a, b),
)

pub table_peers-convert_to_proto :
    (per_src : PerSource) (version : ℕ) (u v : String)
    → Memᴰ v (table_peers (lookup u (convert_to_proto per_src version)))
      ↔ Memᴰ v (peers_of per_src u)
unfolding convert_to_proto lookup
table_peers-convert_to_proto [] version u v = (λ m. m, λ m. m)
table_peers-convert_to_proto ((src, es) ∷ per_src) version u v = elim (Bool-cases (src =? u)) [
  | inl e ↦ rw (e) (rw (entry_peers-convert (sort_func entry_lt es)) (peers-sort v es))
  | inr e ↦ rw (e) (table_peers-convert_to_proto per_src version u v)
]

-- `computeFIB` returns for all baseline routes and addresses. The graph whose edges are the next hops
-- of the tables of all nodes has no cycle.
pub compute_fib-IsAcyclic :
    (baseline : Baseline) (vips : Assoc String String) (version : ℕ)
    → (tables : Assoc String FibTable) × (g : Graph) × (compute_fib baseline vips version
        ≡ some tables)
      × IsAcyclic g
      × ((u v : String) → Edge g u v ↔ Memᴰ v (table_peers (lookup u tables)))
unfolding compute_fib
compute_fib-IsAcyclic baseline vips version =
    let per_src = build_per_source_fib baseline vips in
    let g = build_forwarding_graph per_src in
    let f =
      build_forwarding_graph-IsForwarding per_src (build_per_source_fib-IsMap baseline vips) in
    elim (validate_dag_lem g) [
      | inl (e, a) ↦ (
        convert_to_proto per_src version,
        g,
        rw (compute_fib, e),
        a,
        λ u v. through (f u v) (table_peers-convert_to_proto per_src version u v),
      )
      | inr (l, e, c, n) ↦
          let (per_src', g', q, p) = prune_graph_cycles_lem per_src g f in
          (
            convert_to_proto per_src' version,
            g',
            rw (compute_fib, e, q),
            p.acyclic,
            λ u v. through (p.forwarding u v) (table_peers-convert_to_proto per_src' version u v),
          )
    ]
