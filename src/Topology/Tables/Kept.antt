-- ===== src/Topology/Tables/Kept.antt =====
-- `computeFIB` of internal/controller/topology/fib.go: no first hop is lost but on a cycle.
use Prim.Native.String.{String}
use mathlib.Core.List.{Memᴰ}
use corelink.Prelude.Members.{Mem-map}
use corelink.Prelude.{ℕ, ◌≡◌, sym, ap, subst, ◌⊎◌, inl, inr, List, [], ◌∷◌, some, Option-cases}
use corelink.Prelude.Assoc.{Assoc, lookup, string_eq}
use corelink.Prelude.Sort.{Mem-sort_func}
use corelink.Topology.Dag.{FibNextHop, FibRouteEntry, or_nil}
use corelink.Topology.Dag.Validation.{validate_dag_lem}
use corelink.Topology.Prune.{build_forwarding_graph}
use corelink.Topology.Prune.Forwarding.{peers_of, build_forwarding_graph-IsForwarding}
use corelink.Topology.Prune.Loop.{IsOnCycle, prune_graph_cycles_lem}
use corelink.Topology.Tables.{
  Hop, RoutePair, Baseline, DstAgg, PerSourceAgg, or_new, hop_lt, host_prefix, aggregate,
  route_entry, route_entries, per_source, build_per_source_fib, FibTable, convert_to_proto,
  compute_fib,
}
use corelink.Topology.Tables.Acyclic.{
  peers-Mem, table_peers, table_peers-convert_to_proto, build_per_source_fib-IsMap,
}
use corelink.Topology.Tables.Aggregate.{Dsts, first_hop, lookup-Mem}
use corelink.Topology.Tables.Growth.{agg_of, AllSeenOk, aggregate-has}
use corelink.Topology.Tables.Offers.{lookup-per_source}

route_entries-Mem :
    (p : String) (agg : DstAgg) (dsts : Dsts)
    → Memᴰ (p, agg) dsts
    → Memᴰ (route_entry agg) (route_entries dsts)
route_entries-Mem p agg [] m = elim m [ ]
route_entries-Mem p agg ((q, a) ∷ dsts) m = elim m [
  | Memᴰ.head e ↦ Memᴰ.head (ap (λ (z : String × DstAgg). route_entry (z.1)) e)
  | Memᴰ.tail r ↦ Memᴰ.tail (route_entries-Mem p agg dsts r)
]

hop_in_entries :
    (s p : String) (dsts : Dsts) (nh : FibNextHop)
    → Memᴰ nh (or_new p (lookup p dsts)).hops
    → (e : FibRouteEntry) × Memᴰ e (route_entries dsts) × Memᴰ nh e.next_hops
unfolding route_entry
hop_in_entries s p dsts nh m = elim (Option-cases (lookup p dsts)) [
  | inl e ↦ absurd (elim (subst (λ o. Memᴰ nh (or_new p o).hops) e m) [ ])
  | inr (agg, e) ↦ (
    route_entry agg,
    route_entries-Mem p agg dsts (lookup-Mem p agg dsts e),
    (Mem-sort_func hop_lt nh agg.hops).1 (subst (λ o. Memᴰ nh (or_new p o).hops) e m),
  )
]

peer-peers_of :
    (s p : String) (m : PerSourceAgg) (nh : FibNextHop)
    → Memᴰ nh (agg_of m s p).hops
    → Memᴰ nh.peer_id (peers_of (per_source m) s)
peer-peers_of s p m nh x =
    let (e, a, b) = hop_in_entries s p (or_nil (lookup s m)) nh x in
    (peers-Mem nh.peer_id (or_nil (lookup s (per_source m)))).1 (
      e,
      subst (Memᴰ e) (sym (lookup-per_source s m)) a,
      Mem-map (λ (h : FibNextHop). h.peer_id) nh e.next_hops b,
    )

start_SeenOk : AllSeenOk []
unfolding lookup
start_SeenOk s p a i e = cc

-- For every route from one node to another that has an address, `computeFIB` returns tables that keep
-- the route's first hop as a next hop of the source, unless the step to that hop lies on a cycle of the
-- graph of all first hops.
pub compute_fib-keeps :
    (baseline : Baseline) (vips : Assoc String String) (version : ℕ) (rp : RoutePair)
    (routes : List (List Hop)) (vip : String) (h : Hop) (rest : List Hop)
    → Memᴰ (rp, routes) baseline
    → lookup rp.dst vips ≡ some vip
    → Memᴰ (h ∷ rest) routes
    → (tables : Assoc String FibTable) × (compute_fib baseline vips version ≡ some tables)
      × (Memᴰ h.node (table_peers (lookup rp.src tables))
          ⊎ IsOnCycle (build_forwarding_graph (build_per_source_fib baseline vips)) rp.src h.node)
unfolding compute_fib build_per_source_fib
compute_fib-keeps baseline vips version rp routes vip h rest x e y =
    let m = aggregate vips baseline [] in
    let per_src = build_per_source_fib baseline vips in
    let g = build_forwarding_graph per_src in
    let f =
      build_forwarding_graph-IsForwarding per_src (build_per_source_fib-IsMap baseline vips) in
    let has = aggregate-has vips baseline [] rp routes vip h rest start_SeenOk x e y in
    let in_peers = peer-peers_of rp.src (host_prefix vip) m (first_hop h) has in
    elim (validate_dag_lem g) [
      | inl (q, a) ↦ (
        convert_to_proto per_src version,
        rw (compute_fib, q),
        inl ((table_peers-convert_to_proto per_src version rp.src h.node).1 in_peers),
      )
      | inr (l, q, c, n) ↦
          let (per_src', g', r, p) = prune_graph_cycles_lem per_src g f in
          (
            convert_to_proto per_src' version,
            rw (compute_fib, q, r),
            elim (p.removed rp.src h.node ((f rp.src h.node).1 in_peers)) [
              | inl k ↦ inl (
                  (table_peers-convert_to_proto per_src' version rp.src h.node).1
                    ((p.forwarding rp.src h.node).0 k))
              | inr k ↦ inr k
            ],
          )
    ]
