-- ===== src/Topology/Tables/Origin.antt =====
-- `computeFIB` of internal/controller/topology/fib.go: where the next hops of the tables come from.
use Prim.Native.String.{String}
use mathlib.Core.List.{Memᴰ}
use corelink.Prelude.{ℕ, ◌≡◌, refl, subst, List, [], ◌∷◌, some}
use corelink.Prelude.Assoc.{Assoc, lookup, string_eq}
use corelink.Topology.Dag.{FibNextHop}
use corelink.Topology.Tables.{
  Hop, RoutePair, Baseline, host_prefix, aggregate, build_per_source_fib, NextHopEntry, FibEntry,
  FibTable, compute_fib,
}
use corelink.Topology.Tables.Aggregate.{first_hop, AllHold-aggregate}
use corelink.Topology.Tables.Offers.{
  AllOffer, AllOffer-per_source, TablesHold, compute_fib-TablesHold, origin,
}

-- The pair of nodes, the address and the route that a next hop comes from.
pub record FromBaseline (baseline : Baseline) (vips : Assoc String String) (src prefix : String)
    (nh : FibNextHop) : Type 0 where
  pub pair : RoutePair
  pub routes : List (List Hop)
  pub first : Hop
  pub rest : List Hop
  pub vip : String
  pub of_baseline : Memᴰ (pair, routes) baseline
  pub of_routes : Memᴰ (first ∷ rest) routes
  pub from_src : pair.src ≡ src
  pub to_vip : lookup pair.dst vips ≡ some vip
  pub by_prefix : host_prefix vip ≡ prefix
  pub by_hop : first_hop first ≡ nh

build-FromBaseline :
    (baseline : Baseline) (vips : Assoc String String)
    → AllOffer (FromBaseline baseline vips) (build_per_source_fib baseline vips)
unfolding build_per_source_fib lookup
build-FromBaseline baseline vips =
    AllOffer-per_source (FromBaseline baseline vips) (aggregate vips baseline []) (
      AllHold-aggregate (FromBaseline baseline vips) vips baseline []
        (λ rp routes vip h rest a b c. record {
          pair = rp;
          routes = routes;
          first = h;
          rest = rest;
          vip = vip;
          of_baseline = a;
          of_routes = c;
          from_src = refl;
          to_vip = b;
          by_prefix = refl;
          by_hop = refl;
        })
        (λ src prefix agg m. elim m [ ]))

-- Every next hop of every entry of every table that `computeFIB` returns is the first hop, with the
-- weight 100, of a baseline route from the table's node to a node whose address, as a /32, is the
-- prefix of the entry.
pub compute_fib-FromBaseline :
    (baseline : Baseline) (vips : Assoc String String) (version : ℕ)
    (tables : Assoc String FibTable) (u : String) (t : FibTable) (e : FibEntry) (nh : NextHopEntry)
    → compute_fib baseline vips version ≡ some tables
    → lookup u tables ≡ some t
    → Memᴰ e t.entries
    → Memᴰ nh e.next_hops
    → FromBaseline baseline vips u e.prefix (origin nh)
compute_fib-FromBaseline baseline vips version tables u t e nh c l x y =
    subst (TablesHold (FromBaseline baseline vips)) c
      (compute_fib-TablesHold (FromBaseline baseline vips) baseline vips version
        (build-FromBaseline baseline vips))
      u t l e x nh y
