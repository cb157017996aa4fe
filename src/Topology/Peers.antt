-- ===== src/Topology/Peers.antt =====
-- internal/controller/topology/prune.go: which relays are linked, and through which ingresses. The
-- quality matrix is a function. `topD` is a function of its key; the set of pairs is a list in the order in
-- which the walk meets them, since the result is sorted.
pub mod Edges
pub mod Pairs
pub mod Symmetry
pub mod Best
use Prim.Native.String.{String}
use corelink.Prelude.{
  ℕ, Bool, true, false, ◌&&◌, ◌||◌, List, [], ◌∷◌, ◌++◌, take, ltb, ◌==◌, if◌then◌else◌, Option,
  none, some,
}
use corelink.Prelude.Assoc.{Assoc, lookup, ◌=?◌, string_eq}
use corelink.Prelude.Sort.{string_lt, sort_func}
use corelink.Topology.Dag.{or_nil}
use corelink.Topology.Baseline.{PrunedEdge}

pub record QKey : Type 0 where
  pub src_node : String
  pub dst_node : String
  pub dst_ingress : String

abbrev pub QualityMatrix : Type 0
QualityMatrix = QKey → Option ℕ

abbrev pub quality_of : QualityMatrix → String → String → String → Option ℕ
quality_of qm src dst e = qm (record { src_node = src; dst_node = dst; dst_ingress = e })

abbrev pub IngressIndex : Type 0
IngressIndex = Assoc String (List String)

unfoldable pub ingresses_of : IngressIndex → String → List String
ingresses_of by_node node = or_nil (lookup node by_node)

abbrev pub default_weight : ℕ
default_weight = 1000000

abbrev pub better : Option ℕ → Option ℕ → Option ℕ
better best none = best
better none (some w) = some w
better (some b) (some w) = some (if ltb w b then w else b)

-- The least quality of the ingresses that have one, on top of `best`.
unfoldable pub scan_quality : QualityMatrix → String → String → Option ℕ → List String → Option ℕ
scan_quality qm src dst best [] = best
scan_quality qm src dst best (e ∷ es) =
    scan_quality qm src dst (better best (quality_of qm src dst e)) es

abbrev pub or_default : Option ℕ → ℕ
or_default none = default_weight
or_default (some w) = w

abbrev pub with_weight : Option ℕ → Option ℕ → Option ℕ
with_weight (some w) other = some w
with_weight none other = other

abbrev pub default_if_any : List String → Option ℕ
default_if_any [] = none
default_if_any (e ∷ es) = some default_weight

pub record Cand : Type 0 where
  pub dst : String
  pub w : ℕ

abbrev pub cand_lt : Cand → Cand → Bool
cand_lt x y = if x.w == y.w then string_lt x.dst y.dst else ltb x.w y.w

abbrev pub ingress_lt : PrunedEdge → PrunedEdge → Bool
ingress_lt x y = if x.w == y.w then string_lt x.ingress y.ingress else ltb x.w y.w

abbrev pub edge_order : PrunedEdge → PrunedEdge → Bool
edge_order x y =
    if x.src =? y.src
    then (if x.dst =? y.dst then string_lt x.ingress y.ingress else string_lt x.dst y.dst)
    else string_lt x.src y.src

pub record Pair : Type 0 where
  pub x : String
  pub y : String

abbrev pub in_order : String → String → Pair
in_order a b = if string_lt b a then record { x = b; y = a } else record { x = a; y = b }

abbrev pub has_pair : Pair → List Pair → Bool
has_pair p [] = false
has_pair p (q ∷ ps) = if (q.x =? p.x) && (q.y =? p.y) then true else has_pair p ps

module _ (qm : QualityMatrix) (by_node : IngressIndex) where
  unfoldable pub best_w : String → String → Option ℕ
  best_w src dst =
      with_weight (scan_quality qm src dst none (ingresses_of by_node dst))
        (default_if_any (ingresses_of by_node dst))

  unfoldable pub ingress_edges : String → String → List String → List PrunedEdge
  ingress_edges src dst [] = []
  ingress_edges src dst (e ∷ es) =
      record { src = src; dst = dst; ingress = e; w = or_default (quality_of qm src dst e) }
      ∷ ingress_edges src dst es

  unfoldable pub top_k_ingress_edges : ℕ → String → String → List PrunedEdge
  top_k_ingress_edges k src dst =
      take k (sort_func ingress_lt (ingress_edges src dst (ingresses_of by_node dst)))

  unfoldable pub cands_of : String → List String → List Cand
  cands_of a [] = []
  cands_of a (b ∷ bs) =
      let rest = cands_of a bs in
      if b =? a
      then rest
      else elim (best_w a b) [ none ↦ rest | some w ↦ record { dst = b; w = w } ∷ rest ]

  unfoldable pub top_d : ℕ → List String → String → List Cand
  top_d d transits a = take d (sort_func cand_lt (cands_of a transits))

  unfoldable pub add_pairs : String → List Cand → List Pair → List Pair
  add_pairs a [] ps = ps
  add_pairs a (c ∷ cs) ps =
      let p = in_order a c.dst in add_pairs a cs (if has_pair p ps then ps else p ∷ ps)

  unfoldable pub collect_pairs : ℕ → List String → List String → List Pair → List Pair
  collect_pairs d transits [] ps = ps
  collect_pairs d transits (a ∷ sources) ps =
      collect_pairs d transits sources (add_pairs a (top_d d transits a) ps)

  unfoldable pub pair_edges : ℕ → List Pair → List PrunedEdge
  pair_edges k [] = []
  pair_edges k (p ∷ ps) =
      top_k_ingress_edges k p.x p.y ++ (top_k_ingress_edges k p.y p.x ++ pair_edges k ps)

  unfoldable pub prune : ℕ → ℕ → List String → List PrunedEdge
  prune d k transits =
      if (d == 0) || (k == 0)
      then []
      else sort_func edge_order (pair_edges k (collect_pairs d transits transits []))
