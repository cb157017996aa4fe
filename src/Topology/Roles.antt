-- ===== src/Topology/Roles.antt =====
-- internal/controller/topology/eligibility.go: which nodes may relay. The kind of NAT is the number of
-- the generated enumeration; the source does not look at it.
pub mod Partition
use Prim.Native.String.{String}
use corelink.Prelude.{ℕ, Bool, true, false, ◌&&◌, List, [], ◌∷◌, leb, if◌then◌else◌, any}
use corelink.Prelude.Sort.{string_lt, sort_func}

abbrev pub min_confidence : ℕ
min_confidence = 60

pub record IngressMeta : Type 0 where
  pub id : String
  pub confidence : ℕ
  pub reachable : Bool

pub record NodeEligibilityInput : Type 0 where
  pub node_id : String
  pub nat : ℕ
  pub ingresses : List IngressMeta

unfoldable pub eligible : ℕ → List IngressMeta → Bool
eligible nat ingresses =
    any (λ (ing : IngressMeta). ing.reachable && leb min_confidence ing.confidence) ingresses

abbrev pub is_transit : NodeEligibilityInput → Bool
is_transit n = eligible n.nat n.ingresses

-- The node's name goes to the transits or to the leaves.
unfoldable pub partition : List NodeEligibilityInput → List String × List String
partition [] = ([], [])
partition (n ∷ nodes) =
    let rest = partition nodes in
    if is_transit n then (n.node_id ∷ rest.0, rest.1) else (rest.0, n.node_id ∷ rest.1)

unfoldable pub classify_nodes : List NodeEligibilityInput → List String × List String
classify_nodes nodes =
    let parts = partition nodes in (sort_func string_lt parts.0, sort_func string_lt parts.1)
