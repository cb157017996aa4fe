-- ===== src/MeshRoute.antt =====
-- internal/relay/mesh/fib_route.go: the next hop of a flow, by the forwarding table and the choice of
-- internal/ecmp among the next hops of the prefix.
pub mod Choice
pub mod Session
mod Examples
use Prim.Native.String.{String}
use corelink.Prelude.{ℕ, List, [], ◌∷◌, map, Option, none, some, get_elem?}
use corelink.Wire.Addr.{Addr}
use corelink.Fib.Prefix.{Prefix}
use corelink.Fib.Table.{NextHop, Fib, new_fib, insert_route, remove_route, lookup_addr}
use corelink.Ecmp.{FloatOps, rendezvous_select}

pub record FibRoute : Type 0 where
  pub fib : Fib

pub new_fib_route : FibRoute
new_fib_route = record { fib = new_fib }

pub update_fib : Prefix → List NextHop → FibRoute → FibRoute
update_fib prefix nhs r = record r { fib = insert_route prefix nhs r.fib }

pub remove_fib : Prefix → FibRoute → FibRoute
remove_fib prefix r = record r { fib = remove_route prefix r.fib }

abbrev pub peer_ids : List NextHop → List String
peer_ids nhs = map (λ (nh : NextHop). nh.peer_id) nhs

abbrev pub weights : List NextHop → List ℕ
weights nhs = map (λ (nh : NextHop). nh.weight) nhs

-- `nhs[idx]`, or nothing for -1.
abbrev pub hop_at : List NextHop → Option ℕ → Option NextHop
hop_at nhs none = none
hop_at nhs (some i) = get_elem? nhs i

module _ (F : FloatOps) (fnv64a : List ℕ → ℕ) (bytes_of : String → List ℕ) where
  pub select_hop : ℕ → List NextHop → Option NextHop
  select_hop flow_key [] = none
  select_hop flow_key (nh ∷ []) = some nh
  select_hop flow_key (nh ∷ nh' ∷ nhs) = hop_at (nh ∷ nh' ∷ nhs) (
      rendezvous_select F fnv64a bytes_of (peer_ids (nh ∷ nh' ∷ nhs)) (weights (nh ∷ nh' ∷ nhs))
        flow_key)

  pub route : FibRoute → Addr → ℕ → Option NextHop
  route r dst flow_key = elim (lookup_addr r.fib dst) [
    | none ↦ none
    | some nhs ↦ select_hop flow_key nhs
  ]
