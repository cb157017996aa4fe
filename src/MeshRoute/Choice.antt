-- ===== src/MeshRoute/Choice.antt =====
-- internal/relay/mesh/fib_route.go: what `Route` returns.
use Prim.Native.String.{String}
use mathlib.Core.List.{Memᴰ}
use corelink.Prelude.{
  ℕ, zero, suc, ◌≡◌, ◌≢◌, refl, sym, ap, ◌∙◌, subst, ◌⊎◌, inl, inr, true, List, [], ◌∷◌, length,
  get_elem?, Option, none, some, Option-cases, arith,
}
use corelink.Prelude.Assoc.{IsMap}
use corelink.Wire.Addr.{Addr}
use corelink.Fib.Prefix.{Prefix, prefix_eq}
use corelink.Fib.Table.{NextHop, lookup_addr}
use corelink.Fib.Table.LongestMatch.{IsLongest, lookup_addr-IsLongest}
use corelink.Ecmp.{FloatOps, score, rendezvous_select}
use corelink.Ecmp.Choice.{peer_at}
use corelink.Ecmp.Remap.{IsScoreOrder}
use corelink.Ecmp.Best.{Wins, zip, rendezvous_select-Wins}
use corelink.MeshRoute.{FibRoute, peer_ids, weights, hop_at, select_hop, route}

same_length : (nhs : List NextHop) → length (peer_ids nhs) ≡ length (weights nhs)
same_length [] = refl
same_length (nh ∷ nhs) = ap suc (same_length nhs)

hop_at-peer_at :
    (nhs : List NextHop) (i : ℕ) (nh : NextHop)
    → get_elem? nhs i ≡ some nh
    → (get_elem? (peer_ids nhs) i ≡ some nh.peer_id) × Memᴰ nh nhs
hop_at-peer_at [] i nh h = cc
hop_at-peer_at (x ∷ nhs) zero nh h = (ground (arith, h), Memᴰ.head (ground (arith, h)))
hop_at-peer_at (x ∷ nhs) (suc i) nh h = let (a, b) = hop_at-peer_at nhs i nh h in (a, Memᴰ.tail b)

module _ (F : FloatOps) (fnv64a : List ℕ → ℕ) (bytes_of : String → List ℕ)
    (o : IsScoreOrder F fnv64a bytes_of) (flow_key : ℕ) where
  -- The only next hop, or one that wins by its score.
  abbrev pub IsChosen : List NextHop → NextHop → Type 0
  IsChosen nhs nh =
      Memᴰ nh nhs
      × ((nhs ≡ nh ∷ [])
          ⊎ Wins F fnv64a bytes_of o flow_key F.neg_inf (peer_ids nhs) (weights nhs) nh.peer_id)

  hop_at-IsChosen :
      (nhs : List NextHop) (i : Option ℕ) (nh : NextHop)
      → rendezvous_select F fnv64a bytes_of (peer_ids nhs) (weights nhs) flow_key ≡ i
      → hop_at nhs i ≡ some nh
      → IsChosen nhs nh
  hop_at-IsChosen nhs none nh e h = cc
  hop_at-IsChosen nhs (some i) nh e h =
      let (a, b) = hop_at-peer_at nhs i nh h in
      let peer : peer_at (peer_ids nhs)
            (rendezvous_select F fnv64a bytes_of (peer_ids nhs) (weights nhs) flow_key)
          ≡ some nh.peer_id =
        ap (peer_at (peer_ids nhs)) e ∙ a in
      elim (rendezvous_select-Wins F fnv64a bytes_of o flow_key (peer_ids nhs) (weights nhs)
        (same_length nhs)) [
          | inl (q, k, win) ↦
              let same : q ≡ nh.peer_id = cc (peer, k) in
              (
                b,
                inr (
                    subst
                      (λ z.
                        Wins F fnv64a bytes_of o flow_key F.neg_inf (peer_ids nhs) (weights nhs) z)
                      same win),
              )
          | inr (k, all) ↦ absurd (cc (peer, k))
        ]

  select_hop-IsChosen :
      (nhs : List NextHop) (nh : NextHop)
      → select_hop F fnv64a bytes_of flow_key nhs ≡ some nh
      → IsChosen nhs nh
  unfolding select_hop
  select_hop-IsChosen [] nh h = cc
  select_hop-IsChosen (x ∷ []) nh h =
      let same : x ≡ nh = cc (h) in (Memᴰ.head (sym same), inl (ap (λ z. z ∷ []) same))
  select_hop-IsChosen (x ∷ y ∷ nhs) nh h = hop_at-IsChosen (x ∷ y ∷ nhs) _ nh refl h

  route-none :
      (r : FibRoute) (dst : Addr)
      → lookup_addr r.fib dst ≡ none
      → route F fnv64a bytes_of r dst flow_key ≡ none
  unfolding route
  route-none r dst e = rw (route, e)

  route-some :
      (r : FibRoute) (dst : Addr) (nhs : List NextHop)
      → lookup_addr r.fib dst ≡ some nhs
      → route F fnv64a bytes_of r dst flow_key ≡ select_hop F fnv64a bytes_of flow_key nhs
  unfolding route
  route-some r dst nhs e = rw (route, e)

  -- What `Route` returns is a next hop of a longest prefix that holds the address: its only one, or one
  -- with a weight whose score no other next hop of the prefix exceeds.
  pub route-IsChosen :
      (r : FibRoute) (dst : Addr) (nh : NextHop)
      → IsMap r.fib.entries
      → route F fnv64a bytes_of r dst flow_key ≡ some nh
      → (p : Prefix) × (nhs : List NextHop) × IsLongest r.fib.entries dst p nhs × IsChosen nhs nh
  unfolding route
  route-IsChosen r dst nh u h = elim (Option-cases (lookup_addr r.fib dst)) [
    | inl e ↦ absurd (cc (route-none r dst e, h))
    | inr (nhs, e) ↦
        let (p, l) = lookup_addr-IsLongest r.fib dst nhs u e in
        (p, nhs, l, select_hop-IsChosen nhs nh (sym (route-some r dst nhs e) ∙ h))
  ]

  zip-Mem :
      (nhs : List NextHop) (nh : NextHop)
      → Memᴰ nh nhs
      → Memᴰ (nh.peer_id, nh.weight) (zip (peer_ids nhs) (weights nhs))
  zip-Mem [] nh m = elim m [ ]
  zip-Mem (x ∷ nhs) nh m = elim m [
    | Memᴰ.head e ↦ Memᴰ.head (ap (λ (z : NextHop). (z.peer_id, z.weight)) e)
    | Memᴰ.tail r ↦ Memᴰ.tail (zip-Mem nhs nh r)
  ]

  peer_at-hop_at :
      (nhs : List NextHop) (i : Option ℕ) (q : String)
      → peer_at (peer_ids nhs) i ≡ some q
      → (nh : NextHop) × (hop_at nhs i ≡ some nh)
  peer_at-hop_at nhs none q h = cc
  peer_at-hop_at [] (some i) q h = cc
  peer_at-hop_at (x ∷ nhs) (some zero) q h = (x, refl)
  peer_at-hop_at (x ∷ nhs) (some (suc i)) q h = peer_at-hop_at nhs (some i) q h

  select_hop-returns :
      (nhs : List NextHop) (nh : NextHop)
      → Memᴰ nh nhs
      → nh.weight ≢ 0
      → F.gt (score F fnv64a bytes_of flow_key nh.peer_id nh.weight) F.neg_inf ≡ true
      → (nh' : NextHop) × (select_hop F fnv64a bytes_of flow_key nhs ≡ some nh')
  unfolding select_hop
  select_hop-returns [] nh m w g = elim m [ ]
  select_hop-returns (x ∷ []) nh m w g = (x, refl)
  select_hop-returns (x ∷ y ∷ nhs) nh m w g =
      let all = x ∷ y ∷ nhs in
      elim (rendezvous_select-Wins F fnv64a bytes_of o flow_key (peer_ids all) (weights all)
        (same_length all)) [
          | inl (q, k, win) ↦ peer_at-hop_at all _ q k
          | inr (k, none_above) ↦
              absurd (cc (none_above nh.peer_id nh.weight (zip-Mem all nh m) w, g))
        ]

  -- `Route` finds a next hop wherever the prefix that `Lookup` matches has a next hop with a weight and
  -- a score above minus infinity.
  pub route-returns :
      (r : FibRoute) (dst : Addr) (nhs : List NextHop) (nh : NextHop)
      → lookup_addr r.fib dst ≡ some nhs
      → Memᴰ nh nhs
      → nh.weight ≢ 0
      → F.gt (score F fnv64a bytes_of flow_key nh.peer_id nh.weight) F.neg_inf ≡ true
      → (nh' : NextHop) × (route F fnv64a bytes_of r dst flow_key ≡ some nh') × IsChosen nhs nh'
  route-returns r dst nhs nh e m w g =
      let (nh', q) = select_hop-returns nhs nh m w g in
      (nh', route-some r dst nhs e ∙ q, select_hop-IsChosen nhs nh' q)
