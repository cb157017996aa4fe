-- ===== src/MeshRoute/Examples.antt =====
-- Routes of internal/relay/mesh/fib_route.go over two prefixes.
use mathlib.Core.List.{Memᴰ}
use corelink.Prelude.{◌≡◌, refl, List, [], ◌∷◌, some, arith}
use corelink.Prelude.Assoc.{lookup, IsMap}
use corelink.Wire.Addr.{Addr, v4}
use corelink.Fib.Prefix.{Prefix, p4, bits, contains, prefix_eq}
use corelink.Fib.Table.{NextHop, lookup_addr}
use corelink.Fib.Table.LongestMatch.{IsLongest}
use corelink.Ecmp.{rendezvous_select, scan_peers, score, norm, mix_hash, splitmix64}
use corelink.Ecmp.Floats.{counts, byte_count, no_bytes, counts-IsScoreOrder}
use corelink.MeshRoute.{FibRoute, select_hop, route}
use corelink.MeshRoute.Choice.{IsChosen, route-IsChosen, route-returns}

abbrev hop_a : NextHop
hop_a = record { peer_id = "a"; weight = 100; ingress_id = "i" }

abbrev hop_c : NextHop
hop_c = record { peer_id = "c"; weight = 200; ingress_id = "i" }

abbrev hops : List NextHop
hops = hop_a ∷ hop_c ∷ []

abbrev two_prefixes : FibRoute
two_prefixes = record {
  fib = record { entries = (p4 167772160 8, []) ∷ (p4 167837696 16, hops) ∷ [] };
}

-- 10.1.2.3
abbrev dst : Addr
dst = v4 167838211

two_prefixes-IsMap : IsMap two_prefixes.fib.entries
unfolding lookup
two_prefixes-IsMap = (refl, (refl, tt))

matched : lookup_addr two_prefixes.fib dst ≡ some hops
unfolding lookup_addr contains bits
matched = refl

routed : route counts byte_count no_bytes two_prefixes dst 7 ≡ some hop_c
unfolding route select_hop rendezvous_select scan_peers score norm mix_hash splitmix64 lookup_addr
    contains bits
routed = refl

route-IsChosen_example :
    (p : Prefix) × (nhs : List NextHop) × IsLongest two_prefixes.fib.entries dst p nhs
    × IsChosen counts byte_count no_bytes counts-IsScoreOrder 7 nhs hop_c
route-IsChosen_example =
    route-IsChosen counts byte_count no_bytes counts-IsScoreOrder 7 two_prefixes dst hop_c
      two_prefixes-IsMap routed

route-returns_run :
    (nh : NextHop) × (route counts byte_count no_bytes two_prefixes dst 7 ≡ some nh)
    × IsChosen counts byte_count no_bytes counts-IsScoreOrder 7 hops nh
unfolding score norm mix_hash splitmix64
route-returns_run =
    route-returns counts byte_count no_bytes counts-IsScoreOrder 7 two_prefixes dst hops hop_a
      matched (Memᴰ.head refl) (λ e. absurd (omega arith)) refl
