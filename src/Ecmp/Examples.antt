-- ===== src/Ecmp/Examples.antt =====
-- The choice of internal/ecmp among three peers, one of them without a weight.
use Prim.Native.String.{String}
use corelink.Prelude.{ℕ, ◌≡◌, refl, ◌⊎◌, List, [], ◌∷◌, Option, none, some}
use corelink.Ecmp.{rendezvous_select, scan_peers, score, norm, mix_hash, splitmix64}
use corelink.Ecmp.Choice.{peer_at}
use corelink.Ecmp.Remap.{rendezvous_select-insert}
use corelink.Ecmp.Best.{Wins, NoneAbove, rendezvous_select-Wins}
use corelink.Ecmp.Floats.{counts, byte_count, no_bytes, counts-IsScoreOrder}

abbrev peers : List String
peers = "a" ∷ "b" ∷ "c" ∷ []

abbrev peer_weights : List ℕ
peer_weights = 100 ∷ 0 ∷ 200 ∷ []

abbrev selected : List String → List ℕ → Option ℕ
selected pids ws = rendezvous_select counts byte_count no_bytes pids ws 7

selected_run : selected peers peer_weights ≡ some 2
unfolding rendezvous_select scan_peers score norm mix_hash splitmix64
selected_run = refl

rendezvous_select-Wins_run :
    ((q : String) × (peer_at peers (selected peers peer_weights) ≡ some q)
      × Wins counts byte_count no_bytes counts-IsScoreOrder 7 counts.neg_inf peers peer_weights q)
    ⊎ ((peer_at peers (selected peers peer_weights) ≡ none)
        × NoneAbove counts byte_count no_bytes counts-IsScoreOrder 7 counts.neg_inf peers
            peer_weights)
rendezvous_select-Wins_run =
    rendezvous_select-Wins counts byte_count no_bytes counts-IsScoreOrder 7 peers peer_weights refl

rendezvous_select-insert_example :
    (peer_at peers (selected peers peer_weights) ≡ some "b")
    ⊎ (peer_at peers (selected peers peer_weights)
        ≡ peer_at ("a" ∷ "c" ∷ []) (selected ("a" ∷ "c" ∷ []) (100 ∷ 200 ∷ [])))
rendezvous_select-insert_example =
    rendezvous_select-insert counts byte_count no_bytes counts-IsScoreOrder 7 "b" 0 ("a" ∷ [])
      ("c" ∷ []) (100 ∷ []) (200 ∷ []) refl refl
