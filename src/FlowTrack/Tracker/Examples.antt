-- ===== src/FlowTrack/Tracker/Examples.antt =====
-- The flow table of internal/nodecore/flowtrack/tracker.go with one flow, in two shards.
use corelink.Prelude.{ℕ, ◌+◌, ◌≡◌, refl, Bool, List, [], ◌∷◌, Option, arith}
use corelink.Prelude.Outcome.{ok}
use corelink.Prelude.Assoc.{lookup}
use corelink.Wire.Addr.{v4}
use corelink.FlowTrack.Packet.{FlowKey}
use corelink.FlowTrack.Packet.Parsing.{key_eq}
use corelink.FlowTrack.Tracker.{
  Config, Flow, Tracker, new_tracker, new_flow, track, track_key, expire,
}
use corelink.FlowTrack.Tracker.Invariant.{IsTracker, find, new_tracker-IsTracker, track-IsTracker}
use corelink.FlowTrack.Tracker.Flows.{IsTracked, IsWritten, track_key_finds}
use corelink.FlowTrack.Tracker.Expiry.{Survives, expire-IsTracker, find-expire}

abbrev key : FlowKey
key = record { src_ip = v4 1; dst_ip = v4 2; proto = 17; src_port = 53; dst_port = 54 }

abbrev config : Config
config = record {
  tcp_timeout = 300;
  udp_timeout = 30;
  icmp_timeout = 5;
  max_flows = 2;
  shard_count = 2;
}

abbrev one_flow : Tracker
one_flow = record {
  cfg = config;
  shards = ((key, new_flow 10 60 key) ∷ []) ∷ [] ∷ [];
  total_flows = 1;
}

-- In place of FNV-1a.
abbrev sum : List ℕ → ℕ
sum [] = 0
sum (b ∷ bs) = b + sum bs

one_flow-IsTracker : IsTracker one_flow
unfolding lookup
one_flow-IsTracker = (refl, ((refl, tt), (tt, tt)), omega arith, omega arith)

new_tracker-IsTracker_run : IsTracker (new_tracker config) × ((new_tracker config).total_flows ≡ 0)
new_tracker-IsTracker_run = new_tracker-IsTracker config

abbrev short_packet : List ℕ
short_packet = 69 ∷ 0 ∷ []

track-IsTracker_example :
    (r : (Option Flow × Bool) × Tracker) × (track sum 20 short_packet one_flow ≡ ok r)
    × IsTracker r.1
track-IsTracker_example = track-IsTracker sum 20 short_packet one_flow one_flow-IsTracker

track_key_finds_example :
    let (answer, u) = track_key sum 20 60 key one_flow in
    IsTracked 20 60 key one_flow (find sum one_flow key) answer
    × IsWritten sum one_flow u key answer.0
track_key_finds_example = track_key_finds sum 20 60 key one_flow one_flow-IsTracker

expire-IsTracker_run : IsTracker (expire 100 one_flow)
expire-IsTracker_run = expire-IsTracker 100 one_flow one_flow-IsTracker

find-expire_example :
    Survives 100 config (find sum one_flow key) (find sum (expire 100 one_flow) key)
find-expire_example = find-expire sum 100 one_flow key one_flow-IsTracker
