-- ===== src/FlowTrack/Tracker/Invariant.antt =====
-- The flow table of internal/nodecore/flowtrack/tracker.go: its counter, its bound, and what each
-- operation does to the flow of every key.
use corelink.Prelude.{
  ℕ, zero, suc, ◌+◌, ◌≤◌, ◌<◌, ◌≡◌, refl, sym, Bool, true, false, List, length, Option, none, some,
  arith, All, if◌then◌else◌, leb,
}
use native.Mathlib.Nat.{mod-lt}
use corelink.Prelude.Outcome.{Outcome, ok, IsSafe, returns, fails}
use corelink.Prelude.Assoc.{
  Assoc, lookup, insert, IsMap, insert-IsMap, length-insert_fresh, length-insert_known,
}
use corelink.FlowTrack.Packet.{FlowKey, hash, parse_packet, ParseError, TcpFlags}
use corelink.FlowTrack.Packet.Parsing.{key_eq, parse_packet-IsSafe}
use corelink.FlowTrack.Tracker.{
  Config, Flow, Tracker, new_tracker, or_default, shard_at, set_shard, touched, new_flow,
  track_found, shard_of, track_key, track_parsed, track,
}
use corelink.FlowTrack.Tracker.Shards.{
  total, length-set_shard, total-set_shard, IsMap-shard_at, set_shard-IsMap, empty_shards-IsMap,
}

-- The counter counts the flows, no shard holds a key twice, there is a shard, and no more flows
-- than the maximum are held.
abbrev pub IsTracker : Tracker → Type 0
IsTracker t =
    (t.total_flows ≡ total t.shards)
    × All IsMap t.shards
    × (0 < length t.shards)
    × (t.total_flows ≤ t.cfg.max_flows)

-- A new tracker is well-formed and empty, whatever the configuration.
pub new_tracker-IsTracker :
    (cfg : Config) → let t = new_tracker cfg in IsTracker t × (t.total_flows ≡ 0)
unfolding new_tracker
new_tracker-IsTracker cfg =
    let n = or_default cfg.shard_count 256 in
    let (a, b, c) = empty_shards-IsMap n in
    let p = positive cfg.shard_count in ((sym b, c, omega arith, omega arith), refl)
  where
    positive : (n : ℕ) → 0 < or_default n 256
    positive zero = omega arith
    positive (suc n) = omega arith

-- What `Track` does with the result of the lookup keeps the table well-formed.
track_found-IsTracker :
    (now n : ℕ) (key : FlowKey) (idx : ℕ) (t : Tracker) (found : Option Flow)
    → idx < length t.shards
    → lookup key (shard_at t.shards idx) ≡ found
    → IsTracker t
    → IsTracker (track_found now n key idx t found).1
unfolding track_found
track_found-IsTracker now n key idx t (some f) b e (c, m, p, q) =
    let g = touched now n f in
    let shard = shard_at t.shards idx in
    let size = length-insert_known key g f shard e in
    let sum = total-set_shard t.shards idx (insert key g shard) b in
    let len = length-set_shard t.shards idx (insert key g shard) in
    (
      omega arith,
      set_shard-IsMap t.shards idx (insert key g shard)
          (insert-IsMap key g shard (IsMap-shard_at t.shards idx m)) m,
      omega arith,
      q,
    )
track_found-IsTracker now n key idx t none b e (c, m, p, q) =
    by_room (leb t.cfg.max_flows t.total_flows) refl
  where
    f : Flow
    f = new_flow now n key

    shard : Assoc FlowKey Flow
    shard = shard_at t.shards idx

    grown : Tracker
    grown = record t {
      shards = set_shard t.shards idx (insert key f shard);
      total_flows = t.total_flows + 1;
    }

    by_room :
        (b : Bool)
        → leb t.cfg.max_flows t.total_flows ≡ b
        → IsTracker
            (if◌then◌else◌ {A = (Option Flow × Bool) × Tracker} b
              ((none, false), t)
              ((some f, true), grown)).1
    by_room true r = (c, m, p, q)
    by_room false r =
        let size = length-insert_fresh key f shard e in
        let sum = total-set_shard t.shards idx (insert key f shard) b in
        let len = length-set_shard t.shards idx (insert key f shard) in
        let room : t.total_flows < t.cfg.max_flows = ground arith in
        (
          omega arith,
          set_shard-IsMap t.shards idx (insert key f shard)
              (insert-IsMap key f shard (IsMap-shard_at t.shards idx m)) m,
          omega arith,
          omega arith,
        )

pub shard_of-lt :
    (fnv64a : List ℕ → ℕ) (t : Tracker) (key : FlowKey)
    → 0 < length t.shards
    → shard_of fnv64a t key < length t.shards
unfolding shard_of
shard_of-lt fnv64a t key h = mod-lt (hash fnv64a key) h

module _ (fnv64a : List ℕ → ℕ) where
  -- The flow of a key.
  abbrev pub find : Tracker → FlowKey → Option Flow
  find t key = lookup key (shard_at t.shards (shard_of fnv64a t key))

  track_key-IsTracker :
      (now n : ℕ) (key : FlowKey) (t : Tracker)
      → IsTracker t
      → IsTracker (track_key fnv64a now n key t).1
  unfolding track_key
  track_key-IsTracker now n key t (c, m, p, q) =
      track_found-IsTracker now n key (shard_of fnv64a t key) t (find t key)
        (shard_of-lt fnv64a t key p) refl (c, m, p, q)

  track_parsed-IsTracker :
      {P : FlowKey × TcpFlags → Type 0} (now n : ℕ) (t : Tracker)
      (o : Outcome ParseError (FlowKey × TcpFlags))
      → IsTracker t
      → IsSafe P o
      → (r : (Option Flow × Bool) × Tracker) × (track_parsed fnv64a now n t o ≡ ok r)
        × IsTracker r.1
  unfolding track_parsed
  track_parsed-IsTracker now n t o h (returns {a = (key, flags)} p) =
      (track_key fnv64a now n key t, refl, track_key-IsTracker now n key t h)
  track_parsed-IsTracker now n t o h fails = (((none, false), t), refl, h)

  -- `Track` returns on every packet, and keeps a well-formed table well-formed.
  pub track-IsTracker :
      (now : ℕ) (pkt : List ℕ) (t : Tracker)
      → IsTracker t
      → (r : (Option Flow × Bool) × Tracker) × (track fnv64a now pkt t ≡ ok r) × IsTracker r.1
  unfolding track
  track-IsTracker now pkt t h =
      track_parsed-IsTracker now (length pkt) t (parse_packet pkt) h (parse_packet-IsSafe pkt)
