-- ===== src/FlowTrack/Tracker.antt =====
-- internal/nodecore/flowtrack/flow.go and tracker.go: the flow table. The clock's reading is an
-- argument, each call runs under the lock of its shard, and `totalFlows` is read and changed by one
-- call at a time. Durations are in nanoseconds.
mod Shards
mod Invariant
mod Flows
mod Expiry
mod Examples
use corelink.Prelude.{
  ℕ, zero, suc, ◌+◌, ◌-◌, ◌*◌, ◌/◌, ◌%◌, ◌^◌, ◌<◌, ◌≡◌, Bool, true, false, not, ◌&&◌, List, [], ◌∷◌,
  length, ltb, leb, ◌==◌, if◌then◌else◌, Option, none, some,
}
use corelink.Prelude.Outcome.{Outcome, ok, err, panic}
use corelink.Prelude.Assoc.{Assoc, lookup, insert, erase}
use corelink.FlowTrack.Packet.{FlowKey, TcpFlags, ParseError, parse_packet, hash}
use corelink.FlowTrack.Packet.Parsing.{key_eq}

pub data FlowState : Type 0 where
  flow_new flow_established flow_closing flow_closed : FlowState

pub record Flow : Type 0 where
  pub key : FlowKey
  pub state : FlowState
  pub next_hop : List ℕ
  pub conn_id : ℕ
  pub created_at : ℕ
  pub last_seen : ℕ
  pub bytes : ℕ
  pub packets : ℕ
  pub dpi_buf : List ℕ
  pub dpi_done : Bool
  pub bytes_total : ℕ

pub record Config : Type 0 where
  pub tcp_timeout : ℕ
  pub udp_timeout : ℕ
  pub icmp_timeout : ℕ
  pub max_flows : ℕ
  pub shard_count : ℕ

pub record Tracker : Type 0 where
  pub cfg : Config
  pub shards : List (Assoc FlowKey Flow)
  pub total_flows : ℕ

abbrev pub second : ℕ
second = 1000000000

abbrev pub tcp_closing_timeout : ℕ
tcp_closing_timeout = 10 * second

-- `if v <= 0 { v = d }`
abbrev pub or_default : ℕ → ℕ → ℕ
or_default zero d = d
or_default (suc v) d = suc v

pub empty_shards : ℕ → List (Assoc FlowKey Flow)
empty_shards zero = []
empty_shards (suc n) = [] ∷ empty_shards n

pub new_tracker : Config → Tracker
unfolding empty_shards
new_tracker cfg =
    let c : Config = record {
      shard_count = or_default cfg.shard_count 256;
      max_flows = or_default cfg.max_flows 65536;
      tcp_timeout = or_default cfg.tcp_timeout (300 * second);
      udp_timeout = or_default cfg.udp_timeout (30 * second);
      icmp_timeout = or_default cfg.icmp_timeout (5 * second);
    } in
    record { cfg = c; shards = empty_shards c.shard_count; total_flows = 0 }

-- `&t.shards[idx]`
pub shard_at : List (Assoc FlowKey Flow) → ℕ → Assoc FlowKey Flow
shard_at [] i = []
shard_at (m ∷ ms) zero = m
shard_at (m ∷ ms) (suc i) = shard_at ms i

pub set_shard : List (Assoc FlowKey Flow) → ℕ → Assoc FlowKey Flow → List (Assoc FlowKey Flow)
set_shard [] i m = []
set_shard (_ ∷ ms) zero m = m ∷ ms
set_shard (k ∷ ms) (suc i) m = k ∷ set_shard ms i m

pub touched : ℕ → ℕ → Flow → Flow
touched now n f = record f {
  last_seen = now;
  bytes = (f.bytes + n) % 2 ^ 64;
  packets = (f.packets + 1) % 2 ^ 64;
}

pub new_flow : ℕ → ℕ → FlowKey → Flow
new_flow now n key = record {
  key = key;
  state = flow_new;
  next_hop = [];
  conn_id = 0;
  created_at = now;
  last_seen = now;
  bytes = n;
  packets = 1;
  dpi_buf = [];
  dpi_done = false;
  bytes_total = 0;
}

-- The lookup in the shard, and what `Track` does with what it finds: the flow that it returns and
-- whether the flow is new, with the table after the call.
pub track_found : ℕ → ℕ → FlowKey → ℕ → Tracker → Option Flow → (Option Flow × Bool) × Tracker
unfolding shard_at set_shard touched new_flow
track_found now n key idx t (some f) =
    let g = touched now n f in
    (
      (some g, false),
      record t { shards = set_shard t.shards idx (insert key g (shard_at t.shards idx)) },
    )
track_found now n key idx t none =
    let f = new_flow now n key in
    if leb t.cfg.max_flows t.total_flows then ((none, false), t) else (
      (some f, true),
      record t {
        shards = set_shard t.shards idx (insert key f (shard_at t.shards idx));
        total_flows = t.total_flows + 1;
      },
    )

pub shard_of : (List ℕ → ℕ) → Tracker → FlowKey → ℕ
shard_of fnv64a t key = hash fnv64a key % length t.shards

pub track_key : (List ℕ → ℕ) → ℕ → ℕ → FlowKey → Tracker → (Option Flow × Bool) × Tracker
unfolding shard_at shard_of track_found
track_key fnv64a now n key t =
    let idx = shard_of fnv64a t key in
    track_found now n key idx t (lookup key (shard_at t.shards idx))

-- What `Track` does with the result of the parser.
pub track_parsed :
    (List ℕ → ℕ)
    → ℕ
    → ℕ
    → Tracker
    → Outcome ParseError (FlowKey × TcpFlags)
    → Outcome ParseError ((Option Flow × Bool) × Tracker)
unfolding track_key
track_parsed fnv64a now n t (ok (key, flags)) = ok (track_key fnv64a now n key t)
track_parsed fnv64a now n t (err e) = ok ((none, false), t)
track_parsed fnv64a now n t panic = panic

-- `Track`; a panic of the parser would be one of `Track`.
pub track :
    (List ℕ → ℕ) → ℕ → List ℕ → Tracker → Outcome ParseError ((Option Flow × Bool) × Tracker)
unfolding track_parsed
track fnv64a now pkt t = track_parsed fnv64a now (length pkt) t (parse_packet pkt)

abbrev pub is_closing : FlowState → Bool
is_closing flow_closing = true
is_closing _ = false

-- The timeout that the `switch` of `Expire` picks.
pub timeout_of : Config → Flow → ℕ
timeout_of cfg f =
    if f.key.proto == 6
    then if is_closing f.state then tcp_closing_timeout else cfg.tcp_timeout
    else if f.key.proto == 17
    then cfg.udp_timeout
    else if f.key.proto == 1
    then cfg.icmp_timeout
    else cfg.udp_timeout

-- `elapsed > timeout`
pub is_expired : ℕ → Config → Flow → Bool
unfolding timeout_of
is_expired now cfg f = ltb (f.last_seen + timeout_of cfg f) now

-- The inner loop of `Expire`, with the flows deleted.
pub expire_shard : ℕ → Config → Assoc FlowKey Flow → Assoc FlowKey Flow × ℕ
unfolding is_expired
expire_shard now cfg [] = ([], 0)
expire_shard now cfg ((k, f) ∷ m) =
    let (rest, n) = expire_shard now cfg m in
    if is_expired now cfg f then (rest, suc n) else ((k, f) ∷ rest, n)

pub expire_shards : ℕ → Config → List (Assoc FlowKey Flow) → List (Assoc FlowKey Flow) × ℕ
unfolding expire_shard
expire_shards now cfg [] = ([], 0)
expire_shards now cfg (m ∷ ms) =
    let (kept, n) = expire_shard now cfg m in
    let (rest, k) = expire_shards now cfg ms in (kept ∷ rest, n + k)

pub expire : ℕ → Tracker → Tracker
unfolding expire_shards
expire now t =
    let (kept, n) = expire_shards now t.cfg t.shards in
    record t { shards = kept; total_flows = t.total_flows - n }

pub count : Tracker → ℕ
count t = t.total_flows
