-- ===== src/FlowTrack/Tracker/Expiry.antt =====
-- What `Expire` of internal/nodecore/flowtrack/tracker.go does to the flow of every key.
use corelink.Prelude.{
  ℕ, zero, suc, ◌+◌, ◌%◌, ◌<◌, ◌≤◌, ◌≡◌, ◌≢◌, ◌⊎◌, inl, inr, refl, sym, subst, true, false, List,
  [], ◌∷◌, length, arith, All, ap, ◌∙◌, Option, none, some, ◌==◌, ==_iff, ltb, Bool-cases,
}
use corelink.Prelude.Assoc.{IsMap, lookup}
use corelink.FlowTrack.Packet.{FlowKey, hash}
use corelink.FlowTrack.Packet.Parsing.{key_eq}
use corelink.FlowTrack.Tracker.{
  FlowState, flow_new, flow_established, flow_closing, flow_closed, Flow, Config, Tracker,
  is_closing, timeout_of, is_expired, shard_at, shard_of, expire_shard, expire_shards, expire,
}
use corelink.FlowTrack.Tracker.Shards.{
  Shards, total, IsMap-shard_at, kept, lookup-expire_shard, length-expire_shard, expire_shard-IsMap,
}
use corelink.FlowTrack.Tracker.Invariant.{IsTracker, find}

abbrev remaining : ℕ → Config → Shards → Shards
remaining now cfg ms = (expire_shards now cfg ms).0

shard_at-expire_shards :
    (now : ℕ) (cfg : Config) (ms : Shards) (i : ℕ)
    → shard_at (remaining now cfg ms) i ≡ (expire_shard now cfg (shard_at ms i)).0
unfolding shard_at expire_shards expire_shard
shard_at-expire_shards now cfg [] i = refl
shard_at-expire_shards now cfg (m ∷ ms) zero = refl
shard_at-expire_shards now cfg (m ∷ ms) (suc i) = shard_at-expire_shards now cfg ms i

length-expire_shards :
    (now : ℕ) (cfg : Config) (ms : Shards) → length (remaining now cfg ms) ≡ length ms
unfolding expire_shards
length-expire_shards now cfg [] = refl
length-expire_shards now cfg (m ∷ ms) = let h = length-expire_shards now cfg ms in omega arith

total-expire_shards :
    (now : ℕ) (cfg : Config) (ms : Shards)
    → let (rest, n) = expire_shards now cfg ms in total rest + n ≡ total ms
unfolding expire_shards
total-expire_shards now cfg [] = refl
total-expire_shards now cfg (m ∷ ms) =
    let h = total-expire_shards now cfg ms in let k = length-expire_shard now cfg m in omega arith

expire_shards-IsMap :
    (now : ℕ) (cfg : Config) (ms : Shards) → All IsMap ms → All IsMap (remaining now cfg ms)
unfolding expire_shards
expire_shards-IsMap now cfg [] h = tt
expire_shards-IsMap now cfg (m ∷ ms) (a, b) =
    (expire_shard-IsMap now cfg m a, expire_shards-IsMap now cfg ms b)

-- `Expire` keeps a well-formed table well-formed.
pub expire-IsTracker : (now : ℕ) (t : Tracker) → IsTracker t → IsTracker (expire now t)
unfolding expire
expire-IsTracker now t (c, m, p, q) =
    let k = total-expire_shards now t.cfg t.shards in
    let l = length-expire_shards now t.cfg t.shards in
    (omega arith, expire_shards-IsMap now t.cfg t.shards m, omega arith, omega arith)

-- How long a flow lives after its last packet: by its protocol, and 10 s once a TCP flow is closing.
pub data Lasts (cfg : Config) (f : Flow) : ℕ → Type 0 where
  tcp_closing : f.key.proto ≡ 6 → f.state ≡ flow_closing → Lasts cfg f 10000000000
  tcp : f.key.proto ≡ 6 → f.state ≢ flow_closing → Lasts cfg f cfg.tcp_timeout
  udp : f.key.proto ≡ 17 → Lasts cfg f cfg.udp_timeout
  icmp : f.key.proto ≡ 1 → Lasts cfg f cfg.icmp_timeout
  other : f.key.proto ≢ 6 → f.key.proto ≢ 17 → f.key.proto ≢ 1 → Lasts cfg f cfg.udp_timeout

-- What a key has before and after the deletion of what is older than that.
pub data Survives (now : ℕ) (cfg : Config) : Option Flow → Option Flow → Type 0 where
  absent : Survives now cfg none none
  expired :
      {f : Flow} (d : ℕ) → Lasts cfg f d → f.last_seen + d < now → Survives now cfg (some f) none
  alive :
      {f : Flow} (d : ℕ)
      → Lasts cfg f d
      → now ≤ f.last_seen + d
      → Survives now cfg (some f) (some f)

state_cases :
    (s : FlowState)
    → ((s ≡ flow_closing) × (is_closing s ≡ true)) ⊎ ((s ≢ flow_closing) × (is_closing s ≡ false))
state_cases flow_new = inr (λ e. cc, refl)
state_cases flow_established = inr (λ e. cc, refl)
state_cases flow_closing = inl (refl, refl)
state_cases flow_closed = inr (λ e. cc, refl)

timeout_of-Lasts : (cfg : Config) (f : Flow) → Lasts cfg f (timeout_of cfg f)
unfolding timeout_of
timeout_of-Lasts cfg f = elim (Bool-cases (f.key.proto == 6)) [
  | inl t ↦ elim (state_cases f.state) [
    | inl (c, e) ↦ rw (timeout_of, t) (rw e (Lasts.tcp_closing ((==_iff f.key.proto 6).0 t) c))
    | inr (c, e) ↦ rw (timeout_of, t) (rw e (Lasts.tcp ((==_iff f.key.proto 6).0 t) c))
  ]
  | inr t ↦ elim (Bool-cases (f.key.proto == 17)) [
    | inl u ↦ rw (timeout_of, t, u) (Lasts.udp ((==_iff f.key.proto 17).0 u))
    | inr u ↦ elim (Bool-cases (f.key.proto == 1)) [
      | inl i ↦ rw (timeout_of, t, u, i) (Lasts.icmp ((==_iff f.key.proto 1).0 i))
      | inr i ↦ rw (timeout_of, t, u, i) (Lasts.other (ground arith) (ground arith) (ground arith))
    ]
  ]
]

kept-Survives : (now : ℕ) (cfg : Config) (o : Option Flow) → Survives now cfg o (kept now cfg o)
unfolding is_expired
kept-Survives now cfg none = Survives.absent
kept-Survives now cfg (some f) =
    let d = timeout_of cfg f in
    elim (Bool-cases (ltb (f.last_seen + d) now)) [
      | inl e ↦ rw e (Survives.expired d (timeout_of-Lasts cfg f) (ground arith))
      | inr e ↦ rw e (Survives.alive d (timeout_of-Lasts cfg f) (ground arith))
    ]

find-expire_lookup :
    (fnv64a : List ℕ → ℕ) (now : ℕ) (t : Tracker) (key : FlowKey)
    → IsTracker t
    → find fnv64a (expire now t) key ≡ kept now t.cfg (find fnv64a t key)
unfolding expire shard_of
find-expire_lookup fnv64a now t key (c, m, p, q) =
    let i = hash fnv64a key % length t.shards in
    ap (λ n. lookup key (shard_at (remaining now t.cfg t.shards) (hash fnv64a key % n)))
      (length-expire_shards now t.cfg t.shards)
    ∙ ap (lookup key) (shard_at-expire_shards now t.cfg t.shards i)
    ∙ lookup-expire_shard now t.cfg key (shard_at t.shards i) (IsMap-shard_at t.shards i m)

-- `Expire` deletes the flows of a well-formed table whose time is over, and no other: after it, a key
-- has the flow that it had, unless the last packet of that flow is longer ago than the flow lasts: the
-- configured timeout of TCP, UDP or ICMP by its protocol number, that of UDP for all other protocols,
-- and 10 s for a TCP flow that is closing.
pub find-expire :
    (fnv64a : List ℕ → ℕ) (now : ℕ) (t : Tracker) (key : FlowKey)
    → IsTracker t
    → Survives now t.cfg (find fnv64a t key) (find fnv64a (expire now t) key)
find-expire fnv64a now t key h =
    subst (Survives now t.cfg (find fnv64a t key)) (sym (find-expire_lookup fnv64a now t key h))
      (kept-Survives now t.cfg (find fnv64a t key))
