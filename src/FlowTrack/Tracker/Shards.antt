-- ===== src/FlowTrack/Tracker/Shards.antt =====
-- The shards of internal/nodecore/flowtrack/tracker.go: writing one of them, and how many flows
-- they hold.
use corelink.Prelude.{
  ℕ, zero, suc, ◌+◌, ◌<◌, ◌≡◌, ◌≢◌, refl, ap, List, [], ◌∷◌, length, Option, none, some, arith, All,
  if◌then◌else◌,
}
use corelink.Prelude.Assoc.{Assoc, lookup, IsMap}
use corelink.FlowTrack.Packet.{FlowKey}
use corelink.FlowTrack.Packet.Parsing.{key_eq}
use corelink.FlowTrack.Tracker.{
  Flow, shard_at, set_shard, empty_shards, Config, expire_shard, is_expired,
}

abbrev pub Shards : Type 0
Shards = List (Assoc FlowKey Flow)

-- How many flows the shards hold.
abbrev pub total : Shards → ℕ
total [] = 0
total (m ∷ ms) = length m + total ms

pub length-set_shard :
    (ms : Shards) (i : ℕ) (m : Assoc FlowKey Flow) → length (set_shard ms i m) ≡ length ms
unfolding set_shard
length-set_shard [] i m = refl
length-set_shard (k ∷ ms) zero m = refl
length-set_shard (k ∷ ms) (suc i) m = let h = length-set_shard ms i m in omega arith

pub shard_at-set_shard :
    (ms : Shards) (i : ℕ) (m : Assoc FlowKey Flow)
    → i < length ms
    → shard_at (set_shard ms i m) i ≡ m
unfolding set_shard shard_at
shard_at-set_shard [] i m h = absurd (omega arith)
shard_at-set_shard (k ∷ ms) zero m h = refl
shard_at-set_shard (k ∷ ms) (suc i) m h = shard_at-set_shard ms i m (omega arith)

pub shard_at-set_shard_other :
    (ms : Shards) (i j : ℕ) (m : Assoc FlowKey Flow)
    → i ≢ j
    → shard_at (set_shard ms i m) j ≡ shard_at ms j
unfolding set_shard shard_at
shard_at-set_shard_other [] i j m h = refl
shard_at-set_shard_other (k ∷ ms) zero zero m h = absurd (h refl)
shard_at-set_shard_other (k ∷ ms) zero (suc j) m h = refl
shard_at-set_shard_other (k ∷ ms) (suc i) zero m h = refl
shard_at-set_shard_other (k ∷ ms) (suc i) (suc j) m h =
    shard_at-set_shard_other ms i j m (λ e. h (omega arith))

pub total-set_shard :
    (ms : Shards) (i : ℕ) (m : Assoc FlowKey Flow)
    → i < length ms
    → total (set_shard ms i m) + length (shard_at ms i) ≡ total ms + length m
unfolding set_shard shard_at
total-set_shard [] i m h = absurd (omega arith)
total-set_shard (k ∷ ms) zero m h = omega arith
total-set_shard (k ∷ ms) (suc i) m h = let r = total-set_shard ms i m (omega arith) in omega arith

pub IsMap-shard_at : (ms : Shards) (i : ℕ) → All IsMap ms → IsMap (shard_at ms i)
unfolding shard_at
IsMap-shard_at [] i h = tt
IsMap-shard_at (k ∷ ms) zero h = h.0
IsMap-shard_at (k ∷ ms) (suc i) h = IsMap-shard_at ms i h.1

pub set_shard-IsMap :
    (ms : Shards) (i : ℕ) (m : Assoc FlowKey Flow)
    → IsMap m
    → All IsMap ms
    → All IsMap (set_shard ms i m)
unfolding set_shard
set_shard-IsMap [] i m g h = tt
set_shard-IsMap (k ∷ ms) zero m g h = (g, h.1)
set_shard-IsMap (k ∷ ms) (suc i) m g h = (h.0, set_shard-IsMap ms i m g h.1)

pub empty_shards-IsMap :
    (n : ℕ)
    → (length (empty_shards n) ≡ n) × (total (empty_shards n) ≡ 0) × All IsMap (empty_shards n)
unfolding empty_shards
empty_shards-IsMap zero = (refl, refl, tt)
empty_shards-IsMap (suc n) =
    let (a, b, c) = empty_shards-IsMap n in (omega arith, omega arith, (tt, c))

-- The flow of a key after the deletion of what expired: itself, unless it expired.
abbrev pub kept : ℕ → Config → Option Flow → Option Flow
kept now cfg none = none
kept now cfg (some f) = if is_expired now cfg f then none else some f

pub lookup-expire_shard :
    (now : ℕ) (cfg : Config) (k : FlowKey) (m : Assoc FlowKey Flow)
    → IsMap m
    → lookup k (expire_shard now cfg m).0 ≡ kept now cfg (lookup k m)
unfolding expire_shard lookup
lookup-expire_shard now cfg k [] h = refl
lookup-expire_shard now cfg k ((j, f) ∷ m) (g, h) =
    ground (arith, key_eq.beq_iff j k, lookup-expire_shard now cfg k m h, ap (λ x. lookup x m))

pub length-expire_shard :
    (now : ℕ) (cfg : Config) (m : Assoc FlowKey Flow)
    → let (rest, n) = expire_shard now cfg m in length rest + n ≡ length m
unfolding expire_shard
length-expire_shard now cfg [] = refl
length-expire_shard now cfg ((j, f) ∷ m) = ground (arith, length-expire_shard now cfg m)

pub expire_shard-IsMap :
    (now : ℕ) (cfg : Config) (m : Assoc FlowKey Flow) → IsMap m → IsMap (expire_shard now cfg m).0
unfolding expire_shard
expire_shard-IsMap now cfg [] h = tt
expire_shard-IsMap now cfg ((j, f) ∷ m) (g, h) =
    ground (arith, expire_shard-IsMap now cfg m h, lookup-expire_shard now cfg j m h)
