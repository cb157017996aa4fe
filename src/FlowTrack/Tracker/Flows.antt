-- ===== src/FlowTrack/Tracker/Flows.antt =====
-- What `Track` and `Expire` of internal/nodecore/flowtrack/tracker.go do to the flow of every key.
use corelink.Prelude.{
  ℕ, ◌+◌, ◌%◌, ◌<◌, ◌≤◌, ◌≡◌, ◌≢◌, refl, sym, subst, Bool, true, false, List, [], length, Option,
  none, some, arith, leb, inl, inr, ap, ◌∙◌, ◌==◌, ==_iff, Bool-cases,
}
use corelink.Prelude.Assoc.{lookup, insert, lookup-insert}
use corelink.FlowTrack.Packet.{FlowKey, hash}
use corelink.FlowTrack.Packet.Parsing.{key_eq}
use corelink.FlowTrack.Tracker.{
  Flow, Tracker, flow_new, shard_at, set_shard, touched, new_flow, track_found, shard_of, track_key,
}
use corelink.FlowTrack.Tracker.Shards.{
  Shards, length-set_shard, shard_at-set_shard, shard_at-set_shard_other,
}
use corelink.FlowTrack.Tracker.Invariant.{IsTracker, shard_of-lt, find}

abbrev written : Shards → ℕ → FlowKey → Flow → Shards
written ms i key g = set_shard ms i (insert key g (shard_at ms i))

lookup-written :
    (ms : Shards) (i : ℕ) (key : FlowKey) (g : Flow)
    → i < length ms
    → lookup key (shard_at (written ms i key g) i) ≡ some g
lookup-written ms i key g h =
    subst (λ m. lookup key m ≡ some g)
      (sym (shard_at-set_shard ms i (insert key g (shard_at ms i)) h))
      (ground (arith, lookup-insert key key g (shard_at ms i), key_eq.beq_iff key key))

lookup-written_other :
    (ms : Shards) (i l : ℕ) (key j : FlowKey) (g : Flow)
    → i < length ms
    → j ≢ key
    → lookup j (shard_at (written ms i key g) l) ≡ lookup j (shard_at ms l)
lookup-written_other ms i l key j g h d = elim (Bool-cases (i == l)) [
  | inl e ↦
      let s = (==_iff i l).0 e in
      subst (λ l. lookup j (shard_at (written ms i key g) l) ≡ lookup j (shard_at ms l)) s
        (subst (λ m. lookup j m ≡ lookup j (shard_at ms i))
          (sym (shard_at-set_shard ms i (insert key g (shard_at ms i)) h))
          (ground (arith, lookup-insert key j g (shard_at ms i), key_eq.beq_iff key j)))
  | inr e ↦ ap (lookup j) (
      shard_at-set_shard_other ms i l (insert key g (shard_at ms i))
        (λ s. ground (arith, ==_iff i l)))
]

-- A flow after one more packet of `n` bytes: its counters of 64 bits wrap round, the rest stays.
pub record IsTouched (now n : ℕ) (f g : Flow) : Type 0 where
  pub last_seen : g.last_seen ≡ now
  pub bytes : g.bytes ≡ (f.bytes + n) % 18446744073709551616
  pub packets : g.packets ≡ (f.packets + 1) % 18446744073709551616
  pub key : g.key ≡ f.key
  pub state : g.state ≡ f.state
  pub next_hop : g.next_hop ≡ f.next_hop
  pub conn_id : g.conn_id ≡ f.conn_id
  pub created_at : g.created_at ≡ f.created_at
  pub dpi : (g.dpi_buf ≡ f.dpi_buf) × (g.dpi_done ≡ f.dpi_done) × (g.bytes_total ≡ f.bytes_total)

-- A flow of which one packet is known.
pub record IsNew (now n : ℕ) (key : FlowKey) (g : Flow) : Type 0 where
  pub own_key : g.key ≡ key
  pub state : g.state ≡ flow_new
  pub times : (g.created_at ≡ now) × (g.last_seen ≡ now)
  pub counters : (g.bytes ≡ n) × (g.packets ≡ 1)
  pub unrouted : (g.next_hop ≡ []) × (g.conn_id ≡ 0)
  pub dpi : (g.dpi_buf ≡ []) × (g.dpi_done ≡ false) × (g.bytes_total ≡ 0)

-- What `Track` returns for a key: the flow and whether it is new, by the flow known and the table's count.
pub data IsTracked (now n : ℕ) (key : FlowKey) (t : Tracker)
    : Option Flow → Option Flow × Bool → Type 0 where
  known : {f g : Flow} → IsTouched now n f g → IsTracked now n key t (some f) (some g, false)
  made :
      {g : Flow}
      → t.total_flows < t.cfg.max_flows
      → IsNew now n key g
      → IsTracked now n key t none (some g, true)
  full : t.cfg.max_flows ≤ t.total_flows → IsTracked now n key t none (none, false)

touched-IsTouched : (now n : ℕ) (f : Flow) → IsTouched now n f (touched now n f)
unfolding touched
touched-IsTouched now n f = record {
  last_seen = refl;
  bytes = refl;
  packets = refl;
  key = refl;
  state = refl;
  next_hop = refl;
  conn_id = refl;
  created_at = refl;
  dpi = (refl, refl, refl);
}

new_flow-IsNew : (now n : ℕ) (key : FlowKey) → IsNew now n key (new_flow now n key)
unfolding new_flow
new_flow-IsNew now n key = record {
  own_key = refl;
  state = refl;
  times = (refl, refl);
  counters = (refl, refl);
  unrouted = (refl, refl);
  dpi = (refl, refl, refl);
}

module _ (fnv64a : List ℕ → ℕ) where
  find-written :
      (t : Tracker) (key j : FlowKey) (g : Flow) (sum : ℕ)
      → let ms = written t.shards (shard_of fnv64a t key) key g in
        find fnv64a (record t { shards = ms; total_flows = sum }) j
        ≡ lookup j (shard_at ms (shard_of fnv64a t j))
  unfolding shard_of
  find-written t key j g sum =
      let i = hash fnv64a key % length t.shards in
      let ms = written t.shards i key g in
      ap (λ n. lookup j (shard_at ms (hash fnv64a j % n)))
        (length-set_shard t.shards i (insert key g (shard_at t.shards i)))

  -- The table after the flow of a key is written.
  abbrev pub IsWritten : Tracker → Tracker → FlowKey → Option Flow → Type 0
  IsWritten t u key flow =
      (find fnv64a u key ≡ flow) × ((j : FlowKey) → j ≢ key → find fnv64a u j ≡ find fnv64a t j)

  written-IsWritten :
      (t : Tracker) (key : FlowKey) (g : Flow) (sum : ℕ)
      → 0 < length t.shards
      → IsWritten t
          (record t { shards = written t.shards (shard_of fnv64a t key) key g; total_flows = sum })
          key
          (some g)
  written-IsWritten t key g sum p =
      let i = shard_of fnv64a t key in
      let b = shard_of-lt fnv64a t key p in
      (
        find-written t key key g sum ∙ lookup-written t.shards i key g b,
        λ j d.
            find-written t key j g sum
            ∙ lookup-written_other t.shards i (shard_of fnv64a t j) key j g b d,
      )

  track_found_finds :
      (now n : ℕ) (key : FlowKey) (t : Tracker) (o : Option Flow)
      → find fnv64a t key ≡ o
      → 0 < length t.shards
      → let (answer, u) = track_found now n key (shard_of fnv64a t key) t o in
        IsTracked now n key t o answer × IsWritten t u key answer.0
  unfolding track_found
  track_found_finds now n key t (some f) e p = (
    IsTracked.known (touched-IsTouched now n f),
    written-IsWritten t key (touched now n f) t.total_flows p,
  )
  track_found_finds now n key t none e p = elim (Bool-cases (leb t.cfg.max_flows t.total_flows)) [
    | inl q ↦ rw (track_found, q) (IsTracked.full (ground arith), (e, λ j d. refl))
    | inr q ↦
        rw (track_found, q)
          (
            IsTracked.made (ground arith) (new_flow-IsNew now n key),
            written-IsWritten t key (new_flow now n key) (t.total_flows + 1) p,
          )
  ]

  -- One packet of a key, on a well-formed table. A flow that the table has gets the time, the packet and
  -- its bytes added to its 64-bit counters, and is otherwise unchanged; a key without a flow gets a fresh
  -- one of one packet if the table holds fewer flows than the limit, and none else. The call returns that
  -- flow and whether it is fresh; the table then has it under the key, and the flows of all other keys stay.
  pub track_key_finds :
      (now n : ℕ) (key : FlowKey) (t : Tracker)
      → IsTracker t
      → let (answer, u) = track_key fnv64a now n key t in
        IsTracked now n key t (find fnv64a t key) answer × IsWritten t u key answer.0
  unfolding track_key
  track_key_finds now n key t (c, m, p, q) =
      track_found_finds now n key t (find fnv64a t key) refl p
