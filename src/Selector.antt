-- ===== src/Selector.antt =====
-- internal/nodecore/multirelay/selector.go: the choice of the relay that a node is attached to. The
-- probe is an argument of `tick`: what it yields for each candidate in that round. The ingress of the
-- new relay, which the callbacks pass on, is left out.
pub mod Rounds
pub mod Hysteresis
mod Examples
use Prim.Native.String.{String}
use corelink.Prelude.{
  ℕ, zero, suc, ◌+◌, ◌≡◌, Bool, true, false, not, ◌&&◌, ◌||◌, List, [], ◌∷◌, ltb, leb,
  if◌then◌else◌, Option, none, some,
}
use corelink.Prelude.Assoc.{◌=?◌, string_eq}

pub record Relay : Type 0 where
  pub relay_id : String
  pub priority : ℕ

pub record SelectorConfig : Type 0 where
  pub probe_interval : ℕ
  pub switch_margin : ℕ
  pub switch_streak : ℕ
  pub degrade_streak : ℕ

pub record Selector : Type 0 where
  pub cfg : SelectorConfig
  pub candidates : List Relay
  pub current : String
  pub last_probe : Option ℕ
  pub better_streak : ℕ
  pub better_id : String
  pub degrade_count : ℕ
  pub primary_fail : ℕ

-- `sort.SliceStable` by priority: an element goes behind those of its own priority.
pub place : Relay → List Relay → List Relay
place r [] = r ∷ []
place r (q ∷ qs) =
    let rest = place r qs in if ltb r.priority q.priority then r ∷ q ∷ qs else q ∷ rest

-- The relays seen so far stand sorted in the second list.
pub sort_relays : List Relay → List Relay → List Relay
unfolding place
sort_relays [] sorted = sorted
sort_relays (r ∷ rs) sorted = sort_relays rs (place r sorted)

abbrev pub first_id : List Relay → String
first_id [] = ""
first_id (r ∷ rs) = r.relay_id

-- `if v <= 0 { v = d }`
abbrev pub default_to : ℕ → ℕ → ℕ
default_to zero d = d
default_to (suc v) d = suc v

-- Durations are in nanoseconds, the margin in milliseconds.
pub apply_defaults : SelectorConfig → SelectorConfig
apply_defaults cfg = record {
  probe_interval = default_to cfg.probe_interval 5000000000;
  switch_margin = default_to cfg.switch_margin 30;
  switch_streak = default_to cfg.switch_streak 3;
  degrade_streak = default_to cfg.degrade_streak 2;
}

pub new_selector : SelectorConfig → List Relay → Selector
unfolding sort_relays apply_defaults
new_selector cfg relays =
    let sorted = sort_relays relays [] in
    record {
      cfg = apply_defaults cfg;
      candidates = sorted;
      current = first_id sorted;
      last_probe = none;
      better_streak = 0;
      better_id = "";
      degrade_count = 0;
      primary_fail = 0;
    }

pub report_primary_degraded : Selector → Selector
report_primary_degraded s = record s { degrade_count = suc s.degrade_count }

pub report_primary_healthy : Selector → Selector
report_primary_healthy s = record s { degrade_count = 0 }

pub candidate_by_id : String → List Relay → Option Relay
candidate_by_id id [] = none
candidate_by_id id (r ∷ rs) =
    let rest = candidate_by_id id rs in if r.relay_id =? id then some r else rest

-- The probe of the current relay.
pub probe_current : (Relay → Option ℕ) → Option Relay → Option ℕ
probe_current probe none = none
probe_current probe (some r) = probe r

-- One candidate of the loop; the best so far is an id, "" for none, and its time.
pub consider : String → String × ℕ → Relay → Option ℕ → String × ℕ
consider cur (best_id, best_rtt) r none = (best_id, best_rtt)
consider cur (best_id, best_rtt) r (some rtt) =
    if r.relay_id =? cur
    then (best_id, best_rtt)
    else if best_id =? "" || ltb rtt best_rtt
    then (r.relay_id, rtt)
    else (best_id, best_rtt)

pub best_of : (Relay → Option ℕ) → String → List Relay → String × ℕ → String × ℕ
unfolding consider
best_of probe cur [] best = best
best_of probe cur (r ∷ rs) best = best_of probe cur rs (consider cur best r (probe r))

pub switch_locked : String → Selector → Selector
switch_locked id s = record s {
  current = id;
  better_streak = 0;
  better_id = "";
  degrade_count = 0;
  primary_fail = 0;
}

-- The relay left and the relay taken.
abbrev pub Switch : Type 0
Switch = String × String

-- The part of `Tick` under the second lock: `cur_rtt` is the current relay's time, if it answered.
pub decide_better : Option ℕ → String → ℕ → Selector → Option Switch × Selector
unfolding switch_locked
decide_better none best_id best_rtt s = (none, record s { better_streak = 0; better_id = "" })
decide_better (some cur_rtt) best_id best_rtt s =
    let streak = if s.better_id =? best_id then suc s.better_streak else 1 in
    if not (best_id =? "") && leb (best_rtt + s.cfg.switch_margin) cur_rtt
    then (if leb s.cfg.switch_streak streak
        then (some (s.current, best_id), switch_locked best_id s)
        else (none, record s { better_streak = streak; better_id = best_id }))
    else (none, record s { better_streak = 0; better_id = "" })

abbrev pub answered : Option ℕ → Bool
answered none = false
answered (some rtt) = true

pub decide : Option ℕ → String → ℕ → Selector → Option Switch × Selector
unfolding decide_better
decide cur best_id best_rtt s =
    let t = record s { primary_fail = if answered cur then 0 else suc s.primary_fail } in
    let degraded = leb t.cfg.degrade_streak t.degrade_count in
    let unusable = not (answered cur) && leb t.cfg.degrade_streak t.primary_fail in
    if (degraded || unusable) && not (best_id =? "")
    then (some (t.current, best_id), switch_locked best_id t)
    else decide_better cur best_id best_rtt t

abbrev pub is_early : Option ℕ → ℕ → ℕ → Bool
is_early none interval now = false
is_early (some t) interval now = ltb now (t + interval)

-- `Tick`: whether it probed, the switch that the callbacks report, and the selector after it.
pub tick : ℕ → (Relay → Option ℕ) → Selector → Bool × Option Switch × Selector
unfolding decide best_of probe_current candidate_by_id
tick now probe s =
    if is_early s.last_probe s.cfg.probe_interval now
    then (false, none, s)
    else (let t = record s { last_probe = some now } in
        if t.current =? ""
        then (true, none, t)
        else (let cur = probe_current probe (candidate_by_id t.current t.candidates) in
            let (best_id, best_rtt) = best_of probe t.current t.candidates ("", 0) in
            let (change, u) = decide cur best_id best_rtt t in (true, change, u)))
