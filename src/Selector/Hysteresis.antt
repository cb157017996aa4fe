-- ===== src/Selector/Hysteresis.antt =====
-- When `Tick` of internal/nodecore/multirelay/selector.go switches.
use Prim.Native.String.{String}
use mathlib.Core.List.{Memᴰ}
use corelink.Prelude.{ℕ, ◌+◌, ◌≤◌, ◌<◌, ◌≡◌, ◌≢◌, ◌⊎◌, Bool, true, false, List, Option, none, some}
use corelink.Selector.{Relay, Selector, Switch, best_of, probe_current, candidate_by_id}
use corelink.Selector.Rounds.{IsDecision}

-- The answer of the current relay and the best of the others in a round.
abbrev pub answer_of : (Relay → Option ℕ) → Selector → Option ℕ
answer_of probe s = probe_current probe (candidate_by_id s.current s.candidates)

abbrev pub best_other : (Relay → Option ℕ) → Selector → String × ℕ
best_other probe s = best_of probe s.current s.candidates ("", 0)

-- An answer of a candidate other than the current relay, or none.
abbrev pub IsAnswer : (Relay → Option ℕ) → String → List Relay → String × ℕ → Type 0
IsAnswer probe cur rs (id, rtt) =
    (id ≡ "") ⊎ ((r : Relay) × Memᴰ r rs × (r.relay_id ≡ id) × (id ≢ cur) × (probe r ≡ some rtt))

-- The last round is as long ago as set.
abbrev pub IsOver : Selector → ℕ → Type 0
IsOver s now =
    (s.last_probe ≡ none)
    ⊎ ((at : ℕ) × (s.last_probe ≡ some at) × (at + s.cfg.probe_interval ≤ now))

-- What a call of `Tick` does.
pub data IsTick (now : ℕ) (probe : Relay → Option ℕ) (s : Selector)
    : Bool × Option Switch × Selector → Type 0 where
  early :
      (at : ℕ)
      → s.last_probe ≡ some at
      → now < at + s.cfg.probe_interval
      → IsTick now probe s (false, none, s)
  detached :
      IsOver s now
      → s.current ≡ ""
      → IsTick now probe s (true, none, record s { last_probe = some now })
  round :
      {change : Option Switch} {t : Selector}
      → IsOver s now
      → s.current ≢ ""
      → IsAnswer probe s.current s.candidates (best_other probe s)
      → IsDecision
          (record s { last_probe = some now })
          (answer_of probe s)
          (best_other probe s).0
          (best_other probe s).1
          change
          t
      → IsTick now probe s (true, change, t)
