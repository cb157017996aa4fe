-- ===== src/LinkState/Dwell.antt =====
-- The hold times and the failure count of internal/nodecore/probe/linkstate_machine.go over whole
-- sequences of probe results: what damps the flapping of a link.
use corelink.Prelude.{
  ℕ, ◌+◌, ◌≤◌, ◌<◌, ◌≡◌, ◌≢◌, refl, sym, subst, Bool, true, false, List, [], ◌∷◌, Option, none,
  some, arith,
}
use corelink.LinkState.{
  LinkState, healthy, degraded, down, FloatOps, LinkFsm, observe, observe_fail, observe_success,
  observe_unhealthy, by_state, first_sample, is_down, is_degrade_trigger, is_recover_trigger,
}
use corelink.LinkState.Transitions.{Sample, run, step}

-- The timer is off or was started at `t0` or later.
abbrev pub IsAfter : ℕ → Option ℕ → Type 0
IsAfter t0 none = Unit
IsAfter t0 (some s) = t0 ≤ s

-- The readings lie within `hold` of `t0`.
abbrev pub IsWithin : ℕ → ℕ → List Sample → Type 0
IsWithin t0 hold [] = Unit
IsWithin t0 hold (s ∷ ss) = (t0 ≤ s.at) × (s.at < t0 + hold) × IsWithin t0 hold ss

module _ (F : FloatOps) where
  -- An unhealthy link whose recovery, if it has begun, began at `t0` or later.
  abbrev pub IsRecovering : ℕ → ℕ → LinkFsm F → Type 0
  IsRecovering t0 hold f =
      (f.state ≢ healthy) × IsAfter t0 f.recover_since × (f.cfg.t_recover ≡ hold)

  observe_fail-IsRecovering :
      (t0 hold : ℕ) (f : LinkFsm F)
      → IsRecovering t0 hold f
      → IsRecovering t0 hold (observe_fail F f).0
  unfolding observe_fail is_down
  observe_fail-IsRecovering t0 hold f (p, q, r) = ground arith

  observe_unhealthy-IsRecovering :
      (t0 hold now : ℕ) (f : LinkFsm F) (rtt loss : ℕ) (can_recover : Bool) (since : Option ℕ)
      → f.recover_since ≡ since
      → t0 ≤ now
      → now < t0 + hold
      → IsRecovering t0 hold f
      → IsRecovering t0 hold (observe_unhealthy F now f rtt loss can_recover).0
  unfolding observe_unhealthy
  observe_unhealthy-IsRecovering t0 hold now f rtt loss can_recover none e a b (p, q, r) =
      ground arith
  observe_unhealthy-IsRecovering t0 hold now f rtt loss can_recover (some s) e a b (p, q, r) =
      ground arith

  by_state-IsRecovering :
      (st : LinkState) (t0 hold now : ℕ) (f : LinkFsm F) (rtt loss : ℕ) (degrade can_recover : Bool)
      → f.state ≡ st
      → t0 ≤ now
      → now < t0 + hold
      → IsRecovering t0 hold f
      → IsRecovering t0 hold (by_state F st now f rtt loss degrade can_recover).0
  unfolding by_state
  by_state-IsRecovering healthy t0 hold now f rtt loss degrade can_recover e a b (p, q, r) =
      absurd (p e)
  by_state-IsRecovering degraded t0 hold now f rtt loss degrade can_recover e a b w =
      observe_unhealthy-IsRecovering t0 hold now f rtt loss can_recover f.recover_since refl a b w
  by_state-IsRecovering down t0 hold now f rtt loss degrade can_recover e a b w =
      observe_unhealthy-IsRecovering t0 hold now f rtt loss can_recover f.recover_since refl a b w

  first_sample-IsRecovering :
      (t0 hold : ℕ) (f : LinkFsm F) (rtt : ℕ)
      → IsRecovering t0 hold f
      → IsRecovering t0 hold (first_sample F f rtt)
  unfolding first_sample
  first_sample-IsRecovering t0 hold f rtt w = ground arith

  observe-IsRecovering :
      (t0 hold now : ℕ) (f : LinkFsm F) (rtt loss : ℕ) (success : Bool)
      → t0 ≤ now
      → now < t0 + hold
      → IsRecovering t0 hold f
      → IsRecovering t0 hold (observe F now f rtt loss success).0
  unfolding observe observe_success
  observe-IsRecovering t0 hold now f rtt loss false a b w = observe_fail-IsRecovering t0 hold f w
  observe-IsRecovering t0 hold now f rtt loss true a b w =
      let h = first_sample F f rtt in
      by_state-IsRecovering h.state t0 hold now h rtt loss (is_degrade_trigger F h rtt loss)
        (is_recover_trigger F h rtt loss) refl a b (first_sample-IsRecovering t0 hold f rtt w)

  run-IsRecovering :
      (t0 hold : ℕ) (f : LinkFsm F) (samples : List Sample)
      → IsWithin t0 hold samples
      → IsRecovering t0 hold f
      → IsRecovering t0 hold (run F f samples).0
  run-IsRecovering t0 hold f [] i w = w
  run-IsRecovering t0 hold f (s ∷ ss) (a, b, i) w =
      run-IsRecovering t0 hold (step F f s).0 ss i
        (observe-IsRecovering t0 hold s.at f s.rtt s.loss s.success a b w)

  -- A degraded or down link whose recovery timer is off stays degraded or down through all results whose
  -- times are at least `t0` and less than `t0` plus the recovery time, whatever the results say.
  pub run-stays_unhealthy :
      (t0 : ℕ) (f : LinkFsm F) (samples : List Sample)
      → f.state ≢ healthy
      → f.recover_since ≡ none
      → IsWithin t0 f.cfg.t_recover samples
      → (run F f samples).0.state ≢ healthy
  run-stays_unhealthy t0 f samples p e i =
      (run-IsRecovering t0 f.cfg.t_recover f samples i (p, subst (IsAfter t0) (sym e) tt, refl)).0
