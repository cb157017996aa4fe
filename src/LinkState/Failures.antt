-- ===== src/LinkState/Failures.antt =====
-- When internal/nodecore/probe/linkstate_machine.go declares a link down: the count of failures.
use corelink.Prelude.{
  ℕ, ◌+◌, ◌≤◌, ◌<◌, ◌≡◌, ◌≢◌, refl, Bool, true, false, List, [], ◌∷◌, suc, arith, length, All,
}
use corelink.LinkState.{
  LinkState, healthy, degraded, down, FloatOps, LinkFsm, observe, observe_fail, observe_success,
  observe_healthy, observe_unhealthy, by_state, first_sample, update_baseline, is_down,
  is_degrade_trigger, is_recover_trigger,
}
use corelink.LinkState.Transitions.{Sample, run, step}

-- The failures in succession after one more result.
abbrev pub fails_after : ℕ → Bool → ℕ
fails_after n true = 0
fails_after n false = suc n

-- Counting on from `n` failures, no `d` failures come in succession.
abbrev pub IsBelow : ℕ → ℕ → List Sample → Type 0
IsBelow d n [] = Unit
IsBelow d n (s ∷ ss) = let m = fails_after n s.success in (m < d) × IsBelow d m ss

module _ (F : FloatOps) where
  -- What the failure count and the confirmation threshold say of a link that is not down.
  abbrev pub IsUp : ℕ → ℕ → LinkFsm F → Type 0
  IsUp d n f = (f.state ≢ down) × (f.consec_fails ≡ n) × (f.cfg.down_confirm ≡ d)

  by_state-IsUp :
      (st : LinkState) (d n now : ℕ) (f : LinkFsm F) (rtt loss : ℕ) (degrade can_recover : Bool)
      → f.state ≡ st
      → IsUp d n f
      → IsUp d n (by_state F st now f rtt loss degrade can_recover).0
  unfolding by_state observe_healthy observe_unhealthy update_baseline
  by_state-IsUp healthy d n now f rtt loss degrade can_recover e w = ground arith
  by_state-IsUp degraded d n now f rtt loss degrade can_recover e w = ground arith
  by_state-IsUp down d n now f rtt loss degrade can_recover e (p, w, v) = absurd (p e)

  first_sample-IsUp :
      (d n : ℕ) (f : LinkFsm F) (rtt : ℕ) → IsUp d n f → IsUp d 0 (first_sample F f rtt)
  unfolding first_sample
  first_sample-IsUp d n f rtt w = ground arith

  observe_fail-IsUp :
      (d n : ℕ) (f : LinkFsm F) → suc n < d → IsUp d n f → IsUp d (suc n) (observe_fail F f).0
  unfolding observe_fail is_down
  observe_fail-IsUp d n f b w = ground arith

  observe-IsUp :
      (d n now : ℕ) (f : LinkFsm F) (rtt loss : ℕ) (success : Bool)
      → fails_after n success < d
      → IsUp d n f
      → IsUp d (fails_after n success) (observe F now f rtt loss success).0
  unfolding observe observe_success
  observe-IsUp d n now f rtt loss false b w = observe_fail-IsUp d n f b w
  observe-IsUp d n now f rtt loss true b w =
      let h = first_sample F f rtt in
      by_state-IsUp h.state d 0 now h rtt loss (is_degrade_trigger F h rtt loss)
        (is_recover_trigger F h rtt loss) refl (first_sample-IsUp d n f rtt w)

  run-IsUp :
      (d n : ℕ) (f : LinkFsm F) (ss : List Sample)
      → IsBelow d n ss
      → IsUp d n f
      → (run F f ss).0.state ≢ down
  run-IsUp d n f [] i w = w.0
  run-IsUp d n f (s ∷ ss) (b, i) w =
      run-IsUp d (fails_after n s.success) (step F f s).0 ss i
        (observe-IsUp d n s.at f s.rtt s.loss s.success b w)

  -- A link that is not down does not go down while fewer failures than the threshold come in
  -- succession, the failures before the first result included.
  pub run-not_down :
      (f : LinkFsm F) (samples : List Sample)
      → f.state ≢ down
      → IsBelow f.cfg.down_confirm f.consec_fails samples
      → (run F f samples).0.state ≢ down
  run-not_down f samples p i =
      run-IsUp f.cfg.down_confirm f.consec_fails f samples i (p, refl, refl)

  abbrev pub HasFailed : Sample → Type 0
  HasFailed s = s.success ≡ false

  step_reaches :
      (f : LinkFsm F) (s : Sample)
      → HasFailed s
      → let g = (step F f s).0 in
        (g.consec_fails ≡ suc f.consec_fails)
        × (g.cfg.down_confirm ≡ f.cfg.down_confirm)
        × (f.cfg.down_confirm ≤ g.consec_fails → g.state ≡ down)
  unfolding observe observe_fail is_down
  step_reaches f s e = ground arith

  -- Failures alone take any link down, once the threshold is reached by the failures counted before
  -- and the failures of the sequence together; one failure at least is in the sequence.
  pub run-down :
      (f : LinkFsm F) (s : Sample) (ss : List Sample)
      → All HasFailed (s ∷ ss)
      → f.cfg.down_confirm ≤ f.consec_fails + length (s ∷ ss)
      → (run F f (s ∷ ss)).0.state ≡ down
  run-down f s [] (p, q) b = let (c, k, r) = step_reaches f s p in r (omega arith)
  run-down f s (u ∷ us) (p, q) b =
      let (c, k, r) = step_reaches f s p in run-down (step F f s).0 u us q (omega arith)
