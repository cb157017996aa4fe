-- ===== src/LinkState/Transitions.antt =====
-- What one probe result does to a link of internal/nodecore/probe/linkstate_machine.go.
use corelink.Prelude.{ℕ, ◌≡◌, refl, sym, subst, ◌++◌, Bool, true, false, List, [], ◌∷◌, arith}
use corelink.LinkState.{
  LinkState, healthy, degraded, down, FsmEventKind, event_down, event_degraded, event_recovered,
  FsmEvent, FloatOps, LinkFsm, observe, observe_fail, observe_success, observe_healthy, is_down,
  observe_unhealthy, by_state, first_sample, update_baseline, is_degrade_trigger,
  is_recover_trigger,
}

-- The edges that an event reports.
abbrev pub reports : LinkState → FsmEventKind → LinkState → Bool
reports healthy event_down down = true
reports degraded event_down down = true
reports healthy event_degraded degraded = true
reports degraded event_recovered healthy = true
reports down event_recovered healthy = true
reports _ _ _ = false

-- No event and no change of state, or one event for the edge taken.
abbrev pub Explains : LinkState → List FsmEvent → LinkState → Type 0
Explains s [] t = s ≡ t
Explains s (e ∷ []) t = reports s e.kind t ≡ true
Explains s (e ∷ d ∷ es) t = ⊥

-- A probe result with the clock's reading.
pub record Sample : Type 0 where
  pub at : ℕ
  pub rtt : ℕ
  pub loss : ℕ
  pub success : Bool

-- The events lead from one state to the other along edges that they report.
abbrev pub IsRun : LinkState → List FsmEvent → LinkState → Type 0
IsRun s [] t = s ≡ t
IsRun s (e ∷ es) t = (u : LinkState) × (reports s e.kind u ≡ true) × IsRun u es t

module _ (F : FloatOps) where
  observe_fail-Explains :
      (f : LinkFsm F) (s : LinkState)
      → f.state ≡ s
      → let (g, events) = observe_fail F f in Explains f.state events g.state
  unfolding observe_fail is_down
  observe_fail-Explains f healthy p = ground arith
  observe_fail-Explains f degraded p = ground arith
  observe_fail-Explains f down p = ground arith

  by_state-Explains :
      (s : LinkState) (now : ℕ) (f : LinkFsm F) (rtt loss : ℕ) (degrade can_recover : Bool)
      → f.state ≡ s
      → let (g, events) = by_state F s now f rtt loss degrade can_recover in
        Explains f.state events g.state
  unfolding by_state observe_healthy observe_unhealthy update_baseline
  by_state-Explains healthy now f rtt loss degrade can_recover p = ground arith
  by_state-Explains degraded now f rtt loss degrade can_recover p = ground arith
  by_state-Explains down now f rtt loss degrade can_recover p = ground arith

  pub first_sample_keeps :
      (f : LinkFsm F) (rtt : ℕ)
      → let g = first_sample F f rtt in
        (g.state ≡ f.state)
        × (g.consec_fails ≡ 0)
        × (g.cfg ≡ f.cfg)
        × (g.degrade_since ≡ f.degrade_since)
        × (g.recover_since ≡ f.recover_since)
  unfolding first_sample
  first_sample_keeps f rtt = ground arith

  observe_success-Explains :
      (now : ℕ) (f : LinkFsm F) (rtt loss : ℕ)
      → let (g, events) = observe_success F now f rtt loss in Explains f.state events g.state
  unfolding observe_success
  observe_success-Explains now f rtt loss =
      let h = first_sample F f rtt in
      let degrade = is_degrade_trigger F h rtt loss in
      let can_recover = is_recover_trigger F h rtt loss in
      let (g, events) = by_state F h.state now h rtt loss degrade can_recover in
      subst (λ s. Explains s events g.state) (first_sample_keeps f rtt).0
        (by_state-Explains h.state now h rtt loss degrade can_recover refl)

  -- One probe result reports nothing and leaves the state, or reports one event, for the edge it takes.
  pub observe-Explains :
      (now : ℕ) (f : LinkFsm F) (rtt loss : ℕ) (success : Bool)
      → let (g, events) = observe F now f rtt loss success in Explains f.state events g.state
  unfolding observe
  observe-Explains now f rtt loss false = observe_fail-Explains f f.state refl
  observe-Explains now f rtt loss true = observe_success-Explains now f rtt loss

  abbrev pub step : LinkFsm F → Sample → LinkFsm F × List FsmEvent
  step f s = observe F s.at f s.rtt s.loss s.success

  -- The link after a sequence of probe results, with all events reported.
  abbrev pub run : LinkFsm F → List Sample → LinkFsm F × List FsmEvent
  run f [] = (f, [])
  run f (s ∷ ss) = let (g, events) = step f s in let (h, rest) = run g ss in (h, events ++ rest)

  Explains-++ :
      (s t u : LinkState) (es : List FsmEvent) (ds : List FsmEvent)
      → Explains s es t
      → IsRun t ds u
      → IsRun s (es ++ ds) u
  Explains-++ s t u [] ds e d = subst (λ x. IsRun x ds u) (sym e) d
  Explains-++ s t u (e ∷ []) ds p d = (t, p, d)
  Explains-++ s t u (e ∷ d ∷ es) ds p _ = absurd p

  -- The events of a run of results lead from the state before it to the state after it: each change of
  -- state is reported once, by the event for its edge, and no other event is sent.
  pub run-IsRun :
      (f : LinkFsm F) (samples : List Sample)
      → let (g, events) = run f samples in IsRun f.state events g.state
  run-IsRun f [] = refl
  run-IsRun f (s ∷ ss) =
      let (g, events) = step f s in
      let (h, rest) = run g ss in
      Explains-++ f.state g.state h.state events rest
        (observe-Explains s.at f s.rtt s.loss s.success) (run-IsRun g ss)
