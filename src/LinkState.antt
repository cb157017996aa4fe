-- ===== src/LinkState.antt =====
-- internal/nodecore/probe/linkstate_machine.go: the state machine of one link. The clock's reading
-- is an argument of `observe`; the zero time is `none`, and durations are not negative. The two
-- float64 operations that decide and smooth are a parameter, since their results only choose
-- branches here.
mod Transitions
mod Dwell
mod Failures
mod Examples
use corelink.Prelude.{
  ℕ, ◌+◌, ◌%◌, ◌≤◌, ◌<◌, ◌≡◌, Bool, true, false, not, ◌&&◌, List, [], ◌∷◌, ltb, leb, if◌then◌else◌,
  Option, none, some, suc,
}

pub data LinkState : Type 0 where
  healthy degraded down : LinkState

pub data FsmEventKind : Type 0 where
  event_down event_degraded event_recovered : FsmEventKind

pub record FsmEvent : Type 0 where
  pub kind : FsmEventKind
  pub rtt_ms : ℕ
  pub loss_permille : ℕ

-- The float64 operations of the source.
pub record FloatOps : Type 1 where
  pub Float : Type 0
  pub of_u32 : ℕ → Float
  pub add : Float → Float → Float
  pub sub : Float → Float → Float
  pub mul : Float → Float → Float
  pub less : Float → Float → Bool
  pub at_most : Float → Float → Bool
  pub zero_float : Float
  pub one_float : Float
  -- `uint32(x + 0.5)`
  pub round_u32 : Float → ℕ

module _ (F : FloatOps) where
  open F use {Float, of_u32, add, sub, mul, less, at_most, zero_float, one_float, round_u32}

  pub record LinkFsmConfig : Type 0 where
    pub probe_interval : ℕ
    pub down_confirm : ℕ
    pub t_hold : ℕ
    pub t_recover : ℕ
    pub degrade_loss_permille : ℕ
    pub degrade_rtt_factor : Float
    pub recover_loss_permille : ℕ
    pub recover_rtt_factor : Float
    pub baseline_ewma_alpha : Float

  pub record LinkFsm : Type 0 where
    pub cfg : LinkFsmConfig
    pub state : LinkState
    pub consec_fails : ℕ
    pub base : Float
    pub have_baseline : Bool
    pub degrade_since : Option ℕ
    pub recover_since : Option ℕ

  pub new_link_fsm : LinkFsmConfig → LinkFsm
  new_link_fsm cfg = record {
    cfg = cfg;
    state = healthy;
    consec_fails = 0;
    base = zero_float;
    have_baseline = false;
    degrade_since = none;
    recover_since = none;
  }

  pub baseline : LinkFsm → ℕ
  baseline f = if not f.have_baseline then 0 else round_u32 f.base

  pub is_down : LinkState → Bool
  is_down down = true
  is_down _ = false

  pub observe_fail : LinkFsm → LinkFsm × List FsmEvent
  unfolding is_down
  observe_fail f =
      let g = record f { consec_fails = suc f.consec_fails; recover_since = none } in
      if is_down g.state
      then (g, [])
      else if leb g.cfg.down_confirm g.consec_fails
      then (
        record g { state = down; degrade_since = none; recover_since = none },
        record { kind = event_down; rtt_ms = 0; loss_permille = 0 } ∷ [],
      )
      else (g, [])

  pub is_degrade_trigger : LinkFsm → ℕ → ℕ → Bool
  is_degrade_trigger f rtt loss =
      if ltb f.cfg.degrade_loss_permille loss
      then true
      else if f.have_baseline && less zero_float f.cfg.degrade_rtt_factor
      then less (mul f.base f.cfg.degrade_rtt_factor) (of_u32 rtt)
      else false

  pub is_recover_trigger : LinkFsm → ℕ → ℕ → Bool
  is_recover_trigger f rtt loss =
      if leb f.cfg.recover_loss_permille loss
      then false
      else if f.have_baseline && less zero_float f.cfg.recover_rtt_factor
      then not (less (mul f.base f.cfg.recover_rtt_factor) (of_u32 rtt))
      else true

  pub update_baseline : LinkFsm → ℕ → LinkFsm
  update_baseline f rtt =
      if at_most f.cfg.baseline_ewma_alpha zero_float
      then f
      else (let a =
            if less one_float f.cfg.baseline_ewma_alpha
            then one_float
            else f.cfg.baseline_ewma_alpha in
          record f { base = add (mul a (of_u32 rtt)) (mul (sub one_float a) f.base) })

  -- `if t.IsZero() { t = now }`
  abbrev pub started : Option ℕ → ℕ → ℕ
  started none now = now
  started (some t) now = t

  pub observe_healthy : ℕ → LinkFsm → ℕ → ℕ → Bool → LinkFsm × List FsmEvent
  observe_healthy now f rtt loss degrade =
      let since = started f.degrade_since now in
      if not degrade
      then (record f { degrade_since = none }, [])
      else if leb (since + f.cfg.t_hold) now
      then (
        record f { state = degraded; degrade_since = none; recover_since = none },
        record { kind = event_degraded; rtt_ms = rtt; loss_permille = loss } ∷ [],
      )
      else (record f { degrade_since = some since }, [])

  pub observe_unhealthy : ℕ → LinkFsm → ℕ → ℕ → Bool → LinkFsm × List FsmEvent
  observe_unhealthy now f rtt loss can_recover =
      let since = started f.recover_since now in
      if not can_recover
      then (record f { recover_since = none }, [])
      else if leb (since + f.cfg.t_recover) now
      then (
        record f {
          state = healthy;
          recover_since = none;
          degrade_since = none;
          base = of_u32 rtt;
          have_baseline = true;
        },
        record { kind = event_recovered; rtt_ms = rtt; loss_permille = loss } ∷ [],
      )
      else (record f { recover_since = some since }, [])

  -- The `switch` of `observeSuccess`.
  pub by_state : LinkState → ℕ → LinkFsm → ℕ → ℕ → Bool → Bool → LinkFsm × List FsmEvent
  unfolding observe_healthy observe_unhealthy
  by_state healthy now f rtt loss degrade can_recover =
      observe_healthy now (if not degrade then update_baseline f rtt else f) rtt loss degrade
  by_state degraded now f rtt loss degrade can_recover =
      observe_unhealthy now f rtt loss can_recover
  by_state down now f rtt loss degrade can_recover = observe_unhealthy now f rtt loss can_recover

  -- The first two statements of `observeSuccess`.
  pub first_sample : LinkFsm → ℕ → LinkFsm
  first_sample f rtt =
      let g = record f { consec_fails = 0 } in
      if not g.have_baseline then record g { base = of_u32 rtt; have_baseline = true } else g

  pub observe_success : ℕ → LinkFsm → ℕ → ℕ → LinkFsm × List FsmEvent
  unfolding first_sample by_state
  observe_success now f rtt loss =
      let h = first_sample f rtt in
      by_state h.state now h rtt loss (is_degrade_trigger h rtt loss)
        (is_recover_trigger h rtt loss)

  pub observe : ℕ → LinkFsm → ℕ → ℕ → Bool → LinkFsm × List FsmEvent
  unfolding observe_fail observe_success
  observe now f rtt loss success =
      if not success then observe_fail f else observe_success now f rtt loss
