-- ===== src/LinkState/Examples.antt =====
-- The state machine of internal/nodecore/probe/linkstate_machine.go on short sequences of results,
-- with whole numbers for float64.
use corelink.Prelude.{ℕ, ◌+◌, ◌-◌, ◌*◌, ◌≡◌, ◌≢◌, refl, true, false, [], ◌∷◌, none, ltb, leb, arith}
use corelink.LinkState.{healthy, down, FloatOps, LinkFsm, LinkFsmConfig}
use corelink.LinkState.Transitions.{Sample, IsRun, run, run-IsRun}
use corelink.LinkState.Dwell.{run-stays_unhealthy}
use corelink.LinkState.Failures.{run-not_down, run-down}

abbrev naturals : FloatOps
naturals = record {
  Float = ℕ;
  of_u32 = λ n. n;
  add = λ a b. a + b;
  sub = λ a b. a - b;
  mul = λ a b. a * b;
  less = ltb;
  at_most = leb;
  zero_float = 0;
  one_float = 1;
  round_u32 = λ n. n;
}

abbrev config : LinkFsmConfig naturals
config = record {
  probe_interval = 5;
  down_confirm = 3;
  t_hold = 45;
  t_recover = 30;
  degrade_loss_permille = 50;
  degrade_rtt_factor = 2;
  recover_loss_permille = 20;
  recover_rtt_factor = 1;
  baseline_ewma_alpha = 1;
}

abbrev link : LinkFsm naturals
link = record {
  cfg = config;
  state = healthy;
  consec_fails = 0;
  base = 10;
  have_baseline = true;
  degrade_since = none;
  recover_since = none;
}

abbrev failure : ℕ → Sample
failure t = record { at = t; rtt = 0; loss = 1000; success = false }

abbrev answer : ℕ → Sample
answer t = record { at = t; rtt = 10; loss = 0; success = true }

healthy-not_down : healthy ≢ down
healthy-not_down e = ground arith

down-not_healthy : down ≢ healthy
down-not_healthy e = ground arith

run-not_down_example :
    (run naturals link (failure 5 ∷ failure 10 ∷ answer 15 ∷ failure 20 ∷ [])).0.state ≢ down
run-not_down_example =
    run-not_down naturals link (failure 5 ∷ failure 10 ∷ answer 15 ∷ failure 20 ∷ [])
      healthy-not_down (omega arith, (omega arith, (omega arith, (omega arith, tt))))

run-down_example : (run naturals link (failure 5 ∷ failure 10 ∷ failure 15 ∷ [])).0.state ≡ down
run-down_example =
    run-down naturals link (failure 5) (failure 10 ∷ failure 15 ∷ []) (refl, (refl, (refl, tt)))
      (omega arith)

run-stays_unhealthy_example :
    (run naturals (record link { state = down }) (answer 5 ∷ answer 20 ∷ answer 34 ∷ [])).0.state
    ≢ healthy
run-stays_unhealthy_example =
    run-stays_unhealthy naturals 5 (record link { state = down })
      (answer 5 ∷ answer 20 ∷ answer 34 ∷ []) down-not_healthy refl
      (omega arith, omega arith, (omega arith, omega arith, (omega arith, omega arith, tt)))

run-IsRun_example :
    let (g, events) = run naturals link (failure 5 ∷ failure 10 ∷ failure 15 ∷ []) in
    IsRun healthy events g.state
run-IsRun_example = run-IsRun naturals link (failure 5 ∷ failure 10 ∷ failure 15 ∷ [])
