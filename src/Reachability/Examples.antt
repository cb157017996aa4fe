-- ===== src/Reachability/Examples.antt =====
-- Runs of internal/nodecore/connpool/reachability.go at fixed inputs.
use Prim.Native.String.{String}
use corelink.Prelude.{
  ◌≡◌, refl, ◌-◌, ◌*◌, ◌^◌, ◌<◌, ◌≤◌, Bool, true, false, some, [], ◌∷◌, leb, if◌then◌else◌, arith,
}
use corelink.Prelude.Assoc.{lookup, insert, ◌=?◌, string_eq}
use corelink.Reachability.{
  second, backoff_init, backoff_max, ReachState, Reachability, new_reachability, state_of,
  should_dial, set_state, capped, at_least_init, check_and_dial, mark_reachable, mark_unreachable,
}
use corelink.Reachability.Backoff.{Reached, backoff-bounds, should_dial-returns}
use corelink.Reachability.Failures.{
  fail_at, check_and_dial_lem, should_dial-mark_unreachable, fail_at-mark_reachable,
}

abbrev hop : String
hop = "192.0.2.1:443"

abbrev closed : String → Bool
closed addr = false

-- One failed ping at 10 seconds.
abbrev failed_once : Reachability
failed_once = (check_and_dial closed hop (10 * second) new_reachability).0

failed_once-Reached : Reached failed_once
failed_once-Reached = Reached.by_check closed hop (10 * second) Reached.start

abbrev after_one : ReachState
after_one = record { reachable = false; last_check = 10 * second; backoff = 4 * second }

failed_once-lookup : lookup hop failed_once.states ≡ some after_one
unfolding check_and_dial set_state state_of capped new_reachability lookup insert
failed_once-lookup = refl

backoff-bounds_example :
    (backoff_init ≤ 4 * second)
    × (4 * second ≤ backoff_max)
    × (4 * second * 2 < 9223372036854775807)
backoff-bounds_example = backoff-bounds hop after_one failed_once-Reached failed_once-lookup

should_dial-returns_run : should_dial hop (310 * second) failed_once ≡ true
should_dial-returns_run =
    should_dial-returns hop after_one (310 * second) failed_once-Reached failed_once-lookup
      (omega arith)

check_and_dial_lem_example : check_and_dial closed hop (20 * second) failed_once ≡ (
    if closed hop
    then (mark_reachable hop (20 * second) failed_once, true)
    else (mark_unreachable hop (20 * second) failed_once, false))
check_and_dial_lem_example = check_and_dial_lem closed hop (20 * second) failed_once-Reached

should_dial-mark_unreachable_example :
    should_dial hop (27 * second) (mark_unreachable hop (20 * second) failed_once) ≡ (
      if hop =? hop
      then leb (capped ((state_of hop failed_once).backoff * 2)) (27 * second - 20 * second)
      else should_dial hop (27 * second) failed_once)
should_dial-mark_unreachable_example =
    should_dial-mark_unreachable hop hop (20 * second) (27 * second) failed_once-Reached

-- Eight seconds have not passed.
should_dial-too_early :
    should_dial hop (27 * second) (mark_unreachable hop (20 * second) failed_once) ≡ false
unfolding should_dial mark_unreachable check_and_dial set_state state_of capped at_least_init
    new_reachability lookup insert
should_dial-too_early = refl

fail_at-mark_reachable_run :
    (st : ReachState) × (lookup hop
        (fail_at hop (1 ∷ 2 ∷ 3 ∷ []) (mark_reachable hop 0 new_reachability)).states
      ≡ some st)
    × (st.backoff ≡ capped (backoff_init * 2 ^ 3))
fail_at-mark_reachable_run = fail_at-mark_reachable hop 0 (1 ∷ 2 ∷ 3 ∷ []) new_reachability
