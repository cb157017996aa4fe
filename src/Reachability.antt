-- ===== src/Reachability.antt =====
-- internal/nodecore/connpool/reachability.go: which hop addresses may be dialled, with the backoff
-- after failures. Times and durations are nanoseconds; the clock is an argument of every call that
-- reads it, and each call under the lock is one step.
use Prim.Native.String.{String}
use corelink.Prelude.{
  ℕ, ◌≡◌, ◌+◌, ◌-◌, ◌*◌, Bool, true, false, Option, none, some, [], ltb, leb, if◌then◌else◌,
}
use corelink.Prelude.Assoc.{Assoc, lookup, insert, erase, string_eq}
pub mod Backoff
pub mod Failures
mod Examples

abbrev pub second : ℕ
second = 1000000000

abbrev pub backoff_init : ℕ
backoff_init = 2 * second

abbrev pub backoff_max : ℕ
backoff_max = 300 * second

pub record ReachState : Type 0 where
  pub reachable : Bool
  pub last_check : ℕ
  pub backoff : ℕ

pub record Reachability : Type 0 where
  pub states : Assoc String ReachState

unfoldable pub new_reachability : Reachability
new_reachability = record { states = [] }

-- The zero time stands in `last_check` until the caller writes the clock there.
unfoldable pub state_of : String → Reachability → ReachState
state_of addr r = elim (lookup addr r.states) [
  | none ↦ record { reachable = false; last_check = 0; backoff = backoff_init }
  | some st ↦ st
]

unfoldable pub should_dial : String → ℕ → Reachability → Bool
should_dial addr now r = elim (lookup addr r.states) [
  | none ↦ true
  | some st ↦ if st.reachable then true else leb st.backoff (now - st.last_check)
]

unfoldable pub is_reachable : String → Reachability → Bool
is_reachable addr r = elim (lookup addr r.states) [ none ↦ true | some st ↦ st.reachable ]

unfoldable pub set_state : String → ReachState → Reachability → Reachability
set_state addr st r = record { states = insert addr st r.states }

-- A duration is an int64; the doubling stays far below its bound, see `Backoff`.
unfoldable pub capped : ℕ → ℕ
capped d = if ltb backoff_max d then backoff_max else d

unfoldable pub at_least_init : ℕ → ℕ
at_least_init d = if ltb d backoff_init then backoff_init else d

-- The address's state after the call, and the answer of the ping `ping_fn`.
unfoldable pub check_and_dial : (String → Bool) → String → ℕ → Reachability → Reachability × Bool
check_and_dial ping_fn addr now r =
    let st = state_of addr r in
    if ping_fn addr
    then (
      set_state addr (record st { reachable = true; last_check = now; backoff = backoff_init }) r,
      true,
    )
    else (
      set_state addr
          (record { reachable = false; last_check = now; backoff = capped (st.backoff * 2) }) r,
      false,
    )

unfoldable pub mark_reachable : String → ℕ → Reachability → Reachability
mark_reachable addr now r =
    let st = state_of addr r in
    set_state addr (record st { reachable = true; backoff = backoff_init; last_check = now }) r

unfoldable pub mark_unreachable : String → ℕ → Reachability → Reachability
mark_unreachable addr now r =
    let st = state_of addr r in
    let next = capped (at_least_init (st.backoff * 2)) in
    set_state addr (record { reachable = false; last_check = now; backoff = next }) r

unfoldable pub remove : String → Reachability → Reachability
remove addr r = record { states = erase addr r.states }
