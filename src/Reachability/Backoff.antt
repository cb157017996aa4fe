-- ===== src/Reachability/Backoff.antt =====
-- The bounds of the backoff of internal/nodecore/connpool/reachability.go, in every state that its
-- calls lead to.
use Prim.Native.String.{String}
use corelink.Prelude.{
  ℕ, ◌≡◌, ◌+◌, ◌*◌, ◌<◌, ◌≤◌, Bool, true, some, inl, inr, Option-cases, Bool-cases, arith,
}
use corelink.Prelude.Assoc.{lookup, lookup-insert, lookup-erase, string_eq}
use corelink.Reachability.{
  backoff_init, backoff_max, ReachState, Reachability, new_reachability, state_of, should_dial,
  set_state, capped, at_least_init, check_and_dial, mark_reachable, mark_unreachable, remove,
}

-- The states that the calls lead to, whatever the pings answer and the clock says.
pub data Reached : Reachability → Type 0 where
  start : Reached new_reachability
  by_check :
      {r : Reachability} (ping_fn : String → Bool) (addr : String) (now : ℕ)
      → Reached r
      → Reached (check_and_dial ping_fn addr now r).0
  by_success :
      {r : Reachability} (addr : String) (now : ℕ) → Reached r → Reached (mark_reachable addr now r)
  by_failure :
      {r : Reachability} (addr : String) (now : ℕ)
      → Reached r
      → Reached (mark_unreachable addr now r)
  by_remove : {r : Reachability} (addr : String) → Reached r → Reached (remove addr r)

abbrev pub IsBounded : Reachability → Type 0
IsBounded r =
    (addr : String) (st : ReachState)
    → lookup addr r.states ≡ some st
    → (backoff_init ≤ st.backoff) × (st.backoff ≤ backoff_max)

pub state_of-bounds :
    (addr : String) (r : Reachability)
    → IsBounded r
    → (backoff_init ≤ (state_of addr r).backoff) × ((state_of addr r).backoff ≤ backoff_max)
unfolding state_of
state_of-bounds addr r b = elim (Option-cases (lookup addr r.states)) [
  | inl e ↦ rw (e, state_of) (omega arith)
  | inr (st, e) ↦ rw (e, state_of) (b addr st e)
]

set_state-IsBounded :
    (addr : String) (st : ReachState) (r : Reachability)
    → IsBounded r
    → (backoff_init ≤ st.backoff) × (st.backoff ≤ backoff_max)
    → IsBounded (set_state addr st r)
unfolding set_state
set_state-IsBounded addr st r b w =
    λ addr' st' h. ground (arith, lookup-insert addr addr' st r.states, b addr' st', h)

pub Reached-IsBounded : {r : Reachability} → Reached r → IsBounded r
unfolding new_reachability check_and_dial mark_reachable mark_unreachable remove capped
    at_least_init lookup
Reached-IsBounded start = λ addr st h. cc
Reached-IsBounded (by_check {r = r} ping_fn addr now p) =
    let b = Reached-IsBounded p in
    let w = state_of-bounds addr r b in
    elim (Bool-cases (ping_fn addr)) [
      | inl e ↦ rw (e) (set_state-IsBounded addr _ r b (omega arith))
      | inr e ↦ rw (e) (set_state-IsBounded addr _ r b (ground arith))
    ]
Reached-IsBounded (by_success {r = r} addr now p) =
    set_state-IsBounded addr _ r (Reached-IsBounded p) (omega arith)
Reached-IsBounded (by_failure {r = r} addr now p) =
    let b = Reached-IsBounded p in
    let w = state_of-bounds addr r b in set_state-IsBounded addr _ r b (ground arith)
Reached-IsBounded (by_remove {r = r} addr p) =
    let b = Reached-IsBounded p in
    λ addr' st h. b addr' st (ground (arith, lookup-erase addr addr' r.states, h))

-- In every state that the calls lead to, the backoff of every address is between 2 seconds and 5
-- minutes, and its double is below the largest int64.
pub backoff-bounds :
    {r : Reachability} (addr : String) (st : ReachState)
    → Reached r
    → lookup addr r.states ≡ some st
    → (backoff_init ≤ st.backoff)
      × (st.backoff ≤ backoff_max)
      × (st.backoff * 2 < 9223372036854775807)
backoff-bounds addr st p h =
    let w = Reached-IsBounded p addr st h in (w.0, w.1, omega (arith, w.0, w.1))

-- In every state that the calls lead to, an address may be dialled when five minutes have passed
-- since it was last checked.
pub should_dial-returns :
    {r : Reachability} (addr : String) (st : ReachState) (now : ℕ)
    → Reached r
    → lookup addr r.states ≡ some st
    → st.last_check + backoff_max ≤ now
    → should_dial addr now r ≡ true
unfolding should_dial
should_dial-returns {r = r} addr st now p h t =
    let w = Reached-IsBounded p addr st h in rw (h, should_dial) (ground (arith, w))
