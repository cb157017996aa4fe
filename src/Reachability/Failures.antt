-- ===== src/Reachability/Failures.antt =====
-- What failures do to an address of internal/nodecore/connpool/reachability.go.
use Prim.Native.String.{String}
use corelink.Prelude.{
  ℕ, zero, suc, ◌≡◌, refl, subst, ◌+◌, ◌-◌, ◌*◌, ◌^◌, ◌≤◌, Bool, true, false, some, inl, inr, List,
  [], ◌∷◌, length, leb, if◌then◌else◌, Bool-cases, arith,
}
use corelink.Prelude.Assoc.{lookup, lookup-insert, ◌=?◌, string_eq}
use corelink.Reachability.{
  backoff_init, ReachState, Reachability, state_of, should_dial, set_state, capped, at_least_init,
  check_and_dial, mark_reachable, mark_unreachable,
}
use corelink.Reachability.Backoff.{Reached, Reached-IsBounded, state_of-bounds}

keeps_init : (b : ℕ) → backoff_init ≤ b → at_least_init (b * 2) ≡ b * 2
unfolding at_least_init
keeps_init b h = ground arith

-- A failure at each of the times, one after another.
abbrev pub fail_at : String → List ℕ → Reachability → Reachability
fail_at addr [] r = r
fail_at addr (now ∷ times) r = fail_at addr times (mark_unreachable addr now r)

-- In every state that the calls lead to, `check_and_dial` returns the answer of the ping and does to the
-- state what `mark_reachable` does on a yes and `mark_unreachable` on a no.
pub check_and_dial_lem :
    {r : Reachability} (ping_fn : String → Bool) (addr : String) (now : ℕ)
    → Reached r
    → check_and_dial ping_fn addr now r ≡ (
        if ping_fn addr
        then (mark_reachable addr now r, true)
        else (mark_unreachable addr now r, false))
unfolding check_and_dial mark_reachable mark_unreachable at_least_init
check_and_dial_lem {r = r} ping_fn addr now p =
    let w = state_of-bounds addr r (Reached-IsBounded p) in
    elim (Bool-cases (ping_fn addr)) [
      | inl e ↦ rw (e) refl
      | inr e ↦ rw (e) (rw (keeps_init (state_of addr r).backoff w.0) refl)
    ]

-- In every state that the calls lead to, after a failure at `now` the address may be dialled exactly
-- when twice its backoff, at most five minutes, has passed since; the other addresses may be dialled
-- when they could before.
pub should_dial-mark_unreachable :
    {r : Reachability} (addr other : String) (now later : ℕ)
    → Reached r
    → should_dial other later (mark_unreachable addr now r) ≡ (
        if addr =? other
        then leb (capped ((state_of addr r).backoff * 2)) (later - now)
        else should_dial other later r)
unfolding should_dial mark_unreachable set_state
should_dial-mark_unreachable {r = r} addr other now later p =
    let w = state_of-bounds addr r (Reached-IsBounded p) in
    let failed : ReachState = record {
      reachable = false;
      last_check = now;
      backoff = capped (at_least_init ((state_of addr r).backoff * 2));
    } in
    elim (Bool-cases (addr =? other)) [
      | inl e ↦ ground (
        arith,
        e,
        lookup-insert addr other failed r.states,
        keeps_init (state_of addr r).backoff w.0,
      )
      | inr e ↦ ground (arith, e, lookup-insert addr other failed r.states)
    ]

doubled :
    (b x : ℕ) → backoff_init ≤ x → b ≡ capped x → capped (at_least_init (b * 2)) ≡ capped (x * 2)
unfolding at_least_init capped
doubled b x h e = ground (arith, h, e)

init_le : (n : ℕ) → backoff_init ≤ backoff_init * 2 ^ n
init_le zero = omega arith
init_le (suc n) = let p : 2 ^ suc n ≡ 2 * 2 ^ n = omega arith in omega (arith, init_le n, p)

backoff-fail_at :
    (addr : String) (times : List ℕ) (n : ℕ) (st : ReachState) (r : Reachability)
    → lookup addr r.states ≡ some st
    → st.backoff ≡ capped (backoff_init * 2 ^ n)
    → (st' : ReachState) × (lookup addr (fail_at addr times r).states ≡ some st')
      × (st'.backoff ≡ capped (backoff_init * 2 ^ (n + length times)))
unfolding mark_unreachable set_state state_of
backoff-fail_at addr [] n st r h e = let z : n + 0 ≡ n = omega arith in rw z (st, h, e)
backoff-fail_at addr (now ∷ times) n st r h e =
    let z : n + suc (length times) ≡ suc n + length times = omega arith in
    let here : state_of addr r ≡ st = rw (h, state_of) refl in
    let p : backoff_init * 2 ^ suc n ≡ backoff_init * 2 ^ n * 2 = omega arith in
    let failed : ReachState = record {
      reachable = false;
      last_check = now;
      backoff = capped (at_least_init ((state_of addr r).backoff * 2));
    } in
    rw z (
      backoff-fail_at addr times (suc n) failed (mark_unreachable addr now r)
        (ground (arith, lookup-insert addr addr failed r.states, string_eq.beq_iff addr addr))
        (rw (here, p) (doubled st.backoff (backoff_init * 2 ^ n) (init_le n) e)))

-- After a success and n failures of an address, its backoff is 2 seconds times two to the n, at most
-- five minutes.
pub fail_at-mark_reachable :
    (addr : String) (now : ℕ) (times : List ℕ) (r : Reachability)
    → (st : ReachState) × (lookup addr (fail_at addr times (mark_reachable addr now r)).states
        ≡ some st)
      × (st.backoff ≡ capped (backoff_init * 2 ^ length times))
unfolding mark_reachable set_state capped
fail_at-mark_reachable addr now times r =
    let st : ReachState = record { reachable = true; last_check = now; backoff = backoff_init } in
    let z : 0 + length times ≡ length times = omega arith in
    subst
      (λ k.
        (st' : ReachState) × (lookup addr (fail_at addr times (mark_reachable addr now r)).states
          ≡ some st')
        × (st'.backoff ≡ capped (backoff_init * 2 ^ k)))
      z
      (backoff-fail_at addr times 0 st (mark_reachable addr now r)
        (ground (arith, lookup-insert addr addr st r.states, string_eq.beq_iff addr addr)) refl)
