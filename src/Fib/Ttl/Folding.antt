-- ===== src/Fib/Ttl/Folding.antt =====
-- The 16-bit arithmetic of `DecrementTTL` in internal/transport/fib/fib.go, by tables of all bytes.
use corelink.Prelude.{
  ℕ, ◌+◌, ◌-◌, ◌*◌, ◌/◌, ◌%◌, ◌<◌, ◌≡◌, refl, Bool, true, ◌&&◌, zero, suc, ltb, ◌==◌, ==_iff,
  if◌then◌else◌, bit_xor, bit_and, arith,
}
use corelink.Fib.Ttl.{new_check}

-- A test of every number under a bound.
holds_under : (ℕ → Bool) → ℕ → Bool
holds_under test zero = true
holds_under test (suc bound) = holds_under test bound && test bound

holds_under-at :
    (test : ℕ → Bool) (bound i : ℕ) → holds_under test bound ≡ true → i < bound → test i ≡ true
unfolding holds_under
holds_under-at test zero i all within = absurd (omega arith)
holds_under-at test (suc bound) i all within = ground (arith, holds_under-at test bound i)

complement_table :
    holds_under
      (λ a. holds_under (λ b. bit_xor 65535 (a * 256 + b) == 65535 - (a * 256 + b)) 256)
      256
    ≡ true
unfolding holds_under
complement_table = refl

complement : (x : ℕ) → x < 65536 → bit_xor 65535 x ≡ 65535 - x
complement x h =
    let row = holds_under-at _ 256 (x / 256) complement_table (omega arith) in
    let cell = holds_under-at _ 256 (x % 256) row (omega arith) in
    let whole : x / 256 * 256 + x % 256 ≡ x = omega arith in rw whole at ((==_iff _ _).0 cell)

carry_table : holds_under (λ r. bit_and (65536 + r) 65535 == r) 256 ≡ true
unfolding holds_under
carry_table = refl

carry : (s : ℕ) → 65535 < s → s < 65792 → bit_and s 65535 ≡ s - 65536
carry s lo hi =
    let cell = holds_under-at _ 256 (s - 65536) carry_table (omega arith) in
    let whole : 65536 + (s - 65536) ≡ s = omega arith in rw whole at ((==_iff _ _).0 cell)

-- The new checksum, as a number: 256 less, with the borrow of one's complement arithmetic.
pub new_check_lem : (c : ℕ) → c < 65536 → new_check c ≡ (if ltb c 256 then c + 65279 else c - 256)
unfolding new_check
new_check_lem c h =
    ground
      (arith, complement c, carry (65535 - c + 256), complement (256 - c), complement (65791 - c))
