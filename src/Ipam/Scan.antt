-- ===== src/Ipam/Scan.antt =====
-- The loop of `Allocate` in internal/controller/ipam/ipam.go finds the lowest free address.
use corelink.Prelude.{
  ℕ, suc, zero, ◌+◌, ◌^◌, ◌≤◌, ◌<◌, ◌≡◌, refl, sym, subst, ◌⊎◌, inl, inr, Bool-cases, Bool, true,
  false, Option, none, some, if◌then◌else◌, arith,
}
use corelink.Ipam.{find_free}

-- What the loop finds from `offset` among `n` offsets.
pub data IsLowestFree (used : ℕ → Bool) (base : ℕ) : ℕ → ℕ → Option ℕ → Type 0 where
  free_at :
      {offset n i : ℕ}
      → offset ≤ i
      → i < offset + n
      → used (base + i) ≡ false
      → ((j : ℕ) → offset ≤ j → j < i → used (base + j) ≡ true)
      → IsLowestFree used base offset n (some (base + i))
  all_used :
      {offset n : ℕ}
      → ((j : ℕ) → offset ≤ j → j < offset + n → used (base + j) ≡ true)
      → IsLowestFree used base offset n none

le_cases : (m n : ℕ) → m ≤ n → (m ≡ n) ⊎ (suc m ≤ n)
le_cases zero zero h = inl refl
le_cases zero (suc n) h = inr (omega arith)
le_cases (suc m) zero h = absurd (omega arith)
le_cases (suc m) (suc n) h = elim (le_cases m n (omega arith)) [
  | inl e ↦ inl (omega arith)
  | inr l ↦ inr (omega arith)
]

-- A statement at `offset` and above it.
from_offset : (P : ℕ → Type 0) (offset j : ℕ) → P offset → (suc offset ≤ j → P j) → offset ≤ j → P j
from_offset P offset j p k h = elim (le_cases offset j h) [ inl e ↦ subst P e p | inr l ↦ k l ]

step_used :
    (used : ℕ → Bool) (base offset n : ℕ) (r : Option ℕ)
    → used (base + offset) ≡ true
    → IsLowestFree used base (suc offset) n r
    → IsLowestFree used base offset (suc n) r
step_used used base offset n r u (free_at {i = i} a b c d) =
    free_at (omega arith) (omega arith) c
      (λ j p q. from_offset (λ j. used (base + j) ≡ true) offset j u (λ l. d j l q) p)
step_used used base offset n r u (all_used d) =
    all_used
      (λ j p q. from_offset (λ j. used (base + j) ≡ true) offset j u (λ l. d j l (omega arith)) p)

find_free_step :
    (used : ℕ → Bool) (n offset base broadcast : ℕ)
    → broadcast < 2 ^ 32
    → base + offset < broadcast
    → find_free (suc n) offset base broadcast used ≡ (
        if used (base + offset)
        then find_free n (suc offset) base broadcast used
        else some (base + offset))
unfolding find_free
find_free_step used n offset base broadcast b h = ground arith

pub find_free-IsLowestFree :
    (used : ℕ → Bool) (n offset base broadcast : ℕ)
    → broadcast < 2 ^ 32
    → (0 < n → base + offset + n ≤ broadcast)
    → IsLowestFree used base offset n (find_free n offset base broadcast used)
unfolding find_free
find_free-IsLowestFree used zero offset base broadcast b h =
    all_used (λ j p q. absurd (omega arith))
find_free-IsLowestFree used (suc n) offset base broadcast b h =
    let k = h (omega arith) in
    let rest = find_free n (suc offset) base broadcast used in
    let stops = λ (u : Bool).
      IsLowestFree used base offset (suc n) (if u then rest else some (base + offset)) in
    subst (IsLowestFree used base offset (suc n))
      (sym (find_free_step used n offset base broadcast b (omega arith)))
      (elim (Bool-cases (used (base + offset))) [
        | inl u ↦ subst stops (sym u) (
            step_used used base offset n rest u
              (find_free-IsLowestFree used n (suc offset) base broadcast b (λ _. omega arith)))
        | inr u ↦
            subst stops (sym u)
              (free_at (omega arith) (omega arith) u (λ j p q. absurd (omega arith)))
      ])
