-- ===== src/Prelude/Outcome.antt =====
-- What a Go call yields: a value, an error, or a run-time panic (an index out of range, `As4` of
-- an address that is not IPv4). A panic is told apart from an error, so that its absence is a
-- theorem.

use mathlib.Core.Path.{◌≡◌, refl}
use mathlib.Core.Logic.{◌⊎◌, inl, inr}
use mathlib.Core.Bool.{Bool, true, false}
use corelink.Prelude.Tests.{if◌then◌else◌}

pub data Outcome {ℓ κ} (E : Type κ) (A : Type ℓ) : Type (ℓ ⊔ κ) where
  ok : A → Outcome E A
  err : E → Outcome E A
  panic : Outcome E A

infixl 5 ◌>>=◌
abbrev pub ◌>>=◌ {ℓ κ μ} :
    {E : Type μ} {A : Type ℓ} {B : Type κ} → Outcome E A → (A → Outcome E B) → Outcome E B
ok a >>= f = f a
err e >>= f = err e
panic >>= f = panic

infixl 5 ◌>>◌
abbrev pub ◌>>◌ {ℓ κ μ} :
    {E : Type μ} {A : Type ℓ} {B : Type κ} → Outcome E A → Outcome E B → Outcome E B
m >> k = m >>= λ _. k

-- `if test { return err }`
abbrev pub reject_if {κ} : {E : Type κ} → Bool → E → Outcome E (Unit {0})
reject_if true e = err e
reject_if false e = ok tt

pub >>=-eq-ok {ℓ κ μ} :
    {E : Type μ} {A : Type ℓ} {B : Type κ} (first : Outcome E A) (k : A → Outcome E B) {y : B}
    → (first >>= k) ≡ ok y
    → (x : A) × (first ≡ ok x) × (k x ≡ ok y)
>>=-eq-ok (ok x) k done = (x, refl, done)
>>=-eq-ok (err _) k done = cc
>>=-eq-ok panic k done = cc

-- No panic, and what is returned, if anything is, satisfies `P`.
pub data IsSafe {ℓ κ} {E : Type κ} {A : Type ℓ} (P : A → Type 0) : Outcome E A → Type (ℓ ⊔ κ) where
  returns : {a : A} → P a → IsSafe P (ok a)
  fails : {e : E} → IsSafe P (err e)

pub >>=-IsSafe {ℓ κ μ} :
    {E : Type μ} {A : Type ℓ} {B : Type κ} {Q : A → Type 0} {P : B → Type 0} {m : Outcome E A}
    {f : A → Outcome E B}
    → IsSafe Q m
    → ((a : A) → Q a → IsSafe P (f a))
    → IsSafe P (m >>= f)
>>=-IsSafe (returns {a = a} h) k = k a h
>>=-IsSafe fails k = fails

pub reject_if-IsSafe {κ} :
    {E : Type κ} (test : Bool) (e : E) → IsSafe (λ _. test ≡ false) (reject_if test e)
reject_if-IsSafe true e = fails
reject_if-IsSafe false e = returns refl

pub IsSafe-cases {ℓ κ} :
    {E : Type κ} {A : Type ℓ} {P : A → Type 0} {m : Outcome E A}
    → IsSafe P m
    → ((e : E) × (m ≡ err e)) ⊎ ((a : A) × (m ≡ ok a) × P a)
IsSafe-cases (returns {a = a} p) = inr (a, refl, p)
IsSafe-cases (fails {e = e}) = inl (e, refl)

pub if-IsSafe {ℓ κ} :
    {E : Type κ} {A : Type ℓ} {P : A → Type 0} {m n : Outcome E A} (test : Bool)
    → (test ≡ true → IsSafe P m)
    → (test ≡ false → IsSafe P n)
    → IsSafe P (if test then m else n)
if-IsSafe true f g = f refl
if-IsSafe false f g = g refl

pub IsSafe-map {ℓ κ} :
    {E : Type κ} {A : Type ℓ} {P Q : A → Type 0} {m : Outcome E A}
    → IsSafe P m
    → ((a : A) → P a → Q a)
    → IsSafe Q m
IsSafe-map (returns {a = a} h) k = returns (k a h)
IsSafe-map fails k = fails
