-- ===== src/Prelude/Bytes.antt =====
-- Byte strings as lists of numbers: Go's indexing and slicing with their bounds checks, and
-- encoding/binary's big-endian words.
use Prim.Native.Nat.{ℕ, zero, suc, ◌+◌, ◌-◌, ◌*◌, ◌/◌, ◌%◌, ◌≤◌, ◌<◌}
use mathlib.Core.Path.{◌≡◌, ap, ◌∙◌}
use mathlib.Core.Bool.{◌&&◌}
use mathlib.Core.Option.{none, some}
use mathlib.Core.List.{List, [], ◌∷◌, ◌++◌}
use native.Mathlib.Omega.{arith}
use corelink.Prelude.Tests.{if◌then◌else◌, leb, le→leb}
use corelink.Prelude.Lists.{
  length, take, drop, get_elem?, length-take, length-drop, length-append, take-append, drop-append,
  drop-add,
}
use corelink.Prelude.Outcome.{IsSafe, returns, Outcome, ok, panic, ◌>>=◌}

abbrev pub IsByte : ℕ → Type 0
IsByte b = b < 256

-- The most significant byte first.
abbrev pub be_from : ℕ → List ℕ → ℕ
be_from acc [] = acc
be_from acc (b ∷ bs) = be_from (acc * 256 + b) bs

abbrev pub be : List ℕ → ℕ
be = be_from 0

abbrev pub put_u16 : ℕ → List ℕ
put_u16 n = (n / 256 % 256) ∷ (n % 256) ∷ []

abbrev pub put_u32 : ℕ → List ℕ
put_u32 n = (n / 16777216 % 256) ∷ (n / 65536 % 256) ∷ (n / 256 % 256) ∷ (n % 256) ∷ []

abbrev pub put_u64 : ℕ → List ℕ
put_u64 n = put_u32 (n / 4294967296) ++ put_u32 n

pub be-put_u16 : (n : ℕ) → n < 65536 → be (put_u16 n) ≡ n
be-put_u16 n h = omega arith

pub be-put_u32 : (n : ℕ) → n < 4294967296 → be (put_u32 n) ≡ n
be-put_u32 n h = omega arith

pub be-low : (n : ℕ) → be (put_u32 n) ≡ n % 4294967296
be-low n = omega arith

be-put_u64_split :
    (n : ℕ) → be (put_u64 n) ≡ be (put_u32 (n / 4294967296)) * 4294967296 + be (put_u32 n)
be-put_u64_split n = omega arith

pub be-put_u64 : (n : ℕ) → n < 18446744073709551616 → be (put_u64 n) ≡ n
be-put_u64 n h = be-put_u64_split n ∙ omega (arith, be-low n, be-put_u32 (n / 4294967296))

module _ {κ} {E : Type κ} where
  -- `data[i]`
  unfoldable pub byte_at : List ℕ → ℕ → Outcome E ℕ
  byte_at bs i = elim (get_elem? bs i) [ none ↦ panic | some b ↦ ok b ]

  -- `data[lo:hi]`
  unfoldable pub slice : List ℕ → ℕ → ℕ → Outcome E (List ℕ)
  slice bs lo hi =
      if leb lo hi && leb hi (length bs) then ok (take (hi - lo) (drop lo bs)) else panic

  -- `data[lo:]`
  unfoldable pub slice_from : List ℕ → ℕ → Outcome E (List ℕ)
  slice_from bs lo = if leb lo (length bs) then ok (drop lo bs) else panic

  -- `binary.BigEndian.Uint16(data[lo:])` and its siblings, by their width in bytes.
  unfoldable pub word_at : ℕ → List ℕ → ℕ → Outcome E ℕ
  word_at width bs lo = slice bs lo (lo + width) >>= λ w. ok (be w)

  pub slice_ok :
      (bs : List ℕ) (lo hi : ℕ)
      → lo ≤ hi
      → hi ≤ length bs
      → slice bs lo hi ≡ ok (take (hi - lo) (drop lo bs))
  unfolding slice
  slice_ok bs lo hi h k = rw (le→leb lo hi h, le→leb hi (length bs) k)

  pub slice_from_ok : (bs : List ℕ) (lo : ℕ) → lo ≤ length bs → slice_from bs lo ≡ ok (drop lo bs)
  unfolding slice_from
  slice_from_ok bs lo h = rw (le→leb lo (length bs) h)

  pub word_at_ok :
      (width : ℕ) (bs : List ℕ) (lo : ℕ)
      → lo + width ≤ length bs
      → word_at width bs lo ≡ ok (be (take (lo + width - lo) (drop lo bs)))
  unfolding word_at
  word_at_ok width bs lo h = rw (slice_ok bs lo (lo + width) (omega arith) h)

  -- What stands at an offset: `w`, and then the rest of the string.
  pub slice_at :
      (bs : List ℕ) (lo : ℕ) (x : ℕ) (w rest : List ℕ)
      → drop lo bs ≡ (x ∷ w) ++ rest
      → slice bs lo (lo + length (x ∷ w)) ≡ ok (x ∷ w)
  slice_at bs lo x w rest e =
      let n : lo + length (x ∷ w) - lo ≡ length (x ∷ w) = omega arith in
      let fits : lo + length (x ∷ w) ≤ length bs =
        omega (arith, ap length e, length-drop lo bs, length-append w rest) in
      slice_ok bs lo (lo + length (x ∷ w)) (omega arith) fits
      ∙ rw (n, e) (ap ok (ap (◌∷◌ x) (take-append w rest)))

pub drop_at :
    (bs : List ℕ) (lo : ℕ) (w rest : List ℕ)
    → drop lo bs ≡ w ++ rest
    → drop (lo + length w) bs ≡ rest
drop_at bs lo w rest e = rw (drop-add lo (length w) bs, e) (drop-append w rest)

pub drop_past_u32 :
    (bs : List ℕ) (lo n : ℕ) (rest : List ℕ)
    → drop lo bs ≡ put_u32 n ++ rest
    → drop (lo + 4) bs ≡ rest
drop_past_u32 bs lo n rest e = drop_at bs lo (put_u32 n) rest e

module _ {κ} {E : Type κ} where
  pub slice_u32 :
      (bs : List ℕ) (lo n : ℕ) (rest : List ℕ)
      → drop lo bs ≡ put_u32 n ++ rest
      → slice {E = E} bs lo (lo + 4) ≡ ok (put_u32 n)
  slice_u32 bs lo n rest e =
      slice_at bs lo _ ((n / 65536 % 256) ∷ (n / 256 % 256) ∷ (n % 256) ∷ []) rest e

  pub word_at_u16 :
      (bs : List ℕ) (lo n : ℕ) (rest : List ℕ)
      → n < 65536
      → drop lo bs ≡ put_u16 n ++ rest
      → word_at {E = E} 2 bs lo ≡ ok n
  unfolding word_at
  word_at_u16 bs lo n rest h e =
      rw (slice_at {E = E} bs lo (n / 256 % 256) ((n % 256) ∷ []) rest e) (ap ok (be-put_u16 n h))

  pub word_at_u32 :
      (bs : List ℕ) (lo n : ℕ) (rest : List ℕ)
      → n < 4294967296
      → drop lo bs ≡ put_u32 n ++ rest
      → word_at {E = E} 4 bs lo ≡ ok n
  unfolding word_at
  word_at_u32 bs lo n rest h e = rw (slice_u32 bs lo n rest e) (ap ok (be-put_u32 n h))

  pub word_at_u64 :
      (bs : List ℕ) (lo n : ℕ) (rest : List ℕ)
      → n < 18446744073709551616
      → drop lo bs ≡ put_u64 n ++ rest
      → word_at {E = E} 8 bs lo ≡ ok n
  unfolding word_at
  word_at_u64 bs lo n rest h e =
      let m = n / 4294967296 in
      rw
        (slice_at {E = E} bs lo (m / 16777216 % 256)
          ((m / 65536 % 256) ∷ (m / 256 % 256) ∷ (m % 256) ∷ put_u32 n) rest e)
        (ap ok (be-put_u64 n h))

module _ {κ} (E : Type κ) where
  pub byte_at-IsSafe :
      (bs : List ℕ) (i : ℕ) → i < length bs → IsSafe (λ _. Unit {0}) (byte_at {E = E} bs i)
  unfolding byte_at
  byte_at-IsSafe [] i h = absurd (omega arith)
  byte_at-IsSafe (x ∷ xs) zero h = returns tt
  byte_at-IsSafe (x ∷ xs) (suc i) h = byte_at-IsSafe xs i (omega arith)

  pub slice-IsSafe :
      (bs : List ℕ) (lo hi : ℕ)
      → lo ≤ hi
      → hi ≤ length bs
      → IsSafe (λ w. length w ≡ hi - lo) (slice {E = E} bs lo hi)
  slice-IsSafe bs lo hi h k =
      rw (slice_ok {E = E} bs lo hi h k)
        (returns (length-take (hi - lo) (drop lo bs) (omega (arith, length-drop lo bs))))

  pub word_at-IsSafe :
      (width : ℕ) (bs : List ℕ) (lo : ℕ)
      → lo + width ≤ length bs
      → IsSafe (λ _. Unit {0}) (word_at {E = E} width bs lo)
  word_at-IsSafe width bs lo h = rw (word_at_ok {E = E} width bs lo h) (returns tt)
