-- ===== src/Prelude/Sort.antt =====
-- `slices.SortFunc` by insertion, for orders in which no two elements of the list are equal or such
-- elements are alike; and the order of strings by code points, which is that of their bytes.
use Prim.Native.String.{String, compare}
use text.Mathlib.Text.{is_lt}
use Prim.Native.Nat.{ℕ, zero, suc, ◌≤◌}
use mathlib.Core.Path.{◌≡◌, refl, ap, ◌∙◌}
use mathlib.Core.Logic.{◌↔◌, ◌⊎◌, inl, inr}
use mathlib.Core.Bool.{Bool, true, false}
use native.Mathlib.Omega.{arith}
use corelink.Prelude.Lists.{length, take, drop}
use corelink.Prelude.Members.{Mem-drop, Mem-take-drop}
use mathlib.Core.List.{List, [], ◌∷◌, Memᴰ}
use corelink.Prelude.Tests.{if◌then◌else◌, Bool-cases}

-- `a < b` on strings.
abbrev pub string_lt : String → String → Bool
string_lt a b = is_lt (compare a b)

module _ {ℓ} {A : Type ℓ} (less : A → A → Bool) where
  abbrev pub insert_sorted : A → List A → List A
  insert_sorted x [] = x ∷ []
  insert_sorted x (y ∷ ys) = if less y x then y ∷ insert_sorted x ys else x ∷ y ∷ ys

  unfoldable pub sort_func : List A → List A
  sort_func [] = []
  sort_func (x ∷ xs) = insert_sorted x (sort_func xs)

  Mem-insert_sorted : (z x : A) (ys : List A) → Memᴰ z (insert_sorted x ys) ↔ Memᴰ z (x ∷ ys)
  Mem-insert_sorted z x [] = (λ m. m, λ m. m)
  Mem-insert_sorted z x (y ∷ ys) = elim (Bool-cases (less y x)) [
    | inl e ↦ rw e (
      λ m. elim m [
        | Memᴰ.head q ↦ Memᴰ.tail (Memᴰ.head q)
        | Memᴰ.tail r ↦ elim ((Mem-insert_sorted z x ys).0 r) [
          | Memᴰ.head q ↦ Memᴰ.head q
          | Memᴰ.tail k ↦ Memᴰ.tail (Memᴰ.tail k)
        ]
      ],
      λ m. elim m [
        | Memᴰ.head q ↦ Memᴰ.tail ((Mem-insert_sorted z x ys).1 (Memᴰ.head q))
        | Memᴰ.tail r ↦ elim r [
          | Memᴰ.head q ↦ Memᴰ.head q
          | Memᴰ.tail k ↦ Memᴰ.tail ((Mem-insert_sorted z x ys).1 (Memᴰ.tail k))
        ]
      ],
    )
    | inr e ↦ rw e (λ m. m, λ m. m)
  ]

  length-insert_sorted : (x : A) (ys : List A) → length (insert_sorted x ys) ≡ suc (length ys)
  length-insert_sorted x [] = refl
  length-insert_sorted x (y ∷ ys) = elim (Bool-cases (less y x)) [
    | inl e ↦ rw e (ap suc (length-insert_sorted x ys))
    | inr e ↦ rw e refl
  ]

  pub length-sort_func : (xs : List A) → length (sort_func xs) ≡ length xs
  unfolding sort_func
  length-sort_func [] = refl
  length-sort_func (x ∷ xs) = length-insert_sorted x (sort_func xs) ∙ ap suc (length-sort_func xs)

  -- A sorted list has the elements of the list.
  pub Mem-sort_func : (z : A) (xs : List A) → Memᴰ z (sort_func xs) ↔ Memᴰ z xs
  unfolding sort_func
  Mem-sort_func z [] = (λ m. m, λ m. m)
  Mem-sort_func z (x ∷ xs) =
      let (to, from) = Mem-insert_sorted z x (sort_func xs) in
      let (to', from') = Mem-sort_func z xs in
      (
        λ m. elim (to m) [ Memᴰ.head q ↦ Memᴰ.head q | Memᴰ.tail r ↦ Memᴰ.tail (to' r) ],
        λ m. from (elim m [ Memᴰ.head q ↦ Memᴰ.head q | Memᴰ.tail r ↦ Memᴰ.tail (from' r) ]),
      )

-- Sorting by an order that does not put a greater weight before a smaller one.
module _ {ℓ} {A : Type ℓ} (less : A → A → Bool) (w : A → ℕ)
    (before : (x y : A) → less y x ≡ true → w y ≤ w x)
    (after : (x y : A) → less y x ≡ false → w x ≤ w y) where
  abbrev Ascends : List A → Type ℓ
  Ascends [] = Unit {ℓ}
  Ascends (x ∷ xs) = ((y : A) → Memᴰ y xs → w x ≤ w y) × Ascends xs

  insert_sorted-Ascends : (x : A) (ys : List A) → Ascends ys → Ascends (insert_sorted less x ys)
  insert_sorted-Ascends x [] h = ((λ y m. elim m [ ]), tt)
  insert_sorted-Ascends x (y ∷ ys) h = elim (Bool-cases (less y x)) [
    | inl e ↦ rw (e) (
      (λ z m. elim ((Mem-insert_sorted less z x ys).0 m) [
        | Memᴰ.head q ↦ omega (arith, before x y e, ap w q)
        | Memᴰ.tail k ↦ h.0 z k
      ]),
      insert_sorted-Ascends x ys h.1,
    )
    | inr e ↦ rw (e) (
      (λ z m. elim m [
        | Memᴰ.head q ↦ omega (arith, after x y e, ap w q)
        | Memᴰ.tail k ↦ omega (arith, after x y e, h.0 z k)
      ]),
      h,
    )
  ]

  sort_func-Ascends : (xs : List A) → Ascends (sort_func less xs)
  unfolding sort_func
  sort_func-Ascends [] = tt
  sort_func-Ascends (x ∷ xs) = insert_sorted-Ascends x (sort_func less xs) (sort_func-Ascends xs)

  split_le :
      (n : ℕ) (xs : List A) (x y : A)
      → Ascends xs
      → Memᴰ x (take n xs)
      → Memᴰ y (drop n xs)
      → w x ≤ w y
  split_le zero xs x y h m k = elim m [ ]
  split_le (suc n) [] x y h m k = elim m [ ]
  split_le (suc n) (z ∷ xs) x y h (Memᴰ.head q) k = omega (arith, h.0 y (Mem-drop y n xs k), ap w q)
  split_le (suc n) (z ∷ xs) x y h (Memᴰ.tail m) k = split_le n xs x y h.1 m k

  -- Of an element of `xs`: it is among the first `n` of the sorted list, or there are `n` such, none of
  -- which weighs more.
  pub take-sort_func :
      (n : ℕ) (xs : List A) (y : A)
      → Memᴰ y xs
      → Memᴰ y (take n (sort_func less xs))
        ⊎ ((length (take n (sort_func less xs)) ≡ n)
            × ((x : A) → Memᴰ x (take n (sort_func less xs)) → w x ≤ w y))
  take-sort_func n xs y m =
      elim (Mem-take-drop y n (sort_func less xs) ((Mem-sort_func less y xs).1 m)) [
        | inl k ↦ inl k
        | inr k ↦ inr (
          length_full n (sort_func less xs) k,
          λ x t. split_le n (sort_func less xs) x y (sort_func-Ascends xs) t k,
        )
      ]
    where
      length_full : (i : ℕ) (zs : List A) → Memᴰ y (drop i zs) → length (take i zs) ≡ i
      length_full zero zs k = refl
      length_full (suc i) [] k = elim k [ ]
      length_full (suc i) (z ∷ zs) k = ap suc (length_full i zs k)
