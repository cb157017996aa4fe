-- ===== src/Prelude/Members.antt =====
-- Members of lists: appended lists, a last element, images.
use Prim.Native.Nat.{ℕ, zero, suc, ◌≤◌}
use native.Mathlib.Omega.{arith}
use corelink.Prelude.Lists.{length, take, drop}
use mathlib.Core.Path.{◌≡◌, ap}
use mathlib.Core.Logic.{◌↔◌, ◌⊎◌, inl, inr}
use mathlib.Core.List.{List, [], ◌∷◌, ◌++◌, map, Memᴰ}

module _ {ℓ} {A : Type ℓ} where
  pub Mem-append_left : (x : A) (xs ys : List A) → Memᴰ x xs → Memᴰ x (xs ++ ys)
  Mem-append_left x [] ys h = elim h [ ]
  Mem-append_left x (y ∷ xs) ys (Memᴰ.head e) = Memᴰ.head e
  Mem-append_left x (y ∷ xs) ys (Memᴰ.tail m) = Memᴰ.tail (Mem-append_left x xs ys m)

  pub Mem-append_right : (x : A) (xs ys : List A) → Memᴰ x ys → Memᴰ x (xs ++ ys)
  Mem-append_right x [] ys h = h
  Mem-append_right x (y ∷ xs) ys h = Memᴰ.tail (Mem-append_right x xs ys h)

  pub Mem-append : (x : A) (xs ys : List A) → Memᴰ x (xs ++ ys) → Memᴰ x xs ⊎ Memᴰ x ys
  Mem-append x [] ys m = inr m
  Mem-append x (y ∷ xs) ys (Memᴰ.head q) = inl (Memᴰ.head q)
  Mem-append x (y ∷ xs) ys (Memᴰ.tail r) = elim (Mem-append x xs ys r) [
    | inl k ↦ inl (Memᴰ.tail k)
    | inr k ↦ inr k
  ]

  pub Mem-snoc : (x y : A) (xs : List A) → Memᴰ x (xs ++ (y ∷ [])) ↔ ((x ≡ y) ⊎ Memᴰ x xs)
  Mem-snoc x y xs = (
    λ m. elim (Mem-append x xs (y ∷ []) m) [
      | inl k ↦ inr k
      | inr k ↦ elim k [ Memᴰ.head e ↦ inl e | Memᴰ.tail r ↦ elim r [ ] ]
    ],
    λ c. elim c [
      | inl e ↦ Mem-append_right x xs (y ∷ []) (Memᴰ.head e)
      | inr k ↦ Mem-append_left x xs (y ∷ []) k
    ],
  )

  pub Mem-take : (x : A) (n : ℕ) (xs : List A) → Memᴰ x (take n xs) → Memᴰ x xs
  Mem-take x zero xs m = elim m [ ]
  Mem-take x (suc n) [] m = m
  Mem-take x (suc n) (y ∷ xs) (Memᴰ.head q) = Memᴰ.head q
  Mem-take x (suc n) (y ∷ xs) (Memᴰ.tail m) = Memᴰ.tail (Mem-take x n xs m)

  pub length-take_le : (n : ℕ) (xs : List A) → length (take n xs) ≤ n
  length-take_le zero xs = omega arith
  length-take_le (suc n) [] = omega arith
  length-take_le (suc n) (x ∷ xs) = let h = length-take_le n xs in omega arith

  pub Mem-drop : (x : A) (n : ℕ) (xs : List A) → Memᴰ x (drop n xs) → Memᴰ x xs
  Mem-drop x zero xs m = m
  Mem-drop x (suc n) [] m = m
  Mem-drop x (suc n) (y ∷ xs) m = Memᴰ.tail (Mem-drop x n xs m)

  -- An element of a list is among its first `n` or among the others.
  pub Mem-take-drop :
      (x : A) (n : ℕ) (xs : List A) → Memᴰ x xs → Memᴰ x (take n xs) ⊎ Memᴰ x (drop n xs)
  Mem-take-drop x zero xs m = inr m
  Mem-take-drop x (suc n) [] m = elim m [ ]
  Mem-take-drop x (suc n) (y ∷ xs) (Memᴰ.head q) = inl (Memᴰ.head q)
  Mem-take-drop x (suc n) (y ∷ xs) (Memᴰ.tail m) = elim (Mem-take-drop x n xs m) [
    | inl k ↦ inl (Memᴰ.tail k)
    | inr k ↦ inr k
  ]

pub Mem-map {ℓ κ} :
    {A : Type ℓ} {B : Type κ} (f : A → B) (x : A) (xs : List A) → Memᴰ x xs → Memᴰ (f x) (map f xs)
Mem-map f x [] m = elim m [ ]
Mem-map f x (y ∷ xs) m = elim m [
  | Memᴰ.head q ↦ Memᴰ.head (ap f q)
  | Memᴰ.tail r ↦ Memᴰ.tail (Mem-map f x xs r)
]
