-- ===== src/MeshRoute/Session/Turn.antt =====
-- internal/relay/mesh/session_route.go: the turn round the ring in nextAvailableOnRing.
use mathlib.Core.List.{Memᴰ}
use native.Mathlib.Nat.{mod-lt, mod-eq_of_lt, add-mod_right}
use corelink.Prelude.{
  ℕ, zero, suc, ◌+◌, ◌-◌, ◌<◌, ◌≤◌, ◌%◌, ◌≡◌, ◌≢◌, sym, ap, ◌∙◌, subst, ◌⊎◌, inl, inr, true, false,
  List, [], ◌∷◌, length, get_elem?, ◌==◌, ==_iff, any, none, some, Option-cases, Bool-cases, arith,
  leb,
}
use corelink.MeshRoute.Session.{RingEntry, next_from, ring_start, search_ring}
use corelink.MeshRoute.Session.Invariant.{get_elem?-lt, get_elem?-Mem}

pub next_from-found :
    (rounds at from_idx : ℕ) (un : List ℕ) (ring : List RingEntry) (i : ℕ)
    → next_from rounds at from_idx un ring ≡ some i
    → (e : RingEntry) × Memᴰ e ring × (e.idx ≡ i) × (i ≢ from_idx) × (any (λ j. j == i) un ≡ false)
next_from-found zero at from_idx un ring i h = cc
next_from-found (suc rounds) at from_idx un ring i h =
    elim (Option-cases (get_elem? ring (at % length ring))) [
      | inl e ↦ absurd (ground (arith, e, h))
      | inr (x, e) ↦ elim (Bool-cases (x.idx == from_idx)) [
        | inl q ↦ next_from-found rounds (suc at) from_idx un ring i (ground (arith, e, q, h))
        | inr q ↦ elim (Bool-cases (any (λ j. j == x.idx) un)) [
          | inl k ↦ next_from-found rounds (suc at) from_idx un ring i (ground (arith, e, q, k, h))
          | inr k ↦
              let same : x.idx ≡ i = ground (arith, e, q, k, h) in
              (
                x,
                get_elem?-Mem ring _ x e,
                same,
                ground (arith, q, same),
                subst (λ z. any (λ j. j == z) un ≡ false) same k,
              )
        ]
      ]
    ]

-- An entry of the path that is left, or of one that is marked.
abbrev pub IsTried : ℕ → List ℕ → RingEntry → Type 0
IsTried from_idx un e = (e.idx ≡ from_idx) ⊎ (any (λ j. j == e.idx) un ≡ true)

next_from-step :
    (rounds at from_idx : ℕ) (un : List ℕ) (ring : List RingEntry)
    → next_from (suc rounds) at from_idx un ring ≡ none
    → 0 < length ring
    → (x : RingEntry) × (get_elem? ring (at % length ring) ≡ some x)
      × IsTried from_idx un x
      × (next_from rounds (suc at) from_idx un ring ≡ none)
next_from-step rounds at from_idx un ring h p =
    let (x, q) = get_elem?-lt ring (at % length ring) (mod-lt at p) in
    elim (Bool-cases (x.idx == from_idx)) [
      | inl t ↦ (x, q, inl ((==_iff x.idx from_idx).0 t), ground (arith, q, t, h))
      | inr t ↦ elim (Bool-cases (any (λ j. j == x.idx) un)) [
        | inl u ↦ (x, q, inr u, ground (arith, q, t, u, h))
        | inr u ↦ absurd (ground (arith, q, t, u, h))
      ]
    ]

some_inj : {x y : RingEntry} → some x ≡ some y → x ≡ y
some_inj h = cc (h)

next_from-tried :
    (rounds at from_idx : ℕ) (un : List ℕ) (ring : List RingEntry)
    → next_from rounds at from_idx un ring ≡ none
    → 0 < length ring
    → (k : ℕ) (e : RingEntry) → k < rounds
    → get_elem? ring ((at + k) % length ring) ≡ some e
    → IsTried from_idx un e
next_from-tried zero at from_idx un ring h p k e lt g = absurd (omega arith)
next_from-tried (suc rounds) at from_idx un ring h p zero e lt g =
    let (x, q, t, more) = next_from-step rounds at from_idx un ring h p in
    let plain : at + 0 ≡ at = omega arith in
    let g' : get_elem? ring (at % length ring) ≡ some e =
      subst (λ m. get_elem? ring (m % length ring) ≡ some e) plain g in
    let same : x ≡ e = some_inj (sym q ∙ g') in subst (IsTried from_idx un) same t
next_from-tried (suc rounds) at from_idx un ring h p (suc k) e lt g =
    let (x, q, t, more) = next_from-step rounds at from_idx un ring h p in
    let shifted : at + suc k ≡ suc at + k = omega arith in
    next_from-tried rounds (suc at) from_idx un ring more p k e (omega arith)
      (subst (λ m. get_elem? ring (m % length ring) ≡ some e) shifted g)

-- From any entry, each other is less than a whole turn away.
turn-reaches : (n at i : ℕ) → at < n → i < n → (k : ℕ) × (k < n) × ((at + k) % n ≡ i)
turn-reaches n at i a b = elim (Bool-cases (leb at i)) [
  | inl e ↦
      let le : at ≤ i = ground (arith, e) in
      let sum : at + (i - at) ≡ i = omega arith in
      (i - at, omega arith, ap (λ m. m % n) sum ∙ mod-eq_of_lt b)
  | inr e ↦
      let lt : i < at = ground (arith, e) in
      let sum : at + (i + n - at) ≡ i + n = omega arith in
      (i + n - at, omega arith, ap (λ m. m % n) sum ∙ add-mod_right i n ∙ mod-eq_of_lt b)
]

search_ring-le : (h i : ℕ) (ring : List RingEntry) → search_ring h i ring ≤ i + length ring
search_ring-le h i [] = omega arith
search_ring-le h i (e ∷ ring) = ground (arith, search_ring-le h (suc i) ring)

ring_start-lt : (h : ℕ) (ring : List RingEntry) → 0 < length ring → ring_start h ring < length ring
ring_start-lt h ring p = ground (arith, search_ring-le h 0 ring)

Mem-get_elem? :
    (e : RingEntry) (ring : List RingEntry)
    → Memᴰ e ring
    → (i : ℕ) × (i < length ring) × (get_elem? ring i ≡ some e)
Mem-get_elem? e [] m = elim m [ ]
Mem-get_elem? e (x ∷ ring) (Memᴰ.head q) = (0, omega arith, ap some (sym q))
Mem-get_elem? e (x ∷ ring) (Memᴰ.tail m) =
    let (i, lt, g) = Mem-get_elem? e ring m in (suc i, omega arith, g)

-- A whole turn without a result has tried all entries of the ring.
pub next_from-none :
    (h from_idx : ℕ) (un : List ℕ) (ring : List RingEntry)
    → next_from (length ring) (ring_start h ring) from_idx un ring ≡ none
    → (e : RingEntry) → Memᴰ e ring
    → IsTried from_idx un e
next_from-none h from_idx un ring none_left e m =
    let (i, lt, g) = Mem-get_elem? e ring m in
    let p : 0 < length ring = omega arith in
    let (k, inside, at) =
      turn-reaches (length ring) (ring_start h ring) i (ring_start-lt h ring p) lt in
    next_from-tried (length ring) (ring_start h ring) from_idx un ring none_left p k e inside
      (ap (get_elem? ring) at ∙ g)
