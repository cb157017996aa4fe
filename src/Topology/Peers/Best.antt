-- ===== src/Topology/Peers/Best.antt =====
-- The candidates of internal/controller/topology/prune.go are the best ones.
use Prim.Native.String.{String}
use mathlib.Core.List.{Memᴰ}
use corelink.Prelude.{
  ℕ, ◌≡◌, ◌≢◌, sym, ap, ◌∙◌, ◌⊎◌, ◌≤◌, true, false, List, [], ◌∷◌, length, some, inl, inr,
  Bool-cases, Option-cases, arith,
}
use corelink.Prelude.Assoc.{◌=?◌, string_eq}
use corelink.Prelude.Members.{Mem-take}
use corelink.Prelude.Sort.{sort_func, Mem-sort_func, take-sort_func}
use corelink.Topology.Peers.{QualityMatrix, IngressIndex, Cand, cand_lt, best_w, cands_of, top_d}

pub cand_before : (x y : Cand) → cand_lt y x ≡ true → y.w ≤ x.w
cand_before x y h = ground (arith, h)

pub cand_after : (x y : Cand) → cand_lt y x ≡ false → x.w ≤ y.w
cand_after x y h = ground (arith, h)

module _ (qm : QualityMatrix) (by_node : IngressIndex) where
  cands_of_complete :
      (a b : String) (w : ℕ) (bs : List String)
      → Memᴰ b bs
      → b ≢ a
      → best_w qm by_node a b ≡ some w
      → Memᴰ (record { dst = b; w = w }) (cands_of qm by_node a bs)
  unfolding cands_of
  cands_of_complete a b w [] m n e = elim m [ ]
  cands_of_complete a b w (c ∷ bs) (Memᴰ.head q) n e =
      let other : (c =? a) ≡ false = ground (arith, string_eq.beq_iff c a, n, q) in
      let at_c : best_w qm by_node a c ≡ some w = ap (best_w qm by_node a) (sym q) ∙ e in
      rw (cands_of, other, at_c) (Memᴰ.head (ap (λ (z : String). record { dst = z; w = w }) q))
  cands_of_complete a b w (c ∷ bs) (Memᴰ.tail k) n e =
      let rest = cands_of_complete a b w bs k n e in
      elim (Bool-cases (c =? a)) [
        | inl q ↦ rw (cands_of, q) rest
        | inr q ↦ elim (Option-cases (best_w qm by_node a c)) [
          | inl h ↦ rw (cands_of, q, h) rest
          | inr (v, h) ↦ rw (cands_of, q, h) (Memᴰ.tail rest)
        ]
      ]

  -- A candidate is another relay at its best quality.
  cands_of_sound :
      (a : String) (bs : List String) (c : Cand)
      → Memᴰ c (cands_of qm by_node a bs)
      → Memᴰ c.dst bs × (c.dst ≢ a) × (best_w qm by_node a c.dst ≡ some c.w)
  unfolding cands_of
  cands_of_sound a [] c m = elim m [ ]
  cands_of_sound a (b ∷ bs) c m = elim (Bool-cases (b =? a)) [
    | inl q ↦ let (k, n, e) = cands_of_sound a bs c (rw (cands_of, q) at m) in (Memᴰ.tail k, n, e)
    | inr q ↦ elim (Option-cases (best_w qm by_node a b)) [
      | inl h ↦
          let (k, n, e) = cands_of_sound a bs c (rw (cands_of, q, h) at m) in (Memᴰ.tail k, n, e)
      | inr (v, h) ↦
          let l : Memᴰ c (record { dst = b; w = v } ∷ cands_of qm by_node a bs) =
            rw (cands_of, q, h) at m in
          elim l [
            | Memᴰ.head z ↦ (
              Memᴰ.head (ap (λ (x : Cand). x.dst) z),
              λ e. ground (arith, string_eq.beq_iff b a, q, e, ap (λ (x : Cand). x.dst) z),
              ap (λ (x : Cand). best_w qm by_node a x.dst) z
                  ∙ h
                  ∙ ap (λ (x : Cand). some x.w) (sym z),
            )
            | Memᴰ.tail k ↦ let (i, n, e) = cands_of_sound a bs c k in (Memᴰ.tail i, n, e)
          ]
    ]
  ]

  pub top_d_sound :
      (d : ℕ) (transits : List String) (a : String) (c : Cand)
      → Memᴰ c (top_d qm by_node d transits a)
      → Memᴰ c.dst transits × (c.dst ≢ a) × (best_w qm by_node a c.dst ≡ some c.w)
  unfolding top_d
  top_d_sound d transits a c m = cands_of_sound a transits c (
      (Mem-sort_func cand_lt c (cands_of qm by_node a transits)).0
        (Mem-take c d (sort_func cand_lt (cands_of qm by_node a transits)) m))

  -- The candidates of a relay are other relays that can be reached, at their best quality; and another
  -- relay that can be reached is among the `d` candidates, or there are `d` of them and none is worse.
  pub top_d-best :
      (d : ℕ) (transits : List String) (a b : String) (w : ℕ)
      → Memᴰ b transits
      → b ≢ a
      → best_w qm by_node a b ≡ some w
      → ((c : Cand)
          → Memᴰ c (top_d qm by_node d transits a)
          → Memᴰ c.dst transits × (c.dst ≢ a) × (best_w qm by_node a c.dst ≡ some c.w))
        × (Memᴰ (record { dst = b; w = w }) (top_d qm by_node d transits a)
            ⊎ ((length (top_d qm by_node d transits a) ≡ d)
                × ((c : Cand) → Memᴰ c (top_d qm by_node d transits a) → c.w ≤ w)))
  unfolding top_d
  top_d-best d transits a b w m n e = (
    λ c k. top_d_sound d transits a c k,
    take-sort_func cand_lt (λ (c : Cand). c.w) cand_before cand_after d
        (cands_of qm by_node a transits) (record { dst = b; w = w })
        (cands_of_complete a b w transits m n e),
  )
