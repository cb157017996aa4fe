-- ===== src/Selector/Rounds.antt =====
-- What one round of internal/nodecore/multirelay/selector.go decides, and how it counts.
use Prim.Native.String.{String}
use corelink.Prelude.{
  ℕ, suc, ◌+◌, ◌≤◌, ◌<◌, ◌≡◌, ◌≢◌, ◌⊎◌, inl, inr, refl, false, ◌&&◌, ◌||◌, not, leb, if◌then◌else◌,
  Option, none, some, arith, Bool-cases,
}
use corelink.Prelude.Assoc.{◌=?◌, string_eq}
use corelink.Selector.{Selector, Switch, switch_locked, decide_better, decide}

-- The counters that a switch resets.
abbrev pub IsReset : Selector → Type 0
IsReset s =
    (s.better_streak ≡ 0) × (s.better_id ≡ "") × (s.degrade_count ≡ 0) × (s.primary_fail ≡ 0)

-- The probes of the current relay that failed in succession, after one more.
abbrev pub failures : Option ℕ → ℕ → ℕ
failures none n = suc n
failures (some rtt) n = 0

-- The current relay was reported degraded, or failed its probes, as often as set.
abbrev pub IsUrgent : Selector → Option ℕ → Type 0
IsUrgent s cur =
    (s.cfg.degrade_streak ≤ s.degrade_count)
    ⊎ ((cur ≡ none) × (s.cfg.degrade_streak ≤ suc s.primary_fail))

abbrev pub IsCalm : Selector → Option ℕ → Type 0
IsCalm s cur =
    (s.degrade_count < s.cfg.degrade_streak)
    × (((rtt : ℕ) × (cur ≡ some rtt)) ⊎ (suc s.primary_fail < s.cfg.degrade_streak))

-- The current relay answered later than the best of the others by the margin, or not so.
abbrev pub IsBetter : Selector → Option ℕ → ℕ → Type 0
IsBetter s cur best_rtt = (rtt : ℕ) × (cur ≡ some rtt) × (best_rtt + s.cfg.switch_margin ≤ rtt)

abbrev pub IsNear : Selector → Option ℕ → ℕ → Type 0
IsNear s cur best_rtt =
    (cur ≡ none) ⊎ ((rtt : ℕ) × (cur ≡ some rtt) × (rtt < best_rtt + s.cfg.switch_margin))

-- The rounds in succession in which that candidate was better, this one included.
abbrev pub IsStreak : Selector → String → ℕ → Type 0
IsStreak s best_id k =
    ((s.better_id ≡ best_id) × (k ≡ suc s.better_streak)) ⊎ ((s.better_id ≢ best_id) × (k ≡ 1))

-- A round without a switch.
pub record IsKept (s : Selector) (cur : Option ℕ) (streak : ℕ) (id : String) (t : Selector)
    : Type 0 where
  pub current : t.current ≡ s.current
  pub better_streak : t.better_streak ≡ streak
  pub better_id : t.better_id ≡ id
  pub degrade_count : t.degrade_count ≡ s.degrade_count
  pub primary_fail : t.primary_fail ≡ failures cur s.primary_fail

-- What a round that probes decides, by the answer of the current relay and the best of the others.
pub data IsDecision (s : Selector) (cur : Option ℕ) (best_id : String) (best_rtt : ℕ)
    : Option Switch → Selector → Type 0 where
  urgent :
      {t : Selector}
      → best_id ≢ ""
      → IsUrgent s cur
      → t.current ≡ best_id
      → IsReset t
      → IsDecision s cur best_id best_rtt (some (s.current, best_id)) t
  better :
      {t : Selector} (k : ℕ)
      → best_id ≢ ""
      → IsCalm s cur
      → IsBetter s cur best_rtt
      → IsStreak s best_id k
      → s.cfg.switch_streak ≤ k
      → t.current ≡ best_id
      → IsReset t
      → IsDecision s cur best_id best_rtt (some (s.current, best_id)) t
  waiting :
      {t : Selector} (k : ℕ)
      → best_id ≢ ""
      → IsCalm s cur
      → IsBetter s cur best_rtt
      → IsStreak s best_id k
      → k < s.cfg.switch_streak
      → IsKept s cur k best_id t
      → IsDecision s cur best_id best_rtt none t
  near :
      {t : Selector}
      → IsCalm s cur
      → IsNear s cur best_rtt
      → IsKept s cur 0 "" t
      → IsDecision s cur best_id best_rtt none t
  alone :
      {t : Selector} → best_id ≡ "" → IsKept s cur 0 "" t → IsDecision s cur best_id best_rtt none t

pub not_blank : (id : String) → (id =? "") ≡ false → id ≢ ""
not_blank id h e = absurd (ground (arith, string_eq.beq_iff id "", h, e))

blank_test : (id : String) → id ≢ "" → (id =? "") ≡ false
blank_test id n = elim (Bool-cases (id =? "")) [
  | inl e ↦ absurd (n ((string_eq.beq_iff id "").0 e))
  | inr e ↦ e
]

IsStreak-next :
    (s : Selector) (id : String)
    → IsStreak s id (if s.better_id =? id then suc s.better_streak else 1)
IsStreak-next s id = elim (Bool-cases (s.better_id =? id)) [
  | inl e ↦ rw e (inl ((string_eq.beq_iff s.better_id id).0 e, refl))
  | inr e ↦ rw e (inr (λ q. absurd (ground (arith, string_eq.beq_iff s.better_id id, e, q)), refl))
]

reset-IsDecision :
    (cur : Option ℕ) (best_id : String) (best_rtt : ℕ) (s : Selector)
    → (best_id ≡ "") ⊎ (IsCalm s cur × IsNear s cur best_rtt)
    → IsDecision s cur best_id best_rtt none
        (record s { primary_fail = failures cur s.primary_fail; better_streak = 0; better_id = "" })
reset-IsDecision cur best_id best_rtt s h = elim h [
  | inl e ↦ IsDecision.alone e kept
  | inr (calm, close) ↦ IsDecision.near calm close kept
]
  where
    kept :
        IsKept s cur 0 "" (record s {
          primary_fail = failures cur s.primary_fail;
          better_streak = 0;
          better_id = "";
        })
    kept = record {
      current = refl;
      better_streak = refl;
      better_id = refl;
      degrade_count = refl;
      primary_fail = refl;
    }

decide_better-IsDecision :
    (rtt : ℕ) (best_id : String) (best_rtt : ℕ) (s : Selector)
    → (best_id ≢ "" → IsCalm s (some rtt))
    → let (change, u) = decide_better (some rtt) best_id best_rtt (record s { primary_fail = 0 }) in
      IsDecision s (some rtt) best_id best_rtt change u
unfolding decide_better switch_locked
decide_better-IsDecision rtt best_id best_rtt s calm =
    let streak = if s.better_id =? best_id then suc s.better_streak else 1 in
    elim (Bool-cases (not (best_id =? "") && leb (best_rtt + s.cfg.switch_margin) rtt)) [
      | inl e ↦
          let named = not_blank best_id (ground (arith, e)) in
          let late : IsBetter s (some rtt) best_rtt = (rtt, refl, ground (arith, e)) in
          elim (Bool-cases (leb s.cfg.switch_streak streak)) [
            | inl k ↦
                rw (decide_better, e, k)
                  (IsDecision.better streak named (calm named) late (IsStreak-next s best_id)
                    (ground (arith, k)) refl (refl, refl, refl, refl))
            | inr k ↦
                rw (decide_better, e, k)
                  (IsDecision.waiting streak named (calm named) late (IsStreak-next s best_id)
                    (ground (arith, k))
                    (record {
                      current = refl;
                      better_streak = refl;
                      better_id = refl;
                      degrade_count = refl;
                      primary_fail = refl;
                    }))
          ]
      | inr e ↦
          rw (decide_better, e)
            (reset-IsDecision (some rtt) best_id best_rtt s (elim (Bool-cases (best_id =? "")) [
              | inl b ↦ inl ((string_eq.beq_iff best_id "").0 b)
              | inr b ↦ inr (calm (not_blank best_id b), inr (rtt, refl, ground (arith, e, b)))
            ]))
    ]

pub decide-IsDecision :
    (cur : Option ℕ) (best_id : String) (best_rtt : ℕ) (s : Selector)
    → let (change, u) = decide cur best_id best_rtt s in IsDecision s cur best_id best_rtt change u
unfolding decide decide_better switch_locked
decide-IsDecision none best_id best_rtt s =
    elim (Bool-cases (
      (leb s.cfg.degrade_streak s.degrade_count || leb s.cfg.degrade_streak (suc s.primary_fail))
      && not (best_id =? ""))) [
        | inl e ↦
            rw (decide, e)
              (IsDecision.urgent (not_blank best_id (ground (arith, e))) (ground (arith, e)) refl
                (refl, refl, refl, refl))
        | inr e ↦
            rw (decide, e)
              (reset-IsDecision none best_id best_rtt s (elim (Bool-cases (best_id =? "")) [
                | inl b ↦ inl ((string_eq.beq_iff best_id "").0 b)
                | inr b ↦ inr ((ground (arith, e, b), inr (ground (arith, e, b))), inl refl)
              ]))
      ]
decide-IsDecision (some rtt) best_id best_rtt s =
    elim (Bool-cases ((leb s.cfg.degrade_streak s.degrade_count || false) && not (best_id =? ""))) [
      | inl e ↦
          rw (decide, e)
            (IsDecision.urgent (not_blank best_id (ground (arith, e))) (inl (ground (arith, e)))
              refl (refl, refl, refl, refl))
      | inr e ↦
          rw (decide, e)
            (decide_better-IsDecision rtt best_id best_rtt s
              (λ n. (ground (arith, e, blank_test best_id n), inl (rtt, refl))))
    ]
