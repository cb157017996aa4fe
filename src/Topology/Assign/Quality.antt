-- ===== src/Topology/Assign/Quality.antt =====
-- internal/controller/topology/assign.go, bestQuality: the least measured quality, and the ingresses that
-- have one.
use Prim.Native.String.{String}
use mathlib.Core.List.{Memᴰ}
use corelink.Prelude.{
  ℕ, ◌≡◌, ◌≤◌, ◌⊎◌, ◌↔◌, inl, inr, refl, sym, ap, subst, ◌∙◌, ltb, arith, List, [], ◌∷◌, Option,
  none, some, Option-cases, if◌then◌else◌,
}
use corelink.Topology.Peers.{QualityMatrix, quality_of, better, scan_quality}
use corelink.Topology.Assign.{best_quality, measured}

-- The least quality that was measured from a node to an ingress of another one.
pub record IsLeast (qm : QualityMatrix) (src dst : String) (ingress_ids : List String) (w : ℕ)
    : Type 0 where
  pub ingress : String
  pub own : Memᴰ ingress ingress_ids
  pub quality : quality_of qm src dst ingress ≡ some w
  pub least : (e : String) (v : ℕ) → Memᴰ e ingress_ids → quality_of qm src dst e ≡ some v → w ≤ v

better_cases : (best q : Option ℕ) (w : ℕ) → better best q ≡ some w → (best ≡ some w) ⊎ (q ≡ some w)
better_cases best none w h = inl h
better_cases none (some q) w h = inr h
better_cases (some b) (some q) w h = ground (arith, h)

better_left :
    (best q : Option ℕ) (v : ℕ) → best ≡ some v → (u : ℕ) × (better best q ≡ some u) × (u ≤ v)
better_left best none v h = (v, h, omega arith)
better_left none (some q) v h = cc
better_left (some b) (some q) v h = (if ltb q b then q else b, refl, ground (arith, h))

better_right :
    (best q : Option ℕ) (v : ℕ) → q ≡ some v → (u : ℕ) × (better best q ≡ some u) × (u ≤ v)
better_right best none v h = cc
better_right none (some q) v h = (q, refl, ground (arith, h))
better_right (some b) (some q) v h = (if ltb q b then q else b, refl, ground (arith, h))

module _ (qm : QualityMatrix) (src dst : String) where
  scan_quality-least :
      (best : Option ℕ) (es : List String) (w : ℕ)
      → scan_quality qm src dst best es ≡ some w
      → ((best ≡ some w) ⊎ ((e : String) × Memᴰ e es × (quality_of qm src dst e ≡ some w)))
        × ((v : ℕ) → best ≡ some v → w ≤ v)
        × ((e : String) (v : ℕ) → Memᴰ e es → quality_of qm src dst e ≡ some v → w ≤ v)
  unfolding scan_quality
  scan_quality-least best [] w h = (inl h, λ v e. ground (arith, h, e), λ e v m. elim m [ ])
  scan_quality-least best (e ∷ es) w h =
      let (a, b, c) = scan_quality-least (better best (quality_of qm src dst e)) es w h in
      (
        elim a [
          | inl q ↦ elim (better_cases best (quality_of qm src dst e) w q) [
            | inl x ↦ inl x
            | inr x ↦ inr (e, Memᴰ.head refl, x)
          ]
          | inr (x, m, q) ↦ inr (x, Memᴰ.tail m, q)
        ],
        λ v q.
            let (u, r, le) = better_left best (quality_of qm src dst e) v q in
            let low = b u r in omega arith,
        λ x v m q. elim m [
          | Memᴰ.head y ↦
              let here : quality_of qm src dst e ≡ some v =
                subst (λ (z : String). quality_of qm src dst z ≡ some v) y q in
              let (u, r, le) = better_right best (quality_of qm src dst e) v here in
              let low = b u r in omega arith
          | Memᴰ.tail k ↦ c x v k q
        ],
      )

  scan_quality-some :
      (best : Option ℕ) (es : List String)
      → scan_quality qm src dst best es ≡ none
      → (best ≡ none) × ((e : String) → Memᴰ e es → quality_of qm src dst e ≡ none)
  unfolding scan_quality
  scan_quality-some best [] h = (h, λ e m. elim m [ ])
  scan_quality-some best (e ∷ es) h =
      let (a, b) = scan_quality-some (better best (quality_of qm src dst e)) es h in
      (
        elim (Option-cases best) [
          | inl q ↦ q
          | inr (v, q) ↦
              let (u, r, le) = better_left best (quality_of qm src dst e) v q in absurd (cc (a, r))
        ],
        λ x m. elim m [
          | Memᴰ.head y ↦ elim (Option-cases (quality_of qm src dst e)) [
            | inl q ↦ subst (λ (z : String). quality_of qm src dst z ≡ none) (sym y) q
            | inr (v, q) ↦
                let (u, r, le) = better_right best (quality_of qm src dst e) v q in
                absurd (cc (a, r))
          ]
          | Memᴰ.tail k ↦ b x k
        ],
      )

  pub best_quality-IsLeast :
      (es : List String) (w : ℕ) → best_quality qm src dst es ≡ some w → IsLeast qm src dst es w
  unfolding best_quality
  best_quality-IsLeast es w h =
      let (a, b, c) = scan_quality-least none es w h in
      elim a [
        | inl q ↦ absurd (cc (q))
        | inr (e, m, q) ↦ record { ingress = e; own = m; quality = q; least = c }
      ]

  pub IsLeast-best_quality :
      (es : List String) (w : ℕ) → IsLeast qm src dst es w → best_quality qm src dst es ≡ some w
  unfolding best_quality
  IsLeast-best_quality es w l = elim (Option-cases (scan_quality qm src dst none es)) [
    | inl q ↦ absurd (cc ((scan_quality-some none es q).1 l.ingress l.own, l.quality))
    | inr (v, q) ↦
        let k = best_quality-IsLeast es v q in
        let x = k.least l.ingress w l.own l.quality in
        let y = l.least k.ingress v k.own k.quality in
        let same : v ≡ w = omega arith in q ∙ ap some same
  ]

  pub Mem-measured :
      (e : String) (es : List String)
      → Memᴰ e (measured qm src dst es)
        ↔ (Memᴰ e es × ((w : ℕ) × (quality_of qm src dst e ≡ some w)))
  unfolding measured
  Mem-measured e [] = (λ m. elim m [ ], λ p. elim p.0 [ ])
  Mem-measured e (x ∷ es) =
      let (into, back) = Mem-measured e es in
      elim (Option-cases (quality_of qm src dst x)) [
        | inl q ↦
            rw (measured, q)
              (
                λ m. let (k, z) = into m in (Memᴰ.tail k, z),
                λ (m, z). elim m [
                  | Memᴰ.head y ↦
                      let here = subst (λ (t : String). quality_of qm src dst t ≡ some z.0) y z.1 in
                      absurd (cc (q, here))
                  | Memᴰ.tail k ↦ back (k, z)
                ],
              )
        | inr (v, q) ↦
            rw (measured, q)
              (
                λ m. elim m [
                  | Memᴰ.head y ↦ (
                    Memᴰ.head y,
                    (v, subst (λ (t : String). quality_of qm src dst t ≡ some v) (sym y) q),
                  )
                  | Memᴰ.tail k ↦ let (j, z) = into k in (Memᴰ.tail j, z)
                ],
                λ (m, z). elim m [
                  | Memᴰ.head y ↦ Memᴰ.head y
                  | Memᴰ.tail k ↦ Memᴰ.tail (back (k, z))
                ],
              )
      ]
