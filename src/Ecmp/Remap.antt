-- ===== src/Ecmp/Remap.antt =====
-- internal/ecmp/ecmp.go: a peer that comes or goes moves only its own flows.
use Prim.Native.String.{String}
use corelink.Prelude.{
  ℕ, ◌≡◌, ◌≢◌, refl, ◌⊎◌, inl, inr, true, false, List, [], ◌∷◌, ◌++◌, length, length-append, ◌==◌,
  ==_iff, Option, none, some, Bool-cases, arith,
}
use corelink.Ecmp.{FloatOps, score, rendezvous_select}
use corelink.Ecmp.Choice.{choose, peer_at, peer_at-rendezvous_select}

-- The comparison of floats orders all that are numbers, and a score with a weight is a number.
pub record IsScoreOrder (F : FloatOps) (fnv64a : List ℕ → ℕ) (bytes_of : String → List ℕ)
    : Type 1 where
  pub Nan : F.Float → Type 0
  pub gt_asym : (a b : F.Float) → F.gt a b ≡ true → F.gt b a ≡ false
  pub gt_split :
      (a b c : F.Float) → ¬ Nan c → F.gt a b ≡ true → (F.gt a c ≡ true) ⊎ (F.gt c b ≡ true)
  pub score_number :
      (flow_key : ℕ) (pid : String) (w : ℕ) → w ≢ 0 → ¬ Nan (score F fnv64a bytes_of flow_key pid w)
  pub inf_number : ¬ Nan F.neg_inf

pub ne_zero : (w : ℕ) → (w == 0) ≡ false → w ≢ 0
ne_zero w h e = ground (arith, ==_iff w 0)

module _ (F : FloatOps) (fnv64a : List ℕ → ℕ) (bytes_of : String → List ℕ)
    (o : IsScoreOrder F fnv64a bytes_of) (flow_key : ℕ) where
  abbrev pub points : String → ℕ → F.Float
  points = score F fnv64a bytes_of flow_key

  abbrev pub pick : Option String → F.Float → List String → List ℕ → Option String
  pick = choose F fnv64a bytes_of flow_key

  choose-after :
      (p : String) (sp s : F.Float) (b : Option String) (pids : List String) (ws : List ℕ)
      → ¬ o.Nan s
      → F.gt s sp ≡ false
      → (pick (some p) sp pids ws ≡ some p) ⊎ (pick (some p) sp pids ws ≡ pick b s pids ws)
  choose-after p sp s b [] ws n h = inl refl
  choose-after p sp s b (z ∷ pids) [] n h = inl refl
  choose-after p sp s b (z ∷ pids) (w ∷ ws) n h = elim (Bool-cases (w == 0)) [
    | inl e ↦ rw (e) (choose-after p sp s b pids ws n h)
    | inr e ↦ elim (Bool-cases (F.gt (points z w) sp)) [
      | inl g ↦
          let above : F.gt (points z w) s ≡ true = elim (o.gt_split (points z w) sp s n g) [
            | inl k ↦ k
            | inr k ↦ absurd (cc (h, k))
          ] in
          rw (e, g, above) (inr refl)
      | inr g ↦ elim (Bool-cases (F.gt (points z w) s)) [
        | inl k ↦
            rw (e, g, k)
              (choose-after p sp (points z w) (some z) pids ws
                (o.score_number flow_key z w (ne_zero w e)) g)
        | inr k ↦ rw (e, g, k) (choose-after p sp s b pids ws n h)
      ]
    ]
  ]

  choose-insert :
      (p : String) (w : ℕ) (b : Option String) (s : F.Float) (pids pids' : List String)
      (ws ws' : List ℕ)
      → ¬ o.Nan s
      → length pids ≡ length ws
      → (pick b s (pids ++ (p ∷ pids')) (ws ++ (w ∷ ws')) ≡ some p)
        ⊎ (pick b s (pids ++ (p ∷ pids')) (ws ++ (w ∷ ws')) ≡ pick b s (pids ++ pids') (ws ++ ws'))
  choose-insert p w b s [] pids' [] ws' n h = elim (Bool-cases (w == 0)) [
    | inl e ↦ rw (e) (inr refl)
    | inr e ↦ elim (Bool-cases (F.gt (points p w) s)) [
      | inl g ↦ rw (e, g) (choose-after p (points p w) s b pids' ws' n (o.gt_asym (points p w) s g))
      | inr g ↦ rw (e, g) (inr refl)
    ]
  ]
  choose-insert p w b s [] pids' (v ∷ ws) ws' n h = absurd (omega arith)
  choose-insert p w b s (z ∷ pids) pids' [] ws' n h = absurd (omega arith)
  choose-insert p w b s (z ∷ pids) pids' (v ∷ ws) ws' n h =
      let len : length pids ≡ length ws = omega arith in
      elim (Bool-cases (v == 0)) [
        | inl e ↦ rw (e) (choose-insert p w b s pids pids' ws ws' n len)
        | inr e ↦ elim (Bool-cases (F.gt (points z v) s)) [
          | inl g ↦
              rw (e, g)
                (choose-insert p w (some z) (points z v) pids pids' ws ws'
                  (o.score_number flow_key z v (ne_zero v e)) len)
          | inr g ↦ rw (e, g) (choose-insert p w b s pids pids' ws ws' n len)
        ]
      ]

  -- A peer that is added, with whatever weight, takes a flow for itself or leaves it where it is; so a
  -- peer that is removed moves no flow but its own.
  pub rendezvous_select-insert :
      (p : String) (w : ℕ) (pids pids' : List String) (ws ws' : List ℕ)
      → length pids ≡ length ws
      → length pids' ≡ length ws'
      → let all = pids ++ (p ∷ pids') in
        let chosen =
          peer_at all (rendezvous_select F fnv64a bytes_of all (ws ++ (w ∷ ws')) flow_key) in
        (chosen ≡ some p)
        ⊎ (chosen
            ≡ peer_at
                (pids ++ pids')
                (rendezvous_select F fnv64a bytes_of (pids ++ pids') (ws ++ ws') flow_key))
  rendezvous_select-insert p w pids pids' ws ws' h k =
      rw
        (
          peer_at-rendezvous_select F fnv64a bytes_of flow_key (pids ++ (p ∷ pids'))
              (ws ++ (w ∷ ws'))
              (omega (arith, length-append pids (p ∷ pids'), length-append ws (w ∷ ws'))),
          peer_at-rendezvous_select F fnv64a bytes_of flow_key (pids ++ pids') (ws ++ ws')
              (omega (arith, length-append pids pids', length-append ws ws')),
        )
        (choose-insert p w none F.neg_inf pids pids' ws ws' o.inf_number h)
