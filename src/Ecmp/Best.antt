-- ===== src/Ecmp/Best.antt =====
-- internal/ecmp/ecmp.go: the peer that is selected has the highest score.
use Prim.Native.String.{String}
use mathlib.Core.List.{Memᴰ}
use corelink.Prelude.{
  ℕ, ◌≡◌, ◌≢◌, refl, sym, ◌∙◌, subst, ◌⊎◌, inl, inr, true, false, List, [], ◌∷◌, length, ◌==◌,
  ==_iff, Option, none, some, Bool-cases,
}
use corelink.Ecmp.{FloatOps, score, rendezvous_select}
use corelink.Ecmp.Choice.{choose, peer_at, peer_at-rendezvous_select}
use corelink.Ecmp.Remap.{IsScoreOrder, ne_zero}

abbrev pub zip : List String → List ℕ → List (String × ℕ)
zip [] ws = []
zip (p ∷ pids) [] = []
zip (p ∷ pids) (w ∷ ws) = (p, w) ∷ zip pids ws

module _ (F : FloatOps) (fnv64a : List ℕ → ℕ) (bytes_of : String → List ℕ)
    (o : IsScoreOrder F fnv64a bytes_of) (flow_key : ℕ) where
  abbrev points : String → ℕ → F.Float
  points = score F fnv64a bytes_of flow_key

  abbrev pub NoneAbove : F.Float → List String → List ℕ → Type 0
  NoneAbove s pids ws =
      (r : String) (v : ℕ) → Memᴰ (r, v) (zip pids ws) → v ≢ 0 → F.gt (points r v) s ≡ false

  -- A peer with a weight whose score is above `s` and not below that of any other.
  pub record Wins (s : F.Float) (pids : List String) (ws : List ℕ) (q : String) : Type 0 where
    pub weight : ℕ
    pub among : Memᴰ (q, weight) (zip pids ws)
    pub weighs : weight ≢ 0
    pub above : F.gt (points q weight) s ≡ true
    pub highest : NoneAbove (points q weight) pids ws

  abbrev Outcomes : F.Float → Option String → List String → List ℕ → Option String → Type 0
  Outcomes s b pids ws r =
      ((r ≡ b) × NoneAbove s pids ws) ⊎ ((q : String) × (r ≡ some q) × Wins s pids ws q)

  NoneAbove-cons :
      (s : F.Float) (z : String) (w : ℕ) (pids : List String) (ws : List ℕ)
      → (w ≢ 0 → F.gt (points z w) s ≡ false)
      → NoneAbove s pids ws
      → NoneAbove s (z ∷ pids) (w ∷ ws)
  NoneAbove-cons s z w pids ws head rest r v m = elim m [
    | Memᴰ.head e ↦
        subst (λ (x : String × ℕ). x.1 ≢ 0 → F.gt (points (x.0) (x.1)) s ≡ false) (sym e) head
    | Memᴰ.tail k ↦ rest r v k
  ]

  gt_irrefl : (a : F.Float) → F.gt a a ≡ false
  gt_irrefl a = elim (Bool-cases (F.gt a a)) [ inl e ↦ o.gt_asym a a e | inr e ↦ e ]

  Wins-skip :
      (s : F.Float) (z : String) (w : ℕ) (pids : List String) (ws : List ℕ) (q : String)
      → ¬ o.Nan s
      → (w ≢ 0 → F.gt (points z w) s ≡ false)
      → Wins s pids ws q
      → Wins s (z ∷ pids) (w ∷ ws) q
  Wins-skip s z w pids ws q n low win = record {
    weight = win.weight;
    among = Memᴰ.tail win.among;
    weighs = win.weighs;
    above = win.above;
    highest =
        NoneAbove-cons _ z w pids ws
          (λ h. elim (Bool-cases (F.gt (points z w) (points q win.weight))) [
            | inr e ↦ e
            | inl e ↦ elim (o.gt_split (points z w) (points q win.weight) s n e) [
              | inl k ↦ absurd (cc (k, low h))
              | inr k ↦ absurd (cc (k, o.gt_asym (points q win.weight) s win.above))
            ]
          ])
          win.highest;
  }

  Outcomes-skip :
      (s : F.Float) (b : Option String) (z : String) (w : ℕ) (pids : List String) (ws : List ℕ)
      (r : Option String)
      → ¬ o.Nan s
      → (w ≢ 0 → F.gt (points z w) s ≡ false)
      → Outcomes s b pids ws r
      → Outcomes s b (z ∷ pids) (w ∷ ws) r
  Outcomes-skip s b z w pids ws r n low c = elim c [
    | inl (e, all) ↦ inl (e, NoneAbove-cons s z w pids ws low all)
    | inr (q, e, win) ↦ inr (q, e, Wins-skip s z w pids ws q n low win)
  ]

  Outcomes-take :
      (s : F.Float) (b : Option String) (z : String) (w : ℕ) (pids : List String) (ws : List ℕ)
      (r : Option String)
      → ¬ o.Nan s
      → w ≢ 0
      → F.gt (points z w) s ≡ true
      → Outcomes (points z w) (some z) pids ws r
      → Outcomes s b (z ∷ pids) (w ∷ ws) r
  Outcomes-take s b z w pids ws r n h g c = elim c [
    | inl (e, all) ↦ inr (
      z,
      e,
      record {
        weight = w;
        among = Memᴰ.head refl;
        weighs = h;
        above = g;
        highest = NoneAbove-cons (points z w) z w pids ws (λ _. gt_irrefl (points z w)) all;
      },
    )
    | inr (q, e, win) ↦ inr (
      q,
      e,
      record {
        weight = win.weight;
        among = Memᴰ.tail win.among;
        weighs = win.weighs;
        above = elim (o.gt_split (points q win.weight) (points z w) s n win.above) [
          | inl k ↦ k
          | inr k ↦ absurd (cc (k, o.gt_asym (points z w) s g))
        ];
        highest =
            NoneAbove-cons _ z w pids ws
              (λ _. o.gt_asym (points q win.weight) (points z w) win.above) win.highest;
      },
    )
  ]

  choose-Outcomes :
      (s : F.Float) (b : Option String) (pids : List String) (ws : List ℕ)
      → ¬ o.Nan s
      → Outcomes s b pids ws (choose F fnv64a bytes_of flow_key b s pids ws)
  choose-Outcomes s b [] ws n = inl (refl, λ r v m. elim m [ ])
  choose-Outcomes s b (z ∷ pids) [] n = inl (refl, λ r v m. elim m [ ])
  choose-Outcomes s b (z ∷ pids) (w ∷ ws) n = elim (Bool-cases (w == 0)) [
    | inl e ↦ rw (e) (
        Outcomes-skip s b z w pids ws _ n (λ h. absurd (h ((==_iff w 0).0 e)))
          (choose-Outcomes s b pids ws n))
    | inr e ↦ elim (Bool-cases (F.gt (points z w) s)) [
      | inl g ↦
          rw (e, g)
            (Outcomes-take s b z w pids ws _ n (ne_zero w e) g (
              choose-Outcomes (points z w) (some z) pids ws
                (o.score_number flow_key z w (ne_zero w e))))
      | inr g ↦
          rw (e, g) (Outcomes-skip s b z w pids ws _ n (λ _. g) (choose-Outcomes s b pids ws n))
    ]
  ]

  -- For lists of equal length, the index that is selected is that of a peer with a weight whose score no
  -- other peer with a weight exceeds; no peer is selected only if no score exceeds minus infinity.
  pub rendezvous_select-Wins :
      (pids : List String) (ws : List ℕ)
      → length pids ≡ length ws
      → ((q : String) × (peer_at pids (rendezvous_select F fnv64a bytes_of pids ws flow_key)
            ≡ some q)
          × Wins F.neg_inf pids ws q)
        ⊎ ((peer_at pids (rendezvous_select F fnv64a bytes_of pids ws flow_key) ≡ none)
            × NoneAbove F.neg_inf pids ws)
  rendezvous_select-Wins pids ws h = elim (choose-Outcomes F.neg_inf none pids ws o.inf_number) [
    | inl (e, all) ↦ inr (peer_at-rendezvous_select F fnv64a bytes_of flow_key pids ws h ∙ e, all)
    | inr (q, e, win) ↦
        inl (q, peer_at-rendezvous_select F fnv64a bytes_of flow_key pids ws h ∙ e, win)
  ]
