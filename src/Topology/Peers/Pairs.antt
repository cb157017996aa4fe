-- ===== src/Topology/Peers/Pairs.antt =====
-- The pairs of relays of internal/controller/topology/prune.go.
use Prim.Native.String.{String}
use mathlib.Core.List.{Memᴰ}
use corelink.Prelude.{
  ℕ, ◌≡◌, refl, sym, ap, subst, ◌∙◌, ◌⊎◌, ◌&&◌, true, List, [], ◌∷◌, inl, inr, Bool-cases, arith,
}
use corelink.Prelude.Assoc.{◌=?◌, string_eq}
use corelink.Prelude.Sort.{string_lt}
use corelink.Topology.Peers.{
  QualityMatrix, IngressIndex, Cand, Pair, in_order, has_pair, top_d, add_pairs, collect_pairs,
}
use corelink.Topology.Peers.Edges.{Joins}

has_pair-Mem : (p : Pair) (ps : List Pair) → has_pair p ps ≡ true → Memᴰ p ps
has_pair-Mem p [] h = cc
has_pair-Mem p (q ∷ ps) h = elim (Bool-cases ((q.x =? p.x) && (q.y =? p.y))) [
  | inl e ↦ Memᴰ.head (
      pair_path p q (sym ((string_eq.beq_iff q.x p.x).0 (ground (arith, e))))
        (sym ((string_eq.beq_iff q.y p.y).0 (ground (arith, e)))))
  | inr e ↦ Memᴰ.tail (has_pair-Mem p ps (ground (arith, e, h)))
]
  where
    pair_path : (r s : Pair) → r.x ≡ s.x → r.y ≡ s.y → r ≡ s
    pair_path r s a b = λ i. record { x = a i; y = b i }

pub in_order-Joins : (a b : String) → Joins (in_order a b) a b
in_order-Joins a b = elim (Bool-cases (string_lt b a)) [
  | inl e ↦ rw (e) (inr (refl, refl))
  | inr e ↦ rw (e) (inl (refl, refl))
]

module _ (qm : QualityMatrix) (by_node : IngressIndex) where
  -- `b` is among the `d` best candidates of the relay `a`.
  abbrev pub Chosen : ℕ → List String → String → String → Type 0
  Chosen d transits a b =
      Memᴰ a transits × ((c : Cand) × Memᴰ c (top_d qm by_node d transits a) × (c.dst ≡ b))

  abbrev pub Sources : ℕ → List String → List String → Pair → Type 0
  Sources d transits sources p =
      (a : String) × (c : Cand) × Memᴰ a sources
      × Memᴰ c (top_d qm by_node d transits a)
      × (p ≡ in_order a c.dst)

  add_pairs_sound :
      (a : String) (cs : List Cand) (ps : List Pair) (p : Pair)
      → Memᴰ p (add_pairs qm by_node a cs ps)
      → ((c : Cand) × Memᴰ c cs × (p ≡ in_order a c.dst)) ⊎ Memᴰ p ps
  unfolding add_pairs
  add_pairs_sound a [] ps p m = inr m
  add_pairs_sound a (c ∷ cs) ps p m = elim (Bool-cases (has_pair (in_order a c.dst) ps)) [
    | inl e ↦ elim (add_pairs_sound a cs ps p (rw (e) at m)) [
      | inl (z, k, q) ↦ inl (z, Memᴰ.tail k, q)
      | inr k ↦ inr k
    ]
    | inr e ↦ elim (add_pairs_sound a cs (in_order a c.dst ∷ ps) p (rw (e) at m)) [
      | inl (z, k, q) ↦ inl (z, Memᴰ.tail k, q)
      | inr k ↦ elim k [ Memᴰ.head q ↦ inl (c, Memᴰ.head refl, q) | Memᴰ.tail l ↦ inr l ]
    ]
  ]

  add_pairs_complete :
      (a : String) (cs : List Cand) (ps : List Pair) (p : Pair)
      → ((c : Cand) × Memᴰ c cs × (p ≡ in_order a c.dst)) ⊎ Memᴰ p ps
      → Memᴰ p (add_pairs qm by_node a cs ps)
  unfolding add_pairs
  add_pairs_complete a [] ps p h = elim h [ inl (c, m, e) ↦ elim m [ ] | inr m ↦ m ]
  add_pairs_complete a (c ∷ cs) ps p h = elim (Bool-cases (has_pair (in_order a c.dst) ps)) [
    | inl e ↦ rw (e) (
        add_pairs_complete a cs ps p (elim h [
          | inl (z, m, q) ↦ elim m [
            | Memᴰ.head r ↦ inr (
                subst (λ (t : Pair). Memᴰ t ps) (sym (q ∙ ap (λ (x : Cand). in_order a x.dst) r))
                  (has_pair-Mem (in_order a c.dst) ps e))
            | Memᴰ.tail k ↦ inl (z, k, q)
          ]
          | inr m ↦ inr m
        ]))
    | inr e ↦ rw (e) (
        add_pairs_complete a cs (in_order a c.dst ∷ ps) p (elim h [
          | inl (z, m, q) ↦ elim m [
            | Memᴰ.head r ↦ inr (Memᴰ.head (q ∙ ap (λ (x : Cand). in_order a x.dst) r))
            | Memᴰ.tail k ↦ inl (z, k, q)
          ]
          | inr m ↦ inr (Memᴰ.tail m)
        ]))
  ]

  pub collect_pairs_sound :
      (d : ℕ) (transits sources : List String) (ps : List Pair) (p : Pair)
      → Memᴰ p (collect_pairs qm by_node d transits sources ps)
      → Sources d transits sources p ⊎ Memᴰ p ps
  unfolding collect_pairs
  collect_pairs_sound d transits [] ps p m = inr m
  collect_pairs_sound d transits (a ∷ sources) ps p m =
      let cs = top_d qm by_node d transits a in
      elim (collect_pairs_sound d transits sources (add_pairs qm by_node a cs ps) p m) [
        | inl (b, c, k, t, e) ↦ inl (b, c, Memᴰ.tail k, t, e)
        | inr k ↦ elim (add_pairs_sound a cs ps p k) [
          | inl (c, t, e) ↦ inl (a, c, Memᴰ.head refl, t, e)
          | inr l ↦ inr l
        ]
      ]

  pub collect_pairs_complete :
      (d : ℕ) (transits sources : List String) (ps : List Pair) (p : Pair)
      → Sources d transits sources p ⊎ Memᴰ p ps
      → Memᴰ p (collect_pairs qm by_node d transits sources ps)
  unfolding collect_pairs
  collect_pairs_complete d transits [] ps p h = elim h [
    | inl (a, c, m, t, e) ↦ elim m [ ]
    | inr m ↦ m
  ]
  collect_pairs_complete d transits (a ∷ sources) ps p h =
      let cs = top_d qm by_node d transits a in
      collect_pairs_complete d transits sources (add_pairs qm by_node a cs ps) p (elim h [
        | inl (b, c, m, t, e) ↦ elim m [
          | Memᴰ.head q ↦ inr (
              add_pairs_complete a cs ps p (
                inl (
                  c,
                  subst (λ (z : String). Memᴰ c (top_d qm by_node d transits z)) q t,
                  e ∙ ap (λ (z : String). in_order z c.dst) q,
                )))
          | Memᴰ.tail k ↦ inl (b, c, k, t, e)
        ]
        | inr m ↦ inr (add_pairs_complete a cs ps p (inr m))
      ])

  pub from_joined :
      (d : ℕ) (transits : List String) (p : Pair) (a b : String)
      → Joins p a b
      → Sources d transits transits p
      → Chosen d transits a b ⊎ Chosen d transits b a
  from_joined d transits p a b j s =
      let (x, c, m, t, e) = s in
      let k : Joins p x c.dst =
        subst (λ (z : Pair). Joins z x c.dst) (sym e) (in_order-Joins x c.dst) in
      elim j [
        | inl (u, v) ↦ elim k [
          | inl (y, z) ↦ inl (at x a (sym y ∙ u) c m t (sym z ∙ v))
          | inr (y, z) ↦ inr (at x b (sym z ∙ v) c m t (sym y ∙ u))
        ]
        | inr (u, v) ↦ elim k [
          | inl (y, z) ↦ inr (at x b (sym y ∙ u) c m t (sym z ∙ v))
          | inr (y, z) ↦ inl (at x a (sym z ∙ v) c m t (sym y ∙ u))
        ]
      ]
    where
      at :
          (x y : String)
          → x ≡ y
          → (c : Cand) → Memᴰ x transits
          → Memᴰ c (top_d qm by_node d transits x)
          → {z : String} → c.dst ≡ z
          → Chosen d transits y z
      at x y q c m t e = (
        subst (λ (i : String). Memᴰ i transits) q m,
        (c, subst (λ (i : String). Memᴰ c (top_d qm by_node d transits i)) q t, e),
      )
