-- ===== src/Topology/Assign/Probes.antt =====
-- The probe targets of internal/controller/topology/assign.go are symmetric.
use Prim.Native.String.{String}
use mathlib.Core.List.{Memᴰ}
use corelink.Prelude.{
  ℕ, ◌≡◌, ◌≢◌, refl, sym, ap, subst, ◌⊎◌, true, false, List, [], ◌∷◌, inl, inr, Bool-cases,
}
use corelink.Prelude.Assoc.{lookup, string_eq}
use corelink.Topology.Dag.{or_nil}
use corelink.Topology.Dag.Colors.{string_cases}
use corelink.Topology.Prune.{contains}
use corelink.Topology.Shortest.Walks.{lookup-insert_self, lookup-insert_ne}
use corelink.Topology.Peers.{QualityMatrix, IngressIndex}
use corelink.Topology.Assign.{
  Targets, targets_of, add_key, add_target, has_ingress, first_targets, add_back, close,
  probe_targets,
}
use corelink.Topology.Assign.Neighbors.{Mem-add_key}

-- `dst` is a target of `src`.
abbrev pub Probes : Targets → String → String → Type 0
Probes ts src dst = Memᴰ dst (targets_of ts src)

Mem-add_key_inv : (i k : String) (ks : List String) → Memᴰ i (add_key k ks) → (i ≡ k) ⊎ Memᴰ i ks
Mem-add_key_inv i k ks m = elim (Bool-cases (contains k ks)) [
  | inl e ↦ inr (rw (e) at m)
  | inr e ↦
      let n : Memᴰ i (k ∷ ks) = rw (e) at m in elim n [ Memᴰ.head q ↦ inl q | Memᴰ.tail r ↦ inr r ]
]

add_target_self :
    (src dst : String) (ts : Targets)
    → targets_of (add_target src dst ts) src ≡ add_key dst (targets_of ts src)
unfolding add_target targets_of
add_target_self src dst ts =
    ap or_nil (lookup-insert_self src (add_key dst (or_nil (lookup src ts))) ts)

add_target_ne :
    (src x dst : String) (ts : Targets)
    → src ≢ x
    → targets_of (add_target src dst ts) x ≡ targets_of ts x
unfolding add_target targets_of
add_target_ne src x dst ts n =
    ap or_nil (lookup-insert_ne src x (add_key dst (or_nil (lookup src ts))) ts n)

add_target_sound :
    (src dst x y : String) (ts : Targets)
    → Probes (add_target src dst ts) x y
    → ((src ≡ x) × (y ≡ dst)) ⊎ Probes ts x y
add_target_sound src dst x y ts m = elim (string_cases src x) [
  | inl q ↦
      let k = subst (λ (z : String). Probes (add_target src dst ts) z y) (sym q) m in
      elim (Mem-add_key_inv y dst (targets_of ts src)
        (subst (Memᴰ y) (add_target_self src dst ts) k)) [
          | inl e ↦ inl (q, e)
          | inr l ↦ inr (subst (λ (z : String). Probes ts z y) q l)
        ]
  | inr n ↦ inr (subst (Memᴰ y) (add_target_ne src x dst ts n) m)
]

add_target_new : (src dst : String) (ts : Targets) → Probes (add_target src dst ts) src dst
add_target_new src dst ts =
    subst (Memᴰ dst) (sym (add_target_self src dst ts))
      (Mem-add_key dst dst (targets_of ts src) (inl refl))

add_target_keeps :
    (src dst x y : String) (ts : Targets) → Probes ts x y → Probes (add_target src dst ts) x y
add_target_keeps src dst x y ts m = elim (string_cases src x) [
  | inl q ↦
      subst (λ (z : String). Probes (add_target src dst ts) z y) q
        (subst (Memᴰ y) (sym (add_target_self src dst ts)) (
          Mem-add_key y dst (targets_of ts src)
            (inr (subst (λ (z : String). Probes ts z y) (sym q) m))))
  | inr n ↦ subst (Memᴰ y) (sym (add_target_ne src x dst ts n)) m
]

add_back_sound :
    (src x y : String) (dsts : List String) (ts : Targets)
    → Probes (add_back src dsts ts) x y
    → (Memᴰ x dsts × (y ≡ src)) ⊎ Probes ts x y
unfolding add_back
add_back_sound src x y [] ts m = inr m
add_back_sound src x y (d ∷ dsts) ts m =
    elim (add_back_sound src x y dsts (add_target d src ts) m) [
      | inl (k, e) ↦ inl (Memᴰ.tail k, e)
      | inr k ↦ elim (add_target_sound d src x y ts k) [
        | inl (q, e) ↦ inl (Memᴰ.head (sym q), e)
        | inr l ↦ inr l
      ]
    ]

add_back_complete :
    (src x y : String) (dsts : List String) (ts : Targets)
    → (Memᴰ x dsts × (y ≡ src)) ⊎ Probes ts x y
    → Probes (add_back src dsts ts) x y
unfolding add_back
add_back_complete src x y [] ts h = elim h [ inl (m, e) ↦ elim m [ ] | inr m ↦ m ]
add_back_complete src x y (d ∷ dsts) ts h =
    add_back_complete src x y dsts (add_target d src ts) (elim h [
      | inl (m, e) ↦ elim m [
        | Memᴰ.head q ↦ inr (
            subst (λ (z : String). Probes (add_target d src ts) z y) (sym q)
              (subst (λ (z : String). Probes (add_target d src ts) d z) (sym e)
                (add_target_new d src ts)))
        | Memᴰ.tail k ↦ inl (k, e)
      ]
      | inr m ↦ inr (add_target_keeps d src x y ts m)
    ])

module _ (qm : QualityMatrix) (by_node : IngressIndex) where
  -- The target of a node with an ingress has the node as a target.
  abbrev Answered : Targets → String → Type 0
  Answered ts x = has_ingress by_node x ≡ true → (y : String) → Probes ts x y → Probes ts y x

  close-Answered :
      (srcs : List String) (ts : Targets) (x : String)
      → Memᴰ x srcs ⊎ Answered ts x
      → Answered (close qm by_node srcs ts) x
  unfolding close
  close-Answered [] ts x h = elim h [ inl m ↦ elim m [ ] | inr a ↦ a ]
  close-Answered (s ∷ srcs) ts x h = elim (Bool-cases (has_ingress by_node s)) [
    | inr e ↦
        rw (close, e)
          (close-Answered srcs ts x (elim h [
            | inl m ↦ elim m [
              | Memᴰ.head q ↦ inr (λ i y k. absurd (cc (ap (has_ingress by_node) q, i, e)))
              | Memᴰ.tail k ↦ inl k
            ]
            | inr a ↦ inr a
          ]))
    | inl e ↦
        rw (close, e)
          (close-Answered srcs (add_back s (targets_of ts s) ts) x (elim h [
            | inl m ↦ elim m [
              | Memᴰ.head q ↦
                  inr (subst (Answered (add_back s (targets_of ts s) ts)) (sym q) (visited s ts))
              | Memᴰ.tail k ↦ inl k
            ]
            | inr a ↦ inr (kept s ts x a)
          ]))
  ]
    where
      visited : (s : String) (ts : Targets) → Answered (add_back s (targets_of ts s) ts) s
      visited s ts i y k = elim (add_back_sound s s y (targets_of ts s) ts k) [
        | inl (m, e) ↦
            subst (λ (z : String). Probes (add_back s (targets_of ts s) ts) z s) (sym e)
              (add_back_complete s s s (targets_of ts s) ts (inl (m, refl)))
        | inr m ↦ add_back_complete s y s (targets_of ts s) ts (inl (m, refl))
      ]

      kept :
          (s : String) (ts : Targets) (x : String)
          → Answered ts x
          → Answered (add_back s (targets_of ts s) ts) x
      kept s ts x a i y k = elim (add_back_sound s x y (targets_of ts s) ts k) [
        | inl (m, e) ↦
            subst (λ (z : String). Probes (add_back s (targets_of ts s) ts) z x) (sym e)
              (add_back_complete s s x (targets_of ts s) ts (inr m))
        | inr m ↦ add_back_complete s y x (targets_of ts s) ts (inr (a i y m))
      ]

  -- In the sampling mode, a target of a node that has an ingress itself has that node as a target too.
  pub probe_targets-symmetric :
      (limit : ℕ) (ids : List String) (src dst : String)
      → Memᴰ src ids
      → has_ingress by_node src ≡ true
      → Probes (probe_targets qm by_node false limit ids) src dst
      → Probes (probe_targets qm by_node false limit ids) dst src
  unfolding probe_targets
  probe_targets-symmetric limit ids src dst m i k =
      close-Answered ids (first_targets qm by_node false limit ids ids []) src (inl m) i dst k
