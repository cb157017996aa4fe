-- ===== src/Topology/Assign/Candidates.antt =====
-- The candidates for the uplinks of internal/controller/topology/assign.go and their specifications.
use Prim.Native.String.{String}
use mathlib.Core.List.{Memᴰ}
use corelink.Prelude.{
  ℕ, suc, ◌≡◌, refl, sym, ap, subst, ◌∙◌, List, [], ◌∷◌, length, some, inl, inr, Option-cases,
}
use corelink.Prelude.Assoc.{string_eq}
use corelink.Topology.Peers.{QualityMatrix, IngressIndex, ingresses_of, Cand}
use corelink.Topology.Assign.{NeighborSpec, best_quality, uplink_cands, uplink_spec, uplink_specs}

module _ (qm : QualityMatrix) (by_node : IngressIndex) where
  pub uplink_cands_complete :
      (leaf b : String) (w : ℕ) (bs : List String)
      → Memᴰ b bs
      → best_quality qm leaf b (ingresses_of by_node b) ≡ some w
      → Memᴰ (record { dst = b; w = w }) (uplink_cands qm by_node leaf bs)
  unfolding uplink_cands
  uplink_cands_complete leaf b w [] m e = elim m [ ]
  uplink_cands_complete leaf b w (c ∷ bs) (Memᴰ.head q) e =
      let at_c : best_quality qm leaf c (ingresses_of by_node c) ≡ some w =
        ap (λ (z : String). best_quality qm leaf z (ingresses_of by_node z)) (sym q) ∙ e in
      rw (uplink_cands, at_c) (Memᴰ.head (ap (λ (z : String). record { dst = z; w = w }) q))
  uplink_cands_complete leaf b w (c ∷ bs) (Memᴰ.tail k) e =
      let rest = uplink_cands_complete leaf b w bs k e in
      elim (Option-cases (best_quality qm leaf c (ingresses_of by_node c))) [
        | inl h ↦ rw (uplink_cands, h) rest
        | inr (v, h) ↦ rw (uplink_cands, h) (Memᴰ.tail rest)
      ]

  pub uplink_cands_sound :
      (leaf : String) (c : Cand) (bs : List String)
      → Memᴰ c (uplink_cands qm by_node leaf bs)
      → Memᴰ c.dst bs × (best_quality qm leaf c.dst (ingresses_of by_node c.dst) ≡ some c.w)
  unfolding uplink_cands
  uplink_cands_sound leaf c [] m = elim m [ ]
  uplink_cands_sound leaf c (b ∷ bs) m =
      elim (Option-cases (best_quality qm leaf b (ingresses_of by_node b))) [
        | inl h ↦
            let (k, q) = uplink_cands_sound leaf c bs (rw (uplink_cands, h) at m) in
            (Memᴰ.tail k, q)
        | inr (v, h) ↦ elim (rw (uplink_cands, h) at m) [
          | Memᴰ.head q ↦ (
            Memᴰ.head (ap (λ (z : Cand). z.dst) q),
            subst (λ (z : Cand). best_quality qm leaf z.dst (ingresses_of by_node z.dst) ≡ some z.w)
                (sym q) h,
          )
          | Memᴰ.tail k ↦ let (j, q) = uplink_cands_sound leaf c bs k in (Memᴰ.tail j, q)
        ]
      ]

  pub uplink_specs_of :
      (leaf : String) (x : NeighborSpec) (cs : List Cand)
      → Memᴰ x (uplink_specs qm by_node leaf cs)
      → (c : Cand) × Memᴰ c cs × (x ≡ uplink_spec qm by_node leaf c)
  unfolding uplink_specs
  uplink_specs_of leaf x [] m = elim m [ ]
  uplink_specs_of leaf x (c ∷ cs) (Memᴰ.head q) = (c, Memᴰ.head refl, q)
  uplink_specs_of leaf x (c ∷ cs) (Memᴰ.tail m) =
      let (d, k, q) = uplink_specs_of leaf x cs m in (d, Memᴰ.tail k, q)

  pub Mem-uplink_specs :
      (leaf : String) (c : Cand) (cs : List Cand)
      → Memᴰ c cs
      → Memᴰ (uplink_spec qm by_node leaf c) (uplink_specs qm by_node leaf cs)
  unfolding uplink_specs
  Mem-uplink_specs leaf c [] m = elim m [ ]
  Mem-uplink_specs leaf c (d ∷ cs) (Memᴰ.head q) = Memᴰ.head (ap (uplink_spec qm by_node leaf) q)
  Mem-uplink_specs leaf c (d ∷ cs) (Memᴰ.tail m) = Memᴰ.tail (Mem-uplink_specs leaf c cs m)

  pub length-uplink_specs :
      (leaf : String) (cs : List Cand) → length (uplink_specs qm by_node leaf cs) ≡ length cs
  unfolding uplink_specs
  length-uplink_specs leaf [] = refl
  length-uplink_specs leaf (c ∷ cs) = ap suc (length-uplink_specs leaf cs)
