-- ===== src/Topology/Assign/Uplinks.antt =====
-- The uplinks of the leaves of internal/controller/topology/assign.go.
use Prim.Native.String.{String}
use mathlib.Core.List.{Memᴰ}
use corelink.Prelude.{
  ℕ, ◌≡◌, ◌↔◌, refl, arith, sym, ap, subst, ◌∙◌, ◌⊎◌, ◌≤◌, List, [], ◌∷◌, length, some, inl, inr,
  List-cases, if◌then◌else◌, ◌==◌,
}
use corelink.Prelude.Assoc.{Assoc, lookup, insert, string_eq}
use corelink.Prelude.Sort.{string_lt, sort_func, Mem-sort_func, length-sort_func, take-sort_func}
use corelink.Prelude.Members.{Mem-take, length-take_le}
use corelink.Topology.Dag.Colors.{string_cases}
use corelink.Topology.Shortest.Walks.{lookup-insert_self, lookup-insert_ne}
use corelink.Topology.Peers.{QualityMatrix, quality_of, IngressIndex, ingresses_of, Cand, cand_lt}
use corelink.Topology.Assign.Quality.{
  IsLeast, best_quality-IsLeast, IsLeast-best_quality, Mem-measured,
}
use corelink.Topology.Peers.Best.{cand_before, cand_after}
use corelink.Topology.Assign.{
  NeighborSpec, neighbor_lt, default_leaf_uplinks, uplink_cands, uplink_spec, uplink_specs,
  chosen_uplinks, with_uplinks, assign_uplinks, assign_leaf_uplinks,
}
use corelink.Topology.Assign.Candidates.{
  uplink_cands_complete, uplink_cands_sound, uplink_specs_of, Mem-uplink_specs, length-uplink_specs,
}

module _ (qm : QualityMatrix) (by_node : IngressIndex) where
  abbrev pub uplinks_of : ℕ → List String → String → List NeighborSpec
  uplinks_of n transits leaf =
      sort_func neighbor_lt
        (uplink_specs qm by_node leaf (chosen_uplinks qm by_node n leaf transits))

  assign_uplinks-lookup :
      (n : ℕ) (transits leaves : List String) (leaf : String)
      (out : Assoc String (List NeighborSpec))
      → (c : Cand) (cs : List Cand) → uplink_cands qm by_node leaf transits ≡ c ∷ cs
      → Memᴰ leaf leaves ⊎ (lookup leaf out ≡ some (uplinks_of n transits leaf))
      → lookup leaf (assign_uplinks qm by_node n transits leaves out)
        ≡ some (uplinks_of n transits leaf)
  unfolding assign_uplinks
  assign_uplinks-lookup n transits [] leaf out c cs e h = elim h [ inl m ↦ elim m [ ] | inr q ↦ q ]
  assign_uplinks-lookup n transits (l ∷ leaves) leaf out c cs e h =
      assign_uplinks-lookup n transits leaves leaf (with_uplinks qm by_node n transits l out) c cs e
        (elim (string_cases l leaf) [
          | inl q ↦
              let at_l : uplink_cands qm by_node l transits ≡ c ∷ cs =
                ap (λ (z : String). uplink_cands qm by_node z transits) q ∙ e in
              inr (
                rw (with_uplinks, at_l)
                  (subst
                    (λ (z : String).
                      lookup z (insert l (uplinks_of n transits l) out)
                      ≡ some (uplinks_of n transits z))
                    q (lookup-insert_self l (uplinks_of n transits l) out)))
          | inr ne ↦ elim h [
            | inl m ↦ elim m [ Memᴰ.head q ↦ absurd (ne (sym q)) | Memᴰ.tail k ↦ inl k ]
            | inr q ↦ elim (List-cases (uplink_cands qm by_node l transits)) [
              | inl z ↦ inr (rw (with_uplinks, z) q)
              | inr (x, xs, z) ↦ inr (
                  rw (with_uplinks, z)
                    (lookup-insert_ne l leaf (uplinks_of n transits l) out ne ∙ q))
            ]
          ]
        ])

  -- A relay in an entry of a leaf: one that the leaf measures, with the ingresses that it measures.
  pub record IsUplink (transits : List String) (leaf : String) (x : NeighborSpec) (v : ℕ)
      : Type 0 where
    pub relay : Memᴰ x.node_id transits
    pub quality : IsLeast qm leaf x.node_id (ingresses_of by_node x.node_id) v
    pub ingresses :
        (e : String)
        → Memᴰ e x.ingresses ↔ (
            Memᴰ e (ingresses_of by_node x.node_id)
            × ((u : ℕ) × (quality_of qm leaf x.node_id e ≡ some u)))

  -- The entry of a leaf with at most `limit` relays, and what it has to do with a relay of a quality.
  pub record HasUplinks (transits : List String) (limit : ℕ) (leaf b : String) (w : ℕ)
      (out : Assoc String (List NeighborSpec)) : Type 0 where
    pub specs : List NeighborSpec
    pub entry : lookup leaf out ≡ some specs
    pub within : length specs ≤ limit
    pub sound : (x : NeighborSpec) → Memᴰ x specs → (v : ℕ) × IsUplink transits leaf x v
    pub best :
        ((x : NeighborSpec) × Memᴰ x specs × (x.node_id ≡ b))
        ⊎ ((length specs ≡ limit)
            × ((x : NeighborSpec) → Memᴰ x specs → (v : ℕ) × IsUplink transits leaf x v × (v ≤ w)))

  uplink_spec-IsUplink :
      (leaf : String) (transits : List String) (c : Cand)
      → Memᴰ c (uplink_cands qm by_node leaf transits)
      → IsUplink transits leaf (uplink_spec qm by_node leaf c) c.w
  uplink_spec-IsUplink leaf transits c m =
      let (k, q) = uplink_cands_sound qm by_node leaf c transits m in
      let ings = ingresses_of by_node c.dst in
      record {
        relay = k;
        quality = best_quality-IsLeast qm leaf c.dst ings c.w q;
        ingresses = λ e. (
          λ m. (Mem-measured qm leaf c.dst e ings).0 ((Mem-sort_func string_lt e _).0 m),
          λ p. (Mem-sort_func string_lt e _).1 ((Mem-measured qm leaf c.dst e ings).1 p),
        );
      }

  uplinks_of-HasUplinks :
      (limit : ℕ) (leaf b : String) (w : ℕ) (transits : List String)
      (out : Assoc String (List NeighborSpec))
      → lookup leaf out ≡ some (uplinks_of limit transits leaf)
      → Memᴰ (record { dst = b; w = w }) (uplink_cands qm by_node leaf transits)
      → HasUplinks transits limit leaf b w out
  unfolding chosen_uplinks
  uplinks_of-HasUplinks limit leaf b w transits out l here =
      let cands = uplink_cands qm by_node leaf transits in
      let chosen = chosen_uplinks qm by_node limit leaf transits in
      let specs = uplink_specs qm by_node leaf chosen in
      let size : length (uplinks_of limit transits leaf) ≡ length chosen =
        length-sort_func neighbor_lt specs ∙ length-uplink_specs qm by_node leaf chosen in
      let of_spec : (x : NeighborSpec)
          → Memᴰ x (uplinks_of limit transits leaf)
          → (c : Cand) × Memᴰ c chosen × (x ≡ uplink_spec qm by_node leaf c) =
        λ x m. uplink_specs_of qm by_node leaf x chosen ((Mem-sort_func neighbor_lt x specs).0 m) in
      let up : (c : Cand)
          → Memᴰ c chosen
          → IsUplink transits leaf (uplink_spec qm by_node leaf c) c.w =
        λ c m.
          uplink_spec-IsUplink leaf transits c
            ((Mem-sort_func cand_lt c cands).0 (Mem-take c limit (sort_func cand_lt cands) m)) in
      record {
        specs = uplinks_of limit transits leaf;
        entry = l;
        within =
            let short = length-take_le limit (sort_func cand_lt cands) in
            omega (arith, size, short);
        sound = λ x m.
            let (c, k, q) = of_spec x m in
            (c.w, subst (λ (z : NeighborSpec). IsUplink transits leaf z c.w) (sym q) (up c k));
        best =
            elim (take-sort_func cand_lt (λ (c : Cand). c.w) cand_before cand_after limit cands
              (record { dst = b; w = w }) here) [
                | inl m ↦ inl (
                  uplink_spec qm by_node leaf (record { dst = b; w = w }),
                  (Mem-sort_func neighbor_lt _ specs).1
                      (Mem-uplink_specs qm by_node leaf _ chosen m),
                  refl,
                )
                | inr (full, low) ↦ inr (
                  size ∙ full,
                  λ x m.
                      let (c, k, q) = of_spec x m in
                      (
                        c.w,
                        subst (λ (z : NeighborSpec). IsUplink transits leaf z c.w) (sym q) (up c k),
                        low c k,
                      ),
                )
              ];
      }

  -- A leaf that measures an ingress of a relay gets an entry with at most as many relays as set, two by
  -- default. Each is a transit of which the leaf measures an ingress, with exactly the ingresses that it
  -- measures. The given relay is among them, or the entry is full and no relay of it has a least
  -- measured quality above that of the given one.
  pub assign_leaf_uplinks-best :
      (leaves transits : List String) (n : ℕ) (leaf b : String) (w : ℕ)
      → Memᴰ leaf leaves
      → Memᴰ b transits
      → IsLeast qm leaf b (ingresses_of by_node b) w
      → HasUplinks transits
          (if n == 0 then 2 else n)
          leaf
          b
          w
          (assign_leaf_uplinks qm by_node leaves transits n)
  unfolding assign_leaf_uplinks
  assign_leaf_uplinks-best leaves transits n leaf b w l m e =
      let limit = if n == 0 then default_leaf_uplinks else n in
      let here =
        uplink_cands_complete qm by_node leaf b w transits m
          (IsLeast-best_quality qm leaf b (ingresses_of by_node b) w e) in
      uplinks_of-HasUplinks limit leaf b w transits
        (assign_leaf_uplinks qm by_node leaves transits n)
        (elim (List-cases (uplink_cands qm by_node leaf transits)) [
          | inl z ↦ elim (subst (Memᴰ (record { dst = b; w = w })) z here) [ ]
          | inr (c, cs, z) ↦ assign_uplinks-lookup limit transits leaves leaf [] c cs z (inl l)
        ])
        here
