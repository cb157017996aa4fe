-- ===== src/Topology/Roles/Partition.antt =====
-- The roles of internal/controller/topology/eligibility.go.
use Prim.Native.String.{String}
use Prim.{¬◌}
use mathlib.Core.List.{Memᴰ}
use corelink.Prelude.{
  ℕ, ◌≡◌, refl, sym, ap, ◌↔◌, ◌≤◌, Bool, true, false, ◌&&◌, List, [], ◌∷◌, inl, inr, Bool-cases,
  leb, arith,
}
use corelink.Prelude.Sort.{string_lt, Mem-sort_func}
use corelink.Topology.Roles.{
  min_confidence, IngressMeta, NodeEligibilityInput, eligible, is_transit, partition,
  classify_nodes,
}

-- An ingress that was reached with enough confidence.
abbrev pub HasStable : List IngressMeta → Type 0
HasStable ingresses =
    (ing : IngressMeta) × Memᴰ ing ingresses
    × (ing.reachable ≡ true)
    × (min_confidence ≤ ing.confidence)

pub eligible_iff :
    (nat : ℕ) (ingresses : List IngressMeta) → (eligible nat ingresses ≡ true) ↔ HasStable ingresses
unfolding eligible
eligible_iff nat [] = (λ h. cc, λ h. elim h.1 [ ])
eligible_iff nat (ing ∷ ingresses) =
    let (to, from) = eligible_iff nat ingresses in
    (
      λ h. elim (Bool-cases (ing.reachable && leb min_confidence ing.confidence)) [
        | inl e ↦ (ing, Memᴰ.head refl, ground (arith, e), ground (arith, e))
        | inr e ↦ let (i, m, r, c) = to (ground (arith, e, h)) in (i, Memᴰ.tail m, r, c)
      ],
      λ s.
          let (i, m, r, c) = s in
          elim m [
            | Memᴰ.head q ↦ ground (
              arith,
              r,
              c,
              ap (λ (x : IngressMeta). x.reachable) q,
              ap (λ (x : IngressMeta). x.confidence) q,
            )
            | Memᴰ.tail k ↦ ground (arith, from (i, k, r, c))
          ],
    )

abbrev pub Named : String → Bool → List NodeEligibilityInput → Type 0
Named x role nodes =
    (n : NodeEligibilityInput) × Memᴰ n nodes × (n.node_id ≡ x) × (is_transit n ≡ role)

partition_iff :
    (x : String) (nodes : List NodeEligibilityInput)
    → (Memᴰ x (partition nodes).0 ↔ Named x true nodes)
      × (Memᴰ x (partition nodes).1 ↔ Named x false nodes)
unfolding partition
partition_iff x [] = ((λ m. elim m [ ], λ n. elim n.1 [ ]), (λ m. elim m [ ], λ n. elim n.1 [ ]))
partition_iff x (n ∷ nodes) =
    let ((to, from), (to', from')) = partition_iff x nodes in
    elim (Bool-cases (is_transit n)) [
      | inl e ↦ rw (e) (
        (
          λ m. elim m [
            | Memᴰ.head q ↦ (n, Memᴰ.head refl, sym q, e)
            | Memᴰ.tail k ↦ let (z, l, a, b) = to k in (z, Memᴰ.tail l, a, b)
          ],
          λ s.
              let (z, l, a, b) = s in
              elim l [
                | Memᴰ.head q ↦ Memᴰ.head (cc (a, ap (λ (i : NodeEligibilityInput). i.node_id) q))
                | Memᴰ.tail k ↦ Memᴰ.tail (from (z, k, a, b))
              ],
        ),
        (
          λ m. let (z, l, a, b) = to' m in (z, Memᴰ.tail l, a, b),
          λ s.
              let (z, l, a, b) = s in
              elim l [
                | Memᴰ.head q ↦ absurd (cc (b, e, ap is_transit q))
                | Memᴰ.tail k ↦ from' (z, k, a, b)
              ],
        ),
      )
      | inr e ↦ rw (e) (
        (
          λ m. let (z, l, a, b) = to m in (z, Memᴰ.tail l, a, b),
          λ s.
              let (z, l, a, b) = s in
              elim l [
                | Memᴰ.head q ↦ absurd (cc (b, e, ap is_transit q))
                | Memᴰ.tail k ↦ from (z, k, a, b)
              ],
        ),
        (
          λ m. elim m [
            | Memᴰ.head q ↦ (n, Memᴰ.head refl, sym q, e)
            | Memᴰ.tail k ↦ let (z, l, a, b) = to' k in (z, Memᴰ.tail l, a, b)
          ],
          λ s.
              let (z, l, a, b) = s in
              elim l [
                | Memᴰ.head q ↦ Memᴰ.head (cc (a, ap (λ (i : NodeEligibilityInput). i.node_id) q))
                | Memᴰ.tail k ↦ Memᴰ.tail (from' (z, k, a, b))
              ],
        ),
      )
    ]

-- A node of the name with a stable ingress, and one without.
abbrev pub Stable : String → List NodeEligibilityInput → Type 0
Stable x nodes = (n : NodeEligibilityInput) × Memᴰ n nodes × (n.node_id ≡ x) × HasStable n.ingresses

abbrev pub Unstable : String → List NodeEligibilityInput → Type 0
Unstable x nodes =
    (n : NodeEligibilityInput) × Memᴰ n nodes × (n.node_id ≡ x) × ¬ HasStable n.ingresses

-- The transits are the names of the nodes with a reachable ingress of confidence 60 or more, the leaves
-- those of the nodes without one.
pub classify_nodes_iff :
    (x : String) (nodes : List NodeEligibilityInput)
    → (Memᴰ x (classify_nodes nodes).0 ↔ Stable x nodes)
      × (Memᴰ x (classify_nodes nodes).1 ↔ Unstable x nodes)
unfolding classify_nodes
classify_nodes_iff x nodes =
    let (transits, leaves) = partition_iff x nodes in
    let (a, b) = Mem-sort_func string_lt x (partition nodes).0 in
    let (c, d) = Mem-sort_func string_lt x (partition nodes).1 in
    (
      (
        λ m. let (n, k, e, t) = transits.0 (a m) in (n, k, e, (eligible_iff n.nat n.ingresses).0 t),
        λ s. let (n, k, e, h) = s in b (transits.1 (n, k, e, (eligible_iff n.nat n.ingresses).1 h)),
      ),
      (
        λ m.
            let (n, k, e, t) = leaves.0 (c m) in
            (n, k, e, λ h. absurd (cc ((eligible_iff n.nat n.ingresses).1 h, t))),
        λ s.
            let (n, k, e, h) = s in
            d (
              leaves.1 (
                n,
                k,
                e,
                elim (Bool-cases (is_transit n)) [
                  | inl t ↦ absurd (h ((eligible_iff n.nat n.ingresses).0 t))
                  | inr t ↦ t
                ],
              )),
      ),
    )
