-- ===== src/Topology/Baseline/Routes.antt =====
-- Paths in the split graph of internal/controller/topology/kpaths.go: what `dijkstra` returns is one, and
-- a path goes on along another one from a vertex of it.
use Prim.Native.Nat.{Ordering}
use Prim.Native.String.{String, compare}
use text.Mathlib.Text.{is_eq}
use text.Mathlib.TextEquality.{path_by_compare}
use mathlib.Core.List.{Memᴰ}
use corelink.Prelude.{
  ℕ, zero, suc, ◌≡◌, refl, sym, ap, subst, ◌∙◌, ◌<◌, ◌⊎◌, true, false, List, [], ◌∷◌, ◌++◌, length,
  take, inl, inr, if◌then◌else◌, arith,
}
use corelink.Prelude.Assoc.{◌=?◌, string_eq}
use corelink.Topology.Dag.Colors.{string_cases}
use corelink.Topology.Prune.{contains}
use corelink.Topology.Vertex.{Vertex}
use corelink.Topology.Shortest.{Edge, Graph, edges_of, reverse}
use corelink.Topology.Shortest.Walks.{Walk, origin, extend}
use corelink.Topology.Shortest.Invariant.{NoRepeat}
use corelink.Topology.Baseline.{compare_path_seq}

pub record HasEdge (g : Graph) (v u : Vertex) : Type 0 where
  pub e : Edge
  pub edge : Memᴰ e (edges_of g v)
  pub leads : e.to ≡ u

-- The vertices follow edges and end at `dst`.
abbrev pub IsRoute : Graph → Vertex → List Vertex → Type 0
IsRoute g dst [] = ⊥
IsRoute g dst (v ∷ []) = v ≡ dst
IsRoute g dst (v ∷ u ∷ path) = HasEdge g v u × IsRoute g dst (u ∷ path)

abbrev pub StartsAt : Vertex → List Vertex → Type 0
StartsAt v [] = ⊥
StartsAt v (u ∷ path) = u ≡ v

-- A path from `src` to `dst` that visits no vertex twice.
pub record IsPath (g : Graph) (src dst : Vertex) (path : List Vertex) : Type 0 where
  pub starts : StartsAt src path
  pub route : IsRoute g dst path
  pub simple : NoRepeat path

contains-snoc :
    (x v : Vertex) (path : List Vertex)
    → contains x (path ++ (v ∷ [])) ≡ (if v =? x then true else contains x path)
contains-snoc x v [] = refl
contains-snoc x v (u ∷ path) = ground (arith, contains-snoc x v path)

pub contains-reverse :
    (x : Vertex) (path : List Vertex) → contains x (reverse path) ≡ contains x path
contains-reverse x [] = refl
contains-reverse x (v ∷ path) =
    ground (arith, contains-snoc x v (reverse path), contains-reverse x path)

pub NoRepeat-append :
    (p q : List Vertex)
    → NoRepeat p
    → NoRepeat q
    → ((x : Vertex) → contains x p ≡ true → contains x q ≡ false)
    → NoRepeat (p ++ q)
NoRepeat-append [] q a b apart = b
NoRepeat-append (v ∷ p) q a b apart = (
  neither p a.0 (apart v (ground (arith, string_eq.beq_iff v v))),
  NoRepeat-append p q a.1 b (λ x h. apart x (ground (arith, h))),
)
  where
    neither :
        (r : List Vertex)
        → contains v r ≡ false
        → contains v q ≡ false
        → contains v (r ++ q) ≡ false
    neither [] h k = k
    neither (u ∷ r) h k = ground (arith, h, neither r (ground (arith, h)) k)

NoRepeat-reverse : (p : List Vertex) → NoRepeat p → NoRepeat (reverse p)
NoRepeat-reverse [] a = tt
NoRepeat-reverse (v ∷ p) a =
    NoRepeat-append (reverse p) (v ∷ []) (NoRepeat-reverse p a.1) (refl, tt)
      (λ x h.
        let inside : contains x p ≡ true = sym (contains-reverse x p) ∙ h in
        elim (string_cases v x) [
          | inl e ↦ absurd (cc (ap (λ (z : Vertex). contains z p) e, inside, a.0))
          | inr n ↦ ground (arith, string_eq.beq_iff v x, n)
        ])

IsRoute-snoc :
    (g : Graph) (u v : Vertex) (path : List Vertex)
    → IsRoute g u path
    → HasEdge g u v
    → IsRoute g v (path ++ (v ∷ []))
IsRoute-snoc g u v [] r e = elim r [ ]
IsRoute-snoc g u v (x ∷ []) r e = (subst (λ (z : Vertex). HasEdge g z v) (sym r) e, refl)
IsRoute-snoc g u v (x ∷ y ∷ path) r e = (r.0, IsRoute-snoc g u v (y ∷ path) r.1 e)

StartsAt-append : (v : Vertex) (p q : List Vertex) → StartsAt v p → StartsAt v (p ++ q)
StartsAt-append v [] q h = elim h [ ]
StartsAt-append v (u ∷ p) q h = h

module _ (g : Graph) (removed_v : List Vertex) (removed_e : List String) (src : Vertex) where
  Walk-reverse :
      {v : Vertex} {rev : List Vertex} {d : ℕ}
      → Walk g removed_v removed_e src v rev d
      → StartsAt src (reverse rev) × IsRoute g v (reverse rev)
  Walk-reverse {v = v} (origin free e q z) =
      subst (λ (r : List Vertex). StartsAt src (reverse r) × IsRoute g v (reverse r)) (sym q)
        (e, refl)
  Walk-reverse {v = v} (extend {u = u} {us = us} e p m a t q z) =
      let (s, r) = Walk-reverse p in
      subst (λ (l : List Vertex). StartsAt src (reverse l) × IsRoute g v (reverse l)) (sym q)
        (
          StartsAt-append src (reverse us) (v ∷ []) s,
          IsRoute-snoc g u v (reverse us) r (record { e = e; edge = m; leads = t }),
        )

  pub Walk-IsPath :
      {v : Vertex} {rev : List Vertex} {d : ℕ}
      → Walk g removed_v removed_e src v rev d
      → NoRepeat rev
      → IsPath g src v (reverse rev)
  Walk-IsPath {rev = rev} p simple =
      let (s, r) = Walk-reverse p in
      record { starts = s; route = r; simple = NoRepeat-reverse rev simple }

order_cases : (o : Ordering) → (is_eq o ≡ false) ⊎ (o ≡ Ordering.eq)
order_cases Ordering.lt = inl refl
order_cases Ordering.eq = inr refl
order_cases Ordering.gt = inl refl

pub compare_path_seq-eq : (a b : List Vertex) → is_eq (compare_path_seq a b) ≡ true → a ≡ b
unfolding compare_path_seq
compare_path_seq-eq [] [] h = refl
compare_path_seq-eq [] (v ∷ b) h = cc
compare_path_seq-eq (u ∷ a) [] h = cc
compare_path_seq-eq (u ∷ a) (v ∷ b) h = elim (order_cases (compare u v)) [
  | inl n ↦ ground (arith, n, h)
  | inr e ↦
      let rest : is_eq (compare_path_seq a b) ≡ true = rw (compare_path_seq, e) at h in
      let tails = compare_path_seq-eq a b rest in
      let heads = path_by_compare u v e in rw (tails, heads) refl
]

IsRoute-end :
    (g : Graph) (dst : Vertex) (path : List Vertex) → IsRoute g dst path → contains dst path ≡ true
IsRoute-end g dst [] r = elim r [ ]
IsRoute-end g dst (v ∷ []) r = ground (arith, string_eq.beq_iff v dst, r)
IsRoute-end g dst (v ∷ u ∷ path) r = ground (arith, IsRoute-end g dst (u ∷ path) r.1)

-- A part of a path that leaves out its end does not end at `dst`.
pub IsRoute-take :
    (g : Graph) (dst : Vertex) (path : List Vertex) (i : ℕ)
    → IsRoute g dst path
    → NoRepeat path
    → suc i < length path
    → IsRoute g dst (take (suc i) path)
    → ⊥
IsRoute-take g dst [] i r s l t = elim r [ ]
IsRoute-take g dst (v ∷ []) i r s l t = absurd (omega (arith, l))
IsRoute-take g dst (v ∷ u ∷ path) zero r s l t =
    cc (ap (λ (z : Vertex). contains z (u ∷ path)) t, s.0, IsRoute-end g dst (u ∷ path) r.1)
IsRoute-take g dst (v ∷ u ∷ path) (suc i) r s l t =
    IsRoute-take g dst (u ∷ path) i r.1 s.1 (omega (arith, l)) t.1
