-- ===== src/Topology/Shortest/Walks.antt =====
-- Walks in the graph of internal/controller/topology/kpaths.go that avoid the removed vertices and
-- edges, and what taking the least item of the queue does.
use Prim.Native.String.{String}
use mathlib.Core.List.{Memᴰ}
use corelink.Prelude.{
  ℕ, suc, ◌≡◌, ◌≢◌, refl, ap, subst, ◌+◌, ◌≤◌, true, false, List, [], ◌∷◌, length, some, inl, inr,
  ◌↔◌, Bool-cases, if◌then◌else◌, arith,
}
use corelink.Prelude.Assoc.{Assoc, lookup, insert, lookup-insert, ◌=?◌, string_eq}
use corelink.Topology.Prune.{contains}
use corelink.Topology.Vertex.{Vertex}
use corelink.Topology.Shortest.{Edge, Graph, edges_of, allowed, PqItem, less, pop_min}

module _ (g : Graph) (removed_v : List Vertex) (removed_e : List String) (src : Vertex) where
  -- A walk from `src`, its vertices from the last one on, with its weight.
  pub data Walk : Vertex → List Vertex → ℕ → Type 0 where
    origin :
        {v : Vertex} {vs : List Vertex} {d : ℕ}
        → contains src removed_v ≡ false
        → v ≡ src
        → vs ≡ v ∷ []
        → d ≡ 0
        → Walk v vs d
    extend :
        {u v : Vertex} {us vs : List Vertex} {du d : ℕ} (e : Edge)
        → Walk u us du
        → Memᴰ e (edges_of g u)
        → allowed g removed_v removed_e u e ≡ true
        → e.to ≡ v
        → vs ≡ v ∷ us
        → d ≡ du + e.w
        → Walk v vs d

  pub Walk-removed :
      {v : Vertex} {vs : List Vertex} {d : ℕ} → Walk v vs d → contains v removed_v ≡ false
  unfolding allowed
  Walk-removed (origin free e p z) = cc
  Walk-removed {v = v} (extend {u = u} e p m a t q z) =
      subst (λ x. contains x removed_v ≡ false) t (ground (arith, a))

  pub Walk-origin :
      {v : Vertex} {vs : List Vertex} {d : ℕ} → Walk v vs d → contains src removed_v ≡ false
  Walk-origin (origin free e p z) = free
  Walk-origin (extend e p m a t q z) = Walk-origin p

  -- A walk visits no removed vertex.
  pub Walk-avoids :
      {v : Vertex} {vs : List Vertex} {d : ℕ} (x : Vertex)
      → Walk v vs d
      → contains x vs ≡ true
      → contains x removed_v ≡ false
  Walk-avoids {v = v} {vs = vs} x (origin free e p z) m =
      ground (arith, ap (contains x) p, string_eq.beq_iff v x, m, free, e)
  Walk-avoids {v = v} {vs = vs} x (extend {us = us} e p m a t q z) k =
      let free = Walk-removed (extend e p m a t q z) in
      let there : contains x (v ∷ us) ≡ true =
        subst (λ (l : List Vertex). contains x l ≡ true) q k in
      elim (Bool-cases (v =? x)) [
        | inl i ↦
            subst (λ (y : Vertex). contains y removed_v ≡ false) ((string_eq.beq_iff v x).0 i) free
        | inr i ↦ Walk-avoids x p (ground (arith, i, there))
      ]

pub contains_ne :
    (u v : String) (vs : List String) → contains u vs ≡ true → contains v vs ≡ false → v ≢ u
contains_ne u v vs a b e = cc (ap (λ (x : String). contains x vs) e, a, b)

module _ {V : Type 0} where
  pub lookup-insert_self :
      (k : String) (x : V) (m : Assoc String V) → lookup k (insert k x m) ≡ some x
  lookup-insert_self k x m = ground (arith, lookup-insert k k x m, string_eq.beq_iff k k)

  pub lookup-insert_ne :
      (k j : String) (x : V) (m : Assoc String V) → k ≢ j → lookup j (insert k x m) ≡ lookup j m
  lookup-insert_ne k j x m n = ground (arith, lookup-insert k j x m, string_eq.beq_iff k j)

less_true : (a b : PqItem) → less a b ≡ true → a.dist ≤ b.dist
less_true a b h = ground (arith, h)

less_false : (a b : PqItem) → less a b ≡ false → b.dist ≤ a.dist
less_false a b h = ground (arith, h)

-- Of `b ∷ a ∷ items`, the item `b` waits while `m` is taken from `a ∷ items`.
wait :
    (z m a b : PqItem) (rest items : List PqItem)
    → Memᴰ z (a ∷ items) ↔ Memᴰ z (m ∷ rest)
    → Memᴰ z (b ∷ a ∷ items) ↔ Memᴰ z (m ∷ b ∷ rest)
wait z m a b rest items h = (
  λ k. elim k [
    | Memᴰ.head q ↦ Memᴰ.tail (Memᴰ.head q)
    | Memᴰ.tail r ↦ elim (h.0 r) [
      | Memᴰ.head q ↦ Memᴰ.head q
      | Memᴰ.tail l ↦ Memᴰ.tail (Memᴰ.tail l)
    ]
  ],
  λ k. elim k [
    | Memᴰ.head q ↦ Memᴰ.tail (h.1 (Memᴰ.head q))
    | Memᴰ.tail r ↦ elim r [
      | Memᴰ.head q ↦ Memᴰ.head q
      | Memᴰ.tail l ↦ Memᴰ.tail (h.1 (Memᴰ.tail l))
    ]
  ],
)

swap : (z a b : PqItem) (items : List PqItem) → Memᴰ z (a ∷ b ∷ items) → Memᴰ z (b ∷ a ∷ items)
swap z a b items k = elim k [
  | Memᴰ.head q ↦ Memᴰ.tail (Memᴰ.head q)
  | Memᴰ.tail r ↦ elim r [ Memᴰ.head q ↦ Memᴰ.head q | Memᴰ.tail l ↦ Memᴰ.tail (Memᴰ.tail l) ]
]

-- The items of a queue are the one that is taken and those that stay.
pub pop_min-Mem :
    (x z : PqItem) (items : List PqItem)
    → Memᴰ z (x ∷ items) ↔ Memᴰ z ((pop_min x items).0 ∷ (pop_min x items).1)
unfolding pop_min
pop_min-Mem x z [] = (λ m. m, λ m. m)
pop_min-Mem x z (y ∷ items) = elim (Bool-cases (less y x)) [
  | inl e ↦ rw (e) (wait z _ y x _ items (pop_min-Mem y z items))
  | inr e ↦ rw (e) (
      let (to, from) = wait z _ x y _ items (pop_min-Mem x z items) in
      (λ k. to (swap z x y items k), λ k. swap z y x items (from k)))
]

-- The item that is taken is a least one.
pub pop_min-le :
    (x z : PqItem) (items : List PqItem) → Memᴰ z (x ∷ items) → (pop_min x items).0.dist ≤ z.dist
unfolding pop_min
pop_min-le x z [] (Memᴰ.head q) = omega (arith, ap (λ (i : PqItem). i.dist) q)
pop_min-le x z [] (Memᴰ.tail r) = elim r [ ]
pop_min-le x z (y ∷ items) k = elim (Bool-cases (less y x)) [
  | inl e ↦ rw (e) (elim k [
    | Memᴰ.head q ↦ omega (
      arith,
      pop_min-le y y items (Memᴰ.head refl),
      less_true y x e,
      ap (λ (i : PqItem). i.dist) q,
    )
    | Memᴰ.tail r ↦ pop_min-le y z items r
  ])
  | inr e ↦ rw (e) (elim (swap z x y items k) [
    | Memᴰ.head q ↦ omega (
      arith,
      pop_min-le x x items (Memᴰ.head refl),
      less_false y x e,
      ap (λ (i : PqItem). i.dist) q,
    )
    | Memᴰ.tail r ↦ pop_min-le x z items r
  ])
]

pub length-pop_min : (x : PqItem) (items : List PqItem) → length (pop_min x items).1 ≡ length items
unfolding pop_min
length-pop_min x [] = refl
length-pop_min x (y ∷ items) = ap suc (length-pop_min (if less y x then y else x) items)
