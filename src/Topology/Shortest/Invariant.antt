-- ===== src/Topology/Shortest/Invariant.antt =====
-- The invariant of the loop of `dijkstra` in internal/controller/topology/kpaths.go, and that it
-- survives the improvement of one distance.
use Prim.Native.String.{String}
use mathlib.Core.List.{Memᴰ}
use corelink.Prelude.{
  ℕ, ◌≡◌, ◌≢◌, refl, sym, ap, subst, ◌∙◌, ◌+◌, ◌*◌, ◌≤◌, ◌<◌, true, false, List, [], ◌∷◌, length,
  some, inl, inr, Bool-cases, arith,
}
use corelink.Prelude.Assoc.{Assoc, lookup, insert, string_eq}
use corelink.Topology.Dag.Colors.{string_cases}
use corelink.Topology.Prune.{contains}
use corelink.Topology.Vertex.{Vertex}
use corelink.Topology.Shortest.{Edge, Graph, edges_of, allowed, PqItem, Dijkstra, improve}
use corelink.Topology.Shortest.Walks.{
  Walk, extend, contains_ne, lookup-insert_self, lookup-insert_ne,
}

abbrev pub NoRepeat : List Vertex → Type 0
NoRepeat [] = Unit {0}
NoRepeat (v ∷ vs) = (contains v vs ≡ false) × NoRepeat vs

-- The predecessors lead from each visited vertex to one that was visited before it.
abbrev pub IsChained : Vertex → Assoc Vertex Vertex → List Vertex → Type 0
IsChained src prev [] = Unit {0}
IsChained src prev (v ∷ vs) =
    (v ≢ src → (u : Vertex) × (lookup v prev ≡ some u) × (contains u vs ≡ true))
    × IsChained src prev vs

IsChained-insert :
    (src v u : Vertex) (prev : Assoc Vertex Vertex) (vs : List Vertex)
    → contains v vs ≡ false
    → IsChained src prev vs
    → IsChained src (insert v u prev) vs
IsChained-insert src v u prev [] n h = tt
IsChained-insert src v u prev (w ∷ vs) n h = (
  λ far.
      let (x, e, m) = h.0 far in
      let other : v ≢ w = contains_ne w v (w ∷ vs) (ground (arith, string_eq.beq_iff w w)) n in
      (x, lookup-insert_ne v w u prev other ∙ e, m),
  IsChained-insert src v u prev vs (ground (arith, n)) h.1,
)

module _ (g : Graph) (removed_v : List Vertex) (removed_e : List String) (src : Vertex)
    (most : ℕ) where
  -- The distance `d` of `v` comes from its predecessor, which is visited.
  pub record Link (s : Dijkstra) (v : Vertex) (d : ℕ) : Type 0 where
    pub u : Vertex
    pub du : ℕ
    pub e : Edge
    pub prev_of : lookup v s.prev ≡ some u
    pub seen : contains u s.visited ≡ true
    pub dist_of : lookup u s.dist ≡ some du
    pub edge : Memᴰ e (edges_of g u)
    pub free : allowed g removed_v removed_e u e ≡ true
    pub leads : e.to ≡ v
    pub weight : d ≡ du + e.w

  pub record Inv (s : Dijkstra) : Type 0 where
    pub sound :
        (v : Vertex) (d : ℕ)
        → lookup v s.dist ≡ some d
        → (vs : List Vertex) × Walk g removed_v removed_e src v vs d
    pub final :
        (v : Vertex)
        → contains v s.visited ≡ true
        → (d : ℕ) × (lookup v s.dist ≡ some d)
          × ((vs : List Vertex) (d' : ℕ) → Walk g removed_v removed_e src v vs d' → d ≤ d')
    pub pending :
        (v : Vertex) (d : ℕ)
        → lookup v s.dist ≡ some d
        → contains v s.visited ≡ false
        → Memᴰ (record { v = v; dist = d }) s.pq
    pub above :
        (it : PqItem) → Memᴰ it s.pq → (d : ℕ) × (lookup it.v s.dist ≡ some d) × (d ≤ it.dist)
    pub at_origin : lookup src s.dist ≡ some 0
    pub linked : (v : Vertex) (d : ℕ) → lookup v s.dist ≡ some d → v ≢ src → Link s v d
    pub chained : IsChained src s.prev s.visited
    pub distinct : NoRepeat s.visited
    pub small : (it : PqItem) → Memᴰ it s.pq → it.dist ≤ length s.visited * most

  -- What a relaxation leaves: the visited vertices and their distances, and no distance grows.
  pub record Kept (s t : Dijkstra) : Type 0 where
    pub same : t.visited ≡ s.visited
    pub lower :
        (v : Vertex) (d : ℕ)
        → lookup v s.dist ≡ some d
        → (d' : ℕ) × (lookup v t.dist ≡ some d') × (d' ≤ d)
    pub settled : (v : Vertex) → contains v s.visited ≡ true → lookup v t.dist ≡ lookup v s.dist

  pub Kept-refl : (s : Dijkstra) → Kept s s
  Kept-refl s = record { same = refl; lower = λ v d h. (d, h, omega arith); settled = λ v h. refl }

  pub Kept-trans : (s t r : Dijkstra) → Kept s t → Kept t r → Kept s r
  Kept-trans s t r a b = record {
    same = b.same ∙ a.same;
    lower = λ v d h.
        let (d', h', l') = a.lower v d h in
        let (d'', h'', l'') = b.lower v d' h' in (d'', h'', omega (arith, l', l''));
    settled = λ v h.
        b.settled v (subst (λ (vs : List Vertex). contains v vs ≡ true) (sym a.same) h)
        ∙ a.settled v h;
  }

  -- The edge `e` leads from the visited `u`, at distance `du`, to a vertex that is not known at a
  -- distance of at most `du + e.w`.
  module _ (s : Dijkstra) (inv : Inv s) (u : Vertex) (du : ℕ) (e : Edge)
      (seen : contains u s.visited ≡ true) (at_u : lookup u s.dist ≡ some du)
      (edge : Memᴰ e (edges_of g u)) (free : allowed g removed_v removed_e u e ≡ true)
      (bound : du + e.w ≤ length s.visited * most)
      (better : (old : ℕ) → lookup e.to s.dist ≡ some old → du + e.w < old) where
    walk_to : (vs : List Vertex) × Walk g removed_v removed_e src e.to vs (du + e.w)
    walk_to = let (us, p) = inv.sound u du at_u in (e.to ∷ us, extend e p edge free refl refl refl)

    pub fresh : contains e.to s.visited ≡ false
    fresh = elim (Bool-cases (contains e.to s.visited)) [
      | inl q ↦
          let (d, h, least) = inv.final e.to q in
          let (vs, p) = walk_to in absurd (omega (arith, better d h, least vs (du + e.w) p))
      | inr q ↦ q
    ]

    other : (v : Vertex) → contains v s.visited ≡ true → e.to ≢ v
    other v h = contains_ne v e.to s.visited h fresh

    far : e.to ≢ src
    far q =
        absurd (omega (arith, better 0 (ap (λ (x : Vertex). lookup x s.dist) q ∙ inv.at_origin)))

    abbrev new : Dijkstra
    new = improve u e.to (du + e.w) s

    at_new : lookup e.to new.dist ≡ some (du + e.w)
    unfolding improve
    at_new = lookup-insert_self e.to (du + e.w) s.dist

    at_other : (v : Vertex) → e.to ≢ v → lookup v new.dist ≡ lookup v s.dist
    unfolding improve
    at_other v n = lookup-insert_ne e.to v (du + e.w) s.dist n

    pub improve-Kept : Kept s (improve u e.to (du + e.w) s)
    unfolding improve
    improve-Kept = record {
      same = refl;
      lower = λ v d h. elim (string_cases e.to v) [
        | inl q ↦ (
          du + e.w,
          subst (λ (x : Vertex). lookup x new.dist ≡ some (du + e.w)) q at_new,
          omega (arith, better d (ap (λ (x : Vertex). lookup x s.dist) q ∙ h)),
        )
        | inr n ↦ (d, at_other v n ∙ h, omega arith)
      ];
      settled = λ v h. at_other v (other v h);
    }

    linked_still : (v : Vertex) (d : ℕ) → e.to ≢ v → Link s v d → Link new v d
    unfolding improve
    linked_still v d n l = record {
      u = l.u;
      du = l.du;
      e = l.e;
      prev_of = lookup-insert_ne e.to v u s.prev n ∙ l.prev_of;
      seen = l.seen;
      dist_of = at_other l.u (other l.u l.seen) ∙ l.dist_of;
      edge = l.edge;
      free = l.free;
      leads = l.leads;
      weight = l.weight;
    }

    linked_new : Link new e.to (du + e.w)
    unfolding improve
    linked_new = record {
      u = u;
      du = du;
      e = e;
      prev_of = lookup-insert_self e.to u s.prev;
      seen = seen;
      dist_of = at_other u (other u seen) ∙ at_u;
      edge = edge;
      free = free;
      leads = refl;
      weight = refl;
    }

    -- What holds of the new distance of `e.to`, and of the old ones elsewhere, holds of all.
    by_place :
        (P : Vertex → ℕ → Type 0)
        → P e.to (du + e.w)
        → ((v : Vertex) (d : ℕ) → e.to ≢ v → lookup v s.dist ≡ some d → P v d)
        → (v : Vertex) (d : ℕ) → lookup v new.dist ≡ some d
        → P v d
    by_place P here there v d h = elim (string_cases e.to v) [
      | inl q ↦
          let there_too : lookup v new.dist ≡ some (du + e.w) =
            subst (λ (x : Vertex). lookup x new.dist ≡ some (du + e.w)) q at_new in
          let same : du + e.w ≡ d = cc (h, there_too) in
          subst (λ (x : Vertex). P x d) q (subst (λ (n : ℕ). P e.to n) same here)
      | inr n ↦ there v d n (sym (at_other v n) ∙ h)
    ]

    above_new :
        (it : PqItem) → Memᴰ it new.pq → (d : ℕ) × (lookup it.v new.dist ≡ some d) × (d ≤ it.dist)
    unfolding improve
    above_new it (Memᴰ.head q) =
        let at_it : lookup it.v new.dist ≡ some (du + e.w) =
          ap (λ (i : PqItem). lookup i.v new.dist) q ∙ at_new in
        (du + e.w, at_it, omega (arith, ap (λ (i : PqItem). i.dist) q))
    above_new it (Memᴰ.tail m) =
        let (d, h, l) = inv.above it m in
        let (d', h', l') = improve-Kept.lower it.v d h in (d', h', omega (arith, l, l'))

    pub improve-Inv : Inv (improve u e.to (du + e.w) s)
    unfolding improve
    improve-Inv = record {
      sound =
          by_place (λ v d. (vs : List Vertex) × Walk g removed_v removed_e src v vs d) walk_to
            (λ v d n h. inv.sound v d h);
      final = λ v m. let (d, h, least) = inv.final v m in (d, at_other v (other v m) ∙ h, least);
      pending =
          by_place (λ v d. contains v s.visited ≡ false → Memᴰ (record { v = v; dist = d }) new.pq)
            (λ m. Memᴰ.head refl) (λ v d n h m. Memᴰ.tail (inv.pending v d h m));
      above = above_new;
      at_origin = at_other src far ∙ inv.at_origin;
      linked =
          by_place (λ v d. v ≢ src → Link new v d) (λ n. linked_new)
            (λ v d n h m. linked_still v d n (inv.linked v d h m));
      chained = IsChained-insert src e.to u s.prev s.visited fresh inv.chained;
      distinct = inv.distinct;
      small = λ it m. elim m [
        | Memᴰ.head q ↦ omega (arith, bound, ap (λ (i : PqItem). i.dist) q)
        | Memᴰ.tail r ↦ inv.small it r
      ];
    }
