-- ===== src/Topology/Shortest/Search.antt =====
-- The loop of `dijkstra` in internal/controller/topology/kpaths.go ends, and what holds where it does.
use Prim.Native.String.{String}
use native.Mathlib.Nat.{mul-le-mul_right}
use mathlib.Core.List.{Memᴰ}
use corelink.Prelude.{
  ℕ, zero, suc, ◌≡◌, refl, sym, ap, subst, ◌+◌, ◌*◌, ◌^◌, ◌≤◌, ◌<◌, ◌⊎◌, true, false, List, [], ◌∷◌,
  length, some, inl, inr, Bool-cases, List-cases, arith,
}
use corelink.Prelude.Assoc.{◌=?◌, string_eq}
use corelink.Topology.Prune.{contains}
use corelink.Topology.Vertex.{Vertex}
use corelink.Topology.Shortest.{
  Edge, Graph, edges_of, PqItem, pop_min, Dijkstra, relax_edges, take_item, round, search,
}
use corelink.Topology.Shortest.Walks.{pop_min-Mem, pop_min-le, length-pop_min}
use corelink.Topology.Shortest.Invariant.{Inv}
use corelink.Topology.Shortest.Rounds.{
  Ready, Taken, stale-Ready, entered-Inv, expand-Ready, contains-cons_self,
}
use corelink.Topology.Shortest.Fuel.{unvisited, unvisited-visit, length-relax_edges}

module _ (g : Graph) (removed_v : List Vertex) (removed_e : List String) (src dst : Vertex)
    (most : ℕ) where
  -- Where the loop ends: at the visit of `dst`, or with an empty queue.
  pub data Stopped (s : Dijkstra) : Type 0 where
    arrived : Inv g removed_v removed_e src most s → contains dst s.visited ≡ true → Stopped s
    drained : Ready g removed_v removed_e src most s → s.pq ≡ [] → Stopped s

  abbrev pub work : Dijkstra → ℕ
  work s = length s.pq + unvisited g.adj s.visited

  -- A round ends the loop in a state of `Stopped`, or leaves less work in a state that is ready.
  pub data Goes (s : Dijkstra) (o : Dijkstra ⊎ Dijkstra) : Type 0 where
    ends : (t : Dijkstra) → o ≡ inl t → Stopped t → Goes s o
    goes_on :
        (t : Dijkstra)
        → o ≡ inr t
        → Ready g removed_v removed_e src most t
        → length t.visited + work t ≤ length s.visited + work s
        → work t < work s
        → Goes s o

  module _ (light : (u : Vertex) (e : Edge) → Memᴰ e (edges_of g u) → e.w ≤ most) (limit : ℕ)
      (fits : limit * most < 2 ^ 64) where
    expand-Goes :
        (s : Dijkstra) (cur : PqItem) (rest : List PqItem)
        → Ready g removed_v removed_e src most s
        → Taken g removed_v removed_e src most s cur rest
        → length s.pq ≡ suc (length rest)
        → length s.visited + work s ≤ limit
        → contains cur.v s.visited ≡ false
        → Goes s (take_item g removed_v removed_e dst cur (record s { pq = rest }))
    unfolding take_item
    expand-Goes s cur rest r taken size room new =
        let seen : Dijkstra = record s { visited = cur.v ∷ s.visited; pq = rest } in
        elim (Bool-cases (cur.v =? dst)) [
          | inl q ↦ ends seen (rw (take_item, new, q) refl) (
              arrived (entered-Inv g removed_v removed_e src most s r cur rest taken new) (
                subst (λ (v : Vertex). contains v (cur.v ∷ s.visited) ≡ true)
                  ((string_eq.beq_iff cur.v dst).0 q) (contains-cons_self cur.v s.visited)))
          | inr n ↦
              let t = relax_edges g removed_v removed_e cur (edges_of g cur.v) seen in
              let within : suc (length s.visited) * most < 2 ^ 64 =
                let le : suc (length s.visited) ≤ limit = omega (arith, size, room) in
                omega (arith, mul-le-mul_right most le, fits) in
              let (ready, same) =
                expand-Ready g removed_v removed_e src most s r cur rest taken new
                  (λ e m. light cur.v e m) within in
              let less = unvisited-visit g cur.v s.visited new in
              let more = length-relax_edges g removed_v removed_e cur (edges_of g cur.v) seen in
              let left : unvisited g.adj t.visited ≡ unvisited g.adj (cur.v ∷ s.visited) =
                ap (unvisited g.adj) same in
              let longer : length t.visited ≡ suc (length s.visited) =
                ap (λ (vs : List Vertex). length vs) same in
              goes_on t (rw (take_item, new, n) refl) ready
                (omega (arith, less, more, left, longer, size))
                (omega (arith, less, more, left, size))
        ]

    round-Goes :
        (s : Dijkstra)
        → Ready g removed_v removed_e src most s
        → length s.visited + work s ≤ limit
        → Goes s (round g removed_v removed_e dst s)
    unfolding round take_item
    round-Goes s r room = elim (List-cases s.pq) [
      | inl e ↦ ends s (simp (round, e) refl) (drained r e)
      | inr (it, its, e) ↦
          let popped = pop_min it its in
          let cur = popped.0 in
          let rest = popped.1 in
          let step : round g removed_v removed_e dst s
              ≡ take_item g removed_v removed_e dst cur (record s { pq = rest }) =
            rw (round, e) refl in
          let taken : Taken g removed_v removed_e src most s cur rest = record {
            there =
                subst (λ (q : List PqItem). Memᴰ cur q) (sym e)
                  ((pop_min-Mem it cur its).1 (Memᴰ.head refl));
            only = λ z m. (pop_min-Mem it z its).0 (subst (λ (q : List PqItem). Memᴰ z q) e m);
            back = λ z m.
                subst (λ (q : List PqItem). Memᴰ z q) (sym e)
                  ((pop_min-Mem it z its).1 (Memᴰ.tail m));
            least = λ z m. pop_min-le it z its (subst (λ (q : List PqItem). Memᴰ z q) e m);
          } in
          let size : length s.pq ≡ suc (length rest) =
            omega (arith, ap (λ (q : List PqItem). length q) e, length-pop_min it its) in
          subst (Goes s) (sym step) (elim (Bool-cases (contains cur.v s.visited)) [
            | inl old ↦
                goes_on (record s { pq = rest }) (rw (take_item, old) refl)
                  (stale-Ready g removed_v removed_e src most s r cur rest taken old)
                  (omega (arith, size)) (omega (arith, size))
            | inr new ↦ expand-Goes s cur rest r taken size room new
          ])
    ]

    pub search_lem :
        (fuel : ℕ) (s : Dijkstra)
        → Ready g removed_v removed_e src most s
        → length s.visited + work s ≤ limit
        → work s < fuel
        → (t : Dijkstra) × (search g removed_v removed_e fuel dst s ≡ some t) × Stopped t
    unfolding search
    search_lem zero s r room few = absurd (omega (arith, few))
    search_lem (suc fuel) s r room few = elim (round-Goes s r room) [
      | ends t e stop ↦ (t, rw (search, e) refl, stop)
      | goes_on t e ready less smaller ↦
          let (final, q, stop) =
            search_lem fuel t ready (omega (arith, less, room)) (omega (arith, smaller, few)) in
          (final, rw (search, e) q, stop)
    ]
