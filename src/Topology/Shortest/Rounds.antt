-- ===== src/Topology/Shortest/Rounds.antt =====
-- One round of the loop of `dijkstra` in internal/controller/topology/kpaths.go.
use Prim.Native.String.{String}
use mathlib.Core.List.{Memᴰ}
use corelink.Prelude.{
  ℕ, suc, ◌≡◌, ◌≢◌, sym, ap, subst, ◌∙◌, ◌+◌, ◌*◌, ◌^◌, ◌≤◌, ◌<◌, ◌⊎◌, true, false, List, ◌∷◌,
  length, some, inl, inr, Bool-cases, arith,
}
use corelink.Prelude.Assoc.{lookup, string_eq}
use corelink.Topology.Dag.Colors.{string_cases}
use corelink.Topology.Prune.{contains}
use corelink.Topology.Vertex.{Vertex}
use corelink.Topology.Shortest.{Edge, Graph, edges_of, allowed, PqItem, Dijkstra, relax_edges}
use corelink.Topology.Shortest.Walks.{Walk, origin, extend}
use corelink.Topology.Shortest.Invariant.{Inv, Link}
use corelink.Topology.Shortest.Relax.{Reaches, Expands, relax_edges-Relaxed}

pub contains-cons :
    (u v : String) (vs : List String) → contains u vs ≡ true → contains u (v ∷ vs) ≡ true
contains-cons u v vs h = ground (arith, h)

pub contains-cons_self : (v : String) (vs : List String) → contains v (v ∷ vs) ≡ true
contains-cons_self v vs = ground (arith, string_eq.beq_iff v v)

contains-cons_ne :
    (u v : String) (vs : List String) → v ≢ u → contains u (v ∷ vs) ≡ true → contains u vs ≡ true
contains-cons_ne u v vs n h = ground (arith, string_eq.beq_iff v u, h)

contains-cons_false :
    (u v : String) (vs : List String)
    → contains u (v ∷ vs) ≡ false
    → (contains u vs ≡ false) × (v ≢ u)
contains-cons_false u v vs h = (ground (arith, h), λ e. ground (arith, string_eq.beq_iff v u, h))

module _ (g : Graph) (removed_v : List Vertex) (removed_e : List String) (src : Vertex)
    (most : ℕ) where
  -- The edges of the visited vertices have been relaxed.
  pub record Ready (s : Dijkstra) : Type 0 where
    pub inv : Inv g removed_v removed_e src most s
    pub closed :
        (x : Vertex) (e : Edge) (dx : ℕ)
        → contains x s.visited ≡ true
        → Memᴰ e (edges_of g x)
        → lookup x s.dist ≡ some dx
        → Reaches g removed_v removed_e src most s x dx e

  -- `cur` is a least item of the queue, and `rest` holds the others.
  pub record Taken (s : Dijkstra) (cur : PqItem) (rest : List PqItem) : Type 0 where
    pub there : Memᴰ cur s.pq
    pub only : (it : PqItem) → Memᴰ it s.pq → Memᴰ it (cur ∷ rest)
    pub back : (it : PqItem) → Memᴰ it rest → Memᴰ it s.pq
    pub least : (it : PqItem) → Memᴰ it s.pq → cur.dist ≤ it.dist

  -- A walk ends at a visited vertex that is no further, or an item of the queue is no further.
  pub frontier :
      (s : Dijkstra) {v : Vertex} {vs : List Vertex} {d : ℕ}
      → Ready s
      → Walk g removed_v removed_e src v vs d
      → ((d0 : ℕ) × (lookup v s.dist ≡ some d0) × (contains v s.visited ≡ true) × (d0 ≤ d))
        ⊎ ((it : PqItem) × Memᴰ it s.pq × (it.dist ≤ d))
  frontier s {v = v} r (origin free e q z) =
      let at_v : lookup v s.dist ≡ some 0 =
        ap (λ (x : Vertex). lookup x s.dist) e ∙ r.inv.at_origin in
      elim (Bool-cases (contains v s.visited)) [
        | inl k ↦ inl (0, at_v, k, omega arith)
        | inr k ↦ inr (record { v = v; dist = 0 }, r.inv.pending v 0 at_v k, omega arith)
      ]
  frontier s {v = v} r (extend {u = u} e p m a t q z) = elim (frontier s r p) [
    | inr (it, k, l) ↦ inr (it, k, omega (arith, l, z))
    | inl (dx, h, c, l) ↦
        let (dv, hv, lv) = r.closed u e dx c m h a in
        let at_v : lookup v s.dist ≡ some dv = ap (λ (x : Vertex). lookup x s.dist) (sym t) ∙ hv in
        elim (Bool-cases (contains v s.visited)) [
          | inl k ↦ inl (dv, at_v, k, omega (arith, l, lv, z))
          | inr k ↦
              inr (record { v = v; dist = dv }, r.inv.pending v dv at_v k, omega (arith, l, lv, z))
        ]
  ]

  Link-visited :
      (s : Dijkstra) (rest : List PqItem) (visited : List Vertex) (v : Vertex) (d : ℕ)
      (l : Link g removed_v removed_e src most s v d)
      → contains l.u visited ≡ true
      → Link g removed_v removed_e src most (record s { pq = rest; visited = visited }) v d
  Link-visited s rest visited v d l seen = record {
    u = l.u;
    du = l.du;
    e = l.e;
    prev_of = l.prev_of;
    seen = seen;
    dist_of = l.dist_of;
    edge = l.edge;
    free = l.free;
    leads = l.leads;
    weight = l.weight;
  }

  module _ (s : Dijkstra) (r : Ready s) (cur : PqItem) (rest : List PqItem)
      (taken : Taken s cur rest) where
    -- An item of a visited vertex is dropped.
    pub stale-Ready : contains cur.v s.visited ≡ true → Ready (record s { pq = rest })
    stale-Ready old = record {
      inv = record {
        sound = r.inv.sound;
        final = r.inv.final;
        pending = λ v d h n.
            elim (taken.only (record { v = v; dist = d }) (r.inv.pending v d h n)) [
              | Memᴰ.head q ↦ absurd (cc (ap (λ (i : PqItem). contains i.v s.visited) q, n, old))
              | Memᴰ.tail m ↦ m
            ];
        above = λ it m. r.inv.above it (taken.back it m);
        at_origin = r.inv.at_origin;
        linked =
            λ v d h n. let l = r.inv.linked v d h n in Link-visited s rest s.visited v d l l.seen;
        chained = r.inv.chained;
        distinct = r.inv.distinct;
        small = λ it m. r.inv.small it (taken.back it m);
      };
      closed = r.closed;
    }

    module _ (new : contains cur.v s.visited ≡ false) where
      abbrev pub entered : Dijkstra
      entered = record s { visited = cur.v ∷ s.visited; pq = rest }

      pub at_cur : lookup cur.v s.dist ≡ some cur.dist
      at_cur =
          let (d, h, l) = r.inv.above cur taken.there in
          let k = taken.least (record { v = cur.v; dist = d }) (r.inv.pending cur.v d h new) in
          let same : d ≡ cur.dist = omega (arith, l, k) in h ∙ ap some same

      cur_least :
          (vs : List Vertex) (d : ℕ) → Walk g removed_v removed_e src cur.v vs d → cur.dist ≤ d
      cur_least vs d p = elim (frontier s r p) [
        | inl (d0, h, c, l) ↦ absurd (cc (c, new))
        | inr (it, m, l) ↦ omega (arith, taken.least it m, l)
      ]

      more : suc (length s.visited) * most ≡ length s.visited * most + most
      more = omega arith

      pub entered-Inv : Inv g removed_v removed_e src most entered
      entered-Inv = record {
        sound = r.inv.sound;
        final = λ v m. elim (string_cases cur.v v) [
          | inl q ↦
              subst
                (λ (x : Vertex).
                  (d : ℕ) × (lookup x s.dist ≡ some d)
                  × ((vs : List Vertex) (d' : ℕ) → Walk g removed_v removed_e src x vs d' → d ≤ d'))
                q (cur.dist, at_cur, cur_least)
          | inr n ↦ r.inv.final v (contains-cons_ne v cur.v s.visited n m)
        ];
        pending = λ v d h n.
            let (old, ne) = contains-cons_false v cur.v s.visited n in
            elim (taken.only (record { v = v; dist = d }) (r.inv.pending v d h old)) [
              | Memᴰ.head q ↦ absurd (ne (sym (ap (λ (i : PqItem). i.v) q)))
              | Memᴰ.tail m ↦ m
            ];
        above = λ it m. r.inv.above it (taken.back it m);
        at_origin = r.inv.at_origin;
        linked = λ v d h n.
            let l = r.inv.linked v d h n in
            Link-visited s rest (cur.v ∷ s.visited) v d l
              (contains-cons l.u cur.v s.visited l.seen);
        chained = (
          λ far. let l = r.inv.linked cur.v cur.dist at_cur far in (l.u, l.prev_of, l.seen),
          r.inv.chained,
        );
        distinct = (new, r.inv.distinct);
        small = λ it m. omega (arith, more, r.inv.small it (taken.back it m));
      }

      -- After the relaxation of the edges of a vertex that is visited now, the state is ready again.
      pub expand-Ready :
          ((e : Edge) → Memᴰ e (edges_of g cur.v) → e.w ≤ most)
          → suc (length s.visited) * most < 2 ^ 64
          → (let t = relax_edges g removed_v removed_e cur (edges_of g cur.v) entered in
              Ready t × (t.visited ≡ cur.v ∷ s.visited))
      expand-Ready light fits =
          let after = relax_edges g removed_v removed_e cur (edges_of g cur.v) entered in
          let x : Expands g removed_v removed_e src most cur entered = record {
            seen = contains-cons_self cur.v s.visited;
            at_cur = at_cur;
            room = λ e m.
                let bound = r.inv.small cur taken.there in
                (
                  omega (arith, more, light e m, bound),
                  omega (arith, more, light e m, bound, fits),
                );
          } in
          let ((kept, inv), reaches) =
            relax_edges-Relaxed g removed_v removed_e src most cur (edges_of g cur.v) entered
              entered-Inv x (λ e m. m) in
          (
            record {
              inv = inv;
              closed = λ y e dy seen m h free. elim (string_cases cur.v y) [
                | inl q ↦
                    let at_y : lookup y after.dist ≡ some cur.dist =
                      subst (λ (z : Vertex). lookup z after.dist ≡ some cur.dist) q
                        (kept.settled cur.v (contains-cons_self cur.v s.visited) ∙ at_cur) in
                    let same : cur.dist ≡ dy = cc (h, at_y) in
                    let (d, hd, l) =
                      reaches e (subst (λ (z : Vertex). Memᴰ e (edges_of g z)) (sym q) m) (
                        subst (λ (z : Vertex). allowed g removed_v removed_e z e ≡ true) (sym q)
                          free) in
                    (d, hd, omega (arith, l, same))
                | inr n ↦
                    let entered_y : contains y entered.visited ≡ true =
                      subst (λ (vs : List Vertex). contains y vs ≡ true) kept.same seen in
                    let (d, hd, l) =
                      r.closed y e dy (contains-cons_ne y cur.v s.visited n entered_y) m
                        (sym (kept.settled y entered_y) ∙ h) free in
                    let (d', hd', l') = kept.lower e.to d hd in (d', hd', omega (arith, l, l'))
              ];
            },
            kept.same,
          )
