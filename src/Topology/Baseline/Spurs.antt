-- ===== src/Topology/Baseline/Spurs.antt =====
-- The spur paths of Yen's algorithm in internal/controller/topology/kpaths.go: no index is out of
-- range, and every candidate is a path.
use Prim.Native.String.{String}
use text.Mathlib.Text.{is_eq}
use mathlib.Core.List.{Memᴰ}
use corelink.Prelude.{
  ℕ, zero, suc, ◌≡◌, refl, sym, ap, subst, ◌∙◌, ◌+◌, ◌*◌, ◌^◌, ◌≤◌, ◌<◌, true, false, ◌&&◌, ◌||◌,
  List, [], ◌∷◌, ◌++◌, length, take, drop, inl, inr, Bool-cases, arith, ltb, leb,
}
use corelink.Prelude.Assoc.{string_eq}
use corelink.Prelude.Outcome.{ok}
use corelink.Prelude.Members.{Mem-snoc}
use corelink.Topology.Prune.{contains}
use corelink.Topology.Vertex.{Vertex}
use corelink.Topology.Shortest.{Edge, Graph, edges_of, max_w, reverse, count_edges, edge_key}
use corelink.Topology.Shortest.Walks.{Walk, Walk-avoids}
use corelink.Topology.Shortest.Invariant.{NoRepeat}
use corelink.Topology.Shortest.Correct.{dijkstra-IsShortest}
use corelink.Topology.Baseline.{
  Candidate, compare_path_seq, path_seq_key, removed_edge, removed_edges, Pending, is_nil, add_spur,
  spur_node, spur_at, spurs,
}
use corelink.Topology.Baseline.Routes.{
  HasEdge, IsRoute, StartsAt, IsPath, contains-reverse, NoRepeat-append, Walk-IsPath,
  compare_path_seq-eq, IsRoute-take,
}

-- The vertex `i` of a list that is longer, the list up to it, and from it on.
spur_node-ok :
    (i : ℕ) (path : List Vertex)
    → i < length path
    → (node : Vertex) × (rest : List Vertex) × (drop i path ≡ node ∷ rest)
spur_node-ok i [] l = absurd (omega (arith, l))
spur_node-ok zero (v ∷ path) l = (v, path, refl)
spur_node-ok (suc i) (v ∷ path) l = spur_node-ok i path (omega (arith, l))

take_all : (i : ℕ) (p : List Vertex) (u : Vertex) → drop i p ≡ u ∷ [] → take (suc i) p ≡ p
take_all zero [] u e = refl
take_all zero (v ∷ []) u e = refl
take_all zero (v ∷ w ∷ p) u e = absurd (cc (ap (λ (l : List Vertex). length l) e))
take_all (suc i) [] u e = refl
take_all (suc i) (v ∷ p) u e = ap (◌∷◌ v) (take_all i p u e)

NoRepeat-take : (i : ℕ) (path : List Vertex) → NoRepeat path → NoRepeat (take i path)
NoRepeat-take zero path s = tt
NoRepeat-take (suc i) [] s = tt
NoRepeat-take (suc i) (v ∷ path) s = (missing i path s.0, NoRepeat-take i path s.1)
  where
    missing : (n : ℕ) (p : List Vertex) → contains v p ≡ false → contains v (take n p) ≡ false
    missing zero p h = refl
    missing (suc n) [] h = refl
    missing (suc n) (u ∷ p) h = ground (arith, h, missing n p (ground (arith, h)))

join-StartsAt :
    (i : ℕ) (path spur rest : List Vertex) (src node : Vertex)
    → StartsAt src path
    → drop i path ≡ node ∷ rest
    → StartsAt node spur
    → StartsAt src (take i path ++ spur)
join-StartsAt i [] spur rest src node h e s = elim h [ ]
join-StartsAt zero (v ∷ path) [] rest src node h e s = elim s [ ]
join-StartsAt zero (v ∷ path) (u ∷ spur) rest src node h e s = cc
join-StartsAt (suc i) (v ∷ path) spur rest src node h e s = h

join-IsRoute :
    (g : Graph) (dst : Vertex) (i : ℕ) (path spur rest : List Vertex) (node : Vertex)
    → IsRoute g dst path
    → drop i path ≡ node ∷ rest
    → StartsAt node spur
    → IsRoute g dst spur
    → IsRoute g dst (take i path ++ spur)
join-IsRoute g dst i [] spur rest node r e s t = elim r [ ]
join-IsRoute g dst zero (v ∷ path) spur rest node r e s t = t
join-IsRoute g dst (suc zero) (v ∷ []) spur rest node r e s t = cc
join-IsRoute g dst (suc (suc i)) (v ∷ []) spur rest node r e s t = cc
join-IsRoute g dst (suc zero) (v ∷ u ∷ path) [] rest node r e s t = elim s [ ]
join-IsRoute g dst (suc zero) (v ∷ u ∷ path) (x ∷ spur) rest node r e s t =
    let same : u ≡ x = cc (e, s) in (subst (λ (z : Vertex). HasEdge g v z) same r.0, t)
join-IsRoute g dst (suc (suc i)) (v ∷ u ∷ path) spur rest node r e s t =
    (r.0, join-IsRoute g dst (suc i) (u ∷ path) spur rest node r.1 e s t)

module _ (g : Graph) (src dst : Vertex) where
  abbrev pub Paths : List (List Vertex) → Type 0
  Paths result = (p : List Vertex) → Memᴰ p result → IsPath g src dst p

  removed_edge-ok :
      (i : ℕ) (prev_path p : List Vertex)
      → IsPath g src dst prev_path
      → suc i < length prev_path
      → IsPath g src dst p
      → (keys : List String) × (removed_edge i (take (suc i) prev_path) p ≡ ok keys)
  unfolding removed_edge
  removed_edge-ok i prev_path p prev l path =
      elim (Bool-cases
        (ltb i (length p) && is_eq (compare_path_seq (take (suc i) p) (take (suc i) prev_path)))) [
          | inr e ↦ ([], rw (removed_edge, e) refl)
          | inl e ↦
              let (node, rest, d) = spur_node-ok i p (ground (arith, e)) in
              elim rest
                  as (λ r.
                    drop i p ≡ node ∷ r
                    → (keys : List String) × (removed_edge i (take (suc i) prev_path) p
                        ≡ ok keys)) [
                          | [] ↦ λ d.
                              let same : is_eq
                                    (compare_path_seq (take (suc i) p) (take (suc i) prev_path))
                                  ≡ true =
                                ground (arith, e) in
                              let whole : p ≡ take (suc i) prev_path =
                                sym (take_all i p node d)
                                ∙ compare_path_seq-eq (take (suc i) p) (take (suc i) prev_path)
                                    same in
                              absurd (
                                IsRoute-take g dst prev_path i prev.route prev.simple l
                                  (subst (IsRoute g dst) whole path.route))
                          | u ∷ more ↦ λ d. (edge_key node u ∷ [], rw (removed_edge, e, d) refl)
                        ]
                d
        ]

  removed_edges-ok :
      (i : ℕ) (prev_path : List Vertex) (result : List (List Vertex))
      → IsPath g src dst prev_path
      → suc i < length prev_path
      → Paths result
      → (keys : List String) × (removed_edges i (take (suc i) prev_path) result ≡ ok keys)
  unfolding removed_edges
  removed_edges-ok i prev_path [] prev l paths = ([], refl)
  removed_edges-ok i prev_path (p ∷ result) prev l paths =
      let (keys, e) = removed_edge-ok i prev_path p prev l (paths p (Memᴰ.head refl)) in
      let (rest, f) = removed_edges-ok i prev_path result prev l (λ q m. paths q (Memᴰ.tail m)) in
      (keys ++ rest, rw (removed_edges, e, f) refl)

  -- Every candidate is a path.
  abbrev pub ArePaths : List Candidate → Type 0
  ArePaths candidates = (c : Candidate) → Memᴰ c candidates → IsPath g src dst c.path

  add_spur-ArePaths :
      (prev_path : List Vertex) (chosen : List String) (i : ℕ) (spur : List Vertex × ℕ)
      (s : Pending)
      → ArePaths s.candidates
      → (is_nil spur.0 ≡ false → IsPath g src dst (take i prev_path ++ spur.0))
      → ArePaths (add_spur g prev_path chosen i spur s).candidates
  unfolding add_spur
  add_spur-ArePaths prev_path chosen i spur s have path =
      let total = take i prev_path ++ spur.0 in
      let key = path_seq_key total in
      elim (Bool-cases (is_nil spur.0 || leb max_w spur.1)) [
        | inl e ↦ rw (add_spur, e) have
        | inr e ↦ elim (Bool-cases (contains key chosen || contains key s.cand_seen)) [
          | inl f ↦ rw (add_spur, e, f) have
          | inr f ↦
              rw (add_spur, e, f)
                (λ c m. elim ((Mem-snoc c _ s.candidates).0 m) [
                  | inl q ↦
                      subst (IsPath g src dst) (sym (ap (λ (z : Candidate). z.path) q))
                        (path (ground (arith, e)))
                  | inr k ↦ have c k
                ])
        ]
      ]

  module _ (most : ℕ) (light : (u : Vertex) (e : Edge) → Memᴰ e (edges_of g u) → e.w ≤ most)
      (fits : suc (count_edges g.adj) * most < 2 ^ 64) where
    joined :
        (i : ℕ) (prev_path rest rev : List Vertex) (node : Vertex) (removed_e : List String) (w : ℕ)
        → IsPath g src dst prev_path
        → drop i prev_path ≡ node ∷ rest
        → Walk g (take i prev_path) removed_e node dst rev w
        → NoRepeat rev
        → IsPath g src dst (take i prev_path ++ reverse rev)
    joined i prev_path rest rev node removed_e w prev d walk simple =
        let spur = Walk-IsPath g (take i prev_path) removed_e node walk simple in
        record {
          starts = join-StartsAt i prev_path (reverse rev) rest src node prev.starts d spur.starts;
          route =
              join-IsRoute g dst i prev_path (reverse rev) rest node prev.route d spur.starts
                spur.route;
          simple =
              NoRepeat-append (take i prev_path) (reverse rev)
                (NoRepeat-take i prev_path prev.simple) spur.simple
                (λ x m. elim (Bool-cases (contains x (reverse rev))) [
                  | inl k ↦ absurd (
                      cc (
                        Walk-avoids g (take i prev_path) removed_e node x walk
                            (sym (contains-reverse x rev) ∙ k),
                        m,
                      ))
                  | inr k ↦ k
                ]);
        }

    spur_at-ok :
        (prev_path : List Vertex) (result : List (List Vertex)) (chosen : List String) (i : ℕ)
        (s : Pending)
        → IsPath g src dst prev_path
        → Paths result
        → suc i < length prev_path
        → ArePaths s.candidates
        → (t : Pending) × (spur_at g dst prev_path result chosen i s ≡ ok t) × ArePaths t.candidates
    unfolding spur_at spur_node
    spur_at-ok prev_path result chosen i s prev paths l have =
        let (node, rest, d) = spur_node-ok i prev_path (omega (arith, l)) in
        let at_i : spur_node i prev_path ≡ ok node = rw (spur_node, d) refl in
        let (removed_e, r) = removed_edges-ok i prev_path result prev l paths in
        elim (dijkstra-IsShortest g (take i prev_path) removed_e node dst most light fits) [
          | inl (rev, w, e, (walk, simple, least)) ↦ (
            add_spur g prev_path chosen i (reverse rev, w) s,
            rw (spur_at, at_i, r, e) refl,
            add_spur-ArePaths prev_path chosen i (reverse rev, w) s have
                (λ n. joined i prev_path rest rev node removed_e w prev d walk simple),
          )
          | inr (e, unreached) ↦ (
            add_spur g prev_path chosen i ([], max_w) s,
            rw (spur_at, at_i, r, e) refl,
            add_spur-ArePaths prev_path chosen i ([], max_w) s have (λ n. cc),
          )
        ]

    pub spurs-ok :
        (n : ℕ) (prev_path : List Vertex) (result : List (List Vertex)) (chosen : List String)
        (i : ℕ) (s : Pending)
        → IsPath g src dst prev_path
        → Paths result
        → n + i < length prev_path
        → ArePaths s.candidates
        → (t : Pending) × (spurs g dst n prev_path result chosen i s ≡ ok t) × ArePaths t.candidates
    unfolding spurs
    spurs-ok zero prev_path result chosen i s prev paths l have = (s, refl, have)
    spurs-ok (suc n) prev_path result chosen i s prev paths l have =
        let (t, e, more) =
          spur_at-ok prev_path result chosen i s prev paths (omega (arith, l)) have in
        let (r, f, all) =
          spurs-ok n prev_path result chosen (suc i) t prev paths (omega (arith, l)) more in
        (r, rw (spurs, e) f, all)
