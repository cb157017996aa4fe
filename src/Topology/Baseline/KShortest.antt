-- ===== src/Topology/Baseline/KShortest.antt =====
-- What `KShortest` of internal/controller/topology/kpaths.go returns.
use Prim.Native.String.{String}
use mathlib.Core.List.{Memᴰ}
use corelink.Prelude.{
  ℕ, zero, suc, ◌≡◌, ◌≢◌, refl, sym, ap, subst, ◌∙◌, ◌-◌, ◌*◌, ◌^◌, ◌≤◌, ◌<◌, ◌⊎◌, false, List, [],
  ◌∷◌, ◌++◌, length, take, drop, append_assoc, append-nil, inl, inr, Bool-cases, List-cases, arith,
  leb, leb→le, ◌==◌, ==_iff,
}
use corelink.Prelude.Assoc.{◌=?◌, string_eq}
use corelink.Prelude.Outcome.{Outcome, ok}
use corelink.Prelude.Members.{Mem-snoc, Mem-append, Mem-take, Mem-drop}
use corelink.Topology.Prune.{delete_func}
use corelink.Topology.Vertex.{Vertex}
use corelink.Topology.Shortest.{Edge, Graph, edges_of, max_w, reverse, count_edges}
use corelink.Topology.Shortest.Walks.{Walk}
use corelink.Topology.Shortest.Correct.{IsShortest, dijkstra-IsShortest}
use corelink.Topology.Baseline.{
  Candidate, less_candidate, path_seq_key, Exhausted, Pending, is_nil, best_candidate, k_rounds,
  k_shortest,
}
use corelink.Topology.Baseline.Routes.{IsPath, Walk-IsPath}
use corelink.Topology.Baseline.Spurs.{Paths, ArePaths, spurs-ok}

path_long :
    {g : Graph} {src dst : Vertex} (path : List Vertex) → IsPath g src dst path → 0 < length path
path_long [] p = elim p.starts [ ]
path_long (v ∷ path) p = omega arith

not_nil :
    {g : Graph} {src dst : Vertex} (path : List Vertex)
    → IsPath g src dst path
    → is_nil path ≡ false
not_nil [] p = elim p.starts [ ]
not_nil (v ∷ path) p = refl

module _ (g : Graph) (src dst : Vertex) where
  -- No path is returned for `k` zero, for equal ends and when every walk weighs `max_w` at least; else
  -- the first path is a shortest one.
  abbrev pub StartsShortest : ℕ → List (List Vertex) → Type 0
  StartsShortest k paths =
      ((paths ≡ [])
        × ((k ≡ 0)
            ⊎ (src ≡ dst)
            ⊎ ((vs : List Vertex) (d : ℕ) → Walk g [] [] src dst vs d → max_w ≤ d)))
      ⊎ ((rev : List Vertex) × (w : ℕ) × (more : List (List Vertex)) × (paths ≡ reverse rev ∷ more)
          × IsShortest g [] [] src dst rev w)

  best_candidate-IsPath :
      (j : ℕ) (best : ℕ × Candidate) (cs : List Candidate)
      → IsPath g src dst best.1.path
      → ArePaths g src dst cs
      → IsPath g src dst (best_candidate j best cs).1.path
  unfolding best_candidate
  best_candidate-IsPath j best [] p have = p
  best_candidate-IsPath j best (c ∷ cs) p have = elim (Bool-cases (less_candidate c best.1)) [
    | inl e ↦
        rw (best_candidate, e)
          (best_candidate-IsPath (suc j) (j, c) cs (have c (Memᴰ.head refl))
            (λ d m. have d (Memᴰ.tail m)))
    | inr e ↦
        rw (best_candidate, e)
          (best_candidate-IsPath (suc j) best cs p (λ d m. have d (Memᴰ.tail m)))
  ]

  module _ (most : ℕ) (light : (u : Vertex) (e : Edge) → Memᴰ e (edges_of g u) → e.w ≤ most)
      (fits : suc (count_edges g.adj) * most < 2 ^ 64) where
    -- The rounds keep the paths that are there and add at most `n`.
    abbrev Adds : ℕ → List (List Vertex) → Outcome Exhausted (List (List Vertex)) → Type 0
    Adds n result o =
        (more : List (List Vertex)) × (o ≡ ok (result ++ more))
        × (length more ≤ n)
        × Paths g src dst more

    k_rounds-Adds :
        (n : ℕ) (prev_path : List Vertex) (result : List (List Vertex)) (chosen : List String)
        (s : Pending)
        → IsPath g src dst prev_path
        → Paths g src dst result
        → ArePaths g src dst s.candidates
        → Adds n result (k_rounds g dst n prev_path result chosen s)
    unfolding k_rounds
    k_rounds-Adds zero prev_path result chosen s prev paths have =
        ([], ap ok (sym (append-nil result)), omega arith, λ p m. elim m [ ])
    k_rounds-Adds (suc n) prev_path result chosen s prev paths have =
        let (t, e, found) =
          spurs-ok g src dst most light fits (length prev_path - 1) prev_path result chosen 0 s prev
            paths (omega (arith, path_long prev_path prev)) have in
        let with_candidates : List Candidate → Outcome Exhausted Pending =
          λ cs. ok (record { candidates = cs; cand_seen = t.cand_seen }) in
        elim (List-cases t.candidates) [
          | inl none_left ↦ (
            [],
            rw (k_rounds, e ∙ ap with_candidates none_left) (ap ok (sym (append-nil result))),
            omega arith,
            λ p m. elim m [ ],
          )
          | inr (c, cs, eq) ↦
              let among : ArePaths g src dst (c ∷ cs) = subst (ArePaths g src dst) eq found in
              let best = best_candidate 1 (0, c) cs in
              let best_path =
                best_candidate-IsPath 1 (0, c) cs (among c (Memᴰ.head refl))
                  (λ d m. among d (Memᴰ.tail m)) in
              let left = take best.0 (c ∷ cs) ++ drop (suc best.0) (c ∷ cs) in
              let left_paths : ArePaths g src dst left = λ d m.
                elim (Mem-append d (take best.0 (c ∷ cs)) (drop (suc best.0) (c ∷ cs)) m) [
                  | inl k ↦ among d (Mem-take d best.0 (c ∷ cs) k)
                  | inr k ↦ among d (Mem-drop d (suc best.0) (c ∷ cs) k)
                ] in
              let (more, r, l, all) =
                k_rounds-Adds n best.1.path (result ++ (best.1.path ∷ []))
                  (path_seq_key best.1.path ∷ chosen)
                  (record {
                    candidates = left;
                    cand_seen =
                        delete_func (λ (k : String). k =? path_seq_key best.1.path) t.cand_seen;
                  })
                  best_path
                  (λ p m. elim ((Mem-snoc p best.1.path result).0 m) [
                    | inl q ↦ subst (IsPath g src dst) (sym q) best_path
                    | inr k ↦ paths p k
                  ])
                  left_paths in
              (
                best.1.path ∷ more,
                rw (k_rounds, e ∙ ap with_candidates eq)
                    (r ∙ ap ok (append_assoc result (best.1.path ∷ []) more)),
                omega (arith, l),
                λ p m. elim m [
                  | Memᴰ.head q ↦ subst (IsPath g src dst) (sym q) best_path
                  | Memᴰ.tail k ↦ all p k
                ],
              )
        ]

    abbrev Returns : ℕ → Outcome Exhausted (List (List Vertex)) → Type 0
    Returns k o =
        (paths : List (List Vertex)) × (o ≡ ok paths)
        × (length paths ≤ k)
        × Paths g src dst paths
        × StartsShortest k paths

    nothing :
        (k : ℕ) (o : Outcome Exhausted (List (List Vertex)))
        → o ≡ ok []
        → (k ≡ 0)
          ⊎ (src ≡ dst)
          ⊎ ((vs : List Vertex) (d : ℕ) → Walk g [] [] src dst vs d → max_w ≤ d)
        → Returns k o
    nothing k o e why = ([], e, omega arith, (λ p m. elim m [ ]), inl (refl, why))

    searched : (k : ℕ) → k ≢ 0 → (src =? dst) ≡ false → Returns k (k_shortest g src dst k)
    unfolding k_shortest
    searched k some_k apart =
        let some : (k == 0) ≡ false = ground (arith, some_k) in
        elim (dijkstra-IsShortest g [] [] src dst most light fits) [
          | inr (e, unreached) ↦
              nothing k (k_shortest g src dst k) (rw (k_shortest, some, apart, e) refl)
                (inr (inr (λ vs d p. absurd (unreached vs d p))))
          | inl (rev, w, e, (walk, simple, least)) ↦
              let path = Walk-IsPath g [] [] src walk simple in
              let long : is_nil (reverse rev) ≡ false = not_nil (reverse rev) path in
              elim (Bool-cases (leb max_w w)) [
                | inl far ↦
                    nothing k (k_shortest g src dst k)
                      (rw (k_shortest, some, apart, e, long, far) refl)
                      (inr (inr (λ vs d p. omega (arith, leb→le max_w w far, least vs d p))))
                | inr near ↦
                    let only : Paths g src dst (reverse rev ∷ []) = λ p m. elim m [
                      | Memᴰ.head q ↦ subst (IsPath g src dst) (sym q) path
                      | Memᴰ.tail k ↦ elim k [ ]
                    ] in
                    let (more, r, l, all) =
                      k_rounds-Adds (k - 1) (reverse rev) (reverse rev ∷ [])
                        (path_seq_key (reverse rev) ∷ [])
                        (record { candidates = []; cand_seen = [] }) path only
                        (λ c m. elim m [ ]) in
                    (
                      reverse rev ∷ more,
                      rw (k_shortest, some, apart, e, long, near) r,
                      omega (arith, l, some_k),
                      λ p m. elim m [ Memᴰ.head q ↦ only p (Memᴰ.head q) | Memᴰ.tail t ↦ all p t ],
                      inr (rev, w, more, refl, (walk, simple, least)),
                    )
              ]
        ]

    -- When no edge weighs more than `most`, and the weights of as many edges as the graph has cannot pass
    -- 64 bits, `k_shortest` returns, without a panic and within its fuel, at most `k` paths from `src` to
    -- `dst`, each of which follows edges and visits no vertex twice. The first of them is a shortest one; none
    -- is returned only for `k` zero, for equal ends, or when every walk weighs `max_w` at least.
    pub k_shortest-Paths :
        (k : ℕ)
        → (paths : List (List Vertex)) × (k_shortest g src dst k ≡ ok paths)
          × (length paths ≤ k)
          × Paths g src dst paths
          × StartsShortest k paths
    unfolding k_shortest
    k_shortest-Paths k = elim (Bool-cases (k == 0)) [
      | inl e ↦
          nothing k (k_shortest g src dst k) (rw (k_shortest, e) refl) (inl ((==_iff k 0).0 e))
      | inr n ↦ elim (Bool-cases (src =? dst)) [
        | inl e ↦
            nothing k (k_shortest g src dst k) (rw (k_shortest, n, e) refl)
              (inr (inl ((string_eq.beq_iff src dst).0 e)))
        | inr apart ↦ searched k (λ z. ground (arith, n, z)) apart
      ]
    ]
