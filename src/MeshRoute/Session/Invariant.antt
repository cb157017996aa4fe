-- ===== src/MeshRoute/Session/Invariant.antt =====
-- internal/relay/mesh/session_route.go: the state of a session points into the routes that are set.
use Prim.Native.String.{String}
use mathlib.Core.List.{Memᴰ}
use corelink.Prelude.Members.{Mem-append}
use corelink.Prelude.{
  ℕ, zero, suc, ◌+◌, ◌<◌, ◌≡◌, refl, sym, ap, ◌∙◌, subst, ◌⊎◌, inl, inr, Bool, true, false, List,
  [], ◌∷◌, ◌++◌, length, length-append, get_elem?, ◌==◌, any, if◌then◌else◌, none, some,
  Option-cases, Bool-cases, arith, append_assoc,
}
use corelink.Prelude.Assoc.{Assoc, lookup, insert, lookup-insert, ◌=?◌, string_eq}
use corelink.Prelude.Sort.{Mem-sort_func}
use corelink.MeshRoute.Session.{
  Hop, RingEntry, SessionState, SessionRouter, ring_lt, ring_start, path_ring_key, hash64, vnodes,
  ring_entries, point_of, build_ring, index_keys, remap, set_baseline, ring_pick, new_state,
  session_of, store,
}

pub get_elem?-Mem {ℓ} :
    {A : Type ℓ} (xs : List A) (i : ℕ) (x : A) → get_elem? xs i ≡ some x → Memᴰ x xs
get_elem?-Mem [] i x h = cc
get_elem?-Mem (y ∷ xs) zero x h = Memᴰ.head (cc (h))
get_elem?-Mem (y ∷ xs) (suc i) x h = Memᴰ.tail (get_elem?-Mem xs i x h)

pub get_elem?-lt {ℓ} :
    {A : Type ℓ} (xs : List A) (i : ℕ) → i < length xs → (x : A) × (get_elem? xs i ≡ some x)
get_elem?-lt [] i h = absurd (omega arith)
get_elem?-lt (y ∷ xs) zero h = (y, refl)
get_elem?-lt (y ∷ xs) (suc i) h = get_elem?-lt xs i (omega arith)

pub get_elem?-some {ℓ} :
    {A : Type ℓ} (xs : List A) (i : ℕ) (x : A) → get_elem? xs i ≡ some x → i < length xs
get_elem?-some [] i x h = cc
get_elem?-some (y ∷ xs) zero x h = omega arith
get_elem?-some (y ∷ xs) (suc i) x h = omega (arith, get_elem?-some xs i x h)

get_elem?-here {ℓ} :
    {A : Type ℓ} (xs : List A) (y : A) (ys : List A)
    → get_elem? (xs ++ (y ∷ ys)) (length xs) ≡ some y
get_elem?-here [] y ys = refl
get_elem?-here (x ∷ xs) y ys = get_elem?-here xs y ys

Mem-if_pair :
    (b : Bool) (x y : List RingEntry × List ℕ) (e : RingEntry)
    → Memᴰ e (if b then x else y).0
    → Memᴰ e x.0 ⊎ Memᴰ e y.0
Mem-if_pair true x y e m = inl m
Mem-if_pair false x y e m = inr m

Mem-if :
    (b : Bool) (x y : List RingEntry) (e : RingEntry)
    → Memᴰ e (if b then x else y)
    → Memᴰ e x ⊎ Memᴰ e y
Mem-if true x y e m = inl m
Mem-if false x y e m = inr m

module _ (fnv64a : List ℕ → ℕ) (bytes_of : String → List ℕ) where
  vnodes-idx :
      (n r idx : ℕ) (key : String) (seen : List ℕ) (e : RingEntry)
      → Memᴰ e (vnodes fnv64a bytes_of n r idx key seen).0
      → e.idx ≡ idx
  vnodes-idx zero r idx key seen e m = elim m [ ]
  vnodes-idx (suc n) r idx key seen e m =
      let pt = point_of fnv64a bytes_of r key in
      let skip = vnodes fnv64a bytes_of n (suc r) idx key seen in
      let next = vnodes fnv64a bytes_of n (suc r) idx key (pt ∷ seen) in
      elim (Mem-if_pair (any (λ p. p == pt) seen) skip
        (record { point = pt; idx = idx } ∷ next.0, next.1) e m) [
          | inl k ↦ vnodes-idx n (suc r) idx key seen e k
          | inr k ↦ elim k [
            | Memᴰ.head q ↦ ap (λ (z : RingEntry). z.idx) q
            | Memᴰ.tail t ↦ vnodes-idx n (suc r) idx key (pt ∷ seen) e t
          ]
        ]

  ring_entries-idx :
      (i : ℕ) (seen_key : List String) (seen_pt : List ℕ) (baseline : List (List Hop))
      (e : RingEntry)
      → Memᴰ e (ring_entries fnv64a bytes_of i seen_key seen_pt baseline)
      → e.idx < i + length baseline
  ring_entries-idx i seen_key seen_pt [] e m = elim m [ ]
  ring_entries-idx i seen_key seen_pt (p ∷ baseline) e m =
      let key = path_ring_key fnv64a bytes_of p in
      let skip = ring_entries fnv64a bytes_of (suc i) seen_key seen_pt baseline in
      let own = vnodes fnv64a bytes_of 160 0 i key seen_pt in
      let next = ring_entries fnv64a bytes_of (suc i) (key ∷ seen_key) (own.1) baseline in
      elim (Mem-if (any (λ k. k =? key) seen_key) skip (own.0 ++ next) e m) [
        | inl k ↦ omega (arith, ring_entries-idx (suc i) seen_key seen_pt baseline e k)
        | inr k ↦ elim (Mem-append e (own.0) next k) [
          | inl t ↦ omega (arith, vnodes-idx 160 0 i key seen_pt e t)
          | inr t ↦ omega (arith, ring_entries-idx (suc i) (key ∷ seen_key) (own.1) baseline e t)
        ]
      ]

  -- The index of the keys leads to routes with these keys.
  index_keys-home :
      (all before baseline : List (List Hop)) (i : ℕ) (m : Assoc String ℕ)
      → all ≡ before ++ baseline
      → i ≡ length before
      → ((k : String) (j : ℕ)
          → lookup k m ≡ some j
          → (path : List Hop) × (get_elem? all j ≡ some path)
            × (path_ring_key fnv64a bytes_of path ≡ k))
      → (k : String) (j : ℕ) → lookup k (index_keys fnv64a bytes_of i baseline m) ≡ some j
      → (path : List Hop) × (get_elem? all j ≡ some path) × (path_ring_key fnv64a bytes_of path ≡ k)
  index_keys-home all before [] i m q l h = h
  index_keys-home all before (p ∷ baseline) i m q l h =
      index_keys-home all (before ++ (p ∷ [])) baseline (suc i)
        (insert (path_ring_key fnv64a bytes_of p) i m)
        (q ∙ sym (append_assoc before (p ∷ []) baseline))
        (omega (arith, length-append before (p ∷ [])))
        (λ k j e. elim (Bool-cases (path_ring_key fnv64a bytes_of p =? k)) [
          | inl t ↦
              let same : i ≡ j =
                ground (arith, lookup-insert (path_ring_key fnv64a bytes_of p) k i m, t, e) in
              (p, rw (← same, q, l) (get_elem?-here before p baseline), (string_eq.beq_iff _ k).0 t)
          | inr t ↦
              h k j (ground (arith, lookup-insert (path_ring_key fnv64a bytes_of p) k i m, t, e))
        ])

  -- A ring over the routes, and sessions at one of them: at the one of their key, unless shifted.
  pub record IsRouter (s : SessionRouter) : Type 0 where
    pub ring_in : (e : RingEntry) → Memᴰ e s.ring → e.idx < length s.baseline
    pub session_in :
        (sid : String) (st : SessionState)
        → lookup sid s.sessions ≡ some st
        → st.cur_idx < length s.baseline
    pub at_home :
        (sid : String) (st : SessionState)
        → lookup sid s.sessions ≡ some st
        → st.shifted ≡ false
        → (path : List Hop) × (get_elem? s.baseline st.cur_idx ≡ some path)
          × (path_ring_key fnv64a bytes_of path ≡ st.orig_key)

  abbrev pub IsFit : SessionRouter → SessionState → Type 0
  IsFit s st =
      (st.cur_idx < length s.baseline)
      × (st.shifted ≡ false
          → (path : List Hop) × (get_elem? s.baseline st.cur_idx ≡ some path)
            × (path_ring_key fnv64a bytes_of path ≡ st.orig_key))

  pub store-IsRouter :
      (sid : String) (st : SessionState) (s : SessionRouter)
      → IsFit s st
      → IsRouter s
      → IsRouter (store fnv64a bytes_of sid st s)
  store-IsRouter sid st s (a, b) r = record {
    ring_in = r.ring_in;
    session_in = λ sid' st' h. elim (Bool-cases (sid =? sid')) [
      | inl q ↦
          let same : st ≡ st' = ground (arith, lookup-insert sid sid' st s.sessions, q, h) in
          subst (λ (z : SessionState). z.cur_idx < length s.baseline) same a
      | inr q ↦ r.session_in sid' st' (ground (arith, lookup-insert sid sid' st s.sessions, q, h))
    ];
    at_home = λ sid' st' h f. elim (Bool-cases (sid =? sid')) [
      | inl q ↦
          let same : st ≡ st' = ground (arith, lookup-insert sid sid' st s.sessions, q, h) in
          subst
            (λ (z : SessionState).
              z.shifted ≡ false
              → (path : List Hop) × (get_elem? s.baseline z.cur_idx ≡ some path)
                × (path_ring_key fnv64a bytes_of path ≡ z.orig_key))
            same b f
      | inr q ↦ r.at_home sid' st' (ground (arith, lookup-insert sid sid' st s.sessions, q, h)) f
    ];
  }

  ring_pick-lt :
      (sid : String) (s : SessionRouter) (idx : ℕ)
      → IsRouter s
      → ring_pick fnv64a bytes_of sid s ≡ some idx
      → idx < length s.baseline
  unfolding ring_pick
  ring_pick-lt sid s idx r h =
      elim (Option-cases (get_elem? s.ring (ring_start (hash64 fnv64a bytes_of sid) s.ring))) [
        | inl e ↦ absurd (ground (arith, e, h))
        | inr (x, e) ↦
            let same : x.idx ≡ idx = ground (arith, e, h) in
            subst (λ z. z < length s.baseline) same (r.ring_in x (get_elem?-Mem s.ring _ x e))
      ]

  pub session_of-IsFit :
      (sid : String) (now : ℕ) (s : SessionRouter)
      → IsRouter s
      → (session_of fnv64a bytes_of sid now s ≡ some none)
        ⊎ ((st : SessionState) × (session_of fnv64a bytes_of sid now s ≡ some (some st))
            × IsFit s st)
  unfolding session_of new_state
  session_of-IsFit sid now s r = elim (Option-cases (lookup sid s.sessions)) [
    | inr (st, e) ↦ inr (st, rw (session_of, e), (r.session_in sid st e, r.at_home sid st e))
    | inl e ↦ elim (Option-cases (ring_pick fnv64a bytes_of sid s)) [
      | inl q ↦ inl (rw (session_of, e, q))
      | inr (idx, q) ↦
          let lt = ring_pick-lt sid s idx r q in
          let (path, g) = get_elem?-lt s.baseline idx lt in
          inr (
            new_state fnv64a bytes_of idx path now,
            rw (session_of, e, q, g),
            (lt, λ f. (path, g, refl)),
          )
    ]
  ]

  remap-home :
      (m : Assoc String ℕ) (sessions : Assoc String SessionState) (sid : String) (st : SessionState)
      → lookup sid (remap fnv64a bytes_of m sessions) ≡ some st
      → (lookup st.orig_key m ≡ some st.cur_idx) × (st.shifted ≡ false)
  unfolding lookup
  remap-home m [] sid st h = cc
  remap-home m ((j, w) ∷ sessions) sid st h = elim (Option-cases (lookup w.orig_key m)) [
    | inl e ↦ remap-home m sessions sid st (ground (arith, e, h))
    | inr (idx, e) ↦ elim (Bool-cases (j =? sid)) [
      | inl q ↦
          let same : record w { cur_idx = idx; shifted = false } ≡ st = ground (arith, e, q, h) in
          subst (λ (z : SessionState). (lookup z.orig_key m ≡ some z.cur_idx) × (z.shifted ≡ false))
            same (e, refl)
      | inr q ↦ remap-home m sessions sid st (ground (arith, e, q, h))
    ]
  ]

  -- `SetBaseline` makes a well-formed state of any state.
  pub set_baseline-IsRouter :
      (version : ℕ) (baseline : List (List Hop)) (s : SessionRouter)
      → IsRouter (set_baseline fnv64a bytes_of version baseline s)
  unfolding set_baseline build_ring lookup
  set_baseline-IsRouter version baseline s =
      let kti = index_keys fnv64a bytes_of 0 baseline [] in
      let home = index_keys-home baseline [] baseline 0 [] refl refl (λ k j e. cc) in
      record {
        ring_in = λ e m. omega (
          arith,
          ring_entries-idx 0 [] [] baseline e
              ((Mem-sort_func ring_lt e (ring_entries fnv64a bytes_of 0 [] [] baseline)).0 m),
        );
        session_in = λ sid st h.
            let (a, f) = remap-home kti s.sessions sid st h in
            let (path, g, k) = home st.orig_key st.cur_idx a in
            get_elem?-some baseline st.cur_idx path g;
        at_home = λ sid st h f.
            let (a, f') = remap-home kti s.sessions sid st h in home st.orig_key st.cur_idx a;
      }
