-- ===== src/MeshRoute/Session/Picking.antt =====
-- internal/relay/mesh/session_route.go: what `Pick` does to a session.
use Prim.Native.String.{String}
use corelink.Prelude.{
  ℕ, ◌≡◌, refl, ◌⊎◌, inl, inr, false, List, length, get_elem?, ◌==◌, leb, Option, none, some,
  Bool-cases, arith,
}
use corelink.Prelude.Assoc.{lookup, lookup-insert, string_eq}
use corelink.MeshRoute.Session.{
  Hop, SessionState, SessionRouter, session_of, store, take_path, pick,
}
use corelink.MeshRoute.Session.Invariant.{
  IsRouter, IsFit, store-IsRouter, session_of-IsFit, get_elem?-lt, get_elem?-some,
}

module _ (fnv64a : List ℕ → ℕ) (bytes_of : String → List ℕ) where
  -- The session is at a path of the routes.
  abbrev pub StaysAt : String → List Hop → SessionRouter → Type 0
  StaysAt sid path s =
      (st : SessionState) × (lookup sid s.sessions ≡ some st)
      × (get_elem? s.baseline st.cur_idx ≡ some path)

  pub lookup-store :
      (sid : String) (st : SessionState) (s : SessionRouter)
      → lookup sid (store fnv64a bytes_of sid st s).sessions ≡ some st
  lookup-store sid st s =
      ground (arith, lookup-insert sid sid st s.sessions, string_eq.beq_iff sid sid)

  take_path-StaysAt :
      (sid : String) (now : ℕ) (st : SessionState) (s : SessionRouter)
      → IsFit fnv64a bytes_of s st
      → IsRouter fnv64a bytes_of s
      → (path : List Hop) × (s' : SessionRouter) × (take_path fnv64a bytes_of sid now st s
          ≡ some (s', some path))
        × IsRouter fnv64a bytes_of s'
        × (s'.baseline ≡ s.baseline)
        × StaysAt sid path s'
  take_path-StaysAt sid now st s (a, b) r =
      let (path, g) = get_elem?-lt s.baseline st.cur_idx a in
      let st' = record st { last_access = now } in
      (
        path,
        store fnv64a bytes_of sid st' s,
        rw (take_path, g),
        store-IsRouter fnv64a bytes_of sid st' s (a, b) r,
        refl,
        (st', lookup-store sid st' s, g),
      )

  -- `Pick` does not panic on a well-formed state, keeps it well-formed and keeps the routes. It returns
  -- the route that the session is at, or nothing where there is no route or no place on the ring.
  pub pick-IsRouter :
      (sid : String) (now : ℕ) (s : SessionRouter)
      → IsRouter fnv64a bytes_of s
      → (s' : SessionRouter) × (o : Option (List Hop)) × (pick fnv64a bytes_of sid now s
          ≡ some (s', o))
        × IsRouter fnv64a bytes_of s'
        × (s'.baseline ≡ s.baseline)
        × ((o ≡ none) ⊎ ((path : List Hop) × (o ≡ some path) × StaysAt sid path s'))
  unfolding pick
  pick-IsRouter sid now s r = elim (Bool-cases (length s.baseline == 0)) [
    | inl e ↦ (s, none, rw (pick, e), r, refl, inl refl)
    | inr e ↦ elim (session_of-IsFit fnv64a bytes_of sid now s r) [
      | inl q ↦ (s, none, rw (pick, e, q), r, refl, inl refl)
      | inr (st, q, (a, b)) ↦
          let (path, s', t, r', k, at) = take_path-StaysAt sid now st s (a, b) r in
          let inside : leb (length s.baseline) st.cur_idx ≡ false = ground (arith, a) in
          (s', some path, rw (pick, e, q, inside) t, r', k, inr (path, refl, at))
    ]
  ]

  -- A session that is at a route gets that route, however often it asks.
  pub pick-StaysAt :
      (sid : String) (now : ℕ) (path : List Hop) (s : SessionRouter)
      → StaysAt sid path s
      → (s' : SessionRouter) × (pick fnv64a bytes_of sid now s ≡ some (s', some path))
        × StaysAt sid path s'
  unfolding pick session_of
  pick-StaysAt sid now path s (st, l, g) =
      let lt = get_elem?-some s.baseline st.cur_idx path g in
      let some_route : (length s.baseline == 0) ≡ false = ground (arith, lt) in
      let inside : leb (length s.baseline) st.cur_idx ≡ false = ground (arith, lt) in
      let st' = record st { last_access = now } in
      (
        store fnv64a bytes_of sid st' s,
        rw (pick, some_route, session_of, l, inside, take_path, g),
        (st', lookup-store sid st' s, g),
      )
