-- ===== src/MeshRoute/Session/Sticky.antt =====
-- internal/relay/mesh/session_route.go: what `Degrade` does to a session.
use Prim.Native.String.{String}
use mathlib.Core.List.{Memᴰ}
use corelink.Prelude.{
  ℕ, ◌<◌, ◌≡◌, ◌≢◌, refl, sym, subst, ◌⊎◌, inl, inr, true, false, List, ◌∷◌, length, ap, ◌==◌, leb,
  any, none, some, Option-cases, Bool-cases, arith,
}
use corelink.Prelude.Assoc.{lookup, insert, lookup-insert, string_eq}
use corelink.MeshRoute.Session.{
  RingEntry, SessionState, SessionRouter, mark_unavailable_locked, or_empty, next_from, session_of,
  store, next_available_on_ring, shift, degrade, ring_start, hash64,
}
use corelink.MeshRoute.Session.Turn.{IsTried, next_from-found, next_from-none}
use corelink.MeshRoute.Session.Invariant.{IsRouter, IsFit, store-IsRouter, session_of-IsFit}
use corelink.MeshRoute.Session.Picking.{lookup-store}

module _ (fnv64a : List ℕ → ℕ) (bytes_of : String → List ℕ) where
  session_of-known :
      (sid : String) (now : ℕ) (s : SessionRouter) (st : SessionState)
      → lookup sid s.sessions ≡ some st
      → session_of fnv64a bytes_of sid now s ≡ some (some st)
  unfolding session_of
  session_of-known sid now s st l = rw (session_of, l)

  pub mark-IsRouter :
      (sid : String) (idx : ℕ) (s : SessionRouter)
      → IsRouter fnv64a bytes_of s
      → IsRouter fnv64a bytes_of (mark_unavailable_locked sid idx s)
        × ((mark_unavailable_locked sid idx s).baseline ≡ s.baseline)
  unfolding mark_unavailable_locked
  mark-IsRouter sid idx s r = elim (Bool-cases (leb (length s.baseline) idx)) [
    | inl e ↦ rw (mark_unavailable_locked, e) (r, refl)
    | inr e ↦
        rw (mark_unavailable_locked, e)
          (record { ring_in = r.ring_in; session_in = r.session_in; at_home = r.at_home }, refl)
  ]

  -- What the failure of the path of a session does to it: the path is marked, and the session is on
  -- another one of the ring that is not marked for it, or still there if the ring has none.
  pub record IsMoved (sid : String) (st : SessionState) (s s' : SessionRouter) : Type 0 where
    pub after : SessionState
    pub stored : lookup sid s'.sessions ≡ some after
    pub orig_key : after.orig_key ≡ st.orig_key
    pub others : (j : String) → j ≢ sid → lookup j s'.sessions ≡ lookup j s.sessions
    pub marked : lookup sid s'.unavail ≡ some (st.cur_idx ∷ or_empty (lookup sid s.unavail))
    pub place :
        ((after.cur_idx ≡ st.cur_idx)
          × (after.shifted ≡ st.shifted)
          × ((e : RingEntry)
              → Memᴰ e s.ring
              → IsTried st.cur_idx (st.cur_idx ∷ or_empty (lookup sid s.unavail)) e))
        ⊎ ((e : RingEntry) × Memᴰ e s.ring
            × (after.cur_idx ≡ e.idx)
            × (after.cur_idx ≢ st.cur_idx)
            × (any (λ j. j == after.cur_idx) (or_empty (lookup sid s.unavail)) ≡ false)
            × (after.shifted ≡ true))

  store-others :
      (sid : String) (st : SessionState) (s : SessionRouter) (j : String)
      → j ≢ sid
      → lookup j (store fnv64a bytes_of sid st s).sessions ≡ lookup j s.sessions
  store-others sid st s j n =
      ground (arith, lookup-insert sid j st s.sessions, string_eq.beq_iff sid j)

  -- The state in which `shift` looks for another path.
  abbrev marked : String → SessionState → SessionRouter → SessionRouter
  marked sid st s = record s {
    unavail = insert sid (st.cur_idx ∷ or_empty (lookup sid s.unavail)) s.unavail;
  }

  marks :
      (sid : String) (st : SessionState) (s : SessionRouter)
      → lookup sid (marked sid st s).unavail ≡ some (st.cur_idx ∷ or_empty (lookup sid s.unavail))
  marks sid st s = ground (
    arith,
    lookup-insert sid sid (st.cur_idx ∷ or_empty (lookup sid s.unavail)) s.unavail,
    string_eq.beq_iff sid sid,
  )

  shift-IsMoved :
      (sid : String) (st : SessionState) (s : SessionRouter)
      → IsFit fnv64a bytes_of s st
      → IsRouter fnv64a bytes_of s
      → let s' = shift fnv64a bytes_of sid st (marked sid st s) in
        IsRouter fnv64a bytes_of s' × IsMoved sid st s s' × (s'.baseline ≡ s.baseline)
  unfolding next_available_on_ring
  shift-IsMoved sid st s fit r =
      let t = marked sid st s in
      let rt : IsRouter fnv64a bytes_of t = record {
        ring_in = r.ring_in;
        session_in = r.session_in;
        at_home = r.at_home;
      } in
      let un = st.cur_idx ∷ or_empty (lookup sid s.unavail) in
      let mark = marks sid st s in
      let all : or_empty (lookup sid t.unavail) ≡ un = ap or_empty mark in
      elim (Option-cases (next_available_on_ring fnv64a bytes_of sid st.cur_idx t)) [
        | inl e ↦
            rw (shift, e)
              (
                store-IsRouter fnv64a bytes_of sid st t fit rt,
                record {
                  after = st;
                  stored = lookup-store fnv64a bytes_of sid st t;
                  orig_key = refl;
                  others = store-others sid st t;
                  marked = mark;
                  place = inl (
                    refl,
                    refl,
                    next_from-none _ st.cur_idx un s.ring (
                        subst
                          (λ (z : List ℕ).
                            next_from (length s.ring)
                              (ring_start (hash64 fnv64a bytes_of sid) s.ring) st.cur_idx z s.ring
                            ≡ none)
                          all e),
                  );
                },
                refl,
              )
        | inr (next, e) ↦
            let (x, m, q, n, free) = next_from-found _ _ st.cur_idx _ s.ring next e in
            let st' = record st { cur_idx = next; shifted = true } in
            let lt : next < length s.baseline =
              subst (λ z. z < length s.baseline) q (r.ring_in x m) in
            let free' : any (λ j. j == next) un ≡ false =
              subst (λ (z : List ℕ). any (λ j. j == next) z ≡ false) all free in
            rw (shift, e)
              (
                store-IsRouter fnv64a bytes_of sid st' t (lt, λ (f : true ≡ false). cc) rt,
                record {
                  after = st';
                  stored = lookup-store fnv64a bytes_of sid st' t;
                  orig_key = refl;
                  others = store-others sid st' t;
                  marked = mark;
                  place = inr (x, m, sym q, n, ground (arith, free'), refl);
                },
                refl,
              )
      ]

  -- `Degrade` does not panic on a well-formed state, keeps it well-formed and keeps the routes. For a
  -- known session it adds the route of the session to those marked as unavailable for it. The session
  -- keeps its key and goes to another route of the ring that was not marked for it, as shifted; it stays
  -- as it is only if every route of the ring is marked or its own. No other session is changed.
  pub degrade-Moved :
      (sid : String) (now : ℕ) (s : SessionRouter)
      → IsRouter fnv64a bytes_of s
      → (s' : SessionRouter) × (degrade fnv64a bytes_of sid now s ≡ some s')
        × IsRouter fnv64a bytes_of s'
        × (s'.baseline ≡ s.baseline)
        × ((st : SessionState) → lookup sid s.sessions ≡ some st → IsMoved sid st s s')
  unfolding degrade mark_unavailable_locked
  degrade-Moved sid now s r = elim (Bool-cases (length s.baseline == 0)) [
    | inl e ↦
        (s, rw (degrade, e), r, refl, λ st l. absurd (ground (arith, e, r.session_in sid st l)))
    | inr e ↦ elim (session_of-IsFit fnv64a bytes_of sid now s r) [
      | inl q ↦
          (s, rw (degrade, e, q), r, refl, λ st l. absurd (cc (q, session_of-known sid now s st l)))
      | inr (st, q, (a, b)) ↦
          let inside : leb (length s.baseline) st.cur_idx ≡ false = ground (arith, a) in
          let st1 = record st { last_access = now } in
          let (r2, moved, k) = shift-IsMoved sid st1 s (a, b) r in
          let s' = shift fnv64a bytes_of sid st1 (marked sid st s) in
          (
            s',
            rw (degrade, e, q, inside, mark_unavailable_locked),
            r2,
            k,
            λ st' l.
                let same : st ≡ st' = cc (q, session_of-known sid now s st' l) in
                subst (λ (z : SessionState). IsMoved sid z s s') same
                  (record {
                    after = moved.after;
                    stored = moved.stored;
                    orig_key = moved.orig_key;
                    others = moved.others;
                    marked = moved.marked;
                    place = moved.place;
                  }),
          )
    ]
  ]
