-- ===== src/MeshRoute/Session/Reach.antt =====
-- The states that the calls of internal/relay/mesh/session_route.go lead to.
use Prim.Native.String.{String}
use corelink.Prelude.{
  ℕ, ◌≡◌, ◌+◌, subst, inl, inr, List, [], ◌∷◌, leb, Option, some, Bool-cases, arith,
}
use corelink.Prelude.Assoc.{Assoc, lookup, erase, lookup-erase, string_eq}
use corelink.MeshRoute.Session.{
  Hop, SessionState, SessionRouter, new_session_router, mark_unavailable_locked, set_baseline, pick,
  degrade, sweep, sweep_stale,
}
use corelink.MeshRoute.Session.Invariant.{IsRouter, set_baseline-IsRouter}
use corelink.MeshRoute.Session.Picking.{pick-IsRouter}
use corelink.MeshRoute.Session.Sticky.{degrade-Moved, mark-IsRouter}

module _ (fnv64a : List ℕ → ℕ) (bytes_of : String → List ℕ) where
  pub data Reached : SessionRouter → Type 0 where
    start : Reached new_session_router
    by_baseline :
        {s : SessionRouter} (version : ℕ) (baseline : List (List Hop))
        → Reached s
        → Reached (set_baseline fnv64a bytes_of version baseline s)
    by_pick :
        {s s' : SessionRouter} {o : Option (List Hop)} (sid : String) (now : ℕ)
        → Reached s
        → pick fnv64a bytes_of sid now s ≡ some (s', o)
        → Reached s'
    by_degrade :
        {s s' : SessionRouter} (sid : String) (now : ℕ)
        → Reached s
        → degrade fnv64a bytes_of sid now s ≡ some s'
        → Reached s'
    by_mark :
        {s : SessionRouter} (sid : String) (idx : ℕ)
        → Reached s
        → Reached (mark_unavailable_locked sid idx s)
    by_sweep :
        {s : SessionRouter} (max_age now : ℕ) → Reached s → Reached (sweep_stale max_age now s).0

  erase-IsRouter :
      (sid : String) (un : Assoc String (List ℕ)) (s : SessionRouter)
      → IsRouter fnv64a bytes_of s
      → IsRouter fnv64a bytes_of (record s { sessions = erase sid s.sessions; unavail = un })
  erase-IsRouter sid un s r = record {
    ring_in = r.ring_in;
    session_in =
        λ sid' st h. r.session_in sid' st (ground (arith, lookup-erase sid sid' s.sessions, h));
    at_home =
        λ sid' st h f. r.at_home sid' st (ground (arith, lookup-erase sid sid' s.sessions, h)) f;
  }

  sweep-IsRouter :
      (max_age now : ℕ) (sessions : Assoc String SessionState) (s : SessionRouter)
      → IsRouter fnv64a bytes_of s
      → IsRouter fnv64a bytes_of (sweep max_age now sessions s).0
  unfolding sweep
  sweep-IsRouter max_age now [] s r = r
  sweep-IsRouter max_age now ((sid, st) ∷ sessions) s r =
      let rest = sweep-IsRouter max_age now sessions s r in
      elim (Bool-cases (leb (st.last_access + max_age) now)) [
        | inl e ↦ rw (e) (erase-IsRouter sid _ (sweep max_age now sessions s).0 rest)
        | inr e ↦ rw (e) rest
      ]

  start-IsRouter : IsRouter fnv64a bytes_of new_session_router
  unfolding new_session_router lookup
  start-IsRouter = record {
    ring_in = λ e m. elim m [ ];
    session_in = λ sid st h. cc;
    at_home = λ sid st h f. cc;
  }

  -- In every state that the calls lead to, the ring and the sessions point at routes that are set, and a
  -- session that is not shifted is at the route of its key.
  pub Reached-IsRouter : {s : SessionRouter} → Reached s → IsRouter fnv64a bytes_of s
  unfolding sweep_stale
  Reached-IsRouter start = start-IsRouter
  Reached-IsRouter (by_baseline {s = s} version baseline p) =
      set_baseline-IsRouter fnv64a bytes_of version baseline s
  Reached-IsRouter (by_pick {s = s} {s' = s'} sid now p e) =
      let (t, o, q, r, k, c) = pick-IsRouter fnv64a bytes_of sid now s (Reached-IsRouter p) in
      let same : t ≡ s' = cc (q, e) in subst (λ z. IsRouter fnv64a bytes_of z) same r
  Reached-IsRouter (by_degrade {s = s} {s' = s'} sid now p e) =
      let (t, q, r, k, c) = degrade-Moved fnv64a bytes_of sid now s (Reached-IsRouter p) in
      let same : t ≡ s' = cc (q, e) in subst (λ z. IsRouter fnv64a bytes_of z) same r
  Reached-IsRouter (by_mark {s = s} sid idx p) =
      (mark-IsRouter fnv64a bytes_of sid idx s (Reached-IsRouter p)).0
  Reached-IsRouter (by_sweep {s = s} max_age now p) =
      sweep-IsRouter max_age now s.sessions s (Reached-IsRouter p)
