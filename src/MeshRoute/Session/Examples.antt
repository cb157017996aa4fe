-- ===== src/MeshRoute/Session/Examples.antt =====
-- A session of internal/relay/mesh/session_route.go over two routes.
use Prim.Native.String.{String}
use mathlib.Core.List.{Memᴰ}
use corelink.Prelude.{
  ℕ, ◌<◌, ◌≡◌, refl, sym, subst, List, [], ◌∷◌, length, true, false, some, arith, Bool-cases, inl,
  inr, get_elem?,
}
use corelink.Prelude.Assoc.{lookup, insert, ◌=?◌, string_eq}
use corelink.MeshRoute.Session.{
  Hop, RingEntry, SessionState, SessionRouter, new_session_router, path_ring_key, hash64, mix64,
  session_of, mark_unavailable_locked, next_available_on_ring, set_baseline, pick, degrade,
}
use corelink.MeshRoute.Session.Invariant.{IsRouter}
use corelink.MeshRoute.Session.Reach.{start, by_baseline, by_mark, Reached-IsRouter}
use corelink.MeshRoute.Session.Picking.{StaysAt, pick-StaysAt}
use corelink.MeshRoute.Session.Sticky.{IsMoved, degrade-Moved}

abbrev byte_count : List ℕ → ℕ
byte_count bytes = length bytes

abbrev one_byte : String → List ℕ
one_byte s = 1 ∷ []

abbrev direct : List Hop
direct = record { node = "b"; ingress = "i" } ∷ []

abbrev over_c : List Hop
over_c = record { node = "c"; ingress = "i" } ∷ record { node = "b"; ingress = "i" } ∷ []

abbrev state : SessionState
state = record {
  orig_key = path_ring_key byte_count one_byte direct;
  cur_idx = 0;
  shifted = false;
  last_access = 1;
}

abbrev router : SessionRouter
router = record {
  version = 1;
  baseline = direct ∷ over_c ∷ [];
  ring = record { point = 5; idx = 0 } ∷ record { point = 9; idx = 1 } ∷ [];
  key_to_idx = [];
  sessions = ("s", state) ∷ [];
  unavail = [];
}

only_state : (sid : String) (st : SessionState) → lookup sid router.sessions ≡ some st → state ≡ st
unfolding lookup
only_state sid st h = elim (Bool-cases ("s" =? sid)) [
  | inl e ↦ ground (arith, e, h)
  | inr e ↦ absurd (ground (arith, e, h))
]

router-IsRouter : IsRouter byte_count one_byte router
unfolding lookup
router-IsRouter = record {
  ring_in = λ e m. elim m [
    | Memᴰ.head q ↦ subst (λ (z : RingEntry). z.idx < 2) (sym q) (omega arith)
    | Memᴰ.tail r ↦ elim r [
      | Memᴰ.head q ↦ subst (λ (z : RingEntry). z.idx < 2) (sym q) (omega arith)
      | Memᴰ.tail k ↦ elim k [ ]
    ]
  ];
  session_in =
      λ sid st h. subst (λ (z : SessionState). z.cur_idx < 2) (only_state sid st h) (omega arith);
  at_home = λ sid st h f.
      subst
        (λ (z : SessionState).
          (path : List Hop) × (get_elem? router.baseline z.cur_idx ≡ some path)
          × (path_ring_key byte_count one_byte path ≡ z.orig_key))
        (only_state sid st h) (direct, refl, refl);
}

Reached-IsRouter_example : IsRouter byte_count one_byte (
    mark_unavailable_locked "s" 1
      (set_baseline byte_count one_byte 2 (direct ∷ over_c ∷ []) new_session_router))
Reached-IsRouter_example =
    Reached-IsRouter byte_count one_byte
      (by_mark "s" 1 (by_baseline 2 (direct ∷ over_c ∷ []) start))

pick-StaysAt_run :
    (s' : SessionRouter) × (pick byte_count one_byte "s" 7 router ≡ some (s', some direct))
    × StaysAt byte_count one_byte "s" direct s'
unfolding lookup
pick-StaysAt_run = pick-StaysAt byte_count one_byte "s" 7 direct router (state, refl, refl)

degrade-Moved_example :
    (s' : SessionRouter) × (degrade byte_count one_byte "s" 7 router ≡ some s')
    × IsRouter byte_count one_byte s'
    × (s'.baseline ≡ router.baseline)
    × ((st : SessionState)
        → lookup "s" router.sessions ≡ some st
        → IsMoved byte_count one_byte "s" st router s')
degrade-Moved_example = degrade-Moved byte_count one_byte "s" 7 router router-IsRouter

-- The session leaves the route that has failed for the other one.
degrade_run :
    degrade byte_count one_byte "s" 7 router
    ≡ some (record router {
      sessions = ("s", record state { cur_idx = 1; shifted = true; last_access = 7 }) ∷ [];
      unavail = ("s", 0 ∷ []) ∷ [];
    })
unfolding degrade session_of lookup insert mark_unavailable_locked next_available_on_ring hash64
    mix64
degrade_run = refl
