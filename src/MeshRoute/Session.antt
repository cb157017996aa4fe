-- ===== src/MeshRoute/Session.antt =====
-- internal/relay/mesh/session_route.go: the sticky choice of a path for each session. hash/fnv and the
-- bytes of a string are parameters; `none` is an index out of range.
pub mod Invariant
pub mod Turn
pub mod Picking
pub mod Sticky
pub mod Reach
mod Examples
use Prim.Native.String.{String}
use Prim.Native.String.{◌++◌ as append_string}
use corelink.Prelude.{
  ℕ, zero, suc, ◌+◌, ◌*◌, ◌/◌, ◌%◌, ◌^◌, ◌-◌, bit_xor, Bool, true, false, not, ◌&&◌, List, [], ◌∷◌,
  ◌++◌, length, get_elem?, ◌==◌, ltb, leb, any, if◌then◌else◌, Option, none, some,
}
use corelink.Prelude.Assoc.{Assoc, lookup, insert, erase, ◌=?◌, string_eq}
use corelink.Prelude.Sort.{sort_func}

pub record Hop : Type 0 where
  pub node : String
  pub ingress : String

pub record RingEntry : Type 0 where
  pub point : ℕ
  pub idx : ℕ

pub record SessionState : Type 0 where
  pub orig_key : String
  pub cur_idx : ℕ
  pub shifted : Bool
  pub last_access : ℕ

pub record SessionRouter : Type 0 where
  pub version : ℕ
  pub baseline : List (List Hop)
  pub ring : List RingEntry
  pub key_to_idx : Assoc String ℕ
  pub sessions : Assoc String SessionState
  pub unavail : Assoc String (List ℕ)

pub new_session_router : SessionRouter
new_session_router = record {
  version = 0;
  baseline = [];
  ring = [];
  key_to_idx = [];
  sessions = [];
  unavail = [];
}

pub mix64 : ℕ → ℕ
mix64 x =
    let a = bit_xor x (x / 2 ^ 30) in
    let b = (a * 0xbf58476d1ce4e5b9) % 2 ^ 64 in
    let c = bit_xor b (b / 2 ^ 27) in
    let d = (c * 0x94d049bb133111eb) % 2 ^ 64 in bit_xor d (d / 2 ^ 31)

abbrev pub or_empty : Option (List ℕ) → List ℕ
or_empty none = []
or_empty (some un) = un

abbrev pub or_blank : Option String → String
or_blank none = ""
or_blank (some s) = s

-- `digits[d]`
abbrev pub digit : ℕ → String
digit d = or_blank (
    get_elem?
      ("0" ∷ "1" ∷ "2" ∷ "3" ∷ "4" ∷ "5" ∷ "6" ∷ "7" ∷ "8" ∷ "9" ∷ "a" ∷ "b" ∷ "c" ∷ "d" ∷ "e" ∷ "f"
        ∷ [])
      d)

abbrev pub hex_digits : ℕ → ℕ → String
hex_digits zero v = ""
hex_digits (suc n) v = append_string (hex_digits n (v / 16)) (digit (v % 16))

pub uitoa16 : ℕ → String
uitoa16 v = hex_digits 16 v

-- `sort.Search` on a ring in order: the first entry at `h` or after it.
abbrev pub search_ring : ℕ → ℕ → List RingEntry → ℕ
search_ring h i [] = i
search_ring h i (e ∷ ring) =
    let rest = search_ring h (suc i) ring in if leb h e.point then i else rest

abbrev pub ring_lt : RingEntry → RingEntry → Bool
ring_lt a b = if a.point == b.point then ltb a.idx b.idx else ltb a.point b.point

-- `start` wraps round to the first entry.
abbrev pub ring_start : ℕ → List RingEntry → ℕ
ring_start h ring = let i = search_ring h 0 ring in if i == length ring then 0 else i

pub mark_unavailable_locked : String → ℕ → SessionRouter → SessionRouter
mark_unavailable_locked session_id path_idx s =
    if leb (length s.baseline) path_idx then s else record s {
      unavail = insert session_id (path_idx ∷ or_empty (lookup session_id s.unavail)) s.unavail;
    }

-- The turn round the ring; `rounds` is what is left of it.
abbrev pub next_from : ℕ → ℕ → ℕ → List ℕ → List RingEntry → Option ℕ
next_from zero at from_idx un ring = none
next_from (suc rounds) at from_idx un ring =
    let next = next_from rounds (suc at) from_idx un ring in
    elim (get_elem? ring (at % length ring)) [
      | none ↦ none
      | some e ↦
          if e.idx == from_idx then next else if any (λ i. i == e.idx) un then next else some e.idx
    ]

module _ (fnv64a : List ℕ → ℕ) (bytes_of : String → List ℕ) where
  abbrev pub path_bytes : List Hop → List ℕ
  path_bytes [] = []
  path_bytes (hop ∷ p) = bytes_of hop.node ++ 0x1f ∷ bytes_of hop.ingress ++ 0x1e ∷ path_bytes p

  pub path_ring_key : List Hop → String
  path_ring_key p = uitoa16 (fnv64a (path_bytes p))

  pub hash64 : String → ℕ
  hash64 s = mix64 (fnv64a (bytes_of s))

  abbrev pub point_of : ℕ → String → ℕ
  point_of r key = hash64 (append_string (uitoa16 r) (append_string "#" key))

  -- The points of one path, from replica `r` on, and the points that are taken.
  abbrev pub vnodes : ℕ → ℕ → ℕ → String → List ℕ → List RingEntry × List ℕ
  vnodes zero r idx key seen = ([], seen)
  vnodes (suc n) r idx key seen =
      let pt = point_of r key in
      let skip = vnodes n (suc r) idx key seen in
      let (rest, seen') = vnodes n (suc r) idx key (pt ∷ seen) in
      if any (λ p. p == pt) seen then skip else (record { point = pt; idx = idx } ∷ rest, seen')

  abbrev pub ring_entries : ℕ → List String → List ℕ → List (List Hop) → List RingEntry
  ring_entries i seen_key seen_pt [] = []
  ring_entries i seen_key seen_pt (p ∷ baseline) =
      let key = path_ring_key p in
      let skip = ring_entries (suc i) seen_key seen_pt baseline in
      let (own, seen_pt') = vnodes 160 0 i key seen_pt in
      let take = own ++ ring_entries (suc i) (key ∷ seen_key) seen_pt' baseline in
      if any (λ k. k =? key) seen_key then skip else take

  pub build_ring : List (List Hop) → List RingEntry
  build_ring baseline = sort_func ring_lt (ring_entries 0 [] [] baseline)

  abbrev pub index_keys : ℕ → List (List Hop) → Assoc String ℕ → Assoc String ℕ
  index_keys i [] m = m
  index_keys i (p ∷ baseline) m = index_keys (suc i) baseline (insert (path_ring_key p) i m)

  -- A session goes back to its path, or is dropped with it.
  abbrev pub remap : Assoc String ℕ → Assoc String SessionState → Assoc String SessionState
  remap key_to_idx [] = []
  remap key_to_idx ((sid, st) ∷ sessions) =
      let rest = remap key_to_idx sessions in
      elim (lookup st.orig_key key_to_idx) [
        | none ↦ rest
        | some idx ↦ (sid, record st { cur_idx = idx; shifted = false }) ∷ rest
      ]

  pub set_baseline : ℕ → List (List Hop) → SessionRouter → SessionRouter
  set_baseline version baseline s =
      let key_to_idx = index_keys 0 baseline [] in
      record {
        version = version;
        baseline = baseline;
        ring = build_ring baseline;
        key_to_idx = key_to_idx;
        sessions = remap key_to_idx s.sessions;
        unavail = [];
      }

  -- `none` is -1.
  pub ring_pick : String → SessionRouter → Option ℕ
  ring_pick session_id s = elim (get_elem? s.ring (ring_start (hash64 session_id) s.ring)) [
    | none ↦ none
    | some e ↦ some e.idx
  ]

  -- The state of a session that is seen for the first time.
  pub new_state : ℕ → List Hop → ℕ → SessionState
  new_state idx path now = record {
    orig_key = path_ring_key path;
    cur_idx = idx;
    shifted = false;
    last_access = now;
  }

  -- The session's state, made on the ring if there is none: `none` outside is a panic, inside an empty
  -- ring.
  pub session_of : String → ℕ → SessionRouter → Option (Option SessionState)
  session_of session_id now s = elim (lookup session_id s.sessions) [
    | some st ↦ some (some st)
    | none ↦ elim (ring_pick session_id s) [
      | none ↦ some none
      | some idx ↦ elim (get_elem? s.baseline idx) [
        | none ↦ none
        | some path ↦ some (some (new_state idx path now))
      ]
    ]
  ]

  abbrev pub store : String → SessionState → SessionRouter → SessionRouter
  store session_id st s = record s { sessions = insert session_id st s.sessions }

  -- The path at the session's index, and the access noted.
  abbrev pub take_path :
      String → ℕ → SessionState → SessionRouter → Option (SessionRouter × Option (List Hop))
  take_path session_id now st s = elim (get_elem? s.baseline st.cur_idx) [
    | none ↦ none
    | some path ↦ some (store session_id (record st { last_access = now }) s, some path)
  ]

  abbrev pub pick_again :
      String → ℕ → SessionState → SessionRouter → Option (SessionRouter × Option (List Hop))
  pick_again session_id now st s = elim (ring_pick session_id s) [
    | none ↦ some (store session_id st s, none)
    | some idx ↦ elim (get_elem? s.baseline idx) [
      | none ↦ none
      | some path ↦
          take_path session_id now
            (record st { cur_idx = idx; orig_key = path_ring_key path; shifted = false }) s
    ]
  ]

  pub pick : String → ℕ → SessionRouter → Option (SessionRouter × Option (List Hop))
  pick session_id now s =
      if length s.baseline == 0 then some (s, none) else elim (session_of session_id now s) [
        | none ↦ none
        | some none ↦ some (s, none)
        | some (some st) ↦
            if leb (length s.baseline) st.cur_idx
            then pick_again session_id now st s
            else take_path session_id now st s
      ]

  pub next_available_on_ring : String → ℕ → SessionRouter → Option ℕ
  next_available_on_ring session_id from_idx s =
      next_from (length s.ring) (ring_start (hash64 session_id) s.ring) from_idx
        (or_empty (lookup session_id s.unavail)) s.ring

  -- Off the path at `st.cur_idx`, which is marked already, if there is another.
  abbrev pub shift : String → SessionState → SessionRouter → SessionRouter
  shift session_id st s = elim (next_available_on_ring session_id st.cur_idx s) [
    | none ↦ store session_id st s
    | some next ↦ store session_id (record st { cur_idx = next; shifted = true }) s
  ]

  pub degrade : String → ℕ → SessionRouter → Option SessionRouter
  degrade session_id now s =
      if length s.baseline == 0 then some s else elim (session_of session_id now s) [
        | none ↦ none
        | some none ↦ some s
        | some (some st) ↦
            if leb (length s.baseline) st.cur_idx
            then some (store session_id st s)
            else some (
                shift session_id (record st { last_access = now })
                  (mark_unavailable_locked session_id st.cur_idx s))
      ]

pub sweep : ℕ → ℕ → Assoc String SessionState → SessionRouter → SessionRouter × ℕ
sweep max_age now [] s = (s, 0)
sweep max_age now ((sid, st) ∷ sessions) s =
    let (s', swept) = sweep max_age now sessions s in
    if leb (st.last_access + max_age) now
    then (record s' { sessions = erase sid s'.sessions; unavail = erase sid s'.unavail }, swept + 1)
    else (s', swept)

pub sweep_stale : ℕ → ℕ → SessionRouter → SessionRouter × ℕ
sweep_stale max_age now s = sweep max_age now s.sessions s
