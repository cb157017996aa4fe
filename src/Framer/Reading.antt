-- ===== src/Framer/Reading.antt =====
-- `ReadPacket` of internal/transport/framer.go.
use corelink.Prelude.{
  ℕ, ◌<◌, ◌≡◌, inl, inr, sym, ◌∙◌, true, false, ◌&&◌, ◌==◌, List, [], ◌++◌, length, zero, suc,
  Bool-cases, arith,
}
use corelink.Prelude.Outcome.{ok, err, IsSafe-cases}
use corelink.Prelude.Assoc.{nat_eq}
use corelink.Wire.Addr.{is_unspecified}
use corelink.Wire.Header.{WireError, Frame, is_dns, is_probe, is_bandwidth, read_stream_frame_raw}
use corelink.Wire.Header.Safety.{read_raw-IsSafe}
use corelink.Framer.{
  Framer, Read, packet, failed, wire, handle, read_packet, read_packet_rounds, is_keepalive_frame,
}

-- One round of the loop, by its outcome.
module _ (n : ℕ) (clock : ℕ → ℕ) (f : Framer) (bs : List ℕ) where
  pub round_fails :
      (e : WireError)
      → read_stream_frame_raw bs ≡ err e
      → read_packet_rounds (suc n) clock f bs
        ≡ record { framer = f; effects = []; left = bs; result = failed (wire e) }
  unfolding read_packet_rounds
  round_fails e eq = rw (eq, read_packet_rounds)

  module _ (fr : Frame) (flags : ℕ) (rest : List ℕ)
      (eq : read_stream_frame_raw bs ≡ ok (fr, flags, rest)) where
    pub round_returns :
        (handle (clock n) f fr flags).2 ≡ true
        → read_packet_rounds (suc n) clock f bs ≡ record {
          framer = (handle (clock n) f fr flags).0;
          effects = (handle (clock n) f fr flags).1;
          left = rest;
          result = packet fr;
        }
    unfolding read_packet_rounds
    round_returns done = rw (eq, read_packet_rounds) (rw (done, read_packet_rounds))

    pub round_goes_on :
        (handle (clock n) f fr flags).2 ≡ false
        → let more = read_packet_rounds n clock (handle (clock n) f fr flags).0 rest in
          read_packet_rounds (suc n) clock f bs
          ≡ record more { effects = (handle (clock n) f fr flags).1 ++ more.effects }
    unfolding read_packet_rounds
    round_goes_on more = rw (eq, read_packet_rounds) (rw (more, read_packet_rounds))

-- A frame goes to the caller only if it is no keepalive and no callback takes its kind.
pub record IsData (f : Framer) (fr : Frame) (flags : ℕ) : Type 0 where
  pub no_keepalive : (fr.ttl == 0 && (is_unspecified fr.dst_vip && length fr.payload == 8)) ≡ false
  pub no_dns : (is_dns flags && f.on_dns) ≡ false
  pub no_probe : (is_probe flags && f.on_probe) ≡ false
  pub no_bandwidth : (is_bandwidth flags && f.on_bandwidth) ≡ false

handle-IsData :
    (now : ℕ) (f : Framer) (fr : Frame) (flags : ℕ)
    → (handle now f fr flags).2 ≡ true
    → IsData f fr flags
unfolding handle is_keepalive_frame
handle-IsData now f fr flags h = ground arith

-- The callbacks and the connection are not touched by reading.
abbrev SameOwner : Framer → Framer → Type 0
SameOwner f g =
    (g.conn ≡ f.conn)
    × (g.on_dns ≡ f.on_dns)
    × (g.on_probe ≡ f.on_probe)
    × (g.on_bandwidth ≡ f.on_bandwidth)

handle-SameOwner :
    (now : ℕ) (f : Framer) (fr : Frame) (flags : ℕ) → SameOwner f (handle now f fr flags).0
unfolding handle
handle-SameOwner now f fr flags = ground arith

IsData-SameOwner :
    (f g : Framer) (fr : Frame) (flags : ℕ) → SameOwner f g → IsData g fr flags → IsData f fr flags
IsData-SameOwner f g fr flags same d = ground arith

-- A frame that the framer keeps for itself: a keepalive, or a kind that has a callback.
pub data IsTaken (f : Framer) (fr : Frame) (flags : ℕ) : Type 0 where
  keepalive :
      fr.ttl ≡ 0 → is_unspecified fr.dst_vip ≡ true → length fr.payload ≡ 8 → IsTaken f fr flags
  of_dns : is_dns flags ≡ true → f.on_dns ≡ true → IsTaken f fr flags
  of_probe : is_probe flags ≡ true → f.on_probe ≡ true → IsTaken f fr flags
  of_bandwidth : is_bandwidth flags ≡ true → f.on_bandwidth ≡ true → IsTaken f fr flags

handle-IsTaken :
    (now : ℕ) (f : Framer) (fr : Frame) (flags : ℕ)
    → (handle now f fr flags).2 ≡ false
    → IsTaken f fr flags
unfolding handle is_keepalive_frame
handle-IsTaken now f fr flags h = elim (Bool-cases (is_keepalive_frame fr)) [
  | inl k ↦ IsTaken.keepalive (ground arith) (ground arith) (ground arith)
  | inr k ↦ elim (Bool-cases (is_dns flags && f.on_dns)) [
    | inl d ↦ IsTaken.of_dns (ground arith) (ground arith)
    | inr d ↦ elim (Bool-cases (is_probe flags && f.on_probe)) [
      | inl p ↦ IsTaken.of_probe (ground arith) (ground arith)
      | inr p ↦ IsTaken.of_bandwidth (ground arith) (ground arith)
    ]
  ]
]

IsTaken-SameOwner :
    (f g : Framer) (fr : Frame) (flags : ℕ)
    → SameOwner f g
    → IsTaken g fr flags
    → IsTaken f fr flags
IsTaken-SameOwner f g fr flags same (IsTaken.keepalive a b c) = IsTaken.keepalive a b c
IsTaken-SameOwner f g fr flags (c, d, p, b) (IsTaken.of_dns x y) = IsTaken.of_dns x (sym d ∙ y)
IsTaken-SameOwner f g fr flags (c, d, p, b) (IsTaken.of_probe x y) = IsTaken.of_probe x (sym p ∙ y)
IsTaken-SameOwner f g fr flags (c, d, p, b) (IsTaken.of_bandwidth x y) =
    IsTaken.of_bandwidth x (sym b ∙ y)

-- How a read of a stream in stream mode ends, and what it leaves: the frames before the last are
-- taken by the framer, each with the flags that it has in the stream.
pub data IsRead (f : Framer) : List ℕ → Read → List ℕ → Type 0 where
  failing :
      {bs left : List ℕ} {e : WireError}
      → read_stream_frame_raw bs ≡ err e
      → IsRead f bs (failed (wire e)) left
  returning :
      {bs rest : List ℕ} {fr : Frame} (flags : ℕ)
      → read_stream_frame_raw bs ≡ ok (fr, flags, rest)
      → IsData f fr flags
      → IsRead f bs (packet fr) rest
  skipping :
      {bs rest left : List ℕ} {r : Read} (fr : Frame) (flags : ℕ)
      → read_stream_frame_raw bs ≡ ok (fr, flags, rest)
      → IsTaken f fr flags
      → IsRead f rest r left
      → IsRead f bs r left

IsRead-SameOwner :
    {f g : Framer} {bs left : List ℕ} {r : Read}
    → SameOwner f g
    → IsRead g bs r left
    → IsRead f bs r left
IsRead-SameOwner same (IsRead.failing q) = IsRead.failing q
IsRead-SameOwner {f} {g} same (IsRead.returning {fr} flags q d) =
    IsRead.returning flags q (IsData-SameOwner f g fr flags same d)
IsRead-SameOwner {f} {g} same (IsRead.skipping fr flags q t more) =
    IsRead.skipping fr flags q (IsTaken-SameOwner f g fr flags same t) (IsRead-SameOwner same more)

rounds-IsRead :
    (n : ℕ) (clock : ℕ → ℕ) (f : Framer) (bs : List ℕ)
    → length bs < n
    → let step = read_packet_rounds n clock f bs in IsRead f bs step.result step.left
rounds-IsRead zero clock f bs h = absurd (omega arith)
rounds-IsRead (suc n) clock f bs h = elim (IsSafe-cases (read_raw-IsSafe bs)) [
  | inl (e, eq) ↦ rw (round_fails n clock f bs e eq) (IsRead.failing eq)
  | inr ((fr, flags, rest), eq, size) ↦ elim (Bool-cases (handle (clock n) f fr flags).2) [
    | inl done ↦
        rw (round_returns n clock f bs fr flags rest eq done)
          (IsRead.returning flags eq (handle-IsData (clock n) f fr flags done))
    | inr more ↦ rw (round_goes_on n clock f bs fr flags rest eq more) (
        IsRead.skipping fr flags eq (handle-IsTaken (clock n) f fr flags more) (
          IsRead-SameOwner (handle-SameOwner (clock n) f fr flags)
            (rounds-IsRead n clock (handle (clock n) f fr flags).0 rest (omega arith))))
  ]
]

-- On an open connection `ReadPacket` ends, for every stream: by a frame that cannot be read, or with a
-- frame that is no keepalive and whose flags name no kind that has a callback. The frames of the stream
-- before that one are all keepalives or of a kind with a callback, and the bytes behind a returned frame
-- are left. The call neither panics nor runs out of rounds.
pub read_packet-IsRead :
    (clock : ℕ → ℕ) (f : Framer) (bs : List ℕ)
    → f.conn ≡ true
    → let step = read_packet clock f bs in IsRead f bs step.result step.left
unfolding read_packet
read_packet-IsRead clock f bs c = simp c (rounds-IsRead (suc (length bs)) clock f bs (omega arith))
