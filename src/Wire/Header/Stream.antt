-- ===== src/Wire/Header/Stream.antt =====
-- The stream of frames: what is written by `WriteStreamFrame` is read back by `ReadStreamFrame`,
-- frame by frame, with the rest of the stream left for the next read.
use corelink.Prelude.{
  ℕ, ◌+◌, ◌<◌, ◌≤◌, ◌≡◌, refl, List, [], ◌∷◌, ◌++◌, ◌⊎◌, All, map, length, length-append,
  take-append, drop-append, append_assoc, arith, inl, inr, zero, suc,
}
use corelink.Prelude.Outcome.{ok, err, ◌>>=◌, >>=-eq-ok}
use corelink.Prelude.Bytes.{put_u16, put_u32, be-put_u32, byte_at}
use corelink.Wire.Addr.{Addr, IsAddr, on_wire}
use corelink.Wire.Header.{
  Frame, Wire, frame_too_long, vip_bytes, frame_body, read_full, parse_frame, read_stream_frame_raw,
  read_stream_frame, write_stream_frame, max_frame_len,
}
use corelink.Wire.Header.RoundTrip.{KeepsFamily, parse-frame_body, length-vip_bytes}

read_full-append : (xs ys : List ℕ) (n : ℕ) → n ≡ length xs → read_full n (xs ++ ys) ≡ ok (xs, ys)
unfolding read_full
read_full-append xs ys n e =
    rw e (ground (arith, take-append xs ys, drop-append xs ys, length-append xs ys))

-- A length prefix of four bytes and a body of that many bytes.
pub read_raw-framed :
    (flags : ℕ) (body rest : List ℕ) (f : Frame)
    → 8 ≤ length (flags ∷ body)
    → length (flags ∷ body) ≤ max_frame_len
    → parse_frame (flags ∷ body) ≡ ok f
    → read_stream_frame_raw (put_u32 (length (flags ∷ body)) ++ ((flags ∷ body) ++ rest))
      ≡ ok (f, flags, rest)
unfolding read_stream_frame_raw byte_at
read_raw-framed flags body rest f lo hi p = ground (
  arith,
  read_full-append (put_u32 (length (flags ∷ body))) ((flags ∷ body) ++ rest) 4 refl,
  read_full-append (flags ∷ body) rest (length (flags ∷ body)) refl,
  be-put_u32 (length (flags ∷ body)),
)

pub read-read_raw :
    (bs : List ℕ) (f : Frame) (flags : ℕ) (rest : List ℕ)
    → read_stream_frame_raw bs ≡ ok (f, flags, rest)
    → read_stream_frame bs ≡ ok (f, rest)
unfolding read_stream_frame read_stream_frame_raw
read-read_raw bs f flags rest h = ground arith

length-frame_body :
    (flags ttl relay : ℕ) (vip payload : List ℕ)
    → length (frame_body flags ttl vip relay payload) ≡ 4 + length vip + length payload
unfolding frame_body
length-frame_body flags ttl relay vip payload =
    omega (arith, length-append vip (put_u16 relay ++ payload))

abbrev pub frame_size : Addr → List ℕ → ℕ
frame_size a payload = 4 + length (vip_bytes a).0 + length payload

-- Both buffers of `WriteStreamFrame` give the same bytes, and only the length can refuse a frame.
write_stream_frame_cases :
    (a : Addr) (relay ttl : ℕ) (payload : List ℕ)
    → ((max_frame_len < frame_size a payload)
        × (write_stream_frame a relay ttl payload ≡ err frame_too_long))
      ⊎ ((frame_size a payload ≤ max_frame_len)
          × (write_stream_frame a relay ttl payload
              ≡ ok (
                  put_u32 (frame_size a payload)
                  ++ frame_body (vip_bytes a).1 ttl (vip_bytes a).0 relay payload)))
unfolding write_stream_frame
write_stream_frame_cases a relay ttl payload = ground arith

pub read_framed_body :
    (flags ttl relay : ℕ) (a : Addr) (payload rest : List ℕ)
    → KeepsFamily flags a
    → IsAddr a
    → relay < 65536
    → frame_size a payload ≤ max_frame_len
    → read_stream_frame_raw (
        (put_u32 (frame_size a payload) ++ frame_body flags ttl (vip_bytes a).0 relay payload)
        ++ rest)
      ≡ ok (
        record { dst_vip = on_wire a; dst_relay = relay; ttl = ttl; payload = payload },
        flags,
        rest,
      )
unfolding frame_body
read_framed_body flags ttl relay a payload rest k w r fits =
    rw (append_assoc, ← length-frame_body flags ttl relay (vip_bytes a).0 payload)
      (read_raw-framed flags _ rest _ (omega (arith, size, length-vip_bytes a))
        (omega (arith, size)) (parse-frame_body flags ttl relay a payload k w r))
  where
    size :
        length (frame_body flags ttl (vip_bytes a).0 relay payload)
        ≡ 4 + length (vip_bytes a).0 + length payload
    size = length-frame_body flags ttl relay (vip_bytes a).0 payload

abbrev pub Packet : Type 0
Packet = record { dst : Addr; relay : ℕ; ttl : ℕ; payload : List ℕ }

abbrev pub IsPacket : Packet → Type 0
IsPacket p = IsAddr p.dst × (p.relay < 65536)

-- What a reader sees of a packet.
abbrev pub received : Packet → Frame
received p = record {
  dst_vip = on_wire p.dst;
  dst_relay = p.relay;
  ttl = p.ttl;
  payload = p.payload;
}

-- A frame that the writer accepts, of a proper address and a 16-bit relay id, is read back as it was
-- written, with the address flag, and the reader stops at its last byte.
pub read_raw-write_stream_frame :
    (p : Packet) (bs rest : List ℕ)
    → IsPacket p
    → write_stream_frame p.dst p.relay p.ttl p.payload ≡ ok bs
    → read_stream_frame_raw (bs ++ rest) ≡ ok (received p, (vip_bytes p.dst).1, rest)
read_raw-write_stream_frame p bs rest w h =
    elim (write_stream_frame_cases p.dst p.relay p.ttl p.payload) [
      | inl (_, e) ↦ cc
      | inr (fits, e) ↦ rw (same e) (
          read_framed_body (vip_bytes p.dst).1 p.ttl p.relay p.dst p.payload rest refl w.0 w.1 fits)
    ]
  where
    same : {bs' : List ℕ} → write_stream_frame p.dst p.relay p.ttl p.payload ≡ ok bs' → bs ≡ bs'
    same e = cc

-- `WriteStreamFrame` in a row, and `ReadStreamFrame` in a row on the same reader.
unfoldable pub write_all : List Packet → Wire (List ℕ)
write_all [] = ok []
write_all (p ∷ ps) = do
  bs ← write_stream_frame p.dst p.relay p.ttl p.payload
  rest ← write_all ps
  ok (bs ++ rest)

pub read_many : ℕ → List ℕ → Wire (List Frame × List ℕ)
read_many zero bs = ok ([], bs)
read_many (suc n) bs = do
  (f, rest) ← read_stream_frame bs
  (fs, rest') ← read_many n rest
  ok (f ∷ fs, rest')

-- A sequence of packets with proper addresses and 16-bit relay ids, all of which the writer accepts, is
-- read back from the stream in order, each as the wire shows it, and what follows stays unread.
pub read_many-write_all :
    (ps : List Packet) (bs rest : List ℕ)
    → All IsPacket ps
    → write_all ps ≡ ok bs
    → read_many (length ps) (bs ++ rest) ≡ ok (map received ps, rest)
unfolding write_all read_many
read_many-write_all [] bs rest w h = ground arith
read_many-write_all (p ∷ ps) bs rest w h =
    let (one, e, h') = >>=-eq-ok (write_stream_frame p.dst p.relay p.ttl p.payload) _ h in
    let (more, e', h'') = >>=-eq-ok (write_all ps) _ h' in
    step one more e (read_many-write_all ps more rest w.1 e') (ground (arith, h''))
  where
    step :
        (one more : List ℕ)
        → write_stream_frame p.dst p.relay p.ttl p.payload ≡ ok one
        → read_many (length ps) (more ++ rest) ≡ ok (map received ps, rest)
        → bs ≡ one ++ more
        → read_many (suc (length ps)) (bs ++ rest) ≡ ok (received p ∷ map received ps, rest)
    step one more e ih eq =
        rw (eq, append_assoc)
          (ground (
            arith,
            ih,
            read-read_raw (one ++ (more ++ rest)) _ _ _
                (read_raw-write_stream_frame p one (more ++ rest) w.0 e),
          ))
