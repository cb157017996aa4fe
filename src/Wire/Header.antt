-- ===== src/Wire/Header.antt =====
-- The frame header of internal/transport/frame.go: flags, TTL, destination address and relay
-- index, before the payload. A reader is the list of bytes that it will still deliver; a writer
-- returns the bytes that it puts on the stream.
pub mod RoundTrip
pub mod Stream
pub mod Safety
pub mod Control
mod Examples
use corelink.Prelude.{
  ℕ, ◌+◌, ◌*◌, ◌<◌, ◌≤◌, ◌≡◌, refl, Bool, true, false, ◌||◌, not, List, [], ◌∷◌, ◌++◌, take, drop,
  length, arith, ◌==◌, ltb, leb, if◌then◌else◌, bit_and, bit_or, zero, suc,
}
use corelink.Prelude.Outcome.{Outcome, ok, err, panic, ◌>>=◌, ◌>>◌, reject_if}
use corelink.Prelude.Bytes.{be, put_u16, put_u32, put_u64, byte_at, slice, slice_from, word_at}
use corelink.Wire.Addr.{Addr, zero_addr, v4, v6, is_mapped, addr_from4, addr_from16}

abbrev pub max_frame_len : ℕ
max_frame_len = 65535

abbrev pub fixed_hdr_size : ℕ
fixed_hdr_size = 4

abbrev pub flag_ipv6 : ℕ
flag_ipv6 = 1

abbrev pub flag_keepalive : ℕ
flag_keepalive = 2

abbrev pub flag_control : ℕ
flag_control = 4

abbrev pub flag_dns : ℕ
flag_dns = 8

abbrev pub flag_probe : ℕ
flag_probe = 32

abbrev pub flag_bandwidth : ℕ
flag_bandwidth = 64

-- `flags&bit != 0`, for `IsKeepalive`, `IsControl`, `IsDNS`, `IsProbe` and `IsBandwidth`.
abbrev pub has_flag : ℕ → ℕ → Bool
has_flag flags bit = not (bit_and flags bit == 0)

pub is_dns : ℕ → Bool
is_dns flags = has_flag flags flag_dns

pub is_probe : ℕ → Bool
is_probe flags = has_flag flags flag_probe

pub is_bandwidth : ℕ → Bool
is_bandwidth flags = has_flag flags flag_bandwidth

-- The errors of this file, without their texts.
pub data WireError : Type 0 where
  frame_too_long frame_too_short header_short short_read : WireError
  datagram_short probe_short probe_route_overrun bandwidth_short reply_short : WireError

abbrev pub Wire {ℓ} : Type ℓ → Type ℓ
Wire A = Outcome WireError A

-- What `parseFrame` returns, and the flags byte that `readStreamFrameRaw` adds.
pub record Frame : Type 0 where
  pub dst_vip : Addr
  pub dst_relay : ℕ
  pub ttl : ℕ
  pub payload : List ℕ

unfoldable pub vip_bytes : Addr → List ℕ × ℕ
vip_bytes zero_addr = (0 ∷ 0 ∷ 0 ∷ 0 ∷ [], 0)
vip_bytes (v4 n) = (put_u32 n, 0)
vip_bytes (v6 hi lo) =
    if is_mapped hi lo then (put_u32 lo, 0) else (put_u64 hi ++ put_u64 lo, flag_ipv6)

pub vip_size : ℕ → ℕ
vip_size flags = if has_flag flags flag_ipv6 then 16 else 4

-- The body that both branches of `WriteStreamFrame` and `EncodeDatagram` lay out.
unfoldable pub frame_body : ℕ → ℕ → List ℕ → ℕ → List ℕ → List ℕ
frame_body flags ttl vip relay payload = flags ∷ ttl ∷ (vip ++ (put_u16 relay ++ payload))

-- The buffer of exactly `need` bytes is filled from the front; both the pooled and the fresh
-- buffer are overwritten as a whole.
pub write_stream_frame_fresh : ℕ → ℕ → List ℕ → ℕ → List ℕ → ℕ → List ℕ
write_stream_frame_fresh flags ttl vip relay payload total =
    put_u32 total ++ frame_body flags ttl vip relay payload

pub write_stream_frame : Addr → ℕ → ℕ → List ℕ → Wire (List ℕ)
unfolding vip_bytes frame_body write_stream_frame_fresh
write_stream_frame dst relay ttl payload =
    let (vip, f) = vip_bytes dst in
    let total = fixed_hdr_size + length vip + length payload in
    if ltb max_frame_len total
    then err frame_too_long
    else if ltb 65536 (4 + total)
    then ok (write_stream_frame_fresh f ttl vip relay payload total)
    else ok (put_u32 total ++ frame_body f ttl vip relay payload)

pub parse_frame : List ℕ → Wire Frame
unfolding vip_size byte_at
parse_frame frame = do
  flags ← byte_at frame 0
  ttl ← byte_at frame 1
  let vs = vip_size flags
  reject_if (ltb (length frame) (fixed_hdr_size + vs)) header_short
  vip ← slice frame 2 (2 + vs)
  let dst = if has_flag flags flag_ipv6 then addr_from16 vip else addr_from4 vip
  relay ← word_at 2 frame (2 + vs)
  payload ← slice_from frame (4 + vs)
  ok (record { dst_vip = dst; dst_relay = relay; ttl = ttl; payload = payload })

-- `io.ReadFull` of `n` bytes.
pub read_full : ℕ → List ℕ → Wire (List ℕ × List ℕ)
read_full n bs = if leb n (length bs) then ok (take n bs, drop n bs) else err short_read

-- `readStreamFrameRaw`: the frame, its flags, and what the reader has left.
pub read_stream_frame_raw : List ℕ → Wire (Frame × ℕ × List ℕ)
unfolding parse_frame read_full
read_stream_frame_raw bs = do
  (len_buf, rest) ← read_full 4 bs
  let n = be len_buf
  reject_if (ltb max_frame_len n) frame_too_long
  reject_if (ltb n 8) frame_too_short
  (frame, rest') ← read_full n rest
  flags ← byte_at frame 0
  f ← parse_frame frame
  ok (f, flags, rest')

-- `ReadStreamFrame` on a buffered reader.
pub read_stream_frame : List ℕ → Wire (Frame × List ℕ)
unfolding parse_frame read_full
read_stream_frame bs = do
  (len_buf, rest) ← read_full 4 bs
  let n = be len_buf
  reject_if (ltb max_frame_len n) frame_too_long
  reject_if (ltb n 8) frame_too_short
  (frame, rest') ← read_full n rest
  f ← parse_frame frame
  ok (f, rest')

pub encode_datagram : Addr → ℕ → ℕ → List ℕ → List ℕ
unfolding vip_bytes frame_body
encode_datagram dst relay ttl payload =
    let (vip, f) = vip_bytes dst in frame_body f ttl vip relay payload

pub decode_datagram : List ℕ → Wire Frame
unfolding parse_frame
decode_datagram bs = if ltb (length bs) 8 then err datagram_short else parse_frame bs

-- `writeStreamKeepaliveRaw`
pub write_keepalive_raw : ℕ → List ℕ → List ℕ
write_keepalive_raw flags seq_payload =
    put_u32 16 ++ (flags ∷ 0 ∷ 0 ∷ 0 ∷ 0 ∷ 0 ∷ 0 ∷ 0 ∷ seq_payload)

pub write_stream_keepalive : ℕ → List ℕ
unfolding write_keepalive_raw
write_stream_keepalive seq = write_keepalive_raw flag_keepalive (put_u64 seq)

pub write_stream_keepalive_echo : ℕ → List ℕ
unfolding write_keepalive_raw
write_stream_keepalive_echo seq =
    write_keepalive_raw (bit_or flag_keepalive flag_control) (put_u64 seq)

-- `WriteStreamDNS`: three writes, and no test of the length.
pub write_stream_dns : Addr → List ℕ → List ℕ
unfolding vip_bytes
write_stream_dns dst dns_payload =
    let (vip, f) = vip_bytes dst in
    let total = fixed_hdr_size + length vip + length dns_payload in
    put_u32 total ++ ((bit_or f flag_dns ∷ 64 ∷ (vip ++ put_u16 0)) ++ dns_payload)
