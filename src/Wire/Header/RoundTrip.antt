-- ===== src/Wire/Header/RoundTrip.antt =====
-- Reading back what internal/transport/frame.go writes.
use corelink.Prelude.{
  ℕ, ◌<◌, ◌≤◌, ◌/◌, ◌%◌, ◌≡◌, refl, true, false, List, [], ◌∷◌, ◌++◌, length, length-append, arith,
  Bool-cases, inl, inr,
}
use corelink.Prelude.Outcome.{ok}
use corelink.Prelude.Bytes.{
  be, put_u16, put_u64, be-put_u16, be-put_u32, be-put_u64, be-low, slice, slice_from, word_at,
}
use corelink.Wire.Addr.{Addr, IsAddr, zero_addr, v4, v6, on_wire, is_mapped}
use corelink.Wire.Header.{
  has_flag, flag_ipv6, vip_bytes, frame_body, parse_frame, encode_datagram, decode_datagram,
}

parse_v4 :
    (flags ttl relay a b c d : ℕ) (payload : List ℕ)
    → has_flag flags flag_ipv6 ≡ false
    → relay < 65536
    → parse_frame (frame_body flags ttl (a ∷ b ∷ c ∷ d ∷ []) relay payload)
      ≡ ok (record {
        dst_vip = v4 (be (a ∷ b ∷ c ∷ d ∷ []));
        dst_relay = relay;
        ttl = ttl;
        payload = payload;
      })
unfolding parse_frame frame_body slice slice_from word_at
parse_v4 flags ttl relay a b c d payload h r = ground (arith, be-put_u16 relay)

parse_v6 :
    (flags ttl relay hi lo : ℕ) (payload : List ℕ)
    → has_flag flags flag_ipv6 ≡ true
    → relay < 65536
    → hi < 18446744073709551616
    → lo < 18446744073709551616
    → parse_frame (frame_body flags ttl (put_u64 hi ++ put_u64 lo) relay payload)
      ≡ ok (record { dst_vip = v6 hi lo; dst_relay = relay; ttl = ttl; payload = payload })
unfolding parse_frame frame_body slice slice_from word_at
parse_v6 flags ttl relay hi lo payload h r hh hl =
    ground (arith, be-put_u16 relay, be-put_u64 hi hh, be-put_u64 lo hl)

-- A flags byte that leaves the address bit as `vip_bytes` set it.
abbrev pub KeepsFamily : ℕ → Addr → Type 0
KeepsFamily flags a = has_flag flags flag_ipv6 ≡ has_flag (vip_bytes a).1 flag_ipv6

pub parse-frame_body :
    (flags ttl relay : ℕ) (a : Addr) (payload : List ℕ)
    → KeepsFamily flags a
    → IsAddr a
    → relay < 65536
    → parse_frame (frame_body flags ttl (vip_bytes a).0 relay payload)
      ≡ ok (record { dst_vip = on_wire a; dst_relay = relay; ttl = ttl; payload = payload })
unfolding vip_bytes
parse-frame_body flags ttl relay zero_addr payload k w r =
    ground (arith, parse_v4 flags ttl relay 0 0 0 0 payload k r)
parse-frame_body flags ttl relay (v4 n) payload k w r = ground (
  arith,
  parse_v4 flags ttl relay (n / 16777216 % 256) (n / 65536 % 256) (n / 256 % 256) (n % 256) payload
      k r,
  be-put_u32 n w,
)
parse-frame_body flags ttl relay (v6 hi lo) payload k w r = elim (Bool-cases (is_mapped hi lo)) [
  | inl m ↦ ground (
    arith,
    parse_v4 flags ttl relay (lo / 16777216 % 256) (lo / 65536 % 256) (lo / 256 % 256) (lo % 256)
        payload,
    be-low lo,
  )
  | inr m ↦ ground (arith, parse_v6 flags ttl relay hi lo payload)
]

-- Four bytes or sixteen.
pub length-vip_bytes : (a : Addr) → (4 ≤ length (vip_bytes a).0) × (length (vip_bytes a).0 ≤ 16)
unfolding vip_bytes
length-vip_bytes zero_addr = omega arith
length-vip_bytes (v4 n) = omega arith
length-vip_bytes (v6 hi lo) = ground arith

-- A datagram of a proper address and a 16-bit relay id is decoded as it was encoded, with the address
-- as the wire shows it.
pub decode-encode_datagram :
    (a : Addr) (relay ttl : ℕ) (payload : List ℕ)
    → IsAddr a
    → relay < 65536
    → decode_datagram (encode_datagram a relay ttl payload)
      ≡ ok (record { dst_vip = on_wire a; dst_relay = relay; ttl = ttl; payload = payload })
unfolding decode_datagram encode_datagram frame_body
decode-encode_datagram a relay ttl payload w r = ground (
  arith,
  parse-frame_body (vip_bytes a).1 ttl relay a payload refl w r,
  length-append (vip_bytes a).0 (put_u16 relay ++ payload),
  length-vip_bytes a,
)
