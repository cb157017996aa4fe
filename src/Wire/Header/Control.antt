-- ===== src/Wire/Header/Control.antt =====
-- The control frames of internal/transport/frame.go that bypass `WriteStreamFrame`: keepalives and DNS.
use corelink.Prelude.{
  ℕ, ◌<◌, ◌≤◌, ◌≡◌, inl, inr, refl, true, false, List, ◌++◌, append_assoc, arith, Bool-cases,
  bit_or,
}
use corelink.Prelude.Outcome.{ok, err}
use corelink.Prelude.Bytes.{put_u16, put_u32, put_u64, be-put_u32, slice, slice_from, word_at}
use corelink.Wire.Addr.{Addr, IsAddr, zero_addr, v4, v6, is_mapped, on_wire}
use corelink.Wire.Header.{
  Frame, frame_too_long, vip_bytes, frame_body, parse_frame, read_full, read_stream_frame_raw,
  max_frame_len, write_stream_keepalive, write_stream_keepalive_echo, write_stream_dns, flag_dns,
  has_flag, flag_ipv6,
}
use corelink.Wire.Header.RoundTrip.{KeepsFamily}
use corelink.Wire.Header.Stream.{read_framed_body, frame_size}

abbrev pub keepalive_frame : ℕ → Frame
keepalive_frame seq = record { dst_vip = v4 0; dst_relay = 0; ttl = 0; payload = put_u64 seq }

-- A keepalive request and its echo are read back as the same frame, told apart by their flags, 2 and 6;
-- what follows stays unread.
pub read_raw-keepalive :
    (seq : ℕ) (rest : List ℕ)
    → (read_stream_frame_raw (write_stream_keepalive seq ++ rest)
        ≡ ok (keepalive_frame seq, 2, rest))
      × (read_stream_frame_raw (write_stream_keepalive_echo seq ++ rest)
          ≡ ok (keepalive_frame seq, 6, rest))
unfolding write_stream_keepalive write_stream_keepalive_echo read_stream_frame_raw parse_frame
    read_full slice slice_from word_at
read_raw-keepalive seq rest = (ground arith, ground arith)

-- A flag other than the address bit leaves that bit alone.
pub or-KeepsFamily :
    (bit : ℕ) (a : Addr)
    → has_flag (bit_or 0 bit) flag_ipv6 ≡ false
    → has_flag (bit_or 1 bit) flag_ipv6 ≡ true
    → KeepsFamily (bit_or (vip_bytes a).1 bit) a
unfolding vip_bytes
or-KeepsFamily bit zero_addr h k = h
or-KeepsFamily bit (v4 n) h k = h
or-KeepsFamily bit (v6 hi lo) h k = elim (Bool-cases (is_mapped hi lo)) [
  | inl m ↦ rw m h
  | inr m ↦ rw m k
]

write_stream_dns_body :
    (a : Addr) (dns : List ℕ)
    → write_stream_dns a dns
      ≡ put_u32 (frame_size a dns)
        ++ frame_body (bit_or (vip_bytes a).1 flag_dns) 64 (vip_bytes a).0 0 dns
unfolding write_stream_dns frame_body
write_stream_dns_body a dns = ground (arith, append_assoc (vip_bytes a).0 (put_u16 0) dns)

-- A DNS frame to a proper address whose length is within the limit is read back whole, with its flag.
pub read_raw-dns :
    (a : Addr) (dns rest : List ℕ)
    → IsAddr a
    → frame_size a dns ≤ max_frame_len
    → read_stream_frame_raw (write_stream_dns a dns ++ rest)
      ≡ ok (
        record { dst_vip = on_wire a; dst_relay = 0; ttl = 64; payload = dns },
        bit_or (vip_bytes a).1 flag_dns,
        rest,
      )
read_raw-dns a dns rest w fits = rw (write_stream_dns_body a dns) (
    read_framed_body (bit_or (vip_bytes a).1 flag_dns) 64 0 a dns rest
      (or-KeepsFamily flag_dns a refl refl) w (omega arith) fits)

-- A DNS frame longer than the limit, and shorter than 2^32, is written all the same, and the peer's
-- reader fails on it.
pub read_raw-dns_oversize :
    (a : Addr) (dns rest : List ℕ)
    → max_frame_len < frame_size a dns
    → frame_size a dns < 4294967296
    → read_stream_frame_raw (write_stream_dns a dns ++ rest) ≡ err frame_too_long
unfolding read_stream_frame_raw read_full
read_raw-dns_oversize a dns rest over u32 =
    rw (write_stream_dns_body a dns) (ground (arith, be-put_u32 (frame_size a dns)))
