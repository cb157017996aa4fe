-- ===== src/Wire/Header/Examples.antt =====
-- The frames of internal/transport/frame.go on concrete packets.
use corelink.Prelude.{
  ℕ, ◌+◌, ◌<◌, ◌≤◌, ◌≡◌, ◌⊎◌, refl, List, [], ◌∷◌, ◌++◌, length, arith, bit_or, zero, suc,
}
use corelink.Prelude.Outcome.{ok, err}
use corelink.Wire.Addr.{Addr, v4, v6, zero_addr, on_wire}
use corelink.Wire.Header.{
  WireError, Frame, write_stream_frame, read_stream_frame_raw, read_stream_frame, vip_bytes,
  encode_datagram, decode_datagram, datagram_short, header_short, write_stream_keepalive,
  write_stream_keepalive_echo, write_stream_dns, frame_too_long, flag_dns,
}
use corelink.Wire.Header.Stream.{
  Packet, received, write_all, read_many, read_many-write_all, read_raw-write_stream_frame,
  frame_size,
}
use corelink.Wire.Header.RoundTrip.{decode-encode_datagram}
use corelink.Wire.Header.Safety.{decode_datagram_total, read_stream_frame_total, IsReadError}
use corelink.Wire.Header.Control.{
  keepalive_frame, read_raw-keepalive, read_raw-dns, read_raw-dns_oversize,
}

abbrev one_packet : Packet
one_packet = record { dst = v4 3232235777; relay = 7; ttl = 64; payload = 1 ∷ 2 ∷ 3 ∷ [] }

abbrev one_frame : List ℕ
one_frame = 0 ∷ 0 ∷ 0 ∷ 11 ∷ 0 ∷ 64 ∷ 192 ∷ 168 ∷ 1 ∷ 1 ∷ 0 ∷ 7 ∷ 1 ∷ 2 ∷ 3 ∷ []

abbrev other_packet : Packet
other_packet = record { dst = zero_addr; relay = 0; ttl = 1; payload = [] }

abbrev two_frames : List ℕ
two_frames = one_frame ++ 0 ∷ 0 ∷ 0 ∷ 8 ∷ 0 ∷ 1 ∷ 0 ∷ 0 ∷ 0 ∷ 0 ∷ 0 ∷ 0 ∷ []

one_packet-written : write_stream_frame (v4 3232235777) 7 64 (1 ∷ 2 ∷ 3 ∷ []) ≡ ok one_frame
unfolding write_stream_frame
one_packet-written = refl

two_packets-written : write_all (one_packet ∷ other_packet ∷ []) ≡ ok two_frames
unfolding write_all write_stream_frame
two_packets-written = refl

read_many-write_all_example :
    read_many 2 (two_frames ++ 9 ∷ [])
    ≡ ok (received one_packet ∷ received other_packet ∷ [], 9 ∷ [])
read_many-write_all_example =
    read_many-write_all (one_packet ∷ other_packet ∷ []) two_frames (9 ∷ [])
      ((omega arith, omega arith), ((tt, omega arith), tt)) two_packets-written

read_raw-write_stream_frame_run :
    read_stream_frame_raw (one_frame ++ 9 ∷ [])
    ≡ ok (received one_packet, (vip_bytes (v4 3232235777)).1, 9 ∷ [])
read_raw-write_stream_frame_run =
    read_raw-write_stream_frame one_packet one_frame (9 ∷ []) (omega arith, omega arith)
      one_packet-written

abbrev six : Addr
six = v6 2306139568115548160 1

decode-encode_datagram_run :
    decode_datagram (encode_datagram six 7 64 (5 ∷ []))
    ≡ ok (record { dst_vip = on_wire six; dst_relay = 7; ttl = 64; payload = 5 ∷ [] })
decode-encode_datagram_run =
    decode-encode_datagram six 7 64 (5 ∷ []) (omega arith, omega arith) (omega arith)

abbrev one_datagram : List ℕ
one_datagram = 0 ∷ 64 ∷ 10 ∷ 0 ∷ 0 ∷ 1 ∷ 0 ∷ 7 ∷ 5 ∷ []

decode_datagram_total_run :
    ((length one_datagram < 8) × (decode_datagram one_datagram ≡ err datagram_short))
    ⊎ ((8 ≤ length one_datagram) × (decode_datagram one_datagram ≡ err header_short))
    ⊎ ((f : Frame) × (decode_datagram one_datagram ≡ ok f)
        × (length f.payload + 8 ≤ length one_datagram))
decode_datagram_total_run = decode_datagram_total one_datagram

read_stream_frame_total_run :
    ((e : WireError) × (read_stream_frame one_frame ≡ err e) × IsReadError e)
    ⊎ ((f : Frame) × (rest : List ℕ) × (read_stream_frame one_frame ≡ ok (f, rest))
        × (12 + length f.payload + length rest ≤ length one_frame))
read_stream_frame_total_run = read_stream_frame_total one_frame

read_raw-keepalive_run :
    (read_stream_frame_raw (write_stream_keepalive 5 ++ 1 ∷ []) ≡ ok (keepalive_frame 5, 2, 1 ∷ []))
    × (read_stream_frame_raw (write_stream_keepalive_echo 5 ++ 1 ∷ [])
        ≡ ok (keepalive_frame 5, 6, 1 ∷ []))
read_raw-keepalive_run = read_raw-keepalive 5 (1 ∷ [])

dns_size :
    (bs : List ℕ) → (frame_size six bs ≡ 20 + length bs) × (frame_size (v4 1) bs ≡ 8 + length bs)
unfolding vip_bytes
dns_size bs = (refl, refl)

read_raw-dns_run :
    read_stream_frame_raw (write_stream_dns six (1 ∷ 2 ∷ []) ++ [])
    ≡ ok (
      record { dst_vip = on_wire six; dst_relay = 0; ttl = 64; payload = 1 ∷ 2 ∷ [] },
      bit_or (vip_bytes six).1 flag_dns,
      [],
    )
read_raw-dns_run =
    read_raw-dns six (1 ∷ 2 ∷ []) [] (omega arith, omega arith)
      (grind (arith, dns_size (1 ∷ 2 ∷ [])))

-- A DNS message longer than a frame may be.
abbrev zeros : ℕ → List ℕ
zeros zero = []
zeros (suc n) = 0 ∷ zeros n

length-zeros : (n : ℕ) → length (zeros n) ≡ n
length-zeros zero = refl
length-zeros (suc n) = let h = length-zeros n in omega arith

read_raw-dns_oversize_example :
    read_stream_frame_raw (write_stream_dns (v4 1) (zeros 70000) ++ []) ≡ err frame_too_long
read_raw-dns_oversize_example =
    read_raw-dns_oversize (v4 1) (zeros 70000) []
      (grind (arith, length-zeros 70000, dns_size (zeros 70000)))
      (grind (arith, length-zeros 70000, dns_size (zeros 70000)))
