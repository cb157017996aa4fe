-- ===== src/Wire/Probe/Examples.antt =====
-- The probe frames of internal/transport/frame.go on a concrete probe. The times are whole numbers
-- of milliseconds here.
use corelink.Prelude.{
  ℕ, ◌+◌, ◌*◌, ◌%◌, ◌<◌, ◌≤◌, ◌≡◌, refl, List, [], ◌∷◌, ◌++◌, length, true, false, arith, bit_or,
}
use corelink.Prelude.Outcome.{ok, IsSafe}
use corelink.Wire.Addr.{v4, as4}
use corelink.Wire.Header.{read_stream_frame_raw, vip_bytes, flag_probe, max_frame_len}
use corelink.Wire.Header.Stream.{frame_size}
use corelink.Wire.Probe.{
  ProbeFrame, encode_probe_payload, decode_probe_payload, write_probe_frame, encode_route,
  encode_sync,
}
use corelink.Wire.Probe.Frame.{
  IsProbe, probe_on_wire, decode-encode_probe_payload, read_raw-write_probe_frame,
}
use corelink.Wire.Probe.Safety.{decode_probe_payload-IsSafe}

abbrev to_u16 : ℕ → ℕ
to_u16 x = x % 65536

abbrev same : ℕ → ℕ
same x = x

to_u16_bound : (x : ℕ) → to_u16 x < 65536
to_u16_bound x = omega arith

abbrev one_probe : ProbeFrame ℕ
one_probe = record {
  is_reply = true;
  auto_reply = false;
  is_route_sync = true;
  nonce = 7;
  timestamp_ns = 9;
  source_vip = v4 1;
  hop_index = 1;
  orig_hop = 0;
  route = v4 2 ∷ v4 3 ∷ [];
  sync_entry = record { dst_vip = v4 4; next_hop_vip = v4 5; rtt_ms = 12 };
}

abbrev one_payload : List ℕ
one_payload =
    5 ∷ 0 ∷ 0 ∷ 0 ∷ 0 ∷ 0 ∷ 0 ∷ 0 ∷ 7 ∷ 0 ∷ 0 ∷ 0 ∷ 0 ∷ 0 ∷ 0 ∷ 0 ∷ 9 ∷ 0 ∷ 0 ∷ 0 ∷ 1 ∷ 1 ∷ 0 ∷ 2
    ∷ 0 ∷ 0 ∷ 0 ∷ 2 ∷ 0 ∷ 0 ∷ 0 ∷ 3 ∷ 0 ∷ 0 ∷ 0 ∷ 4 ∷ 0 ∷ 0 ∷ 0 ∷ 5 ∷ 0 ∷ 12 ∷ []

one_probe-encoded : encode_probe_payload to_u16 one_probe ≡ ok one_payload
unfolding encode_probe_payload as4 encode_route encode_sync
one_probe-encoded = refl

one_probe-IsProbe : IsProbe to_u16 same to_u16_bound one_probe
one_probe-IsProbe = record {
  nonce = omega arith;
  timestamp = omega arith;
  source = omega arith;
  route = (omega arith, (omega arith, tt));
  hops = omega arith;
  sync = (omega arith, omega arith);
}

decode-encode_probe_payload_example :
    decode_probe_payload same one_payload ≡ ok (probe_on_wire to_u16 same to_u16_bound one_probe)
decode-encode_probe_payload_example =
    decode-encode_probe_payload to_u16 same to_u16_bound one_probe one_payload one_probe-IsProbe
      one_probe-encoded

abbrev one_frame : List ℕ
one_frame = 0 ∷ 0 ∷ 0 ∷ 50 ∷ 32 ∷ 1 ∷ 0 ∷ 0 ∷ 0 ∷ 9 ∷ 0 ∷ 0 ∷ one_payload

one_probe-written : write_probe_frame to_u16 one_probe (v4 9) ≡ ok one_frame
unfolding write_probe_frame encode_probe_payload as4 encode_route encode_sync vip_bytes
one_probe-written = refl

one_frame-fits : frame_size (v4 9) one_payload ≤ max_frame_len
unfolding vip_bytes
one_frame-fits = omega arith

read_raw-write_probe_frame_run :
    read_stream_frame_raw (one_frame ++ [])
    ≡ ok (
      record { dst_vip = v4 9; dst_relay = 0; ttl = 1; payload = one_payload },
      bit_or (vip_bytes (v4 9)).1 flag_probe,
      [],
    )
read_raw-write_probe_frame_run =
    read_raw-write_probe_frame to_u16 same to_u16_bound one_probe (v4 9) one_frame one_payload []
      (omega arith) one_probe-encoded one_probe-written one_frame-fits

decode_probe_payload-IsSafe_run :
    IsSafe
      (λ p. 24 + length p.route * 4 ≤ length one_payload)
      (decode_probe_payload same one_payload)
decode_probe_payload-IsSafe_run = decode_probe_payload-IsSafe same one_payload
