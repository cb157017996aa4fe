-- ===== src/Wire/Bandwidth/Examples.antt =====
-- The bandwidth frames of internal/transport/frame.go on concrete values.
use corelink.Prelude.{ℕ, ◌≡◌, refl, List, [], ◌∷◌, ◌++◌, true, arith}
use corelink.Prelude.Outcome.{ok}
use corelink.Wire.Addr.{v4, as4, on_wire}
use corelink.Wire.Bandwidth.{
  BandwidthFrame, BandwidthReply, encode_bandwidth_frame, decode_bandwidth_frame,
  encode_bandwidth_reply, decode_bandwidth_reply,
}
use corelink.Wire.Bandwidth.RoundTrip.{decode-encode_bandwidth_frame, decode-encode_bandwidth_reply}

abbrev last_frame : BandwidthFrame
last_frame = record {
  nonce = 258;
  seq_no = 3;
  total_packets = 4;
  is_last = true;
  source_vip = v4 167772161;
}

abbrev last_bytes : List ℕ
last_bytes = 0 ∷ 0 ∷ 0 ∷ 0 ∷ 0 ∷ 0 ∷ 1 ∷ 2 ∷ 0 ∷ 0 ∷ 0 ∷ 3 ∷ 0 ∷ 0 ∷ 0 ∷ 4 ∷ 1 ∷ 10 ∷ 0 ∷ 0 ∷ 1 ∷ []

last_frame-encoded : encode_bandwidth_frame last_frame ≡ ok last_bytes
unfolding encode_bandwidth_frame as4
last_frame-encoded = refl

decode-encode_bandwidth_frame_run :
    decode_bandwidth_frame (last_bytes ++ 0 ∷ 0 ∷ [])
    ≡ ok (record last_frame { source_vip = on_wire (v4 167772161) })
decode-encode_bandwidth_frame_run =
    decode-encode_bandwidth_frame last_frame last_bytes (0 ∷ 0 ∷ [])
      (record {
        nonce = omega arith;
        seq_no = omega arith;
        total = omega arith;
        source = omega arith;
      })
      last_frame-encoded

abbrev one_reply : BandwidthReply
one_reply = record { nonce = 258; throughput_bps = 1000000; duration_ns = 5; received_count = 4 }

decode-encode_bandwidth_reply_run :
    decode_bandwidth_reply (encode_bandwidth_reply one_reply) ≡ ok one_reply
decode-encode_bandwidth_reply_run = decode-encode_bandwidth_reply one_reply (record {
  nonce = omega arith;
  throughput = omega arith;
  duration = omega arith;
  received = omega arith;
})
