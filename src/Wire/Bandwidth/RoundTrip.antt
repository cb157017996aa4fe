-- ===== src/Wire/Bandwidth/RoundTrip.antt =====
-- Reading back the bandwidth frames of internal/transport/frame.go. The sender pads a frame to the
-- MTU, so whatever follows the fixed part is ignored.
use corelink.Prelude.{ℕ, ◌<◌, ◌≡◌, refl, List, [], ◌∷◌, ◌++◌, arith, if◌then◌else◌}
use corelink.Prelude.Outcome.{ok, >>=-eq-ok}
use corelink.Prelude.Bytes.{put_u32, put_u64, byte_at, slice_u32, word_at_u32, word_at_u64}
use corelink.Wire.Addr.{IsAddr, as4, as4-on_wire, on_wire}
use corelink.Wire.Header.{WireError}
use corelink.Wire.Bandwidth.{
  BandwidthFrame, BandwidthReply, encode_bandwidth_frame, decode_bandwidth_frame,
  encode_bandwidth_reply, decode_bandwidth_reply,
}

pub record IsBandwidth (f : BandwidthFrame) : Type 0 where
  pub nonce : f.nonce < 18446744073709551616
  pub seq_no : f.seq_no < 4294967296
  pub total : f.total_packets < 4294967296
  pub source : IsAddr f.source_vip

-- A bandwidth frame with fields in range that is encoded without a panic is decoded as it was, with its
-- address as the wire shows it, whatever padding follows.
pub decode-encode_bandwidth_frame :
    (f : BandwidthFrame) (bs padding : List ℕ)
    → IsBandwidth f
    → encode_bandwidth_frame f ≡ ok bs
    → decode_bandwidth_frame (bs ++ padding) ≡ ok (record f { source_vip = on_wire f.source_vip })
unfolding encode_bandwidth_frame decode_bandwidth_frame byte_at
decode-encode_bandwidth_frame f bs padding w h =
    let (v, e, h') = >>=-eq-ok (as4 f.source_vip) _ h in go v e (ground (arith, h'))
  where
    last : ℕ
    last = if f.is_last then 1 else 0

    go :
        (v : ℕ)
        → as4 {E = WireError} f.source_vip ≡ ok v
        → bs
          ≡ put_u64 f.nonce ++ (put_u32 f.seq_no ++ (put_u32 f.total_packets ++ (last ∷ put_u32 v)))
        → decode_bandwidth_frame (bs ++ padding)
          ≡ ok (record f { source_vip = on_wire f.source_vip })
    go v e eq =
        let tail = last ∷ (put_u32 v ++ padding) in
        let whole = put_u64 f.nonce ++ (put_u32 f.seq_no ++ (put_u32 f.total_packets ++ tail)) in
        rw eq (
          ground (
            arith,
            word_at_u64 {E = WireError} whole 0 f.nonce
                (put_u32 f.seq_no ++ (put_u32 f.total_packets ++ tail)) w.nonce refl,
            word_at_u32 {E = WireError} whole 8 f.seq_no (put_u32 f.total_packets ++ tail) w.seq_no
                refl,
            word_at_u32 {E = WireError} whole 12 f.total_packets tail w.total refl,
            slice_u32 {E = WireError} whole 17 v padding refl,
            as4-on_wire {E = WireError} f.source_vip v w.source e,
          ))

pub record IsReply (r : BandwidthReply) : Type 0 where
  pub nonce : r.nonce < 18446744073709551616
  pub throughput : r.throughput_bps < 18446744073709551616
  pub duration : r.duration_ns < 18446744073709551616
  pub received : r.received_count < 4294967296

-- A bandwidth reply with fields in range is decoded as it was encoded.
pub decode-encode_bandwidth_reply :
    (r : BandwidthReply) → IsReply r → decode_bandwidth_reply (encode_bandwidth_reply r) ≡ ok r
unfolding encode_bandwidth_reply decode_bandwidth_reply
decode-encode_bandwidth_reply r w =
    let tail = put_u32 r.received_count in
    let whole = put_u64 r.nonce ++ (put_u64 r.throughput_bps ++ (put_u64 r.duration_ns ++ tail)) in
    ground (
      arith,
      word_at_u64 {E = WireError} whole 0 r.nonce
          (put_u64 r.throughput_bps ++ (put_u64 r.duration_ns ++ tail)) w.nonce refl,
      word_at_u64 {E = WireError} whole 8 r.throughput_bps (put_u64 r.duration_ns ++ tail)
          w.throughput refl,
      word_at_u64 {E = WireError} whole 16 r.duration_ns tail w.duration refl,
      word_at_u32 {E = WireError} whole 24 r.received_count [] w.received refl,
    )
