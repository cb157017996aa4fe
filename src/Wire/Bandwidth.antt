-- ===== src/Wire/Bandwidth.antt =====
-- Bandwidth test frames and their replies, of internal/transport/frame.go. `duration_ns` is the
-- 64-bit pattern of a signed number, as `timestamp_ns` in Probe.
pub mod RoundTrip
mod Examples
use corelink.Prelude.{ℕ, Bool, true, false, List, [], ◌∷◌, ◌++◌, length, ltb, if◌then◌else◌}
use corelink.Prelude.Outcome.{ok, ◌>>=◌, ◌>>◌, reject_if}
use corelink.Prelude.Bytes.{put_u32, put_u64, byte_at, slice, word_at}
use corelink.Wire.Addr.{Addr, as4, addr_from4}
use corelink.Wire.Header.{Wire, bandwidth_short, reply_short, has_flag}

pub record BandwidthFrame : Type 0 where
  pub nonce : ℕ
  pub seq_no : ℕ
  pub total_packets : ℕ
  pub is_last : Bool
  pub source_vip : Addr

abbrev pub bandwidth_fixed_size : ℕ
bandwidth_fixed_size = 21

pub encode_bandwidth_frame : BandwidthFrame → Wire (List ℕ)
encode_bandwidth_frame f = do
  v ← as4 f.source_vip
  ok (
      put_u64 f.nonce
      ++ (put_u32 f.seq_no
          ++ (put_u32 f.total_packets ++ ((if f.is_last then 1 else 0) ∷ put_u32 v))))

pub decode_bandwidth_frame : List ℕ → Wire BandwidthFrame
decode_bandwidth_frame bs = do
  reject_if (ltb (length bs) bandwidth_fixed_size) bandwidth_short
  nonce ← word_at 8 bs 0
  seq_no ← word_at 4 bs 8
  total ← word_at 4 bs 12
  flags ← byte_at bs 16
  source ← slice bs 17 21
  ok (record {
    nonce = nonce;
    seq_no = seq_no;
    total_packets = total;
    is_last = has_flag flags 1;
    source_vip = addr_from4 source;
  })

pub record BandwidthReply : Type 0 where
  pub nonce : ℕ
  pub throughput_bps : ℕ
  pub duration_ns : ℕ
  pub received_count : ℕ

abbrev pub bandwidth_reply_size : ℕ
bandwidth_reply_size = 28

pub encode_bandwidth_reply : BandwidthReply → List ℕ
encode_bandwidth_reply r =
    put_u64 r.nonce
    ++ (put_u64 r.throughput_bps ++ (put_u64 r.duration_ns ++ put_u32 r.received_count))

pub decode_bandwidth_reply : List ℕ → Wire BandwidthReply
decode_bandwidth_reply bs = do
  reject_if (ltb (length bs) bandwidth_reply_size) reply_short
  nonce ← word_at 8 bs 0
  throughput ← word_at 8 bs 8
  duration ← word_at 8 bs 16
  received ← word_at 4 bs 24
  ok (record {
    nonce = nonce;
    throughput_bps = throughput;
    duration_ns = duration;
    received_count = received;
  })
