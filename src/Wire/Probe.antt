-- ===== src/Wire/Probe.antt =====
-- Path probe frames of internal/transport/frame.go, with the single route that a route-sync frame
-- carries. The round-trip time of that route is a float64 in the source; its type and the two
-- conversions `uint16(x)` and `float64(n)` are parameters.
pub mod RoundTrip
pub mod Frame
pub mod Safety
mod Examples
use corelink.Prelude.{
  ℕ, ◌+◌, ◌-◌, ◌*◌, ◌%◌, ◌≡◌, refl, Bool, true, false, ◌&&◌, List, [], ◌∷◌, ◌++◌, length, zero, suc,
  arith, ◌==◌, ltb, leb, if◌then◌else◌, bit_and, bit_or, get_elem?, Option, none, some,
}
use corelink.Prelude.Outcome.{Outcome, ok, err, panic, ◌>>=◌, ◌>>◌, reject_if}
use corelink.Prelude.Bytes.{be, put_u16, put_u32, put_u64, byte_at, slice, word_at}
use corelink.Wire.Addr.{Addr, zero_addr, as4, addr_from4}
use corelink.Wire.Header.{
  Wire, WireError, probe_short, probe_route_overrun, has_flag, vip_bytes, flag_probe,
  fixed_hdr_size,
}

pub record RouteSyncEntry (Float : Type 0) : Type 0 where
  pub dst_vip : Addr
  pub next_hop_vip : Addr
  pub rtt_ms : Float

-- `nonce` and `timestamp_ns` are 64-bit patterns: the source converts the signed timestamp by
-- `uint64(x)` and `int64(x)`, which keep the pattern.
pub record ProbeFrame (Float : Type 0) : Type 0 where
  pub is_reply : Bool
  pub auto_reply : Bool
  pub is_route_sync : Bool
  pub nonce : ℕ
  pub timestamp_ns : ℕ
  pub source_vip : Addr
  pub hop_index : ℕ
  pub orig_hop : ℕ
  pub route : List Addr
  pub sync_entry : RouteSyncEntry Float

abbrev pub probe_fixed_size : ℕ
probe_fixed_size = 24

abbrev pub route_sync_entry_size : ℕ
route_sync_entry_size = 10

module _ {Float : Type 0} where
  -- The zero address past the end of the route.
  pub next_hop : ProbeFrame Float → Addr
  next_hop p = elim (get_elem? p.route p.hop_index) [ none ↦ zero_addr | some a ↦ a ]

  -- `HopIndex` is a uint8.
  pub advance : ProbeFrame Float → ProbeFrame Float
  advance p = record p { hop_index = (p.hop_index + 1) % 256 }

  pub probe_flags : ProbeFrame Float → ℕ
  probe_flags p =
      bit_or (bit_or (if p.is_reply then 1 else 0) (if p.auto_reply then 2 else 0))
        (if p.is_route_sync then 4 else 0)

pub encode_route : List Addr → Wire (List ℕ)
encode_route [] = ok []
encode_route (vip ∷ route) = do a ← as4 vip; rest ← encode_route route; ok (put_u32 a ++ rest)

pub decode_route : ℕ → List ℕ → ℕ → Wire (List Addr)
decode_route zero bs off = ok []
decode_route (suc hops) bs off = do
  a ← slice bs off (off + 4)
  rest ← decode_route hops bs (off + 4)
  ok (addr_from4 a ∷ rest)

module _ {Float : Type 0} (to_u16 : Float → ℕ) where
  pub encode_sync : Bool → RouteSyncEntry Float → Wire (List ℕ)
  encode_sync false e = ok []
  encode_sync true e = do
    d ← as4 e.dst_vip
    n ← as4 e.next_hop_vip
    ok (put_u32 d ++ (put_u32 n ++ put_u16 (to_u16 e.rtt_ms)))

  pub encode_probe_payload : ProbeFrame Float → Wire (List ℕ)
  unfolding probe_flags
  encode_probe_payload p = do
    source ← as4 p.source_vip
    route ← encode_route p.route
    sync ← encode_sync p.is_route_sync p.sync_entry
    ok (
        (probe_flags p
          ∷ (put_u64 p.nonce
              ++ (put_u64 p.timestamp_ns
                  ++ (put_u32 source ++ (p.hop_index ∷ p.orig_hop ∷ (length p.route % 256) ∷ [])))))
        ++ (route ++ sync))

  -- `WriteProbeFrame`: the TTL byte is the number of hops left, and no test of the length.
  pub write_probe_frame : ProbeFrame Float → Addr → Wire (List ℕ)
  write_probe_frame p dst = do
    payload ← encode_probe_payload p
    let (vip, f) = vip_bytes dst
    let total = fixed_hdr_size + length vip + length payload
    let ttl = (length p.route % 256 + 256 - p.hop_index) % 256
    ok (put_u32 total ++ (bit_or f flag_probe ∷ ttl ∷ (vip ++ (put_u16 0 ++ payload))))

module _ {Float : Type 0} (of_u16 : ℕ → Float) where
  abbrev pub no_entry : RouteSyncEntry Float
  no_entry = record { dst_vip = zero_addr; next_hop_vip = zero_addr; rtt_ms = of_u16 0 }

  pub decode_sync : Bool → List ℕ → ℕ → Wire (RouteSyncEntry Float)
  decode_sync false bs off = ok no_entry
  decode_sync true bs off = do
    d ← slice bs off (off + 4)
    n ← slice bs (off + 4) (off + 8)
    r ← word_at 2 bs (off + 8)
    ok (record { dst_vip = addr_from4 d; next_hop_vip = addr_from4 n; rtt_ms = of_u16 r })

  pub decode_probe_payload : List ℕ → Wire (ProbeFrame Float)
  decode_probe_payload bs = do
    reject_if (ltb (length bs) probe_fixed_size) probe_short
    flags ← byte_at bs 0
    nonce ← word_at 8 bs 1
    timestamp ← word_at 8 bs 9
    source ← slice bs 17 21
    hop_index ← byte_at bs 21
    orig_hop ← byte_at bs 22
    hop_count ← byte_at bs 23
    reject_if (ltb (length bs) (24 + hop_count * 4)) probe_route_overrun
    route ← decode_route hop_count bs 24
    let off = 24 + hop_count * 4
    let synced = has_flag flags 4 && leb (off + route_sync_entry_size) (length bs)
    entry ← decode_sync synced bs off
    ok (record {
      is_reply = has_flag flags 1;
      auto_reply = has_flag flags 2;
      is_route_sync = has_flag flags 4;
      nonce = nonce;
      timestamp_ns = timestamp;
      source_vip = addr_from4 source;
      hop_index = hop_index;
      orig_hop = orig_hop;
      route = route;
      sync_entry = entry;
    })
