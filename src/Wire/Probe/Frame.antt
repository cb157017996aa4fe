-- ===== src/Wire/Probe/Frame.antt =====
-- The whole probe payload of internal/transport/frame.go, there and back.
use corelink.Prelude.{
  ℕ, ◌+◌, ◌-◌, ◌*◌, ◌%◌, ◌<◌, ◌≤◌, ◌≡◌, refl, Bool, true, false, ◌&&◌, List, [], ◌∷◌, ◌++◌, length,
  arith, drop, map, All, length-append, if◌then◌else◌, leb, le→ltb-false, bit_or,
}
use corelink.Prelude.Outcome.{ok, >>=-eq-ok}
use corelink.Prelude.Bytes.{
  put_u32, put_u64, byte_at, slice, word_at, drop_at, word_at_u64, slice_u32,
}
use corelink.Wire.Addr.{Addr, IsAddr, as4, as4-on_wire, addr_from4, on_wire}
use corelink.Wire.Header.{
  WireError, has_flag, vip_bytes, flag_probe, max_frame_len, read_stream_frame_raw, frame_body,
}
use corelink.Wire.Header.Stream.{frame_size, read_framed_body}
use corelink.Wire.Header.Control.{or-KeepsFamily}
use corelink.Wire.Probe.{
  ProbeFrame, RouteSyncEntry, probe_flags, encode_route, decode_route, encode_sync, decode_sync,
  encode_probe_payload, write_probe_frame, decode_probe_payload,
}
use corelink.Wire.Probe.RoundTrip.{
  sync_on_wire, length-encode_route, decode-encode_route, length-encode_sync, decode-encode_sync,
}

module _ {Float : Type 0} (to_u16 : Float → ℕ) (of_u16 : ℕ → Float)
    (to_u16_bound : (x : Float) → to_u16 x < 65536) where
  pub record IsProbe (p : ProbeFrame Float) : Type 0 where
    pub nonce : p.nonce < 18446744073709551616
    pub timestamp : p.timestamp_ns < 18446744073709551616
    pub source : IsAddr p.source_vip
    pub route : All IsAddr p.route
    pub hops : length p.route < 256
    pub sync : IsAddr p.sync_entry.dst_vip × IsAddr p.sync_entry.next_hop_vip

  -- The frame as the peer sees it.
  pub probe_on_wire : ProbeFrame Float → ProbeFrame Float
  probe_on_wire p = record p {
    source_vip = on_wire p.source_vip;
    route = map on_wire p.route;
    sync_entry = sync_on_wire to_u16 of_u16 to_u16_bound p.is_route_sync p.sync_entry;
  }

  flag_bits :
      (p : ProbeFrame Float)
      → (has_flag (probe_flags p) 1 ≡ p.is_reply)
        × (has_flag (probe_flags p) 2 ≡ p.auto_reply)
        × (has_flag (probe_flags p) 4 ≡ p.is_route_sync)
  unfolding probe_flags
  flag_bits p = go p.is_reply p.auto_reply p.is_route_sync
    where
      go :
          (r a s : Bool)
          → let f =
              bit_or (bit_or (if r then 1 else 0) (if a then 2 else 0)) (if s then 4 else 0) in
            (has_flag f 1 ≡ r) × (has_flag f 2 ≡ a) × (has_flag f 4 ≡ s)
      go true true true = (refl, refl, refl)
      go true true false = (refl, refl, refl)
      go true false true = (refl, refl, refl)
      go true false false = (refl, refl, refl)
      go false true true = (refl, refl, refl)
      go false true false = (refl, refl, refl)
      go false false true = (refl, refl, refl)
      go false false false = (refl, refl, refl)

  decode_probe_parts :
      (p : ProbeFrame Float) (bs : List ℕ) (source : ℕ) (route : List Addr)
      (entry : RouteSyncEntry Float)
      → byte_at {E = WireError} bs 0 ≡ ok (probe_flags p)
      → word_at {E = WireError} 8 bs 1 ≡ ok p.nonce
      → word_at {E = WireError} 8 bs 9 ≡ ok p.timestamp_ns
      → slice {E = WireError} bs 17 21 ≡ ok (put_u32 source)
      → byte_at {E = WireError} bs 21 ≡ ok p.hop_index
      → byte_at {E = WireError} bs 22 ≡ ok p.orig_hop
      → byte_at {E = WireError} bs 23 ≡ ok (length p.route)
      → 24 + length p.route * 4 ≤ length bs
      → decode_route (length p.route) bs 24 ≡ ok route
      → (p.is_route_sync && leb (24 + length p.route * 4 + 10) (length bs)) ≡ p.is_route_sync
      → decode_sync of_u16 p.is_route_sync bs (24 + length p.route * 4) ≡ ok entry
      → decode_probe_payload of_u16 bs
        ≡ ok (record p {
          source_vip = addr_from4 (put_u32 source);
          route = route;
          sync_entry = entry;
        })
  unfolding decode_probe_payload
  decode_probe_parts p bs source route entry f0 f1 f2 f3 f4 f5 f6 size r s e =
      let (reply, auto, sync) = flag_bits p in
      rw (le→ltb-false (length bs) 24 (omega arith), f0, f1, f2, f3, f4, f5, f6)
        (rw (le→ltb-false (length bs) (24 + length p.route * 4) size, r)
          (rw (reply, auto, sync, s, e)))

  decode_probe_body :
      (p : ProbeFrame Float) (source : ℕ) (route sync : List ℕ)
      → IsProbe p
      → as4 {E = WireError} p.source_vip ≡ ok source
      → encode_route p.route ≡ ok route
      → encode_sync to_u16 p.is_route_sync p.sync_entry ≡ ok sync
      → decode_probe_payload of_u16 (
          (probe_flags p
            ∷ (put_u64 p.nonce
                ++ (put_u64 p.timestamp_ns
                    ++ (put_u32 source
                        ++ (p.hop_index ∷ p.orig_hop ∷ (length p.route % 256) ∷ [])))))
          ++ (route ++ sync))
        ≡ ok (probe_on_wire p)
  unfolding probe_on_wire byte_at
  decode_probe_body p source route sync v es er ey =
      let hops = length p.route in
      let tail = p.hop_index ∷ p.orig_hop ∷ hops ∷ (route ++ sync) in
      let bs : List ℕ =
        (probe_flags p
          ∷ (put_u64 p.nonce
              ++ (put_u64 p.timestamp_ns
                  ++ (put_u32 source ++ (p.hop_index ∷ p.orig_hop ∷ hops ∷ [])))))
        ++ (route ++ sync) in
      let route_size : length route ≡ hops * 4 = length-encode_route p.route route er in
      let sync_at : drop (24 + hops * 4) bs ≡ sync =
        rw (← route_size) (drop_at bs 24 route sync refl) in
      let size : length bs ≡ 24 + hops * 4 + length sync =
        omega (arith, length-append route sync, route_size) in
      rw (wrapped, ← as4-on_wire {E = WireError} p.source_vip source v.source es)
        (decode_probe_parts p bs source (map on_wire p.route) _ refl
          (word_at_u64 bs 1 p.nonce (put_u64 p.timestamp_ns ++ (put_u32 source ++ tail)) v.nonce
            refl)
          (word_at_u64 bs 9 p.timestamp_ns (put_u32 source ++ tail) v.timestamp refl)
          (slice_u32 bs 17 source tail refl) refl refl refl (omega (arith, size))
          (decode-encode_route p.route route bs 24 sync v.route er refl)
          (synced p.is_route_sync (24 + hops * 4) (length bs) (length sync) size
            (length-encode_sync to_u16 of_u16 to_u16_bound p.is_route_sync p.sync_entry sync ey))
          (decode-encode_sync to_u16 of_u16 to_u16_bound p.is_route_sync p.sync_entry sync bs
            (24 + hops * 4) v.sync ey sync_at))
    where
      wrapped : length p.route % 256 ≡ length p.route
      wrapped = omega (arith, v.hops)

      synced :
          (s : Bool) (end total extra : ℕ)
          → total ≡ end + extra
          → extra ≡ (if s then 10 else 0)
          → (s && leb (end + 10) total) ≡ s
      synced true end total extra h k = ground arith
      synced false end total extra h k = refl

  -- The payload of a proper probe that is encoded without a panic is decoded to the same probe as the
  -- wire shows it, if the conversion to 16 bits stays within 16 bits.
  pub decode-encode_probe_payload :
      (p : ProbeFrame Float) (bs : List ℕ)
      → IsProbe p
      → encode_probe_payload to_u16 p ≡ ok bs
      → decode_probe_payload of_u16 bs ≡ ok (probe_on_wire p)
  unfolding encode_probe_payload
  decode-encode_probe_payload p bs v h =
      let (source, es, h') = >>=-eq-ok (as4 p.source_vip) _ h in
      let (route, er, h'') = >>=-eq-ok (encode_route p.route) _ h' in
      let (sync, ey, h''') = >>=-eq-ok (encode_sync to_u16 p.is_route_sync p.sync_entry) _ h'' in
      let done = decode_probe_body p source route sync v es er ey in ground (arith, h''', done)

  -- A probe frame to a proper address that is written without a panic, within the length limit, is read
  -- back with its payload, the probe flag and the hops left, modulo 256, as its TTL.
  pub read_raw-write_probe_frame :
      (p : ProbeFrame Float) (dst : Addr) (bs payload rest : List ℕ)
      → IsAddr dst
      → encode_probe_payload to_u16 p ≡ ok payload
      → write_probe_frame to_u16 p dst ≡ ok bs
      → frame_size dst payload ≤ max_frame_len
      → read_stream_frame_raw (bs ++ rest)
        ≡ ok (
          record {
            dst_vip = on_wire dst;
            dst_relay = 0;
            ttl = (length p.route % 256 + 256 - p.hop_index) % 256;
            payload = payload;
          },
          bit_or (vip_bytes dst).1 flag_probe,
          rest,
        )
  unfolding write_probe_frame frame_body
  read_raw-write_probe_frame p dst bs payload rest w e h fits =
      let ttl = (length p.route % 256 + 256 - p.hop_index) % 256 in
      let flags = bit_or (vip_bytes dst).1 flag_probe in
      let same : bs
          ≡ put_u32 (frame_size dst payload) ++ frame_body flags ttl (vip_bytes dst).0 0 payload =
        ground arith in
      rw same (
        read_framed_body (bit_or (vip_bytes dst).1 flag_probe) ttl 0 dst payload rest
          (or-KeepsFamily flag_probe dst refl refl) w (omega arith) fits)
