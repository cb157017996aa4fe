-- ===== src/Wire/Probe/RoundTrip.antt =====
-- Reading back the probe frames of internal/transport/frame.go.
use corelink.Prelude.{
  ℕ, ◌+◌, ◌*◌, ◌<◌, ◌≡◌, refl, ◌∙◌, Bool, true, false, List, [], ◌∷◌, ◌++◌, length, suc, arith,
  drop, map, All, append_assoc, append-nil, if◌then◌else◌,
}
use corelink.Prelude.Outcome.{ok, >>=-eq-ok}
use corelink.Prelude.Bytes.{put_u16, put_u32, slice_u32, drop_past_u32, word_at_u16}
use corelink.Wire.Addr.{Addr, IsAddr, as4, as4-on_wire, on_wire}
use corelink.Wire.Header.{WireError}
use corelink.Wire.Probe.{
  RouteSyncEntry, encode_route, decode_route, encode_sync, decode_sync, no_entry,
}

pub length-encode_route :
    (route : List Addr) (bs : List ℕ) → encode_route route ≡ ok bs → length bs ≡ length route * 4
unfolding encode_route
length-encode_route [] bs h = ground arith
length-encode_route (vip ∷ route) bs h =
    let (a, e, h') = >>=-eq-ok (as4 vip) _ h in
    let (more, e', h'') = >>=-eq-ok (encode_route route) _ h' in
    ground (arith, h'', length-encode_route route more e')

pub decode-encode_route :
    (route : List Addr) (enc bs : List ℕ) (off : ℕ) (rest : List ℕ)
    → All IsAddr route
    → encode_route route ≡ ok enc
    → drop off bs ≡ enc ++ rest
    → decode_route (length route) bs off ≡ ok (map on_wire route)
unfolding encode_route decode_route
decode-encode_route [] enc bs off rest w h d = refl
decode-encode_route (vip ∷ route) enc bs off rest w h d =
    let (a, e, h') = >>=-eq-ok (as4 vip) _ h in
    let (more, e', h'') = >>=-eq-ok (encode_route route) _ h' in
    step a more e e' (decode-encode_route route more bs (off + 4) rest w.1 e') (ground (arith, h''))
  where
    step :
        (a : ℕ) (more : List ℕ)
        → as4 {E = WireError} vip ≡ ok a
        → encode_route route ≡ ok more
        → (drop (off + 4) bs ≡ more ++ rest
            → decode_route (length route) bs (off + 4) ≡ ok (map on_wire route))
        → enc ≡ put_u32 a ++ more
        → decode_route (suc (length route)) bs off ≡ ok (on_wire vip ∷ map on_wire route)
    step a more e e' ih eq =
        let d' : drop off bs ≡ put_u32 a ++ (more ++ rest) =
          d ∙ rw eq (append_assoc (put_u32 a) more rest) in
        ground (
          arith,
          slice_u32 {E = WireError} bs off a (more ++ rest) d',
          as4-on_wire vip a w.0 e,
          ih (drop_past_u32 bs off a (more ++ rest) d'),
        )

module _ {Float : Type 0} (to_u16 : Float → ℕ) (of_u16 : ℕ → Float)
    (to_u16_bound : (x : Float) → to_u16 x < 65536) where
  abbrev pub IsSyncEntry : RouteSyncEntry Float → Type 0
  IsSyncEntry e = IsAddr e.dst_vip × IsAddr e.next_hop_vip

  -- The single route, with the round-trip time at the precision of the wire; a frame that is not
  -- a route-sync frame comes back with the zero entry.
  abbrev pub sync_on_wire : Bool → RouteSyncEntry Float → RouteSyncEntry Float
  sync_on_wire false e = no_entry of_u16
  sync_on_wire true e = record {
    dst_vip = on_wire e.dst_vip;
    next_hop_vip = on_wire e.next_hop_vip;
    rtt_ms = of_u16 (to_u16 e.rtt_ms);
  }

  pub length-encode_sync :
      (s : Bool) (e : RouteSyncEntry Float) (enc : List ℕ)
      → encode_sync to_u16 s e ≡ ok enc
      → length enc ≡ (if s then 10 else 0)
  unfolding encode_sync
  length-encode_sync false e enc h = ground arith
  length-encode_sync true e enc h =
      let (d, ed, h') = >>=-eq-ok (as4 e.dst_vip) _ h in
      let (n, en, h'') = >>=-eq-ok (as4 e.next_hop_vip) _ h' in ground (arith, h'')

  pub decode-encode_sync :
      (s : Bool) (e : RouteSyncEntry Float) (enc bs : List ℕ) (off : ℕ)
      → IsSyncEntry e
      → encode_sync to_u16 s e ≡ ok enc
      → drop off bs ≡ enc
      → decode_sync of_u16 s bs off ≡ ok (sync_on_wire s e)
  unfolding encode_sync decode_sync
  decode-encode_sync false e enc bs off w h d = refl
  decode-encode_sync true e enc bs off w h d =
      let (a, ea, h') = >>=-eq-ok (as4 e.dst_vip) _ h in
      let (n, en, h'') = >>=-eq-ok (as4 e.next_hop_vip) _ h' in step a n ea en (ground (arith, h''))
    where
      step :
          (a n : ℕ)
          → as4 {E = WireError} e.dst_vip ≡ ok a
          → as4 {E = WireError} e.next_hop_vip ≡ ok n
          → enc ≡ put_u32 a ++ (put_u32 n ++ put_u16 (to_u16 e.rtt_ms))
          → decode_sync of_u16 true bs off ≡ ok (sync_on_wire true e)
      step a n ea en eq =
          let tail = put_u16 (to_u16 e.rtt_ms) in
          let at_dst : drop off bs ≡ put_u32 a ++ (put_u32 n ++ tail) = d ∙ eq in
          let at_next : drop (off + 4) bs ≡ put_u32 n ++ tail = drop_past_u32 bs off a _ at_dst in
          let at_rtt : drop (off + 8) bs ≡ tail =
            let sum : off + 8 ≡ off + 4 + 4 = omega arith in
            rw sum (drop_past_u32 bs (off + 4) n tail at_next) in
          let next_end : off + 4 + 4 ≡ off + 8 = omega arith in
          ground (
            arith,
            slice_u32 {E = WireError} bs off a _ at_dst,
            rw next_end at (slice_u32 {E = WireError} bs (off + 4) n tail at_next),
            word_at_u16 {E = WireError} bs (off + 8) (to_u16 e.rtt_ms) [] (to_u16_bound e.rtt_ms)
                (rw append-nil at_rtt),
            as4-on_wire e.dst_vip a w.0 ea,
            as4-on_wire e.next_hop_vip n w.1 en,
          )
