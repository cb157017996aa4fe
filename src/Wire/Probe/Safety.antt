-- ===== src/Wire/Probe/Safety.antt =====
-- The probe payload decoder of internal/transport/frame.go on arbitrary bytes.
use corelink.Prelude.{
  ℕ, ◌+◌, ◌*◌, ◌≤◌, ◌≡◌, refl, Bool, true, false, ◌&&◌, List, length, zero, suc, arith, leb, ltb,
  ltb-false→le,
}
use corelink.Prelude.Outcome.{IsSafe, returns, >>=-IsSafe, reject_if-IsSafe}
use corelink.Prelude.Bytes.{byte_at-IsSafe, slice-IsSafe, word_at-IsSafe}
use corelink.Wire.Header.{WireError, probe_short, probe_route_overrun, has_flag}
use corelink.Wire.Probe.{decode_route, decode_sync, decode_probe_payload}

abbrev Anything {ℓ} : {A : Type ℓ} → A → Type 0
Anything a = Unit {0}

decode_route-IsSafe :
    (hops : ℕ) (bs : List ℕ) (off : ℕ)
    → off + hops * 4 ≤ length bs
    → IsSafe (λ route. length route ≡ hops) (decode_route hops bs off)
unfolding decode_route
decode_route-IsSafe zero bs off h = returns refl
decode_route-IsSafe (suc hops) bs off h =
    >>=-IsSafe (slice-IsSafe WireError bs off (off + 4) (omega arith) (omega arith)) λ a _.
      >>=-IsSafe (decode_route-IsSafe hops bs (off + 4) (omega arith))
        λ route e. returns (omega arith)

module _ {Float : Type 0} (of_u16 : ℕ → Float) where
  decode_sync-IsSafe :
      (s : Bool) (bs : List ℕ) (off : ℕ)
      → (s ≡ true → off + 10 ≤ length bs)
      → IsSafe Anything (decode_sync of_u16 s bs off)
  unfolding decode_sync
  decode_sync-IsSafe false bs off h = returns tt
  decode_sync-IsSafe true bs off h =
      let fits = h refl in
      >>=-IsSafe (slice-IsSafe WireError bs off (off + 4) (omega arith) (omega arith)) λ d _.
        >>=-IsSafe (slice-IsSafe WireError bs (off + 4) (off + 8) (omega arith) (omega arith))
          λ n _.
            >>=-IsSafe (word_at-IsSafe WireError 2 bs (off + 8) (omega arith)) λ r _. returns tt

  -- Whatever the bytes are, the decoder does not panic, and each decoded hop was in the payload.
  pub decode_probe_payload-IsSafe :
      (bs : List ℕ)
      → IsSafe (λ p. 24 + length p.route * 4 ≤ length bs) (decode_probe_payload of_u16 bs)
  unfolding decode_probe_payload
  decode_probe_payload-IsSafe bs =
      >>=-IsSafe (reject_if-IsSafe (ltb (length bs) 24) probe_short) λ _ long.
        let size : 24 ≤ length bs = ltb-false→le (length bs) 24 long in
        >>=-IsSafe (byte_at-IsSafe WireError bs 0 (omega arith)) λ flags _.
          >>=-IsSafe (word_at-IsSafe WireError 8 bs 1 (omega arith)) λ nonce _.
            >>=-IsSafe (word_at-IsSafe WireError 8 bs 9 (omega arith)) λ ts _.
              >>=-IsSafe (slice-IsSafe WireError bs 17 21 (omega arith) (omega arith)) λ source _.
                >>=-IsSafe (byte_at-IsSafe WireError bs 21 (omega arith)) λ hop _.
                  >>=-IsSafe (byte_at-IsSafe WireError bs 22 (omega arith)) λ orig _.
                    >>=-IsSafe (byte_at-IsSafe WireError bs 23 (omega arith)) λ hops _.
                      >>=-IsSafe
                        (reject_if-IsSafe (ltb (length bs) (24 + hops * 4)) probe_route_overrun)
                        λ _ fits.
                          let room : 24 + hops * 4 ≤ length bs =
                            ltb-false→le (length bs) (24 + hops * 4) fits in
                          >>=-IsSafe (decode_route-IsSafe hops bs 24 room) λ route n.
                            >>=-IsSafe
                              (decode_sync-IsSafe
                                (has_flag flags 4 && leb (24 + hops * 4 + 10) (length bs)) bs
                                (24 + hops * 4) (λ e. ground arith))
                              λ entry _. returns (omega arith)
