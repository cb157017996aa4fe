-- ===== src/Wire/Header/Safety.antt =====
-- The decoders of internal/transport/frame.go on arbitrary bytes.
use corelink.Prelude.{
  ℕ, ◌+◌, ◌<◌, ◌≤◌, ◌≡◌, ◌⊎◌, inl, inr, List, [], ◌∷◌, length, length-take, length-drop, take, drop,
  arith, ltb, lt→ltb, le→ltb-false, ltb-false→le, Bool-cases,
}
use native.Mathlib.Decide.{dec_le, dec_lt}
use corelink.Prelude.Outcome.{IsSafe, returns, fails, >>=-IsSafe, reject_if-IsSafe, ok, err}
use corelink.Prelude.Bytes.{be, slice_ok, word_at_ok, slice_from_ok, byte_at-IsSafe}
use corelink.Wire.Addr.{addr_from4, addr_from16}
use corelink.Wire.Header.{
  Frame, WireError, frame_too_long, frame_too_short, header_short, short_read, datagram_short,
  parse_frame, read_full, read_stream_frame_raw, read_stream_frame, decode_datagram, max_frame_len,
  has_flag, flag_ipv6,
}

-- The two outcomes of `parseFrame` on a body of two bytes or more.
parse_frame_cases :
    (frame : List ℕ)
    → 2 ≤ length frame
    → (parse_frame frame ≡ err header_short)
      ⊎ ((f : Frame) × (parse_frame frame ≡ ok f) × (length f.payload + 8 ≤ length frame))
unfolding parse_frame
parse_frame_cases [] h = absurd (omega arith)
parse_frame_cases (x ∷ []) h = absurd (omega arith)
parse_frame_cases (flags ∷ ttl ∷ rest) h = elim (Bool-cases (has_flag flags flag_ipv6)) [
  | inl six ↦ elim (dec_le 18 (length rest)) [
    | yes fits ↦ inr (
      record {
        dst_vip = addr_from16 (take 16 rest);
        dst_relay = be (take 2 (drop 16 rest));
        ttl = ttl;
        payload = drop 18 rest;
      },
      ground (
        arith,
        slice_ok {E = WireError} (flags ∷ ttl ∷ rest) 2 18,
        word_at_ok {E = WireError} 2 (flags ∷ ttl ∷ rest) 18,
        slice_from_ok {E = WireError} (flags ∷ ttl ∷ rest) 20,
      ),
      omega (arith, length-drop 18 rest),
    )
    | no short ↦ inl (ground arith)
  ]
  | inr four ↦ elim (dec_le 6 (length rest)) [
    | yes fits ↦ inr (
      record {
        dst_vip = addr_from4 (take 4 rest);
        dst_relay = be (take 2 (drop 4 rest));
        ttl = ttl;
        payload = drop 6 rest;
      },
      ground (
        arith,
        slice_ok {E = WireError} (flags ∷ ttl ∷ rest) 2 6,
        word_at_ok {E = WireError} 2 (flags ∷ ttl ∷ rest) 6,
        slice_from_ok {E = WireError} (flags ∷ ttl ∷ rest) 8,
      ),
      omega (arith, length-drop 6 rest),
    )
    | no short ↦ inl (ground arith)
  ]
]

-- On any bytes the decoder returns: the error for fewer than 8 bytes, the error for a cut header, or a
-- frame whose payload lies in the bytes after 8 of header.
pub decode_datagram_total :
    (bs : List ℕ)
    → ((length bs < 8) × (decode_datagram bs ≡ err datagram_short))
      ⊎ ((8 ≤ length bs) × (decode_datagram bs ≡ err header_short))
      ⊎ ((f : Frame) × (decode_datagram bs ≡ ok f) × (length f.payload + 8 ≤ length bs))
unfolding decode_datagram
decode_datagram_total bs = elim (dec_lt (length bs) 8) [
  | yes short ↦ inl (short, rw (lt→ltb (length bs) 8 short))
  | no long ↦ elim (parse_frame_cases bs (omega arith)) [
    | inl e ↦ inr (inl (omega arith, rw (le→ltb-false (length bs) 8 (omega arith), e)))
    | inr (f, e, fits) ↦ inr (inr (f, rw (le→ltb-false (length bs) 8 (omega arith), e), fits))
  ]
]

read_full_cases :
    (n : ℕ) (bs : List ℕ)
    → (read_full n bs ≡ err short_read)
      ⊎ ((n ≤ length bs) × (read_full n bs ≡ ok (take n bs, drop n bs)))
unfolding read_full
read_full_cases n bs = ground arith

-- The errors that a stream reader can return.
pub data IsReadError : WireError → Type 0 where
  ended : IsReadError short_read
  long : IsReadError frame_too_long
  short : IsReadError frame_too_short
  header : IsReadError header_short

-- On any bytes the stream reader returns: one of its read errors, or a frame and the unread rest, which
-- with 12 bytes of framing fit into what was there.
pub read_stream_frame_total :
    (bs : List ℕ)
    → ((e : WireError) × (read_stream_frame bs ≡ err e) × IsReadError e)
      ⊎ ((f : Frame) × (rest : List ℕ) × (read_stream_frame bs ≡ ok (f, rest))
          × (12 + length f.payload + length rest ≤ length bs))
unfolding read_stream_frame
read_stream_frame_total bs = elim (read_full_cases 4 bs) [
  | inl e ↦ inl (short_read, ground (arith, e), ended)
  | inr (four, e) ↦ elim (dec_lt max_frame_len n) [
    | yes large ↦ inl (frame_too_long, ground (arith, e), long)
    | no fits ↦ elim (dec_lt n 8) [
      | yes small ↦ inl (frame_too_short, ground (arith, e), short)
      | no enough ↦ elim (read_full_cases n (drop 4 bs)) [
        | inl e' ↦ inl (short_read, ground (arith, e, e'), ended)
        | inr (all, e') ↦
            elim (parse_frame_cases (take n (drop 4 bs))
              (omega (arith, length-take n (drop 4 bs) all))) [
                | inl e'' ↦ inl (header_short, ground (arith, e, e', e''), header)
                | inr (f, e'', size) ↦ inr (
                  f,
                  drop n (drop 4 bs),
                  ground (arith, e, e', e''),
                  omega (
                    arith,
                    length-take n (drop 4 bs) all,
                    length-drop n (drop 4 bs),
                    length-drop 4 bs,
                  ),
                )
              ]
      ]
    ]
  ]
]
  where
    n : ℕ
    n = be (take 4 bs)

read_full-IsSafe :
    (n : ℕ) (bs : List ℕ)
    → IsSafe (λ r. (length r.0 ≡ n) × (n + length r.1 ≡ length bs)) (read_full n bs)
read_full-IsSafe n bs = elim (read_full_cases n bs) [
  | inl e ↦ rw e fails
  | inr (fits, e) ↦ rw e (returns (length-take n bs fits, omega (arith, length-drop n bs)))
]

parse_frame-IsSafe :
    (frame : List ℕ)
    → 2 ≤ length frame
    → IsSafe (λ f. length f.payload + 8 ≤ length frame) (parse_frame frame)
parse_frame-IsSafe frame h = elim (parse_frame_cases frame h) [
  | inl e ↦ rw e fails
  | inr (f, e, size) ↦ rw e (returns size)
]

-- Reading never panics, and takes twelve bytes at least from the stream.
pub read_raw-IsSafe :
    (bs : List ℕ) → IsSafe (λ r. 12 + length r.2 ≤ length bs) (read_stream_frame_raw bs)
unfolding read_stream_frame_raw
read_raw-IsSafe bs = >>=-IsSafe (read_full-IsSafe 4 bs) λ first four.
    let n = be first.0 in
    >>=-IsSafe (reject_if-IsSafe (ltb max_frame_len n) frame_too_long) λ _ _.
      >>=-IsSafe (reject_if-IsSafe (ltb n 8) frame_too_short) λ _ enough.
        let eight : 8 ≤ n = ltb-false→le n 8 enough in
        >>=-IsSafe (read_full-IsSafe n first.1) λ body size.
          >>=-IsSafe (byte_at-IsSafe WireError body.0 0 (omega arith)) λ flags _.
            >>=-IsSafe (parse_frame-IsSafe body.0 (omega arith)) λ f _. returns (omega arith)
