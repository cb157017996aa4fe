-- ===== src/Framer/Keepalive.antt =====
-- The keepalive exchange of internal/transport/framer.go. The two ends are told apart by what they
-- wait for, not by the flags of the frame.
use corelink.Prelude.{
  ℕ, ◌-◌, ◌<◌, ◌≡◌, ◌≢◌, refl, ap, ◌∙◌, Bool, true, false, List, [], ◌∷◌, ◌++◌, suc, ==_refl,
  if◌then◌else◌, none, some, arith,
}
use corelink.Prelude.Outcome.{ok}
use corelink.Prelude.Bytes.{be-put_u64}
use corelink.Prelude.Assoc.{lookup, insert, erase, lookup-insert, nat_eq}
use corelink.Wire.Addr.{is_unspecified}
use corelink.Wire.Header.{
  read_stream_frame_raw, write_stream_keepalive, write_stream_keepalive_echo,
}
use corelink.Wire.Header.Control.{keepalive_frame, read_raw-keepalive}
use corelink.Framer.{
  Framer, Effect, stream, sent, rtt, written, handle, write_keepalive, is_keepalive_frame,
  read_packet_rounds, ReadStep,
}
use corelink.Framer.Reading.{round_goes_on}

-- An end of a stream whose connection is there.
abbrev pub IsOpen : Framer → Type 0
IsOpen f = (f.mode ≡ stream) × (f.conn ≡ true)

abbrev IsU64 : ℕ → Type 0
IsU64 n = n < 18446744073709551616

keepalive_shape : (seq : ℕ) → is_keepalive_frame (keepalive_frame seq) ≡ true
unfolding is_keepalive_frame is_unspecified
keepalive_shape seq = refl

-- An end that does not wait for this number answers, with either kind of frame.
pub handle-keepalive_unknown :
    (now : ℕ) (f : Framer) (seq flags : ℕ)
    → IsU64 seq
    → IsOpen f
    → lookup seq f.ka_pending ≡ none
    → handle now f (keepalive_frame seq) flags
      ≡ (f, sent (write_stream_keepalive_echo seq) ∷ [], false)
unfolding handle
handle-keepalive_unknown now f seq flags u (m, c) p =
    rw (keepalive_shape seq) (ground (arith, be-put_u64 seq u))

-- An end that waits for this number measures, and answers nothing, with either kind of frame.
pub handle-keepalive_pending :
    (now t : ℕ) (f : Framer) (seq flags : ℕ)
    → IsU64 seq
    → lookup seq f.ka_pending ≡ some t
    → handle now f (keepalive_frame seq) flags ≡ (
      record f { ka_pending = erase seq f.ka_pending },
      if f.on_rtt then rtt (now - t) ∷ [] else [],
      false,
    )
unfolding handle
handle-keepalive_pending now t f seq flags u p =
    rw (keepalive_shape seq) (ground (arith, be-put_u64 seq u))

-- One message in front of what the rest of the stream does.
abbrev pub after : Effect → ReadStep → ReadStep
after e r = record r { effects = e ∷ r.effects }

module _ (n : ℕ) (clock : ℕ → ℕ) (f : Framer) (seq : ℕ) (rest : List ℕ) (u : IsU64 seq) where
  -- The bytes of a request or of an echo.
  abbrev message : Bool → List ℕ
  message true = write_stream_keepalive seq
  message false = write_stream_keepalive_echo seq

  message_read :
      (request : Bool)
      → (flags : ℕ) × (read_stream_frame_raw (message request ++ rest)
          ≡ ok (keepalive_frame seq, flags, rest))
  message_read true = (2, (read_raw-keepalive seq rest).0)
  message_read false = (6, (read_raw-keepalive seq rest).1)

  -- On an open end that does not wait for a 64-bit number, a keepalive with it is answered by an echo,
  -- whether it was itself a request or an echo.
  pub read_unknown :
      (request : Bool)
      → IsOpen f
      → lookup seq f.ka_pending ≡ none
      → read_packet_rounds (suc n) clock f (message request ++ rest)
        ≡ after (sent (write_stream_keepalive_echo seq)) (read_packet_rounds n clock f rest)
  read_unknown request c p =
      let (flags, e) = message_read request in
      let h = handle-keepalive_unknown (clock n) f seq flags u c p in
      round_goes_on n clock f (message request ++ rest) (keepalive_frame seq) flags rest e
        (ap (λ r. r.2) h)
      ∙ rw h

  -- On an end that waits for a 64-bit number and has a callback for round-trip times, a keepalive with it
  -- ends the wait and is not answered, whether it was an echo or a request.
  pub read_pending :
      (t : ℕ) (request : Bool)
      → lookup seq f.ka_pending ≡ some t
      → f.on_rtt ≡ true
      → read_packet_rounds (suc n) clock f (message request ++ rest)
        ≡ after
            (rtt (clock n - t))
            (read_packet_rounds n clock (record f { ka_pending = erase seq f.ka_pending }) rest)
  read_pending t request p r =
      let (flags, e) = message_read request in
      let h = handle-keepalive_pending (clock n) t f seq flags u p in
      let seen : (if f.on_rtt then rtt (clock n - t) ∷ [] else []) ≡ rtt (clock n - t) ∷ [] =
        simp r in
      round_goes_on n clock f (message request ++ rest) (keepalive_frame seq) flags rest e
        (ap (λ r. r.2) h)
      ∙ rw h (rw seen)

write_keepalive_sent :
    (t : ℕ) (a : Framer) (seq : ℕ)
    → seq ≢ 0
    → a.mode ≡ stream
    → a.conn ≡ true
    → write_keepalive t a seq
      ≡ (record a { ka_pending = insert seq t a.ka_pending }, written (write_stream_keepalive seq))
unfolding write_keepalive
write_keepalive_sent t a seq nz m c = ground arith

-- A keepalive with a 64-bit number other than 0, sent by a stream end with a callback for round-trip
-- times, reaches an open end that does not wait for that number, is answered, and the answer gives the
-- time since it was sent; both ends then go on with the rest of their streams.
pub keepalive_round_trip :
    (sent_at seq m n : ℕ) (clock_a clock_b : ℕ → ℕ) (a b : Framer) (rest_a rest_b : List ℕ)
    → IsU64 seq
    → seq ≢ 0
    → (a.mode ≡ stream) × (a.conn ≡ true) × (a.on_rtt ≡ true) × IsOpen b
    → lookup seq b.ka_pending ≡ none
    → let (a', out) = write_keepalive sent_at a seq in
      (out ≡ written (write_stream_keepalive seq))
      × (read_packet_rounds (suc n) clock_b b (write_stream_keepalive seq ++ rest_b)
          ≡ after (sent (write_stream_keepalive_echo seq)) (read_packet_rounds n clock_b b rest_b))
      × (read_packet_rounds (suc m) clock_a a' (write_stream_keepalive_echo seq ++ rest_a)
          ≡ after (rtt (clock_a m - sent_at)) (
              read_packet_rounds m clock_a
                (record a' { ka_pending = erase seq a'.ka_pending })
                rest_a))
keepalive_round_trip sent_at seq m n clock_a clock_b a b rest_a rest_b u nz
      (mode, conn, wants, b_open) none_b =
    let w = write_keepalive_sent sent_at a seq nz mode conn in
    let p : lookup seq (insert seq sent_at a.ka_pending) ≡ some sent_at =
      rw (lookup-insert seq seq sent_at a.ka_pending) (rw (==_refl seq)) in
    (
      ap (λ r. r.1) w,
      read_unknown n clock_b b seq rest_b u true b_open none_b,
      rw w (
          read_pending m clock_a (record a { ka_pending = insert seq sent_at a.ka_pending }) seq
            rest_a u sent_at false p wants),
    )
