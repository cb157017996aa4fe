-- ===== src/Framer/Examples.antt =====
-- The framer of internal/transport/framer.go on concrete streams.
use corelink.Prelude.{ℕ, ◌+◌, ◌≡◌, refl, [], ◌∷◌, ◌++◌, true, false, arith}
use corelink.Prelude.Assoc.{lookup, erase, nat_eq}
use corelink.Wire.Header.{write_stream_keepalive, write_stream_keepalive_echo}
use corelink.Framer.{
  Framer, stream, sent, rtt, written, write_keepalive, read_packet, read_packet_rounds,
}
use corelink.Framer.Reading.{IsRead, read_packet-IsRead}
use corelink.Framer.Keepalive.{after, keepalive_round_trip, read_unknown, read_pending}

abbrev clock : ℕ → ℕ
clock n = 100 + n

-- An end with the callback for round-trip times.
abbrev end : Framer
end = record {
  mode = stream;
  conn = true;
  ka_pending = [];
  ka_seq_counter = 0;
  on_rtt = true;
  on_dns = false;
  on_probe = false;
  on_bandwidth = false;
}

abbrev waiting : Framer
waiting = record end { ka_pending = (5, 90) ∷ [] }

read_packet-IsRead_example :
    let step = read_packet clock end (write_stream_keepalive 5 ++ 0 ∷ 0 ∷ 0 ∷ 9 ∷ []) in
    IsRead end (write_stream_keepalive 5 ++ 0 ∷ 0 ∷ 0 ∷ 9 ∷ []) step.result step.left
read_packet-IsRead_example =
    read_packet-IsRead clock end (write_stream_keepalive 5 ++ 0 ∷ 0 ∷ 0 ∷ 9 ∷ []) refl

keepalive_round_trip_run :
    let (a', out) = write_keepalive 90 end 5 in
    (out ≡ written (write_stream_keepalive 5))
    × (read_packet_rounds 4 clock end (write_stream_keepalive 5 ++ [])
        ≡ after (sent (write_stream_keepalive_echo 5)) (read_packet_rounds 3 clock end []))
    × (read_packet_rounds 3 clock a' (write_stream_keepalive_echo 5 ++ [])
        ≡ after
            (rtt 12)
            (read_packet_rounds 2 clock (record a' { ka_pending = erase 5 a'.ka_pending }) []))
unfolding lookup
keepalive_round_trip_run =
    keepalive_round_trip 90 5 2 3 clock clock end end [] [] (omega arith)
      (λ e. absurd (omega arith)) (refl, refl, refl, (refl, refl)) refl

read_unknown_run :
    read_packet_rounds 3 clock end (write_stream_keepalive_echo 5 ++ [])
    ≡ after (sent (write_stream_keepalive_echo 5)) (read_packet_rounds 2 clock end [])
unfolding lookup
read_unknown_run = read_unknown 2 clock end 5 [] (omega arith) false (refl, refl) refl

read_pending_run :
    read_packet_rounds 3 clock waiting (write_stream_keepalive 5 ++ [])
    ≡ after
        (rtt 12)
        (read_packet_rounds 2 clock (record waiting { ka_pending = erase 5 waiting.ka_pending }) [])
unfolding lookup
read_pending_run = read_pending 2 clock waiting 5 [] (omega arith) 90 true refl refl
