-- ===== src/FlowTrack/Packet/Examples.antt =====
-- The parser of internal/nodecore/flowtrack/parse.go on a UDP packet.
use corelink.Prelude.{ℕ, ◌≤◌, ◌≡◌, refl, false, List, [], ◌∷◌, length}
use corelink.Prelude.Outcome.{ok, IsSafe}
use corelink.Prelude.Bytes.{byte_at, slice}
use corelink.Wire.Addr.{v4}
use corelink.FlowTrack.Packet.{parse_packet}
use corelink.FlowTrack.Packet.Parsing.{parse_packet-IsSafe}

abbrev udp_packet : List ℕ
udp_packet =
    69 ∷ 0 ∷ 0 ∷ 28 ∷ 0 ∷ 0 ∷ 0 ∷ 0 ∷ 64 ∷ 17 ∷ 0 ∷ 0 ∷ 10 ∷ 0 ∷ 0 ∷ 1 ∷ 10 ∷ 0 ∷ 0 ∷ 2 ∷ 0 ∷ 53 ∷ 1
    ∷ 0 ∷ 0 ∷ 8 ∷ 0 ∷ 0 ∷ []

udp_packet-parsed :
    parse_packet udp_packet
    ≡ ok (
      record {
        src_ip = v4 167772161;
        dst_ip = v4 167772162;
        proto = 17;
        src_port = 53;
        dst_port = 256;
      },
      record { syn = false; fin = false; rst = false; ack = false },
    )
unfolding parse_packet byte_at slice
udp_packet-parsed = refl

parse_packet-IsSafe_run :
    IsSafe
      (λ (k, flags).
        (20 ≤ length udp_packet)
        × (k.proto ≡ 6 → 34 ≤ length udp_packet)
        × (k.proto ≡ 17 → 24 ≤ length udp_packet))
      (parse_packet udp_packet)
parse_packet-IsSafe_run = parse_packet-IsSafe udp_packet
