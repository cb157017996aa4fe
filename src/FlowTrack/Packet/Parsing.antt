-- ===== src/FlowTrack/Packet/Parsing.antt =====
-- The parser of internal/nodecore/flowtrack/parse.go on arbitrary bytes, and equality of keys.
use corelink.Prelude.{
  ℕ, ◌+◌, ◌*◌, ◌/◌, ◌%◌, ◌≤◌, ◌≡◌, refl, sym, ◌∙◌, true, not, ◌||◌, List, length, arith, ltb,
  ltb-false→le, ==_iff, ◌==◌, ◌↔◌,
}
use corelink.Prelude.Outcome.{IsSafe, returns, >>=-IsSafe, reject_if-IsSafe, if-IsSafe, IsSafe-map}
use corelink.Prelude.Bytes.{byte_at-IsSafe, slice-IsSafe}
use corelink.Prelude.Assoc.{Eq}
use corelink.Wire.Addr.{Addr, zero_addr, v4, v6, addr_from4}
use corelink.FlowTrack.Packet.{
  FlowKey, TcpFlags, ParseError, packet_short, not_ipv4, header_cut, tcp_cut, udp_cut, port_at,
  with_ports, parse_tcp, parse_udp, by_proto, parse_packet, addr_beq, key_beq,
}

addr_beq_iff : (a b : Addr) → (addr_beq a b ≡ true) ↔ (a ≡ b)
addr_beq_iff zero_addr zero_addr = ground arith
addr_beq_iff zero_addr (v4 n) = ground arith
addr_beq_iff zero_addr (v6 i k) = ground arith
addr_beq_iff (v4 m) zero_addr = ground arith
addr_beq_iff (v4 m) (v4 n) = ground (arith, ==_iff m n)
addr_beq_iff (v4 m) (v6 i k) = ground arith
addr_beq_iff (v6 h l) zero_addr = ground arith
addr_beq_iff (v6 h l) (v4 n) = ground arith
addr_beq_iff (v6 h l) (v6 i k) = ground (arith, ==_iff h i, ==_iff l k)

pub key_beq_iff : (a b : FlowKey) → (key_beq a b ≡ true) ↔ (a ≡ b)
key_beq_iff a b = ground (arith, addr_beq_iff a.src_ip b.src_ip, addr_beq_iff a.dst_ip b.dst_ip)

instance abbrev pub key_eq : Eq FlowKey
key_eq = record { beq = key_beq; beq_iff = key_beq_iff }

abbrev Anything {ℓ} : {A : Type ℓ} → A → Type 0
Anything a = Unit {0}

port_at-IsSafe : (pkt : List ℕ) (i : ℕ) → i + 2 ≤ length pkt → IsSafe Anything (port_at pkt i)
unfolding port_at
port_at-IsSafe pkt i h =
    >>=-IsSafe (byte_at-IsSafe ParseError pkt i (omega arith))
      λ hi _. >>=-IsSafe (byte_at-IsSafe ParseError pkt (i + 1) (omega arith)) λ lo _. returns tt

-- The parsed key keeps what the header says.
abbrev pub KeepsHeader : FlowKey → FlowKey → Type 0
KeepsHeader k j = (j.src_ip ≡ k.src_ip) × (j.dst_ip ≡ k.dst_ip) × (j.proto ≡ k.proto)

with_ports-IsSafe :
    (key : FlowKey) (pkt : List ℕ) (i : ℕ)
    → i + 4 ≤ length pkt
    → IsSafe (KeepsHeader key) (with_ports key pkt i)
unfolding with_ports
with_ports-IsSafe key pkt i h = >>=-IsSafe (port_at-IsSafe pkt i (omega arith)) λ src _.
    >>=-IsSafe (port_at-IsSafe pkt (i + 2) (omega arith)) λ dst _. returns (refl, refl, refl)

-- What a parsed packet holds: its transport header as far as the ports, and the flags, reach.
abbrev pub IsParsed : List ℕ → FlowKey → ℕ → FlowKey × TcpFlags → Type 0
IsParsed pkt key ihl (k, flags) =
    KeepsHeader key k
    × (key.proto ≡ 6 → ihl + 14 ≤ length pkt)
    × (key.proto ≡ 17 → ihl + 4 ≤ length pkt)

parse_tcp-IsSafe :
    (key : FlowKey) (pkt : List ℕ) (ihl : ℕ)
    → key.proto ≡ 6
    → IsSafe (IsParsed pkt key ihl) (parse_tcp key pkt ihl)
unfolding parse_tcp
parse_tcp-IsSafe key pkt ihl e =
    >>=-IsSafe (reject_if-IsSafe (ltb (length pkt) (ihl + 14)) tcp_cut) λ _ long.
      let room : ihl + 14 ≤ length pkt = ltb-false→le (length pkt) (ihl + 14) long in
      >>=-IsSafe (with_ports-IsSafe key pkt ihl (omega arith)) λ full keeps.
        >>=-IsSafe (byte_at-IsSafe ParseError pkt (ihl + 13) (omega arith))
          λ flags _. returns (keeps, (λ _. room), (λ u. absurd (omega arith)))

parse_udp-IsSafe :
    (key : FlowKey) (pkt : List ℕ) (ihl : ℕ)
    → key.proto ≡ 17
    → IsSafe (IsParsed pkt key ihl) (parse_udp key pkt ihl)
unfolding parse_udp
parse_udp-IsSafe key pkt ihl e =
    >>=-IsSafe (reject_if-IsSafe (ltb (length pkt) (ihl + 4)) udp_cut) λ _ long.
      let room : ihl + 4 ≤ length pkt = ltb-false→le (length pkt) (ihl + 4) long in
      >>=-IsSafe (with_ports-IsSafe key pkt ihl (omega arith))
        λ full keeps. returns (keeps, (λ u. absurd (omega arith)), (λ _. room))

by_proto-IsSafe :
    (key : FlowKey) (pkt : List ℕ) (ihl : ℕ) → IsSafe (IsParsed pkt key ihl) (by_proto key pkt ihl)
unfolding by_proto
by_proto-IsSafe key pkt ihl =
    if-IsSafe (key.proto == 6) (λ e. parse_tcp-IsSafe key pkt ihl ((==_iff key.proto 6).0 e))
      λ other.
        if-IsSafe (key.proto == 17) (λ e. parse_udp-IsSafe key pkt ihl ((==_iff key.proto 17).0 e))
          λ rest. returns (
            (refl, refl, refl),
            (λ u. ground (arith, ==_iff key.proto 6)),
            (λ u. ground (arith, ==_iff key.proto 17)),
          )

-- Whatever the packet is, the parser does not panic; a key is returned only for a packet of 20
-- bytes or more, which for TCP holds 14 bytes and for UDP 4 bytes after an IP header of 20 or more.
pub parse_packet-IsSafe :
    (pkt : List ℕ)
    → IsSafe
        (λ (k, flags).
          (20 ≤ length pkt) × (k.proto ≡ 6 → 34 ≤ length pkt) × (k.proto ≡ 17 → 24 ≤ length pkt))
        (parse_packet pkt)
unfolding parse_packet
parse_packet-IsSafe pkt = >>=-IsSafe (reject_if-IsSafe (ltb (length pkt) 20) packet_short) λ _ long.
    let size : 20 ≤ length pkt = ltb-false→le (length pkt) 20 long in
    >>=-IsSafe (byte_at-IsSafe ParseError pkt 0 (omega arith)) λ first _.
      >>=-IsSafe (reject_if-IsSafe (not (first / 16 == 4)) not_ipv4) λ _ four.
        let ihl = first % 16 * 4 in
        >>=-IsSafe (reject_if-IsSafe (ltb ihl 20 || ltb (length pkt) ihl) header_cut) λ _ fits.
          let low : 20 ≤ ihl = ground (arith, ltb-false→le ihl 20) in
          >>=-IsSafe (byte_at-IsSafe ParseError pkt 9 (omega arith)) λ proto _.
            >>=-IsSafe (slice-IsSafe ParseError pkt 12 16 (omega arith) (omega arith)) λ src _.
              >>=-IsSafe (slice-IsSafe ParseError pkt 16 20 (omega arith) (omega arith)) λ dst _.
                let key : FlowKey = record {
                  src_ip = addr_from4 src;
                  dst_ip = addr_from4 dst;
                  proto = proto;
                  src_port = 0;
                  dst_port = 0;
                } in
                IsSafe-map (by_proto-IsSafe key pkt ihl) λ (k, flags) (keeps, tcp, udp). (
                  size,
                  (λ u. let room = tcp (sym keeps.2 ∙ u) in omega arith),
                  (λ u. let room = udp (sym keeps.2 ∙ u) in omega arith),
                )
