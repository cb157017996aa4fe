-- ===== src/FlowTrack/Packet.antt =====
-- internal/nodecore/flowtrack/parse.go and flowkey.go: the five-tuple of a raw IPv4 packet and its
-- hash. The 64-bit FNV-1a hash of the package hash/fnv is a parameter.
pub mod Parsing
mod Examples
use corelink.Prelude.{
  ℕ, ◌+◌, ◌*◌, ◌/◌, ◌%◌, ◌<◌, ◌≡◌, refl, Bool, true, false, not, ◌&&◌, ◌||◌, List, [], ◌∷◌, ◌++◌,
  length, ltb, ◌==◌, if◌then◌else◌, bit_and, ◌↔◌,
}
use corelink.Prelude.Outcome.{Outcome, ok, err, panic, ◌>>=◌, ◌>>◌, reject_if}
use corelink.Prelude.Bytes.{byte_at, slice, put_u16, put_u32, put_u64}
use corelink.Prelude.Assoc.{Eq, ◌=?◌}
use corelink.Wire.Addr.{Addr, zero_addr, v4, v6, addr_from4}

pub record FlowKey : Type 0 where
  pub src_ip : Addr
  pub dst_ip : Addr
  pub proto : ℕ
  pub src_port : ℕ
  pub dst_port : ℕ

pub record TcpFlags : Type 0 where
  pub syn : Bool
  pub fin : Bool
  pub rst : Bool
  pub ack : Bool

pub data ParseError : Type 0 where
  packet_short not_ipv4 header_cut tcp_cut udp_cut : ParseError

no_flags : TcpFlags
no_flags = record { syn = false; fin = false; rst = false; ack = false }

-- `uint16(pkt[i])<<8 | uint16(pkt[i+1])`
pub port_at : List ℕ → ℕ → Outcome ParseError ℕ
port_at pkt i = do hi ← byte_at pkt i; lo ← byte_at pkt (i + 1); ok (hi * 256 + lo)

-- The key with the ports at `start`.
with_ports : FlowKey → List ℕ → ℕ → Outcome ParseError FlowKey
unfolding port_at
with_ports key pkt start = do
  src ← port_at pkt start
  dst ← port_at pkt (start + 2)
  ok (record key { src_port = src; dst_port = dst })

-- `case 6`
parse_tcp : FlowKey → List ℕ → ℕ → Outcome ParseError (FlowKey × TcpFlags)
unfolding with_ports
parse_tcp key pkt start = do
  reject_if (ltb (length pkt) (start + 14)) tcp_cut
  full ← with_ports key pkt start
  flags ← byte_at pkt (start + 13)
  ok (
    full,
    record {
      fin = not (bit_and flags 1 == 0);
      syn = not (bit_and flags 2 == 0);
      rst = not (bit_and flags 4 == 0);
      ack = not (bit_and flags 16 == 0);
    },
  )

-- `case 17`
parse_udp : FlowKey → List ℕ → ℕ → Outcome ParseError (FlowKey × TcpFlags)
unfolding with_ports no_flags
parse_udp key pkt start = do
  reject_if (ltb (length pkt) (start + 4)) udp_cut
  full ← with_ports key pkt start
  ok (full, no_flags)

-- The `switch` on the protocol.
by_proto : FlowKey → List ℕ → ℕ → Outcome ParseError (FlowKey × TcpFlags)
unfolding parse_tcp parse_udp
by_proto key pkt ihl =
    if key.proto == 6
    then parse_tcp key pkt ihl
    else if key.proto == 17
    then parse_udp key pkt ihl
    else ok (key, no_flags)

pub parse_packet : List ℕ → Outcome ParseError (FlowKey × TcpFlags)
unfolding by_proto
parse_packet pkt = do
  reject_if (ltb (length pkt) 20) packet_short
  first ← byte_at pkt 0
  reject_if (not (first / 16 == 4)) not_ipv4
  let ihl = first % 16 * 4
  reject_if (ltb ihl 20 || ltb (length pkt) ihl) header_cut
  proto ← byte_at pkt 9
  src ← slice pkt 12 16
  dst ← slice pkt 16 20
  by_proto
      (record {
        src_ip = addr_from4 src;
        dst_ip = addr_from4 dst;
        proto = proto;
        src_port = 0;
        dst_port = 0;
      })
      pkt ihl

-- `Addr.As16`
as16 : Addr → List ℕ
as16 zero_addr = put_u64 0 ++ put_u64 0
as16 (v4 n) = put_u64 0 ++ put_u32 65535 ++ put_u32 n
as16 (v6 hi lo) = put_u64 hi ++ put_u64 lo

-- `FlowKey.Hash`
pub hash : (List ℕ → ℕ) → FlowKey → ℕ
unfolding as16
hash fnv64a k =
    fnv64a (as16 k.src_ip ++ as16 k.dst_ip ++ k.proto ∷ put_u16 k.src_port ++ put_u16 k.dst_port)

abbrev pub addr_beq : Addr → Addr → Bool
addr_beq zero_addr zero_addr = true
addr_beq (v4 m) (v4 n) = m == n
addr_beq (v6 h l) (v6 i k) = h == i && l == k
addr_beq _ _ = false

-- `==` of two keys.
abbrev pub key_beq : FlowKey → FlowKey → Bool
key_beq a b =
    addr_beq a.src_ip b.src_ip
    && addr_beq a.dst_ip b.dst_ip
    && a.proto == b.proto
    && a.src_port == b.src_port
    && a.dst_port == b.dst_port
