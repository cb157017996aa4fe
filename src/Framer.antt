-- ===== src/Framer.antt =====
-- internal/transport/framer.go: one connection's frame reader and writer. The connection is the
-- bytes (or datagrams) that it will still deliver; what the framer writes and which callbacks it
-- runs are effects, in order. Times are numbers, read from a clock that is an argument; the locks
-- serialise the calls, which are the steps here.
mod Examples
pub mod Keepalive
pub mod Reading
use corelink.Prelude.{
  ℕ, ◌+◌, ◌-◌, ◌*◌, ◌%◌, ◌<◌, ◌≤◌, ◌≡◌, Bool, true, false, ◌&&◌, List, [], ◌∷◌, ◌++◌, length, zero,
  suc, ◌==◌, if◌then◌else◌, Option, none, some,
}
use corelink.Prelude.Outcome.{ok, err, panic}
use corelink.Prelude.Bytes.{be}
use corelink.Prelude.Assoc.{Assoc, lookup, insert, erase, nat_eq}
use corelink.Wire.Addr.{Addr, is_unspecified}
use corelink.Wire.Header.{
  Wire, WireError, Frame, is_dns, is_probe, is_bandwidth, read_stream_frame_raw, decode_datagram,
  write_stream_frame, encode_datagram, write_stream_keepalive, write_stream_keepalive_echo,
  write_stream_dns,
}
use corelink.Wire.Probe.{ProbeFrame, write_probe_frame}

pub data Mode : Type 0 where
  stream datagram : Mode

-- `conn` tells whether the connection is there (not closed). The callbacks are what the owner set.
pub record Framer : Type 0 where
  pub mode : Mode
  pub conn : Bool
  pub ka_pending : Assoc ℕ ℕ
  pub ka_seq_counter : ℕ
  pub on_rtt : Bool
  pub on_dns : Bool
  pub on_probe : Bool
  pub on_bandwidth : Bool

pub data Effect : Type 0 where
  sent : List ℕ → Effect
  rtt : ℕ → Effect
  dns : Addr → List ℕ → Effect
  probe : Addr → List ℕ → Effect
  bandwidth : Addr → List ℕ → Effect

pub new_stream_framer : Framer
new_stream_framer = record {
  mode = stream;
  conn = true;
  ka_pending = [];
  ka_seq_counter = 0;
  on_rtt = false;
  on_dns = false;
  on_probe = false;
  on_bandwidth = false;
}

pub new_datagram_framer : Framer
unfolding new_stream_framer
new_datagram_framer = record new_stream_framer { mode = datagram }

pub data FramerError : Type 0 where
  closed unsupported : FramerError
  wire : WireError → FramerError
  crashed : FramerError

-- The bytes that a call puts on the connection, or why it does not.
pub data Written : Type 0 where
  written : List ℕ → Written
  refused : FramerError → Written

from_wire : Wire (List ℕ) → Written
from_wire (ok bs) = written bs
from_wire (err e) = refused (wire e)
from_wire panic = refused crashed

in_mode : Mode → Wire (List ℕ) → List ℕ → Written
unfolding from_wire
in_mode stream s d = from_wire s
in_mode datagram s d = written d

-- `WritePacket` and `WritePacketBatch` with their flush.
pub write_packet : Framer → Addr → ℕ → ℕ → List ℕ → Written
unfolding in_mode
write_packet f dst relay ttl payload =
    if f.conn
    then in_mode f.mode (write_stream_frame dst relay ttl payload)
        (encode_datagram dst relay ttl payload)
    else refused closed

is_stream : Mode → Bool
is_stream stream = true
is_stream datagram = false

-- `WriteKeepalive`: sequence number 0 asks for the next one of the counter, a uint64.
pub write_keepalive : ℕ → Framer → ℕ → Framer × Written
unfolding is_stream
write_keepalive now f seq =
    let counter =
      if seq == 0 then (f.ka_seq_counter + 1) % 18446744073709551616 else f.ka_seq_counter in
    let seq' = if seq == 0 then counter else seq in
    if is_stream f.mode
    then (if f.conn
        then (
          record f { ka_seq_counter = counter; ka_pending = insert seq' now f.ka_pending },
          written (write_stream_keepalive seq'),
        )
        else (f, refused closed))
    else (f, refused unsupported)

pub write_dns : Framer → Addr → List ℕ → Written
unfolding is_stream
write_dns f dst payload =
    if is_stream f.mode && f.conn
    then written (write_stream_dns dst payload)
    else refused unsupported

pub write_probe : {Float : Type 0} → (Float → ℕ) → Framer → ProbeFrame Float → Addr → Written
unfolding is_stream from_wire
write_probe to_u16 f p dst =
    if is_stream f.mode && f.conn
    then from_wire (write_probe_frame to_u16 p dst)
    else refused unsupported

-- `WriteKeepaliveEcho`, whose error the reader ignores: only a framer of streams has the connection.
pub echo : Framer → ℕ → List Effect
unfolding is_stream
echo f seq = if is_stream f.mode && f.conn then sent (write_stream_keepalive_echo seq) ∷ [] else []

-- What `ReadPacket` takes for a keepalive or its echo. The flags are not looked at.
pub is_keepalive_frame : Frame → Bool
is_keepalive_frame fr = fr.ttl == 0 && (is_unspecified fr.dst_vip && length fr.payload == 8)

pub on_keepalive : ℕ → Framer → ℕ → Framer × List Effect
unfolding echo
on_keepalive now f seq = elim (lookup seq f.ka_pending) [
  | some t ↦ (
    record f { ka_pending = erase seq f.ka_pending },
    if f.on_rtt then rtt (now - t) ∷ [] else [],
  )
  | none ↦ (f, echo f seq)
]

-- One round of `ReadPacket`'s loop on a decoded frame; `true` hands the frame to the caller.
pub handle : ℕ → Framer → Frame → ℕ → Framer × List Effect × Bool
unfolding on_keepalive is_keepalive_frame
handle now f fr flags =
    if is_keepalive_frame fr
    then (let (f', out) = on_keepalive now f (be fr.payload) in (f', out, false))
    else if is_dns flags && f.on_dns
    then (f, dns fr.dst_vip fr.payload ∷ [], false)
    else if is_probe flags && f.on_probe
    then (f, probe fr.dst_vip fr.payload ∷ [], false)
    else if is_bandwidth flags && f.on_bandwidth
    then (f, bandwidth fr.dst_vip fr.payload ∷ [], false)
    else (f, [], true)

pub data Read : Type 0 where
  packet : Frame → Read
  failed : FramerError → Read
  -- The rounds given ran out; never reached with a round for each byte and one more.
  unfinished : Read

pub record ReadStep : Type 0 where
  pub framer : Framer
  pub effects : List Effect
  pub left : List ℕ
  pub result : Read

-- `ReadPacket` in stream mode, by rounds. `clock n` is the time when `n` rounds are left. After a
-- failure `left` says nothing: the connection is given up.
pub read_packet_rounds : ℕ → (ℕ → ℕ) → Framer → List ℕ → ReadStep
read_packet_rounds zero clock f bs = record {
  framer = f;
  effects = [];
  left = bs;
  result = unfinished;
}
read_packet_rounds (suc n) clock f bs = elim (read_stream_frame_raw bs) [
  | err e ↦ record { framer = f; effects = []; left = bs; result = failed (wire e) }
  | panic ↦ record { framer = f; effects = []; left = bs; result = failed crashed }
  | ok (fr, flags, rest) ↦
      let (f', out, done) = handle (clock n) f fr flags in
      elim done [
        | true ↦ record { framer = f'; effects = out; left = rest; result = packet fr }
        | false ↦
            let more = read_packet_rounds n clock f' rest in
            record more { effects = out ++ more.effects }
      ]
]

pub read_packet : (ℕ → ℕ) → Framer → List ℕ → ReadStep
unfolding read_packet_rounds
read_packet clock f bs =
    if f.conn
    then read_packet_rounds (suc (length bs)) clock f bs
    else record { framer = f; effects = []; left = bs; result = failed closed }
