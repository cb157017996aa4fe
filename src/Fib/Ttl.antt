-- ===== src/Fib/Ttl.antt =====
-- The header work of internal/transport/fib/fib.go on a raw IP packet.
mod Folding
pub mod Checksum
mod Examples
use corelink.Prelude.{
  ℕ, ◌+◌, ◌-◌, ◌*◌, ◌/◌, ◌%◌, ◌<◌, ◌≤◌, ◌≡◌, Bool, true, false, List, [], ◌∷◌, length, zero, suc,
  ltb, leb, ◌==◌, if◌then◌else◌, Option, none, some, bit_xor, bit_and,
}
use corelink.Prelude.Outcome.{Outcome, ok, err, panic, ◌>>=◌, ◌>>◌, reject_if}
use corelink.Prelude.Bytes.{be, byte_at, slice}
use corelink.Wire.Addr.{Addr, addr_from4, addr_from16}

pub data TtlError : Type 0 where
  packet_short ttl_expired : TtlError

-- `pkt[i] = v` within bounds.
abbrev pub set_byte : List ℕ → ℕ → ℕ → List ℕ
set_byte [] i v = []
set_byte (x ∷ xs) zero v = v ∷ xs
set_byte (x ∷ xs) (suc i) v = x ∷ set_byte xs i v

-- `for newSum > 0xFFFF`, by rounds: a 32-bit sum is folded after two.
pub fold_carry : ℕ → ℕ → ℕ
fold_carry zero s = s
fold_carry (suc n) s =
    let more = fold_carry n (bit_and s 65535 + s / 65536) in if ltb 65535 s then more else s

pub new_check : ℕ → ℕ
unfolding fold_carry
new_check old_check = bit_xor 65535 (fold_carry 2 (bit_xor 65535 old_check + 256))

-- `DecrementTTL`: the packet after the call, or the error with the packet left as it is.
pub decrement_ttl : List ℕ → Outcome TtlError (List ℕ)
decrement_ttl pkt = do
  reject_if (ltb (length pkt) 20) packet_short
  ttl ← byte_at pkt 8
  reject_if (leb ttl 1) ttl_expired
  hi ← byte_at pkt 10
  lo ← byte_at pkt 11
  let check = new_check (hi * 256 + lo)
  ok (set_byte (set_byte (set_byte pkt 8 (ttl - 1)) 10 (check / 256 % 256)) 11 (check % 256))

dst_v4 : List ℕ → Outcome TtlError (Option Addr)
dst_v4 pkt =
    if ltb (length pkt) 20 then ok none else (slice pkt 16 20 >>= λ a. ok (some (addr_from4 a)))

dst_v6 : List ℕ → Outcome TtlError (Option Addr)
dst_v6 pkt =
    if ltb (length pkt) 40 then ok none else (slice pkt 24 40 >>= λ a. ok (some (addr_from16 a)))

-- The `switch` on the version.
dst_of_version : ℕ → List ℕ → Outcome TtlError (Option Addr)
unfolding dst_v4 dst_v6
dst_of_version version pkt =
    if version == 4 then dst_v4 pkt else if version == 6 then dst_v6 pkt else ok none

-- `ExtractDstIP`
pub extract_dst_ip : List ℕ → Outcome TtlError (Option Addr)
unfolding dst_of_version
extract_dst_ip pkt =
    if ltb (length pkt) 1
    then ok none
    else (byte_at pkt 0 >>= λ first. dst_of_version (first / 16) pkt)
