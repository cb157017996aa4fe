-- ===== src/Wire/Addr.antt =====
-- The part of Go's net/netip.Addr that the program uses: an address is the zero value, an IPv4
-- address as a 32-bit number, or an IPv6 address as its two 64-bit halves. IPv6 zones never
-- reach the wire and are left out. `As4` panics on what is neither IPv4 nor IPv4-mapped.
use corelink.Prelude.{
  ℕ, ◌/◌, ◌%◌, ◌<◌, ◌≡◌, Bool, false, ◌&&◌, List, take, drop, arith, ◌==◌, if◌then◌else◌,
}
use corelink.Prelude.Outcome.{Outcome, ok, panic}
use corelink.Prelude.Bytes.{be, put_u32, be-put_u32}

pub data Addr : Type 0 where
  zero_addr : Addr
  v4 : ℕ → Addr
  v6 : ℕ → ℕ → Addr

abbrev pub IsAddr : Addr → Type 0
IsAddr zero_addr = Unit {0}
IsAddr (v4 n) = n < 4294967296
IsAddr (v6 hi lo) = (hi < 18446744073709551616) × (lo < 18446744073709551616)

-- ::ffff:a.b.c.d
abbrev pub is_mapped : ℕ → ℕ → Bool
is_mapped hi lo = hi == 0 && lo / 4294967296 == 65535

-- `Addr.As4`
unfoldable pub as4 {κ} : {E : Type κ} → Addr → Outcome E ℕ
as4 zero_addr = panic
as4 (v4 n) = ok n
as4 (v6 hi lo) = if is_mapped hi lo then ok (lo % 4294967296) else panic

-- `netip.AddrFrom4` and `netip.AddrFrom16` of the bytes at hand.
abbrev pub addr_from4 : List ℕ → Addr
addr_from4 bs = v4 (be bs)

abbrev pub addr_from16 : List ℕ → Addr
addr_from16 bs = v6 (be (take 8 bs)) (be (drop 8 bs))

-- `Addr.IsUnspecified`: 0.0.0.0 or ::, but not the zero value.
unfoldable pub is_unspecified : Addr → Bool
is_unspecified zero_addr = false
is_unspecified (v4 n) = n == 0
is_unspecified (v6 hi lo) = hi == 0 && lo == 0

-- The address that comes back from the wire: the zero value is sent as 0.0.0.0, and an
-- IPv4-mapped address as the IPv4 address that it maps.
abbrev pub on_wire : Addr → Addr
on_wire zero_addr = v4 0
on_wire (v4 n) = v4 n
on_wire (v6 hi lo) = if is_mapped hi lo then v4 (lo % 4294967296) else v6 hi lo

-- Four bytes hold what `As4` returns, and give back the address as the wire shows it.
pub as4-on_wire {κ} :
    {E : Type κ} (a : Addr) (n : ℕ)
    → IsAddr a
    → as4 {E = E} a ≡ ok n
    → addr_from4 (put_u32 n) ≡ on_wire a
unfolding as4
as4-on_wire zero_addr n w h = cc
as4-on_wire (v4 m) n w h = ground (arith, be-put_u32 m w)
as4-on_wire (v6 hi lo) n w h = ground (arith, be-put_u32 (lo % 4294967296))
