-- ===== src/Fib/Prefix.antt =====
-- The part of Go's net/netip.Prefix that the forwarding table uses. A prefix of one family holds
-- no address of the other; an IPv4-mapped IPv6 address counts as IPv6, and the zero address is in
-- no prefix.
use corelink.Prelude.{
  ℕ, ◌+◌, ◌-◌, ◌*◌, ◌/◌, ◌^◌, ◌<◌, ◌≡◌, ◌↔◌, ap, sym, ◌∙◌, Bool, true, false, ◌&&◌, ◌==◌, arith,
  leb,
}
use corelink.Prelude.Assoc.{Eq}
use corelink.Wire.Addr.{Addr, v4, v6}

pub data Prefix : Type 0 where
  p4 : ℕ → ℕ → Prefix
  p6 : ℕ → ℕ → ℕ → Prefix

-- `Prefix.Bits`
unfoldable pub bits : Prefix → ℕ
bits (p4 a n) = n
bits (p6 hi lo n) = n

abbrev pub number : ℕ → ℕ → ℕ
number hi lo = hi * 18446744073709551616 + lo

-- `Prefix.Contains`: the first `n` bits agree.
unfoldable pub contains : Prefix → Addr → Bool
contains (p4 a n) (v4 x) = leb n 32 && a / 2 ^ (32 - n) == x / 2 ^ (32 - n)
contains (p6 hi lo n) (v6 h l) =
    leb n 128 && number hi lo / 2 ^ (128 - n) == number h l / 2 ^ (128 - n)
contains _ _ = false

abbrev pub prefix_beq : Prefix → Prefix → Bool
prefix_beq (p4 a n) (p4 b m) = a == b && n == m
prefix_beq (p6 h l n) (p6 h' l' m) = h == h' && (l == l' && n == m)
prefix_beq _ _ = false

pub prefix_beq_iff : (p q : Prefix) → (prefix_beq p q ≡ true) ↔ (p ≡ q)
prefix_beq_iff (p4 a n) (p4 b m) = ground arith
prefix_beq_iff (p4 a n) (p6 h l m) = ground arith
prefix_beq_iff (p6 h l n) (p4 b m) = ground arith
prefix_beq_iff (p6 h l n) (p6 h' l' m) = ground arith

instance abbrev pub prefix_eq : Eq Prefix
prefix_eq = record { beq = prefix_beq; beq_iff = prefix_beq_iff }

-- A prefix as `Prefix.Masked` returns it: no bit set past its length.
abbrev pub IsMasked : Prefix → Type 0
IsMasked (p4 a n) = a / 2 ^ (32 - n) * 2 ^ (32 - n) ≡ a
IsMasked (p6 hi lo n) =
    (number hi lo / 2 ^ (128 - n) * 2 ^ (128 - n) ≡ number hi lo) × (lo < 18446744073709551616)

masked_unique :
    (a b x d : ℕ) → a / d * d ≡ a → b / d * d ≡ b → a / d ≡ x / d → b / d ≡ x / d → a ≡ b
masked_unique a b x d ma mb ca cb =
    let same : a / d ≡ b / d = ca ∙ sym cb in sym ma ∙ ap (λ q. q * d) same ∙ mb

-- Of the masked prefixes of one length, one at most holds an address.
pub contains_unique :
    (p q : Prefix) (a : Addr)
    → IsMasked p
    → IsMasked q
    → contains p a ≡ true
    → contains q a ≡ true
    → bits p ≡ bits q
    → p ≡ q
unfolding contains bits
contains_unique (p4 a n) (p4 b m) (v4 x) hp hq cp cq e =
    let d = 2 ^ (32 - n) in ground (arith, rw (← e) at hq, masked_unique a b x d)
contains_unique (p6 h l n) (p6 h' l' m) (v6 x y) hp hq cp cq e =
    ground (
      arith,
      rw (← e) at hq,
      masked_unique (number h l) (number h' l') (number x y) (2 ^ (128 - n)),
    )
contains_unique (p4 a n) (p6 h l m) (v4 x) hp hq cp cq e = cc
contains_unique (p4 a n) (p6 h l m) _ hp hq cp cq e = cc
contains_unique (p6 h l n) (p4 b m) (v4 x) hp hq cp cq e = cc
contains_unique (p6 h l n) (p4 b m) _ hp hq cp cq e = cc
contains_unique (p4 a n) (p4 b m) _ hp hq cp cq e = cc
contains_unique (p6 h l n) (p6 h' l' m) _ hp hq cp cq e = cc
