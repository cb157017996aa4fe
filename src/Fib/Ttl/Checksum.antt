-- ===== src/Fib/Ttl/Checksum.antt =====
-- The header checksum after `DecrementTTL` of internal/transport/fib/fib.go.
use corelink.Prelude.{
  ℕ, ◌+◌, ◌-◌, ◌*◌, ◌/◌, ◌%◌, ◌<◌, ◌≤◌, ◌≡◌, ◌≢◌, refl, List, [], ◌∷◌, length, take, get_elem?,
  some, All, ◌⊎◌, inl, inr, lt→ltb, zero, suc, arith,
}
use native.Mathlib.Decide.{dec_lt}
use corelink.Prelude.Outcome.{Outcome, ok, err}
use corelink.Prelude.Bytes.{byte_at, IsByte}
use corelink.Fib.Ttl.{TtlError, decrement_ttl, new_check, ttl_expired, packet_short}
use corelink.Fib.Ttl.Folding.{new_check_lem}

-- The 16-bit words of a header, summed.
unfoldable pub word_sum : List ℕ → ℕ
word_sum [] = 0
word_sum (a ∷ []) = a * 256
word_sum (a ∷ b ∷ rest) = a * 256 + b + word_sum rest

-- RFC 1071: a receiver accepts a header whose words sum to 0 in one's complement arithmetic.
abbrev pub ChecksumHolds : List ℕ → Type 0
ChecksumHolds pkt = word_sum (take 20 pkt) % 65535 ≡ 0

module _ (b0 b1 b2 b3 b4 b5 b6 b7 ttl proto hi lo : ℕ) (rest : List ℕ) where
  -- A packet with its TTL and its checksum in view.
  abbrev packet_of : ℕ → ℕ → ℕ → List ℕ
  packet_of t h l = b0 ∷ b1 ∷ b2 ∷ b3 ∷ b4 ∷ b5 ∷ b6 ∷ b7 ∷ t ∷ proto ∷ h ∷ l ∷ rest

  decrement_ttl_step :
      1 < ttl
      → 8 ≤ length rest
      → decrement_ttl (packet_of ttl hi lo)
        ≡ ok (
            packet_of
              (ttl - 1)
              (new_check (hi * 256 + lo) / 256 % 256)
              (new_check (hi * 256 + lo) % 256))
  unfolding decrement_ttl byte_at
  decrement_ttl_step h k = ground arith

  word_sum-packet_of :
      (t h l : ℕ)
      → word_sum (take 20 (packet_of t h l))
        ≡ word_sum (take 20 (packet_of 0 0 0)) + t * 256 + h * 256 + l
  unfolding word_sum
  word_sum-packet_of t h l = omega arith

  -- 512 less, in one's complement arithmetic.
  checksum_drift :
      1 < ttl
      → hi < 256
      → lo < 256
      → let check = new_check (hi * 256 + lo) in
        ChecksumHolds (packet_of ttl hi lo)
        → word_sum (take 20 (packet_of (ttl - 1) (check / 256 % 256) (check % 256))) % 65535 ≡ 65023
  checksum_drift h u v holds = ground (
    arith,
    new_check_lem (hi * 256 + lo),
    word_sum-packet_of ttl hi lo,
    word_sum-packet_of (ttl - 1) (new_check (hi * 256 + lo) / 256 % 256)
        (new_check (hi * 256 + lo) % 256),
  )

-- The twelve bytes that the call looks at or writes.
record Split (pkt : List ℕ) : Type 0 where
  b0 : ℕ
  b1 : ℕ
  b2 : ℕ
  b3 : ℕ
  b4 : ℕ
  b5 : ℕ
  b6 : ℕ
  b7 : ℕ
  ttl : ℕ
  proto : ℕ
  hi : ℕ
  lo : ℕ
  rest : List ℕ
  whole : pkt ≡ packet_of b0 b1 b2 b3 b4 b5 b6 b7 ttl proto hi lo rest ttl hi lo
  enough : 8 ≤ length rest

split : (pkt : List ℕ) → 20 ≤ length pkt → Split pkt
split (b0 ∷ b1 ∷ b2 ∷ b3 ∷ b4 ∷ b5 ∷ b6 ∷ b7 ∷ ttl ∷ proto ∷ hi ∷ lo ∷ rest) h = record {
  b0 = b0;
  b1 = b1;
  b2 = b2;
  b3 = b3;
  b4 = b4;
  b5 = b5;
  b6 = b6;
  b7 = b7;
  ttl = ttl;
  proto = proto;
  hi = hi;
  lo = lo;
  rest = rest;
  whole = refl;
  enough = omega arith;
}
split _ h = absurd (omega arith)

stepped : {pkt : List ℕ} → Split pkt → List ℕ
stepped s =
    let check = new_check (s.hi * 256 + s.lo) in
    packet_of s.b0 s.b1 s.b2 s.b3 s.b4 s.b5 s.b6 s.b7 s.ttl s.proto s.hi s.lo s.rest (s.ttl - 1)
      (check / 256 % 256) (check % 256)

stepped-keeps :
    {pkt : List ℕ} (s : Split pkt) (i : ℕ)
    → (i ≢ 8) × (i ≢ 10) × (i ≢ 11)
    → get_elem? (stepped s) i ≡ get_elem? pkt i
unfolding stepped
stepped-keeps s i (n8, n10, n11) = rw s.whole (same i n8 n10 n11)
  where
    same :
        (i : ℕ)
        → i ≢ 8
        → i ≢ 10
        → i ≢ 11
        → get_elem? (stepped s) i
          ≡ get_elem?
              (packet_of s.b0 s.b1 s.b2 s.b3 s.b4 s.b5 s.b6 s.b7 s.ttl s.proto s.hi s.lo s.rest
                s.ttl s.hi s.lo)
              i
    same (suc (suc (suc (suc (suc (suc (suc (suc (suc (suc (suc (suc i)))))))))))) n8 n10 n11 = refl
    same (suc (suc (suc (suc (suc (suc (suc (suc (suc (suc (suc zero))))))))))) n8 n10 n11 =
        absurd (n11 refl)
    same (suc (suc (suc (suc (suc (suc (suc (suc (suc (suc zero)))))))))) n8 n10 n11 =
        absurd (n10 refl)
    same (suc (suc (suc (suc (suc (suc (suc (suc zero)))))))) n8 n10 n11 = absurd (n8 refl)
    same _ n8 n10 n11 = refl

Split-expired : {pkt : List ℕ} (s : Split pkt) → s.ttl ≤ 1 → decrement_ttl pkt ≡ err ttl_expired
unfolding decrement_ttl byte_at
Split-expired s h = rw s.whole (let enough = s.enough in ground arith)

Split-steps : {pkt : List ℕ} (s : Split pkt) → 1 < s.ttl → decrement_ttl pkt ≡ ok (stepped s)
unfolding stepped
Split-steps s h = rw s.whole (
    decrement_ttl_step s.b0 s.b1 s.b2 s.b3 s.b4 s.b5 s.b6 s.b7 s.ttl s.proto s.hi s.lo s.rest h
      s.enough)

stepped-drift :
    {pkt : List ℕ} (s : Split pkt)
    → 1 < s.ttl
    → All IsByte pkt
    → ChecksumHolds pkt
    → word_sum (take 20 (stepped s)) % 65535 ≡ 65023
unfolding stepped
stepped-drift s live bytes holds =
    let view = (rw s.whole at bytes).1.1.1.1.1.1.1.1.1.1 in
    checksum_drift s.b0 s.b1 s.b2 s.b3 s.b4 s.b5 s.b6 s.b7 s.ttl s.proto s.hi s.lo s.rest live
      view.0 view.1.0 (rw s.whole at holds)

-- On any packet the call returns: an error for fewer than 20 bytes, an error for a TTL of at most 1, or
-- the packet with its TTL less 1 and every byte but the TTL and the checksum as it was.
pub decrement_ttl_total :
    (pkt : List ℕ)
    → ((length pkt < 20) × (decrement_ttl pkt ≡ err packet_short))
      ⊎ ((t : ℕ) × (get_elem? pkt 8 ≡ some t) × (t ≤ 1) × (decrement_ttl pkt ≡ err ttl_expired))
      ⊎ ((t : ℕ) × (pkt' : List ℕ) × (get_elem? pkt 8 ≡ some t)
          × (1 < t)
          × (decrement_ttl pkt ≡ ok pkt')
          × (get_elem? pkt' 8 ≡ some (t - 1))
          × ((i : ℕ) → (i ≢ 8) × (i ≢ 10) × (i ≢ 11) → get_elem? pkt' i ≡ get_elem? pkt i))
unfolding decrement_ttl
decrement_ttl_total pkt = elim (dec_lt (length pkt) 20) [
  | yes short ↦ inl (short, rw (lt→ltb (length pkt) 20 short))
  | no long ↦
      let s = split pkt (omega arith) in
      let ttl_at : get_elem? pkt 8 ≡ some s.ttl = rw s.whole in
      elim (dec_lt 1 s.ttl) [
        | yes live ↦ inr (
            inr (
              s.ttl,
              stepped s,
              ttl_at,
              live,
              Split-steps s live,
              (unfold stepped in refl),
              stepped-keeps s,
            ))
        | no dead ↦ inr (inl (s.ttl, ttl_at, omega arith, Split-expired s (omega arith)))
      ]
]

-- Whatever packet of bytes with a valid header checksum goes in, the packet that comes out has an
-- invalid one.
pub decrement_ttl_invalidates :
    (pkt pkt' : List ℕ)
    → All IsByte pkt
    → decrement_ttl pkt ≡ ok pkt'
    → ChecksumHolds pkt
    → ¬ ChecksumHolds pkt'
unfolding decrement_ttl
decrement_ttl_invalidates pkt pkt' bytes h holds = elim (dec_lt (length pkt) 20) [
  | yes short ↦ absurd (cc (h, rw (lt→ltb (length pkt) 20 short) at h))
  | no long ↦
      let s = split pkt (omega arith) in
      elim (dec_lt 1 s.ttl) [
        | yes live ↦ drifted s live (rw (Split-steps s live) at h)
        | no dead ↦ absurd (cc (rw (Split-expired s (omega arith)) at h))
      ]
]
  where
    drifted :
        (s : Split pkt)
        → 1 < s.ttl
        → ◌≡◌ {A = Outcome TtlError (List ℕ)} (ok (stepped s)) (ok pkt')
        → ¬ ChecksumHolds pkt'
    drifted s live e bad =
        let same : stepped s ≡ pkt' = cc in
        let drift = rw same at (stepped-drift s live bytes holds) in omega (arith, drift)
