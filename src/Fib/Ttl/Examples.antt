-- ===== src/Fib/Ttl/Examples.antt =====
-- `DecrementTTL` of internal/transport/fib/fib.go on a packet.
use corelink.Prelude.{
  ℕ, ◌-◌, ◌<◌, ◌≤◌, ◌≡◌, ◌≢◌, ◌⊎◌, refl, List, [], ◌∷◌, length, some, get_elem?, arith, All,
}
use corelink.Prelude.Outcome.{ok, err}
use corelink.Prelude.Bytes.{IsByte, byte_at}
use corelink.Fib.Ttl.{decrement_ttl, new_check, packet_short, ttl_expired}
use corelink.Fib.Ttl.Checksum.{
  ChecksumHolds, word_sum, decrement_ttl_total, decrement_ttl_invalidates,
}

-- A header with TTL 64 and a valid checksum.
abbrev valid : List ℕ
valid = 69 ∷ 0 ∷ 0 ∷ 20 ∷ 0 ∷ 0 ∷ 0 ∷ 0 ∷ 64 ∷ 6 ∷ 102 ∷ 226 ∷ 10 ∷ 0 ∷ 0 ∷ 1 ∷ 10 ∷ 0 ∷ 0 ∷ 2 ∷ []

abbrev forwarded : List ℕ
forwarded =
    69 ∷ 0 ∷ 0 ∷ 20 ∷ 0 ∷ 0 ∷ 0 ∷ 0 ∷ 63 ∷ 6 ∷ 101 ∷ 226 ∷ 10 ∷ 0 ∷ 0 ∷ 1 ∷ 10 ∷ 0 ∷ 0 ∷ 2 ∷ []

valid-forwarded : decrement_ttl valid ≡ ok forwarded
unfolding decrement_ttl byte_at new_check
valid-forwarded = refl

valid-IsByte : All IsByte valid
valid-IsByte = ground arith

valid-ChecksumHolds : ChecksumHolds valid
unfolding word_sum
valid-ChecksumHolds = refl

decrement_ttl_invalidates_example : ¬ ChecksumHolds forwarded
decrement_ttl_invalidates_example =
    decrement_ttl_invalidates valid forwarded valid-IsByte valid-forwarded valid-ChecksumHolds

decrement_ttl_total_run :
    ((length valid < 20) × (decrement_ttl valid ≡ err packet_short))
    ⊎ ((t : ℕ) × (get_elem? valid 8 ≡ some t) × (t ≤ 1) × (decrement_ttl valid ≡ err ttl_expired))
    ⊎ ((t : ℕ) × (pkt' : List ℕ) × (get_elem? valid 8 ≡ some t)
        × (1 < t)
        × (decrement_ttl valid ≡ ok pkt')
        × (get_elem? pkt' 8 ≡ some (t - 1))
        × ((i : ℕ) → (i ≢ 8) × (i ≢ 10) × (i ≢ 11) → get_elem? pkt' i ≡ get_elem? valid i))
decrement_ttl_total_run = decrement_ttl_total valid
