-- ===== src/Ipam/Leases.antt =====
-- What internal/controller/ipam/ipam.go promises: an allocated address is the lowest free host
-- address of the network, and the map of used addresses agrees with the lease table.
use corelink.Prelude.{
  ℕ, suc, zero, ◌+◌, ◌-◌, ◌%◌, ◌^◌, ◌≤◌, ◌<◌, ◌≡◌, refl, Bool, true, false, not, Option, ltb, arith,
  ltb→lt,
}
use corelink.Prelude.Outcome.{Outcome, ok, err, panic, ◌>>=◌, reject_if}
use corelink.Ipam.{
  Network, LeaseStore, IpamError, only_ipv4, too_large, exhausted, db_failed, Allocator, set_used,
  wrapped, find_free, host_bits, total_hosts, take_free, allocate,
}
use corelink.Ipam.Scan.{IsLowestFree, free_at, all_used, find_free-IsLowestFree}

pow_pos : (n : ℕ) → 1 ≤ 2 ^ n
pow_pos zero = omega arith
pow_pos (suc n) = let h = pow_pos n in omega arith

-- A network that lies in the 32-bit address space, as the mask leaves it.
abbrev pub IsNetwork : Network → Type 0
IsNetwork w = w.base + total_hosts w ≤ 2 ^ 32

module _ (S : LeaseStore) where
  open S use {
    State, Text, Node, DbError, show_ip, parse_ip, list_leases, allocate_lease, release_lease,
  }

  -- All that `Allocate` can return, with what each result says.
  pub data IsAllocation (a : Allocator) (node : Node) (st : State)
      : Outcome (IpamError DbError) (Text × Allocator × State) → Type 0 where
    given :
        (i : ℕ) {stored : State}
        → 2 ≤ i
        → i + 1 < total_hosts a.network
        → a.used (a.network.base + i) ≡ false
        → ((j : ℕ) → 2 ≤ j → j < i → a.used (a.network.base + j) ≡ true)
        → allocate_lease (show_ip (a.network.base + i)) node st ≡ ok stored
        → IsAllocation a node st (
            ok (
              show_ip (a.network.base + i),
              record a { used = set_used (a.network.base + i) true a.used },
              stored,
            ))
    store_fails :
        (i : ℕ) {e : DbError}
        → allocate_lease (show_ip (a.network.base + i)) node st ≡ err e
        → IsAllocation a node st (err (db_failed e))
    store_panics :
        (i : ℕ)
        → allocate_lease (show_ip (a.network.base + i)) node st ≡ panic
        → IsAllocation a node st panic
    full :
        ((j : ℕ) → 2 ≤ j → j + 1 < total_hosts a.network → a.used (a.network.base + j) ≡ true)
        → IsAllocation a node st (err exhausted)
    wrong_family : a.network.is_v4 ≡ false → IsAllocation a node st (err only_ipv4)
    wrong_size : 24 < host_bits a.network → IsAllocation a node st (err too_large)

  take_free-IsAllocation :
      (a : Allocator) (node : Node) (st : State) (r : Option ℕ)
      → IsLowestFree a.used a.network.base 2 (total_hosts a.network - 1 - 2) r
      → IsAllocation a node st (take_free S a node st r)
  unfolding take_free
  take_free-IsAllocation a node st r (all_used h) = full (λ j p q. h j p (omega arith))
  take_free-IsAllocation a node st r (free_at {i = i} p q u h) =
      with_stored (allocate_lease (show_ip (a.network.base + i)) node st) refl
    where
      with_stored :
          (o : Outcome DbError State)
          → allocate_lease (show_ip (a.network.base + i)) node st ≡ o
          → IsAllocation a node st (
              wrapped o >>= λ stored. ok (
                show_ip (a.network.base + i),
                record a { used = set_used (a.network.base + i) true a.used },
                stored,
              ))
      with_stored (ok stored) e = given i p (omega arith) u h e
      with_stored (err x) e = store_fails i e
      with_stored panic e = store_panics i e

  checked :
      (P : Outcome (IpamError DbError) (Text × Allocator × State) → Type 0) (v big : Bool)
      (m : Outcome (IpamError DbError) (Text × Allocator × State))
      → (v ≡ false → P (err only_ipv4))
      → (big ≡ true → P (err too_large))
      → P m
      → P (reject_if (not v) only_ipv4 >>= λ _. (reject_if big too_large >>= λ _. m))
  checked P false big m f g h = f refl
  checked P true true m f g h = g refl
  checked P true false m f g h = h

  -- On a network within 32 bits, `Allocate` gives the lowest free host address but the network's, the
  -- gateway's and the broadcast address, with its lease stored; or it reports exhaustion when all of them
  -- are used, a failure of the store for one of them, or a network of the wrong family or size.
  pub allocate-IsAllocation :
      (a : Allocator) (node : Node) (st : State)
      → IsNetwork a.network
      → IsAllocation a node st (allocate S a node st)
  unfolding allocate
  allocate-IsAllocation a node st h =
      let w = a.network in
      let t = total_hosts w in
      let broadcast = (w.base + t + 2 ^ 32 - 1) % 2 ^ 32 in
      let p = pow_pos (host_bits w) in
      let r = find_free (t - 1 - 2) 2 w.base broadcast a.used in
      checked (IsAllocation a node st) w.is_v4 (ltb 24 (host_bits w)) (take_free S a node st r)
        wrong_family (λ e. wrong_size (ltb→lt _ _ e))
        (take_free-IsAllocation a node st r (
          find_free-IsLowestFree a.used (t - 1 - 2) 2 w.base broadcast (omega arith)
            (λ q. omega arith)))
