-- ===== src/Ipam.antt =====
-- internal/controller/ipam/ipam.go: the allocator of virtual IPv4 addresses. The database behind
-- internal/controller/store (`AllocateLease`, `ReleaseLease`, `ListLeases`) and the text form of
-- addresses in the package net are parameters.
mod Scan
mod Leases
mod Sync
mod Examples
use corelink.Prelude.{
  ℕ, suc, zero, ◌+◌, ◌-◌, ◌%◌, ◌^◌, ◌≡◌, ◌↔◌, Bool, true, false, not, List, [], ◌∷◌, Option, none,
  some, ltb, ◌==◌, if◌then◌else◌,
}
use corelink.Prelude.Outcome.{Outcome, ok, err, panic, ◌>>=◌, ◌>>◌, reject_if}

-- The result of net.ParseCIDR: the masked address, its family and the size of the mask.
pub record Network : Type 0 where
  pub is_v4 : Bool
  pub base : ℕ
  pub ones : ℕ
  pub bits : ℕ

-- The lease table and the text of addresses.
pub record LeaseStore : Type 1 where
  pub State : Type 0
  pub Text : Type 0
  pub Node : Type 0
  pub DbError : Type 0
  -- `String` of an IPv4 address, and `ParseIP` with `To4`.
  pub show_ip : ℕ → Text
  pub parse_ip : Text → Option ℕ
  pub list_leases : State → Outcome DbError (List (Text × Node))
  pub allocate_lease : Text → Node → State → Outcome DbError State
  pub release_lease : Text → State → Outcome DbError State

pub data IpamError (D : Type 0) : Type 0 where
  only_ipv4 too_large exhausted bad_ip : IpamError D
  db_failed : D → IpamError D

pub record Allocator : Type 0 where
  pub network : Network
  pub used : ℕ → Bool

-- An assignment to, or a deletion from, the map `used`.
pub set_used : ℕ → Bool → (ℕ → Bool) → ℕ → Bool
set_used n v used m = if n == m then v else used m

-- The body of the loop of `New`, which skips what is not an IPv4 address.
abbrev pub mark : Option ℕ → (ℕ → Bool) → ℕ → Bool
mark none used = used
mark (some n) used = set_used n true used

-- `fmt.Errorf(…%w)` around the store's error.
abbrev pub wrapped {ℓ} : {D : Type 0} {A : Type ℓ} → Outcome D A → Outcome (IpamError D) A
wrapped (ok a) = ok a
wrapped (err e) = err (db_failed e)
wrapped panic = panic

-- The loop of `Allocate`, by the number of offsets left, on 32-bit addresses.
pub find_free : ℕ → ℕ → ℕ → ℕ → (ℕ → Bool) → Option ℕ
find_free zero offset network broadcast used = none
find_free (suc n) offset network broadcast used =
    let candidate = (network + offset) % 2 ^ 32 in
    let rest = find_free n (suc offset) network broadcast used in
    if candidate == broadcast then none else if used candidate then rest else some candidate

abbrev pub host_bits : Network → ℕ
host_bits w = w.bits - w.ones

abbrev pub total_hosts : Network → ℕ
total_hosts w = 2 ^ host_bits w

module _ (S : LeaseStore) where
  open S use {
    State, Text, Node, DbError, show_ip, parse_ip, list_leases, allocate_lease, release_lease,
  }

  -- The loop of `New` over the leases.
  pub rebuild : List (Text × Node) → (ℕ → Bool) → ℕ → Bool
  rebuild [] used = used
  rebuild ((ip, node) ∷ leases) used = rebuild leases (mark (parse_ip ip) used)

  -- `New`, from the parsed CIDR.
  pub new_allocator : Network → State → Outcome (IpamError DbError) Allocator
  unfolding rebuild
  new_allocator w st = do
    leases ← wrapped (list_leases st)
    ok (record { network = w; used = rebuild leases (λ n. false) })

  -- What `Allocate` does with the address that its loop stops at.
  take_free :
      Allocator → Node → State → Option ℕ → Outcome (IpamError DbError) (Text × Allocator × State)
  unfolding set_used
  take_free a node st none = err exhausted
  take_free a node st (some n) = do
    stored ← wrapped (allocate_lease (show_ip n) node st)
    ok (show_ip n, record a { used = set_used n true a.used }, stored)

  pub allocate : Allocator → Node → State → Outcome (IpamError DbError) (Text × Allocator × State)
  unfolding find_free take_free
  allocate a node st = do
    let w = a.network
    reject_if (not w.is_v4) only_ipv4
    reject_if (ltb 24 (host_bits w)) too_large
    let total = total_hosts w
    let broadcast = (w.base + total + 2 ^ 32 - 1) % 2 ^ 32
    take_free a node st (find_free (total - 1 - 2) 2 w.base broadcast a.used)

  -- What `Release` does with the parsed address.
  drop_lease : Allocator → Text → State → Option ℕ → Outcome (IpamError DbError) (Allocator × State)
  unfolding set_used
  drop_lease a ip st none = err bad_ip
  drop_lease a ip st (some n) = do
    stored ← wrapped (release_lease ip st)
    ok (record a { used = set_used n false a.used }, stored)

  pub release : Allocator → Text → State → Outcome (IpamError DbError) (Allocator × State)
  unfolding drop_lease
  release a ip st = drop_lease a ip st (parse_ip ip)
