-- ===== src/Ipam/Sync.antt =====
-- The map of used addresses of internal/controller/ipam/ipam.go and the lease table of
-- internal/controller/store, which `Allocate` and `Release` change together.
use corelink.Prelude.{
  ℕ, ◌+◌, ◌<◌, ◌^◌, ◌≡◌, ◌≢◌, refl, sym, subst, Bool, true, false, Option, none, some, ◌==◌, ==_iff,
  if◌then◌else◌, arith, ◌∙◌, ap, inl, inr, Bool-cases,
}
use corelink.Prelude.Outcome.{Outcome, ok, err, panic, ◌>>=◌}
use corelink.Ipam.{
  LeaseStore, IpamError, Allocator, set_used, wrapped, allocate, drop_lease, release,
}
use corelink.Ipam.Leases.{
  IsNetwork, IsAllocation, given, store_fails, store_panics, full, wrong_family, wrong_size,
  allocate-IsAllocation,
}

module _ (S : LeaseStore) where
  open S use {
    State, Text, Node, DbError, show_ip, parse_ip, list_leases, allocate_lease, release_lease,
  }

  -- The documented behaviour of the tables and of the text of addresses: `owner` is what the table
  -- of leases says, its key is the address, and a printed address is read back.
  pub record IsLeaseStore : Type 0 where
    pub owner : State → Text → Option Node
    pub read_back : (n : ℕ) → n < 2 ^ 32 → parse_ip (show_ip n) ≡ some n
    pub created :
        (ip : Text) (node : Node) (st stored : State)
        → allocate_lease ip node st ≡ ok stored
        → (owner st ip ≡ none)
          × (owner stored ip ≡ some node)
          × ((j : Text) → j ≢ ip → owner stored j ≡ owner st j)
    pub deleted :
        (ip : Text) (st stored : State)
        → release_lease ip st ≡ ok stored
        → (owner stored ip ≡ none) × ((j : Text) → j ≢ ip → owner stored j ≡ owner st j)

  abbrev pub is_held : Option Node → Bool
  is_held none = false
  is_held (some node) = true

  -- The map of used addresses is the table of leases.
  abbrev pub IsInSync : IsLeaseStore → Allocator → State → Type 0
  IsInSync L a st = (n : ℕ) → n < 2 ^ 32 → a.used n ≡ is_held (L.owner st (show_ip n))

  show_ip_injective :
      (L : IsLeaseStore) (m n : ℕ) → m < 2 ^ 32 → n < 2 ^ 32 → show_ip m ≡ show_ip n → m ≡ n
  show_ip_injective L m n p q e = let a = L.read_back m p in let b = L.read_back n q in cc

  -- A change of both sides at one address keeps them in step.
  set_used-IsInSync :
      (L : IsLeaseStore) (a : Allocator) (st stored : State) (n : ℕ) (o : Option Node)
      → n < 2 ^ 32
      → IsInSync L a st
      → L.owner stored (show_ip n) ≡ o
      → ((j : Text) → j ≢ show_ip n → L.owner stored j ≡ L.owner st j)
      → IsInSync L (record a { used = set_used n (is_held o) a.used }) stored
  unfolding set_used
  set_used-IsInSync L a st stored n o b s h k m c = elim (Bool-cases (n == m)) [
    | inl e ↦
        let d = (==_iff n m).0 e in
        subst (λ x. (if x then is_held o else a.used m) ≡ is_held (L.owner stored (show_ip m)))
          (sym e)
          (subst (λ x. is_held o ≡ is_held (L.owner stored (show_ip x))) d (sym (ap is_held h)))
    | inr e ↦
        let d = k (show_ip m) (λ x. differ e (show_ip_injective L m n c b x)) in
        subst (λ x. (if x then is_held o else a.used m) ≡ is_held (L.owner stored (show_ip m)))
          (sym e) (s m c ∙ sym (ap is_held d))
  ]
    where
      differ : (n == m) ≡ false → m ≢ n
      differ e x = ground (arith, ==_iff n m)

  -- What a result of `Allocate` says of the table before it and of both sides after it.
  abbrev pub Grants :
      IsLeaseStore → Node → State → Outcome (IpamError DbError) (Text × Allocator × State) → Type 0
  Grants L node st (ok (ip, a, stored)) =
      (L.owner st ip ≡ none) × (L.owner stored ip ≡ some node) × IsInSync L a stored
  Grants L node st (err e) = Unit
  Grants L node st panic = Unit

  IsAllocation-Grants :
      (L : IsLeaseStore) (a : Allocator) (node : Node) (st : State)
      (r : Outcome (IpamError DbError) (Text × Allocator × State))
      → IsNetwork a.network
      → IsInSync L a st
      → IsAllocation S a node st r
      → Grants L node st r
  IsAllocation-Grants L a node st r w s (given i {stored = stored} p q u h e) =
      let (f, g, k) = L.created (show_ip (a.network.base + i)) node st stored e in
      (f, g, set_used-IsInSync L a st stored (a.network.base + i) (some node) (omega arith) s g k)
  IsAllocation-Grants L a node st r w s (store_fails i e) = tt
  IsAllocation-Grants L a node st r w s (store_panics i e) = tt
  IsAllocation-Grants L a node st r w s (full h) = tt
  IsAllocation-Grants L a node st r w s (wrong_family h) = tt
  IsAllocation-Grants L a node st r w s (wrong_size h) = tt

  -- On a network within 32 bits, if the map of used addresses agrees with the lease table and the table
  -- behaves as documented: an address that `Allocate` returns had no lease before and is leased to the
  -- node after it, and the map still agrees with the table.
  pub allocate-Grants :
      (L : IsLeaseStore) (a : Allocator) (node : Node) (st : State)
      → IsNetwork a.network
      → IsInSync L a st
      → Grants L node st (allocate S a node st)
  allocate-Grants L a node st w s =
      IsAllocation-Grants L a node st _ w s (allocate-IsAllocation S a node st w)

  abbrev pub Frees : IsLeaseStore → Text → Outcome (IpamError DbError) (Allocator × State) → Type 0
  Frees L ip (ok (a, stored)) = (L.owner stored ip ≡ none) × IsInSync L a stored
  Frees L ip (err e) = Unit
  Frees L ip panic = Unit

  drop_lease-Frees :
      (L : IsLeaseStore) (a : Allocator) (n : ℕ) (st : State)
      → n < 2 ^ 32
      → IsInSync L a st
      → Frees L (show_ip n) (drop_lease S a (show_ip n) st (some n))
  unfolding drop_lease
  drop_lease-Frees L a n st b s = with_stored (release_lease (show_ip n) st) refl
    where
      with_stored :
          (o : Outcome DbError State)
          → release_lease (show_ip n) st ≡ o
          → Frees L (show_ip n) (
              wrapped {D = DbError} o >>= λ stored.
              ok (record a { used = set_used n false a.used }, stored))
      with_stored (ok stored) e =
          let (f, k) = L.deleted (show_ip n) st stored e in
          (f, set_used-IsInSync L a st stored n none b s f k)
      with_stored (err x) e = tt
      with_stored panic e = tt

  -- If the map of used addresses agrees with the lease table and the table behaves as documented: a
  -- `Release` of a 32-bit address in its printed form that returns has taken its lease away, and the map
  -- still agrees with the table.
  pub release-Frees :
      (L : IsLeaseStore) (a : Allocator) (n : ℕ) (st : State)
      → n < 2 ^ 32
      → IsInSync L a st
      → Frees L (show_ip n) (release S a (show_ip n) st)
  unfolding release
  release-Frees L a n st b s =
      subst (λ r. Frees L (show_ip n) (drop_lease S a (show_ip n) st r)) (sym (L.read_back n b))
        (drop_lease-Frees L a n st b s)
