-- ===== src/Ipam/Examples.antt =====
-- The allocator of internal/controller/ipam/ipam.go over a table of leases in memory, on 10.0.0.0/29.
use corelink.Prelude.{
  ℕ, ◌≡◌, ◌≢◌, refl, sym, subst, true, false, [], ◌∷◌, Option, none, some, arith, ◌==◌, ==_iff,
}
use corelink.Prelude.Outcome.{Outcome, ok, err}
use corelink.Prelude.Assoc.{Assoc, lookup, insert, erase, lookup-insert, lookup-erase, nat_eq}
use corelink.Ipam.{Network, LeaseStore, Allocator, allocate, release}
use corelink.Ipam.Leases.{IsAllocation, allocate-IsAllocation}
use corelink.Ipam.Sync.{IsLeaseStore, IsInSync, Grants, allocate-Grants, Frees, release-Frees}

-- A table whose keys are addresses, printed as numbers: a second lease of an address is an error.
abbrev create : ℕ → ℕ → Assoc ℕ ℕ → Option ℕ → Outcome ℕ (Assoc ℕ ℕ)
create ip node st none = ok (insert ip node st)
create ip node st (some other) = err other

abbrev table : LeaseStore
table = record {
  State = Assoc ℕ ℕ;
  Text = ℕ;
  Node = ℕ;
  DbError = ℕ;
  show_ip = λ n. n;
  parse_ip = λ n. some n;
  list_leases = λ st. ok st;
  allocate_lease = λ ip node st. create ip node st (lookup ip st);
  release_lease = λ ip st. ok (erase ip st);
}

create-cases :
    (ip node : ℕ) (st stored : Assoc ℕ ℕ) (o : Option ℕ)
    → create ip node st o ≡ ok stored
    → (o ≡ none) × (stored ≡ insert ip node st)
create-cases ip node st stored none e = ground arith
create-cases ip node st stored (some x) e = ground arith

erased :
    (ip : ℕ) (st stored : Assoc ℕ ℕ)
    → table.release_lease ip st ≡ ok stored
    → (lookup ip stored ≡ none) × ((j : ℕ) → j ≢ ip → lookup j stored ≡ lookup j st)
erased ip st stored e =
    let b : stored ≡ erase ip st = ground arith in
    (
      subst (λ s. lookup ip s ≡ none) (sym b) (ground (arith, lookup-erase ip ip st)),
      λ j d.
          subst (λ s. lookup j s ≡ lookup j st) (sym b)
            (ground (arith, lookup-erase ip j st, ==_iff ip j)),
    )

abbrev table-IsLeaseStore : IsLeaseStore table
table-IsLeaseStore = record {
  owner = λ st ip. lookup ip st;
  read_back = λ n h. refl;
  created = λ ip node st stored e.
      let (a, b) = create-cases ip node st stored (lookup ip st) e in
      (
        a,
        subst (λ s. lookup ip s ≡ some node) (sym b) (ground (arith, lookup-insert ip ip node st)),
        λ j d.
            subst (λ s. lookup j s ≡ lookup j st) (sym b)
              (ground (arith, lookup-insert ip j node st, ==_iff ip j)),
      );
  deleted = λ ip st stored e. erased ip st stored e;
}

abbrev network : Network
network = record { is_v4 = true; base = 167772160; ones = 29; bits = 32 }

abbrev fresh : Allocator
fresh = record { network = network; used = λ n. false }

allocate-IsAllocation_example : IsAllocation table fresh 7 [] (allocate table fresh 7 [])
allocate-IsAllocation_example = allocate-IsAllocation table fresh 7 [] (omega arith)

fresh-IsInSync : IsInSync table table-IsLeaseStore fresh []
unfolding lookup
fresh-IsInSync n h = refl

allocate-Grants_example : Grants table table-IsLeaseStore 7 [] (allocate table fresh 7 [])
allocate-Grants_example =
    allocate-Grants table table-IsLeaseStore fresh 7 [] (omega arith) fresh-IsInSync

-- The allocator after one lease of 10.0.0.2.
abbrev leased : Allocator
leased = record { network = network; used = λ n. 167772162 == n }

leased-IsInSync : IsInSync table table-IsLeaseStore leased ((167772162, 7) ∷ [])
unfolding lookup
leased-IsInSync n h = ground arith

release-Frees_run :
    Frees table table-IsLeaseStore 167772162 (release table leased 167772162 ((167772162, 7) ∷ []))
release-Frees_run =
    release-Frees table table-IsLeaseStore leased 167772162 ((167772162, 7) ∷ []) (omega arith)
      leased-IsInSync
