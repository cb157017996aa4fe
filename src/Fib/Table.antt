-- ===== src/Fib/Table.antt =====
-- The table of internal/transport/fib/fib.go: a Go map from prefixes to next hops, whose iteration
-- order is any order of the entries. The lock makes each call a step.
pub mod LongestMatch
pub mod Updates
mod Examples
use Prim.Native.String.{String}
use corelink.Prelude.{
  ℕ, ◌≡◌, Bool, true, false, List, [], ◌∷◌, Option, none, some, ltb, if◌then◌else◌,
}
use corelink.Prelude.Assoc.{Assoc, insert, erase}
use corelink.Wire.Addr.{Addr}
use corelink.Fib.Prefix.{Prefix, prefix_eq, bits, contains}

pub record NextHop : Type 0 where
  pub peer_id : String
  pub weight : ℕ
  pub ingress_id : String

pub record Fib : Type 0 where
  pub entries : Assoc Prefix (List NextHop)

pub new_fib : Fib
new_fib = record { entries = [] }

-- `Insert`: the slice is copied, so later writes of the caller do not reach the table.
pub insert_route : Prefix → List NextHop → Fib → Fib
insert_route p nhs f = record { entries = insert p nhs f.entries }

pub remove_route : Prefix → Fib → Fib
remove_route p f = record { entries = erase p f.entries }

-- The loop's `bestLen` and `bestHops`; `none` is `bestLen == -1`.
abbrev pub Best : Type 0
Best = Option (ℕ × List NextHop)

pub visit : Addr → Best → Prefix → List NextHop → Best
visit addr none p nhs = if contains p addr then some (bits p, nhs) else none
visit addr (some (best_len, best_hops)) p nhs =
    if contains p addr
    then (if ltb best_len (bits p) then some (bits p, nhs) else some (best_len, best_hops))
    else some (best_len, best_hops)

pub scan : Addr → Best → Assoc Prefix (List NextHop) → Best
scan addr best [] = best
scan addr best ((p, nhs) ∷ entries) = scan addr (visit addr best p nhs) entries

unfoldable pub lookup_addr : Fib → Addr → Option (List NextHop)
unfolding scan visit
lookup_addr f addr = elim (scan addr none f.entries) [ none ↦ none | some (n, hops) ↦ some hops ]
