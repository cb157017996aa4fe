-- ===== src/Topology/Published.antt =====
-- internal/controller/topology/fib.go, InjectPublishedPrefixes: the prefixes that nodes publish are added
-- to the tables of the others, each with the next hops of the entry of its owner.
pub mod Steps
pub mod Provenance
mod Index
pub mod Injection
pub mod Edges
use Prim.Native.String.{String}
use corelink.Prelude.{List, [], ◌∷◌, ◌++◌, if◌then◌else◌, Option, none, some, Bool, true, false}
use corelink.Prelude.Assoc.{Assoc, lookup, insert, ◌=?◌, string_eq}
use corelink.Prelude.Sort.{string_lt, sort_func}
use corelink.Topology.Tables.{FibEntry, FibTable, host_prefix}

-- The entries of a table and `entryByPrefix`.
pub record Injecting : Type 0 where
  pub entries : List FibEntry
  pub by_prefix : Assoc String FibEntry

abbrev pub index_entries : List FibEntry → Assoc String FibEntry → Assoc String FibEntry
index_entries [] m = m
index_entries (e ∷ es) m = index_entries es (insert e.prefix e m)

unfoldable pub inject_prefix : FibEntry → String → Injecting → Injecting
inject_prefix owner prefix s = elim (lookup prefix s.by_prefix) [
  | some e ↦ s
  | none ↦
      let new : FibEntry = record { prefix = prefix; next_hops = owner.next_hops } in
      record { entries = s.entries ++ (new ∷ []); by_prefix = insert prefix new s.by_prefix }
]

unfoldable pub inject_prefixes : FibEntry → List String → Injecting → Injecting
inject_prefixes owner [] s = s
inject_prefixes owner (prefix ∷ prefixes) s =
    inject_prefixes owner prefixes (inject_prefix owner prefix s)

abbrev pub with_owner : Option FibEntry → List String → Injecting → Injecting
with_owner none prefixes s = s
with_owner (some owner) prefixes s = inject_prefixes owner prefixes s

abbrev pub with_vip : Option String → List String → Injecting → Injecting
with_vip none prefixes s = s
with_vip (some vip) prefixes s = with_owner (lookup (host_prefix vip) s.by_prefix) prefixes s

-- A node does not get its own prefixes.
unfoldable pub inject_owner :
    String → Assoc String String → String → List String → Injecting → Injecting
inject_owner src node_vips owner_id prefixes s =
    if owner_id =? src then s else with_vip (lookup owner_id node_vips) prefixes s

unfoldable pub inject_owners :
    String → Assoc String String → Assoc String (List String) → Injecting → Injecting
inject_owners src node_vips [] s = s
inject_owners src node_vips ((owner_id, prefixes) ∷ published) s =
    inject_owners src node_vips published (inject_owner src node_vips owner_id prefixes s)

abbrev pub fib_entry_lt : FibEntry → FibEntry → Bool
fib_entry_lt a b = string_lt a.prefix b.prefix

unfoldable pub inject_table :
    String → Assoc String String → Assoc String (List String) → FibTable → FibTable
inject_table src node_vips published fib =
    let start : Injecting = record {
      entries = fib.entries;
      by_prefix = index_entries fib.entries [];
    } in
    record fib {
      entries = sort_func fib_entry_lt (inject_owners src node_vips published start).entries;
    }

abbrev pub inject_all :
    Assoc String String → Assoc String (List String) → Assoc String FibTable → Assoc String FibTable
inject_all node_vips published [] = []
inject_all node_vips published ((src, fib) ∷ fibs) =
    (src, inject_table src node_vips published fib) ∷ inject_all node_vips published fibs

-- `if len(publishedPrefixes) == 0`
pub inject_published_prefixes :
    Assoc String FibTable → Assoc String (List String) → Assoc String String → Assoc String FibTable
inject_published_prefixes fibs [] node_vips = fibs
inject_published_prefixes fibs (p ∷ published) node_vips = inject_all node_vips (p ∷ published) fibs
