-- ===== src/Topology/Published/Injection.antt =====
-- What InjectPublishedPrefixes of internal/controller/topology/fib.go keeps and adds.
use Prim.Native.String.{String}
use mathlib.Core.List.{Memᴰ}
use corelink.Prelude.{
  ◌≡◌, ◌≢◌, refl, ap, subst, ◌∙◌, inl, inr, List, [], ◌∷◌, Option, none, some, Option-cases,
}
use corelink.Prelude.Assoc.{Assoc, lookup, string_eq}
use corelink.Prelude.Sort.{Mem-sort_func}
use corelink.Topology.Tables.{FibEntry, FibTable, host_prefix}
use corelink.Topology.Dag.Colors.{string_cases}
use corelink.Topology.Prune.Removal.{string_ne}
use corelink.Topology.Published.{
  Injecting, with_vip, inject_owner, inject_owners, fib_entry_lt, inject_table,
}
use corelink.Topology.Published.Index.{start-Keeps}
use corelink.Topology.Published.Provenance.{IsFrom, AllFrom, inject_prefixes-AllFrom}
use corelink.Topology.Published.Steps.{
  Keeps, Extends, Extends-trans, HasPrefix, HasPrefix-Extends, inject_prefixes-Extends,
}

with_vip-Extends :
    (old : List FibEntry) (vip : Option String) (prefixes : List String) (s : Injecting)
    → Keeps old s
    → Extends old s (with_vip vip prefixes s)
      × ((v p : String)
          → vip ≡ some v
          → HasPrefix (host_prefix v) old
          → Memᴰ p prefixes
          → HasPrefix p (with_vip vip prefixes s).entries)
with_vip-Extends old none prefixes s k = (record { keeps = k; grows = λ e m. m }, λ v p q. cc)
with_vip-Extends old (some vip) prefixes s k =
    elim (Option-cases (lookup (host_prefix vip) s.by_prefix)) [
      | inl q ↦ rw (q) (
        record { keeps = k; grows = λ e m. m },
        λ v p r (e, m, z). let (o, l) = k.covers e (k.stays e m) in absurd (cc (l, q, z, r)),
      )
      | inr (owner, q) ↦
          let (x, all) =
            inject_prefixes-Extends old owner prefixes s (k.indexed (host_prefix vip) owner q).0
              k in
          rw (q) (x, λ v p r h m. all p m)
    ]

inject_owner-Extends :
    (old : List FibEntry) (src : String) (vips : Assoc String String) (owner : String)
    (prefixes : List String) (s : Injecting)
    → Keeps old s
    → Extends old s (inject_owner src vips owner prefixes s)
      × ((v p : String)
          → owner ≢ src
          → lookup owner vips ≡ some v
          → HasPrefix (host_prefix v) old
          → Memᴰ p prefixes
          → HasPrefix p (inject_owner src vips owner prefixes s).entries)
unfolding inject_owner
inject_owner-Extends old src vips owner prefixes s k = elim (string_cases owner src) [
  | inl q ↦
      rw (inject_owner, (string_eq.beq_iff owner src).1 q)
        (record { keeps = k; grows = λ e m. m }, λ v p n. absurd (n q))
  | inr q ↦
      rw (inject_owner, string_ne owner src q)
        (let (x, all) = with_vip-Extends old (lookup owner vips) prefixes s k in
          (x, λ v p n. all v p))
]

inject_owners-Extends :
    (old : List FibEntry) (src : String) (vips : Assoc String String)
    (published : Assoc String (List String)) (s : Injecting)
    → Keeps old s
    → Extends old s (inject_owners src vips published s)
      × ((owner v p : String) (prefixes : List String)
          → Memᴰ (owner, prefixes) published
          → owner ≢ src
          → lookup owner vips ≡ some v
          → HasPrefix (host_prefix v) old
          → Memᴰ p prefixes
          → HasPrefix p (inject_owners src vips published s).entries)
unfolding inject_owners
inject_owners-Extends old src vips [] s k =
    (record { keeps = k; grows = λ e m. m }, λ owner v p prefixes m. elim m [ ])
inject_owners-Extends old src vips ((o, ps) ∷ published) s k =
    let next = inject_owner src vips o ps s in
    let (step, here) = inject_owner-Extends old src vips o ps s k in
    let (x, all) = inject_owners-Extends old src vips published next step.keeps in
    (
      Extends-trans old s next _ step x,
      λ owner v p prefixes m. elim m [
        | Memᴰ.head q ↦ λ n l h y.
            let q0 : owner ≡ o = ap (λ (z : String × List String). z.0) q in
            let q1 : prefixes ≡ ps = ap (λ (z : String × List String). z.1) q in
            HasPrefix-Extends old p next _ x (
              here v p (λ e. n (q0 ∙ e)) (subst (λ z. lookup z vips ≡ some v) q0 l) h
                (subst (Memᴰ p) q1 y))
        | Memᴰ.tail r ↦ all owner v p prefixes r
      ],
    )

with_vip-AllFrom :
    (src : String) (vips : Assoc String String) (published : Assoc String (List String))
    (old : List FibEntry) (owner : String) (vip : Option String) (prefixes : List String)
    (s : Injecting)
    → Memᴰ (owner, prefixes) published
    → owner ≢ src
    → lookup owner vips ≡ vip
    → Keeps old s
    → AllFrom src vips published old s
    → AllFrom src vips published old (with_vip vip prefixes s)
with_vip-AllFrom src vips published old owner none prefixes s m n l k all = all
with_vip-AllFrom src vips published old owner (some vip) prefixes s m n l k all =
    elim (Option-cases (lookup (host_prefix vip) s.by_prefix)) [
      | inl q ↦ rw q all
      | inr (o, q) ↦
          let (x, own) = k.indexed (host_prefix vip) o q in
          rw q (
            inject_prefixes-AllFrom src vips published old owner vip prefixes o m n l own prefixes s
              (λ p y. y) x k all)
    ]

inject_owners-AllFrom :
    (src : String) (vips : Assoc String String) (published : Assoc String (List String))
    (old : List FibEntry) (rest : Assoc String (List String)) (s : Injecting)
    → ((owner : String) (prefixes : List String)
        → Memᴰ (owner, prefixes) rest
        → Memᴰ (owner, prefixes) published)
    → Keeps old s
    → AllFrom src vips published old s
    → AllFrom src vips published old (inject_owners src vips rest s)
unfolding inject_owners inject_owner
inject_owners-AllFrom src vips published old [] s sub k all = all
inject_owners-AllFrom src vips published old ((o, ps) ∷ rest) s sub k all =
    let (step, here) = inject_owner-Extends old src vips o ps s k in
    inject_owners-AllFrom src vips published old rest (inject_owner src vips o ps s)
      (λ owner prefixes m. sub owner prefixes (Memᴰ.tail m)) step.keeps
      (elim (string_cases o src) [
        | inl q ↦ rw (inject_owner, (string_eq.beq_iff o src).1 q) all
        | inr q ↦
            rw (inject_owner, string_ne o src q)
              (with_vip-AllFrom src vips published old o (lookup o vips) ps s
                (sub o ps (Memᴰ.head refl)) q refl k all)
      ])

-- What a table is after the injection into it.
pub record IsInjected (src : String) (vips : Assoc String String)
    (published : Assoc String (List String)) (fib fib' : FibTable) : Type 0 where
  pub stays : (e : FibEntry) → Memᴰ e fib.entries → Memᴰ e fib'.entries
  pub comes : (e : FibEntry) → Memᴰ e fib'.entries → IsFrom src vips published fib.entries e
  pub covers :
      (owner vip p : String) (prefixes : List String)
      → Memᴰ (owner, prefixes) published
      → owner ≢ src
      → lookup owner vips ≡ some vip
      → HasPrefix (host_prefix vip) fib.entries
      → Memᴰ p prefixes
      → HasPrefix p fib'.entries

-- The injection into the table of a node keeps all entries. Every other entry of the result is for a
-- prefix that the table did not have and that another node publishes, and has the next hops of the
-- entry for the address of that node, which the table had or which was injected in the same way. And
-- each prefix that another node publishes has an entry, if the table has one for the address of that
-- node.
pub inject_table-IsInjected :
    (src : String) (vips : Assoc String String) (published : Assoc String (List String))
    (fib : FibTable)
    → IsInjected src vips published fib (inject_table src vips published fib)
unfolding inject_table
inject_table-IsInjected src vips published fib =
    let (x, all) =
      inject_owners-Extends fib.entries src vips published _ (start-Keeps fib.entries) in
    let from =
      inject_owners-AllFrom src vips published fib.entries published _ (λ owner prefixes m. m)
        (start-Keeps fib.entries) (λ e m. IsFrom.given m) in
    record {
      stays = λ e m. (Mem-sort_func fib_entry_lt e _).1 (x.keeps.stays e m);
      comes = λ e m. from e ((Mem-sort_func fib_entry_lt e _).0 m);
      covers = λ owner vip p prefixes a b c d y.
          let (e, m, q) = all owner vip p prefixes a b c d y in
          (e, (Mem-sort_func fib_entry_lt e _).1 m, q);
    }
