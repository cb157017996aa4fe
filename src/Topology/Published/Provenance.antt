-- ===== src/Topology/Published/Provenance.antt =====
-- Where the entries come from that InjectPublishedPrefixes of internal/controller/topology/fib.go adds.
use Prim.Native.String.{String}
use mathlib.Core.List.{Memᴰ}
use corelink.Prelude.Members.{Mem-snoc}
use corelink.Prelude.{◌≡◌, ◌≢◌, refl, sym, subst, inl, inr, List, [], ◌∷◌, some, Option-cases}
use corelink.Prelude.Assoc.{Assoc, lookup, string_eq}
use corelink.Topology.Tables.{FibEntry, host_prefix}
use corelink.Topology.Published.{Injecting, inject_prefix, inject_prefixes}
use corelink.Topology.Published.Steps.{Keeps, inject_prefix-Extends}

-- An entry of the injected table of `src`: one that the table had, or one for a prefix that the table
-- did not have, that another node publishes, with the next hops of the entry for that node's address.
pub data IsFrom (src : String) (vips : Assoc String String) (published : Assoc String (List String))
    (old : List FibEntry) : FibEntry → Type 0 where
  given : {e : FibEntry} → Memᴰ e old → IsFrom src vips published old e
  injected :
      (owner vip p : String) (prefixes : List String) (o : FibEntry)
      → Memᴰ (owner, prefixes) published
      → owner ≢ src
      → lookup owner vips ≡ some vip
      → Memᴰ p prefixes
      → ((e : FibEntry) → Memᴰ e old → e.prefix ≢ p)
      → IsFrom src vips published old o
      → o.prefix ≡ host_prefix vip
      → IsFrom src vips published old (record { prefix = p; next_hops = o.next_hops })

pub next_hops-IsFrom :
    {src : String} {vips : Assoc String String} {published : Assoc String (List String)}
    {old : List FibEntry} {e : FibEntry}
    → IsFrom src vips published old e
    → (o : FibEntry) × Memᴰ o old × (e.next_hops ≡ o.next_hops)
next_hops-IsFrom {e} (IsFrom.given m) = (e, m, refl)
next_hops-IsFrom (IsFrom.injected owner vip p prefixes o m n l y fresh from own) =
    next_hops-IsFrom from

module _ (src : String) (vips : Assoc String String) (published : Assoc String (List String))
    (old : List FibEntry) where
  abbrev pub AllFrom : Injecting → Type 0
  AllFrom s = (e : FibEntry) → Memᴰ e s.entries → IsFrom src vips published old e

  module _ (owner vip : String) (prefixes : List String) (o : FibEntry)
      (listed : Memᴰ (owner, prefixes) published) (foreign : owner ≢ src)
      (addressed : lookup owner vips ≡ some vip) (own : o.prefix ≡ host_prefix vip) where
    inject_prefix-AllFrom :
        (p : String) (s : Injecting)
        → Memᴰ p prefixes
        → Memᴰ o s.entries
        → Keeps old s
        → AllFrom s
        → AllFrom (inject_prefix o p s)
    unfolding inject_prefix
    inject_prefix-AllFrom p s m y k all = elim (Option-cases (lookup p s.by_prefix)) [
      | inr (e, q) ↦ rw (inject_prefix, q) all
      | inl q ↦
          rw (inject_prefix, q)
            (λ e x. elim ((Mem-snoc e _ s.entries).0 x) [
              | inl r ↦ subst (IsFrom src vips published old) (sym r) (
                  IsFrom.injected owner vip p prefixes o listed foreign addressed m
                    (λ z old_z r.
                      let (w, l) = k.covers z (k.stays z old_z) in
                      let l' = subst (λ (t : String). lookup t s.by_prefix ≡ some w) r l in
                      absurd (cc (l', q)))
                    (all o y) own)
              | inr r ↦ all e r
            ])
    ]

    pub inject_prefixes-AllFrom :
        (ps : List String) (s : Injecting)
        → ((p : String) → Memᴰ p ps → Memᴰ p prefixes)
        → Memᴰ o s.entries
        → Keeps old s
        → AllFrom s
        → AllFrom (inject_prefixes o ps s)
    unfolding inject_prefixes
    inject_prefixes-AllFrom [] s sub y k all = all
    inject_prefixes-AllFrom (p ∷ ps) s sub y k all =
        let x = inject_prefix-Extends old o p s y k in
        inject_prefixes-AllFrom ps (inject_prefix o p s) (λ z m. sub z (Memᴰ.tail m)) (x.grows o y)
          x.keeps (inject_prefix-AllFrom p s (sub p (Memᴰ.head refl)) y k all)
