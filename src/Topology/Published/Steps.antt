-- ===== src/Topology/Published/Steps.antt =====
-- InjectPublishedPrefixes of internal/controller/topology/fib.go, one owner at a time.
use Prim.Native.String.{String}
use mathlib.Core.List.{Memᴰ}
use corelink.Prelude.Members.{Mem-snoc}
use corelink.Prelude.{
  ◌≡◌, refl, sym, ap, subst, ◌∙◌, inl, inr, List, [], ◌∷◌, some, arith, Option-cases,
}
use corelink.Prelude.Assoc.{lookup, lookup-insert, string_eq}
use corelink.Topology.Tables.{FibEntry}
use corelink.Topology.Dag.Colors.{string_cases}
use corelink.Topology.Published.{Injecting, inject_prefix, inject_prefixes}

-- Every entry of the table has the next hops of an entry that was there.
abbrev pub Copies : List FibEntry → List FibEntry → Type 0
Copies old es =
    (e : FibEntry) → Memᴰ e es → (o : FibEntry) × Memᴰ o old × (e.next_hops ≡ o.next_hops)

-- `old` stays, what is new copies it, and the index has entries of the table.
pub record Keeps (old : List FibEntry) (s : Injecting) : Type 0 where
  pub stays : (e : FibEntry) → Memᴰ e old → Memᴰ e s.entries
  pub copies : Copies old s.entries
  pub indexed :
      (p : String) (e : FibEntry)
      → lookup p s.by_prefix ≡ some e
      → Memᴰ e s.entries × (e.prefix ≡ p)
  pub covers :
      (e : FibEntry) → Memᴰ e s.entries → (o : FibEntry) × (lookup e.prefix s.by_prefix ≡ some o)

Keeps-inject_prefix :
    (old : List FibEntry) (owner : FibEntry) (prefix : String) (s : Injecting)
    → Memᴰ owner s.entries
    → Keeps old s
    → Keeps old (inject_prefix owner prefix s)
unfolding inject_prefix
Keeps-inject_prefix old owner prefix s o k = elim (Option-cases (lookup prefix s.by_prefix)) [
  | inr (e, q) ↦ rw (inject_prefix, q) k
  | inl q ↦
      let new : FibEntry = record { prefix = prefix; next_hops = owner.next_hops } in
      rw (inject_prefix, q)
        (record {
          stays = λ e m. (Mem-snoc e new s.entries).1 (inr (k.stays e m));
          copies = λ e m. elim ((Mem-snoc e new s.entries).0 m) [
            | inl r ↦
                let (x, a, b) = k.copies owner o in (x, a, ap (λ (z : FibEntry). z.next_hops) r ∙ b)
            | inr r ↦ k.copies e r
          ];
          indexed = λ p e l. elim (string_cases prefix p) [
            | inl r ↦
                let same : new ≡ e =
                  ground
                    (arith, lookup-insert prefix p new s.by_prefix, string_eq.beq_iff prefix p) in
                (
                  (Mem-snoc e new s.entries).1 (inl (sym same)),
                  ap (λ (z : FibEntry). z.prefix) (sym same) ∙ r,
                )
            | inr r ↦
                let (a, b) = k.indexed p e (
                  ground
                    (arith, lookup-insert prefix p new s.by_prefix, string_eq.beq_iff prefix p)) in
                ((Mem-snoc e new s.entries).1 (inr a), b)
          ];
          covers = λ e m. elim (string_cases prefix e.prefix) [
            | inl r ↦ (
              new,
              ground (
                arith,
                lookup-insert prefix e.prefix new s.by_prefix,
                string_eq.beq_iff prefix e.prefix,
              ),
            )
            | inr r ↦ elim ((Mem-snoc e new s.entries).0 m) [
              | inl z ↦ absurd (r (ap (λ (z : FibEntry). z.prefix) (sym z)))
              | inr z ↦
                  let (o, l) = k.covers e z in
                  (
                    o,
                    ground (
                      arith,
                      lookup-insert prefix e.prefix new s.by_prefix,
                      string_eq.beq_iff prefix e.prefix,
                      l,
                    ),
                  )
            ]
          ];
        })
]

grows-inject_prefix :
    (owner : FibEntry) (prefix : String) (s : Injecting) (e : FibEntry)
    → Memᴰ e s.entries
    → Memᴰ e (inject_prefix owner prefix s).entries
unfolding inject_prefix
grows-inject_prefix owner prefix s e m = elim (Option-cases (lookup prefix s.by_prefix)) [
  | inr (o, q) ↦ rw (inject_prefix, q) m
  | inl q ↦ rw (inject_prefix, q) ((Mem-snoc e _ s.entries).1 (inr m))
]

abbrev pub HasPrefix : String → List FibEntry → Type 0
HasPrefix p es = (e : FibEntry) × Memᴰ e es × (e.prefix ≡ p)

inject_prefix-HasPrefix :
    (old : List FibEntry) (owner : FibEntry) (prefix : String) (s : Injecting)
    → Keeps old s
    → HasPrefix prefix (inject_prefix owner prefix s).entries
unfolding inject_prefix
inject_prefix-HasPrefix old owner prefix s k = elim (Option-cases (lookup prefix s.by_prefix)) [
  | inr (o, q) ↦ rw (inject_prefix, q) let (a, b) = k.indexed prefix o q in (o, a, b)
  | inl q ↦
      rw (inject_prefix, q)
        (
          record { prefix = prefix; next_hops = owner.next_hops },
          (Mem-snoc _ (record { prefix = prefix; next_hops = owner.next_hops }) s.entries).1
              (inl refl),
          refl,
        )
]

-- What one step of the walk over the owners does.
pub record Extends (old : List FibEntry) (s s' : Injecting) : Type 0 where
  pub keeps : Keeps old s'
  pub grows : (e : FibEntry) → Memᴰ e s.entries → Memᴰ e s'.entries

pub Extends-trans :
    (old : List FibEntry) (a b c : Injecting) → Extends old a b → Extends old b c → Extends old a c
Extends-trans old a b c x y = record { keeps = y.keeps; grows = λ e m. y.grows e (x.grows e m) }

pub HasPrefix-Extends :
    (old : List FibEntry) (p : String) (a b : Injecting)
    → Extends old a b
    → HasPrefix p a.entries
    → HasPrefix p b.entries
HasPrefix-Extends old p a b x (e, m, q) = (e, x.grows e m, q)

pub inject_prefix-Extends :
    (old : List FibEntry) (owner : FibEntry) (prefix : String) (s : Injecting)
    → Memᴰ owner s.entries
    → Keeps old s
    → Extends old s (inject_prefix owner prefix s)
inject_prefix-Extends old owner prefix s o k = record {
  keeps = Keeps-inject_prefix old owner prefix s o k;
  grows = grows-inject_prefix owner prefix s;
}

pub inject_prefixes-Extends :
    (old : List FibEntry) (owner : FibEntry) (prefixes : List String) (s : Injecting)
    → Memᴰ owner s.entries
    → Keeps old s
    → Extends old s (inject_prefixes owner prefixes s)
      × ((p : String) → Memᴰ p prefixes → HasPrefix p (inject_prefixes owner prefixes s).entries)
unfolding inject_prefixes
inject_prefixes-Extends old owner [] s o k =
    (record { keeps = k; grows = λ e m. m }, λ p m. elim m [ ])
inject_prefixes-Extends old owner (prefix ∷ prefixes) s o k =
    let next = inject_prefix owner prefix s in
    let step = inject_prefix-Extends old owner prefix s o k in
    let (x, all) =
      inject_prefixes-Extends old owner prefixes next (step.grows owner o) step.keeps in
    (
      Extends-trans old s next _ step x,
      λ p m. elim m [
        | Memᴰ.head q ↦ HasPrefix-Extends old p next _ x (
            subst (λ z. HasPrefix z next.entries) (sym q)
              (inject_prefix-HasPrefix old owner prefix s k))
        | Memᴰ.tail r ↦ all p r
      ],
    )
