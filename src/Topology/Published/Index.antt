-- ===== src/Topology/Published/Index.antt =====
-- What `entryByPrefix` of internal/controller/topology/fib.go has at first.
use Prim.Native.String.{String}
use mathlib.Core.List.{Memᴰ}
use corelink.Prelude.{◌≡◌, refl, sym, ap, subst, ◌∙◌, inl, inr, List, [], ◌∷◌, some, arith}
use corelink.Prelude.Assoc.{Assoc, lookup, insert, lookup-insert, string_eq}
use corelink.Topology.Tables.{FibEntry}
use corelink.Topology.Dag.Colors.{string_cases}
use corelink.Topology.Published.{index_entries}
use corelink.Topology.Published.Steps.{Keeps}

index-Keeps :
    (old es : List FibEntry) (m : Assoc String FibEntry)
    → ((p : String) (e : FibEntry) → lookup p m ≡ some e → Memᴰ e old × (e.prefix ≡ p))
    → ((e : FibEntry) → Memᴰ e es → Memᴰ e old)
    → ((p : String) (e : FibEntry)
        → lookup p (index_entries es m) ≡ some e
        → Memᴰ e old × (e.prefix ≡ p))
      × ((e : FibEntry)
          → Memᴰ e es
          → (o : FibEntry) × (lookup e.prefix (index_entries es m) ≡ some o))
      × ((p : String) (e : FibEntry)
          → lookup p m ≡ some e
          → (o : FibEntry) × (lookup p (index_entries es m) ≡ some o))
index-Keeps old [] m i sub = (i, λ e x. elim x [ ], λ p e l. (e, l))
index-Keeps old (w ∷ es) m i sub =
    let (a, b, c) =
      index-Keeps old es (insert w.prefix w m)
        (λ p e l. elim (string_cases w.prefix p) [
          | inl q ↦
              let same : w ≡ e =
                ground (arith, lookup-insert w.prefix p w m, string_eq.beq_iff w.prefix p, l) in
              (sub e (Memᴰ.head (sym same)), ap (λ (z : FibEntry). z.prefix) (sym same) ∙ q)
          | inr q ↦
              i p e (ground (arith, lookup-insert w.prefix p w m, string_eq.beq_iff w.prefix p, l))
        ])
        (λ e x. sub e (Memᴰ.tail x)) in
    (
      a,
      λ e x. elim x [
        | Memᴰ.head q ↦
            subst
              (λ (z : FibEntry).
                (o : FibEntry) × (lookup z.prefix (index_entries es (insert w.prefix w m))
                  ≡ some o))
              (sym q)
              (c w.prefix w (
                ground (
                  arith,
                  lookup-insert w.prefix w.prefix w m,
                  string_eq.beq_iff w.prefix w.prefix,
                )))
        | Memᴰ.tail r ↦ b e r
      ],
      λ p e l. elim (string_cases w.prefix p) [
        | inl q ↦ c p w (ground (arith, lookup-insert w.prefix p w m, string_eq.beq_iff w.prefix p))
        | inr q ↦
            c p e (ground (arith, lookup-insert w.prefix p w m, string_eq.beq_iff w.prefix p, l))
      ],
    )

pub start-Keeps :
    (es : List FibEntry) → Keeps es (record { entries = es; by_prefix = index_entries es [] })
unfolding lookup
start-Keeps es =
    let (a, b, c) = index-Keeps es es [] (λ p e l. cc) (λ e m. m) in
    record { stays = λ e m. m; copies = λ e m. (e, m, refl); indexed = a; covers = b }
