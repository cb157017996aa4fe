-- ===== src/Topology/Published/Edges.antt =====
-- The forwarding edges after InjectPublishedPrefixes of internal/controller/topology/fib.go.
use Prim.Native.String.{String}
use mathlib.Core.List.{Memᴰ}
use corelink.Prelude.{ℕ, ◌≡◌, refl, subst, inl, inr, ◌↔◌, List, [], ◌∷◌, map, some, Bool-cases}
use corelink.Prelude.Assoc.{Assoc, lookup, ◌=?◌, string_eq}
use corelink.Topology.Dag.{Graph}
use corelink.Prelude.Members.{Mem-append, Mem-append_left, Mem-append_right}
use corelink.Topology.Dag.Paths.{Edge, IsAcyclic}
use corelink.Topology.Published.{inject_table, inject_all, inject_published_prefixes}
use corelink.Topology.Published.Injection.{inject_table-IsInjected}
use corelink.Topology.Published.Provenance.{next_hops-IsFrom}
use corelink.Topology.Tables.{Baseline, FibEntry, FibTable, NextHopEntry, compute_fib}
use corelink.Topology.Tables.Acyclic.{through, entry_peers, table_peers, compute_fib-IsAcyclic}

abbrev names : FibEntry → List String
names e = map (λ (h : NextHopEntry). h.peer_id) e.next_hops

entry_peers-Mem :
    (v : String) (es : List FibEntry)
    → Memᴰ v (entry_peers es) ↔ ((e : FibEntry) × Memᴰ e es × Memᴰ v (names e))
entry_peers-Mem v [] = (λ m. elim m [ ], λ (e, m, k). elim m [ ])
entry_peers-Mem v (e ∷ es) = (
  λ m. elim (Mem-append v (names e) (entry_peers es) m) [
    | inl k ↦ (e, Memᴰ.head refl, k)
    | inr k ↦ let (x, a, b) = (entry_peers-Mem v es).0 k in (x, Memᴰ.tail a, b)
  ],
  λ (x, m, k). elim m [
    | Memᴰ.head q ↦ Mem-append_left v (names e) (entry_peers es) (subst (λ y. Memᴰ v (names y)) q k)
    | Memᴰ.tail r ↦
        Mem-append_right v (names e) (entry_peers es) ((entry_peers-Mem v es).1 (x, r, k))
  ],
)

inject_table-peers :
    (src v : String) (vips : Assoc String String) (published : Assoc String (List String))
    (fib : FibTable)
    → Memᴰ v (entry_peers (inject_table src vips published fib).entries)
      ↔ Memᴰ v (entry_peers fib.entries)
inject_table-peers src v vips published fib =
    let new = (inject_table src vips published fib).entries in
    let i = inject_table-IsInjected src vips published fib in
    (
      λ m.
          let (e, a, b) = (entry_peers-Mem v new).0 m in
          let (o, x, q) = next_hops-IsFrom (i.comes e a) in
          (entry_peers-Mem v fib.entries).1
            (o, x, subst (λ hs. Memᴰ v (map (λ (h : NextHopEntry). h.peer_id) hs)) q b),
      λ m.
          let (e, a, b) = (entry_peers-Mem v fib.entries).0 m in
          (entry_peers-Mem v new).1 (e, i.stays e a, b),
    )

inject_all-peers :
    (vips : Assoc String String) (published : Assoc String (List String))
    (fibs : Assoc String FibTable) (u v : String)
    → Memᴰ v (table_peers (lookup u (inject_all vips published fibs)))
      ↔ Memᴰ v (table_peers (lookup u fibs))
unfolding lookup
inject_all-peers vips published [] u v = (λ m. m, λ m. m)
inject_all-peers vips published ((src, fib) ∷ fibs) u v = elim (Bool-cases (src =? u)) [
  | inl e ↦ rw (e) (inject_table-peers src v vips published fib)
  | inr e ↦ rw (e) (inject_all-peers vips published fibs u v)
]

inject-peers :
    (vips : Assoc String String) (published : Assoc String (List String))
    (fibs : Assoc String FibTable) (u v : String)
    → Memᴰ v (table_peers (lookup u (inject_published_prefixes fibs published vips)))
      ↔ Memᴰ v (table_peers (lookup u fibs))
unfolding inject_published_prefixes
inject-peers vips [] fibs u v = (λ m. m, λ m. m)
inject-peers vips (p ∷ published) fibs u v = inject_all-peers vips (p ∷ published) fibs u v

-- The tables of `computeFIB`, with the published prefixes injected, have as next hops the edges of a
-- graph without cycles.
pub inject_published_prefixes-IsAcyclic :
    (baseline : Baseline) (vips : Assoc String String) (version : ℕ)
    (published : Assoc String (List String)) (owner_vips : Assoc String String)
    → (tables : Assoc String FibTable) × (g : Graph) × (compute_fib baseline vips version
        ≡ some tables)
      × IsAcyclic g
      × ((u v : String)
          → Edge g u v
            ↔ Memᴰ v
                (table_peers (lookup u (inject_published_prefixes tables published owner_vips))))
inject_published_prefixes-IsAcyclic baseline vips version published owner_vips =
    let (tables, g, q, a, e) = compute_fib-IsAcyclic baseline vips version in
    (tables, g, q, a, λ u v. through (e u v) (inject-peers owner_vips published tables u v))
