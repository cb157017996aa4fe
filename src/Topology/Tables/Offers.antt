-- ===== src/Topology/Tables/Offers.antt =====
-- internal/controller/topology/fib.go and dag.go: what holds of the first hops holds of all next hops
-- of the tables.
use Prim.Native.String.{String}
use mathlib.Core.List.{Memᴰ}
use corelink.Prelude.{
  ℕ, zero, suc, ◌≡◌, refl, sym, ap, subst, ◌⊎◌, inl, inr, Bool, List, [], ◌∷◌, map, if◌then◌else◌,
  Option, none, some, arith, Bool-cases,
}
use corelink.Prelude.Assoc.{Assoc, lookup, ◌=?◌, string_eq}
use corelink.Prelude.Sort.{sort_func, Mem-sort_func}
use corelink.Topology.Dag.{Graph, PerSource, FibNextHop, FibRouteEntry, or_nil}
use corelink.Topology.Dag.Cycle.{find_one_cycle_lem}
use corelink.Topology.Dag.Validation.{validate_dag_lem}
use corelink.Topology.Prune.{
  build_forwarding_graph, delete_func, keep_entry, without_hop, remove_next_hop, remove_edge,
  Pruned, pruned, stuck, prune_rounds, prune_graph_cycles, edge_count,
}
use corelink.Topology.Prune.Removal.{entries-remove_next_hop}
use corelink.Topology.Prune.Loop.{cycle-last_two}
use corelink.Topology.Tables.{
  Baseline, DstAgg, PerSourceAgg, route_entry, route_entries, per_source, build_per_source_fib,
  hop_lt, NextHopEntry, FibEntry, FibTable, entry_lt, convert_hop, convert_entry, convert_to_proto,
  convert_pruned, compute_fib,
}
use corelink.Topology.Tables.Aggregate.{Dsts, AllHold}

Mem-delete {ℓ} :
    {A : Type ℓ} (del : A → Bool) (x : A) (xs : List A) → Memᴰ x (delete_func del xs) → Memᴰ x xs
Mem-delete del x [] m = m
Mem-delete del x (y ∷ xs) m = elim (Bool-cases (del y)) [
  | inl e ↦ Memᴰ.tail (
      Mem-delete del x xs
        (subst (λ b. Memᴰ x (if b then delete_func del xs else y ∷ delete_func del xs)) e m))
  | inr e ↦
      elim (subst (λ b. Memᴰ x (if b then delete_func del xs else y ∷ delete_func del xs)) e m) [
        | Memᴰ.head q ↦ Memᴰ.head q
        | Memᴰ.tail r ↦ Memᴰ.tail (Mem-delete del x xs r)
      ]
]

pub lookup-per_source :
    (u : String) (m : PerSourceAgg)
    → or_nil (lookup u (per_source m)) ≡ route_entries (or_nil (lookup u m))
unfolding lookup
lookup-per_source u [] = refl
lookup-per_source u ((src, dsts) ∷ m) = elim (Bool-cases (src =? u)) [
  | inl e ↦ rw (e)
  | inr e ↦ rw (e) (lookup-per_source u m)
]

Mem-route_entries :
    (e : FibRouteEntry) (dsts : Dsts)
    → Memᴰ e (route_entries dsts)
    → (prefix : String) × (agg : DstAgg) × Memᴰ (prefix, agg) dsts × (e ≡ route_entry agg)
Mem-route_entries e [] m = elim m [ ]
Mem-route_entries e ((prefix, agg) ∷ dsts) m = elim m [
  | Memᴰ.head q ↦ (prefix, agg, Memᴰ.head refl, q)
  | Memᴰ.tail r ↦ let (p, a, x, q) = Mem-route_entries e dsts r in (p, a, Memᴰ.tail x, q)
]

Mem-keep_entry :
    (x : FibRouteEntry) (prefix : String) (hops : List FibNextHop) (kept : List FibRouteEntry)
    → Memᴰ x (keep_entry (record { prefix = prefix; next_hops = hops }) kept)
    → (x ≡ record { prefix = prefix; next_hops = hops }) ⊎ Memᴰ x kept
Mem-keep_entry x prefix [] kept m = inr m
Mem-keep_entry x prefix (h ∷ hops) kept m = elim m [ Memᴰ.head q ↦ inl q | Memᴰ.tail r ↦ inr r ]

unfoldable pub origin : NextHopEntry → FibNextHop
origin nh = record { peer_id = nh.peer_id; weight = nh.weight; ingress_id = nh.ingress_id }

Mem-convert_hop :
    (nh : NextHopEntry) (hops : List FibNextHop)
    → Memᴰ nh (map convert_hop hops)
    → Memᴰ (origin nh) hops
unfolding origin convert_hop
Mem-convert_hop nh [] m = elim m [ ]
Mem-convert_hop nh (h ∷ hops) m = elim m [
  | Memᴰ.head q ↦ Memᴰ.head (ap origin q)
  | Memᴰ.tail r ↦ Memᴰ.tail (Mem-convert_hop nh hops r)
]

entries-convert_to_proto :
    (per_src : PerSource) (version : ℕ) (u : String) (t : FibTable)
    → lookup u (convert_to_proto per_src version) ≡ some t
    → t.entries ≡ map convert_entry (sort_func entry_lt (or_nil (lookup u per_src)))
unfolding convert_to_proto lookup
entries-convert_to_proto [] version u t h = cc
entries-convert_to_proto ((src, es) ∷ per_src) version u t h =
    ground (arith, entries-convert_to_proto per_src version u t)

-- What holds of all next hops of all entries.
module _ (P : String → String → FibNextHop → Type 0) where
  abbrev HoldIn : String → List FibRouteEntry → Type 0
  HoldIn u es =
      (e : FibRouteEntry) → Memᴰ e es → (nh : FibNextHop) → Memᴰ nh e.next_hops → P u e.prefix nh

  abbrev pub AllOffer : PerSource → Type 0
  AllOffer per_src = (u : String) → HoldIn u (or_nil (lookup u per_src))

  pub AllOffer-per_source : (m : PerSourceAgg) → AllHold P m → AllOffer (per_source m)
  unfolding route_entry
  AllOffer-per_source m all u e x nh y =
      let (prefix, agg, a, q) =
        Mem-route_entries e (or_nil (lookup u m)) (subst (Memᴰ e) (lookup-per_source u m) x) in
      let (p, h) = all u prefix agg a in
      subst (λ (s : FibRouteEntry). Memᴰ nh s.next_hops → P u s.prefix nh) (sym q)
        (λ z. subst (λ s. P u s nh) (sym p) (h nh ((Mem-sort_func hop_lt nh agg.hops).0 z))) y

  HoldIn-without_hop :
      (u to : String) (es : List FibRouteEntry) → HoldIn u es → HoldIn u (without_hop to es)
  HoldIn-without_hop u to [] h e x nh y = elim x [ ]
  HoldIn-without_hop u to (w ∷ es) h e x nh y =
      let rest = HoldIn-without_hop u to es (λ e' m. h e' (Memᴰ.tail m)) in
      let hops = delete_func (λ (n : FibNextHop). n.peer_id =? to) w.next_hops in
      elim (Mem-keep_entry e w.prefix hops (without_hop to es) x) [
        | inl q ↦
            subst (λ (s : FibRouteEntry). Memᴰ nh s.next_hops → P u s.prefix nh) (sym q)
              (λ z.
                h w (Memᴰ.head refl) nh
                  (Mem-delete (λ (n : FibNextHop). n.peer_id =? to) nh w.next_hops z))
              y
        | inr r ↦ rest e r nh y
      ]

  AllOffer-remove :
      (per_src : PerSource) (from to : String)
      → AllOffer per_src
      → AllOffer (remove_next_hop per_src from to)
  AllOffer-remove per_src from to h u =
      rw (entries-remove_next_hop per_src from to u) (elim (Bool-cases (from =? u)) [
        | inl e ↦ rw e (
            subst (λ s. HoldIn u (without_hop to (or_nil (lookup s per_src))))
              (sym ((string_eq.beq_iff from u).0 e))
              (HoldIn-without_hop u to (or_nil (lookup u per_src)) (h u)))
        | inr e ↦ rw e (h u)
      ])

  abbrev AllPruned : Pruned → Type 0
  AllPruned (pruned per_src g) = AllOffer per_src
  AllPruned stuck = Unit {0}

  AllPruned-rounds :
      (n : ℕ) (per_src : PerSource) (g : Graph)
      → AllOffer per_src
      → AllPruned (prune_rounds n per_src g)
  unfolding prune_rounds
  AllPruned-rounds zero per_src g h = tt
  AllPruned-rounds (suc n) per_src g h = elim (find_one_cycle_lem g) [
    | inr (c, p, e, a) ↦ rw (prune_rounds, e) h
    | inl (l, e, c) ↦
        let (from, to, q, on) = cycle-last_two g l c in
        rw (prune_rounds, e, q)
          (AllPruned-rounds n (remove_next_hop per_src from to) (remove_edge g from to)
            (AllOffer-remove per_src from to h))
  ]

  HoldIn-convert :
      (u : String) (es : List FibRouteEntry)
      → HoldIn u es
      → (e : FibEntry) → Memᴰ e (map convert_entry es)
      → (nh : NextHopEntry) → Memᴰ nh e.next_hops
      → P u e.prefix (origin nh)
  HoldIn-convert u [] h e x nh y = elim x [ ]
  HoldIn-convert u (w ∷ es) h e x nh y = elim x [
    | Memᴰ.head q ↦
        subst (λ (s : FibEntry). Memᴰ nh s.next_hops → P u s.prefix (origin nh)) (sym q)
          (unfold convert_entry in
            λ z. h w (Memᴰ.head refl) (origin nh) (Mem-convert_hop nh w.next_hops z))
          y
    | Memᴰ.tail r ↦ HoldIn-convert u es (λ e' m. h e' (Memᴰ.tail m)) e r nh y
  ]

  AllOffer-convert :
      (per_src : PerSource) (version : ℕ)
      → AllOffer per_src
      → (u : String) (t : FibTable) → lookup u (convert_to_proto per_src version) ≡ some t
      → (e : FibEntry) → Memᴰ e t.entries
      → (nh : NextHopEntry) → Memᴰ nh e.next_hops
      → P u e.prefix (origin nh)
  AllOffer-convert per_src version h u t q e x nh y =
      let es = or_nil (lookup u per_src) in
      HoldIn-convert u (sort_func entry_lt es) (λ e' m. h u e' ((Mem-sort_func entry_lt e' es).0 m))
        e (subst (Memᴰ e) (entries-convert_to_proto per_src version u t q) x) nh y

  abbrev pub TablesHold : Option (Assoc String FibTable) → Type 0
  TablesHold none = Unit {0}
  TablesHold (some tables) =
      (u : String) (t : FibTable)
      → lookup u tables ≡ some t
      → (e : FibEntry) → Memᴰ e t.entries
      → (nh : NextHopEntry) → Memᴰ nh e.next_hops
      → P u e.prefix (origin nh)

  TablesHold-pruned :
      (version : ℕ) (r : Pruned) → AllPruned r → TablesHold (convert_pruned version r)
  TablesHold-pruned version (pruned per_src g) h = AllOffer-convert per_src version h
  TablesHold-pruned version stuck h = tt

  pub compute_fib-TablesHold :
      (baseline : Baseline) (vips : Assoc String String) (version : ℕ)
      → AllOffer (build_per_source_fib baseline vips)
      → TablesHold (compute_fib baseline vips version)
  unfolding compute_fib prune_graph_cycles
  compute_fib-TablesHold baseline vips version h =
      let per_src = build_per_source_fib baseline vips in
      let g = build_forwarding_graph per_src in
      elim (validate_dag_lem g) [
        | inl (q, a) ↦ rw (compute_fib, q) (AllOffer-convert per_src version h)
        | inr (l, q, k, n) ↦
            rw (compute_fib, q)
              (TablesHold-pruned version (prune_graph_cycles per_src g)
                (AllPruned-rounds (suc (edge_count g)) per_src g h))
      ]
