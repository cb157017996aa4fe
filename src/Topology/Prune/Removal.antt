-- ===== src/Topology/Prune/Removal.antt =====
-- The removal of one edge, in internal/controller/topology/dag.go: from the graph and from the tables.
use Prim.Native.String.{String}
use mathlib.Core.List.{Memᴰ}
use corelink.Prelude.{
  ◌≡◌, ◌≢◌, refl, sym, ap, ◌∙◌, inl, inr, ◌↔◌, false, List, [], ◌∷◌, ◌++◌, map, if◌then◌else◌,
  arith, Bool-cases,
}
use corelink.Prelude.Assoc.{lookup, insert, erase, lookup-insert, lookup-erase, ◌=?◌, string_eq}
use corelink.Topology.Dag.{Graph, PerSource, FibNextHop, FibRouteEntry, or_nil, succs}
use corelink.Topology.Dag.Colors.{string_cases}
use corelink.Topology.Dag.Paths.{Edge}
use corelink.Topology.Prune.{delete_func, keep_entry, without_hop, remove_next_hop, remove_edge}
use corelink.Topology.Prune.Forwarding.{peers, peers_of, succs-insert, IsForwarding}

abbrev drop_name : String → List String → List String
drop_name to vs = delete_func (λ s. s =? to) vs

drop_name-append :
    (to : String) (xs ys : List String)
    → drop_name to (xs ++ ys) ≡ drop_name to xs ++ drop_name to ys
drop_name-append to [] ys = refl
drop_name-append to (x ∷ xs) ys = ground (arith, drop_name-append to xs ys)

map-delete_func :
    (to : String) (hops : List FibNextHop)
    → map (λ (h : FibNextHop). h.peer_id) (delete_func (λ (nh : FibNextHop). nh.peer_id =? to) hops)
      ≡ drop_name to (map (λ (h : FibNextHop). h.peer_id) hops)
map-delete_func to [] = refl
map-delete_func to (h ∷ hops) = elim (Bool-cases (h.peer_id =? to)) [
  | inl e ↦ rw e (map-delete_func to hops)
  | inr e ↦ rw e (ap (λ l. h.peer_id ∷ l) (map-delete_func to hops))
]

peers-keep_entry :
    (prefix : String) (hops : List FibNextHop) (kept : List FibRouteEntry)
    → peers (keep_entry (record { prefix = prefix; next_hops = hops }) kept)
      ≡ map (λ (h : FibNextHop). h.peer_id) hops ++ peers kept
peers-keep_entry prefix [] kept = refl
peers-keep_entry prefix (h ∷ hops) kept = refl

peers-without_hop :
    (to : String) (es : List FibRouteEntry) → peers (without_hop to es) ≡ drop_name to (peers es)
peers-without_hop to [] = refl
peers-without_hop to (e ∷ es) =
    peers-keep_entry e.prefix (delete_func (λ (nh : FibNextHop). nh.peer_id =? to) e.next_hops)
      (without_hop to es)
    ∙ ap (λ l. l ++ peers (without_hop to es)) (map-delete_func to e.next_hops)
    ∙ ap (λ l. drop_name to (map (λ (h : FibNextHop). h.peer_id) e.next_hops) ++ l)
        (peers-without_hop to es)
    ∙ sym (drop_name-append to (map (λ (h : FibNextHop). h.peer_id) e.next_hops) (peers es))

abbrev set_entries : PerSource → String → List FibRouteEntry → PerSource
set_entries per_src from [] = erase from per_src
set_entries per_src from (e ∷ kept) = insert from (e ∷ kept) per_src

entries-set :
    (per_src : PerSource) (from u : String) (es : List FibRouteEntry)
    → or_nil (lookup u (set_entries per_src from es))
      ≡ (if from =? u then es else or_nil (lookup u per_src))
entries-set per_src from u [] = ground (arith, lookup-erase from u per_src)
entries-set per_src from u (e ∷ es) = ground (arith, lookup-insert from u (e ∷ es) per_src)

-- `perSrc[from]` is set, or deleted when nothing is left.
pub entries-remove_next_hop :
    (per_src : PerSource) (from to u : String)
    → or_nil (lookup u (remove_next_hop per_src from to)) ≡ (
        if from =? u
        then without_hop to (or_nil (lookup from per_src))
        else or_nil (lookup u per_src))
unfolding remove_next_hop
entries-remove_next_hop per_src from to u =
    entries-set per_src from u (without_hop to (or_nil (lookup from per_src)))

peers_of-remove_next_hop :
    (per_src : PerSource) (from to u : String)
    → peers_of (remove_next_hop per_src from to) u
      ≡ (if from =? u then drop_name to (peers_of per_src u) else peers_of per_src u)
peers_of-remove_next_hop per_src from to u =
    ap peers (entries-remove_next_hop per_src from to u)
    ∙ ground (arith, peers-without_hop to (or_nil (lookup from per_src)), string_eq.beq_iff from u)

succs-remove_edge :
    (g : Graph) (from to u : String)
    → succs (remove_edge g from to) u ≡ (if from =? u then drop_name to (succs g u) else succs g u)
unfolding remove_edge
succs-remove_edge g from to u =
    ground (arith, succs-insert g from u (drop_name to (succs g from)), string_eq.beq_iff from u)

pub string_ne : (a b : String) → a ≢ b → (a =? b) ≡ false
string_ne a b q = ground (arith, string_eq.beq_iff a b)

Mem-drop_name :
    (v to : String) (vs : List String) → Memᴰ v (drop_name to vs) ↔ (Memᴰ v vs × (v ≢ to))
Mem-drop_name v to [] = (λ m. elim m [ ], λ c. elim c.0 [ ])
Mem-drop_name v to (w ∷ vs) = elim (string_cases w to) [
  | inl q ↦ rw ((string_eq.beq_iff w to).1 q) (
    λ m. let (a, b) = (Mem-drop_name v to vs).0 m in (Memᴰ.tail a, b),
    λ c. elim c.0 [
      | Memᴰ.head e ↦ absurd (c.1 (e ∙ q))
      | Memᴰ.tail r ↦ (Mem-drop_name v to vs).1 (r, c.1)
    ],
  )
  | inr q ↦ rw (string_ne w to q) (
    λ m. elim m [
      | Memᴰ.head e ↦ (Memᴰ.head e, λ r. q (sym e ∙ r))
      | Memᴰ.tail r ↦ let (a, b) = (Mem-drop_name v to vs).0 r in (Memᴰ.tail a, b)
    ],
    λ c. elim c.0 [
      | Memᴰ.head e ↦ Memᴰ.head e
      | Memᴰ.tail r ↦ Memᴰ.tail ((Mem-drop_name v to vs).1 (r, c.1))
    ],
  )
]

pub remove-IsForwarding :
    (per_src : PerSource) (g : Graph) (from to : String)
    → IsForwarding per_src g
    → IsForwarding (remove_next_hop per_src from to) (remove_edge g from to)
remove-IsForwarding per_src g from to h u v =
    rw (succs-remove_edge g from to u, peers_of-remove_next_hop per_src from to u)
      (elim (Bool-cases (from =? u)) [
        | inl e ↦ rw e (
          λ m.
              let (a, b) = (Mem-drop_name v to (succs g u)).0 m in
              (Mem-drop_name v to (peers_of per_src u)).1 ((h u v).0 a, b),
          λ m.
              let (a, b) = (Mem-drop_name v to (peers_of per_src u)).0 m in
              (Mem-drop_name v to (succs g u)).1 ((h u v).1 a, b),
        )
        | inr e ↦ rw e (h u v)
      ])

-- What is removed is the one edge.
pub Edge-remove_edge :
    (g : Graph) (from to u v : String)
    → Edge (remove_edge g from to) u v ↔ (Edge g u v × ¬ ((u ≡ from) × (v ≡ to)))
Edge-remove_edge g from to u v = rw (succs-remove_edge g from to u) (elim (string_cases from u) [
  | inl q ↦ rw ((string_eq.beq_iff from u).1 q) (
    λ m. let (a, b) = (Mem-drop_name v to (succs g u)).0 m in (a, λ c. b c.1),
    λ c. (Mem-drop_name v to (succs g u)).1 (c.0, λ e. c.1 (sym q, e)),
  )
  | inr q ↦ rw (string_ne from u q) (λ m. (m, λ c. q (sym c.0)), λ c. c.0)
])
