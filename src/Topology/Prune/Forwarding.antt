-- ===== src/Topology/Prune/Forwarding.antt =====
-- The forwarding graph of internal/controller/topology/dag.go against the tables.
use Prim.Native.String.{String}
use mathlib.Core.List.{Memᴰ}
use corelink.Prelude.Members.{Mem-snoc}
use corelink.Prelude.{
  ◌≡◌, refl, sym, ap, subst, ◌∙◌, ◌⊎◌, inl, inr, ◌↔◌, true, List, [], ◌∷◌, ◌++◌, map, if◌then◌else◌,
  arith, Bool-cases,
}
use corelink.Prelude.Assoc.{lookup, insert, lookup-insert, IsMap, ◌=?◌, string_eq}
use corelink.Topology.Dag.{Graph, PerSource, FibNextHop, FibRouteEntry, or_nil, succs}
use corelink.Topology.Dag.Paths.{Edge}
use corelink.Topology.Dag.Colors.{string_cases}
use corelink.Topology.Prune.{
  contains, add_hop, add_hops, add_entries, add_source, add_sources, build_forwarding_graph,
}

-- The next hops that the entries name.
abbrev pub peers : List FibRouteEntry → List String
peers [] = []
peers (e ∷ es) = map (λ (h : FibNextHop). h.peer_id) e.next_hops ++ peers es

abbrev pub peers_of : PerSource → String → List String
peers_of per_src u = peers (or_nil (lookup u per_src))

abbrev pub add_new : List String → String → List String
add_new acc v = if contains v acc then acc else acc ++ (v ∷ [])

-- The list `vs` after `acc`, without what stands there before.
abbrev pub add_all_new : List String → List String → List String
add_all_new acc [] = acc
add_all_new acc (v ∷ vs) = add_all_new (add_new acc v) vs

add_all_new-append :
    (acc xs ys : List String) → add_all_new acc (xs ++ ys) ≡ add_all_new (add_all_new acc xs) ys
add_all_new-append acc [] ys = refl
add_all_new-append acc (x ∷ xs) ys = add_all_new-append (add_new acc x) xs ys

pub succs-insert :
    (g : Graph) (k u : String) (ss : List String)
    → succs (insert k ss g) u ≡ (if k =? u then ss else succs g u)
unfolding succs
succs-insert g k u ss = ground (arith, lookup-insert k u ss g)

succs-add_hop :
    (src u : String) (g : Graph) (nh : FibNextHop)
    → succs (add_hop src g nh) u ≡ (if src =? u then add_new (succs g u) nh.peer_id else succs g u)
succs-add_hop src u g nh =
    ground (arith, succs-insert g src u (succs g src ++ (nh.peer_id ∷ [])), string_eq.beq_iff src u)

succs-add_hops :
    (src u : String) (g : Graph) (hops : List FibNextHop)
    → succs (add_hops src g hops) u ≡ (
        if src =? u
        then add_all_new (succs g u) (map (λ (h : FibNextHop). h.peer_id) hops)
        else succs g u)
succs-add_hops src u g [] = ground arith
succs-add_hops src u g (nh ∷ hops) =
    ground (arith, succs-add_hop src u g nh, succs-add_hops src u (add_hop src g nh) hops)

succs-add_entries :
    (src u : String) (g : Graph) (es : List FibRouteEntry)
    → succs (add_entries src g es) u
      ≡ (if src =? u then add_all_new (succs g u) (peers es) else succs g u)
succs-add_entries src u g [] = ground arith
succs-add_entries src u g (e ∷ es) = ground (
  arith,
  succs-add_hops src u g e.next_hops,
  succs-add_entries src u (add_hops src g e.next_hops) es,
  add_all_new-append (succs g u) (map (λ (h : FibNextHop). h.peer_id) e.next_hops) (peers es),
)

succs-add_source : (src u : String) (g : Graph) → succs (add_source src g) u ≡ succs g u
unfolding succs
succs-add_source src u g = ground (arith, lookup-insert src u [] g, string_eq.beq_iff src u)

succs-add_sources :
    (u : String) (g : Graph) (per_src : PerSource)
    → IsMap per_src
    → succs (add_sources g per_src) u ≡ add_all_new (succs g u) (peers_of per_src u)
unfolding lookup
succs-add_sources u g [] h = refl
succs-add_sources u g ((src, es) ∷ per_src) h = ground (
  arith,
  succs-add_sources u (add_entries src (add_source src g) es) per_src h.1,
  succs-add_entries src u (add_source src g) es,
  succs-add_source src u g,
  string_eq.beq_iff src u,
)

succs-nil : (u : String) → succs [] u ≡ []
unfolding succs lookup
succs-nil u = refl

-- The successors of a node in the forwarding graph are the next hops of its entries, each once and in
-- the order of the entries, where no source stands twice.
pub succs-build_forwarding_graph :
    (u : String) (per_src : PerSource)
    → IsMap per_src
    → succs (build_forwarding_graph per_src) u ≡ add_all_new [] (peers_of per_src u)
unfolding build_forwarding_graph
succs-build_forwarding_graph u per_src h =
    succs-add_sources u [] per_src h
    ∙ ap (λ acc. add_all_new acc (peers_of per_src u)) (succs-nil u)

contains_mem : (v : String) (vs : List String) → contains v vs ≡ true → Memᴰ v vs
contains_mem v [] h = cc
contains_mem v (w ∷ vs) h = elim (string_cases w v) [
  | inl q ↦ Memᴰ.head (sym q)
  | inr q ↦ Memᴰ.tail (contains_mem v vs (ground (arith, string_eq.beq_iff w v)))
]

Mem-add_new : (x v : String) (acc : List String) → Memᴰ x (add_new acc v) ↔ ((x ≡ v) ⊎ Memᴰ x acc)
Mem-add_new x v acc = elim (Bool-cases (contains v acc)) [
  | inl e ↦ rw e (
    λ m. inr m,
    λ c. elim c [ inl q ↦ subst (λ y. Memᴰ y acc) (sym q) (contains_mem v acc e) | inr m ↦ m ],
  )
  | inr e ↦ rw e (Mem-snoc x v acc)
]

pub Mem-add_all_new :
    (x : String) (vs acc : List String) → Memᴰ x (add_all_new acc vs) ↔ (Memᴰ x acc ⊎ Memᴰ x vs)
Mem-add_all_new x [] acc = (λ m. inl m, λ c. elim c [ inl m ↦ m | inr m ↦ elim m [ ] ])
Mem-add_all_new x (v ∷ vs) acc =
    let (to, from) = Mem-add_all_new x vs (add_new acc v) in
    let (to', from') = Mem-add_new x v acc in
    (
      λ m. elim (to m) [
        | inl k ↦ elim (to' k) [ inl e ↦ inr (Memᴰ.head e) | inr r ↦ inl r ]
        | inr k ↦ inr (Memᴰ.tail k)
      ],
      λ c. elim c [
        | inl m ↦ from (inl (from' (inr m)))
        | inr m ↦ elim m [ Memᴰ.head e ↦ from (inl (from' (inl e))) | Memᴰ.tail k ↦ from (inr k) ]
      ],
    )

-- The graph has an edge exactly where the entries of its first end name the other as a next hop.
abbrev pub IsForwarding : PerSource → Graph → Type 0
IsForwarding per_src g = (u v : String) → Edge g u v ↔ Memᴰ v (peers_of per_src u)

pub build_forwarding_graph-IsForwarding :
    (per_src : PerSource) → IsMap per_src → IsForwarding per_src (build_forwarding_graph per_src)
build_forwarding_graph-IsForwarding per_src h u v = rw (succs-build_forwarding_graph u per_src h) (
  λ m. elim ((Mem-add_all_new v (peers_of per_src u) []).0 m) [ inl k ↦ elim k [ ] | inr k ↦ k ],
  λ m. (Mem-add_all_new v (peers_of per_src u) []).1 (inr m),
)
