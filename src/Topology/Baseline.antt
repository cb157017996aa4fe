-- ===== src/Topology/Baseline.antt =====
-- internal/controller/topology/kpaths.go: the split graph of the pruned edges, the K shortest paths by
-- Yen's algorithm, and the baseline routes. `exhausted` stands for a lack of fuel in `dijkstra`, a panic
-- for an index out of range.
pub mod Routes
pub mod Spurs
pub mod KShortest
pub mod SplitGraph
pub mod Compress
pub mod HopRoutes
pub mod Examples
use Prim.Native.Nat.{compare as compare_nat, Ordering}
use Prim.Native.String.{String, compare, ◌++◌ as append_string}
use text.Mathlib.Text.{is_lt, is_eq}
use corelink.Prelude.{
  ℕ, zero, suc, ◌≡◌, ◌↔◌, arith, ◌+◌, ◌-◌, ◌%◌, ◌^◌, Bool, true, false, ◌||◌, ◌&&◌, List, [], ◌∷◌,
  ◌++◌, map, length, take, drop, if◌then◌else◌, Option, none, some, ltb, leb, ◌==◌,
}
use corelink.Prelude.Assoc.{Assoc, Eq, lookup, insert, ◌=?◌, string_eq}
use corelink.Prelude.Outcome.{Outcome, ok, err, panic, ◌>>=◌}
use corelink.Prelude.Sort.{string_lt, sort_func}
use corelink.Topology.Prune.{contains, delete_func}
use corelink.Topology.Tables.{Hop, RoutePair, Baseline}
use corelink.Topology.Vertex.{Vertex, core_v, ing_v, Parsed, parse_v}
use corelink.Topology.Shortest.{Edge, Graph, edges_of, edge_key, max_w, dijkstra}

pub record PrunedEdge : Type 0 where
  pub src : String
  pub dst : String
  pub ingress : String
  pub w : ℕ

abbrev pub ensure : Vertex → Graph → Graph
ensure v g = elim (lookup v g.adj) [ none ↦ record { adj = insert v [] g.adj } | some es ↦ g ]

abbrev pub add_edge : Vertex → Edge → Graph → Graph
add_edge v e g = record { adj = insert v (edges_of g v ++ (e ∷ [])) g.adj }

pub record Split : Type 0 where
  pub graph : Graph
  pub internal_done : List Vertex

unfoldable pub add_pruned : PrunedEdge → Split → Split
add_pruned pe s =
    let src = core_v pe.src in
    let iv = ing_v pe.dst pe.ingress in
    let g = ensure (core_v pe.dst) (ensure iv (ensure src s.graph)) in
    let crossed = add_edge src (record { to = iv; w = pe.w }) g in
    if contains iv s.internal_done then record s { graph = crossed } else record {
      graph = add_edge iv (record { to = core_v pe.dst; w = 0 }) crossed;
      internal_done = iv ∷ s.internal_done;
    }

unfoldable pub add_all_pruned : List PrunedEdge → Split → Split
add_all_pruned [] s = s
add_all_pruned (pe ∷ pes) s = add_all_pruned pes (add_pruned pe s)

abbrev pub edge_lt : Edge → Edge → Bool
edge_lt a b = string_lt a.to b.to

unfoldable pub sort_edges : Assoc Vertex (List Edge) → Assoc Vertex (List Edge)
sort_edges [] = []
sort_edges ((v, es) ∷ adj) = (v, sort_func edge_lt es) ∷ sort_edges adj

unfoldable pub build_split_graph : List PrunedEdge → Graph
build_split_graph pruned_edges =
    let s =
      add_all_pruned pruned_edges (record { graph = record { adj = [] }; internal_done = [] }) in
    record { adj = sort_edges s.graph.adj }

-- The weight of the first edge to `to`, zero where there is none.
abbrev pub weight_to : List Edge → Vertex → ℕ
weight_to [] to = 0
weight_to (e ∷ es) to = if e.to =? to then e.w else weight_to es to

unfoldable pub edge_weight : Graph → Vertex → Vertex → ℕ
edge_weight g from to = weight_to (edges_of g from) to

-- The weights of the first `i` edges of the path on top of `total`.
unfoldable pub prefix_weight : Graph → ℕ → List Vertex → ℕ → ℕ
prefix_weight g total (v ∷ u ∷ path) (suc i) =
    prefix_weight g ((total + edge_weight g v u) % 2 ^ 64) (u ∷ path) i
prefix_weight g total path i = total

pub record Candidate : Type 0 where
  pub path : List Vertex
  pub w : ℕ

unfoldable pub compare_path_seq : List Vertex → List Vertex → Ordering
compare_path_seq [] [] = Ordering.eq
compare_path_seq [] (v ∷ b) = Ordering.lt
compare_path_seq (u ∷ a) [] = Ordering.gt
compare_path_seq (u ∷ a) (v ∷ b) = elim (compare u v) [
  | Ordering.eq ↦ compare_path_seq a b
  | Ordering.lt ↦ Ordering.lt
  | Ordering.gt ↦ Ordering.gt
]

unfoldable pub less_candidate : Candidate → Candidate → Bool
less_candidate a b = if a.w == b.w then is_lt (compare_path_seq a.path b.path) else ltb a.w b.w

unfoldable pub path_seq_key : List Vertex → String
path_seq_key [] = ""
path_seq_key (v ∷ path) = append_string v (append_string "\0" (path_seq_key path))

pub data Exhausted : Type 0 where
  exhausted : Exhausted

-- `edgeKey(p[i], p[i+1])`, of the path from its vertex `i` on.
abbrev pub key_at : List Vertex → Outcome Exhausted (List String)
key_at (u ∷ v ∷ path) = ok (edge_key u v ∷ [])
key_at path = panic

unfoldable pub removed_edge : ℕ → List Vertex → List Vertex → Outcome Exhausted (List String)
removed_edge i root p =
    if ltb i (length p) && is_eq (compare_path_seq (take (suc i) p) root)
    then key_at (drop i p)
    else ok []

unfoldable pub removed_edges :
    ℕ → List Vertex → List (List Vertex) → Outcome Exhausted (List String)
removed_edges i root [] = ok []
removed_edges i root (p ∷ result) =
    removed_edge i root p >>= λ keys. removed_edges i root result >>= λ rest. ok (keys ++ rest)

pub record Pending : Type 0 where
  pub candidates : List Candidate
  pub cand_seen : List String

abbrev pub is_nil : List Vertex → Bool
is_nil [] = true
is_nil (v ∷ path) = false

-- What the spur path and its weight add.
unfoldable pub add_spur :
    Graph → List Vertex → List String → ℕ → List Vertex × ℕ → Pending → Pending
add_spur g prev_path chosen i spur s =
    if is_nil spur.0 || leb max_w spur.1
    then s
    else (let total = take i prev_path ++ spur.0 in
        let key = path_seq_key total in
        if contains key chosen || contains key s.cand_seen then s else record {
          candidates =
              s.candidates
              ++ (record { path = total; w = (prefix_weight g 0 prev_path i + spur.1) % 2 ^ 64 }
                  ∷ []);
          cand_seen = key ∷ s.cand_seen;
        })

abbrev pub or_exhausted {ℓ} : {A : Type ℓ} → Option A → Outcome Exhausted A
or_exhausted none = err exhausted
or_exhausted (some a) = ok a

unfoldable pub spur_node : ℕ → List Vertex → Outcome Exhausted Vertex
spur_node i prev_path = elim (drop i prev_path) [ [] ↦ panic | v ∷ rest ↦ ok v ]

-- The index and the value of the best candidate; `j` is the index of the first of the list.
unfoldable pub best_candidate : ℕ → ℕ × Candidate → List Candidate → ℕ × Candidate
best_candidate j best [] = best
best_candidate j best (c ∷ cs) =
    best_candidate (suc j) (if less_candidate c best.1 then (j, c) else best) cs

module _ (g : Graph) (dst : Vertex) where
  unfoldable pub spur_at :
      List Vertex → List (List Vertex) → List String → ℕ → Pending → Outcome Exhausted Pending
  spur_at prev_path result chosen i s = spur_node i prev_path >>= λ node.
      removed_edges i (take (suc i) prev_path) result >>= λ removed_e.
      or_exhausted (dijkstra g node dst (take i prev_path) removed_e) >>= λ spur.
      ok (add_spur g prev_path chosen i spur s)

  -- `n` spur nodes from the vertex `i` on.
  unfoldable pub spurs :
      ℕ → List Vertex → List (List Vertex) → List String → ℕ → Pending → Outcome Exhausted Pending
  spurs zero prev_path result chosen i s = ok s
  spurs (suc n) prev_path result chosen i s =
      spur_at prev_path result chosen i s >>= λ t. spurs n prev_path result chosen (suc i) t

  unfoldable pub k_rounds :
      ℕ
      → List Vertex
      → List (List Vertex)
      → List String
      → Pending
      → Outcome Exhausted (List (List Vertex))
  k_rounds zero prev_path result chosen s = ok result
  k_rounds (suc n) prev_path result chosen s =
      spurs (length prev_path - 1) prev_path result chosen 0 s >>= λ t. elim t.candidates [
        | [] ↦ ok result
        | c ∷ cs ↦
            let best = best_candidate 1 (0, c) cs in
            let key = path_seq_key best.1.path in
            k_rounds n best.1.path (result ++ (best.1.path ∷ [])) (key ∷ chosen) (record {
              candidates = take best.0 (c ∷ cs) ++ drop (suc best.0) (c ∷ cs);
              cand_seen = delete_func (λ (k : String). k =? key) t.cand_seen;
            })
      ]

unfoldable pub k_shortest : Graph → Vertex → Vertex → ℕ → Outcome Exhausted (List (List Vertex))
k_shortest g src dst k =
    if (k == 0) || (src =? dst)
    then ok []
    else (or_exhausted (dijkstra g src dst [] []) >>= λ first.
        if is_nil first.0 || leb max_w first.1
        then ok []
        else k_rounds g dst (k - 1) first.0 (first.0 ∷ []) (path_seq_key first.0 ∷ [])
            (record { candidates = []; cand_seen = [] }))

unfoldable pub compress_path : List Vertex → List Hop
compress_path [] = []
compress_path (v ∷ path) =
    let parsed = parse_v v in
    let hops = compress_path path in
    if (parsed.node =? "") || parsed.is_core
    then hops
    else record { node = parsed.node; ingress = parsed.ingress_id } ∷ hops

abbrev pub same_pair : RoutePair → RoutePair → Bool
same_pair p q = (p.src =? q.src) && (p.dst =? q.dst)

pub same_pair_iff : (p q : RoutePair) → (same_pair p q ≡ true) ↔ (p ≡ q)
same_pair_iff p q = ground (arith, string_eq.beq_iff p.src q.src, string_eq.beq_iff p.dst q.dst)

instance abbrev pub route_pair_eq : Eq RoutePair
route_pair_eq = record { beq = same_pair; beq_iff = same_pair_iff }

-- A pair without a path is left out.
abbrev pub with_paths : String → String → List (List Vertex) → Baseline → Baseline
with_paths a b [] out = out
with_paths a b (p ∷ paths) out =
    insert (record { src = a; dst = b }) (compress_path p ∷ map compress_path paths) out

unfoldable pub routes_to : Graph → ℕ → String → List String → Baseline → Outcome Exhausted Baseline
routes_to g k a [] out = ok out
routes_to g k a (b ∷ bs) out =
    (if a =? b then ok [] else k_shortest g (core_v a) (core_v b) k) >>= λ paths.
    routes_to g k a bs (with_paths a b paths out)

unfoldable pub routes_from :
    Graph → ℕ → List String → List String → Baseline → Outcome Exhausted Baseline
routes_from g k transits [] out = ok out
routes_from g k transits (a ∷ others) out =
    routes_to g k a transits out >>= λ more. routes_from g k transits others more

unfoldable pub baseline_routes : List PrunedEdge → List String → ℕ → Outcome Exhausted Baseline
baseline_routes pruned_edges transits k =
    routes_from (build_split_graph pruned_edges) k transits transits []
