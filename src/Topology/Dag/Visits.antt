-- ===== src/Topology/Dag/Visits.antt =====
-- The visits of internal/controller/topology/dag.go: what a search leaves behind.
use Prim.Native.String.{String}
use mathlib.Core.List.{Memᴰ}
use corelink.Prelude.{
  ℕ, zero, suc, ◌+◌, ◌≤◌, ◌≡◌, ◌≢◌, refl, sym, subst, ◌∙◌, ◌⊎◌, inl, inr, List, [], ◌∷◌, length,
  none, some, arith,
}
use corelink.Prelude.Assoc.{lookup, insert, lookup-insert, string_eq}
use corelink.Topology.Dag.{
  Graph, Color, white, gray, black, Colors, Parents, color_of, succs, vertices, Search, found,
  clear, exhausted, and_then, trace, scan_succs, dfs_find_cycle,
}
use corelink.Topology.Dag.Paths.{Edge, IsPath, EndsAt, IsCycle}
use corelink.Topology.Dag.Colors.{
  IsLinked, IsLinked-insert, Inv, push-Inv, pop-Inv, string_cases, color_of-insert_self,
  black_after, black_kept, whites-insert_lt,
}

pub Color-cases : (c : Color) → (c ≡ white) ⊎ (c ≡ gray) ⊎ (c ≡ black)
Color-cases white = inl refl
Color-cases gray = inr (inl refl)
Color-cases black = inr (inr refl)

trace-up :
    (n : ℕ) (parent : Parents) (target cur w : String) (path : List String)
    → cur ≢ target
    → lookup cur parent ≡ some w
    → trace (suc n) parent target cur path ≡ trace n parent target w (w ∷ path)
unfolding trace
trace-up n parent target cur w path q e = ground (arith, string_eq.beq_iff cur target, e)

trace_lem :
    (g : Graph) (n : ℕ) (parent : Parents) (target cur : String) (rest tl : List String)
    → IsLinked g parent (cur ∷ rest)
    → Memᴰ target (cur ∷ rest)
    → length (cur ∷ rest) ≤ n
    → IsPath g (cur ∷ tl)
    → EndsAt target (cur ∷ tl)
    → 2 ≤ length (cur ∷ tl)
    → (l : List String) × (trace n parent target cur (cur ∷ tl) ≡ some l) × IsCycle g l
unfolding trace
trace_lem g zero parent target cur rest tl k m h p e long = absurd (omega arith)
trace_lem g (suc n) parent target cur [] tl k m h p e long = elim (string_cases cur target) [
  | inl q ↦ (
    cur ∷ tl,
    rw (trace, (string_eq.beq_iff cur target).1 q),
    record { at = target; along = p; starts = q; ends = e; long = long },
  )
  | inr q ↦ absurd (elim m [ Memᴰ.head r ↦ q (sym r) | Memᴰ.tail r ↦ elim r [ ] ])
]
trace_lem g (suc n) parent target cur (w ∷ rest) tl (up, d, k) m h p e long =
    elim (string_cases cur target) [
      | inl q ↦ (
        cur ∷ tl,
        rw (trace, (string_eq.beq_iff cur target).1 q),
        record { at = target; along = p; starts = q; ends = e; long = long },
      )
      | inr q ↦
          let again : Memᴰ target (w ∷ rest) = elim m [
            | Memᴰ.head r ↦ absurd (q (sym r))
            | Memᴰ.tail r ↦ r
          ] in
          let (l, eq, c) =
            trace_lem g n parent target w rest (cur ∷ tl) k again (omega arith) (d, p) e
              (omega arith) in
          (l, trace-up n parent target cur w (cur ∷ tl) q up ∙ eq, c)
    ]

module _ (g : Graph) (size : ℕ) where
  -- What a search from a color `before`, on a path, leaves: the vertices `over` are black, or a cycle.
  abbrev pub Good : Colors → List String → List String → Search → Type 0
  Good before path over (clear c p) =
      Inv g size p c path
      × ((v : String) → Memᴰ v over → color_of c v ≡ black)
      × ((v : String) → color_of before v ≡ black → color_of c v ≡ black)
  Good before path over (found none) = ⊥
  Good before path over (found (some l)) = IsCycle g l
  Good before path over exhausted = ⊥

  pub and_then-Good :
      (b b' : Colors) (path path' over over' : List String) (r : Search)
      (k : Colors → Parents → Search)
      → Good b path over r
      → ((c : Colors) (p : Parents) → Good b path over (clear c p) → Good b' path' over' (k c p))
      → Good b' path' over' (and_then r k)
  and_then-Good b b' path path' over over' (found none) k h f = h
  and_then-Good b b' path path' over over' (found (some l)) k h f = h
  and_then-Good b b' path path' over over' (clear c p) k h f = f c p h
  and_then-Good b b' path path' over over' exhausted k h f = h

  pub Good-cons :
      (b b' : Colors) (s : String) (ss path : List String) (r : Search)
      → ((v : String) → color_of b v ≡ black → color_of b' v ≡ black)
      → color_of b' s ≡ black
      → Good b' path ss r
      → Good b path (s ∷ ss) r
  Good-cons b b' s ss path (found none) k e h = h
  Good-cons b b' s ss path (found (some l)) k e h = h
  Good-cons b b' s ss path exhausted k e h = h
  Good-cons b b' s ss path (clear c p) k e (i, over, kept) = (
    i,
    λ v m. elim m [
      | Memᴰ.head q ↦ subst (λ x. color_of c x ≡ black) (sym q) (kept s e)
      | Memᴰ.tail q ↦ over v q
    ],
    λ v x. kept v (k v x),
  )

  Inv-parent :
      (p : Parents) (c : Colors) (node s : String) (path : List String)
      → Inv g size p c path
      → color_of c s ≡ white
      → Inv g size (insert s node p) c path
  Inv-parent p c node s path h e = record {
    gray_on = h.gray_on;
    on_gray = h.on_gray;
    linked = IsLinked-insert g p s node path (λ m. absurd (cc (e, h.on_gray s m))) h.linked;
    closed = h.closed;
    acyclic = h.acyclic;
    room = h.room;
  }

  -- `visit` meets its promise for the white successors of the first vertex of a path.
  abbrev pub Visits : List String → (String → Colors → Parents → Search) → Type 0
  Visits path visit =
      (s : String) (c : Colors) (p : Parents)
      → Inv g size p c path
      → color_of c s ≡ white
      → IsLinked g p (s ∷ path)
      → Memᴰ s (vertices g)
      → Good c path (s ∷ []) (visit s c p)

  back_edge :
      (before : Colors) (visit : String → Colors → Parents → Search) (node s : String)
      (rest ss over : List String) (c : Colors) (p : Parents)
      → Inv g size p c (node ∷ rest)
      → color_of c s ≡ gray
      → Edge g node s
      → Good before (node ∷ rest) over (scan_succs size visit node (s ∷ ss) c p)
  unfolding scan_succs
  back_edge before visit node s rest ss over c p h e d =
      let room = h.room in
      let (l, eq, cyc) =
        trace_lem g size p s node rest (s ∷ []) h.linked (h.gray_on s e) (omega arith) (d, tt) refl
          (omega arith) in
      rw (scan_succs, e, eq) cyc

  scan-Good :
      (visit : String → Colors → Parents → Search) (node : String) (rest : List String)
      → Visits (node ∷ rest) visit
      → (ss : List String) (c : Colors) (p : Parents) → Inv g size p c (node ∷ rest)
      → ((s : String) → Memᴰ s ss → Edge g node s)
      → ((s : String) → Edge g node s → Memᴰ s (vertices g))
      → Good c (node ∷ rest) ss (scan_succs size visit node ss c p)
  unfolding scan_succs
  scan-Good visit node rest ok [] c p h sub m = (h, λ v x. elim x [ ], λ v x. x)
  scan-Good visit node rest ok (s ∷ ss) c p h sub m =
      let next = λ (c' : Colors) (p' : Parents) (i : Inv g size p' c' (node ∷ rest)).
        scan-Good visit node rest ok ss c' p' i (λ x y. sub x (Memᴰ.tail y)) m in
      elim (Color-cases (color_of c s)) [
        | inl e ↦
            rw (scan_succs, e)
              (and_then-Good c c (node ∷ rest) (node ∷ rest) (s ∷ []) (s ∷ ss)
                (visit s c (insert s node p)) (scan_succs size visit node ss)
                (ok s c (insert s node p) (Inv-parent p c node s (node ∷ rest) h e) e
                  (
                    ground (arith, lookup-insert s s node p, string_eq.beq_iff s s),
                    sub s (Memᴰ.head refl),
                    (Inv-parent p c node s (node ∷ rest) h e).linked,
                  )
                  (m s (sub s (Memᴰ.head refl))))
                (λ c' p' (i, b, k).
                  Good-cons c c' s ss (node ∷ rest) _ k (b s (Memᴰ.head refl)) (next c' p' i)))
        | inr (inl e) ↦ back_edge c visit node s rest ss (s ∷ ss) c p h e (sub s (Memᴰ.head refl))
        | inr (inr e) ↦
            rw (scan_succs, e) (Good-cons c c s ss (node ∷ rest) _ (λ v x. x) e (next c p h))
      ]

  pub dfs-Good :
      (n : ℕ) (node : String) (c : Colors) (p : Parents) (path : List String)
      → ((u v : String) → Edge g u v → Memᴰ v (vertices g))
      → size ≤ n + length path
      → Inv g size p c path
      → color_of c node ≡ white
      → IsLinked g p (node ∷ path)
      → Memᴰ node (vertices g)
      → Good c path (node ∷ []) (dfs_find_cycle n size g node c p)
  unfolding dfs_find_cycle
  dfs-Good zero node c p path m room h w l mem =
      let k = whites-insert_lt c node (vertices g) mem w in let r = h.room in absurd (omega arith)
  dfs-Good (suc n) node c p path m room h w l mem =
      let start = push-Inv g size p c path node h w l mem in
      let visit : Visits (node ∷ path) (dfs_find_cycle n size g) =
        λ s c' p' i e k x. dfs-Good n s c' p' (node ∷ path) m (omega arith) i e k x in
      and_then-Good (insert node gray c) c (node ∷ path) path (succs g node) (node ∷ []) _ _
        (scan-Good (dfs_find_cycle n size g) node path visit (succs g node) (insert node gray c) p
          start (λ s x. x) (m node))
        (λ c' p' (i, over, kept). (
          pop-Inv g size p' c' path node i (λ x. absurd (cc (w, h.on_gray node x))) over,
          λ v x. elim x [
            | Memᴰ.head q ↦ rw q (color_of-insert_self c' node black)
            | Memᴰ.tail q ↦ elim q [ ]
          ],
          λ v b. black_after c' node v (kept v (black_kept c node v w b)),
        ))
