-- ===== src/Topology/Dag/Colors.antt =====
-- The state of the search of internal/controller/topology/dag.go: the vertices on the path are gray,
-- those that are done are black, and no cycle leads through them.
use Prim.Native.String.{String}
use mathlib.Core.List.{Memᴰ}
use corelink.Prelude.{
  ℕ, ◌+◌, ◌≤◌, ◌<◌, ◌≡◌, ◌≢◌, refl, sym, ap, subst, ◌∙◌, ◌⊎◌, inl, inr, List, [], ◌∷◌, length,
  if◌then◌else◌, some, arith, Bool-cases,
}
use corelink.Prelude.Assoc.{lookup, insert, lookup-insert, ◌=?◌, string_eq}
use corelink.Topology.Dag.{
  Graph, Color, white, gray, black, Colors, Parents, color_of, vertices, whiten,
}
use corelink.Topology.Dag.Paths.{Edge, Walk, edge, onward}

pub color_of-insert :
    (color : Colors) (v w : String) (c : Color)
    → color_of (insert v c color) w ≡ (if v =? w then c else color_of color w)
unfolding color_of
color_of-insert color v w c = ground (arith, lookup-insert v w c color)

pub color_of-whiten : (vs : List String) (w : String) → color_of (whiten vs) w ≡ white
unfolding whiten
color_of-whiten [] w = unfold color_of lookup in refl
color_of-whiten (v ∷ vs) w =
    ground (arith, color_of-insert (whiten vs) v w white, color_of-whiten vs w)

abbrev pub white_one : Color → ℕ
white_one white = 1
white_one _ = 0

-- The vertices of a list that are white.
abbrev pub whites : Colors → List String → ℕ
whites color [] = 0
whites color (v ∷ vs) = white_one (color_of color v) + whites color vs

pub whites_le : (color : Colors) (vs : List String) → whites color vs ≤ length vs
whites_le color [] = omega arith
whites_le color (v ∷ vs) = ground (arith, whites_le color vs)

pub whites-insert :
    (color : Colors) (v : String) (c : Color) (vs : List String)
    → c ≢ white
    → whites (insert v c color) vs ≤ whites color vs
whites-insert color v c [] h = omega arith
whites-insert color v c (w ∷ vs) h =
    ground (arith, color_of-insert color v w c, whites-insert color v c vs)

pub whites-insert_lt :
    (color : Colors) (v : String) (vs : List String)
    → Memᴰ v vs
    → color_of color v ≡ white
    → whites (insert v gray color) vs < whites color vs
whites-insert_lt color v [] m h = elim m [ ]
whites-insert_lt color v (w ∷ vs) (Memᴰ.head e) h =
    ground
      (arith, color_of-insert color v w gray, whites-insert color v gray vs, string_eq.beq_iff v w)
whites-insert_lt color v (w ∷ vs) (Memᴰ.tail m) h =
    ground (arith, color_of-insert color v w gray, whites-insert_lt color v vs m)

pub string_cases : (a b : String) → (a ≡ b) ⊎ (a ≢ b)
string_cases a b = elim (Bool-cases (a =? b)) [
  | inl q ↦ inl ((string_eq.beq_iff a b).0 q)
  | inr q ↦ inr (λ e. ground (arith, string_eq.beq_iff a b))
]

pub color_of-insert_self :
    (color : Colors) (v : String) (c : Color) → color_of (insert v c color) v ≡ c
color_of-insert_self color v c = ground (arith, color_of-insert color v v c, string_eq.beq_iff v v)

pub color_of-insert_ne :
    (color : Colors) (v w : String) (c : Color)
    → v ≢ w
    → color_of (insert v c color) w ≡ color_of color w
color_of-insert_ne color v w c h =
    ground (arith, color_of-insert color v w c, string_eq.beq_iff v w)

pub black_before :
    (color : Colors) (node v : String)
    → color_of (insert node gray color) v ≡ black
    → color_of color v ≡ black
black_before color node v e = elim (string_cases node v) [
  | inl q ↦
      absurd
        (cc (color_of-insert_self color node gray, ap (color_of (insert node gray color)) q, e))
  | inr q ↦ sym (color_of-insert_ne color node v gray q) ∙ e
]

pub black_kept :
    (color : Colors) (node v : String)
    → color_of color node ≡ white
    → color_of color v ≡ black
    → color_of (insert node gray color) v ≡ black
black_kept color node v w b =
    color_of-insert_ne color node v gray (λ q. absurd (cc (w, ap (color_of color) q, b))) ∙ b

pub black_after :
    (color : Colors) (node v : String)
    → color_of color v ≡ black
    → color_of (insert node black color) v ≡ black
black_after color node v b = elim (string_cases node v) [
  | inl q ↦
      subst (λ x. color_of (insert node black color) x ≡ black) q
        (color_of-insert_self color node black)
  | inr q ↦ color_of-insert_ne color node v black q ∙ b
]

-- The path as the parents tell it, from its end.
abbrev pub IsLinked : Graph → Parents → List String → Type 0
IsLinked g parent [] = Unit {0}
IsLinked g parent (u ∷ []) = Unit {0}
IsLinked g parent (u ∷ w ∷ l) = (lookup u parent ≡ some w) × Edge g w u × IsLinked g parent (w ∷ l)

pub IsLinked-insert :
    (g : Graph) (parent : Parents) (s node : String) (l : List String)
    → ¬ Memᴰ s l
    → IsLinked g parent l
    → IsLinked g (insert s node parent) l
IsLinked-insert g parent s node [] out h = tt
IsLinked-insert g parent s node (u ∷ []) out h = tt
IsLinked-insert g parent s node (u ∷ w ∷ l) out (p, e, h) = (
  ground (
    arith,
    lookup-insert s u node parent,
    string_eq.beq_iff s u,
    λ (q : s ≡ u). out (Memᴰ.head q),
  ),
  e,
  IsLinked-insert g parent s node (w ∷ l) (λ m. out (Memᴰ.tail m)) h,
)

pub IsLinked-tail :
    (g : Graph) (parent : Parents) (u : String) (l : List String)
    → IsLinked g parent (u ∷ l)
    → IsLinked g parent l
IsLinked-tail g parent u [] h = tt
IsLinked-tail g parent u (w ∷ l) h = h.2

-- Where all successors of a vertex are black and black is closed, all that it reaches is black.
pub Walk-black :
    (g : Graph) (color : Colors) (u w : String)
    → ((v : String) → Edge g u v → color_of color v ≡ black)
    → ((v x : String) → color_of color v ≡ black → Edge g v x → color_of color x ≡ black)
    → Walk g u w
    → color_of color w ≡ black
Walk-black g color u w first closed (edge e) = first w e
Walk-black g color u w first closed (onward {v} r e) =
    closed v w (Walk-black g color u v first closed r) e

module _ (g : Graph) (size : ℕ) where
  pub record Inv (parent : Parents) (color : Colors) (path : List String) : Type 0 where
    pub gray_on : (v : String) → color_of color v ≡ gray → Memᴰ v path
    pub on_gray : (v : String) → Memᴰ v path → color_of color v ≡ gray
    pub linked : IsLinked g parent path
    pub closed : (u v : String) → color_of color u ≡ black → Edge g u v → color_of color v ≡ black
    pub acyclic : (u : String) → color_of color u ≡ black → ¬ Walk g u u
    pub room : whites color (vertices g) + length path ≤ size

  pub push-Inv :
      (parent : Parents) (color : Colors) (path : List String) (node : String)
      → Inv parent color path
      → color_of color node ≡ white
      → IsLinked g parent (node ∷ path)
      → Memᴰ node (vertices g)
      → Inv parent (insert node gray color) (node ∷ path)
  push-Inv parent color path node h w l m =
      let same = λ (v : String) (q : node ≢ v). color_of-insert_ne color node v gray q in
      let self = color_of-insert_self color node gray in
      let old = black_before color node in
      record {
        gray_on = λ v e. elim (string_cases node v) [
          | inl q ↦ Memᴰ.head (sym q)
          | inr q ↦ Memᴰ.tail (h.gray_on v (sym (same v q) ∙ e))
        ];
        on_gray = λ v e. elim (string_cases node v) [
          | inl q ↦ subst (λ x. color_of (insert node gray color) x ≡ gray) q self
          | inr q ↦
              same v q ∙ elim e [ Memᴰ.head p ↦ absurd (q (sym p)) | Memᴰ.tail p ↦ h.on_gray v p ]
        ];
        linked = l;
        closed = λ u v e d.
            let b = h.closed u v (old u e) d in
            same v (λ q. absurd (cc (ap (color_of color) q, b, w))) ∙ b;
        acyclic = λ u e. h.acyclic u (old u e);
        room =
            let k = whites-insert_lt color node (vertices g) m w in let r = h.room in omega arith;
      }

  pub pop-Inv :
      (parent : Parents) (color : Colors) (path : List String) (node : String)
      → Inv parent color (node ∷ path)
      → ¬ Memᴰ node path
      → ((v : String) → Edge g node v → color_of color v ≡ black)
      → Inv parent (insert node black color) path
  pop-Inv parent color path node h out first =
      let same = λ (v : String) (q : node ≢ v). color_of-insert_ne color node v black q in
      let self = color_of-insert_self color node black in
      let is_black = black_after color node in
      record {
        gray_on = λ v e. elim (string_cases node v) [
          | inl q ↦ absurd (cc (self, ap (color_of (insert node black color)) q, e))
          | inr q ↦ elim (h.gray_on v (sym (same v q) ∙ e)) [
            | Memᴰ.head p ↦ absurd (q (sym p))
            | Memᴰ.tail p ↦ p
          ]
        ];
        on_gray = λ v m.
            same v (λ q. out (subst (λ x. Memᴰ x path) (sym q) m)) ∙ h.on_gray v (Memᴰ.tail m);
        linked = IsLinked-tail g parent node path h.linked;
        closed = λ u v e d. elim (string_cases node u) [
          | inl q ↦ is_black v (first v (subst (λ x. Edge g x v) (sym q) d))
          | inr q ↦ is_black v (h.closed u v (sym (same u q) ∙ e) d)
        ];
        acyclic = λ u e. elim (string_cases node u) [
          | inl q ↦
              subst (λ x. ¬ Walk g x x) q
                (λ r. absurd (
                  cc (
                    h.on_gray node (Memᴰ.head refl),
                    Walk-black g color node node first h.closed r,
                  )))
          | inr q ↦ h.acyclic u (sym (same u q) ∙ e)
        ];
        room =
            let k = whites-insert color node black (vertices g) (λ (q : black ≡ white). cc) in
            let r = h.room in omega arith;
      }
