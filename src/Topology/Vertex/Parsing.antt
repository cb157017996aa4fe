-- ===== src/Topology/Vertex/Parsing.antt =====
-- Vertices of internal/controller/topology/graph.go are read back as they were written.
use Prim.Native.String.{String, ◌++◌ as append_string}
use text.Mathlib.TextLemmas.{cons-append, nil-append}
use corelink.Prelude.{◌≡◌, ◌≢◌, refl, ap, ◌∙◌, true, false, [], ◌∷◌, arith}
use corelink.Prelude.Assoc.{◌=?◌, string_eq}
use corelink.Topology.Vertex.{
  sep, core_token, ing_token, core_v, ing_v, is_sep, split, parse_parts, parse_v,
}

-- No separator stands in the text.
abbrev pub IsPlain : String → Type 0
IsPlain String.[] = Unit {0}
IsPlain (String.◌∷◌ c s) = (is_sep c ≡ false) × IsPlain s

split-plain : (s : String) → IsPlain s → split s ≡ s ∷ []
unfolding split
split-plain String.[] p = refl
split-plain (String.◌∷◌ c s) p = rw (split, p.0, split-plain s p.1) refl

split-append :
    (s rest : String)
    → IsPlain s
    → split (append_string s (append_string sep rest)) ≡ s ∷ split rest
unfolding split
split-append String.[] rest p =
    let e : append_string "" (append_string sep rest) ≡ String.◌∷◌ "\u{1f}" rest =
      nil-append _ ∙ cons-append "\u{1f}" "" rest ∙ ap (String.◌∷◌ "\u{1f}") (nil-append rest) in
    rw e refl
split-append (String.◌∷◌ c s) rest p =
    rw (cons-append c s (append_string sep rest)) (rw (split, p.0, split-append s rest p.1) refl)

-- A vertex of a node whose name is not empty and has no separator is read back as that node: its core
-- as a core, and its entry as the entry of that name, if that has no separator.
pub parse_v-inverts :
    (node ingress_id : String)
    → node ≢ ""
    → IsPlain node
    → IsPlain ingress_id
    → (parse_v (core_v node) ≡ record { node = node; ingress_id = ""; is_core = true })
      × (parse_v (ing_v node ingress_id)
          ≡ record { node = node; ingress_id = ingress_id; is_core = false })
unfolding parse_v core_v ing_v parse_parts
parse_v-inverts node ingress_id some_node p q =
    let named : (node =? "") ≡ false = ground (arith, string_eq.beq_iff node "", some_node) in
    let core_parts : split (core_v node) ≡ node ∷ core_token ∷ [] =
      split-append node core_token p
      ∙ ap (◌∷◌ node) (split-plain core_token (refl, (refl, (refl, (refl, tt))))) in
    let ing_parts : split (ing_v node ingress_id) ≡ node ∷ ing_token ∷ ingress_id ∷ [] =
      split-append node _ p
      ∙ ap (◌∷◌ node) (
          split-append ing_token ingress_id (refl, tt)
          ∙ ap (◌∷◌ ing_token) (split-plain ingress_id q)) in
    (rw (core_parts, named) refl, rw (ing_parts, named) refl)
