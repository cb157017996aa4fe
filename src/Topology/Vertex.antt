-- ===== src/Topology/Vertex.antt =====
-- internal/controller/topology/graph.go: the vertices of the split graph as strings, and how they are
-- read back. `strings.Split` by the one-character separator is written out.
pub mod Parsing
use Prim.Native.Char.{Char, code}
use Prim.Native.String.{String, ◌++◌ as append_string}
use corelink.Prelude.{ℕ, Bool, true, false, not, ◌&&◌, List, [], ◌∷◌, ◌==◌, if◌then◌else◌}
use corelink.Prelude.Assoc.{◌=?◌, string_eq}

abbrev pub Vertex : Type 0
Vertex = String

abbrev pub sep : String
sep = "\u{1f}"

abbrev pub core_token : String
core_token = "core"

abbrev pub ing_token : String
ing_token = "i"

unfoldable pub core_v : String → Vertex
core_v node = append_string node (append_string sep core_token)

unfoldable pub ing_v : String → String → Vertex
ing_v node ingress_id =
    append_string node (append_string sep (append_string ing_token (append_string sep ingress_id)))

abbrev pub is_sep : Char → Bool
is_sep c = code c == 31

-- The character before the first part.
abbrev pub onto_first : Char → List String → List String
onto_first c [] = String.◌∷◌ c "" ∷ []
onto_first c (part ∷ parts) = String.◌∷◌ c part ∷ parts

unfoldable pub split : String → List String
split String.[] = "" ∷ []
split (String.◌∷◌ c s) = let parts = split s in if is_sep c then "" ∷ parts else onto_first c parts

pub record Parsed : Type 0 where
  pub node : String
  pub ingress_id : String
  pub is_core : Bool

abbrev pub invalid : Parsed
invalid = record { node = ""; ingress_id = ""; is_core = false }

unfoldable pub parse_parts : List String → Parsed
parse_parts (node ∷ token ∷ []) =
    if (token =? core_token) && not (node =? "")
    then record { node = node; ingress_id = ""; is_core = true }
    else invalid
parse_parts (node ∷ token ∷ ingress_id ∷ []) =
    if (token =? ing_token) && not (node =? "")
    then record { node = node; ingress_id = ingress_id; is_core = false }
    else invalid
parse_parts other = invalid

unfoldable pub parse_v : Vertex → Parsed
parse_v v = parse_parts (split v)
