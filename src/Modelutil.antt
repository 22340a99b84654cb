-- ===== src/Modelutil.antt =====
-- modelutil/modelutil.go: the vendor's bracket group behind a model name.
pub mod Sanitized
use Prim.Native.Char.{Char, code}
use text.Mathlib.TextBridge.{to_list, of_list}
use blind_llm_eyes.Base.{
  String, Bool, false, ◌||◌, ◌==◌, if◌then◌else◌, Option, none, some, List, [], ◌∷◌,
}

abbrev pub is_open : Char → Bool
is_open c = code c == 91

abbrev pub is_close : Char → Bool
is_close c = code c == 93

-- strings.LastIndex(m, "["): what is before the last open bracket, and what is behind it.
unfoldable pub split_last_open : List Char → Option (List Char × List Char)
split_last_open [] = none
split_last_open (c ∷ cs) = elim (split_last_open cs) [
  | some ps ↦ some (c ∷ ps.0, ps.1)
  | none ↦ if is_open c then some ([], cs) else none
]

-- The text in front of its last character, where that is a closing bracket.
unfoldable pub strip_close : List Char → Option (List Char)
strip_close [] = none
strip_close (c ∷ []) = if is_close c then some [] else none
strip_close (c ∷ (d ∷ cs)) = elim (strip_close (d ∷ cs)) [ some r ↦ some (c ∷ r) | none ↦ none ]

-- strings.ContainsAny(inner, "[]")
unfoldable pub contains_bracket : List Char → Bool
contains_bracket [] = false
contains_bracket (c ∷ cs) = is_open c || is_close c || contains_bracket cs

abbrev sanitize_inner : List Char → List Char → Option (List Char) → List Char
sanitize_inner m before none = m
sanitize_inner m before (some inner) = if contains_bracket inner then m else before

unfoldable pub sanitize : List Char → List Char
sanitize m = elim (strip_close m) [
  | none ↦ m
  | some r ↦ elim (split_last_open m) [
    | none ↦ m
    | some ps ↦ sanitize_inner m ps.0 (strip_close ps.1)
  ]
]

unfoldable pub sanitize_model : String → String
sanitize_model m = of_list (sanitize (to_list m))
