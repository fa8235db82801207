-- ===== src/Storage/SafeName.antt =====
-- `_safe_path_component` of src/andera/storage/artifact_store.py. `str.isalnum` is a parameter.
pub mod Contained
use Prim.Native.Char.{Char, code}
use Prim.Native.String.{String}
use Prim.Native.String
use browser_agent.Common.{ℕ, zero, suc, Bool, true, false, ◌||◌, ◌==◌, if◌then◌else◌}

abbrev pub is_dot : Char → Bool
is_dot c = code c == b'.'

abbrev pub is_separator : Char → Bool
is_separator c = (code c == b'/') || (code c == b'\\')

abbrev pub is_dot_or_underscore : Char → Bool
is_dot_or_underscore c = is_dot c || (code c == b'_')

-- `s.replace("/", "_").replace("\\", "_")`
unfoldable pub replace_separators : String → String
replace_separators String.[] = ""
replace_separators (String.◌∷◌ c s) =
    let rest = replace_separators s in String.◌∷◌ (if is_separator c then "_" else c) rest

-- `s.replace("..", "_")`, from the left
unfoldable pub replace_dots : String → String
replace_dots String.[] = ""
replace_dots (String.◌∷◌ c String.[]) = String.◌∷◌ c ""
replace_dots (String.◌∷◌ c (String.◌∷◌ d s)) =
    let both = replace_dots s in
    let next = replace_dots (String.◌∷◌ d s) in
    if is_dot c
    then (if is_dot d then String.◌∷◌ "_" both else String.◌∷◌ c next)
    else String.◌∷◌ c next

-- `s.lstrip("._")` and `s.rstrip("._")`
unfoldable pub strip_left : String → String
strip_left String.[] = ""
strip_left (String.◌∷◌ c s) =
    let rest = strip_left s in if is_dot_or_underscore c then rest else String.◌∷◌ c s

abbrev pub is_empty : String → Bool
is_empty String.[] = true
is_empty (String.◌∷◌ c s) = false

unfoldable pub strip_right : String → String
strip_right String.[] = ""
strip_right (String.◌∷◌ c s) =
    let rest = strip_right s in
    if is_empty rest
    then (if is_dot_or_underscore c then "" else String.◌∷◌ c "")
    else String.◌∷◌ c rest

-- `s[:n]`
unfoldable pub text_take : ℕ → String → String
text_take zero s = ""
text_take (suc n) String.[] = ""
text_take (suc n) (String.◌∷◌ c s) = String.◌∷◌ c (text_take n s)

-- `s or "_"`
abbrev pub or_underscore : String → String
or_underscore s = if is_empty s then "_" else s

module _ (isalnum : Char → Bool) where
  abbrev pub is_kept : Char → Bool
  is_kept c = isalnum c || (is_dot_or_underscore c || (code c == b'-'))

  unfoldable pub replace_others : String → String
  replace_others String.[] = ""
  replace_others (String.◌∷◌ c s) = String.◌∷◌ (if is_kept c then c else "_") (replace_others s)

  unfoldable pub safe_path_component : String → String
  unfolding strip_right strip_left replace_others replace_dots replace_separators text_take
  safe_path_component s = text_take 120 (
      or_underscore
        (strip_right (strip_left (replace_others (replace_dots (replace_separators s))))))
