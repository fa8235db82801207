-- ===== src/Agent/Observations.antt =====
-- `compact_observations` and `_one_line` of src/andera/agent/state.py.
pub mod Compaction
use browser_agent.Common.{
  ℕ, zero, suc, ◌+◌, ◌-◌, ◌≤◌, String, ◌≡◌, refl, ap, Bool, true, false, not, Option, none, some,
  List, [], ◌∷◌, ◌++◌, map, arith, str_eq, eq_iff, str_eq_refl, leb, ◌==◌, ◌&&◌, if◌then◌else◌,
  keep_if, length, length-append, length-map, length-take, length-drop, take, drop,
  take-append-drop, All,
}
use browser_agent.Json.{Json, null, Fields, end, get, or_else, str, size, keys}

-- OBSERVATION_WINDOW
abbrev pub observation_window : ℕ
observation_window = 5

-- The kind of an entry: what a node gave it, with ".abstract" added so many times.
pub record Kind : Type 0 where
  pub base : String
  pub abstracts : ℕ

-- The line that `_one_line` prints: a constructor for each of its format strings.
pub data Line : Type 0 where
  -- "snapshot: {title} @ {url}"
  snapshot_line : Json → Json → Line
  -- "extract: fields={keys}"
  fields_line : List String → Line
  -- "{kind}: <{n} keys>"
  keys_line : Kind → ℕ → Line

-- An entry of `observations`: with its data, or as the abstract of an older one.
pub data Observation : Type 0 where
  full : String → Fields → Observation
  abstracted : Kind → Line → Observation

-- `obs.get("kind")`
abbrev pub kind_of : Observation → Kind
kind_of (full k d) = record { base = k; abstracts = 0 }
kind_of (abstracted k l) = k

-- `obs.get("data") or {}`
abbrev pub data_of : Observation → Fields
data_of (full k d) = d
data_of (abstracted k l) = end

abbrev pub is_kind : String → Observation → Bool
is_kind s (full k d) = str_eq k s
is_kind s (abstracted k l) = false

abbrev pub is_extract : Observation → Bool
is_extract = is_kind "extract"

abbrev pub is_other : Observation → Bool
is_other o = not (is_extract o)

abbrev pub is_full : Observation → Bool
is_full (full k d) = true
is_full (abstracted k l) = false

-- `_one_line`
abbrev pub one_line : Kind → Fields → Line
one_line k d =
    if k.abstracts == 0 && str_eq k.base "snapshot"
    then snapshot_line (or_else (get "title" d) (str "?")) (or_else (get "url" d) (str "?"))
    else if k.abstracts == 0 && str_eq k.base "extract"
    then fields_line (take 5 (keys d))
    else keys_line k (size d)

-- `f"{kind}.abstract"`
abbrev pub again : Kind → Kind
again k = record k { abstracts = k.abstracts + 1 }

abbrev pub abstract : Observation → Observation
abstract o = abstracted (again (kind_of o)) (one_line (kind_of o) (data_of o))

-- What becomes of the entries that are no extracts.
pub compact_others : List Observation → List Observation
compact_others others =
    let older = length others - observation_window in
    if leb (length others) observation_window
    then others
    else map abstract (take older others) ++ drop older others

pub compact_observations : List Observation → List Observation
unfolding compact_others
compact_observations observations =
    keep_if is_extract observations ++ compact_others (keep_if is_other observations)
