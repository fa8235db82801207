-- ===== src/Agent/Reply.antt =====
-- How the code reads the text of a model's reply: `_parse_json` of src/andera/agent/nodes.py and
-- `classify_task` of src/andera/agent/classify.py. `str.isspace`, `str.lower` and `json.loads` are parameters.
pub mod Fenced
pub mod Classified
use Prim.Native.Char.{Char, code}
use Prim.Native.String.{String}
use Prim.Native.String
use browser_agent.Common.{
  ℕ, zero, suc, Bool, true, false, ◌&&◌, ◌==◌, ◌≡◌, Option, none, some, List, [], ◌∷◌, str_eq,
  any_of, if◌then◌else◌,
}
use browser_agent.Json.{Json, str, obj, Fields, get}
use browser_agent.Agent.Effect.{Result, ok, raised}

-- What Python does.
pub record Texts : Type 0 where
  pub is_space : Char → Bool
  pub lower : String → String
  pub loads : String → Result Json
  pub tick_shows : is_space "`" ≡ false
  pub letter_shows : is_space "j" ≡ false

abbrev pub is_tick : Char → Bool
is_tick c = code c == b'`'

-- `s + t`
unfoldable pub append : String → String → String
append String.[] t = t
append (String.◌∷◌ c s) t = String.◌∷◌ c (append s t)

-- `s.startswith("```")`, and `s[3:]`
abbrev pub starts_with_fence : String → Bool
starts_with_fence (String.◌∷◌ c (String.◌∷◌ d (String.◌∷◌ e s))) =
    is_tick c && (is_tick d && is_tick e)
starts_with_fence _ = false

abbrev pub past_fence : String → String
past_fence (String.◌∷◌ c (String.◌∷◌ d (String.◌∷◌ e s))) = s
past_fence _ = ""

-- Up to the next "```", or to the end: `s.split("```", 2)[1]` is this of `s[3:]`.
unfoldable pub before_fence : String → String
before_fence String.[] = ""
before_fence (String.◌∷◌ c s) =
    let rest = before_fence s in
    if starts_with_fence (String.◌∷◌ c s) then "" else String.◌∷◌ c rest

abbrev pub has_prefix : String → String → Bool
has_prefix String.[] s = true
has_prefix (String.◌∷◌ c p) String.[] = false
has_prefix (String.◌∷◌ c p) (String.◌∷◌ d s) = (code c == code d) && has_prefix p s

-- `s.split("\n", 1)[1]` if "\n" is in s
unfoldable pub past_newline : String → Option String
past_newline String.[] = none
past_newline (String.◌∷◌ c s) = let rest = past_newline s in if code c == 10 then some s else rest

-- `s[:-3]` if `s.endswith("```")`
unfoldable pub without_fence : String → Option String
without_fence String.[] = none
without_fence (String.◌∷◌ c s) =
    let rest = without_fence s in
    if str_eq (String.◌∷◌ c s) "```"
    then some ""
    else elim rest [ none ↦ none | some r ↦ some (String.◌∷◌ c r) ]

-- Stripping the characters that pass a test.
unfoldable pub lstrip : (Char → Bool) → String → String
lstrip p String.[] = ""
lstrip p (String.◌∷◌ c s) = let rest = lstrip p s in if p c then rest else String.◌∷◌ c s

abbrev pub is_empty : String → Bool
is_empty String.[] = true
is_empty (String.◌∷◌ c s) = false

unfoldable pub rstrip : (Char → Bool) → String → String
rstrip p String.[] = ""
rstrip p (String.◌∷◌ c s) =
    let rest = rstrip p s in
    if is_empty rest then (if p c then "" else String.◌∷◌ c "") else String.◌∷◌ c rest

unfoldable pub strip_by : (Char → Bool) → String → String
unfolding lstrip rstrip
strip_by p s = rstrip p (lstrip p s)

abbrev pub or_text : Option String → String → String
or_text none t = t
or_text (some s) t = s

module _ (texts : Texts) where
  -- Without the line of a tag "json", and without a fence at the end.
  unfoldable pub untagged : String → String
  unfolding past_newline lstrip
  untagged s = if has_prefix "json" (lstrip texts.is_space s) then or_text (past_newline s) s else s

  unfoldable pub trimmed : String → String
  unfolding strip_by without_fence
  trimmed s = elim (without_fence s) [ none ↦ s | some r ↦ strip_by texts.is_space r ]

  -- The body of the test for a fence in `_parse_json`, from the split on.
  unfoldable pub unfenced : String → String
  unfolding untagged trimmed
  unfenced s = trimmed (strip_by texts.is_space (untagged s))

  -- `_parse_json`, past the first `strip`
  abbrev pub read : String → Result Json
  read s = texts.loads (if starts_with_fence s then unfenced (before_fence (past_fence s)) else s)

  unfoldable pub parse_json : String → Result Json
  unfolding unfenced before_fence strip_by
  parse_json text = read (strip_by texts.is_space text)

  -- `_VALID`
  abbrev pub valid : List String
  valid = "extract" ∷ "form_fill" ∷ "list_iter" ∷ "navigate" ∷ "unknown" ∷ []

  -- The text that `classify_task` hands to `json.loads`.
  unfoldable pub classifier_text : String → String
  unfolding strip_by past_newline
  classifier_text content =
      let s = strip_by texts.is_space content in
      let u = strip_by is_tick s in
      if starts_with_fence s
      then (if has_prefix "json" (texts.lower u) then or_text (past_newline u) "" else u)
      else s

  -- `str(parsed.get("task_type", "")).strip().lower()`; the text of a value that is none is no valid type.
  abbrev pub task_type : Json → String
  task_type (obj d) = elim (get "task_type" d) [
    | str s ↦ texts.lower (strip_by texts.is_space s)
    | _ ↦ ""
  ]
  task_type _ = ""

  abbrev pub or_unknown : String → String
  or_unknown t = if any_of (str_eq t) valid then t else "unknown"

  -- From `json.loads` on, whose exception is passed over.
  abbrev pub judged : Result Json → String
  judged (raised e) = "unknown"
  judged (ok parsed) = or_unknown (task_type parsed)

  -- `classify_task`, on what `complete` gives: an exception, or the content of the reply.
  unfoldable pub classify_task : Result (Option String) → String
  unfolding classifier_text
  classify_task (raised e) = "unknown"
  classify_task (ok content) = judged (texts.loads (classifier_text (or_text content "")))
