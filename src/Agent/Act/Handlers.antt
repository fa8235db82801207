-- ===== src/Agent/Act/Handlers.antt =====
-- What the node "act" does for each action, up to the tool's result.
use browser_agent.Common.{
  ℕ, String, Bool, true, ◌&&◌, Option, none, some, List, [], ◌∷◌, str_eq, ltb, if◌then◌else◌,
  get_elem?, length, keep_if, find_first, decimal_02, split_slash, contains,
}
use Prim.Native.String.{◌++◌ as text_append}
use mathlib.Core.List.{reverse}
use browser_agent.Json.{
  ℤ, pos, negsuc, Json, null, Fields, get, is_object, to_list, items_or_empty, truthy,
  fields_or_empty,
}
use browser_agent.Agent.Effect.{
  Failure, exception, no_search_result, no_vision_model, vision_failed, Result, ok, raised, Eff,
}
use browser_agent.Agent.Step.{Action, Descriptor, text_at, or_text, text_or, or_default, int_at}
use browser_agent.Agent.Observations.{Observation, data_of}
use browser_agent.Agent.Tools
use browser_agent.Agent.Tools.{ToolResult, is_ok, Output, no_output, Mark}
use browser_agent.Agent.Descriptor.{match_descriptor, vision_resolve, descriptor_for}
use browser_agent.Agent.State.{Deps}

-- The tool's result with the descriptor that the step now carries, or the action that is over.
pub data Acted : Type 0 where
  result : ToolResult → Option Descriptor → Acted
  finished : Acted
  unknown : String → Acted

-- `step.get("target") or step.get("url") or … or ""`
pub target_of : Fields → String
target_of d =
    text_or
      (or_text (text_at "target" d) (
        or_text (text_at "url" d) (
          or_text (text_at "selector" d) (
            or_text (text_at "text" d)
              (or_text (text_at "name" d) (or_text (text_at "path" d) (some "")))))))
      ""

-- `step.get("folder") or step.get("directory") or step.get("subfolder")`
abbrev pub folder_of : Fields → Option String
folder_of d = or_text (text_at "folder" d) (or_text (text_at "directory" d) (text_at "subfolder" d))

-- A folder that stands in the name, if none is given.
pub folder_and_name : Option String → String → Option String × String
folder_and_name (some folder) name = (some folder, name)
folder_and_name none name = elim (split_slash name) [
  | none ↦ (none, name)
  | some (folder, rest) ↦ (some folder, rest)
]

-- The results of the latest search that had any.
abbrev pub search_results : Observation → List Json
search_results o =
    to_list (items_or_empty (get "results" (fields_or_empty (get "search" (data_of o)))))

abbrev pub has_results : Observation → Bool
has_results o = truthy (get "results" (fields_or_empty (get "search" (data_of o))))

pub latest_results : List Observation → List Json
latest_results observations = elim (find_first has_results (reverse observations)) [
  | none ↦ []
  | some o ↦ search_results o
]

-- `x.get("url") or ""`
abbrev pub url_of : Json → String
url_of v = or_default (text_at "url" (fields_or_empty v)) ""

pub search_candidates : String → List Json → List Json
search_candidates url_filter results =
    if str_eq url_filter ""
    then keep_if is_object results
    else keep_if (λ x. is_object x && contains (url_of x) url_filter) results

-- `candidates[i]` for a Python index below the length, from the end if it is negative; none is an
-- IndexError.
abbrev pub nth : List Json → ℤ → Option Json
nth xs (pos n) = get_elem? xs n
nth xs (negsuc n) = get_elem? (reverse xs) n

-- `i < len(candidates)`
abbrev pub below_length : ℤ → List Json → Bool
below_length (pos n) xs = ltb n (length xs)
below_length (negsuc n) xs = true

abbrev pub tool_error : String → Failure → ToolResult
tool_error name e = record { tool_name = name; output = no_output; error = some e }

-- `f"step_{idx:02d}{suffix}"`
abbrev pub step_name : ℕ → String → String
step_name idx suffix = text_append "step_" (text_append (decimal_02 idx) suffix)

module _ {W : Type 0} (deps : Deps W) where
  abbrev pub give : ToolResult × W → Result Acted × W
  give (r, w) = (ok (result r none), w)

  unfoldable pub goto_search_result : Fields → List Observation → Eff W Acted
  unfolding latest_results search_candidates
  goto_search_result d observations w =
      let url_filter =
        or_default
          (or_text (text_at "url_filter" d) (or_text (text_at "filter" d) (text_at "target" d)))
          "" in
      let i = int_at "index" (pos 0) d in
      let candidates = search_candidates url_filter (latest_results observations) in
      if below_length i candidates
      then elim (nth candidates i) [
        | none ↦ (raised (exception "IndexError"), w)
        | some chosen ↦ give (Tools.goto deps.browser (url_of chosen) w)
      ]
      else (ok (result (tool_error "agent.goto_search_result" no_search_result) none), w)

  -- The click or the typing on the element that was chosen.
  unfoldable pub act_on_mark : Mark → String → Option Descriptor → Eff W Acted
  act_on_mark chosen typed_value written w =
      let (r, w') =
        if str_eq typed_value ""
        then Tools.click_mark deps.browser chosen.mark_id w
        else Tools.type_mark deps.browser chosen.mark_id typed_value w in
      (ok (result r written), w')

  abbrev pub first_or_null : List Json → Json
  first_or_null [] = null
  first_or_null (x ∷ xs) = x

  -- The element by the model of the role "vision", where the cached descriptor finds none.
  unfoldable pub act_by_vision : String → String → ToolResult → Eff W Acted
  unfolding act_on_mark
  act_by_vision intent typed_value ann w = elim deps.vision [
    | none ↦ (ok (result (tool_error "agent.visual_do" no_vision_model) none), w)
    | some ask ↦
        let marks = ann.output.marks in
        let (r, w') =
          vision_resolve deps.search_re (ask intent (first_or_null ann.output.artifacts) marks)
            marks w in
        elim r [
          | raised e ↦ (ok (result (tool_error "agent.visual_do" (vision_failed e)) none), w')
          | ok (chosen, hint) ↦
              act_on_mark chosen typed_value
                (some (descriptor_for deps.search_re chosen marks hint)) w'
        ]
  ]

  unfoldable pub visual_do : ℕ → Action → Eff W Acted
  unfolding act_by_vision act_on_mark
  visual_do idx step w =
      let intent =
        or_default (or_text (text_at "intent" step.given) (text_at "target" step.given)) "" in
      let typed_value = or_default (text_at "value" step.given) "" in
      let (ann, w') = Tools.annotate deps.browser (step_name idx "_annotated") w in
      if is_ok ann
      then elim (match_descriptor deps.search_re step.resolved ann.output.marks) [
        | some chosen ↦ act_on_mark chosen typed_value none w'
        | none ↦ act_by_vision intent typed_value ann w'
      ]
      else (ok (result ann none), w')

  unfoldable pub screenshot : ℕ → Fields → Eff W Acted
  unfolding folder_and_name target_of
  screenshot idx d w =
      let mode = or_default (text_at "mode" d) "viewport" in
      let named = or_default (some (target_of d)) (step_name idx "") in
      let (folder, name) = folder_and_name (folder_of d) named in
      give (Tools.screenshot deps.browser name mode folder w)

  unfoldable pub screenshot_all : ℕ → Fields → Eff W Acted
  unfolding folder_and_name target_of
  screenshot_all idx d w =
      let named = or_default (some (target_of d)) (step_name idx "_all") in
      let (folder, name) = folder_and_name (folder_of d) named in
      give (Tools.screenshot_all deps.browser name folder w)

  unfoldable pub visit_each_link : Fields → Eff W Acted
  unfolding folder_and_name
  visit_each_link d w =
      let named =
        or_default
          (or_text (text_at "name_template" d) (or_text (text_at "name" d) (text_at "target" d)))
          "item_{i:02d}" in
      let (folder, template) = folder_and_name (folder_of d) named in
      let pattern = or_default (or_text (text_at "url_pattern" d) (text_at "pattern" d)) "/" in
      give
        (Tools.visit_each_link deps.browser pattern (int_at "limit" (pos 10) d) template folder w)

  -- `int(step.get("mark_id", step.get("index", -1)))`
  abbrev pub mark_id_of : Fields → ℤ
  mark_id_of d = int_at "mark_id" (int_at "index" (negsuc 0) d) d

  -- The ladder over `step.get("action")`.
  unfoldable pub handle : ℕ → Action → Fields → List Observation → Eff W Acted
  unfolding screenshot screenshot_all visit_each_link goto_search_result visual_do target_of
  handle idx step schema observations w =
      let d = step.given in
      let action = text_or (text_at "action" d) "" in
      let target = target_of d in
      let value = text_or (text_at "value" d) "" in
      if str_eq action "goto"
      then give (Tools.goto deps.browser target w)
      else if str_eq action "click"
      then give (Tools.click deps.browser target w)
      else if str_eq action "type"
      then give (Tools.type deps.browser target value w)
      else if str_eq action "screenshot"
      then screenshot idx d w
      else if str_eq action "screenshot_all"
      then screenshot_all idx d w
      else if str_eq action "search"
      then give (
          Tools.web_search deps.browser
            (or_default (or_text (text_at "query" d) (text_at "q" d)) target)
            (int_at "limit" (pos 5) d) w)
      else if str_eq action "goto_search_result"
      then goto_search_result d observations w
      else if str_eq action "scroll"
      then give
          (Tools.scroll deps.browser (or_default (or_text (some target) (some value)) "down") w)
      else if str_eq action "scroll_to"
      then give (Tools.scroll_to deps.browser target w)
      else if str_eq action "visit_each_link"
      then visit_each_link d w
      else if str_eq action "visual_do"
      then visual_do idx step w
      else if str_eq action "annotate"
      then give
          (Tools.annotate deps.browser (or_default (some target) (step_name idx "_annotated")) w)
      else if str_eq action "click_mark"
      then give (Tools.click_mark deps.browser (mark_id_of d) w)
      else if str_eq action "type_mark"
      then give (Tools.type_mark deps.browser (mark_id_of d) value w)
      else if str_eq action "extract"
      then give (Tools.extract deps.browser schema w)
      else if str_eq action "done"
      then (ok finished, w)
      else (ok (unknown action), w)
