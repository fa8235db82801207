-- ===== src/Agent/Verify.antt =====
-- The nodes "observe" and "verify" of src/andera/agent/nodes.py.
pub mod Frame
use browser_agent.Common.{
  ℕ, suc, ◌+◌, String, Bool, true, false, not, ◌||◌, ◌&&◌, Option, none, some, List, [], ◌∷◌, ◌++◌,
  str_eq, leb, any_of, if◌then◌else◌, get_elem?,
}
use mathlib.Core.List.{reverse}
use browser_agent.Json.{Json, null, obj, Fields, end, get, truthy}
use browser_agent.Agent.Effect.{exception, reflection_cap_reached, Result, ok, raised, Eff}
use browser_agent.Agent.Step.{Step, action_step, bad, Action}
use browser_agent.Agent.Observations.{Observation, full, compact_observations}
use browser_agent.Agent.Tools
use browser_agent.Agent.Tools.{ToolResult, is_ok}
use browser_agent.Agent.Plan.{reflect_max, replan_after_consecutive_fails, latest_snapshot}
use browser_agent.Agent.Act.{action_of}
use browser_agent.Agent.State.{State, Deps, Reply, VerifyPrompt, Status, acting, replanning, failed}

-- NON_DOM_CHANGING_ACTIONS
abbrev pub non_dom_changing_actions : List String
non_dom_changing_actions =
    "screenshot" ∷ "screenshot_all" ∷ "visit_each_link" ∷ "scroll" ∷ "scroll_to" ∷ "extract"
    ∷ "search" ∷ "annotate" ∷ []

pub non_dom_changing : String → Bool
non_dom_changing action = any_of (str_eq action) non_dom_changing_actions

unfoldable pub observe_node : {W : Type 0} → Deps W → State → Eff W State
observe_node deps s w =
    let (snap, w') = Tools.snapshot deps.browser w in
    if is_ok snap
    then (
      ok (record s {
        observations =
            compact_observations (s.observations ++ full "snapshot" snap.output.fields ∷ []);
      }),
      w',
    )
    else (ok (record s { status = failed; error = snap.error }), w')

-- The step that is being executed, if it is a dictionary.
abbrev pub current_action : State → Option Action
current_action s = elim (get_elem? s.plan s.step_index) [
  | some (action_step step) ↦ some step
  | _ ↦ none
]

abbrev pub is_some {ℓ} : {A : Type ℓ} → Option A → Bool
is_some none = false
is_some (some a) = true

-- The fast path applies to the action of the current step.
abbrev pub is_fast : Option Action → Bool
is_fast none = false
is_fast (some step) = non_dom_changing (action_of step)

pub step_passed : State → State
step_passed s = record s {
  step_index = s.step_index + 1;
  status = acting;
  consecutive_fails = 0;
  last_tool_error = none;
}

-- A step that did not pass: the budget decides among reflecting, planning anew and failing.
pub step_failed : State → State
step_failed s =
    if leb reflect_max (s.reflect_count + 1)
    then (record s { status = failed; error = some reflection_cap_reached })
    else if leb replan_after_consecutive_fails (s.consecutive_fails + 1)
    then (record s {
      status = replanning;
      reflect_count = s.reflect_count + 1;
      consecutive_fails = 0;
    })
    else (record s {
      reflect_count = s.reflect_count + 1;
      consecutive_fails = s.consecutive_fails + 1;
      status = acting;
    })

-- `bool(v.get("ok"))`, where an answer that is no object does not pass.
abbrev pub says_ok : Reply → Bool
says_ok reply = elim reply.content [
  | raised e ↦ false
  | ok v ↦ elim v [ obj d ↦ truthy (get "ok" d) | _ ↦ false ]
]

abbrev pub last_call : List ToolResult → Option ToolResult
last_call calls = elim (reverse calls) [ [] ↦ none | c ∷ rest ↦ some c ]

-- The navigator's judgement of the step.
pub ask_verifier : {W : Type 0} → Deps W → State → Eff W Bool
ask_verifier deps s w =
    let (r, w') =
      deps.navigator
        (record {
          task_prompt = s.task_prompt;
          current_step = get_elem? s.plan s.step_index;
          last_action = last_call s.tool_calls;
          snapshot = latest_snapshot s.observations;
        })
        w in
    elim r [ raised e ↦ (raised e, w') | ok reply ↦ (ok (says_ok reply), w') ]

-- The node on a current step that is a dictionary, or past the end of the plan.
pub verify_step : {W : Type 0} → Deps W → State → Eff W State
unfolding step_passed step_failed ask_verifier non_dom_changing
verify_step deps s w =
    if is_fast (current_action s) && not (is_some s.last_tool_error)
    then (ok (step_passed s), w)
    else if is_some s.last_tool_error
    then (ok (step_failed s), w)
    else (let (r, w') = ask_verifier deps s w in
        elim r [
          | raised e ↦ (raised e, w')
          | ok passed ↦ (ok (if passed then step_passed s else step_failed s), w')
        ])

-- `current_step.get("action")` comes first: a step that is no dictionary has no `get`.
unfoldable pub verify_node : {W : Type 0} → Deps W → State → Eff W State
unfolding verify_step
verify_node deps s w = elim (get_elem? s.plan s.step_index) [
  | some (bad v) ↦ (raised (exception "AttributeError"), w)
  | _ ↦ verify_step deps s w
]
