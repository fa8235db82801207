-- ===== src/Agent/Act.antt =====
-- The node "act" of src/andera/agent/nodes.py: one step of the plan, by the browser's tools.
pub mod Handlers
pub mod Frame
pub mod Finish
pub mod Stay
use browser_agent.Common.{
  ℕ, zero, suc, ◌+◌, String, Bool, true, false, ◌||◌, Option, none, some, List, [], ◌∷◌, ◌++◌,
  str_eq, if◌then◌else◌, get_elem?,
}
use browser_agent.Json.{Json, null, obj, Fields, field, end, get, truthy}
use browser_agent.Agent.Effect.{Failure, bad_step, unknown_action, Result, ok, raised, Eff}
use browser_agent.Agent.Step.{Step, action_step, bad, Action, Descriptor, text_or, text_at}
use browser_agent.Agent.Observations.{Observation, full, compact_observations}
use browser_agent.Agent.Tools.{ToolResult, is_ok, no_output}
use browser_agent.Agent.State.{State, Deps, append, verifying, extracting, failed}
use Handlers.{Acted, result, finished, unknown, tool_error, handle}

-- `plan[i] = …`, the write of `step["resolved"]` into the list that the state holds.
pub write_step : ℕ → Step → List Step → List Step
write_step i v [] = []
write_step zero v (s ∷ plan) = v ∷ plan
write_step (suc i) v (s ∷ plan) = s ∷ write_step i v plan

abbrev pub resolve_step : ℕ → Action → Option Descriptor → List Step → List Step
resolve_step i step none plan = plan
resolve_step i step (some d) plan =
    write_step i (action_step (record step { resolved = some d })) plan

abbrev pub action_of : Action → String
action_of step = text_or (text_at "action" step.given) ""

-- The observation that a result adds, with the key under which its data stands.
pub observed : String → ToolResult → Option Observation
observed action r =
    if str_eq action "visit_each_link"
    then (if truthy (get "visited" r.output.fields)
        then some (full "extract" (field "visited" (get "visited" r.output.fields) end))
        else none)
    else if str_eq action "search"
    then some (full "extract" (field "search" (obj r.output.fields) end))
    else if str_eq action "extract"
    then some (full "extract" r.output.fields)
    else none

-- The artifacts that a result adds to the evidence.
pub evidence_in : String → ToolResult → List Json
evidence_in action r =
    if str_eq action "screenshot"
      || (str_eq action "screenshot_all" || str_eq action "visit_each_link")
    then r.output.artifacts
    else []

abbrev pub with_observation : Option Observation → List Observation → List Observation
with_observation none observations = observations
with_observation (some o) observations = compact_observations (observations ++ o ∷ [])

-- The state after a tool's result.
unfoldable pub record_result : State → Action → ToolResult → Option Descriptor → State
unfolding observed evidence_in write_step
record_result s step r written =
    let s' = record s {
      plan = resolve_step s.step_index step written s.plan;
      tool_calls = append s.tool_calls (r ∷ []);
      status = verifying;
    } in
    if is_ok r
    then (record s' {
      evidence = append s.evidence (evidence_in (action_of step) r);
      observations = with_observation (observed (action_of step) r) s.observations;
    })
    else (record s' { consecutive_fails = s.consecutive_fails + 1; last_tool_error = r.error })

-- A step that is no JSON object.
abbrev pub reject_step : State → State
reject_step s = record s {
  status = verifying;
  last_tool_error = some bad_step;
  consecutive_fails = s.consecutive_fails + 1;
  tool_calls = append s.tool_calls (tool_error "agent.bad_step" bad_step ∷ []);
}

unfoldable pub after_action : State → Action → Acted → State
unfolding record_result
after_action s step (result r written) = record_result s step r written
after_action s step finished = record s { status = extracting }
after_action s step (unknown action) = record s {
  status = failed;
  error = some (unknown_action action);
}

unfoldable pub act_node : {W : Type 0} → Deps W → State → Eff W State
unfolding after_action handle
act_node deps s w = elim (get_elem? s.plan s.step_index) [
  | none ↦ (ok (record s { status = extracting }), w)
  | some (bad v) ↦ (ok (reject_step s), w)
  | some (action_step step) ↦
      let (r, w') = handle deps s.step_index step s.extract_schema s.observations w in
      elim r [ raised e ↦ (raised e, w') | ok acted ↦ (ok (after_action s step acted), w') ]
]
