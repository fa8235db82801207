-- ===== src/Agent/Graph/BadStep.antt =====
-- What a step of the plan that is no JSON object leads to.
use browser_agent.Common.{◌+◌, ◌≡◌, true, [], ◌∷◌, ◌++◌}
use browser_agent.Json.{Json}
use browser_agent.Agent.State.{State, verifying}
use browser_agent.Agent.Tools.{ToolResult}
use browser_agent.Agent.Verify.{is_some}

-- What "act" leaves of a state when it takes the step for an error of a tool: the error is on record
-- for "verify", counts as a failure, and stands at the end of the tool calls.
pub record ToolError (s s' : State) : Type 0 where
  pub status : s'.status ≡ verifying
  pub error : is_some s'.last_tool_error ≡ true
  pub counted : s'.consecutive_fails ≡ s.consecutive_fails + 1
  pub call : ToolResult
  pub called : s'.tool_calls ≡ s.tool_calls ++ call ∷ []
  pub failed : (call.tool_name ≡ "agent.bad_step") × (call.error ≡ s'.last_tool_error)
  pub same_plan : (s'.plan ≡ s.plan) × (s'.step_index ≡ s.step_index)
