-- ===== src/Agent/State.antt =====
-- `AgentState` of src/andera/agent/state.py and `AgentDeps` of src/andera/agent/nodes.py. A key
-- that no node has set has the value that the code's `state.get(key, default)` gives.
use browser_agent.Common.{ℕ, String, Bool, Option, List, ◌++◌}
use browser_agent.Json.{Json, Fields}
use browser_agent.Agent.Effect.{Failure, Result, Eff}
use browser_agent.Agent.Step.{Step}
use browser_agent.Agent.Observations.{Observation}
use browser_agent.Agent.Tools.{Session, ToolResult, Mark}
use browser_agent.Agent.Descriptor.{VisionReply}

pub data Status : Type 0 where
  pending acting verifying extracting judging replanning done failed : Status

pub record State : Type 0 where
  pub task_prompt : String
  pub input_data : Fields
  pub start_url : Option String
  pub extract_schema : Fields
  pub plan : List Step
  pub step_index : ℕ
  pub observations : List Observation
  pub tool_calls : List ToolResult
  pub evidence : List Json
  pub extracted : Json
  pub reflect_count : ℕ
  pub consecutive_fails : ℕ
  pub plan_count : ℕ
  pub plan_cache_hit : Bool
  pub task_type : Option String
  pub last_tool_error : Option Failure
  pub extract_errors : List String
  pub judge_feedback : Option String
  pub status : Status
  pub verdict : Option String
  pub verdict_reason : Option String
  pub error : Option Failure

-- The reducer of `tool_calls` and `evidence`, LangGraph's merge of those two keys.
abbrev pub append {ℓ} : {A : Type ℓ} → List A → List A → List A
append left right = left ++ right

-- The answer of a model: `out.get("parsed")`, and what `_parse_json(out["content"])` comes to.
pub record Reply : Type 0 where
  pub parsed : Json
  pub content : Result Json

-- What each prompt is made of; the texts of src/andera/agent/prompts.py stand around it.
pub record PlanPrompt : Type 0 where
  pub task_type : String
  pub task_prompt : String
  pub input_data : Fields
  pub start_url : Option String
  pub schema : Fields
  pub current_snapshot : Option Fields

pub record VerifyPrompt : Type 0 where
  pub task_prompt : String
  pub current_step : Option Step
  pub last_action : Option ToolResult
  pub snapshot : Option Fields

pub record ExtractPrompt : Type 0 where
  pub observations : List Observation
  pub schema : Fields
  pub judge_feedback : Option String
  pub prior_extraction : Option Json
  pub validation_errors : Option (List String)
  -- the schema for strict JSON mode, which an array schema goes without
  pub pass_schema : Option Fields

pub record JudgePrompt : Type 0 where
  pub with_schema : Bool
  pub task_prompt : String
  pub extracted : Json
  pub evidence : List Json

-- `PlanCache` of src/andera/agent/plan_cache.py, behind its two methods.
pub record Cache (W : Type 0) : Type 0 where
  pub lookup : String → W → Option (List Step) × W
  pub store : String → List Step → W → W

pub record Deps (W : Type 0) : Type 0 where
  pub planner : PlanPrompt → Eff W Reply
  pub navigator : VerifyPrompt → Eff W Reply
  pub extractor : ExtractPrompt → Eff W Reply
  pub judge : JudgePrompt → Eff W Reply
  -- `classify_task` with the model of the role, if there is one
  pub classifier : Option (String → Fields → W → String × W)
  pub vision : Option (String → Json → List Mark → Eff W VisionReply)
  pub browser : Session W
  pub plan_cache : Option (Cache W)
  -- `plan_key`, a hash
  pub plan_key : String → Fields → Option String → String
  -- `re.search`, where none is `re.error`
  pub search_re : String → String → Option Bool
  -- the messages of `Draft202012Validator(schema).iter_errors(parsed)`
  pub iter_errors : Fields → Fields → List String
