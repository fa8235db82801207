-- ===== src/Agent/Plan.antt =====
-- The nodes "classify" and "plan" of src/andera/agent/nodes.py.
pub mod Frame
pub mod Replan
use browser_agent.Common.{
  ℕ, suc, ◌+◌, String, Bool, true, false, Option, none, some, List, [], ◌∷◌, map, str_eq, ltb, ◌==◌,
  if◌then◌else◌, find_first,
}
use mathlib.Core.List.{reverse}
use browser_agent.Json.{Json, null, obj, arr, Fields, get, has_key, to_list}
use browser_agent.Agent.Effect.{
  Failure, plan_cap_reached, plan_unparsable, plan_shapeless, plan_empty, Result, ok, raised, Eff,
  pure,
}
use browser_agent.Agent.Step.{Step, step_of, or_text, or_default}
use browser_agent.Agent.Observations.{Observation, full, abstracted, is_kind, data_of}
use browser_agent.Agent.State.{
  Status, State, Deps, Cache, Reply, PlanPrompt, pending, acting, failed,
}

-- REFLECT_MAX
abbrev pub reflect_max : ℕ
reflect_max = 3

-- REPLAN_AFTER_CONSECUTIVE_FAILS
abbrev pub replan_after_consecutive_fails : ℕ
replan_after_consecutive_fails = 2

-- PLAN_MAX
abbrev pub plan_max : ℕ
plan_max = 3

-- `next((o["data"] for o in reversed(observations) if o.get("kind") == "snapshot"), …)`
pub latest_snapshot : List Observation → Option Fields
latest_snapshot observations = elim (find_first (is_kind "snapshot") (reverse observations)) [
  | none ↦ none
  | some o ↦ some (data_of o)
]

-- `parsed`, or the content parsed where there is none.
abbrev pub parsed_of : Reply → Result Json
parsed_of reply = elim reply.parsed [ null ↦ reply.content | v ↦ ok v ]

-- A list of steps that is not empty.
unfoldable pub steps_in : Json → Result (List Step)
steps_in (arr xs) = elim (map step_of (to_list xs)) [
  | [] ↦ raised plan_empty
  | s ∷ rest ↦ ok (s ∷ rest)
]
steps_in _ = raised plan_empty

-- The list in one of its two shapes.
unfoldable pub plan_in : Result Json → Result (List Step)
unfolding steps_in
plan_in (raised e) = raised (plan_unparsable e)
plan_in (ok (obj d)) = if has_key "steps" d then steps_in (get "steps" d) else raised plan_shapeless
plan_in (ok (arr xs)) = steps_in (arr xs)
plan_in (ok _) = raised plan_shapeless

abbrev pub with_plan : State → ℕ → Bool → List Step → State
with_plan s plan_count hit plan = record s {
  plan = plan;
  step_index = 0;
  status = acting;
  reflect_count = 0;
  consecutive_fails = 0;
  plan_count = plan_count;
  plan_cache_hit = hit;
}

abbrev pub plan_failed : State → ℕ → Failure → State
plan_failed s plan_count e = record s { status = failed; error = some e; plan_count = plan_count }

-- A graph runs this node once, so the dictionary that it keeps its answers in never has one.
pub classify_node : {W : Type 0} → Deps W → State → Eff W State
classify_node deps s w = elim (or_text s.task_type none) [
  | some t ↦ (ok s, w)
  | none ↦ elim deps.classifier [
    | none ↦ (ok (record s { task_type = some "unknown" }), w)
    | some classify_task ↦
        let (task_type, w') = classify_task s.task_prompt s.extract_schema w in
        (ok (record s { task_type = some task_type }), w')
  ]
]

module _ {W : Type 0} (deps : Deps W) where
  abbrev pub key_of : State → String
  key_of s = deps.plan_key s.task_prompt s.extract_schema s.start_url

  -- Only the first attempt looks into the cache.
  pub cached_plan : State → ℕ → W → Option (List Step) × W
  cached_plan s plan_count w =
      if plan_count == 1
      then elim deps.plan_cache [ none ↦ (none, w) | some c ↦ c.lookup (key_of s) w ]
      else (none, w)

  abbrev pub prompt_of : State → PlanPrompt
  prompt_of s = record {
    task_type = or_default s.task_type "unknown";
    task_prompt = s.task_prompt;
    input_data = s.input_data;
    start_url = s.start_url;
    schema = s.extract_schema;
    current_snapshot = latest_snapshot s.observations;
  }

  -- `deps.plan_cache.put(cache_key, plan)`
  abbrev pub store_plan : String → List Step → W → W
  store_plan key plan w = elim deps.plan_cache [ none ↦ w | some c ↦ c.store key plan w ]

  -- The planner is asked, and any exception on the way is a failed plan.
  pub new_plan : State → ℕ → W → State × W
  unfolding plan_in latest_snapshot
  new_plan s plan_count w =
      let (r, w') = deps.planner (prompt_of s) w in
      let parsed : Result Json = elim r [ ok reply ↦ parsed_of reply | raised e ↦ raised e ] in
      elim (plan_in parsed) [
        | raised e ↦ (plan_failed s plan_count e, w')
        | ok plan ↦ (with_plan s plan_count false plan, store_plan (key_of s) plan w')
      ]

  pub plan_node : State → Eff W State
  unfolding cached_plan new_plan
  plan_node s w =
      let plan_count = s.plan_count + 1 in
      let (cached, w') = cached_plan s plan_count w in
      let fresh = new_plan s plan_count w' in
      if ltb plan_max plan_count
      then (ok (plan_failed s plan_count plan_cap_reached), w)
      else elim cached [
        | some plan ↦ (ok (with_plan s plan_count true plan), w')
        | none ↦ (ok fresh.0, fresh.1)
      ]
