-- ===== src/Agent/Extract.antt =====
-- The nodes "extract" and "judge" of src/andera/agent/nodes.py.
pub mod Frame
pub mod Valid
use browser_agent.Common.{
  ℕ, zero, suc, ◌+◌, String, Bool, true, false, not, ◌||◌, ◌&&◌, Option, none, some, List, [], ◌∷◌,
  ◌++◌, str_eq, leb, ltb, any_of, if◌then◌else◌, get_elem?, length, decimal,
}
use Prim.Native.String.{◌++◌ as text_append}
use browser_agent.Json.{
  Json, null, num, str, obj, arr, pos, Items, nil, cons, Fields, end, field, get, has_key, truthy,
  to_list, is_array, fields_or_empty,
}
use browser_agent.Agent.Effect.{Failure, Result, ok, raised, Eff}
use browser_agent.Agent.Step.{Step, action_step, bad, text_at, or_text, or_default}
use browser_agent.Agent.Plan.{reflect_max, parsed_of}
use browser_agent.Agent.Verify.{is_some}
use browser_agent.Agent.State.{
  State, Deps, Reply, ExtractPrompt, JudgePrompt, Status, extracting, judging, done,
}

-- EXTRACT_RETRY_MAX
abbrev pub extract_retry_max : ℕ
extract_retry_max = 2

-- `not schema`
abbrev pub is_empty : Fields → Bool
is_empty end = true
is_empty (field k v d) = false

-- `_is_array_schema`
abbrev pub is_array_schema : Fields → Bool
is_array_schema schema = elim (get "type" schema) [
  | str t ↦ str_eq t "array" || has_key "items" schema
  | _ ↦ has_key "items" schema
]

module _ (iter_errors : Fields → Fields → List String) where
  -- `_schema_errors_obj`; the messages that are not jsonschema's are given by their first words.
  abbrev pub schema_errors_obj : Json → Fields → List String
  schema_errors_obj (obj d) schema = iter_errors schema d
  schema_errors_obj _ schema = "expected object" ∷ []

  -- `f"[{i}].{msg}"`
  abbrev pub prefixed : ℕ → List String → List String
  prefixed i [] = []
  prefixed i (msg ∷ msgs) =
      text_append "[" (text_append (decimal i) (text_append "]." msg)) ∷ prefixed i msgs

  abbrev pub item_errors : ℕ → List Json → Fields → List String
  item_errors i [] schema = []
  item_errors i (x ∷ xs) schema =
      prefixed i (schema_errors_obj x schema) ++ item_errors (i + 1) xs schema

  -- `_schema_errors`
  pub schema_errors : Json → Fields → List String
  schema_errors parsed schema =
      if is_array_schema schema
      then elim parsed [
        | arr xs ↦ item_errors 0 (to_list xs) (fields_or_empty (get "items" schema))
        | _ ↦ "expected array" ∷ []
      ]
      else schema_errors_obj parsed schema

-- `{items: […]}` where a bare array was asked for.
abbrev pub unwrap : Bool → Json → Json
unwrap false v = v
unwrap true v = elim v [
  | obj d ↦ if is_array (get "items" d) then get "items" d else obj d
  | other ↦ other
]

-- The loop's variables after an attempt.
pub record Attempt : Type 0 where
  pub parsed : Json
  pub errors : List String

-- `[]` for arrays and `{}` for objects, where nothing was parsed.
abbrev pub or_empty : Bool → Json → Json
or_empty wants_array null = if wants_array then arr nil else obj end
or_empty true (arr xs) = arr xs
or_empty true _ = arr nil
or_empty false v = v

abbrev pub no_errors {ℓ} : {A : Type ℓ} → List A → Bool
no_errors [] = true
no_errors (x ∷ xs) = false

abbrev pub verdict_in : Result Json → Option String
verdict_in (ok (obj d)) = if has_key "verdict" d then text_at "verdict" d else some "uncertain"
verdict_in _ = some "uncertain"

abbrev pub reason_in : Result Json → Option String
reason_in (ok (obj d)) = if has_key "reason" d then text_at "reason" d else some ""
reason_in _ = some "judge output unparsable"

abbrev pub is_verdict : String → Option String → Bool
is_verdict t none = false
is_verdict t (some s) = str_eq s t

-- Whether a step carries a descriptor.
abbrev pub is_resolved : Step → Bool
is_resolved (action_step step) = is_some step.resolved
is_resolved (bad v) = false

-- `reason or "verdict was " + verdict`
abbrev pub feedback : Option String → Option String → Option String
feedback reason none = or_text reason none
feedback reason (some verdict) = or_text reason (some (text_append "verdict was " verdict))

-- "fail" and "uncertain" go back to the extractor while the budget lasts.
pub wants_retry : Option String → ℕ → Bool
wants_retry verdict reflect_count =
    (is_verdict "fail" verdict || is_verdict "uncertain" verdict) && ltb reflect_count reflect_max

module _ {W : Type 0} (deps : Deps W) where
  abbrev pub extract_prompt : State → Bool → Attempt → ExtractPrompt
  extract_prompt s retrying a = record {
    observations = s.observations;
    schema = s.extract_schema;
    judge_feedback = s.judge_feedback;
    prior_extraction = if retrying then some a.parsed else none;
    validation_errors = if retrying then some a.errors else none;
    pass_schema = if is_array_schema s.extract_schema then none else some s.extract_schema;
  }

  -- The loop with the attempts that are left; `retrying` is `attempt > 0`.
  pub extract_loop : ℕ → Bool → State → Attempt → Eff W Attempt
  unfolding schema_errors
  extract_loop zero retrying s a w = (ok a, w)
  extract_loop (suc n) retrying s a w =
      let (r, w') = deps.extractor (extract_prompt s retrying a) w in
      elim r [
        | raised e ↦ (raised e, w')
        | ok reply ↦ elim (parsed_of reply) [
          | raised e ↦
              extract_loop n true s (record { parsed = null; errors = "JSON parse" ∷ [] }) w'
          | ok v ↦
              let parsed = unwrap (is_array_schema s.extract_schema) v in
              let errors = schema_errors deps.iter_errors parsed s.extract_schema in
              elim (no_errors errors) [
                | true ↦ (ok (record { parsed = parsed; errors = errors }), w')
                | false ↦ extract_loop n true s (record { parsed = parsed; errors = errors }) w'
              ]
        ]
      ]

  abbrev pub no_attempt : Attempt
  no_attempt = record { parsed = null; errors = [] }

  abbrev pub extracted_by : State → Attempt → State
  extracted_by s a = record s {
    extracted = or_empty (is_array_schema s.extract_schema) a.parsed;
    extract_errors = a.errors;
    status = judging;
    judge_feedback = none;
  }

  -- A task with no schema: the count of the evidence.
  abbrev pub evidence_summary : State → State
  evidence_summary s = record s {
    extracted = obj (field "evidence_count" (num (pos (length s.evidence))) end);
    status = judging;
  }

  pub extract_node : State → Eff W State
  unfolding extract_loop
  extract_node s w =
      if is_empty s.extract_schema
      then (ok (evidence_summary s), w)
      else (let (r, w') = extract_loop (extract_retry_max + 1) false s no_attempt w in
          elim r [ raised e ↦ (raised e, w') | ok a ↦ (ok (extracted_by s a), w') ])

  -- What the judge's answer makes of the state.
  pub judged : State → Result Json → State
  unfolding wants_retry
  judged s answer =
      let verdict = verdict_in answer in
      let reason = reason_in answer in
      if wants_retry verdict s.reflect_count
      then (record s {
        verdict = verdict;
        verdict_reason = reason;
        judge_feedback = feedback reason verdict;
        reflect_count = s.reflect_count + 1;
        status = extracting;
      })
      else (record s { verdict = verdict; verdict_reason = reason; status = done })

  -- A plan that has learned a descriptor and has passed goes into the cache.
  pub store_learned : State → Result Json → W → W
  store_learned s answer w =
      let key = deps.plan_key s.task_prompt s.extract_schema s.start_url in
      if is_verdict "pass" (verdict_in answer) && any_of is_resolved s.plan
      then elim deps.plan_cache [ none ↦ w | some c ↦ c.store key s.plan w ]
      else w

  pub judge_node : State → Eff W State
  unfolding judged store_learned
  judge_node s w =
      let (r, w') =
        deps.judge
          (record {
            with_schema = not (is_empty s.extract_schema);
            task_prompt = s.task_prompt;
            extracted = if truthy s.extracted then s.extracted else obj end;
            evidence = s.evidence;
          })
          w in
      elim r [
        | raised e ↦ (raised e, w')
        | ok reply ↦ (ok (judged s reply.content), store_learned s reply.content w')
      ]
