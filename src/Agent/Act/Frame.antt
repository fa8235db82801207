-- ===== src/Agent/Act/Frame.antt =====
-- What the node "act" leaves alone.
use browser_agent.Common.{
  ℕ, zero, suc, ◌<◌, ◌≡◌, ◌≢◌, refl, ap, ◌⊎◌, inl, inr, Option, none, some, List, [], ◌∷◌, arith,
  get_elem?, length, Option-cases,
}
use browser_agent.Agent.Effect.{unknown_action, Ensures, Result-cases}
use browser_agent.Agent.Step.{Step, action_step, bad, Action, Descriptor}
use browser_agent.Agent.Tools.{ToolResult}
use browser_agent.Agent.State.{State, Deps, verifying, extracting, failed}
use browser_agent.Agent.Act.Handlers.{Acted, result, finished, unknown, handle}
use browser_agent.Agent.Act.{
  write_step, resolve_step, record_result, after_action, reject_step, act_node,
}

length-write_step :
    (i : ℕ) (v : Step) (plan : List Step) → length (write_step i v plan) ≡ length plan
unfolding write_step
length-write_step i v [] = refl
length-write_step zero v (s ∷ plan) = refl
length-write_step (suc i) v (s ∷ plan) = ap suc (length-write_step i v plan)

length-resolve_step :
    (i : ℕ) (step : Action) (o : Option Descriptor) (plan : List Step)
    → length (resolve_step i step o plan) ≡ length plan
length-resolve_step i step none plan = refl
length-resolve_step i step (some d) plan =
    length-write_step i (action_step (record step { resolved = some d })) plan

-- The counters, the position and the length of the plan stay, and so does an error that no later
-- one replaces.
pub record Keeps (s s' : State) : Type 0 where
  pub plan_count : s'.plan_count ≡ s.plan_count
  pub reflect_count : s'.reflect_count ≡ s.reflect_count
  pub step_index : s'.step_index ≡ s.step_index
  pub length_plan : length s'.plan ≡ length s.plan
  pub last_tool_error : s.last_tool_error ≢ none → s'.last_tool_error ≢ none

pub get_elem?-some : (xs : List Step) (i : ℕ) (x : Step) → get_elem? xs i ≡ some x → i < length xs
get_elem?-some [] i x e = cc
get_elem?-some (y ∷ xs) zero x e = omega arith
get_elem?-some (y ∷ xs) (suc i) x e = omega (arith, get_elem?-some xs i x e)

-- Where the node leaves the run.
abbrev pub Leaves : State → State → Type 0
Leaves s s' =
    Keeps s s'
    × ((s'.status ≡ failed)
        ⊎ (s'.status ≡ extracting)
        ⊎ ((s'.status ≡ verifying) × (s.step_index < length s.plan)))

record_result-Keeps :
    (s : State) (step : Action) (r : ToolResult) (o : Option Descriptor)
    → Keeps s (record_result s step r o)
unfolding record_result
record_result-Keeps s step r o = elim (Option-cases r.error) [
  | inl e ↦ rw e record {
    plan_count = refl;
    reflect_count = refl;
    step_index = refl;
    length_plan = length-resolve_step s.step_index step o s.plan;
    last_tool_error = λ p. p;
  }
  | inr (x, e) ↦ rw e record {
    plan_count = refl;
    reflect_count = refl;
    step_index = refl;
    length_plan = length-resolve_step s.step_index step o s.plan;
    last_tool_error = λ p. cc;
  }
]

after_action-Leaves :
    (s : State) (step : Action) (a : Acted)
    → s.step_index < length s.plan
    → Leaves s (after_action s step a)
unfolding after_action record_result
after_action-Leaves s step (result r o) p =
    (record_result-Keeps s step r o, inr (inr (record_result-status, p)))
  where
    record_result-status : (record_result s step r o).status ≡ verifying
    record_result-status = elim (Option-cases r.error) [
      | inl e ↦ rw e refl
      | inr (x, e) ↦ rw e refl
    ]
after_action-Leaves s step finished p = (same, inr (inl refl))
  where
    same : Keeps s (record s { status = extracting })
    same = record {
      plan_count = refl;
      reflect_count = refl;
      step_index = refl;
      length_plan = refl;
      last_tool_error = λ p. p;
    }
after_action-Leaves s step (unknown action) p = (same, inl refl)
  where
    same : Keeps s (record s { status = failed; error = some (unknown_action action) })
    same = record {
      plan_count = refl;
      reflect_count = refl;
      step_index = refl;
      length_plan = refl;
      last_tool_error = λ p. p;
    }

reject_step-Keeps : (s : State) → Keeps s (reject_step s)
reject_step-Keeps s = record {
  plan_count = refl;
  reflect_count = refl;
  step_index = refl;
  length_plan = refl;
  last_tool_error = λ p. cc;
}

skip-Keeps : (s : State) → Keeps s (record s { status = extracting })
skip-Keeps s = record {
  plan_count = refl;
  reflect_count = refl;
  step_index = refl;
  length_plan = refl;
  last_tool_error = λ p. p;
}

-- The node "act" raises, or it keeps the counters of plans and reflections, the position and the
-- length of the plan, keeps an error of a tool on record, and leaves the run failed, on the way to
-- the extraction, or on the way to verification with a step of the plan under way.
pub act_node-Leaves :
    {W : Type 0} (deps : Deps W) (s : State) (w : W) → Ensures (Leaves s) (act_node deps s w).0
unfolding act_node
act_node-Leaves deps s w = elim (Option-cases (get_elem? s.plan s.step_index)) [
  | inl e ↦ ground (arith, skip-Keeps s)
  | inr (bad v, e) ↦
      ground (arith, reject_step-Keeps s, get_elem?-some s.plan s.step_index (bad v) e)
  | inr (action_step step, e) ↦
      elim (Result-cases (handle deps s.step_index step s.extract_schema s.observations w).0) [
        | inl (x, f) ↦ rw (e, f, Ensures) tt
        | inr (a, f) ↦
            rw (e, f, Ensures)
              (after_action-Leaves s step a
                (get_elem?-some s.plan s.step_index (action_step step) e))
      ]
]
