-- ===== src/Agent/Plan/Frame.antt =====
-- How the nodes "classify" and "plan" leave a state, with planners whose plans are short.
use browser_agent.Common.{
  String, ℕ, ◌+◌, ◌≤◌, ◌<◌, ◌≡◌, refl, inl, inr, Option, none, some, List, arith, Bool, true, false,
  length, Option-cases, Bool-cases, ltb,
}
use browser_agent.Agent.Effect.{Ensures, Result-cases}
use browser_agent.Agent.Step.{Step}
use browser_agent.Agent.State.{State, Deps, Cache, PlanPrompt, failed, acting}
use browser_agent.Agent.Plan.{
  plan_max, plan_in, parsed_of, with_plan, cached_plan, new_plan, plan_node, classify_node,
  prompt_of, key_of,
}

-- Neither the planner nor the cache gives a plan of more than `longest` steps.
pub record ShortPlans {W : Type 0} (longest : ℕ) (deps : Deps W) : Type 0 where
  pub planned :
      (p : PlanPrompt) (w : W)
      → Ensures
          (λ reply. Ensures (λ plan. length plan ≤ longest) (plan_in (parsed_of reply)))
          (deps.planner p w).0
  pub cached :
      (c : Cache W)
      → deps.plan_cache ≡ some c
      → (key : String) (w : W) (plan : List Step) → (c.lookup key w).0 ≡ some plan
      → length plan ≤ longest

pub data Planned (longest : ℕ) (s s' : State) : Type 0 where
  gave_up : s'.status ≡ failed → Planned longest s s'
  has_plan :
      s'.status ≡ acting
      → s.plan_count < plan_max
      → s'.plan_count ≡ s.plan_count + 1
      → length s'.plan ≤ longest
      → s'.step_index ≡ 0
      → s'.reflect_count ≡ 0
      → s'.last_tool_error ≡ s.last_tool_error
      → Planned longest s s'

module _ {W : Type 0} (deps : Deps W) (longest : ℕ) (h : ShortPlans longest deps) where
  cached_plan-short :
      (s : State) (n : ℕ) (w : W) (plan : List Step)
      → (cached_plan deps s n w).0 ≡ some plan
      → length plan ≤ longest
  unfolding cached_plan
  cached_plan-short s n w plan p = go deps.plan_cache refl
    where
      go : (o : Option (Cache W)) → deps.plan_cache ≡ o → length plan ≤ longest
      go none e = absurd ground arith
      go (some c) e = h.cached c e (key_of deps s) w plan (ground arith)

  with_plan-Planned :
      (s : State) (hit : Bool) (plan : List Step)
      → s.plan_count < plan_max
      → length plan ≤ longest
      → Planned longest s (with_plan s (s.plan_count + 1) hit plan)
  with_plan-Planned s hit plan p q = has_plan refl p refl q refl refl refl

  new_plan-Planned :
      (s : State) (w : W)
      → s.plan_count < plan_max
      → Planned longest s (new_plan deps s (s.plan_count + 1) w).0
  unfolding new_plan plan_in
  new_plan-Planned s w p = elim (Result-cases (deps.planner (prompt_of deps s) w).0) [
    | inl (x, e) ↦ rw (e, new_plan) (gave_up refl)
    | inr (reply, e) ↦ elim (Result-cases (plan_in (parsed_of reply))) [
      | inl (x, f) ↦ rw (e, f, new_plan) (gave_up refl)
      | inr (plan, f) ↦
          rw (e, f, new_plan)
            (with_plan-Planned s false plan p (ground (arith, h.planned (prompt_of deps s) w)))
    ]
  ]

  pub classify_node-Keeps :
      (s : State) (w : W)
      → Ensures
          (λ s'. (s'.plan_count ≡ s.plan_count) × (s'.last_tool_error ≡ s.last_tool_error))
          (classify_node deps s w).0
  unfolding classify_node
  classify_node-Keeps s w = ground arith

  pub plan_node-Planned : (s : State) (w : W) → Ensures (Planned longest s) (plan_node deps s w).0
  unfolding plan_node
  plan_node-Planned s w = elim (Bool-cases (ltb plan_max (s.plan_count + 1))) [
    | inl e ↦ rw (e, Ensures) (gave_up refl)
    | inr e ↦ elim (Option-cases (cached_plan deps s (s.plan_count + 1) w).0) [
      | inl f ↦
          rw (e, f, Ensures)
            (new_plan-Planned s (cached_plan deps s (s.plan_count + 1) w).1 (ground arith))
      | inr (plan, f) ↦
          rw (e, f, Ensures)
            (with_plan-Planned s true plan (ground arith)
              (cached_plan-short s (s.plan_count + 1) w plan f))
    ]
  ]
