-- ===== src/Agent/Plan/Replan.antt =====
-- The node "plan" after the first plan: the cache is not asked again.
use browser_agent.Common.{◌+◌, ◌≤◌, ◌≡◌, refl, ◌⊎◌, inl, inr, none, List, arith, Bool-cases, ltb}
use browser_agent.Agent.Effect.{Ensures, Ensures-ok, Result-cases}
use browser_agent.Agent.Step.{Step}
use browser_agent.Agent.State.{State, Deps, PlanPrompt, failed, acting}
use browser_agent.Agent.Plan.{
  plan_max, plan_in, parsed_of, cached_plan, new_plan, plan_node, prompt_of,
}

-- Each plan that the planner gives satisfies `P`.
abbrev pub Plans : {W : Type 0} → (List Step → Type 0) → Deps W → Type 0
Plans {W} P deps =
    (p : PlanPrompt) (w : W)
    → Ensures (λ reply. Ensures P (plan_in (parsed_of reply))) (deps.planner p w).0

abbrev pub Replanned : (List Step → Type 0) → State → State → Type 0
Replanned P s s' =
    (s'.status ≡ failed)
    ⊎ ((s'.status ≡ acting)
        × P s'.plan
        × (s'.step_index ≡ 0)
        × (s'.plan_count ≡ s.plan_count + 1)
        × (s'.last_tool_error ≡ s.last_tool_error))

module _ {W : Type 0} (P : List Step → Type 0) (deps : Deps W) (h : Plans P deps) where
  new_plan-Replanned : (s : State) (w : W) → Replanned P s (new_plan deps s (s.plan_count + 1) w).0
  unfolding new_plan plan_in
  new_plan-Replanned s w = elim (Result-cases (deps.planner (prompt_of deps s) w).0) [
    | inl (x, e) ↦ rw (e, new_plan) (inl refl)
    | inr (reply, e) ↦ elim (Result-cases (plan_in (parsed_of reply))) [
      | inl (x, f) ↦ rw (e, f, new_plan) (inl refl)
      | inr (plan, f) ↦
          rw (e, f, new_plan)
            (inr (
              refl,
              Ensures-ok P f (
                  Ensures-ok (λ reply. Ensures P (plan_in (parsed_of reply))) e
                    (h (prompt_of deps s) w)),
              refl,
              refl,
              refl,
            ))
    ]
  ]

  pub plan_node-Replanned :
      (s : State) (w : W) → 1 ≤ s.plan_count → Ensures (Replanned P s) (plan_node deps s w).0
  unfolding plan_node cached_plan
  plan_node-Replanned s w p = elim (Bool-cases (ltb plan_max (s.plan_count + 1))) [
    | inl e ↦ rw (e, Ensures) (inl refl)
    | inr e ↦ rw (e, f, Ensures) (new_plan-Replanned s (cached_plan deps s (s.plan_count + 1) w).1)
  ]
    where
      f : (cached_plan deps s (s.plan_count + 1) w).0 ≡ none
      f = ground arith
