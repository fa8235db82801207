-- ===== src/Agent/Verify/Frame.antt =====
-- How the nodes "observe" and "verify" leave a state.
use browser_agent.Common.{
  ◌+◌, ◌<◌, ◌≡◌, refl, ◌⊎◌, inl, inr, none, arith, get_elem?, Option-cases, Bool-cases, leb,
}
use browser_agent.Agent.Effect.{Result, ok, raised, Ensures}
use browser_agent.Agent.Step.{action_step, bad}
use browser_agent.Agent.State.{State, Deps, failed, replanning, acting}
use browser_agent.Agent.Plan.{reflect_max, replan_after_consecutive_fails}
use browser_agent.Agent.Verify.{step_passed, step_failed, verify_step, verify_node, observe_node}

-- The four ways on from "verify".
pub data Verified (s s' : State) : Type 0 where
  stopped : s'.status ≡ failed → Verified s s'
  replans :
      s'.status ≡ replanning
      → s'.plan_count ≡ s.plan_count
      → s'.last_tool_error ≡ s.last_tool_error
      → Verified s s'
  reflects :
      s'.status ≡ acting
      → s'.plan_count ≡ s.plan_count
      → s'.plan ≡ s.plan
      → s'.step_index ≡ s.step_index
      → s'.reflect_count ≡ s.reflect_count + 1
      → s.reflect_count + 1 < reflect_max
      → s'.last_tool_error ≡ s.last_tool_error
      → Verified s s'
  moves_on :
      s'.status ≡ acting
      → s'.plan_count ≡ s.plan_count
      → s'.plan ≡ s.plan
      → s'.step_index ≡ s.step_index + 1
      → s'.reflect_count ≡ s.reflect_count
      → s.last_tool_error ≡ none
      → Verified s s'

step_failed-Verified : (s : State) → Verified s (step_failed s)
unfolding step_failed
step_failed-Verified s = elim (Bool-cases (leb reflect_max (s.reflect_count + 1))) [
  | inl e ↦ rw e (stopped refl)
  | inr e ↦ elim (Bool-cases (leb replan_after_consecutive_fails (s.consecutive_fails + 1))) [
    | inl f ↦ rw (e, f) (replans refl refl refl)
    | inr f ↦ rw (e, f) (reflects refl refl refl refl refl (ground arith) refl)
  ]
]

step_passed-Verified : (s : State) → s.last_tool_error ≡ none → Verified s (step_passed s)
unfolding step_passed
step_passed-Verified s e = moves_on refl refl refl refl refl e

module _ {W : Type 0} (deps : Deps W) where
  verify_step-or :
      (s : State) (w : W)
      → Ensures
          (λ s'. ((s' ≡ step_passed s) × (s.last_tool_error ≡ none)) ⊎ (s' ≡ step_failed s))
          (verify_step deps s w).0
  unfolding verify_step
  verify_step-or s w = ground arith

  verify_step-Verified : (s : State) (w : W) → Ensures (Verified s) (verify_step deps s w).0
  verify_step-Verified s w = go (verify_step deps s w).0 (verify_step-or s w)
    where
      go :
          (r : Result State)
          → Ensures
              (λ s'. ((s' ≡ step_passed s) × (s.last_tool_error ≡ none)) ⊎ (s' ≡ step_failed s))
              r
          → Ensures (Verified s) r
      go (ok s') (inl (e, p)) = rw e (step_passed-Verified s p)
      go (ok s') (inr e) = rw e (step_failed-Verified s)
      go (raised e) p = tt

  -- The node "verify" raises, fails the run, asks for a new plan, sends the same step back with one
  -- more reflection counted and below the cap, or moves on by one step. It moves on only if no error
  -- of a tool is on record, and keeps the error on record where it reflects or replans. The plan
  -- and the number of plans stay, except that nothing is said of a failed run.
  pub verify_node-Verified : (s : State) (w : W) → Ensures (Verified s) (verify_node deps s w).0
  unfolding verify_node
  verify_node-Verified s w = elim (Option-cases (get_elem? s.plan s.step_index)) [
    | inl e ↦ rw (e, Ensures) (verify_step-Verified s w)
    | inr (bad v, e) ↦ rw (e, Ensures) tt
    | inr (action_step step, e) ↦ rw (e, Ensures) (verify_step-Verified s w)
  ]

  -- What "observe" leaves alone.
  pub observe_node-Keeps :
      (s : State) (w : W)
      → Ensures
          (λ s'.
            (s'.plan_count ≡ s.plan_count)
            × (s'.plan ≡ s.plan)
            × (s'.step_index ≡ s.step_index)
            × (s'.reflect_count ≡ s.reflect_count)
            × (s'.last_tool_error ≡ s.last_tool_error))
          (observe_node deps s w).0
  unfolding observe_node
  observe_node-Keeps s w = ground arith
