-- ===== src/Agent/Act/Stay.antt =====
-- The node "act" on a step that is not "done" stays at the step.
use browser_agent.Common.{
  ℕ, zero, suc, ◌≡◌, ◌≢◌, refl, ap, ◌∙◌, ◌⊎◌, inl, inr, Option, none, some, List, [], ◌∷◌, false,
  str_eq, get_elem?, Option-cases,
}
use browser_agent.Agent.Effect.{ok, Ensures, Result-cases}
use browser_agent.Agent.Step.{Step, action_step, bad, Action, Descriptor}
use browser_agent.Agent.State.{State, Deps, verifying, failed}
use browser_agent.Agent.Act.Handlers.{Acted, result, finished, unknown, handle}
use browser_agent.Agent.Act.Finish.{handle-goes_on}
use browser_agent.Agent.Act.{
  write_step, resolve_step, record_result, after_action, act_node, action_of,
}

abbrev pub NotDone : Step → Type 0
NotDone (action_step step) = str_eq (action_of step) "done" ≡ false
NotDone (bad v) = Unit

-- There is a current step, and it is not "done".
abbrev pub AtWork : List Step → ℕ → Type 0
AtWork plan i = (st : Step) × (get_elem? plan i ≡ some st) × NotDone st

get_elem?-write_step :
    (i : ℕ) (v st : Step) (plan : List Step)
    → get_elem? plan i ≡ some st
    → get_elem? (write_step i v plan) i ≡ some v
unfolding write_step
get_elem?-write_step i v st [] e = cc
get_elem?-write_step zero v st (s ∷ plan) e = refl
get_elem?-write_step (suc i) v st (s ∷ plan) e = get_elem?-write_step i v st plan e

resolve_step-AtWork :
    (i : ℕ) (step : Action) (o : Option Descriptor) (plan : List Step)
    → get_elem? plan i ≡ some (action_step step)
    → NotDone (action_step step)
    → AtWork (resolve_step i step o plan) i
resolve_step-AtWork i step none plan e p = (action_step step, e, p)
resolve_step-AtWork i step (some d) plan e p = (
  action_step (record step { resolved = some d }),
  get_elem?-write_step i _ (action_step step) plan e,
  p,
)

abbrev pub Stays : State → Type 0
Stays s' = (s'.status ≡ failed) ⊎ ((s'.status ≡ verifying) × AtWork s'.plan s'.step_index)

after_action-Stays :
    (s : State) (step : Action) (a : Acted)
    → a ≢ finished
    → get_elem? s.plan s.step_index ≡ some (action_step step)
    → NotDone (action_step step)
    → Stays (after_action s step a)
unfolding after_action record_result
after_action-Stays s step (result r o) q e p = elim (Option-cases r.error) [
  | inl f ↦ rw f (inr (refl, resolve_step-AtWork s.step_index step o s.plan e p))
  | inr (x, f) ↦ rw f (inr (refl, resolve_step-AtWork s.step_index step o s.plan e p))
]
after_action-Stays s step finished q e p = absurd (q refl)
after_action-Stays s step (unknown action) q e p = inl refl

pub act_node-Stays :
    {W : Type 0} (deps : Deps W) (s : State) (w : W)
    → AtWork s.plan s.step_index
    → Ensures Stays (act_node deps s w).0
unfolding act_node
act_node-Stays deps s w (bad v, e, p) = rw (e, Ensures) (inr (refl, (bad v, e, p)))
act_node-Stays deps s w (action_step step, e, p) =
    elim (Result-cases (handle deps s.step_index step s.extract_schema s.observations w).0) [
      | inl (x, f) ↦ rw (e, f, Ensures) tt
      | inr (a, f) ↦
          rw (e, f, Ensures)
            (after_action-Stays s step a
              (λ g.
                handle-goes_on deps s.step_index step s.extract_schema s.observations w p
                  (f ∙ ap ok g))
              e p)
    ]
