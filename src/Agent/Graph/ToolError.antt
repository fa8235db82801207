-- ===== src/Agent/Graph/ToolError.antt =====
-- What an error of a tool leads to: the node "act" keeps it in `last_tool_error`, and only a
-- passing step clears that key.
use browser_agent.Common.{
  ℕ, zero, suc, ◌≤◌, ◌≡◌, ◌≢◌, refl, inl, inr, none, List, arith, false, leb, length,
}
use browser_agent.Agent.Effect.{Result, ok, raised, Ensures, Ensures-map, Ensures-ok, Result-cases}
use browser_agent.Agent.Step.{Step}
use browser_agent.Agent.State.{State, Deps, failed}
use browser_agent.Agent.Plan.Replan.{Plans, Replanned, plan_node-Replanned}
use browser_agent.Agent.Act.Frame.{Leaves, act_node-Leaves, get_elem?-some}
use browser_agent.Agent.Act.Stay.{AtWork, Stays, act_node-Stays}
use browser_agent.Agent.Verify.Frame.{
  Verified, stopped, replans, reflects, moves_on, verify_node-Verified, observe_node-Keeps,
}
use browser_agent.Agent.Act.{act_node}
use browser_agent.Agent.Graph.{
  Node, classify, plan, act, observe, verify, extract, judge, Next, goes, stop, next, Outcome,
  final, crashed, recursion_limit_reached, node, run_from,
}

-- The run does not end in success.
abbrev pub Unsuccessful : Outcome → Type 0
Unsuccessful (final s) = s.status ≡ failed
Unsuccessful (crashed e) = Unit
Unsuccessful recursion_limit_reached = Unit

-- A run that has planned, and has an error of a tool on record.
Stuck : Node → State → Type 0
Stuck plan s = (s.last_tool_error ≢ none) × (1 ≤ s.plan_count)
Stuck act s = (s.last_tool_error ≢ none) × (1 ≤ s.plan_count) × AtWork s.plan s.step_index
Stuck observe s = (s.last_tool_error ≢ none) × (1 ≤ s.plan_count) × AtWork s.plan s.step_index
Stuck verify s = (s.last_tool_error ≢ none) × (1 ≤ s.plan_count) × AtWork s.plan s.step_index
Stuck _ s = ⊥

abbrev Stay : State → Next → Type 0
Stay s stop = s.status ≡ failed
Stay s (goes m) = Stuck m s

abbrev Opens : List Step → Type 0
Opens p = AtWork p 0

act-Stay : (s s' : State) → Stuck act s → Leaves s s' → Stays s' → Stay s' (next act s')
unfolding Stuck next
act-Stay s s' (p, q, r) (k, l) (inl e) = rw e refl
act-Stay s s' (p, q, r) (k, l) (inr (e, a)) = rw e (k.last_tool_error p, rw (k.plan_count) q, a)

observe-Stay :
    (s s' : State)
    → Stuck observe s
    → (s'.plan_count ≡ s.plan_count)
      × (s'.plan ≡ s.plan)
      × (s'.step_index ≡ s.step_index)
      × (s'.reflect_count ≡ s.reflect_count)
      × (s'.last_tool_error ≡ s.last_tool_error)
    → Stay s' (next observe s')
unfolding Stuck next
observe-Stay s s' (p, q, r) (c, e, i, f, t) = (rw t p, rw c q, rw (e, i) r)

verify-Stay : (s s' : State) → Stuck verify s → Verified s s' → Stay s' (next verify s')
unfolding Stuck next
verify-Stay s s' (p, q, r) (stopped e) = rw e refl
verify-Stay s s' (p, q, r) (replans e c t) = rw e (rw t p, rw c q)
verify-Stay s s' (p, q, r) (reflects e c l i f b t) = rw (e, l, i, here) (rw t p, rw c q, r)
  where
    here : leb (length s.plan) s.step_index ≡ false
    here = ground (arith, get_elem?-some s.plan s.step_index r.0 r.1)
verify-Stay s s' (p, q, r) (moves_on e c l i f t) = absurd (p t)

plan-Stay : (s s' : State) → Stuck plan s → Replanned Opens s s' → Stay s' (next plan s')
unfolding Stuck next
plan-Stay s s' (p, q) (inl e) = rw e refl
plan-Stay s s' (p, q) (inr (e, o, i, c, t)) = rw e (rw t p, rw c (omega arith), rw i o)

module _ {W : Type 0} (deps : Deps W) (h : Plans Opens deps) where
  node-Stay :
      (n : Node) (s : State) (w : W)
      → Stuck n s
      → Ensures (λ s'. Stay s' (next n s')) (node deps n s w).0
  unfolding node Stuck
  node-Stay plan s w p =
      Ensures-map (λ s'. plan-Stay s s' p) _ (plan_node-Replanned Opens deps h s w p.1)
  node-Stay act s w p =
      both (act_node deps s w).0 (act_node-Leaves deps s w) (act_node-Stays deps s w p.2)
    where
      both :
          (r : Result State)
          → Ensures (Leaves s) r
          → Ensures Stays r
          → Ensures (λ s'. Stay s' (next act s')) r
      both (ok s') l a = act-Stay s s' p l a
      both (raised e) l a = tt
  node-Stay observe s w p = Ensures-map (λ s'. observe-Stay s s' p) _ (observe_node-Keeps deps s w)
  node-Stay verify s w p = Ensures-map (λ s'. verify-Stay s s' p) _ (verify_node-Verified deps s w)
  node-Stay extract s w p = absurd p
  node-Stay judge s w p = absurd p
  node-Stay classify s w p = absurd p

  run_from-Unsuccessful :
      (limit : ℕ) (n : Node) (s : State) (w : W)
      → Stuck n s
      → Unsuccessful (run_from deps limit n s w).0
  unfolding run_from
  run_from-Unsuccessful zero n s w p = tt
  run_from-Unsuccessful (suc limit) n s w p = elim (Result-cases (node deps n s w).0) [
    | inl (x, e) ↦ rw (e, run_from) tt
    | inr (s', e) ↦
        go s' e (λ m. run_from-Unsuccessful limit m s' (node deps n s w).1) (next n s') refl
          (Ensures-ok (λ s'. Stay s' (next n s')) e (node-Stay n s w p))
  ]
    where
      go :
          (s' : State)
          → (node deps n s w).0 ≡ ok s'
          → ((m : Node)
              → Stuck m s'
              → Unsuccessful (run_from deps limit m s' (node deps n s w).1).0)
          → (x : Next) → next n s' ≡ x
          → Stay s' x
          → Unsuccessful (run_from deps (suc limit) n s w).0
      go s' e k stop f l = rw (e, f, run_from) l
      go s' e k (goes m) f l = rw (e, f, run_from) (k m l)

  -- A run that has made a plan and stands at "verify" with an error of a tool on record, at a step
  -- other than "done", never ends in success, provided that the planner opens each plan with a step
  -- other than "done": whatever the later plans, the tools and the models do, it ends with status
  -- "failed", raises, or reaches the recursion limit.
  pub tool_error-Unsuccessful :
      (limit : ℕ) (s : State) (w : W)
      → s.last_tool_error ≢ none
      → 1 ≤ s.plan_count
      → AtWork s.plan s.step_index
      → Unsuccessful (run_from deps limit verify s w).0
  unfolding Stuck
  tool_error-Unsuccessful limit s w p q r = run_from-Unsuccessful limit verify s w (p, q, r)
