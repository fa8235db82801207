-- ===== src/Agent/Graph/Termination.antt =====
-- The run of the graph ends by itself: every node lowers a budget that the plan's length, the
-- number of plans and the two retry counters bound.
use browser_agent.Common.{
  ℕ, zero, suc, ◌+◌, ◌*◌, ◌-◌, ◌≤◌, ◌<◌, ◌≡◌, ◌≢◌, refl, ap, inl, inr, arith, leb, length,
  Bool-cases,
}
use browser_agent.Agent.Effect.{ok, Ensures, Ensures-map, Ensures-ok, Result-cases}
use browser_agent.Agent.State.{State, Deps}
use browser_agent.Agent.Plan.{plan_max}
use browser_agent.Agent.Plan.Frame.{
  ShortPlans, Planned, gave_up, has_plan, plan_node-Planned, classify_node-Keeps,
}
use browser_agent.Agent.Act.Frame.{Leaves, act_node-Leaves}
use browser_agent.Agent.Verify.Frame.{
  Verified, stopped, replans, reflects, moves_on, verify_node-Verified, observe_node-Keeps,
}
use browser_agent.Agent.Extract.Frame.{Extracted, Judged, extract_node-Extracted, judge_node-Judged}
use browser_agent.Agent.Graph.{
  Node, classify, plan, act, observe, verify, extract, judge, Next, goes, stop, next,
  recursion_limit_reached, node, run_from, run_sample,
}

-- What the plans that are still allowed cost, where one costs `d`.
rounds : ℕ → ℕ → ℕ
rounds d zero = d + d + d
rounds d (suc zero) = d + d
rounds d (suc (suc zero)) = d
rounds d (suc (suc (suc n))) = 0

rounds-suc : (d n : ℕ) → n < plan_max → rounds d n ≡ d + rounds d (n + 1)
unfolding rounds
rounds-suc d zero p = omega arith
rounds-suc d (suc zero) p = omega arith
rounds-suc d (suc (suc zero)) p = omega arith
rounds-suc d (suc (suc (suc n))) p = absurd omega arith

module _ (longest : ℕ) where
  abbrev per_plan : ℕ
  per_plan = 3 * longest + 7

  abbrev left : State → ℕ
  left s = rounds per_plan s.plan_count + 9

  -- The steps that remain, and the reflections.
  abbrev tries : State → ℕ
  tries s = (length s.plan - s.step_index) + (2 - s.reflect_count)

  -- The nodes that can still run, this one included.
  budget : Node → State → ℕ
  budget classify s = left s + 1
  budget plan s = left s
  budget act s = left s + 3 * tries s
  budget observe s = left s + 3 * tries s - 1
  budget verify s = left s + 3 * tries s - 2
  budget extract s = 2 * (3 - s.reflect_count) + 2
  budget judge s = 2 * (3 - s.reflect_count) + 1

  Fits : Node → State → Type 0
  Fits act s = length s.plan ≤ longest
  Fits observe s = (length s.plan ≤ longest) × (s.step_index < length s.plan)
  Fits verify s = (length s.plan ≤ longest) × (s.step_index < length s.plan)
  Fits _ s = Unit

  -- The run ends, or the next node has less to spend.
  abbrev Lowers : ℕ → State → Next → Type 0
  Lowers n s stop = Unit
  Lowers n s (goes m) = Fits m s × (budget m s < n)

  budget-positive : (n : Node) (s : State) → 0 < budget n s
  unfolding budget
  budget-positive classify s = omega arith
  budget-positive plan s = omega arith
  budget-positive act s = omega arith
  budget-positive observe s = omega arith
  budget-positive verify s = omega arith
  budget-positive extract s = omega arith
  budget-positive judge s = omega arith

  module _ {W : Type 0} (deps : Deps W) (h : ShortPlans longest deps) where
    plan-Lowers : (s s' : State) → Planned longest s s' → Lowers (budget plan s) s' (next plan s')
    unfolding budget Fits next
    plan-Lowers s s' (gave_up e) = rw e tt
    plan-Lowers s s' (has_plan e p q r i c t) =
        rw e
          (r, omega (arith, q, r, i, c, rounds-suc per_plan s.plan_count p, ap (rounds per_plan) q))

    act-Lowers :
        (s s' : State)
        → length s.plan ≤ longest
        → Leaves s s'
        → Lowers (budget act s) s' (next act s')
    unfolding budget Fits next
    act-Lowers s s' p (k, inl e) = rw e tt
    act-Lowers s s' p (k, inr (inl e)) = rw e (tt, omega arith)
    act-Lowers s s' p (k, inr (inr (e, q))) =
        rw (e, k.length_plan, k.step_index, k.plan_count, k.reflect_count)
          ((p, q), omega (arith, q))

    verify-Lowers :
        (s s' : State)
        → Fits verify s
        → Verified s s'
        → Lowers (budget verify s) s' (next verify s')
    unfolding budget Fits next
    verify-Lowers s s' p (stopped e) = rw e tt
    verify-Lowers s s' p (replans e q t) = rw (e, q) (tt, omega (arith, p.1))
    verify-Lowers s s' p (reflects e q r i c b t) =
        elim (Bool-cases (leb (length s.plan) s.step_index)) [
          | inl f ↦ rw (e, q, r, i, c, f) (tt, omega (arith, p.1))
          | inr f ↦ rw (e, q, r, i, c, f) (p.0, omega (arith, p.1, b))
        ]
    verify-Lowers s s' p (moves_on e q r i c t) =
        elim (Bool-cases (leb (length s.plan) (s.step_index + 1))) [
          | inl f ↦ rw (e, q, r, i, c, f) (tt, omega (arith, p.1))
          | inr f ↦ rw (e, q, r, i, c, f) (p.0, omega (arith, p.1))
        ]

    extract-Lowers :
        (s s' : State) → Extracted s s' → Lowers (budget extract s) s' (next extract s')
    unfolding budget Fits next
    extract-Lowers s s' (e, c) = rw (e, c) (tt, omega arith)

    judge-Lowers : (s s' : State) → Judged s s' → Lowers (budget judge s) s' (next judge s')
    unfolding budget Fits next
    judge-Lowers s s' (inl e) = rw e tt
    judge-Lowers s s' (inr (e, p, c)) = rw (e, c) (tt, omega (arith, p))

    observe-Lowers :
        (s s' : State)
        → Fits observe s
        → (s'.plan_count ≡ s.plan_count)
          × (s'.plan ≡ s.plan)
          × (s'.step_index ≡ s.step_index)
          × (s'.reflect_count ≡ s.reflect_count)
          × (s'.last_tool_error ≡ s.last_tool_error)
        → Lowers (budget observe s) s' (next observe s')
    unfolding budget Fits next
    observe-Lowers s s' p (q, r, i, c, t) = rw (q, r, i, c) (p, omega (arith, p.1))

    classify-Lowers :
        (s s' : State)
        → (s'.plan_count ≡ s.plan_count) × (s'.last_tool_error ≡ s.last_tool_error)
        → Lowers (budget classify s) s' (next classify s')
    unfolding budget Fits next
    classify-Lowers s s' (q, t) = rw q (tt, omega arith)

    node-Lowers :
        (n : Node) (s : State) (w : W)
        → Fits n s
        → Ensures (λ s'. Lowers (budget n s) s' (next n s')) (node deps n s w).0
    unfolding node Fits
    node-Lowers classify s w p =
        Ensures-map (classify-Lowers s) _ (classify_node-Keeps deps longest h s w)
    node-Lowers plan s w p = Ensures-map (plan-Lowers s) _ (plan_node-Planned deps longest h s w)
    node-Lowers act s w p = Ensures-map (λ s'. act-Lowers s s' p) _ (act_node-Leaves deps s w)
    node-Lowers observe s w p =
        Ensures-map (λ s'. observe-Lowers s s' p) _ (observe_node-Keeps deps s w)
    node-Lowers verify s w p =
        Ensures-map (λ s'. verify-Lowers s s' p) _ (verify_node-Verified deps s w)
    node-Lowers extract s w p = Ensures-map (extract-Lowers s) _ (extract_node-Extracted deps s w)
    node-Lowers judge s w p = Ensures-map (judge-Lowers s) _ (judge_node-Judged deps s w)

    run_from-ends :
        (limit : ℕ) (n : Node) (s : State) (w : W)
        → Fits n s
        → budget n s ≤ limit
        → (run_from deps limit n s w).0 ≢ recursion_limit_reached
    unfolding run_from
    run_from-ends zero n s w p q = λ e. omega (arith, budget-positive n s)
    run_from-ends (suc limit) n s w p q = elim (Result-cases (node deps n s w).0) [
      | inl (x, e) ↦ rw (e, run_from) (λ f. cc)
      | inr (s', e) ↦
          go s' e (λ m. run_from-ends limit m s' (node deps n s w).1) (next n s') refl (lowers s' e)
    ]
      where
        lowers : (s' : State) → (node deps n s w).0 ≡ ok s' → Lowers (budget n s) s' (next n s')
        lowers s' e = Ensures-ok (λ s'. Lowers (budget n s) s' (next n s')) e (node-Lowers n s w p)

        go :
            (s' : State)
            → (node deps n s w).0 ≡ ok s'
            → ((m : Node)
                → Fits m s'
                → budget m s' ≤ limit
                → (run_from deps limit m s' (node deps n s w).1).0 ≢ recursion_limit_reached)
            → (x : Next) → next n s' ≡ x
            → Lowers (budget n s) s' x
            → (run_from deps (suc limit) n s w).0 ≢ recursion_limit_reached
        go s' e k stop f l = rw (e, f, run_from) (λ f. cc)
        go s' e k (goes m) f l = rw (e, f, run_from) (k m l.0 (omega (arith, l.1, q)))

    -- If no plan has more than `longest` steps and no plan was made yet, a run that is allowed
    -- `9 * longest + 31` nodes ends by itself, in a final state or with an exception: it does not
    -- reach the recursion limit, whatever the models and the pages answer.
    pub run_sample-ends :
        (limit : ℕ) (s : State) (w : W)
        → s.plan_count ≡ 0
        → 9 * longest + 31 ≤ limit
        → (run_sample deps limit s w).0 ≢ recursion_limit_reached
    unfolding run_sample budget Fits rounds
    run_sample-ends limit s w p q = run_from-ends limit classify s w tt (rw p (omega (arith, q)))
