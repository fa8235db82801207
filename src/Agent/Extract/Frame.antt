-- ===== src/Agent/Extract/Frame.antt =====
-- How the nodes "extract" and "judge" leave a state.
use browser_agent.Common.{◌+◌, ◌<◌, ◌≡◌, refl, ◌⊎◌, inl, inr, arith, false, Bool-cases}
use browser_agent.Json.{Json}
use browser_agent.Agent.Effect.{Result, Ensures, Result-cases}
use browser_agent.Agent.State.{State, Deps, judging, extracting, done}
use browser_agent.Agent.Plan.{reflect_max}
use browser_agent.Agent.Extract.{
  extract_node, judge_node, judged, wants_retry, verdict_in, extract_loop, extract_retry_max,
  no_attempt, is_empty,
}

abbrev pub Extracted : State → State → Type 0
Extracted s s' = (s'.status ≡ judging) × (s'.reflect_count ≡ s.reflect_count)

-- The verdict stands, or the extractor gets another turn.
abbrev pub Judged : State → State → Type 0
Judged s s' =
    (s'.status ≡ done)
    ⊎ ((s'.status ≡ extracting)
        × (s.reflect_count < reflect_max)
        × (s'.reflect_count ≡ s.reflect_count + 1))

module _ {W : Type 0} (deps : Deps W) where
  judged-Judged : (s : State) (answer : Result Json) → Judged s (judged deps s answer)
  unfolding judged wants_retry
  judged-Judged s answer = elim (Bool-cases (wants_retry (verdict_in answer) s.reflect_count)) [
    | inl e ↦ rw e (inr (refl, ground arith, refl))
    | inr e ↦ rw e (inl refl)
  ]

  pub extract_node-Extracted : (s : State) (w : W) → Ensures (Extracted s) (extract_node deps s w).0
  unfolding extract_node
  extract_node-Extracted s w = elim (Bool-cases (is_empty s.extract_schema)) [
    | inl e ↦ rw (e, Ensures) (refl, refl)
    | inr e ↦
        elim (Result-cases
          (extract_loop deps (extract_retry_max + 1) false s (no_attempt deps) w).0) [
            | inl (x, f) ↦ rw (e, f, Ensures) tt
            | inr (a, f) ↦ rw (e, f, Ensures) (refl, refl)
          ]
  ]

  pub judge_node-Judged : (s : State) (w : W) → Ensures (Judged s) (judge_node deps s w).0
  unfolding judge_node
  judge_node-Judged s w = ground (arith, judged-Judged s)
