-- ===== src/Agent/Act/Finish.antt =====
-- Only the action "done" ends the steps.
use browser_agent.Common.{
  String, ℕ, ◌≡◌, ◌≢◌, none, List, Bool, true, false, str_eq, arith, if◌then◌else◌,
}
use browser_agent.Json.{Fields}
use browser_agent.Agent.Effect.{Result, ok}
use browser_agent.Agent.Step.{Action, text_at, text_or}
use browser_agent.Agent.Observations.{Observation}
use browser_agent.Agent.Tools.{ToolResult}
use browser_agent.Agent.State.{Deps}
use browser_agent.Agent.Act.Handlers.{
  Acted, result, finished, unknown, handle, visual_do, goto_search_result, act_on_mark,
  act_by_vision, screenshot, screenshot_all, visit_each_link,
}

module _ {W : Type 0} (deps : Deps W) where
  goto_search_result-goes_on :
      (d : Fields) (os : List Observation) (w : W)
      → (goto_search_result deps d os w).0 ≢ ok finished
  unfolding goto_search_result
  goto_search_result-goes_on d os w = ground arith

  visual_do-goes_on : (i : ℕ) (step : Action) (w : W) → (visual_do deps i step w).0 ≢ ok finished
  unfolding visual_do act_by_vision act_on_mark
  visual_do-goes_on i step w = ground arith

  abbrev taken : Bool → Result Acted × W → Result Acted × W → Result Acted
  taken b x y = let r : Result Acted × W = if b then x else y in r.0

  either :
      (b : Bool) (x y : Result Acted × W)
      → x.0 ≢ ok finished
      → y.0 ≢ ok finished
      → taken b x y ≢ ok finished
  either true x y p q = p
  either false x y p q = q

  result-goes_on : (r : ToolResult) → ok (result r none) ≢ ok finished
  result-goes_on r = λ e. cc

  not_done :
      (b : Bool) (a : String) (w : W)
      → b ≡ false
      → taken b (ok finished, w) (ok (unknown a), w) ≢ ok finished
  not_done b a w p = rw p (λ e. cc)

  -- An action other than "done" does not end the steps.
  pub handle-goes_on :
      (i : ℕ) (step : Action) (schema : Fields) (os : List Observation) (w : W)
      → str_eq (text_or (text_at "action" step.given) "") "done" ≡ false
      → (handle deps i step schema os w).0 ≢ ok finished
  unfolding handle screenshot screenshot_all visit_each_link
  handle-goes_on i step schema os w p =
      let is : String → Bool = str_eq (text_or (text_at "action" step.given) "") in
      either (is "goto") _ _ (result-goes_on _) (
        either (is "click") _ _ (result-goes_on _) (
          either (is "type") _ _ (result-goes_on _) (
            either (is "screenshot") _ _ (result-goes_on _) (
              either (is "screenshot_all") _ _ (result-goes_on _) (
                either (is "search") _ _ (result-goes_on _) (
                  either (is "goto_search_result") _ _ (goto_search_result-goes_on step.given os w)
                    (either (is "scroll") _ _ (result-goes_on _) (
                      either (is "scroll_to") _ _ (result-goes_on _) (
                        either (is "visit_each_link") _ _ (result-goes_on _) (
                          either (is "visual_do") _ _ (visual_do-goes_on i step w) (
                            either (is "annotate") _ _ (result-goes_on _) (
                              either (is "click_mark") _ _ (result-goes_on _) (
                                either (is "type_mark") _ _ (result-goes_on _) (
                                  either (is "extract") _ _ (result-goes_on _)
                                    (not_done (is "done") _ w p)))))))))))))))
