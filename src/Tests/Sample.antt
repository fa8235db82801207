-- ===== src/Tests/Sample.antt =====
-- A sample whose browser is closed, whose planner clicks, and whose models answer plainly.
use browser_agent.Common.{
  String, ◌≡◌, ◌≢◌, refl, Bool, true, false, Option, none, some, List, [], ◌∷◌, arith, map, length,
  ◌↔◌,
}
use browser_agent.Json.{Json, null, str, pos, arr, obj, nil, cons, Fields, end, field}
use browser_agent.Agent.Effect.{exception, Result, ok, raised, Ensures}
use browser_agent.Agent.Step.{Step, action_step, bad, Descriptor}
use browser_agent.Agent.Observations.{
  Observation, full, abstracted, keys_line, abstract, compact_observations,
}
use browser_agent.Agent.Observations.Compaction.{
  earlier, latest, extracts_of, compact_observations_lem,
}
use browser_agent.Agent.Tools.{Mark, Session}
use browser_agent.Agent.Descriptor.{match_descriptor, descriptor_for, fits}
use browser_agent.Agent.Descriptor.Replay.{match_descriptor-descriptor_for}
use browser_agent.Agent.State.{State, Deps, Reply, acting, verifying}
use browser_agent.Agent.Plan.{plan_in, steps_in}
use browser_agent.Agent.Plan.Frame.{ShortPlans}
use browser_agent.Agent.Plan.Replan.{Plans}
use browser_agent.Agent.Act.Stay.{AtWork}
use browser_agent.Agent.Act.{act_node}
use browser_agent.Agent.Act.Frame.{Leaves, act_node-Leaves}
use browser_agent.Agent.Verify.{verify_node}
use browser_agent.Agent.Verify.Frame.{Verified, verify_node-Verified}
use browser_agent.Agent.Extract.{extract_node}
use browser_agent.Agent.Extract.Valid.{Meets, extract_node-valid}
use browser_agent.Agent.Graph.{verify, recursion_limit_reached, run_from, run_sample}
use browser_agent.Agent.Graph.Termination.{run_sample-ends}
use browser_agent.Agent.Graph.ToolError.{Unsuccessful, tool_error-Unsuccessful}
use browser_agent.Agent.Graph.BadStep.{ToolError}

abbrev pub closed : {A : Type 0} → Unit {0} → Result A × Unit {0}
closed w = (raised (exception "TargetClosedError"), w)

abbrev pub browser : Session (Unit {0})
browser = record {
  goto = λ url w. (ok tt, w);
  click = λ target. closed;
  fill = λ selector value. closed;
  screenshot = λ name is_full folder. closed;
  scroll = λ amount. closed;
  scroll_to = λ target. closed;
  web_search = λ query limit. closed;
  visit_each_link = λ pattern limit template folder. closed;
  screenshot_chunks = λ name folder. closed;
  extract = λ schema. closed;
  snapshot = closed;
  mark_and_screenshot = λ name. closed;
  click_mark = λ i. closed;
  type_mark = λ i value. closed;
}

abbrev pub click_step : Fields
click_step = field "action" (str "click") (field "target" (str "Next") end)

abbrev pub reply : Json → Reply
reply v = record { parsed = v; content = ok v }

abbrev pub deps : Deps (Unit {0})
deps = record {
  planner = λ p w. (ok (reply (arr (cons (obj click_step) nil))), w);
  navigator = λ p w. (ok (reply (obj end)), w);
  extractor = λ p w. (ok (reply (obj (field "title" (str "Invoice") end))), w);
  judge = λ p w. (ok (reply (obj (field "verdict" (str "fail") end))), w);
  classifier = none;
  vision = none;
  browser = browser;
  plan_cache = none;
  plan_key = λ task schema url. task;
  search_re = λ pattern text. some true;
  iter_errors = λ schema d. [];
}

abbrev start : State
start = record {
  task_prompt = "Open each invoice";
  input_data = end;
  start_url = none;
  extract_schema = field "type" (str "object") end;
  plan = [];
  step_index = 0;
  observations = [];
  tool_calls = [];
  evidence = [];
  extracted = null;
  reflect_count = 0;
  consecutive_fails = 0;
  plan_count = 0;
  plan_cache_hit = false;
  task_type = none;
  last_tool_error = none;
  extract_errors = [];
  judge_feedback = none;
  status = acting;
  verdict = none;
  verdict_reason = none;
  error = none;
}

abbrev the_click : Step
the_click = action_step (record { given = click_step; resolved = none })

-- After a click that has failed.
abbrev clicked : State
clicked = record start {
  plan = the_click ∷ [];
  plan_count = 1;
  status = verifying;
  consecutive_fails = 1;
  last_tool_error = some (exception "TargetClosedError");
}

abbrev with_bad_step : State
with_bad_step = record start { plan = bad (str "click Next") ∷ []; plan_count = 1 }

deps-ShortPlans : ShortPlans 18 deps
unfolding plan_in steps_in
deps-ShortPlans = record { planned = λ p w. omega arith; cached = λ c e key w plan f. cc }

deps-Opens : Plans (λ p. AtWork p 0) deps
unfolding plan_in steps_in
deps-Opens p w = (the_click, refl, refl)

run_sample-ends_example : (run_sample deps 200 start tt).0 ≢ recursion_limit_reached
run_sample-ends_example = run_sample-ends 18 deps deps-ShortPlans 200 start tt refl (omega arith)

tool_error-Unsuccessful_example : Unsuccessful (run_from deps 200 verify clicked tt).0
tool_error-Unsuccessful_example =
    tool_error-Unsuccessful deps deps-Opens 200 clicked tt (λ e. cc) (omega arith)
      (the_click, refl, refl)

verify_node-Verified_example : Ensures (Verified clicked) (verify_node deps clicked tt).0
verify_node-Verified_example = verify_node-Verified deps clicked tt

act_node-Leaves_example : Ensures (Leaves clicked) (act_node deps clicked tt).0
act_node-Leaves_example = act_node-Leaves deps clicked tt

extract_node-valid_example :
    Ensures
      (λ s'. s'.extract_errors ≡ [] → Meets (λ schema d. []) start.extract_schema s'.extracted)
      (extract_node deps start tt).0
extract_node-valid_example = extract_node-valid deps start tt refl

abbrev next_link : Mark
next_link = record {
  mark_id = pos 4;
  role = "link";
  name = "Next";
  href = "/page/2";
  placeholder = "";
  viewport_region = "bottom";
}

abbrev hint : Descriptor
hint = record {
  role = "link";
  href_pattern = "^/page/";
  name_pattern = "";
  placeholder_pattern = "";
  viewport_region = "";
  ordinal = pos 0;
}

abbrev always : String → String → Option Bool
always pattern text = some true

match_descriptor-descriptor_for_example :
    (match_descriptor always
        (some (descriptor_for always next_link (next_link ∷ []) hint))
        (next_link ∷ [])
      ≡ some next_link)
    ↔ (fits always (descriptor_for always next_link (next_link ∷ []) hint) next_link ≡ true)
match_descriptor-descriptor_for_example =
    match_descriptor-descriptor_for always next_link (next_link ∷ []) hint refl

abbrev invoices_page : Observation
invoices_page = full "snapshot" (field "title" (str "Invoices") end)

abbrev history : List Observation
history =
    abstracted (record { base = "snapshot"; abstracts = 1 })
      (keys_line (record { base = "snapshot"; abstracts = 0 }) 4)
    ∷ invoices_page
    ∷ invoices_page
    ∷ invoices_page
    ∷ invoices_page
    ∷ invoices_page
    ∷ []

compact_observations_lem_example :
    (length (compact_observations history) ≡ 6)
    × (extracts_of (compact_observations history) ≡ [])
    × (latest (compact_observations history) ≡ latest history)
    × (earlier (compact_observations history) ≡ map abstract (earlier history))
compact_observations_lem_example = compact_observations_lem history
