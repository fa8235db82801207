-- ===== src/Tests/Service.antt =====
-- A run that its agents finish, subscribers of its events, and a host that is asked too often.
use browser_agent.Common.{
  ℕ, ◌+◌, ◌-◌, ◌*◌, ◌≤◌, max, String, ◌≡◌, refl, true, false, none, some, List, count_if, [], ◌∷◌,
  ◌==◌, get_elem?, arith,
}
use browser_agent.Json.{Fields, str, end, field}
use browser_agent.Agent.Effect.{ok}
use browser_agent.Orchestrator.Recorder.{no_progress}
use browser_agent.Orchestrator.Finalize.{RunResult, Site, Outside, finalize}
use browser_agent.Orchestrator.Finalize.Reports.{Reports, finalize-Reports}
use browser_agent.Api.EventBus.{EventBus, publishes, subscribes, receives, subscribe, run}
use browser_agent.Api.EventBus.Latest.{run-subscribe}
use browser_agent.Api.Registry.{RunRecord, RunRegistry}
use browser_agent.Api.Finalizer
use browser_agent.Api.Finalizer.{Workflow, Event, ticks, works}
use browser_agent.Api.Finalizer.Once.{Once, run-Once}
use browser_agent.Browser.RateLimiter.{Scale, HostRateLimiter}
use browser_agent.Browser.RateLimiter.Bound.{Turn, turns, admitted, admitted-turns}
use browser_agent.Browser.Pool
use browser_agent.Browser.Pool.{BrowserPool, Outcome, Action, acts, comes, tears_down}
use browser_agent.Browser.Pool.Bounded.{holders, has_session, lost, run-Bounded}
use browser_agent.Tests.Audit.{codec}
use browser_agent.Tests.Store.{hashing}
use browser_agent.Tests.Results.{failed_first, passed_later}

abbrev empty_bus : EventBus
empty_bus = record { subs = []; queues = [] }

abbrev event : String → Fields
event run_id = field "run_id" (str run_id) end

-- Two of the events of the run fit, and the event of another run is for the other subscriber only.
run-subscribe_example :
    get_elem?
      (run
        (publishes (event "a")
          ∷ subscribes none 9
          ∷ publishes (event "b")
          ∷ receives 1
          ∷ publishes (event "a")
          ∷ publishes (event "a")
          ∷ [])
        (subscribe (some "a") 2 empty_bus).1).queues
      0
    ≡ some (record { maxsize = 2; events = event "a" ∷ event "a" ∷ [] })
unfolding subscribe
run-subscribe_example =
    run-subscribe (some "a") 2
      (publishes (event "a")
        ∷ subscribes none 9
        ∷ publishes (event "b")
        ∷ receives 1
        ∷ publishes (event "a")
        ∷ publishes (event "a")
        ∷ [])
      empty_bus (record { made = tt }) (omega arith) (omega arith)

abbrev scale : Scale
scale = record { token = 10; least_rate = 1 }

abbrev limiter : HostRateLimiter
limiter = record { rps = 5; burst = 2; buckets = [] }

abbrev asked : ℕ → Turn
asked now = record { host = "example.org"; created = now; now = now }

admitted-turns_example :
    admitted scale "example.org"
        (asked 20 ∷ asked 20 ∷ asked 21 ∷ asked 22 ∷ [])
        (turns scale (asked 3 ∷ []) limiter)
      * 10
    ≤ 2 * 10 + (22 - 20) * max 1 5
unfolding browser_agent.Browser.RateLimiter.rate_limiter
admitted-turns_example =
    admitted-turns scale 5 2 limiter (asked 3 ∷ []) (asked 20 ∷ asked 20 ∷ asked 21 ∷ asked 22 ∷ [])
      "example.org" 20 22 refl (omega arith)

abbrev totals : RunResult
totals = record { run_id = "run"; total = 2; passed = 1; failed = 1; extracted_rows = [] }

-- A workflow that has so many jobs left.
abbrev workflow : Workflow ℕ
workflow = record {
  queue_drained = λ v. (ok (v == 0), v);
  finalize = λ v. (ok totals, v);
  root_of = λ r. "runs/run";
}

abbrev waiting : RunRecord ℕ
waiting = record {
  run_id = "run";
  task_id = none;
  status = "running";
  total = 2;
  passed = 0;
  failed = 0;
  run_root = some "runs/run";
  error = none;
  workflow = some 2;
  awaits_finalization = true;
}

abbrev registry : RunRegistry ℕ
registry = ("run", waiting) ∷ []

run-Once_example :
    Once workflow "run" waiting
      (Finalizer.run workflow (ticks ∷ works "run" (λ v. 0) ∷ ticks ∷ []) registry)
      (Finalizer.run workflow
        (ticks ∷ [])
        (Finalizer.run workflow (ticks ∷ works "run" (λ v. 0) ∷ ticks ∷ []) registry))
run-Once_example =
    run-Once workflow "run" waiting (ticks ∷ works "run" (λ v. 0) ∷ ticks ∷ []) (ticks ∷ [])
      registry (refl, refl, tt) refl refl (tt, (tt, (tt, tt))) (tt, tt)

abbrev pub outside : Outside String ℕ
outside = record {
  draw = λ w. (("event", "12:00"), w + 1);
  now = λ w. ("12:01", w + 1);
  write_fails = λ w. (none, w + 1);
  teardown = λ w. w;
}

abbrev site : Site String String ℕ
site = record {
  samples_jsonl = some failed_first ∷ none ∷ some passed_later ∷ [];
  progress = no_progress;
  audit = [];
  blobs = [];
  output_csv = none;
  manifest = none;
  world = 0;
}

finalize-Reports_example :
    Reports codec hashing outside "run" end end site
      (finalize codec hashing outside "run" end end site).0
      (finalize codec hashing outside "run" end end site).1
finalize-Reports_example = finalize-Reports codec hashing outside "run" end end site

-- One client gets the page, the other waits; the first browser does not close.
abbrev well : Outcome
well = record { starts = true; launches = true; opens = true }

abbrev pool : BrowserPool
pool = record { concurrency = 1; sem = 1; pw = false; browser = false; drivers = 0; chromiums = 0 }

abbrev visits : List Action
visits =
    comes
    ∷ comes
    ∷ acts 0 well
    ∷ acts 1 well
    ∷ acts 0 well
    ∷ acts 0 well
    ∷ tears_down false true
    ∷ acts 0 well
    ∷ acts 1 well
    ∷ []

run-Bounded_example :
    ((Pool.run visits [] pool).1.sem + holders (Pool.run visits [] pool).0 ≡ 1)
    × (count_if has_session (Pool.run visits [] pool).0 ≤ 1)
    × ((Pool.run visits [] pool).1.chromiums ≤ 1 + count_if lost visits)
unfolding browser_agent.Browser.Pool.browser_pool
run-Bounded_example = run-Bounded 1 pool visits refl
