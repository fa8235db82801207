-- ===== src/Tests/Execute.antt =====
-- A run of one row with two workers, whose sample raises each time.
use browser_agent.Common.{String, ℕ, zero, suc, ◌+◌, ◌≡◌, refl, false, none, some, [], ◌∷◌, arith}
use browser_agent.Json.{str, end, field}
use browser_agent.Agent.Effect.{exception, raised}
use browser_agent.Queue.Sqlite.Invariant.{IsValid}
use browser_agent.Orchestrator.Recorder.{resumed}
use browser_agent.Orchestrator.Worker.{Env}
use browser_agent.Orchestrator.Sample.{Sample, Scene}
use browser_agent.Orchestrator.Run.{gather}
use browser_agent.Orchestrator.Crew.Stop.{Sticky}
use browser_agent.Orchestrator.Execute.{Plant, Order, execute, finalized}
use browser_agent.Orchestrator.Execute.Finalizes.{working, execute-finalized}
use browser_agent.Storage.AuditLog.{hash}
use browser_agent.Tests.Audit.{codec}
use browser_agent.Tests.Store.{hashing}
use browser_agent.Tests.Service.{outside}
use browser_agent.Tests.Crew.{many, many-Visit}

abbrev env : Env Sample (Scene String ℕ)
env = record {
  stop_is_set = λ s. false;
  uuid = λ s. (elim s.world [ zero ↦ "a" | suc n ↦ "b" ], record s { world = s.world + 1 });
  now = λ s. (100, s);
  run_one = λ job s. (raised (exception "TimeoutError"), s);
  describe = λ e. "TimeoutError: ";
}

abbrev order : Order
order = record {
  run_id = "run";
  task = end;
  rows = field "url" (str "https://example.org/1") end ∷ [];
  resuming = false;
  distributed = false;
  concurrency = 2;
  profile_excerpt = end;
}

abbrev plant : Plant String ℕ
plant = record {
  shop = record {
    queue = record { max_attempts = 3; rows = [] };
    recorder = resumed [];
    world = record { audit = []; world = 0 };
  };
  output_csv = none;
  manifest = none;
}

empty-IsValid : IsValid plant.shop.queue
empty-IsValid = record { attempts_left = omega arith; distinct = tt; rows_valid = tt }

sticky : Sticky env
sticky = record { uuid = λ w h. h; now = λ w h. h; run_one = λ j w h. h }

execute-finalized_example :
    execute codec hashing outside (λ w. []) env order (many 20 ∷ []) plant
    ≡ some (
        finalized codec hashing outside
          (λ w. [])
          env
          order
          (record plant {
            shop =
                (gather env 2
                  (many 20)
                  (working codec hashing outside (λ w. []) env order plant)).1;
          }))
unfolding browser_agent.Orchestrator.Execute.open_run browser_agent.Queue.Sqlite.Totals.total
    browser_agent.Orchestrator.Run.enqueue_all browser_agent.Orchestrator.Run.take_over
    browser_agent.Orchestrator.Recorder.load_completed browser_agent.Queue.Sqlite.enqueue
    browser_agent.Storage.AuditLog.append
execute-finalized_example =
    execute-finalized codec hashing outside (λ w. []) env order (many 20) [] plant
      (hash codec "0" "event" "run.started" "12:00" end) refl refl sticky empty-IsValid
      (many-Visit 20) (omega arith)
