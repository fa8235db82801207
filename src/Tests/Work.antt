-- ===== src/Tests/Work.antt =====
-- A queue with two jobs, and calls that workers make of it.
use browser_agent.Common.{ℕ, String, ◌≤◌, refl, none, List, [], ◌∷◌, ◌+◌, arith}
use browser_agent.Queue.{pending}
use browser_agent.Queue.Sqlite.{Row, Queue, dequeue}
use browser_agent.Queue.Sqlite.History.{Call, dequeues, acks, nacks, reclaims, run}
use browser_agent.Queue.Sqlite.Invariant.{IsValid}
use browser_agent.Queue.Sqlite.Preserved.{run-IsValid}
use browser_agent.Queue.Sqlite.Claim.{Claims, dequeue-Claims}
use browser_agent.Queue.Sqlite.Delivery.{deliveries, deliveries-le-max_attempts}
use browser_agent.Common.{false}
use browser_agent.Agent.Effect.{exception, raised}
use browser_agent.Orchestrator.Recorder.{resumed}
use browser_agent.Orchestrator.Worker.{Env, Shop, worker}
use browser_agent.Orchestrator.AgentPool.Node.{node_loop, Leaves, node_loop-Leave}
use browser_agent.Orchestrator.Worker.OnSqlite.{
  sqlite_laws, work_in as table_work, sqlite, Drains, worker-Drains,
}

abbrev pub row : String → ℕ → Row ℕ
row id created = record {
  item_id = id;
  payload = 7;
  status = pending;
  claimed_at = none;
  claim_token = none;
  attempts = 0;
  last_error = none;
  created_at = created;
  updated_at = created;
}

abbrev pub two_jobs : Queue ℕ
two_jobs = record { max_attempts = 3; rows = row "b" 20 ∷ row "a" 10 ∷ [] }

pub two_jobs-IsValid : IsValid two_jobs
two_jobs-IsValid = record {
  attempts_left = omega arith;
  distinct = ((refl, tt), (tt, tt));
  rows_valid = ((refl, refl, omega arith), ((refl, refl, omega arith), tt));
}

abbrev calls : List (Call ℕ)
calls =
    dequeues "t1" 30 30
    ∷ nacks "a" "timeout" 40
    ∷ dequeues "t2" 50 50
    ∷ reclaims 0 60 60
    ∷ dequeues "t3" 70 70
    ∷ acks "a" 80
    ∷ []

run-IsValid_example : IsValid (run calls two_jobs)
run-IsValid_example = run-IsValid calls two_jobs two_jobs-IsValid

dequeue-Claims_example :
    Claims "t1" 30 31 two_jobs (dequeue "t1" 30 31 two_jobs).0 (dequeue "t1" 30 31 two_jobs).1
dequeue-Claims_example = dequeue-Claims "t1" 30 31 two_jobs two_jobs-IsValid

deliveries-le-max_attempts_example : deliveries "a" calls two_jobs ≤ 3 + 1
deliveries-le-max_attempts_example =
    deliveries-le-max_attempts "a" calls two_jobs two_jobs-IsValid
      (tt, (tt, (tt, (tt, (tt, (tt, tt))))))

-- A worker whose samples all raise.
abbrev pub env : Env ℕ (Unit {0})
env = record {
  stop_is_set = λ w. false;
  uuid = λ w. ("t", w);
  now = λ w. (100, w);
  run_one = λ job w. (raised (exception "TimeoutError"), w);
  describe = λ e. "TimeoutError: ";
}

abbrev pub shop : Shop (Queue ℕ) (Unit {0})
shop = record { queue = two_jobs; recorder = resumed []; world = tt }

worker-Drains_example : Drains env (worker sqlite env 7 shop)
unfolding browser_agent.Queue.Sqlite.Totals.total
worker-Drains_example = worker-Drains env 7 shop two_jobs-IsValid (omega arith)

node_loop-Leave_example :
    Leaves sqlite sqlite_laws env 0 (table_work two_jobs) (node_loop sqlite env 9 0 0 shop)
unfolding browser_agent.Queue.Sqlite.Totals.total sqlite_laws
node_loop-Leave_example =
    node_loop-Leave sqlite sqlite_laws env 9 shop two_jobs-IsValid (omega arith)
