-- ===== src/Queue/Make.antt =====
-- `make_queue` of src/andera/queue/__init__.py, and the calls of it in src/andera/orchestrator/runner.py
-- and src/andera/worker.py. `str.lower` is a parameter.
use Prim.Native.String.{String, ◌++◌ as text_append}
use text.Mathlib.TextLemmas.{append_cancel_left}
use browser_agent.Common.{
  ℕ, ◌≡◌, ◌≢◌, ap, Bool, true, false, Option, none, some, str_eq, if◌then◌else◌,
}
use browser_agent.Agent.Effect.{Result, ok, raised, exception}

-- GLOBAL_QUEUE_PREFIX
abbrev pub global_queue_prefix : String
global_queue_prefix = "andera:queue:global"

-- What is made: where its items stand, and the cap on deliveries.
pub data Made : Type 0 where
  sqlite_queue : String → ℕ → Made
  redis_queue : String → String → ℕ → Made

pub record Config : Type 0 where
  pub backend : String
  pub run_id : Option String
  pub sqlite_path : Option String
  pub redis_url : Option String
  pub redis_prefix : Option String
  pub max_attempts : ℕ
  pub global_queue : Bool

-- `a or b` for a text b
abbrev pub or_text_of : Option String → String → String
or_text_of none b = b
or_text_of (some a) b = if str_eq a "" then b else a

module _ (lower : String → String) where
  abbrev pub make_sqlite : Config → Result Made
  make_sqlite c =
      if c.global_queue
      then raised (exception "ValueError: global queue requires redis backend")
      else elim c.run_id [
        | none ↦ raised (exception "ValueError: sqlite queue needs a run_id")
        | some run_id ↦ ok (
            sqlite_queue
              (or_text_of c.sqlite_path (text_append "data/" (text_append run_id ".queue.db")))
              c.max_attempts)
      ]

  abbrev pub make_redis : Config → Result Made
  make_redis c =
      let url = or_text_of c.redis_url "redis://localhost:6379/0" in
      if c.global_queue
      then ok (redis_queue url global_queue_prefix c.max_attempts)
      else elim c.run_id [
        | none ↦ raised (exception "ValueError: run-scoped redis queue needs a run_id")
        | some run_id ↦ ok (
            redis_queue url (or_text_of c.redis_prefix (text_append "andera:queue:" run_id))
              c.max_attempts)
      ]

  unfoldable pub make_queue : Config → Result Made
  make_queue c =
      let backend = lower (or_text_of (some c.backend) "sqlite") in
      let other : Result Made =
        if str_eq backend "redis"
        then make_redis c
        else raised (exception "ValueError: unknown queue backend") in
      if str_eq backend "sqlite" then make_sqlite c else other

-- The call in `RunWorkflow.__init__`, for a profile whose backend is redis.
abbrev pub coordinator_config : String → String → Option String → ℕ → Config
coordinator_config run_id redis_url redis_prefix max_attempts = record {
  backend = "redis";
  run_id = some run_id;
  sqlite_path = some (text_append "data/" (text_append run_id ".queue.db"));
  redis_url = some redis_url;
  redis_prefix = redis_prefix;
  max_attempts = max_attempts;
  global_queue = false;
}

-- The call in `run_agent_pool`.
abbrev pub agent_config : String → ℕ → Config
agent_config redis_url max_attempts = record {
  backend = "redis";
  run_id = none;
  sqlite_path = none;
  redis_url = some redis_url;
  redis_prefix = none;
  max_attempts = max_attempts;
  global_queue = true;
}

abbrev prefix_of : Result Made → String
prefix_of (ok (redis_queue url prefix m)) = prefix
prefix_of _ = ""

-- If the profile sets no prefix, the queue into which a run puts its samples is not the queue from which
-- the agents take them, unless the run is named "global".
pub make_queue-apart :
    (lower : String → String) (run_id redis_url : String) (m n : ℕ)
    → lower "redis" ≡ "redis"
    → run_id ≢ "global"
    → make_queue lower (coordinator_config run_id redis_url none m)
      ≢ make_queue lower (agent_config redis_url n)
unfolding make_queue
make_queue-apart lower run_id redis_url m n same other e =
    other (append_cancel_left "andera:queue:" run_id "global" (ap prefix_of (rw same at e)))
