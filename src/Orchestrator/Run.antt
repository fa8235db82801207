-- ===== src/Orchestrator/Run.antt =====
-- `execute` of src/andera/orchestrator/runner.py in embedded mode, on a `SqliteQueue`: what precedes the
-- workers, the workers, and the test that a finalizer polls. The events run.started and run.completed
-- of the audit log are left out.
pub mod Drains
use Prim.Native.String.{String, ◌++◌ as text_append}
use browser_agent.Common.{
  ℕ, zero, suc, ◌+◌, Bool, true, false, ◌&&◌, Option, none, some, List, [], ◌∷◌, ◌==◌, ltb, decimal,
  if◌then◌else◌, max,
}
use browser_agent.Json.{Fields}
use browser_agent.Agent.Step.{text_at, or_text}
use browser_agent.Queue.{pending, claimed}
use browser_agent.Queue.Sqlite.{Queue, enqueue, counts, reclaim_stale}
use browser_agent.Orchestrator.Recorder.{Recorder, is_completed, resumed}
use browser_agent.Orchestrator.Worker.{Env, Shop}
use browser_agent.Orchestrator.Worker.OnSqlite.{sqlite}
use browser_agent.Orchestrator.Sample.{Sample}
use browser_agent.Orchestrator.Crew.{Phase, workers, rounds}

-- f"{n:05d}"
abbrev pub decimal_05 : ℕ → String
decimal_05 n =
    if ltb n 10
    then text_append "0000" (decimal n)
    else (if ltb n 100
        then text_append "000" (decimal n)
        else (if ltb n 1000
            then text_append "00" (decimal n)
            else (if ltb n 10000 then text_append "0" (decimal n) else decimal n)))

abbrev pub sample_id_of : String → ℕ → String
sample_id_of run_id idx = text_append run_id (text_append "-" (decimal_05 idx))

-- `row.get("url") or self.task.get("default_url")`
abbrev pub start_url_of : Fields → Fields → Option String
start_url_of row task = or_text (text_at "url" row) (text_at "default_url" task)

abbrev pub sample_of : String → Fields → ℕ → Fields → Sample
sample_of run_id task idx row = record {
  sample_id = sample_id_of run_id idx;
  row_index = some idx;
  input_data = row;
  start_url = start_url_of row task;
  run_id = some run_id;
  task = task;
}

module _ {W : Type 0} (env : Env Sample W) where
  -- One turn of the loop of `_enqueue_all`.
  unfoldable pub enqueue_row :
      String → Fields → ℕ → Fields → Shop (Queue Sample) W → Shop (Queue Sample) W
  enqueue_row run_id task idx row s =
      let (fresh, w₁) = env.uuid s.world in
      let (created, w₂) = env.now w₁ in
      let (updated, w₃) = env.now w₂ in
      if is_completed (sample_id_of run_id idx) s.recorder.completed_ids then s else record s {
        queue = (enqueue none (sample_of run_id task idx row) fresh created updated s.queue).1;
        world = w₃;
      }

  -- `_enqueue_all`, from an index on
  unfoldable pub enqueue_all :
      String → Fields → ℕ → List Fields → Shop (Queue Sample) W → Shop (Queue Sample) W
  unfolding enqueue_row
  enqueue_all run_id task idx [] s = s
  enqueue_all run_id task idx (row ∷ rows) s =
      enqueue_all run_id task (idx + 1) rows (enqueue_row run_id task idx row s)

  -- What a resumed run takes over: the completed samples, and the claims of a process that is gone.
  unfoldable pub take_over : Bool → Shop (Queue Sample) W → Shop (Queue Sample) W
  take_over false s = s
  take_over true s =
      let (now, w₁) = env.now s.world in
      let (updated, w₂) = env.now w₁ in
      record {
        recorder = resumed s.recorder.samples_jsonl;
        queue = (reclaim_stale 0 now updated s.queue).1;
        world = w₂;
      }

  -- Up to the first `gather`.
  unfoldable pub prepare :
      Bool → String → Fields → List Fields → Shop (Queue Sample) W → Shop (Queue Sample) W
  unfolding take_over enqueue_all
  prepare resuming run_id task rows s = enqueue_all run_id task 0 rows (take_over resuming s)

  -- `max(1, concurrency)` workers, in the rounds of a schedule.
  unfoldable pub gather :
      ℕ → List (List ℕ) → Shop (Queue Sample) W → List (Phase Sample) × Shop (Queue Sample) W
  gather concurrency schedules s = rounds sqlite env schedules (workers (max 1 concurrency)) s

-- `queue_drained`
unfoldable pub queue_drained : {P : Type 0} → Queue P → Bool
queue_drained q = (counts q pending == 0) && (counts q claimed == 0)
