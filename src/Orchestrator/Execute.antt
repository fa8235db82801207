-- ===== src/Orchestrator/Execute.antt =====
-- `execute` of `RunWorkflow` in src/andera/orchestrator/runner.py on a `SqliteQueue`, with the events of the
-- audit log and with `finalize`. The run config, the trace, the signal handlers and the start of the
-- browser are left out; the workers take the turns of a schedule.
pub mod Finalizes
use browser_agent.Common.{
  ℕ, String, Bool, true, false, Option, none, some, List, [], ◌∷◌, length, ◌==◌, ◌||◌, Dict,
  if◌then◌else◌,
}
use browser_agent.Json.{Json, pos, Fields, bool, num, end, field, get}
use browser_agent.Agent.Effect.{Result, ok, raised}
use browser_agent.Queue.{pending}
use browser_agent.Queue.Sqlite.{Queue, counts, reclaim_stale}
use browser_agent.Orchestrator.Recorder.{progress}
use browser_agent.Orchestrator.Worker.{Env, Shop}
use browser_agent.Orchestrator.Sample.{Sample, Scene}
use browser_agent.Orchestrator.Run.{take_over, enqueue_all, gather}
use browser_agent.Orchestrator.Finalize.{RunResult, Site, Outside, finalize}
use browser_agent.Storage.AuditLog
use browser_agent.Storage.AuditLog.{Codec, Event}
use browser_agent.Storage.Manifest.{Hashing, Written}

-- What a run changes.
pub record Plant (H W : Type 0) : Type 0 where
  pub shop : Shop (Queue Sample) (Scene H W)
  pub output_csv : Option (List (List Json))
  pub manifest : Option Written

-- What a run is told.
pub record Order : Type 0 where
  pub run_id : String
  pub task : Fields
  pub rows : List Fields
  pub resuming : Bool
  pub distributed : Bool
  pub concurrency : ℕ
  pub profile_excerpt : Fields

module _ {H B W : Type 0} (codec : Codec H) (hashing : Hashing B) (outside : Outside H W)
    (blobs_of : W → Dict B) (env : Env Sample (Scene H W)) (order : Order) where
  abbrev pub fresh_start : Fields
  fresh_start = field "task" (get "task_id" order.task) (
      field "total" (num (pos (length order.rows)))
        (field "distributed" (bool order.distributed) end))

  -- The payload of a resumed run: the count of completed samples after they are read, and of the claims
  -- that are released.
  abbrev pub resumption : Shop (Queue Sample) (Scene H W) → Shop (Queue Sample) (Scene H W) → Fields
  resumption before after =
      let (now, w₁) = env.now before.world in
      let (updated, w₂) = env.now w₁ in
      field "resumed" (bool true) (
        field "already_completed" (num (pos (length after.recorder.completed_ids))) (
          field "reclaimed_stale" (num (pos (reclaim_stale 0 now updated before.queue).0))
            (field "distributed" (bool order.distributed) end)))

  abbrev pub started : Fields → Scene H W → Event
  started payload s = record {
    kind = "run.started";
    payload = payload;
    run_id = some order.run_id;
    sample_id = none;
    event_id = none;
    fresh = (outside.draw s.world).0.0;
    timestamp = (outside.draw s.world).0.1;
  }

  -- `self.audit.append(kind="run.started", …)`
  unfoldable pub note_started :
      Fields → Shop (Queue Sample) (Scene H W) → Result H × Shop (Queue Sample) (Scene H W)
  note_started payload s =
      let (r, rows) = AuditLog.append codec (started payload s.world) s.world.audit in
      (r, record s { world = record { audit = rows; world = (outside.draw s.world.world).1 } })

  -- Up to the event run.started.
  unfoldable pub open_run :
      Shop (Queue Sample) (Scene H W) → Result H × Shop (Queue Sample) (Scene H W)
  unfolding note_started
  open_run s =
      let s' = take_over env order.resuming s in
      note_started (if order.resuming then resumption s s' else fresh_start) s'

  -- The loop over `gather`, for some schedules: none if they do not bring it to its end.
  unfoldable pub drive :
      List (List (List ℕ))
      → Shop (Queue Sample) (Scene H W)
      → Option (Shop (Queue Sample) (Scene H W))
  drive [] s = none
  drive (schedules ∷ more) s =
      let t = (gather env order.concurrency schedules s).1 in
      let rest = drive more t in
      if env.stop_is_set t.world || (counts t.queue pending == 0) then some t else rest

  abbrev pub site_of : Plant H W → Site H B W
  site_of p = record {
    samples_jsonl = p.shop.recorder.samples_jsonl;
    progress = progress p.shop.recorder;
    audit = p.shop.world.audit;
    blobs = blobs_of p.shop.world.world;
    output_csv = p.output_csv;
    manifest = p.manifest;
    world = p.shop.world.world;
  }

  abbrev pub with_site : Site H B W → Plant H W → Plant H W
  with_site s p = record {
    shop = record {
      queue = p.shop.queue;
      recorder = record {
        counters = s.progress.counters;
        completed_ids = s.progress.completed_ids;
        samples_jsonl = s.samples_jsonl;
      };
      world = record { audit = s.audit; world = s.world };
    };
    output_csv = s.output_csv;
    manifest = s.manifest;
  }

  unfoldable pub finalized : Plant H W → Result RunResult × Plant H W
  finalized p =
      let (r, s) =
        finalize codec hashing outside order.run_id order.task order.profile_excerpt (site_of p) in
      (r, with_site s p)

  -- What a distributed run hands back.
  abbrev pub handed_off : RunResult
  handed_off = record {
    run_id = order.run_id;
    total = length order.rows;
    passed = 0;
    failed = 0;
    extracted_rows = [];
  }

  -- From `_enqueue_all` on, and from the workers on.
  unfoldable pub go_on : List (List (List ℕ)) → Plant H W → Option (Result RunResult × Plant H W)
  unfolding drive finalized
  go_on schedules p =
      let s = enqueue_all env order.run_id order.task 0 order.rows p.shop in
      if order.distributed
      then some (ok handed_off, record p { shop = s })
      else elim (drive schedules s) [
        | none ↦ none
        | some t ↦ some (finalized (record p { shop = t }))
      ]

  unfoldable pub execute : List (List (List ℕ)) → Plant H W → Option (Result RunResult × Plant H W)
  unfolding open_run go_on
  execute schedules p =
      let (r, s) = open_run p.shop in
      elim r [
        | raised e ↦ some (raised e, record p { shop = s })
        | ok h ↦ go_on schedules (record p { shop = s })
      ]
