-- ===== src/Orchestrator/Finalize.antt =====
-- `finalize` of `RunWorkflow` in src/andera/orchestrator/runner.py, over samples.jsonl, the audit log, the
-- blobs, output.csv and RUN_MANIFEST.json. The trace is left out, and the browser pool that is torn down
-- is part of the world.
pub mod Reports
use browser_agent.Common.{ℕ, String, Option, none, some, List, [], ◌∷◌, length, map, Dict}
use browser_agent.Json.{Json, ℤ, pos, Fields, num, obj, end, field, or_else}
use browser_agent.Agent.Effect.{Failure, exception, Eff, ok, raised}
use browser_agent.Orchestrator.Recorder.{Result, Progress, load_completed, no_progress}
use browser_agent.Orchestrator.Report.{samples_summary, rebuild_csv}
use browser_agent.Storage.AuditLog
use browser_agent.Storage.AuditLog.{Codec, Row, Event}
use browser_agent.Storage.Manifest.{Hashing, Written, write_manifest}

pub record RunResult : Type 0 where
  pub run_id : String
  pub total : ℕ
  pub passed : ℕ
  pub failed : ℕ
  pub extracted_rows : List Json

-- What `finalize` reads and writes. A file that is missing or unreadable is none.
pub record Site (H B W : Type 0) : Type 0 where
  pub samples_jsonl : List (Option Result)
  pub progress : Progress
  pub audit : List (Row H)
  pub blobs : Dict B
  pub output_csv : Option (List (List Json))
  pub manifest : Option Written
  pub world : W

-- What it takes from outside.
pub record Outside (H W : Type 0) : Type 0 where
  -- the uuid and the time of an event
  pub draw : W → (String × String) × W
  -- the time in a manifest
  pub now : W → String × W
  -- Whether the manifest cannot be written, with the exception and the file that is left.
  pub write_fails : W → Option (Failure × Option Written) × W
  pub teardown : W → W

module _ {H B W : Type 0} (codec : Codec H) (hashing : Hashing B) (outside : Outside H W) where
  abbrev pub completed : String → Progress → Site H B W → Event
  completed run_id p s = record {
    kind = "run.completed";
    payload = field "passed" (num (pos p.counters.passed)) (
        field "failed" (num (pos p.counters.failed))
          (field "total" (num (pos p.counters.total)) end));
    run_id = some run_id;
    sample_id = none;
    event_id = none;
    fresh = (outside.draw s.world).0.0;
    timestamp = (outside.draw s.world).0.1;
  }

  abbrev pub manifest_for : String → Fields → Fields → String → Site H B W → Written
  manifest_for run_id task excerpt now s =
      write_manifest hashing run_id task (samples_summary s.samples_jsonl)
        (some (codec.hex (AuditLog.root_hash codec (some run_id) s.audit))) excerpt now s.blobs

  abbrev pub result_of : String → Progress → Site H B W → RunResult
  result_of run_id p s = record {
    run_id = run_id;
    total = p.counters.total;
    passed = p.counters.passed;
    failed = p.counters.failed;
    extracted_rows = map (λ r. or_else r.extracted (obj end)) (samples_summary s.samples_jsonl);
  }

  -- From the manifest on.
  unfoldable pub write_up : String → Fields → Fields → Progress → Eff (Site H B W) RunResult
  write_up run_id task excerpt p s =
      let (now, w₁) = outside.now s.world in
      let (failure, w₂) = outside.write_fails w₁ in
      elim failure [
        | some (e, left) ↦ (raised e, record s { manifest = left; world = w₂ })
        | none ↦ (
          ok (result_of run_id p s),
          record s {
            manifest = some (manifest_for run_id task excerpt now s);
            world = outside.teardown w₂;
          },
        )
      ]

  -- From the event run.completed on.
  unfoldable pub announce : String → Fields → Fields → Progress → Eff (Site H B W) RunResult
  unfolding write_up
  announce run_id task excerpt p s =
      let (r, rows) = AuditLog.append codec (completed run_id p s) s.audit in
      let s' : Site H B W = record s { audit = rows; world = (outside.draw s.world).1 } in
      elim r [ raised e ↦ (raised e, s') | ok h ↦ write_up run_id task excerpt p s' ]

  unfoldable pub finalize : String → Fields → Fields → Eff (Site H B W) RunResult
  unfolding announce
  finalize run_id task excerpt s =
      let p = load_completed s.samples_jsonl no_progress in
      elim (rebuild_csv (samples_summary s.samples_jsonl)) [
        | none ↦ (raised (exception "AttributeError"), record s { progress = p })
        | some table ↦
            announce run_id task excerpt p (record s { progress = p; output_csv = some table })
      ]
