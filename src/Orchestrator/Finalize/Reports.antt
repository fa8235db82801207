-- ===== src/Orchestrator/Finalize/Reports.antt =====
-- What `finalize` reports, and what it leaves behind.
use browser_agent.Common.{
  ◌+◌, ◌≡◌, refl, ap, inl, inr, String, Option, none, some, List, [], ◌∷◌, ◌++◌, length, arith, ◌⊎◌,
}
use browser_agent.Json.{Fields, field, end, num, pos}
use browser_agent.Agent.Effect.{ok, raised}
use browser_agent.Agent.Effect
use browser_agent.Orchestrator.Recorder.{
  Result, Progress, load_row, load_completed, no_progress, Counters,
}
use browser_agent.Orchestrator.Report.{samples_summary, rebuild_csv}
use browser_agent.Orchestrator.Report.Totals.{total-samples_summary}
use browser_agent.Storage.AuditLog
use browser_agent.Storage.AuditLog.{Codec, Row}
use browser_agent.Storage.Manifest.{Hashing, Written, write_manifest}
use browser_agent.Orchestrator.Finalize.{
  RunResult, Site, Outside, completed, manifest_for, write_up, announce, finalize,
}

load-sums :
    (lines : List (Option Result)) (p : Progress)
    → p.counters.passed + p.counters.failed ≡ p.counters.total
    → (load_completed lines p).counters.passed + (load_completed lines p).counters.failed
      ≡ (load_completed lines p).counters.total
unfolding load_completed
load-sums [] p h = h
load-sums (none ∷ lines) p h = load-sums lines p h
load-sums (some r ∷ lines) p h = load-sums lines (load_row r p) (ground (arith, h))

module _ {H B W : Type 0} (codec : Codec H) (hashing : Hashing B) (outside : Outside H W) where
  -- The row of the event run.completed with these numbers, as it continues the chain of a log.
  pub record Completion (run_id : String) (c : Counters) (log : List (Row H)) (row : Row H)
      : Type 0 where
    pub kind : row.kind ≡ "run.completed"
    pub scope : (row.run_id ≡ some run_id) × (row.sample_id ≡ none)
    pub payload :
        row.payload_json
        ≡ codec.canonical (
            field "passed"
              (num (pos c.passed))
              (field "failed" (num (pos c.failed)) (field "total" (num (pos c.total)) end)))
    pub link : row.prev_hash ≡ some (AuditLog.last_hash codec codec.genesis_hash log)

  -- The numbers that samples.jsonl gives.
  abbrev pub counted : Site H B W → Counters
  counted s = (load_completed s.samples_jsonl no_progress).counters

  abbrev pub WithCompletion : String → Site H B W → List (Row H) → Type 0
  WithCompletion run_id s log =
      (row : Row H) × (log ≡ s.audit ++ row ∷ []) × Completion run_id (counted s) s.audit row

  -- The manifest of a run, for a log.
  pub record Holds (run_id : String) (log : List (Row H)) (samples : List Result) (m : Written)
      : Type 0 where
    pub of_run : m.manifest.run_id ≡ run_id
    pub summary : m.manifest.samples ≡ samples
    pub root :
        m.manifest.audit_root_hash ≡ some (codec.hex (AuditLog.root_hash codec (some run_id) log))
    pub sealed : m.manifest_hash ≡ some (hashing.canonical_hash m.manifest)

  abbrev pub Reports :
      String → Fields → Fields → Site H B W → Effect.Result RunResult → Site H B W → Type 0
  Reports run_id task excerpt s (ok r) s' =
      (r.passed + r.failed ≡ r.total)
      × (r.total ≡ length (samples_summary s.samples_jsonl))
      × ((r.passed ≡ (counted s).passed) × (r.failed ≡ (counted s).failed))
      × WithCompletion run_id s s'.audit
      × ((m : Written) × (s'.manifest ≡ some m)
          × Holds run_id s'.audit (samples_summary s.samples_jsonl) m)
      × (s'.output_csv ≡ rebuild_csv (samples_summary s.samples_jsonl))
  Reports run_id task excerpt s (raised e) s' =
      (s'.audit ≡ s.audit) ⊎ WithCompletion run_id s s'.audit

  with_completed : String → Site H B W → List (Row H)
  with_completed run_id s =
      s.audit
      ++ AuditLog.new_row codec
          (completed codec hashing outside run_id (load_completed s.samples_jsonl no_progress) s)
          (AuditLog.last_hash codec codec.genesis_hash s.audit)
        ∷ []

  -- The same in the words of the code.
  abbrev Leaves :
      String → Fields → Fields → Site H B W → Effect.Result RunResult → Site H B W → Type 0
  Leaves run_id task excerpt s (ok r) s' =
      (r.passed + r.failed ≡ r.total)
      × (r.total ≡ length (samples_summary s.samples_jsonl))
      × ((r.passed ≡ (counted s).passed) × (r.failed ≡ (counted s).failed))
      × (s'.audit ≡ with_completed run_id s)
      × ((s'.samples_jsonl ≡ s.samples_jsonl)
          × (s'.manifest
              ≡ some (
                  manifest_for codec hashing outside run_id task excerpt
                    (outside.now (outside.draw s.world).1).0 s')))
      × (s'.output_csv ≡ rebuild_csv (samples_summary s.samples_jsonl))
  Leaves run_id task excerpt s (raised e) s' =
      (s'.audit ≡ s.audit) ⊎ (s'.audit ≡ with_completed run_id s)

  finalize-Leaves :
      (run_id : String) (task excerpt : Fields) (s : Site H B W)
      → Leaves run_id task excerpt s
          (finalize codec hashing outside run_id task excerpt s).0
          (finalize codec hashing outside run_id task excerpt s).1
  unfolding finalize announce write_up AuditLog.append with_completed
  finalize-Leaves run_id task excerpt s =
      ground
        (arith, load-sums s.samples_jsonl no_progress refl, total-samples_summary s.samples_jsonl)

  completes :
      (run_id : String) (s : Site H B W) (log : List (Row H))
      → log ≡ with_completed run_id s
      → WithCompletion run_id s log
  unfolding with_completed
  completes run_id s log e =
      (_, e, record { kind = refl; scope = (refl, refl); payload = refl; link = refl })

  Leaves-Reports :
      (run_id : String) (task excerpt : Fields) (s : Site H B W) (r : Effect.Result RunResult)
      (s' : Site H B W)
      → Leaves run_id task excerpt s r s'
      → Reports run_id task excerpt s r s'
  unfolding write_manifest
  Leaves-Reports run_id task excerpt s (ok r) s' (sums, counts, same, log, (kept, written), csv) = (
    sums,
    counts,
    same,
    completes run_id s s'.audit log,
    (
      _,
      written,
      record { of_run = refl; summary = ap samples_summary kept; root = refl; sealed = refl },
    ),
    csv,
  )
  Leaves-Reports run_id task excerpt s (raised e) s' (inl h) = inl h
  Leaves-Reports run_id task excerpt s (raised e) s' (inr h) = inr (completes run_id s s'.audit h)

  -- If finalize returns, its numbers are those that samples.jsonl gives, add up and count the samples of the
  -- summary; the log has one event more, run.completed of the run with these numbers, which continues the
  -- chain; the manifest holds the summary and the root hash of that log, under its own hash; and output.csv is
  -- the summary. If it raises, the log is as it was or has the event.
  pub finalize-Reports :
      (run_id : String) (task excerpt : Fields) (s : Site H B W)
      → Reports run_id task excerpt s
          (finalize codec hashing outside run_id task excerpt s).0
          (finalize codec hashing outside run_id task excerpt s).1
  finalize-Reports run_id task excerpt s =
      Leaves-Reports run_id task excerpt s _ _ (finalize-Leaves run_id task excerpt s)
