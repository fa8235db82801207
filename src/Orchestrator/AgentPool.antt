-- ===== src/Orchestrator/AgentPool.antt =====
-- src/andera/worker.py: `_execute_sample`, which the workers outside the process of a run share. The
-- state is the audit log, the world and samples.jsonl, which each result is appended to; the key
-- `worker_id` of a row is left out.
pub mod Rows
pub mod Node
pub mod Polls
pub mod OnRedis
use browser_agent.Common.{
  ℕ, String, Bool, true, false, Option, none, some, List, [], ◌∷◌, ◌++◌, str_eq, if◌then◌else◌,
}
use browser_agent.Json.{bool, str, Fields, end, field}
use browser_agent.Agent.Effect.{Failure, Result, ok, raised, Eff}
use browser_agent.Agent.Step.{text_at, or_text, or_default}
use browser_agent.Agent.Tools.{Session}
use browser_agent.Credentials.Detect.{host_of, looks_logged_out}
use browser_agent.Storage.AuditLog.{Codec}
use browser_agent.Orchestrator.Recorder
use browser_agent.Orchestrator.Recorder.{is_pass}
use browser_agent.Orchestrator.Sample.{
  Sample, Scene, Host, Preflight, returns, goes_on, text_json, index_json, is_some,
  completed_or_failed, suggestion, auth_required, initial_state, result_of, run_graph, audited,
}

pub record Bench (H W : Type 0) : Type 0 where
  pub scene : Scene H W
  pub samples_jsonl : List (Option Recorder.Result)

module _ {H W : Type 0} (codec : Codec H) (host : Host W) where
  abbrev pub with_world : Bench H W → W → Bench H W
  with_world b w = record b { scene = record b.scene { world = w } }

  -- An event of the audit log.
  abbrev pub noted : String → String → String → Fields → Eff (Bench H W) (Unit {0})
  noted kind run_id sample_id payload b =
      let (r, t) = audited codec host kind run_id sample_id payload b.scene in
      (r, record b { scene = t })

  -- The block under `write_lock`.
  abbrev pub write_row : Recorder.Result → Bench H W → Bench H W
  write_row r b = record b { samples_jsonl = b.samples_jsonl ++ some r ∷ [] }

  abbrev pub note_refusal : String → String → Sample → String → Eff (Bench H W) (Unit {0})
  note_refusal worker_id run_id sample host_name = noted "sample.failed" run_id sample.sample_id (
      field "reason" (str "auth_required")
        (field "host" (str host_name) (field "worker" (str worker_id) end)))

  pub refuse : String → String → Sample → Bool → String → Bench H W → Preflight × Bench H W
  refuse worker_id run_id sample preauthed host_name b =
      let result = auth_required sample (suggestion host_name preauthed) in
      let (r, t) = note_refusal worker_id run_id sample host_name b in
      elim r [ raised e ↦ (goes_on end, t) | ok u ↦ (returns result, write_row result t) ]

  -- The block under `if start_url`, whose errors are passed over.
  pub preflight : String → String → Sample → Bool → Session W → Bench H W → Preflight × Bench H W
  unfolding refuse
  preflight worker_id run_id sample preauthed session b =
      let host_key = host_of host.parser sample.start_url in
      elim (or_text sample.start_url none) [
        | none ↦ (goes_on end, b)
        | some start_url ↦
            let (gone, w) = session.goto start_url b.scene.world in
            elim gone [
              | raised e ↦ (goes_on end, with_world b w)
              | ok u ↦
                  let (taken, w') = session.snapshot w in
                  elim taken [
                    | raised e ↦ (goes_on end, with_world b w')
                    | ok snap ↦
                        let landed = or_default (text_at "url" snap) start_url in
                        elim host_key [
                          | none ↦ (goes_on snap, with_world b w')
                          | some host_name ↦
                              if looks_logged_out host.parser landed
                              then refuse worker_id run_id sample preauthed host_name
                                  (with_world b w')
                              else (goes_on snap, with_world b w')
                        ]
                  ]
            ]
      ]

  abbrev pub note_end : String → String → Recorder.Result → Eff (Bench H W) (Unit {0})
  note_end worker_id run_id result =
      noted (completed_or_failed result.verdict) run_id result.sample_id
        (field "verdict" (text_json result.verdict) (field "worker" (str worker_id) end))

  -- The end of a sample, after the session is closed.
  pub conclude : String → String → Recorder.Result → Eff (Bench H W) (Recorder.Result)
  conclude worker_id run_id result b =
      let (r, t) = note_end worker_id run_id result b in
      elim r [ raised e ↦ (raised e, t) | ok u ↦ (ok result, write_row result t) ]

  -- The block under `pool.acquire`, and what follows it.
  pub in_session :
      String → String → Fields → Sample → Bool → Session W → Eff (Bench H W) (Recorder.Result)
  unfolding preflight conclude
  in_session worker_id run_id task sample preauthed session b =
      let (p, t) = preflight worker_id run_id sample preauthed session b in
      elim p [
        | returns r ↦ (ok r, with_world t (host.close session t.scene.world))
        | goes_on snap ↦
            let (r, w) =
              run_graph host (host.deps session) (initial_state task sample []) t.scene.world in
            let closed = with_world t (host.close session w) in
            elim r [
              | raised e ↦ (raised e, closed)
              | ok st ↦ conclude worker_id run_id (result_of host sample st) closed
            ]
      ]

  abbrev pub note_start : String → String → Sample → Bool → Eff (Bench H W) (Unit {0})
  note_start worker_id run_id sample preauthed = noted "sample.started" run_id sample.sample_id (
      field "row_index" (index_json sample.row_index) (
        field "worker" (str worker_id) (
          field "host" (text_json (host_of host.parser sample.start_url))
            (field "preauthed" (bool preauthed) end))))

  -- `_execute_sample` with the sessions that could be loaded, if any.
  unfoldable pub execute_with :
      String → String → Fields → Sample → Option Fields → Eff (Bench H W) (Recorder.Result)
  unfolding in_session
  execute_with worker_id run_id task sample storage_state b =
      let (a, t) = note_start worker_id run_id sample (is_some storage_state) b in
      elim a [
        | raised e ↦ (raised e, t)
        | ok u ↦
            let (opened, w) = host.acquire sample.sample_id storage_state t.scene.world in
            elim opened [
              | raised e ↦ (raised e, with_world t w)
              | ok session ↦
                  in_session worker_id run_id task sample (is_some storage_state) session
                    (with_world t w)
            ]
      ]

  -- `_execute_sample`, for a worker and a run.
  unfoldable pub execute_sample :
      String → String → Fields → Sample → Eff (Bench H W) (Recorder.Result)
  unfolding execute_with
  execute_sample worker_id run_id task sample b =
      let (merged, w) = host.load_merged b.scene.world in
      execute_with worker_id run_id task sample (elim merged [ raised e ↦ none | ok m ↦ m ])
        (with_world b w)
