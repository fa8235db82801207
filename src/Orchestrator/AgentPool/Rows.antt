-- ===== src/Orchestrator/AgentPool/Rows.antt =====
-- What `_execute_sample` writes to samples.jsonl.
use browser_agent.Common.{
  String, ◌≡◌, refl, ◌∙◌, ap, inl, inr, Bool, Option, none, some, List, [], ◌∷◌, ◌++◌, Bool-cases,
  Option-cases,
}
use browser_agent.Json.{Fields}
use browser_agent.Agent.Effect.{Result, ok, raised, Result-cases}
use browser_agent.Agent.Tools.{Session}
use browser_agent.Agent.Step.{or_default, or_text, text_at}
use browser_agent.Credentials.Detect.{host_of, looks_logged_out}
use browser_agent.Storage.AuditLog.{Codec}
use browser_agent.Orchestrator.Recorder
use browser_agent.Orchestrator.Sample.{
  Sample, Host, Preflight, returns, goes_on, run_graph, initial_state, result_of, is_some,
}
use browser_agent.Orchestrator.AgentPool.{
  Bench, note_refusal, note_end, note_start, execute_with, refuse, preflight, conclude, in_session,
  execute_sample,
}

abbrev Lines : Type 0
Lines = List (Option Recorder.Result)

-- One line more if there is a result, and none if not.
abbrev pub Appends : Lines → Result (Recorder.Result) → Lines → Type 0
Appends lines (raised e) lines' = lines' ≡ lines
Appends lines (ok r) lines' = lines' ≡ lines ++ some r ∷ []

abbrev Before : Lines → Preflight → Lines → Type 0
Before lines (returns r) lines' = lines' ≡ lines ++ some r ∷ []
Before lines (goes_on snap) lines' = lines' ≡ lines

module _ {H W : Type 0} (codec : Codec H) (host : Host W) where
  refuse-Before :
      (worker_id run_id : String) (sample : Sample) (preauthed : Bool) (host_name : String)
      (b : Bench H W)
      → Before b.samples_jsonl
          (refuse codec host worker_id run_id sample preauthed host_name b).0
          (refuse codec host worker_id run_id sample preauthed host_name b).1.samples_jsonl
  unfolding refuse
  refuse-Before worker_id run_id sample preauthed host_name b =
      elim (Result-cases (note_refusal codec host worker_id run_id sample host_name b).0) [
        | inl (e, f) ↦ rw (f, refuse, Before) refl
        | inr (u, f) ↦ rw (f, refuse, Before) refl
      ]

  preflight-Before :
      (worker_id run_id : String) (sample : Sample) (preauthed : Bool) (session : Session W)
      (b : Bench H W)
      → Before b.samples_jsonl
          (preflight codec host worker_id run_id sample preauthed session b).0
          (preflight codec host worker_id run_id sample preauthed session b).1.samples_jsonl
  unfolding preflight
  preflight-Before worker_id run_id sample preauthed session b =
      elim (Option-cases (or_text sample.start_url none)) [
        | inl e ↦ rw (e, preflight, Before) refl
        | inr (url, e) ↦ elim (Result-cases (session.goto url b.scene.world).0) [
          | inl (x, f) ↦ rw (e, f, preflight, Before) refl
          | inr (u, f) ↦
              elim (Result-cases (session.snapshot (session.goto url b.scene.world).1).0) [
                | inl (x, g) ↦ rw (e, f, g, preflight, Before) refl
                | inr (snap, g) ↦ elim (Option-cases (host_of host.parser sample.start_url)) [
                  | inl h ↦ rw (e, f, g, h, preflight, Before) refl
                  | inr (name, h) ↦
                      elim (Bool-cases
                        (looks_logged_out host.parser (or_default (text_at "url" snap) url))) [
                          | inl k ↦
                              rw (e, f, g, h, k, preflight)
                                (refuse-Before worker_id run_id sample preauthed name _)
                          | inr k ↦ rw (e, f, g, h, k, preflight, Before) refl
                        ]
                ]
              ]
        ]
      ]

  conclude-Appends :
      (worker_id run_id : String) (result : Recorder.Result) (b : Bench H W)
      → Appends b.samples_jsonl
          (conclude codec host worker_id run_id result b).0
          (conclude codec host worker_id run_id result b).1.samples_jsonl
  unfolding conclude
  conclude-Appends worker_id run_id result b =
      elim (Result-cases (note_end codec host worker_id run_id result b).0) [
        | inl (e, f) ↦ rw (f, conclude, Appends) refl
        | inr (u, f) ↦ rw (f, conclude, Appends) refl
      ]

  Appends-same :
      (base lines lines' : Lines) (r : Result (Recorder.Result))
      → lines ≡ base
      → Appends lines r lines'
      → Appends base r lines'
  Appends-same base lines lines' (raised e) h a = a ∙ h
  Appends-same base lines lines' (ok r) h a = a ∙ ap (λ l. l ++ some r ∷ []) h

  in_session-Appends :
      (worker_id run_id : String) (task : Fields) (sample : Sample) (preauthed : Bool)
      (session : Session W) (b : Bench H W)
      → Appends b.samples_jsonl
          (in_session codec host worker_id run_id task sample preauthed session b).0
          (in_session codec host worker_id run_id task sample preauthed session b).1.samples_jsonl
  unfolding in_session
  in_session-Appends worker_id run_id task sample preauthed session b =
      go _ refl (preflight-Before worker_id run_id sample preauthed session b)
    where
      go :
          (p : Preflight)
          → (preflight codec host worker_id run_id sample preauthed session b).0 ≡ p
          → Before b.samples_jsonl p
              (preflight codec host worker_id run_id sample preauthed session b).1.samples_jsonl
          → Appends b.samples_jsonl
              (in_session codec host worker_id run_id task sample preauthed session b).0
              (in_session codec host worker_id run_id task sample preauthed session
                b).1.samples_jsonl
      go (returns r) e h = rw (e, in_session, Appends) h
      go (goes_on snap) e h =
          elim (Result-cases
            (run_graph host (host.deps session) (initial_state task sample [])
              (preflight codec host worker_id run_id sample preauthed session b).1.scene.world).0) [
                | inl (x, f) ↦ rw (e, f, in_session, Appends) h
                | inr (st, f) ↦
                    rw (e, f, in_session)
                      (Appends-same b.samples_jsonl _ _ _ h
                        (conclude-Appends worker_id run_id (result_of host sample st) _))
              ]

  execute_with-Appends :
      (worker_id run_id : String) (task : Fields) (sample : Sample) (storage_state : Option Fields)
      (b : Bench H W)
      → Appends b.samples_jsonl
          (execute_with codec host worker_id run_id task sample storage_state b).0
          (execute_with codec host worker_id run_id task sample storage_state b).1.samples_jsonl
  unfolding execute_with
  execute_with-Appends worker_id run_id task sample storage_state b =
      elim (Result-cases
        (note_start codec host worker_id run_id sample (is_some storage_state) b).0) [
          | inl (e, f) ↦ rw (f, execute_with, Appends) refl
          | inr (u, f) ↦
              elim (Result-cases
                (host.acquire sample.sample_id storage_state
                  (note_start codec host worker_id run_id sample (is_some storage_state)
                    b).1.scene.world).0) [
                      | inl (e, g) ↦ rw (f, g, execute_with, Appends) refl
                      | inr (session, g) ↦
                          rw (f, g, execute_with)
                            (in_session-Appends worker_id run_id task sample (is_some storage_state)
                              session _)
                    ]
        ]

  -- A sample that a worker executes adds its result to samples.jsonl as one line if it has a result,
  -- and leaves the file as it was if it raises.
  pub execute_sample-Appends :
      (worker_id run_id : String) (task : Fields) (sample : Sample) (b : Bench H W)
      → Appends b.samples_jsonl
          (execute_sample codec host worker_id run_id task sample b).0
          (execute_sample codec host worker_id run_id task sample b).1.samples_jsonl
  unfolding execute_sample
  execute_sample-Appends worker_id run_id task sample b =
      execute_with-Appends worker_id run_id task sample _ _
