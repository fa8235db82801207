-- ===== src/Orchestrator/Sample.antt =====
-- `_run_one` of src/andera/orchestrator/runner.py: one sample, from its job to its result. The state
-- is the audit log of the run and the world outside; a screencast is on if it could be started.
pub mod Audited
use Prim.Native.String.{◌++◌ as text_append}
use browser_agent.Common.{
  ℕ, String, Bool, true, false, Option, none, some, List, [], ◌∷◌, str_eq, if◌then◌else◌, length,
}
use browser_agent.Json.{
  Json, null, bool, num, pos, str, obj, Fields, end, field, get, or_else, fields_or_empty,
}
use browser_agent.Agent.Effect.{Failure, exception, Result, ok, raised, Eff}
use browser_agent.Agent.Step.{text_at, text_or, or_text, or_default}
use browser_agent.Agent.Observations.{Observation, full}
use browser_agent.Agent.Tools.{Session}
use browser_agent.Agent.State.{
  State, Status, Deps, pending, acting, verifying, extracting, judging, replanning, done, failed,
}
use browser_agent.Agent.Graph.{Outcome, final, crashed, recursion_limit_reached, run_sample}
use browser_agent.Credentials.Detect.{UrlParser, host_of, looks_logged_out}
use browser_agent.Queue.{Job}
use browser_agent.Storage.AuditLog.{Codec, Row, Event}
use browser_agent.Storage.AuditLog
use browser_agent.Orchestrator.Recorder
use browser_agent.Orchestrator.Recorder.{is_pass}

-- The dictionary that `_enqueue_all` puts in.
pub record Sample : Type 0 where
  pub sample_id : String
  pub row_index : Option ℕ
  pub input_data : Fields
  pub start_url : Option String
  pub run_id : Option String
  pub task : Fields

pub record Scene (H W : Type 0) : Type 0 where
  pub audit : List (Row H)
  pub world : W

-- What `_run_one` finds around it.
pub record Host (W : Type 0) : Type 0 where
  pub parser : UrlParser
  pub load_merged : Eff W (Option Fields)
  -- a fresh uuid and a clock reading, for an event of the audit log
  pub draw : W → (String × String) × W
  -- `pool.acquire` and the end of its block, which passes over errors
  pub acquire : String → Option Fields → Eff W (Session W)
  pub close : Session W → W → W
  pub start_cast : Session W → W → Bool × W
  pub stop_cast : Session W → W → W
  -- `_build_deps`: the models of the roles around the session
  pub deps : Session W → Deps W
  -- the text of an exception, which a result has under "error"
  pub describe : Failure → String

-- `Status` as the text that it is
abbrev pub status_text : Status → String
status_text pending = "pending"
status_text acting = "acting"
status_text verifying = "verifying"
status_text extracting = "extracting"
status_text judging = "judging"
status_text replanning = "replanning"
status_text done = "done"
status_text failed = "failed"

abbrev pub text_json : Option String → Json
text_json none = null
text_json (some s) = str s

abbrev pub index_json : Option ℕ → Json
index_json none = null
index_json (some n) = num (pos n)

abbrev pub is_some : {A : Type 0} → Option A → Bool
is_some none = false
is_some (some a) = true

abbrev pub completed_or_failed : Option String → String
completed_or_failed verdict = if is_pass verdict then "sample.completed" else "sample.failed"

-- The message of a sample whose page asks for a login.
abbrev pub suggestion : String → Bool → String
suggestion host preauthed =
    let text = text_append "auth required for " (
      text_append host
        (text_append ": run `andera login " (text_append host " --url <login-url>` and retry"))) in
    if preauthed then text_append text " (saved session appears expired)" else text

abbrev pub auth_required : Sample → String → Recorder.Result
auth_required sample message = record {
  sample_id = sample.sample_id;
  row_index = sample.row_index;
  verdict = some "fail";
  verdict_reason = some message;
  extracted = obj end;
  evidence_count = 0;
  status = some "failed";
  error = some message;
}

-- What `run_sample` is started with.
abbrev pub initial_state : Fields → Sample → List Observation → State
initial_state task sample observations = record {
  task_prompt = text_or (text_at "prompt" task) "";
  input_data = sample.input_data;
  start_url = sample.start_url;
  extract_schema = fields_or_empty (get "extract_schema" task);
  plan = [];
  step_index = 0;
  observations = observations;
  tool_calls = [];
  evidence = [];
  extracted = null;
  reflect_count = 0;
  consecutive_fails = 0;
  plan_count = 0;
  plan_cache_hit = false;
  task_type = none;
  last_tool_error = none;
  extract_errors = [];
  judge_feedback = none;
  status = pending;
  verdict = none;
  verdict_reason = none;
  error = none;
}

-- The snapshot of the preflight, unless it is empty.
abbrev pub seeded : Fields → List Observation
seeded end = []
seeded (field k v d) = full "snapshot" (field k v d) ∷ []

module _ {W : Type 0} (host : Host W) where
  -- The keys of the final state that a result keeps.
  abbrev pub result_of : Sample → State → Recorder.Result
  result_of sample s = record {
    sample_id = sample.sample_id;
    row_index = sample.row_index;
    verdict = s.verdict;
    verdict_reason = s.verdict_reason;
    extracted = or_else s.extracted (obj end);
    evidence_count = length s.evidence;
    status = some (status_text s.status);
    error = elim s.error [ none ↦ none | some e ↦ some (host.describe e) ];
  }

  -- A run of the graph under LangGraph's limit, which raises.
  abbrev pub run_graph : Deps W → State → Eff W State
  run_graph deps initial w =
      let (outcome, w') = run_sample deps 200 initial w in
      elim outcome [
        | final s ↦ (ok s, w')
        | crashed e ↦ (raised e, w')
        | recursion_limit_reached ↦ (raised (exception "GraphRecursionError"), w')
      ]

-- How the preflight ends: with the result of a sample that needs a login, or with the snapshot, if
-- one was taken.
pub data Preflight : Type 0 where
  returns : Recorder.Result → Preflight
  goes_on : Fields → Preflight

module _ {H W : Type 0} (codec : Codec H) (host : Host W) where
  abbrev pub event_of : String → String → String → Fields → Scene H W → Event
  event_of kind run_id sample_id payload s = record {
    kind = kind;
    payload = payload;
    run_id = some run_id;
    sample_id = some sample_id;
    event_id = none;
    fresh = (host.draw s.world).0.0;
    timestamp = (host.draw s.world).0.1;
  }

  -- `self.audit.append(kind=…, run_id=…, sample_id=…, payload=…)`
  unfoldable pub audited : String → String → String → Fields → Eff (Scene H W) (Unit {0})
  audited kind run_id sample_id payload s =
      let (r, rows) = AuditLog.append codec (event_of kind run_id sample_id payload s) s.audit in
      let s' : Scene H W = record { audit = rows; world = (host.draw s.world).1 } in
      elim r [ raised e ↦ (raised e, s') | ok h ↦ (ok tt, s') ]

  -- The event of a sample that needs a login, after the screencast has stopped.
  unfoldable pub audit_refusal :
      String → Sample → Bool → Session W → String → String → Eff (Scene H W) (Unit {0})
  unfolding audited
  audit_refusal run_id sample cast session landed host_name s =
      audited "sample.failed" run_id sample.sample_id
        (field "reason" (str "auth_required")
          (field "host" (str host_name) (field "landed" (str landed) end)))
        (record s { world = if cast then host.stop_cast session s.world else s.world })

  -- The branch of the preflight in which the page asks for a login.
  unfoldable pub refuse :
      String
      → Sample
      → Bool
      → Bool
      → Session W
      → String
      → Fields
      → String
      → Scene H W
      → Preflight × Scene H W
  unfolding audit_refusal
  refuse run_id sample preauthed cast session landed snap host_name s =
      let (r, s') = audit_refusal run_id sample cast session landed host_name s in
      elim r [
        | raised e ↦ (goes_on snap, s')
        | ok u ↦ (returns (auth_required sample (suggestion host_name preauthed)), s')
      ]

  -- The block under `if start_url`, whose errors are passed over.
  unfoldable pub preflight :
      String → Sample → Bool → Bool → Session W → Scene H W → Preflight × Scene H W
  unfolding refuse
  preflight run_id sample preauthed cast session s =
      let host_key = host_of host.parser sample.start_url in
      elim (or_text sample.start_url none) [
        | none ↦ (goes_on end, s)
        | some start_url ↦
            let (gone, w) = session.goto start_url s.world in
            elim gone [
              | raised e ↦ (goes_on end, record s { world = w })
              | ok u ↦
                  let (taken, w') = session.snapshot w in
                  elim taken [
                    | raised e ↦ (goes_on end, record s { world = w' })
                    | ok snap ↦
                        let landed = or_default (text_at "url" snap) start_url in
                        elim host_key [
                          | none ↦ (goes_on snap, record s { world = w' })
                          | some host_name ↦
                              if looks_logged_out host.parser landed
                              then refuse run_id sample preauthed cast session landed snap host_name
                                  (record s { world = w' })
                              else (goes_on snap, record s { world = w' })
                        ]
                  ]
            ]
      ]

  -- The block under `pool.acquire`: the result of the preflight, or the final state of the graph.
  unfoldable pub in_session :
      String
      → Fields
      → Sample
      → Bool
      → Session W
      → Scene H W
      → Result (Recorder.Result) × Bool × Scene H W
  unfolding preflight
  in_session run_id task sample preauthed session s =
      let (cast, w) = host.start_cast session s.world in
      let (p, s') = preflight run_id sample preauthed cast session (record s { world = w }) in
      elim p [
        | returns r ↦ (ok r, true, s')
        | goes_on snap ↦
            let (r, w') =
              run_graph host (host.deps session) (initial_state task sample (seeded snap))
                s'.world in
            let w'' = if cast then host.stop_cast session w' else w' in
            elim r [
              | raised e ↦ (raised e, false, record s' { world = w'' })
              | ok st ↦ (ok (result_of host sample st), false, record s' { world = w'' })
            ]
      ]

  -- The last event of a sample, after the session is closed.
  unfoldable pub audit_finished : String → Recorder.Result → Eff (Scene H W) (Unit {0})
  unfolding audited
  audit_finished run_id r =
      audited (completed_or_failed r.verdict) run_id r.sample_id
        (field "verdict" (text_json r.verdict) (field "row_index" (index_json r.row_index) end))

  unfoldable pub finish : String → Recorder.Result → Eff (Scene H W) (Recorder.Result)
  unfolding audit_finished
  finish run_id r s =
      let (a, s') = audit_finished run_id r s in
      elim a [ raised e ↦ (raised e, s') | ok u ↦ (ok r, s') ]

  unfoldable pub audit_started : String → Sample → Bool → Eff (Scene H W) (Unit {0})
  unfolding audited
  audit_started run_id sample preauthed = audited "sample.started" run_id sample.sample_id (
      field "row_index" (index_json sample.row_index) (
        field "host" (text_json (host_of host.parser sample.start_url))
          (field "preauthed" (bool preauthed) end)))

  -- From `pool.acquire` on.
  unfoldable pub in_pool :
      String → Fields → Sample → Option Fields → Eff (Scene H W) (Recorder.Result)
  unfolding in_session finish
  in_pool run_id task sample storage_state s =
      let (opened, w) = host.acquire sample.sample_id storage_state s.world in
      elim opened [
        | raised e ↦ (raised e, record s { world = w })
        | ok session ↦
            let (r, early, t) =
              in_session run_id task sample (is_some storage_state) session
                (record s { world = w }) in
            let closed : Scene H W = record t { world = host.close session t.world } in
            elim r [
              | raised e ↦ (raised e, closed)
              | ok res ↦ elim early [ true ↦ (ok res, closed) | false ↦ finish run_id res closed ]
            ]
      ]

  -- `_run_one` with the sessions that could be loaded, if any.
  unfoldable pub run_with :
      String → Fields → Sample → Option Fields → Eff (Scene H W) (Recorder.Result)
  unfolding in_pool audit_started
  run_with run_id task sample storage_state s =
      let (a, s') = audit_started run_id sample (is_some storage_state) s in
      elim a [ raised e ↦ (raised e, s') | ok u ↦ in_pool run_id task sample storage_state s' ]

  -- `_run_one`
  unfoldable pub run_one : String → Fields → Job Sample → Eff (Scene H W) (Recorder.Result)
  unfolding run_with
  run_one run_id task job s =
      let (merged, w) = host.load_merged s.world in
      run_with run_id task job.payload (elim merged [ raised e ↦ none | ok m ↦ m ])
        (record s { world = w })
