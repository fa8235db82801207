-- ===== src/Orchestrator/Sample/Audited.antt =====
-- What `_run_one` writes to the audit log.
use browser_agent.Common.{
  String, ◌≡◌, refl, ◌∙◌, sym, ap, inl, inr, ◌⊎◌, Bool, true, false, Option, none, some, List, [],
  ◌∷◌, ◌++◌, Bool-cases, Option-cases, any_of, str_eq,
}
use browser_agent.Json.{Fields}
use browser_agent.Agent.Effect.{Result, ok, raised, Result-cases}
use browser_agent.Agent.Tools.{Session}
use browser_agent.Agent.Step.{or_default, or_text, text_at}
use browser_agent.Credentials.Detect.{host_of, looks_logged_out}
use browser_agent.Queue.{Job}
use browser_agent.Storage.AuditLog.{Codec, Row, Event, event_id_of, append}
use browser_agent.Orchestrator.Recorder
use browser_agent.Orchestrator.Recorder.{is_pass}
use browser_agent.Orchestrator.Sample.{
  is_some, Sample, Scene, Host, Preflight, returns, goes_on, completed_or_failed, event_of, audited,
  audit_refusal, audit_started, audit_finished, refuse, preflight, in_session, finish, in_pool,
  run_with, run_one, run_graph, initial_state, seeded,
}

module _ {H : Type 0} where
  -- The log has one row more, of that kind and sample.
  abbrev pub Added : String → String → List (Row H) → List (Row H) → Type 0
  Added kind sample_id rows rows' =
      (row : Row H) × (rows' ≡ rows ++ row ∷ [])
      × (row.kind ≡ kind)
      × (row.sample_id ≡ some sample_id)

  abbrev Logs : String → String → List (Row H) → Result (Unit {0}) → List (Row H) → Type 0
  Logs kind sample_id rows (raised e) rows' = rows' ≡ rows
  Logs kind sample_id rows (ok u) rows' = Added kind sample_id rows rows'

module _ {H W : Type 0} (codec : Codec H) (host : Host W) where
  abbrev Appended : Event → List (Row H) → Result H → List (Row H) → Type 0
  Appended e rows (raised x) rows' = rows' ≡ rows
  Appended e rows (ok h) rows' =
      (row : Row H) × (rows' ≡ rows ++ row ∷ [])
      × (row.kind ≡ e.kind)
      × (row.sample_id ≡ e.sample_id)

  append-Appended :
      (e : Event) (rows : List (Row H))
      → Appended e rows (append codec e rows).0 (append codec e rows).1
  unfolding append
  append-Appended e rows =
      elim (Bool-cases (any_of (λ (r : Row H). str_eq r.event_id (event_id_of e)) rows)) [
        | inl f ↦ rw (f, append, Appended) refl
        | inr f ↦ rw (f, append, Appended) (_, refl, refl, refl)
      ]

  audited-Logs :
      (kind run_id sample_id : String) (payload : Fields) (s : Scene H W)
      → Logs kind sample_id s.audit
          (audited codec host kind run_id sample_id payload s).0
          (audited codec host kind run_id sample_id payload s).1.audit
  unfolding audited
  audited-Logs kind run_id sample_id payload s =
      let e = event_of codec host kind run_id sample_id payload s in
      let h : Appended e s.audit (append codec e s.audit).0 (append codec e s.audit).1 =
        append-Appended e s.audit in
      elim (Result-cases (append codec e s.audit).0) [
        | inl (x, f) ↦ rw (f, audited, Logs) (rw (f, Appended) at h)
        | inr (x, f) ↦ rw (f, audited, Logs) (rw (f, Appended) at h)
      ]

  abbrev Before : Sample → List (Row H) → Preflight → List (Row H) → Type 0
  Before sample rows (returns r) rows' =
      (r.sample_id ≡ sample.sample_id)
      × (is_pass r.verdict ≡ false)
      × Added "sample.failed" sample.sample_id rows rows'
  Before sample rows (goes_on snap) rows' = rows' ≡ rows

  refuse-Before :
      (run_id : String) (sample : Sample) (preauthed cast : Bool) (session : Session W)
      (landed : String) (snap : Fields) (host_name : String) (s : Scene H W)
      → Before sample s.audit
          (refuse codec host run_id sample preauthed cast session landed snap host_name s).0
          (refuse codec host run_id sample preauthed cast session landed snap host_name s).1.audit
  unfolding refuse audit_refusal
  refuse-Before run_id sample preauthed cast session landed snap host_name s =
      let logs : Logs "sample.failed" sample.sample_id s.audit
          (audit_refusal codec host run_id sample cast session landed host_name s).0
          (audit_refusal codec host run_id sample cast session landed host_name s).1.audit =
        audited-Logs "sample.failed" run_id sample.sample_id _ _ in
      elim (Result-cases
        (audit_refusal codec host run_id sample cast session landed host_name s).0) [
          | inl (e, f) ↦ rw (f, refuse, Before) (rw (f, Logs) at logs)
          | inr (u, f) ↦ rw (f, refuse, Before) (refl, refl, rw (f, Logs) at logs)
        ]

  preflight-Before :
      (run_id : String) (sample : Sample) (preauthed cast : Bool) (session : Session W)
      (s : Scene H W)
      → Before sample s.audit
          (preflight codec host run_id sample preauthed cast session s).0
          (preflight codec host run_id sample preauthed cast session s).1.audit
  unfolding preflight
  preflight-Before run_id sample preauthed cast session s =
      elim (Option-cases (or_text sample.start_url none)) [
        | inl e ↦ rw (e, preflight, Before) refl
        | inr (url, e) ↦ elim (Result-cases (session.goto url s.world).0) [
          | inl (x, f) ↦ rw (e, f, preflight, Before) refl
          | inr (u, f) ↦ elim (Result-cases (session.snapshot (session.goto url s.world).1).0) [
            | inl (x, g) ↦ rw (e, f, g, preflight, Before) refl
            | inr (snap, g) ↦ elim (Option-cases (host_of host.parser sample.start_url)) [
              | inl h ↦ rw (e, f, g, h, preflight, Before) refl
              | inr (name, h) ↦
                  elim (Bool-cases
                    (looks_logged_out host.parser (or_default (text_at "url" snap) url))) [
                      | inl k ↦
                          rw (e, f, g, h, k, preflight)
                            (refuse-Before run_id sample preauthed cast session _ snap name _)
                      | inr k ↦ rw (e, f, g, h, k, preflight, Before) refl
                    ]
            ]
          ]
        ]
      ]

  -- What the block under the session leaves, by whether it returns early.
  abbrev Within : Sample → List (Row H) → Result (Recorder.Result) → Bool → List (Row H) → Type 0
  Within sample rows (raised e) early rows' = rows' ≡ rows
  Within sample rows (ok r) true rows' =
      (r.sample_id ≡ sample.sample_id)
      × (is_pass r.verdict ≡ false)
      × Added "sample.failed" sample.sample_id rows rows'
  Within sample rows (ok r) false rows' = (r.sample_id ≡ sample.sample_id) × (rows' ≡ rows)

  abbrev at_cast : Session W → Scene H W → Scene H W
  at_cast session s = record s { world = (host.start_cast session s.world).1 }

  in_session-Within :
      (run_id : String) (task : Fields) (sample : Sample) (preauthed : Bool) (session : Session W)
      (s : Scene H W)
      → Within sample s.audit
          (in_session codec host run_id task sample preauthed session s).0
          (in_session codec host run_id task sample preauthed session s).1
          (in_session codec host run_id task sample preauthed session s).2.audit
  unfolding in_session
  in_session-Within run_id task sample preauthed session s = go _ refl (
      preflight-Before run_id sample preauthed (host.start_cast session s.world).0 session
        (at_cast session s))
    where
      go :
          (p : Preflight)
          → (preflight codec host run_id sample preauthed
              (host.start_cast session s.world).0
              session
              (at_cast session s)).0
            ≡ p
          → Before sample s.audit p
              (preflight codec host run_id sample preauthed
                (host.start_cast session s.world).0
                session
                (at_cast session s)).1.audit
          → Within sample s.audit
              (in_session codec host run_id task sample preauthed session s).0
              (in_session codec host run_id task sample preauthed session s).1
              (in_session codec host run_id task sample preauthed session s).2.audit
      go (returns r) e b = rw (e, in_session, Within) b
      go (goes_on snap) e b =
          elim (Result-cases
            (run_graph host (host.deps session) (initial_state task sample (seeded snap))
              (preflight codec host run_id sample preauthed (host.start_cast session s.world).0
                session (at_cast session s)).1.world).0) [
                  | inl (x, f) ↦ rw (e, f, in_session, Within) b
                  | inr (x, f) ↦ rw (e, f, in_session, Within) (refl, b)
                ]

  abbrev Finished :
      Recorder.Result → List (Row H) → Result (Recorder.Result) → List (Row H) → Type 0
  Finished r rows (raised e) rows' = rows' ≡ rows
  Finished r rows (ok x) rows' =
      (x ≡ r) × Added (completed_or_failed r.verdict) r.sample_id rows rows'

  finish-Finished :
      (run_id : String) (r : Recorder.Result) (s : Scene H W)
      → Finished r s.audit (finish codec host run_id r s).0 (finish codec host run_id r s).1.audit
  unfolding finish audit_finished
  finish-Finished run_id r s =
      let h : Logs (completed_or_failed r.verdict) r.sample_id s.audit
          (audit_finished codec host run_id r s).0 (audit_finished codec host run_id r s).1.audit =
        audited-Logs (completed_or_failed r.verdict) run_id r.sample_id _ _ in
      elim (Result-cases (audit_finished codec host run_id r s).0) [
        | inl (e, f) ↦ rw (f, finish, Finished) (rw (f, Logs) at h)
        | inr (e, f) ↦ rw (f, finish, Finished) (refl, rw (f, Logs) at h)
      ]

  -- The log after a sample: as it was or with the start of the sample, if it raises; with its start
  -- and its end, if it has a result.
  abbrev pub Reported : Sample → List (Row H) → Result (Recorder.Result) → List (Row H) → Type 0
  Reported sample rows (raised e) rows' =
      (rows' ≡ rows) ⊎ Added "sample.started" sample.sample_id rows rows'
  Reported sample rows (ok r) rows' =
      (r.sample_id ≡ sample.sample_id)
      × (mid : List (Row H)) × Added "sample.started" sample.sample_id rows mid
      × Added (completed_or_failed r.verdict) sample.sample_id mid rows'

  abbrev Pooled : Sample → List (Row H) → Result (Recorder.Result) → List (Row H) → Type 0
  Pooled sample rows (raised e) rows' = rows' ≡ rows
  Pooled sample rows (ok r) rows' =
      (r.sample_id ≡ sample.sample_id)
      × Added (completed_or_failed r.verdict) sample.sample_id rows rows'

  Pooled-Finished :
      (sample : Sample) (r : Recorder.Result) (rows base : List (Row H))
      (o : Result (Recorder.Result)) (rows' : List (Row H))
      → rows ≡ base
      → r.sample_id ≡ sample.sample_id
      → Finished r rows o rows'
      → Pooled sample base o rows'
  Pooled-Finished sample r rows base (raised e) rows' b h f = f ∙ b
  Pooled-Finished sample r rows base (ok x) rows' b h (same, (row, grown, kind, id)) = (
    ap (λ y. y.sample_id) same ∙ h,
    (
      row,
      grown ∙ ap (λ l. l ++ row ∷ []) b,
      kind ∙ ap (λ y. completed_or_failed y.verdict) (sym same),
      id ∙ ap some h,
    ),
  )

  abbrev session_of :
      String
      → Fields
      → Sample
      → Option Fields
      → Session W
      → Scene H W
      → Result (Recorder.Result) × Bool × Scene H W
  session_of run_id task sample storage_state session s =
      in_session codec host run_id task sample (is_some storage_state) session
        (record s { world = (host.acquire sample.sample_id storage_state s.world).1 })

  in_pool-Pooled :
      (run_id : String) (task : Fields) (sample : Sample) (storage_state : Option Fields)
      (s : Scene H W)
      → Pooled sample s.audit
          (in_pool codec host run_id task sample storage_state s).0
          (in_pool codec host run_id task sample storage_state s).1.audit
  unfolding in_pool
  in_pool-Pooled run_id task sample storage_state s =
      elim (Result-cases (host.acquire sample.sample_id storage_state s.world).0) [
        | inl (e, f) ↦ rw (f, in_pool, Pooled) refl
        | inr (session, f) ↦
            go session f (session_of run_id task sample storage_state session s).0
              (session_of run_id task sample storage_state session s).1 refl refl
              (in_session-Within run_id task sample (is_some storage_state) session _)
      ]
    where
      go :
          (session : Session W)
          → (host.acquire sample.sample_id storage_state s.world).0 ≡ ok session
          → (r : Result (Recorder.Result)) (early : Bool)
          → (session_of run_id task sample storage_state session s).0 ≡ r
          → (session_of run_id task sample storage_state session s).1 ≡ early
          → Within sample s.audit r early
              (session_of run_id task sample storage_state session s).2.audit
          → Pooled sample s.audit
              (in_pool codec host run_id task sample storage_state s).0
              (in_pool codec host run_id task sample storage_state s).1.audit
      go session f (raised e) early p q w = rw (f, p, in_pool, Pooled) w
      go session f (ok r) true p q (same, fails, added) =
          rw (f, p, q, in_pool, Pooled, fails) (same, added)
      go session f (ok r) false p q (same, kept) =
          rw (f, p, q, in_pool)
            (Pooled-Finished sample r _ s.audit _ _ kept same (finish-Finished run_id r _))

  Reported-Pooled :
      (sample : Sample) (rows mid : List (Row H)) (r : Result (Recorder.Result))
      (rows' : List (Row H))
      → Added "sample.started" sample.sample_id rows mid
      → Pooled sample mid r rows'
      → Reported sample rows r rows'
  Reported-Pooled sample rows mid (raised e) rows' (row, grown, kind, id) p =
      inr (row, p ∙ grown, kind, id)
  Reported-Pooled sample rows mid (ok r) rows' a (same, b) = (same, mid, a, b)

  run_with-Reported :
      (run_id : String) (task : Fields) (sample : Sample) (storage_state : Option Fields)
      (s : Scene H W)
      → Reported sample s.audit
          (run_with codec host run_id task sample storage_state s).0
          (run_with codec host run_id task sample storage_state s).1.audit
  unfolding run_with audit_started
  run_with-Reported run_id task sample storage_state s =
      let t = audit_started codec host run_id sample (is_some storage_state) s in
      let h : Logs "sample.started" sample.sample_id s.audit t.0 t.1.audit =
        audited-Logs "sample.started" run_id sample.sample_id _ s in
      elim (Result-cases (audit_started codec host run_id sample (is_some storage_state) s).0) [
        | inl (e, f) ↦ rw (f, run_with, Reported) (inl (rw (f, Logs) at h))
        | inr (u, f) ↦
            rw (f, run_with)
              (Reported-Pooled sample s.audit _ _ _ (rw (f, Logs) at h)
                (in_pool-Pooled run_id task sample storage_state _))
      ]

  -- A sample whose call of _run_one raises has left the audit log as it was, or has added its event
  -- sample.started. A sample with a result has added two events: sample.started, and then
  -- sample.completed or sample.failed by whether its verdict is pass; the result names the sample.
  pub run_one-Reported :
      (run_id : String) (task : Fields) (job : Job Sample) (s : Scene H W)
      → Reported job.payload s.audit
          (run_one codec host run_id task job s).0
          (run_one codec host run_id task job s).1.audit
  unfolding run_one
  run_one-Reported run_id task job s = run_with-Reported run_id task job.payload _ _
