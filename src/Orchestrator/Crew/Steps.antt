-- ===== src/Orchestrator/Crew/Steps.antt =====
-- What one turn of a worker does to the jobs that it and the others hold, on one `SqliteQueue`.
use browser_agent.Common.{
  ℕ, ◌+◌, String, ◌≡◌, refl, sym, subst, ap, ◌∙◌, inl, inr, true, false, Option, none, some, List,
  arith, str_eq, eq_iff, str_eq_refl, Bool-cases, Option-cases,
}
use browser_agent.Queue.{Job, claimed, done}
use browser_agent.Agent.Effect.{ok, raised}
use browser_agent.Agent.Effect
use browser_agent.Queue.Sqlite.{Row, Queue, fetch, is_pending, dequeue, ack, nack, retried, claim}
use browser_agent.Queue.Sqlite.Rows.{fetch-update}
use browser_agent.Queue.Sqlite.Invariant.{IsValid}
use browser_agent.Queue.Sqlite.History.{dequeues, acks, nacks, step}
use browser_agent.Queue.Sqlite.Preserved.{step-IsValid, retried-KeepsId}
use browser_agent.Queue.Sqlite.Claim.{Claims, dequeue-Claims}
use browser_agent.Orchestrator.Recorder.{Result}
use browser_agent.Orchestrator.Worker.{Env, Shop, take_job, settle, is_finished}
use browser_agent.Orchestrator.Worker.OnSqlite.{sqlite}
use browser_agent.Orchestrator.Crew.{Phase, ready, running, ran, stopped, drained, act}

module _ {P : Type 0} where
  -- The job is claimed in the table, under the token of the worker.
  abbrev pub Claimed : Queue P → Job P → Type 0
  Claimed q j =
      (r : Row P) × (fetch j.item_id q.rows ≡ some r)
      × (r.status ≡ claimed)
      × (r.claim_token ≡ some j.claim_token)

  abbrev pub Owns : Queue P → Phase P → Type 0
  Owns q (running j) = Claimed q j
  Owns q (ran j r) = Claimed q j
  Owns q _ = Unit

  -- What a phase holds.
  abbrev pub held : Phase P → Option (Job P)
  held (running j) = some j
  held (ran j r) = some j
  held _ = none

  abbrev pub Differ : Option (Job P) → Option (Job P) → Type 0
  Differ (some i) (some j) = str_eq i.item_id j.item_id ≡ false
  Differ _ _ = Unit

  fetch-ack :
      (id k : String) (n : ℕ) (q : Queue P)
      → str_eq id k ≡ false
      → fetch k (ack id n q).rows ≡ fetch k q.rows
  unfolding ack
  fetch-ack id k n q e = ground (
    arith,
    fetch-update id k (λ r. record r { status = done; updated_at = n }) q.rows (λ r. refl),
    e,
  )

  fetch-nack :
      (id k reason : String) (n : ℕ) (q : Queue P)
      → str_eq id k ≡ false
      → fetch k (nack id reason n q).rows ≡ fetch k q.rows
  unfolding nack
  fetch-nack id k reason n q e = elim (Option-cases (fetch id q.rows)) [
    | inl f ↦ rw (f, nack) refl
    | inr (row, f) ↦
        rw (f, nack)
          (ground (
            arith,
            fetch-update id k (retried q.max_attempts (row.attempts + 1) reason n) q.rows
                (retried-KeepsId q.max_attempts (row.attempts + 1) reason n),
            e,
          ))
  ]

  -- Every other job keeps its row.
  Others : Job P → Queue P → Queue P → Type 0
  Others j q q' = (i : Job P) → Claimed q i → str_eq j.item_id i.item_id ≡ false → Claimed q' i

  fetched-Others :
      (j : Job P) (q q' : Queue P)
      → ((k : String) → str_eq j.item_id k ≡ false → fetch k q'.rows ≡ fetch k q.rows)
      → Others j q q'
  unfolding Others
  fetched-Others j q q' f i (r, e, status, token) ne = (r, f i.item_id ne ∙ e, status, token)

  pending_claimed :
      (s r : Row P) (a b : String) (rows : List (Row P))
      → a ≡ b
      → fetch a rows ≡ some s
      → fetch b rows ≡ some r
      → is_pending s.status ≡ true
      → r.status ≡ claimed
      → ⊥
  pending_claimed s r a b rows same e f pending status = ground (
    arith,
    ap (λ x. is_pending x.status) (some-injective (sym e ∙ ap (λ k. fetch k rows) same ∙ f)),
    ap is_pending status,
    pending,
  )
    where
      some-injective : {x y : Row P} → some x ≡ some y → x ≡ y
      some-injective e = cc

  Claims-Claimed :
      (t : String) (m n : ℕ) (q q' : Queue P) (j : Job P)
      → Claims t m n q (some j) q'
      → Claimed q' j
        × ((i : Job P) → Claimed q i → Claimed q' i × (str_eq j.item_id i.item_id ≡ false))
  Claims-Claimed t m n q q' j (s, found, pending, _, job, after) = (
    (
      claim t m n s,
      after j.item_id ∙ rw (str_eq_refl j.item_id) refl,
      refl,
      ap (λ x. some x.claim_token) (sym job),
    ),
    λ i (r, at, status, token). elim (Bool-cases (str_eq j.item_id i.item_id)) [
      | inl same ↦ absurd (
          pending_claimed s r j.item_id i.item_id q.rows ((eq_iff j.item_id i.item_id).0 same) found
            at pending status)
      | inr ne ↦ ((r, after i.item_id ∙ rw ne at, status, token), ne)
    ],
  )

  -- What a turn keeps: its worker's own job, and the jobs of the others.
  abbrev pub Steps : Queue P → Phase P → Phase P → Queue P → Type 0
  Steps q p p' q' =
      IsValid q'
      × Owns q' p'
      × ((r : Phase P)
          → Owns q r
          → Differ (held p) (held r)
          → Owns q' r × Differ (held p') (held r))

  kept-Others :
      (j : Job P) (q q' : Queue P)
      → Others j q q'
      → (r : Phase P) → Owns q r
      → Differ (some j) (held r)
      → Owns q' r × Unit {0}
  unfolding Others
  kept-Others j q q' f ready own d = (tt, tt)
  kept-Others j q q' f (running i) own d = (f i own d, tt)
  kept-Others j q q' f (ran i x) own d = (f i own d, tt)
  kept-Others j q q' f stopped own d = (tt, tt)
  kept-Others j q q' f drained own d = (tt, tt)

  joined-Others :
      (j : Job P) (q q' : Queue P)
      → ((i : Job P) → Claimed q i → Claimed q' i × (str_eq j.item_id i.item_id ≡ false))
      → (r : Phase P) → Owns q r
      → Owns q' r × Differ (some j) (held r)
  joined-Others j q q' f ready own = (tt, tt)
  joined-Others j q q' f (running i) own = f i own
  joined-Others j q q' f (ran i x) own = f i own
  joined-Others j q q' f stopped own = (tt, tt)
  joined-Others j q q' f drained own = (tt, tt)

  acked-Steps :
      (j : Job P) (n : ℕ) (q q' : Queue P) (r : Effect.Result Result)
      → q' ≡ ack j.item_id n q
      → IsValid q
      → Steps q (ran j r) ready q'
  unfolding step
  acked-Steps j n q q' r e v = (
    rw e (step-IsValid (acks j.item_id n) q v),
    tt,
    kept-Others j q q' (fetched-Others j q q' (λ k ne. rw e (fetch-ack j.item_id k n q ne))),
  )

  nacked-Steps :
      (j : Job P) (reason : String) (n : ℕ) (q q' : Queue P) (r : Effect.Result Result)
      → q' ≡ nack j.item_id reason n q
      → IsValid q
      → Steps q (ran j r) ready q'
  unfolding step
  nacked-Steps j reason n q q' r e v = (
    rw e (step-IsValid (nacks j.item_id reason n) q v),
    tt,
    kept-Others j q q'
        (fetched-Others j q q' (λ k ne. rw e (fetch-nack j.item_id k reason n q ne))),
  )

  taken-Steps :
      (token : String) (m n : ℕ) (q q' : Queue P) (o : Option (Job P))
      → (dequeue token m n q).0 ≡ o
      → q' ≡ (dequeue token m n q).1
      → IsValid q
      → Steps q ready (elim o [ none ↦ drained | some j ↦ running j ]) q'
  unfolding step
  taken-Steps token m n q q' none e f v =
      let same : q' ≡ q =
        f
        ∙ (subst (λ o. Claims token m n q o (dequeue token m n q).1) e
            (dequeue-Claims token m n q v)).1 in
      (rw same v, tt, λ r own d. (subst (λ x. Owns x r) (sym same) own, tt))
  taken-Steps token m n q q' (some j) e f v =
      let (mine, others) = Claims-Claimed token m n q q' j (
        subst (λ x. Claims token m n q (some j) x) (sym f)
          (subst (λ o. Claims token m n q o (dequeue token m n q).1) e
            (dequeue-Claims token m n q v))) in
      (
        rw f (step-IsValid (dequeues token m n) q v),
        mine,
        λ r own d. joined-Others j q q' others r own,
      )

module _ {P W : Type 0} (env : Env P W) where
  pub act-Steps :
      (p : Phase P) (s : Shop (Queue P) W)
      → IsValid s.queue
      → Owns s.queue p
      → Steps s.queue p (act sqlite env p s).0 (act sqlite env p s).1.queue
  unfolding act settle
  act-Steps ready s v o = elim (Bool-cases (env.stop_is_set s.world)) [
    | inl e ↦ rw (e, act) (v, tt, λ r own d. (own, tt))
    | inr e ↦ elim (Option-cases (take_job sqlite env s).0) [
      | inl f ↦
          rw (e, f, act) (taken-Steps _ _ _ s.queue (take_job sqlite env s).1.queue none f refl v)
      | inr (j, f) ↦
          rw (e, f, act)
            (taken-Steps _ _ _ s.queue (take_job sqlite env s).1.queue (some j) f refl v)
    ]
  ]
  act-Steps (running j) s v o = (v, o, λ r own d. (own, d))
  act-Steps (ran j (raised x)) s v o = nacked-Steps j _ _ s.queue _ (raised x) refl v
  act-Steps (ran j (ok res)) s v o = elim (Bool-cases (is_finished res)) [
    | inl e ↦ rw (e, act, settle) (acked-Steps j _ s.queue _ (ok res) refl v)
    | inr e ↦ rw (e, act, settle) (nacked-Steps j _ _ s.queue _ (ok res) refl v)
  ]
  act-Steps stopped s v o = (v, o, λ r own d. (own, d))
  act-Steps drained s v o = (v, o, λ r own d. (own, d))
