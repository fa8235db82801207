-- ===== src/Orchestrator/Worker/OnSqlite.antt =====
-- `SqliteQueue` as the task queue of the workers.
use browser_agent.Common.{
  ℕ, ◌+◌, ◌-◌, ◌<◌, String, ◌≡◌, refl, true, false, inl, inr, ◌⊎◌, Option, none, some, List, [],
  ◌∷◌, arith, All, if◌then◌else◌, str_eq_refl,
}
use browser_agent.Queue.{Job, Status}
use browser_agent.Queue.Sqlite.{
  Row, Queue, fetch, update, oldest, is_pending, dequeue, ack, nack, claim, retried, job_of,
}
use browser_agent.Queue.Sqlite.Rows.{fetch-update}
use browser_agent.Queue.Sqlite.Totals.{total, total-update}
use browser_agent.Queue.Sqlite.Invariant.{IsValid, RowIsValid, Distinct-update}
use browser_agent.Queue.Sqlite.Oldest.{Picked, oldest-Picked}
use browser_agent.Queue.Sqlite.History.{dequeues, acks, nacks, step}
use browser_agent.Queue.Sqlite.Preserved.{step-IsValid, fetch-All}
use browser_agent.Orchestrator.Worker.{TaskQueue, Laws, Env, Shop, worker}
use browser_agent.Orchestrator.Worker.Drain.{Drained, worker-Drained}

module _ {P : Type 0} where
  abbrev pub sqlite : TaskQueue P (Queue P)
  sqlite = record { dequeue = dequeue; ack = ack; nack = nack }

  -- The deliveries that a pending row can still have.
  abbrev pub left_of : ℕ → Row P → ℕ
  left_of m r = if is_pending r.status then m - r.attempts else 0

  abbrev pub work : ℕ → List (Row P) → ℕ
  work m = total (left_of m)

  abbrev pub work_in : Queue P → ℕ
  work_in q = work q.max_attempts q.rows

  pub work-none :
      (m : ℕ) (rows : List (Row P)) → All (λ r. is_pending r.status ≡ false) rows → work m rows ≡ 0
  unfolding total
  work-none m [] a = refl
  work-none m (r ∷ rows) a = ground (arith, work-none m rows a.1)

  -- The row behind a job that was handed out, and the table after it.
  abbrev pub Taken : String → ℕ → ℕ → Queue P → Job P → Type 0
  Taken t m n q j =
      (s : Row P) × (j ≡ job_of t s)
      × (is_pending s.status ≡ true)
      × (fetch s.item_id q.rows ≡ some s)
      × ((dequeue t m n q).1 ≡ record q { rows = update s.item_id (claim t m n) q.rows })

  pub dequeue-Taken :
      (t : String) (m n : ℕ) (q : Queue P) (j : Job P)
      → IsValid q
      → (dequeue t m n q).0 ≡ some j
      → Taken t m n q j
  unfolding dequeue
  dequeue-Taken t m n q j v e = go (oldest q.rows) refl (oldest-Picked q.rows v.distinct)
    where
      go : (o : Option (Row P)) → oldest q.rows ≡ o → Picked q.rows o → Taken t m n q j
      go none f p = absurd ground (arith, f, e)
      go (some s) f p = (s, ground (arith, f, e), p.0, p.1, rw (f, dequeue) refl)

  pub dequeue-none :
      (t : String) (m n : ℕ) (q : Queue P)
      → IsValid q
      → (dequeue t m n q).0 ≡ none
      → work_in (dequeue t m n q).1 ≡ 0
  unfolding dequeue
  dequeue-none t m n q v e = go (oldest q.rows) refl (oldest-Picked q.rows v.distinct)
    where
      go :
          (o : Option (Row P))
          → oldest q.rows ≡ o
          → Picked q.rows o
          → work_in (dequeue t m n q).1 ≡ 0
      go none f p = rw (f, dequeue) (work-none q.max_attempts q.rows p)
      go (some s) f p = absurd ground (arith, f, e)

  pub left-positive :
      (q : Queue P) (s : Row P)
      → IsValid q
      → is_pending s.status ≡ true
      → fetch s.item_id q.rows ≡ some s
      → 0 < left_of q.max_attempts s
  left-positive q s v p e =
      go s.status refl (fetch-All q.max_attempts s.item_id s q.rows e v.rows_valid)
    where
      go : (x : Status) → s.status ≡ x → RowIsValid q.max_attempts s → 0 < left_of q.max_attempts s
      go x f h = ground (arith, f, p, h)

  claimed_row :
      (t : String) (m n : ℕ) (q : Queue P) (s : Row P)
      → fetch s.item_id q.rows ≡ some s
      → fetch s.item_id (update s.item_id (claim t m n) q.rows) ≡ some (claim t m n s)
  claimed_row t m n q s e = ground (
    arith,
    fetch-update s.item_id s.item_id (claim t m n) q.rows (λ r. refl),
    e,
    str_eq_refl s.item_id,
  )

  -- A claim and a second update of the row that leaves it with less.
  settle-less :
      (t : String) (m n : ℕ) (q : Queue P) (s : Row P) (g : Row P → Row P)
      → IsValid q
      → is_pending s.status ≡ true
      → fetch s.item_id q.rows ≡ some s
      → left_of q.max_attempts (g (claim t m n s)) < left_of q.max_attempts s
      → work q.max_attempts (update s.item_id g (update s.item_id (claim t m n) q.rows))
        < work q.max_attempts q.rows
  settle-less t m n q s g v p e l = omega (
    arith,
    total-update (left_of q.max_attempts) s.item_id (claim t m n) s q.rows v.distinct e,
    total-update (left_of q.max_attempts) s.item_id g (claim t m n s)
        (update s.item_id (claim t m n) q.rows)
        (Distinct-update s.item_id (claim t m n) q.rows (λ r. refl) v.distinct)
        (claimed_row t m n q s e),
    l,
  )

  pub ack-less :
      (t : String) (m n k : ℕ) (j : Job P) (q : Queue P)
      → IsValid q
      → (dequeue t m n q).0 ≡ some j
      → work_in (ack j.item_id k (dequeue t m n q).1) < work_in q
  unfolding ack
  ack-less t m n k j q v e =
      let (s, job, p, f, after) = dequeue-Taken t m n q j v e in
      rw (job, after) (settle-less t m n q s _ v p f (left-positive q s v p f))

  nack-claimed :
      (t reason : String) (m n k : ℕ) (s : Row P) (q : Queue P)
      → IsValid q
      → is_pending s.status ≡ true
      → fetch s.item_id q.rows ≡ some s
      → work_in
          (nack s.item_id reason k (record q { rows = update s.item_id (claim t m n) q.rows }))
        < work_in q
  unfolding nack
  nack-claimed t reason m n k s q v p f =
      rw (claimed_row t m n q s f, nack)
        (settle-less t m n q s (retried q.max_attempts (s.attempts + 1) reason k) v p f
          (ground (arith, left-positive q s v p f, p)))

  pub nack-less :
      (t reason : String) (m n k : ℕ) (j : Job P) (q : Queue P)
      → IsValid q
      → (dequeue t m n q).0 ≡ some j
      → work_in (nack j.item_id reason k (dequeue t m n q).1) < work_in q
  nack-less t reason m n k j q v e =
      let (s, job, p, f, after) = dequeue-Taken t m n q j v e in
      rw (job, after) (nack-claimed t reason m n k s q v p f)

  unfoldable pub sqlite_laws : Laws sqlite
  unfolding step
  sqlite_laws = record {
    Valid = IsValid;
    work = work_in;
    dequeue-Valid = λ t m n. step-IsValid (dequeues t m n);
    ack-Valid =
        λ t m n k j q v e. step-IsValid (acks j.item_id k) _ (step-IsValid (dequeues t m n) q v);
    nack-Valid = λ t reason m n k j q v e.
        step-IsValid (nacks j.item_id reason k) _ (step-IsValid (dequeues t m n) q v);
    dequeue-work = dequeue-none;
    ack-work = ack-less;
    nack-work = nack-less;
  }

  none-pending :
      (m : ℕ) (rows : List (Row P))
      → All (RowIsValid m) rows
      → work m rows ≡ 0
      → All (λ r. is_pending r.status ≡ false) rows
  unfolding total
  none-pending m [] v e = tt
  none-pending m (r ∷ rows) v e =
      (here r.status refl v.0, none-pending m rows v.1 (omega (arith, e)))
    where
      here : (x : Status) → r.status ≡ x → RowIsValid m r → is_pending r.status ≡ false
      here x f h = ground (arith, f, e, h)

-- The loop has ended: the stop event is set, or no job is pending.
abbrev pub Drains : {P W : Type 0} → Env P W → Option (Shop (Queue P) W) → Type 0
Drains env none = ⊥
Drains env (some s) =
    IsValid s.queue
    × ((env.stop_is_set s.world ≡ true) ⊎ All (λ r. is_pending r.status ≡ false) s.queue.rows)

-- A worker on a valid table of a `SqliteQueue` ends its loop after at most one job for each delivery
-- that the pending rows can still have, however its jobs end and whatever they raise: the table is
-- valid then, and no row is pending unless the stop event is set.
pub worker-Drains :
    {P W : Type 0} (env : Env P W) (fuel : ℕ) (s : Shop (Queue P) W)
    → IsValid s.queue
    → work_in s.queue < fuel
    → Drains env (worker sqlite env fuel s)
unfolding sqlite_laws
worker-Drains env fuel s v p =
    go (worker sqlite env fuel s) (worker-Drained sqlite sqlite_laws env fuel s v p)
  where
    go : (o : Option (Shop (Queue _) _)) → Drained sqlite sqlite_laws env o → Drains env o
    go none d = absurd d
    go (some t) (valid, inl e) = (valid, inl e)
    go (some t) (valid, inr e) =
        (valid, inr (none-pending t.queue.max_attempts t.queue.rows valid.rows_valid e))
