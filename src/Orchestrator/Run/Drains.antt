-- ===== src/Orchestrator/Run/Drains.antt =====
-- A run from its start to the return of its workers.
use Prim.Native.String.{String}
use browser_agent.Common.{
  ℕ, zero, suc, ◌+◌, ◌≤◌, ◌<◌, ◌≡◌, ◌↔◌, refl, inl, inr, ◌⊎◌, Bool, true, false, ◌||◌, none, List,
  [], ◌∷◌, length, max, All, arith, count_if, Bool-cases,
}
use browser_agent.Json.{Fields}
use browser_agent.Queue.{Status, pending, claimed, done, dead}
use browser_agent.Queue.Sqlite.{Row, Queue, counts, is_pending, is_claimed, is_done, is_dead}
use browser_agent.Queue.Sqlite.Invariant.{IsValid, enqueue-IsValid}
use browser_agent.Queue.Sqlite.History.{reclaims, step}
use browser_agent.Queue.Sqlite.Preserved.{step-IsValid}
use browser_agent.Orchestrator.Recorder.{is_completed}
use browser_agent.Orchestrator.Worker.{Env, Shop}
use browser_agent.Orchestrator.Sample.{Sample}
use browser_agent.Orchestrator.Worker.OnSqlite.{sqlite}
use browser_agent.Orchestrator.Crew.{Visits, workers, rounds}
use browser_agent.Orchestrator.Crew.Left.{Asleep, has_stopped, NonePending}
use browser_agent.Orchestrator.Crew.Turns.{table_turns}
use browser_agent.Orchestrator.Crew.Drains.{workers-Return}
use browser_agent.Orchestrator.Run.{
  sample_id_of, enqueue_row, enqueue_all, take_over, prepare, gather, queue_drained,
}

module _ {W : Type 0} (env : Env Sample W) where
  enqueue_row-IsValid :
      (run_id : String) (task : Fields) (idx : ℕ) (row : Fields) (s : Shop (Queue Sample) W)
      → IsValid s.queue
      → IsValid (enqueue_row env run_id task idx row s).queue
  unfolding enqueue_row
  enqueue_row-IsValid run_id task idx row s v =
      elim (Bool-cases (is_completed (sample_id_of run_id idx) s.recorder.completed_ids)) [
        | inl e ↦ rw e v
        | inr e ↦ rw e (enqueue-IsValid none _ _ _ _ s.queue v)
      ]

  pub enqueue_all-IsValid :
      (run_id : String) (task : Fields) (idx : ℕ) (rows : List Fields) (s : Shop (Queue Sample) W)
      → IsValid s.queue
      → IsValid (enqueue_all env run_id task idx rows s).queue
  unfolding enqueue_all
  enqueue_all-IsValid run_id task idx [] s v = v
  enqueue_all-IsValid run_id task idx (row ∷ rows) s v =
      enqueue_all-IsValid run_id task (idx + 1) rows (enqueue_row env run_id task idx row s)
        (enqueue_row-IsValid run_id task idx row s v)

  pub take_over-IsValid :
      (resuming : Bool) (s : Shop (Queue Sample) W)
      → IsValid s.queue
      → IsValid (take_over env resuming s).queue
  unfolding take_over step
  take_over-IsValid false s v = v
  take_over-IsValid true s v = step-IsValid (reclaims 0 _ _) s.queue v

  pub some_workers-Return :
      (n : ℕ) (schedules : List (List ℕ)) (s : Shop (Queue Sample) W)
      → 0 < n
      → IsValid s.queue
      → All (Visits n) schedules
      → table_turns s.queue + n ≤ length schedules
      → Asleep (rounds sqlite env schedules (workers n) s).0
        × ((has_stopped (rounds sqlite env schedules (workers n) s).0 ≡ true)
            ⊎ NonePending (rounds sqlite env schedules (workers n) s).1.queue)
  some_workers-Return zero schedules s h v f p = absurd omega (arith, h)
  some_workers-Return (suc n) schedules s h v f p = workers-Return env n schedules s v f p

  -- A run that starts or resumes on a valid table puts its samples in and starts its workers. After as
  -- many rounds with a turn for each worker as there are workers, and three for each delivery that the
  -- jobs can still have, all workers have returned, and no job is pending unless one of them has seen
  -- the stop event.
  gather-prepare :
      (concurrency : ℕ) (schedules : List (List ℕ)) (resuming : Bool) (run_id : String)
      (task : Fields) (rows : List Fields) (s : Shop (Queue Sample) W)
      → IsValid s.queue
      → All (Visits (max 1 concurrency)) schedules
      → table_turns (prepare env resuming run_id task rows s).queue + max 1 concurrency
        ≤ length schedules
      → Asleep (gather env concurrency schedules (prepare env resuming run_id task rows s)).0
        × ((has_stopped
                (gather env concurrency schedules (prepare env resuming run_id task rows s)).0
              ≡ true)
            ⊎ NonePending
                (gather env concurrency schedules
                  (prepare env resuming run_id task rows s)).1.queue)
  unfolding prepare gather
  gather-prepare concurrency schedules resuming run_id task rows s v f p =
      some_workers-Return (max 1 concurrency) schedules (prepare env resuming run_id task rows s)
        (omega arith)
        (enqueue_all-IsValid run_id task 0 rows (take_over env resuming s)
          (take_over-IsValid resuming s v))
        f p

-- Every job has been acknowledged or given up.
abbrev pub Settled : {P : Type 0} → Queue P → Type 0
Settled q = All (λ r. (is_done r.status || is_dead r.status) ≡ true) q.rows

abbrev Open : {P : Type 0} → List (Row P) → Type 0
Open rows =
    (count_if (λ r. is_pending r.status) rows ≡ 0) × (count_if (λ r. is_claimed r.status) rows ≡ 0)

abbrev Closed : {P : Type 0} → List (Row P) → Type 0
Closed rows = All (λ r. (is_done r.status || is_dead r.status) ≡ true) rows

row-Closed :
    {P : Type 0} (r : Row P) (rows : List (Row P))
    → Open rows ↔ Closed rows
    → Open (r ∷ rows) ↔ Closed (r ∷ rows)
row-Closed r rows h = go r.status refl
  where
    go : (x : Status) → r.status ≡ x → Open (r ∷ rows) ↔ Closed (r ∷ rows)
    go pending e = (λ o. absurd ground (arith, e, o.0), λ c. absurd ground (arith, e, c.0))
    go claimed e = (λ o. absurd ground (arith, e, o.1), λ c. absurd ground (arith, e, c.0))
    go done e = (λ o. (rw e refl, h.0 (rw e at o)), λ c. rw e (h.1 c.1))
    go dead e = (λ o. (rw e refl, h.0 (rw e at o)), λ c. rw e (h.1 c.1))

rows-Closed : {P : Type 0} (rows : List (Row P)) → Open rows ↔ Closed rows
rows-Closed [] = (λ h. tt, λ h. (refl, refl))
rows-Closed (r ∷ rows) = row-Closed r rows (rows-Closed rows)

-- The finalizer takes a queue for drained exactly if every job is done or dead.
queue_drained-Settled : {P : Type 0} (q : Queue P) → (queue_drained q ≡ true) ↔ Settled q
unfolding queue_drained counts
queue_drained-Settled q =
    (λ h. (rows-Closed q.rows).0 (ground (arith, h)), λ h. ground (arith, (rows-Closed q.rows).1 h))
