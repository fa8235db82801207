-- ===== src/Orchestrator/Execute/Finalizes.antt =====
-- An embedded run comes to its end.
use browser_agent.Common.{
  ℕ, ◌+◌, ◌≤◌, ◌≡◌, refl, ◌∙◌, ap, Bool, true, false, ◌||◌, none, some, List, [], ◌∷◌, length, max,
  All, arith, count_if, ◌==◌, inl, inr, ◌⊎◌, Dict, if◌then◌else◌,
}
use browser_agent.Agent.Effect.{Result, ok, raised}
use browser_agent.Queue.{pending}
use browser_agent.Queue.Sqlite.{Queue, counts, is_pending}
use browser_agent.Queue.Sqlite.Invariant.{IsValid}
use browser_agent.Orchestrator.Worker.{Env, Shop}
use browser_agent.Orchestrator.Sample.{Sample, Scene}
use browser_agent.Orchestrator.Crew.{Visits, workers}
use browser_agent.Orchestrator.Crew.Stop.{Sticky, rounds-Told, workers_awake}
use browser_agent.Orchestrator.Worker.OnSqlite.{sqlite}
use browser_agent.Orchestrator.Crew.Left.{NonePending, has_stopped}
use browser_agent.Orchestrator.Crew.Turns.{table_turns}
use browser_agent.Orchestrator.Run.{enqueue_all, gather}
use browser_agent.Orchestrator.Run.Drains.{
  enqueue_all-IsValid, take_over-IsValid, some_workers-Return,
}
use browser_agent.Orchestrator.Finalize.{Outside}
use browser_agent.Orchestrator.Execute.{
  Plant, Order, note_started, open_run, drive, finalized, go_on, execute,
}
use browser_agent.Storage.AuditLog.{Codec}
use browser_agent.Storage.Manifest.{Hashing}

none_counted :
    {A : Type 0} (p : A → Bool) (xs : List A) → All (λ x. p x ≡ false) xs → count_if p xs ≡ 0
none_counted p [] h = refl
none_counted p (x ∷ xs) h = ground (arith, h.0, none_counted p xs h.1)

no_rows : {P : Type 0} (q : Queue P) → NonePending q → (counts q pending == 0) ≡ true
unfolding counts
no_rows q h = ground (arith, none_counted (λ r. is_pending r.status) q.rows h)

either :
    {A : Type 0} (x y : A) (a b : Bool) → (a ≡ true) ⊎ (b ≡ true) → (if a || b then x else y) ≡ x
either x y true b h = refl
either x y false true h = refl
either x y false false h = ground (arith, h)

unless : {A : Type 0} (x y : A) (b : Bool) → b ≡ false → (if b then x else y) ≡ y
unless x y true h = cc
unless x y false h = refl

module _ {H B W : Type 0} (codec : Codec H) (hashing : Hashing B) (outside : Outside H W)
    (blobs_of : W → Dict B) (env : Env Sample (Scene H W)) (order : Order) where
  open_run-IsValid :
      (s : Shop (Queue Sample) (Scene H W))
      → IsValid s.queue
      → IsValid (open_run codec hashing outside blobs_of env order s).1.queue
  unfolding open_run note_started
  open_run-IsValid s v = take_over-IsValid env order.resuming s v

  -- The workers of a run that has begun.
  abbrev pub working : Plant H W → Shop (Queue Sample) (Scene H W)
  working p =
      enqueue_all env order.run_id order.task 0 order.rows
        (open_run codec hashing outside blobs_of env order p.shop).1

  gather-Return :
      (schedules : List (List ℕ)) (s : Shop (Queue Sample) (Scene H W))
      → IsValid s.queue
      → All (Visits (max 1 order.concurrency)) schedules
      → table_turns s.queue + max 1 order.concurrency ≤ length schedules
      → (has_stopped (gather env order.concurrency schedules s).0 ≡ true)
        ⊎ NonePending (gather env order.concurrency schedules s).1.queue
  unfolding gather
  gather-Return schedules s v f h =
      (some_workers-Return env (max 1 order.concurrency) schedules s (omega arith) v f h).1

  gather-Told :
      (schedules : List (List ℕ)) (s : Shop (Queue Sample) (Scene H W))
      → Sticky env
      → has_stopped (gather env order.concurrency schedules s).0 ≡ true
      → env.stop_is_set (gather env order.concurrency schedules s).1.world ≡ true
  unfolding gather
  gather-Told schedules s sticky =
      rounds-Told sqlite env sticky schedules (workers (max 1 order.concurrency)) s
        (λ h. absurd (ground (arith, h, workers_awake Sample (max 1 order.concurrency))))

  drive-ends :
      (schedules : List (List ℕ)) (more : List (List (List ℕ)))
      (s : Shop (Queue Sample) (Scene H W))
      → Sticky env
      → IsValid s.queue
      → All (Visits (max 1 order.concurrency)) schedules
      → table_turns s.queue + max 1 order.concurrency ≤ length schedules
      → drive codec hashing outside blobs_of env order (schedules ∷ more) s
        ≡ some (gather env order.concurrency schedules s).1
  unfolding drive
  drive-ends schedules more s sticky v f h =
      either _ _ _ _ (elim (gather-Return schedules s v f h) [
        | inl stopped ↦ inl (gather-Told schedules s sticky stopped)
        | inr empty ↦ inr (no_rows (gather env order.concurrency schedules s).1.queue empty)
      ])

  execute-go_on :
      (schedules : List (List (List ℕ))) (p : Plant H W) (r : Result H) (h : H)
      → r ≡ ok h
      → (elim r [
        | raised e ↦ some (
          raised e,
          record p { shop = (open_run codec hashing outside blobs_of env order p.shop).1 },
        )
        | ok _ ↦
            go_on codec hashing outside blobs_of env order schedules
              (record p { shop = (open_run codec hashing outside blobs_of env order p.shop).1 })
      ])
        ≡ go_on codec hashing outside blobs_of env order schedules
            (record p { shop = (open_run codec hashing outside blobs_of env order p.shop).1 })
  execute-go_on schedules p (raised e) h q = cc
  execute-go_on schedules p (ok h') h q = refl

  -- If run.started can be put down, an embedded run of a valid table with workers whose turns suffice and a
  -- stop event that nothing unsets ends its loop after one gather, and what it returns is what finalize
  -- makes of the state in which the workers leave the run.
  pub execute-finalized :
      (schedules : List (List ℕ)) (more : List (List (List ℕ))) (p : Plant H W) (h : H)
      → order.distributed ≡ false
      → (open_run codec hashing outside blobs_of env order p.shop).0 ≡ ok h
      → Sticky env
      → IsValid p.shop.queue
      → All (Visits (max 1 order.concurrency)) schedules
      → table_turns (working p).queue + max 1 order.concurrency ≤ length schedules
      → execute codec hashing outside blobs_of env order (schedules ∷ more) p
        ≡ some (
            finalized codec hashing outside blobs_of env order
              (record p { shop = (gather env order.concurrency schedules (working p)).1 }))
  unfolding execute go_on
  execute-finalized schedules more p h embedded started sticky v f enough =
      execute-go_on (schedules ∷ more) p _ h started
      ∙ (unless _ _ _ embedded
          ∙ ap
              (λ o. elim o [
                | none ↦ none
                | some t ↦
                    some
                      (finalized codec hashing outside blobs_of env order (record p { shop = t }))
              ])
              (drive-ends schedules more (working p) sticky
                (enqueue_all-IsValid env order.run_id order.task 0 order.rows _
                  (open_run-IsValid p.shop v))
                f enough))
