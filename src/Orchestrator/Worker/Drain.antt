-- ===== src/Orchestrator/Worker/Drain.antt =====
-- The loop of one worker ends, with the queue drained or the stop event set.
use browser_agent.Common.{
  ℕ, zero, suc, ◌<◌, ◌≡◌, true, ◌⊎◌, inl, inr, Option, none, some, arith, Bool-cases, Option-cases,
}
use browser_agent.Queue.{Job}
use browser_agent.Agent.Effect.{Result-cases}
use browser_agent.Orchestrator.Worker.{
  TaskQueue, Laws, Env, Shop, take_job, settle, serve, worker, is_finished,
}

module _ {P Q W : Type 0} (tasks : TaskQueue P Q) (laws : Laws tasks) (env : Env P W) where
  serve-less :
      (s : Shop Q W) (j : Job P)
      → laws.Valid s.queue
      → (take_job tasks env s).0 ≡ some j
      → laws.Valid (serve tasks env j (take_job tasks env s).1).queue
        × (laws.work (serve tasks env j (take_job tasks env s).1).queue < laws.work s.queue)
  unfolding serve settle
  serve-less s j v e = elim (Result-cases (env.run_one j (take_job tasks env s).1.world).0) [
    | inl (x, f) ↦
        rw (f, serve, settle)
          (laws.nack-Valid _ _ _ _ _ j s.queue v e, laws.nack-work _ _ _ _ _ j s.queue v e)
    | inr (res, f) ↦ elim (Bool-cases (is_finished res)) [
      | inl g ↦
          rw (f, g, serve, settle)
            (laws.ack-Valid _ _ _ _ j s.queue v e, laws.ack-work _ _ _ _ j s.queue v e)
      | inr g ↦
          rw (f, g, serve, settle)
            (laws.nack-Valid _ _ _ _ _ j s.queue v e, laws.nack-work _ _ _ _ _ j s.queue v e)
    ]
  ]

  -- How a worker's loop may end.
  abbrev pub Drained : Option (Shop Q W) → Type 0
  Drained none = ⊥
  Drained (some s) =
      laws.Valid s.queue × ((env.stop_is_set s.world ≡ true) ⊎ (laws.work s.queue ≡ 0))

  pub worker-Drained :
      (fuel : ℕ) (s : Shop Q W)
      → laws.Valid s.queue
      → laws.work s.queue < fuel
      → Drained (worker tasks env fuel s)
  unfolding worker
  worker-Drained zero s v p = absurd omega (arith, p)
  worker-Drained (suc fuel) s v p = elim (Bool-cases (env.stop_is_set s.world)) [
    | inl e ↦ rw (e, Drained) (v, inl e)
    | inr e ↦ elim (Option-cases (take_job tasks env s).0) [
      | inl f ↦
          rw (e, f, Drained)
            (laws.dequeue-Valid _ _ _ s.queue v, inr (laws.dequeue-work _ _ _ s.queue v f))
      | inr (j, f) ↦
          rw (e, f, Drained)
            (worker-Drained fuel (serve tasks env j (take_job tasks env s).1) (serve-less s j v f).0
              (omega (arith, (serve-less s j v f).1, p)))
    ]
  ]
