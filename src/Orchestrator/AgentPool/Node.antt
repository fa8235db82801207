-- ===== src/Orchestrator/AgentPool/Node.antt =====
-- `WorkerNode.run` of src/andera/worker.py: a worker that leaves after three empty polls in a row. It
-- has the queue and the world of a `Shop`; the recorder there is that of a run, which it leaves alone.
use browser_agent.Common.{
  ℕ, zero, suc, ◌+◌, ◌≤◌, ◌<◌, ◌≡◌, refl, inl, inr, ◌⊎◌, true, Option, none, some, leb, arith,
  Bool-cases, Option-cases, if◌then◌else◌,
}
use browser_agent.Queue.{Job}
use browser_agent.Agent.Effect.{ok, raised, Result-cases}
use browser_agent.Agent.Step.{or_default}
use browser_agent.Orchestrator.Worker.{
  TaskQueue, Laws, Env, Shop, take_job, acked, nacked, is_finished,
}

module _ {P Q W : Type 0} (tasks : TaskQueue P Q) (env : Env P W) where
  -- The job is processed, and settled by its result.
  unfoldable pub process : Job P → Shop Q W → Shop Q W
  process job s =
      let (r, w) = env.run_one job s.world in
      let t : Shop Q W = record s { world = w } in
      elim r [
        | raised e ↦ nacked tasks env job.item_id (env.describe e) t
        | ok res ↦
            if is_finished res
            then acked tasks env job.item_id t
            else nacked tasks env job.item_id (or_default res.error "no verdict") t
      ]

  -- The loop, with its two counters, where none is a loop that outlives its fuel.
  unfoldable pub node_loop : ℕ → ℕ → ℕ → Shop Q W → Option (ℕ × Shop Q W)
  unfolding process
  node_loop zero empty_rounds processed s = none
  node_loop (suc fuel) empty_rounds processed s =
      let (job, t) = take_job tasks env s in
      let again = node_loop fuel (empty_rounds + 1) processed t in
      let rest : Option (ℕ × Shop Q W) = elim job [
        | none ↦ if leb 3 (empty_rounds + 1) then some (processed, t) else again
        | some j ↦ node_loop fuel 0 (processed + 1) (process j t)
      ] in
      if env.stop_is_set s.world then some (processed, s) else rest

module _ {P Q W : Type 0} (tasks : TaskQueue P Q) (laws : Laws tasks) (env : Env P W) where
  pub process-less :
      (s : Shop Q W) (j : Job P)
      → laws.Valid s.queue
      → (take_job tasks env s).0 ≡ some j
      → laws.Valid (process tasks env j (take_job tasks env s).1).queue
        × (laws.work (process tasks env j (take_job tasks env s).1).queue < laws.work s.queue)
  unfolding process
  process-less s j v e = elim (Result-cases (env.run_one j (take_job tasks env s).1.world).0) [
    | inl (x, f) ↦
        rw (f, process)
          (laws.nack-Valid _ _ _ _ _ j s.queue v e, laws.nack-work _ _ _ _ _ j s.queue v e)
    | inr (res, f) ↦ elim (Bool-cases (is_finished res)) [
      | inl g ↦
          rw (f, g, process)
            (laws.ack-Valid _ _ _ _ j s.queue v e, laws.ack-work _ _ _ _ j s.queue v e)
      | inr g ↦
          rw (f, g, process)
            (laws.nack-Valid _ _ _ _ _ j s.queue v e, laws.nack-work _ _ _ _ _ j s.queue v e)
    ]
  ]

  -- How the loop may end that began with `done` jobs processed and so much work in the queue.
  abbrev pub Leaves : ℕ → ℕ → Option (ℕ × Shop Q W) → Type 0
  Leaves done work none = ⊥
  Leaves done work (some (processed, t)) =
      laws.Valid t.queue
      × (processed + laws.work t.queue ≤ done + work)
      × ((env.stop_is_set t.world ≡ true) ⊎ (laws.work t.queue ≡ 0))

  Leaves-mono :
      (d d' w w' : ℕ) (o : Option (ℕ × Shop Q W)) → d' + w' ≤ d + w → Leaves d' w' o → Leaves d w o
  Leaves-mono d d' w w' none h l = l
  Leaves-mono d d' w w' (some (processed, t)) h (v, b, l) = (v, omega (arith, b, h), l)

  node_loop-Leaves :
      (fuel empty_rounds processed : ℕ) (s : Shop Q W)
      → laws.Valid s.queue
      → laws.work s.queue + 3 ≤ fuel + empty_rounds
      → empty_rounds < 3
      → (empty_rounds ≡ 0) ⊎ (laws.work s.queue ≡ 0)
      → Leaves processed (laws.work s.queue) (node_loop tasks env fuel empty_rounds processed s)
  unfolding node_loop
  node_loop-Leaves zero empty_rounds processed s v p r c = absurd omega (arith, p, r)
  node_loop-Leaves (suc fuel) empty_rounds processed s v p r c =
      elim (Bool-cases (env.stop_is_set s.world)) [
        | inl e ↦ rw (e, Leaves) (v, omega arith, inl e)
        | inr e ↦ elim (Option-cases (take_job tasks env s).0) [
          | inl f ↦
              let drained = laws.dequeue-work _ _ _ s.queue v f in
              let v' = laws.dequeue-Valid _ _ _ s.queue v in
              elim (Bool-cases (leb 3 (empty_rounds + 1))) [
                | inl g ↦ rw (e, f, g, Leaves) (v', omega (arith, drained), inr drained)
                | inr g ↦
                    rw (e, f, g)
                      (Leaves-mono processed processed _ _ _ (omega (arith, drained)) (
                        node_loop-Leaves fuel (empty_rounds + 1) processed (take_job tasks env s).1
                          v' (omega (arith, drained, p)) (ground (arith, g)) (inr drained)))
              ]
          | inr (j, f) ↦
              let (v', l) = process-less s j v f in
              rw (e, f)
                (Leaves-mono processed (processed + 1) _ _ _ (omega (arith, l)) (
                  node_loop-Leaves fuel 0 (processed + 1)
                    (process tasks env j (take_job tasks env s).1) v'
                    (elim c [ inl z ↦ omega (arith, z, l, p) | inr z ↦ absurd omega (arith, z, l) ])
                    (omega arith) (inl refl)))
        ]
      ]

  -- Alone on a valid queue, the worker of run leaves after at most as many polls as deliveries are left
  -- in the queue and three more. It has processed no more jobs than deliveries were left, and none is
  -- left unless the stop event is set.
  pub node_loop-Leave :
      (fuel : ℕ) (s : Shop Q W)
      → laws.Valid s.queue
      → laws.work s.queue + 3 ≤ fuel
      → Leaves 0 (laws.work s.queue) (node_loop tasks env fuel 0 0 s)
  node_loop-Leave fuel s v p =
      node_loop-Leaves fuel 0 0 s v (omega (arith, p)) (omega arith) (inl refl)
