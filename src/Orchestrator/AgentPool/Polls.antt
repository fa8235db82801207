-- ===== src/Orchestrator/AgentPool/Polls.antt =====
-- `run_agent_pool` of src/andera/worker.py: an agent that serves the jobs of all runs, and stays until
-- the stop event is set. Its audit logs and files per run are part of the world that `run_one` takes.
use browser_agent.Common.{
  ℕ, zero, suc, ◌+◌, ◌<◌, String, ◌≡◌, inl, inr, ◌⊎◌, Bool, true, Option, none, some, str_eq, arith,
  Bool-cases, Option-cases, if◌then◌else◌,
}
use browser_agent.Queue.{Job}
use browser_agent.Orchestrator.Worker.{TaskQueue, Laws, Env, Shop, take_job}
use browser_agent.Orchestrator.AgentPool.Node.{process, process-less}

-- A queue that can give a job up, by its id and a clock reading.
pub record PoolQueue (P Q : Type 0) : Type 0 where
  pub tasks : TaskQueue P Q
  pub dead_letter : String → ℕ → Q → Q

pub record PoolLaws {P Q : Type 0} (queue : PoolQueue P Q) : Type 1 where
  pub laws : Laws queue.tasks
  pub dead_letter-Valid :
      (t : String) (m n k : ℕ) (j : Job P) (q : Q)
      → laws.Valid q
      → (queue.tasks.dequeue t m n q).0 ≡ some j
      → laws.Valid (queue.dead_letter j.item_id k (queue.tasks.dequeue t m n q).1)
  pub dead_letter-work :
      (t : String) (m n k : ℕ) (j : Job P) (q : Q)
      → laws.Valid q
      → (queue.tasks.dequeue t m n q).0 ≡ some j
      → laws.work (queue.dead_letter j.item_id k (queue.tasks.dequeue t m n q).1) < laws.work q

-- `if not run_id`
abbrev pub is_malformed : Option String → Bool
is_malformed none = true
is_malformed (some r) = str_eq r ""

module _ {P Q W : Type 0} (queue : PoolQueue P Q) (run_id : P → Option String) (env : Env P W) where
  abbrev pub give_up : Job P → Shop Q W → Shop Q W
  give_up job s =
      let (n, w) = env.now s.world in
      record s { queue = queue.dead_letter job.item_id n s.queue; world = w }

  -- One turn of the loop with its count of processed jobs; an empty poll only sleeps.
  unfoldable pub poll : ℕ × Shop Q W → ℕ × Shop Q W
  unfolding process
  poll (processed, s) =
      let (job, t) = take_job queue.tasks env s in
      elim job [
        | none ↦ (processed, t)
        | some j ↦
            if is_malformed (run_id j.payload)
            then (processed, give_up j t)
            else (processed + 1, process queue.tasks env j t)
      ]

  -- The loop, for so many turns at most.
  unfoldable pub polls : ℕ → ℕ × Shop Q W → ℕ × Shop Q W
  unfolding poll
  polls zero (processed, s) = (processed, s)
  polls (suc n) (processed, s) =
      let rest = polls n (poll (processed, s)) in
      if env.stop_is_set s.world then (processed, s) else rest

module _ {P Q W : Type 0} (queue : PoolQueue P Q) (run_id : P → Option String)
    (pool : PoolLaws queue) (env : Env P W) where
  poll-less :
      (processed : ℕ) (s : Shop Q W)
      → pool.laws.Valid s.queue
      → pool.laws.Valid (poll queue run_id env (processed, s)).1.queue
        × ((pool.laws.work (poll queue run_id env (processed, s)).1.queue ≡ 0)
            ⊎ (pool.laws.work (poll queue run_id env (processed, s)).1.queue
                < pool.laws.work s.queue))
  unfolding poll
  poll-less processed s v = elim (Option-cases (take_job queue.tasks env s).0) [
    | inl f ↦
        rw (f, poll)
          (pool.laws.dequeue-Valid _ _ _ s.queue v, inl (pool.laws.dequeue-work _ _ _ s.queue v f))
    | inr (j, f) ↦ elim (Bool-cases (is_malformed (run_id j.payload))) [
      | inl g ↦
          rw (f, g, poll)
            (
              pool.dead_letter-Valid _ _ _ _ j s.queue v f,
              inr (pool.dead_letter-work _ _ _ _ j s.queue v f),
            )
      | inr g ↦
          rw (f, g, poll)
            (let (a, b) = process-less queue.tasks pool.laws env s j v f in (a, inr b))
    ]
  ]

  abbrev pub Served : Shop Q W → Type 0
  Served t =
      pool.laws.Valid t.queue × ((env.stop_is_set t.world ≡ true) ⊎ (pool.laws.work t.queue ≡ 0))

  pub polls-Served :
      (n processed : ℕ) (s : Shop Q W)
      → pool.laws.Valid s.queue
      → (pool.laws.work s.queue ≡ 0) ⊎ (pool.laws.work s.queue < n)
      → Served (polls queue run_id env n (processed, s)).1
  unfolding polls
  polls-Served zero processed s v (inl z) = (v, inr z)
  polls-Served zero processed s v (inr p) = absurd omega (arith, p)
  polls-Served (suc n) processed s v p = elim (Bool-cases (env.stop_is_set s.world)) [
    | inl e ↦ rw (e, polls) (v, inl e)
    | inr e ↦
        let (v', c) = poll-less processed s v in
        rw (e, polls)
          (polls-Served n (poll queue run_id env (processed, s)).0
            (poll queue run_id env (processed, s)).1 v'
            (elim c [
              | inl z ↦ inl z
              | inr l ↦ elim p [
                | inl z ↦ absurd omega (arith, z, l)
                | inr h ↦ inr (omega (arith, h, l))
              ]
            ]))
  ]
