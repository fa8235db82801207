-- ===== src/Orchestrator/Worker.antt =====
-- `_worker` of src/andera/orchestrator/runner.py, over a task queue that is a parameter: the protocol
-- `TaskQueue` of src/andera/contracts/protocols.py.
pub mod Drain
pub mod OnSqlite
pub mod OnRedis
use browser_agent.Common.{
  ℕ, zero, suc, ◌<◌, String, ◌≡◌, Bool, true, false, ◌||◌, Option, none, some, str_eq,
  if◌then◌else◌,
}
use browser_agent.Queue.{Job}
use browser_agent.Agent.Effect.{Failure, ok, raised, Eff}
use browser_agent.Agent.Effect
use browser_agent.Agent.Step.{or_default}
use browser_agent.Orchestrator.Recorder.{Result, Recorder, is_pass, record_result}

-- The operations take the uuid and the clock readings that they draw.
pub record TaskQueue (P Q : Type 0) : Type 0 where
  pub dequeue : String → ℕ → ℕ → Q → Option (Job P) × Q
  pub ack : String → ℕ → Q → Q
  pub nack : String → String → ℕ → Q → Q

-- What the loop relies on.
pub record Laws {P Q : Type 0} (tasks : TaskQueue P Q) : Type 1 where
  pub Valid : Q → Type 0
  -- the deliveries that the pending jobs can still have
  pub work : Q → ℕ
  pub dequeue-Valid : (t : String) (m n : ℕ) (q : Q) → Valid q → Valid (tasks.dequeue t m n q).1
  -- A job that was handed out can be settled.
  pub ack-Valid :
      (t : String) (m n k : ℕ) (j : Job P) (q : Q)
      → Valid q
      → (tasks.dequeue t m n q).0 ≡ some j
      → Valid (tasks.ack j.item_id k (tasks.dequeue t m n q).1)
  pub nack-Valid :
      (t reason : String) (m n k : ℕ) (j : Job P) (q : Q)
      → Valid q
      → (tasks.dequeue t m n q).0 ≡ some j
      → Valid (tasks.nack j.item_id reason k (tasks.dequeue t m n q).1)
  -- None is handed out only if no job is pending.
  pub dequeue-work :
      (t : String) (m n : ℕ) (q : Q)
      → Valid q
      → (tasks.dequeue t m n q).0 ≡ none
      → work (tasks.dequeue t m n q).1 ≡ 0
  -- It has used up a delivery then.
  pub ack-work :
      (t : String) (m n k : ℕ) (j : Job P) (q : Q)
      → Valid q
      → (tasks.dequeue t m n q).0 ≡ some j
      → work (tasks.ack j.item_id k (tasks.dequeue t m n q).1) < work q
  pub nack-work :
      (t reason : String) (m n k : ℕ) (j : Job P) (q : Q)
      → Valid q
      → (tasks.dequeue t m n q).0 ≡ some j
      → work (tasks.nack j.item_id reason k (tasks.dequeue t m n q).1) < work q

-- What a worker finds around it.
pub record Env (P W : Type 0) : Type 0 where
  pub stop_is_set : W → Bool
  pub uuid : W → String × W
  pub now : W → ℕ × W
  -- `_run_one`
  pub run_one : Job P → Eff W Result
  -- f"{type(e).__name__}: {e}"
  pub describe : Failure → String

-- What the workers share.
pub record Shop (Q W : Type 0) : Type 0 where
  pub queue : Q
  pub recorder : Recorder
  pub world : W

abbrev pub is_finished : Result → Bool
is_finished r = is_pass r.verdict || elim r.status [ none ↦ false | some s ↦ str_eq s "done" ]

module _ {P Q W : Type 0} (tasks : TaskQueue P Q) (env : Env P W) where
  -- `dequeue` with its draws
  abbrev pub take_job : Shop Q W → Option (Job P) × Shop Q W
  take_job s =
      let (token, w₁) = env.uuid s.world in
      let (at, w₂) = env.now w₁ in
      let (updated, w₃) = env.now w₂ in
      let (job, q) = tasks.dequeue token at updated s.queue in
      (job, record s { queue = q; world = w₃ })

  abbrev pub acked : String → Shop Q W → Shop Q W
  acked id s =
      let (n, w) = env.now s.world in record s { queue = tasks.ack id n s.queue; world = w }

  abbrev pub nacked : String → String → Shop Q W → Shop Q W
  nacked id reason s =
      let (n, w) = env.now s.world in record s { queue = tasks.nack id reason n s.queue; world = w }

  -- What follows `_run_one`: the result is recorded, and the job settled.
  unfoldable pub settle : Job P → Effect.Result Result → Shop Q W → Shop Q W
  settle job (raised e) s = nacked job.item_id (env.describe e) s
  settle job (ok res) s =
      let t = record s { recorder = record_result res s.recorder } in
      if is_finished res
      then acked job.item_id t
      else nacked job.item_id (or_default res.error "no verdict") t

  -- The body of the loop on a job.
  pub serve : Job P → Shop Q W → Shop Q W
  unfolding settle
  serve job s = let (r, w) = env.run_one job s.world in settle job r (record s { world = w })

  -- `_worker`, where none is a loop that outlives its fuel.
  pub worker : ℕ → Shop Q W → Option (Shop Q W)
  unfolding serve
  worker zero s = none
  worker (suc fuel) s =
      let (job, t) = take_job s in
      let rest : Option (Shop Q W) = elim job [
        | none ↦ some t
        | some j ↦ worker fuel (serve j t)
      ] in
      if env.stop_is_set s.world then some s else rest
