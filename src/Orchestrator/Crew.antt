-- ===== src/Orchestrator/Crew.antt =====
-- `asyncio.gather` over the workers of `execute` in src/andera/orchestrator/runner.py: the loops of
-- several workers on one queue, in turns. A turn of a worker goes from one of its awaits to the next:
-- it takes a job, or the job's `_run_one` ends, or the result is recorded and the job settled.
pub mod Steps
pub mod Exclusive
pub mod Turns
pub mod Ends
pub mod Left
pub mod Stop
pub mod Drains
use browser_agent.Common.{
  ◌≡◌, ◌<◌, any_of, ◌==◌, ℕ, zero, suc, Bool, true, false, not, ◌||◌, ◌&&◌, Option, none, some,
  List, [], ◌∷◌, if◌then◌else◌, get_elem?,
}
use browser_agent.Queue.{Job}
use browser_agent.Agent.Effect.{ok, raised}
use browser_agent.Agent.Effect
use browser_agent.Orchestrator.Recorder.{Result}
use browser_agent.Orchestrator.Worker.{TaskQueue, Env, Shop, take_job, settle}

-- Where a worker stands.
pub data Phase (P : Type 0) : Type 0 where
  ready : Phase P
  running : Job P → Phase P
  ran : Job P → Effect.Result Result → Phase P
  -- its two returns: the stop event is set, or the queue gave no job
  stopped : Phase P
  drained : Phase P

abbrev pub is_awake : {P : Type 0} → Phase P → Bool
is_awake stopped = false
is_awake drained = false
is_awake _ = true

-- Whether the worker at an index has not returned.
abbrev pub awake_at : {P : Type 0} → ℕ → List (Phase P) → Bool
awake_at i ps = elim (get_elem? ps i) [ none ↦ false | some p ↦ is_awake p ]

-- `[self._worker(i) for i in range(n)]`
abbrev pub workers : {P : Type 0} → ℕ → List (Phase P)
workers zero = []
workers (suc n) = ready ∷ workers n

-- A schedule with a turn for each of `n` workers.
abbrev pub Visits : ℕ → List ℕ → Type 0
Visits n schedule = (k : ℕ) → k < n → any_of (λ i. i == k) schedule ≡ true

module _ {P Q W : Type 0} (tasks : TaskQueue P Q) (env : Env P W) where
  unfoldable pub act : Phase P → Shop Q W → Phase P × Shop Q W
  act ready s =
      if env.stop_is_set s.world
      then (stopped, s)
      else let (job, t) = take_job tasks env s in
        elim job [ none ↦ (drained, t) | some j ↦ (running j, t) ]
  act (running j) s = let (r, w) = env.run_one j s.world in (ran j r, record s { world = w })
  act (ran j r) s = (ready, settle tasks env j r s)
  act stopped s = (stopped, s)
  act drained s = (drained, s)

  -- The turn of the worker at an index.
  unfoldable pub turn : ℕ → List (Phase P) → Shop Q W → List (Phase P) × Shop Q W
  unfolding act
  turn i [] s = ([], s)
  turn zero (p ∷ ps) s = let (p', t) = act p s in (p' ∷ ps, t)
  turn (suc i) (p ∷ ps) s = let (ps', t) = turn i ps s in (p ∷ ps', t)

  unfoldable pub turns : List ℕ → List (Phase P) → Shop Q W → List (Phase P) × Shop Q W
  unfolding turn
  turns [] ps s = (ps, s)
  turns (i ∷ schedule) ps s = let (ps', t) = turn i ps s in turns schedule ps' t

  -- Rounds of turns, one schedule after another.
  unfoldable pub rounds : List (List ℕ) → List (Phase P) → Shop Q W → List (Phase P) × Shop Q W
  unfolding turns
  rounds [] ps s = (ps, s)
  rounds (schedule ∷ schedules) ps s = let (ps', t) = turns schedule ps s in rounds schedules ps' t
