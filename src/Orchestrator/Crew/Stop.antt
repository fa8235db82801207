-- ===== src/Orchestrator/Crew/Stop.antt =====
-- The stop event, which is never cleared.
use browser_agent.Common.{
  ℕ, zero, suc, ◌≡◌, refl, Bool, true, false, ◌||◌, List, [], ◌∷◌, arith, ◌⊎◌, inl, inr, Bool-cases,
}
use browser_agent.Agent.Effect
use browser_agent.Queue.{Job}
use browser_agent.Orchestrator.Recorder.{Result}
use browser_agent.Orchestrator.Worker.{TaskQueue, Env, Shop, take_job, settle, is_finished}
use browser_agent.Orchestrator.Crew.{
  Phase, ready, running, ran, stopped, drained, workers, act, turn, turns, rounds,
}
use browser_agent.Orchestrator.Crew.Left.{is_stopped, has_stopped}

-- Nothing that a worker does unsets it: `asyncio.Event` is set until `clear`, which no code calls.
pub record Sticky {P W : Type 0} (env : Env P W) : Type 0 where
  pub uuid : (w : W) → env.stop_is_set w ≡ true → env.stop_is_set (env.uuid w).1 ≡ true
  pub now : (w : W) → env.stop_is_set w ≡ true → env.stop_is_set (env.now w).1 ≡ true
  pub run_one :
      (j : Job P) (w : W) → env.stop_is_set w ≡ true → env.stop_is_set (env.run_one j w).1 ≡ true

module _ {P Q W : Type 0} (tasks : TaskQueue P Q) (env : Env P W) (sticky : Sticky env) where
  abbrev StopIsSet : Shop Q W → Type 0
  StopIsSet s = env.stop_is_set s.world ≡ true

  settle-StopIsSet :
      (j : Job P) (r : Effect.Result Result) (s : Shop Q W)
      → StopIsSet s
      → StopIsSet (settle tasks env j r s)
  unfolding settle
  settle-StopIsSet j (Effect.raised e) s h = sticky.now s.world h
  settle-StopIsSet j (Effect.ok res) s h = elim (Bool-cases (is_finished res)) [
    | inl e ↦ rw e (sticky.now s.world h)
    | inr e ↦ rw e (sticky.now s.world h)
  ]

  take_job-StopIsSet : (s : Shop Q W) → StopIsSet s → StopIsSet (take_job tasks env s).1
  take_job-StopIsSet s h = sticky.now _ (sticky.now _ (sticky.uuid s.world h))

  act-StopIsSet : (p : Phase P) (s : Shop Q W) → StopIsSet s → StopIsSet (act tasks env p s).1
  unfolding act
  act-StopIsSet ready s h = rw h h
  act-StopIsSet (running j) s h = sticky.run_one j s.world h
  act-StopIsSet (ran j r) s h = settle-StopIsSet j r s h
  act-StopIsSet stopped s h = h
  act-StopIsSet drained s h = h

  -- Who stops in its turn has seen the event.
  act_stopped :
      (p : Phase P) (s : Shop Q W)
      → is_stopped (act tasks env p s).0 ≡ true
      → (is_stopped p ≡ true) ⊎ StopIsSet (act tasks env p s).1
  unfolding act
  act_stopped ready s h = elim (Bool-cases (env.stop_is_set s.world)) [
    | inl e ↦ inr (rw e e)
    | inr e ↦ absurd (ready_goes_on e h)
  ]
    where
      ready_goes_on :
          env.stop_is_set s.world ≡ false → is_stopped (act tasks env ready s).0 ≡ true → ⊥
      ready_goes_on e q = ground (arith, e, q)
  act_stopped (running j) s h = cc
  act_stopped (ran j r) s h = cc
  act_stopped stopped s h = inl refl
  act_stopped drained s h = cc

  -- If some worker has stopped, the event is set.
  abbrev pub Told : List (Phase P) → Shop Q W → Type 0
  Told ps s = has_stopped ps ≡ true → StopIsSet s

  turn-StopIsSet :
      (i : ℕ) (ps : List (Phase P)) (s : Shop Q W)
      → StopIsSet s
      → StopIsSet (turn tasks env i ps s).1
  unfolding turn
  turn-StopIsSet i [] s h = h
  turn-StopIsSet zero (p ∷ ps) s h = act-StopIsSet p s h
  turn-StopIsSet (suc i) (p ∷ ps) s h = turn-StopIsSet i ps s h

  turn-Told :
      (i : ℕ) (ps : List (Phase P)) (s : Shop Q W)
      → Told ps s
      → Told (turn tasks env i ps s).0 (turn tasks env i ps s).1
  unfolding turn
  turn-Told i [] s t h = t h
  turn-Told zero (p ∷ ps) s t h = elim (Bool-cases (is_stopped (act tasks env p s).0)) [
    | inl e ↦ elim (act_stopped p s e) [
      | inl was ↦ act-StopIsSet p s (t (rw was refl))
      | inr set ↦ set
    ]
    | inr e ↦ act-StopIsSet p s (t (other (is_stopped p) (rw e at h)))
  ]
    where
      other : (b : Bool) → has_stopped ps ≡ true → (b || has_stopped ps) ≡ true
      other b q = ground (arith, q)
  turn-Told (suc i) (p ∷ ps) s t h = elim (Bool-cases (is_stopped p)) [
    | inl e ↦ turn-StopIsSet i ps s (t (rw e refl))
    | inr e ↦ turn-Told i ps s (λ q. t (rw e q)) (rw e at h)
  ]

  turns-Told :
      (schedule : List ℕ) (ps : List (Phase P)) (s : Shop Q W)
      → Told ps s
      → Told (turns tasks env schedule ps s).0 (turns tasks env schedule ps s).1
  unfolding turns
  turns-Told [] ps s t = t
  turns-Told (i ∷ schedule) ps s t = turns-Told schedule _ _ (turn-Told i ps s t)

  pub rounds-Told :
      (schedules : List (List ℕ)) (ps : List (Phase P)) (s : Shop Q W)
      → Told ps s
      → Told (rounds tasks env schedules ps s).0 (rounds tasks env schedules ps s).1
  unfolding rounds
  rounds-Told [] ps s t = t
  rounds-Told (r ∷ rs) ps s t = rounds-Told rs _ _ (turns-Told r ps s t)

-- Workers that have not begun have not stopped.
pub workers_awake : (P : Type 0) (n : ℕ) → has_stopped (workers {P = P} n) ≡ false
workers_awake P zero = refl
workers_awake P (suc n) = workers_awake P n
