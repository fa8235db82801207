-- ===== src/Orchestrator/Crew/Ends.antt =====
-- A turn of a worker that has not returned uses up one of the turns that the table allows.
use browser_agent.Common.{
  ℕ, zero, suc, ◌+◌, ◌≤◌, ◌<◌, ◌≡◌, refl, ap, inl, inr, true, false, List, [], ◌∷◌, arith,
  Bool-cases, Option-cases, get_elem?,
}
use browser_agent.Agent.Effect.{ok, raised}
use browser_agent.Queue.Sqlite.{Queue}
use browser_agent.Queue.Sqlite.Invariant.{IsValid}
use browser_agent.Orchestrator.Worker.{Env, Shop, take_job, settle, is_finished}
use browser_agent.Orchestrator.Worker.OnSqlite.{sqlite}
use browser_agent.Orchestrator.Crew.{
  Phase, ready, running, ran, stopped, drained, is_awake, awake_at, act, turn,
}
use browser_agent.Orchestrator.Crew.Steps.{Owns}
use browser_agent.Orchestrator.Crew.Exclusive.{Exclusive}
use browser_agent.Orchestrator.Crew.Turns.{
  table_turns, phase_turns, crew_turns, ack-turns, nack-turns, dequeue-turns, dequeue_none-turns,
}

module _ {P W : Type 0} (env : Env P W) where
  abbrev After : Phase P → Shop (Queue P) W → Phase P × Shop (Queue P) W → Type 0
  After p s (p', t) = table_turns t.queue + phase_turns p' < table_turns s.queue + phase_turns p

  settled-turns :
      (s t : Queue P) → table_turns t ≤ table_turns s → table_turns t + 1 < table_turns s + 2
  settled-turns s t h = omega (arith, h)

  act-turns :
      (p : Phase P) (s : Shop (Queue P) W)
      → IsValid s.queue
      → Owns s.queue p
      → is_awake p ≡ true
      → After p s (act sqlite env p s)
  unfolding act settle
  act-turns ready s v o a = elim (Bool-cases (env.stop_is_set s.world)) [
    | inl e ↦ rw (e, act) (omega arith)
    | inr e ↦ elim (Option-cases (take_job sqlite env s).0) [
      | inl f ↦ rw (e, f, act, dequeue_none-turns _ _ _ s.queue v f) (omega arith)
      | inr (j, f) ↦ rw (e, f, act) (omega (arith, dequeue-turns _ _ _ s.queue j v f))
    ]
  ]
  act-turns (running j) s v o a = omega arith
  act-turns (ran j (raised x)) s v o a = settled-turns s.queue _ (nack-turns j _ _ s.queue v o)
  act-turns (ran j (ok res)) s v o a = elim (Bool-cases (is_finished res)) [
    | inl e ↦ rw (e, act, settle) (settled-turns s.queue _ (ack-turns j _ s.queue v o))
    | inr e ↦ rw (e, act, settle) (settled-turns s.queue _ (nack-turns j _ _ s.queue v o))
  ]
  act-turns stopped s v o a = cc
  act-turns drained s v o a = cc

  act-asleep :
      (p : Phase P) (s : Shop (Queue P) W) → is_awake p ≡ false → act sqlite env p s ≡ (p, s)
  unfolding act
  act-asleep ready s a = cc
  act-asleep (running j) s a = cc
  act-asleep (ran j r) s a = cc
  act-asleep stopped s a = refl
  act-asleep drained s a = refl

  pub turn-less :
      (i : ℕ) (ps : List (Phase P)) (s : Shop (Queue P) W)
      → Exclusive s.queue ps
      → awake_at i ps ≡ true
      → table_turns (turn sqlite env i ps s).1.queue + crew_turns (turn sqlite env i ps s).0
        < table_turns s.queue + crew_turns ps
  unfolding turn
  turn-less i [] s x a = cc
  turn-less zero (p ∷ ps) s x a = omega (arith, act-turns p s x.valid x.owns.0 a)
  turn-less (suc i) (p ∷ ps) s x a =
      omega
        (arith, turn-less i ps s (record { valid = x.valid; owns = x.owns.1; apart = x.apart.1 }) a)

  pub turn-asleep :
      (i : ℕ) (ps : List (Phase P)) (s : Shop (Queue P) W)
      → awake_at i ps ≡ false
      → turn sqlite env i ps s ≡ (ps, s)
  unfolding turn
  turn-asleep i [] s a = refl
  turn-asleep zero (p ∷ ps) s a = ap (λ (p', t). (p' ∷ ps, t)) (act-asleep p s a)
  turn-asleep (suc i) (p ∷ ps) s a = ap (λ (ps', t). (p ∷ ps', t)) (turn-asleep i ps s a)

  -- A turn leaves the phases of the others.
  pub turn-others :
      (i k : ℕ) (ps : List (Phase P)) (s : Shop (Queue P) W)
      → (i ≡ k → ⊥)
      → get_elem? (turn sqlite env i ps s).0 k ≡ get_elem? ps k
  unfolding turn
  turn-others i k [] s ne = refl
  turn-others zero zero (p ∷ ps) s ne = absurd (ne refl)
  turn-others zero (suc k) (p ∷ ps) s ne = refl
  turn-others (suc i) zero (p ∷ ps) s ne = refl
  turn-others (suc i) (suc k) (p ∷ ps) s ne = turn-others i k ps s (λ e. ne (ap suc e))
