-- ===== src/Orchestrator/Crew/Drains.antt =====
-- Workers that are all scheduled again and again return, and leave no job pending.
use browser_agent.Common.{
  ℕ, zero, suc, ◌+◌, ◌≤◌, ◌<◌, ◌≡◌, refl, sym, ap, subst, ◌∙◌, inl, inr, ◌⊎◌, true, false, List, [],
  ◌∷◌, arith, Bool-cases, length, All, any_of, ◌==◌, ==_iff,
}
use browser_agent.Queue.Sqlite.{Queue}
use browser_agent.Queue.Sqlite.Invariant.{IsValid}
use browser_agent.Orchestrator.Worker.{Env, Shop}
use browser_agent.Orchestrator.Worker.OnSqlite.{sqlite}
use browser_agent.Orchestrator.Crew.{
  Phase, ready, running, ran, stopped, drained, is_awake, awake_at, workers, turn, turns, rounds,
  Visits,
}
use browser_agent.Orchestrator.Crew.Exclusive.{
  Exclusive, turn-Exclusive, turns-Exclusive, start-Exclusive,
}
use browser_agent.Orchestrator.Crew.Turns.{table_turns, phase_turns, crew_turns}
use browser_agent.Orchestrator.Crew.Ends.{turn-less, turn-asleep, turn-others}
use browser_agent.Orchestrator.Crew.Left.{
  NonePending, has_stopped, Asleep, any_awake, Asleep-awake_at, Left, Left-Asleep, turn-keeps_Left,
}

module _ {P W : Type 0} (env : Env P W) where
  abbrev left_turns : List (Phase P) × Shop (Queue P) W → ℕ
  left_turns (ps, s) = table_turns s.queue + crew_turns ps

  turn-le :
      (i : ℕ) (ps : List (Phase P)) (s : Shop (Queue P) W)
      → Exclusive s.queue ps
      → left_turns (turn sqlite env i ps s) ≤ left_turns (ps, s)
  turn-le i ps s x = elim (Bool-cases (awake_at i ps)) [
    | inl a ↦ omega (arith, turn-less env i ps s x a)
    | inr a ↦ rw (turn-asleep env i ps s a) (omega arith)
  ]

  turns-le :
      (schedule : List ℕ) (ps : List (Phase P)) (s : Shop (Queue P) W)
      → Exclusive s.queue ps
      → left_turns (turns sqlite env schedule ps s) ≤ left_turns (ps, s)
  unfolding turns
  turns-le [] ps s x = omega arith
  turns-le (i ∷ schedule) ps s x = omega (
    arith,
    turn-le i ps s x,
    turns-le schedule (turn sqlite env i ps s).0 (turn sqlite env i ps s).1
        (turn-Exclusive env i ps s x),
  )

  -- A schedule in which a worker that has not returned gets a turn.
  turns-less :
      (k : ℕ) (schedule : List ℕ) (ps : List (Phase P)) (s : Shop (Queue P) W)
      → Exclusive s.queue ps
      → awake_at k ps ≡ true
      → any_of (λ i. i == k) schedule ≡ true
      → left_turns (turns sqlite env schedule ps s) < left_turns (ps, s)
  unfolding turns
  turns-less k [] ps s x a f = cc
  turns-less k (i ∷ schedule) ps s x a f =
      let y = turn-Exclusive env i ps s x in
      elim (Bool-cases (i == k)) [
        | inl e ↦ omega (
          arith,
          turn-less env i ps s x (subst (λ n. awake_at n ps ≡ true) (sym ((==_iff i k).0 e)) a),
          turns-le schedule (turn sqlite env i ps s).0 (turn sqlite env i ps s).1 y,
        )
        | inr e ↦ omega (
          arith,
          turn-le i ps s x,
          turns-less k schedule (turn sqlite env i ps s).0 (turn sqlite env i ps s).1 y
              (rw
                (
                  turn-others env i k ps s (λ same. absurd ground (arith, (==_iff i k).1 same, e)),
                  awake_at,
                )
                a)
              (ground (arith, f, e)),
        )
      ]

  turn-length :
      (i : ℕ) (ps : List (Phase P)) (s : Shop (Queue P) W)
      → length (turn sqlite env i ps s).0 ≡ length ps
  unfolding turn
  turn-length i [] s = refl
  turn-length zero (p ∷ ps) s = refl
  turn-length (suc i) (p ∷ ps) s = ap suc (turn-length i ps s)

  turns-length :
      (schedule : List ℕ) (ps : List (Phase P)) (s : Shop (Queue P) W)
      → length (turns sqlite env schedule ps s).0 ≡ length ps
  unfolding turns
  turns-length [] ps s = refl
  turns-length (i ∷ schedule) ps s = turns-length schedule _ _ ∙ turn-length i ps s

  turns-Left :
      (schedule : List ℕ) (ps : List (Phase P)) (s : Shop (Queue P) W)
      → Exclusive s.queue ps
      → Left ps s.queue
      → Left (turns sqlite env schedule ps s).0 (turns sqlite env schedule ps s).1.queue
  unfolding turns
  turns-Left [] ps s x l = l
  turns-Left (i ∷ schedule) ps s x l =
      turns-Left schedule (turn sqlite env i ps s).0 (turn sqlite env i ps s).1
        (turn-Exclusive env i ps s x) (turn-keeps_Left env i ps s x.valid l)

  rounds-Left :
      (schedules : List (List ℕ)) (ps : List (Phase P)) (s : Shop (Queue P) W)
      → Exclusive s.queue ps
      → Left ps s.queue
      → Left (rounds sqlite env schedules ps s).0 (rounds sqlite env schedules ps s).1.queue
  unfolding rounds
  rounds-Left [] ps s x l = l
  rounds-Left (r ∷ rs) ps s x l =
      rounds-Left rs (turns sqlite env r ps s).0 (turns sqlite env r ps s).1
        (turns-Exclusive env r ps s x) (turns-Left r ps s x l)

  turns-Asleep :
      (schedule : List ℕ) (ps : List (Phase P)) (s : Shop (Queue P) W)
      → Asleep ps
      → turns sqlite env schedule ps s ≡ (ps, s)
  unfolding turns
  turns-Asleep [] ps s a = refl
  turns-Asleep (i ∷ schedule) ps s a =
      rw (turn-asleep env i ps s (Asleep-awake_at i ps a)) (turns-Asleep schedule ps s a)

  crew-Asleep : (ps : List (Phase P)) → crew_turns ps ≡ 0 → Asleep ps
  crew-Asleep [] e = tt
  crew-Asleep (p ∷ ps) e = (here p (omega (arith, e)), crew-Asleep ps (omega (arith, e)))
    where
      here : (p : Phase P) → phase_turns p ≡ 0 → is_awake p ≡ false
      here ready e = absurd omega (arith, e)
      here (running j) e = absurd omega (arith, e)
      here (ran j r) e = absurd omega (arith, e)
      here stopped e = refl
      here drained e = refl

  rounds-kept :
      (schedules : List (List ℕ)) (ps : List (Phase P)) (s : Shop (Queue P) W)
      → Asleep ps
      → Asleep (rounds sqlite env schedules ps s).0
  unfolding rounds
  rounds-kept [] ps s a = a
  rounds-kept (r ∷ rs) ps s a = rw (turns-Asleep r ps s a, rounds) (rounds-kept rs ps s a)

  rounds-Asleep :
      (schedules : List (List ℕ)) (ps : List (Phase P)) (s : Shop (Queue P) W)
      → Exclusive s.queue ps
      → All (Visits (length ps)) schedules
      → left_turns (ps, s) ≤ length schedules
      → Asleep (rounds sqlite env schedules ps s).0
  unfolding rounds
  rounds-Asleep [] ps s x f p = crew-Asleep ps (omega (arith, p))
  rounds-Asleep (r ∷ rs) ps s x f p = elim (any_awake ps) [
    | inl a ↦ rw (turns-Asleep r ps s a, rounds) (rounds-kept rs ps s a)
    | inr (i, h, a) ↦
        rounds-Asleep rs (turns sqlite env r ps s).0 (turns sqlite env r ps s).1
          (turns-Exclusive env r ps s x) (rw (turns-length r ps s) f.1)
          (omega (arith, turns-less i r ps s x a (f.0 i h), p))
  ]

  crew_turns-workers : (n : ℕ) → crew_turns (workers {P = P} n) ≡ n
  crew_turns-workers zero = refl
  crew_turns-workers (suc n) = omega (arith, crew_turns-workers n)

  length-workers : (n : ℕ) → length (workers {P = P} n) ≡ n
  length-workers zero = refl
  length-workers (suc n) = ap suc (length-workers n)

  -- One worker or more start on a valid table and take turns in rounds, each with a turn for every
  -- worker. After as many rounds as there are workers, and three for each delivery that the jobs can
  -- still have, all have returned, whatever the jobs do; then no job is pending, unless a worker has
  -- seen the stop event.
  pub workers-Return :
      (n : ℕ) (schedules : List (List ℕ)) (s : Shop (Queue P) W)
      → IsValid s.queue
      → All (Visits (suc n)) schedules
      → table_turns s.queue + suc n ≤ length schedules
      → Asleep (rounds sqlite env schedules (workers (suc n)) s).0
        × ((has_stopped (rounds sqlite env schedules (workers (suc n)) s).0 ≡ true)
            ⊎ NonePending (rounds sqlite env schedules (workers (suc n)) s).1.queue)
  unfolding Left
  workers-Return n schedules s v f p =
      let x = start-Exclusive (suc n) s.queue v in
      let c = rounds sqlite env schedules (workers (suc n)) s in
      let a =
        rounds-Asleep schedules (workers (suc n)) s x (rw (length-workers (suc n)) f)
          (omega (arith, crew_turns-workers n, p)) in
      (a, Left-Asleep c.0 c.1.queue a (rounds-Left schedules (workers (suc n)) s x (inl refl)))
