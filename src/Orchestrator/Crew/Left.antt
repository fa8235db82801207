-- ===== src/Orchestrator/Crew/Left.antt =====
-- A worker returns for want of jobs only where no job is pending.
use browser_agent.Common.{
  ℕ, zero, suc, String, ◌<◌, ◌≡◌, refl, sym, subst, inl, inr, ◌⊎◌, Bool, true, false, none, List,
  [], ◌∷◌, arith, Bool-cases, Option-cases, length, All, any_of,
}
use browser_agent.Queue.Sqlite.{Queue, is_pending, dequeue}
use browser_agent.Queue.Sqlite.Invariant.{IsValid}
use browser_agent.Queue.Sqlite.Claim.{Claims, dequeue-Claims}
use browser_agent.Orchestrator.Worker.{Env, Shop, take_job}
use browser_agent.Orchestrator.Worker.OnSqlite.{sqlite}
use browser_agent.Orchestrator.Crew.{
  Phase, ready, running, ran, stopped, drained, is_awake, awake_at, act, turn,
}
use browser_agent.Orchestrator.Crew.Ends.{turn-asleep}

module _ {P : Type 0} where
  abbrev pub NonePending : Queue P → Type 0
  NonePending q = All (λ r. is_pending r.status ≡ false) q.rows

  abbrev pub is_stopped : Phase P → Bool
  is_stopped stopped = true
  is_stopped _ = false

  abbrev pub has_stopped : List (Phase P) → Bool
  has_stopped = any_of is_stopped

  abbrev pub Asleep : List (Phase P) → Type 0
  Asleep = All (λ p. is_awake p ≡ false)

  pub any_awake :
      (ps : List (Phase P)) → Asleep ps ⊎ ((i : ℕ) × (i < length ps) × (awake_at i ps ≡ true))
  any_awake [] = inl tt
  any_awake (p ∷ ps) = elim (Bool-cases (is_awake p)) [
    | inl e ↦ inr (0, omega arith, e)
    | inr e ↦ elim (any_awake ps) [
      | inl a ↦ inl (e, a)
      | inr (i, h, a) ↦ inr (suc i, omega (arith, h), a)
    ]
  ]

  pub Asleep-awake_at : (i : ℕ) (ps : List (Phase P)) → Asleep ps → awake_at i ps ≡ false
  Asleep-awake_at i [] a = refl
  Asleep-awake_at zero (p ∷ ps) a = a.0
  Asleep-awake_at (suc i) (p ∷ ps) a = Asleep-awake_at i ps a.1

  -- What the phases say of the table: nobody has returned for want of jobs while there are some.
  unfoldable pub Left : List (Phase P) → Queue P → Type 0
  Left ps q = (any_of is_awake ps ≡ true) ⊎ ((has_stopped ps ≡ true) ⊎ NonePending q)

  Left-cons : (p : Phase P) (ps : List (Phase P)) (q : Queue P) → Left ps q → Left (p ∷ ps) q
  unfolding Left
  Left-cons p ps q (inl e) = inl (ground (arith, e))
  Left-cons p ps q (inr (inl e)) = inr (inl (ground (arith, e)))
  Left-cons p ps q (inr (inr e)) = inr (inr e)

  Left-act :
      (p : Phase P) (ps : List (Phase P)) (q : Queue P)
      → (is_awake p ≡ true) ⊎ ((is_stopped p ≡ true) ⊎ NonePending q)
      → Left (p ∷ ps) q
  unfolding Left
  Left-act p ps q (inl e) = inl (ground (arith, e))
  Left-act p ps q (inr (inl e)) = inr (inl (ground (arith, e)))
  Left-act p ps q (inr (inr e)) = inr (inr e)

  pub Left-Asleep :
      (ps : List (Phase P)) (q : Queue P)
      → Asleep ps
      → Left ps q
      → (has_stopped ps ≡ true) ⊎ NonePending q
  unfolding Left
  Left-Asleep ps q a (inl e) = absurd (none_awake ps a e)
    where
      none_awake : (ps : List (Phase P)) → Asleep ps → any_of is_awake ps ≡ true → ⊥
      none_awake [] a e = cc
      none_awake (p ∷ ps) a e = none_awake ps a.1 (ground (arith, a.0, e))
  Left-Asleep ps q a (inr e) = e

  none-NonePending :
      (t : String) (m n : ℕ) (q : Queue P)
      → IsValid q
      → (dequeue t m n q).0 ≡ none
      → NonePending (dequeue t m n q).1
  none-NonePending t m n q v e =
      let c = subst (λ o. Claims t m n q o (dequeue t m n q).1) e (dequeue-Claims t m n q v) in
      subst NonePending (sym c.1) c.0

module _ {P W : Type 0} (env : Env P W) where
  act-Left :
      (p : Phase P) (s : Shop (Queue P) W)
      → IsValid s.queue
      → is_awake p ≡ true
      → (is_awake (act sqlite env p s).0 ≡ true)
        ⊎ ((is_stopped (act sqlite env p s).0 ≡ true) ⊎ NonePending (act sqlite env p s).1.queue)
  unfolding act
  act-Left ready s v a = elim (Bool-cases (env.stop_is_set s.world)) [
    | inl e ↦ rw (e, act) (inr (inl refl))
    | inr e ↦ elim (Option-cases (take_job sqlite env s).0) [
      | inl f ↦ rw (e, f, act) (inr (inr (none-NonePending _ _ _ s.queue v f)))
      | inr (j, f) ↦ rw (e, f, act) (inl refl)
    ]
  ]
  act-Left (running j) s v a = inl refl
  act-Left (ran j r) s v a = inl refl
  act-Left stopped s v a = cc
  act-Left drained s v a = cc

  turn-Left :
      (i : ℕ) (ps : List (Phase P)) (s : Shop (Queue P) W)
      → IsValid s.queue
      → awake_at i ps ≡ true
      → Left (turn sqlite env i ps s).0 (turn sqlite env i ps s).1.queue
  unfolding turn
  turn-Left i [] s v a = cc
  turn-Left zero (p ∷ ps) s v a = Left-act _ ps _ (act-Left p s v a)
  turn-Left (suc i) (p ∷ ps) s v a = Left-cons p _ _ (turn-Left i ps s v a)

  pub turn-keeps_Left :
      (i : ℕ) (ps : List (Phase P)) (s : Shop (Queue P) W)
      → IsValid s.queue
      → Left ps s.queue
      → Left (turn sqlite env i ps s).0 (turn sqlite env i ps s).1.queue
  turn-keeps_Left i ps s v l = elim (Bool-cases (awake_at i ps)) [
    | inl a ↦ turn-Left i ps s v a
    | inr a ↦ rw (turn-asleep env i ps s a) l
  ]
