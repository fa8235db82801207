-- ===== src/Orchestrator/Crew/Turns.antt =====
-- The turns that the rows of a table allow the workers.
use browser_agent.Common.{
  ℕ, ◌+◌, ◌-◌, ◌*◌, ◌≤◌, ◌<◌, String, ◌≡◌, refl, subst, inl, inr, true, none, some, List, [], ◌∷◌,
  arith, leb, Bool-cases,
}
use browser_agent.Queue.{Job, Status, pending, claimed, done}
use browser_agent.Queue.Sqlite.{Row, Queue, dequeue, ack, nack, retried, claim, is_pending}
use browser_agent.Queue.Sqlite.Totals.{total, total-update}
use browser_agent.Queue.Sqlite.Invariant.{IsValid}
use browser_agent.Queue.Sqlite.Claim.{Claims, dequeue-Claims}
use browser_agent.Orchestrator.Worker.OnSqlite.{dequeue-Taken, left_of, left-positive}
use browser_agent.Orchestrator.Crew.{Phase, ready, running, ran, stopped, drained}
use browser_agent.Orchestrator.Crew.Steps.{Claimed}

-- Three turns for each delivery that a row can still have.
abbrev row_turns : {P : Type 0} → ℕ → Row P → ℕ
row_turns m r = elim r.status [
  | pending ↦ 3 * (m - r.attempts)
  | claimed ↦ 3 * (m - (r.attempts + 1))
  | _ ↦ 0
]

abbrev pub table_turns : {P : Type 0} → Queue P → ℕ
table_turns q = total (row_turns q.max_attempts) q.rows

abbrev pub phase_turns : {P : Type 0} → Phase P → ℕ
phase_turns ready = 1
phase_turns (running j) = 3
phase_turns (ran j r) = 2
phase_turns stopped = 0
phase_turns drained = 0

abbrev pub crew_turns : {P : Type 0} → List (Phase P) → ℕ
crew_turns [] = 0
crew_turns (p ∷ ps) = phase_turns p + crew_turns ps

module _ {P : Type 0} where
  pub ack-turns :
      (j : Job P) (n : ℕ) (q : Queue P)
      → IsValid q
      → Claimed q j
      → table_turns (ack j.item_id n q) ≤ table_turns q
  unfolding ack
  ack-turns j n q v (r, found, status, token) = omega (
    arith,
    total-update (row_turns q.max_attempts) j.item_id
        (λ x. record x { status = done; updated_at = n }) r q.rows v.distinct found,
  )

  retried-turns :
      (m n : ℕ) (reason : String) (r : Row P)
      → r.status ≡ claimed
      → row_turns m (retried m (r.attempts + 1) reason n r) ≤ row_turns m r
  retried-turns m n reason r e = elim (Bool-cases (leb m (r.attempts + 1))) [
    | inl f ↦ rw f (omega arith)
    | inr f ↦ rw (f, e) (omega arith)
  ]

  pub nack-turns :
      (j : Job P) (reason : String) (n : ℕ) (q : Queue P)
      → IsValid q
      → Claimed q j
      → table_turns (nack j.item_id reason n q) ≤ table_turns q
  unfolding nack
  nack-turns j reason n q v (r, found, status, token) =
      rw (found, nack)
        (omega (
          arith,
          total-update (row_turns q.max_attempts) j.item_id
              (retried q.max_attempts (r.attempts + 1) reason n) r q.rows v.distinct found,
          retried-turns q.max_attempts n reason r status,
        ))

  pending-turns : (m : ℕ) (r : Row P) → is_pending r.status ≡ true → row_turns m r ≡ 3 * left_of m r
  pending-turns m r e = go r.status refl
    where
      go : (x : Status) → r.status ≡ x → row_turns m r ≡ 3 * left_of m r
      go x f = ground (arith, f, e)

  claimed-turns :
      (m k n : ℕ) (t : String) (r : Row P)
      → 0 < left_of m r
      → row_turns m (claim t k n r) + 3 ≡ 3 * left_of m r
  claimed-turns m k n t r p = go r.status refl
    where
      go : (x : Status) → r.status ≡ x → row_turns m (claim t k n r) + 3 ≡ 3 * left_of m r
      go x f = ground (arith, f, p)

  pub dequeue-turns :
      (t : String) (m n : ℕ) (q : Queue P) (j : Job P)
      → IsValid q
      → (dequeue t m n q).0 ≡ some j
      → table_turns (dequeue t m n q).1 + 3 ≡ table_turns q
  dequeue-turns t m n q j v e =
      let (s, job, p, found, after) = dequeue-Taken t m n q j v e in
      rw after (
        omega (
          arith,
          total-update (row_turns q.max_attempts) s.item_id (claim t m n) s q.rows v.distinct found,
          pending-turns q.max_attempts s p,
          claimed-turns q.max_attempts m n t s (left-positive q s v p found),
        ))

  pub dequeue_none-turns :
      (t : String) (m n : ℕ) (q : Queue P)
      → IsValid q
      → (dequeue t m n q).0 ≡ none
      → (dequeue t m n q).1 ≡ q
  dequeue_none-turns t m n q v e =
      (subst (λ o. Claims t m n q o (dequeue t m n q).1) e (dequeue-Claims t m n q v)).1
