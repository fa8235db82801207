-- ===== src/Queue/Sqlite/Delivery.antt =====
-- How often `SqliteQueue` can hand out an item.
use browser_agent.Common.{
  ℕ, ◌+◌, ◌-◌, ◌*◌, ◌≤◌, ◌<◌, String, ◌≡◌, refl, true, false, Option, none, some, List, [], ◌∷◌,
  arith, eq_iff, str_eq, if◌then◌else◌, All, Option-cases, inl, inr, keep_if, not,
}
use mathlib.Core.Option
use browser_agent.Queue.{Status, pending, done, dead, Job}
use browser_agent.Queue.Sqlite.{
  Queue, Row, fetch, update, oldest, release, is_pending, enqueue, dequeue, ack, nack, dead_letter,
  reclaim_stale, claim, retried, choose_id, new_row,
}
use browser_agent.Queue.Sqlite.Rows.{fetch-update, fetch-release, fetch-keep, fetch-append}
use browser_agent.Queue.Sqlite.Invariant.{IsValid, RowIsValid}
use browser_agent.Queue.Sqlite.Oldest.{Picked, oldest-Picked}
use browser_agent.Queue.Sqlite.Preserved.{step-IsValid, fetch-All}
use browser_agent.Queue.Sqlite.History.{
  Call, enqueues, dequeues, acks, nacks, dead_letters, reclaims, step, handed_out,
}

-- How often a row can still be handed out before its attempts are used up.
abbrev pub left_of : ℕ → Status → ℕ → ℕ
left_of m pending attempts = m - attempts
left_of m _ attempts = m - attempts - 1

module _ {P : Type 0} where
  abbrev pub left_in : ℕ → Option (Row P) → ℕ
  left_in m none = 0
  left_in m (some r) = left_of m r.status r.attempts

  abbrev pub deliveries_left : String → Queue P → ℕ
  deliveries_left id q = left_in q.max_attempts (fetch id q.rows)

  abbrev pub is_job : String → Option (Job P) → ℕ
  is_job id none = 0
  is_job id (some j) = if str_eq j.item_id id then 1 else 0

  -- How often a history hands out the item.
  pub deliveries : String → List (Call P) → Queue P → ℕ
  deliveries id [] q = 0
  deliveries id (c ∷ cs) q = is_job id (handed_out c q) + deliveries id cs (step c q)

  abbrev pub is_reclaim : Call P → ℕ
  is_reclaim (reclaims age now updated) = 1
  is_reclaim _ = 0

  abbrev pub reclaims_in : List (Call P) → ℕ
  reclaims_in [] = 0
  reclaims_in (c ∷ cs) = is_reclaim c + reclaims_in cs

  -- The call does not put in a new item under the id.
  abbrev pub NotEnqueued : String → Call P → Type 0
  NotEnqueued id (enqueues key payload fresh created updated) =
      str_eq (choose_id key fresh) id ≡ false
  NotEnqueued id _ = Unit {0}

  enqueue-left :
      (id : String) (key : Option String) (payload : P) (fresh : String) (created updated : ℕ)
      (q : Queue P)
      → str_eq (choose_id key fresh) id ≡ false
      → deliveries_left id (enqueue key payload fresh created updated q).1 ≤ deliveries_left id q
  unfolding enqueue
  enqueue-left id key payload fresh created updated q h = ground (
    arith,
    fetch-append id (keep_if (λ (r : Row P). not (str_eq r.item_id (choose_id key fresh))) q.rows)
        (new_row (choose_id key fresh) payload created updated ∷ []),
    fetch-keep (choose_id key fresh) id q.rows,
    h,
  )

  update-left :
      (id k : String) (f : Row P → Row P) (q : Queue P)
      → ((r : Row P) → (f r).item_id ≡ r.item_id)
      → ((r : Row P)
          → fetch id q.rows ≡ some r
          → str_eq k id ≡ true
          → left_in q.max_attempts (some (f r)) ≤ left_in q.max_attempts (some r))
      → deliveries_left id (record q { rows = update k f q.rows }) ≤ deliveries_left id q
  update-left id k f q h g = rw (fetch-update k id f q.rows h) (go (fetch id q.rows) refl)
    where
      go :
          (o : Option (Row P))
          → fetch id q.rows ≡ o
          → left_in q.max_attempts (if str_eq k id then Option.map f o else o)
            ≤ left_in q.max_attempts o
      go none e = ground arith
      go (some r) e = ground (arith, g r e)

  nack-left :
      (id key reason : String) (now : ℕ) (q : Queue P)
      → deliveries_left id (nack key reason now q) ≤ deliveries_left id q
  unfolding nack
  nack-left id key reason now q = elim (Option-cases (fetch key q.rows)) [
    | inl e ↦ rw (e, nack) (omega arith)
    | inr (row, e) ↦
        rw (e, nack)
          (update-left id key (retried q.max_attempts (row.attempts + 1) reason now) q
            (λ r. ground arith) (λ r p hit. ground (arith, e, p, eq_iff key id)))
  ]

  release-left :
      (m cutoff now : ℕ) (o : Option (Row P))
      → left_in m (Option.map (release cutoff now) o) ≤ left_in m o + 1
  release-left m cutoff now o = ground arith

  pending-left : (m : ℕ) (r : Row P) → is_pending r.status ≡ true → RowIsValid m r → r.attempts < m
  pending-left m r p v = ground arith

  claim-left :
      (id token : String) (at updated : ℕ) (q : Queue P)
      → IsValid q
      → is_job id (dequeue token at updated q).0 + deliveries_left id (dequeue token at updated q).1
        ≤ deliveries_left id q
  unfolding dequeue
  claim-left id token at updated q v = go (oldest q.rows) refl (oldest-Picked q.rows v.distinct)
    where
      go :
          (o : Option (Row P))
          → oldest q.rows ≡ o
          → Picked q.rows o
          → is_job id (dequeue token at updated q).0
              + deliveries_left id (dequeue token at updated q).1
            ≤ deliveries_left id q
      go none e p = rw (e, dequeue) (omega arith)
      go (some s) e p =
          rw (e, dequeue)
            (ground (
              arith,
              fetch-update s.item_id id (claim token at updated) q.rows (λ r. refl),
              eq_iff s.item_id id,
              p.0,
              p.1,
              pending-left q.max_attempts s p.0
                  (fetch-All q.max_attempts s.item_id s q.rows p.1 v.rows_valid),
            ))

  step-left :
      (id : String) (c : Call P) (q : Queue P)
      → IsValid q
      → NotEnqueued id c
      → is_job id (handed_out c q) + deliveries_left id (step c q)
        ≤ deliveries_left id q + is_reclaim c
  unfolding step
  step-left id (enqueues key payload fresh created updated) q v n =
      omega (arith, enqueue-left id key payload fresh created updated q n)
  step-left id (dequeues token at updated) q v n = omega (arith, claim-left id token at updated q v)
  step-left id (acks key now) q v n =
      unfold ack in
      omega (
        arith,
        update-left id key (λ r. record r { status = done; updated_at = now }) q (λ r. refl)
            (λ r e hit. ground arith),
      )
  step-left id (nacks key reason now) q v n = omega (arith, nack-left id key reason now q)
  step-left id (dead_letters key now) q v n =
      unfold dead_letter in
      omega (
        arith,
        update-left id key (λ r. record r { status = dead; updated_at = now }) q (λ r. refl)
            (λ r e hit. ground arith),
      )
  step-left id (reclaims age now updated) q v n =
      unfold reclaim_stale in
      rw (fetch-release (now - age * 1000000) updated id q.rows)
        (omega (arith, release-left q.max_attempts (now - age * 1000000) updated (fetch id q.rows)))

  deliveries-le-left :
      (id : String) (cs : List (Call P)) (q : Queue P)
      → IsValid q
      → All (NotEnqueued id) cs
      → deliveries id cs q ≤ deliveries_left id q + reclaims_in cs
  unfolding deliveries
  deliveries-le-left id [] q v n = omega arith
  deliveries-le-left id (c ∷ cs) q v n =
      omega (
        arith,
        step-left id c q v n.0,
        deliveries-le-left id cs (step c q) (step-IsValid c q v) n.1,
      )

  left-le-max : (m : ℕ) (o : Option (Row P)) → left_in m o ≤ m
  left-le-max m o = ground arith

  -- From a valid table on, whatever calls the workers make in whatever order, an item that is not
  -- put in anew is handed out at most `max_attempts` times, and once more for each call of
  -- `reclaim_stale`.
  pub deliveries-le-max_attempts :
      (id : String) (cs : List (Call P)) (q : Queue P)
      → IsValid q
      → All (NotEnqueued id) cs
      → deliveries id cs q ≤ q.max_attempts + reclaims_in cs
  deliveries-le-max_attempts id cs q v n =
      omega (arith, deliveries-le-left id cs q v n, left-le-max q.max_attempts (fetch id q.rows))
