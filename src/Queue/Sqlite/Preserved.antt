-- ===== src/Queue/Sqlite/Preserved.antt =====
-- Every call of the queue keeps its table well formed.
use browser_agent.Common.{
  ℕ, ◌+◌, String, ◌≡◌, refl, true, Option, none, some, List, [], ◌∷◌, map, arith, str_eq, All,
  Bool-cases, Option-cases, inl, inr, subst, sym, str_eq→eq,
}
use browser_agent.Queue.Sqlite.{
  Queue, Row, fetch, update, oldest, release, is_pending, dequeue, ack, nack, dead_letter,
  reclaim_stale, claim, retried,
}
use browser_agent.Queue.Sqlite.Rows.{KeepsId}
use browser_agent.Queue.Sqlite.Invariant.{
  RowIsValid, Absent, Distinct, IsValid, Distinct-update, enqueue-IsValid, update-IsValid,
}
use browser_agent.Queue.Sqlite.Oldest.{Picked, oldest-Picked}
use browser_agent.Queue.Sqlite.History.{
  Call, enqueues, dequeues, acks, nacks, dead_letters, reclaims, step, run,
}

module _ {P : Type 0} where
  update-Absent :
      (id : String) (f : Row P → Row P) (rows : List (Row P))
      → Absent id rows
      → update id f rows ≡ rows
  unfolding update
  update-Absent id f [] a = refl
  update-Absent id f (r ∷ rows) a = rw a.0 (rw (update-Absent id f rows a.1))

  fetch_head :
      (id : String) (r s : Row P) (rows : List (Row P))
      → str_eq r.item_id id ≡ true
      → fetch id (r ∷ rows) ≡ some s
      → r ≡ s
  fetch_head id r s rows hit e = ground arith

  -- Where the key is unique only the fetched row has to stay valid.
  All-update_at :
      (m : ℕ) (id : String) (f : Row P → Row P) (s : Row P) (rows : List (Row P))
      → Distinct rows
      → fetch id rows ≡ some s
      → RowIsValid m (f s)
      → All (RowIsValid m) rows
      → All (RowIsValid m) (update id f rows)
  unfolding update
  All-update_at m id f s [] d e k v = tt
  All-update_at m id f s (r ∷ rows) d e k v = elim (Bool-cases (str_eq r.item_id id)) [
    | inl hit ↦ rw hit (
      subst (λ t. RowIsValid m (f t)) (sym (fetch_head id r s rows hit e)) k,
      subst (All (RowIsValid m))
          (sym
            (update-Absent id f rows (subst (λ t. Absent t rows) (str_eq→eq r.item_id id hit) d.0)))
          v.1,
    )
    | inr miss ↦ rw miss (v.0, All-update_at m id f s rows d.1 (rw miss at e) k v.1)
  ]

  ack-IsValid : (id : String) (now : ℕ) (q : Queue P) → IsValid q → IsValid (ack id now q)
  unfolding ack
  ack-IsValid id now q = update-IsValid id _ q (λ r. refl) (λ r v. tt)

  dead_letter-IsValid :
      (id : String) (now : ℕ) (q : Queue P) → IsValid q → IsValid (dead_letter id now q)
  unfolding dead_letter
  dead_letter-IsValid id now q = update-IsValid id _ q (λ r. refl) (λ r v. tt)

  pub retried-KeepsId :
      (m n : ℕ) (reason : String) (now : ℕ) → KeepsId (retried {P = P} m n reason now)
  retried-KeepsId m n reason now r = ground arith

  retried-RowIsValid :
      (m n : ℕ) (reason : String) (now : ℕ) (r : Row P) → RowIsValid m (retried m n reason now r)
  retried-RowIsValid m n reason now r = ground arith

  nack-IsValid :
      (id reason : String) (now : ℕ) (q : Queue P) → IsValid q → IsValid (nack id reason now q)
  unfolding nack
  nack-IsValid id reason now q v = elim (Option-cases (fetch id q.rows)) [
    | inl e ↦ rw (e, nack) v
    | inr (row, e) ↦
        rw (e, nack)
          (update-IsValid id (retried q.max_attempts (row.attempts + 1) reason now) q
            (retried-KeepsId q.max_attempts (row.attempts + 1) reason now)
            (λ r _. retried-RowIsValid q.max_attempts (row.attempts + 1) reason now r) v)
  ]

  claim-RowIsValid :
      (m : ℕ) (token : String) (at updated : ℕ) (r : Row P)
      → is_pending r.status ≡ true
      → RowIsValid m r
      → RowIsValid m (claim token at updated r)
  claim-RowIsValid m token at updated r p v = ground arith

  pub fetch-All :
      (m : ℕ) (id : String) (s : Row P) (rows : List (Row P))
      → fetch id rows ≡ some s
      → All (RowIsValid m) rows
      → RowIsValid m s
  fetch-All m id s [] e v = cc
  fetch-All m id s (r ∷ rows) e v = elim (Bool-cases (str_eq r.item_id id)) [
    | inl hit ↦ subst (RowIsValid m) (fetch_head id r s rows hit e) v.0
    | inr miss ↦ fetch-All m id s rows (rw miss at e) v.1
  ]

  dequeue-IsValid :
      (token : String) (at updated : ℕ) (q : Queue P)
      → IsValid q
      → IsValid (dequeue token at updated q).1
  unfolding dequeue
  dequeue-IsValid token at updated q v = go (oldest q.rows) refl (oldest-Picked q.rows v.distinct)
    where
      go :
          (o : Option (Row P))
          → oldest q.rows ≡ o
          → Picked q.rows o
          → IsValid (dequeue token at updated q).1
      go none e p = rw (e, dequeue) v
      go (some s) e p =
          rw (e, dequeue)
            (record {
              attempts_left = v.attempts_left;
              distinct =
                  Distinct-update s.item_id (claim token at updated) q.rows (λ r. refl) v.distinct;
              rows_valid =
                  All-update_at q.max_attempts s.item_id (claim token at updated) s q.rows
                    v.distinct p.1
                    (claim-RowIsValid q.max_attempts token at updated s p.0
                      (fetch-All q.max_attempts s.item_id s q.rows p.1 v.rows_valid))
                    v.rows_valid;
            })

  release-RowIsValid :
      (m cutoff now : ℕ) (r : Row P) → RowIsValid m r → RowIsValid m (release cutoff now r)
  release-RowIsValid m cutoff now r v = ground arith

  Absent-release :
      (k : String) (cutoff now : ℕ) (rows : List (Row P))
      → Absent k rows
      → Absent k (map (release cutoff now) rows)
  Absent-release k cutoff now [] a = tt
  Absent-release k cutoff now (r ∷ rows) a = ground (arith, Absent-release k cutoff now rows a.1)

  release_id : (cutoff now : ℕ) (r : Row P) → (release cutoff now r).item_id ≡ r.item_id
  release_id cutoff now r = ground arith

  Distinct-release :
      (cutoff now : ℕ) (rows : List (Row P))
      → Distinct rows
      → Distinct (map (release cutoff now) rows)
  Distinct-release cutoff now [] d = tt
  Distinct-release cutoff now (r ∷ rows) d = (
    rw (release_id cutoff now r) (Absent-release r.item_id cutoff now rows d.0),
    Distinct-release cutoff now rows d.1,
  )

  All-release :
      (m cutoff now : ℕ) (rows : List (Row P))
      → All (RowIsValid m) rows
      → All (RowIsValid m) (map (release cutoff now) rows)
  All-release m cutoff now [] v = tt
  All-release m cutoff now (r ∷ rows) v =
      (release-RowIsValid m cutoff now r v.0, All-release m cutoff now rows v.1)

  reclaim_stale-IsValid :
      (age now updated : ℕ) (q : Queue P) → IsValid q → IsValid (reclaim_stale age now updated q).1
  unfolding reclaim_stale
  reclaim_stale-IsValid age now updated q v = record {
    attempts_left = v.attempts_left;
    distinct = Distinct-release _ updated q.rows v.distinct;
    rows_valid = All-release q.max_attempts _ updated q.rows v.rows_valid;
  }

  pub step-IsValid : (c : Call P) (q : Queue P) → IsValid q → IsValid (step c q)
  unfolding step
  step-IsValid (enqueues id payload fresh created updated) q =
      enqueue-IsValid id payload fresh created updated q
  step-IsValid (dequeues token at updated) q = dequeue-IsValid token at updated q
  step-IsValid (acks id now) q = ack-IsValid id now q
  step-IsValid (nacks id reason now) q = nack-IsValid id reason now q
  step-IsValid (dead_letters id now) q = dead_letter-IsValid id now q
  step-IsValid (reclaims age now updated) q = reclaim_stale-IsValid age now updated q

  -- After any history of calls on a valid table, in whatever order the workers make them, every id
  -- has one row, a pending row carries no claim, a claimed row carries its token and time, and
  -- both have attempts left.
  pub run-IsValid : (cs : List (Call P)) (q : Queue P) → IsValid q → IsValid (run cs q)
  unfolding run
  run-IsValid [] q v = v
  run-IsValid (c ∷ cs) q v = run-IsValid cs (step c q) (step-IsValid c q v)
