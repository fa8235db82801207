-- ===== src/Queue/Sqlite/Invariant.antt =====
-- What every history of calls keeps true of the table, and what a claim is.
use browser_agent.Common.{
  ℕ, ◌<◌, String, ◌≡◌, ◌≢◌, refl, Bool, false, not, Option, none, List, [], ◌∷◌, ◌++◌, arith,
  eq_iff, str_eq, keep_if, All, All-append, Bool-cases, inl, inr,
}
use browser_agent.Queue.{Status, pending, claimed, done, dead}
use browser_agent.Queue.Sqlite.{Queue, Row, update, enqueue, new_row, choose_id}
use browser_agent.Queue.Sqlite.Rows.{KeepsId}

-- A pending row carries no claim and has attempts left; a claimed row carries its claim.
abbrev pub StatusIsValid : ℕ → Status → Option String → Option ℕ → ℕ → Type 0
StatusIsValid m pending token at attempts = (token ≡ none) × (at ≡ none) × (attempts < m)
StatusIsValid m claimed token at attempts = (token ≢ none) × (at ≢ none) × (attempts < m)
StatusIsValid m done token at attempts = Unit {0}
StatusIsValid m dead token at attempts = Unit {0}

module _ {P : Type 0} where
  abbrev pub RowIsValid : ℕ → Row P → Type 0
  RowIsValid m r = StatusIsValid m r.status r.claim_token r.claimed_at r.attempts

  -- No row of `rows` has the id.
  abbrev pub Absent : String → List (Row P) → Type 0
  Absent id = All (λ r. str_eq r.item_id id ≡ false)

  -- The primary key.
  abbrev pub Distinct : List (Row P) → Type 0
  Distinct [] = Unit {0}
  Distinct (r ∷ rows) = Absent r.item_id rows × Distinct rows

  pub record IsValid (q : Queue P) : Type 0 where
    pub attempts_left : 0 < q.max_attempts
    pub distinct : Distinct q.rows
    pub rows_valid : All (RowIsValid q.max_attempts) q.rows

  Absent-update :
      (k id : String) (f : Row P → Row P) (rows : List (Row P))
      → KeepsId f
      → Absent k rows
      → Absent k (update id f rows)
  unfolding update
  Absent-update k id f [] h a = tt
  Absent-update k id f (r ∷ rows) h a = ground (arith, h r, Absent-update k id f rows h a.1)

  pub Distinct-update :
      (id : String) (f : Row P → Row P) (rows : List (Row P))
      → KeepsId f
      → Distinct rows
      → Distinct (update id f rows)
  unfolding update
  Distinct-update id f [] h d = tt
  Distinct-update id f (r ∷ rows) h d = ground (
    arith,
    h r,
    Absent-update r.item_id id f rows h d.0,
    Absent-update (f r).item_id id f rows h,
    Distinct-update id f rows h d.1,
  )

  All-update :
      (m : ℕ) (id : String) (f : Row P → Row P) (rows : List (Row P))
      → ((r : Row P) → RowIsValid m r → RowIsValid m (f r))
      → All (RowIsValid m) rows
      → All (RowIsValid m) (update id f rows)
  unfolding update
  All-update m id f [] h v = tt
  All-update m id f (r ∷ rows) h v = elim (Bool-cases (str_eq r.item_id id)) [
    | inl e ↦ rw e (h r v.0, All-update m id f rows h v.1)
    | inr e ↦ rw e (v.0, All-update m id f rows h v.1)
  ]

  Absent-keep :
      (k id : String) (rows : List (Row P))
      → Absent k rows
      → Absent k (keep_if (λ r. not (str_eq r.item_id id)) rows)
  Absent-keep k id [] a = tt
  Absent-keep k id (r ∷ rows) a = ground (arith, Absent-keep k id rows a.1)

  Absent-kept :
      (id : String) (rows : List (Row P))
      → Absent id (keep_if (λ r. not (str_eq r.item_id id)) rows)
  Absent-kept id [] = tt
  Absent-kept id (r ∷ rows) = ground (arith, Absent-kept id rows)

  Distinct-keep :
      (id : String) (rows : List (Row P))
      → Distinct rows
      → Distinct (keep_if (λ r. not (str_eq r.item_id id)) rows)
  Distinct-keep id [] d = tt
  Distinct-keep id (r ∷ rows) d =
      ground (arith, Absent-keep r.item_id id rows d.0, Distinct-keep id rows d.1)

  Distinct-append :
      (rows : List (Row P)) (r : Row P)
      → Absent r.item_id rows
      → Distinct rows
      → Distinct (rows ++ r ∷ [])
  Distinct-append [] r a d = (tt, tt)
  Distinct-append (x ∷ rows) r a d = (
    All-append (λ y. str_eq y.item_id x.item_id ≡ false) rows (r ∷ []) d.0
        (ground (arith, eq_iff x.item_id r.item_id, eq_iff r.item_id x.item_id), tt),
    Distinct-append rows r a.1 d.1,
  )

  All-keep :
      (m : ℕ) (p : Row P → Bool) (rows : List (Row P))
      → All (RowIsValid m) rows
      → All (RowIsValid m) (keep_if p rows)
  All-keep m p [] v = tt
  All-keep m p (r ∷ rows) v = elim (Bool-cases (p r)) [
    | inl e ↦ rw e (v.0, All-keep m p rows v.1)
    | inr e ↦ rw e (All-keep m p rows v.1)
  ]

  pub enqueue-IsValid :
      (id : Option String) (payload : P) (fresh : String) (created updated : ℕ) (q : Queue P)
      → IsValid q
      → IsValid (enqueue id payload fresh created updated q).1
  unfolding enqueue
  enqueue-IsValid id payload fresh created updated q v =
      let key = choose_id id fresh in
      let kept = keep_if (λ (r : Row P). not (str_eq r.item_id key)) q.rows in
      record {
        attempts_left = v.attempts_left;
        distinct =
            Distinct-append kept (new_row key payload created updated) (Absent-kept key q.rows)
              (Distinct-keep key q.rows v.distinct);
        rows_valid =
            All-append (RowIsValid q.max_attempts) kept (new_row key payload created updated ∷ [])
              (All-keep q.max_attempts (λ r. not (str_eq r.item_id key)) q.rows v.rows_valid)
              ((refl, refl, v.attempts_left), tt);
      }

  -- An update by a function that keeps the key and the validity of a row.
  pub update-IsValid :
      (id : String) (f : Row P → Row P) (q : Queue P)
      → KeepsId f
      → ((r : Row P) → RowIsValid q.max_attempts r → RowIsValid q.max_attempts (f r))
      → IsValid q
      → IsValid (record q { rows = update id f q.rows })
  update-IsValid id f q h k v = record {
    attempts_left = v.attempts_left;
    distinct = Distinct-update id f q.rows h v.distinct;
    rows_valid = All-update q.max_attempts id f q.rows k v.rows_valid;
  }
