-- ===== src/Queue/Sqlite/Oldest.antt =====
-- The row that the SELECT of `dequeue` picks.
use browser_agent.Common.{
  ℕ, ◌≤◌, String, ◌≡◌, true, false, Option, none, some, List, [], ◌∷◌, arith, eq_iff, str_eq,
  str_eq_refl, if◌then◌else◌, All, All-map,
}
use browser_agent.Queue.Sqlite.{Row, fetch, older, oldest, is_pending}
use browser_agent.Queue.Sqlite.Invariant.{Absent, Distinct}

module _ {P : Type 0} where
  -- Every pending row is as young as `t` or younger.
  abbrev pub NoneOlder : ℕ → List (Row P) → Type 0
  NoneOlder t = All (λ r. is_pending r.status ≡ true → t ≤ r.created_at)

  -- What a result of the SELECT says of the rows.
  abbrev pub Picked : List (Row P) → Option (Row P) → Type 0
  Picked rows none = All (λ r. is_pending r.status ≡ false) rows
  Picked rows (some s) =
      (is_pending s.status ≡ true) × (fetch s.item_id rows ≡ some s) × NoneOlder s.created_at rows

  Absent-fetch :
      (k j : String) (rows : List (Row P)) (s : Row P)
      → Absent k rows
      → fetch j rows ≡ some s
      → str_eq s.item_id k ≡ false
  Absent-fetch k j [] s a e = cc
  Absent-fetch k j (r ∷ rows) s a e = ground (arith, Absent-fetch k j rows s a.1)

  NoneOlder-mono : (t u : ℕ) (rows : List (Row P)) → t ≤ u → NoneOlder u rows → NoneOlder t rows
  NoneOlder-mono t u rows h =
      All-map {P = λ r. is_pending r.status ≡ true → u ≤ r.created_at}
        {Q = λ r. is_pending r.status ≡ true → t ≤ r.created_at} (λ r f p. omega (arith, f p)) rows

  NoneOlder-vacuous :
      (t : ℕ) (rows : List (Row P)) → All (λ r. is_pending r.status ≡ false) rows → NoneOlder t rows
  NoneOlder-vacuous t rows =
      All-map {P = λ r. is_pending r.status ≡ false}
        {Q = λ r. is_pending r.status ≡ true → t ≤ r.created_at} (λ r f p. cc) rows

  Picked-cons :
      (r : Row P) (rows : List (Row P)) (o : Option (Row P))
      → Absent r.item_id rows
      → Picked rows o
      → Picked (r ∷ rows) (if is_pending r.status then some (older r o) else o)
  Picked-cons r rows none a p =
      ground (arith, str_eq_refl r.item_id, NoneOlder-vacuous r.created_at rows p)
  Picked-cons r rows (some s) a p = ground (
    arith,
    str_eq_refl r.item_id,
    eq_iff r.item_id s.item_id,
    Absent-fetch r.item_id s.item_id rows s a p.1,
    eq_iff s.item_id r.item_id,
    NoneOlder-mono r.created_at s.created_at rows,
  )

  pub oldest-Picked : (rows : List (Row P)) → Distinct rows → Picked rows (oldest rows)
  unfolding oldest
  oldest-Picked [] d = tt
  oldest-Picked (r ∷ rows) d = Picked-cons r rows (oldest rows) d.0 (oldest-Picked rows d.1)
