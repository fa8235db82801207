-- ===== src/Queue/Sqlite/Totals.antt =====
-- Sums over the rows of the table, and how the update of one row changes them.
use browser_agent.Common.{
  ℕ, ◌+◌, String, ◌≡◌, refl, subst, inl, inr, some, List, [], ◌∷◌, arith, Bool-cases, str_eq,
  str_eq→eq,
}
use browser_agent.Queue.Sqlite.{Row, fetch, update}
use browser_agent.Queue.Sqlite.Invariant.{Distinct, Absent}

module _ {P : Type 0} (weight : Row P → ℕ) where
  unfoldable pub total : List (Row P) → ℕ
  total [] = 0
  total (r ∷ rows) = weight r + total rows

  total-Absent :
      (id : String) (f : Row P → Row P) (rows : List (Row P))
      → Absent id rows
      → total (update id f rows) ≡ total rows
  unfolding update total
  total-Absent id f [] a = refl
  total-Absent id f (r ∷ rows) a = ground (arith, total-Absent id f rows a.1)

  pub total-update :
      (id : String) (f : Row P → Row P) (s : Row P) (rows : List (Row P))
      → Distinct rows
      → fetch id rows ≡ some s
      → total (update id f rows) + weight s ≡ total rows + weight (f s)
  unfolding update total
  total-update id f s [] d e = cc
  total-update id f s (r ∷ rows) d e = elim (Bool-cases (str_eq r.item_id id)) [
    | inl hit ↦ rw hit (
        ground (
          arith,
          rw hit at e,
          total-Absent id f rows (subst (λ k. Absent k rows) (str_eq→eq r.item_id id hit) d.0),
        ))
    | inr miss ↦ rw miss (omega (arith, total-update id f s rows d.1 (rw miss at e)))
  ]
