-- ===== src/Queue/Sqlite/Rows.antt =====
-- How the statements of sqlite_queue.py change the row of one id.
use mathlib.Core.Option
use browser_agent.Common.{
  ℕ, String, ◌≡◌, refl, not, none, some, List, [], ◌∷◌, ◌++◌, map, arith, eq_iff, str_eq,
  if◌then◌else◌, keep_if,
}
use browser_agent.Queue.Sqlite.{Row, fetch, update, release}

module _ {P : Type 0} where
  -- `f` leaves the primary key alone.
  abbrev pub KeepsId : (Row P → Row P) → Type 0
  KeepsId f = (r : Row P) → (f r).item_id ≡ r.item_id

  pub fetch-update :
      (id k : String) (f : Row P → Row P) (rows : List (Row P))
      → KeepsId f
      → fetch k (update id f rows)
        ≡ (if str_eq id k then Option.map f (fetch k rows) else fetch k rows)
  unfolding update
  fetch-update id k f [] h = ground arith
  fetch-update id k f (r ∷ rows) h = ground (
    arith,
    h r,
    fetch-update id k f rows h,
    eq_iff id k,
    eq_iff r.item_id id,
    eq_iff r.item_id k,
    eq_iff (f r).item_id k,
  )

  pub fetch-release :
      (cutoff now : ℕ) (k : String) (rows : List (Row P))
      → fetch k (map (release cutoff now) rows) ≡ Option.map (release cutoff now) (fetch k rows)
  fetch-release cutoff now k [] = refl
  fetch-release cutoff now k (r ∷ rows) = ground (arith, fetch-release cutoff now k rows)

  pub fetch-keep :
      (id k : String) (rows : List (Row P))
      → fetch k (keep_if (λ r. not (str_eq r.item_id id)) rows)
        ≡ (if str_eq id k then none else fetch k rows)
  fetch-keep id k [] = ground arith
  fetch-keep id k (r ∷ rows) =
      ground (arith, fetch-keep id k rows, eq_iff id k, eq_iff r.item_id id, eq_iff r.item_id k)

  pub fetch-append :
      (k : String) (xs ys : List (Row P))
      → fetch k (xs ++ ys) ≡ elim (fetch k xs) [ none ↦ fetch k ys | some r ↦ some r ]
  fetch-append k [] ys = refl
  fetch-append k (r ∷ xs) ys = ground (arith, fetch-append k xs ys)

  pub fetch_id :
      (k : String) (rows : List (Row P)) (r : Row P) → fetch k rows ≡ some r → r.item_id ≡ k
  fetch_id k [] r e = cc
  fetch_id k (x ∷ rows) r e = ground (arith, fetch_id k rows r, eq_iff x.item_id k)
