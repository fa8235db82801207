-- ===== src/Orchestrator/Report/Table.antt =====
-- The shape of output.csv.
use browser_agent.Common.{
  ℕ, suc, ◌+◌, String, ◌≡◌, refl, sym, ap, Bool, true, false, Option, none, some, List, [], ◌∷◌,
  ◌++◌, any_of, arith, length, Option-cases, if◌then◌else◌, inl, inr, All, All-append, length-map,
  length-append, max,
}
use browser_agent.Json.{
  Json, null, bool, num, str, arr, obj, nil, cons, Fields, get, has_key, to_list,
}
use browser_agent.Orchestrator.Recorder.{Result}
use browser_agent.Orchestrator.Report.{
  row_of, header, cons_row, rows_of_items, all_rows, all_keys, rebuild_csv, is_list, item_fields,
  row_items,
}

abbrev width : Bool → List String → ℕ
width any_list keys = length (header any_list keys)

length-row_of :
    (b : Bool) (keys : List String) (r : Result) (i : ℕ) (d : Fields)
    → length (row_of b keys r i d) ≡ width b keys
length-row_of true keys r i d = omega (
  arith,
  length-map (λ (k : String). if has_key k d then get k d else str "") keys,
  length-map str keys,
)
length-row_of false keys r i d = omega (
  arith,
  length-map (λ (k : String). if has_key k d then get k d else str "") keys,
  length-map str keys,
)

-- `n` rows, each as wide as the header.
abbrev Table : Bool → List String → ℕ → Option (List (List Json)) → Type 0
Table b keys n none = Unit
Table b keys n (some rows) = All (λ row. length row ≡ width b keys) rows × (length rows ≡ n)

cons_row-Table :
    (b : Bool) (keys : List String) (n : ℕ) (row : List Json) (o : Option (List (List Json)))
    → length row ≡ width b keys
    → Table b keys n o
    → Table b keys (suc n) (cons_row row o)
cons_row-Table b keys n row none e t = tt
cons_row-Table b keys n row (some rows) e t = ((e, t.0), ap suc t.1)

rows_of_items-Table :
    (b : Bool) (keys : List String) (r : Result) (i : ℕ) (items : List Json)
    → Table b keys (length items) (rows_of_items b keys r i items)
unfolding rows_of_items
rows_of_items-Table b keys r i [] = (tt, refl)
rows_of_items-Table b keys r i (v ∷ items) = elim (Option-cases (item_fields v)) [
  | inl e ↦ rw (e, Table) tt
  | inr (d, e) ↦
      rw (e, Table)
        (cons_row-Table b keys (length items) (row_of b keys r i d) _ (length-row_of b keys r i d)
          (rows_of_items-Table b keys r (i + 1) items))
]

-- The items that a sample has extracted: the elements of a list, or one dictionary.
abbrev pub item_count : Json → ℕ
item_count (arr xs) = length (to_list xs)
item_count (obj d) = 1
item_count _ = 0

-- The rows that a summary calls for: one for each item, and one for a sample without any.
abbrev pub rows_called_for : List Result → ℕ
rows_called_for [] = 0
rows_called_for (r ∷ rows) = max 1 (item_count r.extracted) + rows_called_for rows

length-row_items : (v : Json) → length (row_items v) ≡ max 1 (item_count v)
length-row_items null = refl
length-row_items (bool b) = refl
length-row_items (num n) = refl
length-row_items (str s) = refl
length-row_items (arr nil) = refl
length-row_items (arr (cons x xs)) = omega arith
length-row_items (obj d) = refl

append-Table :
    (b : Bool) (keys : List String) (m n : ℕ) (xs ys : List (List Json))
    → Table b keys m (some xs)
    → Table b keys n (some ys)
    → Table b keys (m + n) (some (xs ++ ys))
append-Table b keys m n xs ys s t =
    (All-append _ xs ys s.0 t.0, omega (arith, length-append xs ys, s.1, t.1))

all_rows-Table :
    (b : Bool) (keys : List String) (rows : List Result)
    → Table b keys (rows_called_for rows) (all_rows b keys rows)
unfolding all_rows
all_rows-Table b keys [] = (tt, refl)
all_rows-Table b keys (r ∷ rows) =
    join (rows_of_items b keys r 0 (row_items r.extracted)) (all_rows b keys rows)
      (rows_of_items-Table b keys r 0 (row_items r.extracted)) (all_rows-Table b keys rows)
  where
    join :
        (o p : Option (List (List Json)))
        → Table b keys (length (row_items r.extracted)) o
        → Table b keys (rows_called_for rows) p
        → Table b keys
            (max 1 (item_count r.extracted) + rows_called_for rows)
            (elim o as (λ x. Option (List (List Json))) [
              | none ↦ none
              | some here ↦ elim p as (λ x. Option (List (List Json))) [
                | none ↦ none
                | some rest ↦ some (here ++ rest)
              ]
            ])
    join none p s t = tt
    join (some here) none s t = tt
    join (some here) (some rest) s t =
        rw (sym (length-row_items r.extracted)) (append-Table b keys _ _ here rest s t)

-- A file of which every line is as wide as the first, with one line for each row that is called for.
abbrev pub IsRectangular : List Result → Option (List (List Json)) → Type 0
IsRectangular rows none = Unit
IsRectangular rows (some []) = rows ≡ []
IsRectangular rows (some (first ∷ rest)) =
    All (λ row. length row ≡ length first) rest × (length rest ≡ rows_called_for rows)

-- If `_rebuild_csv_from_jsonl` does not raise on an item that is no dictionary, output.csv is empty
-- for an empty summary; else each of its lines is as wide as the header, and there is one line for
-- each item of each sample, and one for a sample without items.
pub rebuild_csv-IsRectangular : (rows : List Result) → IsRectangular rows (rebuild_csv rows)
unfolding rebuild_csv
rebuild_csv-IsRectangular [] = refl
rebuild_csv-IsRectangular (r ∷ rows) = elim (Option-cases (all_keys (r ∷ rows) [])) [
  | inl e ↦ rw (e, IsRectangular) tt
  | inr (keys, e) ↦
      rw (e, IsRectangular)
        (under (any_of is_list (r ∷ rows)) keys
          (all_rows (any_of is_list (r ∷ rows)) keys (r ∷ rows))
          (all_rows-Table (any_of is_list (r ∷ rows)) keys (r ∷ rows)))
]
  where
    under :
        (b : Bool) (keys : List String) (o : Option (List (List Json)))
        → Table b keys (rows_called_for (r ∷ rows)) o
        → IsRectangular (r ∷ rows) (cons_row (header b keys) o)
    under b keys none t = tt
    under b keys (some body) t = t
