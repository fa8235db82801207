-- ===== src/Orchestrator/Report.antt =====
-- What `finalize` of src/andera/orchestrator/runner.py makes of samples.jsonl: the summary of the
-- samples and the rows of output.csv. A cell is the value that the CSV writer is given.
pub mod Totals
pub mod Table
use browser_agent.Common.{
  ℕ, zero, suc, ◌+◌, String, Bool, true, false, Option, none, some, List, [], ◌∷◌, ◌++◌, map,
  str_eq, leb, any_of, if◌then◌else◌,
}
use browser_agent.Json.{
  Json, null, num, str, obj, arr, pos, Items, nil, cons, Fields, end, field, get, has_key, truthy,
  to_list,
}
use browser_agent.Orchestrator.Recorder.{Result}

-- Any value but a list or a dictionary becomes {}.
abbrev pub shaped : Json → Json
shaped (obj d) = obj d
shaped (arr xs) = arr xs
shaped _ = obj end

abbrev pub summarised : Result → Result
summarised r = record r { extracted = shaped r.extracted }

-- `seen[sid] = …`: a key that is there keeps its place.
pub put_sample : Result → List Result → List Result
put_sample r [] = r ∷ []
put_sample r (s ∷ seen) =
    let rest = put_sample r seen in if str_eq s.sample_id r.sample_id then r ∷ seen else s ∷ rest

abbrev pub see : Result → List Result → List Result
see r seen = if str_eq r.sample_id "" then seen else put_sample (summarised r) seen

pub see_all : List (Option Result) → List Result → List Result
see_all [] seen = seen
see_all (none ∷ lines) seen = see_all lines seen
see_all (some r ∷ lines) seen = see_all lines (see r seen)

-- `s.get("row_index") or 0`
abbrev pub index_of : Result → ℕ
index_of r = elim r.row_index [ none ↦ 0 | some i ↦ i ]

-- `sorted`, which is stable
pub insert_sorted : Result → List Result → List Result
insert_sorted r [] = r ∷ []
insert_sorted r (s ∷ rows) =
    let rest = insert_sorted r rows in
    if leb (index_of r) (index_of s) then r ∷ s ∷ rows else s ∷ rest

pub sort_rows : List Result → List Result
unfolding insert_sorted
sort_rows [] = []
sort_rows (r ∷ rows) = insert_sorted r (sort_rows rows)

-- `_samples_summary_from_jsonl`
pub samples_summary : List (Option Result) → List Result
unfolding see_all sort_rows
samples_summary lines = sort_rows (see_all lines [])

-- `item or {}`, where a value that is no dictionary has no keys: an AttributeError.
abbrev pub item_fields : Json → Option Fields
item_fields v = if truthy v then elim v [ obj d ↦ some d | _ ↦ none ] else some end

-- The items that a sample gives to the keys, in the first pass.
abbrev pub items_of : Json → List Json
items_of (arr xs) = to_list xs
items_of (obj d) = obj d ∷ []
items_of _ = []

-- The items that it gives rows for, in the second pass.
abbrev pub row_items : Json → List Json
row_items (arr nil) = obj end ∷ []
row_items (arr xs) = to_list xs
row_items (obj d) = obj d ∷ []
row_items _ = obj end ∷ []

abbrev pub is_list : Result → Bool
is_list r = elim r.extracted [ arr xs ↦ true | _ ↦ false ]

pub add_keys : Fields → List String → List String
add_keys end keys = keys
add_keys (field k v d) keys = add_keys d (if any_of (str_eq k) keys then keys else keys ++ k ∷ [])

pub keys_of_items : List Json → List String → Option (List String)
unfolding add_keys
keys_of_items [] keys = some keys
keys_of_items (v ∷ items) keys = elim (item_fields v) [
  | none ↦ none
  | some d ↦ keys_of_items items (add_keys d keys)
]

pub all_keys : List Result → List String → Option (List String)
unfolding keys_of_items
all_keys [] keys = some keys
all_keys (r ∷ rows) keys = elim (keys_of_items (items_of r.extracted) keys) [
  | none ↦ none
  | some more ↦ all_keys rows more
]

abbrev pub text : Option String → Json
text none = null
text (some s) = str s

abbrev pub number : Option ℕ → Json
number none = null
number (some n) = num (pos n)

-- The columns before the keys, and those of the keys.
abbrev pub row_of : Bool → List String → Result → ℕ → Fields → List Json
row_of any_list keys r i d =
    (if any_list
      then str r.sample_id ∷ number r.row_index ∷ num (pos i) ∷ text r.verdict ∷ []
      else str r.sample_id ∷ number r.row_index ∷ text r.verdict ∷ [])
    ++ map (λ k. if has_key k d then get k d else str "") keys

abbrev pub header : Bool → List String → List Json
header any_list keys =
    (if any_list
      then str "sample_id" ∷ str "row_index" ∷ str "item_index" ∷ str "verdict" ∷ []
      else str "sample_id" ∷ str "row_index" ∷ str "verdict" ∷ [])
    ++ map str keys

abbrev pub cons_row : List Json → Option (List (List Json)) → Option (List (List Json))
cons_row row none = none
cons_row row (some rows) = some (row ∷ rows)

pub rows_of_items : Bool → List String → Result → ℕ → List Json → Option (List (List Json))
rows_of_items any_list keys r i [] = some []
rows_of_items any_list keys r i (v ∷ items) = elim (item_fields v) [
  | none ↦ none
  | some d ↦ cons_row (row_of any_list keys r i d) (rows_of_items any_list keys r (i + 1) items)
]

pub all_rows : Bool → List String → List Result → Option (List (List Json))
unfolding rows_of_items
all_rows any_list keys [] = some []
all_rows any_list keys (r ∷ rows) = elim (rows_of_items any_list keys r 0 (row_items r.extracted)) [
  | none ↦ none
  | some here ↦ elim (all_rows any_list keys rows) [ none ↦ none | some rest ↦ some (here ++ rest) ]
]

-- `_rebuild_csv_from_jsonl` on the summary: the lines of the file; none is an AttributeError.
pub rebuild_csv : List Result → Option (List (List Json))
unfolding all_keys all_rows
rebuild_csv [] = some []
rebuild_csv (r ∷ rows) = elim (all_keys (r ∷ rows) []) [
  | none ↦ none
  | some keys ↦
      let any_list = any_of is_list (r ∷ rows) in
      cons_row (header any_list keys) (all_rows any_list keys (r ∷ rows))
]
