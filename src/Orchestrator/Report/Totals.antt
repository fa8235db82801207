-- ===== src/Orchestrator/Report/Totals.antt =====
-- The totals that `finalize` counts and the summary that it writes.
use browser_agent.Common.{
  ◌+◌, String, ◌≡◌, refl, sym, ◌∙◌, Bool, ◌||◌, Option, none, some, List, [], ◌∷◌, str_eq, any_of,
  arith, length, Bool-cases, inl, inr, if◌then◌else◌, eq_iff, str_eq_refl,
}
use browser_agent.Orchestrator.Recorder.{
  Result, Progress, load_row, load_completed, no_progress, is_completed,
}
use browser_agent.Orchestrator.Report.{
  put_sample, see, see_all, summarised, insert_sorted, sort_rows, samples_summary,
}

abbrev has : String → List Result → Bool
has sid = any_of (λ (s : Result). str_eq s.sample_id sid)

has-put_sample :
    (sid : String) (r : Result) (seen : List Result)
    → has sid (put_sample r seen) ≡ (str_eq r.sample_id sid || has sid seen)
unfolding put_sample
has-put_sample sid r [] = ground arith
has-put_sample sid r (s ∷ seen) =
    ground (arith, has-put_sample sid r seen, eq_iff s.sample_id r.sample_id)

length-put_sample :
    (r : Result) (seen : List Result)
    → length (put_sample r seen) ≡ (if has r.sample_id seen then length seen else length seen + 1)
unfolding put_sample
length-put_sample r [] = ground arith
length-put_sample r (s ∷ seen) = ground (arith, length-put_sample r seen)

length-insert_sorted :
    (r : Result) (rows : List Result) → length (insert_sorted r rows) ≡ length rows + 1
unfolding insert_sorted
length-insert_sorted r [] = refl
length-insert_sorted r (s ∷ rows) = ground (arith, length-insert_sorted r rows)

length-sort_rows : (rows : List Result) → length (sort_rows rows) ≡ length rows
unfolding sort_rows
length-sort_rows [] = refl
length-sort_rows (r ∷ rows) =
    omega (arith, length-insert_sorted r (sort_rows rows), length-sort_rows rows)

-- What the process counted so far is what the summary saw.
abbrev Match : Progress → List Result → Type 0
Match p seen =
    ((sid : String) → is_completed sid p.completed_ids ≡ has sid seen)
    × (p.counters.total ≡ length seen)

Match-row :
    (r : Result) (p : Progress) (seen : List Result)
    → Match p seen
    → Match (load_row r p) (see r seen)
Match-row r p seen (ids, total) = elim (Bool-cases (str_eq r.sample_id "")) [
  | inl e ↦ rw (e) (ids, total)
  | inr e ↦ elim (Bool-cases (is_completed r.sample_id p.completed_ids)) [
    | inl f ↦
        rw (e, f)
          (
            (λ sid. ground (
              arith,
              ids sid,
              ids r.sample_id,
              f,
              str_eq_refl r.sample_id,
              eq_iff r.sample_id sid,
              eq_iff sid r.sample_id,
              has-put_sample sid (summarised r) seen,
            )),
            ground (arith, total, ids r.sample_id, f, length-put_sample (summarised r) seen),
          )
    | inr f ↦
        rw (e, f)
          (
            (λ sid. ground (
              arith,
              ids sid,
              ids r.sample_id,
              f,
              str_eq_refl r.sample_id,
              eq_iff r.sample_id sid,
              eq_iff sid r.sample_id,
              has-put_sample sid (summarised r) seen,
            )),
            ground (arith, total, ids r.sample_id, f, length-put_sample (summarised r) seen),
          )
  ]
]

load-see :
    (lines : List (Option Result)) (p : Progress) (seen : List Result)
    → Match p seen
    → (load_completed lines p).counters.total ≡ length (see_all lines seen)
unfolding load_completed see_all
load-see [] p seen m = m.1
load-see (none ∷ lines) p seen m = load-see lines p seen m
load-see (some r ∷ lines) p seen m =
    load-see lines (load_row r p) (see r seen) (Match-row r p seen m)

-- For every samples.jsonl, also one with bad lines or with several attempts at one sample, the total
-- that a process counts is the number of samples in the summary.
pub total-samples_summary :
    (lines : List (Option Result))
    → (load_completed lines no_progress).counters.total ≡ length (samples_summary lines)
unfolding samples_summary
total-samples_summary lines =
    load-see lines no_progress [] ((λ sid. refl), refl) ∙ sym (length-sort_rows (see_all lines []))
