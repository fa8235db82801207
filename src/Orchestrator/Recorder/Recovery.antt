-- ===== src/Orchestrator/Recorder/Recovery.antt =====
-- What a new process finds of the results of an old one.
use browser_agent.Common.{
  ◌≡◌, refl, ap, ◌∙◌, true, false, Option, none, some, List, [], ◌∷◌, ◌++◌, str_eq, All, arith,
  Bool-cases, inl, inr, str_eq_refl,
}
use browser_agent.Orchestrator.Recorder.{
  Result, Recorder, Progress, progress, is_completed, record_result, record_all, load_row,
  load_completed, no_progress,
}

-- Every result names its sample.
abbrev pub Named : Result → Type 0
Named r = str_eq r.sample_id "" ≡ false

-- The file holds what the process knows.
abbrev pub IsDurable : Recorder → Type 0
IsDurable s = load_completed s.samples_jsonl no_progress ≡ progress s

load_completed-append :
    (xs : List (Option Result)) (r : Result) (p : Progress)
    → load_completed (xs ++ some r ∷ []) p ≡ load_row r (load_completed xs p)
unfolding load_completed
load_completed-append [] r p = refl
load_completed-append (none ∷ xs) r p = load_completed-append xs r p
load_completed-append (some x ∷ xs) r p = load_completed-append xs r (load_row x p)

record_result-IsDurable :
    (r : Result) (s : Recorder) → Named r → IsDurable s → IsDurable (record_result r s)
unfolding record_result
record_result-IsDurable r s n d = elim (Bool-cases (is_completed r.sample_id s.completed_ids)) [
  | inl e ↦ rw e d
  | inr e ↦
      rw (e)
        (load_completed-append s.samples_jsonl r no_progress ∙ ap (load_row r) d ∙ rw (n, e) refl)
]

-- If the file holds what the process knows, it still does after any results that each name their
-- sample: whenever the process stops, a new one that reads samples.jsonl gets the counters and the
-- completed samples back exactly.
pub record_all-IsDurable :
    (rs : List Result) (s : Recorder) → All Named rs → IsDurable s → IsDurable (record_all rs s)
unfolding record_all
record_all-IsDurable [] s n d = d
record_all-IsDurable (r ∷ rs) s n d =
    record_all-IsDurable rs (record_result r s) n.1 (record_result-IsDurable r s n.0 d)

-- The first result of a sample is final: what later attempts at the same sample bring, a pass
-- included, changes neither the counters, nor the set, nor the file.
retries-dropped :
    (r : Result) (rs : List Result) (s : Recorder)
    → All (λ x. x.sample_id ≡ r.sample_id) rs
    → record_all (r ∷ rs) s ≡ record_result r s
unfolding record_all record_result
retries-dropped r rs s same = later rs same (record_result r s) completed
  where
    completed : is_completed r.sample_id (record_result r s).completed_ids ≡ true
    completed = ground (arith, str_eq_refl r.sample_id)

    later :
        (xs : List Result)
        → All (λ x. x.sample_id ≡ r.sample_id) xs
        → (t : Recorder) → is_completed r.sample_id t.completed_ids ≡ true
        → record_all xs t ≡ t
    later [] a t c = refl
    later (x ∷ xs) a t c = ap (record_all xs) (rw (a.0, c) refl) ∙ later xs a.1 t c
