-- ===== src/Orchestrator/Recorder.antt =====
-- The results of src/andera/orchestrator/runner.py: the counters, the set of completed samples and
-- the file samples.jsonl of `RunWorkflow`. The file is the list of its lines as they decode: None is
-- a blank line or one that is no JSON. `json.loads(json.dumps(row))` is taken as the row.
pub mod Recovery
use browser_agent.Common.{
  ℕ, ◌+◌, String, Bool, true, false, not, ◌||◌, Option, none, some, List, [], ◌∷◌, ◌++◌, str_eq,
  any_of, if◌then◌else◌,
}
use browser_agent.Json.{Json}

-- A result of a sample, or a line of the file.
pub record Result : Type 0 where
  pub sample_id : String
  pub row_index : Option ℕ
  pub verdict : Option String
  pub verdict_reason : Option String
  pub extracted : Json
  pub evidence_count : ℕ
  pub status : Option String
  pub error : Option String

pub record Counters : Type 0 where
  pub total : ℕ
  pub passed : ℕ
  pub failed : ℕ

pub record Recorder : Type 0 where
  pub counters : Counters
  pub completed_ids : List String
  pub samples_jsonl : List (Option Result)

abbrev pub is_pass : Option String → Bool
is_pass none = false
is_pass (some v) = str_eq v "pass"

abbrev pub is_completed : String → List String → Bool
is_completed sid ids = any_of (str_eq sid) ids

-- `self._counters[…] += 1`
abbrev pub count : Option String → Counters → Counters
count verdict c =
    if is_pass verdict
    then (record c { total = c.total + 1; passed = c.passed + 1 })
    else (record c { total = c.total + 1; failed = c.failed + 1 })

-- `_record_result`
pub record_result : Result → Recorder → Recorder
record_result r s = if is_completed r.sample_id s.completed_ids then s else (record {
  counters = count r.verdict s.counters;
  completed_ids = r.sample_id ∷ s.completed_ids;
  samples_jsonl = s.samples_jsonl ++ some r ∷ [];
})

-- The counters and the set, without the file.
pub record Progress : Type 0 where
  pub counters : Counters
  pub completed_ids : List String

abbrev pub progress : Recorder → Progress
progress s = record { counters = s.counters; completed_ids = s.completed_ids }

-- One line, in the loop of `_load_completed_from_disk`.
abbrev pub load_row : Result → Progress → Progress
load_row r p =
    if str_eq r.sample_id "" || is_completed r.sample_id p.completed_ids then p else (record {
      counters = count r.verdict p.counters;
      completed_ids = r.sample_id ∷ p.completed_ids;
    })

-- `_load_completed_from_disk`
unfoldable pub load_completed : List (Option Result) → Progress → Progress
load_completed [] p = p
load_completed (none ∷ lines) p = load_completed lines p
load_completed (some r ∷ lines) p = load_completed lines (load_row r p)

abbrev pub no_counts : Counters
no_counts = record { total = 0; passed = 0; failed = 0 }

abbrev pub no_progress : Progress
no_progress = record { counters = no_counts; completed_ids = [] }

-- A run that starts, with the file as an earlier process left it.
abbrev pub resumed : List (Option Result) → Recorder
resumed lines =
    let p = load_completed lines no_progress in
    record { counters = p.counters; completed_ids = p.completed_ids; samples_jsonl = lines }

-- A history of results, as the workers bring them under the lock.
pub record_all : List Result → Recorder → Recorder
unfolding record_result
record_all [] s = s
record_all (r ∷ rs) s = record_all rs (record_result r s)
