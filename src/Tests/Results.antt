-- ===== src/Tests/Results.antt =====
-- Three results of two samples, and what becomes of them.
use browser_agent.Common.{ℕ, String, refl, Option, none, some, List, [], ◌∷◌}
use browser_agent.Json.{Json, str, arr, obj, nil, cons, end, field}
use browser_agent.Orchestrator.Recorder.{Result, Recorder, record_all, load_completed, resumed}
use browser_agent.Orchestrator.Recorder.Recovery.{IsDurable, record_all-IsDurable}
use browser_agent.Orchestrator.Report.{rebuild_csv}
use browser_agent.Orchestrator.Report.Table.{IsRectangular, rebuild_csv-IsRectangular}

abbrev result : String → ℕ → String → Json → Result
result id row verdict extracted = record {
  sample_id = id;
  row_index = some row;
  verdict = some verdict;
  verdict_reason = none;
  extracted = extracted;
  evidence_count = 0;
  status = some "done";
  error = none;
}

abbrev pub failed_first : Result
failed_first = result "run-00000" 0 "fail" (obj end)

abbrev pub passed_later : Result
passed_later = result "run-00000" 0 "pass" (obj (field "title" (str "Invoice") end))

abbrev fan_out : Result
fan_out =
    result "run-00001" 1 "pass"
      (arr (cons (obj (field "title" (str "A") end)) (cons (obj end) nil)))

abbrev empty : Recorder
empty = resumed []

empty-IsDurable : IsDurable empty
unfolding load_completed
empty-IsDurable = refl

record_all-IsDurable_example :
    IsDurable (record_all (failed_first ∷ passed_later ∷ fan_out ∷ []) empty)
record_all-IsDurable_example =
    record_all-IsDurable (failed_first ∷ passed_later ∷ fan_out ∷ []) empty
      (refl, (refl, (refl, tt))) empty-IsDurable

abbrev lines : List (Option Result)
lines = some failed_first ∷ none ∷ some passed_later ∷ some fan_out ∷ []

rebuild_csv-IsRectangular_example :
    IsRectangular (passed_later ∷ fan_out ∷ []) (rebuild_csv (passed_later ∷ fan_out ∷ []))
rebuild_csv-IsRectangular_example = rebuild_csv-IsRectangular (passed_later ∷ fan_out ∷ [])
