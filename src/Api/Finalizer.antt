-- ===== src/Api/Finalizer.antt =====
-- `_finalizer_loop` of src/andera/api/app.py. A record is an object that the registry and the loop share:
-- what the loop does to it shows there. While a tick waits for one workflow, nothing else is registered
-- under that run_id. Agents may change a workflow between ticks.
pub mod Visits
pub mod Once
use browser_agent.Common.{
  String, Bool, true, false, Option, none, some, List, [], ◌∷◌, map, lookup, insert, if◌then◌else◌,
}
use browser_agent.Agent.Effect.{Eff, ok, raised}
use browser_agent.Orchestrator.Finalize.{RunResult}
use browser_agent.Api.Registry.{
  RunRecord, RunRegistry, register, pending_finalization, mark_finalized,
}

pub record Workflow (V : Type 0) : Type 0 where
  pub queue_drained : Eff V Bool
  pub finalize : Eff V RunResult
  -- `str(result.run_root)`
  pub root_of : RunResult → String

module _ {V : Type 0} (workflow : Workflow V) where
  abbrev pub finished : RunResult → V → RunRecord V → RunRecord V
  finished r v rec = record rec {
    status = "completed";
    total = r.total;
    passed = r.passed;
    failed = r.failed;
    run_root = some (workflow.root_of r);
    workflow = some v;
  }

  -- The body of the inner `try` on a workflow, whose exceptions are logged: what it does to the record
  -- object, which stands in the registry, and whether it goes on to `mark_finalized`.
  unfoldable pub attend : V → RunRecord V → RunRecord V × Bool
  attend v rec =
      let (drained, v₁) = workflow.queue_drained v in
      elim drained [
        | raised e ↦ (record rec { workflow = some v₁ }, false)
        | ok false ↦ (record rec { workflow = some v₁ }, false)
        | ok true ↦
            let (r, v₂) = workflow.finalize v₁ in
            elim r [
              | raised e ↦ (record rec { workflow = some v₂ }, false)
              | ok res ↦ (finished res v₂ rec, true)
            ]
      ]

  -- The record that stands under an id.
  unfoldable pub visit : String → RunRegistry V → RunRegistry V
  unfolding attend mark_finalized
  visit id runs = elim (lookup id runs) [
    | none ↦ runs
    | some rec ↦ elim rec.workflow [
      | none ↦ runs
      | some v ↦
          let (rec', completed) = attend v rec in
          if completed
          then mark_finalized rec'.run_id (insert id rec' runs)
          else insert id rec' runs
    ]
  ]

  unfoldable pub visit_all : List String → RunRegistry V → RunRegistry V
  unfolding visit
  visit_all [] runs = runs
  visit_all (id ∷ ids) runs = visit_all ids (visit id runs)

  -- A round of the loop, over the records that wait when it begins.
  unfoldable pub tick : RunRegistry V → RunRegistry V
  unfolding visit_all pending_finalization
  tick runs = visit_all (map (λ rec. rec.run_id) (pending_finalization runs)) runs

  pub data Event : Type 0 where
    ticks : Event
    registers : RunRecord V → Event
    -- agents at work for a run
    works : String → (V → V) → Event

  abbrev pub work : (V → V) → RunRecord V → RunRecord V
  work f rec = record rec { workflow = elim rec.workflow [ none ↦ none | some v ↦ some (f v) ] }

  unfoldable pub step : Event → RunRegistry V → RunRegistry V
  unfolding tick register
  step ticks runs = tick runs
  step (registers rec) runs = register rec runs
  step (works id f) runs = elim (lookup id runs) [
    | none ↦ runs
    | some rec ↦ insert id (work f rec) runs
  ]

  unfoldable pub run : List Event → RunRegistry V → RunRegistry V
  unfolding step
  run [] runs = runs
  run (e ∷ es) runs = run es (step e runs)
