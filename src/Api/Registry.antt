-- ===== src/Api/Registry.antt =====
-- The records of src/andera/api/registry.py, in memory: `RunRecord` and `RunRegistry`. The workflow of a
-- record is of any type `V`. What is read back from a manifest on disk is left out.
use browser_agent.Common.{
  ℕ, String, Bool, false, Option, none, some, List, map, keep_if, Dict, lookup, insert,
}

pub record RunRecord (V : Type 0) : Type 0 where
  pub run_id : String
  pub task_id : Option String
  pub status : String
  pub total : ℕ
  pub passed : ℕ
  pub failed : ℕ
  pub run_root : Option String
  pub error : Option String
  pub workflow : Option V
  pub awaits_finalization : Bool

abbrev pub RunRegistry : Type 0 → Type 0
RunRegistry V = Dict (RunRecord V)

module _ {V : Type 0} where
  unfoldable pub register : RunRecord V → RunRegistry V → RunRegistry V
  register rec runs = insert rec.run_id rec runs

  -- The records that wait, in the order of the dictionary.
  unfoldable pub pending_finalization : RunRegistry V → List (RunRecord V)
  pending_finalization runs = keep_if (λ rec. rec.awaits_finalization) (map (λ e. e.1) runs)

  unfoldable pub mark_finalized : String → RunRegistry V → RunRegistry V
  mark_finalized run_id runs = elim (lookup run_id runs) [
    | none ↦ runs
    | some rec ↦ insert run_id (record rec { awaits_finalization = false }) runs
  ]
