-- ===== src/Storage/AuditLogPg.antt =====
-- src/andera/storage/audit_log_pg.py: `AuditLogPg` over its one table for all runs, whose rows stand in
-- the order of `ordinal`. The advisory lock of a run lets its appends through one after another;
-- transactions of different runs are taken as a sequence too. A row is that of the SQLite log, but that
-- payload_json is a JSONB column, whose text is not the one that was put in: PostgreSQL orders the keys
-- and writes numbers anew. `jsonb` is the text that it gives back for one.
pub mod PerRun
use browser_agent.Common.{
  String, Bool, true, false, Option, none, some, List, [], ◌∷◌, ◌++◌, str_eq, any_of, keep_if,
  if◌then◌else◌,
}
use browser_agent.Agent.Effect.{exception, Result, ok, raised}
use browser_agent.Storage.AuditLog.{
  Codec, Row, Event, event_id_of, is_run, new_row, last_hash, verify_from,
}

-- `run_id IS NULL`
abbrev pub is_null : Option String → Bool
is_null none = true
is_null (some r) = false

-- The rows that a query for a run, or for rows without one, selects.
abbrev pub in_chain : {H : Type 0} → Option String → Row H → Bool
in_chain none r = is_null r.run_id
in_chain (some run_id) r = is_run run_id r.run_id

abbrev pub chain : {H : Type 0} → Option String → List (Row H) → List (Row H)
chain run_id rows = keep_if (in_chain run_id) rows

module _ {H : Type 0} (codec : Codec H) where
  -- A query that names no run takes all rows.
  abbrev pub selected : Option String → List (Row H) → List (Row H)
  selected none rows = rows
  selected (some run_id) rows = chain (some run_id) rows

  pub root_hash : Option String → List (Row H) → H
  root_hash run_id rows = last_hash codec codec.genesis_hash (selected run_id rows)

  unfoldable pub verify_chain : Option String → List (Row H) → Result Bool
  verify_chain run_id rows = verify_from codec codec.genesis_hash (selected run_id rows)

  pub rows_for_run : String → List (Row H) → List (Row H)
  rows_for_run run_id rows = chain (some run_id) rows

module _ {H : Type 0} (codec : Codec H) (jsonb : String → String) where
  abbrev pub stored_row : Event → H → Row H
  stored_row e prev = record (new_row codec e prev) {
    payload_json = jsonb (codec.canonical e.payload);
  }

  -- The event id is unique.
  unfoldable pub append : Event → List (Row H) → Result H × List (Row H)
  append e rows =
      let row = stored_row e (last_hash codec codec.genesis_hash (chain e.run_id rows)) in
      if any_of (λ r. str_eq r.event_id (event_id_of e)) rows
      then (raised (exception "UniqueViolationError"), rows)
      else (ok row.this_hash, rows ++ row ∷ [])

  unfoldable pub append_all : List Event → List (Row H) → List (Row H)
  unfolding append
  append_all [] rows = rows
  append_all (e ∷ es) rows = append_all es (append e rows).1
