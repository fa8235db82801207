-- ===== src/Queue/Sqlite/History.antt =====
-- Histories: the calls that all workers make of one `SqliteQueue`, in the order in which the
-- lock `_lock` and SQLite's transactions let them through.
use browser_agent.Common.{ℕ, String, Option, none, List, [], ◌∷◌}
use browser_agent.Queue.{Job}
use browser_agent.Queue.Sqlite.{Queue, enqueue, dequeue, ack, nack, dead_letter, reclaim_stale}

-- A call with its arguments, the uuid it draws and the clock readings it makes.
pub data Call (P : Type 0) : Type 0 where
  enqueues : Option String → P → String → ℕ → ℕ → Call P
  dequeues : String → ℕ → ℕ → Call P
  acks : String → ℕ → Call P
  nacks : String → String → ℕ → Call P
  dead_letters : String → ℕ → Call P
  reclaims : ℕ → ℕ → ℕ → Call P

module _ {P : Type 0} where
  unfoldable pub step : Call P → Queue P → Queue P
  step (enqueues id payload fresh created updated) q =
      (enqueue id payload fresh created updated q).1
  step (dequeues token at updated) q = (dequeue token at updated q).1
  step (acks id now) q = ack id now q
  step (nacks id reason now) q = nack id reason now q
  step (dead_letters id now) q = dead_letter id now q
  step (reclaims age now updated) q = (reclaim_stale age now updated q).1

  -- The job that a call hands out.
  abbrev pub handed_out : Call P → Queue P → Option (Job P)
  handed_out (dequeues token at updated) q = (dequeue token at updated q).0
  handed_out _ q = none

  unfoldable pub run : List (Call P) → Queue P → Queue P
  run [] q = q
  run (c ∷ cs) q = run cs (step c q)
