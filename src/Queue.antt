-- ===== src/Queue.antt =====
-- The durable work queue: src/andera/queue. A job's payload is the JSON dictionary that the
-- orchestrator puts in, and stays abstract: `json.loads(json.dumps(item))` is taken as the item.
pub mod Sqlite
pub mod Redis
pub mod Make
use browser_agent.Common.{ℕ, String, Option}

-- The values of the column `status`.
pub data Status : Type 0 where
  pending claimed done dead : Status

-- What `dequeue` hands to a worker.
pub record Job (P : Type 0) : Type 0 where
  pub item_id : String
  pub payload : P
  pub claim_token : String
  pub attempts : ℕ
