-- ===== src/Queue/Sqlite.antt =====
-- src/andera/queue/sqlite_queue.py: `SqliteQueue` over its one table. The rows stand in the order
-- of their `rowid`. A call of `_now()` is an argument, in microseconds, and so is a fresh uuid.
use browser_agent.Common.{
  ℕ, ◌+◌, ◌-◌, ◌*◌, String, Bool, true, false, not, ◌&&◌, Option, none, some, List, [], ◌∷◌, ◌++◌,
  map, str_eq, ltb, leb, if◌then◌else◌, find_first, keep_if, count_if,
}
pub mod Rows
pub mod Totals
pub mod History
pub mod Invariant
pub mod Oldest
pub mod Preserved
pub mod Claim
pub mod Delivery
use browser_agent.Queue.{Status, pending, claimed, done, dead, Job}

-- MAX_ATTEMPTS_DEFAULT
abbrev pub max_attempts_default : ℕ
max_attempts_default = 3

pub record Row (P : Type 0) : Type 0 where
  pub item_id : String
  pub payload : P
  pub status : Status
  pub claimed_at : Option ℕ
  pub claim_token : Option String
  pub attempts : ℕ
  pub last_error : Option String
  pub created_at : ℕ
  pub updated_at : ℕ

pub record Queue (P : Type 0) : Type 0 where
  pub max_attempts : ℕ
  pub rows : List (Row P)

abbrev pub is_pending : Status → Bool
is_pending pending = true
is_pending _ = false

abbrev pub is_claimed : Status → Bool
is_claimed claimed = true
is_claimed _ = false

abbrev pub is_done : Status → Bool
is_done done = true
is_done _ = false

abbrev pub is_dead : Status → Bool
is_dead dead = true
is_dead _ = false

-- `claimed_at < ?`: the comparison with NULL is not true.
abbrev pub before : Option ℕ → ℕ → Bool
before none cutoff = false
before (some at) cutoff = ltb at cutoff

-- `item.get("item_id") or str(uuid.uuid4())`
abbrev pub choose_id : Option String → String → String
choose_id none fresh = fresh
choose_id (some id) fresh = if str_eq id "" then fresh else id

module _ {P : Type 0} where
  -- `SELECT … WHERE item_id=?`
  abbrev pub fetch : String → List (Row P) → Option (Row P)
  fetch id = find_first (λ r. str_eq r.item_id id)

  -- `UPDATE queue SET … WHERE item_id=?`
  unfoldable pub update : String → (Row P → Row P) → List (Row P) → List (Row P)
  update id f [] = []
  update id f (r ∷ rows) = (if str_eq r.item_id id then f r else r) ∷ update id f rows

  -- `SELECT … WHERE status='pending' ORDER BY created_at ASC LIMIT 1`; of rows of one age the one
  -- with the least `rowid` comes first.
  abbrev pub older : Row P → Option (Row P) → Row P
  older r none = r
  older r (some s) = if leb r.created_at s.created_at then r else s

  pub oldest : List (Row P) → Option (Row P)
  oldest [] = none
  oldest (r ∷ rows) =
      let rest = oldest rows in if is_pending r.status then some (older r rest) else rest

  abbrev pub new_row : String → P → ℕ → ℕ → Row P
  new_row id payload created updated = record {
    item_id = id;
    payload = payload;
    status = pending;
    claimed_at = none;
    claim_token = none;
    attempts = 0;
    last_error = none;
    created_at = created;
    updated_at = updated;
  }

  -- `INSERT OR REPLACE`: an old row of that id goes, and the new row gets the next `rowid`.
  unfoldable pub enqueue : Option String → P → String → ℕ → ℕ → Queue P → String × Queue P
  enqueue id payload fresh created updated q =
      let item_id = choose_id id fresh in
      (
        item_id,
        record q {
          rows =
              keep_if (λ r. not (str_eq r.item_id item_id)) q.rows
              ++ new_row item_id payload created updated ∷ [];
        },
      )

  abbrev pub claim : String → ℕ → ℕ → Row P → Row P
  claim token at updated r = record r {
    status = claimed;
    claim_token = some token;
    claimed_at = some at;
    updated_at = updated;
  }

  abbrev pub job_of : String → Row P → Job P
  job_of token r = record {
    item_id = r.item_id;
    payload = r.payload;
    claim_token = token;
    attempts = r.attempts;
  }

  unfoldable pub dequeue : String → ℕ → ℕ → Queue P → Option (Job P) × Queue P
  dequeue token at updated q = elim (oldest q.rows) [
    | none ↦ (none, q)
    | some row ↦ (
      some (job_of token row),
      record q { rows = update row.item_id (claim token at updated) q.rows },
    )
  ]

  unfoldable pub ack : String → ℕ → Queue P → Queue P
  ack id now q = record q {
    rows = update id (λ r. record r { status = done; updated_at = now }) q.rows;
  }

  -- The row after a `nack` that has counted `attempts`.
  abbrev pub retried : ℕ → ℕ → String → ℕ → Row P → Row P
  retried max_attempts attempts reason now r =
      if leb max_attempts attempts
      then (record r {
        status = dead;
        attempts = attempts;
        last_error = some reason;
        updated_at = now;
      })
      else (record r {
        status = pending;
        attempts = attempts;
        last_error = some reason;
        claim_token = none;
        claimed_at = none;
        updated_at = now;
      })

  unfoldable pub nack : String → String → ℕ → Queue P → Queue P
  nack id reason now q = elim (fetch id q.rows) [
    | none ↦ q
    | some row ↦ record q {
      rows = update id (retried q.max_attempts (row.attempts + 1) reason now) q.rows;
    }
  ]

  pub dead_letter : String → ℕ → Queue P → Queue P
  dead_letter id now q = record q {
    rows = update id (λ r. record r { status = dead; updated_at = now }) q.rows;
  }

  -- `status -> count`
  unfoldable pub counts : Queue P → Status → ℕ
  counts q pending = count_if (λ r. is_pending r.status) q.rows
  counts q claimed = count_if (λ r. is_claimed r.status) q.rows
  counts q done = count_if (λ r. is_done r.status) q.rows
  counts q dead = count_if (λ r. is_dead r.status) q.rows

  -- `WHERE status='claimed' AND claimed_at < ?`
  abbrev pub is_stale : ℕ → Row P → Bool
  is_stale cutoff r = is_claimed r.status && before r.claimed_at cutoff

  abbrev pub release : ℕ → ℕ → Row P → Row P
  release cutoff updated r =
      if is_stale cutoff r
      then (record r {
        status = pending;
        claim_token = none;
        claimed_at = none;
        updated_at = updated;
      })
      else r

  -- The seconds of the argument, against a clock in microseconds.
  pub reclaim_stale : ℕ → ℕ → ℕ → Queue P → ℕ × Queue P
  reclaim_stale older_than_seconds now updated q =
      let cutoff = now - older_than_seconds * 1000000 in
      (count_if (is_stale cutoff) q.rows, record q { rows = map (release cutoff updated) q.rows })
