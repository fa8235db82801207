-- ===== src/Queue/Redis.antt =====
-- src/andera/queue/redis_queue.py: `RedisQueue` over a server that is a parameter. A pipeline is a
-- transaction: its commands run one after another. A clock reading is an argument, and so is a
-- fresh uuid. The text "" that clears `claimed_at` is none; the clock is past the age of a stale claim.
pub mod Commands
pub mod Ids
pub mod Reads
pub mod Fifo
pub mod Orphan
use browser_agent.Common.{
  ℕ, ◌+◌, ◌-◌, String, Option, none, some, List, [], ◌∷◌, leb, length, if◌then◌else◌,
}
use browser_agent.Queue.{Job}
use browser_agent.Queue.Sqlite.{choose_id}
use Commands.{Server, Item}

-- `int(attempts or 0)`
abbrev pub attempts_of : {P : Type 0} → Item P → ℕ
attempts_of i = elim i.attempts [ none ↦ 0 | some n ↦ n ]

module _ {P R : Type 0} (server : Server P R) (max_attempts : ℕ) (no_payload : P) where
  unfoldable pub enqueue : Option String → P → String → ℕ → R → String × R
  enqueue id payload fresh now r =
      let item_id = choose_id id fresh in
      (
        item_id,
        server.lpush item_id (
            server.hset item_id
              (λ i. record i {
                status = some "pending";
                payload_json = some payload;
                attempts = some 0;
                created_at = some now;
                updated_at = some now;
              })
              r),
      )

  abbrev pub claim_item : String → ℕ → Item P → Item P
  claim_item token now i = record i {
    status = some "claimed";
    claim_token = some token;
    claimed_at = some now;
    updated_at = some now;
  }

  -- The dictionary that is read back, or {}.
  abbrev pub payload_of : Item P → P
  payload_of i = elim i.payload_json [ none ↦ no_payload | some p ↦ p ]

  unfoldable pub dequeue : String → ℕ → ℕ → R → Option (Job P) × R
  dequeue token now now_epoch r =
      let (popped, r') = server.rpop r in
      elim popped [
        | none ↦ (none, r')
        | some item_id ↦
            let r'' =
              server.zadd item_id now_epoch (server.hset item_id (claim_item token now) r') in
            let item = server.hgetall item_id r'' in
            (
              some (record {
                item_id = item_id;
                payload = payload_of item;
                claim_token = token;
                attempts = attempts_of item;
              }),
              r'',
            )
      ]

  unfoldable pub ack : String → ℕ → R → R
  ack id now r =
      server.zrem id
        (server.hset id (λ i. record i { status = some "done"; updated_at = some now }) r)

  unfoldable pub nack : String → String → ℕ → R → R
  nack id reason now r =
      let attempts = attempts_of (server.hgetall id r) + 1 in
      if leb max_attempts attempts
      then server.sadd id (
          server.zrem id (
            server.hset id
              (λ i. record i {
                status = some "dead";
                attempts = some attempts;
                last_error = some reason;
                updated_at = some now;
              })
              r))
      else server.lpush id (
          server.zrem id (
            server.hset id
              (λ i. record i {
                status = some "pending";
                attempts = some attempts;
                last_error = some reason;
                updated_at = some now;
                claim_token = some "";
                claimed_at = none;
              })
              r))

  unfoldable pub dead_letter : String → ℕ → R → R
  dead_letter id now r = server.sadd id (
      server.zrem id
        (server.hset id (λ i. record i { status = some "dead"; updated_at = some now }) r))

  -- The counts of pending, claimed and dead items.
  pub counts : R → ℕ × ℕ × ℕ
  counts r = (server.llen r, server.zcard r, server.scard r)

  abbrev pub release_item : ℕ → Item P → Item P
  release_item now i = record i {
    status = some "pending";
    claim_token = some "";
    claimed_at = none;
    updated_at = some now;
  }

  -- The loop over the stale ids, with the clock reading of each turn.
  unfoldable pub release_all : (ℕ → ℕ) → ℕ → List String → R → R
  release_all clock turn [] r = r
  release_all clock turn (id ∷ ids) r =
      release_all clock (turn + 1) ids
        (server.lpush id (server.zrem id (server.hset id (release_item (clock turn)) r)))

  unfoldable pub reclaim_stale : ℕ → ℕ → (ℕ → ℕ) → R → ℕ × R
  unfolding release_all
  reclaim_stale older_than_seconds now clock r =
      let stale_ids = server.zrangebyscore (now - older_than_seconds) r in
      (length stale_ids, release_all clock 0 stale_ids r)
