-- ===== src/Queue/Redis/Commands.antt =====
-- The Redis server, which src/andera/queue/redis_queue.py sends its commands to: a parameter, with
-- what the documentation of each command says. The keys are those of one prefix: the list
-- `pending`, the hash of each item, the sorted set `claimed`, the set `dead`.
use browser_agent.Common.{
  ℕ, String, ◌≡◌, Option, none, some, List, [], ◌∷◌, All, false, str_eq, if◌then◌else◌,
}

-- The fields of an item's hash, where none is a field that is not set.
pub record Item (P : Type 0) : Type 0 where
  pub status : Option String
  pub payload_json : Option P
  pub attempts : Option ℕ
  pub claim_token : Option String
  pub claimed_at : Option ℕ
  pub last_error : Option String
  pub created_at : Option ℕ
  pub updated_at : Option ℕ

-- A key that does not exist.
abbrev pub no_item : {P : Type 0} → Item P
no_item = record {
  status = none;
  payload_json = none;
  attempts = none;
  claim_token = none;
  claimed_at = none;
  last_error = none;
  created_at = none;
  updated_at = none;
}

-- The element at the right end of a list, and the list without it.
abbrev pub last {ℓ} : {A : Type ℓ} → List A → Option A
last [] = none
last (x ∷ xs) = let rest = last xs in elim xs [ [] ↦ some x | _ ∷ _ ↦ rest ]

abbrev pub init {ℓ} : {A : Type ℓ} → List A → List A
init [] = []
init (x ∷ xs) = let rest = init xs in elim xs [ [] ↦ [] | _ ∷ _ ↦ x ∷ rest ]

pub record Server (P R : Type 0) : Type 0 where
  -- HSET, by the fields that it sets
  pub hset : String → (Item P → Item P) → R → R
  pub hgetall : String → R → Item P
  pub lpush : String → R → R
  pub rpop : R → Option String × R
  -- LRANGE 0 -1
  pub lrange : R → List String
  pub zadd : String → ℕ → R → R
  pub zrem : String → R → R
  pub zscore : String → R → Option ℕ
  -- ZRANGEBYSCORE from 0
  pub zrangebyscore : ℕ → R → List String
  pub sadd : String → R → R
  pub llen : R → ℕ
  pub zcard : R → ℕ
  pub scard : R → ℕ

-- What the commands that write leave for those that read.
pub record Documented {P R : Type 0} (s : Server P R) : Type 0 where
  pub lrange-hset :
      (k : String) (f : Item P → Item P) (r : R) → s.lrange (s.hset k f r) ≡ s.lrange r
  pub lrange-lpush : (k : String) (r : R) → s.lrange (s.lpush k r) ≡ k ∷ s.lrange r
  pub rpop-last : (r : R) → (s.rpop r).0 ≡ last (s.lrange r)
  pub lrange-rpop : (r : R) → s.lrange (s.rpop r).1 ≡ init (s.lrange r)
  pub lrange-zadd : (k : String) (n : ℕ) (r : R) → s.lrange (s.zadd k n r) ≡ s.lrange r
  pub lrange-zrem : (k : String) (r : R) → s.lrange (s.zrem k r) ≡ s.lrange r
  pub lrange-sadd : (k : String) (r : R) → s.lrange (s.sadd k r) ≡ s.lrange r
  pub hgetall-hset :
      (k j : String) (f : Item P → Item P) (r : R)
      → s.hgetall j (s.hset k f r) ≡ (if str_eq k j then f (s.hgetall j r) else s.hgetall j r)
  pub hgetall-lpush : (k j : String) (r : R) → s.hgetall j (s.lpush k r) ≡ s.hgetall j r
  pub hgetall-rpop : (j : String) (r : R) → s.hgetall j (s.rpop r).1 ≡ s.hgetall j r
  pub hgetall-zadd : (k j : String) (n : ℕ) (r : R) → s.hgetall j (s.zadd k n r) ≡ s.hgetall j r
  pub hgetall-zrem : (k j : String) (r : R) → s.hgetall j (s.zrem k r) ≡ s.hgetall j r
  pub hgetall-sadd : (k j : String) (r : R) → s.hgetall j (s.sadd k r) ≡ s.hgetall j r
  pub zscore-hset :
      (k j : String) (f : Item P → Item P) (r : R) → s.zscore j (s.hset k f r) ≡ s.zscore j r
  pub zscore-lpush : (k j : String) (r : R) → s.zscore j (s.lpush k r) ≡ s.zscore j r
  pub zscore-rpop : (j : String) (r : R) → s.zscore j (s.rpop r).1 ≡ s.zscore j r
  pub zscore-zadd :
      (k j : String) (n : ℕ) (r : R)
      → s.zscore j (s.zadd k n r) ≡ (if str_eq k j then some n else s.zscore j r)
  pub zscore-zrem :
      (k j : String) (r : R) → s.zscore j (s.zrem k r) ≡ (if str_eq k j then none else s.zscore j r)
  pub zscore-sadd : (k j : String) (r : R) → s.zscore j (s.sadd k r) ≡ s.zscore j r
  -- Only members are listed.
  pub zrangebyscore-zscore :
      (k : String) (cutoff : ℕ) (r : R)
      → s.zscore k r ≡ none
      → All (λ j. str_eq j k ≡ false) (s.zrangebyscore cutoff r)
