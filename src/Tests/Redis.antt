-- ===== src/Tests/Redis.antt =====
-- A Redis server in memory, for `RedisQueue`, and the theorems applied to it.
use browser_agent.Common.{
  true, ◌⊎◌, ℕ, String, ◌≡◌, refl, inl, inr, false, Option, none, some, List, [], ◌∷◌, arith,
  str_eq, eq_iff, leb, if◌then◌else◌, Bool-cases, length,
}
use browser_agent.Agent.Effect.{exception, raised}
use browser_agent.Queue.Redis.Commands.{Item, no_item, Server, Documented, last, init}
use browser_agent.Queue.Redis.Ids.{Absent}
use browser_agent.Queue.Redis.Fifo.{put_all, take_all, take_all-put_all}
use browser_agent.Queue.Redis.Orphan.{reclaim_all, Gone, popped-Gone}
use browser_agent.Orchestrator.Recorder.{resumed}
use browser_agent.Orchestrator.Worker.{Env, Shop, worker}
use browser_agent.Orchestrator.AgentPool.Polls.{polls}
use browser_agent.Orchestrator.AgentPool.OnRedis.{global_queue, polls-Drain}
use browser_agent.Orchestrator.Worker.OnRedis.{redis, IsValid, Drains, redis-worker-Drains}

-- The keys: the list, the hashes, the sorted set and the set.
record Memory : Type 0 where
  ids : List String
  item : String → Item ℕ
  claimed : List (String × ℕ)
  dead : List String

abbrev without : String → List (String × ℕ) → List (String × ℕ)
without k [] = []
without k ((j, n) ∷ xs) = let rest = without k xs in if str_eq k j then rest else (j, n) ∷ rest

abbrev score : String → List (String × ℕ) → Option ℕ
score k [] = none
score k ((j, n) ∷ xs) = let rest = score k xs in if str_eq j k then some n else rest

abbrev up_to : ℕ → List (String × ℕ) → List String
up_to cutoff [] = []
up_to cutoff ((j, n) ∷ xs) = let rest = up_to cutoff xs in if leb n cutoff then j ∷ rest else rest

abbrev server : Server ℕ Memory
server = record {
  hset = λ k f r. record r { item = λ j. if str_eq k j then f (r.item j) else r.item j };
  hgetall = λ k r. r.item k;
  lpush = λ k r. record r { ids = k ∷ r.ids };
  rpop = λ r. (last r.ids, record r { ids = init r.ids });
  lrange = λ r. r.ids;
  zadd = λ k n r. record r { claimed = (k, n) ∷ without k r.claimed };
  zrem = λ k r. record r { claimed = without k r.claimed };
  zscore = λ k r. score k r.claimed;
  zrangebyscore = λ cutoff r. up_to cutoff r.claimed;
  sadd = λ k r. record r { dead = k ∷ r.dead };
  llen = λ r. length r.ids;
  zcard = λ r. length r.claimed;
  scard = λ r. length r.dead;
}

score-without :
    (k j : String) (xs : List (String × ℕ))
    → score j (without k xs) ≡ (if str_eq k j then none else score j xs)
score-without k j [] = ground arith
score-without k j ((i, n) ∷ xs) =
    ground (arith, score-without k j xs, eq_iff k i, eq_iff k j, eq_iff i j)

score-zadd :
    (k j : String) (n : ℕ) (xs : List (String × ℕ))
    → score j ((k, n) ∷ without k xs) ≡ (if str_eq k j then some n else score j xs)
score-zadd k j n xs = ground (arith, score-without k j xs)

up_to-score :
    (k : String) (cutoff : ℕ) (xs : List (String × ℕ))
    → score k xs ≡ none
    → Absent k (up_to cutoff xs)
up_to-score k cutoff [] e = tt
up_to-score k cutoff ((j, n) ∷ xs) e = elim (Bool-cases (str_eq j k)) [
  | inl f ↦ absurd ground (arith, e, f)
  | inr f ↦
      let rest = up_to-score k cutoff xs (ground (arith, e, f)) in
      elim (Bool-cases (leb n cutoff)) [ inl g ↦ rw g (f, rest) | inr g ↦ rw g rest ]
]

documented : Documented server
documented = record {
  lrange-hset = λ k f r. refl;
  lrange-lpush = λ k r. refl;
  rpop-last = λ r. refl;
  lrange-rpop = λ r. refl;
  lrange-zadd = λ k n r. refl;
  lrange-zrem = λ k r. refl;
  lrange-sadd = λ k r. refl;
  hgetall-hset = λ k j f r. refl;
  hgetall-lpush = λ k j r. refl;
  hgetall-rpop = λ j r. refl;
  hgetall-zadd = λ k j n r. refl;
  hgetall-zrem = λ k j r. refl;
  hgetall-sadd = λ k j r. refl;
  zscore-hset = λ k j f r. refl;
  zscore-lpush = λ k j r. refl;
  zscore-rpop = λ j r. refl;
  zscore-zadd = λ k j n r. score-zadd k j n r.claimed;
  zscore-zrem = λ k j r. score-without k j r.claimed;
  zscore-sadd = λ k j r. refl;
  zrangebyscore-zscore = λ k cutoff r e. up_to-score k cutoff r.claimed e;
}

abbrev empty : Memory
empty = record { ids = []; item = λ k. no_item; claimed = []; dead = [] }

-- Two ids in the list; "a" is taken next.
abbrev two_items : Memory
two_items = record empty { ids = "b" ∷ "a" ∷ [] }

two_items-IsValid : IsValid server documented 3 0 two_items
two_items-IsValid = record {
  distinct = ((refl, tt), (tt, tt));
  attempts_left = (omega arith, (omega arith, tt));
}

-- A worker whose samples all raise.
abbrev env : Env ℕ (Unit {0})
env = record {
  stop_is_set = λ w. false;
  uuid = λ w. ("t", w);
  now = λ w. (100, w);
  run_one = λ job w. (raised (exception "TimeoutError"), w);
  describe = λ e. "TimeoutError: ";
}

abbrev shop : Shop Memory (Unit {0})
shop = record { queue = two_items; recorder = resumed []; world = tt }

redis-worker-Drains_example :
    Drains server documented 3 0 env (worker (redis server documented 3 0) env 7 shop)
unfolding browser_agent.Queue.Redis.Ids.sum
redis-worker-Drains_example =
    redis-worker-Drains server documented 3 0 env 7 shop two_items-IsValid (omega arith)

take_all-put_all_example :
    take_all server documented 3 0 2 "t" 50
      (put_all server documented 3 0 ((7, "u") ∷ (8, "v") ∷ []) 40 empty)
    ≡ "u" ∷ "v" ∷ []
take_all-put_all_example =
    take_all-put_all server documented 3 0 ((7, "u") ∷ (8, "v") ∷ []) "t" 40 50 empty refl

popped-Gone_example :
    Gone server documented 3 0 "a"
      (reclaim_all server documented 3 0 ((900, 2000, λ n. 2000) ∷ []) (server.rpop two_items).1)
popped-Gone_example =
    popped-Gone server documented 3 0 "a" ((900, 2000, λ n. 2000) ∷ []) two_items
      ((refl, tt), (tt, tt)) refl refl

-- Jobs that name no run.
polls-Drain_example :
    (env.stop_is_set
        (polls (global_queue server documented 3 0) (λ p. none) env 9 (0, shop)).1.world
      ≡ true)
    ⊎ (server.lrange
          (polls (global_queue server documented 3 0) (λ p. none) env 9 (0, shop)).1.queue
        ≡ [])
unfolding browser_agent.Queue.Redis.Ids.sum
polls-Drain_example =
    polls-Drain server documented 3 0 (λ p. none) env 9 0 shop two_items-IsValid (omega arith)
