-- ===== src/Orchestrator/AgentPool/OnRedis.antt =====
-- An agent of `run_agent_pool` on the global `RedisQueue`.
use browser_agent.Common.{ℕ, ◌<◌, String, ◌≡◌, inl, inr, ◌⊎◌, true, Option, []}
use browser_agent.Queue.Redis.Commands.{Server, Documented}
use browser_agent.Queue.Redis.{dead_letter}
use browser_agent.Orchestrator.Worker.{Env, Shop}
use browser_agent.Orchestrator.Worker.OnRedis.{
  redis, IsValid, work, redis_laws, dead_letter-settles, none_pending,
}
use browser_agent.Orchestrator.AgentPool.Polls.{PoolQueue, PoolLaws, polls, polls-Served}

module _ {P R : Type 0} (server : Server P R) (doc : Documented server) (max_attempts : ℕ)
    (no_payload : P) where
  abbrev pub global_queue : PoolQueue P R
  global_queue = record {
    tasks = redis server doc max_attempts no_payload;
    dead_letter = dead_letter server max_attempts no_payload;
  }

  unfoldable global_laws : PoolLaws global_queue
  unfolding redis_laws
  global_laws = record {
    laws = redis_laws server doc max_attempts no_payload;
    dead_letter-Valid = λ t m n k j r v e.
        (dead_letter-settles server doc max_attempts no_payload t m n k j r v e).0;
    dead_letter-work = λ t m n k j r v e.
        (dead_letter-settles server doc max_attempts no_payload t m n k j r v e).1;
  }

  -- An agent on a valid global queue that is polled more often than the pending jobs can still be
  -- delivered: no job is pending then unless the stop event is set, whatever the jobs do and however
  -- many of them name no run.
  pub polls-Drain :
      {W : Type 0} (run_id : P → Option String) (env : Env P W) (n processed : ℕ) (s : Shop R W)
      → IsValid server doc max_attempts no_payload s.queue
      → work server doc max_attempts no_payload s.queue < n
      → (env.stop_is_set (polls global_queue run_id env n (processed, s)).1.world ≡ true)
        ⊎ (server.lrange (polls global_queue run_id env n (processed, s)).1.queue ≡ [])
  unfolding global_laws redis_laws
  polls-Drain run_id env n processed s v p =
      let (valid, c) = polls-Served global_queue run_id global_laws env n processed s v (inr p) in
      elim c [
        | inl e ↦ inl e
        | inr e ↦ inr (none_pending server doc max_attempts no_payload _ _ valid.attempts_left e)
      ]
