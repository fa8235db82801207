-- ===== src/Queue/Redis/Orphan.antt =====
-- A worker that dies inside `RedisQueue.dequeue`, after RPOP and before the pipeline.
use browser_agent.Common.{
  ℕ, ◌+◌, ◌-◌, String, ◌≡◌, refl, sym, subst, ◌∙◌, none, some, List, [], ◌∷◌,
}
use browser_agent.Queue.Redis.Commands.{Server, Documented, init}
use browser_agent.Queue.Redis.{release_all, reclaim_stale}
use browser_agent.Queue.Redis.Ids.{Absent, NoDup, NoDup-snoc}
use browser_agent.Queue.Redis.Reads.{last-some}

module _ {P R : Type 0} (server : Server P R) (doc : Documented server) (max_attempts : ℕ)
    (no_payload : P) where
  -- The calls of the reaper, each with its age, its clock and the clock readings of its turns.
  pub reclaim_all : List (ℕ × ℕ × (ℕ → ℕ)) → R → R
  reclaim_all [] r = r
  reclaim_all ((older_than_seconds, now, clock) ∷ calls) r =
      reclaim_all calls
        (reclaim_stale server max_attempts no_payload older_than_seconds now clock r).1

  abbrev pub Gone : String → R → Type 0
  Gone id r = Absent id (server.lrange r) × (server.zscore id r ≡ none)

  release_all-Gone :
      (id : String) (clock : ℕ → ℕ) (turn : ℕ) (ids : List String) (r : R)
      → Absent id ids
      → Gone id r
      → Gone id (release_all server max_attempts no_payload clock turn ids r)
  unfolding release_all
  release_all-Gone id clock turn [] r a g = g
  release_all-Gone id clock turn (k ∷ ids) r a g = release_all-Gone id clock (turn + 1) ids _ a.1 (
    rw (doc.lrange-lpush, doc.lrange-zrem, doc.lrange-hset) (a.0, g.0),
    rw (doc.zscore-lpush, doc.zscore-zrem, doc.zscore-hset, g.1, a.0) refl,
  )

  reclaim_all-Gone :
      (id : String) (calls : List (ℕ × ℕ × (ℕ → ℕ))) (r : R)
      → Gone id r
      → Gone id (reclaim_all calls r)
  unfolding reclaim_all reclaim_stale
  reclaim_all-Gone id [] r g = g
  reclaim_all-Gone id ((older_than_seconds, now, clock) ∷ calls) r g = reclaim_all-Gone id calls _ (
      release_all-Gone id clock 0 (server.zrangebyscore (now - older_than_seconds) r) r
        (doc.zrangebyscore-zscore id (now - older_than_seconds) r g.1) g)

  -- If no id is pending twice and a worker dies after RPOP took an id that was not claimed, and before
  -- the pipeline, no sequence of reclaim_stale calls makes the id pending or claimed again.
  pub popped-Gone :
      (id : String) (calls : List (ℕ × ℕ × (ℕ → ℕ))) (r : R)
      → NoDup (server.lrange r)
      → (server.rpop r).0 ≡ some id
      → server.zscore id r ≡ none
      → Gone id (reclaim_all calls (server.rpop r).1)
  popped-Gone id calls r d e z =
      let before = last-some (server.lrange r) id (sym (doc.rpop-last r) ∙ e) in
      reclaim_all-Gone id calls _ (
        rw doc.lrange-rpop (NoDup-snoc (init (server.lrange r)) id (subst NoDup before d)).1,
        doc.zscore-rpop id r ∙ z,
      )
