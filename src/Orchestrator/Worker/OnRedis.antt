-- ===== src/Orchestrator/Worker/OnRedis.antt =====
-- `RedisQueue` as the task queue of the workers.
use browser_agent.Common.{
  ℕ, ◌+◌, ◌-◌, ◌<◌, String, ◌≡◌, refl, subst, ◌∙◌, inl, inr, ◌⊎◌, true, false, Option, none, some,
  List, [], ◌∷◌, ◌++◌, All, arith, str_eq, str_eq_refl, eq_iff, leb, Bool-cases, Option-cases,
}
use browser_agent.Queue.{Job}
use browser_agent.Queue.Redis.Commands.{Server, Documented, init}
use browser_agent.Queue.Redis.{attempts_of, dequeue, ack, nack, dead_letter}
use browser_agent.Queue.Redis.Ids.{
  Absent, NoDup, NoDup-snoc, All-snoc, All-Absent, sum, sum-snoc, sum-Absent,
}
use browser_agent.Queue.Redis.Reads.{
  last-some, dequeue-none, dequeue-Popped, ack-reads, dead_letter-reads, nack-reads,
}
use browser_agent.Orchestrator.Worker.{TaskQueue, Laws, Env, Shop, worker}
use browser_agent.Orchestrator.Worker.Drain.{Drained, worker-Drained}

module _ {P R : Type 0} (server : Server P R) (doc : Documented server) (max_attempts : ℕ)
    (no_payload : P) where
  abbrev pub redis : TaskQueue P R
  redis = record {
    dequeue = dequeue server max_attempts no_payload;
    ack = ack server max_attempts no_payload;
    nack = nack server max_attempts no_payload;
  }

  abbrev tried : R → String → ℕ
  tried r k = attempts_of (server.hgetall k r)

  -- No id is pending twice, and each has attempts left.
  pub record IsValid (r : R) : Type 0 where
    pub distinct : NoDup (server.lrange r)
    pub attempts_left : All (λ k. tried r k < max_attempts) (server.lrange r)

  abbrev pub work : R → ℕ
  work r = sum (λ k. max_attempts - tried r k) (server.lrange r)

  -- The list and the attempts around a job that was handed out.
  record Held (t : String) (m n : ℕ) (r : R) (j : Job P) : Type 0 where
    rest : List String
    lrange_before : server.lrange r ≡ rest ++ j.item_id ∷ []
    lrange_after : server.lrange (redis.dequeue t m n r).1 ≡ rest
    tried_same : (k : String) → tried (redis.dequeue t m n r).1 k ≡ tried r k
    distinct : NoDup rest
    absent : Absent j.item_id rest
    rest_left : All (λ k. tried r k < max_attempts) rest
    job_left : tried r j.item_id < max_attempts

  dequeue-Held :
      (t : String) (m n : ℕ) (r : R) (j : Job P)
      → IsValid r
      → (redis.dequeue t m n r).0 ≡ some j
      → Held t m n r j
  dequeue-Held t m n r j v e =
      let (final, after, same, _) = dequeue-Popped server doc max_attempts no_payload t m n r j e in
      let before = last-some (server.lrange r) j.item_id final in
      let (d, a) = NoDup-snoc (init (server.lrange r)) j.item_id (subst NoDup before v.distinct) in
      let (x, y) =
        All-snoc (λ k. tried r k < max_attempts) (init (server.lrange r)) j.item_id
          (subst (All (λ k. tried r k < max_attempts)) before v.attempts_left) in
      record {
        rest = init (server.lrange r);
        lrange_before = before;
        lrange_after = after;
        tried_same = same;
        distinct = d;
        absent = a;
        rest_left = x;
        job_left = y;
      }

  work_before :
      (t : String) (m n : ℕ) (r : R) (j : Job P) (h : Held t m n r j)
      → work r ≡ sum (λ k. max_attempts - tried r k) h.rest + (max_attempts - tried r j.item_id)
  work_before t m n r j h =
      rw h.lrange_before (sum-snoc (λ k. max_attempts - tried r k) h.rest j.item_id)

  -- A valid table by its list and its attempts.
  by_list :
      (r r' : R) (ks : List String)
      → server.lrange r' ≡ ks
      → NoDup ks
      → All (λ k. tried r' k < max_attempts) ks
      → IsValid r'
  by_list r r' ks e d a = record { distinct = rw e d; attempts_left = rw e a }

  settled-work :
      (t : String) (m n : ℕ) (r r' : R) (j : Job P) (h : Held t m n r j)
      → server.lrange r' ≡ h.rest
      → ((k : String) → str_eq k j.item_id ≡ false → tried r' k ≡ tried r k)
      → IsValid r' × (work r' < work r)
  settled-work t m n r r' j h e f = (
    by_list r r' h.rest e h.distinct (
        All-Absent (λ k. tried r k < max_attempts) (λ k. tried r' k < max_attempts) j.item_id h.rest
          h.absent (λ k ne p. omega (arith, f k ne, p)) h.rest_left),
    rw e (
        omega (
          arith,
          work_before t m n r j h,
          sum-Absent (λ k. max_attempts - tried r' k) (λ k. max_attempts - tried r k) j.item_id
              h.rest h.absent (λ k ne. omega (arith, f k ne)),
          h.job_left,
        )),
  )

  returned-work :
      (t : String) (m n : ℕ) (r r' : R) (j : Job P) (h : Held t m n r j)
      → server.lrange r' ≡ j.item_id ∷ h.rest
      → ((k : String) → str_eq k j.item_id ≡ false → tried r' k ≡ tried r k)
      → tried r' j.item_id ≡ tried r j.item_id + 1
      → tried r' j.item_id < max_attempts
      → IsValid r' × (work r' < work r)
  unfolding sum
  returned-work t m n r r' j h e f g p = (
    by_list r r' (j.item_id ∷ h.rest) e (h.absent, h.distinct)
        (
          p,
          All-Absent (λ k. tried r k < max_attempts) (λ k. tried r' k < max_attempts) j.item_id
              h.rest h.absent (λ k ne q. omega (arith, f k ne, q)) h.rest_left,
        ),
    rw e (
        omega (
          arith,
          work_before t m n r j h,
          sum-Absent (λ k. max_attempts - tried r' k) (λ k. max_attempts - tried r k) j.item_id
              h.rest h.absent (λ k ne. omega (arith, f k ne)),
          h.job_left,
          g,
        )),
  )

  pub ack-settles :
      (t : String) (m n k : ℕ) (j : Job P) (r : R)
      → IsValid r
      → (redis.dequeue t m n r).0 ≡ some j
      → IsValid (redis.ack j.item_id k (redis.dequeue t m n r).1)
        × (work (redis.ack j.item_id k (redis.dequeue t m n r).1) < work r)
  ack-settles t m n k j r v e =
      let h = dequeue-Held t m n r j v e in
      let (a, b) =
        ack-reads server doc max_attempts no_payload j.item_id k (redis.dequeue t m n r).1 in
      settled-work t m n r _ j h (a ∙ h.lrange_after) (λ i ne. b i ∙ h.tried_same i)

  pub dead_letter-settles :
      (t : String) (m n k : ℕ) (j : Job P) (r : R)
      → IsValid r
      → (redis.dequeue t m n r).0 ≡ some j
      → IsValid (dead_letter server max_attempts no_payload j.item_id k (redis.dequeue t m n r).1)
        × (work (dead_letter server max_attempts no_payload j.item_id k (redis.dequeue t m n r).1)
            < work r)
  dead_letter-settles t m n k j r v e =
      let h = dequeue-Held t m n r j v e in
      let (a, b) =
        dead_letter-reads server doc max_attempts no_payload j.item_id k
          (redis.dequeue t m n r).1 in
      settled-work t m n r _ j h (a ∙ h.lrange_after) (λ i ne. b i ∙ h.tried_same i)

  pub nack-settles :
      (t reason : String) (m n k : ℕ) (j : Job P) (r : R)
      → IsValid r
      → (redis.dequeue t m n r).0 ≡ some j
      → IsValid (redis.nack j.item_id reason k (redis.dequeue t m n r).1)
        × (work (redis.nack j.item_id reason k (redis.dequeue t m n r).1) < work r)
  nack-settles t reason m n k j r v e =
      let h = dequeue-Held t m n r j v e in
      let r' = (redis.dequeue t m n r).1 in
      let (a, b) = nack-reads server doc max_attempts no_payload j.item_id reason k r' in
      let others : ((i : String)
          → str_eq i j.item_id ≡ false
          → tried (redis.nack j.item_id reason k r') i ≡ tried r i) =
        λ i ne. ground (arith, b i, h.tried_same i, ne, eq_iff i j.item_id, eq_iff j.item_id i) in
      elim (Bool-cases (leb max_attempts (tried r' j.item_id + 1))) [
        | inl full ↦ settled-work t m n r _ j h (ground (arith, a, full, h.lrange_after)) others
        | inr more ↦
            returned-work t m n r _ j h (ground (arith, a, more, h.lrange_after)) others
              (ground (arith, b j.item_id, str_eq_refl j.item_id, h.tried_same j.item_id))
              (ground (arith, b j.item_id, str_eq_refl j.item_id, more))
      ]

  pub dequeue-IsValid :
      (t : String) (m n : ℕ) (r : R) → IsValid r → IsValid (redis.dequeue t m n r).1
  dequeue-IsValid t m n r v = elim (Option-cases (redis.dequeue t m n r).0) [
    | inl e ↦ by_list r _ [] (dequeue-none server doc max_attempts no_payload t m n r e).1 tt tt
    | inr (j, e) ↦
        let h = dequeue-Held t m n r j v e in
        by_list r _ h.rest h.lrange_after h.distinct (
          All-Absent (λ k. tried r k < max_attempts)
            (λ k. tried (redis.dequeue t m n r).1 k < max_attempts) j.item_id h.rest h.absent
            (λ k ne p. omega (arith, h.tried_same k, p)) h.rest_left)
  ]

  pub dequeue-empty :
      (t : String) (m n : ℕ) (r : R)
      → IsValid r
      → (redis.dequeue t m n r).0 ≡ none
      → work (redis.dequeue t m n r).1 ≡ 0
  unfolding sum
  dequeue-empty t m n r v e = rw (dequeue-none server doc max_attempts no_payload t m n r e).1 refl

  unfoldable pub redis_laws : Laws redis
  redis_laws = record {
    Valid = IsValid;
    work = work;
    dequeue-Valid = dequeue-IsValid;
    ack-Valid = λ t m n k j r v e. (ack-settles t m n k j r v e).0;
    nack-Valid = λ t reason m n k j r v e. (nack-settles t reason m n k j r v e).0;
    dequeue-work = dequeue-empty;
    ack-work = λ t m n k j r v e. (ack-settles t m n k j r v e).1;
    nack-work = λ t reason m n k j r v e. (nack-settles t reason m n k j r v e).1;
  }

  pub none_pending :
      (r : R) (ks : List String)
      → All (λ k. tried r k < max_attempts) ks
      → sum (λ k. max_attempts - tried r k) ks ≡ 0
      → ks ≡ []
  unfolding sum
  none_pending r [] a e = refl
  none_pending r (k ∷ ks) a e = absurd omega (arith, a.0, e)

  -- The loop has ended: the stop event is set, or no id is pending.
  abbrev pub Drains : {W : Type 0} → Env P W → Option (Shop R W) → Type 0
  Drains env none = ⊥
  Drains env (some s) =
      IsValid s.queue × ((env.stop_is_set s.world ≡ true) ⊎ (server.lrange s.queue ≡ []))

  -- A worker on a valid `RedisQueue`, over any server that keeps to the documentation, ends its loop
  -- after at most one job for each delivery that the pending ids can still have, however its jobs
  -- end and whatever they raise: the queue is valid then, and no id is pending unless the stop event
  -- is set.
  pub redis-worker-Drains :
      {W : Type 0} (env : Env P W) (fuel : ℕ) (s : Shop R W)
      → IsValid s.queue
      → work s.queue < fuel
      → Drains env (worker redis env fuel s)
  unfolding redis_laws
  redis-worker-Drains env fuel s v p =
      go (worker redis env fuel s) (worker-Drained redis redis_laws env fuel s v p)
    where
      go : (o : Option (Shop R _)) → Drained redis redis_laws env o → Drains env o
      go none d = absurd d
      go (some t) (valid, inl e) = (valid, inl e)
      go (some t) (valid, inr e) =
          (valid, inr (none_pending t.queue (server.lrange t.queue) valid.attempts_left e))
