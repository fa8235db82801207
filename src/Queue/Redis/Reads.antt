-- ===== src/Queue/Redis/Reads.antt =====
-- What the operations of `RedisQueue` leave for the reads: the list of pending ids, the attempts.
use browser_agent.Common.{
  ℕ, ◌+◌, String, ◌≡◌, refl, sym, ap, ◌∙◌, inl, inr, none, some, List, [], ◌∷◌, ◌++◌, arith, str_eq,
  str_eq_refl, if◌then◌else◌, leb, Bool-cases, Option-cases,
}
use browser_agent.Queue.{Job}
use browser_agent.Queue.Redis.Commands.{Server, Documented, last, init}
use browser_agent.Queue.Redis.{attempts_of, dequeue, ack, nack, dead_letter}

-- The last element closes the list.
pub last-some : {A : Type 0} (xs : List A) (x : A) → last xs ≡ some x → xs ≡ init xs ++ x ∷ []
last-some [] x e = cc
last-some (y ∷ []) x e = cc
last-some (y ∷ z ∷ xs) x e = ap (λ r. y ∷ r) (last-some (z ∷ xs) x e)

pub last-none : {A : Type 0} (xs : List A) → last xs ≡ none → xs ≡ []
last-none [] e = refl
last-none (y ∷ []) e = cc
last-none (y ∷ z ∷ xs) e = absurd (ground (arith, last-none (z ∷ xs) e))

module _ {P R : Type 0} (server : Server P R) (doc : Documented server) (max_attempts : ℕ)
    (no_payload : P) where
  pub dequeue-none :
      (t : String) (m n : ℕ) (r : R)
      → (dequeue server max_attempts no_payload t m n r).0 ≡ none
      → (server.lrange r ≡ [])
        × (server.lrange (dequeue server max_attempts no_payload t m n r).1 ≡ [])
  unfolding dequeue
  dequeue-none t m n r e = elim (Option-cases (server.rpop r).0) [
    | inl f ↦ (
      last-none (server.lrange r) (sym (doc.rpop-last r) ∙ f),
      rw (f, dequeue, doc.lrange-rpop, last-none (server.lrange r) (sym (doc.rpop-last r) ∙ f))
          refl,
    )
    | inr (id, f) ↦ absurd ground (arith, f, e)
  ]

  -- A job that is handed out was the last of the pending ids.
  abbrev pub Popped : String → ℕ → ℕ → R → Job P → Type 0
  Popped t m n r j =
      let r' = (dequeue server max_attempts no_payload t m n r).1 in
      (last (server.lrange r) ≡ some j.item_id)
      × (server.lrange r' ≡ init (server.lrange r))
      × ((k : String) → attempts_of (server.hgetall k r') ≡ attempts_of (server.hgetall k r))
      × (server.zscore j.item_id r' ≡ some n)

  pub dequeue-Popped :
      (t : String) (m n : ℕ) (r : R) (j : Job P)
      → (dequeue server max_attempts no_payload t m n r).0 ≡ some j
      → Popped t m n r j
  unfolding dequeue
  dequeue-Popped t m n r j e = elim (Option-cases (server.rpop r).0) [
    | inl f ↦ absurd ground (arith, f, e)
    | inr (id, f) ↦
        let same : id ≡ j.item_id = ground (arith, f, e) in
        (
          sym (doc.rpop-last r) ∙ f ∙ ap some same,
          rw (f, dequeue, doc.lrange-zadd, doc.lrange-hset, doc.lrange-rpop) refl,
          λ k. rw (f, dequeue, doc.hgetall-zadd, doc.hgetall-hset, doc.hgetall-rpop) (ground arith),
          rw (f, dequeue, doc.zscore-zadd, same, str_eq_refl) refl,
        )
  ]

  pub ack-reads :
      (id : String) (n : ℕ) (r : R)
      → (server.lrange (ack server max_attempts no_payload id n r) ≡ server.lrange r)
        × ((k : String)
            → attempts_of (server.hgetall k (ack server max_attempts no_payload id n r))
              ≡ attempts_of (server.hgetall k r))
  unfolding ack
  ack-reads id n r = (
    rw (doc.lrange-zrem, doc.lrange-hset) refl,
    λ k. rw (doc.hgetall-zrem, doc.hgetall-hset) (ground arith),
  )

  pub dead_letter-reads :
      (id : String) (n : ℕ) (r : R)
      → (server.lrange (dead_letter server max_attempts no_payload id n r) ≡ server.lrange r)
        × ((k : String)
            → attempts_of (server.hgetall k (dead_letter server max_attempts no_payload id n r))
              ≡ attempts_of (server.hgetall k r))
  unfolding dead_letter
  dead_letter-reads id n r = (
    rw (doc.lrange-sadd, doc.lrange-zrem, doc.lrange-hset) refl,
    λ k. rw (doc.hgetall-sadd, doc.hgetall-zrem, doc.hgetall-hset) (ground arith),
  )

  -- What `nack` does to the list and to the attempts.
  pub nack-reads :
      (id reason : String) (n : ℕ) (r : R)
      → (server.lrange (nack server max_attempts no_payload id reason n r) ≡ (
          if leb max_attempts (attempts_of (server.hgetall id r) + 1)
          then server.lrange r
          else id ∷ server.lrange r))
        × ((k : String)
            → attempts_of (server.hgetall k (nack server max_attempts no_payload id reason n r)) ≡ (
                if str_eq id k
                then attempts_of (server.hgetall id r) + 1
                else attempts_of (server.hgetall k r)))
  unfolding nack
  nack-reads id reason n r =
      elim (Bool-cases (leb max_attempts (attempts_of (server.hgetall id r) + 1))) [
        | inl e ↦ (
          rw (e, nack, doc.lrange-sadd, doc.lrange-zrem, doc.lrange-hset) refl,
          λ k. rw (e, nack, doc.hgetall-sadd, doc.hgetall-zrem, doc.hgetall-hset) (ground arith),
        )
        | inr e ↦ (
          rw (e, nack, doc.lrange-lpush, doc.lrange-zrem, doc.lrange-hset) refl,
          λ k. rw (e, nack, doc.hgetall-lpush, doc.hgetall-zrem, doc.hgetall-hset) (ground arith),
        )
      ]
