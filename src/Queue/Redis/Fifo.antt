-- ===== src/Queue/Redis/Fifo.antt =====
-- The order in which `RedisQueue` hands out its items.
use browser_agent.Common.{
  ℕ, zero, suc, String, ◌≡◌, refl, ap, ◌∙◌, sym, none, some, List, [], ◌∷◌, ◌++◌, map, length,
  arith, Option-cases, inl, inr,
}
use mathlib.Core.List.{append-nil, append_assoc}
use browser_agent.Queue.Redis.Commands.{Server, Documented, last, init}
use browser_agent.Queue.Redis.{enqueue, dequeue}
use browser_agent.Queue.Redis.Reads.{dequeue-Popped, dequeue-none}

abbrev rev : List String → List String
rev [] = []
rev (x ∷ xs) = rev xs ++ x ∷ []

last-snoc : (xs : List String) (x : String) → last (xs ++ x ∷ []) ≡ some x
last-snoc [] x = refl
last-snoc (y ∷ []) x = refl
last-snoc (y ∷ z ∷ xs) x = last-snoc (z ∷ xs) x

init-snoc : (xs : List String) (x : String) → init (xs ++ x ∷ []) ≡ xs
init-snoc [] x = refl
init-snoc (y ∷ []) x = refl
init-snoc (y ∷ z ∷ xs) x = ap (λ r. y ∷ r) (init-snoc (z ∷ xs) x)

module _ {P R : Type 0} (server : Server P R) (doc : Documented server) (max_attempts : ℕ)
    (no_payload : P) where
  -- Payloads put in under the uuids that are drawn for them.
  pub put_all : List (P × String) → ℕ → R → R
  put_all [] now r = r
  put_all ((payload, fresh) ∷ items) now r =
      put_all items now (enqueue server max_attempts no_payload none payload fresh now r).1

  -- The ids that so many calls of `dequeue` hand out.
  pub take_all : ℕ → String → ℕ → R → List String
  take_all zero t now r = []
  take_all (suc n) t now r =
      let (job, r') = dequeue server max_attempts no_payload t now now r in
      let rest = take_all n t now r' in elim job [ none ↦ rest | some j ↦ j.item_id ∷ rest ]

  lrange-put_all :
      (items : List (P × String)) (now : ℕ) (r : R)
      → server.lrange (put_all items now r) ≡ rev (map (λ i. i.1) items) ++ server.lrange r
  unfolding put_all enqueue
  lrange-put_all [] now r = refl
  lrange-put_all ((payload, fresh) ∷ items) now r =
      lrange-put_all items now _
      ∙ rw (doc.lrange-lpush, doc.lrange-hset)
          (sym (append_assoc (rev (map (λ i. i.1) items)) (fresh ∷ []) (server.lrange r)))

  take_all-rev :
      (ids : List String) (t : String) (now : ℕ) (r : R)
      → server.lrange r ≡ rev ids
      → take_all (length ids) t now r ≡ ids
  unfolding take_all
  take_all-rev [] t now r e = refl
  take_all-rev (id ∷ ids) t now r e =
      elim (Option-cases (dequeue server max_attempts no_payload t now now r).0) [
        | inl f ↦ absurd ground (
          arith,
          sym (last-snoc (rev ids) id)
              ∙ ap last (sym e ∙ (dequeue-none server doc max_attempts no_payload t now now r f).0),
        )
        | inr (j, f) ↦
            let (final, after, _, _) =
              dequeue-Popped server doc max_attempts no_payload t now now r j f in
            let same : id ≡ j.item_id =
              ground (arith, sym (last-snoc (rev ids) id) ∙ ap last (sym e) ∙ final) in
            rw (f, take_all)
              (ap (λ l. j.item_id ∷ l)
                  (take_all-rev ids t now _ (after ∙ ap init e ∙ init-snoc (rev ids) id))
                ∙ ap (λ x. x ∷ ids) (sym same))
      ]

  -- Over any server that keeps to the documentation, items that were put into an empty queue are handed
  -- out in the order in which they were put in.
  pub take_all-put_all :
      (items : List (P × String)) (t : String) (m n : ℕ) (r : R)
      → server.lrange r ≡ []
      → take_all (length (map (λ i. i.1) items)) t n (put_all items m r) ≡ map (λ i. i.1) items
  take_all-put_all items t m n r e =
      take_all-rev (map (λ i. i.1) items) t n (put_all items m r)
        (lrange-put_all items m r ∙ rw e (append-nil (rev (map (λ i. i.1) items))))
