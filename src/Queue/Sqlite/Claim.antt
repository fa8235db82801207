-- ===== src/Queue/Sqlite/Claim.antt =====
-- What a claim of `SqliteQueue.dequeue` is.
use browser_agent.Common.{
  ℕ, String, ◌≡◌, refl, true, false, Option, none, some, arith, eq_iff, str_eq, if◌then◌else◌, All,
}
use browser_agent.Queue.{Job}
use browser_agent.Queue.Sqlite.{Queue, Row, fetch, oldest, is_pending, dequeue, claim, job_of}
use browser_agent.Queue.Sqlite.Rows.{fetch-update}
use browser_agent.Queue.Sqlite.Invariant.{IsValid}
use browser_agent.Queue.Sqlite.Oldest.{NoneOlder, Picked, oldest-Picked}

module _ {P : Type 0} where
  -- The result of a `dequeue` against the table before it and after it.
  abbrev pub Claims : String → ℕ → ℕ → Queue P → Option (Job P) → Queue P → Type 0
  Claims token at updated q none q' = All (λ r. is_pending r.status ≡ false) q.rows × (q' ≡ q)
  Claims token at updated q (some j) q' =
      (s : Row P) × (fetch j.item_id q.rows ≡ some s)
      × (is_pending s.status ≡ true)
      × NoneOlder s.created_at q.rows
      × (j ≡ job_of token s)
      × ((k : String)
          → fetch k q'.rows
            ≡ (if str_eq j.item_id k then some (claim token at updated s) else fetch k q.rows))

  -- On a valid table `dequeue` returns None and changes nothing if no row is pending. Otherwise it
  -- returns the payload, id and attempts of a pending row, under the new token, such that no
  -- pending row is older; that row is claimed under the token, and no other row changes.
  pub dequeue-Claims :
      (token : String) (at updated : ℕ) (q : Queue P)
      → IsValid q
      → Claims token at updated q (dequeue token at updated q).0 (dequeue token at updated q).1
  unfolding dequeue
  dequeue-Claims token at updated q v = go (oldest q.rows) refl (oldest-Picked q.rows v.distinct)
    where
      go :
          (o : Option (Row P))
          → oldest q.rows ≡ o
          → Picked q.rows o
          → Claims token at updated q (dequeue token at updated q).0 (dequeue token at updated q).1
      go none e p = rw (e, dequeue) (p, refl)
      go (some s) e p =
          rw (e, dequeue)
            (
              s,
              p.1,
              p.0,
              p.2,
              refl,
              λ k. ground (
                arith,
                fetch-update s.item_id k (claim token at updated) q.rows (λ r. refl),
                eq_iff s.item_id k,
                p.1,
              ),
            )
