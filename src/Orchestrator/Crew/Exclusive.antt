-- ===== src/Orchestrator/Crew/Exclusive.antt =====
-- Two workers on one `SqliteQueue` never hold the same job.
use browser_agent.Common.{ℕ, zero, suc, Option, none, some, List, [], ◌∷◌, arith, All, eq_iff}
use browser_agent.Queue.{Job}
use browser_agent.Queue.Sqlite.{Queue}
use browser_agent.Queue.Sqlite.Invariant.{IsValid}
use browser_agent.Orchestrator.Worker.{Env, Shop}
use browser_agent.Orchestrator.Worker.OnSqlite.{sqlite}
use browser_agent.Orchestrator.Crew.{Phase, ready, workers, act, turn, turns}
use browser_agent.Orchestrator.Crew.Steps.{Owns, Differ, held, act-Steps}

module _ {P : Type 0} where
  -- No two workers hold the same item.
  abbrev pub Apart : List (Phase P) → Type 0
  Apart [] = Unit
  Apart (p ∷ ps) = All (λ r. Differ (held p) (held r)) ps × Apart ps

  pub record Exclusive (q : Queue P) (ps : List (Phase P)) : Type 0 where
    pub valid : IsValid q
    pub owns : All (Owns q) ps
    pub apart : Apart ps

  Differ-sym : (a b : Option (Job P)) → Differ a b → Differ b a
  Differ-sym none none d = tt
  Differ-sym none (some j) d = tt
  Differ-sym (some i) none d = tt
  Differ-sym (some i) (some j) d =
      ground (arith, d, eq_iff i.item_id j.item_id, eq_iff j.item_id i.item_id)

  others-All :
      (p p' : Phase P) (q q' : Queue P) (ps : List (Phase P))
      → ((r : Phase P)
          → Owns q r
          → Differ (held p) (held r)
          → Owns q' r × Differ (held p') (held r))
      → All (Owns q) ps
      → All (λ r. Differ (held p) (held r)) ps
      → All (Owns q') ps × All (λ r. Differ (held p') (held r)) ps
  others-All p p' q q' [] f o d = (tt, tt)
  others-All p p' q q' (r ∷ ps) f o d =
      let (a, b) = f r o.0 d.0 in
      let (os, ds) = others-All p p' q q' ps f o.1 d.1 in ((a, os), (b, ds))

  workers-Owns : (n : ℕ) (q : Queue P) → All (Owns q) (workers n)
  workers-Owns zero q = tt
  workers-Owns (suc n) q = (tt, workers-Owns n q)

workers-Differ :
    (P : Type 0) (n : ℕ) → All (λ r. Differ (held {P = P} ready) (held r)) (workers {P = P} n)
workers-Differ P zero = tt
workers-Differ P (suc n) = (tt, workers-Differ P n)

workers-Apart : (P : Type 0) (n : ℕ) → Apart (workers {P = P} n)
workers-Apart P zero = tt
workers-Apart P (suc n) = (workers-Differ P n, workers-Apart P n)

module _ {P W : Type 0} (env : Env P W) where
  -- A turn of one of the workers in `ps`, for these and for any other worker.
  abbrev Turned : Queue P → List (Phase P) → Queue P → List (Phase P) → Type 0
  Turned q ps q' ps' =
      Exclusive q' ps'
      × ((r : Phase P)
          → Owns q r
          → All (λ p. Differ (held r) (held p)) ps
          → Owns q' r × All (λ p. Differ (held r) (held p)) ps')

  turn-Turned :
      (i : ℕ) (ps : List (Phase P)) (s : Shop (Queue P) W)
      → Exclusive s.queue ps
      → Turned s.queue ps (turn sqlite env i ps s).1.queue (turn sqlite env i ps s).0
  unfolding turn
  turn-Turned i [] s x = (x, λ r own d. (own, d))
  turn-Turned zero (p ∷ ps) s x =
      let (v, own, others) = act-Steps env p s x.valid x.owns.0 in
      let (os, ds) =
        others-All p (act sqlite env p s).0 s.queue (act sqlite env p s).1.queue ps others x.owns.1
          x.apart.0 in
      (
        record { valid = v; owns = (own, os); apart = (ds, x.apart.1) },
        λ r o d.
            let (o', d') = others r o (Differ-sym (held r) (held p) d.0) in
            (o', (Differ-sym _ (held r) d', d.1)),
      )
  turn-Turned (suc i) (p ∷ ps) s x =
      let (y, f) =
        turn-Turned i ps s (record { valid = x.valid; owns = x.owns.1; apart = x.apart.1 }) in
      let (o, d) = f p x.owns.0 x.apart.0 in
      (
        record { valid = y.valid; owns = (o, y.owns); apart = (d, y.apart) },
        λ r own ds. let (o', d') = f r own ds.1 in (o', (ds.0, d')),
      )

  pub turn-Exclusive :
      (i : ℕ) (ps : List (Phase P)) (s : Shop (Queue P) W)
      → Exclusive s.queue ps
      → Exclusive (turn sqlite env i ps s).1.queue (turn sqlite env i ps s).0
  turn-Exclusive i ps s x = (turn-Turned i ps s x).0

  pub turns-Exclusive :
      (schedule : List ℕ) (ps : List (Phase P)) (s : Shop (Queue P) W)
      → Exclusive s.queue ps
      → Exclusive (turns sqlite env schedule ps s).1.queue (turns sqlite env schedule ps s).0
  unfolding turns
  turns-Exclusive [] ps s x = x
  turns-Exclusive (i ∷ schedule) ps s x =
      turns-Exclusive schedule (turn sqlite env i ps s).0 (turn sqlite env i ps s).1
        (turn-Exclusive i ps s x)

pub start-Exclusive : {P : Type 0} (n : ℕ) (q : Queue P) → IsValid q → Exclusive q (workers n)
start-Exclusive n q v = record { valid = v; owns = workers-Owns n q; apart = workers-Apart _ n }

-- Workers that start on a valid table take turns in any order, and their jobs end in any way: at each
-- moment no two of them hold the same item, and the job of each is claimed in the table under the
-- token that the worker got.
pub workers-Exclusive :
    {P W : Type 0} (env : Env P W) (n : ℕ) (schedule : List ℕ) (s : Shop (Queue P) W)
    → IsValid s.queue
    → Exclusive
        (turns sqlite env schedule (workers n) s).1.queue
        (turns sqlite env schedule (workers n) s).0
workers-Exclusive env n schedule s v =
    turns-Exclusive env schedule (workers n) s (start-Exclusive n s.queue v)
