-- ===== src/Tests/Crew.antt =====
-- Two workers on a queue with two jobs.
use browser_agent.Common.{ℕ, zero, suc, refl, List, [], ◌∷◌, arith, All}
use browser_agent.Orchestrator.Worker.OnSqlite.{sqlite}
use browser_agent.Orchestrator.Crew.{workers, turns, Visits}
use browser_agent.Orchestrator.Crew.Exclusive.{Exclusive, workers-Exclusive}
use browser_agent.Tests.Work.{env, shop, two_jobs-IsValid}

abbrev schedule : List ℕ
schedule = 0 ∷ 1 ∷ 1 ∷ 0 ∷ 1 ∷ []

workers-Exclusive_example :
    Exclusive
      (turns sqlite env schedule (workers 2) shop).1.queue
      (turns sqlite env schedule (workers 2) shop).0
workers-Exclusive_example = workers-Exclusive env 2 schedule shop two_jobs-IsValid

-- The second worker has a turn before the first.
abbrev pub round : List ℕ
round = 1 ∷ 0 ∷ []

abbrev pub many : ℕ → List (List ℕ)
many zero = []
many (suc n) = round ∷ many n

round-Visits : Visits 2 round
round-Visits zero h = refl
round-Visits (suc zero) h = refl
round-Visits (suc (suc k)) h = absurd omega (arith, h)

pub many-Visit : (n : ℕ) → All (Visits 2) (many n)
many-Visit zero = tt
many-Visit (suc n) = (round-Visits, many-Visit n)
