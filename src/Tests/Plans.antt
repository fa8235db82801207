-- ===== src/Tests/Plans.antt =====
-- A plan that is written into after it was put in, and outlives its process.
use browser_agent.Common.{◌≡◌, refl, String, some, List, [], ◌∷◌}
use browser_agent.Agent.PlanCache.{
  holds, PlanText, PlanCache, Call, gets, puts, makes, writes, restarts, get, put, step, run,
}
use browser_agent.Agent.PlanCache.Kept.{NotRestart, Reads, get-run-put}
use browser_agent.Common.{All}

-- A plan is its own text.
abbrev codec : PlanText String
codec = record { dumps = λ plan. plan; loads = λ text. holds text }

abbrev plans : PlanCache String
plans = record { objects = "[1]" ∷ []; mem = []; files = [] }

abbrev later : List (Call String)
later = gets "b" ∷ makes "[2]" ∷ puts "b" 1 ∷ writes 0 "[3]" ∷ gets "a" ∷ []

get-run-put_example :
    (All NotRestart later → (get codec "a" (run codec later (put codec "a" 0 plans))).0 ≡ some 0)
    × Reads codec "a" "[1]" (step codec restarts (run codec later (put codec "a" 0 plans)))
get-run-put_example =
    get-run-put codec "a" 0 "[1]" "[1]" later plans (tt, (tt, (refl, (tt, (tt, tt))))) refl refl
