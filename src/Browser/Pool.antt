-- ===== src/Browser/Pool.antt =====
-- `BrowserPool` of src/andera/browser/pool.py. The semaphore is its counter; clients take turns, each up to
-- its next wait, and what Playwright does in a turn is its outcome. `setup` and `teardown` hold a lock, so
-- each is one step. Processes of Playwright and Chromium are counted as they start and end.
pub mod Bounded
use browser_agent.Common.{
  ℕ, zero, suc, ◌+◌, ◌-◌, Bool, true, false, Option, none, some, List, [], ◌∷◌, ltb, count_if,
  if◌then◌else◌,
}

pub record BrowserPool : Type 0 where
  pub concurrency : ℕ
  -- the counter of `_sem`
  pub sem : ℕ
  -- whether `_pw` and `_browser` are set
  pub pw : Bool
  pub browser : Bool
  -- the processes that run
  pub drivers : ℕ
  pub chromiums : ℕ

-- The constructor, which raises ValueError for a concurrency below 1.
unfoldable pub browser_pool : ℕ → Option BrowserPool
browser_pool concurrency =
    if ltb concurrency 1
    then none
    else some (record {
      concurrency = concurrency;
      sem = concurrency;
      pw = false;
      browser = false;
      drivers = 0;
      chromiums = 0;
    })

-- Which calls of Playwright succeed in a turn.
pub record Outcome : Type 0 where
  pub starts : Bool
  pub launches : Bool
  pub opens : Bool

-- `setup`: whether it returns. A driver that was started stays if the browser does not launch.
unfoldable pub setup : Outcome → BrowserPool → Bool × BrowserPool
setup o p =
    if p.browser
    then (true, p)
    else (if o.starts
        then (if o.launches
            then (
              true,
              record p {
                pw = true;
                browser = true;
                drivers = p.drivers + 1;
                chromiums = p.chromiums + 1;
              },
            )
            else (false, record p { pw = true; drivers = p.drivers + 1 }))
        else (false, p))

-- `teardown`, where a close or a stop that raises leaves its process.
unfoldable pub teardown : Bool → Bool → BrowserPool → BrowserPool
teardown closes stops p = record p {
  chromiums = if p.browser then (if closes then p.chromiums - 1 else p.chromiums) else p.chromiums;
  browser = false;
  drivers = if p.pw then (if stops then p.drivers - 1 else p.drivers) else p.drivers;
  pw = false;
}

-- Where a client stands in `acquire`.
pub data Phase : Type 0 where
  -- before or in `self._sem.acquire()`
  waiting : Phase
  -- past it
  admitted : Phase
  -- in `from_browser`
  opening : Phase
  -- at the `yield`
  inside : Phase
  -- past the `finally`
  left : Phase

-- `self._sem.release()`
abbrev pub release : BrowserPool → BrowserPool
release p = record p { sem = p.sem + 1 }

unfoldable pub turn : Outcome → Phase → BrowserPool → Phase × BrowserPool
unfolding setup
turn o waiting p = if ltb 0 p.sem then (admitted, record p { sem = p.sem - 1 }) else (waiting, p)
turn o admitted p =
    let (ready, p') = setup o p in if ready then (opening, p') else (left, release p')
turn o opening p = if o.opens then (inside, p) else (left, release p)
turn o inside p = (left, release p)
turn o left p = (left, p)

unfoldable pub turn_at : ℕ → Outcome → List Phase → BrowserPool → List Phase × BrowserPool
unfolding turn
turn_at i o [] p = ([], p)
turn_at zero o (c ∷ cs) p = let (c', p') = turn o c p in (c' ∷ cs, p')
turn_at (suc i) o (c ∷ cs) p = let (cs', p') = turn_at i o cs p in (c ∷ cs', p')

pub data Action : Type 0 where
  acts : ℕ → Outcome → Action
  comes : Action
  tears_down : Bool → Bool → Action

unfoldable pub step : Action → List Phase → BrowserPool → List Phase × BrowserPool
unfolding turn_at teardown
step (acts i o) cs p = turn_at i o cs p
step comes cs p = (waiting ∷ cs, p)
step (tears_down closes stops) cs p = (cs, teardown closes stops p)

unfoldable pub run : List Action → List Phase → BrowserPool → List Phase × BrowserPool
unfolding step
run [] cs p = (cs, p)
run (a ∷ actions) cs p = let (cs', p') = step a cs p in run actions cs' p'
