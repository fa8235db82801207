-- ===== src/Browser/Pool/Bounded.antt =====
-- How many sessions and browsers a pool has at once.
use browser_agent.Common.{
  ℕ, zero, suc, ◌+◌, ◌≤◌, ◌≡◌, refl, subst, Bool, true, false, some, List, [], ◌∷◌, count_if, arith,
  if◌then◌else◌,
}
use browser_agent.Browser.Pool.{
  BrowserPool, browser_pool, Outcome, setup, teardown, Phase, waiting, admitted, opening, inside,
  left, turn, turn_at, Action, acts, comes, tears_down, step, run,
}

-- Whether a client has a permit, and whether it has a session.
abbrev pub holds : Phase → Bool
holds waiting = false
holds left = false
holds _ = true

abbrev pub has_session : Phase → Bool
has_session inside = true
has_session _ = false

-- A browser that did not close.
abbrev pub lost : Action → Bool
lost (tears_down false stops) = true
lost _ = false

abbrev as_number : Bool → ℕ
as_number true = 1
as_number false = 0

abbrev pub holders : List Phase → ℕ
holders = count_if holds

-- No permit is lost, and no browser is launched beside another but one that did not close.
record Fits (concurrency gone : ℕ) (cs : List Phase) (p : BrowserPool) : Type 0 where
  permits : p.sem + holders cs ≡ concurrency
  browsers : p.chromiums ≤ as_number p.browser + gone

turn-permits :
    (o : Outcome) (c : Phase) (p : BrowserPool)
    → (turn o c p).1.sem + as_number (holds (turn o c p).0) ≡ p.sem + as_number (holds c)
unfolding turn setup
turn-permits o waiting p = ground arith
turn-permits o admitted p = ground arith
turn-permits o opening p = ground arith
turn-permits o inside p = ground arith
turn-permits o left p = ground arith

turn-browsers :
    (gone : ℕ) (o : Outcome) (c : Phase) (p : BrowserPool)
    → p.chromiums ≤ as_number p.browser + gone
    → (turn o c p).1.chromiums ≤ as_number (turn o c p).1.browser + gone
unfolding turn setup
turn-browsers gone o waiting p h = ground arith
turn-browsers gone o admitted p h = ground arith
turn-browsers gone o opening p h = ground arith
turn-browsers gone o inside p h = ground arith
turn-browsers gone o left p h = ground arith

turn_at-permits :
    (i : ℕ) (o : Outcome) (cs : List Phase) (p : BrowserPool)
    → (turn_at i o cs p).1.sem + holders (turn_at i o cs p).0 ≡ p.sem + holders cs
unfolding turn_at
turn_at-permits i o [] p = refl
turn_at-permits zero o (c ∷ cs) p = ground (arith, turn-permits o c p)
turn_at-permits (suc i) o (c ∷ cs) p = ground (arith, turn_at-permits i o cs p)

turn_at-browsers :
    (gone i : ℕ) (o : Outcome) (cs : List Phase) (p : BrowserPool)
    → p.chromiums ≤ as_number p.browser + gone
    → (turn_at i o cs p).1.chromiums ≤ as_number (turn_at i o cs p).1.browser + gone
unfolding turn_at
turn_at-browsers gone i o [] p h = h
turn_at-browsers gone zero o (c ∷ cs) p h = turn-browsers gone o c p h
turn_at-browsers gone (suc i) o (c ∷ cs) p h = turn_at-browsers gone i o cs p h

step-Fits :
    (a : Action) (n gone : ℕ) (cs : List Phase) (p : BrowserPool)
    → Fits n gone cs p
    → Fits n (gone + as_number (lost a)) (step a cs p).0 (step a cs p).1
unfolding step teardown
step-Fits (acts i o) n gone cs p f = record {
  permits = omega (arith, turn_at-permits i o cs p, f.permits);
  browsers = omega (arith, turn_at-browsers gone i o cs p f.browsers);
}
step-Fits comes n gone cs p f = record { permits = f.permits; browsers = omega (arith, f.browsers) }
step-Fits (tears_down true stops) n gone cs p f = record {
  permits = f.permits;
  browsers = ground (arith, f.browsers);
}
step-Fits (tears_down false stops) n gone cs p f = record {
  permits = f.permits;
  browsers = ground (arith, f.browsers);
}

run-Fits :
    (actions : List Action) (n gone : ℕ) (cs : List Phase) (p : BrowserPool)
    → Fits n gone cs p
    → Fits n (gone + count_if lost actions) (run actions cs p).0 (run actions cs p).1
unfolding run
run-Fits [] n gone cs p f = record { permits = f.permits; browsers = omega (arith, f.browsers) }
run-Fits (a ∷ actions) n gone cs p f =
    subst
      (λ k.
        Fits n k (run actions (step a cs p).0 (step a cs p).1).0
          (run actions (step a cs p).0 (step a cs p).1).1)
      (count (lost a))
      (run-Fits actions n (gone + as_number (lost a)) (step a cs p).0 (step a cs p).1
        (step-Fits a n gone cs p f))
  where
    count :
        (b : Bool)
        → gone + as_number b + count_if lost actions
          ≡ gone + (if b then suc (count_if lost actions) else count_if lost actions)
    count true = omega arith
    count false = omega arith

-- The clients with a session are among those with a permit.
sessions-le-holders : (cs : List Phase) → count_if has_session cs ≤ holders cs
sessions-le-holders [] = omega arith
sessions-le-holders (waiting ∷ cs) = sessions-le-holders cs
sessions-le-holders (left ∷ cs) = sessions-le-holders cs
sessions-le-holders (admitted ∷ cs) = omega (arith, sessions-le-holders cs)
sessions-le-holders (opening ∷ cs) = omega (arith, sessions-le-holders cs)
sessions-le-holders (inside ∷ cs) = omega (arith, sessions-le-holders cs)

flag_le : (b : Bool) → as_number b ≤ 1
flag_le true = omega arith
flag_le false = omega arith

-- Whatever clients come, in whatever order they take turns with the teardowns, and whatever of Playwright
-- fails, the permits that are free and those that clients hold are as many as the concurrency, no more
-- sessions than that are open, and one browser runs at most, besides those that did not close.
pub run-Bounded :
    (concurrency : ℕ) (p : BrowserPool) (actions : List Action)
    → browser_pool concurrency ≡ some p
    → ((run actions [] p).1.sem + holders (run actions [] p).0 ≡ concurrency)
      × (count_if has_session (run actions [] p).0 ≤ concurrency)
      × ((run actions [] p).1.chromiums ≤ 1 + count_if lost actions)
unfolding browser_pool
run-Bounded concurrency p actions made =
    let f = run-Fits actions concurrency 0 [] p (fresh made) in
    (
      f.permits,
      omega (arith, f.permits, sessions-le-holders (run actions [] p).0),
      omega (arith, f.browsers, flag_le (run actions [] p).1.browser),
    )
  where
    fresh : browser_pool concurrency ≡ some p → Fits concurrency 0 [] p
    fresh e = record { permits = ground (arith, e); browsers = ground (arith, e) }
