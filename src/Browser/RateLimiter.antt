-- ===== src/Browser/RateLimiter.antt =====
-- src/andera/browser/rate_limiter.py: `_HostBucket` and `HostRateLimiter`. A float is taken as the real
-- number that it stands for, as a whole number of small units: a token is `token` units, a rate is the
-- units that come in a tick of the monotonic clock, and a wait is the units that are still missing, to be
-- divided by the rate. The lock makes one round of the loop in `acquire` one step.
mod Credit
pub mod Bound
use browser_agent.Common.{
  ℕ, ◌+◌, ◌-◌, ◌*◌, min, max, String, Bool, true, false, Option, none, some, List, [], ◌∷◌, str_eq,
  ltb, leb, contains, if◌then◌else◌, Dict, lookup, insert,
}
use browser_agent.Agent.Effect.{Result, ok, raised}
use browser_agent.Credentials.Detect.{UrlParser}

pub record Scale : Type 0 where
  -- 1.0
  pub token : ℕ
  -- a rate of 0.1 in a second
  pub least_rate : ℕ

pub record HostBucket : Type 0 where
  pub rate : ℕ
  pub capacity : ℕ
  pub tokens : ℕ
  pub updated : ℕ

pub record HostRateLimiter : Type 0 where
  pub rps : ℕ
  pub burst : ℕ
  pub buckets : Dict HostBucket

-- The constructor of the limiter, which raises ValueError for a rate or a burst of 0 or less.
unfoldable pub rate_limiter : ℕ → ℕ → Option HostRateLimiter
rate_limiter rps burst =
    if leb rps 0
    then none
    else (if ltb burst 1 then none else some (record { rps = rps; burst = burst; buckets = [] }))

module _ (scale : Scale) where
  -- `_HostBucket(rps, burst)`, at a reading of the clock
  abbrev pub host_bucket : ℕ → ℕ → ℕ → HostBucket
  host_bucket rps burst now = record {
    rate = max scale.least_rate rps;
    capacity = max 1 burst;
    tokens = max 1 burst * scale.token;
    updated = now;
  }

  unfoldable pub refill : ℕ → HostBucket → HostBucket
  refill now b =
      if ltb b.updated now
      then (record b {
        tokens = min (b.capacity * scale.token) (b.tokens + (now - b.updated) * b.rate);
        updated = now;
      })
      else b

  unfoldable pub time_until_token : ℕ → HostBucket → ℕ × HostBucket
  time_until_token now b =
      let b' = refill now b in
      (if leb scale.token b'.tokens then 0 else scale.token - b'.tokens, b')

  -- `setdefault`
  abbrev pub bucket_of : String → HostBucket → Dict HostBucket → HostBucket
  bucket_of host fresh buckets = elim (lookup host buckets) [ none ↦ fresh | some b ↦ b ]

  -- A round of the loop under the lock, with the readings of the clock in the constructor and in
  -- `_refill`: the wait that is left, 0 if the request is admitted.
  unfoldable pub attempt : String → ℕ → ℕ → HostRateLimiter → ℕ × HostRateLimiter
  unfolding time_until_token
  attempt host created now l =
      let (wait, b) =
        time_until_token now (bucket_of host (host_bucket l.rps l.burst created) l.buckets) in
      (
        wait,
        record l {
          buckets =
              insert host (if leb wait 0 then (record b { tokens = b.tokens - scale.token }) else b)
                l.buckets;
        },
      )

  -- The loop of `acquire`, at the readings of the clock in its rounds: none if it still waits after them.
  pub wait_for : String → List (ℕ × ℕ) → HostRateLimiter → Option HostRateLimiter
  wait_for host [] l = none
  wait_for host ((created, now) ∷ rounds) l =
      let (wait, l') = attempt host created now l in
      let rest = wait_for host rounds l' in if leb wait 0 then some l' else rest

  module _ (parser : UrlParser) where
    -- `host_of(url_or_host) if "://" in url_or_host else url_or_host.lower()`
    abbrev pub bucket_name : String → Result String
    bucket_name url =
        if contains url "://"
        then elim (parser.hostname url) [
          | raised e ↦ raised e
          | ok none ↦ ok (parser.lower "")
          | ok (some h) ↦ ok (parser.lower h)
        ]
        else ok (parser.lower url)

    pub acquire : String → List (ℕ × ℕ) → HostRateLimiter → Result (Option HostRateLimiter)
    acquire url rounds l = elim (bucket_name url) [
      | raised e ↦ raised e
      | ok host ↦ ok (if str_eq host "" then some l else wait_for host rounds l)
    ]
