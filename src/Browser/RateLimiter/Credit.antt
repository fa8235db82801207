-- ===== src/Browser/RateLimiter/Credit.antt =====
-- The tokens of one bucket.
use browser_agent.Common.{ℕ, ◌+◌, ◌-◌, ◌*◌, ◌≤◌, ◌≡◌, leb, arith, if◌then◌else◌}
use browser_agent.Browser.RateLimiter.{Scale, HostBucket, refill, time_until_token}

split : (a b c r : ℕ) → a ≤ b → b ≤ c → (b - a) * r + (c - b) * r ≡ (c - a) * r
split a b c r h k = grind arith

grows : (a b r : ℕ) → a ≤ b → a * r ≤ b * r
grows a b r h = grind arith

module _ (scale : Scale) where
  -- What a round leaves of a bucket.
  abbrev pub spent : ℕ → HostBucket → HostBucket
  spent now b =
      let (wait, b') = time_until_token scale now b in
      if leb wait 0 then (record b' { tokens = b'.tokens - scale.token }) else b'

  abbrev pub is_admitted : ℕ → HostBucket → ℕ
  is_admitted now b = if leb (time_until_token scale now b).0 0 then 1 else 0

  -- The tokens that a bucket has, and those that come until a time.
  abbrev pub credit : ℕ → HostBucket → ℕ
  credit end b = b.tokens + (end - b.updated) * b.rate

  refill-credit :
      (end now : ℕ) (b : HostBucket) → now ≤ end → credit end (refill scale now b) ≤ credit end b
  unfolding refill
  refill-credit end now b h = ground (arith, split b.updated now end b.rate)

  pub spent-credit :
      (end now : ℕ) (b : HostBucket)
      → now ≤ end
      → is_admitted now b * scale.token + credit end (spent now b) ≤ credit end b
  unfolding time_until_token
  spent-credit end now b h = ground (arith, refill-credit end now b h)

  -- The first round of a window finds a bucket that is full at most.
  pub spent-full :
      (start end now : ℕ) (b : HostBucket)
      → b.tokens ≤ b.capacity * scale.token
      → start ≤ now
      → now ≤ end
      → is_admitted now b * scale.token + credit end (spent now b)
        ≤ b.capacity * scale.token + (end - start) * b.rate
  unfolding time_until_token refill
  spent-full start end now b f h k = ground (
    arith,
    grows (end - now) (end - start) b.rate (omega (arith, h)),
    λ (p : now ≤ b.updated). grows (end - b.updated) (end - start) b.rate (omega (arith, h, p)),
  )

  pub spent-tokens :
      (now : ℕ) (b : HostBucket)
      → b.tokens ≤ b.capacity * scale.token
      → (spent now b).tokens ≤ b.capacity * scale.token
  unfolding time_until_token refill
  spent-tokens now b f = ground arith

  pub capacity-spent : (now : ℕ) (b : HostBucket) → (spent now b).capacity ≡ b.capacity
  unfolding time_until_token refill
  capacity-spent now b = ground arith

  pub rate-spent : (now : ℕ) (b : HostBucket) → (spent now b).rate ≡ b.rate
  unfolding time_until_token refill
  rate-spent now b = ground arith
