-- ===== src/Browser/RateLimiter/Bound.antt =====
-- How many requests a limiter admits to one host.
use browser_agent.Common.{
  ℕ, ◌+◌, ◌-◌, ◌*◌, ◌≤◌, ◌≡◌, refl, sym, ap, ◌∙◌, max, String, true, false, ◌&&◌, Option, none,
  some, List, [], ◌∷◌, str_eq, str_eq→eq, leb, All, All-map, arith, if◌then◌else◌, Bool-cases, inl,
  inr, subst, lookup, lookup-insert,
}
use browser_agent.Browser.RateLimiter.{
  Scale, HostBucket, HostRateLimiter, rate_limiter, host_bucket, bucket_of, attempt,
}
use browser_agent.Browser.RateLimiter.Credit.{
  spent, is_admitted, credit, spent-credit, spent-full, spent-tokens, capacity-spent, rate-spent,
}

-- A round of the loop in `acquire`: the host, and the readings of the clock.
pub record Turn : Type 0 where
  pub host : String
  pub created : ℕ
  pub now : ℕ

abbrev pub InWindow : ℕ → ℕ → Turn → Type 0
InWindow start end t = (start ≤ t.now) × (t.now ≤ end)

module _ (scale : Scale) where
  -- The rounds of all requests, in the order in which they get the lock.
  pub turns : List Turn → HostRateLimiter → HostRateLimiter
  turns [] l = l
  turns (t ∷ ts) l = turns ts (attempt scale t.host t.created t.now l).1

  -- How many of the rounds admit a request to a host.
  pub admitted : String → List Turn → HostRateLimiter → ℕ
  admitted host [] l = 0
  admitted host (t ∷ ts) l =
      (if str_eq t.host host && leb (attempt scale t.host t.created t.now l).0 0 then 1 else 0)
      + admitted host ts (attempt scale t.host t.created t.now l).1

  -- A bucket that the limiter made.
  record Fits (rps burst : ℕ) (b : HostBucket) : Type 0 where
    rate : b.rate ≡ max scale.least_rate rps
    capacity : b.capacity ≡ max 1 burst
    tokens : b.tokens ≤ b.capacity * scale.token

  -- The bucket that a round uses for its host.
  abbrev used : String → ℕ → HostRateLimiter → HostBucket
  used host created l = bucket_of scale host (host_bucket scale l.rps l.burst created) l.buckets

  lookup-attempt :
      (host h : String) (created now : ℕ) (l : HostRateLimiter)
      → lookup host (attempt scale h created now l).1.buckets ≡ (
          if str_eq h host
          then some (spent scale now (used h created l))
          else lookup host l.buckets)
  unfolding attempt
  lookup-attempt host h created now l = lookup-insert h host _ l.buckets

  -- What is known of the bucket of a host: the limiter made it, if it is there.
  record Known (host : String) (l : HostRateLimiter) : Type 0 where
    fits : (b : HostBucket) → lookup host l.buckets ≡ some b → Fits l.rps l.burst b

  elim-Fits :
      (rps burst created : ℕ) (found : Option HostBucket)
      → ((b : HostBucket) → found ≡ some b → Fits rps burst b)
      → Fits rps burst (elim found [ none ↦ host_bucket scale rps burst created | some b ↦ b ])
  elim-Fits rps burst created none f = record { rate = refl; capacity = refl; tokens = omega arith }
  elim-Fits rps burst created (some b) f = f b refl

  used-Fits :
      (host : String) (created : ℕ) (l : HostRateLimiter)
      → Known host l
      → Fits l.rps l.burst (used host created l)
  used-Fits host created l k = elim-Fits l.rps l.burst created (lookup host l.buckets) k.fits

  spent-Fits :
      (now : ℕ) (l : HostRateLimiter) (b : HostBucket)
      → Fits l.rps l.burst b
      → Fits l.rps l.burst (spent scale now b)
  spent-Fits now l b f = record {
    rate = rate-spent scale now b ∙ f.rate;
    capacity = capacity-spent scale now b ∙ f.capacity;
    tokens =
        subst (λ c. (spent scale now b).tokens ≤ c * scale.token) (sym (capacity-spent scale now b))
          (spent-tokens scale now b f.tokens);
  }

  attempt-Known :
      (host h : String) (created now : ℕ) (l : HostRateLimiter)
      → Known host l
      → Known host (attempt scale h created now l).1
  unfolding attempt
  attempt-Known host h created now l k = record {
    fits = elim (Bool-cases (str_eq h host)) [
      | inl e ↦
          subst (λ o. (b : HostBucket) → o ≡ some b → Fits l.rps l.burst b)
            (sym (lookup-attempt host h created now l ∙ rw e refl))
            (λ b q. subst (Fits l.rps l.burst) (some_injective q) (
              spent-Fits now l (used h created l)
                (used-Fits h created l (subst (λ x. Known x l) (sym (str_eq→eq h host e)) k))))
      | inr e ↦
          subst (λ o. (b : HostBucket) → o ≡ some b → Fits l.rps l.burst b)
            (sym (lookup-attempt host h created now l ∙ rw e refl)) (λ b q. k.fits b q)
    ];
  }
    where
      some_injective : {x y : HostBucket} → some x ≡ some y → x ≡ y
      some_injective q = cc

  turns-Known :
      (host : String) (ts : List Turn) (l : HostRateLimiter)
      → Known host l
      → Known host (turns ts l)
  unfolding turns
  turns-Known host [] l k = k
  turns-Known host (t ∷ ts) l k =
      turns-Known host ts _ (attempt-Known host t.host t.created t.now l k)

  -- A round of this host, and one of another.
  admitted_same :
      (host : String) (t : Turn) (ts : List Turn) (l : HostRateLimiter)
      → str_eq t.host host ≡ true
      → admitted host (t ∷ ts) l
        ≡ is_admitted scale t.now (used t.host t.created l)
          + admitted host ts (attempt scale t.host t.created t.now l).1
  unfolding admitted attempt
  admitted_same host t ts l e = rw e refl

  admitted_other :
      (host : String) (t : Turn) (ts : List Turn) (l : HostRateLimiter)
      → str_eq t.host host ≡ false
      → admitted host (t ∷ ts) l ≡ admitted host ts (attempt scale t.host t.created t.now l).1
  unfolding admitted
  admitted_other host t ts l e = rw e (omega arith)

  -- From a bucket on, the requests that are admitted take their tokens from its credit scale.
  admitted-credit :
      (host : String) (end : ℕ) (ts : List Turn) (l : HostRateLimiter) (b : HostBucket)
      → lookup host l.buckets ≡ some b
      → All (λ t. t.now ≤ end) ts
      → admitted host ts l * scale.token ≤ credit scale end b
  unfolding admitted
  admitted-credit host end [] l b h f = omega arith
  admitted-credit host end (t ∷ ts) l b h f = elim (Bool-cases (str_eq t.host host)) [
    | inl e ↦ rw (admitted_same host t ts l e) (
        same e (λ u.
          admitted-credit host end ts _ (spent scale t.now b)
            (lookup-attempt host t.host t.created t.now l ∙ rw (e, u) refl) f.1))
    | inr e ↦ rw (admitted_other host t ts l e) (
        admitted-credit host end ts _ b (lookup-attempt host t.host t.created t.now l ∙ (rw e h))
          f.1)
  ]
    where
      same :
          str_eq t.host host ≡ true
          → (used t.host t.created l ≡ b
              → admitted host ts (attempt scale t.host t.created t.now l).1 * scale.token
                ≤ credit scale end (spent scale t.now b))
          → (is_admitted scale t.now (used t.host t.created l)
                + admitted host ts (attempt scale t.host t.created t.now l).1)
              * scale.token
            ≤ credit scale end b
      same e ih =
          let u : used t.host t.created l ≡ b =
            ap (λ o. elim o [ none ↦ host_bucket scale l.rps l.burst t.created | some b ↦ b ])
              (ap (λ x. lookup x l.buckets) (str_eq→eq t.host host e) ∙ h) in
          let tail = ih u in rw u (grind (arith, spent-credit scale end t.now b f.0, tail))

  abbrev limit : ℕ → ℕ → HostRateLimiter → ℕ
  limit start end l = max 1 l.burst * scale.token + (end - start) * max scale.least_rate l.rps

  at_limit :
      (h : String) (created now start end : ℕ) (l : HostRateLimiter) (n : ℕ)
      → n ≤ limit start end (attempt scale h created now l).1
      → n ≤ limit start end l
  unfolding attempt
  at_limit h created now start end l n p = p

  admitted-window :
      (host : String) (start end : ℕ) (ts : List Turn) (l : HostRateLimiter)
      → Known host l
      → All (InWindow start end) ts
      → admitted host ts l * scale.token
        ≤ max 1 l.burst * scale.token + (end - start) * max scale.least_rate l.rps
  unfolding admitted
  admitted-window host start end [] l k f = omega arith
  admitted-window host start end (t ∷ ts) l k f = elim (Bool-cases (str_eq t.host host)) [
    | inl e ↦ rw (admitted_same host t ts l e) (
        let b = used t.host t.created l in
        let fits =
          used-Fits t.host t.created l (subst (λ h. Known h l) (sym (str_eq→eq t.host host e)) k) in
        let first =
          subst
            (λ c.
              is_admitted scale t.now b * scale.token + credit scale end (spent scale t.now b)
              ≤ c * scale.token + (end - start) * b.rate)
            fits.capacity (spent-full scale start end t.now b fits.tokens f.0.0 f.0.1) in
        let whole =
          subst
            (λ r.
              is_admitted scale t.now b * scale.token + credit scale end (spent scale t.now b)
              ≤ max 1 l.burst * scale.token + (end - start) * r)
            fits.rate first in
        let rest =
          admitted-credit host end ts (attempt scale t.host t.created t.now l).1
            (spent scale t.now b) (lookup-attempt host t.host t.created t.now l ∙ rw e refl)
            (All-map (λ t h. h.1) ts f.1) in
        grind (arith, whole, rest))
    | inr e ↦ rw (admitted_other host t ts l e) (
        at_limit t.host t.created t.now start end l _ (
          admitted-window host start end ts (attempt scale t.host t.created t.now l).1
            (attempt-Known host t.host t.created t.now l k) f.1))
  ]

  turns-same :
      (ts : List Turn) (l : HostRateLimiter)
      → ((turns ts l).rps ≡ l.rps) × ((turns ts l).burst ≡ l.burst)
  unfolding turns attempt
  turns-same [] l = (refl, refl)
  turns-same (t ∷ ts) l = turns-same ts (attempt scale t.host t.created t.now l).1

-- However the requests to a limiter take turns, in every window of time a host is admitted no more
-- often than the burst allows, and the tokens that come to its rate within the window.
pub admitted-turns :
    (scale : Scale) (rps burst : ℕ) (l : HostRateLimiter) (before ts : List Turn) (host : String)
    (start end : ℕ)
    → rate_limiter rps burst ≡ some l
    → All (InWindow start end) ts
    → admitted scale host ts (turns scale before l) * scale.token
      ≤ burst * scale.token + (end - start) * max scale.least_rate rps
unfolding rate_limiter
admitted-turns scale rps burst l before ts host start end made f =
    let same = turns-same scale before l in
    let fields = made_fields l made in
    let known : Known scale host l = record { fits = λ b q. absurd (made_empty l made b q) } in
    let bound =
      admitted-window scale host start end ts _ (turns-Known scale host before l known) f in
    subst
      (λ r.
        admitted scale host ts (turns scale before l) * scale.token
        ≤ burst * scale.token + (end - start) * max scale.least_rate r)
      (same.0 ∙ fields.0)
      (subst
        (λ n.
          admitted scale host ts (turns scale before l) * scale.token
          ≤ n * scale.token + (end - start) * max scale.least_rate (turns scale before l).rps)
        (omega (arith, same.1, fields.1, fields.2)) bound)
  where
    made_fields :
        (l : HostRateLimiter)
        → rate_limiter rps burst ≡ some l
        → (l.rps ≡ rps) × (l.burst ≡ burst) × (1 ≤ burst)
    made_fields l e = ground (arith, e)

    made_empty :
        (l : HostRateLimiter)
        → rate_limiter rps burst ≡ some l
        → (b : HostBucket) → lookup host l.buckets ≡ some b
        → ⊥
    made_empty l e b q = ground (arith, e, q)
