-- ===== src/Agent/Effect.antt =====
-- What the agent's code does to the world outside: `W` is the state of that world (the browser,
-- the models, the network, the clock), and a call may raise.
use browser_agent.Common.{String, ◌≡◌, refl, subst, ◌⊎◌, inl, inr}

-- An exception, by what the code says in it.
pub data Failure : Type 0 where
  -- an exception of a library or of the browser, `f"{type(e).__name__}: {e}"`
  exception : String → Failure
  -- "plan cap reached (3 attempts)"
  plan_cap_reached : Failure
  -- f"plan parse: {e}"
  plan_unparsable : Failure → Failure
  -- "plan parse: expected array or {steps:[]}, got …"
  plan_shapeless : Failure
  -- "plan parse: empty or not a list"
  plan_empty : Failure
  -- "plan step {idx} is not a JSON object …"
  bad_step : Failure
  -- f"unknown action {action!r}"
  unknown_action : String → Failure
  -- "reflection cap reached"
  reflection_cap_reached : Failure
  -- "no search result matched …"
  no_search_result : Failure
  -- "visual_do requires a vision model …"
  no_vision_model : Failure
  -- f"vision_resolve failed: {e}"
  vision_failed : Failure → Failure

pub data Result {ℓ} (A : Type ℓ) : Type ℓ where
  ok : A → Result A
  raised : Failure → Result A

abbrev pub Eff : Type 0 → Type 0 → Type 0
Eff W A = W → Result A × W

module _ {W : Type 0} where
  abbrev pub pure : {A : Type 0} → A → Eff W A
  pure a w = (ok a, w)

  infixl 5 ◌>>=◌
  abbrev pub ◌>>=◌ : {A B : Type 0} → Eff W A → (A → Eff W B) → Eff W B
  ◌>>=◌ m f w = let (r, w') = m w in elim r [ ok a ↦ f a w' | raised e ↦ (raised e, w') ]

  -- `try: … except Exception`, where the handler gets the exception.
  abbrev pub attempt : {A : Type 0} → Eff W A → Eff W (Result A)
  attempt m w = let (r, w') = m w in (ok r, w')

-- What holds of the value if nothing is raised.
abbrev pub Ensures {κ} : {A : Type 0} → (A → Type κ) → Result A → Type κ
Ensures P (ok a) = P a
Ensures P (raised e) = Unit

pub Result-cases {ℓ} :
    {A : Type ℓ} (r : Result A) → ((e : Failure) × (r ≡ raised e)) ⊎ ((a : A) × (r ≡ ok a))
Result-cases (ok a) = inr (a, refl)
Result-cases (raised e) = inl (e, refl)

pub Ensures-map {κ μ} :
    {A : Type 0} {P : A → Type κ} {Q : A → Type μ}
    → ((a : A) → P a → Q a)
    → (r : Result A) → Ensures P r
    → Ensures Q r
Ensures-map f (ok a) p = f a p
Ensures-map f (raised e) p = tt

pub Ensures-ok {κ} :
    {A : Type 0} (P : A → Type κ) {r : Result A} {a : A} → r ≡ ok a → Ensures P r → P a
Ensures-ok P e p = subst (Ensures P) e p
