-- ===== src/Agent/Reply/Fenced.antt =====
-- A JSON text in a fence.
use Prim.Native.Char.{Char}
use Prim.Native.String.{String}
use browser_agent.Common.{
  ◌≡◌, refl, sym, ap, ◌∙◌, Bool, true, false, none, str_eq, eq_iff, Bool-cases, inl, inr, arith,
  not,
}
use browser_agent.Agent.Reply.{
  Texts, is_tick, append, starts_with_fence, before_fence, without_fence, lstrip, rstrip, is_empty,
  strip_by, untagged, trimmed, unfenced, read, parse_json,
}

-- Each character passes a test.
abbrev pub AllChars : (Char → Bool) → String → Type 0
AllChars p String.[] = Unit {0}
AllChars p (String.◌∷◌ c s) = (p c ≡ true) × AllChars p s

abbrev pub no_tick : Char → Bool
no_tick c = not (is_tick c)

lstrip-append : (p : Char → Bool) (s t : String) → AllChars p s → lstrip p (append s t) ≡ lstrip p t
unfolding lstrip append
lstrip-append p String.[] t h = refl
lstrip-append p (String.◌∷◌ c s) t h = rw h.0 (lstrip-append p s t h.1)

is_empty-append : (s t : String) → is_empty t ≡ false → is_empty (append s t) ≡ false
unfolding append
is_empty-append String.[] t h = h
is_empty-append (String.◌∷◌ c s) t h = refl

-- What stands before a text that is not all stripped stays.
rstrip-append :
    (p : Char → Bool) (s t : String)
    → is_empty (rstrip p t) ≡ false
    → rstrip p (append s t) ≡ append s (rstrip p t)
unfolding rstrip append
rstrip-append p String.[] t h = refl
rstrip-append p (String.◌∷◌ c s) t h =
    rw (rstrip-append p s t h) (rw (is_empty-append s (rstrip p t) h) refl)

no_fence : (c : Char) (s : String) → no_tick c ≡ true → starts_with_fence (String.◌∷◌ c s) ≡ false
no_fence c String.[] h = refl
no_fence c (String.◌∷◌ d String.[]) h = refl
no_fence c (String.◌∷◌ d (String.◌∷◌ e s)) h = ground (arith, h)

before_fence-fence : (t : String) → starts_with_fence t ≡ true → before_fence t ≡ ""
unfolding before_fence
before_fence-fence String.[] f = refl
before_fence-fence (String.◌∷◌ c t) f = rw f refl

before_fence-append :
    (s t : String) → AllChars no_tick s → starts_with_fence t ≡ true → before_fence (append s t) ≡ s
unfolding before_fence append
before_fence-append String.[] t h f = before_fence-fence t f
before_fence-append (String.◌∷◌ c s) t h f =
    rw (no_fence c (append s t) h.0) (ap (String.◌∷◌ c) (before_fence-append s t h.1 f))

lstrip-AllChars : (p q : Char → Bool) (s : String) → AllChars q s → AllChars q (lstrip p s)
unfolding lstrip
lstrip-AllChars p q String.[] h = tt
lstrip-AllChars p q (String.◌∷◌ c s) h = elim (Bool-cases (p c)) [
  | inl e ↦ rw e (lstrip-AllChars p q s h.1)
  | inr e ↦ rw e h
]

rstrip-AllChars : (p q : Char → Bool) (s : String) → AllChars q s → AllChars q (rstrip p s)
unfolding rstrip
rstrip-AllChars p q String.[] h = tt
rstrip-AllChars p q (String.◌∷◌ c s) h = elim (Bool-cases (is_empty (rstrip p s))) [
  | inl e ↦ elim (Bool-cases (p c)) [ inl f ↦ rw (e, f) tt | inr f ↦ rw (e, f) (h.0, tt) ]
  | inr e ↦ rw e (h.0, rstrip-AllChars p q s h.1)
]

first_tick : String → Bool
first_tick String.[] = false
first_tick (String.◌∷◌ c s) = is_tick c

no_fence_eq : (c : Char) (s : String) → no_tick c ≡ true → str_eq (String.◌∷◌ c s) "```" ≡ false
unfolding first_tick
no_fence_eq c s h = elim (Bool-cases (str_eq (String.◌∷◌ c s) "```")) [
  | inl e ↦ absurd (ticks (ap first_tick ((eq_iff (String.◌∷◌ c s) "```").0 e)))
  | inr e ↦ e
]
  where
    ticks : is_tick c ≡ true → ⊥
    ticks q = ground (arith, q, h)

without_fence-none : (s : String) → AllChars no_tick s → without_fence s ≡ none
unfolding without_fence
without_fence-none String.[] h = refl
without_fence-none (String.◌∷◌ c s) h =
    rw (no_fence_eq c s h.0) (rw (without_fence-none s h.1) refl)

rstrip-cons :
    (p : Char → Bool) (c : Char) (s : String)
    → p c ≡ false
    → rstrip p (String.◌∷◌ c s) ≡ String.◌∷◌ c (rstrip p s)
unfolding rstrip
rstrip-cons p c s h = elim (Bool-cases (is_empty (rstrip p s))) [
  | inl e ↦ rw (e, h) (ap (String.◌∷◌ c) (sym (emptied (rstrip p s) e)))
  | inr e ↦ rw e refl
]
  where
    emptied : (t : String) → is_empty t ≡ true → t ≡ ""
    emptied String.[] q = refl
    emptied (String.◌∷◌ d t) q = cc

strip-AllChars : (p q : Char → Bool) (s : String) → AllChars q s → AllChars q (strip_by p s)
unfolding strip_by
strip-AllChars p q s h = rstrip-AllChars p q (lstrip p s) (lstrip-AllChars p q s h)

module _ (texts : Texts) where
  -- A reply with a text in a fence that names its language.
  abbrev pub fenced : String → String → String → String
  fenced lead body trail = append lead (append "```json\n" (append body (append "```" trail)))

  strip-fenced :
      (lead body trail : String)
      → AllChars texts.is_space lead
      → strip_by texts.is_space (fenced lead body trail)
        ≡ append "```json\n" (append body (append "```" (rstrip texts.is_space trail)))
  unfolding strip_by append
  strip-fenced lead body trail h =
      ap (rstrip texts.is_space) (
        lstrip-append texts.is_space lead _ h
        ∙ unstripped (append "``json\n" (append body (append "```" trail))))
      ∙ (rstrip-append texts.is_space "```json\n" (append body (append "```" trail))
            (rw closed (shown body))
          ∙ ap (append "```json\n") closed)
    where
      unstripped : (t : String) → lstrip texts.is_space (String.◌∷◌ "`" t) ≡ String.◌∷◌ "`" t
      unstripped t = unfold lstrip in rw texts.tick_shows refl

      ticked :
          (t : String)
          → rstrip texts.is_space (String.◌∷◌ "`" t) ≡ String.◌∷◌ "`" (rstrip texts.is_space t)
      ticked t = rstrip-cons texts.is_space "`" t texts.tick_shows

      fence :
          rstrip texts.is_space (append "```" trail) ≡ append "```" (rstrip texts.is_space trail)
      fence =
          ticked (append "``" trail)
          ∙ ap (String.◌∷◌ "`") (ticked (append "`" trail) ∙ ap (String.◌∷◌ "`") (ticked trail))

      closed :
          rstrip texts.is_space (append body (append "```" trail))
          ≡ append body (append "```" (rstrip texts.is_space trail))
      closed =
          rstrip-append texts.is_space body (append "```" trail) (rw fence refl)
          ∙ ap (append body) fence

      shown :
          (b : String) → is_empty (append b (append "```" (rstrip texts.is_space trail))) ≡ false
      shown String.[] = refl
      shown (String.◌∷◌ c b) = refl

  untagged-body : (body : String) → untagged texts (append "json\n" body) ≡ body
  unfolding untagged append
  untagged-body body = rw texts.letter_shows refl

  trimmed_same : (s : String) → AllChars no_tick s → trimmed texts s ≡ s
  unfolding trimmed
  trimmed_same s h = rw (trimmed, without_fence-none s h) refl

  unfenced-body :
      (body : String)
      → AllChars no_tick body
      → unfenced texts (append "json\n" body) ≡ strip_by texts.is_space body
  unfolding unfenced
  unfenced-body body h =
      ap (λ s. trimmed texts (strip_by texts.is_space s)) (untagged-body body)
      ∙ trimmed_same (strip_by texts.is_space body) (strip-AllChars texts.is_space no_tick body h)

  -- A reply whose JSON text has no backtick and stands in a fence that names json is read as that text, whatever
  -- white space precedes the fence and whatever follows it.
  pub parse_json-fenced :
      (lead body trail : String)
      → AllChars texts.is_space lead
      → AllChars no_tick body
      → parse_json texts (fenced lead body trail) ≡ texts.loads (strip_by texts.is_space body)
  unfolding parse_json append
  parse_json-fenced lead body trail h k =
      ap (read texts) (strip-fenced lead body trail h)
      ∙ ap texts.loads (
          ap (unfenced texts) (
            before_fence-append (append "json\n" body) (append "```" (rstrip texts.is_space trail))
              (refl, (refl, (refl, (refl, (refl, k))))) refl)
          ∙ unfenced-body body k)
