-- ===== src/Agent/PlanCache/Kept.antt =====
-- What the cache keeps of a plan that was put in.
use browser_agent.Common.{
  ℕ, Option-cases, String, ◌≡◌, ap, ◌∙◌, false, inl, inr, some, List, [], ◌∷◌, lookup,
  lookup-insert, str_eq, str_eq_refl, eq_iff, All, arith, get_elem?, length,
}
use browser_agent.Agent.PlanCache.{
  holds, PlanText, PlanCache, Call, gets, puts, makes, writes, restarts, get, put, step, run,
}

module _ {A : Type 0} where
  abbrev pub NotPut : String → Call A → Type 0
  NotPut k (puts key ref) = str_eq key k ≡ false
  NotPut k _ = Unit

  abbrev pub NotRestart : Call A → Type 0
  NotRestart restarts = ⊥
  NotRestart _ = Unit

module _ {A : Type 0} (codec : PlanText A) where
  -- The file has the text.
  abbrev OnDisk : String → String → PlanCache A → Type 0
  OnDisk k text c = lookup k c.files ≡ some text

  -- The dictionary has the reference.
  abbrev InMemory : String → ℕ → PlanCache A → Type 0
  InMemory k ref c = lookup k c.mem ≡ some ref

  get_files : (key : String) (c : PlanCache A) → (get codec key c).1.files ≡ c.files
  unfolding get
  get_files key c = ground arith

  get-InMemory :
      (k key : String) (ref : ℕ) (c : PlanCache A)
      → InMemory k ref c
      → InMemory k ref (get codec key c).1
  unfolding get
  get-InMemory k key ref c h = elim (Option-cases (lookup key c.mem)) [
    | inr (p, e) ↦ ground (arith, e, h)
    | inl e ↦ elim (Option-cases (lookup key c.files)) [
      | inl f ↦ ground (arith, e, f, h)
      | inr (text, f) ↦
          ground (arith, e, f, lookup-insert key k (length c.objects) c.mem, h, eq_iff key k)
    ]
  ]

  put-OnDisk :
      (k key text : String) (ref : ℕ) (c : PlanCache A)
      → str_eq key k ≡ false
      → OnDisk k text c
      → OnDisk k text (put codec key ref c)
  unfolding put
  put-OnDisk k key text ref c n h = elim (Option-cases (get_elem? c.objects ref)) [
    | inl e ↦ ground (arith, e, h)
    | inr (plan, e) ↦ ground (arith, e, h, n, lookup-insert key k (codec.dumps plan) c.files)
  ]

  put-InMemory :
      (k key : String) (r ref : ℕ) (c : PlanCache A)
      → str_eq key k ≡ false
      → InMemory k r c
      → InMemory k r (put codec key ref c)
  unfolding put
  put-InMemory k key r ref c n h = elim (Option-cases (get_elem? c.objects ref)) [
    | inl e ↦ ground (arith, e, h)
    | inr (plan, e) ↦ ground (arith, e, h, n, lookup-insert key k ref c.mem)
  ]

  run-OnDisk :
      (k text : String) (calls : List (Call A)) (c : PlanCache A)
      → All (NotPut k) calls
      → OnDisk k text c
      → OnDisk k text (run codec calls c)
  unfolding run step
  run-OnDisk k text [] c n h = h
  run-OnDisk k text (gets key ∷ calls) c n h =
      run-OnDisk k text calls _ n.1 (ap (lookup k) (get_files key c) ∙ h)
  run-OnDisk k text (puts key ref ∷ calls) c n h =
      run-OnDisk k text calls _ n.1 (put-OnDisk k key text ref c n.0 h)
  run-OnDisk k text (makes plan ∷ calls) c n h = run-OnDisk k text calls _ n.1 h
  run-OnDisk k text (writes ref plan ∷ calls) c n h = run-OnDisk k text calls _ n.1 h
  run-OnDisk k text (restarts ∷ calls) c n h = run-OnDisk k text calls _ n.1 h

  run-InMemory :
      (k : String) (r : ℕ) (calls : List (Call A)) (c : PlanCache A)
      → All (NotPut k) calls
      → All NotRestart calls
      → InMemory k r c
      → InMemory k r (run codec calls c)
  unfolding run step
  run-InMemory k r [] c n m h = h
  run-InMemory k r (gets key ∷ calls) c n m h =
      run-InMemory k r calls _ n.1 m.1 (get-InMemory k key r c h)
  run-InMemory k r (puts key ref ∷ calls) c n m h =
      run-InMemory k r calls _ n.1 m.1 (put-InMemory k key r ref c n.0 h)
  run-InMemory k r (makes plan ∷ calls) c n m h = run-InMemory k r calls _ n.1 m.1 h
  run-InMemory k r (writes ref plan ∷ calls) c n m h = run-InMemory k r calls _ n.1 m.1 h
  run-InMemory k r (restarts ∷ calls) c n m h = absurd m.0

  -- The plan that a text decodes to, in a process that has just begun.
  abbrev pub Reads : String → A → PlanCache A → Type 0
  Reads k plan c =
      (ref : ℕ) × ((get codec k c).0 ≡ some ref)
      × (get_elem? (get codec k c).1.objects ref ≡ some plan)

  step-Reads :
      (k : String) (plan plan' : A) (c : PlanCache A)
      → OnDisk k (codec.dumps plan) c
      → codec.loads (codec.dumps plan) ≡ holds plan'
      → Reads k plan' (step codec restarts c)
  unfolding step get
  step-Reads k plan plan' c h e = (0, ground (arith, h, e), ground (arith, h, e))

  -- After a list was put in under a key, and until something is put in under the key again: the process gives
  -- this very list, with all that was written into it since; and the next process gives a list of its own with
  -- what JSON makes of the list as it was when it was put in, whatever was written into it since and however
  -- often the process was started anew.
  pub get-run-put :
      (k : String) (ref : ℕ) (plan plan' : A) (calls : List (Call A)) (c : PlanCache A)
      → All (NotPut k) calls
      → get_elem? c.objects ref ≡ some plan
      → codec.loads (codec.dumps plan) ≡ holds plan'
      → (All NotRestart calls → (get codec k (run codec calls (put codec k ref c))).0 ≡ some ref)
        × Reads k plan' (step codec restarts (run codec calls (put codec k ref c)))
  unfolding get put
  get-run-put k ref plan plan' calls c n p e = (
    λ m.
        found (run codec calls (put codec k ref c))
          (run-InMemory k ref calls (put codec k ref c) n m kept),
    step-Reads k plan plan' _ (run-OnDisk k (codec.dumps plan) calls (put codec k ref c) n written)
        e,
  )
    where
      kept : InMemory k ref (put codec k ref c)
      kept = ground (arith, p, lookup-insert k k ref c.mem, str_eq_refl k)

      written : OnDisk k (codec.dumps plan) (put codec k ref c)
      written = ground (arith, p, lookup-insert k k (codec.dumps plan) c.files, str_eq_refl k)

      found : (d : PlanCache A) → InMemory k ref d → (get codec k d).0 ≡ some ref
      found d h = ground (arith, h)
