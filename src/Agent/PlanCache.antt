-- ===== src/Agent/PlanCache.antt =====
-- `PlanCache` of src/andera/agent/plan_cache.py: its dictionary in memory and its directory, by the
-- key that stands in a file's name. A plan is a list that other code holds too, and writes into: the
-- dictionary has references to the objects of the process. A file has a text, and the rename that ends
-- `put` is atomic, so that a file has its old or its new content.
pub mod Kept
use browser_agent.Common.{
  ℕ, zero, suc, String, Option, none, some, List, [], ◌∷◌, ◌++◌, Dict, lookup, insert, get_elem?,
  length,
}

-- What a file decodes to.
pub data Content (A : Type 0) : Type 0 where
  holds : A → Content A
  -- JSON that is no list
  no_list : Content A
  -- no JSON, or no permission to read
  unreadable : Content A

-- `json.dumps` and `json.loads`
pub record PlanText (A : Type 0) : Type 0 where
  pub dumps : A → String
  pub loads : String → Content A

pub record PlanCache (A : Type 0) : Type 0 where
  -- the lists of the process, by their references
  pub objects : List A
  pub mem : Dict ℕ
  pub files : Dict String

-- What the samples do, and the end of a process, whose successor finds the files only.
pub data Call (A : Type 0) : Type 0 where
  gets : String → Call A
  puts : String → ℕ → Call A
  -- a plan is made
  makes : A → Call A
  -- a plan is written into, as `act` does with `step["resolved"] = …`
  writes : ℕ → A → Call A
  restarts : Call A

abbrev pub set_at : {A : Type 0} → ℕ → A → List A → List A
set_at i a [] = []
set_at zero a (x ∷ xs) = a ∷ xs
set_at (suc i) a (x ∷ xs) = x ∷ set_at i a xs

module _ {A : Type 0} (codec : PlanText A) where
  -- `get`, past the dictionary in memory
  abbrev pub read_file : String → PlanCache A → Option ℕ × PlanCache A
  read_file key c = elim (lookup key c.files) [
    | none ↦ (none, c)
    | some text ↦ elim (codec.loads text) [
      | holds plan ↦ (
        some (length c.objects),
        record c { objects = c.objects ++ plan ∷ []; mem = insert key (length c.objects) c.mem },
      )
      | no_list ↦ (none, c)
      | unreadable ↦ (none, c)
    ]
  ]

  pub get : String → PlanCache A → Option ℕ × PlanCache A
  get key c = elim (lookup key c.mem) [ none ↦ read_file key c | some plan ↦ (some plan, c) ]

  -- The argument is a list of the process.
  pub put : String → ℕ → PlanCache A → PlanCache A
  put key ref c = elim (get_elem? c.objects ref) [
    | none ↦ c
    | some plan ↦ record c {
      mem = insert key ref c.mem;
      files = insert key (codec.dumps plan) c.files;
    }
  ]

  pub step : Call A → PlanCache A → PlanCache A
  unfolding get put
  step (gets key) c = (get key c).1
  step (puts key ref) c = put key ref c
  step (makes plan) c = record c { objects = c.objects ++ plan ∷ [] }
  step (writes ref plan) c = record c { objects = set_at ref plan c.objects }
  step restarts c = record c { objects = []; mem = [] }

  pub run : List (Call A) → PlanCache A → PlanCache A
  unfolding step
  run [] c = c
  run (call ∷ calls) c = run calls (step call c)
