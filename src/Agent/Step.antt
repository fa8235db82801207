-- ===== src/Agent/Step.antt =====
-- The steps of a plan: `PlanStep` of src/andera/agent/state.py with the keys that
-- PLAN_RESPONSE_SCHEMA and the action handlers of src/andera/agent/nodes.py name.
use browser_agent.Common.{String, Option, none, some, str_eq, if◌then◌else◌}
use browser_agent.Json.{ℤ, Json, num, str, obj, Fields, get}

-- A structural descriptor of an element. A pattern or region that is absent is "".
pub record Descriptor : Type 0 where
  pub role : String
  pub href_pattern : String
  pub name_pattern : String
  pub placeholder_pattern : String
  pub viewport_region : String
  pub ordinal : ℤ

pub record Action : Type 0 where
  -- the dictionary that the planner gave
  pub given : Fields
  -- `step["resolved"]`, which `visual_do` writes
  pub resolved : Option Descriptor

-- A member of the planner's list: a dictionary, or a value that is none.
pub data Step : Type 0 where
  action_step : Action → Step
  bad : Json → Step

abbrev pub step_of : Json → Step
step_of (obj d) = action_step (record { given = d; resolved = none })
step_of v = bad v

-- `s.get(k)` for a key that holds a text where it holds anything.
abbrev pub text_at : String → Fields → Option String
text_at k d = elim (get k d) [ str s ↦ some s | _ ↦ none ]

-- `a or b` on texts and None
abbrev pub or_text : Option String → Option String → Option String
or_text none b = b
or_text (some s) b = if str_eq s "" then b else some s

abbrev pub text_or : Option String → String → String
text_or none d = d
text_or (some s) d = s

-- `a or "…"`
abbrev pub or_default : Option String → String → String
or_default a d = text_or (or_text a (some d)) d

-- `int(step.get(k, d))` for a key that holds an integer where it holds anything.
abbrev pub int_at : String → ℤ → Fields → ℤ
int_at k default d = elim (get k d) [ num n ↦ n | _ ↦ default ]
