-- ===== src/Config.antt =====
-- `_apply_env_overrides` of src/andera/config/loader.py: what the environment changes in the decoded profile.
-- A section that is neither a dictionary nor empty makes `dict(…)` raise, as a list of pairs, which `dict` would
-- take, does here; `str.lower` and `int` are parameters.
pub mod Sections
pub mod Settings
pub mod Decided
use browser_agent.Common.{
  String, Bool, true, false, Option, none, some, List, [], ◌∷◌, str_eq, any_of, if◌then◌else◌, Dict,
  lookup,
}
use browser_agent.Json.{Json, ℤ, bool, num, str, obj, Fields, end, field, get, put, truthy}

pub record Environment : Type 0 where
  pub environ : Dict String
  pub lower : String → String
  -- `int(s)`, where none is a ValueError
  pub int : String → Option ℤ

-- `dict(raw.get(key) or {})`
abbrev pub section : String → Fields → Option Fields
section key raw =
    if truthy (get key raw) then elim (get key raw) [ obj d ↦ some d | _ ↦ none ] else some end

-- `if d: raw[key] = d`
abbrev pub put_section : String → Fields → Fields → Fields
put_section key end raw = raw
put_section key (field k v d) raw = put key (obj (field k v d)) raw

-- `if meta:` and its two lines
abbrev pub put_metadata : Fields → Fields → Fields → Fields
put_metadata s end raw = raw
put_metadata s (field k v d) raw = put "storage" (obj (put "metadata" (obj (field k v d)) s)) raw

module _ (e : Environment) where
  -- `d[key] = …` for a variable that is set
  abbrev pub override : String → String → (String → Json) → Fields → Fields
  override var key f d = elim (lookup var e.environ) [ none ↦ d | some v ↦ put key (f v) d ]

  abbrev pub flag : String → Json
  flag v = bool (any_of (str_eq (e.lower v)) ("1" ∷ "true" ∷ "yes" ∷ "on" ∷ []))

  abbrev pub is_postgres : Bool
  is_postgres = elim (lookup "ANDERA_BACKEND" e.environ) [
    | none ↦ false
    | some v ↦ str_eq v "postgres"
  ]

  abbrev pub put_int : String → String → Fields → Fields
  put_int key v d = elim (e.int v) [ none ↦ d | some n ↦ put key (num n) d ]

  unfoldable pub browser_section : Fields → Fields
  browser_section br =
      let br₁ = override "ANDERA_HEADLESS" "headless" flag br in
      elim (lookup "ANDERA_CONCURRENCY" e.environ) [
        | none ↦ br₁
        | some v ↦ put_int "concurrency" v br₁
      ]

  unfoldable pub queue_section : Fields → Fields
  queue_section q =
      let q₁ =
        if is_postgres then put "distributed" (bool true) (put "backend" (str "redis") q) else q in
      let q₂ = override "ANDERA_QUEUE_BACKEND" "backend" str q₁ in
      let q₃ = override "ANDERA_QUEUE_DISTRIBUTED" "distributed" flag q₂ in
      override "ANDERA_REDIS_URL" "redis_url" str q₃

  unfoldable pub metadata_section : Fields → Fields
  metadata_section meta =
      let meta₁ = if is_postgres then put "backend" (str "postgres") meta else meta in
      let meta₂ = override "ANDERA_METADATA_BACKEND" "backend" str meta₁ in
      override "ANDERA_POSTGRES_URL" "postgres_url" str meta₂

  -- The three `if`s at the end.
  unfoldable pub assemble : Fields → Fields → Fields → Fields → Fields → Fields
  assemble raw q s meta br =
      let raw₁ = put_section "queue" q raw in put_section "browser" br (put_metadata s meta raw₁)

  unfoldable pub apply_env_overrides : Fields → Option Fields
  unfolding assemble queue_section metadata_section browser_section
  apply_env_overrides raw = elim (section "queue" raw) [
    | none ↦ none
    | some q ↦ elim (section "storage" raw) [
      | none ↦ none
      | some s ↦ elim (section "metadata" s) [
        | none ↦ none
        | some meta ↦ elim (section "browser" raw) [
          | none ↦ none
          | some br ↦
              some (assemble raw (queue_section q) s (metadata_section meta) (browser_section br))
        ]
      ]
    ]
  ]
