-- ===== src/Tests/Settings.antt =====
-- A profile that two variables change.
use browser_agent.Common.{◌≡◌, refl, none, some, [], ◌∷◌}
use browser_agent.Json.{num, str, obj, Fields, end, field, pos}
use browser_agent.Config.{Environment, apply_env_overrides}
use browser_agent.Config.Decided.{Follows, apply_env_overrides-Follows}

abbrev environment : Environment
environment = record {
  environ = ("ANDERA_BACKEND", "postgres") ∷ ("ANDERA_QUEUE_BACKEND", "sqlite") ∷ [];
  lower = λ s. s;
  int = λ s. none;
}

abbrev queue : Fields
queue = field "backend" (str "redis") (field "max_attempts" (num (pos 3)) end)

abbrev profile : Fields
profile = field "queue" (obj queue) end

apply_env_overrides-Follows_example :
    (profile' : Fields) × (apply_env_overrides environment profile ≡ some profile')
    × Follows environment queue end profile profile'
apply_env_overrides-Follows_example =
    apply_env_overrides-Follows environment profile queue end end end refl refl refl refl
