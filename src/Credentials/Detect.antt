-- ===== src/Credentials/Detect.antt =====
-- src/andera/credentials/detect.py. `urlparse` and `str.lower` are parameters.
use browser_agent.Common.{
  String, Bool, false, Option, none, some, List, [], ◌∷◌, str_eq, any_of, contains, if◌then◌else◌,
}
use browser_agent.Agent.Effect.{Result, ok, raised}

pub record UrlParser : Type 0 where
  -- `urlparse(url).hostname` and `urlparse(url).path`, each of which may raise
  pub hostname : String → Result (Option String)
  pub path : String → Result String
  pub lower : String → String

-- _LOGIN_PATH_TOKENS
abbrev pub login_path_tokens : List String
login_path_tokens =
    "/login" ∷ "/signin" ∷ "/sign_in" ∷ "/sign-in" ∷ "/auth" ∷ "/sso" ∷ "/oauth" ∷ "/sessions/new"
    ∷ []

module _ (parser : UrlParser) where
  -- `h.lower() if h else None`
  abbrev pub host_key : Option String → Option String
  host_key none = none
  host_key (some h) = if str_eq h "" then none else some (parser.lower h)

  unfoldable pub host_of : Option String → Option String
  host_of none = none
  host_of (some url) =
      if str_eq url ""
      then none
      else elim (parser.hostname url) [ raised e ↦ none | ok h ↦ host_key h ]

  unfoldable pub looks_logged_out : String → Bool
  looks_logged_out url = if str_eq url "" then false else elim (parser.path url) [
    | raised e ↦ false
    | ok p ↦ any_of (λ tok. contains (parser.lower p) tok) login_path_tokens
  ]
