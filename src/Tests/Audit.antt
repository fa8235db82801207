-- ===== src/Tests/Audit.antt =====
-- An audit log whose digests are the hashed texts themselves.
use Prim.Native.Char.{Char, code}
use text.Mathlib.TextEquality.{Char-path}
use browser_agent.Common.{
  String, ◌≡◌, refl, Bool, true, false, none, some, List, [], ◌∷◌, map, str_eq, str_eq_refl, arith,
  eq_iff, ℕ, ap, sym, All, ◌==◌, followed_by,
}
use browser_agent.Json.{end}
use browser_agent.Agent.Effect.{ok}
use browser_agent.Storage.AuditLog.{
  Codec, Row, Event, append, append_all, verify_chain, verify_from,
}
use browser_agent.Storage.AuditLogPg
use browser_agent.Storage.AuditLogPg.PerRun.{append_all-verify_run}
use browser_agent.Storage.AuditLog.Joined.{IsPlain}
use browser_agent.Storage.AuditLog.Chain.{append_all-verify}
use browser_agent.Storage.AuditLog.Tamper.{PlainRow, CollisionFree, content, verified-same_content}

-- A text with every character marked, so that the separator does not occur.
abbrev escaped : Bool → Char → String → String
escaped true c rest = followed_by "10" rest
escaped false c rest = followed_by "0" (String.◌∷◌ c rest)

abbrev is_unit_separator : Char → Bool
is_unit_separator c = code c == 31

unfoldable pub hex : String → String
hex String.[] = ""
hex (String.◌∷◌ c s) = escaped (is_unit_separator c) c (hex s)

escaped-IsPlain :
    (c : Char) (rest : String) → IsPlain rest → IsPlain (escaped (is_unit_separator c) c rest)
escaped-IsPlain c rest h = ground (arith, h)

hex-IsPlain : (s : String) → IsPlain (hex s)
unfolding hex
hex-IsPlain String.[] = refl
hex-IsPlain (String.◌∷◌ c s) = escaped-IsPlain c (hex s) (hex-IsPlain s)

abbrev head_code : String → ℕ
head_code String.[] = 0
head_code (String.◌∷◌ c s) = code c

abbrev tail : String → String
tail String.[] = String.[]
tail (String.◌∷◌ c s) = s

hex-ne : (b : Bool) (c : Char) (s : String) → "" ≡ escaped b c s → ⊥
hex-ne true c s e = let h : 0 ≡ 49 = ap head_code e in omega (arith, h)
hex-ne false c s e = let h : 0 ≡ 48 = ap head_code e in omega (arith, h)

escaped-injective :
    (b b' : Bool) (c c' : Char) (s s' : String)
    → is_unit_separator c ≡ b
    → is_unit_separator c' ≡ b'
    → escaped b c s ≡ escaped b' c' s'
    → (c ≡ c') × (s ≡ s')
escaped-injective true true c c' s s' p q e =
    (Char-path c c' (ground (arith, p, q)), ap (λ x. tail (tail x)) e)
escaped-injective true false c c' s s' p q e =
    let h : 49 ≡ 48 = ap head_code e in absurd (omega (arith, h))
escaped-injective false true c c' s s' p q e =
    let h : 48 ≡ 49 = ap head_code e in absurd (omega (arith, h))
escaped-injective false false c c' s s' p q e =
    (Char-path c c' (ap (λ x. head_code (tail x)) e), ap (λ x. tail (tail x)) e)

hex-injective : (s t : String) → hex s ≡ hex t → s ≡ t
unfolding hex
hex-injective String.[] String.[] e = refl
hex-injective String.[] (String.◌∷◌ d t) e = absurd (hex-ne _ d (hex t) e)
hex-injective (String.◌∷◌ c s) String.[] e = absurd (hex-ne _ c (hex s) (sym e))
hex-injective (String.◌∷◌ c s) (String.◌∷◌ d t) e =
    let (f, g) = escaped-injective _ _ c d (hex s) (hex t) refl refl e in
    cc (f, hex-injective s t g)

abbrev pub codec : Codec String
codec = record {
  genesis_hash = "0";
  same = str_eq;
  sha256 = λ s. s;
  hex = hex;
  canonical = λ p. "{}";
  loads = λ s. some end;
  same→eq = λ a b. (eq_iff a b).0;
  same_refl = str_eq_refl;
  reads_back = λ p. (end, refl, refl);
}

free : CollisionFree codec
free = record {
  sha256_injective = λ s t e. e;
  hex_injective = hex-injective;
  hex_plain = hex-IsPlain;
  canonical_plain = λ p. refl;
}

-- A column that puts a space before the payload.
abbrev jsonb : String → String
jsonb s = followed_by " " s

abbrev event : String → String → Event
event id kind = record {
  kind = kind;
  payload = end;
  run_id = some "run";
  sample_id = none;
  event_id = some id;
  fresh = "u";
  timestamp = "12:00";
}

abbrev events : List Event
events = event "1" "run.started" ∷ event "2" "sample.started" ∷ event "2" "again" ∷ []

abbrev log : List (Row String)
log = append_all codec events []

empty_log-verify : verify_chain codec [] ≡ ok true
unfolding verify_chain verify_from
empty_log-verify = refl

append_all-verify_example : verify_chain codec log ≡ ok true
append_all-verify_example = append_all-verify codec events [] empty_log-verify

log-PlainRow : All (PlainRow codec) log
unfolding append_all append
log-PlainRow = ((refl, refl, refl), ((refl, refl, refl), tt))

verified-same_content_example : map (content codec) log ≡ map (content codec) log
verified-same_content_example =
    verified-same_content codec free log log log-PlainRow append_all-verify_example
      append_all-verify_example refl refl

-- The event of another run.
abbrev other_event : Event
other_event = record (event "3" "run.started") { run_id = some "run-1" }

append_all-verify_run_example :
    AuditLogPg.verify_chain codec (some "run-1") (
      AuditLogPg.append_all codec jsonb
        (event "1" "run.started" ∷ other_event ∷ event "2" "run.completed" ∷ [])
        [])
    ≡ ok true
append_all-verify_run_example =
    append_all-verify_run codec jsonb
      (event "1" "run.started" ∷ other_event ∷ event "2" "run.completed" ∷ []) "run-1"
      ((end, refl, refl), ((end, refl, refl), ((end, refl, refl), tt)))
