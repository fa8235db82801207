-- ===== src/Storage/AuditLog.antt =====
-- src/andera/storage/audit_log.py: `AuditLog` over its one table. The rows stand in the order of
-- their `rowid`. A reading of `_utcnow()` and a fresh uuid are arguments. The callback `on_append`
-- comes after the write and cannot change its outcome.
pub mod Joined
pub mod Chain
pub mod Tamper
use browser_agent.Common.{
  String, ◌≡◌, Bool, true, false, not, Option, none, some, List, [], ◌∷◌, ◌++◌, str_eq, any_of,
  keep_if, if◌then◌else◌, join,
}
use browser_agent.Json.{Fields}
use browser_agent.Agent.Effect.{Failure, exception, Result, ok, raised}

-- SHA-256 and the JSON codec: `H` holds the hexadecimal digests.
pub record Codec (H : Type 0) : Type 0 where
  pub genesis_hash : H
  pub same : H → H → Bool
  -- `hashlib.sha256(blob.encode("utf-8")).hexdigest()`
  pub sha256 : String → H
  -- the digest as a text
  pub hex : H → String
  -- `_canonical`
  pub canonical : Fields → String
  -- `json.loads`, where none is an exception
  pub loads : String → Option Fields
  pub same→eq : (a b : H) → same a b ≡ true → a ≡ b
  pub same_refl : (a : H) → same a a ≡ true
  -- A text that `canonical` wrote is read, and the value is written as the same text.
  pub reads_back :
      (p : Fields) → (q : Fields) × (loads (canonical p) ≡ some q) × (canonical q ≡ canonical p)

pub record Row (H : Type 0) : Type 0 where
  pub event_id : String
  pub kind : String
  pub run_id : Option String
  pub sample_id : Option String
  pub timestamp : String
  pub payload_json : String
  pub prev_hash : Option H
  pub this_hash : H

-- The arguments of `append`, with the uuid and the clock reading it draws.
pub record Event : Type 0 where
  pub kind : String
  pub payload : Fields
  pub run_id : Option String
  pub sample_id : Option String
  pub event_id : Option String
  pub fresh : String
  pub timestamp : String

-- "\x1f"
abbrev pub unit_separator : String
unit_separator = "\u{1f}"

abbrev pub event_id_of : Event → String
event_id_of e = elim e.event_id [ none ↦ e.fresh | some i ↦ if str_eq i "" then e.fresh else i ]

abbrev pub is_run : String → Option String → Bool
is_run run_id none = false
is_run run_id (some r) = str_eq r run_id

module _ {H : Type 0} (codec : Codec H) where
  abbrev pub parts : H → String → String → String → Fields → List String
  parts prev_hash event_id kind timestamp payload =
      codec.hex prev_hash ∷ event_id ∷ kind ∷ timestamp ∷ codec.canonical payload ∷ []

  -- `_hash`
  abbrev pub hash : H → String → String → String → Fields → H
  hash prev_hash event_id kind timestamp payload =
      codec.sha256 (join unit_separator (parts prev_hash event_id kind timestamp payload))

  -- `SELECT this_hash … ORDER BY rowid DESC LIMIT 1`, or the hash that stands before the rows.
  unfoldable pub last_hash : H → List (Row H) → H
  last_hash prev [] = prev
  last_hash prev (r ∷ rows) = last_hash r.this_hash rows

  abbrev pub new_row : Event → H → Row H
  new_row e prev = record {
    event_id = event_id_of e;
    kind = e.kind;
    run_id = e.run_id;
    sample_id = e.sample_id;
    timestamp = e.timestamp;
    payload_json = codec.canonical e.payload;
    prev_hash = some prev;
    this_hash = hash prev (event_id_of e) e.kind e.timestamp e.payload;
  }

  -- The id of an event is the primary key.
  unfoldable pub append : Event → List (Row H) → Result H × List (Row H)
  unfolding last_hash
  append e rows =
      let row = new_row e (last_hash codec.genesis_hash rows) in
      if any_of (λ r. str_eq r.event_id (event_id_of e)) rows
      then (raised (exception "IntegrityError"), rows)
      else (ok row.this_hash, rows ++ row ∷ [])

  pub rows_for_run : String → List (Row H) → List (Row H)
  rows_for_run run_id rows = keep_if (λ r. is_run run_id r.run_id) rows

  pub root_hash : Option String → List (Row H) → H
  unfolding last_hash rows_for_run
  root_hash none rows = last_hash codec.genesis_hash rows
  root_hash (some run_id) rows = last_hash codec.genesis_hash (rows_for_run run_id rows)

  -- The loop, with the variable `expected_prev`.
  unfoldable pub verify_from : H → List (Row H) → Result Bool
  verify_from expected [] = ok true
  verify_from expected (r ∷ rows) =
      let rest = verify_from r.this_hash rows in
      elim r.prev_hash [
        | none ↦ ok false
        | some prev ↦
            if codec.same prev expected
            then elim (codec.loads r.payload_json) [
              | none ↦ raised (exception "JSONDecodeError")
              | some payload ↦
                  if codec.same (hash prev r.event_id r.kind r.timestamp payload) r.this_hash
                  then rest
                  else ok false
            ]
            else ok false
      ]

  unfoldable pub verify_chain : List (Row H) → Result Bool
  unfolding verify_from
  verify_chain rows = verify_from codec.genesis_hash rows

  -- A history of calls of `append`.
  unfoldable pub append_all : List Event → List (Row H) → List (Row H)
  unfolding append
  append_all [] rows = rows
  append_all (e ∷ es) rows = append_all es (append e rows).1
