-- ===== src/Storage/AuditLog/Tamper.antt =====
-- What `verify_chain` and the root hash say against someone who changes rows.
use browser_agent.Common.{
  String, ◌≡◌, refl, sym, ap, ◌∙◌, true, Option, none, some, List, [], ◌∷◌, map, arith, length, All,
}
use mathlib.Core.Option
use browser_agent.Json.{Fields}
use browser_agent.Agent.Effect.{ok}
use browser_agent.Storage.AuditLog.{
  Codec, Row, parts, hash, last_hash, verify_from, verify_chain, root_hash,
}
use browser_agent.Storage.AuditLog.Joined.{IsPlain, join-injective}

-- What the hash of a row covers.
pub record Content (H : Type 0) : Type 0 where
  pub prev_hash : Option H
  pub event_id : String
  pub kind : String
  pub timestamp : String
  -- the payload that the text decodes to, written again
  pub payload : Option String

abbrev pub relabel : {H : Type 0} → (Row H → Option String × Option String) → Row H → Row H
relabel f r = record r { run_id = (f r).0; sample_id = (f r).1 }

module _ {H : Type 0} (codec : Codec H) where
  abbrev pub content : Row H → Content H
  content r = record {
    prev_hash = r.prev_hash;
    event_id = r.event_id;
    kind = r.kind;
    timestamp = r.timestamp;
    payload = Option.map codec.canonical (codec.loads r.payload_json);
  }

  -- SHA-256 is taken to have no collisions; a digest is written in hexadecimal digits; and JSON escapes
  -- the control characters, so that neither has the separator.
  pub record CollisionFree : Type 0 where
    pub sha256_injective : (s t : String) → codec.sha256 s ≡ codec.sha256 t → s ≡ t
    pub hex_injective : (a b : H) → codec.hex a ≡ codec.hex b → a ≡ b
    pub hex_plain : (a : H) → IsPlain (codec.hex a)
    pub canonical_plain : (p : Fields) → IsPlain (codec.canonical p)

  -- The columns that are written as they are given.
  abbrev pub PlainRow : Row H → Type 0
  PlainRow r = IsPlain r.event_id × IsPlain r.kind × IsPlain r.timestamp

  hash-injective :
      CollisionFree
      → (a a' : H) (b b' c c' d d' : String) (p p' : Fields) → IsPlain b × IsPlain c × IsPlain d
      → hash codec a b c d p ≡ hash codec a' b' c' d' p'
      → (a ≡ a') × (b ≡ b') × (c ≡ c') × (d ≡ d') × (codec.canonical p ≡ codec.canonical p')
  hash-injective free a a' b b' c c' d d' p p' (u, v, w) e =
      let same : parts codec a b c d p ≡ parts codec a' b' c' d' p' =
        join-injective (parts codec a b c d p) (parts codec a' b' c' d' p') refl
          (free.hex_plain a, (u, (v, (w, (free.canonical_plain p, tt)))))
          (free.sha256_injective _ _ e) in
      (free.hex_injective a a' (cc same), cc same, cc same, cc same, cc same)

  -- A row that verifies: its columns and the rest of the chain.
  abbrev Verified : H → Row H → List (Row H) → Type 0
  Verified prev r rows =
      (r.prev_hash ≡ some prev)
      × ((p : Fields) × (codec.loads r.payload_json ≡ some p)
          × (hash codec prev r.event_id r.kind r.timestamp p ≡ r.this_hash))
      × (verify_from codec r.this_hash rows ≡ ok true)

  verify_from-Verified :
      (prev : H) (r : Row H) (rows : List (Row H))
      → verify_from codec prev (r ∷ rows) ≡ ok true
      → Verified prev r rows
  unfolding verify_from
  verify_from-Verified prev r rows e = go r.prev_hash refl (codec.loads r.payload_json) refl
    where
      go :
          (o : Option H)
          → r.prev_hash ≡ o
          → (l : Option Fields) → codec.loads r.payload_json ≡ l
          → Verified prev r rows
      go none f l g = absurd ground (arith, f, e)
      go (some x) f none g = absurd ground (arith, f, g, e)
      go (some x) f (some p) g =
          let same_prev = codec.same→eq x prev (ground (arith, f, g, e)) in
          (
            f ∙ ap some same_prev,
            (
              p,
              g,
              ap (λ y. hash codec y r.event_id r.kind r.timestamp p) (sym same_prev)
                  ∙ codec.same→eq _ _ (ground (arith, f, g, e)),
            ),
            ground (arith, f, g, e),
          )

  -- Two chains of one length that verify and end in one hash start from one hash, and hash the same.
  agree :
      CollisionFree
      → (prev prev' : H) (rows rows' : List (Row H)) → All PlainRow rows
      → verify_from codec prev rows ≡ ok true
      → verify_from codec prev' rows' ≡ ok true
      → length rows ≡ length rows'
      → last_hash codec prev rows ≡ last_hash codec prev' rows'
      → (prev ≡ prev') × (map content rows ≡ map content rows')
  unfolding last_hash
  agree free prev prev' [] [] m v v' n e = (e, refl)
  agree free prev prev' [] (r' ∷ rows') m v v' n e = absurd omega (arith, n)
  agree free prev prev' (r ∷ rows) [] m v v' n e = absurd omega (arith, n)
  agree free prev prev' (r ∷ rows) (r' ∷ rows') m v v' n e =
      let (q, (p, read, made), rest) = verify_from-Verified prev r rows v in
      let (q', (p', read', made'), rest') = verify_from-Verified prev' r' rows' v' in
      let (tops, tails) =
        agree free r.this_hash r'.this_hash rows rows' m.1 rest rest' (omega (arith, n)) e in
      let (a, b, c, d, f) = hash-injective free _ _ _ _ _ _ _ _ _ _ m.0 (made ∙ tops ∙ sym made') in
      (a, rw (tails, q, read, q', read', a, b, c, d, f) refl)

  -- If SHA-256 has no collisions and no id, kind or timestamp of a log has the separator "\x1f", then
  -- another log of the same length, which may have it, and which verifies like the first and has its root
  -- hash, has in each row the same id, kind, timestamp, payload and previous hash; the columns run_id and
  -- sample_id are not compared. So whoever changes one of the five in any row must change the root hash or be
  -- found by `verify_chain`.
  pub verified-same_content :
      CollisionFree
      → (rows rows' : List (Row H)) → All PlainRow rows
      → verify_chain codec rows ≡ ok true
      → verify_chain codec rows' ≡ ok true
      → length rows ≡ length rows'
      → root_hash codec none rows ≡ root_hash codec none rows'
      → map content rows ≡ map content rows'
  unfolding verify_chain root_hash
  verified-same_content free rows rows' m v v' n e =
      (agree free codec.genesis_hash codec.genesis_hash rows rows' m v v' n e).1

  verify_from-relabel :
      (f : Row H → Option String × Option String) (prev : H) (rs : List (Row H))
      → verify_from codec prev (map (relabel f) rs) ≡ verify_from codec prev rs
  unfolding verify_from
  verify_from-relabel f prev [] = refl
  verify_from-relabel f prev (r ∷ rs) = ground (arith, verify_from-relabel f r.this_hash rs)

  last_hash-relabel :
      (f : Row H → Option String × Option String) (prev : H) (rs : List (Row H))
      → last_hash codec prev (map (relabel f) rs) ≡ last_hash codec prev rs
  unfolding last_hash
  last_hash-relabel f prev [] = refl
  last_hash-relabel f prev (r ∷ rs) = last_hash-relabel f r.this_hash rs

  -- `run_id` and `sample_id` are not hashed: whoever rewrites those columns, in any rows, leaves the
  -- answer of `verify_chain` and the root hash of the whole log as they were.
  relabel-verify :
      (f : Row H → Option String × Option String) (rows : List (Row H))
      → (verify_chain codec (map (relabel f) rows) ≡ verify_chain codec rows)
        × (root_hash codec none (map (relabel f) rows) ≡ root_hash codec none rows)
  unfolding verify_chain root_hash
  relabel-verify f rows =
      (verify_from-relabel f codec.genesis_hash rows, last_hash-relabel f codec.genesis_hash rows)
