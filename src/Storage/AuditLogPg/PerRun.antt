-- ===== src/Storage/AuditLogPg/PerRun.antt =====
-- The chain of each run in the shared table.
use mathlib.Core.List.{append-nil}
use browser_agent.Common.{
  String, ◌≡◌, refl, sym, ap, subst, ◌∙◌, inl, inr, true, false, Option, none, some, List, [], ◌∷◌,
  ◌++◌, All, str_eq, str_eq_refl, eq_iff, any_of, keep_if-append, Bool-cases, arith,
}
use browser_agent.Json.{Fields}
use browser_agent.Agent.Effect.{ok}
use browser_agent.Storage.AuditLog.{Codec, Row, Event, event_id_of, hash, last_hash, verify_from}
use browser_agent.Storage.AuditLog.Chain.{verify_from-append}
use browser_agent.Storage.AuditLogPg.{stored_row, in_chain, chain, append, verify_chain, append_all}

module _ {H : Type 0} (codec : Codec H) (jsonb : String → String) where
  -- PostgreSQL gives back for the payload a JSON text whose value is written as before it was put in.
  abbrev pub Kept : Event → Type 0
  Kept e =
      (q : Fields) × (codec.loads (jsonb (codec.canonical e.payload)) ≡ some q)
      × (codec.canonical q ≡ codec.canonical e.payload)

  verify_from-stored_row :
      (prev : H) (e : Event)
      → Kept e
      → verify_from codec prev (stored_row codec jsonb e prev ∷ []) ≡ ok true
  unfolding verify_from
  verify_from-stored_row prev e (q, read, written) =
      rw (codec.same_refl prev, read, hash, written, codec.same_refl) refl

  -- The chain of a run, or of the rows without one, holds.
  abbrev Holds : Option String → List (Row H) → Type 0
  Holds run_id rows = verify_from codec codec.genesis_hash (chain run_id rows) ≡ ok true

  in_own_chain : (run_id : Option String) (r : Row H) → r.run_id ≡ run_id → in_chain run_id r ≡ true
  in_own_chain none r e = rw e refl
  in_own_chain (some k) r e = rw e (str_eq_refl k)

  in_chain-eq :
      (k run_id : Option String) (r : Row H) → r.run_id ≡ run_id → in_chain k r ≡ true → k ≡ run_id
  in_chain-eq none none r e h = refl
  in_chain-eq none (some j) r e h = absurd ground (arith, rw e at h)
  in_chain-eq (some k) none r e h = absurd ground (arith, rw e at h)
  in_chain-eq (some k) (some j) r e h = ap some (sym ((eq_iff j k).0 (rw e at h)))

  abbrev grown : Event → List (Row H) → List (Row H)
  grown e rows =
      rows
      ++ stored_row codec jsonb e (last_hash codec codec.genesis_hash (chain e.run_id rows)) ∷ []

  -- The row is in the chain, or out of it.
  chain-grown :
      (k : Option String) (rows : List (Row H)) (row : Row H)
      → in_chain k row ≡ true
      → chain k (rows ++ row ∷ []) ≡ chain k rows ++ row ∷ []
  chain-grown k rows row t = keep_if-append (in_chain k) rows (row ∷ []) ∙ rw t refl

  chain-other :
      (k : Option String) (rows : List (Row H)) (row : Row H)
      → in_chain k row ≡ false
      → chain k (rows ++ row ∷ []) ≡ chain k rows
  chain-other k rows row t = keep_if-append (in_chain k) rows (row ∷ []) ∙ rw t (append-nil _)

  grown_own-Holds :
      (e : Event) (rows : List (Row H))
      → Kept e
      → Holds e.run_id rows
      → Holds e.run_id (grown e rows)
  grown_own-Holds e rows kept h =
      ap (verify_from codec codec.genesis_hash)
        (chain-grown e.run_id rows _ (in_own_chain e.run_id _ refl))
      ∙ verify_from-append codec codec.genesis_hash (chain e.run_id rows) _ h
      ∙ verify_from-stored_row _ e kept

  grown-Holds :
      (k : Option String) (e : Event) (rows : List (Row H))
      → Kept e
      → Holds e.run_id rows
      → Holds k rows
      → Holds k (grown e rows)
  grown-Holds k e rows kept own h =
      elim (Bool-cases (
        in_chain k
          (stored_row codec jsonb e (last_hash codec codec.genesis_hash (chain e.run_id rows))))) [
            | inl t ↦
                subst (λ x. Holds x (grown e rows)) (sym (in_chain-eq k e.run_id _ refl t))
                  (grown_own-Holds e rows kept own)
            | inr t ↦ ap (verify_from codec codec.genesis_hash) (chain-other k rows _ t) ∙ h
          ]

  append-Holds :
      (k : Option String) (e : Event) (rows : List (Row H))
      → Kept e
      → ((j : Option String) → Holds j rows)
      → Holds k (append codec jsonb e rows).1
  unfolding append
  append-Holds k e rows kept h =
      elim (Bool-cases (any_of (λ (r : Row H). str_eq r.event_id (event_id_of e)) rows)) [
        | inl f ↦ rw (f, append) (h k)
        | inr f ↦ rw (f, append) (grown-Holds k e rows kept (h e.run_id) (h k))
      ]

  append_all-Holds :
      (k : Option String) (es : List Event) (rows : List (Row H))
      → All Kept es
      → ((j : Option String) → Holds j rows)
      → Holds k (append_all codec jsonb es rows)
  unfolding append_all
  append_all-Holds k [] rows m h = h k
  append_all-Holds k (e ∷ es) rows m h =
      append_all-Holds k es (append codec jsonb e rows).1 m.1 (λ j. append-Holds j e rows m.0 h)

  no_rows-Holds : (j : Option String) → Holds j []
  unfolding verify_from
  no_rows-Holds j = refl

  -- Whatever events of whatever runs are appended to the empty table, in whatever order, the chain of
  -- each run verifies, if the JSONB column keeps their payloads: what it gives back for one is written as
  -- before.
  pub append_all-verify_run :
      (es : List Event) (run_id : String)
      → All Kept es
      → verify_chain codec (some run_id) (append_all codec jsonb es []) ≡ ok true
  unfolding verify_chain
  append_all-verify_run es run_id kept = append_all-Holds (some run_id) es [] kept no_rows-Holds

  -- If no digest is the genesis hash and the column keeps the first payload, then after one event each
  -- of two different runs the table as a whole does not verify, although nobody has changed it.
  two_runs-unverified :
      (e f : Event)
      → Kept e
      → ((s : String) → codec.same codec.genesis_hash (codec.sha256 s) ≡ false)
      → in_chain f.run_id (stored_row codec jsonb e codec.genesis_hash) ≡ false
      → str_eq (event_id_of e) (event_id_of f) ≡ false
      → verify_chain codec none (append_all codec jsonb (e ∷ f ∷ []) []) ≡ ok false
  unfolding verify_chain append_all append last_hash verify_from
  two_runs-unverified e f (q, read, written) free other ne =
      ap (verify_from codec codec.genesis_hash) both_rows
      ∙ rw (codec.same_refl, read, hash, written, codec.same_refl, free) refl
    where
      both_rows :
          append_all codec jsonb (e ∷ f ∷ []) []
          ≡ stored_row codec jsonb e codec.genesis_hash
            ∷ stored_row codec jsonb f codec.genesis_hash
            ∷ []
      both_rows = rw (append_all, append, ne, other) refl
