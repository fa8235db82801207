-- ===== src/Storage/AuditLog/Chain.antt =====
-- What the writers of the audit log keep true of its chain.
use browser_agent.Common.{
  ◌≡◌, refl, ◌∙◌, inl, inr, true, List, [], ◌∷◌, ◌++◌, arith, Bool-cases, any_of, str_eq,
}
use browser_agent.Agent.Effect.{ok}
use browser_agent.Storage.AuditLog.{
  Codec, Row, Event, event_id_of, hash, last_hash, new_row, append, verify_from, verify_chain,
  append_all,
}

module _ {H : Type 0} (codec : Codec H) where
  pub verify_from-new_row :
      (prev : H) (e : Event) → verify_from codec prev (new_row codec e prev ∷ []) ≡ ok true
  unfolding verify_from
  verify_from-new_row prev e =
      let (q, read, written) = codec.reads_back e.payload in
      rw (codec.same_refl prev, read, hash, written, codec.same_refl) refl

  -- A chain holds if its first part holds and the rest continues it.
  pub verify_from-append :
      (prev : H) (xs ys : List (Row H))
      → verify_from codec prev xs ≡ ok true
      → verify_from codec prev (xs ++ ys) ≡ verify_from codec (last_hash codec prev xs) ys
  unfolding verify_from last_hash
  verify_from-append prev [] ys e = refl
  verify_from-append prev (r ∷ xs) ys e = ground (arith, verify_from-append r.this_hash xs ys)

  append-verify :
      (e : Event) (rows : List (Row H))
      → verify_chain codec rows ≡ ok true
      → verify_chain codec (append codec e rows).1 ≡ ok true
  unfolding append verify_chain
  append-verify e rows p =
      elim (Bool-cases (any_of (λ (r : Row H). str_eq r.event_id (event_id_of e)) rows)) [
        | inl f ↦ rw f p
        | inr f ↦ rw f (
            verify_from-append codec.genesis_hash rows _ p
            ∙ verify_from-new_row (last_hash codec codec.genesis_hash rows) e)
      ]

  -- Whatever events are appended to a log whose chain verifies, the chain of the result verifies; an
  -- append that fails on a duplicate id does not harm it.
  pub append_all-verify :
      (es : List Event) (rows : List (Row H))
      → verify_chain codec rows ≡ ok true
      → verify_chain codec (append_all codec es rows) ≡ ok true
  unfolding append_all
  append_all-verify [] rows p = p
  append_all-verify (e ∷ es) rows p =
      append_all-verify es (append codec e rows).1 (append-verify e rows p)
