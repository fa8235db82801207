-- ===== src/Agent/Reply/Classified.antt =====
-- What `classify_task` can answer.
use Prim.Native.String.{String}
use browser_agent.Common.{◌≡◌, refl, ◌⊎◌, inl, inr, true, Option, str_eq, any_of, Bool-cases}
use browser_agent.Json.{Json}
use browser_agent.Agent.Effect.{Result, ok, raised}
use browser_agent.Agent.Reply.{
  Texts, valid, or_text, task_type, judged, classifier_text, classify_task,
}

module _ (texts : Texts) where
  -- An answer is one of the five types, and any but "unknown" is what the reply names.
  abbrev pub Classified : Result (Option String) → String → Type 0
  Classified (raised e) t = t ≡ "unknown"
  Classified (ok content) t =
      (any_of (str_eq t) (valid texts) ≡ true)
      × ((t ≡ "unknown")
          ⊎ ((parsed : Json) × (texts.loads (classifier_text texts (or_text content ""))
                ≡ ok parsed)
              × (t ≡ task_type texts parsed)))

  judged_lem :
      (content : Option String) (r : Result Json)
      → texts.loads (classifier_text texts (or_text content "")) ≡ r
      → Classified (ok content) (judged texts r)
  judged_lem content (raised e) q = (refl, inl refl)
  judged_lem content (ok parsed) q =
      elim (Bool-cases (any_of (str_eq (task_type texts parsed)) (valid texts))) [
        | inl e ↦ rw e (e, inr (parsed, q, refl))
        | inr e ↦ rw e (refl, inl refl)
      ]

  -- Whatever the model answers or raises, classify_task returns one of its five types, and one other than
  -- "unknown" only if the text of the answer is read as JSON that names it.
  pub classify_task-Classified :
      (reply : Result (Option String)) → Classified reply (classify_task texts reply)
  unfolding classify_task
  classify_task-Classified (raised e) = refl
  classify_task-Classified (ok content) = judged_lem content _ refl
