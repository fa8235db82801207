-- ===== src/Api/EventBus/Latest.antt =====
-- What waits in the queue of a subscriber that does not read.
use browser_agent.Common.{
  ℕ, ◌+◌, ◌-◌, ◌<◌, ◌≡◌, ◌≢◌, inl, inr, refl, sym, ap, subst, ◌∙◌, String, Bool, true, false, not,
  ◌||◌, ◌&&◌, Option, none, some, List, [], ◌∷◌, ◌++◌, ◌==◌, ==_iff, length, keep_if, any_of, All,
  arith, get_elem?, length-append, All-append, All-map, keep_if-append, if◌then◌else◌, Bool-cases,
}
use mathlib.Core.List.{append-nil, append_assoc}
use browser_agent.Json.{Fields}
use browser_agent.Api.EventBus.Deliver.{
  latest, length-deliver_all, length-receive, get_elem?-receive_ne, get_elem?-deliver_all, drop_nil,
  latest-latest, deliver_lem, any_of-append, get_elem?-append, get_elem?-append_end,
  lt_of_get_elem?, length-latest,
}
use browser_agent.Api.EventBus.{
  EventBus, deliver, same_key, key_of, is_target, publish, subscribe, unsubscribe, Call, publishes,
  subscribes, unsubscribes, receives, step, run,
}

-- An event is for a subscriber of all events, and for one of the run that it names.
abbrev pub is_for : Option String → Fields → Bool
is_for key event = same_key key none || same_key key (key_of event)

abbrev pub published : List Call → List Fields
published [] = []
published (publishes event ∷ calls) = event ∷ published calls
published (_ ∷ calls) = published calls

-- A call of somebody else, who has no part in the queue.
abbrev pub Foreign : ℕ → Call → Type 0
Foreign id (publishes event) = Unit {0}
Foreign id (subscribes run_id maxsize) = Unit {0}
Foreign id (unsubscribes q run_id) = q ≢ id
Foreign id (receives q) = q ≢ id

-- The subscribers have queues that were made.
pub record IsValid (b : EventBus) : Type 0 where
  pub made : All (λ s. s.1 < length b.queues) b.subs

-- Who has left the set was no target of a queue of somebody else.
any_of-unsubscribed :
    (event : Fields) (id q : ℕ) (run_id : Option String) (subs : List (Option String × ℕ))
    → q ≢ id
    → any_of (is_target event id) (keep_if (λ s. not ((s.1 == q) && same_key s.0 run_id)) subs)
      ≡ any_of (is_target event id) subs
any_of-unsubscribed event id q run_id [] h = refl
any_of-unsubscribed event id q run_id ((key, i) ∷ subs) h =
    ground (arith, any_of-unsubscribed event id q run_id subs h, ==_iff i q, ==_iff i id)

not_made :
    (event : Fields) (id : ℕ) (subs : List (Option String × ℕ))
    → All (λ s. s.1 < id) subs
    → any_of (is_target event id) subs ≡ false
not_made event id [] h = refl
not_made event id ((key, i) ∷ subs) h = ground (arith, not_made event id subs h.1, ==_iff i id, h.0)

All-keep :
    {A : Type 0} (P : A → Type 0) (p : A → Bool) (xs : List A) → All P xs → All P (keep_if p xs)
All-keep P p [] h = tt
All-keep P p (x ∷ xs) h = elim (Bool-cases (p x)) [
  | inl e ↦ rw e (h.0, All-keep P p xs h.1)
  | inr e ↦ rw e (All-keep P p xs h.1)
]

pub step-IsValid : (call : Call) (b : EventBus) → IsValid b → IsValid (step call b)
unfolding step publish subscribe unsubscribe
step-IsValid (publishes event) b v = record {
  made = rw (length-deliver_all event b.subs 0 b.queues) v.made;
}
step-IsValid (subscribes run_id maxsize) b v = record {
  made =
      All-append _ b.subs _
        (All-map
          (λ s h.
            omega
              (arith, h, length-append b.queues (record { maxsize = maxsize; events = [] } ∷ [])))
          b.subs v.made)
        (
          omega (arith, length-append b.queues (record { maxsize = maxsize; events = [] } ∷ [])),
          tt,
        );
}
step-IsValid (unsubscribes q run_id) b v = record { made = All-keep _ _ b.subs v.made }
step-IsValid (receives q) b v = record { made = rw (length-receive q b.queues) v.made }

-- A queue with its subscription, and the events that were meant for it.
record Waits (id : ℕ) (key : Option String) (n : ℕ) (events : List Fields) (b : EventBus)
    : Type 0 where
  valid : IsValid b
  watched : (event : Fields) → any_of (is_target event id) b.subs ≡ is_for key event
  holds : get_elem? b.queues id ≡ some (record { maxsize = n; events = latest n events })

module _ (id : ℕ) (key : Option String) (n : ℕ) (pos : 0 < n) where
  publish-holds :
      (event : Fields) (events : List Fields) (b : EventBus)
      → Waits id key n events b
      → get_elem? (publish event b).queues id
        ≡ some (record {
          maxsize = n;
          events = latest n (events ++ keep_if (is_for key) (event ∷ []));
        })
  unfolding publish
  publish-holds event events b w =
      get_elem?-deliver_all event b.subs 0 id b.queues _ w.holds
      ∙ (ap
            (λ t. some (
              if t
              then deliver event (record { maxsize = n; events = latest n events })
              else record { maxsize = n; events = latest n events }))
            (at_id ∙ w.watched event)
          ∙ ap some (by_key (is_for key event)))
    where
      at_id : any_of (is_target event (0 + id)) b.subs ≡ any_of (is_target event id) b.subs
      at_id = let e : 0 + id ≡ id = omega arith in rw e refl

      by_key :
          (t : Bool)
          → (if t
              then deliver event (record { maxsize = n; events = latest n events })
              else record { maxsize = n; events = latest n events })
            ≡ record { maxsize = n; events = latest n (events ++ (if t then event ∷ [] else [])) }
      by_key true =
          deliver_lem n (latest n events) event pos (length-latest n events)
          ∙ ap (λ es. record { maxsize = n; events = es }) (latest-latest n events event)
      by_key false = rw append-nil refl

  step-Waits :
      (call : Call) (events : List Fields) (b : EventBus)
      → Foreign id call
      → Waits id key n events b
      → Waits id key n (events ++ keep_if (is_for key) (published (call ∷ []))) (step call b)
  unfolding step publish subscribe unsubscribe
  step-Waits (publishes event) events b f w = record {
    valid = step-IsValid (publishes event) b w.valid;
    watched = w.watched;
    holds = publish-holds event events b w;
  }
  step-Waits (subscribes run_id maxsize) events b f w = record {
    valid = step-IsValid (subscribes run_id maxsize) b w.valid;
    watched = λ event. ground (
      arith,
      any_of-append (is_target event id) b.subs ((run_id, length b.queues) ∷ []),
      w.watched event,
      ==_iff (length b.queues) id,
      lt_of_get_elem? b.queues id _ w.holds,
    );
    holds = rw append-nil (get_elem?-append b.queues _ id _ w.holds);
  }
  step-Waits (unsubscribes q run_id) events b f w = record {
    valid = step-IsValid (unsubscribes q run_id) b w.valid;
    watched = λ event. any_of-unsubscribed event id q run_id b.subs f ∙ w.watched event;
    holds = rw append-nil w.holds;
  }
  step-Waits (receives q) events b f w = record {
    valid = step-IsValid (receives q) b w.valid;
    watched = w.watched;
    holds = rw append-nil (get_elem?-receive_ne q id b.queues f ∙ w.holds);
  }

  run-Waits :
      (calls : List Call) (events : List Fields) (b : EventBus)
      → All (Foreign id) calls
      → Waits id key n events b
      → Waits id key n (events ++ keep_if (is_for key) (published calls)) (run calls b)
  unfolding run
  run-Waits [] events b f w = rw append-nil w
  run-Waits (call ∷ calls) events b f w =
      subst (λ es. Waits id key n es (run calls (step call b)))
        (append_assoc events _ _ ∙ ap (λ es. events ++ es) (sym (kept call calls)))
        (run-Waits calls _ (step call b) f.1 (step-Waits call events b f.0 w))
    where
      kept :
          (call : Call) (calls : List Call)
          → keep_if (is_for key) (published (call ∷ calls))
            ≡ keep_if (is_for key) (published (call ∷ [])) ++ keep_if (is_for key) (published calls)
      kept (publishes event) calls = keep_if-append (is_for key) (event ∷ []) (published calls)
      kept (subscribes run_id maxsize) calls = refl
      kept (unsubscribes q run_id) calls = refl
      kept (receives q) calls = refl

-- On a valid bus a subscriber of a run, or of all events, whose queue has a bound of at least one and
-- who neither reads nor leaves, finds in its queue the last events of that run, or of all, that were
-- published since, in their order and as many as the bound allows, whatever others do.
pub run-subscribe :
    (key : Option String) (n : ℕ) (calls : List Call) (b : EventBus)
    → IsValid b
    → 0 < n
    → All (Foreign (subscribe key n b).0) calls
    → get_elem? (run calls (subscribe key n b).1).queues (subscribe key n b).0
      ≡ some (record { maxsize = n; events = latest n (keep_if (is_for key) (published calls)) })
unfolding subscribe
run-subscribe key n calls b v pos f =
    (run-Waits (length b.queues) key n pos calls [] _ f (record {
      valid = step_valid;
      watched = λ event.
          any_of-append (is_target event (length b.queues)) b.subs _
          ∙ ground (
            arith,
            not_made event (length b.queues) b.subs v.made,
            ==_iff (length b.queues) (length b.queues),
          );
      holds =
          get_elem?-append_end b.queues _
          ∙ ap (λ es. some (record { maxsize = n; events = es })) (sym (drop_nil (0 - n)));
    })).holds
  where
    step_valid : IsValid (subscribe key n b).1
    step_valid = unfold step in step-IsValid (subscribes key n) b v
