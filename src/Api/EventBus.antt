-- ===== src/Api/EventBus.antt =====
-- `EventBus` of src/andera/api/ws.py. An `asyncio.Queue` is a list of its events, the oldest first, with
-- its bound, and stands for itself by an identity; the subscribers keep the identities. What a publisher
-- does not see, a consumer that waits in `get`, is a queue that its consumer empties.
mod Deliver
pub mod Latest
use browser_agent.Common.{
  ℕ, zero, suc, ◌+◌, String, Bool, true, false, not, ◌||◌, ◌&&◌, Option, none, some, List, [], ◌∷◌,
  ◌++◌, ◌==◌, str_eq, leb, length, keep_if, any_of, if◌then◌else◌,
}
use browser_agent.Json.{Fields, get, str}

-- An `asyncio.Queue`, full with `maxsize` events if that is not 0.
pub record Mailbox : Type 0 where
  pub maxsize : ℕ
  pub events : List Fields

pub record EventBus : Type 0 where
  -- `_subs`, as pairs of a run, or None, and a queue
  pub subs : List (Option String × ℕ)
  -- The queues that were made, by identity: the next one gets the length of the list.
  pub queues : List Mailbox

-- `q.full()`
abbrev pub is_full : Mailbox → Bool
is_full m = not (m.maxsize == 0) && leb m.maxsize (length m.events)

abbrev pub put_nowait : Fields → Mailbox → Option Mailbox
put_nowait event m = if is_full m then none else some (record m { events = m.events ++ event ∷ [] })

-- `_ = q.get_nowait()`, which raises on an empty queue
abbrev pub get_nowait : Mailbox → Option Mailbox
get_nowait m = elim m.events [ [] ↦ none | e ∷ es ↦ some (record m { events = es }) ]

-- What `publish` does to one queue.
unfoldable pub deliver : Fields → Mailbox → Mailbox
deliver event m = elim (put_nowait event m) [
  | some m' ↦ m'
  | none ↦ elim (get_nowait m) [
    | none ↦ m
    | some m' ↦ elim (put_nowait event m') [ none ↦ m' | some m'' ↦ m'' ]
  ]
]

abbrev pub same_key : Option String → Option String → Bool
same_key none none = true
same_key (some a) (some b) = str_eq a b
same_key _ _ = false

-- `run_id is not None` and the queues of a run: `event.get("run_id")`
abbrev pub key_of : Fields → Option String
key_of event = elim (get "run_id" event) [ str s ↦ some s | _ ↦ none ]

abbrev pub is_target : Fields → ℕ → Option String × ℕ → Bool
is_target event q (key, id) = (id == q) && (same_key key none || same_key key (key_of event))

module _ (event : Fields) (subs : List (Option String × ℕ)) where
  -- The loop over the set of targets: each queue of the set once.
  pub deliver_all : ℕ → List Mailbox → List Mailbox
  deliver_all id [] = []
  deliver_all id (m ∷ ms) =
      (if any_of (is_target event id) subs then deliver event m else m) ∷ deliver_all (id + 1) ms

unfoldable pub publish : Fields → EventBus → EventBus
unfolding deliver_all
publish event b = record b { queues = deliver_all event b.subs 0 b.queues }

unfoldable pub subscribe : Option String → ℕ → EventBus → ℕ × EventBus
subscribe run_id maxsize b = (
  length b.queues,
  record {
    subs = b.subs ++ (run_id, length b.queues) ∷ [];
    queues = b.queues ++ record { maxsize = maxsize; events = [] } ∷ [];
  },
)

unfoldable pub unsubscribe : ℕ → Option String → EventBus → EventBus
unsubscribe q run_id b = record b {
  subs = keep_if (λ s. not ((s.1 == q) && same_key s.0 run_id)) b.subs;
}

-- A consumer that takes an event from its queue, if there is one.
unfoldable pub receive : ℕ → List Mailbox → List Mailbox
receive q [] = []
receive zero (m ∷ ms) = elim (get_nowait m) [ none ↦ m | some m' ↦ m' ] ∷ ms
receive (suc q) (m ∷ ms) = m ∷ receive q ms

pub data Call : Type 0 where
  publishes : Fields → Call
  subscribes : Option String → ℕ → Call
  unsubscribes : ℕ → Option String → Call
  receives : ℕ → Call

unfoldable pub step : Call → EventBus → EventBus
unfolding publish subscribe unsubscribe
step (publishes event) b = publish event b
step (subscribes run_id maxsize) b = (subscribe run_id maxsize b).1
step (unsubscribes q run_id) b = unsubscribe q run_id b
step (receives q) b = record b { queues = receive q b.queues }

unfoldable pub run : List Call → EventBus → EventBus
unfolding step
run [] b = b
run (call ∷ calls) b = run calls (step call b)
