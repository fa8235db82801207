-- ===== src/Api/EventBus/Deliver.antt =====
-- Lemmas on one queue, and on the list of the queues.
use browser_agent.Common.{
  ℕ, zero, suc, ◌+◌, ◌-◌, ◌<◌, ◌≤◌, ◌≡◌, ◌≢◌, refl, sym, ap, ◌∙◌, String, Bool, ◌||◌, Option, some,
  List, [], ◌∷◌, ◌++◌, length, drop, any_of, arith, get_elem?, length-append, length-drop,
  if◌then◌else◌,
}
use native.Mathlib.Decide.{dec_lt}
use browser_agent.Json.{Fields}
use browser_agent.Api.EventBus.{Mailbox, deliver, is_target, deliver_all, receive}

-- The last entries.
abbrev pub latest : {A : Type 0} → ℕ → List A → List A
latest n xs = drop (length xs - n) xs

pub length-deliver_all :
    (event : Fields) (subs : List (Option String × ℕ)) (id : ℕ) (ms : List Mailbox)
    → length (deliver_all event subs id ms) ≡ length ms
unfolding deliver_all
length-deliver_all event subs id [] = refl
length-deliver_all event subs id (m ∷ ms) = omega (arith, length-deliver_all event subs (id + 1) ms)

pub length-receive : (q : ℕ) (ms : List Mailbox) → length (receive q ms) ≡ length ms
unfolding receive
length-receive zero [] = refl
length-receive (suc q) [] = refl
length-receive zero (m ∷ ms) = refl
length-receive (suc q) (m ∷ ms) = omega (arith, length-receive q ms)

pub get_elem?-receive_ne :
    (q id : ℕ) (ms : List Mailbox) → q ≢ id → get_elem? (receive q ms) id ≡ get_elem? ms id
unfolding receive
get_elem?-receive_ne zero id [] h = refl
get_elem?-receive_ne (suc q) id [] h = refl
get_elem?-receive_ne zero zero (m ∷ ms) h = absurd (h refl)
get_elem?-receive_ne zero (suc id) (m ∷ ms) h = refl
get_elem?-receive_ne (suc q) zero (m ∷ ms) h = refl
get_elem?-receive_ne (suc q) (suc id) (m ∷ ms) h = get_elem?-receive_ne q id ms (λ e. h (ap suc e))

pub get_elem?-deliver_all :
    (event : Fields) (subs : List (Option String × ℕ)) (k id : ℕ) (ms : List Mailbox) (m : Mailbox)
    → get_elem? ms id ≡ some m
    → get_elem? (deliver_all event subs k ms) id
      ≡ some (if any_of (is_target event (k + id)) subs then deliver event m else m)
unfolding deliver_all
get_elem?-deliver_all event subs k id [] m h = cc
get_elem?-deliver_all event subs k zero (m₀ ∷ ms) m h =
    let e : k + 0 ≡ k = omega arith in rw e (ground (arith, h))
get_elem?-deliver_all event subs k (suc id) (m₀ ∷ ms) m h =
    let e : k + suc id ≡ k + 1 + id = omega arith in
    rw e (get_elem?-deliver_all event subs (k + 1) id ms m h)

drop-append : (k : ℕ) (xs ys : List Fields) → k ≤ length xs → drop k (xs ++ ys) ≡ drop k xs ++ ys
drop-append zero [] ys h = refl
drop-append zero (x ∷ xs) ys h = refl
drop-append (suc k) [] ys h = absurd (omega (arith, h))
drop-append (suc k) (x ∷ xs) ys h = drop-append k xs ys (omega (arith, h))

pub drop_nil : (i : ℕ) → drop {A = Fields} i [] ≡ []
drop_nil zero = refl
drop_nil (suc i) = refl

drop-drop : (i j : ℕ) (xs : List Fields) → drop i (drop j xs) ≡ drop (j + i) xs
drop-drop i zero xs = let e : 0 + i ≡ i = omega arith in rw e (drop_zero i xs)
  where
    drop_zero : (i : ℕ) (xs : List Fields) → drop i (drop 0 xs) ≡ drop i xs
    drop_zero i [] = refl
    drop_zero i (x ∷ xs) = refl
drop-drop i (suc j) [] = drop_nil i ∙ sym (drop_nil (suc j + i))
drop-drop i (suc j) (x ∷ xs) =
    let e : suc j + i ≡ suc (j + i) = omega arith in rw e (drop-drop i j xs)

pub latest-latest :
    (n : ℕ) (ys : List Fields) (event : Fields)
    → latest n (latest n ys ++ event ∷ []) ≡ latest n (ys ++ event ∷ [])
latest-latest n ys event =
    ap (λ zs. drop (length zs - n) zs) (sym (drop-append k ys (event ∷ []) (omega arith)))
    ∙ (drop-drop (length (drop k (ys ++ event ∷ [])) - n) k (ys ++ event ∷ [])
        ∙ ap (λ j. drop j (ys ++ event ∷ []))
            (omega (arith, length-drop k (ys ++ event ∷ []), length-append ys (event ∷ []))))
  where
    k : ℕ
    k = length ys - n

deliver_room :
    (n : ℕ) (xs : List Fields) (event : Fields)
    → length xs < n
    → deliver event (record { maxsize = n; events = xs })
      ≡ record { maxsize = n; events = xs ++ event ∷ [] }
unfolding deliver
deliver_room n xs event l = ground arith

deliver_full :
    (n : ℕ) (x : Fields) (xs : List Fields) (event : Fields)
    → suc (length xs) ≡ n
    → deliver event (record { maxsize = n; events = x ∷ xs })
      ≡ record { maxsize = n; events = xs ++ event ∷ [] }
unfolding deliver
deliver_full n x xs event l = ground arith

-- A queue that has come to its bound loses its oldest event for the new one.
pub deliver_lem :
    (n : ℕ) (xs : List Fields) (event : Fields)
    → 0 < n
    → length xs ≤ n
    → deliver event (record { maxsize = n; events = xs })
      ≡ record { maxsize = n; events = latest n (xs ++ event ∷ []) }
deliver_lem n xs event h l = elim (dec_lt (length xs) n) [
  | yes p ↦
      deliver_room n xs event p
      ∙ ap (λ es. record { maxsize = n; events = es })
          (sym (drop_none (xs ++ event ∷ []) (omega (arith, length-append xs (event ∷ [])))))
  | no p ↦ full xs (omega arith)
]
  where
    drop_none : (ys : List Fields) → length ys ≤ n → latest n ys ≡ ys
    drop_none ys p = let e : length ys - n ≡ 0 = omega arith in rw e (drop_zero ys)
      where
        drop_zero : (ys : List Fields) → drop 0 ys ≡ ys
        drop_zero [] = refl
        drop_zero (y ∷ ys) = refl

    full :
        (xs : List Fields)
        → length xs ≡ n
        → deliver event (record { maxsize = n; events = xs })
          ≡ record { maxsize = n; events = latest n (xs ++ event ∷ []) }
    full [] e = absurd (omega (arith, e, h))
    full (x ∷ xs) e =
        deliver_full n x xs event e
        ∙ ap (λ k. record { maxsize = n; events = drop k (x ∷ (xs ++ event ∷ [])) }) {x = 1}
            (omega (arith, e, length-append xs (event ∷ [])))

pub any_of-append {ℓ} :
    {A : Type ℓ} (p : A → Bool) (xs ys : List A)
    → any_of p (xs ++ ys) ≡ (any_of p xs || any_of p ys)
any_of-append p [] ys = refl
any_of-append p (x ∷ xs) ys = ground (arith, any_of-append p xs ys)

pub get_elem?-append {ℓ} :
    {A : Type ℓ} (xs ys : List A) (i : ℕ) (x : A)
    → get_elem? xs i ≡ some x
    → get_elem? (xs ++ ys) i ≡ some x
get_elem?-append [] ys i x h = cc
get_elem?-append (y ∷ xs) ys zero x h = h
get_elem?-append (y ∷ xs) ys (suc i) x h = get_elem?-append xs ys i x h

pub get_elem?-append_end {ℓ} :
    {A : Type ℓ} (xs : List A) (x : A) → get_elem? (xs ++ x ∷ []) (length xs) ≡ some x
get_elem?-append_end [] x = refl
get_elem?-append_end (y ∷ xs) x = get_elem?-append_end xs x

pub lt_of_get_elem? {ℓ} :
    {A : Type ℓ} (xs : List A) (i : ℕ) (x : A) → get_elem? xs i ≡ some x → i < length xs
lt_of_get_elem? [] i x h = cc
lt_of_get_elem? (y ∷ xs) zero x h = omega arith
lt_of_get_elem? (y ∷ xs) (suc i) x h = omega (arith, lt_of_get_elem? xs i x h)

pub length-latest : (n : ℕ) (xs : List Fields) → length (latest n xs) ≤ n
length-latest n xs = omega (arith, length-drop (length xs - n) xs)
