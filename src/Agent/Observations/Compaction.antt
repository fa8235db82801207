-- ===== src/Agent/Observations/Compaction.antt =====
-- What compaction keeps of the observations.
use browser_agent.Common.{
  keep_if-append, keep_if-All, keep_if_none, All-keep_if, length-partition, ℕ, zero, suc, ◌-◌, ◌<◌,
  ◌≡◌, refl, sym, ap, ◌∙◌, Bool, true, false, List, [], ◌∷◌, ◌++◌, map, arith, leb, keep_if, length,
  length-append, length-map, length-take, length-drop, take, drop, All, All-append, All-map,
  Bool-cases, inl, inr,
}
use mathlib.Core.List.{append-nil}
use browser_agent.Json.{end}
use browser_agent.Agent.Observations.{
  Kind, Line, Observation, one_line, abstracted, keys_line, is_extract, is_other, abstract, again,
  observation_window, compact_others, compact_observations,
}

-- The last five entries that are no extracts.
abbrev pub latest : List Observation → List Observation
latest xs = let others = keep_if is_other xs in drop (length others - observation_window) others

abbrev pub extracts_of : List Observation → List Observation
extracts_of = keep_if is_extract

others_kept : (xs : List Observation) → All (λ o. is_other o ≡ true) xs → keep_if is_other xs ≡ xs
others_kept = keep_if-All is_other

All-drop :
    (n : ℕ) (xs : List Observation)
    → All (λ o. is_other o ≡ true) xs
    → All (λ o. is_other o ≡ true) (drop n xs)
All-drop zero xs h = h
All-drop (suc n) [] h = tt
All-drop (suc n) (x ∷ xs) h = All-drop n xs h.1

All-abstract : (xs : List Observation) → All (λ o. is_other o ≡ true) (map abstract xs)
All-abstract [] = tt
All-abstract (x ∷ xs) = (refl, All-abstract xs)

compact_others-other :
    (xs : List Observation)
    → All (λ o. is_other o ≡ true) xs
    → All (λ o. is_other o ≡ true) (compact_others xs)
unfolding compact_others
compact_others-other xs h = elim (Bool-cases (leb (length xs) observation_window)) [
  | inl e ↦ rw e h
  | inr e ↦ rw e (
      All-append (λ o. is_other o ≡ true) (map abstract (take (length xs - 5) xs)) _
        (All-abstract (take (length xs - 5) xs)) (All-drop (length xs - 5) xs h))
]

length-compact_others : (xs : List Observation) → length (compact_others xs) ≡ length xs
unfolding compact_others
length-compact_others xs = elim (Bool-cases (leb (length xs) observation_window)) [
  | inl e ↦ rw e
  | inr e ↦ rw e (
      omega (
        arith,
        length-append (map abstract (take (length xs - 5) xs)) (drop (length xs - 5) xs),
        length-map abstract (take (length xs - 5) xs),
        length-take (length xs - 5) xs,
        length-drop (length xs - 5) xs,
      ))
]

drop-append-length : (xs ys : List Observation) (n : ℕ) → n ≡ length xs → drop n (xs ++ ys) ≡ ys
drop-append-length [] ys zero e = refl
drop-append-length [] ys (suc n) e = absurd (omega arith)
drop-append-length (x ∷ xs) ys zero e = absurd (omega arith)
drop-append-length (x ∷ xs) ys (suc n) e = drop-append-length xs ys n (omega arith)

latest-compact_others :
    (xs : List Observation)
    → drop (length (compact_others xs) - observation_window) (compact_others xs)
      ≡ drop (length xs - observation_window) xs
latest-compact_others xs = rw (length-compact_others xs) (go (leb (length xs) 5) refl)
  where
    go :
        (b : Bool)
        → leb (length xs) 5 ≡ b
        → drop (length xs - 5) (compact_others xs) ≡ drop (length xs - 5) xs
    go true e = unfold compact_others in rw e
    go false e =
        unfold compact_others in
        rw e (
          drop-append-length (map abstract (take (length xs - 5) xs)) (drop (length xs - 5) xs)
            (length xs - 5)
            (omega (
              arith,
              length-map abstract (take (length xs - 5) xs),
              length-take (length xs - 5) xs,
            )))

others-of-compact :
    (xs : List Observation)
    → keep_if is_other (compact_observations xs) ≡ compact_others (keep_if is_other xs)
unfolding compact_observations
others-of-compact xs =
    keep_if-append is_other (extracts_of xs) (compact_others (keep_if is_other xs))
    ∙ (rw (keep_if_none is_other (extracts_of xs) (not_other xs)) (
        others_kept (compact_others (keep_if is_other xs))
          (compact_others-other (keep_if is_other xs) (All-keep_if is_other xs))))
  where
    not_other : (ys : List Observation) → All (λ o. is_other o ≡ false) (extracts_of ys)
    not_other ys =
        All-map {P = λ o. is_extract o ≡ true} {Q = λ o. is_other o ≡ false} (λ o e. rw e)
          (extracts_of ys) (All-keep_if is_extract ys)

extracts-of-compact :
    (xs : List Observation) → extracts_of (compact_observations xs) ≡ extracts_of xs
unfolding compact_observations
extracts-of-compact xs =
    keep_if-append is_extract (extracts_of xs) (compact_others (keep_if is_other xs))
    ∙ rw
        (
          keep_if-All is_extract (extracts_of xs) (All-keep_if is_extract xs),
          keep_if_none is_extract (compact_others (keep_if is_other xs)) (
              All-map {P = λ o. is_other o ≡ true} {Q = λ o. is_extract o ≡ false}
                (λ o e. ground arith) (compact_others (keep_if is_other xs))
                (compact_others-other (keep_if is_other xs) (All-keep_if is_other xs))),
        )
        (append-nil (extracts_of xs))

-- The entries before the last five that are no extracts.
abbrev pub earlier : List Observation → List Observation
earlier xs = let others = keep_if is_other xs in take (length others - observation_window) others

take-append-length : (xs ys : List Observation) (n : ℕ) → n ≡ length xs → take n (xs ++ ys) ≡ xs
take-append-length [] ys zero e = refl
take-append-length [] ys (suc n) e = absurd (omega arith)
take-append-length (x ∷ xs) ys zero e = absurd (omega arith)
take-append-length (x ∷ xs) ys (suc n) e = ap (◌∷◌ x) (take-append-length xs ys n (omega arith))

take_none : (xs : List Observation) (n : ℕ) → n ≡ 0 → take n xs ≡ []
take_none xs zero e = refl
take_none xs (suc n) e = absurd (omega arith)

earlier-compact_others :
    (xs : List Observation)
    → take (length (compact_others xs) - observation_window) (compact_others xs)
      ≡ map abstract (take (length xs - observation_window) xs)
earlier-compact_others xs = rw (length-compact_others xs) (go (leb (length xs) 5) refl)
  where
    go :
        (b : Bool)
        → leb (length xs) 5 ≡ b
        → take (length xs - 5) (compact_others xs) ≡ map abstract (take (length xs - 5) xs)
    go true e =
        let short : length xs - 5 ≡ 0 = ground arith in
        take_none (compact_others xs) (length xs - 5) short
        ∙ sym (ap (map abstract) (take_none xs (length xs - 5) short))
    go false e =
        unfold compact_others in
        rw e (
          take-append-length (map abstract (take (length xs - 5) xs)) (drop (length xs - 5) xs)
            (length xs - 5)
            (omega (
              arith,
              length-map abstract (take (length xs - 5) xs),
              length-take (length xs - 5) xs,
            )))

-- Compaction drops no entry. The extracts stay as they are, in their order; so do the last five
-- of the other entries; and each earlier one becomes its abstract, in its place.
pub compact_observations_lem :
    (xs : List Observation)
    → (length (compact_observations xs) ≡ length xs)
      × (extracts_of (compact_observations xs) ≡ extracts_of xs)
      × (latest (compact_observations xs) ≡ latest xs)
      × (earlier (compact_observations xs) ≡ map abstract (earlier xs))
compact_observations_lem xs = (
  unfold compact_observations in
      omega (
        arith,
        length-append (extracts_of xs) (compact_others (keep_if is_other xs)),
        length-compact_others (keep_if is_other xs),
        length-partition is_extract xs,
      ),
  extracts-of-compact xs,
  rw (others-of-compact xs) (latest-compact_others (keep_if is_other xs)),
  rw (others-of-compact xs) (earlier-compact_others (keep_if is_other xs)),
)

one_line_again : (k : Kind) → 0 < k.abstracts → one_line k end ≡ keys_line k 0
one_line_again k h = ground arith

-- The summary of an abstract does not outlive the next compaction that reaches it: whatever its
-- line said, the new line counts the keys of an empty dictionary.
summary_lost :
    (k : Kind) (l : Line) (xs rest : List Observation)
    → 0 < k.abstracts
    → earlier xs ≡ abstracted k l ∷ rest
    → earlier (compact_observations xs) ≡ abstracted (again k) (keys_line k 0) ∷ map abstract rest
summary_lost k l xs rest h e =
    (compact_observations_lem xs).3
    ∙ ap (map abstract) e
    ∙ ap (λ m. abstracted (again k) m ∷ map abstract rest) (one_line_again k h)
