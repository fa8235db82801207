-- ===== src/Storage/SafeName/Contained.antt =====
-- What a sanitised name may not do.
use Prim.Native.Char.{Char}
use Prim.Native.String.{String}
use browser_agent.Common.{
  ℕ, zero, suc, ◌≤◌, ◌≡◌, refl, inl, inr, Bool, true, false, not, arith, Bool-cases,
}
use browser_agent.Storage.SafeName.{
  is_dot, is_separator, is_dot_or_underscore, replace_separators, replace_dots, strip_left,
  strip_right, is_empty, text_take, or_underscore, is_kept, replace_others, safe_path_component,
}

abbrev pub AllChars : (Char → Bool) → String → Type 0
AllChars p String.[] = Unit {0}
AllChars p (String.◌∷◌ c s) = (p c ≡ true) × AllChars p s

abbrev pub text_length : String → ℕ
text_length String.[] = 0
text_length (String.◌∷◌ c s) = suc (text_length s)

-- The first character is a dot.
abbrev pub starts_with_dot : String → Bool
starts_with_dot String.[] = false
starts_with_dot (String.◌∷◌ c s) = is_dot c

abbrev starts_with_either : String → Bool
starts_with_either String.[] = false
starts_with_either (String.◌∷◌ c s) = is_dot_or_underscore c

AllChars-strip_left : (p : Char → Bool) (s : String) → AllChars p s → AllChars p (strip_left s)
unfolding strip_left
AllChars-strip_left p String.[] a = tt
AllChars-strip_left p (String.◌∷◌ c s) a = elim (Bool-cases (is_dot_or_underscore c)) [
  | inl e ↦ rw e (AllChars-strip_left p s a.1)
  | inr e ↦ rw e a
]

AllChars-strip_right : (p : Char → Bool) (s : String) → AllChars p s → AllChars p (strip_right s)
unfolding strip_right
AllChars-strip_right p String.[] a = tt
AllChars-strip_right p (String.◌∷◌ c s) a = elim (Bool-cases (is_empty (strip_right s))) [
  | inl e ↦ elim (Bool-cases (is_dot_or_underscore c)) [
    | inl f ↦ rw (e, f) tt
    | inr f ↦ rw (e, f) (a.0, tt)
  ]
  | inr e ↦ rw e (a.0, AllChars-strip_right p s a.1)
]

AllChars-take : (p : Char → Bool) (n : ℕ) (s : String) → AllChars p s → AllChars p (text_take n s)
unfolding text_take
AllChars-take p zero s a = tt
AllChars-take p (suc n) String.[] a = tt
AllChars-take p (suc n) (String.◌∷◌ c s) a = (a.0, AllChars-take p n s a.1)

strip_left-starts : (s : String) → starts_with_either (strip_left s) ≡ false
unfolding strip_left
strip_left-starts String.[] = refl
strip_left-starts (String.◌∷◌ c s) = elim (Bool-cases (is_dot_or_underscore c)) [
  | inl e ↦ rw e (strip_left-starts s)
  | inr e ↦ rw e e
]

strip_right-starts :
    (s : String) → starts_with_either s ≡ false → starts_with_either (strip_right s) ≡ false
unfolding strip_right
strip_right-starts String.[] h = refl
strip_right-starts (String.◌∷◌ c s) h = elim (Bool-cases (is_empty (strip_right s))) [
  | inl e ↦ rw (e, h) h
  | inr e ↦ rw e h
]

or_underscore-starts :
    (s : String) → starts_with_either s ≡ false → starts_with_dot (or_underscore s) ≡ false
or_underscore-starts String.[] h = refl
or_underscore-starts (String.◌∷◌ c s) h = ground (arith, h)

AllChars-or_underscore :
    (p : Char → Bool) (s : String) → p "_" ≡ true → AllChars p s → AllChars p (or_underscore s)
AllChars-or_underscore p String.[] h a = (h, tt)
AllChars-or_underscore p (String.◌∷◌ c s) h a = a

-- The first of some characters of a text that is not empty stays.
take-starts :
    (n : ℕ) (s : String) → starts_with_dot s ≡ false → starts_with_dot (text_take n s) ≡ false
unfolding text_take
take-starts zero s h = refl
take-starts (suc n) String.[] h = refl
take-starts (suc n) (String.◌∷◌ c s) h = h

take-nonempty : (n : ℕ) (s : String) → is_empty (text_take (suc n) (or_underscore s)) ≡ false
unfolding text_take
take-nonempty n String.[] = refl
take-nonempty n (String.◌∷◌ c s) = refl

take-length : (n : ℕ) (s : String) → text_length (text_take n s) ≤ n
unfolding text_take
take-length zero s = omega arith
take-length (suc n) String.[] = omega arith
take-length (suc n) (String.◌∷◌ c s) = omega (arith, take-length n s)

-- A name that is one component: not empty, without separators, not hidden and so neither "." nor
-- "..", of at most 120 characters.
pub record IsComponent (t : String) : Type 0 where
  pub nonempty : is_empty t ≡ false
  pub one_level : AllChars (λ c. not (is_separator c)) t
  pub visible : starts_with_dot t ≡ false
  pub short : text_length t ≤ 120

module _ (isalnum : Char → Bool) where
  replace_others-kept : (s : String) → AllChars (is_kept isalnum) (replace_others isalnum s)
  unfolding replace_others
  replace_others-kept String.[] = tt
  replace_others-kept (String.◌∷◌ c s) = elim (Bool-cases (is_kept isalnum c)) [
    | inl e ↦ rw e (e, replace_others-kept s)
    | inr e ↦ rw e (kept_underscore, replace_others-kept s)
  ]
    where
      kept_underscore : is_kept isalnum "_" ≡ true
      kept_underscore = ground arith

  no_separators :
      ((c : Char) → is_separator c ≡ true → isalnum c ≡ false)
      → (s : String) → AllChars (is_kept isalnum) s
      → AllChars (λ c. not (is_separator c)) s
  no_separators h String.[] a = tt
  no_separators h (String.◌∷◌ c s) a = (ground (arith, h c, a.0), no_separators h s a.1)

  -- If no separator counts as alphanumeric, then whatever name a planner gives, its sanitised form is
  -- one component of a path: not empty, without slash or backslash, not beginning with a dot, and of
  -- at most 120 characters.
  pub safe_path_component-IsComponent :
      (s : String)
      → ((c : Char) → is_separator c ≡ true → isalnum c ≡ false)
      → IsComponent (safe_path_component isalnum s)
  unfolding safe_path_component
  safe_path_component-IsComponent s h =
      let kept = replace_others isalnum (replace_dots (replace_separators s)) in
      let t = strip_right (strip_left kept) in
      let all : AllChars (is_kept isalnum) (or_underscore t) =
        AllChars-or_underscore (is_kept isalnum) t (ground arith) (
          AllChars-strip_right (is_kept isalnum) (strip_left kept) (
            AllChars-strip_left (is_kept isalnum) kept
              (replace_others-kept (replace_dots (replace_separators s))))) in
      record {
        nonempty = take-nonempty 119 t;
        one_level = no_separators h _ (AllChars-take (is_kept isalnum) 120 (or_underscore t) all);
        visible = take-starts 120 (or_underscore t) (
            or_underscore-starts t (strip_right-starts (strip_left kept) (strip_left-starts kept)));
        short = take-length 120 (or_underscore t);
      }
