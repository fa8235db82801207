-- ===== src/Storage/AuditLog/Joined.antt =====
-- Texts joined by the character that no part has: what `_hash` of src/andera/storage/audit_log.py hashes.
use Prim.Native.Char.{code}
use browser_agent.Common.{
  ℕ, ◌+◌, String, ◌≡◌, refl, ap, ◌∙◌, List, [], ◌∷◌, ◌==◌, arith, length, All, followed_by, join,
  if◌then◌else◌,
}
use text.Mathlib.TextEquality.{Char-path}
use browser_agent.Storage.AuditLog.{unit_separator}

-- How often a text has the separator.
abbrev pub separators : String → ℕ
separators String.[] = 0
separators (String.◌∷◌ c s) = (if code c == 31 then 1 else 0) + separators s

abbrev pub IsPlain : String → Type 0
IsPlain s = separators s ≡ 0

separators-append : (s t : String) → separators (followed_by s t) ≡ separators s + separators t
separators-append String.[] t = omega arith
separators-append (String.◌∷◌ c s) t = omega (arith, separators-append s t)

abbrev total : List String → ℕ
total [] = 0
total (s ∷ parts) = separators s + total parts

-- A join of n + 1 parts has n separators and those of the parts.
separators-join :
    (s : String) (parts : List String)
    → separators (join unit_separator (s ∷ parts)) ≡ total (s ∷ parts) + length parts
separators-join s [] = omega arith
separators-join s (t ∷ parts) =
    separators-append s (followed_by unit_separator (join unit_separator (t ∷ parts)))
    ∙ omega (
      arith,
      separators-append unit_separator (join unit_separator (t ∷ parts)),
      separators-join t parts,
    )

total-All : (parts : List String) → total parts ≡ 0 → All IsPlain parts
total-All [] e = tt
total-All (s ∷ parts) e = (omega (arith, e), total-All parts (omega (arith, e)))

All-total : (parts : List String) → All IsPlain parts → total parts ≡ 0
All-total [] h = refl
All-total (s ∷ parts) h = omega (arith, h.0, All-total parts h.1)

abbrev head_code : String → ℕ
head_code String.[] = 0
head_code (String.◌∷◌ c s) = code c

abbrev tail : String → String
tail String.[] = String.[]
tail (String.◌∷◌ c s) = s

-- Up to the first separator two equal texts are equal.
cut :
    (s t a b : String)
    → IsPlain s
    → IsPlain t
    → followed_by s (followed_by unit_separator a) ≡ followed_by t (followed_by unit_separator b)
    → (s ≡ t) × (a ≡ b)
cut String.[] String.[] a b p q e = (refl, ap tail e)
cut String.[] (String.◌∷◌ d t) a b p q e =
    let h : 31 ≡ code d = ap head_code e in absurd (ground (arith, h, q))
cut (String.◌∷◌ c s) String.[] a b p q e =
    let h : code c ≡ 31 = ap head_code e in absurd (ground (arith, h, p))
cut (String.◌∷◌ c s) (String.◌∷◌ d t) a b p q e =
    let (f, g) = cut s t a b (omega (arith, p)) (omega (arith, q)) (ap tail e) in
    (cc (Char-path c d (ap head_code e), f), g)

join-plain :
    (ps qs : List String)
    → length ps ≡ length qs
    → All IsPlain ps
    → All IsPlain qs
    → join unit_separator ps ≡ join unit_separator qs
    → ps ≡ qs
join-plain [] [] n h k e = refl
join-plain [] (t ∷ qs) n h k e = absurd omega (arith, n)
join-plain (s ∷ ps) [] n h k e = absurd omega (arith, n)
join-plain (s ∷ []) (t ∷ []) n h k e = ap (λ x. x ∷ []) e
join-plain (s ∷ []) (t ∷ u ∷ qs) n h k e = absurd omega (arith, n)
join-plain (s ∷ r ∷ ps) (t ∷ []) n h k e = absurd omega (arith, n)
join-plain (s ∷ r ∷ ps) (t ∷ u ∷ qs) n h k e =
    let (f, g) = cut s t _ _ h.0 k.0 e in
    cc (f, join-plain (r ∷ ps) (u ∷ qs) (omega (arith, n)) h.1 k.1 g)

-- As many parts as those without a separator, with the same join, have no separator either.
join-IsPlain :
    (ps qs : List String)
    → length ps ≡ length qs
    → All IsPlain ps
    → join unit_separator ps ≡ join unit_separator qs
    → All IsPlain qs
join-IsPlain [] [] n h e = tt
join-IsPlain [] (t ∷ qs) n h e = absurd omega (arith, n)
join-IsPlain (s ∷ ps) [] n h e = absurd omega (arith, n)
join-IsPlain (s ∷ ps) (t ∷ qs) n h e = total-All (t ∷ qs) (
    omega
      (arith, n, All-total (s ∷ ps) h, separators-join s ps, separators-join t qs, ap separators e))

pub join-injective :
    (ps qs : List String)
    → length ps ≡ length qs
    → All IsPlain ps
    → join unit_separator ps ≡ join unit_separator qs
    → ps ≡ qs
join-injective ps qs n h e = join-plain ps qs n h (join-IsPlain ps qs n h e) e
