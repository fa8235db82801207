-- ===== src/Agent/Descriptor/Replay.antt =====
-- When the descriptor that is written into a plan finds its element again.
use browser_agent.Common.{
  ℕ, suc, String, ◌≡◌, Bool, true, Option, some, List, [], ◌∷◌, arith, eq_iff, str_eq_refl, keep_if,
  get_elem?, Bool-cases, Option-cases, inl, inr, any_of, ◌↔◌, All-keep_if, All-get_elem?,
}
use browser_agent.Json.{ℤ, pos, negsuc}
use browser_agent.Agent.Step.{Descriptor}
use browser_agent.Agent.Tools.{Mark}
use browser_agent.Agent.Descriptor.{
  int_eq, mark_eq, index, fits, match_descriptor, descriptor_for, role_of,
}

int_eq→eq : (a b : ℤ) → int_eq a b ≡ true → a ≡ b
int_eq→eq a b h = ground arith

int_eq_refl : (a : ℤ) → int_eq a a ≡ true
int_eq_refl (pos n) = ground arith
int_eq_refl (negsuc n) = ground arith

mark_eq→eq : (a b : Mark) → mark_eq a b ≡ true → a ≡ b
mark_eq→eq a b h = ground (
  arith,
  int_eq→eq a.mark_id b.mark_id,
  eq_iff a.role b.role,
  eq_iff a.name b.name,
  eq_iff a.href b.href,
  eq_iff a.placeholder b.placeholder,
  eq_iff a.viewport_region b.viewport_region,
)

mark_eq_refl : (a : Mark) → mark_eq a a ≡ true
mark_eq_refl a = rw (
  int_eq_refl a.mark_id,
  str_eq_refl a.role,
  str_eq_refl a.name,
  str_eq_refl a.href,
  str_eq_refl a.placeholder,
  str_eq_refl a.viewport_region,
)

-- The mark is in the list.
abbrev pub is_in : Mark → List Mark → Bool
is_in m = any_of (λ x. mark_eq x m)

index-get_elem? :
    (m : Mark) (xs : List Mark) (n : ℕ) → index m xs ≡ some n → get_elem? xs n ≡ some m
unfolding index
index-get_elem? m [] n e = cc
index-get_elem? m (x ∷ xs) n e = elim (Bool-cases (mark_eq x m)) [
  | inl hit ↦ ground (arith, hit, mark_eq→eq x m hit)
  | inr miss ↦ elim (Option-cases (index m xs)) [
    | inl none_left ↦ ground (arith, miss, none_left)
    | inr (k, found) ↦ ground (arith, miss, found, index-get_elem? m xs k found)
  ]
]

index-is_in : (m : Mark) (xs : List Mark) → is_in m xs ≡ true → (n : ℕ) × (index m xs ≡ some n)
unfolding index
index-is_in m [] h = cc
index-is_in m (x ∷ xs) h = elim (Bool-cases (mark_eq x m)) [
  | inl hit ↦ (0, rw hit)
  | inr miss ↦ let (n, e) = index-is_in m xs (rw miss at h) in (suc n, rw (miss, e))
]

module _ (p : Mark → Bool) where
  is_in-keep_if :
      (m : Mark) (xs : List Mark) → p m ≡ true → is_in m xs ≡ true → is_in m (keep_if p xs) ≡ true
  is_in-keep_if m [] h e = e
  is_in-keep_if m (x ∷ xs) h e = elim (Bool-cases (mark_eq x m)) [
    | inl hit ↦ rw (mark_eq→eq x m hit, h, mark_eq_refl m)
    | inr miss ↦ ground (arith, miss, is_in-keep_if m xs h (rw miss at e))
  ]

module _ (search_re : String → String → Option Bool) where
  -- A descriptor that `descriptor_for` makes of an element of the page finds that element again
  -- on the same page exactly if the element meets the descriptor's own patterns.
  pub match_descriptor-descriptor_for :
      (mark : Mark) (marks : List Mark) (hint : Descriptor)
      → is_in mark marks ≡ true
      → let desc = descriptor_for search_re mark marks hint in
        (match_descriptor search_re (some desc) marks ≡ some mark)
        ↔ (fits search_re desc mark ≡ true)
  unfolding descriptor_for match_descriptor fits
  match_descriptor-descriptor_for mark marks hint here = (
    λ e.
        All-get_elem? (λ m. fits search_re desc m ≡ true) (keep_if (fits search_re desc) marks) _
          mark (All-keep_if (fits search_re desc) marks) e,
    λ h.
        let (n, e) =
          index-is_in mark (keep_if (fits search_re desc) marks)
            (is_in-keep_if (fits search_re desc) mark marks h here) in
        rw e (index-get_elem? mark (keep_if (fits search_re desc) marks) n e),
  )
    where
      desc : Descriptor
      desc = record hint { role = role_of mark hint; ordinal = pos 0 }
