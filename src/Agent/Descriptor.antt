-- ===== src/Agent/Descriptor.antt =====
-- `_filter_by_descriptor`, `_match_descriptor`, `_vision_resolve` and `_descriptor_for` of
-- src/andera/agent/nodes.py. `re.search` is the parameter `search_re`: None is `re.error`.
use browser_agent.Common.{
  ℕ, zero, suc, String, Bool, true, false, ◌&&◌, ◌||◌, Option, none, some, List, [], ◌∷◌, str_eq,
  ◌==◌, if◌then◌else◌, keep_if, get_elem?,
}
use mathlib.Core.Option
use browser_agent.Json.{ℤ, pos, negsuc, Json}
use browser_agent.Agent.Effect.{Failure, exception, Result, ok, raised, Eff}
use browser_agent.Agent.Step.{Descriptor}
use browser_agent.Agent.Tools.{Mark}
pub mod Replay

abbrev pub int_eq : ℤ → ℤ → Bool
int_eq (pos m) (pos n) = m == n
int_eq (negsuc m) (negsuc n) = m == n
int_eq _ _ = false

-- `==` on the dictionaries of two marks
abbrev pub mark_eq : Mark → Mark → Bool
mark_eq a b =
    int_eq a.mark_id b.mark_id
    && (str_eq a.role b.role
        && (str_eq a.name b.name
            && (str_eq a.href b.href
                && (str_eq a.placeholder b.placeholder
                    && str_eq a.viewport_region b.viewport_region))))

-- `list.index`, where none is a ValueError
pub index : Mark → List Mark → Option ℕ
index m [] = none
index m (x ∷ xs) = let rest = Option.map suc (index m xs) in if mark_eq x m then some 0 else rest

-- What the model of the role "vision" answers under VISION_RESPONSE_SCHEMA.
pub record VisionReply : Type 0 where
  pub mark_id : ℤ
  pub descriptor : Option Descriptor

-- The mark with the id; of two with one id the dictionary `by_id` keeps the later.
abbrev pub by_id : ℤ → List Mark → Option Mark
by_id i [] = none
by_id i (m ∷ ms) =
    let rest = by_id i ms in
    elim rest [ none ↦ if int_eq m.mark_id i then some m else none | some x ↦ some x ]

abbrev pub first : List Mark → Option Mark
first [] = none
first (m ∷ ms) = some m

abbrev pub role_only : String → Descriptor
role_only role = record {
  role = role;
  href_pattern = "";
  name_pattern = "";
  placeholder_pattern = "";
  viewport_region = "";
  ordinal = pos 0;
}

-- `mark.get("role") or hint.get("role") or ""`
abbrev pub role_of : Mark → Descriptor → String
role_of mark hint = if str_eq mark.role "" then hint.role else mark.role

module _ (search_re : String → String → Option Bool) where
  -- One of the three tests of a pattern; a bad pattern filters nothing.
  abbrev pub passes : String → String → Bool
  passes pattern text =
      if str_eq pattern "" then true else elim (search_re pattern text) [ none ↦ true | some b ↦ b ]

  pub fits : Descriptor → Mark → Bool
  fits desc m =
      (str_eq desc.role "" || str_eq m.role desc.role)
      && (passes desc.href_pattern m.href
          && (passes desc.name_pattern m.name
              && (passes desc.placeholder_pattern m.placeholder
                  && (str_eq desc.viewport_region ""
                      || str_eq m.viewport_region desc.viewport_region))))

  pub filter_by_descriptor : List Mark → Descriptor → List Mark
  filter_by_descriptor marks desc = keep_if (fits desc) marks

  pub match_descriptor : Option Descriptor → List Mark → Option Mark
  unfolding filter_by_descriptor
  match_descriptor none marks = none
  match_descriptor (some desc) marks = elim desc.ordinal [
    | pos n ↦ get_elem? (filter_by_descriptor marks desc) n
    | negsuc n ↦ none
  ]

  -- The mark that a reply stands for: an unknown id falls back to the descriptor, then to the
  -- first mark, and raises an IndexError if there is none.
  pub resolved_mark : VisionReply → List Mark → Result Mark
  unfolding filter_by_descriptor
  resolved_mark reply marks =
      let candidates : List Mark = elim reply.descriptor [
        | none ↦ marks
        | some d ↦ filter_by_descriptor marks d
      ] in
      let fallback : Option Mark = elim (first candidates) [
        | none ↦ first marks
        | some m ↦ some m
      ] in
      let chosen : Option Mark = elim (by_id reply.mark_id marks) [
        | none ↦ fallback
        | some m ↦ some m
      ] in
      elim chosen [ none ↦ raised (exception "IndexError") | some m ↦ ok m ]

  -- `_vision_resolve` with the model and the bytes of the image behind `ask`.
  pub vision_resolve : {W : Type 0} → Eff W VisionReply → List Mark → Eff W (Mark × Descriptor)
  vision_resolve ask marks w =
      let (r, w') = ask w in
      elim r [
        | raised e ↦ (raised e, w')
        | ok reply ↦ (
          elim (resolved_mark reply marks) [
            | raised e ↦ raised e
            | ok m ↦ ok (m, elim reply.descriptor [ none ↦ role_only m.role | some d ↦ d ])
          ],
          w',
        )
      ]

  -- `_descriptor_for`
  pub descriptor_for : Mark → List Mark → Descriptor → Descriptor
  unfolding filter_by_descriptor index
  descriptor_for mark marks hint =
      let desc : Descriptor = record hint { role = role_of mark hint; ordinal = pos 0 } in
      let among_role : List Mark = keep_if (λ m. str_eq m.role desc.role) marks in
      let ordinal : ℕ = elim (index mark (filter_by_descriptor marks desc)) [
        | some n ↦ n
        | none ↦ elim (index mark among_role) [ some n ↦ n | none ↦ 0 ]
      ] in
      record desc { ordinal = pos ordinal }
