-- ===== src/Config/Sections.antt =====
-- The sections of a profile before and after they are put back.
use browser_agent.Common.{
  String, ◌≡◌, ◌≢◌, refl, ◌∙◌, Bool, true, false, not, ◌&&◌, none, some, str_eq, eq_iff, Bool-cases,
  inl, inr, if◌then◌else◌, arith,
}
use browser_agent.Json.{
  Json, null, bool, num, str, arr, obj, Fields, end, field, get, put, truthy, fields_or_empty,
}
use browser_agent.Config.{section, put_section, put_metadata}

pub get-put :
    (j k : String) (v : Json) (d : Fields) → get j (put k v d) ≡ (if str_eq k j then v else get j d)
get-put j k v end = refl
get-put j k v (field i w d) = ground (arith, eq_iff k j, eq_iff i k, eq_iff i j, get-put j k v d)

abbrev pub is_end : Fields → Bool
is_end end = true
is_end (field k v d) = false

pub put-ne-end : (k : String) (v : Json) (d : Fields) → put k v d ≢ end
put-ne-end k v end h = cc
put-ne-end k v (field j w d) h = elim (Bool-cases (str_eq j k)) [
  | inl e ↦ absurd (ground (arith, h, e))
  | inr e ↦ absurd (ground (arith, h, e))
]

pub get-put_section :
    (k key : String) (d raw : Fields)
    → get k (put_section key d raw) ≡ (if str_eq key k && not (is_end d) then obj d else get k raw)
get-put_section k key end raw = ground arith
get-put_section k key (field i v d) raw = get-put k key (obj (field i v d)) raw ∙ ground arith

pub get-put_metadata :
    (k : String) (s meta raw : Fields)
    → get k (put_metadata s meta raw) ≡ (
        if str_eq "storage" k && not (is_end meta)
        then obj (put "metadata" (obj meta) s)
        else get k raw)
get-put_metadata k s end raw = ground arith
get-put_metadata k s (field i v d) raw =
    get-put k "storage" (obj (put "metadata" (obj (field i v d)) s)) raw ∙ ground arith

pub section-fields :
    (key : String) (raw d : Fields) → section key raw ≡ some d → fields_or_empty (get key raw) ≡ d
section-fields key raw d = go (get key raw)
  where
    go :
        (v : Json)
        → (if truthy v then elim v [ obj d' ↦ some d' | _ ↦ none ] else some end) ≡ some d
        → fields_or_empty v ≡ d
    go null h = cc
    go (bool false) h = cc
    go (bool true) h = ground (arith, h)
    go (num n) h = ground (arith, h)
    go (str t) h = ground (arith, h)
    go (arr l) h = ground (arith, h)
    go (obj end) h = cc
    go (obj (field k v d')) h = cc
