-- ===== src/Json.antt =====
-- The values of a decoded JSON text as Python sees them: `None`, `bool`, `int`, `str`, `list`,
-- `dict`. Numbers with a fraction are left out: no code modelled here computes with one.
use browser_agent.Common.{
  ℕ, zero, suc, String, Bool, true, false, List, [], ◌∷◌, str_eq, if◌then◌else◌,
}

-- `negsuc n` is -(n + 1).
pub data ℤ : Type 0 where
  pos : ℕ → ℤ
  negsuc : ℕ → ℤ

mutual
  pub data Json : Type 0 where
    null : Json
    bool : Bool → Json
    num : ℤ → Json
    str : String → Json
    arr : Items → Json
    obj : Fields → Json

  pub data Items : Type 0 where
    nil : Items
    cons : Json → Items → Items

  pub data Fields : Type 0 where
    end : Fields
    field : String → Json → Fields → Fields

abbrev pub to_list : Items → List Json
to_list nil = []
to_list (cons x xs) = x ∷ to_list xs

abbrev pub of_list : List Json → Items
of_list [] = nil
of_list (x ∷ xs) = cons x (of_list xs)

-- `bool(v)`
abbrev pub truthy : Json → Bool
truthy null = false
truthy (bool b) = b
truthy (num (pos zero)) = false
truthy (num _) = true
truthy (str s) = if str_eq s "" then false else true
truthy (arr nil) = false
truthy (arr _) = true
truthy (obj end) = false
truthy (obj _) = true

-- `d.get(k)`, where None stands for a missing key too. The keys of a dictionary are distinct.
abbrev pub get : String → Fields → Json
get k end = null
get k (field j v d) = let rest = get k d in if str_eq j k then v else rest

-- `d[k] = v`
abbrev pub put : String → Json → Fields → Fields
put k v end = field k v end
put k v (field j w d) = let rest = put k v d in if str_eq j k then field k v d else field j w rest

-- `len(d)`
abbrev pub size : Fields → ℕ
size end = 0
size (field j v d) = suc (size d)

-- `k in d`
abbrev pub has_key : String → Fields → Bool
has_key k end = false
has_key k (field j v d) = let rest = has_key k d in if str_eq j k then true else rest

-- `a or b`
abbrev pub or_else : Json → Json → Json
or_else a b = if truthy a then a else b

abbrev pub is_object : Json → Bool
is_object (obj d) = true
is_object _ = false

abbrev pub is_array : Json → Bool
is_array (arr xs) = true
is_array _ = false

-- `list(d.keys())`
abbrev pub keys : Fields → List String
keys end = []
keys (field j v d) = j ∷ keys d

-- `v or {}` for a value that is a dictionary if it is anything.
abbrev pub fields_or_empty : Json → Fields
fields_or_empty (obj d) = d
fields_or_empty _ = end

abbrev pub items_or_empty : Json → Items
items_or_empty (arr xs) = xs
items_or_empty _ = nil
