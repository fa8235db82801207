-- ===== src/Agent/Extract/Valid.antt =====
-- What the validation in the loop of "extract" is worth.
use browser_agent.Common.{
  ℕ, zero, suc, ◌+◌, ◌≡◌, refl, ap, ◌||◌, inl, inr, List, [], ◌∷◌, ◌++◌, Bool, true, false,
  Bool-cases, arith, String, All, ◌⊎◌, ◌↔◌, eq_iff, str_eq,
}
use browser_agent.Json.{
  Json, null, bool, num, str, arr, obj, Items, Fields, get, has_key, to_list, fields_or_empty,
}
use browser_agent.Agent.Effect.{ok, Ensures, Ensures-ok, Result-cases}
use browser_agent.Agent.State.{State, Deps}
use browser_agent.Agent.Plan.{parsed_of}
use browser_agent.Agent.Extract.{
  Attempt, schema_errors, schema_errors_obj, prefixed, item_errors, is_array_schema, is_empty,
  or_empty, unwrap, no_errors, extract_loop, extract_node, extract_prompt, extract_retry_max,
  no_attempt,
}

-- What the validation is to ensure; `iter_errors` is that of jsonschema.
module _ (iter_errors : Fields → Fields → List String) where
  -- A dictionary in which jsonschema finds no error.
  abbrev pub MeetsObject : Fields → Json → Type 0
  MeetsObject schema v = (d : Fields) × (v ≡ obj d) × (iter_errors schema d ≡ [])

  abbrev pub IsArraySchema : Fields → Type 0
  IsArraySchema schema = (get "type" schema ≡ str "array") ⊎ (has_key "items" schema ≡ true)

  pub record Meets (schema : Fields) (v : Json) : Type 0 where
    pub list :
        IsArraySchema schema
        → (xs : Items) × (v ≡ arr xs)
          × All (MeetsObject (fields_or_empty (get "items" schema))) (to_list xs)
    pub object : ¬ IsArraySchema schema → MeetsObject schema v

  schema_errors_obj-Meets :
      (v : Json) (schema : Fields)
      → schema_errors_obj iter_errors v schema ≡ []
      → MeetsObject schema v
  schema_errors_obj-Meets (obj d) schema e = (d, refl, e)
  schema_errors_obj-Meets null schema e = cc
  schema_errors_obj-Meets (bool b) schema e = cc
  schema_errors_obj-Meets (num n) schema e = cc
  schema_errors_obj-Meets (str s) schema e = cc
  schema_errors_obj-Meets (arr xs) schema e = cc

  prefixed-none :
      (i : ℕ) (msgs rest : List String)
      → prefixed iter_errors i msgs ++ rest ≡ []
      → (msgs ≡ []) × (rest ≡ [])
  prefixed-none i [] rest e = (refl, e)
  prefixed-none i (m ∷ msgs) rest e = (cc, cc)

  item_errors-All :
      (i : ℕ) (xs : List Json) (schema : Fields)
      → item_errors iter_errors i xs schema ≡ []
      → All (MeetsObject schema) xs
  item_errors-All i [] schema e = tt
  item_errors-All i (x ∷ xs) schema e =
      let (here, rest) = prefixed-none i (schema_errors_obj iter_errors x schema) _ e in
      (schema_errors_obj-Meets x schema here, item_errors-All (i + 1) xs schema rest)

  str_path : (s t : String) → str s ≡ str t → s ≡ t
  str_path s t e = cc

  is_array_schema_iff : (schema : Fields) → (is_array_schema schema ≡ true) ↔ IsArraySchema schema
  is_array_schema_iff schema = go (get "type" schema)
    where
      go :
          (v : Json)
          → ((elim v as (λ x. Bool) [
            | str t ↦ str_eq t "array" || has_key "items" schema
            | _ ↦ has_key "items" schema
          ])
              ≡ true)
            ↔ ((v ≡ str "array") ⊎ (has_key "items" schema ≡ true))
      go null = (λ h. inr h, λ h. elim h [ inl e ↦ cc | inr k ↦ k ])
      go (bool b) = (λ h. inr h, λ h. elim h [ inl e ↦ cc | inr k ↦ k ])
      go (num n) = (λ h. inr h, λ h. elim h [ inl e ↦ cc | inr k ↦ k ])
      go (arr xs) = (λ h. inr h, λ h. elim h [ inl e ↦ cc | inr k ↦ k ])
      go (obj d) = (λ h. inr h, λ h. elim h [ inl e ↦ cc | inr k ↦ k ])
      go (str t) = (
        λ h. elim (Bool-cases (str_eq t "array")) [
          | inl e ↦ inl (ap str ((eq_iff t "array").0 e))
          | inr e ↦ inr (ground (arith, h, e))
        ],
        λ h. elim h [
          | inl e ↦ ground (arith, (eq_iff t "array").1 (str_path t "array" e))
          | inr k ↦ ground (arith, k)
        ],
      )

  not_array : (schema : Fields) → ¬ IsArraySchema schema → is_array_schema schema ≡ false
  not_array schema n = elim (Bool-cases (is_array_schema schema)) [
    | inl e ↦ absurd (n ((is_array_schema_iff schema).0 e))
    | inr e ↦ e
  ]

  schema_errors-Meets :
      (v : Json) (schema : Fields) → schema_errors iter_errors v schema ≡ [] → Meets schema v
  unfolding schema_errors
  schema_errors-Meets v schema e = record {
    list = λ a. as_list v (rw ((is_array_schema_iff schema).1 a) at e);
    object = λ n. schema_errors_obj-Meets v schema (rw (not_array schema n) at e);
  }
    where
      as_list :
          (v : Json)
          → (elim v as (λ x. List String) [
            | arr xs ↦ item_errors iter_errors 0 (to_list xs) (fields_or_empty (get "items" schema))
            | _ ↦ "expected array" ∷ []
          ])
            ≡ []
          → (xs : Items) × (v ≡ arr xs)
            × All (MeetsObject (fields_or_empty (get "items" schema))) (to_list xs)
      as_list (arr xs) e = (xs, refl, item_errors-All 0 (to_list xs) _ e)
      as_list (obj d) e = cc
      as_list null e = cc
      as_list (bool b) e = cc
      as_list (num n) e = cc
      as_list (str s) e = cc

module _ {W : Type 0} (deps : Deps W) where
  abbrev Valid : State → Attempt → Type 0
  Valid s a = a.errors ≡ [] → schema_errors deps.iter_errors a.parsed s.extract_schema ≡ []

  extract_loop-Valid :
      (n : ℕ) (retrying : Bool) (s : State) (a : Attempt) (w : W)
      → (n ≡ 0 → Valid s a)
      → Ensures (Valid s) (extract_loop deps n retrying s a w).0
  unfolding extract_loop
  extract_loop-Valid zero retrying s a w h = h refl
  extract_loop-Valid (suc n) retrying s a w h =
      elim (Result-cases (deps.extractor (extract_prompt deps s retrying a) w).0) [
        | inl (x, e) ↦ rw (e, Ensures) tt
        | inr (reply, e) ↦ elim (Result-cases (parsed_of reply)) [
          | inl (x, f) ↦ rw (e, f, Ensures) (extract_loop-Valid n true s _ _ (λ z. λ g. cc))
          | inr (v, f) ↦
              elim (Bool-cases (
                no_errors (
                  schema_errors deps.iter_errors (unwrap (is_array_schema s.extract_schema) v)
                    s.extract_schema))) [
                      | inl g ↦ rw (e, f, g, Ensures) (λ z. z)
                      | inr g ↦
                          rw (e, f, g, Ensures) (extract_loop-Valid n true s _ _ (λ z. λ y. y))
                    ]
        ]
      ]

  -- A value with no errors is a list or a dictionary, which `or_empty` keeps.
  or_empty-valid :
      (v : Json) (schema : Fields)
      → schema_errors deps.iter_errors v schema ≡ []
      → or_empty (is_array_schema schema) v ≡ v
  unfolding schema_errors
  or_empty-valid v schema e = ground arith

  -- If the run has a schema and the node "extract" records no errors, what it has extracted is a list of
  -- dictionaries in none of which jsonschema finds an error against the schema of the items, where the
  -- schema says "array" or has "items"; else it is a dictionary without errors against the schema.
  pub extract_node-valid :
      (s : State) (w : W)
      → is_empty s.extract_schema ≡ false
      → Ensures
          (λ s'. s'.extract_errors ≡ [] → Meets deps.iter_errors s.extract_schema s'.extracted)
          (extract_node deps s w).0
  unfolding extract_node
  extract_node-valid s w p =
      elim (Result-cases
        (extract_loop deps (extract_retry_max + 1) false s (no_attempt deps) w).0) [
          | inl (x, f) ↦ rw (p, f, Ensures) tt
          | inr (a, f) ↦
              rw (p, f, Ensures)
                (λ e.
                  rw (or_empty-valid a.parsed s.extract_schema (valid a f e))
                    (schema_errors-Meets deps.iter_errors a.parsed s.extract_schema (valid a f e)))
        ]
    where
      valid :
          (a : Attempt)
          → (extract_loop deps (extract_retry_max + 1) false s (no_attempt deps) w).0 ≡ ok a
          → Valid s a
      valid a f = Ensures-ok (Valid s) f (
          extract_loop-Valid (extract_retry_max + 1) false s (no_attempt deps) w
            (λ z. absurd omega (arith, z)))
