-- ===== src/Config/Decided.antt =====
-- `_apply_env_overrides` of src/andera/config/loader.py: which setting decides.
use browser_agent.Common.{
  String, ◌≡◌, refl, sym, ap, ◌∙◌, false, not, ◌&&◌, some, str_eq, if◌then◌else◌, arith,
}
use browser_agent.Json.{obj, Fields, end, field, get, put, fields_or_empty}
use browser_agent.Config.{
  Environment, section, queue_section, metadata_section, browser_section, assemble,
  apply_env_overrides,
}
use browser_agent.Config.Sections.{
  get-put, is_end, get-put_section, get-put_metadata, section-fields,
}
use browser_agent.Config.Settings.{
  queue_setting, metadata_setting, get-queue_section, get-metadata_section, queue_section-end,
  metadata_section-end,
}

module _ (e : Environment) where
  -- What the profile says after the variables are read.
  abbrev pub Follows : Fields → Fields → Fields → Fields → Type 0
  Follows q meta raw raw' =
      ((j : String) → get j (fields_or_empty (get "queue" raw')) ≡ queue_setting e j (get j q))
      × ((j : String)
          → get j (fields_or_empty (get "metadata" (fields_or_empty (get "storage" raw'))))
            ≡ metadata_setting e j (get j meta))
      × ((k : String)
          → str_eq "queue" k ≡ false
          → str_eq "storage" k ≡ false
          → str_eq "browser" k ≡ false
          → get k raw' ≡ get k raw)

  get-assemble :
      (k : String) (raw q s meta br : Fields)
      → get k (assemble e raw q s meta br) ≡ (
          if str_eq "browser" k && not (is_end br)
          then obj br
          else (if str_eq "storage" k && not (is_end meta)
              then obj (put "metadata" (obj meta) s)
              else (if str_eq "queue" k && not (is_end q) then obj q else get k raw)))
  unfolding assemble
  get-assemble k raw q s meta br =
      get-put_section k "browser" br _
      ∙ ap (λ v. if str_eq "browser" k && not (is_end br) then obj br else v)
          (get-put_metadata k s meta _
            ∙ ap
                (λ v.
                  if str_eq "storage" k && not (is_end meta)
                  then obj (put "metadata" (obj meta) s)
                  else v)
                (get-put_section k "queue" q raw))

  queue_settles :
      (j : String) (raw q s meta br : Fields)
      → section "queue" raw ≡ some q
      → get j (fields_or_empty (get "queue" (assemble e raw (queue_section e q) s meta br)))
        ≡ queue_setting e j (get j q)
  queue_settles j raw q s meta br hq =
      ap (λ v. get j (fields_or_empty v)) (get-assemble "queue" raw (queue_section e q) s meta br)
      ∙ go (queue_section e q) refl
    where
      go :
          (x : Fields)
          → queue_section e q ≡ x
          → get j (fields_or_empty (if not (is_end x) then obj x else get "queue" raw))
            ≡ queue_setting e j (get j q)
      go end h =
          ap (get j) (section-fields "queue" raw q hq ∙ queue_section-end e q h ∙ sym h)
          ∙ get-queue_section e j q
      go (field k v d) h = ap (get j) (sym h) ∙ get-queue_section e j q

  metadata_settles :
      (j : String) (raw q s meta br : Fields)
      → section "storage" raw ≡ some s
      → section "metadata" s ≡ some meta
      → get j (
          fields_or_empty (
            get "metadata"
              (fields_or_empty (get "storage" (assemble e raw q s (metadata_section e meta) br)))))
        ≡ metadata_setting e j (get j meta)
  metadata_settles j raw q s meta br hs hm =
      ap (λ v. get j (fields_or_empty (get "metadata" (fields_or_empty v))))
        (get-assemble "storage" raw q s (metadata_section e meta) br)
      ∙ go (metadata_section e meta) refl
    where
      go :
          (x : Fields)
          → metadata_section e meta ≡ x
          → get j (
              fields_or_empty (
                get "metadata" (
                  fields_or_empty (
                    if not (is_end x) then obj (put "metadata" (obj x) s) else get "storage" raw))))
            ≡ metadata_setting e j (get j meta)
      go end h =
          ap (λ d. get j (fields_or_empty (get "metadata" d))) (section-fields "storage" raw s hs)
          ∙ ap (get j) (section-fields "metadata" s meta hm ∙ metadata_section-end e meta h ∙ sym h)
          ∙ get-metadata_section e j meta
      go (field k v d) h =
          ap (λ w. get j (fields_or_empty w)) (get-put "metadata" "metadata" (obj (field k v d)) s)
          ∙ ap (get j) (sym h)
          ∙ get-metadata_section e j meta

  -- If the sections are dictionaries or empty, a variable that is set decides its setting of the queue and of
  -- the metadata, else ANDERA_BACKEND=postgres decides the backends and the distribution, else the profile;
  -- no other setting of the queue and of the metadata changes, and no section of the profile but queue,
  -- storage and browser.
  pub apply_env_overrides-Follows :
      (raw q s meta br : Fields)
      → section "queue" raw ≡ some q
      → section "storage" raw ≡ some s
      → section "metadata" s ≡ some meta
      → section "browser" raw ≡ some br
      → (raw' : Fields) × (apply_env_overrides e raw ≡ some raw') × Follows q meta raw raw'
  unfolding apply_env_overrides
  apply_env_overrides-Follows raw q s meta br hq hs hm hb = (
    assemble e raw (queue_section e q) s (metadata_section e meta) (browser_section e br),
    rw (apply_env_overrides, hq, hs, hm, hb) refl,
    (
      λ j. queue_settles j raw q s (metadata_section e meta) (browser_section e br) hq,
      λ j. metadata_settles j raw (queue_section e q) s meta (browser_section e br) hs hm,
      λ k a b c.
          get-assemble k raw (queue_section e q) s (metadata_section e meta) (browser_section e br)
          ∙ ground (arith, a, b, c),
    ),
  )
