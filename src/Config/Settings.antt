-- ===== src/Config/Settings.antt =====
-- The settings of the queue and of the metadata after `_apply_env_overrides` of
-- src/andera/config/loader.py.
use browser_agent.Common.{
  String, ◌≡◌, refl, ◌∙◌, Bool, true, false, ◌&&◌, Option, none, some, str_eq, eq_iff,
  if◌then◌else◌, arith, lookup,
}
use browser_agent.Json.{Json, null, bool, str, Fields, end, get, put}
use browser_agent.Config.{Environment, override, flag, is_postgres, queue_section, metadata_section}
use browser_agent.Config.Sections.{get-put, put-ne-end}

module _ (e : Environment) where
  -- A variable, or what there is without it.
  abbrev pub decided : String → (String → Json) → Json → Json
  decided var f v = elim (lookup var e.environ) [ none ↦ v | some s ↦ f s ]

  get-override :
      (var key j : String) (f : String → Json) (d : Fields)
      → get j (override e var key f d) ≡ (if str_eq key j then decided var f (get j d) else get j d)
  get-override var key j f d = go (lookup var e.environ)
    where
      go :
          (o : Option String)
          → get j (elim o [ none ↦ d | some v ↦ put key (f v) d ])
            ≡ (if str_eq key j then (elim o [ none ↦ get j d | some s ↦ f s ]) else get j d)
      go none = ground arith
      go (some v) = get-put j key (f v) d

  -- The settings of the queue and of the metadata, from those of the profile.
  abbrev pub queue_setting : String → Json → Json
  queue_setting j v =
      if str_eq "redis_url" j
      then decided "ANDERA_REDIS_URL" str v
      else (if str_eq "distributed" j
          then decided "ANDERA_QUEUE_DISTRIBUTED" (flag e) (if is_postgres e then bool true else v)
          else (if str_eq "backend" j
              then decided "ANDERA_QUEUE_BACKEND" str (if is_postgres e then str "redis" else v)
              else v))

  abbrev pub metadata_setting : String → Json → Json
  metadata_setting j v =
      if str_eq "postgres_url" j
      then decided "ANDERA_POSTGRES_URL" str v
      else (if str_eq "backend" j
          then decided "ANDERA_METADATA_BACKEND" str (if is_postgres e then str "postgres" else v)
          else v)

  preset :
      (j : String) (b : Bool) (q : Fields)
      → get j (if b then put "distributed" (bool true) (put "backend" (str "redis") q) else q) ≡ (
          if str_eq "distributed" j
          then (if b then bool true else get j q)
          else (if str_eq "backend" j then (if b then str "redis" else get j q) else get j q))
  preset j true q = ground (
    arith,
    get-put j "distributed" (bool true) (put "backend" (str "redis") q),
    get-put j "backend" (str "redis") q,
  )
  preset j false q = ground arith

  -- A chain of three overrides, each of its own key.
  three :
      (r d b : Bool) (x : Json) (f g : Json → Json) (h : Json → Json) (p₁ p₂ : Json)
      → ((r && d) ≡ false)
      → ((r && b) ≡ false)
      → ((d && b) ≡ false)
      → (let x₁ = if d then p₁ else (if b then p₂ else x) in
          let x₂ = if b then h x₁ else x₁ in
          let x₃ = if d then g x₂ else x₂ in if r then f x₃ else x₃)
        ≡ (if r then f x else (if d then g p₁ else (if b then h p₂ else x)))
  three true true b x f g h p₁ p₂ u v w = cc
  three true false true x f g h p₁ p₂ u v w = cc
  three true false false x f g h p₁ p₂ u v w = refl
  three false true true x f g h p₁ p₂ u v w = cc
  three false true false x f g h p₁ p₂ u v w = refl
  three false false true x f g h p₁ p₂ u v w = refl
  three false false false x f g h p₁ p₂ u v w = refl

  apart : (a b j : String) → str_eq a b ≡ false → (str_eq a j && str_eq b j) ≡ false
  apart a b j h = ground (arith, h, eq_iff a b, eq_iff a j, eq_iff b j)

  pub get-queue_section :
      (j : String) (q : Fields) → get j (queue_section e q) ≡ queue_setting j (get j q)
  unfolding queue_section
  get-queue_section j q = get-override "ANDERA_REDIS_URL" "redis_url" j str _ ∙ by_key
    where
      q₁ : Fields
      q₁ =
          if is_postgres e then put "distributed" (bool true) (put "backend" (str "redis") q) else q

      by_key :
          (if str_eq "redis_url" j
            then decided "ANDERA_REDIS_URL" str (
                get j (
                  override e "ANDERA_QUEUE_DISTRIBUTED" "distributed"
                    (flag e)
                    (override e "ANDERA_QUEUE_BACKEND" "backend" str q₁)))
            else get j (
                override e "ANDERA_QUEUE_DISTRIBUTED" "distributed"
                  (flag e)
                  (override e "ANDERA_QUEUE_BACKEND" "backend" str q₁)))
          ≡ queue_setting j (get j q)
      by_key =
          rw
            (get-override "ANDERA_QUEUE_DISTRIBUTED" "distributed" j (flag e)
              (override e "ANDERA_QUEUE_BACKEND" "backend" str q₁))
            (rw (get-override "ANDERA_QUEUE_BACKEND" "backend" j str q₁) (
              rw (preset j (is_postgres e) q) (
                three (str_eq "redis_url" j) (str_eq "distributed" j) (str_eq "backend" j) (get j q)
                  (decided "ANDERA_REDIS_URL" str) (decided "ANDERA_QUEUE_DISTRIBUTED" (flag e))
                  (decided "ANDERA_QUEUE_BACKEND" str)
                  (if is_postgres e then bool true else get j q)
                  (if is_postgres e then str "redis" else get j q)
                  (apart "redis_url" "distributed" j refl) (apart "redis_url" "backend" j refl)
                  (apart "distributed" "backend" j refl))))

  pub get-metadata_section :
      (j : String) (meta : Fields)
      → get j (metadata_section e meta) ≡ metadata_setting j (get j meta)
  unfolding metadata_section
  get-metadata_section j meta =
      get-override "ANDERA_POSTGRES_URL" "postgres_url" j str _
      ∙ rw
          (get-override "ANDERA_METADATA_BACKEND" "backend" j str
            (if is_postgres e then put "backend" (str "postgres") meta else meta))
          (rw (chosen (is_postgres e)) (
            three (str_eq "postgres_url" j) false (str_eq "backend" j) (get j meta)
              (decided "ANDERA_POSTGRES_URL" str) (λ v. v) (decided "ANDERA_METADATA_BACKEND" str)
              null (if is_postgres e then str "postgres" else get j meta) (ground arith)
              (apart "postgres_url" "backend" j refl) refl))
    where
      chosen :
          (b : Bool)
          → get j (if b then put "backend" (str "postgres") meta else meta) ≡ (
              if str_eq "backend" j then (if b then str "postgres" else get j meta) else get j meta)
      chosen true = get-put j "backend" (str "postgres") meta
      chosen false = ground arith

  -- A section that is empty in the end was empty before.
  override-end :
      (var key : String) (f : String → Json) (d : Fields) → override e var key f d ≡ end → d ≡ end
  override-end var key f d = go (lookup var e.environ)
    where
      go : (o : Option String) → (elim o [ none ↦ d | some v ↦ put key (f v) d ]) ≡ end → d ≡ end
      go none h = h
      go (some v) h = absurd (put-ne-end key (f v) d h)

  pub queue_section-end : (q : Fields) → queue_section e q ≡ end → q ≡ end
  unfolding queue_section
  queue_section-end q h = preset_end (is_postgres e) (
      override-end "ANDERA_QUEUE_BACKEND" "backend" str _ (
        override-end "ANDERA_QUEUE_DISTRIBUTED" "distributed" (flag e) _
          (override-end "ANDERA_REDIS_URL" "redis_url" str _ h)))
    where
      preset_end :
          (b : Bool)
          → (if b then put "distributed" (bool true) (put "backend" (str "redis") q) else q) ≡ end
          → q ≡ end
      preset_end true g =
          absurd (put-ne-end "distributed" (bool true) (put "backend" (str "redis") q) g)
      preset_end false g = g

  pub metadata_section-end : (meta : Fields) → metadata_section e meta ≡ end → meta ≡ end
  unfolding metadata_section
  metadata_section-end meta h = preset_end (is_postgres e) (
      override-end "ANDERA_METADATA_BACKEND" "backend" str _
        (override-end "ANDERA_POSTGRES_URL" "postgres_url" str _ h))
    where
      preset_end :
          (b : Bool) → (if b then put "backend" (str "postgres") meta else meta) ≡ end → meta ≡ end
      preset_end true g = absurd (put-ne-end "backend" (str "postgres") meta g)
      preset_end false g = g
