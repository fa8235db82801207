-- ===== src/Storage/ArtifactStore/Durable.antt =====
-- What was put into the store stays readable under its digest.
use Prim.Native.String.{String, ◌++◌ as text_append}
use browser_agent.Common.{
  ◌≡◌, refl, ap, ◌∙◌, inl, inr, Bool, true, not, some, List, [], ◌∷◌, ◌++◌, str_eq, str_eq_refl,
  eq_iff, any_of, keep_if, find_first, All, All-append, Bool-cases, arith,
}
use browser_agent.Agent.Effect.{ok}
use browser_agent.Storage.ArtifactStore.{
  Tools, Blob, Store, Put, is_file, put_blob, put, get, put_all,
}

module _ {B : Type 0} (tools : Tools B) where
  -- Every file of a shard holds what its name says.
  abbrev pub Intact : List (Blob B) → Type 0
  Intact = All (λ b. tools.sha256_hex b.content ≡ b.sha)

  -- Some file has the digest.
  abbrev has_sha : String → List (Blob B) → Bool
  has_sha sha = any_of (λ b. str_eq b.sha sha)

  keep_if-Intact :
      (p : Blob B → Bool) (blobs : List (Blob B)) → Intact blobs → Intact (keep_if p blobs)
  keep_if-Intact p [] h = tt
  keep_if-Intact p (b ∷ blobs) h = elim (Bool-cases (p b)) [
    | inl e ↦ rw e (h.0, keep_if-Intact p blobs h.1)
    | inr e ↦ rw e (keep_if-Intact p blobs h.1)
  ]

  put_blob-Intact :
      (suffix : String) (content : B) (blobs : List (Blob B))
      → Intact blobs
      → Intact (put_blob tools (tools.sha256_hex content) suffix content blobs)
  put_blob-Intact suffix content blobs h =
      elim (Bool-cases (any_of (is_file tools (tools.sha256_hex content) suffix) blobs)) [
        | inl e ↦ rw e h
        | inr e ↦ rw e (All-append _ _ _ (keep_if-Intact _ blobs h) (refl, tt))
      ]

  has_sha-kept :
      (k sha tmp : String) (suffix : String) (content : B) (blobs : List (Blob B))
      → has_sha k blobs ≡ true
      → has_sha k (
          keep_if (λ b. not (is_file tools sha tmp b)) blobs
          ++ record { sha = sha; suffix = suffix; content = content } ∷ [])
        ≡ true
  has_sha-kept k sha tmp suffix content [] h = cc
  has_sha-kept k sha tmp suffix content (b ∷ blobs) h =
      elim (Bool-cases (is_file tools sha tmp b)) [
        | inl e ↦ elim (Bool-cases (str_eq b.sha k)) [
          | inl f ↦ rw e (
              last_has k sha (keep_if (λ b. not (is_file tools sha tmp b)) blobs)
                (ground (arith, e, f, eq_iff b.sha sha, eq_iff b.sha k, eq_iff sha k)))
          | inr f ↦ rw e (has_sha-kept k sha tmp suffix content blobs (ground (arith, h, f)))
        ]
        | inr e ↦ elim (Bool-cases (str_eq b.sha k)) [
          | inl f ↦ rw (e, f) refl
          | inr f ↦ rw (e, f) (has_sha-kept k sha tmp suffix content blobs (ground (arith, h, f)))
        ]
      ]
    where
      last_has :
          (k sha : String) (xs : List (Blob B))
          → str_eq sha k ≡ true
          → has_sha k (xs ++ record { sha = sha; suffix = suffix; content = content } ∷ []) ≡ true
      last_has k sha [] e = ground (arith, e)
      last_has k sha (x ∷ xs) e = ground (arith, last_has k sha xs e)

  put_blob-has :
      (k sha suffix : String) (content : B) (blobs : List (Blob B))
      → has_sha k blobs ≡ true
      → has_sha k (put_blob tools sha suffix content blobs) ≡ true
  put_blob-has k sha suffix content blobs h =
      elim (Bool-cases (any_of (is_file tools sha suffix) blobs)) [
        | inl e ↦ rw e h
        | inr e ↦ rw e (has_sha-kept k sha (text_append suffix ".tmp") suffix content blobs h)
      ]

  snoc-has :
      (sha : String) (b : Blob B) (xs : List (Blob B))
      → str_eq b.sha sha ≡ true
      → has_sha sha (xs ++ b ∷ []) ≡ true
  snoc-has sha b [] e = ground (arith, e)
  snoc-has sha b (x ∷ xs) e = ground (arith, snoc-has sha b xs e)

  file-has :
      (sha suffix : String) (xs : List (Blob B))
      → any_of (is_file tools sha suffix) xs ≡ true
      → has_sha sha xs ≡ true
  file-has sha suffix [] e = cc
  file-has sha suffix (x ∷ xs) e = ground (arith, file-has sha suffix xs, e)

  put_blob-own :
      (sha suffix : String) (content : B) (blobs : List (Blob B))
      → has_sha sha (put_blob tools sha suffix content blobs) ≡ true
  put_blob-own sha suffix content blobs =
      elim (Bool-cases (any_of (is_file tools sha suffix) blobs)) [
        | inl e ↦ rw e (file-has sha suffix blobs e)
        | inr e ↦ rw e (snoc-has sha _ _ (str_eq_refl sha))
      ]

  abbrev Readable : String → Store B → Type 0
  Readable sha s = (has_sha sha s.blobs ≡ true) × Intact s.blobs

  put-Readable :
      (sha : String) (p : Put B) (s : Store B) → Readable sha s → Readable sha (put tools p s).1
  unfolding put
  put-Readable sha p s (h, i) =
      (put_blob-has sha _ _ p.content s.blobs h, put_blob-Intact _ p.content s.blobs i)

  put_all-Readable :
      (sha : String) (ps : List (Put B)) (s : Store B)
      → Readable sha s
      → Readable sha (put_all tools ps s)
  unfolding put_all
  put_all-Readable sha [] s r = r
  put_all-Readable sha (p ∷ ps) s r =
      put_all-Readable sha ps (put tools p s).1 (put-Readable sha p s r)

  found :
      (sha : String) (blobs : List (Blob B))
      → has_sha sha blobs ≡ true
      → Intact blobs
      → (b : Blob B) × (find_first (λ b. str_eq b.sha sha) blobs ≡ some b)
        × (tools.sha256_hex b.content ≡ sha)
  found sha [] h i = cc
  found sha (b ∷ blobs) h i = elim (Bool-cases (str_eq b.sha sha)) [
    | inl e ↦ (b, rw e refl, i.0 ∙ (eq_iff b.sha sha).0 e)
    | inr e ↦ rw e (found sha blobs (ground (arith, h, e)) i.1)
  ]

  get-Readable :
      (sha : String) (s : Store B)
      → Readable sha s
      → (c : B) × (get tools sha s ≡ ok c) × (tools.sha256_hex c ≡ sha)
  unfolding get
  get-Readable sha s (h, i) =
      let (b, f, e) = found sha s.blobs h i in (b.content, rw (f, get) refl, e)

  -- If digests do not collide and every file of the store holds what its name says, then a content that
  -- is put in is what get gives for its digest, whatever contents and names are put in after it.
  pub get-put_all :
      (p : Put B) (ps : List (Put B)) (s : Store B)
      → ((a b : B) → tools.sha256_hex a ≡ tools.sha256_hex b → a ≡ b)
      → Intact s.blobs
      → get tools (put tools p s).0.sha256 (put_all tools ps (put tools p s).1) ≡ ok p.content
  unfolding put
  get-put_all p ps s free i =
      let sha = tools.sha256_hex p.content in
      let r =
        put_all-Readable sha ps (put tools p s).1
          (put_blob-own sha _ p.content s.blobs, put_blob-Intact _ p.content s.blobs i) in
      let (c, g, e) = get-Readable sha (put_all tools ps (put tools p s).1) r in
      g ∙ ap ok (free c p.content e)
