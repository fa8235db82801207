-- ===== src/Storage/Manifest/Verified.antt =====
-- What a manifest that verifies says of the files.
use browser_agent.Common.{
  String, ◌≡◌, ◌↔◌, refl, ap, ◌∙◌, inl, inr, true, Option, some, List, [], ◌∷◌, map, str_eq,
  str_eq_refl, eq_iff, Dict, lookup, All, Bool-cases, Option-cases, arith,
}
use browser_agent.Json.{Fields}
use browser_agent.Orchestrator.Recorder.{Result}
use browser_agent.Storage.Manifest.{
  Hashing, row_of, write_manifest, bad_rows, none_bad, verify_manifest,
}

module _ {B : Type 0} (hashing : Hashing B) where
  -- Each of `blobs` stands in `files` with its content.
  abbrev pub Holds : Dict B → Dict B → Type 0
  Holds files = All (λ (path, content). lookup path files ≡ some content)

  Holds-bad_rows :
      (files blobs : Dict B)
      → Holds files blobs
      → none_bad hashing (bad_rows hashing files (map (row_of hashing) blobs)) ≡ true
  unfolding bad_rows
  Holds-bad_rows files [] h = refl
  Holds-bad_rows files ((path, content) ∷ blobs) h =
      rw (h.0, str_eq_refl (hashing.sha_file content), bad_rows) (Holds-bad_rows files blobs h.1)

  bad_rows-Holds :
      (files blobs : Dict B)
      → ((a b : B) → hashing.sha_file a ≡ hashing.sha_file b → a ≡ b)
      → none_bad hashing (bad_rows hashing files (map (row_of hashing) blobs)) ≡ true
      → Holds files blobs
  unfolding bad_rows
  bad_rows-Holds files [] free h = tt
  bad_rows-Holds files ((path, content) ∷ blobs) free h = elim (Option-cases (lookup path files)) [
    | inl e ↦ absurd ground (arith, rw (e, bad_rows, none_bad) at h)
    | inr (found, e) ↦
        elim (Bool-cases (str_eq (hashing.sha_file found) (hashing.sha_file content))) [
          | inl f ↦ (
            e ∙ ap some (free found content ((eq_iff _ _).0 f)),
            bad_rows-Holds files blobs free (rw (e, f, bad_rows, none_bad) at h),
          )
          | inr f ↦ absurd ground (arith, rw (e, f, bad_rows, none_bad) at h)
        ]
  ]

  -- A manifest that was written for some files verifies against the files that stand on disk exactly if
  -- each of those files is there with the same content, provided that file digests do not collide.
  pub verify_manifest-Holds :
      (run_id : String) (task : Fields) (samples : List Result) (root : Option String)
      (excerpt : Fields) (now : String) (blobs files : Dict B)
      → ((a b : B) → hashing.sha_file a ≡ hashing.sha_file b → a ≡ b)
      → ((verify_manifest hashing files
            (some (write_manifest hashing run_id task samples root excerpt now blobs))).ok
          ≡ true)
        ↔ Holds files blobs
  unfolding verify_manifest write_manifest
  verify_manifest-Holds run_id task samples root excerpt now blobs files free = (
    λ h. bad_rows-Holds files blobs free (rw (str_eq_refl _) at h),
    λ h. rw (str_eq_refl _) (Holds-bad_rows files blobs h),
  )
