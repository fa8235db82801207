-- ===== src/Storage/Manifest.antt =====
-- src/andera/storage/manifest.py: `write_manifest` and `verify_manifest`. The files under blobs/ are a
-- dictionary by their paths, in the order in which they are listed. SHA-256 and the canonical JSON of
-- a manifest are parameters; reading RUN_MANIFEST.json gives what was written into it.
pub mod Verified
use browser_agent.Common.{
  ℕ, ◌+◌, String, Bool, true, false, ◌&&◌, not, Option, none, some, List, [], ◌∷◌, map, length,
  count_if, str_eq, if◌then◌else◌, Dict, lookup,
}
use browser_agent.Json.{Json, Fields, end, field, get, null}
use browser_agent.Orchestrator.Recorder.{Result, is_pass}

pub record ArtifactRow : Type 0 where
  pub sha256 : String
  pub path : String
  pub size : ℕ

pub record Totals : Type 0 where
  pub samples : ℕ
  pub passed : ℕ
  pub failed : ℕ
  pub artifacts : ℕ

-- The manifest without its own hash.
pub record Manifest : Type 0 where
  pub version : ℕ
  pub run_id : String
  pub generated_at : String
  pub task : Fields
  pub profile_excerpt : Fields
  pub totals : Totals
  pub samples : List Result
  pub artifacts : List ArtifactRow
  pub audit_root_hash : Option String

-- RUN_MANIFEST.json
pub record Written : Type 0 where
  pub manifest : Manifest
  pub manifest_hash : Option String

pub data Reason : Type 0 where
  missing hash_mismatch : Reason

pub record Report : Type 0 where
  pub ok : Bool
  pub manifest_hash_ok : Bool
  pub artifacts_checked : ℕ
  pub bad_artifacts : List (ArtifactRow × Reason)
  pub audit_root_hash : Option String

pub record Hashing (B : Type 0) : Type 0 where
  -- `_sha_file`
  pub sha_file : B → String
  pub size_of : B → ℕ
  -- SHA-256 of the JSON with sorted keys
  pub canonical_hash : Manifest → String

-- The keys of the task that the manifest keeps.
abbrev pub task_excerpt : Fields → Fields
task_excerpt task = field "task_id" (get "task_id" task) (
    field "task_name" (get "task_name" task)
      (field "prompt" (get "prompt" task) (field "extract_schema" (get "extract_schema" task) end)))

module _ {B : Type 0} (hashing : Hashing B) where
  abbrev pub row_of : String × B → ArtifactRow
  row_of (path, content) = record {
    sha256 = hashing.sha_file content;
    path = path;
    size = hashing.size_of content;
  }

  abbrev pub manifest_of :
      String → Fields → List Result → Option String → Fields → String → Dict B → Manifest
  manifest_of run_id task samples audit_root_hash profile_excerpt now blobs = record {
    version = 1;
    run_id = run_id;
    generated_at = now;
    task = task_excerpt task;
    profile_excerpt = profile_excerpt;
    totals = record {
      samples = length samples;
      passed = count_if (λ s. is_pass s.verdict) samples;
      failed = count_if (λ s. not (is_pass s.verdict)) samples;
      artifacts = length (map row_of blobs);
    };
    samples = samples;
    artifacts = map row_of blobs;
    audit_root_hash = audit_root_hash;
  }

  unfoldable pub write_manifest :
      String → Fields → List Result → Option String → Fields → String → Dict B → Written
  write_manifest run_id task samples audit_root_hash profile_excerpt now blobs =
      let m = manifest_of run_id task samples audit_root_hash profile_excerpt now blobs in
      record { manifest = m; manifest_hash = some (hashing.canonical_hash m) }

  -- What is wrong with the file of an artifact, if anything.
  abbrev pub fault : Dict B → ArtifactRow → Option Reason
  fault files a = elim (lookup a.path files) [
    | none ↦ some missing
    | some content ↦ if str_eq (hashing.sha_file content) a.sha256 then none else some hash_mismatch
  ]

  unfoldable pub bad_rows : Dict B → List ArtifactRow → List (ArtifactRow × Reason)
  bad_rows files [] = []
  bad_rows files (a ∷ artifacts) =
      let rest = bad_rows files artifacts in
      elim (fault files a) [ none ↦ rest | some r ↦ (a, r) ∷ rest ]

  abbrev pub same_hash : Option String → String → Bool
  same_hash none h = false
  same_hash (some g) h = str_eq g h

  abbrev pub none_bad : List (ArtifactRow × Reason) → Bool
  none_bad [] = true
  none_bad (b ∷ bs) = false

  -- The files that stand on disk now, by their paths, and RUN_MANIFEST.json if it is there.
  unfoldable pub verify_manifest : Dict B → Option Written → Report
  unfolding bad_rows
  verify_manifest files none = record {
    ok = false;
    manifest_hash_ok = false;
    artifacts_checked = 0;
    bad_artifacts = [];
    audit_root_hash = none;
  }
  verify_manifest files (some w) =
      let hash_ok = same_hash w.manifest_hash (hashing.canonical_hash w.manifest) in
      let bad = bad_rows files w.manifest.artifacts in
      record {
        ok = hash_ok && none_bad bad;
        manifest_hash_ok = hash_ok;
        artifacts_checked = length w.manifest.artifacts;
        bad_artifacts = bad;
        audit_root_hash = w.manifest.audit_root_hash;
      }
