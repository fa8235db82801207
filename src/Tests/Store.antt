-- ===== src/Tests/Store.antt =====
-- A store of texts whose digests are the texts themselves.
use Prim.Native.Char.{Char, code}
use Prim.Native.String.{String}
use browser_agent.Common.{
  ◌≡◌, ◌≢◌, ◌↔◌, refl, Bool, true, false, ◌&&◌, none, some, [], ◌∷◌, arith, ltb, Dict, str_eq,
  eq_iff,
}
use browser_agent.Json.{end}
use browser_agent.Agent.Effect.{ok}
use browser_agent.Queue.Make.{make_queue, coordinator_config, agent_config, make_queue-apart}
use browser_agent.Storage.SafeName.{is_separator, safe_path_component}
use browser_agent.Storage.SafeName.Contained.{IsComponent, safe_path_component-IsComponent}
use browser_agent.Storage.ArtifactStore.{Tools, Put, Store, put, put_all, get}
use browser_agent.Storage.ArtifactStore.Durable.{get-put_all}
use browser_agent.Storage.Manifest.{Hashing, write_manifest, verify_manifest}
use browser_agent.Storage.Manifest.Verified.{Holds, verify_manifest-Holds}

-- The lower-case letters.
abbrev isalnum : Char → Bool
isalnum c = ltb 96 (code c) && ltb (code c) 123

separator_no_letter : (c : Char) → is_separator c ≡ true → isalnum c ≡ false
separator_no_letter c h = ground (arith, h)

safe_path_component-IsComponent_example : IsComponent (safe_path_component isalnum "../etc/passwd")
safe_path_component-IsComponent_example =
    safe_path_component-IsComponent isalnum "../etc/passwd" separator_no_letter

abbrev tools : Tools String
tools = record {
  sha256_hex = λ b. b;
  suffix = λ name. ".png";
  guess_type = λ name. none;
  size = λ b. 3;
  isalnum = isalnum;
}

abbrev picture : String → Put String
picture content = record {
  content = content;
  name = "page.png";
  mime = none;
  subfolder = some "run-00000";
  sample_id = some "run-00000";
  run_id = some "run";
  hardlinks = true;
}

abbrev empty_store : Store String
empty_store = record { blobs = []; entries = [] }

get-put_all_example :
    get tools "abc"
      (put_all tools (picture "def" ∷ picture "abc" ∷ []) (put tools (picture "abc") empty_store).1)
    ≡ ok "abc"
unfolding browser_agent.Storage.ArtifactStore.put
get-put_all_example =
    get-put_all tools (picture "abc") (picture "def" ∷ picture "abc" ∷ []) empty_store (λ a b e. e)
      tt

abbrev pub hashing : Hashing String
hashing = record { sha_file = λ b. b; size_of = λ b. 3; canonical_hash = λ m. m.run_id }

abbrev files : Dict String
files = ("blobs/ab/abc.png", "abc") ∷ ("blobs/de/def.png", "def") ∷ []

verify_manifest-Holds_example :
    ((verify_manifest hashing files
        (some (write_manifest hashing "run" end [] none end "12:00" files))).ok
      ≡ true)
    ↔ Holds hashing files files
verify_manifest-Holds_example =
    verify_manifest-Holds hashing "run" end [] none end "12:00" files files (λ a b e. e)

other_run : str_eq "run-1" "global" ≡ false
other_run = refl

make_queue-apart_example :
    make_queue (λ s. s) (coordinator_config "run-1" "redis://redis:6379/0" none 3)
    ≢ make_queue (λ s. s) (agent_config "redis://redis:6379/0" 3)
make_queue-apart_example =
    make_queue-apart (λ s. s) "run-1" "redis://redis:6379/0" 3 3 refl
      (λ e. absurd ground (arith, other_run, eq_iff "run-1" "global", e))
