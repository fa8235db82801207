-- ===== src/Storage/ArtifactStore.antt =====
-- `FilesystemArtifactStore` of src/andera/storage/artifact_store.py. A file of a shard has a digest
-- and what follows it in its name; all digests have one length, and `sha[:2]` gives the shard. The
-- files stand in the order in which `iterdir` lists them. A file of a readable folder is a link to a
-- blob, or a copy where the file system makes no link.
pub mod Durable
use Prim.Native.String.{String, ◌++◌ as text_append}
use Prim.Native.String
use Prim.Native.Char.{Char}
use browser_agent.Common.{
  ℕ, ◌≡◌, Bool, true, false, not, ◌&&◌, Option, none, some, List, [], ◌∷◌, ◌++◌, str_eq, any_of,
  keep_if, find_first, if◌then◌else◌,
}
use browser_agent.Agent.Effect.{Result, ok, raised, exception}
use browser_agent.Storage.SafeName.{is_dot, is_empty, text_take, safe_path_component}

-- SHA-256, `Path(name).suffix`, `mimetypes.guess_type`, `len` and `str.isalnum`.
pub record Tools (B : Type 0) : Type 0 where
  pub sha256_hex : B → String
  pub suffix : String → String
  pub guess_type : String → Option String
  pub size : B → ℕ
  pub isalnum : Char → Bool

pub record Blob (B : Type 0) : Type 0 where
  pub sha : String
  pub suffix : String
  pub content : B

pub data Placed (B : Type 0) : Type 0 where
  links : String → String → Placed B
  copies : B → Placed B

pub record Entry (B : Type 0) : Type 0 where
  pub folder : String
  pub name : String
  pub file : Placed B

pub record Store (B : Type 0) : Type 0 where
  pub blobs : List (Blob B)
  pub entries : List (Entry B)

-- The arguments of `put`; whether the file system makes hard links.
pub record Put (B : Type 0) : Type 0 where
  pub content : B
  pub name : String
  pub mime : Option String
  pub subfolder : Option String
  pub sample_id : Option String
  pub run_id : Option String
  pub hardlinks : Bool

pub record Artifact : Type 0 where
  pub sha256 : String
  pub name : String
  pub mime : String
  pub size : ℕ
  pub sample_id : Option String
  pub run_id : Option String

-- `s.rpartition(".")`, where none is a name without a dot.
unfoldable pub rpartition : String → Option (String × String)
rpartition String.[] = none
rpartition (String.◌∷◌ c s) =
    let rest = rpartition s in
    elim rest [
      | some (stem, ext) ↦ some (String.◌∷◌ c stem, ext)
      | none ↦ if is_dot c then some ("", s) else none
    ]

module _ {B : Type 0} (tools : Tools B) where
  -- `guess_mime`
  abbrev pub guess_mime : String → String
  guess_mime name = elim (tools.guess_type name) [
    | none ↦ "application/octet-stream"
    | some m ↦ if is_empty m then "application/octet-stream" else m
  ]

  -- `mime or guess_mime(name)`
  abbrev pub mime_of : Option String → String → String
  mime_of none name = guess_mime name
  mime_of (some m) name = if is_empty m then guess_mime name else m

  abbrev pub is_file : String → String → Blob B → Bool
  is_file sha suffix b = str_eq b.sha sha && str_eq b.suffix suffix

  -- The blob under its name, unless it is there: the temporary file, which replaces one that an
  -- earlier process left, is renamed.
  abbrev pub put_blob : String → String → B → List (Blob B) → List (Blob B)
  put_blob sha suffix content blobs =
      if any_of (is_file sha suffix) blobs
      then blobs
      else keep_if (λ b. not (is_file sha (text_append suffix ".tmp") b)) blobs
        ++ record { sha = sha; suffix = suffix; content = content } ∷ []

  abbrev pub is_entry : String → String → Entry B → Bool
  is_entry folder name e = str_eq e.folder folder && str_eq e.name name

  -- `human_path.stat().st_ino == dest.stat().st_ino`
  abbrev pub is_link : String → String → Placed B → Bool
  is_link sha suffix (links s x) = str_eq s sha && str_eq x suffix
  is_link sha suffix (copies b) = false

  abbrev pub disambiguated : String → String → String
  disambiguated sha safe_name = elim (rpartition safe_name) [
    | none ↦ text_append safe_name (text_append "-" (text_take 8 sha))
    | some (stem, ext) ↦
        text_append stem (text_append "-" (text_append (text_take 8 sha) (text_append "." ext)))
  ]

  -- The name that the file gets in its folder.
  abbrev pub human_name : String → String → String → String → List (Entry B) → String
  human_name sha suffix folder safe_name entries =
      elim (find_first (is_entry folder safe_name) entries) [
        | none ↦ safe_name
        | some e ↦ if is_link sha suffix e.file then safe_name else disambiguated sha safe_name
      ]

  abbrev pub place : Put B → String → String → String → List (Entry B) → List (Entry B)
  place p sha suffix sub entries =
      let folder = safe_path_component tools.isalnum sub in
      let name = human_name sha suffix folder (safe_path_component tools.isalnum p.name) entries in
      if any_of (is_entry folder name) entries
      then entries
      else entries
        ++ record {
          folder = folder;
          name = name;
          file = if p.hardlinks then links sha suffix else copies p.content;
        }
          ∷ []

  unfoldable pub put : Put B → Store B → Artifact × Store B
  put p s =
      let sha = tools.sha256_hex p.content in
      let suffix = tools.suffix p.name in
      (
        record {
          sha256 = sha;
          name = p.name;
          mime = mime_of p.mime p.name;
          size = tools.size p.content;
          sample_id = p.sample_id;
          run_id = p.run_id;
        },
        record {
          blobs = put_blob sha suffix p.content s.blobs;
          entries = elim p.subfolder [
            | none ↦ s.entries
            | some sub ↦ if is_empty sub then s.entries else place p sha suffix sub s.entries
          ];
        },
      )

  unfoldable pub get : String → Store B → Result B
  get sha s = elim (find_first (λ b. str_eq b.sha sha) s.blobs) [
    | none ↦ raised (exception "FileNotFoundError")
    | some b ↦ ok b.content
  ]

  -- A history of calls of `put`.
  unfoldable pub put_all : List (Put B) → Store B → Store B
  unfolding put
  put_all [] s = s
  put_all (p ∷ ps) s = put_all ps (put p s).1
