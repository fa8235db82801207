-- ===== src/Credentials/StorageState.antt =====
-- `SealedStateStore` of src/andera/credentials/storage_state.py. The files of the directory are an
-- association list from the stem of a name to its bytes.
pub mod Merged
use browser_agent.Common.{
  ℕ, ◌==◌, length, take, drop, String, ◌≡◌, Bool, true, false, not, ◌||◌, Option, none, some, List,
  [], ◌∷◌, ◌++◌, str_eq, find_first, keep_if, any_of, map, if◌then◌else◌, Dict, lookup, insert,
}
use browser_agent.Common.{delete as remove}
use Prim.Native.Char.{Char}
use browser_agent.Storage.SafeName.{replace_others}
use browser_agent.Json.{Json, arr, Fields, Items, end, field, get, to_list, of_list, items_or_empty}
use browser_agent.Agent.Effect.{Failure, exception, Result, ok, raised}

-- Bytes, each below 256.
abbrev pub Bytes : Type 0
Bytes = List ℕ

-- The environment, and what the file calls: base64, HKDF and AES-GCM, JSON in UTF-8.
pub record Cipher : Type 0 where
  -- `os.environ.get("ANDERA_MASTER_KEY")`
  pub master_key : Option String
  -- `base64.b64decode(raw.encode("ascii"), validate=True)`, where none is an exception
  pub b64decode_strict : String → Option Bytes
  -- `raw.encode("utf-8")`
  pub utf8 : String → Bytes
  -- HKDF with SHA-256 and the info of the file, to 32 bytes
  pub hkdf : Bytes → Bytes
  pub b64encode : Bytes → Bytes
  pub b64decode : Bytes → Option Bytes
  -- `AESGCM(key).encrypt(nonce, plaintext, None)` and `decrypt`, where none is InvalidTag
  pub encrypt : Bytes → Bytes → Bytes → Bytes
  pub decrypt : Bytes → Bytes → Bytes → Option Bytes
  -- `json.dumps(state, …).encode("utf-8")` and `json.loads(… .decode("utf-8"))`
  pub dumps : Fields → Bytes
  pub loads : Bytes → Option Fields
  -- `str.isalnum`
  pub isalnum : Char → Bool
  pub length-hkdf : (m : Bytes) → length (hkdf m) ≡ 32
  pub b64decode-b64encode : (b : Bytes) → b64decode (b64encode b) ≡ some b
  pub decrypt-encrypt :
      (key nonce text : Bytes) → decrypt key nonce (encrypt key nonce text) ≡ some text

-- NONCE_BYTES
abbrev pub nonce_bytes : ℕ
nonce_bytes = 12

-- KEY_BYTES
abbrev pub key_bytes : ℕ
key_bytes = 32

module _ (cipher : Cipher) where
  -- `derive_key_from_env`
  unfoldable pub derive_key_from_env : Result Bytes
  derive_key_from_env = elim cipher.master_key [
    | none ↦ raised (exception "RuntimeError")
    | some raw ↦
        if str_eq raw ""
        then raised (exception "RuntimeError")
        else ok (
            cipher.hkdf
              (elim (cipher.b64decode_strict raw) [ none ↦ cipher.utf8 raw | some m ↦ m ]))
  ]

  -- The nonce is the bytes that `os.urandom(NONCE_BYTES)` draws.
  unfoldable pub seal : Bytes → Bytes → Bytes → Result Bytes
  seal nonce plaintext key =
      if length key == key_bytes
      then ok (cipher.b64encode (nonce ++ cipher.encrypt key nonce plaintext))
      else raised (exception "ValueError")

  unfoldable pub unseal : Bytes → Bytes → Result Bytes
  unseal sealed key = elim (cipher.b64decode sealed) [
    | none ↦ raised (exception "binascii.Error")
    | some blob ↦ elim (cipher.decrypt key (take nonce_bytes blob) (drop nonce_bytes blob)) [
      | none ↦ raised (exception "InvalidTag")
      | some plaintext ↦ ok plaintext
    ]
  ]

-- The files in the order of their names, by their stems.
abbrev pub Directory : Type 0
Directory = Dict Bytes

-- The dictionary `merged` with the flag `loaded_any`.
pub record Merge : Type 0 where
  pub cookies : List Json
  pub origins : List Json
  pub loaded_any : Bool

-- One turn of the loop: a host that raises or has nothing is passed over.
abbrev pub merge_state : Result (Option Fields) → Merge → Merge
merge_state (raised e) m = m
merge_state (ok none) m = m
merge_state (ok (some end)) m = m
merge_state (ok (some (field k v d))) m = record {
  cookies = m.cookies ++ to_list (items_or_empty (get "cookies" (field k v d)));
  origins = m.origins ++ to_list (items_or_empty (get "origins" (field k v d)));
  loaded_any = true;
}

module _ (cipher : Cipher) where
  -- The stem that `_path` makes of a host.
  abbrev pub safe : String → String
  safe host = replace_others cipher.isalnum host

  abbrev pub is_some : {A : Type 0} → Option A → Bool
  is_some none = false
  is_some (some a) = true

  pub has : String → Directory → Bool
  has host files = is_some (lookup (safe host) files)

  unfoldable pub save : String → Fields → Bytes → Directory → Result (Unit {0}) × Directory
  unfolding derive_key_from_env seal
  save host state nonce files = elim (derive_key_from_env cipher) [
    | raised e ↦ (raised e, files)
    | ok key ↦ elim (seal cipher nonce (cipher.dumps state) key) [
      | raised e ↦ (raised e, files)
      | ok sealed ↦ (ok tt, insert (safe host) sealed files)
    ]
  ]

  unfoldable pub load : String → Directory → Result (Option Fields)
  unfolding derive_key_from_env unseal
  load host files = elim (lookup (safe host) files) [
    | none ↦ ok none
    | some sealed ↦ elim (derive_key_from_env cipher) [
      | raised e ↦ raised e
      | ok key ↦ elim (unseal cipher sealed key) [
        | raised e ↦ raised e
        | ok plaintext ↦ elim (cipher.loads plaintext) [
          | none ↦ raised (exception "JSONDecodeError")
          | some state ↦ ok (some state)
        ]
      ]
    ]
  ]

  unfoldable pub delete : String → Directory → Bool × Directory
  delete host files =
      if is_some (lookup (safe host) files)
      then (true, remove (safe host) files)
      else (false, files)

  abbrev pub list_hosts : Directory → List String
  list_hosts files = map (λ (s, b). s) files

  unfoldable pub merge_hosts : List String → Directory → Merge → Merge
  unfolding load
  merge_hosts [] files m = m
  merge_hosts (h ∷ hosts) files m = merge_hosts hosts files (merge_state (load h files) m)

  unfoldable pub load_merged : Directory → Option Fields
  unfolding merge_hosts
  load_merged files =
      let m =
        merge_hosts (list_hosts files) files
          (record { cookies = []; origins = []; loaded_any = false }) in
      if m.loaded_any
      then some (
          field "cookies" (arr (of_list m.cookies)) (field "origins" (arr (of_list m.origins)) end))
      else none
