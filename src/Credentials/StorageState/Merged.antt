-- ===== src/Credentials/StorageState/Merged.antt =====
-- What a saved session is read back as.
use browser_agent.Common.{
  String, ◌≡◌, ◌++◌, arith, false, ℕ, zero, suc, length, take, drop, ap, refl, inl, inr, none, some,
  List, [], ◌∷◌, str_eq, if◌then◌else◌, Bool-cases, Option-cases, lookup, lookup-insert,
}
use browser_agent.Json.{Fields}
use browser_agent.Agent.Effect.{Failure, ok, raised}
use browser_agent.Credentials.StorageState.{
  safe, Bytes, nonce_bytes, key_bytes, derive_key_from_env, seal, unseal, Cipher, Directory, Merge,
  merge_state, save, load, merge_hosts, load_merged, list_hosts,
}

take-prefix : (n : ℕ) (xs ys : Bytes) → length xs ≡ n → take n (xs ++ ys) ≡ xs
take-prefix zero [] ys e = refl
take-prefix zero (x ∷ xs) ys e = absurd omega (arith, e)
take-prefix (suc n) [] ys e = absurd omega (arith, e)
take-prefix (suc n) (x ∷ xs) ys e = ap (◌∷◌ x) (take-prefix n xs ys (omega (arith, e)))

drop-prefix : (n : ℕ) (xs ys : Bytes) → length xs ≡ n → drop n (xs ++ ys) ≡ ys
drop-prefix zero [] ys e = refl
drop-prefix zero (x ∷ xs) ys e = absurd omega (arith, e)
drop-prefix (suc n) [] ys e = absurd omega (arith, e)
drop-prefix (suc n) (x ∷ xs) ys e = drop-prefix n xs ys (omega (arith, e))

module _ (cipher : Cipher) where
  seals :
      (nonce text key : Bytes)
      → length key ≡ key_bytes
      → seal cipher nonce text key ≡ ok (cipher.b64encode (nonce ++ cipher.encrypt key nonce text))
  unfolding seal
  seals nonce text key e = ground (arith, e)

  -- What was sealed under a nonce of its length opens again.
  opens :
      (nonce text key : Bytes)
      → length nonce ≡ nonce_bytes
      → unseal cipher (cipher.b64encode (nonce ++ cipher.encrypt key nonce text)) key ≡ ok text
  unfolding unseal
  opens nonce text key e =
      rw
        (
          cipher.b64decode-b64encode (nonce ++ cipher.encrypt key nonce text),
          unseal,
          take-prefix nonce_bytes nonce (cipher.encrypt key nonce text) e,
          drop-prefix nonce_bytes nonce (cipher.encrypt key nonce text) e,
          cipher.decrypt-encrypt key nonce text,
        )
        refl

  -- A master key that is set gives a key of 32 bytes.
  derives :
      (raw : String)
      → cipher.master_key ≡ some raw
      → str_eq raw "" ≡ false
      → (key : Bytes) × (derive_key_from_env cipher ≡ ok key) × (length key ≡ key_bytes)
  unfolding derive_key_from_env
  derives raw e n = (
    cipher.hkdf (elim (cipher.b64decode_strict raw) [ none ↦ cipher.utf8 raw | some m ↦ m ]),
    ground (arith, e, n),
    cipher.length-hkdf _,
  )

  -- If the master key is set and not empty and the nonce has its 12 bytes, a saved state that JSON reads as it was written is what load gives
  -- for each host whose name is made safe as that of the saved one, and every other host loads as before.
  pub load-save :
      (host h raw : String) (nonce : Bytes) (state : Fields) (files : Directory)
      → cipher.master_key ≡ some raw
      → str_eq raw "" ≡ false
      → length nonce ≡ nonce_bytes
      → cipher.loads (cipher.dumps state) ≡ some state
      → load cipher h (save cipher host state nonce files).1 ≡ (
          if str_eq (safe cipher host) (safe cipher h)
          then ok (some state)
          else load cipher h files)
  unfolding load save
  load-save host h raw nonce state files e n l j =
      let (key, derived, len) = derives raw e n in
      let sealed : Bytes =
        cipher.b64encode (nonce ++ cipher.encrypt key nonce (cipher.dumps state)) in
      elim (Bool-cases (str_eq (safe cipher host) (safe cipher h))) [
        | inl f ↦
            rw
              (
                derived,
                seals nonce (cipher.dumps state) key len,
                load,
                lookup-insert (safe cipher host) (safe cipher h) sealed files,
                f,
                derived,
                opens nonce (cipher.dumps state) key l,
                j,
              )
              refl
        | inr f ↦
            rw
              (
                derived,
                seals nonce (cipher.dumps state) key len,
                load,
                lookup-insert (safe cipher host) (safe cipher h) sealed files,
                f,
              )
              refl
      ]

  load-none :
      (h : String) (e : Failure) (files : Directory) (m : Merge)
      → derive_key_from_env cipher ≡ raised e
      → merge_state (load cipher h files) m ≡ m
  unfolding load
  load-none h e files m f = elim (Option-cases (lookup (safe cipher h) files)) [
    | inl g ↦ rw (g, load) refl
    | inr (b, g) ↦ rw (g, f, load) refl
  ]

  merge_hosts-none :
      (hosts : List String) (e : Failure) (files : Directory) (m : Merge)
      → derive_key_from_env cipher ≡ raised e
      → merge_hosts cipher hosts files m ≡ m
  unfolding merge_hosts
  merge_hosts-none [] e files m f = refl
  merge_hosts-none (h ∷ hosts) e files m f =
      rw (load-none h e files m f) (merge_hosts-none hosts e files m f)

  -- Without the master key no session is loaded, whatever files there are.
  load_merged_without_key :
      (e : Failure) (files : Directory)
      → derive_key_from_env cipher ≡ raised e
      → load_merged cipher files ≡ none
  unfolding load_merged
  load_merged_without_key e files f =
      rw (merge_hosts-none (list_hosts cipher files) e files _ f) refl
