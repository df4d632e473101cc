-- ===== src/Encryption/StorePaths.antt =====
-- crates/storj-encryption/src/path.rs: paths under a store. The base that a lookup finds gives the
-- cipher and the key; a default base has the bucket's name derived into its key.
pub mod Mapped
pub mod Default
pub mod Prefix
use storj_uplink.Encryption.Error.{Error, missing_encryption_base, missing_decryption_base}
use storj_uplink.Encryption.Cipher.{
  CipherSuite, unspecified, null, aes_gcm, secret_box, null_base64_url, other, content_hmac_info,
  Key, Primitives, derive_path_component, derive_key,
}
use storj_uplink.Encryption.Path.{
  done, remaining_components, join_components, encrypt_path_component, encrypt_iterator,
  decrypt_iterator, slash,
}
use storj_uplink.Encryption.Store.{Base, Lookup, Store, lookup_unencrypted, lookup_encrypted}
use storj_uplink.Common.{
  Bool, true, false, List, [], ◌∷◌, ◌++◌, Option, none, some, ◌==◌, if◌then◌else◌, Result, ok, err,
  ◌>>=◌, ◌>>◌, Bytes,
}

abbrev unwrap_or {ℓ} : {A : Type ℓ} → Option A → A → A
unwrap_or none a = a
unwrap_or (some b) a = b

-- A part that is pushed unless it is empty, and one that is pushed unless nothing remained.
abbrev push_base : Bytes → List Bytes
push_base [] = []
push_base (b ∷ bs) = (b ∷ bs) ∷ []

abbrev push_rest : Bool → Bytes → List Bytes
push_rest true part = []
push_rest false part = part ∷ []

-- `PrefixInfo`
pub record PrefixInfo : Type 0 where
  pub path_cipher : CipherSuite
  pub parent_key : Key
  pub parent_enc : Bytes

-- `if base.path_cipher.0 == 0`
unfoldable pub or_aes_gcm : CipherSuite → CipherSuite
or_aes_gcm unspecified = aes_gcm
or_aes_gcm null = null
or_aes_gcm aes_gcm = aes_gcm
or_aes_gcm secret_box = secret_box
or_aes_gcm null_base64_url = null_base64_url
or_aes_gcm (other n) = other n

-- `raw.ends_with(b"/")` and the path without that slash.
unfoldable pub strip_trailing : Bytes → Bool × Bytes
strip_trailing [] = (false, [])
strip_trailing (b ∷ []) = if b == slash then (true, []) else (false, b ∷ [])
strip_trailing (b ∷ c ∷ bs) = let (trailing, rest) = strip_trailing (c ∷ bs) in (trailing, b ∷ rest)

module _ (lib : Primitives) where
  -- The key below a base.
  unfoldable pub base_key : Bytes → Base → Key
  base_key bucket base =
      if base.default then derive_path_component lib base.key bucket else base.key

  -- `encrypt_path_bytes` behind the lookup.
  unfoldable pub encrypt_found : Bytes → Option CipherSuite → Lookup → Result Error Bytes
  unfolding base_key
  encrypt_found bucket path_cipher found = elim found.base [
    | none ↦ err missing_encryption_base
    | some base ↦ do
      encrypted ←
          encrypt_iterator lib found.remaining (unwrap_or path_cipher base.path_cipher)
            (base_key bucket base)
      ok (join_components (push_base base.encrypted ++ push_rest (done found.remaining) encrypted))
  ]

  unfoldable pub encrypt_path_bytes :
      Bytes → Bytes → Option CipherSuite → Store → Result Error Bytes
  unfolding encrypt_found
  encrypt_path_bytes bucket [] path_cipher s = ok []
  encrypt_path_bytes bucket (b ∷ bs) path_cipher s =
      encrypt_found bucket path_cipher (lookup_unencrypted s bucket (b ∷ bs))

  unfoldable pub decrypt_found : Bytes → Option CipherSuite → Lookup → Result Error Bytes
  unfolding base_key
  decrypt_found bucket path_cipher found = elim found.base [
    | none ↦ err missing_decryption_base
    | some base ↦ do
      decrypted ←
          decrypt_iterator lib found.remaining (unwrap_or path_cipher base.path_cipher)
            (base_key bucket base)
      ok (
          join_components
            (push_base base.unencrypted ++ push_rest (done found.remaining) decrypted))
  ]

  unfoldable pub decrypt_path_bytes :
      Bytes → Bytes → Option CipherSuite → Store → Result Error Bytes
  unfolding decrypt_found
  decrypt_path_bytes bucket [] path_cipher s = ok []
  decrypt_path_bytes bucket (b ∷ bs) path_cipher s =
      decrypt_found bucket path_cipher (lookup_encrypted s bucket (b ∷ bs))

  unfoldable pub encrypt_path : Bytes → Bytes → Store → Result Error Bytes
  unfolding encrypt_path_bytes
  encrypt_path bucket path s = encrypt_path_bytes bucket path none s

  unfoldable pub encrypt_path_with_cipher : Bytes → Bytes → CipherSuite → Store → Result Error Bytes
  unfolding encrypt_path_bytes
  encrypt_path_with_cipher bucket path path_cipher s =
      encrypt_path_bytes bucket path (some path_cipher) s

  unfoldable pub decrypt_path : Bytes → Bytes → Store → Result Error Bytes
  unfolding decrypt_path_bytes
  decrypt_path bucket path s = decrypt_path_bytes bucket path none s

  unfoldable pub decrypt_path_with_cipher : Bytes → Bytes → CipherSuite → Store → Result Error Bytes
  unfolding decrypt_path_bytes
  decrypt_path_with_cipher bucket path path_cipher s =
      decrypt_path_bytes bucket path (some path_cipher) s

  unfoldable pub derive_components : Key → List Bytes → Key
  derive_components key [] = key
  derive_components key (component ∷ rest) =
      derive_components (derive_path_component lib key component) rest

  unfoldable pub derive_path_key : Bytes → Bytes → Store → Result Error Key
  unfolding derive_components base_key
  derive_path_key bucket path s =
      let found = lookup_unencrypted s bucket path in
      elim found.base [
        | none ↦ err missing_encryption_base
        | some base ↦ elim path [
          | [] ↦ ok (base_key bucket base)
          | b ∷ bs ↦
              ok (derive_components (base_key bucket base) (remaining_components found.remaining))
        ]
      ]

  unfoldable pub derive_content_key : Bytes → Bytes → Store → Result Error Key
  unfolding derive_path_key
  derive_content_key bucket path s = do
    path_key ← derive_path_key bucket path s
    ok (derive_key lib path_key content_hmac_info)

  -- The loop of `get_prefix_info`; `first` is `i == 0`.
  unfoldable pub prefix_loop :
      CipherSuite
      → Bool
      → Key
      → Key
      → List Bytes
      → Bytes
      → List Bytes
      → Result Error (Key × List Bytes)
  prefix_loop cipher first key parent_key parts component_enc [] = ok (parent_key, parts)
  prefix_loop cipher first key parent_key parts component_enc (component ∷ rest) = do
    let parent_key' : Key = if first then parent_key else key
    let parts' : List Bytes = if first then parts else parts ++ component_enc ∷ []
    enc ← encrypt_path_component lib component cipher key
    prefix_loop cipher false (derive_path_component lib key component) parent_key' parts' enc rest

  unfoldable pub get_prefix_info : Bytes → Bytes → Store → Result Error PrefixInfo
  unfolding prefix_loop base_key or_aes_gcm
  get_prefix_info bucket prefix s =
      let found = lookup_unencrypted s bucket prefix in
      elim found.base [
        | none ↦ err missing_encryption_base
        | some base ↦ do
          let path_cipher = or_aes_gcm base.path_cipher
          let key = base_key bucket base
          let parts : List Bytes = if base.default then [] else push_base base.encrypted
          (parent_key, parent_enc_parts) ←
              prefix_loop path_cipher true key key parts [] (remaining_components found.remaining)
          ok (record {
            path_cipher = path_cipher;
            parent_key = parent_key;
            parent_enc = join_components parent_enc_parts;
          })
      ]

  unfoldable pub encrypt_prefix : Bytes → Bytes → Store → Result Error Bytes
  unfolding encrypt_path_bytes strip_trailing
  encrypt_prefix bucket path s = do
    let (has_trailing, stripped) = strip_trailing path
    enc ← encrypt_path_bytes bucket stripped none s
    ok (if has_trailing then enc ++ slash ∷ [] else enc)
