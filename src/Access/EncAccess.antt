-- ===== src/Access/EncAccess.antt =====
-- crates/storj-access/src/grant.rs and restrict.rs: `EncryptionAccess` with its protobuf form, the
-- store it stands for, and `limit_to`, which keeps only the bases that an API key allows. Bucket
-- names are bytes, and `is_utf8` stands for `str::from_utf8`.
pub mod Limited
pub mod Message
use mathlib.Core.Option
use storj_uplink.Access.Error.{Error, bucket_not_utf8, encryption}
use storj_uplink.Access.Prefixes.{CaveatPath, Group, collapse_prefixes}
use storj_uplink.Access.ApiKey.{ApiKey}
use storj_uplink.Access.Caveat.{Codec, decode}
use storj_uplink.Encryption.Error as EncryptionError
use storj_uplink.Encryption.Cipher as Cipher
use storj_uplink.Encryption.Store.{
  Base, Store, new_store, set_default_path_cipher, add_with_cipher, iterate_with_cipher,
  lookup_encrypted,
}
use storj_uplink.Encryption.StorePaths.{decrypt_path, derive_path_key}
use storj_uplink.Common.Members.{any}
use storj_uplink.Common.Integers.{ℤ, pos, negsuc}
use storj_uplink.Common.{
  Bool, not, ◌&&◌, List, [], ◌∷◌, ◌++◌, Option, none, some, ◌==◌, if◌then◌else◌, Result, ok, err,
  ◌>>=◌, ◌>>◌, map_err, Bytes, bytes_eq, starts_with, length,
}

pub record EncryptionParameters : Type 0 where
  pub cipher_suite : ℤ
  pub block_size : ℤ

-- `StoreEntry`; the path cipher is the number of the cipher suite.
pub record StoreEntry : Type 0 where
  pub bucket : Bytes
  pub unencrypted_path : Bytes
  pub encrypted_path : Bytes
  pub key : Bytes
  pub path_cipher : ℤ
  pub encryption_parameters : Option EncryptionParameters

pub record EncryptionAccess : Type 0 where
  pub default_key : Option Bytes
  pub default_path_cipher : ℤ
  pub store_entries : List StoreEntry
  pub default_encryption_parameters : Option EncryptionParameters

-- `EncCipher(n)` and `.0`.
unfoldable pub cipher_of : ℤ → Cipher.CipherSuite
cipher_of (pos n) =
    if n == 0
    then Cipher.unspecified
    else if n == 1
    then Cipher.null
    else if n == 2
    then Cipher.aes_gcm
    else if n == 3
    then Cipher.secret_box
    else if n == 4
    then Cipher.null_base64_url
    else Cipher.other (pos n)
cipher_of (negsuc n) = Cipher.other (negsuc n)

unfoldable pub cipher_number : Cipher.CipherSuite → ℤ
cipher_number Cipher.unspecified = pos 0
cipher_number Cipher.null = pos 1
cipher_number Cipher.aes_gcm = pos 2
cipher_number Cipher.secret_box = pos 3
cipher_number Cipher.null_base64_url = pos 4
cipher_number (Cipher.other n) = n

-- `key32`
unfoldable pub key32 : Bytes → Error → Result Error Bytes
key32 bytes e = if length bytes == 32 then ok bytes else err e

module _ (is_utf8 : Bytes → Bool) where
  -- One step of the loops that add an entry to a store.
  unfoldable pub add_entry : Store → StoreEntry → Result Error Store
  add_entry s e =
      if not (is_utf8 e.bucket)
      then err bucket_not_utf8
      else map_err encryption (
          add_with_cipher s e.bucket e.unencrypted_path e.encrypted_path e.key
            (cipher_of e.path_cipher))

  unfoldable pub add_entries : Store → List StoreEntry → Result Error Store
  unfolding add_entry
  add_entries s [] = ok s
  add_entries s (e ∷ es) = add_entry s e >>= λ s'. add_entries s' es

  unfoldable pub store_from_enc : EncryptionAccess → Result Error Store
  unfolding add_entries cipher_of
  store_from_enc enc =
      add_entries
        (record new_store {
          default_key = enc.default_key;
          default_path_cipher = cipher_of enc.default_path_cipher;
        })
        enc.store_entries

-- The callback of `enc_from_store`, which pushes an entry and never fails.
unfoldable pub push_entry :
    List StoreEntry → Bytes → Base → Result EncryptionError.Error (List StoreEntry)
unfolding cipher_number
push_entry entries bucket b = ok (
    entries
    ++ record {
      bucket = bucket;
      unencrypted_path = b.unencrypted;
      encrypted_path = b.encrypted;
      key = b.key;
      path_cipher = cipher_number b.path_cipher;
      encryption_parameters = none;
    }
      ∷ [])

-- What was pushed; the result of the iteration is dropped.
abbrev pub collected : Result EncryptionError.Error (List StoreEntry) → List StoreEntry
collected (ok entries) = entries
collected (err e) = []

unfoldable pub enc_from_store : Store → EncryptionAccess
unfolding push_entry cipher_number
enc_from_store s = record {
  default_key = s.default_key;
  default_path_cipher = cipher_number s.default_path_cipher;
  store_entries = collected (iterate_with_cipher push_entry s []);
  default_encryption_parameters = none;
}

-- The test of `limit_to` on an entry, for a prefix.
unfoldable pub entry_within : StoreEntry → CaveatPath → Bool
entry_within e prefix =
    bytes_eq e.bucket prefix.bucket && starts_with e.encrypted_path prefix.encrypted_path_prefix

module _ (is_utf8 : Bytes → Bool) where
  -- The second loop: the entries within a prefix stay.
  unfoldable pub add_allowed : List CaveatPath → Store → List StoreEntry → Result Error Store
  unfolding add_entry entry_within
  add_allowed prefixes s [] = ok s
  add_allowed prefixes s (e ∷ es) =
      let kept : Result Error Store =
        if any (entry_within e) prefixes then add_entry is_utf8 s e else ok s in
      kept >>= λ s'. add_allowed prefixes s' es

module _ (lib : Cipher.Primitives) (is_utf8 : Bytes → Bool) where
  -- The first loop of `limit_to`: the key below a prefix becomes a base of its own, unless a step
  -- fails.
  unfoldable pub add_prefix : Store → Store → CaveatPath → Store
  add_prefix src s prefix =
      let bucket = prefix.bucket in
      let enc_path = prefix.encrypted_path_prefix in
      if not (is_utf8 bucket) then s else elim (decrypt_path lib bucket enc_path src) [
        | err e ↦ s
        | ok unenc ↦ elim (derive_path_key lib bucket unenc src) [
          | err e ↦ s
          | ok key ↦ elim (lookup_encrypted src bucket enc_path).base [
            | none ↦ s
            | some base ↦ elim (add_with_cipher s bucket unenc enc_path key base.path_cipher) [
              | ok s' ↦ s'
              | err e ↦ s
            ]
          ]
        ]
      ]

  unfoldable pub add_prefixes : Store → Store → List CaveatPath → Store
  unfolding add_prefix
  add_prefixes src s [] = s
  add_prefixes src s (p ∷ ps) = add_prefixes src (add_prefix src s p) ps

-- `Caveat::decode`, of which `collapse_prefixes` takes the paths.
unfoldable pub decode_paths : Codec → Bytes → Result Error Group
decode_paths codec cav_data = decode codec cav_data >>= λ cav. ok cav.allowed_paths

module _ (lib : Cipher.Primitives) (is_utf8 : Bytes → Bool) (codec : Codec) where
  unfoldable pub limit_to : EncryptionAccess → ApiKey → Result Error EncryptionAccess
  unfolding add_prefixes add_allowed decode_paths store_from_enc enc_from_store
      set_default_path_cipher
  limit_to enc api_key = do
    (prefixes, restricted) ← collapse_prefixes (decode_paths codec) api_key.mac.caveats
    let limited : Result Error EncryptionAccess = (do
      src ← store_from_enc is_utf8 enc
      let start = set_default_path_cipher new_store src.default_path_cipher
      s ←
          add_allowed is_utf8 prefixes (add_prefixes lib is_utf8 src start prefixes)
            enc.store_entries
      ok (enc_from_store s))
    if not restricted then ok enc else limited
