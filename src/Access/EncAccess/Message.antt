-- ===== src/Access/EncAccess/Message.antt =====
-- crates/storj-access/src/grant.rs: the protobuf form of `EncryptionAccess` and its entries.
use mathlib.Core.Option
use storj_uplink.Access.Error.{Error, default_key_size, entry_key_size, invalid_entry}
use storj_uplink.Access.EncAccess.{
  EncryptionParameters, StoreEntry, EncryptionAccess, key32, store_from_enc,
}
use storj_uplink.Encryption.Store.{Store}
use storj_uplink.Common.Integers.{ℤ, pos, negsuc}
use storj_uplink.Common.{
  ◌≡◌, refl, arith, Bool, false, List, [], ◌∷◌, map, Option, none, some, ◌==◌, if◌then◌else◌,
  Result, ok, ◌>>=◌, map_err, Bytes, length, All,
}

-- `pb::StoreEntry` and `pb::EncryptionAccess`, with `pb::EncryptionParameters`.
pub record ParametersMessage : Type 0 where
  pub cipher_suite : ℤ
  pub block_size : ℤ

pub record EntryMessage : Type 0 where
  pub bucket : Bytes
  pub unencrypted_path : Bytes
  pub encrypted_path : Bytes
  pub key : Bytes
  pub path_cipher : ℤ
  pub encryption_parameters : Option ParametersMessage

pub record AccessMessage : Type 0 where
  pub default_key : Bytes
  pub store_entries : List EntryMessage
  pub default_path_cipher : ℤ
  pub default_encryption_parameters : Option ParametersMessage

unfoldable pub parameters_from : ParametersMessage → EncryptionParameters
parameters_from p = record { cipher_suite = p.cipher_suite; block_size = p.block_size }

unfoldable pub entry_from_proto : EntryMessage → Result Error StoreEntry
unfolding key32 parameters_from
entry_from_proto e = do
  key ← key32 e.key entry_key_size
  ok (record {
    bucket = e.bucket;
    unencrypted_path = e.unencrypted_path;
    encrypted_path = e.encrypted_path;
    key = key;
    path_cipher = e.path_cipher;
    encryption_parameters = Option.map parameters_from e.encryption_parameters;
  })

unfoldable pub entry_to_proto : StoreEntry → EntryMessage
entry_to_proto e = record {
  bucket = e.bucket;
  unencrypted_path = e.unencrypted_path;
  encrypted_path = e.encrypted_path;
  key = e.key;
  path_cipher = e.path_cipher;
  encryption_parameters = none;
}

unfoldable pub entries_from_proto : List EntryMessage → Result Error (List StoreEntry)
unfolding entry_from_proto
entries_from_proto [] = ok []
entries_from_proto (e ∷ es) = do
  first ← entry_from_proto e
  others ← entries_from_proto es
  ok (first ∷ others)

abbrev is_unspecified : ℤ → Bool
is_unspecified (pos n) = n == 0
is_unspecified (negsuc n) = false

unfoldable pub default_key_from : Bytes → Result Error (Option Bytes)
unfolding key32
default_key_from [] = ok none
default_key_from (b ∷ bs) = key32 (b ∷ bs) default_key_size >>= λ key. ok (some key)

unfoldable pub access_from_proto : (Bytes → Bool) → AccessMessage → Result Error EncryptionAccess
unfolding default_key_from entries_from_proto store_from_enc parameters_from
access_from_proto is_utf8 p = do
  default_key ← default_key_from p.default_key
  store_entries ← entries_from_proto p.store_entries
  let access : EncryptionAccess = record {
    default_key = default_key;
    default_path_cipher =
        if is_unspecified p.default_path_cipher then pos 2 else p.default_path_cipher;
    store_entries = store_entries;
    default_encryption_parameters = Option.map parameters_from p.default_encryption_parameters;
  }
  map_err invalid_entry (store_from_enc is_utf8 access) >>= λ store. ok access

abbrev unwrap_or_default : Option Bytes → Bytes
unwrap_or_default none = []
unwrap_or_default (some key) = key

unfoldable pub access_to_proto : EncryptionAccess → AccessMessage
unfolding entry_to_proto
access_to_proto enc = record {
  default_key = unwrap_or_default enc.default_key;
  store_entries = map entry_to_proto enc.store_entries;
  default_path_cipher = enc.default_path_cipher;
  default_encryption_parameters = none;
}

-- Without encryption parameters, which are not written.
pub record IsPlainEntry (e : StoreEntry) : Type 0 where
  pub key_size : length e.key ≡ 32
  pub no_parameters : e.encryption_parameters ≡ none

-- Keys of 32 bytes, a path cipher that is specified, entries that are consistent, and no parameters.
pub record IsPlainAccess (is_utf8 : Bytes → Bool) (enc : EncryptionAccess) : Type 0 where
  pub default_key_size : (key : Bytes) → enc.default_key ≡ some key → length key ≡ 32
  pub specified : is_unspecified enc.default_path_cipher ≡ false
  pub entries : All IsPlainEntry enc.store_entries
  pub no_default_parameters : enc.default_encryption_parameters ≡ none
  pub store : Store
  pub consistent : store_from_enc is_utf8 enc ≡ ok store

entries_back :
    (es : List StoreEntry)
    → All IsPlainEntry es
    → entries_from_proto (map entry_to_proto es) ≡ ok es
unfolding entries_from_proto entry_from_proto entry_to_proto key32
entries_back [] h = refl
entries_back (e ∷ es) h = ground (arith, h.0.key_size, h.0.no_parameters, entries_back es h.1)

key_back :
    (o : Option Bytes)
    → ((key : Bytes) → o ≡ some key → length key ≡ 32)
    → default_key_from (unwrap_or_default o) ≡ ok o
unfolding default_key_from key32
key_back none h = refl
key_back (some []) h = absurd (let l = h [] refl in omega arith)
key_back (some (b ∷ bs)) h = let l = h (b ∷ bs) refl in ground (arith, l)

-- An encryption access without parameters, with keys of 32 bytes, a specified path cipher and
-- consistent entries is read back from its protobuf form.
pub access_from_proto-access_to_proto :
    (is_utf8 : Bytes → Bool) (enc : EncryptionAccess)
    → IsPlainAccess is_utf8 enc
    → access_from_proto is_utf8 (access_to_proto enc) ≡ ok enc
unfolding access_from_proto access_to_proto
access_from_proto-access_to_proto is_utf8 enc v =
    let plain : record enc { default_encryption_parameters = none } ≡ enc =
      rw v.no_default_parameters refl in
    rw (key_back enc.default_key v.default_key_size, access_from_proto)
      (rw (entries_back enc.store_entries v.entries)
        (rw (v.specified, access_from_proto) (rw plain (rw v.consistent refl))))
