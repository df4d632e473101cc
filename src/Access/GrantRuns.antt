-- ===== src/Access/GrantRuns.antt =====
-- Examples for the grants, keys and caveats of crates/storj-access, on the platform of Sample.
use storj_uplink.Access.Error.{Error, api_key_format}
use storj_uplink.Access.Base58.{check_encode, check_decode, check_decode_iff, checksum}
use storj_uplink.Access.Macaroon.{Macaroon, add_first_party_caveat, validate, serialize}
use storj_uplink.Access.Macaroon.RoundTrip.{IsMacaroon}
use storj_uplink.Access.Prefixes.{CaveatPath, collapse_prefixes}
use storj_uplink.Access.ApiKey.{ApiKey, parse_key, parse_raw, parse_key-serialize_key}
use storj_uplink.Access.Time.{SystemTime, IsInRange, timestamp_from_system}
use storj_uplink.Access.Caveat.{Caveat, from_permission, encode, decode}
use storj_uplink.Access.Caveat.RoundTrip.{IsHeld, saturated, decode-encode_caveat}
use storj_uplink.Access.Permission.{read_only}
use storj_uplink.Access.EncAccess.{
  StoreEntry, EncryptionAccess, store_from_enc, limit_to, decode_paths,
}
use storj_uplink.Access.EncAccess.Limited.{EntryIsAllowed, limit_to-EntryIsAllowed}
use storj_uplink.Access.EncAccess.Message.{IsPlainAccess}
use storj_uplink.Access.Grant.{
  Grant, SharePrefix, parse_grant, serialize_grant, share_paths, restrict,
}
use storj_uplink.Access.Grant.RoundTrip.{IsGrant, parse_grant-serialize_grant}
use storj_uplink.Access.Grant.Restrict.{IsShared, restrict-IsShared, restrict_validates}
use storj_uplink.Access.Sample.{
  sample_base58, sample_base58-Laws, sample_codec, sample_codec-CodecLaws, sample_sign,
  sample_platform, sample_platform-PlatformLaws,
}
use storj_uplink.Encryption.Sample.{sample_lib}
use storj_uplink.Encryption.Store.{Store}
use storj_uplink.Common.Integers.{pos, negsuc, i64_max}
use storj_uplink.Common.{
  ◌≡◌, ◌↔◌, refl, sym, arith, true, false, List, [], ◌∷◌, ◌++◌, none, some, ◌==◌, if◌then◌else◌,
  Result, ok, err, Bytes, bytes_eq, starts_with, replicate, All,
}

abbrev from_ok {ℓ} : {E : Type 0} {A : Type ℓ} → Result E A → A → A
from_ok (ok a) other = a
from_ok (err e) other = other

-- Version 1 and the payload 7, with their checksum.
check_decode_iff_example :
    (check_decode sample_base58 (1 ∷ 7 ∷ 1 ∷ 7 ∷ 0 ∷ 0 ∷ []) ≡ ok (7 ∷ [], 1))
    ↔ (some (1 ∷ 7 ∷ 1 ∷ 7 ∷ 0 ∷ 0 ∷ []) ≡ some (1 ∷ 7 ∷ checksum sample_base58 (1 ∷ 7 ∷ [])))
check_decode_iff_example =
    check_decode_iff sample_base58 sample_base58-Laws (1 ∷ 7 ∷ 1 ∷ 7 ∷ 0 ∷ 0 ∷ []) (7 ∷ []) 1

abbrev head_bytes : Bytes
head_bytes = 1 ∷ 2 ∷ []

abbrev secret : Bytes
secret = 7 ∷ 7 ∷ []

abbrev root_mac : Macaroon
root_mac = record { head = head_bytes; caveats = []; tail = sample_sign secret head_bytes }

abbrev root_key : ApiKey
root_key = record { mac = root_mac }

root_mac-IsMacaroon : IsMacaroon root_mac
root_mac-IsMacaroon = record { head_short = omega arith; caveats_short = tt; tail_length = refl }

parse_key-serialize_key_example :
    parse_key sample_base58 (check_encode sample_base58 (serialize root_mac) 3)
    ≡ (if 3 == 0 then ok root_key else err api_key_format)
parse_key-serialize_key_example =
    parse_key-serialize_key sample_base58 sample_base58-Laws root_key 3 root_mac-IsMacaroon

-- A quarter of a second before the epoch.
abbrev before_epoch : SystemTime
before_epoch = record { secs = negsuc 0; nanos = 750_000_000 }

before_epoch-IsInRange : IsInRange before_epoch
before_epoch-IsInRange = record { below_second = omega arith; in_range = ground arith }

-- The first instant of the range, which is read back a second later.
abbrev first_instant : SystemTime
first_instant = record { secs = negsuc i64_max; nanos = 0 }

first_instant-IsInRange : IsInRange first_instant
first_instant-IsInRange = record { below_second = omega arith; in_range = ground arith }

abbrev reading : Caveat
reading = record (from_permission read_only) {
  nonce = 5 ∷ [];
  not_after = some before_epoch;
  not_before = some first_instant;
  allowed_paths = record { bucket = 98 ∷ []; encrypted_path_prefix = 101 ∷ [] } ∷ [];
}

reading-IsHeld : IsHeld reading
unfolding from_permission
reading-IsHeld = record {
  after_time = λ t e. let same : before_epoch ≡ t = cc in rw (sym same) before_epoch-IsInRange;
  before_time = λ t e. let same : first_instant ≡ t = cc in rw (sym same) first_instant-IsInRange;
  ttl = λ d e. absurd (unfold read_only in cc);
}

decode-encode_caveat_example :
    decode sample_codec (encode sample_codec reading) ≡ ok (saturated reading)
decode-encode_caveat_example =
    decode-encode_caveat sample_codec sample_codec-CodecLaws reading reading-IsHeld

-- An access with a default key and a base at `u`, encrypted to `e`.
abbrev shared_entry : StoreEntry
shared_entry = record {
  bucket = 98 ∷ [];
  unencrypted_path = 117 ∷ [];
  encrypted_path = 101 ∷ [];
  key = replicate 32 4;
  path_cipher = pos 2;
  encryption_parameters = none;
}

abbrev whole_access : EncryptionAccess
whole_access = record {
  default_key = some (replicate 32 9);
  default_path_cipher = pos 2;
  store_entries = shared_entry ∷ [];
  default_encryption_parameters = none;
}

abbrev reading_key : ApiKey
reading_key = record {
  mac = record {
    head = head_bytes;
    caveats = encode sample_codec reading ∷ [];
    tail = sample_sign secret head_bytes;
  };
}

abbrev reading_prefixes : List CaveatPath
reading_prefixes = record { bucket = 98 ∷ []; encrypted_path_prefix = 101 ∷ [] } ∷ []

reading_collapses :
    collapse_prefixes (decode_paths sample_codec) (encode sample_codec reading ∷ [])
    ≡ ok (reading_prefixes, true)
unfolding collapse_prefixes decode_paths decode encode from_permission read_only
    timestamp_from_system storj_uplink.Common.Members.retain storj_uplink.Common.Members.all
    storj_uplink.Common.Members.any bytes_eq starts_with
reading_collapses = refl

abbrev limited_access : EncryptionAccess
limited_access = record whole_access { default_key = none }

access_limited :
    limit_to sample_lib (λ name. true) sample_codec whole_access reading_key ≡ ok limited_access
unfolding limit_to collapse_prefixes decode encode from_permission read_only timestamp_from_system
    storj_uplink.Encryption.Store.add_with_cipher storj_uplink.Encryption.Store.new_store
    storj_uplink.Encryption.Path.done storj_uplink.Encryption.Path.new
    storj_uplink.Encryption.Path.next storj_uplink.Encryption.Store.conflicts
    storj_uplink.Encryption.Store.get_child storj_uplink.Common.Members.any
    storj_uplink.Common.Members.retain storj_uplink.Common.Members.all bytes_eq starts_with
    storj_uplink.Encryption.StorePaths.decrypt_path storj_uplink.Encryption.Store.lookup_encrypted
    storj_uplink.Encryption.Store.put_child storj_uplink.Encryption.Path.decrypt_iterator
    storj_uplink.Encryption.Path.remaining_components
    storj_uplink.Encryption.StorePaths.derive_path_key
    storj_uplink.Encryption.Store.lookup_unencrypted storj_uplink.Encryption.Path.join_components
    storj_uplink.Encryption.Store.iterate_with_cipher
access_limited = refl

limit_to-EntryIsAllowed_example :
    (limited_access.default_key ≡ none)
    × All (EntryIsAllowed sample_codec reading_key) (shared_entry ∷ [])
limit_to-EntryIsAllowed_example =
    limit_to-EntryIsAllowed sample_lib (λ name. true) sample_codec whole_access limited_access
      reading_key reading_prefixes reading_collapses access_limited

abbrev root_grant : Grant
root_grant = record {
  satellite_addr = 115 ∷ [];
  api_key = serialize root_mac;
  enc_access = whole_access;
  original = none;
}

abbrev whole_store : Store
whole_store = from_ok (store_from_enc (λ name. true) whole_access) (record {
  roots = [];
  default_key = none;
  default_path_cipher = storj_uplink.Encryption.Cipher.aes_gcm;
  encryption_bypass = false;
})

whole_access-IsPlainAccess : IsPlainAccess (λ name. true) whole_access
unfolding store_from_enc storj_uplink.Encryption.Store.add_with_cipher
    storj_uplink.Encryption.Store.new_store storj_uplink.Encryption.Path.done
    storj_uplink.Encryption.Path.new storj_uplink.Encryption.Path.next
    storj_uplink.Encryption.Store.conflicts storj_uplink.Encryption.Store.get_child
whole_access-IsPlainAccess = record {
  default_key_size = λ key e. let same : replicate 32 9 ≡ key = cc in rw (sym same) refl;
  specified = refl;
  entries = (record { key_size = refl; no_parameters = refl }, tt);
  no_default_parameters = refl;
  store = whole_store;
  consistent = whole_consistent;
}
  where
    whole_consistent : store_from_enc (λ name. true) whole_access ≡ ok whole_store
    whole_consistent = refl

unlimited : limit_to sample_lib (λ name. true) sample_codec whole_access root_key ≡ ok whole_access
unfolding limit_to collapse_prefixes
unlimited = refl

root_grant-IsGrant : IsGrant sample_platform root_grant root_mac
root_grant-IsGrant = record {
  fresh = refl;
  addressed = refl;
  macaroon = root_mac-IsMacaroon;
  canonical = refl;
  plain = whole_access-IsPlainAccess;
  limited = unlimited;
}

parse_grant-serialize_grant_example :
    (serialized : Bytes) × (serialize_grant sample_platform root_grant ≡ ok serialized)
    × (parse_grant sample_platform serialized
        ≡ ok (record root_grant { original = some serialized }))
    × (serialize_grant sample_platform (record root_grant { original = some serialized })
        ≡ ok serialized)
parse_grant-serialize_grant_example =
    parse_grant-serialize_grant sample_platform sample_platform-PlatformLaws root_grant root_mac
      root_grant-IsGrant

abbrev under_u : SharePrefix
under_u = record { bucket = 98 ∷ []; prefix = 117 ∷ 47 ∷ [] }

-- Sharing `u/` for reading.
abbrev sharing : Result Error Grant
sharing = restrict sample_platform root_grant read_only (under_u ∷ []) (some (5 ∷ []))

abbrev shared_grant : Grant
shared_grant = from_ok sharing root_grant

shares : sharing ≡ ok shared_grant
unfolding restrict storj_uplink.Access.Permission.validate_permission read_only store_from_enc
    storj_uplink.Encryption.Store.add_with_cipher storj_uplink.Encryption.Store.new_store
    storj_uplink.Encryption.Path.done storj_uplink.Encryption.Path.new
    storj_uplink.Encryption.Path.next storj_uplink.Encryption.Store.conflicts
    storj_uplink.Encryption.Store.get_child storj_uplink.Encryption.StorePaths.encrypt_path
    storj_uplink.Encryption.Store.lookup_unencrypted bytes_eq
    storj_uplink.Encryption.Store.put_child storj_uplink.Encryption.Path.encrypt_iterator
    storj_uplink.Encryption.Path.remaining_components parse_raw storj_uplink.Access.Macaroon.parse
    serialize storj_uplink.Access.Packet.serialize_packet storj_uplink.Access.Uvarint.append_uvarint
    storj_uplink.Access.Packet.parse_section storj_uplink.Access.Packet.parse_packet
    storj_uplink.Access.Uvarint.parse_uvarint limit_to collapse_prefixes
    storj_uplink.Common.Members.retain storj_uplink.Common.Members.all starts_with
    storj_uplink.Encryption.StorePaths.decrypt_path storj_uplink.Encryption.Store.lookup_encrypted
    storj_uplink.Encryption.Path.decrypt_iterator storj_uplink.Encryption.StorePaths.derive_path_key
    decode encode from_permission timestamp_from_system storj_uplink.Common.Members.any
    storj_uplink.Encryption.Path.join_components storj_uplink.Encryption.Store.iterate_with_cipher
    add_first_party_caveat
shares = refl

always-IsHeld : IsHeld (from_permission read_only)
unfolding from_permission read_only
always-IsHeld = record {
  after_time = λ t e. absurd (cc);
  before_time = λ t e. absurd (cc);
  ttl = λ d e. absurd (cc);
}

restrict-IsShared_example :
    (store : Store) × (paths : List CaveatPath) × (store_from_enc (λ name. true) whole_access
      ≡ ok store)
    × (share_paths sample_platform store (under_u ∷ []) ≡ ok paths)
    × (shared_grant.enc_access.default_key ≡ none)
    × All (IsShared paths) shared_grant.enc_access.store_entries
restrict-IsShared_example =
    restrict-IsShared sample_platform sample_codec-CodecLaws root_grant shared_grant read_only
      under_u [] (some (5 ∷ [])) always-IsHeld shares

root_parses : parse_raw (serialize root_mac) ≡ ok root_key
unfolding parse_raw storj_uplink.Access.Macaroon.parse serialize
    storj_uplink.Access.Packet.serialize_packet storj_uplink.Access.Uvarint.append_uvarint
    storj_uplink.Access.Packet.parse_section storj_uplink.Access.Packet.parse_packet
    storj_uplink.Access.Uvarint.parse_uvarint
root_parses = refl

root_validates : validate sample_sign root_mac secret ≡ true
unfolding validate
root_validates = refl

restrict_validates_example :
    (m : Macaroon) × (c : Caveat) × (shared_grant.api_key ≡ serialize m)
    × (validate sample_sign m secret ≡ true)
    × (m.caveats ≡ [] ++ encode sample_codec c ∷ [])
restrict_validates_example =
    restrict_validates sample_platform root_grant shared_grant read_only (under_u ∷ [])
      (some (5 ∷ [])) secret root_key shares root_parses root_validates
