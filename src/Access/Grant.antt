-- ===== src/Access/Grant.antt =====
-- crates/storj-access/src/grant.rs and restrict.rs: `Grant`, its parser and serializer, `restrict`
-- and `override_encryption_key`. The protobuf codec of the scope is a parameter, as the nonce is
-- that `restrict` draws.
pub mod RoundTrip
pub mod Restrict
use storj_uplink.Access.Error.{
  Error, empty_grant, grant_format, scope_format, missing_satellite, missing_api_key,
  missing_enc_access, malformed_api_key, malformed_enc_access, prefix_slash, encryption,
  no_randomness,
}
use storj_uplink.Access.Base58 as Base58
use storj_uplink.Access.Macaroon.{parse, serialize}
use storj_uplink.Access.ApiKey.{parse_raw, serialize_raw, restrict_key}
use storj_uplink.Access.Prefixes.{CaveatPath}
use storj_uplink.Access.Caveat.{Codec, Caveat, encode, from_permission}
use storj_uplink.Access.Permission.{Permission, validate_permission}
use storj_uplink.Access.EncAccess.{EncryptionAccess, store_from_enc, enc_from_store, limit_to}
use storj_uplink.Access.EncAccess.Message.{AccessMessage, access_from_proto, access_to_proto}
use storj_uplink.Encryption.Cipher as Cipher
use storj_uplink.Encryption.Store.{Store, add}
use storj_uplink.Encryption.StorePaths.{encrypt_path, strip_trailing}
use storj_uplink.Common.{
  Bool, true, false, not, List, [], ◌∷◌, Option, none, some, ◌==◌, if◌then◌else◌, Result, ok, err,
  ◌>>=◌, ◌>>◌, ok_or, map_err, Bytes,
}

-- `pb::Scope`
pub record Scope : Type 0 where
  pub satellite_addr : Bytes
  pub api_key : Bytes
  pub encryption_access : Option AccessMessage

-- What other crates give: ciphers, Base58 and SHA-256, HMAC-SHA256, UTF-8 and the protobuf codecs.
-- `enc_eq` is the equality that the source derives.
pub record Platform : Type 0 where
  pub ciphers : Cipher.Primitives
  pub base58 : Base58.Primitives
  pub sign : Bytes → Bytes → Bytes
  pub is_utf8 : Bytes → Bool
  pub caveats : Codec
  pub encode_scope : Scope → Bytes
  pub decode_scope : Bytes → Option Scope
  pub enc_eq : EncryptionAccess → EncryptionAccess → Bool

-- `Grant`, with the string that was parsed until the grant is changed.
pub record Grant : Type 0 where
  pub satellite_addr : Bytes
  pub api_key : Bytes
  pub enc_access : EncryptionAccess
  pub original : Option Bytes

unfoldable pub grant_from_parts : Bytes → Bytes → EncryptionAccess → Grant
grant_from_parts satellite_addr api_key enc_access = record {
  satellite_addr = satellite_addr;
  api_key = api_key;
  enc_access = enc_access;
  original = none;
}

unfoldable pub mark_mutated : Grant → Grant
mark_mutated g = record g { original = none }

-- `*self.enc_access_mut() = enc`
unfoldable pub set_enc_access : Grant → EncryptionAccess → Grant
unfolding mark_mutated
set_enc_access g enc = record (mark_mutated g) { enc_access = enc }

abbrev is_empty_bytes : Bytes → Bool
is_empty_bytes [] = true
is_empty_bytes (b ∷ bs) = false

module _ (lib : Platform) where
  -- `parse` behind the decoded scope.
  unfoldable pub grant_of_scope : Bytes → Scope → Result Error Grant
  unfolding access_from_proto limit_to parse_raw
  grant_of_scope serialized scope =
      let checked : Result Error Grant = (do
        canonical ← map_err malformed_api_key (parse scope.api_key)
        enc_pb ← ok_or scope.encryption_access missing_enc_access
        enc_access ← map_err malformed_enc_access (access_from_proto lib.is_utf8 enc_pb)
        key ← map_err malformed_api_key (parse_raw scope.api_key)
        limited ← limit_to lib.ciphers lib.is_utf8 lib.caveats enc_access key
        ok (record {
          satellite_addr = scope.satellite_addr;
          api_key = serialize canonical;
          enc_access = limited;
          original = if lib.enc_eq limited enc_access then some serialized else none;
        })) in
      if is_empty_bytes scope.satellite_addr
      then err missing_satellite
      else if is_empty_bytes scope.api_key
      then err missing_api_key
      else checked

  -- `Grant::parse` behind the test for an empty string.
  unfoldable pub parse_checked : Bytes → Result Error Grant
  unfolding grant_of_scope
  parse_checked serialized = do
    (payload, version) ← map_err (λ e. grant_format) (Base58.check_decode lib.base58 serialized)
    if not (version == Base58.grant_version)
        then err grant_format
        else ok_or (lib.decode_scope payload) scope_format >>= λ scope.
            grant_of_scope serialized scope

  unfoldable pub parse_grant : Bytes → Result Error Grant
  unfolding parse_checked
  parse_grant [] = err empty_grant
  parse_grant (b ∷ bs) = parse_checked (b ∷ bs)

  unfoldable pub serialize_from_fields : Grant → Result Error Bytes
  unfolding access_to_proto
  serialize_from_fields g =
      if is_empty_bytes g.satellite_addr
      then err missing_satellite
      else if is_empty_bytes g.api_key
      then err missing_api_key
      else ok (
          Base58.check_encode lib.base58
            (lib.encode_scope (record {
              satellite_addr = g.satellite_addr;
              api_key = g.api_key;
              encryption_access = some (access_to_proto g.enc_access);
            }))
            Base58.grant_version)

  unfoldable pub serialize_grant : Grant → Result Error Bytes
  unfolding serialize_from_fields
  serialize_grant g = elim g.original [
    | some original ↦ ok original
    | none ↦ serialize_from_fields g
  ]

-- `SharePrefix`
pub record SharePrefix : Type 0 where
  pub bucket : Bytes
  pub prefix : Bytes

module _ (lib : Platform) where
  -- The loop of `restrict` over the prefixes; one trailing slash is stripped.
  unfoldable pub share_paths : Store → List SharePrefix → Result Error (List CaveatPath)
  unfolding strip_trailing
  share_paths store [] = ok []
  share_paths store (p ∷ ps) = do
    enc_path ←
        map_err encryption (encrypt_path lib.ciphers p.bucket (strip_trailing p.prefix).1 store)
    others ← share_paths store ps
    ok (record { bucket = p.bucket; encrypted_path_prefix = enc_path } ∷ others)

  -- `Grant::restrict`; the nonce is none where the platform has no randomness.
  unfoldable pub restrict :
      Grant → Permission → List SharePrefix → Option Bytes → Result Error Grant
  unfolding share_paths restrict_key encode from_permission grant_from_parts
  restrict g permission prefixes nonce = do
    _ ← validate_permission permission
    store ← store_from_enc lib.is_utf8 g.enc_access
    fresh ← ok_or nonce no_randomness
    paths ← share_paths store prefixes
    let caveat : Caveat = record (from_permission permission) {
      nonce = fresh;
      allowed_paths = paths;
    }
    key ← parse_raw g.api_key
    let restricted = restrict_key lib.sign key (encode lib.caveats caveat)
    enc_access ← limit_to lib.ciphers lib.is_utf8 lib.caveats g.enc_access restricted
    ok (grant_from_parts g.satellite_addr (serialize_raw restricted) enc_access)

  -- `Grant::override_encryption_key`: the grant that it leaves.
  unfoldable pub override_encryption_key : Grant → Bytes → Bytes → Bytes → Result Error Grant
  unfolding strip_trailing add set_enc_access
  override_encryption_key g bucket prefix key =
      let (ends, unenc) = strip_trailing prefix in
      let replaced : Result Error Grant = (do
        store ← store_from_enc lib.is_utf8 g.enc_access
        enc_path ← map_err encryption (encrypt_path lib.ciphers bucket unenc store)
        store' ← map_err encryption (add store bucket unenc enc_path key)
        ok (set_enc_access g (enc_from_store store'))) in
      if not ends then err prefix_slash else replaced
