-- ===== src/Access/Grant/RoundTrip.antt =====
-- What `serialize` writes of a grant, `parse` reads back.
use mathlib.Core.List.{append-nil}
use storj_uplink.Access.Base58 as Base58
use storj_uplink.Access.Macaroon.{Macaroon, parse, serialize}
use storj_uplink.Access.Macaroon.RoundTrip.{IsMacaroon, parse-serialize}
use storj_uplink.Access.EncAccess.{EncryptionAccess, limit_to}
use storj_uplink.Access.EncAccess.Message.{
  access_to_proto, IsPlainAccess, access_from_proto-access_to_proto,
}
use storj_uplink.Access.Grant.{
  Scope, Platform, Grant, is_empty_bytes, grant_of_scope, parse_checked, parse_grant,
  serialize_from_fields, serialize_grant,
}
use storj_uplink.Common.{
  ℕ, ◌<◌, ◌≡◌, refl, sym, ◌∙◌, arith, true, false, [], ◌∷◌, none, some, ok, Bytes, length,
}

-- What the other crates promise: Base58's laws, that the scope is decoded from its encoding, and
-- that an encryption access equals itself.
pub record PlatformLaws (lib : Platform) : Type 0 where
  pub base58 : Base58.Laws lib.base58
  pub decode-encode_scope : (s : Scope) → lib.decode_scope (lib.encode_scope s) ≡ some s
  pub enc_eq_refl : (enc : EncryptionAccess) → lib.enc_eq enc enc ≡ true

abbrev scope_of : Grant → Scope
scope_of g = record {
  satellite_addr = g.satellite_addr;
  api_key = g.api_key;
  encryption_access = some (access_to_proto g.enc_access);
}

-- A grant that was built from parts: an address, the canonical bytes of a macaroon, and an
-- encryption access that limiting it to the key leaves alone.
pub record IsGrant (lib : Platform) (g : Grant) (m : Macaroon) : Type 0 where
  pub fresh : g.original ≡ none
  pub addressed : is_empty_bytes g.satellite_addr ≡ false
  pub macaroon : IsMacaroon m
  pub canonical : g.api_key ≡ serialize m
  pub plain : IsPlainAccess lib.is_utf8 g.enc_access
  pub limited :
      limit_to lib.ciphers lib.is_utf8 lib.caveats g.enc_access (record { mac = m })
      ≡ ok g.enc_access

parse-serialize_all : (m : Macaroon) → IsMacaroon m → parse (serialize m) ≡ ok m
parse-serialize_all m v = rw (sym (append-nil (serialize m))) (parse-serialize m [] v)

serialize_nonempty :
    (bytes : Bytes) (m : Macaroon) → parse bytes ≡ ok m → is_empty_bytes bytes ≡ false
unfolding parse
serialize_nonempty [] m h = cc
serialize_nonempty (b ∷ bs) m h = refl

module _ (lib : Platform) (laws : PlatformLaws lib) (g : Grant) (m : Macaroon)
    (v : IsGrant lib g m) where
  grant_of_scope_lem :
      (serialized : Bytes)
      → grant_of_scope lib serialized (scope_of g) ≡ ok (record g { original = some serialized })
  unfolding grant_of_scope
  grant_of_scope_lem serialized =
      let read : parse g.api_key ≡ ok m = rw v.canonical (parse-serialize_all m v.macaroon) in
      let full = serialize_nonempty g.api_key m read in
      let access = access_from_proto-access_to_proto lib.is_utf8 g.enc_access v.plain in
      let same = laws.enc_eq_refl g.enc_access in
      let back : serialize m ≡ g.api_key = sym v.canonical in
      rw (v.addressed, grant_of_scope)
        (rw (full, grant_of_scope)
          (rw (read, grant_of_scope)
            (rw (access, grant_of_scope)
              (rw (v.limited, grant_of_scope) (rw same (rw back refl))))))

  parse_checked_lem :
      parse_checked lib (Base58.check_encode lib.base58 (lib.encode_scope (scope_of g)) 0)
      ≡ ok (record g {
        original = some (Base58.check_encode lib.base58 (lib.encode_scope (scope_of g)) 0);
      })
  unfolding parse_checked
  parse_checked_lem =
      rw (Base58.check_decode-check_encode lib.base58 laws.base58 (lib.encode_scope (scope_of g)) 0)
        (rw (laws.decode-encode_scope (scope_of g))
          (grant_of_scope_lem (Base58.check_encode lib.base58 (lib.encode_scope (scope_of g)) 0)))

  serialize_grant_fresh :
      serialize_grant lib g ≡ ok (Base58.check_encode lib.base58 (lib.encode_scope (scope_of g)) 0)
  unfolding serialize_grant serialize_from_fields
  serialize_grant_fresh =
      let read : parse g.api_key ≡ ok m = rw v.canonical (parse-serialize_all m v.macaroon) in
      let full = serialize_nonempty g.api_key m read in
      rw (v.fresh, serialize_grant) (rw v.addressed (rw full refl))

  check_encode_nonempty :
      (payload : Bytes) (version : ℕ) → 0 < length (Base58.check_encode lib.base58 payload version)
  unfolding Base58.check_encode
  check_encode_nonempty payload version = laws.base58.encode_nonempty version _

  parse_nonempty :
      (bytes : Bytes) → 0 < length bytes → parse_grant lib bytes ≡ parse_checked lib bytes
  unfolding parse_grant
  parse_nonempty [] h = absurd (omega arith)
  parse_nonempty (b ∷ bs) h = refl

  -- A grant built from an address, a macaroon's bytes and a plain encryption access that the key's
  -- caveats leave alone is serialized, and parsing the string gives the grant back, now with the
  -- string itself, which a further `serialize` returns. The codecs are assumed to keep their laws.
  pub parse_grant-serialize_grant :
      (serialized : Bytes) × (serialize_grant lib g ≡ ok serialized)
      × (parse_grant lib serialized ≡ ok (record g { original = some serialized }))
      × (serialize_grant lib (record g { original = some serialized }) ≡ ok serialized)
  parse_grant-serialize_grant =
      let serialized = Base58.check_encode lib.base58 (lib.encode_scope (scope_of g)) 0 in
      (
        serialized,
        serialize_grant_fresh,
        parse_nonempty serialized (check_encode_nonempty (lib.encode_scope (scope_of g)) 0)
            ∙ parse_checked_lem,
        unfold serialize_grant in refl,
      )
