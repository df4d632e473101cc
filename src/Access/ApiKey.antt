-- ===== src/Access/ApiKey.antt =====
-- crates/storj-access/src/macaroon.rs: `ApiKey`, a macaroon in Base58Check.
use mathlib.Core.List.{append-nil}
use storj_uplink.Access.Error.{Error, api_key_format}
use storj_uplink.Access.Base58.{
  Primitives, Laws, grant_version, check_encode, check_decode, check_decode-check_encode,
}
use storj_uplink.Access.Macaroon.{Macaroon, from_parts, add_first_party_caveat, parse, serialize}
use storj_uplink.Access.Macaroon.RoundTrip.{IsMacaroon, parse-serialize}
use storj_uplink.Common.{
  ℕ, ◌≡◌, refl, sym, arith, not, [], ◌==◌, if◌then◌else◌, Result, ok, err, ◌>>=◌, map_err, Bytes,
}

pub record ApiKey : Type 0 where
  pub mac : Macaroon

unfoldable pub parse_raw : Bytes → Result Error ApiKey
parse_raw input = parse input >>= λ m. ok (record { mac = m })

unfoldable pub serialize_raw : ApiKey → Bytes
serialize_raw k = serialize k.mac

module _ (sign : Bytes → Bytes → Bytes) where
  unfoldable pub key_from_parts : Bytes → Bytes → ApiKey
  key_from_parts head secret = record { mac = from_parts sign head secret }

  -- `restrict`; `encoded` is the caveat in its protobuf encoding.
  unfoldable pub restrict_key : ApiKey → Bytes → ApiKey
  restrict_key k encoded = record { mac = add_first_party_caveat sign k.mac encoded }

module _ (lib : Primitives) where
  unfoldable pub parse_key : Bytes → Result Error ApiKey
  unfolding parse_raw
  parse_key key = do
    (payload, version) ← map_err (λ e. api_key_format) (check_decode lib key)
    if not (version == grant_version) then err api_key_format else parse_raw payload

  unfoldable pub serialize_key : ApiKey → Bytes
  serialize_key k = check_encode lib (serialize k.mac) grant_version

pub parse_raw-serialize_raw : (k : ApiKey) → IsMacaroon k.mac → parse_raw (serialize_raw k) ≡ ok k
unfolding parse_raw serialize_raw
parse_raw-serialize_raw k v =
    rw (sym (append-nil (serialize k.mac))) (rw (parse-serialize k.mac [] v) refl)

-- An API key whose macaroon keeps to the format is read back from its string. A key that was
-- encoded under another version is refused.
pub parse_key-serialize_key :
    (lib : Primitives) (laws : Laws lib) (k : ApiKey) (version : ℕ)
    → IsMacaroon k.mac
    → parse_key lib (check_encode lib (serialize k.mac) version)
      ≡ (if version == 0 then ok k else err api_key_format)
unfolding parse_key
parse_key-serialize_key lib laws k version v =
    let read = parse_raw-serialize_raw k v in
    rw (check_decode-check_encode lib laws (serialize k.mac) version)
      (unfold serialize_raw in ground (arith, read))
