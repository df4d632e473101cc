-- ===== src/Access/Runs.antt =====
-- Small macaroons and caveats for crates/storj-access, and the theorems at them. The hash of the
-- examples puts the key behind the data, cut to 32 bytes.
use storj_uplink.Access.Error.{Error, varint_error}
use storj_uplink.Access.Macaroon.{
  Macaroon, from_parts, add_first_party_caveat, derive_tail, validate, parse, serialize,
}
use storj_uplink.Access.Macaroon.Chain.{add_all, restricted_validates, stripping_needs_fixed_point}
use storj_uplink.Access.Macaroon.RoundTrip.{IsMacaroon, parse-serialize, parse_total}
use storj_uplink.Access.Prefixes.{CaveatPath, Group, collapse_prefixes, is_within}
use storj_uplink.Access.Prefixes.Meaning.{is_allowed, collapse_prefixes-is_allowed}
use storj_uplink.Access.Error.{out_of_fuel}
use storj_uplink.Common.Members.{any}
use storj_uplink.Common.{
  ℕ, ◌≡◌, ◌≢◌, refl, arith, true, false, [], ◌∷◌, ◌++◌, ◌==◌, if◌then◌else◌, Result, ok, err, Bytes,
  bytes_eq, starts_with, take, replicate,
}

abbrev sample_sign : Bytes → Bytes → Bytes
sample_sign key data_bytes = take 32 (data_bytes ++ key ++ replicate 32 0)

abbrev identity : Bytes
identity = 1 ∷ 2 ∷ []

abbrev secret_key : Bytes
secret_key = 7 ∷ 7 ∷ []

abbrev caveat : Bytes
caveat = 16 ∷ 1 ∷ []

abbrev root_key : Macaroon
root_key = record { head = identity; caveats = []; tail = sample_sign secret_key identity }

abbrev shared_key : Macaroon
shared_key = record {
  head = identity;
  caveats = caveat ∷ [];
  tail = sample_sign (sample_sign secret_key identity) caveat;
}

shared_key-IsMacaroon : IsMacaroon shared_key
shared_key-IsMacaroon = record {
  head_short = omega arith;
  caveats_short = (omega arith, tt);
  tail_length = refl;
}

parse-serialize_example : parse (serialize shared_key ++ 5 ∷ []) ≡ ok shared_key
parse-serialize_example = parse-serialize shared_key (5 ∷ []) shared_key-IsMacaroon

parse_total_example : parse (2 ∷ 200 ∷ []) ≢ err out_of_fuel
parse_total_example = parse_total (2 ∷ 200 ∷ [])

restricted_validates_example :
    (validate sample_sign
        (add_all sample_sign (from_parts sample_sign identity secret_key) (caveat ∷ []))
        secret_key
      ≡ true)
    × ((add_all sample_sign (from_parts sample_sign identity secret_key) (caveat ∷ [])).caveats
        ≡ caveat ∷ [])
restricted_validates_example = restricted_validates sample_sign identity secret_key (caveat ∷ [])

-- A hash that ignores its data has a fixed point, and there stripping does go unnoticed.
abbrev flat_sign : Bytes → Bytes → Bytes
flat_sign key data_bytes = replicate 32 0

abbrev flat_key : Macaroon
flat_key = record { head = identity; caveats = []; tail = replicate 32 0 }

flat_validates :
    validate flat_sign (add_first_party_caveat flat_sign flat_key caveat) secret_key ≡ true
unfolding validate add_first_party_caveat
flat_validates = refl

flat_stripped_validates :
    validate flat_sign
      (record flat_key { tail = (add_first_party_caveat flat_sign flat_key caveat).tail })
      secret_key
    ≡ true
unfolding validate add_first_party_caveat
flat_stripped_validates = refl

stripping_needs_fixed_point_example :
    flat_sign (derive_tail flat_sign flat_key secret_key) caveat
    ≡ derive_tail flat_sign flat_key secret_key
stripping_needs_fixed_point_example =
    stripping_needs_fixed_point flat_sign flat_key caveat secret_key flat_validates
      flat_stripped_validates

abbrev path : ℕ → Bytes → CaveatPath
path bucket prefix = record { bucket = bucket ∷ []; encrypted_path_prefix = prefix }

-- Caveat 1 allows two prefixes, caveat 2 a longer and a shorter one, and the others none.
abbrev sample_decode : Bytes → Result Error Group
sample_decode [] = err varint_error
sample_decode (b ∷ rest) =
    if b == 1
    then ok (path 5 (1 ∷ []) ∷ path 6 (2 ∷ []) ∷ [])
    else if b == 2
    then ok (path 5 (1 ∷ 2 ∷ []) ∷ path 5 [] ∷ [])
    else ok []

collapsed :
    collapse_prefixes sample_decode ((1 ∷ []) ∷ (3 ∷ []) ∷ (2 ∷ []) ∷ [])
    ≡ ok (path 5 (1 ∷ []) ∷ path 5 (1 ∷ 2 ∷ []) ∷ [], true)
unfolding collapse_prefixes storj_uplink.Common.Members.retain storj_uplink.Common.Members.all any
    bytes_eq starts_with
collapsed = refl

collapse_prefixes-is_allowed_example :
    any (is_within (path 5 (1 ∷ 9 ∷ []))) (path 5 (1 ∷ []) ∷ path 5 (1 ∷ 2 ∷ []) ∷ [])
    ≡ is_allowed sample_decode ((1 ∷ []) ∷ (3 ∷ []) ∷ (2 ∷ []) ∷ []) (path 5 (1 ∷ 9 ∷ []))
collapse_prefixes-is_allowed_example =
    collapse_prefixes-is_allowed sample_decode ((1 ∷ []) ∷ (3 ∷ []) ∷ (2 ∷ []) ∷ [])
      (path 5 (1 ∷ []) ∷ path 5 (1 ∷ 2 ∷ []) ∷ []) (path 5 (1 ∷ 9 ∷ [])) collapsed

unrestricted : collapse_prefixes sample_decode ((3 ∷ []) ∷ []) ≡ ok ([], false)
unfolding collapse_prefixes
unrestricted = refl
