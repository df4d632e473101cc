-- ===== src/Access/Macaroon.antt =====
-- crates/storj-access/src/macaroon.rs: `Macaroon`, its parser and serializer, and the HMAC chain.
-- `sign` stands for HMAC-SHA256 of the hmac crate and is a parameter.
pub mod RoundTrip
pub mod Chain
use storj_uplink.Access.Error.{
  Error, empty_macaroon, invalid_version, invalid_header, no_identifier, invalid_field,
  extra_fields, not_signature, signature_length, out_of_fuel,
}
use storj_uplink.Access.Packet.{
  Packet, field_eos, field_identifier, field_verification_id, field_signature, serialize_packet,
  parse_packet, parse_section, strip_location,
}
use storj_uplink.Common.{
  ℕ, zero, suc, bit_or, bit_xor, Bool, false, not, List, [], ◌∷◌, ◌++◌, ◌==◌, if◌then◌else◌, Result,
  ok, err, ◌>>=◌, ◌>>◌, Bytes, length,
}

-- VERSION
abbrev pub version : ℕ
version = 2

-- TAIL_LEN
abbrev pub tail_len : ℕ
tail_len = 32

pub record Macaroon : Type 0 where
  pub head : Bytes
  pub caveats : List Bytes
  pub tail : Bytes

-- The checks of `parse` on the header section behind `strip_location`.
unfoldable pub header_of : List Packet → Result Error Bytes
header_of (p ∷ []) = if p.field_type == field_identifier then ok p.payload else err invalid_header
header_of _ = err invalid_header

-- The checks of `parse` on a caveat section behind `strip_location`.
unfoldable pub caveat_of : List Packet → Result Error Bytes
caveat_of [] = err no_identifier
caveat_of (p ∷ []) = if p.field_type == field_identifier then ok p.payload else err no_identifier
caveat_of (p ∷ q ∷ []) =
    if not (p.field_type == field_identifier)
    then err no_identifier
    else if q.field_type == field_verification_id
    then ok p.payload
    else err invalid_field
caveat_of (p ∷ q ∷ r ∷ rest) =
    if not (p.field_type == field_identifier) then err no_identifier else err extra_fields

-- The `loop` over the caveat sections, up to the empty one.
pub parse_caveats : ℕ → List Bytes → Bytes → Result Error (Bytes × List Bytes)
unfolding caveat_of strip_location
parse_caveats zero caveats input = err out_of_fuel
parse_caveats (suc fuel) caveats input = parse_section input >>= λ r.
    let more = λ (cav : Bytes). parse_caveats fuel (caveats ++ cav ∷ []) r.0 in
    elim r.1 [ [] ↦ ok (r.0, caveats) | p ∷ ps ↦ caveat_of (strip_location (p ∷ ps)) >>= more ]

-- The checks of `parse` on the signature.
unfoldable pub tail_of : Packet → Result Error Bytes
tail_of sig =
    if not (sig.field_type == field_signature)
    then err not_signature
    else if not (length sig.payload == tail_len)
    then err signature_length
    else ok sig.payload

-- `Macaroon::parse` behind the version byte. Each section takes a byte at least.
parse_body : Bytes → Result Error Macaroon
unfolding header_of parse_caveats tail_of strip_location
parse_body input = do
  (rest, header) ← parse_section input
  head ← header_of (strip_location header)
  (rest', caveats) ← parse_caveats (suc (length rest)) [] rest
  (_, sig) ← parse_packet rest'
  tail ← tail_of sig
  ok (record { head = head; caveats = caveats; tail = tail })

unfoldable pub parse : Bytes → Result Error Macaroon
unfolding parse_body
parse [] = err empty_macaroon
parse (v ∷ []) = err empty_macaroon
parse (v ∷ b ∷ bs) = if not (v == version) then err invalid_version else parse_body (b ∷ bs)

abbrev pub identifier : Bytes → Packet
identifier bytes = record { field_type = field_identifier; payload = bytes }

abbrev pub signature : Bytes → Packet
signature bytes = record { field_type = field_signature; payload = bytes }

serialize_caveats : Bytes → List Bytes → Bytes
serialize_caveats buf [] = buf
serialize_caveats buf (cav ∷ rest) =
    serialize_caveats (serialize_packet buf (identifier cav) ++ field_eos ∷ []) rest

-- `Macaroon::serialize`
unfoldable pub serialize : Macaroon → Bytes
unfolding serialize_caveats
serialize m =
    let start : Bytes = version ∷ [] in
    let headed = serialize_packet start (identifier m.head) ++ field_eos ∷ [] in
    let listed = serialize_caveats headed m.caveats ++ field_eos ∷ [] in
    serialize_packet listed (signature m.tail)

-- The loop of `ct_eq`; it stops with the shorter list, as `zip` does.
ct_loop : ℕ → Bytes → Bytes → ℕ
ct_loop acc (x ∷ xs) (y ∷ ys) = ct_loop (bit_or acc (bit_xor x y)) xs ys
ct_loop acc _ _ = acc

unfoldable pub ct_eq : Bytes → Bytes → Bool
unfolding ct_loop
ct_eq a b = if not (length a == length b) then false else ct_loop 0 a b == 0

module _ (sign : Bytes → Bytes → Bytes) where
  unfoldable pub from_parts : Bytes → Bytes → Macaroon
  from_parts head secret = record { head = head; caveats = []; tail = sign secret head }

  unfoldable pub add_first_party_caveat : Macaroon → Bytes → Macaroon
  add_first_party_caveat m caveat = record m {
    tail = sign m.tail caveat;
    caveats = m.caveats ++ caveat ∷ [];
  }

  pub chain : Bytes → List Bytes → Bytes
  chain tail [] = tail
  chain tail (cav ∷ rest) = chain (sign tail cav) rest

  unfoldable pub derive_tail : Macaroon → Bytes → Bytes
  unfolding chain
  derive_tail m secret = chain (sign secret m.head) m.caveats

  unfoldable pub validate : Macaroon → Bytes → Bool
  unfolding derive_tail ct_eq
  validate m secret = ct_eq (derive_tail m secret) m.tail

  tails_loop : List Bytes → Bytes → List Bytes → List Bytes
  tails_loop so_far tail [] = so_far
  tails_loop so_far tail (cav ∷ rest) =
      let tail' = sign tail cav in tails_loop (so_far ++ tail' ∷ []) tail' rest

  unfoldable pub tails : Macaroon → Bytes → List Bytes
  unfolding tails_loop
  tails m secret = let tail = sign secret m.head in tails_loop (tail ∷ []) tail m.caveats
