-- ===== src/Encryption/Segment.antt =====
-- crates/storj-encryption/src/path.rs: `encode_segment` and `decode_segment`, which keep the bytes
-- 0x00, 0xff and `/` out of an encrypted path component. An index into the segment is the rest of
-- it from there on, and `wrapping_add` and `wrapping_sub` are written out modulo 256.
pub mod RoundTrip
use storj_uplink.Encryption.Error.{Error, decryption_failed}
use storj_uplink.Common.{
  ℕ, ◌+◌, ◌-◌, ◌%◌, Bool, ◌||◌, [], ◌∷◌, ◌++◌, ◌==◌, if◌then◌else◌, Result, ok, err, ◌>>◌, Bytes,
}

abbrev pub empty_component_prefix : ℕ
empty_component_prefix = 1

abbrev pub not_empty_component_prefix : ℕ
not_empty_component_prefix = 2

abbrev pub escape_slash : ℕ
escape_slash = 46

abbrev pub escape_ff : ℕ
escape_ff = 254

abbrev pub escape_01 : ℕ
escape_01 = 1

-- The `match` of `encode_segment` on one byte.
unfoldable pub encode_byte : ℕ → Bytes
encode_byte b =
    if b == escape_slash
    then escape_slash ∷ 1 ∷ []
    else if b == escape_slash + 1
    then escape_slash ∷ 2 ∷ []
    else if b == escape_ff
    then escape_ff ∷ 1 ∷ []
    else if b == escape_ff + 1
    then escape_ff ∷ 2 ∷ []
    else if b == escape_01 - 1
    then escape_01 ∷ 1 ∷ []
    else if b == escape_01
    then escape_01 ∷ 2 ∷ []
    else b ∷ []

unfoldable pub encode_bytes : Bytes → Bytes
encode_bytes [] = []
encode_bytes (b ∷ bs) = encode_byte b ++ encode_bytes bs

unfoldable pub encode_segment : Bytes → Bytes
encode_segment [] = empty_component_prefix ∷ []
encode_segment (b ∷ bs) = not_empty_component_prefix ∷ encode_bytes (b ∷ bs)

unfoldable pub is_escape_byte : ℕ → Bool
is_escape_byte b = b == escape_slash || b == escape_ff || b == escape_01

unfoldable pub is_disallowed_byte : ℕ → Bool
is_disallowed_byte b = b == 0 || b == 255 || b == 47

-- The loop of `validate_encoded_segment` and the check of the last byte behind it, which an escape
-- pair at the end has passed over.
unfoldable pub validate_loop : Bytes → Result Error (Unit {0})
validate_loop [] = ok tt
validate_loop (b ∷ []) =
    if is_escape_byte b
    then err decryption_failed
    else if is_disallowed_byte b
    then err decryption_failed
    else ok tt
validate_loop (b ∷ c ∷ bs) =
    let after_pair = validate_loop bs in
    let after_byte = validate_loop (c ∷ bs) in
    if is_escape_byte b
    then if c == 1 || c == 2 then after_pair else err decryption_failed
    else if is_disallowed_byte b
    then err decryption_failed
    else after_byte

unfoldable pub validate_encoded_segment : Bytes → Result Error (Unit {0})
validate_encoded_segment [] = err decryption_failed
validate_encoded_segment (b ∷ []) =
    if b == empty_component_prefix then ok tt else err decryption_failed
validate_encoded_segment (b ∷ c ∷ bs) =
    if b == not_empty_component_prefix then validate_loop (c ∷ bs) else err decryption_failed

-- The loop of `decode_segment`: the last byte is taken as it is.
unfoldable pub decode_loop : Bytes → Bytes
decode_loop [] = []
decode_loop (b ∷ []) = b ∷ []
decode_loop (b ∷ c ∷ bs) =
    let after_pair = decode_loop bs in
    let after_byte = decode_loop (c ∷ bs) in
    if b == escape_slash || b == escape_ff
    then ((b + c) % 256 + 255) % 256 ∷ after_pair
    else if b == escape_01
    then (c + 255) % 256 ∷ after_pair
    else b ∷ after_byte

unfoldable pub decode_segment : Bytes → Result Error Bytes
decode_segment segment = validate_encoded_segment segment >> elim segment [
  | [] ↦ ok []
  | b ∷ bs ↦ if b == empty_component_prefix then ok [] else ok (decode_loop bs)
]
