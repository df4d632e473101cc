-- ===== src/Access/Packet.antt =====
-- crates/storj-access/src/macaroon.rs: packets, sections and `strip_location`.
pub mod RoundTrip
use storj_uplink.Access.Error.{Error, out_of_bounds, past_end, out_of_order, out_of_fuel}
use storj_uplink.Access.Uvarint.{append_uvarint, parse_uvarint}
use storj_uplink.Common.{
  ℕ, zero, suc, ◌+◌, ◌%◌, ◌^◌, List, [], ◌∷◌, ◌++◌, ltb, ◌==◌, if◌then◌else◌, Result, ok, err,
  ◌>>=◌, ◌>>◌, Bytes, length, take, drop,
}

-- FIELD_EOS, FIELD_LOCATION, FIELD_IDENTIFIER, FIELD_VERIFICATION_ID and FIELD_SIGNATURE.
abbrev pub field_eos : ℕ
field_eos = 0

abbrev pub field_location : ℕ
field_location = 1

abbrev pub field_identifier : ℕ
field_identifier = 2

abbrev pub field_verification_id : ℕ
field_verification_id = 4

abbrev pub field_signature : ℕ
field_signature = 6

-- `OwnedPacket`, and `Packet`, whose bytes are borrowed.
pub record Packet : Type 0 where
  pub field_type : ℕ
  pub payload : Bytes

unfoldable pub serialize_packet : Bytes → Packet → Bytes
serialize_packet buf p =
    append_uvarint (append_uvarint buf p.field_type) (length p.payload) ++ p.payload

-- The number is at most MAX_UVARINT, so the cast to u32 keeps it; it is written out all the same.
unfoldable pub parse_packet : Bytes → Result Error (Bytes × Packet)
parse_packet input = do
  (rest, ft) ← parse_uvarint input
  let field_type = ft % 2 ^ 32
  if field_type == field_eos
      then ok (rest, record { field_type = field_type; payload = [] })
      else do
        (rest', pack_len) ← parse_uvarint rest
        if ltb (length rest') pack_len
            then err out_of_bounds
            else ok (
              drop pack_len rest',
              record { field_type = field_type; payload = take pack_len rest' },
            )

-- `prev_field` starts at -1 and is then the last field type, so it is held as its successor.
pub parse_section_loop : ℕ → ℕ → List Packet → Bytes → Result Error (Bytes × List Packet)
parse_section_loop zero after_prev packets input = err out_of_fuel
parse_section_loop (suc fuel) after_prev packets [] = err past_end
parse_section_loop (suc fuel) after_prev packets (b ∷ bs) = parse_packet (b ∷ bs) >>= λ r.
    let more = parse_section_loop fuel (r.1.field_type + 1) (packets ++ r.1 ∷ []) r.0 in
    if r.1.field_type == field_eos
    then ok (r.0, packets)
    else if ltb r.1.field_type after_prev
    then err out_of_order
    else more

-- The fuel is one more than the bytes.
unfoldable pub parse_section : Bytes → Result Error (Bytes × List Packet)
unfolding parse_section_loop
parse_section input = parse_section_loop (suc (length input)) 0 [] input

unfoldable pub strip_location : List Packet → List Packet
strip_location [] = []
strip_location (p ∷ rest) = if p.field_type == field_location then rest else p ∷ rest
