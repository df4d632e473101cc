-- ===== src/Access/Macaroon/RoundTrip.antt =====
-- `parse` reads back what `serialize` wrote, and it ends on any input.
use mathlib.Core.List.{append_assoc, append-nil}
use storj_uplink.Access.Error.{out_of_fuel}
use storj_uplink.Access.Uvarint.{max_uvarint}
use storj_uplink.Access.Packet.{
  Packet, serialize_packet, parse_packet, parse_section, strip_location,
}
use storj_uplink.Access.Packet.RoundTrip.{
  IsPacket, packet_bytes, serialize_packet-bytes, parse_packet-bytes, parse_section-one,
  parse_section-empty, parse_section_takes, parse_section_total, parse_packet_total,
}
use storj_uplink.Access.Macaroon.{
  Macaroon, version, tail_len, header_of, caveat_of, parse_caveats, tail_of, parse_body, parse,
  identifier, signature, serialize_caveats, serialize,
}
use storj_uplink.Common.{
  ℕ, zero, suc, ◌≤◌, ◌<◌, ◌≡◌, ◌≢◌, inl, inr, refl, ap, ◌∙◌, arith, List, [], ◌∷◌, ◌++◌, ok, err,
  Result-cases, Bytes, length, All, length-append,
}

abbrev IsShort : Bytes → Type 0
IsShort bytes = length bytes ≤ max_uvarint

-- What the format can carry: lengths within MAX_UVARINT, and a tail of 32 bytes.
pub record IsMacaroon (m : Macaroon) : Type 0 where
  pub head_short : IsShort m.head
  pub caveats_short : All IsShort m.caveats
  pub tail_length : length m.tail ≡ tail_len

identifier-IsPacket : (bytes : Bytes) → IsShort bytes → IsPacket (identifier bytes)
identifier-IsPacket bytes h = omega arith

signature-IsPacket : (bytes : Bytes) → length bytes ≡ tail_len → IsPacket (signature bytes)
signature-IsPacket bytes h = omega arith

-- The caveat sections, the empty section and the signature.
abbrev caveats_bytes : List Bytes → Bytes → Bytes
caveats_bytes [] rest = 0 ∷ rest
caveats_bytes (c ∷ cs) rest = packet_bytes (identifier c) ++ 0 ∷ caveats_bytes cs rest

serialize_caveats-bytes :
    (buf rest : Bytes) (cs : List Bytes)
    → All IsShort cs
    → serialize_caveats buf cs ++ 0 ∷ rest ≡ buf ++ caveats_bytes cs rest
unfolding serialize_caveats
serialize_caveats-bytes buf rest [] h = refl
serialize_caveats-bytes buf rest (c ∷ cs) h =
    serialize_caveats-bytes (serialize_packet buf (identifier c) ++ 0 ∷ []) rest cs h.1
    ∙ rw (serialize_packet-bytes buf (identifier c) (identifier-IsPacket c h.0)) (simp append_assoc)

serialize-bytes :
    (m : Macaroon) (rest : Bytes)
    → IsMacaroon m
    → serialize m ++ rest
      ≡ version
        ∷ (packet_bytes (identifier m.head)
            ++ 0 ∷ caveats_bytes m.caveats (packet_bytes (signature m.tail) ++ rest))
unfolding serialize
serialize-bytes m rest v =
    let start : Bytes = version ∷ [] in
    let headed = serialize_packet start (identifier m.head) ++ 0 ∷ [] in
    let listed = serialize_caveats headed m.caveats in
    rw
      (serialize_packet-bytes (listed ++ 0 ∷ []) (signature m.tail)
        (signature-IsPacket m.tail v.tail_length))
      (let e : ((listed ++ 0 ∷ []) ++ packet_bytes (signature m.tail)) ++ rest
            ≡ listed ++ 0 ∷ (packet_bytes (signature m.tail) ++ rest) =
          simp append_assoc in
        e
        ∙ serialize_caveats-bytes headed (packet_bytes (signature m.tail) ++ rest) m.caveats
            v.caveats_short
        ∙ rw
            (serialize_packet-bytes start (identifier m.head)
              (identifier-IsPacket m.head v.head_short))
            (simp append_assoc))

parse_caveats-bytes :
    (fuel : ℕ) (so_far cs : List Bytes) (rest : Bytes)
    → All IsShort cs
    → length cs < fuel
    → parse_caveats fuel so_far (caveats_bytes cs rest) ≡ ok (rest, so_far ++ cs)
unfolding parse_caveats strip_location caveat_of
parse_caveats-bytes zero so_far cs rest h f = absurd (omega arith)
parse_caveats-bytes (suc fuel) so_far [] rest h f = rw (parse_section-empty rest) (rw append-nil)
parse_caveats-bytes (suc fuel) so_far (c ∷ cs) rest h f =
    rw (parse_section-one (identifier c) (caveats_bytes cs rest) (identifier-IsPacket c h.0)) (
      parse_caveats-bytes fuel (so_far ++ c ∷ []) cs rest h.1 (omega arith)
      ∙ ap (λ l. ok (rest, l)) (append_assoc so_far (c ∷ []) cs))

length-caveats_bytes : (cs : List Bytes) (rest : Bytes) → length cs ≤ length (caveats_bytes cs rest)
length-caveats_bytes [] rest = omega arith
length-caveats_bytes (c ∷ cs) rest = omega (
  arith,
  length-caveats_bytes cs rest,
  length-append (packet_bytes (identifier c)) (0 ∷ caveats_bytes cs rest),
)

parse_body-bytes :
    (m : Macaroon) (rest : Bytes)
    → IsMacaroon m
    → parse_body (
        packet_bytes (identifier m.head)
        ++ 0 ∷ caveats_bytes m.caveats (packet_bytes (signature m.tail) ++ rest))
      ≡ ok m
unfolding parse_body header_of strip_location tail_of
parse_body-bytes m rest v =
    let behind = caveats_bytes m.caveats (packet_bytes (signature m.tail) ++ rest) in
    rw (parse_section-one (identifier m.head) behind (identifier-IsPacket m.head v.head_short)) (
      rw
        (parse_caveats-bytes (suc (length behind)) [] m.caveats
          (packet_bytes (signature m.tail) ++ rest) v.caveats_short
          (omega (arith, length-caveats_bytes m.caveats (packet_bytes (signature m.tail) ++ rest))))
        (rw (parse_packet-bytes (signature m.tail) rest (signature-IsPacket m.tail v.tail_length))
          (ground (arith, v.tail_length))))

parse-version :
    (input : Bytes) (m : Macaroon)
    → 0 < length input
    → parse_body input ≡ ok m
    → parse (version ∷ input) ≡ ok m
unfolding parse
parse-version [] m h e = absurd (omega arith)
parse-version (b ∷ bs) m h e = e

-- A macaroon whose head and caveats are of lengths that the format admits, with a tail of 32
-- bytes, is read back from its serialization, whatever bytes follow.
pub parse-serialize :
    (m : Macaroon) (rest : Bytes) → IsMacaroon m → parse (serialize m ++ rest) ≡ ok m
parse-serialize m rest v =
    let behind = caveats_bytes m.caveats (packet_bytes (signature m.tail) ++ rest) in
    rw (serialize-bytes m rest v) (
      parse-version (packet_bytes (identifier m.head) ++ 0 ∷ behind) m
        (omega (arith, length-append (packet_bytes (identifier m.head)) (0 ∷ behind)))
        (parse_body-bytes m rest v))

caveat_of_ne_fuel : (ps : List Packet) → caveat_of ps ≢ err out_of_fuel
unfolding caveat_of
caveat_of_ne_fuel [] e = cc
caveat_of_ne_fuel (p ∷ []) e = ground arith
caveat_of_ne_fuel (p ∷ q ∷ []) e = ground arith
caveat_of_ne_fuel (p ∷ q ∷ r ∷ rest) e = ground arith

parse_caveats_ends :
    (fuel : ℕ) (so_far : List Bytes) (input : Bytes)
    → length input < fuel
    → parse_caveats fuel so_far input ≢ err out_of_fuel
unfolding parse_caveats
parse_caveats_ends zero so_far input h = absurd (omega arith)
parse_caveats_ends (suc fuel) so_far input h = elim (Result-cases (parse_section input)) [
  | inr (x, q) ↦ λ e. ground (arith, e, q, parse_section_total input)
  | inl ((rest, []), q) ↦ λ e. ground (arith, e, q)
  | inl ((rest, p ∷ ps), q) ↦ λ e. elim (Result-cases (caveat_of (strip_location (p ∷ ps)))) [
    | inr (x, k) ↦ ground (arith, e, q, k, caveat_of_ne_fuel (strip_location (p ∷ ps)))
    | inl (cav, k) ↦ ground (
      arith,
      e,
      q,
      k,
      parse_section_takes input rest (p ∷ ps) q,
      parse_caveats_ends fuel (so_far ++ cav ∷ []) rest,
    )
  ]
]

header_of_ne_fuel : (ps : List Packet) → header_of ps ≢ err out_of_fuel
unfolding header_of
header_of_ne_fuel [] e = cc
header_of_ne_fuel (p ∷ []) e = ground arith
header_of_ne_fuel (p ∷ q ∷ rest) e = cc

tail_of_ne_fuel : (p : Packet) → tail_of p ≢ err out_of_fuel
unfolding tail_of
tail_of_ne_fuel p e = ground arith

parse_body_ends : (input : Bytes) → parse_body input ≢ err out_of_fuel
unfolding parse_body
parse_body_ends input e = elim (Result-cases (parse_section input)) [
  | inr (x, q) ↦ ground (arith, e, q, parse_section_total input)
  | inl ((rest, header), q) ↦ elim (Result-cases (header_of (strip_location header))) [
    | inr (x, k) ↦ ground (arith, e, q, k, header_of_ne_fuel (strip_location header))
    | inl (head, k) ↦ elim (Result-cases (parse_caveats (suc (length rest)) [] rest)) [
      | inr (x, l) ↦
          ground (arith, e, q, k, l, parse_caveats_ends (suc (length rest)) [] rest (omega arith))
      | inl ((rest', cs), l) ↦ elim (Result-cases (parse_packet rest')) [
        | inr (x, m) ↦ ground (arith, e, q, k, l, m, parse_packet_total rest')
        | inl ((rest'', sig), m) ↦ ground (arith, e, q, k, l, m, tail_of_ne_fuel sig)
      ]
    ]
  ]
]

-- On any input the parser ends: it returns a macaroon or fails with a message of the source.
pub parse_total : (input : Bytes) → parse input ≢ err out_of_fuel
unfolding parse
parse_total [] e = cc
parse_total (v ∷ []) e = cc
parse_total (v ∷ b ∷ bs) e = ground (arith, parse_body_ends (b ∷ bs))
