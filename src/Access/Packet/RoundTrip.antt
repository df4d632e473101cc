-- ===== src/Access/Packet/RoundTrip.antt =====
-- Packets and sections: what is written is read back, and the parsers end on any input.
use mathlib.Core.List.{append_assoc}
use storj_uplink.Common.Groups.{groups, length-groups}
use storj_uplink.Access.Error.{Error, varint_error, out_of_bounds, out_of_fuel}
use storj_uplink.Access.Uvarint.{max_uvarint, parse_uvarint}
use storj_uplink.Access.Uvarint.RoundTrip.{
  append_uvarint-groups, parse_uvarint-groups, parse_uvarint_takes, parse_uvarint_errors,
}
use storj_uplink.Access.Packet.{
  Packet, field_eos, serialize_packet, parse_packet, parse_section_loop, parse_section,
}
use storj_uplink.Common.{
  ℕ, zero, suc, ◌+◌, ◌%◌, ◌^◌, ◌≤◌, ◌<◌, ◌≡◌, ◌≢◌, ◌⊎◌, inl, inr, refl, ap, arith, List, [], ◌∷◌,
  ◌++◌, ◌==◌, Bool-cases, Result, ok, err, >>=-eq-ok, Result-cases, Bytes, length, length-append,
  length-drop, take-append, drop-append,
}

-- A packet that can be read back: not the end mark, and of a length that the parser admits.
pub record IsPacket (p : Packet) : Type 0 where
  pub not_eos : 0 < p.field_type
  pub type_fits : p.field_type ≤ max_uvarint
  pub length_fits : length p.payload ≤ max_uvarint

abbrev pub packet_bytes : Packet → Bytes
packet_bytes p = groups 9 p.field_type ++ (groups 9 (length p.payload) ++ p.payload)

pub serialize_packet-bytes :
    (buf : Bytes) (p : Packet) → IsPacket p → serialize_packet buf p ≡ buf ++ packet_bytes p
unfolding serialize_packet
serialize_packet-bytes buf p v =
    let t = v.type_fits in
    let l = v.length_fits in
    rw (append_uvarint-groups buf p.field_type (omega arith)) (
      rw (append_uvarint-groups (buf ++ groups 9 p.field_type) (length p.payload) (omega arith))
        (simp append_assoc))

pub parse_packet-bytes :
    (p : Packet) (rest : Bytes) → IsPacket p → parse_packet (packet_bytes p ++ rest) ≡ ok (rest, p)
unfolding parse_packet
parse_packet-bytes p rest v =
    let behind : Bytes = groups 9 (length p.payload) ++ (p.payload ++ rest) in
    let e : packet_bytes p ++ rest ≡ groups 9 p.field_type ++ behind = simp append_assoc in
    rw e (
      rw (parse_uvarint-groups p.field_type behind v.type_fits) (
        ground (
          arith,
          v.not_eos,
          v.type_fits,
          parse_uvarint-groups (length p.payload) (p.payload ++ rest) v.length_fits,
          take-append (length p.payload) p.payload rest,
          drop-append (length p.payload) p.payload rest,
          length-append p.payload rest,
        )))

pub parse_packet-eos :
    (rest : Bytes) → parse_packet (0 ∷ rest) ≡ ok (rest, record { field_type = 0; payload = [] })
unfolding parse_packet
parse_packet-eos rest =
    let e : parse_uvarint (0 ∷ rest) ≡ ok (rest, 0) =
      unfold groups in parse_uvarint-groups 0 rest (omega arith) in
    rw e

parse_packet_takes :
    (input : Bytes) (rest : Bytes) (p : Packet)
    → parse_packet input ≡ ok (rest, p)
    → length rest < length input
unfolding parse_packet
parse_packet_takes input rest p e =
    let ((r1, ft), e1, k1) = >>=-eq-ok (parse_uvarint input) _ e in
    elim (Bool-cases (ft % 2 ^ 32 == field_eos)) [
      | inl eos ↦ ground (arith, parse_uvarint_takes input ft r1 e1, k1)
      | inr more ↦
          let k2 = rw more at k1 in
          let ((r2, l), e2, k3) = >>=-eq-ok (parse_uvarint r1) _ k2 in
          ground (
            arith,
            k3,
            parse_uvarint_takes input ft r1 e1,
            parse_uvarint_takes r1 l r2 e2,
            length-drop l r2,
          )
    ]

parse_packet_errors :
    (input : Bytes) (e : Error)
    → parse_packet input ≡ err e
    → (e ≡ varint_error) ⊎ (e ≡ out_of_bounds)
unfolding parse_packet
parse_packet_errors input e h = split (parse_uvarint input) refl
  where
    split :
        (r : Result Error (Bytes × ℕ))
        → parse_uvarint input ≡ r
        → (e ≡ varint_error) ⊎ (e ≡ out_of_bounds)
    split (err x) q = ground (arith, h, q, parse_uvarint_errors input x q)
    split (ok (r1, ft)) q = elim (Bool-cases (ft % 2 ^ 32 == field_eos)) [
      | inl eos ↦ ground (arith, h, q, eos)
      | inr more ↦ second (parse_uvarint r1) refl
    ]
      where
        second :
            (r : Result Error (Bytes × ℕ))
            → parse_uvarint r1 ≡ r
            → (e ≡ varint_error) ⊎ (e ≡ out_of_bounds)
        second (err x) q2 = ground (arith, h, q, q2, parse_uvarint_errors r1 x q2)
        second (ok (r2, l)) q2 = ground (arith, h, q, q2)

parse_section_loop_ends :
    (fuel after_prev : ℕ) (packets : List Packet) (input : Bytes)
    → length input < fuel
    → parse_section_loop fuel after_prev packets input ≢ err out_of_fuel
unfolding parse_section_loop
parse_section_loop_ends zero after_prev packets input h = absurd (omega arith)
parse_section_loop_ends (suc fuel) after_prev packets [] h = λ e. cc
parse_section_loop_ends (suc fuel) after_prev packets (b ∷ bs) h =
    elim (Result-cases (parse_packet (b ∷ bs))) [
      | inr (x, q) ↦ λ e. ground (arith, parse_packet_errors (b ∷ bs) x q)
      | inl ((rest, p), q) ↦ λ e. ground (
        arith,
        parse_packet_takes (b ∷ bs) rest p q,
        parse_section_loop_ends fuel (p.field_type + 1) (packets ++ p ∷ []) rest,
      )
    ]

pub parse_packet_total : (input : Bytes) → parse_packet input ≢ err out_of_fuel
parse_packet_total input e = ground (arith, parse_packet_errors input out_of_fuel e)

-- On any input `parse_section` ends: it returns, or fails with a message of the source.
pub parse_section_total : (input : Bytes) → parse_section input ≢ err out_of_fuel
unfolding parse_section
parse_section_total input = parse_section_loop_ends (suc (length input)) 0 [] input (omega arith)

-- A section that is read took a byte at least.
parse_section_loop_takes :
    (fuel after_prev : ℕ) (packets : List Packet) (input rest : Bytes) (ps : List Packet)
    → parse_section_loop fuel after_prev packets input ≡ ok (rest, ps)
    → length rest < length input
unfolding parse_section_loop
parse_section_loop_takes zero after_prev packets input rest ps e = cc
parse_section_loop_takes (suc fuel) after_prev packets [] rest ps e = cc
parse_section_loop_takes (suc fuel) after_prev packets (b ∷ bs) rest ps e =
    let ((r1, p), e1, k) = >>=-eq-ok (parse_packet (b ∷ bs)) _ e in
    ground (
      arith,
      k,
      parse_packet_takes (b ∷ bs) r1 p e1,
      parse_section_loop_takes fuel (p.field_type + 1) (packets ++ p ∷ []) r1 rest ps,
    )

pub parse_section_takes :
    (input rest : Bytes) (ps : List Packet)
    → parse_section input ≡ ok (rest, ps)
    → length rest < length input
unfolding parse_section
parse_section_takes input rest ps e =
    parse_section_loop_takes (suc (length input)) 0 [] input rest ps e

pub parse_section-empty : (rest : Bytes) → parse_section (0 ∷ rest) ≡ ok (rest, [])
unfolding parse_section parse_section_loop
parse_section-empty rest = rw (parse_packet-eos rest)

section_first :
    (fuel : ℕ) (p : Packet) (rest input : Bytes)
    → IsPacket p
    → input ≡ packet_bytes p ++ 0 ∷ rest
    → 0 < length input
    → parse_section_loop (suc (suc fuel)) 0 [] input ≡ ok (rest, p ∷ [])
unfolding parse_section_loop
section_first fuel p rest [] v e h = absurd (omega arith)
section_first fuel p rest (b ∷ bs) v e h =
    rw e (rw (parse_packet-bytes p (0 ∷ rest) v) (ground (arith, v.not_eos, parse_packet-eos rest)))

-- A section of one packet, with the end mark behind it.
pub parse_section-one :
    (p : Packet) (rest : Bytes)
    → IsPacket p
    → parse_section (packet_bytes p ++ 0 ∷ rest) ≡ ok (rest, p ∷ [])
unfolding parse_section
parse_section-one p rest v = fuelled (packet_bytes p ++ 0 ∷ rest) refl
  where
    longer : (input : Bytes) → input ≡ packet_bytes p ++ 0 ∷ rest → 1 < length input
    longer input e = ground (
      arith,
      ap (length {A = ℕ}) e,
      length-append (packet_bytes p) (0 ∷ rest),
      length-append (groups 9 p.field_type) (groups 9 (length p.payload) ++ p.payload),
      length-groups 9 p.field_type,
    )

    fuelled :
        (input : Bytes)
        → input ≡ packet_bytes p ++ 0 ∷ rest
        → parse_section_loop (suc (length input)) 0 [] input ≡ ok (rest, p ∷ [])
    fuelled [] e = absurd (omega (arith, longer [] e))
    fuelled (b ∷ []) e = absurd (omega (arith, longer (b ∷ []) e))
    fuelled (b ∷ c ∷ bs) e = section_first (suc (length bs)) p rest (b ∷ c ∷ bs) v e (omega arith)
