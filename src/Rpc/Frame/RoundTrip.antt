-- ===== src/Rpc/Frame/RoundTrip.antt =====
-- `parse_frame` reads back what `append_frame` wrote.
use mathlib.Core.List.{append_assoc, append-nil}
use storj_uplink.Common.Bits.{all_below, all_below_sound}
use storj_uplink.Common.Groups.{groups}
use storj_uplink.Rpc.Varint.RoundTrip.{append_varint-groups, read_varint-groups}
use storj_uplink.Rpc.Frame.{
  Frame, max_packet_size, from_header, parse_fields, parse_frame, header_byte, append_frame_parts,
  append_frame,
}
use storj_uplink.Common.{
  ℕ, ◌+◌, ◌^◌, ◌≤◌, ◌<◌, ◌≡◌, refl, sym, ap, ◌∙◌, arith, bit_and, Bool, true, false, not, ◌&&◌, [],
  ◌∷◌, ◌++◌, some, ◌==◌, ok, Bytes, length, drop, length-append, take-append, drop-append,
  drop-drop,
}

-- What the fields of a frame can hold, and the size limit that `parse_frame` enforces.
pub record IsFrame (f : Frame) : Type 0 where
  pub stream_fits : f.stream_id < 2 ^ 64
  pub message_fits : f.message_id < 2 ^ 64
  pub kind_fits : f.kind < 64
  pub payload_fits : length f.payload ≤ max_packet_size

-- The bytes behind the header.
abbrev fields : ℕ → ℕ → Bytes → Bytes
fields stream_id message_id payload =
    groups 9 stream_id ++ (groups 9 message_id ++ (groups 9 (length payload) ++ payload))

pub append_frame_parts-fields :
    (buf : Bytes) (s m kind : ℕ) (done control : Bool) (payload : Bytes)
    → s < 2 ^ 64
    → m < 2 ^ 64
    → length payload < 2 ^ 64
    → append_frame_parts buf s m kind done control payload
      ≡ buf ++ header_byte kind done control ∷ fields s m payload
unfolding append_frame_parts
append_frame_parts-fields buf s m kind done control payload hs hm hp =
    let h : Bytes = header_byte kind done control ∷ [] in
    rw (append_varint-groups (buf ++ h) s hs) (
      rw (append_varint-groups ((buf ++ h) ++ groups 9 s) m hm) (
        rw (append_varint-groups (((buf ++ h) ++ groups 9 s) ++ groups 9 m) (length payload) hp)
          (simp append_assoc)))

-- The flags and the kind are kept apart in the header byte.
abbrev header_kind_ok : Bool → Bool → ℕ → Bool
header_kind_ok done control kind = from_header (header_byte kind done control) == kind

abbrev bool_eq : Bool → Bool → Bool
bool_eq true b = b
bool_eq false b = not b

abbrev header_flags_ok : Bool → Bool → ℕ → Bool
header_flags_ok done control kind =
    let h = header_byte kind done control in
    bool_eq (not (bit_and h 1 == 0)) done && bool_eq (not (bit_and h 128 == 0)) control

abbrev header_ok : Bool → Bool → ℕ → Bool
header_ok done control kind = header_kind_ok done control kind && header_flags_ok done control kind

header_table : (done control : Bool) → all_below 64 (header_ok done control) ≡ true
unfolding all_below from_header header_byte
header_table true true = refl
header_table true false = refl
header_table false true = refl
header_table false false = refl

header_lem :
    (done control : Bool) (kind : ℕ)
    → kind < 64
    → let h = header_byte kind done control in
      (from_header h ≡ kind)
      × (not (bit_and h 1 == 0) ≡ done)
      × (not (bit_and h 128 == 0) ≡ control)
header_lem done control kind fits =
    ground
      (arith, all_below_sound 64 (header_ok done control) kind (header_table done control) fits)

-- Each read of `parse_frame`, from where its offset stands in the buffer.
module _ (h s m : ℕ) (payload rest : Bytes) where
  whole : Bytes
  whole = h ∷ (fields s m payload ++ rest)

  at_stream :
      drop 1 whole ≡ groups 9 s ++ (groups 9 m ++ (groups 9 (length payload) ++ (payload ++ rest)))
  unfolding whole
  at_stream = simp append_assoc

  at_message :
      drop (1 + length (groups 9 s)) whole
      ≡ groups 9 m ++ (groups 9 (length payload) ++ (payload ++ rest))
  at_message =
      sym (drop-drop 1 (length (groups 9 s)) _ whole refl)
      ∙ ap (drop (length (groups 9 s))) at_stream
      ∙ drop-append _ (groups 9 s) _ refl

  at_length :
      drop (1 + length (groups 9 s) + length (groups 9 m)) whole
      ≡ groups 9 (length payload) ++ (payload ++ rest)
  at_length =
      sym (drop-drop (1 + length (groups 9 s)) (length (groups 9 m)) _ whole refl)
      ∙ ap (drop (length (groups 9 m))) at_message
      ∙ drop-append _ (groups 9 m) _ refl

  at_payload :
      drop
        (1 + length (groups 9 s) + length (groups 9 m) + length (groups 9 (length payload)))
        whole
      ≡ payload ++ rest
  at_payload =
      sym (drop-drop _ (length (groups 9 (length payload))) _ whole refl)
      ∙ ap (drop (length (groups 9 (length payload)))) at_length
      ∙ drop-append _ (groups 9 (length payload)) _ refl

  length-whole :
      length whole
      ≡ 1
        + length (groups 9 s)
        + length (groups 9 m)
        + length (groups 9 (length payload))
        + length payload
        + length rest
  unfolding whole
  length-whole = simp (length-append) (omega arith)

parse_fields-fields :
    (done control : Bool) (s m kind : ℕ) (payload rest : Bytes)
    → s < 2 ^ 64
    → m < 2 ^ 64
    → kind < 64
    → length payload ≤ max_packet_size
    → let h = header_byte kind done control in
      parse_fields h (whole h s m payload rest)
      ≡ ok (
          some (
            record {
              stream_id = s;
              message_id = m;
              kind = kind;
              done = done;
              control = control;
              payload = payload;
            },
            length (whole h s m payload []),
          ))
unfolding parse_fields
parse_fields-fields done control s m kind payload rest hs hm hk hp =
    let h = header_byte kind done control in
    rw (at_stream h s m payload rest) (
      rw (read_varint-groups s _ hs) (
        rw (at_message h s m payload rest) (
          rw (read_varint-groups m _ hm) (
            rw (at_length h s m payload rest) (
              rw (read_varint-groups (length payload) _ (omega arith)) (
                rw (at_payload h s m payload rest) (
                  ground (
                    arith,
                    header_lem done control kind hk,
                    take-append (length payload) payload rest,
                    length-whole h s m payload rest,
                    length-whole h s m payload [],
                  ))))))))

append_frame-whole :
    (f : Frame) (rest : Bytes)
    → IsFrame f
    → append_frame [] f ++ rest
      ≡ whole (header_byte f.kind f.done f.control) f.stream_id f.message_id f.payload rest
unfolding append_frame whole
append_frame-whole f rest v = rw (
    append_frame_parts-fields [] f.stream_id f.message_id f.kind f.done f.control f.payload
      v.stream_fits v.message_fits (let h = v.payload_fits in omega arith))

parse_frame-whole :
    (h s m : ℕ) (payload rest : Bytes)
    → parse_frame (whole h s m payload rest) ≡ parse_fields h (whole h s m payload rest)
unfolding parse_frame whole
parse_frame-whole h s m payload rest = refl

-- Parsing what `append_frame` wrote gives back the frame and the count of the bytes written,
-- whatever bytes follow: for 64-bit ids, a kind of six bits and a payload within the size limit.
pub parse_frame-append_frame :
    (f : Frame) (rest : Bytes)
    → IsFrame f
    → parse_frame (append_frame [] f ++ rest) ≡ ok (some (f, length (append_frame [] f)))
parse_frame-append_frame f rest v =
    let h = header_byte f.kind f.done f.control in
    let e : append_frame [] f ≡ whole h f.stream_id f.message_id f.payload [] =
      sym (append-nil (append_frame [] f)) ∙ append_frame-whole f [] v in
    rw (append_frame-whole f rest v) (
      rw e (
        parse_frame-whole h f.stream_id f.message_id f.payload rest
        ∙ parse_fields-fields f.done f.control f.stream_id f.message_id f.kind f.payload rest
            v.stream_fits v.message_fits v.kind_fits v.payload_fits))

-- A frame takes a byte more than its payload at least.
pub length-append_frame : (f : Frame) → IsFrame f → length f.payload < length (append_frame [] f)
unfolding whole
length-append_frame f v =
    let h = header_byte f.kind f.done f.control in
    let e : append_frame [] f ≡ whole h f.stream_id f.message_id f.payload [] =
      sym (append-nil (append_frame [] f)) ∙ append_frame-whole f [] v in
    rw e (omega (arith, length-whole h f.stream_id f.message_id f.payload []))

-- Appending to a buffer is appending to nothing, behind it.
pub append_frame-append :
    (buf : Bytes) (f : Frame) → IsFrame f → append_frame buf f ≡ buf ++ append_frame [] f
unfolding append_frame
append_frame-append buf f v =
    let fits : length f.payload < 2 ^ 64 = (let h = v.payload_fits in omega arith) in
    let at = λ (b : Bytes).
      append_frame_parts-fields b f.stream_id f.message_id f.kind f.done f.control f.payload
        v.stream_fits v.message_fits fits in
    at buf ∙ ap (◌++◌ buf) (sym (at []))
