-- ===== src/Rpc/Frame.antt =====
-- crates/storj-rpc/src/frame.rs: kinds, frames, packets, `parse_frame` and `append_frame`.
-- `usize` is 64 bits wide, so `usize::try_from` of a u64 always succeeds.
pub mod RoundTrip
pub mod Bounds
pub mod Packets
use storj_uplink.Rpc.Varint.{FrameError, overflow, read_varint, append_varint}
use storj_uplink.Common.Partial.{◌>>=◌}
use storj_uplink.Common.{
  ℕ, zero, suc, ◌+◌, ◌-◌, ◌*◌, ◌/◌, ◌%◌, bit_and, bit_or, Bool, true, false, not, [], ◌∷◌, ◌++◌,
  Option, none, some, ltb, ◌==◌, if◌then◌else◌, Result, ok, err, Bytes, length, take, drop,
}

-- MAX_PACKET_SIZE
abbrev pub max_packet_size : ℕ
max_packet_size = 4194304

-- DEFAULT_SPLIT_SIZE
abbrev pub default_split_size : ℕ
default_split_size = 65536

-- `Kind::from_header`, with HEADER_KIND_MASK = 0b0111_1110.
unfoldable pub from_header : ℕ → ℕ
from_header header = bit_and header 126 / 2

-- `Kind::to_header_bits`.
unfoldable pub to_header_bits : ℕ → ℕ
to_header_bits kind = bit_and kind 63 * 2 % 256

-- `Frame`; a kind is the byte that it wraps.
pub record Frame : Type 0 where
  pub stream_id : ℕ
  pub message_id : ℕ
  pub kind : ℕ
  pub done : Bool
  pub control : Bool
  pub payload : Bytes

-- `Packet`.
pub record Packet : Type 0 where
  pub stream_id : ℕ
  pub message_id : ℕ
  pub kind : ℕ
  pub control : Bool
  pub payload : Bytes

-- The reads of `parse_frame` behind the header byte; `buf` holds the header too.
parse_fields : ℕ → Bytes → Result FrameError (Option (Frame × ℕ))
parse_fields header buf = do
  (stream_id, n) ← read_varint (drop 1 buf)
  let offset = 1 + n
  (message_id, n') ← read_varint (drop offset buf)
  let offset' = offset + n'
  (len, n'') ← read_varint (drop offset' buf)
  let offset'' = offset' + n''
  if ltb max_packet_size len
      then err overflow
      else if ltb (length buf - offset'') len
      then ok none
      else ok (
          some (
            record {
              stream_id = stream_id;
              message_id = message_id;
              kind = from_header header;
              done = not (bit_and header 1 == 0);
              control = not (bit_and header 128 == 0);
              payload = take len (drop offset'' buf);
            },
            offset'' + len,
          ))

-- `none` means that `buf` does not hold a whole frame yet.
unfoldable pub parse_frame : Bytes → Result FrameError (Option (Frame × ℕ))
unfolding parse_fields
parse_frame [] = ok none
parse_frame (header ∷ tail) = parse_fields header (header ∷ tail)

-- The header byte, with HEADER_DONE and HEADER_CONTROL.
unfoldable pub header_byte : ℕ → Bool → Bool → ℕ
unfolding to_header_bits
header_byte kind done control =
    let bits = to_header_bits kind in
    let bits' = if done then bit_or bits 1 else bits in if control then bit_or bits' 128 else bits'

unfoldable pub append_frame_parts : Bytes → ℕ → ℕ → ℕ → Bool → Bool → Bytes → Bytes
append_frame_parts buf stream_id message_id kind done control payload =
    let buf1 = buf ++ header_byte kind done control ∷ [] in
    let buf2 = append_varint buf1 stream_id in
    let buf3 = append_varint buf2 message_id in
    let buf4 = append_varint buf3 (length payload) in buf4 ++ payload

unfoldable pub append_frame : Bytes → Frame → Bytes
unfolding append_frame_parts
append_frame buf frame =
    append_frame_parts buf frame.stream_id frame.message_id frame.kind frame.done frame.control
      frame.payload

abbrev rest_is_empty : Bytes → Bool
rest_is_empty [] = true
rest_is_empty (b ∷ bs) = false

-- The `loop` of `append_packet_data`, on fuel; `none` means that the fuel ran out.
append_packet_loop : ℕ → Bytes → ℕ → ℕ → ℕ → Bool → Bytes → ℕ → Option Bytes
append_packet_loop zero buf stream_id message_id kind control payload n = none
append_packet_loop (suc fuel) buf stream_id message_id kind control payload n =
    let long = ltb n (length payload) in
    let chunk = if long then take n payload else payload in
    let rest = if long then drop n payload else [] in
    let buf' =
      append_frame_parts buf stream_id message_id kind (rest_is_empty rest) control chunk in
    let more = append_packet_loop fuel buf' stream_id message_id kind control rest n in
    if rest_is_empty rest then some buf' else more

-- Each round but the last takes a byte at least from the payload, so its length and one more
-- rounds are enough (`append_packet-frames`).
unfoldable pub append_packet : Bytes → Packet → ℕ → Option Bytes
unfolding append_packet_loop
append_packet buf pkt split =
    append_packet_loop (suc (length pkt.payload)) buf pkt.stream_id pkt.message_id pkt.kind
      pkt.control pkt.payload (if split == 0 then default_split_size else split)
