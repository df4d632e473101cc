-- ===== src/Rpc/Conn.antt =====
-- crates/storj-rpc/src/conn.rs: the read buffer of `Conn`, `parse_one`, the loop of `read_packet`
-- between two reads of the transport, and what the probe `drain_ready` does between two polls.
-- The transport, its deadlines and the poisoning flag are not modelled.
pub mod Buffer
pub mod Loop
pub mod Wire
pub mod Queue
use storj_uplink.Rpc.Varint.{FrameError, overflow}
use storj_uplink.Rpc.Frame.{Packet, max_packet_size, parse_frame}
use storj_uplink.Rpc.Assembler.{PacketAssembler, push, in_progress}
use storj_uplink.Common.{
  ℕ, zero, suc, ◌+◌, Bool, true, false, ◌||◌, List, [], ◌∷◌, ◌++◌, Option, none, some, ltb, leb,
  ◌==◌, if◌then◌else◌, Result, ok, err, Bytes, length, drop,
}

-- The state of `Conn` that reading uses.
pub record Conn : Type 0 where
  pub buf : Bytes
  pub pos : ℕ
  pub assembler : PacketAssembler
  pub pending : List Packet

-- MAX_BUFFERED
abbrev pub max_buffered : ℕ
max_buffered = max_packet_size + 32

-- PENDING_HIGH_WATER_BYTES
abbrev pub pending_high_water_bytes : ℕ
pending_high_water_bytes = max_packet_size

-- MAX_PENDING_PACKETS
abbrev pub max_pending_packets : ℕ
max_pending_packets = 256

unfoldable pub unparsed : Conn → Bytes
unparsed c = drop c.pos c.buf

unfoldable pub consume : Conn → ℕ → Conn
consume c n =
    let pos = c.pos + n in
    if pos == length c.buf then record c { buf = []; pos = 0 } else record c { pos = pos }

-- `copy_within` and `truncate` leave the unparsed bytes at the front.
unfoldable pub prepare_read : Conn → Conn × Result FrameError (Unit {0})
prepare_read c =
    let c' = if ltb 0 c.pos then record c { buf = drop c.pos c.buf; pos = 0 } else c in
    if ltb max_buffered (length c'.buf) then (c', err overflow) else (c', ok tt)

pub data EofError : Type 0 where
  closed truncated : EofError

unfoldable pub eof_error : Conn → EofError
eof_error c = is_idle c.buf (in_progress c.assembler)
  where
    is_idle : Bytes → Bool → EofError
    is_idle [] false = closed
    is_idle _ _ = truncated

abbrev pub pushed :
    Conn
    → PacketAssembler × Result FrameError (Option Packet)
    → Conn × Result FrameError (Option Packet)
pushed c r = (record c { assembler = r.0 }, r.1)

unfoldable pub parse_one : Conn → Conn × Result FrameError (Option Packet)
unfolding consume
parse_one c = elim (parse_frame (unparsed c)) [
  | err e ↦ (c, err e)
  | ok none ↦ (c, ok none)
  | ok (some (frame, consumed)) ↦ pushed (consume c consumed) (push c.assembler frame)
]

-- How the loop of `read_packet` leaves the buffer: a packet, an error, or a read that it needs.
pub data Reading : Type 0 where
  delivers : Packet → Reading
  fails : FrameError → Reading
  needs_fill : Reading
  out_of_fuel : Reading

abbrev continue_reading :
    Bool → Result FrameError (Option Packet) → Conn → Conn × Reading → Conn × Reading
continue_reading stuck (err e) c more = (c, fails e)
continue_reading stuck (ok (some pkt)) c more = (c, delivers pkt)
continue_reading true (ok none) c more = (c, needs_fill)
continue_reading false (ok none) c more = more

-- The rounds of the loop up to `fill`.
pub read_loop : ℕ → Conn → Conn × Reading
read_loop zero c = (c, out_of_fuel)
read_loop (suc fuel) c =
    let before = length (unparsed c) in
    let c' = (parse_one c).0 in
    let more = read_loop fuel c' in
    continue_reading (length (unparsed c') == before) (parse_one c).1 c' more

-- The fuel is one more than the unparsed bytes.
unfoldable pub read_packet : Conn → Conn × Reading
unfolding read_loop
read_packet c = elim c.pending [
  | pkt ∷ rest ↦ (record c { pending = rest }, delivers pkt)
  | [] ↦ read_loop (suc (length (unparsed c))) c
]

-- The payload bytes of the queue.
unfoldable pub queued : List Packet → ℕ
queued [] = 0
queued (pkt ∷ rest) = length pkt.payload + queued rest

-- The watermark test of `drain_ready`.
unfoldable pub is_full : ℕ → List Packet → Bool
is_full queued_bytes pending =
    leb pending_high_water_bytes queued_bytes || leb max_pending_packets (length pending)

-- What ends the inner loop of `drain_ready`: backpressure, an error, or a buffer with no whole
-- frame, in which case the transport is polled.
pub data Drained : Type 0 where
  backpressure : Drained
  broken : FrameError → Drained
  partial : Drained
  no_fuel : Drained

abbrev drain_step :
    Bool
    → Result FrameError (Option Packet)
    → Conn × Drained
    → Conn
    → Conn × Drained
    → Conn × Drained
drain_step stuck (err e) queued_more c more = (c, broken e)
drain_step stuck (ok (some pkt)) queued_more c more = queued_more
drain_step true (ok none) queued_more c more = (c, partial)
drain_step false (ok none) queued_more c more = more

abbrev handed_out : Result FrameError (Option Packet) → List Packet
handed_out (ok (some pkt)) = pkt ∷ []
handed_out (ok none) = []
handed_out (err e) = []

-- The inner loop; `queued_bytes` is the running sum of the source.
pub drain_loop : ℕ → Conn → ℕ → Conn × Drained
unfolding is_full
drain_loop zero c queued_bytes = (c, no_fuel)
drain_loop (suc fuel) c queued_bytes =
    let before = length (unparsed c) in
    let c' = (parse_one c).0 in
    let r = (parse_one c).1 in
    let queued_more =
      drain_loop fuel (record c' { pending = c'.pending ++ handed_out r })
        (queued_bytes + queued (handed_out r)) in
    let more = drain_loop fuel c' queued_bytes in
    let next = drain_step (length (unparsed c') == before) r queued_more c' more in
    if is_full queued_bytes c.pending then (c, backpressure) else next

-- One pass over what is buffered, from the sum over the queue.
unfoldable pub drain_buffered : Conn → Conn × Drained
unfolding drain_loop
drain_buffered c = drain_loop (suc (length (unparsed c))) c (queued c.pending)
