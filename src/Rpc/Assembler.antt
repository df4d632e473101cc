-- ===== src/Rpc/Assembler.antt =====
-- crates/storj-rpc/src/frame.rs: `PacketAssembler`, which rebuilds packets from frames.
-- A call returns the state it leaves, also when it fails.
pub mod Bounds
pub mod Order
pub mod Reassembly
use storj_uplink.Rpc.Varint.{FrameError, monotonicity, kind_change, overflow}
use storj_uplink.Rpc.Frame.{Frame, Packet, max_packet_size}
use storj_uplink.Common.{
  ℕ, ◌+◌, ◌-◌, ◌^◌, min, Bool, true, false, not, ◌&&◌, ◌||◌, ◌++◌, Option, none, some, ltb, ◌==◌,
  if◌then◌else◌, Result, ok, err, length,
}

-- `saturating_add` on u64 and on a 64-bit usize.
abbrev pub saturating_add : ℕ → ℕ → ℕ
saturating_add a b = min (a + b) (2 ^ 64 - 1)

unfoldable pub id_less : ℕ → ℕ → ℕ → ℕ → Bool
id_less a_stream a_message b_stream b_message =
    ltb a_stream b_stream || (a_stream == b_stream && ltb a_message b_message)

pub record PacketAssembler : Type 0 where
  pub last_stream : ℕ
  pub last_message : ℕ
  pub current : Option Packet
  pub max_data : ℕ

-- `PacketAssembler::default`.
unfoldable pub default : PacketAssembler
default = record { last_stream = 1; last_message = 1; current = none; max_data = max_packet_size }

abbrev pub packet_of : Frame → Packet
packet_of fr = record {
  stream_id = fr.stream_id;
  message_id = fr.message_id;
  kind = fr.kind;
  control = fr.control;
  payload = fr.payload;
}

abbrev pub payload_length : Option Packet → ℕ
payload_length none = 0
payload_length (some pkt) = length pkt.payload

-- The size test behind the branches, and the delivery of a packet whose last frame came.
pub deliver : PacketAssembler → Frame → PacketAssembler × Result FrameError (Option Packet)
deliver a fr =
    if ltb a.max_data (payload_length a.current)
    then (a, err overflow)
    else if fr.done
    then (record a { last_message = saturating_add a.last_message 1; current = none }, ok a.current)
    else (a, ok none)

-- A frame with a new id, or with none in progress, starts a packet; one under way is dropped.
pub start : PacketAssembler → Frame → PacketAssembler
start a fr = record a {
  last_stream = fr.stream_id;
  last_message = fr.message_id;
  current = some (packet_of fr);
}

-- A further frame of the packet under way. The control bit is kept even where the size fails.
pub extend : PacketAssembler → Packet → Frame → PacketAssembler × Result FrameError (Option Packet)
unfolding deliver
extend a pkt fr =
    let pkt' = record pkt { control = pkt.control || fr.control } in
    if not (pkt.kind == fr.kind)
    then (a, err kind_change)
    else if ltb a.max_data (saturating_add (length pkt.payload) (length fr.payload))
    then (record a { current = some pkt' }, err overflow)
    else deliver (record a { current = some (record pkt' { payload = pkt.payload ++ fr.payload }) })
        fr

pub accept :
    PacketAssembler
    → Frame
    → Bool
    → Option Packet
    → PacketAssembler × Result FrameError (Option Packet)
unfolding start extend deliver
accept a fr true (some pkt) = extend a pkt fr
accept a fr false (some pkt) = deliver (start a fr) fr
accept a fr same_id none = deliver (start a fr) fr

-- `PacketAssembler::push`.
unfoldable pub push : PacketAssembler → Frame → PacketAssembler × Result FrameError (Option Packet)
unfolding id_less accept
push a fr =
    let same_id = fr.stream_id == a.last_stream && fr.message_id == a.last_message in
    if id_less fr.stream_id fr.message_id a.last_stream a.last_message
    then (a, err monotonicity)
    else accept a fr same_id a.current

-- `PacketAssembler::in_progress`.
unfoldable pub in_progress : PacketAssembler → Bool
in_progress a = elim a.current [ none ↦ false | some _ ↦ true ]
