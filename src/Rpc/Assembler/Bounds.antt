-- ===== src/Rpc/Assembler/Bounds.antt =====
-- The size limit holds of everything that leaves the assembler, and of what it keeps.
use storj_uplink.Rpc.Varint.{FrameError}
use storj_uplink.Rpc.Frame.{Frame, Packet}
use storj_uplink.Rpc.Assembler.{
  PacketAssembler, id_less, payload_length, start, extend, accept, deliver, push,
}
use storj_uplink.Common.{
  ◌≤◌, ◌≡◌, inl, inr, refl, arith, Bool, true, false, Option, none, some, Bool-cases, Result, ok,
  err, length-append,
}

-- What a call that succeeds hands out and keeps.
abbrev pub IsBounded :
    PacketAssembler → PacketAssembler × Result FrameError (Option Packet) → Type 0
IsBounded a (a', ok o) =
    (payload_length o ≤ a.max_data)
    × (payload_length a'.current ≤ a.max_data)
    × (a'.max_data ≡ a.max_data)
IsBounded a (a', err e) = a'.max_data ≡ a.max_data

deliver-IsBounded : (a : PacketAssembler) (fr : Frame) → IsBounded a (deliver a fr)
unfolding deliver
deliver-IsBounded a fr = ground arith

extend-IsBounded : (a : PacketAssembler) (pkt : Packet) (fr : Frame) → IsBounded a (extend a pkt fr)
unfolding extend deliver
extend-IsBounded a pkt fr = ground (arith, length-append pkt.payload fr.payload)

accept-IsBounded :
    (a : PacketAssembler) (fr : Frame) (same_id : Bool) (o : Option Packet)
    → IsBounded a (accept a fr same_id o)
unfolding accept start
accept-IsBounded a fr true (some pkt) = extend-IsBounded a pkt fr
accept-IsBounded a fr false (some pkt) = deliver-IsBounded (start a fr) fr
accept-IsBounded a fr true none = deliver-IsBounded (start a fr) fr
accept-IsBounded a fr false none = deliver-IsBounded (start a fr) fr

-- From any state and on any frame: a packet that `push` hands out is within `max_data`, and so is
-- the packet that it keeps when it succeeds. The limit itself never changes, errors included.
pub push-IsBounded : (a : PacketAssembler) (fr : Frame) → IsBounded a (push a fr)
unfolding push
push-IsBounded a fr =
    elim (Bool-cases (id_less fr.stream_id fr.message_id a.last_stream a.last_message)) [
      | inl e ↦ rw (e, push) refl
      | inr e ↦ rw (e, push) (accept-IsBounded a fr _ a.current)
    ]
