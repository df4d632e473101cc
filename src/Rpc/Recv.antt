-- ===== src/Rpc/Recv.antt =====
-- crates/storj-rpc/src/conn.rs: `recv_msg` over the packets that are queued, and `peer_terminated`,
-- with the error payloads of frame.rs. A message text is its bytes: they are not decoded as UTF-8.
pub mod Terminal
use storj_uplink.Rpc.Frame.{Packet}
use storj_uplink.Common.{
  ℕ, zero, suc, ◌+◌, ◌*◌, ◌/◌, ◌%◌, ◌^◌, not, ◌||◌, List, [], ◌∷◌, ◌++◌, Option, none, some, ltb,
  ◌==◌, if◌then◌else◌, Result, ok, err, Bytes, length, take, drop,
}

-- The kinds of packets, and those that `recv_msg` names.
abbrev pub kind_message : ℕ
kind_message = 2

abbrev pub kind_error : ℕ
kind_error = 3

abbrev pub kind_cancel : ℕ
kind_cancel = 4

abbrev pub kind_close : ℕ
kind_close = 5

abbrev pub kind_close_send : ℕ
kind_close_send = 6

-- The text `canceled`.
abbrev pub canceled : Bytes
canceled = 99 ∷ 97 ∷ 110 ∷ 99 ∷ 101 ∷ 108 ∷ 101 ∷ 100 ∷ []

-- The errors of `Error` that these functions return.
pub data RecvError : Type 0 where
  remote : ℕ → Bytes → RecvError
  closed : RecvError
  unexpected_stream : ℕ → ℕ → RecvError
  unexpected_kind : ℕ → RecvError

unfoldable pub big_endian : ℕ → Bytes → ℕ
big_endian acc [] = acc
big_endian acc (b ∷ bs) = big_endian (acc * 256 + b) bs

unfoldable pub unmarshal_error : Bytes → ℕ × Bytes
unfolding big_endian
unmarshal_error data_bytes =
    if ltb (length data_bytes) 8
    then (0, data_bytes)
    else (big_endian 0 (take 8 data_bytes), drop 8 data_bytes)

-- `u64::to_be_bytes`, the last `n` bytes of a number.
unfoldable pub to_big_endian : ℕ → ℕ → Bytes
to_big_endian zero x = []
to_big_endian (suc n) x = x / 256 ^ n % 256 ∷ to_big_endian n x

unfoldable pub marshal_error : ℕ → Bytes → Bytes
unfolding to_big_endian
marshal_error code text = to_big_endian 8 code ++ text

abbrev pub remote_of : ℕ × Bytes → RecvError
remote_of r = remote r.0 r.1

-- The `match` of `peer_terminated` on a packet of the stream.
unfoldable pub terminal : Packet → Option RecvError
terminal pkt =
    if pkt.kind == kind_error
    then some (remote_of (unmarshal_error pkt.payload))
    else if pkt.kind == kind_close
    then some closed
    else if pkt.kind == kind_cancel
    then some (remote 0 canceled)
    else none

unfoldable pub peer_terminated : ℕ → List Packet → Option RecvError
peer_terminated stream_id [] = none
peer_terminated stream_id (pkt ∷ rest) =
    let later = peer_terminated stream_id rest in
    if pkt.stream_id == stream_id
    then elim (terminal pkt) [ none ↦ later | some e ↦ some e ]
    else later

-- How `recv_msg` treats one packet.
pub data Received : Type 0 where
  message : Bytes → Received
  failed : RecvError → Received
  skipped : Received

unfoldable pub receive : ℕ → Packet → Received
receive stream_id pkt =
    if not (pkt.stream_id == stream_id)
    then if ltb pkt.stream_id stream_id
      then skipped
      else failed (unexpected_stream pkt.stream_id stream_id)
    else if pkt.kind == kind_message
    then message pkt.payload
    else if pkt.kind == kind_error
    then failed (remote_of (unmarshal_error pkt.payload))
    else if pkt.kind == kind_close || pkt.kind == kind_close_send
    then failed closed
    else if pkt.kind == kind_cancel
    then failed (remote 0 canceled)
    else if pkt.control
    then skipped
    else failed (unexpected_kind pkt.kind)

-- The loop of `recv_msg` while the queue lasts: its result, none when it goes on to read, and what
-- is left of the queue.
unfoldable pub recv_queued : ℕ → List Packet → Option (Result RecvError Bytes) × List Packet
recv_queued stream_id [] = (none, [])
recv_queued stream_id (pkt ∷ rest) =
    let later = recv_queued stream_id rest in
    elim (receive stream_id pkt) [
      | message data_bytes ↦ (some (ok data_bytes), rest)
      | failed e ↦ (some (err e), rest)
      | skipped ↦ later
    ]
