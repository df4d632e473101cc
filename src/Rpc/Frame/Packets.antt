-- ===== src/Rpc/Frame/Packets.antt =====
-- `append_packet` writes a packet as frames of at most the split size, the last one marked.
use mathlib.Core.List.{append_assoc}
use storj_uplink.Rpc.Frame.{
  Packet, max_packet_size, default_split_size, append_frame, append_packet_loop, append_packet,
  rest_is_empty,
}
use storj_uplink.Rpc.Frame.RoundTrip.{IsFrame, length-append_frame, append_frame-append}
use storj_uplink.Rpc.Assembler.Reassembly.{frame}
use storj_uplink.Common.{
  ℕ, zero, suc, ◌-◌, ◌^◌, ◌≤◌, ◌<◌, ◌≡◌, refl, arith, Bool, true, false, [], ◌∷◌, ◌++◌, some, ltb,
  ◌==◌, if◌then◌else◌, Bytes, length, take, drop, length-append, length-take, length-drop,
}

-- The payload size of a frame.
abbrev pub chunk_size : ℕ → ℕ
chunk_size split = if split == 0 then default_split_size else split

-- What the ids and the kind of a packet can hold on the wire.
pub record FitsWire (s m kind : ℕ) : Type 0 where
  pub stream_fits : s < 2 ^ 64
  pub message_fits : m < 2 ^ 64
  pub kind_fits : kind < 64

pub frame-IsFrame :
    (s m kind : ℕ) (control done : Bool) (payload : Bytes)
    → FitsWire s m kind
    → length payload ≤ max_packet_size
    → IsFrame (frame s m kind control done payload)
frame-IsFrame s m kind control done payload v h = record {
  stream_fits = v.stream_fits;
  message_fits = v.message_fits;
  kind_fits = v.kind_fits;
  payload_fits = h;
}

module _ (s m kind : ℕ) (control : Bool) (n : ℕ) where
  -- The bytes of the frames that carry `payload`.
  unfoldable pub written : ℕ → Bytes → Bytes
  written zero payload = []
  written (suc fuel) payload =
      let more = written fuel (drop n payload) in
      if ltb n (length payload)
      then append_frame [] (frame s m kind control false (take n payload)) ++ more
      else append_frame [] (frame s m kind control true payload)

  drop_not_empty : (payload : Bytes) → n < length payload → rest_is_empty (drop n payload) ≡ false
  drop_not_empty payload h = split (drop n payload) (length-drop n payload)
    where
      split : (xs : Bytes) → length xs ≡ length payload - n → rest_is_empty xs ≡ false
      split [] e = absurd (omega arith)
      split (x ∷ xs) e = refl

  append_packet_loop-written :
      (fuel : ℕ) (buf payload : Bytes)
      → FitsWire s m kind
      → 0 < n
      → length payload ≤ max_packet_size
      → length payload < fuel
      → append_packet_loop fuel buf s m kind control payload n ≡ some (buf ++ written fuel payload)
  unfolding append_packet_loop written append_frame
  append_packet_loop-written zero buf payload v hn fits h = absurd (omega arith)
  append_packet_loop-written (suc fuel) buf payload v hn fits h =
      let chunk = take n payload in
      let inner = frame s m kind control false chunk in
      let last = frame s m kind control true payload in
      ground (
        arith,
        drop_not_empty payload,
        length-drop n payload,
        length-take n payload,
        append_frame-append buf inner
            (frame-IsFrame s m kind control false chunk v (omega (arith, length-take n payload))),
        append_frame-append buf last (frame-IsFrame s m kind control true payload v fits),
        append_packet_loop-written fuel (append_frame buf inner) (drop n payload) v hn,
        append_assoc buf (append_frame [] inner) (written fuel (drop n payload)),
      )

  pub length-written :
      (fuel : ℕ) (payload : Bytes)
      → FitsWire s m kind
      → 0 < n
      → length payload ≤ max_packet_size
      → length payload < fuel
      → length payload < length (written fuel payload)
  unfolding written
  length-written zero payload v hn fits h = absurd (omega arith)
  length-written (suc fuel) payload v hn fits h =
      let chunk = take n payload in
      let inner = frame s m kind control false chunk in
      ground (
        arith,
        length-drop n payload,
        length-take n payload,
        length-append (append_frame [] inner) (written fuel (drop n payload)),
        length-append_frame inner
            (frame-IsFrame s m kind control false chunk v (omega (arith, length-take n payload))),
        length-append_frame (frame s m kind control true payload)
            (frame-IsFrame s m kind control true payload v fits),
        length-written fuel (drop n payload) v hn,
      )

pub chunk_size_pos : (split : ℕ) → 0 < chunk_size split
chunk_size_pos split = ground arith

-- For ids of 64 bits, a kind of six bits and a payload within the packet limit, the loop of
-- `append_packet_data` ends, and it appends the frames of the packet behind the buffer.
pub append_packet-written :
    (buf : Bytes) (pkt : Packet) (split : ℕ)
    → FitsWire pkt.stream_id pkt.message_id pkt.kind
    → length pkt.payload ≤ max_packet_size
    → append_packet buf pkt split
      ≡ some (
          buf
          ++ written pkt.stream_id pkt.message_id pkt.kind pkt.control
              (chunk_size split)
              (suc (length pkt.payload))
              pkt.payload)
unfolding append_packet
append_packet-written buf pkt split v fits =
    append_packet_loop-written pkt.stream_id pkt.message_id pkt.kind pkt.control (chunk_size split)
      (suc (length pkt.payload)) buf pkt.payload v (chunk_size_pos split) fits (omega arith)
