-- ===== src/Rpc/Recv/Terminal.antt =====
-- What the probe before a send reports, against what the next `recv_msg` does.
use storj_uplink.Rpc.Frame.{Packet}
use storj_uplink.Rpc.Recv.{
  RecvError, closed, kind_close_send, unmarshal_error, marshal_error, to_big_endian, big_endian,
  peer_terminated, terminal, recv_queued, receive, failed, skipped,
}
use storj_uplink.Common.{
  ℕ, ◌^◌, ◌<◌, ◌≡◌, refl, sym, ◌∙◌, arith, false, List, [], ◌∷◌, ◌++◌, none, some, ltb, err, Bytes,
  length, take, drop, All, length-append, take-append, drop-append,
}

-- The packets that `recv_msg` passes over.
abbrev pub AreSkipped : ℕ → List Packet → Type 0
AreSkipped stream_id = All (λ pkt. receive stream_id pkt ≡ skipped)

recv_queued-skipped :
    (stream_id : ℕ) (before rest : List Packet)
    → AreSkipped stream_id before
    → recv_queued stream_id (before ++ rest) ≡ recv_queued stream_id rest
unfolding recv_queued
recv_queued-skipped stream_id [] rest h = refl
recv_queued-skipped stream_id (pkt ∷ before) rest h =
    ground (arith, h.0, recv_queued-skipped stream_id before rest h.1)

skipped-not_terminal :
    (stream_id : ℕ) (pkt : Packet)
    → receive stream_id pkt ≡ skipped
    → pkt.stream_id ≡ stream_id
    → terminal pkt ≡ none
unfolding receive terminal
skipped-not_terminal stream_id pkt h e = ground arith

peer_terminated-skipped :
    (stream_id : ℕ) (before rest : List Packet)
    → AreSkipped stream_id before
    → peer_terminated stream_id (before ++ rest) ≡ peer_terminated stream_id rest
unfolding peer_terminated
peer_terminated-skipped stream_id [] rest h = refl
peer_terminated-skipped stream_id (pkt ∷ before) rest h = ground (
  arith,
  peer_terminated-skipped stream_id before rest h.1,
  skipped-not_terminal stream_id pkt h.0,
)

-- When only packets that `recv_msg` skips stand before a terminal packet of the stream, the probe
-- and the next `recv_msg` report the same error.
pub recv_queued-terminal :
    (stream_id : ℕ) (before after : List Packet) (pkt : Packet) (e : RecvError)
    → AreSkipped stream_id before
    → pkt.stream_id ≡ stream_id
    → terminal pkt ≡ some e
    → (peer_terminated stream_id (before ++ pkt ∷ after) ≡ some e)
      × (recv_queued stream_id (before ++ pkt ∷ after) ≡ (some (err e), after))
unfolding peer_terminated recv_queued
recv_queued-terminal stream_id before after pkt e h same t = (
  peer_terminated-skipped stream_id before (pkt ∷ after) h ∙ ground (arith, same, t),
  recv_queued-skipped stream_id before (pkt ∷ after) h ∙ ground (arith, received),
)
  where
    received : receive stream_id pkt ≡ failed e
    received = unfold receive terminal in ground (arith, same, t)

-- With a half-close of the stream behind the packets that `recv_msg` skips and a terminal packet
-- next, the probe reports the error of the terminal packet, and `recv_msg` that the stream is
-- closed.
pub recv_queued-close_send :
    (stream_id : ℕ) (before after : List Packet) (half_close pkt : Packet) (e : RecvError)
    → AreSkipped stream_id before
    → half_close.stream_id ≡ stream_id
    → half_close.kind ≡ kind_close_send
    → pkt.stream_id ≡ stream_id
    → terminal pkt ≡ some e
    → (peer_terminated stream_id (before ++ half_close ∷ pkt ∷ after) ≡ some e)
      × (recv_queued stream_id (before ++ half_close ∷ pkt ∷ after)
          ≡ (some (err closed), pkt ∷ after))
unfolding peer_terminated recv_queued
recv_queued-close_send stream_id before after half_close pkt e h same kind same' t = (
  peer_terminated-skipped stream_id before (half_close ∷ pkt ∷ after) h
      ∙ ground (arith, same, same', t, passed),
  recv_queued-skipped stream_id before (half_close ∷ pkt ∷ after) h ∙ ground (arith, received),
)
  where
    passed : terminal half_close ≡ none
    passed = unfold terminal in ground (arith, kind)

    received : receive stream_id half_close ≡ failed closed
    received = unfold receive in ground (arith, same, kind)

to_big_endian-length : (x : ℕ) → length (to_big_endian 8 x) ≡ 8
unfolding to_big_endian
to_big_endian-length x = refl

big_endian-to_big_endian : (x : ℕ) → x < 2 ^ 64 → big_endian 0 (to_big_endian 8 x) ≡ x
unfolding big_endian to_big_endian
big_endian-to_big_endian x h = omega arith

-- The code and the text of an error are read back from its payload, for any code of 64 bits.
pub unmarshal_error-marshal_error :
    (code : ℕ) (text : Bytes)
    → code < 2 ^ 64
    → unmarshal_error (marshal_error code text) ≡ (code, text)
unfolding unmarshal_error marshal_error
unmarshal_error-marshal_error code text h =
    let be = to_big_endian 8 code in
    let l = to_big_endian-length code in
    let front : take 8 (be ++ text) ≡ be = take-append 8 be text (sym l) in
    let back : drop 8 (be ++ text) ≡ text = drop-append 8 be text (sym l) in
    let enough : ltb (length (be ++ text)) 8 ≡ false = ground (arith, length-append be text, l) in
    ground (arith, enough, front, back, big_endian-to_big_endian code h)
