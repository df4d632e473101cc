-- ===== src/Rpc/Conn/Wire.antt =====
-- From `append_packet` on one side to `read_packet` on the other.
use mathlib.Core.Path.{subst}
use mathlib.Core.List.{append_assoc}
use storj_uplink.Rpc.Varint.{FrameError}
use storj_uplink.Rpc.Frame.{Frame, Packet, max_packet_size, append_frame, append_packet}
use storj_uplink.Rpc.Frame.RoundTrip.{IsFrame, parse_frame-append_frame, length-append_frame}
use storj_uplink.Rpc.Frame.Packets.{
  written, append_packet-written, length-written, chunk_size, chunk_size_pos, FitsWire,
  frame-IsFrame,
}
use storj_uplink.Rpc.Assembler.{PacketAssembler, push}
use storj_uplink.Rpc.Assembler.Reassembly.{
  part, frame, under_way, completed, IsReady, push_first, push_only, push_more, push_last,
}
use storj_uplink.Rpc.Conn.Buffer.{unparsed-consume}
use storj_uplink.Rpc.Conn.{
  Conn, Reading, delivers, unparsed, consume, parse_one, pushed, read_loop, read_packet,
}
use storj_uplink.Common.{
  ℕ, zero, suc, ◌+◌, ◌^◌, ◌≤◌, ◌<◌, ◌≡◌, inl, inr, refl, ap, ◌∙◌, arith, Bool, true, false, [],
  ◌++◌, Option, none, some, ltb, ◌==◌, Bool-cases, Result, ok, Bytes, length, take, drop,
  length-append, take-append-drop, length-take, length-drop, drop-append,
}

-- A frame that stands at the front of the unparsed bytes is parsed, pushed and consumed.
parse_one_frame :
    (c : Conn) (f : Frame) (rest : Bytes)
    → IsFrame f
    → unparsed c ≡ append_frame [] f ++ rest
    → parse_one c ≡ pushed (consume c (length (append_frame [] f))) (push c.assembler f)
unfolding parse_one
parse_one_frame c f rest v e = rw (e, parse_one) (rw (parse_frame-append_frame f rest v, parse_one))

consume_frame :
    (c : Conn) (f : Frame) (rest : Bytes)
    → unparsed c ≡ append_frame [] f ++ rest
    → unparsed (consume c (length (append_frame [] f))) ≡ rest
consume_frame c f rest e =
    unparsed-consume c (length (append_frame [] f))
    ∙ ap (drop (length (append_frame [] f))) e
    ∙ drop-append (length (append_frame [] f)) (append_frame [] f) rest refl

-- What reading a whole packet leaves: the packet, the bytes behind it, and the assembler.
abbrev pub Delivered : ℕ → ℕ → ℕ → Bool → ℕ → Bytes → Bytes → Conn × Reading → Type 0
Delivered s m kind control limit payload rest r =
    (r.1 ≡ delivers (part s m kind control payload))
    × (unparsed r.0 ≡ rest)
    × (r.0.assembler ≡ completed s m kind control limit)

unparsed-pushed :
    (c : Conn) (r : PacketAssembler × Result FrameError (Option Packet))
    → unparsed (pushed c r).0 ≡ unparsed c
unfolding unparsed
unparsed-pushed c r = refl

-- The connection behind a frame of the packet.
abbrev behind : Conn → Frame → PacketAssembler → Conn
behind c f a = record (consume c (length (append_frame [] f))) { assembler = a }

unparsed-behind :
    (c : Conn) (f : Frame) (a : PacketAssembler) (rest : Bytes)
    → unparsed c ≡ append_frame [] f ++ rest
    → unparsed (behind c f a) ≡ rest
unparsed-behind c f a rest e =
    unparsed-pushed (consume c (length (append_frame [] f))) (a, ok none) ∙ consume_frame c f rest e

-- A round on a frame that does not end its packet goes on behind it.
inner_round :
    (g : ℕ) (c : Conn) (f : Frame) (a : PacketAssembler) (rest : Bytes)
    → IsFrame f
    → unparsed c ≡ append_frame [] f ++ rest
    → push c.assembler f ≡ (a, ok none)
    → read_loop (suc g) c ≡ read_loop g (behind c f a)
unfolding read_loop
inner_round g c f a rest v e p =
    let moved : (length (unparsed (behind c f a)) == length (unparsed c)) ≡ false = ground (
      arith,
      ap length e,
      ap length (unparsed-behind c f a rest e),
      length-append (append_frame [] f) rest,
      length-append_frame f v,
    ) in
    rw (parse_one_frame c f rest v e) (rw p (rw moved))

-- A round on the last frame delivers.
last_round :
    (g : ℕ) (c : Conn) (f : Frame) (a : PacketAssembler) (pkt : Packet) (rest : Bytes)
    → IsFrame f
    → unparsed c ≡ append_frame [] f ++ rest
    → push c.assembler f ≡ (a, ok (some pkt))
    → read_loop (suc g) c ≡ (behind c f a, delivers pkt)
unfolding read_loop
last_round g c f a pkt rest v e p = rw (parse_one_frame c f rest v e) (rw p)

module _ (s m kind : ℕ) (control : Bool) (limit n : ℕ) (v : FitsWire s m kind) where
  -- The rest of a packet that is under way.
  read_rest :
      (fuel g : ℕ) (c : Conn) (so_far payload rest : Bytes)
      → limit < 2 ^ 64
      → 0 < n
      → length so_far + length payload ≤ limit
      → length payload ≤ max_packet_size
      → length payload < fuel
      → fuel ≤ g
      → unparsed c ≡ written s m kind control n fuel payload ++ rest
      → c.assembler ≡ under_way s m kind control limit so_far
      → Delivered s m kind control limit (so_far ++ payload) rest (read_loop g c)
  unfolding written
  read_rest zero g c so_far payload rest hl hn hs hp hf hg e a = absurd (omega arith)
  read_rest (suc fuel) zero c so_far payload rest hl hn hs hp hf hg e a = absurd (omega arith)
  read_rest (suc fuel) (suc g) c so_far payload rest hl hn hs hp hf hg e a =
      elim (Bool-cases (ltb n (length payload))) [
        | inl long ↦
            let chunk = take n payload in
            let f = frame s m kind control false chunk in
            let e' : unparsed c
                ≡ append_frame [] f ++ (written s m kind control n fuel (drop n payload) ++ rest) =
              rw long at e
              ∙ append_assoc (append_frame [] f) (written s m kind control n fuel (drop n payload))
                  rest in
            let small : length chunk ≤ max_packet_size = omega (arith, length-take n payload) in
            let q : (so_far ++ chunk) ++ drop n payload ≡ so_far ++ payload =
              append_assoc so_far chunk (drop n payload)
              ∙ ap (◌++◌ so_far) (take-append-drop n payload) in
            let p : push c.assembler f
                ≡ (under_way s m kind control limit (so_far ++ chunk), ok none) =
              rw a (
                push_more s m kind control limit so_far chunk
                  (ground (arith, length-take n payload)) hl) in
            rw (inner_round g c f _ _ (frame-IsFrame s m kind control false chunk v small) e' p) (
              rw (← q) (
                read_rest fuel g _ (so_far ++ chunk) (drop n payload) rest hl hn
                  (omega (
                    arith,
                    length-take n payload,
                    length-drop n payload,
                    length-append so_far chunk,
                  ))
                  (omega (arith, length-drop n payload)) (ground (arith, length-drop n payload))
                  (omega arith) (unparsed-behind c f _ _ e') refl))
        | inr short ↦
            let f = frame s m kind control true payload in
            let e' : unparsed c ≡ append_frame [] f ++ rest = rw short at e in
            let p : push c.assembler f ≡ (
              completed s m kind control limit,
              ok (some (part s m kind control (so_far ++ payload))),
            ) =
              rw a (push_last s m kind control limit so_far payload hs hl) in
            rw (last_round g c f _ _ rest (frame-IsFrame s m kind control true payload v hp) e' p)
              (refl, unparsed-behind c f _ rest e', refl)
      ]

  -- A whole packet, from an assembler that is ready for it.
  read_whole :
      (fuel g : ℕ) (c : Conn) (payload rest : Bytes)
      → limit < 2 ^ 64
      → 0 < n
      → length payload ≤ limit
      → length payload ≤ max_packet_size
      → length payload < fuel
      → fuel ≤ g
      → unparsed c ≡ written s m kind control n fuel payload ++ rest
      → IsReady s m kind control c.assembler
      → c.assembler.max_data ≡ limit
      → Delivered s m kind control limit payload rest (read_loop g c)
  unfolding written
  read_whole zero g c payload rest hl hn hs hp hf hg e r lim = absurd (omega arith)
  read_whole (suc fuel) zero c payload rest hl hn hs hp hf hg e r lim = absurd (omega arith)
  read_whole (suc fuel) (suc g) c payload rest hl hn hs hp hf hg e r lim =
      elim (Bool-cases (ltb n (length payload))) [
        | inl long ↦
            let chunk = take n payload in
            let f = frame s m kind control false chunk in
            let e' : unparsed c
                ≡ append_frame [] f ++ (written s m kind control n fuel (drop n payload) ++ rest) =
              rw long at e
              ∙ append_assoc (append_frame [] f) (written s m kind control n fuel (drop n payload))
                  rest in
            let small : length chunk ≤ max_packet_size = omega (arith, length-take n payload) in
            let p : push c.assembler f ≡ (under_way s m kind control limit chunk, ok none) =
              rw (← lim) (
                push_first s m kind control c.assembler chunk r
                  (omega (arith, length-take n payload))) in
            rw (inner_round g c f _ _ (frame-IsFrame s m kind control false chunk v small) e' p) (
              subst
                (λ t.
                  Delivered s m kind control limit t rest
                    (read_loop g (behind c f (under_way s m kind control limit chunk))))
                (take-append-drop n payload)
                (read_rest fuel g (behind c f (under_way s m kind control limit chunk)) chunk
                  (drop n payload) rest hl hn
                  (omega (arith, length-take n payload, length-drop n payload))
                  (omega (arith, length-drop n payload)) (ground (arith, length-drop n payload))
                  (omega arith) (unparsed-behind c f _ _ e') refl))
        | inr short ↦
            let f = frame s m kind control true payload in
            let e' : unparsed c ≡ append_frame [] f ++ rest = rw short at e in
            let p : push c.assembler f
                ≡ (completed s m kind control limit, ok (some (part s m kind control payload))) =
              rw (← lim) (push_only s m kind control c.assembler payload r (omega arith)) in
            rw (last_round g c f _ _ rest (frame-IsFrame s m kind control true payload v hp) e' p)
              (refl, unparsed-behind c f _ rest e', refl)
      ]

-- A packet written by `append_packet`, at any split size, is read back whole by `read_packet`: the
-- packet is delivered, what follows it stays unparsed, and the assembler waits for the next id. The
-- ids must fit 64 bits and the kind six, the assembler must have nothing in progress and no later
-- id seen, nothing may be queued, and the payload must be within the limits of the assembler and of
-- the wire.
pub read_packet-append_packet :
    (c : Conn) (pkt : Packet) (split : ℕ) (bytes rest : Bytes)
    → FitsWire pkt.stream_id pkt.message_id pkt.kind
    → length pkt.payload ≤ max_packet_size
    → length pkt.payload ≤ c.assembler.max_data
    → c.assembler.max_data < 2 ^ 64
    → IsReady pkt.stream_id pkt.message_id pkt.kind pkt.control c.assembler
    → c.pending ≡ []
    → append_packet [] pkt split ≡ some bytes
    → unparsed c ≡ bytes ++ rest
    → Delivered pkt.stream_id pkt.message_id pkt.kind pkt.control c.assembler.max_data pkt.payload
        rest
        (read_packet c)
unfolding read_packet
read_packet-append_packet c pkt split bytes rest v fits small limit r none_pending w e =
    let whole =
      written pkt.stream_id pkt.message_id pkt.kind pkt.control (chunk_size split)
        (suc (length pkt.payload)) pkt.payload in
    let same : bytes ≡ whole = ground (arith, w, append_packet-written [] pkt split v fits) in
    rw (none_pending, read_packet)
      (read_whole pkt.stream_id pkt.message_id pkt.kind pkt.control c.assembler.max_data
        (chunk_size split) v (suc (length pkt.payload)) (suc (length (unparsed c))) c pkt.payload
        rest limit (chunk_size_pos split) small fits (omega arith)
        (ground (
          arith,
          ap length e,
          ap length same,
          length-append bytes rest,
          length-written pkt.stream_id pkt.message_id pkt.kind pkt.control (chunk_size split)
              (suc (length pkt.payload)) pkt.payload v (chunk_size_pos split) fits (omega arith),
        ))
        (rw same at e) r refl)
