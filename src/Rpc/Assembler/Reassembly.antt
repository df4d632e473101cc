-- ===== src/Rpc/Assembler/Reassembly.antt =====
-- `push` on the frames of one packet: the first, a further one, and the last.
use storj_uplink.Rpc.Frame.{Frame, Packet}
use storj_uplink.Rpc.Assembler.{
  PacketAssembler, saturating_add, id_less, start, extend, accept, deliver, push,
}
use storj_uplink.Common.{
  ℕ, ◌+◌, ◌^◌, ◌≤◌, ◌<◌, ◌≡◌, refl, arith, Bool, true, false, ◌||◌, ◌++◌, none, some, ok, Bytes,
  length, length-append,
}

-- One packet, and a frame that carries a part of it.
module _ (s m kind : ℕ) (control : Bool) where
  abbrev pub part : Bytes → Packet
  part payload = record {
    stream_id = s;
    message_id = m;
    kind = kind;
    control = control;
    payload = payload;
  }

  abbrev pub frame : Bool → Bytes → Frame
  frame done payload = record {
    stream_id = s;
    message_id = m;
    kind = kind;
    done = done;
    control = control;
    payload = payload;
  }

  -- The assembler while the packet is under way.
  abbrev pub under_way : ℕ → Bytes → PacketAssembler
  under_way limit payload = record {
    last_stream = s;
    last_message = m;
    current = some (part payload);
    max_data = limit;
  }

  -- The assembler when the packet is complete.
  abbrev pub completed : ℕ → PacketAssembler
  completed limit = record {
    last_stream = s;
    last_message = saturating_add m 1;
    current = none;
    max_data = limit;
  }

  -- What the assembler is before the packet, with nothing in progress and no later id seen.
  abbrev pub IsReady : PacketAssembler → Type 0
  IsReady a = (a.current ≡ none) × (id_less s m a.last_stream a.last_message ≡ false)

  pub push_first :
      (a : PacketAssembler) (payload : Bytes)
      → IsReady a
      → length payload ≤ a.max_data
      → push a (frame false payload) ≡ (under_way a.max_data payload, ok none)
  unfolding push start deliver accept
  push_first a payload r fits = ground arith

  pub push_only :
      (a : PacketAssembler) (payload : Bytes)
      → IsReady a
      → length payload ≤ a.max_data
      → push a (frame true payload) ≡ (completed a.max_data, ok (some (part payload)))
  unfolding push start deliver accept
  push_only a payload r fits = ground arith

  not_less_self : id_less s m s m ≡ false
  unfolding id_less
  not_less_self = ground arith

  or_self : (b : Bool) → (b || b) ≡ b
  or_self true = refl
  or_self false = refl

  pub push_more :
      (limit : ℕ) (so_far payload : Bytes)
      → length so_far + length payload ≤ limit
      → limit < 2 ^ 64
      → push (under_way limit so_far) (frame false payload)
        ≡ (under_way limit (so_far ++ payload), ok none)
  unfolding push extend deliver accept
  push_more limit so_far payload fits small =
      ground (arith, not_less_self, length-append so_far payload, or_self control)

  pub push_last :
      (limit : ℕ) (so_far payload : Bytes)
      → length so_far + length payload ≤ limit
      → limit < 2 ^ 64
      → push (under_way limit so_far) (frame true payload)
        ≡ (completed limit, ok (some (part (so_far ++ payload))))
  unfolding push extend deliver accept
  push_last limit so_far payload fits small =
      ground (arith, not_less_self, length-append so_far payload, or_self control)
