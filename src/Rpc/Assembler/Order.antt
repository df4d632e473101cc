-- ===== src/Rpc/Assembler/Order.antt =====
-- Packets leave the assembler in the strict order of their ids.
use storj_uplink.Rpc.Varint.{FrameError}
use storj_uplink.Rpc.Frame.{Frame, Packet}
use storj_uplink.Rpc.Assembler.{
  PacketAssembler, id_less, packet_of, start, extend, accept, deliver, push,
}
use storj_uplink.Common.{
  ℕ, ◌+◌, ◌-◌, ◌^◌, ◌≤◌, ◌<◌, ◌≡◌, ◌⊎◌, inl, inr, refl, arith, Bool, true, false, List, [], ◌∷◌,
  Option, none, some, Bool-cases, Result, ok, err, All,
}

-- The lexicographic order of (stream, message) ids.
abbrev pub IdLe : ℕ → ℕ → ℕ → ℕ → Type 0
IdLe s m s' m' = (s < s') ⊎ ((s ≡ s') × (m ≤ m'))

-- The packet under way carries the id of the last frame.
abbrev pub IsTracked : PacketAssembler → Option Packet → Type 0
IsTracked a none = Unit {0}
IsTracked a (some pkt) = (pkt.stream_id ≡ a.last_stream) × (pkt.message_id ≡ a.last_message)

-- What a call leaves: ids did not fall, and a packet handed out lies between the two ids.
abbrev pub Advances : PacketAssembler → PacketAssembler × Result FrameError (Option Packet) → Type 0
Advances a (a', ok (some pkt)) =
    IdLe a.last_stream a.last_message pkt.stream_id pkt.message_id
    × IdLe pkt.stream_id (pkt.message_id + 1) a'.last_stream a'.last_message
    × IsTracked a' a'.current
Advances a (a', ok none) =
    IdLe a.last_stream a.last_message a'.last_stream a'.last_message × IsTracked a' a'.current
Advances a (a', err e) = IdLe a.last_stream a.last_message a'.last_stream a'.last_message

deliver-Advances :
    (a b : PacketAssembler) (fr : Frame) (pkt : Packet)
    → IdLe a.last_stream a.last_message b.last_stream b.last_message
    → b.current ≡ some pkt
    → IsTracked b (some pkt)
    → b.last_message < 2 ^ 64 - 1
    → Advances a (deliver b fr)
unfolding deliver
deliver-Advances a b fr pkt h e t fits = ground arith

extend-Advances :
    (a : PacketAssembler) (pkt : Packet) (fr : Frame)
    → IsTracked a (some pkt)
    → a.last_message < 2 ^ 64 - 1
    → Advances a (extend a pkt fr)
unfolding extend
extend-Advances a pkt fr t fits = ground arith

start-Advances :
    (a : PacketAssembler) (fr : Frame)
    → IdLe a.last_stream a.last_message fr.stream_id fr.message_id
    → fr.message_id < 2 ^ 64 - 1
    → Advances a (deliver (start a fr) fr)
unfolding start
start-Advances a fr h fits =
    deliver-Advances a (start a fr) fr (packet_of fr) h refl (refl, refl) fits

accept-Advances :
    (a : PacketAssembler) (fr : Frame) (same_id : Bool) (o : Option Packet)
    → a.current ≡ o
    → IsTracked a o
    → IdLe a.last_stream a.last_message fr.stream_id fr.message_id
    → (same_id ≡ true → fr.message_id ≡ a.last_message)
    → fr.message_id < 2 ^ 64 - 1
    → Advances a (accept a fr same_id o)
unfolding accept
accept-Advances a fr true (some pkt) e t h same fits =
    extend-Advances a pkt fr t (let q = same refl in omega arith)
accept-Advances a fr false (some pkt) e t h same fits = start-Advances a fr h fits
accept-Advances a fr true none e t h same fits = start-Advances a fr h fits
accept-Advances a fr false none e t h same fits = start-Advances a fr h fits

not_less→IdLe : (s m s' m' : ℕ) → id_less s m s' m' ≡ false → IdLe s' m' s m
unfolding id_less
not_less→IdLe s m s' m' h = ground arith

push-Advances :
    (a : PacketAssembler) (fr : Frame)
    → IsTracked a a.current
    → fr.message_id < 2 ^ 64 - 1
    → Advances a (push a fr)
unfolding push
push-Advances a fr t fits =
    elim (Bool-cases (id_less fr.stream_id fr.message_id a.last_stream a.last_message)) [
      | inl e ↦ rw (e, push) (inr (refl, omega arith))
      | inr e ↦
          rw (e, push)
            (accept-Advances a fr _ a.current refl t (not_less→IdLe _ _ _ _ e) (λ q. ground arith)
              fits)
    ]

abbrev handed : Result FrameError (Option Packet) → List Packet → List Packet
handed (ok none) rest = rest
handed (ok (some pkt)) rest = pkt ∷ rest
handed (err e) rest = []

-- The packets that a run of frames delivers; the connection fails at the first error.
unfoldable pub packets : PacketAssembler → List Frame → List Packet
packets a [] = []
packets a (fr ∷ frs) = let rest = packets (push a fr).0 frs in handed (push a fr).1 rest

-- Every id is above the one before it, and the first is at least the given one.
abbrev pub AscendFrom : ℕ → ℕ → List Packet → Type 0
AscendFrom s m [] = Unit {0}
AscendFrom s m (p ∷ ps) =
    IdLe s m p.stream_id p.message_id × AscendFrom p.stream_id (p.message_id + 1) ps

IdLe-trans : (s m s' m' s'' m'' : ℕ) → IdLe s m s' m' → IdLe s' m' s'' m'' → IdLe s m s'' m''
IdLe-trans s m s' m' s'' m'' h k = ground arith

AscendFrom-weaken :
    (s m s' m' : ℕ) (ps : List Packet) → IdLe s m s' m' → AscendFrom s' m' ps → AscendFrom s m ps
AscendFrom-weaken s m s' m' [] h a = tt
AscendFrom-weaken s m s' m' (p ∷ ps) h a =
    (IdLe-trans s m s' m' p.stream_id p.message_id h a.0, a.1)

abbrev pub IdFits : Frame → Type 0
IdFits fr = fr.message_id < 2 ^ 64 - 1

handed-AscendFrom :
    (a : PacketAssembler) (r : PacketAssembler × Result FrameError (Option Packet))
    (ps : List Packet)
    → Advances a r
    → (IsTracked r.0 r.0.current → AscendFrom r.0.last_stream r.0.last_message ps)
    → AscendFrom a.last_stream a.last_message (handed r.1 ps)
handed-AscendFrom a (a', ok (some pkt)) ps v ih =
    (v.0, AscendFrom-weaken _ _ a'.last_stream a'.last_message ps v.1 (ih v.2))
handed-AscendFrom a (a', ok none) ps v ih =
    AscendFrom-weaken _ _ a'.last_stream a'.last_message ps v.0 (ih v.1)
handed-AscendFrom a (a', err x) ps v ih = tt

-- The packets that a run of frames delivers have strictly increasing (stream, message) ids, from
-- the last id on, if a packet under way carries the last id and no message id is the largest u64
-- (there the counter saturates).
pub packets-AscendFrom :
    (a : PacketAssembler) (frs : List Frame)
    → IsTracked a a.current
    → All IdFits frs
    → AscendFrom a.last_stream a.last_message (packets a frs)
unfolding packets
packets-AscendFrom a [] t fits = tt
packets-AscendFrom a (fr ∷ frs) t fits =
    handed-AscendFrom a (push a fr) _ (push-Advances a fr t fits.0)
      (λ t'. packets-AscendFrom (push a fr).0 frs t' fits.1)
