-- ===== src/Rpc/Conn/Queue.antt =====
-- What the probe `drain_ready` queues stays bounded, whatever the peer sends.
use storj_uplink.Rpc.Varint.{FrameError}
use storj_uplink.Rpc.Frame.{Frame, Packet, max_packet_size, parse_frame}
use storj_uplink.Rpc.Assembler.{PacketAssembler, push}
use storj_uplink.Rpc.Assembler.Bounds.{IsBounded, push-IsBounded}
use storj_uplink.Rpc.Conn.Loop.{parse_one_takes, parse_one_progress}
use storj_uplink.Rpc.Conn.{
  Conn, unparsed, consume, parse_one, pushed, queued, is_full, Drained, broken, partial, no_fuel,
  drain_step, handed_out, drain_loop, drain_buffered, max_pending_packets,
}
use storj_uplink.Common.{
  ℕ, zero, suc, ◌+◌, ◌*◌, ◌≤◌, ◌<◌, ◌≡◌, ◌≢◌, inl, inr, refl, sym, ap, ◌∙◌, arith, Bool, true,
  false, List, [], ◌∷◌, ◌++◌, Option, none, some, Bool-cases, Result, ok, err, length,
  length-append,
}

-- The queue is below twice the packet limit and holds at most MAX_PENDING_PACKETS packets.
pub record IsBoundedQueue (c : Conn) : Type 0 where
  pub bytes_bounded : queued c.pending < 2 * max_packet_size
  pub count_bounded : length c.pending ≤ max_pending_packets
  pub limit_bounded : c.assembler.max_data ≤ max_packet_size

queued-append : (ps qs : List Packet) → queued (ps ++ qs) ≡ queued ps + queued qs
unfolding queued
queued-append [] qs = omega arith
queued-append (p ∷ ps) qs = omega (arith, queued-append ps qs)

-- What one `parse_one` leaves: the queue as it was, the limit as it was, and at most one packet
-- within the limit handed out.
record OneStep (c c' : Conn) (r : Result FrameError (Option Packet)) : Type 0 where
  pending_same : c'.pending ≡ c.pending
  limit_same : c'.assembler.max_data ≡ c.assembler.max_data
  one_packet : length (handed_out r) ≤ 1
  fits : queued (handed_out r) ≤ c.assembler.max_data

pushed-OneStep :
    (c : Conn) (n : ℕ) (r : PacketAssembler × Result FrameError (Option Packet))
    → IsBounded c.assembler r
    → OneStep c (pushed (consume c n) r).0 (pushed (consume c n) r).1
unfolding consume queued
pushed-OneStep c n (a, ok none) b = ground arith
pushed-OneStep c n (a, ok (some pkt)) b = ground arith
pushed-OneStep c n (a, err e) b = ground arith

parse_one-OneStep : (c : Conn) → OneStep c (parse_one c).0 (parse_one c).1
unfolding parse_one queued
parse_one-OneStep c = split (parse_frame (unparsed c)) refl
  where
    split :
        (r : Result FrameError (Option (Frame × ℕ)))
        → parse_frame (unparsed c) ≡ r
        → OneStep c (parse_one c).0 (parse_one c).1
    split (err e) q = rw (q, parse_one) (ground arith)
    split (ok none) q = rw (q, parse_one) (ground arith)
    split (ok (some (f, n))) q =
        rw (q, parse_one) (pushed-OneStep c n (push c.assembler f) (push-IsBounded c.assembler f))

grow-IsBoundedQueue :
    (c c' : Conn) (r : Result FrameError (Option Packet))
    → OneStep c c' r
    → IsBoundedQueue c
    → is_full (queued c.pending) c.pending ≡ false
    → IsBoundedQueue (record c' { pending = c'.pending ++ handed_out r })
unfolding is_full
grow-IsBoundedQueue c c' r o v room = record {
  bytes_bounded = ground (
    arith,
    queued-append c'.pending (handed_out r),
    ap queued o.pending_same,
    o.fits,
    v.limit_bounded,
  );
  count_bounded = ground (
    arith,
    length-append c'.pending (handed_out r),
    ap (length {A = Packet}) o.pending_same,
    o.one_packet,
  );
  limit_bounded = omega (arith, o.limit_same, v.limit_bounded);
}

keep-IsBoundedQueue :
    (c c' : Conn) (r : Result FrameError (Option Packet))
    → OneStep c c' r
    → IsBoundedQueue c
    → IsBoundedQueue c'
keep-IsBoundedQueue c c' r o v = record {
  bytes_bounded = omega (arith, ap queued o.pending_same, v.bytes_bounded);
  count_bounded = omega (arith, ap (length {A = Packet}) o.pending_same, v.count_bounded);
  limit_bounded = omega (arith, o.limit_same, v.limit_bounded);
}

-- What every round passes on, by the results of `parse_one`.
drain_step_keeps {ℓ} :
    (P : Conn × Drained → Type ℓ) (stuck : Bool) (r : Result FrameError (Option Packet))
    (queued_more : Conn × Drained) (c : Conn) (more : Conn × Drained)
    → ((d : Drained) → d ≢ no_fuel → P (c, d))
    → ((pkt : Packet) → r ≡ ok (some pkt) → P queued_more)
    → (stuck ≡ false → P more)
    → P (drain_step stuck r queued_more c more)
drain_step_keeps P stuck (err e) queued_more c more h k l = h (broken e) (λ p. cc)
drain_step_keeps P stuck (ok (some pkt)) queued_more c more h k l = k pkt refl
drain_step_keeps P true (ok none) queued_more c more h k l = h partial (λ p. cc)
drain_step_keeps P false (ok none) queued_more c more h k l = l refl

drain_loop-IsBoundedQueue :
    (fuel : ℕ) (c : Conn) (bytes : ℕ)
    → bytes ≡ queued c.pending
    → IsBoundedQueue c
    → IsBoundedQueue (drain_loop fuel c bytes).0
unfolding drain_loop
drain_loop-IsBoundedQueue zero c bytes e v = v
drain_loop-IsBoundedQueue (suc fuel) c bytes e v = elim (Bool-cases (is_full bytes c.pending)) [
  | inl full ↦ rw full v
  | inr room ↦
      let c' = (parse_one c).0 in
      let r = (parse_one c).1 in
      let o = parse_one-OneStep c in
      rw room (
        drain_step_keeps (λ x. IsBoundedQueue x.0) _ r _ c' _
          (λ d _. keep-IsBoundedQueue c c' r o v)
          (λ pkt _.
            drain_loop-IsBoundedQueue fuel (record c' { pending = c'.pending ++ handed_out r }) _
              (omega (arith, e, queued-append c'.pending (handed_out r), ap queued o.pending_same))
              (grow-IsBoundedQueue c c' r o v (rw e at room)))
          (λ _.
            drain_loop-IsBoundedQueue fuel c' bytes (e ∙ sym (ap queued o.pending_same))
              (keep-IsBoundedQueue c c' r o v)))
]

-- Whatever the peer sent, a pass of the probe leaves the queue below twice the packet limit and
-- within MAX_PENDING_PACKETS packets if it was so before, with an assembler limit of at most
-- MAX_PACKET_SIZE.
pub drain_buffered-IsBoundedQueue :
    (c : Conn) → IsBoundedQueue c → IsBoundedQueue (drain_buffered c).0
unfolding drain_buffered
drain_buffered-IsBoundedQueue c v =
    drain_loop-IsBoundedQueue (suc (length (unparsed c))) c (queued c.pending) refl v

unparsed-queue : (c : Conn) (q : List Packet) → unparsed (record c { pending = q }) ≡ unparsed c
unfolding unparsed
unparsed-queue c q = refl

drain_loop_ends :
    (fuel : ℕ) (c : Conn) (bytes : ℕ)
    → length (unparsed c) < fuel
    → (drain_loop fuel c bytes).1 ≢ no_fuel
unfolding drain_loop
drain_loop_ends zero c bytes h = absurd (omega arith)
drain_loop_ends (suc fuel) c bytes h = elim (Bool-cases (is_full bytes c.pending)) [
  | inl full ↦ rw full (λ p. cc)
  | inr room ↦
      let c' = (parse_one c).0 in
      let r = (parse_one c).1 in
      let q = c'.pending ++ handed_out r in
      rw room (
        drain_step_keeps (λ x. x.1 ≢ no_fuel) _ r _ c' _ (λ d k. k)
          (λ pkt e.
            drain_loop_ends fuel (record c' { pending = q }) _
              (omega
                (arith, ap (length {A = ℕ}) (unparsed-queue c' q), parse_one_progress c pkt e)))
          (λ moved. drain_loop_ends fuel c' bytes (ground (arith, parse_one_takes c))))
]

-- A pass of the probe ends: with the queue full, on an error, or where a frame is incomplete.
pub drain_buffered_total : (c : Conn) → (drain_buffered c).1 ≢ no_fuel
unfolding drain_buffered
drain_buffered_total c =
    drain_loop_ends (suc (length (unparsed c))) c (queued c.pending) (omega arith)
