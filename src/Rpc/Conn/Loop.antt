-- ===== src/Rpc/Conn/Loop.antt =====
-- The loop of `read_packet` ends: it delivers, fails, or needs bytes that are not there.
use storj_uplink.Rpc.Varint.{FrameError}
use storj_uplink.Rpc.Frame.{Frame, Packet, parse_frame}
use storj_uplink.Rpc.Frame.Bounds.{parse_frame_takes}
use storj_uplink.Rpc.Assembler.{PacketAssembler, push}
use storj_uplink.Rpc.Conn.Buffer.{unparsed-consume}
use storj_uplink.Rpc.Conn.{
  Conn, Reading, out_of_fuel, unparsed, consume, parse_one, pushed, continue_reading, read_loop,
  read_packet,
}
use storj_uplink.Common.{
  ℕ, zero, suc, ◌≤◌, ◌<◌, ◌≡◌, ◌≢◌, refl, arith, Bool, true, false, List, [], ◌∷◌, Option, none,
  some, Result, ok, err, length, length-drop,
}

consumed_takes :
    (c : Conn) (n : ℕ) (r : PacketAssembler × Result FrameError (Option Packet))
    → length (unparsed (pushed (consume c n) r).0) ≤ length (unparsed c)
unfolding unparsed
consumed_takes c n r = rw (unparsed-consume c n) (omega (arith, length-drop n (unparsed c)))

-- One `parse_one` gains no unparsed bytes, whatever its result.
pub parse_one_takes : (c : Conn) → length (unparsed (parse_one c).0) ≤ length (unparsed c)
unfolding parse_one
parse_one_takes c = split (parse_frame (unparsed c)) refl
  where
    split :
        (r : Result FrameError (Option (Frame × ℕ)))
        → parse_frame (unparsed c) ≡ r
        → length (unparsed (parse_one c).0) ≤ length (unparsed c)
    split (err e) q = rw (q, parse_one) (omega arith)
    split (ok none) q = rw (q, parse_one) (omega arith)
    split (ok (some (f, n))) q = rw (q, parse_one) (consumed_takes c n (push c.assembler f))

consumed_progress :
    (c : Conn) (n : ℕ) (r : PacketAssembler × Result FrameError (Option Packet))
    → 0 < n
    → n ≤ length (unparsed c)
    → length (unparsed (pushed (consume c n) r).0) < length (unparsed c)
unfolding unparsed
consumed_progress c n r h k = rw (unparsed-consume c n) (omega (arith, length-drop n (unparsed c)))

-- A packet comes out only where bytes were consumed.
pub parse_one_progress :
    (c : Conn) (pkt : Packet)
    → (parse_one c).1 ≡ ok (some pkt)
    → length (unparsed (parse_one c).0) < length (unparsed c)
unfolding parse_one
parse_one_progress c pkt = split (parse_frame (unparsed c)) refl
  where
    split :
        (r : Result FrameError (Option (Frame × ℕ)))
        → parse_frame (unparsed c) ≡ r
        → (parse_one c).1 ≡ ok (some pkt)
        → length (unparsed (parse_one c).0) < length (unparsed c)
    split (err e) q = rw (q, parse_one) (λ p. absurd (cc))
    split (ok none) q = rw (q, parse_one) (λ p. absurd (cc))
    split (ok (some (f, n))) q =
        let h = parse_frame_takes (unparsed c) f n q in
        rw (q, parse_one) (λ p. consumed_progress c n (push c.assembler f) h.0 h.1)

continue_reading_ends :
    (stuck : Bool) (r : Result FrameError (Option Packet)) (c : Conn) (more : Conn × Reading)
    → (stuck ≡ false → more.1 ≢ out_of_fuel)
    → (continue_reading stuck r c more).1 ≢ out_of_fuel
continue_reading_ends stuck (err e) c more h = λ p. cc
continue_reading_ends stuck (ok (some pkt)) c more h = λ p. cc
continue_reading_ends true (ok none) c more h = λ p. cc
continue_reading_ends false (ok none) c more h = h refl

read_loop_ends :
    (fuel : ℕ) (c : Conn) → length (unparsed c) < fuel → (read_loop fuel c).1 ≢ out_of_fuel
unfolding read_loop
read_loop_ends zero c h = absurd (omega arith)
read_loop_ends (suc fuel) c h =
    continue_reading_ends _ (parse_one c).1 (parse_one c).0 _
      (λ moved. read_loop_ends fuel (parse_one c).0 (ground (arith, parse_one_takes c)))

-- `read_packet` never spins on the bytes that it has: between two reads of the transport its loop
-- ends, with a packet, with an error, or asking for more bytes.
pub read_packet_total : (c : Conn) → (read_packet c).1 ≢ out_of_fuel
unfolding read_packet
read_packet_total c = split c.pending refl
  where
    split : (q : List Packet) → c.pending ≡ q → (read_packet c).1 ≢ out_of_fuel
    split [] e = rw (e, read_packet) (read_loop_ends (suc (length (unparsed c))) c (omega arith))
    split (pkt ∷ rest) e = rw (e, read_packet) (λ p. cc)
