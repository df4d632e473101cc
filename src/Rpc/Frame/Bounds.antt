-- ===== src/Rpc/Frame/Bounds.antt =====
-- What `parse_frame` promises of any input: an untrusted peer sends it.
use storj_uplink.Common.Partial.{>>=-eq-some}
use storj_uplink.Rpc.Varint.{read_varint}
use storj_uplink.Rpc.Varint.Bounds.{read_varint_takes}
use storj_uplink.Rpc.Frame.{Frame, max_packet_size, parse_fields, parse_frame}
use storj_uplink.Common.{
  ℕ, ◌+◌, ◌≤◌, ◌<◌, ◌≡◌, arith, [], ◌∷◌, some, ok, Bytes, length, drop, length-take, length-drop,
}

parse_fields_takes :
    (header : ℕ) (buf : Bytes) (f : Frame) (n : ℕ)
    → 0 < length buf
    → parse_fields header buf ≡ ok (some (f, n))
    → (0 < n) × (n ≤ length buf) × (length f.payload ≤ max_packet_size) × (length f.payload < n)
unfolding parse_fields
parse_fields_takes header buf f n h e =
    let ((s, n1), e1, r1) = >>=-eq-some (read_varint (drop 1 buf)) _ e in
    let ((m, n2), e2, r2) = >>=-eq-some (read_varint (drop (1 + n1) buf)) _ r1 in
    let ((l, n3), e3, r3) = >>=-eq-some (read_varint (drop (1 + n1 + n2) buf)) _ r2 in
    ground (
      arith,
      read_varint_takes (drop 1 buf) s n1 e1,
      read_varint_takes (drop (1 + n1) buf) m n2 e2,
      read_varint_takes (drop (1 + n1 + n2) buf) l n3 e3,
      length-drop 1 buf,
      length-drop (1 + n1) buf,
      length-drop (1 + n1 + n2) buf,
      length-drop (1 + n1 + n2 + n3) buf,
      length-take l (drop (1 + n1 + n2 + n3) buf),
    )

-- Whatever the peer sent: a frame that is returned was cut from the buffer, header and all, at
-- least one byte was consumed and none beyond the end, and the payload is within the size limit.
pub parse_frame_takes :
    (buf : Bytes) (f : Frame) (n : ℕ)
    → parse_frame buf ≡ ok (some (f, n))
    → (0 < n) × (n ≤ length buf) × (length f.payload ≤ max_packet_size) × (length f.payload < n)
unfolding parse_frame
parse_frame_takes [] f n e = cc
parse_frame_takes (header ∷ tail) f n e =
    parse_fields_takes header (header ∷ tail) f n (omega arith) e
