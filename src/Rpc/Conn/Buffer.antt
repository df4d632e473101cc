-- ===== src/Rpc/Conn/Buffer.antt =====
-- The read buffer: what `consume` and `prepare_read` do to the bytes that are not yet parsed.
use storj_uplink.Rpc.Varint.{overflow}
use storj_uplink.Rpc.Conn.{Conn, max_buffered, unparsed, consume, prepare_read}
use storj_uplink.Common.{
  ℕ, zero, suc, ◌+◌, ◌≤◌, ◌≡◌, refl, arith, [], ◌∷◌, ltb, if◌then◌else◌, ok, err, Bytes, length,
  drop, length-drop, drop-drop,
}

-- The position never passes the end.
abbrev pub IsWithin : Conn → Type 0
IsWithin c = c.pos ≤ length c.buf

pub consume-IsWithin :
    (c : Conn) (n : ℕ) → n ≤ length (unparsed c) → IsWithin c → IsWithin (consume c n)
unfolding consume unparsed
consume-IsWithin c n h w = ground (arith, length-drop c.pos c.buf)

drop_all : (xs : Bytes) (n : ℕ) → n ≡ length xs → drop n xs ≡ []
drop_all [] zero h = refl
drop_all [] (suc n) h = refl
drop_all (x ∷ xs) zero h = absurd (omega arith)
drop_all (x ∷ xs) (suc n) h = drop_all xs n (omega arith)

pub unparsed-consume : (c : Conn) (n : ℕ) → unparsed (consume c n) ≡ drop n (unparsed c)
unfolding consume unparsed
unparsed-consume c n =
    ground (arith, drop-drop c.pos n (c.pos + n) c.buf refl, drop_all c.buf (c.pos + n))

drop_none : (n : ℕ) (xs : Bytes) → n ≡ 0 → drop n xs ≡ xs
drop_none zero xs h = refl
drop_none (suc n) xs h = absurd (omega arith)

-- Compacting before a read keeps the unparsed bytes, moves them to the front of the buffer and
-- drops the rest; it fails exactly when more than MAX_BUFFERED bytes are unparsed.
pub prepare_read_lem :
    (c : Conn)
    → (unparsed (prepare_read c).0 ≡ unparsed c)
      × ((prepare_read c).0.buf ≡ unparsed c)
      × ((prepare_read c).0.pos ≡ 0)
      × ((prepare_read c).1
          ≡ (if ltb max_buffered (length (unparsed c)) then err overflow else ok tt))
unfolding prepare_read unparsed
prepare_read_lem c = ground (arith, drop_none c.pos c.buf)
