-- ===== src/Encryption/Segment/RoundTrip.antt =====
-- Segments: what is encoded is decoded again, and no encoded byte is 0x00, 0xff or `/`.
use storj_uplink.Encryption.Segment.{
  encode_byte, encode_bytes, encode_segment, is_escape_byte, is_disallowed_byte, validate_loop,
  validate_encoded_segment, decode_loop, decode_segment,
}
use storj_uplink.Common.{
  ℕ, ◌+◌, ◌%◌, ◌<◌, ◌≡◌, inl, inr, refl, ap, arith, true, false, ◌||◌, [], ◌∷◌, ◌++◌, ◌==◌, ==_iff,
  if◌then◌else◌, Bool-cases, ok, Bytes, AreBytes, length, All, All-append,
}

-- How a byte is written: as it is, or as a pair that the loops take in one step.
data Written (b : ℕ) (out : Bytes) : Type 0 where
  plain : out ≡ b ∷ [] → is_escape_byte b ≡ false → is_disallowed_byte b ≡ false → Written b out
  pair :
      (e c : ℕ)
      → out ≡ e ∷ c ∷ []
      → is_escape_byte e ≡ true
      → (c == 1 || c == 2) ≡ true
      → (if e == 46 || e == 254 then ((e + c) % 256 + 255) % 256 else (c + 255) % 256) ≡ b
      → Written b out

encode_byte-Written : (b : ℕ) → b < 256 → Written b (encode_byte b)
unfolding encode_byte is_escape_byte is_disallowed_byte
encode_byte-Written b h = elim (Bool-cases (b == 46)) [
  | inl e ↦ special 46 e (pair 46 1 refl refl refl refl)
  | inr n1 ↦ elim (Bool-cases (b == 47)) [
    | inl e ↦ special 47 e (pair 46 2 refl refl refl refl)
    | inr n2 ↦ elim (Bool-cases (b == 254)) [
      | inl e ↦ special 254 e (pair 254 1 refl refl refl refl)
      | inr n3 ↦ elim (Bool-cases (b == 255)) [
        | inl e ↦ special 255 e (pair 254 2 refl refl refl refl)
        | inr n4 ↦ elim (Bool-cases (b == 0)) [
          | inl e ↦ special 0 e (pair 1 1 refl refl refl refl)
          | inr n5 ↦ elim (Bool-cases (b == 1)) [
            | inl e ↦ special 1 e (pair 1 2 refl refl refl refl)
            | inr n6 ↦ plain (ground arith) (ground arith) (ground arith)
          ]
        ]
      ]
    ]
  ]
]
  where
    special : (k : ℕ) → (b == k) ≡ true → Written k (encode_byte k) → Written b (encode_byte b)
    special k e w = rw ((==_iff b k).0 e) w

-- The tail of an encoded segment is never cut inside a pair, so both loops follow it byte by byte.
validate_loop-encode : (bs : Bytes) → AreBytes bs → validate_loop (encode_bytes bs) ≡ ok tt
unfolding encode_bytes validate_loop
validate_loop-encode [] h = refl
validate_loop-encode (b ∷ bs) h =
    let rest = validate_loop-encode bs h.1 in
    follow (encode_byte b) (encode_bytes bs) (encode_byte-Written b h.0) rest
  where
    follow :
        (out tail : Bytes)
        → Written b out
        → validate_loop tail ≡ ok tt
        → validate_loop (out ++ tail) ≡ ok tt
    follow out [] (plain e n d) r = rw e (ground (arith, n, d))
    follow out (t ∷ ts) (plain e n d) r = rw e (ground (arith, n, d, r))
    follow out tail (pair x c e i k v) r = rw e (ground (arith, i, k, r))

decode_loop-encode : (bs : Bytes) → AreBytes bs → decode_loop (encode_bytes bs) ≡ bs
unfolding encode_bytes decode_loop is_escape_byte
decode_loop-encode [] h = refl
decode_loop-encode (b ∷ bs) h =
    let rest = decode_loop-encode bs h.1 in
    follow (encode_byte b) (encode_bytes bs) (encode_byte-Written b h.0) rest
  where
    follow :
        (out tail : Bytes)
        → Written b out
        → decode_loop tail ≡ bs
        → decode_loop (out ++ tail) ≡ b ∷ bs
    follow out [] (plain e n d) r = rw e (ground (arith, r))
    follow out (t ∷ ts) (plain e n d) r = rw e (ground (arith, n, d, r))
    follow out tail (pair x c e i k v) r = rw e (ground (arith, i, v, r))

encode_bytes-cons :
    (b : ℕ) (bs : Bytes) → b < 256 → (c : ℕ) × (rest : Bytes) × (encode_bytes (b ∷ bs) ≡ c ∷ rest)
unfolding encode_bytes
encode_bytes-cons b bs h = elim (encode_byte-Written b h) [
  | plain e n d ↦ (b, encode_bytes bs, rw e refl)
  | pair x c e i k v ↦ (x, c ∷ encode_bytes bs, rw e refl)
]

-- Decoding gives back any string of bytes that was encoded as a segment.
pub decode_segment-encode_segment :
    (segment : Bytes) → AreBytes segment → decode_segment (encode_segment segment) ≡ ok segment
unfolding decode_segment encode_segment validate_encoded_segment
decode_segment-encode_segment [] h = refl
decode_segment-encode_segment (b ∷ bs) h =
    let (c, rest, e) = encode_bytes-cons b bs h.0 in
    rw e (
      rw (rw e at (validate_loop-encode (b ∷ bs) h))
        (ap ok (rw e at (decode_loop-encode (b ∷ bs) h))))

-- A byte that may stand in an encoded component.
abbrev pub IsClean : ℕ → Type 0
IsClean b = is_disallowed_byte b ≡ false

encode_bytes-IsClean : (bs : Bytes) → AreBytes bs → All IsClean (encode_bytes bs)
unfolding encode_bytes is_escape_byte is_disallowed_byte
encode_bytes-IsClean [] h = tt
encode_bytes-IsClean (b ∷ bs) h =
    All-append IsClean (encode_byte b) (encode_bytes bs)
      (clean (encode_byte b) (encode_byte-Written b h.0)) (encode_bytes-IsClean bs h.1)
  where
    clean : (out : Bytes) → Written b out → All IsClean out
    clean out (plain e n d) = rw e (d, tt)
    clean out (pair x c e i k v) = rw e (ground (arith, i), (ground (arith, k), tt))

-- A string of bytes encoded as a segment has a byte at least, and none that is 0x00, 0xff or `/`.
pub encode_segment-IsClean :
    (segment : Bytes)
    → AreBytes segment
    → (0 < length (encode_segment segment)) × All IsClean (encode_segment segment)
unfolding encode_segment is_disallowed_byte
encode_segment-IsClean [] h = (omega arith, (refl, tt))
encode_segment-IsClean (b ∷ bs) h = (omega arith, (refl, encode_bytes-IsClean (b ∷ bs) h))
