-- ===== src/Uplink/Pieces/Sizes.antt =====
-- The number and the sizes of the pieces, as the satellite expects them.
use native.Mathlib.Nat.{mul-le-mul, mul-div_cancel}
use storj_uplink.Common.Arrays.{range, length-range}
use storj_uplink.Ec.Codec.{ReedSolomon, concat, encode_share_unchecked}
use storj_uplink.Ec.Codec.Shares.{length-encode_share_unchecked, new_codec_inv}
use storj_uplink.Uplink.Pieces.{Redundancy, stripe_size, stripes, encode_pieces, calc_piece_size}
use storj_uplink.Uplink.Pieces.Encoded.{piece_of, encode_pieces-IsEncoded}
use storj_uplink.Common.{
  ℕ, zero, suc, ◌+◌, ◌-◌, ◌*◌, ◌/◌, ◌<◌, ◌≡◌, sym, ◌∙◌, arith, false, List, [], ◌∷◌, map, ◌==◌, ok,
  Bytes, length, All, length-append, length-map,
}

pub length-piece_of :
    (codec : ReedSolomon) (chunks : List Bytes) (i : ℕ)
    → All (λ c. length c ≡ codec.k * codec.share_size) chunks
    → length (piece_of codec chunks i) ≡ length chunks * codec.share_size
unfolding concat
length-piece_of codec [] i a = omega arith
length-piece_of codec (c ∷ chunks) i a =
    length-append (encode_share_unchecked codec c i) (piece_of codec chunks i)
    ∙ omega (arith, length-encode_share_unchecked codec c i a.0, length-piece_of codec chunks i a.1)

calc_piece_size_lem :
    (rs : Redundancy) (size count : ℕ)
    → 0 < rs.k
    → 0 < rs.share_size
    → count ≡ (size + 4 + rs.k * rs.share_size - 1) / (rs.k * rs.share_size)
    → calc_piece_size size rs ≡ count * rs.share_size
unfolding calc_piece_size stripe_size
calc_piece_size_lem rs size count some_k some_ss e =
    let wide : 0 < rs.k * rs.share_size = mul-le-mul {n₁ = 1} {m₁ = 1} some_k some_ss in
    let wide_test : (rs.k * rs.share_size == 0) ≡ false =
      positive_test (rs.k * rs.share_size) wide in
    let k_test : (rs.k == 0) ≡ false = positive_test rs.k some_k in
    let product : count * (rs.k * rs.share_size) ≡ count * rs.share_size * rs.k = omega arith in
    rw wide_test
      (rw k_test (rw (sym e) (rw product (mul-div_cancel (count * rs.share_size) some_k))))
  where
    positive_test : (n : ℕ) → 0 < n → (n == 0) ≡ false
    positive_test n h = ground arith

all_of_size :
    (f : ℕ → Bytes) (size start count : ℕ)
    → ((i : ℕ) → length (f i) ≡ size)
    → All (λ p. length p ≡ size) (map f (range start count))
all_of_size f size start zero h = tt
all_of_size f size start (suc count) h = (h start, all_of_size f size (suc start) count h)

-- When `encode_pieces` succeeds, it gives `n` pieces, each of which has the size that
-- `calc_piece_size` gives for the encrypted segment.
pub encode_pieces_lem :
    (rs : Redundancy) (encrypted : Bytes) (pieces : List Bytes)
    → encode_pieces encrypted rs ≡ ok pieces
    → (length pieces ≡ rs.n) × All (λ p. length p ≡ calc_piece_size (length encrypted) rs) pieces
encode_pieces_lem rs encrypted pieces h =
    let found = encode_pieces-IsEncoded rs encrypted pieces h in
    let chunks = stripes (length found.padded) (rs.k * rs.share_size) found.padded in
    let piece = piece_of found.codec chunks in
    let (some_k, some_ss, order, most, ek, en, es) =
      new_codec_inv rs.k rs.n rs.share_size found.codec found.made in
    let size = calc_piece_size_lem rs (length encrypted) found.count some_k some_ss found.counted in
    let full : All (λ c. length c ≡ found.codec.k * found.codec.share_size) chunks =
      rw ek (rw es found.striped.all) in
    let each : (i : ℕ) → length (piece i) ≡ calc_piece_size (length encrypted) rs =
      λ i. length-piece_of found.codec chunks i full ∙ rw found.striped.number (rw es (sym size)) in
    rw found.written (
      length-map (range 0 rs.n) piece ∙ length-range 0 rs.n,
      all_of_size piece (calc_piece_size (length encrypted) rs) 0 rs.n each,
    )
