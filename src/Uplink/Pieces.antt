-- ===== src/Uplink/Pieces.antt =====
-- crates/storj-uplink/src/pipeline.rs and download.rs: a segment that is encrypted, cut into
-- stripes and encoded into pieces, and pieces that are decoded. Sizes are natural numbers.
pub mod Stripes
pub mod Encoded
pub mod Sizes
pub mod Restored
pub mod Decoded
pub mod Content
use storj_uplink.Common.Arrays.{nth, set}
use storj_uplink.Common.Integers.{ℤ, pos, negsuc}
use storj_uplink.Encryption.Cipher.{Primitives, CipherSuite, Key}
use storj_uplink.Encryption.Pad.{pad, uint32_size}
use storj_uplink.Encryption.Transform.{new_encrypter, transform_padded}
use storj_uplink.Ec.Codec.{
  ReedSolomon, DecodePlan, new_codec, encode_stripe_into, decode_plan, decode_into,
}
use storj_uplink.Uplink.Error.{
  Error, encryption, ec, does_not_fit, invalid_redundancy, too_few_pieces, share_size_zero,
  piece_lengths_differ, not_a_multiple, past_piece_length, index_missing,
}
use storj_uplink.Common.{
  ℕ, zero, suc, ◌+◌, ◌-◌, ◌*◌, ◌/◌, ◌%◌, min, Bool, true, false, not, ◌&&◌, ◌||◌, List, [], ◌∷◌,
  ◌++◌, map, Option, none, some, ltb, ◌==◌, if◌then◌else◌, Result, ok, err, ◌>>=◌, ◌>>◌, ok_or,
  map_err, Bytes, length, take, drop, replicate,
}

-- `RedundancyScheme` of the satellite.
pub record RedundancyScheme : Type 0 where
  pub min_req : ℤ
  pub total : ℤ
  pub repair_threshold : ℤ
  pub success_threshold : ℤ
  pub erasure_share_size : ℤ

pub record Redundancy : Type 0 where
  pub k : ℕ
  pub m : ℕ
  pub o : ℕ
  pub n : ℕ
  pub share_size : ℕ

unfoldable pub to_usize : ℤ → Result Error ℕ
to_usize (pos v) = ok v
to_usize (negsuc v) = err does_not_fit

unfoldable pub from_scheme : RedundancyScheme → Result Error Redundancy
unfolding to_usize
from_scheme scheme = do
  k ← to_usize scheme.min_req
  n ← to_usize scheme.total
  m ← to_usize scheme.repair_threshold
  o ← to_usize scheme.success_threshold
  share_size ← to_usize scheme.erasure_share_size
  if k == 0 || n == 0 || o == 0 || share_size == 0 || ltb n k || ltb n o
      then err invalid_redundancy
      else ok (record { k = k; m = m; o = o; n = n; share_size = share_size })

unfoldable pub stripe_size : Redundancy → ℕ
stripe_size rs = rs.k * rs.share_size

-- DEFAULT_ENCRYPTED_BLOCK_SIZE
abbrev pub default_encrypted_block_size : ℕ
default_encrypted_block_size = 7424

unfoldable pub encrypt_remote :
    Primitives → Bytes → CipherSuite → Key → Bytes → ℕ → Result Error Bytes
unfolding new_encrypter transform_padded
encrypt_remote lib plain cipher key nonce encrypted_block_size = do
  encrypter ← map_err encryption (
      new_encrypter lib cipher key nonce
        (if encrypted_block_size == 0 then default_encrypted_block_size else encrypted_block_size))
  map_err encryption (transform_padded encrypter plain)

unfoldable pub calc_piece_size : ℕ → Redundancy → ℕ
unfolding stripe_size
calc_piece_size encrypted_size rs =
    let stripe = stripe_size rs in
    if stripe == 0 || rs.k == 0
    then 0
    else (encrypted_size + uint32_size + stripe - 1) / stripe * stripe / rs.k

-- `chunks(stripe)`; the fuel bounds their number.
unfoldable pub stripes : ℕ → ℕ → Bytes → List Bytes
stripes zero stripe bytes = []
stripes (suc fuel) stripe [] = []
stripes (suc fuel) stripe (b ∷ bytes) =
    take stripe (b ∷ bytes) ∷ stripes fuel stripe (drop stripe (b ∷ bytes))

-- `&p[off..off + ss]`, and the write to it.
abbrev pub slot : ℕ → ℕ → Bytes → Bytes
slot off ss p = take ss (drop off p)

unfoldable pub put : ℕ → Bytes → Bytes → Bytes
put off share p = take off p ++ (share ++ drop (off + length share) p)

unfoldable pub put_all : ℕ → List Bytes → List Bytes → List Bytes
unfolding put
put_all off [] pieces = pieces
put_all off (s ∷ shares) [] = []
put_all off (s ∷ shares) (p ∷ pieces) = put off s p ∷ put_all off shares pieces

-- The loop of `encode_pieces` over the stripes, from an offset on.
unfoldable pub encode_loop : ReedSolomon → ℕ → List Bytes → List Bytes → Result Error (List Bytes)
unfolding encode_stripe_into put_all
encode_loop codec off [] pieces = ok pieces
encode_loop codec off (chunk ∷ chunks) pieces = do
  shares ← map_err ec (encode_stripe_into codec chunk (map (slot off codec.share_size) pieces))
  encode_loop codec (off + codec.share_size) chunks (put_all off shares pieces)

unfoldable pub encode_pieces : Bytes → Redundancy → Result Error (List Bytes)
unfolding stripe_size pad new_codec stripes encode_loop
encode_pieces encrypted rs = do
  let stripe = stripe_size rs
  padded ← map_err encryption (pad encrypted stripe)
  codec ← map_err ec (new_codec rs.k rs.n rs.share_size)
  let blank = replicate rs.n (replicate (length padded / stripe * rs.share_size) 0)
  if length padded == 0
      then ok (replicate rs.n [])
      else encode_loop codec 0 (stripes (length padded) stripe padded) blank

abbrev pub Piece : Type 0
Piece = ℤ × Bytes

-- The loop of `decode_encrypted_slices` that sorts the pieces in by their numbers; a number that is
-- negative, too large or there already is passed over.
unfoldable pub index_pieces :
    ℕ → List Piece → List (Option Bytes) → List ℕ → List (Option Bytes) × List ℕ
index_pieces n [] by_index available = (by_index, available)
index_pieces n ((negsuc num, d) ∷ shares) by_index available =
    index_pieces n shares by_index available
index_pieces n ((pos num, d) ∷ shares) by_index available =
    let free : Bool = ltb num n && elim (nth none num by_index) [ none ↦ true | some _ ↦ false ] in
    index_pieces n shares (if free then set num (some d) by_index else by_index)
      (if free then available ++ num ∷ [] else available)

unfoldable pub collect_inputs : List (Option Bytes) → List ℕ → Result Error (List Bytes)
collect_inputs by_index [] = ok []
collect_inputs by_index (idx ∷ indexes) = do
  d ← ok_or (nth none idx by_index) index_missing
  inputs ← collect_inputs by_index indexes
  ok (d ∷ inputs)

-- The last loop, for a number of stripes from one on.
unfoldable pub decode_stripes : ReedSolomon → DecodePlan → List Bytes → ℕ → ℕ → Result Error Bytes
unfolding decode_into
decode_stripes codec plan inputs s zero = ok []
decode_stripes codec plan inputs s (suc count) = do
  stripe ← map_err ec (
      decode_into plan (map (slot (s * codec.share_size) codec.share_size) inputs)
        (replicate codec.k (replicate codec.share_size 0)))
  rest ← decode_stripes codec plan inputs (suc s) count
  ok (stripe ++ rest)

unfoldable pub all_sized : ℕ → List Piece → Bool
all_sized n [] = true
all_sized n (p ∷ pieces) = length p.1 == n && all_sized n pieces

abbrev pub or_else : ℕ → Option ℕ → ℕ
or_else other none = other
or_else other (some n) = n

unfoldable pub piece_length : List Piece → ℕ
piece_length [] = 0
piece_length (p ∷ pieces) = length p.1

unfoldable pub decode_encrypted_slices : List Piece → Redundancy → ℕ → Option ℕ → Result Error Bytes
unfolding new_codec decode_plan index_pieces collect_inputs decode_stripes all_sized piece_length
decode_encrypted_slices shares rs stripe0 n_stripes =
    let total_stripes = piece_length shares / rs.share_size in
    let count = min (or_else (total_stripes - stripe0) n_stripes) (total_stripes - stripe0) in
    let decoded : Result Error Bytes = (do
      codec ← map_err ec (new_codec rs.k rs.n rs.share_size)
      let (by_index, available) = index_pieces rs.n shares (replicate rs.n none) []
      plan ← map_err ec (decode_plan codec available)
      inputs ← collect_inputs by_index plan.indexes
      decode_stripes codec plan inputs stripe0 count) in
    if ltb (length shares) rs.k
    then err too_few_pieces
    else if rs.share_size == 0
    then err share_size_zero
    else if not (all_sized (piece_length shares) shares)
    then err piece_lengths_differ
    else if not (piece_length shares % rs.share_size == 0)
    then err not_a_multiple
    else if ltb total_stripes stripe0
    then err past_piece_length
    else decoded

unfoldable pub decode_encrypted : List Piece → Redundancy → Result Error Bytes
unfolding decode_encrypted_slices
decode_encrypted shares rs = decode_encrypted_slices shares rs 0 none
