-- ===== src/Uplink/PieceRuns.antt =====
-- Examples for the pieces of a segment, with two data pieces of four and shares of two bytes.
use storj_uplink.Common.Integers.{pos}
use storj_uplink.Encryption.Pad.{pad, unpad, make_padding, padding_for, to_be_bytes}
use storj_uplink.Ec.Field.{addmul, inverse}
use storj_uplink.Uplink.Error.{Error, invalid_redundancy}
use storj_uplink.Uplink.Pieces.{
  Redundancy, RedundancyScheme, from_scheme, calc_piece_size, encode_pieces, decode_encrypted,
  encrypt_remote, decode_encrypted_slices,
}
use storj_uplink.Encryption.Cipher.{aes_gcm, to_aes_gcm_nonce}
use storj_uplink.Encryption.Sample.{sample_lib, sample-Laws, seal}
use storj_uplink.Encryption.Transform.{
  aes_gcm_encrypter, Transformer, new_decrypter, transform_unpad,
}
use storj_uplink.Uplink.Pieces.Content.{decode_encrypted-encrypt_remote}
use storj_uplink.Uplink.Pieces.Sizes.{encode_pieces_lem}
use storj_uplink.Uplink.Pieces.Decoded.{numbered, decode_encrypted-encode_pieces}
use storj_uplink.Common.{
  replicate, ◌≡◌, refl, List, [], ◌∷◌, some, Result, ok, err, ◌>>=◌, Bytes, bytes_eq, length, take,
  drop, All,
}

abbrev scheme : RedundancyScheme
scheme = record {
  min_req = pos 2;
  total = pos 4;
  repair_threshold = pos 2;
  success_threshold = pos 3;
  erasure_share_size = pos 2;
}

abbrev rs : Redundancy
rs = record { k = 2; m = 2; o = 3; n = 4; share_size = 2 }

scheme_read : from_scheme scheme ≡ ok rs
unfolding from_scheme
scheme_read = refl

too_many_needed : from_scheme (record scheme { success_threshold = pos 5 }) ≡ err invalid_redundancy
unfolding from_scheme
too_many_needed = refl

abbrev segment : Bytes
segment = 9 ∷ 8 ∷ 7 ∷ 6 ∷ 5 ∷ []

abbrev got {ℓ} : {A : Type ℓ} → List A → Result Error (List A) → List A
got other (ok pieces) = pieces
got other (err e) = other

abbrev pieces : List Bytes
unfolding encode_pieces
pieces = got [] (encode_pieces segment rs)

encoded : encode_pieces segment rs ≡ ok pieces
unfolding encode_pieces pieces addmul inverse bytes_eq make_padding padding_for to_be_bytes
    to_aes_gcm_nonce
encoded = refl

encode_pieces_lem_example : (length pieces ≡ 4) × All (λ p. length p ≡ calc_piece_size 5 rs) pieces
encode_pieces_lem_example = encode_pieces_lem rs segment pieces encoded

decode_encrypted-encode_pieces_example :
    (decoded : Bytes) × (decode_encrypted (take 2 (numbered 0 pieces)) rs ≡ ok decoded)
    × (take 5 decoded ≡ segment)
    × (unpad decoded ≡ ok segment)
decode_encrypted-encode_pieces_example = decode_encrypted-encode_pieces rs segment pieces encoded

-- Three stripes are padded from five bytes, so a piece has six.
six_bytes : calc_piece_size 5 rs ≡ 6
unfolding calc_piece_size
six_bytes = refl

-- The parity pieces alone, and a stripe of its own.
from_parity : (decode_encrypted (drop 2 (numbered 0 pieces)) rs >>= λ d. ok (take 5 d)) ≡ ok segment
unfolding decode_encrypted pieces addmul inverse bytes_eq make_padding padding_for to_be_bytes
    to_aes_gcm_nonce
from_parity = refl

second_stripe : decode_encrypted_slices (numbered 0 pieces) rs 1 (some 1) ≡ ok (5 ∷ 0 ∷ 0 ∷ 0 ∷ [])
unfolding decode_encrypted_slices pieces addmul inverse bytes_eq make_padding padding_for
    to_be_bytes
second_stripe = refl

abbrev secret : Bytes
secret = replicate 32 5

abbrev nonce : Bytes
nonce = replicate 24 0

abbrev content : Bytes
content = 1 ∷ 2 ∷ 3 ∷ []

abbrev sealed : Bytes
unfolding encrypt_remote
sealed = got [] (encrypt_remote sample_lib content aes_gcm secret nonce 21)

sealed_made : encrypt_remote sample_lib content aes_gcm secret nonce 21 ≡ ok sealed
unfolding encrypt_remote sealed seal make_padding padding_for to_be_bytes to_aes_gcm_nonce pad
    aes_gcm_encrypter
sealed_made = refl

abbrev sealed_pieces : List Bytes
unfolding encode_pieces
sealed_pieces = got [] (encode_pieces sealed rs)

pieces_made : encode_pieces sealed rs ≡ ok sealed_pieces
unfolding encode_pieces sealed sealed_pieces seal addmul inverse bytes_eq make_padding padding_for
    to_be_bytes to_aes_gcm_nonce aes_gcm_encrypter
pieces_made = refl

decode_encrypted-encrypt_remote_example :
    (decoded : Bytes) × (dec : Transformer) × (decode_encrypted
        (take 2 (numbered 0 sealed_pieces))
        rs
      ≡ ok decoded)
    × (new_decrypter sample_lib aes_gcm secret nonce 21 ≡ ok dec)
    × (transform_unpad dec (take (length sealed) decoded) ≡ ok content)
decode_encrypted-encrypt_remote_example =
    decode_encrypted-encrypt_remote sample_lib sample-Laws rs content aes_gcm secret nonce 21 sealed
      sealed_pieces sealed_made pieces_made
