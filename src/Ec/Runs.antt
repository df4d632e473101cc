-- ===== src/Ec/Runs.antt =====
-- Examples for crates/storj-ec, with a codec of two data shares and two parity shares.
use storj_uplink.Common.Arrays.{nth}
use storj_uplink.Ec.Error.{Error}
use storj_uplink.Ec.Field.{inverse, addmul, addmul_scalar}
use storj_uplink.Ec.Vector.{addmul_ssse3}
use storj_uplink.Ec.Vector.Scalar.{addmul_ssse3-addmul_scalar}
use storj_uplink.Ec.Matrix.{build_enc_matrix}
use storj_uplink.Ec.Codec.{ReedSolomon, new_codec, encode_stripe, decode_stripe, decode_plan}
use storj_uplink.Ec.Codec.Systematic.{decode_stripe-encode_stripe}
use storj_uplink.Common.{
  ◌≡◌, refl, arith, List, [], ◌∷◌, ◌++◌, map, Option, none, some, Result, ok, ◌>>=◌, Bytes,
  bytes_eq, length, take,
}

abbrev stripe : Bytes
stripe = 1 ∷ 2 ∷ 3 ∷ 200 ∷ []

abbrev codec : ReedSolomon
unfolding build_enc_matrix
codec = record { k = 2; n = 4; share_size = 2; enc_matrix = build_enc_matrix 2 4 }

-- What is rebuilt from the shares that `keep` leaves in their slots.
abbrev rebuilt : (List Bytes → List (Option Bytes)) → Result Error Bytes
rebuilt keep = do
  rs ← new_codec 2 4 2
  shares ← encode_stripe rs stripe
  decode_stripe rs (keep shares)

parity_alone :
    rebuilt (λ shares. none ∷ none ∷ some (nth [] 2 shares) ∷ some (nth [] 3 shares) ∷ [])
    ≡ ok stripe
unfolding new_codec encode_stripe decode_stripe addmul inverse bytes_eq
parity_alone = refl

one_of_each :
    rebuilt (λ shares. none ∷ some (nth [] 1 shares) ∷ some (nth [] 2 shares) ∷ none ∷ [])
    ≡ ok stripe
unfolding new_codec encode_stripe decode_stripe addmul inverse bytes_eq
one_of_each = refl

-- A plan for shares 3 and 0, in any order, wants them in the order 0, 3.
planned : (decode_plan codec (3 ∷ 0 ∷ []) >>= λ plan. ok plan.indexes) ≡ ok (0 ∷ 3 ∷ [])
unfolding decode_plan addmul inverse bytes_eq codec
planned = refl

decode_stripe-encode_stripe_example :
    (shares : List Bytes) × (encode_stripe codec stripe ≡ ok shares)
    × (length shares ≡ 4)
    × (decode_stripe codec (map some (take 2 shares) ++ none ∷ some (7 ∷ 7 ∷ []) ∷ []) ≡ ok stripe)
unfolding codec
decode_stripe-encode_stripe_example =
    decode_stripe-encode_stripe codec stripe (none ∷ some (7 ∷ 7 ∷ []) ∷ []) refl refl
      ((λ d e. ground (arith, e)), ((λ d e. ground (arith, e)), tt))

abbrev slice : Bytes
slice = 0 ∷ 1 ∷ 2 ∷ 3 ∷ 4 ∷ 5 ∷ 6 ∷ 7 ∷ 8 ∷ 250 ∷ 251 ∷ 252 ∷ 253 ∷ 254 ∷ 255 ∷ 16 ∷ 17 ∷ 18 ∷ []

addmul_ssse3-addmul_scalar_example : addmul_ssse3 slice slice 77 ≡ addmul_scalar slice slice 77
addmul_ssse3-addmul_scalar_example =
    addmul_ssse3-addmul_scalar slice slice 77 (omega arith) (ground arith) refl
