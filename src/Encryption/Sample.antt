-- ===== src/Encryption/Sample.antt =====
-- A cipher for examples, with the laws of the real ones: sealing appends sixteen zeros.
use storj_uplink.Encryption.Error.{Error, invalid_config}
use storj_uplink.Encryption.Cipher.{Primitives, Laws}
use storj_uplink.Common.{
  ℕ, zero, suc, ◌+◌, ◌-◌, ◌≡◌, refl, ap, arith, Bool, true, ◌&&◌, [], ◌∷◌, ◌++◌, ltb, if◌then◌else◌,
  Result, ok, err, Bytes, IsByte, AreBytes, length, take, replicate, length-append, take-append,
  All-append,
}

are_bytes : Bytes → Bool
are_bytes [] = true
are_bytes (b ∷ bs) = ltb b 256 && are_bytes bs

are_bytes_sound : (bs : Bytes) → are_bytes bs ≡ true → AreBytes bs
unfolding are_bytes
are_bytes_sound [] h = tt
are_bytes_sound (b ∷ bs) h = (ground arith, are_bytes_sound bs (ground arith))

unfoldable pub seal : Bytes → Bytes → Bytes → Result Error Bytes
unfolding are_bytes
seal key nonce data_bytes =
    if are_bytes data_bytes then ok (data_bytes ++ replicate 16 0) else err invalid_config

unfoldable pub open_sealed : Bytes → Bytes → Bytes → Result Error Bytes
open_sealed key nonce sealed = ok (take (length sealed - 16) sealed)

opens :
    (key nonce data_bytes sealed : Bytes)
    → seal key nonce data_bytes ≡ ok sealed
    → (open_sealed key nonce sealed ≡ ok data_bytes)
      × (length sealed ≡ length data_bytes + 16)
      × AreBytes sealed
unfolding seal open_sealed
opens key nonce data_bytes sealed h =
    let shape : (are_bytes data_bytes ≡ true) × (sealed ≡ data_bytes ++ replicate 16 0) =
      ground arith in
    let zeros : Bytes = replicate 16 0 in
    let len = length-append data_bytes zeros in
    let front = take-append (length (data_bytes ++ zeros) - 16) data_bytes zeros (omega arith) in
    rw shape.1 (
      ap ok front,
      omega (arith, len),
      All-append IsByte data_bytes zeros (are_bytes_sound data_bytes shape.0) (zero_bytes 16),
    )
  where
    zero_bytes : (n : ℕ) → AreBytes (replicate n 0)
    zero_bytes zero = tt
    zero_bytes (suc n) = (omega arith, zero_bytes n)

abbrev pub sample_lib : Primitives
sample_lib = record {
  hmac_sha512 = λ key data_bytes. replicate 64 3;
  gcm_seal = seal;
  gcm_open = open_sealed;
  box_seal = seal;
  box_open = open_sealed;
  base64_decode = λ data_bytes. ok data_bytes;
  base64_encode = λ data_bytes. data_bytes;
}

pub sample-Laws : Laws sample_lib
sample-Laws = record {
  hmac_length = λ key data_bytes. refl;
  hmac_bytes = λ key data_bytes. threes 64;
  gcm_opens = opens;
  box_opens = opens;
}
  where
    threes : (n : ℕ) → AreBytes (replicate n 3)
    threes zero = tt
    threes (suc n) = (omega arith, threes n)
