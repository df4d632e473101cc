-- ===== src/Encryption/Runs.antt =====
-- Examples for crates/storj-encryption: the theorems at small data, with the cipher of Sample.
use storj_uplink.Common.Integers.{pos}
use storj_uplink.Encryption.Pad.{pad}
use storj_uplink.Encryption.Segment.{encode_segment, decode_segment}
use storj_uplink.Encryption.Segment.RoundTrip.{
  decode_segment-encode_segment, encode_segment-IsClean, IsClean,
}
use storj_uplink.Encryption.Cipher.{aes_gcm}
use storj_uplink.Encryption.Path.{
  new, remaining_components, join_components, encrypt_iterator, decrypt_iterator,
}
use storj_uplink.Encryption.Path.RoundTrip.{by_gcm, decrypt_iterator-encrypt_iterator}
use storj_uplink.Encryption.Transform.{
  Transformer, new_encrypter, new_decrypter, transform_padded, transform_unpad, aes_gcm_encrypter,
  increment_bytes, calc_encrypted_size, noop_transformer,
}
use storj_uplink.Encryption.Transform.Blocks.{IsInverse, new_decrypter-opens}
use storj_uplink.Encryption.Sample.{sample_lib, sample-Laws}
use storj_uplink.Common.{
  ◌<◌, ◌≡◌, refl, arith, false, [], ◌∷◌, ◌++◌, ok, Bytes, AreBytes, length, replicate, All,
}

abbrev three : Bytes
three = 1 ∷ 2 ∷ 3 ∷ []

padded_three : pad three 5 ≡ ok (1 ∷ 2 ∷ 3 ∷ 0 ∷ 0 ∷ 0 ∷ 0 ∷ 0 ∷ 0 ∷ 7 ∷ [])
unfolding pad storj_uplink.Encryption.Pad.make_padding storj_uplink.Encryption.Pad.padding_for
    storj_uplink.Encryption.Pad.to_be_bytes
padded_three = refl

-- The slash, 0xff and zero, each escaped.
abbrev awkward : Bytes
awkward = 47 ∷ 255 ∷ 0 ∷ 46 ∷ 65 ∷ []

awkward-AreBytes : AreBytes awkward
awkward-AreBytes = (omega arith, (omega arith, (omega arith, (omega arith, (omega arith, tt)))))

encoded_awkward : encode_segment awkward ≡ 2 ∷ 46 ∷ 2 ∷ 254 ∷ 2 ∷ 1 ∷ 1 ∷ 46 ∷ 1 ∷ 65 ∷ []
unfolding encode_segment storj_uplink.Encryption.Segment.encode_bytes
    storj_uplink.Encryption.Segment.encode_byte
encoded_awkward = refl

decode_segment-encode_segment_example : decode_segment (encode_segment awkward) ≡ ok awkward
decode_segment-encode_segment_example = decode_segment-encode_segment awkward awkward-AreBytes

encode_segment-IsClean_example :
    (0 < length (encode_segment awkward)) × All IsClean (encode_segment awkward)
encode_segment-IsClean_example = encode_segment-IsClean awkward awkward-AreBytes

-- `a//b/`
abbrev sample_path : Bytes
sample_path = 97 ∷ 47 ∷ 47 ∷ 98 ∷ 47 ∷ []

iterated : remaining_components (new sample_path) ≡ (97 ∷ []) ∷ [] ∷ (98 ∷ []) ∷ [] ∷ []
unfolding remaining_components new
iterated = refl

abbrev sample_key : Bytes
sample_key = replicate 32 9

-- The path `a/` under the sample cipher: two components, the second of them empty.
abbrev encrypted_path : Bytes
encrypted_path =
    2 ∷ 3 ∷ 3 ∷ 3 ∷ 3 ∷ 3 ∷ 3 ∷ 3 ∷ 3 ∷ 3 ∷ 3 ∷ 3 ∷ 3 ∷ 97 ∷ 1 ∷ 1 ∷ 1 ∷ 1 ∷ 1 ∷ 1 ∷ 1 ∷ 1 ∷ 1 ∷ 1
    ∷ 1 ∷ 1 ∷ 1 ∷ 1 ∷ 1 ∷ 1 ∷ 1 ∷ 1 ∷ 1 ∷ 1 ∷ 1 ∷ 1 ∷ 1 ∷ 1 ∷ 1 ∷ 1 ∷ 1 ∷ 1 ∷ 1 ∷ 1 ∷ 1 ∷ 1 ∷ 47 ∷ 2
    ∷ 3 ∷ 3 ∷ 3 ∷ 3 ∷ 3 ∷ 3 ∷ 3 ∷ 3 ∷ 3 ∷ 3 ∷ 3 ∷ 3 ∷ []

path_encrypts :
    encrypt_iterator sample_lib (new (97 ∷ 47 ∷ [])) aes_gcm sample_key ≡ ok encrypted_path
unfolding encrypt_iterator remaining_components new
    storj_uplink.Encryption.Path.encrypt_path_component storj_uplink.Encryption.Cipher.encrypt
    storj_uplink.Encryption.Cipher.derive_nonce storj_uplink.Encryption.Sample.seal join_components
    encode_segment storj_uplink.Encryption.Segment.encode_bytes
    storj_uplink.Encryption.Segment.encode_byte
path_encrypts = refl

decrypt_iterator-encrypt_iterator_example :
    decrypt_iterator sample_lib (new encrypted_path) aes_gcm sample_key ≡ ok (97 ∷ 47 ∷ [])
decrypt_iterator-encrypt_iterator_example =
    decrypt_iterator-encrypt_iterator sample_lib sample-Laws aes_gcm sample_key (97 ∷ 47 ∷ [])
      encrypted_path by_gcm path_encrypts

incremented : increment_bytes (255 ∷ 1 ∷ []) (pos 258) ≡ ok (1 ∷ 3 ∷ [], false)
unfolding increment_bytes
incremented = refl

encrypter_made :
    new_encrypter sample_lib aes_gcm sample_key (replicate 24 0) 21
    ≡ ok (aes_gcm_encrypter sample_lib sample_key (replicate 12 0) 5)
unfolding new_encrypter storj_uplink.Encryption.Cipher.to_aes_gcm_nonce
encrypter_made = refl

abbrev sealed_three : Bytes
sealed_three = 1 ∷ 2 ∷ 3 ∷ 0 ∷ 0 ∷ replicate 16 0 ++ 0 ∷ 0 ∷ 0 ∷ 0 ∷ 7 ∷ replicate 16 0

three_sealed :
    transform_padded (aes_gcm_encrypter sample_lib sample_key (replicate 12 0) 5) three
    ≡ ok sealed_three
unfolding transform_padded pad storj_uplink.Encryption.Pad.make_padding aes_gcm_encrypter
    storj_uplink.Encryption.Pad.padding_for storj_uplink.Encryption.Pad.to_be_bytes
    storj_uplink.Encryption.Sample.seal
three_sealed = refl

new_decrypter-opens_example :
    (dec : Transformer) × (new_decrypter sample_lib aes_gcm sample_key (replicate 24 0) 21 ≡ ok dec)
    × (transform_unpad dec sealed_three ≡ ok three)
    × (calc_encrypted_size 3 (record { cipher_suite = aes_gcm; block_size = pos 21 })
        ≡ ok (length sealed_three))
new_decrypter-opens_example =
    new_decrypter-opens sample_lib sample-Laws aes_gcm sample_key (replicate 24 0) 21
      (aes_gcm_encrypter sample_lib sample_key (replicate 12 0) 5) three sealed_three encrypter_made
      three_sealed

noop-IsInverse : IsInverse noop_transformer noop_transformer
noop-IsInverse = record {
  in_positive = omega arith;
  out_positive = omega arith;
  sizes = (refl, refl);
  opens = λ block sealed block_num l e. ground (arith, l, e);
}

three_transformed : transform_padded noop_transformer three ≡ ok (1 ∷ 2 ∷ 3 ∷ 0 ∷ 0 ∷ 0 ∷ 4 ∷ [])
unfolding transform_padded pad storj_uplink.Encryption.Pad.make_padding
    storj_uplink.Encryption.Pad.padding_for storj_uplink.Encryption.Pad.to_be_bytes
three_transformed = refl
