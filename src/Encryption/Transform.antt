-- ===== src/Encryption/Transform.antt =====
-- crates/storj-encryption/src/transform.rs, with the transformers of aesgcm.rs and secretbox.rs:
-- nonces, sizes and the encryption of padded content block by block. A negative i64 occurs only
-- as the amount of `increment_bytes` and in `data_size`; block numbers count up from a natural one.
pub mod Nonce
pub mod Blocks
use storj_uplink.Common.Integers.{ℤ, pos, negsuc}
use storj_uplink.Encryption.Error.{Error, invalid_config, decryption_failed}
use storj_uplink.Encryption.Pad.{uint32_size, pad, unpad}
use storj_uplink.Encryption.Cipher.{
  CipherSuite, unspecified, null, aes_gcm, secret_box, null_base64_url, other, Key, Primitives,
  to_aes_gcm_nonce,
}
use storj_uplink.Common.{
  ℕ, zero, suc, ◌+◌, ◌-◌, ◌*◌, ◌/◌, ◌%◌, Bool, not, ◌||◌, [], ◌∷◌, ◌++◌, ltb, leb, ◌==◌,
  if◌then◌else◌, Result, ok, err, ◌>>=◌, ◌>>◌, Bytes, length, take, drop,
}

-- AES_GCM_TAG_SIZE and SECRETBOX_OVERHEAD.
abbrev pub aes_gcm_tag_size : ℕ
aes_gcm_tag_size = 16

abbrev pub secretbox_overhead : ℕ
secretbox_overhead = 16

-- The loop of `increment_bytes` over the bytes from `idx` on, with the amount that is left.
unfoldable pub increment_loop : ℕ → Bytes → Bytes × ℕ
increment_loop amount [] = ([], amount)
increment_loop amount (prev ∷ rest) =
    let byte = (prev + amount % 256) % 256 in
    let left = if ltb byte prev then amount / 256 + 1 else amount / 256 in
    let (more, last) = increment_loop left rest in
    if amount == 0 then (prev ∷ rest, amount) else (byte ∷ more, last)

unfoldable pub increment_bytes : Bytes → ℤ → Result Error (Bytes × Bool)
unfolding increment_loop
increment_bytes buf (negsuc n) = err invalid_config
increment_bytes buf (pos amount) =
    let (buf', left) = increment_loop amount buf in ok (buf', not (left == 0))

-- The end of the range is where the caller's numbers keep it below i64::MAX. A length of zero
-- stands for a length at most zero.
unfoldable pub calc_encompassing_blocks : ℕ → ℕ → ℕ → ℕ × ℕ
calc_encompassing_blocks offset len block_size =
    let first_block = offset / block_size in
    let stop = offset + len in
    let last_block = stop / block_size in
    if len == 0
    then (first_block, 0)
    else if stop % block_size == 0
    then (first_block, last_block - first_block)
    else (first_block, 1 + last_block - first_block)

-- `check_block_size`: the tag is part of the encrypted block.
unfoldable pub check_block_size : ℕ → Result Error ℕ
check_block_size encrypted_block_size =
    if leb encrypted_block_size aes_gcm_tag_size
    then err invalid_config
    else ok (encrypted_block_size - aes_gcm_tag_size)

unfoldable pub encrypter_io_blocks : CipherSuite → ℕ → Result Error (ℕ × ℕ)
encrypter_io_blocks null size = ok (1, 1)
encrypter_io_blocks aes_gcm size =
    if leb size aes_gcm_tag_size then err invalid_config else ok (size - aes_gcm_tag_size, size)
encrypter_io_blocks secret_box size =
    if leb size secretbox_overhead then err invalid_config else ok (size - secretbox_overhead, size)
encrypter_io_blocks null_base64_url size = err invalid_config
encrypter_io_blocks unspecified size = err invalid_config
encrypter_io_blocks (other n) size = err invalid_config

unfoldable pub encrypted_size_from_blocks : ℕ → ℕ → ℕ → ℕ
encrypted_size_from_blocks data_size in_block out_block =
    (data_size + uint32_size + in_block - 1) / in_block * out_block

-- `EncryptionParameters`
pub record EncryptionParameters : Type 0 where
  pub cipher_suite : CipherSuite
  pub block_size : ℤ

abbrev block_size_of : CipherSuite → ℤ → Result Error ℕ
block_size_of null size = ok 1
block_size_of _ (pos n) = ok n
block_size_of _ (negsuc n) = err invalid_config

unfoldable pub calc_encrypted_size : ℕ → EncryptionParameters → Result Error ℕ
unfolding encrypter_io_blocks encrypted_size_from_blocks
calc_encrypted_size data_size parameters = do
  block_size ← block_size_of parameters.cipher_suite parameters.block_size
  (in_block, out_block) ← encrypter_io_blocks parameters.cipher_suite block_size
  ok (encrypted_size_from_blocks data_size in_block out_block)

-- `Transformer`; `transform_into` gives what it appends.
pub record Transformer : Type 0 where
  pub in_block_size : ℕ
  pub out_block_size : ℕ
  pub transform_into : Bytes → ℕ → Result Error Bytes

-- `NoopTransformer`
abbrev pub noop_transformer : Transformer
noop_transformer = record {
  in_block_size = 1;
  out_block_size = 1;
  transform_into = λ input block_num. ok input;
}

module _ (lib : Primitives) where
  -- `calc_gcm_nonce` and `calc_nonce`, which drop the overflow flag.
  unfoldable pub calc_nonce : Bytes → ℕ → Result Error Bytes
  unfolding increment_bytes
  calc_nonce starting_nonce block_num =
      increment_bytes starting_nonce (pos block_num) >>= λ r. ok r.0

  -- `AesGcmEncrypter`, with the plain block size.
  unfoldable pub aes_gcm_encrypter : Key → Bytes → ℕ → Transformer
  unfolding calc_nonce
  aes_gcm_encrypter key starting_nonce block_size = record {
    in_block_size = block_size;
    out_block_size = block_size + aes_gcm_tag_size;
    transform_into = λ input block_num.
        calc_nonce starting_nonce block_num >>= λ nonce. lib.gcm_seal key nonce input;
  }

  -- `AesGcmDecrypter`
  unfoldable pub aes_gcm_decrypter : Key → Bytes → ℕ → Transformer
  unfolding calc_nonce
  aes_gcm_decrypter key starting_nonce block_size = record {
    in_block_size = block_size + aes_gcm_tag_size;
    out_block_size = block_size;
    transform_into = λ input block_num. calc_nonce starting_nonce block_num >>= λ nonce.
        if ltb (length input) aes_gcm_tag_size
        then err decryption_failed
        else lib.gcm_open key nonce input;
  }

  -- `SecretboxEncrypter`
  unfoldable pub secretbox_encrypter : Key → Bytes → ℕ → Transformer
  unfolding calc_nonce
  secretbox_encrypter key starting_nonce block_size = record {
    in_block_size = block_size;
    out_block_size = block_size + secretbox_overhead;
    transform_into = λ input block_num.
        calc_nonce starting_nonce block_num >>= λ nonce. lib.box_seal key nonce input;
  }

  -- `SecretboxDecrypter`
  unfoldable pub secretbox_decrypter : Key → Bytes → ℕ → Transformer
  unfolding calc_nonce
  secretbox_decrypter key starting_nonce block_size = record {
    in_block_size = block_size + secretbox_overhead;
    out_block_size = block_size;
    transform_into = λ input block_num. calc_nonce starting_nonce block_num >>= λ nonce.
        if ltb (length input) secretbox_overhead
        then err decryption_failed
        else lib.box_open key nonce input;
  }

  unfoldable pub new_encrypter : CipherSuite → Key → Bytes → ℕ → Result Error Transformer
  unfolding check_block_size
  new_encrypter null key starting_nonce size = ok noop_transformer
  new_encrypter aes_gcm key starting_nonce size = do
    nonce ← to_aes_gcm_nonce starting_nonce
    block_size ← check_block_size size
    ok (aes_gcm_encrypter key nonce block_size)
  new_encrypter secret_box key starting_nonce size = do
    block_size ← check_block_size size
    ok (secretbox_encrypter key starting_nonce block_size)
  new_encrypter null_base64_url key starting_nonce size = err invalid_config
  new_encrypter unspecified key starting_nonce size = err invalid_config
  new_encrypter (other n) key starting_nonce size = err invalid_config

  unfoldable pub new_decrypter : CipherSuite → Key → Bytes → ℕ → Result Error Transformer
  unfolding check_block_size
  new_decrypter null key starting_nonce size = ok noop_transformer
  new_decrypter aes_gcm key starting_nonce size = do
    nonce ← to_aes_gcm_nonce starting_nonce
    block_size ← check_block_size size
    ok (aes_gcm_decrypter key nonce block_size)
  new_decrypter secret_box key starting_nonce size = do
    block_size ← check_block_size size
    ok (secretbox_decrypter key starting_nonce block_size)
  new_decrypter null_base64_url key starting_nonce size = err invalid_config
  new_decrypter unspecified key starting_nonce size = err invalid_config
  new_decrypter (other n) key starting_nonce size = err invalid_config

-- The loop over the chunks, by their number: the length is a multiple of the block size.
unfoldable pub transform_loop : ℕ → Transformer → ℕ → Bytes → Bytes → Result Error Bytes
transform_loop zero t block_num data_bytes out = ok out
transform_loop (suc chunks) t block_num data_bytes out = do
  appended ← t.transform_into (take t.in_block_size data_bytes) block_num
  transform_loop chunks t (block_num + 1) (drop t.in_block_size data_bytes) (out ++ appended)

unfoldable pub transform_blocks : Transformer → Bytes → ℕ → Result Error Bytes
unfolding transform_loop
transform_blocks t data_bytes starting_block =
    let in_size = t.in_block_size in
    if in_size == 0 || not (length data_bytes % in_size == 0)
    then err invalid_config
    else transform_loop (length data_bytes / in_size) t starting_block data_bytes []

unfoldable pub transform_padded : Transformer → Bytes → Result Error Bytes
unfolding transform_blocks
transform_padded t data_bytes = do
  padded ← pad data_bytes t.in_block_size
  transform_blocks t padded 0

unfoldable pub transform_unpad : Transformer → Bytes → Result Error Bytes
unfolding transform_blocks
transform_unpad t data_bytes = do plain ← transform_blocks t data_bytes 0; unpad plain
