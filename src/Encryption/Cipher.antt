-- ===== src/Encryption/Cipher.antt =====
-- crates/storj-encryption/src/cipher.rs and key.rs, with the one-shot functions of aesgcm.rs and
-- secretbox.rs. HMAC-SHA512, AES-256-GCM and XSalsa20-Poly1305 (hmac, aes-gcm, crypto_secretbox)
-- are the fields of `Primitives`. Base64 (base64) is there too.
use storj_uplink.Common.Integers.{ℤ}
use storj_uplink.Encryption.Error.{Error, invalid_config}
use storj_uplink.Common.{
  ℕ, ◌+◌, ◌≡◌, [], ◌∷◌, ◌++◌, ltb, if◌then◌else◌, Result, ok, err, ◌>>=◌, Bytes, AreBytes, length,
  take, replicate,
}

-- `CipherSuite`, whose unknown values are kept.
pub data CipherSuite : Type 0 where
  unspecified : CipherSuite
  null : CipherSuite
  aes_gcm : CipherSuite
  secret_box : CipherSuite
  null_base64_url : CipherSuite
  other : ℤ → CipherSuite

abbrev pub nonce_size : ℕ
nonce_size = 24

abbrev pub aes_gcm_nonce_size : ℕ
aes_gcm_nonce_size = 12

abbrev pub zero_nonce : Bytes
zero_nonce = replicate nonce_size 0

-- `Key`: its 32 bytes.
abbrev pub Key : Type 0
Key = Bytes

-- The functions of other crates. `gcm_seal` and `box_seal` take the key, the nonce and the data.
pub record Primitives : Type 0 where
  pub hmac_sha512 : Bytes → Bytes → Bytes
  pub gcm_seal : Bytes → Bytes → Bytes → Result Error Bytes
  pub gcm_open : Bytes → Bytes → Bytes → Result Error Bytes
  pub box_seal : Bytes → Bytes → Bytes → Result Error Bytes
  pub box_open : Bytes → Bytes → Bytes → Result Error Bytes
  pub base64_decode : Bytes → Result Error Bytes
  pub base64_encode : Bytes → Bytes

-- What their documentation promises: a MAC of 64 bytes, and that opening what was sealed under the
-- same key and nonce gives the data back, the sealed data being 16 bytes longer.
pub record Laws (lib : Primitives) : Type 0 where
  pub hmac_length : (key data_bytes : Bytes) → length (lib.hmac_sha512 key data_bytes) ≡ 64
  pub hmac_bytes : (key data_bytes : Bytes) → AreBytes (lib.hmac_sha512 key data_bytes)
  pub gcm_opens :
      (key nonce data_bytes sealed : Bytes)
      → lib.gcm_seal key nonce data_bytes ≡ ok sealed
      → (lib.gcm_open key nonce sealed ≡ ok data_bytes)
        × (length sealed ≡ length data_bytes + 16)
        × AreBytes sealed
  pub box_opens :
      (key nonce data_bytes sealed : Bytes)
      → lib.box_seal key nonce data_bytes ≡ ok sealed
      → (lib.box_open key nonce sealed ≡ ok data_bytes)
        × (length sealed ≡ length data_bytes + 16)
        × AreBytes sealed

-- `nonce.get(..n)`, which fails on a nonce that is too short.
abbrev nonce_of : ℕ → Bytes → Result Error Bytes
nonce_of n nonce = if ltb (length nonce) n then err invalid_config else ok (take n nonce)

unfoldable pub to_aes_gcm_nonce : Bytes → Result Error Bytes
to_aes_gcm_nonce nonce = nonce_of aes_gcm_nonce_size nonce

unfoldable pub nonce24 : Bytes → Result Error Bytes
nonce24 nonce = nonce_of nonce_size nonce

-- PATH_HMAC_PREFIX, CONTENT_HMAC_INFO and NONCE_HMAC_INFO.
abbrev pub path_hmac_prefix : Bytes
path_hmac_prefix = 112 ∷ 97 ∷ 116 ∷ 104 ∷ 58 ∷ []

abbrev pub content_hmac_info : Bytes
content_hmac_info = 99 ∷ 111 ∷ 110 ∷ 116 ∷ 101 ∷ 110 ∷ 116 ∷ []

abbrev pub nonce_hmac_info : Bytes
nonce_hmac_info = 110 ∷ 111 ∷ 110 ∷ 99 ∷ 101 ∷ []

module _ (lib : Primitives) where
  unfoldable pub derive_path_component : Key → Bytes → Key
  derive_path_component key component =
      take 32 (lib.hmac_sha512 key (path_hmac_prefix ++ component))

  unfoldable pub derive_key : Key → Bytes → Key
  derive_key key message = take 32 (lib.hmac_sha512 key message)

  unfoldable pub derive_nonce : Key → Bytes
  derive_nonce derived_key = take 24 (lib.hmac_sha512 derived_key nonce_hmac_info)

  unfoldable pub encrypt : Bytes → CipherSuite → Key → Bytes → Result Error Bytes
  unfolding to_aes_gcm_nonce nonce24
  encrypt [] cipher key nonce = ok []
  encrypt (b ∷ bs) null key nonce = ok (b ∷ bs)
  encrypt (b ∷ bs) aes_gcm key nonce = to_aes_gcm_nonce nonce >>= λ n. lib.gcm_seal key n (b ∷ bs)
  encrypt (b ∷ bs) secret_box key nonce = nonce24 nonce >>= λ n. lib.box_seal key n (b ∷ bs)
  encrypt (b ∷ bs) null_base64_url key nonce = err invalid_config
  encrypt (b ∷ bs) unspecified key nonce = err invalid_config
  encrypt (b ∷ bs) (other n) key nonce = err invalid_config

  unfoldable pub decrypt : Bytes → CipherSuite → Key → Bytes → Result Error Bytes
  unfolding to_aes_gcm_nonce nonce24
  decrypt [] cipher key nonce = ok []
  decrypt (b ∷ bs) null key nonce = ok (b ∷ bs)
  decrypt (b ∷ bs) aes_gcm key nonce = to_aes_gcm_nonce nonce >>= λ n. lib.gcm_open key n (b ∷ bs)
  decrypt (b ∷ bs) secret_box key nonce = nonce24 nonce >>= λ n. lib.box_open key n (b ∷ bs)
  decrypt (b ∷ bs) null_base64_url key nonce = err invalid_config
  decrypt (b ∷ bs) unspecified key nonce = err invalid_config
  decrypt (b ∷ bs) (other n) key nonce = err invalid_config
