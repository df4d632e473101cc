-- ===== src/Encryption/Path.antt =====
-- crates/storj-encryption/src/path.rs: the iterator over the components of a path, and the
-- encryption of a path component by component, each under the key that its plain parents give.
pub mod Iter
pub mod RoundTrip
pub mod Steps
use storj_uplink.Encryption.Error.{Error, decryption_failed}
use storj_uplink.Encryption.Segment.{encode_segment, decode_segment}
use storj_uplink.Encryption.Cipher.{
  CipherSuite, unspecified, null, aes_gcm, secret_box, null_base64_url, other, nonce_size,
  aes_gcm_nonce_size, zero_nonce, Key, Primitives, derive_path_component, derive_nonce, encrypt,
  decrypt,
}
use storj_uplink.Common.{
  ℕ, zero, suc, ◌+◌, ◌-◌, Bool, true, false, not, ◌&&◌, List, [], ◌∷◌, ◌++◌, Option, none, some,
  ltb, ◌==◌, if◌then◌else◌, Result, ok, err, ◌>>=◌, ◌>>◌, Bytes, length, take, drop,
}

abbrev pub slash : ℕ
slash = 47

-- `PathIter`
pub record PathIter : Type 0 where
  pub raw : Bytes
  pub consumed : ℕ
  pub last_empty : Bool

unfoldable pub new : Bytes → PathIter
new raw = record { raw = raw; consumed = 0; last_empty = elim raw [ [] ↦ false | b ∷ bs ↦ true ] }

unfoldable pub remaining : PathIter → Bytes
remaining it = drop it.consumed it.raw

unfoldable pub done : PathIter → Bool
done it = length it.raw == it.consumed && not it.last_empty

-- `rem.iter().position(|&b| b == b'/')`
unfoldable pub position_slash : Bytes → Option ℕ
position_slash [] = none
position_slash (b ∷ bs) =
    if b == slash then some 0 else elim (position_slash bs) [ none ↦ none | some i ↦ some (suc i) ]

unfoldable pub next : PathIter → Option (Bytes × PathIter)
unfolding done position_slash
next it =
    let rem_len = length it.raw - it.consumed in
    let rem = drop it.consumed it.raw in
    if done it then none else elim (position_slash rem) [
      | none ↦ some (rem, record it { consumed = it.consumed + rem_len; last_empty = false })
      | some index ↦ some (
        take index rem,
        record it { consumed = it.consumed + (index + 1); last_empty = index + 1 == rem_len },
      )
    ]

-- Iteration to the end; the fuel bounds the number of components.
unfoldable pub collect : ℕ → PathIter → List Bytes
unfolding next
collect zero it = []
collect (suc fuel) it = elim (next it) [ none ↦ [] | some r ↦ r.0 ∷ collect fuel r.1 ]

unfoldable pub remaining_components : PathIter → List Bytes
unfolding collect
remaining_components it = collect (suc (suc (length it.raw))) it

unfoldable pub join_rest : List Bytes → Bytes
join_rest [] = []
join_rest (part ∷ parts) = slash ∷ part ++ join_rest parts

unfoldable pub join_components : List Bytes → Bytes
unfolding join_rest
join_components [] = []
join_components (part ∷ parts) = part ++ join_rest parts

-- The length of the nonce that stands before the sealed component.
abbrev pub stored_nonce_size : CipherSuite → ℕ
stored_nonce_size aes_gcm = aes_gcm_nonce_size
stored_nonce_size _ = nonce_size

unfoldable pub nonce_from_prefix : Bytes → Bytes
nonce_from_prefix prefix = prefix ++ drop (length prefix) zero_nonce

module _ (lib : Primitives) where
  -- The part of `encrypt_path_component` behind the two null ciphers.
  unfoldable pub encrypt_sealed : Bytes → CipherSuite → Key → Result Error Bytes
  encrypt_sealed comp cipher key = do
    let nonce = derive_nonce lib (derive_path_component lib key comp)
    cipher_text ← encrypt lib comp cipher key nonce
    ok (encode_segment (take (stored_nonce_size cipher) nonce ++ cipher_text))

  unfoldable pub encrypt_path_component : Bytes → CipherSuite → Key → Result Error Bytes
  unfolding encrypt_sealed
  encrypt_path_component comp null key = ok comp
  encrypt_path_component comp null_base64_url key = lib.base64_decode comp
  encrypt_path_component comp unspecified key = encrypt_sealed comp unspecified key
  encrypt_path_component comp aes_gcm key = encrypt_sealed comp aes_gcm key
  encrypt_path_component comp secret_box key = encrypt_sealed comp secret_box key
  encrypt_path_component comp (other n) key = encrypt_sealed comp (other n) key

  -- The part of `decrypt_path_component` behind the two null ciphers.
  unfoldable pub decrypt_sealed : Bytes → CipherSuite → Key → Result Error Bytes
  decrypt_sealed comp cipher key = do
    data_bytes ← decode_segment comp
    let n = stored_nonce_size cipher
    if ltb (length data_bytes) n
        then err decryption_failed
        else decrypt lib (drop n data_bytes) cipher key (nonce_from_prefix (take n data_bytes))

  unfoldable pub decrypt_path_component : Bytes → CipherSuite → Key → Result Error Bytes
  unfolding decrypt_sealed
  decrypt_path_component [] cipher key = ok []
  decrypt_path_component (b ∷ bs) null key = ok (b ∷ bs)
  decrypt_path_component (b ∷ bs) null_base64_url key = ok (lib.base64_encode (b ∷ bs))
  decrypt_path_component (b ∷ bs) unspecified key = decrypt_sealed (b ∷ bs) unspecified key
  decrypt_path_component (b ∷ bs) aes_gcm key = decrypt_sealed (b ∷ bs) aes_gcm key
  decrypt_path_component (b ∷ bs) secret_box key = decrypt_sealed (b ∷ bs) secret_box key
  decrypt_path_component (b ∷ bs) (other n) key = decrypt_sealed (b ∷ bs) (other n) key

  unfoldable pub encrypt_components : CipherSuite → Key → List Bytes → Result Error (List Bytes)
  encrypt_components cipher key [] = ok []
  encrypt_components cipher key (component ∷ rest) = do
    enc ← encrypt_path_component component cipher key
    parts ← encrypt_components cipher (derive_path_component lib key component) rest
    ok (enc ∷ parts)

  unfoldable pub encrypt_iterator : PathIter → CipherSuite → Key → Result Error Bytes
  unfolding encrypt_components
  encrypt_iterator iter cipher key = do
    parts ← encrypt_components cipher key (remaining_components iter)
    ok (join_components parts)

  unfoldable pub decrypt_components : CipherSuite → Key → List Bytes → Result Error (List Bytes)
  decrypt_components cipher key [] = ok []
  decrypt_components cipher key (component ∷ rest) = do
    unenc ← decrypt_path_component component cipher key
    parts ← decrypt_components cipher (derive_path_component lib key unenc) rest
    ok (unenc ∷ parts)

  unfoldable pub decrypt_iterator : PathIter → CipherSuite → Key → Result Error Bytes
  unfolding decrypt_components
  decrypt_iterator iter cipher key = do
    parts ← decrypt_components cipher key (remaining_components iter)
    ok (join_components parts)
