-- ===== src/Uplink/Pieces/Content.antt =====
-- A segment from its content to its pieces and back: encrypt_remote and encode_pieces, undone by
-- decode_encrypted and the decrypter.
use storj_uplink.Encryption.Cipher.{Primitives, Laws, CipherSuite}
use storj_uplink.Encryption.Transform.{
  Transformer, new_encrypter, new_decrypter, transform_padded, transform_unpad,
}
use storj_uplink.Encryption.Transform.Blocks.{new_decrypter-opens}
use storj_uplink.Uplink.Error.{encryption}
use storj_uplink.Uplink.Pieces.{
  Redundancy, default_encrypted_block_size, encrypt_remote, encode_pieces, decode_encrypted,
}
use storj_uplink.Uplink.Pieces.Encoded.{map_err-ok}
use storj_uplink.Uplink.Pieces.Decoded.{numbered, decode_encrypted-encode_pieces}
use storj_uplink.Common.{
  ℕ, ◌≡◌, ◌==◌, if◌then◌else◌, ok, map_err, >>=-eq-ok, List, Bytes, length, take,
}

abbrev pub block_size : ℕ → ℕ
block_size size = if size == 0 then default_encrypted_block_size else size

-- When a segment is encrypted and encoded, its first `k` pieces are decoded to something that begins
-- with the encrypted segment, which the decrypter of the same cipher, key, nonce and block size turns
-- back into the content. The MAC and the ciphers are assumed to keep their laws.
pub decode_encrypted-encrypt_remote :
    (lib : Primitives) (laws : Laws lib) (rs : Redundancy) (content : Bytes) (c : CipherSuite)
    (key nonce : Bytes) (size : ℕ) (sealed : Bytes) (pieces : List Bytes)
    → encrypt_remote lib content c key nonce size ≡ ok sealed
    → encode_pieces sealed rs ≡ ok pieces
    → (decoded : Bytes) × (dec : Transformer) × (decode_encrypted (take rs.k (numbered 0 pieces)) rs
        ≡ ok decoded)
      × (new_decrypter lib c key nonce (block_size size) ≡ ok dec)
      × (transform_unpad dec (take (length sealed) decoded) ≡ ok content)
unfolding encrypt_remote
decode_encrypted-encrypt_remote lib laws rs content c key nonce size sealed pieces h e =
    let (enc, m, h1) =
      >>=-eq-ok (map_err encryption (new_encrypter lib c key nonce (block_size size))) _ h in
    let made = map_err-ok encryption (new_encrypter lib c key nonce (block_size size)) enc m in
    let written = map_err-ok encryption (transform_padded enc content) sealed h1 in
    let (dec, found, opens, _) =
      new_decrypter-opens lib laws c key nonce (block_size size) enc content sealed made written in
    let (decoded, back, front, _) = decode_encrypted-encode_pieces rs sealed pieces e in
    (decoded, dec, back, found, rw front opens)
