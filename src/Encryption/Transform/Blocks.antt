-- ===== src/Encryption/Transform/Blocks.antt =====
-- Blocks of content: the size of what is encrypted, and that decryption gives the data back.
use mathlib.Core.List.{append-nil, append_assoc}
use native.Mathlib.Nat.{mul-div_cancel_left, mul-div_cancel, mul-mod_left}
use storj_uplink.Common.Integers.{pos}
use storj_uplink.Encryption.Pad.{pad}
use storj_uplink.Encryption.Pad.RoundTrip.{unpad-pad}
use storj_uplink.Encryption.Cipher.{
  CipherSuite, unspecified, null, aes_gcm, secret_box, null_base64_url, other, Primitives, Laws,
  to_aes_gcm_nonce,
}
use storj_uplink.Encryption.Transform.{
  Transformer, noop_transformer, check_block_size, encrypter_io_blocks, calc_nonce,
  aes_gcm_encrypter, aes_gcm_decrypter, secretbox_encrypter, secretbox_decrypter, new_encrypter,
  new_decrypter, transform_loop, transform_blocks, transform_padded, transform_unpad,
  encrypted_size_from_blocks, calc_encrypted_size,
}
use storj_uplink.Common.{
  ℕ, zero, suc, ◌+◌, ◌-◌, ◌*◌, ◌/◌, ◌%◌, ◌<◌, ◌≡◌, refl, ap, ◌∙◌, arith, [], ◌∷◌, ◌++◌, ok, ◌>>=◌,
  >>=-eq-ok, Bytes, length, take, drop, length-append, take-append-drop, length-take, length-drop,
  take-append, drop-append,
}

-- `dec` opens what `enc` makes of a block.
pub record IsInverse (enc dec : Transformer) : Type 0 where
  pub in_positive : 0 < enc.in_block_size
  pub out_positive : 0 < enc.out_block_size
  pub sizes : (dec.in_block_size ≡ enc.out_block_size) × (dec.out_block_size ≡ enc.in_block_size)
  pub opens :
      (block sealed : Bytes) (block_num : ℕ)
      → length block ≡ enc.in_block_size
      → enc.transform_into block block_num ≡ ok sealed
      → (length sealed ≡ enc.out_block_size) × (dec.transform_into sealed block_num ≡ ok block)

module _ (enc dec : Transformer) (inverse : IsInverse enc dec) where
  loop_opens :
      (k block_num : ℕ) (data_bytes out sealed : Bytes)
      → length data_bytes ≡ k * enc.in_block_size
      → transform_loop k enc block_num data_bytes out ≡ ok sealed
      → (body : Bytes) × (sealed ≡ out ++ body)
        × (length body ≡ k * enc.out_block_size)
        × ((acc : Bytes) → transform_loop k dec block_num body acc ≡ ok (acc ++ data_bytes))
  unfolding transform_loop
  loop_opens zero n data_bytes out sealed l h =
      let same_out : sealed ≡ out ++ [] = rw (append-nil out) cc in
      ([], same_out, omega arith, λ acc. ground (arith, append-nil acc, empty data_bytes l))
    where
      empty : (xs : Bytes) → length xs ≡ 0 * enc.in_block_size → xs ≡ []
      empty [] e = refl
      empty (x ∷ xs) e = absurd (omega arith)
  loop_opens (suc k) n data_bytes out sealed l h =
      let i = enc.in_block_size in
      let o = enc.out_block_size in
      let first = take i data_bytes in
      let rest = drop i data_bytes in
      let step_i : suc k * i ≡ k * i + i = omega arith in
      let step_o : suc k * o ≡ k * o + o = omega arith in
      let (one, e, h1) = >>=-eq-ok (enc.transform_into first n) _ h in
      let (one_len, opened) =
        inverse.opens first one n (omega (arith, length-take i data_bytes)) e in
      let (body, shape, body_len, again) =
        loop_opens k (n + 1) rest (out ++ one) sealed (omega (arith, length-drop i data_bytes))
          h1 in
      let same = inverse.sizes.0 in
      let front : take dec.in_block_size (one ++ body) ≡ one =
        take-append dec.in_block_size one body (omega (arith, same)) in
      let back : drop dec.in_block_size (one ++ body) ≡ body =
        drop-append dec.in_block_size one body (omega (arith, same)) in
      (
        one ++ body,
        shape ∙ append_assoc out one body,
        omega (arith, length-append one body),
        λ acc. rw front (
            rw back (
              rw opened (
                again (acc ++ first)
                ∙ ap ok (
                    append_assoc acc first rest
                    ∙ ap (λ xs. acc ++ xs) (take-append-drop i data_bytes))))),
      )

  -- For an encrypter and a decrypter that are inverse: what `transform_padded` makes of the data has the size that `calc_encrypted_size` computes
  -- from the block sizes, and `transform_unpad` with the inverse transformer gives the data back.
  pub transform_unpad-transform_padded :
      (data_bytes sealed : Bytes)
      → transform_padded enc data_bytes ≡ ok sealed
      → (transform_unpad dec sealed ≡ ok data_bytes)
        × (length sealed
            ≡ encrypted_size_from_blocks (length data_bytes) enc.in_block_size enc.out_block_size)
  unfolding transform_padded transform_unpad transform_blocks encrypted_size_from_blocks
  transform_unpad-transform_padded data_bytes sealed h =
      let i = enc.in_block_size in
      let o = enc.out_block_size in
      let blocks = (length data_bytes + 4 + i - 1) / i in
      let (padded, e, h1) = >>=-eq-ok (pad data_bytes i) _ h in
      let (unpadded, len) = unpad-pad data_bytes padded i e in
      let count : length padded / i ≡ blocks =
        rw len (mul-div_cancel_left blocks {n = i} inverse.in_positive) in
      let run : transform_loop (length padded / i) enc 0 padded [] ≡ ok sealed =
        ground (arith, h1) in
      let (body, shape, body_len, again) =
        loop_opens blocks 0 padded [] sealed (omega (arith, len)) (rw count at run) in
      let whole : sealed ≡ body = shape in
      let dec_in = inverse.sizes.0 in
      let aligned : length sealed % dec.in_block_size ≡ 0 =
        rw dec_in (rw whole (rw body_len (mul-mod_left blocks o))) in
      let chunks : length sealed / dec.in_block_size ≡ blocks =
        rw dec_in (rw whole (rw body_len (mul-div_cancel blocks {n = o} inverse.out_positive))) in
      let plain : transform_loop (length sealed / dec.in_block_size) dec 0 sealed [] ≡ ok padded =
        rw chunks (rw whole (again [])) in
      (ground (arith, aligned, dec_in, inverse.out_positive, plain, unpadded), rw whole body_len)

module _ (lib : Primitives) (laws : Laws lib) where
  gcm-IsInverse :
      (key nonce : Bytes) (n : ℕ)
      → 0 < n
      → IsInverse (aes_gcm_encrypter lib key nonce n) (aes_gcm_decrypter lib key nonce n)
  unfolding aes_gcm_encrypter aes_gcm_decrypter
  gcm-IsInverse key nonce n h = record {
    in_positive = h;
    out_positive = omega arith;
    sizes = (refl, refl);
    opens = λ block sealed block_num l e.
        let (used, e1, e2) =
          >>=-eq-ok (calc_nonce lib nonce block_num) (λ u. lib.gcm_seal key u block) e in
        let (opened, len, bytes) = laws.gcm_opens key used block sealed e2 in
        (omega (arith, len, l), ground (arith, e1, opened, len));
  }

  noop_transformer-IsInverse : IsInverse noop_transformer noop_transformer
  noop_transformer-IsInverse = record {
    in_positive = omega arith;
    out_positive = omega arith;
    sizes = (refl, refl);
    opens = λ block sealed block_num l e. ground (arith, l, e);
  }

  box-IsInverse :
      (key nonce : Bytes) (n : ℕ)
      → 0 < n
      → IsInverse (secretbox_encrypter lib key nonce n) (secretbox_decrypter lib key nonce n)
  unfolding secretbox_encrypter secretbox_decrypter
  box-IsInverse key nonce n h = record {
    in_positive = h;
    out_positive = omega arith;
    sizes = (refl, refl);
    opens = λ block sealed block_num l e.
        let (used, e1, e2) =
          >>=-eq-ok (calc_nonce lib nonce block_num) (λ u. lib.box_seal key u block) e in
        let (opened, len, bytes) = laws.box_opens key used block sealed e2 in
        (omega (arith, len, l), ground (arith, e1, opened, len));
  }

  block_size_lem :
      (size n : ℕ)
      → check_block_size size ≡ ok n
      → (0 < n)
        × (encrypter_io_blocks aes_gcm size ≡ ok (n, n + 16))
        × (encrypter_io_blocks secret_box size ≡ ok (n, n + 16))
  unfolding check_block_size encrypter_io_blocks
  block_size_lem size n h = (ground arith, ground arith, ground arith)

  -- For every cipher suite and block size for which there is an encrypter there is a decrypter,
  -- under the same key and nonce, that is its inverse, and `encrypter_io_blocks` gives its sizes.
  pub new_encrypter-IsInverse :
      (c : CipherSuite) (key nonce : Bytes) (size : ℕ) (enc : Transformer)
      → new_encrypter lib c key nonce size ≡ ok enc
      → (dec : Transformer) × (new_decrypter lib c key nonce size ≡ ok dec)
        × IsInverse enc dec
        × (encrypter_io_blocks c size ≡ ok (enc.in_block_size, enc.out_block_size))
  unfolding new_encrypter new_decrypter encrypter_io_blocks check_block_size
  new_encrypter-IsInverse null key nonce size enc h =
      let e : enc ≡ noop_transformer = cc in
      rw e (noop_transformer, refl, noop_transformer-IsInverse, refl)
  new_encrypter-IsInverse aes_gcm key nonce size enc h =
      let (used, e1, h1) = >>=-eq-ok (to_aes_gcm_nonce nonce) _ h in
      let (n, e2, h2) =
        >>=-eq-ok (check_block_size size) (λ b. ok (aes_gcm_encrypter lib key used b))
          (unfold check_block_size in h1) in
      let e : enc ≡ aes_gcm_encrypter lib key used n = cc in
      let (positive, fits_gcm, fits_box) = block_size_lem size n e2 in
      let made : new_decrypter lib aes_gcm key nonce size ≡ ok (aes_gcm_decrypter lib key used n) =
        rw e1 (rw e2 refl) in
      rw e (
        aes_gcm_decrypter lib key used n,
        made,
        gcm-IsInverse key used n positive,
        unfold aes_gcm_encrypter in fits_gcm,
      )
  new_encrypter-IsInverse secret_box key nonce size enc h =
      let (n, e2, h2) =
        >>=-eq-ok (check_block_size size) (λ b. ok (secretbox_encrypter lib key nonce b))
          (unfold check_block_size in h) in
      let e : enc ≡ secretbox_encrypter lib key nonce n = cc in
      let (positive, fits_gcm, fits_box) = block_size_lem size n e2 in
      let made : new_decrypter lib secret_box key nonce size
          ≡ ok (secretbox_decrypter lib key nonce n) =
        rw e2 refl in
      rw e (
        secretbox_decrypter lib key nonce n,
        made,
        box-IsInverse key nonce n positive,
        unfold secretbox_encrypter in fits_box,
      )
  new_encrypter-IsInverse null_base64_url key nonce size enc h = cc
  new_encrypter-IsInverse unspecified key nonce size enc h = cc
  new_encrypter-IsInverse (other n) key nonce size enc h = cc

calc_encrypted_size_lem :
    (c : CipherSuite) (size data_size : ℕ)
    → calc_encrypted_size data_size (record { cipher_suite = c; block_size = pos size })
      ≡ (encrypter_io_blocks c size >>= λ r. ok (encrypted_size_from_blocks data_size r.0 r.1))
unfolding calc_encrypted_size encrypter_io_blocks
calc_encrypted_size_lem null size n = refl
calc_encrypted_size_lem aes_gcm size n = refl
calc_encrypted_size_lem secret_box size n = refl
calc_encrypted_size_lem null_base64_url size n = refl
calc_encrypted_size_lem unspecified size n = refl
calc_encrypted_size_lem (other k) size n = refl

-- Content that is padded and encrypted under a cipher suite, key, nonce and block size is decrypted
-- and unpadded to itself with the same four, for which there is then a decrypter, and its size is
-- the one that `calc_encrypted_size` computes. The ciphers are assumed to open what they seal.
pub new_decrypter-opens :
    (lib : Primitives) (laws : Laws lib) (c : CipherSuite) (key nonce : Bytes) (size : ℕ)
    (enc : Transformer) (content sealed : Bytes)
    → new_encrypter lib c key nonce size ≡ ok enc
    → transform_padded enc content ≡ ok sealed
    → (dec : Transformer) × (new_decrypter lib c key nonce size ≡ ok dec)
      × (transform_unpad dec sealed ≡ ok content)
      × (calc_encrypted_size (length content) (record { cipher_suite = c; block_size = pos size })
          ≡ ok (length sealed))
new_decrypter-opens lib laws c key nonce size enc content sealed made h =
    let (dec, found, inverse, sizes) = new_encrypter-IsInverse lib laws c key nonce size enc made in
    let (opened, len) = transform_unpad-transform_padded enc dec inverse content sealed h in
    (dec, found, opened, calc_encrypted_size_lem c size (length content) ∙ rw sizes (rw len refl))
