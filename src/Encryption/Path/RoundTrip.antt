-- ===== src/Encryption/Path/RoundTrip.antt =====
-- Path encryption: what the ciphers with a key give is decrypted again, component by component.
use storj_uplink.Encryption.Segment.{encode_segment, decode_segment, is_disallowed_byte}
use storj_uplink.Encryption.Segment.RoundTrip.{
  decode_segment-encode_segment, encode_segment-IsClean, IsClean,
}
use storj_uplink.Encryption.Cipher.{
  CipherSuite, aes_gcm, secret_box, to_aes_gcm_nonce, nonce24, Key, Primitives, Laws,
  derive_path_component, derive_nonce, encrypt, decrypt,
}
use storj_uplink.Encryption.Path.{
  new, remaining_components, join_components, stored_nonce_size, nonce_from_prefix, encrypt_sealed,
  encrypt_path_component, decrypt_sealed, decrypt_path_component, encrypt_components,
  decrypt_components, encrypt_iterator, decrypt_iterator,
}
use storj_uplink.Encryption.Path.Iter.{
  split, remaining_components-new, join-split, IsPart, split-join,
}
use storj_uplink.Common.{
  ℕ, ◌≤◌, ◌<◌, ◌≡◌, refl, ap, ◌∙◌, arith, false, List, [], ◌∷◌, ◌++◌, ltb, ok, >>=-eq-ok, Bytes,
  IsByte, AreBytes, length, take, drop, replicate, All, length-append, length-take, length-drop,
  take-append, drop-append, All-append, All-take,
}

-- The path ciphers with a key.
pub data IsKeyed : CipherSuite → Type 0 where
  by_gcm : IsKeyed aes_gcm
  by_box : IsKeyed secret_box

module _ (lib : Primitives) (laws : Laws lib) where
  nonce_length : (key : Key) → length (derive_nonce lib key) ≡ 24
  unfolding derive_nonce
  nonce_length key = omega (arith, length-take 24 (lib.hmac_sha512 key _), laws.hmac_length key _)

  nonce_bytes : (key : Key) → AreBytes (derive_nonce lib key)
  unfolding derive_nonce
  nonce_bytes key = All-take IsByte 24 (lib.hmac_sha512 key _) (laws.hmac_bytes key _)

  stored :
      (n : ℕ) (nonce : Bytes) → n ≤ 24 → ltb (length (nonce_from_prefix (take n nonce))) n ≡ false
  unfolding nonce_from_prefix
  stored n nonce h = ground (
    arith,
    length-append (take n nonce) (drop (length (take n nonce)) (replicate 24 0)),
    length-drop (length (take n nonce)) (replicate {A = ℕ} 24 0),
    length-take n nonce,
  )

  -- Both ciphers take the same nonce from the stored prefix as from the whole nonce.
  decrypt-encrypt :
      (c : CipherSuite) (comp cipher_text nonce : Bytes) (key : Key)
      → IsKeyed c
      → length nonce ≡ 24
      → encrypt lib comp c key nonce ≡ ok cipher_text
      → (decrypt lib cipher_text c key (nonce_from_prefix (take (stored_nonce_size c) nonce))
          ≡ ok comp)
        × AreBytes cipher_text
  unfolding encrypt decrypt to_aes_gcm_nonce nonce24
  decrypt-encrypt c [] cipher_text nonce key k l h =
      let e : cipher_text ≡ [] = cc in rw e (refl, tt)
  decrypt-encrypt c (b ∷ bs) [] nonce key by_gcm l h =
      absurd
        (ground (arith, (laws.gcm_opens key (take 12 nonce) (b ∷ bs) [] (ground (arith, l))).1))
  decrypt-encrypt c (b ∷ bs) [] nonce key by_box l h =
      absurd
        (ground (arith, (laws.box_opens key (take 24 nonce) (b ∷ bs) [] (ground (arith, l))).1))
  decrypt-encrypt c (b ∷ bs) (x ∷ xs) nonce key by_gcm l h =
      let (opens, len, bytes) =
        laws.gcm_opens key (take 12 nonce) (b ∷ bs) (x ∷ xs) (ground (arith, l)) in
      let same : take 12 (nonce_from_prefix (take 12 nonce)) ≡ take 12 nonce =
        unfold nonce_from_prefix in
        take-append 12 (take 12 nonce) _ (omega (arith, length-take 12 nonce)) in
      (ground (arith, same, stored 12 nonce (omega arith), opens), bytes)
  decrypt-encrypt c (b ∷ bs) (x ∷ xs) nonce key by_box l h =
      let (opens, len, bytes) =
        laws.box_opens key (take 24 nonce) (b ∷ bs) (x ∷ xs) (ground (arith, l)) in
      let same : take 24 (nonce_from_prefix (take 24 nonce)) ≡ take 24 nonce =
        unfold nonce_from_prefix in
        take-append 24 (take 24 nonce) _ (omega (arith, length-take 24 nonce)) in
      (ground (arith, same, stored 24 nonce (omega arith), opens), bytes)

  decrypt_sealed-encrypt :
      (c : CipherSuite) (comp enc : Bytes) (key : Key)
      → IsKeyed c
      → encrypt_sealed lib comp c key ≡ ok enc
      → (decrypt_sealed lib enc c key ≡ ok comp) × (0 < length enc) × All IsClean enc
  unfolding encrypt_sealed decrypt_sealed
  decrypt_sealed-encrypt c comp enc key k h =
      let nonce = derive_nonce lib (derive_path_component lib key comp) in
      let n = stored_nonce_size c in
      let (ct, e, q) = >>=-eq-ok (encrypt lib comp c key nonce) _ h in
      let l : length nonce ≡ 24 = nonce_length _ in
      let (d, bytes) = decrypt-encrypt c comp ct nonce key k l e in
      let packed : Bytes = take n nonce ++ ct in
      let enough : n ≤ 24 = at_most_24 c k in
      let len = length-take n nonce in
      let decoded : decode_segment (encode_segment packed) ≡ ok packed =
        decode_segment-encode_segment packed (packed_bytes n ct _ bytes) in
      let clean = encode_segment-IsClean packed (packed_bytes n ct _ bytes) in
      let front : take n packed ≡ take n nonce = take-append n (take n nonce) ct (omega arith) in
      let back : drop n packed ≡ ct = drop-append n (take n nonce) ct (omega arith) in
      let long : ltb (length packed) n ≡ false = ground (arith, length-append (take n nonce) ct) in
      let same : enc ≡ encode_segment packed = cc in
      rw same (rw decoded (rw long (rw front (rw back d))), clean.0, clean.1)
    where
      packed_bytes :
          (n : ℕ) (ct : Bytes) (k : Key)
          → AreBytes ct
          → AreBytes (take n (derive_nonce lib k) ++ ct)
      packed_bytes n ct k bytes =
          All-append IsByte (take n (derive_nonce lib k)) ct
            (All-take IsByte n (derive_nonce lib k) (nonce_bytes k)) bytes

      at_most_24 : (c : CipherSuite) → IsKeyed c → stored_nonce_size c ≤ 24
      at_most_24 c by_gcm = omega arith
      at_most_24 c by_box = omega arith

  decrypt_component-encrypt :
      (c : CipherSuite) (comp enc : Bytes) (key : Key)
      → IsKeyed c
      → encrypt_path_component lib comp c key ≡ ok enc
      → (decrypt_path_component lib enc c key ≡ ok comp) × (0 < length enc) × All IsClean enc
  unfolding encrypt_path_component decrypt_path_component
  decrypt_component-encrypt c comp [] key by_gcm h =
      absurd (omega (arith, (decrypt_sealed-encrypt aes_gcm comp [] key by_gcm h).1))
  decrypt_component-encrypt c comp (x ∷ xs) key by_gcm h =
      decrypt_sealed-encrypt aes_gcm comp (x ∷ xs) key by_gcm h
  decrypt_component-encrypt c comp [] key by_box h =
      absurd (omega (arith, (decrypt_sealed-encrypt secret_box comp [] key by_box h).1))
  decrypt_component-encrypt c comp (x ∷ xs) key by_box h =
      decrypt_sealed-encrypt secret_box comp (x ∷ xs) key by_box h

  IsPart-of_clean : (bs : Bytes) → All IsClean bs → IsPart bs
  unfolding is_disallowed_byte
  IsPart-of_clean [] h = tt
  IsPart-of_clean (b ∷ bs) h = (ground (arith, h.0), IsPart-of_clean bs h.1)

  decrypt_components-encrypt :
      (c : CipherSuite) (key : Key) (comps encs : List Bytes)
      → IsKeyed c
      → encrypt_components lib c key comps ≡ ok encs
      → (decrypt_components lib c key encs ≡ ok comps)
        × All IsPart encs
        × All (λ e. 0 < length e) encs
  unfolding encrypt_components decrypt_components
  decrypt_components-encrypt c key [] encs k h = let e : encs ≡ [] = cc in rw e (refl, tt, tt)
  decrypt_components-encrypt c key (comp ∷ comps) encs k h =
      let (enc, e, h1) = >>=-eq-ok (encrypt_path_component lib comp c key) _ h in
      let (more, f, h2) =
        >>=-eq-ok (encrypt_components lib c (derive_path_component lib key comp) comps) _ h1 in
      let (d, long, clean) = decrypt_component-encrypt c comp enc key k e in
      let (ds, parts, longs) =
        decrypt_components-encrypt c (derive_path_component lib key comp) comps more k f in
      let same : encs ≡ enc ∷ more = cc in
      rw same (rw d (rw ds refl), (IsPart-of_clean enc clean, parts), (long, longs))

  -- What `encrypt_iterator` makes of a path under AES-GCM or secretbox is decrypted, by
  -- `decrypt_iterator` under the same cipher and key, to the path. The MAC and the ciphers are
  -- assumed to keep their laws.
  pub decrypt_iterator-encrypt_iterator :
      (c : CipherSuite) (key : Key) (raw enc : Bytes)
      → IsKeyed c
      → encrypt_iterator lib (new raw) c key ≡ ok enc
      → decrypt_iterator lib (new enc) c key ≡ ok raw
  unfolding encrypt_iterator decrypt_iterator join_components
  decrypt_iterator-encrypt_iterator c key [] enc k h =
      let none_left = remaining_components-new [] in
      let e : enc ≡ [] = (let h' = rw none_left at h in unfold encrypt_components in cc) in
      rw e (rw none_left (unfold decrypt_components in refl))
  decrypt_iterator-encrypt_iterator c key (b ∷ bs) enc k h =
      let (encs, e, q) =
        >>=-eq-ok (encrypt_components lib c key (remaining_components (new (b ∷ bs)))) _ h in
      let plain = remaining_components-new (b ∷ bs) in
      let (d, parts, longs) =
        decrypt_components-encrypt c key (split (b ∷ bs)) encs k (rw plain at e) in
      joined (split (b ∷ bs)) encs enc d parts longs (join-split (b ∷ bs)) cc
    where
      joined :
          (plain encs : List Bytes) (enc : Bytes)
          → decrypt_components lib c key encs ≡ ok plain
          → All IsPart encs
          → All (λ e. 0 < length e) encs
          → join_components plain ≡ b ∷ bs
          → enc ≡ join_components encs
          → decrypt_iterator lib (new enc) c key ≡ ok (b ∷ bs)
      joined plain [] enc d parts longs j q =
          absurd (let e : plain ≡ [] = (unfold decrypt_components in cc) in cc)
      joined plain ([] ∷ rest) enc d parts longs j q = absurd (omega (arith, longs.0))
      joined plain ((x ∷ xs) ∷ rest) enc d parts longs j q =
          let pieces =
            remaining_components-new (join_components ((x ∷ xs) ∷ rest))
            ∙ split-join (x ∷ xs) rest parts.0 parts.1 in
          rw q (rw pieces (rw d (ap ok j)))
