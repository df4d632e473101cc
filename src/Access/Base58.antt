-- ===== src/Access/Base58.antt =====
-- crates/storj-access/src/base58.rs: Base58Check with a version byte. The alphabet's codec (bs58)
-- and SHA-256 (sha2) are parameters; a string is the list of its bytes.
use storj_uplink.Common.{
  ℕ, zero, suc, ◌-◌, ◌<◌, ◌≡◌, ◌↔◌, inl, inr, refl, sym, ◌∙◌, arith, false, not, [], ◌∷◌, ◌++◌,
  Option, none, some, ltb, if◌then◌else◌, Bool-cases, Option-cases, Result, ok, err, Bytes,
  bytes_eq, bytes_eq_refl, bytes_eq→eq, length, take, drop, length-append, take-append-drop,
  length-take, take-append, drop-append,
}

-- GRANT_VERSION
abbrev pub grant_version : ℕ
grant_version = 0

pub data DecodeError : Type 0 where
  invalid_format : DecodeError
  checksum_mismatch : DecodeError

-- The functions of other crates.
pub record Primitives : Type 0 where
  pub encode : Bytes → Bytes
  pub decode : Bytes → Option Bytes
  pub sha256 : Bytes → Bytes

-- What their documentation promises: decoding undoes encoding, no bytes but none are encoded to
-- the empty string, and a digest has 32 bytes.
pub record Laws (lib : Primitives) : Type 0 where
  pub decode-encode : (payload : Bytes) → lib.decode (lib.encode payload) ≡ some payload
  pub encode_nonempty : (b : ℕ) (payload : Bytes) → 0 < length (lib.encode (b ∷ payload))
  pub sha256_length : (payload : Bytes) → length (lib.sha256 payload) ≡ 32

module _ (lib : Primitives) where
  unfoldable pub checksum : Bytes → Bytes
  checksum input = take 4 (lib.sha256 (lib.sha256 input))

  unfoldable pub check_encode : Bytes → ℕ → Bytes
  unfolding checksum
  check_encode payload version = lib.encode ((version ∷ payload) ++ checksum (version ∷ payload))

  -- `decoded[0]`, the body behind it and the last four bytes, of at least five.
  unfoldable pub check_body : Bytes → Result DecodeError (Bytes × ℕ)
  unfolding checksum
  check_body [] = err invalid_format
  check_body (version ∷ rest) =
      let decoded : Bytes = version ∷ rest in
      let body : Bytes = take (length decoded - 4) decoded in
      if ltb (length decoded) 5
      then err invalid_format
      else if not (bytes_eq (checksum body) (drop (length decoded - 4) decoded))
      then err checksum_mismatch
      else ok (drop 1 body, version)

  unfoldable pub check_decode : Bytes → Result DecodeError (Bytes × ℕ)
  unfolding check_body
  check_decode input = elim (lib.decode input) [
    | none ↦ err invalid_format
    | some decoded ↦ check_body decoded
  ]

module _ (lib : Primitives) (laws : Laws lib) where
  length-checksum : (input : Bytes) → length (checksum lib input) ≡ 4
  unfolding checksum
  length-checksum input =
      omega (
        arith,
        length-take 4 (lib.sha256 (lib.sha256 input)),
        laws.sha256_length (lib.sha256 input),
      )

  check_body-ok :
      (payload : Bytes) (version : ℕ)
      → check_body lib ((version ∷ payload) ++ checksum lib (version ∷ payload))
        ≡ ok (payload, version)
  unfolding check_body
  check_body-ok payload version =
      let body : Bytes = version ∷ payload in
      let sum = checksum lib body in
      let l = length-append body sum in
      let four = length-checksum body in
      let front : take (length (body ++ sum) - 4) (body ++ sum) ≡ body =
        take-append (length (body ++ sum) - 4) body sum (omega arith) in
      let back : drop (length (body ++ sum) - 4) (body ++ sum) ≡ sum =
        drop-append (length (body ++ sum) - 4) body sum (omega arith) in
      let long : ltb (length (body ++ sum)) 5 ≡ false = ground arith in
      rw (long, check_body) (rw front (rw back (rw (bytes_eq_refl sum) refl)))

  take_first : (n v : ℕ) (rest : Bytes) → 0 < n → take n (v ∷ rest) ≡ v ∷ drop 1 (take n (v ∷ rest))
  take_first zero v rest h = absurd (omega arith)
  take_first (suc n) v rest h = refl

  check_body_sound :
      (decoded payload : Bytes) (version : ℕ)
      → check_body lib decoded ≡ ok (payload, version)
      → decoded ≡ (version ∷ payload) ++ checksum lib (version ∷ payload)
  unfolding check_body
  check_body_sound [] payload version h = cc
  check_body_sound (v ∷ rest) payload version h =
      let n = length (v ∷ rest) - 4 in
      elim (Bool-cases (ltb (length (v ∷ rest)) 5)) [
        | inl short ↦ absurd (ground (arith, short, h))
        | inr long ↦
            elim (Bool-cases (bytes_eq (checksum lib (take n (v ∷ rest))) (drop n (v ∷ rest)))) [
              | inr differ ↦ absurd (ground (arith, long, differ, h))
              | inl same ↦
                  let sum =
                    bytes_eq→eq (checksum lib (take n (v ∷ rest))) (drop n (v ∷ rest)) same in
                  let parts : ◌≡◌ {A = Result DecodeError (Bytes × ℕ)}
                      (ok (drop 1 (take n (v ∷ rest)), v)) (ok (payload, version)) =
                    ground (arith, long, same, h) in
                  let front : take n (v ∷ rest) ≡ v ∷ drop 1 (take n (v ∷ rest)) =
                    take_first n v rest (ground (arith, long)) in
                  let body : take n (v ∷ rest) ≡ version ∷ payload = front ∙ cc in
                  sym (take-append-drop n (v ∷ rest)) ∙ rw (sym sum) (rw body refl)
            ]
      ]

  -- `check_decode` accepts exactly the encodings of a version and a payload with their checksum.
  pub check_decode_iff :
      (input payload : Bytes) (version : ℕ)
      → (check_decode lib input ≡ ok (payload, version))
        ↔ (lib.decode input ≡ some ((version ∷ payload) ++ checksum lib (version ∷ payload)))
  unfolding check_decode
  check_decode_iff input payload version = (
    λ h. elim (Option-cases (lib.decode input)) [
      | inl e ↦ absurd (ground (arith, e, h))
      | inr (decoded, e) ↦
          let same = check_body_sound decoded payload version (ground (arith, e, h)) in rw same at e
    ],
    λ e. rw (e, check_decode) (check_body-ok payload version),
  )

  -- Decoding undoes encoding, the version included.
  pub check_decode-check_encode :
      (payload : Bytes) (version : ℕ)
      → check_decode lib (check_encode lib payload version) ≡ ok (payload, version)
  unfolding check_encode
  check_decode-check_encode payload version =
      (check_decode_iff (check_encode lib payload version) payload version).1
        (unfold check_encode in laws.decode-encode _)
