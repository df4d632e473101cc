-- ===== src/Access/Macaroon/Chain.antt =====
-- The HMAC chain: what `validate` accepts, and what adding a caveat does to it.
use mathlib.Core.List.{append_assoc, append-nil}
use storj_uplink.Common.Bits.{bit_xor-zero, bit_xor_self, bit_or-zero}
use storj_uplink.Access.Macaroon.{
  Macaroon, ct_loop, ct_eq, from_parts, add_first_party_caveat, chain, derive_tail, validate,
  tails_loop, tails,
}
use storj_uplink.Common.{
  ℕ, ◌≡◌, ◌↔◌, refl, sym, ap, ◌∙◌, arith, bit_or, bit_xor, true, List, [], ◌∷◌, ◌++◌, Bytes, length,
}

ct_loop_sound :
    (acc : ℕ) (a b : Bytes) → length a ≡ length b → ct_loop acc a b ≡ 0 → (acc ≡ 0) × (a ≡ b)
unfolding ct_loop
ct_loop_sound acc [] [] l h = (h, refl)
ct_loop_sound acc [] (y ∷ ys) l h = absurd (omega arith)
ct_loop_sound acc (x ∷ xs) [] l h = absurd (omega arith)
ct_loop_sound acc (x ∷ xs) (y ∷ ys) l h =
    let (e, rest) = ct_loop_sound (bit_or acc (bit_xor x y)) xs ys (omega arith) h in
    let (a0, d) = bit_or-zero acc (bit_xor x y) e in (a0, ground (arith, bit_xor-zero x y d, rest))

ct_loop_refl : (a : Bytes) → ct_loop 0 a a ≡ 0
unfolding ct_loop
ct_loop_refl [] = refl
ct_loop_refl (x ∷ xs) = rw (bit_xor_self x) (ct_loop_refl xs)

-- The constant-time comparison decides equality of byte strings.
pub ct_eq_iff : (a b : Bytes) → (ct_eq a b ≡ true) ↔ (a ≡ b)
unfolding ct_eq
ct_eq_iff a b = (λ h. (ct_loop_sound 0 a b (ground arith) (ground arith)).1, λ e. rw e (same b))
  where
    same : (c : Bytes) → ct_eq c c ≡ true
    same c = ground (arith, ct_loop_refl c)

module _ (sign : Bytes → Bytes → Bytes) where
  chain-append :
      (t c : Bytes) (cs : List Bytes) → chain sign t (cs ++ c ∷ []) ≡ sign (chain sign t cs) c
  unfolding chain
  chain-append t c [] = refl
  chain-append t c (d ∷ cs) = chain-append (sign t d) c cs

  pub derive_tail-add :
      (m : Macaroon) (c secret : Bytes)
      → derive_tail sign (add_first_party_caveat sign m c) secret
        ≡ sign (derive_tail sign m secret) c
  unfolding derive_tail add_first_party_caveat
  derive_tail-add m c secret = chain-append (sign secret m.head) c m.caveats

  pub validate_iff :
      (m : Macaroon) (secret : Bytes)
      → (validate sign m secret ≡ true) ↔ (derive_tail sign m secret ≡ m.tail)
  unfolding validate
  validate_iff m secret = ct_eq_iff (derive_tail sign m secret) m.tail

  -- Caveats added one after another.
  pub add_all : Macaroon → List Bytes → Macaroon
  add_all m [] = m
  add_all m (c ∷ cs) = add_all (add_first_party_caveat sign m c) cs

  pub validate-add :
      (m : Macaroon) (c secret : Bytes)
      → validate sign m secret ≡ true
      → validate sign (add_first_party_caveat sign m c) secret ≡ true
  unfolding add_first_party_caveat
  validate-add m c secret h =
      (validate_iff (add_first_party_caveat sign m c) secret).1
        (derive_tail-add m c secret ∙ ap (λ t. sign t c) ((validate_iff m secret).0 h))

  validate-add_all :
      (m : Macaroon) (cs : List Bytes) (secret : Bytes)
      → validate sign m secret ≡ true
      → validate sign (add_all m cs) secret ≡ true
  unfolding add_all
  validate-add_all m [] secret h = h
  validate-add_all m (c ∷ cs) secret h =
      validate-add_all (add_first_party_caveat sign m c) cs secret (validate-add m c secret h)

  caveats-add_all : (m : Macaroon) (cs : List Bytes) → (add_all m cs).caveats ≡ m.caveats ++ cs
  unfolding add_all add_first_party_caveat
  caveats-add_all m [] = sym (append-nil m.caveats)
  caveats-add_all m (c ∷ cs) =
      caveats-add_all (add_first_party_caveat sign m c) cs ∙ append_assoc m.caveats (c ∷ []) cs

  -- A root macaroon restricted by any caveats validates under its secret, and carries exactly
  -- those caveats in their order.
  pub restricted_validates :
      (head secret : Bytes) (cs : List Bytes)
      → (validate sign (add_all (from_parts sign head secret) cs) secret ≡ true)
        × ((add_all (from_parts sign head secret) cs).caveats ≡ cs)
  unfolding from_parts
  restricted_validates head secret cs = (
    validate-add_all (from_parts sign head secret) cs secret
        ((validate_iff (from_parts sign head secret) secret).1 (unfold derive_tail chain in refl)),
    caveats-add_all (from_parts sign head secret) cs,
  )

  -- Stripping the last caveat while keeping the tail goes undetected only at a fixed point of the
  -- hash: if the restricted macaroon and the stripped one both validate, `sign` maps the tail that
  -- the secret gives for the stripped one to itself under that caveat.
  pub stripping_needs_fixed_point :
      (m : Macaroon) (c secret : Bytes)
      → validate sign (add_first_party_caveat sign m c) secret ≡ true
      → validate sign (record m { tail = (add_first_party_caveat sign m c).tail }) secret ≡ true
      → sign (derive_tail sign m secret) c ≡ derive_tail sign m secret
  unfolding derive_tail
  stripping_needs_fixed_point m c secret h k =
      let m' = add_first_party_caveat sign m c in
      sym (derive_tail-add m c secret)
      ∙ (validate_iff m' secret).0 h
      ∙ sym ((validate_iff (record m { tail = m'.tail }) secret).0 k)

  tails_loop-append :
      (so_far : List Bytes) (t c : Bytes) (cs : List Bytes)
      → tails_loop sign so_far t (cs ++ c ∷ [])
        ≡ tails_loop sign so_far t cs ++ sign (chain sign t cs) c ∷ []
  unfolding tails_loop chain
  tails_loop-append so_far t c [] = refl
  tails_loop-append so_far t c (d ∷ cs) =
      tails_loop-append (so_far ++ sign t d ∷ []) (sign t d) c cs

  -- The tails of a restricted macaroon are those of its parent and, last, the tail that the secret
  -- gives for it.
  pub tails-add :
      (m : Macaroon) (c secret : Bytes)
      → tails sign (add_first_party_caveat sign m c) secret
        ≡ tails sign m secret ++ derive_tail sign (add_first_party_caveat sign m c) secret ∷ []
  unfolding tails
  tails-add m c secret = rw (derive_tail-add m c secret) (
      unfold add_first_party_caveat derive_tail in
      tails_loop-append (sign secret m.head ∷ []) (sign secret m.head) c m.caveats)
