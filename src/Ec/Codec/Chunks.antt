-- ===== src/Ec/Codec/Chunks.antt =====
-- A stripe as its chunks: they have the size of a share, and together they are the stripe.
use native.Mathlib.Nat.{mul-le-mul_right}
use storj_uplink.Common.Arrays.{range}
use storj_uplink.Ec.Codec.{chunk, concat}
use storj_uplink.Common.{
  ℕ, zero, suc, ◌+◌, ◌*◌, ◌≤◌, ◌<◌, ◌≡◌, refl, sym, ap, ◌∙◌, arith, List, [], ◌∷◌, ◌++◌, map, Bytes,
  length, take, drop, length-take, length-drop, drop-drop,
}

-- The data chunks from an index on.
abbrev pub chunks : ℕ → Bytes → ℕ → ℕ → List Bytes
chunks ss stripe start count = map (λ i. chunk ss i stripe) (range start count)

take_none : (n : ℕ) → take {A = ℕ} n [] ≡ []
take_none zero = refl
take_none (suc n) = refl

take_plus : (m n : ℕ) (xs : Bytes) → take (m + n) xs ≡ take m xs ++ take n (drop m xs)
take_plus zero n xs = ap (λ (m : ℕ). take m xs) (omega arith)
take_plus (suc m) n [] = take_none (suc m + n) ∙ sym (take_none n)
take_plus (suc m) n (x ∷ xs) =
    let e : suc m + n ≡ suc (m + n) = omega arith in rw e (ap (◌∷◌ x) (take_plus m n xs))

concat-chunks_from :
    (ss start count : ℕ) (stripe : Bytes)
    → concat (chunks ss stripe start count) ≡ take (count * ss) (drop (start * ss) stripe)
unfolding concat chunk
concat-chunks_from ss start zero stripe = let e : 0 * ss ≡ 0 = omega arith in rw e refl
concat-chunks_from ss start (suc count) stripe =
    let more = concat-chunks_from ss (suc start) count stripe in
    let e : suc count * ss ≡ ss + count * ss = omega arith in
    let d : drop ss (drop (start * ss) stripe) ≡ drop (suc start * ss) stripe =
      drop-drop (start * ss) ss (suc start * ss) stripe (omega arith) in
    rw more (
      rw e (
        sym (
          take_plus ss (count * ss) (drop (start * ss) stripe)
          ∙ ap (λ (r : Bytes). take ss (drop (start * ss) stripe) ++ take (count * ss) r) d)))

take_all : (n : ℕ) (xs : Bytes) → length xs ≤ n → take n xs ≡ xs
take_all zero [] h = refl
take_all zero (x ∷ xs) h = absurd (omega arith)
take_all (suc n) [] h = refl
take_all (suc n) (x ∷ xs) h = ap (◌∷◌ x) (take_all n xs (omega arith))

pub concat-chunks :
    (k ss : ℕ) (stripe : Bytes) → length stripe ≡ k * ss → concat (chunks ss stripe 0 k) ≡ stripe
concat-chunks k ss stripe l =
    let e : 0 * ss ≡ 0 = omega arith in
    rw (concat-chunks_from ss 0 k stripe) (rw e (take_all (k * ss) stripe (omega arith)))

pub length-chunk :
    (k ss i : ℕ) (stripe : Bytes) → length stripe ≡ k * ss → i < k → length (chunk ss i stripe) ≡ ss
unfolding chunk
length-chunk k ss i stripe l h =
    let room : (i + 1) * ss ≤ k * ss = mul-le-mul_right ss (omega arith) in
    omega (arith, length-take ss (drop (i * ss) stripe), length-drop (i * ss) stripe, room)
