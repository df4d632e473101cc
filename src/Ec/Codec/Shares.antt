-- ===== src/Ec/Codec/Shares.antt =====
-- The sizes of the shares, and the plan for the data shares: what the clients of the codec use.
use storj_uplink.Common.Arrays.{range, nth-range, length-range}
use storj_uplink.Ec.Field.{at, addmul, addmul_scalar}
use storj_uplink.Ec.Matrix.{row_at, build_enc_matrix}
use storj_uplink.Ec.Codec.{
  new_codec, ReedSolomon, Share, chunk, parity_loop, encode_share_unchecked, encode_stripe,
  encode_stripe_into, check_indexes, decode_plan,
}
use storj_uplink.Ec.Codec.Chunks.{length-chunk}
use storj_uplink.Ec.Codec.Plan.{
  AscendFrom, data_plan, sort_shares-ascending, check_unique-ascending, plan_from_sorted-data,
}
use storj_uplink.Ec.Codec.Identity.{encode_stripe-total}
use storj_uplink.Common.{
  ℕ, zero, suc, ◌+◌, ◌*◌, ◌≤◌, ◌<◌, ◌≡◌, inl, inr, refl, sym, ap, ◌∙◌, arith, Bool, true, false,
  ◌||◌, List, [], ◌∷◌, map, ltb, ◌==◌, Bool-cases, ok, ok_injective, Bytes, length, replicate,
  length-replicate, dec_lt,
}

length-addmul_scalar : (z x : Bytes) (y : ℕ) → length (addmul_scalar z x y) ≡ length z
unfolding addmul_scalar
length-addmul_scalar [] x y = refl
length-addmul_scalar (c ∷ z) [] y = refl
length-addmul_scalar (c ∷ z) (a ∷ x) y = ap suc (length-addmul_scalar z x y)

length-addmul : (z x : Bytes) (y : ℕ) → length (addmul z x y) ≡ length z
unfolding addmul
length-addmul z x y = ground (arith, length-addmul_scalar z x y)

length-parity_loop :
    (ss : ℕ) (stripe row : Bytes) (js : List ℕ) (out : Bytes)
    → length (parity_loop ss stripe row js out) ≡ length out
unfolding parity_loop
length-parity_loop ss stripe row [] out = refl
length-parity_loop ss stripe row (j ∷ js) out =
    length-parity_loop ss stripe row js (addmul out (chunk ss j stripe) (at j row))
    ∙ length-addmul out (chunk ss j stripe) (at j row)

pub length-encode_share_unchecked :
    (rs : ReedSolomon) (stripe : Bytes) (i : ℕ)
    → length stripe ≡ rs.k * rs.share_size
    → length (encode_share_unchecked rs stripe i) ≡ rs.share_size
unfolding encode_share_unchecked
length-encode_share_unchecked rs stripe i l = elim (dec_lt i rs.k) [
  | yes b ↦
      let here : ltb i rs.k ≡ true = ground arith in
      rw here (length-chunk rs.k rs.share_size i stripe l b)
  | no b ↦
      let out : ltb i rs.k ≡ false = ground (arith, b) in
      rw out (
        length-parity_loop rs.share_size stripe (row_at i rs.enc_matrix) (range 0 rs.k)
          (replicate rs.share_size 0)
        ∙ length-replicate rs.share_size 0)
]

pub encode_stripe_into-blank :
    (rs : ReedSolomon) (stripe : Bytes)
    → length stripe ≡ rs.k * rs.share_size
    → encode_stripe_into rs stripe (replicate rs.n (replicate rs.share_size 0))
      ≡ ok (map (encode_share_unchecked rs stripe) (range 0 rs.n))
encode_stripe_into-blank rs stripe l = unfold encode_stripe in encode_stripe-total rs stripe l

check_indexes-ok :
    (rs : ReedSolomon) (start count : ℕ)
    → start + count ≤ rs.n
    → check_indexes rs (range start count) ≡ ok tt
unfolding check_indexes
check_indexes-ok rs start zero h = refl
check_indexes-ok rs start (suc count) h =
    ground (arith, check_indexes-ok rs (suc start) count (omega arith))

ascending_indexes : (start count : ℕ) → AscendFrom start (map (λ i. (i, [])) (range start count))
ascending_indexes start zero = tt
ascending_indexes start (suc count) = (omega arith, ascending_indexes (suc start) count)

indexes_back :
    (start count : ℕ)
    → map (λ (s : Share). s.0) (map (λ i. (i, [])) (range start count)) ≡ range start count
indexes_back start zero = refl
indexes_back start (suc count) = ap (◌∷◌ start) (indexes_back (suc start) count)

-- For the data shares in their order, the plan is the identity.
pub decode_plan-data :
    (rs : ReedSolomon) → rs.k ≤ rs.n → decode_plan rs (range 0 rs.k) ≡ ok (data_plan rs)
unfolding decode_plan
decode_plan-data rs l =
    let n : length (range 0 rs.k) ≡ rs.k = length-range 0 rs.k in
    let enough : ltb (length (range 0 rs.k)) rs.k ≡ false = ground (arith, n) in
    let ascending = ascending_indexes 0 rs.k in
    let shares : List Share = map (λ i. (i, [])) (range 0 rs.k) in
    rw (enough, decode_plan)
      (rw (check_indexes-ok rs 0 rs.k (omega arith)) (
        rw (sort_shares-ascending 0 shares ascending) (
          rw (check_unique-ascending 0 shares ascending) (
            rw (indexes_back 0 rs.k) (
              plan_from_sorted-data rs (range 0 rs.k) (omega (arith, n))
                (λ j b. nth-range 0 0 rs.k j b ∙ omega arith))))))

or_false : (a b : Bool) → (a || b) ≡ false → (a ≡ false) × (b ≡ false)
or_false true b h = absurd (ground (arith, h))
or_false false b h = (refl, h)

positive : (k : ℕ) → (k == 0) ≡ false → 0 < k
positive k h = ground (arith, h)

pub at_most : (n k : ℕ) → ltb n k ≡ false → k ≤ n
at_most n k h = ground (arith, h)

pub new_codec_inv :
    (k n ss : ℕ) (codec : ReedSolomon)
    → new_codec k n ss ≡ ok codec
    → (0 < k)
      × (0 < ss)
      × (k ≤ n)
      × (n ≤ 256)
      × (codec.k ≡ k)
      × (codec.n ≡ n)
      × (codec.share_size ≡ ss)
unfolding new_codec
new_codec_inv k n ss codec h = elim (Bool-cases (k == 0 || ss == 0 || ltb n k || ltb 256 n)) [
  | inl bad ↦ absurd (let h' = rw bad at h in cc)
  | inr fine ↦
      let made : record { k = k; n = n; share_size = ss; enc_matrix = build_enc_matrix k n }
          ≡ codec =
        ok_injective _ codec (rw fine at h) in
      let (t, most) = or_false _ (ltb 256 n) fine in
      let (u, order) = or_false _ (ltb n k) t in
      let (some_k, some_ss) = or_false (k == 0) (ss == 0) u in
      (
        positive k some_k,
        positive ss some_ss,
        at_most n k order,
        at_most 256 n most,
        sym (ap (λ (c : ReedSolomon). c.k) made),
        sym (ap (λ (c : ReedSolomon). c.n) made),
        sym (ap (λ (c : ReedSolomon). c.share_size) made),
      )
]
