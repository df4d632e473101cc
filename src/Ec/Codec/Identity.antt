-- ===== src/Ec/Codec/Identity.antt =====
-- Encoding into blank buffers, and decoding under the plan that keeps every data share in its slot.
use storj_uplink.Common.Arrays.{
  nth, set, range, length-set, nth-set_same, nth-set_other, list_ext, nth-range,
}
use storj_uplink.Ec.Codec.{
  ReedSolomon, DecodePlan, codec_stripe_size, check_stripe, encode_share_unchecked,
  encode_into_loop, encode_stripe_into, encode_stripe, check_sizes, decode_loop, concat,
  decode_into,
}
use storj_uplink.Ec.Codec.Plan.{data_plan}
use storj_uplink.Common.{
  ℕ, zero, suc, ◌+◌, ◌*◌, ◌<◌, ◌≡◌, refl, sym, ap, ◌∙◌, arith, true, List, [], ◌∷◌, map, ltb, ◌==◌,
  ==_iff, ok, Bytes, length, replicate, All, length-append, length-replicate, ℕ_discrete,
}

encode_into_loop-buffers :
    (rs : ReedSolomon) (stripe : Bytes) (start count : ℕ)
    → encode_into_loop rs stripe start (replicate count (replicate rs.share_size 0))
      ≡ ok (map (encode_share_unchecked rs stripe) (range start count))
unfolding encode_into_loop
encode_into_loop-buffers rs stripe start zero = refl
encode_into_loop-buffers rs stripe start (suc count) = ground (
  arith,
  length-replicate {A = ℕ} rs.share_size 0,
  encode_into_loop-buffers rs stripe (suc start) count,
)

-- A stripe of the right size is encoded, into the shares of all indices.
pub encode_stripe-total :
    (rs : ReedSolomon) (stripe : Bytes)
    → length stripe ≡ rs.k * rs.share_size
    → encode_stripe rs stripe ≡ ok (map (encode_share_unchecked rs stripe) (range 0 rs.n))
unfolding encode_stripe encode_stripe_into check_stripe codec_stripe_size
encode_stripe-total rs stripe l = ground (
  arith,
  l,
  length-replicate rs.n (replicate {A = ℕ} rs.share_size 0),
  encode_into_loop-buffers rs stripe 0 rs.n,
)

-- One more entry is written.
written :
    (start : ℕ) (shares out : List Bytes)
    → start < length out
    → ((j : ℕ) → j < start → nth [] j out ≡ nth [] j shares)
    → (j : ℕ) → j < suc start
    → nth [] j (set start (nth [] start shares) out) ≡ nth [] j shares
written start shares out l h j b = elim (ℕ_discrete start j) [
  | yes e ↦ rw (sym e) (nth-set_same [] start (nth [] start shares) out l)
  | no e ↦ nth-set_other [] start j (nth [] start shares) out e ∙ h j (omega arith)
]

-- The loop of the copies: what is written so far agrees with the shares.
decode_loop-copies :
    (plan : DecodePlan) (shares out : List Bytes) (start count : ℕ)
    → plan.indexes ≡ range 0 plan.k
    → count + start ≡ plan.k
    → length shares ≡ plan.k
    → length out ≡ plan.k
    → ((j : ℕ) → j < start → nth [] j out ≡ nth [] j shares)
    → decode_loop plan shares (range start count) out ≡ shares
unfolding decode_loop
decode_loop-copies plan shares out start zero p c ls lo h =
    list_ext [] out shares (omega arith) (λ i b. h i (omega arith))
decode_loop-copies plan shares out start (suc count) p c ls lo h =
    let id : nth 0 start plan.indexes ≡ start =
      rw p (nth-range 0 0 plan.k start (omega arith) ∙ omega arith) in
    let data_share : ltb start plan.k ≡ true = ground arith in
    let more =
      decode_loop-copies plan shares (set start (nth [] start shares) out) (suc start) count p
        (omega arith) ls (length-set start (nth [] start shares) out ∙ lo)
        (written start shares out (omega arith) h) in
    rw (id, decode_loop) (rw data_share more)

check_sizes-ok :
    (ss : ℕ) (ids : List ℕ) (shares : List Bytes)
    → All (λ s. length s ≡ ss) shares
    → check_sizes ss ids shares ≡ ok tt
unfolding check_sizes
check_sizes-ok ss ids [] h = refl
check_sizes-ok ss [] (s ∷ shares) h = refl
check_sizes-ok ss (i ∷ ids) (s ∷ shares) h = ground (arith, h.0, check_sizes-ok ss ids shares h.1)

length-concat-replicate : (k ss : ℕ) → length (concat (replicate k (replicate ss 0))) ≡ k * ss
unfolding concat
length-concat-replicate zero ss = omega arith
length-concat-replicate (suc k) ss =
    length-append (replicate ss 0) (concat (replicate k (replicate ss 0)))
    ∙ omega (arith, length-replicate {A = ℕ} ss 0, length-concat-replicate k ss)

-- Under the identity plan, shares of the right size are put together.
pub decode_into-identity :
    (rs : ReedSolomon) (shares : List Bytes)
    → length shares ≡ rs.k
    → All (λ s. length s ≡ rs.share_size) shares
    → decode_into (data_plan rs) shares (replicate rs.k (replicate rs.share_size 0))
      ≡ ok (concat shares)
unfolding decode_into
decode_into-identity rs shares l h =
    let full : (length shares == rs.k) ≡ true = ground (arith, l) in
    let blank = replicate rs.k (replicate rs.share_size 0) in
    let sized : (length (concat blank) == rs.k * rs.share_size) ≡ true =
      (==_iff (length (concat blank)) (rs.k * rs.share_size)).1
        (length-concat-replicate rs.k rs.share_size) in
    rw (full, decode_into)
      (rw (check_sizes-ok rs.share_size (range 0 rs.k) shares h) (
        rw (sized, decode_into)
          (ap (λ c. ok (concat c))
            (decode_loop-copies (data_plan rs) shares blank 0 rs.k refl (omega arith) l
              (length-replicate rs.k (replicate rs.share_size 0)) (λ j b. absurd (omega arith))))))
