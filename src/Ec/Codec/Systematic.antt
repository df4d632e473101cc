-- ===== src/Ec/Codec/Systematic.antt =====
-- The code is systematic: the first shares are the stripe, and they alone give it back.
use storj_uplink.Common.Arrays.{range, nth-append_left, length-range, nth-range}
use storj_uplink.Ec.Codec.{
  ReedSolomon, Share, chunk, encode_share_unchecked, encode_stripe, concat, find_share, rebuild,
  decode_from, decode_stripe,
}
use storj_uplink.Ec.Codec.Chunks.{concat-chunks, length-chunk}
use storj_uplink.Ec.Codec.Plan.{
  AscendFrom, AreShares, sort_shares-ascending, check_unique-ascending, check_shares-ok,
  present_lem, present-data, plan_from_sorted-data,
}
use storj_uplink.Common.{
  ℕ, zero, suc, ◌+◌, ◌-◌, ◌*◌, ◌≤◌, ◌<◌, ◌≡◌, refl, ap, ◌∙◌, arith, true, false, List, ◌∷◌, ◌++◌,
  map, Option, some, ltb, ◌==◌, ok, Bytes, length, take, All, length-append, length-map, ℕ_discrete,
}
use storj_uplink.Ec.Codec.Identity.{encode_stripe-total, decode_into-identity}

pub keys-map :
    (piece : ℕ → Bytes) (start count : ℕ) (others : List Share)
    → map (λ s. s.0) (map (λ i. (i, piece i)) (range start count) ++ others)
      ≡ range start count ++ map (λ s. s.0) others
keys-map piece start zero others = refl
keys-map piece start (suc count) others = ap (◌∷◌ start) (keys-map piece (suc start) count others)

-- A share of the data is found under its index.
find_share-data :
    (piece : ℕ → Bytes) (start count id : ℕ) (others : List Share)
    → start ≤ id
    → id < start + count
    → find_share (map (λ i. (i, piece i)) (range start count) ++ others) id ≡ piece id
unfolding find_share
find_share-data piece start zero id others l h = absurd (omega arith)
find_share-data piece start (suc count) id others l h = elim (ℕ_discrete start id) [
  | yes e ↦ rw e (let same : (id == id) ≡ true = ground arith in rw same refl)
  | no e ↦
      let differ : (start == id) ≡ false = ground (arith, e) in
      rw differ (find_share-data piece (suc start) count id others (omega arith) (omega arith))
]

pub map-range_ext :
    (f g : ℕ → Bytes) (start count : ℕ)
    → ((i : ℕ) → start ≤ i → i < start + count → f i ≡ g i)
    → map f (range start count) ≡ map g (range start count)
map-range_ext f g start zero h = refl
map-range_ext f g start (suc count) h =
    ap (λ (x : Bytes). x ∷ map f (range (suc start) count)) (h start (omega arith) (omega arith))
    ∙ ap (◌∷◌ (g start))
        (map-range_ext f g (suc start) count (λ i a b. h i (omega arith) (omega arith)))

pub sizes_of :
    (piece : ℕ → Bytes) (ss start count : ℕ)
    → ((i : ℕ) → i < start + count → length (piece i) ≡ ss)
    → All (λ s. length s ≡ ss) (map piece (range start count))
sizes_of piece ss start zero h = tt
sizes_of piece ss start (suc count) h =
    (h start (omega arith), sizes_of piece ss (suc start) count (λ i b. h i (omega arith)))

-- Data shares in their order and then others are rebuilt to the data.
rebuild-data :
    (rs : ReedSolomon) (piece : ℕ → Bytes) (others : List Share)
    → ((i : ℕ) → i < rs.k → length (piece i) ≡ rs.share_size)
    → rebuild rs (map (λ i. (i, piece i)) (range 0 rs.k) ++ others)
      ≡ ok (concat (map piece (range 0 rs.k)))
unfolding rebuild
rebuild-data rs piece others h =
    let shares = map (λ i. (i, piece i)) (range 0 rs.k) ++ others in
    let keys = keys-map piece 0 rs.k others in
    let ids = range 0 rs.k ++ map (λ s. s.0) others in
    let n = length-range 0 rs.k in
    let plan =
      plan_from_sorted-data rs ids
        (omega (arith, length-append (range 0 rs.k) (map (λ (s : Share). s.0) others)))
        (λ j b.
          nth-append_left 0 j (range 0 rs.k) (map (λ s. s.0) others) (omega arith)
          ∙ nth-range 0 0 rs.k j b
          ∙ omega arith) in
    let found : map (find_share shares) (range 0 rs.k) ≡ map piece (range 0 rs.k) =
      map-range_ext (find_share shares) piece 0 rs.k
        (λ i a b. find_share-data piece 0 rs.k i others (omega arith) b) in
    rw (keys, rebuild)
      (rw plan (
        rw found (
          decode_into-identity rs (map piece (range 0 rs.k)) (length-map (range 0 rs.k) piece ∙ n)
            (sizes_of piece rs.share_size 0 rs.k (λ i b. h i (omega arith))))))

pub data-AscendFrom :
    (piece : ℕ → Bytes) (start count : ℕ) (others : List Share)
    → AscendFrom (start + count) others
    → AscendFrom start (map (λ i. (i, piece i)) (range start count) ++ others)
data-AscendFrom piece start zero others h = let e : start + 0 ≡ start = omega arith in rw e at h
data-AscendFrom piece start (suc count) others h =
    let e : start + suc count ≡ suc start + count = omega arith in
    (omega arith, data-AscendFrom piece (suc start) count others (rw e at h))

data-AreShares :
    (rs : ReedSolomon) (piece : ℕ → Bytes) (start count : ℕ) (others : List Share)
    → start + count ≤ rs.n
    → ((i : ℕ) → i < start + count → length (piece i) ≡ rs.share_size)
    → AreShares rs others
    → AreShares rs (map (λ i. (i, piece i)) (range start count) ++ others)
data-AreShares rs piece start zero others l h o = o
data-AreShares rs piece start (suc count) others l h o = (
  (omega arith, h start (omega arith)),
  data-AreShares rs piece (suc start) count others (omega arith) (λ i b. h i (omega arith)) o,
)

decode_from-data :
    (rs : ReedSolomon) (piece : ℕ → Bytes) (others : List Share)
    → rs.k ≤ rs.n
    → ((i : ℕ) → i < rs.k → length (piece i) ≡ rs.share_size)
    → AscendFrom rs.k others
    → AreShares rs others
    → decode_from rs (map (λ i. (i, piece i)) (range 0 rs.k) ++ others)
      ≡ ok (concat (map piece (range 0 rs.k)))
unfolding decode_from
decode_from-data rs piece others l h asc are =
    let shares = map (λ i. (i, piece i)) (range 0 rs.k) ++ others in
    let zero_plus : 0 + rs.k ≡ rs.k = omega arith in
    let ascending = data-AscendFrom piece 0 rs.k others (rw zero_plus asc) in
    let sized =
      data-AreShares rs piece 0 rs.k others (omega arith) (λ i b. h i (omega arith)) are in
    let n : length {A = Share} (map (λ i. (i, piece i)) (range 0 rs.k)) ≡ rs.k =
      length-map (range 0 rs.k) (λ i. (i, piece i)) ∙ length-range 0 rs.k in
    let enough : ltb (length shares) rs.k ≡ false =
      ground (arith, n, length-append (map (λ i. (i, piece i)) (range 0 rs.k)) others) in
    rw (enough, decode_from)
      (rw (check_shares-ok rs shares sized) (
        rw (sort_shares-ascending 0 shares ascending)
          (rw (check_unique-ascending 0 shares ascending) (rebuild-data rs piece others h))))

abbrev pub AreSized : ReedSolomon → List (Option Bytes) → Type 0
AreSized rs = All (λ o. (d : Bytes) → o ≡ some d → length d ≡ rs.share_size)

decode_stripe-data :
    (rs : ReedSolomon) (piece : ℕ → Bytes) (slots : List (Option Bytes))
    → rs.k + length slots ≡ rs.n
    → ((i : ℕ) → i < rs.k → length (piece i) ≡ rs.share_size)
    → AreSized rs slots
    → decode_stripe rs (map (λ i. some (piece i)) (range 0 rs.k) ++ slots)
      ≡ ok (concat (map piece (range 0 rs.k)))
unfolding decode_stripe
decode_stripe-data rs piece slots l h s =
    let (others, e, asc, are) = present_lem rs rs.k slots s (omega arith) in
    let zero_plus : 0 + rs.k ≡ rs.k = omega arith in
    let collected =
      present-data rs 0 rs.k piece slots others (λ i b. h i (omega arith)) (rw zero_plus e) in
    let n : length (map (λ i. some (piece i)) (range 0 rs.k)) ≡ rs.k =
      length-map (range 0 rs.k) (λ i. some (piece i)) ∙ length-range 0 rs.k in
    let full : (length (map (λ i. some (piece i)) (range 0 rs.k) ++ slots) == rs.n) ≡ true =
      ground (arith, n, length-append (map (λ i. some (piece i)) (range 0 rs.k)) slots) in
    rw (full, decode_stripe)
      (rw collected (decode_from-data rs piece others (omega arith) h asc are))

data_front_from :
    (rs : ReedSolomon) (stripe : Bytes) (start count more : ℕ)
    → start + count ≤ rs.k
    → map some (take count (map (encode_share_unchecked rs stripe) (range start (count + more))))
      ≡ map (λ i. some (chunk rs.share_size i stripe)) (range start count)
data_front_from rs stripe start zero more l = refl
data_front_from rs stripe start (suc count) more l =
    let e : suc count + more ≡ suc (count + more) = omega arith in
    let is_data : encode_share_unchecked rs stripe start ≡ chunk rs.share_size start stripe =
      (let below : ltb start rs.k ≡ true = ground arith in
        unfold encode_share_unchecked in rw below refl) in
    rw e (
      rw is_data (
        ap (◌∷◌ (some (chunk rs.share_size start stripe)))
          (data_front_from rs stripe (suc start) count more (omega arith))))

data_front :
    (rs : ReedSolomon) (stripe : Bytes) (n : ℕ)
    → rs.k ≤ n
    → map some (take rs.k (map (encode_share_unchecked rs stripe) (range 0 n)))
      ≡ map (λ i. some (chunk rs.share_size i stripe)) (range 0 rs.k)
data_front rs stripe n l =
    let e : n ≡ rs.k + (n - rs.k) = omega arith in
    rw e (data_front_from rs stripe 0 rs.k (n - rs.k) (omega arith))

-- A stripe of `k` times the share size is encoded into `n` shares. From the first `k` of them, and
-- whatever stands in the other slots, missing or of the right size, `decode_stripe` gives the
-- stripe back.
pub decode_stripe-encode_stripe :
    (rs : ReedSolomon) (stripe : Bytes) (slots : List (Option Bytes))
    → length stripe ≡ rs.k * rs.share_size
    → rs.k + length slots ≡ rs.n
    → AreSized rs slots
    → (shares : List Bytes) × (encode_stripe rs stripe ≡ ok shares)
      × (length shares ≡ rs.n)
      × (decode_stripe rs (map some (take rs.k shares) ++ slots) ≡ ok stripe)
decode_stripe-encode_stripe rs stripe slots l n s =
    let shares = map (encode_share_unchecked rs stripe) (range 0 rs.n) in
    let piece = λ (i : ℕ). chunk rs.share_size i stripe in
    let front : map some (take rs.k shares) ≡ map (λ i. some (piece i)) (range 0 rs.k) =
      data_front rs stripe rs.n (omega arith) in
    (
      shares,
      encode_stripe-total rs stripe l,
      length-map (range 0 rs.n) (encode_share_unchecked rs stripe) ∙ length-range 0 rs.n,
      rw front (
          decode_stripe-data rs piece slots n (λ i b. length-chunk rs.k rs.share_size i stripe l b)
            s
          ∙ ap ok (concat-chunks rs.k rs.share_size stripe l)),
    )
