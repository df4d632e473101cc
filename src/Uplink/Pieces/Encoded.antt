-- ===== src/Uplink/Pieces/Encoded.antt =====
-- What `encode_pieces` writes: piece by piece, the shares of the stripes one after another.
use native.Mathlib.Nat.{mul-le-mul, mul-le-mul_left, mul-div_cancel}
use storj_uplink.Common.Arrays.{range}
use storj_uplink.Encryption.Pad.{pad, unpad}
use storj_uplink.Encryption.Pad.RoundTrip.{unpad-pad}
use storj_uplink.Ec.Codec.{ReedSolomon, new_codec, concat, encode_share_unchecked}
use storj_uplink.Ec.Codec.Shares.{
  length-encode_share_unchecked, encode_stripe_into-blank, new_codec_inv, at_most,
}
use storj_uplink.Uplink.Error.{encryption, ec}
use storj_uplink.Uplink.Pieces.{
  Redundancy, stripe_size, slot, put, put_all, stripes, encode_loop, encode_pieces,
}
use storj_uplink.Uplink.Pieces.Stripes.{AreStripes, stripes-AreStripes}
use storj_uplink.Common.{
  ℕ, zero, suc, ◌+◌, ◌-◌, ◌*◌, ◌/◌, ◌≤◌, ◌<◌, ◌≡◌, inl, inr, refl, sym, ap, ◌∙◌, arith, false, List,
  [], ◌∷◌, ◌++◌, map, ltb, ◌==◌, if◌then◌else◌, Bool-cases, Result, ok, err, map_err, >>=-eq-ok,
  ok_injective, Bytes, length, take, drop, replicate, All, length-append, length-replicate,
}

-- The shares of an index, of all stripes.
abbrev pub piece_of : ReedSolomon → List Bytes → ℕ → Bytes
piece_of codec chunks i = concat (map (λ c. encode_share_unchecked codec c i) chunks)

pub take_front : (n : ℕ) (xs ys : Bytes) → length xs ≡ n → take n (xs ++ ys) ≡ xs
take_front zero [] ys h = refl
take_front zero (x ∷ xs) ys h = absurd (omega arith)
take_front (suc n) [] ys h = absurd (omega arith)
take_front (suc n) (x ∷ xs) ys h = ap (◌∷◌ x) (take_front n xs ys (omega arith))

drop_front : (n : ℕ) (xs ys : Bytes) → length xs ≡ n → drop n (xs ++ ys) ≡ ys
drop_front zero [] ys h = refl
drop_front zero (x ∷ xs) ys h = absurd (omega arith)
drop_front (suc n) [] ys h = absurd (omega arith)
drop_front (suc n) (x ∷ xs) ys h = drop_front n xs ys (omega arith)

-- The slot behind what is written.
pub slot-front :
    (off ss : ℕ) (front share rest : Bytes)
    → length front ≡ off
    → length share ≡ ss
    → slot off ss (front ++ (share ++ rest)) ≡ share
slot-front off ss front share rest f s =
    rw (drop_front off front (share ++ rest) f) (take_front ss share rest s)

replicate_plus : (a b : ℕ) → replicate {A = ℕ} (a + b) 0 ≡ replicate a 0 ++ replicate b 0
replicate_plus zero b = ap (λ (n : ℕ). replicate n 0) (omega arith)
replicate_plus (suc a) b =
    let e : suc a + b ≡ suc (a + b) = omega arith in rw e (ap (◌∷◌ 0) (replicate_plus a b))

pub append_assoc : (a b c : Bytes) → (a ++ b) ++ c ≡ a ++ (b ++ c)
append_assoc [] b c = refl
append_assoc (x ∷ a) b c = ap (◌∷◌ x) (append_assoc a b c)

put-front :
    (off : ℕ) (front share blank rest : Bytes)
    → length front ≡ off
    → length blank ≡ length share
    → put off share (front ++ (blank ++ rest)) ≡ (front ++ share) ++ rest
unfolding put
put-front off front share blank rest f s =
    let e : front ++ (blank ++ rest) ≡ (front ++ blank) ++ rest =
      sym (append_assoc front blank rest) in
    let n : length (front ++ blank) ≡ off + length share =
      omega (arith, length-append front blank) in
    rw (take_front off front (blank ++ rest) f) (
      rw e (
        rw (drop_front (off + length share) (front ++ blank) rest n)
          (sym (append_assoc front share rest))))

put_all-range :
    (off : ℕ) (f g : ℕ → Bytes) (start count : ℕ)
    → put_all off (map f (range start count)) (map g (range start count))
      ≡ map (λ i. put off (f i) (g i)) (range start count)
unfolding put_all
put_all-range off f g start zero = refl
put_all-range off f g start (suc count) =
    ap (◌∷◌ (put off (f start) (g start))) (put_all-range off f g (suc start) count)

pub map_same :
    (f g : ℕ → Bytes) (start count : ℕ)
    → ((i : ℕ) → f i ≡ g i)
    → map f (range start count) ≡ map g (range start count)
map_same f g start zero h = refl
map_same f g start (suc count) h =
    ap (λ (x : Bytes). x ∷ map f (range (suc start) count)) (h start)
    ∙ ap (◌∷◌ (g start)) (map_same f g (suc start) count h)

map_constant :
    (f : ℕ → Bytes) (b : Bytes) (start count : ℕ)
    → ((i : ℕ) → f i ≡ b)
    → map f (range start count) ≡ replicate count b
map_constant f b start zero h = refl
map_constant f b start (suc count) h =
    ap (λ (x : Bytes). x ∷ map f (range (suc start) count)) (h start)
    ∙ ap (◌∷◌ b) (map_constant f b (suc start) count h)

pub map-range_twice :
    (f : Bytes → Bytes) (g : ℕ → Bytes) (start count : ℕ)
    → map f (map g (range start count)) ≡ map (λ i. f (g i)) (range start count)
map-range_twice f g start zero = refl
map-range_twice f g start (suc count) =
    ap (◌∷◌ (f (g start))) (map-range_twice f g (suc start) count)

-- Buffers with a written front of one length and room for the stripes that are left.
encode_loop_lem :
    (codec : ReedSolomon) (chunks : List Bytes) (off : ℕ) (front : ℕ → Bytes)
    → ((i : ℕ) → length (front i) ≡ off)
    → All (λ c. length c ≡ codec.k * codec.share_size) chunks
    → encode_loop codec off chunks
        (map (λ i. front i ++ replicate (length chunks * codec.share_size) 0) (range 0 codec.n))
      ≡ ok (map (λ i. front i ++ piece_of codec chunks i) (range 0 codec.n))
unfolding encode_loop concat
encode_loop_lem codec [] off front h a = let e : 0 * codec.share_size ≡ 0 = omega arith in rw e refl
encode_loop_lem codec (c ∷ chunks) off front h a =
    let ss = codec.share_size in
    let share = encode_share_unchecked codec c in
    let more = length chunks * ss in
    let e : suc (length chunks) * ss ≡ ss + more = omega arith in
    let blank : Bytes = replicate ss 0 in
    let split : replicate (suc (length chunks) * ss) 0 ≡ blank ++ replicate more 0 =
      rw e (replicate_plus ss more) in
    let size_of = λ (i : ℕ). length-encode_share_unchecked codec c i a.0 in
    let buffers = λ (i : ℕ). front i ++ (blank ++ replicate more 0) in
    let slots : map (slot off ss) (map buffers (range 0 codec.n)) ≡ replicate codec.n blank =
      map-range_twice (slot off ss) buffers 0 codec.n
      ∙ map_constant (λ i. slot off ss (buffers i)) blank 0 codec.n
          (λ i.
            slot-front off ss (front i) blank (replicate more 0) (h i) (length-replicate ss 0)) in
    let written : put_all off (map share (range 0 codec.n)) (map buffers (range 0 codec.n))
        ≡ map (λ i. (front i ++ share i) ++ replicate more 0) (range 0 codec.n) =
      put_all-range off share buffers 0 codec.n
      ∙ map_same (λ i. put off (share i) (buffers i))
          (λ i. (front i ++ share i) ++ replicate more 0) 0 codec.n
          (λ i.
            put-front off (front i) (share i) blank (replicate more 0) (h i)
              (length-replicate ss 0 ∙ sym (size_of i))) in
    let rest =
      encode_loop_lem codec chunks (off + ss) (λ i. front i ++ share i)
        (λ i. length-append (front i) (share i) ∙ omega (arith, h i, size_of i)) a.1 in
    rw split (
      rw slots (
        rw (encode_stripe_into-blank codec c a.0) (
          rw written (
            rest
            ∙ ap ok (
                map_same (λ i. (front i ++ share i) ++ piece_of codec chunks i)
                  (λ i. front i ++ (share i ++ piece_of codec chunks i)) 0 codec.n
                  (λ i. append_assoc (front i) (share i) (piece_of codec chunks i)))))))

pub map_err-ok {ℓ} :
    {E F : Type 0} {A : Type ℓ} (f : E → F) (r : Result E A) (a : A) → map_err f r ≡ ok a → r ≡ ok a
map_err-ok f (ok b) a h = ap ok (ok_injective b a h)
map_err-ok f (err e) a h = absurd (cc)

unpad_long : (padded bytes : Bytes) → unpad padded ≡ ok bytes → 4 ≤ length padded
unfolding unpad
unpad_long padded bytes h = elim (Bool-cases (ltb (length padded) 4)) [
  | inl short ↦ absurd (let h' = rw short at h in cc)
  | inr long ↦ omega (arith, at_most (length padded) 4 long)
]

-- The padded segment, its codec and its number of stripes.
pub record IsEncoded (rs : Redundancy) (encrypted : Bytes) (pieces : List Bytes) : Type 0 where
  pub padded : Bytes
  pub codec : ReedSolomon
  pub count : ℕ
  pub padding : pad encrypted (rs.k * rs.share_size) ≡ ok padded
  pub made : new_codec rs.k rs.n rs.share_size ≡ ok codec
  pub striped :
      AreStripes
        (rs.k * rs.share_size)
        count
        padded
        (stripes (length padded) (rs.k * rs.share_size) padded)
  pub written :
      pieces
      ≡ map (piece_of codec (stripes (length padded) (rs.k * rs.share_size) padded)) (range 0 rs.n)
  pub counted : count ≡ (length encrypted + 4 + rs.k * rs.share_size - 1) / (rs.k * rs.share_size)

encode_loop-blank :
    (codec : ReedSolomon) (chunks : List Bytes)
    → All (λ c. length c ≡ codec.k * codec.share_size) chunks
    → encode_loop codec 0 chunks
        (replicate codec.n (replicate (length chunks * codec.share_size) 0))
      ≡ ok (map (piece_of codec chunks) (range 0 codec.n))
encode_loop-blank codec chunks a =
    let blank : Bytes = replicate (length chunks * codec.share_size) 0 in
    let buffers = map_constant (λ i. blank) blank 0 codec.n (λ i. refl) in
    rw (sym buffers) (encode_loop_lem codec chunks 0 (λ i. []) (λ i. refl) a)

encode_loop_started :
    (codec : ReedSolomon) (k n ss m : ℕ) (chunks : List Bytes)
    → codec.k ≡ k
    → codec.n ≡ n
    → codec.share_size ≡ ss
    → All (λ c. length c ≡ k * ss) chunks
    → m ≡ length chunks
    → encode_loop codec 0 chunks (replicate n (replicate (m * ss) 0))
      ≡ ok (map (piece_of codec chunks) (range 0 n))
encode_loop_started codec k n ss m chunks ek en es a e =
    let full : All (λ c. length c ≡ codec.k * codec.share_size) chunks = rw ek (rw es a) in
    rw e (rw (sym en) (rw (sym es) (encode_loop-blank codec chunks full)))

not_empty : (n : ℕ) → 4 ≤ n → (n == 0) ≡ false
not_empty n h = ground arith

IsEncoded-by :
    (rs : Redundancy) (encrypted padded : Bytes) (codec : ReedSolomon) (pieces : List Bytes)
    → pad encrypted (rs.k * rs.share_size) ≡ ok padded
    → new_codec rs.k rs.n rs.share_size ≡ ok codec
    → (if length padded == 0
        then ok (replicate rs.n [])
        else encode_loop codec 0
            (stripes (length padded) (rs.k * rs.share_size) padded)
            (replicate rs.n (replicate (length padded / (rs.k * rs.share_size) * rs.share_size) 0)))
      ≡ ok pieces
    → IsEncoded rs encrypted pieces
IsEncoded-by rs encrypted padded codec pieces padding made h =
    let stripe = rs.k * rs.share_size in
    let (some_k, some_ss, order, most, ek, en, es) =
      new_codec_inv rs.k rs.n rs.share_size codec made in
    let count = (length encrypted + 4 + stripe - 1) / stripe in
    let (opens, size) = unpad-pad encrypted padded stripe padding in
    let wide : 0 < stripe = mul-le-mul {n₁ = 1} {m₁ = 1} some_k some_ss in
    let product : length padded ≡ count * stripe = size ∙ omega arith in
    let fuel : count ≤ length padded = omega (arith, product, mul-le-mul_left count wide) in
    let chunks = stripes (length padded) stripe padded in
    let striped = stripes-AreStripes (length padded) stripe count padded wide product fuel in
    let n_stripes : length padded / stripe ≡ length chunks =
      ap (λ (n : ℕ). n / stripe) product ∙ mul-div_cancel count wide ∙ sym striped.number in
    let h' = rw (not_empty (length padded) (unpad_long padded encrypted opens)) at h in
    let looped =
      encode_loop_started codec rs.k rs.n rs.share_size (length padded / stripe) chunks ek en es
        striped.all n_stripes in
    record {
      padded = padded;
      codec = codec;
      count = count;
      padding = padding;
      made = made;
      striped = striped;
      written = ok_injective pieces _ (sym h' ∙ looped);
      counted = refl;
    }

pub encode_pieces-IsEncoded :
    (rs : Redundancy) (encrypted : Bytes) (pieces : List Bytes)
    → encode_pieces encrypted rs ≡ ok pieces
    → IsEncoded rs encrypted pieces
unfolding encode_pieces stripe_size
encode_pieces-IsEncoded rs encrypted pieces h =
    let stripe = rs.k * rs.share_size in
    let (padded, p, h1) = >>=-eq-ok (map_err encryption (pad encrypted stripe)) _ h in
    let (codec, c, h2) = >>=-eq-ok (map_err ec (new_codec rs.k rs.n rs.share_size)) _ h1 in
    IsEncoded-by rs encrypted padded codec pieces
      (map_err-ok encryption (pad encrypted stripe) padded p)
      (map_err-ok ec (new_codec rs.k rs.n rs.share_size) codec c) h2
