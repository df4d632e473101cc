-- ===== src/Uplink/Pieces/Decoded.antt =====
-- The data pieces in their order are decoded to the padded segment.
use native.Mathlib.Nat.{mul-div_cancel, mul-mod_left}
use storj_uplink.Common.Arrays.{
  nth, set, range, length-range, length-set, nth-set_same, nth-set_other,
}
use storj_uplink.Common.Integers.{pos, i64_max}
use storj_uplink.Encryption.Pad.{pad, make_padding, unpad}
use storj_uplink.Encryption.Pad.RoundTrip.{unpad-pad}
use storj_uplink.Ec.Codec.{ReedSolomon, new_codec, concat, decode_plan}
use storj_uplink.Ec.Codec.Plan.{data_plan}
use storj_uplink.Ec.Codec.Shares.{decode_plan-data, new_codec_inv}
use storj_uplink.Uplink.Pieces.{
  Redundancy, Piece, stripes, encode_pieces, index_pieces, collect_inputs, all_sized, piece_length,
  decode_encrypted, decode_encrypted_slices,
}
use storj_uplink.Uplink.Pieces.Encoded.{take_front, piece_of, append_assoc, encode_pieces-IsEncoded}
use storj_uplink.Uplink.Pieces.Sizes.{length-piece_of}
use storj_uplink.Common.{
  ℕ, zero, suc, ◌+◌, ◌-◌, ◌*◌, ◌/◌, ◌%◌, ◌≤◌, ◌<◌, min, ◌≡◌, inl, inr, refl, sym, ap, ◌∙◌, arith,
  true, false, List, [], ◌∷◌, ◌++◌, map, Option, none, some, ltb, ◌==◌, ==_iff, Bool-cases, ok,
  >>=-eq-ok, ok_injective, Bytes, length, take, replicate, All, length-replicate, length-map,
  ℕ_discrete,
}
use storj_uplink.Uplink.Pieces.Restored.{decode_stripes_lem}

-- Pieces that come in the order of their numbers are all sorted in.
index_pieces_lem :
    (n : ℕ) (piece : ℕ → Bytes) (start count : ℕ) (by_index : List (Option Bytes))
    (available : List ℕ)
    → start + count ≤ n
    → length by_index ≡ n
    → ((j : ℕ) → start ≤ j → nth none j by_index ≡ none)
    → ((j : ℕ) → j < start → nth none j by_index ≡ some (piece j))
    → (full : List (Option Bytes)) × (index_pieces n
          (map (λ i. (pos i, piece i)) (range start count))
          by_index
          available
        ≡ (full, available ++ range start count))
      × ((j : ℕ) → j < start + count → nth none j full ≡ some (piece j))
unfolding index_pieces
index_pieces_lem n piece start zero by_index available l b free held = (
  by_index,
  ap (λ (a : List ℕ). (by_index, a)) (sym (append_nil available)),
  λ j h. held j (omega arith),
)
  where
    append_nil : (xs : List ℕ) → xs ++ [] ≡ xs
    append_nil [] = refl
    append_nil (x ∷ xs) = ap (◌∷◌ x) (append_nil xs)
index_pieces_lem n piece start (suc count) by_index available l b free held =
    let here : nth none start by_index ≡ none = free start (omega arith) in
    let small : ltb start n ≡ true = ground arith in
    let next = set start (some (piece start)) by_index in
    let (full, e, all) =
      index_pieces_lem n piece (suc start) count next (available ++ start ∷ []) (omega arith)
        (length-set start (some (piece start)) by_index ∙ b)
        (λ j h.
          nth-set_other none start j (some (piece start)) by_index (omega arith)
          ∙ free j (omega arith))
        (λ j h. elim (ℕ_discrete start j) [
          | yes q ↦ rw (sym q) (nth-set_same none start (some (piece start)) by_index (omega arith))
          | no q ↦ nth-set_other none start j (some (piece start)) by_index q ∙ held j (omega arith)
        ]) in
    (
      full,
      rw (small, index_pieces)
          (rw here (
            e
            ∙ ap (λ (a : List ℕ). (full, a))
                (append_assoc available (start ∷ []) (range (suc start) count)))),
      λ j h. all j (omega arith),
    )

collect_inputs_lem :
    (full : List (Option Bytes)) (piece : ℕ → Bytes) (start count : ℕ)
    → ((j : ℕ) → j < start + count → nth none j full ≡ some (piece j))
    → collect_inputs full (range start count) ≡ ok (map piece (range start count))
unfolding collect_inputs
collect_inputs_lem full piece start zero h = refl
collect_inputs_lem full piece start (suc count) h =
    rw (h start (omega arith))
      (rw (collect_inputs_lem full piece (suc start) count (λ j b. h j (omega arith))) refl)

-- Pieces with their numbers, from one on.
abbrev pub numbered : ℕ → List Bytes → List Piece
numbered start [] = []
numbered start (p ∷ pieces) = (pos start, p) ∷ numbered (suc start) pieces

take-numbered :
    (piece : ℕ → Bytes) (start k n : ℕ)
    → k ≤ n
    → take k (numbered start (map piece (range start n)))
      ≡ map (λ i. (pos i, piece i)) (range start k)
take-numbered piece start zero n h = refl
take-numbered piece start (suc k) zero h = absurd (omega arith)
take-numbered piece start (suc k) (suc n) h =
    ap (◌∷◌ (pos start, piece start)) (take-numbered piece (suc start) k n (omega arith))

piece_length_lem :
    (piece : ℕ → Bytes) (k size : ℕ)
    → 0 < k
    → ((i : ℕ) → length (piece i) ≡ size)
    → piece_length (map (λ i. (pos i, piece i)) (range 0 k)) ≡ size
unfolding piece_length
piece_length_lem piece zero size h e = absurd (omega arith)
piece_length_lem piece (suc k) size h e = e 0

all_sized_lem :
    (piece : ℕ → Bytes) (start k size : ℕ)
    → ((i : ℕ) → length (piece i) ≡ size)
    → all_sized size (map (λ i. (pos i, piece i)) (range start k)) ≡ true
unfolding all_sized
all_sized_lem piece start zero size e = refl
all_sized_lem piece start (suc k) size e =
    let same : (length (piece start) == size) ≡ true =
      (==_iff (length (piece start)) size).1 (e start) in
    rw same (all_sized_lem piece (suc start) k size e)

-- The guards of `decode_encrypted_slices` let the data pieces through.
decode_data :
    (rs : Redundancy) (codec : ReedSolomon) (cs : List Bytes)
    → new_codec rs.k rs.n rs.share_size ≡ ok codec
    → All (λ c. length c ≡ codec.k * codec.share_size) cs
    → decode_encrypted (map (λ i. (pos i, piece_of codec cs i)) (range 0 rs.k)) rs ≡ ok (concat cs)
unfolding decode_encrypted decode_encrypted_slices
decode_data rs codec cs made a =
    let (some_k, some_ss, order, most, ek, en, es) =
      new_codec_inv rs.k rs.n rs.share_size codec made in
    let piece = piece_of codec cs in
    let count = length cs in
    let shares : List Piece = map (λ i. (pos i, piece i)) (range 0 rs.k) in
    let size_of : (i : ℕ) → length (piece i) ≡ count * rs.share_size =
      λ i. length-piece_of codec cs i a ∙ rw es refl in
    let first = piece_length_lem piece rs.k (count * rs.share_size) some_k size_of in
    let n : length shares ≡ rs.k =
      length-map (range 0 rs.k) (λ i. (pos i, piece i)) ∙ length-range 0 rs.k in
    let enough : ltb (length shares) rs.k ≡ false = enough_test (length shares) rs.k n in
    let share_test : (rs.share_size == 0) ≡ false = positive_test rs.share_size some_ss in
    let multiple : (count * rs.share_size % rs.share_size == 0) ≡ true =
      (==_iff (count * rs.share_size % rs.share_size) 0).1 (mul-mod_left count rs.share_size) in
    let total : count * rs.share_size / rs.share_size ≡ count = mul-div_cancel count some_ss in
    let start_test : ltb count 0 ≡ false = not_below_zero count in
    let number : min (count - 0) (count - 0) ≡ count = omega arith in
    let (full, sorted_in, each) =
      index_pieces_lem rs.n piece 0 rs.k (replicate rs.n none) [] (omega arith)
        (length-replicate rs.n none) (λ j h. nth_none rs.n j) (λ j h. absurd (omega arith)) in
    let plan : decode_plan codec (range 0 rs.k) ≡ ok (data_plan codec) =
      rw (sym ek) (decode_plan-data codec (rw ek (rw en order))) in
    let inputs = collect_inputs_lem full piece 0 codec.k (λ j h. each j (omega (arith, ek))) in
    let stripes_back = decode_stripes_lem codec cs 0 (λ i. []) (λ i. omega arith) a in
    rw (first, decode_encrypted_slices)
      (rw (made, decode_encrypted_slices)
        (rw (enough, decode_encrypted_slices)
          (rw (share_test, decode_encrypted_slices)
            (rw (all_sized_lem piece 0 rs.k (count * rs.share_size) size_of) (
              rw multiple (
                rw total (
                  rw start_test (rw number (rw sorted_in (rw plan (rw inputs stripes_back)))))))))))
  where
    enough_test : (x y : ℕ) → x ≡ y → ltb x y ≡ false
    enough_test x y h = ground (arith, h)

    not_below_zero : (x : ℕ) → ltb x 0 ≡ false
    not_below_zero x = ground arith

    positive_test : (x : ℕ) → 0 < x → (x == 0) ≡ false
    positive_test x h = ground arith

    nth_none : (m j : ℕ) → nth {A = Option Bytes} none j (replicate m none) ≡ none
    nth_none zero j = refl
    nth_none (suc m) zero = refl
    nth_none (suc m) (suc j) = nth_none m j

pad_front :
    (bytes padded : Bytes) (block : ℕ)
    → pad bytes block ≡ ok padded
    → take (length bytes) padded ≡ bytes
unfolding pad
pad_front bytes padded block h = elim (Bool-cases (ltb i64_max (length bytes))) [
  | inl long ↦ absurd (let h' = rw long at h in cc)
  | inr short ↦
      let (padding, p, q) = >>=-eq-ok (make_padding (pos (length bytes)) block) _ (rw short at h) in
      rw (sym (ok_injective (bytes ++ padding) padded q))
        (take_front (length bytes) bytes padding refl)
]

-- When `encode_pieces` succeeds, `decode_encrypted` of the first `k` pieces, in their order, succeeds.
-- What it gives begins with the encrypted segment, and without its padding it is the segment.
pub decode_encrypted-encode_pieces :
    (rs : Redundancy) (encrypted : Bytes) (pieces : List Bytes)
    → encode_pieces encrypted rs ≡ ok pieces
    → (decoded : Bytes) × (decode_encrypted (take rs.k (numbered 0 pieces)) rs ≡ ok decoded)
      × (take (length encrypted) decoded ≡ encrypted)
      × (unpad decoded ≡ ok encrypted)
decode_encrypted-encode_pieces rs encrypted pieces h =
    let found = encode_pieces-IsEncoded rs encrypted pieces h in
    let stripe = rs.k * rs.share_size in
    let cs = stripes (length found.padded) stripe found.padded in
    let (some_k, some_ss, order, most, ek, en, es) =
      new_codec_inv rs.k rs.n rs.share_size found.codec found.made in
    let full : All (λ c. length c ≡ found.codec.k * found.codec.share_size) cs =
      rw ek (rw es found.striped.all) in
    (
      found.padded,
      rw found.written (
          rw (take-numbered (piece_of found.codec cs) 0 rs.k rs.n order)
            (decode_data rs found.codec cs found.made full ∙ ap ok found.striped.whole)),
      pad_front encrypted found.padded stripe found.padding,
      (unpad-pad encrypted found.padded stripe found.padding).0,
    )
