-- ===== src/Uplink/Pieces/Restored.antt =====
-- Stripe by stripe, the shares of the data pieces give the segment back.
use storj_uplink.Common.Arrays.{range, length-range}
use storj_uplink.Ec.Codec.{ReedSolomon, chunk, concat, encode_share_unchecked, decode_into}
use storj_uplink.Ec.Codec.Chunks.{chunks, concat-chunks}
use storj_uplink.Ec.Codec.Plan.{data_plan}
use storj_uplink.Ec.Codec.Systematic.{map-range_ext, sizes_of}
use storj_uplink.Ec.Codec.Identity.{decode_into-identity}
use storj_uplink.Ec.Codec.Shares.{length-encode_share_unchecked}
use storj_uplink.Uplink.Pieces.{slot, decode_stripes}
use storj_uplink.Uplink.Pieces.Encoded.{
  piece_of, slot-front, append_assoc, map_same, map-range_twice,
}
use storj_uplink.Common.{
  ℕ, suc, ◌*◌, ◌<◌, ◌≡◌, refl, sym, ap, ◌∙◌, arith, List, [], ◌∷◌, ◌++◌, map, ok, Bytes, length,
  replicate, All, length-append, length-map,
}

data_share :
    (codec : ReedSolomon) (c : Bytes) (i : ℕ)
    → i < codec.k
    → encode_share_unchecked codec c i ≡ chunk codec.share_size i c
unfolding encode_share_unchecked
data_share codec c i h = ground arith

-- One stripe, from the data shares of its slots.
decode_into-stripe :
    (codec : ReedSolomon) (c : Bytes)
    → length c ≡ codec.k * codec.share_size
    → decode_into
        (data_plan codec)
        (map (encode_share_unchecked codec c) (range 0 codec.k))
        (replicate codec.k (replicate codec.share_size 0))
      ≡ ok c
decode_into-stripe codec c l =
    let share = encode_share_unchecked codec c in
    let whole : map share (range 0 codec.k) ≡ chunks codec.share_size c 0 codec.k =
      map-range_ext share (λ i. chunk codec.share_size i c) 0 codec.k
        (λ i a b. data_share codec c i (omega arith)) in
    decode_into-identity codec (map share (range 0 codec.k))
      (length-map (range 0 codec.k) share ∙ length-range 0 codec.k)
      (sizes_of share codec.share_size 0 codec.k (λ i b. length-encode_share_unchecked codec c i l))
    ∙ ap (λ (cs : List Bytes). ok (concat cs)) whole
    ∙ ap ok (concat-chunks codec.k codec.share_size c l)

pub decode_stripes_lem :
    (codec : ReedSolomon) (cs : List Bytes) (s : ℕ) (front : ℕ → Bytes)
    → ((i : ℕ) → length (front i) ≡ s * codec.share_size)
    → All (λ c. length c ≡ codec.k * codec.share_size) cs
    → decode_stripes codec
        (data_plan codec)
        (map (λ i. front i ++ piece_of codec cs i) (range 0 codec.k))
        s
        (length cs)
      ≡ ok (concat cs)
unfolding decode_stripes concat
decode_stripes_lem codec [] s front h a = refl
decode_stripes_lem codec (c ∷ cs) s front h a =
    let ss = codec.share_size in
    let off = s * ss in
    let share = encode_share_unchecked codec c in
    let inputs = λ (i : ℕ). front i ++ (share i ++ piece_of codec cs i) in
    let size_of = λ (i : ℕ). length-encode_share_unchecked codec c i a.0 in
    let slots : map (slot off ss) (map inputs (range 0 codec.k)) ≡ map share (range 0 codec.k) =
      map-range_twice (slot off ss) inputs 0 codec.k
      ∙ map_same (λ i. slot off ss (inputs i)) share 0 codec.k
          (λ i. slot-front off ss (front i) (share i) (piece_of codec cs i) (h i) (size_of i)) in
    let moved : map inputs (range 0 codec.k)
        ≡ map (λ i. (front i ++ share i) ++ piece_of codec cs i) (range 0 codec.k) =
      map_same inputs (λ i. (front i ++ share i) ++ piece_of codec cs i) 0 codec.k
        (λ i. sym (append_assoc (front i) (share i) (piece_of codec cs i))) in
    let more =
      decode_stripes_lem codec cs (suc s) (λ i. front i ++ share i)
        (λ i. length-append (front i) (share i) ∙ omega (arith, h i, size_of i)) a.1 in
    let rest : decode_stripes codec (data_plan codec)
          (map (λ i. front i ++ piece_of codec (c ∷ cs) i) (range 0 codec.k)) (suc s) (length cs)
        ≡ ok (concat cs) =
      ap (λ (ins : List Bytes). decode_stripes codec (data_plan codec) ins (suc s) (length cs))
        moved
      ∙ more in
    rw slots (rw (decode_into-stripe codec c a.0) (rw rest refl))
