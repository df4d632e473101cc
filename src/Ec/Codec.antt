-- ===== src/Ec/Codec.antt =====
-- crates/storj-ec/src/fec.rs: `ReedSolomon` and `DecodePlan`. A stripe is `k` chunks of `share_size`
-- bytes, one after another.
pub mod Chunks
pub mod Plan
pub mod Identity
pub mod Systematic
pub mod Shares
use storj_uplink.Common.Arrays.{nth, set, range}
use storj_uplink.Ec.Error.{
  Error, invalid_params, stripe_size, share_size, too_few_shares, invalid_share_index,
  duplicate_share, share_count,
}
use storj_uplink.Ec.Field.{at, addmul}
use storj_uplink.Ec.Matrix.{Matrix, row_at, unit_row, build_enc_matrix, invert_matrix}
use storj_uplink.Common.{
  ℕ, zero, suc, ◌+◌, ◌-◌, ◌*◌, not, ◌&&◌, ◌||◌, List, [], ◌∷◌, ◌++◌, map, Option, none, some, ltb,
  leb, ◌==◌, if◌then◌else◌, Result, ok, err, ◌>>=◌, ◌>>◌, Bytes, length, take, drop, replicate,
}

pub record ReedSolomon : Type 0 where
  pub k : ℕ
  pub n : ℕ
  pub share_size : ℕ
  pub enc_matrix : Matrix

unfoldable pub new_codec : ℕ → ℕ → ℕ → Result Error ReedSolomon
unfolding build_enc_matrix
new_codec k n ss =
    if k == 0 || ss == 0 || ltb n k || ltb 256 n
    then err (invalid_params k n ss)
    else ok (record { k = k; n = n; share_size = ss; enc_matrix = build_enc_matrix k n })

unfoldable pub codec_stripe_size : ReedSolomon → ℕ
codec_stripe_size rs = rs.k * rs.share_size

-- `&stripe[i * ss..(i + 1) * ss]`
unfoldable pub chunk : ℕ → ℕ → Bytes → Bytes
chunk ss i stripe = take ss (drop (i * ss) stripe)

unfoldable pub check_stripe : ReedSolomon → Bytes → Result Error (Unit {0})
unfolding codec_stripe_size
check_stripe rs stripe =
    if length stripe == codec_stripe_size rs
    then ok tt
    else err (stripe_size (length stripe) (codec_stripe_size rs))

-- The loop over the data chunks for a parity share.
unfoldable pub parity_loop : ℕ → Bytes → Bytes → List ℕ → Bytes → Bytes
unfolding chunk
parity_loop ss stripe row [] out = out
parity_loop ss stripe row (j ∷ js) out =
    parity_loop ss stripe row js (addmul out (chunk ss j stripe) (at j row))

unfoldable pub encode_share_unchecked : ReedSolomon → Bytes → ℕ → Bytes
unfolding parity_loop chunk
encode_share_unchecked rs stripe index =
    if ltb index rs.k
    then chunk rs.share_size index stripe
    else parity_loop rs.share_size stripe (row_at index rs.enc_matrix) (range 0 rs.k)
        (replicate rs.share_size 0)

unfoldable pub encode_share : ReedSolomon → Bytes → ℕ → Bytes → Result Error Bytes
unfolding check_stripe encode_share_unchecked
encode_share rs stripe index out =
    check_stripe rs stripe
    >> (if not (ltb index rs.n)
        then err (invalid_share_index index rs.n)
        else if not (length out == rs.share_size)
        then err (share_size index (length out) rs.share_size)
        else ok (encode_share_unchecked rs stripe index))

-- The loop of `encode_stripe_into` over the buffers, from an index on.
unfoldable pub encode_into_loop : ReedSolomon → Bytes → ℕ → List Bytes → Result Error (List Bytes)
unfolding encode_share_unchecked
encode_into_loop rs stripe i [] = ok []
encode_into_loop rs stripe i (out ∷ outs) =
    let more = encode_into_loop rs stripe (suc i) outs >>= λ shares.
    ok (encode_share_unchecked rs stripe i ∷ shares) in
    if not (length out == rs.share_size)
    then err (share_size i (length out) rs.share_size)
    else more

unfoldable pub encode_stripe_into : ReedSolomon → Bytes → List Bytes → Result Error (List Bytes)
unfolding check_stripe encode_into_loop
encode_stripe_into rs stripe shares =
    check_stripe rs stripe
    >> (if not (length shares == rs.n)
        then err (share_count (length shares) rs.n)
        else encode_into_loop rs stripe 0 shares)

unfoldable pub encode_stripe : ReedSolomon → Bytes → Result Error (List Bytes)
unfolding encode_stripe_into
encode_stripe rs stripe = encode_stripe_into rs stripe (replicate rs.n (replicate rs.share_size 0))

-- The checks of `decode_plan` on each index.
unfoldable pub check_indexes : ReedSolomon → List ℕ → Result Error (Unit {0})
check_indexes rs [] = ok tt
check_indexes rs (index ∷ ids) =
    if not (ltb index rs.n) then err (invalid_share_index index rs.n) else check_indexes rs ids

abbrev pub Share : Type 0
Share = ℕ × Bytes

pub record DecodePlan : Type 0 where
  pub k : ℕ
  pub share_size : ℕ
  pub indexes : List ℕ
  pub m_dec : Matrix

-- The loop of `plan_from_sorted`: the share for each slot, and its row of the matrix. A data share
-- takes the row of its slot.
unfoldable pub plan_loop : ReedSolomon → List ℕ → ℕ → ℕ → ℕ → ℕ → List ℕ × Matrix
unfolding unit_row
plan_loop rs ids zero i b e = ([], [])
plan_loop rs ids (suc count) i b e =
    let matched = ltb b e && nth 0 b ids == i in
    let share_id : ℕ = if matched then nth 0 b ids else nth 0 (e - 1) ids in
    let row : Bytes =
      if ltb share_id rs.k then unit_row rs.k i else row_at share_id rs.enc_matrix in
    let rest =
      plan_loop rs ids count (suc i) (if matched then b + 1 else b)
        (if matched then e else e - 1) in
    (share_id ∷ rest.0, row ∷ rest.1)

unfoldable pub plan_from_sorted : ReedSolomon → List ℕ → Result Error DecodePlan
unfolding plan_loop invert_matrix
plan_from_sorted rs ids = do
  let (indexes, rows) = plan_loop rs ids rs.k 0 0 (length ids)
  m_dec ← invert_matrix rows rs.k
  ok (record { k = rs.k; share_size = rs.share_size; indexes = indexes; m_dec = m_dec })

-- The size checks of `decode_into`, from a slot on.
unfoldable pub check_sizes : ℕ → List ℕ → List Bytes → Result Error (Unit {0})
check_sizes ss indexes [] = ok tt
check_sizes ss [] (s ∷ shares) = ok tt
check_sizes ss (i ∷ indexes) (s ∷ shares) =
    if length s == ss then check_sizes ss indexes shares else err (share_size i (length s) ss)

unfoldable pub combine : List Bytes → Bytes → Bytes → Bytes
combine [] row dest = dest
combine (s ∷ shares) [] dest = dest
combine (s ∷ shares) (m ∷ row) dest = combine shares row (addmul dest s m)

-- The last loop of `decode_into`, over the slots; `out` is the list of its chunks.
unfoldable pub decode_loop : DecodePlan → List Bytes → List ℕ → List Bytes → List Bytes
unfolding combine
decode_loop plan shares [] out = out
decode_loop plan shares (i ∷ is) out =
    let id = nth 0 i plan.indexes in
    let copied = set id (nth [] i shares) out in
    let combined = set i (combine shares (row_at i plan.m_dec) (replicate plan.share_size 0)) out in
    decode_loop plan shares is (if ltb id plan.k then copied else combined)

unfoldable pub concat : List Bytes → Bytes
concat [] = []
concat (c ∷ cs) = c ++ concat cs

-- `out` is the list of its chunks.
unfoldable pub decode_into : DecodePlan → List Bytes → List Bytes → Result Error Bytes
unfolding check_sizes decode_loop concat
decode_into plan shares out =
    if not (length shares == plan.k)
    then err (too_few_shares (length shares) plan.k)
    else check_sizes plan.share_size plan.indexes shares
      >> (if not (length (concat out) == plan.k * plan.share_size)
          then err (stripe_size (length (concat out)) (plan.k * plan.share_size))
          else ok (concat (decode_loop plan shares (range 0 plan.k) out)))

-- `shares.iter().find(..).unwrap_or(&[])`
unfoldable pub find_share : List Share → ℕ → Bytes
find_share [] id = []
find_share ((i, d) ∷ shares) id = if i == id then d else find_share shares id

unfoldable pub rebuild : ReedSolomon → List Share → Result Error Bytes
unfolding plan_from_sorted find_share decode_into
rebuild rs shares = do
  plan ← plan_from_sorted rs (map (λ s. s.0) shares)
  decode_into plan (map (find_share shares) plan.indexes)
      (replicate rs.k (replicate rs.share_size 0))

-- The checks of `decode_from` on each share.
unfoldable pub check_shares : ReedSolomon → List Share → Result Error (Unit {0})
check_shares rs [] = ok tt
check_shares rs ((index, d) ∷ shares) =
    if not (ltb index rs.n)
    then err (invalid_share_index index rs.n)
    else if not (length d == rs.share_size)
    then err (share_size index (length d) rs.share_size)
    else check_shares rs shares

-- `sort_unstable_by_key`; the keys that meet again are refused afterwards.
unfoldable pub insert_share : Share → List Share → List Share
insert_share s [] = s ∷ []
insert_share s (t ∷ ts) = if leb s.0 t.0 then s ∷ t ∷ ts else t ∷ insert_share s ts

unfoldable pub sort_shares : List Share → List Share
unfolding insert_share
sort_shares [] = []
sort_shares (s ∷ ss) = insert_share s (sort_shares ss)

-- `ordered.windows(2)`
unfoldable pub check_unique : List Share → Result Error (Unit {0})
check_unique [] = ok tt
check_unique (s ∷ []) = ok tt
check_unique (s ∷ t ∷ ts) = if s.0 == t.0 then err (duplicate_share s.0) else check_unique (t ∷ ts)

unfoldable pub decode_from : ReedSolomon → List Share → Result Error Bytes
unfolding check_shares sort_shares check_unique rebuild
decode_from rs shares =
    if ltb (length shares) rs.k
    then err (too_few_shares (length shares) rs.k)
    else check_shares rs shares
      >> (check_unique (sort_shares shares) >> rebuild rs (sort_shares shares))

-- The loop of `decode_stripe` over the slots, from an index on.
unfoldable pub present : ReedSolomon → ℕ → List (Option Bytes) → Result Error (List Share)
present rs i [] = ok []
present rs i (none ∷ slots) = present rs (suc i) slots
present rs i (some d ∷ slots) =
    let more = present rs (suc i) slots >>= λ shares. ok ((i, d) ∷ shares) in
    if not (length d == rs.share_size) then err (share_size i (length d) rs.share_size) else more

unfoldable pub decode_stripe : ReedSolomon → List (Option Bytes) → Result Error Bytes
unfolding present decode_from
decode_stripe rs slots =
    if not (length slots == rs.n)
    then err (share_count (length slots) rs.n)
    else present rs 0 slots >>= λ shares. decode_from rs shares

-- The shares of `decode_plan` have no bytes yet.
unfoldable pub decode_plan : ReedSolomon → List ℕ → Result Error DecodePlan
unfolding check_indexes sort_shares check_unique plan_from_sorted
decode_plan rs available =
    let ordered = sort_shares (map (λ i. (i, [])) available) in
    if ltb (length available) rs.k
    then err (too_few_shares (length available) rs.k)
    else check_indexes rs available
      >> (check_unique ordered >> plan_from_sorted rs (map (λ s. s.0) ordered))
