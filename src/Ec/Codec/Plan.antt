-- ===== src/Ec/Codec/Plan.antt =====
-- The plan when all data shares are there: each slot takes its own share, and the matrix is the
-- identity. Shares in ascending order pass the checks of `decode_from` unchanged.
use storj_uplink.Common.Arrays.{nth, range}
use storj_uplink.Ec.Matrix.{unit_row, invert_matrix}
use storj_uplink.Ec.Matrix.Identity.{identity, invert_matrix-identity}
use storj_uplink.Ec.Codec.{
  ReedSolomon, Share, DecodePlan, plan_loop, plan_from_sorted, check_shares, insert_share,
  sort_shares, check_unique, present,
}
use storj_uplink.Common.{
  ℕ, zero, suc, ◌+◌, ◌≤◌, ◌<◌, ◌≡◌, refl, arith, true, false, ◌&&◌, List, [], ◌∷◌, ◌++◌, map,
  Option, none, some, ltb, ◌==◌, ok, Bytes, length, All,
}

-- Indices that ascend from a bound on.
abbrev pub AscendFrom : ℕ → List Share → Type 0
AscendFrom bound [] = Unit
AscendFrom bound (s ∷ shares) = (bound ≤ s.0) × AscendFrom (suc s.0) shares

-- Indices below the bound, and the size of a share.
abbrev pub AreShares : ReedSolomon → List Share → Type 0
AreShares rs = All (λ s. (s.0 < rs.n) × (length s.1 ≡ rs.share_size))

insert_share-least :
    (s : Share) (shares : List Share) → AscendFrom s.0 shares → insert_share s shares ≡ s ∷ shares
unfolding insert_share
insert_share-least s [] h = refl
insert_share-least s (t ∷ shares) h = ground (arith, h.0)

ascend_weaken : (a b : ℕ) (shares : List Share) → a ≤ b → AscendFrom b shares → AscendFrom a shares
ascend_weaken a b [] l h = tt
ascend_weaken a b (s ∷ shares) l h = (omega (arith, h.0), h.1)

pub sort_shares-ascending :
    (bound : ℕ) (shares : List Share) → AscendFrom bound shares → sort_shares shares ≡ shares
unfolding sort_shares
sort_shares-ascending bound [] h = refl
sort_shares-ascending bound (s ∷ shares) h =
    rw (sort_shares-ascending (suc s.0) shares h.1)
      (insert_share-least s shares (ascend_weaken s.0 (suc s.0) shares (omega arith) h.1))

pub check_unique-ascending :
    (bound : ℕ) (shares : List Share) → AscendFrom bound shares → check_unique shares ≡ ok tt
unfolding check_unique
check_unique-ascending bound [] h = refl
check_unique-ascending bound (s ∷ []) h = refl
check_unique-ascending bound (s ∷ t ∷ shares) h =
    let differ : (s.0 == t.0) ≡ false = ground (arith, h.1.0) in
    rw differ (check_unique-ascending (suc s.0) (t ∷ shares) h.1)

pub check_shares-ok :
    (rs : ReedSolomon) (shares : List Share) → AreShares rs shares → check_shares rs shares ≡ ok tt
unfolding check_shares
check_shares-ok rs [] h = refl
check_shares-ok rs (s ∷ shares) h = ground (arith, h.0.0, h.0.1, check_shares-ok rs shares h.1)

-- What `present` collects from a start on ascends, and has the right sizes if every slot has.
pub present_lem :
    (rs : ReedSolomon) (start : ℕ) (slots : List (Option Bytes))
    → All (λ o. (d : Bytes) → o ≡ some d → length d ≡ rs.share_size) slots
    → start + length slots ≤ rs.n
    → (shares : List Share) × (present rs start slots ≡ ok shares)
      × AscendFrom start shares
      × AreShares rs shares
unfolding present
present_lem rs start [] h l = ([], refl, tt, tt)
present_lem rs start (none ∷ slots) h l =
    let (shares, e, asc, are) = present_lem rs (suc start) slots h.1 (omega arith) in
    (shares, e, ascend_weaken start (suc start) shares (omega arith) asc, are)
present_lem rs start (some d ∷ slots) h l =
    let (shares, e, asc, are) = present_lem rs (suc start) slots h.1 (omega arith) in
    let size : length d ≡ rs.share_size = h.0 d refl in
    ((start, d) ∷ shares, ground (arith, size, e), (omega arith, asc), ((omega arith, size), are))

-- Slots that are all filled come first.
pub present-data :
    (rs : ReedSolomon) (start count : ℕ) (piece : ℕ → Bytes) (slots : List (Option Bytes))
    (others : List Share)
    → ((i : ℕ) → i < start + count → length (piece i) ≡ rs.share_size)
    → present rs (start + count) slots ≡ ok others
    → present rs start (map (λ i. some (piece i)) (range start count) ++ slots)
      ≡ ok (map (λ i. (i, piece i)) (range start count) ++ others)
unfolding present
present-data rs start zero piece slots others h e =
    let s : start + 0 ≡ start = omega arith in rw s at e
present-data rs start (suc count) piece slots others h e =
    let s : start + suc count ≡ suc start + count = omega arith in
    let more =
      present-data rs (suc start) count piece slots others (λ i b. h i (omega arith)) (rw s at e) in
    let size : length (piece start) ≡ rs.share_size = h start (omega arith) in
    ground (arith, size, more)

-- The ids of all data shares come first.
pub plan_loop-data :
    (rs : ReedSolomon) (ids : List ℕ) (count i e : ℕ)
    → count + i ≡ rs.k
    → rs.k ≤ e
    → ((j : ℕ) → j < rs.k → nth 0 j ids ≡ j)
    → plan_loop rs ids count i i e ≡ (range i count, map (unit_row rs.k) (range i count))
unfolding plan_loop
plan_loop-data rs ids zero i e c l h = refl
plan_loop-data rs ids (suc count) i e c l h =
    let here : nth 0 i ids ≡ i = h i (omega arith) in
    let matched : (ltb i e && nth 0 i ids == i) ≡ true = ground (arith, here) in
    let is_data : ltb i rs.k ≡ true = ground arith in
    let s : i + 1 ≡ suc i = omega arith in
    let more = plan_loop-data rs ids count (suc i) e (omega arith) l h in
    rw matched (rw here (rw is_data (rw s (rw more refl))))

-- The plan when every slot takes its own share.
abbrev pub data_plan : ReedSolomon → DecodePlan
data_plan rs = record {
  k = rs.k;
  share_size = rs.share_size;
  indexes = range 0 rs.k;
  m_dec = identity rs.k;
}

pub plan_from_sorted-data :
    (rs : ReedSolomon) (ids : List ℕ)
    → rs.k ≤ length ids
    → ((j : ℕ) → j < rs.k → nth 0 j ids ≡ j)
    → plan_from_sorted rs ids ≡ ok (data_plan rs)
unfolding plan_from_sorted
plan_from_sorted-data rs ids l h =
    rw (plan_loop-data rs ids rs.k 0 (length ids) (omega arith) l h) (
      let inverted : invert_matrix (map (unit_row rs.k) (range 0 rs.k)) rs.k ≡ ok (identity rs.k) =
        unfold identity in invert_matrix-identity rs.k in
      rw inverted refl)
