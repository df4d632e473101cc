-- ===== src/Uplink/Ranges/Windows.antt =====
-- Ranges as parts of the content: of the object, and of its segments one after another.
use storj_uplink.Common.Integers.{ℤ, pos, negsuc, i64_max}
use storj_uplink.Uplink.Ranges.{suffix_with_length, resolve_range, segment_plain_range}
use storj_uplink.Common.{
  ℕ, zero, suc, ◌+◌, ◌-◌, ◌≤◌, min, max, ◌≡◌, ◌⊎◌, inl, inr, refl, sym, ap, ◌∙◌, arith, ◌||◌, List,
  [], ◌∷◌, ◌++◌, leb, ◌==◌, if◌then◌else◌, Bool-cases, ok, err, Bytes, length, take, drop,
  length-append, length-drop,
}

take-cong : (m n : ℕ) (xs : Bytes) → min m (length xs) ≡ min n (length xs) → take m xs ≡ take n xs
take-cong zero zero xs h = refl
take-cong zero (suc n) [] h = refl
take-cong zero (suc n) (x ∷ xs) h = absurd (omega arith)
take-cong (suc m) zero [] h = refl
take-cong (suc m) zero (x ∷ xs) h = absurd (omega arith)
take-cong (suc m) (suc n) [] h = refl
take-cong (suc m) (suc n) (x ∷ xs) h = ap (◌∷◌ x) (take-cong m n xs (omega arith))

drop-cong : (m n : ℕ) (xs : Bytes) → min m (length xs) ≡ min n (length xs) → drop m xs ≡ drop n xs
drop-cong zero zero xs h = refl
drop-cong zero (suc n) [] h = refl
drop-cong zero (suc n) (x ∷ xs) h = absurd (omega arith)
drop-cong (suc m) zero [] h = refl
drop-cong (suc m) zero (x ∷ xs) h = absurd (omega arith)
drop-cong (suc m) (suc n) [] h = refl
drop-cong (suc m) (suc n) (x ∷ xs) h = drop-cong m n xs (omega arith)

take-past : (n : ℕ) (xs ys : Bytes) → take n (xs ++ ys) ≡ take n xs ++ take (n - length xs) ys
take-past zero [] ys = refl
take-past zero (x ∷ xs) ys = omega_zero (length xs)
  where
    omega_zero : (k : ℕ) → [] ≡ take (0 - suc k) ys
    omega_zero k = let e : 0 - suc k ≡ 0 = omega arith in rw e refl
take-past (suc n) [] ys = let e : suc n - 0 ≡ suc n = omega arith in rw e refl
take-past (suc n) (x ∷ xs) ys =
    let e : suc n - suc (length xs) ≡ n - length xs = omega arith in
    rw e (ap (◌∷◌ x) (take-past n xs ys))

drop-past : (n : ℕ) (xs ys : Bytes) → drop n (xs ++ ys) ≡ drop n xs ++ drop (n - length xs) ys
drop-past zero xs ys = let e : 0 - length xs ≡ 0 = omega arith in rw e refl
drop-past (suc n) [] ys = let e : suc n - 0 ≡ suc n = omega arith in rw e refl
drop-past (suc n) (x ∷ xs) ys =
    let e : suc n - suc (length xs) ≡ n - length xs = omega arith in rw e (drop-past n xs ys)

take-all : (n : ℕ) (xs : Bytes) → length xs ≤ n → take n xs ≡ xs
take-all zero [] h = refl
take-all (suc n) [] h = refl
take-all zero (x ∷ xs) h = absurd (omega arith)
take-all (suc n) (x ∷ xs) h = ap (◌∷◌ x) (take-all n xs (omega arith))

-- The bytes that a caller asks for: the last ones for a negative offset, those up to the end for a
-- negative length, and those that there are of the ones asked for otherwise.
unfoldable pub asked_for : ℤ → ℤ → Bytes → Bytes
asked_for (negsuc offset) len content = drop (length content - (offset + 1)) content
asked_for (pos offset) (negsuc len) content = drop offset content
asked_for (pos offset) (pos len) content = take len (drop offset content)

-- For an object of at most i64::MAX bytes: the part that a download resolves to is the part that
-- was asked for, and lies within the object, for every offset and length save a suffix with a
-- length, which is refused.
pub resolve_range-asked_for :
    (offset len : ℤ) (content : Bytes)
    → length content ≤ i64_max
    → (resolve_range offset len (pos (length content)) ≡ err suffix_with_length)
      ⊎ ((start : ℕ) × (n : ℕ) × (resolve_range offset len (pos (length content)) ≡ ok (start, n))
          × (start + n ≤ length content)
          × (take n (drop start content) ≡ asked_for offset len content))
unfolding resolve_range asked_for
resolve_range-asked_for (negsuc a) (pos l) content h = inl refl
resolve_range-asked_for (negsuc a) (negsuc l) content h =
    let l = length content in
    let suffix = min (a + 1) i64_max in
    let first = if leb l suffix then 0 else l - suffix in
    let same : first ≡ l - (a + 1) = ground arith in
    inr (
      first,
      l - first,
      refl,
      omega (arith, same),
      rw (take-all (l - first) (drop first content) (omega (arith, length-drop first content)))
          (rw same refl),
    )
resolve_range-asked_for (pos a) (negsuc l) content h =
    let l = length content in
    let first = min a l in
    inr (
      first,
      l - first,
      refl,
      omega arith,
      take-all (l - first) (drop first content) (omega (arith, length-drop first content))
          ∙ drop-cong first a content (omega arith),
    )
resolve_range-asked_for (pos a) (pos n) content h =
    let l = length content in
    let first = min a l in
    let stop = min (min (first + n) i64_max) l in
    let same : drop first content ≡ drop a content = drop-cong first a content (omega arith) in
    inr (
      first,
      stop - first,
      refl,
      omega arith,
      rw same (take-cong (stop - first) n (drop a content) (omega (arith, length-drop a content))),
    )

-- The bytes of the object from `start` to `stop` that stand in `content`, which begins at `offset`.
window : ℕ → ℕ → ℕ → Bytes → Bytes
window start stop offset content = take (stop - max start offset) (drop (start - offset) content)

-- What a download reads of the segments, the first of which begins at `offset`.
unfoldable pub read_segments : ℕ → ℕ → ℕ → List Bytes → Bytes
read_segments object_start object_len offset [] = []
read_segments object_start object_len offset (seg ∷ segs) =
    let (first, n) = segment_plain_range object_start object_len offset (length seg) in
    take n (drop first seg) ++ read_segments object_start object_len (offset + length seg) segs

unfoldable pub joined : List Bytes → Bytes
joined [] = []
joined (seg ∷ segs) = seg ++ joined segs

segment_window :
    (start len offset : ℕ) (seg : Bytes)
    → start + len ≤ i64_max
    → offset + length seg ≤ i64_max
    → (let (first, n) = segment_plain_range start len offset (length seg) in
        take n (drop first seg))
      ≡ window start (start + len) offset seg
unfolding segment_plain_range window
segment_window start len offset seg h k =
    let rest = drop (start - offset) seg in
    let l = length-drop (start - offset) seg in
    let wanted = start + len - max start offset in
    let stop = min (min (start + len) i64_max) (min (offset + length seg) i64_max) in
    let first = max start offset in
    elim (Bool-cases (len == 0 || length seg == 0)) [
      | inl e ↦ rw e (take-cong 0 wanted rest (ground (arith, l, e)))
      | inr e ↦ elim (Bool-cases (leb stop first)) [
        | inl q ↦ rw e (rw q (take-cong 0 wanted rest (ground (arith, l, q))))
        | inr q ↦
            let same : first - offset ≡ start - offset = omega arith in
            rw e (rw q (rw same (take-cong (stop - first) wanted rest (ground (arith, l, q)))))
      ]
    ]

window-append :
    (start stop offset : ℕ) (xs ys : Bytes)
    → window start stop offset (xs ++ ys)
      ≡ window start stop offset xs ++ window start stop (offset + length xs) ys
unfolding window
window-append start stop offset xs ys =
    let k = start - offset in
    let inner = drop k xs in
    let l = length-drop k xs in
    let first : k - length xs ≡ start - (offset + length xs) = omega arith in
    let last : stop - max start offset - length inner ≡ stop - max start (offset + length xs) =
      omega (arith, l) in
    rw (drop-past k xs ys) (
      rw (take-past (stop - max start offset) inner (drop (k - length xs) ys))
        (rw first (rw last refl)))

window-nil : (start stop offset : ℕ) → [] ≡ window start stop offset []
unfolding window
window-nil start stop offset = sym (nothing (start - offset) (stop - max start offset))
  where
    nothing : (m n : ℕ) → take {A = ℕ} n (drop m []) ≡ []
    nothing zero zero = refl
    nothing zero (suc n) = refl
    nothing (suc m) zero = refl
    nothing (suc m) (suc n) = refl

from_offset :
    (s l offset : ℕ) (segs : List Bytes)
    → s + l ≤ i64_max
    → offset + length (joined segs) ≤ i64_max
    → read_segments s l offset segs ≡ window s (s + l) offset (joined segs)
unfolding read_segments joined
from_offset s l offset [] h k = window-nil s (s + l) offset
from_offset s l offset (seg ∷ segs) h k =
    let n = length-append seg (joined segs) in
    rw (segment_window s l offset seg h (omega (arith, n))) (
      rw (from_offset s l (offset + length seg) segs h (omega (arith, n)))
        (sym (window-append s (s + l) offset seg (joined segs))))

-- The parts that `segment_plain_range` takes of consecutive segments make up the range of the
-- object, if neither the range nor the object ends beyond i64::MAX.
pub read_segments_lem :
    (object_start object_len : ℕ) (segs : List Bytes)
    → object_start + object_len ≤ i64_max
    → length (joined segs) ≤ i64_max
    → read_segments object_start object_len 0 segs
      ≡ take object_len (drop object_start (joined segs))
read_segments_lem s l segs h k =
    let n : s + l - max s 0 ≡ l = omega arith in
    let m : s - 0 ≡ s = omega arith in
    from_offset s l 0 segs h (omega arith) ∙ unfold window in rw n (rw m refl)
