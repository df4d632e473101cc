-- ===== src/Uplink/Ranges.antt =====
-- crates/storj-uplink/src/download.rs: which bytes of an object, of a segment and of the pieces a
-- download reads. `pos` and `negsuc` are the signs of an i64; sums that the source saturates are
-- cut off at i64::MAX. What `segment_plain_range` is given is not
-- negative: it comes from `resolve_range` and from the sizes of the segments.
pub mod Windows
use storj_uplink.Common.Integers.{ℤ, pos, negsuc, i64_max}
use storj_uplink.Common.{
  ℕ, ◌+◌, ◌-◌, min, max, ◌||◌, Option, none, some, leb, ◌==◌, if◌then◌else◌, Result, ok, err,
}

-- The messages of `Error::protocol` in `resolve_range`.
pub data RangeError : Type 0 where
  suffix_with_length : RangeError
  negative_object_size : RangeError

abbrev pub saturating_add : ℕ → ℕ → ℕ
saturating_add a b = min (a + b) i64_max

unfoldable pub resolve_range : ℤ → ℤ → ℤ → Result RangeError (ℕ × ℕ)
resolve_range (negsuc offset) (pos len) object_size = err suffix_with_length
resolve_range (pos offset) len (negsuc n) = err negative_object_size
resolve_range (negsuc offset) (negsuc len) (negsuc n) = err negative_object_size
resolve_range (negsuc offset) (negsuc len) (pos object_size) =
    let suffix = min (offset + 1) i64_max in
    let start = if leb object_size suffix then 0 else object_size - suffix in
    ok (start, object_size - start)
resolve_range (pos offset) (negsuc len) (pos object_size) =
    let start = min offset object_size in ok (start, object_size - start)
resolve_range (pos offset) (pos len) (pos object_size) =
    let start = min offset object_size in
    let stop = min (saturating_add start len) object_size in ok (start, stop - start)

unfoldable pub segment_plain_range : ℕ → ℕ → ℕ → ℕ → ℕ × ℕ
segment_plain_range object_start object_len seg_offset seg_plain =
    if object_len == 0 || seg_plain == 0
    then (0, 0)
    else let object_end = saturating_add object_start object_len in
      let seg_end = saturating_add seg_offset seg_plain in
      let start = max object_start seg_offset in
      let stop = min object_end seg_end in
      if leb stop start then (0, 0) else (start - seg_offset, stop - start)

-- `Range` of the request, with its three kinds.
pub data Range : Type 0 where
  suffix : ℕ → Range
  start : ℕ → Range
  start_limit : ℕ → ℕ → Range

unfoldable pub proto_range : ℤ → ℤ → Option Range
proto_range (negsuc offset) (pos len) = none
proto_range (negsuc offset) (negsuc len) = some (suffix (min (offset + 1) i64_max))
proto_range (pos offset) (negsuc len) = if offset == 0 then none else some (start offset)
proto_range (pos offset) (pos len) = some (start_limit offset (saturating_add offset len))
