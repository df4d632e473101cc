-- ===== src/Uplink/Pieces/Stripes.antt =====
-- The stripes of a padded segment: all full, and together the segment.
use storj_uplink.Ec.Codec.{concat}
use storj_uplink.Uplink.Pieces.{stripes}
use storj_uplink.Common.{
  ℕ, zero, suc, ◌+◌, ◌*◌, ◌≤◌, ◌<◌, ◌≡◌, refl, ap, arith, List, [], ◌∷◌, Bytes, length, drop, All,
  take-append-drop, length-take, length-drop,
}

-- A segment of `count` stripes, and enough fuel.
pub record AreStripes (stripe count : ℕ) (bytes : Bytes) (chunks : List Bytes) : Type 0 where
  pub all : All (λ c. length c ≡ stripe) chunks
  pub whole : concat chunks ≡ bytes
  pub number : length chunks ≡ count

pub stripes-AreStripes :
    (fuel stripe count : ℕ) (bytes : Bytes)
    → 0 < stripe
    → length bytes ≡ count * stripe
    → count ≤ fuel
    → AreStripes stripe count bytes (stripes fuel stripe bytes)
unfolding stripes concat
stripes-AreStripes fuel stripe zero [] h l f = none_left fuel
  where
    none_left : (n : ℕ) → AreStripes stripe 0 [] (stripes n stripe [])
    none_left zero = record { all = tt; whole = refl; number = refl }
    none_left (suc n) = record { all = tt; whole = refl; number = refl }
stripes-AreStripes fuel stripe zero (b ∷ bytes) h l f = absurd (omega arith)
stripes-AreStripes zero stripe (suc count) bytes h l f = absurd (omega arith)
stripes-AreStripes (suc fuel) stripe (suc count) [] h l f =
    absurd (let e : suc count * stripe ≡ stripe + count * stripe = omega arith in omega (arith, e))
stripes-AreStripes (suc fuel) stripe (suc count) (b ∷ bytes) h l f =
    let e : suc count * stripe ≡ stripe + count * stripe = omega arith in
    let more =
      stripes-AreStripes fuel stripe count (drop stripe (b ∷ bytes)) h
        (omega (arith, e, length-drop stripe (b ∷ bytes))) (omega arith) in
    record {
      all = (omega (arith, e, length-take stripe (b ∷ bytes)), more.all);
      whole = rw more.whole (take-append-drop stripe (b ∷ bytes));
      number = ap suc more.number;
    }
