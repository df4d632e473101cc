-- ===== src/Common/Groups.antt =====
-- Unsigned varints in plain arithmetic: groups of seven bits, lowest first, a top bit on all but
-- the last. Both codecs of the repository are compared with this description.
use storj_uplink.Common.{
  ℕ, zero, suc, ◌+◌, ◌*◌, ◌/◌, ◌%◌, ◌^◌, ◌≤◌, ◌<◌, ◌≡◌, ap, arith, [], ◌∷◌, ltb, if◌then◌else◌,
  length, Bytes, AreBytes,
}
use native.Mathlib.Nat.{div-add-mod}
use native.Mathlib.Numerals.{towards_suc}

-- The groups of `v`, for `v` below 128 ^ (k + 1).
unfoldable pub groups : ℕ → ℕ → Bytes
groups zero v = v ∷ []
groups (suc k) v =
    let rest = groups k (v / 128) in if ltb v 128 then v ∷ [] else (v % 128 + 128) ∷ rest

pub groups-AreBytes : (k v : ℕ) → v < 128 ^ suc k → AreBytes (groups k v)
unfolding groups
groups-AreBytes zero v h = omega arith
groups-AreBytes (suc k) v h = ground (arith, groups-AreBytes k (v / 128) (omega arith))

pub length-groups :
    (more number : ℕ) → (1 ≤ length (groups more number)) × (length (groups more number) ≤ more + 1)
unfolding groups
length-groups zero number = omega arith
length-groups (suc more) number = ground (arith, length-groups more (number / 128))

next_shift : (shift : ℕ) → 2 ^ (shift + 7) ≡ 128 * 2 ^ shift
next_shift shift = simp towards_suc (omega arith)

-- A number at a shift is its low seven bits there and the others seven bits further up.
pub split_group :
    (number shift : ℕ)
    → number * 2 ^ shift ≡ number % 128 * 2 ^ shift + number / 128 * 2 ^ (shift + 7)
split_group number shift =
    let digits = ap (λ (part : ℕ). part * 2 ^ shift) (div-add-mod number 128) in
    let moved = ap (λ (power : ℕ). number / 128 * power) (next_shift shift) in
    omega (arith, digits, moved)

-- What was read up to a shift, with one more group of seven bits, is below the next shift.
pub below_shift :
    (sum_so_far group shift : ℕ)
    → sum_so_far < 2 ^ shift
    → group < 128
    → sum_so_far + group * 2 ^ shift < 2 ^ (shift + 7)
below_shift sum_so_far group shift low small = rw (next_shift shift) (grind arith)

groups_stable : (k v : ℕ) → v < 128 ^ suc k → groups (suc k) v ≡ groups k v
unfolding groups
groups_stable zero v h = ground arith
groups_stable (suc k) v h = ground (arith, groups_stable k (v / 128) (omega arith))

-- A number of 35 bits takes five groups at most.
pub groups_five : (v : ℕ) → v < 2 ^ 35 → groups 9 v ≡ groups 4 v
groups_five v h = cc (
  groups_stable 8 v (omega arith),
  groups_stable 7 v (omega arith),
  groups_stable 6 v (omega arith),
  groups_stable 5 v (omega arith),
  groups_stable 4 v (omega arith),
)
