-- ===== src/Access/Time.antt =====
-- crates/storj-access/src/macaroon.rs: times and durations in their protobuf form. `SystemTime` is
-- a count of seconds from the epoch, in i64, and of nanoseconds below a second, as on Unix.
-- `Duration` has its seconds in u64.
use storj_uplink.Common.Integers.{i64_max, ℤ, pos, negsuc}
use storj_uplink.Common.{
  ℕ, zero, suc, ◌+◌, ◌-◌, ◌*◌, ◌/◌, ◌%◌, ◌^◌, ◌≤◌, ◌<◌, min, ◌≡◌, ◌≢◌, inl, inr, refl, ◌&&◌,
  Bool-cases, ap, arith, Bool, true, Option, none, some, ltb, leb, ◌==◌, if◌then◌else◌, Result, ok,
  err,
}

abbrev pub billion : ℕ
billion = 1_000_000_000

pub record SystemTime : Type 0 where
  pub secs : ℤ
  pub nanos : ℕ

pub record Duration : Type 0 where
  pub secs : ℕ
  pub nanos : ℕ

-- `pb::Timestamp` and `pb::Duration`, with i64 and i32 fields.
pub record Timestamp : Type 0 where
  pub seconds : ℤ
  pub nanos : ℤ

-- Arithmetic of the standard library on i64 and on `SystemTime`.
abbrev negated : ℕ → ℤ
negated zero = pos 0
negated (suc n) = negsuc n

abbrev unsigned_abs : ℤ → ℕ
unsigned_abs (pos n) = n
unsigned_abs (negsuc n) = n + 1

abbrev saturating_sub_one : ℤ → ℤ
saturating_sub_one (pos zero) = negsuc 0
saturating_sub_one (pos (suc n)) = pos n
saturating_sub_one (negsuc n) = if n == i64_max then negsuc n else negsuc (n + 1)

abbrev plus : ℤ → ℕ → ℤ
plus (pos n) m = pos (n + m)
plus (negsuc n) m = if leb m n then negsuc (n - m) else pos (m - n - 1)

abbrev pub in_i64 : ℤ → Bool
in_i64 (pos n) = leb n i64_max
in_i64 (negsuc n) = leb n i64_max

abbrev checked : ℤ → Option ℤ
checked n = if in_i64 n then some n else none

unfoldable pub checked_add : SystemTime → Duration → Option SystemTime
checked_add t d =
    let carry : ℕ = if ltb (t.nanos + d.nanos) billion then 0 else 1 in
    let nanos : ℕ = t.nanos + d.nanos - carry * billion in
    let with_secs = plus t.secs d.secs in
    elim (checked with_secs) [
      | none ↦ none
      | some secs ↦ elim (checked (plus secs carry)) [
        | none ↦ none
        | some secs' ↦ some (record { secs = secs'; nanos = nanos })
      ]
    ]

-- `UNIX_EPOCH.checked_sub`
unfoldable pub epoch_checked_sub : ℕ → Option SystemTime
epoch_checked_sub secs = elim (checked (negated secs)) [
  | none ↦ none
  | some n ↦ some (record { secs = n; nanos = 0 })
]

abbrev epoch : SystemTime
epoch = record { secs = pos 0; nanos = 0 }

-- `duration_since(UNIX_EPOCH)`; before the epoch it fails with the duration up to it.
unfoldable pub duration_since_epoch : SystemTime → Result Duration Duration
duration_since_epoch t = elim t.secs [
  | pos n ↦ ok (record { secs = n; nanos = t.nanos })
  | negsuc n ↦ err (
      if t.nanos == 0
      then record { secs = suc n; nanos = 0 }
      else record { secs = n; nanos = billion - t.nanos })
]

-- `i64::try_from(..).unwrap_or(i64::MAX)` and `i32::try_from(..).unwrap_or(0)`
abbrev i64_or_max : ℕ → ℕ
i64_or_max n = min n i64_max

abbrev i32_or_zero : ℕ → ℕ
i32_or_zero n = if ltb n (2 ^ 31) then n else 0

unfoldable pub timestamp_from_system : SystemTime → Timestamp
unfolding duration_since_epoch
timestamp_from_system t = elim (duration_since_epoch t) [
  | ok d ↦ record { seconds = pos (i64_or_max d.secs); nanos = pos (i32_or_zero d.nanos) }
  | err d ↦
      let seconds = negated (i64_or_max d.secs) in
      let nanos = i32_or_zero d.nanos in
      if ltb 0 nanos
      then record { seconds = saturating_sub_one seconds; nanos = pos (billion - nanos) }
      else record { seconds = seconds; nanos = pos 0 }
]

abbrev at_least_zero : ℤ → ℕ
at_least_zero (pos n) = n
at_least_zero (negsuc n) = 0

abbrev from_nanos : ℕ → Duration
from_nanos n = record { secs = n / billion; nanos = n % billion }

unfoldable pub system_from_timestamp : Timestamp → Option SystemTime
unfolding checked_add epoch_checked_sub
system_from_timestamp ts =
    let dur_nanos = from_nanos (at_least_zero ts.nanos) in
    let start : Option SystemTime = elim ts.seconds [
      | pos n ↦ checked_add epoch (record { secs = n; nanos = 0 })
      | negsuc n ↦ epoch_checked_sub (suc n)
    ] in
    elim start [ none ↦ none | some t ↦ checked_add t dur_nanos ]

unfoldable pub duration_from_std : Duration → Timestamp
duration_from_std d = record {
  seconds = pos (i64_or_max d.secs);
  nanos = pos (i32_or_zero d.nanos);
}

unfoldable pub std_from_duration : Timestamp → Option Duration
std_from_duration d =
    let nanos = at_least_zero d.nanos in
    elim d.seconds [
      | negsuc n ↦ none
      | pos secs ↦ some (record { secs = secs + nanos / billion; nanos = nanos % billion })
    ]

timestamp_before :
    (n k : ℕ)
    → k < billion
    → n ≤ i64_max
    → ¬ ((n ≡ i64_max) × (k ≡ 0))
    → timestamp_from_system (record { secs = negsuc n; nanos = k })
      ≡ record { seconds = negsuc n; nanos = pos k }
unfolding timestamp_from_system duration_since_epoch
timestamp_before n zero h l d =
    let fits : n < i64_max = (let apart : n ≢ i64_max = λ e. d (e, refl) in omega arith) in
    let e : min (suc n) i64_max ≡ suc n = omega arith in rw e refl
timestamp_before zero (suc k) h l d = ground arith
timestamp_before (suc n) (suc k) h l d = ground arith

system_before :
    (n k : ℕ)
    → k < billion
    → n ≤ i64_max
    → system_from_timestamp (record { seconds = negsuc n; nanos = pos k })
      ≡ some (record { secs = negsuc n; nanos = k })
unfolding system_from_timestamp checked_add epoch_checked_sub
system_before n k h l = ground arith

read_back :
    (n : ℤ) (k : ℕ)
    → k < billion
    → in_i64 n ≡ true
    → ¬ ((n ≡ negsuc i64_max) × (k ≡ 0))
    → system_from_timestamp (timestamp_from_system (record { secs = n; nanos = k }))
      ≡ some (record { secs = n; nanos = k })
read_back (pos n) k h r d =
    unfold system_from_timestamp timestamp_from_system checked_add duration_since_epoch in
    ground arith
read_back (negsuc n) k h r d =
    let l : n ≤ i64_max = ground arith in
    rw (timestamp_before n k h l (λ (e, z). d (ap negsuc e, z))) (system_before n k h l)

-- A time whose seconds fit i64 and whose nanoseconds are below a second.
pub record IsInRange (t : SystemTime) : Type 0 where
  pub below_second : t.nanos < billion
  pub in_range : in_i64 t.secs ≡ true

-- The first instant of the range becomes the one a second later, since its distance from the epoch
-- is cut off at i64::MAX; every other time is itself.
abbrev pub saturated_time : SystemTime → SystemTime
saturated_time t = elim t.secs [
  | pos n ↦ t
  | negsuc n ↦
      if n == i64_max && t.nanos == 0 then record { secs = negsuc (i64_max - 1); nanos = 0 } else t
]

first_written :
    (n k : ℕ)
    → n ≡ i64_max
    → k ≡ 0
    → timestamp_from_system (record { secs = negsuc n; nanos = k })
      ≡ record { seconds = negsuc (i64_max - 1); nanos = pos 0 }
unfolding timestamp_from_system duration_since_epoch
first_written n k e z = rw e (rw z refl)

saturated_back :
    (n : ℤ) (k : ℕ)
    → k < billion
    → in_i64 n ≡ true
    → system_from_timestamp (timestamp_from_system (record { secs = n; nanos = k }))
      ≡ some (saturated_time (record { secs = n; nanos = k }))
saturated_back (pos n) k h r = read_back (pos n) k h r (λ e. absurd (cc))
saturated_back (negsuc n) k h r = elim (Bool-cases (n == i64_max && k == 0)) [
  | inl first ↦
      let e : n ≡ i64_max = ground (arith, first) in
      let z : k ≡ 0 = ground (arith, first) in
      rw (first_written n k e z)
        (rw first (system_before (i64_max - 1) 0 (omega arith) (omega arith)))
  | inr later ↦
      rw later (read_back (negsuc n) k h r (λ (e, z). absurd (ground (arith, later, e, z))))
]

pub system_from_timestamp-saturated :
    (t : SystemTime)
    → IsInRange t
    → system_from_timestamp (timestamp_from_system t) ≡ some (saturated_time t)
system_from_timestamp-saturated t v = saturated_back t.secs t.nanos v.below_second v.in_range

-- A duration's seconds are cut off at i64::MAX.
abbrev pub saturated_duration : Duration → Duration
saturated_duration d = record { secs = min d.secs i64_max; nanos = d.nanos }

pub std_from_duration-saturated :
    (d : Duration)
    → d.nanos < billion
    → std_from_duration (duration_from_std d) ≡ some (saturated_duration d)
unfolding std_from_duration duration_from_std
std_from_duration-saturated d l = ground arith
