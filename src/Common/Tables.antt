-- ===== src/Common/Tables.antt =====
-- Rust's `HashMap` with byte-string keys as an association list: `get` finds the first entry,
-- `insert` replaces it in place or appends it. The order of a `HashMap` is not specified.
use mathlib.Core.Path.{◌≡◌, refl}
use mathlib.Core.List.{List, [], ◌∷◌}
use mathlib.Core.Option.{Option, none, some}
use native.Mathlib.Omega.{arith}
use storj_uplink.Common.Buffers.{Bytes, bytes_eq, bytes_eq_refl, bytes_eq→eq, bytes_eq_comm}
use mathlib.Core.Logic.{inl, inr}
use storj_uplink.Common.Tests.{if◌then◌else◌, Bool-cases}

module _ {ℓ} {V : Type ℓ} where
  unfoldable pub get : Bytes → List (Bytes × V) → Option V
  get key [] = none
  get key ((k, v) ∷ entries) = if bytes_eq k key then some v else get key entries

  unfoldable pub insert : Bytes → V → List (Bytes × V) → List (Bytes × V)
  insert key value [] = (key, value) ∷ []
  insert key value ((k, v) ∷ entries) =
      if bytes_eq k key then (k, value) ∷ entries else (k, v) ∷ insert key value entries

  pub get-insert :
      (wanted key : Bytes) (value : V) (entries : List (Bytes × V))
      → get wanted (insert key value entries)
        ≡ (if bytes_eq key wanted then some value else get wanted entries)
  unfolding get insert
  get-insert wanted key value [] = refl
  get-insert wanted key value ((k, v) ∷ entries) = elim (Bool-cases (bytes_eq k key)) [
    | inl e ↦
        let same : k ≡ key = bytes_eq→eq k key e in rw same (ground (arith, bytes_eq_refl key))
    | inr e ↦ elim (Bool-cases (bytes_eq k wanted)) [
      | inl w ↦
          let same : k ≡ wanted = bytes_eq→eq k wanted w in
          let other = bytes_eq_comm key wanted in ground (arith, e, w, other, rw same at e)
      | inr w ↦ ground (arith, e, w, get-insert wanted key value entries)
    ]
  ]
