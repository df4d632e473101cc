-- ===== src/Common/Arrays.antt =====
-- Arrays as lists: reads, writes and ranges of indices. A read out of range gives the default and a
-- write out of range nothing, where the source panics.
use Prim.Native.Nat.{ℕ, zero, suc, ◌+◌, ◌<◌}
use mathlib.Core.Path.{◌≡◌, refl, ap, ◌∙◌}
use mathlib.Core.Logic.{◌≢◌}
use mathlib.Core.List.{List, [], ◌∷◌, ◌++◌, map}
use native.Mathlib.Omega.{arith}
use storj_uplink.Common.Lists.{length}

module _ {ℓ} {A : Type ℓ} where
  abbrev pub nth : A → ℕ → List A → A
  nth other i [] = other
  nth other zero (x ∷ xs) = x
  nth other (suc i) (x ∷ xs) = nth other i xs

  abbrev pub set : ℕ → A → List A → List A
  set i a [] = []
  set zero a (x ∷ xs) = a ∷ xs
  set (suc i) a (x ∷ xs) = x ∷ set i a xs

  pub length-set : (i : ℕ) (a : A) (xs : List A) → length (set i a xs) ≡ length xs
  length-set i a [] = refl
  length-set zero a (x ∷ xs) = refl
  length-set (suc i) a (x ∷ xs) = ap suc (length-set i a xs)

  pub nth-set_same :
      (other : A) (i : ℕ) (a : A) (xs : List A) → i < length xs → nth other i (set i a xs) ≡ a
  nth-set_same other i a [] h = absurd (omega arith)
  nth-set_same other zero a (x ∷ xs) h = refl
  nth-set_same other (suc i) a (x ∷ xs) h = nth-set_same other i a xs (omega arith)

  pub nth-set_other :
      (other : A) (i j : ℕ) (a : A) (xs : List A)
      → i ≢ j
      → nth other j (set i a xs) ≡ nth other j xs
  nth-set_other other i j a [] h = refl
  nth-set_other other zero zero a (x ∷ xs) h = absurd (h refl)
  nth-set_other other zero (suc j) a (x ∷ xs) h = refl
  nth-set_other other (suc i) zero a (x ∷ xs) h = refl
  nth-set_other other (suc i) (suc j) a (x ∷ xs) h =
      nth-set_other other i j a xs (λ e. h (ap suc e))

  pub set-nth : (other : A) (i : ℕ) (xs : List A) → set i (nth other i xs) xs ≡ xs
  set-nth other i [] = refl
  set-nth other zero (x ∷ xs) = refl
  set-nth other (suc i) (x ∷ xs) = ap (◌∷◌ x) (set-nth other i xs)

-- The indices from a start on.
abbrev pub range : ℕ → ℕ → List ℕ
range start zero = []
range start (suc count) = start ∷ range (suc start) count

module _ {ℓ} {B : Type ℓ} where
  pub nth-map-range :
      (other : B) (f : ℕ → B) (start count i : ℕ)
      → i < count
      → nth other i (map f (range start count)) ≡ f (start + i)
  nth-map-range other f start zero i h = absurd (omega arith)
  nth-map-range other f start (suc count) zero h = ap f (omega arith)
  nth-map-range other f start (suc count) (suc i) h =
      nth-map-range other f (suc start) count i (omega arith) ∙ ap f (omega arith)

module _ {ℓ} {A : Type ℓ} where
  -- Lists of one length with the same entries are the same.
  pub list_ext :
      (other : A) (xs ys : List A)
      → length xs ≡ length ys
      → ((i : ℕ) → i < length xs → nth other i xs ≡ nth other i ys)
      → xs ≡ ys
  list_ext other [] [] l h = refl
  list_ext other [] (y ∷ ys) l h = absurd (omega arith)
  list_ext other (x ∷ xs) [] l h = absurd (omega arith)
  list_ext other (x ∷ xs) (y ∷ ys) l h =
      let head : x ≡ y = h 0 (omega arith) in
      let tail = list_ext other xs ys (omega arith) (λ i b. h (suc i) (omega arith)) in
      ap (λ (a : A). a ∷ xs) head ∙ ap (◌∷◌ y) tail

  pub nth-append_left :
      (other : A) (i : ℕ) (xs ys : List A) → i < length xs → nth other i (xs ++ ys) ≡ nth other i xs
  nth-append_left other i [] ys h = absurd (omega arith)
  nth-append_left other zero (x ∷ xs) ys h = refl
  nth-append_left other (suc i) (x ∷ xs) ys h = nth-append_left other i xs ys (omega arith)

pub length-range : (start count : ℕ) → length (range start count) ≡ count
length-range start zero = refl
length-range start (suc count) = ap suc (length-range (suc start) count)

pub nth-range : (other start count i : ℕ) → i < count → nth other i (range start count) ≡ start + i
nth-range other start zero i h = absurd (omega arith)
nth-range other start (suc count) zero h = omega arith
nth-range other start (suc count) (suc i) h =
    nth-range other (suc start) count i (omega arith) ∙ omega arith
