-- ===== src/Common/Members.antt =====
-- `any`, `all` and `retain` of Rust's iterators as functions into Bool, and membership with its place.
use mathlib.Core.Path.{◌≡◌, refl}
use mathlib.Core.Logic.{◌⊎◌, inl, inr}
use mathlib.Core.Bool.{Bool, true, false, ◌&&◌, ◌||◌}
use mathlib.Core.List.{List, [], ◌∷◌, ◌++◌}
use native.Mathlib.Omega.{arith}
use storj_uplink.Common.Tests.{if◌then◌else◌, Bool-cases}

pub data Elem {ℓ} {A : Type ℓ} (x : A) : List A → Type ℓ where
  here : {xs : List A} → Elem x (x ∷ xs)
  there : {y : A} {xs : List A} → Elem x xs → Elem x (y ∷ xs)

module _ {ℓ} {A : Type ℓ} where
  unfoldable pub any : (A → Bool) → List A → Bool
  any f [] = false
  any f (x ∷ xs) = f x || any f xs

  unfoldable pub all : (A → Bool) → List A → Bool
  all f [] = true
  all f (x ∷ xs) = f x && all f xs

  unfoldable pub retain : (A → Bool) → List A → List A
  retain f [] = []
  retain f (x ∷ xs) = if f x then x ∷ retain f xs else retain f xs

  Elem-cons : (x y : A) (zs : List A) → Elem x (y ∷ zs) → (x ≡ y) ⊎ Elem x zs
  Elem-cons x y zs here = inl refl
  Elem-cons x y zs (there m) = inr m

  pub any-Elem : (f : A → Bool) (xs : List A) → any f xs ≡ true → (x : A) × Elem x xs × (f x ≡ true)
  unfolding any
  any-Elem f [] h = cc
  any-Elem f (x ∷ xs) h = elim (Bool-cases (f x)) [
    | inl e ↦ (x, here, e)
    | inr e ↦ let (y, m, p) = any-Elem f xs (rw e at h) in (y, there m, p)
  ]

  pub Elem-any : (f : A → Bool) (x : A) (xs : List A) → Elem x xs → f x ≡ true → any f xs ≡ true
  unfolding any
  Elem-any f x [] m e = elim m [ ]
  Elem-any f x (y ∷ xs) here e = rw e
  Elem-any f x (y ∷ xs) (there m) e = ground (arith, Elem-any f x xs m e)

  pub all-Elem : (f : A → Bool) (x : A) (xs : List A) → all f xs ≡ true → Elem x xs → f x ≡ true
  unfolding all
  all-Elem f x [] h m = elim m [ ]
  all-Elem f x (y ∷ xs) h here = ground arith
  all-Elem f x (y ∷ xs) h (there m) = all-Elem f x xs (ground arith) m

  pub all_intro :
      (f : A → Bool) (xs : List A) → ((x : A) → Elem x xs → f x ≡ true) → all f xs ≡ true
  unfolding all
  all_intro f [] h = refl
  all_intro f (x ∷ xs) h = ground (arith, h x here, all_intro f xs (λ y m. h y (there m)))

  pub Elem-retain :
      (f : A → Bool) (x : A) (xs : List A) → Elem x xs → f x ≡ true → Elem x (retain f xs)
  unfolding retain
  Elem-retain f x [] m e = elim m [ ]
  Elem-retain f x (y ∷ xs) here e = rw e here
  Elem-retain f x (y ∷ xs) (there m) e = elim (Bool-cases (f y)) [
    | inl k ↦ rw k (there (Elem-retain f x xs m e))
    | inr k ↦ rw k (Elem-retain f x xs m e)
  ]

  pub retain-Elem :
      (f : A → Bool) (x : A) (xs : List A) → Elem x (retain f xs) → Elem x xs × (f x ≡ true)
  unfolding retain
  retain-Elem f x [] m = elim m [ ]
  retain-Elem f x (y ∷ xs) m = elim (Bool-cases (f y)) [
    | inl k ↦ elim (Elem-cons x y (retain f xs) (rw k at m)) [
      | inl e ↦ (rw e here, rw e k)
      | inr n ↦ let (n', e) = retain-Elem f x xs n in (there n', e)
    ]
    | inr k ↦ let (n, e) = retain-Elem f x xs (rw k at m) in (there n, e)
  ]

  pub Elem-append_left : (x : A) (xs ys : List A) → Elem x xs → Elem x (xs ++ ys)
  Elem-append_left x [] ys m = elim m [ ]
  Elem-append_left x (y ∷ xs) ys here = here
  Elem-append_left x (y ∷ xs) ys (there m) = there (Elem-append_left x xs ys m)

  pub Elem-append_right : (x : A) (xs ys : List A) → Elem x ys → Elem x (xs ++ ys)
  Elem-append_right x [] ys m = m
  Elem-append_right x (y ∷ xs) ys m = there (Elem-append_right x xs ys m)
