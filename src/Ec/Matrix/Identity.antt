-- ===== src/Ec/Matrix/Identity.antt =====
-- The identity matrix is its own inverse for `invert_matrix`, which finds each pivot on the diagonal.
use storj_uplink.Common.Arrays.{
  nth, set, range, nth-set_same, nth-set_other, set-nth, nth-map-range,
}
use storj_uplink.Ec.Field.{at}
use storj_uplink.Ec.Matrix.{
  Matrix, row_at, unit_row, search_pivot, invert_loop, swap_columns, invert_matrix,
}
use storj_uplink.Common.{
  ℕ, zero, suc, ◌+◌, ◌≤◌, ◌<◌, ◌≡◌, refl, sym, ap, ◌∙◌, arith, Bool, true, false, List, [], ◌∷◌,
  ◌++◌, map, ◌==◌, ok, bytes_eq_refl, replicate, All, length-replicate, All-append,
}

unfoldable pub identity : ℕ → Matrix
identity k = map (unit_row k) (range 0 k)

row_at-identity : (k i : ℕ) → i < k → row_at i (identity k) ≡ unit_row k i
unfolding identity
row_at-identity k i h = nth-map-range [] (unit_row k) 0 k i h ∙ ap (unit_row k) (omega arith)

at-unit_row : (k i : ℕ) → i < k → at i (unit_row k i) ≡ 1
unfolding unit_row
at-unit_row k i h = nth-set_same 0 i 1 (replicate k 0) (omega (arith, length-replicate {A = ℕ} k 0))

-- From a column on, the flags are down.
abbrev IsFree : ℕ → ℕ → List Bool → Type 0
IsFree k col ipiv = (j : ℕ) → col ≤ j → j < k → nth true j ipiv ≡ false

nth-replicate : (k j : ℕ) → j < k → nth true j (replicate k false) ≡ false
nth-replicate zero j h = absurd (omega arith)
nth-replicate (suc k) zero h = refl
nth-replicate (suc k) (suc j) h = nth-replicate k j (omega arith)

search_pivot-identity :
    (k col : ℕ) (ipiv : List Bool)
    → col < k
    → nth true col ipiv ≡ false
    → search_pivot ipiv col (identity k) k ≡ ok ((col, col), set col true ipiv)
unfolding search_pivot
search_pivot-identity k col ipiv h f =
    let one : at col (row_at col (identity k)) ≡ 1 =
      rw (row_at-identity k col h) (at-unit_row k col h) in
    rw (f, search_pivot) (rw one refl)

abbrev IsDiagonal : List (ℕ × ℕ) → Type 0
IsDiagonal = All (λ p. p.0 ≡ p.1)

invert_step :
    (k count col : ℕ) (ipiv : List Bool) (pairs : List (ℕ × ℕ))
    → col < k
    → nth true col ipiv ≡ false
    → invert_loop k (suc count) col ipiv pairs (identity k)
      ≡ invert_loop k count (suc col) (set col true ipiv) (pairs ++ (col, col) ∷ []) (identity k)
unfolding invert_loop
invert_step k count col ipiv pairs h f =
    let row = row_at-identity k col h in
    let one = at-unit_row k col h in
    let same : (col == col) ≡ true = ground arith in
    let back : set col (unit_row k col) (identity k) ≡ identity k =
      rw (sym row) (set-nth [] col (identity k)) in
    rw (search_pivot-identity k col ipiv h f, invert_loop)
      (rw same (rw row (rw one (rw (bytes_eq_refl (unit_row k col)) (rw back refl)))))

invert_loop-identity :
    (k count col : ℕ) (ipiv : List Bool) (pairs : List (ℕ × ℕ))
    → count + col ≡ k
    → IsFree k col ipiv
    → IsDiagonal pairs
    → (pairs' : List (ℕ × ℕ)) × (invert_loop k count col ipiv pairs (identity k)
        ≡ ok (pairs', identity k))
      × IsDiagonal pairs'
invert_loop-identity k zero col ipiv pairs e f d = (pairs, unfold invert_loop in refl, d)
invert_loop-identity k (suc count) col ipiv pairs e f d =
    let below : col < k = omega arith in
    let (pairs', run, d') =
      invert_loop-identity k count (suc col) (set col true ipiv) (pairs ++ (col, col) ∷ [])
        (omega arith)
        (λ j l h.
          nth-set_other true col j true ipiv (λ q. absurd (omega arith)) ∙ f j (omega arith) h)
        (All-append (λ p. p.0 ≡ p.1) pairs ((col, col) ∷ []) d (refl, tt)) in
    (pairs', invert_step k count col ipiv pairs below (f col (omega arith) below) ∙ run, d')

swap_columns-diagonal :
    (pairs : List (ℕ × ℕ)) (matrix : Matrix) → IsDiagonal pairs → swap_columns pairs matrix ≡ matrix
unfolding swap_columns
swap_columns-diagonal [] matrix d = refl
swap_columns-diagonal ((r, c) ∷ pairs) matrix d =
    let same : (r == c) ≡ true = ground (arith, d.0) in
    rw same (swap_columns-diagonal pairs matrix d.1)

pub invert_matrix-identity : (k : ℕ) → invert_matrix (identity k) k ≡ ok (identity k)
unfolding invert_matrix
invert_matrix-identity k =
    let (pairs, run, d) =
      invert_loop-identity k k 0 (replicate k false) [] (omega arith) (λ j l h. nth-replicate k j h)
        tt in
    rw run (ap ok (swap_columns-diagonal pairs (identity k) d))
