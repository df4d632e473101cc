-- ===== src/Ec/Matrix.antt =====
-- crates/storj-ec/src/gf.rs and fec.rs: matrices over the field, each as the list of its rows: the
-- Vandermonde inverse, the encoding matrix and the inversion by Gauss and Jordan.
pub mod Identity
use storj_uplink.Common.Arrays.{nth, set, range}
use storj_uplink.Ec.Error.{Error, singular_matrix, pivot_not_found}
use storj_uplink.Ec.Field.{at, exp, inverse, mul, addmul}
use storj_uplink.Common.{
  ℕ, zero, suc, ◌+◌, ◌-◌, ◌*◌, ◌%◌, bit_xor, Bool, true, false, not, ◌&&◌, List, [], ◌∷◌, ◌++◌, map,
  Option, none, some, ltb, ◌==◌, if◌then◌else◌, Result, ok, err, ◌>>=◌, ◌>>◌, Bytes, bytes_eq,
  replicate,
}

abbrev pub Matrix : Type 0
Matrix = List Bytes

abbrev pub row_at : ℕ → Matrix → Bytes
row_at = nth []

-- The first loop of `create_inverted_vdm`: `for j in (k - i)..(k - 1)` on `c`.
unfoldable pub vdm_inner : ℕ → List ℕ → Bytes → Bytes
vdm_inner e [] c = c
vdm_inner e (j ∷ js) c = vdm_inner e js (set j (bit_xor (at j c) (mul e (at (j + 1) c))) c)

unfoldable pub vdm_outer : ℕ → List ℕ → Bytes → Bytes
unfolding vdm_inner
vdm_outer k [] c = c
vdm_outer k (i ∷ is) c =
    let c' = vdm_inner (exp i) (range (k - i) (i - 1)) c in
    vdm_outer k is (set (k - 1) (bit_xor (at (k - 1) c') (exp i)) c')

-- `for i in (0..k - 1).rev()`: the state is `b` and `t`.
unfoldable pub vdm_column_loop : ℕ → ℕ → Bytes → Bytes → ℕ → Bytes × ℕ
vdm_column_loop zero index c b t = (b, t)
vdm_column_loop (suc i) index c b t =
    let v = bit_xor (at (i + 1) c) (mul index (at (i + 1) b)) in
    vdm_column_loop i index c (set i v b) (bit_xor v (mul index t))

-- What `create_inverted_vdm` writes to the column `row`.
unfoldable pub vdm_column : ℕ → ℕ → Bytes
unfolding vdm_outer vdm_column_loop
vdm_column k row =
    let c = vdm_outer k (range 1 (k - 1)) (replicate k 0) in
    let index : ℕ = if row == 0 then 0 else exp row in
    let (b, t) = vdm_column_loop (k - 1) index c (set (k - 1) 1 (replicate k 0)) 1 in
    if k == 1 then 1 ∷ [] else map (mul (inverse t)) b

unfoldable pub xor_sum : List ℕ → ℕ
xor_sum [] = 0
xor_sum (x ∷ xs) = bit_xor x (xor_sum xs)

unfoldable pub unit_row : ℕ → ℕ → Bytes
unit_row k i = set i 1 (replicate k 0)

-- `build_enc_matrix`: one row of it.
unfoldable pub enc_row : ℕ → ℕ → Bytes
unfolding vdm_column xor_sum unit_row
enc_row k row =
    let parity = λ (col : ℕ).
      let inverted = vdm_column k col in
      xor_sum (map (λ i. mul (exp ((row * i) % 255)) (at i inverted)) (range 0 k)) in
    if ltb row k then unit_row k row else map parity (range 0 k)

unfoldable pub build_enc_matrix : ℕ → ℕ → Matrix
unfolding enc_row
build_enc_matrix k n = map (enc_row k) (range 0 n)

-- The inner loop of `search_pivot`: the first free column with an entry of the row.
unfoldable pub free_entry : List Bool → Bytes → List ℕ → Option ℕ
free_entry ipiv row [] = none
free_entry ipiv row (i ∷ is) =
    if not (nth true i ipiv) && not (at i row == 0) then some i else free_entry ipiv row is

unfoldable pub search_rows : List Bool → Matrix → ℕ → List ℕ → Option (ℕ × ℕ)
unfolding free_entry
search_rows ipiv matrix k [] = none
search_rows ipiv matrix k (row ∷ rows) =
    let more = search_rows ipiv matrix k rows in
    if nth true row ipiv then more else elim (free_entry ipiv (row_at row matrix) (range 0 k)) [
      | none ↦ more
      | some i ↦ some (row, i)
    ]

-- `search_pivot`: the pair that it returns, and the flags with the new pivot.
unfoldable pub search_pivot : List Bool → ℕ → Matrix → ℕ → Result Error ((ℕ × ℕ) × List Bool)
unfolding search_rows
search_pivot ipiv col matrix k =
    if not (nth true col ipiv) && not (at col (row_at col matrix) == 0)
    then ok ((col, col), set col true ipiv)
    else elim (search_rows ipiv matrix k (range 0 k)) [
      | none ↦ err pivot_not_found
      | some (row, i) ↦ ok ((row, i), set i true ipiv)
    ]

unfoldable pub swap {ℓ} : {A : Type ℓ} → A → ℕ → ℕ → List A → List A
swap other i j xs = set i (nth other j xs) (set j (nth other i xs) xs)

-- The elimination of the column from the other rows.
unfoldable pub eliminate : ℕ → Bytes → ℕ → Matrix → Matrix
eliminate icol pivot_row i [] = []
eliminate icol pivot_row i (row ∷ rows) =
    (if i == icol then row else addmul (set icol 0 row) pivot_row (at icol row))
    ∷ eliminate icol pivot_row (suc i) rows

-- The loop of `invert_matrix` over the columns; the pairs are `indxr` and `indxc`.
unfoldable pub invert_loop :
    ℕ → ℕ → ℕ → List Bool → List (ℕ × ℕ) → Matrix → Result Error (List (ℕ × ℕ) × Matrix)
unfolding search_pivot swap eliminate unit_row
invert_loop k zero col ipiv pairs matrix = ok (pairs, matrix)
invert_loop k (suc count) col ipiv pairs matrix = do
  ((icol, irow), ipiv') ← search_pivot ipiv col matrix k
  let swapped : Matrix = if irow == icol then matrix else swap [] irow icol matrix
  let pivot = row_at icol swapped
  let c = at icol pivot
  let pivot_row : Bytes = if c == 1 then pivot else map (mul (inverse c)) (set icol 1 pivot)
  let with_pivot = set icol pivot_row swapped
  let cleared : Matrix =
      if bytes_eq pivot_row (unit_row k icol)
      then with_pivot
      else eliminate icol pivot_row 0 with_pivot
  let more = invert_loop k count (suc col) ipiv' (pairs ++ (irow, icol) ∷ []) cleared
  if c == 0 then err singular_matrix else more

unfoldable pub swap_columns : List (ℕ × ℕ) → Matrix → Matrix
unfolding swap
swap_columns [] matrix = matrix
swap_columns ((r, c) ∷ pairs) matrix =
    swap_columns pairs (if r == c then matrix else map (swap 0 r c) matrix)

unfoldable pub invert_matrix : Matrix → ℕ → Result Error Matrix
unfolding invert_loop swap_columns
invert_matrix matrix k = do
  (pairs, reduced) ← invert_loop k k 0 (replicate k false) [] matrix
  ok (swap_columns pairs reduced)
