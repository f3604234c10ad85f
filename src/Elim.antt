-- ===== src/Elim.antt =====
-- matrixelim.c: elimination over the field, with rank, inverse and kernel. `rhs` is the optional
-- second matrix, `none` for NULL.
pub mod Rows
pub mod Agreement
pub mod Corank
pub mod Echelon
pub mod Images
pub mod FreeColumn
pub mod Kernel
pub mod Inverse
pub mod Reduction
pub mod Linked
pub mod Line
pub mod Exists
use meds2end.Base.{ℕ, zero, suc, ◌+◌, ◌-◌, ◌*◌, ◌>>=◌, for_up}
use meds2end.Base.{Bool, true, false, not, Option, none, some, List}
use meds2end.Base.{ltb, leb, ◌==◌, if◌then◌else◌, at, set, replicate, drop}
use meds2end.Base.Grid.{entry}
use meds2end.Field.{gf_mul, gf_sub, gf_inv, gf_neg}
use meds2end.Matrix.{mat_zero, mat_copy, mat_identity, mat_transpose, mat_set_col}
use mathlib.Core.Option

unfoldable pub swap_rows : List ℕ → ℕ → ℕ → ℕ → List ℕ
swap_rows a r1 r2 n =
    if r1 == r2
    then a
    else for_up n
        (λ c b.
          let tmp = entry n b r1 c in set (set b (r1 * n + c) (entry n b r2 c)) (r2 * n + c) tmp)
        a

unfoldable pub scale_row : List ℕ → ℕ → ℕ → ℕ → List ℕ
scale_row a row scale n = for_up n (λ c b. set b (row * n + c) (gf_mul (entry n b row c) scale)) a

unfoldable pub row_sub_mul : List ℕ → ℕ → ℕ → ℕ → ℕ → List ℕ
row_sub_mul a dst src factor n =
    for_up n
      (λ c b. set b (dst * n + c) (gf_sub (entry n b dst c) (gf_mul factor (entry n b src c)))) a

-- The state of the core loop: both matrices, `pivot_row`, and `info.pivot_cols`.
pub record Elimination : Type 0 where
  pub a : List ℕ
  pub rhs : Option (List ℕ)
  pub pivot_row : ℕ
  pub pivot_cols : List ℕ

-- The search for a pivot: the first row from r on, of the `left` rows that remain, whose element
-- in the column is not 0.
unfoldable pub find_pivot : List ℕ → ℕ → ℕ → ℕ → ℕ → Option ℕ
find_pivot a n col zero r = none
find_pivot a n col (suc left) r =
    let rest = find_pivot a n col left (r + 1) in if entry n a r col == 0 then rest else some r

-- One round of the loop over the other rows.
unfoldable pub eliminate_row : ℕ → ℕ → ℕ → ℕ → List ℕ × Option (List ℕ) → List ℕ × Option (List ℕ)
eliminate_row n pivot_row col r (a, rhs) =
    if r == pivot_row
    then (a, rhs)
    else let factor = entry n a r col in
      if factor == 0 then (a, rhs) else (
        row_sub_mul a r pivot_row factor n,
        Option.map (λ b. row_sub_mul b r pivot_row factor n) rhs,
      )

-- What follows a found pivot: swap, scale, eliminate, record the column.
unfoldable pub apply_pivot : ℕ → ℕ → ℕ → Elimination → Elimination
apply_pivot n col pivot s =
    let a1 = swap_rows s.a s.pivot_row pivot n in
    let rhs1 = Option.map (λ b. swap_rows b s.pivot_row pivot n) s.rhs in
    let inv = gf_inv (entry n a1 s.pivot_row col) in
    let a2 = scale_row a1 s.pivot_row inv n in
    let rhs2 = Option.map (λ b. scale_row b s.pivot_row inv n) rhs1 in
    let (a3, rhs3) = for_up n (eliminate_row n s.pivot_row col) (a2, rhs2) in
    record {
      a = a3;
      rhs = rhs3;
      pivot_row = s.pivot_row + 1;
      pivot_cols = set s.pivot_cols s.pivot_row col;
    }

-- One column. The loop ends when `pivot_row` reaches n; from there on nothing changes.
unfoldable pub rref_column : ℕ → ℕ → Elimination → Elimination
rref_column n col s =
    if ltb s.pivot_row n
    then elim (find_pivot s.a n col (n - s.pivot_row) s.pivot_row) [
      | none ↦ s
      | some pivot ↦ apply_pivot n col pivot s
    ]
    else s

-- The field `rank` of the result is the final `pivot_row`.
unfoldable pub rref_core : ℕ → List ℕ → Option (List ℕ) → Elimination
rref_core n a rhs =
    for_up n (rref_column n)
      (record { a = a; rhs = rhs; pivot_row = 0; pivot_cols = replicate n 0 })

unfoldable pub mat_rank : List ℕ → ℕ → ℕ
mat_rank a n = (rref_core n (mat_copy a n) none).pivot_row

unfoldable pub mat_is_invertible : List ℕ → ℕ → Bool
mat_is_invertible a n = mat_rank a n == n

-- The content of A_inv; `none` is the result -1, which writes nothing.
unfoldable pub mat_inv_vartime : List ℕ → ℕ → Option (List ℕ)
mat_inv_vartime a n =
    let info = rref_core n (mat_copy a n) (some (mat_identity n)) in
    if not (info.pivot_row == n) then none else Option.map (λ right. mat_copy right n) info.rhs

unfoldable pub mat_inv : List ℕ → ℕ → ℕ → Option (List ℕ)
mat_inv a a_r a_c = if not (a_r == a_c) then none else mat_inv_vartime a a_r

-- The first column from c on, of the `left` that remain, that is not marked.
unfoldable pub find_free : List ℕ → ℕ → ℕ → Option ℕ
find_free is_pivot zero c = none
find_free is_pivot (suc left) c =
    let rest = find_free is_pivot left (c + 1) in if at is_pivot c == 0 then some c else rest

unfoldable pub mat_right_kernel_corank1 : List ℕ → ℕ → Option (List ℕ)
mat_right_kernel_corank1 a n =
    let info = rref_core n (mat_copy a n) none in
    let rank = info.pivot_row in
    if not (rank == n - 1) then none else do
      let is_pivot = for_up rank (λ i marks. set marks (at info.pivot_cols i) 1) (replicate n 0)
      free_col ← find_free is_pivot n 0
      let start = set (replicate n 0) free_col 1
      some (
          for_up rank
            (λ i kernel. set kernel (at info.pivot_cols i) (gf_neg (entry n info.a i free_col)))
            start)

unfoldable pub mat_left_kernel_corank1 : List ℕ → ℕ → Option (List ℕ)
mat_left_kernel_corank1 a n = mat_right_kernel_corank1 (mat_transpose a n) n

-- The matrix whose first columns are the vectors of the basis.
unfoldable pub basis_matrix : List ℕ → ℕ → ℕ → List ℕ
basis_matrix basis basis_count n =
    for_up basis_count (λ i b. mat_set_col b i (drop (i * n) basis) n) (mat_zero n)

unfoldable pub vec_in_span : List ℕ → List ℕ → ℕ → ℕ → Bool
vec_in_span v basis basis_count n =
    if ltb n basis_count
    then true
    else let b = basis_matrix basis basis_count n in
      if leb n basis_count then true else mat_rank (mat_set_col b basis_count v n) n == mat_rank b n

unfoldable pub vec_extends_independent_set : List ℕ → List ℕ → ℕ → ℕ → Bool
vec_extends_independent_set v basis basis_count n =
    if leb n basis_count
    then false
    else mat_rank (mat_set_col (basis_matrix basis basis_count n) basis_count v n) n
      == basis_count + 1
