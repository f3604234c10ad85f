-- ===== src/Matrix/Transpose.antt =====
-- pmod_mat_transpose into another array.
use meds2end.Base.{ℕ, ◌+◌, ◌*◌, ◌≤◌, ◌<◌, ◌≡◌, refl, ◌∙◌, arith, List}
use meds2end.Base.{length, replicate, length-replicate, get_or-replicate}
use meds2end.Base.Columns.{fill_columns, length-fill_columns, entry-fill_columns, fill_columns-lt}
use meds2end.Base.Grid.{entry}
use meds2end.Params.{trine_q}
use meds2end.Matrix.Products.{IsReduced}
use meds2end.Matrix.{mat_transpose}

module _ (n : ℕ) (a : List ℕ) where
  zeros-room : n * n ≤ length (replicate {A = ℕ} (n * n) 0)
  zeros-room = omega (arith, length-replicate {A = ℕ} (n * n) 0)

  pub length-mat_transpose : length (mat_transpose a n) ≡ n * n
  unfolding mat_transpose fill_columns
  length-mat_transpose =
      length-fill_columns n n (λ r c. r * n + c) (λ r c. entry n a c r) (replicate (n * n) 0)
        zeros-room (λ r c. refl)
      ∙ length-replicate {A = ℕ} (n * n) 0

  -- The entry at (i, j) of the transposed matrix is the entry at (j, i), within the dimension.
  pub entry-mat_transpose :
      (i j : ℕ) → i < n → j < n → entry n (mat_transpose a n) i j ≡ entry n a j i
  unfolding mat_transpose fill_columns
  entry-mat_transpose =
      entry-fill_columns n n (λ r c. r * n + c) (λ r c. entry n a c r) (replicate (n * n) 0)
        zeros-room (λ r c. refl)

pub mat_transpose-IsReduced : (n : ℕ) (a : List ℕ) → IsReduced a → IsReduced (mat_transpose a n)
unfolding mat_transpose fill_columns
mat_transpose-IsReduced n a h =
    fill_columns-lt trine_q n n (λ r c. r * n + c) (λ r c. entry n a c r) _
      (λ i. rw (get_or-replicate {A = ℕ} (n * n) i 0) (omega arith)) (λ r c hr hc. h (c * n + r))
