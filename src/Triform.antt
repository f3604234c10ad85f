-- ===== src/Triform.antt =====
-- triform.h and triform.c: trilinear forms as n consecutive row-major slices.
pub mod Partial
pub mod Points
pub mod Slices
pub mod Sums
pub mod Eval
pub mod Pullback
use meds2end.Base.{ℕ, zero, suc, ◌+◌, ◌-◌, ◌*◌, for_up, List, at, set, replicate, length}
use meds2end.Base.Grid.{entry, fill_vec}
use meds2end.Base.Slices.{slice, write_at}
use meds2end.Field.{gf_add, gf_mul}
use meds2end.Matrix.{
  mat_transpose, mat_mul, mat_vec_mul, mat_transpose_vec_mul, mat_set_col, mat_linear_combination,
}

abbrev pub triform_slice_size : ℕ → ℕ
triform_slice_size n = n * n

abbrev pub triform_element_count : ℕ → ℕ
triform_element_count n = n * n * n

abbrev pub triform_index : ℕ → ℕ → ℕ → ℕ → ℕ
triform_index s row col n = s * triform_slice_size n + (row * n + col)

-- The n x n elements from `M + slice * n * n` on.
abbrev pub triform_slice : List ℕ → ℕ → ℕ → List ℕ
triform_slice form s n = slice form (s * triform_slice_size n) (n * n)

unfoldable pub triform_matrix_at_w : List ℕ → List ℕ → ℕ → List ℕ
triform_matrix_at_w form w n = mat_linear_combination form w n n

-- The argument `phi_u` is the content of the output before the call.
unfoldable pub triform_phi_u : List ℕ → List ℕ → List ℕ → ℕ → List ℕ
triform_phi_u phi_u form u n =
    for_up n (λ s phi. mat_set_col phi s (mat_transpose_vec_mul (triform_slice form s n) u n) n)
      phi_u

unfoldable pub triform_phi_v : List ℕ → List ℕ → List ℕ → ℕ → List ℕ
triform_phi_v phi_v form v n =
    for_up n (λ s phi. mat_set_col phi s (mat_vec_mul (triform_slice form s n) v n) n) phi_v

-- The loop over the rows of one slice.
unfoldable pub bilinear_value : List ℕ → List ℕ → ℕ → ℕ
bilinear_value u product n = for_up n (λ row acc. gf_add acc (gf_mul (at u row) (at product row))) 0

unfoldable pub triform_eval : List ℕ → List ℕ → List ℕ → List ℕ → ℕ → ℕ
triform_eval form u v w n =
    for_up n
      (λ s result.
        gf_add result
          (gf_mul (at w s) (bilinear_value u (mat_vec_mul (triform_slice form s n) v n) n)))
      0

-- Slice `out_slice` of the result.
unfoldable pub pullback_slice : List ℕ → List ℕ → List ℕ → List ℕ → ℕ → ℕ → List ℕ
pullback_slice form a b c n out_slice =
    let coefficients = fill_vec n (λ in_slice. entry n c in_slice out_slice) (replicate n 0) in
    let combined = mat_linear_combination form coefficients n n in
    let left_product = mat_mul (mat_transpose a n) combined n in mat_mul left_product b n

-- The argument `out` is the content of the output before the call.
unfoldable pub triform_action_pullback : List ℕ → List ℕ → List ℕ → List ℕ → List ℕ → ℕ → List ℕ
triform_action_pullback out form a b c n =
    for_up n (λ j t. write_at t (j * triform_slice_size n) (pullback_slice form a b c n j)) out
