-- ===== src/Tests/Canonical.antt =====
-- canonical.c: a run of canonical_form, and its theorems at concrete inputs.
use meds2end.Base.{ℕ, ◌≡◌, refl, true, some, List, [], ◌∷◌}
use meds2end.Base.{replicate, length-replicate, for_up, for_up?}
use meds2end.Base.Grid.{fill, fill_vec}
use meds2end.Base.Slices.{write_at}
use meds2end.Base.Columns.{fill_columns}
use meds2end.Field.{gf_add, gf_sub, gf_neg, gf_mul, gf_inv, gf_inv_at, gf_inv_loop, gf_inv_checked}
use meds2end.Field.{prefix_step, unwind_step, gf_batch_inv}
use meds2end.Matrix.{
  accumulate, mat_zero, mat_copy, mat_transpose, mat_mul, mat_vec_mul, mat_transpose_vec_mul,
  mat_set_col, mat_linear_combination, mat_diag_scale,
}
use meds2end.Elim.{
  swap_rows, scale_row, row_sub_mul, find_pivot, eliminate_row, apply_pivot, rref_column, rref_core,
  mat_rank, mat_is_invertible, find_free, mat_right_kernel_corank1, mat_left_kernel_corank1,
  basis_matrix, vec_in_span, vec_extends_independent_set,
}
use meds2end.Triform.{
  triform_matrix_at_w, triform_phi_u, triform_phi_v, pullback_slice, triform_action_pullback,
}
use meds2end.Canon.Apply.{IsNormal, canonical_form-IsNormal}
use meds2end.Canon.{
  phi_u_lker, phi_v_rker, matrix_at_w_lker, nonzero_from, vector_is_nonzero, vector_list_append,
  vector_list_to_matrix, anchor_round, collect_normalization_anchors, diagonal_round,
  finish_diagonals, compute_normalization_diagonals, apply_normalization, next_u_step, uvw_round,
  finish_bases, canonical_build_uvw, canonical_diagonal_normalize, canonical_form,
}

-- A form of 5 x 5 x 5 coefficients, and its canonical form at (1, 0, 0, 0, 0).
abbrev pub form : List ℕ
form =
    0 ∷ 3 ∷ 0 ∷ 2 ∷ 3 ∷ 3 ∷ 2 ∷ 3 ∷ 2 ∷ 1 ∷ 1 ∷ 2 ∷ 1 ∷ 0 ∷ 2 ∷ 1 ∷ 2 ∷ 0 ∷ 0 ∷ 2 ∷ 3 ∷ 0 ∷ 2 ∷ 3
    ∷ 2 ∷ 0 ∷ 3 ∷ 3 ∷ 2 ∷ 0 ∷ 0 ∷ 0 ∷ 3 ∷ 0 ∷ 3 ∷ 2 ∷ 1 ∷ 2 ∷ 0 ∷ 1 ∷ 1 ∷ 1 ∷ 1 ∷ 3 ∷ 0 ∷ 0 ∷ 2 ∷ 3
    ∷ 0 ∷ 2 ∷ 0 ∷ 0 ∷ 2 ∷ 1 ∷ 2 ∷ 3 ∷ 0 ∷ 3 ∷ 2 ∷ 1 ∷ 2 ∷ 1 ∷ 1 ∷ 1 ∷ 0 ∷ 2 ∷ 3 ∷ 0 ∷ 0 ∷ 1 ∷ 1 ∷ 0
    ∷ 0 ∷ 3 ∷ 2 ∷ 0 ∷ 1 ∷ 3 ∷ 2 ∷ 3 ∷ 3 ∷ 2 ∷ 0 ∷ 2 ∷ 0 ∷ 3 ∷ 2 ∷ 1 ∷ 1 ∷ 0 ∷ 2 ∷ 0 ∷ 1 ∷ 2 ∷ 1 ∷ 2
    ∷ 3 ∷ 0 ∷ 0 ∷ 1 ∷ 0 ∷ 0 ∷ 0 ∷ 0 ∷ 0 ∷ 1 ∷ 0 ∷ 3 ∷ 0 ∷ 2 ∷ 0 ∷ 0 ∷ 0 ∷ 1 ∷ 1 ∷ 0 ∷ 3 ∷ 1 ∷ 0 ∷ 0
    ∷ 3 ∷ 0 ∷ 2 ∷ 0 ∷ 1 ∷ []

abbrev pub point : List ℕ
point = 1 ∷ 0 ∷ 0 ∷ 0 ∷ 0 ∷ []

abbrev pub normal : List ℕ
normal =
    0 ∷ 1 ∷ 1 ∷ 1 ∷ 1 ∷ 0 ∷ 0 ∷ 0 ∷ 0 ∷ 0 ∷ 0 ∷ 1 ∷ 0 ∷ 1724 ∷ 3946 ∷ 0 ∷ 1 ∷ 148 ∷ 0 ∷ 3193 ∷ 0 ∷ 1
    ∷ 1678 ∷ 2863 ∷ 0 ∷ 0 ∷ 0 ∷ 1 ∷ 3291 ∷ 280 ∷ 1 ∷ 0 ∷ 3794 ∷ 3317 ∷ 1607 ∷ 0 ∷ 0 ∷ 0 ∷ 0 ∷ 0
    ∷ 4052 ∷ 0 ∷ 126 ∷ 0 ∷ 2455 ∷ 2326 ∷ 0 ∷ 1962 ∷ 2545 ∷ 0 ∷ 0 ∷ 1 ∷ 0 ∷ 842 ∷ 1047 ∷ 2248 ∷ 0 ∷ 0
    ∷ 2768 ∷ 1543 ∷ 701 ∷ 263 ∷ 0 ∷ 3411 ∷ 1217 ∷ 0 ∷ 0 ∷ 0 ∷ 0 ∷ 0 ∷ 1897 ∷ 3561 ∷ 0 ∷ 3462 ∷ 0 ∷ 0
    ∷ 1 ∷ 3568 ∷ 0 ∷ 2464 ∷ 1466 ∷ 0 ∷ 194 ∷ 0 ∷ 2980 ∷ 2366 ∷ 3497 ∷ 0 ∷ 0 ∷ 761 ∷ 3128 ∷ 2185
    ∷ 2979 ∷ 0 ∷ 2355 ∷ 0 ∷ 0 ∷ 0 ∷ 0 ∷ 0 ∷ 0 ∷ 1 ∷ 3988 ∷ 263 ∷ 0 ∷ 1725 ∷ 0 ∷ 1 ∷ 1937 ∷ 0 ∷ 616
    ∷ 781 ∷ 0 ∷ 4092 ∷ 0 ∷ 2555 ∷ 1722 ∷ 1128 ∷ 0 ∷ 0 ∷ 2088 ∷ 507 ∷ 2680 ∷ 2546 ∷ 0 ∷ []

canonical_form_run : canonical_form true 5 (replicate 125 0) form point 5 ≡ some normal
unfolding canonical_form canonical_diagonal_normalize canonical_build_uvw finish_bases uvw_round
    next_u_step apply_normalization compute_normalization_diagonals finish_diagonals diagonal_round
    collect_normalization_anchors anchor_round vector_list_to_matrix vector_list_append
    vector_is_nonzero nonzero_from matrix_at_w_lker phi_v_rker phi_u_lker triform_action_pullback
    pullback_slice triform_phi_v triform_phi_u triform_matrix_at_w vec_extends_independent_set
    vec_in_span basis_matrix mat_left_kernel_corank1 mat_right_kernel_corank1 find_free
    mat_is_invertible mat_rank rref_core rref_column apply_pivot eliminate_row find_pivot
    row_sub_mul scale_row swap_rows mat_diag_scale mat_linear_combination mat_set_col
    mat_transpose_vec_mul mat_vec_mul mat_mul mat_transpose mat_copy mat_zero accumulate
    gf_batch_inv unwind_step prefix_step gf_inv_checked gf_inv_loop gf_inv_at gf_inv gf_mul gf_neg
    gf_sub gf_add fill_columns write_at fill_vec fill for_up for_up?
canonical_form_run = refl

canonical_form-IsNormal_example : IsNormal 5 normal
canonical_form-IsNormal_example =
    canonical_form-IsNormal true 5 5 (replicate 125 0) form point normal
      (length-replicate {A = ℕ} 125 0) canonical_form_run
