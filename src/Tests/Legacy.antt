-- ===== src/Tests/Legacy.antt =====
-- util.c, the functions outside the scheme, and the systematic form: runs and the theorem at a
-- concrete input.
use meds2end.Base.{ℕ, ◌≡◌, refl, arith, List, [], ◌∷◌, at, some, none, replicate, for_up, for_up?}
use meds2end.Field.{gf_inv}
use meds2end.Matrix.{mat_transpose}
use meds2end.Matrix.Products.{IsReduced}
use meds2end.Matrix.Systematic.{
  add_lower_row, normalize_row, subtract_row, echelon_row, mat_row_echelon_ct, substitute_row,
  mat_back_substitution_ct, mat_syst_ct,
}
use meds2end.Triform.{triform_index, triform_action_pullback}
use meds2end.Legacy.{phi}
use meds2end.Legacy.Phi.{phi-pullback}
use meds2end.Legacy.Solve.{
  solve, width, negated_transpose, system, eliminate_last, normalize_last, substitute_last,
  initial_solution, incomplete_blocks, complete_blocks,
}

abbrev form : List ℕ
form = 1 ∷ 2 ∷ 3 ∷ 4 ∷ 5 ∷ 6 ∷ 7 ∷ 8 ∷ []

abbrev square_a : List ℕ
square_a = 1 ∷ 2 ∷ 3 ∷ 4 ∷ []

abbrev square_b : List ℕ
square_b = 5 ∷ 1 ∷ 0 ∷ 2 ∷ []

form-IsReduced : IsReduced form
form-IsReduced i = grind arith

square_a-IsReduced : IsReduced square_a
square_a-IsReduced i = grind arith

square_b-IsReduced : IsReduced square_b
square_b-IsReduced i = grind arith

phi-pullback_example :
    at
      (phi (replicate 8 0) (mat_transpose square_a 2) square_b (mat_transpose square_a 2) form 2)
      (triform_index 1 0 1 2)
    ≡ at (triform_action_pullback form form square_a square_b square_a 2) (triform_index 1 0 1 2)
phi-pullback_example =
    phi-pullback 2 form square_a square_b square_a (replicate 8 0) form 1 0 1 (omega arith)
      form-IsReduced square_a-IsReduced square_b-IsReduced square_a-IsReduced (omega arith)
      (omega arith) (omega arith) (omega arith) (omega arith)

-- The pivot of the first row is 0, and the second row is added to it.
syst_run : mat_syst_ct (0 ∷ 1 ∷ 5 ∷ 1 ∷ 1 ∷ 7 ∷ []) 2 3 ≡ some (1 ∷ 0 ∷ 2 ∷ 0 ∷ 1 ∷ 5 ∷ [])
unfolding mat_syst_ct mat_row_echelon_ct mat_back_substitution_ct echelon_row add_lower_row
    normalize_row subtract_row substitute_row for_up for_up? gf_inv
syst_run = refl

syst_fails : mat_syst_ct (1 ∷ 1 ∷ 5 ∷ 1 ∷ 1 ∷ 7 ∷ []) 2 3 ≡ none
unfolding mat_syst_ct mat_row_echelon_ct mat_back_substitution_ct echelon_row add_lower_row
    normalize_row subtract_row substitute_row for_up for_up? gf_inv
syst_fails = refl

solve_run :
    solve
      (1 ∷ 11 ∷ 35 ∷ 73 ∷ 125 ∷ 191 ∷ 271 ∷ 365 ∷ 473 ∷ 595 ∷ 731 ∷ 881 ∷ 1045 ∷ 1223 ∷ 1415 ∷ 1621
        ∷ 1841 ∷ 2075 ∷ 2323 ∷ 2585 ∷ 2861 ∷ 3151 ∷ 3455 ∷ 3773 ∷ 12 ∷ 358 ∷ 718 ∷ [])
      5
      3
    ≡ some (
      2704 ∷ 2715 ∷ 316 ∷ 466 ∷ 2265 ∷ 3004 ∷ 727 ∷ 910 ∷ 5 ∷ [],
      25 ∷ 1485 ∷ 1375 ∷ 1668 ∷ 1277 ∷ 3409 ∷ 3024 ∷ 782 ∷ 1063 ∷ [],
    )
unfolding solve width negated_transpose system eliminate_last normalize_last substitute_last
    initial_solution incomplete_blocks complete_blocks mat_syst_ct mat_row_echelon_ct
    mat_back_substitution_ct echelon_row add_lower_row normalize_row subtract_row substitute_row
    for_up for_up? gf_inv
solve_run = refl
