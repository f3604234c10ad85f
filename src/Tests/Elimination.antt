-- ===== src/Tests/Elimination.antt =====
-- matrixelim.c and the secret matrices: runs and the theorems at concrete inputs.
use meds2end.Base.{ℕ, ◌+◌, ◌%◌, ◌<◌, ◌≡◌, refl, arith, for_up}
use meds2end.Base.{true, List, [], ◌∷◌, at, some, none, replicate, ◌↔◌, if◌then◌else◌, ◌==◌}
use meds2end.Base.Grid.{entry}
use meds2end.Field.{gf_inv, gf_mul, gf_sub, gf_neg}
use meds2end.Matrix.{
  mat_mul, mat_vec_mul, mat_transpose_vec_mul, mat_transpose, mat_identity, mat_copy, mat_zero,
}
use meds2end.Matrix.Products.{IsReduced}
use meds2end.Elim.{
  swap_rows, scale_row, row_sub_mul, find_pivot, eliminate_row, apply_pivot, rref_column, rref_core,
  mat_inv_vartime, mat_rank, mat_is_invertible, find_free, mat_right_kernel_corank1,
  mat_left_kernel_corank1,
}
use meds2end.Base.{length-replicate}
use meds2end.Base.Slices.{replicate-lt}
use meds2end.Base.Run.{done, for_run}
use meds2end.Params.{Params, digest_bytes, secret_seed_bytes}
use meds2end.Xof.{Shake, xof_init, xof_absorb, xof_finalize, xof_squeeze}
use meds2end.Sampling.{
  parse_hash, select_round, sample_position, sample_value, sample_masked_le, seeded_xof, load_le,
  bit_length_u32, bit_length_from, rnd_gf, gf_candidate, rnd_gf_array, rnd_inv_loop, rnd_inv_matrix,
}
use meds2end.Sign.{challenges_valid}
use meds2end.Sign.Parsing.{challenges_valid-parse_hash}
use meds2end.Expand.{
  Role, store_u32_le, role_to_purpose, init_domain_xof, expand_secret_matrix_pair,
}
use meds2end.Expand.Memory.{expand_pair_into, ranges_overlap, put, expand_pair_into_lem}
use meds2end.Base.Slices.{slice, write_at}
use meds2end.Base.{replicate, length-replicate}
use meds2end.Base.Run.{failed}
use meds2end.Elim.Images.{IsMatrix}
use meds2end.Elim.Reduction.{IsStage, rref_core-IsStage}
use meds2end.Elim.Inverse.{mat_mul-mat_inv}
use meds2end.Elim.Corank.{right_kernel_lem, left_kernel_lem, mat_inv_none}
use meds2end.Base.{zero, suc}
use meds2end.Matrix.{accumulate}
use meds2end.Base.Grid.{fill_vec}
use meds2end.Elim.Line.{right_kernel_spans}
use meds2end.Elim.Exists.{IsLine, right_kernel-IsLine}
use meds2end.Elim.Agreement.{is_invertible-iff-mat_inv}

abbrev regular : List ℕ
regular = 0 ∷ 2 ∷ 3 ∷ 4 ∷ []

abbrev regular_inverse : List ℕ
regular_inverse = 2728 ∷ 2729 ∷ 2047 ∷ 0 ∷ []

abbrev singular : List ℕ
singular = 1 ∷ 2 ∷ 2 ∷ 4 ∷ []

regular-IsMatrix : IsMatrix 2 regular
regular-IsMatrix = record { size = refl; reduced = λ i. grind arith }

singular-IsMatrix : IsMatrix 2 singular
singular-IsMatrix = record { size = refl; reduced = λ i. grind arith }

inverse_run : mat_inv_vartime regular 2 ≡ some regular_inverse
unfolding mat_inv_vartime rref_core rref_column find_pivot apply_pivot eliminate_row swap_rows
    scale_row row_sub_mul gf_inv gf_mul gf_sub mat_identity mat_copy for_up
inverse_run = refl

inverse_fails : mat_inv_vartime singular 2 ≡ none
unfolding mat_inv_vartime rref_core rref_column find_pivot apply_pivot eliminate_row swap_rows
    scale_row row_sub_mul gf_inv gf_mul gf_sub mat_identity mat_copy for_up
inverse_fails = refl

kernel_run : mat_right_kernel_corank1 singular 2 ≡ some (4091 ∷ 1 ∷ [])
unfolding mat_right_kernel_corank1 find_free rref_core rref_column find_pivot apply_pivot
    eliminate_row swap_rows scale_row row_sub_mul gf_inv gf_mul gf_sub gf_neg mat_copy for_up
kernel_run = refl

left_kernel_run : mat_left_kernel_corank1 singular 2 ≡ some (4091 ∷ 1 ∷ [])
unfolding mat_left_kernel_corank1 mat_transpose mat_right_kernel_corank1 find_free rref_core
    rref_column find_pivot apply_pivot eliminate_row swap_rows scale_row row_sub_mul gf_inv gf_mul
    gf_sub gf_neg mat_copy for_up
left_kernel_run = refl

rref_core-IsStage_example : IsStage 2 2 (rref_core 2 regular none)
rref_core-IsStage_example = rref_core-IsStage 2 regular none regular-IsMatrix

mat_mul-mat_inv_example :
    IsMatrix 2 regular_inverse × (entry 2 (mat_mul regular_inverse regular 2) 1 1 ≡ 1)
mat_mul-mat_inv_example =
    mat_mul-mat_inv 2 regular regular-IsMatrix 1 1 (omega arith) inverse_run (omega arith)
      (omega arith)

is_invertible-iff-mat_inv_example :
    (mat_is_invertible regular 2 ≡ true) ↔ ((b : List ℕ) × (mat_inv_vartime regular 2 ≡ some b))
is_invertible-iff-mat_inv_example = is_invertible-iff-mat_inv 2 regular regular-IsMatrix

right_kernel_lem_example :
    (at (mat_vec_mul singular (4091 ∷ 1 ∷ []) 2) 1 ≡ 0)
    × IsReduced (4091 ∷ 1 ∷ [])
    × (f : ℕ) × (f < 2)
    × (at (4091 ∷ 1 ∷ []) f ≡ 1)
right_kernel_lem_example =
    right_kernel_lem 2 singular singular-IsMatrix 1 (omega arith) kernel_run (omega arith)

left_kernel_lem_example :
    (at (mat_transpose_vec_mul singular (4091 ∷ 1 ∷ []) 2) 1 ≡ 0)
    × IsReduced (4091 ∷ 1 ∷ [])
    × (f : ℕ) × (f < 2)
    × (at (4091 ∷ 1 ∷ []) f ≡ 1)
left_kernel_lem_example =
    left_kernel_lem 2 singular 1 singular-IsMatrix (omega arith) left_kernel_run (omega arith)

right_kernel-IsLine_example :
    ((v : List ℕ) × (mat_right_kernel_corank1 singular 2 ≡ some v))
    ↔ ((y : ℕ → ℕ) × IsLine 2 singular y)
right_kernel-IsLine_example = right_kernel-IsLine 2 singular singular-IsMatrix (omega arith)

-- A vector of the kernel, three times the one that is returned.
abbrev triple : List ℕ
triple = 4087 ∷ 3 ∷ []

triple_run : mat_vec_mul singular triple 2 ≡ 0 ∷ 0 ∷ []
unfolding mat_vec_mul accumulate for_up fill_vec
triple_run = refl

zeros-at : (i : ℕ) → at (0 ∷ 0 ∷ []) i ≡ 0
zeros-at zero = refl
zeros-at (suc zero) = refl
zeros-at (suc (suc i)) = refl

right_kernel_spans_example :
    (factor : ℕ) × ((c : ℕ) → c < 2 → at triple c ≡ gf_mul factor (at (4091 ∷ 1 ∷ []) c))
right_kernel_spans_example =
    right_kernel_spans 2 singular singular-IsMatrix triple (omega arith) (omega arith)
      (λ i. grind arith) kernel_run (λ i lt. rw triple_run (zeros-at i))

mat_inv_none_example : ¬ (
    (i j : ℕ)
    → i < 2
    → j < 2
    → entry 2 (mat_mul regular singular 2) i j ≡ (if i == j then 1 else 0))
mat_inv_none_example =
    mat_inv_none 2 singular singular-IsMatrix regular (omega arith) inverse_fails
      (λ i. regular-IsMatrix.reduced i)

-- Small parameters.
abbrev tiny : Params
tiny = record { lambda = 8; n = 3; r = 3; k = 2; x = 1 }

-- An output function whose bytes are the count of those squeezed before.
abbrev counter : Shake
counter = record {
  State = ℕ;
  init = 0;
  absorb = λ s input. s;
  finalize = λ s. s;
  squeeze = λ s n. (replicate n (s % 256), s + n);
  length-squeeze = λ s n. length-replicate {A = ℕ} n (s % 256);
  squeeze-byte = λ s n i. replicate-lt n i (s % 256) (omega arith);
}

parse_run : parse_hash counter tiny 9 (1 ∷ 2 ∷ []) 2 3 ≡ done (0 ∷ 1 ∷ 0 ∷ [])
unfolding parse_hash for_run for_up seeded_xof select_round sample_position sample_value
    sample_masked_le load_le bit_length_u32 bit_length_from xof_init xof_absorb xof_finalize
    xof_squeeze digest_bytes
parse_run = refl

challenges_valid-parse_hash_example : challenges_valid tiny (0 ∷ 1 ∷ 0 ∷ []) ≡ true
challenges_valid-parse_hash_example =
    challenges_valid-parse_hash counter tiny 9 2 3 (1 ∷ 2 ∷ []) (omega arith) parse_run

abbrev secret : List ℕ
secret = 0 ∷ 514 ∷ 1028 ∷ 1542 ∷ []

abbrev secret_inverse : List ℕ
secret_inverse = 2369 ∷ 1939 ∷ 3878 ∷ 0 ∷ []

pair_run :
    expand_secret_matrix_pair counter tiny 9 true (1 ∷ 2 ∷ []) Role.matrix_a 0 2
    ≡ done (secret, secret_inverse)
unfolding expand_secret_matrix_pair init_domain_xof store_u32_le role_to_purpose rnd_inv_matrix
    rnd_inv_loop rnd_gf_array rnd_gf gf_candidate seeded_xof load_le for_run mat_is_invertible
    mat_rank mat_inv_vartime rref_core rref_column find_pivot apply_pivot eliminate_row swap_rows
    scale_row row_sub_mul gf_inv gf_mul gf_sub mat_identity mat_copy mat_zero for_up xof_init
    xof_absorb xof_finalize xof_squeeze secret_seed_bytes
pair_run = refl

-- One array for both outputs.
abbrev memory : List ℕ
memory = replicate 20 9

abbrev after : List ℕ
after = write_at (write_at memory 3 secret) 10 secret_inverse

into_run :
    (expand_pair_into counter tiny 9 memory (some 3) (some 10) (1 ∷ 2 ∷ []) Role.matrix_a 0 2
      ≡ done after)
    × (expand_pair_into counter tiny 9 memory (some 3) (some 6) (1 ∷ 2 ∷ []) Role.matrix_a 0 2
        ≡ failed)
unfolding expand_pair_into ranges_overlap put
into_run = (rw pair_run refl, refl)

expand_pair_into_lem_example :
    IsMatrix 2 (slice after 3 4)
    × IsMatrix 2 (slice after 10 4)
    × (entry 2 (mat_mul (slice after 10 4) (slice after 3 4) 2) 1 1 ≡ 1)
expand_pair_into_lem_example =
    expand_pair_into_lem counter tiny 9 memory (1 ∷ 2 ∷ []) 3 10 0 2 1 1 Role.matrix_a (omega arith)
      (omega (arith, length-replicate {A = ℕ} 20 9)) (omega (arith, length-replicate {A = ℕ} 20 9))
      into_run.0 (omega arith) (omega arith)
