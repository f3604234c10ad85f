-- ===== src/Tests.antt =====
-- Runs of the model on small inputs, and the theorems at inputs that meet their hypotheses.
mod Signing
mod Elimination
mod Streams
mod Cached
mod Legacy
mod Adapter
mod Canonical
mod Moved
mod Signed
use meds2end.Base.{ℕ, ◌+◌, ◌*◌, ◌%◌, ◌^◌, ◌≤◌, ◌<◌, zero, suc, ◌≡◌, refl, arith, ◌≢◌}
use meds2end.Base.{true, List, [], ◌∷◌, at, length, take, some, none, replicate, for_up, for_up?}
use meds2end.Base.Congr.{Congr}
use meds2end.Params.{trine_q}
use meds2end.Field.{gf_add, gf_sub, gf_neg, gf_mul, gf_inv, gf_inv_at, gf_inv_checked, gf_batch_inv}
use meds2end.Field.{prefix_step, unwind_step}
use meds2end.Field.Arith.{gf_ring}
use meds2end.Field.Inverse.{gf_inv_lem}
use meds2end.Field.Pow.{gf_inv_at-pow}
use meds2end.Field.Batch.{IsInverses}
use meds2end.Field.Batch.Result.{gf_batch_inv_lem, gf_batch_inv-zero}
use meds2end.Codec.{encode_fq_array, decode_fq_array_checked, fq_array_bytes}
use meds2end.Codec.{validate_fq_array, encode_fq_array_unchecked, encode_bit, padding_is_zero}
use meds2end.Codec.{decode_step, decode_fq_unchecked}
use meds2end.Codec.Encode.{IsBytes}
use meds2end.Codec.RoundTrip.{decode-encode}
use meds2end.Codec.Canonical.{encode-decode}
use meds2end.Base.{◌↔◌, ◌++◌, get_or-replicate, length-replicate}
use meds2end.Base.Grid.{entry}
use meds2end.Base.Run.{done, ◌>>=◌}
use meds2end.Base.Sums.{sum}
use meds2end.Params.{Params, sig_bytes, base_seed_bytes, digest_bytes}
use meds2end.Params.{salt_bytes, base_seed_count}
use meds2end.Codec.Keys.{encode_signature, decode_signature_checked}
use meds2end.Codec.Keys.Layout.{HasSizes, decode-encode_signature}
use meds2end.Xof.{Shake}
use meds2end.Sampling.{gf_candidate, rnd_gf, load_le}
use meds2end.Sampling.Accepted.{squeezing, drawn, candidate, rnd_gf-candidate}
use meds2end.Sign.{challenges_valid, challenges_equal, count_challenges}
use meds2end.Sign.Challenges.{IsBalanced, challenges_valid_lem}
use meds2end.Sign.Verifying.{crypto_sign_verify, crypto_sign_open}
use meds2end.Sign.Verifying.Open.{open-append}
use meds2end.Matrix.{mat_vec_mul, mat_mul, mat_linear_combination, mat_transpose}
use meds2end.Matrix.Transpose.{entry-mat_transpose}
use meds2end.Base.{if◌then◌else◌, ◌==◌}
use meds2end.Elim.{swap_rows, scale_row, row_sub_mul}
use meds2end.Elim.Rows.{row_operations}
use meds2end.Matrix.{mat_transpose_in_place, mat_transpose_vec_mul}
use meds2end.Matrix.InPlace.{in_place_lem, vec_mul-transpose}
use meds2end.Matrix.Products.{IsReduced, mat_mul_lem, mat_linear_combination_lem}
use meds2end.Triform.Eval.{trilinear, coefficient, triform_eval_lem}
use meds2end.Triform.Partial.{partial_evaluation}
use meds2end.Triform.{triform_phi_u, triform_phi_v}
use meds2end.Triform.{triform_eval, triform_action_pullback}
use meds2end.Triform.Pullback.Meaning.{eval-pullback}

abbrev small : List ℕ
small = 5 ∷ 4092 ∷ 7 ∷ []

small-IsReduced : IsReduced small
small-IsReduced = grind arith

gf_ring_example :
    (gf_add 4000 100 ≡ (4000 + 100) % trine_q)
    × (gf_mul 4000 100 ≡ 4000 * 100 % trine_q)
    × ((gf_sub 4000 100 < trine_q) × Congr trine_q (gf_sub 4000 100 + 100) 4000)
    × ((gf_neg 4000 < trine_q) × Congr trine_q (gf_neg 4000 + 4000) 0)
gf_ring_example = gf_ring 4000 100 (omega arith) (omega arith)

gf_inv_lem_example : (5 * gf_inv 5 % trine_q ≡ 1) × (gf_inv 5 < trine_q)
gf_inv_lem_example = gf_inv_lem 5 (omega arith) (omega arith)

gf_inv_at-pow_example : gf_inv_at 8191 5 ≡ 5 ^ 8189 % 8191
gf_inv_at-pow_example = gf_inv_at-pow 8191 5 (omega arith) (omega arith) (omega arith)

small-nonzero : (i : ℕ) → i < 3 → at small i ≢ 0
small-nonzero i h = grind arith

gf_batch_inv_lem_example :
    (out : List ℕ) × (gf_batch_inv (1 ∷ 2 ∷ 3 ∷ 4 ∷ []) small 3 ≡ some out)
    × IsInverses small (1 ∷ 2 ∷ 3 ∷ 4 ∷ []) out 3
gf_batch_inv_lem_example =
    gf_batch_inv_lem small (1 ∷ 2 ∷ 3 ∷ 4 ∷ []) 3 (λ i lt. small-IsReduced i) (omega arith)
      small-nonzero

gf_batch_inv-zero_example : gf_batch_inv (1 ∷ 2 ∷ 3 ∷ []) (5 ∷ 0 ∷ 7 ∷ []) 3 ≡ none
gf_batch_inv-zero_example =
    gf_batch_inv-zero (5 ∷ 0 ∷ 7 ∷ []) (1 ∷ 2 ∷ 3 ∷ []) 3 1 (λ j lt. grind arith) (omega arith) refl

batch_run : gf_batch_inv (0 ∷ 0 ∷ 0 ∷ 9 ∷ []) small 3 ≡ some (2456 ∷ 4092 ∷ 2339 ∷ 9 ∷ [])
unfolding gf_batch_inv for_up for_up? prefix_step unwind_step gf_inv_checked gf_mul gf_inv
batch_run = refl

decode-encode_example :
    (bytes : List ℕ) × (encode_fq_array true (fq_array_bytes 3) (some small) 3 ≡ some bytes)
    × (length bytes ≡ fq_array_bytes 3)
    × IsBytes bytes
    × (decode_fq_array_checked true true 3 (some bytes) (fq_array_bytes 3) ≡ some (take 3 small))
decode-encode_example =
    decode-encode small 3 (omega arith) (λ i lt. small-IsReduced i) (omega arith)

abbrev packed_small : List ℕ
packed_small = 0x05 ∷ 0xc0 ∷ 0xff ∷ 0x07 ∷ 0x00 ∷ []

encode_run : encode_fq_array true 5 (some small) 3 ≡ some packed_small
unfolding encode_fq_array fq_array_bytes validate_fq_array encode_fq_array_unchecked encode_bit
    for_up for_up?
encode_run = refl

decode_run : decode_fq_array_checked true true 3 (some packed_small) 5 ≡ some small
unfolding decode_fq_array_checked fq_array_bytes padding_is_zero decode_step decode_fq_unchecked
    for_up for_up?
decode_run = refl

encode-decode_example :
    (length small ≡ 3)
    × ((i : ℕ) → i < 3 → at small i < trine_q)
    × (encode_fq_array true 5 (some small) 3 ≡ some packed_small)
encode-decode_example =
    encode-decode packed_small small 3 5 (omega arith) (grind arith) refl decode_run

abbrev square_a : List ℕ
square_a = 1 ∷ 2 ∷ 3 ∷ 4 ∷ []

abbrev eight : List ℕ
eight = 1 ∷ 2 ∷ 3 ∷ 4 ∷ 5 ∷ 6 ∷ 7 ∷ 4000 ∷ []

abbrev pair : List ℕ
pair = 11 ∷ 4001 ∷ []

square-IsReduced : IsReduced square_a
square-IsReduced = grind arith

eight-IsReduced : IsReduced eight
eight-IsReduced = grind arith

pair-IsReduced : IsReduced pair
pair-IsReduced = grind arith

eval-pullback_example :
    triform_eval
      (triform_action_pullback (replicate 8 9) eight square_a square_a square_a 2)
      pair
      pair
      pair
      2
    ≡ triform_eval eight
        (mat_vec_mul square_a pair 2)
        (mat_vec_mul square_a pair 2)
        (mat_vec_mul square_a pair 2)
        2
eval-pullback_example =
    eval-pullback 2 eight square_a square_a square_a (replicate 8 9) pair pair pair (omega arith)
      refl eight-IsReduced (square-IsReduced, square-IsReduced, square-IsReduced)
      (pair-IsReduced, pair-IsReduced, pair-IsReduced)

triform_eval_lem_example :
    triform_eval eight pair pair pair 2 ≡ trilinear 2 eight (at pair) (at pair) (at pair) % trine_q
triform_eval_lem_example =
    triform_eval_lem 2 (omega arith) eight pair pair pair eight-IsReduced pair-IsReduced
      pair-IsReduced pair-IsReduced

mat_mul_lem_example :
    entry 2 (mat_mul square_a square_a 2) 1 0
    ≡ sum 2 (λ k. entry 2 square_a 1 k * entry 2 square_a k 0) % trine_q
mat_mul_lem_example =
    mat_mul_lem 2 (omega arith) square_a square_a square-IsReduced square-IsReduced 1 0
      (omega arith) (omega arith)

mat_linear_combination_lem_example :
    at (mat_linear_combination eight pair 2 2) 3
    ≡ sum 2 (λ i. at pair i * at eight (i * 2 * 2 + 3)) % trine_q
mat_linear_combination_lem_example =
    mat_linear_combination_lem 2 (omega arith) eight pair 2 (omega arith) eight-IsReduced
      pair-IsReduced 3 (omega arith)

partial_evaluation_example :
    (entry 2 (triform_phi_u square_a eight pair 2) 1 0
      ≡ sum 2 (λ r. coefficient 2 eight 0 r 1 * at pair r) % trine_q)
    × (entry 2 (triform_phi_v square_a eight pair 2) 1 0
        ≡ sum 2 (λ c. coefficient 2 eight 0 1 c * at pair c) % trine_q)
partial_evaluation_example =
    partial_evaluation 2 eight pair pair square_a 1 0 (omega arith) refl eight-IsReduced
      (pair-IsReduced, pair-IsReduced) (omega arith) (omega arith)

in_place_lem_example :
    (length (mat_transpose_in_place square_a 2) ≡ length (mat_transpose square_a 2))
    × (entry 2 (mat_transpose_in_place square_a 2) 0 1 ≡ entry 2 (mat_transpose square_a 2) 0 1)
in_place_lem_example = in_place_lem 2 square_a 0 1 refl (omega arith) (omega arith)

vec_mul-transpose_example :
    at (mat_transpose_vec_mul square_a pair 2) 1
    ≡ at (mat_vec_mul (mat_transpose square_a 2) pair 2) 1
vec_mul-transpose_example =
    vec_mul-transpose 2 square_a pair 1 (omega arith) square-IsReduced pair-IsReduced (omega arith)

row_operations_example :
    (entry 2 (swap_rows square_a 0 1 2) 1 0 ≡ (
      if 1 == 1
      then entry 2 square_a 0 0
      else if 1 == 0
      then entry 2 square_a 1 0
      else entry 2 square_a 1 0))
    × (entry 2 (scale_row square_a 0 7 2) 1 0
        ≡ (if 1 == 0 then gf_mul (entry 2 square_a 0 0) 7 else entry 2 square_a 1 0))
    × (entry 2 (row_sub_mul square_a 0 1 7 2) 1 0 ≡ (
        if 1 == 0
        then gf_sub (entry 2 square_a 0 0) (gf_mul 7 (entry 2 square_a 1 0))
        else entry 2 square_a 1 0))
row_operations_example =
    row_operations 2 square_a refl 0 1 7 1 0 (omega arith) (omega arith) (omega arith) (omega arith)
