-- ===== src/Tests/Signed.antt =====
-- meds.c: a key pair, a signature and its verification, run at parameters with n = 5 over an output
-- function for which the search for points and matrices ends at the first candidate.
use meds2end.Base.{ℕ, zero, suc, ◌+◌, ◌/◌, ◌%◌, ◌<◌, ◌≡◌, refl, ap, arith, true, false, some}
use meds2end.Base.{List, [], ◌∷◌, ◌++◌, at, length, take, drop, ◌==◌, if◌then◌else◌}
use meds2end.Params.{Params}
use meds2end.Xof.{Shake}
use meds2end.Base.Run.{done, failed}
use meds2end.Codec.Keys.{Signature}
use meds2end.Sign.Signing.Output.{crypto_sign-decode_signature}
use meds2end.Tests.Canonical.{form}
use meds2end.Params.{
  params, lambda_bytes, digest_bytes, public_seed_bytes, secret_seed_bytes, round_seed_bytes,
  salt_bytes, vector_bytes, matrix_bytes, triform_bytes, pk_bytes, sk_bytes, response_bytes,
  base_seed_count, base_seed_bytes, base_seed_offset, digest_offset, salt_offset, sig_bytes,
}
use meds2end.Xof.{xof_init, xof_absorb, xof_finalize, xof_squeeze, hash_finalize}
use meds2end.Codec.{
  valid_dimension, triform_element_count_local, fq_array_bytes, validate_fq_array, encode_bit,
  encode_fq_array_unchecked, decode_fq_unchecked, padding_is_zero, encode_fq_array, decode_step,
  decode_fq_array_checked, encode_vector, decode_vector_checked, encode_triform,
  decode_triform_checked,
}
use meds2end.Codec.Keys.{
  encode_public_key_form, encode_public_key, decode_public_key_form, decode_public_key_checked,
  encode_secret_key, decode_secret_key, encode_signature, decode_signature_checked,
}
use meds2end.Field.{
  gf_add, gf_sub, gf_neg, gf_mul, gf_inv_chain, gf_inv_loop, gf_inv_at, gf_inv, gf_inv_checked,
  prefix_step, unwind_step, gf_batch_inv,
}
use meds2end.Matrix.{
  accumulate, mat_zero, mat_copy, mat_identity, mat_transpose, transpose_swap,
  mat_transpose_in_place, mat_mul, mat_mul_rect, mat_vec_mul, mat_transpose_vec_mul, mat_set_col,
  mat_get_col, mat_linear_combination, mat_diag_scale,
}
use meds2end.Elim.{
  swap_rows, scale_row, row_sub_mul, find_pivot, eliminate_row, apply_pivot, rref_column, rref_core,
  mat_rank, mat_is_invertible, mat_inv_vartime, mat_inv, find_free, mat_right_kernel_corank1,
  mat_left_kernel_corank1, basis_matrix, vec_in_span, vec_extends_independent_set,
}
use meds2end.Triform.{
  triform_matrix_at_w, triform_phi_u, triform_phi_v, bilinear_value, triform_eval, pullback_slice,
  triform_action_pullback,
}
use meds2end.Canon.{
  phi_u_lker, phi_v_rker, matrix_at_w_lker, nonzero_from, vector_is_nonzero, vector_list_append,
  vector_list_to_matrix, anchor_round, collect_normalization_anchors, diagonal_round,
  finish_diagonals, compute_normalization_diagonals, apply_normalization, next_u_step, uvw_round,
  finish_bases, canonical_build_uvw, canonical_diagonal_normalize, canonical_form,
}
use meds2end.Sampling.{
  load_le, bit_length_from, bit_length_u32, seeded_xof, gf_candidate, rnd_gf, rnd_gf_array,
  rnd_inv_loop, rnd_inv_matrix, sample_masked_le, sample_position, sample_value, select_round,
  parse_hash,
}
use meds2end.Expand.{
  role_to_purpose, store_u32_le, init_domain_xof, expand_public_seed, expand_base_form,
  expand_secret_matrix_pair, corank1_loop, corank1_cal,
}
use meds2end.Sign.{
  message_len_to_size, count_challenges, challenges_valid, challenges_equal, init_round_xof,
  absorb_canonical_form, commitment_loop, derive_round_commitment,
}
use meds2end.Sign.Keypair.{keypair_round, crypto_sign_keypair}
use meds2end.Sign.Signing.{
  round_seed_of, commit_round, ready_inverse, respond_round, no_responses, make_signature,
  crypto_sign,
}
use meds2end.Sign.Verifying.{
  recompute, verify_round, verify_rounds, crypto_sign_verify, crypto_sign_open,
}
use meds2end.Base.{for_up, for_up?}
use meds2end.Base.Run.{for_run}
use meds2end.Base.Grid.{fill, fill_vec}
use meds2end.Base.Columns.{fill_columns}
use meds2end.Base.Slices.{write_at}

-- The bytes of the output by what was absorbed: a base form, a point, the seed of a matrix, and for
-- short inputs an upper triangular matrix that depends on the first byte.
abbrev pub byte_of : List ℕ → ℕ → ℕ
byte_of absorbed i =
    if at absorbed 15 == 82
    then (if i == 0 then 1 else 0)
    else if at absorbed 15 == 69
    then (if at absorbed 24 == 2
        then (if i % 2 == 0 then at form (i / 2) else 0)
        else if i == 0
        then at absorbed 24
        else 0)
    else if i == 2
    then at absorbed 0
    else if i == 1
    then 1
    else if i % 12 == 0
    then 1
    else 0

abbrev pub bytes_from : List ℕ → ℕ → ℕ → List ℕ
bytes_from absorbed i zero = []
bytes_from absorbed i (suc n) = byte_of absorbed i % 256 ∷ bytes_from absorbed (i + 1) n

pub length-bytes_from : (absorbed : List ℕ) (i n : ℕ) → length (bytes_from absorbed i n) ≡ n
length-bytes_from absorbed i zero = refl
length-bytes_from absorbed i (suc n) = ap suc (length-bytes_from absorbed (i + 1) n)

pub bytes_from-lt : (absorbed : List ℕ) (i n j : ℕ) → at (bytes_from absorbed i n) j < 256
bytes_from-lt absorbed i zero j = omega arith
bytes_from-lt absorbed i (suc n) zero = omega arith
bytes_from-lt absorbed i (suc n) (suc j) = bytes_from-lt absorbed (i + 1) n j

abbrev pub sponge : Shake
sponge = record {
  State = List ℕ × ℕ;
  init = ([], 0);
  absorb = λ s input. (s.0 ++ input, s.1);
  finalize = λ s. s;
  squeeze = λ s n. (bytes_from s.0 s.1 n, (s.0, s.1 + n));
  length-squeeze = λ s n. length-bytes_from s.0 s.1 n;
  squeeze-byte = λ s n i. bytes_from-lt s.0 s.1 n i;
}

-- A signature has one response of 8 bytes, and 1 + 2 + 2 bytes.
abbrev pub five : Params
five = record { lambda = 8; n = 5; r = 2; k = 1; x = 1 }

abbrev pub public_key : List ℕ
public_key =
    1 ∷ 0 ∷ 0 ∷ 48 ∷ 105 ∷ 0 ∷ 32 ∷ 70 ∷ 147 ∷ 54 ∷ 105 ∷ 26 ∷ 55 ∷ 48 ∷ 8 ∷ 168 ∷ 160 ∷ 49 ∷ 98
    ∷ 96 ∷ 1 ∷ 1 ∷ 0 ∷ 2 ∷ 18 ∷ 35 ∷ 6 ∷ 6 ∷ 0 ∷ 0 ∷ 32 ∷ 32 ∷ 147 ∷ 198 ∷ 192 ∷ 2 ∷ 50 ∷ 48 ∷ 2 ∷ 2
    ∷ 0 ∷ 21 ∷ 50 ∷ 48 ∷ 12 ∷ 252 ∷ 240 ∷ 15 ∷ 207 ∷ 7 ∷ 27 ∷ 224 ∷ 2 ∷ 53 ∷ 112 ∷ 112 ∷ 39 ∷ 112
    ∷ 0 ∷ 0 ∷ 176 ∷ 0 ∷ 6 ∷ 54 ∷ 2 ∷ 1 ∷ 48 ∷ 0 ∷ 10 ∷ 240 ∷ 240 ∷ 62 ∷ 208 ∷ 0 ∷ 15 ∷ 192 ∷ 0 ∷ 0
    ∷ 0 ∷ 0 ∷ 2 ∷ 18 ∷ 16 ∷ 2 ∷ 50 ∷ 48 ∷ 12 ∷ 144 ∷ 0 ∷ 5 ∷ 112 ∷ 0 ∷ 2 ∷ 146 ∷ 0 ∷ 1 ∷ 16 ∷ 0 ∷ 0
    ∷ 32 ∷ 32 ∷ 11 ∷ 0 ∷ 0 ∷ 0 ∷ 16 ∷ 0 ∷ 1 ∷ 65 ∷ 0 ∷ 0 ∷ 48 ∷ 0 ∷ 2 ∷ 0 ∷ 0 ∷ 1 ∷ 49 ∷ 48 ∷ 2 ∷ 50
    ∷ 48 ∷ 3 ∷ 19 ∷ 1 ∷ 9 ∷ 128 ∷ 0 ∷ 9 ∷ 48 ∷ 48 ∷ 14 ∷ 16 ∷ 0 ∷ 1 ∷ 0 ∷ 0 ∷ 2 ∷ 130 ∷ 0 ∷ 1 ∷ 32
    ∷ 0 ∷ 1 ∷ 32 ∷ 32 ∷ 11 ∷ 0 ∷ 0 ∷ 0 ∷ 16 ∷ 0 ∷ 0 ∷ 0 ∷ 0 ∷ 0 ∷ 0 ∷ 0 ∷ 0 ∷ 16 ∷ 16 ∷ 4 ∷ 48 ∷ 0
    ∷ 0 ∷ 32 ∷ 0 ∷ 0 ∷ 0 ∷ 0 ∷ 0 ∷ 16 ∷ 0 ∷ 1 ∷ 0 ∷ 0 ∷ 3 ∷ 16 ∷ 0 ∷ 0 ∷ 0 ∷ 0 ∷ 3 ∷ 195 ∷ 0 ∷ 2 ∷ 0
    ∷ 0 ∷ 1 ∷ 0 ∷ []

abbrev pub message : List ℕ
message = 1 ∷ 2 ∷ 3 ∷ []

abbrev pub salt : List ℕ
salt = 5 ∷ 6 ∷ []

-- The response, the seed of the second round, the digest, the salt and the message.
abbrev signed : List ℕ
signed = 79 ∷ 14 ∷ 0 ∷ 0 ∷ 0 ∷ 0 ∷ 0 ∷ 0 ∷ 8 ∷ 1 ∷ 1 ∷ 5 ∷ 6 ∷ 1 ∷ 2 ∷ 3 ∷ []

-- A key pair, and a signature. Its verification accepts it and returns the message, refuses it with one
-- byte of the response changed, and accepts it with the response multiplied by 2, since the response is
-- a projective point.
protocol_run :
    (crypto_sign_keypair sponge five 3 false (some (7 ∷ [])) ≡ done (public_key, 7 ∷ []))
    × (crypto_sign sponge five 3 false
          (some salt)
          (some (8 ∷ 9 ∷ []))
          (some message)
          3
          (some (7 ∷ []))
        ≡ done signed)
    × (crypto_sign_open sponge five 3 false (some signed) 16 (some public_key) ≡ done message)
    × (crypto_sign_open sponge five 3 false
          (some (79 ∷ 14 ∷ 1 ∷ take 13 (drop 3 signed)))
          16
          (some public_key)
        ≡ failed)
    × (crypto_sign_open sponge five 3 false
          (some (161 ∷ 12 ∷ take 14 (drop 2 signed)))
          16
          (some public_key)
        ≡ done message)
unfolding params lambda_bytes digest_bytes public_seed_bytes secret_seed_bytes round_seed_bytes
    salt_bytes vector_bytes matrix_bytes triform_bytes pk_bytes sk_bytes response_bytes
    base_seed_count base_seed_bytes base_seed_offset digest_offset salt_offset sig_bytes xof_init
    xof_absorb xof_finalize xof_squeeze hash_finalize valid_dimension triform_element_count_local
    fq_array_bytes validate_fq_array encode_bit encode_fq_array_unchecked decode_fq_unchecked
    padding_is_zero encode_fq_array decode_step decode_fq_array_checked encode_vector
    decode_vector_checked encode_triform decode_triform_checked encode_public_key_form
    encode_public_key decode_public_key_form decode_public_key_checked encode_secret_key
    decode_secret_key encode_signature decode_signature_checked gf_add gf_sub gf_neg gf_mul
    gf_inv_chain gf_inv_loop gf_inv_at gf_inv gf_inv_checked prefix_step unwind_step gf_batch_inv
    accumulate mat_zero mat_copy mat_identity mat_transpose transpose_swap mat_transpose_in_place
    mat_mul mat_mul_rect mat_vec_mul mat_transpose_vec_mul mat_set_col mat_get_col
    mat_linear_combination mat_diag_scale swap_rows scale_row row_sub_mul find_pivot eliminate_row
    apply_pivot rref_column rref_core mat_rank mat_is_invertible mat_inv_vartime mat_inv find_free
    mat_right_kernel_corank1 mat_left_kernel_corank1 basis_matrix vec_in_span
    vec_extends_independent_set triform_matrix_at_w triform_phi_u triform_phi_v bilinear_value
    triform_eval pullback_slice triform_action_pullback phi_u_lker phi_v_rker matrix_at_w_lker
    nonzero_from vector_is_nonzero vector_list_append vector_list_to_matrix anchor_round
    collect_normalization_anchors diagonal_round finish_diagonals compute_normalization_diagonals
    apply_normalization next_u_step uvw_round finish_bases canonical_build_uvw
    canonical_diagonal_normalize canonical_form load_le bit_length_from bit_length_u32 seeded_xof
    gf_candidate rnd_gf rnd_gf_array rnd_inv_loop rnd_inv_matrix sample_masked_le sample_position
    sample_value select_round parse_hash role_to_purpose store_u32_le init_domain_xof
    expand_public_seed expand_base_form expand_secret_matrix_pair corank1_loop corank1_cal
    message_len_to_size count_challenges challenges_valid challenges_equal init_round_xof
    absorb_canonical_form commitment_loop derive_round_commitment keypair_round crypto_sign_keypair
    round_seed_of commit_round ready_inverse respond_round no_responses make_signature crypto_sign
    recompute verify_round verify_rounds crypto_sign_verify crypto_sign_open for_up for_up? for_run
    fill fill_vec fill_columns write_at
protocol_run = (refl, refl, refl, refl, refl)

pub salt-length : length salt ≡ salt_bytes five
unfolding salt_bytes lambda_bytes
salt-length = refl

crypto_sign-decode_signature_example :
    (sig : List ℕ) × (fields : Signature) × (signed ≡ sig ++ take 3 message)
    × (length sig ≡ sig_bytes five)
    × (decode_signature_checked five true (some sig) (sig_bytes five) ≡ some fields)
    × (fields.salt ≡ salt)
crypto_sign-decode_signature_example =
    crypto_sign-decode_signature sponge five 3 false salt (8 ∷ 9 ∷ []) (some message) 3
      (some (7 ∷ [])) salt-length (omega arith) protocol_run.1
