-- ===== src/Params/Checks.antt =====
-- The `#error` lines and static assertions of params.h, over the six parameter sets.
use meds2end.Base.{◌-◌, ◌*◌, ◌%◌, ◌^◌, ◌≤◌, ◌<◌, ◌≡◌, refl, arith}
use meds2end.Params.{
  Params, ParamSet, Expected, params, expected, trine_q, trine_q_bits, vector_bytes, matrix_bytes,
  triform_bytes, pk_bytes, sk_bytes, response_bytes, base_seed_count, base_seed_bytes, sig_bytes,
}

-- What the preprocessor and the static assertions demand of a parameter set. The products of the
-- last assertion are computed in uint64_t.
record IsValid (p : Params) : Type 0 where
  five_le_n : 5 ≤ p.n
  k_le_r : p.k ≤ p.r
  one_le_x : 1 ≤ p.x
  x_le : p.x ≤ 256
  lambda_aligned : p.lambda % 8 ≡ 0
  q_bits_large : trine_q ≤ 2 ^ trine_q_bits
  q_bits_small : 2 ^ (trine_q_bits - 1) < trine_q
  fq_stores : trine_q - 1 ≤ 2 ^ 16 - 1
  accumulator_fits :
      p.n % 2 ^ 64 * ((trine_q - 1) % 2 ^ 64) % 2 ^ 64 * ((trine_q - 1) % 2 ^ 64) % 2 ^ 64
      ≤ 2 ^ 64 - 1

params-IsValid : (s : ParamSet) → IsValid (params s)
unfolding params
params-IsValid ParamSet.balanced_i = omega arith
params-IsValid ParamSet.balanced_iii = omega arith
params-IsValid ParamSet.balanced_v = omega arith
params-IsValid ParamSet.short_sig_i = omega arith
params-IsValid ParamSet.short_sig_iii = omega arith
params-IsValid ParamSet.short_sig_v = omega arith

-- Over the integers, too, the bound of the accumulator is met.
accumulator_le : (s : ParamSet) → (params s).n * (trine_q - 1) * (trine_q - 1) ≤ 2 ^ 64 - 1
unfolding params
accumulator_le ParamSet.balanced_i = omega arith
accumulator_le ParamSet.balanced_iii = omega arith
accumulator_le ParamSet.balanced_v = omega arith
accumulator_le ParamSet.short_sig_i = omega arith
accumulator_le ParamSet.short_sig_iii = omega arith
accumulator_le ParamSet.short_sig_v = omega arith

-- The derived sizes of a parameter set, in the order of `Expected`.
derived : Params → Expected
unfolding vector_bytes matrix_bytes pk_bytes sk_bytes base_seed_count sig_bytes
derived p = record {
  vector_bytes = vector_bytes p;
  matrix_bytes = matrix_bytes p;
  triform_bytes = triform_bytes p;
  pk_bytes = pk_bytes p;
  sk_bytes = sk_bytes p;
  response_bytes = response_bytes p;
  base_seed_count = base_seed_count p;
  base_seed_bytes = base_seed_bytes p;
  sig_bytes = sig_bytes p;
}

-- Every parameter set passes the checks of the preprocessor, and all nine sizes derived from it
-- are the ones that its block of the file states.
params_checked : (s : ParamSet) → IsValid (params s) × (derived (params s) ≡ expected s)
unfolding params expected derived
params_checked ParamSet.balanced_i = (params-IsValid ParamSet.balanced_i, refl)
params_checked ParamSet.balanced_iii = (params-IsValid ParamSet.balanced_iii, refl)
params_checked ParamSet.balanced_v = (params-IsValid ParamSet.balanced_v, refl)
params_checked ParamSet.short_sig_i = (params-IsValid ParamSet.short_sig_i, refl)
params_checked ParamSet.short_sig_iii = (params-IsValid ParamSet.short_sig_iii, refl)
params_checked ParamSet.short_sig_v = (params-IsValid ParamSet.short_sig_v, refl)
