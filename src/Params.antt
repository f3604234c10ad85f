-- ===== src/Params.antt =====
-- params.h: the six parameter sets, the constants derived from them, and the compile-time checks.
pub mod Checks
use meds2end.Base.{ℕ, ◌+◌, ◌-◌, ◌*◌, ◌/◌}

-- TRINE_q and TRINE_q_bits, which all six sets share.
abbrev pub trine_q : ℕ
trine_q = 4093

abbrev pub trine_q_bits : ℕ
trine_q_bits = 12

-- The value of the macro PARAMS, 1 to 6.
pub data ParamSet : Type 0 where
  balanced_i balanced_iii balanced_v short_sig_i short_sig_iii short_sig_v : ParamSet

-- TRINE_lambda, TRINE_n, TRINE_r, TRINE_K and TRINE_X.
pub record Params : Type 0 where
  pub lambda : ℕ
  pub n : ℕ
  pub r : ℕ
  pub k : ℕ
  pub x : ℕ

-- The sizes that each set states beside its parameters, in the order of the file.
pub record Expected : Type 0 where
  pub vector_bytes : ℕ
  pub matrix_bytes : ℕ
  pub triform_bytes : ℕ
  pub pk_bytes : ℕ
  pub sk_bytes : ℕ
  pub response_bytes : ℕ
  pub base_seed_count : ℕ
  pub base_seed_bytes : ℕ
  pub sig_bytes : ℕ

unfoldable pub params : ParamSet → Params
params ParamSet.balanced_i = record { lambda = 128; n = 22; r = 138; k = 52; x = 1 }
params ParamSet.balanced_iii = record { lambda = 256; n = 40; r = 271; k = 104; x = 1 }
params ParamSet.balanced_v = record { lambda = 512; n = 81; r = 534; k = 211; x = 1 }
params ParamSet.short_sig_i = record { lambda = 128; n = 22; r = 61; k = 36; x = 4 }
params ParamSet.short_sig_iii = record { lambda = 256; n = 40; r = 116; k = 76; x = 4 }
params ParamSet.short_sig_v = record { lambda = 512; n = 81; r = 232; k = 149; x = 4 }

pub expected : ParamSet → Expected
expected ParamSet.balanced_i = record {
  vector_bytes = 33;
  matrix_bytes = 726;
  triform_bytes = 15972;
  pk_bytes = 16004;
  sk_bytes = 32;
  response_bytes = 1716;
  base_seed_count = 86;
  base_seed_bytes = 1376;
  sig_bytes = 3156;
}
expected ParamSet.balanced_iii = record {
  vector_bytes = 60;
  matrix_bytes = 2400;
  triform_bytes = 96000;
  pk_bytes = 96064;
  sk_bytes = 64;
  response_bytes = 6240;
  base_seed_count = 167;
  base_seed_bytes = 5344;
  sig_bytes = 11712;
}
expected ParamSet.balanced_v = record {
  vector_bytes = 122;
  matrix_bytes = 9842;
  triform_bytes = 797162;
  pk_bytes = 797290;
  sk_bytes = 128;
  response_bytes = 25637;
  base_seed_count = 323;
  base_seed_bytes = 20672;
  sig_bytes = 46565;
}
expected ParamSet.short_sig_i = record {
  vector_bytes = 33;
  matrix_bytes = 726;
  triform_bytes = 15972;
  pk_bytes = 63920;
  sk_bytes = 32;
  response_bytes = 1188;
  base_seed_count = 25;
  base_seed_bytes = 400;
  sig_bytes = 1652;
}
expected ParamSet.short_sig_iii = record {
  vector_bytes = 60;
  matrix_bytes = 2400;
  triform_bytes = 96000;
  pk_bytes = 384064;
  sk_bytes = 64;
  response_bytes = 4560;
  base_seed_count = 40;
  base_seed_bytes = 1280;
  sig_bytes = 5968;
}
expected ParamSet.short_sig_v = record {
  vector_bytes = 122;
  matrix_bytes = 9842;
  triform_bytes = 797162;
  pk_bytes = 3188776;
  sk_bytes = 128;
  response_bytes = 18104;
  base_seed_count = 83;
  base_seed_bytes = 5312;
  sig_bytes = 23672;
}

abbrev pub ceil_div : ℕ → ℕ → ℕ
ceil_div x y = (x + y - 1) / y

-- The derived constants, TRINE_lambda_bytes to TRINE_SIG_BYTES.
module _ (p : Params) where
  unfoldable pub lambda_bytes : ℕ
  lambda_bytes = p.lambda / 8

  unfoldable pub digest_bytes : ℕ
  unfolding lambda_bytes
  digest_bytes = 2 * lambda_bytes

  unfoldable pub public_seed_bytes : ℕ
  unfolding lambda_bytes
  public_seed_bytes = 2 * lambda_bytes

  unfoldable pub secret_seed_bytes : ℕ
  unfolding lambda_bytes
  secret_seed_bytes = 2 * lambda_bytes

  unfoldable pub round_seed_bytes : ℕ
  unfolding lambda_bytes
  round_seed_bytes = lambda_bytes

  unfoldable pub salt_bytes : ℕ
  unfolding lambda_bytes
  salt_bytes = 2 * lambda_bytes

  unfoldable pub vector_bytes : ℕ
  vector_bytes = ceil_div (p.n * trine_q_bits) 8

  unfoldable pub matrix_bytes : ℕ
  matrix_bytes = ceil_div (p.n * p.n * trine_q_bits) 8

  unfoldable pub triform_bytes : ℕ
  triform_bytes = ceil_div (p.n * p.n * p.n * trine_q_bits) 8

  unfoldable pub pk_bytes : ℕ
  unfolding public_seed_bytes triform_bytes
  pk_bytes = public_seed_bytes + p.x * triform_bytes

  unfoldable pub sk_bytes : ℕ
  unfolding secret_seed_bytes
  sk_bytes = secret_seed_bytes

  unfoldable pub response_bytes : ℕ
  response_bytes = ceil_div (p.k * p.n * trine_q_bits) 8

  unfoldable pub base_seed_count : ℕ
  base_seed_count = p.r - p.k

  unfoldable pub base_seed_bytes : ℕ
  unfolding base_seed_count round_seed_bytes
  base_seed_bytes = base_seed_count * round_seed_bytes

  -- TRINE_RESPONSE_OFFSET is 0.
  unfoldable pub base_seed_offset : ℕ
  unfolding response_bytes
  base_seed_offset = 0 + response_bytes

  unfoldable pub digest_offset : ℕ
  unfolding base_seed_offset base_seed_bytes
  digest_offset = base_seed_offset + base_seed_bytes

  unfoldable pub salt_offset : ℕ
  unfolding digest_offset digest_bytes
  salt_offset = digest_offset + digest_bytes

  unfoldable pub sig_bytes : ℕ
  unfolding salt_offset salt_bytes
  sig_bytes = salt_offset + salt_bytes
