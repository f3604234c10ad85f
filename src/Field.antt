-- ===== src/Field.antt =====
-- field.h and field.c: arithmetic modulo TRINE_q on `Fq`, which is uint16_t. The casts of the
-- source stand as remainders by 2 ^ 16, 2 ^ 32 and 2 ^ 64.
pub mod Arith
pub mod Pow
pub mod Inverse
pub mod Batch
use Prim.Native.Nat.{bit_and}
use meds2end.Base.{ℕ, zero, suc, ◌+◌, ◌-◌, ◌*◌, ◌/◌, ◌%◌, ◌^◌}
use meds2end.Base.{Bool, true, false, Option, none, some, List, [], ◌∷◌, for_up, for_up?, ◌>>=◌}
use meds2end.Base.{ltb, ◌==◌, if◌then◌else◌, length, at, set, replicate}
use meds2end.Params.{trine_q}

-- `x -= q; x += q & -(x >> 31)` on uint32_t: the mask is all ones when the difference wrapped.
unfoldable pub gf_add : ℕ → ℕ → ℕ
gf_add a b =
    let x = (a + b) % 2 ^ 32 in
    let y = (x + 2 ^ 32 - trine_q) % 2 ^ 32 in
    let mask = (2 ^ 32 - y / 2 ^ 31) % 2 ^ 32 in (y + bit_and trine_q mask) % 2 ^ 32 % 2 ^ 16

-- On int32_t: `-(x < 0)` is 0 or -1, so q is added exactly when the difference is negative.
unfoldable pub gf_sub : ℕ → ℕ → ℕ
gf_sub a b = (if ltb a b then a + 2 ^ 16 + trine_q - b else a - b) % 2 ^ 16

unfoldable pub gf_neg : ℕ → ℕ
gf_neg a = if a == 0 then 0 else (2 ^ 16 + trine_q - a) % 2 ^ 16

unfoldable pub gf_mul : ℕ → ℕ → ℕ
gf_mul a b = a * b % 2 ^ 32 % trine_q % 2 ^ 16

-- A product in uint64_t, reduced modulo q.
abbrev pub mul64 : ℕ → ℕ → ℕ → ℕ
mul64 q a b = a * b % 2 ^ 64 % q

-- The addition chain of the branch for q = 8191.
unfoldable pub gf_inv_chain : ℕ → ℕ → ℕ
gf_inv_chain q val =
    let tmp_0 = val in
    let tmp_1 = mul64 q tmp_0 tmp_0 in
    let tmp_2 = mul64 q tmp_1 tmp_0 in
    let tmp_3 = mul64 q tmp_2 tmp_1 in
    let tmp_4 = mul64 q tmp_3 tmp_3 in
    let tmp_5 = mul64 q tmp_4 tmp_3 in
    let tmp_6 = mul64 q tmp_5 tmp_5 in
    let tmp_7 = mul64 q tmp_6 tmp_6 in
    let tmp_8 = mul64 q tmp_7 tmp_7 in
    let tmp_9 = mul64 q tmp_8 tmp_8 in
    let tmp_10 = mul64 q tmp_9 tmp_5 in
    let tmp_11 = mul64 q tmp_10 tmp_10 in
    let tmp_12 = mul64 q tmp_11 tmp_11 in
    let tmp_13 = mul64 q tmp_12 tmp_2 in
    let tmp_14 = mul64 q tmp_13 tmp_13 in
    let tmp_15 = mul64 q tmp_14 tmp_14 in
    let tmp_16 = mul64 q tmp_15 tmp_15 in let tmp_17 = mul64 q tmp_16 tmp_3 in tmp_17 % 2 ^ 16

-- `while (exponent > 0)`: one round of fuel for each bit of the exponent.
unfoldable pub gf_inv_loop : ℕ → ℕ → ℕ → ℕ → ℕ → ℕ
gf_inv_loop zero q exponent t val = t
gf_inv_loop (suc fuel) q exponent t val =
    let t' = if exponent % 2 == 0 then t else mul64 q t val in
    let val' = mul64 q val val % 2 ^ 16 in
    let rest = gf_inv_loop fuel q (exponent / 2) t' val' in if exponent == 0 then t else rest

-- GF_inv for a modulus q below 2 ^ 16; the exponent q - 2 has at most 16 bits.
unfoldable pub gf_inv_at : ℕ → ℕ → ℕ
unfolding gf_inv_chain gf_inv_loop
gf_inv_at q val = if q == 8191 then gf_inv_chain q val else gf_inv_loop 16 q (q - 2) 1 val % 2 ^ 16

unfoldable pub gf_inv : ℕ → ℕ
unfolding gf_inv_at
gf_inv val = gf_inv_at trine_q val

-- `none` is the result -1.
unfoldable pub gf_inv_checked : ℕ → Option ℕ
gf_inv_checked a = if a == 0 then none else some (gf_inv a)

-- The first loop of GF_batch_inv, at index i + 1: stops at a zero, and extends the prefix products.
unfoldable pub prefix_step : List ℕ → ℕ → List ℕ → Option (List ℕ)
prefix_step input i prefix =
    if at input (suc i) == 0
    then none
    else some (set prefix (suc i) (gf_mul (at prefix i) (at input (suc i))))

-- The second loop, at index i = count - 1 - round.
unfoldable pub unwind_step : ℕ → List ℕ → List ℕ → ℕ → List ℕ × ℕ → List ℕ × ℕ
unwind_step count input prefix round (out, acc) =
    let i = count - 1 - round in
    (set out i (gf_mul acc (at prefix (i - 1))), gf_mul acc (at input i))

-- The final content of `out`, given the one before the call; `none` is the result -1, which
-- leaves `out` alone. The two arrays do not overlap.
unfoldable pub gf_batch_inv : List ℕ → List ℕ → ℕ → Option (List ℕ)
gf_batch_inv out input count = if count == 0 then some out else if at input 0 == 0 then none else do
  prefix ← for_up? (count - 1) (prefix_step input) (set (replicate count 0) 0 (at input 0))
  acc ← gf_inv_checked (at prefix (count - 1))
  let (out', acc') = for_up (count - 1) (unwind_step count input prefix) (out, acc)
  some (set out' 0 acc')
