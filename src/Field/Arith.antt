-- ===== src/Field/Arith.antt =====
-- The operations of field.h are those of the integers modulo q, and stay below q.
use Prim.Native.Nat.{bit_and}
use meds2end.Base.{ℕ, zero, suc, ◌+◌, ◌-◌, ◌*◌, ◌/◌, ◌%◌, ◌^◌, ◌<◌, ◌≡◌, refl}
use meds2end.Base.{arith}
use meds2end.Base.Congr.{Congr}
use meds2end.Params.{trine_q}
use meds2end.Field.{gf_add, gf_sub, gf_neg, gf_mul}

-- The mask is 0 or all ones, by the sign bit m.
masked : (m : ℕ) → m < 2 → bit_and trine_q ((2 ^ 32 - m) % 2 ^ 32) ≡ m * trine_q
masked zero h = refl
masked (suc zero) h = refl
masked (suc (suc m)) h = absurd (omega arith)

pub gf_add_lem : (a b : ℕ) → a < trine_q → b < trine_q → gf_add a b ≡ (a + b) % trine_q
unfolding gf_add
gf_add_lem a b ha hb =
    omega (arith, masked (((a + b) % 2 ^ 32 + 2 ^ 32 - trine_q) % 2 ^ 32 / 2 ^ 31) (omega arith))

pub gf_sub_lem : (a b : ℕ) → a < trine_q → b < trine_q → gf_sub a b ≡ (a + trine_q - b) % trine_q
unfolding gf_sub
gf_sub_lem a b ha hb = ground arith

pub gf_neg_lem : (a : ℕ) → a < trine_q → gf_neg a ≡ (trine_q - a) % trine_q
unfolding gf_neg
gf_neg_lem a ha = ground arith

product_fits : (a b m : ℕ) → a < m → b < m → a * b < m * m
product_fits a b m ha hb = grind arith

pub gf_mul_lem : (a b : ℕ) → a < trine_q → b < trine_q → gf_mul a b ≡ a * b % trine_q
unfolding gf_mul
gf_mul_lem a b ha hb = omega (arith, product_fits a b trine_q ha hb)

-- Addition, subtraction, negation and multiplication of reduced field elements give the reduced
-- representative of the integer result, for subtraction and negation in the form that the
-- difference added back gives the first operand.
pub gf_ring :
    (a b : ℕ)
    → a < trine_q
    → b < trine_q
    → (gf_add a b ≡ (a + b) % trine_q)
      × (gf_mul a b ≡ a * b % trine_q)
      × ((gf_sub a b < trine_q) × Congr trine_q (gf_sub a b + b) a)
      × ((gf_neg a < trine_q) × Congr trine_q (gf_neg a + a) 0)
gf_ring a b ha hb = (
  gf_add_lem a b ha hb,
  gf_mul_lem a b ha hb,
  (omega (arith, gf_sub_lem a b ha hb), omega (arith, gf_sub_lem a b ha hb)),
  (omega (arith, gf_neg_lem a ha), omega (arith, gf_neg_lem a ha)),
)
