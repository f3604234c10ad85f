-- ===== src/Field/Inverse.antt =====
-- GF_inv is the inverse of the field, checked at each of the q - 1 nonzero elements.
use meds2end.Base.{ℕ, zero, suc, ◌-◌, ◌*◌, ◌%◌, ◌<◌, ◌≡◌, refl, ◌∙◌}
use meds2end.Base.{Bool, true, arith, ltb, ◌==◌, all_below, all_below_sound}
use meds2end.Base.{◌&&◌}
use meds2end.Base.{◌≢◌}
use meds2end.Base.Congr.{Congr, Congr-mul, Congr-of_eq}
use meds2end.Params.{trine_q}
use meds2end.Field.{gf_inv}

abbrev is_inverse : ℕ → Bool
is_inverse a = (suc a) * gf_inv (suc a) % trine_q == 1 && ltb (gf_inv (suc a)) trine_q

inverse_table : all_below is_inverse (trine_q - 1) ≡ true
unfolding all_below gf_inv
inverse_table = refl

-- Every nonzero reduced element times its GF_inv is 1 modulo q, and the inverse is reduced.
pub gf_inv_lem : (a : ℕ) → 0 < a → a < trine_q → (a * gf_inv a % trine_q ≡ 1) × (gf_inv a < trine_q)
gf_inv_lem zero h lt = elim h [ ]
gf_inv_lem (suc a) h lt =
    ground (arith, all_below_sound is_inverse (trine_q - 1) inverse_table a (omega arith))

-- The field has no zero divisors.
pub mul-ne-zero : (a b : ℕ) → a < trine_q → b < trine_q → a ≢ 0 → b ≢ 0 → a * b % trine_q ≢ 0
mul-ne-zero a b ha hb na nb zero_product = na a_zero
  where
    inverse : (b * gf_inv b % trine_q ≡ 1) × (gf_inv b < trine_q)
    inverse = gf_inv_lem b (omega arith) hb

    vanishes : Congr trine_q (a * b * gf_inv b) 0
    vanishes =
        Congr-mul trine_q (a * b) 0 (gf_inv b) (gf_inv b) zero_product refl
        ∙ Congr-of_eq trine_q (0 * gf_inv b) 0 (omega arith)

    keeps : Congr trine_q (a * (b * gf_inv b)) (a * 1)
    keeps = Congr-mul trine_q a a (b * gf_inv b) 1 refl inverse.0

    a_zero : a ≡ 0
    a_zero = omega (arith, vanishes, keeps)
