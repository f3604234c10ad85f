-- ===== src/Triform/Eval.antt =====
-- triform_eval is the trilinear form with the stored coefficients.
use meds2end.Base.{ℕ, ◌+◌, ◌*◌, ◌%◌, ◌≤◌, ◌<◌, ◌≡◌, refl, ap, ◌∙◌}
use meds2end.Base.{arith, List, at, for_up, for_up_inv}
use meds2end.Base.Grid.{entry, index-lt}
use meds2end.Base.Slices.{at-slice, slice-lt}
use meds2end.Base.Sums.{sum, sum_ext}
use meds2end.Base.Congr.{Congr, Congr-add, Congr-mul, Congr-mod, Congr-sum, Congr-of_eq}
use meds2end.Params.{trine_q}
use meds2end.Field.{gf_add, gf_mul}
use meds2end.Field.Arith.{gf_add_lem, gf_mul_lem}
use meds2end.Matrix.{mat_vec_mul}
use meds2end.Matrix.Products.{IsReduced, max_dimension, mat_vec_mul_lem}
use meds2end.Triform.{triform_slice, triform_index, bilinear_value, triform_eval}

-- The stored coefficient of slice s, row r, column c.
abbrev pub coefficient : ℕ → List ℕ → ℕ → ℕ → ℕ → ℕ
coefficient n form s r c = at form (triform_index s r c n)

pub entry-slice :
    (n : ℕ) (form : List ℕ) (s r c : ℕ)
    → r < n
    → c < n
    → entry n (triform_slice form s n) r c ≡ coefficient n form s r c
entry-slice n form s r c hr hc =
    at-slice form (s * (n * n)) (n * n) (r * n + c) (index-lt n n r c hr hc)

pub slice-IsReduced :
    (n : ℕ) (form : List ℕ) (s : ℕ) → IsReduced form → IsReduced (triform_slice form s n)
slice-IsReduced n form s h i = slice-lt trine_q form (s * (n * n)) (n * n) i h

-- An accumulation by GF_add is a sum modulo q.
pub gf_sum :
    (n : ℕ) (g : ℕ → ℕ)
    → ((k : ℕ) → k < n → g k < trine_q)
    → for_up n (λ k acc. gf_add acc (g k)) 0 ≡ sum n g % trine_q
gf_sum n g small =
    for_up_inv (λ k acc. acc ≡ sum k g % trine_q) _ n 0 (unfold sum in refl)
      λ k acc lt e.
        gf_add_lem acc (g k) (rw e (omega arith)) (small k lt)
        ∙ rw e (
            unfold sum in
            Congr-add trine_q (sum k g % trine_q) (sum k g) (g k) (g k)
              (Congr-mod trine_q (sum k g)) refl)

-- The trilinear form, over the natural numbers.
abbrev pub trilinear : ℕ → List ℕ → (ℕ → ℕ) → (ℕ → ℕ) → (ℕ → ℕ) → ℕ
trilinear n form u v w =
    sum n (λ s. w s * sum n (λ r. u r * sum n (λ c. coefficient n form s r c * v c)))

module _ (n : ℕ) (bound : n ≤ max_dimension) (form u v w : List ℕ) (hf : IsReduced form)
    (hu : IsReduced u) (hv : IsReduced v) (hw : IsReduced w) where
  row_product :
      (s r : ℕ)
      → r < n
      → (at (mat_vec_mul (triform_slice form s n) v n) r
          ≡ sum n (λ c. entry n (triform_slice form s n) r c * at v c) % trine_q)
        × (at (mat_vec_mul (triform_slice form s n) v n) r < trine_q)
  row_product s r lt =
      let e =
        mat_vec_mul_lem n bound (triform_slice form s n) v (slice-IsReduced n form s hf) hv r lt in
      (e, rw e (omega arith))

  bilinear_lem :
      (s : ℕ)
      → Congr trine_q
          (bilinear_value u (mat_vec_mul (triform_slice form s n) v n) n)
          (sum n (λ r. at u r * sum n (λ c. coefficient n form s r c * at v c)))
  unfolding bilinear_value
  bilinear_lem s =
      Congr-of_eq trine_q _ _
        (gf_sum n _ (λ r lt. rw (gf_mul_lem _ _ (hu r) (row_product s r lt).1) (omega arith)))
      ∙ Congr-mod trine_q _
      ∙ Congr-sum trine_q n _ _ λ r lt.
        Congr-of_eq trine_q _ _ (gf_mul_lem _ _ (hu r) (row_product s r lt).1)
        ∙ Congr-mod trine_q _
        ∙ Congr-mul trine_q (at u r) (at u r) _ _ refl (
            Congr-of_eq trine_q _ _ (row_product s r lt).0
            ∙ Congr-mod trine_q _
            ∙ Congr-of_eq trine_q _ _
                (sum_ext n _ _ λ c lc. ap (λ (t : ℕ). t * at v c) (entry-slice n form s r c lt lc)))

  bilinear-lt : (s : ℕ) → bilinear_value u (mat_vec_mul (triform_slice form s n) v n) n < trine_q
  unfolding bilinear_value
  bilinear-lt s = omega (arith, reduced)
    where
      reduced :
          bilinear_value u (mat_vec_mul (triform_slice form s n) v n) n
          ≡ sum n (λ r. gf_mul (at u r) (at (mat_vec_mul (triform_slice form s n) v n) r)) % trine_q
      reduced = gf_sum n _ (λ r lt. rw (gf_mul_lem _ _ (hu r) (row_product s r lt).1) (omega arith))

  -- The code's evaluation of a form at (u, v, w) is the sum over s, r, c of coefficient (s, r, c)
  -- times w s, u r and v c, modulo q. All elements are reduced, and n is at most 2 ^ 16.
  pub triform_eval_lem : triform_eval form u v w n ≡ trilinear n form (at u) (at v) (at w) % trine_q
  unfolding triform_eval
  triform_eval_lem =
      gf_sum n _ (λ s lt. rw (gf_mul_lem _ _ (hw s) (bilinear-lt s)) (omega arith))
      ∙ Congr-sum trine_q n _ _ λ s lt.
        Congr-of_eq trine_q _ _ (gf_mul_lem _ _ (hw s) (bilinear-lt s))
        ∙ Congr-mod trine_q _
        ∙ Congr-mul trine_q (at w s) (at w s) _ _ refl (bilinear_lem s)
