-- ===== src/Triform/Pullback.antt =====
-- The pullback of a form by three matrices is the form at the images of the vectors.
pub mod Meaning
pub mod Columns
use native.Mathlib.Nat.{mul_assoc, mul-le-mul_right}
use meds2end.Base.{ap₂}
use native.Mathlib.Decide.{ℕ_discrete}
use meds2end.Matrix.Transpose.{entry-mat_transpose, mat_transpose-IsReduced}
use meds2end.Matrix.Products.{
  vector-IsReduced, mat_mul-IsReduced, mat_linear_combination-IsReduced, length-mat_mul,
}
use meds2end.Base.{ℕ, zero, suc, ◌+◌, ◌-◌, ◌*◌, ◌%◌, ◌^◌, ◌≤◌, ◌<◌, ◌≡◌, refl, sym, ap, ◌∙◌}
use meds2end.Base.{arith, List, at, at-set, length, length-set, replicate, length-replicate, set}
use meds2end.Base.{for_up, for_up_inv, ltb, if◌then◌else◌, ◌≡⟨◌⟩◌, ◌∎}
use meds2end.Base.Grid.{entry, index-lt, fill_vec, at-fill_vec}
use meds2end.Base.Slices.{slice, at-slice, write_at, at-write_at, length-write_at}
use meds2end.Base.Sums.{sum, sum_ext}
use meds2end.Base.Congr.{Congr, Congr-add, Congr-mul, Congr-mod, Congr-sum, Congr-of_eq}
use meds2end.Params.{trine_q}
use meds2end.Matrix.{mat_vec_mul, mat_mul, mat_transpose, mat_linear_combination}
use meds2end.Matrix.Products.{
  IsReduced, max_dimension, mat_vec_mul_lem, mat_mul_lem, mat_linear_combination_lem,
}
use meds2end.Triform.{
  triform_index, triform_slice, triform_eval, pullback_slice, triform_action_pullback,
}
use meds2end.Triform.Eval.{coefficient, trilinear, triform_eval_lem}
use meds2end.Triform.Slices.{IsWritten, slices-IsWritten, written-IsReduced}
use meds2end.Triform.Sums.{sum_assoc, sum_transpose, sum_pull}

-- A reduced sum of products is congruent to the sum of the exact products.
linear :
    (n : ℕ) (f g h : ℕ → ℕ)
    → ((k : ℕ) → k < n → Congr trine_q (g k) (h k))
    → Congr trine_q (sum n (λ k. f k * g k)) (sum n (λ k. f k * h k))
linear n f g h e =
    Congr-sum trine_q n _ _ λ k lt. Congr-mul trine_q (f k) (f k) (g k) (h k) refl (e k lt)

-- The exact algebra: with y = B v, t = A u and z = C w, the form pulled back is the form at t, y, z.
abbrev pub pulled : ℕ → (ℕ → ℕ → ℕ) → (ℕ → ℕ → ℕ) → (ℕ → ℕ → ℕ) → (ℕ → ℕ → ℕ → ℕ) → ℕ → ℕ → ℕ → ℕ
pulled n a b c m j r col = sum n (λ k. sum n (λ l. a l r * sum n (λ i. c i j * m i l k)) * b k col)

module _ (n : ℕ) (a b c : ℕ → ℕ → ℕ) (m : ℕ → ℕ → ℕ → ℕ) (u v w : ℕ → ℕ) where
  abbrev y : ℕ → ℕ
  y k = sum n (λ col. b k col * v col)

  abbrev t : ℕ → ℕ
  t l = sum n (λ r. a l r * u r)

  abbrev z : ℕ → ℕ
  z i = sum n (λ j. c i j * w j)

  abbrev at_y : ℕ → ℕ → ℕ
  at_y i l = sum n (λ k. m i l k * y k)

  pulled_row :
      (j r : ℕ)
      → sum n (λ col. pulled n a b c m j r col * v col)
        ≡ sum n (λ l. a l r * sum n (λ i. c i j * at_y i l))
  pulled_row j r =
      sum_assoc n n (λ k. sum n (λ l. a l r * sum n (λ i. c i j * m i l k))) b v
      ∙ sum_assoc n n (λ l. a l r) (λ l k. sum n (λ i. c i j * m i l k)) y
      ∙ sum_ext n _ _
          λ l lt. ap (λ (x : ℕ). a l r * x) (sum_assoc n n (λ i. c i j) (λ i k. m i l k) y)

  pulled_slice :
      (j : ℕ)
      → sum n (λ r. u r * sum n (λ col. pulled n a b c m j r col * v col))
        ≡ sum n (λ i. c i j * sum n (λ l. t l * at_y i l))
  pulled_slice j =
      sum_ext n _ _ (λ r lt. ap (λ (x : ℕ). u r * x) (pulled_row j r))
      ∙ sum_transpose n n u a (λ l. sum n (λ i. c i j * at_y i l))
      ∙ sum_pull n n t (λ i. c i j) at_y

  pub pulled_form :
      sum n (λ j. w j * sum n (λ r. u r * sum n (λ col. pulled n a b c m j r col * v col)))
      ≡ sum n (λ i. z i * sum n (λ l. t l * at_y i l))
  pulled_form =
      sum_ext n _ _ (λ j lt. ap (λ (x : ℕ). w j * x) (pulled_slice j))
      ∙ sum_transpose n n w c (λ i. sum n (λ l. t l * at_y i l))

-- The slice written at j has, as its elements, those of the pulled-back form modulo q.
module _ (n : ℕ) (bound : n ≤ max_dimension) (form a b c : List ℕ) (hf : IsReduced form)
    (ha : IsReduced a) (hb : IsReduced b) (hc : IsReduced c) where
  abbrev coefficients : ℕ → List ℕ
  coefficients j = fill_vec n (λ i. entry n c i j) (replicate n 0)

  coefficients-IsReduced : (j : ℕ) → IsReduced (coefficients j)
  coefficients-IsReduced j = vector-IsReduced n _ (λ i lt. hc (i * n + j))

  combined_lem :
      (j l k : ℕ)
      → l < n
      → k < n
      → entry n (mat_linear_combination form (coefficients j) n n) l k
        ≡ sum n (λ i. entry n c i j * coefficient n form i l k) % trine_q
  combined_lem j l k hl hk =
      mat_linear_combination_lem n bound form (coefficients j) n bound hf (coefficients-IsReduced j)
        (l * n + k) (index-lt n n l k hl hk)
      ∙ ap (λ (x : ℕ). x % trine_q)
          (sum_ext n _ _ λ i lt.
            ap₂ ◌*◌
              (at-fill_vec n _ (replicate n 0) (omega (arith, length-replicate {A = ℕ} n 0)) i lt)
              (ap (λ (x : ℕ). at form (x + (l * n + k))) (mul_assoc i n n)))

  pub slice_lem :
      (j r col : ℕ)
      → r < n
      → col < n
      → Congr trine_q
          (entry n (pullback_slice form a b c n j) r col)
          (pulled n (entry n a) (entry n b) (entry n c) (coefficient n form) j r col)
  unfolding pullback_slice
  slice_lem j r col hr hcol =
      Congr-of_eq trine_q _ _ (mat_mul_lem n bound _ b (mat_mul-IsReduced _ _ n) hb r col hr hcol)
      ∙ Congr-mod trine_q _
      ∙ Congr-sum trine_q n _ _ λ k hk.
        Congr-mul trine_q _ _ (entry n b k col) (entry n b k col)
          (Congr-of_eq trine_q _ _ (
              mat_mul_lem n bound (mat_transpose a n) _ (mat_transpose-IsReduced n a ha)
                (mat_linear_combination-IsReduced _ _ n n) r k hr hk)
            ∙ Congr-mod trine_q _
            ∙ Congr-sum trine_q n _ _ λ l hl.
              Congr-mul trine_q _ _ _ _
                (Congr-of_eq trine_q _ _ (entry-mat_transpose n a r l hr hl))
                (Congr-of_eq trine_q _ _ (combined_lem j l k hl hk) ∙ Congr-mod trine_q _))
          refl

  pub length-pullback_slice : (j : ℕ) → length (pullback_slice form a b c n j) ≡ n * n
  unfolding pullback_slice
  length-pullback_slice j = length-mat_mul _ b n

  pub pullback_slice-IsReduced : (j : ℕ) → IsReduced (pullback_slice form a b c n j)
  unfolding pullback_slice
  pullback_slice-IsReduced j = mat_mul-IsReduced _ b n

  abbrev pub IsPulled : List ℕ → List ℕ → Type 0
  IsPulled out t = IsWritten n (pullback_slice form a b c n) length-pullback_slice out n t

  pub written :
      (out : List ℕ)
      → n * n * n ≤ length out
      → IsPulled out (triform_action_pullback out form a b c n)
  unfolding triform_action_pullback
  written out room =
      slices-IsWritten n (pullback_slice form a b c n) length-pullback_slice (λ j. j * (n * n)) out
        (λ j. refl) room

  pub pulled-IsReduced : (out t : List ℕ) → length out ≡ n * n * n → IsPulled out t → IsReduced t
  pulled-IsReduced out t room w =
      written-IsReduced n (pullback_slice form a b c n) length-pullback_slice out t room
        pullback_slice-IsReduced w
