-- ===== src/Triform/Pullback/Meaning.antt =====
-- What triform.h states of triform_action_pullback.
use meds2end.Base.{ℕ, ◌+◌, ◌*◌, ◌≤◌, ◌<◌, ◌≡◌, refl, sym, ◌∙◌, arith}
use meds2end.Base.{List, at, length}
use meds2end.Base.Grid.{entry, index-lt}
use meds2end.Base.Sums.{sum}
use meds2end.Base.Congr.{Congr, Congr-mul, Congr-mod, Congr-sum, Congr-of_eq}
use meds2end.Params.{trine_q}
use meds2end.Matrix.{mat_vec_mul}
use meds2end.Matrix.Products.{IsReduced, max_dimension, mat_vec_mul_lem, mat_vec_mul-IsReduced}
use meds2end.Triform.{triform_eval, triform_action_pullback}
use meds2end.Triform.Eval.{coefficient, trilinear, triform_eval_lem}
use meds2end.Triform.Pullback.{pulled, pulled_form, slice_lem, IsPulled, written, pulled-IsReduced}

module _ (n : ℕ) (bound : n ≤ max_dimension) (form a b c out : List ℕ) (hf : IsReduced form)
    (ha : IsReduced a) (hb : IsReduced b) (hc : IsReduced c) (room : length out ≡ n * n * n) where
  abbrev pub result : List ℕ
  result = triform_action_pullback out form a b c n

  result_slices : IsPulled n bound form a b c hf ha hb hc out result
  result_slices = written n bound form a b c hf ha hb hc out (omega (arith, room))

  pub result-IsReduced : IsReduced result
  result-IsReduced = pulled-IsReduced n bound form a b c hf ha hb hc out result room result_slices

  pub result-coefficient :
      (j r col : ℕ)
      → j < n
      → r < n
      → col < n
      → Congr trine_q
          (coefficient n result j r col)
          (pulled n (entry n a) (entry n b) (entry n c) (coefficient n form) j r col)
  result-coefficient j r col hj hr hcol =
      Congr-of_eq trine_q _ _ (result_slices.holds j (r * n + col) hj (index-lt n n r col hr hcol))
      ∙ slice_lem n bound form a b c hf ha hb hc j r col hr hcol

  module _ (u v w : List ℕ) (hu : IsReduced u) (hv : IsReduced v) (hw : IsReduced w) where
    -- The images, as the exact sums of `pulled_form`.
    image :
        (m x : List ℕ)
        → IsReduced m
        → IsReduced x
        → (r : ℕ) → r < n
        → Congr trine_q (at (mat_vec_mul m x n) r) (sum n (λ k. entry n m r k * at x k))
    image m x hm hx r lt =
        Congr-of_eq trine_q _ _ (mat_vec_mul_lem n bound m x hm hx r lt) ∙ Congr-mod trine_q _

    source_side : Congr trine_q (trilinear n result (at u) (at v) (at w)) (
        sum n (λ j.
          at w j
          * sum n (λ r.
            at u r
            * sum n (λ col.
              pulled n (entry n a) (entry n b) (entry n c) (coefficient n form) j r col
              * at v col))))
    source_side = Congr-sum trine_q n _ _ λ j hj. Congr-mul trine_q (at w j) (at w j) _ _ refl (
        Congr-sum trine_q n _ _ λ r hr. Congr-mul trine_q (at u r) (at u r) _ _ refl (
          Congr-sum trine_q n _ _ λ col hcol.
            Congr-mul trine_q _ _ (at v col) (at v col) (result-coefficient j r col hj hr hcol)
              refl))

    target_side :
        Congr trine_q
          (trilinear n form
            (at (mat_vec_mul a u n))
            (at (mat_vec_mul b v n))
            (at (mat_vec_mul c w n)))
          (sum n (λ i.
            sum n (λ j. entry n c i j * at w j)
            * sum n (λ l.
              sum n (λ r. entry n a l r * at u r)
              * sum n (λ k. coefficient n form i l k * sum n (λ col. entry n b k col * at v col)))))
    target_side = Congr-sum trine_q n _ _ λ i hi. Congr-mul trine_q _ _ _ _ (image c w hc hw i hi) (
        Congr-sum trine_q n _ _ λ l hl. Congr-mul trine_q _ _ _ _ (image a u ha hu l hl) (
          Congr-sum trine_q n _ _ λ k hk.
            Congr-mul trine_q (coefficient n form i l k) (coefficient n form i l k) _ _ refl
              (image b v hb hv k hk)))

    pullback_meaning :
        triform_eval result u v w n
        ≡ triform_eval form (mat_vec_mul a u n) (mat_vec_mul b v n) (mat_vec_mul c w n) n
    pullback_meaning =
        triform_eval_lem n bound result u v w result-IsReduced hu hv hw
        ∙ source_side
        ∙ Congr-of_eq trine_q _ _ (
            pulled_form n (entry n a) (entry n b) (entry n c) (coefficient n form) (at u) (at v)
              (at w))
        ∙ sym target_side
        ∙ sym (
            triform_eval_lem n bound form _ _ _ hf (mat_vec_mul-IsReduced a u n)
              (mat_vec_mul-IsReduced b v n) (mat_vec_mul-IsReduced c w n))

-- The form that triform_action_pullback writes, evaluated at (u, v, w), is the given form evaluated
-- at (A u, B v, C w). All elements are reduced, the output has n ^ 3 elements, and n is at most
-- 2 ^ 16.
pub eval-pullback :
    (n : ℕ) (form a b c out u v w : List ℕ)
    → n ≤ max_dimension
    → length out ≡ n * n * n
    → IsReduced form
    → IsReduced a × IsReduced b × IsReduced c
    → IsReduced u × IsReduced v × IsReduced w
    → triform_eval (triform_action_pullback out form a b c n) u v w n
      ≡ triform_eval form (mat_vec_mul a u n) (mat_vec_mul b v n) (mat_vec_mul c w n) n
eval-pullback n form a b c out u v w bound room hf (ha, hb, hc) (hu, hv, hw) =
    pullback_meaning n bound form a b c out hf ha hb hc room u v w hu hv hw
