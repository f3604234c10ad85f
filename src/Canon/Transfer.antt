-- ===== src/Canon/Transfer.antt =====
-- The normalisations of two forms that differ by diagonal matrices succeed together and agree.
use meds2end.Base.{ℕ, ◌+◌, ◌-◌, ◌*◌, ◌≤◌, ◌<◌, ◌≡◌, ◌≢◌, sym, ◌∙◌, arith}
use meds2end.Base.{Option-cases, inl, inr}
use meds2end.Base.{List, at, length, replicate, length-replicate, some}
use meds2end.Base.Congr.{Congr, Congr-of_eq, eq_of_Congr}
use meds2end.Params.{trine_q}
use meds2end.Field.Batch.Result.{gf_batch_inv_lem, gf_batch_inv-zero}
use meds2end.Matrix.Products.{IsReduced}
use meds2end.Triform.Eval.{coefficient}
use meds2end.Triform.Points.{form_ext}
use meds2end.Canon.{
  Diagonals, collect_normalization_anchors, compute_normalization_diagonals, apply_normalization,
}
use meds2end.Canon.Anchors.{anchors-IsReduced}
use meds2end.Canon.Ones.{HasOnes, scaled_by}
use meds2end.Canon.Unique.{scaling_unique}
use meds2end.Canon.Apply.{IsNormalizing, apply-Congr, apply-lt, length-apply_normalization}
use meds2end.Canon.Rescaled.{IsRescaled, IsRescaled-sym, scaled_twice, anchor_at}

abbrev Same : ℕ → ℕ → Type 0
Same a b = Congr trine_q a b

HasOnes-ext :
    (m : ℕ) (x y : ℕ → ℕ → ℕ → ℕ)
    → 3 ≤ m
    → ((s r c : ℕ) → s < 2 + m → r < 2 + m → c < 2 + m → Same (x s r c) (y s r c))
    → HasOnes m y
    → HasOnes m x
HasOnes-ext m x y large e h = record {
  a = λ k lt. e 0 (2 + k) 1 zero_low (omega (arith, lt)) one_low ∙ h.a k lt;
  b = λ k lt. e 0 0 (2 + k) zero_low zero_low (omega (arith, lt)) ∙ h.b k lt;
  c = λ k lt. e (2 + k) 0 1 (omega (arith, lt)) zero_low one_low ∙ h.c k lt;
  d1 = e 0 0 1 zero_low zero_low one_low ∙ h.d1;
  d2 = e 4 1 2 (omega (arith, large)) one_low (omega (arith, large)) ∙ h.d2;
  d3 = e 1 0 2 one_low zero_low (omega (arith, large)) ∙ h.d3;
  d4 = e 1 1 0 one_low one_low zero_low ∙ h.d4;
}
  where
    low : (i : ℕ) → i < 2 → i < 2 + m
    low i lt = omega (arith, lt)

    zero_low : 0 < 2 + m
    zero_low = low 0 (omega arith)

    one_low : 1 < 2 + m
    one_low = low 1 (omega arith)

module _ (n : ℕ) (large : 5 ≤ n) where
  abbrev t_of : List ℕ → ℕ → ℕ → ℕ → ℕ
  t_of form s r c = coefficient n form s r c

  anchors_nonzero :
      (form : List ℕ) (d : Diagonals)
      → IsReduced form
      → compute_normalization_diagonals form n ≡ some d
      → (i : ℕ) → i < 3 * n - 2
      → at (collect_normalization_anchors form n) i ≢ 0
  unfolding compute_normalization_diagonals
  anchors_nonzero form d hf e i lt z =
      let failed =
        gf_batch_inv-zero (collect_normalization_anchors form n) (replicate (3 * n - 2) 0)
          (3 * n - 2) i (λ j l. anchors-IsReduced n form large hf j) lt z in
      cc (rw failed at e)

  compute-total :
      (form : List ℕ)
      → IsReduced form
      → ((i : ℕ) → i < 3 * n - 2 → at (collect_normalization_anchors form n) i ≢ 0)
      → (d : Diagonals) × compute_normalization_diagonals form n ≡ some d
  unfolding compute_normalization_diagonals
  compute-total form hf nz =
      let (inverses, inverted, _) =
        gf_batch_inv_lem (collect_normalization_anchors form n) (replicate (3 * n - 2) 0)
          (3 * n - 2) (λ j l. anchors-IsReduced n form large hf j)
          (omega (arith, length-replicate {A = ℕ} (3 * n - 2) 0)) nz in
      elim (Option-cases (compute_normalization_diagonals form n)) [
        | inl failed ↦ absurd (cc (rw (compute_normalization_diagonals, inverted) at failed))
        | inr found ↦ found
      ]

  module _ (form form' : List ℕ) (du dv dw eu ev ew : ℕ → ℕ) (hf : IsReduced form)
      (hf' : IsReduced form') (e : IsRescaled n (t_of form) (t_of form') du dv dw eu ev ew) where
    -- Where the normalisation of the first succeeds, so does that of the second.
    pub transfer :
        (d : Diagonals)
        → compute_normalization_diagonals form n ≡ some d
        → (d' : Diagonals) × compute_normalization_diagonals form' n ≡ some d'
    transfer d computed = compute-total form' hf' λ i lt z.
        let (s, r, c, hs, hr, hc, here) = anchor_at n i large lt in
        let vanishes : t_of form' s r c ≡ 0 = sym (here form') ∙ z in
        let back =
          (IsRescaled-sym n (t_of form) (t_of form') du dv dw eu ev ew e).scaled s r c hs hr hc in
        let zero_product : scaled_by (ew s) (eu r) (t_of form' s r c) (ev c) ≡ 0 =
          rw vanishes (omega arith) in
        let same : t_of form s r c ≡ 0 =
          eq_of_Congr trine_q (t_of form s r c) 0 (hf _) (omega arith)
            (back ∙ Congr-of_eq trine_q _ 0 zero_product) in
        anchors_nonzero form d hf computed i lt (here form ∙ same)

    pub same_result :
        (out out' : List ℕ) (d d' : Diagonals)
        → length out ≡ n * n * n
        → length out' ≡ n * n * n
        → IsNormalizing n form d
        → IsNormalizing n form' d'
        → apply_normalization out form d n ≡ apply_normalization out' form' d' n
    same_result out out' d d' room room' norm norm' =
        form_ext n _ _ (length-apply_normalization n out form d room)
          (length-apply_normalization n out' form' d' room')
          λ s r c hs hr hc.
            eq_of_Congr trine_q _ _ (apply-lt n out form d hf room norm s r c hs hr hc)
              (apply-lt n out' form' d' hf' room' norm' s r c hs hr hc)
              (apply-Congr n out form d hf room norm s r c hs hr hc
                ∙ sym (
                    scaling_unique (n - 2) (omega (arith, large)) (t_of form) (at d.f) (at d.g)
                      (at d.h) norm.ones (λ i. at d'.f i * du i) (λ i. at d'.g i * dv i)
                      (λ i. at d'.h i * dw i) moved s r c (omega (arith, hs)) (omega (arith, hr))
                      (omega (arith, hc)))
                ∙ sym (twice s r c hs hr hc)
                ∙ sym (apply-Congr n out' form' d' hf' room' norm' s r c hs hr hc))
      where
        twice :
            (s r c : ℕ)
            → s < n
            → r < n
            → c < n
            → Same (scaled_by (at d'.h s) (at d'.f r) (t_of form' s r c) (at d'.g c)) (
                scaled_by
                  (at d'.h s * dw s)
                  (at d'.f r * du r)
                  (t_of form s r c)
                  (at d'.g c * dv c))
        twice =
            scaled_twice n (t_of form) (t_of form') du dv dw eu ev ew e (at d'.f) (at d'.g)
              (at d'.h)

        moved : HasOnes (n - 2) (λ s r c.
            scaled_by (at d'.h s * dw s) (at d'.f r * du r) (t_of form s r c) (at d'.g c * dv c))
        moved =
            HasOnes-ext (n - 2) _ _ (omega (arith, large))
              (λ s r c hs hr hc. sym (
                twice s r c (omega (arith, hs, large)) (omega (arith, hr, large))
                  (omega (arith, hc, large))))
              norm'.ones
