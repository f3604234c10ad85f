-- ===== src/Canon/Rescaled.antt =====
-- Two forms that differ by diagonal matrices have the same normalisation.
use native.Mathlib.Decide.{dec_lt, ℕ_discrete}
use meds2end.Base.{ℕ, ◌+◌, ◌-◌, ◌*◌, ◌≤◌, ◌<◌, ◌≡◌, refl, sym, ap, ◌∙◌, arith}
use meds2end.Base.{List, at}
use meds2end.Base.Congr.{Congr, Congr-mul, Congr-of_eq}
use meds2end.Params.{trine_q}
use meds2end.Triform.Eval.{coefficient}
use meds2end.Canon.{collect_normalization_anchors}
use meds2end.Canon.Anchors.{collected-IsAnchors}
use meds2end.Canon.Ones.{scaled_by, drop_factor}

abbrev Same : ℕ → ℕ → Type 0
Same a b = Congr trine_q a b

-- The coefficients t' are those of t scaled by du, dv and dw, which have the inverses eu, ev and ew.
pub record IsRescaled (n : ℕ) (t t' : ℕ → ℕ → ℕ → ℕ) (du dv dw eu ev ew : ℕ → ℕ) : Type 0 where
  pub scaled :
      (s r c : ℕ)
      → s < n
      → r < n
      → c < n
      → Same (t' s r c) (scaled_by (dw s) (du r) (t s r c) (dv c))
  pub u_unit : (i : ℕ) → i < n → Same (du i * eu i) 1
  pub v_unit : (i : ℕ) → i < n → Same (dv i * ev i) 1
  pub w_unit : (i : ℕ) → i < n → Same (dw i * ew i) 1

-- Scaling by the inverses goes back.
pub IsRescaled-sym :
    (n : ℕ) (t t' : ℕ → ℕ → ℕ → ℕ) (du dv dw eu ev ew : ℕ → ℕ)
    → IsRescaled n t t' du dv dw eu ev ew
    → IsRescaled n t' t eu ev ew du dv dw
IsRescaled-sym n t t' du dv dw eu ev ew h = record {
  scaled = λ s r c hs hr hc. sym (
      scaled-t s r c hs hr hc
      ∙ drop_factor (scaled_by (ew s) (eu r) (scaled_by (dw s) (du r) (t s r c) (dv c)) (ev c))
          (t s r c * (du r * eu r) * (dv c * ev c)) (dw s * ew s) (omega arith) (h.w_unit s hs)
      ∙ drop_factor _ (t s r c * (du r * eu r)) (dv c * ev c) refl (h.v_unit c hc)
      ∙ drop_factor _ (t s r c) (du r * eu r) refl (h.u_unit r hr));
  u_unit = λ i lt. Congr-of_eq trine_q (eu i * du i) (du i * eu i) (omega arith) ∙ h.u_unit i lt;
  v_unit = λ i lt. Congr-of_eq trine_q (ev i * dv i) (dv i * ev i) (omega arith) ∙ h.v_unit i lt;
  w_unit = λ i lt. Congr-of_eq trine_q (ew i * dw i) (dw i * ew i) (omega arith) ∙ h.w_unit i lt;
}
  where
    scaled-t :
        (s r c : ℕ)
        → s < n
        → r < n
        → c < n
        → Same
            (scaled_by (ew s) (eu r) (t' s r c) (ev c))
            (scaled_by (ew s) (eu r) (scaled_by (dw s) (du r) (t s r c) (dv c)) (ev c))
    scaled-t s r c hs hr hc = Congr-mul trine_q (ew s) (ew s) _ _ refl (
        Congr-mul trine_q _ _ (ev c) (ev c)
          (Congr-mul trine_q (eu r) (eu r) _ _ refl (h.scaled s r c hs hr hc)) refl)

-- A scaling of t' is one of t.
pub scaled_twice :
    (n : ℕ) (t t' : ℕ → ℕ → ℕ → ℕ) (du dv dw eu ev ew : ℕ → ℕ)
    → IsRescaled n t t' du dv dw eu ev ew
    → (f g h : ℕ → ℕ) (s r c : ℕ) → s < n
    → r < n
    → c < n
    → Same
        (scaled_by (h s) (f r) (t' s r c) (g c))
        (scaled_by (h s * dw s) (f r * du r) (t s r c) (g c * dv c))
scaled_twice n t t' du dv dw eu ev ew e f g h s r c hs hr hc =
    Congr-mul trine_q (h s) (h s) _ _ refl (
      Congr-mul trine_q _ _ (g c) (g c)
        (Congr-mul trine_q (f r) (f r) _ _ refl (e.scaled s r c hs hr hc)) refl)
    ∙ Congr-of_eq trine_q (scaled_by (h s) (f r) (scaled_by (dw s) (du r) (t s r c) (dv c)) (g c))
        (scaled_by (h s * dw s) (f r * du r) (t s r c) (g c * dv c)) (omega arith)

-- The anchor with index i is one coefficient of the form.
pub anchor_at :
    (n i : ℕ)
    → 5 ≤ n
    → i < 3 * n - 2
    → (s : ℕ) × (r : ℕ) × (c : ℕ) × (s < n)
      × (r < n)
      × (c < n)
      × ((form : List ℕ) → at (collect_normalization_anchors form n) i ≡ coefficient n form s r c)
anchor_at n i large lt = elim (dec_lt i (n - 2)) [
  | yes first ↦ (
    0,
    2 + i,
    1,
    omega (arith, large),
    omega (arith, first),
    omega (arith, large),
    λ form. (collected-IsAnchors n form large).a i first,
  )
  | no a ↦ elim (dec_lt i (2 * (n - 2))) [
    | yes second ↦
        let e : i ≡ n - 2 + (i - (n - 2)) = omega (arith, a) in
        (
          0,
          0,
          2 + (i - (n - 2)),
          omega (arith, large),
          omega (arith, large),
          omega (arith, second, a, large),
          λ form.
              ap (at (collect_normalization_anchors form n)) e
              ∙ (collected-IsAnchors n form large).b (i - (n - 2))
                  (omega (arith, second, a, large)),
        )
    | no b ↦ elim (dec_lt i (3 * (n - 2))) [
      | yes third ↦
          let e : i ≡ 2 * (n - 2) + (i - 2 * (n - 2)) = omega (arith, b) in
          (
            2 + (i - 2 * (n - 2)),
            0,
            1,
            omega (arith, third, b, large),
            omega (arith, large),
            omega (arith, large),
            λ form.
                ap (at (collect_normalization_anchors form n)) e
                ∙ (collected-IsAnchors n form large).c (i - 2 * (n - 2))
                    (omega (arith, third, b, large)),
          )
      | no d ↦ elim (ℕ_discrete i (3 * (n - 2))) [
        | yes e1 ↦ (
          0,
          0,
          1,
          omega (arith, large),
          omega (arith, large),
          omega (arith, large),
          λ form.
              ap (at (collect_normalization_anchors form n)) e1
              ∙ (collected-IsAnchors n form large).d1,
        )
        | no n1 ↦ elim (ℕ_discrete i (3 * (n - 2) + 1)) [
          | yes e2 ↦ (
            4,
            1,
            2,
            omega (arith, large),
            omega (arith, large),
            omega (arith, large),
            λ form.
                ap (at (collect_normalization_anchors form n)) e2
                ∙ (collected-IsAnchors n form large).d2,
          )
          | no n2 ↦ elim (ℕ_discrete i (3 * (n - 2) + 2)) [
            | yes e3 ↦ (
              1,
              0,
              2,
              omega (arith, large),
              omega (arith, large),
              omega (arith, large),
              λ form.
                  ap (at (collect_normalization_anchors form n)) e3
                  ∙ (collected-IsAnchors n form large).d3,
            )
            | no n3 ↦
                let e4 : i ≡ 3 * (n - 2) + 3 = omega (arith, lt, d, n1, n2, n3, large) in
                (
                  1,
                  1,
                  0,
                  omega (arith, large),
                  omega (arith, large),
                  omega (arith, large),
                  λ form.
                      ap (at (collect_normalization_anchors form n)) e4
                      ∙ (collected-IsAnchors n form large).d4,
                )
          ]
        ]
      ]
    ]
  ]
]
