-- ===== src/Canon/Apply.antt =====
-- canonical_diagonal_normalize: the coefficients of its result, of which those at the anchors are 1.
use meds2end.Base.{ℕ, ◌+◌, ◌-◌, ◌*◌, ◌≤◌, ◌<◌, ◌≡◌, refl, ap, subst, ◌∙◌, arith}
use meds2end.Base.{>>=-eq-some, Bool, Bool-cases, inl, inr, not, leb, ◌&&◌}
use meds2end.Base.{List, at, length, replicate, length-replicate, Option, some}
use meds2end.Base.Grid.{entry, fill, entry-fill, length-fill, index-lt}
use meds2end.Base.Congr.{Congr, Congr-of_eq, eq_of_Congr}
use meds2end.Params.{trine_q}
use meds2end.Field.{gf_mul, gf_batch_inv}
use meds2end.Matrix.{mat_diag_scale}
use meds2end.Matrix.Products.{IsReduced, mat_mul-IsReduced, length-mat_mul}
use meds2end.Triform.{triform_slice, triform_action_pullback, pullback_slice}
use meds2end.Triform.Eval.{coefficient, entry-slice}
use meds2end.Triform.Slices.{slices-IsWritten, written-IsReduced}
use meds2end.Canon.{
  Diagonals, Bases, collect_normalization_anchors, finish_diagonals,
  compute_normalization_diagonals, apply_normalization, canonical_diagonal_normalize,
  canonical_build_uvw, canonical_form,
}
use meds2end.Canon.Anchors.{anchors-IsReduced}
use meds2end.Canon.Scaling.{middle, computed-IsDiagonals, gf_mul-lt}
use meds2end.Canon.Ones.{HasOnes, scaled-HasOnes, scaled_by}
use meds2end.Canon.Normal.{batch-IsInverses, mul-Congr, inverses-IsReduced, solved}

abbrev Same : ℕ → ℕ → Type 0
Same a b = Congr trine_q a b

pub pullback-IsReduced :
    (n : ℕ) (form a b c : List ℕ)
    → IsReduced (triform_action_pullback (replicate (n * n * n) 0) form a b c n)
unfolding triform_action_pullback
pullback-IsReduced n form a b c =
    written-IsReduced n (pullback_slice form a b c n) slice_length (replicate (n * n * n) 0) _ room
      (λ j. unfold pullback_slice in mat_mul-IsReduced _ b n)
      (slices-IsWritten n (pullback_slice form a b c n) slice_length (λ j. j * (n * n))
        (replicate (n * n * n) 0) (λ j. refl) (omega (arith, room)))
  where
    slice_length : (j : ℕ) → length (pullback_slice form a b c n j) ≡ n * n
    slice_length j = unfold pullback_slice in length-mat_mul _ b n

    room : length (replicate {A = ℕ} (n * n * n) 0) ≡ n * n * n
    room = length-replicate {A = ℕ} (n * n * n) 0

-- What compute_normalization_diagonals returns.
pub record IsNormalizing (n : ℕ) (form : List ℕ) (d : Diagonals) : Type 0 where
  pub f_reduced : IsReduced d.f
  pub g_reduced : IsReduced d.g
  pub h_reduced : IsReduced d.h
  pub ones :
      HasOnes
        (n - 2)
        (λ s r c. scaled_by (at d.h s) (at d.f r) (coefficient n form s r c) (at d.g c))

module _ (n : ℕ) (large : 5 ≤ n) (form : List ℕ) (hf : IsReduced form) where
  pub compute-IsNormalizing :
      (d : Diagonals) → compute_normalization_diagonals form n ≡ some d → IsNormalizing n form d
  unfolding compute_normalization_diagonals
  compute-IsNormalizing d e =
      let (inverses, inverted, finished) =
        >>=-eq-some
          (gf_batch_inv (replicate (3 * n - 2) 0) (collect_normalization_anchors form n)
            (3 * n - 2))
          rest e in
      let inv =
        batch-IsInverses (collect_normalization_anchors form n) (replicate (3 * n - 2) 0)
          (3 * n - 2) (anchors-IsReduced n form large hf)
          (omega (arith, length-replicate {A = ℕ} (3 * n - 2) 0)) inverted in
      let diagonal =
        computed-IsDiagonals n (collect_normalization_anchors form n) inverses large
          (anchors-IsReduced n form large hf) (inverses-IsReduced n large form hf inverses inv) in
      let same : finish_diagonals (collect_normalization_anchors form n) inverses n
            (middle n (collect_normalization_anchors form n) inverses)
          ≡ d =
        cc finished in
      subst (IsNormalizing n form) same (record {
        f_reduced = diagonal.f_reduced;
        g_reduced = diagonal.g_reduced;
        h_reduced = diagonal.h_reduced;
        ones =
            scaled-HasOnes (n - 2) (omega (arith, large)) _ _ _ _ _ _ _ _ _ _ _
              (solved n large form hf inverses inv _ diagonal);
      })
    where
      rest : List ℕ → Option Diagonals
      rest inverses = some (
          finish_diagonals (collect_normalization_anchors form n) inverses n
            (middle n (collect_normalization_anchors form n) inverses))

pub length-apply_normalization :
    (n : ℕ) (out form : List ℕ) (d : Diagonals)
    → length out ≡ n * n * n
    → length (apply_normalization out form d n) ≡ n * n * n
unfolding apply_normalization fill
length-apply_normalization n out form d room =
    length-fill n (n * n)
      (λ i pos. gf_mul (at d.h i) (at (mat_diag_scale d.f (triform_slice form i n) d.g n) pos)) out
      (omega (arith, room))
    ∙ room

module _ (n : ℕ) (out form : List ℕ) (d : Diagonals) (hf : IsReduced form)
    (room : length out ≡ n * n * n) (norm : IsNormalizing n form d) where
  -- The coefficients of the result, in the order of the code.
  coefficient_apply :
      (s r c : ℕ)
      → s < n
      → r < n
      → c < n
      → coefficient n (apply_normalization out form d n) s r c
        ≡ gf_mul (at d.h s) (gf_mul (gf_mul (at d.f r) (coefficient n form s r c)) (at d.g c))
  unfolding apply_normalization fill mat_diag_scale
  coefficient_apply s r c hs hr hc =
      entry-fill n (n * n)
        (λ i pos. gf_mul (at d.h i) (at (mat_diag_scale d.f (triform_slice form i n) d.g n) pos))
        out (omega (arith, room)) s (r * n + c) hs (index-lt n n r c hr hc)
      ∙ ap (gf_mul (at d.h s)) (
          entry-fill n n
            (λ i j. gf_mul (gf_mul (at d.f i) (entry n (triform_slice form s n) i j)) (at d.g j))
            (replicate (n * n) 0) (omega (arith, length-replicate {A = ℕ} (n * n) 0)) r c hr hc)
      ∙ ap (λ t. gf_mul (at d.h s) (gf_mul (gf_mul (at d.f r) t) (at d.g c)))
          (entry-slice n form s r c hr hc)

  pub apply-Congr :
      (s r c : ℕ)
      → s < n
      → r < n
      → c < n
      → Same
          (coefficient n (apply_normalization out form d n) s r c)
          (scaled_by (at d.h s) (at d.f r) (coefficient n form s r c) (at d.g c))
  apply-Congr s r c hs hr hc =
      Congr-of_eq trine_q _ _ (coefficient_apply s r c hs hr hc)
      ∙ mul-Congr _ _ _ _ (norm.h_reduced s)
          (gf_mul-lt _ _ (gf_mul-lt _ _ (norm.f_reduced r) (hf _)) (norm.g_reduced c)) refl
          (mul-Congr _ _ _ _ (gf_mul-lt _ _ (norm.f_reduced r) (hf _)) (norm.g_reduced c)
            (mul-Congr _ _ _ _ (norm.f_reduced r) (hf _) refl refl) refl)

  pub apply-lt :
      (s r c : ℕ)
      → s < n
      → r < n
      → c < n
      → coefficient n (apply_normalization out form d n) s r c < trine_q
  apply-lt s r c hs hr hc = rw (coefficient_apply s r c hs hr hc) (
      gf_mul-lt _ _ (norm.h_reduced s)
        (gf_mul-lt _ _ (gf_mul-lt _ _ (norm.f_reduced r) (hf _)) (norm.g_reduced c)))

  -- Where the scaled coefficient is 1 modulo q, the coefficient of the result is 1.
  one_at :
      (s r c : ℕ)
      → s < n
      → r < n
      → c < n
      → Same (scaled_by (at d.h s) (at d.f r) (coefficient n form s r c) (at d.g c)) 1
      → coefficient n (apply_normalization out form d n) s r c ≡ 1
  one_at s r c hs hr hc one =
      eq_of_Congr trine_q _ 1 (apply-lt s r c hs hr hc) (omega arith)
        (apply-Congr s r c hs hr hc ∙ one)

-- The coefficients at the 3 n - 2 anchors are 1.
pub record IsNormal (n : ℕ) (form : List ℕ) : Type 0 where
  pub a : (k : ℕ) → k < n - 2 → coefficient n form 0 (2 + k) 1 ≡ 1
  pub b : (k : ℕ) → k < n - 2 → coefficient n form 0 0 (2 + k) ≡ 1
  pub c : (k : ℕ) → k < n - 2 → coefficient n form (2 + k) 0 1 ≡ 1
  pub d1 : coefficient n form 0 0 1 ≡ 1
  pub d2 : coefficient n form 4 1 2 ≡ 1
  pub d3 : coefficient n form 1 0 2 ≡ 1
  pub d4 : coefficient n form 1 1 0 ≡ 1

apply-IsNormal :
    (n : ℕ) (out form : List ℕ) (d : Diagonals)
    → 5 ≤ n
    → IsReduced form
    → length out ≡ n * n * n
    → IsNormalizing n form d
    → IsNormal n (apply_normalization out form d n)
apply-IsNormal n out form d large hf room norm = record {
  a = λ k lt.
      one 0 (2 + k) 1 (omega (arith, large)) (omega (arith, lt)) (omega (arith, large))
        (norm.ones.a k lt);
  b = λ k lt.
      one 0 0 (2 + k) (omega (arith, large)) (omega (arith, large)) (omega (arith, lt))
        (norm.ones.b k lt);
  c = λ k lt.
      one (2 + k) 0 1 (omega (arith, lt)) (omega (arith, large)) (omega (arith, large))
        (norm.ones.c k lt);
  d1 = one 0 0 1 (omega (arith, large)) (omega (arith, large)) (omega (arith, large)) norm.ones.d1;
  d2 = one 4 1 2 (omega (arith, large)) (omega (arith, large)) (omega (arith, large)) norm.ones.d2;
  d3 = one 1 0 2 (omega (arith, large)) (omega (arith, large)) (omega (arith, large)) norm.ones.d3;
  d4 = one 1 1 0 (omega (arith, large)) (omega (arith, large)) (omega (arith, large)) norm.ones.d4;
}
  where
    one :
        (s r c : ℕ)
        → s < n
        → r < n
        → c < n
        → Same (scaled_by (at d.h s) (at d.f r) (coefficient n form s r c) (at d.g c)) 1
        → coefficient n (apply_normalization out form d n) s r c ≡ 1
    one = one_at n out form d hf room norm

-- Whatever canonical_diagonal_normalize returns has the coefficient 1 at each of the 3 n - 2 anchors.
-- The array for the result has n ^ 3 elements.
canonical_diagonal_normalize-IsNormal :
    (alloc : Bool) (max_n n : ℕ) (out form result : List ℕ) (bases : Bases)
    → length out ≡ n * n * n
    → canonical_diagonal_normalize alloc max_n out form bases n ≡ some result
    → IsNormal n result
unfolding canonical_diagonal_normalize
canonical_diagonal_normalize-IsNormal alloc max_n n out form result bases room e =
    elim (Bool-cases (not (leb 5 n && leb n max_n))) [
      | inl outside ↦ absurd (cc (rw outside at e))
      | inr inside ↦ elim (Bool-cases (not alloc)) [
        | inl empty ↦ absurd (cc (rw (inside, empty) at e))
        | inr fine ↦
            let (d, computed, applied) =
              >>=-eq-some (compute_normalization_diagonals transformed n)
                (λ d. some (apply_normalization out transformed d n)) (rw (inside, fine) at e) in
            let large : 5 ≤ n = ground (arith, inside) in
            let same : apply_normalization out transformed d n ≡ result = cc applied in
            subst (IsNormal n) same (
              apply-IsNormal n out transformed d large reduced room
                (compute-IsNormalizing n large transformed reduced d computed))
      ]
    ]
  where
    transformed : List ℕ
    transformed = triform_action_pullback (replicate (n * n * n) 0) form bases.u bases.v bases.w n

    reduced : IsReduced transformed
    reduced = pullback-IsReduced n form bases.u bases.v bases.w

-- Whatever canonical_form returns, at any point of any form, has the coefficient 1 at each of the
-- 3 n - 2 anchors. The array for the result has n ^ 3 elements.
pub canonical_form-IsNormal :
    (alloc : Bool) (max_n n : ℕ) (out form point result : List ℕ)
    → length out ≡ n * n * n
    → canonical_form alloc max_n out form point n ≡ some result
    → IsNormal n result
unfolding canonical_form
canonical_form-IsNormal alloc max_n n out form point result room e =
    elim (Bool-cases (not (leb 5 n && leb n max_n))) [
      | inl outside ↦ absurd (cc (rw outside at e))
      | inr inside ↦
          let (bases, built, normalized) =
            >>=-eq-some (canonical_build_uvw max_n form point n)
              (λ b. canonical_diagonal_normalize alloc max_n out form b n) (rw inside at e) in
          canonical_diagonal_normalize-IsNormal alloc max_n n out form result bases room normalized
    ]
