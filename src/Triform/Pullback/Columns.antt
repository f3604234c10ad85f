-- ===== src/Triform/Pullback/Columns.antt =====
-- The coefficients of a form pulled back are the values of the form at the columns of the matrices.
use meds2end.Base.{ℕ, ◌*◌, ◌≤◌, ◌<◌, ◌≡◌, refl, sym, ap, ◌∙◌, arith, List, length}
use meds2end.Base.Grid.{entry}
use meds2end.Base.Sums.{sum, sum_ext, sum-mul_right}
use meds2end.Base.Congr.{Congr, Congr-mul, Congr-sum, Congr-of_eq}
use meds2end.Params.{trine_q}
use meds2end.Matrix.Products.{IsReduced, max_dimension}
use meds2end.Triform.{triform_action_pullback}
use meds2end.Triform.Eval.{coefficient}
use meds2end.Triform.Sums.{sum_assoc, sum_pull}
use meds2end.Triform.Pullback.{pulled, pulled_form}
use meds2end.Triform.Pullback.Meaning.{result-coefficient, result-IsReduced}

abbrev Same : ℕ → ℕ → Type 0
Same a b = Congr trine_q a b

-- The trilinear form with the coefficients m at (u, v, w).
abbrev pub value : ℕ → (ℕ → ℕ → ℕ → ℕ) → (ℕ → ℕ) → (ℕ → ℕ) → (ℕ → ℕ) → ℕ
value n m u v w = sum n (λ s. w s * sum n (λ r. u r * sum n (λ c. m s r c * v c)))

value-Congr :
    (n : ℕ) (m m' : ℕ → ℕ → ℕ → ℕ) (u u' v v' w w' : ℕ → ℕ)
    → ((s r c : ℕ) → s < n → r < n → c < n → Same (m s r c) (m' s r c))
    → ((i : ℕ) → i < n → Same (u i) (u' i))
    → ((i : ℕ) → i < n → Same (v i) (v' i))
    → ((i : ℕ) → i < n → Same (w i) (w' i))
    → Same (value n m u v w) (value n m' u' v' w')
value-Congr n m m' u u' v v' w w' em eu ev ew = Congr-sum trine_q n _ _ λ s hs.
    Congr-mul trine_q (w s) (w' s) _ _ (ew s hs) (
      Congr-sum trine_q n _ _ λ r hr. Congr-mul trine_q (u r) (u' r) _ _ (eu r hr) (
        Congr-sum trine_q n _ _ λ c hc.
          Congr-mul trine_q (m s r c) (m' s r c) (v c) (v' c) (em s r c hs hr hc) (ev c hc)))

-- A factor of each argument is a factor of the value.
value_scaled :
    (n : ℕ) (m : ℕ → ℕ → ℕ → ℕ) (u v w : ℕ → ℕ) (x y z : ℕ)
    → value n m (λ i. u i * x) (λ i. v i * y) (λ i. w i * z) ≡ value n m u v w * (x * y * z)
value_scaled n m u v w x y z = sum_ext n _ _ (λ s hs. term s) ∙ sum-mul_right n (x * y * z) _
  where
    inner : (s r : ℕ) → sum n (λ c. m s r c * (v c * y)) ≡ sum n (λ c. m s r c * v c) * y
    inner s r = sum_ext n _ (λ c. m s r c * v c * y) (λ c hc. omega arith) ∙ sum-mul_right n y _

    middle :
        (s : ℕ)
        → sum n (λ r. u r * x * sum n (λ c. m s r c * (v c * y)))
          ≡ sum n (λ r. u r * sum n (λ c. m s r c * v c)) * (x * y)
    middle s =
        sum_ext n _ (λ r. u r * sum n (λ c. m s r c * v c) * (x * y))
          (λ r hr. ap (λ (t : ℕ). u r * x * t) (inner s r) ∙ omega arith)
        ∙ sum-mul_right n (x * y) _

    term :
        (s : ℕ)
        → w s * z * sum n (λ r. u r * x * sum n (λ c. m s r c * (v c * y)))
          ≡ w s * sum n (λ r. u r * sum n (λ c. m s r c * v c)) * (x * y * z)
    term s = ap (λ (t : ℕ). w s * z * t) (middle s) ∙ omega arith

-- A coefficient of a pulled-back form is the value at three columns.
pulled_columns :
    (n : ℕ) (a b c : ℕ → ℕ → ℕ) (m : ℕ → ℕ → ℕ → ℕ) (j r col : ℕ)
    → pulled n a b c m j r col ≡ value n m (λ l. a l r) (λ k. b k col) (λ i. c i j)
pulled_columns n a b c m j r col =
    sum_assoc n n (λ l. a l r) (λ l k. sum n (λ i. c i j * m i l k)) (λ k. b k col)
    ∙ sum_ext n _ _ (λ l lt.
      ap (λ (t : ℕ). a l r * t) (sum_assoc n n (λ i. c i j) (λ i k. m i l k) (λ k. b k col)))
    ∙ sum_pull n n (λ l. a l r) (λ i. c i j) (λ i l. sum n (λ k. m i l k * b k col))

-- The matrix a takes the columns of u' to those of u, scaled by d, which has the inverses e.
pub record IsMoved (n : ℕ) (a u u' : List ℕ) (d e : ℕ → ℕ) : Type 0 where
  pub moved :
      (l r : ℕ)
      → l < n
      → r < n
      → Congr trine_q (sum n (λ k. entry n a l k * entry n u' k r)) (entry n u l r * d r)
  pub unit : (r : ℕ) → r < n → Congr trine_q (d r * e r) 1

-- The matrices of one side are reduced.
pub record AreReduced (x y z : List ℕ) : Type 0 where
  pub first : IsReduced x
  pub second : IsReduced y
  pub third : IsReduced z

module _ (n : ℕ) (bound : n ≤ max_dimension) (form : List ℕ) (hf : IsReduced form) where
  -- The coefficients of a pullback are values at columns.
  coefficient-columns :
      (out a b c : List ℕ)
      → length out ≡ n * n * n
      → AreReduced a b c
      → (s r col : ℕ) → s < n
      → r < n
      → col < n
      → Same (coefficient n (triform_action_pullback out form a b c n) s r col) (
          value n
            (coefficient n form)
            (λ l. entry n a l r)
            (λ k. entry n b k col)
            (λ i. entry n c i s))
  coefficient-columns out a b c room h s r col hs hr hc =
      result-coefficient n bound form a b c out hf h.first h.second h.third room s r col hs hr hc
      ∙ Congr-of_eq trine_q _ _
          (pulled_columns n (entry n a) (entry n b) (entry n c) (coefficient n form) s r col)

module _ (n : ℕ) (bound : n ≤ max_dimension) (form : List ℕ) (hf : IsReduced form) where
  -- Pulling back by a, b, c and then by u', v', w' is pulling back by u, v, w, but for the scaling.
  pub pullback-moved :
      (out out' blank a b c u v w u' v' w' : List ℕ) (du dv dw eu ev ew : ℕ → ℕ)
      → length out ≡ n * n * n
      → length out' ≡ n * n * n
      → length blank ≡ n * n * n
      → AreReduced a b c
      → AreReduced u v w
      → AreReduced u' v' w'
      → IsMoved n a u u' du eu
      → IsMoved n b v v' dv ev
      → IsMoved n c w w' dw ew
      → (s r col : ℕ) → s < n
      → r < n
      → col < n
      → Same
          (coefficient n
            (triform_action_pullback out' (triform_action_pullback blank form a b c n) u' v' w' n)
            s
            r
            col)
          (dw s
            * (du r * coefficient n (triform_action_pullback out form u v w n) s r col * dv col))
  pullback-moved out out' blank a b c u v w u' v' w' du dv dw eu ev ew room room' room0 ha hu hu' mu
        mv mw s r col hs hr hc =
      coefficient-columns n bound once once-IsReduced out' u' v' w' room' hu' s r col hs hr hc
      ∙ value-Congr n (coefficient n once)
          (pulled n (entry n a) (entry n b) (entry n c) (coefficient n form)) _ _ _ _ _ _
          (result-coefficient n bound form a b c blank hf ha.first ha.second ha.third room0)
          (λ i lt. refl) (λ i lt. refl) (λ i lt. refl)
      ∙ Congr-of_eq trine_q _ _ (
          pulled_form n (entry n a) (entry n b) (entry n c) (coefficient n form)
            (λ l. entry n u' l r) (λ k. entry n v' k col) (λ i. entry n w' i s))
      ∙ value-Congr n (coefficient n form) (coefficient n form) _ _ _ _ _ _ (λ i l k hi hl hk. refl)
          (λ l lt. mu.moved l r lt hr) (λ k lt. mv.moved k col lt hc) (λ i lt. mw.moved i s lt hs)
      ∙ Congr-of_eq trine_q _ _ (
          value_scaled n (coefficient n form) (λ l. entry n u l r) (λ k. entry n v k col)
            (λ i. entry n w i s) (du r) (dv col) (dw s))
      ∙ Congr-mul trine_q _ _ (du r * dv col * dw s) _
          (sym (coefficient-columns n bound form hf out u v w room hu s r col hs hr hc)) refl
      ∙ Congr-of_eq trine_q _ _ (reorder _ (du r) (dv col) (dw s))
    where
      once : List ℕ
      once = triform_action_pullback blank form a b c n

      once-IsReduced : IsReduced once
      once-IsReduced =
          result-IsReduced n bound form a b c blank hf ha.first ha.second ha.third room0

      reorder : (t x y z : ℕ) → t * (x * y * z) ≡ z * (x * t * y)
      reorder t x y z = omega arith
