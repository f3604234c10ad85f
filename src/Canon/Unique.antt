-- ===== src/Canon/Unique.antt =====
-- The algebra of the normalisation: a scaling that keeps all the anchors 1 is trivial.
use meds2end.Base.{ℕ, zero, suc, ◌+◌, ◌*◌, ◌≤◌, ◌<◌, refl, sym, subst, ◌∙◌, arith}
use meds2end.Base.Congr.{Congr, Congr-of_eq}
use meds2end.Params.{trine_q}
use meds2end.Canon.Ones.{drop_factor, scaled_by, scaled-Congr, HasOnes}

abbrev Same : ℕ → ℕ → Type 0
Same a b = Congr trine_q a b

-- Two inverses of one number are congruent.
cancel : (x x' y : ℕ) → Same (x * y) 1 → Same (x' * y) 1 → Same x x'
cancel x x' y p q =
    sym (drop_factor (x * (x' * y)) x (x' * y) refl q)
    ∙ drop_factor (x * (x' * y)) x' (x * y) (omega arith) p

module _ (h f t g : ℕ) where
  move_h : Same (scaled_by h f t g) 1 → Same (h * (f * t * g)) 1
  move_h p = p

  move_f : Same (scaled_by h f t g) 1 → Same (f * (h * t * g)) 1
  move_f p = Congr-of_eq trine_q (f * (h * t * g)) (scaled_by h f t g) (omega arith) ∙ p

  move_g : Same (scaled_by h f t g) 1 → Same (g * (h * t * f)) 1
  move_g p = Congr-of_eq trine_q (g * (h * t * f)) (scaled_by h f t g) (omega arith) ∙ p

module _ (m : ℕ) (large : 3 ≤ m) (f g h : ℕ → ℕ)
    (ones : HasOnes m (λ s r c. scaled_by (h s) (f r) 1 (g c))) where
  same_f_high : (k : ℕ) → k < m → Same (f (2 + k)) (f 0)
  same_f_high k lt =
      cancel (f (2 + k)) (f 0) (h 0 * 1 * g 1) (move_f _ _ _ _ (ones.a k lt))
        (move_f _ _ _ _ ones.d1)

  same_g_high : (k : ℕ) → k < m → Same (g (2 + k)) (g 1)
  same_g_high k lt =
      cancel (g (2 + k)) (g 1) (h 0 * 1 * f 0) (move_g _ _ _ _ (ones.b k lt))
        (move_g _ _ _ _ ones.d1)

  same_h_high : (k : ℕ) → k < m → Same (h (2 + k)) (h 0)
  same_h_high k lt =
      cancel (h (2 + k)) (h 0) (f 0 * 1 * g 1) (move_h _ _ _ _ (ones.c k lt))
        (move_h _ _ _ _ ones.d1)

  same_f1 : Same (f 1) (f 0)
  same_f1 = cancel (f 1) (f 0) (h 4 * 1 * g 2) (move_f _ _ _ _ ones.d2) (
      move_f _ _ _ _ (
        scaled-Congr (h 4) (h 0) (f 0) (f 0) 1 (g 2) (g 1) (same_h_high 2 (omega (arith, large)))
          refl (same_g_high 0 (omega (arith, large)))
        ∙ ones.d1))

  same_h1 : Same (h 1) (h 0)
  same_h1 =
      cancel (h 1) (h 0) (f 0 * 1 * g 2) (move_h _ _ _ _ ones.d3)
        (move_h _ _ _ _ (ones.b 0 (omega (arith, large))))

  same_g0 : Same (g 0) (g 1)
  same_g0 = cancel (g 0) (g 1) (h 1 * 1 * f 1) (move_g _ _ _ _ ones.d4) (
      move_g _ _ _ _
        (scaled-Congr (h 1) (h 0) (f 1) (f 0) 1 (g 1) (g 1) same_h1 same_f1 refl ∙ ones.d1))

  same_f : (r : ℕ) → r < 2 + m → Same (f r) (f 0)
  same_f zero lt = refl
  same_f (suc zero) lt = same_f1
  same_f (suc (suc k)) lt =
      subst (λ i. Same (f i) (f 0)) {x = 2 + k} (omega arith) (same_f_high k (omega arith))

  same_g : (c : ℕ) → c < 2 + m → Same (g c) (g 1)
  same_g zero lt = same_g0
  same_g (suc zero) lt = refl
  same_g (suc (suc k)) lt =
      subst (λ i. Same (g i) (g 1)) {x = 2 + k} (omega arith) (same_g_high k (omega arith))

  same_h : (s : ℕ) → s < 2 + m → Same (h s) (h 0)
  same_h zero lt = refl
  same_h (suc zero) lt = same_h1
  same_h (suc (suc k)) lt =
      subst (λ i. Same (h i) (h 0)) {x = 2 + k} (omega arith) (same_h_high k (omega arith))

  -- The scaling is trivial everywhere.
  pub trivial :
      (s r c : ℕ) → s < 2 + m → r < 2 + m → c < 2 + m → Same (scaled_by (h s) (f r) 1 (g c)) 1
  trivial s r c hs hr hc =
      scaled-Congr (h s) (h 0) (f r) (f 0) 1 (g c) (g 1) (same_h s hs) (same_f r hr) (same_g c hc)
      ∙ ones.d1

-- A diagonal scaling of t that makes the anchors 1.
module _ (m : ℕ) (large : 3 ≤ m) (t : ℕ → ℕ → ℕ → ℕ) (f g h : ℕ → ℕ) where
  abbrev scaled : ℕ → ℕ → ℕ → ℕ
  scaled s r c = scaled_by (h s) (f r) (t s r c) (g c)

  -- The inverses of the diagonals.
  f_inverse : ℕ → ℕ
  f_inverse zero = h 0 * t 0 0 1 * g 1
  f_inverse (suc zero) = h 4 * t 4 1 2 * g 2
  f_inverse (suc (suc k)) = h 0 * t 0 (suc (suc k)) 1 * g 1

  g_inverse : ℕ → ℕ
  g_inverse zero = h 1 * t 1 1 0 * f 1
  g_inverse (suc zero) = h 0 * t 0 0 1 * f 0
  g_inverse (suc (suc k)) = h 0 * t 0 0 (suc (suc k)) * f 0

  h_inverse : ℕ → ℕ
  h_inverse zero = f 0 * t 0 0 1 * g 1
  h_inverse (suc zero) = f 0 * t 1 0 2 * g 2
  h_inverse (suc (suc k)) = f 0 * t (suc (suc k)) 0 1 * g 1

  module _ (ones : HasOnes m scaled) where
    f_unit : (r : ℕ) → r < 2 + m → Same (f r * f_inverse r) 1
    unfolding f_inverse
    f_unit zero lt = move_f _ _ _ _ ones.d1
    f_unit (suc zero) lt = move_f _ _ _ _ ones.d2
    f_unit (suc (suc k)) lt =
        move_f _ _ _ _
          (subst (λ i. Same (scaled 0 i 1) 1) {x = 2 + k} (omega arith) (ones.a k (omega arith)))

    g_unit : (c : ℕ) → c < 2 + m → Same (g c * g_inverse c) 1
    unfolding g_inverse
    g_unit zero lt = move_g _ _ _ _ ones.d4
    g_unit (suc zero) lt = move_g _ _ _ _ ones.d1
    g_unit (suc (suc k)) lt =
        move_g _ _ _ _
          (subst (λ i. Same (scaled 0 0 i) 1) {x = 2 + k} (omega arith) (ones.b k (omega arith)))

    h_unit : (s : ℕ) → s < 2 + m → Same (h s * h_inverse s) 1
    unfolding h_inverse
    h_unit zero lt = move_h _ _ _ _ ones.d1
    h_unit (suc zero) lt = move_h _ _ _ _ ones.d3
    h_unit (suc (suc k)) lt =
        move_h _ _ _ _
          (subst (λ i. Same (scaled i 0 1) 1) {x = 2 + k} (omega arith) (ones.c k (omega arith)))

    -- The element at s, r, c of a second scaling, by the ratios of the two.
    ratio :
        (f' g' h' : ℕ → ℕ) (s r c : ℕ)
        → s < 2 + m
        → r < 2 + m
        → c < 2 + m
        → Same (scaled_by (h' s) (f' r) (t s r c) (g' c)) (
            scaled s r c
            * scaled_by (h' s * h_inverse s) (f' r * f_inverse r) 1 (g' c * g_inverse c))
    ratio f' g' h' s r c hs hr hc = sym (
        drop_factor
          (scaled s r c
            * scaled_by (h' s * h_inverse s) (f' r * f_inverse r) 1 (g' c * g_inverse c))
          (scaled_by (h' s) (f' r) (t s r c) (g' c) * (f r * f_inverse r) * (g c * g_inverse c))
          (h s * h_inverse s) (omega arith) (h_unit s hs)
        ∙ drop_factor _ (scaled_by (h' s) (f' r) (t s r c) (g' c) * (f r * f_inverse r))
            (g c * g_inverse c) refl (g_unit c hc)
        ∙ drop_factor _ (scaled_by (h' s) (f' r) (t s r c) (g' c)) (f r * f_inverse r) refl
            (f_unit r hr))

    module _ (f' g' h' : ℕ → ℕ)
        (ones' : HasOnes m (λ s r c. scaled_by (h' s) (f' r) (t s r c) (g' c))) where
      -- At an anchor the product of the ratios is 1.
      ratio_one :
          (s r c : ℕ)
          → s < 2 + m
          → r < 2 + m
          → c < 2 + m
          → Same (scaled s r c) 1
          → Same (scaled_by (h' s) (f' r) (t s r c) (g' c)) 1
          → Same (scaled_by (h' s * h_inverse s) (f' r * f_inverse r) 1 (g' c * g_inverse c)) 1
      ratio_one s r c hs hr hc one one' =
          sym (
            drop_factor
              (scaled s r c
                * scaled_by (h' s * h_inverse s) (f' r * f_inverse r) 1 (g' c * g_inverse c))
              (scaled_by (h' s * h_inverse s) (f' r * f_inverse r) 1 (g' c * g_inverse c))
              (scaled s r c) (omega arith) one)
          ∙ sym (ratio f' g' h' s r c hs hr hc)
          ∙ one'

      ratios-HasOnes :
          HasOnes m
            (λ s r c. scaled_by (h' s * h_inverse s) (f' r * f_inverse r) 1 (g' c * g_inverse c))
      ratios-HasOnes = record {
        a = λ k lt.
            ratio_one 0 (2 + k) 1 (omega (arith, large)) (omega (arith, lt)) (omega (arith, large))
              (ones.a k lt) (ones'.a k lt);
        b = λ k lt.
            ratio_one 0 0 (2 + k) (omega (arith, large)) (omega (arith, large)) (omega (arith, lt))
              (ones.b k lt) (ones'.b k lt);
        c = λ k lt.
            ratio_one (2 + k) 0 1 (omega (arith, lt)) (omega (arith, large)) (omega (arith, large))
              (ones.c k lt) (ones'.c k lt);
        d1 =
            ratio_one 0 0 1 (omega (arith, large)) (omega (arith, large)) (omega (arith, large))
              ones.d1 ones'.d1;
        d2 =
            ratio_one 4 1 2 (omega (arith, large)) (omega (arith, large)) (omega (arith, large))
              ones.d2 ones'.d2;
        d3 =
            ratio_one 1 0 2 (omega (arith, large)) (omega (arith, large)) (omega (arith, large))
              ones.d3 ones'.d3;
        d4 =
            ratio_one 1 1 0 (omega (arith, large)) (omega (arith, large)) (omega (arith, large))
              ones.d4 ones'.d4;
      }

      -- The two scalings of t agree.
      pub scaling_unique :
          (s r c : ℕ)
          → s < 2 + m
          → r < 2 + m
          → c < 2 + m
          → Same (scaled_by (h' s) (f' r) (t s r c) (g' c)) (scaled s r c)
      scaling_unique s r c hs hr hc =
          ratio f' g' h' s r c hs hr hc
          ∙ drop_factor _ (scaled s r c) _ refl (
              trivial m large (λ i. f' i * f_inverse i) (λ i. g' i * g_inverse i)
                (λ i. h' i * h_inverse i) ratios-HasOnes s r c hs hr hc)
