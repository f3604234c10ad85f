-- ===== src/Canon/Ones.antt =====
-- The algebra of the normalisation: the diagonals make the coefficients at the anchors 1.
use meds2end.Base.{ℕ, ◌+◌, ◌*◌, ◌≤◌, ◌<◌, ◌≡◌, refl, sym, ◌∙◌, arith}
use meds2end.Base.Congr.{Congr, Congr-mul, Congr-of_eq}
use meds2end.Params.{trine_q}

abbrev Same : ℕ → ℕ → Type 0
Same a b = Congr trine_q a b

-- A factor that is congruent to 1 drops out.
pub drop_factor : (whole rest one : ℕ) → whole ≡ rest * one → Same one 1 → Same whole rest
drop_factor whole rest one split unit =
    Congr-of_eq trine_q whole (rest * one) split
    ∙ Congr-mul trine_q rest rest one 1 refl unit
    ∙ Congr-of_eq trine_q (rest * 1) rest (omega arith)

-- The coefficient t scaled by h, f and g.
abbrev pub scaled_by : ℕ → ℕ → ℕ → ℕ → ℕ
scaled_by h f t g = h * (f * t * g)

pub scaled-Congr :
    (h h' f f' t g g' : ℕ)
    → Same h h'
    → Same f f'
    → Same g g'
    → Same (scaled_by h f t g) (scaled_by h' f' t g')
scaled-Congr h h' f f' t g g' eh ef eg =
    Congr-mul trine_q h h' _ _ eh
      (Congr-mul trine_q (f * t) (f' * t) g g' (Congr-mul trine_q f f' t t ef refl) eg)

-- The coefficients at the 3 m + 4 anchors are 1.
pub record HasOnes (m : ℕ) (x : ℕ → ℕ → ℕ → ℕ) : Type 0 where
  pub a : (k : ℕ) → k < m → Same (x 0 (2 + k) 1) 1
  pub b : (k : ℕ) → k < m → Same (x 0 0 (2 + k)) 1
  pub c : (k : ℕ) → k < m → Same (x (2 + k) 0 1) 1
  pub d1 : Same (x 0 0 1) 1
  pub d2 : Same (x 4 1 2) 1
  pub d3 : Same (x 1 0 2) 1
  pub d4 : Same (x 1 1 0) 1

-- The diagonals f, g and h by the coefficients t and the inverses of the anchors.
pub record IsSolved (m : ℕ) (t : ℕ → ℕ → ℕ → ℕ) (f g h ia ib ic : ℕ → ℕ) (i1 i2 i3 i4 : ℕ)
    : Type 0 where
  pub pa : (k : ℕ) → k < m → Same (ia k * t 0 (2 + k) 1) 1
  pub pb : (k : ℕ) → k < m → Same (ib k * t 0 0 (2 + k)) 1
  pub pc : (k : ℕ) → k < m → Same (ic k * t (2 + k) 0 1) 1
  pub p1 : Same (i1 * t 0 0 1) 1
  pub p2 : Same (i2 * t 4 1 2) 1
  pub p3 : Same (i3 * t 1 0 2) 1
  pub p4 : Same (i4 * t 1 1 0) 1
  pub f0 : Same (f 0) 1
  pub g1 : Same (g 1) 1
  pub h0 : Same (h 0) i1
  pub f_high : (k : ℕ) → k < m → Same (f (2 + k)) (t 0 0 1 * ia k)
  pub g_high : (k : ℕ) → k < m → Same (g (2 + k)) (t 0 0 1 * ib k)
  pub h_high : (k : ℕ) → k < m → Same (h (2 + k)) (ic k)
  pub f1 : Same (f 1) (t 0 0 2 * t 4 0 1 * i1 * i2)
  pub h1 : Same (h 1) (t 0 0 2 * i1 * i3)
  pub g0 : Same (g 0) (g 2 * h 4 * t 4 1 2 * (g 2 * t 1 0 2) * i4)

module _ (m : ℕ) (large : 3 ≤ m) (t : ℕ → ℕ → ℕ → ℕ) (f g h ia ib ic : ℕ → ℕ) (i1 i2 i3 i4 : ℕ)
    (e : IsSolved m t f g h ia ib ic i1 i2 i3 i4) where
  abbrev scaled : ℕ → ℕ → ℕ → ℕ
  scaled s r c = scaled_by (h s) (f r) (t s r c) (g c)

  one_a : (k : ℕ) → k < m → Same (scaled 0 (2 + k) 1) 1
  one_a k lt =
      scaled-Congr _ _ _ _ (t 0 (2 + k) 1) _ _ e.h0 (e.f_high k lt) e.g1
      ∙ drop_factor (scaled_by i1 (t 0 0 1 * ia k) (t 0 (2 + k) 1) 1) (i1 * t 0 0 1)
          (ia k * t 0 (2 + k) 1) (omega arith) (e.pa k lt)
      ∙ e.p1

  one_b : (k : ℕ) → k < m → Same (scaled 0 0 (2 + k)) 1
  one_b k lt =
      scaled-Congr _ _ _ _ (t 0 0 (2 + k)) _ _ e.h0 e.f0 (e.g_high k lt)
      ∙ drop_factor (scaled_by i1 1 (t 0 0 (2 + k)) (t 0 0 1 * ib k)) (i1 * t 0 0 1)
          (ib k * t 0 0 (2 + k)) (omega arith) (e.pb k lt)
      ∙ e.p1

  one_c : (k : ℕ) → k < m → Same (scaled (2 + k) 0 1) 1
  one_c k lt =
      scaled-Congr _ _ _ _ (t (2 + k) 0 1) _ _ (e.h_high k lt) e.f0 e.g1
      ∙ Congr-of_eq trine_q (scaled_by (ic k) 1 (t (2 + k) 0 1) 1) (ic k * t (2 + k) 0 1)
          (omega arith)
      ∙ e.pc k lt

  one_d1 : Same (scaled 0 0 1) 1
  one_d1 =
      scaled-Congr _ _ _ _ (t 0 0 1) _ _ e.h0 e.f0 e.g1
      ∙ Congr-of_eq trine_q (scaled_by i1 1 (t 0 0 1) 1) (i1 * t 0 0 1) (omega arith)
      ∙ e.p1

  one_d2 : Same (scaled 4 1 2) 1
  one_d2 =
      scaled-Congr _ _ _ _ (t 4 1 2) _ _ (e.h_high 2 (omega (arith, large))) e.f1
        (e.g_high 0 (omega (arith, large)))
      ∙ drop_factor (scaled_by (ic 2) (t 0 0 2 * t 4 0 1 * i1 * i2) (t 4 1 2) (t 0 0 1 * ib 0))
          (i1 * t 0 0 1 * (i2 * t 4 1 2) * (ib 0 * t 0 0 2)) (ic 2 * t 4 0 1) (omega arith)
          (e.pc 2 (omega (arith, large)))
      ∙ drop_factor _ (i1 * t 0 0 1 * (i2 * t 4 1 2)) (ib 0 * t 0 0 2) refl
          (e.pb 0 (omega (arith, large)))
      ∙ drop_factor _ (i1 * t 0 0 1) (i2 * t 4 1 2) refl e.p2
      ∙ e.p1

  one_d3 : Same (scaled 1 0 2) 1
  one_d3 =
      scaled-Congr _ _ _ _ (t 1 0 2) _ _ e.h1 e.f0 (e.g_high 0 (omega (arith, large)))
      ∙ drop_factor (scaled_by (t 0 0 2 * i1 * i3) 1 (t 1 0 2) (t 0 0 1 * ib 0))
          (i1 * t 0 0 1 * (i3 * t 1 0 2)) (ib 0 * t 0 0 2) (omega arith)
          (e.pb 0 (omega (arith, large)))
      ∙ drop_factor _ (i1 * t 0 0 1) (i3 * t 1 0 2) refl e.p3
      ∙ e.p1

  -- The element with index 0 of g is made of the inverses of f[1] and of h[1].
  one_d4 : Same (scaled 1 1 0) 1
  one_d4 =
      scaled-Congr (h 1) (h 1) (f 1) (f 1) (t 1 1 0) _ _ refl refl e.g0
      ∙ drop_factor (scaled_by (h 1) (f 1) (t 1 1 0) (g 2 * h 4 * t 4 1 2 * (g 2 * t 1 0 2) * i4))
          (h 1 * (1 * t 1 0 2 * g 2) * (i4 * t 1 1 0)) (scaled 4 1 2) (omega arith) one_d2
      ∙ drop_factor _ (h 1 * (1 * t 1 0 2 * g 2)) (i4 * t 1 1 0) refl e.p4
      ∙ scaled-Congr (h 1) (h 1) 1 (f 0) (t 1 0 2) (g 2) (g 2) refl (sym e.f0) refl
      ∙ one_d3

  pub scaled-HasOnes : HasOnes m scaled
  scaled-HasOnes = record {
    a = one_a;
    b = one_b;
    c = one_c;
    d1 = one_d1;
    d2 = one_d2;
    d3 = one_d3;
    d4 = one_d4;
  }
