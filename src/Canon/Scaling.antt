-- ===== src/Canon/Scaling.antt =====
-- compute_normalization_diagonals: the diagonals in terms of the anchors and their inverses.
use meds2end.Base.{ℕ, suc, ◌+◌, ◌-◌, ◌*◌, ◌≤◌, ◌<◌, ◌≡◌, ◌∙◌, arith}
use meds2end.Base.{List, at, set, length, if◌then◌else◌, ◌==◌}
use meds2end.Base.{replicate, length-replicate, length-set, at-set, at-set-lt, for_up, for_up_inv}
use meds2end.Params.{trine_q}
use meds2end.Field.{gf_mul}
use meds2end.Field.Arith.{gf_mul_lem}
use meds2end.Matrix.Products.{IsReduced, zeros-IsReduced}
use meds2end.Canon.{Diagonals, diagonal_round, finish_diagonals}

pub gf_mul-lt : (a b : ℕ) → a < trine_q → b < trine_q → gf_mul a b < trine_q
gf_mul-lt a b ha hb = rw (gf_mul_lem a b ha hb) (omega arith)

module _ (n : ℕ) (anchors inverses : List ℕ) where
  abbrev pub offset : ℕ
  offset = 3 * (n - 2)

  -- The elements with index 0 are set, those with index 1 of g, and K from index 2 on.
  record IsMiddle (K : ℕ) (s : Diagonals) : Type 0 where
    f_size : length s.f ≡ n
    g_size : length s.g ≡ n
    h_size : length s.h ≡ n
    f_reduced : IsReduced s.f
    g_reduced : IsReduced s.g
    h_reduced : IsReduced s.h
    f0 : at s.f 0 ≡ 1
    g1 : at s.g 1 ≡ 1
    h0 : at s.h 0 ≡ at inverses offset
    f : (k : ℕ) → k < K → at s.f (2 + k) ≡ gf_mul (at anchors offset) (at inverses k)
    g : (k : ℕ) → k < K → at s.g (2 + k) ≡ gf_mul (at anchors offset) (at inverses (n - 2 + k))
    h : (k : ℕ) → k < K → at s.h (2 + k) ≡ at inverses (2 * (n - 2) + k)

  pub record IsDiagonals (d : Diagonals) : Type 0 where
    pub f_reduced : IsReduced d.f
    pub g_reduced : IsReduced d.g
    pub h_reduced : IsReduced d.h
    pub f0 : at d.f 0 ≡ 1
    pub g1 : at d.g 1 ≡ 1
    pub h0 : at d.h 0 ≡ at inverses offset
    pub f : (k : ℕ) → k < n - 2 → at d.f (2 + k) ≡ gf_mul (at anchors offset) (at inverses k)
    pub g :
        (k : ℕ) → k < n - 2 → at d.g (2 + k) ≡ gf_mul (at anchors offset) (at inverses (n - 2 + k))
    pub h : (k : ℕ) → k < n - 2 → at d.h (2 + k) ≡ at inverses (2 * (n - 2) + k)
    pub f1 :
        at d.f 1
        ≡ gf_mul
            (gf_mul
              (gf_mul (at anchors (n - 2)) (at anchors (2 * (n - 2) + 2)))
              (at inverses offset))
            (at inverses (offset + 1))
    pub h1 :
        at d.h 1
        ≡ gf_mul (gf_mul (at anchors (n - 2)) (at inverses offset)) (at inverses (offset + 2))
    pub g0 :
        at d.g 0
        ≡ gf_mul
            (gf_mul
              (gf_mul (gf_mul (at d.g 2) (at d.h 4)) (at anchors (offset + 1)))
              (gf_mul (at d.g 2) (at anchors (offset + 2))))
            (at inverses (offset + 3))

  -- The three vectors before the loop.
  abbrev pub start : Diagonals
  start = record {
    f = set (replicate n 0) 0 1;
    g = set (replicate n 0) 1 1;
    h = set (replicate n 0) 0 (at inverses offset);
  }

  abbrev pub middle : Diagonals
  middle = for_up (n - 2) (diagonal_round inverses (at anchors offset) n) start

  module _ (large : 5 ≤ n) (ha : IsReduced anchors) (hi : IsReduced inverses) where
    start-IsMiddle : IsMiddle 0 start
    start-IsMiddle = record {
      f_size = length-set (replicate {A = ℕ} n 0) 0 1 ∙ blank;
      g_size = length-set (replicate {A = ℕ} n 0) 1 1 ∙ blank;
      h_size = length-set (replicate {A = ℕ} n 0) 0 _ ∙ blank;
      f_reduced = at-set-lt trine_q (replicate n 0) 0 1 (zeros-IsReduced n) (omega arith);
      g_reduced = at-set-lt trine_q (replicate n 0) 1 1 (zeros-IsReduced n) (omega arith);
      h_reduced = at-set-lt trine_q (replicate n 0) 0 _ (zeros-IsReduced n) (hi offset);
      f0 = at-set (replicate n 0) 0 0 1 (omega (arith, blank, large)) ∙ ground arith;
      g1 = at-set (replicate n 0) 1 1 1 (omega (arith, blank, large)) ∙ ground arith;
      h0 = at-set (replicate n 0) 0 0 _ (omega (arith, blank, large)) ∙ ground arith;
      f = λ k lt. elim lt [ ];
      g = λ k lt. elim lt [ ];
      h = λ k lt. elim lt [ ];
    }
      where
        blank : length (replicate {A = ℕ} n 0) ≡ n
        blank = length-replicate {A = ℕ} n 0

    -- One more element from index 2 on, in one of the vectors.
    extend :
        (v : List ℕ) (e : ℕ → ℕ) (k : ℕ)
        → length v ≡ n
        → k < n - 2
        → ((i : ℕ) → i < k → at v (2 + i) ≡ e i)
        → (i : ℕ) → i < suc k
        → at (set v (2 + k) (e k)) (2 + i) ≡ e i
    extend v e k size lt before i le =
        at-set v (2 + k) (2 + i) (e k) (omega (arith, size)) ∙ ground (arith, before i)

    kept :
        (v : List ℕ) (x k i : ℕ)
        → length v ≡ n
        → k < n - 2
        → i < 2
        → at (set v (2 + k) x) i ≡ at v i
    kept v x k i size lt low = at-set v (2 + k) i x (omega (arith, size)) ∙ ground arith

    round-IsMiddle :
        (k : ℕ) (s : Diagonals)
        → k < n - 2
        → IsMiddle k s
        → IsMiddle (suc k) (diagonal_round inverses (at anchors offset) n k s)
    unfolding diagonal_round
    round-IsMiddle k s lt m = record {
      f_size = length-set s.f (2 + k) _ ∙ m.f_size;
      g_size = length-set s.g (2 + k) _ ∙ m.g_size;
      h_size = length-set s.h (2 + k) _ ∙ m.h_size;
      f_reduced =
          at-set-lt trine_q s.f (2 + k) _ m.f_reduced
            (gf_mul-lt (at anchors offset) (at inverses k) (ha offset) (hi k));
      g_reduced =
          at-set-lt trine_q s.g (2 + k) _ m.g_reduced
            (gf_mul-lt (at anchors offset) (at inverses (n - 2 + k)) (ha offset) (hi (n - 2 + k)));
      h_reduced = at-set-lt trine_q s.h (2 + k) _ m.h_reduced (hi (2 * (n - 2) + k));
      f0 = kept s.f _ k 0 m.f_size lt (omega arith) ∙ m.f0;
      g1 = kept s.g _ k 1 m.g_size lt (omega arith) ∙ m.g1;
      h0 = kept s.h _ k 0 m.h_size lt (omega arith) ∙ m.h0;
      f = extend s.f (λ i. gf_mul (at anchors offset) (at inverses i)) k m.f_size lt m.f;
      g = extend s.g (λ i. gf_mul (at anchors offset) (at inverses (n - 2 + i))) k m.g_size lt m.g;
      h = extend s.h (λ i. at inverses (2 * (n - 2) + i)) k m.h_size lt m.h;
    }

    middle-IsMiddle : IsMiddle (n - 2) middle
    middle-IsMiddle =
        for_up_inv IsMiddle (diagonal_round inverses (at anchors offset) n) (n - 2) start
          start-IsMiddle round-IsMiddle

    -- An element with index 0 or 1 is set, the other ones are as before.
    set_low :
        (v : List ℕ) (i x j : ℕ)
        → length v ≡ n
        → i < 2
        → at (set v i x) j ≡ (if i == j then x else at v j)
    set_low v i x j size low = at-set v i j x (omega (arith, size, large))

    above : (v : List ℕ) (i x k : ℕ) → length v ≡ n → i < 2 → at (set v i x) (2 + k) ≡ at v (2 + k)
    above v i x k size low = set_low v i x (2 + k) size low ∙ ground arith

    finish-IsDiagonals :
        (s : Diagonals) → IsMiddle (n - 2) s → IsDiagonals (finish_diagonals anchors inverses n s)
    unfolding finish_diagonals
    finish-IsDiagonals s m = record {
      f_reduced =
          at-set-lt trine_q s.f 1 _ m.f_reduced (mul (mul (mul (ha _) (ha _)) (hi _)) (hi _));
      g_reduced = at-set-lt trine_q s.g 0 _ m.g_reduced (
          mul (mul (mul (mul (m.g_reduced 2) (m.h_reduced 4)) (ha _)) (mul (m.g_reduced 2) (ha _)))
            (hi _));
      h_reduced = at-set-lt trine_q s.h 1 _ m.h_reduced (mul (mul (ha _) (hi _)) (hi _));
      f0 = set_low s.f 1 _ 0 m.f_size (omega arith) ∙ m.f0;
      g1 = set_low s.g 0 _ 1 m.g_size (omega arith) ∙ m.g1;
      h0 = set_low s.h 1 _ 0 m.h_size (omega arith) ∙ m.h0;
      f = λ k lt. above s.f 1 _ k m.f_size (omega arith) ∙ m.f k lt;
      g = λ k lt. above s.g 0 _ k m.g_size (omega arith) ∙ m.g k lt;
      h = λ k lt. above s.h 1 _ k m.h_size (omega arith) ∙ m.h k lt;
      f1 = set_low s.f 1 _ 1 m.f_size (omega arith);
      h1 = set_low s.h 1 _ 1 m.h_size (omega arith);
      g0 =
          rw (above s.g 0 _ 0 m.g_size (omega arith), above s.h 1 _ 2 m.h_size (omega arith))
            (set_low s.g 0 _ 0 m.g_size (omega arith));
    }
      where
        mul : {a b : ℕ} → a < trine_q → b < trine_q → gf_mul a b < trine_q
        mul {a} {b} p q = gf_mul-lt a b p q

    pub computed-IsDiagonals : IsDiagonals (finish_diagonals anchors inverses n middle)
    computed-IsDiagonals = finish-IsDiagonals middle middle-IsMiddle
