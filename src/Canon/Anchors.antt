-- ===== src/Canon/Anchors.antt =====
-- compute_normalization_diagonals: the anchors that it collects, and the diagonals that it computes
-- from them.
use meds2end.Base.{
  ℕ, suc, ◌+◌, ◌-◌, ◌*◌, ◌≤◌, ◌<◌, ◌≡◌, refl, ap, ◌∙◌, arith, List, at, set, length,
}
use meds2end.Base.{replicate, length-replicate, length-set, at-set, at-set-lt, for_up, for_up_inv}
use meds2end.Base.{◌==◌, if◌then◌else◌}
use meds2end.Triform.{triform_slice}
use meds2end.Triform.Eval.{coefficient, entry-slice, slice-IsReduced}
use meds2end.Matrix.Products.{IsReduced, zeros-IsReduced}
use meds2end.Params.{trine_q}
use meds2end.Canon.{anchor_round, collect_normalization_anchors}

-- After K rounds that write x, y and z into the three thirds of an array.
record IsThirds (m : ℕ) (x y z : ℕ → ℕ) (size K : ℕ) (s : List ℕ) : Type 0 where
  same_length : length s ≡ size
  first : (k : ℕ) → k < K → at s k ≡ x k
  second : (k : ℕ) → k < K → at s (m + k) ≡ y k
  third : (k : ℕ) → k < K → at s (2 * m + k) ≡ z k

module _ (m : ℕ) (x y z : ℕ → ℕ) where
  abbrev thirds_round : ℕ → List ℕ → List ℕ
  thirds_round k s = set (set (set s k (x k)) (m + k) (y k)) (2 * m + k) (z k)

  at-thirds_round :
      (k : ℕ) (s : List ℕ) (i : ℕ)
      → 3 * m ≤ length s
      → k < m
      → at (thirds_round k s) i ≡ (
          if 2 * m + k == i
          then z k
          else if m + k == i
          then y k
          else if k == i
          then x k
          else at s i)
  at-thirds_round k s i room lt =
      at-set (set (set s k (x k)) (m + k) (y k)) (2 * m + k) i (z k) (omega (arith, long2))
      ∙ ground (
        arith,
        at-set (set s k (x k)) (m + k) i (y k) (omega (arith, long1)),
        at-set s k i (x k) (omega arith),
      )
    where
      long1 : length (set s k (x k)) ≡ length s
      long1 = length-set s k (x k)

      long2 : length (set (set s k (x k)) (m + k) (y k)) ≡ length s
      long2 = length-set (set s k (x k)) (m + k) (y k) ∙ long1

  round-IsThirds :
      (size k : ℕ) (s : List ℕ)
      → 3 * m ≤ size
      → k < m
      → IsThirds m x y z size k s
      → IsThirds m x y z size (suc k) (thirds_round k s)
  round-IsThirds size k s room lt h = record {
    same_length =
        length-set (set (set s k (x k)) (m + k) (y k)) (2 * m + k) (z k)
        ∙ length-set (set s k (x k)) (m + k) (y k)
        ∙ length-set s k (x k)
        ∙ h.same_length;
    first =
        λ i hi. at-thirds_round k s i (omega (arith, h.same_length)) lt ∙ ground (arith, h.first i);
    second = λ i hi.
        at-thirds_round k s (m + i) (omega (arith, h.same_length)) lt ∙ ground (arith, h.second i);
    third = λ i hi.
        at-thirds_round k s (2 * m + i) (omega (arith, h.same_length)) lt
        ∙ ground (arith, h.third i);
  }

-- The anchors are these coefficients of the transformed form.
pub record IsAnchors (n : ℕ) (form anchors : List ℕ) : Type 0 where
  pub size : length anchors ≡ 3 * n - 2
  pub a : (k : ℕ) → k < n - 2 → at anchors k ≡ coefficient n form 0 (2 + k) 1
  pub b : (k : ℕ) → k < n - 2 → at anchors (n - 2 + k) ≡ coefficient n form 0 0 (2 + k)
  pub c : (k : ℕ) → k < n - 2 → at anchors (2 * (n - 2) + k) ≡ coefficient n form (2 + k) 0 1
  pub d1 : at anchors (3 * (n - 2)) ≡ coefficient n form 0 0 1
  pub d2 : at anchors (3 * (n - 2) + 1) ≡ coefficient n form 4 1 2
  pub d3 : at anchors (3 * (n - 2) + 2) ≡ coefficient n form 1 0 2
  pub d4 : at anchors (3 * (n - 2) + 3) ≡ coefficient n form 1 1 0

module _ (n : ℕ) (form : List ℕ) (large : 5 ≤ n) where
  -- An element of a slice, by its index in the slice.
  at-slice_row :
      (s r c i : ℕ)
      → i ≡ r * n + c
      → r < n
      → c < n
      → at (triform_slice form s n) i ≡ coefficient n form s r c
  at-slice_row s r c i e hr hc = ap (at (triform_slice form s n)) e ∙ entry-slice n form s r c hr hc

  abbrev a_of : ℕ → ℕ
  a_of k = at (triform_slice form 0 n) ((2 + k) * n + 1)

  abbrev b_of : ℕ → ℕ
  b_of k = at (triform_slice form 0 n) (2 + k)

  abbrev c_of : ℕ → ℕ
  c_of k = at (triform_slice form (2 + k) n) 1

  abbrev rounds : List ℕ
  rounds = for_up (n - 2) (anchor_round form n) (replicate (3 * n - 2) 0)

  rounds-IsThirds : IsThirds (n - 2) a_of b_of c_of (3 * n - 2) (n - 2) rounds
  unfolding anchor_round
  rounds-IsThirds =
      for_up_inv (IsThirds (n - 2) a_of b_of c_of (3 * n - 2)) (anchor_round form n) (n - 2)
        (replicate (3 * n - 2) 0)
        (record {
          same_length = length-replicate {A = ℕ} (3 * n - 2) 0;
          first = λ k lt. elim lt [ ];
          second = λ k lt. elim lt [ ];
          third = λ k lt. elim lt [ ];
        })
        (λ k s lt h.
          round-IsThirds (n - 2) a_of b_of c_of (3 * n - 2) k s (omega (arith, large)) lt h)

  -- The four elements behind the thirds.
  abbrev four_sets : List ℕ → ℕ → ℕ → ℕ → ℕ → ℕ → List ℕ
  four_sets s o w x y z = set (set (set (set s o w) (o + 1) x) (o + 2) y) (o + 3) z

  length-four_sets : (s : List ℕ) (o w x y z : ℕ) → length (four_sets s o w x y z) ≡ length s
  length-four_sets s o w x y z =
      length-set (set (set (set s o w) (o + 1) x) (o + 2) y) (o + 3) z
      ∙ length-set (set (set s o w) (o + 1) x) (o + 2) y
      ∙ length-set (set s o w) (o + 1) x
      ∙ length-set s o w

  at-four_sets :
      (s : List ℕ) (o w x y z i : ℕ)
      → o + 3 < length s
      → at (four_sets s o w x y z) i ≡ (
          if o + 3 == i
          then z
          else if o + 2 == i
          then y
          else if o + 1 == i
          then x
          else if o == i
          then w
          else at s i)
  at-four_sets s o w x y z i lt =
      at-set (set (set (set s o w) (o + 1) x) (o + 2) y) (o + 3) i z (omega (arith, l3))
      ∙ ground (
        arith,
        at-set (set (set s o w) (o + 1) x) (o + 2) i y (omega (arith, l2)),
        at-set (set s o w) (o + 1) i x (omega (arith, l1)),
        at-set s o i w (omega (arith, lt)),
      )
    where
      l1 : length (set s o w) ≡ length s
      l1 = length-set s o w

      l2 : length (set (set s o w) (o + 1) x) ≡ length s
      l2 = length-set (set s o w) (o + 1) x ∙ l1

      l3 : length (set (set (set s o w) (o + 1) x) (o + 2) y) ≡ length s
      l3 = length-set (set (set s o w) (o + 1) x) (o + 2) y ∙ l2

  pub collected-IsAnchors : IsAnchors n form (collect_normalization_anchors form n)
  unfolding collect_normalization_anchors
  collected-IsAnchors = record {
    size = length-four_sets rounds o w1 w2 w3 w4 ∙ t.same_length;
    a = λ k lt.
        look k
        ∙ ground (arith, t.first k)
        ∙ at-slice_row 0 (2 + k) 1 ((2 + k) * n + 1) refl (omega (arith, lt))
            (omega (arith, large));
    b = λ k lt.
        look (n - 2 + k)
        ∙ ground (arith, t.second k)
        ∙ at-slice_row 0 0 (2 + k) (2 + k) (omega arith) (omega (arith, large)) (omega (arith, lt));
    c = λ k lt.
        look (2 * (n - 2) + k)
        ∙ ground (arith, t.third k)
        ∙ at-slice_row (2 + k) 0 1 1 (omega arith) (omega (arith, large)) (omega (arith, large));
    d1 =
        look o
        ∙ ground arith
        ∙ at-slice_row 0 0 1 1 (omega arith) (omega (arith, large)) (omega (arith, large));
    d2 =
        look (o + 1)
        ∙ ground arith
        ∙ at-slice_row 4 1 2 (n + 2) (omega arith) (omega (arith, large)) (omega (arith, large));
    d3 =
        look (o + 2)
        ∙ ground arith
        ∙ at-slice_row 1 0 2 2 (omega arith) (omega (arith, large)) (omega (arith, large));
    d4 =
        look (o + 3)
        ∙ ground arith
        ∙ at-slice_row 1 1 0 n (omega arith) (omega (arith, large)) (omega (arith, large));
  }
    where
      t : IsThirds (n - 2) a_of b_of c_of (3 * n - 2) (n - 2) rounds
      t = rounds-IsThirds

      o : ℕ
      o = 3 * (n - 2)

      w1 : ℕ
      w1 = at (triform_slice form 0 n) 1

      w2 : ℕ
      w2 = at (triform_slice form 4 n) (n + 2)

      w3 : ℕ
      w3 = at (triform_slice form 1 n) 2

      w4 : ℕ
      w4 = at (triform_slice form 1 n) n

      look :
          (i : ℕ)
          → at (four_sets rounds o w1 w2 w3 w4) i ≡ (
              if o + 3 == i
              then w4
              else if o + 2 == i
              then w3
              else if o + 1 == i
              then w2
              else if o == i
              then w1
              else at rounds i)
      look i = at-four_sets rounds o w1 w2 w3 w4 i (omega (arith, large, t.same_length))

  pub anchors-IsReduced : IsReduced form → IsReduced (collect_normalization_anchors form n)
  unfolding collect_normalization_anchors anchor_round
  anchors-IsReduced hf =
      put _ _ _
        (put _ _ _
          (put _ _ _
            (put _ _ _
              (for_up_inv (λ k s. IsReduced s) (anchor_round form n) (n - 2)
                (replicate (3 * n - 2) 0) (zeros-IsReduced (3 * n - 2))
                (λ k s lt h. put _ _ _ (put _ _ _ (put _ _ _ h (elem 0 _)) (elem 0 _)) (elem _ _)))
              (elem 0 _))
            (elem 4 _))
          (elem 1 _))
        (elem 1 _)
    where
      put : (s : List ℕ) (i v : ℕ) → IsReduced s → v < trine_q → IsReduced (set s i v)
      put s i v h lt = at-set-lt trine_q s i v h lt

      elem : (s i : ℕ) → at (triform_slice form s n) i < trine_q
      elem s i = slice-IsReduced n form s hf i
