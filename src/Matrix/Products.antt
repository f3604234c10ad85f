-- ===== src/Matrix/Products.antt =====
-- The loops of matrixmod.c compute the sums of products of linear algebra, modulo q.
use native.Mathlib.Nat.{mul-le-mul}
use meds2end.Base.{ℕ, suc, ◌+◌, ◌*◌, ◌%◌, ◌^◌, ◌≤◌, ◌<◌, ◌≡◌, refl, ap, ◌∙◌}
use meds2end.Base.{
  arith, List, at, length, length-replicate, get_or-replicate, replicate, for_up_inv,
}
use meds2end.Base.Grid.{entry, fill_vec, length-fill, entry-fill, at-fill_vec}
use meds2end.Base.Grid.{fill-lt, fill_vec-lt}
use meds2end.Base.Sums.{sum}
use meds2end.Params.{trine_q}
use meds2end.Matrix.{
  reduce, accumulate, mat_mul, mat_vec_mul, mat_transpose_vec_mul, mat_linear_combination,
}

-- All elements are field elements in reduced form.
abbrev pub IsReduced : List ℕ → Type 0
IsReduced a = (i : ℕ) → at a i < trine_q

pub product-lt : (a b : ℕ) → a < trine_q → b < trine_q → a * b < 2 ^ 24
product-lt a b ha hb = omega (arith, square)
  where
    square : a * b ≤ 4092 * 4092
    square = mul-le-mul {n₂ = 4092} {m₂ = 4092} (omega arith) (omega arith)

-- Dimensions of the program are far below this bound, which keeps the accumulators from wrapping.
abbrev pub max_dimension : ℕ
max_dimension = 2 ^ 16

pub accumulate_lem :
    (n : ℕ) (f : ℕ → ℕ)
    → n ≤ max_dimension
    → ((k : ℕ) → k < n → f k < 2 ^ 24)
    → accumulate n f ≡ sum n f
unfolding accumulate
accumulate_lem n f hn small =
    (for_up_inv (λ k acc. (acc ≡ sum k f) × (acc ≤ k * 2 ^ 24)) _ n 0
      (unfold sum in refl, omega arith) λ k acc lt h. step k acc lt h).0
  where
    step :
        (k acc : ℕ)
        → k < n
        → (acc ≡ sum k f) × (acc ≤ k * 2 ^ 24)
        → ((acc + f k) % 2 ^ 64 ≡ sum (suc k) f) × ((acc + f k) % 2 ^ 64 ≤ suc k * 2 ^ 24)
    step k acc lt (e, le) =
        let room = small k lt in
        let whole : (acc + f k) % 2 ^ 64 ≡ acc + f k = omega arith in
        rw whole (unfold sum in omega arith, omega arith)

pub reduce_lem : (x : ℕ) → reduce x ≡ x % trine_q
reduce_lem x = omega arith

module _ (n : ℕ) (bound : n ≤ max_dimension) where
  -- Each entry of the product is the sum of the products of a row and a column, modulo q. The
  -- entries of both matrices are reduced, and the dimension is at most 2 ^ 16.
  pub mat_mul_lem :
      (a b : List ℕ)
      → IsReduced a
      → IsReduced b
      → (r c : ℕ) → r < n
      → c < n
      → entry n (mat_mul a b n) r c ≡ sum n (λ k. entry n a r k * entry n b k c) % trine_q
  unfolding mat_mul
  mat_mul_lem a b ha hb r c hr hc =
      entry-fill n n _ (replicate (n * n) 0) (omega (arith, length-replicate {A = ℕ} (n * n) 0)) r c
        hr hc
      ∙ reduce_lem _
      ∙ ap (λ (t : ℕ). t % trine_q)
          (accumulate_lem n _ bound λ k lt. product-lt _ _ (ha (r * n + k)) (hb (k * n + c)))

  pub mat_vec_mul_lem :
      (a v : List ℕ)
      → IsReduced a
      → IsReduced v
      → (r : ℕ) → r < n
      → at (mat_vec_mul a v n) r ≡ sum n (λ c. entry n a r c * at v c) % trine_q
  unfolding mat_vec_mul
  mat_vec_mul_lem a v ha hv r hr =
      at-fill_vec n _ (replicate n 0) (omega (arith, length-replicate {A = ℕ} n 0)) r hr
      ∙ reduce_lem _
      ∙ ap (λ (t : ℕ). t % trine_q)
          (accumulate_lem n _ bound λ c lt. product-lt _ _ (ha (r * n + c)) (hv c))

  pub mat_transpose_vec_mul_lem :
      (a v : List ℕ)
      → IsReduced a
      → IsReduced v
      → (c : ℕ) → c < n
      → at (mat_transpose_vec_mul a v n) c ≡ sum n (λ r. entry n a r c * at v r) % trine_q
  unfolding mat_transpose_vec_mul
  mat_transpose_vec_mul_lem a v ha hv c hc =
      at-fill_vec n _ (replicate n 0) (omega (arith, length-replicate {A = ℕ} n 0)) c hc
      ∙ reduce_lem _
      ∙ ap (λ (t : ℕ). t % trine_q)
          (accumulate_lem n _ bound λ r lt. product-lt _ _ (ha (r * n + c)) (hv r))

  -- Each element of the linear combination is the sum of the coefficients times the elements of the
  -- matrices at that position, modulo q. All elements are reduced, and the dimension and the number
  -- of matrices are at most 2 ^ 16.
  pub mat_linear_combination_lem :
      (matrices coeffs : List ℕ) (count : ℕ)
      → count ≤ max_dimension
      → IsReduced matrices
      → IsReduced coeffs
      → (pos : ℕ) → pos < n * n
      → at (mat_linear_combination matrices coeffs count n) pos
        ≡ sum count (λ i. at coeffs i * at matrices (i * n * n + pos)) % trine_q
  unfolding mat_linear_combination
  mat_linear_combination_lem matrices coeffs count small hm hc pos lt =
      at-fill_vec (n * n) _ (replicate (n * n) 0)
        (omega (arith, length-replicate {A = ℕ} (n * n) 0)) pos lt
      ∙ reduce_lem _
      ∙ ap (λ (t : ℕ). t % trine_q)
          (accumulate_lem count _ small λ i _. product-lt _ _ (hc i) (hm (i * n * n + pos)))

pub zeros-IsReduced : (n : ℕ) → IsReduced (replicate n 0)
zeros-IsReduced n i = rw (get_or-replicate {A = ℕ} n i 0) (omega arith)

pub mat_mul-IsReduced : (a b : List ℕ) (n : ℕ) → IsReduced (mat_mul a b n)
unfolding mat_mul
mat_mul-IsReduced a b n =
    fill-lt trine_q n n _ _ (zeros-IsReduced (n * n)) (λ r c hr hc. omega arith)

pub length-mat_mul : (a b : List ℕ) (n : ℕ) → length (mat_mul a b n) ≡ n * n
unfolding mat_mul
length-mat_mul a b n =
    length-fill n n _ _ (omega (arith, length-replicate {A = ℕ} (n * n) 0))
    ∙ length-replicate {A = ℕ} (n * n) 0

pub mat_vec_mul-IsReduced : (a v : List ℕ) (n : ℕ) → IsReduced (mat_vec_mul a v n)
unfolding mat_vec_mul
mat_vec_mul-IsReduced a v n = fill_vec-lt trine_q n _ _ (zeros-IsReduced n) (λ r hr. omega arith)

pub mat_linear_combination-IsReduced :
    (matrices coeffs : List ℕ) (count n : ℕ)
    → IsReduced (mat_linear_combination matrices coeffs count n)
unfolding mat_linear_combination
mat_linear_combination-IsReduced matrices coeffs count n =
    fill_vec-lt trine_q (n * n) _ _ (zeros-IsReduced (n * n)) (λ i lt. omega arith)

pub vector-IsReduced :
    (n : ℕ) (e : ℕ → ℕ)
    → ((i : ℕ) → i < n → e i < trine_q)
    → IsReduced (fill_vec n e (replicate n 0))
vector-IsReduced n e h = fill_vec-lt trine_q n e _ (zeros-IsReduced n) h
