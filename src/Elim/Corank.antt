-- ===== src/Elim/Corank.antt =====
-- The kernels of matrixelim.c, and the inputs that have no inverse.
use meds2end.Base.{ℕ, ◌-◌, ◌*◌, ◌≤◌, ◌<◌, ◌≡◌, ◌≢◌, refl, sym, ap, ◌∙◌, arith, List}
use meds2end.Base.{at, ◌==◌, if◌then◌else◌, not, ◌>>=◌, ◌↔◌}
use meds2end.Base.{ne→==, eq→==, ==→eq, inl, inr, Bool-cases, Option, none, some, >>=-eq-some}
use meds2end.Base.Congr.{Congr, Congr-of_eq, Congr-mul, Congr-sum, Congr-mod}
use meds2end.Base.Grid.{entry}
use meds2end.Base.Slices.{take_all}
use meds2end.Base.Sums.{sum, sum_single, sum_vanish}
use meds2end.Params.{trine_q}
use meds2end.Matrix.{
  mat_copy, mat_mul, mat_vec_mul, mat_transpose, mat_transpose_vec_mul, mat_identity,
}
use meds2end.Matrix.Products.{IsReduced, max_dimension, mat_mul_lem, mat_vec_mul_lem}
use meds2end.Matrix.Transpose.{length-mat_transpose, mat_transpose-IsReduced}
use meds2end.Matrix.InPlace.{vec_mul-transpose}
use meds2end.Triform.Sums.{sum_assoc}
use meds2end.Elim.{
  rref_core, find_free, mat_rank, mat_right_kernel_corank1, mat_left_kernel_corank1,
  mat_inv_vartime,
}
use meds2end.Elim.Images.{IsMatrix}
use meds2end.Elim.Inverse.{not_full_rank}
use meds2end.Elim.Kernel.{Kills, rref_core_back}
use meds2end.Elim.FreeColumn.{
  marked, kernel_vector, find_free-some, free_column, marks_lem, vector_lem, vector-Kills,
}
use meds2end.Elim.Reduction.{rref_core-IsStage}

module _ (n : ℕ) (a : List ℕ) (m : IsMatrix n a) (rhs : Option (List ℕ)) where
  -- At less than full rank, the vector of the free column is in the kernel of the input.
  short_rank :
      (f : ℕ)
      → let s = rref_core n a rhs in
        find_free (marked n s.pivot_row s.pivot_cols) n 0 ≡ some f
        → let s = rref_core n a rhs in
          let v = kernel_vector n s.pivot_row s.pivot_cols s.a f in
          Kills n a (at v) × IsReduced v × (f < n) × (at v f ≡ 1)
  short_rank f found =
      let s = rref_core n a rhs in
      let st = rref_core-IsStage n a rhs m in
      let p = s.pivot_row in
      let (unmarked, lt) = find_free-some (marked n p s.pivot_cols) n 0 found in
      let (size, ones, only) = marks_lem n p s.pivot_cols s.a st.echelon p (omega arith) in
      let free : (i : ℕ) → i < p → at s.pivot_cols i ≢ f =
        λ i hi same. omega (arith, ap (at (marked n p s.pivot_cols)) same, ones i hi, unmarked) in
      let (vsize, small, pivots, one, others) =
        vector_lem n p s.pivot_cols s.a st.echelon st.matrix f (omega (arith, lt)) free p
          (omega arith) in
      (
        rref_core_back n a (at (kernel_vector n p s.pivot_cols s.a f)) rhs m
            (vector-Kills n p s.pivot_cols s.a st.echelon st.matrix f (omega (arith, lt)) free),
        small,
        omega (arith, lt),
        one,
      )

module _ (n : ℕ) (a : List ℕ) (m : IsMatrix n a) where
  -- The code's result, by the parts named above.
  pub kernel_is :
      let s = rref_core n a none in
      mat_right_kernel_corank1 a n ≡ (
        if not (s.pivot_row == n - 1)
        then none
        else find_free (marked n s.pivot_row s.pivot_cols) n 0 >>= λ f.
            some (kernel_vector n s.pivot_row s.pivot_cols s.a f))
  unfolding mat_right_kernel_corank1 mat_copy
  kernel_is = rw (mat_right_kernel_corank1, take_all (n * n) a m.size) refl

  pub rank_is : mat_rank a n ≡ (rref_core n a none).pivot_row
  unfolding mat_rank mat_copy
  rank_is = rw (mat_rank, take_all (n * n) a m.size) refl

  -- What pmod_mat_right_kernel_corank1_vartime returns is a vector of reduced elements, one of which
  -- is 1, whose product with the matrix is zero, as pmod_mat_vec_mul computes it. The input is an
  -- n x n matrix of reduced elements, and n is at most 2 ^ 16.
  pub right_kernel_lem :
      {v : List ℕ} (i : ℕ)
      → n ≤ max_dimension
      → mat_right_kernel_corank1 a n ≡ some v
      → i < n
      → (at (mat_vec_mul a v n) i ≡ 0) × IsReduced v × (f : ℕ) × (f < n) × (at v f ≡ 1)
  right_kernel_lem {v} i bound e hi =
      let s = rref_core n a none in
      elim (Bool-cases (s.pivot_row == n - 1)) [
        | inr other ↦
            let refused : mat_right_kernel_corank1 a n ≡ none = kernel_is ∙ rw other refl in
            absurd (cc (sym refused ∙ e))
        | inl corank1 ↦
            let returned : (find_free (marked n s.pivot_row s.pivot_cols) n 0 >>= λ f.
            some (kernel_vector n s.pivot_row s.pivot_cols s.a f))
                ≡ some v =
              sym (kernel_is ∙ rw corank1 refl) ∙ e in
            let (f, found, out) = >>=-eq-some _ _ returned in
            let same : kernel_vector n s.pivot_row s.pivot_cols s.a f ≡ v = cc out in
            let (kills, small, lt, one) = short_rank n a m none f found in
            rw (← same)
              (mat_vec_mul_lem n bound a _ m.reduced small i hi ∙ kills i hi, small, f, lt, one)
      ]

  -- It returns a vector exactly where the rank is n - 1, for a positive n.
  pub right_kernel_total :
      0 < n → ((v : List ℕ) × (mat_right_kernel_corank1 a n ≡ some v)) ↔ (mat_rank a n ≡ n - 1)
  right_kernel_total pos = (λ (v, e). forward v e, backward)
    where
      forward : (v : List ℕ) → mat_right_kernel_corank1 a n ≡ some v → mat_rank a n ≡ n - 1
      forward v e = elim (Bool-cases ((rref_core n a none).pivot_row == n - 1)) [
        | inl corank1 ↦ rank_is ∙ ==→eq _ _ corank1
        | inr other ↦
            let refused : mat_right_kernel_corank1 a n ≡ none = kernel_is ∙ rw other refl in
            absurd (cc (sym refused ∙ e))
      ]

      backward : mat_rank a n ≡ n - 1 → (v : List ℕ) × (mat_right_kernel_corank1 a n ≡ some v)
      backward rank =
          let s = rref_core n a none in
          let st = rref_core-IsStage n a none m in
          let (f, found) =
            free_column n s.pivot_row s.pivot_cols s.a st.echelon (omega (arith, rank_is, rank)) in
          (
            kernel_vector n s.pivot_row s.pivot_cols s.a f,
            kernel_is ∙ rw (eq→== _ _ (sym rank_is ∙ rank), found) refl,
          )

  -- Where pmod_mat_inv_vartime fails, the input has no inverse: no matrix of reduced elements has the
  -- identity as its product with the input. The input is an n x n matrix of reduced elements, and n
  -- is at most 2 ^ 16.
  pub mat_inv_none :
      (b : List ℕ)
      → n ≤ max_dimension
      → mat_inv_vartime a n ≡ none
      → IsReduced b
      → ¬ ((i j : ℕ) → i < n → j < n → entry n (mat_mul b a n) i j ≡ (if i == j then 1 else 0))
  mat_inv_none b bound e hb inverse =
      let s = rref_core n a (some (mat_identity n)) in
      let st = rref_core-IsStage n a (some (mat_identity n)) m in
      let (f, found) =
        free_column n s.pivot_row s.pivot_cols s.a st.echelon
          (omega (arith, not_full_rank n a m e, st.rows)) in
      let (kills, small, lt, one) = short_rank n a m (some (mat_identity n)) f found in
      let v = kernel_vector n s.pivot_row s.pivot_cols s.a f in
      let vanishes : Congr trine_q (at v f) 0 =
        sym (
          Congr-of_eq trine_q _ (at v f) (
            sum_single n f (λ k. (if f == k then 1 else 0) * at v k) lt
              (λ k hk ne. rw (ne→== f k (λ z. ne (sym z))) (omega arith))
            ∙ rw (eq→== f f refl) (omega arith)))
        ∙ Congr-sum trine_q n (λ k. (if f == k then 1 else 0) * at v k)
            (λ k. sum n (λ l. entry n b f l * entry n a l k) * at v k)
            (λ k hk.
              Congr-mul trine_q (if f == k then 1 else 0) _ (at v k) (at v k)
                (Congr-of_eq trine_q _ _
                    (sym (inverse f k lt hk) ∙ mat_mul_lem n bound b a hb m.reduced f k lt hk)
                  ∙ Congr-mod trine_q (sum n (λ l. entry n b f l * entry n a l k)))
                refl)
        ∙ Congr-of_eq trine_q _ _ (sum_assoc n n (λ l. entry n b f l) (λ l k. entry n a l k) (at v))
        ∙ Congr-sum trine_q n _ (λ l. entry n b f l * 0)
            (λ l hl. Congr-mul trine_q (entry n b f l) _ _ 0 refl (kills l hl))
        ∙ Congr-of_eq trine_q _ 0 (sum_vanish n _ (λ l hl. omega arith)) in
      omega (arith, vanishes, one)

-- What pmod_mat_left_kernel_corank1_vartime returns is a vector of reduced elements, one of which is
-- 1, whose product with the matrix from the left is zero, as pmod_mat_transpose_vec_mul computes it.
-- The input is an n x n matrix of reduced elements, and n is at most 2 ^ 16.
pub left_kernel_lem :
    (n : ℕ) (a : List ℕ) {v : List ℕ} (i : ℕ)
    → IsMatrix n a
    → n ≤ max_dimension
    → mat_left_kernel_corank1 a n ≡ some v
    → i < n
    → (at (mat_transpose_vec_mul a v n) i ≡ 0) × IsReduced v × (f : ℕ) × (f < n) × (at v f ≡ 1)
unfolding mat_left_kernel_corank1
left_kernel_lem n a {v} i m bound e hi =
    let r =
      right_kernel_lem n (mat_transpose a n)
        (record {
          size = length-mat_transpose n a;
          reduced = mat_transpose-IsReduced n a m.reduced;
        })
        i bound e hi in
    (vec_mul-transpose n a v i bound m.reduced r.1 hi ∙ r.0, r.1, r.2, r.3, r.4)
