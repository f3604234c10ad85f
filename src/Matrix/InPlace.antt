-- ===== src/Matrix/InPlace.antt =====
-- pmod_mat_transpose of an array into itself, and the products with the transposed matrix.
use native.Mathlib.Decide.{ℕ_discrete}
use meds2end.Base.{ℕ, suc, ◌+◌, ◌-◌, ◌*◌, ◌≤◌, ◌<◌, ◌≡◌, sym, ap, ◌∙◌, arith, List, at, set}
use meds2end.Base.{length, length-set, for_up, for_up_inv, ltb, ◌==◌, if◌then◌else◌, ◌&&◌, ◌||◌}
use meds2end.Base.Grid.{entry, entry-set, index-lt}
use meds2end.Base.{subst, ◌%◌}
use meds2end.Base.Sums.{sum_ext}
use meds2end.Params.{trine_q}
use meds2end.Matrix.{mat_vec_mul, mat_transpose_vec_mul}
use meds2end.Matrix.Products.{IsReduced, max_dimension, mat_vec_mul_lem, mat_transpose_vec_mul_lem}
use meds2end.Matrix.Transpose.{mat_transpose-IsReduced}
use meds2end.Matrix.{transpose_swap, mat_transpose_in_place, mat_transpose}
use meds2end.Matrix.Transpose.{length-mat_transpose, entry-mat_transpose}

-- Rows and columns before r are exchanged, and of row and column r the places before c.
record IsSwapped (n : ℕ) (a : List ℕ) (r c : ℕ) (t : List ℕ) : Type 0 where
  same_length : length t ≡ n * n
  holds :
      (i j : ℕ)
      → i < n
      → j < n
      → entry n t i j ≡ (
          if (ltb i r || ltb j r) || ((i == r && ltb j c) || (j == r && ltb i c))
          then entry n a j i
          else entry n a i j)

module _ (n : ℕ) (a : List ℕ) (r c : ℕ) (t : List ℕ) (hr : r < c) (hc : c < n)
    (f : IsSwapped n a r c t) where
  swapped_entry :
      (i j : ℕ)
      → i < n
      → j < n
      → entry n (transpose_swap n r c t) i j ≡ (
          if c == i && r == j
          then entry n t r c
          else if r == i && c == j
          then entry n t c r
          else entry n t i j)
  unfolding transpose_swap
  swapped_entry i j hi hj =
      let here = index-lt n n r c (omega arith) hc in
      let there = index-lt n n c r hc (omega arith) in
      entry-set (set t (r * n + c) (entry n t c r)) n c r (entry n t r c) i j (omega arith) hj
        (omega (arith, there, f.same_length, length-set t (r * n + c) (entry n t c r)))
      ∙ ap (λ (x : ℕ). if c == i && r == j then entry n t r c else x)
          (entry-set t n r c (entry n t c r) i j hc hj (omega (arith, here, f.same_length)))

  swap_step : IsSwapped n a r (suc c) (transpose_swap n r c t)
  swap_step = record {
    same_length = unfold transpose_swap in length-set _ _ _ ∙ length-set t _ _ ∙ f.same_length;
    holds = λ i j hi hj. swapped_entry i j hi hj ∙ go i j hi hj;
  }
    where
      go :
          (i j : ℕ)
          → i < n
          → j < n
          → (if c == i && r == j
              then entry n t r c
              else if r == i && c == j
              then entry n t c r
              else entry n t i j)
            ≡ (if (ltb i r || ltb j r) || ((i == r && ltb j (suc c)) || (j == r && ltb i (suc c)))
                then entry n a j i
                else entry n a i j)
      go i j hi hj = elim (ℕ_discrete c i) [
        | yes ci ↦ elim (ℕ_discrete r j) [
          | yes rj ↦ rw (← ci, ← rj) (ground (arith, f.holds r c (omega arith) hc, hr))
          | no rj ↦ ground (arith, f.holds i j hi hj, hr, ci, rj)
        ]
        | no ci ↦ elim (ℕ_discrete r i) [
          | yes ri ↦ elim (ℕ_discrete c j) [
            | yes cj ↦ rw (← ri, ← cj) (ground (arith, f.holds c r hc (omega arith), hr))
            | no cj ↦ ground (arith, f.holds i j hi hj, hr, ci, ri, cj)
          ]
          | no ri ↦ ground (arith, f.holds i j hi hj, hr, ci, ri)
        ]
      ]

module _ (n : ℕ) (a : List ℕ) where
  start_row : (r : ℕ) (t : List ℕ) → IsSwapped n a r 0 t → IsSwapped n a r (r + 1) t
  start_row r t f = record {
    same_length = f.same_length;
    holds = λ i j hi hj. f.holds i j hi hj ∙ (elim (ℕ_discrete i j) [
      | yes diagonal ↦ rw diagonal (ground arith)
      | no apart ↦ ground (arith, apart)
    ]);
  }

  end_row : (r c : ℕ) (t : List ℕ) → c ≡ n → IsSwapped n a r c t → IsSwapped n a (suc r) 0 t
  end_row r c t e f = record {
    same_length = f.same_length;
    holds = λ i j hi hj. f.holds i j hi hj ∙ ground arith;
  }

  row-IsSwapped :
      (r : ℕ) (t : List ℕ)
      → r < n
      → IsSwapped n a r 0 t
      → IsSwapped n a (suc r) 0 (for_up (n - (r + 1)) (λ k. transpose_swap n r (r + 1 + k)) t)
  row-IsSwapped r t hr f =
      let last =
        for_up_inv (λ k s. IsSwapped n a r (r + 1 + k) s) _ (n - (r + 1)) t
          (let e : r + 1 ≡ r + 1 + 0 = omega arith in
            subst (λ c. IsSwapped n a r c t) e (start_row r t f))
          (λ k s hk g.
            let e : suc (r + 1 + k) ≡ r + 1 + suc k = omega arith in
            subst (λ c. IsSwapped n a r c (transpose_swap n r (r + 1 + k) s)) e
              (swap_step n a r (r + 1 + k) s (omega arith) (omega arith) g)) in
      end_row r (r + 1 + (n - (r + 1))) _ (omega arith) last

  -- Transposing an array into itself gives an array of the same size with the same entries as
  -- transposing it into another one, for an array of n ^ 2 elements.
  pub in_place_lem :
      (i j : ℕ)
      → length a ≡ n * n
      → i < n
      → j < n
      → (length (mat_transpose_in_place a n) ≡ length (mat_transpose a n))
        × (entry n (mat_transpose_in_place a n) i j ≡ entry n (mat_transpose a n) i j)
  unfolding mat_transpose_in_place
  in_place_lem i j size hi hj =
      let whole =
        for_up_inv (λ r t. IsSwapped n a r 0 t) _ n a
          (record { same_length = size; holds = λ i j hi hj. ground arith })
          (λ r t hr f. row-IsSwapped r t hr f) in
      (
        whole.same_length ∙ sym (length-mat_transpose n a),
        whole.holds i j hi hj ∙ ground arith ∙ sym (entry-mat_transpose n a i j hi hj),
      )

-- Multiplying a vector from the left is multiplying it from the right by the transposed matrix, for
-- reduced entries and a dimension of at most 2 ^ 16.
pub vec_mul-transpose :
    (n : ℕ) (a v : List ℕ) (c : ℕ)
    → n ≤ max_dimension
    → IsReduced a
    → IsReduced v
    → c < n
    → at (mat_transpose_vec_mul a v n) c ≡ at (mat_vec_mul (mat_transpose a n) v n) c
vec_mul-transpose n a v c bound ha hv hc =
    mat_transpose_vec_mul_lem n bound a v ha hv c hc
    ∙ ap (λ (t : ℕ). t % trine_q)
        (sum_ext n _ _ λ r hr. ap (λ (t : ℕ). t * at v r) (sym (entry-mat_transpose n a c r hc hr)))
    ∙ sym (mat_vec_mul_lem n bound (mat_transpose a n) v (mat_transpose-IsReduced n a ha) hv c hc)
