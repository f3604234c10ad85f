-- ===== src/Triform/Partial.antt =====
-- The matrices triform_phi_u and triform_phi_v of a form: its partial evaluations.
use native.Mathlib.Decide.{ℕ_discrete}
use meds2end.Base.{ℕ, suc, ◌+◌, ◌*◌, ◌%◌, ◌≤◌, ◌<◌, ◌≡◌, ap, ◌∙◌, arith, List, at}
use meds2end.Base.{length, length-set, for_up_inv, for_up, ltb, ◌==◌, if◌then◌else◌, ◌&&◌, ne→==}
use meds2end.Base.Grid.{entry, entry-set, index-lt}
use meds2end.Base.Sums.{sum, sum_ext}
use meds2end.Params.{trine_q}
use meds2end.Matrix.{mat_set_col}
use meds2end.Matrix.Products.{IsReduced, max_dimension, mat_vec_mul_lem, mat_transpose_vec_mul_lem}
use meds2end.Triform.{triform_slice, triform_phi_u, triform_phi_v}
use meds2end.Triform.Eval.{coefficient, entry-slice, slice-IsReduced}

-- An n x n matrix whose entries are given by a function.
record HasEntries (n : ℕ) (a : List ℕ) (e : ℕ → ℕ → ℕ) : Type 0 where
  same_length : length a ≡ n * n
  holds : (i j : ℕ) → i < n → j < n → entry n a i j ≡ e i j

mat_set_col-HasEntries :
    (n col : ℕ) (a v : List ℕ)
    → col < n
    → length a ≡ n * n
    → HasEntries n (mat_set_col a col v n) (λ i j. if j == col then at v i else entry n a i j)
unfolding mat_set_col
mat_set_col-HasEntries n col a v lt size =
    let done =
      for_up_inv
        (λ r b. HasEntries n b (λ i j. if ltb i r && j == col then at v i else entry n a i j)) _ n a
        (record { same_length = size; holds = λ i j hi hj. ground arith })
        (λ r b hr h. record {
          same_length = length-set b (r * n + col) (at v r) ∙ h.same_length;
          holds = λ i j hi hj.
              let room = index-lt n n r col hr lt in
              entry-set b n r col (at v r) i j lt hj (omega (arith, room, h.same_length))
              ∙ step r b i j (h.holds i j hi hj);
        }) in
    record {
      same_length = done.same_length;
      holds = λ i j hi hj. done.holds i j hi hj ∙ ground arith;
    }
  where
    step :
        (r : ℕ) (b : List ℕ) (i j : ℕ)
        → entry n b i j ≡ (if ltb i r && j == col then at v i else entry n a i j)
        → (if r == i && col == j then at v r else entry n b i j)
          ≡ (if ltb i (suc r) && j == col then at v i else entry n a i j)
    step r b i j h = elim (ℕ_discrete r i) [
      | yes row ↦ elim (ℕ_discrete col j) [
        | yes column ↦ rw (← row, ← column) (ground arith)
        | no column ↦ rw (ne→== _ _ column) (ground (arith, h))
      ]
      | no row ↦ rw (ne→== _ _ row) (ground (arith, h))
    ]

-- A loop that writes all the columns, whatever was there before.
columns-HasEntries :
    (n : ℕ) (a : List ℕ) (column : ℕ → List ℕ)
    → length a ≡ n * n
    → HasEntries n (for_up n (λ s m. mat_set_col m s (column s) n) a) (λ i j. at (column j) i)
columns-HasEntries n a column size =
    let done =
      for_up_inv (λ s m. HasEntries n m (λ i j. if ltb j s then at (column j) i else entry n a i j))
        _ n a (record { same_length = size; holds = λ i j hi hj. ground arith })
        (λ s m hs h.
          let next = mat_set_col-HasEntries n s m (column s) hs h.same_length in
          record {
            same_length = next.same_length;
            holds = λ i j hi hj. next.holds i j hi hj ∙ step s m i j (h.holds i j hi hj);
          }) in
    record {
      same_length = done.same_length;
      holds = λ i j hi hj. done.holds i j hi hj ∙ ground arith;
    }
  where
    step :
        (s : ℕ) (m : List ℕ) (i j : ℕ)
        → entry n m i j ≡ (if ltb j s then at (column j) i else entry n a i j)
        → (if j == s then at (column s) i else entry n m i j)
          ≡ (if ltb j (suc s) then at (column j) i else entry n a i j)
    step s m i j h = elim (ℕ_discrete j s) [
      | yes here ↦ rw (← here) (ground arith)
      | no other ↦ rw (ne→== _ _ other) (ground (arith, h))
    ]

-- The entry (i, s) of phi_u is the form of slice s at u and at the unit vector i, and that of phi_v
-- is the form of slice s at the unit vector i and at v, both modulo q: whatever the outputs hold
-- before, the sums over the coefficients are written. All elements are reduced, the outputs have
-- n ^ 2 elements, and n is at most 2 ^ 16.
pub partial_evaluation :
    (n : ℕ) (form u v old : List ℕ) (i s : ℕ)
    → n ≤ max_dimension
    → length old ≡ n * n
    → IsReduced form
    → IsReduced u × IsReduced v
    → i < n
    → s < n
    → (entry n (triform_phi_u old form u n) i s
        ≡ sum n (λ r. coefficient n form s r i * at u r) % trine_q)
      × (entry n (triform_phi_v old form v n) i s
          ≡ sum n (λ c. coefficient n form s i c * at v c) % trine_q)
unfolding triform_phi_u triform_phi_v
partial_evaluation n form u v old i s bound size hf (hu, hv) hi hs = (
  (columns-HasEntries n old _ size).holds i s hi hs
      ∙ mat_transpose_vec_mul_lem n bound (triform_slice form s n) u (slice-IsReduced n form s hf)
          hu i hi
      ∙ ap (λ (t : ℕ). t % trine_q)
          (sum_ext n _ _ λ r hr. ap (λ (t : ℕ). t * at u r) (entry-slice n form s r i hr hi)),
  (columns-HasEntries n old _ size).holds i s hi hs
      ∙ mat_vec_mul_lem n bound (triform_slice form s n) v (slice-IsReduced n form s hf) hv i hi
      ∙ ap (λ (t : ℕ). t % trine_q)
          (sum_ext n _ _ λ c hc. ap (λ (t : ℕ). t * at v c) (entry-slice n form s i c hi hc)),
)
