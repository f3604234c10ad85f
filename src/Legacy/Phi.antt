-- ===== src/Legacy/Phi.antt =====
-- util.c, phi: it is triform_action_pullback at the transposed matrices.
use native.Mathlib.Nat.{mul_assoc}
use meds2end.Base.{ℕ, ◌+◌, ◌*◌, ◌%◌, ◌≤◌, ◌<◌, ◌≡◌, refl, sym, ap, ◌∙◌, arith, List, at, length}
use meds2end.Base.{replicate, length-replicate}
use meds2end.Base.Columns.{fill_columns, entry-fill_columns}
use meds2end.Base.Congr.{Congr, Congr-mul, Congr-mod, Congr-sum, Congr-of_eq, eq_of_Congr}
use meds2end.Base.Grid.{entry, index-lt}
use meds2end.Base.Slices.{slice}
use meds2end.Base.Sums.{sum, sum_ext}
use meds2end.Params.{trine_q}
use meds2end.Matrix.{mat_mul, mat_mul_rect, mat_transpose, accumulate, reduce}
use meds2end.Matrix.Products.{
  IsReduced, max_dimension, mat_mul_lem, accumulate_lem, reduce_lem, product-lt, mat_mul-IsReduced,
  length-mat_mul,
}
use meds2end.Matrix.Transpose.{entry-mat_transpose, mat_transpose-IsReduced}
use meds2end.Triform.{triform_index, triform_slice, triform_action_pullback}
use meds2end.Triform.Eval.{coefficient, entry-slice, slice-IsReduced}
use meds2end.Triform.Pullback.{pulled, slice_lem, written, pullback_slice-IsReduced}
use meds2end.Triform.Slices.{IsWritten, slices-IsWritten, written-IsReduced}
use meds2end.Triform.Sums.{sum_assoc, sum_pull}
use meds2end.Legacy.{pi, phi, sub_offset}

-- An entry of pmod_mat_mul_rect, its accumulator included.
entry-mat_mul_rect :
    (out : List ℕ) (c_r c_c : ℕ) (a : List ℕ) (a_c : ℕ) (b : List ℕ) (i j : ℕ)
    → c_r * c_c ≤ length out
    → i < c_r
    → j < c_c
    → entry c_c (mat_mul_rect out c_r c_c a a_c b c_c) i j
      ≡ reduce (accumulate a_c (λ k. entry a_c a i k * entry c_c b k j))
unfolding mat_mul_rect fill_columns accumulate
entry-mat_mul_rect out c_r c_c a a_c b i j room hi hj =
    entry-fill_columns c_r c_c (λ r c. c_c * r + c) (λ r c. entry c_c product r c) out room
      (λ r c. omega arith) i j hi hj
    ∙ entry-fill_columns c_r c_c (λ r c. r * c_c + c) value (replicate (c_r * c_c) 0)
        (omega (arith, length-replicate {A = ℕ} (c_r * c_c) 0)) (λ r c. refl) i j hi hj
  where
    value : ℕ → ℕ → ℕ
    value r c = reduce (accumulate a_c (λ k. entry a_c a r k * entry c_c b k c))

    product : List ℕ
    product = fill_columns c_r c_c (λ r c. r * c_c + c) value (replicate (c_r * c_c) 0)

-- The exact algebra: the combination of the slices moves out of the product.
module _ (n : ℕ) (a b c : ℕ → ℕ → ℕ) (m : ℕ → ℕ → ℕ → ℕ) (j r col : ℕ) where
  abbrev outside : ℕ
  outside = sum n (λ i. c i j * sum n (λ k. sum n (λ l. a l r * m i l k) * b k col))

  moves_out : outside ≡ pulled n a b c m j r col
  moves_out =
      sum_ext n _ (λ i. c i j * sum n (λ l. a l r * sum n (λ k. m i l k * b k col)))
        (λ i lt.
          ap (λ (x : ℕ). c i j * x) (sum_assoc n n (λ l. a l r) (λ l k. m i l k) (λ k. b k col)))
      ∙ sym (sum_pull n n (λ l. a l r) (λ i. c i j) (λ i l. sum n (λ k. m i l k * b k col)))
      ∙ sum_ext n _ (λ l. a l r * sum n (λ k. sum n (λ i. c i j * m i l k) * b k col))
          (λ l lt.
            ap (λ (x : ℕ). a l r * x)
              (sym (sum_assoc n n (λ i. c i j) (λ i k. m i l k) (λ k. b k col))))
      ∙ sym (sum_assoc n n (λ l. a l r) (λ l k. sum n (λ i. c i j * m i l k)) (λ k. b k col))

module _ (n : ℕ) (bound : n ≤ max_dimension) (form a b c : List ℕ) (hf : IsReduced form)
    (ha : IsReduced a) (hb : IsReduced b) (hc : IsReduced c) where
  -- Slice i of the result of pi.
  product : ℕ → List ℕ
  product i = mat_mul (mat_mul (mat_transpose a n) (slice form (sub_offset n i) (n * n)) n) b n

  length-product : (i : ℕ) → length (product i) ≡ n * n
  unfolding product
  length-product i = length-mat_mul _ b n

  product-IsReduced : (i : ℕ) → IsReduced (product i)
  unfolding product
  product-IsReduced i = mat_mul-IsReduced _ b n

  product_lem :
      (i r col : ℕ)
      → r < n
      → col < n
      → Congr trine_q
          (entry n (product i) r col)
          (sum n (λ k. sum n (λ l. entry n a l r * coefficient n form i l k) * entry n b k col))
  unfolding product sub_offset
  product_lem i r col hr hcol =
      let place : i * n * n ≡ i * (n * n) = mul_assoc i n n in
      rw place (
        Congr-of_eq trine_q _ _ (mat_mul_lem n bound _ b (mat_mul-IsReduced _ _ n) hb r col hr hcol)
        ∙ Congr-mod trine_q _
        ∙ Congr-sum trine_q n _ _ λ k hk.
          Congr-mul trine_q _ _ (entry n b k col) (entry n b k col)
            (Congr-of_eq trine_q _ _ (
                mat_mul_lem n bound (mat_transpose a n) (triform_slice form i n)
                  (mat_transpose-IsReduced n a ha) (slice-IsReduced n form i hf) r k hr hk)
              ∙ Congr-mod trine_q _
              ∙ Congr-sum trine_q n _ _ λ l hl.
                Congr-mul trine_q _ _ _ _
                  (Congr-of_eq trine_q _ _ (entry-mat_transpose n a r l hr hl))
                  (Congr-of_eq trine_q _ _ (entry-slice n form i l k hl hk)))
            refl)

  abbrev tmp : List ℕ
  tmp = pi (replicate (n * n * n) 0) (mat_transpose a n) b form n

  tmp-IsWritten : IsWritten n product length-product (replicate (n * n * n) 0) n tmp
  unfolding pi product sub_offset
  tmp-IsWritten =
      slices-IsWritten n product length-product (λ i. i * n * n) (replicate (n * n * n) 0)
        (λ i. mul_assoc i n n) (omega (arith, length-replicate {A = ℕ} (n * n * n) 0))

  tmp-IsReduced : IsReduced tmp
  tmp-IsReduced =
      written-IsReduced n product length-product (replicate (n * n * n) 0) tmp
        (length-replicate {A = ℕ} (n * n * n) 0) product-IsReduced tmp-IsWritten

  phi-entry :
      (out : List ℕ) (s r col : ℕ)
      → n * n * n ≤ length out
      → s < n
      → r < n
      → col < n
      → (at (phi out (mat_transpose a n) b (mat_transpose c n) form n) (triform_index s r col n)
          < trine_q)
        × Congr trine_q
            (at
              (phi out (mat_transpose a n) b (mat_transpose c n) form n)
              (triform_index s r col n))
            (outside n (entry n a) (entry n b) (entry n c) (coefficient n form) s r col)
  unfolding phi
  phi-entry out s r col room hs hr hcol =
      let p = r * n + col in
      let hp : p < n * n = index-lt n n r col hr hcol in
      let is_entry =
        entry-mat_mul_rect out n (n * n) (mat_transpose c n) n tmp s p
          (omega (arith, room, mul_assoc n n n)) hs hp in
      (
        rw is_entry (omega arith),
        Congr-of_eq trine_q _ _ (
              is_entry
              ∙ reduce_lem _
              ∙ ap (λ (t : ℕ). t % trine_q)
                  (accumulate_lem n _ bound λ k hk.
                    product-lt _ _ (mat_transpose-IsReduced n c hc (s * n + k))
                      (tmp-IsReduced (k * (n * n) + p))))
            ∙ Congr-mod trine_q _
            ∙ Congr-sum trine_q n _ _ λ k hk.
              Congr-mul trine_q _ _ _ _
                (Congr-of_eq trine_q _ _ (entry-mat_transpose n c s k hs hk))
                (Congr-of_eq trine_q _ _ (tmp-IsWritten.holds k p hk hp)
                  ∙ product_lem k r col hr hcol),
      )

-- phi, called with the transposes of A and C, writes the coefficients that triform_action_pullback
-- writes for A, B and C. All elements are reduced, n is at most 2 ^ 16, and both outputs have room for
-- a form.
pub phi-pullback :
    (n : ℕ) (form a b c out old : List ℕ) (s r col : ℕ)
    → n ≤ max_dimension
    → IsReduced form
    → IsReduced a
    → IsReduced b
    → IsReduced c
    → n * n * n ≤ length out
    → n * n * n ≤ length old
    → s < n
    → r < n
    → col < n
    → at (phi out (mat_transpose a n) b (mat_transpose c n) form n) (triform_index s r col n)
      ≡ at (triform_action_pullback old form a b c n) (triform_index s r col n)
phi-pullback n form a b c out old s r col bound hf ha hb hc room_out room_old hs hr hcol =
    let p = r * n + col in
    let (small, value) = phi-entry n bound form a b c hf ha hb hc out s r col room_out hs hr hcol in
    let w = written n bound form a b c hf ha hb hc old room_old in
    let place = w.holds s p hs (index-lt n n r col hr hcol) in
    eq_of_Congr trine_q _ _ small
      (rw place (pullback_slice-IsReduced n bound form a b c hf ha hb hc s p))
      (value
        ∙ Congr-of_eq trine_q _ _
            (moves_out n (entry n a) (entry n b) (entry n c) (coefficient n form) s r col)
        ∙ sym (slice_lem n bound form a b c hf ha hb hc s r col hr hcol)
        ∙ Congr-of_eq trine_q _ _ (sym place))
