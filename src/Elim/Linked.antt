-- ===== src/Elim/Linked.antt =====
-- The second matrix of the elimination: its product with the first input stays the first matrix.
use native.Mathlib.Decide.{ℕ_discrete}
use native.Mathlib.Nat.{mul_comm}
use meds2end.Base.{ℕ, ◌+◌, ◌*◌, ◌%◌, ◌<◌, refl, sym, ◌∙◌, arith, List}
use meds2end.Base.{◌==◌, ne→==, eq→==, inl, inr, Bool-cases}
use meds2end.Base.Congr.{Congr, Congr-mod, Congr-add, Congr-mul, Congr-of_eq, Congr-cancel}
use meds2end.Base.Grid.{entry}
use meds2end.Params.{trine_q}
use meds2end.Field.{gf_mul, gf_sub}
use meds2end.Field.Arith.{gf_mul_lem, gf_sub_lem}
use meds2end.Elim.{swap_rows, scale_row, row_sub_mul}
use meds2end.Elim.Rows.{swap_rows_lem, scale_row_lem, row_sub_mul_lem}
use meds2end.Elim.Images.{
  IsMatrix, image, image-swap_rows, image-scale_row_self, image-scale_row_ne,
  image-row_sub_mul_self, image-row_sub_mul_ne, scale_row-IsMatrix, row_sub_mul-IsMatrix,
  swap_rows-IsMatrix,
}

-- `right` times `start` is `left`, modulo q.
pub record IsLinked (n : ℕ) (start left right : List ℕ) : Type 0 where
  pub left_matrix : IsMatrix n left
  pub right_matrix : IsMatrix n right
  pub product :
      (i j : ℕ)
      → i < n
      → j < n
      → Congr trine_q (image n right (λ k. entry n start k j) i) (entry n left i j)

module _ (n : ℕ) (start left right : List ℕ) (l : IsLinked n start left right) where
  pub swap_rows-IsLinked :
      (r1 r2 : ℕ)
      → r1 < n
      → r2 < n
      → IsLinked n start (swap_rows left r1 r2 n) (swap_rows right r1 r2 n)
  swap_rows-IsLinked r1 r2 h1 h2 = record {
    left_matrix = swap_rows-IsMatrix n r1 r2 left l.left_matrix;
    right_matrix = swap_rows-IsMatrix n r1 r2 right l.right_matrix;
    product = λ i j hi hj.
        rw
          (
            image-swap_rows n right l.right_matrix (λ k. entry n start k j) r1 r2 i h1 h2 hi,
            swap_rows_lem n left l.left_matrix.size r1 r2 i j h1 h2 hi hj,
          )
          (elim (Bool-cases (i == r2)) [
            | inl e ↦ rw e (l.product r1 j h1 hj)
            | inr ne ↦ rw ne (elim (Bool-cases (i == r1)) [
              | inl e ↦ rw e (l.product r2 j h2 hj)
              | inr other ↦ rw other (l.product i j hi hj)
            ])
          ]);
  }

  pub scale_row-IsLinked :
      (row x : ℕ)
      → row < n
      → x < trine_q
      → IsLinked n start (scale_row left row x n) (scale_row right row x n)
  scale_row-IsLinked row x hr hx = record {
    left_matrix = scale_row-IsMatrix n row x left hx l.left_matrix;
    right_matrix = scale_row-IsMatrix n row x right hx l.right_matrix;
    product = λ i j hi hj.
        rw (scale_row_lem n left l.left_matrix.size row x i j hr hi hj) (elim (ℕ_discrete i row) [
          | yes here ↦ rw (here, eq→== row row refl) (scaled j hj)
          | no other ↦ rw (ne→== _ _ other) (
              Congr-of_eq trine_q _ _ (
                image-scale_row_ne n right l.right_matrix (λ k. entry n start k j) row x i hr hi
                  other)
              ∙ l.product i j hi hj)
        ]);
  }
    where
      scaled :
          (j : ℕ)
          → j < n
          → Congr trine_q
              (image n (scale_row right row x n) (λ k. entry n start k j) row)
              (gf_mul (entry n left row j) x)
      scaled j hj =
          image-scale_row_self n right l.right_matrix (λ k. entry n start k j) row x hr hx
          ∙ Congr-mul trine_q x x _ (entry n left row j) refl (l.product row j hr hj)
          ∙ Congr-of_eq trine_q (x * entry n left row j) (entry n left row j * x) (mul_comm x _)
          ∙ sym (
              Congr-of_eq trine_q _ (entry n left row j * x % trine_q)
                (gf_mul_lem _ x (l.left_matrix.reduced (row * n + j)) hx)
              ∙ Congr-mod trine_q (entry n left row j * x))

  pub row_sub_mul-IsLinked :
      (dst src x : ℕ)
      → dst < n
      → src < n
      → x < trine_q
      → IsLinked n start (row_sub_mul left dst src x n) (row_sub_mul right dst src x n)
  row_sub_mul-IsLinked dst src x hd hs hx = record {
    left_matrix = row_sub_mul-IsMatrix n dst src x left hx l.left_matrix;
    right_matrix = row_sub_mul-IsMatrix n dst src x right hx l.right_matrix;
    product = λ i j hi hj.
        rw (row_sub_mul_lem n left l.left_matrix.size dst src x i j hd hs hi hj)
          (elim (ℕ_discrete i dst) [
            | yes here ↦ rw (here, eq→== dst dst refl) (subtracted j hj)
            | no other ↦ rw (ne→== _ _ other) (
                Congr-of_eq trine_q _ _ (
                  image-row_sub_mul_ne n right l.right_matrix (λ k. entry n start k j) dst src x i
                    hd hs hi other)
                ∙ l.product i j hi hj)
          ]);
  }
    where
      subtracted :
          (j : ℕ)
          → j < n
          → Congr trine_q
              (image n (row_sub_mul right dst src x n) (λ k. entry n start k j) dst)
              (gf_sub (entry n left dst j) (gf_mul x (entry n left src j)))
      subtracted j hj =
          let t = λ (k : ℕ). entry n start k j in
          let d = entry n left dst j in
          let s = entry n left src j in
          let p = gf_mul x s in
          let hp = gf_mul_lem x s hx (l.left_matrix.reduced (src * n + j)) in
          let same : Congr trine_q (x * image n right t src) p =
            Congr-mul trine_q x x (image n right t src) s refl (l.product src j hs hj)
            ∙ sym (Congr-of_eq trine_q p (x * s % trine_q) hp ∙ Congr-mod trine_q (x * s)) in
          Congr-cancel trine_q (omega arith) _ (gf_sub d p) p (
            Congr-add trine_q _ (image n (row_sub_mul right dst src x n) t dst) p
              (x * image n right t src) refl (sym same)
            ∙ image-row_sub_mul_self n right l.right_matrix t dst src x hd hs hx
            ∙ l.product dst j hd hj
            ∙ sym (
                omega (
                  arith,
                  gf_sub_lem d p (l.left_matrix.reduced (dst * n + j)) (omega (arith, hp)),
                )))
