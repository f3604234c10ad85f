-- ===== src/Elim/Kernel.antt =====
-- pmod_mat_right_kernel_corank1_vartime: what it returns is a nonzero vector of the kernel.
use native.Mathlib.Decide.{ℕ_discrete}
use meds2end.Base.{ℕ, ◌%◌, ◌+◌, ◌-◌, ◌*◌, ◌<◌, ◌≡◌, ◌≢◌, refl, sym, ap, ◌∙◌, arith, List}
use meds2end.Base.{for_up_inv, ◌==◌, ltb, if◌then◌else◌}
use meds2end.Base.{ne→==, eq→==, ltb→lt, inl, inr, Bool-cases, Option-cases, Option, ◌↔◌}
use meds2end.Base.Congr.{Congr, Congr-of_eq, Congr-mul, Congr-add}
use meds2end.Base.Grid.{entry}
use meds2end.Params.{trine_q}
use meds2end.Field.{gf_inv}
use meds2end.Field.Inverse.{gf_inv_lem}
use meds2end.Elim.{
  Elimination, swap_rows, scale_row, row_sub_mul, find_pivot, eliminate_row, apply_pivot,
  rref_column, rref_core,
}
use meds2end.Elim.Images.{
  IsMatrix, image, image-swap_rows, image-scale_row_self, image-scale_row_ne,
  image-row_sub_mul_self, image-row_sub_mul_ne, scale_row-IsMatrix, row_sub_mul-IsMatrix,
  swap_rows-IsMatrix,
}
use meds2end.Elim.Rows.{swap_rows_lem}
use meds2end.Elim.Echelon.{find_pivot-some}

-- The matrix maps the vector to zero, modulo q.
abbrev pub Kills : ℕ → List ℕ → (ℕ → ℕ) → Type 0
Kills n a t = (i : ℕ) → i < n → Congr trine_q (image n a t i) 0

module _ (n : ℕ) (a : List ℕ) (m : IsMatrix n a) (t : ℕ → ℕ) where
  swap_back : (r1 r2 : ℕ) → r1 < n → r2 < n → Kills n (swap_rows a r1 r2 n) t → Kills n a t
  swap_back r1 r2 h1 h2 k i hi = elim (ℕ_discrete i r2) [
    | yes here ↦ rw (here) (
        sym (Congr-of_eq trine_q _ _ (image-swap_rows n a m t r1 r2 r1 h1 h2 h1 ∙ other_row))
        ∙ k r1 h1)
    | no apart ↦ elim (ℕ_discrete i r1) [
      | yes here ↦ rw (here) (
          sym (
            Congr-of_eq trine_q _ _
              (image-swap_rows n a m t r1 r2 r2 h1 h2 h2 ∙ rw (eq→== r2 r2 refl) refl))
          ∙ k r2 h2)
      | no other ↦
          sym (
            Congr-of_eq trine_q _ _ (
              image-swap_rows n a m t r1 r2 i h1 h2 hi
              ∙ rw (ne→== _ _ apart, ne→== _ _ other) refl))
          ∙ k i hi
    ]
  ]
    where
      other_row :
          (if r1 == r2 then image n a t r1 else if r1 == r1 then image n a t r2 else image n a t r1)
          ≡ image n a t r2
      other_row = elim (ℕ_discrete r1 r2) [
        | yes same ↦ rw (eq→== _ _ same) (ap (image n a t) same)
        | no ne ↦ rw (ne→== _ _ ne, eq→== r1 r1 refl) refl
      ]

  scale_back :
      (row x y : ℕ)
      → row < n
      → x < trine_q
      → Congr trine_q (y * x) 1
      → Kills n (scale_row a row x n) t
      → Kills n a t
  scale_back row x y hr hx inverse k i hi = elim (ℕ_discrete i row) [
    | yes here ↦
        let s = image n a t row in
        let scaled : Congr trine_q (x * s) 0 =
          sym (image-scale_row_self n a m t row x hr hx) ∙ k row hr in
        rw here (
          Congr-of_eq trine_q s (1 * s) (omega arith)
          ∙ Congr-mul trine_q 1 (y * x) s s (sym inverse) refl
          ∙ Congr-of_eq trine_q (y * x * s) (y * (x * s)) (grind arith)
          ∙ Congr-mul trine_q y y (x * s) 0 refl scaled
          ∙ Congr-of_eq trine_q (y * 0) 0 (omega arith))
    | no other ↦
        sym (Congr-of_eq trine_q _ _ (image-scale_row_ne n a m t row x i hr hi other)) ∙ k i hi
  ]

  sub_back :
      (dst src x : ℕ)
      → dst < n
      → src < n
      → dst ≢ src
      → x < trine_q
      → Kills n (row_sub_mul a dst src x n) t
      → Kills n a t
  sub_back dst src x hd hs ne hx k i hi = elim (ℕ_discrete i dst) [
    | yes here ↦ rw here (
        sym (image-row_sub_mul_self n a m t dst src x hd hs hx)
        ∙ Congr-add trine_q _ 0 (x * image n a t src) (x * 0) (k dst hd)
            (Congr-mul trine_q x x _ 0 refl source)
        ∙ Congr-of_eq trine_q (0 + x * 0) 0 (omega arith))
    | no other ↦
        sym (Congr-of_eq trine_q _ _ (image-row_sub_mul_ne n a m t dst src x i hd hs hi other))
        ∙ k i hi
  ]
    where
      source : Congr trine_q (image n a t src) 0
      source =
          sym (
            Congr-of_eq trine_q _ _
              (image-row_sub_mul_ne n a m t dst src x src hd hs hs (λ e. ne (sym e))))
          ∙ k src hs

  swap_on : (r1 r2 : ℕ) → r1 < n → r2 < n → Kills n a t → Kills n (swap_rows a r1 r2 n) t
  swap_on r1 r2 h1 h2 k i hi =
      Congr-of_eq trine_q _ _ (image-swap_rows n a m t r1 r2 i h1 h2 hi)
      ∙ elim (Bool-cases (i == r2)) [
        | inl e ↦ rw e (k r1 h1)
        | inr ne ↦
            rw ne (elim (Bool-cases (i == r1)) [
              | inl e ↦ rw e (k r2 h2)
              | inr other ↦ rw other (k i hi)
            ])
      ]

  scale_on : (row x : ℕ) → row < n → x < trine_q → Kills n a t → Kills n (scale_row a row x n) t
  scale_on row x hr hx k i hi = elim (ℕ_discrete i row) [
    | yes here ↦ rw here (
        image-scale_row_self n a m t row x hr hx
        ∙ Congr-mul trine_q x x _ 0 refl (k row hr)
        ∙ Congr-of_eq trine_q (x * 0) 0 (omega arith))
    | no other ↦ Congr-of_eq trine_q _ _ (image-scale_row_ne n a m t row x i hr hi other) ∙ k i hi
  ]

  sub_on :
      (dst src x : ℕ)
      → dst < n
      → src < n
      → x < trine_q
      → Kills n a t
      → Kills n (row_sub_mul a dst src x n) t
  sub_on dst src x hd hs hx k i hi = elim (ℕ_discrete i dst) [
    | yes here ↦
        let image' = image n (row_sub_mul a dst src x n) t dst in
        let nothing : Congr trine_q (x * image n a t src) 0 =
          Congr-mul trine_q x x _ 0 refl (k src hs) ∙ Congr-of_eq trine_q (x * 0) 0 (omega arith) in
        rw here (
          Congr-of_eq trine_q image' (image' + 0) (omega arith)
          ∙ Congr-add trine_q image' image' 0 (x * image n a t src) refl (sym nothing)
          ∙ image-row_sub_mul_self n a m t dst src x hd hs hx
          ∙ k dst hd)
    | no other ↦
        Congr-of_eq trine_q _ _ (image-row_sub_mul_ne n a m t dst src x i hd hs hi other) ∙ k i hi
  ]

-- A vector is in the kernel of the result of some steps exactly where it is in that of the input.
abbrev Returns : ℕ → List ℕ → (ℕ → ℕ) → List ℕ → Type 0
Returns n start t a = IsMatrix n a × (Kills n a t ↔ Kills n start t)

module _ (n : ℕ) (start : List ℕ) (t : ℕ → ℕ) where
  eliminate_row-Returns :
      (p col r : ℕ) (s : List ℕ × Option (List ℕ))
      → p < n
      → r < n
      → Returns n start t s.0
      → Returns n start t (eliminate_row n p col r s).0
  unfolding eliminate_row
  eliminate_row-Returns p col r (a, rhs) hp hr (m, back) = elim (ℕ_discrete r p) [
    | yes here ↦ rw (eq→== _ _ here) (m, back)
    | no other ↦ rw (ne→== _ _ other) (elim (Bool-cases (entry n a r col == 0)) [
      | inl vanishes ↦ rw vanishes (m, back)
      | inr more ↦ rw more (
        row_sub_mul-IsMatrix n r p (entry n a r col) a (m.reduced (r * n + col)) m,
        (
          λ k.
              back.0
                (sub_back n a m t r p (entry n a r col) hr hp other (m.reduced (r * n + col)) k),
          λ k. sub_on n a m t r p (entry n a r col) hr hp (m.reduced (r * n + col)) (back.1 k),
        ),
      )
    ])
  ]

  apply_pivot-Returns :
      (col pivot : ℕ) (s : Elimination)
      → s.pivot_row < n
      → pivot < n
      → col < n
      → entry n s.a pivot col ≢ 0
      → Returns n start t s.a
      → Returns n start t (apply_pivot n col pivot s).a
  unfolding apply_pivot
  apply_pivot-Returns col pivot s hp hv hc ne (m, back) =
      for_up_inv (λ r u. Returns n start t u.0) (eliminate_row n s.pivot_row col) n _
        (
          scale_row-IsMatrix n s.pivot_row inv a1 inverse.1 m1,
          (
            λ k. back.0 (
                swap_back n s.a m t s.pivot_row pivot hp hv (
                  scale_back n a1 m1 t s.pivot_row inv (entry n a1 s.pivot_row col) hp inverse.1
                    inverse.0 k)),
            λ k.
                scale_on n a1 m1 t s.pivot_row inv hp inverse.1
                  (swap_on n s.a m t s.pivot_row pivot hp hv (back.1 k)),
          ),
        )
        (λ r u hr j. eliminate_row-Returns s.pivot_row col r u hp hr j)
    where
      a1 : List ℕ
      a1 = swap_rows s.a s.pivot_row pivot n

      inv : ℕ
      inv = gf_inv (entry n a1 s.pivot_row col)

      m1 : IsMatrix n a1
      m1 = swap_rows-IsMatrix n s.pivot_row pivot s.a m

      here : entry n a1 s.pivot_row col ≡ entry n s.a pivot col
      here = swap_rows_lem n s.a m.size s.pivot_row pivot s.pivot_row col hp hv hp hc ∙ ground arith

      inverse : (entry n a1 s.pivot_row col * inv % trine_q ≡ 1) × (inv < trine_q)
      inverse =
          gf_inv_lem (entry n a1 s.pivot_row col) (omega (arith, here, ne))
            (m1.reduced (s.pivot_row * n + col))

  rref_column-Returns :
      (col : ℕ) (s : Elimination)
      → col < n
      → Returns n start t s.a
      → Returns n start t (rref_column n col s).a
  unfolding rref_column
  rref_column-Returns col s hc j = elim (Bool-cases (ltb s.pivot_row n)) [
    | inl more ↦ rw more (elim (Option-cases (find_pivot s.a n col (n - s.pivot_row) s.pivot_row)) [
      | inl absent ↦ rw absent j
      | inr (pivot, found) ↦
          let hp = ltb→lt _ _ more in
          let (low, high, ne) = find_pivot-some s.a n col (n - s.pivot_row) s.pivot_row found in
          rw found (apply_pivot-Returns col pivot s hp (omega arith) hc ne j)
    ])
    | inr full ↦ rw full j
  ]

  -- The reduced matrix and the input have the same kernel.
  rref_core_kernel :
      (rhs : Option (List ℕ))
      → IsMatrix n start
      → Kills n (rref_core n start rhs).a t ↔ Kills n start t
  unfolding rref_core
  rref_core_kernel rhs m =
      (for_up_inv (λ c s. Returns n start t s.a) (rref_column n) n _ (m, (λ k. k, λ k. k))
        λ c s hc j. rref_column-Returns c s hc j).1

  pub rref_core_back :
      (rhs : Option (List ℕ))
      → IsMatrix n start
      → Kills n (rref_core n start rhs).a t
      → Kills n start t
  rref_core_back rhs m = (rref_core_kernel rhs m).0

  pub rref_core_on :
      (rhs : Option (List ℕ))
      → IsMatrix n start
      → Kills n start t
      → Kills n (rref_core n start rhs).a t
  rref_core_on rhs m = (rref_core_kernel rhs m).1
