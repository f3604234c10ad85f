-- ===== src/Elim/Rows.antt =====
-- The row operations of matrixelim.c, entry by entry.
use native.Mathlib.Decide.{ℕ_discrete}
use meds2end.Base.{ℕ, ◌+◌, ◌*◌, ◌<◌, ◌≡◌, refl, ap, ◌∙◌, arith, List, set}
use meds2end.Base.{length, length-set, for_up, for_up_inv, ltb, ◌==◌, if◌then◌else◌, ◌&&◌}
use meds2end.Base.{false, ne→==, eq→==}
use meds2end.Base.Grid.{entry, entry-set, index-lt}
use meds2end.Field.{gf_mul, gf_sub}
use meds2end.Elim.{swap_rows, scale_row, row_sub_mul}

-- A matrix whose columns before k have the entries e, and whose other columns are those of a.
record IsDone (n : ℕ) (a : List ℕ) (e : ℕ → ℕ → ℕ) (k : ℕ) (b : List ℕ) : Type 0 where
  same_length : length b ≡ n * n
  holds : (i j : ℕ) → i < n → j < n → entry n b i j ≡ (if ltb j k then e i j else entry n a i j)

module _ (n : ℕ) (a : List ℕ) (size : length a ≡ n * n) where
  -- A loop over the columns whose body changes its column only.
  column_loop :
      (e : ℕ → ℕ → ℕ) (body : ℕ → List ℕ → List ℕ)
      → ((c : ℕ) (b : List ℕ)
          → c < n
          → IsDone n a e c b
          → (length (body c b) ≡ length b)
            × ((i j : ℕ)
                → i < n
                → j < n
                → entry n (body c b) i j ≡ (if j == c then e i j else entry n b i j)))
      → (length (for_up n body a) ≡ n * n)
        × ((i j : ℕ) → i < n → j < n → entry n (for_up n body a) i j ≡ e i j)
  column_loop e body step =
      let final =
        for_up_inv (λ k b. IsDone n a e k b) _ n a
          (record { same_length = size; holds = λ i j hi hj. ground arith })
          (λ c b hc d.
            let next = step c b hc d in
            record {
              same_length = next.0 ∙ d.same_length;
              holds = λ i j hi hj. next.1 i j hi hj ∙ (elim (ℕ_discrete j c) [
                | yes here ↦ rw here (ground arith)
                | no other ↦ rw (ne→== _ _ other) (ground (arith, d.holds i j hi hj, other))
              ]);
            }) in
      (final.same_length, λ i j hi hj. final.holds i j hi hj ∙ ground arith)

  -- The column at which the loop is has the entries of a.
  untouched :
      (e : ℕ → ℕ → ℕ) (c : ℕ) (b : List ℕ) (i : ℕ)
      → IsDone n a e c b
      → i < n
      → c < n
      → entry n b i c ≡ entry n a i c
  untouched e c b i d hi hc = d.holds i c hi hc ∙ ground arith

  -- One element of the column is written.
  write_step :
      (e : ℕ → ℕ → ℕ) (row c v : ℕ) (b : List ℕ)
      → row < n
      → c < n
      → IsDone n a e c b
      → v ≡ e row c
      → ((i : ℕ) → i < n → (i == row) ≡ false → e i c ≡ entry n a i c)
      → (length (set b (row * n + c) v) ≡ length b)
        × ((i j : ℕ)
            → i < n
            → j < n
            → entry n (set b (row * n + c) v) i j ≡ (if j == c then e i j else entry n b i j))
  write_step e row c v b hr hc d value rest = (
    length-set b (row * n + c) v,
    λ i j hi hj.
        entry-set b n row c v i j hc hj (omega (arith, index-lt n n row c hr hc, d.same_length))
        ∙ elim (ℕ_discrete c j) [
          | yes column ↦ elim (ℕ_discrete row i) [
            | yes here ↦ rw (← column, ← here) (ground (arith, value))
            | no other ↦
                rw (← column)
                  (ground (arith, other, rest i hi (ground arith), untouched e c b i d hi hc))
          ]
          | no other ↦ rw (ne→== _ _ other) (ground (arith, other))
        ],
  )

  pub scale_row_lem :
      (row scale i j : ℕ)
      → row < n
      → i < n
      → j < n
      → entry n (scale_row a row scale n) i j
        ≡ (if i == row then gf_mul (entry n a row j) scale else entry n a i j)
  unfolding scale_row
  scale_row_lem row scale i j hr hi hj =
      let e : ℕ → ℕ → ℕ =
        λ i j. if i == row then gf_mul (entry n a row j) scale else entry n a i j in
      (column_loop e _ λ c b hc d.
          write_step e row c _ b hr hc d
            (ap (λ (t : ℕ). gf_mul t scale) (untouched e c b row d hr hc)
              ∙ rw (eq→== row row refl) refl)
            (λ i hi ne. rw ne refl)).1
        i j hi hj

  pub row_sub_mul_lem :
      (dst src factor i j : ℕ)
      → dst < n
      → src < n
      → i < n
      → j < n
      → entry n (row_sub_mul a dst src factor n) i j ≡ (
          if i == dst
          then gf_sub (entry n a dst j) (gf_mul factor (entry n a src j))
          else entry n a i j)
  unfolding row_sub_mul
  row_sub_mul_lem dst src factor i j hd hs hi hj =
      let e : ℕ → ℕ → ℕ = λ i j.
        if i == dst
        then gf_sub (entry n a dst j) (gf_mul factor (entry n a src j))
        else entry n a i j in
      (column_loop e _ λ c b hc d.
          write_step e dst c _ b hd hc d
            (rw (untouched e c b dst d hd hc, untouched e c b src d hs hc, eq→== dst dst refl) refl)
            (λ i hi ne. rw ne refl)).1
        i j hi hj

  swap_step :
      (r1 r2 c : ℕ) (b : List ℕ)
      → r1 < n
      → r2 < n
      → c < n
      → IsDone n a
          (λ i j.
            if i == r2 then entry n a r1 j else if i == r1 then entry n a r2 j else entry n a i j)
          c
          b
      → (i j : ℕ) → i < n
      → j < n
      → entry n (set (set b (r1 * n + c) (entry n b r2 c)) (r2 * n + c) (entry n b r1 c)) i j ≡ (
          if j == c
          then if i == r2 then entry n a r1 j else if i == r1 then entry n a r2 j else entry n a i j
          else entry n b i j)
  swap_step r1 r2 c b h1 h2 hc d i j hi hj =
      entry-set (set b (r1 * n + c) (entry n b r2 c)) n r2 c (entry n b r1 c) i j hc hj (
        omega (
          arith,
          index-lt n n r2 c h2 hc,
          d.same_length,
          length-set b (r1 * n + c) (entry n b r2 c),
        ))
      ∙ ap (λ (x : ℕ). if r2 == i && c == j then entry n b r1 c else x)
          (entry-set b n r1 c (entry n b r2 c) i j hc hj
            (omega (arith, index-lt n n r1 c h1 hc, d.same_length)))
      ∙ elim (ℕ_discrete c j) [
        | yes column ↦ rw (← column) (
            ground (
              arith,
              untouched _ c b i d hi hc,
              untouched _ c b r1 d h1 hc,
              untouched _ c b r2 d h2 hc,
            ))
        | no other ↦ rw (ne→== _ _ other) (ground (arith, other))
      ]

  pub swap_rows_lem :
      (r1 r2 i j : ℕ)
      → r1 < n
      → r2 < n
      → i < n
      → j < n
      → entry n (swap_rows a r1 r2 n) i j
        ≡ (if i == r2 then entry n a r1 j else if i == r1 then entry n a r2 j else entry n a i j)
  unfolding swap_rows
  swap_rows_lem r1 r2 i j h1 h2 hi hj = elim (ℕ_discrete r1 r2) [
    | yes same ↦
        rw (same, eq→== r2 r2 refl)
          (elim (ℕ_discrete i r2) [
            | yes here ↦ rw here (ground arith)
            | no other ↦ rw (ne→== _ _ other) refl
          ])
    | no apart ↦ rw (ne→== _ _ apart) (
        (column_loop _ _
            λ c b hc d. (length-set _ _ _ ∙ length-set b _ _, swap_step r1 r2 c b h1 h2 hc d)).1
          i j hi hj)
  ]

  -- After the exchange of two rows, each of them has the entries of the other; after a scaling, the
  -- row has its products with the scale; after a subtraction, the row has its differences from the
  -- multiples of the other row; and all the other rows are as before. The matrix has n ^ 2 elements,
  -- and the rows are below n. The operations work in place.
  pub row_operations :
      (r1 r2 x i j : ℕ)
      → r1 < n
      → r2 < n
      → i < n
      → j < n
      → (entry n (swap_rows a r1 r2 n) i j
          ≡ (if i == r2 then entry n a r1 j else if i == r1 then entry n a r2 j else entry n a i j))
        × (entry n (scale_row a r1 x n) i j
            ≡ (if i == r1 then gf_mul (entry n a r1 j) x else entry n a i j))
        × (entry n (row_sub_mul a r1 r2 x n) i j ≡ (
            if i == r1 then gf_sub (entry n a r1 j) (gf_mul x (entry n a r2 j)) else entry n a i j))
  row_operations r1 r2 x i j h1 h2 hi hj = (
    swap_rows_lem r1 r2 i j h1 h2 hi hj,
    scale_row_lem r1 x i j h1 hi hj,
    row_sub_mul_lem r1 r2 x i j h1 h2 hi hj,
  )
