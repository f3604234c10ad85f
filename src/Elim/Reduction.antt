-- ===== src/Elim/Reduction.antt =====
-- One column of the elimination, and the whole loop over the columns.
use native.Mathlib.Decide.{ℕ_discrete}
use meds2end.Base.{ℕ, suc, ◌%◌, ◌+◌, ◌-◌, ◌*◌, ◌≤◌, ◌<◌, ◌≡◌, ◌≢◌, refl, sym, ◌∙◌, arith, List, set}
use meds2end.Base.{length-set, length-replicate, for_up_inv, at, at-set, ◌==◌, ltb, if◌then◌else◌}
use meds2end.Base.{ne→==, eq→==, ==→eq, ltb→lt, inl, inr, Bool-cases, Option-cases, Option}
use meds2end.Base.Grid.{entry}
use meds2end.Params.{trine_q}
use meds2end.Field.{gf_inv}
use meds2end.Field.Arith.{gf_mul_lem}
use meds2end.Field.Inverse.{gf_inv_lem}
use meds2end.Elim.{
  Elimination, swap_rows, scale_row, row_sub_mul, find_pivot, eliminate_row, apply_pivot,
  rref_column, rref_core,
}
use meds2end.Elim.Rows.{swap_rows_lem, scale_row_lem, row_sub_mul_lem}
use meds2end.Elim.Images.{IsMatrix, scale_row-IsMatrix, row_sub_mul-IsMatrix, swap_rows-IsMatrix}
use meds2end.Elim.Echelon.{
  IsEchelon, find_pivot-some, find_pivot-none, swap-IsEchelon, scale-IsEchelon, sub-IsEchelon,
  gf_sub_whole,
}

-- The matrices of an elimination, both or the first only, at some column.
record IsCleared (n col p : ℕ) (cols : List ℕ) (k : ℕ) (a : List ℕ) : Type 0 where
  matrix : IsMatrix n a
  echelon : IsEchelon n col p cols a
  one : entry n a p col ≡ 1
  cleared : (r : ℕ) → r < k → r < n → r ≢ p → entry n a r col ≡ 0

module _ (n col p : ℕ) (cols : List ℕ) (hc : col < n) (hp : p < n) where
  -- Subtracting the pivot row from row r clears the column there.
  sub-IsCleared :
      (r : ℕ) (a : List ℕ)
      → r < n
      → r ≢ p
      → IsCleared n col p cols r a
      → IsCleared n col p cols (suc r) (row_sub_mul a r p (entry n a r col) n)
  sub-IsCleared r a hr ne s = record {
    matrix = row_sub_mul-IsMatrix n r p f a hf s.matrix;
    echelon = sub-IsEchelon n col p cols a hc hp s.echelon r f s.matrix hr hf;
    one =
        row_sub_mul_lem n a s.matrix.size r p f p col hr hp hp hc
        ∙ rw (ne→== p r (λ e. ne (sym e))) s.one;
    cleared = λ i hi hn other.
        row_sub_mul_lem n a s.matrix.size r p f i col hr hp hn hc ∙ elim (ℕ_discrete i r) [
          | yes here ↦ rw (here, eq→== r r refl, s.one) (gf_sub_whole f hf)
          | no apart ↦ rw (ne→== _ _ apart) (s.cleared i (omega (arith, apart)) hn other)
        ];
  }
    where
      f : ℕ
      f = entry n a r col

      hf : f < trine_q
      hf = s.matrix.reduced (r * n + col)

  eliminate_row-IsCleared :
      (r : ℕ) (s : List ℕ × Option (List ℕ))
      → r < n
      → IsCleared n col p cols r s.0
      → IsCleared n col p cols (suc r) (eliminate_row n p col r s).0
  unfolding eliminate_row
  eliminate_row-IsCleared r (a, rhs) hr s = elim (ℕ_discrete r p) [
    | yes here ↦ rw (eq→== r p here) (record {
      matrix = s.matrix;
      echelon = s.echelon;
      one = s.one;
      cleared = λ i hi hn other. s.cleared i (omega (arith, here, other)) hn other;
    })
    | no other ↦ rw (ne→== _ _ other) (elim (Bool-cases (entry n a r col == 0)) [
      | inl vanishes ↦ rw vanishes (record {
        matrix = s.matrix;
        echelon = s.echelon;
        one = s.one;
        cleared = λ i hi hn ne. elim (ℕ_discrete i r) [
          | yes at_r ↦ rw at_r (==→eq _ _ vanishes)
          | no apart ↦ s.cleared i (omega (arith, apart)) hn ne
        ];
      })
      | inr more ↦ rw more (sub-IsCleared r a hr other s)
    ])
  ]

  -- When all rows are cleared, the column joins the echelon form.
  cleared-IsEchelon :
      (a : List ℕ) → IsCleared n col p cols n a → IsEchelon n (suc col) (p + 1) (set cols p col) a
  cleared-IsEchelon a s = record {
    pivot_size = length-set cols p col ∙ s.echelon.pivot_size;
    within = omega (arith, s.echelon.within);
    before = λ i hi. rw (written i) (ground (arith, s.echelon.before i));
    increasing = λ i hi.
        rw (written i, written (suc i))
          (ground (arith, s.echelon.before i, s.echelon.increasing i));
    unit = λ i r hi hr. rw (written i) (elim (ℕ_discrete p i) [
      | yes here ↦ rw (eq→== p i here) (elim (ℕ_discrete r p) [
        | yes same ↦ rw (same, ← here, eq→== p p refl) s.one
        | no other ↦ rw (← here, ne→== _ _ other) (s.cleared r hr hr other)
      ])
      | no apart ↦ rw (ne→== _ _ apart) (s.echelon.unit i r (omega (arith, apart)) hr)
    ]);
    leading = λ i j hi hj. elim (ℕ_discrete p i) [
      | yes here ↦
          let left : j < col = rw (written i, eq→== p i here) at hj in
          rw (← here) (s.echelon.clear p j (omega arith) hp left)
      | no apart ↦
          let left : j < at cols i = rw (written i, ne→== _ _ apart) at hj in
          s.echelon.leading i j (omega (arith, apart)) left
    ];
    clear = λ r j hr hn hj. elim (ℕ_discrete j col) [
      | yes here ↦ rw here (s.cleared r hn hn (omega arith))
      | no other ↦ s.echelon.clear r j (omega arith) hn (omega (arith, other))
    ];
  }
    where
      written : (i : ℕ) → at (set cols p col) i ≡ (if p == i then col else at cols i)
      written i = at-set cols p i col (omega (arith, s.echelon.pivot_size))

-- The state of the elimination before a column.
pub record IsStage (n col : ℕ) (s : Elimination) : Type 0 where
  pub matrix : IsMatrix n s.a
  pub echelon : IsEchelon n col s.pivot_row s.pivot_cols s.a
  pub rows : s.pivot_row ≤ n

module _ (n col : ℕ) (hc : col < n) (s : Elimination) (hp : s.pivot_row < n) (m : IsMatrix n s.a)
    (e : IsEchelon n col s.pivot_row s.pivot_cols s.a) where
  apply_pivot-IsStage :
      (pivot : ℕ)
      → s.pivot_row ≤ pivot
      → pivot < n
      → entry n s.a pivot col ≢ 0
      → IsStage n (suc col) (apply_pivot n col pivot s)
  unfolding apply_pivot
  apply_pivot-IsStage pivot low high ne =
      let final =
        for_up_inv (λ r u. IsCleared n col s.pivot_row s.pivot_cols r u.0)
          (eliminate_row n s.pivot_row col) n _ start
          (λ r u hr k. eliminate_row-IsCleared n col s.pivot_row s.pivot_cols hc hp r u hr k) in
      record {
        matrix = final.matrix;
        echelon = cleared-IsEchelon n col s.pivot_row s.pivot_cols hc hp _ final;
        rows = omega arith;
      }
    where
      a1 : List ℕ
      a1 = swap_rows s.a s.pivot_row pivot n

      inv : ℕ
      inv = gf_inv (entry n a1 s.pivot_row col)

      m1 : IsMatrix n a1
      m1 = swap_rows-IsMatrix n s.pivot_row pivot s.a m

      here : entry n a1 s.pivot_row col ≡ entry n s.a pivot col
      here =
          swap_rows_lem n s.a m.size s.pivot_row pivot s.pivot_row col hp high hp hc ∙ ground arith

      inverse : (entry n a1 s.pivot_row col * inv % trine_q ≡ 1) × (inv < trine_q)
      inverse =
          gf_inv_lem (entry n a1 s.pivot_row col) (omega (arith, here, ne))
            (m1.reduced (s.pivot_row * n + col))

      start : IsCleared n col s.pivot_row s.pivot_cols 0 (scale_row a1 s.pivot_row inv n)
      start = record {
        matrix = scale_row-IsMatrix n s.pivot_row inv a1 inverse.1 m1;
        echelon =
            scale-IsEchelon n col s.pivot_row s.pivot_cols a1 hc hp
              (swap-IsEchelon n col s.pivot_row s.pivot_cols s.a hc hp e pivot m.size low high) inv
              m1 inverse.1;
        one =
            scale_row_lem n a1 m1.size s.pivot_row inv s.pivot_row col hp hp hc
            ∙ rw (eq→== s.pivot_row s.pivot_row refl)
                (gf_mul_lem _ inv (m1.reduced (s.pivot_row * n + col)) inverse.1 ∙ inverse.0);
        cleared = λ r hr hn other. elim hr [ ];
      }

pub rref_column-IsStage :
    (n col : ℕ) (s : Elimination)
    → col < n
    → IsStage n col s
    → IsStage n (suc col) (rref_column n col s)
unfolding rref_column
rref_column-IsStage n col s hc st = elim (Bool-cases (ltb s.pivot_row n)) [
  | inl more ↦ rw more (elim (Option-cases (find_pivot s.a n col (n - s.pivot_row) s.pivot_row)) [
    | inl absent ↦ rw absent (
        skip (λ r low high.
          find_pivot-none s.a n col (n - s.pivot_row) s.pivot_row r absent low (omega arith)))
    | inr (pivot, found) ↦
        let hp = ltb→lt _ _ more in
        let (low, high, ne) = find_pivot-some s.a n col (n - s.pivot_row) s.pivot_row found in
        rw found (apply_pivot-IsStage n col hc s hp st.matrix st.echelon pivot low (omega arith) ne)
  ])
  | inr full ↦ rw full (skip (λ r low high. absurd (ground (arith, full))))
]
  where
    skip : ((r : ℕ) → s.pivot_row ≤ r → r < n → entry n s.a r col ≡ 0) → IsStage n (suc col) s
    skip zeros = record {
      matrix = st.matrix;
      rows = st.rows;
      echelon = record {
        pivot_size = st.echelon.pivot_size;
        within = omega (arith, st.echelon.within);
        before = λ i hi. omega (arith, st.echelon.before i hi);
        increasing = st.echelon.increasing;
        unit = st.echelon.unit;
        leading = st.echelon.leading;
        clear = λ r j low high hj. elim (ℕ_discrete j col) [
          | yes here ↦ rw here (zeros r low high)
          | no other ↦ st.echelon.clear r j low high (omega (arith, other))
        ];
      };
    }

-- The elimination of a matrix of reduced elements ends, behind the last column, in reduced row
-- echelon form: `pivot_row` pivots, whose columns increase and are the unit vectors of their rows,
-- zeros left of each pivot in its row, and zero rows below.
pub rref_core-IsStage :
    (n : ℕ) (a : List ℕ) (rhs : Option (List ℕ)) → IsMatrix n a → IsStage n n (rref_core n a rhs)
unfolding rref_core
rref_core-IsStage n a rhs m =
    for_up_inv (λ col s. IsStage n col s) (rref_column n) n _
      (record {
        matrix = m;
        rows = omega arith;
        echelon = record {
          pivot_size = length-replicate {A = ℕ} n 0;
          within = omega arith;
          before = λ i hi. elim hi [ ];
          increasing = λ i hi. elim hi [ ];
          unit = λ i r hi hr. elim hi [ ];
          leading = λ i j hi hj. elim hi [ ];
          clear = λ r j hr hn hj. elim hj [ ];
        };
      })
      λ col s hc st. rref_column-IsStage n col s hc st
