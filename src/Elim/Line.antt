-- ===== src/Elim/Line.antt =====
-- At corank 1 the kernel is a line: the vector that pmod_mat_right_kernel_corank1_vartime returns
-- spans it.
use native.Mathlib.Decide.{ℕ_discrete, dec_lt}
use meds2end.Base.{
  ℕ, zero, suc, ◌+◌, ◌-◌, ◌*◌, ◌≤◌, ◌<◌, ◌≡◌, ◌≢◌, refl, sym, ap, ap₂, ◌∙◌, arith, List,
}
use meds2end.Base.{at, ◌==◌, if◌then◌else◌, ◌>>=◌, none, some, >>=-eq-some}
use meds2end.Base.{ne→==, eq→==, ==→eq, inl, inr, Bool-cases}
use meds2end.Base.Congr.{Congr, Congr-of_eq, Congr-mul, Congr-cancel, Congr-mod, eq_of_Congr}
use meds2end.Base.Grid.{entry}
use meds2end.Base.Sums.{sum, sum_ext, sum_single, sum-add}
use meds2end.Params.{trine_q}
use meds2end.Field.{gf_neg, gf_mul}
use meds2end.Field.Arith.{gf_neg_lem, gf_mul_lem}
use meds2end.Matrix.{mat_vec_mul}
use meds2end.Matrix.Products.{IsReduced, max_dimension, mat_vec_mul_lem}
use meds2end.Elim.{rref_core, find_free, mat_right_kernel_corank1}
use meds2end.Elim.Images.{IsMatrix, image}
use meds2end.Elim.Kernel.{Kills, rref_core_on, rref_core_back}
use meds2end.Elim.Echelon.{IsEchelon}
use meds2end.Elim.FreeColumn.{
  marked, kernel_vector, find_free-some, marks_lem, vector_lem, vector-Kills, search_column,
  cols-ne,
}
use meds2end.Elim.Corank.{kernel_is, right_kernel_lem}
use meds2end.Elim.Reduction.{rref_core-IsStage}

-- Increasing columns that avoid two numbers c and d.
module _ (n p : ℕ) (cols a : List ℕ) (e : IsEchelon n n p cols a) where
  pub at_least : (i : ℕ) → i < p → i ≤ at cols i
  at_least zero h = omega arith
  at_least (suc i) h = omega (arith, at_least i (omega arith), e.increasing i h)

  module _ (c : ℕ) (absent : (i : ℕ) → i < p → at cols i ≢ c) where
    pub above_one : (i : ℕ) → i < p → c < at cols i → suc i ≤ at cols i
    above_one zero h above = omega arith
    above_one (suc i) h above = elim (dec_lt c (at cols i)) [
      | yes before ↦ omega (arith, above_one i (omega arith) before, e.increasing i h)
      | no below ↦ omega (arith, at_least i (omega arith), absent i (omega arith), below)
    ]

    module _ (d : ℕ) (order : c < d) (absent_d : (i : ℕ) → i < p → at cols i ≢ d) where
      above_two : (i : ℕ) → i < p → d < at cols i → suc (suc i) ≤ at cols i
      above_two zero h above = omega arith
      above_two (suc i) h above = elim (dec_lt d (at cols i)) [
        | yes before ↦ omega (arith, above_two i (omega arith) before, e.increasing i h)
        | no below ↦ elim (dec_lt c (at cols i)) [
          | yes between ↦
              omega (arith, above_one i (omega arith) between, absent_d i (omega arith), below)
          | no low ↦ omega (arith, at_least i (omega arith), absent i (omega arith), low)
        ]
      ]

      -- With n - 1 pivots there is no room for both.
      two_free : d < n → suc p ≡ n → ⊥
      two_free inside short = elim (ℕ_discrete p 0) [
        | yes none_at_all ↦ omega arith
        | no some_pivot ↦
            let last = p - 1 in
            let lt : p - 1 < p = omega arith in
            let top = e.before (p - 1) lt in
            elim (dec_lt d (at cols (p - 1))) [
              | yes high ↦ omega (arith, above_two (p - 1) lt high, top)
              | no not_high ↦ elim (dec_lt c (at cols (p - 1))) [
                | yes between ↦
                    omega (arith, above_one (p - 1) lt between, absent_d (p - 1) lt, not_high)
                | no low ↦ omega (arith, at_least (p - 1) lt, absent (p - 1) lt, low)
              ]
            ]
      ]

  -- With n - 1 pivots and the free column f, every other column has a pivot.
  covered :
      (f c : ℕ)
      → suc p ≡ n
      → f < n
      → c < n
      → c ≢ f
      → ((i : ℕ) → i < p → at cols i ≢ f)
      → (i : ℕ) × (i < p) × (at cols i ≡ c)
  covered f c short hf hc ne free = elim (search_column n p cols a e c p) [
    | inl found ↦ found
    | inr absent ↦ elim (dec_lt c f) [
      | yes below ↦ absurd (two_free c absent f below free hf short)
      | no above ↦ absurd (two_free f free c (omega (arith, above, ne)) absent hc short)
    ]
  ]

  module _ (m : IsMatrix n a) (f : ℕ) (hf : f < n) (short : suc p ≡ n)
      (free : (i : ℕ) → i < p → at cols i ≢ f) (x : ℕ → ℕ) (kills : Kills n a x) where
    abbrev only : ℕ → ℕ → ℕ → ℕ
    only place value c = if c == place then value else 0

    sum-only : (place value : ℕ) → place < n → sum n (only place value) ≡ value
    sum-only place value lt =
        sum_single n place _ lt (λ c hc ne. rw (ne→== _ _ ne) refl)
        ∙ rw (eq→== place place refl) refl

    term :
        (r c : ℕ)
        → r < p
        → c < n
        → entry n a r c * x c ≡ only (at cols r) (x (at cols r)) c + only f (entry n a r f * x f) c
    term r c hr hc = elim (ℕ_discrete c f) [
      | yes here ↦
          rw (here, eq→== f f refl, ne→== f (at cols r) (λ z. free r hr (sym z))) (omega arith)
      | no other ↦
          let (i, hi, column) = covered f c short hf hc other free in
          elim (ℕ_discrete r i) [
            | yes same ↦
                let own : at cols r ≡ c = ap (at cols) same ∙ column in
                rw
                  (
                    ← own,
                    ne→== (at cols r) f (free r hr),
                    eq→== (at cols r) _ refl,
                    e.unit r r hr (omega (arith, e.within)),
                    eq→== r r refl,
                  )
                  (omega arith)
            | no apart ↦
                rw
                  (
                    ne→== c f other,
                    ne→== c (at cols r) (λ z. apart (row_of r i hr hi (sym z ∙ sym column))),
                    ← column,
                    e.unit i r hi (omega (arith, e.within)),
                    ne→== _ _ apart,
                  )
                  (omega arith)
          ]
    ]
      where
        row_of : (j k : ℕ) → j < p → k < p → at cols j ≡ at cols k → j ≡ k
        row_of j k hj hk same = elim (ℕ_discrete j k) [
          | yes here ↦ here
          | no apart ↦ absurd (cols-ne n p cols a e j k apart hj hk same)
        ]

    row_killed : (r : ℕ) → r < p → Congr trine_q (x (at cols r) + entry n a r f * x f) 0
    row_killed r hr =
        sym (
          Congr-of_eq trine_q (image n a x r) (x (at cols r) + entry n a r f * x f) (
            sum_ext n _ _ (λ c hc. term r c hr hc)
            ∙ sum-add n (only (at cols r) (x (at cols r))) (only f (entry n a r f * x f))
            ∙ ap₂ ◌+◌ (sum-only (at cols r) _ (e.before r hr)) (sum-only f _ hf)))
        ∙ kills r (omega (arith, e.within, hr))

    -- A vector of the kernel is its element at f times the returned one.
    multiple : (c : ℕ) → c < n → Congr trine_q (x c) (x f * at (kernel_vector n p cols a f) c)
    multiple c hc =
        let (size, small, pivots, one, others) =
          vector_lem n p cols a e m f hf free p (omega arith) in
        elim (ℕ_discrete c f) [
          | yes here ↦ rw (here, one) (Congr-of_eq trine_q (x f) (x f * 1) (omega arith))
          | no other ↦
              let (i, hi, column) = covered f c short hf hc other free in
              let coefficient = entry n a i f in
              let opposite : Congr trine_q (coefficient + gf_neg coefficient) 0 =
                omega (arith, gf_neg_lem coefficient (m.reduced (i * n + f))) in
              rw (← column, pivots i hi)
                (Congr-cancel trine_q (omega arith) (x (at cols i)) (x f * gf_neg coefficient)
                  (coefficient * x f)
                  (row_killed i hi
                    ∙ sym (
                        Congr-of_eq trine_q (x f * gf_neg coefficient + coefficient * x f)
                          (x f * (coefficient + gf_neg coefficient)) (omega arith)
                        ∙ Congr-mul trine_q (x f) (x f) _ 0 refl opposite
                        ∙ Congr-of_eq trine_q (x f * 0) 0 (omega arith))))
        ]

module _ (n : ℕ) (a : List ℕ) (m : IsMatrix n a) where
  -- The kernel of the input is a line.
  pub right_kernel_line :
      {v : List ℕ}
      → 0 < n
      → mat_right_kernel_corank1 a n ≡ some v
      → (f : ℕ) × (f < n)
        × (at v f ≡ 1)
        × Kills n a (at v)
        × ((x : ℕ → ℕ) → Kills n a x → (c : ℕ) → c < n → Congr trine_q (x c) (x f * at v c))
  right_kernel_line {v} pos e =
      let s = rref_core n a none in
      let st = rref_core-IsStage n a none m in
      let p = s.pivot_row in
      elim (Bool-cases (s.pivot_row == n - 1)) [
        | inr other ↦
            let refused : mat_right_kernel_corank1 a n ≡ none = kernel_is n a m ∙ rw other refl in
            absurd (cc (sym refused ∙ e))
        | inl corank1 ↦
            let returned : (find_free (marked n s.pivot_row s.pivot_cols) n 0 >>= λ f.
            some (kernel_vector n s.pivot_row s.pivot_cols s.a f))
                ≡ some v =
              sym (kernel_is n a m ∙ rw corank1 refl) ∙ e in
            let (f, found, out) = >>=-eq-some _ _ returned in
            let same : kernel_vector n s.pivot_row s.pivot_cols s.a f ≡ v = cc out in
            let (unmarked, lt) = find_free-some (marked n p s.pivot_cols) n 0 found in
            let (size, ones, only) = marks_lem n p s.pivot_cols s.a st.echelon p (omega arith) in
            let free : (i : ℕ) → i < p → at s.pivot_cols i ≢ f =
              λ i hi z. omega (arith, ap (at (marked n p s.pivot_cols)) z, ones i hi, unmarked) in
            let hf : f < n = omega (arith, lt) in
            let (vsize, small, pivots, one, others) =
              vector_lem n p s.pivot_cols s.a st.echelon st.matrix f hf free p (omega arith) in
            rw (← same) (
              f,
              hf,
              one,
              rref_core_back n a (at (kernel_vector n p s.pivot_cols s.a f)) none m
                  (vector-Kills n p s.pivot_cols s.a st.echelon st.matrix f hf free),
              λ x k c hc.
                  multiple n p s.pivot_cols s.a st.echelon st.matrix f hf
                    (omega (arith, pos, ==→eq _ _ corank1)) free x (rref_core_on n a x none m k) c
                    hc,
            )
      ]

  -- Every vector of reduced elements whose product with the matrix is zero, as pmod_mat_vec_mul
  -- computes it, is a multiple of the vector that pmod_mat_right_kernel_corank1_vartime returns. The
  -- input is an n x n matrix of reduced elements, and n is positive and at most 2 ^ 16.
  pub right_kernel_spans :
      {v : List ℕ} (x : List ℕ)
      → 0 < n
      → n ≤ max_dimension
      → IsReduced x
      → mat_right_kernel_corank1 a n ≡ some v
      → ((i : ℕ) → i < n → at (mat_vec_mul a x n) i ≡ 0)
      → (factor : ℕ) × ((c : ℕ) → c < n → at x c ≡ gf_mul factor (at v c))
  right_kernel_spans {v} x pos bound hx e zero_product =
      let (f, hf, one, killed, line) = right_kernel_line pos e in
      let kills : Kills n a (at x) = λ i hi.
        sym (Congr-mod trine_q (image n a (at x) i))
        ∙ Congr-of_eq trine_q _ 0
            (sym (mat_vec_mul_lem n bound a x m.reduced hx i hi) ∙ zero_product i hi) in
      let small = (right_kernel_lem n a m 0 bound e pos).1 in
      (
        at x f,
        λ c hc. eq_of_Congr trine_q _ _ (hx c) (gf_mul-lt (at x f) (at v c) (hx f) (small c)) (
            line (at x) kills c hc
            ∙ sym (Congr-mod trine_q (at x f * at v c))
            ∙ Congr-of_eq trine_q _ _ (sym (gf_mul_lem (at x f) (at v c) (hx f) (small c)))),
      )
    where
      gf_mul-lt : (y z : ℕ) → y < trine_q → z < trine_q → gf_mul y z < trine_q
      gf_mul-lt y z hy hz = rw (gf_mul_lem y z hy hz) (omega arith)
