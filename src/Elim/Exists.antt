-- ===== src/Elim/Exists.antt =====
-- pmod_mat_right_kernel_corank1_vartime has a result exactly where the kernel is a line.
use native.Mathlib.Decide.{ℕ_discrete, dec_lt}
use meds2end.Base.{ℕ, zero, suc, ◌-◌, ◌*◌, ◌≤◌, ◌<◌, ◌≡◌, ◌≢◌, refl, sym, ap, ◌∙◌, arith, List}
use meds2end.Base.{at, none, some, ◌↔◌, ne→==, eq→==, inl, inr, ◌⊎◌}
use meds2end.Base.Congr.{Congr, Congr-of_eq, Congr-mul}
use meds2end.Base.Sums.{sum_single}
use meds2end.Params.{trine_q}
use meds2end.Elim.{rref_core, mat_rank, mat_right_kernel_corank1}
use meds2end.Elim.Images.{IsMatrix, image}
use meds2end.Elim.Kernel.{Kills, rref_core_on, rref_core_back}
use meds2end.Elim.Echelon.{IsEchelon}
use meds2end.Elim.FreeColumn.{
  marked, kernel_vector, find_free-some, free_column, marks_lem, vector_lem, vector-Kills,
  search_column, cols-lt, climb,
}
use meds2end.Elim.Corank.{rank_is, right_kernel_total}
use meds2end.Elim.Line.{above_one, at_least, right_kernel_line}
use meds2end.Elim.Reduction.{rref_core-IsStage}

-- The kernel consists of the multiples of y, which is not zero.
pub record IsLine (n : ℕ) (a : List ℕ) (y : ℕ → ℕ) : Type 0 where
  pub place : ℕ
  pub inside : place < n
  pub nonzero : ¬ Congr trine_q (y place) 0
  pub kills : Kills n a y
  pub spans :
      (x : ℕ → ℕ)
      → Kills n a x
      → (factor : ℕ) × ((c : ℕ) → c < n → Congr trine_q (x c) (factor * y c))

module _ (n p : ℕ) (cols a : List ℕ) (e : IsEchelon n n p cols a) where
  -- With n pivots every column has one.
  full_columns : p ≡ n → (c : ℕ) → c < n → (i : ℕ) × (i < p) × (at cols i ≡ c)
  full_columns full c hc = elim (search_column n p cols a e c p) [
    | inl found ↦ found
    | inr absent ↦
        let last : p - 1 < p = omega arith in
        let top = e.before (p - 1) last in
        elim (dec_lt c (at cols (p - 1))) [
          | yes above ↦
              absurd (omega (arith, above_one n p cols a e c absent (p - 1) last above, top))
          | no below ↦
              absurd
                (omega (arith, at_least n p cols a e (p - 1) last, absent (p - 1) last, below, top))
        ]
  ]

  full_kernel : p ≡ n → (x : ℕ → ℕ) → Kills n a x → (c : ℕ) → c < n → Congr trine_q (x c) 0
  full_kernel full x kills c hc =
      let (r, hr, column) = full_columns full c hc in
      let hn : r < n = omega arith in
      let whole : image n a x r ≡ x c =
        sum_single n c _ hc (λ d hd ne.
          let (i, hi, other) = full_columns full d hd in
          rw
            (
              ← other,
              e.unit i r hi hn,
              ne→== r i (λ z. ne (sym other ∙ ap (at cols) (sym z) ∙ column)),
            )
            (omega arith))
        ∙ rw (← column, e.unit r r hr hn, eq→== r r refl) (omega arith) in
      sym (Congr-of_eq trine_q _ _ whole) ∙ kills r hn

  below_index : (j i : ℕ) → j < p → i < p → at cols j < at cols i → j < i
  below_index j i hj hi lt = elim (dec_lt j i) [
    | yes below ↦ below
    | no above ↦ elim (ℕ_discrete j i) [
      | yes same ↦ absurd (omega (arith, ap (at cols) same, lt))
      | no apart ↦
          absurd (omega (arith, cols-lt n p cols a e i j (omega (arith, above, apart)) hj, lt))
    ]
  ]

  module _ (f : ℕ) where
    -- Where every number up to k but f is a pivot column, the row of the pivot in column k is at least
    -- k - 1.
    climb_past :
        (k : ℕ)
        → ((c : ℕ) → c ≤ k → c ≢ f → (i : ℕ) × (i < p) × (at cols i ≡ c))
        → k ≢ f
        → (i : ℕ) × (i < p) × (k ≤ suc i) × (at cols i ≡ k)
    climb_past zero all ne =
        let (i, hi, column) = all 0 (omega arith) ne in (i, hi, omega arith, column)
    climb_past (suc k) all ne =
        let (i, hi, next) = all (suc k) (omega arith) ne in
        elim (ℕ_discrete k f) [
          | no other ↦
              let (j, hj, low, column) = climb_past k (λ c h. all c (omega arith)) other in
              let order = below_index j i hj hi (omega (arith, column, next)) in
              (i, hi, omega (arith, order, low), next)
          | yes here ↦ elim (ℕ_discrete k 0) [
            | yes first ↦ (i, hi, omega (arith, first), next)
            | no later ↦
                let (j, hj, low, column) =
                  climb n p cols a e (k - 1)
                    (λ c h. all c (omega arith) (omega (arith, here, later))) in
                let order = below_index j i hj hi (omega (arith, column, next, later)) in
                (i, hi, omega (arith, order, low), next)
          ]
        ]

    search_free :
        (k : ℕ)
        → ((c : ℕ) × (c < k) × (c ≢ f) × ((i : ℕ) → i < p → at cols i ≢ c))
          ⊎ ((c : ℕ) → c < k → c ≢ f → (i : ℕ) × (i < p) × (at cols i ≡ c))
    search_free zero = inr (λ c lt. elim lt [ ])
    search_free (suc k) = elim (search_free k) [
      | inl (c, lt, ne, free) ↦ inl (c, omega arith, ne, free)
      | inr all ↦ elim (search_column n p cols a e k p) [
        | inl found ↦ inr (λ c lt ne. elim (ℕ_discrete k c) [
          | yes here ↦ rw (← here) found
          | no other ↦ all c (omega (arith, other)) ne
        ])
        | inr absent ↦ elim (ℕ_discrete k f) [
          | yes here ↦ inr (λ c lt ne. all c (omega (arith, here, ne)) ne)
          | no other ↦ inl (k, omega arith, other, absent)
        ]
      ]
    ]

    -- With at most n - 2 pivots there is a second free column.
    second_free : suc (suc p) ≤ n → (c : ℕ) × (c < n) × (c ≢ f) × ((i : ℕ) → i < p → at cols i ≢ c)
    second_free short = elim (search_free n) [
      | inl found ↦ found
      | inr all ↦ elim (ℕ_discrete (n - 1) f) [
        | no other ↦
            let (i, hi, low, column) =
              climb_past (n - 1) (λ c h. all c (omega (arith, h, short))) other in
            absurd (omega (arith, low, hi, short))
        | yes here ↦
            let (i, hi, low, column) =
              climb n p cols a e (n - 2)
                (λ c h. all c (omega (arith, h, short)) (omega (arith, here, h, short))) in
            absurd (omega (arith, low, hi, short))
      ]
    ]

-- Multiples x1 and x2 of y, where x1 is 1 at f, and x2 is 0 at f and 1 at g.
two_multiples :
    (yf yg x y : ℕ)
    → Congr trine_q 1 (x * yf)
    → Congr trine_q 0 (y * yf)
    → Congr trine_q 1 (y * yg)
    → ⊥
two_multiples yf yg x y one none_there other =
    let y_zero : Congr trine_q y 0 =
      Congr-of_eq trine_q y (y * 1) (omega arith)
      ∙ Congr-mul trine_q y y 1 (x * yf) refl one
      ∙ Congr-of_eq trine_q (y * (x * yf)) (x * (y * yf)) (omega arith)
      ∙ Congr-mul trine_q x x (y * yf) 0 refl (sym none_there)
      ∙ Congr-of_eq trine_q (x * 0) 0 (omega arith) in
    let contradiction : Congr trine_q 1 0 =
      other
      ∙ Congr-mul trine_q y 0 yg yg y_zero refl
      ∙ Congr-of_eq trine_q (0 * yg) 0 (omega arith) in
    omega (arith, contradiction)

module _ (n : ℕ) (a : List ℕ) (m : IsMatrix n a) (y : ℕ → ℕ) (line : IsLine n a y) where
  abbrev p : ℕ
  p = (rref_core n a none).pivot_row

  abbrev cols : List ℕ
  cols = (rref_core n a none).pivot_cols

  abbrev reduced : List ℕ
  reduced = (rref_core n a none).a

  echelon : IsEchelon n n p cols reduced
  echelon = (rref_core-IsStage n a none m).echelon

  matrix : IsMatrix n reduced
  matrix = (rref_core-IsStage n a none m).matrix

  -- The vector of a free column is a multiple of y.
  free_multiple :
      (f : ℕ)
      → f < n
      → ((i : ℕ) → i < p → at cols i ≢ f)
      → (factor : ℕ) × (Congr trine_q 1 (factor * y f))
        × ((c : ℕ)
            → c < n
            → c ≢ f
            → ((i : ℕ) → i < p → at cols i ≢ c)
            → Congr trine_q 0 (factor * y c))
  free_multiple f hf free =
      let (size, small, pivots, one, others) =
        vector_lem n p cols reduced echelon matrix f hf free p (omega arith) in
      let v = kernel_vector n p cols reduced f in
      let (factor, same) = line.spans (at v) (
        rref_core_back n a (at v) none m
          (vector-Kills n p cols reduced echelon matrix f hf free)) in
      (
        factor,
        Congr-of_eq trine_q 1 (at v f) (sym one) ∙ same f hf,
        λ c hc ne absent. Congr-of_eq trine_q 0 (at v c) (sym (others c ne absent)) ∙ same c hc,
      )

  not_full : p ≢ n
  not_full full = line.nonzero (
      full_kernel n p cols reduced echelon full y (rref_core_on n a y none m line.kills) line.place
        line.inside)

  not_short : ¬ (suc (suc p) ≤ n)
  not_short short =
      let (f, found) = free_column n p cols reduced echelon (omega (arith, short)) in
      let (unmarked, lt) = find_free-some (marked n p cols) n 0 found in
      let (size, ones, only) = marks_lem n p cols reduced echelon p (omega arith) in
      let free : (i : ℕ) → i < p → at cols i ≢ f =
        λ i hi z. omega (arith, ap (at (marked n p cols)) z, ones i hi, unmarked) in
      let hf : f < n = omega (arith, lt) in
      let (g, hg, apart, absent) = second_free n p cols reduced echelon f short in
      let (x, one, zeros) = free_multiple f hf free in
      let (z, other, others) = free_multiple g hg absent in
      two_multiples (y f) (y g) x z one (others f hf (λ e. apart (sym e)) free) other

  line_rank : mat_rank a n ≡ n - 1
  line_rank =
      rank_is n a m ∙ omega (arith, not_full, below_short, (rref_core-IsStage n a none m).rows)
    where
      below_short : ¬ (suc p < n)
      below_short lt = not_short (omega (arith, lt))

-- pmod_mat_right_kernel_corank1_vartime returns a vector exactly where the kernel is a line: where some
-- vector that is not zero modulo q is in the kernel, and every vector of the kernel is a multiple of it.
-- The input is an n x n matrix of reduced elements, for a positive n.
pub right_kernel-IsLine :
    (n : ℕ) (a : List ℕ)
    → IsMatrix n a
    → 0 < n
    → ((v : List ℕ) × (mat_right_kernel_corank1 a n ≡ some v)) ↔ ((y : ℕ → ℕ) × IsLine n a y)
right_kernel-IsLine n a m pos = (λ (v, e). forward v e, backward)
  where
    forward : (v : List ℕ) → mat_right_kernel_corank1 a n ≡ some v → (y : ℕ → ℕ) × IsLine n a y
    forward v e =
        let (f, hf, one, killed, line) = right_kernel_line n a m pos e in
        (
          at v,
          record {
            place = f;
            inside = hf;
            nonzero = λ z. omega (arith, z, one);
            kills = killed;
            spans = λ x k. (x f, line x k);
          },
        )

    backward : (y : ℕ → ℕ) × IsLine n a y → (v : List ℕ) × (mat_right_kernel_corank1 a n ≡ some v)
    backward (y, line) = (right_kernel_total n a m pos).1 (line_rank n a m y line)
