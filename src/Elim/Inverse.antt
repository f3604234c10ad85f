-- ===== src/Elim/Inverse.antt =====
-- pmod_mat_inv_vartime: what it returns is an inverse.
use mathlib.Core.Option
use native.Mathlib.Nat.{mod-eq_of_lt}
use meds2end.Base.{
  ℕ, zero, suc, take, subst, ◌+◌, ◌-◌, ◌*◌, ◌≤◌, ◌<◌, ◌≡◌, ◌≢◌, refl, sym, ap, ◌∙◌, arith, List,
  set,
}
use meds2end.Base.{
  length-set, length-replicate, get_or-replicate, replicate, for_up, for_up_inv, at, ◌==◌, ltb,
  ◌&&◌, if◌then◌else◌,
}
use meds2end.Base.{
  ne→==, eq→==, ==→eq, ltb→lt, inl, inr, Bool-cases, Option-cases, Option, none, some, at-set-lt,
  not,
}
use meds2end.Base.Congr.{Congr-of_eq}
use meds2end.Base.Grid.{entry, entry-set, index-lt}
use meds2end.Base.Slices.{take_all}
use meds2end.Base.Sums.{sum_single}
use meds2end.Params.{trine_q}
use meds2end.Field.{gf_inv}
use meds2end.Field.Inverse.{gf_inv_lem}
use meds2end.Matrix.{mat_identity, mat_copy, mat_mul, mat_zero}
use meds2end.Matrix.Products.{max_dimension, mat_mul_lem}
use meds2end.Elim.{
  Elimination, swap_rows, scale_row, row_sub_mul, find_pivot, eliminate_row, apply_pivot,
  rref_column, rref_core, mat_inv_vartime,
}
use meds2end.Elim.Images.{IsMatrix}
use meds2end.Elim.Linked.{IsLinked, swap_rows-IsLinked, scale_row-IsLinked, row_sub_mul-IsLinked}
use meds2end.Elim.Echelon.{IsEchelon, find_pivot-some}
use meds2end.Elim.Reduction.{rref_core-IsStage}

gf_inv_zero : gf_inv 0 < trine_q
unfolding gf_inv
gf_inv_zero = omega arith

gf_inv-lt : (a : ℕ) → a < trine_q → gf_inv a < trine_q
gf_inv-lt zero h = gf_inv_zero
gf_inv-lt (suc a) h = (gf_inv_lem (suc a) (omega arith) h).1

-- The identity.
entry-mat_identity :
    (n i j : ℕ)
    → i < n
    → j < n
    → (entry n (mat_identity n) i j ≡ (if i == j then 1 else 0)) × IsMatrix n (mat_identity n)
unfolding mat_identity
entry-mat_identity n i j hi hj =
    let final =
      for_up_inv (λ k b. (entry n b i j ≡ (if i == j && ltb i k then 1 else 0)) × IsMatrix n b)
        (λ k b. set b (k * n + k) 1) n (replicate (n * n) 0)
        (
          get_or-replicate {A = ℕ} (n * n) (i * n + j) 0 ∙ ground arith,
          record {
            size = length-replicate {A = ℕ} (n * n) 0;
            reduced = λ x. rw (get_or-replicate {A = ℕ} (n * n) x 0) (omega arith);
          },
        )
        (λ k b hk (e, m). (
          entry-set b n k k 1 i j hk hj (omega (arith, index-lt n n k k hk hk, m.size))
              ∙ ground (arith, e),
          record {
            size = length-set b _ _ ∙ m.size;
            reduced = at-set-lt trine_q b _ 1 m.reduced (omega arith);
          },
        )) in
    (final.0 ∙ ground arith, final.1)

-- Both matrices of an elimination, linked to the first input.
abbrev Joined : ℕ → List ℕ → List ℕ × Option (List ℕ) → Type 0
Joined n start (a, rhs) = (right : List ℕ) × (rhs ≡ some right) × IsLinked n start a right

module _ (n : ℕ) (start : List ℕ) where
  eliminate_row-Joined :
      (p col r : ℕ) (s : List ℕ × Option (List ℕ))
      → p < n
      → r < n
      → Joined n start s
      → Joined n start (eliminate_row n p col r s)
  unfolding eliminate_row
  eliminate_row-Joined p col r (a, rhs) hp hr (right, e, l) = elim (Bool-cases (r == p)) [
    | inl here ↦ rw here (right, e, l)
    | inr other ↦ rw other (elim (Bool-cases (entry n a r col == 0)) [
      | inl vanishes ↦ rw vanishes (right, e, l)
      | inr more ↦ rw more (
        row_sub_mul right r p (entry n a r col) n,
        rw e refl,
        row_sub_mul-IsLinked n start a right l r p (entry n a r col) hr hp
            (l.left_matrix.reduced (r * n + col)),
      )
    ])
  ]

  apply_pivot-Joined :
      (col pivot : ℕ) (s : Elimination)
      → s.pivot_row < n
      → pivot < n
      → Joined n start (s.a, s.rhs)
      → Joined n start ((apply_pivot n col pivot s).a, (apply_pivot n col pivot s).rhs)
  unfolding apply_pivot
  apply_pivot-Joined col pivot s hp hv (right, e, l) =
      for_up_inv (λ r u. Joined n start u) (eliminate_row n s.pivot_row col) n _
        (scale_row (swap_rows right s.pivot_row pivot n) s.pivot_row inv n, rw e refl, scaled)
        (λ r u hr j. eliminate_row-Joined s.pivot_row col r u hp hr j)
    where
      a1 : List ℕ
      a1 = swap_rows s.a s.pivot_row pivot n

      inv : ℕ
      inv = gf_inv (entry n a1 s.pivot_row col)

      swapped : IsLinked n start a1 (swap_rows right s.pivot_row pivot n)
      swapped = swap_rows-IsLinked n start s.a right l s.pivot_row pivot hp hv

      scaled :
          IsLinked n start
            (scale_row a1 s.pivot_row inv n)
            (scale_row (swap_rows right s.pivot_row pivot n) s.pivot_row inv n)
      scaled =
          scale_row-IsLinked n start _ _ swapped s.pivot_row inv hp
            (gf_inv-lt _ (swapped.left_matrix.reduced (s.pivot_row * n + col)))

  rref_column-Joined :
      (col : ℕ) (s : Elimination)
      → Joined n start (s.a, s.rhs)
      → Joined n start ((rref_column n col s).a, (rref_column n col s).rhs)
  unfolding rref_column
  rref_column-Joined col s j = elim (Bool-cases (ltb s.pivot_row n)) [
    | inl more ↦ rw more (elim (Option-cases (find_pivot s.a n col (n - s.pivot_row) s.pivot_row)) [
      | inl absent ↦ rw absent j
      | inr (pivot, found) ↦
          let hp = ltb→lt _ _ more in
          let (low, high, ne) = find_pivot-some s.a n col (n - s.pivot_row) s.pivot_row found in
          rw found (apply_pivot-Joined col pivot s hp (omega arith) j)
    ])
    | inr full ↦ rw full j
  ]

  rref_core-Joined :
      (right : List ℕ)
      → IsLinked n start start right
      → Joined n start ((rref_core n start (some right)).a, (rref_core n start (some right)).rhs)
  unfolding rref_core
  rref_core-Joined right l =
      for_up_inv (λ c s. Joined n start (s.a, s.rhs)) (rref_column n) n _ (right, refl, l)
        λ c s hc j. rref_column-Joined c s j

-- Of n increasing numbers below n, each is its index.
module _ (n : ℕ) (cols a : List ℕ) (e : IsEchelon n n n cols a) where
  cols-ge : (i : ℕ) → i < n → i ≤ at cols i
  cols-ge zero h = omega arith
  cols-ge (suc i) h = omega (arith, cols-ge i (omega arith), e.increasing i h)

  cols-add-le : (i d : ℕ) → i + d < n → at cols i + d ≤ at cols (i + d)
  cols-add-le i zero h = let same : i + 0 ≡ i = omega arith in rw same (omega arith)
  cols-add-le i (suc d) h =
      let next : i + suc d ≡ suc (i + d) = omega arith in
      rw next (omega (arith, cols-add-le i d (omega arith), e.increasing (i + d) (omega arith)))

  pub cols_lem : (i : ℕ) → i < n → at cols i ≡ i
  cols_lem i h =
      let last : i + (n - 1 - i) ≡ n - 1 = omega arith in
      omega (
        arith,
        cols-ge i h,
        rw last at (cols-add-le i (n - 1 - i) (omega arith)),
        e.before (n - 1) (omega arith),
      )

module _ (n : ℕ) (a : List ℕ) (m : IsMatrix n a) where
  -- At the start the second matrix is the identity, and the product is the input.
  identity-IsLinked : IsLinked n a a (mat_identity n)
  identity-IsLinked = record {
    left_matrix = m;
    right_matrix = identity_matrix n;
    product = λ i j hi hj. Congr-of_eq trine_q _ _ (
        sum_single n i _ hi (λ k hk ne.
          rw ((entry-mat_identity n i k hi hk).0, ne→== i k (λ e. ne (sym e))) (omega arith))
        ∙ rw ((entry-mat_identity n i i hi hi).0, eq→== i i refl) (omega arith));
  }
    where
      identity_matrix : (k : ℕ) → IsMatrix k (mat_identity k)
      identity_matrix zero =
          unfold mat_identity mat_zero for_up in record { size = refl; reduced = λ i. omega arith }
      identity_matrix (suc k) = (entry-mat_identity (suc k) 0 0 (omega arith) (omega arith)).1

  mat_inv_is :
      let s = rref_core n a (some (mat_identity n)) in
      mat_inv_vartime a n
      ≡ (if not (s.pivot_row == n) then none else Option.map (λ right. take (n * n) right) s.rhs)
  unfolding mat_inv_vartime mat_copy
  mat_inv_is = rw (mat_inv_vartime, take_all (n * n) a m.size) refl

  -- The result is the second matrix, at full rank.
  pub full_rank :
      {b : List ℕ}
      → mat_inv_vartime a n ≡ some b
      → ((rref_core n a (some (mat_identity n))).pivot_row ≡ n)
        × IsLinked n a (rref_core n a (some (mat_identity n))).a b
  full_rank {b} e =
      let s = rref_core n a (some (mat_identity n)) in
      elim (Bool-cases (s.pivot_row == n)) [
        | inl full ↦
            let (right, er, l) = rref_core-Joined n a (mat_identity n) identity-IsLinked in
            let returned : some (take (n * n) right) ≡ some b =
              sym (mat_inv_is ∙ rw (full, er) refl) ∙ e in
            let same : right ≡ b = sym (take_all (n * n) right l.right_matrix.size) ∙ (cc) in
            (==→eq _ _ full, rw (← same) l)
        | inr short ↦
            let refused : mat_inv_vartime a n ≡ none = mat_inv_is ∙ rw short refl in
            absurd (cc (sym refused ∙ e))
      ]

  -- Without a result, the rank is not full.
  pub not_full_rank :
      mat_inv_vartime a n ≡ none → (rref_core n a (some (mat_identity n))).pivot_row ≢ n
  not_full_rank e full =
      let (right, er, l) = rref_core-Joined n a (mat_identity n) identity-IsLinked in
      let returned : mat_inv_vartime a n ≡ some (take (n * n) right) =
        mat_inv_is ∙ rw (eq→== _ _ full, er) refl in
      absurd (cc (sym returned ∙ e))

  -- What pmod_mat_inv_vartime returns is an n x n matrix of reduced elements, and its product with
  -- the input is the identity, as pmod_mat_mul computes it. The input is such a matrix, and n is at
  -- most 2 ^ 16.
  pub mat_mul-mat_inv :
      {b : List ℕ} (i j : ℕ)
      → n ≤ max_dimension
      → mat_inv_vartime a n ≡ some b
      → i < n
      → j < n
      → IsMatrix n b × (entry n (mat_mul b a n) i j ≡ (if i == j then 1 else 0))
  mat_mul-mat_inv {b} i j bound e hi hj =
      let s = rref_core n a (some (mat_identity n)) in
      let (full, l) = full_rank e in
      let st = rref_core-IsStage n a (some (mat_identity n)) m in
      let echelon : IsEchelon n n n s.pivot_cols s.a =
        subst (λ p. IsEchelon n n p s.pivot_cols s.a) full st.echelon in
      let reduced_form : entry n s.a i j ≡ (if i == j then 1 else 0) =
        ap (λ (c : ℕ). entry n s.a i c) (sym (cols_lem n s.pivot_cols s.a echelon j hj))
        ∙ echelon.unit j i hj hi in
      (
        l.right_matrix,
        mat_mul_lem n bound b a l.right_matrix.reduced m.reduced i j hi hj
            ∙ l.product i j hi hj
            ∙ mod-eq_of_lt (l.left_matrix.reduced (i * n + j))
            ∙ reduced_form,
      )
