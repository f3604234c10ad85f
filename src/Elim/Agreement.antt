-- ===== src/Elim/Agreement.antt =====
-- The second matrix does not influence the first: rank, inverse and the test for invertibility agree.
use meds2end.Base.{ℕ, ◌+◌, ◌-◌, ◌*◌, ◌≡◌, ◌↔◌, refl, sym, ap, ◌∙◌, List}
use meds2end.Base.{
  for_up_rel, ◌==◌, ltb, inl, inr, Bool-cases, Option-cases, Option, none, some, true, false, ==→eq,
  eq→==,
}
use meds2end.Base.Grid.{entry}
use meds2end.Base.Slices.{take_all}
use meds2end.Matrix.{mat_copy, mat_identity}
use meds2end.Elim.{
  Elimination, find_pivot, eliminate_row, apply_pivot, rref_column, rref_core, mat_rank,
  mat_is_invertible, mat_inv_vartime,
}
use meds2end.Elim.Images.{IsMatrix}
use meds2end.Elim.Inverse.{not_full_rank, full_rank}

-- Two states that differ at most in the second matrix.
record Agree (s t : Elimination) : Type 0 where
  same_a : s.a ≡ t.a
  same_row : s.pivot_row ≡ t.pivot_row
  same_cols : s.pivot_cols ≡ t.pivot_cols

eliminate_row_agree :
    (n p col r : ℕ) (u v : List ℕ × Option (List ℕ))
    → u.0 ≡ v.0
    → (eliminate_row n p col r u).0 ≡ (eliminate_row n p col r v).0
unfolding eliminate_row
eliminate_row_agree n p col r (a, x) (b, y) e = rw e (elim (Bool-cases (r == p)) [
  | inl here ↦ rw here refl
  | inr other ↦ rw other (elim (Bool-cases (entry n b r col == 0)) [
    | inl vanishes ↦ rw vanishes refl
    | inr more ↦ rw more refl
  ])
])

apply_pivot-Agree :
    (n col pivot : ℕ) (s t : Elimination)
    → Agree s t
    → Agree (apply_pivot n col pivot s) (apply_pivot n col pivot t)
unfolding apply_pivot
apply_pivot-Agree n col pivot s t h = record {
  same_a =
      rw (h.same_row, h.same_a)
        (for_up_rel (λ u v. u.0 ≡ v.0) (eliminate_row n t.pivot_row col)
          (eliminate_row n t.pivot_row col) n _ _ refl
          λ r u v hr e. eliminate_row_agree n t.pivot_row col r u v e);
  same_row = ap (λ (p : ℕ). p + 1) h.same_row;
  same_cols = rw (h.same_row, h.same_cols) refl;
}

rref_column-Agree :
    (n col : ℕ) (s t : Elimination) → Agree s t → Agree (rref_column n col s) (rref_column n col t)
unfolding rref_column
rref_column-Agree n col s t h = elim (Bool-cases (ltb t.pivot_row n)) [
  | inl more ↦
      let more_s : ltb s.pivot_row n ≡ true = rw (h.same_row) more in
      rw (more_s, more)
        (elim (Option-cases (find_pivot t.a n col (n - t.pivot_row) t.pivot_row)) [
          | inl absent ↦
              let absent_s : find_pivot s.a n col (n - s.pivot_row) s.pivot_row ≡ none =
                rw (h.same_row, h.same_a) absent in
              rw (absent_s, absent) h
          | inr (pivot, found) ↦
              let found_s : find_pivot s.a n col (n - s.pivot_row) s.pivot_row ≡ some pivot =
                rw (h.same_row, h.same_a) found in
              rw (found_s, found) (apply_pivot-Agree n col pivot s t h)
        ])
  | inr full ↦ let full_s : ltb s.pivot_row n ≡ false = rw (h.same_row) full in rw (full_s, full) h
]

rref_core-Agree :
    (n : ℕ) (a : List ℕ) (x y : Option (List ℕ)) → Agree (rref_core n a x) (rref_core n a y)
unfolding rref_core
rref_core-Agree n a x y =
    for_up_rel Agree (rref_column n) (rref_column n) n _ _
      (record { same_a = refl; same_row = refl; same_cols = refl })
      λ col s t hc h. rref_column-Agree n col s t h

-- pmod_mat_inv_vartime has a result exactly where pmod_mat_is_invertible_vartime says so, for an
-- n x n matrix of reduced elements.
pub is_invertible-iff-mat_inv :
    (n : ℕ) (a : List ℕ)
    → IsMatrix n a
    → (mat_is_invertible a n ≡ true) ↔ ((b : List ℕ) × (mat_inv_vartime a n ≡ some b))
unfolding mat_is_invertible mat_rank mat_copy
is_invertible-iff-mat_inv n a m = (
  λ yes_it_is. elim (Option-cases (mat_inv_vartime a n)) [
    | inl none_at_all ↦
        absurd (not_full_rank n a m none_at_all (sym same ∙ ==→eq _ _ (sym is_full ∙ yes_it_is)))
    | inr result ↦ result
  ],
  λ (b, e). is_full ∙ eq→== _ _ (same ∙ (full_rank n a m e).0),
)
  where
    same : (rref_core n a none).pivot_row ≡ (rref_core n a (some (mat_identity n))).pivot_row
    same = (rref_core-Agree n a none (some (mat_identity n))).same_row

    is_full : mat_is_invertible a n ≡ ((rref_core n a none).pivot_row == n)
    is_full = rw (mat_is_invertible, mat_rank, take_all (n * n) a m.size) refl
