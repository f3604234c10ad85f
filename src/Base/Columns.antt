-- ===== src/Base/Columns.antt =====
-- A row-major array filled column by column.
use native.Mathlib.Decide.{ℕ_discrete}
use Prim.Native.Nat.{ℕ, suc, ◌+◌, ◌*◌, ◌≤◌, ◌<◌}
use mathlib.Core.Path.{◌≡◌, refl, ◌∙◌}
use mathlib.Core.Bool.{◌&&◌, ◌||◌}
use mathlib.Core.List.{List}
use native.Mathlib.Omega.{arith}
use meds2end.Base.Tests.{ltb, ◌==◌, if◌then◌else◌, ne→==}
use meds2end.Base.Lists.{length, set, length-set, at-set-lt, at}
use meds2end.Base.Loops.{for_up, for_up_inv}
use meds2end.Base.Grid.{entry, entry-set, index-lt}

-- `for (c < w) for (r < h) a[index(r, c)] = e(r, c)`.
unfoldable pub fill_columns : ℕ → ℕ → (ℕ → ℕ → ℕ) → (ℕ → ℕ → ℕ) → List ℕ → List ℕ
fill_columns h w index e = for_up w (λ c. for_up h (λ r t. set t (index r c) (e r c)))

-- The columns before c, and of column c the rows before r, hold e.
record IsFilledBy (h w : ℕ) (e : ℕ → ℕ → ℕ) (old : List ℕ) (c r : ℕ) (t : List ℕ) : Type 0 where
  same_length : length t ≡ length old
  holds :
      (i j : ℕ)
      → i < h
      → j < w
      → entry w t i j ≡ (if ltb j c || (j == c && ltb i r) then e i j else entry w old i j)

module _ (h w : ℕ) (index e : ℕ → ℕ → ℕ) (old : List ℕ) (room : h * w ≤ length old)
    (row_major : (r c : ℕ) → index r c ≡ r * w + c) where
  columns_step :
      (c r : ℕ) (t : List ℕ)
      → c < w
      → r < h
      → IsFilledBy h w e old c r t
      → IsFilledBy h w e old c (suc r) (set t (index r c) (e r c))
  columns_step c r t hc hr f = rw (row_major r c) (record {
    same_length = length-set t (r * w + c) _ ∙ f.same_length;
    holds = λ i j hi hj.
        entry-set t w r c (e r c) i j hc hj (omega (arith, index-lt h w r c hr hc, f.same_length))
        ∙ elim (ℕ_discrete r i) [
          | yes same ↦ elim (ℕ_discrete c j) [
            | yes here ↦ rw (← same, ← here) (ground arith)
            | no other ↦ rw (ne→== _ _ other) (ground (arith, f.holds i j hi hj))
          ]
          | no rows ↦ rw (ne→== _ _ rows) (ground (arith, f.holds i j hi hj))
        ];
  })

  columns_filled : IsFilledBy h w e old w 0 (fill_columns h w index e old)
  unfolding fill_columns
  columns_filled =
      for_up_inv (λ c t. IsFilledBy h w e old c 0 t) _ w old
        (record { same_length = refl; holds = λ i j hi hj. ground arith })
        λ c t hc f.
          let column =
            for_up_inv (λ r s. IsFilledBy h w e old c r s) _ h t f
              (λ r s hr g. columns_step c r s hc hr g) in
          record {
            same_length = column.same_length;
            holds = λ i j hi hj. column.holds i j hi hj ∙ ground arith;
          }

  pub length-fill_columns : length (fill_columns h w index e old) ≡ length old
  length-fill_columns = columns_filled.same_length

  pub entry-fill_columns :
      (i j : ℕ) → i < h → j < w → entry w (fill_columns h w index e old) i j ≡ e i j
  entry-fill_columns i j hi hj = columns_filled.holds i j hi hj ∙ ground arith

-- Bounded values keep all elements bounded.
pub fill_columns-lt :
    (m h w : ℕ) (index e : ℕ → ℕ → ℕ) (old : List ℕ)
    → ((j : ℕ) → at old j < m)
    → ((r c : ℕ) → r < h → c < w → e r c < m)
    → (j : ℕ) → at (fill_columns h w index e old) j < m
unfolding fill_columns
fill_columns-lt m h w index e old ho he =
    for_up_inv (λ c a. (j : ℕ) → at a j < m) _ w old ho
      λ c a hc p.
        for_up_inv (λ r b. (j : ℕ) → at b j < m) _ h a p
          λ r b hr q. at-set-lt m b (index r c) (e r c) q (he r c hr hc)
