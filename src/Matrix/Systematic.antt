-- ===== src/Matrix/Systematic.antt =====
-- matrixmod.c: the systematic form of an m_r x m_c matrix, m_r at most m_c.
use meds2end.Base.{ℕ, ◌+◌, ◌-◌, ◌*◌, ◌%◌, ◌^◌, ◌>>=◌, for_up, for_up?}
use meds2end.Base.{Option, none, some, List, ltb, ◌==◌, if◌then◌else◌, set}
use meds2end.Base.Grid.{entry}
use meds2end.Params.{trine_q}
use meds2end.Field.{gf_inv}

-- `target - product` on int64_t, with q added where it is negative, as an Fq.
abbrev pub difference : ℕ → ℕ → ℕ
difference target product =
    (if ltb target product then target + trine_q - product else target - product) % 2 ^ 16

-- Row r2 is added to row r, from column r on, where the pivot is 0.
unfoldable pub add_lower_row : ℕ → ℕ → ℕ → List ℕ → List ℕ
add_lower_row m_c r r2 m =
    let pivot_entry = entry m_c m r r in
    for_up (m_c - r)
      (λ k b.
        let c = r + k in
        set b (r * m_c + c)
          ((entry m_c b r c + entry m_c b r2 c * (if pivot_entry == 0 then 1 else 0)) % trine_q))
      m

-- The pivot row is normalized from column r on.
unfoldable pub normalize_row : ℕ → ℕ → ℕ → List ℕ → List ℕ
normalize_row m_c r pivot_inv m =
    for_up (m_c - r)
      (λ k b. let c = r + k in set b (r * m_c + c) (entry m_c b r c * pivot_inv % trine_q % 2 ^ 16))
      m

-- Row r is subtracted from row r2, in `count` columns from `first` on.
unfoldable pub subtract_row : ℕ → ℕ → ℕ → ℕ → ℕ → ℕ → List ℕ → List ℕ
subtract_row m_c first count r r2 factor m =
    for_up count
      (λ k b.
        let c = first + k in
        set b (r2 * m_c + c) (difference (entry m_c b r2 c) (entry m_c b r c * factor % trine_q)))
      m

-- One round of the loop over the pivots.
unfoldable pub echelon_row : ℕ → ℕ → ℕ → List ℕ → Option (List ℕ)
echelon_row m_r m_c r m =
    let summed = for_up (m_r - (r + 1)) (λ k. add_lower_row m_c r (r + 1 + k)) m in
    let pivot = entry m_c summed r r in
    if pivot == 0
    then none
    else some (
        for_up (m_r - (r + 1))
          (λ k b. subtract_row m_c r (m_c - r) r (r + 1 + k) (entry m_c b (r + 1 + k) r) b)
          (normalize_row m_c r (gf_inv pivot) summed))

-- `none` is the result -1.
unfoldable pub mat_row_echelon_ct : List ℕ → ℕ → ℕ → Option (List ℕ)
mat_row_echelon_ct m m_r m_c = for_up? m_r (echelon_row m_r m_c) m

-- One row of the back substitution: the pivot's column, then the columns behind the square part.
unfoldable pub substitute_row : ℕ → ℕ → ℕ → ℕ → List ℕ → List ℕ
substitute_row m_r m_c r r2 m =
    let factor = entry m_c m r2 r in
    subtract_row m_c m_r (m_c - m_r) r r2 factor (subtract_row m_c r 1 r r2 factor m)

unfoldable pub mat_back_substitution_ct : List ℕ → ℕ → ℕ → List ℕ
mat_back_substitution_ct m m_r m_c =
    for_up m_r (λ t. let r = m_r - 1 - t in for_up r (substitute_row m_r m_c r)) m

unfoldable pub mat_syst_ct : List ℕ → ℕ → ℕ → Option (List ℕ)
mat_syst_ct m m_r m_c = do
  echelon ← mat_row_echelon_ct m m_r m_c
  some (mat_back_substitution_ct echelon m_r m_c)
