-- ===== src/Expand/Memory.antt =====
-- trine_expand_secret_matrix_pair_vartime with its two outputs in one array, in which they may overlap.
use meds2end.Base.{ℕ, ◌+◌, ◌*◌, ◌≤◌, ◌<◌, ◌≡◌, sym, ◌∙◌, arith, List, length}
use meds2end.Base.{Bool, true, false, not, ◌&&◌, ◌||◌, ltb, leb, ◌==◌, if◌then◌else◌}
use meds2end.Base.{Option, none, some, Bool-cases, inl, inr, ◌⊎◌}
use meds2end.Base.Grid.{entry}
use meds2end.Base.Run.{Run, done, failed, ◌>>=◌, >>=-eq-done}
use meds2end.Base.Slices.{
  slice, write_at, length-write_at, slice-write_at_self, slice-write_at_apart,
}
use meds2end.Params.{Params}
use meds2end.Xof.{Shake}
use meds2end.Matrix.{mat_mul}
use meds2end.Matrix.Products.{max_dimension}
use meds2end.Elim.Images.{IsMatrix}
use meds2end.Expand.{Role, expand_secret_matrix_pair}
use meds2end.Expand.Pairs.{expand_secret_matrix_pair_lem}

-- A pointer into the array, `none` for NULL.
abbrev pub is_absent : Option ℕ → Bool
is_absent none = true
is_absent (some place) = false

-- The addresses are those of elements of one array, so that a size of 2 bytes cancels.
unfoldable pub ranges_overlap : Option ℕ → Option ℕ → ℕ → Bool
ranges_overlap none b count = false
ranges_overlap (some a) none count = false
ranges_overlap (some a) (some b) count = ltb a (b + count) && ltb b (a + count)

unfoldable pub put : Option ℕ → List ℕ → List ℕ → List ℕ
put none values memory = memory
put (some place) values memory = write_at memory place values

module _ (sh : Shake) (p : Params) (fuel : ℕ) where
  -- The content of the array after the call.
  unfoldable pub expand_pair_into :
      List ℕ → Option ℕ → Option ℕ → List ℕ → Role → ℕ → ℕ → Run (List ℕ)
  expand_pair_into memory out_matrix out_inverse secret_seed role index n =
      if is_absent out_matrix && is_absent out_inverse
      then failed
      else if (ltb n 1 || ltb p.n n) || leb p.x index
      then failed
      else if ranges_overlap out_matrix out_inverse (n * n)
      then failed
      else (do
        (matrix, inverse) ←
            expand_secret_matrix_pair sh p fuel (not (is_absent out_inverse)) secret_seed role index
              n
        done (put out_inverse inverse (put out_matrix matrix memory)))

  -- Where the call succeeds with both outputs in one array, the array holds in the two places an n x n
  -- matrix of reduced elements and one whose product with it is the identity: neither output has
  -- overwritten the other. The array has room in both places, and n is at most 2 ^ 16.
  pub expand_pair_into_lem :
      (memory secret_seed : List ℕ) (a b index n i j : ℕ) (role : Role) {after : List ℕ}
      → n ≤ max_dimension
      → a + n * n ≤ length memory
      → b + n * n ≤ length memory
      → expand_pair_into memory (some a) (some b) secret_seed role index n ≡ done after
      → i < n
      → j < n
      → IsMatrix n (slice after a (n * n))
        × IsMatrix n (slice after b (n * n))
        × (entry n (mat_mul (slice after b (n * n)) (slice after a (n * n)) n) i j
            ≡ (if i == j then 1 else 0))
  unfolding expand_pair_into ranges_overlap put
  expand_pair_into_lem memory secret_seed a b index n i j role {after} bound room_a room_b e hi hj =
      elim (Bool-cases ((ltb n 1 || ltb p.n n) || leb p.x index)) [
        | inl refused ↦ absurd (cc (rw refused at e))
        | inr fine ↦ elim (Bool-cases (ltb a (b + n * n) && ltb b (a + n * n))) [
          | inl overlap ↦ absurd (cc (rw (fine, overlap) at e))
          | inr apart ↦
              let ((matrix, inverse), expanded, written) =
                >>=-eq-done (expand_secret_matrix_pair sh p fuel true secret_seed role index n) both
                  (rw (fine, apart) at e) in
              let same : write_at (write_at memory a matrix) b inverse ≡ after = cc written in
              let (m, m', identity) =
                expand_secret_matrix_pair_lem sh p fuel index n i j secret_seed role bound expanded
                  hi hj in
              let first : slice (write_at (write_at memory a matrix) b inverse) a (n * n) ≡ matrix =
                slice-write_at_apart (write_at memory a matrix) b inverse a (n * n)
                  (omega (arith, room_b, m'.size, length-write_at memory a matrix))
                  (omega (arith, room_a, length-write_at memory a matrix))
                  (rw m'.size (disjoint a b (n * n) apart))
                ∙ slice-write_at_self memory a matrix (n * n) (sym m.size) room_a in
              let second : slice (write_at (write_at memory a matrix) b inverse) b (n * n)
                  ≡ inverse =
                slice-write_at_self (write_at memory a matrix) b inverse (n * n) (sym m'.size)
                  (omega (arith, room_b, length-write_at memory a matrix)) in
              rw (← same, first, second) (m, m', identity)
        ]
      ]
    where
      both : List ℕ × List ℕ → Run (List ℕ)
      both pair = done (write_at (write_at memory a pair.0) b pair.1)

      disjoint :
          (x y size : ℕ)
          → (ltb x (y + size) && ltb y (x + size)) ≡ false
          → (x + size ≤ y) ⊎ (y + size ≤ x)
      disjoint x y size e = elim (Bool-cases (ltb x (y + size))) [
        | inl below ↦ inl (ground (arith, below, e))
        | inr above ↦ inr (ground (arith, above))
      ]
