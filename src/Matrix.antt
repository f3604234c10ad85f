-- ===== src/Matrix.antt =====
-- matrixmod.c: matrices over the field, row-major. A function returns the content of its output
-- region; a local array starts with zeros, and every read of it follows a write.
pub mod InPlace
pub mod Products
pub mod Systematic
pub mod Transpose
use meds2end.Base.{ℕ, zero, suc, ◌+◌, ◌-◌, ◌*◌, ◌/◌, ◌%◌, ◌^◌, ◌>>=◌, for_up, for_up?}
use meds2end.Base.{Bool, true, false, not, ◌&&◌, ◌||◌, Option, none, some, List, [], ◌∷◌}
use meds2end.Base.{ltb, leb, ◌==◌, if◌then◌else◌, length, at, set, replicate, take}
use meds2end.Base.Grid.{entry, fill, fill_vec}
use meds2end.Params.{trine_q}
use meds2end.Field.{gf_mul, gf_inv}

-- `(Fq)(acc % TRINE_q)`.
abbrev pub reduce : ℕ → ℕ
reduce acc = acc % trine_q % 2 ^ 16

-- `acc = 0; for (k < n) acc += f(k)` on uint64_t.
unfoldable pub accumulate : ℕ → (ℕ → ℕ) → ℕ
accumulate n f = for_up n (λ k acc. (acc + f k) % 2 ^ 64) 0

unfoldable pub mat_zero : ℕ → List ℕ
mat_zero n = replicate (n * n) 0

unfoldable pub mat_copy : List ℕ → ℕ → List ℕ
mat_copy src n = take (n * n) src

unfoldable pub mat_identity : ℕ → List ℕ
unfolding mat_zero
mat_identity n = for_up n (λ i a. set a (i * n + i) 1) (mat_zero n)

-- The branch for distinct arrays.
unfoldable pub mat_transpose : List ℕ → ℕ → List ℕ
mat_transpose a n =
    for_up n (λ r. for_up n (λ c t. set t (c * n + r) (entry n a r c))) (replicate (n * n) 0)

-- One swap of the branch for AT == A.
unfoldable pub transpose_swap : ℕ → ℕ → ℕ → List ℕ → List ℕ
transpose_swap n r c a =
    let tmp = entry n a r c in let a' = set a (r * n + c) (entry n a c r) in set a' (c * n + r) tmp

unfoldable pub mat_transpose_in_place : List ℕ → ℕ → List ℕ
unfolding transpose_swap
mat_transpose_in_place a n =
    for_up n (λ r. for_up (n - (r + 1)) (λ k. transpose_swap n r (r + 1 + k))) a

unfoldable pub mat_mul : List ℕ → List ℕ → ℕ → List ℕ
unfolding fill
mat_mul a b n =
    fill n n (λ r c. reduce (accumulate n (λ k. entry n a r k * entry n b k c)))
      (replicate (n * n) 0)

-- `tmp` is filled column by column, and copied to C in the same order.
unfoldable pub mat_mul_rect : List ℕ → ℕ → ℕ → List ℕ → ℕ → List ℕ → ℕ → List ℕ
unfolding accumulate
mat_mul_rect out c_r c_c a a_c b b_c =
    let tmp =
      for_up c_c
        (λ c. for_up c_r (λ r t.
          set t (r * c_c + c) (reduce (accumulate a_c (λ i. entry a_c a r i * entry b_c b i c)))))
        (replicate (c_r * c_c) 0) in
    for_up c_c (λ c. for_up c_r (λ r t. set t (c_c * r + c) (entry c_c tmp r c))) out

unfoldable pub mat_vec_mul : List ℕ → List ℕ → ℕ → List ℕ
unfolding fill_vec
mat_vec_mul a v n =
    fill_vec n (λ r. reduce (accumulate n (λ c. entry n a r c * at v c))) (replicate n 0)

unfoldable pub mat_transpose_vec_mul : List ℕ → List ℕ → ℕ → List ℕ
unfolding fill_vec
mat_transpose_vec_mul a v n =
    fill_vec n (λ c. reduce (accumulate n (λ r. entry n a r c * at v r))) (replicate n 0)

unfoldable pub mat_set_col : List ℕ → ℕ → List ℕ → ℕ → List ℕ
mat_set_col a col v n = for_up n (λ r b. set b (r * n + col) (at v r)) a

unfoldable pub mat_get_col : List ℕ → List ℕ → ℕ → ℕ → List ℕ
unfolding fill_vec
mat_get_col v a col n = fill_vec n (λ r. entry n a r col) v

unfoldable pub mat_linear_combination : List ℕ → List ℕ → ℕ → ℕ → List ℕ
unfolding fill_vec
mat_linear_combination matrices coeffs count n =
    fill_vec (n * n)
      (λ pos. reduce (accumulate count (λ i. at coeffs i * at matrices (i * n * n + pos))))
      (replicate (n * n) 0)

unfoldable pub mat_diag_scale : List ℕ → List ℕ → List ℕ → ℕ → List ℕ
unfolding fill
mat_diag_scale left_diag a right_diag n =
    fill n n (λ i j. gf_mul (gf_mul (at left_diag i) (entry n a i j)) (at right_diag j))
      (replicate (n * n) 0)
