-- ===== src/Triform/Sums.antt =====
-- Rearrangements of double sums of products, the algebra of composing linear maps.
use native.Mathlib.Nat.{mul_assoc, mul_left_comm}
use meds2end.Base.{ℕ, ◌*◌, ◌≡◌, sym, ◌∙◌, arith}
use meds2end.Base.Sums.{sum, sum_ext, sum_comm, sum-mul_left, sum-mul_right}

-- (x Y) z = x (Y z).
pub sum_assoc :
    (n m : ℕ) (x : ℕ → ℕ) (y : ℕ → ℕ → ℕ) (z : ℕ → ℕ)
    → sum n (λ c. sum m (λ k. x k * y k c) * z c) ≡ sum m (λ k. x k * sum n (λ c. y k c * z c))
sum_assoc n m x y z =
    sum_ext n _ (λ c. sum m (λ k. x k * y k c * z c)) (λ c lt. sym (sum-mul_right m (z c) _))
    ∙ sum_comm n m (λ c k. x k * y k c * z c)
    ∙ sum_ext m _ _ λ k lt.
      sum_ext n _ (λ c. x k * (y k c * z c)) (λ c lt2. mul_assoc (x k) (y k c) (z c))
      ∙ sum-mul_left n (x k) (λ c. y k c * z c)

-- u (Aᵀ t) = (A u) t.
pub sum_transpose :
    (n m : ℕ) (u : ℕ → ℕ) (a : ℕ → ℕ → ℕ) (t : ℕ → ℕ)
    → sum n (λ r. u r * sum m (λ l. a l r * t l)) ≡ sum m (λ l. sum n (λ r. a l r * u r) * t l)
sum_transpose n m u a t =
    sum_ext n _ (λ r. sum m (λ l. a l r * u r * t l))
      (λ r lt. sym (sum-mul_left m (u r) _) ∙ sum_ext m _ _ (λ l lt2. omega arith))
    ∙ sum_comm n m (λ r l. a l r * u r * t l)
    ∙ sum_ext m _ _ (λ l lt. sum-mul_right n (t l) (λ r. a l r * u r))

-- A sum of factors moves out of another.
pub sum_pull :
    (n m : ℕ) (x c : ℕ → ℕ) (t : ℕ → ℕ → ℕ)
    → sum n (λ l. x l * sum m (λ i. c i * t i l)) ≡ sum m (λ i. c i * sum n (λ l. x l * t i l))
sum_pull n m x c t =
    sum_ext n _ (λ l. sum m (λ i. c i * (x l * t i l)))
      (λ l lt.
        sym (sum-mul_left m (x l) _) ∙ sum_ext m _ _ (λ i lt2. mul_left_comm (x l) (c i) (t i l)))
    ∙ sum_comm n m (λ l i. c i * (x l * t i l))
    ∙ sum_ext m _ _ (λ i lt. sum-mul_left n (c i) (λ l. x l * t i l))
