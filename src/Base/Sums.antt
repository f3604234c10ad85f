-- ===== src/Base/Sums.antt =====
-- Finite sums of natural numbers, the specification of the accumulator loops.
use Prim.Native.Nat.{ℕ, zero, suc, ◌+◌, ◌*◌, ◌<◌}
use mathlib.Core.Path.{◌≡◌, refl, sym, ap, ap₂, ◌∙◌}
use mathlib.Core.Logic.{◌≢◌}
use native.Mathlib.Omega.{arith}
use native.Mathlib.Nat.{mul-add, add-mul, mul-zero, zero-mul}
use native.Mathlib.Decide.{ℕ_discrete}

-- f 0 + f 1 + ... + f (n - 1).
unfoldable pub sum : ℕ → (ℕ → ℕ) → ℕ
sum zero f = 0
sum (suc n) f = sum n f + f n

pub sum_ext : (n : ℕ) (f g : ℕ → ℕ) → ((i : ℕ) → i < n → f i ≡ g i) → sum n f ≡ sum n g
unfolding sum
sum_ext zero f g h = refl
sum_ext (suc n) f g h = ap₂ ◌+◌ (sum_ext n f g (λ i lt. h i (omega arith))) (h n (omega arith))

pub sum-zero : (n : ℕ) → sum n (λ i. 0) ≡ 0
unfolding sum
sum-zero zero = refl
sum-zero (suc n) = omega (arith, sum-zero n)

pub sum-add : (n : ℕ) (f g : ℕ → ℕ) → sum n (λ i. f i + g i) ≡ sum n f + sum n g
unfolding sum
sum-add zero f g = refl
sum-add (suc n) f g = omega (arith, sum-add n f g)

pub sum-mul_left : (n k : ℕ) (f : ℕ → ℕ) → sum n (λ i. k * f i) ≡ k * sum n f
unfolding sum
sum-mul_left zero k f = sym (mul-zero k)
sum-mul_left (suc n) k f = ap (λ (t : ℕ). t + k * f n) (sum-mul_left n k f) ∙ sym (mul-add k _ _)

pub sum-mul_right : (n k : ℕ) (f : ℕ → ℕ) → sum n (λ i. f i * k) ≡ sum n f * k
unfolding sum
sum-mul_right zero k f = sym (zero-mul k)
sum-mul_right (suc n) k f = ap (λ (t : ℕ). t + f n * k) (sum-mul_right n k f) ∙ sym (add-mul _ _ k)

-- The order of two sums can be exchanged.
pub sum_comm :
    (n m : ℕ) (f : ℕ → ℕ → ℕ) → sum n (λ i. sum m (λ j. f i j)) ≡ sum m (λ j. sum n (λ i. f i j))
unfolding sum
sum_comm zero m f = sym (sum-zero m)
sum_comm (suc n) m f =
    ap (λ (t : ℕ). t + sum m (λ j. f n j)) (sum_comm n m f)
    ∙ sym (sum-add m (λ j. sum n (λ i. f i j)) (λ j. f n j))

pub sum_vanish : (n : ℕ) (f : ℕ → ℕ) → ((i : ℕ) → i < n → f i ≡ 0) → sum n f ≡ 0
sum_vanish n f h = sum_ext n f (λ i. 0) h ∙ sum-zero n

-- A sum with one term that is not zero.
pub sum_single : (n k : ℕ) (f : ℕ → ℕ) → k < n → ((i : ℕ) → i < n → i ≢ k → f i ≡ 0) → sum n f ≡ f k
unfolding sum
sum_single zero k f lt h = elim lt [ ]
sum_single (suc n) k f lt h = elim (ℕ_discrete n k) [
  | yes e ↦ rw (sum_vanish n f (λ i p. h i (omega arith) (omega arith)), e) (omega arith)
  | no ne ↦
      rw (h n (omega arith) ne)
        (omega (arith, sum_single n k f (omega arith) (λ i p. h i (omega arith))))
]
