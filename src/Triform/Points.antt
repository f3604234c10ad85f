-- ===== src/Triform/Points.antt =====
-- Forms by their coefficients.
use native.Mathlib.Nat.{mul_assoc, mod-lt, div-add-mod', div-lt_iff_lt-mul}
use meds2end.Base.{ℕ, ◌+◌, ◌*◌, ◌/◌, ◌%◌, ◌<◌, ◌≡◌, sym, ap, subst, ◌∙◌, arith, List, at, length}
use meds2end.Base.{get_or_ext}
use meds2end.Triform.Eval.{coefficient}

-- An index of an array with h rows of length w.
split_index : (h w i : ℕ) → i < h * w → (i / w < h) × (i % w < w) × (i / w * w + i % w ≡ i)
split_index h w i lt =
    let some_room : 0 < w = grind (arith, lt) in
    (
      (div-lt_iff_lt-mul {k = w} {x = i} {y = h} some_room).1 lt,
      mod-lt i some_room,
      div-add-mod' i w,
    )

-- Two arrays of n ^ 3 elements with the same coefficients are equal.
pub form_ext :
    (n : ℕ) (x y : List ℕ)
    → length x ≡ n * n * n
    → length y ≡ n * n * n
    → ((s r c : ℕ) → s < n → r < n → c < n → coefficient n x s r c ≡ coefficient n y s r c)
    → x ≡ y
form_ext n x y lx ly h = get_or_ext 0 x y (lx ∙ sym ly) λ i lt.
    let (slice_lt, in_slice, whole) =
      split_index n (n * n) i (omega (arith, lt, lx, mul_assoc n n n)) in
    let (row_lt, col_lt, inner) = split_index n n (i % (n * n)) in_slice in
    subst (λ k. at x k ≡ at y k) (ap (λ p. i / (n * n) * (n * n) + p) inner ∙ whole)
      (h (i / (n * n)) (i % (n * n) / n) (i % (n * n) % n) slice_lt row_lt col_lt)
