-- ===== src/Sign/Challenges.antt =====
-- The tests of meds.c on challenge vectors.
use native.Mathlib.Decide.{ℕ_discrete, dec_le}
use meds2end.Base.{ℕ, zero, suc, ◌+◌, ◌-◌, ◌≤◌, ◌<◌, ◌≡◌, ◌↔◌, refl, sym, ◌∙◌, arith, inl, inr}
use meds2end.Base.{Bool, true, false, ◌&&◌, some, List, at, ltb, ◌==◌}
use meds2end.Base.{if◌then◌else◌, eq→==, Bool-cases, Option-cases}
use meds2end.Params.{Params, base_seed_count}
use meds2end.Sign.{count_challenges, challenges_valid, challenges_equal}

-- How many of the first n numbers pass a test.
abbrev pub number_of : (ℕ → Bool) → ℕ → ℕ
number_of test zero = 0
number_of test (suc n) = if test n then number_of test n + 1 else number_of test n

-- The vector holds k numbers below x, and all its other r - k numbers are x.
pub record IsBalanced (p : Params) (challenges : List ℕ) : Type 0 where
  pub bounded : (i : ℕ) → i < p.r → at challenges i ≤ p.x
  pub nonbase : number_of (λ i. ltb (at challenges i) p.x) p.r ≡ p.k

module _ (p : Params) (challenges : List ℕ) where
  -- Both counters, and what remains when one of the challenges is out of range.
  counts :
      (n : ℕ)
      → ((i : ℕ) → i < n → at challenges i ≤ p.x)
      → (base : ℕ) × (count_challenges p challenges n
          ≡ some (number_of (λ i. ltb (at challenges i) p.x) n, base))
        × (number_of (λ i. ltb (at challenges i) p.x) n + base ≡ n)
  unfolding count_challenges
  counts zero h = (0, refl, omega arith)
  counts (suc n) h =
      let (base, e, total) = counts n (λ i lt. h i (omega arith)) in
      elim (Bool-cases (ltb (at challenges n) p.x)) [
        | inl below ↦ (base, rw (e, below) refl, rw below (omega (arith, total)))
        | inr other ↦
            let same : (at challenges n == p.x) ≡ true = ground (arith, h n (omega arith)) in
            (base + 1, rw (e, other, same) refl, rw other (omega (arith, total)))
      ]

  bounded_of :
      (n : ℕ) {c : ℕ × ℕ}
      → count_challenges p challenges n ≡ some c
      → (i : ℕ) → i < n
      → at challenges i ≤ p.x
  unfolding count_challenges
  bounded_of zero e i lt = elim lt [ ]
  bounded_of (suc n) e i lt = elim (Option-cases (count_challenges p challenges n)) [
    | inl none_before ↦ absurd (cc (rw (none_before) at e))
    | inr (c, before) ↦ elim (ℕ_discrete i n) [
      | yes here ↦ elim (dec_le (at challenges n) p.x) [
        | yes le ↦ rw here le
        | no gt ↦
            let not_below : ltb (at challenges n) p.x ≡ false = ground arith in
            let not_base : (at challenges n == p.x) ≡ false = ground arith in
            absurd (cc (rw (before, not_below, not_base) at e))
      ]
      | no other ↦ bounded_of n before i (omega (arith, other))
    ]
  ]

  counted :
      ((i : ℕ) → i < p.r → at challenges i ≤ p.x)
      → challenges_valid p challenges ≡ (
          number_of (λ i. ltb (at challenges i) p.x) p.r == p.k
          && p.r - number_of (λ i. ltb (at challenges i) p.x) p.r == p.r - p.k)
  unfolding challenges_valid base_seed_count
  counted h =
      let (base, e, total) = counts p.r h in
      let rest : p.r - number_of (λ i. ltb (at challenges i) p.x) p.r ≡ base =
        omega (arith, total) in
      rw (challenges_valid, e, rest) refl

  bounded_if_valid :
      challenges_valid p challenges ≡ true → (i : ℕ) → i < p.r → at challenges i ≤ p.x
  unfolding challenges_valid
  bounded_if_valid ok = elim (Option-cases (count_challenges p challenges p.r)) [
    | inl bad ↦ absurd (cc (rw (challenges_valid, bad) at ok))
    | inr (c, e) ↦ bounded_of p.r e
  ]

  -- The test of a vector of challenges passes exactly where the vector holds k numbers below x and
  -- all its other numbers are x.
  pub challenges_valid_lem : challenges_valid p challenges ≡ true ↔ IsBalanced p challenges
  challenges_valid_lem = (
    λ ok.
        let h = bounded_if_valid ok in
        let tests = sym (counted h) ∙ ok in record { bounded = h; nonbase = ground arith },
    λ b. counted b.bounded ∙ rw (b.nonbase, eq→== p.k _ refl, eq→== (p.r - p.k) _ refl) refl,
  )

-- The comparison of two vectors of challenges passes exactly where they agree at the first n places.
challenges_equal_lem :
    (a b : List ℕ) (n : ℕ) → challenges_equal a b n ≡ true ↔ ((i : ℕ) → i < n → at a i ≡ at b i)
unfolding challenges_equal
challenges_equal_lem a b zero = (λ e i lt. elim lt [ ], λ h. refl)
challenges_equal_lem a b (suc n) = (
  λ e i lt. elim (ℕ_discrete i n) [
    | yes here ↦ rw here (ground arith)
    | no other ↦ (challenges_equal_lem a b n).0 (ground arith) i (omega (arith, other))
  ],
  λ h.
      rw ((challenges_equal_lem a b n).1 (λ i lt. h i (omega arith)), eq→== _ _ (h n (omega arith)))
        refl,
)
