-- ===== src/Tests/Moved.antt =====
-- canonical.c: bases of a form, and what three matrices move to them.
use meds2end.Base.{
  ℕ, zero, suc, if◌then◌else◌, false, ◌*◌, ◌%◌, ◌≡◌, refl, arith, Bool, true, List, [], ◌∷◌,
}
use meds2end.Base.{at, replicate, length-replicate, ltb, ◌==◌, ==→eq, all_below, all_below_sound}
use meds2end.Base.Grid.{entry}
use meds2end.Base.Sums.{sum}
use meds2end.Params.{trine_q}
use meds2end.Matrix.Products.{IsReduced}
use meds2end.Triform.{triform_action_pullback}
use meds2end.Triform.Pullback.Columns.{IsMoved}
use meds2end.Canon.{Bases, canonical_diagonal_normalize}
use meds2end.Canon.Invariant.{AreMoved, canonical_diagonal_normalize-pullback}
use meds2end.Tests.Canonical.{form}

abbrev a_move : List ℕ
a_move =
    1 ∷ 1 ∷ 0 ∷ 0 ∷ 0 ∷ 0 ∷ 1 ∷ 1 ∷ 0 ∷ 0 ∷ 0 ∷ 0 ∷ 1 ∷ 1 ∷ 0 ∷ 0 ∷ 0 ∷ 0 ∷ 1 ∷ 1 ∷ 0 ∷ 0 ∷ 0 ∷ 0
    ∷ 1 ∷ []

abbrev b_move : List ℕ
b_move =
    1 ∷ 0 ∷ 0 ∷ 0 ∷ 0 ∷ 2 ∷ 1 ∷ 0 ∷ 0 ∷ 0 ∷ 2 ∷ 2 ∷ 1 ∷ 0 ∷ 0 ∷ 2 ∷ 2 ∷ 2 ∷ 1 ∷ 0 ∷ 2 ∷ 2 ∷ 2 ∷ 2
    ∷ 1 ∷ []

abbrev c_move : List ℕ
c_move =
    0 ∷ 3 ∷ 0 ∷ 0 ∷ 0 ∷ 0 ∷ 0 ∷ 3 ∷ 0 ∷ 0 ∷ 0 ∷ 0 ∷ 0 ∷ 3 ∷ 0 ∷ 0 ∷ 0 ∷ 0 ∷ 0 ∷ 3 ∷ 3 ∷ 0 ∷ 0 ∷ 0
    ∷ 0 ∷ []

abbrev first_u : List ℕ
first_u =
    1 ∷ 2171 ∷ 2081 ∷ 3180 ∷ 2543 ∷ 0 ∷ 3679 ∷ 2956 ∷ 1065 ∷ 3451 ∷ 0 ∷ 887 ∷ 989 ∷ 343 ∷ 2842 ∷ 0
    ∷ 100 ∷ 755 ∷ 2723 ∷ 2431 ∷ 0 ∷ 1 ∷ 1 ∷ 1 ∷ 1 ∷ []

abbrev first_v : List ℕ
first_v =
    1 ∷ 736 ∷ 2562 ∷ 2801 ∷ 3516 ∷ 0 ∷ 926 ∷ 26 ∷ 3312 ∷ 2436 ∷ 0 ∷ 756 ∷ 2466 ∷ 3110 ∷ 3409 ∷ 0
    ∷ 2979 ∷ 2747 ∷ 1910 ∷ 1002 ∷ 0 ∷ 1 ∷ 1 ∷ 1 ∷ 1 ∷ []

abbrev first_w : List ℕ
first_w =
    4091 ∷ 2758 ∷ 2532 ∷ 3382 ∷ 3676 ∷ 1363 ∷ 429 ∷ 2787 ∷ 1877 ∷ 554 ∷ 2729 ∷ 2561 ∷ 1026 ∷ 2141
    ∷ 802 ∷ 2730 ∷ 3661 ∷ 3113 ∷ 1029 ∷ 3216 ∷ 1 ∷ 1 ∷ 1 ∷ 1 ∷ 1 ∷ []

abbrev second_u : List ℕ
second_u =
    2 ∷ 1933 ∷ 893 ∷ 2245 ∷ 2730 ∷ 0 ∷ 487 ∷ 1326 ∷ 3643 ∷ 685 ∷ 0 ∷ 2364 ∷ 1175 ∷ 3812 ∷ 439 ∷ 0
    ∷ 297 ∷ 3770 ∷ 2682 ∷ 2172 ∷ 0 ∷ 3 ∷ 5 ∷ 7 ∷ 11 ∷ []

abbrev second_v : List ℕ
second_v =
    2 ∷ 2208 ∷ 531 ∷ 3235 ∷ 1839 ∷ 4089 ∷ 2455 ∷ 3161 ∷ 342 ∷ 2653 ∷ 4 ∷ 1128 ∷ 853 ∷ 2337 ∷ 3957
    ∷ 4089 ∷ 1448 ∷ 552 ∷ 1542 ∷ 2310 ∷ 4 ∷ 1897 ∷ 2090 ∷ 1467 ∷ 3051 ∷ []

abbrev second_w : List ℕ
second_w =
    1365 ∷ 1 ∷ 1366 ∷ 2731 ∷ 1368 ∷ 1363 ∷ 2758 ∷ 127 ∷ 2434 ∷ 2564 ∷ 2273 ∷ 429 ∷ 552 ∷ 1651 ∷ 667
    ∷ 455 ∷ 2561 ∷ 1710 ∷ 2267 ∷ 212 ∷ 1820 ∷ 3661 ∷ 3824 ∷ 2401 ∷ 3606 ∷ []

-- The scaling of the columns, and its inverse.
abbrev factors : List ℕ
factors = 2 ∷ 3 ∷ 5 ∷ 7 ∷ 11 ∷ []

abbrev factor_inverses : List ℕ
factor_inverses = 2047 ∷ 2729 ∷ 2456 ∷ 2339 ∷ 3721 ∷ []

abbrev first : Bases
first = record { u = first_u; v = first_v; w = first_w }

abbrev second : Bases
second = record { u = second_u; v = second_v; w = second_w }

-- A test of all elements of an array.
abbrev all_reduced : List ℕ → Bool
all_reduced [] = true
all_reduced (x ∷ xs) = if ltb x trine_q then all_reduced xs else false

all_reduced_lem : (xs : List ℕ) → all_reduced xs ≡ true → IsReduced xs
all_reduced_lem [] h i = omega arith
all_reduced_lem (x ∷ xs) h zero = ground arith
all_reduced_lem (x ∷ xs) h (suc i) = ground (arith, all_reduced_lem xs (ground arith) i)

abbrev moves : List ℕ → List ℕ → List ℕ → ℕ → ℕ → Bool
moves a u u' l r =
    sum 5 (λ k. entry 5 a l k * entry 5 u' k r) % trine_q == entry 5 u l r * at factors r % trine_q

abbrev is_unit : ℕ → Bool
is_unit r = at factors r * at factor_inverses r % trine_q == 1

factors_unit : all_below is_unit 5 ≡ true
unfolding all_below
factors_unit = refl

moves_lem :
    (a u u' : List ℕ)
    → all_below (λ l. all_below (moves a u u' l) 5) 5 ≡ true
    → IsMoved 5 a u u' (at factors) (at factor_inverses)
moves_lem a u u' h = record {
  moved = λ l r hl hr. ==→eq _ _ (
      all_below_sound (moves a u u' l) 5
        (all_below_sound (λ i. all_below (moves a u u' i) 5) 5 h l hl) r hr);
  unit = λ r lt. ==→eq _ _ (all_below_sound is_unit 5 factors_unit r lt);
}

first-AreMoved : AreMoved 5 a_move b_move c_move first second
unfolding all_below sum
first-AreMoved = record {
  du = at factors;
  dv = at factors;
  dw = at factors;
  eu = at factor_inverses;
  ev = at factor_inverses;
  ew = at factor_inverses;
  u = moves_lem a_move first_u second_u refl;
  v = moves_lem b_move first_v second_v refl;
  w = moves_lem c_move first_w second_w refl;
}

canonical_diagonal_normalize-pullback_example :
    canonical_diagonal_normalize true 5
      (replicate 125 1)
      (triform_action_pullback (replicate 125 0) form a_move b_move c_move 5)
      second
      5
    ≡ canonical_diagonal_normalize true 5 (replicate 125 0) form first 5
canonical_diagonal_normalize-pullback_example =
    canonical_diagonal_normalize-pullback true 5 5 form a_move b_move c_move (replicate 125 0)
      (replicate 125 1) (replicate 125 0) first second (omega arith) (all_reduced_lem form refl)
      (record {
        first = all_reduced_lem a_move refl;
        second = all_reduced_lem b_move refl;
        third = all_reduced_lem c_move refl;
      })
      (record {
        first = all_reduced_lem first_u refl;
        second = all_reduced_lem first_v refl;
        third = all_reduced_lem first_w refl;
      })
      (record {
        first = all_reduced_lem second_u refl;
        second = all_reduced_lem second_v refl;
        third = all_reduced_lem second_w refl;
      })
      first-AreMoved (length-replicate {A = ℕ} 125 0) (length-replicate {A = ℕ} 125 1)
      (length-replicate {A = ℕ} 125 0)
