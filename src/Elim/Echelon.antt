-- ===== src/Elim/Echelon.antt =====
-- The elimination reaches reduced row echelon form.
use native.Mathlib.Decide.{ℕ_discrete}
use meds2end.Base.{ℕ, zero, suc, ◌+◌, ◌*◌, ◌≤◌, ◌<◌, ◌≡◌, ◌≢◌, refl, ◌∙◌, arith, List}
use meds2end.Base.{length, at, ◌==◌, if◌then◌else◌}
use meds2end.Base.{ne→==, eq→==, ==→eq, ==→ne, inl, inr, Bool-cases, none, some}
use meds2end.Base.Grid.{entry}
use meds2end.Params.{trine_q}
use meds2end.Field.{gf_mul, gf_sub}
use meds2end.Field.Arith.{gf_mul_lem, gf_sub_lem}
use meds2end.Elim.{swap_rows, scale_row, row_sub_mul, find_pivot}
use meds2end.Elim.Rows.{swap_rows_lem, scale_row_lem, row_sub_mul_lem}
use meds2end.Elim.Images.{IsMatrix}

-- Reduced row echelon form of the columns before col, with p pivots: their columns increase, each of
-- them is the unit vector of its row, left of its pivot a row is zero, and from row p on these columns
-- are zero.
pub record IsEchelon (n col p : ℕ) (cols a : List ℕ) : Type 0 where
  pub pivot_size : length cols ≡ n
  pub within : p ≤ col
  pub before : (i : ℕ) → i < p → at cols i < col
  pub increasing : (i : ℕ) → suc i < p → at cols i < at cols (suc i)
  pub unit : (i r : ℕ) → i < p → r < n → entry n a r (at cols i) ≡ (if r == i then 1 else 0)
  pub leading : (i j : ℕ) → i < p → j < at cols i → entry n a i j ≡ 0
  pub clear : (r j : ℕ) → p ≤ r → r < n → j < col → entry n a r j ≡ 0

gf_mul-zero_left : (x : ℕ) → x < trine_q → gf_mul 0 x ≡ 0
gf_mul-zero_left x h = omega (arith, gf_mul_lem 0 x (omega arith) h)

gf_sub_nothing : (x f : ℕ) → x < trine_q → f < trine_q → gf_sub x (gf_mul f 0) ≡ x
gf_sub_nothing x f hx hf =
    let none_at_all : gf_mul f 0 ≡ 0 = omega (arith, gf_mul_lem f 0 hf (omega arith)) in
    rw none_at_all (omega (arith, gf_sub_lem x 0 hx (omega arith)))

pub gf_sub_whole : (x : ℕ) → x < trine_q → gf_sub x (gf_mul x 1) ≡ 0
gf_sub_whole x hx =
    let all_of_it : gf_mul x 1 ≡ x = omega (arith, gf_mul_lem x 1 hx (omega arith)) in
    rw all_of_it (omega (arith, gf_sub_lem x x hx hx))

-- The search finds a row with an element that is not zero, or there is none.
pub find_pivot-some :
    (a : List ℕ) (n col left r : ℕ) {v : ℕ}
    → find_pivot a n col left r ≡ some v
    → (r ≤ v) × (v < r + left) × (entry n a v col ≢ 0)
unfolding find_pivot
find_pivot-some a n col zero r e = absurd (cc e)
find_pivot-some a n col (suc left) r {v} e = elim (Bool-cases (entry n a r col == 0)) [
  | inl vanishes ↦
      let (low, high, ne) = find_pivot-some a n col left (r + 1) (rw vanishes at e) in
      (omega arith, omega arith, ne)
  | inr here ↦
      let same : r ≡ v = cc (rw here at e) in rw (← same) (omega arith, omega arith, ==→ne _ _ here)
]

pub find_pivot-none :
    (a : List ℕ) (n col left r k : ℕ)
    → find_pivot a n col left r ≡ none
    → r ≤ k
    → k < r + left
    → entry n a k col ≡ 0
unfolding find_pivot
find_pivot-none a n col zero r k e low high = absurd (omega arith)
find_pivot-none a n col (suc left) r k e low high = elim (Bool-cases (entry n a r col == 0)) [
  | inl vanishes ↦ elim (ℕ_discrete r k) [
    | yes here ↦ rw (← here) (==→eq _ _ vanishes)
    | no other ↦
        find_pivot-none a n col left (r + 1) k (rw vanishes at e) (omega arith) (omega arith)
  ]
  | inr here ↦ absurd (cc (rw here at e))
]

module _ (n col p : ℕ) (cols a : List ℕ) (hc : col < n) (hp : p < n)
    (e : IsEchelon n col p cols a) where
  pivot_row_zero : (i : ℕ) → i < p → entry n a p (at cols i) ≡ 0
  pivot_row_zero i lt = e.unit i p lt hp ∙ ground arith

  -- What changes only columns in which the pivot row is not zero keeps the echelon form.
  keep_columns :
      (b : List ℕ)
      → ((r c : ℕ) → r < n → c < n → entry n a p c ≡ 0 → entry n b r c ≡ entry n a r c)
      → IsEchelon n col p cols b
  keep_columns b same = record {
    pivot_size = e.pivot_size;
    within = e.within;
    before = e.before;
    increasing = e.increasing;
    unit = λ i r hi hr.
        same r (at cols i) hr (omega (arith, e.before i hi)) (pivot_row_zero i hi)
        ∙ e.unit i r hi hr;
    leading = λ i j hi hj.
        same i j (omega arith) (omega (arith, e.before i hi))
          (e.clear p j (omega arith) hp (omega (arith, e.before i hi)))
        ∙ e.leading i j hi hj;
    clear = λ r j hr hn hj.
        same r j hn (omega arith) (e.clear p j (omega arith) hp hj) ∙ e.clear r j hr hn hj;
  }

  pub swap-IsEchelon :
      (pivot : ℕ)
      → length a ≡ n * n
      → p ≤ pivot
      → pivot < n
      → IsEchelon n col p cols (swap_rows a p pivot n)
  swap-IsEchelon pivot size low high = record {
    pivot_size = e.pivot_size;
    within = e.within;
    before = e.before;
    increasing = e.increasing;
    unit = λ i r hi hr.
        swap_rows_lem n a size p pivot r (at cols i) hp high hr (omega (arith, e.before i hi))
        ∙ ground (arith, e.unit i p hi hp, e.unit i pivot hi high, e.unit i r hi hr);
    leading = λ i j hi hj.
        swap_rows_lem n a size p pivot i j hp high (omega arith) (omega (arith, e.before i hi))
        ∙ ground (arith, e.leading i j hi hj);
    clear = λ r j hr hn hj.
        swap_rows_lem n a size p pivot r j hp high hn (omega arith)
        ∙ ground (
          arith,
          e.clear p j (omega arith) hp hj,
          e.clear pivot j low high hj,
          e.clear r j hr hn hj,
        );
  }

  pub scale-IsEchelon :
      (x : ℕ) → IsMatrix n a → x < trine_q → IsEchelon n col p cols (scale_row a p x n)
  scale-IsEchelon x m hx = keep_columns _ λ r c hr hc' vanishes.
      scale_row_lem n a m.size p x r c hp hr hc' ∙ elim (ℕ_discrete r p) [
        | yes here ↦ rw (here, eq→== p p refl, vanishes) (gf_mul-zero_left x hx)
        | no other ↦ rw (ne→== _ _ other) refl
      ]

  pub sub-IsEchelon :
      (dst x : ℕ)
      → IsMatrix n a
      → dst < n
      → x < trine_q
      → IsEchelon n col p cols (row_sub_mul a dst p x n)
  sub-IsEchelon dst x m hd hx = keep_columns _ λ r c hr hc' vanishes.
      row_sub_mul_lem n a m.size dst p x r c hd hp hr hc' ∙ elim (ℕ_discrete r dst) [
        | yes here ↦
            rw (here, eq→== dst dst refl, vanishes)
              (gf_sub_nothing (entry n a dst c) x (m.reduced (dst * n + c)) hx)
        | no other ↦ rw (ne→== _ _ other) refl
      ]
