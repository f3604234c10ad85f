-- ===== src/Base/Grid.antt =====
-- Row-major arrays: the element at row r and column c of stride w, and the loops that fill them.
use native.Mathlib.Nat.{mul-add-mod_self_right, mod-eq_of_lt, mul-add-div_right}
use native.Mathlib.Decide.{ℕ_discrete}
use Prim.Native.Nat.{ℕ, suc, ◌+◌, ◌*◌, ◌/◌, ◌%◌, ◌≤◌, ◌<◌}
use mathlib.Core.Path.{◌≡◌, refl, sym, ap, ap₂, ◌∙◌}
use mathlib.Core.Logic.{◌≢◌}
use mathlib.Core.Bool.{Bool, ◌&&◌, ◌||◌}
use mathlib.Core.List.{List}
use native.Mathlib.Omega.{arith}
use meds2end.Base.Tests.{ltb, ◌==◌, if◌then◌else◌, eq→==, ne→==}
use meds2end.Base.Lists.{length, at, set, at-set, at-set-lt, length-set}
use meds2end.Base.Loops.{for_up, for_up_inv}

abbrev pub entry : ℕ → List ℕ → ℕ → ℕ → ℕ
entry w a r c = at a (r * w + c)

pub index-lt : (h w r c : ℕ) → r < h → c < w → r * w + c < h * w
index-lt h w r c hr hc = grind arith

pub index-div : (w r c : ℕ) → c < w → (r * w + c) / w ≡ r
index-div w r c h = mul-add-div_right {m = w} (omega arith) r c ∙ omega (arith, small)
  where
    small : c / w ≡ 0
    small = grind arith

pub index-mod : (w r c : ℕ) → c < w → (r * w + c) % w ≡ c
index-mod w r c h = mul-add-mod_self_right r w c ∙ mod-eq_of_lt h

pub index_eq :
    (w r c r' c' : ℕ) → c < w → c' < w → (r * w + c == r' * w + c') ≡ (r == r' && c == c')
index_eq w r c r' c' hc hc' = elim (ℕ_discrete (r * w + c) (r' * w + c')) [
  | yes e ↦
      let same_row : r ≡ r' =
        sym (index-div w r c hc) ∙ ap (λ (t : ℕ). t / w) e ∙ index-div w r' c' hc' in
      let same_column : c ≡ c' =
        sym (index-mod w r c hc) ∙ ap (λ (t : ℕ). t % w) e ∙ index-mod w r' c' hc' in
      rw (eq→== _ _ e, eq→== _ _ same_row, eq→== _ _ same_column)
  | no ne ↦ elim (ℕ_discrete r r') [
    | no rows ↦ rw (ne→== _ _ ne, ne→== _ _ rows)
    | yes same_row ↦
        let columns : c ≢ c' = λ e. ne (ap₂ (λ (x y : ℕ). x * w + y) same_row e) in
        rw (ne→== _ _ ne, eq→== _ _ same_row, ne→== _ _ columns)
  ]
]

-- Writing one element, seen at another.
pub entry-set :
    (a : List ℕ) (w r c v r' c' : ℕ)
    → c < w
    → c' < w
    → r * w + c < length a
    → entry w (set a (r * w + c) v) r' c' ≡ (if r == r' && c == c' then v else entry w a r' c')
entry-set a w r c v r' c' hc hc' lt =
    at-set a (r * w + c) (r' * w + c') v lt
    ∙ ap (λ (b : Bool). if b then v else entry w a r' c') (index_eq w r c r' c' hc hc')

-- `for (r < h) for (c < w) a[r * w + c] = e(r, c)`.
unfoldable pub fill : ℕ → ℕ → (ℕ → ℕ → ℕ) → List ℕ → List ℕ
fill h w e = for_up h (λ r. for_up w (λ c a. set a (r * w + c) (e r c)))

-- The elements before row r, column c hold e, and the others are those of `old`.
record IsFilled (h w : ℕ) (e : ℕ → ℕ → ℕ) (old : List ℕ) (r c : ℕ) (a : List ℕ) : Type 0 where
  same_length : length a ≡ length old
  holds :
      (i j : ℕ)
      → i < h
      → j < w
      → entry w a i j ≡ (if ltb i r || (i == r && ltb j c) then e i j else entry w old i j)

module _ (h w : ℕ) (e : ℕ → ℕ → ℕ) (old : List ℕ) (room : h * w ≤ length old) where
  fill_step :
      (r c : ℕ) (a : List ℕ)
      → r < h
      → c < w
      → IsFilled h w e old r c a
      → IsFilled h w e old r (suc c) (set a (r * w + c) (e r c))
  fill_step r c a hr hc f = record {
    same_length = length-set a (r * w + c) _ ∙ f.same_length;
    holds = λ i j hi hj.
        entry-set a w r c (e r c) i j hc hj (omega (arith, index-lt h w r c hr hc, f.same_length))
        ∙ elim (ℕ_discrete r i) [
          | yes same ↦ elim (ℕ_discrete c j) [
            | yes here ↦ rw (← same, ← here) (ground arith)
            | no other ↦ rw (ne→== _ _ other) (ground (arith, f.holds i j hi hj))
          ]
          | no rows ↦ rw (ne→== _ _ rows) (ground (arith, f.holds i j hi hj))
        ];
  }

  fill_row :
      (r : ℕ) (a : List ℕ)
      → r < h
      → IsFilled h w e old r 0 a
      → IsFilled h w e old (suc r) 0 (for_up w (λ c b. set b (r * w + c) (e r c)) a)
  fill_row r a hr f =
      let whole =
        for_up_inv (λ c b. IsFilled h w e old r c b) (λ c b. set b (r * w + c) (e r c)) w a f
          (λ c b hc g. fill_step r c b hr hc g) in
      record {
        same_length = whole.same_length;
        holds = λ i j hi hj. whole.holds i j hi hj ∙ ground arith;
      }

  filled : IsFilled h w e old h 0 (fill h w e old)
  unfolding fill
  filled =
      for_up_inv (λ r a. IsFilled h w e old r 0 a) _ h old
        (record { same_length = refl; holds = λ i j hi hj. ground arith })
        (λ r a hr f. fill_row r a hr f)

  pub length-fill : length (fill h w e old) ≡ length old
  length-fill = filled.same_length

  pub entry-fill : (i j : ℕ) → i < h → j < w → entry w (fill h w e old) i j ≡ e i j
  entry-fill i j hi hj = filled.holds i j hi hj ∙ ground arith

-- `for (i < n) a[i] = e(i)`.
unfoldable pub fill_vec : ℕ → (ℕ → ℕ) → List ℕ → List ℕ
fill_vec n e = for_up n (λ i a. set a i (e i))

filled_vec :
    (n : ℕ) (e : ℕ → ℕ) (old : List ℕ)
    → n ≤ length old
    → (length (fill_vec n e old) ≡ length old)
      × ((j : ℕ) → at (fill_vec n e old) j ≡ (if ltb j n then e j else at old j))
unfolding fill_vec
filled_vec n e old room =
    for_up_inv
      (λ i a. (length a ≡ length old) × ((j : ℕ) → at a j ≡ (if ltb j i then e j else at old j))) _
      n old (refl, λ j. ground arith)
      λ i a lt h. (
        length-set a i _ ∙ h.0,
        λ j. at-set a i j (e i) (omega (arith, h.0)) ∙ elim (ℕ_discrete i j) [
          | yes same ↦ rw (← same) (ground arith)
          | no other ↦ rw (ne→== _ _ other) (h.1 j ∙ ground arith)
        ],
      )

module _ (n : ℕ) (e : ℕ → ℕ) (old : List ℕ) (room : n ≤ length old) where
  pub length-fill_vec : length (fill_vec n e old) ≡ length old
  length-fill_vec = (filled_vec n e old room).0

  pub at-fill_vec : (j : ℕ) → j < n → at (fill_vec n e old) j ≡ e j
  at-fill_vec j lt = (filled_vec n e old room).1 j ∙ ground arith

-- Filling with bounded values keeps all elements bounded.
pub fill-lt :
    (m h w : ℕ) (e : ℕ → ℕ → ℕ) (old : List ℕ)
    → ((j : ℕ) → at old j < m)
    → ((r c : ℕ) → r < h → c < w → e r c < m)
    → (j : ℕ) → at (fill h w e old) j < m
unfolding fill
fill-lt m h w e old ho he =
    for_up_inv (λ r a. (j : ℕ) → at a j < m) _ h old ho
      λ r a hr p.
        for_up_inv (λ c b. (j : ℕ) → at b j < m) _ w a p
          λ c b hc q. at-set-lt m b (r * w + c) (e r c) q (he r c hr hc)

pub fill_vec-lt :
    (m n : ℕ) (e : ℕ → ℕ) (old : List ℕ)
    → ((j : ℕ) → at old j < m)
    → ((i : ℕ) → i < n → e i < m)
    → (j : ℕ) → at (fill_vec n e old) j < m
unfolding fill_vec
fill_vec-lt m n e old ho he =
    for_up_inv (λ i a. (j : ℕ) → at a j < m) _ n old ho
      λ i a lt p. at-set-lt m a i (e i) p (he i lt)
