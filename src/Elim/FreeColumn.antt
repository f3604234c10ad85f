-- ===== src/Elim/FreeColumn.antt =====
-- A reduced matrix with fewer pivots than columns has a column without a pivot, and that column
-- gives a vector of the kernel.
use native.Mathlib.Decide.{ℕ_discrete, dec_lt}
use meds2end.Base.{
  ℕ, zero, suc, ◌+◌, ◌-◌, ◌*◌, ◌≤◌, ◌<◌, ◌≡◌, ◌≢◌, refl, sym, ap, ap₂, ◌∙◌, arith, List, set,
}
use meds2end.Base.{
  length, length-set, length-replicate, get_or-replicate, replicate, for_up, at, at-set, ◌==◌,
  if◌then◌else◌,
}
use meds2end.Base.{
  ne→==, eq→==, ==→eq, ==→ne, inl, inr, ◌⊎◌, Bool-cases, Option-cases, none, some, at-set-lt,
}
use meds2end.Base.Congr.{Congr-of_eq}
use meds2end.Base.Grid.{entry}
use meds2end.Base.Sums.{sum, sum_ext, sum_single, sum-add, sum_vanish}
use meds2end.Params.{trine_q}
use meds2end.Field.{gf_neg}
use meds2end.Field.Arith.{gf_neg_lem}
use meds2end.Matrix.Products.{IsReduced}
use meds2end.Elim.{find_free}
use meds2end.Elim.Images.{IsMatrix}
use meds2end.Elim.Kernel.{Kills}
use meds2end.Elim.Echelon.{IsEchelon}

-- The loop that marks the pivot columns, and the one that fills the vector.
abbrev pub marked : ℕ → ℕ → List ℕ → List ℕ
marked n p cols = for_up p (λ i marks. set marks (at cols i) 1) (replicate n 0)

abbrev pub kernel_vector : ℕ → ℕ → List ℕ → List ℕ → ℕ → List ℕ
kernel_vector n p cols a free =
    for_up p (λ i kernel. set kernel (at cols i) (gf_neg (entry n a i free)))
      (set (replicate n 0) free 1)

pub find_free-some :
    (marks : List ℕ) (left c : ℕ) {f : ℕ}
    → find_free marks left c ≡ some f
    → (at marks f ≡ 0) × (f < c + left)
unfolding find_free
find_free-some marks zero c e = absurd (cc e)
find_free-some marks (suc left) c {f} e = elim (Bool-cases (at marks c == 0)) [
  | inl unmarked ↦
      let same : c ≡ f = cc (rw unmarked at e) in rw (← same) (==→eq _ _ unmarked, omega arith)
  | inr taken ↦ let (z, lt) = find_free-some marks left (c + 1) (rw taken at e) in (z, omega arith)
]

pub find_free-none :
    (marks : List ℕ) (left c k : ℕ)
    → find_free marks left c ≡ none
    → c ≤ k
    → k < c + left
    → at marks k ≢ 0
unfolding find_free
find_free-none marks zero c k e low high = absurd (omega arith)
find_free-none marks (suc left) c k e low high = elim (Bool-cases (at marks c == 0)) [
  | inl unmarked ↦ absurd (cc (rw unmarked at e))
  | inr taken ↦ elim (ℕ_discrete c k) [
    | yes here ↦ rw (← here) (==→ne _ _ taken)
    | no other ↦ find_free-none marks left (c + 1) k (rw taken at e) (omega arith) (omega arith)
  ]
]

module _ (n p : ℕ) (cols a : List ℕ) (e : IsEchelon n n p cols a) where
  pub cols-lt : (i j : ℕ) → i < j → j < p → at cols i < at cols j
  cols-lt i zero lt hj = elim lt [ ]
  cols-lt i (suc j) lt hj = elim (ℕ_discrete i j) [
    | yes here ↦ rw here (e.increasing j hj)
    | no other ↦
        omega (arith, other, cols-lt i j (omega (arith, other)) (omega arith), e.increasing j hj)
  ]

  pub cols-ne : (i j : ℕ) → i ≢ j → i < p → j < p → at cols i ≢ at cols j
  cols-ne i j ne hi hj same = elim (dec_lt i j) [
    | yes below ↦ omega (arith, same, cols-lt i j below hj)
    | no above ↦ omega (arith, same, cols-lt j i (omega (arith, above, ne)) hi)
  ]

  -- A number is one of the first k pivot columns, or none of them.
  pub search_column :
      (c k : ℕ) → ((i : ℕ) × (i < k) × (at cols i ≡ c)) ⊎ ((i : ℕ) → i < k → at cols i ≢ c)
  search_column c zero = inr (λ i lt. elim lt [ ])
  search_column c (suc k) = elim (ℕ_discrete (at cols k) c) [
    | yes here ↦ inl (k, omega arith, here)
    | no other ↦ elim (search_column c k) [
      | inl (i, lt, same) ↦ inl (i, omega arith, same)
      | inr absent ↦ inr (λ i lt same. elim (ℕ_discrete i k) [
        | yes last ↦ other (ap (at cols) (sym last) ∙ same)
        | no earlier ↦ absent i (omega (arith, earlier)) same
      ])
    ]
  ]

  -- Exactly the pivot columns are marked.
  pub marks_lem :
      (k : ℕ)
      → k ≤ p
      → (length (marked n k cols) ≡ n)
        × ((i : ℕ) → i < k → at (marked n k cols) (at cols i) ≡ 1)
        × ((c : ℕ) → at (marked n k cols) c ≢ 0 → (i : ℕ) × (i < k) × (at cols i ≡ c))
  unfolding for_up
  marks_lem zero h = (
    length-replicate {A = ℕ} n 0,
    λ i lt. elim lt [ ],
    λ c ne. absurd (ne (get_or-replicate {A = ℕ} n c 0)),
  )
  marks_lem (suc k) h =
      let (size, ones, only) = marks_lem k (omega arith) in
      let written = λ (c : ℕ).
        at-set (marked n k cols) (at cols k) c 1 (omega (arith, size, e.before k (omega arith))) in
      (
        length-set (marked n k cols) (at cols k) 1 ∙ size,
        λ i lt. written (at cols i) ∙ (elim (ℕ_discrete k i) [
          | yes here ↦ rw (eq→== _ _ (ap (at cols) here)) refl
          | no other ↦
              rw (ne→== _ _ (cols-ne k i other (omega arith) (omega arith)))
                (ones i (omega (arith, other)))
        ]),
        λ c ne. elim (ℕ_discrete (at cols k) c) [
          | yes here ↦ (k, omega arith, here)
          | no other ↦
              let (i, lt, same) = only c (λ z. ne (written c ∙ rw (ne→== _ _ other) z)) in
              (i, omega arith, same)
        ],
      )

  -- Where every number up to k is a pivot column, the row of the pivot in column k is at least k.
  pub climb :
      (k : ℕ)
      → ((c : ℕ) → c ≤ k → (i : ℕ) × (i < p) × (at cols i ≡ c))
      → (i : ℕ) × (i < p) × (k ≤ i) × (at cols i ≡ k)
  climb zero all = let (i, lt, same) = all 0 (omega arith) in (i, lt, omega arith, same)
  climb (suc k) all =
      let (j, hj, low, column) = climb k (λ c h. all c (omega arith)) in
      let (i, hi, next) = all (suc k) (omega arith) in
      elim (dec_lt j i) [
        | yes above ↦ (i, hi, omega arith, next)
        | no below ↦ elim (ℕ_discrete j i) [
          | yes same ↦ absurd (omega (arith, ap (at cols) same, column, next))
          | no other ↦
              absurd (omega (arith, column, next, cols-lt i j (omega (arith, below, other)) hj))
        ]
      ]

  pub free_column : p < n → (f : ℕ) × (find_free (marked n p cols) n 0 ≡ some f)
  free_column short = elim (Option-cases (find_free (marked n p cols) n 0)) [
    | inl absent ↦
        let (i, hi, low, column) = climb (n - 1) λ c h.
          (marks_lem p (omega arith)).2 c
            (find_free-none (marked n p cols) n 0 c absent (omega arith) (omega arith)) in
        absurd (omega arith)
    | inr found ↦ found
  ]

  module _ (m : IsMatrix n a) (f : ℕ) (hf : f < n) (free : (i : ℕ) → i < p → at cols i ≢ f) where
    pub vector_lem :
        (k : ℕ)
        → k ≤ p
        → (length (kernel_vector n k cols a f) ≡ n)
          × IsReduced (kernel_vector n k cols a f)
          × ((i : ℕ) → i < k → at (kernel_vector n k cols a f) (at cols i) ≡ gf_neg (entry n a i f))
          × (at (kernel_vector n k cols a f) f ≡ 1)
          × ((c : ℕ)
              → c ≢ f
              → ((i : ℕ) → i < k → at cols i ≢ c)
              → at (kernel_vector n k cols a f) c ≡ 0)
    unfolding for_up
    vector_lem zero h = (
      length-set (replicate n 0) f 1 ∙ size,
      at-set-lt trine_q (replicate n 0) f 1 (λ c. rw (get_or-replicate {A = ℕ} n c 0) (omega arith))
          (omega arith),
      λ i lt. elim lt [ ],
      start f ∙ rw (eq→== f f refl) refl,
      λ c ne none_yet. start c ∙ rw (ne→== f c (λ e. ne (sym e))) (get_or-replicate {A = ℕ} n c 0),
    )
      where
        size : length (replicate {A = ℕ} n 0) ≡ n
        size = length-replicate {A = ℕ} n 0

        start :
            (c : ℕ) → at (set (replicate n 0) f 1) c ≡ (if f == c then 1 else at (replicate n 0) c)
        start c = at-set (replicate n 0) f c 1 (omega (arith, size))
    vector_lem (suc k) h =
        let (size, small, pivots, one, others) = vector_lem k (omega arith) in
        let v = kernel_vector n k cols a f in
        let written = λ (c : ℕ).
          at-set v (at cols k) c (gf_neg (entry n a k f))
            (omega (arith, size, e.before k (omega arith))) in
        (
          length-set v _ _ ∙ size,
          at-set-lt trine_q v _ _ small
              (omega (arith, gf_neg_lem (entry n a k f) (m.reduced (k * n + f)))),
          λ i lt. written (at cols i) ∙ (elim (ℕ_discrete k i) [
            | yes here ↦ rw (here, eq→== (at cols i) _ refl) refl
            | no other ↦
                rw (ne→== _ _ (cols-ne k i other (omega arith) (omega arith)))
                  (pivots i (omega (arith, other)))
          ]),
          written f ∙ rw (ne→== _ _ (free k (omega arith))) one,
          λ c ne none_yet.
              written c
              ∙ rw (ne→== _ _ (none_yet k (omega arith)))
                  (others c ne (λ i lt. none_yet i (omega arith))),
        )

    pick : ℕ → ℕ → ℕ → ℕ
    pick at_place value c = if c == at_place then value else 0

    sum-pick : (place value : ℕ) → place < n → sum n (pick place value) ≡ value
    unfolding pick
    sum-pick place value lt =
        sum_single n place _ lt (λ c hc ne. rw (ne→== _ _ ne) refl)
        ∙ rw (eq→== place place refl) refl

    -- A term of row r of the product: the free column, and the pivot column of the row, remain.
    term :
        (r c : ℕ)
        → r < p
        → c < n
        → entry n a r c * at (kernel_vector n p cols a f) c
          ≡ pick f (entry n a r f) c + pick (at cols r) (gf_neg (entry n a r f)) c
    unfolding pick
    term r c hr hc =
        let (size, small, pivots, one, others) = vector_lem p (omega arith) in
        let hn : r < n = omega (arith, e.within) in
        elim (ℕ_discrete c f) [
          | yes here ↦
              rw (here, one, eq→== f f refl, ne→== f (at cols r) (λ z. free r hr (sym z)))
                (omega arith)
          | no other ↦ elim (search_column c p) [
            | inl (i, hi, column) ↦ elim (ℕ_discrete r i) [
              | yes same ↦
                  let own : at cols r ≡ c = ap (at cols) same ∙ column in
                  rw
                    (
                      ← own,
                      ne→== (at cols r) f (free r hr),
                      eq→== (at cols r) _ refl,
                      pivots r hr,
                      e.unit r r hr hn,
                      eq→== r r refl,
                    )
                    (omega arith)
              | no apart ↦
                  rw
                    (
                      ← column,
                      ne→== (at cols i) f (free i hi),
                      ne→== _ _ (cols-ne i r (λ z. apart (sym z)) hi hr),
                      e.unit i r hi hn,
                      ne→== _ _ apart,
                    )
                    (omega arith)
            ]
            | inr absent ↦
                rw
                  (
                    others c other absent,
                    ne→== _ _ other,
                    ne→== c (at cols r) (λ z. absent r hr (sym z)),
                  )
                  (omega arith)
          ]
        ]

    -- The vector is in the kernel of the reduced matrix.
    pub vector-Kills : Kills n a (at (kernel_vector n p cols a f))
    vector-Kills r hr = elim (dec_lt r p) [
      | yes pivot_row ↦
          Congr-of_eq trine_q _ (entry n a r f + gf_neg (entry n a r f)) (
            sum_ext n _ _ (λ c hc. term r c pivot_row hc)
            ∙ sum-add n (pick f (entry n a r f)) (pick (at cols r) (gf_neg (entry n a r f)))
            ∙ ap₂ ◌+◌ (sum-pick f _ hf) (sum-pick (at cols r) _ (e.before r pivot_row)))
          ∙ omega (arith, gf_neg_lem (entry n a r f) (m.reduced (r * n + f)))
      | no zero_row ↦
          Congr-of_eq trine_q _ 0
            (sum_vanish n _ λ c hc. rw (e.clear r c (omega (arith, zero_row)) hr hc) (omega arith))
    ]
