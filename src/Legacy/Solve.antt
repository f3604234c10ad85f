-- ===== src/Legacy/Solve.antt =====
-- util.c, solve: two matrices from the first two slices of a form. TRINE_n is n, and `width` is the
-- number of columns of M.
use meds2end.Base.{ℕ, ◌+◌, ◌-◌, ◌*◌, ◌%◌, ◌^◌, ◌>>=◌, for_up}
use meds2end.Base.{
  Option, none, some, List, leb, ◌==◌, if◌then◌else◌, at, set, replicate, take, drop,
}
use meds2end.Base.Grid.{entry}
use meds2end.Base.Slices.{slice}
use meds2end.Params.{trine_q}
use meds2end.Field.{gf_inv}
use meds2end.Matrix.Systematic.{subtract_row, mat_syst_ct}

-- `(TRINE_q - x) % TRINE_q` on int, as an Fq.
abbrev negated : ℕ → ℕ
negated x =
    if leb x trine_q then (trine_q - x) % trine_q else (2 ^ 16 - (x - trine_q) % trine_q) % 2 ^ 16

unfoldable pub width : ℕ → ℕ
width n = n + n + 2

-- The array N.
unfoldable pub negated_transpose : List ℕ → ℕ → List ℕ
negated_transpose p0 n =
    for_up n (λ i. for_up n (λ j t. set t (j * n + i) (negated (at p0 (i * n + j)))))
      (replicate (n * n) 0)

-- The array M, before it is reduced: two blocks and two columns.
unfoldable pub system : List ℕ → List ℕ → ℕ → ℕ → List ℕ
unfolding width
system p0 p1 amm n =
    let w = width n in
    let m0 = replicate (n * w) 0 in
    let m1 = for_up n (λ i. for_up n (λ j m. set m (j * w + i) (negated (at p1 (i * n + j))))) m0 in
    let m2 = for_up n (λ i. for_up n (λ j m. set m (j * w + i + n) (at p0 (i * n + j)))) m1 in
    let m3 =
      for_up n
        (λ j m.
          set m (j * w + n + n)
            (at p0 ((n - 1) * n + j) * ((trine_q + 2 ^ 32 - amm) % 2 ^ 32) % 2 ^ 32 % trine_q))
        m2 in
    for_up n (λ j m. set m (j * w + n + n + 1) (at p1 ((n - 1) * n + j) * amm % 2 ^ 32 % trine_q))
      m3

-- "eliminate last row", without the last column.
unfoldable pub eliminate_last : ℕ → List ℕ → List ℕ
unfolding width
eliminate_last n m =
    let w = width n in
    for_up (n - 1)
      (λ r b.
        let factor = entry w b (n - 1) r in
        set (subtract_row w (n - 1) (n + 2) r (n - 1) factor b) ((n - 1) * w + r) 0)
      m

-- "normalize last row"; `none` is the result -1.
unfoldable pub normalize_last : ℕ → List ℕ → Option (List ℕ)
unfolding width
normalize_last n m =
    let w = width n in
    let pivot = entry w m (n - 1) (n - 1) in
    if pivot == 0
    then none
    else some (
        for_up (n + 1)
          (λ k b.
            let c = n + k in set b ((n - 1) * w + c) (entry w b (n - 1) c * gf_inv pivot % trine_q))
          m)

-- "back substitute", without the last column.
unfoldable pub substitute_last : ℕ → List ℕ → List ℕ
unfolding width
substitute_last n m =
    let w = width n in
    for_up (n - 1)
      (λ r b.
        let factor = entry w b r (n - 1) in
        set (subtract_row w n (n + 1) (n - 1) r factor b) (r * w + (n - 1)) 0)
      m

-- `sol[dst] = (sol[dst] + q - (factor * sol[src]) % q) % q` on uint32_t.
abbrev cancel : ℕ → ℕ → ℕ → List ℕ → List ℕ
cancel dst factor src sol =
    let tmp = at sol dst + trine_q - factor * at sol src % 2 ^ 32 % trine_q in
    set sol dst (tmp % 2 ^ 32 % trine_q)

-- "initial sol".
unfoldable pub initial_solution : List ℕ → List ℕ → ℕ → ℕ → List ℕ
unfolding width
initial_solution m p0 amm n =
    let w = width n in
    let s0 = set (replicate (n * n + n * n) 0) (n * n + n * n - 1) amm in
    let s1 = for_up (n - 1) (λ i s. set s (n * n + n * n - n + i) (at m ((i + 1) * w - 1))) s0 in
    let s2 = for_up n (λ i s. set s (n * n + n * n - 2 * n + i) (at m ((i + 1) * w - 2))) s1 in
    for_up n (λ i s. set s (n * n - n + i) (at p0 ((n - 1) * n + i) * amm % 2 ^ 32 % trine_q)) s2

-- "incomplete blocks".
unfoldable pub incomplete_blocks : List ℕ → List ℕ → ℕ → List ℕ → List ℕ
unfolding width
incomplete_blocks m nt n sol =
    let w = width n in
    let s1 =
      for_up n
        (λ i. for_up (n - 1) (λ j.
          cancel (n * n + n * n - 2 * n + i) (at m (i * w + n + n - 2 - j))
            (n * n + n * n - 2 - j)))
        sol in
    for_up n
      (λ i.
        for_up (n - 1)
          (λ j. cancel (n * n - n + i) (at nt (i * n + n - 2 - j)) (n * n + n * n - 2 - j)))
      s1

-- "complete blocks".
unfoldable pub complete_blocks : List ℕ → List ℕ → ℕ → List ℕ → List ℕ
unfolding width
complete_blocks m nt n sol =
    let w = width n in
    let s1 =
      for_up (n - 2)
        (λ k.
          let block = 3 + k in
          for_up n (λ i. for_up n (λ j.
            cancel (n * n + n * n - block * n + i) (at m (i * w + n + n - 1 - j))
              (n * n + n * n - 1 - (block - 2) * n - j))))
        sol in
    for_up (n - 1)
      (λ k.
        let block = 2 + k in
        for_up n (λ i. for_up n (λ j.
          cancel (n * n - block * n + i) (at nt (i * n + n - 1 - j))
            (n * n + n * n - 1 - (block - 1) * n - j))))
      s1

-- The contents of A and B_inv; `none` is the result -1, which writes neither.
unfoldable pub solve : List ℕ → ℕ → ℕ → Option (List ℕ × List ℕ)
unfolding width
solve g0prime amm n = do
  let p0 = take (n * n) g0prime
  let p1 = slice g0prime (n * n) (n * n)
  let nt = negated_transpose p0 n
  reduced ← mat_syst_ct (system p0 p1 amm n) (n - 1) (width n)
  normal ← normalize_last n (eliminate_last n reduced)
  let unit_pivot = set normal ((n - 1) * width n + (n - 1)) 1
  let m = substitute_last n (set unit_pivot (n * width n - 1) 0)
  let sol = complete_blocks m nt n (incomplete_blocks m nt n (initial_solution m p0 amm n))
  some (drop (n * n) sol, take (n * n) sol)
