-- ===== src/Expand/Pairs.antt =====
-- The secret matrices: what the sampling loops return, and their inverses.
use meds2end.Base.{ℕ, zero, suc, ◌+◌, ◌*◌, ◌≤◌, ◌<◌, ◌≡◌, ◌∙◌, arith, List, set, at}
use meds2end.Base.{true, not, ◌||◌, ltb, leb, ◌==◌, if◌then◌else◌, inl, inr, Bool-cases}
use meds2end.Base.{length, length-set, length-replicate, get_or-replicate, at-set-lt}
use meds2end.Base.Grid.{entry}
use meds2end.Base.Run.{Run, done, ◌>>=◌, lift, for_run_inv, >>=-eq-done}
use meds2end.Params.{Params, trine_q, secret_seed_bytes}
use meds2end.Xof.{Shake, XofState, xof_squeeze}
use meds2end.Matrix.{mat_zero, mat_mul}
use meds2end.Matrix.Products.{max_dimension}
use meds2end.Sampling.{rnd_gf, gf_candidate, rnd_gf_array, rnd_inv_loop, rnd_inv_matrix, seeded_xof}
use meds2end.Elim.{mat_inv_vartime, mat_is_invertible}
use meds2end.Elim.Images.{IsMatrix}
use meds2end.Elim.Inverse.{mat_mul-mat_inv}
use meds2end.Elim.Agreement.{is_invertible-iff-mat_inv}
use meds2end.Expand.{Role, role_to_purpose, init_domain_xof, expand_secret_matrix_pair}

module _ (sh : Shake) where
  rnd_gf-lt :
      (fuel : ℕ) (xof : XofState sh) {out : ℕ × XofState sh}
      → rnd_gf sh fuel xof ≡ done out
      → out.0 < trine_q
  unfolding rnd_gf
  rnd_gf-lt zero xof e = absurd (cc e)
  rnd_gf-lt (suc fuel) xof {out} e =
      let ((bytes, xof'), drawn, rest) = >>=-eq-done (lift (xof_squeeze sh xof 2)) _ e in
      elim (Bool-cases (leb trine_q (gf_candidate sh bytes))) [
        | inl again ↦ rnd_gf-lt fuel xof' (rw again at rest)
        | inr taken ↦
            let same : (gf_candidate sh bytes, xof') ≡ out = cc (rw taken at rest) in
            rw (← same) (ground (arith, taken))
      ]

  -- An array of reduced elements, some of which are written by the generator, stays such an array.
  abbrev Kept : ℕ → List ℕ → Type 0
  Kept size a = (length a ≡ size) × ((i : ℕ) → at a i < trine_q)

  pub rnd_gf_array-Kept :
      (fuel offset count size : ℕ) (s : List ℕ × XofState sh) {t : List ℕ × XofState sh}
      → Kept size s.0
      → rnd_gf_array sh fuel offset count s ≡ done t
      → Kept size t.0
  unfolding rnd_gf_array
  rnd_gf_array-Kept fuel offset count size s h e =
      for_run_inv (λ i u. Kept size u.0) _ count s h
        (λ i (out, xof) v lt (len, small) step.
          let ((val, xof'), drawn, rest) = >>=-eq-done (rnd_gf sh fuel xof) _ step in
          let same : (set out (offset + i) val, xof') ≡ v = cc rest in
          rw (← same) (
            length-set out _ _ ∙ len,
            at-set-lt trine_q out (offset + i) val small (rnd_gf-lt fuel xof drawn),
          ))
        e

  rnd_inv_loop_lem :
      (rounds fuel n : ℕ) (m : List ℕ) (xof : XofState sh) {out : List ℕ}
      → IsMatrix n m
      → rnd_inv_loop sh rounds fuel m n xof ≡ done out
      → IsMatrix n out × (mat_is_invertible out n ≡ true)
  unfolding rnd_inv_loop
  rnd_inv_loop_lem zero fuel n m xof h e = absurd (cc e)
  rnd_inv_loop_lem (suc rounds) fuel n m xof {out} h e =
      let ((m', xof'), filled, rest) = >>=-eq-done _ _ e in
      let (len, small) =
        for_run_inv (λ i u. Kept (n * n) u.0) (λ r. rnd_gf_array sh fuel (r * n) n) n (m, xof)
          (h.size, h.reduced) (λ r u v lt k step. rnd_gf_array-Kept fuel (r * n) n (n * n) u k step)
          filled in
      let next : IsMatrix n m' = record { size = len; reduced = small } in
      elim (Bool-cases (mat_is_invertible m' n)) [
        | inl good ↦ let same : m' ≡ out = cc (rw good at rest) in rw (← same) (next, good)
        | inr bad ↦ rnd_inv_loop_lem rounds fuel n m' xof' next (rw bad at rest)
      ]

  pub rnd_inv_matrix_lem :
      (fuel n : ℕ) (m seed : List ℕ) {out : List ℕ}
      → IsMatrix n m
      → rnd_inv_matrix sh fuel m n n seed ≡ done out
      → IsMatrix n out × (mat_is_invertible out n ≡ true)
  unfolding rnd_inv_matrix
  rnd_inv_matrix_lem fuel n m seed h e = elim (Bool-cases (not (n == n) || ltb n 1)) [
    | inl refused ↦ absurd (cc (rw refused at e))
    | inr fine ↦
        let (xof, seeded, rest) = >>=-eq-done (seeded_xof sh seed) _ (rw fine at e) in
        rnd_inv_loop_lem fuel fuel n m xof h rest
  ]

  zero-IsMatrix : (n : ℕ) → IsMatrix n (mat_zero n)
  unfolding mat_zero
  zero-IsMatrix n = record {
    size = length-replicate {A = ℕ} (n * n) 0;
    reduced = λ i. rw (get_or-replicate {A = ℕ} (n * n) i 0) (omega arith);
  }

  abbrev both : List ℕ → List ℕ → Run (List ℕ × List ℕ)
  both m b = done (m, b)

  -- The last two steps of the expansion, apart.
  sampled_matrix :
      (p : Params) (fuel n : ℕ) (xof : XofState sh) (matrix inverse : List ℕ)
      → (lift (xof_squeeze sh xof (secret_seed_bytes p)) >>= λ s.
          rnd_inv_matrix sh fuel (mat_zero n) n n s.0 >>= λ m.
          lift (mat_inv_vartime m n) >>= λ b. both m b)
        ≡ done (matrix, inverse)
      → (seed : List ℕ) × (m : List ℕ) × (rnd_inv_matrix sh fuel (mat_zero n) n n seed ≡ done m)
        × ((lift (mat_inv_vartime m n) >>= λ b. both m b) ≡ done (matrix, inverse))
  sampled_matrix p fuel n xof matrix inverse e =
      let ((seed, xof'), squeezed, rest) =
        >>=-eq-done (lift (xof_squeeze sh xof (secret_seed_bytes p))) _ e in
      let (m, sampled, last) = >>=-eq-done (rnd_inv_matrix sh fuel (mat_zero n) n n seed) _ rest in
      (seed, m, sampled, last)

  -- Where trine_expand_secret_matrix_pair_vartime is asked for the inverse and succeeds, both results
  -- are n x n matrices of reduced elements, and the product of the inverse with the matrix is the
  -- identity, as pmod_mat_mul computes it. The dimension is at most 2 ^ 16.
  pub expand_secret_matrix_pair_lem :
      (p : Params) (fuel index n i j : ℕ) (secret_seed : List ℕ) (role : Role)
      {matrix inverse : List ℕ}
      → n ≤ max_dimension
      → expand_secret_matrix_pair sh p fuel true secret_seed role index n ≡ done (matrix, inverse)
      → i < n
      → j < n
      → IsMatrix n matrix
        × IsMatrix n inverse
        × (entry n (mat_mul inverse matrix n) i j ≡ (if i == j then 1 else 0))
  unfolding expand_secret_matrix_pair
  expand_secret_matrix_pair_lem p fuel index n i j secret_seed role {matrix} {inverse} bound e hi
        hj =
      elim (Bool-cases ((ltb n 1 || ltb p.n n) || leb p.x index)) [
        | inl refused ↦ absurd (cc (rw refused at e))
        | inr fine ↦
            let (xof, started, rest) =
              >>=-eq-done (init_domain_xof sh (role_to_purpose role) index secret_seed) _
                (rw fine at e) in
            let (seed, m, sampled, rest3) = sampled_matrix p fuel n xof matrix inverse rest in
            let (matrix_fine, invertible) =
              rnd_inv_matrix_lem fuel n (mat_zero n) seed (zero-IsMatrix n) sampled in
            let (b, found) = (is_invertible-iff-mat_inv n m matrix_fine).0 invertible in
            let out : ◌≡◌ {A = Run (List ℕ × List ℕ)} (done (m, b)) (done (matrix, inverse)) =
              rw found at rest3 in
            let same_m : m ≡ matrix = cc out in
            let same_b : b ≡ inverse = cc out in
            let r = mat_mul-mat_inv n m matrix_fine i j bound found hi hj in
            rw (← same_m, ← same_b) (matrix_fine, r.0, r.1)
      ]
