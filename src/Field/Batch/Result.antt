-- ===== src/Field/Batch/Result.antt =====
-- GF_batch_inv as a whole.
use meds2end.Base.{ℕ, zero, suc, ◌-◌, ◌*◌, ◌%◌, ◌≤◌, ◌<◌, ◌≡◌, refl, ◌∙◌}
use meds2end.Base.{false, arith, ◌==◌, Bool-cases, inl, inr, ◌≢◌}
use meds2end.Base.{List, at, at-set, set, length, length-set}
use meds2end.Base.{some, none, Option-cases, for_up, for_up?, for_up_inv, for_up?_inv}
use meds2end.Base.{for_up?_total, >>=-eq-some}
use meds2end.Params.{trine_q}
use meds2end.Field.{gf_inv, gf_inv_checked, gf_batch_inv, prefix_step, unwind_step}
use meds2end.Field.Inverse.{gf_inv_lem}
use meds2end.Field.Batch.{
  IsInverses, IsPrefix, IsUnwound, AllNonzero, product, product-lt, product-ne-zero, first,
  first-IsPrefix, step-IsPrefix, step-nonzero, unwind-IsUnwound,
}

module _ (input old : List ℕ) (c : ℕ) (reduced : (i : ℕ) → i < suc c → at input i < trine_q) where
  -- The second loop turns the inverse of the whole product into all the inverses.
  unwound :
      (prefix : List ℕ) (acc : ℕ)
      → suc c ≤ length old
      → ((j : ℕ) → j < suc c → at prefix j ≡ product input (suc c) reduced j)
      → acc < trine_q
      → acc * product input (suc c) reduced c % trine_q ≡ 1
      → IsUnwound input
          (suc c)
          reduced
          old
          0
          (for_up c (unwind_step (suc c) input prefix) (old, acc))
  unwound prefix acc room prefixes lt one =
      let last : c - c ≡ 0 = omega arith in
      rw last at (
        for_up_inv (λ k s. IsUnwound input (suc c) reduced old (c - k) s)
          (unwind_step (suc c) input prefix) c (old, acc) start keep)
    where
      start : IsUnwound input (suc c) reduced old (c - 0) (old, acc)
      start =
          let z : c - 0 ≡ c = omega arith in
          rw z (record {
            acc-lt = lt;
            acc_inverse = one;
            same_length = refl;
            done = λ j lo hi. absurd (omega arith);
            rest = λ j lo. refl;
          })

      keep :
          (k : ℕ) (s : List ℕ × ℕ)
          → k < c
          → IsUnwound input (suc c) reduced old (c - k) s
          → IsUnwound input (suc c) reduced old (c - suc k) (unwind_step (suc c) input prefix k s)
      keep k s lt u =
          let e : c - k ≡ suc (c - suc k) = omega arith in
          unwind-IsUnwound input (suc c) reduced prefix old prefixes room k (c - suc k) s
            (omega arith) (rw e at u)

  finished :
      (s : List ℕ × ℕ)
      → suc c ≤ length old
      → IsUnwound input (suc c) reduced old 0 s
      → IsInverses input old (set s.0 0 s.1) (suc c)
  unfolding product
  finished s room u = record {
    same_length = length-set s.0 0 s.1 ∙ u.same_length;
    inverse = λ i lt. ground (
      arith,
      at-set s.0 0 i s.1 (omega (arith, u.same_length)),
      u.done i,
      u.acc-lt,
      u.acc_inverse,
    );
    rest = λ i le. ground (arith, at-set s.0 0 i s.1 (omega (arith, u.same_length)), u.rest i);
  }

  -- One call past its guards, with the two loops named.
  enters :
      (prefix : List ℕ)
      → at input 0 ≢ 0
      → product input (suc c) reduced c ≢ 0
      → for_up? c (prefix_step input) (first input (suc c) reduced) ≡ some prefix
      → at prefix c ≡ product input (suc c) reduced c
      → gf_batch_inv old input (suc c) ≡ (
          let s =
            for_up c
              (unwind_step (suc c) input prefix)
              (old, gf_inv (product input (suc c) reduced c)) in
          some (set s.0 0 s.1))
  unfolding gf_batch_inv gf_inv_checked first
  enters prefix nz np e last = ground (arith, pred_suc)
    where
      pred_suc : suc c - 1 ≡ c
      pred_suc = omega arith

  total :
      suc c ≤ length old
      → AllNonzero input (suc c) reduced (suc c)
      → (out : List ℕ) × (gf_batch_inv old input (suc c) ≡ some out)
        × IsInverses input old out (suc c)
  total room nz =
      let (prefix, ep, hp) =
        for_up?_total (IsPrefix input (suc c) reduced) (prefix_step input) c
          (first input (suc c) reduced) (first-IsPrefix input (suc c) reduced (omega arith))
          (λ i u lt p. step-IsPrefix input (suc c) reduced nz i u (omega arith) p) in
      let whole = product input (suc c) reduced c in
      let np = product-ne-zero input (suc c) reduced nz c (omega arith) in
      let inv =
        gf_inv_lem whole (omega (arith, np)) (product-lt input (suc c) reduced c (omega arith)) in
      let u =
        unwound prefix (gf_inv whole) room (λ j lt. hp.holds j (omega arith)) inv.1
          (omega (arith, inv.0)) in
      (_, enters prefix (nz 0 (omega arith)) np ep (hp.holds c (omega arith)), finished _ room u)

  success-nonzero :
      (out : List ℕ)
      → gf_batch_inv old input (suc c) ≡ some out
      → AllNonzero input (suc c) reduced (suc c)
  unfolding gf_batch_inv first
  success-nonzero out e = elim (Bool-cases (at input 0 == 0)) [
    | inl z ↦ absurd (ground (arith, z))
    | inr nz ↦
        let (prefix, ep, _) =
          >>=-eq-some (for_up? c (prefix_step input) (first input (suc c) reduced)) _
            (rw (some_round, nz, pred_suc) at e) in
        for_up?_inv (λ i u. AllNonzero input (suc c) reduced (suc i)) (prefix_step input) c _
          (λ i lt. ground (arith, nz)) (λ i u v lt h. step-nonzero input (suc c) reduced i u v h) ep
  ]
    where
      pred_suc : suc c - 1 ≡ c
      pred_suc = omega arith

      some_round : (suc c == 0) ≡ false
      some_round = ground arith

-- Where none of the first `count` inputs is 0, the call succeeds, and the output holds the inverse
-- of each of them, reduced, and is unchanged behind them. The elements are reduced, and `out` has
-- room for them.
pub gf_batch_inv_lem :
    (input old : List ℕ) (count : ℕ)
    → ((i : ℕ) → i < count → at input i < trine_q)
    → count ≤ length old
    → ((i : ℕ) → i < count → at input i ≢ 0)
    → (out : List ℕ) × (gf_batch_inv old input count ≡ some out) × IsInverses input old out count
gf_batch_inv_lem input old zero reduced room nz = (
  old,
  unfold gf_batch_inv in refl,
  record { same_length = refl; inverse = λ i lt. elim lt [ ]; rest = λ i le. refl },
)
gf_batch_inv_lem input old (suc c) reduced room nz = total input old c reduced room nz

-- Where one of the first `count` inputs is 0, the call fails. The elements are reduced.
pub gf_batch_inv-zero :
    (input old : List ℕ) (count i : ℕ)
    → ((j : ℕ) → j < count → at input j < trine_q)
    → i < count
    → at input i ≡ 0
    → gf_batch_inv old input count ≡ none
gf_batch_inv-zero input old zero i reduced lt z = elim lt [ ]
gf_batch_inv-zero input old (suc c) i reduced lt z =
    elim (Option-cases (gf_batch_inv old input (suc c))) [
      | inl e ↦ e
      | inr (out, e) ↦ absurd (success-nonzero input old c reduced out e i lt z)
    ]
