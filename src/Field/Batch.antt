-- ===== src/Field/Batch.antt =====
-- GF_batch_inv: one inversion serves a whole array of nonzero elements. Here are its two loops.
pub mod Result
use native.Mathlib.Decide.{ℕ_discrete}
use native.Mathlib.Nat.{mod-lt}
use meds2end.Base.{ℕ, zero, suc, ◌+◌, ◌-◌, ◌*◌, ◌/◌, ◌%◌, ◌^◌, ◌≤◌, ◌<◌, ◌≡◌, refl, sym, ap, ◌∙◌}
use meds2end.Base.{Bool, true, false, arith, ◌==◌, if◌then◌else◌, Bool-cases, inl, inr, ◌⊎◌, ◌≢◌}
use meds2end.Base.{List, at, at-set, set, length, length-set, length-replicate, replicate}
use meds2end.Base.{Option, some, none, Option-cases, for_up, for_up?, for_up_inv, for_up?_inv}
use meds2end.Base.{for_up?_total, ◌>>=◌, >>=-eq-some, ==→eq, ==→ne, eq→==}
use meds2end.Base.Congr.{Congr, Congr-mul, Congr-mod, Congr-of_eq}
use meds2end.Params.{trine_q}
use meds2end.Field.{gf_mul, gf_inv, gf_inv_checked, gf_batch_inv, prefix_step, unwind_step}
use meds2end.Field.Arith.{gf_mul_lem}
use meds2end.Field.Inverse.{gf_inv_lem, mul-ne-zero}

-- out[0..count) holds the inverses of input[0..count), and the rest of `out` is that of `old`.
pub record IsInverses (input old out : List ℕ) (count : ℕ) : Type 0 where
  pub same_length : length out ≡ length old
  pub inverse : (i : ℕ) → i < count → (at out i < trine_q) × (at out i * at input i % trine_q ≡ 1)
  pub rest : (i : ℕ) → count ≤ i → at out i ≡ at old i

module _ (input : List ℕ) (count : ℕ) (reduced : (i : ℕ) → i < count → at input i < trine_q) where
  -- The product of input[0..i].
  product : ℕ → ℕ
  product zero = at input 0
  product (suc i) = product i * at input (suc i) % trine_q

  product-lt : (i : ℕ) → i < count → product i < trine_q
  unfolding product
  product-lt zero h = reduced 0 h
  product-lt (suc i) h = omega arith

  abbrev AllNonzero : ℕ → Type 0
  AllNonzero k = (i : ℕ) → i < k → at input i ≢ 0

  product-ne-zero : AllNonzero count → (i : ℕ) → i < count → product i ≢ 0
  unfolding product
  product-ne-zero nz zero h = nz 0 h
  product-ne-zero nz (suc i) h =
      mul-ne-zero (product i) (at input (suc i)) (product-lt i (omega arith)) (reduced (suc i) h)
        (product-ne-zero nz i (omega arith)) (nz (suc i) h)

  -- The state of the first loop before it reads input[i + 1].
  record IsPrefix (i : ℕ) (prefix : List ℕ) : Type 0 where
    same_length : length prefix ≡ count
    holds : (j : ℕ) → j ≤ i → at prefix j ≡ product j

  first : List ℕ
  first = set (replicate count 0) 0 (at input 0)

  first-IsPrefix : 0 < count → IsPrefix 0 first
  unfolding product first
  first-IsPrefix pos = record {
    same_length = length-set (replicate {A = ℕ} count 0) 0 _ ∙ length-replicate {A = ℕ} count 0;
    holds = λ j le. ground (
      arith,
      at-set (replicate {A = ℕ} count 0) 0 j (at input 0)
          (omega (arith, length-replicate {A = ℕ} count 0)),
    );
  }

  step-IsPrefix :
      AllNonzero count
      → (i : ℕ) (prefix : List ℕ) → i < count - 1
      → IsPrefix i prefix
      → (next : List ℕ) × (prefix_step input i prefix ≡ some next) × IsPrefix (suc i) next
  unfolding product prefix_step
  step-IsPrefix nz i prefix lt p = (
    set prefix (suc i) value,
    ground (arith, nz (suc i) (omega arith)),
    record {
      same_length = length-set prefix (suc i) value ∙ p.same_length;
      holds = λ j le. ground (
        arith,
        at-set prefix (suc i) j value (omega (arith, p.same_length)),
        p.holds j,
        p.holds i,
        gf_mul_lem (product i) (at input (suc i)),
        product-lt i,
        reduced (suc i),
      );
    },
  )
    where
      value : ℕ
      value = gf_mul (at prefix i) (at input (suc i))

  -- When the first loop ends normally it has seen no zero.
  step-nonzero :
      (i : ℕ) (prefix next : List ℕ)
      → AllNonzero (suc i)
      → prefix_step input i prefix ≡ some next
      → AllNonzero (suc (suc i))
  unfolding prefix_step
  step-nonzero i prefix next nz e j lt = elim (ℕ_discrete j (suc i)) [
    | yes same ↦ rw same (ground arith)
    | no other ↦ nz j (omega arith)
  ]

  -- The state of the second loop before it handles index i = count - 1 - round.
  record IsUnwound (old : List ℕ) (i : ℕ) (s : List ℕ × ℕ) : Type 0 where
    acc-lt : s.1 < trine_q
    acc_inverse : s.1 * product i % trine_q ≡ 1
    same_length : length s.0 ≡ length old
    done :
        (j : ℕ) → i < j → j < count → (at s.0 j < trine_q) × (at s.0 j * at input j % trine_q ≡ 1)
    rest : (j : ℕ) → count ≤ j → at s.0 j ≡ at old j

  -- acc * (p * x) is 1 when acc inverts p * x mod q, in the two groupings of the loop.
  regroup :
      (acc p x : ℕ)
      → acc * (p * x % trine_q) % trine_q ≡ 1
      → (acc * p % trine_q * x % trine_q ≡ 1) × (acc * x % trine_q * p % trine_q ≡ 1)
  regroup acc p x h = (
    Congr-mul trine_q (acc * p % trine_q) (acc * p) x x (Congr-mod trine_q (acc * p)) refl
        ∙ Congr-of_eq trine_q (acc * p * x) (acc * (p * x)) (omega arith)
        ∙ whole,
    Congr-mul trine_q (acc * x % trine_q) (acc * x) p p (Congr-mod trine_q (acc * x)) refl
        ∙ Congr-of_eq trine_q (acc * x * p) (acc * (p * x)) (omega arith)
        ∙ whole,
  )
    where
      whole : acc * (p * x) % trine_q ≡ 1
      whole =
          sym (Congr-mul trine_q acc acc (p * x % trine_q) (p * x) refl (Congr-mod trine_q (p * x)))
          ∙ h

  module _ (prefix old : List ℕ) (prefixes : (j : ℕ) → j < count → at prefix j ≡ product j)
      (room : count ≤ length old) where
    unwind-IsUnwound :
        (round m : ℕ) (s : List ℕ × ℕ)
        → count ≡ suc (suc (m + round))
        → IsUnwound old (suc m) s
        → IsUnwound old m (unwind_step count input prefix round s)
    unfolding product unwind_step
    unwind-IsUnwound round m (out, acc) e u =
        let i : count - 1 - round ≡ suc m = omega arith in
        let p : suc m - 1 ≡ m = omega arith in
        let acc_p = gf_mul_lem acc (product m) u.acc-lt (product-lt m (omega arith)) in
        let acc_x = gf_mul_lem acc (at input (suc m)) u.acc-lt (reduced (suc m) (omega arith)) in
        let both = regroup acc (product m) (at input (suc m)) u.acc_inverse in
        rw (i, p, prefixes m (omega arith))
          (record {
            acc-lt = omega (arith, acc_x);
            acc_inverse = rw acc_x both.1;
            same_length = length-set out (suc m) _ ∙ u.same_length;
            done = λ j lo hi. ground (
              arith,
              at-set out (suc m) j (gf_mul acc (product m)) (omega (arith, u.same_length)),
              u.done j,
              acc_p,
              both,
            );
            rest = λ j lo. ground (
              arith,
              at-set out (suc m) j (gf_mul acc (product m)) (omega (arith, u.same_length)),
              u.rest j,
            );
          })
