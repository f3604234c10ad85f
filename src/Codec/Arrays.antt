-- ===== src/Codec/Arrays.antt =====
-- The loops of the array decoder and of the range check, and the sizes.
use native.Mathlib.Decide.{ℕ_discrete}
use meds2end.Base.{ℕ, suc, ◌+◌, ◌*◌, ◌/◌, ◌^◌, ◌<◌, ◌≡◌, ◌∙◌}
use meds2end.Base.{arith, leb, Bool-cases}
use meds2end.Base.{inl, inr, some, List, at, at-set, set, length}
use meds2end.Base.{length-set, length-replicate, replicate, for_up?, for_up?_inv}
use meds2end.Base.{for_up?_total}
use meds2end.Params.{trine_q, trine_q_bits}
use meds2end.Codec.{fq_array_bytes, validate_fq_array, decode_fq_unchecked, decode_step}
use meds2end.Codec.Decode.{number}

-- The number of bits, and the seven more of the rounding, fit size_t.
abbrev pub FitsSize : ℕ → Type 0
FitsSize count = count * trine_q_bits + 7 < 2 ^ 64

pub fq_array_bytes_lem :
    (count : ℕ) → FitsSize count → fq_array_bytes count ≡ (count * trine_q_bits + 7) / 8
unfolding fq_array_bytes
fq_array_bytes_lem count h = omega arith

-- What the decoding loop leaves when it ends normally.
pub record IsDecoded (input : List ℕ) (count i : ℕ) (tmp : List ℕ) : Type 0 where
  pub same_length : length tmp ≡ count
  pub holds : (j : ℕ) → j < i → at tmp j ≡ decode_fq_unchecked input j
  pub reduced : (j : ℕ) → j < i → decode_fq_unchecked input j < trine_q

module _ (input : List ℕ) (count : ℕ) where
  start-IsDecoded : IsDecoded input count 0 (replicate count 0)
  start-IsDecoded = record {
    same_length = length-replicate {A = ℕ} count 0;
    holds = λ j lt. elim lt [ ];
    reduced = λ j lt. elim lt [ ];
  }

  step-IsDecoded :
      (i : ℕ) (tmp next : List ℕ)
      → i < count
      → IsDecoded input count i tmp
      → decode_step input i tmp ≡ some next
      → IsDecoded input count (suc i) next
  unfolding decode_step
  step-IsDecoded i tmp next lt d e = elim (Bool-cases (leb trine_q (decode_fq_unchecked input i))) [
    | inl big ↦ absurd (ground (arith, big))
    | inr small ↦
        let written : set tmp i (decode_fq_unchecked input i) ≡ next = ground (arith, small) in
        rw (← written) (record {
          same_length = length-set tmp i _ ∙ d.same_length;
          holds = λ j le. ground (
            arith,
            at-set tmp i j (decode_fq_unchecked input i) (omega (arith, d.same_length)),
            d.holds j,
          );
          reduced = λ j le. ground (arith, d.reduced j, small);
        })
  ]

  decode_step-total :
      (i : ℕ) (tmp : List ℕ)
      → decode_fq_unchecked input i < trine_q
      → decode_step input i tmp ≡ some (set tmp i (decode_fq_unchecked input i))
  unfolding decode_step
  decode_step-total i tmp h = ground arith

  pub decode_loop :
      {tmp : List ℕ}
      → for_up? count (decode_step input) (replicate count 0) ≡ some tmp
      → IsDecoded input count count tmp
  decode_loop e =
      for_up?_inv (IsDecoded input count) (decode_step input) count _ start-IsDecoded
        (λ i u v lt d h. step-IsDecoded i u v lt d h) e

  pub decode_loop_total :
      ((i : ℕ) → i < count → decode_fq_unchecked input i < trine_q)
      → (tmp : List ℕ) × (for_up? count (decode_step input) (replicate count 0) ≡ some tmp)
        × IsDecoded input count count tmp
  decode_loop_total h =
      for_up?_total (IsDecoded input count) (decode_step input) count _ start-IsDecoded
        λ i u lt d. let e = decode_step-total i u (h i lt) in (_, e, step-IsDecoded i u _ lt d e)

-- The range check passes exactly on arrays of reduced elements.
pub validate_reduced :
    (values : List ℕ) (count : ℕ)
    → ((i : ℕ) → i < count → at values i < trine_q)
    → validate_fq_array values count ≡ some tt
unfolding validate_fq_array
validate_reduced values count h =
    let (u, e, _) =
      for_up?_total (λ i ok. Unit {0}) _ count tt tt (λ i u lt t. (u, ground (arith, h i), tt)) in
    e

pub validate_some :
    (values : List ℕ) (count : ℕ) {u : Unit {0}}
    → validate_fq_array values count ≡ some u
    → (i : ℕ) → i < count
    → at values i < trine_q
unfolding validate_fq_array
validate_some values count e =
    for_up?_inv (λ i ok. (j : ℕ) → j < i → at values j < trine_q) _ count tt (λ j lt. elim lt [ ])
      (λ i u v lt h k j jlt. elim (ℕ_discrete j i) [
        | yes same ↦ rw same (ground (arith, k))
        | no other ↦ h j (omega arith)
      ])
      e

pub number_ext : (f g : ℕ → ℕ) → ((b : ℕ) → b < 12 → f b ≡ g b) → number f ≡ number g
number_ext f g h = rw (
  h 0 (omega arith),
  h 1 (omega arith),
  h 2 (omega arith),
  h 3 (omega arith),
  h 4 (omega arith),
  h 5 (omega arith),
  h 6 (omega arith),
  h 7 (omega arith),
  h 8 (omega arith),
  h 9 (omega arith),
  h 10 (omega arith),
  h 11 (omega arith),
)
