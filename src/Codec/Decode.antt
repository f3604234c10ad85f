-- ===== src/Codec/Decode.antt =====
-- Twelve consecutive bits of the stream, read as one number.
use native.Mathlib.Nat.{pow-suc, mul-le-mul_right}
use meds2end.Base.{ℕ, suc, ◌+◌, ◌*◌, ◌^◌, ◌<◌, ◌≡◌, refl, ◌∙◌}
use meds2end.Base.{bit_or, List, arith, for_up, for_up_inv}
use meds2end.Base.Sums.{sum}
use meds2end.Base.Bits.{bit, bit_or_fields}
use meds2end.Codec.{bit_at, decode_fq_unchecked}

-- The number whose twelve bits are f 0 to f 11.
abbrev pub number : (ℕ → ℕ) → ℕ
number f =
    f 0
    + f 1 * 2
    + f 2 * 4
    + f 3 * 8
    + f 4 * 16
    + f 5 * 32
    + f 6 * 64
    + f 7 * 128
    + f 8 * 256
    + f 9 * 512
    + f 10 * 1024
    + f 11 * 2048

pub number_bits : (v : ℕ) → v < 4096 → number (bit v) ≡ v
number_bits v h = omega arith

gather_step :
    (f : ℕ → ℕ) (b v : ℕ)
    → f b < 2
    → (v ≡ sum b (λ j. f j * 2 ^ j)) × (v < 2 ^ b)
    → (bit_or v (f b * 2 ^ b) ≡ sum (suc b) (λ j. f j * 2 ^ j))
      × (bit_or v (f b * 2 ^ b) < 2 ^ suc b)
unfolding sum
gather_step f b v lt (e, fits) = rw (bit_or_fields b v (f b) fits) (
  rw e refl,
  omega (arith, pow-suc 2 b, mul-le-mul_right {m = f b} {n = 1} (2 ^ b) (omega arith)),
)

gather : (f : ℕ → ℕ) → ((b : ℕ) → f b < 2) → for_up 12 (λ b v. bit_or v (f b * 2 ^ b)) 0 ≡ number f
gather f small =
    (for_up_inv (λ b v. (v ≡ sum b (λ j. f j * 2 ^ j)) × (v < 2 ^ b))
      (λ b v. bit_or v (f b * 2 ^ b)) 12 0 (unfold sum in refl, omega arith)
      (λ b v lt h. gather_step f b v (small b) h)).0
    ∙ twelve
  where
    twelve : sum 12 (λ j. f j * 2 ^ j) ≡ number f
    twelve = unfold sum in omega arith

number-lt : (f : ℕ → ℕ) → ((b : ℕ) → f b < 2) → number f < 4096
number-lt f h = omega (arith, h 0, h 1, h 2, h 3, h 4, h 5, h 6, h 7, h 8, h 9, h 10, h 11)

-- Element i is made of the bits 12 * i to 12 * i + 11.
pub decode_lem :
    (input : List ℕ) (i : ℕ)
    → (decode_fq_unchecked input i ≡ number (λ b. bit_at input (i * 12 + b)))
      × (decode_fq_unchecked input i < 4096)
unfolding decode_fq_unchecked
decode_lem input i = rw gathered (omega (arith, fits), omega (arith, fits))
  where
    small : (b : ℕ) → bit_at input (i * 12 + b) < 2
    small b = omega arith

    gathered :
        for_up 12 (λ b v. bit_or v (bit_at input (i * 12 + b) * 2 ^ b)) 0
        ≡ number (λ b. bit_at input (i * 12 + b))
    gathered = gather (λ b. bit_at input (i * 12 + b)) small

    fits : number (λ b. bit_at input (i * 12 + b)) < 4096
    fits = number-lt (λ b. bit_at input (i * 12 + b)) small
