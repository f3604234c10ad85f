-- ===== src/Base/Bits.antt =====
-- Bits of numbers, by tables over a byte and by recursion on the digits where widths vary.
use Prim.Native.Nat.{ℕ, zero, suc, ◌+◌, ◌-◌, ◌*◌, ◌/◌, ◌%◌, ◌^◌, ◌≤◌, ◌<◌, bit_and, bit_or, max}
use Prim.Native.Nat.{digits, bit_or-bitwise}
use mathlib.Core.Path.{◌≡◌, refl, ap}
use mathlib.Core.Bool.{Bool, true, false, ◌&&◌}
use native.Mathlib.Omega.{arith}
use native.Mathlib.Nat.{pow-zero, pow-suc}
use meds2end.Base.Tests.{
  ltb, leb, ◌==◌, if◌then◌else◌, all_below, all_below_sound, all_below_complete, ==→eq,
}

-- Bit k of x, as `(x >> k) & 1`.
abbrev pub bit : ℕ → ℕ → ℕ
bit x k = x / 2 ^ k % 2

abbrev or_row : ℕ → ℕ → ℕ → Bool
or_row x k j = bit (bit_or x (2 ^ k % 256)) j == (if k == j then 1 else bit x j)

abbrev or_test : ℕ → Bool
or_test x = all_below (λ k. all_below (or_row x k) 8 && ltb (bit_or x (2 ^ k % 256)) 256) 8

or_table : all_below or_test 256 ≡ true
unfolding all_below
or_table = refl

and_true : (a b : Bool) → a && b ≡ true → (a ≡ true) × (b ≡ true)
and_true true b h = ground arith
and_true false b h = cc

-- `byte |= (uint8_t)(1u << k)` sets bit k, leaves the others, and stays a byte.
pub set_bit :
    (x k j : ℕ)
    → x < 256
    → k < 8
    → j < 8
    → (bit (bit_or x (2 ^ k % 256)) j ≡ (if k == j then 1 else bit x j))
      × (bit_or x (2 ^ k % 256) < 256)
set_bit x k j hx hk hj =
    let row = and_true _ _ (all_below_sound _ 8 (all_below_sound or_test 256 or_table x hx) k hk) in
    (==→eq _ _ (all_below_sound (or_row x k) 8 row.0 j hj), ground (arith, row.1))

abbrev mask_row : ℕ → ℕ → Bool
mask_row x u =
    if bit_and x (255 * 2 ^ u % 256) == 0
    then all_below (λ j. if leb u j then bit x j == 0 else true) 8
    else true

mask_table : all_below (λ x. all_below (mask_row x) 8) 256 ≡ true
unfolding all_below
mask_table = refl

-- A byte that the mask of the bits from u on takes to 0 has these bits clear.
pub masked_clear :
    (x u j : ℕ) → x < 256 → u < 8 → j < 8 → bit_and x (255 * 2 ^ u % 256) ≡ 0 → u ≤ j → bit x j ≡ 0
masked_clear x u j hx hu hj e le = ground (arith, inner)
  where
    row : mask_row x u ≡ true
    row = all_below_sound (mask_row x) 8 (all_below_sound _ 256 mask_table x hx) u hu

    inner : (if leb u j then bit x j == 0 else true) ≡ true
    inner =
        all_below_sound (λ i. if leb u i then bit x i == 0 else true) 8 (ground (arith, row)) j hj

abbrev clear_row : ℕ → ℕ → Bool
clear_row x u =
    if all_below (λ j. if leb u j then bit x j == 0 else true) 8
    then bit_and x (255 * 2 ^ u % 256) == 0
    else true

clear_table : all_below (λ x. all_below (clear_row x) 8) 256 ≡ true
unfolding all_below
clear_table = refl

-- The lowest digit of `|`, from the recursion that the native operation stands for.
or_digits_fuel :
    (n m a b : ℕ) → a ≤ n → a ≤ m → digits (λ y. y) max n a b ≡ digits (λ y. y) max m a b
or_digits_fuel zero zero a b p q = refl
or_digits_fuel zero (suc m) zero b p q = refl
or_digits_fuel zero (suc m) (suc a) b p q = absurd (omega arith)
or_digits_fuel (suc n) zero zero b p q = refl
or_digits_fuel (suc n) zero (suc a) b p q = absurd (omega arith)
or_digits_fuel (suc n) (suc m) zero b p q = refl
or_digits_fuel (suc n) (suc m) (suc a) b p q =
    omega (arith, or_digits_fuel n m (suc a / 2) (b / 2) (omega arith) (omega arith))

bit_or_digit : (a b : ℕ) → bit_or a b ≡ bit_or (a / 2) (b / 2) * 2 + max (a % 2) (b % 2)
bit_or_digit zero b = omega (arith, bit_or-bitwise 0 b, bit_or-bitwise 0 (b / 2))
bit_or_digit (suc a) b = omega (
  arith,
  bit_or-bitwise (suc a) b,
  bit_or-bitwise (suc a / 2) (b / 2),
  or_digits_fuel a (suc a / 2) (suc a / 2) (b / 2) (omega arith) (omega arith),
)

pub zero-bit_or : (b : ℕ) → bit_or 0 b ≡ b
zero-bit_or b = bit_or-bitwise 0 b

-- `v | (c << k)` is a sum when v fits the k bits below.
pub bit_or_fields : (k v c : ℕ) → v < 2 ^ k → bit_or v (c * 2 ^ k) ≡ v + c * 2 ^ k
bit_or_fields zero v c h =
    let none_left : v ≡ 0 = omega (arith, pow-zero 2) in rw (none_left, zero-bit_or) (omega arith)
bit_or_fields (suc k) v c h = omega (
  arith,
  bit_or_digit v (c * 2 ^ suc k),
  shifted,
  ap (bit_or (v / 2)) half_shifted,
  bit_or_fields k (v / 2) c (omega (arith, pow-suc 2 k)),
)
  where
    shifted : c * 2 ^ suc k ≡ 2 * (c * 2 ^ k)
    shifted = omega (arith, ap (λ (t : ℕ). c * t) (pow-suc 2 k))

    half_shifted : c * 2 ^ suc k / 2 ≡ c * 2 ^ k
    half_shifted = omega (arith, shifted)

-- Conversely, a byte with no bit from u on is taken to 0 by the mask of these bits.
pub clear_masked :
    (x u : ℕ)
    → x < 256
    → u < 8
    → ((j : ℕ) → j < 8 → u ≤ j → bit x j ≡ 0)
    → bit_and x (255 * 2 ^ u % 256) ≡ 0
clear_masked x u hx hu h = ground (arith, row, all_clear)
  where
    row : clear_row x u ≡ true
    row = all_below_sound (clear_row x) 8 (all_below_sound _ 256 clear_table x hx) u hu

    all_clear : all_below (λ j. if leb u j then bit x j == 0 else true) 8 ≡ true
    all_clear = all_below_complete _ 8 (λ j lt. ground (arith, h j))

-- Bytes are equal when their bits are.
pub byte_ext : (x y : ℕ) → x < 256 → y < 256 → ((j : ℕ) → j < 8 → bit x j ≡ bit y j) → x ≡ y
byte_ext x y hx hy h = omega (
  arith,
  h 0 (omega arith),
  h 1 (omega arith),
  h 2 (omega arith),
  h 3 (omega arith),
  h 4 (omega arith),
  h 5 (omega arith),
  h 6 (omega arith),
  h 7 (omega arith),
)

abbrev kept_row : ℕ → ℕ → Bool
kept_row u x = if ltb x (2 ^ u) then bit_and x (2 ^ u - 1) == x else true

kept_table : all_below (λ u. all_below (kept_row u) 256) 8 ≡ true
unfolding all_below
kept_table = refl

-- The mask of u bits keeps a number of u bits.
pub masked_kept : (u x : ℕ) → u < 8 → x < 256 → x < 2 ^ u → bit_and x (2 ^ u - 1) ≡ x
masked_kept u x hu hx h =
    let row = all_below_sound (kept_row u) 256 (all_below_sound _ 8 kept_table u hu) x hx in
    ground (arith, row)
