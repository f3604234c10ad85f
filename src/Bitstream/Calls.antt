-- ===== src/Bitstream/Calls.antt =====
-- The calls of bs_write and bs_read past their tests, and the first bits of a number.
use native.Mathlib.Nat.{mod-eq_of_lt, add-mul, add-mul-div_right, mul_assoc, div-add-mod', mod-lt}
use meds2end.Base.{
  ℕ, ◌+◌, ◌-◌, ◌*◌, ◌/◌, ◌%◌, ◌^◌, ◌<◌, ◌≡◌, refl, sym, ap, ◌∙◌, arith, bit_or, bit_and,
}
use meds2end.Base.{at, length, for_up, true, false, ltb}
use meds2end.Base.{some}
use meds2end.Base.Bits.{bit_or_fields}
use meds2end.Base.Congr.{pow-add}
use meds2end.Bitstream.{
  Bitstream, Writing, Reading, advance, exceeds, within_byte, write_head, write_byte, write_tail,
  bs_write, read_head, read_byte, read_tail, bs_read,
}

-- A stream at a position inside its buffer, whose current byte is clear from the position on.
pub record IsStream (bs : Bitstream) : Type 0 where
  pub size : length bs.buf ≡ bs.buf_len
  pub fits : bs.buf_len * 8 < 2 ^ 32
  pub byte : bs.byte_pos < bs.buf_len
  pub bit : bs.bit_pos < 8
  pub clear : at bs.buf bs.byte_pos < 2 ^ bs.bit_pos

pub drop_low : (x y p : ℕ) → x < p → (x + y * p) / p ≡ y
drop_low x y p lt = omega (arith, add-mul-div_right x y {z = p} (omega arith), none_left)
  where
    none_left : x / p ≡ 0
    none_left = grind arith

-- The lowest bits of a value, put behind the k bits of a byte.
pub first_bits :
    (k old value : ℕ)
    → k < 8
    → old < 2 ^ k
    → bit_or old (value * 2 ^ k % 2 ^ 32 % 256) / 2 ^ k ≡ value % 2 ^ (8 - k)
first_bits k old value hk ho =
    let p = 2 ^ k in
    let q = 2 ^ (8 - k) in
    let whole : q * p ≡ 256 =
      sym (pow-add 2 (8 - k) k) ∙ ap (λ (e : ℕ). 2 ^ e) {x = 8 - k + k} {y = 8} (omega arith) in
    let some_p : 0 < p = omega (arith, ho) in
    let some_q : 0 < q = grind (arith, whole) in
    let cut : value * p ≡ value / q * 256 + value % q * p =
      ap (λ (x : ℕ). x * p) (sym (div-add-mod' value q))
      ∙ add-mul (value / q * q) (value % q) p
      ∙ ap (λ (x : ℕ). x + value % q * p)
          (mul_assoc (value / q) q p ∙ ap (λ (x : ℕ). value / q * x) whole) in
    let small : value % q * p < 256 = bounded (value % q) q p some_p (mod-lt value some_q) whole in
    let low : value * p % 2 ^ 32 % 256 ≡ value % q * p = omega (arith, cut, small) in
    ap (λ (x : ℕ). bit_or old x / p) low
    ∙ ap (λ (x : ℕ). x / p) (bit_or_fields k old (value % q) ho)
    ∙ drop_low old (value % q) p ho
  where
    bounded : (x q p : ℕ) → 0 < p → x < q → q * p ≡ 256 → x * p < 256
    bounded x q p pos lt e = grind arith

-- The loop and what follows it.
abbrev pub finish_write : Writing → Bitstream
finish_write u = write_tail (for_up (u.data_len / 8) (λ i. write_byte) u)

abbrev pub finish_read : Reading → ℕ × Bitstream
finish_read u = read_tail (for_up (u.data_len / 8) (λ i. read_byte) u)

-- Within a byte the position stays in it.
pub advance_lem :
    (r : Bitstream) (len : ℕ)
    → r.bit_pos + len < 8
    → advance r len ≡ record r { bit_pos = r.bit_pos + len }
unfolding advance
advance_lem r len bits =
    let kept : (r.bit_pos + len) % 2 ^ 32 ≡ r.bit_pos + len = mod-eq_of_lt (omega arith) in
    let low : ltb 7 (r.bit_pos + len) ≡ false = ground arith in rw (kept, low) refl

-- The two calls, past their tests.
pub read_short :
    (r : Bitstream) (len : ℕ)
    → exceeds r len ≡ false
    → within_byte r len ≡ true
    → r.bit_pos + len < 8
    → bs_read r len ≡ (
      bit_and (at r.buf r.byte_pos / 2 ^ r.bit_pos) (2 ^ len - 1),
      record r { bit_pos = r.bit_pos + len },
    )
unfolding bs_read
read_short r len free inside bits = rw (free, inside, advance_lem r len bits) refl

pub read_long :
    (r : Bitstream) (len : ℕ)
    → exceeds r len ≡ false
    → within_byte r len ≡ false
    → bs_read r len
      ≡ finish_read (read_head (record { value = 0; off = 0; data_len = len; bs = r }))
unfolding bs_read
read_long r len free outside = rw (free, outside) refl

pub write_long :
    (r : Bitstream) (value len : ℕ)
    → exceeds r len ≡ false
    → within_byte r len ≡ false
    → bs_write r value len
      ≡ some (finish_write (write_head (record { value = value; data_len = len; bs = r })))
unfolding bs_write
write_long r value len free outside = rw (free, outside) refl
