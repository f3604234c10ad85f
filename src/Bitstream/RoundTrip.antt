-- ===== src/Bitstream/RoundTrip.antt =====
-- bs_read gives back what bs_write wrote.
use native.Mathlib.Nat.{pow-le-pow_right, mod-eq_of_lt, div-add-mod', mod-lt}
use meds2end.Base.{
  ℕ, ◌+◌, ◌-◌, ◌*◌, ◌/◌, ◌%◌, ◌^◌, ◌≤◌, ◌<◌, ◌≡◌, refl, ap, ◌∙◌, arith, bit_or, bit_and,
}
use meds2end.Base.{at, set, at-set, length, length-set, ltb, true, false}
use meds2end.Base.{Bool-cases, inl, inr, some, eq→==}
use meds2end.Base.Bits.{bit_or_fields, masked_kept}
use meds2end.Base.Congr.{pow-add}
use meds2end.Bitstream.{
  Bitstream, Writing, exceeds, within_byte, write_head, bs_write, read_head, bs_read,
}
use meds2end.Bitstream.Bytes.{write_aligned}
use meds2end.Bitstream.Readback.{read_aligned}
use meds2end.Bitstream.Calls.{
  IsStream, advance_lem, drop_low, first_bits, finish_write, finish_read, read_short, read_long,
  write_long,
}

module _ (bs : Bitstream) (s : IsStream bs) (value len : ℕ) (short : len ≤ 32)
    (hv : value < 2 ^ len) (room : bs.byte_pos * 8 + bs.bit_pos + len ≤ bs.buf_len * 8) where
  enough :
      (t : Bitstream)
      → t.byte_pos ≡ bs.byte_pos
      → t.bit_pos ≡ bs.bit_pos
      → t.buf_len ≡ bs.buf_len
      → exceeds t len ≡ false
  unfolding exceeds
  enough t same_byte same_bit same_size = ground (arith, same_byte, same_bit, same_size, s.fits)

  -- From where the number was written.
  abbrev again : Bitstream → Bitstream
  again t = record t { byte_pos = bs.byte_pos; bit_pos = bs.bit_pos }

  IsReadBack : Bitstream → Type 0
  IsReadBack t =
      ((bs_read (again t) len).0 ≡ value)
      × ((bs_read (again t) len).1.byte_pos ≡ t.byte_pos)
      × ((bs_read (again t) len).1.bit_pos ≡ t.bit_pos)

  -- All bits in the current byte.
  in_byte :
      within_byte bs len ≡ true → (t : Bitstream) × (bs_write bs value len ≡ some t) × IsReadBack t
  unfolding bs_write bs_read within_byte IsReadBack
  in_byte inside =
      let old = at bs.buf bs.byte_pos in
      let p = 2 ^ bs.bit_pos in
      let bits : bs.bit_pos + len < 8 = ground (arith, inside, s.bit) in
      let split : 2 ^ (bs.bit_pos + len) ≡ p * 2 ^ len = pow-add 2 bs.bit_pos len in
      let bound : 2 ^ (bs.bit_pos + len) ≤ 2 ^ 8 =
        pow-le-pow_right {n = 2} (omega arith) {j = 8} (omega arith) in
      let some_p : 0 < p = omega (arith, s.clear) in
      let sum_small : old + value * p < p * 2 ^ len =
        joined_small old value p (2 ^ len) s.clear hv in
      let new : bit_or old (value * p % 2 ^ 32) % 256 ≡ old + value * p =
        ap (λ (x : ℕ). bit_or old x % 256)
          (mod-eq_of_lt {n = value * p} (omega (arith, sum_small, split, bound)))
        ∙ ap (λ (x : ℕ). x % 256) (bit_or_fields bs.bit_pos old value s.clear)
        ∙ mod-eq_of_lt (omega (arith, sum_small, split, bound)) in
      let free = enough bs refl refl refl in
      let t : Bitstream = record bs {
        buf = set bs.buf bs.byte_pos (bit_or old (value * p % 2 ^ 32) % 256);
        bit_pos = bs.bit_pos + len;
      } in
      let here : at t.buf bs.byte_pos ≡ old + value * p =
        at-set bs.buf bs.byte_pos bs.byte_pos _ (omega (arith, s.size, s.byte))
        ∙ rw (eq→== bs.byte_pos bs.byte_pos refl) new in
      let back = read_short (again t) len (enough (again t) refl refl refl) inside bits in
      let bits_only : 2 ^ len ≤ 2 ^ 8 =
        pow-le-pow_right {n = 2} (omega arith) {j = 8} (omega arith) in
      (
        t,
        rw (free, inside)
            (ap some (
              advance_lem
                (record bs { buf = set bs.buf bs.byte_pos (bit_or old (value * p % 2 ^ 32) % 256) })
                len bits)),
        rw back (
          ap (λ (x : ℕ). bit_and (x / p) (2 ^ len - 1)) here
              ∙ ap (λ (x : ℕ). bit_and x (2 ^ len - 1)) (drop_low old value p s.clear)
              ∙ masked_kept len value (omega arith) (omega (arith, bits_only)) hv,
          refl,
          refl,
        ),
      )
    where
      joined_small : (x y p q : ℕ) → x < p → y < q → x + y * p < p * q
      joined_small x y p q hx hy = grind arith

  -- From the start of a byte.
  aligned :
      bs.bit_pos ≡ 0
      → within_byte bs len ≡ false
      → (t : Bitstream) × (bs_write bs value len ≡ some t) × IsReadBack t
  unfolding write_head read_head within_byte IsReadBack
  aligned zero_bits outside =
      let idle : ltb 0 bs.bit_pos ≡ false = ground (arith, zero_bits) in
      let t = finish_write (record { value = value; data_len = len; bs = bs }) in
      let w = write_aligned value len bs zero_bits (omega (arith, room, s.size)) in
      let written : write_head (record { value = value; data_len = len; bs = bs })
          ≡ record { value = value; data_len = len; bs = bs } =
        simp (idle) refl in
      let start : read_head (record { value = 0; off = 0; data_len = len; bs = again t })
          ≡ record { value = 0; off = 0; data_len = len; bs = again t } =
        simp (idle) refl in
      let back =
        read_long (again t) len (enough (again t) refl refl w.same_size) outside
        ∙ ap finish_read start in
      let result =
        read_aligned value len bs t w hv 0 0 (omega arith) (omega arith) (again t) refl refl
          zero_bits in
      (
        t,
        write_long bs value len (enough bs refl refl refl) outside
            ∙ ap (λ (u : Writing). some (finish_write u)) written,
        (
          ap (λ o. o.0) back ∙ result.0 ∙ omega arith,
          ap (λ o. o.1.byte_pos) back ∙ result.1,
          ap (λ o. o.1.bit_pos) back ∙ result.2,
        ),
      )

  -- From inside a byte: its rest is filled first.
  unaligned :
      0 < bs.bit_pos
      → within_byte bs len ≡ false
      → (t : Bitstream) × (bs_write bs value len ≡ some t) × IsReadBack t
  unfolding write_head read_head within_byte IsReadBack
  unaligned some_bits outside =
      let filling : ltb 0 bs.bit_pos ≡ true = ground arith in
      let o = 8 - bs.bit_pos in
      let long : o ≤ len = ground (arith, outside, s.bit) in
      let l = len - o in
      let v = value / 2 ^ o in
      let first = bit_or (at bs.buf bs.byte_pos) (value * 2 ^ bs.bit_pos % 2 ^ 32 % 256) in
      let start : Bitstream = record bs {
        buf = set bs.buf bs.byte_pos first;
        byte_pos = bs.byte_pos + 1;
        bit_pos = 0;
      } in
      let sized : length start.buf ≡ length bs.buf = length-set bs.buf _ _ in
      let split : 2 ^ len ≡ 2 ^ l * 2 ^ o =
        ap (λ (e : ℕ). 2 ^ e) {x = len} {y = l + o} (omega (arith, long)) ∙ pow-add 2 l o in
      let hv_rest : v < 2 ^ l = rest_small value (2 ^ o) (2 ^ l) (rw split at hv) in
      let t = finish_write (record { value = v; data_len = l; bs = start }) in
      let w = write_aligned v l start refl (omega (arith, room, s.size, sized, long)) in
      let written : write_head (record { value = value; data_len = len; bs = bs })
          ≡ record { value = v; data_len = l; bs = start } =
        simp (filling) refl in
      let low : at t.buf bs.byte_pos / 2 ^ bs.bit_pos ≡ value % 2 ^ o =
        ap (λ (x : ℕ). x / 2 ^ bs.bit_pos)
          (w.before bs.byte_pos (omega arith)
            ∙ at-set bs.buf bs.byte_pos bs.byte_pos first (omega (arith, s.size, s.byte))
            ∙ rw (eq→== bs.byte_pos bs.byte_pos refl) refl)
        ∙ first_bits bs.bit_pos (at bs.buf bs.byte_pos) value s.bit s.clear in
      let beyond : Bitstream = record t { byte_pos = bs.byte_pos + 1; bit_pos = 0 } in
      let begun : read_head (record { value = 0; off = 0; data_len = len; bs = again t })
          ≡ record { value = value % 2 ^ o; off = o; data_len = l; bs = beyond } =
        simp (filling, low) refl in
      let back =
        read_long (again t) len (enough (again t) refl refl w.same_size) outside
        ∙ ap finish_read begun in
      let some_o : 0 < 2 ^ o = some_power o in
      let result =
        read_aligned v l start t w hv_rest o (value % 2 ^ o) (mod-lt value some_o)
          (omega (arith, long, short)) beyond refl refl refl in
      (
        t,
        write_long bs value len (enough bs refl refl refl) outside
            ∙ ap (λ (u : Writing). some (finish_write u)) written,
        (
          ap (λ o. o.0) back ∙ result.0 ∙ omega (arith, div-add-mod' value (2 ^ o)),
          ap (λ o. o.1.byte_pos) back ∙ result.1,
          ap (λ o. o.1.bit_pos) back ∙ result.2,
        ),
      )
    where
      rest_small : (x p q : ℕ) → x < q * p → x / p < q
      rest_small x p q h = grind arith

      some_power : (e : ℕ) → 0 < 2 ^ e
      some_power e =
          omega (arith, pow-le-pow_right {n = 2} (omega arith) {i = 0} {j = e} (omega arith))

-- A number that bs_write writes is read back by bs_read from the same position, and both leave the
-- stream at the same position. The position is inside the buffer, the current byte is clear from the
-- position on, the number has the given bits, at most 32, they fit the buffer, and the buffer has
-- fewer than 2 ^ 32 bits.
pub bs_read-bs_write :
    (bs : Bitstream) (value len : ℕ)
    → IsStream bs
    → len ≤ 32
    → value < 2 ^ len
    → bs.byte_pos * 8 + bs.bit_pos + len ≤ bs.buf_len * 8
    → (t : Bitstream) × (bs_write bs value len ≡ some t)
      × ((bs_read (record t { byte_pos = bs.byte_pos; bit_pos = bs.bit_pos }) len).0 ≡ value)
      × ((bs_read (record t { byte_pos = bs.byte_pos; bit_pos = bs.bit_pos }) len).1.byte_pos
          ≡ t.byte_pos)
      × ((bs_read (record t { byte_pos = bs.byte_pos; bit_pos = bs.bit_pos }) len).1.bit_pos
          ≡ t.bit_pos)
unfolding IsReadBack
bs_read-bs_write bs value len s short hv room =
    let (t, e, back) = cases in (t, e, back.0, back.1, back.2)
  where
    cases :
        (t : Bitstream) × (bs_write bs value len ≡ some t)
        × IsReadBack bs s value len short hv room t
    cases = elim (Bool-cases (within_byte bs len)) [
      | inl inside ↦ in_byte bs s value len short hv room inside
      | inr outside ↦ elim (Bool-cases (ltb 0 bs.bit_pos)) [
        | inl some_bits ↦ unaligned bs s value len short hv room (ground (arith, some_bits)) outside
        | inr zero_bits ↦ aligned bs s value len short hv room (ground (arith, zero_bits)) outside
      ]
    ]
