-- ===== src/Bitstream/Readback.antt =====
-- bs_read: what its loop and its last branch make of the bytes that bs_write left.
use native.Mathlib.Nat.{pow-le-pow_right, add-mul, mul_assoc, mul_comm, mod-eq_of_lt}
use meds2end.Base.{
  ℕ, suc, ◌+◌, ◌-◌, ◌*◌, ◌/◌, ◌%◌, ◌^◌, ◌≤◌, ◌<◌, ◌≡◌, refl, sym, ap, ap₂, ◌∙◌, arith, bit_or,
  bit_and,
}
use meds2end.Base.{List, at, for_up, for_up_inv, ltb}
use meds2end.Base.{Bool-cases, inl, inr}
use meds2end.Base.Bits.{bit_or_fields, masked_kept}
use meds2end.Base.Congr.{pow-add}
use meds2end.Bitstream.{Bitstream, Reading, read_byte, read_tail}
use meds2end.Bitstream.Bytes.{rest, rest-lt, IsWhole}

-- A byte put behind `off` bits.
put_byte :
    (off value byte r : ℕ)
    → value < 2 ^ off
    → byte < 256
    → off + 8 ≤ 32
    → (bit_or value (byte * 2 ^ off % 2 ^ 32) ≡ value + byte * 2 ^ off)
      × (bit_or value (byte * 2 ^ off % 2 ^ 32) < 2 ^ (off + 8))
put_byte off value byte r small hb fits =
    let split : 2 ^ (off + 8) ≡ 2 ^ off * 256 = pow-add 2 off 8 in
    let bound : 2 ^ (off + 8) ≤ 2 ^ 32 = pow-le-pow_right {n = 2} (omega arith) fits in
    let top : byte * 2 ^ off ≤ 255 * 2 ^ off = grind arith in
    let no_wrap : byte * 2 ^ off % 2 ^ 32 ≡ byte * 2 ^ off =
      mod-eq_of_lt (omega (arith, split, bound, top)) in
    let sum : bit_or value (byte * 2 ^ off % 2 ^ 32) ≡ value + byte * 2 ^ off =
      ap (bit_or value) no_wrap ∙ bit_or_fields off value byte small in
    (sum, omega (arith, sum, split, top))

-- The lowest byte and the others.
digits : (a p : ℕ) → a % 256 * p + a / 2 ^ 8 * (p * 256) ≡ a * p
digits a p =
    ap (λ (x : ℕ). a % 256 * p + x)
      (ap (λ (x : ℕ). a / 2 ^ 8 * x) (mul_comm p 256) ∙ sym (mul_assoc (a / 2 ^ 8) 256 p))
    ∙ sym (add-mul (a % 256) (a / 2 ^ 8 * 256) p)
    ∙ ap (λ (x : ℕ). x * p) (omega arith)

module _ (v l : ℕ) (start whole : Bitstream) (w : IsWhole v l start whole) (hv : v < 2 ^ l)
    (o h : ℕ) (hh : h < 2 ^ o) (fits : o + l ≤ 32) where
  -- The state of the reader after i rounds.
  record IsReading (i : ℕ) (r : Reading) : Type 0 where
    off : r.off ≡ o + 8 * i
    left : r.data_len ≡ l - 8 * i
    same_buf : r.bs.buf ≡ whole.buf
    place : r.bs.byte_pos ≡ start.byte_pos + i
    aligned : r.bs.bit_pos ≡ 0
    small : r.value < 2 ^ (o + 8 * i)
    total : r.value + rest v i * 2 ^ (o + 8 * i) ≡ h + v * 2 ^ o

  read_byte-IsReading :
      (i : ℕ) (r : Reading) → i < l / 8 → IsReading i r → IsReading (suc i) (read_byte r)
  unfolding read_byte rest
  read_byte-IsReading i r lt k =
      let byte = rest v i % 256 in
      let here : at r.bs.buf r.bs.byte_pos ≡ byte =
        ap (λ (b : List ℕ). at b r.bs.byte_pos) k.same_buf
        ∙ ap (at whole.buf) k.place
        ∙ w.written i lt in
      let (sum, less) = put_byte (o + 8 * i) r.value byte 0 k.small (omega arith) (omega arith) in
      let same : bit_or r.value (at r.bs.buf r.bs.byte_pos * 2 ^ r.off % 2 ^ 32)
          ≡ bit_or r.value (byte * 2 ^ (o + 8 * i) % 2 ^ 32) =
        ap₂ (λ (b e : ℕ). bit_or r.value (b * 2 ^ e % 2 ^ 32)) here k.off in
      let next : o + 8 * suc i ≡ o + 8 * i + 8 = omega arith in
      let split : 2 ^ (o + 8 * i + 8) ≡ 2 ^ (o + 8 * i) * 256 = pow-add 2 (o + 8 * i) 8 in
      record {
        off = omega (arith, k.off);
        left = omega (arith, k.left);
        same_buf = k.same_buf;
        place = omega (arith, k.place);
        aligned = refl;
        small = rw (next, same) less;
        total = rw (next, same, sum, split) (regroup (2 ^ (o + 8 * i)) ∙ k.total);
      }
    where
      regroup :
          (p : ℕ)
          → r.value + rest v i % 256 * p + rest v i / 2 ^ 8 * (p * 256) ≡ r.value + rest v i * p
      regroup p = omega (arith, digits (rest v i) p)

  -- The last bits are those of what is left of the number.
  left_small : rest v (l / 8) < 2 ^ (l % 8)
  left_small =
      let same : l - 8 * (l / 8) ≡ l % 8 = omega arith in
      rw same at (rest-lt v l (l / 8) hv (omega arith))

  put_last :
      (value : ℕ)
      → value < 2 ^ (o + 8 * (l / 8))
      → bit_or value (rest v (l / 8) * 2 ^ (o + 8 * (l / 8)) % 2 ^ 32)
        ≡ value + rest v (l / 8) * 2 ^ (o + 8 * (l / 8))
  put_last value small =
      let off = o + 8 * (l / 8) in
      let split : 2 ^ (off + l % 8) ≡ 2 ^ off * 2 ^ (l % 8) = pow-add 2 off (l % 8) in
      let bound : 2 ^ (off + l % 8) ≤ 2 ^ 32 =
        pow-le-pow_right {n = 2} (omega arith) {j = 32} (omega (arith, fits)) in
      let some_bits : 0 < 2 ^ off = omega (arith, small) in
      let inside : rest v (l / 8) * 2 ^ off < 2 ^ off * 2 ^ (l % 8) =
        below (rest v (l / 8)) (2 ^ (l % 8)) (2 ^ off) some_bits left_small in
      let no_wrap : rest v (l / 8) * 2 ^ off % 2 ^ 32 ≡ rest v (l / 8) * 2 ^ off =
        mod-eq_of_lt (omega (arith, split, bound, inside)) in
      ap (bit_or value) no_wrap ∙ bit_or_fields off value (rest v (l / 8)) small
    where
      below : (x y p : ℕ) → 0 < p → x < y → x * p < p * y
      below x y p pos lt = grind arith

  read_tail_lem :
      (r : Reading)
      → IsReading (l / 8) r
      → ((read_tail r).0 ≡ h + v * 2 ^ o)
        × ((read_tail r).1.byte_pos ≡ whole.byte_pos)
        × ((read_tail r).1.bit_pos ≡ whole.bit_pos)
  unfolding read_tail
  read_tail_lem r k = elim (Bool-cases (ltb 0 r.data_len)) [
    | inr none_left ↦
        let no_bits : l % 8 ≡ 0 = ground (arith, none_left, k.left) in
        let nothing : rest v (l / 8) ≡ 0 = omega (arith, rw no_bits at left_small) in
        let empty : rest v (l / 8) * 2 ^ (o + 8 * (l / 8)) ≡ 0 =
          ap (λ (x : ℕ). x * 2 ^ (o + 8 * (l / 8))) nothing ∙ omega arith in
        rw none_left (
          omega (arith, k.total, empty),
          omega (arith, k.place, w.place),
          omega (arith, k.aligned, w.bits, no_bits),
        )
    | inl some_left ↦
        let bits : r.data_len ≡ l % 8 = omega (arith, k.left) in
        let pos : 0 < l % 8 = ground (arith, some_left, bits) in
        let bound : 2 ^ (l % 8) ≤ 2 ^ 8 =
          pow-le-pow_right {n = 2} (omega arith) {j = 8} (omega arith) in
        let byte : at r.bs.buf r.bs.byte_pos ≡ rest v (l / 8) =
          ap (λ (b : List ℕ). at b r.bs.byte_pos) k.same_buf
          ∙ ap (at whole.buf) k.place
          ∙ w.last pos
          ∙ mod-eq_of_lt (omega (arith, left_small, bound)) in
        let masked : bit_and (at r.bs.buf r.bs.byte_pos) (2 ^ r.data_len - 1) ≡ rest v (l / 8) =
          ap₂ (λ (x u : ℕ). bit_and x (2 ^ u - 1)) byte bits
          ∙ masked_kept (l % 8) (rest v (l / 8)) (omega arith) (omega (arith, left_small, bound))
              left_small in
        rw some_left (
          ap₂ (λ (x e : ℕ). bit_or r.value (x * 2 ^ e % 2 ^ 32)) masked k.off
              ∙ put_last r.value k.small
              ∙ k.total,
          omega (arith, k.place, w.place),
          omega (arith, bits, w.bits),
        )
  ]

  pub read_aligned :
      (bs : Bitstream)
      → bs.buf ≡ whole.buf
      → bs.byte_pos ≡ start.byte_pos
      → bs.bit_pos ≡ 0
      → let out = read_tail (
          for_up (l / 8) (λ i. read_byte) (record { value = h; off = o; data_len = l; bs = bs })) in
        (out.0 ≡ h + v * 2 ^ o)
        × (out.1.byte_pos ≡ whole.byte_pos)
        × (out.1.bit_pos ≡ whole.bit_pos)
  unfolding rest
  read_aligned bs same_buf place aligned =
      let next : o + 8 * 0 ≡ o = omega arith in
      read_tail_lem _ (
        for_up_inv IsReading (λ i. read_byte) (l / 8)
          (record { value = h; off = o; data_len = l; bs = bs })
          (record {
            off = omega arith;
            left = omega arith;
            same_buf = same_buf;
            place = omega (arith, place);
            aligned = aligned;
            small = rw next hh;
            total = rw next refl;
          })
          (λ i r lt k. read_byte-IsReading i r lt k))
