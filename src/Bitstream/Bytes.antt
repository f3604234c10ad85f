-- ===== src/Bitstream/Bytes.antt =====
-- bs_write: the bytes that its loop and its last branch leave in the buffer.
use native.Mathlib.Decide.{ℕ_discrete}
use meds2end.Base.{
  ℕ, zero, suc, ◌+◌, ◌-◌, ◌*◌, ◌/◌, ◌%◌, ◌^◌, ◌≤◌, ◌<◌, ◌≡◌, refl, sym, ap, ◌∙◌, arith,
}
use meds2end.Base.{at, length, length-set, at-set, for_up, for_up_inv, ltb, ◌==◌}
use meds2end.Base.{Bool-cases, true, false, inl, inr, eq→==, ne→==}
use meds2end.Base.Congr.{pow-add}
use meds2end.Bitstream.{Bitstream, Writing, write_byte, write_tail}

-- What is left of a number after i bytes.
unfoldable pub rest : ℕ → ℕ → ℕ
rest v zero = v
rest v (suc i) = rest v i / 2 ^ 8

byte_less : (v l : ℕ) → 8 ≤ l → v < 2 ^ l → v / 2 ^ 8 < 2 ^ (l - 8)
byte_less v l le h =
    let split : 2 ^ l ≡ 2 ^ (l - 8) * 2 ^ 8 =
      ap (λ (e : ℕ). 2 ^ e) {x = l} {y = l - 8 + 8} (omega arith) ∙ pow-add 2 (l - 8) 8 in
    omega (arith, split, h)

pub rest-lt : (v l i : ℕ) → v < 2 ^ l → 8 * i ≤ l → rest v i < 2 ^ (l - 8 * i)
unfolding rest
rest-lt v l zero h le = let same : l - 8 * 0 ≡ l = omega arith in rw same h
rest-lt v l (suc i) h le =
    let same : l - 8 * i - 8 ≡ l - 8 * suc i = omega arith in
    rw same at (byte_less (rest v i) (l - 8 * i) (omega arith) (rest-lt v l i h (omega arith)))

-- The state of the writer after i rounds.
record IsWriting (v l : ℕ) (start : Bitstream) (i : ℕ) (w : Writing) : Type 0 where
  value : w.value ≡ rest v i
  left : w.data_len ≡ l - 8 * i
  same_length : length w.bs.buf ≡ length start.buf
  same_size : w.bs.buf_len ≡ start.buf_len
  place : w.bs.byte_pos ≡ start.byte_pos + i
  aligned : w.bs.bit_pos ≡ 0
  written : (t : ℕ) → t < i → at w.bs.buf (start.byte_pos + t) ≡ rest v t % 256
  before : (j : ℕ) → j < start.byte_pos → at w.bs.buf j ≡ at start.buf j

module _ (v l : ℕ) (start : Bitstream) where
  write_byte-IsWriting :
      (i : ℕ) (w : Writing)
      → start.byte_pos + i < length start.buf
      → IsWriting v l start i w
      → IsWriting v l start (suc i) (write_byte w)
  unfolding write_byte rest
  write_byte-IsWriting i w room h = record {
    value = ap (λ (x : ℕ). x / 2 ^ 8) h.value;
    left = omega (arith, h.left);
    same_length = length-set w.bs.buf _ _ ∙ h.same_length;
    same_size = h.same_size;
    place = omega (arith, h.place);
    aligned = h.aligned;
    written = λ t lt.
        at-set w.bs.buf w.bs.byte_pos (start.byte_pos + t) (w.value % 256)
          (omega (arith, h.place, h.same_length))
        ∙ elim (ℕ_discrete t i) [
          | yes here ↦
              let hit : (w.bs.byte_pos == start.byte_pos + t) ≡ true =
                eq→== _ _ (omega (arith, h.place)) in
              rw hit (ap (λ (x : ℕ). x % 256) h.value ∙ ap (λ k. rest v k % 256) (sym here))
          | no other ↦
              let miss : (w.bs.byte_pos == start.byte_pos + t) ≡ false =
                ne→== _ _ (λ e. other (omega (arith, h.place, e))) in
              rw miss (h.written t (omega arith))
        ];
    before = λ j lt.
        at-set w.bs.buf w.bs.byte_pos j (w.value % 256) (omega (arith, h.place, h.same_length))
        ∙ (let miss : (w.bs.byte_pos == j) ≡ false =
              ne→== _ _ (λ e. absurd (omega (arith, h.place, e))) in
            rw miss (h.before j lt));
  }

  -- The stream after the loop and the tail.
  pub record IsWhole (bs : Bitstream) : Type 0 where
    pub same_length : length bs.buf ≡ length start.buf
    pub same_size : bs.buf_len ≡ start.buf_len
    pub place : bs.byte_pos ≡ start.byte_pos + l / 8
    pub bits : bs.bit_pos ≡ l % 8
    pub written : (t : ℕ) → t < l / 8 → at bs.buf (start.byte_pos + t) ≡ rest v t % 256
    pub last : 0 < l % 8 → at bs.buf (start.byte_pos + l / 8) ≡ rest v (l / 8) % 256
    pub before : (j : ℕ) → j < start.byte_pos → at bs.buf j ≡ at start.buf j

  write_tail-IsWhole :
      (w : Writing)
      → start.byte_pos * 8 + l ≤ length start.buf * 8
      → IsWriting v l start (l / 8) w
      → IsWhole (write_tail w)
  unfolding write_tail
  write_tail-IsWhole w room h = elim (Bool-cases (ltb 0 w.data_len)) [
    | inr none_left ↦ rw none_left (record {
      same_length = h.same_length;
      same_size = h.same_size;
      place = h.place;
      bits = ground (arith, none_left, h.left, h.aligned);
      written = h.written;
      last = λ pos. absurd (ground (arith, none_left, h.left));
      before = h.before;
    })
    | inl some_left ↦
        let inside : w.bs.byte_pos < length w.bs.buf =
          ground (arith, some_left, h.left, h.place, h.same_length) in
        rw some_left (record {
          same_length = length-set w.bs.buf _ _ ∙ h.same_length;
          same_size = h.same_size;
          place = h.place;
          bits = omega (arith, h.left);
          written = λ t lt.
              at-set w.bs.buf w.bs.byte_pos (start.byte_pos + t) (w.value % 256) inside
              ∙ (let miss : (w.bs.byte_pos == start.byte_pos + t) ≡ false =
                    ne→== _ _ (λ e. absurd (omega (arith, h.place, e))) in
                  rw miss (h.written t lt));
          last = λ pos.
              at-set w.bs.buf w.bs.byte_pos (start.byte_pos + l / 8) (w.value % 256) inside
              ∙ (let hit : (w.bs.byte_pos == start.byte_pos + l / 8) ≡ true = eq→== _ _ h.place in
                  rw hit (ap (λ (x : ℕ). x % 256) h.value));
          before = λ j lt.
              at-set w.bs.buf w.bs.byte_pos j (w.value % 256) inside
              ∙ (let miss : (w.bs.byte_pos == j) ≡ false =
                    ne→== _ _ (λ e. absurd (omega (arith, h.place, e))) in
                  rw miss (h.before j lt));
        })
  ]

  pub write_aligned :
      start.bit_pos ≡ 0
      → start.byte_pos * 8 + l ≤ length start.buf * 8
      → IsWhole (
          write_tail
            (for_up (l / 8) (λ i. write_byte) (record { value = v; data_len = l; bs = start })))
  unfolding rest
  write_aligned zero_bits room = write_tail-IsWhole _ room (
      for_up_inv (IsWriting v l start) (λ i. write_byte) (l / 8)
        (record { value = v; data_len = l; bs = start })
        (record {
          value = refl;
          left = omega arith;
          same_length = refl;
          same_size = refl;
          place = omega arith;
          aligned = zero_bits;
          written = λ t lt. elim lt [ ];
          before = λ j lt. refl;
        })
        (λ i u lt k. write_byte-IsWriting i u (omega arith) k))
