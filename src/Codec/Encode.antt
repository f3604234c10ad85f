-- ===== src/Codec/Encode.antt =====
-- The packed array holds bit b of element i at position 12 * i + b, and zeros behind.
use native.Mathlib.Decide.{ℕ_discrete}
use meds2end.Base.{ℕ, suc, ◌+◌, ◌*◌, ◌/◌, ◌%◌, ◌^◌, ◌≤◌, ◌<◌, ◌≡◌, refl, sym, ap, ◌∙◌}
use meds2end.Base.{bit_or, false, arith, ltb, ◌==◌, if◌then◌else◌, Bool-cases, inl, inr}
use meds2end.Base.{List, at, at-set, set, length, length-set, length-replicate, replicate}
use meds2end.Base.{for_up, for_up_inv, get_or-replicate, ==→eq, ==→ne, eq→==, ne→==, ◌≢◌}
use meds2end.Base.Bits.{bit, set_bit}
use meds2end.Params.{trine_q_bits}
use meds2end.Codec.{bit_at, encode_bit, encode_fq_array_unchecked}

abbrev pub IsBytes : List ℕ → Type 0
IsBytes xs = (i : ℕ) → at xs i < 256

lt_suc : (j t : ℕ) → j ≢ t → ltb j t ≡ ltb j (suc t)
lt_suc j t ne = ground arith

-- Two positions in one byte are equal when their bit numbers are.
same_byte : (t j : ℕ) → t / 8 ≡ j / 8 → (t % 8 == j % 8) ≡ (t == j)
same_byte t j e = ground arith

other_byte : (t j : ℕ) → t / 8 ≢ j / 8 → (t == j) ≡ false
other_byte t j e = ground arith

-- Setting the bit at position t changes no other position.
bit_at-set :
    (out : List ℕ) (t j : ℕ)
    → IsBytes out
    → t / 8 < length out
    → bit_at (set out (t / 8) (bit_or (at out (t / 8)) (2 ^ (t % 8) % 256))) j
      ≡ (if t == j then 1 else bit_at out j)
bit_at-set out t j bytes lt = elim (ℕ_discrete (t / 8) (j / 8)) [
  | yes e ↦
      rw (at-set out (t / 8) (j / 8) _ lt, eq→== _ _ e)
        ((set_bit (at out (t / 8)) (t % 8) (j % 8) (bytes (t / 8)) (omega arith) (omega arith)).0
          ∙ rw (same_byte t j e, e))
  | no ne ↦ rw (at-set out (t / 8) (j / 8) _ lt, ne→== _ _ ne, other_byte t j ne)
]

module _ (values : List ℕ) (len : ℕ) where
  -- The bit that belongs at position t of the stream.
  abbrev source_bit : ℕ → ℕ
  source_bit t = bit (at values (t / 12)) (t % 12)

  -- The first t bits are written.
  pub record IsEncoded (t : ℕ) (s : List ℕ × ℕ) : Type 0 where
    pub position : s.1 ≡ t
    pub same_length : length s.0 ≡ len
    pub bytes : IsBytes s.0
    pub bits : (j : ℕ) → j < 8 * len → bit_at s.0 j ≡ (if ltb j t then source_bit j else 0)

  start-IsEncoded : IsEncoded 0 (replicate len 0, 0)
  start-IsEncoded = record {
    position = refl;
    same_length = length-replicate {A = ℕ} len 0;
    bytes = λ i. rw (get_or-replicate {A = ℕ} len i 0) (omega arith);
    bits = λ j lt. rw (get_or-replicate {A = ℕ} len (j / 8) 0) (ground arith);
  }

  encode_bit-IsEncoded :
      (t value b : ℕ) (s : List ℕ × ℕ)
      → t < 8 * len
      → bit value b ≡ source_bit t
      → IsEncoded t s
      → IsEncoded (suc t) (encode_bit value b s)
  unfolding encode_bit
  encode_bit-IsEncoded t value b (out, pos) lt e h = elim (Bool-cases (bit value b == 0)) [
    | inl zero_bit ↦
        rw (zero_bit, h.position)
          (record {
            position = omega arith;
            same_length = h.same_length;
            bytes = h.bytes;
            bits = λ j jlt. h.bits j jlt ∙ skip j (sym e ∙ ==→eq _ _ zero_bit);
          })
    | inr one_bit ↦
        rw (one_bit, h.position)
          (record {
            position = omega arith;
            same_length = length-set out (t / 8) _ ∙ h.same_length;
            bytes = λ i. rw (at-set out (t / 8) i _ in_range) (
                ground (
                  arith,
                  h.bytes i,
                  set_bit (at out (t / 8)) (t % 8) 0 (h.bytes (t / 8)) (omega arith) (omega arith),
                ));
            bits = λ j jlt.
                bit_at-set out t j h.bytes in_range
                ∙ ap (λ (x : ℕ). if t == j then 1 else x) (h.bits j jlt)
                ∙ write j (sym e ∙ one _ (==→ne _ _ one_bit));
          })
  ]
    where
      in_range : t / 8 < length out
      in_range = omega (arith, h.same_length)

      one : (x : ℕ) → x % 2 ≢ 0 → x % 2 ≡ 1
      one x ne = omega arith

      skip :
          (j : ℕ)
          → source_bit t ≡ 0
          → (if ltb j t then source_bit j else 0) ≡ (if ltb j (suc t) then source_bit j else 0)
      skip j z = elim (ℕ_discrete j t) [
        | yes same ↦ rw (same, z) (ground arith)
        | no other ↦ rw (lt_suc j t other)
      ]

      write :
          (j : ℕ)
          → source_bit t ≡ 1
          → (if t == j then 1 else if ltb j t then source_bit j else 0)
            ≡ (if ltb j (suc t) then source_bit j else 0)
      write j z = elim (ℕ_discrete j t) [
        | yes same ↦ rw (same, z) (ground arith)
        | no other ↦ rw (lt_suc j t other, ne→== t j (λ x. other (sym x)))
      ]

  -- The inner loop writes the twelve bits of one element.
  element-IsEncoded :
      (i : ℕ) (s : List ℕ × ℕ)
      → 12 * i + 12 ≤ 8 * len
      → IsEncoded (12 * i) s
      → IsEncoded (12 * suc i) (for_up trine_q_bits (encode_bit (at values i)) s)
  element-IsEncoded i s room h =
      let next : 12 * suc i ≡ 12 * i + 12 = omega arith in
      let first : 12 * i + 0 ≡ 12 * i = omega arith in
      rw next (
        for_up_inv (λ b t. IsEncoded (12 * i + b) t) (encode_bit (at values i)) 12 s (rw first h)
          λ b t lt k.
            let up : 12 * i + suc b ≡ suc (12 * i + b) = omega arith in
            let element : (12 * i + b) / 12 ≡ i = omega arith in
            let place : (12 * i + b) % 12 ≡ b = omega arith in
            rw up (
              encode_bit-IsEncoded (12 * i + b) (at values i) b t (omega arith)
                (rw (element, place)) k))

  pub encoded :
      (count : ℕ)
      → 12 * count ≤ 8 * len
      → (pos : ℕ) × IsEncoded
          (12 * count)
          (encode_fq_array_unchecked (replicate len 0) values count, pos)
  unfolding encode_fq_array_unchecked
  encoded count room = (
    _,
    for_up_inv (λ i s. IsEncoded (12 * i) s)
        (λ i s. for_up trine_q_bits (encode_bit (at values i)) s) count (replicate len 0, 0)
        start-IsEncoded (λ i s lt h. element-IsEncoded i s (omega arith) h),
  )
