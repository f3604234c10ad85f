-- ===== src/Codec/RoundTrip.antt =====
-- Encoding and decoding an array of field elements are inverse to each other.
use meds2end.Base.{ℕ, ◌+◌, ◌-◌, ◌*◌, ◌/◌, ◌%◌, ◌^◌, ◌≤◌, ◌<◌, ◌≡◌, refl, sym, ap, ◌∙◌}
use meds2end.Base.{true, false, arith, ltb, ◌==◌, Bool-cases}
use meds2end.Base.{inl, inr, ◌≢◌, some, List, at, length}
use meds2end.Base.{for_up, replicate, take, get_or_ext, length-take}
use meds2end.Base.{==→eq, eq→==, lt→ltb}
use meds2end.Base.Bits.{bit, clear_masked}
use meds2end.Base.Slices.{at-take}
use meds2end.Params.{trine_q}
use meds2end.Codec.{
  fq_array_bytes, encode_fq_array, encode_fq_array_unchecked, bit_at, decode_fq_unchecked,
  decode_fq_array_checked, padding_is_zero,
}
use meds2end.Codec.Encode.{IsBytes, IsEncoded, encoded}
use meds2end.Codec.Decode.{number_bits, decode_lem}
use meds2end.Codec.Arrays.{
  FitsSize, fq_array_bytes_lem, IsDecoded, decode_loop_total, validate_reduced, number_ext,
}

not_below : (a b : ℕ) → b ≤ a → ltb a b ≡ false
not_below a b h = ground arith

module _ (values : List ℕ) (count : ℕ) (fits : FitsSize count)
    (reduced : (i : ℕ) → i < count → at values i < trine_q) where
  abbrev pub packed : List ℕ
  packed = encode_fq_array_unchecked (replicate (fq_array_bytes count) 0) values count

  pub packed-IsEncoded :
      (pos : ℕ) × IsEncoded values (fq_array_bytes count) (12 * count) (packed, pos)
  packed-IsEncoded =
      encoded values (fq_array_bytes count) count (omega (arith, fq_array_bytes_lem count fits))

  packed-bit : (i b : ℕ) → i < count → b < 12 → bit_at packed (i * 12 + b) ≡ bit (at values i) b
  packed-bit i b hi hb =
      packed-IsEncoded.1.bits (i * 12 + b) (omega (arith, fq_array_bytes_lem count fits))
      ∙ rw (lt→ltb (i * 12 + b) (12 * count) (omega arith), element, place)
    where
      element : (i * 12 + b) / 12 ≡ i
      element = omega arith

      place : (i * 12 + b) % 12 ≡ b
      place = omega arith

  unpacked : (i : ℕ) → i < count → decode_fq_unchecked packed i ≡ at values i
  unpacked i lt =
      (decode_lem packed i).0
      ∙ number_ext _ (bit (at values i)) (λ b hb. packed-bit i b lt hb)
      ∙ number_bits (at values i) (omega (arith, reduced i lt))

  -- The bits behind the last element are clear.
  packed_padding : padding_is_zero packed count (fq_array_bytes count) ≡ true
  unfolding padding_is_zero
  packed_padding = elim (Bool-cases (count * 12 % 2 ^ 64 % 8 == 0)) [
    | inl aligned ↦ rw aligned
    | inr ragged ↦ rw ragged (
        eq→== _ _ (
          clear_masked (at packed last) used (packed-IsEncoded.1.bytes last) (omega arith)
            λ j hj le. clear j hj le (ground (arith, ragged))))
  ]
    where
      last : ℕ
      last = fq_array_bytes count - 1

      used : ℕ
      used = count * 12 % 2 ^ 64 % 8

      clear : (j : ℕ) → j < 8 → used ≤ j → used ≢ 0 → bit (at packed last) j ≡ 0
      clear j hj le ne =
          let row : (8 * last + j) / 8 ≡ last = omega arith in
          let column : (8 * last + j) % 8 ≡ j = omega arith in
          rw (row, column) at
            (packed-IsEncoded.1.bits (8 * last + j) (omega (arith, fq_array_bytes_lem count fits)))
          ∙ rw
              (not_below (8 * last + j) (12 * count) (omega (arith, fq_array_bytes_lem count fits)))

  -- Past its guards, the encoder returns the packed array.
  pub encode_packed : encode_fq_array true (fq_array_bytes count) (some values) count ≡ some packed
  unfolding encode_fq_array
  encode_packed = elim (Bool-cases (count == 0)) [
    | inl empty ↦
        let none_at_all : count ≡ 0 = ==→eq _ _ empty in
        rw (eq→== (fq_array_bytes count) _ refl, empty)
          (ap some
            (sym (rw none_at_all (unfold encode_fq_array_unchecked fq_array_bytes for_up in refl))))
    | inr some_elements ↦
        rw (
          eq→== (fq_array_bytes count) _ refl,
          some_elements,
          validate_reduced values count reduced,
        )
  ]

  decoded_take :
      (tmp : List ℕ)
      → count ≤ length values
      → IsDecoded packed count count tmp
      → tmp ≡ take count values
  decoded_take tmp room d =
      get_or_ext 0 tmp (take count values) (d.same_length ∙ omega (arith, length-take count values))
        λ i lt.
          let below : i < count = omega (arith, d.same_length) in
          d.holds i below ∙ unpacked i below ∙ sym (at-take count values i below)

  pub decode_packed :
      count ≤ length values
      → decode_fq_array_checked true true count (some packed) (fq_array_bytes count)
        ≡ some (take count values)
  unfolding decode_fq_array_checked
  decode_packed room = elim (Bool-cases (count == 0)) [
    | inl empty ↦
        let none_at_all : count ≡ 0 = ==→eq _ _ empty in
        rw (eq→== (fq_array_bytes count) _ refl, empty) (rw none_at_all)
    | inr some_elements ↦
        let (tmp, e, d) =
          decode_loop_total packed count (λ i lt. rw (unpacked i lt) (reduced i lt)) in
        rw (eq→== (fq_array_bytes count) _ refl, some_elements, packed_padding)
          (e ∙ ap some (decoded_take tmp room d))
  ]

-- The encoder, given reduced elements and the size that it expects, fills its region with bytes
-- from which the decoder, given the same size, returns these elements. The size of the array in
-- bits fits size_t, malloc succeeds, and the pointers are not NULL.
pub decode-encode :
    (values : List ℕ) (count : ℕ)
    → FitsSize count
    → ((i : ℕ) → i < count → at values i < trine_q)
    → count ≤ length values
    → (bytes : List ℕ) × (encode_fq_array true (fq_array_bytes count) (some values) count
        ≡ some bytes)
      × (length bytes ≡ fq_array_bytes count)
      × IsBytes bytes
      × (decode_fq_array_checked true true count (some bytes) (fq_array_bytes count)
          ≡ some (take count values))
decode-encode values count fits reduced room = (
  _,
  encode_packed values count fits reduced,
  (packed-IsEncoded values count fits reduced).1.same_length,
  (packed-IsEncoded values count fits reduced).1.bytes,
  decode_packed values count fits reduced room,
)
