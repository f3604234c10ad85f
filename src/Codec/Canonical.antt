-- ===== src/Codec/Canonical.antt =====
-- Whatever the array decoder accepts is the encoding of what it returns.
use meds2end.Base.{ℕ, zero, suc, ◌+◌, ◌-◌, ◌*◌, ◌/◌, ◌%◌, ◌^◌, ◌≤◌, ◌<◌, ◌≡◌, refl, sym, ap, ◌∙◌}
use meds2end.Base.{bit_and, true, arith, ltb, ◌==◌, if◌then◌else◌, Bool-cases}
use meds2end.Base.{inl, inr, ◌≢◌, some, List, [], ◌∷◌, at, length}
use meds2end.Base.{get_or_ext, ==→eq, ne→==, ltb→lt}
use meds2end.Base.Bits.{bit, masked_clear, byte_ext}
use meds2end.Params.{trine_q}
use meds2end.Codec.{
  fq_array_bytes, encode_fq_array, bit_at, decode_fq_array_checked, padding_is_zero,
}
use meds2end.Codec.Encode.{IsBytes, IsEncoded}
use meds2end.Codec.Decode.{number, decode_lem}
use meds2end.Codec.Arrays.{FitsSize, fq_array_bytes_lem, IsDecoded, decode_loop}
use meds2end.Codec.RoundTrip.{packed, packed-IsEncoded, encode_packed}

-- A claim about a number below 12 holds when it holds of each.
below_twelve :
    (P : ℕ → Type 0)
    → (all : P 0 × P 1 × P 2 × P 3 × P 4 × P 5 × P 6 × P 7 × P 8 × P 9 × P 10 × P 11) → (b : ℕ)
    → b < 12
    → P b
below_twelve P all zero lt = all.0
below_twelve P all (suc zero) lt = all.1
below_twelve P all (suc (suc zero)) lt = all.2
below_twelve P all (suc (suc (suc zero))) lt = all.3
below_twelve P all (suc (suc (suc (suc zero)))) lt = all.4
below_twelve P all (suc (suc (suc (suc (suc zero))))) lt = all.5
below_twelve P all (suc (suc (suc (suc (suc (suc zero)))))) lt = all.6
below_twelve P all (suc (suc (suc (suc (suc (suc (suc zero))))))) lt = all.7
below_twelve P all (suc (suc (suc (suc (suc (suc (suc (suc zero)))))))) lt = all.8
below_twelve P all (suc (suc (suc (suc (suc (suc (suc (suc (suc zero))))))))) lt = all.9
below_twelve P all (suc (suc (suc (suc (suc (suc (suc (suc (suc (suc zero)))))))))) lt = all.10
below_twelve P all (suc (suc (suc (suc (suc (suc (suc (suc (suc (suc (suc zero))))))))))) lt =
    all.11
below_twelve P all (suc (suc (suc (suc (suc (suc (suc (suc (suc (suc (suc (suc b)))))))))))) lt =
    absurd (omega arith)

-- The bits of the number made of twelve given bits are these bits.
bit-number : (f : ℕ → ℕ) → ((b : ℕ) → f b < 2) → (b : ℕ) → b < 12 → bit (number f) b ≡ f b
bit-number f h =
    below_twelve (λ b. bit (number f) b ≡ f b)
      (omega (arith, h 0, h 1, h 2, h 3, h 4, h 5, h 6, h 7, h 8, h 9, h 10, h 11))

module _ (input values : List ℕ) (count : ℕ) (fits : FitsSize count) (bytes : IsBytes input)
    (padded : padding_is_zero input count (fq_array_bytes count) ≡ true)
    (decoded : IsDecoded input count count values) where
  reduced : (i : ℕ) → i < count → at values i < trine_q
  reduced i lt = rw (decoded.holds i lt) (decoded.reduced i lt)

  -- Inside the elements the stored bit is the one that was read.
  stored_bit : (t : ℕ) → t < 12 * count → bit (at values (t / 12)) (t % 12) ≡ bit_at input t
  stored_bit t lt = rw (
    decoded.holds (t / 12) (omega arith),
    (decode_lem input (t / 12)).0,
    bit-number (λ b. bit_at input (t / 12 * 12 + b)) (λ b. omega arith) (t % 12) (omega arith),
    position,
  )
    where
      position : t / 12 * 12 + t % 12 ≡ t
      position = omega arith

  -- Behind them the padding test has seen zeros.
  padding_bit : (t : ℕ) → 12 * count ≤ t → t < 8 * fq_array_bytes count → bit_at input t ≡ 0
  unfolding padding_is_zero
  padding_bit t le lt =
      masked_clear (at input (t / 8)) (count * 12 % 2 ^ 64 % 8) (t % 8) (bytes (t / 8))
        (omega arith) (omega arith) mask_zero (omega (arith, fq_array_bytes_lem count fits))
    where
      last : t / 8 ≡ fq_array_bytes count - 1
      last = omega (arith, fq_array_bytes_lem count fits)

      ragged : count * 12 % 2 ^ 64 % 8 ≢ 0
      ragged = omega (arith, fq_array_bytes_lem count fits)

      mask_zero : bit_and (at input (t / 8)) (255 * 2 ^ (count * 12 % 2 ^ 64 % 8) % 256) ≡ 0
      mask_zero = rw last (==→eq _ _ (rw (ne→== _ _ ragged) at padded))

  repacked : length input ≡ fq_array_bytes count → packed values count fits reduced ≡ input
  repacked size = get_or_ext 0 _ input (encoding.same_length ∙ sym size) λ k lt.
      byte_ext _ _ (encoding.bytes k) (bytes k) λ j hj.
        let row : (8 * k + j) / 8 ≡ k = omega arith in
        let column : (8 * k + j) % 8 ≡ j = omega arith in
        let inside : 8 * k + j < 8 * fq_array_bytes count = omega (arith, encoding.same_length) in
        rw (row, column) at (encoding.bits (8 * k + j) inside ∙ same (8 * k + j) inside)
    where
      encoding :
          IsEncoded values
            (fq_array_bytes count)
            (12 * count)
            (packed values count fits reduced, (packed-IsEncoded values count fits reduced).0)
      encoding = (packed-IsEncoded values count fits reduced).1

      same :
          (t : ℕ)
          → t < 8 * fq_array_bytes count
          → (if ltb t (12 * count) then bit (at values (t / 12)) (t % 12) else 0) ≡ bit_at input t
      same t lt = elim (Bool-cases (ltb t (12 * count))) [
        | inl inside ↦ rw inside (stored_bit t (ltb→lt _ _ inside))
        | inr outside ↦ rw outside (sym (padding_bit t (ground (arith, outside)) lt))
      ]

-- What a successful call of the decoder on elements has established.
decode_inversion :
    (input values : List ℕ) (count in_len : ℕ)
    → count ≢ 0
    → decode_fq_array_checked true true count (some input) in_len ≡ some values
    → (in_len ≡ fq_array_bytes count)
      × (padding_is_zero input count in_len ≡ true)
      × IsDecoded input count count values
unfolding decode_fq_array_checked
decode_inversion input values count in_len ne e =
    elim (Bool-cases (in_len == fq_array_bytes count)) [
      | inr other ↦ absurd (ground (arith, rw other at e))
      | inl size ↦ elim (Bool-cases (padding_is_zero input count in_len)) [
        | inr dirty ↦ absurd (ground (arith, rw (size, ne→== count 0 ne, dirty) at e))
        | inl clean ↦ (
          ==→eq _ _ size,
          clean,
          decode_loop input count (rw (size, ne→== count 0 ne, clean) at e),
        )
      ]
    ]

empty : (xs : List ℕ) → length xs ≡ 0 → xs ≡ []
empty [] h = refl
empty (x ∷ xs) h = absurd (omega arith)

-- The encoding is canonical: whatever bytes the decoder accepts, it returns as many reduced
-- elements as were asked for, and the encoder gives the same bytes back from them. The input holds bytes and has the length that is passed for it, and
-- the size of the array in bits fits size_t.
pub encode-decode :
    (input values : List ℕ) (count in_len : ℕ)
    → FitsSize count
    → IsBytes input
    → length input ≡ in_len
    → decode_fq_array_checked true true count (some input) in_len ≡ some values
    → (length values ≡ count)
      × ((i : ℕ) → i < count → at values i < trine_q)
      × (encode_fq_array true in_len (some values) count ≡ some input)
encode-decode input values zero in_len fits bytes size e =
    unfold decode_fq_array_checked encode_fq_array in
    elim (Bool-cases (in_len == fq_array_bytes 0)) [
      | inr other ↦ absurd (ground (arith, rw other at e))
      | inl same ↦
          let nothing : [] ≡ values = ground (arith, rw same at e) in
          let in_zero : in_len ≡ 0 = ==→eq _ _ same ∙ unfold fq_array_bytes in refl in
          rw same
            (rw (← nothing), λ i lt. elim lt [ ], ap some (sym (empty input (size ∙ in_zero))))
    ]
encode-decode input values (suc c) in_len fits bytes size e =
    let (same, clean, d) = decode_inversion input values (suc c) in_len (omega arith) e in
    let clean' = rw same at clean in
    (
      d.same_length,
      reduced input values (suc c) fits bytes clean' d,
      rw same (
          encode_packed values (suc c) fits (reduced input values (suc c) fits bytes clean' d)
          ∙ ap some (repacked input values (suc c) fits bytes clean' d (size ∙ same))),
    )
