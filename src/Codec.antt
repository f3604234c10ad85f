-- ===== src/Codec.antt =====
-- trine_codec.c: field elements packed at 12 bits each, and the layouts of keys and signatures.
-- `none` is the result -1, and `some b` the result 0 with the content b of the output region.
-- A pointer argument is an option whose `none` is NULL; the flags `out_ok` and `alloc` say that an
-- output pointer is not NULL and that malloc succeeded.
pub mod Encode
pub mod Decode
pub mod Arrays
pub mod RoundTrip
pub mod Canonical
pub mod Keys
use meds2end.Base.{
  ℕ, zero, suc, ◌+◌, ◌-◌, ◌*◌, ◌/◌, ◌%◌, ◌^◌, bit_and, bit_or, ◌>>=◌, for_up, for_up?,
}
use meds2end.Base.{Bool, true, false, not, ◌&&◌, ◌||◌, Option, none, some, List, [], ◌∷◌}
use meds2end.Base.{ltb, leb, ◌==◌, if◌then◌else◌, length, at, set, replicate}
use meds2end.Base.Bits.{bit}
use meds2end.Base.Slices.{slice, write_at}
use meds2end.Params.{Params, trine_q, trine_q_bits}

abbrev pub Ptr : Type 0
Ptr = Option (List ℕ)

abbrev pub is_null : Ptr → Bool
is_null none = true
is_null (some a) = false

-- What a non-null pointer shows. Where the code reads it, it has been tested.
abbrev pub deref : Ptr → List ℕ
deref none = []
deref (some a) = a

unfoldable pub valid_dimension : Params → ℕ → Bool
valid_dimension p n = leb 1 n && leb n p.n

unfoldable pub triform_element_count_local : ℕ → ℕ
triform_element_count_local n = n * n % 2 ^ 64 * n % 2 ^ 64

-- On size_t, as the code writes it.
unfoldable pub fq_array_bytes : ℕ → ℕ
fq_array_bytes element_count = (element_count * trine_q_bits % 2 ^ 64 + 8 - 1) % 2 ^ 64 / 8

-- `none` as soon as an element is not below q.
unfoldable pub validate_fq_array : List ℕ → ℕ → Option (Unit {0})
validate_fq_array values element_count =
    for_up? element_count (λ i ok. if leb trine_q (at values i) then none else some ok) tt

-- One round of the inner loop: the output and `bit_pos`.
unfoldable pub encode_bit : ℕ → ℕ → List ℕ × ℕ → List ℕ × ℕ
encode_bit value b (out, bit_pos) = (
  if bit value b == 0
      then out
      else set out (bit_pos / 8) (bit_or (at out (bit_pos / 8)) (2 ^ (bit_pos % 8) % 256)),
  bit_pos + 1,
)

unfoldable pub encode_fq_array_unchecked : List ℕ → List ℕ → ℕ → List ℕ
encode_fq_array_unchecked out values element_count =
    (for_up element_count (λ i s. for_up trine_q_bits (encode_bit (at values i)) s) (out, 0)).0

-- `(in[bit_pos / 8] >> (bit_pos % 8)) & 1`.
abbrev pub bit_at : List ℕ → ℕ → ℕ
bit_at input bit_pos = bit (at input (bit_pos / 8)) (bit_pos % 8)

unfoldable pub decode_fq_unchecked : List ℕ → ℕ → ℕ
decode_fq_unchecked input element_index =
    for_up trine_q_bits
      (λ b value. bit_or value (bit_at input (element_index * trine_q_bits + b) * 2 ^ b)) 0
    % 2 ^ 16

unfoldable pub padding_is_zero : List ℕ → ℕ → ℕ → Bool
padding_is_zero input element_count in_len =
    let used_in_last_byte = element_count * trine_q_bits % 2 ^ 64 % 8 in
    if used_in_last_byte == 0
    then true
    else bit_and (at input (in_len - 1)) (255 * 2 ^ used_in_last_byte % 256) == 0

unfoldable pub encode_fq_array : Bool → ℕ → Ptr → ℕ → Option (List ℕ)
encode_fq_array out_ok out_len values element_count =
    if not (out_len == fq_array_bytes element_count)
    then none
    else if element_count == 0
    then some []
    else if not out_ok || is_null values
    then none
    else do
      _ ← validate_fq_array (deref values) element_count
      some (encode_fq_array_unchecked (replicate out_len 0) (deref values) element_count)

-- One round of the decoding loop into `tmp`.
unfoldable pub decode_step : List ℕ → ℕ → List ℕ → Option (List ℕ)
decode_step input i tmp =
    let value = decode_fq_unchecked input i in
    if leb trine_q value then none else some (set tmp i value)

unfoldable pub decode_fq_array_checked : Bool → Bool → ℕ → Ptr → ℕ → Option (List ℕ)
decode_fq_array_checked alloc out_ok element_count input in_len =
    if not (in_len == fq_array_bytes element_count)
    then none
    else if element_count == 0
    then some []
    else if not out_ok || is_null input
    then none
    else if not (padding_is_zero (deref input) element_count in_len)
    then none
    else if not alloc
    then none
    else for_up? element_count (decode_step (deref input)) (replicate element_count 0)

module _ (p : Params) where
  unfoldable pub encode_vector : Bool → ℕ → Ptr → ℕ → Option (List ℕ)
  encode_vector out_ok out_len vector n =
      if not (valid_dimension p n) then none else encode_fq_array out_ok out_len vector n

  unfoldable pub decode_vector_checked : Bool → Bool → Ptr → ℕ → ℕ → Option (List ℕ)
  decode_vector_checked alloc out_ok input in_len n =
      if not (valid_dimension p n)
      then none
      else decode_fq_array_checked alloc out_ok n input in_len

  unfoldable pub encode_triform : Bool → ℕ → Ptr → ℕ → Option (List ℕ)
  encode_triform out_ok out_len form n =
      if not (valid_dimension p n)
      then none
      else encode_fq_array out_ok out_len form (triform_element_count_local n)

  unfoldable pub decode_triform_checked : Bool → Bool → Ptr → ℕ → ℕ → Option (List ℕ)
  decode_triform_checked alloc out_ok input in_len n =
      if not (valid_dimension p n)
      then none
      else decode_fq_array_checked alloc out_ok (triform_element_count_local n) input in_len
