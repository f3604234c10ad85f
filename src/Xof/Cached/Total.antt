-- ===== src/Xof/Cached/Total.antt =====
-- trine_xof_squeeze returns its output, within the sizes that the types and pseudoXOF allow.
use meds2end.Base.{ℕ, zero, suc, ◌+◌, ◌-◌, ◌*◌, ◌/◌, ◌^◌, ◌<◌, ◌≡◌, refl, ◌∙◌, arith, List, []}
use meds2end.Base.{true, false, inl, inr, Bool-cases, some}
use meds2end.Base.{length, ltb, take}
use meds2end.Base.Slices.{slice, write_at}
use meds2end.Xof.Cached.{size_limit, Iccs, XofCache, refill, copy_out, cache_squeeze}
use meds2end.Xof.Cached.Growth.{grow_buffer-total, grow_buffer-le, grow_buffer_lem}
use meds2end.Xof.Cached.Stream.{IsXof, IsStream, input_length, size_to_bits-total}
use meds2end.Xof.Cached.Squeeze.{enters, nothing}

-- The number of bits that every output of pseudoXOF is short of, by its comment in iccs/auxfunc.h.
abbrev pub xof_limit : ℕ
xof_limit = 2 ^ 40 - 2 ^ 8

module _ (ic : Iccs) (laws : IsXof ic) (message : List ℕ) (position : ℕ) (s : XofCache)
    (h : IsStream ic message position s)
    (computes : (output_bits : ℕ)
      → 0 < output_bits
      → output_bits < xof_limit
      → (out : List ℕ) × (ic.pseudo_xof output_bits message (length message * 8) ≡ some out)) where
  refill-total :
      (required : ℕ)
      → length message * 8 < size_limit
      → required * 16 < xof_limit
      → s.output_capacity < required
      → (cache : List ℕ) × (capacity : ℕ) × (refill ic true s required ≡ some (cache, capacity))
  unfolding refill
  refill-total required short small more =
      let (buffer, c, grown) =
        grow_buffer-total s.output_cache s.output_capacity required h.size (omega (arith, h.fits))
          (omega arith) in
      let le =
        grow_buffer-le s.output_cache s.output_capacity required h.size (omega (arith, h.fits))
          (omega arith) true ((xof_limit - 1) / 8) grown (omega arith) (omega arith) (omega arith)
          (omega arith) in
      let wide =
        grow_buffer_lem s.output_cache s.output_capacity required h.size (omega (arith, h.fits))
          (omega arith) true grown in
      let bits = size_to_bits-total c (omega (arith, le)) in
      let used = input_length ic laws message position s h in
      let input_bits = size_to_bits-total s.input.used (omega (arith, short, used)) in
      let (out, computed) = computes (c * 8) (omega (arith, wide.enough)) (omega (arith, le)) in
      let output : ic.pseudo_xof (c * 8) (take s.input.used s.input.bytes) (s.input.used * 8)
          ≡ some out =
        rw (h.input.content, ← used) computed in
      (write_at buffer 0 out, c, simp (grown, bits, input_bits, output) refl)

  -- Where the call of realloc succeeds, and pseudoXOF returns 0 on the message for every length of
  -- output that its documentation allows, trine_xof_squeeze returns 0, with an output. The message is
  -- short of the limit of its type; twice the output so far is short of the limit of pseudoXOF,
  -- since the cache grows to at most twice what is asked for.
  pub cache_squeeze-total :
      (n : ℕ)
      → length message * 8 < size_limit
      → (position + n) * 16 < xof_limit
      → (t : XofCache) × (out : List ℕ) × (cache_squeeze ic true s n ≡ (t, some out))
  unfolding copy_out
  cache_squeeze-total zero short small = (s, [], nothing ic laws message position s h true)
  cache_squeeze-total (suc n) short small =
      let room : ltb (size_limit - 1 - s.output_offset) (suc n) ≡ false =
        ground (arith, h.offset) in
      elim (Bool-cases (ltb s.output_capacity (s.output_offset + suc n))) [
        | inr cached ↦ (
          record s { output_offset = s.output_offset + suc n },
          slice s.output_cache s.output_offset (suc n),
          enters ic laws message position s h true n ∙ simp (room, cached) refl,
        )
        | inl more ↦
            let (cache, capacity, filled) =
              refill-total (s.output_offset + suc n) short (omega (arith, h.offset))
                (ground (arith, more)) in
            (
              record s {
                output_cache = cache;
                output_capacity = capacity;
                output_offset = s.output_offset + suc n;
              },
              slice cache s.output_offset (suc n),
              enters ic laws message position s h true n ∙ simp (room, more, filled) refl,
            )
      ]
