-- ===== src/Xof/Cached/Stream.antt =====
-- trine_xof_squeeze over the cache: the successive outputs are the pieces of one long output.
use native.Mathlib.Nat.{mod-eq_of_lt}
use native.Mathlib.Decide.{dec_lt}
use meds2end.Base.{
  ℕ, suc, ◌+◌, ◌-◌, ◌*◌, ◌/◌, ◌%◌, ◌≤◌, ◌<◌, ◌≡◌, refl, sym, ap, ap₂, subst, ◌∙◌, arith,
}
use meds2end.Base.{Bool, true, false, ◌⊎◌, inl, inr, Bool-cases, some, List}
use meds2end.Base.{length, length-take, take, ltb, get_or_ext, >>=-eq-some}
use meds2end.Base.Slices.{
  slice, write_at, length-write_at, at-slice, at-take, length-slice, slice-write_at_self, take_all,
}
use meds2end.Xof.Cached.{
  size_limit, Iccs, XofCache, size_to_bits_ull, grow_buffer, refill, copy_out, cache_once,
}
use meds2end.Xof.Cached.Growth.{IsGrown, grow_buffer_lem}
use meds2end.Xof.Cached.Inputs.{IsInput, length-message}

-- The documented output of pseudoXOF for a whole number of bytes: it has the length asked for, and
-- a shorter output is the start of a longer one.
pub record IsXof (ic : Iccs) : Type 0 where
  pub size :
      (n : ℕ) (message : List ℕ) (bits : ℕ) {out : List ℕ}
      → ic.pseudo_xof (n * 8) message bits ≡ some out
      → length out ≡ n
  pub start :
      (n k : ℕ) (message : List ℕ) (bits : ℕ) {short long : List ℕ}
      → n ≤ k
      → ic.pseudo_xof (n * 8) message bits ≡ some short
      → ic.pseudo_xof (k * 8) message bits ≡ some long
      → take n long ≡ short

size_to_bits-some :
    (n : ℕ) {b : ℕ} → size_to_bits_ull n ≡ some b → (n * 8 < size_limit) × (b ≡ n * 8)
unfolding size_to_bits_ull
size_to_bits-some n {b} e = elim (Bool-cases (ltb ((size_limit - 1) / 8) n)) [
  | inl large ↦ absurd (cc (rw large at e))
  | inr fine ↦
      let small : n * 8 < size_limit = ground (arith, fine) in
      let same : n * 8 % size_limit ≡ b = cc (rw fine at e) in
      (small, sym same ∙ mod-eq_of_lt small)
]

pub size_to_bits-total : (n : ℕ) → n * 8 < size_limit → size_to_bits_ull n ≡ some (n * 8)
unfolding size_to_bits_ull
size_to_bits-total n small =
    let fine : ltb ((size_limit - 1) / 8) n ≡ false = ground arith in
    rw (fine, mod-eq_of_lt {n = n * 8} small) refl

-- The state holds the message and has put out `position` bytes; the cache, where there is one, is
-- the output of its length.
pub record IsStream (ic : Iccs) (message : List ℕ) (position : ℕ) (s : XofCache) : Type 0 where
  pub input : IsInput message s.input
  pub finalized : s.finalized ≡ true
  pub fine : s.failed ≡ false
  pub offset : s.output_offset ≡ position
  pub within : position ≤ s.output_capacity
  pub fits : s.output_capacity * 8 < size_limit
  pub size : length s.output_cache ≡ s.output_capacity
  pub content :
      (s.output_capacity ≡ 0)
      ⊎ (ic.pseudo_xof (s.output_capacity * 8) message (length message * 8) ≡ some s.output_cache)

write_at_whole : (xs ys : List ℕ) → length ys ≡ length xs → write_at xs 0 ys ≡ ys
write_at_whole xs ys e =
    sym (take_all (length ys) (write_at xs 0 ys) (length-write_at xs 0 ys ∙ sym e))
    ∙ slice-write_at_self xs 0 ys (length ys) refl (omega (arith, e))

-- A piece of the start is that piece of the whole.
slice-take :
    (k : ℕ) (xs : List ℕ) (off n : ℕ)
    → off + n ≤ k
    → k ≤ length xs
    → slice (take k xs) off n ≡ slice xs off n
slice-take k xs off n fits room =
    get_or_ext 0 _ _ (short ∙ sym (length-slice xs off n (omega arith))) λ i lt.
      at-slice (take k xs) off n i (omega (arith, short))
      ∙ at-take k xs (off + i) (omega (arith, short))
      ∙ sym (at-slice xs off n i (omega (arith, short)))
  where
    short : length (slice (take k xs) off n) ≡ n
    short = length-slice (take k xs) off n (omega (arith, length-take k xs))

module _ (ic : Iccs) (laws : IsXof ic) (message : List ℕ) where
  -- Two outputs for a message have the same pieces.
  same_piece :
      (c k off n : ℕ) {cache whole : List ℕ}
      → ic.pseudo_xof (c * 8) message (length message * 8) ≡ some cache
      → ic.pseudo_xof (k * 8) message (length message * 8) ≡ some whole
      → off + n ≤ c
      → off + n ≤ k
      → slice cache off n ≡ slice whole off n
  same_piece c k off n {cache} {whole} ec ek fc fk =
      let size_c = laws.size c message (length message * 8) ec in
      let size_k = laws.size k message (length message * 8) ek in
      elim (dec_lt c k) [
        | yes shorter ↦
            ap (λ (xs : List ℕ). slice xs off n)
              (sym (laws.start c k message (length message * 8) (omega arith) ec ek))
            ∙ slice-take c whole off n fc (omega (arith, size_k))
        | no longer ↦
            sym (slice-take k cache off n fk (omega (arith, size_c)))
            ∙ ap (λ (xs : List ℕ). slice xs off n)
                (laws.start k c message (length message * 8) (omega arith) ek ec)
      ]

  module _ (position : ℕ) (s : XofCache) (h : IsStream ic message position s) where
    pub input_length : length message ≡ s.input.used
    input_length = length-message message s.input h.input

    -- The steps of a refill, one after the other.
    refilled :
        (required c output_bits input_bits : ℕ) (buffer output : List ℕ)
        → position ≤ required
        → IsGrown s.output_cache s.output_capacity required buffer c
        → size_to_bits_ull c ≡ some output_bits
        → size_to_bits_ull s.input.used ≡ some input_bits
        → ic.pseudo_xof output_bits (take s.input.used s.input.bytes) input_bits ≡ some output
        → IsStream ic message position
            (record s { output_cache = write_at buffer 0 output; output_capacity = c })
    refilled required c output_bits input_bits buffer output low g eo ei computed =
        let (fits, is_output) = size_to_bits-some c eo in
        let (_, is_input) = size_to_bits-some s.input.used ei in
        let xof : ic.pseudo_xof (c * 8) message (length message * 8) ≡ some output =
          ap₂ (λ (b : ℕ) (m : List ℕ). ic.pseudo_xof b m (length message * 8)) (sym is_output)
            (sym h.input.content)
          ∙ ap (λ (b : ℕ). ic.pseudo_xof output_bits (take s.input.used s.input.bytes) b)
              (ap (λ (l : ℕ). l * 8) input_length ∙ sym is_input)
          ∙ computed in
        let size_o = laws.size c message (length message * 8) xof in
        rw (write_at_whole buffer output (size_o ∙ sym g.size)) (record {
          input = h.input;
          finalized = h.finalized;
          fine = h.fine;
          offset = h.offset;
          within = omega (arith, g.enough);
          fits = fits;
          size = size_o;
          content = inr xof;
        })

    -- A refilled cache is a longer output.
    pub refill-IsStream :
        (granted : Bool) (required : ℕ) {cache : List ℕ} {capacity : ℕ}
        → position ≤ required
        → required < size_limit
        → refill ic granted s required ≡ some (cache, capacity)
        → IsStream ic message position
            (record s { output_cache = cache; output_capacity = capacity })
          × (required ≤ capacity)
    unfolding refill
    refill-IsStream granted required {cache} {capacity} low small e =
        let ((buffer, c), grown, e1) =
          >>=-eq-some (grow_buffer granted s.output_cache s.output_capacity required) _ e in
        let (output_bits, eo, e2) = >>=-eq-some (size_to_bits_ull c) _ e1 in
        let (input_bits, ei, e3) = >>=-eq-some (size_to_bits_ull s.input.used) _ e2 in
        let (output, computed, e4) =
          >>=-eq-some (ic.pseudo_xof output_bits (take s.input.used s.input.bytes) input_bits) _
            e3 in
        let g =
          grow_buffer_lem s.output_cache s.output_capacity required h.size (omega (arith, h.fits))
            small granted grown in
        let st = refilled required c output_bits input_bits buffer output low g eo ei computed in
        let same_cache : write_at buffer 0 output ≡ cache = cc e4 in
        let same_c : c ≡ capacity = cc e4 in
        (
          subst
              (λ (b : List ℕ).
                IsStream ic message position
                  (record s { output_cache = b; output_capacity = capacity }))
              same_cache
              (subst
                (λ (k : ℕ).
                  IsStream ic message position
                    (record s { output_cache = write_at buffer 0 output; output_capacity = k }))
                same_c st),
          omega (arith, g.enough, same_c),
        )

    -- The copy out of a cache that is long enough.
    pub copied :
        (n : ℕ)
        → position + n ≤ s.output_capacity
        → IsStream ic message (position + n) (copy_out ic s n).0
    unfolding copy_out
    copied n room = record {
      input = h.input;
      finalized = h.finalized;
      fine = h.fine;
      offset = ap (λ (o : ℕ). o + n) h.offset;
      within = room;
      fits = h.fits;
      size = h.size;
      content = h.content;
    }

    once_is :
        (k : ℕ) {whole : List ℕ}
        → cache_once ic k message ≡ some whole
        → ic.pseudo_xof (k * 8) message (length message * 8) ≡ some whole
    unfolding cache_once
    once_is k {whole} e =
        let (output_bits, eo, e1) = >>=-eq-some (size_to_bits_ull k) _ e in
        let (input_bits, ei, e2) = >>=-eq-some (size_to_bits_ull (length message)) _ e1 in
        ap₂ (λ (a b : ℕ). ic.pseudo_xof a message b) (sym (size_to_bits-some k eo).1)
          (sym (size_to_bits-some (length message) ei).1)
        ∙ e2

    -- What is copied is the piece of the one long output.
    pub copied_piece :
        (n k : ℕ) {whole : List ℕ}
        → position + suc n ≤ s.output_capacity
        → position + suc n ≤ k
        → cache_once ic k message ≡ some whole
        → slice s.output_cache s.output_offset (suc n) ≡ slice whole position (suc n)
    copied_piece n k {whole} room fits e = rw (h.offset) (elim h.content [
      | inl empty ↦ absurd (omega arith)
      | inr xof ↦ same_piece s.output_capacity k position (suc n) xof (once_is k e) room fits
    ])
