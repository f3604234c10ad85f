-- ===== src/Xof/Cached/Inputs.antt =====
-- append_input: the message that the calls of the absorbing functions collect.
use meds2end.Base.{ℕ, ◌+◌, ◌-◌, ◌≤◌, ◌<◌, ◌≡◌, refl, sym, ap, ◌∙◌, arith}
use meds2end.Base.{Bool, true, false, inl, inr, Bool-cases, some, List, ◌++◌}
use meds2end.Base.{length, length-append, length-take, take, ltb, at, get_or_ext, >>=-eq-some}
use meds2end.Base.Slices.{write_at, length-write_at, at-write_at, at-append, at-take}
use meds2end.Xof.Cached.{size_limit, grow_buffer, Input, append_input}
use meds2end.Xof.Cached.Growth.{IsGrown, grow_buffer_lem, grow_buffer-total}

-- The buffer holds the message.
pub record IsInput (message : List ℕ) (s : Input) : Type 0 where
  pub size : length s.bytes ≡ s.capacity
  pub within : s.used ≤ s.capacity
  pub fits : s.capacity < size_limit
  pub content : take s.used s.bytes ≡ message

pub length-message : (message : List ℕ) (s : Input) → IsInput message s → length message ≡ s.used
length-message message s h =
    sym (ap length h.content) ∙ omega (arith, length-take s.used s.bytes, h.size, h.within)

-- The end of append_input.
appended : Input → List ℕ → List ℕ → ℕ → Input
appended s input buffer capacity = record {
  bytes = write_at buffer s.used input;
  used = s.used + length input;
  capacity = capacity;
}

appended-IsInput :
    (s : Input) (message input buffer : List ℕ) (capacity : ℕ)
    → IsInput message s
    → IsGrown s.bytes s.capacity (s.used + length input) buffer capacity
    → IsInput (message ++ input) (appended s input buffer capacity)
unfolding appended
appended-IsInput s message input buffer capacity h g = record {
  size = length-write_at buffer s.used input ∙ g.size;
  within = g.enough;
  fits = g.fits;
  content = get_or_ext 0 _ _ (taken ∙ sym whole) λ i lt. same i (omega (arith, taken));
}
  where
    used_is : length message ≡ s.used
    used_is = length-message message s h

    taken :
        length (take (s.used + length input) (write_at buffer s.used input)) ≡ s.used + length input
    taken = omega (
      arith,
      length-take (s.used + length input) (write_at buffer s.used input),
      length-write_at buffer s.used input,
      g.size,
      g.enough,
    )

    whole : length (message ++ input) ≡ s.used + length input
    whole = omega (arith, length-append message input, used_is)

    old : (i : ℕ) → i < s.used → at buffer i ≡ at message i
    old i lt =
        g.kept i (omega (arith, h.within))
        ∙ sym (at-take s.used s.bytes i lt)
        ∙ ap (λ (m : List ℕ). at m i) h.content

    same :
        (i : ℕ)
        → i < s.used + length input
        → at (take (s.used + length input) (write_at buffer s.used input)) i
          ≡ at (message ++ input) i
    same i lt =
        at-take (s.used + length input) (write_at buffer s.used input) i lt
        ∙ ground (
          arith,
          at-write_at buffer s.used input i (omega (arith, g.size, g.enough)),
          at-append message input i,
          used_is,
          old i,
        )

module _ (message : List ℕ) (s : Input) (h : IsInput message s) where
  -- A successful append_input puts the input behind the message.
  pub append_input-IsInput :
      (granted : Bool) (input : List ℕ) {t : Input}
      → append_input granted s input ≡ some t
      → IsInput (message ++ input) t
  unfolding append_input appended
  append_input-IsInput granted input {t} e =
      elim (Bool-cases (ltb (size_limit - 1 - s.used) (length input))) [
        | inl refused ↦ absurd (cc (rw refused at e))
        | inr room ↦
            let ((buffer, capacity), grown, rest) =
              >>=-eq-some (grow_buffer granted s.bytes s.capacity (s.used + length input)) _
                (rw room at e) in
            let same : appended s input buffer capacity ≡ t = cc rest in
            let g =
              grow_buffer_lem s.bytes s.capacity (s.used + length input) h.size h.fits
                (ground (arith, room, h.within, h.fits)) granted grown in
            rw (← same) (appended-IsInput s message input buffer capacity h g)
      ]

  -- It succeeds where realloc does and the length fits size_t.
  pub append_input-total :
      (input : List ℕ)
      → s.used + length input < size_limit
      → (t : Input) × (append_input true s input ≡ some t)
  unfolding append_input
  append_input-total input small =
      let room : ltb (size_limit - 1 - s.used) (length input) ≡ false = ground arith in
      let (buffer, capacity, grown) =
        grow_buffer-total s.bytes s.capacity (s.used + length input) h.size h.fits small in
      (appended s input buffer capacity, rw (room, grown) (unfold appended in refl))
