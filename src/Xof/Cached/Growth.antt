-- ===== src/Xof/Cached/Growth.antt =====
-- grow_buffer and append_input: the sizes and contents of the buffers.
use native.Mathlib.Nat.{pow-succ', mul_assoc, mod-eq_of_lt}
use meds2end.Base.{ℕ, zero, suc, ◌-◌, ◌*◌, ◌/◌, ◌%◌, ◌^◌, ◌≤◌, ◌<◌, ◌≡◌, refl, arith}
use meds2end.Base.{Bool, true, false, not, inl, inr, Bool-cases, Option, none, some, List, ◌++◌}
use meds2end.Base.{
  length-append, length-replicate, length, ltb, leb, ◌==◌, if◌then◌else◌, replicate, at,
}
use meds2end.Base.Slices.{at-append, take_all}
use meds2end.Xof.Cached.{size_limit, grow_capacity, grow_buffer}

-- The loop ends within its fuel: its result is at least what is required.
pub grow_capacity-ge :
    (fuel required c : ℕ)
    → 0 < c
    → c < size_limit
    → required < size_limit
    → size_limit ≤ c * 2 ^ fuel
    → (required ≤ grow_capacity fuel required c)
      × (c ≤ grow_capacity fuel required c)
      × (grow_capacity fuel required c < size_limit)
unfolding grow_capacity
grow_capacity-ge zero required c pos lt hr room = absurd (omega arith)
grow_capacity-ge (suc fuel) required c pos lt hr room = elim (Bool-cases (ltb c required)) [
  | inr enough ↦ rw enough (ground (arith, enough))
  | inl short ↦ elim (Bool-cases (ltb ((size_limit - 1) / 2) c)) [
    | inl big ↦ rw (short, big) (ground (arith, short))
    | inr small ↦
        let fits : c * 2 < size_limit = ground (arith, small) in
        let same : c * 2 % size_limit ≡ c * 2 = mod-eq_of_lt fits in
        let r =
          grow_capacity-ge fuel required (c * 2) (omega arith) fits hr
            (rw (mul_assoc c 2 (2 ^ fuel), ← pow-succ' 2 fuel) room) in
        rw (short, small, same) (r.0, omega (arith, r.1), r.2)
  ]
]

-- It is at most twice what is required, or the capacity that it starts from.
pub grow_capacity-le :
    (fuel required c bound : ℕ)
    → c ≤ bound
    → required * 2 ≤ bound
    → bound < size_limit
    → grow_capacity fuel required c ≤ bound
unfolding grow_capacity
grow_capacity-le zero required c bound hc hr hb = hc
grow_capacity-le (suc fuel) required c bound hc hr hb = elim (Bool-cases (ltb c required)) [
  | inr enough ↦ rw enough hc
  | inl short ↦ elim (Bool-cases (ltb ((size_limit - 1) / 2) c)) [
    | inl big ↦ rw (short, big) (omega arith)
    | inr small ↦
        let fits : c * 2 < size_limit = ground (arith, small) in
        let same : c * 2 % size_limit ≡ c * 2 = mod-eq_of_lt fits in
        rw (short, small, same)
          (grow_capacity-le fuel required (c * 2) bound (ground (arith, short)) hr hb)
  ]
]

-- What grow_buffer returns: a buffer of the capacity, which is enough and fits size_t, with the
-- content of the old one.
pub record IsGrown (old : List ℕ) (old_capacity required : ℕ) (buffer : List ℕ) (capacity : ℕ)
    : Type 0 where
  pub size : length buffer ≡ capacity
  pub enough : required ≤ capacity
  pub wider : old_capacity ≤ capacity
  pub fits : capacity < size_limit
  pub kept : (i : ℕ) → i < old_capacity → at buffer i ≡ at old i

module _ (buffer : List ℕ) (capacity required : ℕ) (size : length buffer ≡ capacity)
    (fits : capacity < size_limit) (small : required < size_limit) where
  -- The capacity that grow_buffer asks for.
  wanted : ℕ
  wanted = grow_capacity 64 required (if capacity == 0 then 64 else capacity)

  wanted_lem : (required ≤ wanted) × (capacity ≤ wanted) × (wanted < size_limit)
  unfolding wanted
  wanted_lem = elim (Bool-cases (capacity == 0)) [
    | inl empty ↦
        let r = grow_capacity-ge 64 required 64 (omega arith) (omega arith) small (omega arith) in
        rw empty (ground (arith, r, empty))
    | inr some_room ↦
        let r =
          grow_capacity-ge 64 required capacity (ground (arith, some_room)) fits small
            (ground (arith, some_room)) in
        rw some_room (r.0, r.1, r.2)
  ]

  longer : List ℕ
  longer = buffer ++ replicate (wanted - capacity) 0

  longer-IsGrown : IsGrown buffer capacity required longer wanted
  unfolding longer
  longer-IsGrown = record {
    size = omega (
      arith,
      length-append buffer (replicate (wanted - capacity) 0),
      length-replicate {A = ℕ} (wanted - capacity) 0,
      size,
      wanted_lem,
    );
    enough = wanted_lem.0;
    wider = wanted_lem.1;
    fits = wanted_lem.2;
    kept = λ i lt. ground (arith, at-append buffer (replicate (wanted - capacity) 0) i, size);
  }

  -- The call where the buffer is too small.
  grows :
      (granted : Bool)
      → leb required capacity ≡ false
      → grow_buffer granted buffer capacity required
        ≡ (if not granted then none else some (longer, wanted))
  unfolding grow_buffer longer wanted
  grows granted more =
      let bigger : ltb capacity wanted ≡ true = ground (arith, wanted_lem, more) in
      rw (more, bigger, take_all capacity buffer size) refl

  pub grow_buffer_lem :
      (granted : Bool) {b : List ℕ} {c : ℕ}
      → grow_buffer granted buffer capacity required ≡ some (b, c)
      → IsGrown buffer capacity required b c
  unfolding grow_buffer
  grow_buffer_lem granted {b} {c} e = elim (Bool-cases (leb required capacity)) [
    | inl fine ↦
        let same : ◌≡◌ {A = Option (List ℕ × ℕ)} (some (buffer, capacity)) (some (b, c)) =
          rw fine at e in
        let same_b : buffer ≡ b = cc same in
        let same_c : capacity ≡ c = cc same in
        rw (← same_b, ← same_c)
          (record {
            size = size;
            enough = ground (arith, fine);
            wider = omega arith;
            fits = fits;
            kept = λ i lt. refl;
          })
    | inr more ↦ elim (Bool-cases granted) [
      | inr refused ↦ absurd (cc (rw (grows granted more, refused) at e))
      | inl given ↦
          let same : ◌≡◌ {A = Option (List ℕ × ℕ)} (some (longer, wanted)) (some (b, c)) =
            rw (grows granted more, given) at e in
          let same_b : longer ≡ b = cc same in
          let same_c : wanted ≡ c = cc same in rw (← same_b, ← same_c) longer-IsGrown
    ]
  ]

  -- Where realloc succeeds, so does grow_buffer.
  pub grow_buffer-total :
      (b : List ℕ) × (c : ℕ) × (grow_buffer true buffer capacity required ≡ some (b, c))
  unfolding grow_buffer
  grow_buffer-total = elim (Bool-cases (leb required capacity)) [
    | inl fine ↦ (buffer, capacity, rw fine refl)
    | inr more ↦ (longer, wanted, grows true more)
  ]

  pub grow_buffer-le :
      (granted : Bool) (bound : ℕ) {b : List ℕ} {c : ℕ}
      → grow_buffer granted buffer capacity required ≡ some (b, c)
      → capacity ≤ bound
      → 64 ≤ bound
      → required * 2 ≤ bound
      → bound < size_limit
      → c ≤ bound
  unfolding grow_buffer wanted
  grow_buffer-le granted bound {b} {c} e hc h64 hr hb = elim (Bool-cases (leb required capacity)) [
    | inl fine ↦
        let same : ◌≡◌ {A = Option (List ℕ × ℕ)} (some (buffer, capacity)) (some (b, c)) =
          rw fine at e in
        let same_c : capacity ≡ c = cc same in omega arith
    | inr more ↦ elim (Bool-cases granted) [
      | inr refused ↦ absurd (cc (rw (grows granted more, refused) at e))
      | inl given ↦
          let same : ◌≡◌ {A = Option (List ℕ × ℕ)} (some (longer, wanted)) (some (b, c)) =
            rw (grows granted more, given) at e in
          let same_c : wanted ≡ c = cc same in
          let start : (if capacity == 0 then 64 else capacity) ≤ bound = ground arith in
          let small_c : wanted ≤ bound =
            grow_capacity-le 64 required (if capacity == 0 then 64 else capacity) bound start hr
              hb in
          omega arith
    ]
  ]
