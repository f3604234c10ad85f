-- ===== src/Xof/Cached/Squeeze.antt =====
-- One call of trine_xof_squeeze as a whole.
use meds2end.Base.{ℕ, zero, suc, ◌+◌, ◌-◌, ◌≤◌, ◌<◌, ◌≡◌, refl, sym, ap, ◌∙◌, arith, List, []}
use meds2end.Base.{Bool, true, false, inl, inr, Bool-cases, Option-cases, none, some, subst}
use meds2end.Base.{ltb, ◌==◌, if◌then◌else◌}
use meds2end.Base.Slices.{slice}
use meds2end.Xof.Cached.{size_limit, Iccs, XofCache, refill, copy_out, cache_squeeze, cache_once}
use meds2end.Xof.Cached.Stream.{IsXof, IsStream, refill-IsStream, copied, copied_piece}

module _ (ic : Iccs) (laws : IsXof ic) (message : List ℕ) (position : ℕ) (s : XofCache)
    (h : IsStream ic message position s) where
  -- One call that puts out bytes, past the tests of the state.
  pub enters :
      (granted : Bool) (n : ℕ)
      → cache_squeeze ic granted s (suc n) ≡ (
          if ltb (size_limit - 1 - s.output_offset) (suc n)
          then (record s { failed = true }, none)
          else if ltb s.output_capacity (s.output_offset + suc n)
          then elim (refill ic granted s (s.output_offset + suc n)) [
            | none ↦ (record s { failed = true }, none)
            | some (cache, capacity) ↦
                copy_out ic (record s { output_cache = cache; output_capacity = capacity }) (suc n)
          ]
          else copy_out ic s (suc n))
  unfolding cache_squeeze
  enters granted n =
      let some_bytes : (suc n == 0) ≡ false = ground arith in
      simp (h.finalized, h.fine, some_bytes) refl

  pub nothing : (granted : Bool) → cache_squeeze ic granted s 0 ≡ (s, some [])
  unfolding cache_squeeze
  nothing granted = simp (h.finalized) refl

  -- A copy out of a cache that is long enough.
  served :
      (u : XofCache) (n k : ℕ) {t : XofCache} {out whole : List ℕ}
      → IsStream ic message position u
      → position + suc n ≤ u.output_capacity
      → position + suc n ≤ k
      → cache_once ic k message ≡ some whole
      → copy_out ic u (suc n) ≡ (t, some out)
      → IsStream ic message (position + suc n) t × (out ≡ slice whole position (suc n))
  unfolding copy_out
  served u n k {t} {out} {whole} st room fits once e =
      let same_t : record u { output_offset = u.output_offset + suc n } ≡ t = ap (λ r. r.0) e in
      let same_out : slice u.output_cache u.output_offset (suc n) ≡ out = cc e in
      (
        subst (IsStream ic message (position + suc n)) same_t
            (copied ic laws message position u st (suc n) room),
        sym same_out ∙ copied_piece ic laws message position u st n k room fits once,
      )

  -- Whatever trine_xof_squeeze puts out, after `position` bytes before it, is the piece from there of
  -- any output of trine_xof_once for the message that reaches so far; and the state afterwards has
  -- put out these bytes too. pseudoXOF puts out the bytes asked for, and a shorter output is the
  -- start of a longer one.
  pub cache_squeeze-slice :
      (granted : Bool) (n k : ℕ) {t : XofCache} {out whole : List ℕ}
      → cache_squeeze ic granted s n ≡ (t, some out)
      → cache_once ic k message ≡ some whole
      → position + n ≤ k
      → IsStream ic message (position + n) t × (out ≡ slice whole position n)
  cache_squeeze-slice granted zero k {t} {out} {whole} e once fits =
      let both : (s, some []) ≡ (t, some out) = sym (nothing granted) ∙ e in
      let same_out : [] ≡ out = cc both in
      (
        subst (λ p. IsStream ic message p t) (omega arith)
            (subst (IsStream ic message position) (ap (λ r. r.0) both) h),
        sym same_out,
      )
  cache_squeeze-slice granted (suc n) k {t} {out} {whole} e once fits =
      let run = sym (enters granted n) ∙ e in
      elim (Bool-cases (ltb (size_limit - 1 - s.output_offset) (suc n))) [
        | inl overflow ↦ absurd (cc (simp (overflow) at run))
        | inr room ↦ elim (Bool-cases (ltb s.output_capacity (s.output_offset + suc n))) [
          | inr cached ↦
              served s n k h (ground (arith, cached, h.offset)) fits once
                (simp (room, cached) at run)
          | inl short ↦ elim (Option-cases (refill ic granted s (s.output_offset + suc n))) [
            | inl refused ↦ absurd (cc (simp (room, short, refused) at run))
            | inr ((cache, capacity), filled) ↦
                let small : s.output_offset + suc n < size_limit = ground (arith, room) in
                let (st, enough) =
                  refill-IsStream ic laws message position s h granted (s.output_offset + suc n)
                    (omega (arith, h.offset)) small filled in
                served (record s { output_cache = cache; output_capacity = capacity }) n k st
                  (omega (arith, enough, h.offset)) fits once (simp (room, short, filled) at run)
          ]
        ]
      ]
