-- ===== src/Base/Slices.antt =====
-- Regions of buffers: a pointer into an array with a length, and memcpy to such a place.
use Prim.Native.Nat.{ℕ, zero, suc, ◌+◌, ◌-◌, ◌≤◌, ◌<◌}
use mathlib.Core.Path.{◌≡◌, refl, sym, ap, ◌∙◌}
use mathlib.Core.Bool.{◌&&◌}
use mathlib.Core.List.{List, [], ◌∷◌, ◌++◌}
use mathlib.Core.Logic.{◌⊎◌}
use native.Mathlib.Omega.{arith}
use meds2end.Base.Tests.{ltb, leb, if◌then◌else◌}
use meds2end.Base.Lists.{
  replicate, length, at, take, drop, length-take, length-drop, get_or_ext, get_or_out,
}
use native.Mathlib.Decide.{dec_lt}

-- The elements `xs[off]` to `xs[off + len - 1]`.
abbrev pub slice : List ℕ → ℕ → ℕ → List ℕ
slice xs off len = take len (drop off xs)

overwrite : List ℕ → List ℕ → List ℕ
overwrite [] ys = []
overwrite (x ∷ xs) [] = x ∷ xs
overwrite (x ∷ xs) (y ∷ ys) = y ∷ overwrite xs ys

-- `memcpy(xs + off, ys, length ys)`; what would fall behind the end is dropped.
unfoldable pub write_at : List ℕ → ℕ → List ℕ → List ℕ
unfolding overwrite
write_at xs zero ys = overwrite xs ys
write_at [] (suc off) ys = []
write_at (x ∷ xs) (suc off) ys = x ∷ write_at xs off ys

pub write_at-cons : (x y : ℕ) (xs ys : List ℕ) → write_at (x ∷ xs) 0 (y ∷ ys) ≡ y ∷ write_at xs 0 ys
unfolding write_at overwrite
write_at-cons x y xs ys = refl

length-overwrite : (xs ys : List ℕ) → length (overwrite xs ys) ≡ length xs
unfolding overwrite
length-overwrite [] ys = refl
length-overwrite (x ∷ xs) [] = refl
length-overwrite (x ∷ xs) (y ∷ ys) = ap suc (length-overwrite xs ys)

pub length-write_at :
    (xs : List ℕ) (off : ℕ) (ys : List ℕ) → length (write_at xs off ys) ≡ length xs
unfolding write_at
length-write_at xs zero ys = length-overwrite xs ys
length-write_at [] (suc off) ys = refl
length-write_at (x ∷ xs) (suc off) ys = ap suc (length-write_at xs off ys)

at-overwrite :
    (xs ys : List ℕ) (i : ℕ)
    → length ys ≤ length xs
    → at (overwrite xs ys) i ≡ (if ltb i (length ys) then at ys i else at xs i)
unfolding overwrite
at-overwrite [] [] i h = ground arith
at-overwrite [] (y ∷ ys) i h = absurd (omega arith)
at-overwrite (x ∷ xs) [] i h = ground arith
at-overwrite (x ∷ xs) (y ∷ ys) zero h = ground arith
at-overwrite (x ∷ xs) (y ∷ ys) (suc i) h = ground (arith, at-overwrite xs ys i (omega arith))

pub at-write_at :
    (xs : List ℕ) (off : ℕ) (ys : List ℕ) (i : ℕ)
    → off + length ys ≤ length xs
    → at (write_at xs off ys) i
      ≡ (if leb off i && ltb i (off + length ys) then at ys (i - off) else at xs i)
unfolding write_at
at-write_at xs zero ys i h = ground (arith, at-overwrite xs ys i (omega arith))
at-write_at [] (suc off) ys i h = absurd (omega arith)
at-write_at (x ∷ xs) (suc off) ys zero h = ground arith
at-write_at (x ∷ xs) (suc off) ys (suc i) h = ground (arith, at-write_at xs off ys i (omega arith))

at-drop : (off : ℕ) (xs : List ℕ) (i : ℕ) → at (drop off xs) i ≡ at xs (off + i)
at-drop zero xs i = ap (at xs) (omega arith)
at-drop (suc off) [] i = refl
at-drop (suc off) (x ∷ xs) i = at-drop off xs i ∙ ap (at (x ∷ xs)) {x = suc (off + i)} (omega arith)

pub at-take : (n : ℕ) (xs : List ℕ) (i : ℕ) → i < n → at (take n xs) i ≡ at xs i
at-take zero xs i h = elim h [ ]
at-take (suc n) [] i h = refl
at-take (suc n) (x ∷ xs) zero h = refl
at-take (suc n) (x ∷ xs) (suc i) h = at-take n xs i (omega arith)

pub at-slice : (xs : List ℕ) (off len i : ℕ) → i < len → at (slice xs off len) i ≡ at xs (off + i)
at-slice xs off len i h = at-take len (drop off xs) i h ∙ at-drop off xs i

pub length-slice :
    (xs : List ℕ) (off len : ℕ) → off + len ≤ length xs → length (slice xs off len) ≡ len
length-slice xs off len h = omega (arith, length-take len (drop off xs), length-drop off xs)

pub at-append :
    (xs ys : List ℕ) (i : ℕ)
    → at (xs ++ ys) i ≡ (if ltb i (length xs) then at xs i else at ys (i - length xs))
at-append [] ys i = ground arith
at-append (x ∷ xs) ys zero = ground arith
at-append (x ∷ xs) ys (suc i) = ground (arith, at-append xs ys i)

-- Reading back the region that was written.
pub slice-write_at_self :
    (xs : List ℕ) (off : ℕ) (ys : List ℕ) (len : ℕ)
    → len ≡ length ys
    → off + len ≤ length xs
    → slice (write_at xs off ys) off len ≡ ys
slice-write_at_self xs off ys len e h = get_or_ext 0 _ ys (same ∙ e) λ i lt.
    at-slice (write_at xs off ys) off len i (omega (arith, same))
    ∙ ground (arith, at-write_at xs off ys (off + i) (omega arith), same)
  where
    same : length (slice (write_at xs off ys) off len) ≡ len
    same = length-slice (write_at xs off ys) off len (omega (arith, length-write_at xs off ys))

-- A region that does not overlap the written one keeps its content.
pub slice-write_at_apart :
    (xs : List ℕ) (off : ℕ) (ys : List ℕ) (from len : ℕ)
    → off + length ys ≤ length xs
    → from + len ≤ length xs
    → (from + len ≤ off) ⊎ (off + length ys ≤ from)
    → slice (write_at xs off ys) from len ≡ slice xs from len
slice-write_at_apart xs off ys from len h k apart =
    get_or_ext 0 _ _ (same ∙ sym (length-slice xs from len k)) λ i lt.
      at-slice (write_at xs off ys) from len i (omega (arith, same))
      ∙ ground (arith, at-write_at xs off ys (from + i) h, same, apart)
      ∙ sym (at-slice xs from len i (omega (arith, same)))
  where
    same : length (slice (write_at xs off ys) from len) ≡ len
    same = length-slice (write_at xs off ys) from len (omega (arith, length-write_at xs off ys))

-- Where every element of the array is below a bound, so is every element of a region.
pub slice-lt :
    (m : ℕ) (xs : List ℕ) (off len i : ℕ) → ((j : ℕ) → at xs j < m) → at (slice xs off len) i < m
slice-lt m xs off len i h = elim (dec_lt i len) [
  | yes inside ↦ rw (at-slice xs off len i inside) (h (off + i))
  | no outside ↦
      rw (get_or_out (slice xs off len) i 0 (omega (arith, length-take len (drop off xs))))
        (omega (arith, h 0))
]

pub take_all : (n : ℕ) (xs : List ℕ) → length xs ≡ n → take n xs ≡ xs
take_all n xs e =
    get_or_ext 0 (take n xs) xs (omega (arith, length-take n xs, e))
      λ i lt. at-take n xs i (omega (arith, length-take n xs, e))

-- A row of equal bytes.
pub replicate-lt : (n i v : ℕ) → v < 256 → at (replicate n v) i < 256
replicate-lt zero i v h = omega arith
replicate-lt (suc n) zero v h = h
replicate-lt (suc n) (suc i) v h = replicate-lt n i v h

overwrite-lt :
    (m : ℕ) (xs ys : List ℕ)
    → ((j : ℕ) → at xs j < m)
    → ((j : ℕ) → at ys j < m)
    → (i : ℕ) → at (overwrite xs ys) i < m
unfolding overwrite
overwrite-lt m [] ys hx hy i = hx i
overwrite-lt m (x ∷ xs) [] hx hy i = hx i
overwrite-lt m (x ∷ xs) (y ∷ ys) hx hy zero = hy 0
overwrite-lt m (x ∷ xs) (y ∷ ys) hx hy (suc i) =
    overwrite-lt m xs ys (λ j. hx (suc j)) (λ j. hy (suc j)) i

-- Writing bounded elements keeps all elements bounded.
pub write_at-lt :
    (m : ℕ) (xs : List ℕ) (off : ℕ) (ys : List ℕ)
    → ((j : ℕ) → at xs j < m)
    → ((j : ℕ) → at ys j < m)
    → (i : ℕ) → at (write_at xs off ys) i < m
unfolding write_at
write_at-lt m xs zero ys hx hy i = overwrite-lt m xs ys hx hy i
write_at-lt m [] (suc off) ys hx hy i = hx i
write_at-lt m (x ∷ xs) (suc off) ys hx hy zero = hx 0
write_at-lt m (x ∷ xs) (suc off) ys hx hy (suc i) = write_at-lt m xs off ys (λ j. hx (suc j)) hy i
