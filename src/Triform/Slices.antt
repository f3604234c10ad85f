-- ===== src/Triform/Slices.antt =====
-- Loops that write the slices of a form one after the other.
use native.Mathlib.Nat.{mul_assoc, mul-le-mul_right, mod-lt, div-add-mod', div-lt_iff_lt-mul}
use native.Mathlib.Decide.{ℕ_discrete, dec_lt}
use meds2end.Base.{
  ℕ, suc, ◌+◌, ◌-◌, ◌*◌, ◌/◌, ◌%◌, ◌≤◌, ◌<◌, ◌≡◌, refl, ap, ◌∙◌, arith, List, at, length,
}
use meds2end.Base.{for_up, for_up_inv, get_or_out}
use meds2end.Base.Grid.{index-lt}
use meds2end.Base.Slices.{write_at, at-write_at, length-write_at}
use meds2end.Matrix.Products.{IsReduced}

module _ (n : ℕ) (f : ℕ → List ℕ) (size : (j : ℕ) → length (f j) ≡ n * n) where
  -- The first j slices are written.
  pub record IsWritten (out : List ℕ) (j : ℕ) (t : List ℕ) : Type 0 where
    pub same_length : length t ≡ length out
    pub holds : (i p : ℕ) → i < j → p < n * n → at t (i * (n * n) + p) ≡ at (f i) p

  write_step :
      (out : List ℕ) (j : ℕ) (t : List ℕ)
      → n * n * n ≤ length out
      → j < n
      → IsWritten out j t
      → IsWritten out (suc j) (write_at t (j * (n * n)) (f j))
  write_step out j t room lt w = record {
    same_length = length-write_at t (j * (n * n)) _ ∙ w.same_length;
    holds = λ i p hi hp.
        at-write_at t (j * (n * n)) (f j) (i * (n * n) + p) fits
        ∙ rw (size j) (elim (ℕ_discrete i j) [
          | yes same ↦ rw same (ground (arith, here p hp))
          | no other ↦
              let before : i * (n * n) + p < j * (n * n) =
                index-lt j (n * n) i p (omega arith) hp in
              ground (arith, w.holds i p (omega arith) hp)
        ]);
  }
    where
      fits : j * (n * n) + length (f j) ≤ length t
      fits = omega (
        arith,
        size j,
        w.same_length,
        mul_assoc n n n,
        mul-le-mul_right {m = suc j} {n = n} (n * n) lt,
      )

      here : (p : ℕ) → p < n * n → at (f j) (j * (n * n) + p - j * (n * n)) ≡ at (f j) p
      here p hp = ap (at (f j)) (omega arith)

  pub slices-IsWritten :
      (offset : ℕ → ℕ) (out : List ℕ)
      → ((j : ℕ) → offset j ≡ j * (n * n))
      → n * n * n ≤ length out
      → IsWritten out n (for_up n (λ j t. write_at t (offset j) (f j)) out)
  slices-IsWritten offset out place room =
      for_up_inv (IsWritten out) _ n out
        (record { same_length = refl; holds = λ i p hi hp. elim hi [ ] })
        (λ j t lt w. rw (place j) (write_step out j t room lt w))

  -- A form that is nothing but reduced slices is reduced.
  pub written-IsReduced :
      (out t : List ℕ)
      → length out ≡ n * n * n
      → ((j : ℕ) → IsReduced (f j))
      → IsWritten out n t
      → IsReduced t
  written-IsReduced out t room small w i = elim (dec_lt i (n * n * n)) [
    | no outside ↦ rw (get_or_out t i 0 (omega (arith, room, w.same_length))) (omega arith)
    | yes inside ↦
        let some_room : 0 < n * n = grind (arith, inside) in
        let row : i / (n * n) < n =
          (div-lt_iff_lt-mul {k = n * n} {x = i} {y = n} some_room).1
            (omega (arith, inside, mul_assoc n n n)) in
        let whole : i / (n * n) * (n * n) + i % (n * n) ≡ i = div-add-mod' i (n * n) in
        rw (← whole) (
          rw (w.holds (i / (n * n)) (i % (n * n)) row (mod-lt i some_room))
            (small (i / (n * n)) (i % (n * n))))
  ]
