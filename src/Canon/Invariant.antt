-- ===== src/Canon/Invariant.antt =====
-- canonical_diagonal_normalize does not see the action of three matrices on the form.
use meds2end.Base.{ℕ, ◌*◌, ◌≤◌, ◌≡◌, refl, sym, ap, arith}
use meds2end.Base.{Bool, Bool-cases, inl, inr, not, leb, ◌&&◌, ◌>>=◌}
use meds2end.Base.{List, length, replicate, length-replicate, Option, some, Option-cases}
use meds2end.Matrix.Products.{IsReduced, max_dimension}
use meds2end.Triform.{triform_action_pullback}
use meds2end.Triform.Eval.{coefficient}
use meds2end.Triform.Pullback.Columns.{IsMoved, AreReduced, pullback-moved}
use meds2end.Canon.{
  Bases, compute_normalization_diagonals, apply_normalization, canonical_diagonal_normalize,
}
use meds2end.Canon.Apply.{compute-IsNormalizing, pullback-IsReduced}
use meds2end.Canon.Rescaled.{IsRescaled, IsRescaled-sym}
use meds2end.Canon.Transfer.{transfer, same_result}

module _ (n : ℕ) (large : 5 ≤ n) (out out' form form' : List ℕ) (du dv dw eu ev ew : ℕ → ℕ)
    (hf : IsReduced form) (hf' : IsReduced form')
    (e : IsRescaled n
      (λ s r c. coefficient n form s r c)
      (λ s r c. coefficient n form' s r c)
      du
      dv
      dw
      eu
      ev
      ew)
    (room : length out ≡ n * n * n) (room' : length out' ≡ n * n * n) where
  abbrev normalize : List ℕ → List ℕ → Option (List ℕ)
  normalize o f = compute_normalization_diagonals f n >>= λ d. some (apply_normalization o f d n)

  -- The normalisations of forms that differ by diagonal matrices are the same.
  normalize-rescaled : normalize out' form' ≡ normalize out form
  normalize-rescaled = elim (Option-cases (compute_normalization_diagonals form n)) [
    | inl none_first ↦ elim (Option-cases (compute_normalization_diagonals form' n)) [
      | inl none_second ↦ rw (none_first, none_second) refl
      | inr (d', second) ↦
          let (d, first) =
            transfer n large form' form eu ev ew du dv dw hf' hf
              (IsRescaled-sym n _ _ du dv dw eu ev ew e) d' second in
          absurd (cc (none_first, first))
    ]
    | inr (d, first) ↦
        let (d', second) = transfer n large form form' du dv dw eu ev ew hf hf' e d first in
        rw (first, second)
          (ap some (
            sym (
              same_result n large form form' du dv dw eu ev ew hf hf' e out out' d d' room room'
                (compute-IsNormalizing n large form hf d first)
                (compute-IsNormalizing n large form' hf' d' second))))
  ]

-- The matrices a, b and c take the columns of the second bases to multiples of those of the first:
-- the factors are du, dv and dw, with the inverses eu, ev and ew.
pub record AreMoved (n : ℕ) (a b c : List ℕ) (first second : Bases) : Type 0 where
  pub du : ℕ → ℕ
  pub dv : ℕ → ℕ
  pub dw : ℕ → ℕ
  pub eu : ℕ → ℕ
  pub ev : ℕ → ℕ
  pub ew : ℕ → ℕ
  pub u : IsMoved n a first.u second.u du eu
  pub v : IsMoved n b first.v second.v dv ev
  pub w : IsMoved n c first.w second.w dw ew

-- The normalisation of the form that triform_action_pullback makes with a, b and c, on one triple of
-- bases, is that of the form itself on another triple, and both fail alike, where a, b and c take the
-- columns of the former bases to nonzero multiples of the columns of the latter. All elements are
-- reduced, n is at most 2 ^ 16, and the arrays for the results have n ^ 3 elements.
pub canonical_diagonal_normalize-pullback :
    (alloc : Bool) (max_n n : ℕ) (form a b c out out' blank : List ℕ) (first second : Bases)
    → n ≤ max_dimension
    → IsReduced form
    → AreReduced a b c
    → AreReduced first.u first.v first.w
    → AreReduced second.u second.v second.w
    → AreMoved n a b c first second
    → length out ≡ n * n * n
    → length out' ≡ n * n * n
    → length blank ≡ n * n * n
    → canonical_diagonal_normalize alloc max_n out'
        (triform_action_pullback blank form a b c n)
        second
        n
      ≡ canonical_diagonal_normalize alloc max_n out form first n
unfolding canonical_diagonal_normalize
canonical_diagonal_normalize-pullback alloc max_n n form a b c out out' blank first second bound hf
      ha h1 h2 m room room' room0 =
    elim (Bool-cases (not (leb 5 n && leb n max_n))) [
      | inl outside ↦ rw outside refl
      | inr inside ↦ elim (Bool-cases (not alloc)) [
        | inl empty ↦ rw (inside, empty) refl
        | inr fine ↦
            rw (inside, fine)
              (normalize-rescaled n (ground (arith, inside)) out out' t t' m.du m.dv m.dw m.eu m.ev
                m.ew (pullback-IsReduced n form first.u first.v first.w)
                (pullback-IsReduced n once second.u second.v second.w) rescaled room room')
      ]
    ]
  where
    zeros : List ℕ
    zeros = replicate (n * n * n) 0

    zeros_room : length zeros ≡ n * n * n
    zeros_room = length-replicate {A = ℕ} (n * n * n) 0

    once : List ℕ
    once = triform_action_pullback blank form a b c n

    t : List ℕ
    t = triform_action_pullback zeros form first.u first.v first.w n

    t' : List ℕ
    t' = triform_action_pullback zeros once second.u second.v second.w n

    rescaled :
        IsRescaled n
          (λ s r c. coefficient n t s r c)
          (λ s r c. coefficient n t' s r c)
          m.du
          m.dv
          m.dw
          m.eu
          m.ev
          m.ew
    rescaled = record {
      scaled =
          pullback-moved n bound form hf zeros zeros blank a b c first.u first.v first.w second.u
            second.v second.w m.du m.dv m.dw m.eu m.ev m.ew zeros_room zeros_room room0 ha h1 h2 m.u
            m.v m.w;
      u_unit = m.u.unit;
      v_unit = m.v.unit;
      w_unit = m.w.unit;
    }
