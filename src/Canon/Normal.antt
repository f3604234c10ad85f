-- ===== src/Canon/Normal.antt =====
-- canonical_diagonal_normalize: the anchors of its result are 1.
use meds2end.Base.{ℕ, ◌+◌, ◌-◌, ◌*◌, ◌≤◌, ◌<◌, ◌≡◌, refl, ap, subst, ◌∙◌, arith}
use meds2end.Base.{List, at, length, replicate, some}
use native.Mathlib.Decide.{dec_lt}
use meds2end.Base.Congr.{Congr, Congr-mul, Congr-mod, Congr-of_eq}
use meds2end.Params.{trine_q}
use meds2end.Field.{gf_mul, gf_batch_inv}
use meds2end.Field.Arith.{gf_mul_lem}
use meds2end.Field.Batch.{IsInverses}
use meds2end.Field.Batch.Result.{gf_batch_inv_lem, gf_batch_inv-zero}
use meds2end.Matrix.Products.{IsReduced, zeros-IsReduced}
use meds2end.Triform.Eval.{coefficient}
use meds2end.Canon.{Diagonals, collect_normalization_anchors}
use meds2end.Canon.Anchors.{IsAnchors, collected-IsAnchors, anchors-IsReduced}
use meds2end.Canon.Scaling.{IsDiagonals, gf_mul-lt}
use meds2end.Canon.Ones.{IsSolved}

abbrev Same : ℕ → ℕ → Type 0
Same a b = Congr trine_q a b

-- Where GF_batch_inv succeeds, its output holds the inverses.
pub batch-IsInverses :
    (input old : List ℕ) (count : ℕ) {out : List ℕ}
    → IsReduced input
    → count ≤ length old
    → gf_batch_inv old input count ≡ some out
    → IsInverses input old out count
batch-IsInverses input old count {out} reduced room e =
    let (found, done_, inv) =
      gf_batch_inv_lem input old count (λ i lt. reduced i) room
        (λ i lt z. cc (gf_batch_inv-zero input old count i (λ j l. reduced j) lt z, e)) in
    let same : found ≡ out = cc (done_, e) in subst (λ o. IsInverses input old o count) same inv

pub mul-Congr :
    (a b a' b' : ℕ)
    → a < trine_q
    → b < trine_q
    → Same a a'
    → Same b b'
    → Same (gf_mul a b) (a' * b')
mul-Congr a b a' b' ha hb ea eb =
    rw (gf_mul_lem a b ha hb) (Congr-mod trine_q (a * b) ∙ Congr-mul trine_q a a' b b' ea eb)

module _ (n : ℕ) (large : 5 ≤ n) (form : List ℕ) (hf : IsReduced form) where
  abbrev anchors : List ℕ
  anchors = collect_normalization_anchors form n

  abbrev t : ℕ → ℕ → ℕ → ℕ
  t s r c = coefficient n form s r c

  abbrev o : ℕ
  o = 3 * (n - 2)

  module _ (inverses : List ℕ)
      (inv : IsInverses anchors (replicate (3 * n - 2) 0) inverses (3 * n - 2)) where
    pub inverses-IsReduced : IsReduced inverses
    inverses-IsReduced i = elim (dec_lt i (3 * n - 2)) [
      | yes lt ↦ (inv.inverse i lt).0
      | no ge ↦ rw (inv.rest i (omega (arith, ge))) (zeros-IsReduced (3 * n - 2) i)
    ]

    is_anchors : IsAnchors n form anchors
    is_anchors = collected-IsAnchors n form large

    ha : IsReduced anchors
    ha = anchors-IsReduced n form large hf

    -- An inverse and the coefficient at its anchor.
    pair : (i x : ℕ) → i < 3 * n - 2 → at anchors i ≡ x → Same (at inverses i * x) 1
    pair i x lt e = rw (← e) ((inv.inverse i lt).1)

    module _ (d : Diagonals) (h : IsDiagonals n anchors inverses d) where
      abbrev inverse_at : ℕ → ℕ → ℕ
      inverse_at start k = at inverses (start + k)

      pub solved :
          IsSolved
            (n - 2)
            t
            (at d.f)
            (at d.g)
            (at d.h)
            (at inverses)
            (inverse_at (n - 2))
            (inverse_at (2 * (n - 2)))
            (at inverses o)
            (at inverses (o + 1))
            (at inverses (o + 2))
            (at inverses (o + 3))
      solved = record {
        pa = λ k lt. pair k _ (omega (arith, lt)) (is_anchors.a k lt);
        pb = λ k lt. pair (n - 2 + k) _ (omega (arith, lt)) (is_anchors.b k lt);
        pc = λ k lt. pair (2 * (n - 2) + k) _ (omega (arith, lt)) (is_anchors.c k lt);
        p1 = pair o _ (omega (arith, large)) is_anchors.d1;
        p2 = pair (o + 1) _ (omega (arith, large)) is_anchors.d2;
        p3 = pair (o + 2) _ (omega (arith, large)) is_anchors.d3;
        p4 = pair (o + 3) _ (omega (arith, large)) is_anchors.d4;
        f0 = Congr-of_eq trine_q _ _ h.f0;
        g1 = Congr-of_eq trine_q _ _ h.g1;
        h0 = Congr-of_eq trine_q _ _ h.h0;
        f_high = λ k lt. Congr-of_eq trine_q _ _ (h.f k lt) ∙ by_d1 k;
        g_high = λ k lt. Congr-of_eq trine_q _ _ (h.g k lt) ∙ by_d1 (n - 2 + k);
        h_high = λ k lt. Congr-of_eq trine_q _ _ (h.h k lt);
        f1 =
            Congr-of_eq trine_q _ _ h.f1
            ∙ mul-Congr _ _ _ _ (lt3) (hi _)
                (mul-Congr _ _ _ _ lt2 (hi _) (mul-Congr _ _ _ _ (ha _) (ha _) b3 c5) refl) refl;
        h1 =
            Congr-of_eq trine_q _ _ h.h1
            ∙ mul-Congr _ _ _ _ (gf_mul-lt _ _ (ha _) (hi _)) (hi _)
                (mul-Congr _ _ _ _ (ha _) (hi _) b3 refl) refl;
        g0 =
            Congr-of_eq trine_q _ _ h.g0
            ∙ mul-Congr _ _ _ _ (gf_mul-lt _ _ lt_f lt_h) (hi _)
                (mul-Congr _ _ _ _ lt_f lt_h
                  (mul-Congr _ _ _ _ lt_gh (ha _)
                    (mul-Congr _ _ _ _ (h.g_reduced 2) (h.h_reduced 4) refl refl)
                    (Congr-of_eq trine_q _ _ is_anchors.d2))
                  (mul-Congr _ _ _ _ (h.g_reduced 2) (ha _) refl
                    (Congr-of_eq trine_q _ _ is_anchors.d3)))
                refl;
      }
        where
          hi : IsReduced inverses
          hi = inverses-IsReduced

          by_d1 : (i : ℕ) → Same (gf_mul (at anchors o) (at inverses i)) (t 0 0 1 * at inverses i)
          by_d1 i =
              mul-Congr (at anchors o) (at inverses i) _ _ (ha o) (hi i)
                (Congr-of_eq trine_q _ _ is_anchors.d1) refl

          b3 : Same (at anchors (n - 2)) (t 0 0 2)
          b3 = Congr-of_eq trine_q _ _ (
              ap (at anchors) {x = n - 2} {y = n - 2 + 0} (omega arith)
              ∙ is_anchors.b 0 (omega (arith, large)))

          c5 : Same (at anchors (2 * (n - 2) + 2)) (t 4 0 1)
          c5 = Congr-of_eq trine_q _ _ (is_anchors.c 2 (omega (arith, large)))

          lt2 : gf_mul (at anchors (n - 2)) (at anchors (2 * (n - 2) + 2)) < trine_q
          lt2 = gf_mul-lt _ _ (ha _) (ha _)

          lt3 :
              gf_mul (gf_mul (at anchors (n - 2)) (at anchors (2 * (n - 2) + 2))) (at inverses o)
              < trine_q
          lt3 = gf_mul-lt _ _ lt2 (hi _)

          lt_gh : gf_mul (at d.g 2) (at d.h 4) < trine_q
          lt_gh = gf_mul-lt _ _ (h.g_reduced 2) (h.h_reduced 4)

          lt_f : gf_mul (gf_mul (at d.g 2) (at d.h 4)) (at anchors (o + 1)) < trine_q
          lt_f = gf_mul-lt _ _ lt_gh (ha _)

          lt_h : gf_mul (at d.g 2) (at anchors (o + 2)) < trine_q
          lt_h = gf_mul-lt _ _ (h.g_reduced 2) (ha _)
