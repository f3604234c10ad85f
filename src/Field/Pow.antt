-- ===== src/Field/Pow.antt =====
-- Both branches of GF_inv raise their argument to the power q - 2.
use native.Mathlib.Nat.{mod-eq_of_lt, mod-lt, pow-zero, pow-suc}
use meds2end.Base.{ℕ, zero, suc, ◌+◌, ◌-◌, ◌*◌, ◌/◌, ◌%◌, ◌^◌, ◌≤◌, ◌<◌, ◌≡◌, refl, sym, ap, ◌∙◌}
use meds2end.Base.{arith, ◌==◌, Bool-cases, inl, inr}
use meds2end.Base.{==→eq}
use meds2end.Base.Congr.{Congr, Congr-mul, Congr-mod, Congr-pow, Congr-of_eq, pow-add, pow_halve}
use meds2end.Field.{mul64, gf_inv_chain, gf_inv_loop, gf_inv_at}

module _ (q : ℕ) (pos : 0 < q) (fits : q ≤ 2 ^ 16) where
  word_product : (a b : ℕ) → a < 2 ^ 16 → b < 2 ^ 16 → a * b < 2 ^ 64
  word_product a b ha hb = grind arith

  mul64_lem : (a b : ℕ) → a < 2 ^ 16 → b < 2 ^ 16 → mul64 q a b ≡ a * b % q
  mul64_lem a b ha hb = ap (λ (t : ℕ). t % q) (mod-eq_of_lt (word_product a b ha hb))

  -- t is the power e of v, as a reduced residue or as v itself.
  IsPower : ℕ → ℕ → ℕ → Type 0
  IsPower v e t = (t < 2 ^ 16) × Congr q t (v ^ e)

  mul64-IsPower : (v e f a b : ℕ) → IsPower v e a → IsPower v f b → IsPower v (e + f) (mul64 q a b)
  unfolding IsPower
  mul64-IsPower v e f a b (la, ca) (lb, cb) = (
    rw (mul64_lem a b la lb) (omega (arith, mod-lt (a * b) pos)),
    rw (mul64_lem a b la lb) (
        Congr-mod q (a * b)
        ∙ Congr-mul q a (v ^ e) b (v ^ f) ca cb
        ∙ Congr-of_eq q _ _ (sym (pow-add v e f))),
  )

  mul64-lt : (a b : ℕ) → mul64 q a b < q
  mul64-lt a b = mod-lt (a * b % 2 ^ 64) pos

  chain_lem : (v : ℕ) → v < 2 ^ 16 → gf_inv_chain q v ≡ v ^ 8189 % q
  unfolding gf_inv_chain IsPower
  chain_lem v hv =
      let p0 : IsPower v 1 v = (hv, Congr-of_eq q _ _ (sym (pow_one v))) in
      let p1 = mul64-IsPower v 1 1 _ _ p0 p0 in
      let p2 = mul64-IsPower v 2 1 _ _ p1 p0 in
      let p3 = mul64-IsPower v 3 2 _ _ p2 p1 in
      let p4 = mul64-IsPower v 5 5 _ _ p3 p3 in
      let p5 = mul64-IsPower v 10 5 _ _ p4 p3 in
      let p6 = mul64-IsPower v 15 15 _ _ p5 p5 in
      let p7 = mul64-IsPower v 30 30 _ _ p6 p6 in
      let p8 = mul64-IsPower v 60 60 _ _ p7 p7 in
      let p9 = mul64-IsPower v 120 120 _ _ p8 p8 in
      let p10 = mul64-IsPower v 240 15 _ _ p9 p5 in
      let p11 = mul64-IsPower v 255 255 _ _ p10 p10 in
      let p12 = mul64-IsPower v 510 510 _ _ p11 p11 in
      let p13 = mul64-IsPower v 1020 3 _ _ p12 p2 in
      let p14 = mul64-IsPower v 1023 1023 _ _ p13 p13 in
      let p15 = mul64-IsPower v 2046 2046 _ _ p14 p14 in
      let p16 = mul64-IsPower v 4092 4092 _ _ p15 p15 in
      let p17 = mul64-IsPower v 8184 5 _ _ p16 p3 in
      mod-eq_of_lt p17.0 ∙ sym (mod-eq_of_lt (mul64-lt _ _)) ∙ p17.1
    where
      pow_one : (a : ℕ) → a ^ 1 ≡ a
      pow_one a = pow-suc a 0 ∙ rw (pow-zero a) (omega arith)

  -- The squared base, as the loop stores it.
  square_lem : (v : ℕ) → v < q → mul64 q v v % 2 ^ 16 ≡ v * v % q
  square_lem v hv =
      mod-eq_of_lt (omega (arith, mul64-lt v v)) ∙ mul64_lem v v (omega arith) (omega arith)

  step_even : (e t v v' : ℕ) → v' ≡ v * v % q → e % 2 ≡ 0 → Congr q (t * v' ^ (e / 2)) (t * v ^ e)
  step_even e t v v' hv' he = Congr-mul q t t _ _ refl (
      Congr-pow q (e / 2) v' (v * v) (ap (λ (x : ℕ). x % q) hv' ∙ Congr-mod q (v * v))
      ∙ Congr-of_eq q _ _ (sym whole))
    where
      whole : v ^ e ≡ (v * v) ^ (e / 2)
      whole = pow_halve v e ∙ rw (he, pow-zero v) (omega arith)

  step_odd :
      (e t v t' v' : ℕ)
      → t' ≡ t * v % q
      → v' ≡ v * v % q
      → e % 2 ≡ 1
      → Congr q (t' * v' ^ (e / 2)) (t * v ^ e)
  step_odd e t v t' v' ht' hv' he =
      Congr-mul q t' (t * v) _ _ (ap (λ (x : ℕ). x % q) ht' ∙ Congr-mod q (t * v))
        (Congr-pow q (e / 2) v' (v * v) (ap (λ (x : ℕ). x % q) hv' ∙ Congr-mod q (v * v)))
      ∙ Congr-of_eq q _ _ whole
    where
      whole : t * v * (v * v) ^ (e / 2) ≡ t * v ^ e
      whole = rw (pow_halve v e, he, pow-suc v 0, pow-zero v) (omega arith)

  -- Square and multiply: with fuel for every bit of the exponent.
  loop_lem :
      (fuel e t v : ℕ) → e < 2 ^ fuel → t < q → v < q → gf_inv_loop fuel q e t v ≡ t * v ^ e % q
  unfolding gf_inv_loop
  loop_lem zero zero t v he ht hv =
      sym (mod-eq_of_lt ht) ∙ Congr-of_eq q _ _ (rw (pow-zero v) (omega arith))
  loop_lem zero (suc e) t v he ht hv = absurd (omega (arith, pow-zero 2))
  loop_lem (suc fuel) e t v he ht hv = elim (Bool-cases (e == 0)) [
    | inl done ↦
        let e0 : e ≡ 0 = ==→eq e 0 done in
        rw done (sym (mod-eq_of_lt ht) ∙ Congr-of_eq q _ _ (rw (e0, pow-zero v) (omega arith)))
    | inr more ↦ elim (Bool-cases (e % 2 == 0)) [
      | inl even ↦
          rw (more, even)
            (loop_lem fuel (e / 2) t (mul64 q v v % 2 ^ 16) smaller ht square-lt
              ∙ step_even e t v _ (square_lem v hv) (==→eq _ _ even))
      | inr odd ↦
          rw (more, odd)
            (loop_lem fuel (e / 2) (mul64 q t v) (mul64 q v v % 2 ^ 16) smaller (mul64-lt t v)
                square-lt
              ∙ step_odd e t v _ _ (mul64_lem t v (omega arith) (omega arith)) (square_lem v hv)
                  (ground arith))
    ]
  ]
    where
      smaller : e / 2 < 2 ^ fuel
      smaller = omega (arith, pow-suc 2 fuel)

      square-lt : mul64 q v v % 2 ^ 16 < q
      square-lt = rw (square_lem v hv) (mod-lt (v * v) pos)

-- For every modulus from 3 to 2 ^ 16, whichever branch is taken, GF_inv returns the power q - 2 of
-- a reduced argument: the addition chain for 8191 and the square-and-multiply loop compute the
-- same function of q, and 16 rounds are enough for the loop.
pub gf_inv_at-pow : (q v : ℕ) → 3 ≤ q → q ≤ 2 ^ 16 → v < q → gf_inv_at q v ≡ v ^ (q - 2) % q
unfolding gf_inv_at
gf_inv_at-pow q v lo hi hv = elim (Bool-cases (q == 8191)) [
  | inl e ↦
      let eq : q ≡ 8191 = ==→eq q 8191 e in
      rw e (chain_lem q (omega arith) hi v (omega arith) ∙ ap (λ (x : ℕ). v ^ x % q) (omega arith))
  | inr ne ↦
      rw (ne, loop_lem q (omega arith) hi 16 (q - 2) 1 v (omega arith) (omega arith) hv)
        (mod-eq_of_lt (below (1 * v ^ (q - 2))) ∙ Congr-of_eq q _ _ (omega arith))
]
  where
    below : (x : ℕ) → x % q < 2 ^ 16
    below x = omega arith
