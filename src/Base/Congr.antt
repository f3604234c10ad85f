-- ===== src/Base/Congr.antt =====
-- Congruence modulo m, in which the field arithmetic is stated.
use Prim.Native.Nat.{ℕ, zero, suc, ◌+◌, ◌-◌, ◌≤◌, ◌*◌, ◌/◌, ◌%◌, ◌^◌, ◌<◌}
use mathlib.Core.Path.{◌≡◌, refl, sym, ap, ap₂, ◌∙◌}
use native.Mathlib.Omega.{arith}
use native.Mathlib.Nat.{
  pow-zero, pow-suc, add-zero, add-suc, mul_assoc, add-mod, mod-mod, mul_comm, mod-add-div,
  mod-eq_of_lt, add-mul-mod_self_left,
}
use meds2end.Base.Sums.{sum}

-- a and b leave the same remainder by m.
abbrev pub Congr : ℕ → ℕ → ℕ → Type 0
Congr m a b = a % m ≡ b % m

module _ (m : ℕ) where
  pub Congr-mod : (a : ℕ) → Congr m (a % m) a
  Congr-mod a = mod-mod a m

  pub Congr-add : (a b c d : ℕ) → Congr m a b → Congr m c d → Congr m (a + c) (b + d)
  Congr-add a b c d p q = add-mod a c m ∙ ap₂ (λ (x y : ℕ). (x + y) % m) p q ∙ sym (add-mod b d m)

  mul-mod_left : (a c : ℕ) → (a * c) % m ≡ (a % m * c) % m
  mul-mod_left a c =
      ap (λ (t : ℕ). t * c % m) (sym (mod-add-div a m))
      ∙ ap (λ (t : ℕ). t % m) (regroup (a % m) (a / m))
      ∙ add-mul-mod_self_left (a % m * c) m (a / m * c)
    where
      regroup : (x y : ℕ) → (x + m * y) * c ≡ x * c + m * (y * c)
      regroup x y = omega arith

  pub Congr-mul : (a b c d : ℕ) → Congr m a b → Congr m c d → Congr m (a * c) (b * d)
  Congr-mul a b c d p q =
      mul-mod_left a c
      ∙ ap (λ (t : ℕ). t * c % m) p
      ∙ sym (mul-mod_left b c)
      ∙ ap (λ (t : ℕ). t % m) (mul_comm b c)
      ∙ mul-mod_left c b
      ∙ ap (λ (t : ℕ). t * b % m) q
      ∙ sym (mul-mod_left d b)
      ∙ ap (λ (t : ℕ). t % m) (mul_comm d b)

  pub Congr-of_eq : (a b : ℕ) → a ≡ b → Congr m a b
  Congr-of_eq a b e = ap (λ (t : ℕ). t % m) e

  pub eq_of_Congr : (a b : ℕ) → a < m → b < m → Congr m a b → a ≡ b
  eq_of_Congr a b p q e = sym (mod-eq_of_lt p) ∙ e ∙ mod-eq_of_lt q

  -- A summand cancels.
  pub Congr-cancel : 0 < m → (a b c : ℕ) → Congr m (a + c) (b + c) → Congr m a b
  Congr-cancel pos a b c h =
      sym (whole a) ∙ Congr-add (a + c) (b + c) (m * c - c) (m * c - c) h refl ∙ whole b
    where
      regroup : (x : ℕ) → c ≤ m * c → x + c + (m * c - c) ≡ x + m * c
      regroup x room = omega arith

      whole : (x : ℕ) → Congr m (x + c + (m * c - c)) x
      whole x =
          let room : c ≤ m * c = grind arith in
          ap (λ (t : ℕ). t % m) (regroup x room) ∙ add-mul-mod_self_left x m c

  pub Congr-sum :
      (n : ℕ) (f g : ℕ → ℕ) → ((i : ℕ) → i < n → Congr m (f i) (g i)) → Congr m (sum n f) (sum n g)
  unfolding sum
  Congr-sum zero f g h = refl
  Congr-sum (suc n) f g h =
      Congr-add (sum n f) (sum n g) (f n) (g n) (Congr-sum n f g (λ i lt. h i (omega arith)))
        (h n (omega arith))

  pub Congr-pow : (e a b : ℕ) → Congr m a b → Congr m (a ^ e) (b ^ e)
  Congr-pow zero a b p = rw (pow-zero a, pow-zero b)
  Congr-pow (suc e) a b p =
      rw (pow-suc a e, pow-suc b e) (Congr-mul (a ^ e) (b ^ e) a b (Congr-pow e a b p) p)

pub pow-add : (a e f : ℕ) → a ^ (e + f) ≡ a ^ e * a ^ f
pow-add a e zero = rw (add-zero e, pow-zero a) (omega arith)
pow-add a e (suc f) =
    ap (λ (t : ℕ). a ^ t) (add-suc e f)
    ∙ pow-suc a (e + f)
    ∙ ap (λ (t : ℕ). t * a) (pow-add a e f)
    ∙ mul_assoc (a ^ e) (a ^ f) a
    ∙ ap (λ (t : ℕ). a ^ e * t) (sym (pow-suc a f))

pub mul-pow : (k a : ℕ) → (a * a) ^ k ≡ a ^ k * a ^ k
mul-pow zero a = rw (pow-zero (a * a), pow-zero a)
mul-pow (suc k) a = rw (pow-suc (a * a) k, pow-suc a k, mul-pow k a) (omega arith)

-- Halving an exponent squares the base.
pub pow_halve : (a e : ℕ) → a ^ e ≡ (a * a) ^ (e / 2) * a ^ (e % 2)
pow_halve a e =
    ap (λ (t : ℕ). a ^ t) halves
    ∙ pow-add a (e / 2 + e / 2) (e % 2)
    ∙ ap (λ (t : ℕ). t * a ^ (e % 2)) (pow-add a (e / 2) (e / 2) ∙ sym (mul-pow (e / 2) a))
  where
    halves : e ≡ e / 2 + e / 2 + e % 2
    halves = omega arith
