-- ===== src/Base/Run.antt =====
-- Code with loops that end only by chance: a run is finished, has returned -1, or has used up its
-- fuel.
use Prim.Native.Nat.{ℕ, zero, suc, ◌<◌}
use mathlib.Core.Path.{◌≡◌, refl}
use mathlib.Core.Option.{Option, none, some}
use mathlib.Core.Bool.{Bool, true, false}
use native.Mathlib.Omega.{arith}

pub data Run {ℓ} (A : Type ℓ) : Type ℓ where
  done : A → Run A
  failed : Run A
  running : Run A

infixl 5 ◌>>=◌
abbrev pub ◌>>=◌ {ℓ κ} : {A : Type ℓ} {B : Type κ} → Run A → (A → Run B) → Run B
done a >>= f = f a
failed >>= f = failed
running >>= f = running

-- The result of a function that always ends.
abbrev pub lift {ℓ} : {A : Type ℓ} → Option A → Run A
lift none = failed
lift (some a) = done a

-- `if (!test) return -1;` before the rest.
abbrev pub require : Bool → Run (Unit {0})
require true = done tt
require false = failed

-- `for (i < n) s = body(i, s)`, left at the first body that does not finish.
unfoldable pub for_run {ℓ} : {S : Type ℓ} → ℕ → (ℕ → S → Run S) → S → Run S
for_run zero body s = done s
for_run (suc n) body s = for_run n body s >>= body n

pub >>=-eq-done {ℓ κ} :
    {A : Type ℓ} {B : Type κ} (m : Run A) (f : A → Run B) {b : B}
    → (m >>= f) ≡ done b
    → (a : A) × (m ≡ done a) × (f a ≡ done b)
>>=-eq-done (done a) f h = (a, refl, h)
>>=-eq-done failed f h = cc
>>=-eq-done running f h = cc

pub for_run_inv {ℓ κ} :
    {S : Type ℓ} (P : ℕ → S → Type κ) (body : ℕ → S → Run S) (n : ℕ) (s : S) {t : S}
    → P 0 s
    → ((i : ℕ) (u v : S) → i < n → P i u → body i u ≡ done v → P (suc i) v)
    → for_run n body s ≡ done t
    → P n t
unfolding for_run
for_run_inv P body zero s {t} h keep e = let q : s ≡ t = cc in rw (← q) h
for_run_inv P body (suc n) s h keep e =
    let (u, eu, ev) = >>=-eq-done (for_run n body s) (body n) e in
    keep n u _ (omega arith) (for_run_inv P body n s h (λ i a b lt. keep i a b (omega arith)) eu) ev
