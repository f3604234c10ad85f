-- ===== src/Base/Loops.antt =====
-- Counted loops of C and their invariant rules.
use Prim.Native.Nat.{ℕ, zero, suc, ◌<◌}
use mathlib.Core.Path.{◌≡◌, refl}
use mathlib.Core.Option.{Option, none, some}
use native.Mathlib.Omega.{arith}

-- `for (i = 0; i < n; i++) s = body(i, s)`: the last round is the outermost call.
unfoldable pub for_up {ℓ} : {S : Type ℓ} → ℕ → (ℕ → S → S) → S → S
for_up zero body s = s
for_up (suc n) body s = body n (for_up n body s)

-- An invariant that every round keeps holds after the loop.
pub for_up_inv {ℓ κ} :
    {S : Type ℓ} (P : ℕ → S → Type κ) (body : ℕ → S → S) (n : ℕ) (s : S)
    → P 0 s
    → ((i : ℕ) (t : S) → i < n → P i t → P (suc i) (body i t))
    → P n (for_up n body s)
unfolding for_up
for_up_inv P body zero s h keep = h
for_up_inv P body (suc n) s h keep =
    keep n _ (omega arith) (for_up_inv P body n s h (λ i t lt. keep i t (omega arith)))

-- A relation that every round keeps between two loops holds between their results.
pub for_up_rel {ℓ κ μ} :
    {S : Type ℓ} {T : Type κ} (R : S → T → Type μ) (f : ℕ → S → S) (g : ℕ → T → T) (n : ℕ) (s : S)
    (t : T)
    → R s t
    → ((i : ℕ) (u : S) (v : T) → i < n → R u v → R (f i u) (g i v))
    → R (for_up n f s) (for_up n g t)
unfolding for_up
for_up_rel R f g zero s t h keep = h
for_up_rel R f g (suc n) s t h keep =
    keep n _ _ (omega arith) (for_up_rel R f g n s t h (λ i u v lt. keep i u v (omega arith)))

infixl 5 ◌>>=◌
abbrev pub ◌>>=◌ {ℓ κ} : {A : Type ℓ} {B : Type κ} → Option A → (A → Option B) → Option B
none >>= f = none
some a >>= f = f a

-- The same loop with a body that may leave the function with an error.
unfoldable pub for_up? {ℓ} : {S : Type ℓ} → ℕ → (ℕ → S → Option S) → S → Option S
for_up? zero body s = some s
for_up? (suc n) body s = for_up? n body s >>= body n

pub >>=-eq-some {ℓ κ} :
    {A : Type ℓ} {B : Type κ} (m : Option A) (f : A → Option B) {b : B}
    → (m >>= f) ≡ some b
    → (a : A) × (m ≡ some a) × (f a ≡ some b)
>>=-eq-some none f h = cc
>>=-eq-some (some a) f h = (a, refl, h)

pub for_up?_inv {ℓ κ} :
    {S : Type ℓ} (P : ℕ → S → Type κ) (body : ℕ → S → Option S) (n : ℕ) (s : S) {t : S}
    → P 0 s
    → ((i : ℕ) (u v : S) → i < n → P i u → body i u ≡ some v → P (suc i) v)
    → for_up? n body s ≡ some t
    → P n t
unfolding for_up?
for_up?_inv P body zero s {t} h keep e = subst_some e
  where
    subst_some : some s ≡ some t → P 0 t
    subst_some p = let q : s ≡ t = cc in rw (← q) h
for_up?_inv P body (suc n) s h keep e =
    let (u, eu, ev) = >>=-eq-some (for_up? n body s) (body n) e in
    keep n u _ (omega arith) (for_up?_inv P body n s h (λ i a b lt. keep i a b (omega arith)) eu) ev

-- A loop whose body never fails on states that keep the invariant ends normally.
pub for_up?_total {ℓ κ} :
    {S : Type ℓ} (P : ℕ → S → Type κ) (body : ℕ → S → Option S) (n : ℕ) (s : S)
    → P 0 s
    → ((i : ℕ) (u : S) → i < n → P i u → (v : S) × (body i u ≡ some v) × P (suc i) v)
    → (t : S) × (for_up? n body s ≡ some t) × P n t
unfolding for_up?
for_up?_total P body zero s h keep = (s, refl, h)
for_up?_total P body (suc n) s h keep =
    let (u, eu, hu) = for_up?_total P body n s h (λ i a lt. keep i a (omega arith)) in
    let (v, ev, hv) = keep n u (omega arith) hu in (v, rw eu ev, hv)
