-- ===== src/Sampling/Accepted.antt =====
-- rnd_GF: which candidate it returns, and the fuel that is enough.
use meds2end.Base.{ℕ, zero, suc, ◌≤◌, ◌<◌, ◌≡◌, refl, true, false, leb, arith}
use meds2end.Base.Run.{done}
use meds2end.Params.{trine_q}
use meds2end.Xof.{Shake, XofState, xof_squeeze}
use meds2end.Sampling.{gf_candidate, rnd_gf}

module _ (sh : Shake) where
  abbrev pub squeezing : sh.State → XofState sh
  squeezing t = record { shake = t; finalized = true }

  -- The sponge after some candidates were drawn from it.
  abbrev pub drawn : ℕ → sh.State → sh.State
  drawn zero t = t
  drawn (suc i) t = drawn i ((sh.squeeze t 2).1)

  abbrev pub candidate : ℕ → sh.State → ℕ
  candidate i t = gf_candidate sh ((sh.squeeze (drawn i t) 2).0)

  accepted : (c : ℕ) → c < trine_q → leb trine_q c ≡ false
  accepted c h = ground arith

  rejected : (c : ℕ) → trine_q ≤ c → leb trine_q c ≡ true
  rejected c h = ground arith

  -- On an output function in its squeezing phase, rnd_GF returns the first candidate below q, and
  -- leaves the output function behind that candidate. The fuel exceeds the number of the candidates
  -- before it.
  pub rnd_gf-candidate :
      (fuel i : ℕ) (t : sh.State)
      → i < fuel
      → candidate i t < trine_q
      → ((j : ℕ) → j < i → trine_q ≤ candidate j t)
      → rnd_gf sh fuel (squeezing t) ≡ done (candidate i t, squeezing (drawn (suc i) t))
  unfolding rnd_gf xof_squeeze gf_candidate
  rnd_gf-candidate zero i t lt ok before = absurd (omega arith)
  rnd_gf-candidate (suc fuel) zero t lt ok before = rw (accepted _ ok) refl
  rnd_gf-candidate (suc fuel) (suc i) t lt ok before = rw (rejected _ (before 0 (omega arith))) (
      rnd_gf-candidate fuel i ((sh.squeeze t 2).1) (omega arith) ok
        λ j less. before (suc j) (omega arith))
