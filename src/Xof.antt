-- ===== src/Xof.antt =====
-- hashkdf.h and hashkdf.c in the build with USE_SHA3. The sponge of fips202.c, vendored code, is the
-- parameter `Shake`; its laws are the documented shape of SHAKE256's output.
pub mod Cached
use meds2end.Base.{ℕ, ◌<◌, ◌≡◌, Bool, true, false, Option, none, some, List, [], length, at}
use meds2end.Base.{if◌then◌else◌, not}

pub record Shake : Type 1 where
  pub State : Type 0
  pub init : State
  pub absorb : State → List ℕ → State
  pub finalize : State → State
  pub squeeze : State → ℕ → List ℕ × State
  pub length-squeeze : (s : State) (n : ℕ) → length ((squeeze s n).0) ≡ n
  pub squeeze-byte : (s : State) (n i : ℕ) → at ((squeeze s n).0) i < 256

-- `trine_xof_state`; `trine_hash_state` has the same fields.
pub record XofState (sh : Shake) : Type 0 where
  pub shake : sh.State
  pub finalized : Bool

module _ (sh : Shake) where
  unfoldable pub xof_init : XofState sh
  xof_init = record { shake = sh.init; finalized = false }

  -- `none` is the result -1.
  unfoldable pub xof_absorb : XofState sh → List ℕ → Option (XofState sh)
  xof_absorb s input =
      if s.finalized then none else some (record s { shake = sh.absorb s.shake input })

  unfoldable pub xof_finalize : XofState sh → Option (XofState sh)
  xof_finalize s =
      if s.finalized then none else some (record { shake = sh.finalize s.shake; finalized = true })

  -- The output, and the state for the next call; an output of length 0 leaves the state alone.
  unfoldable pub xof_squeeze : XofState sh → ℕ → Option (List ℕ × XofState sh)
  xof_squeeze s n = if not s.finalized then none else squeezed s n
    where
      squeezed : XofState sh → ℕ → Option (List ℕ × XofState sh)
      squeezed t ℕ.zero = some ([], t)
      squeezed t (ℕ.suc k) =
          let (out, next) = sh.squeeze t.shake (ℕ.suc k) in some (out, record t { shake = next })

  -- trine_hash_finalize squeezes the digest and then closes the state.
  unfoldable pub hash_finalize : XofState sh → ℕ → Option (List ℕ × XofState sh)
  hash_finalize s n =
      if s.finalized
      then none
      else let (out, next) = sh.squeeze (sh.finalize s.shake) n in
        some (out, record { shake = next; finalized = true })
