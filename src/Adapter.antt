-- ===== src/Adapter.antt =====
-- iccs/SIG_AlgorithmInstance.c: the signature interface of a submission package over meds.c. What
-- crypto_sign_keypair leaves in its buffers when it fails, and the clearing of the temporary buffer,
-- are not modelled.
pub mod SignVerify
pub mod Verdict
use meds2end.Base.{ℕ, ◌+◌, ◌-◌, ◌^◌, Option, none, some, List, length, take}
use meds2end.Base.{Bool, true, false, not, ◌&&◌, ◌||◌, ltb, ◌==◌, if◌then◌else◌}
use meds2end.Base.Run.{Run, done, failed, running}
use meds2end.Base.Slices.{write_at}
use meds2end.Params.{Params, pk_bytes, sk_bytes, sig_bytes}
use meds2end.Xof.{Shake}
use meds2end.Codec.{Ptr, is_null, deref}
use meds2end.Sign.Keypair.{crypto_sign_keypair}
use meds2end.Sign.Signing.{crypto_sign}
use meds2end.Sign.Verifying.{crypto_sign_verify}

-- The error codes -1 to -6. SIG_AlgorithmInstance.h documents -1 for an invalid signature and other
-- codes for all else; the code returns -6, `verify_failed`, for an invalid signature, and -1,
-- `bad_argument`, for a pointer that is NULL.
pub data ErrorCode : Type 0 where
  bad_argument : ErrorCode
  bad_length : ErrorCode
  alloc_failed : ErrorCode
  keygen_failed : ErrorCode
  sign_failed : ErrorCode
  verify_failed : ErrorCode

-- The result 0 with the outputs, or an error code.
pub data Reply (A : Type 0) : Type 0 where
  accepted : A → Reply A
  refused : ErrorCode → Reply A

-- A call that returns 0, or else the error code.
unfoldable pub settle : {A : Type 0} → ErrorCode → Run A → Run (Reply A)
settle code (done a) = done (accepted a)
settle code failed = done (refused code)
settle code running = running

-- A pointer to a length.
abbrev pub no_length : Option ℕ → Bool
no_length none = true
no_length (some len) = false

abbrev pub length_at : Option ℕ → ℕ
length_at none = 0
length_at (some len) = len

-- The buffers and lengths after a call of sig_keygen that succeeds.
pub record KeyBuffers : Type 0 where
  pub pk : List ℕ
  pub pk_len_bytes : ℕ
  pub sk : List ℕ
  pub sk_len_bytes : ℕ

module _ (p : Params) where
  unfoldable pub sig_get_pk_len_bytes : ℕ
  sig_get_pk_len_bytes = pk_bytes p

  unfoldable pub sig_get_sk_len_bytes : ℕ
  sig_get_sk_len_bytes = sk_bytes p

  unfoldable pub sig_get_sn_len_bytes : ℕ
  sig_get_sn_len_bytes = sig_bytes p

  -- Both keys are copied to the start of their buffers.
  unfoldable pub fill_keys : List ℕ → List ℕ → Run (List ℕ × List ℕ) → Run (Reply KeyBuffers)
  fill_keys pk sk (done (public, secret)) = done (
      accepted (record {
        pk = write_at pk 0 public;
        pk_len_bytes = pk_bytes p;
        sk = write_at sk 0 secret;
        sk_len_bytes = sk_bytes p;
      }))
  fill_keys pk sk failed = done (refused keygen_failed)
  fill_keys pk sk running = running

  -- The part of sig_sign behind its call of crypto_sign.
  unfoldable pub copy_signature : List ℕ → ℕ → Run (List ℕ) → Run (Reply (List ℕ × ℕ))
  copy_signature sn tmp_len (done signed_message) =
      if not (length signed_message == tmp_len)
      then done (refused bad_length)
      else done (accepted (write_at sn 0 (take (sig_bytes p) signed_message), sig_bytes p))
  copy_signature sn tmp_len failed = done (refused sign_failed)
  copy_signature sn tmp_len running = running

module _ (sh : Shake) (p : Params) (fuel : ℕ) where
  -- The argument `secret` is the output of randombytes.
  unfoldable pub sig_keygen :
      Option (List ℕ) → Ptr → Option ℕ → Ptr → Option ℕ → Run (Reply KeyBuffers)
  sig_keygen secret pk pk_len_bytes sk sk_len_bytes =
      if (is_null pk || no_length pk_len_bytes) || (is_null sk || no_length sk_len_bytes)
      then done (refused bad_argument)
      else if ltb (length_at pk_len_bytes) (pk_bytes p) || ltb (length_at sk_len_bytes) (sk_bytes p)
      then done (refused bad_length)
      else fill_keys p (deref pk) (deref sk)
          (crypto_sign_keypair sh p fuel (is_null pk || is_null sk) secret)

  -- `alloc` says whether malloc succeeds; `salt` and `round_seeds` are the outputs of randombytes.
  -- The outputs are the content of sn and of *sn_len_bytes.
  unfoldable pub sig_sign :
      Bool
      → Option (List ℕ)
      → Option (List ℕ)
      → Ptr
      → ℕ
      → Ptr
      → ℕ
      → Ptr
      → Option ℕ
      → Run (Reply (List ℕ × ℕ))
  sig_sign alloc salt round_seeds sk sk_len_bytes m m_len_bytes sn sn_len_bytes =
      if ((is_null sk || is_null sn) || no_length sn_len_bytes)
        || (is_null m && not (m_len_bytes == 0))
      then done (refused bad_argument)
      else if not (sk_len_bytes == sk_bytes p) || ltb (length_at sn_len_bytes) (sig_bytes p)
      then done (refused bad_length)
      else if ltb (2 ^ 64 - 1 - sig_bytes p) m_len_bytes
      then done (refused bad_length)
      else if not alloc
      then done (refused alloc_failed)
      else copy_signature p (deref sn) (m_len_bytes + sig_bytes p)
          (crypto_sign sh p fuel false salt round_seeds m m_len_bytes sk)

  unfoldable pub sig_verify : Ptr → ℕ → Ptr → ℕ → Ptr → ℕ → Run (Reply (Unit {0}))
  sig_verify pk pk_len_bytes sn sn_len_bytes m m_len_bytes =
      if (is_null pk || is_null sn) || (is_null m && not (m_len_bytes == 0))
      then done (refused bad_argument)
      else if not (pk_len_bytes == pk_bytes p) || not (sn_len_bytes == sig_bytes p)
      then done (refused bad_length)
      else settle verify_failed (crypto_sign_verify sh p fuel sn sn_len_bytes m m_len_bytes pk)
