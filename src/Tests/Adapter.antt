-- ===== src/Tests/Adapter.antt =====
-- iccs/SIG_AlgorithmInstance.c: runs and the theorems at concrete inputs.
use meds2end.Base.{ℕ, ◌+◌, ◌^◌, ◌≤◌, ◌<◌, ◌≡◌, ◌↔◌, refl, arith}
use meds2end.Base.{true, false, some, none, List, [], ◌∷◌, length, replicate}
use meds2end.Base.Run.{done, failed}
use meds2end.Params.{sig_bytes, sk_bytes, pk_bytes}
use meds2end.Adapter.{
  accepted, refused, bad_argument, bad_length, sign_failed, verify_failed, settle, sig_sign,
  sig_verify,
}
use meds2end.Adapter.SignVerify.{◌then_call◌, signing, signing_reply, sig_verify-sig_sign}
use meds2end.Adapter.Verdict.{IsMissing, sig_verify_lem}
use meds2end.Sign.Verifying.{crypto_sign_open, crypto_sign_verify}
use meds2end.Tests.Signing.{small, tiny, zeros}
use meds2end.Tests.Signed.{sponge, five, public_key, message, salt, salt-length}

-- A buffer with six bytes more than a signature.
abbrev buffer : List ℕ
buffer = replicate 20 9

room : sig_bytes five ≤ 20
unfolding sig_bytes
room = omega arith

short_message : 3 + sig_bytes five < 2 ^ 64
unfolding sig_bytes
short_message = omega arith

-- The whole round, in which the signing and the verification succeed.
sig_verify-sig_sign_example :
    (signing_reply sponge five 3 salt (8 ∷ 9 ∷ []) message (7 ∷ []) buffer 20 then_call λ s.
    sig_verify sponge five 3 (some public_key) (pk_bytes five) (some s.0) s.1 (some message) 3
    then_call λ _. done (accepted message))
    ≡ (settle sign_failed (signing sponge five 3 salt (8 ∷ 9 ∷ []) message (7 ∷ [])) then_call λ sm.
        settle verify_failed
          (crypto_sign_open sponge five 3 false (some sm) (length sm) (some public_key)))
sig_verify-sig_sign_example =
    sig_verify-sig_sign sponge five 3 salt (8 ∷ 9 ∷ []) message (7 ∷ []) salt-length (omega arith)
      public_key buffer room 20 room short_message

-- A signature whose bytes are all 9.
sig_verify_lem_example :
    ((sig_verify sponge five 3 (some public_key) 190 (some buffer) 13 (some message) 3
        ≡ done (accepted tt))
      ↔ ((190 ≡ pk_bytes five)
          × (crypto_sign_verify sponge five 3 (some buffer) 13 (some message) 3 (some public_key)
              ≡ done tt)))
    × ((sig_verify sponge five 3 (some public_key) 190 (some buffer) 13 (some message) 3
          ≡ done (refused bad_argument))
        ↔ IsMissing (some public_key) (some buffer) (some message) 3)
    × ((sig_verify sponge five 3 (some public_key) 190 (some buffer) 13 (some message) 3
          ≡ done (refused verify_failed))
        ↔ ((¬ IsMissing (some public_key) (some buffer) (some message) 3)
            × (190 ≡ pk_bytes five)
            × (13 ≡ sig_bytes five)
            × (crypto_sign_verify sponge five 3 (some buffer) 13 (some message) 3 (some public_key)
                ≡ failed)))
sig_verify_lem_example =
    sig_verify_lem sponge five 3 (some public_key) 190 (some buffer) 13 (some message) 3

-- A NULL pointer to the signature, and a buffer that is one byte too short.
sig_sign_refused :
    (sig_sign zeros tiny 5 true none none (some small) 1 (some small) 3 none (some 14)
      ≡ done (refused bad_argument))
    × (sig_sign zeros tiny 5 true none none (some small) 1 (some small) 3 (some buffer) (some 13)
        ≡ done (refused bad_length))
unfolding sig_sign sig_bytes sk_bytes
sig_sign_refused = (refl, refl)
