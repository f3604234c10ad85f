-- ===== src/Sign/Keypair.antt =====
-- crypto_sign_keypair. The allocations succeed; `secret` is the output of randombytes, `none` when it
-- fails, and the clearing of secrets is not modelled.
use meds2end.Base.{ℕ, ◌*◌, Option, some, List, Bool, false, if◌then◌else◌, replicate}
use meds2end.Base.Run.{Run, done, failed, ◌>>=◌, lift, for_run}
use meds2end.Base.Slices.{write_at}
use meds2end.Params.{Params, pk_bytes, sk_bytes}
use meds2end.Xof.{Shake}
use meds2end.Codec.Keys.{encode_public_key, encode_secret_key}
use meds2end.Expand.{Role, expand_public_seed, expand_base_form, expand_secret_matrix_pair}
use meds2end.Triform.{triform_element_count, triform_action_pullback}

module _ (sh : Shake) (p : Params) (fuel : ℕ) where
  -- The form with index i is the base form pulled back by three secret matrices.
  unfoldable pub keypair_round : List ℕ → List ℕ → ℕ → List ℕ → Run (List ℕ)
  keypair_round secret_seed base_form i nonbase_forms = do
    (a, _) ← expand_secret_matrix_pair sh p fuel false secret_seed Role.matrix_a i p.n
    (b, _) ← expand_secret_matrix_pair sh p fuel false secret_seed Role.matrix_b i p.n
    (c, _) ← expand_secret_matrix_pair sh p fuel false secret_seed Role.matrix_c i p.n
    let blank = replicate (triform_element_count p.n) 0
    let form = triform_action_pullback blank base_form a b c p.n
    done (write_at nonbase_forms (i * triform_element_count p.n) form)

  -- The public and the secret key. `no_output` says whether pk or sk is NULL.
  unfoldable pub crypto_sign_keypair : Bool → Option (List ℕ) → Run (List ℕ × List ℕ)
  crypto_sign_keypair no_output secret = if no_output then failed else (do
    secret_seed ← lift secret
    public_seed ← expand_public_seed sh p secret_seed
    base_form ← expand_base_form sh p fuel public_seed p.n
    nonbase_forms ←
        for_run p.x (keypair_round secret_seed base_form)
          (replicate (p.x * triform_element_count p.n) 0)
    pk ← lift (
        encode_public_key p (replicate (pk_bytes p) 0) (pk_bytes p) (some public_seed)
          (some nonbase_forms))
    sk ← lift (encode_secret_key p (sk_bytes p) (some secret_seed))
    done (pk, sk))
