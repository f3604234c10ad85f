-- ===== src/Sign/Signing.antt =====
-- crypto_sign. The allocations succeed; `salt` and `round_seeds` are the outputs of randombytes,
-- `none` when it fails. The clearing of secrets is not modelled.
pub mod Answers
pub mod Output
use meds2end.Base.{ℕ, ◌+◌, ◌-◌, ◌*◌, ◌^◌, Option, some, List, ◌++◌, replicate}
use meds2end.Base.{Bool, true, not, ◌&&◌, ◌||◌, ltb, ◌==◌, if◌then◌else◌, at, set, take}
use meds2end.Base.Run.{Run, done, failed, ◌>>=◌, lift, for_run}
use meds2end.Base.Slices.{slice, write_at}
use meds2end.Params.{
  Params, sk_bytes, sig_bytes, round_seed_bytes, digest_bytes, base_seed_bytes, base_seed_count,
}
use meds2end.Xof.{Shake, XofState, xof_init, xof_absorb, hash_finalize}
use meds2end.Codec.{Ptr, is_null, deref}
use meds2end.Codec.Keys.{encode_signature, decode_secret_key}
use meds2end.Expand.{Role, expand_public_seed, expand_base_form, expand_secret_matrix_pair}
use meds2end.Matrix.{mat_vec_mul}
use meds2end.Sampling.{parse_hash}
use meds2end.Sign.{
  message_len_to_size, challenges_valid, absorb_canonical_form, derive_round_commitment,
}
use meds2end.Triform.{triform_element_count}

module _ (sh : Shake) where
  -- The first loop: all the a vectors, psi and the transcript.
  pub record Commitments : Type 0 where
    pub a_all : List ℕ
    pub psi : List ℕ
    pub transcript : XofState sh

-- The second loop.
pub record Responses : Type 0 where
  pub responses : List ℕ
  pub base_seeds : List ℕ
  pub response_index : ℕ
  pub base_seed_index : ℕ
  pub inverse_cache : List ℕ
  pub inverse_ready : List ℕ

module _ (sh : Shake) (p : Params) (fuel : ℕ) where
  unfoldable pub round_seed_of : List ℕ → ℕ → List ℕ
  round_seed_of round_seeds round =
      slice round_seeds (round * round_seed_bytes p) (round_seed_bytes p)

  unfoldable pub commit_round : List ℕ → List ℕ → List ℕ → ℕ → Commitments sh → Run (Commitments sh)
  commit_round base_form round_seeds salt round s = do
    (a, psi) ←
        derive_round_commitment sh p fuel s.psi base_form (round_seed_of round_seeds round) salt
          round
    transcript ← absorb_canonical_form sh p s.transcript psi
    done (record {
      a_all = write_at s.a_all (round * p.n) (take p.n a);
      psi = psi;
      transcript = transcript;
    })

  -- Fills the cache with the inverse of the secret matrix A of this challenge, once.
  unfoldable pub ready_inverse : List ℕ → ℕ → Responses → Run Responses
  ready_inverse secret_seed challenge s =
      if at s.inverse_ready challenge == 0
      then (do
        (_, inverse) ←
            expand_secret_matrix_pair sh p fuel true secret_seed Role.matrix_a challenge p.n
        done (record s {
          inverse_cache = write_at s.inverse_cache (challenge * (p.n * p.n)) inverse;
          inverse_ready = set s.inverse_ready challenge 1;
        }))
      else done s

  unfoldable pub respond_round : List ℕ → List ℕ → List ℕ → List ℕ → ℕ → Responses → Run Responses
  respond_round secret_seed a_all round_seeds challenges round s =
      let challenge = at challenges round in
      if ltb challenge p.x
      then (do
        t ← ready_inverse secret_seed challenge s
        let inverse = slice t.inverse_cache (challenge * (p.n * p.n)) (p.n * p.n)
        let response = mat_vec_mul inverse (slice a_all (round * p.n) p.n) p.n
        done (record t {
          responses = write_at t.responses (t.response_index * p.n) response;
          response_index = t.response_index + 1;
        }))
      else if challenge == p.x
      then done (record s {
        base_seeds =
            write_at s.base_seeds (s.base_seed_index * round_seed_bytes p)
              (round_seed_of round_seeds round);
        base_seed_index = s.base_seed_index + 1;
      })
      else failed

  -- The arrays before the second loop.
  unfoldable pub no_responses : Responses
  no_responses = record {
    responses = replicate (p.k * p.n) 0;
    base_seeds = replicate (base_seed_bytes p) 0;
    response_index = 0;
    base_seed_index = 0;
    inverse_cache = replicate (p.x * (p.n * p.n)) 0;
    inverse_ready = replicate p.x 0;
  }

  -- From the secret seed on: the bytes of the signature. The last two arguments are the outputs of
  -- randombytes.
  unfoldable pub make_signature :
      List ℕ → List ℕ → ℕ → Option (List ℕ) → Option (List ℕ) → Run (List ℕ)
  make_signature secret_seed m message_len salt_drawn seeds_drawn = do
    public_seed ← expand_public_seed sh p secret_seed
    base_form ← expand_base_form sh p fuel public_seed p.n
    salt ← lift salt_drawn
    round_seeds ← lift seeds_drawn
    t0 ←
        (if message_len == 0
          then done (xof_init sh)
          else lift (xof_absorb sh (xof_init sh) (take message_len m)))
    s ← for_run p.r (commit_round base_form round_seeds salt) (record {
      a_all = replicate (p.r * p.n) 0;
      psi = replicate (triform_element_count p.n) 0;
      transcript = t0;
    })
    (digest, _) ← lift (hash_finalize sh s.transcript (digest_bytes p))
    challenges ← parse_hash sh p fuel digest (digest_bytes p) p.r
    if not (challenges_valid p challenges) then failed else (do
      t ← for_run p.r (respond_round secret_seed s.a_all round_seeds challenges) no_responses
      if not (t.response_index == p.k && t.base_seed_index == base_seed_count p)
          then failed
          else lift (
              encode_signature p (replicate (sig_bytes p) 0) (sig_bytes p) (some t.responses)
                (some t.base_seeds) (some digest) (some salt)))

  -- The signed message; its length is the value of *smlen, which is 0 on failure. `no_output` says
  -- whether sm or smlen is NULL.
  unfoldable pub crypto_sign :
      Bool → Option (List ℕ) → Option (List ℕ) → Ptr → ℕ → Ptr → Run (List ℕ)
  crypto_sign no_output salt round_seeds m mlen sk =
      if no_output || is_null sk
      then failed
      else if is_null m && not (mlen == 0)
      then failed
      else (do
        message_len ← lift (message_len_to_size mlen)
        if ltb (2 ^ 64 - 1 - sig_bytes p) mlen then failed else (do
          secret_seed ← lift (decode_secret_key p sk (sk_bytes p))
          signature ← make_signature secret_seed (deref m) message_len salt round_seeds
          done (signature ++ take message_len (deref m))))
