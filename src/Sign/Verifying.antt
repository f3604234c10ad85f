-- ===== src/Sign/Verifying.antt =====
-- crypto_sign_verify and crypto_sign_open. The allocations succeed.
pub mod Open
use meds2end.Base.{
  ℕ, zero, suc, ◌+◌, ◌-◌, ◌*◌, ◌^◌, Option, none, some, List, [], ◌∷◌, ◌++◌, replicate,
}
use meds2end.Base.{Bool, true, false, not, ◌&&◌, ◌||◌, ltb, ◌==◌, if◌then◌else◌, at, take, drop}
use meds2end.Base.Run.{Run, done, failed, running, ◌>>=◌, lift, for_run}
use meds2end.Base.Slices.{slice}
use meds2end.Params.{Params, pk_bytes, sig_bytes, round_seed_bytes, digest_bytes, base_seed_count}
use meds2end.Xof.{Shake, XofState, xof_init, xof_absorb, hash_finalize}
use meds2end.Codec.{Ptr, is_null, deref}
use meds2end.Codec.Keys.{decode_public_key_checked, decode_signature_checked}
use meds2end.Canon.{canonical_form}
use meds2end.Expand.{expand_base_form}
use meds2end.Sampling.{parse_hash}
use meds2end.Sign.{
  message_len_to_size, challenges_valid, challenges_equal, absorb_canonical_form,
  derive_round_commitment,
}
use meds2end.Triform.{triform_element_count}

module _ (sh : Shake) where
  -- The state of the loop over the rounds.
  pub record Check : Type 0 where
    pub psi : List ℕ
    pub response_index : ℕ
    pub base_seed_index : ℕ
    pub transcript : XofState sh

module _ (sh : Shake) (p : Params) (fuel : ℕ) where
  -- The canonical form of one round, before it is absorbed.
  unfoldable pub recompute :
      List ℕ → List ℕ → List ℕ → List ℕ → List ℕ → ℕ → ℕ → Check sh → Run (Check sh)
  recompute base_form nonbase_forms responses base_seeds salt challenge round s =
      let elements = triform_element_count p.n in
      if ltb challenge p.x
      then (do
        psi ← lift (
            canonical_form true p.n s.psi (slice nonbase_forms (challenge * elements) elements)
              (slice responses (s.response_index * p.n) p.n) p.n)
        done (record s { psi = psi; response_index = s.response_index + 1 }))
      else if challenge == p.x
      then (do
        (_, psi) ←
            derive_round_commitment sh p fuel s.psi base_form
              (slice base_seeds (s.base_seed_index * round_seed_bytes p) (round_seed_bytes p)) salt
              round
        done (record s { psi = psi; base_seed_index = s.base_seed_index + 1 }))
      else failed

  unfoldable pub verify_round :
      List ℕ → List ℕ → List ℕ → List ℕ → List ℕ → List ℕ → ℕ → Check sh → Run (Check sh)
  verify_round base_form nonbase_forms responses base_seeds salt challenges round s = do
    t ← recompute base_form nonbase_forms responses base_seeds salt (at challenges round) round s
    transcript ← absorb_canonical_form sh p t.transcript t.psi
    done (record t { transcript = transcript })

  -- From the decoded key and signature on: the comparison of the two challenge vectors.
  unfoldable pub verify_rounds :
      List ℕ → List ℕ → List ℕ → List ℕ → List ℕ → List ℕ → ℕ → List ℕ → Run (Unit {0})
  verify_rounds base_form nonbase_forms responses base_seeds salt m message_len challenges = do
    t0 ←
        (if message_len == 0
          then done (xof_init sh)
          else lift (xof_absorb sh (xof_init sh) (take message_len m)))
    s ←
        for_run p.r (verify_round base_form nonbase_forms responses base_seeds salt challenges)
          (record {
            psi = replicate (triform_element_count p.n) 0;
            response_index = 0;
            base_seed_index = 0;
            transcript = t0;
          })
    if not (s.response_index == p.k && s.base_seed_index == base_seed_count p) then failed else (do
      (digest_check, _) ← lift (hash_finalize sh s.transcript (digest_bytes p))
      challenges_check ← parse_hash sh p fuel digest_check (digest_bytes p) p.r
      if challenges_equal challenges challenges_check p.r then done tt else failed)

  -- `done` is the result 0.
  unfoldable pub crypto_sign_verify : Ptr → ℕ → Ptr → ℕ → Ptr → Run (Unit {0})
  crypto_sign_verify sig siglen m mlen pk =
      if is_null sig || is_null pk
      then failed
      else if is_null m && not (mlen == 0)
      then failed
      else if not (siglen == sig_bytes p)
      then failed
      else (do
        message_len ← lift (message_len_to_size mlen)
        key ← lift (decode_public_key_checked p true pk (pk_bytes p))
        base_form ← expand_base_form sh p fuel key.public_seed p.n
        signature ← lift (decode_signature_checked p true sig (sig_bytes p))
        challenges ← parse_hash sh p fuel signature.digest (digest_bytes p) p.r
        if not (challenges_valid p challenges)
            then failed
            else verify_rounds base_form key.nonbase_forms signature.responses signature.base_seeds
                signature.salt (deref m) message_len challenges)

  -- The message, whose length is *mlen. On failure *mlen is 0. `no_output` says whether m or mlen is
  -- NULL.
  unfoldable pub crypto_sign_open : Bool → Ptr → ℕ → Ptr → Run (List ℕ)
  crypto_sign_open no_output sm smlen pk =
      if no_output || (is_null sm || is_null pk)
      then failed
      else if ltb smlen (sig_bytes p)
      then failed
      else (do
        message_len ← lift (message_len_to_size (smlen - sig_bytes p))
        let message = drop (sig_bytes p) (deref sm)
        _ ← crypto_sign_verify sm (sig_bytes p) (some message) message_len pk
        done (take message_len message))
