-- ===== src/Sign/Signing/Output.antt =====
-- What crypto_sign puts out: a signature that decodes, and the message.
use meds2end.Base.{ℕ, ◌-◌, ◌*◌, ◌^◌, ◌≡◌, refl, sym, List, ◌++◌, take, length}
use meds2end.Base.{
  Bool, ◌||◌, Option, some, none, true, not, ◌&&◌, ltb, ◌==◌, if◌then◌else◌, Bool-cases, inl, inr,
}
use meds2end.Base.{replicate, length-replicate}
use meds2end.Base.Run.{Run, done, failed, ◌>>=◌, lift, for_run, for_run_inv, >>=-eq-done}
use meds2end.Params.{Params, sk_bytes, sig_bytes, salt_bytes, digest_bytes, base_seed_count}
use meds2end.Codec.{Ptr, is_null, deref}
use meds2end.Codec.Arrays.{FitsSize}
use meds2end.Codec.Keys.{Signature, encode_signature, decode_signature_checked, decode_secret_key}
use meds2end.Codec.Keys.Layout.{decode-encode_signature}
use meds2end.Expand.{expand_public_seed, expand_base_form}
use meds2end.Sampling.{parse_hash}
use meds2end.Sign.{message_len_to_size, challenges_valid}
use meds2end.Sign.Signing.{
  Commitments, Responses, commit_round, respond_round, no_responses, make_signature, crypto_sign,
}
use meds2end.Triform.{triform_element_count}
use meds2end.Xof.{Shake, XofState, xof_init, xof_absorb, hash_finalize}
use meds2end.Sign.Signing.Answers.{IsAnswering, none_yet, respond_round-IsAnswering, length-digest}

lift-eq-done : {A : Type 0} (m : Option A) {a : A} → lift m ≡ done a → m ≡ some a
lift-eq-done none e = cc
lift-eq-done (some b) e = cc

module _ (sh : Shake) (p : Params) (fuel : ℕ) where
  abbrev encode_all : Responses → List ℕ → List ℕ → Run (List ℕ)
  encode_all t digest salt =
      if not (t.response_index == p.k && t.base_seed_index == base_seed_count p)
      then failed
      else lift (
          encode_signature p (replicate (sig_bytes p) 0) (sig_bytes p) (some t.responses)
            (some t.base_seeds) (some digest) (some salt))

  -- From the challenges on.
  abbrev answer_all : List ℕ → List ℕ → List ℕ → List ℕ → List ℕ → List ℕ → Run (List ℕ)
  answer_all secret_seed a_all round_seeds challenges digest salt =
      if not (challenges_valid p challenges)
      then failed
      else for_run p.r (respond_round sh p fuel secret_seed a_all round_seeds challenges)
          (no_responses sh p fuel)
        >>= λ t. encode_all t digest salt

  -- The bytes are a signature with this salt.
  IsSignature : List ℕ → List ℕ → Type 0
  IsSignature salt sig =
      (length sig ≡ sig_bytes p)
      × (fields : Signature) × (decode_signature_checked p true (some sig) (sig_bytes p)
          ≡ some fields)
      × (fields.salt ≡ salt)

  module _ (salt : List ℕ) (salted : length salt ≡ salt_bytes p) (fits : FitsSize (p.k * p.n)) where
    encode_all-IsSignature :
        (t : Responses) (digest : List ℕ) {sig : List ℕ}
        → IsAnswering sh p fuel t
        → length digest ≡ digest_bytes p
        → encode_all t digest salt ≡ done sig
        → IsSignature salt sig
    unfolding IsSignature
    encode_all-IsSignature t digest {sig} h size e =
        elim (Bool-cases
          (not (t.response_index == p.k && t.base_seed_index == base_seed_count p))) [
            | inl refused ↦ absurd (cc (rw refused at e))
            | inr counted ↦
                let (written, coded, long, back) =
                  decode-encode_signature p (replicate (sig_bytes p) 0) t.responses t.base_seeds
                    digest salt
                    (record {
                      buffer = length-replicate {A = ℕ} (sig_bytes p) 0;
                      response_count = h.response_size;
                      base_seed_size = h.seed_size;
                      digest_size = size;
                      salt_size = salted;
                    })
                    fits (λ i lt. h.reduced i) in
                let same : written ≡ sig = cc (rw (counted, coded) at e) in
                rw (← same) (long, _, back, refl)
          ]

    answer_all-IsSignature :
        (secret_seed a_all round_seeds challenges digest : List ℕ) {sig : List ℕ}
        → length digest ≡ digest_bytes p
        → answer_all secret_seed a_all round_seeds challenges digest salt ≡ done sig
        → IsSignature salt sig
    answer_all-IsSignature secret_seed a_all round_seeds challenges digest {sig} size e =
        elim (Bool-cases (not (challenges_valid p challenges))) [
          | inl refused ↦ absurd (cc (rw refused at e))
          | inr valid ↦
              let (t, answered, last) =
                >>=-eq-done
                  (for_run p.r (respond_round sh p fuel secret_seed a_all round_seeds challenges)
                    (no_responses sh p fuel))
                  (λ u. encode_all u digest salt) (rw valid at e) in
              let h =
                for_run_inv (λ i u. IsAnswering sh p fuel u)
                  (respond_round sh p fuel secret_seed a_all round_seeds challenges) p.r
                  (no_responses sh p fuel) (none_yet sh p fuel)
                  (λ i u w lt k step.
                    respond_round-IsAnswering sh p fuel secret_seed a_all round_seeds challenges i u
                      w k step)
                  answered in
              encode_all-IsSignature t digest h size last
        ]

    -- From the transcript on.
    abbrev digest_all : List ℕ → List ℕ → List ℕ → XofState sh → Run (List ℕ)
    digest_all secret_seed a_all round_seeds transcript =
        lift (hash_finalize sh transcript (digest_bytes p)) >>= λ d.
        parse_hash sh p fuel d.0 (digest_bytes p) p.r >>= λ challenges.
        answer_all secret_seed a_all round_seeds challenges d.0 salt

    digest_all-IsSignature :
        (secret_seed a_all round_seeds : List ℕ) (transcript : XofState sh) {sig : List ℕ}
        → digest_all secret_seed a_all round_seeds transcript ≡ done sig
        → IsSignature salt sig
    digest_all-IsSignature secret_seed a_all round_seeds transcript {sig} e =
        let ((digest, closed), hashed, rest) =
          >>=-eq-done (lift (hash_finalize sh transcript (digest_bytes p)))
            (λ d. parse_hash sh p fuel d.0 (digest_bytes p) p.r >>= λ challenges.
              answer_all secret_seed a_all round_seeds challenges d.0 salt)
            e in
        let (challenges, parsed, last) =
          >>=-eq-done (parse_hash sh p fuel digest (digest_bytes p) p.r)
            (λ c. answer_all secret_seed a_all round_seeds c digest salt) rest in
        answer_all-IsSignature secret_seed a_all round_seeds challenges digest
          (length-digest sh p fuel transcript (digest_bytes p) digest closed
            (lift-eq-done _ hashed))
          last

    -- From the first loop on.
    abbrev first_state : XofState sh → Commitments sh
    first_state transcript = record {
      a_all = replicate (p.r * p.n) 0;
      psi = replicate (triform_element_count p.n) 0;
      transcript = transcript;
    }

    abbrev commit_all : List ℕ → List ℕ → List ℕ → XofState sh → Run (List ℕ)
    commit_all secret_seed base_form round_seeds transcript =
        for_run p.r (commit_round sh p fuel base_form round_seeds salt) (first_state transcript)
        >>= λ c. digest_all secret_seed c.a_all round_seeds c.transcript

    make_signature-IsSignature :
        (secret_seed m : List ℕ) (message_len : ℕ) (round_seeds : List ℕ) {sig : List ℕ}
        → make_signature sh p fuel secret_seed m message_len (some salt) (some round_seeds)
          ≡ done sig
        → IsSignature salt sig
    unfolding make_signature
    make_signature-IsSignature secret_seed m message_len round_seeds {sig} e =
        let (public_seed, seeded, e1) = >>=-eq-done (expand_public_seed sh p secret_seed) _ e in
        let (base_form, expanded, e2) =
          >>=-eq-done (expand_base_form sh p fuel public_seed p.n) _ e1 in
        let (start, absorbed, e3) =
          >>=-eq-done
            (if message_len == 0
              then done (xof_init sh)
              else lift (xof_absorb sh (xof_init sh) (take message_len m)))
            (commit_all secret_seed base_form round_seeds) e2 in
        let (s, committed, e4) =
          >>=-eq-done
            (for_run p.r (commit_round sh p fuel base_form round_seeds salt) (first_state start))
            (λ c. digest_all secret_seed c.a_all round_seeds c.transcript) e3 in
        digest_all-IsSignature secret_seed s.a_all round_seeds s.transcript e4

-- Where crypto_sign succeeds, its output is a signature of the length TRINE_SIG_BYTES with the message
-- behind it. The checked decoder accepts the signature, and finds in it the salt that was drawn. The
-- salt has the length of the parameter set, whose responses have fewer than 2 ^ 64 bits.
pub crypto_sign-decode_signature :
    (sh : Shake) (p : Params) (fuel : ℕ) (no_output : Bool) (salt round_seeds : List ℕ) (m : Ptr)
    (mlen : ℕ) (sk : Ptr) {sm : List ℕ}
    → length salt ≡ salt_bytes p
    → FitsSize (p.k * p.n)
    → crypto_sign sh p fuel no_output (some salt) (some round_seeds) m mlen sk ≡ done sm
    → (sig : List ℕ) × (fields : Signature) × (sm ≡ sig ++ take mlen (deref m))
      × (length sig ≡ sig_bytes p)
      × (decode_signature_checked p true (some sig) (sig_bytes p) ≡ some fields)
      × (fields.salt ≡ salt)
unfolding crypto_sign message_len_to_size IsSignature
crypto_sign-decode_signature sh p fuel no_output salt round_seeds m mlen sk {sm} salted fits e =
    elim (Bool-cases (no_output || is_null sk)) [
      | inl missing ↦ absurd (cc (rw missing at e))
      | inr given ↦ elim (Bool-cases (is_null m && not (mlen == 0))) [
        | inl refused ↦ absurd (cc (rw (given, refused) at e))
        | inr fine ↦ elim (Bool-cases (ltb (2 ^ 64 - 1) mlen)) [
          | inl large ↦ absurd (cc (rw (given, fine, large) at e))
          | inr small ↦ elim (Bool-cases (ltb (2 ^ 64 - 1 - sig_bytes p) mlen)) [
            | inl overflow ↦ absurd (cc (rw (given, fine, small, overflow) at e))
            | inr room ↦
                let (secret_seed, unpacked, rest) =
                  >>=-eq-done (lift (decode_secret_key p sk (sk_bytes p)))
                    (λ seed.
                      make_signature sh p fuel seed (deref m) mlen (some salt) (some round_seeds)
                      >>= λ sig. signed sig)
                    (rw (given, fine, small, room) at e) in
                let (sig, made, last) =
                  >>=-eq-done
                    (make_signature sh p fuel secret_seed (deref m) mlen (some salt)
                      (some round_seeds))
                    signed rest in
                let (long, fields, decoded, same_salt) =
                  make_signature-IsSignature sh p fuel salt salted fits secret_seed (deref m) mlen
                    round_seeds made in
                let same : sig ++ take mlen (deref m) ≡ sm = cc last in
                (sig, fields, sym same, long, decoded, same_salt)
          ]
        ]
      ]
    ]
  where
    signed : List ℕ → Run (List ℕ)
    signed sig = done (sig ++ take mlen (deref m))
