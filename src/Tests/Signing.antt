-- ===== src/Tests/Signing.antt =====
-- meds.c, the codec of signatures and rnd_GF: runs and the theorems at concrete inputs.
use meds2end.Base.{ℕ, ◌+◌, ◌≤◌, ◌<◌, zero, suc, ◌≡◌, refl, arith, ◌≢◌}
use meds2end.Base.{true, false, List, [], ◌∷◌, length, some, replicate, for_up}
use meds2end.Params.{trine_q}
use meds2end.Base.{◌↔◌, ◌++◌, get_or-replicate, length-replicate}
use meds2end.Base.Slices.{replicate-lt}
use meds2end.Base.Run.{done, ◌>>=◌}
use meds2end.Params.{Params, sig_bytes, base_seed_bytes, digest_bytes}
use meds2end.Params.{salt_bytes, base_seed_count}
use meds2end.Codec.Keys.{encode_signature, decode_signature_checked}
use meds2end.Codec.Keys.Layout.{HasSizes, decode-encode_signature}
use meds2end.Xof.{Shake}
use meds2end.Sampling.{gf_candidate, rnd_gf, load_le}
use meds2end.Sampling.Accepted.{squeezing, drawn, candidate, rnd_gf-candidate}
use meds2end.Sign.{challenges_valid, count_challenges}
use meds2end.Sign.Challenges.{IsBalanced, challenges_valid_lem}
use meds2end.Sign.Verifying.{crypto_sign_verify, crypto_sign_open}
use meds2end.Sign.Verifying.Open.{open-append}
use meds2end.Matrix.Products.{IsReduced}

abbrev pub small : List ℕ
small = 5 ∷ 4092 ∷ 7 ∷ []

-- Small parameters: a signature has 9 + 1 + 2 + 2 bytes.
abbrev pub tiny : Params
tiny = record { lambda = 8; n = 3; r = 3; k = 2; x = 1 }

abbrev answers : List ℕ
answers = 1 ∷ 2 ∷ 3 ∷ 4 ∷ 5 ∷ 4092 ∷ []

answers-IsReduced : IsReduced answers
answers-IsReduced = grind arith

answers-HasSizes : HasSizes tiny (replicate 14 0) answers (9 ∷ []) (7 ∷ 8 ∷ []) (5 ∷ 6 ∷ [])
unfolding sig_bytes base_seed_bytes digest_bytes salt_bytes
answers-HasSizes = record {
  buffer = refl;
  response_count = refl;
  base_seed_size = refl;
  digest_size = refl;
  salt_size = refl;
}

decode-encode_signature_example :
    (sig : List ℕ) × (encode_signature tiny
        (replicate 14 0)
        (sig_bytes tiny)
        (some answers)
        (some (9 ∷ []))
        (some (7 ∷ 8 ∷ []))
        (some (5 ∷ 6 ∷ []))
      ≡ some sig)
    × (length sig ≡ sig_bytes tiny)
    × (decode_signature_checked tiny true (some sig) (sig_bytes tiny)
        ≡ some (record {
          responses = answers;
          base_seeds = 9 ∷ [];
          digest = 7 ∷ 8 ∷ [];
          salt = 5 ∷ 6 ∷ [];
        }))
decode-encode_signature_example =
    decode-encode_signature tiny (replicate 14 0) answers (9 ∷ []) (7 ∷ 8 ∷ []) (5 ∷ 6 ∷ [])
      answers-HasSizes (omega arith) (λ i lt. answers-IsReduced i)

-- An output function whose output is all zeros.
abbrev pub zeros : Shake
zeros = record {
  State = ℕ;
  init = 0;
  absorb = λ s input. s + length input;
  finalize = λ s. s;
  squeeze = λ s n. (replicate n 0, s + n);
  length-squeeze = λ s n. length-replicate {A = ℕ} n 0;
  squeeze-byte = λ s n i. rw (get_or-replicate {A = ℕ} n i 0) (omega arith);
}

tiny-size : length (replicate {A = ℕ} 14 0) ≡ sig_bytes tiny
unfolding sig_bytes
tiny-size = refl

open-append_example :
    crypto_sign_open zeros tiny 5 false
      (some (replicate 14 0 ++ small))
      (sig_bytes tiny + 3)
      (some small)
    ≡ (crypto_sign_verify zeros tiny 5
          (some (replicate 14 0))
          (sig_bytes tiny)
          (some small)
          3
          (some small)
        >>= λ _. done small)
open-append_example = open-append zeros tiny 5 (replicate 14 0) small small tiny-size (omega arith)

challenges_valid_lem_example :
    challenges_valid tiny (0 ∷ 1 ∷ 0 ∷ []) ≡ true ↔ IsBalanced tiny (0 ∷ 1 ∷ 0 ∷ [])
challenges_valid_lem_example = challenges_valid_lem tiny (0 ∷ 1 ∷ 0 ∷ [])

challenges_valid_run :
    (challenges_valid tiny (0 ∷ 1 ∷ 0 ∷ []) ≡ true)
    × (challenges_valid tiny (0 ∷ 1 ∷ 1 ∷ []) ≢ true)
unfolding challenges_valid count_challenges base_seed_count
challenges_valid_run = (refl, λ e. cc)

-- An output function whose first two bytes are 255, and whose later bytes are 7.
abbrev pulse : ℕ → ℕ
pulse zero = 255
pulse (suc s) = 7

pulse-lt : (s : ℕ) → pulse s < 256
pulse-lt zero = omega arith
pulse-lt (suc s) = omega arith

abbrev pulses : Shake
pulses = record {
  State = ℕ;
  init = 0;
  absorb = λ s input. s;
  finalize = λ s. s;
  squeeze = λ s n. (replicate n (pulse s), s + n);
  length-squeeze = λ s n. length-replicate {A = ℕ} n (pulse s);
  squeeze-byte = λ s n i. replicate-lt n i (pulse s) (pulse-lt s);
}

first_rejected : (j : ℕ) → j < 1 → trine_q ≤ candidate pulses j 0
unfolding gf_candidate load_le for_up
first_rejected zero h = omega arith
first_rejected (suc j) h = absurd (omega arith)

second_accepted : candidate pulses 1 0 < trine_q
unfolding gf_candidate load_le for_up
second_accepted = omega arith

rnd_gf-candidate_example :
    rnd_gf pulses 2 (squeezing pulses 0)
    ≡ done (candidate pulses 1 0, squeezing pulses (drawn pulses 2 0))
rnd_gf-candidate_example =
    rnd_gf-candidate pulses 2 1 0 (omega arith) second_accepted first_rejected
