-- ===== src/Sign/Signing/Answers.antt =====
-- The second loop of crypto_sign: the sizes of its arrays, and the digest.
use meds2end.Base.{ℕ, ◌+◌, ◌*◌, ◌≡◌, ◌∙◌, List, at, set, length}
use meds2end.Base.{some, true, ltb, ◌==◌, Bool-cases, inl, inr}
use meds2end.Base.{length-replicate}
use meds2end.Base.Run.{done, >>=-eq-done}
use meds2end.Base.Slices.{slice, write_at, length-write_at, write_at-lt}
use meds2end.Params.{Params, trine_q, base_seed_bytes, round_seed_bytes}
use meds2end.Expand.{Role, expand_secret_matrix_pair}
use meds2end.Matrix.{mat_vec_mul}
use meds2end.Matrix.Products.{IsReduced, mat_vec_mul-IsReduced, zeros-IsReduced}
use meds2end.Sign.Signing.{Responses, ready_inverse, respond_round, round_seed_of, no_responses}
use meds2end.Xof.{Shake, XofState, hash_finalize}

module _ (sh : Shake) (p : Params) (fuel : ℕ) where
  -- The arrays of the second loop keep their sizes, and the responses are reduced.
  pub record IsAnswering (s : Responses) : Type 0 where
    pub response_size : length s.responses ≡ p.k * p.n
    pub seed_size : length s.base_seeds ≡ base_seed_bytes p
    pub reduced : IsReduced s.responses

  pub none_yet : IsAnswering (no_responses sh p fuel)
  unfolding no_responses
  none_yet = record {
    response_size = length-replicate {A = ℕ} (p.k * p.n) 0;
    seed_size = length-replicate {A = ℕ} (base_seed_bytes p) 0;
    reduced = zeros-IsReduced (p.k * p.n);
  }

  ready_inverse-IsAnswering :
      (secret_seed : List ℕ) (challenge : ℕ) (s t : Responses)
      → IsAnswering s
      → ready_inverse sh p fuel secret_seed challenge s ≡ done t
      → IsAnswering t
  unfolding ready_inverse
  ready_inverse-IsAnswering secret_seed challenge s t h e =
      elim (Bool-cases (at s.inverse_ready challenge == 0)) [
        | inr ready ↦ let same : s ≡ t = cc (rw ready at e) in rw (← same) h
        | inl fresh ↦
            let ((matrix, inverse), found, last) =
              >>=-eq-done
                (expand_secret_matrix_pair sh p fuel true secret_seed Role.matrix_a challenge p.n) _
                (rw fresh at e) in
            let same : record s {
              inverse_cache = write_at s.inverse_cache (challenge * (p.n * p.n)) inverse;
              inverse_ready = set s.inverse_ready challenge 1;
            }
                ≡ t =
              cc last in
            rw (← same) (record {
              response_size = h.response_size;
              seed_size = h.seed_size;
              reduced = h.reduced;
            })
      ]

  pub respond_round-IsAnswering :
      (secret_seed a_all round_seeds challenges : List ℕ) (round : ℕ) (s t : Responses)
      → IsAnswering s
      → respond_round sh p fuel secret_seed a_all round_seeds challenges round s ≡ done t
      → IsAnswering t
  unfolding respond_round
  respond_round-IsAnswering secret_seed a_all round_seeds challenges round s t h e =
      elim (Bool-cases (ltb (at challenges round) p.x)) [
        | inl nonbase ↦
            let (u, ready, last) =
              >>=-eq-done (ready_inverse sh p fuel secret_seed (at challenges round) s) _
                (rw nonbase at e) in
            let k = ready_inverse-IsAnswering secret_seed (at challenges round) s u h ready in
            answered u (at challenges round) k last
        | inr base ↦ elim (Bool-cases (at challenges round == p.x)) [
          | inr invalid ↦ absurd (cc (rw (base, invalid) at e))
          | inl seed ↦
              let same : record s {
                base_seeds =
                    write_at s.base_seeds (s.base_seed_index * round_seed_bytes p)
                      (round_seed_of sh p fuel round_seeds round);
                base_seed_index = s.base_seed_index + 1;
              }
                  ≡ t =
                cc (rw (base, seed) at e) in
              rw (← same) (record {
                response_size = h.response_size;
                seed_size = length-write_at s.base_seeds _ _ ∙ h.seed_size;
                reduced = h.reduced;
              })
        ]
      ]
    where
      answered :
          (u : Responses) (challenge : ℕ)
          → IsAnswering u
          → done (record u {
            responses = write_at u.responses (u.response_index * p.n) (
                mat_vec_mul
                  (slice u.inverse_cache (challenge * (p.n * p.n)) (p.n * p.n))
                  (slice a_all (round * p.n) p.n)
                  p.n);
            response_index = u.response_index + 1;
          })
            ≡ done t
          → IsAnswering t
      answered u challenge k last =
          let same : record u {
            responses = write_at u.responses (u.response_index * p.n) (
                mat_vec_mul (slice u.inverse_cache (challenge * (p.n * p.n)) (p.n * p.n))
                  (slice a_all (round * p.n) p.n) p.n);
            response_index = u.response_index + 1;
          }
              ≡ t =
            cc last in
          rw (← same) (record {
            response_size = length-write_at u.responses _ _ ∙ k.response_size;
            seed_size = k.seed_size;
            reduced =
                write_at-lt trine_q u.responses _ _ k.reduced
                  (mat_vec_mul-IsReduced _ (slice a_all (round * p.n) p.n) p.n);
          })

  pub length-digest :
      (s : XofState sh) (n : ℕ) (digest : List ℕ) (t : XofState sh)
      → hash_finalize sh s n ≡ some (digest, t)
      → length digest ≡ n
  unfolding hash_finalize
  length-digest s n digest t e = elim (Bool-cases s.finalized) [
    | inl closed ↦ absurd (cc (rw closed at e))
    | inr taking ↦
        let same : (sh.squeeze (sh.finalize s.shake) n).0 ≡ digest = cc (rw taking at e) in
        rw (← same) (sh.length-squeeze (sh.finalize s.shake) n)
  ]
