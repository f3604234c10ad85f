-- ===== src/Sign/Parsing.antt =====
-- trine_parse_hash gives challenges that pass the test of crypto_sign and crypto_sign_verify.
use native.Mathlib.Decide.{ℕ_discrete}
use meds2end.Base.{
  ℕ, zero, suc, ◌+◌, ◌-◌, ◌%◌, ◌^◌, ◌≤◌, ◌<◌, ◌≡◌, ◌≢◌, refl, ◌∙◌, arith, List, set, at,
}
use meds2end.Base.{Bool, true, false, not, ◌||◌, ltb, leb, ◌==◌, inl, inr, Bool-cases}
use meds2end.Base.{
  length, length-set, length-replicate, replicate, get_or-replicate, at-set, for_up, for_up_inv,
}
use meds2end.Base.{eq→==, ne→==}
use meds2end.Base.Run.{done, for_run_inv, >>=-eq-done}
use meds2end.Params.{Params, digest_bytes}
use meds2end.Xof.{Shake, XofState}
use meds2end.Sampling.{
  sample_masked_le, sample_position, sample_value, select_round, parse_hash, bit_length_u32,
  seeded_xof,
}
use meds2end.Sign.{challenges_valid}
use meds2end.Sign.Challenges.{number_of, challenges_valid_lem}

number_of_ext :
    (f g : ℕ → Bool) (n : ℕ) → ((i : ℕ) → i < n → f i ≡ g i) → number_of f n ≡ number_of g n
number_of_ext f g zero h = refl
number_of_ext f g (suc n) h =
    let before = number_of_ext f g n (λ i lt. h i (omega arith)) in
    let last = h n (omega arith) in ground arith

-- One more place passes the test.
number_of_more :
    (f g : ℕ → Bool) (n place : ℕ)
    → place < n
    → f place ≡ false
    → g place ≡ true
    → ((i : ℕ) → i < n → i ≢ place → f i ≡ g i)
    → number_of g n ≡ number_of f n + 1
number_of_more f g zero place lt before after same = elim lt [ ]
number_of_more f g (suc n) place lt before after same = elim (ℕ_discrete place n) [
  | yes here ↦
      let below = number_of_ext f g n (λ i h. same i (omega arith) (omega arith)) in
      let old : f n ≡ false = rw (← here) before in
      let new : g n ≡ true = rw (← here) after in rw (old, new) (omega (arith, below))
  | no other ↦
      let below =
        number_of_more f g n place (omega (arith, other)) before after
          (λ i h ne. same i (omega arith) ne) in
      let last : f n ≡ g n = same n (omega arith) (omega (arith, other)) in
      rw last (ground (arith, below))
]

module _ (sh : Shake) where
  sample_position_lem :
      (fuel r bits : ℕ) (raw : List ℕ) (xof : XofState sh) {out : ℕ × XofState sh}
      → sample_position sh fuel r bits raw xof ≡ done out
      → (out.0 < r) × (at raw out.0 ≡ 0)
  unfolding sample_position
  sample_position_lem zero r bits raw xof e = absurd (cc e)
  sample_position_lem (suc fuel) r bits raw xof {out} e =
      let ((position, xof'), drawn, rest) = >>=-eq-done (sample_masked_le sh xof bits) _ e in
      elim (Bool-cases (leb r position || not (at raw position == 0))) [
        | inl again ↦ sample_position_lem fuel r bits raw xof' (rw again at rest)
        | inr taken ↦
            let same : (position, xof') ≡ out = cc (rw taken at rest) in
            rw (← same) (ground (arith, taken))
      ]

  sample_value_lem :
      (fuel x bits : ℕ) (xof : XofState sh) {out : ℕ × XofState sh}
      → sample_value sh fuel x bits xof ≡ done out
      → (out.0 ≢ 0) × (out.0 ≤ x)
  unfolding sample_value
  sample_value_lem zero x bits xof e = absurd (cc e)
  sample_value_lem (suc fuel) x bits xof {out} e =
      let ((value, xof'), drawn, rest) = >>=-eq-done (sample_masked_le sh xof bits) _ e in
      elim (Bool-cases (value == 0 || ltb x value)) [
        | inl again ↦ sample_value_lem fuel x bits xof' (rw again at rest)
        | inr taken ↦
            let same : (value, xof') ≡ out = cc (rw taken at rest) in
            rw (← same) (ground (arith, taken))
      ]

  -- After k selections, k of the raw numbers are not 0, and none is above x.
  record IsSelected (p : Params) (k : ℕ) (raw : List ℕ) : Type 0 where
    size : length raw ≡ p.r
    bounded : (i : ℕ) → at raw i ≤ p.x
    selected : number_of (λ i. not (at raw i == 0)) p.r ≡ k

  select_round-IsSelected :
      (p : Params) (fuel k : ℕ) (s t : List ℕ × XofState sh)
      → p.x < 2 ^ 16
      → IsSelected p k s.0
      → select_round sh p fuel k s ≡ done t
      → IsSelected p (suc k) t.0
  unfolding select_round
  select_round-IsSelected p fuel k (raw, xof) t hx s e =
      let ((position, xof1), e1, rest1) = >>=-eq-done _ _ e in
      let ((value, xof2), e2, rest2) = >>=-eq-done _ _ rest1 in
      let place = sample_position_lem fuel p.r (bit_length_u32 (p.r - 1)) raw xof e1 in
      let number = sample_value_lem fuel p.x (bit_length_u32 p.x) xof1 e2 in
      let same : (set raw position (value % 2 ^ 16), xof2) ≡ t = cc rest2 in
      let written =
        λ (i : ℕ). at-set raw position i (value % 2 ^ 16) (omega (arith, place, s.size)) in
      rw (← same) (record {
        size = length-set raw position _ ∙ s.size;
        bounded = λ i. rw (written i) (ground (arith, s.bounded i, number));
        selected =
            number_of_more (λ i. not (at raw i == 0))
              (λ i. not (at (set raw position (value % 2 ^ 16)) i == 0)) p.r position place.0
              (ground (arith, place)) (ground (arith, written position, number))
              (λ i h ne. ground (arith, written i, ne))
            ∙ omega (arith, s.selected);
      })

  parsed_lem :
      (p : Params) (raw : List ℕ) (i : ℕ)
      → i < p.r
      → at
          (for_up p.r
            (λ i parsed. set parsed i ((p.x + 2 ^ 16 - at raw i) % 2 ^ 16))
            (replicate p.r 0))
          i
        ≡ (p.x + 2 ^ 16 - at raw i) % 2 ^ 16
  parsed_lem p raw i hi =
      (for_up_inv
          (λ k parsed.
            (length parsed ≡ p.r)
            × ((j : ℕ) → j < k → at parsed j ≡ (p.x + 2 ^ 16 - at raw j) % 2 ^ 16))
          _ p.r (replicate p.r 0) (length-replicate {A = ℕ} p.r 0, λ j lt. elim lt [ ])
          (λ k parsed hk (size, values). (
            length-set parsed _ _ ∙ size,
            λ j hj.
                at-set parsed k j ((p.x + 2 ^ 16 - at raw k) % 2 ^ 16) (omega (arith, size))
                ∙ (elim (ℕ_discrete k j) [
                  | yes here ↦ rw (here, eq→== j j refl) refl
                  | no other ↦ rw (ne→== _ _ other) (values j (omega (arith, other)))
                ]),
          ))).1
        i hi

  -- Every challenge vector that trine_parse_hash returns passes the test of challenge vectors, so that
  -- in crypto_sign this test never fails. The number of forms fits 16 bits.
  pub challenges_valid-parse_hash :
      (p : Params) (fuel digest_len out_len : ℕ) (digest : List ℕ) {challenges : List ℕ}
      → p.x < 2 ^ 16
      → parse_hash sh p fuel digest digest_len out_len ≡ done challenges
      → challenges_valid p challenges ≡ true
  unfolding parse_hash
  challenges_valid-parse_hash p fuel digest_len out_len digest {challenges} hx e =
      elim (Bool-cases (not (digest_len == digest_bytes p) || not (out_len == p.r))) [
        | inl refused ↦ absurd (cc (rw refused at e))
        | inr sizes ↦
            let (xof, seeded, rest) = >>=-eq-done (seeded_xof sh digest) _ (rw sizes at e) in
            let ((raw, xof'), looped, out) = >>=-eq-done _ _ rest in
            let s =
              for_run_inv (λ k u. IsSelected p k u.0) (select_round sh p fuel) p.k _
                (record {
                  size = length-replicate {A = ℕ} p.r 0;
                  bounded = λ i. rw (get_or-replicate {A = ℕ} p.r i 0) (omega arith);
                  selected = none_yet p.r;
                })
                (λ k u v hk h step. select_round-IsSelected p fuel k u v hx h step) looped in
            let same : for_up p.r (λ i parsed. set parsed i ((p.x + 2 ^ 16 - at raw i) % 2 ^ 16))
                  (replicate p.r 0)
                ≡ challenges =
              cc out in
            rw (← same) (
              (challenges_valid_lem p _).1 (record {
                bounded = λ i hi. omega (arith, parsed_lem p raw i hi, s.bounded i);
                nonbase =
                    number_of_ext _ (λ i. not (at raw i == 0)) p.r
                      (λ i hi. ground (arith, parsed_lem p raw i hi, s.bounded i))
                    ∙ s.selected;
              }))
      ]
    where
      none_yet : (n : ℕ) → number_of (λ i. not (at (replicate p.r 0) i == 0)) n ≡ 0
      none_yet zero = refl
      none_yet (suc n) =
          let z : at (replicate p.r 0) n ≡ 0 = get_or-replicate {A = ℕ} p.r n 0 in
          ground (arith, z, none_yet n)
