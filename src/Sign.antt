-- ===== src/Sign.antt =====
-- meds.c: the parts that signing and verification share.
pub mod Challenges
pub mod Parsing
pub mod Keypair
pub mod Signing
pub mod Verifying
use meds2end.Base.{ℕ, zero, suc, ◌+◌, ◌-◌, ◌*◌, ◌/◌, ◌%◌, ◌^◌, for_up}
use meds2end.Base.{Bool, true, false, not, ◌&&◌, ◌||◌, Option, none, some, List, [], ◌∷◌}
use meds2end.Base.{ltb, leb, ◌==◌, if◌then◌else◌, length, at, replicate, take, drop}
use meds2end.Base.Run.{Run, done, failed, running, ◌>>=◌, lift}
use meds2end.Params.{Params, round_seed_bytes, salt_bytes, triform_bytes, base_seed_count}
use meds2end.Xof.{Shake, XofState, xof_init, xof_absorb, xof_finalize}
use meds2end.Codec.{encode_triform}
use meds2end.Expand.{store_u32_le, corank1_cal}
use meds2end.Canon.{canonical_form}
use meds2end.Triform.{triform_element_count}

-- "MEDS2END-TRINE-ROUND-v1" in ASCII, without the final zero.
abbrev pub round_domain : List ℕ
round_domain =
    77 ∷ 69 ∷ 68 ∷ 83 ∷ 50 ∷ 69 ∷ 78 ∷ 68 ∷ 45 ∷ 84 ∷ 82 ∷ 73 ∷ 78 ∷ 69 ∷ 45 ∷ 82 ∷ 79 ∷ 85 ∷ 78
    ∷ 68 ∷ 45 ∷ 118 ∷ 49 ∷ []

-- `size_t` has 64 bits, as `unsigned long long` has.
unfoldable pub message_len_to_size : ℕ → Option ℕ
message_len_to_size value = if ltb (2 ^ 64 - 1) value then none else some value

-- The counts of nonbase and of base challenges; `none` at a value above x.
unfoldable pub count_challenges : Params → List ℕ → ℕ → Option (ℕ × ℕ)
count_challenges p challenges zero = some (0, 0)
count_challenges p challenges (suc i) = elim (count_challenges p challenges i) [
  | none ↦ none
  | some (nonbase, base) ↦
      if ltb (at challenges i) p.x
      then some (nonbase + 1, base)
      else if at challenges i == p.x
      then some (nonbase, base + 1)
      else none
]

unfoldable pub challenges_valid : Params → List ℕ → Bool
challenges_valid p challenges = elim (count_challenges p challenges p.r) [
  | none ↦ false
  | some (nonbase, base) ↦ nonbase == p.k && base == base_seed_count p
]

-- `for (i < r) if (a[i] != b[i]) return 0;` over the first i elements.
unfoldable pub challenges_equal : List ℕ → List ℕ → ℕ → Bool
challenges_equal a b zero = true
challenges_equal a b (suc i) = challenges_equal a b i && at a i == at b i

module _ (sh : Shake) (p : Params) where
  unfoldable pub init_round_xof : List ℕ → List ℕ → ℕ → Run (XofState sh)
  init_round_xof round_seed salt round_index = do
    s1 ← lift (xof_absorb sh (xof_init sh) round_domain)
    s2 ← lift (xof_absorb sh s1 (take (salt_bytes p) salt))
    s3 ← lift (xof_absorb sh s2 (take (round_seed_bytes p) round_seed))
    s4 ← lift (xof_absorb sh s3 (store_u32_le round_index))
    lift (xof_finalize sh s4)

  unfoldable pub absorb_canonical_form : XofState sh → List ℕ → Run (XofState sh)
  absorb_canonical_form transcript psi = do
    encoded ← lift (encode_triform p true (triform_bytes p) (some psi) p.n)
    lift (xof_absorb sh transcript encoded)

  -- The endless loop: points until one has a canonical form. The result is (a, psi).
  unfoldable pub commitment_loop : ℕ → ℕ → List ℕ → List ℕ → XofState sh → Run (List ℕ × List ℕ)
  commitment_loop zero fuel psi base_form xof = running
  commitment_loop (suc rounds) fuel psi base_form xof = do
    (a, xof') ← corank1_cal sh p fuel base_form xof p.n
    let rest = commitment_loop rounds fuel psi base_form xof'
    elim (canonical_form true p.n psi base_form a p.n) [ none ↦ rest | some form ↦ done (a, form) ]

  unfoldable pub derive_round_commitment :
      ℕ → List ℕ → List ℕ → List ℕ → List ℕ → ℕ → Run (List ℕ × List ℕ)
  derive_round_commitment fuel psi base_form round_seed salt round_index = do
    xof ← init_round_xof round_seed salt round_index
    commitment_loop fuel fuel psi base_form xof
