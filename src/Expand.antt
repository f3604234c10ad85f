-- ===== src/Expand.antt =====
-- trine_expand.c and corank1.c: seeds and matrices from domain-separated outputs, and the sampling of
-- points of corank one. An output that is NULL is not asked for here; Expand/Memory has the tests of
-- the pointers to the outputs.
pub mod Pairs
pub mod Memory
use meds2end.Base.{ℕ, zero, suc, ◌-◌, ◌/◌, ◌%◌, ◌^◌}
use meds2end.Base.{Bool, not, ◌||◌, List, [], ◌∷◌}
use meds2end.Base.{ltb, leb, ◌==◌, if◌then◌else◌, replicate}
use meds2end.Base.Run.{Run, done, failed, running, ◌>>=◌, lift}
use meds2end.Params.{Params, public_seed_bytes, secret_seed_bytes}
use meds2end.Xof.{Shake, XofState, xof_init, xof_absorb, xof_finalize, xof_squeeze}
use meds2end.Elim.{mat_inv_vartime, mat_rank}
use meds2end.Matrix.{mat_zero}
use meds2end.Sampling.{rnd_gf_array, rnd_inv_matrix}
use meds2end.Triform.{triform_element_count, triform_phi_u}
use meds2end.Canon.{vector_is_nonzero}

-- "MEDS2END-TRINE-EXPAND-v1" in ASCII, without the final zero.
abbrev pub expand_prefix : List ℕ
expand_prefix =
    77 ∷ 69 ∷ 68 ∷ 83 ∷ 50 ∷ 69 ∷ 78 ∷ 68 ∷ 45 ∷ 84 ∷ 82 ∷ 73 ∷ 78 ∷ 69 ∷ 45 ∷ 69 ∷ 88 ∷ 80 ∷ 65
    ∷ 78 ∷ 68 ∷ 45 ∷ 118 ∷ 49 ∷ []

-- trine_matrix_role_t; a C value outside the enumeration is not modelled.
pub data Role : Type 0 where
  matrix_a matrix_b matrix_c : Role

abbrev pub purpose_public_seed : ℕ
purpose_public_seed = 1

abbrev pub purpose_base_form : ℕ
purpose_base_form = 2

unfoldable pub role_to_purpose : Role → ℕ
role_to_purpose Role.matrix_a = 3
role_to_purpose Role.matrix_b = 4
role_to_purpose Role.matrix_c = 5

unfoldable pub store_u32_le : ℕ → List ℕ
store_u32_le value =
    value % 256 ∷ value / 2 ^ 8 % 256 ∷ value / 2 ^ 16 % 256 ∷ value / 2 ^ 24 % 256 ∷ []

module _ (sh : Shake) where
  unfoldable pub init_domain_xof : ℕ → ℕ → List ℕ → Run (XofState sh)
  init_domain_xof purpose index seed = do
    s1 ← lift (xof_absorb sh (xof_init sh) expand_prefix)
    s2 ← lift (xof_absorb sh s1 (purpose ∷ []))
    s3 ← lift (xof_absorb sh s2 (store_u32_le index))
    s4 ← lift (xof_absorb sh s3 seed)
    lift (xof_finalize sh s4)

  unfoldable pub expand_public_seed : Params → List ℕ → Run (List ℕ)
  expand_public_seed p secret_seed = do
    xof ← init_domain_xof purpose_public_seed 0 secret_seed
    (tmp, xof') ← lift (xof_squeeze sh xof (public_seed_bytes p))
    done tmp

  unfoldable pub expand_base_form : Params → ℕ → List ℕ → ℕ → Run (List ℕ)
  expand_base_form p fuel public_seed n = if ltb n 1 || ltb p.n n then failed else do
    xof ← init_domain_xof purpose_base_form 0 public_seed
    (form, xof') ←
        rnd_gf_array sh fuel 0 (triform_element_count n)
          (replicate (triform_element_count n) 0, xof)
    done form

  -- The matrix and, where the caller wants it, the inverse: `want_inverse` is out_inverse != NULL.
  unfoldable pub expand_secret_matrix_pair :
      Params → ℕ → Bool → List ℕ → Role → ℕ → ℕ → Run (List ℕ × List ℕ)
  expand_secret_matrix_pair p fuel want_inverse secret_seed role index n =
      if (ltb n 1 || ltb p.n n) || leb p.x index then failed else do
        xof ← init_domain_xof (role_to_purpose role) index secret_seed
        (matrix_seed, xof') ← lift (xof_squeeze sh xof (secret_seed_bytes p))
        matrix ← rnd_inv_matrix sh fuel (mat_zero n) n n matrix_seed
        inverse ← if want_inverse then lift (mat_inv_vartime matrix n) else done (mat_zero n)
        done (matrix, inverse)

  -- The endless loop of corank1_cal_vartime, over the candidates.
  unfoldable pub corank1_loop : ℕ → ℕ → List ℕ → ℕ → XofState sh → Run (List ℕ × XofState sh)
  corank1_loop zero fuel form n xof = running
  corank1_loop (suc rounds) fuel form n xof = do
    (candidate, xof') ← rnd_gf_array sh fuel 0 n (replicate n 0, xof)
    let rest = corank1_loop rounds fuel form n xof'
    if not (vector_is_nonzero candidate n)
        then rest
        else if mat_rank (triform_phi_u (mat_zero n) form candidate n) n == n - 1
        then done (candidate, xof')
        else rest

  unfoldable pub corank1_cal : Params → ℕ → List ℕ → XofState sh → ℕ → Run (List ℕ × XofState sh)
  corank1_cal p fuel form xof n =
      if ltb n 1 || ltb p.n n then failed else corank1_loop fuel fuel form n xof
