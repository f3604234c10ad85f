-- ===== src/Legacy.antt =====
-- util.c: the functions that the signature scheme of meds.c does not call. `pi` and `phi` are the
-- older form of triform_action_pullback.
pub mod Solve
pub mod Phi
use meds2end.Base.{ℕ, zero, suc, ◌+◌, ◌-◌, ◌*◌, for_up}
use meds2end.Base.{List, [], ◌∷◌, ◌++◌, at, set, ltb, ◌==◌, if◌then◌else◌, replicate}
use meds2end.Base.Run.{Run, done, failed, running, ◌>>=◌, lift, for_run}
use meds2end.Base.Slices.{slice, write_at}
use meds2end.Xof.{Shake, XofState, xof_squeeze}
use meds2end.Sampling.{seeded_xof, rnd_gf_array}
use meds2end.Matrix.{mat_mul, mat_mul_rect}

module _ (sh : Shake) where
  -- XOF: the contents of the buffers, in order; `lengths` is the argument `length`.
  unfoldable pub xof_buffers : List ℕ → List ℕ → ℕ → Run (List (List ℕ))
  xof_buffers lengths seed num = do
    xof ← seeded_xof sh seed
    (bufs, xof') ←
        for_run num
          (λ i (bufs, x). do
            (buf, x') ← lift (xof_squeeze sh x (at lengths i))
            done (bufs ++ (buf ∷ []), x'))
          ([], xof)
    done bufs

  -- The argument `m` is the content of M before the call.
  unfoldable pub rnd_sys_mat : ℕ → List ℕ → ℕ → ℕ → List ℕ → Run (List ℕ)
  rnd_sys_mat fuel m m_r m_c seed = if ltb m_c m_r then failed else do
    xof ← seeded_xof sh seed
    (sampled, xof') ← for_run m_r (λ r. rnd_gf_array sh fuel (r * m_c + m_r) (m_c - m_r)) (m, xof)
    done (
        for_up m_r (λ r. for_up m_r (λ c b. set b (r * m_c + c) (if r == c then 1 else 0))) sampled)

-- The pointers of G_mat_init: submatrix i starts here.
unfoldable pub sub_offset : ℕ → ℕ → ℕ
sub_offset n i = i * n * n

unfoldable pub pi : List ℕ → List ℕ → List ℕ → List ℕ → ℕ → List ℕ
pi gout a b g n =
    for_up n
      (λ i t.
        write_at t (sub_offset n i) (mat_mul (mat_mul a (slice g (sub_offset n i) (n * n)) n) b n))
      gout

unfoldable pub phi : List ℕ → List ℕ → List ℕ → List ℕ → List ℕ → ℕ → List ℕ
phi gout a b c g n =
    let tmp = pi (replicate (n * n * n) 0) a b g n in mat_mul_rect gout n (n * n) c n tmp (n * n)
