-- ===== src/Canon.antt =====
-- canonical.c: the canonical form of a trilinear form at a projective point. The pointers are
-- those of existing arrays, so that the tests for NULL pass; the flag `alloc` says that malloc
-- succeeded.
pub mod Anchors
pub mod Scaling
pub mod Ones
pub mod Unique
pub mod Normal
pub mod Apply
pub mod Rescaled
pub mod Transfer
pub mod Invariant
use meds2end.Base.{ℕ, zero, suc, ◌+◌, ◌-◌, ◌*◌, ◌>>=◌, for_up, for_up?}
use meds2end.Base.{Bool, true, false, not, ◌&&◌, Option, none, some, List}
use meds2end.Base.{leb, ◌==◌, if◌then◌else◌, at, set, replicate, take, drop}
use meds2end.Base.Slices.{write_at}
use meds2end.Field.{gf_mul, gf_batch_inv}
use meds2end.Matrix.{mat_zero, mat_set_col, mat_diag_scale}
use meds2end.Elim.{
  mat_left_kernel_corank1, mat_right_kernel_corank1, vec_extends_independent_set, mat_is_invertible,
}
use meds2end.Triform.{
  triform_slice, triform_phi_u, triform_phi_v, triform_matrix_at_w, triform_action_pullback,
  triform_slice_size, triform_element_count,
}

-- The kernels of triform.c at one point.
unfoldable pub phi_u_lker : List ℕ → List ℕ → ℕ → Option (List ℕ)
phi_u_lker form u n = mat_left_kernel_corank1 (triform_phi_u (mat_zero n) form u n) n

unfoldable pub phi_v_rker : List ℕ → List ℕ → ℕ → Option (List ℕ)
phi_v_rker form v n = mat_right_kernel_corank1 (triform_phi_v (mat_zero n) form v n) n

unfoldable pub matrix_at_w_lker : List ℕ → List ℕ → ℕ → Option (List ℕ)
matrix_at_w_lker form w n = mat_left_kernel_corank1 (triform_matrix_at_w form w n) n

-- `for (i < n) if (v[i] != 0) return 1; return 0;` over the `left` elements from i on.
unfoldable pub nonzero_from : List ℕ → ℕ → ℕ → Bool
nonzero_from v zero i = false
nonzero_from v (suc left) i =
    let rest = nonzero_from v left (i + 1) in if at v i == 0 then rest else true

unfoldable pub vector_is_nonzero : List ℕ → ℕ → Bool
vector_is_nonzero v n = nonzero_from v n 0

unfoldable pub vector_list_append : List ℕ → ℕ → List ℕ → ℕ → List ℕ
vector_list_append list index v n = write_at list (index * n) (take n v)

unfoldable pub vector_list_to_matrix : List ℕ → ℕ → List ℕ
vector_list_to_matrix list n =
    for_up n (λ col a. mat_set_col a col (drop (col * n) list) n) (mat_zero n)

-- The round of the loop for index = 2 + k, which writes three anchors.
unfoldable pub anchor_round : List ℕ → ℕ → ℕ → List ℕ → List ℕ
anchor_round transformed n k anchors =
    let index = 2 + k in
    let m1 = triform_slice transformed 0 n in
    let s1 = set anchors k (at m1 (index * n + 1)) in
    let s2 = set s1 (n - 2 + k) (at m1 index) in
    set s2 (2 * (n - 2) + k) (at (triform_slice transformed index n) 1)

unfoldable pub collect_normalization_anchors : List ℕ → ℕ → List ℕ
collect_normalization_anchors transformed n =
    let d_off = 3 * (n - 2) in
    let m1 = triform_slice transformed 0 n in
    let m2 = triform_slice transformed 1 n in
    let m5 = triform_slice transformed 4 n in
    let s = for_up (n - 2) (anchor_round transformed n) (replicate (3 * n - 2) 0) in
    let s0 = set s d_off (at m1 1) in
    let s1 = set s0 (d_off + 1) (at m5 (n + 2)) in
    let s2 = set s1 (d_off + 2) (at m2 2) in set s2 (d_off + 3) (at m2 n)

-- The three diagonals f, g and h.
pub record Diagonals : Type 0 where
  pub f : List ℕ
  pub g : List ℕ
  pub h : List ℕ

-- The round for index = 2 + k.
unfoldable pub diagonal_round : List ℕ → ℕ → ℕ → ℕ → Diagonals → Diagonals
diagonal_round inverses d1 n k s =
    let index = 2 + k in
    record {
      f = set s.f index (gf_mul d1 (at inverses k));
      g = set s.g index (gf_mul d1 (at inverses (n - 2 + k)));
      h = set s.h index (at inverses (2 * (n - 2) + k));
    }

-- The elements with index 0 and 1, from the anchors and their inverses.
unfoldable pub finish_diagonals : List ℕ → List ℕ → ℕ → Diagonals → Diagonals
finish_diagonals anchors inverses n s =
    let d_off = 3 * (n - 2) in
    let d2 = at anchors (d_off + 1) in
    let d3 = at anchors (d_off + 2) in
    let inv_d1 = at inverses d_off in
    let inv_d2 = at inverses (d_off + 1) in
    let inv_d3 = at inverses (d_off + 2) in
    let inv_d4 = at inverses (d_off + 3) in
    let b3 = at anchors (n - 2) in
    let c5 = at anchors (2 * (n - 2) + 2) in
    let f1 = gf_mul (gf_mul (gf_mul b3 c5) inv_d1) inv_d2 in
    let h1 = gf_mul (gf_mul b3 inv_d1) inv_d3 in
    let inv_f2 = gf_mul (gf_mul (at s.g 2) (at s.h 4)) d2 in
    let inv_h2 = gf_mul (at s.g 2) d3 in
    let g0 = gf_mul (gf_mul inv_f2 inv_h2) inv_d4 in
    record { f = set s.f 1 f1; g = set s.g 0 g0; h = set s.h 1 h1 }

unfoldable pub compute_normalization_diagonals : List ℕ → ℕ → Option Diagonals
compute_normalization_diagonals transformed n = do
  let anchors = collect_normalization_anchors transformed n
  inverses ← gf_batch_inv (replicate (3 * n - 2) 0) anchors (3 * n - 2)
  let d_off = 3 * (n - 2)
  let start : Diagonals = record {
    f = set (replicate n 0) 0 1;
    g = set (replicate n 0) 1 1;
    h = set (replicate n 0) 0 (at inverses d_off);
  }
  let middle = for_up (n - 2) (diagonal_round inverses (at anchors d_off) n) start
  some (finish_diagonals anchors inverses n middle)

unfoldable pub apply_normalization : List ℕ → List ℕ → Diagonals → ℕ → List ℕ
apply_normalization out transformed d n =
    for_up n
      (λ s dst.
        let scaled = mat_diag_scale d.f (triform_slice transformed s n) d.g n in
        for_up (triform_slice_size n)
          (λ pos t. set t (s * triform_slice_size n + pos) (gf_mul (at d.h s) (at scaled pos))) dst)
      out

-- LU, LV and LW with their counts, and `current_v`.
pub record Path3 : Type 0 where
  pub lu : List ℕ
  pub lv : List ℕ
  pub lw : List ℕ
  pub u_count : ℕ
  pub v_count : ℕ
  pub w_count : ℕ
  pub current_v : List ℕ

-- The second half of a round, which the last round leaves by `break`.
unfoldable pub next_u_step : List ℕ → ℕ → List ℕ → Path3 → Option Path3
next_u_step form n current_w s = do
  next_u ← matrix_at_w_lker form current_w n
  next_v ← phi_u_lker form next_u n
  if vec_extends_independent_set next_u s.lu s.u_count n
      then some (record s {
        lu = vector_list_append s.lu s.u_count next_u n;
        u_count = s.u_count + 1;
        current_v = take n next_v;
      })
      else none

-- Round i of the loop that extends the three bases.
unfoldable pub uvw_round : List ℕ → ℕ → ℕ → Path3 → Option Path3
uvw_round form n i s =
    if not (vec_extends_independent_set s.current_v s.lv s.v_count n) then none else do
      let s1 = record s {
        lv = vector_list_append s.lv s.v_count s.current_v n;
        v_count = s.v_count + 1;
      }
      current_w ← phi_v_rker form s1.current_v n
      if not (vec_extends_independent_set current_w s1.lw s1.w_count n)
          then none
          else (let s2 = record s1 {
            lw = vector_list_append s1.lw s1.w_count current_w n;
            w_count = s1.w_count + 1;
          } in
              if i == n - 1 then some s2 else next_u_step form n current_w s2)

-- U, V and W.
pub record Bases : Type 0 where
  pub u : List ℕ
  pub v : List ℕ
  pub w : List ℕ

-- The tests and conversions behind the loop.
unfoldable pub finish_bases : ℕ → Path3 → Option Bases
finish_bases n s =
    if not (s.u_count == n && (s.v_count == n && s.w_count == n))
    then none
    else if not (mat_is_invertible (vector_list_to_matrix s.lu n) n)
    then none
    else if not (mat_is_invertible (vector_list_to_matrix s.lv n) n)
    then none
    else if not (mat_is_invertible (vector_list_to_matrix s.lw n) n)
    then none
    else some (record {
      u = vector_list_to_matrix s.lu n;
      v = vector_list_to_matrix s.lv n;
      w = vector_list_to_matrix s.lw n;
    })

-- The argument `max_n` is TRINE_n.
unfoldable pub canonical_build_uvw : ℕ → List ℕ → List ℕ → ℕ → Option Bases
canonical_build_uvw max_n form u1 n =
    if not (leb 1 n && leb n max_n) then none else if not (vector_is_nonzero u1 n) then none else do
      let blank = replicate (n * n) 0
      current_v ← phi_u_lker form u1 n
      let start : Path3 = record {
        lu = vector_list_append blank 0 u1 n;
        lv = blank;
        lw = blank;
        u_count = 1;
        v_count = 0;
        w_count = 0;
        current_v = current_v;
      }
      s ← for_up? n (uvw_round form n) start
      finish_bases n s

-- The new content of `out`.
unfoldable pub canonical_diagonal_normalize :
    Bool → ℕ → List ℕ → List ℕ → Bases → ℕ → Option (List ℕ)
canonical_diagonal_normalize alloc max_n out form bases n =
    if not (leb 5 n && leb n max_n) then none else if not alloc then none else do
      let transformed =
          triform_action_pullback (replicate (triform_element_count n) 0) form bases.u bases.v
            bases.w n
      d ← compute_normalization_diagonals transformed n
      some (apply_normalization out transformed d n)

unfoldable pub canonical_form : Bool → ℕ → List ℕ → List ℕ → List ℕ → ℕ → Option (List ℕ)
canonical_form alloc max_n out form u1 n = if not (leb 5 n && leb n max_n) then none else do
  bases ← canonical_build_uvw max_n form u1 n
  canonical_diagonal_normalize alloc max_n out form bases n
