-- ===== src/Sampling.antt =====
-- util.c: rejection sampling from the extendable output.
pub mod Accepted
use meds2end.Base.{ℕ, zero, suc, ◌+◌, ◌-◌, ◌*◌, ◌/◌, ◌%◌, ◌^◌, bit_and, bit_or, for_up}
use meds2end.Base.{not, ◌||◌, List}
use meds2end.Base.{ltb, leb, ◌==◌, if◌then◌else◌, at, set, replicate}
use meds2end.Base.Run.{Run, done, failed, running, ◌>>=◌, lift, for_run}
use meds2end.Params.{Params, trine_q, trine_q_bits, ceil_div, digest_bytes}
use meds2end.Xof.{Shake, XofState, xof_init, xof_absorb, xof_finalize, xof_squeeze}
use meds2end.Elim.{mat_is_invertible}

-- `for (i < count) value |= data[i] << (i * 8)`.
unfoldable pub load_le : List ℕ → ℕ → ℕ
load_le bytes count = for_up count (λ i value. bit_or value (at bytes i * 2 ^ (i * 8))) 0

-- bit_length_u32: the loop of the bits behind the first, on a fuel of 32.
unfoldable pub bit_length_from : ℕ → ℕ → ℕ → ℕ
bit_length_from zero bits value = bits
bit_length_from (suc fuel) bits value =
    let rest = bit_length_from fuel (bits + 1) (value / 2) in if value == 0 then bits else rest

unfoldable pub bit_length_u32 : ℕ → ℕ
bit_length_u32 value = bit_length_from 32 1 (value / 2)

module _ (sh : Shake) where
  -- xof_init, one absorb and xof_finalize, as the functions of util.c begin.
  unfoldable pub seeded_xof : List ℕ → Run (XofState sh)
  seeded_xof seed = do s ← lift (xof_absorb sh (xof_init sh) seed); lift (xof_finalize sh s)

  -- One candidate of rnd_GF.
  unfoldable pub gf_candidate : List ℕ → ℕ
  gf_candidate bytes = bit_and (load_le bytes 2 % 2 ^ 16) (2 ^ trine_q_bits - 1)

  unfoldable pub rnd_gf : ℕ → XofState sh → Run (ℕ × XofState sh)
  rnd_gf zero xof = running
  rnd_gf (suc fuel) xof = do
    (bytes, xof') ← lift (xof_squeeze sh xof 2)
    let val = gf_candidate bytes
    let rest = rnd_gf fuel xof'
    if leb trine_q val then rest else done (val, xof')

  -- `for (i < count) rnd_GF(&out[offset + i], xof)`.
  unfoldable pub rnd_gf_array : ℕ → ℕ → ℕ → List ℕ × XofState sh → Run (List ℕ × XofState sh)
  rnd_gf_array fuel offset count =
      for_run count
        λ i (out, xof). do (val, xof') ← rnd_gf fuel xof; done (set out (offset + i) val, xof')

  -- The loop of rnd_inv_matrix: whole matrices until one is invertible.
  unfoldable pub rnd_inv_loop : ℕ → ℕ → List ℕ → ℕ → XofState sh → Run (List ℕ)
  rnd_inv_loop zero fuel m n xof = running
  rnd_inv_loop (suc rounds) fuel m n xof = do
    (m', xof') ← for_run n (λ r. rnd_gf_array fuel (r * n) n) (m, xof)
    let rest = rnd_inv_loop rounds fuel m' n xof'
    if mat_is_invertible m' n then done m' else rest

  unfoldable pub rnd_inv_matrix : ℕ → List ℕ → ℕ → ℕ → List ℕ → Run (List ℕ)
  rnd_inv_matrix fuel m m_r m_c seed =
      if not (m_r == m_c) || ltb m_r 1
      then failed
      else do xof ← seeded_xof seed; rnd_inv_loop fuel fuel m m_r xof

  unfoldable pub sample_masked_le : XofState sh → ℕ → Run (ℕ × XofState sh)
  sample_masked_le xof bit_count = if bit_count == 0 || ltb 32 bit_count then failed else do
    let byte_count = ceil_div bit_count 8
    (buf, xof') ← lift (xof_squeeze sh xof byte_count)
    let value = load_le buf byte_count % 2 ^ 32
    done ((if ltb bit_count 32 then bit_and value (2 ^ bit_count - 1) else value), xof')

  -- `do sample while (position >= r || raw[position] != 0)`.
  unfoldable pub sample_position : ℕ → ℕ → ℕ → List ℕ → XofState sh → Run (ℕ × XofState sh)
  sample_position zero r bits raw xof = running
  sample_position (suc fuel) r bits raw xof = do
    (position, xof') ← sample_masked_le xof bits
    let rest = sample_position fuel r bits raw xof'
    if leb r position || not (at raw position == 0) then rest else done (position, xof')

  -- `do sample while (value == 0 || value > x)`.
  unfoldable pub sample_value : ℕ → ℕ → ℕ → XofState sh → Run (ℕ × XofState sh)
  sample_value zero x bits xof = running
  sample_value (suc fuel) x bits xof = do
    (value, xof') ← sample_masked_le xof bits
    let rest = sample_value fuel x bits xof'
    if value == 0 || ltb x value then rest else done (value, xof')

  -- One selected position of trine_parse_hash.
  unfoldable pub select_round : Params → ℕ → ℕ → List ℕ × XofState sh → Run (List ℕ × XofState sh)
  select_round p fuel selected (raw, xof) = do
    (position, xof1) ← sample_position fuel p.r (bit_length_u32 (p.r - 1)) raw xof
    (value, xof2) ← sample_value fuel p.x (bit_length_u32 p.x) xof1
    done (set raw position (value % 2 ^ 16), xof2)

  -- trine_parse_hash: the challenges, for a digest of `digest_len` bytes.
  unfoldable pub parse_hash : Params → ℕ → List ℕ → ℕ → ℕ → Run (List ℕ)
  parse_hash p fuel digest digest_len out_len =
      if not (digest_len == digest_bytes p) || not (out_len == p.r) then failed else do
        xof ← seeded_xof digest
        (raw, xof') ← for_run p.k (select_round p fuel) (replicate p.r 0, xof)
        done (
            for_up p.r (λ i parsed. set parsed i ((p.x + 2 ^ 16 - at raw i) % 2 ^ 16))
              (replicate p.r 0))
