-- ===== src/Codec/Keys.antt =====
-- trine_codec.c: public keys, secret keys and signatures.
pub mod Layout
use meds2end.Base.{ℕ, zero, suc, ◌+◌, ◌-◌, ◌*◌, ◌>>=◌, for_up, for_up?}
use meds2end.Base.{Bool, true, false, not, ◌&&◌, ◌||◌, Option, none, some, List, [], ◌∷◌}
use meds2end.Base.{ltb, leb, ◌==◌, if◌then◌else◌, length, at, set, replicate, take}
use meds2end.Base.Slices.{slice, write_at}
use meds2end.Params.{
  Params, public_seed_bytes, triform_bytes, pk_bytes, sk_bytes, response_bytes, base_seed_bytes,
  base_seed_offset, digest_offset, digest_bytes, salt_offset, salt_bytes, sig_bytes,
}
use meds2end.Codec.{
  Ptr, is_null, deref, triform_element_count_local, validate_fq_array, encode_fq_array,
  decode_fq_array_checked, encode_triform, decode_triform_checked,
}

-- What a decoded public key consists of.
pub record PublicKey : Type 0 where
  pub public_seed : List ℕ
  pub nonbase_forms : List ℕ

pub record Signature : Type 0 where
  pub responses : List ℕ
  pub base_seeds : List ℕ
  pub digest : List ℕ
  pub salt : List ℕ

module _ (p : Params) where
  unfoldable pub encode_public_key_form : List ℕ → ℕ → List ℕ → Option (List ℕ)
  encode_public_key_form nonbase_forms form out =
      let elements = triform_element_count_local p.n in
      do
        bytes ←
            encode_triform p true (triform_bytes p)
              (some (slice nonbase_forms (form * elements) elements)) p.n
        some (write_at out (public_seed_bytes p + form * triform_bytes p) bytes)

  -- The array `old` is the content of out_pk before the call.
  unfoldable pub encode_public_key : List ℕ → ℕ → Ptr → Ptr → Option (List ℕ)
  encode_public_key old out_len public_seed nonbase_forms =
      if not (out_len == pk_bytes p)
      then none
      else if is_null public_seed || is_null nonbase_forms
      then none
      else do
        _ ← validate_fq_array (deref nonbase_forms) (p.x * triform_element_count_local p.n)
        let start = write_at old 0 (take (public_seed_bytes p) (deref public_seed))
        for_up? p.x (encode_public_key_form (deref nonbase_forms)) start

  unfoldable pub decode_public_key_form : Bool → List ℕ → ℕ → List ℕ → Option (List ℕ)
  decode_public_key_form alloc pk form forms_tmp =
      let elements = triform_element_count_local p.n in
      do
        values ←
            decode_triform_checked p alloc true
              (some (slice pk (public_seed_bytes p + form * triform_bytes p) (triform_bytes p)))
              (triform_bytes p) p.n
        some (write_at forms_tmp (form * elements) values)

  unfoldable pub decode_public_key_checked : Bool → Ptr → ℕ → Option PublicKey
  decode_public_key_checked alloc pk pk_len =
      if not (pk_len == pk_bytes p)
      then none
      else if is_null pk
      then none
      else if not alloc
      then none
      else do
        forms ←
            for_up? p.x (decode_public_key_form alloc (deref pk))
              (replicate (p.x * triform_element_count_local p.n) 0)
        some (record {
          public_seed = slice (deref pk) 0 (public_seed_bytes p);
          nonbase_forms = forms;
        })

  unfoldable pub encode_secret_key : ℕ → Ptr → Option (List ℕ)
  encode_secret_key out_len secret_seed =
      if not (out_len == sk_bytes p)
      then none
      else if is_null secret_seed
      then none
      else some (take (sk_bytes p) (deref secret_seed))

  unfoldable pub decode_secret_key : Ptr → ℕ → Option (List ℕ)
  decode_secret_key sk sk_len =
      if not (sk_len == sk_bytes p)
      then none
      else if is_null sk
      then none
      else some (take (sk_bytes p) (deref sk))

  -- The array `old` is the content of out_sig before the call.
  unfoldable pub encode_signature : List ℕ → ℕ → Ptr → Ptr → Ptr → Ptr → Option (List ℕ)
  encode_signature old out_len responses base_seeds digest salt =
      if not (out_len == sig_bytes p)
      then none
      else if (is_null responses || is_null base_seeds) || (is_null digest || is_null salt)
      then none
      else do
        bytes ← encode_fq_array true (response_bytes p) responses (p.k * p.n)
        let s0 = write_at old 0 bytes
        let s1 = write_at s0 (base_seed_offset p) (take (base_seed_bytes p) (deref base_seeds))
        let s2 = write_at s1 (digest_offset p) (take (digest_bytes p) (deref digest))
        some (write_at s2 (salt_offset p) (take (salt_bytes p) (deref salt)))

  unfoldable pub decode_signature_checked : Bool → Ptr → ℕ → Option Signature
  decode_signature_checked alloc sig sig_len =
      if not (sig_len == sig_bytes p)
      then none
      else if is_null sig
      then none
      else if not alloc
      then none
      else do
        responses ←
            decode_fq_array_checked alloc true (p.k * p.n)
              (some (slice (deref sig) 0 (response_bytes p))) (response_bytes p)
        some (record {
          responses = responses;
          base_seeds = slice (deref sig) (base_seed_offset p) (base_seed_bytes p);
          digest = slice (deref sig) (digest_offset p) (digest_bytes p);
          salt = slice (deref sig) (salt_offset p) (salt_bytes p);
        })
