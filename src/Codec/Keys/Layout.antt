-- ===== src/Codec/Keys/Layout.antt =====
-- The layout of a signature: its four fields lie behind one another.
use meds2end.Base.{ℕ, ◌+◌, ◌*◌, ◌<◌, ◌≡◌, refl, sym, ap, ◌∙◌, arith, inl}
use meds2end.Base.{true, some, List, at, length}
use meds2end.Base.{eq→==}
use meds2end.Base.Slices.{
  take_all, slice, write_at, length-write_at, slice-write_at_self, slice-write_at_apart,
}
use meds2end.Params.{
  Params, trine_q, response_bytes, base_seed_bytes, base_seed_offset, digest_offset, digest_bytes,
  salt_offset, salt_bytes, sig_bytes,
}
use meds2end.Codec.{fq_array_bytes, encode_fq_array, decode_fq_array_checked}
use meds2end.Codec.Arrays.{FitsSize, fq_array_bytes_lem}
use meds2end.Codec.RoundTrip.{decode-encode}
use meds2end.Codec.Keys.{encode_signature, decode_signature_checked}

response_bytes_lem :
    (p : Params) → FitsSize (p.k * p.n) → response_bytes p ≡ fq_array_bytes (p.k * p.n)
unfolding response_bytes
response_bytes_lem p fits = omega (arith, fq_array_bytes_lem (p.k * p.n) fits)

-- Four regions written behind one another.
module _ (old a b c d : List ℕ) (la lb lc ld : ℕ) (ea : la ≡ length a) (eb : lb ≡ length b)
    (ec : lc ≡ length c) (ed : ld ≡ length d) (room : length old ≡ la + lb + lc + ld) where
  abbrev s0 : List ℕ
  s0 = write_at old 0 a

  abbrev s1 : List ℕ
  s1 = write_at s0 (0 + la) b

  abbrev s2 : List ℕ
  s2 = write_at s1 (0 + la + lb) c

  abbrev four : List ℕ
  four = write_at s2 (0 + la + lb + lc) d

  length-s0 : length s0 ≡ la + lb + lc + ld
  length-s0 = length-write_at old 0 a ∙ room

  length-s1 : length s1 ≡ la + lb + lc + ld
  length-s1 = length-write_at s0 (0 + la) b ∙ length-s0

  length-s2 : length s2 ≡ la + lb + lc + ld
  length-s2 = length-write_at s1 (0 + la + lb) c ∙ length-s1

  first : slice four 0 la ≡ a
  first =
      slice-write_at_apart s2 _ d 0 la (omega (arith, length-s2)) (omega (arith, length-s2))
        (inl (omega arith))
      ∙ slice-write_at_apart s1 _ c 0 la (omega (arith, length-s1)) (omega (arith, length-s1))
          (inl (omega arith))
      ∙ slice-write_at_apart s0 _ b 0 la (omega (arith, length-s0)) (omega (arith, length-s0))
          (inl (omega arith))
      ∙ slice-write_at_self old 0 a la ea (omega arith)

  second : slice four (0 + la) lb ≡ b
  second =
      slice-write_at_apart s2 _ d (0 + la) lb (omega (arith, length-s2)) (omega (arith, length-s2))
        (inl (omega arith))
      ∙ slice-write_at_apart s1 _ c (0 + la) lb (omega (arith, length-s1))
          (omega (arith, length-s1)) (inl (omega arith))
      ∙ slice-write_at_self s0 (0 + la) b lb eb (omega (arith, length-s0))

  third : slice four (0 + la + lb) lc ≡ c
  third =
      slice-write_at_apart s2 _ d (0 + la + lb) lc (omega (arith, length-s2))
        (omega (arith, length-s2)) (inl (omega arith))
      ∙ slice-write_at_self s1 (0 + la + lb) c lc ec (omega (arith, length-s1))

  fourth : slice four (0 + la + lb + lc) ld ≡ d
  fourth = slice-write_at_self s2 (0 + la + lb + lc) d ld ed (omega (arith, length-s2))

module _ (p : Params) (old responses base_seeds digest salt : List ℕ) where
  -- The parts of a signature, and the buffer for it, have the sizes of the parameter set.
  pub record HasSizes : Type 0 where
    pub buffer : length old ≡ sig_bytes p
    pub response_count : length responses ≡ p.k * p.n
    pub base_seed_size : length base_seeds ≡ base_seed_bytes p
    pub digest_size : length digest ≡ digest_bytes p
    pub salt_size : length salt ≡ salt_bytes p

  -- The signature, once the responses are packed into `bytes`.
  module _ (bytes : List ℕ) (sizes : HasSizes) (packed : length bytes ≡ response_bytes p) where
    abbrev parts : List ℕ
    parts =
        write_at
          (write_at (write_at (write_at old 0 bytes) (base_seed_offset p) base_seeds)
            (digest_offset p) digest)
          (salt_offset p) salt

    room : length old ≡ response_bytes p + base_seed_bytes p + digest_bytes p + salt_bytes p
    unfolding sig_bytes salt_offset digest_offset base_seed_offset
    room = omega (arith, sizes.buffer)

    encode_parts :
        encode_fq_array true (response_bytes p) (some responses) (p.k * p.n) ≡ some bytes
        → encode_signature p old
            (sig_bytes p)
            (some responses)
            (some base_seeds)
            (some digest)
            (some salt)
          ≡ some parts
    unfolding encode_signature
    encode_parts e =
        rw
          (
            eq→== (sig_bytes p) _ refl,
            e,
            take_all (base_seed_bytes p) base_seeds sizes.base_seed_size,
            take_all (digest_bytes p) digest sizes.digest_size,
            take_all (salt_bytes p) salt sizes.salt_size,
          )
          refl

    decode_parts :
        decode_fq_array_checked true true (p.k * p.n) (some bytes) (response_bytes p)
          ≡ some responses
        → decode_signature_checked p true (some parts) (sig_bytes p)
          ≡ some (record {
            responses = responses;
            base_seeds = base_seeds;
            digest = digest;
            salt = salt;
          })
    unfolding decode_signature_checked sig_bytes salt_offset digest_offset base_seed_offset
    decode_parts e =
        rw (eq→== (sig_bytes p) _ refl, response_field, seed_field, digest_field, salt_field, e)
          refl
      where
        response_field : slice parts 0 (response_bytes p) ≡ bytes
        response_field =
            first old bytes base_seeds digest salt _ _ _ _ (sym packed) (sym sizes.base_seed_size)
              (sym sizes.digest_size) (sym sizes.salt_size) room

        seed_field : slice parts (base_seed_offset p) (base_seed_bytes p) ≡ base_seeds
        seed_field =
            second old bytes base_seeds digest salt _ _ _ _ (sym packed) (sym sizes.base_seed_size)
              (sym sizes.digest_size) (sym sizes.salt_size) room

        digest_field : slice parts (digest_offset p) (digest_bytes p) ≡ digest
        digest_field =
            third old bytes base_seeds digest salt _ _ _ _ (sym packed) (sym sizes.base_seed_size)
              (sym sizes.digest_size) (sym sizes.salt_size) room

        salt_field : slice parts (salt_offset p) (salt_bytes p) ≡ salt
        salt_field =
            fourth old bytes base_seeds digest salt _ _ _ _ (sym packed) (sym sizes.base_seed_size)
              (sym sizes.digest_size) (sym sizes.salt_size) room

    length-parts : length parts ≡ sig_bytes p
    length-parts =
        length-write_at _ (salt_offset p) salt
        ∙ length-write_at _ (digest_offset p) digest
        ∙ length-write_at _ (base_seed_offset p) base_seeds
        ∙ length-write_at old 0 bytes
        ∙ sizes.buffer

  -- A signature encoded into a buffer of the right size is decoded to the same responses, base
  -- seeds, digest and salt. The parts have their sizes, the responses are reduced, the size of
  -- their array in bits fits size_t, malloc succeeds, and the pointers are not NULL.
  pub decode-encode_signature :
      HasSizes
      → FitsSize (p.k * p.n)
      → ((i : ℕ) → i < p.k * p.n → at responses i < trine_q)
      → (sig : List ℕ) × (encode_signature p old
            (sig_bytes p)
            (some responses)
            (some base_seeds)
            (some digest)
            (some salt)
          ≡ some sig)
        × (length sig ≡ sig_bytes p)
        × (decode_signature_checked p true (some sig) (sig_bytes p)
            ≡ some (record {
              responses = responses;
              base_seeds = base_seeds;
              digest = digest;
              salt = salt;
            }))
  decode-encode_signature sizes fits reduced =
      let (bytes, coded, size, _, back) =
        decode-encode responses (p.k * p.n) fits reduced (omega (arith, sizes.response_count)) in
      let same = response_bytes_lem p fits in
      let packed = size ∙ sym same in
      (
        parts bytes sizes packed,
        encode_parts bytes sizes packed (rw (same) coded),
        length-parts bytes sizes packed,
        decode_parts bytes sizes packed
            (rw (same) back ∙ ap some (take_all (p.k * p.n) responses sizes.response_count)),
      )
