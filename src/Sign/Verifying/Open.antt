-- ===== src/Sign/Verifying/Open.antt =====
-- crypto_sign_open on a signature with the message behind it.
use meds2end.Base.{ℕ, zero, suc, ◌+◌, ◌-◌, ◌^◌, ◌≤◌, ◌<◌, ◌≡◌, refl, ap, arith}
use meds2end.Base.{true, false, some, List, [], ◌∷◌, ◌++◌, length, take}
use meds2end.Base.{drop, ltb}
use meds2end.Base.Run.{done, ◌>>=◌}
use meds2end.Base.Slices.{slice}
use meds2end.Params.{
  Params, sig_bytes, response_bytes, base_seed_offset, base_seed_bytes, digest_offset, digest_bytes,
  salt_offset, salt_bytes,
}
use meds2end.Xof.{Shake}
use meds2end.Codec.Keys.{decode_signature_checked}
use meds2end.Base.Slices.{take_all}
use meds2end.Sign.{message_len_to_size}
use meds2end.Sign.Verifying.{crypto_sign_verify, crypto_sign_open}

not_below : (a b : ℕ) → b ≤ a → ltb a b ≡ false
not_below a b h = ground arith

pub take-append : (n : ℕ) (xs ys : List ℕ) → n ≤ length xs → take n (xs ++ ys) ≡ take n xs
take-append zero xs ys h = refl
take-append (suc n) [] ys h = absurd (omega arith)
take-append (suc n) (x ∷ xs) ys h = ap (λ r. x ∷ r) (take-append n xs ys (omega arith))

slice-append :
    (xs ys : List ℕ) (off len : ℕ)
    → off + len ≤ length xs
    → slice (xs ++ ys) off len ≡ slice xs off len
slice-append xs ys zero len h = take-append len xs ys (omega arith)
slice-append [] ys (suc off) len h = absurd (omega arith)
slice-append (x ∷ xs) ys (suc off) len h = slice-append xs ys off len (omega arith)

drop-append : (xs ys : List ℕ) → drop (length xs) (xs ++ ys) ≡ ys
drop-append [] ys = refl
drop-append (x ∷ xs) ys = drop-append xs ys

-- The decoder of signatures does not read behind the signature.
decode_signature-append :
    (p : Params) (sig m : List ℕ)
    → length sig ≡ sig_bytes p
    → decode_signature_checked p true (some (sig ++ m)) (sig_bytes p)
      ≡ decode_signature_checked p true (some sig) (sig_bytes p)
unfolding decode_signature_checked sig_bytes salt_offset digest_offset base_seed_offset
decode_signature-append p sig m e =
    rw
      (
        slice-append sig m 0 (response_bytes p) (omega (arith, e)),
        slice-append sig m (base_seed_offset p) (base_seed_bytes p) (omega (arith, e)),
        slice-append sig m (digest_offset p) (digest_bytes p) (omega (arith, e)),
        slice-append sig m (salt_offset p) (salt_bytes p) (omega (arith, e)),
      )
      refl

module _ (sh : Shake) (p : Params) (fuel : ℕ) (sig m pk : List ℕ) where
  -- The verification does not read behind the signature.
  pub verify-append :
      (rest : List ℕ)
      → length sig ≡ sig_bytes p
      → crypto_sign_verify sh p fuel
          (some (sig ++ rest))
          (sig_bytes p)
          (some m)
          (length m)
          (some pk)
        ≡ crypto_sign_verify sh p fuel (some sig) (sig_bytes p) (some m) (length m) (some pk)
  unfolding crypto_sign_verify
  verify-append rest e = rw (decode_signature-append p sig rest e) refl

  -- Opening a signature with the message behind it is verifying the signature and the message
  -- apart, and gives back the message exactly where that succeeds. The signature has its size,
  -- the length of the message fits size_t, and the pointers are not NULL.
  pub open-append :
      length sig ≡ sig_bytes p
      → length m < 2 ^ 64
      → crypto_sign_open sh p fuel false (some (sig ++ m)) (sig_bytes p + length m) (some pk) ≡ (
          crypto_sign_verify sh p fuel (some sig) (sig_bytes p) (some m) (length m) (some pk)
          >>= λ _. done m)
  unfolding crypto_sign_open message_len_to_size
  open-append e h =
      rw
        (
          not_below (sig_bytes p + length m) (sig_bytes p) (omega arith),
          difference,
          not_below (2 ^ 64 - 1) (length m) (omega arith),
          behind,
          take_all (length m) m refl,
        )
        (rw (verify-append m e) refl)
    where
      difference : sig_bytes p + length m - sig_bytes p ≡ length m
      difference = omega arith

      behind : drop (sig_bytes p) (sig ++ m) ≡ m
      behind = rw (← e) (drop-append sig m)
