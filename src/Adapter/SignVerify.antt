-- ===== src/Adapter/SignVerify.antt =====
-- sig_sign, and sig_verify on what it returns.
use meds2end.Base.{ℕ, ◌+◌, ◌-◌, ◌*◌, ◌^◌, ◌≤◌, ◌<◌, ◌≡◌, refl, ap, ◌∙◌, arith}
use meds2end.Base.{some, List, [], ◌∷◌, ◌++◌, length, take, length-append, get_or_ext}
use meds2end.Base.{true, false, ltb, ◌==◌}
use meds2end.Base.Run.{Run, done, failed, running, ◌>>=◌}
use meds2end.Base.Slices.{write_at, take_all, at-write_at, length-write_at, write_at-cons}
use meds2end.Params.{Params, pk_bytes, sk_bytes, sig_bytes, salt_bytes}
use meds2end.Xof.{Shake}
use meds2end.Codec.Arrays.{FitsSize}
use meds2end.Sign.Signing.{crypto_sign}
use meds2end.Sign.Signing.Output.{crypto_sign-decode_signature}
use meds2end.Sign.Verifying.{crypto_sign_verify, crypto_sign_open}
use meds2end.Sign.Verifying.Open.{open-append, verify-append, take-append}
use meds2end.Adapter.{
  ErrorCode, Reply, accepted, refused, sign_failed, verify_failed, settle, copy_signature, sig_sign,
  sig_verify,
}

-- One call after another, left at the first that is refused.
infixl 5 ◌then_call◌
abbrev pub ◌then_call◌ : {A B : Type 0} → Run (Reply A) → (A → Run (Reply B)) → Run (Reply B)
done (accepted a) then_call f = f a
done (refused code) then_call f = done (refused code)
failed then_call f = failed
running then_call f = running

same : (a b : ℕ) → b ≡ a → (b == a) ≡ true
same a b e = ground (arith, e)

not_below : (a b : ℕ) → b ≤ a → ltb a b ≡ false
not_below a b h = ground arith

write-append :
    (sn sig : List ℕ) → length sig ≤ length sn → (rest : List ℕ) × (write_at sn 0 sig ≡ sig ++ rest)
write-append sn [] h = (sn, write-none sn)
  where
    write-none : (xs : List ℕ) → write_at xs 0 [] ≡ xs
    write-none xs =
        get_or_ext 0 _ xs (length-write_at xs 0 [])
          λ i lt. ground (arith, at-write_at xs 0 [] i (omega arith))
write-append [] (b ∷ sig) h = absurd (omega arith)
write-append (a ∷ sn) (b ∷ sig) h =
    let (rest, e) = write-append sn sig (omega arith) in
    (rest, write_at-cons a b sn sig ∙ ap (λ t. b ∷ t) e)

settled :
    (code : ErrorCode) (m : List ℕ) (r : Run (Unit {0}))
    → settle code r then_call (λ _. done (accepted m)) ≡ settle code (r >>= λ _. done m)
unfolding settle
settled code m (done u) = refl
settled code m failed = refl
settled code m running = refl

module _ (sh : Shake) (p : Params) (fuel : ℕ) (salt round_seeds m sk : List ℕ) where
  abbrev pub signing : Run (List ℕ)
  signing = crypto_sign sh p fuel false (some salt) (some round_seeds) (some m) (length m) (some sk)

  abbrev pub signing_reply : List ℕ → ℕ → Run (Reply (List ℕ × ℕ))
  signing_reply sn sn_len =
      sig_sign sh p fuel true (some salt) (some round_seeds) (some sk) (sk_bytes p) (some m)
        (length m) (some sn) (some sn_len)

  copied :
      (sn : List ℕ) (tmp_len : ℕ) (r : Run (List ℕ))
      → ((sm : List ℕ) → r ≡ done sm → length sm ≡ tmp_len)
      → copy_signature p sn tmp_len r
        ≡ settle sign_failed (r >>= λ sm. done (write_at sn 0 (take (sig_bytes p) sm), sig_bytes p))
  unfolding copy_signature settle
  copied sn tmp_len (done sm) h = rw (same tmp_len (length sm) (h sm refl)) refl
  copied sn tmp_len failed h = refl
  copied sn tmp_len running h = refl

  module _ (salted : length salt ≡ salt_bytes p) (fits : FitsSize (p.k * p.n)) where
    signed_message :
        {sm : List ℕ}
        → signing ≡ done sm
        → (sig : List ℕ) × (sm ≡ sig ++ m) × (length sig ≡ sig_bytes p)
    signed_message {sm} e =
        let (sig, fields, joined, long, _, _) =
          crypto_sign-decode_signature sh p fuel false salt round_seeds (some m) (length m)
            (some sk) salted fits e in
        (sig, joined ∙ ap (λ t. sig ++ t) (take_all (length m) m refl), long)

    length-signed : {sm : List ℕ} → signing ≡ done sm → length sm ≡ length m + sig_bytes p
    length-signed e =
        let (sig, joined, long) = signed_message e in
        omega (arith, ap length joined, length-append sig m, long)

    -- Where the arguments are in order and malloc succeeds, sig_sign is crypto_sign: it returns what
    -- crypto_sign returns, with the first TRINE_SIG_BYTES bytes of the signed message written to the
    -- start of sn and their number to *sn_len_bytes. The later test of the length of the signed
    -- message never refuses.
    pub sig_sign_lem :
        (sn : List ℕ) (sn_len : ℕ)
        → sig_bytes p ≤ sn_len
        → length m + sig_bytes p < 2 ^ 64
        → signing_reply sn sn_len
          ≡ settle sign_failed
              (signing >>= λ sm. done (write_at sn 0 (take (sig_bytes p) sm), sig_bytes p))
    unfolding sig_sign
    sig_sign_lem sn sn_len room small =
        rw
          (
            same (sk_bytes p) (sk_bytes p) refl,
            not_below _ _ room,
            not_below (2 ^ 64 - 1 - sig_bytes p) (length m) (omega (arith, small)),
          )
          (copied sn (length m + sig_bytes p) signing (λ sm e. length-signed e))

    module _ (pk sn : List ℕ) (holds : sig_bytes p ≤ length sn) where
      abbrev verify_reply : List ℕ × ℕ → Run (Reply (List ℕ))
      verify_reply s =
          sig_verify sh p fuel (some pk) (pk_bytes p) (some s.0) s.1 (some m) (length m)
          then_call λ _. done (accepted m)

      abbrev open_reply : List ℕ → Run (Reply (List ℕ))
      open_reply sm =
          settle verify_failed (crypto_sign_open sh p fuel false (some sm) (length sm) (some pk))

      verify-written :
          (sig : List ℕ)
          → length sig ≡ sig_bytes p
          → length m + sig_bytes p < 2 ^ 64
          → verify_reply (write_at sn 0 sig, sig_bytes p) ≡ open_reply (sig ++ m)
      unfolding sig_verify
      verify-written sig e small =
          let (rest, written) = write-append sn sig (omega (arith, e, holds)) in
          let joined : length (sig ++ m) ≡ sig_bytes p + length m =
            omega (arith, length-append sig m, e) in
          rw
            (
              written,
              joined,
              same (pk_bytes p) (pk_bytes p) refl,
              same (sig_bytes p) (sig_bytes p) refl,
              verify-append sh p fuel sig m pk rest e,
              open-append sh p fuel sig m pk e (omega (arith, small)),
            )
            (settled verify_failed m
              (crypto_sign_verify sh p fuel (some sig) (sig_bytes p) (some m) (length m) (some pk)))

      chained :
          (r : Run (List ℕ))
          → ((sm : List ℕ)
              → r ≡ done sm
              → verify_reply (write_at sn 0 (take (sig_bytes p) sm), sig_bytes p) ≡ open_reply sm)
          → settle sign_failed
                (r >>= λ sm. done (write_at sn 0 (take (sig_bytes p) sm), sig_bytes p))
              then_call verify_reply
            ≡ settle sign_failed r then_call open_reply
      unfolding settle
      chained (done sm) h = h sm refl
      chained failed h = refl
      chained running h = refl

      -- Signing and then verifying by sig_sign and sig_verify is signing and then opening by
      -- crypto_sign and crypto_sign_open: the same fail, at the same call, or none of them does and
      -- the opened message is the signed one. Where crypto_sign_verify refuses, the code of sig_verify
      -- is SIG_ADAPTER_VERIFY_FAILED, which is -6 and not the -1 of SIG_AlgorithmInstance.h.
      pub sig_verify-sig_sign :
          (sn_len : ℕ)
          → sig_bytes p ≤ sn_len
          → length m + sig_bytes p < 2 ^ 64
          → signing_reply sn sn_len then_call verify_reply
            ≡ settle sign_failed signing then_call open_reply
      sig_verify-sig_sign sn_len room small = rw (sig_sign_lem sn sn_len room small) (
          chained signing λ sm e.
            let (sig, joined, long) = signed_message e in
            let cut : take (sig_bytes p) (sig ++ m) ≡ sig =
              take-append (sig_bytes p) sig m (omega (arith, long))
              ∙ take_all (sig_bytes p) sig long in
            rw (joined, cut) (verify-written sig long small))
