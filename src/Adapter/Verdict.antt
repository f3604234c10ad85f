-- ===== src/Adapter/Verdict.antt =====
-- The error codes of sig_verify.
use meds2end.Base.{ℕ, ◌≡◌, ◌≢◌, ◌↔◌, ◌⊎◌, refl, Bool}
use meds2end.Base.{some, none, inl, inr, Bool-cases, true, false, not, ◌&&◌, ◌||◌, ◌==◌}
use meds2end.Base.{==→eq, ==→ne, ne→==}
use meds2end.Base.Run.{Run, done, failed, running}
use meds2end.Params.{Params, pk_bytes, sig_bytes}
use meds2end.Xof.{Shake}
use meds2end.Codec.{Ptr, is_null}
use meds2end.Sign.Verifying.{crypto_sign_verify}
use meds2end.Adapter.{
  Reply, accepted, refused, bad_argument, bad_length, verify_failed, settle, sig_verify,
}

-- A pointer that has to be there is NULL.
abbrev pub IsMissing : Ptr → Ptr → Ptr → ℕ → Type 0
IsMissing pk sn m m_len = (pk ≡ none) ⊎ (sn ≡ none) ⊎ ((m ≡ none) × (m_len ≢ 0))

abbrev missing : Ptr → Ptr → Ptr → ℕ → Bool
missing pk sn m m_len = (is_null pk || is_null sn) || (is_null m && not (m_len == 0))

missing-IsMissing :
    (pk sn m : Ptr) (m_len : ℕ) → missing pk sn m m_len ≡ true → IsMissing pk sn m m_len
missing-IsMissing none sn m m_len e = inl refl
missing-IsMissing (some pk) none m m_len e = inr (inl refl)
missing-IsMissing (some pk) (some sn) none m_len e = elim (Bool-cases (m_len == 0)) [
  | inl empty ↦ absurd (cc (rw empty at e))
  | inr full ↦ inr (inr (refl, ==→ne _ _ full))
]
missing-IsMissing (some pk) (some sn) (some m) m_len e = absurd (cc e)

IsMissing-missing :
    (pk sn m : Ptr) (m_len : ℕ) → IsMissing pk sn m m_len → missing pk sn m m_len ≡ true
IsMissing-missing none sn m m_len h = refl
IsMissing-missing (some pk) none m m_len h = refl
IsMissing-missing (some pk) (some sn) none m_len h = elim h [
  | inl e ↦ absurd (cc e)
  | inr (inl e) ↦ absurd (cc e)
  | inr (inr (e, ne)) ↦ rw (ne→== _ _ ne) refl
]
IsMissing-missing (some pk) (some sn) (some m) m_len h = elim h [
  | inl e ↦ absurd (cc e)
  | inr (inl e) ↦ absurd (cc e)
  | inr (inr (e, ne)) ↦ absurd (cc e)
]

-- crypto_sign_verify refuses the pointers that sig_verify refuses.
verify_missing :
    (sh : Shake) (p : Params) (fuel : ℕ) (pk sn : Ptr) (sn_len : ℕ) (m : Ptr) (m_len : ℕ)
    → missing pk sn m m_len ≡ true
    → crypto_sign_verify sh p fuel sn sn_len m m_len pk ≡ failed
unfolding crypto_sign_verify
verify_missing sh p fuel none none sn_len m m_len e = refl
verify_missing sh p fuel none (some sn) sn_len m m_len e = refl
verify_missing sh p fuel (some pk) none sn_len m m_len e = refl
verify_missing sh p fuel (some pk) (some sn) sn_len none m_len e = simp e refl
verify_missing sh p fuel (some pk) (some sn) sn_len (some m) m_len e = absurd (cc e)

-- It refuses a wrong length of the signature.
verify_length :
    (sh : Shake) (p : Params) (fuel : ℕ) (pk sn : Ptr) (sn_len : ℕ) (m : Ptr) (m_len : ℕ)
    → (sn_len == sig_bytes p) ≡ false
    → crypto_sign_verify sh p fuel sn sn_len m m_len pk ≡ failed
unfolding crypto_sign_verify
verify_length sh p fuel pk sn sn_len m m_len e = elim (Bool-cases (is_null sn || is_null pk)) [
  | inl absent ↦ rw absent refl
  | inr given ↦ elim (Bool-cases (is_null m && not (m_len == 0))) [
    | inl absent ↦ rw (given, absent) refl
    | inr fine ↦ rw (given, fine, e) refl
  ]
]

module _ (sh : Shake) (p : Params) (fuel : ℕ) (pk : Ptr) (pk_len : ℕ) (sn : Ptr) (sn_len : ℕ)
    (m : Ptr) (m_len : ℕ) where
  abbrev pub verified : Run (Unit {0})
  verified = crypto_sign_verify sh p fuel sn sn_len m m_len pk

  abbrev pub reply : Run (Reply (Unit {0}))
  reply = sig_verify sh p fuel pk pk_len sn sn_len m m_len

  -- The three results, for a reply that is known.
  Verdict : Run (Reply (Unit {0})) → Type 0
  Verdict r =
      ((r ≡ done (accepted tt)) ↔ ((pk_len ≡ pk_bytes p) × (verified ≡ done tt)))
      × ((r ≡ done (refused bad_argument)) ↔ IsMissing pk sn m m_len)
      × ((r ≡ done (refused verify_failed)) ↔ (
          (¬ IsMissing pk sn m m_len)
          × (pk_len ≡ pk_bytes p)
          × (sn_len ≡ sig_bytes p)
          × (verified ≡ failed)))

  missing-Verdict : missing pk sn m m_len ≡ true → Verdict (done (refused bad_argument))
  unfolding Verdict
  missing-Verdict e =
      let none_verified = verify_missing sh p fuel pk sn sn_len m m_len e in
      let absent = missing-IsMissing pk sn m m_len e in
      (
        (λ r. absurd (cc r), λ (same, v). absurd (cc)),
        (λ r. absent, λ h. refl),
        (λ r. absurd (cc r), λ (present, _, _, _). absurd (present absent)),
      )

  given-present : missing pk sn m m_len ≡ false → ¬ IsMissing pk sn m m_len
  given-present given h = let e = IsMissing-missing pk sn m m_len h in cc

  length-Verdict :
      missing pk sn m m_len ≡ false
      → (pk_len ≢ pk_bytes p) ⊎ (sn_len ≢ sig_bytes p)
      → Verdict (done (refused bad_length))
  unfolding Verdict
  length-Verdict given wrong = (
    (
      λ r. absurd (cc r),
      λ (same, v). absurd (elim wrong [ inl ne ↦ ne same | inr ne ↦ unverified ne v ]),
    ),
    (λ r. absurd (cc r), λ h. absurd (given-present given h)),
    (
      λ r. absurd (cc r),
      λ (_, same, long, _). absurd (elim wrong [ inl ne ↦ ne same | inr ne ↦ ne long ]),
    ),
  )
    where
      unverified : sn_len ≢ sig_bytes p → ¬ (verified ≡ done tt)
      unverified ne v = let e = verify_length sh p fuel pk sn sn_len m m_len (ne→== _ _ ne) in cc

  settle-Verdict :
      missing pk sn m m_len ≡ false
      → pk_len ≡ pk_bytes p
      → sn_len ≡ sig_bytes p
      → (r : Run (Unit {0})) → verified ≡ r
      → Verdict (settle verify_failed r)
  unfolding Verdict settle
  settle-Verdict given same long (done u) is_r = (
    (λ r. (same, is_r), λ h. refl),
    (λ r. absurd (cc r), λ h. absurd (given-present given h)),
    (λ r. absurd (cc r), λ (_, _, _, v). absurd (cc)),
  )
  settle-Verdict given same long failed is_r = (
    (λ r. absurd (cc r), λ (_, v). absurd (cc)),
    (λ r. absurd (cc r), λ h. absurd (given-present given h)),
    (λ r. (given-present given, same, long, is_r), λ h. refl),
  )
  settle-Verdict given same long running is_r = (
    (λ r. absurd (cc r), λ (_, v). absurd (cc)),
    (λ r. absurd (cc r), λ h. absurd (given-present given h)),
    (λ r. absurd (cc r), λ (_, _, _, v). absurd (cc)),
  )

  -- sig_verify returns 0 exactly where crypto_sign_verify does and the length of the key is right; it
  -- returns SIG_ADAPTER_BAD_ARGUMENT, which is -1, exactly where a pointer is NULL, that of the message
  -- only where its length is not 0; and it returns SIG_ADAPTER_VERIFY_FAILED, which is -6, exactly
  -- where the pointers and the lengths are in order and crypto_sign_verify returns -1.
  pub sig_verify_lem :
      ((reply ≡ done (accepted tt)) ↔ ((pk_len ≡ pk_bytes p) × (verified ≡ done tt)))
      × ((reply ≡ done (refused bad_argument)) ↔ IsMissing pk sn m m_len)
      × ((reply ≡ done (refused verify_failed)) ↔ (
          (¬ IsMissing pk sn m m_len)
          × (pk_len ≡ pk_bytes p)
          × (sn_len ≡ sig_bytes p)
          × (verified ≡ failed)))
  unfolding sig_verify Verdict
  sig_verify_lem = elim (Bool-cases (missing pk sn m m_len)) [
    | inl absent ↦ rw absent (missing-Verdict absent)
    | inr given ↦ elim (Bool-cases (pk_len == pk_bytes p)) [
      | inr ne ↦ rw (given, ne) (length-Verdict given (inl (==→ne _ _ ne)))
      | inl same ↦ elim (Bool-cases (sn_len == sig_bytes p)) [
        | inr ne ↦ rw (given, same, ne) (length-Verdict given (inr (==→ne _ _ ne)))
        | inl long ↦
            rw (given, same, long)
              (settle-Verdict given (==→eq _ _ same) (==→eq _ _ long) verified refl)
      ]
    ]
  ]
