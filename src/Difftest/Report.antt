-- ===== src/Difftest/Report.antt =====
-- The lines of the report: what the columns of a case are, and that they can be told apart.
use swornmail.Prelude.{ℕ, ◌≡◌, refl, sym, ap, ◌↔◌, ◌⊎◌, inl, inr, ◌≢◌, some, [], ◌∷◌, arith}
use swornmail.Prelude.Int.{ℤ}
use swornmail.Prelude.Results.{Result, ok, err, Result-cases}
use swornmail.Text.{Bytes, codes}
use swornmail.Reason.{Reason, as_str}
use swornmail.Reason.Strings.{as_str-injective, as_str-ne-pass, as_str-ne-other}
use swornmail.Backend.{Ciborium, Dalek}
use swornmail.Key
use swornmail.Record.{PolicyRecord, parse_policy}
use swornmail.Token.{
  Verified, Outcome, pass, observe_only, verify, verify_signature_only, reason_str,
}
use swornmail.Difftest.{Verdict, signature_verdict, policy_verdict, evaluate}

-- The verdict of a token that passes.
abbrev pub passed : Verified → Verdict
passed v = record { result = codes "pass"; reason = codes "pass"; verified = some v }

signature_verdict_iff :
    (o : Result Reason Verified) (v : Verified) → (signature_verdict o ≡ passed v) ↔ (o ≡ ok v)
unfolding signature_verdict reason_str
signature_verdict_iff (ok w) v = (λ h. cc, λ h. ap (λ o. signature_verdict o) h)
signature_verdict_iff (err r) v = (λ h. cc, λ h. cc)

policy_verdict_iff :
    (o : Result Reason Outcome) (v : Verified) → (policy_verdict o ≡ passed v) ↔ (o ≡ ok (pass v))
unfolding policy_verdict reason_str
policy_verdict_iff (ok (pass w)) v = (λ h. cc, λ h. ap (λ o. policy_verdict o) h)
policy_verdict_iff (ok (observe_only w)) v =
    (λ h. ground (arith, ap (λ d. Verdict.result d) h), λ h. cc)
policy_verdict_iff (err r) v = (λ h. cc, λ h. cc)

signature_reason_iff :
    (o : Result Reason Verified) (r : Reason)
    → ((signature_verdict o).reason ≡ as_str r) ↔ (o ≡ err r)
unfolding signature_verdict reason_str
signature_reason_iff (ok w) r = (λ h. absurd (as_str-ne-pass r (sym h)), λ h. cc)
signature_reason_iff (err s) r =
    (λ h. ap err (as_str-injective s r h), λ h. ap (λ o. (signature_verdict o).reason) h)

policy_reason_iff :
    (o : Result Reason Outcome) (r : Reason) → ((policy_verdict o).reason ≡ as_str r) ↔ (o ≡ err r)
unfolding policy_verdict reason_str
policy_reason_iff (ok (pass w)) r = (λ h. absurd (as_str-ne-pass r (sym h)), λ h. cc)
policy_reason_iff (ok (observe_only w)) r = (λ h. absurd ((as_str-ne-other r).0 (sym h)), λ h. cc)
policy_reason_iff (err s) r =
    (λ h. ap err (as_str-injective s r h), λ h. ap (λ o. (policy_verdict o).reason) h)

module _ (cbor : Ciborium) (dalek : Dalek) (key : Key.Ed25519PublicKey dalek) where
  -- What makes a case pass: the signature-only check without a policy, the complete one with it.
  abbrev pub Passes : Bytes → ℕ → ℤ → Bytes → Verified → Type 0
  Passes token source now txt v =
      ((txt ≡ []) × (verify_signature_only cbor dalek token key source now ≡ ok v))
      ⊎ ((policy : PolicyRecord) × (txt ≢ [])
          × (parse_policy txt ≡ ok policy)
          × (verify cbor dalek token key policy source now ≡ ok (pass v)))

  evaluate-passed_iff :
      (token : Bytes) (source : ℕ) (now : ℤ) (txt : Bytes) (v : Verified)
      → (evaluate cbor dalek key token source now txt ≡ passed v) ↔ Passes token source now txt v
  unfolding evaluate
  evaluate-passed_iff token source now [] v =
      let step = signature_verdict_iff (verify_signature_only cbor dalek token key source now) v in
      (
        λ h. inl (refl, step.0 h),
        λ p. elim p [
          | inl (e, h) ↦ step.1 h
          | inr (policy, filled, read, h) ↦ absurd (filled refl)
        ],
      )
  evaluate-passed_iff token source now (c ∷ s) v = elim (Result-cases (parse_policy (c ∷ s))) [
    | inl (policy, read) ↦
        let step = policy_verdict_iff (verify cbor dalek token key policy source now) v in
        rw read (
          λ h. inr (policy, (λ e. cc), refl, step.0 h),
          λ p. elim p [ inl (e, h) ↦ absurd cc | inr (other, filled, same, h) ↦ step.1 cc ],
        )
    | inr (e, read) ↦
        rw read (
          λ h. cc,
          λ p. elim p [ inl (e, h) ↦ absurd cc | inr (other, filled, same, h) ↦ absurd cc ],
        )
  ]

  -- What makes a case fail with a reason.
  abbrev pub Refuses : Bytes → ℕ → ℤ → Bytes → Reason → Type 0
  Refuses token source now txt r =
      ((txt ≡ []) × (verify_signature_only cbor dalek token key source now ≡ err r))
      ⊎ ((policy : PolicyRecord) × (txt ≢ [])
          × (parse_policy txt ≡ ok policy)
          × (verify cbor dalek token key policy source now ≡ err r))

  evaluate-refused_iff :
      (token : Bytes) (source : ℕ) (now : ℤ) (txt : Bytes) (r : Reason)
      → ((evaluate cbor dalek key token source now txt).reason ≡ as_str r)
        ↔ Refuses token source now txt r
  unfolding evaluate
  evaluate-refused_iff token source now [] r =
      let step = signature_reason_iff (verify_signature_only cbor dalek token key source now) r in
      (
        λ h. inl (refl, step.0 h),
        λ p. elim p [
          | inl (e, h) ↦ step.1 h
          | inr (policy, filled, read, h) ↦ absurd (filled refl)
        ],
      )
  evaluate-refused_iff token source now (c ∷ s) r = elim (Result-cases (parse_policy (c ∷ s))) [
    | inl (policy, read) ↦
        let step = policy_reason_iff (verify cbor dalek token key policy source now) r in
        rw read (
          λ h. inr (policy, (λ e. cc), refl, step.0 h),
          λ p. elim p [ inl (e, h) ↦ absurd cc | inr (other, filled, same, h) ↦ step.1 cc ],
        )
    | inr (e, read) ↦ rw read (
      λ h. absurd ((as_str-ne-other r).1 (sym h)),
      λ p. elim p [ inl (e, h) ↦ absurd cc | inr (other, filled, same, h) ↦ absurd cc ],
    )
  ]

  -- A case of the differential test is reported as passed with a verdict exactly when the
  -- signature-only check accepts it, without a policy text, or the complete check under the parsed
  -- policy passes it, with one; and the reason column is a reason's string exactly when that check
  -- refuses it for that reason.
  pub evaluate_iff :
      (token : Bytes) (source : ℕ) (now : ℤ) (txt : Bytes)
      → ((v : Verified)
          → (evaluate cbor dalek key token source now txt ≡ passed v)
            ↔ Passes token source now txt v)
        × ((r : Reason)
            → ((evaluate cbor dalek key token source now txt).reason ≡ as_str r)
              ↔ Refuses token source now txt r)
  evaluate_iff token source now txt =
      (evaluate-passed_iff token source now txt, evaluate-refused_iff token source now txt)
