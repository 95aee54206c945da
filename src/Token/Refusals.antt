-- ===== src/Token/Refusals.antt =====
-- The reasons of a complete verification, and what each of the last three says.
use mathlib.Core.Path.{subst}
use swornmail.Prelude.{
  ℕ, ◌≡◌, ◌≢◌, refl, ◌↔◌, true, false, [], arith, ◌==◌, ==_iff, Bool-cases, inl, inr, eq-false,
}
use swornmail.Prelude.Int.{ℤ}
use swornmail.Prelude.Results.{ok, err, ◌>>=◌, >>=-eq-err}
use swornmail.Text.{Bytes}
use swornmail.Reason.{Reason, bad_signature, unauthorized_prefix, policy_unit_mismatch}
use swornmail.Backend.{Ciborium, Dalek}
use swornmail.Key
use swornmail.Record.{PolicyRecord, authorizes}
use swornmail.Token.{Unverified, authorize, finish_signature, verify_signature, parse, verify}
use swornmail.Token.Errors.{FailsLocally, IsLocal, parse_excluding-FailsLocally}

module _ (cbor : Ciborium) (dalek : Dalek) where
  -- The stage that refuses, with the reason: each stage runs when those before it have passed.
  pub data Refused (token : Bytes) (key : Key.Ed25519PublicKey dalek) (policy : PolicyRecord)
      (source : ℕ) (now : ℤ) : Reason → Type 0 where
    by_parse :
        (r : Reason) → parse cbor token source now ≡ err r → Refused token key policy source now r
    by_policy :
        (u : Unverified)
        → parse cbor token source now ≡ ok u
        → authorizes policy u.payload.prefix ≡ false
        → Refused token key policy source now unauthorized_prefix
    by_unit :
        (u : Unverified)
        → parse cbor token source now ≡ ok u
        → authorizes policy u.payload.prefix ≡ true
        → policy.unit ≢ u.payload.unit
        → Refused token key policy source now policy_unit_mismatch
    by_signature :
        (u : Unverified)
        → parse cbor token source now ≡ ok u
        → authorizes policy u.payload.prefix ≡ true
        → policy.unit ≡ u.payload.unit
        → Key.verify dalek key u.to_be_signed u.signature ≡ false
        → Refused token key policy source now bad_signature

  module _ (token : Bytes) (key : Key.Ed25519PublicKey dalek) (policy : PolicyRecord) (source : ℕ)
      (now : ℤ) where
    -- What follows the local checks, on what they have built.
    later_stages :
        (u : Unverified) (r : Reason)
        → parse cbor token source now ≡ ok u
        → (authorize u policy >>= λ a. verify_signature dalek a key) ≡ err r
        → Refused token key policy source now r
    unfolding authorize verify_signature finish_signature
    later_stages u r p h = elim (Bool-cases (authorizes policy u.payload.prefix)) [
      | inl t ↦ elim (Bool-cases (policy.unit == u.payload.unit)) [
        | inl e ↦ elim (Bool-cases (Key.verify dalek key u.to_be_signed u.signature)) [
          | inl s ↦ ground arith
          | inr s ↦
              subst (Refused token key policy source now) (ground arith)
                (by_signature u p t ((==_iff policy.unit u.payload.unit).0 e) s)
        ]
        | inr d ↦
            subst (Refused token key policy source now) (ground arith)
              (by_unit u p t (λ e. ground arith))
      ]
      | inr f ↦ subst (Refused token key policy source now) (ground arith) (by_policy u p f)
    ]

    Refused-sound :
        (r : Reason)
        → verify cbor dalek token key policy source now ≡ err r
        → Refused token key policy source now r
    unfolding verify
    Refused-sound r h = elim (>>=-eq-err (parse cbor token source now) _ h) [
      | inl e ↦ by_parse r e
      | inr (u, p, h₁) ↦ later_stages u r p h₁
    ]

    Refused-complete :
        (r : Reason)
        → Refused token key policy source now r
        → verify cbor dalek token key policy source now ≡ err r
    unfolding verify authorize verify_signature finish_signature
    Refused-complete _ (by_parse r p) = rw p refl
    Refused-complete _ (by_policy u p f) = rw p (rw f refl)
    Refused-complete _ (by_unit u p t d) = rw p (
        rw t (
          rw
            (eq-false (policy.unit == u.payload.unit)
              (λ h. d ((==_iff policy.unit u.payload.unit).0 h)))
            refl))
    Refused-complete _ (by_signature u p t e f) =
        let agrees = (==_iff policy.unit u.payload.unit).1 e in rw p (rw t (rw agrees (rw f refl)))

    -- `verify` gives a reason exactly when the first stage to refuse gives it: the local checks
    -- with their own reason, then the policy that does not authorize the prefix, then the policy's
    -- unit that is another, then the signature that the key does not verify.
    pub verify-err_iff :
        (r : Reason)
        → (verify cbor dalek token key policy source now ≡ err r)
          ↔ Refused token key policy source now r
    verify-err_iff r = (Refused-sound r, Refused-complete r)

    parse-FailsLocally : FailsLocally (parse cbor token source now)
    unfolding parse
    parse-FailsLocally = parse_excluding-FailsLocally cbor token source now []

    -- The signature is wrong, and everything before it is right.
    abbrev pub WrongSignature : Type 0
    WrongSignature =
        (u : Unverified) × (parse cbor token source now ≡ ok u)
        × (authorizes policy u.payload.prefix ≡ true)
        × (policy.unit ≡ u.payload.unit)
        × (Key.verify dalek key u.to_be_signed u.signature ≡ false)

    signature_stage :
        {r : Reason} → Refused token key policy source now r → r ≡ bad_signature → WrongSignature
    signature_stage (by_parse r p) e =
        absurd (subst IsLocal e (subst FailsLocally p parse-FailsLocally))
    signature_stage (by_policy u p f) e = cc
    signature_stage (by_unit u p t d) e = cc
    signature_stage (by_signature u p t e f) _ = (u, p, t, e, f)

    -- `verify` reports `bad_signature` exactly when the local checks pass, the policy authorizes
    -- the prefix and has its unit, and the key does not verify the signature: no earlier stage
    -- gives that reason.
    pub verify-bad_signature_iff :
        (verify cbor dalek token key policy source now ≡ err bad_signature) ↔ WrongSignature
    verify-bad_signature_iff = (
      λ h. signature_stage (Refused-sound bad_signature h) refl,
      λ (u, p, t, e, f). Refused-complete bad_signature (by_signature u p t e f),
    )
