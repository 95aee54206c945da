-- ===== src/Token/Diagnostic.antt =====
-- The signature-only check against the complete one, and what the outcome reports.
use swornmail.Prelude.{ℕ, ◌≡◌, refl, sym, ap, ◌∙◌, ◌↔◌, true, false, none, arith, if◌then◌else◌}
use swornmail.Prelude.Int.{ℤ}
use swornmail.Prelude.Results.{ok, >>=-eq-ok}
use swornmail.Text.{Bytes, codes}
use swornmail.Backend.{Ciborium, Dalek}
use swornmail.Key
use swornmail.Record.{PolicyRecord}
use swornmail.Token.{
  Unverified, Verified, Outcome, outcome_result, verified, finish_signature, parse, verify,
  verify_signature_only,
}
use swornmail.Token.Verdict.{verdict, outcome_of, verify_iff}

pub verified-outcome_of :
    (u : Unverified) (policy : PolicyRecord)
    → verified (outcome_of u policy) ≡ verdict u policy.testing policy.rua
unfolding verified
verified-outcome_of u policy = ground arith

outcome_result-outcome_of :
    (u : Unverified) (policy : PolicyRecord)
    → outcome_result (outcome_of u policy) ≡ (if policy.testing then codes "none" else codes "pass")
unfolding outcome_result
outcome_result-outcome_of u policy = ground arith

module _ (cbor : Ciborium) (dalek : Dalek) (token : Bytes) (key : Key.Ed25519PublicKey dalek)
    (source : ℕ) (now : ℤ) where
  -- What the signature-only check has established.
  pub record Signed (v : Verified) : Type 0 where
    pub pending : Unverified
    pub locally_valid : parse cbor token source now ≡ ok pending
    pub signed : Key.verify dalek key pending.to_be_signed pending.signature ≡ true
    pub reported : v ≡ verdict pending false none

  signature_only_sound :
      (v : Verified) → verify_signature_only cbor dalek token key source now ≡ ok v → Signed v
  unfolding verify_signature_only finish_signature
  signature_only_sound v h =
      let (u, local, h₁) = >>=-eq-ok (parse cbor token source now) _ h in
      record {
        pending = u;
        locally_valid = local;
        signed = ground (arith, h₁);
        reported = ground (arith, h₁);
      }

  signature_only_complete :
      (v : Verified) → Signed v → verify_signature_only cbor dalek token key source now ≡ ok v
  unfolding verify_signature_only finish_signature
  signature_only_complete v s = rw s.locally_valid (rw s.signed (ap ok (sym s.reported)))

  -- `verify_signature_only` returns a verdict exactly when the local checks pass and the key
  -- verifies the signature, and the verdict has the token's fields, no testing flag and no report
  -- address.
  pub verify_signature_only_iff :
      (v : Verified) → (verify_signature_only cbor dalek token key source now ≡ ok v) ↔ Signed v
  verify_signature_only_iff v = (signature_only_sound v, signature_only_complete v)

  -- An accepted token is reported as `none` if its policy has the testing flag and as `pass` if
  -- not, and the verdict carries the policy's flag and report address.
  pub verify-auth_result :
      (policy : PolicyRecord) (o : Outcome)
      → verify cbor dalek token key policy source now ≡ ok o
      → (outcome_result o ≡ (if policy.testing then codes "none" else codes "pass"))
        × ((verified o).testing ≡ policy.testing)
        × ((verified o).rua ≡ policy.rua)
  verify-auth_result policy o h =
      let a = (verify_iff cbor dalek token key policy source now o).0 h in
      let same = ap verified a.reported ∙ verified-outcome_of a.pending policy in
      (
        ap outcome_result a.reported ∙ outcome_result-outcome_of a.pending policy,
        ap (λ v. v.testing) same,
        ap (λ v. v.rua) same,
      )

  -- If `verify` accepts a token, `verify_signature_only` accepts it too, and the verdict differs
  -- only in the testing flag and the report address, which are the policy's.
  pub verify-verify_signature_only :
      (policy : PolicyRecord) (o : Outcome)
      → verify cbor dalek token key policy source now ≡ ok o
      → (v : Verified) × (verify_signature_only cbor dalek token key source now ≡ ok v)
        × (verified o ≡ record v { testing = policy.testing; rua = policy.rua })
  verify-verify_signature_only policy o h =
      let a = (verify_iff cbor dalek token key policy source now o).0 h in
      (
        verdict a.pending false none,
        signature_only_complete _ (record {
          pending = a.pending;
          locally_valid = a.locally_valid;
          signed = a.signed;
          reported = refl;
        }),
        ap verified a.reported ∙ verified-outcome_of a.pending policy,
      )
