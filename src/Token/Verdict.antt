-- ===== src/Token/Verdict.antt =====
-- The complete verification: local checks, policy, signature.
use swornmail.Prelude.{ℕ, ◌≡◌, sym, ap, ◌↔◌, Bool, true, Option, arith, ==_iff, if◌then◌else◌}
use swornmail.Prelude.Int.{ℤ}
use swornmail.Prelude.Results.{ok, >>=-eq-ok}
use swornmail.Text.{Bytes}
use swornmail.Backend.{Ciborium, Dalek}
use swornmail.Key
use swornmail.Record.{PolicyRecord, authorizes}
use swornmail.Token.{
  Unverified, Verified, Outcome, pass, observe_only, authorize, finish_signature, verify_signature,
  parse, verify,
}

-- The fields of the verdict: from the token, and from the policy.
abbrev pub verdict : Unverified → Bool → Option Bytes → Verified
verdict u testing rua = record {
  operator = u.payload.operator;
  unit = u.unit;
  observed_unit = u.observed_unit;
  prefix = u.payload.prefix;
  selector = u.selector;
  role = u.payload.role;
  testing = testing;
  rua = rua;
}

abbrev pub outcome_of : Unverified → PolicyRecord → Outcome
outcome_of u policy =
    let v = verdict u policy.testing policy.rua in if policy.testing then observe_only v else pass v

module _ (cbor : Ciborium) (dalek : Dalek) where
  -- What a complete verification has established.
  pub record Accepted (token : Bytes) (key : Key.Ed25519PublicKey dalek) (policy : PolicyRecord)
      (source : ℕ) (now : ℤ) (o : Outcome) : Type 0 where
    pub pending : Unverified
    pub locally_valid : parse cbor token source now ≡ ok pending
    pub authorized : authorizes policy pending.payload.prefix ≡ true
    pub unit_agrees : policy.unit ≡ pending.payload.unit
    pub signed : Key.verify dalek key pending.to_be_signed pending.signature ≡ true
    pub reported : o ≡ outcome_of pending policy

  module _ (token : Bytes) (key : Key.Ed25519PublicKey dalek) (policy : PolicyRecord) (source : ℕ)
      (now : ℤ) (o : Outcome) where
    verify_sound :
        verify cbor dalek token key policy source now ≡ ok o
        → Accepted token key policy source now o
    unfolding verify authorize verify_signature finish_signature
    verify_sound h =
        let (u, local, h₁) = >>=-eq-ok (parse cbor token source now) _ h in
        record {
          pending = u;
          locally_valid = local;
          authorized = ground (arith, h₁);
          unit_agrees = ground (arith, h₁);
          signed = ground (arith, h₁);
          reported = ground (arith, h₁);
        }

    verify_complete :
        Accepted token key policy source now o
        → verify cbor dalek token key policy source now ≡ ok o
    unfolding verify authorize verify_signature finish_signature
    verify_complete a =
        let agrees = (==_iff policy.unit a.pending.payload.unit).1 a.unit_agrees in
        rw a.locally_valid (rw a.authorized (rw agrees (rw a.signed (ap ok (sym a.reported)))))

    -- `verify` returns an outcome exactly when `parse` returns a token whose prefix the policy
    -- authorizes, whose unit is the policy's, and whose signature the key verifies, and the outcome
    -- is the token's fields with the policy's testing flag and report address, as observe-only
    -- exactly when the flag is set.
    pub verify_iff :
        (verify cbor dalek token key policy source now ≡ ok o)
        ↔ Accepted token key policy source now o
    verify_iff = (verify_sound, verify_complete)
