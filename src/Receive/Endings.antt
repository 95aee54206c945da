-- ===== src/Receive/Endings.antt =====
-- The ways in which a run of the receiver ends.
use swornmail.Prelude.{
  ℕ, ◌≡◌, refl, ◌⊎◌, inl, inr, true, none, some, [], ◌∷◌, arith, Bool-cases, ==_iff, ◌==◌,
}
use swornmail.Prelude.Int.{ℤ}
use swornmail.Prelude.Results.{ok, err}
use swornmail.Text.{Bytes}
use swornmail.Text.Ipv6.{parse_ipv6}
use swornmail.Reason.{Reason, unauthorized_prefix, policy_unit_mismatch}
use swornmail.Backend.{Ciborium, Dalek, Base64}
use swornmail.Record.{RecordError, PolicyRecord, KeyRecord, parse_policy, parse_key, authorizes}
use swornmail.Token.{Unverified, Authorized, parse, authorize, verify_signature}
use swornmail.Receive.{
  Run, bad_address, refused, unusable, receive, report, policy_qname, key_qname,
}

-- The backends, and the arguments of a run.
pub record Setting : Type 1 where
  pub lookup_txt : Bytes → Bytes
  pub cbor : Ciborium
  pub dalek : Dalek
  pub base64 : Base64
  pub token : Bytes
  pub source_str : Bytes
  pub now : ℤ

abbrev pub policy_name : Unverified → Bytes
policy_name u = policy_qname u.payload.operator

abbrev pub key_name : Unverified → Bytes
key_name u = key_qname u.selector u.payload.operator

abbrev pub authorized : Unverified → PolicyRecord → Authorized
authorized u policy = record { token = u; testing = policy.testing; rua = policy.rua }

abbrev pub Consents : Unverified → PolicyRecord → Type 0
Consents u policy = (authorizes policy u.payload.prefix ≡ true) × (policy.unit ≡ u.payload.unit)

pub authorize_cases :
    (u : Unverified) (policy : PolicyRecord)
    → (Consents u policy × (authorize u policy ≡ ok (authorized u policy)))
      ⊎ ((¬ Consents u policy) × (e : Reason) × (authorize u policy ≡ err e))
unfolding authorize
authorize_cases u policy = elim (Bool-cases (authorizes policy u.payload.prefix)) [
  | inl a ↦ elim (Bool-cases (policy.unit == u.payload.unit)) [
    | inl e ↦ inl ((a, (==_iff policy.unit u.payload.unit).0 e), ground arith)
    | inr n ↦ inr ((λ c. ground arith), policy_unit_mismatch, ground arith)
  ]
  | inr n ↦ inr ((λ c. ground arith), unauthorized_prefix, ground arith)
]

pub authorize-Consents :
    (u : Unverified) (policy : PolicyRecord)
    → Consents u policy
    → authorize u policy ≡ ok (authorized u policy)
authorize-Consents u policy c = elim (authorize_cases u policy) [
  | inl (consents, granted) ↦ granted
  | inr (refuses, r, failed) ↦ absurd (refuses c)
]

module _ (s : Setting) where
  abbrev pub run : Run Bytes
  run = receive s.lookup_txt s.cbor s.dalek s.base64 s.token s.source_str s.now

  -- The policy under the s.token's operator, and its consent to the s.token.
  abbrev pub PolicyRead : Unverified → PolicyRecord → Type 0
  PolicyRead u policy = parse_policy (s.lookup_txt (policy_name u)) ≡ ok policy

  -- The local checks pass for the address that the source's text denotes.
  abbrev pub Local : Unverified → Type 0
  Local u =
      (source : ℕ) × (parse_ipv6 s.source_str ≡ some source)
      × (parse s.cbor s.token source s.now ≡ ok u)

  -- The six ways in which the run ends.
  module _ (source : ℕ) (address : parse_ipv6 s.source_str ≡ some source) where
    pub ends_locally :
        {r : Reason}
        → parse s.cbor s.token source s.now ≡ err r
        → run ≡ record { queries = []; result = err (refused r) }
    unfolding receive
    ends_locally failed = rw address (rw failed refl)

    module _ (u : Unverified) (local : parse s.cbor s.token source s.now ≡ ok u) where
      pub ends_without_policy :
          {e : RecordError}
          → parse_policy (s.lookup_txt (policy_name u)) ≡ err e
          → run ≡ record { queries = policy_name u ∷ []; result = err (unusable e) }
      unfolding receive
      ends_without_policy failed = rw address (rw local (rw failed refl))

      module _ (policy : PolicyRecord) (read : PolicyRead u policy) where
        pub ends_unauthorized :
            {r : Reason}
            → authorize u policy ≡ err r
            → run ≡ record { queries = policy_name u ∷ []; result = err (refused r) }
        unfolding receive
        ends_unauthorized failed = rw address (rw local (rw read (rw failed refl)))

        module _ (granted : authorize u policy ≡ ok (authorized u policy)) where
          pub ends_without_key :
              {e : RecordError}
              → parse_key s.dalek s.base64 (s.lookup_txt (key_name u)) ≡ err e
              → run
                ≡ record { queries = policy_name u ∷ key_name u ∷ []; result = err (unusable e) }
          unfolding receive
          ends_without_key failed = rw address (rw local (rw read (rw granted (rw failed refl))))

          pub ends_with_report :
              {key : KeyRecord s.dalek s.base64}
              → parse_key s.dalek s.base64 (s.lookup_txt (key_name u)) ≡ ok key
              → run ≡ record {
                queries = policy_name u ∷ key_name u ∷ [];
                result =
                    ok (report (verify_signature s.dalek (authorized u policy) key.public_key));
              }
          unfolding receive
          ends_with_report found = rw address (rw local (rw read (rw granted (rw found refl))))

  pub ends_at_address :
      parse_ipv6 s.source_str ≡ none → run ≡ record { queries = []; result = err bad_address }
  unfolding receive
  ends_at_address failed = rw failed refl
