-- ===== src/Receive/Outcomes.antt =====
-- What the receiver reports is what `verify` finds.
use swornmail.Prelude.{ℕ, ◌≡◌, refl, sym, ap, ◌∙◌, ◌↔◌, inl, inr, List, some, Option-cases}
use swornmail.Prelude.Results.{ok, err, Result-cases}
use swornmail.Text.{Bytes}
use swornmail.Text.Ipv6.{parse_ipv6}
use swornmail.Record.{PolicyRecord, KeyRecord, parse_policy, parse_key}
use swornmail.Token.{Unverified, parse, authorize, verify_signature, verify}
use swornmail.Receive.{Run, ReceiveError, report}
use swornmail.Receive.Endings.{
  Setting, run, policy_name, key_name, authorized, PolicyRead, Consents, authorize_cases,
  authorize-Consents, ends_locally, ends_without_policy, ends_unauthorized, ends_without_key,
  ends_with_report, ends_at_address,
}

module _ (s : Setting) where
  -- The line is the report of the complete verification, under the records that were looked up, and
  -- the policy consents to the token.
  pub record Reported (line : Bytes) : Type 0 where
    pub source : ℕ
    pub pending : Unverified
    pub policy : PolicyRecord
    pub key : KeyRecord s.dalek s.base64
    pub address : parse_ipv6 s.source_str ≡ some source
    pub local : parse s.cbor s.token source s.now ≡ ok pending
    pub policy_read : PolicyRead s pending policy
    pub consents : Consents pending policy
    pub key_read : parse_key s.dalek s.base64 (s.lookup_txt (key_name pending)) ≡ ok key
    pub reported : line ≡ report (verify s.cbor s.dalek s.token key.public_key policy source s.now)

  verify-authorized :
      (source : ℕ) (u : Unverified) (policy : PolicyRecord) (key : KeyRecord s.dalek s.base64)
      → parse s.cbor s.token source s.now ≡ ok u
      → authorize u policy ≡ ok (authorized u policy)
      → verify s.cbor s.dalek s.token key.public_key policy source s.now
        ≡ verify_signature s.dalek (authorized u policy) key.public_key
  unfolding verify
  verify-authorized source u policy key local granted = rw local (rw granted refl)

  not_reported :
      {names : List Bytes} {e : ReceiveError} {line : Bytes}
      → (run s).result ≡ ok line
      → ¬ (run s ≡ record { queries = names; result = err e })
  not_reported h ends = cc (ap Run.result ends, h)

  report_sound : (line : Bytes) → (run s).result ≡ ok line → Reported line
  report_sound line h = elim (Option-cases (parse_ipv6 s.source_str)) [
    | inl n ↦ absurd (not_reported h (ends_at_address s n))
    | inr (source, a) ↦ elim (Result-cases (parse s.cbor s.token source s.now)) [
      | inr (r, failed) ↦ absurd (not_reported h (ends_locally s source a failed))
      | inl (u, local) ↦ elim (Result-cases (parse_policy (s.lookup_txt (policy_name u)))) [
        | inr (e, failed) ↦ absurd (not_reported h (ends_without_policy s source a u local failed))
        | inl (policy, read) ↦ elim (authorize_cases u policy) [
          | inr (refuses, r, failed) ↦
              absurd (not_reported h (ends_unauthorized s source a u local policy read failed))
          | inl (consents, granted) ↦
              elim (Result-cases (parse_key s.dalek s.base64 (s.lookup_txt (key_name u)))) [
                | inr (e, failed) ↦ absurd (
                    not_reported h (ends_without_key s source a u local policy read granted failed))
                | inl (key, found) ↦ record {
                  source = source;
                  pending = u;
                  policy = policy;
                  key = key;
                  address = a;
                  local = local;
                  policy_read = read;
                  consents = consents;
                  key_read = found;
                  reported =
                      cc (
                        ap Run.result
                            (ends_with_report s source a u local policy read granted found),
                        h,
                      )
                      ∙ sym (ap report (verify-authorized source u policy key local granted));
                }
              ]
        ]
      ]
    ]
  ]

  report_complete : (line : Bytes) → Reported line → (run s).result ≡ ok line
  report_complete line r =
      let granted = authorize-Consents r.pending r.policy r.consents in
      ap Run.result (
        ends_with_report s r.source r.address r.pending r.local r.policy r.policy_read granted
          r.key_read)
      ∙ ap ok (
          sym (
            r.reported
            ∙ ap report (verify-authorized r.source r.pending r.policy r.key r.local granted)))

  -- The receiver of the crate's documentation prints a line exactly when the source's text is an
  -- address, the local checks pass, the policy record under the token's operator parses and
  -- authorizes the token with its unit, and the key record under its selector and operator parses;
  -- the line is then the report of `verify` with that key and that policy.
  pub receive-Reported_iff : (line : Bytes) → ((run s).result ≡ ok line) ↔ Reported line
  receive-Reported_iff line = (report_sound line, report_complete line)
