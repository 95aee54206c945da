-- ===== src/Conformance/Flows.antt =====
-- The tests of tests/vectors.rs, each true if all that it asserts holds and nothing that it unwraps
-- is absent.
use swornmail.Prelude.{
  ℕ, Bool, false, ◌&&◌, Option, none, some, List, [], ◌∷◌, ◌==◌, leb, all, length, if◌then◌else◌,
}
use swornmail.Prelude.Asserts.{unwrap, unwrap_ok, unwrap_err, is_ok}
use swornmail.Text.{Bytes, codes, bytes_eq}
use swornmail.Text.Ipv6.{parse_ipv6}
use swornmail.Address.{Ipv6Prefix}
use swornmail.Address.Parse.{parse_prefix}
use swornmail.Address.Display.{display_prefix}
use swornmail.Reason.{Reason, as_str, unauthorized_prefix, policy_unit_mismatch, ineligible_source}
use swornmail.Backend.{Ciborium, Dalek, Base64}
use swornmail.Key
use swornmail.Record.{KeyRecord, parse_key, parse_policy}
use swornmail.Receive.{policy_qname, key_qname}
use swornmail.Token.{
  Verified, Outcome, pass, observe_only, outcome_result, verified, observed_unit_len, operator_of,
  authorized_operator, authorized_selector, parse, parse_excluding, authorize, verify_signature,
  verify,
}
use swornmail.Conformance.{
  TokenCase, token_case_matches, RecordCase, record_case_matches, AuthorizationCase,
  authorization_case_matches,
}

-- The members of the file that the tests read.
pub record Vectors : Type 0 where
  pub public_key : Bytes
  pub key_record : Bytes
  pub key_record_qname : Bytes
  pub policy_record : Bytes
  pub policy_record_qname : Bytes
  pub cases : List TokenCase
  pub records : List RecordCase
  pub authorization : List AuthorizationCase

-- `.find(|c| c["name"] == "valid_in_prefix")`
abbrev pub find_case : Bytes → List TokenCase → Option TokenCase
find_case name [] = none
find_case name (case ∷ cases) =
    if bytes_eq (TokenCase.name case) name then some case else find_case name cases

-- the case that the single tests take, with its source
abbrev pub valid_case : Vectors → (TokenCase → ℕ → Bool) → Bool
valid_case json asserts =
    unwrap (find_case (codes "valid_in_prefix") json.cases)
      (λ case. unwrap (parse_ipv6 (TokenCase.source_ip case)) (λ source. asserts case source))

-- Reasons have different strings.
abbrev pub is_reason : Reason → Reason → Bool
is_reason want got = bytes_eq (as_str got) (as_str want)

module _ (dalek : Dalek) where
  abbrev pub operator_key : Vectors → Option (Key.Ed25519PublicKey dalek)
  operator_key json = Key.from_bytes dalek json.public_key

module _ (dalek : Dalek) (base64 : Base64) where
  abbrev pub record_cases_match_vectors : Vectors → Bool
  record_cases_match_vectors json =
      leb 14 (length json.records) && all (record_case_matches dalek base64) json.records

  abbrev pub key_record_and_public_hex_agree : Vectors → Bool
  key_record_and_public_hex_agree json =
      unwrap_ok (parse_key dalek base64 json.key_record) (λ record_read.
        unwrap (operator_key dalek json) (λ key.
          bytes_eq (Key.to_bytes dalek (KeyRecord.public_key record_read))
            (Key.to_bytes dalek key)))

module _ (cbor : Ciborium) where
  -- `parse(…).unwrap().authorize(&policy).unwrap_err()`, under a policy that is given as a text
  abbrev pub refused_under : Vectors → Bytes → Reason → Bool
  refused_under json policy_txt reason = valid_case json (λ case source.
      unwrap_ok (parse_policy policy_txt) (λ policy.
        unwrap_ok (parse cbor (TokenCase.token case) source (TokenCase.now_unix case))
          (λ pending. unwrap_err (authorize pending policy) (is_reason reason))))

  abbrev pub policy_authorization_blocks_key_only_impersonation : Vectors → Bool
  policy_authorization_blocks_key_only_impersonation json =
      refused_under json (codes "v=SWORN1; p=2001:db8:bad::/48; u=64") unauthorized_prefix
      && refused_under json (codes "v=SWORN1; p=2001:db8:f00::/48; u=56") policy_unit_mismatch

  abbrev pub configured_ineligible_prefix_rejects_source : Vectors → Bool
  configured_ineligible_prefix_rejects_source json =
      unwrap (find_case (codes "valid_in_prefix") json.cases) (λ case.
        unwrap (parse_ipv6 (codes "2001:db8:f00:1234::a:1")) (λ inside.
          unwrap (parse_ipv6 (codes "2001:db8:f00:abcd::1")) (λ elsewhere.
            unwrap_ok (parse_prefix (codes "2001:db8:f00:1234::/64")) (λ prefix.
              let token = TokenCase.token case in
              let now = TokenCase.now_unix case in
              unwrap_err (parse_excluding cbor token inside now (prefix ∷ []))
                (is_reason ineligible_source)
              && is_ok (parse_excluding cbor token elsewhere now (prefix ∷ []))
              && is_ok (parse cbor token inside now)))))

module _ (cbor : Ciborium) (dalek : Dalek) where
  abbrev pub token_cases_match_vectors : Vectors → Bool
  token_cases_match_vectors json =
      unwrap (operator_key dalek json)
        (λ key. leb 62 (length json.cases) && all (token_case_matches cbor dalek key) json.cases)

  abbrev pub authorization_cases_match_vectors : Vectors → Bool
  authorization_cases_match_vectors json = unwrap (operator_key dalek json) (λ key.
      leb 1 (length json.authorization)
      && all (authorization_case_matches cbor dalek key) json.authorization)

  -- the unit of a pass, compared with the case's; false for an observe-only outcome
  abbrev pub passes_with_unit : Option Bytes → Outcome → Bool
  passes_with_unit want (pass v) =
      unwrap want (bytes_eq (display_prefix v.unit))
      && bytes_eq (outcome_result (pass v)) (codes "pass")
  passes_with_unit want (observe_only v) = false

  abbrev pub two_phase_flow_names_the_key_record : Vectors → Bool
  two_phase_flow_names_the_key_record json = valid_case json (λ case source.
      unwrap_ok (parse cbor (TokenCase.token case) source (TokenCase.now_unix case)) (λ pending.
        unwrap_ok (parse_policy json.policy_record) (λ policy.
          bytes_eq (policy_qname (operator_of pending)) json.policy_record_qname
          && unwrap_ok (authorize pending policy) (λ authorized.
            bytes_eq (key_qname (authorized_selector authorized) (authorized_operator authorized))
              json.key_record_qname
            && unwrap (operator_key dalek json) (λ key.
              unwrap_ok (verify_signature dalek authorized key)
                (passes_with_unit (TokenCase.unit case)))))))

  -- `verify(…).unwrap()` of the valid case under a policy
  abbrev pub verified_under : Vectors → Bytes → (TokenCase → Outcome → Bool) → Bool
  verified_under json policy_txt asserts = valid_case json (λ case source.
      unwrap_ok (parse_policy policy_txt) (λ policy. unwrap (operator_key dalek json) (λ key.
        unwrap_ok
          (verify cbor dalek (TokenCase.token case) key policy source (TokenCase.now_unix case))
          (asserts case))))

  abbrev pub observes_with_rua : Outcome → Bool
  observes_with_rua (pass v) = false
  observes_with_rua (observe_only v) =
      bytes_eq (outcome_result (observe_only v)) (codes "none")
      && v.testing
      && unwrap v.rua (bytes_eq (codes "mailto:a@b.example"))

  abbrev pub testing_policy_can_never_be_reported_as_pass : Vectors → Bool
  testing_policy_can_never_be_reported_as_pass json =
      verified_under json (codes "v=SWORN1; p=2001:db8:f00::/48; u=64; t=y; rua=mailto:a@b.example")
        (λ case outcome. observes_with_rua outcome)

  abbrev pub a_coarse_declared_unit_does_not_widen_the_observed_unit : Vectors → Bool
  a_coarse_declared_unit_does_not_widen_the_observed_unit json =
      verified_under json (codes "v=SWORN1; p=2001:db8:f00::/48; u=64") (λ case outcome.
        let observed = Verified.observed_unit (verified outcome) in
        Ipv6Prefix.len observed == observed_unit_len
        && unwrap (TokenCase.unit case) (bytes_eq (display_prefix observed)))
