-- ===== src/Conformance.antt =====
-- tests/vectors.rs: what each case of the shared vectors asserts of the crate. The JSON file is read
-- by a library; a case is a record of the members that the tests read.
pub mod Flows
use swornmail.Prelude.{
  ℕ, Bool, true, false, not, ◌&&◌, ◌||◌, Option, none, some, List, [], ◌∷◌, ◌++◌, any, all,
  if◌then◌else◌,
}
use swornmail.Prelude.Int.{ℤ}
use swornmail.Prelude.Results.{Result, ok, err}
use swornmail.Prelude.Asserts.{is_ok}
use swornmail.Text.{Bytes, codes, bytes_eq}
use swornmail.Text.Ipv6.{parse_ipv6}
use swornmail.Address.{Ipv6Prefix}
use swornmail.Address.Display.{display_prefix}
use swornmail.Reason.{Reason, auth_result}
use swornmail.Backend.{Ciborium, Dalek, Base64}
use swornmail.Key
use swornmail.Record.{RecordError, PolicyRecord, parse_key, parse_policy}
use swornmail.Token.{
  Verified, Outcome, pass, observe_only, outcome_result, verified, reason_str, unit_error, verify,
  verify_signature_only,
}

-- `expect` or `expect_any`
pub data Expectation : Type 0 where
  expect : Bytes → Expectation
  expect_any : List Bytes → Expectation

abbrev pub meets : Bytes → Expectation → Bool
meets got (expect want) = bytes_eq got want
meets got (expect_any want) = any (bytes_eq got) want

-- an optional member of a case, compared with what the crate gives
abbrev pub agrees : Option Bytes → Bytes → Bool
agrees none got = true
agrees (some want) got = bytes_eq got want

-- A member of `cases`; its three encodings of the token are one list of octets.
pub record TokenCase : Type 0 where
  pub name : Bytes
  pub token : Bytes
  pub source_ip : Bytes
  pub now_unix : ℤ
  pub expectation : Expectation
  pub operator : Option Bytes
  pub unit : Option Bytes
  pub public_key : Option Bytes

module _ (cbor : Ciborium) (dalek : Dalek) where
  -- `case_key.as_ref().unwrap_or(&key)`; `none` where the key of the case is no point
  abbrev pub case_key :
      Option Bytes → Key.Ed25519PublicKey dalek → Option (Key.Ed25519PublicKey dalek)
  case_key none key = some key
  case_key (some raw) key = Key.from_bytes dalek raw

  abbrev pub verified_matches : TokenCase → Result Reason Verified → Bool
  verified_matches case (err reason) = true
  verified_matches case (ok v) =
      agrees case.operator v.operator && agrees case.unit (display_prefix v.unit)

  abbrev pub outcome_matches : TokenCase → Result Reason Verified → Bool
  outcome_matches case outcome =
      meets (reason_str outcome) case.expectation && verified_matches case outcome

  abbrev pub token_case_with : TokenCase → Option ℕ → Option (Key.Ed25519PublicKey dalek) → Bool
  token_case_with case (some source) (some key) =
      outcome_matches case (verify_signature_only cbor dalek case.token key source case.now_unix)
  token_case_with _ _ _ = false

  -- one round of the loop in `token_cases_match_vectors`
  unfoldable pub token_case_matches : Key.Ed25519PublicKey dalek → TokenCase → Bool
  token_case_matches key case =
      token_case_with case (parse_ipv6 case.source_ip) (case_key case.public_key key)

-- `kind` of a record case
pub data RecordKind : Type 0 where
  key_kind policy_kind : RecordKind

-- A member of `records`; `accepted` is whether `expect` is `ok`.
pub record RecordCase : Type 0 where
  pub name : Bytes
  pub kind : RecordKind
  pub txt : Bytes
  pub accepted : Bool

abbrev pub same_answer : Bool → Bool → Bool
same_answer true b = b
same_answer false b = not b

module _ (dalek : Dalek) (base64 : Base64) where
  abbrev pub record_is_ok : RecordKind → Bytes → Bool
  record_is_ok key_kind txt = is_ok (parse_key dalek base64 txt)
  record_is_ok policy_kind txt = is_ok (parse_policy txt)

  -- one round of the loop in `record_cases_match_vectors`
  unfoldable pub record_case_matches : RecordCase → Bool
  record_case_matches case = same_answer case.accepted (record_is_ok case.kind case.txt)

-- A member of `authorization`.
pub record AuthorizationCase : Type 0 where
  pub name : Bytes
  pub token : Bytes
  pub policy_record : Bytes
  pub source_ip : Bytes
  pub now_unix : ℤ
  pub auth_result : Bytes
  pub testing : Bool
  pub expect : Option Bytes
  pub operator : Bytes
  pub unit : Bytes
  pub observed_unit : Bytes

abbrev pub kept_apart : Bool → Outcome → Bool
kept_apart testing (pass v) = not testing
kept_apart testing (observe_only v) = testing

abbrev pub verified_as : AuthorizationCase → Verified → Bool
verified_as case v =
    bytes_eq v.operator case.operator
    && bytes_eq (display_prefix v.unit) case.unit
    && bytes_eq (display_prefix v.observed_unit) case.observed_unit

abbrev pub authorization_matches : AuthorizationCase → Result Reason Outcome → Bool
authorization_matches case (ok o) =
    bytes_eq (outcome_result o) case.auth_result
    && kept_apart case.testing o
    && verified_as case (verified o)
authorization_matches case (err reason) =
    bytes_eq (auth_result reason) case.auth_result
    && agrees case.expect (reason_str (unit_error reason))

module _ (cbor : Ciborium) (dalek : Dalek) where
  abbrev pub authorization_with :
      Key.Ed25519PublicKey dalek
      → AuthorizationCase
      → Option ℕ
      → Result RecordError PolicyRecord
      → Bool
  authorization_with key case (some source) (ok policy) =
      authorization_matches case (verify cbor dalek case.token key policy source case.now_unix)
  authorization_with _ _ _ _ = false

  -- one round of the loop in `authorization_cases_match_vectors`
  unfoldable pub authorization_case_matches : Key.Ed25519PublicKey dalek → AuthorizationCase → Bool
  authorization_case_matches key case =
      authorization_with key case (parse_ipv6 case.source_ip) (parse_policy case.policy_record)
