-- ===== src/Tests/Vectors.antt =====
-- The shared vectors of tests/testdata/v1.json, run through the model.
mod Signatures
mod TokensA
mod TokensB
mod TokensC
mod Case
mod CasesA
mod CasesB
mod Records
mod Authorization
use swornmail.Prelude.{◌≡◌, refl, true, ◌++◌}
use swornmail.Text.{codes, u8_from_str, split, split_once, trim, bytes_eq}
use swornmail.Text.Utf8.{from_utf8}
use swornmail.Text.Ipv6.{parse_ipv6}
use swornmail.Text.Ipv6.Display.{display_ipv6}
use swornmail.Address.{
  new, is_attestable, is_canonical, mask, contains, overlaps, is_eligible_source,
}
use swornmail.Address.Parse.{parse_prefix, parse_decimal}
use swornmail.Address.Display.{display_prefix}
use swornmail.Backend.{pairs}
use swornmail.Reason.{as_str, auth_result}
use swornmail.Key
use swornmail.Payload.{
  from_value, reject_tagged_fields, collect, validate, collect_entry, store, check_fields,
  is_operator_domain, parse_role, decode_prefix, check_bounds, is_label, text_of, bytes_of, uint,
}
use swornmail.Cose.{
  parse_cose, check_headers, to_be_signed, decode_cbor, cose_of_value, cose_of_items, take_bytes,
  headers_of, read_headers, protected_of, get_header, check_alg, check_content_type, check_kid,
  selector_from_kid,
}
use swornmail.Record.{
  parse_policy, policy_prefixes, read_prefixes, read_prefix, policy_unit, policy_testing,
  policy_rua, valid_rua, valid_address, parse_tags, read_segments, add_segment, add_tag,
  check_version, get, parse_key, authorizes,
}
use swornmail.Token.{
  parse, parse_payload, check_connection, parse_excluding, verify_signature_only, finish_signature,
  reason_str, verify, authorize, verify_signature, outcome_result, verified,
}
use swornmail.Conformance.{token_case_matches, record_case_matches, authorization_case_matches}
use swornmail.Conformance.Flows.{
  Vectors, token_cases_match_vectors, record_cases_match_vectors, key_record_and_public_hex_agree,
  authorization_cases_match_vectors, two_phase_flow_names_the_key_record,
  policy_authorization_blocks_key_only_impersonation, testing_policy_can_never_be_reported_as_pass,
  a_coarse_declared_unit_does_not_widen_the_observed_unit,
  configured_ineligible_prefix_rejects_source,
}
use swornmail.Tests.Cbor.{cbor, from_reader, captured_map}
use swornmail.Tests.Data.{key_octets, key_record, policy_text}
use swornmail.Tests.Vectors.Signatures.{recorded, recorded_base64}
use swornmail.Tests.Vectors.CasesA as A
use swornmail.Tests.Vectors.CasesB as B
use swornmail.Tests.Vectors.Records.{records}
use swornmail.Tests.Vectors.Authorization.{authorization}

abbrev json : Vectors
json = record {
  public_key = key_octets;
  key_record = key_record;
  key_record_qname = codes "2026a._sworn.mailer.example.com";
  policy_record = policy_text;
  policy_record_qname = codes "_prefixes._sworn.mailer.example.com";
  cases = A.cases ++ B.cases;
  records = records;
  authorization = authorization;
}

test_token_cases : token_cases_match_vectors cbor recorded json ≡ true
unfolding token_case_matches verify_signature_only parse parse_excluding finish_signature reason_str
    parse_cose decode_cbor cbor from_reader cose_of_value cose_of_items take_bytes headers_of
    read_headers protected_of pairs check_headers get_header check_alg check_content_type check_kid
    selector_from_kid bytes_eq from_utf8 parse_payload captured_map reject_tagged_fields from_value
    collect collect_entry store validate check_fields is_operator_domain split parse_role
    decode_prefix new is_attestable is_canonical mask contains overlaps check_bounds is_label
    text_of bytes_of uint check_connection is_eligible_source to_be_signed Key.verify Key.from_bytes
    parse_ipv6 display_prefix display_ipv6 as_str
test_token_cases = refl

test_records :
    (record_cases_match_vectors recorded recorded_base64 json ≡ true)
    × (key_record_and_public_hex_agree recorded recorded_base64 json ≡ true)
unfolding record_case_matches parse_policy policy_prefixes u8_from_str parse_tags read_segments
    policy_unit policy_testing policy_rua parse_prefix read_prefixes split add_segment trim add_tag
    split_once bytes_eq check_version get read_prefix parse_ipv6 parse_decimal new is_attestable
    is_canonical mask contains overlaps valid_rua valid_address is_operator_domain is_label
    parse_key Key.from_bytes Key.to_bytes
test_records = (refl, refl)

test_policies :
    (authorization_cases_match_vectors cbor recorded json ≡ true)
    × (two_phase_flow_names_the_key_record cbor recorded json ≡ true)
    × (policy_authorization_blocks_key_only_impersonation cbor json ≡ true)
    × (testing_policy_can_never_be_reported_as_pass cbor recorded json ≡ true)
    × (a_coarse_declared_unit_does_not_widen_the_observed_unit cbor recorded json ≡ true)
    × (configured_ineligible_prefix_rejects_source cbor json ≡ true)
unfolding authorization_case_matches verify authorize authorizes verify_signature outcome_result
    verified auth_result parse parse_excluding finish_signature reason_str parse_cose decode_cbor
    cbor from_reader cose_of_value cose_of_items take_bytes headers_of read_headers protected_of
    pairs check_headers get_header check_alg check_content_type check_kid selector_from_kid bytes_eq
    from_utf8 parse_payload captured_map reject_tagged_fields from_value collect collect_entry store
    validate check_fields is_operator_domain split parse_role decode_prefix new is_attestable
    is_canonical mask contains overlaps check_bounds is_label text_of bytes_of uint check_connection
    is_eligible_source to_be_signed Key.verify Key.from_bytes parse_ipv6 display_prefix display_ipv6
    as_str parse_policy policy_prefixes u8_from_str parse_tags read_segments policy_unit
    policy_testing policy_rua parse_prefix read_prefixes add_segment trim add_tag split_once
    check_version get read_prefix parse_decimal valid_rua valid_address
test_policies = (refl, refl, refl, refl, refl, refl)
