-- ===== src/Tests/Runs.antt =====
-- The shared vectors, run through the verifier.
use swornmail.Prelude.{none, true, false, arith, ◌≡◌, refl, [], ◌∷◌}
use swornmail.Prelude.Int.{ℤ, pos, negsuc}
use swornmail.Prelude.Results.{ok}
use swornmail.Text.{codes, u8_from_str, split_once, split, trim, bytes_eq}
use swornmail.Text.Utf8.{from_utf8}
use swornmail.Text.Ipv6.{parse_ipv6}
use swornmail.Address.{
  new, is_attestable, is_canonical, mask, contains, overlaps, is_eligible_source,
}
use swornmail.Address.Parse.{parse_decimal, parse_prefix}
use swornmail.Record.{
  add_segment, add_tag, check_version, get, read_prefix, parse_policy, parse_key, parse_tags,
  policy_prefixes, read_segments, policy_unit, policy_testing, policy_rua, read_prefixes,
}
use swornmail.Backend.{Value, integer, bytes, pairs}
use swornmail.Payload.{
  from_value, reject_tagged_fields, collect, validate, collect_entry, store, check_fields,
  is_operator_domain, parse_role, decode_prefix, check_bounds, is_label, text_of, bytes_of, uint,
}
use swornmail.Cose.{
  CoseSign1, int, content_type, parse_cose, check_headers, to_be_signed, decode_cbor, cose_of_value,
  cose_of_items, take_bytes, headers_of, read_headers, protected_of, get_header, check_alg,
  check_content_type, check_kid, selector_from_kid,
}
use swornmail.Token.{pass, parse, verify, parse_payload, check_connection}
use swornmail.Key
use swornmail.Record.{authorizes}
use swornmail.Token.{authorize, parse_excluding, pending_of}
use swornmail.Cose.Envelope.{parse_cose_iff}
use swornmail.Token.Claim.{parse_payload_iff}
use swornmail.Token.Local.{LocallyValid, check_connection_iff, parse_excluding_iff}
use swornmail.Cose.Rules.{check_headers_iff}
use swornmail.Token.Verdict.{Accepted, verify_iff}
use swornmail.Tests.Cbor.{cbor, from_reader, captured_map}
use swornmail.Tests.Data.{
  payload, payload_octets, protected_octets, signature_octets, signed_octets, token, dalek, base64,
  source, now, policy_text, policy, key_octets, key_record, pending, accepted, prefix,
}

abbrev pub cose : CoseSign1
cose = record {
  protected_raw = protected_octets;
  protected =
      (int (pos 1), integer (negsuc 7))
      ∷ (int (pos 3), Value.text content_type)
      ∷ (int (pos 4), bytes (codes "2026a"))
      ∷ [];
  unprotected = [];
  payload = payload_octets;
  signature = signature_octets;
}

pub test_cose : parse_cose cbor token ≡ ok cose
unfolding parse_cose decode_cbor cbor from_reader cose_of_value cose_of_items take_bytes headers_of
    read_headers protected_of pairs
test_cose = refl

pub test_headers : check_headers cose ≡ ok (codes "2026a")
unfolding check_headers get_header check_alg check_content_type check_kid selector_from_kid bytes_eq
    from_utf8
test_headers = refl

pub test_payload : parse_payload cbor payload_octets ≡ ok payload
unfolding parse_payload decode_cbor cbor from_reader captured_map reject_tagged_fields from_value
    pairs collect collect_entry store validate check_fields is_operator_domain split parse_role
    bytes_eq decode_prefix new is_attestable is_canonical mask contains overlaps check_bounds
    is_label text_of bytes_of uint
test_payload = refl

pub test_connection : check_connection payload source now [] ≡ ok tt
unfolding check_connection is_eligible_source contains mask
test_connection = refl

pub test_signed : to_be_signed cbor cose ≡ signed_octets
unfolding to_be_signed cbor
test_signed = refl

pub test_policy : parse_policy policy_text ≡ ok policy
unfolding parse_policy policy_prefixes u8_from_str parse_tags read_segments policy_unit
    policy_testing policy_rua parse_prefix read_prefixes split add_segment trim add_tag split_once
    bytes_eq check_version get read_prefix parse_ipv6 parse_decimal new is_attestable is_canonical
    mask contains overlaps
test_policy = refl

pub test_key : parse_key dalek base64 key_record ≡ ok (record { public_key = key_octets })
unfolding parse_key parse_tags read_segments split add_segment trim add_tag split_once bytes_eq
    check_version get Key.from_bytes
test_key = refl

pub test_authorizes : authorizes policy prefix ≡ true
unfolding authorizes is_attestable is_canonical mask contains overlaps
test_authorizes = refl

pub test_authorize :
    authorize pending policy ≡ ok (record { token = pending; testing = false; rua = none })
unfolding authorize authorizes is_attestable is_canonical mask contains overlaps
test_authorize = refl

pub test_key_verify : Key.verify dalek key_octets signed_octets signature_octets ≡ true
unfolding Key.verify bytes_eq
test_key_verify = refl

test_pending : pending ≡ pending_of cbor cose (codes "2026a") payload source
unfolding to_be_signed cbor mask
test_pending = refl

-- The token is valid at each time at which the connection is.
pub valid_at :
    (t : ℤ)
    → check_connection payload source t [] ≡ ok tt
    → LocallyValid cbor token source t [] pending
valid_at t h = record {
  cose = cose;
  selector = codes "2026a";
  payload = payload;
  bounded = omega arith;
  cose_read = (parse_cose_iff cbor token cose).0 test_cose;
  headers = (check_headers_iff cose (codes "2026a")).0 test_headers;
  payload_read = (parse_payload_iff cbor payload_octets payload).0 test_payload;
  connects = (check_connection_iff payload source t []).0 h;
  result = test_pending;
}

pub test_parse_excluding : parse_excluding cbor token source now [] ≡ ok pending
test_parse_excluding =
    (parse_excluding_iff cbor token source now [] pending).1 (valid_at now test_connection)

pub test_parse : parse cbor token source now ≡ ok pending
unfolding parse
test_parse = test_parse_excluding

pub accepted_token : Accepted cbor dalek token key_octets policy source now (pass accepted)
accepted_token = record {
  pending = pending;
  locally_valid = test_parse;
  authorized = test_authorizes;
  unit_agrees = refl;
  signed = test_key_verify;
  reported = refl;
}

pub test_verify : verify cbor dalek token key_octets policy source now ≡ ok (pass accepted)
test_verify =
    (verify_iff cbor dalek token key_octets policy source now (pass accepted)).1 accepted_token
