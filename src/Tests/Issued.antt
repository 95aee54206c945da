-- ===== src/Tests/Issued.antt =====
-- The shared vector, issued again.
use swornmail.Prelude.{◌≡◌, refl, true, arith, []}
use swornmail.Prelude.Results.{ok}
use swornmail.Text.{codes, split}
use swornmail.Address.{is_attestable, is_canonical, mask, contains, overlaps}
use swornmail.Backend.{pairs}
use swornmail.Key
use swornmail.Payload.{is_operator_domain, is_label, role_str}
use swornmail.Payload.Domain.{is_operator_domain_iff, is_label_iff}
use swornmail.Token.{pass, verify}
use swornmail.Token.Local.{check_connection_iff}
use swornmail.Token.Issue.{
  ClaimValid, Encodes, Presented, issue, signed_part, protected_part, payload_part,
}
use swornmail.Token.Accept.{verify-issue}
use swornmail.Tests.Cbor.{cbor, from_reader, captured_map}
use swornmail.Tests.Data.{
  payload, token, dalek, source, now, policy, key_octets, signature_octets, accepted,
  protected_octets, payload_octets,
}
use swornmail.Tests.Runs.{test_connection, test_authorizes, test_key_verify}

test_protected : protected_part cbor (codes "2026a") ≡ protected_octets
unfolding cbor
test_protected = refl

test_claim : payload_part cbor payload ≡ payload_octets
unfolding cbor role_str
test_claim = refl

-- The model's issuer writes the octets of the vector.
test_issue : issue cbor payload (codes "2026a") signature_octets ≡ token
unfolding cbor role_str
test_issue = refl

test_domain : is_operator_domain (codes "mailer.example.com") ≡ true
unfolding is_operator_domain split is_label
test_domain = refl

test_label : is_label (codes "2026a") ≡ true
unfolding is_label
test_label = refl

claim-Valid : ClaimValid payload
unfolding is_attestable is_canonical mask contains overlaps
claim-Valid = record {
  domain = (is_operator_domain_iff (codes "mailer.example.com")).0 test_domain;
  folded = refl;
  prefix_valid = omega arith;
  attestable = refl;
  iat_fits = omega arith;
  exp_fits = omega arith;
  after = omega arith;
  lifetime = omega arith;
  unit_le = omega arith;
  unit_ge = omega arith;
  tenant_unit = λ e. cc;
}

vector-Encodes : Encodes cbor payload (codes "2026a") signature_octets
unfolding cbor from_reader captured_map role_str pairs
vector-Encodes = record {
  headers_read = refl;
  headers_filled = λ e. cc;
  claim_read = refl;
  claim_captured = refl;
  token_read = refl;
}

pub vector-Presented : Presented cbor payload (codes "2026a") signature_octets source now
unfolding cbor role_str
vector-Presented = record {
  claim = claim-Valid;
  kid_label = (is_label_iff (codes "2026a")).0 test_label;
  encodes = vector-Encodes;
  short = omega arith;
  connects = (check_connection_iff payload source now []).0 test_connection;
}

pub test_signed_part :
    Key.verify dalek key_octets (signed_part cbor payload (codes "2026a")) signature_octets ≡ true
unfolding cbor role_str
test_signed_part = test_key_verify

verify-issue_example :
    verify cbor dalek
      (issue cbor payload (codes "2026a") signature_octets)
      key_octets
      policy
      source
      now
    ≡ ok (pass accepted)
unfolding mask
verify-issue_example =
    verify-issue cbor payload (codes "2026a") signature_octets source now dalek key_octets policy
      vector-Presented test_signed_part test_authorizes refl
