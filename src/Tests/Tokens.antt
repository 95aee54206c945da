-- ===== src/Tests/Tokens.antt =====
-- The theorems on tokens, at the shared vector.
use swornmail.Prelude.{◌≡◌, refl, ◌↔◌, false, none, arith, [], ◌∷◌}
use swornmail.Prelude.Int.{ℤ, pos, negsuc, ◌≤ℤ◌, ◌+ℤ◌}
use swornmail.Prelude.Results.{ok, err}
use swornmail.Text.{codes}
use swornmail.Address.{contains, mask, is_eligible_source}
use swornmail.Reason.{expired, bad_signature, header_confusion}
use swornmail.Cose.{parse_cose, check_headers, get_header, CoseSign1, int}
use swornmail.Cose.Refusals.{Broken, check_headers-err_iff}
use swornmail.Backend.{integer}
use swornmail.Token.{
  Verified, pass, verified, check_connection, parse_payload, parse_excluding, parse, verify,
  verify_signature_only,
}
use swornmail.Cose.Rules.{HeaderRules, check_headers_iff}
use swornmail.Cose.Envelope.{Envelope, parse_cose_iff}
use swornmail.Token.Claim.{ClaimOf, parse_payload_iff}
use swornmail.Token.Local.{LocallyValid, parse_excluding_iff}
use swornmail.Token.Window.{parse-window}
use swornmail.Token.Reputation.{UnitsNest, parse_excluding-UnitsNest}
use swornmail.Token.Stages.{RefusedLocally, parse_excluding-err_iff}
use swornmail.Token.Verdict.{Accepted, verify_iff}
use swornmail.Token.Refusals.{Refused, WrongSignature, verify-bad_signature_iff, verify-err_iff}
use swornmail.Token.Diagnostic.{verify-verify_signature_only}
use swornmail.Token.Attested.{QueryNames, Attested, parse_excluding-QueryNames, verify-Attested}
use swornmail.Tests.Cbor.{cbor, cbor-DecodesOctets}
use swornmail.Tests.Data.{
  token, source, now, dalek, key_octets, policy, policy_text, pending, payload, payload_octets,
  accepted,
}
use swornmail.Tests.Runs.{
  cose, valid_at, test_policy, test_parse, test_parse_excluding, test_verify,
}

-- The last second at which the token is accepted.
abbrev later : ℤ
later = pos 1786295100

test_later : check_connection payload source later [] ≡ ok tt
unfolding check_connection is_eligible_source contains mask
test_later = refl

test_parse_at_end : parse cbor token source later ≡ ok pending
unfolding parse
test_parse_at_end =
    (parse_excluding_iff cbor token source later [] pending).1 (valid_at later test_later)

check_headers_iff_example :
    (check_headers cose ≡ ok (codes "2026a")) ↔ HeaderRules cose (codes "2026a")
check_headers_iff_example = check_headers_iff cose (codes "2026a")

parse_cose_iff_example : (parse_cose cbor token ≡ ok cose) ↔ Envelope cbor token cose
parse_cose_iff_example = parse_cose_iff cbor token cose

parse_payload_iff_example :
    (parse_payload cbor payload_octets ≡ ok payload) ↔ ClaimOf cbor payload_octets payload
parse_payload_iff_example = parse_payload_iff cbor payload_octets payload

parse_excluding_iff_example :
    (parse_excluding cbor token source now [] ≡ ok pending)
    ↔ LocallyValid cbor token source now [] pending
parse_excluding_iff_example = parse_excluding_iff cbor token source now [] pending

parse-window_example : later ≤ℤ now +ℤ pos 87000
parse-window_example = parse-window cbor token source source now later test_parse test_parse_at_end

parse_excluding-UnitsNest_example : UnitsNest pending source
parse_excluding-UnitsNest_example =
    parse_excluding-UnitsNest cbor cbor-DecodesOctets token source now [] (omega arith)
      test_parse_excluding

parse_excluding-QueryNames_example : QueryNames (codes "mailer.example.com") (codes "2026a")
parse_excluding-QueryNames_example =
    parse_excluding-QueryNames cbor token source now [] test_parse_excluding

verify_iff_example :
    (verify cbor dalek token key_octets policy source now ≡ ok (pass accepted))
    ↔ Accepted cbor dalek token key_octets policy source now (pass accepted)
verify_iff_example = verify_iff cbor dalek token key_octets policy source now (pass accepted)

verify-err_iff_example :
    (verify cbor dalek token key_octets policy source (pos 1786295101) ≡ err expired)
    ↔ Refused cbor dalek token key_octets policy source (pos 1786295101) expired
verify-err_iff_example =
    verify-err_iff cbor dalek token key_octets policy source (pos 1786295101) expired

verify-bad_signature_iff_example :
    (verify cbor dalek token (0 ∷ []) policy source now ≡ err bad_signature)
    ↔ WrongSignature cbor dalek token (0 ∷ []) policy source now
verify-bad_signature_iff_example =
    verify-bad_signature_iff cbor dalek token (0 ∷ []) policy source now

verify-verify_signature_only_example :
    (v : Verified) × (verify_signature_only cbor dalek token key_octets source now ≡ ok v)
    × (verified (pass accepted) ≡ record v { testing = false; rua = none })
verify-verify_signature_only_example =
    verify-verify_signature_only cbor dalek token key_octets source now policy (pass accepted)
      test_verify

verify-Attested_example : Attested cbor token source now policy (verified (pass accepted))
verify-Attested_example =
    verify-Attested cbor token source now cbor-DecodesOctets dalek key_octets (omega arith)
      policy_text policy (pass accepted) test_policy test_verify

parse_excluding-err_iff_example :
    (parse_excluding cbor token source (pos 1786295101) [] ≡ err expired)
    ↔ RefusedLocally cbor token source (pos 1786295101) [] expired
parse_excluding-err_iff_example =
    parse_excluding-err_iff cbor token source (pos 1786295101) [] expired

-- The headers of the vector with the algorithm outside.
abbrev moved : CoseSign1
moved = record cose { unprotected = (int (pos 1), integer (negsuc 7)) ∷ [] }

check_headers-err_iff_example :
    (check_headers moved ≡ err header_confusion) ↔ Broken moved header_confusion
check_headers-err_iff_example = check_headers-err_iff moved header_confusion

test_moved : check_headers moved ≡ err header_confusion
unfolding check_headers get_header
test_moved = refl
