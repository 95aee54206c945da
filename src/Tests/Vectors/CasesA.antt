-- ===== src/Tests/Vectors/CasesA.antt =====
-- Token cases of the shared vectors, tests/testdata/v1.json.
use swornmail.Prelude.{List, [], ◌∷◌}
use swornmail.Text.{codes}
use swornmail.Conformance.{TokenCase, expect, expect_any}
use swornmail.Tests.Vectors.Case.{case, naming}
use swornmail.Tests.Vectors.TokensA.{
  token_crit_present, token_empty_kid, token_esp_tenant_valid, token_kid_in_unprotected_only,
  token_lifetime_exact_86400, token_missing_content_type, token_missing_kid,
  token_shared_label_both_buckets, token_tampered_signature, token_unit_absent_defaults_64,
  token_unknown_int_key_ignored, token_untagged_cose, token_valid_in_prefix,
  token_wrong_content_type,
}

abbrev pub cases : List TokenCase
cases =
    (naming "mailer.example.com" "2001:db8:f00:1234::/64" (
      case "valid_in_prefix" token_valid_in_prefix "2001:db8:f00:1234::a:1" 1786293000
        (expect (codes "pass"))))
    ∷ (naming "mailer.example.com" "2001:db8:f00::/64" (
        case "prefix_first_address" token_valid_in_prefix "2001:db8:f00::" 1786293000
          (expect (codes "pass"))))
    ∷ (naming "mailer.example.com" "2001:db8:f00:ffff::/64" (
        case "prefix_last_address" token_valid_in_prefix "2001:db8:f00:ffff:ffff:ffff:ffff:ffff"
          1786293000 (expect (codes "pass"))))
    ∷ (case "iat_exact" token_valid_in_prefix "2001:db8:f00:1234::a:1" 1786291200
        (expect (codes "pass")))
    ∷ (case "exp_exact" token_valid_in_prefix "2001:db8:f00:1234::a:1" 1786294800
        (expect (codes "pass")))
    ∷ (case "skew_iat_minus_300" token_valid_in_prefix "2001:db8:f00:1234::a:1" 1786290900
        (expect (codes "pass")))
    ∷ (case "skew_iat_minus_301" token_valid_in_prefix "2001:db8:f00:1234::a:1" 1786290899
        (expect (codes "not_yet_valid")))
    ∷ (case "skew_exp_plus_300" token_valid_in_prefix "2001:db8:f00:1234::a:1" 1786295100
        (expect (codes "pass")))
    ∷ (case "skew_exp_plus_301" token_valid_in_prefix "2001:db8:f00:1234::a:1" 1786295101
        (expect (codes "expired")))
    ∷ (case "lifetime_exact_86400" token_lifetime_exact_86400 "2001:db8:f00:1234::a:1" 1786293000
        (expect (codes "pass")))
    ∷ (naming "mailer.example.com" "2001:db8:f00::/64" (
        case "esp_tenant_valid" token_esp_tenant_valid "2001:db8:f00::abcd" 1786293000
          (expect (codes "pass"))))
    ∷ (naming "mailer.example.com" "2001:db8:f00:1234::/64" (
        case "unknown_int_key_ignored" token_unknown_int_key_ignored "2001:db8:f00:1234::a:1"
          1786293000 (expect (codes "pass"))))
    ∷ (naming "mailer.example.com" "2001:db8:f00:1234::/64" (
        case "unit_absent_defaults_64" token_unit_absent_defaults_64 "2001:db8:f00:1234::a:1"
          1786293000 (expect (codes "pass"))))
    ∷ (case "off_prefix_adjacent" token_valid_in_prefix "2001:db8:f01::a:1" 1786293000
        (expect (codes "off_prefix")))
    ∷ (case "expired_and_off_prefix" token_valid_in_prefix "2001:db8:f01::a:1" 1786298400
        (expect_any (codes "off_prefix" ∷ codes "expired" ∷ [])))
    ∷ (case "tampered_signature" token_tampered_signature "2001:db8:f00:1234::a:1" 1786293000
        (expect (codes "bad_signature")))
    ∷ (case "src_v4mapped" token_valid_in_prefix "::ffff:203.0.113.5" 1786293000
        (expect (codes "ineligible_source")))
    ∷ (case "src_v4compat" token_valid_in_prefix "::203.0.113.5" 1786293000
        (expect (codes "ineligible_source")))
    ∷ (case "src_nat64_wellknown" token_valid_in_prefix "64:ff9b::203.0.113.5" 1786293000
        (expect (codes "ineligible_source")))
    ∷ (case "src_nat64_local" token_valid_in_prefix "64:ff9b:1::1" 1786293000
        (expect (codes "ineligible_source")))
    ∷ (case "src_teredo" token_valid_in_prefix "2001::1" 1786293000
        (expect_any (codes "ineligible_source" ∷ codes "off_prefix" ∷ [])))
    ∷ (case "src_6to4" token_valid_in_prefix "2002:c000:0204::1" 1786293000
        (expect_any (codes "ineligible_source" ∷ codes "off_prefix" ∷ [])))
    ∷ (case "src_link_local" token_valid_in_prefix "fe80::1" 1786293000
        (expect (codes "ineligible_source")))
    ∷ (case "untagged_cose" token_untagged_cose "2001:db8:f00:1234::a:1" 1786293000
        (expect (codes "malformed")))
    ∷ (case "wrong_content_type" token_wrong_content_type "2001:db8:f00:1234::a:1" 1786293000
        (expect (codes "bad_content_type")))
    ∷ (case "missing_content_type" token_missing_content_type "2001:db8:f00:1234::a:1" 1786293000
        (expect (codes "bad_content_type")))
    ∷ (case "missing_kid" token_missing_kid "2001:db8:f00:1234::a:1" 1786293000
        (expect (codes "bad_kid")))
    ∷ (case "empty_kid" token_empty_kid "2001:db8:f00:1234::a:1" 1786293000
        (expect (codes "bad_kid")))
    ∷ (case "kid_in_unprotected_only" token_kid_in_unprotected_only "2001:db8:f00:1234::a:1"
        1786293000 (expect_any (codes "header_confusion" ∷ codes "bad_kid" ∷ [])))
    ∷ (case "shared_label_both_buckets" token_shared_label_both_buckets "2001:db8:f00:1234::a:1"
        1786293000 (expect (codes "header_confusion")))
    ∷ (case "crit_present" token_crit_present "2001:db8:f00:1234::a:1" 1786293000
        (expect (codes "header_confusion")))
    ∷ []
