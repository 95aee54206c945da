-- ===== src/Tests/Vectors/CasesB.antt =====
-- Token cases of the shared vectors, tests/testdata/v1.json.
use swornmail.Prelude.{List, [], ◌∷◌}
use swornmail.Text.{codes}
use swornmail.Conformance.{TokenCase, expect, expect_any}
use swornmail.Tests.Vectors.Case.{case, naming, under_small_order}
use swornmail.Tests.Vectors.TokensA.{token_non_canonical_prefix, token_prefix_too_short}
use swornmail.Tests.Vectors.TokensB.{
  token_alg_ed25519_fully_specified, token_attested_prefix_6to4, token_attested_prefix_teredo,
  token_duplicate_map_key, token_esp_tenant_unit_ne_prefix, token_exp_before_iat,
  token_lifetime_over_cap, token_missing_role, token_operator_domain_crlf,
  token_operator_domain_empty_label, token_prefix_and_unit_too_long,
  token_prefix_not_global_unicast, token_tstr_payload_key, token_unit_lt_prefix, token_unit_over_64,
  token_unknown_role,
}
use swornmail.Tests.Vectors.TokensC.{
  token_alg_ed25519_fully_specified_tampered, token_alg_es256_substituted, token_iat_beyond_int64,
  token_iat_bignum, token_iat_tagged_epoch, token_operator_tagged, token_small_order_public_key,
  token_small_order_public_key_ordinary_r, token_small_order_r_component, token_token_at_size_cap,
  token_token_over_size_cap, token_unknown_key_tagged_ignored, token_validity_straddles_int64,
}

abbrev pub cases : List TokenCase
cases =
    (case "non_canonical_prefix" token_non_canonical_prefix "2001:db8:f00:1234::a:1" 1786293000
      (expect (codes "bad_prefix")))
    ∷ (case "prefix_too_short" token_prefix_too_short "2001:db8:f00:1234::a:1" 1786293000
        (expect (codes "bad_prefix")))
    ∷ (case "prefix_and_unit_too_long" token_prefix_and_unit_too_long "2001:db8:f00:1234::a:1"
        1786293000 (expect_any (codes "bad_prefix" ∷ codes "bad_unit" ∷ [])))
    ∷ (case "prefix_not_global_unicast" token_prefix_not_global_unicast "2001:db8:f00:1234::a:1"
        1786293000 (expect (codes "bad_prefix")))
    ∷ (case "attested_prefix_teredo" token_attested_prefix_teredo "2001:db8:f00:1234::a:1"
        1786293000 (expect (codes "bad_prefix")))
    ∷ (case "attested_prefix_6to4" token_attested_prefix_6to4 "2001:db8:f00:1234::a:1" 1786293000
        (expect (codes "bad_prefix")))
    ∷ (case "unit_lt_prefix" token_unit_lt_prefix "2001:db8:f00:1234::a:1" 1786293000
        (expect (codes "bad_unit")))
    ∷ (case "unit_over_64" token_unit_over_64 "2001:db8:f00:1234::a:1" 1786293000
        (expect (codes "bad_unit")))
    ∷ (case "esp_tenant_unit_ne_prefix" token_esp_tenant_unit_ne_prefix "2001:db8:f00:1234::a:1"
        1786293000 (expect (codes "bad_unit")))
    ∷ (case "exp_before_iat" token_exp_before_iat "2001:db8:f00:1234::a:1" 1786293000
        (expect_any (codes "bad_validity" ∷ codes "not_yet_valid" ∷ codes "expired" ∷ [])))
    ∷ (case "lifetime_over_cap" token_lifetime_over_cap "2001:db8:f00:1234::a:1" 1786293000
        (expect (codes "lifetime_too_long")))
    ∷ (case "unknown_role" token_unknown_role "2001:db8:f00:1234::a:1" 1786293000
        (expect (codes "bad_role")))
    ∷ (case "missing_role" token_missing_role "2001:db8:f00:1234::a:1" 1786293000
        (expect (codes "malformed")))
    ∷ (case "operator_domain_crlf" token_operator_domain_crlf "2001:db8:f00:1234::a:1" 1786293000
        (expect (codes "malformed")))
    ∷ (case "operator_domain_empty_label" token_operator_domain_empty_label "2001:db8:f00:1234::a:1"
        1786293000 (expect (codes "malformed")))
    ∷ (case "tstr_payload_key" token_tstr_payload_key "2001:db8:f00:1234::a:1" 1786293000
        (expect (codes "malformed")))
    ∷ (case "duplicate_map_key" token_duplicate_map_key "2001:db8:f00:1234::a:1" 1786293000
        (expect (codes "malformed")))
    ∷ (naming "mailer.example.com" "2001:db8:f00:1234::/64" (
        case "alg_ed25519_fully_specified" token_alg_ed25519_fully_specified
          "2001:db8:f00:1234::a:1" 1786293000 (expect (codes "pass"))))
    ∷ (case "alg_ed25519_fully_specified_tampered" token_alg_ed25519_fully_specified_tampered
        "2001:db8:f00:1234::a:1" 1786293000 (expect (codes "bad_signature")))
    ∷ (case "alg_es256_substituted" token_alg_es256_substituted "2001:db8:f00:1234::a:1" 1786293000
        (expect (codes "header_confusion")))
    ∷ (under_small_order (
        case "small_order_public_key" token_small_order_public_key "2001:db8:f00:1234::a:1"
          1786293000 (expect (codes "bad_signature"))))
    ∷ (under_small_order (
        case "small_order_public_key_ordinary_r" token_small_order_public_key_ordinary_r
          "2001:db8:f00:1234::a:1" 1786293000 (expect (codes "bad_signature"))))
    ∷ (case "small_order_r_component" token_small_order_r_component "2001:db8:f00:1234::a:1"
        1786293000 (expect (codes "bad_signature")))
    ∷ (naming "mailer.example.com" "2001:db8:f00:1234::/64" (
        case "token_at_size_cap" token_token_at_size_cap "2001:db8:f00:1234::a:1" 1786293000
          (expect (codes "pass"))))
    ∷ (case "token_over_size_cap" token_token_over_size_cap "2001:db8:f00:1234::a:1" 1786293000
        (expect (codes "malformed")))
    ∷ (case "operator_tagged" token_operator_tagged "2001:db8:f00:1234::a:1" 1786293000
        (expect (codes "malformed")))
    ∷ (case "iat_tagged_epoch" token_iat_tagged_epoch "2001:db8:f00:1234::a:1" 1786293000
        (expect (codes "malformed")))
    ∷ (case "iat_bignum" token_iat_bignum "2001:db8:f00:1234::a:1" 1786293000
        (expect (codes "malformed")))
    ∷ (naming "mailer.example.com" "2001:db8:f00:1234::/64" (
        case "unknown_key_tagged_ignored" token_unknown_key_tagged_ignored "2001:db8:f00:1234::a:1"
          1786293000 (expect (codes "pass"))))
    ∷ (case "iat_beyond_int64" token_iat_beyond_int64 "2001:db8:f00:1234::a:1" 1786293000
        (expect (codes "not_yet_valid")))
    ∷ (case "validity_straddles_int64" token_validity_straddles_int64 "2001:db8:f00:1234::a:1"
        1786293000 (expect (codes "not_yet_valid")))
    ∷ []
