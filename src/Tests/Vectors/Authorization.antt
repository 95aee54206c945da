-- ===== src/Tests/Vectors/Authorization.antt =====
-- Authorization cases of the shared vectors, tests/testdata/v1.json.
use swornmail.Prelude.{String, Bool, true, false, none, some, List, [], ◌∷◌}
use swornmail.Prelude.Int.{pos}
use swornmail.Text.{Bytes, codes}
use swornmail.Conformance.{AuthorizationCase}
use swornmail.Tests.Vectors.TokensA.{token_valid_in_prefix}
use swornmail.Tests.Vectors.TokensC.{token_coarse_declared_unit_does_not_widen_observed}

-- A case whose token is refused, and one whose token is verified.
abbrev refusing : String → Bytes → String → String → String → String → AuthorizationCase
refusing name token policy_record source_ip auth_result expect = record {
  name = codes name;
  token = token;
  policy_record = codes policy_record;
  source_ip = codes source_ip;
  now_unix = pos 1786293000;
  auth_result = codes auth_result;
  testing = false;
  expect = some (codes expect);
  operator = [];
  unit = [];
  observed_unit = [];
}

abbrev verifying :
    String → Bytes → String → String → String → Bool → String → String → AuthorizationCase
verifying name token policy_record source_ip auth_result testing unit observed_unit = record {
  name = codes name;
  token = token;
  policy_record = codes policy_record;
  source_ip = codes source_ip;
  now_unix = pos 1786293000;
  auth_result = codes auth_result;
  testing = testing;
  expect = none;
  operator = codes "mailer.example.com";
  unit = codes unit;
  observed_unit = codes observed_unit;
}

abbrev pub authorization : List AuthorizationCase
authorization =
    (verifying "policy_authorizes_exact_prefix" token_valid_in_prefix
      "v=SWORN1; p=2001:db8:f00::/48; u=64" "2001:db8:f00:1234::a:1" "pass" false
      "2001:db8:f00:1234::/64" "2001:db8:f00:1234::/64")
    ∷ (verifying "policy_authorizes_broader_prefix" token_valid_in_prefix
        "v=SWORN1; p=2001:db8::/32; u=64" "2001:db8:f00:1234::a:1" "pass" false
        "2001:db8:f00:1234::/64" "2001:db8:f00:1234::/64")
    ∷ (refusing "policy_narrower_than_token_prefix" token_valid_in_prefix
        "v=SWORN1; p=2001:db8:f00:1200::/56; u=64" "2001:db8:f00:1234::a:1" "permerror"
        "unauthorized_prefix")
    ∷ (refusing "policy_unrelated_prefix" token_valid_in_prefix
        "v=SWORN1; p=2001:db8:bad::/48; u=64" "2001:db8:f00:1234::a:1" "permerror"
        "unauthorized_prefix")
    ∷ (refusing "policy_without_prefixes_authorizes_nothing" token_valid_in_prefix "v=SWORN1; u=64"
        "2001:db8:f00:1234::a:1" "permerror" "unauthorized_prefix")
    ∷ (refusing "policy_unit_mismatch" token_valid_in_prefix "v=SWORN1; p=2001:db8:f00::/48; u=56"
        "2001:db8:f00:1234::a:1" "permerror" "policy_unit_mismatch")
    ∷ (verifying "policy_default_unit_matches_token" token_valid_in_prefix
        "v=SWORN1; p=2001:db8:f00::/48" "2001:db8:f00:1234::a:1" "pass" false
        "2001:db8:f00:1234::/64" "2001:db8:f00:1234::/64")
    ∷ (verifying "testing_policy_is_none_not_pass" token_valid_in_prefix
        "v=SWORN1; p=2001:db8:f00::/48; u=64; t=y" "2001:db8:f00:1234::a:1" "none" true
        "2001:db8:f00:1234::/64" "2001:db8:f00:1234::/64")
    ∷ (verifying "coarse_declared_unit_does_not_widen_observed"
        token_coarse_declared_unit_does_not_widen_observed "v=SWORN1; p=2001:db8::/32; u=32"
        "2001:db8:aaaa:bbbb::5" "pass" false "2001:db8::/32" "2001:db8:aaaa:bbbb::/64")
    ∷ (refusing "local_failure_precedes_authorization" token_valid_in_prefix
        "v=SWORN1; p=2001:db8:f00::/48; u=64" "2001:db8:bad::1" "fail" "off_prefix")
    ∷ []
