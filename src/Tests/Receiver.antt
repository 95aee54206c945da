-- ===== src/Tests/Receiver.antt =====
-- A run of the receiver on the shared vector.
use swornmail.Prelude.{
  ◌≡◌, ◌↔◌, refl, ap, ◌∙◌, false, none, some, [], ◌∷◌, All, if◌then◌else◌, ◌++◌, ◌<◌, arith,
}
use swornmail.Prelude.Results.{ok}
use swornmail.Text.{Bytes, codes, bytes_eq}
use swornmail.Text.Ipv6.{parse_ipv6}
use swornmail.Text.Ipv6.Display.{display_ipv6}
use swornmail.Address.Display.{display_prefix}
use swornmail.Key
use swornmail.Token.{verify_signature, finish_signature, max_token_len}
use swornmail.Receive.{
  report, sworn_version, dns_label, default_unit_prefix_len, recommended_token_bytes_classical,
  max_token_lifetime_secs,
}
use swornmail.Payload.{max_lifetime_secs, default_unit}
use swornmail.Record.{version}
use swornmail.Receive.Endings.{Setting, run, ends_with_report}
use swornmail.Receive.Order.{Order, receive-Order}
use swornmail.Receive.Outcomes.{Reported, receive-Reported_iff}
use swornmail.Receive.Names.{QueryName, receive-QueryName}
use swornmail.Tests.Cbor.{cbor}
use swornmail.Tests.Data.{
  token, key_octets, dalek, base64, now, source, pending, policy, policy_text, key_record,
}
use swornmail.Tests.Runs.{test_parse, test_policy, test_authorize, test_key}

abbrev policy_at : Bytes
policy_at = codes "_prefixes._sworn.mailer.example.com"

abbrev key_at : Bytes
key_at = codes "2026a._sworn.mailer.example.com"

-- A resolver with the two records of the operator.
lookup_txt : Bytes → Bytes
lookup_txt qname =
    if bytes_eq qname policy_at
    then policy_text
    else if bytes_eq qname key_at
    then key_record
    else []

abbrev setting : Setting
setting = record {
  lookup_txt = lookup_txt;
  cbor = cbor;
  dalek = dalek;
  base64 = base64;
  token = token;
  source_str = codes "2001:db8:f00:1234:0:a:0:1";
  now = now;
}

abbrev line : Bytes
line = codes "sworn=pass unit=2001:db8:f00:1234::/64"

test_source : parse_ipv6 (codes "2001:db8:f00:1234:0:a:0:1") ≡ some source
unfolding parse_ipv6
test_source = refl

policy_found : lookup_txt policy_at ≡ policy_text
unfolding lookup_txt bytes_eq
policy_found = refl

key_found : lookup_txt key_at ≡ key_record
unfolding lookup_txt bytes_eq
key_found = refl

test_line :
    report
      (verify_signature dalek (record { token = pending; testing = false; rua = none }) key_octets)
    ≡ line
unfolding report verify_signature finish_signature Key.verify bytes_eq display_prefix display_ipv6
test_line = refl

test_run : run setting ≡ record { queries = policy_at ∷ key_at ∷ []; result = ok line }
test_run =
    ends_with_report setting source test_source pending test_parse policy
      (rw policy_found test_policy) test_authorize (rw key_found test_key)
    ∙ ap (λ l. record { queries = policy_at ∷ key_at ∷ []; result = ok l }) test_line

receive-Order_example : Order setting (run setting).queries
receive-Order_example = receive-Order setting

receive-Reported_iff_example : ((run setting).result ≡ ok line) ↔ Reported setting line
receive-Reported_iff_example = receive-Reported_iff setting line

receive-QueryName_example : All QueryName (run setting).queries
receive-QueryName_example = receive-QueryName setting

-- The constants of the crate root are those of its modules.
test_constants :
    (sworn_version ≡ version)
    × (max_token_lifetime_secs ≡ max_lifetime_secs)
    × (default_unit_prefix_len ≡ default_unit)
    × (policy_at ≡ codes "_prefixes." ++ dns_label ++ codes ".mailer.example.com")
    × (recommended_token_bytes_classical < max_token_len)
test_constants = (refl, refl, refl, refl, omega arith)
