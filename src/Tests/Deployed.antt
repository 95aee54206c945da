-- ===== src/Tests/Deployed.antt =====
-- The operator of the shared vector, with written records.
use swornmail.Prelude.{◌≡◌, refl, some, false, true, [], ◌∷◌, arith, inl, if◌then◌else◌}
use swornmail.Prelude.Results.{ok}
use swornmail.Text.{Bytes, codes, bytes_eq}
use swornmail.Address.{is_attestable, is_canonical, mask, contains, overlaps}
use swornmail.Key
use swornmail.Receive.Endings.{run}
use swornmail.Receive.Deployment.{Deployed, deployed_setting, accepted_line, receive-deployed}
use swornmail.Record.Policy.{parse_policy-PolicyValid}
use swornmail.Record.Write.{write_policy}
use swornmail.Record.Keys.{write_key}
use swornmail.Tests.Cbor.{cbor}
use swornmail.Tests.Data.{
  payload, prefix, dalek, base64, source, now, policy, policy_text, key_octets, key_text,
  signature_octets,
}
use swornmail.Tests.Runs.{test_policy}
use swornmail.Tests.Issued.{vector-Presented, test_signed_part}

abbrev policy_at : Bytes
policy_at = codes "_prefixes._sworn.mailer.example.com"

abbrev key_at : Bytes
key_at = codes "2026a._sworn.mailer.example.com"

written_txt : Bytes → Bytes
written_txt qname = if bytes_eq qname policy_at then write_policy policy else write_key key_text

policy_written : written_txt policy_at ≡ write_policy policy
unfolding written_txt bytes_eq
policy_written = refl

key_written : written_txt key_at ≡ write_key key_text
unfolding written_txt bytes_eq
key_written = refl

key_decoded : base64 key_text ≡ some key_octets
unfolding bytes_eq
key_decoded = refl

key_reads : Key.from_bytes dalek (Key.to_bytes dalek key_octets) ≡ some key_octets
unfolding Key.from_bytes Key.to_bytes
key_reads = refl

prefix_attestable : is_attestable prefix ≡ true
unfolding is_attestable is_canonical mask contains overlaps
prefix_attestable = refl

vector-Deployed :
    Deployed cbor dalek base64 written_txt payload
      (codes "2026a")
      signature_octets
      policy
      key_octets
      key_text
unfolding Key.to_bytes
vector-Deployed = record {
  policy_valid = parse_policy-PolicyValid policy_text test_policy;
  policy_published = policy_written;
  unit_agrees = refl;
  covered = inl (prefix_attestable, λ a inside. inside);
  key_visible = omega arith;
  key_encoded = key_decoded;
  key_taken = key_reads;
  key_published = key_written;
  signed = test_signed_part;
}

receive-deployed_example :
    run (
      deployed_setting cbor dalek base64 written_txt payload
        (codes "2026a")
        signature_octets
        policy
        key_octets
        key_text
        source
        now)
    ≡ record { queries = policy_at ∷ key_at ∷ []; result = ok (accepted_line false source) }
receive-deployed_example =
    receive-deployed cbor dalek base64 written_txt payload (codes "2026a") signature_octets policy
      key_octets key_text source now vector-Deployed vector-Presented (omega arith)
