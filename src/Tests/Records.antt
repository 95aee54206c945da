-- ===== src/Tests/Records.antt =====
-- Reasons, payloads and records, at concrete values.
use swornmail.Prelude.{◌≡◌, refl, ◌↔◌, true, some, arith, List, [], ◌∷◌, Any}
use swornmail.Prelude.Int.{pos}
use swornmail.Prelude.Results.{ok, err}
use swornmail.Text.{codes, split, bytes_eq}
use swornmail.Address.{is_attestable, is_canonical, mask, contains, overlaps, new}
use swornmail.Address.Ranges.{Covers}
use swornmail.Backend.{Value, Entries, integer, bytes, entry, no_entries, pairs}
use swornmail.Dns.{IsDomain}
use swornmail.Payload.{
  from_value, collect, collect_entry, store, validate, check_fields, is_operator_domain, is_label,
  parse_role, decode_prefix, check_bounds, text_of, bytes_of, uint,
}
use swornmail.Payload.Domain.{is_operator_domain_iff}
use swornmail.Payload.Fields.{Distinct, keys}
use swornmail.Payload.Order.{SameFields, from_value-SameFields}
use swornmail.Payload.Claims.{Claims, from_value_iff}
use swornmail.Payload.Wire.{prefix_octets}
use swornmail.Record.{valid_rua, Tag, parse_tags, parse_policy, parse_key, authorizes}
use swornmail.Record.Policy.{PolicyValid, parse_policy-PolicyValid, authorizes_iff}
use swornmail.Record.Published.{Says, parse_policy_iff}
use swornmail.Payload.Errors.{Wrong, from_value-err_iff}
use swornmail.Reason.{bad_role}
use swornmail.Record.Write.{write_policy, parse_policy-write_policy}
use swornmail.Record.Rua.{IsReport, valid_rua_iff}
use swornmail.Record.Keys.{KeyPublished, parse_key_iff}
use swornmail.Tests.Data.{
  prefix, unit_prefix, policy, policy_text, payload, dalek, base64, key_record, key_octets,
}
use swornmail.Tests.Runs.{test_policy}

is_operator_domain_iff_example :
    (is_operator_domain (codes "mailer.example.com") ≡ true) ↔ IsDomain (codes "mailer.example.com")
is_operator_domain_iff_example = is_operator_domain_iff (codes "mailer.example.com")

abbrev payload_map : Entries
payload_map = entry (integer (pos 1)) (Value.text (codes "Mailer.Example.com")) (
    entry (integer (pos 2)) (bytes (prefix_octets prefix)) (
      entry (integer (pos 4)) (integer (pos 1786291200)) (
        entry (integer (pos 5)) (integer (pos 1786294800)) (
          entry (integer (pos 6)) (Value.text (codes "mta"))
            (entry (integer (pos 9)) Value.null no_entries)))))

test_from_value : from_value (Value.map payload_map) ≡ ok payload
unfolding from_value pairs collect collect_entry store validate check_fields is_operator_domain
    split parse_role bytes_eq decode_prefix new is_attestable is_canonical mask contains overlaps
    check_bounds is_label text_of bytes_of uint
test_from_value = refl

from_value_iff_example :
    (from_value (Value.map payload_map) ≡ ok payload) ↔ Claims (Value.map payload_map) payload
from_value_iff_example = from_value_iff (Value.map payload_map) payload

-- The map with a role that the draft does not know.
abbrev odd_map : Value
odd_map = Value.map (
    entry (integer (pos 1)) (Value.text (codes "Mailer.Example.com")) (
      entry (integer (pos 2)) (bytes (prefix_octets prefix)) (
        entry (integer (pos 4)) (integer (pos 1786291200)) (
          entry (integer (pos 5)) (integer (pos 1786294800))
            (entry (integer (pos 6)) (Value.text (codes "spammer")) no_entries)))))

from_value-err_iff_example : (from_value odd_map ≡ err bad_role) ↔ Wrong odd_map bad_role
from_value-err_iff_example = from_value-err_iff odd_map bad_role

test_odd_map : from_value odd_map ≡ err bad_role
unfolding from_value pairs collect collect_entry store validate check_fields is_operator_domain
    split parse_role bytes_eq is_label text_of bytes_of uint
test_odd_map = refl

abbrev tags : List Tag
tags = (codes "p", codes "2001:db8:f00::/48") ∷ (codes "u", codes "64") ∷ []

parse_policy-PolicyValid_example : PolicyValid policy
parse_policy-PolicyValid_example = parse_policy-PolicyValid policy_text test_policy

parse_policy_iff_example :
    (parse_policy policy_text ≡ ok policy)
    ↔ ((ts : List Tag) × (parse_tags policy_text ≡ ok ts) × Says ts policy)
parse_policy_iff_example = parse_policy_iff policy_text policy

parse_policy-write_policy_example : parse_policy (write_policy policy) ≡ ok policy
parse_policy-write_policy_example =
    parse_policy-write_policy policy (parse_policy-PolicyValid policy_text test_policy)

authorizes_iff_example : (authorizes policy unit_prefix ≡ true) ↔ (
    (is_attestable unit_prefix ≡ true)
    × Any (λ allowed. (is_attestable allowed ≡ true) × Covers allowed unit_prefix) (prefix ∷ []))
authorizes_iff_example = authorizes_iff policy unit_prefix (omega arith) (omega arith)

parse_key_iff_example :
    (parse_key dalek base64 key_record ≡ ok (record { public_key = key_octets }))
    ↔ KeyPublished dalek base64 key_record (record { public_key = key_octets })
parse_key_iff_example = parse_key_iff dalek base64 key_record (record { public_key = key_octets })

valid_rua_iff_example :
    (valid_rua (codes "mailto:dmarc.reports@example.com") ≡ true)
    ↔ IsReport (codes "mailto:dmarc.reports@example.com")
valid_rua_iff_example = valid_rua_iff (codes "mailto:dmarc.reports@example.com")

-- The same fields, from the last to the first, without the unknown key.
abbrev reversed_map : Entries
reversed_map = entry (integer (pos 6)) (Value.text (codes "mta")) (
    entry (integer (pos 5)) (integer (pos 1786294800)) (
      entry (integer (pos 4)) (integer (pos 1786291200)) (
        entry (integer (pos 2)) (bytes (prefix_octets prefix))
          (entry (integer (pos 1)) (Value.text (codes "Mailer.Example.com")) no_entries))))

reversed_keys : Distinct (pos 6 ∷ pos 5 ∷ pos 4 ∷ pos 2 ∷ pos 1 ∷ [])
reversed_keys = ground arith

same_fields : SameFields (pairs payload_map) (pairs reversed_map)
unfolding pairs
same_fields = (refl, (refl, (refl, (refl, (refl, (refl, tt))))))

reversed_read : keys (pairs reversed_map) ≡ some (pos 6 ∷ pos 5 ∷ pos 4 ∷ pos 2 ∷ pos 1 ∷ [])
unfolding pairs
reversed_read = refl

from_value-SameFields_example : from_value (Value.map reversed_map) ≡ ok payload
from_value-SameFields_example =
    from_value-SameFields payload_map reversed_map (pos 6 ∷ pos 5 ∷ pos 4 ∷ pos 2 ∷ pos 1 ∷ [])
      payload reversed_read reversed_keys same_fields test_from_value
