-- ===== src/Tests/Units.antt =====
-- The crate's unit tests, passed by the model.
use swornmail.Prelude.{◌≡◌, refl, true, some, [], ◌∷◌, if◌then◌else◌}
use swornmail.Text.{codes, split, split_once, bytes_eq, trim, u8_from_str, hex_digit}
use swornmail.Text.Utf8.{from_utf8}
use swornmail.Text.Ipv6.{parse_ipv6}
use swornmail.Text.Ipv6.Display.{display_ipv6}
use swornmail.Address.{
  new, mask, is_canonical, contains, overlaps, is_attestable, is_eligible_source,
}
use swornmail.Address.Parse.{parse_prefix, parse_decimal}
use swornmail.Address.Display.{display_prefix}
use swornmail.Key
use swornmail.Payload.{is_operator_domain, is_label}
use swornmail.Cose.{selector_from_kid}
use swornmail.Record.{
  parse_key, parse_policy, parse_tags, read_segments, add_segment, add_tag, check_version, get,
  policy_prefixes, read_prefixes, read_prefix, policy_unit, policy_testing, policy_rua, valid_rua,
  valid_address,
}
use swornmail.UnitTests.{
  masks_to_unit_boundary, rejects_non_canonical_prefix, enforces_attested_prefix_bounds,
  rejects_ineligible_sources, accepts_ordinary_operator_domains,
  rejects_injection_and_malformed_domains, rejects_oversized_domain, accepts_conforming_selectors,
  rejects_non_label_selectors,
}
use swornmail.UnitTests.Records.{
  parses_key_record, rejects_whitespace_inside_a_value, reports_unknown_algorithm_distinctly,
  rejects_wrong_length_key, parses_policy_defaults, ignores_prefixes_past_the_cap,
  reads_testing_flag_among_unknown_flags, rejects_policy_units_broader_than_a_prefix,
  rejects_unsafe_report_destinations,
}
use swornmail.Backend.{Base64}
use swornmail.Tests.Data.{dalek, base64}

test_prefixes :
    (masks_to_unit_boundary ≡ true)
    × (rejects_non_canonical_prefix ≡ true)
    × (enforces_attested_prefix_bounds ≡ true)
    × (rejects_ineligible_sources ≡ true)
unfolding parse_prefix parse_decimal split_once parse_ipv6 u8_from_str new is_attestable
    is_canonical mask contains overlaps is_eligible_source display_prefix display_ipv6 bytes_eq
test_prefixes = (refl, refl, refl, refl)

test_domains :
    (accepts_ordinary_operator_domains ≡ true)
    × (rejects_injection_and_malformed_domains ≡ true)
    × (rejects_oversized_domain ≡ true)
unfolding is_operator_domain is_label split
test_domains = (refl, refl, refl)

test_selectors : (accepts_conforming_selectors ≡ true) × (rejects_non_label_selectors ≡ true)
unfolding selector_from_kid from_utf8 bytes_eq
test_selectors = (refl, refl)

-- base64, with the text of three zero octets
abbrev base64_with_short : Base64
base64_with_short text = if bytes_eq text (codes "AAAA") then some (0 ∷ 0 ∷ 0 ∷ []) else base64 text

test_keys :
    (parses_key_record dalek base64_with_short ≡ true)
    × (rejects_whitespace_inside_a_value dalek base64_with_short ≡ true)
    × (reports_unknown_algorithm_distinctly dalek base64_with_short ≡ true)
    × (rejects_wrong_length_key dalek base64_with_short ≡ true)
unfolding parse_key parse_tags read_segments split add_segment trim add_tag split_once bytes_eq
    check_version get Key.from_bytes Key.display_key Key.to_bytes Key.to_hex hex_digit
test_keys = (refl, refl, refl, refl)

test_policies :
    (parses_policy_defaults ≡ true)
    × (ignores_prefixes_past_the_cap ≡ true)
    × (reads_testing_flag_among_unknown_flags ≡ true)
    × (rejects_policy_units_broader_than_a_prefix ≡ true)
    × (rejects_unsafe_report_destinations ≡ true)
unfolding parse_policy policy_prefixes u8_from_str parse_tags read_segments policy_unit
    policy_testing policy_rua parse_prefix read_prefixes split add_segment trim add_tag split_once
    bytes_eq check_version get read_prefix parse_ipv6 parse_decimal new is_attestable is_canonical
    mask contains overlaps hex_digit valid_rua valid_address is_operator_domain is_label
test_policies = (refl, refl, refl, refl, refl)
