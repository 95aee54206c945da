-- ===== src/Tests/Refused.antt =====
-- Records that are read, and texts that are refused with an error.
use swornmail.Prelude.{◌≡◌, refl, ◌↔◌, List, [], ◌∷◌, arith, all, not, true, ◌==◌}
use swornmail.Prelude.Results.{ok, err}
use swornmail.Text.{Bytes, codes, u8_from_str, split, split_once, trim, bytes_eq}
use swornmail.Text.Ipv6.{parse_ipv6}
use swornmail.Address.{new, is_attestable, is_canonical, mask, contains, overlaps}
use swornmail.Address.Parse.{parse_decimal, parse_prefix}
use swornmail.Record.{
  Tag, malformed_tag, duplicate_tag, unknown_algorithm, bad_value, parse_tags, read_segments,
  add_segment, add_tag, check_version, get, parse_key, parse_policy, policy_prefixes, read_prefixes,
  read_prefix, policy_unit, policy_rua,
}
use swornmail.Record.Grammar.{GrammarOver}
use swornmail.Record.Refusals.{RefusedOver}
use swornmail.Record.Printable.{
  IsPrintable, NoTab, parse_tags-IsPrintable_iff, parse_tags-err-IsPrintable_iff,
}
use swornmail.Record.KeyErrors.{KeyRefused, parse_key-err_iff}
use swornmail.Record.PolicyErrors.{PolicyRefused, parse_policy-err_iff}
use swornmail.Tests.Data.{dalek, base64}

abbrev spaced_text : Bytes
spaced_text = codes " v = SWORN1 ;; p=2001:db8:f00::/48; u=64;"

abbrev spaced_tags : List Tag
spaced_tags =
    (codes "v", codes "SWORN1")
    ∷ (codes "p", codes "2001:db8:f00::/48")
    ∷ (codes "u", codes "64")
    ∷ []

test_spaced : parse_tags spaced_text ≡ ok spaced_tags
unfolding parse_tags read_segments split add_segment trim add_tag split_once bytes_eq check_version
test_spaced = refl

test_tab_inside : parse_tags (codes "v=SWORN1; u=6\t4") ≡ err malformed_tag
unfolding parse_tags read_segments split add_segment trim add_tag split_once bytes_eq check_version
test_tab_inside = refl

no_tab : (s : Bytes) → all (λ c. not (c == b'\t')) s ≡ true → NoTab s
no_tab [] h = tt
no_tab (c ∷ s) h = ((λ e. ground arith), no_tab s (ground arith))

parse_tags-IsPrintable_iff_example :
    (parse_tags spaced_text ≡ ok spaced_tags) ↔ GrammarOver IsPrintable spaced_text spaced_tags
parse_tags-IsPrintable_iff_example =
    parse_tags-IsPrintable_iff spaced_text (no_tab spaced_text refl) spaced_tags

abbrev repeated_text : Bytes
repeated_text = codes "v=SWORN1; u=64; u=48"

test_repeated : parse_tags repeated_text ≡ err duplicate_tag
unfolding parse_tags read_segments split add_segment trim add_tag split_once bytes_eq check_version
test_repeated = refl

parse_tags-err-IsPrintable_iff_example :
    (parse_tags repeated_text ≡ err duplicate_tag)
    ↔ RefusedOver IsPrintable repeated_text duplicate_tag
parse_tags-err-IsPrintable_iff_example =
    parse_tags-err-IsPrintable_iff repeated_text (no_tab repeated_text refl) duplicate_tag

abbrev rsa_text : Bytes
rsa_text = codes "v=SWORN1; k=rsa; pk=AAAA"

test_rsa : parse_key dalek base64 rsa_text ≡ err unknown_algorithm
unfolding parse_key parse_tags read_segments split add_segment trim add_tag split_once bytes_eq
    check_version get
test_rsa = refl

parse_key-err_iff_example :
    (parse_key dalek base64 rsa_text ≡ err unknown_algorithm)
    ↔ KeyRefused dalek base64 rsa_text unknown_algorithm
parse_key-err_iff_example = parse_key-err_iff dalek base64 rsa_text unknown_algorithm

abbrev wide_text : Bytes
wide_text = codes "v=SWORN1; p=2001:db8:f00:1200::/56; u=48"

test_wide : parse_policy wide_text ≡ err (bad_value (codes "u"))
unfolding parse_policy policy_prefixes u8_from_str parse_tags read_segments policy_unit policy_rua
    parse_prefix read_prefixes split add_segment trim add_tag split_once bytes_eq check_version get
    read_prefix parse_ipv6 parse_decimal new is_attestable is_canonical mask contains overlaps
test_wide = refl

parse_policy-err_iff_example :
    (parse_policy wide_text ≡ err (bad_value (codes "u")))
    ↔ PolicyRefused wide_text (bad_value (codes "u"))
parse_policy-err_iff_example = parse_policy-err_iff wide_text (bad_value (codes "u"))
