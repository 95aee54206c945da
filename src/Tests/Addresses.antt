-- ===== src/Tests/Addresses.antt =====
-- Prefixes, their wire form and their text, at concrete values.
use swornmail.Prelude.{ℕ, ◌/◌, ◌^◌, ◌≤◌, ◌≡◌, ◌≢◌, refl, ◌↔◌, true, arith, some}
use swornmail.Prelude.Results.{ok}
use swornmail.Text.{codes, split_once, u8_from_str}
use swornmail.Text.Ipv6.{parse_ipv6}
use swornmail.Address.{IsPrefix, new, segments, is_canonical, is_attestable, is_eligible_source}
use swornmail.Address.Ranges.{Inside}
use swornmail.Address.Rules.{is_eligible_source_iff, is_attestable-eligible_iff}
use swornmail.Address.Parse.{parse_decimal, parse_prefix}
use swornmail.Address.Display.{display_prefix, parse_prefix-display_prefix}
use swornmail.Text.Ipv6.Display.{display_ipv6}
use swornmail.Tests.Data.{prefix, unit_prefix, source}

test_prefix : parse_prefix (codes "2001:db8:f00::/48") ≡ ok prefix
unfolding parse_prefix parse_decimal split_once parse_ipv6 u8_from_str new
test_prefix = refl

test_v4 : parse_ipv6 (codes "::ffff:203.0.113.5") ≡ some (segments 0 0 0 0 0 0xffff 0xcb00 0x7105)
unfolding parse_ipv6
test_v4 = refl

test_full : parse_ipv6 (codes "1:2:3:4:5:6:7:8") ≡ some (segments 1 2 3 4 5 6 7 8)
unfolding parse_ipv6
test_full = refl

prefix-IsPrefix : IsPrefix prefix
prefix-IsPrefix = omega arith

unit_prefix-IsPrefix : IsPrefix unit_prefix
unit_prefix-IsPrefix = omega arith

is_eligible_source_iff_example :
    (is_eligible_source source ≡ true)
    ↔ ((source / 2 ^ 125 ≡ 1) × (source / 2 ^ 96 ≢ 0x20010000) × (source / 2 ^ 112 ≢ 0x2002))
is_eligible_source_iff_example = is_eligible_source_iff {a = source} (omega arith)

is_attestable-eligible_iff_example : (is_attestable prefix ≡ true) ↔ (
    (is_canonical prefix ≡ true)
    × (32 ≤ 48)
    × (48 ≤ 64)
    × ((a : ℕ) → Inside prefix a → is_eligible_source a ≡ true))
is_attestable-eligible_iff_example = is_attestable-eligible_iff prefix-IsPrefix

parse_prefix-display_prefix_example : parse_prefix (display_prefix unit_prefix) ≡ ok unit_prefix
parse_prefix-display_prefix_example = parse_prefix-display_prefix unit_prefix unit_prefix-IsPrefix

test_display : display_prefix unit_prefix ≡ codes "2001:db8:f00:1234::/64"
unfolding display_prefix display_ipv6
test_display = refl
