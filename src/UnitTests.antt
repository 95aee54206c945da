-- ===== src/UnitTests.antt =====
-- The unit tests of src/address.rs, src/payload.rs and src/token.rs: each is true if all that it
-- asserts holds and nothing that it unwraps is absent.
pub mod Records
use swornmail.Prelude.{
  ℕ, String, zero, suc, Bool, true, false, not, ◌&&◌, ◌||◌, Option, none, some, List, [], ◌∷◌, ◌++◌,
  all, ltb, ◌==◌, length,
}
use swornmail.Prelude.Asserts.{unwrap, unwrap_ok, is_none}
use swornmail.Text.{Bytes, codes, bytes_eq}
use swornmail.Text.Split.{join}
use swornmail.Text.Ipv6.{parse_ipv6}
use swornmail.Address.{
  Ipv6Prefix, new, mask, six_to_four, overlaps, is_attestable, is_eligible_source,
}
use swornmail.Address.Parse.{parse_prefix}
use swornmail.Address.Display.{display_prefix}
use swornmail.Payload.{is_operator_domain}
use swornmail.Cose.{selector_from_kid}

abbrev repeat : ℕ → ℕ → Bytes
repeat c zero = []
repeat c (suc n) = c ∷ repeat c n

-- `addr` and `prefix` of the tests in src/address.rs
abbrev addr : String → (ℕ → Bool) → Bool
addr s asserts = unwrap (parse_ipv6 (codes s)) asserts

abbrev prefix : String → (Ipv6Prefix → Bool) → Bool
prefix s asserts = unwrap_ok (parse_prefix (codes s)) asserts

abbrev pub masks_to_unit_boundary : Bool
masks_to_unit_boundary = addr "2001:db8:f00:1234::a:1" (λ source.
    unwrap (new (mask source 64) 64)
      (λ unit. bytes_eq (display_prefix unit) (codes "2001:db8:f00:1234::/64")))

abbrev refused : String → Bool
refused s = prefix s (λ p. not (is_attestable p))

abbrev pub rejects_non_canonical_prefix : Bool
rejects_non_canonical_prefix =
    refused "2001:db8:f00:dead::/48" && prefix "2001:db8:f00::/48" is_attestable

abbrev pub enforces_attested_prefix_bounds : Bool
enforces_attested_prefix_bounds =
    all refused
      ("2001:db8::/16" ∷ "2001:db8:f00:1234:5::/80" ∷ "fc00::/48" ∷ "2001::/48" ∷ "2002::/48" ∷ [])
    && prefix "2000::/16" (λ p. not (overlaps p six_to_four))
    && prefix "2002::/16" (λ p. overlaps p six_to_four)

abbrev pub rejects_ineligible_sources : Bool
rejects_ineligible_sources =
    all (λ s. addr s (λ source. not (is_eligible_source source)))
      ("::ffff:203.0.113.5" ∷ "::203.0.113.5" ∷ "64:ff9b::203.0.113.5" ∷ "64:ff9b:1::1" ∷ "2001::1"
        ∷ "2002:c000:204::1" ∷ "fe80::1" ∷ "fc00::1" ∷ "ff02::1" ∷ "::1" ∷ [])
    && addr "2001:db8:f00:1234::a:1" is_eligible_source

abbrev pub accepts_ordinary_operator_domains : Bool
accepts_ordinary_operator_domains =
    is_operator_domain (codes "mailer.example.com")
    && is_operator_domain (codes "xn--80ak6aa92e.example")
    && is_operator_domain (codes "a")

abbrev pub rejects_injection_and_malformed_domains : Bool
rejects_injection_and_malformed_domains =
    all (λ s. not (is_operator_domain s))
      ([]
        ∷ codes "x.example.com\r\nQUIT"
        ∷ codes "evil.example.com.."
        ∷ codes ".example.com"
        ∷ codes "example.com."
        ∷ codes "*.example.com"
        ∷ codes "-bad.example.com"
        ∷ codes "bad-.example.com"
        ∷ codes "exa mple.com"
        ∷ (codes "ex" ++ 0xc3 ∷ 0xa4 ∷ codes "mple.com")
        ∷ codes "under_score.example.com"
        ∷ (codes "x.example.com" ++ 0 ∷ [])
        ∷ [])

abbrev long_domain : Bytes
long_domain = let label = repeat b'a' 60 in join b'.' (label ∷ label ∷ label ∷ label ∷ label ∷ [])

abbrev pub rejects_oversized_domain : Bool
rejects_oversized_domain =
    not (is_operator_domain (repeat b'a' 64 ++ codes ".example.com"))
    && ltb 253 (length long_domain)
    && not (is_operator_domain long_domain)

abbrev pub accepts_conforming_selectors : Bool
accepts_conforming_selectors =
    unwrap (selector_from_kid (codes "2026a")) (bytes_eq (codes "2026a"))
    && unwrap (selector_from_kid (codes "a-b")) (bytes_eq (codes "a-b"))
    && unwrap (selector_from_kid (repeat b'a' 63)) (λ s. length s == 63)

abbrev pub rejects_non_label_selectors : Bool
rejects_non_label_selectors =
    all (λ kid. is_none (selector_from_kid kid))
      ([]
        ∷ repeat b'a' 64
        ∷ codes "-lead"
        ∷ codes "trail-"
        ∷ codes "two.labels"
        ∷ codes "under_score"
        ∷ (codes "sel" ++ 0xc3 ∷ 0xa9 ∷ [])
        ∷ [])
