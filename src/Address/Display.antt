-- ===== src/Address/Display.antt =====
-- src/address.rs: the text form of a prefix, and its round trip.
use swornmail.Prelude.{ℕ, ◌≤◌, ◌≡◌, refl, ◌⊎◌, inl, inr, ◌∷◌, ◌++◌, All, All-append, All-map, arith}
use swornmail.Prelude.Results.{ok}
use swornmail.Text.{Bytes, codes, decimal}
use swornmail.Text.Split.{Lacks, split_once-append}
use swornmail.Text.Ipv6.Display.{display_ipv6}
use swornmail.Text.Ipv6.Characters.{IsAddressByte, display_ipv6-IsAddressByte}
use swornmail.Text.Ipv6.RoundTrip.{parse_ipv6-display_ipv6}
use swornmail.Address.{Ipv6Prefix, IsPrefix, new}
use swornmail.Address.Parse.{ParsePrefixError, parse_prefix}
use swornmail.Address.Decimal.{parse_decimal_iff}

-- `Display` of a prefix
unfoldable pub display_prefix : Ipv6Prefix → Bytes
display_prefix p = display_ipv6 p.addr ++ b'/' ∷ decimal p.len

-- `Display` of the error
unfoldable pub display_parse_error : ParsePrefixError → Bytes
display_parse_error e = codes "invalid IPv6 prefix"

display_ipv6-Lacks : (a : ℕ) → Lacks b'/' (display_ipv6 a)
display_ipv6-Lacks a = All-map (display_ipv6 a) (λ c h. ground arith) (display_ipv6-IsAddressByte a)

-- A valid prefix is read back from its text form, in which the longest run of zero groups is
-- compressed and an IPv4-mapped address ends in dotted decimal.
pub parse_prefix-display_prefix :
    (p : Ipv6Prefix) → IsPrefix p → parse_prefix (display_prefix p) ≡ ok p
unfolding parse_prefix display_prefix new
parse_prefix-display_prefix p v =
    let cut =
      split_once-append b'/' (display_ipv6 p.addr) (decimal p.len) (display_ipv6-Lacks p.addr) in
    let len = (parse_decimal_iff (decimal p.len) p.len).1 (omega (arith, v.len_le), refl) in
    rw cut (rw (parse_ipv6-display_ipv6 p.addr v.addr_fits) (rw len (ground (arith, v.len_le))))

-- The characters of a displayed prefix.
abbrev pub IsPrefixByte : ℕ → Type 0
IsPrefixByte c = IsAddressByte c ⊎ (c ≡ b'/')

pub display_prefix-IsPrefixByte :
    (p : Ipv6Prefix) → IsPrefix p → All IsPrefixByte (display_prefix p)
unfolding display_prefix
display_prefix-IsPrefixByte p v =
    All-append IsPrefixByte (display_ipv6 p.addr) _
      (All-map (display_ipv6 p.addr) (λ c h. inl h) (display_ipv6-IsAddressByte p.addr))
      (inr refl, decimal-IsPrefixByte p.len (omega (arith, v.len_le)))
  where
    decimal-IsPrefixByte : (n : ℕ) → n ≤ 255 → All IsPrefixByte (decimal n)
    decimal-IsPrefixByte n h = ground arith
