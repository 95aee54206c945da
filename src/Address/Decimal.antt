-- ===== src/Address/Decimal.antt =====
-- Record numbers have one spelling, and parsed prefixes are in range.
use swornmail.Prelude.{ℕ, ◌≤◌, ◌≡◌, ap, ◌∙◌, ◌↔◌, some, [], ◌∷◌, arith}
use swornmail.Prelude.Results.{ok, ok_or-eq-ok}
use swornmail.Text.{decimal, Bytes, split_once, u8_from_str}
use swornmail.Text.Ipv6.{parse_ipv6}
use swornmail.Text.Ipv6.Bounds.{parse_ipv6-lt}
use swornmail.Address.{Ipv6Prefix, IsPrefix, new}
use swornmail.Address.Parse.{parse_decimal, parse_prefix, parse_prefix_error}

parse_decimal-decimal : (n : ℕ) → n ≤ 255 → parse_decimal (decimal n) ≡ some n
unfolding parse_decimal u8_from_str
parse_decimal-decimal n h = ground arith

decimal-parse_decimal : (s : Bytes) {n : ℕ} → parse_decimal s ≡ some n → (n ≤ 255) × (s ≡ decimal n)
unfolding parse_decimal u8_from_str
decimal-parse_decimal [] h = ground arith
decimal-parse_decimal (a ∷ []) h = ground arith
decimal-parse_decimal (a ∷ b ∷ []) h = ground arith
decimal-parse_decimal (a ∷ b ∷ c ∷ []) h = ground arith
decimal-parse_decimal (a ∷ b ∷ c ∷ d ∷ s) h = ground arith

-- A text is read as a number exactly when the number is at most 255 and the text is its decimal
-- form with no sign and no leading zero.
pub parse_decimal_iff :
    (s : Bytes) (n : ℕ) → (parse_decimal s ≡ some n) ↔ ((n ≤ 255) × (s ≡ decimal n))
parse_decimal_iff s n =
    (λ h. decimal-parse_decimal s h, λ (h, e). ap parse_decimal e ∙ parse_decimal-decimal n h)

-- A prefix parsed from text has an address of 128 bits and a length of at most 128.
pub parse_prefix-IsPrefix : (s : Bytes) {p : Ipv6Prefix} → parse_prefix s ≡ ok p → IsPrefix p
unfolding parse_prefix
parse_prefix-IsPrefix s h =
    let ((addr_text, len_text), cut, h₁) = ok_or-eq-ok (split_once b'/' s) parse_prefix_error _ h in
    let (addr, read, h₂) = ok_or-eq-ok (parse_ipv6 addr_text) parse_prefix_error _ h₁ in
    let (len, digits, h₃) = ok_or-eq-ok (parse_decimal len_text) parse_prefix_error _ h₂ in
    unfold new in ground (arith, h₃, parse_ipv6-lt addr_text read)
