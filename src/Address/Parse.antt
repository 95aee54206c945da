-- ===== src/Address/Parse.antt =====
-- src/address.rs: prefixes and small numbers in presentation form.
use swornmail.Prelude.{ℕ, not, ◌&&◌, ◌||◌, Option, none, leb, ◌==◌, if◌then◌else◌, all, length}
use swornmail.Prelude.Results.{Result, ◌>>=◌, ok_or}
use swornmail.Text.{Bytes, is_empty, is_ascii_digit, starts_with, split_once, u8_from_str}
use swornmail.Text.Ipv6.{parse_ipv6}
use swornmail.Address.{Ipv6Prefix, new}

pub data ParsePrefixError : Type 0 where
  parse_prefix_error : ParsePrefixError

unfoldable pub parse_decimal : Bytes → Option ℕ
parse_decimal s =
    if not (is_empty s)
      && leb (length s) 3
      && all is_ascii_digit s
      && (length s == 1 || not (starts_with b'0' s))
    then u8_from_str s
    else none

-- `Ipv6Prefix::from_str`
unfoldable pub parse_prefix : Bytes → Result ParsePrefixError Ipv6Prefix
parse_prefix s = do
  (addr_text, len_text) ← ok_or (split_once b'/' s) parse_prefix_error
  addr ← ok_or (parse_ipv6 addr_text) parse_prefix_error
  len ← ok_or (parse_decimal len_text) parse_prefix_error
  ok_or (new addr len) parse_prefix_error
