-- ===== src/Address.antt =====
-- src/address.rs: IPv6 prefixes, and the draft's rules on attested prefixes and source addresses.
-- An `Ipv6Addr` is the number that `u128::from` gives, and a `u8` or `u128` is a number too.
pub mod Mask
pub mod Ranges
pub mod Rules
pub mod Parse
pub mod Decimal
pub mod Display
use swornmail.Prelude.{
  ℕ, ◌+◌, ◌-◌, ◌*◌, ◌/◌, ◌^◌, ◌≤◌, ◌<◌, min, bit_and, Bool, true, false, not, ◌&&◌, Option, none,
  some, List, [], ◌∷◌, ltb, leb, ◌==◌, within, if◌then◌else◌, any,
}

abbrev pub IsAddr : ℕ → Type 0
IsAddr a = a < 2 ^ 128

abbrev pub u128_max : ℕ
u128_max = 2 ^ 128 - 1

-- `Ipv6Addr::new`, from eight groups of 16 bits
abbrev pub segments : ℕ → ℕ → ℕ → ℕ → ℕ → ℕ → ℕ → ℕ → ℕ
segments a b c d e f g h =
    let high = ((a * 65536 + b) * 65536 + c) * 65536 + d in
    (((high * 65536 + e) * 65536 + f) * 65536 + g) * 65536 + h

pub record Ipv6Prefix : Type 0 where
  pub addr : ℕ
  pub len : ℕ

-- What `Ipv6Prefix::new` ensures, with the range of the address type.
pub record IsPrefix (p : Ipv6Prefix) : Type 0 where
  pub addr_fits : IsAddr p.addr
  pub len_le : p.len ≤ 128

abbrev pub min_prefix_len : ℕ
min_prefix_len = 32

abbrev pub max_prefix_len : ℕ
max_prefix_len = 64

abbrev new_unchecked : ℕ → ℕ → Ipv6Prefix
new_unchecked a n = record { addr = a; len = n }

-- `Ipv6Prefix::new`
unfoldable pub new : ℕ → ℕ → Option Ipv6Prefix
new a n = if ltb 128 n then none else some (record { addr = a; len = n })

abbrev pub global_unicast : Ipv6Prefix
global_unicast = new_unchecked (segments 0x2000 0 0 0 0 0 0 0) 3

abbrev pub teredo : Ipv6Prefix
teredo = new_unchecked (segments 0x2001 0 0 0 0 0 0 0) 32

abbrev pub six_to_four : Ipv6Prefix
six_to_four = new_unchecked (segments 0x2002 0 0 0 0 0 0 0) 16

abbrev pub ineligible_source_ranges : List Ipv6Prefix
ineligible_source_ranges =
    new_unchecked (segments 0 0 0 0 0 0xffff 0 0) 96
    ∷ new_unchecked (segments 0 0 0 0 0 0 0 0) 96
    ∷ new_unchecked (segments 0x64 0xff9b 0 0 0 0 0 0) 96
    ∷ new_unchecked (segments 0x64 0xff9b 1 0 0 0 0 0) 48
    ∷ teredo
    ∷ six_to_four
    ∷ []

-- `keep` in `mask`: `!(u128::MAX >> len)`
keep : ℕ → ℕ
keep n = if leb 128 n then u128_max else u128_max - u128_max / 2 ^ n

unfoldable pub mask : ℕ → ℕ → ℕ
unfolding keep
mask a n = bit_and a (keep n)

unfoldable pub masked : Ipv6Prefix → Ipv6Prefix
masked p = record { addr = mask p.addr p.len; len = p.len }

unfoldable pub is_canonical : Ipv6Prefix → Bool
is_canonical p = mask p.addr p.len == p.addr

unfoldable pub contains : Ipv6Prefix → ℕ → Bool
contains p a = mask a p.len == mask p.addr p.len

unfoldable pub overlaps : Ipv6Prefix → Ipv6Prefix → Bool
overlaps p q = let shorter = min p.len q.len in mask p.addr shorter == mask q.addr shorter

unfoldable pub is_attestable : Ipv6Prefix → Bool
is_attestable p =
    is_canonical p
    && within min_prefix_len max_prefix_len p.len
    && contains global_unicast p.addr
    && not (overlaps p teredo)
    && not (overlaps p six_to_four)

unfoldable pub is_eligible_source : ℕ → Bool
is_eligible_source a =
    if not (contains global_unicast a)
    then false
    else not (any (λ range. contains range a) ineligible_source_ranges)
