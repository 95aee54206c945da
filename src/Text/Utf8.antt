-- ===== src/Text/Utf8.antt =====
-- `String::from_utf8`: the octets, if they are well-formed UTF-8.
use swornmail.Prelude.{
  ℕ, zero, suc, ◌<◌, ◌≡◌, refl, Bool, true, false, Option, none, some, [], ◌∷◌, arith, ltb, ◌==◌,
  within, if◌then◌else◌, All,
}
use swornmail.Text.{Bytes}

-- What a lead octet asks for: how many octets follow, and the range of the first of them.
abbrev lead_byte : ℕ → Option (ℕ × ℕ × ℕ)
lead_byte c =
    if ltb c 0x80
    then some (0, 0x80, 0xbf)
    else if within 0xc2 0xdf c
    then some (1, 0x80, 0xbf)
    else if c == 0xe0
    then some (2, 0xa0, 0xbf)
    else if c == 0xed
    then some (2, 0x80, 0x9f)
    else if within 0xe1 0xef c
    then some (2, 0x80, 0xbf)
    else if c == 0xf0
    then some (3, 0x90, 0xbf)
    else if within 0xf1 0xf3 c
    then some (3, 0x80, 0xbf)
    else if c == 0xf4
    then some (3, 0x80, 0x8f)
    else none

-- Well-formed, with `left` octets of a character to come, the next in a range.
is_utf8_from : ℕ → ℕ → ℕ → Bytes → Bool
is_utf8_from zero lo hi [] = true
is_utf8_from (suc left) lo hi [] = false
is_utf8_from zero lo hi (c ∷ s) = elim (lead_byte c) [
  | none ↦ false
  | some (left, lo', hi') ↦ is_utf8_from left lo' hi' s
]
is_utf8_from (suc left) lo hi (c ∷ s) = elim (within lo hi c) [
  | true ↦ is_utf8_from left 0x80 0xbf s
  | false ↦ false
]

unfoldable pub from_utf8 : Bytes → Option Bytes
unfolding is_utf8_from
from_utf8 s = if is_utf8_from 0 0x80 0xbf s then some s else none

ascii-is_utf8_from : (s : Bytes) → All (λ c. c < 128) s → is_utf8_from 0 0x80 0xbf s ≡ true
unfolding is_utf8_from
ascii-is_utf8_from [] h = refl
ascii-is_utf8_from (c ∷ s) h = ground (arith, ascii-is_utf8_from s h.1)

-- ASCII is UTF-8.
pub from_utf8-ascii : (s : Bytes) → All (λ c. c < 128) s → from_utf8 s ≡ some s
unfolding from_utf8
from_utf8-ascii s h = rw (ascii-is_utf8_from s h)
