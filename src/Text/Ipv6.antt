-- ===== src/Text/Ipv6.antt =====
-- `Ipv6Addr::from_str` of the standard library: groups of hexadecimal digits, one `::`, and an
-- embedded IPv4 address at the end. A reader takes a text and returns a value with the rest, or
-- `none` and has taken nothing.
pub mod Bounds
pub mod Display
pub mod HexDigits
pub mod Reading
pub mod Spans
pub mod Dotted
pub mod Characters
pub mod RoundTrip
use swornmail.Prelude.{
  ℕ, zero, suc, ◌+◌, ◌-◌, ◌*◌, Bool, true, false, not, ◌&&◌, ◌||◌, Option, none, some, List, [],
  ◌∷◌, ◌++◌, ltb, ◌==◌, within, if◌then◌else◌, length,
}
use swornmail.Text.{Bytes}

-- `char::to_digit(radix)`
abbrev digit_value : ℕ → Option ℕ
digit_value c =
    if within b'0' b'9' c
    then some (c - b'0')
    else if within b'a' b'f' c
    then some (c - b'a' + 10)
    else if within b'A' b'F' c
    then some (c - b'A' + 10)
    else none

abbrev to_digit : ℕ → ℕ → Option ℕ
to_digit radix c = elim (digit_value c) [
  | none ↦ none
  | some d ↦ if ltb d radix then some d else none
]

-- The digits at the front: how many, their value, and the rest; `none` beyond `max` digits.
read_digits : ℕ → ℕ → ℕ → ℕ → Bytes → Option (ℕ × ℕ × Bytes)
read_digits radix max taken acc [] = some (taken, acc, [])
read_digits radix max taken acc (c ∷ s) = elim (to_digit radix c) [
  | none ↦ some (taken, acc, c ∷ s)
  | some d ↦ elim (ltb max (taken + 1)) [
    | true ↦ none
    | false ↦ read_digits radix max (taken + 1) (acc * radix + d) s
  ]
]

abbrev has_leading_zero : Bytes → Bool
has_leading_zero [] = false
has_leading_zero (c ∷ s) = c == b'0'

-- `read_number`; `limit` bounds the integer type of the result
pub read_number : ℕ → ℕ → ℕ → Bool → Bytes → Option (ℕ × Bytes)
read_number radix max limit allow_zero_prefix s = elim (read_digits radix max 0 0 s) [
  | none ↦ none
  | some (taken, value, rest) ↦
      if taken == 0 || (not allow_zero_prefix && has_leading_zero s && ltb 1 taken)
      then none
      else if ltb limit value
      then none
      else some (value, rest)
]

read_char : ℕ → Bytes → Option Bytes
read_char c [] = none
read_char c (x ∷ s) = if x == c then some s else none

-- `read_separator`: none before the first element
read_separator : ℕ → ℕ → Bytes → Option Bytes
read_separator c zero s = some s
read_separator c (suc i) s = read_char c s

read_octet : ℕ → Bytes → Option (ℕ × Bytes)
read_octet i s = elim (read_separator b'.' i s) [
  | none ↦ none
  | some rest ↦ read_number 10 3 255 false rest
]

-- Four octets, as two groups of 16 bits.
read_ipv4 : Bytes → Option (ℕ × ℕ × Bytes)
read_ipv4 s = elim (read_octet 0 s) [
  | none ↦ none
  | some (a, s₁) ↦ elim (read_octet 1 s₁) [
    | none ↦ none
    | some (b, s₂) ↦ elim (read_octet 2 s₂) [
      | none ↦ none
      | some (c, s₃) ↦ elim (read_octet 3 s₃) [
        | none ↦ none
        | some (d, s₄) ↦ some (a * 256 + b, c * 256 + d, s₄)
      ]
    ]
  ]
]

pub read_embedded : ℕ → ℕ → Bytes → Option (ℕ × ℕ × Bytes)
read_embedded zero i s = none
read_embedded (suc left) i s = elim (read_separator b':' i s) [ none ↦ none | some t ↦ read_ipv4 t ]

read_group : ℕ → Bytes → Option (ℕ × Bytes)
read_group i s = elim (read_separator b':' i s) [
  | none ↦ none
  | some t ↦ read_number 16 4 65535 true t
]

-- `read_groups`: the groups read, whether they end in an IPv4 address, and the rest. The first
-- number is how many groups there is room for, the second how many were read.
pub read_groups : ℕ → ℕ → Bytes → List ℕ × Bool × Bytes
read_groups zero i s = ([], false, s)
read_groups (suc left) i s = elim (read_embedded left i s) [
  | some (a, b, rest) ↦ (a ∷ b ∷ [], true, rest)
  | none ↦ elim (read_group i s) [
    | none ↦ ([], false, s)
    | some (g, rest) ↦ let (gs, ipv4, end) = read_groups left (i + 1) rest in (g ∷ gs, ipv4, end)
  ]
]

pub zeros : ℕ → List ℕ
zeros zero = []
zeros (suc n) = 0 ∷ zeros n

abbrev from_groups : ℕ → List ℕ → ℕ
from_groups acc [] = acc
from_groups acc (g ∷ gs) = from_groups (acc * 65536 + g) gs

-- behind `::`, with the groups read in front of it
read_tail : List ℕ → Bytes → Option (ℕ × Bytes)
read_tail head s = elim (read_char b':' s) [
  | none ↦ none
  | some s₁ ↦ elim (read_char b':' s₁) [
    | none ↦ none
    | some s₂ ↦
        let (tail, ipv4, rest) = read_groups (8 - (length head + 1)) 0 s₂ in
        some (from_groups 0 (head ++ (zeros (8 - length head - length tail) ++ tail)), rest)
  ]
]

read_ipv6 : Bytes → Option (ℕ × Bytes)
read_ipv6 s =
    let (head, ipv4, rest) = read_groups 8 0 s in
    if length head == 8
    then some (from_groups 0 head, rest)
    else if ipv4
    then none
    else read_tail head rest

abbrev at_end : Option (ℕ × Bytes) → Option ℕ
at_end none = none
at_end (some (a, [])) = some a
at_end (some (a, c ∷ s)) = none

-- The whole text is one address.
unfoldable pub parse_ipv6 : Bytes → Option ℕ
unfolding read_ipv6 read_tail read_groups read_group read_embedded read_ipv4 read_octet
    read_separator read_char read_number read_digits zeros
parse_ipv6 s = at_end (read_ipv6 s)
