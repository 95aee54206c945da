-- ===== src/Text.antt =====
-- The parts of Rust's `str`, `[u8]` and `u8` that the crate calls. A text is the list of its UTF-8
-- octets: the crate splits and compares texts at ASCII characters only, where the octets decide.
pub mod Split
pub mod Utf8
pub mod Space
pub mod Number
pub mod Ipv6
use Prim.Native.Char.{code}
use mathlib.Core.List.{reverse}
use mathlib.Core.Option as Options
use swornmail.Prelude.{
  ℕ, ◌+◌, ◌-◌, ◌*◌, ◌/◌, ◌%◌, String, ◌≡◌, refl, ◌↔◌, Bool, true, false, ◌&&◌, ◌||◌, Option, none,
  some, List, [], ◌∷◌, map, arith, leb, ltb, ◌==◌, within, if◌then◌else◌, all,
}

abbrev pub Bytes : Type 0
Bytes = List ℕ

-- The octets of an ASCII literal.
abbrev pub codes : String → Bytes
codes String.[] = []
codes (String.◌∷◌ c s) = code c ∷ codes s

-- `==` on octet slices and texts
unfoldable pub bytes_eq : Bytes → Bytes → Bool
bytes_eq [] [] = true
bytes_eq (x ∷ xs) (y ∷ ys) = x == y && bytes_eq xs ys
bytes_eq _ _ = false

pub bytes_eq_iff : (a b : Bytes) → (bytes_eq a b ≡ true) ↔ (a ≡ b)
unfolding bytes_eq
bytes_eq_iff (x ∷ a) (y ∷ b) = ground (arith, bytes_eq_iff a b)
bytes_eq_iff _ _ = ground arith

abbrev pub is_empty {ℓ} : {A : Type ℓ} → List A → Bool
is_empty [] = true
is_empty (x ∷ xs) = false

-- `str::is_ascii`
abbrev pub is_ascii : Bytes → Bool
is_ascii = all (λ c. ltb c 128)

abbrev pub is_ascii_digit : ℕ → Bool
is_ascii_digit = within b'0' b'9'

abbrev pub is_ascii_alphanumeric : ℕ → Bool
is_ascii_alphanumeric c = within b'0' b'9' c || within b'A' b'Z' c || within b'a' b'z' c

-- `to_ascii_lowercase`, octet by octet
abbrev pub lowercase_byte : ℕ → ℕ
lowercase_byte c = if within b'A' b'Z' c then c + 32 else c

abbrev pub to_ascii_lowercase : Bytes → Bytes
to_ascii_lowercase = map lowercase_byte

-- `starts_with` and `ends_with` of one ASCII character
abbrev pub starts_with : ℕ → Bytes → Bool
starts_with c [] = false
starts_with c (x ∷ xs) = x == c

abbrev pub ends_with : ℕ → Bytes → Bool
ends_with c [] = false
ends_with c (x ∷ []) = x == c
ends_with c (x ∷ y ∷ xs) = ends_with c (y ∷ xs)

abbrev pub strip_prefix : Bytes → Bytes → Option Bytes
strip_prefix [] s = some s
strip_prefix (p ∷ ps) [] = none
strip_prefix (p ∷ ps) (x ∷ s) = if x == p then strip_prefix ps s else none

-- `matches(c).count()`
abbrev pub count : ℕ → Bytes → ℕ
count c [] = 0
count c (x ∷ s) = (if x == c then 1 else 0) + count c s

-- The first piece grows at a separator's left.
abbrev pub split_step : Bool → ℕ → List Bytes → List Bytes
split_step true x pieces = [] ∷ pieces
split_step false x [] = (x ∷ []) ∷ []
split_step false x (piece ∷ pieces) = (x ∷ piece) ∷ pieces

-- `split(c)`: at least one piece
unfoldable pub split : ℕ → Bytes → List Bytes
split c [] = [] ∷ []
split c (x ∷ s) = split_step (x == c) x (split c s)

abbrev push_front : ℕ → Bytes × Bytes → Bytes × Bytes
push_front x (before, after) = (x ∷ before, after)

unfoldable pub split_once : ℕ → Bytes → Option (Bytes × Bytes)
split_once c [] = none
split_once c (x ∷ s) =
    let later = Options.map (push_front x) (split_once c s) in
    if x == c then some ([], s) else later

-- `char::is_whitespace` on the ASCII characters
abbrev pub is_whitespace : ℕ → Bool
is_whitespace c = within 9 13 c || c == 32

abbrev pub trim_start : Bytes → Bytes
trim_start [] = []
trim_start (x ∷ s) = if is_whitespace x then trim_start s else x ∷ s

-- `trim` on a text with no character beyond ASCII
unfoldable pub trim : Bytes → Bytes
trim s = reverse (trim_start (reverse (trim_start s)))

-- `{}` of a `u8`: a number below 1000 in decimal, with no leading zero
abbrev pub decimal : ℕ → Bytes
decimal n =
    if ltb n 10
    then (n + b'0') ∷ []
    else if ltb n 100
    then (n / 10 + b'0') ∷ (n % 10 + b'0') ∷ []
    else (n / 100 + b'0') ∷ (n / 10 % 10 + b'0') ∷ (n % 10 + b'0') ∷ []

-- a digit of `{:x}`
unfoldable pub hex_digit : ℕ → ℕ
hex_digit n = if ltb n 10 then n + b'0' else n + 87

u8_digits : ℕ → Bytes → Option ℕ
u8_digits acc [] = some acc
u8_digits acc (c ∷ s) =
    let next = acc * 10 + (c - b'0') in
    let rest = u8_digits next s in if is_ascii_digit c && leb next 255 then rest else none

-- `u8::from_str`: digits behind an optional plus sign, with no overflow
unfoldable pub u8_from_str : Bytes → Option ℕ
unfolding u8_digits
u8_from_str [] = none
u8_from_str (c ∷ []) = u8_digits 0 (c ∷ [])
u8_from_str (c ∷ d ∷ s) = if c == b'+' then u8_digits 0 (d ∷ s) else u8_digits 0 (c ∷ d ∷ s)
