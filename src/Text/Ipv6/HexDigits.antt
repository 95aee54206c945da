-- ===== src/Text/Ipv6/HexDigits.antt =====
-- Reading the number of one group, and what is not an embedded IPv4 address.
use mathlib.Core.Path.{subst}
use swornmail.Prelude.{
  ℕ, zero, suc, ◌+◌, ◌*◌, ◌/◌, ◌%◌, ◌≤◌, ◌<◌, ◌≡◌, refl, ap, ◌∙◌, inl, inr, Bool, true, false, none,
  some, [], ◌∷◌, ◌++◌, arith, ltb, Option-cases, Bool-cases,
}
use swornmail.Text.{Bytes, hex_digit}
use swornmail.Text.Split.{Lacks}
use swornmail.Text.Ipv6.{
  to_digit, read_digits, read_number, read_char, read_separator, read_octet, read_ipv4,
  read_embedded,
}
use swornmail.Text.Ipv6.Bounds.{IsGroup}
use swornmail.Text.Ipv6.Display.{hex_group}

to_digit-hex_digit : (d : ℕ) → d < 16 → to_digit 16 (hex_digit d) ≡ some d
unfolding hex_digit
to_digit-hex_digit d h = ground arith

-- A text at which the digits of a group end.
abbrev pub Stops : Bytes → Type 0
Stops [] = Unit
Stops (c ∷ s) = to_digit 16 c ≡ none

read_digits-stop :
    (taken acc : ℕ) (rest : Bytes)
    → Stops rest
    → read_digits 16 4 taken acc rest ≡ some (taken, acc, rest)
unfolding read_digits
read_digits-stop taken acc [] h = refl
read_digits-stop taken acc (c ∷ s) h = rw (h, read_digits) refl

read_digits-more :
    (d taken acc : ℕ) (s : Bytes)
    → d < 16
    → taken < 4
    → read_digits 16 4 taken acc (hex_digit d ∷ s) ≡ read_digits 16 4 (taken + 1) (acc * 16 + d) s
unfolding read_digits
read_digits-more d taken acc s h k = rw (to_digit-hex_digit d h, read_digits) (ground arith)

abbrev Reads : ℕ → Bytes → Bytes → Type 0
Reads g s rest = (n : ℕ) × (1 ≤ n) × (read_digits 16 4 0 0 s ≡ some (n, g, rest))

-- The digits read so far, with their value, and the end.
read_digits-end :
    (taken acc g : ℕ) (rest : Bytes)
    → Stops rest
    → acc ≡ g
    → read_digits 16 4 taken acc rest ≡ some (taken, g, rest)
read_digits-end taken acc g rest stop e =
    read_digits-stop taken acc rest stop ∙ ap (λ (v : ℕ). some (taken, v, rest)) e

read_digits-hex_group :
    (g : ℕ) (rest : Bytes) → IsGroup g → Stops rest → Reads g (hex_group g ++ rest) rest
unfolding hex_group
read_digits-hex_group g rest h stop = elim (Bool-cases (ltb g 16)) [
  | inl a ↦ rw a (
    1,
    omega arith,
    read_digits-more g 0 0 rest (ground arith) (omega arith)
        ∙ read_digits-end 1 (0 * 16 + g) g rest stop (omega arith),
  )
  | inr na ↦ elim (Bool-cases (ltb g 256)) [
    | inl b ↦
        rw (na, b)
          (
            2,
            omega arith,
            read_digits-more (g / 16) 0 0 _ (ground arith) (omega arith)
                ∙ read_digits-more (g % 16) 1 (0 * 16 + g / 16) rest (omega arith) (omega arith)
                ∙ read_digits-end 2 _ g rest stop (omega arith),
          )
    | inr nb ↦ elim (Bool-cases (ltb g 4096)) [
      | inl c ↦
          rw (na, nb, c)
            (
              3,
              omega arith,
              read_digits-more (g / 256) 0 0 _ (ground arith) (omega arith)
                  ∙ read_digits-more (g / 16 % 16) 1 _ _ (omega arith) (omega arith)
                  ∙ read_digits-more (g % 16) 2 _ rest (omega arith) (omega arith)
                  ∙ read_digits-end 3 _ g rest stop (omega arith),
            )
      | inr nc ↦
          rw (na, nb, nc)
            (
              4,
              omega arith,
              read_digits-more (g / 4096) 0 0 _ (omega arith) (omega arith)
                  ∙ read_digits-more (g / 256 % 16) 1 _ _ (omega arith) (omega arith)
                  ∙ read_digits-more (g / 16 % 16) 2 _ _ (omega arith) (omega arith)
                  ∙ read_digits-more (g % 16) 3 _ rest (omega arith) (omega arith)
                  ∙ read_digits-end 4 _ g rest stop (omega arith),
            )
    ]
  ]
]

pub read_number-hex_group :
    (g : ℕ) (rest : Bytes)
    → IsGroup g
    → Stops rest
    → read_number 16 4 65535 true (hex_group g ++ rest) ≡ some (g, rest)
unfolding read_number
read_number-hex_group g rest h stop =
    let (n, pos, e) = read_digits-hex_group g rest h stop in
    rw (e, read_number) (ground (arith, pos, h))

read_digits-Lacks :
    (x radix max taken acc : ℕ) (s : Bytes) {n v : ℕ} {rest : Bytes}
    → Lacks x s
    → read_digits radix max taken acc s ≡ some (n, v, rest)
    → Lacks x rest
unfolding read_digits
read_digits-Lacks x radix max taken acc [] h e = ground arith
read_digits-Lacks x radix max taken acc (c ∷ s) {n} {v} {rest} h e =
    elim (Option-cases (to_digit radix c)) [
      | inl stop ↦ let same : c ∷ s ≡ rest = ground arith in subst (Lacks x) same h
      | inr (d, digit) ↦ elim (Bool-cases (ltb max (taken + 1))) [
        | inl full ↦ ground arith
        | inr room ↦
            read_digits-Lacks x radix max (taken + 1) (acc * radix + d) s {n = n} {v = v}
              {rest = rest} h.1 (ground arith)
      ]
    ]

read_number-Lacks :
    (x radix max limit : ℕ) (allow : Bool) (s : Bytes) {v : ℕ} {rest : Bytes}
    → Lacks x s
    → read_number radix max limit allow s ≡ some (v, rest)
    → Lacks x rest
unfolding read_number
read_number-Lacks x radix max limit allow s {v} {rest} h e =
    elim (Option-cases (read_digits radix max 0 0 s)) [
      | inl stop ↦ ground arith
      | inr ((n, w, after), digits) ↦
          let lacks = read_digits-Lacks x radix max 0 0 s {n = n} {v = w} {rest = after} h digits in
          let same : after ≡ rest = ground arith in subst (Lacks x) same lacks
    ]

read_char-Lacks : (s : Bytes) → Lacks b'.' s → read_char b'.' s ≡ none
unfolding read_char
read_char-Lacks [] h = refl
read_char-Lacks (c ∷ s) h = ground arith

-- Where no dot stands there is no IPv4 address.
read_ipv4-Lacks : (s : Bytes) → Lacks b'.' s → read_ipv4 s ≡ none
unfolding read_ipv4 read_octet read_separator
read_ipv4-Lacks s h = elim (Option-cases (read_number 10 3 255 false s)) [
  | inl stop ↦ ground arith
  | inr ((a, rest), e) ↦
      let no_dot =
        read_char-Lacks rest (read_number-Lacks b'.' 10 3 255 false s {v = a} {rest = rest} h e) in
      ground arith
]

read_separator-Lacks :
    (x c i : ℕ) (s : Bytes) {t : Bytes} → Lacks x s → read_separator c i s ≡ some t → Lacks x t
unfolding read_separator read_char
read_separator-Lacks x c zero s {t} h e = let same : s ≡ t = ground arith in subst (Lacks x) same h
read_separator-Lacks x c (suc i) [] h e = cc
read_separator-Lacks x c (suc i) (y ∷ s) {t} h e =
    let same : s ≡ t = ground arith in subst (Lacks x) same h.1

pub read_embedded-Lacks : (left i : ℕ) (s : Bytes) → Lacks b'.' s → read_embedded left i s ≡ none
unfolding read_embedded
read_embedded-Lacks zero i s h = refl
read_embedded-Lacks (suc left) i s h = elim (Option-cases (read_separator b':' i s)) [
  | inl stop ↦ ground arith
  | inr (t, e) ↦
      let none_there = read_ipv4-Lacks t (read_separator-Lacks b'.' b':' i s {t = t} h e) in
      ground arith
]
