-- ===== src/Text/Ipv6/Dotted.antt =====
-- The dotted form of the last 32 bits is read back.
use swornmail.Prelude.{
  ℕ, suc, ◌+◌, ◌*◌, ◌/◌, ◌%◌, ◌≤◌, ◌<◌, ◌≡◌, refl, sym, ap, ◌∙◌, true, false, none, some, [], ◌∷◌,
  ◌++◌, arith, ltb, Bool-cases, inl, inr,
}
use mathlib.Core.List.{append-nil}
use swornmail.Text.{Bytes, codes, decimal}
use swornmail.Text.Ipv6.{
  to_digit, read_digits, read_number, read_char, read_separator, read_octet, read_ipv4,
  read_embedded, read_group, read_groups,
}
use swornmail.Text.Ipv6.Bounds.{IsGroup}
use swornmail.Text.Ipv6.Display.{ipv4_text}

-- A text at which a decimal number ends.
abbrev Stops : Bytes → Type 0
Stops [] = Unit
Stops (c ∷ s) = to_digit 10 c ≡ none

read_digits-stop :
    (taken acc n : ℕ) (rest : Bytes)
    → Stops rest
    → acc ≡ n
    → read_digits 10 3 taken acc rest ≡ some (taken, n, rest)
unfolding read_digits
read_digits-stop taken acc n [] h e = ap (λ (v : ℕ). some (taken, v, ◌++◌ {A = ℕ} [] [])) e
read_digits-stop taken acc n (c ∷ s) h e =
    rw (h, read_digits) (ap (λ (v : ℕ). some (taken, v, c ∷ s)) e)

read_digits-more :
    (d taken acc : ℕ) (s : Bytes)
    → d < 10
    → taken < 3
    → read_digits 10 3 taken acc ((d + b'0') ∷ s) ≡ read_digits 10 3 (taken + 1) (acc * 10 + d) s
unfolding read_digits
read_digits-more d taken acc s h k = ground arith

read_number-decimal :
    (n : ℕ) (rest : Bytes)
    → n ≤ 255
    → Stops rest
    → read_number 10 3 255 false (decimal n ++ rest) ≡ some (n, rest)
unfolding read_number
read_number-decimal n rest h stop = elim (Bool-cases (ltb n 10)) [
  | inl a ↦
      let e =
        read_digits-more n 0 0 rest (ground arith) (omega arith)
        ∙ read_digits-stop 1 (0 * 10 + n) n rest stop (omega arith) in
      rw a (rw (e, read_number) (ground arith))
  | inr na ↦ elim (Bool-cases (ltb n 100)) [
    | inl b ↦
        let e =
          read_digits-more (n / 10) 0 0 ((n % 10 + b'0') ∷ rest) (ground arith) (omega arith)
          ∙ read_digits-more (n % 10) 1 (0 * 10 + n / 10) rest (omega arith) (omega arith)
          ∙ read_digits-stop 2 _ n rest stop (omega arith) in
        rw (na, b) (rw (e, read_number) (ground arith))
    | inr nb ↦
        let e =
          read_digits-more (n / 100) 0 0 ((n / 10 % 10 + b'0') ∷ (n % 10 + b'0') ∷ rest)
            (ground arith) (omega arith)
          ∙ read_digits-more (n / 10 % 10) 1 (0 * 10 + n / 100) ((n % 10 + b'0') ∷ rest)
              (omega arith) (omega arith)
          ∙ read_digits-more (n % 10) 2 _ rest (omega arith) (omega arith)
          ∙ read_digits-stop 3 _ n rest stop (omega arith) in
        rw (na, nb) (rw (e, read_number) (ground arith))
  ]
]

read_octet-first :
    (n : ℕ) (s : Bytes) → n ≤ 255 → read_octet 0 (decimal n ++ b'.' ∷ s) ≡ some (n, b'.' ∷ s)
unfolding read_octet read_separator
read_octet-first n s h = read_number-decimal n (b'.' ∷ s) h refl

read_octet-next :
    (i n : ℕ) (rest : Bytes)
    → n ≤ 255
    → Stops rest
    → read_octet (suc i) (b'.' ∷ decimal n ++ rest) ≡ some (n, rest)
unfolding read_octet read_separator read_char
read_octet-next i n rest h stop = read_number-decimal n rest h stop

read_ipv4-octets :
    (a b c d : ℕ)
    → a ≤ 255
    → b ≤ 255
    → c ≤ 255
    → d ≤ 255
    → read_ipv4 (decimal a ++ b'.' ∷ (decimal b ++ b'.' ∷ (decimal c ++ b'.' ∷ decimal d)))
      ≡ some (a * 256 + b, c * 256 + d, [])
unfolding read_ipv4
read_ipv4-octets a b c d ha hb hc hd =
    let last : read_octet 3 (b'.' ∷ decimal d) ≡ some (d, []) =
      ap (λ s. read_octet 3 (b'.' ∷ s)) (sym (append-nil (decimal d)))
      ∙ read_octet-next 2 d [] hd tt in
    rw
      (
        read_octet-first a (decimal b ++ b'.' ∷ (decimal c ++ b'.' ∷ decimal d)) ha,
        read_octet-next 0 b (b'.' ∷ (decimal c ++ b'.' ∷ decimal d)) hb refl,
        read_octet-next 1 c (b'.' ∷ decimal d) hc refl,
        last,
        read_ipv4,
      )
      refl

read_ipv4-ipv4_text :
    (x y : ℕ) → IsGroup x → IsGroup y → read_ipv4 (ipv4_text x y) ≡ some (x, y, [])
unfolding ipv4_text
read_ipv4-ipv4_text x y hx hy =
    let high : x / 256 * 256 + x % 256 ≡ x = omega arith in
    let low : y / 256 * 256 + y % 256 ≡ y = omega arith in
    read_ipv4-octets (x / 256) (x % 256) (y / 256) (y % 256) (omega arith) (omega arith)
      (omega arith) (omega arith)
    ∙ rw (high, low) refl

-- The groups of `::ffff:` and a dotted form.
pub read_groups-ipv4_text :
    (x y : ℕ)
    → IsGroup x
    → IsGroup y
    → read_groups 7 0 (codes "ffff:" ++ ipv4_text x y) ≡ (0xffff ∷ x ∷ y ∷ [], true, [])
unfolding read_groups read_embedded read_group read_ipv4 read_octet read_separator read_char
    read_number read_digits
read_groups-ipv4_text x y hx hy = rw (read_ipv4-ipv4_text x y hx hy) refl
