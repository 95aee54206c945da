-- ===== src/Text/Ipv6/RoundTrip.antt =====
-- An address is read back from its text.
use native.Mathlib.Nat.{pow-zero, pow-suc}
use mathlib.Core.Path.{subst}
use mathlib.Core.List.{append-nil}
use swornmail.Prelude.{
  ℕ, zero, suc, ◌+◌, ◌-◌, ◌*◌, ◌/◌, ◌%◌, ◌^◌, ◌≤◌, ◌<◌, ◌≡◌, ◌≢◌, refl, sym, ap, ◌∙◌, true, false,
  some, List, [], ◌∷◌, ◌++◌, arith, ltb, ◌==◌, take, length, length-take, All, All-append,
  Bool-cases, Option-cases, inl, inr,
}
use swornmail.Prelude.Bits.{split_digit}
use swornmail.Text.{codes}
use swornmail.Text.Split.{Lacks}
use swornmail.Text.Ipv6.{
  read_embedded, read_group, read_ipv4, read_octet, read_separator, read_number, read_digits,
  read_groups, read_char, read_tail, read_ipv6, zeros, from_groups, at_end, parse_ipv6,
}
use swornmail.Text.Ipv6.Bounds.{IsGroup}
use swornmail.Text.Ipv6.Display.{
  Span, no_span, longest_zeros, drop, groups_of, groups_text, compressed, ipv4_text, mapped_halves,
  display_groups, display_ipv6,
}
use swornmail.Text.Ipv6.Reading.{read_groups-groups_text}
use swornmail.Text.Ipv6.Dotted.{read_groups-ipv4_text}
use swornmail.Text.Ipv6.Characters.{
  groups_of-IsGroup, groups_text-Lacks, All-take, All-drop, mapped_halves-eq-some,
}
use swornmail.Text.Ipv6.Spans.{longest_zeros-cut}

length-drop : {A : Type 0} (n : ℕ) (xs : List A) → length (drop n xs) ≡ length xs - n
length-drop zero xs = omega arith
length-drop (suc n) [] = omega arith
length-drop (suc n) (x ∷ xs) = omega (arith, length-drop n xs)

read_whole :
    (gs : List ℕ) (left : ℕ)
    → All IsGroup gs
    → length gs ≤ left
    → read_groups left 0 (groups_text gs) ≡ (gs, false, [])
read_whole gs left h room =
    let same = append-nil (groups_text gs) in
    ap (read_groups left 0) (sym same)
    ∙ read_groups-groups_text gs left [] h room tt
        (subst (Lacks b'.') (sym same) (groups_text-Lacks gs h))

read_plain :
    (gs : List ℕ)
    → All IsGroup gs
    → length gs ≡ 8
    → read_ipv6 (groups_text gs) ≡ some (from_groups 0 gs, [])
unfolding read_ipv6
read_plain gs h e =
    let full : (length gs == 8) ≡ true = ground arith in
    rw (read_whole gs 8 h (omega arith), read_ipv6) (rw full refl)

-- Groups on both sides of `::`.
read_compressed :
    (head tail : List ℕ) (n : ℕ)
    → All IsGroup head
    → All IsGroup tail
    → 1 ≤ n
    → length head + n + length tail ≡ 8
    → read_ipv6 (groups_text head ++ (b':' ∷ b':' ∷ groups_text tail))
      ≡ some (from_groups 0 (head ++ (zeros n ++ tail)), [])
unfolding read_ipv6 read_tail read_char
read_compressed head tail n h k pos size =
    let behind = b':' ∷ b':' ∷ groups_text tail in
    let no_dot : Lacks b'.' behind =
      (λ e. omega arith, (λ e. omega arith, groups_text-Lacks tail k)) in
    let front =
      read_groups-groups_text head 8 behind h (omega arith) (refl, refl)
        (All-append (λ x. x ≢ b'.') (groups_text head) behind (groups_text-Lacks head h) no_dot) in
    let short : (length head == 8) ≡ false = ground arith in
    let back = read_whole tail (8 - (length head + 1)) k (omega arith) in
    let gap : 8 - length head - length tail ≡ n = omega arith in
    rw (front, read_ipv6)
      (rw (short, read_tail)
        (rw back
          (ap (λ m. some (from_groups 0 (head ++ (zeros m ++ tail)), ◌++◌ {A = ℕ} [] [])) gap)))

display_compressed :
    (gs : List ℕ) (z : Span)
    → All IsGroup gs
    → length gs ≡ 8
    → z ≡ longest_zeros 0 no_span no_span gs
    → read_ipv6 (compressed z gs) ≡ some (from_groups 0 gs, [])
unfolding compressed
display_compressed gs z h size e =
    let (inside, cut) = longest_zeros-cut gs z e in
    let front = take z.start gs in
    let back = drop (z.start + z.len) gs in
    elim (Bool-cases (ltb 1 z.len)) [
      | inl long ↦ rw long (
          read_compressed front back z.len (All-take z.start gs h) (All-drop (z.start + z.len) gs h)
            (ground (arith, long))
            (omega (arith, length-take z.start gs, length-drop (z.start + z.len) gs))
          ∙ ap (λ l. some (from_groups 0 l, ◌++◌ {A = ℕ} [] [])) (sym cut))
      | inr short ↦ rw short (read_plain gs h size)
    ]

read_mapped :
    (x y : ℕ)
    → IsGroup x
    → IsGroup y
    → read_ipv6 (codes "::ffff:" ++ ipv4_text x y)
      ≡ some (from_groups 0 (0 ∷ 0 ∷ 0 ∷ 0 ∷ 0 ∷ 0xffff ∷ x ∷ y ∷ []), [])
unfolding read_ipv6 read_tail read_char zeros
read_mapped x y hx hy =
    let front : read_groups 8 0 (codes "::ffff:" ++ ipv4_text x y)
        ≡ ([], false, codes "::ffff:" ++ ipv4_text x y) =
      unfold read_groups read_embedded read_group read_ipv4 read_octet read_separator read_number
        read_digits in
      refl in
    rw (front, read_ipv6) (rw (read_groups-ipv4_text x y hx hy, read_tail) refl)

read_display_groups :
    (gs : List ℕ)
    → All IsGroup gs
    → length gs ≡ 8
    → read_ipv6 (display_groups gs) ≡ some (from_groups 0 gs, [])
unfolding display_groups
read_display_groups gs h size = elim (Option-cases (mapped_halves gs)) [
  | inl plain ↦
      rw (plain, display_groups)
        (display_compressed gs (longest_zeros 0 no_span no_span gs) h size refl)
  | inr ((x, y), e) ↦
      let same = mapped_halves-eq-some gs {x = x} {y = y} e in
      let groups = subst (All IsGroup) same h in
      rw (e, display_groups)
        (read_mapped x y (groups.1.1.1.1.1.1.0) (groups.1.1.1.1.1.1.1.0)
          ∙ ap (λ l. some (from_groups 0 l, ◌++◌ {A = ℕ} [] [])) (sym same))
]

from_groups-groups_of :
    (k acc a : ℕ) → from_groups acc (groups_of k a) ≡ acc * 65536 ^ k + a % 65536 ^ k
unfolding groups_of
from_groups-groups_of zero acc a = rw pow-zero (omega arith)
from_groups-groups_of (suc k) acc a =
    from_groups-groups_of k (acc * 65536 + a / 65536 ^ k % 65536) a
    ∙ rw pow-suc (grind (arith, split_digit a (65536 ^ k) 65536))

-- Every address is read back from the text in which it is displayed.
pub parse_ipv6-display_ipv6 : (a : ℕ) → a < 2 ^ 128 → parse_ipv6 (display_ipv6 a) ≡ some a
unfolding parse_ipv6 display_ipv6
parse_ipv6-display_ipv6 a h =
    let (groups, size) = groups_of-IsGroup 8 a in
    let value : from_groups 0 (groups_of 8 a) ≡ a = omega (arith, from_groups-groups_of 8 0 a) in
    ap at_end (read_display_groups (groups_of 8 a) groups size) ∙ ap some value
