-- ===== src/Text/Ipv6/Bounds.antt =====
-- Every address that is read has 128 bits: at most eight groups of 16 bits are read.
use native.Mathlib.Nat.{pow-zero, pow-suc}
use swornmail.Prelude.{
  ℕ, zero, suc, ◌+◌, ◌-◌, ◌*◌, ◌^◌, ◌≤◌, ◌<◌, ◌≡◌, refl, Bool, true, false, Option, none, some,
  List, [], ◌∷◌, ◌++◌, arith, ◌==◌, length, length-append, All, All-append, Option-cases,
  Bool-cases, inl, inr,
}
use swornmail.Text.{Bytes}
use swornmail.Text.Ipv6.{
  read_number, read_char, read_separator, read_octet, read_ipv4, read_embedded, read_group,
  read_groups, zeros, from_groups, read_tail, read_ipv6, at_end, parse_ipv6,
}

abbrev pub IsGroup : ℕ → Type 0
IsGroup g = g < 65536

read_number-le :
    (radix max limit : ℕ) (allow : Bool) (s : Bytes) {v : ℕ} {rest : Bytes}
    → read_number radix max limit allow s ≡ some (v, rest)
    → v ≤ limit
unfolding read_number
read_number-le radix max limit allow s h = ground arith

read_octet-le :
    (i : ℕ) (s : Bytes) {v : ℕ} {rest : Bytes} → read_octet i s ≡ some (v, rest) → v ≤ 255
unfolding read_octet
read_octet-le i s {v} {rest} h = elim (Option-cases (read_separator b'.' i s)) [
  | inl n ↦ ground (arith, n)
  | inr (t, e) ↦ read_number-le 10 3 255 false t {v = v} {rest = rest} (ground (arith, e))
]

abbrev Pair : ℕ × ℕ × Bytes → Type 0
Pair (a, b, rest) = IsGroup a × IsGroup b

-- A step that reads, and then goes on from what it has read.
some-elim {ℓ κ} :
    {A : Type ℓ} {B : Type κ} (o : Option A) (f : A → Option B) {b : B}
    → elim o as (λ _. Option B) [ none ↦ none | some a ↦ f a ] ≡ some b
    → (a : A) × (o ≡ some a) × (f a ≡ some b)
some-elim none f h = cc
some-elim (some a) f h = (a, refl, h)

read_ipv4-Pair : (s : Bytes) {r : ℕ × ℕ × Bytes} → read_ipv4 s ≡ some r → Pair r
unfolding read_ipv4
read_ipv4-Pair s h =
    let ((a, s₁), ea, h₁) = some-elim (read_octet 0 s) _ h in
    let ((b, s₂), eb, h₂) = some-elim (read_octet 1 s₁) _ h₁ in
    let ((c, s₃), ec, h₃) = some-elim (read_octet 2 s₂) _ h₂ in
    let ((d, s₄), ed, h₄) = some-elim (read_octet 3 s₃) _ h₃ in
    ground (
      arith,
      h₄,
      read_octet-le 0 s ea,
      read_octet-le 1 s₁ eb,
      read_octet-le 2 s₂ ec,
      read_octet-le 3 s₃ ed,
    )

read_group-IsGroup :
    (i : ℕ) (s : Bytes) {g : ℕ} {rest : Bytes} → read_group i s ≡ some (g, rest) → IsGroup g
unfolding read_group
read_group-IsGroup i s h =
    let (t, e, h₁) = some-elim (read_separator b':' i s) (λ t. read_number 16 4 65535 true t) h in
    omega (arith, read_number-le 16 4 65535 true t h₁)

read_embedded-Pair :
    (left i : ℕ) (s : Bytes) {r : ℕ × ℕ × Bytes}
    → read_embedded left i s ≡ some r
    → Pair r × (1 ≤ left)
unfolding read_embedded
read_embedded-Pair zero i s h = cc
read_embedded-Pair (suc left) i s h =
    let (t, e, h₁) = some-elim (read_separator b':' i s) (λ t. read_ipv4 t) h in
    (read_ipv4-Pair t h₁, omega arith)

abbrev Groups : ℕ → List ℕ × Bool × Bytes → Type 0
Groups left (gs, ipv4, rest) = All IsGroup gs × (length gs ≤ left)

read_groups-Groups : (left i : ℕ) (s : Bytes) → Groups left (read_groups left i s)
unfolding read_groups
read_groups-Groups zero i s = (tt, omega arith)
read_groups-Groups (suc left) i s = elim (Option-cases (read_embedded left i s)) [
  | inl none_there ↦ elim (Option-cases (read_group i s)) [
    | inl stop ↦ ground (arith, none_there, stop)
    | inr ((g, rest), e) ↦
        let ih = read_groups-Groups left (i + 1) rest in
        ground (arith, none_there, e, read_group-IsGroup i s e, ih)
  ]
  | inr ((a, b, rest), e) ↦
      let (pair, room) = read_embedded-Pair left i s e in ground (arith, e, pair, room)
]

zeros-IsGroup : (n : ℕ) → All IsGroup (zeros n) × (length (zeros n) ≡ n)
unfolding zeros
zeros-IsGroup zero = (tt, refl)
zeros-IsGroup (suc n) = let rest = zeros-IsGroup n in ((omega arith, rest.0), omega (arith, rest.1))

from_groups-lt :
    (gs : List ℕ) (acc : ℕ) → All IsGroup gs → from_groups acc gs < (acc + 1) * 65536 ^ length gs
from_groups-lt [] acc h = rw pow-zero (omega arith)
from_groups-lt (g ∷ gs) acc h = rw pow-suc (grind (arith, from_groups-lt gs (acc * 65536 + g) h.1))

eight_groups : (gs : List ℕ) → All IsGroup gs → length gs ≡ 8 → from_groups 0 gs < 2 ^ 128
eight_groups gs h e = omega (arith, rw e at (from_groups-lt gs 0 h))

padded :
    (head tail : List ℕ)
    → All IsGroup head
    → All IsGroup tail
    → length head + length tail ≤ 8
    → from_groups 0 (head ++ (zeros (8 - length head - length tail) ++ tail)) < 2 ^ 128
padded head tail h k room =
    let gap = zeros (8 - length head - length tail) in
    let filled = zeros-IsGroup (8 - length head - length tail) in
    eight_groups (head ++ (gap ++ tail))
      (All-append IsGroup head (gap ++ tail) h (All-append IsGroup gap tail filled.0 k))
      (rw (length-append, length-append) (omega (arith, filled.1)))

read_tail-lt :
    (head : List ℕ) (s : Bytes) {a : ℕ} {rest : Bytes}
    → All IsGroup head
    → length head < 8
    → read_tail head s ≡ some (a, rest)
    → a < 2 ^ 128
unfolding read_tail
read_tail-lt head s h short e =
    let (s₁, e₁, h₁) = some-elim (read_char b':' s) _ e in
    let (s₂, e₂, h₂) = some-elim (read_char b':' s₁) _ h₁ in
    let groups = read_groups-Groups (8 - (length head + 1)) 0 s₂ in
    let bound =
      padded head (read_groups (8 - (length head + 1)) 0 s₂).0 h groups.0
        (omega (arith, groups.1)) in
    ground (arith, h₂, bound)

read_ipv6-lt : (s : Bytes) {a : ℕ} {rest : Bytes} → read_ipv6 s ≡ some (a, rest) → a < 2 ^ 128
unfolding read_ipv6
read_ipv6-lt s {a} {rest} e =
    let groups = read_groups-Groups 8 0 s in
    let head = (read_groups 8 0 s).0 in
    elim (Bool-cases (length head == 8)) [
      | inl full ↦ ground (arith, full, eight_groups head groups.0 (ground (arith, full)))
      | inr part ↦
          read_tail-lt head (read_groups 8 0 s).2 {rest = rest} groups.0
            (ground (arith, part, groups.1)) (ground (arith, part))
    ]

at_end-some : (o : Option (ℕ × Bytes)) {a : ℕ} → at_end o ≡ some a → o ≡ some (a, [])
at_end-some none h = cc
at_end-some (some (b, [])) h = ground arith
at_end-some (some (b, c ∷ s)) h = cc

-- A parsed address fits in 128 bits.
pub parse_ipv6-lt : (s : Bytes) {a : ℕ} → parse_ipv6 s ≡ some a → a < 2 ^ 128
parse_ipv6-lt s h = read_ipv6-lt s (at_end-some (read_ipv6 s) (unfold parse_ipv6 in h))
