-- ===== src/Text/Ipv6/Characters.antt =====
-- The characters of a displayed address.
use mathlib.Core.Path.{subst}
use swornmail.Prelude.{
  ℕ, zero, suc, ◌+◌, ◌/◌, ◌%◌, ◌≤◌, ◌≡◌, refl, some, List, [], ◌∷◌, arith, ltb, take, length, All,
  All-append, All-map, ◌⊎◌, Bool-cases, Option-cases, inl, inr,
}
use swornmail.Text.{hex_digit, decimal, codes}
use swornmail.Text.Split.{Lacks}
use swornmail.Text.Ipv6.Bounds.{IsGroup}
use swornmail.Text.Ipv6.Display.{
  Span, no_span, longest_zeros, drop, groups_of, hex_group, tail_text, groups_text, compressed,
  ipv4_text, mapped_halves, display_groups, display_ipv6,
}

pub groups_of-IsGroup : (k a : ℕ) → All IsGroup (groups_of k a) × (length (groups_of k a) ≡ k)
unfolding groups_of
groups_of-IsGroup zero a = (tt, refl)
groups_of-IsGroup (suc k) a =
    let rest = groups_of-IsGroup k a in ((omega arith, rest.0), omega (arith, rest.1))

-- The digits of a group, and the colon.
abbrev pub IsGroupByte : ℕ → Type 0
IsGroupByte c = ((b'0' ≤ c) × (c ≤ b':')) ⊎ ((b'a' ≤ c) × (c ≤ b'f'))

hex_group-IsGroupByte : (g : ℕ) → IsGroup g → All IsGroupByte (hex_group g)
unfolding hex_group hex_digit
hex_group-IsGroupByte g h = ground arith

tail_text-IsGroupByte : (gs : List ℕ) → All IsGroup gs → All IsGroupByte (tail_text gs)
unfolding tail_text
tail_text-IsGroupByte [] h = tt
tail_text-IsGroupByte (g ∷ gs) h = (
  inl (omega arith, omega arith),
  All-append IsGroupByte (hex_group g) (tail_text gs) (hex_group-IsGroupByte g h.0)
      (tail_text-IsGroupByte gs h.1),
)

groups_text-IsGroupByte : (gs : List ℕ) → All IsGroup gs → All IsGroupByte (groups_text gs)
unfolding groups_text
groups_text-IsGroupByte [] h = tt
groups_text-IsGroupByte (g ∷ gs) h =
    All-append IsGroupByte (hex_group g) (tail_text gs) (hex_group-IsGroupByte g h.0)
      (tail_text-IsGroupByte gs h.1)

pub groups_text-Lacks : (gs : List ℕ) → All IsGroup gs → Lacks b'.' (groups_text gs)
groups_text-Lacks gs h =
    All-map (groups_text gs) (λ c k. ground arith) (groups_text-IsGroupByte gs h)

pub All-take : (n : ℕ) (gs : List ℕ) → All IsGroup gs → All IsGroup (take n gs)
All-take zero gs h = tt
All-take (suc n) [] h = tt
All-take (suc n) (g ∷ gs) h = (h.0, All-take n gs h.1)

pub All-drop : (n : ℕ) (gs : List ℕ) → All IsGroup gs → All IsGroup (drop n gs)
All-drop zero gs h = h
All-drop (suc n) [] h = tt
All-drop (suc n) (g ∷ gs) h = All-drop n gs h.1

pub mapped_halves-eq-some :
    (gs : List ℕ) {x y : ℕ}
    → mapped_halves gs ≡ some (x, y)
    → gs ≡ 0 ∷ 0 ∷ 0 ∷ 0 ∷ 0 ∷ 0xffff ∷ x ∷ y ∷ []
unfolding mapped_halves
mapped_halves-eq-some (a ∷ b ∷ c ∷ d ∷ e ∷ f ∷ x ∷ y ∷ []) h = ground arith
mapped_halves-eq-some [] h = cc
mapped_halves-eq-some (a ∷ []) h = cc
mapped_halves-eq-some (a ∷ b ∷ []) h = cc
mapped_halves-eq-some (a ∷ b ∷ c ∷ []) h = cc
mapped_halves-eq-some (a ∷ b ∷ c ∷ d ∷ []) h = cc
mapped_halves-eq-some (a ∷ b ∷ c ∷ d ∷ e ∷ []) h = cc
mapped_halves-eq-some (a ∷ b ∷ c ∷ d ∷ e ∷ f ∷ []) h = cc
mapped_halves-eq-some (a ∷ b ∷ c ∷ d ∷ e ∷ f ∷ g ∷ []) h = cc
mapped_halves-eq-some (a ∷ b ∷ c ∷ d ∷ e ∷ f ∷ x ∷ y ∷ z ∷ gs) h = cc

-- A digit, a dot, a colon, or a small letter up to f.
abbrev pub IsAddressByte : ℕ → Type 0
IsAddressByte c = IsGroupByte c ⊎ (c ≡ b'.')

decimal-IsAddressByte : (n : ℕ) → n ≤ 255 → All IsAddressByte (decimal n)
decimal-IsAddressByte n h = ground arith

ipv4_text-IsAddressByte : (x y : ℕ) → IsGroup x → IsGroup y → All IsAddressByte (ipv4_text x y)
unfolding ipv4_text
ipv4_text-IsAddressByte x y hx hy =
    let join = All-append IsAddressByte in
    let dot : IsAddressByte b'.' = inr refl in
    join (decimal (x / 256)) _ (decimal-IsAddressByte (x / 256) (omega arith)) (
      dot,
      join (decimal (x % 256)) _ (decimal-IsAddressByte (x % 256) (omega arith)) (
        dot,
        join (decimal (y / 256)) _ (decimal-IsAddressByte (y / 256) (omega arith))
            (dot, decimal-IsAddressByte (y % 256) (omega arith)),
      ),
    )

groups_text-IsAddressByte : (gs : List ℕ) → All IsGroup gs → All IsAddressByte (groups_text gs)
groups_text-IsAddressByte gs h =
    All-map (groups_text gs) (λ c k. inl k) (groups_text-IsGroupByte gs h)

compressed-IsAddressByte :
    (z : Span) (gs : List ℕ) → All IsGroup gs → All IsAddressByte (compressed z gs)
unfolding compressed
compressed-IsAddressByte z gs h = elim (Bool-cases (ltb 1 z.len)) [
  | inl long ↦ rw long (
      All-append IsAddressByte (groups_text (take z.start gs)) _
        (groups_text-IsAddressByte _ (All-take z.start gs h))
        (
          inl (inl (omega arith, omega arith)),
          (
            inl (inl (omega arith, omega arith)),
            groups_text-IsAddressByte _ (All-drop (z.start + z.len) gs h),
          ),
        ))
  | inr short ↦ rw short (groups_text-IsAddressByte gs h)
]

display_groups-IsAddressByte :
    (gs : List ℕ) → All IsGroup gs → All IsAddressByte (display_groups gs)
unfolding display_groups
display_groups-IsAddressByte gs h = elim (Option-cases (mapped_halves gs)) [
  | inl plain ↦
      rw (plain, display_groups)
        (compressed-IsAddressByte (longest_zeros 0 no_span no_span gs) gs h)
  | inr ((x, y), e) ↦
      let same = mapped_halves-eq-some gs {x = x} {y = y} e in
      let groups = subst (All IsGroup) same h in
      rw (e, display_groups)
        (All-append IsAddressByte (codes "::ffff:") (ipv4_text x y) (ground arith)
          (ipv4_text-IsAddressByte x y groups.1.1.1.1.1.1.0 groups.1.1.1.1.1.1.1.0))
]

pub display_ipv6-IsAddressByte : (a : ℕ) → All IsAddressByte (display_ipv6 a)
unfolding display_ipv6
display_ipv6-IsAddressByte a =
    display_groups-IsAddressByte (groups_of 8 a) (groups_of-IsGroup 8 a).0
