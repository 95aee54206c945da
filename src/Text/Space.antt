-- ===== src/Text/Space.antt =====
-- `str::trim` on any text: the white space of Unicode, in UTF-8.
use mathlib.Core.List.{reverse, reverse-reverse, reverse-cons}
use mathlib.Core.Path.{subst}
use swornmail.Prelude.{
  ℕ, zero, suc, ◌≤◌, ◌≡◌, refl, sym, ap, ◌∙◌, All, All-append, arith, Bool, ◌&&◌, ◌||◌, [], ◌∷◌,
  ◌==◌, within, if◌then◌else◌,
}
use swornmail.Text.{Bytes, is_whitespace}

-- U+0085 and U+00A0
abbrev pub is_space_2 : ℕ → ℕ → Bool
is_space_2 a b = a == 0xc2 && (b == 0x85 || b == 0xa0)

-- U+1680, U+2000 to U+200A, U+2028, U+2029, U+202F, U+205F, U+3000
abbrev pub is_space_3 : ℕ → ℕ → ℕ → Bool
is_space_3 a b c =
    (a == 0xe1 && b == 0x9a && c == 0x80)
    || (a == 0xe2 && b == 0x80 && (within 0x80 0x8a c || c == 0xa8 || c == 0xa9 || c == 0xaf))
    || (a == 0xe2 && b == 0x81 && c == 0x9f)
    || (a == 0xe3 && b == 0x80 && c == 0x80)

abbrev width_1 : ℕ → ℕ
width_1 a = if is_whitespace a then 1 else 0

abbrev width_2 : ℕ → ℕ → ℕ
width_2 a b = if is_space_2 a b then 2 else width_1 a

-- How many octets a white space at the front takes, none if there is no white space.
abbrev space_width : Bytes → ℕ
space_width [] = 0
space_width (a ∷ []) = width_1 a
space_width (a ∷ b ∷ []) = width_2 a b
space_width (a ∷ b ∷ c ∷ s) = if is_space_3 a b c then 3 else width_2 a b

-- The same for a text whose octets stand in reverse.
abbrev space_width_back : Bytes → ℕ
space_width_back [] = 0
space_width_back (a ∷ []) = width_1 a
space_width_back (a ∷ b ∷ []) = if is_space_2 b a then 2 else width_1 a
space_width_back (a ∷ b ∷ c ∷ s) =
    if is_space_3 c b a then 3 else if is_space_2 b a then 2 else width_1 a

-- Skips octets, and then each white space at the front.
skip : (Bytes → ℕ) → ℕ → Bytes → Bytes
skip width n [] = []
skip width (suc n) (x ∷ s) = skip width n s
skip width zero (x ∷ s) = elim (width (x ∷ s)) [ zero ↦ x ∷ s | suc n ↦ skip width n s ]

unfoldable pub trim_unicode : Bytes → Bytes
unfolding skip
trim_unicode s = reverse (skip space_width_back 0 (reverse (skip space_width 0 s)))

-- Visible ASCII.
abbrev pub IsGraphic : ℕ → Type 0
IsGraphic c = (33 ≤ c) × (c ≤ 126)

space_width-IsGraphic : (s : Bytes) → All IsGraphic s → space_width s ≡ 0
space_width-IsGraphic [] h = refl
space_width-IsGraphic (a ∷ []) h = ground arith
space_width-IsGraphic (a ∷ b ∷ []) h = ground arith
space_width-IsGraphic (a ∷ b ∷ c ∷ s) h = ground arith

space_width_back-IsGraphic : (s : Bytes) → All IsGraphic s → space_width_back s ≡ 0
space_width_back-IsGraphic [] h = refl
space_width_back-IsGraphic (a ∷ []) h = ground arith
space_width_back-IsGraphic (a ∷ b ∷ []) h = ground arith
space_width_back-IsGraphic (a ∷ b ∷ c ∷ s) h = ground arith

skip_none : (width : Bytes → ℕ) (s : Bytes) → width s ≡ 0 → skip width 0 s ≡ s
unfolding skip
skip_none width [] h = refl
skip_none width (x ∷ s) h = rw (skip, h) refl

All-reverse : (s : Bytes) → All IsGraphic s → All IsGraphic (reverse s)
All-reverse [] h = tt
All-reverse (x ∷ s) h =
    subst (All IsGraphic) (sym (reverse-cons x s))
      (All-append IsGraphic (reverse s) (x ∷ []) (All-reverse s h.1) (h.0, tt))

-- A text of visible characters is left alone.
pub trim_unicode_whole : (s : Bytes) → All IsGraphic s → trim_unicode s ≡ s
unfolding trim_unicode
trim_unicode_whole s h =
    ap (λ t. reverse (skip space_width_back 0 (reverse t)))
      (skip_none space_width s (space_width-IsGraphic s h))
    ∙ ap reverse
        (skip_none space_width_back (reverse s) (space_width_back-IsGraphic _ (All-reverse s h)))
    ∙ reverse-reverse s
