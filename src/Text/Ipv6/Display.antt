-- ===== src/Text/Ipv6/Display.antt =====
-- `Display` of an `Ipv6Addr`: groups in hexadecimal, the longest run of two or more zero groups as
-- `::`, and an IPv4-mapped address with its last 32 bits in dotted form.
use swornmail.Prelude.{
  ℕ, zero, suc, ◌+◌, ◌/◌, ◌%◌, ◌^◌, ◌&&◌, Option, none, some, List, [], ◌∷◌, ◌++◌, ltb, ◌==◌,
  if◌then◌else◌, take,
}
use swornmail.Text.{Bytes, codes, hex_digit, decimal}

-- `segments`: the last `k` groups of 16 bits
unfoldable pub groups_of : ℕ → ℕ → List ℕ
groups_of zero a = []
groups_of (suc k) a = a / 65536 ^ k % 65536 ∷ groups_of k a

-- `{:x}` of a group
unfoldable pub hex_group : ℕ → Bytes
unfolding hex_digit
hex_group g =
    if ltb g 16
    then hex_digit g ∷ []
    else if ltb g 256
    then hex_digit (g / 16) ∷ hex_digit (g % 16) ∷ []
    else if ltb g 4096
    then hex_digit (g / 256) ∷ hex_digit (g / 16 % 16) ∷ hex_digit (g % 16) ∷ []
    else hex_digit (g / 4096)
      ∷ hex_digit (g / 256 % 16)
      ∷ hex_digit (g / 16 % 16)
      ∷ hex_digit (g % 16)
      ∷ []

pub record Span : Type 0 where
  pub start : ℕ
  pub len : ℕ

abbrev pub no_span : Span
no_span = record { start = 0; len = 0 }

-- One more zero group at an index.
abbrev pub extend : ℕ → Span → Span
extend i current =
    if current.len == 0
    then record { start = i; len = 1 }
    else record { start = current.start; len = current.len + 1 }

abbrev pub longer : Span → Span → Span
longer current longest = if ltb longest.len current.len then current else longest

-- the loop over the groups, from an index on
unfoldable pub longest_zeros : ℕ → Span → Span → List ℕ → Span
longest_zeros i current longest [] = longest
longest_zeros i current longest (g ∷ gs) =
    let zero_next = extend i current in
    let next = if g == 0 then zero_next else no_span in
    let best = if g == 0 then longer zero_next longest else longest in
    longest_zeros (i + 1) next best gs

-- the groups behind the first, each behind a colon
unfoldable pub tail_text : List ℕ → Bytes
unfolding hex_group
tail_text [] = []
tail_text (g ∷ gs) = b':' ∷ (hex_group g ++ tail_text gs)

-- `fmt_subslice`
unfoldable pub groups_text : List ℕ → Bytes
unfolding hex_group tail_text
groups_text [] = []
groups_text (g ∷ gs) = hex_group g ++ tail_text gs

abbrev pub drop {ℓ} : {A : Type ℓ} → ℕ → List A → List A
drop zero xs = xs
drop (suc n) [] = []
drop (suc n) (x ∷ xs) = drop n xs

-- `Ipv4Addr`'s `Display`, from its two halves
unfoldable pub ipv4_text : ℕ → ℕ → Bytes
ipv4_text x y =
    decimal (x / 256)
    ++ b'.' ∷ (decimal (x % 256) ++ b'.' ∷ (decimal (y / 256) ++ b'.' ∷ decimal (y % 256)))

unfoldable pub compressed : Span → List ℕ → Bytes
unfolding groups_text
compressed z gs =
    if ltb 1 z.len
    then groups_text (take z.start gs) ++ (b':' ∷ b':' ∷ groups_text (drop (z.start + z.len) gs))
    else groups_text gs

-- `to_ipv4_mapped` on the groups
unfoldable pub mapped_halves : List ℕ → Option (ℕ × ℕ)
mapped_halves (a ∷ b ∷ c ∷ d ∷ e ∷ f ∷ x ∷ y ∷ []) =
    if a == 0 && b == 0 && c == 0 && d == 0 && e == 0 && f == 0xffff then some (x, y) else none
mapped_halves _ = none

unfoldable pub display_groups : List ℕ → Bytes
unfolding compressed longest_zeros ipv4_text mapped_halves
display_groups gs = elim (mapped_halves gs) [
  | some (x, y) ↦ codes "::ffff:" ++ ipv4_text x y
  | none ↦ compressed (longest_zeros 0 no_span no_span gs) gs
]

unfoldable pub display_ipv6 : ℕ → Bytes
unfolding groups_of display_groups
display_ipv6 a = display_groups (groups_of 8 a)
