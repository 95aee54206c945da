-- ===== src/Text/Ipv6/Reading.antt =====
-- How the reader of addresses takes apart the groups that `Display` writes.
use mathlib.Core.Path.{subst}
use mathlib.Core.List.{append_assoc}
use swornmail.Prelude.{
  ℕ, zero, suc, ◌+◌, ◌≤◌, ◌≡◌, refl, true, false, none, some, List, [], ◌∷◌, ◌++◌, arith, length,
  All,
}
use swornmail.Text.{Bytes}
use swornmail.Text.Split.{Lacks}
use swornmail.Text.Ipv6.{
  read_digits, read_number, read_char, read_separator, read_group, read_groups,
}
use swornmail.Text.Ipv6.Bounds.{IsGroup}
use swornmail.Text.Ipv6.Display.{hex_group, tail_text, groups_text}
use swornmail.Text.Ipv6.HexDigits.{Stops, read_number-hex_group, read_embedded-Lacks}

-- The end of the text, or `::`.
abbrev pub Ends : Bytes → Type 0
Ends [] = Unit
Ends (a ∷ []) = ⊥
Ends (a ∷ b ∷ s) = (a ≡ b':') × (b ≡ b':')

tail_text-Stops : (gs : List ℕ) (rest : Bytes) → Ends rest → Stops (tail_text gs ++ rest)
unfolding tail_text
tail_text-Stops [] [] h = tt
tail_text-Stops [] (a ∷ []) h = elim h [ ]
tail_text-Stops [] (a ∷ b ∷ s) h = ground arith
tail_text-Stops (g ∷ gs) rest h = refl

read_group-Ends : (i : ℕ) (rest : Bytes) → Ends rest → read_group (suc i) rest ≡ none
unfolding read_group read_separator read_char read_number read_digits
read_group-Ends i [] h = refl
read_group-Ends i (a ∷ []) h = elim h [ ]
read_group-Ends i (a ∷ b ∷ s) h = ground arith

read_number-Ends : (rest : Bytes) → Ends rest → read_number 16 4 65535 true rest ≡ none
unfolding read_number read_digits
read_number-Ends [] h = refl
read_number-Ends (a ∷ []) h = elim h [ ]
read_number-Ends (a ∷ b ∷ s) h = ground arith

read_groups-none :
    (left i : ℕ) (s : Bytes)
    → Lacks b'.' s
    → read_group i s ≡ none
    → read_groups left i s ≡ ([], false, s)
unfolding read_groups
read_groups-none zero i s h e = refl
read_groups-none (suc left) i s h e = rw (read_embedded-Lacks left i s h, e, read_groups) refl

read_groups-some :
    (left i g : ℕ) (s rest : Bytes) (gs : List ℕ) (end : Bytes)
    → Lacks b'.' s
    → read_group i s ≡ some (g, rest)
    → read_groups left (suc i) rest ≡ (gs, false, end)
    → read_groups (suc left) i s ≡ (g ∷ gs, false, end)
unfolding read_groups
read_groups-some left i g s rest gs end h e more =
    let step : suc i ≡ i + 1 = omega arith in
    let next = subst (λ j. read_groups left j rest ≡ (gs, false, end)) step more in
    rw (read_embedded-Lacks left i s h, e, next, read_groups) refl

Lacks-behind : (a b : Bytes) → Lacks b'.' (a ++ b) → Lacks b'.' b
Lacks-behind [] b h = h
Lacks-behind (x ∷ a) b h = Lacks-behind a b h.1

read_groups-tail_text :
    (gs : List ℕ) (left i : ℕ) (rest : Bytes)
    → All IsGroup gs
    → length gs ≤ left
    → Ends rest
    → Lacks b'.' (tail_text gs ++ rest)
    → read_groups left (suc i) (tail_text gs ++ rest) ≡ (gs, false, rest)
unfolding tail_text
read_groups-tail_text [] left i rest groups room ends h =
    read_groups-none left (suc i) rest h (read_group-Ends i rest ends)
read_groups-tail_text (g ∷ gs) zero i rest groups room ends h = absurd (omega arith)
read_groups-tail_text (g ∷ gs) (suc left) i rest groups room ends h =
    let behind = tail_text gs ++ rest in
    let regroup = append_assoc (hex_group g) (tail_text gs) rest in
    let no_dot = subst (Lacks b'.') regroup h.1 in
    let more =
      read_groups-tail_text gs left (suc i) rest groups.1 (omega arith) ends
        (Lacks-behind (hex_group g) behind no_dot) in
    rw regroup (
      read_groups-some left (suc i) g (b':' ∷ hex_group g ++ behind) behind gs rest (h.0, no_dot)
        (unfold read_group read_separator read_char in
          read_number-hex_group g behind groups.0 (tail_text-Stops gs rest ends))
        more)

-- All groups of a text that `fmt_subslice` has written are read.
pub read_groups-groups_text :
    (gs : List ℕ) (left : ℕ) (rest : Bytes)
    → All IsGroup gs
    → length gs ≤ left
    → Ends rest
    → Lacks b'.' (groups_text gs ++ rest)
    → read_groups left 0 (groups_text gs ++ rest) ≡ (gs, false, rest)
unfolding groups_text
read_groups-groups_text [] left rest groups room ends h =
    read_groups-none left 0 rest h (unfold read_group read_separator in read_number-Ends rest ends)
read_groups-groups_text (g ∷ gs) zero rest groups room ends h = absurd (omega arith)
read_groups-groups_text (g ∷ gs) (suc left) rest groups room ends h =
    let behind = tail_text gs ++ rest in
    let regroup = append_assoc (hex_group g) (tail_text gs) rest in
    let no_dot = subst (Lacks b'.') regroup h in
    let more =
      read_groups-tail_text gs left 0 rest groups.1 (omega arith) ends
        (Lacks-behind (hex_group g) behind no_dot) in
    rw regroup (
      read_groups-some left 0 g (hex_group g ++ behind) behind gs rest no_dot
        (unfold read_group read_separator in
          read_number-hex_group g behind groups.0 (tail_text-Stops gs rest ends))
        more)
