-- ===== src/Text/Number.antt =====
-- `i64::from_str` and `splitn`.
use swornmail.Prelude.{
  ℕ, zero, suc, ◌+◌, ◌-◌, ◌*◌, ◌^◌, Option, none, some, List, [], ◌∷◌, ltb, leb, ◌==◌,
  if◌then◌else◌,
}
use swornmail.Prelude.Int.{ℤ, pos, negsuc}
use swornmail.Text.{Bytes, is_ascii_digit, split_once}

-- The value of a text of digits. The source computes it with an overflow test in each round; the
-- value never falls, so a test of the whole value refuses the same texts.
unfoldable pub digits_value : ℕ → Bytes → Option ℕ
digits_value acc [] = some acc
digits_value acc (c ∷ s) =
    let rest = digits_value (acc * 10 + (c - b'0')) s in if is_ascii_digit c then rest else none

-- `-n`
abbrev pub negative : ℕ → ℤ
negative zero = pos 0
negative (suc n) = negsuc n

abbrev pub positive_i64 : Option ℕ → Option ℤ
positive_i64 none = none
positive_i64 (some n) = if ltb n (2 ^ 63) then some (pos n) else none

abbrev pub negative_i64 : Option ℕ → Option ℤ
negative_i64 none = none
negative_i64 (some n) = if leb n (2 ^ 63) then some (negative n) else none

-- digits behind an optional sign
unfoldable pub i64_from_str : Bytes → Option ℤ
unfolding digits_value
i64_from_str [] = none
i64_from_str (c ∷ []) = positive_i64 (digits_value 0 (c ∷ []))
i64_from_str (c ∷ d ∷ s) =
    if c == b'+'
    then positive_i64 (digits_value 0 (d ∷ s))
    else if c == b'-'
    then negative_i64 (digits_value 0 (d ∷ s))
    else positive_i64 (digits_value 0 (c ∷ d ∷ s))

-- `splitn(n, c)`: at most `n` pieces, the last with all that is left
unfoldable pub splitn : ℕ → ℕ → Bytes → List Bytes
splitn zero c s = []
splitn (suc zero) c s = s ∷ []
splitn (suc (suc n)) c s = elim (split_once c s) [
  | none ↦ s ∷ []
  | some (piece, rest) ↦ piece ∷ splitn (suc n) c rest
]
