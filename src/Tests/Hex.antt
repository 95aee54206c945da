-- ===== src/Tests/Hex.antt =====
-- Octets from their hexadecimal form, for test data.
use swornmail.Prelude.{ℕ, String, zero, suc, ◌+◌, ◌-◌, ◌*◌, List, [], ◌∷◌, ltb, if◌then◌else◌}
use swornmail.Text.{Bytes, codes}

abbrev pub repeat : ℕ → ℕ → Bytes
repeat zero c = []
repeat (suc n) c = c ∷ repeat n c

-- the value of a digit, 0 to 9 or a to f
abbrev digit : ℕ → ℕ
digit c = if ltb c 58 then c - 48 else c - 87

-- Pairs of digits, and the octets behind them.
abbrev octets : Bytes → Bytes → Bytes
octets (c ∷ d ∷ s) rest = (digit c * 16 + digit d) ∷ octets s rest
octets _ rest = rest

abbrev pub hex : List String → Bytes
hex [] = []
hex (s ∷ ss) = octets (codes s) (hex ss)
