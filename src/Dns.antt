-- ===== src/Dns.antt =====
-- DNS labels of letters, digits and hyphens, as the draft describes them.
use swornmail.Prelude.{ℕ, ◌≤◌, ◌≡◌, ◌≢◌, ◌⊎◌, List, [], ◌∷◌, ◌++◌, All, length}
use swornmail.Text.{Bytes}
use swornmail.Text.Split.{join}

-- A letter, a digit or a hyphen.
abbrev pub IsLdh : ℕ → Type 0
IsLdh c =
    ((b'0' ≤ c) × (c ≤ b'9')) ⊎ ((b'A' ≤ c) × (c ≤ b'Z')) ⊎ ((b'a' ≤ c) × (c ≤ b'z')) ⊎ (c ≡ b'-')

-- 1 to 63 such octets, with no hyphen at either end.
pub record IsLabel (label : Bytes) : Type 0 where
  pub not_empty : 1 ≤ length label
  pub short : length label ≤ 63
  pub ldh : All IsLdh label
  pub no_lead : (rest : Bytes) → label ≢ b'-' ∷ rest
  pub no_trail : (rest : Bytes) → label ≢ rest ++ b'-' ∷ []

-- One label or more, joined by dots, of at most 253 octets in all.
pub record IsDomain (s : Bytes) : Type 0 where
  pub first : Bytes
  pub others : List Bytes
  pub labels : All IsLabel (first ∷ others)
  pub spelled : s ≡ join b'.' (first ∷ others)
  pub fits : length s ≤ 253
