-- ===== src/Payload/Wire.antt =====
-- The wire form of a prefix: 16 octets of address, then the length.
use native.Mathlib.Nat.{pow-zero, pow-suc}
use mathlib.Core.Path.{subst}
use swornmail.Prelude.{
  ℕ, zero, suc, ◌+◌, ◌*◌, ◌/◌, ◌%◌, ◌^◌, ◌<◌, ◌≡◌, ◌∙◌, some, List, [], ◌∷◌, ◌++◌, arith, All,
  length, take, length-take, Bool-cases, inl, inr,
}
use swornmail.Prelude.Bits.{split_digit}
use swornmail.Prelude.Int.{ℤ, eqb_ℤ}
use swornmail.Prelude.Results.{ok}
use swornmail.Text.{Bytes}
use swornmail.Address.{Ipv6Prefix, IsPrefix, new}
use swornmail.Backend.{Value, bytes, integer}
use swornmail.Payload.{from_octets, decode_prefix}
use swornmail.Payload.Fields.{find}

abbrev pub IsByte : ℕ → Type 0
IsByte b = b < 256

-- The byte string of a value, if it is one, consists of octets.
abbrev pub HasOctets : Value → Type 0
HasOctets (bytes b) = All IsByte b
HasOctets _ = Unit

from_octets-lt :
    (s : Bytes) (acc : ℕ) → All IsByte s → from_octets acc s < (acc + 1) * 256 ^ length s
from_octets-lt [] acc h = rw pow-zero (omega arith)
from_octets-lt (b ∷ s) acc h = rw pow-suc (grind (arith, from_octets-lt s (acc * 256 + b) h.1))

take-All : (n : ℕ) (s : Bytes) → All IsByte s → All IsByte (take n s)
take-All zero s h = tt
take-All (suc n) [] h = tt
take-All (suc n) (x ∷ s) h = (h.0, take-All n s h.1)

-- A prefix decoded from octets has an address of 128 bits and a length of at most 128.
pub decode_prefix-IsPrefix :
    (b : Bytes) {p : Ipv6Prefix} → All IsByte b → decode_prefix b ≡ ok p → IsPrefix p
unfolding decode_prefix new
decode_prefix-IsPrefix b h e =
    let bound = from_octets-lt (take 16 b) 0 (take-All 16 b h) in
    ground (arith, length-take 16 b, bound)

pub find-HasOctets :
    (k : ℤ) (es : List (Value × Value)) {b : Bytes}
    → All (λ (key, v). HasOctets v) es
    → find k es ≡ some (bytes b)
    → All IsByte b
find-HasOctets k [] h e = cc
find-HasOctets k ((integer i, v) ∷ es) {b} h e = elim (Bool-cases (eqb_ℤ i k)) [
  | inl same ↦ let here : v ≡ bytes b = ground arith in subst HasOctets here h.0
  | inr other ↦ find-HasOctets k es h.1 (ground arith)
]
find-HasOctets k ((_, v) ∷ es) h e = find-HasOctets k es h.1 e

-- The last `k` octets of a number, the most significant first.
abbrev pub octets_of : ℕ → ℕ → Bytes
octets_of zero a = []
octets_of (suc k) a = a / 256 ^ k % 256 ∷ octets_of k a

-- A prefix as a token carries it.
abbrev pub prefix_octets : Ipv6Prefix → Bytes
prefix_octets p = octets_of 16 p.addr ++ p.len ∷ []

from_octets-octets_of :
    (k acc a : ℕ) → from_octets acc (octets_of k a) ≡ acc * 256 ^ k + a % 256 ^ k
from_octets-octets_of zero acc a = rw pow-zero (omega arith)
from_octets-octets_of (suc k) acc a =
    from_octets-octets_of k (acc * 256 + a / 256 ^ k % 256) a
    ∙ rw pow-suc (grind (arith, split_digit a (256 ^ k) 256))

-- A valid prefix written as its 16 address octets and its length is decoded to the same prefix.
pub decode_prefix-prefix_octets :
    (p : Ipv6Prefix) → IsPrefix p → decode_prefix (prefix_octets p) ≡ ok p
unfolding decode_prefix new
decode_prefix-prefix_octets p v =
    let read : from_octets 0 (octets_of 16 p.addr) ≡ p.addr =
      omega (arith, from_octets-octets_of 16 0 p.addr, v) in
    ground (arith, read)
