-- ===== src/Token/Units.antt =====
-- The reputation units of a token are made from the source, and nest inside the attested prefix.
use swornmail.Prelude.{ℕ, ◌/◌, ◌≤◌, ◌≡◌, sym, ◌∙◌, true, arith}
use swornmail.Address.{IsAddr, Ipv6Prefix, IsPrefix, mask, contains}
use swornmail.Address.Mask.{block, mask_lem, mask-IsAddr, block-pos}
use swornmail.Address.Ranges.{contains_iff, network_mono, Covers, block_start}
use swornmail.Token.{unit_at}

unit_at-IsPrefix : (s n : ℕ) → IsAddr s → n ≤ 128 → IsPrefix (unit_at s n)
unit_at-IsPrefix s n fits h = record { addr_fits = mask-IsAddr s n fits h; len_le = h }

unit_at-network : (s n : ℕ) → IsAddr s → n ≤ 128 → mask s n / block n ≡ s / block n
unit_at-network s n fits h =
    rw (mask_lem s n fits h) (block_start (block n) (s / block n) (block-pos n))

-- A finer unit of the same source lies in a coarser one.
pub unit_at-Covers : (s m n : ℕ) → IsAddr s → m ≤ n → n ≤ 128 → Covers (unit_at s m) (unit_at s n)
unit_at-Covers s m n fits h k a (fits', inside) =
    let m-le : m ≤ 128 = omega arith in
    let same =
      (contains_iff (unit_at-IsPrefix s n fits k) a fits').0 inside ∙ unit_at-network s n fits k in
    (
      fits',
      (contains_iff (unit_at-IsPrefix s m fits m-le) a fits').1
          (network_mono m n h k a s same ∙ sym (unit_at-network s m fits m-le)),
    )

-- A prefix that holds the source holds each of its units that is no coarser.
pub prefix-Covers :
    {p : Ipv6Prefix} (s n : ℕ)
    → IsPrefix p
    → IsAddr s
    → contains p s ≡ true
    → p.len ≤ n
    → n ≤ 128
    → Covers p (unit_at s n)
prefix-Covers {p} s n valid fits member h k a (fits', inside) =
    let same =
      (contains_iff (unit_at-IsPrefix s n fits k) a fits').0 inside ∙ unit_at-network s n fits k in
    (
      fits',
      (contains_iff valid a fits').1
          (network_mono p.len n h k a s same ∙ (contains_iff valid s fits).0 member),
    )

pub unit_at-contains : (s n : ℕ) → IsAddr s → n ≤ 128 → contains (unit_at s n) s ≡ true
unit_at-contains s n fits h =
    (contains_iff (unit_at-IsPrefix s n fits h) s fits).1 (sym (unit_at-network s n fits h))
