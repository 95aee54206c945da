-- ===== src/Address/Ranges.antt =====
-- What `contains`, `overlaps` and `is_canonical` say about the addresses in a prefix.
use native.Mathlib.Decide.{dec_le}
use native.Mathlib.Nat.{div-div-eq-div-mul}
use swornmail.Prelude.{
  ℕ, ◌+◌, ◌-◌, ◌*◌, ◌/◌, ◌%◌, ◌^◌, ◌≤◌, ◌<◌, min, ◌≡◌, refl, sym, ap, ◌∙◌, ◌↔◌, true, arith, ◌==◌,
  ==_iff,
}
use swornmail.Address.{IsAddr, Ipv6Prefix, IsPrefix, mask, is_canonical, contains, overlaps}
use swornmail.Address.Mask.{block, block-pos, block-nested, block-end, two-le-pow, mask_lem}

block_cancel : (x y b : ℕ) → 1 ≤ b → x * b ≡ y * b → x ≡ y
block_cancel x y b h e = grind arith

-- Two addresses have the same mask when they lie in the same block.
pub mask_iff :
    (a b n : ℕ)
    → IsAddr a
    → IsAddr b
    → n ≤ 128
    → ((mask a n == mask b n) ≡ true) ↔ (a / block n ≡ b / block n)
mask_iff a b n ha hb h =
    rw (mask_lem a n ha h, mask_lem b n hb h)
      (
        λ e. block_cancel _ _ (block n) (block-pos n) ((==_iff _ _).0 e),
        λ e. (==_iff _ _).1 (ap (λ (t : ℕ). t * block n) e),
      )

pub network_mono :
    (m n : ℕ) → m ≤ n → n ≤ 128 → (a b : ℕ) → a / block n ≡ b / block n → a / block m ≡ b / block m
network_mono m n h k a b e =
    rw (block-nested m n h k) (
      sym (div-div-eq-div-mul a _ _) ∙ ap (λ (t : ℕ). t / 2 ^ (n - m)) e ∙ div-div-eq-div-mul b _ _)

module _ {p : Ipv6Prefix} (valid : IsPrefix p) where
  pub contains_iff :
      (a : ℕ) → IsAddr a → (contains p a ≡ true) ↔ (a / block p.len ≡ p.addr / block p.len)
  unfolding contains
  contains_iff a fits = mask_iff a p.addr p.len fits valid.addr_fits valid.len_le

  pub contains_self : contains p p.addr ≡ true
  contains_self = (contains_iff p.addr valid.addr_fits).1 refl

  -- A valid prefix is canonical exactly when its address is a multiple of 2 to the number of its
  -- host bits.
  pub is_canonical_iff : (is_canonical p ≡ true) ↔ (p.addr % block p.len ≡ 0)
  unfolding is_canonical
  is_canonical_iff = rw (mask_lem p.addr p.len valid.addr_fits valid.len_le) (
    λ h. let e = (==_iff _ _).0 h in grind (arith, block-pos p.len),
    λ h. (==_iff _ _).1 (grind (arith, block-pos p.len)),
  )

abbrev pub Inside : Ipv6Prefix → ℕ → Type 0
Inside p a = IsAddr a × (contains p a ≡ true)

-- An address that both prefixes hold.
abbrev pub Meet : Ipv6Prefix → Ipv6Prefix → Type 0
Meet p q = (a : ℕ) × Inside p a × Inside q a

-- Every address of the second prefix is in the first.
abbrev pub Covers : Ipv6Prefix → Ipv6Prefix → Type 0
Covers p q = (a : ℕ) → Inside q a → Inside p a

module _ {p q : Ipv6Prefix} (vp : IsPrefix p) (vq : IsPrefix q) where
  Meet-shorter : p.len ≤ q.len → ((mask p.addr p.len == mask q.addr p.len) ≡ true) ↔ Meet p q
  Meet-shorter h = (
    λ e.
        let same = (mask_iff _ _ p.len vp.addr_fits vq.addr_fits vp.len_le).0 e in
        (
          q.addr,
          (vq.addr_fits, (contains_iff vp q.addr vq.addr_fits).1 (sym same)),
          (vq.addr_fits, contains_self vq),
        ),
    λ m.
        let (a, (fits, inp), (fits', inq)) = m in
        let inq' =
          network_mono p.len q.len h vq.len_le a q.addr ((contains_iff vq a fits').0 inq) in
        (mask_iff _ _ p.len vp.addr_fits vq.addr_fits vp.len_le).1
          (sym ((contains_iff vp a fits).0 inp) ∙ inq'),
  )

ends_apart :
    (m n first : ℕ) → n < m → m ≤ 128 → first / block m ≡ (first + block n - 1) / block m → ⊥
ends_apart m n first h k e =
    grind (arith, block-nested n m (omega arith) k, two-le-pow (m - n) (omega arith), block-pos m)

pub block_start : (b x : ℕ) → 1 ≤ b → x * b / b ≡ x
block_start b x h = grind arith

block_last : (b x : ℕ) → 1 ≤ b → (x * b + b - 1) / b ≡ x
block_last b x h = grind arith

module _ {p q : Ipv6Prefix} (vp : IsPrefix p) (vq : IsPrefix q) where
  Meet-longer : q.len ≤ p.len → ((mask p.addr q.len == mask q.addr q.len) ≡ true) ↔ Meet p q
  Meet-longer h = (
    λ e. let (a, inq, inp) = (Meet-shorter vq vp h).0 (ground (arith, e)) in (a, inp, inq),
    λ m.
        let (a, inp, inq) = m in
        let e = (Meet-shorter vq vp h).1 (a, inq, inp) in ground (arith, e),
  )

  -- `overlaps` of two valid prefixes holds exactly when some address lies in both.
  pub overlaps_iff : (overlaps p q ≡ true) ↔ Meet p q
  unfolding overlaps
  overlaps_iff = elim (dec_le p.len q.len) [
    | yes h ↦ let e : min p.len q.len ≡ p.len = omega arith in rw e (Meet-shorter vp vq h)
    | no h ↦ let e : min p.len q.len ≡ q.len = omega arith in rw e (Meet-longer (omega arith))
  ]

  contains_longer : p.len ≤ q.len → contains p q.addr ≡ true → Covers p q
  contains_longer h inside a (fits, inq) =
      let inq' = network_mono p.len q.len h vq.len_le a q.addr ((contains_iff vq a fits).0 inq) in
      (fits, (contains_iff vp a fits).1 (inq' ∙ (contains_iff vp q.addr vq.addr_fits).0 inside))

  -- The first and the last address of a larger block do not fit in a smaller one.
  Covers-le : Covers p q → p.len ≤ q.len
  Covers-le c = elim (dec_le p.len q.len) [
    | yes h ↦ h
    | no h ↦
        let first = q.addr / block q.len * block q.len in
        let last = first + block q.len - 1 in
        let ends = block-end q.len q.addr vq.len_le vq.addr_fits in
        absurd (
          ends_apart p.len q.len first (omega arith) vp.len_le (
            net first (omega (arith, ends, block-pos q.len))
              (block_start (block q.len) (q.addr / block q.len) (block-pos q.len))
            ∙ sym (
                net last (omega (arith, ends, block-pos q.len))
                  (block_last (block q.len) (q.addr / block q.len) (block-pos q.len)))))
  ]
    where
      net :
          (a : ℕ)
          → IsAddr a
          → a / block q.len ≡ q.addr / block q.len
          → a / block p.len ≡ p.addr / block p.len
      net a fits e = (contains_iff vp a fits).0 (c a (fits, (contains_iff vq a fits).1 e)).1

  -- For two valid prefixes, the first is no longer than the second and contains its address exactly
  -- when every address in the second is in the first.
  pub Covers-iff : ((p.len ≤ q.len) × (contains p q.addr ≡ true)) ↔ Covers p q
  Covers-iff = (
    λ (h, inside). contains_longer h inside,
    λ c. (Covers-le c, (c q.addr (vq.addr_fits, contains_self vq)).1),
  )
