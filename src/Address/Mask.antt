-- ===== src/Address/Mask.antt =====
-- `mask` as rounding down to a multiple of a power of two.
use native.Mathlib.Nat.{pow-zero, pow-suc, add-zero, add-suc, mul-one, mul_assoc}
use swornmail.Prelude.{
  ℕ, zero, suc, ◌+◌, ◌-◌, ◌*◌, ◌/◌, ◌^◌, ◌≤◌, ◌<◌, ◌≡◌, refl, ap, ◌∙◌, Bool, true, ◌&&◌, arith,
  ◌==◌, ==_iff,
}
use swornmail.Prelude.Bits.{pow-pos, bit_and-rounds}
use swornmail.Address.{IsAddr, keep, mask}

-- The number of host bits of a prefix length, and the size of its block.
abbrev pub block : ℕ → ℕ
block n = 2 ^ (128 - n)

-- A test on the numbers below a bound.
every : (ℕ → Bool) → ℕ → Bool
every test zero = true
every test (suc bound) = every test bound && test bound

every-true : (test : ℕ → Bool) (bound i : ℕ) → every test bound ≡ true → i < bound → test i ≡ true
unfolding every
every-true test zero i h lt = absurd (omega arith)
every-true test (suc bound) i h lt = ground (arith, every-true test bound i)

keep-ones : (n : ℕ) → n ≤ 128 → keep n ≡ (2 ^ n - 1) * block n
keep-ones n h =
    (==_iff _ _).0 (every-true (λ m. keep m == (2 ^ m - 1) * block m) 129 n table (omega arith))
  where
    table : every (λ m. keep m == (2 ^ m - 1) * block m) 129 ≡ true
    table = unfold every keep in refl

pub pow-block : (n : ℕ) → n ≤ 128 → 2 ^ n * block n ≡ 2 ^ 128
pow-block n h =
    (==_iff _ _).0 (every-true (λ m. 2 ^ m * block m == 2 ^ 128) 129 n table (omega arith))
  where
    table : every (λ m. 2 ^ m * block m == 2 ^ 128) 129 ≡ true
    table = unfold every in refl

pub block-pos : (n : ℕ) → 1 ≤ block n
block-pos n = pow-pos (128 - n)

pub network-lt : (n a : ℕ) → n ≤ 128 → IsAddr a → a / block n < 2 ^ n
network-lt n a h fits = grind (arith, pow-block n h, block-pos n)

pub pow-add : (m n : ℕ) → 2 ^ (m + n) ≡ 2 ^ m * 2 ^ n
pow-add m zero = rw (add-zero, pow-zero, mul-one)
pow-add m (suc n) = rw (add-suc, pow-suc (2) (m + n), pow-suc (2) n, pow-add m n) (mul_assoc _ _ _)

-- The block of a shorter prefix is made of blocks of a longer one.
pub two-le-pow : (k : ℕ) → 1 ≤ k → 2 ≤ 2 ^ k
two-le-pow zero h = absurd (omega arith)
two-le-pow (suc k) h = rw pow-suc (omega (arith, pow-pos k))

-- A block lies inside the address space.
pub block-end : (n a : ℕ) → n ≤ 128 → IsAddr a → a / block n * block n + block n ≤ 2 ^ 128
block-end n a h fits = grind (arith, pow-block n h, network-lt n a h fits)

pub block-nested : (m n : ℕ) → m ≤ n → n ≤ 128 → block m ≡ block n * 2 ^ (n - m)
block-nested m n h k = ap (λ (t : ℕ). 2 ^ t) (omega arith) ∙ pow-add (128 - n) (n - m)

-- Masking a 128-bit address to a length of at most 128 rounds it down to a multiple of 2 to the
-- number of host bits.
pub mask_lem : (a n : ℕ) → IsAddr a → n ≤ 128 → mask a n ≡ a / block n * block n
unfolding mask
mask_lem a n fits h = rw (keep-ones n h) (bit_and-rounds n (128 - n) a (network-lt n a h fits))

pub mask-le : (a n : ℕ) → IsAddr a → n ≤ 128 → mask a n ≤ a
mask-le a n fits h = rw (mask_lem a n fits h) (grind (arith, block-pos n))

pub mask-IsAddr : (a n : ℕ) → IsAddr a → n ≤ 128 → IsAddr (mask a n)
mask-IsAddr a n fits h = omega (arith, mask-le a n fits h)
