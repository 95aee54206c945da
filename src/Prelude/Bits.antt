-- ===== src/Prelude/Bits.antt =====
-- `bit_and` with a mask whose ones stand above its zeros, as division and multiplication.
use Prim.Native.Nat.{
  ℕ, zero, suc, ◌+◌, ◌-◌, ◌*◌, ◌/◌, ◌%◌, ◌^◌, ◌≤◌, ◌<◌, min, bit_and, digits, bit_and-bitwise,
}
use mathlib.Core.Path.{◌≡◌, refl, ap, ◌∙◌}
use native.Mathlib.Nat.{
  pow-suc, two-pow-succ, pow-zero, div-div-eq-div-mul, div-one, mul_assoc, mul-one, mul_comm,
  div-add-mod, mul-add, mul-le-mul_right, add-mul-mod_self_right, mod-eq_of_lt,
}
use native.Mathlib.Omega.{arith}

-- The definition of `bit_and` on numbers of at most `n` digits.
abbrev masked_digits : ℕ → ℕ → ℕ → ℕ
masked_digits n a b = digits (λ b. zero) min n a b

masked_digits-fuel : (n m a b : ℕ) → a ≤ n → a ≤ m → masked_digits n a b ≡ masked_digits m a b
masked_digits-fuel zero zero a b p q = refl
masked_digits-fuel zero (suc m) zero b p q = refl
masked_digits-fuel (suc n) zero zero b p q = refl
masked_digits-fuel (suc n) (suc m) zero b p q = refl
masked_digits-fuel zero m (suc a) b p q = absurd (omega arith)
masked_digits-fuel (suc n) zero (suc a) b p q = absurd (omega arith)
masked_digits-fuel (suc n) (suc m) (suc a) b p q =
    omega (arith, masked_digits-fuel n m (suc a / 2) (b / 2) (omega arith) (omega arith))

zero-bit_and : (b : ℕ) → bit_and 0 b ≡ 0
zero-bit_and b = bit_and-bitwise 0 b

-- The lowest digit, and the digits above it.
pub bit_and_digit : (a b : ℕ) → bit_and a b ≡ bit_and (a / 2) (b / 2) * 2 + min (a % 2) (b % 2)
bit_and_digit zero b = omega (arith, zero-bit_and b, zero-bit_and (b / 2))
bit_and_digit (suc a) b =
    let above = suc a / 2 in
    omega (
      arith,
      bit_and-bitwise (suc a) b,
      bit_and-bitwise above (b / 2),
      masked_digits-fuel a above above (b / 2) (omega arith) (omega arith),
    )

pub pow-pos : (n : ℕ) → 1 ≤ 2 ^ n
pow-pos zero = rw pow-zero (omega arith)
pow-pos (suc n) = rw pow-suc (omega (arith, pow-pos n))

-- A mask of `n` ones keeps a number of at most `n` digits.
pub bit_and-ones : (n a : ℕ) → a < 2 ^ n → bit_and a (2 ^ n - 1) ≡ a
bit_and-ones zero a h = let none_left : a ≡ 0 = omega arith in rw none_left refl
bit_and-ones (suc n) a h =
    let doubled = two-pow-succ n in
    let half : (2 ^ suc n - 1) / 2 ≡ 2 ^ n - 1 = omega (arith, doubled, pow-pos n) in
    bit_and_digit a _
    ∙ rw half
        (rw (bit_and-ones n (a / 2) (omega (arith, doubled))) (omega (arith, doubled, pow-pos n)))

-- Zeros at the low end of a mask clear the digits there.
pub bit_and-shifted : (k m a : ℕ) → bit_and a (m * 2 ^ k) ≡ bit_and (a / 2 ^ k) m * 2 ^ k
bit_and-shifted zero m a = rw (pow-zero, div-one) (rw (mul-one m, mul-one (bit_and a m)))
bit_and-shifted (suc k) m a =
    let doubled : m * 2 ^ suc k ≡ m * 2 ^ k * 2 = rw (pow-suc, mul_assoc) in
    let halved : m * 2 ^ suc k / 2 ≡ m * 2 ^ k = omega (arith, doubled) in
    let above : a / 2 / 2 ^ k ≡ a / 2 ^ suc k =
      div-div-eq-div-mul a 2 (2 ^ k) ∙ rw (pow-suc, mul_comm 2) in
    bit_and_digit a _
    ∙ rw halved (rw (bit_and-shifted k m (a / 2), above, pow-suc) (omega (arith, doubled)))

-- A mask of `n` ones above `k` zeros rounds down to a multiple of 2 ^ k.
pub bit_and-rounds :
    (n k a : ℕ) → a / 2 ^ k < 2 ^ n → bit_and a ((2 ^ n - 1) * 2 ^ k) ≡ a / 2 ^ k * 2 ^ k
bit_and-rounds n k a h = bit_and-shifted k (2 ^ n - 1) a ∙ rw (bit_and-ones n _ h)

-- A number's digit to the base `b` at the place of weight `w`, with what is below it.
pub split_digit : (a w b : ℕ) → 1 ≤ w → 1 ≤ b → a % (w * b) ≡ a / w % b * w + a % w
split_digit a w b h k =
    let q = a / w / b in
    let r = a / w % b in
    let low = r * w + a % w in
    let digits : w * (b * q + r) ≡ w * (a / w) = ap (λ t. w * t) (div-add-mod (a / w) b) in
    let whole : a ≡ low + q * (w * b) = omega (
      arith,
      digits,
      div-add-mod a w,
      mul-add w (b * q) r,
      mul_assoc w b q,
      mul_comm w r,
      mul_comm (w * b) q,
    ) in
    let below : (r + 1) * w ≤ b * w = mul-le-mul_right w (omega arith) in
    let bound : low < w * b =
      omega (arith, below, mul_comm w b, mul_comm (r + 1) w, mul-add w r 1, mul_comm w r) in
    ap (λ t. t % (w * b)) whole ∙ add-mul-mod_self_right low q (w * b) ∙ mod-eq_of_lt bound
