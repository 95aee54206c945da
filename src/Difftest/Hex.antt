-- ===== src/Difftest/Hex.antt =====
-- The hexadecimal reader takes exactly what it should.
use swornmail.Prelude.{ℕ, ◌+◌, ◌*◌, ◌/◌, ◌%◌, ◌<◌, ◌≡◌, refl, ap, some, [], ◌∷◌, arith, All}
use swornmail.Text.{Bytes, hex_digit}
use swornmail.Key.{to_hex}
use swornmail.Difftest.{hex_val, hex_decode}

hex_val-hex_digit : (n : ℕ) → n < 16 → hex_val (hex_digit n) ≡ some n
unfolding hex_val hex_digit
hex_val-hex_digit n h = ground arith

-- The hexadecimal text in which a key is printed is decoded to the same octets by the differential
-- test, if they are octets.
pub hex_decode-to_hex : (s : Bytes) → All (λ b. b < 256) s → hex_decode (to_hex s) ≡ some s
unfolding hex_decode to_hex
hex_decode-to_hex [] h = refl
hex_decode-to_hex (b ∷ s) h =
    let whole : b / 16 * 16 + b % 16 ≡ b = omega arith in
    rw (hex_val-hex_digit (b / 16) (omega (arith, h.0))) (
      rw (hex_val-hex_digit (b % 16) (omega arith))
        (rw (hex_decode-to_hex s h.1) (ap (λ x. some (x ∷ s)) whole)))
