-- ===== src/Key.antt =====
-- src/key.rs: Ed25519 public keys.
use swornmail.Prelude.{ℕ, ◌/◌, ◌%◌, Bool, false, Option, none, [], ◌∷◌, length, ◌==◌, if◌then◌else◌}
use swornmail.Backend.{Dalek}
use swornmail.Text.{Bytes, hex_digit}

abbrev pub key_len : ℕ
key_len = 32

module _ (dalek : Dalek) where
  -- `Ed25519PublicKey` wraps the key of the signature crate.
  abbrev pub Ed25519PublicKey : Type 0
  Ed25519PublicKey = dalek.VerifyingKey

  -- `Ed25519PublicKey::from_bytes`; `try_into` is the test of the length
  unfoldable pub from_bytes : Bytes → Option Ed25519PublicKey
  from_bytes raw = if length raw == key_len then dalek.from_bytes raw else none

  -- `Ed25519PublicKey::verify`
  unfoldable pub verify : Ed25519PublicKey → Bytes → Bytes → Bool
  verify key message signature =
      if length signature == 64 then dalek.verify_strict key message signature else false

module _ (dalek : Dalek) where
  unfoldable pub to_bytes : Ed25519PublicKey dalek → Bytes
  to_bytes key = dalek.to_bytes key

-- `{byte:02x}` for each octet
unfoldable pub to_hex : Bytes → Bytes
unfolding hex_digit
to_hex [] = []
to_hex (b ∷ s) = hex_digit (b / 16) ∷ hex_digit (b % 16) ∷ to_hex s

-- `Display` of a key
unfoldable pub display_key : (dalek : Dalek) → Ed25519PublicKey dalek → Bytes
unfolding to_bytes to_hex
display_key dalek key = to_hex (to_bytes dalek key)
