-- ===== src/Backend.antt =====
-- The third-party crates that the verifier calls: ciborium for CBOR, ed25519-dalek for signatures,
-- base64 for key records. What they compute is a parameter of the model.
use swornmail.Prelude.{ℕ, Bool, Option, List, [], ◌∷◌}
use swornmail.Prelude.Int.{ℤ}
use swornmail.Text.{Bytes}

-- `ciborium::value::Value`. A float is its bit pattern, and lists are declared in the block.
mutual
  pub data Value : Type 0 where
    integer : ℤ → Value
    bytes : Bytes → Value
    float : ℕ → Value
    text : Bytes → Value
    bool : Bool → Value
    null : Value
    tag : ℕ → Value → Value
    array : Items → Value
    map : Entries → Value

  pub data Items : Type 0 where
    no_items : Items
    item : Value → Items → Items

  pub data Entries : Type 0 where
    no_entries : Entries
    entry : Value → Value → Entries → Entries

-- The pairs of a map in wire order.
unfoldable pub pairs : Entries → List (Value × Value)
pairs no_entries = []
pairs (entry k v es) = (k, v) ∷ pairs es

pub record Ciborium : Type 0 where
  -- `de::from_reader` of a `Value` over a cursor: the value and the cursor's position behind it
  pub from_reader : Bytes → Option (Value × ℕ)
  -- `de::from_reader` of a `BTreeMap<i128, Captured<Value>>`: each key, the tag of its value if it
  -- has one, and the value
  pub captured_map : Bytes → Option (List (ℤ × Option ℕ × Value))
  -- `ser::into_writer` into a vector
  pub into_writer : Value → Bytes

pub record Dalek : Type 1 where
  pub VerifyingKey : Type 0
  -- `VerifyingKey::from_bytes`, for 32 octets
  pub from_bytes : Bytes → Option VerifyingKey
  pub to_bytes : VerifyingKey → Bytes
  -- `verify_strict`, for a signature of 64 octets
  pub verify_strict : VerifyingKey → Bytes → Bytes → Bool

-- base64's `STANDARD.decode`
abbrev pub Base64 : Type 0
Base64 = Bytes → Option Bytes
