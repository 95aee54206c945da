-- ===== src/Token/Issue.antt =====
-- Tokens as the draft has an operator issue them.
use swornmail.Prelude.{ℕ, ◌+◌, ◌≤◌, ◌<◌, ◌≡◌, ◌≢◌, true, Option, none, some, List, [], ◌∷◌, length}
use swornmail.Prelude.Int.{ℤ}
use swornmail.Text.{Bytes, codes, to_ascii_lowercase}
use swornmail.Address.{IsPrefix, is_attestable}
use swornmail.Backend.{
  Value, integer, bytes, text, tag, array, map, item, no_items, Entries, entry, no_entries, pairs,
  Ciborium,
}
use swornmail.Dns.{IsLabel, IsDomain}
use swornmail.Payload.{
  Payload, esp_tenant, role_str, key_operator, key_prefix, key_unit, key_iat, key_exp, key_role,
}
use swornmail.Payload.Fields.{uint_value, IsU64}
use swornmail.Payload.Wire.{prefix_octets}
use swornmail.Cose.{
  CoseSign1, int, content_type, label_alg, label_content_type, label_kid, alg_eddsa,
}
use swornmail.Token.{Unverified, unit_at}
use swornmail.Token.Local.{Connects}

-- The claim as a CBOR map, with all six keys.
abbrev pub claim_entries : Payload → Entries
claim_entries p = entry (integer key_operator) (text p.operator) (
    entry (integer key_prefix) (bytes (prefix_octets p.prefix)) (
      entry (integer key_unit) (uint_value p.unit) (
        entry (integer key_iat) (uint_value p.iat) (
          entry (integer key_exp) (uint_value p.exp)
            (entry (integer key_role) (text (role_str p.role)) no_entries)))))

-- The protected headers: EdDSA, the content type, and the selector as `kid`.
abbrev pub header_entries : Bytes → Entries
header_entries kid = entry (integer label_alg) (integer alg_eddsa) (
    entry (integer label_content_type) (text content_type)
      (entry (integer label_kid) (bytes kid) no_entries))

-- The fields of a map whose keys are integers and whose values have no tag.
abbrev pub untagged : List (Value × Value) → List (ℤ × Option ℕ × Value)
untagged [] = []
untagged ((integer k, v) ∷ es) = (k, none, v) ∷ untagged es
untagged ((_, v) ∷ es) = untagged es

-- A claim that the draft allows.
pub record ClaimValid (p : Payload) : Type 0 where
  pub domain : IsDomain p.operator
  pub folded : to_ascii_lowercase p.operator ≡ p.operator
  pub prefix_valid : IsPrefix p.prefix
  pub attestable : is_attestable p.prefix ≡ true
  pub iat_fits : IsU64 p.iat
  pub exp_fits : IsU64 p.exp
  pub after : p.iat < p.exp
  pub lifetime : p.exp ≤ p.iat + 86400
  pub unit_le : p.unit ≤ 64
  pub unit_ge : p.prefix.len ≤ p.unit
  pub tenant_unit : p.role ≡ esp_tenant → p.unit ≡ p.prefix.len

module _ (cbor : Ciborium) where
  abbrev pub protected_part : Bytes → Bytes
  protected_part kid = cbor.into_writer (map (header_entries kid))

  abbrev pub payload_part : Payload → Bytes
  payload_part p = cbor.into_writer (map (claim_entries p))

  -- The envelope of a token, and the token.
  abbrev pub envelope : Payload → Bytes → Bytes → Value
  envelope p kid signature = tag 18 (
      array (
        item (bytes (protected_part kid)) (
          item (map no_entries) (item (bytes (payload_part p)) (item (bytes signature) no_items)))))

  abbrev pub issue : Payload → Bytes → Bytes → Bytes
  issue p kid signature = cbor.into_writer (envelope p kid signature)

  -- What the operator signs.
  abbrev pub signed_part : Payload → Bytes → Bytes
  signed_part p kid = cbor.into_writer (
      array (
        item (text (codes "Signature1")) (
          item (bytes (protected_part kid))
            (item (bytes []) (item (bytes (payload_part p)) no_items)))))

  -- The codec reads back a value that it wrote.
  abbrev pub Decodes : Value → Type 0
  Decodes v = cbor.from_reader (cbor.into_writer v) ≡ some (v, length (cbor.into_writer v))

  -- It does so for the three values of a token.
  pub record Encodes (p : Payload) (kid signature : Bytes) : Type 0 where
    pub headers_read : Decodes (map (header_entries kid))
    pub headers_filled : protected_part kid ≢ []
    pub claim_read : Decodes (map (claim_entries p))
    pub claim_captured :
        cbor.captured_map (payload_part p) ≡ some (untagged (pairs (claim_entries p)))
    pub token_read : Decodes (envelope p kid signature)

  abbrev pub issued_cose : Payload → Bytes → Bytes → CoseSign1
  issued_cose p kid signature = record {
    protected_raw = protected_part kid;
    protected =
        (int label_alg, integer alg_eddsa)
        ∷ (int label_content_type, text content_type)
        ∷ (int label_kid, bytes kid)
        ∷ [];
    unprotected = [];
    payload = payload_part p;
    signature = signature;
  }

  -- The token that the local checks return.
  abbrev pub issued : Payload → Bytes → Bytes → ℕ → Unverified
  issued p kid signature source = record {
    payload = p;
    selector = to_ascii_lowercase kid;
    unit = unit_at source p.unit;
    observed_unit = unit_at source 64;
    to_be_signed = signed_part p kid;
    signature = signature;
  }

  module _ (p : Payload) (kid signature : Bytes) (source : ℕ) (now : ℤ) where
    -- An issued token, presented over a connection that it allows.
    pub record Presented : Type 0 where
      pub claim : ClaimValid p
      pub kid_label : IsLabel kid
      pub encodes : Encodes p kid signature
      pub short : length (issue p kid signature) ≤ 3072
      pub connects : Connects p source now []
