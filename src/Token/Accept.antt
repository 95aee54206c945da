-- ===== src/Token/Accept.antt =====
-- The verifier accepts the tokens that an operator issues.
use swornmail.Prelude.{ℕ, ◌≡◌, ◌≢◌, refl, sym, ◌∙◌, true, some, [], ◌∷◌, arith, inl}
use swornmail.Prelude.Int.{ℤ}
use swornmail.Prelude.Results.{ok, ◌>>=◌}
use swornmail.Text.{Bytes, to_ascii_lowercase, bytes_eq}
use swornmail.Backend.{Value, integer, bytes, text, map, pairs, Ciborium, Dalek}
use swornmail.Dns.{IsLabel}
use swornmail.Key
use swornmail.Payload.{
  Payload, Role, mta, esp_tenant, forwarder, role_str, parse_role, key_operator, key_prefix,
  key_unit, key_iat, key_exp, key_role, reject_tagged_fields, from_value,
}
use swornmail.Payload.Domain.{is_operator_domain_iff}
use swornmail.Payload.Valid.{Reads}
use swornmail.Payload.Claims.{from_value_iff}
use swornmail.Payload.Wire.{prefix_octets, decode_prefix-prefix_octets}
use swornmail.Record.{PolicyRecord, authorizes}
use swornmail.Cose.{
  int, content_type, parse_cose, decode_cbor, cose_of_value, cose_of_items, take_bytes, headers_of,
  read_headers, protected_of, get_header, to_be_signed, label_alg, label_content_type, label_kid,
  alg_eddsa,
}
use swornmail.Cose.Rules.{HeaderRules}
use swornmail.Token.{parse_payload, parse, verify}
use swornmail.Cose.Envelope.{parse_cose_iff}
use swornmail.Token.Claim.{parse_payload_iff}
use swornmail.Token.Local.{parse_excluding_iff}
use swornmail.Token.Verdict.{outcome_of, verify_iff}
use swornmail.Token.Issue.{
  claim_entries, header_entries, ClaimValid, protected_part, payload_part, envelope, issue,
  signed_part, Decodes, Encodes, issued_cose, issued, Presented,
}

parse_role-role_str : (r : Role) → parse_role (role_str r) ≡ some r
unfolding parse_role role_str bytes_eq
parse_role-role_str mta = refl
parse_role-role_str esp_tenant = refl
parse_role-role_str forwarder = refl

claim_entries-Reads : (p : Payload) → ClaimValid p → Reads (pairs (claim_entries p)) p
unfolding pairs
claim_entries-Reads p c = record {
  seen = key_operator ∷ key_prefix ∷ key_unit ∷ key_iat ∷ key_exp ∷ key_role ∷ [];
  operator_text = p.operator;
  wire_prefix = prefix_octets p.prefix;
  role_name = role_str p.role;
  declared = some p.unit;
  integer_keys = refl;
  distinct = ground arith;
  operator_found = refl;
  prefix_found = refl;
  unit_found = refl;
  iat_found = refl;
  exp_found = refl;
  role_found = refl;
  checked = record {
    domain = (is_operator_domain_iff p.operator).1 c.domain;
    folded = sym c.folded;
    role_known = parse_role-role_str p.role;
    decoded = decode_prefix-prefix_octets p.prefix c.prefix_valid;
    attestable = c.attestable;
    after = c.after;
    lifetime = c.lifetime;
    unit_read = refl;
    unit_le = c.unit_le;
    unit_ge = c.unit_ge;
    tenant_unit = c.tenant_unit;
  };
}

from_value-claim : (p : Payload) → ClaimValid p → from_value (map (claim_entries p)) ≡ ok p
from_value-claim p c =
    (from_value_iff (map (claim_entries p)) p).1
      (claim_entries p, refl, claim_entries-Reads p c, c.iat_fits, c.exp_fits)

module _ (cbor : Ciborium) where
  decode_cbor-Decodes : (v : Value) → Decodes cbor v → decode_cbor cbor (cbor.into_writer v) ≡ ok v
  unfolding decode_cbor
  decode_cbor-Decodes v d = rw d (ground arith)

  parse_payload-claim :
      (p : Payload) (kid signature : Bytes)
      → ClaimValid p
      → Encodes cbor p kid signature
      → parse_payload cbor (payload_part cbor p) ≡ ok p
  unfolding parse_payload reject_tagged_fields pairs
  parse_payload-claim p kid signature c e =
      rw (decode_cbor-Decodes (map (claim_entries p)) e.claim_read)
        (rw e.claim_captured (from_value-claim p c))

  protected_of-headers :
      (kid : Bytes)
      → Decodes cbor (map (header_entries kid))
      → protected_part cbor kid ≢ []
      → protected_of cbor (protected_part cbor kid)
        ≡ ok (
            (int label_alg, integer alg_eddsa)
            ∷ (int label_content_type, text content_type)
            ∷ (int label_kid, bytes kid)
            ∷ [])
  unfolding headers_of read_headers pairs
  protected_of-headers kid d filled =
      protected_of_filled (protected_part cbor kid) filled
      ∙ rw (decode_cbor-Decodes (map (header_entries kid)) d) refl
    where
      protected_of_filled :
          (raw : Bytes) → raw ≢ [] → protected_of cbor raw ≡ (decode_cbor cbor raw >>= headers_of)
      protected_of_filled [] h = absurd (h refl)
      protected_of_filled (b ∷ raw) h = unfold protected_of in refl

  parse_cose-issue :
      (p : Payload) (kid signature : Bytes)
      → Encodes cbor p kid signature
      → parse_cose cbor (issue cbor p kid signature) ≡ ok (issued_cose cbor p kid signature)
  unfolding parse_cose cose_of_value cose_of_items take_bytes headers_of read_headers pairs
  parse_cose-issue p kid signature e =
      rw (decode_cbor-Decodes (envelope cbor p kid signature) e.token_read)
        (rw (protected_of-headers kid e.headers_read e.headers_filled) refl)

  issued_cose-HeaderRules :
      (p : Payload) (kid signature : Bytes)
      → IsLabel kid
      → HeaderRules (issued_cose cbor p kid signature) (to_ascii_lowercase kid)
  unfolding get_header
  issued_cose-HeaderRules p kid signature l = record {
    alg = alg_eddsa;
    kid = kid;
    no_crit = (refl, refl);
    no_alg_outside = refl;
    no_cty_outside = refl;
    no_kid_outside = refl;
    buckets_apart = tt;
    alg_protected = refl;
    alg_known = inl refl;
    cty_protected = refl;
    kid_protected = refl;
    kid_label = l;
    selector_folded = refl;
  }

  module _ (p : Payload) (kid signature : Bytes) (source : ℕ) (now : ℤ) where
    pub parse-issue :
        Presented cbor p kid signature source now
        → parse cbor (issue cbor p kid signature) source now
          ≡ ok (issued cbor p kid signature source)
    unfolding parse to_be_signed
    parse-issue t =
        (parse_excluding_iff cbor (issue cbor p kid signature) source now []
            (issued cbor p kid signature source)).1
          (record {
            cose = issued_cose cbor p kid signature;
            selector = to_ascii_lowercase kid;
            payload = p;
            bounded = t.short;
            cose_read =
                (parse_cose_iff cbor (issue cbor p kid signature)
                    (issued_cose cbor p kid signature)).0
                  (parse_cose-issue p kid signature t.encodes);
            headers = issued_cose-HeaderRules p kid signature t.kid_label;
            payload_read =
                (parse_payload_iff cbor (payload_part cbor p) p).0
                  (parse_payload-claim p kid signature t.claim t.encodes);
            connects = t.connects;
            result = refl;
          })

    -- A token that was issued as the draft says is accepted: if its claim is one that the draft
    -- allows, its kid is an LDH label, it was signed and written by a CBOR encoder whose three
    -- values the decoder reads back, it has at most 3072 octets, the connection has an eligible
    -- source inside the prefix at a time in the window, the key verifies the signature, and the
    -- policy authorizes the prefix and has the claim's unit, then `verify` returns the outcome with
    -- the claim's fields.
    pub verify-issue :
        (dalek : Dalek) (key : Key.Ed25519PublicKey dalek) (policy : PolicyRecord)
        → Presented cbor p kid signature source now
        → Key.verify dalek key (signed_part cbor p kid) signature ≡ true
        → authorizes policy p.prefix ≡ true
        → policy.unit ≡ p.unit
        → verify cbor dalek (issue cbor p kid signature) key policy source now
          ≡ ok (outcome_of (issued cbor p kid signature source) policy)
    verify-issue dalek key policy t signed allowed unit =
        (verify_iff cbor dalek (issue cbor p kid signature) key policy source now _).1 (record {
          pending = issued cbor p kid signature source;
          locally_valid = parse-issue t;
          authorized = allowed;
          unit_agrees = unit;
          signed = signed;
          reported = refl;
        })
