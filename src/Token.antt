-- ===== src/Token.antt =====
-- src/token.rs: a connection token, from its octets to the verdict.
pub mod Local
pub mod Units
pub mod Window
pub mod Reputation
pub mod Verdict
pub mod Errors
pub mod Refusals
pub mod Diagnostic
pub mod Attested
pub mod Stages
pub mod Issue
pub mod Accept
pub mod Binding
pub mod Claim
use swornmail.Prelude.{
  ℕ, ◌+◌, ◌≤◌, ◌<◌, Bool, true, false, not, ◌&&◌, ◌||◌, Option, none, some, List, [], ◌∷◌, ◌++◌,
  leb, ltb, ◌==◌, if◌then◌else◌, any, all, length,
}
use swornmail.Prelude.Int.{ℤ, pos, negsuc, eqb_ℤ, ltb_ℤ, ◌+ℤ◌, ◌-ℤ◌}
use swornmail.Prelude.Results.{Result, ok, err, ◌>>=◌, ◌>>◌, ensure, ok_or}
use swornmail.Text.{
  Bytes, codes, bytes_eq, is_empty, is_ascii_alphanumeric, starts_with, ends_with,
  to_ascii_lowercase,
}
use swornmail.Text.Utf8.{from_utf8}
use swornmail.Address.{Ipv6Prefix, mask, contains, is_eligible_source}
use swornmail.Reason.{
  Reason, off_prefix, ineligible_source, expired, not_yet_valid, bad_signature, unauthorized_prefix,
  policy_unit_mismatch, bad_content_type, bad_kid, header_confusion, malformed, pass_str, as_str,
}
use swornmail.Backend.{
  Value, integer, bytes, tag, array, map, no_items, item, Items, Entries, pairs, Ciborium, Dalek,
}
use swornmail.Key
use swornmail.Payload.{Payload, Role, from_value, reject_tagged_fields}
use swornmail.Record.{PolicyRecord, authorizes}
use swornmail.Cose.{
  cose_sign1_tag, alg_eddsa, alg_ed25519, content_type, label_alg, label_crit, label_content_type,
  label_kid, Label, label_eq, Headers, label_of, labelled, read_headers, headers_of, get_header,
  is_some, has, shared_label, CoseSign1, take_bytes, selector_from_kid, check_alg,
  check_content_type, check_kid, check_headers, int, decode_cbor, protected_of, cose_of_items,
  cose_of_value, parse_cose, to_be_signed,
}

abbrev pub max_token_len : ℕ
max_token_len = 3072

abbrev pub observed_unit_len : ℕ
observed_unit_len = 64

abbrev pub skew_secs : ℤ
skew_secs = pos 300

pub record Unverified : Type 0 where
  pub payload : Payload
  pub selector : Bytes
  pub unit : Ipv6Prefix
  pub observed_unit : Ipv6Prefix
  pub to_be_signed : Bytes
  pub signature : Bytes

pub record Authorized : Type 0 where
  pub token : Unverified
  pub testing : Bool
  pub rua : Option Bytes

pub record Verified : Type 0 where
  pub operator : Bytes
  pub unit : Ipv6Prefix
  pub observed_unit : Ipv6Prefix
  pub prefix : Ipv6Prefix
  pub selector : Bytes
  pub role : Role
  pub testing : Bool
  pub rua : Option Bytes

-- `Unverified::operator` and `Unverified::selector`
abbrev pub operator_of : Unverified → Bytes
operator_of token = token.payload.operator

abbrev pub selector_of : Unverified → Bytes
selector_of token = token.selector

-- `Unverified::payload`
abbrev payload_of : Unverified → Payload
payload_of token = token.payload

-- `Authorized::operator` and `Authorized::selector`
abbrev pub authorized_operator : Authorized → Bytes
authorized_operator auth = operator_of auth.token

abbrev pub authorized_selector : Authorized → Bytes
authorized_selector auth = selector_of auth.token

pub data Outcome : Type 0 where
  pass observe_only : Verified → Outcome

-- `Outcome::auth_result` and `Outcome::verified`
unfoldable pub outcome_result : Outcome → Bytes
outcome_result (pass v) = codes "pass"
outcome_result (observe_only v) = codes "none"

unfoldable pub verified : Outcome → Verified
verified (pass v) = v
verified (observe_only v) = v

-- `Unverified::authorize`
unfoldable pub authorize : Unverified → PolicyRecord → Result Reason Authorized
authorize token policy = do
  ensure (authorizes policy token.payload.prefix) unauthorized_prefix
  ensure (policy.unit == token.payload.unit) policy_unit_mismatch
  ok (record { token = token; testing = policy.testing; rua = policy.rua })

-- `Ipv6Prefix::new` of a length that is at most 128, where the source expects a value
abbrev pub unit_at : ℕ → ℕ → Ipv6Prefix
unit_at source len = record { addr = mask source len; len = len }

-- the checks on the connection in `parse_excluding`
unfoldable pub check_connection : Payload → ℕ → ℤ → List Ipv6Prefix → Result Reason (Unit {0})
check_connection payload source now ineligible = do
  ensure (not (not (is_eligible_source source) || any (λ p. contains p source) ineligible))
      ineligible_source
  ensure (not (ltb_ℤ now (pos payload.iat -ℤ skew_secs))) not_yet_valid
  ensure (not (ltb_ℤ (pos payload.exp +ℤ skew_secs) now)) expired
  ensure (contains payload.prefix source) off_prefix

-- `reason_str`
unfoldable pub reason_str {ℓ} : {A : Type ℓ} → Result Reason A → Bytes
reason_str (ok a) = pass_str
reason_str (err reason) = as_str reason

-- the `Err(r)` of `reason_str::<()>(&Err(r))`
abbrev pub unit_error : Reason → Result Reason (Unit {0})
unit_error r = err r

module _ (cbor : Ciborium) where
  unfoldable pub parse_payload : Bytes → Result Reason Payload
  parse_payload raw = do
    value ← decode_cbor cbor raw
    reject_tagged_fields cbor raw
    from_value value

  -- the value that `parse_excluding` builds when all checks have passed
  abbrev pub pending_of : CoseSign1 → Bytes → Payload → ℕ → Unverified
  pending_of cose selector payload source = record {
    payload = payload;
    selector = selector;
    unit = unit_at source payload.unit;
    observed_unit = unit_at source observed_unit_len;
    to_be_signed = to_be_signed cbor cose;
    signature = cose.signature;
  }

  unfoldable pub parse_excluding : Bytes → ℕ → ℤ → List Ipv6Prefix → Result Reason Unverified
  parse_excluding token source now ineligible = do
    ensure (not (ltb max_token_len (length token))) malformed
    cose ← parse_cose cbor token
    selector ← check_headers cose
    payload ← parse_payload cose.payload
    check_connection payload source now ineligible
    ok (pending_of cose selector payload source)

  unfoldable pub parse : Bytes → ℕ → ℤ → Result Reason Unverified
  unfolding parse_excluding
  parse token source now = parse_excluding token source now []

module _ (dalek : Dalek) where
  -- `Unverified::finish_signature`
  unfoldable pub finish_signature :
      Unverified → Key.Ed25519PublicKey dalek → Bool → Option Bytes → Result Reason Verified
  finish_signature token key testing rua = do
    ensure (Key.verify dalek key token.to_be_signed token.signature) bad_signature
    ok (record {
      operator = token.payload.operator;
      unit = token.unit;
      observed_unit = token.observed_unit;
      prefix = token.payload.prefix;
      selector = token.selector;
      role = token.payload.role;
      testing = testing;
      rua = rua;
    })

  -- `Unverified::verify_signature_only`
  abbrev unverified_signature_only :
      Unverified → Key.Ed25519PublicKey dalek → Result Reason Verified
  unverified_signature_only token key = finish_signature token key false none

  -- `Authorized::verify_signature`
  unfoldable pub verify_signature : Authorized → Key.Ed25519PublicKey dalek → Result Reason Outcome
  verify_signature auth key = do
    v ← finish_signature auth.token key auth.testing auth.rua
    ok (if auth.testing then observe_only v else pass v)

module _ (cbor : Ciborium) (dalek : Dalek) where
  -- `verify_signature_only`
  unfoldable pub verify_signature_only :
      Bytes → Key.Ed25519PublicKey dalek → ℕ → ℤ → Result Reason Verified
  verify_signature_only token key source now = do
    pending ← parse cbor token source now
    unverified_signature_only dalek pending key

  unfoldable pub verify :
      Bytes → Key.Ed25519PublicKey dalek → PolicyRecord → ℕ → ℤ → Result Reason Outcome
  verify token key policy source now = do
    pending ← parse cbor token source now
    authorized ← authorize pending policy
    verify_signature dalek authorized key

  -- the other name of `verify`
  unfoldable pub verify_authorized :
      Bytes → Key.Ed25519PublicKey dalek → PolicyRecord → ℕ → ℤ → Result Reason Outcome
  unfolding verify
  verify_authorized token key policy source now = verify token key policy source now
