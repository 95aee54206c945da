-- ===== src/Payload/Valid.antt =====
-- What holds of every payload that `from_value` returns.
use mathlib.Core.Path.{subst}
use mathlib.Core.Option as Options
use swornmail.Prelude.{
  ℕ, ◌+◌, ◌≤◌, ◌<◌, ◌≡◌, refl, sym, ap, ◌∙◌, true, Option, none, some, List, arith,
}
use swornmail.Prelude.Int.{ℤ}
use swornmail.Prelude.Results.{ok, >>=-eq-ok, ensure-eq-ok, ok_or-eq-ok}
use swornmail.Text.{Bytes, to_ascii_lowercase}
use swornmail.Reason.{malformed, bad_role, bad_prefix}
use swornmail.Address.{Ipv6Prefix, is_attestable}
use swornmail.Backend.{Value, bytes, text, map, Entries, pairs}
use swornmail.Payload.{
  Collected, nothing, collect, validate, from_value, Payload, Role, esp_tenant, is_operator_domain,
  parse_role, decode_prefix, unit_or_default, check_bounds, check_fields, key_operator, key_prefix,
  key_unit, key_iat, key_exp, key_role,
}
use swornmail.Payload.Fields.{find, keys, Distinct, uint_value, Describes, collect-Describes}

-- What the checks behind the REQUIRED keys say of the values that they are given.
pub record Checked (operator prefix_bytes role_text : Bytes) (declared : Option ℕ) (p : Payload)
    : Type 0 where
  pub domain : is_operator_domain operator ≡ true
  pub folded : p.operator ≡ to_ascii_lowercase operator
  pub role_known : parse_role role_text ≡ some p.role
  pub decoded : decode_prefix prefix_bytes ≡ ok p.prefix
  pub attestable : is_attestable p.prefix ≡ true
  pub after : p.iat < p.exp
  pub lifetime : p.exp ≤ p.iat + 86400
  pub unit_read : p.unit ≡ unit_or_default declared
  pub unit_le : p.unit ≤ 64
  pub unit_ge : p.prefix.len ≤ p.unit
  pub tenant_unit : p.role ≡ esp_tenant → p.unit ≡ p.prefix.len

record Bounded (operator : Bytes) (role : Role) (prefix : Ipv6Prefix) (declared : Option ℕ)
    (iat exp : ℕ) (p : Payload) : Type 0 where
  same_operator : p.operator ≡ to_ascii_lowercase operator
  same_role : p.role ≡ role
  same_prefix : p.prefix ≡ prefix
  same_iat : p.iat ≡ iat
  same_exp : p.exp ≡ exp
  after : iat < exp
  lifetime : exp ≤ iat + 86400
  unit_read : p.unit ≡ unit_or_default declared
  unit_le : p.unit ≤ 64
  unit_ge : prefix.len ≤ p.unit
  tenant_unit : role ≡ esp_tenant → p.unit ≡ prefix.len

check_bounds-Bounded :
    (operator : Bytes) (role : Role) (prefix : Ipv6Prefix) (declared : Option ℕ) (iat exp : ℕ)
    {p : Payload}
    → check_bounds operator role prefix declared iat exp ≡ ok p
    → Bounded operator role prefix declared iat exp p
unfolding check_bounds
check_bounds-Bounded operator role prefix none iat exp h = ground arith
check_bounds-Bounded operator role prefix (some n) iat exp h = ground arith

assemble :
    (operator prefix_bytes role_text : Bytes) (declared : Option ℕ) {role : Role}
    {prefix : Ipv6Prefix} {iat exp : ℕ} {p : Payload}
    → is_operator_domain operator ≡ true
    → parse_role role_text ≡ some role
    → decode_prefix prefix_bytes ≡ ok prefix
    → is_attestable prefix ≡ true
    → Bounded operator role prefix declared iat exp p
    → Checked operator prefix_bytes role_text declared p
assemble operator prefix_bytes role_text declared {p = p} domain known decoded attestable b =
    record {
      domain = domain;
      folded = b.same_operator;
      role_known = known ∙ ap some (sym b.same_role);
      decoded = decoded ∙ ap ok (sym b.same_prefix);
      attestable = subst (λ q. is_attestable q ≡ true) (sym b.same_prefix) attestable;
      after = omega (arith, b.same_iat, b.same_exp, b.after);
      lifetime = omega (arith, b.same_iat, b.same_exp, b.lifetime);
      unit_read = b.unit_read;
      unit_le = b.unit_le;
      unit_ge = subst (λ q. q.len ≤ p.unit) (sym b.same_prefix) b.unit_ge;
      tenant_unit =
          λ tenant. b.tenant_unit (sym b.same_role ∙ tenant) ∙ ap (λ q. q.len) (sym b.same_prefix);
    }

check_fields-Checked :
    (operator prefix_bytes role_text : Bytes) (declared : Option ℕ) (iat exp : ℕ) {p : Payload}
    → check_fields operator prefix_bytes role_text declared iat exp ≡ ok p
    → Checked operator prefix_bytes role_text declared p × (p.iat ≡ iat) × (p.exp ≡ exp)
unfolding check_fields
check_fields-Checked operator prefix_bytes role_text declared iat exp {p} h =
    let (domain, h₁) = ensure-eq-ok (is_operator_domain operator) malformed _ h in
    let (role, known, h₂) = ok_or-eq-ok (parse_role role_text) bad_role _ h₁ in
    let (prefix, decoded, h₃) = >>=-eq-ok (decode_prefix prefix_bytes) _ h₂ in
    let (attestable, h₄) = ensure-eq-ok (is_attestable prefix) bad_prefix _ h₃ in
    let b = check_bounds-Bounded operator role prefix declared iat exp h₄ in
    (
      assemble operator prefix_bytes role_text declared domain known decoded attestable b,
      b.same_iat,
      b.same_exp,
    )

-- How a payload is read from the entries of a map: the keys are distinct integers, and the entries
-- under the defined keys hold checked values.
pub record Reads (es : List (Value × Value)) (p : Payload) : Type 0 where
  pub seen : List ℤ
  pub operator_text : Bytes
  pub wire_prefix : Bytes
  pub role_name : Bytes
  pub declared : Option ℕ
  pub integer_keys : keys es ≡ some seen
  pub distinct : Distinct seen
  pub operator_found : find key_operator es ≡ some (text operator_text)
  pub prefix_found : find key_prefix es ≡ some (bytes wire_prefix)
  pub unit_found : find key_unit es ≡ Options.map uint_value declared
  pub iat_found : find key_iat es ≡ some (uint_value p.iat)
  pub exp_found : find key_exp es ≡ some (uint_value p.exp)
  pub role_found : find key_role es ≡ some (text role_name)
  pub checked : Checked operator_text wire_prefix role_name declared p

read_fields :
    (es : List (Value × Value)) (c : Collected) {p : Payload}
    → Describes es c
    → validate c ≡ ok p
    → Reads es p
unfolding validate
read_fields es c {p} d h =
    let (operator, o, h₁) = ok_or-eq-ok c.operator malformed _ h in
    let (prefix, x, h₂) = ok_or-eq-ok c.prefix_bytes malformed _ h₁ in
    let (iat, i, h₃) = ok_or-eq-ok c.iat malformed _ h₂ in
    let (exp, e, h₄) = ok_or-eq-ok c.exp malformed _ h₃ in
    let (role, r, h₅) = ok_or-eq-ok c.role_text malformed _ h₄ in
    let (checked, same_iat, same_exp) =
      check_fields-Checked operator prefix role c.unit iat exp h₅ in
    record {
      seen = c.seen;
      operator_text = operator;
      wire_prefix = prefix;
      role_name = role;
      declared = c.unit;
      integer_keys = d.integer_keys;
      distinct = d.distinct;
      operator_found = d.operator ∙ ap (Options.map text) o;
      prefix_found = d.prefix_bytes ∙ ap (Options.map bytes) x;
      unit_found = d.unit;
      iat_found = d.iat ∙ ap (Options.map uint_value) (i ∙ ap some (sym same_iat));
      exp_found = d.exp ∙ ap (Options.map uint_value) (e ∙ ap some (sym same_exp));
      role_found = d.role_text ∙ ap (Options.map text) r;
      checked = checked;
    }

-- A payload that `from_value` returns is read from a map with distinct integer keys: each field is
-- the value under its key, of the right type, and it passed the checks on the domain, the role, the
-- prefix, the order of `iat` and `exp`, the lifetime of at most 86400 seconds, and the unit, which
-- is the prefix length for an ESP tenant.
pub from_value-Reads :
    (v : Value) {p : Payload}
    → from_value v ≡ ok p
    → (es : Entries) × (v ≡ map es) × Reads (pairs es) p
unfolding from_value
from_value-Reads (map es) h =
    let (c, collected, validated) = >>=-eq-ok (collect (pairs es) nothing) validate h in
    (es, refl, read_fields (pairs es) c (collect-Describes (pairs es) collected) validated)
from_value-Reads _ h = cc
