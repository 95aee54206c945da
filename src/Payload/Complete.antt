-- ===== src/Payload/Complete.antt =====
-- A map that meets the rules is accepted: the converse of Valid.
use mathlib.Core.Path.{subst}
use mathlib.Core.Option as Options
use swornmail.Prelude.{ℕ, ◌≤◌, ◌≡◌, refl, sym, ◌∙◌, Option, none, some, List, arith}
use swornmail.Prelude.Int.{ℤ}
use swornmail.Prelude.Results.{ok}
use swornmail.Text.{Bytes}
use swornmail.Backend.{Value, bytes, text, map, Entries, pairs}
use swornmail.Payload.{
  Collected, validate, from_value, Payload, check_bounds, check_fields, unit_or_default,
}
use swornmail.Payload.Fields.{find, uint_value, IsU64, Describes, collect-Describes}
use swornmail.Payload.Entries.{WellTyped, WellTyped-collect}
use swornmail.Payload.Valid.{Checked, Reads}

module _ {es : List (Value × Value)} {p : Payload} (r : Reads es p) (iat_fits : IsU64 p.iat)
    (exp_fits : IsU64 p.exp) where
  unit_IsUint :
      (n : Option ℕ)
      → p.unit ≡ unit_or_default n
      → p.unit ≤ 64
      → (v : Value) → Options.map uint_value n ≡ some v
      → (m : ℕ) × (v ≡ uint_value m) × IsU64 m
  unit_IsUint none e h v found = cc
  unit_IsUint (some n) e h v found = (n, ground arith, ground arith)

  fields-WellTyped : WellTyped es
  fields-WellTyped = record {
    seen = r.seen;
    integer_keys = r.integer_keys;
    distinct = r.distinct;
    typed = λ k v found. record {
      operator = λ e. (r.operator_text, is (at e found) r.operator_found);
      prefix = λ e. (r.wire_prefix, is (at e found) r.prefix_found);
      unit = λ e.
          unit_IsUint r.declared r.checked.unit_read r.checked.unit_le v
            (sym r.unit_found ∙ at e found);
      iat = λ e. (p.iat, is (at e found) r.iat_found, iat_fits);
      exp = λ e. (p.exp, is (at e found) r.exp_found, exp_fits);
      role = λ e. (r.role_name, is (at e found) r.role_found);
    };
  }
    where
      at : {k key : ℤ} {v : Value} → k ≡ key → find k es ≡ some v → find key es ≡ some v
      at {v = v} e found = subst (λ j. find j es ≡ some v) e found

      is : {o : Option Value} {v w : Value} → o ≡ some v → o ≡ some w → v ≡ w
      is h h₁ = ground (arith, h, h₁)

pub text_inside : (o : Option Bytes) {b : Bytes} → Options.map text o ≡ some (text b) → o ≡ some b
text_inside none h = cc
text_inside (some a) h = ground arith

pub bytes_inside :
    (o : Option Bytes) {b : Bytes} → Options.map bytes o ≡ some (bytes b) → o ≡ some b
bytes_inside none h = cc
bytes_inside (some a) h = ground arith

pub uint_inside : (o o' : Option ℕ) → Options.map uint_value o ≡ Options.map uint_value o' → o ≡ o'
uint_inside none none h = refl
uint_inside none (some b) h = cc
uint_inside (some a) none h = cc
uint_inside (some a) (some b) h = ground arith

check_bounds_complete :
    (operator wire role_text : Bytes) (declared : Option ℕ) (p : Payload)
    → Checked operator wire role_text declared p
    → check_bounds operator p.role p.prefix declared p.iat p.exp ≡ ok p
unfolding check_bounds
check_bounds_complete operator wire role_text none p k =
    ground (arith, k.after, k.lifetime, k.unit_read, k.unit_ge, k.folded, k.tenant_unit)
check_bounds_complete operator wire role_text (some n) p k =
    ground (arith, k.after, k.lifetime, k.unit_read, k.unit_le, k.unit_ge, k.folded, k.tenant_unit)

check_fields_complete :
    (operator wire role_text : Bytes) (declared : Option ℕ) (p : Payload)
    → Checked operator wire role_text declared p
    → check_fields operator wire role_text declared p.iat p.exp ≡ ok p
unfolding check_fields
check_fields_complete operator wire role_text declared p k = rw k.domain (
    rw k.role_known
      (rw k.decoded (rw k.attestable (check_bounds_complete operator wire role_text declared p k))))

validate_complete :
    (es : List (Value × Value)) (c : Collected) {p : Payload}
    → Describes es c
    → Reads es p
    → validate c ≡ ok p
unfolding validate
validate_complete es c {p} d r =
    let o = text_inside c.operator (sym d.operator ∙ r.operator_found) in
    let x = bytes_inside c.prefix_bytes (sym d.prefix_bytes ∙ r.prefix_found) in
    let u = uint_inside c.unit r.declared (sym d.unit ∙ r.unit_found) in
    let i = uint_inside c.iat (some p.iat) (sym d.iat ∙ r.iat_found) in
    let e = uint_inside c.exp (some p.exp) (sym d.exp ∙ r.exp_found) in
    let t = text_inside c.role_text (sym d.role_text ∙ r.role_found) in
    rw o (
      rw x (
        rw i (
          rw e (
            rw t (
              rw u (
                check_fields_complete r.operator_text r.wire_prefix r.role_name r.declared p
                  r.checked))))))

pub from_value_complete :
    (es : Entries) {p : Payload}
    → Reads (pairs es) p
    → IsU64 p.iat
    → IsU64 p.exp
    → from_value (map es) ≡ ok p
unfolding from_value
from_value_complete es {p} r i e =
    let (c, done) = WellTyped-collect (pairs es) (fields-WellTyped r i e) in
    rw done (validate_complete (pairs es) c (collect-Describes (pairs es) done) r)
