-- ===== src/Payload/Order.antt =====
-- The order of a payload's entries, and its undefined keys, make no difference.
use mathlib.Core.Path.{subst}
use swornmail.Prelude.{◌≡◌, refl, ◌∙◌, some, List, All}
use swornmail.Prelude.Int.{ℤ}
use swornmail.Prelude.Results.{ok}
use swornmail.Backend.{Value, map, Entries, pairs}
use swornmail.Payload.{Payload, from_value, defined_keys}
use swornmail.Payload.Fields.{find, keys, Distinct}
use swornmail.Payload.Valid.{Reads}
use swornmail.Payload.Claims.{from_value_iff}

-- The two maps have the same values under the six defined keys.
abbrev pub SameFields : List (Value × Value) → List (Value × Value) → Type 0
SameFields es es' = All (λ k. find k es' ≡ find k es) defined_keys

Reads-SameFields :
    (es es' : List (Value × Value)) (ks : List ℤ) (p : Payload)
    → keys es' ≡ some ks
    → Distinct ks
    → SameFields es es'
    → Reads es p
    → Reads es' p
Reads-SameFields es es' ks p read d (operator, (prefix, (unit, (iat, (exp, (role, _)))))) r =
    record {
      seen = ks;
      operator_text = r.operator_text;
      wire_prefix = r.wire_prefix;
      role_name = r.role_name;
      declared = r.declared;
      integer_keys = read;
      distinct = d;
      operator_found = operator ∙ r.operator_found;
      prefix_found = prefix ∙ r.prefix_found;
      unit_found = unit ∙ r.unit_found;
      iat_found = iat ∙ r.iat_found;
      exp_found = exp ∙ r.exp_found;
      role_found = role ∙ r.role_found;
      checked = r.checked;
    }

-- A payload that `from_value` reads from one map it reads from every map whose keys are distinct
-- integers and that has the same values, or none, under the six defined keys: the order of the
-- entries and the other keys make no difference.
pub from_value-SameFields :
    (es es' : Entries) (ks : List ℤ) (p : Payload)
    → keys (pairs es') ≡ some ks
    → Distinct ks
    → SameFields (pairs es) (pairs es')
    → from_value (map es) ≡ ok p
    → from_value (map es') ≡ ok p
from_value-SameFields es es' ks p read d same h =
    let (es₀, is_map, r, iat_fits, exp_fits) = (from_value_iff (map es) p).0 h in
    let whole : es₀ ≡ es = cc is_map in
    let reads = subst (λ e. Reads (pairs e) p) whole r in
    (from_value_iff (map es') p).1 (
      es',
      refl,
      Reads-SameFields (pairs es) (pairs es') ks p read d same reads,
      iat_fits,
      exp_fits,
    )
