-- ===== src/Payload/Claims.antt =====
-- Exactly when `from_value` returns a payload.
use mathlib.Core.Path.{subst}
use swornmail.Prelude.{ℕ, ◌≡◌, sym, ap, ◌∙◌, ◌↔◌, Option, some, List, [], ◌∷◌, arith}
use swornmail.Prelude.Int.{ℤ, pos}
use swornmail.Prelude.Results.{ok, >>=-eq-ok}
use swornmail.Backend.{Value, integer, map, Entries, pairs}
use swornmail.Payload.{
  Collected, nothing, store, text_of, bytes_of, uint, collect, collect_entry, validate, from_value,
  Payload,
}
use swornmail.Payload.Fields.{IsU64, Describes, collect-Describes, mark, collect-cons}
use swornmail.Payload.Valid.{Reads, from_value-Reads}
use swornmail.Payload.Complete.{uint_inside, from_value_complete}

-- The collected times are numbers of 64 bits.
abbrev OptionFits : Option ℕ → Type 0
OptionFits o = (n : ℕ) → o ≡ some n → IsU64 n

abbrev TimesFit : Collected → Type 0
TimesFit c = OptionFits c.iat × OptionFits c.exp

uint-IsU64 : (v : Value) {n : ℕ} → uint v ≡ ok n → IsU64 n
unfolding uint
uint-IsU64 (integer (pos n)) h = ground arith
uint-IsU64 _ h = cc

store-TimesFit :
    (k : ℤ) (v : Value) (c : Collected) {c' : Collected}
    → TimesFit c
    → store k v c ≡ ok c'
    → TimesFit c'
unfolding store text_of bytes_of uint
store-TimesFit k (integer (pos m)) c f h =
    (λ n e. ground (arith, f.0 n), λ n e. ground (arith, f.1 n))
store-TimesFit k v c f h = (λ n e. ground (arith, f.0 n), λ n e. ground (arith, f.1 n))

collect-TimesFit :
    (es : List (Value × Value)) (c : Collected) {c' : Collected}
    → TimesFit c
    → collect es c ≡ ok c'
    → TimesFit c'
collect-TimesFit [] c {c'} f h =
    let same : c ≡ c' = unfold collect in ground arith in subst TimesFit same f
collect-TimesFit ((integer k, v) ∷ es) c f h =
    let (d, new, put, grown, more) = collect-cons k v es c h in
    collect-TimesFit es d (store-TimesFit k v (mark k c) f put) more
collect-TimesFit ((_, v) ∷ es) c f h = unfold collect collect_entry in cc

times_of :
    (es : List (Value × Value)) (c : Collected) {p : Payload}
    → TimesFit c
    → Describes es c
    → Reads es p
    → IsU64 p.iat × IsU64 p.exp
times_of es c {p} f d r =
    let i = uint_inside c.iat (some p.iat) (sym d.iat ∙ r.iat_found) in
    let e = uint_inside c.exp (some p.exp) (sym d.exp ∙ r.exp_found) in (f.0 p.iat i, f.1 p.exp e)

from_value-IsU64 :
    (es : Entries) {p : Payload}
    → Reads (pairs es) p
    → from_value (map es) ≡ ok p
    → IsU64 p.iat × IsU64 p.exp
unfolding from_value
from_value-IsU64 es r h =
    let (c, collected, validated) = >>=-eq-ok (collect (pairs es) nothing) validate h in
    times_of (pairs es) c (collect-TimesFit (pairs es) nothing (λ n e. cc, λ n e. cc) collected)
      (collect-Describes (pairs es) collected) r

-- What it takes to be the payload of a value.
abbrev pub Claims : Value → Payload → Type 0
Claims v p = (es : Entries) × (v ≡ map es) × Reads (pairs es) p × IsU64 p.iat × IsU64 p.exp

-- `from_value` returns a payload exactly when the value is a map with distinct integer keys, each
-- field of the payload is the value under its key, of the right type and in lower case for the
-- operator, with 64-bit times and 64 for an absent unit, and the checks hold on the domain, the
-- role, the prefix, the order of `iat` and `exp`, the lifetime of at most 86400 seconds, and the
-- unit, which is from the prefix length to 64, and the prefix length for an ESP tenant.
pub from_value_iff : (v : Value) (p : Payload) → (from_value v ≡ ok p) ↔ Claims v p
from_value_iff v p = (
  λ h.
      let (es, is_map, r) = from_value-Reads v h in
      let fits = from_value-IsU64 es r (ap from_value (sym is_map) ∙ h) in
      (es, is_map, r, fits.0, fits.1),
  λ (es, is_map, r, i, e). ap from_value is_map ∙ from_value_complete es r i e,
)
