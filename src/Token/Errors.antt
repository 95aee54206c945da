-- ===== src/Token/Errors.antt =====
-- Which reasons each stage of a verification can give.
use swornmail.Prelude.{
  ℕ, Bool, true, false, not, ◌||◌, Option, none, some, List, [], ◌∷◌, ◌++◌, arith, ◌==◌, any,
  length,
}
use swornmail.Prelude.Int.{ℤ, eqb_ℤ}
use swornmail.Prelude.Results.{Result, ok, err, ◌>>=◌, ensure, ok_or, ◌>>◌}
use swornmail.Text.{Bytes}
use swornmail.Address.{Ipv6Prefix, new, is_attestable}
use swornmail.Reason.{
  Reason, bad_signature, unauthorized_prefix, policy_unit_mismatch, malformed, header_confusion,
  bad_content_type, bad_kid, bad_role, bad_prefix,
}
use swornmail.Backend.{
  Value, integer, bytes, tag, array, map, Items, item, no_items, pairs, Ciborium,
}
use swornmail.Payload.{
  Payload, Role, Collected, nothing, text_of, bytes_of, uint, store, collect_entry, collect,
  decode_prefix, check_bounds, check_fields, validate, from_value, reject_tagged_fields, parse_role,
  is_operator_domain,
}
use swornmail.Cose.{
  label_of, labelled, Headers, read_headers, headers_of, CoseSign1, take_bytes, check_alg,
  check_content_type, check_kid, check_headers, decode_cbor, protected_of, cose_of_items,
  cose_of_value, parse_cose, get_header, has, shared_label, label_crit, label_alg,
  label_content_type, label_kid,
}
use swornmail.Token.{check_connection, parse_payload, parse_excluding}

-- The reasons of the local checks: all but the three of the policy and the signature.
abbrev pub IsLocal : Reason → Type 0
IsLocal bad_signature = ⊥
IsLocal unauthorized_prefix = ⊥
IsLocal policy_unit_mismatch = ⊥
IsLocal _ = Unit

-- A failure, if it is one, is a local one.
abbrev pub FailsLocally {ℓ} : {A : Type ℓ} → Result Reason A → Type 0
FailsLocally (ok a) = Unit
FailsLocally (err r) = IsLocal r

bind-local {ℓ κ} :
    {A : Type ℓ} {B : Type κ} (m : Result Reason A) (f : A → Result Reason B)
    → FailsLocally m
    → ((a : A) → FailsLocally (f a))
    → FailsLocally (m >>= f)
bind-local (ok a) f h k = k a
bind-local (err r) f h k = h

ensure-local : (b : Bool) (r : Reason) → IsLocal r → FailsLocally (ensure b r)
ensure-local true r h = tt
ensure-local false r h = h

ok_or-local {ℓ} : {A : Type ℓ} (o : Option A) (r : Reason) → IsLocal r → FailsLocally (ok_or o r)
ok_or-local none r h = h
ok_or-local (some a) r h = tt

-- A test, and what follows it.
ensure->>-local {ℓ} :
    {A : Type ℓ} (b : Bool) (r : Reason) (rest : Result Reason A)
    → IsLocal r
    → FailsLocally rest
    → FailsLocally (ensure b r >> rest)
ensure->>-local true r rest h k = k
ensure->>-local false r rest h k = h

store-local : (k : ℤ) (v : Value) (c : Collected) → FailsLocally (store k v c)
unfolding store text_of bytes_of uint
store-local k v c = ground arith

collect-local : (es : List (Value × Value)) (c : Collected) → FailsLocally (collect es c)
unfolding collect collect_entry
collect-local [] c = tt
collect-local ((integer k, v) ∷ es) c =
    bind-local (collect_entry (integer k) v c) (collect es)
      (ensure->>-local (not (any (eqb_ℤ k) c.seen)) malformed _ tt (store-local k v _))
      (λ d. collect-local es d)
collect-local ((_, v) ∷ es) c = tt

decode_prefix-local : (b : Bytes) → FailsLocally (decode_prefix b)
unfolding decode_prefix new
decode_prefix-local b = ground arith

check_bounds-local :
    (operator : Bytes) (role : Role) (prefix : Ipv6Prefix) (declared : Option ℕ) (iat exp : ℕ)
    → FailsLocally (check_bounds operator role prefix declared iat exp)
unfolding check_bounds
check_bounds-local operator role prefix declared iat exp = ground arith

check_connection-local :
    (payload : Payload) (source : ℕ) (now : ℤ) (ineligible : List Ipv6Prefix)
    → FailsLocally (check_connection payload source now ineligible)
unfolding check_connection
check_connection-local payload source now ineligible = ground arith

read_headers-local :
    (es : List (Value × Value)) (out : Headers) → FailsLocally (read_headers es out)
unfolding read_headers
read_headers-local [] out = tt
read_headers-local ((k, v) ∷ es) out = bind-local (label_of k) _ (label_of-local k) (λ label.
    ensure->>-local (not (any (labelled label) out)) malformed _ tt
      (read_headers-local es (out ++ (label, v) ∷ [])))
  where
    label_of-local : (k : Value) → FailsLocally (label_of k)
    label_of-local (integer i) = tt
    label_of-local (Value.text s) = tt
    label_of-local _ = tt

headers_of-local : (v : Value) → FailsLocally (headers_of v)
unfolding headers_of
headers_of-local (map es) = read_headers-local (pairs es) []
headers_of-local _ = tt

take_bytes-local : (v : Value) → FailsLocally (take_bytes v)
unfolding take_bytes
take_bytes-local (bytes b) = tt
take_bytes-local _ = tt

check_alg-local : (o : Option Value) → FailsLocally (check_alg o)
unfolding check_alg
check_alg-local (some (integer i)) = ensure-local _ header_confusion tt
check_alg-local _ = tt

check_content_type-local : (o : Option Value) → FailsLocally (check_content_type o)
unfolding check_content_type
check_content_type-local (some (Value.text s)) = ensure-local _ bad_content_type tt
check_content_type-local _ = tt

check_kid-local : (o : Option Value) → FailsLocally (check_kid o)
unfolding check_kid
check_kid-local (some (bytes b)) = ok_or-local _ bad_kid tt
check_kid-local _ = tt

check_headers-local : (cose : CoseSign1) → FailsLocally (check_headers cose)
unfolding check_headers
check_headers-local cose =
    let last =
      bind-local (check_alg (get_header cose.protected label_alg)) _
        (check_alg-local (get_header cose.protected label_alg))
        (λ _.
          bind-local (check_content_type (get_header cose.protected label_content_type)) _
            (check_content_type-local (get_header cose.protected label_content_type))
            (λ _. check_kid-local (get_header cose.protected label_kid))) in
    ensure->>-local (not (has cose.protected label_crit || has cose.unprotected label_crit))
      header_confusion _ tt
      (ensure->>-local
        (not (any (has cose.unprotected) (label_alg ∷ label_content_type ∷ label_kid ∷ [])))
        header_confusion _ tt
        (ensure->>-local (not (shared_label cose.unprotected cose.protected)) header_confusion _ tt
          last))

check_fields-local :
    (operator prefix_bytes role_text : Bytes) (declared : Option ℕ) (iat exp : ℕ)
    → FailsLocally (check_fields operator prefix_bytes role_text declared iat exp)
unfolding check_fields
check_fields-local operator prefix_bytes role_text declared iat exp =
    ensure->>-local (is_operator_domain operator) malformed _ tt (
      bind-local (ok_or (parse_role role_text) bad_role) _
        (ok_or-local (parse_role role_text) bad_role tt)
        (λ role.
          bind-local (decode_prefix prefix_bytes) _ (decode_prefix-local prefix_bytes) (λ prefix.
            ensure->>-local (is_attestable prefix) bad_prefix _ tt
              (check_bounds-local operator role prefix declared iat exp))))

validate-local : (c : Collected) → FailsLocally (validate c)
unfolding validate
validate-local c =
    bind-local (ok_or c.operator malformed) _ (ok_or-local c.operator malformed tt) (λ operator.
      bind-local (ok_or c.prefix_bytes malformed) _ (ok_or-local c.prefix_bytes malformed tt)
        (λ prefix. bind-local (ok_or c.iat malformed) _ (ok_or-local c.iat malformed tt) (λ iat.
          bind-local (ok_or c.exp malformed) _ (ok_or-local c.exp malformed tt) (λ exp.
            bind-local (ok_or c.role_text malformed) _ (ok_or-local c.role_text malformed tt)
              (λ role. check_fields-local operator prefix role c.unit iat exp)))))

from_value-local : (v : Value) → FailsLocally (from_value v)
unfolding from_value
from_value-local (map es) =
    bind-local (collect (pairs es) nothing) validate (collect-local (pairs es) nothing)
      validate-local
from_value-local _ = tt

module _ (cbor : Ciborium) where
  decode_cbor-local : (raw : Bytes) → FailsLocally (decode_cbor cbor raw)
  unfolding decode_cbor
  decode_cbor-local raw =
      bind-local (ok_or (cbor.from_reader raw) malformed) _
        (ok_or-local (cbor.from_reader raw) malformed tt)
        (λ p. ensure->>-local (p.1 == length raw) malformed (ok p.0) tt tt)

  protected_of-local : (raw : Bytes) → FailsLocally (protected_of cbor raw)
  unfolding protected_of
  protected_of-local [] = tt
  protected_of-local (b ∷ raw) =
      bind-local (decode_cbor cbor (b ∷ raw)) headers_of (decode_cbor-local (b ∷ raw))
        headers_of-local

  cose_of_items-local : (items : Items) → FailsLocally (cose_of_items cbor items)
  unfolding cose_of_items
  cose_of_items-local (item a (item b (item c (item d no_items)))) =
      bind-local (take_bytes a) _ (take_bytes-local a) (λ raw.
        bind-local (headers_of b) _ (headers_of-local b) (λ unprotected.
          bind-local (take_bytes c) _ (take_bytes-local c) (λ payload.
            bind-local (take_bytes d) _ (take_bytes-local d) (λ signature.
              bind-local (protected_of cbor raw) _ (protected_of-local raw) (λ protected. tt)))))
  cose_of_items-local _ = tt

  cose_of_value-local : (v : Value) → FailsLocally (cose_of_value cbor v)
  unfolding cose_of_value
  cose_of_value-local (tag t (array items)) = ground (arith, cose_of_items-local items)
  cose_of_value-local _ = tt

  parse_cose-local : (token : Bytes) → FailsLocally (parse_cose cbor token)
  unfolding parse_cose
  parse_cose-local token =
      bind-local (decode_cbor cbor token) _ (decode_cbor-local token) (λ v. cose_of_value-local v)

  parse_payload-local : (raw : Bytes) → FailsLocally (parse_payload cbor raw)
  unfolding parse_payload reject_tagged_fields
  parse_payload-local raw = bind-local (decode_cbor cbor raw) _ (decode_cbor-local raw) (λ v.
      bind-local (reject_tagged_fields cbor raw) _
        (bind-local (ok_or (cbor.captured_map raw) malformed) _
          (ok_or-local (cbor.captured_map raw) malformed tt)
          (λ fields. ensure-local _ malformed tt))
        (λ _. from_value-local v))

  -- When `parse_excluding` fails, its reason is none of `bad_signature`, `unauthorized_prefix` and
  -- `policy_unit_mismatch`.
  pub parse_excluding-FailsLocally :
      (token : Bytes) (source : ℕ) (now : ℤ) (ineligible : List Ipv6Prefix)
      → FailsLocally (parse_excluding cbor token source now ineligible)
  unfolding parse_excluding
  parse_excluding-FailsLocally token source now ineligible = ensure->>-local _ malformed _ tt (
      bind-local (parse_cose cbor token) _ (parse_cose-local token) (λ cose.
        bind-local (check_headers cose) _ (check_headers-local cose) (λ selector.
          bind-local (parse_payload cbor cose.payload) _ (parse_payload-local cose.payload)
            (λ payload.
              bind-local (check_connection payload source now ineligible) _
                (check_connection-local payload source now ineligible) (λ _. tt)))))
