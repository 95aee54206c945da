-- ===== src/Payload/Rejects.antt =====
-- The reasons of `from_value`, by the check that gives them.
use mathlib.Core.Path.{subst}
use swornmail.Prelude.{
  ℕ, ◌+◌, ◌-◌, ◌%◌, ◌<◌, ◌≤◌, ◌≡◌, ◌≢◌, ◌⊎◌, refl, sym, true, false, not, ◌||◌, ◌&&◌, Option, none,
  some, arith, ltb, leb, ◌==◌, length, Bool-cases, inl, inr,
}
use swornmail.Prelude.Results.{ok, err, >>=-eq-err, ensure-eq-err, ok_or-eq-err}
use swornmail.Text.{Bytes}
use swornmail.Address.{Ipv6Prefix, new, is_attestable}
use swornmail.Reason.{
  Reason, malformed, bad_role, bad_prefix, bad_validity, lifetime_too_long, bad_unit,
}
use swornmail.Payload.{
  Role, mta, esp_tenant, forwarder, is_esp_tenant, octet_at, decode_prefix, parse_role,
  is_operator_domain, unit_or_default, check_bounds, check_fields,
}

-- The first check on the bounds that fails, with its reason.
pub data OutOfBounds (role : Role) (prefix : Ipv6Prefix) (unit iat exp : ℕ) : Reason → Type 0 where
  by_order : exp ≤ iat → OutOfBounds role prefix unit iat exp bad_validity
  by_lifetime :
      iat < exp → iat + 86400 < exp → OutOfBounds role prefix unit iat exp lifetime_too_long
  by_unit :
      iat < exp
      → exp ≤ iat + 86400
      → (64 < unit) ⊎ (unit < prefix.len)
      → OutOfBounds role prefix unit iat exp bad_unit
  by_tenant :
      iat < exp
      → exp ≤ iat + 86400
      → unit ≤ 64
      → prefix.len < unit
      → role ≡ esp_tenant
      → OutOfBounds role prefix unit iat exp bad_unit

esp_tenant_lem : (role : Role) → is_esp_tenant role ≡ true → role ≡ esp_tenant
esp_tenant_lem mta h = cc
esp_tenant_lem esp_tenant h = refl
esp_tenant_lem forwarder h = cc

module _ (operator : Bytes) (role : Role) (prefix : Ipv6Prefix) (declared : Option ℕ)
    (iat exp : ℕ) where
  bounds_complete :
      {r : Reason}
      → OutOfBounds role prefix (unit_or_default declared) iat exp r
      → check_bounds operator role prefix declared iat exp ≡ err r
  unfolding check_bounds
  bounds_complete (by_order a) = ground arith
  bounds_complete (by_lifetime a b) = ground arith
  bounds_complete (by_unit a b c) = ground arith
  bounds_complete (by_tenant a b c d e) = ground arith

  abbrev Outside : Reason → Type 0
  Outside = OutOfBounds role prefix (unit_or_default declared) iat exp

  bounds_sound :
      (r : Reason) → check_bounds operator role prefix declared iat exp ≡ err r → Outside r
  unfolding check_bounds
  bounds_sound r h = elim (Bool-cases (leb exp iat)) [
    | inl a ↦ subst Outside (ground arith) (by_order (ground arith))
    | inr a ↦ elim (Bool-cases (ltb 86400 (exp - iat))) [
      | inl b ↦ subst Outside (ground arith) (by_lifetime (ground arith) (ground arith))
      | inr b ↦
          elim (Bool-cases
            (ltb 64 (unit_or_default declared) || ltb (unit_or_default declared) prefix.len)) [
              | inl c ↦
                  subst Outside (ground arith)
                    (by_unit (ground arith) (ground arith) (ground arith))
              | inr c ↦
                  elim (Bool-cases
                    (is_esp_tenant role && not (unit_or_default declared % 256 == prefix.len))) [
                      | inl d ↦ subst Outside (ground arith) (
                          by_tenant (ground arith) (ground arith) (ground arith) (ground arith)
                            (esp_tenant_lem role (ground arith)))
                      | inr d ↦ absurd (ground arith)
                    ]
            ]
    ]
  ]

-- The first check on the fields that fails, with its reason.
pub data Rejects (operator prefix_bytes role_text : Bytes) (declared : Option ℕ) (iat exp : ℕ)
    : Reason → Type 0 where
  by_domain :
      is_operator_domain operator ≡ false
      → Rejects operator prefix_bytes role_text declared iat exp malformed
  by_role :
      is_operator_domain operator ≡ true
      → parse_role role_text ≡ none
      → Rejects operator prefix_bytes role_text declared iat exp bad_role
  by_width :
      (role : Role)
      → is_operator_domain operator ≡ true
      → parse_role role_text ≡ some role
      → length prefix_bytes ≢ 17
      → Rejects operator prefix_bytes role_text declared iat exp malformed
  by_length :
      (role : Role)
      → is_operator_domain operator ≡ true
      → parse_role role_text ≡ some role
      → length prefix_bytes ≡ 17
      → 128 < octet_at 16 prefix_bytes
      → Rejects operator prefix_bytes role_text declared iat exp bad_prefix
  by_prefix :
      (role : Role) (prefix : Ipv6Prefix)
      → is_operator_domain operator ≡ true
      → parse_role role_text ≡ some role
      → decode_prefix prefix_bytes ≡ ok prefix
      → is_attestable prefix ≡ false
      → Rejects operator prefix_bytes role_text declared iat exp bad_prefix
  by_bounds :
      (r : Reason) (role : Role) (prefix : Ipv6Prefix)
      → is_operator_domain operator ≡ true
      → parse_role role_text ≡ some role
      → decode_prefix prefix_bytes ≡ ok prefix
      → is_attestable prefix ≡ true
      → OutOfBounds role prefix (unit_or_default declared) iat exp r
      → Rejects operator prefix_bytes role_text declared iat exp r

decode_prefix-width : (b : Bytes) → length b ≢ 17 → decode_prefix b ≡ err malformed
unfolding decode_prefix
decode_prefix-width b h = ground arith

decode_prefix-length :
    (b : Bytes) → length b ≡ 17 → 128 < octet_at 16 b → decode_prefix b ≡ err bad_prefix
unfolding decode_prefix new
decode_prefix-length b h k = ground arith

decode_prefix-eq-err :
    (b : Bytes) (r : Reason)
    → decode_prefix b ≡ err r
    → ((length b ≢ 17) × (r ≡ malformed))
      ⊎ ((length b ≡ 17) × (128 < octet_at 16 b) × (r ≡ bad_prefix))
unfolding decode_prefix new
decode_prefix-eq-err b r h = elim (Bool-cases (length b == 17)) [
  | inl e ↦ inr (ground arith, ground arith, ground arith)
  | inr e ↦ inl ((λ k. ground arith), ground arith)
]

module _ (operator prefix_bytes role_text : Bytes) (declared : Option ℕ) (iat exp : ℕ) where
  abbrev Bad : Reason → Type 0
  Bad = Rejects operator prefix_bytes role_text declared iat exp

  pub fields_complete :
      (r : Reason) → Bad r → check_fields operator prefix_bytes role_text declared iat exp ≡ err r
  unfolding check_fields
  fields_complete _ (by_domain a) = rw a refl
  fields_complete _ (by_role a b) = rw a (rw b refl)
  fields_complete _ (by_width role a b c) =
      rw a (rw b (rw (decode_prefix-width prefix_bytes c) refl))
  fields_complete _ (by_length role a b c d) =
      rw a (rw b (rw (decode_prefix-length prefix_bytes c d) refl))
  fields_complete _ (by_prefix role prefix a b c d) = rw a (rw b (rw c (rw d refl)))
  fields_complete _ (by_bounds r role prefix a b c d e) =
      rw a (rw b (rw c (rw d (bounds_complete operator role prefix declared iat exp e))))

  pub fields_sound :
      (r : Reason) → check_fields operator prefix_bytes role_text declared iat exp ≡ err r → Bad r
  unfolding check_fields
  fields_sound r h = elim (ensure-eq-err (is_operator_domain operator) malformed _ h) [
    | inl (a, e) ↦ subst Bad (sym e) (by_domain a)
    | inr (a, h₁) ↦ elim (ok_or-eq-err (parse_role role_text) bad_role _ h₁) [
      | inl (b, e) ↦ subst Bad (sym e) (by_role a b)
      | inr (role, b, h₂) ↦ elim (>>=-eq-err (decode_prefix prefix_bytes) _ h₂) [
        | inl e ↦ elim (decode_prefix-eq-err prefix_bytes r e) [
          | inl (c, same) ↦ subst Bad (sym same) (by_width role a b c)
          | inr (c, d, same) ↦ subst Bad (sym same) (by_length role a b c d)
        ]
        | inr (prefix, c, h₃) ↦ elim (ensure-eq-err (is_attestable prefix) bad_prefix _ h₃) [
          | inl (d, e) ↦ subst Bad (sym e) (by_prefix role prefix a b c d)
          | inr (d, h₄) ↦
              by_bounds r role prefix a b c d
                (bounds_sound operator role prefix declared iat exp r h₄)
        ]
      ]
    ]
  ]
