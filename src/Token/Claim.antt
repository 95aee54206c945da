-- ===== src/Token/Claim.antt =====
-- All octets that are a token's payload, and the claim of each.
use mathlib.Core.Path.{subst}
use swornmail.Prelude.{
  sym, ap, ◌∙◌, not, ℕ, ◌≡◌, ◌≢◌, refl, ◌↔◌, ◌⊎◌, inl, inr, false, Option, none, some, List, [],
  ◌∷◌, arith, any, All, none_iff, false_iff, length,
}
use swornmail.Prelude.Int.{ℤ, pos, eqb_ℤ, eqb_ℤ_iff}
use swornmail.Prelude.Results.{ok, err, ok_or, >>=-eq-ok, ok_or-eq-ok, >>=-eq-err, Result-cases}
use swornmail.Text.{Bytes}
use swornmail.Reason.{Reason, malformed}
use swornmail.Backend.{Value, Ciborium}
use swornmail.Payload.{Payload, defined_keys, tagged_field, reject_tagged_fields, from_value}
use swornmail.Payload.Claims.{Claims, from_value_iff}
use swornmail.Payload.Errors.{Wrong, from_value-err_iff}
use swornmail.Cose.Malformed.{
  OnlyMalformed, >>=-OnlyMalformed, ensure-OnlyMalformed, ok_or-OnlyMalformed, eq-OnlyMalformed,
  decode_cbor-OnlyMalformed,
}
use swornmail.Cose.{decode_cbor}
use swornmail.Cose.Envelope.{decode_cbor_iff}
use swornmail.Token.{parse_payload}

-- A key other than the six that the draft defines.
abbrev pub Undefined : ℤ → Type 0
Undefined key = All (λ k. key ≢ k) (pos 1 ∷ pos 2 ∷ pos 3 ∷ pos 4 ∷ pos 5 ∷ pos 6 ∷ [])

-- A field with no tag on its value, or with a key that may have one.
abbrev pub UntaggedField : ℤ × Option ℕ × Value → Type 0
UntaggedField (key, t, v) = (t ≡ none) ⊎ Undefined key

Undefined-iff : (key : ℤ) → (any (eqb_ℤ key) defined_keys ≡ false) ↔ Undefined key
Undefined-iff key =
    none_iff (eqb_ℤ key) (λ k. key ≢ k) (λ k. false_iff (eqb_ℤ key k) (eqb_ℤ_iff key k))
      defined_keys

untagged_iff : (field : ℤ × Option ℕ × Value) → (tagged_field field ≡ false) ↔ UntaggedField field
untagged_iff (key, none, v) = (λ h. inl refl, λ h. refl)
untagged_iff (key, some t, v) = (
  λ h. inr ((Undefined-iff key).0 h),
  λ h. elim h [ inl e ↦ absurd cc | inr n ↦ (Undefined-iff key).1 n ],
)

module _ (cbor : Ciborium) where
  -- The payload as a map of integer keys, none of the six with a tag on its value.
  abbrev pub Untagged : Bytes → Type 0
  Untagged raw =
      (fields : List (ℤ × Option ℕ × Value)) × (cbor.captured_map raw ≡ some fields)
      × All UntaggedField fields

  reject_tagged_fields_iff : (raw : Bytes) → (reject_tagged_fields cbor raw ≡ ok tt) ↔ Untagged raw
  unfolding reject_tagged_fields
  reject_tagged_fields_iff raw = (
    λ h.
        let (fields, captured, h₁) = ok_or-eq-ok (cbor.captured_map raw) malformed _ h in
        let clean : any tagged_field fields ≡ false = ground (arith, h₁) in
        (fields, captured, (none_iff tagged_field UntaggedField untagged_iff fields).0 clean),
    λ (fields, captured, clean).
        rw captured (rw ((none_iff tagged_field UntaggedField untagged_iff fields).1 clean) refl),
  )

  -- What it takes to be the payload of octets.
  abbrev pub ClaimOf : Bytes → Payload → Type 0
  ClaimOf raw p =
      (v : Value) × (cbor.from_reader raw ≡ some (v, length raw)) × Untagged raw × Claims v p

  -- A payload's octets parse to a claim exactly when the decoder takes them all as a value that is
  -- a map with the claim's fields, read and checked, and as a map of integer keys in which no value
  -- under one of the six defined keys has a tag; another key's value may have one.
  pub parse_payload_iff :
      (raw : Bytes) (p : Payload) → (parse_payload cbor raw ≡ ok p) ↔ ClaimOf raw p
  unfolding parse_payload
  parse_payload_iff raw p = (
    λ h.
        let (v, decoded, h₁) = >>=-eq-ok (decode_cbor cbor raw) _ h in
        let (u, untagged, h₂) = >>=-eq-ok (reject_tagged_fields cbor raw) (λ _. from_value v) h₁ in
        (
          v,
          (decode_cbor_iff cbor raw v).0 decoded,
          (reject_tagged_fields_iff raw).0 untagged,
          (from_value_iff v p).0 h₂,
        ),
    λ (v, read, untagged, claims).
        rw ((decode_cbor_iff cbor raw v).1 read)
          (rw ((reject_tagged_fields_iff raw).1 untagged) ((from_value_iff v p).1 claims)),
  )

  -- Why octets are no claim: they do not decode, all of them, to a value, or a value under a defined
  -- key has a tag, or the value is no claim.
  pub data ClaimRefused (raw : Bytes) : Reason → Type 0 where
    by_octets :
        ((v : Value) → cbor.from_reader raw ≢ some (v, length raw)) → ClaimRefused raw malformed
    by_tag :
        (v : Value)
        → cbor.from_reader raw ≡ some (v, length raw)
        → ¬ Untagged raw
        → ClaimRefused raw malformed
    by_value :
        (r : Reason) (v : Value)
        → cbor.from_reader raw ≡ some (v, length raw)
        → Untagged raw
        → Wrong v r
        → ClaimRefused raw r

  untagged_reason : (raw : Bytes) → OnlyMalformed (reject_tagged_fields cbor raw)
  unfolding reject_tagged_fields
  untagged_reason raw =
      >>=-OnlyMalformed (ok_or (cbor.captured_map raw) malformed) _
        (ok_or-OnlyMalformed (cbor.captured_map raw))
        (λ fields. ensure-OnlyMalformed (not (any tagged_field fields)))

  decode_fails :
      (raw : Bytes)
      → ((v : Value) → cbor.from_reader raw ≢ some (v, length raw))
      → decode_cbor cbor raw ≡ err malformed
  decode_fails raw n = elim (Result-cases (decode_cbor cbor raw)) [
    | inl (v, decoded) ↦ absurd (n v ((decode_cbor_iff cbor raw v).0 decoded))
    | inr (e, failed) ↦
        failed
        ∙ ap err
            (eq-OnlyMalformed (decode_cbor cbor raw) (decode_cbor-OnlyMalformed cbor raw) failed)
  ]

  tag_fails : (raw : Bytes) → ¬ Untagged raw → reject_tagged_fields cbor raw ≡ err malformed
  tag_fails raw n = elim (Result-cases (reject_tagged_fields cbor raw)) [
    | inl (tt, clean) ↦ absurd (n ((reject_tagged_fields_iff raw).0 clean))
    | inr (e, failed) ↦
        failed
        ∙ ap err (eq-OnlyMalformed (reject_tagged_fields cbor raw) (untagged_reason raw) failed)
  ]

  ClaimRefused-complete :
      (raw : Bytes) {r : Reason} → ClaimRefused raw r → parse_payload cbor raw ≡ err r
  unfolding parse_payload
  ClaimRefused-complete raw (by_octets n) = rw (decode_fails raw n) refl
  ClaimRefused-complete raw (by_tag v read n) =
      rw ((decode_cbor_iff cbor raw v).1 read) (rw (tag_fails raw n) refl)
  ClaimRefused-complete raw (by_value r v read untagged wrong) =
      rw ((decode_cbor_iff cbor raw v).1 read)
        (rw ((reject_tagged_fields_iff raw).1 untagged) ((from_value-err_iff v r).1 wrong))

  ClaimRefused-sound :
      (raw : Bytes) (r : Reason) → parse_payload cbor raw ≡ err r → ClaimRefused raw r
  unfolding parse_payload
  ClaimRefused-sound raw r h = elim (>>=-eq-err (decode_cbor cbor raw) _ h) [
    | inl failed ↦
        subst (ClaimRefused raw)
          (sym
            (eq-OnlyMalformed (decode_cbor cbor raw) (decode_cbor-OnlyMalformed cbor raw) failed))
          (by_octets (λ v read. cc (failed, (decode_cbor_iff cbor raw v).1 read)))
    | inr (v, decoded, h₁) ↦
        let read = (decode_cbor_iff cbor raw v).0 decoded in
        elim (>>=-eq-err (reject_tagged_fields cbor raw) (λ _. from_value v) h₁) [
          | inl failed ↦
              subst (ClaimRefused raw)
                (sym
                  (eq-OnlyMalformed (reject_tagged_fields cbor raw) (untagged_reason raw) failed))
                (by_tag v read (λ untagged. cc (failed, (reject_tagged_fields_iff raw).1 untagged)))
          | inr (u, clean, h₂) ↦
              by_value r v read ((reject_tagged_fields_iff raw).0 clean)
                ((from_value-err_iff v r).0 h₂)
        ]
  ]

  -- `parse_payload` gives a reason exactly when the octets are refused for it.
  pub parse_payload-err_iff :
      (raw : Bytes) (r : Reason) → (parse_payload cbor raw ≡ err r) ↔ ClaimRefused raw r
  parse_payload-err_iff raw r = (ClaimRefused-sound raw r, ClaimRefused-complete raw)
