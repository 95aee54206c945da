-- ===== src/Cose/Refusals.antt =====
-- Which reason `check_headers` gives.
use mathlib.Core.Path.{subst}
use swornmail.Prelude.{
  ◌≡◌, ◌≢◌, refl, sym, ap, ◌∙◌, ◌↔◌, ◌⊎◌, Bool, true, false, ◌||◌, Option, some, [], ◌∷◌, arith,
  any, inl, inr, Bool-cases,
}
use swornmail.Prelude.Int.{ℤ, negsuc}
use swornmail.Prelude.Results.{Result, ok, err, ◌>>◌, >>=-eq-err, Result-cases}
use swornmail.Text.{Bytes, to_ascii_lowercase}
use swornmail.Reason.{Reason, header_confusion, bad_content_type, bad_kid}
use swornmail.Backend.{Value, integer, bytes, text}
use swornmail.Dns.{IsLabel}
use swornmail.Cose.{
  get_header, has, shared_label, CoseSign1, check_alg, check_content_type, check_kid, check_headers,
  label_alg, label_crit, label_content_type, label_kid, content_type,
}
use swornmail.Cose.Rules.{
  check_alg-eq-ok, check_content_type-eq-ok, check_kid-eq-ok, check_alg-ok, check_content_type-ok,
  check_kid-ok, selector_from_kid_iff, Apart, shared_label_iff,
}

-- Where the labels stand: no `crit`, none of the three outside, none in both buckets.
pub record Placed (cose : CoseSign1) : Type 0 where
  pub no_crit : has cose.protected label_crit ≡ false
  pub no_crit_outside : has cose.unprotected label_crit ≡ false
  pub no_alg_outside : has cose.unprotected label_alg ≡ false
  pub no_cty_outside : has cose.unprotected label_content_type ≡ false
  pub no_kid_outside : has cose.unprotected label_kid ≡ false
  pub apart : Apart cose.unprotected cose.protected

-- What the three protected headers must be.
abbrev pub AlgKnown : Option Value → Type 0
AlgKnown o = (alg : ℤ) × (o ≡ some (integer alg)) × ((alg ≡ negsuc 7) ⊎ (alg ≡ negsuc 18))

abbrev pub KidLabel : Option Value → Type 0
KidLabel o = (kid : Bytes) × (o ≡ some (bytes kid)) × IsLabel kid

-- The first rule that the headers break, with its reason.
pub data Broken (cose : CoseSign1) : Reason → Type 0 where
  by_place : ¬ Placed cose → Broken cose header_confusion
  by_alg :
      Placed cose → ¬ AlgKnown (get_header cose.protected label_alg) → Broken cose header_confusion
  by_type :
      Placed cose
      → AlgKnown (get_header cose.protected label_alg)
      → get_header cose.protected label_content_type ≢ some (text content_type)
      → Broken cose bad_content_type
  by_kid :
      Placed cose
      → AlgKnown (get_header cose.protected label_alg)
      → get_header cose.protected label_content_type ≡ some (text content_type)
      → ¬ KidLabel (get_header cose.protected label_kid)
      → Broken cose bad_kid

alg_reason : (o : Option Value) {r : Reason} → check_alg o ≡ err r → r ≡ header_confusion
unfolding check_alg
alg_reason (some (integer i)) h = ground arith
alg_reason _ h = cc

type_reason : (o : Option Value) {r : Reason} → check_content_type o ≡ err r → r ≡ bad_content_type
unfolding check_content_type
type_reason (some (Value.text s)) h = ground arith
type_reason _ h = cc

kid_reason : (o : Option Value) {r : Reason} → check_kid o ≡ err r → r ≡ bad_kid
unfolding check_kid
kid_reason (some (bytes b)) h = ground arith
kid_reason _ h = cc

alg_passes : (o : Option Value) → AlgKnown o → check_alg o ≡ ok tt
alg_passes o (alg, e, known) = ap check_alg e ∙ check_alg-ok alg known

alg_fails : (o : Option Value) → ¬ AlgKnown o → check_alg o ≡ err header_confusion
alg_fails o n = elim (Result-cases (check_alg o)) [
  | inl (u, h) ↦ absurd (n (check_alg-eq-ok o h))
  | inr (r, h) ↦ h ∙ ap err (alg_reason o h)
]

type_fails :
    (o : Option Value) → o ≢ some (text content_type) → check_content_type o ≡ err bad_content_type
type_fails o n = elim (Result-cases (check_content_type o)) [
  | inl (u, h) ↦ absurd (n (check_content_type-eq-ok o h))
  | inr (r, h) ↦ h ∙ ap err (type_reason o h)
]

kid_fails : (o : Option Value) → ¬ KidLabel o → check_kid o ≡ err bad_kid
kid_fails o n = elim (Result-cases (check_kid o)) [
  | inl (s, h) ↦
      let (kid, e, selected) = check_kid-eq-ok o h in
      absurd (n (kid, e, ((selector_from_kid_iff kid s).0 selected).0))
  | inr (r, h) ↦ h ∙ ap err (kid_reason o h)
]

kid_passes : (o : Option Value) → KidLabel o → (s : Bytes) × (check_kid o ≡ ok s)
kid_passes o (kid, e, l) = (to_ascii_lowercase kid, ap check_kid e ∙ check_kid-ok kid l)

module _ (cose : CoseSign1) where
  -- The tests on the labels come first.
  abbrev misplaced : Bool
  misplaced =
      (has cose.protected label_crit || has cose.unprotected label_crit)
      || any (has cose.unprotected) (label_alg ∷ label_content_type ∷ label_kid ∷ [])
      || shared_label cose.unprotected cose.protected

  Placed-iff : (misplaced ≡ false) ↔ Placed cose
  Placed-iff = (
    λ h. record {
      no_crit = ground arith;
      no_crit_outside = ground arith;
      no_alg_outside = ground arith;
      no_cty_outside = ground arith;
      no_kid_outside = ground arith;
      apart = (shared_label_iff cose.unprotected cose.protected).0 (ground arith);
    },
    λ p.
        rw
          (
            p.no_crit,
            p.no_crit_outside,
            p.no_alg_outside,
            p.no_cty_outside,
            p.no_kid_outside,
            (shared_label_iff cose.unprotected cose.protected).1 p.apart,
          )
          refl,
  )

  rest_of_headers : Result Reason Bytes
  rest_of_headers =
      check_alg (get_header cose.protected label_alg)
      >> (check_content_type (get_header cose.protected label_content_type)
          >> check_kid (get_header cose.protected label_kid))

  headers_misplaced : misplaced ≡ true → check_headers cose ≡ err header_confusion
  unfolding check_headers
  headers_misplaced h = ground arith

  headers_placed : misplaced ≡ false → check_headers cose ≡ rest_of_headers
  unfolding check_headers rest_of_headers
  headers_placed h =
      let p = Placed-iff.0 h in
      rw
        (
          p.no_crit,
          p.no_crit_outside,
          p.no_alg_outside,
          p.no_cty_outside,
          p.no_kid_outside,
          (shared_label_iff cose.unprotected cose.protected).1 p.apart,
        )
        refl

  -- The rules on the values, once the labels are placed.
  values_sound : (r : Reason) → Placed cose → rest_of_headers ≡ err r → Broken cose r
  unfolding rest_of_headers
  values_sound r p h =
      let alg = get_header cose.protected label_alg in
      let cty = get_header cose.protected label_content_type in
      let kid = get_header cose.protected label_kid in
      elim (>>=-eq-err (check_alg alg) (λ _. check_content_type cty >> check_kid kid) h) [
        | inl e ↦
            subst (Broken cose) (sym (alg_reason alg e)) (by_alg p (λ k. cc (alg_passes alg k, e)))
        | inr (u, a, h₁) ↦
            let known = check_alg-eq-ok alg a in
            elim (>>=-eq-err (check_content_type cty) (λ _. check_kid kid) h₁) [
              | inl e ↦
                  subst (Broken cose) (sym (type_reason cty e))
                    (by_type p known (λ k. cc (ap check_content_type k ∙ check_content_type-ok, e)))
              | inr (w, b, e) ↦ subst (Broken cose) (sym (kid_reason kid e)) (
                  by_kid p known (check_content_type-eq-ok cty b)
                    (λ k. cc ((kid_passes kid k).1, e)))
            ]
      ]

  Broken-sound : (r : Reason) → check_headers cose ≡ err r → Broken cose r
  Broken-sound r h = elim (Bool-cases misplaced) [
    | inl m ↦
        let same : header_confusion ≡ r = cc (headers_misplaced m, h) in
        subst (Broken cose) same (by_place (λ p. cc (m, Placed-iff.1 p)))
    | inr m ↦ values_sound r (Placed-iff.0 m) (sym (headers_placed m) ∙ h)
  ]

  Broken-complete : (r : Reason) → Broken cose r → check_headers cose ≡ err r
  unfolding rest_of_headers
  Broken-complete _ (by_place n) = elim (Bool-cases misplaced) [
    | inl m ↦ headers_misplaced m
    | inr m ↦ absurd (n (Placed-iff.0 m))
  ]
  Broken-complete _ (by_alg p n) =
      headers_placed (Placed-iff.1 p) ∙ rw (alg_fails (get_header cose.protected label_alg) n) refl
  Broken-complete _ (by_type p k n) =
      headers_placed (Placed-iff.1 p)
      ∙ rw (alg_passes (get_header cose.protected label_alg) k)
          (rw (type_fails (get_header cose.protected label_content_type) n) refl)
  Broken-complete _ (by_kid p k t n) =
      headers_placed (Placed-iff.1 p)
      ∙ rw (alg_passes (get_header cose.protected label_alg) k) (
          rw t (
            rw check_content_type-ok (rw (kid_fails (get_header cose.protected label_kid) n) refl)))

-- `check_headers` gives a reason exactly when the first rule that the headers break gives it:
-- `header_confusion` for a `crit` in either bucket, an alg, content type or kid in the unprotected
-- one, a label in both, or a protected alg that is not EdDSA or Ed25519, then `bad_content_type`
-- for a protected content type that is not the token's, then `bad_kid` for a protected kid that is
-- not a byte string with an LDH label.
pub check_headers-err_iff :
    (cose : CoseSign1) (r : Reason) → (check_headers cose ≡ err r) ↔ Broken cose r
check_headers-err_iff cose r = (Broken-sound cose r, Broken-complete cose r)
