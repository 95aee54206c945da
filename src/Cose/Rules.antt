-- ===== src/Cose/Rules.antt =====
-- The header rules of a token.
use swornmail.Prelude.{
  ◌≡◌, refl, sym, ap, ◌∙◌, ◌↔◌, ◌⊎◌, true, false, not, ◌||◌, Option, none, some, [], ◌∷◌, arith,
  any, All, none_iff, false_iff, ◌≢◌,
}
use swornmail.Prelude.Int.{ℤ, negsuc, eqb_ℤ_iff}
use swornmail.Prelude.Results.{ok, ◌>>◌, >>=-eq-ok, ensure-eq-ok}
use swornmail.Text.{Bytes, bytes_eq_iff, to_ascii_lowercase}
use swornmail.Text.Utf8.{from_utf8-ascii}
use swornmail.Reason.{header_confusion}
use swornmail.Backend.{Value, integer, bytes, text}
use swornmail.Dns.{IsLabel}
use swornmail.Payload.{is_label}
use swornmail.Payload.Domain.{is_label_iff, IsLabel-ascii}
use swornmail.Cose.{
  Label, int, label_eq, labels, Headers, get_header, has, is_some, shared_label, CoseSign1,
  selector_from_kid, check_alg, check_content_type, check_kid, check_headers, label_alg, label_crit,
  label_content_type, label_kid, content_type,
}

fold-selector : (kid : Bytes) → IsLabel kid → selector_from_kid kid ≡ some (to_ascii_lowercase kid)
unfolding selector_from_kid is_label
fold-selector kid l =
    let utf8 = from_utf8-ascii kid (IsLabel-ascii kid l) in
    let label = (is_label_iff kid).1 l in ground arith

selector-is_label : (kid : Bytes) {s : Bytes} → selector_from_kid kid ≡ some s → is_label kid ≡ true
unfolding selector_from_kid is_label
selector-is_label kid h = ground arith

-- `selector_from_kid` returns a selector exactly when the octets are an LDH label of 1 to 63 octets
-- and the selector is its lower-case form.
pub selector_from_kid_iff :
    (kid s : Bytes)
    → (selector_from_kid kid ≡ some s) ↔ (IsLabel kid × (s ≡ to_ascii_lowercase kid))
selector_from_kid_iff kid s = (
  λ h.
      let l = (is_label_iff kid).0 (selector-is_label kid h) in
      (l, ground (arith, fold-selector kid l)),
  λ (l, e). fold-selector kid l ∙ ap some (sym e),
)

pub label_eq_iff : (a b : Label) → (label_eq a b ≡ true) ↔ (a ≡ b)
label_eq_iff (int a) (int b) = ground (arith, eqb_ℤ_iff a b)
label_eq_iff (Label.text a) (Label.text b) = ground (arith, bytes_eq_iff a b)
label_eq_iff (int a) (Label.text b) = ground arith
label_eq_iff (Label.text a) (int b) = ground arith

-- No label of the first bucket is one of the second.
abbrev pub Apart : Headers → Headers → Type 0
Apart unprotected protected =
    All (λ label. All (λ other. other ≢ label) (labels protected)) (labels unprotected)

pub shared_label_iff :
    (unprotected protected : Headers)
    → (shared_label unprotected protected ≡ false) ↔ Apart unprotected protected
shared_label_iff unprotected protected =
    none_iff (λ label. any (λ other. label_eq other label) (labels protected))
      (λ label. All (λ other. other ≢ label) (labels protected))
      (λ label.
        none_iff (λ other. label_eq other label) (λ other. other ≢ label)
          (λ other. false_iff (label_eq other label) (label_eq_iff other label)) (labels protected))
      (labels unprotected)

-- The draft's header rules: where the labels may stand, and what they say.
pub record HeaderRules (cose : CoseSign1) (selector : Bytes) : Type 0 where
  pub alg : ℤ
  pub kid : Bytes
  pub no_crit :
      (get_header cose.protected label_crit ≡ none)
      × (get_header cose.unprotected label_crit ≡ none)
  pub no_alg_outside : get_header cose.unprotected label_alg ≡ none
  pub no_cty_outside : get_header cose.unprotected label_content_type ≡ none
  pub no_kid_outside : get_header cose.unprotected label_kid ≡ none
  pub buckets_apart : Apart cose.unprotected cose.protected
  pub alg_protected : get_header cose.protected label_alg ≡ some (integer alg)
  pub alg_known : (alg ≡ negsuc 7) ⊎ (alg ≡ negsuc 18)
  pub cty_protected : get_header cose.protected label_content_type ≡ some (text content_type)
  pub kid_protected : get_header cose.protected label_kid ≡ some (bytes kid)
  pub kid_label : IsLabel kid
  pub selector_folded : selector ≡ to_ascii_lowercase kid

pub check_alg-eq-ok :
    (o : Option Value) {u : Unit {0}}
    → check_alg o ≡ ok u
    → (alg : ℤ) × (o ≡ some (integer alg)) × ((alg ≡ negsuc 7) ⊎ (alg ≡ negsuc 18))
unfolding check_alg
check_alg-eq-ok (some (integer i)) h =
    (i, refl, ground (arith, eqb_ℤ_iff i (negsuc 7), eqb_ℤ_iff i (negsuc 18)))
check_alg-eq-ok _ h = cc

pub check_content_type-eq-ok :
    (o : Option Value) {u : Unit {0}} → check_content_type o ≡ ok u → o ≡ some (text content_type)
unfolding check_content_type
check_content_type-eq-ok (some (Value.text s)) h = ground (arith, bytes_eq_iff s content_type)
check_content_type-eq-ok _ h = cc

pub check_kid-eq-ok :
    (o : Option Value) {s : Bytes}
    → check_kid o ≡ ok s
    → (kid : Bytes) × (o ≡ some (bytes kid)) × (selector_from_kid kid ≡ some s)
unfolding check_kid
check_kid-eq-ok (some (bytes b)) h = (b, refl, ground arith)
check_kid-eq-ok _ h = cc

pub check_alg-ok :
    (alg : ℤ) → (alg ≡ negsuc 7) ⊎ (alg ≡ negsuc 18) → check_alg (some (integer alg)) ≡ ok tt
unfolding check_alg
check_alg-ok alg h = ground arith

pub check_content_type-ok : check_content_type (some (text content_type)) ≡ ok tt
unfolding check_content_type
check_content_type-ok = ground (arith, (bytes_eq_iff content_type content_type).1 refl)

pub check_kid-ok :
    (kid : Bytes) → IsLabel kid → check_kid (some (bytes kid)) ≡ ok (to_ascii_lowercase kid)
unfolding check_kid
check_kid-ok kid l = rw (fold-selector kid l)

pub absent : (o : Option Value) → is_some o ≡ false → o ≡ none
absent none h = refl
absent (some v) h = cc

read_rules :
    (cose : CoseSign1) {selector : Bytes}
    → check_headers cose ≡ ok selector
    → HeaderRules cose selector
unfolding check_headers
read_rules cose h =
    let (crit, h₁) =
      ensure-eq-ok (not (has cose.protected label_crit || has cose.unprotected label_crit))
        header_confusion _ h in
    let (outside, h₂) =
      ensure-eq-ok
        (not (any (has cose.unprotected) (label_alg ∷ label_content_type ∷ label_kid ∷ [])))
        header_confusion _ h₁ in
    let (apart, h₃) =
      ensure-eq-ok (not (shared_label cose.unprotected cose.protected)) header_confusion _ h₂ in
    let (u, a, h₄) =
      >>=-eq-ok (check_alg (get_header cose.protected label_alg))
        (λ _.
          check_content_type (get_header cose.protected label_content_type)
          >> check_kid (get_header cose.protected label_kid))
        h₃ in
    let (w, b, h₅) =
      >>=-eq-ok (check_content_type (get_header cose.protected label_content_type))
        (λ _. check_kid (get_header cose.protected label_kid)) h₄ in
    let (alg, has_alg, known) = check_alg-eq-ok (get_header cose.protected label_alg) a in
    let (kid, has_kid, selected) = check_kid-eq-ok (get_header cose.protected label_kid) h₅ in
    let (label, folded) = (selector_from_kid_iff kid _).0 selected in
    record {
      alg = alg;
      kid = kid;
      no_crit = (
        absent (get_header cose.protected label_crit) (ground (arith, crit)),
        absent (get_header cose.unprotected label_crit) (ground (arith, crit)),
      );
      no_alg_outside = absent (get_header cose.unprotected label_alg) (ground (arith, outside));
      no_cty_outside =
          absent (get_header cose.unprotected label_content_type) (ground (arith, outside));
      no_kid_outside = absent (get_header cose.unprotected label_kid) (ground (arith, outside));
      buckets_apart = (shared_label_iff cose.unprotected cose.protected).0 (ground (arith, apart));
      alg_protected = has_alg;
      alg_known = known;
      cty_protected = check_content_type-eq-ok (get_header cose.protected label_content_type) b;
      kid_protected = has_kid;
      kid_label = label;
      selector_folded = folded;
    }

meet_rules :
    (cose : CoseSign1) (selector : Bytes)
    → HeaderRules cose selector
    → check_headers cose ≡ ok selector
unfolding check_headers
meet_rules cose selector r =
    rw
      (
        r.no_crit.0,
        r.no_crit.1,
        r.no_alg_outside,
        r.no_cty_outside,
        r.no_kid_outside,
        (shared_label_iff cose.unprotected cose.protected).1 r.buckets_apart,
        r.alg_protected,
        r.cty_protected,
        r.kid_protected,
      )
      (rw (check_alg-ok r.alg r.alg_known, check_content_type-ok, check_kid-ok r.kid r.kid_label)
        (ap ok (sym r.selector_folded)))

-- `check_headers` returns a selector exactly when no bucket has `crit`, the unprotected bucket has
-- no alg, content type or kid and shares no label with the protected one, the protected one has an
-- EdDSA or Ed25519 algorithm, the token's content type, and a byte string kid that is an LDH label,
-- and the selector is that label in lower case.
pub check_headers_iff :
    (cose : CoseSign1) (selector : Bytes)
    → (check_headers cose ≡ ok selector) ↔ HeaderRules cose selector
check_headers_iff cose selector = (read_rules cose, meet_rules cose selector)
