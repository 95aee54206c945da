-- ===== src/Reason/Strings.antt =====
-- The reason strings tell the reasons apart.
use swornmail.Prelude.{◌≡◌, ◌≢◌, refl, ap, Option, none, some, List, [], ◌∷◌, if◌then◌else◌}
use swornmail.Text.{Bytes, codes, bytes_eq}
use swornmail.Reason.{
  Reason, off_prefix, ineligible_source, expired, not_yet_valid, bad_signature, lifetime_too_long,
  bad_unit, bad_prefix, bad_validity, unauthorized_prefix, policy_unit_mismatch, bad_content_type,
  bad_kid, header_confusion, bad_role, malformed, as_str, pass_str,
}

abbrev all_reasons : List Reason
all_reasons =
    off_prefix ∷ ineligible_source ∷ expired ∷ not_yet_valid ∷ bad_signature ∷ lifetime_too_long
    ∷ bad_unit ∷ bad_prefix ∷ bad_validity ∷ unauthorized_prefix ∷ policy_unit_mismatch
    ∷ bad_content_type ∷ bad_kid ∷ header_confusion ∷ bad_role ∷ malformed ∷ []

-- The first reason with a given string.
reason_among : List Reason → Bytes → Option Reason
reason_among [] s = none
reason_among (r ∷ rs) s = if bytes_eq (as_str r) s then some r else reason_among rs s

reason_among-as_str : (r : Reason) → reason_among all_reasons (as_str r) ≡ some r
unfolding reason_among as_str bytes_eq
reason_among-as_str off_prefix = refl
reason_among-as_str ineligible_source = refl
reason_among-as_str expired = refl
reason_among-as_str not_yet_valid = refl
reason_among-as_str bad_signature = refl
reason_among-as_str lifetime_too_long = refl
reason_among-as_str bad_unit = refl
reason_among-as_str bad_prefix = refl
reason_among-as_str bad_validity = refl
reason_among-as_str unauthorized_prefix = refl
reason_among-as_str policy_unit_mismatch = refl
reason_among-as_str bad_content_type = refl
reason_among-as_str bad_kid = refl
reason_among-as_str header_confusion = refl
reason_among-as_str bad_role = refl
reason_among-as_str malformed = refl

-- Two reasons with the same reason string are the same reason.
pub as_str-injective : (r s : Reason) → as_str r ≡ as_str s → r ≡ s
as_str-injective r s e =
    cc (reason_among-as_str r, reason_among-as_str s, ap (reason_among all_reasons) e)

no_pass : reason_among all_reasons pass_str ≡ none
unfolding reason_among as_str bytes_eq
no_pass = refl

no_other :
    (reason_among all_reasons (codes "testing_mode") ≡ none)
    × (reason_among all_reasons (codes "policy_record_invalid") ≡ none)
unfolding reason_among as_str bytes_eq
no_other = (refl, refl)

-- No failure is reported by the string of a success.
pub as_str-ne-pass : (r : Reason) → as_str r ≢ pass_str
as_str-ne-pass r e = cc (reason_among-as_str r, no_pass, ap (reason_among all_reasons) e)

-- Nor by one of the two strings that the differential test has of its own.
pub as_str-ne-other :
    (r : Reason) → (as_str r ≢ codes "testing_mode") × (as_str r ≢ codes "policy_record_invalid")
as_str-ne-other r = (
  λ e. cc (reason_among-as_str r, no_other.0, ap (reason_among all_reasons) e),
  λ e. cc (reason_among-as_str r, no_other.1, ap (reason_among all_reasons) e),
)
