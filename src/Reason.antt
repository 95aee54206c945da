-- ===== src/Reason.antt =====
-- src/reason.rs: why a token failed, and how that is reported.
pub mod Strings
use swornmail.Prelude.{ℕ}
use swornmail.Text.{Bytes, codes}

pub data Reason : Type 0 where
  off_prefix ineligible_source expired not_yet_valid bad_signature lifetime_too_long : Reason
  bad_unit bad_prefix bad_validity unauthorized_prefix policy_unit_mismatch : Reason
  bad_content_type bad_kid header_confusion bad_role malformed : Reason

abbrev pub pass_str : Bytes
pass_str = codes "pass"

unfoldable pub as_str : Reason → Bytes
as_str off_prefix = codes "off_prefix"
as_str ineligible_source = codes "ineligible_source"
as_str expired = codes "expired"
as_str not_yet_valid = codes "not_yet_valid"
as_str bad_signature = codes "bad_signature"
as_str lifetime_too_long = codes "lifetime_too_long"
as_str bad_unit = codes "bad_unit"
as_str bad_prefix = codes "bad_prefix"
as_str bad_validity = codes "bad_validity"
as_str unauthorized_prefix = codes "unauthorized_prefix"
as_str policy_unit_mismatch = codes "policy_unit_mismatch"
as_str bad_content_type = codes "bad_content_type"
as_str bad_kid = codes "bad_kid"
as_str header_confusion = codes "header_confusion"
as_str bad_role = codes "bad_role"
as_str malformed = codes "malformed"

unfoldable pub auth_result : Reason → Bytes
auth_result bad_signature = codes "fail"
auth_result off_prefix = codes "fail"
auth_result expired = codes "fail"
auth_result not_yet_valid = codes "fail"
auth_result _ = codes "permerror"

-- `Display` of a reason
abbrev display_reason : Reason → Bytes
display_reason reason = as_str reason
