-- ===== src/UnitTests/Records.antt =====
-- The unit tests of src/record.rs.
use swornmail.Prelude.{
  ℕ, String, zero, suc, ◌+◌, ◌/◌, ◌%◌, Bool, true, false, not, ◌&&◌, List, [], ◌∷◌, ◌++◌, all, ◌==◌,
  length, if◌then◌else◌, ltb,
}
use swornmail.Prelude.Results.{Result}
use swornmail.Text.{Bytes, codes, bytes_eq, hex_digit}
use swornmail.Text.Split.{join}
use swornmail.Backend.{Dalek, Base64}
use swornmail.Key
use swornmail.Record.{
  RecordError, not_sworn, malformed_tag, duplicate_tag, unknown_algorithm, missing_tag, bad_value,
  max_policy_prefixes, PolicyRecord, KeyRecord, parse_key, parse_policy,
}
use swornmail.Prelude.Asserts.{unwrap_ok, unwrap_err, is_ok, is_none}

-- `==` on errors
abbrev pub same_error : RecordError → RecordError → Bool
same_error not_sworn not_sworn = true
same_error malformed_tag malformed_tag = true
same_error duplicate_tag duplicate_tag = true
same_error unknown_algorithm unknown_algorithm = true
same_error (missing_tag a) (missing_tag b) = bytes_eq a b
same_error (bad_value a) (bad_value b) = bytes_eq a b
same_error _ _ = false

-- `.unwrap_err()`, compared with an error
abbrev pub fails_with {ℓ} : {A : Type ℓ} → RecordError → Result RecordError A → Bool
fails_with e outcome = unwrap_err outcome (same_error e)

abbrev pk : Bytes
pk = codes "pk=ebVWLo/mVPlAeLES6KmLp5AfhTrmlb7X4OORC60ElmQ="

module _ (dalek : Dalek) (base64 : Base64) where
  abbrev pub parses_key_record : Bool
  parses_key_record =
      unwrap_ok (parse_key dalek base64 (codes "v=SWORN1; k=ed25519; " ++ pk)) (λ record_read.
        bytes_eq (Key.display_key dalek (KeyRecord.public_key record_read))
          (codes "79b5562e8fe654f94078b112e8a98ba7901f853ae695bed7e0e3910bad049664"))

  abbrev pub rejects_whitespace_inside_a_value : Bool
  rejects_whitespace_inside_a_value =
      fails_with malformed_tag (parse_key dalek base64 (codes "v=SWORN1; k=ed 25519; pk=AA=="))

  abbrev pub reports_unknown_algorithm_distinctly : Bool
  reports_unknown_algorithm_distinctly =
      fails_with unknown_algorithm (parse_key dalek base64 (codes "v=SWORN1; k=fn-dsa-512; " ++ pk))

  abbrev pub rejects_wrong_length_key : Bool
  rejects_wrong_length_key =
      fails_with (bad_value (codes "pk"))
        (parse_key dalek base64 (codes "v=SWORN1; k=ed25519; pk=AAAA"))

abbrev pub parses_policy_defaults : Bool
parses_policy_defaults = unwrap_ok (parse_policy (codes "v=SWORN1; p=2001:db8:f00::/48")) (λ policy.
    PolicyRecord.unit policy == 64
    && not (PolicyRecord.testing policy)
    && is_none (PolicyRecord.rua policy)
    && length (PolicyRecord.prefixes policy) == 1)

-- `{i:x}`, for a number below 256
abbrev lower_hex : ℕ → Bytes
lower_hex i = if ltb i 16 then hex_digit i ∷ [] else hex_digit (i / 16) ∷ hex_digit (i % 16) ∷ []

-- the numbered prefixes from `i` on, and what is no prefix behind them
abbrev numbered : ℕ → ℕ → List Bytes
numbered zero i = codes "not-a-prefix" ∷ []
numbered (suc n) i = (codes "2001:db8:" ++ lower_hex i ++ codes "00::/48") ∷ numbered n (i + 1)

abbrev pub ignores_prefixes_past_the_cap : Bool
ignores_prefixes_past_the_cap =
    unwrap_ok (parse_policy (codes "v=SWORN1; p=" ++ join b',' (numbered max_policy_prefixes 0)))
      (λ policy. length (PolicyRecord.prefixes policy) == max_policy_prefixes)

abbrev pub reads_testing_flag_among_unknown_flags : Bool
reads_testing_flag_among_unknown_flags =
    unwrap_ok (parse_policy (codes "v=SWORN1; t=z:y:future")) PolicyRecord.testing
    && unwrap_ok (parse_policy (codes "v=SWORN1; t=z"))
        (λ policy. not (PolicyRecord.testing policy))

abbrev pub rejects_policy_units_broader_than_a_prefix : Bool
rejects_policy_units_broader_than_a_prefix =
    fails_with (bad_value (codes "u"))
      (parse_policy (codes "v=SWORN1; p=2001:db8:f00:1200::/56; u=48"))

abbrev with_rua : String → Bytes
with_rua value = codes "v=SWORN1; rua=" ++ codes value

abbrev pub rejects_unsafe_report_destinations : Bool
rejects_unsafe_report_destinations =
    all (λ value. not (is_ok (parse_policy (with_rua value))))
      ("mailto:a@b.example\r\nBcc:victim@example.net" ∷ "mailto:a@b.example,c@d.example"
        ∷ "mailto:.a@b.example" ∷ "mailto:a@bad domain.example" ∷ [])
    && is_ok (parse_policy (with_rua "mailto:a.b+tag@b.example"))
