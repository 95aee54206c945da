-- ===== src/Difftest.antt =====
-- src/bin/difftest.rs: the evaluator of the differential test, from the lines of a corpus to the lines
-- of its report. Reading and writing the lines is left to the caller.
pub mod Hex
pub mod Report
pub mod Corpus
pub mod Columns
use swornmail.Prelude.{
  ℕ, ◌+◌, ◌-◌, ◌*◌, Bool, true, false, Option, none, some, List, [], ◌∷◌, ◌++◌, within,
  if◌then◌else◌,
}
use swornmail.Prelude.Int.{ℤ, pos}
use swornmail.Prelude.Results.{Result, ok, err}
use swornmail.Text.{Bytes, codes, is_empty}
use swornmail.Text.Number.{i64_from_str, splitn}
use swornmail.Text.Space.{trim_unicode}
use swornmail.Text.Ipv6.{parse_ipv6}
use swornmail.Address.Display.{display_prefix}
use swornmail.Reason.{Reason, auth_result}
use swornmail.Backend.{Ciborium, Dalek}
use swornmail.Key
use swornmail.Record.{RecordError, PolicyRecord, parse_policy}
use swornmail.Token.{
  Verified, Outcome, pass, observe_only, reason_str, unit_error, verify, verify_signature_only,
}

unfoldable pub hex_val : ℕ → Option ℕ
hex_val c =
    if within b'0' b'9' c
    then some (c - b'0')
    else if within b'a' b'f' c
    then some (c - b'a' + 10)
    else if within b'A' b'F' c
    then some (c - b'A' + 10)
    else none

-- `(high << 4) | low`, where `low` is below 16
abbrev pair_octet : Option ℕ → Option ℕ → Option ℕ
pair_octet (some high) (some low) = some (high * 16 + low)
pair_octet _ _ = none

abbrev push_octet : Option ℕ → Option Bytes → Option Bytes
push_octet (some b) (some s) = some (b ∷ s)
push_octet _ _ = none

-- the length is even exactly when the loop takes all digits in pairs
unfoldable pub hex_decode : Bytes → Option Bytes
hex_decode [] = some []
hex_decode (c ∷ []) = none
hex_decode (c ∷ d ∷ s) = push_octet (pair_octet (hex_val c) (hex_val d)) (hex_decode s)

-- The three values that a case is evaluated to: the result, the reason, and the verified token.
pub record Verdict : Type 0 where
  pub result : Bytes
  pub reason : Bytes
  pub verified : Option Verified

-- the outcome, with `reason_str` of it taken before the match
abbrev pub with_reason : Bytes → Result Reason Verified → Verdict
with_reason reason (ok v) = record { result = codes "pass"; reason = reason; verified = some v }
with_reason reason (err r) = record { result = auth_result r; reason = reason; verified = none }

unfoldable pub signature_verdict : Result Reason Verified → Verdict
unfolding reason_str
signature_verdict outcome = with_reason (reason_str outcome) outcome

unfoldable pub policy_verdict : Result Reason Outcome → Verdict
unfolding reason_str
policy_verdict (ok (pass v)) = record {
  result = codes "pass";
  reason = codes "pass";
  verified = some v;
}
policy_verdict (ok (observe_only v)) = record {
  result = codes "none";
  reason = codes "testing_mode";
  verified = some v;
}
policy_verdict (err r) = record {
  result = auth_result r;
  reason = reason_str (unit_error r);
  verified = none;
}

abbrev pub invalid_policy : Verdict
invalid_policy = record {
  result = codes "permerror";
  reason = codes "policy_record_invalid";
  verified = none;
}

module _ (cbor : Ciborium) (dalek : Dalek) (key : Key.Ed25519PublicKey dalek) where
  abbrev pub record_verdict : Bytes → ℕ → ℤ → Result RecordError PolicyRecord → Verdict
  record_verdict token source now (ok policy) =
      policy_verdict (verify cbor dalek token key policy source now)
  record_verdict token source now (err e) = invalid_policy

  -- an empty policy selects the signature-only check
  unfoldable pub evaluate : Bytes → ℕ → ℤ → Bytes → Verdict
  unfolding signature_verdict policy_verdict
  evaluate token source now policy_txt =
      if is_empty policy_txt
      then signature_verdict (verify_signature_only cbor dalek token key source now)
      else record_verdict token source now (parse_policy policy_txt)

abbrev tab : Bytes → Bytes
tab s = b'\t' ∷ s

-- the last three columns
unfoldable pub columns : Option Verified → Bytes
columns none = tab (tab [])
columns (some v) = v.operator ++ tab (display_prefix v.unit ++ tab (display_prefix v.observed_unit))

-- `{name}\t{auth_result}\t{reason}\t{operator}\t{unit}\t{observed_unit}`
unfoldable pub report_line : Bytes → Verdict → Bytes
unfolding columns
report_line name v = name ++ tab (v.result ++ tab (v.reason ++ tab (columns v.verified)))

abbrev pub bad_token : Verdict
bad_token = record { result = codes "permerror"; reason = codes "malformed"; verified = none }

abbrev pub bad_source : Verdict
bad_source = record { result = codes "permerror"; reason = codes "bad_source"; verified = none }

-- `it.next().unwrap_or(default)`, with what the iterator has left
abbrev pub next_or : Bytes → List Bytes → Bytes × List Bytes
next_or default [] = (default, [])
next_or default (s ∷ rest) = (s, rest)

abbrev pub or_zero : Option ℤ → ℤ
or_zero none = pos 0
or_zero (some n) = n

module _ (cbor : Ciborium) (dalek : Dalek) (key : Key.Ed25519PublicKey dalek) where
  -- the two early returns, and the evaluation
  abbrev pub case_verdict : Option Bytes → Option ℕ → ℤ → Bytes → Verdict
  case_verdict none source now policy_txt = bad_token
  case_verdict (some token) none now policy_txt = bad_source
  case_verdict (some token) (some source) now policy_txt =
      evaluate cbor dalek key token source now policy_txt

  -- one round of the loop, for a line that is not empty
  unfoldable pub evaluate_line : Bytes → Bytes
  unfolding evaluate report_line
  evaluate_line line =
      let (name, it₁) = next_or [] (splitn 5 b'\t' line) in
      let (token_hex, it₂) = next_or [] it₁ in
      let (source_str, it₃) = next_or [] it₂ in
      let (now_str, it₄) = next_or (codes "0") it₃ in
      let (policy_txt, it₅) = next_or [] it₄ in
      let now = or_zero (i64_from_str now_str) in
      report_line name (case_verdict (hex_decode token_hex) (parse_ipv6 source_str) now policy_txt)

  -- the loop: an empty line is skipped
  unfoldable pub evaluate_lines : List Bytes → List Bytes
  unfolding evaluate_line
  evaluate_lines [] = []
  evaluate_lines (line ∷ lines) =
      let rest = evaluate_lines lines in if is_empty line then rest else evaluate_line line ∷ rest

module _ (cbor : Ciborium) (dalek : Dalek) where
  -- the key of the first line
  unfoldable pub read_key : Option Bytes → Option (Key.Ed25519PublicKey dalek)
  read_key none = none
  read_key (some octets) = Key.from_bytes dalek octets

  abbrev pub with_key : Option (Key.Ed25519PublicKey dalek) → List Bytes → Option (List Bytes)
  with_key none lines = none
  with_key (some key) lines = some (evaluate_lines cbor dalek key lines)

  -- `main`, from the lines read to the lines written; `none` where an `expect` panics
  unfoldable pub evaluate_corpus : List Bytes → Option (List Bytes)
  unfolding evaluate_lines read_key hex_decode
  evaluate_corpus [] = none
  evaluate_corpus (pub_hex ∷ lines) = with_key (read_key (hex_decode (trim_unicode pub_hex))) lines
