-- ===== src/Difftest/Columns.antt =====
-- The columns of the report's lines.
use mathlib.Core.Path.{subst}
use swornmail.Prelude.{
  ℕ, ◌≡◌, ◌≢◌, refl, sym, ap, ◌∙◌, inl, inr, Option, none, some, List, [], ◌∷◌, arith, All-map,
  All-append, ◌==◌, Bool-cases, Option-cases, suc,
}
use swornmail.Prelude.Int.{ℤ}
use swornmail.Prelude.Results.{Result, ok, err, Result-cases}
use swornmail.Text.{Bytes, decimal, split, split_once}
use swornmail.Text.Number.{splitn}
use swornmail.Text.Split.{Lacks, split-append, split_whole, split_once-eq-some}
use swornmail.Text.Ipv6.Display.{display_ipv6}
use swornmail.Text.Ipv6.Characters.{display_ipv6-IsAddressByte}
use swornmail.Address.{Ipv6Prefix}
use swornmail.Address.Display.{display_prefix}
use swornmail.Reason.{Reason, auth_result, as_str}
use swornmail.Backend.{Ciborium, Dalek}
use swornmail.Key
use swornmail.Record.{PolicyRecord, parse_policy}
use swornmail.Record.Write.{IsDomain-IsVisible}
use swornmail.Token.{
  Unverified, Verified, Outcome, pass, observe_only, verify, verify_signature_only, reason_str,
  parse, verified,
}
use swornmail.Token.Verdict.{verify_iff}
use swornmail.Token.Diagnostic.{verified-outcome_of, verify_signature_only_iff}
use swornmail.Token.Attested.{parse_excluding-QueryNames}
use swornmail.Difftest.{
  Verdict, signature_verdict, policy_verdict, evaluate, report_line, columns, evaluate_line,
  case_verdict, next_or,
}

abbrev TabFree : Bytes → Type 0
TabFree = Lacks b'\t'

display_prefix-TabFree : (p : Ipv6Prefix) → TabFree (display_prefix p)
unfolding display_prefix
display_prefix-TabFree p =
    All-append (λ c. c ≢ b'\t') (display_ipv6 p.addr) _
      (All-map (display_ipv6 p.addr) (λ c h. ground arith) (display_ipv6-IsAddressByte p.addr))
      (omega arith, decimal-TabFree p.len)
  where
    decimal-TabFree : (n : ℕ) → TabFree (decimal n)
    decimal-TabFree n = ground arith

abbrev pub verified_fields : Option Verified → List Bytes
verified_fields none = [] ∷ [] ∷ [] ∷ []
verified_fields (some v) = v.operator ∷ display_prefix v.unit ∷ display_prefix v.observed_unit ∷ []

-- The columns of a verdict.
abbrev pub report_fields : Bytes → Verdict → List Bytes
report_fields name v = name ∷ v.result ∷ v.reason ∷ verified_fields v.verified

abbrev VerifiedTabFree : Option Verified → Type 0
VerifiedTabFree none = Unit
VerifiedTabFree (some v) = TabFree v.operator

record VerdictTabFree (v : Verdict) : Type 0 where
  result : TabFree v.result
  reason : TabFree v.reason
  verified : VerifiedTabFree v.verified

split-columns :
    (o : Option Verified) → VerifiedTabFree o → split b'\t' (columns o) ≡ verified_fields o
unfolding columns split
split-columns none h = refl
split-columns (some v) h =
    split-append b'\t' v.operator _ h
    ∙ ap (◌∷◌ v.operator) (
        split-append b'\t' (display_prefix v.unit) _ (display_prefix-TabFree v.unit)
        ∙ ap (◌∷◌ (display_prefix v.unit)) (
            split_whole b'\t' (display_prefix v.observed_unit)
              (display_prefix-TabFree v.observed_unit)))

split-report_line :
    (name : Bytes) (v : Verdict)
    → TabFree name
    → VerdictTabFree v
    → split b'\t' (report_line name v) ≡ report_fields name v
unfolding report_line
split-report_line name v n h =
    split-append b'\t' name _ n
    ∙ ap (◌∷◌ name) (
        split-append b'\t' v.result _ h.result
        ∙ ap (◌∷◌ v.result) (
            split-append b'\t' v.reason _ h.reason
            ∙ ap (◌∷◌ v.reason) (split-columns v.verified h.verified)))

auth_result-TabFree : (r : Reason) → TabFree (auth_result r)
unfolding auth_result
auth_result-TabFree r = ground arith

as_str-TabFree : (r : Reason) → TabFree (as_str r)
unfolding as_str
as_str-TabFree r = ground arith

signature_verdict-TabFree :
    (o : Result Reason Verified)
    → ((v : Verified) → o ≡ ok v → TabFree v.operator)
    → VerdictTabFree (signature_verdict o)
unfolding signature_verdict reason_str
signature_verdict-TabFree (ok v) h = record {
  result = omega arith;
  reason = omega arith;
  verified = h v refl;
}
signature_verdict-TabFree (err r) h = record {
  result = auth_result-TabFree r;
  reason = as_str-TabFree r;
  verified = tt;
}

policy_verdict-TabFree :
    (o : Result Reason Outcome)
    → ((w : Outcome) → o ≡ ok w → TabFree (verified w).operator)
    → VerdictTabFree (policy_verdict o)
unfolding policy_verdict reason_str verified
policy_verdict-TabFree (ok (pass v)) h = record {
  result = omega arith;
  reason = omega arith;
  verified = h (pass v) refl;
}
policy_verdict-TabFree (ok (observe_only v)) h = record {
  result = omega arith;
  reason = omega arith;
  verified = h (observe_only v) refl;
}
policy_verdict-TabFree (err r) h = record {
  result = auth_result-TabFree r;
  reason = as_str-TabFree r;
  verified = tt;
}

split_once-none : (s : Bytes) → split_once b'\t' s ≡ none → TabFree s
unfolding split_once
split_once-none [] h = tt
split_once-none (x ∷ s) h = elim (Bool-cases (x == b'\t')) [
  | inl e ↦ absurd (ground arith)
  | inr e ↦ elim (Option-cases (split_once b'\t' s)) [
    | inl later ↦ (ground arith, split_once-none s later)
    | inr (pieces, later) ↦ absurd (ground arith)
  ]
]

first_piece-TabFree :
    (n : ℕ) (line : Bytes) → TabFree ((next_or [] (splitn (suc (suc n)) b'\t' line)).0)
unfolding splitn
first_piece-TabFree n line = elim (Option-cases (split_once b'\t' line)) [
  | inl e ↦ rw (splitn, e) (split_once-none line e)
  | inr ((a, b), e) ↦ rw (splitn, e) (split_once-eq-some b'\t' line e).1
]

module _ (cbor : Ciborium) (dalek : Dalek) (key : Key.Ed25519PublicKey dalek) where
  module _ (token : Bytes) (source : ℕ) (now : ℤ) where
    operator-TabFree :
        {u : Unverified} → parse cbor token source now ≡ ok u → TabFree u.payload.operator
    unfolding parse
    operator-TabFree {u} h =
        let names = parse_excluding-QueryNames cbor token source now [] h in
        All-map u.payload.operator (λ c k. omega arith)
          (IsDomain-IsVisible u.payload.operator names.operator_domain)

    signature_only-TabFree :
        (v : Verified)
        → verify_signature_only cbor dalek token key source now ≡ ok v
        → TabFree v.operator
    signature_only-TabFree v h =
        let s = (verify_signature_only_iff cbor dalek token key source now v).0 h in
        subst (λ w. TabFree (Verified.operator w)) (sym s.reported)
          (operator-TabFree s.locally_valid)

    verify-TabFree :
        (policy : PolicyRecord) (o : Outcome)
        → verify cbor dalek token key policy source now ≡ ok o
        → TabFree (verified o).operator
    verify-TabFree policy o h =
        let a = (verify_iff cbor dalek token key policy source now o).0 h in
        subst (λ w. TabFree (Verified.operator w))
          (sym (ap verified a.reported ∙ verified-outcome_of a.pending policy))
          (operator-TabFree a.locally_valid)

    evaluate-TabFree : (txt : Bytes) → VerdictTabFree (evaluate cbor dalek key token source now txt)
    unfolding evaluate
    evaluate-TabFree [] = signature_verdict-TabFree _ signature_only-TabFree
    evaluate-TabFree (c ∷ s) = elim (Result-cases (parse_policy (c ∷ s))) [
      | inl (policy, e) ↦ rw e (policy_verdict-TabFree _ (verify-TabFree policy))
      | inr (e, failed) ↦
          rw failed (record { result = omega arith; reason = omega arith; verified = tt })
    ]

  case_verdict-TabFree :
      (token : Option Bytes) (source : Option ℕ) (now : ℤ) (txt : Bytes)
      → VerdictTabFree (case_verdict cbor dalek key token source now txt)
  case_verdict-TabFree none source now txt = record {
    result = omega arith;
    reason = omega arith;
    verified = tt;
  }
  case_verdict-TabFree (some token) none now txt = record {
    result = omega arith;
    reason = omega arith;
    verified = tt;
  }
  case_verdict-TabFree (some token) (some source) now txt = evaluate-TabFree token source now txt

  -- Whatever a line of the corpus contains, its line of the report, split at the tabs, is the six
  -- columns of one name and one verdict.
  pub split-evaluate_line :
      (line : Bytes)
      → (name : Bytes) × (v : Verdict) × (evaluate_line cbor dalek key line ≡ report_line name v)
        × (split b'\t' (evaluate_line cbor dalek key line) ≡ report_fields name v)
  unfolding evaluate_line
  split-evaluate_line line = (
    _,
    _,
    refl,
    split-report_line _ _ (first_piece-TabFree 3 line) (case_verdict-TabFree _ _ _ _),
  )
