-- ===== src/Difftest/Corpus.antt =====
-- The lines of a corpus: what the evaluator reads from a line that was written from a case.
use swornmail.Prelude.{
  ℕ, suc, ◌+◌, ◌-◌, ◌*◌, ◌^◌, ◌<◌, ◌≡◌, refl, ap, ◌∙◌, some, List, [], ◌∷◌, ◌++◌, map, arith, ◌==◌,
  All, All-map, false, Bool-cases, Option-cases, inl, inr,
}
use swornmail.Prelude.Int.{ℤ}
use swornmail.Text.{Bytes, hex_digit, is_ascii_digit, is_empty}
use swornmail.Text.Number.{digits_value, positive_i64, negative_i64, i64_from_str, splitn}
use swornmail.Text.Space.{IsGraphic, trim_unicode_whole}
use swornmail.Text.Split.{Lacks, split_once-append}
use swornmail.Text.Ipv6.Display.{display_ipv6}
use swornmail.Text.Ipv6.Characters.{display_ipv6-IsAddressByte}
use swornmail.Text.Ipv6.RoundTrip.{parse_ipv6-display_ipv6}
use swornmail.Backend.{Ciborium, Dalek}
use swornmail.Key
use swornmail.Difftest.{
  tab, report_line, evaluate, evaluate_line, evaluate_lines, read_key, evaluate_corpus,
}
use swornmail.Difftest.Hex.{hex_decode-to_hex}

-- A case, with the time as it is written and as it is meant.
pub record Case : Type 0 where
  pub name : Bytes
  pub token : Bytes
  pub source : ℕ
  pub now_text : Bytes
  pub now : ℤ
  pub policy : Bytes

-- `<name>\t<token_hex>\t<source_ip>\t<now_unix>\t<policy_txt>`
abbrev pub case_line : Case → Bytes
case_line c =
    c.name
    ++ tab (Key.to_hex c.token ++ tab (display_ipv6 c.source ++ tab (c.now_text ++ tab c.policy)))

pub record CaseValid (c : Case) : Type 0 where
  pub name_Lacks : Lacks b'\t' c.name
  pub octets : All (λ b. b < 256) c.token
  pub source_fits : c.source < 2 ^ 128
  pub now_read : i64_from_str c.now_text ≡ some c.now

-- A tab in a number makes the number unreadable.
digits_value-Lacks : (acc : ℕ) (s : Bytes) {n : ℕ} → digits_value acc s ≡ some n → Lacks b'\t' s
unfolding digits_value
digits_value-Lacks acc [] h = tt
digits_value-Lacks acc (c ∷ s) {n} h = elim (Bool-cases (is_ascii_digit c)) [
  | inl digit ↦ (ground arith, digits_value-Lacks (acc * 10 + (c - b'0')) s {n = n} (ground arith))
  | inr other ↦ absurd (ground arith)
]

positive-Lacks : (s : Bytes) {n : ℤ} → positive_i64 (digits_value 0 s) ≡ some n → Lacks b'\t' s
positive-Lacks s h = elim (Option-cases (digits_value 0 s)) [
  | inl e ↦ absurd (ground arith)
  | inr (k, e) ↦ digits_value-Lacks 0 s e
]

negative-Lacks : (s : Bytes) {n : ℤ} → negative_i64 (digits_value 0 s) ≡ some n → Lacks b'\t' s
negative-Lacks s h = elim (Option-cases (digits_value 0 s)) [
  | inl e ↦ absurd (ground arith)
  | inr (k, e) ↦ digits_value-Lacks 0 s e
]

i64_from_str-Lacks : (s : Bytes) {n : ℤ} → i64_from_str s ≡ some n → Lacks b'\t' s
unfolding i64_from_str
i64_from_str-Lacks [] h = tt
i64_from_str-Lacks (c ∷ []) h = positive-Lacks (c ∷ []) h
i64_from_str-Lacks (c ∷ d ∷ s) {n} h = elim (Bool-cases (c == b'+')) [
  | inl plus ↦ (ground arith, positive-Lacks (d ∷ s) {n = n} (ground arith))
  | inr e ↦ elim (Bool-cases (c == b'-')) [
    | inl minus ↦ (ground arith, negative-Lacks (d ∷ s) {n = n} (ground arith))
    | inr e₂ ↦ positive-Lacks (c ∷ d ∷ s) {n = n} (ground arith)
  ]
]

to_hex-Lacks : (s : Bytes) → All (λ b. b < 256) s → Lacks b'\t' (Key.to_hex s)
unfolding Key.to_hex hex_digit
to_hex-Lacks [] h = tt
to_hex-Lacks (b ∷ s) h = (ground arith, (ground arith, to_hex-Lacks s h.1))

display_ipv6-Lacks : (a : ℕ) → Lacks b'\t' (display_ipv6 a)
display_ipv6-Lacks a = All-map (display_ipv6 a) (λ c h. ground arith) (display_ipv6-IsAddressByte a)

-- A piece before the separator, where more pieces may follow.
splitn-append :
    (n c : ℕ) (w rest : Bytes)
    → Lacks c w
    → splitn (suc (suc n)) c (w ++ (c ∷ rest)) ≡ w ∷ splitn (suc n) c rest
unfolding splitn
splitn-append n c w rest h = rw (splitn, split_once-append c w rest h) refl

splitn-case_line :
    (c : Case)
    → CaseValid c
    → splitn 5 b'\t' (case_line c)
      ≡ c.name ∷ Key.to_hex c.token ∷ display_ipv6 c.source ∷ c.now_text ∷ c.policy ∷ []
unfolding splitn
splitn-case_line c v =
    splitn-append 3 b'\t' c.name _ v.name_Lacks
    ∙ ap (◌∷◌ c.name) (
        splitn-append 2 b'\t' (Key.to_hex c.token) _ (to_hex-Lacks c.token v.octets)
        ∙ ap (◌∷◌ (Key.to_hex c.token)) (
            splitn-append 1 b'\t' (display_ipv6 c.source) _ (display_ipv6-Lacks c.source)
            ∙ ap (◌∷◌ (display_ipv6 c.source)) (
                splitn-append 0 b'\t' c.now_text c.policy
                  (i64_from_str-Lacks c.now_text v.now_read))))

is_empty-case_line : (c : Case) → is_empty (case_line c) ≡ false
is_empty-case_line c = is_empty-append c.name _
  where
    is_empty-append : (s rest : Bytes) → is_empty (s ++ tab rest) ≡ false
    is_empty-append [] rest = refl
    is_empty-append (x ∷ s) rest = refl

module _ (cbor : Ciborium) (dalek : Dalek) (key : Key.Ed25519PublicKey dalek) where
  pub evaluate_line-case_line :
      (c : Case)
      → CaseValid c
      → evaluate_line cbor dalek key (case_line c)
        ≡ report_line c.name (evaluate cbor dalek key c.token c.source c.now c.policy)
  unfolding evaluate_line
  evaluate_line-case_line c v = rw (splitn-case_line c v) (
      rw (hex_decode-to_hex c.token v.octets)
        (rw (parse_ipv6-display_ipv6 c.source v.source_fits) (rw v.now_read refl)))

  evaluate_lines-write_cases :
      (cases : List Case)
      → All CaseValid cases
      → evaluate_lines cbor dalek key (map case_line cases)
        ≡ map
            (λ c. report_line c.name (evaluate cbor dalek key c.token c.source c.now c.policy))
            cases
  unfolding evaluate_lines
  evaluate_lines-write_cases [] h = refl
  evaluate_lines-write_cases (c ∷ cases) h =
      rw (is_empty-case_line c)
        (rw (evaluate_line-case_line c h.0) (rw (evaluate_lines-write_cases cases h.1) refl))

to_hex-IsGraphic : (s : Bytes) → All (λ b. b < 256) s → All IsGraphic (Key.to_hex s)
unfolding Key.to_hex hex_digit
to_hex-IsGraphic [] h = tt
to_hex-IsGraphic (b ∷ s) h = (ground arith, (ground arith, to_hex-IsGraphic s h.1))

module _ (cbor : Ciborium) (dalek : Dalek) where
  -- From a corpus that is headed by a displayed key and lists cases, the evaluator writes one line
  -- for each case in the same order, the report of its evaluation at the case's octets, address,
  -- time and policy text, if the key's octets are octets that the signature crate reads back, the
  -- names have no tab, the tokens consist of octets, the addresses have 128 bits, and the times are
  -- written as 64-bit integers.
  pub evaluate_corpus-write_cases :
      (key : Key.Ed25519PublicKey dalek) (cases : List Case)
      → All (λ b. b < 256) (Key.to_bytes dalek key)
      → Key.from_bytes dalek (Key.to_bytes dalek key) ≡ some key
      → All CaseValid cases
      → evaluate_corpus cbor dalek (Key.display_key dalek key ∷ map case_line cases)
        ≡ some (
            map
              (λ c. report_line c.name (evaluate cbor dalek key c.token c.source c.now c.policy))
              cases)
  unfolding evaluate_corpus read_key Key.display_key
  evaluate_corpus-write_cases key cases fits read valid =
      let octets = Key.to_bytes dalek key in
      rw (trim_unicode_whole (Key.to_hex octets) (to_hex-IsGraphic octets fits)) (
        rw (hex_decode-to_hex octets fits)
          (rw read (ap some (evaluate_lines-write_cases cbor dalek key cases valid))))
