-- ===== src/Tests/Corpora.antt =====
-- A corpus of the differential test, evaluated.
use swornmail.Prelude.{◌≡◌, ◌↔◌, refl, some, [], ◌∷◌, arith, All, ◌<◌}
use swornmail.Prelude.Int.{ℤ, pos}
use swornmail.Text.{Bytes, codes, split, split_once}
use swornmail.Text.Number.{i64_from_str, splitn}
use swornmail.Key
use swornmail.Reason.{Reason, as_str}
use swornmail.Token.{Verified}
use swornmail.Difftest.{
  hex_val, hex_decode, Verdict, evaluate, report_line, evaluate_line, evaluate_corpus,
}
use swornmail.Difftest.Corpus.{Case, CaseValid, case_line, evaluate_corpus-write_cases}
use swornmail.Difftest.Report.{passed, Passes, Refuses, evaluate_iff}
use swornmail.Difftest.Columns.{report_fields, split-evaluate_line}
use swornmail.Tests.Cbor.{cbor}
use swornmail.Tests.Data.{token, dalek, key_octets, source, policy_text}

abbrev vector : Case
vector = record {
  name = codes "valid_in_prefix";
  token = token;
  source = source;
  now_text = codes "1786293000";
  now = pos 1786293000;
  policy = policy_text;
}

abbrev early : Case
early = record {
  name = codes "before_epoch";
  token = token;
  source = 1;
  now_text = codes "-1";
  now = ℤ.negsuc 0;
  policy = [];
}

vector-Valid : CaseValid vector
unfolding i64_from_str
vector-Valid = record {
  name_Lacks = ground arith;
  octets = omega arith;
  source_fits = omega arith;
  now_read = refl;
}

early-Valid : CaseValid early
unfolding i64_from_str
early-Valid = record {
  name_Lacks = ground arith;
  octets = omega arith;
  source_fits = omega arith;
  now_read = refl;
}

key_reads : Key.from_bytes dalek (Key.to_bytes dalek key_octets) ≡ some key_octets
unfolding Key.from_bytes Key.to_bytes
key_reads = refl

key_fits : All (λ b. b < 256) (Key.to_bytes dalek key_octets)
unfolding Key.to_bytes
key_fits = omega arith

evaluate_corpus-write_cases_example :
    evaluate_corpus cbor dalek
      (Key.display_key dalek key_octets ∷ case_line vector ∷ case_line early ∷ [])
    ≡ some (
        report_line
          (codes "valid_in_prefix")
          (evaluate cbor dalek key_octets token source (pos 1786293000) policy_text)
        ∷ report_line
            (codes "before_epoch")
            (evaluate cbor dalek key_octets token 1 (ℤ.negsuc 0) [])
        ∷ [])
evaluate_corpus-write_cases_example =
    evaluate_corpus-write_cases cbor dalek key_octets (vector ∷ early ∷ []) key_fits key_reads
      (vector-Valid, (early-Valid, tt))

evaluate_iff_example :
    ((v : Verified)
      → (evaluate cbor dalek key_octets token source (pos 1786293000) policy_text ≡ passed v)
        ↔ Passes cbor dalek key_octets token source (pos 1786293000) policy_text v)
    × ((r : Reason)
        → ((evaluate cbor dalek key_octets token source (pos 1786293000) policy_text).reason
            ≡ as_str r)
          ↔ Refuses cbor dalek key_octets token source (pos 1786293000) policy_text r)
evaluate_iff_example = evaluate_iff cbor dalek key_octets token source (pos 1786293000) policy_text

split-evaluate_line_example :
    (name : Bytes) × (v : Verdict) × (evaluate_line cbor dalek key_octets (codes "odd\tabc\t::1")
      ≡ report_line name v)
    × (split b'\t' (evaluate_line cbor dalek key_octets (codes "odd\tabc\t::1"))
        ≡ report_fields name v)
split-evaluate_line_example = split-evaluate_line cbor dalek key_octets (codes "odd\tabc\t::1")

test_bad_token :
    evaluate_line cbor dalek key_octets (codes "odd\tabc\t::1")
    ≡ codes "odd\tpermerror\tmalformed\t\t\t"
unfolding evaluate_line splitn split_once hex_decode hex_val
test_bad_token = refl
