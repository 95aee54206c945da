-- ===== src/Record/Refusals.antt =====
-- Which error a record gives whose tags are refused.
use mathlib.Core.Path.{subst}
use swornmail.Prelude.{
  ℕ, ◌≡◌, refl, sym, ◌∙◌, ◌↔◌, true, not, List, [], ◌∷◌, arith, any, All, Bool-cases, inl, inr,
  ◌&&◌,
}
use swornmail.Prelude.Results.{err, ◌>>=◌, >>=-eq-err, ensure-eq-err}
use swornmail.Text.{Bytes, codes, bytes_eq, bytes_eq_iff, split}
use swornmail.Record.{
  RecordError, malformed_tag, not_sworn, Tag, is_record_byte, read_segments, check_version,
  parse_tags, version,
}
use swornmail.Record.Tags.{DistinctNames}
use swornmail.Record.Grammar.{
  segments, Tagged, read_all, read_segments-read_all, read_all_sound, read_all_complete,
  IsRecordByte, gate_iff,
}
use swornmail.Record.Segments.{FirstBad, read_all-FirstBad, FirstBad-read_all}

abbrev pub VersionFirst : List Tag → Type 0
VersionFirst tags = (others : List Tag) × (tags ≡ (codes "v", codes "SWORN1") ∷ others)

-- Why a text has no tags over some set of octets.
pub data RefusedOver (IsOctet : ℕ → Type 0) (txt : Bytes) : RecordError → Type 0 where
  by_octet : ¬ All IsOctet txt → RefusedOver IsOctet txt malformed_tag
  by_segment :
      (e : RecordError) → All IsOctet txt → FirstBad [] (segments txt) e → RefusedOver IsOctet txt e
  by_version :
      (tags : List Tag)
      → All IsOctet txt
      → Tagged (segments txt) tags
      → DistinctNames tags
      → ¬ VersionFirst tags
      → RefusedOver IsOctet txt not_sworn

abbrev pub TagsRefused : Bytes → RecordError → Type 0
TagsRefused = RefusedOver IsRecordByte

check_version-eq-err :
    (tags : List Tag) (e : RecordError)
    → check_version tags ≡ err e
    → (e ≡ not_sworn) × ¬ VersionFirst tags
unfolding check_version
check_version-eq-err [] e h = (ground arith, λ (others, k). cc k)
check_version-eq-err ((name, value) ∷ tags) e h =
    let n = bytes_eq_iff name (codes "v") in
    let v = bytes_eq_iff value version in
    (
      ground arith,
      λ (others, k).
          let is_name : name ≡ codes "v" = cc k in
          let is_value : value ≡ version = cc k in ground (arith, n.1 is_name, v.1 is_value),
    )

VersionFirst-check : (tags : List Tag) → ¬ VersionFirst tags → check_version tags ≡ err not_sworn
unfolding check_version
VersionFirst-check [] h = refl
VersionFirst-check ((name, value) ∷ tags) h =
    elim (Bool-cases (bytes_eq name (codes "v") && bytes_eq value version)) [
      | inl e ↦
          let n = bytes_eq_iff name (codes "v") in
          let v = bytes_eq_iff value version in absurd (h (tags, ground (arith, n, v, e)))
      | inr e ↦ rw e refl
    ]

module _ (txt : Bytes) where
  loop : read_segments (split b';' txt) [] ≡ read_all (segments txt) []
  loop = read_segments-read_all (split b';' txt) []

  parse_tags-TagsRefused : (e : RecordError) → parse_tags txt ≡ err e → TagsRefused txt e
  unfolding parse_tags
  parse_tags-TagsRefused e h =
      elim (ensure-eq-err (not (any (λ c. not (is_record_byte c)) txt)) malformed_tag
        (read_segments (split b';' txt) [] >>= check_version) h) [
          | inl (dirty, same) ↦
              subst (TagsRefused txt) (sym same)
                (by_octet (λ a. ground (arith, (gate_iff txt).1 a)))
          | inr (clean, h₁) ↦
              let octets = (gate_iff txt).0 (ground (arith, clean)) in
              elim (>>=-eq-err (read_segments (split b';' txt) []) check_version h₁) [
                | inl bad ↦
                    by_segment e octets (read_all-FirstBad (segments txt) [] e tt (sym loop ∙ bad))
                | inr (tags, read, old) ↦
                    let (ts, tagged, same, d) =
                      read_all_sound (segments txt) [] tags tt (sym loop ∙ read) in
                    let (is, not_first) = check_version-eq-err tags e old in
                    subst (TagsRefused txt) (sym is) (
                      by_version tags octets (subst (Tagged (segments txt)) (sym same) tagged) d
                        not_first)
              ]
        ]

  gate_false : ¬ All IsRecordByte txt → any (λ c. not (is_record_byte c)) txt ≡ true
  gate_false h = elim (Bool-cases (any (λ c. not (is_record_byte c)) txt)) [
    | inl e ↦ e
    | inr e ↦ absurd (h ((gate_iff txt).0 e))
  ]

  TagsRefused-parse_tags : {e : RecordError} → TagsRefused txt e → parse_tags txt ≡ err e
  unfolding parse_tags
  TagsRefused-parse_tags (by_octet h) = rw (gate_false h) refl
  TagsRefused-parse_tags (by_segment e octets f) =
      rw ((gate_iff txt).1 octets) (rw (loop ∙ FirstBad-read_all (segments txt) [] e f) refl)
  TagsRefused-parse_tags (by_version tags octets tagged d h) =
      rw ((gate_iff txt).1 octets)
        (rw (loop ∙ read_all_complete (segments txt) [] tags tagged d) (VersionFirst-check tags h))

  -- `parse_tags` gives an error exactly when the first fault gives it: `malformed_tag` for an octet
  -- that is neither printable ASCII nor a tab, then, for the first segment that is no further tag,
  -- `malformed_tag` without an equals sign, without a name or with a space or a tab in the value
  -- and `duplicate_tag` for the name of an earlier tag, then `not_sworn` when the first tag is not
  -- `v=SWORN1` or there is none.
  pub parse_tags-err_iff : (e : RecordError) → (parse_tags txt ≡ err e) ↔ TagsRefused txt e
  parse_tags-err_iff e = (parse_tags-TagsRefused e, TagsRefused-parse_tags)
