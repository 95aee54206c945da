-- ===== src/Record/Grammar.antt =====
-- The syntax of a record, without the loop that reads it.
use mathlib.Core.Path.{subst}
use mathlib.Core.List.{append_assoc, append-nil}
use swornmail.Prelude.{
  ℕ, ◌≡◌, ◌≢◌, refl, sym, ap, ◌∙◌, ◌↔◌, ◌⊎◌, false, not, ◌||◌, some, List, [], ◌∷◌, ◌++◌, arith,
  any, All, Bool-cases, inl, inr, if◌then◌else◌, ◌≤◌,
}
use swornmail.Prelude.Keys.{DistinctKeys-concat, DistinctKeys-NewKey}
use swornmail.Prelude.Results.{Result, ok, err, ◌>>=◌, >>=-eq-ok, ensure-eq-ok, ok_or-eq-ok}
use swornmail.Text.{Bytes, codes, bytes_eq, is_empty, split, split_once, trim}
use swornmail.Record.{
  RecordError, malformed_tag, duplicate_tag, Tag, is_record_byte, is_blank, has_name, add_tag,
  add_segment, read_segments, check_version, parse_tags,
}
use swornmail.Record.Tags.{
  DistinctNames, IsTag, NewName, has_name-NewName, NewName-has_name, no_blank, not_empty,
  check_version-eq-ok,
}
use swornmail.Record.Print.{filled_name}

-- The trimmed segments between semicolons that are not empty.
abbrev pub filled : List Bytes → List Bytes
filled [] = []
filled (raw ∷ raws) = if is_empty (trim raw) then filled raws else trim raw ∷ filled raws

abbrev pub segments : Bytes → List Bytes
segments txt = filled (split b';' txt)

-- A segment is a name and a value around its first equals sign, trimmed.
pub record IsTagOf (segment : Bytes) (t : Tag) : Type 0 where
  pub raw_name : Bytes
  pub raw_value : Bytes
  pub cut : split_once b'=' segment ≡ some (raw_name, raw_value)
  pub trimmed : t ≡ (trim raw_name, trim raw_value)
  pub is_tag : IsTag t

abbrev pub Tagged : List Bytes → List Tag → Type 0
Tagged [] [] = Unit
Tagged (s ∷ ss) (t ∷ ts) = IsTagOf s t × Tagged ss ts
Tagged _ _ = ⊥

blank_free : (s : Bytes) → All (λ c. (c ≢ b' ') × (c ≢ b'\t')) s → any is_blank s ≡ false
blank_free [] h = refl
blank_free (c ∷ s) h = ground (arith, blank_free s h.1)

-- A tag passes the test on its parts.
pub IsTagOf-clean :
    {segment : Bytes} {t : Tag} (is : IsTagOf segment t)
    → (is_empty (trim is.raw_name) || any is_blank (trim is.raw_value)) ≡ false
IsTagOf-clean is =
    let tag = subst IsTag is.trimmed is.is_tag in
    rw (filled_name (trim is.raw_name) tag.0) (blank_free (trim is.raw_value) tag.1)

pub add_tag_iff :
    (tags : List Tag) (segment : Bytes) (more : List Tag)
    → (add_tag tags segment ≡ ok more)
      ↔ ((t : Tag) × IsTagOf segment t × NewName t.0 tags × (more ≡ tags ++ t ∷ []))
unfolding add_tag
add_tag_iff tags segment more = (
  λ h.
      let ((raw_name, raw_value), cut, h₁) =
        ok_or-eq-ok (split_once b'=' segment) malformed_tag _ h in
      let name = trim raw_name in
      let value = trim raw_value in
      let (clean, h₂) =
        ensure-eq-ok (not (is_empty name || any is_blank value)) malformed_tag _ h₁ in
      let (new, h₃) =
        ensure-eq-ok (not (any (has_name name) tags)) duplicate_tag
          (ok (tags ++ (name, value) ∷ [])) h₂ in
      (
        (name, value),
        record {
          raw_name = raw_name;
          raw_value = raw_value;
          cut = cut;
          trimmed = refl;
          is_tag = (not_empty name (ground (arith, clean)), no_blank value (ground (arith, clean)));
        },
        has_name-NewName name tags (ground (arith, new)),
        cc h₃,
      ),
  λ (t, is, new, e).
      let same : tags ++ t ∷ [] ≡ tags ++ (trim is.raw_name, trim is.raw_value) ∷ [] =
        ap (λ x. tags ++ x ∷ []) is.trimmed in
      let fresh =
        NewName-has_name (trim is.raw_name) tags (subst (λ x. NewName x.0 tags) is.trimmed new) in
      rw is.cut (rw (IsTagOf-clean is) (rw fresh (ap ok (sym same ∙ sym e)))),
)

-- The loop on segments that are trimmed and not empty.
abbrev pub read_all : List Bytes → List Tag → Result RecordError (List Tag)
read_all [] tags = ok tags
read_all (s ∷ ss) tags = add_tag tags s >>= read_all ss

>>=-ext :
    (m : Result RecordError (List Tag)) (f g : List Tag → Result RecordError (List Tag))
    → ((tags : List Tag) → f tags ≡ g tags)
    → (m >>= f) ≡ (m >>= g)
>>=-ext (ok tags) f g h = h tags
>>=-ext (err e) f g h = refl

pub read_segments-read_all :
    (raws : List Bytes) (tags : List Tag) → read_segments raws tags ≡ read_all (filled raws) tags
unfolding read_segments add_segment
read_segments-read_all [] tags = refl
read_segments-read_all (raw ∷ raws) tags = elim (Bool-cases (is_empty (trim raw))) [
  | inl e ↦ rw e (read_segments-read_all raws tags)
  | inr e ↦ rw e (
      >>=-ext (add_tag tags (trim raw)) (read_segments raws) (read_all (filled raws))
        (read_segments-read_all raws))
]

pub read_all_sound :
    (ss : List Bytes) (tags all_tags : List Tag)
    → DistinctNames tags
    → read_all ss tags ≡ ok all_tags
    → (ts : List Tag) × Tagged ss ts × (all_tags ≡ tags ++ ts) × DistinctNames all_tags
read_all_sound [] tags all_tags d h =
    let same : tags ≡ all_tags = cc h in
    ([], tt, sym same ∙ sym (append-nil tags), subst DistinctNames same d)
read_all_sound (s ∷ ss) tags all_tags d h =
    let (more, added, h₁) = >>=-eq-ok (add_tag tags s) (read_all ss) h in
    let (t, is, new, e) = (add_tag_iff tags s more).0 added in
    let (ts, tagged, whole, d') =
      read_all_sound ss more all_tags
        (subst DistinctNames (sym e) (DistinctKeys-concat tags t.0 t.1 d new)) h₁ in
    (t ∷ ts, (is, tagged), whole ∙ ap (λ x. x ++ ts) e ∙ append_assoc tags (t ∷ []) ts, d')

pub read_all_complete :
    (ss : List Bytes) (tags ts : List Tag)
    → Tagged ss ts
    → DistinctNames (tags ++ ts)
    → read_all ss tags ≡ ok (tags ++ ts)
read_all_complete [] tags [] h d = ap ok (sym (append-nil tags))
read_all_complete [] tags (t ∷ ts) h d = absurd h
read_all_complete (s ∷ ss) tags [] h d = absurd h
read_all_complete (s ∷ ss) tags (t ∷ ts) (is, tagged) d =
    let new = DistinctKeys-NewKey tags t.0 t.1 ts d in
    let regroup = append_assoc tags (t ∷ []) ts in
    rw ((add_tag_iff tags s (tags ++ t ∷ [])).1 (t, is, new, refl)) (
      read_all_complete ss (tags ++ t ∷ []) ts tagged (subst DistinctNames (sym regroup) d)
      ∙ ap ok regroup)

-- Printable ASCII, or a horizontal tab.
abbrev pub IsRecordByte : ℕ → Type 0
IsRecordByte c = (c ≡ b'\t') ⊎ ((0x20 ≤ c) × (c ≤ 0x7e))

pub gate_iff :
    (txt : Bytes) → (any (λ c. not (is_record_byte c)) txt ≡ false) ↔ All IsRecordByte txt
gate_iff [] = (λ h. tt, λ h. refl)
gate_iff (c ∷ txt) =
    let rest = gate_iff txt in
    (λ h. (ground arith, rest.0 (ground arith)), λ (a, b). ground (arith, rest.1 b))

-- A record over some set of octets: its segments, and its tags, the first of which is the version.
pub record GrammarOver (IsOctet : ℕ → Type 0) (txt : Bytes) (tags : List Tag) : Type 0 where
  pub octets : All IsOctet txt
  pub tagged : Tagged (segments txt) tags
  pub distinct : DistinctNames tags
  pub others : List Tag
  pub version_first : tags ≡ (codes "v", codes "SWORN1") ∷ others

abbrev pub Grammar : Bytes → List Tag → Type 0
Grammar = GrammarOver IsRecordByte

check_version-first :
    (others : List Tag)
    → check_version ((codes "v", codes "SWORN1") ∷ others)
      ≡ ok ((codes "v", codes "SWORN1") ∷ others)
unfolding check_version bytes_eq
check_version-first others = refl

-- A text parses to tags exactly when its octets are printable ASCII or tabs, its segments between
-- semicolons that are not blank are, one for one, the names and values around a first equals sign,
-- trimmed, with a name that is not empty and no space or tab in the value, the names are distinct,
-- and the first tag is `v=SWORN1`.
pub parse_tags_iff : (txt : Bytes) (tags : List Tag) → (parse_tags txt ≡ ok tags) ↔ Grammar txt tags
unfolding parse_tags
parse_tags_iff txt tags = (
  λ h.
      let (gate, h₁) =
        ensure-eq-ok (not (any (λ c. not (is_record_byte c)) txt)) malformed_tag _ h in
      let (read, segs, h₂) = >>=-eq-ok (read_segments (split b';' txt) []) check_version h₁ in
      let (same, (others, first)) = check_version-eq-ok read h₂ in
      let (ts, tagged, e, d) =
        read_all_sound (segments txt) [] read tt
          (sym (read_segments-read_all (split b';' txt) []) ∙ segs) in
      record {
        octets = (gate_iff txt).0 (ground (arith, gate));
        tagged = subst (Tagged (segments txt)) (sym e ∙ same) tagged;
        distinct = subst DistinctNames same d;
        others = others;
        version_first = sym same ∙ first;
      },
  λ g. rw ((gate_iff txt).1 g.octets) (
      rw
        (read_segments-read_all (split b';' txt) []
          ∙ read_all_complete (segments txt) [] tags g.tagged g.distinct)
        (ap check_version g.version_first
          ∙ check_version-first g.others
          ∙ ap ok (sym g.version_first))),
)
