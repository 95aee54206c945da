-- ===== src/Record/Segments.antt =====
-- The first segment of a record that is no tag, and the error that it gives.
use mathlib.Core.Path.{subst}
use mathlib.Core.List.{append_assoc, append-nil}
use swornmail.Prelude.{
  ◌≡◌, refl, sym, ap, ◌∙◌, ◌↔◌, ◌⊎◌, true, none, some, List, [], ◌∷◌, ◌++◌, arith, any, Any,
  Bool-cases, Option-cases, inl, inr,
}
use swornmail.Prelude.Keys.{DistinctKeys-concat}
use swornmail.Prelude.Results.{Result, ok, err, ◌>>=◌, >>=-eq-err}
use swornmail.Text.{Bytes, bytes_eq, bytes_eq_iff, is_empty, split_once, trim}
use swornmail.Record.{RecordError, malformed_tag, duplicate_tag, Tag, is_blank, has_name, add_tag}
use swornmail.Record.Tags.{DistinctNames, no_blank, not_empty}
use swornmail.Record.Grammar.{
  IsTagOf, Tagged, add_tag_iff, IsTagOf-clean, read_all, read_all_complete,
}

-- Why a segment is no further tag: it has no equals sign, or no name, or a space or a tab inside its
-- value, or the name of a tag in front of it.
pub data BadSegment (tags : List Tag) (segment : Bytes) : RecordError → Type 0 where
  no_equals : split_once b'=' segment ≡ none → BadSegment tags segment malformed_tag
  no_tag :
      (raw_name raw_value : Bytes)
      → split_once b'=' segment ≡ some (raw_name, raw_value)
      → (trim raw_name ≡ []) ⊎ Any (λ c. (c ≡ b' ') ⊎ (c ≡ b'\t')) (trim raw_value)
      → BadSegment tags segment malformed_tag
  repeated :
      (t : Tag)
      → IsTagOf segment t
      → Any (λ (n, v). n ≡ t.0) tags
      → BadSegment tags segment duplicate_tag

any-blank_iff : (s : Bytes) → (any is_blank s ≡ true) ↔ Any (λ c. (c ≡ b' ') ⊎ (c ≡ b'\t')) s
any-blank_iff [] = (λ h. cc, λ h. absurd h)
any-blank_iff (c ∷ s) =
    let rest = any-blank_iff s in
    (
      λ h. elim (Bool-cases (is_blank c)) [
        | inl e ↦ inl (ground arith)
        | inr n ↦ inr (rest.0 (ground (arith, n)))
      ],
      λ h. elim h [ inl e ↦ ground arith | inr a ↦ ground (arith, rest.1 a) ],
    )

any-has_name_iff :
    (name : Bytes) (tags : List Tag)
    → (any (has_name name) tags ≡ true) ↔ Any (λ (n, v). n ≡ name) tags
any-has_name_iff name [] = (λ h. cc, λ h. absurd h)
any-has_name_iff name ((n, v) ∷ tags) =
    let rest = any-has_name_iff name tags in
    let here = bytes_eq_iff n name in
    (
      λ h. elim (Bool-cases (bytes_eq n name)) [
        | inl e ↦ inl (here.0 e)
        | inr e ↦ inr (rest.0 (ground (arith, e)))
      ],
      λ h. elim h [ inl e ↦ ground (arith, here.1 e) | inr a ↦ ground (arith, rest.1 a) ],
    )

nil-is_empty : (s : Bytes) → is_empty s ≡ true → s ≡ []
nil-is_empty [] h = refl
nil-is_empty (c ∷ s) h = cc

add_tag-BadSegment :
    (tags : List Tag) (segment : Bytes) (e : RecordError)
    → add_tag tags segment ≡ err e
    → BadSegment tags segment e
unfolding add_tag
add_tag-BadSegment tags segment e h = elim (Option-cases (split_once b'=' segment)) [
  | inl none_found ↦
      subst (BadSegment tags segment) (ground (arith, none_found)) (no_equals none_found)
  | inr ((raw_name, raw_value), cut) ↦ elim (Bool-cases (is_empty (trim raw_name))) [
    | inl empty ↦
        subst (BadSegment tags segment) (ground (arith, cut, empty))
          (no_tag raw_name raw_value cut (inl (nil-is_empty (trim raw_name) empty)))
    | inr named ↦ elim (Bool-cases (any is_blank (trim raw_value))) [
      | inl blank ↦
          subst (BadSegment tags segment) (ground (arith, cut, named, blank))
            (no_tag raw_name raw_value cut (inr ((any-blank_iff (trim raw_value)).0 blank)))
      | inr clean ↦ elim (Bool-cases (any (has_name (trim raw_name)) tags)) [
        | inl old ↦ subst (BadSegment tags segment) (ground (arith, cut, named, clean, old)) (
            repeated (trim raw_name, trim raw_value)
              (record {
                raw_name = raw_name;
                raw_value = raw_value;
                cut = cut;
                trimmed = refl;
                is_tag = (not_empty (trim raw_name) named, no_blank (trim raw_value) clean);
              })
              ((any-has_name_iff (trim raw_name) tags).0 old))
        | inr new ↦ absurd (ground (arith, cut, named, clean, new))
      ]
    ]
  ]
]

BadSegment-add_tag :
    (tags : List Tag) (segment : Bytes) {e : RecordError}
    → BadSegment tags segment e
    → add_tag tags segment ≡ err e
unfolding add_tag
BadSegment-add_tag tags segment (no_equals cut) = rw cut refl
BadSegment-add_tag tags segment (no_tag raw_name raw_value cut (inl empty)) = rw cut (rw empty refl)
BadSegment-add_tag tags segment (no_tag raw_name raw_value cut (inr blank)) =
    let dirty = (any-blank_iff (trim raw_value)).1 blank in
    rw cut (elim (Bool-cases (is_empty (trim raw_name))) [
      | inl e ↦ rw e refl
      | inr e ↦ rw e (rw dirty refl)
    ])
BadSegment-add_tag tags segment (repeated t is old) =
    let seen =
      (any-has_name_iff (trim is.raw_name) tags).1
        (subst (λ x. Any (λ (n, v). n ≡ x) tags) (ap (λ (n, v). n) is.trimmed) old) in
    rw is.cut (rw (IsTagOf-clean is) (rw seen refl))

-- The first segment that is no further tag, behind segments that are tags.
pub record FirstBad (tags : List Tag) (ss : List Bytes) (e : RecordError) : Type 0 where
  pub before : List Bytes
  pub segment : Bytes
  pub after : List Bytes
  pub done : List Tag
  pub cut_there : ss ≡ before ++ segment ∷ after
  pub tagged : Tagged before done
  pub distinct : DistinctNames (tags ++ done)
  pub bad : BadSegment (tags ++ done) segment e

FirstBad-cons :
    (tags : List Tag) (s : Bytes) (ss : List Bytes) (t : Tag) (e : RecordError)
    → IsTagOf s t
    → FirstBad (tags ++ t ∷ []) ss e
    → FirstBad tags (s ∷ ss) e
FirstBad-cons tags s ss t e is f = record {
  before = s ∷ f.before;
  segment = f.segment;
  after = f.after;
  done = t ∷ f.done;
  cut_there = ap (λ x. s ∷ x) f.cut_there;
  tagged = (is, f.tagged);
  distinct = subst DistinctNames (append_assoc tags (t ∷ []) f.done) f.distinct;
  bad = subst (λ x. BadSegment x f.segment e) (append_assoc tags (t ∷ []) f.done) f.bad;
}

pub read_all-FirstBad :
    (ss : List Bytes) (tags : List Tag) (e : RecordError)
    → DistinctNames tags
    → read_all ss tags ≡ err e
    → FirstBad tags ss e
read_all-FirstBad [] tags e d h = cc
read_all-FirstBad (s ∷ ss) tags e d h = elim (>>=-eq-err (add_tag tags s) (read_all ss) h) [
  | inl bad ↦ record {
    before = [];
    segment = s;
    after = ss;
    done = [];
    cut_there = refl;
    tagged = tt;
    distinct = subst DistinctNames (sym (append-nil tags)) d;
    bad = subst (λ x. BadSegment x s e) (sym (append-nil tags)) (add_tag-BadSegment tags s e bad);
  }
  | inr (more, added, later) ↦
      let (t, is, new, same) = (add_tag_iff tags s more).0 added in
      FirstBad-cons tags s ss t e is (
        read_all-FirstBad ss (tags ++ t ∷ []) e (DistinctKeys-concat tags t.0 t.1 d new)
          (ap (read_all ss) (sym same) ∙ later))
]

read_all-append :
    (before after : List Bytes) (tags : List Tag)
    → read_all (before ++ after) tags ≡ (read_all before tags >>= read_all after)
read_all-append [] after tags = refl
read_all-append (s ∷ before) after tags = again (add_tag tags s) (read_all-append before after)
  where
    again :
        (m : Result RecordError (List Tag))
        → ((more : List Tag)
            → read_all (before ++ after) more ≡ (read_all before more >>= read_all after))
        → (m >>= read_all (before ++ after)) ≡ ((m >>= read_all before) >>= read_all after)
    again (ok more) ih = ih more
    again (err e) ih = refl

pub FirstBad-read_all :
    (ss : List Bytes) (tags : List Tag) (e : RecordError)
    → FirstBad tags ss e
    → read_all ss tags ≡ err e
FirstBad-read_all ss tags e f =
    ap (λ x. read_all x tags) f.cut_there
    ∙ read_all-append f.before (f.segment ∷ f.after) tags
    ∙ rw (read_all_complete f.before tags f.done f.tagged f.distinct)
        (rw (BadSegment-add_tag (tags ++ f.done) f.segment f.bad) refl)
