-- ===== src/Record/Printable.antt =====
-- The syntax of a record without a horizontal tab: its octets are the printable ones.
use swornmail.Prelude.{ℕ, ◌≡◌, ◌≢◌, ◌≤◌, ◌↔◌, List, [], ◌∷◌, All, inl, inr}
use swornmail.Prelude.Results.{ok, err}
use swornmail.Text.{Bytes}
use swornmail.Record.{RecordError, Tag, parse_tags}
use swornmail.Record.Grammar.{IsRecordByte, GrammarOver, parse_tags_iff}
use swornmail.Record.Refusals.{RefusedOver, by_octet, by_segment, by_version, parse_tags-err_iff}

abbrev pub IsPrintable : ℕ → Type 0
IsPrintable c = (0x20 ≤ c) × (c ≤ 0x7e)

abbrev pub NoTab : Bytes → Type 0
NoTab = All (λ c. c ≢ b'\t')

printable : (txt : Bytes) → NoTab txt → All IsRecordByte txt → All IsPrintable txt
printable [] n a = tt
printable (c ∷ txt) n (inl e, a) = absurd (n.0 e)
printable (c ∷ txt) n (inr r, a) = (r, printable txt n.1 a)

allowed : (txt : Bytes) → All IsPrintable txt → All IsRecordByte txt
allowed [] a = tt
allowed (c ∷ txt) a = (inr a.0, allowed txt a.1)

GrammarOver-map :
    (P Q : ℕ → Type 0) (txt : Bytes) (tags : List Tag)
    → (All P txt → All Q txt)
    → GrammarOver P txt tags
    → GrammarOver Q txt tags
GrammarOver-map P Q txt tags f g = record {
  octets = f g.octets;
  tagged = g.tagged;
  distinct = g.distinct;
  others = g.others;
  version_first = g.version_first;
}

RefusedOver-map :
    (P Q : ℕ → Type 0) (txt : Bytes) (e : RecordError)
    → (All P txt → All Q txt)
    → (All Q txt → All P txt)
    → RefusedOver P txt e
    → RefusedOver Q txt e
RefusedOver-map P Q txt _ f g (by_octet n) = by_octet (λ a. n (g a))
RefusedOver-map P Q txt _ f g (by_segment e a bad) = by_segment e (f a) bad
RefusedOver-map P Q txt _ f g (by_version tags a tagged d n) = by_version tags (f a) tagged d n

module _ (txt : Bytes) (n : NoTab txt) where
  -- A text without a horizontal tab parses to tags exactly when its octets are printable ASCII, its
  -- segments between semicolons that are not blank are, one for one, the names and values around a
  -- first equals sign, trimmed, with a name that is not empty and no space in the value, the names
  -- are distinct, and the first tag is `v=SWORN1`.
  pub parse_tags-IsPrintable_iff :
      (tags : List Tag) → (parse_tags txt ≡ ok tags) ↔ GrammarOver IsPrintable txt tags
  parse_tags-IsPrintable_iff tags = (
    λ h.
        GrammarOver-map IsRecordByte IsPrintable txt tags (printable txt n)
          ((parse_tags_iff txt tags).0 h),
    λ g.
        (parse_tags_iff txt tags).1
          (GrammarOver-map IsPrintable IsRecordByte txt tags (allowed txt) g),
  )

  -- For a text without a horizontal tab, `parse_tags` gives an error exactly when the first fault
  -- gives it: `malformed_tag` for an octet that is not printable ASCII, then, for the first segment
  -- that is no further tag, `malformed_tag` without an equals sign, without a name or with a space
  -- in the value and `duplicate_tag` for the name of an earlier tag, then `not_sworn` when the
  -- first tag is not `v=SWORN1` or there is none.
  pub parse_tags-err-IsPrintable_iff :
      (e : RecordError) → (parse_tags txt ≡ err e) ↔ RefusedOver IsPrintable txt e
  parse_tags-err-IsPrintable_iff e = (
    λ h.
        RefusedOver-map IsRecordByte IsPrintable txt e (printable txt n) (allowed txt)
          ((parse_tags-err_iff txt e).0 h),
    λ r.
        (parse_tags-err_iff txt e).1
          (RefusedOver-map IsPrintable IsRecordByte txt e (allowed txt) (printable txt n) r),
  )
