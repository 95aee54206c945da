-- ===== src/Record/Print.antt =====
-- Records as operators write them, and their round trip through `parse_tags`.
use mathlib.Core.List.{reverse, reverse-append, reverse-reverse, append-nil, append_assoc}
use mathlib.Core.Path.{subst}
use swornmail.Prelude.{
  ℕ, ◌≤◌, ◌≡◌, ◌≢◌, refl, sym, ap, ◌∙◌, false, not, List, [], ◌∷◌, ◌++◌, arith, any, All,
  All-append, All-map,
}
use swornmail.Prelude.Results.{ok}
use swornmail.Text.{Bytes, codes, bytes_eq, is_empty, trim, trim_start}
use swornmail.Text.Split.{Lacks, join, split-join, split_once-append}
use swornmail.Record.{
  Tag, is_record_byte, is_blank, add_tag, add_segment, read_segments, check_version, parse_tags,
  version,
}
use swornmail.Record.Tags.{DistinctNames, NewName, NewName-has_name}

-- Printable ASCII but the space and the semicolon.
abbrev pub IsVisible : ℕ → Type 0
IsVisible c = (0x21 ≤ c) × (c ≤ 0x7e) × (c ≢ b';')

-- A tag that can be written: a name with no equals sign, and any value, both visible.
abbrev pub IsWritable : Tag → Type 0
IsWritable (name, value) = (name ≢ []) × All IsVisible name × Lacks b'=' name × All IsVisible value

abbrev pub write_tag : Tag → Bytes
write_tag (name, value) = name ++ b'=' ∷ value

abbrev spaced : List Tag → List Bytes
spaced [] = []
spaced (t ∷ ts) = (b' ' ∷ write_tag t) ∷ spaced ts

-- `v=SWORN1; p=…; u=…`
abbrev pub write_tags : Tag → List Tag → Bytes
write_tags first others = join b';' (write_tag first ∷ spaced others)

trim_start-visible : (s : Bytes) → All IsVisible s → trim_start s ≡ s
trim_start-visible [] h = refl
trim_start-visible (c ∷ s) h = ground arith

reverse-All : (s : Bytes) → All IsVisible s → All IsVisible (reverse s)
reverse-All [] h = tt
reverse-All (c ∷ s) h =
    subst (All IsVisible) (sym (reverse-append (c ∷ []) s))
      (All-append IsVisible (reverse s) (c ∷ []) (reverse-All s h.1) (h.0, tt))

trim-visible : (s : Bytes) → All IsVisible s → trim s ≡ s
unfolding trim
trim-visible s h =
    rw (trim_start-visible s h)
      (rw (trim_start-visible (reverse s) (reverse-All s h)) (reverse-reverse s))

trim_space : (s : Bytes) → All IsVisible s → trim (b' ' ∷ s) ≡ s
trim_space s h = unfold trim in (trim-visible s h)

write_tag-IsVisible : (t : Tag) → IsWritable t → All IsVisible (write_tag t)
write_tag-IsVisible (name, value) w =
    All-append IsVisible name (b'=' ∷ value) w.1 (omega arith, w.3)

pub filled_name : (s : Bytes) → s ≢ [] → is_empty s ≡ false
filled_name [] h = absurd (h refl)
filled_name (c ∷ s) h = refl

no_blank : (s : Bytes) → All IsVisible s → any is_blank s ≡ false
no_blank [] h = refl
no_blank (c ∷ s) h = ground (arith, no_blank s h.1)

add_tag-write_tag :
    (tags : List Tag) (t : Tag)
    → IsWritable t
    → NewName t.0 tags
    → add_tag tags (write_tag t) ≡ ok (tags ++ t ∷ [])
unfolding add_tag
add_tag-write_tag tags (name, value) w new = rw (split_once-append b'=' name value w.2) (
    rw (trim-visible name w.1, trim-visible value w.3)
      (rw (filled_name name w.0, no_blank value w.3, NewName-has_name name tags new) refl))

-- The written form of a tag, with a space in front or not, is one segment.
add_segment-write_tag :
    (tags : List Tag) (t : Tag) (raw : Bytes)
    → IsWritable t
    → NewName t.0 tags
    → trim raw ≡ write_tag t
    → add_segment tags raw ≡ ok (tags ++ t ∷ [])
unfolding add_segment
add_segment-write_tag tags t raw w new e =
    rw e (rw (filled_name (write_tag t) (write_tag-ne-nil t)) (add_tag-write_tag tags t w new))
  where
    write_tag-ne-nil : (t : Tag) → write_tag t ≢ []
    write_tag-ne-nil ([], value) = λ e. cc
    write_tag-ne-nil (c ∷ name, value) = λ e. cc

-- The tags to come have names of their own.
abbrev Apart : List Tag → List Tag → Type 0
Apart tags [] = Unit
Apart tags (t ∷ ts) = NewName t.0 tags × Apart tags ts

Apart-concat :
    (tags ts : List Tag) (t : Tag)
    → Apart tags ts
    → All (λ (n, v). n ≢ t.0) ts
    → Apart (tags ++ t ∷ []) ts
Apart-concat tags [] t a h = tt
Apart-concat tags (s ∷ ts) t a h = (
  All-append (λ (n, v). n ≢ s.0) tags (t ∷ []) a.0 ((λ e. h.0 (sym e)), tt),
  Apart-concat tags ts t a.1 h.1,
)

read_segments-spaced :
    (ts tags : List Tag)
    → All IsWritable ts
    → DistinctNames ts
    → Apart tags ts
    → read_segments (spaced ts) tags ≡ ok (tags ++ ts)
unfolding read_segments
read_segments-spaced [] tags w d a = ap ok (sym (append-nil tags))
read_segments-spaced (t ∷ ts) tags w d a =
    rw
      (add_segment-write_tag tags t (b' ' ∷ write_tag t) w.0 a.0
        (trim_space (write_tag t) (write_tag-IsVisible t w.0)))
      (read_segments-spaced ts (tags ++ t ∷ []) w.1 d.1 (Apart-concat tags ts t a.1 d.0)
        ∙ ap ok (append_assoc tags (t ∷ []) ts))

Apart-nil : (ts : List Tag) → Apart [] ts
Apart-nil [] = tt
Apart-nil (t ∷ ts) = (tt, Apart-nil ts)

read_segments-write_tags :
    (t : Tag) (ts : List Tag)
    → All IsWritable (t ∷ ts)
    → DistinctNames (t ∷ ts)
    → read_segments (write_tag t ∷ spaced ts) [] ≡ ok (t ∷ ts)
unfolding read_segments
read_segments-write_tags t ts w d =
    rw
      (add_segment-write_tag [] t (write_tag t) w.0 tt
        (trim-visible (write_tag t) (write_tag-IsVisible t w.0)))
      (read_segments-spaced ts (t ∷ []) w.1 d.1 (Apart-concat [] ts t (Apart-nil ts) d.0))

visible-Lacks : (s : Bytes) → All IsVisible s → Lacks b';' s
visible-Lacks s = All-map s (λ c h. h.2)

spaced-Lacks : (ts : List Tag) → All IsWritable ts → All (Lacks b';') (spaced ts)
spaced-Lacks [] w = tt
spaced-Lacks (t ∷ ts) w = (
  ((λ e. absurd (omega arith)), visible-Lacks (write_tag t) (write_tag-IsVisible t w.0)),
  spaced-Lacks ts w.1,
)

abbrev IsRecordText : Bytes → Type 0
IsRecordText = All (λ c. (0x20 ≤ c) × (c ≤ 0x7e))

join-IsRecordText :
    (w : Bytes) (ws : List Bytes) → All IsRecordText (w ∷ ws) → IsRecordText (join b';' (w ∷ ws))
join-IsRecordText w [] h = h.0
join-IsRecordText w (v ∷ ws) h =
    All-append _ w (b';' ∷ join b';' (v ∷ ws)) h.0 (omega arith, join-IsRecordText v ws h.1)

visible-IsRecordText : (s : Bytes) → All IsVisible s → IsRecordText s
visible-IsRecordText s = All-map s (λ c h. omega arith)

spaced-IsRecordText : (ts : List Tag) → All IsWritable ts → All IsRecordText (spaced ts)
spaced-IsRecordText [] w = tt
spaced-IsRecordText (t ∷ ts) w = (
  (omega arith, visible-IsRecordText (write_tag t) (write_tag-IsVisible t w.0)),
  spaced-IsRecordText ts w.1,
)

gate : (s : Bytes) → IsRecordText s → any (λ c. not (is_record_byte c)) s ≡ false
gate [] h = refl
gate (c ∷ s) h = ground (arith, gate s h.1)

-- A record written as `v=SWORN1` and further tags, each behind a semicolon and a space, parses back
-- to these tags, if the names are distinct, not empty and without an equals sign, and all octets
-- are visible ASCII other than the semicolon.
pub parse_tags-write_tags :
    (ts : List Tag)
    → All IsWritable ts
    → DistinctNames ((codes "v", version) ∷ ts)
    → parse_tags (write_tags (codes "v", version) ts) ≡ ok ((codes "v", version) ∷ ts)
unfolding parse_tags check_version bytes_eq
parse_tags-write_tags ts w d =
    let first : Tag = (codes "v", version) in
    let writable : IsWritable first = ((λ e. cc), omega arith, omega arith, omega arith) in
    let visible = write_tag-IsVisible first writable in
    let text = gate (write_tags first ts) (
      join-IsRecordText (write_tag first) (spaced ts)
        (visible-IsRecordText (write_tag first) visible, spaced-IsRecordText ts w)) in
    let cut =
      split-join b';' (write_tag first) (spaced ts)
        (visible-Lacks (write_tag first) visible, spaced-Lacks ts w) in
    rw text (rw cut (rw (read_segments-write_tags first ts (writable, w) d) refl))
