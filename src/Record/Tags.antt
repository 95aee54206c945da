-- ===== src/Record/Tags.antt =====
-- Tags with distinct names, and the tests of `parse_tags` on them.
use swornmail.Prelude.{◌≡◌, ◌≢◌, refl, false, List, [], ◌∷◌, arith, any, All}
use swornmail.Prelude.Keys.{DistinctKeys, NewKey}
use swornmail.Prelude.Results.{ok}
use swornmail.Text.{Bytes, codes, bytes_eq_iff, is_empty}
use swornmail.Record.{Tag, is_blank, has_name, check_version, version}

abbrev pub DistinctNames : List Tag → Type 0
DistinctNames = DistinctKeys

-- A name is not empty, and a value has no space and no tab.
abbrev pub IsTag : Tag → Type 0
IsTag (name, value) = (name ≢ []) × All (λ c. (c ≢ b' ') × (c ≢ b'\t')) value

abbrev pub NewName : Bytes → List Tag → Type 0
NewName = NewKey

pub has_name-NewName :
    (name : Bytes) (tags : List Tag) → any (has_name name) tags ≡ false → NewName name tags
has_name-NewName name [] h = tt
has_name-NewName name ((n, v) ∷ tags) h =
    (λ e. ground (arith, (bytes_eq_iff n name).1 e), has_name-NewName name tags (ground arith))

pub NewName-has_name :
    (name : Bytes) (tags : List Tag) → NewName name tags → any (has_name name) tags ≡ false
NewName-has_name name [] h = refl
NewName-has_name name ((n, v) ∷ tags) h =
    ground (arith, (bytes_eq_iff n name).0, NewName-has_name name tags h.1)

pub no_blank : (s : Bytes) → any is_blank s ≡ false → All (λ c. (c ≢ b' ') × (c ≢ b'\t')) s
no_blank [] h = tt
no_blank (c ∷ s) h = (ground arith, no_blank s (ground arith))

pub not_empty : (s : Bytes) → is_empty s ≡ false → s ≢ []
not_empty [] h = λ e. cc
not_empty (c ∷ s) h = λ e. cc

pub check_version-eq-ok :
    (tags : List Tag) {result : List Tag}
    → check_version tags ≡ ok result
    → (tags ≡ result) × ((others : List Tag) × (tags ≡ (codes "v", codes "SWORN1") ∷ others))
unfolding check_version
check_version-eq-ok [] h = cc
check_version-eq-ok ((name, value) ∷ tags) h =
    let n = bytes_eq_iff name (codes "v") in
    let v = bytes_eq_iff value version in (ground arith, (tags, ground (arith, n, v)))
