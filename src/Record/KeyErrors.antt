-- ===== src/Record/KeyErrors.antt =====
-- Which error a text gives that is no key record.
use mathlib.Core.Path.{subst}
use swornmail.Prelude.{
  ◌≡◌, ◌≢◌, refl, sym, ap, ◌∙◌, ◌↔◌, false, none, some, List, arith, Bool-cases, inl, inr,
}
use swornmail.Prelude.Results.{
  Result, ok, err, ◌>>=◌, ok_or, >>=-eq-err, ensure-eq-err, ok_or-eq-err,
}
use swornmail.Text.{Bytes, codes, bytes_eq, bytes_eq_iff}
use swornmail.Backend.{Dalek, Base64}
use swornmail.Key
use swornmail.Record.{
  RecordError, missing_tag, bad_value, unknown_algorithm, Tag, get, parse_tags, KeyRecord,
  parse_key,
}
use swornmail.Record.Refusals.{TagsRefused, parse_tags-err_iff}

bytes_eq-ne : (a b : Bytes) → a ≢ b → bytes_eq a b ≡ false
bytes_eq-ne a b h = elim (Bool-cases (bytes_eq a b)) [
  | inl e ↦ absurd (h ((bytes_eq_iff a b).0 e))
  | inr e ↦ e
]

module _ (dalek : Dalek) (base64 : Base64) where
  -- Why a text is no key record: its tags, no algorithm or another one, no key, or a key that is
  -- not the base64 form of one.
  pub data KeyRefused (txt : Bytes) : RecordError → Type 0 where
    by_tags : (e : RecordError) → TagsRefused txt e → KeyRefused txt e
    no_algorithm :
        (tags : List Tag)
        → parse_tags txt ≡ ok tags
        → get tags (codes "k") ≡ none
        → KeyRefused txt (missing_tag (codes "k"))
    other_algorithm :
        (tags : List Tag) (algorithm : Bytes)
        → parse_tags txt ≡ ok tags
        → get tags (codes "k") ≡ some algorithm
        → algorithm ≢ codes "ed25519"
        → KeyRefused txt unknown_algorithm
    no_key :
        (tags : List Tag)
        → parse_tags txt ≡ ok tags
        → get tags (codes "k") ≡ some (codes "ed25519")
        → get tags (codes "pk") ≡ none
        → KeyRefused txt (missing_tag (codes "pk"))
    no_base64 :
        (tags : List Tag) (encoded : Bytes)
        → parse_tags txt ≡ ok tags
        → get tags (codes "k") ≡ some (codes "ed25519")
        → get tags (codes "pk") ≡ some encoded
        → base64 encoded ≡ none
        → KeyRefused txt (bad_value (codes "pk"))
    not_taken :
        (tags : List Tag) (encoded raw : Bytes)
        → parse_tags txt ≡ ok tags
        → get tags (codes "k") ≡ some (codes "ed25519")
        → get tags (codes "pk") ≡ some encoded
        → base64 encoded ≡ some raw
        → Key.from_bytes dalek raw ≡ none
        → KeyRefused txt (bad_value (codes "pk"))

  -- The steps of `parse_key` behind the test on the algorithm.
  abbrev key_of : List Tag → Result RecordError (KeyRecord dalek base64)
  key_of tags = do
    encoded ← ok_or (get tags (codes "pk")) (missing_tag (codes "pk"))
    raw ← ok_or (base64 encoded) (bad_value (codes "pk"))
    public_key ← ok_or (Key.from_bytes dalek raw) (bad_value (codes "pk"))
    ok (record { public_key = public_key })

  module _ (txt : Bytes) where
    KeyRefused-parse_key : {e : RecordError} → KeyRefused txt e → parse_key dalek base64 txt ≡ err e
    unfolding parse_key bytes_eq
    KeyRefused-parse_key (by_tags e r) = rw ((parse_tags-err_iff txt e).1 r) refl
    KeyRefused-parse_key (no_algorithm tags read none_there) = rw read (rw none_there refl)
    KeyRefused-parse_key (other_algorithm tags algorithm read there other) =
        rw read (rw there (rw (bytes_eq-ne algorithm (codes "ed25519") other) refl))
    KeyRefused-parse_key (no_key tags read there none_there) =
        rw read (rw there (rw none_there refl))
    KeyRefused-parse_key (no_base64 tags encoded read there key none_there) =
        rw read (rw there (rw key (rw none_there refl)))
    KeyRefused-parse_key (not_taken tags encoded raw read there key decoded refused) =
        rw read (rw there (rw key (rw decoded (rw refused refl))))

    parse_key-KeyRefused : (e : RecordError) → parse_key dalek base64 txt ≡ err e → KeyRefused txt e
    unfolding parse_key
    parse_key-KeyRefused e h = elim (>>=-eq-err (parse_tags txt) _ h) [
      | inl bad ↦ by_tags e ((parse_tags-err_iff txt e).0 bad)
      | inr (tags, read, h₁) ↦
          elim (ok_or-eq-err (get tags (codes "k")) (missing_tag (codes "k")) _ h₁) [
            | inl (none_there, is) ↦
                subst (KeyRefused txt) (sym is) (no_algorithm tags read none_there)
            | inr (algorithm, there, h₂) ↦
                elim (ensure-eq-err (bytes_eq algorithm (codes "ed25519")) unknown_algorithm _ h₂) [
                  | inl (other, is) ↦ subst (KeyRefused txt) (sym is) (
                      other_algorithm tags algorithm read there (λ k.
                        ground (arith, other, (bytes_eq_iff algorithm (codes "ed25519")).1 k)))
                  | inr (known, h₃) ↦
                      with_key tags read
                        (there ∙ ap some ((bytes_eq_iff algorithm (codes "ed25519")).0 known)) h₃
                ]
          ]
    ]
      where
        with_key :
            (tags : List Tag)
            → parse_tags txt ≡ ok tags
            → get tags (codes "k") ≡ some (codes "ed25519")
            → key_of tags ≡ err e
            → KeyRefused txt e
        with_key tags read there h =
            elim (ok_or-eq-err (get tags (codes "pk")) (missing_tag (codes "pk")) _ h) [
              | inl (none_there, is) ↦
                  subst (KeyRefused txt) (sym is) (no_key tags read there none_there)
              | inr (encoded, key, h₁) ↦
                  elim (ok_or-eq-err (base64 encoded) (bad_value (codes "pk")) _ h₁) [
                    | inl (none_there, is) ↦
                        subst (KeyRefused txt) (sym is)
                          (no_base64 tags encoded read there key none_there)
                    | inr (raw, decoded, h₂) ↦
                        elim (ok_or-eq-err (Key.from_bytes dalek raw) (bad_value (codes "pk")) _
                          h₂) [
                            | inl (refused, is) ↦
                                subst (KeyRefused txt) (sym is)
                                  (not_taken tags encoded raw read there key decoded refused)
                            | inr (public_key, taken, h₃) ↦ absurd cc
                          ]
                  ]
            ]

    -- `parse_key` gives an error exactly when the first fault gives it: the tags' own error,
    -- `missing_tag` of `k`, `unknown_algorithm` for a `k` other than `ed25519`, `missing_tag` of
    -- `pk`, and `bad_value` of `pk` for a text that is not base64 or octets that are no key.
    pub parse_key-err_iff :
        (e : RecordError) → (parse_key dalek base64 txt ≡ err e) ↔ KeyRefused txt e
    parse_key-err_iff e = (parse_key-KeyRefused e, KeyRefused-parse_key)
