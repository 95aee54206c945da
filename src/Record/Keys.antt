-- ===== src/Record/Keys.antt =====
-- What a parsed key record holds.
use swornmail.Prelude.{◌≡◌, refl, ap, ◌∙◌, ◌↔◌, some, List, [], ◌∷◌, All, arith, length, ==_iff}
use swornmail.Prelude.Results.{ok, >>=-eq-ok, ensure-eq-ok, ok_or-eq-ok}
use swornmail.Text.{Bytes, codes, bytes_eq, bytes_eq_iff}
use swornmail.Backend.{Dalek, Base64}
use swornmail.Key
use swornmail.Record.Print.{IsVisible, write_tags, parse_tags-write_tags}
use swornmail.Record.{
  version, missing_tag, bad_value, unknown_algorithm, Tag, get, parse_tags, KeyRecord, parse_key,
}

module _ (dalek : Dalek) (base64 : Base64) where
  -- A record of the one known algorithm, with a key of 32 octets that the signature crate takes.
  pub record KeyPublished (txt : Bytes) (r : KeyRecord dalek base64) : Type 0 where
    pub tags : List Tag
    pub encoded : Bytes
    pub raw : Bytes
    pub tags_read : parse_tags txt ≡ ok tags
    pub algorithm : get tags (codes "k") ≡ some (codes "ed25519")
    pub key_text : get tags (codes "pk") ≡ some encoded
    pub decoded : base64 encoded ≡ some raw
    pub key_length : length raw ≡ 32
    pub taken : dalek.from_bytes raw ≡ some r.public_key

  key_sound :
      (txt : Bytes) (r : KeyRecord dalek base64)
      → parse_key dalek base64 txt ≡ ok r
      → KeyPublished txt r
  unfolding parse_key Key.from_bytes
  key_sound txt r h =
      let (tags, tags_read, h₁) = >>=-eq-ok (parse_tags txt) _ h in
      let (algorithm, found, h₂) =
        ok_or-eq-ok (get tags (codes "k")) (missing_tag (codes "k")) _ h₁ in
      let (known, h₃) =
        ensure-eq-ok (bytes_eq algorithm (codes "ed25519")) unknown_algorithm _ h₂ in
      let (encoded, key_text, h₄) =
        ok_or-eq-ok (get tags (codes "pk")) (missing_tag (codes "pk")) _ h₃ in
      let (raw, decoded, h₅) = ok_or-eq-ok (base64 encoded) (bad_value (codes "pk")) _ h₄ in
      let (key, taken, h₆) = ok_or-eq-ok (Key.from_bytes dalek raw) (bad_value (codes "pk")) _ h₅ in
      let same : key ≡ r.public_key = cc h₆ in
      record {
        tags = tags;
        encoded = encoded;
        raw = raw;
        tags_read = tags_read;
        algorithm = found ∙ ap some ((bytes_eq_iff algorithm (codes "ed25519")).0 known);
        key_text = key_text;
        decoded = decoded;
        key_length = ground (arith, taken);
        taken = ground (arith, taken, same);
      }

  key_complete :
      (txt : Bytes) (r : KeyRecord dalek base64)
      → KeyPublished txt r
      → parse_key dalek base64 txt ≡ ok r
  unfolding parse_key Key.from_bytes bytes_eq
  key_complete txt r k = rw k.tags_read (
      rw k.algorithm (
        rw k.key_text
          (rw k.decoded (rw ((==_iff (length k.raw) 32).1 k.key_length) (rw k.taken refl)))))

  -- A key record parses to a key exactly when its tags parse, `k` is `ed25519`, and `pk` is the
  -- base64 form of 32 octets that the signature crate takes as that key.
  pub parse_key_iff :
      (txt : Bytes) (r : KeyRecord dalek base64)
      → (parse_key dalek base64 txt ≡ ok r) ↔ KeyPublished txt r
  parse_key_iff txt r = (key_sound txt r, key_complete txt r)

-- A key as an operator publishes it, from its base64 form.
abbrev key_tags : Bytes → List Tag
key_tags encoded = (codes "k", codes "ed25519") ∷ (codes "pk", encoded) ∷ []

abbrev pub write_key : Bytes → Bytes
write_key encoded = write_tags (codes "v", version) (key_tags encoded)

-- A written key record is read back.
pub parse_key-write_key :
    (dalek : Dalek) (base64 : Base64) (key : Key.Ed25519PublicKey dalek) (encoded raw : Bytes)
    → All IsVisible encoded
    → base64 encoded ≡ some raw
    → Key.from_bytes dalek raw ≡ some key
    → parse_key dalek base64 (write_key encoded) ≡ ok (record { public_key = key })
unfolding parse_key get bytes_eq
parse_key-write_key dalek base64 key encoded raw visible decoded taken =
    let tags =
      parse_tags-write_tags (key_tags encoded)
        (
          (λ e. cc, ground arith, ground arith, ground arith),
          ((λ e. cc, ground arith, ground arith, visible), tt),
        )
        (ground arith) in
    rw tags (rw decoded (rw taken refl))
