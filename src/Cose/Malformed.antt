-- ===== src/Cose/Malformed.antt =====
-- Octets that are no envelope give one reason.
use swornmail.Prelude.{
  ◌≡◌, refl, sym, ap, ◌∙◌, ◌↔◌, inl, inr, Bool, true, false, not, Option, none, some, List, [], ◌∷◌,
  ◌++◌, any, length, ◌==◌, Bool-cases,
}
use swornmail.Prelude.Results.{Result, ok, err, ◌>>=◌, ensure, ok_or, Result-cases}
use swornmail.Text.{Bytes}
use swornmail.Reason.{Reason, malformed}
use swornmail.Backend.{
  Value, integer, bytes, tag, array, map, no_items, item, Items, pairs, Ciborium,
}
use swornmail.Cose.{
  Headers, label_of, labelled, read_headers, headers_of, CoseSign1, take_bytes, decode_cbor,
  protected_of, cose_of_items, cose_of_value, parse_cose, cose_sign1_tag,
}
use swornmail.Cose.Envelope.{Envelope, parse_cose_iff}

-- A computation that fails, if at all, with `malformed`.
abbrev pub OnlyMalformed {ℓ} : {A : Type ℓ} → Result Reason A → Type 0
OnlyMalformed (ok a) = Unit
OnlyMalformed (err r) = r ≡ malformed

pub >>=-OnlyMalformed :
    {A : Type 0} {B : Type 0} (m : Result Reason A) (f : A → Result Reason B)
    → OnlyMalformed m
    → ((a : A) → OnlyMalformed (f a))
    → OnlyMalformed (m >>= f)
>>=-OnlyMalformed (ok a) f h k = k a
>>=-OnlyMalformed (err r) f h k = h

pub ensure-OnlyMalformed : (b : Bool) → OnlyMalformed (ensure b malformed)
ensure-OnlyMalformed true = tt
ensure-OnlyMalformed false = refl

pub ok_or-OnlyMalformed : {A : Type 0} (o : Option A) → OnlyMalformed (ok_or o malformed)
ok_or-OnlyMalformed none = refl
ok_or-OnlyMalformed (some a) = tt

pub eq-OnlyMalformed :
    {A : Type 0} (m : Result Reason A) {r : Reason} → OnlyMalformed m → m ≡ err r → r ≡ malformed
eq-OnlyMalformed (ok a) h e = cc
eq-OnlyMalformed (err q) h e = cc

label_of-OnlyMalformed : (v : Value) → OnlyMalformed (label_of v)
label_of-OnlyMalformed (integer i) = tt
label_of-OnlyMalformed (Value.text s) = tt
label_of-OnlyMalformed _ = refl

take_bytes-OnlyMalformed : (v : Value) → OnlyMalformed (take_bytes v)
unfolding take_bytes
take_bytes-OnlyMalformed (bytes b) = tt
take_bytes-OnlyMalformed _ = refl

read_headers-OnlyMalformed :
    (es : List (Value × Value)) (out : Headers) → OnlyMalformed (read_headers es out)
unfolding read_headers
read_headers-OnlyMalformed [] out = tt
read_headers-OnlyMalformed ((key, v) ∷ es) out =
    >>=-OnlyMalformed (label_of key) _ (label_of-OnlyMalformed key) (λ label.
      >>=-OnlyMalformed (ensure (not (any (labelled label) out)) malformed) _
        (ensure-OnlyMalformed (not (any (labelled label) out)))
        (λ _. read_headers-OnlyMalformed es (out ++ (label, v) ∷ [])))

headers_of-OnlyMalformed : (v : Value) → OnlyMalformed (headers_of v)
unfolding headers_of
headers_of-OnlyMalformed (map es) = read_headers-OnlyMalformed (pairs es) []
headers_of-OnlyMalformed _ = refl

module _ (cbor : Ciborium) where
  pub decode_cbor-OnlyMalformed : (raw : Bytes) → OnlyMalformed (decode_cbor cbor raw)
  unfolding decode_cbor
  decode_cbor-OnlyMalformed raw =
      >>=-OnlyMalformed (ok_or (cbor.from_reader raw) malformed) _
        (ok_or-OnlyMalformed (cbor.from_reader raw))
        (λ (v, n).
          >>=-OnlyMalformed (ensure (n == length raw) malformed) (λ _. ok v)
            (ensure-OnlyMalformed (n == length raw)) (λ _. tt))

  protected_of-OnlyMalformed : (raw : Bytes) → OnlyMalformed (protected_of cbor raw)
  unfolding protected_of
  protected_of-OnlyMalformed [] = tt
  protected_of-OnlyMalformed (b ∷ raw) =
      >>=-OnlyMalformed (decode_cbor cbor (b ∷ raw)) headers_of
        (decode_cbor-OnlyMalformed (b ∷ raw)) headers_of-OnlyMalformed

  cose_of_items-OnlyMalformed : (items : Items) → OnlyMalformed (cose_of_items cbor items)
  unfolding cose_of_items
  cose_of_items-OnlyMalformed (item a (item b (item c (item d no_items)))) =
      >>=-OnlyMalformed (take_bytes a) _ (take_bytes-OnlyMalformed a) (λ raw.
        >>=-OnlyMalformed (headers_of b) _ (headers_of-OnlyMalformed b) (λ outside.
          >>=-OnlyMalformed (take_bytes c) _ (take_bytes-OnlyMalformed c) (λ payload.
            >>=-OnlyMalformed (take_bytes d) _ (take_bytes-OnlyMalformed d) (λ signature.
              >>=-OnlyMalformed (protected_of cbor raw) _ (protected_of-OnlyMalformed raw)
                (λ inside. tt)))))
  cose_of_items-OnlyMalformed _ = refl

  cose_of_value-OnlyMalformed : (v : Value) → OnlyMalformed (cose_of_value cbor v)
  unfolding cose_of_value
  cose_of_value-OnlyMalformed (tag t (array items)) = elim (Bool-cases (t == cose_sign1_tag)) [
    | inl k ↦ rw k (cose_of_items-OnlyMalformed items)
    | inr k ↦ rw k refl
  ]
  cose_of_value-OnlyMalformed _ = refl

  parse_cose-OnlyMalformed : (token : Bytes) → OnlyMalformed (parse_cose cbor token)
  unfolding parse_cose
  parse_cose-OnlyMalformed token =
      >>=-OnlyMalformed (decode_cbor cbor token) (cose_of_value cbor)
        (decode_cbor-OnlyMalformed token) cose_of_value-OnlyMalformed

  -- `parse_cose` fails, with `malformed`, exactly on the octets that are no envelope.
  pub parse_cose-err_iff :
      (token : Bytes) (r : Reason)
      → (parse_cose cbor token ≡ err r)
        ↔ ((r ≡ malformed) × ((cose : CoseSign1) → ¬ Envelope cbor token cose))
  parse_cose-err_iff token r = (
    λ h. (
      eq-OnlyMalformed (parse_cose cbor token) (parse_cose-OnlyMalformed token) h,
      λ cose e. cc (h, (parse_cose_iff cbor token cose).1 e),
    ),
    λ (is, n). elim (Result-cases (parse_cose cbor token)) [
      | inl (cose, read) ↦ absurd (n cose ((parse_cose_iff cbor token cose).0 read))
      | inr (e, failed) ↦
          failed
          ∙ ap err (
              eq-OnlyMalformed (parse_cose cbor token) (parse_cose-OnlyMalformed token) failed
              ∙ sym is)
    ],
  )
