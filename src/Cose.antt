-- ===== src/Cose.antt =====
-- src/token.rs: the COSE_Sign1 envelope of a token, its headers and the octets that are signed.
pub mod Rules
pub mod Refusals
pub mod Envelope
pub mod Malformed
use swornmail.Prelude.{
  ℕ, ◌+◌, ◌≤◌, ◌<◌, Bool, true, false, not, ◌&&◌, ◌||◌, Option, none, some, List, [], ◌∷◌, ◌++◌,
  leb, ltb, ◌==◌, if◌then◌else◌, any, all, length,
}
use swornmail.Prelude.Int.{ℤ, pos, negsuc, eqb_ℤ, ltb_ℤ, ◌+ℤ◌, ◌-ℤ◌}
use swornmail.Prelude.Results.{Result, ok, err, ◌>>=◌, ◌>>◌, ensure, ok_or}
use swornmail.Text.{
  Bytes, codes, bytes_eq, is_empty, is_ascii_alphanumeric, starts_with, ends_with,
  to_ascii_lowercase,
}
use swornmail.Text.Utf8.{from_utf8}
use swornmail.Address.{Ipv6Prefix, mask, contains, is_eligible_source}
use swornmail.Reason.{
  Reason, off_prefix, ineligible_source, expired, not_yet_valid, bad_signature, unauthorized_prefix,
  policy_unit_mismatch, bad_content_type, bad_kid, header_confusion, malformed, pass_str, as_str,
}
use swornmail.Backend.{
  Value, integer, bytes, tag, array, map, no_items, item, Items, Entries, pairs, Ciborium, Dalek,
}

abbrev pub cose_sign1_tag : ℕ
cose_sign1_tag = 18

-- -8 and -19
abbrev pub alg_eddsa : ℤ
alg_eddsa = negsuc 7

abbrev pub alg_ed25519 : ℤ
alg_ed25519 = negsuc 18

abbrev pub content_type : Bytes
content_type = codes "application/sworn-token+cbor"

abbrev pub label_alg : ℤ
label_alg = pos 1

abbrev pub label_crit : ℤ
label_crit = pos 2

abbrev pub label_content_type : ℤ
label_content_type = pos 3

abbrev pub label_kid : ℤ
label_kid = pos 4

pub data Label : Type 0 where
  int : ℤ → Label
  text : Bytes → Label

-- `==` on labels
abbrev pub label_eq : Label → Label → Bool
label_eq (int a) (int b) = eqb_ℤ a b
label_eq (Label.text a) (Label.text b) = bytes_eq a b
label_eq _ _ = false

abbrev pub Headers : Type 0
Headers = List (Label × Value)

abbrev pub label_of : Value → Result Reason Label
label_of (integer i) = ok (int i)
label_of (Value.text s) = ok (Label.text s)
label_of _ = err malformed

abbrev pub labelled : Label → Label × Value → Bool
labelled label (seen, v) = label_eq seen label

-- the loop of `Headers::from_value`
unfoldable pub read_headers : List (Value × Value) → Headers → Result Reason Headers
read_headers [] out = ok out
read_headers ((key, val) ∷ es) out = do
  label ← label_of key
  ensure (not (any (labelled label) out)) malformed
  read_headers es (out ++ (label, val) ∷ [])

-- `Headers::from_value`
unfoldable pub headers_of : Value → Result Reason Headers
headers_of (map es) = read_headers (pairs es) []
headers_of _ = err malformed

-- `Headers::get`
unfoldable pub get_header : Headers → ℤ → Option Value
get_header [] label = none
get_header ((l, v) ∷ hs) label = if label_eq l (int label) then some v else get_header hs label

abbrev pub is_some {ℓ} : {A : Type ℓ} → Option A → Bool
is_some none = false
is_some (some a) = true

-- `Headers::has`
abbrev pub has : Headers → ℤ → Bool
has hs label = is_some (get_header hs label)

-- `Headers::labels`
abbrev pub labels : Headers → List Label
labels [] = []
labels ((l, v) ∷ hs) = l ∷ labels hs

-- a label of the first bucket that the second has too
abbrev pub shared_label : Headers → Headers → Bool
shared_label unprotected protected =
    any (λ l. any (λ other. label_eq other l) (labels protected)) (labels unprotected)

pub record CoseSign1 : Type 0 where
  pub protected_raw : Bytes
  pub protected : Headers
  pub unprotected : Headers
  pub payload : Bytes
  pub signature : Bytes

unfoldable pub take_bytes : Value → Result Reason Bytes
take_bytes (bytes b) = ok b
take_bytes _ = err malformed

-- a DNS label in a `kid` header, folded to lower case
unfoldable pub selector_from_kid : Bytes → Option Bytes
selector_from_kid kid =
    if is_empty kid || ltb 63 (length kid)
    then none
    else if starts_with b'-' kid || ends_with b'-' kid
    then none
    else if not (all (λ c. is_ascii_alphanumeric c || c == b'-') kid)
    then none
    else elim (from_utf8 kid) [ none ↦ none | some selector ↦ some (to_ascii_lowercase selector) ]

-- the three matches on protected headers
unfoldable pub check_alg : Option Value → Result Reason (Unit {0})
check_alg (some (integer alg)) =
    ensure (eqb_ℤ alg alg_eddsa || eqb_ℤ alg alg_ed25519) header_confusion
check_alg _ = err header_confusion

unfoldable pub check_content_type : Option Value → Result Reason (Unit {0})
check_content_type (some (Value.text cty)) = ensure (bytes_eq cty content_type) bad_content_type
check_content_type _ = err bad_content_type

unfoldable pub check_kid : Option Value → Result Reason Bytes
check_kid (some (bytes kid)) = ok_or (selector_from_kid kid) bad_kid
check_kid _ = err bad_kid

-- `CoseSign1::check_headers`
unfoldable pub check_headers : CoseSign1 → Result Reason Bytes
check_headers cose = do
  ensure (not (has cose.protected label_crit || has cose.unprotected label_crit)) header_confusion
  ensure (not (any (has cose.unprotected) (label_alg ∷ label_content_type ∷ label_kid ∷ [])))
      header_confusion
  ensure (not (shared_label cose.unprotected cose.protected)) header_confusion
  check_alg (get_header cose.protected label_alg)
  check_content_type (get_header cose.protected label_content_type)
  check_kid (get_header cose.protected label_kid)

module _ (cbor : Ciborium) where
  -- The decoded value, if the decoder has taken all octets.
  unfoldable pub decode_cbor : Bytes → Result Reason Value
  decode_cbor raw = do
    (value, position) ← ok_or (cbor.from_reader raw) malformed
    ensure (position == length raw) malformed
    ok value

  -- A zero-length protected bucket is an empty map.
  unfoldable pub protected_of : Bytes → Result Reason Headers
  protected_of [] = ok []
  protected_of (b ∷ raw) = do value ← decode_cbor (b ∷ raw); headers_of value

  -- the four items of the array
  unfoldable pub cose_of_items : Items → Result Reason CoseSign1
  cose_of_items (item a (item b (item c (item d no_items)))) = do
    protected_raw ← take_bytes a
    unprotected ← headers_of b
    payload ← take_bytes c
    signature ← take_bytes d
    protected ← protected_of protected_raw
    ok (record {
      protected_raw = protected_raw;
      protected = protected;
      unprotected = unprotected;
      payload = payload;
      signature = signature;
    })
  cose_of_items _ = err malformed

  unfoldable pub cose_of_value : Value → Result Reason CoseSign1
  cose_of_value (tag t (array items)) =
      if t == cose_sign1_tag then cose_of_items items else err malformed
  cose_of_value _ = err malformed

  -- `CoseSign1::parse`; its first steps are those of `decode_cbor`
  unfoldable pub parse_cose : Bytes → Result Reason CoseSign1
  parse_cose token = do value ← decode_cbor token; cose_of_value value

  -- `CoseSign1::to_be_signed`
  unfoldable pub to_be_signed : CoseSign1 → Bytes
  to_be_signed cose = cbor.into_writer (
      array (
        item (Value.text (codes "Signature1"))
          (item (bytes cose.protected_raw) (item (bytes []) (item (bytes cose.payload) no_items)))))
