-- ===== src/Tests/Cbor.antt =====
-- A CBOR codec and the other backends, concrete enough to run the verifier on real tokens.
use mathlib.Core.Path.{subst}
use swornmail.Prelude.{
  ℕ, zero, suc, ◌+◌, ◌-◌, ◌*◌, ◌/◌, ◌%◌, ◌≡◌, Bool, true, Option, none, some, List, [], ◌∷◌, ◌++◌,
  arith, ltb, ltb_iff, ◌==◌, if◌then◌else◌, all, all_iff, All, length, take, leb, leb_iff, &&_iff,
  ◌&&◌, Bool-cases, Option-cases, inl, inr,
}
use swornmail.Prelude.Int.{ℤ, pos, negsuc}
use swornmail.Text.{Bytes}
use swornmail.Backend.{
  Value, integer, bytes, text, tag, array, map, Items, no_items, item, Entries, no_entries, entry,
  pairs, Ciborium,
}
use swornmail.Payload.{from_octets}
use swornmail.Payload.Wire.{HasOctets, IsByte, octets_of}
use swornmail.Token.Reputation.{DecodesOctets}
use swornmail.Token.Binding.{Fits, AllFit}

abbrev drop : ℕ → Bytes → Bytes
drop zero s = s
drop (suc n) [] = []
drop (suc n) (x ∷ s) = drop n s

-- The argument of a head: in the first octet, or in the 1, 2, 4 or 8 octets behind it.
abbrev wide : ℕ → Bytes → Option (ℕ × Bytes)
wide n s = if ltb (length s) n then none else some (from_octets 0 (take n s), drop n s)

abbrev argument : ℕ → Bytes → Option (ℕ × Bytes)
argument n s =
    if ltb n 24
    then some (n, s)
    else if n == 24
    then wide 1 s
    else if n == 25
    then wide 2 s
    else if n == 26
    then wide 4 s
    else if n == 27
    then wide 8 s
    else none

-- The kind of a data item, from the top three bits of its first octet.
pub data Major : Type 0 where
  unsigned negative octets chars list dict tagged simple : Major

abbrev pub majors : List Major
majors = unsigned ∷ negative ∷ octets ∷ chars ∷ list ∷ dict ∷ tagged ∷ []

abbrev pub nth : ℕ → List Major → Major
nth n [] = simple
nth zero (m ∷ ms) = m
nth (suc n) (m ∷ ms) = nth n ms

abbrev string_of : (Bytes → Value) → ℕ → Bytes → Option (Value × Bytes)
string_of f n s = if ltb (length s) n then none else some (f (take n s), drop n s)

abbrev bind {ℓ κ} : {A : Type ℓ} {B : Type κ} → Option A → (A → Option B) → Option B
bind none f = none
bind (some a) f = f a

unfoldable mutual
  decode : ℕ → Bytes → Option (Value × Bytes)
  decode zero s = none
  decode (suc f) [] = none
  decode (suc f) (b ∷ s) =
      bind (argument (b % 32) s) (λ (n, rest). decode_kind f (nth (b / 32) majors) n rest)

  decode_kind : ℕ → Major → ℕ → Bytes → Option (Value × Bytes)
  decode_kind zero m n s = none
  decode_kind (suc f) unsigned n s = some (integer (pos n), s)
  decode_kind (suc f) negative n s = some (integer (negsuc n), s)
  decode_kind (suc f) octets n s = string_of bytes n s
  decode_kind (suc f) chars n s = string_of text n s
  decode_kind (suc f) list n s =
      bind (decode_items f n s) (λ (items, rest). some (array items, rest))
  decode_kind (suc f) dict n s = bind (decode_entries f n s) (λ (es, rest). some (map es, rest))
  decode_kind (suc f) tagged n s = bind (decode f s) (λ (v, rest). some (tag n v, rest))
  decode_kind (suc f) simple n s = none

  decode_items : ℕ → ℕ → Bytes → Option (Items × Bytes)
  decode_items zero n s = none
  decode_items (suc f) zero s = some (no_items, s)
  decode_items (suc f) (suc n) s =
      bind (decode f s)
        (λ (v, rest). bind (decode_items f n rest) (λ (vs, rest'). some (item v vs, rest')))

  decode_entries : ℕ → ℕ → Bytes → Option (Entries × Bytes)
  decode_entries zero n s = none
  decode_entries (suc f) zero s = some (no_entries, s)
  decode_entries (suc f) (suc n) s = bind (decode f s) (λ (k, rest).
      bind (decode f rest) (λ (v, rest').
        bind (decode_entries f n rest') (λ (es, rest''). some (entry k v es, rest''))))

abbrev octets_ok : (Value × Value) → Bool
octets_ok (k, bytes b) = all (λ x. ltb x 256) b
octets_ok _ = true

abbrev pub fits : ℕ → Value → Bool
fits n (bytes b) = leb (length b) n
fits n _ = true

abbrev pub all_fit : ℕ → Items → Bool
all_fit n no_items = true
all_fit n (item v items) = fits n v && all_fit n items

abbrev pub value_ok : ℕ → Value → Bool
value_ok n (map es) = all octets_ok (pairs es)
value_ok n (tag t (array items)) = all_fit n items
value_ok n _ = true

-- A value is kept if its octets are in range and its byte strings no longer than the input, as they
-- are for every input of octets.
abbrev checked : Bytes → Value → ℕ → Option (Value × ℕ)
checked raw v n = if value_ok (length raw) v then some (v, n) else none

unfoldable pub from_reader : Bytes → Option (Value × ℕ)
unfolding decode
from_reader raw =
    bind (decode (2 * length raw + 4) raw) (λ (v, rest). checked raw v (length raw - length rest))

abbrev captured_entry : Value × Value → Option (ℤ × Option ℕ × Value)
captured_entry (integer k, tag t v) = some (k, some t, v)
captured_entry (integer k, v) = some (k, none, v)
captured_entry _ = none

abbrev captured_entries : List (Value × Value) → Option (List (ℤ × Option ℕ × Value))
captured_entries [] = some []
captured_entries (e ∷ es) =
    bind (captured_entry e) (λ c. bind (captured_entries es) (λ cs. some (c ∷ cs)))

abbrev captured_value : Value → Option (List (ℤ × Option ℕ × Value))
captured_value (map es) = captured_entries (pairs es)
captured_value _ = none

unfoldable pub captured_map : Bytes → Option (List (ℤ × Option ℕ × Value))
unfolding from_reader
captured_map raw = bind (from_reader raw) (λ (v, n). captured_value v)

-- The head of an item.
abbrev pub head : ℕ → ℕ → Bytes
head major n =
    if ltb n 24
    then (major * 32 + n) ∷ []
    else if ltb n 256
    then (major * 32 + 24) ∷ n ∷ []
    else if ltb n 65536
    then (major * 32 + 25) ∷ octets_of 2 n
    else if ltb n 4294967296
    then (major * 32 + 26) ∷ octets_of 4 n
    else (major * 32 + 27) ∷ octets_of 8 n

unfoldable mutual
  encode : Value → Bytes
  encode (integer (pos n)) = head 0 n
  encode (integer (negsuc n)) = head 1 n
  encode (bytes b) = head 2 (length b) ++ b
  encode (text s) = head 3 (length s) ++ s
  encode (tag t v) = head 6 t ++ encode v
  encode (array items) = head 4 (count_items items) ++ encode_items items
  encode (map es) = head 5 (count_entries es) ++ encode_entries es
  encode _ = 0xf6 ∷ []

  count_items : Items → ℕ
  count_items no_items = 0
  count_items (item v items) = suc (count_items items)

  count_entries : Entries → ℕ
  count_entries no_entries = 0
  count_entries (entry k v es) = suc (count_entries es)

  encode_items : Items → Bytes
  encode_items no_items = []
  encode_items (item v items) = encode v ++ encode_items items

  encode_entries : Entries → Bytes
  encode_entries no_entries = []
  encode_entries (entry k v es) = encode k ++ encode v ++ encode_entries es

unfoldable pub cbor : Ciborium
unfolding from_reader captured_map encode
cbor = record { from_reader = from_reader; captured_map = captured_map; into_writer = encode }

HasOctets-iff : (e : Value × Value) → (octets_ok e ≡ true) → HasOctets e.1
HasOctets-iff (k, bytes b) h = (all_iff (λ x. ltb x 256) IsByte (λ x. ltb_iff x 256) b).0 h
HasOctets-iff (k, _) h = tt

all-HasOctets :
    (es : List (Value × Value)) → all octets_ok es ≡ true → All (λ (key, v). HasOctets v) es
all-HasOctets [] h = tt
all-HasOctets ((k, v) ∷ es) h =
    (HasOctets-iff (k, v) (ground arith), all-HasOctets es (ground arith))

module _ (raw : Bytes) (v : Value) (n : ℕ) where
  checked-value_ok :
      {w : Value} {m : ℕ} → checked raw v n ≡ some (w, m) → value_ok (length raw) w ≡ true
  checked-value_ok {w} h = elim (Bool-cases (value_ok (length raw) v)) [
    | inl e ↦ let same : v ≡ w = ground arith in subst (λ x. value_ok (length raw) x ≡ true) same e
    | inr e ↦ ground arith
  ]

pub from_reader-value_ok :
    (raw : Bytes) {w : Value} {m : ℕ}
    → from_reader raw ≡ some (w, m)
    → value_ok (length raw) w ≡ true
unfolding from_reader
from_reader-value_ok raw {w} {m} h = elim (Option-cases (decode (2 * length raw + 4) raw)) [
  | inl e ↦ ground arith
  | inr ((v, rest), e) ↦
      checked-value_ok raw v (length raw - length rest) {w = w} {m = m} (ground arith)
]

pub cbor-DecodesOctets : DecodesOctets cbor
unfolding cbor
cbor-DecodesOctets raw es n h = all-HasOctets (pairs es) (from_reader-value_ok raw h)

Fits-fits : (n : ℕ) (v : Value) → fits n v ≡ true → Fits n v
Fits-fits n (bytes b) h = (leb_iff (length b) n).0 h
Fits-fits n _ h = tt

pub all_fit-AllFit : (n : ℕ) (items : Items) → all_fit n items ≡ true → AllFit n items
all_fit-AllFit n no_items h = tt
all_fit-AllFit n (item v items) h =
    let (here, later) = (&&_iff (fits n v) (all_fit n items)).0 h in
    (Fits-fits n v here, all_fit-AllFit n items later)
