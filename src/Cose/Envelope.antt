-- ===== src/Cose/Envelope.antt =====
-- All octets that are a COSE_Sign1 envelope, and what each holds.
use mathlib.Core.Path.{subst}
use mathlib.Core.List.{append_assoc, append-nil}
use swornmail.Prelude.{
  ℕ, ◌≡◌, ◌≢◌, refl, sym, ap, ◌∙◌, ◌↔◌, ◌⊎◌, inl, inr, false, not, Option, some, List, [], ◌∷◌,
  ◌++◌, arith, any, none_iff, false_iff, length, ◌==◌, ==_iff, Bool-cases,
}
use swornmail.Prelude.Keys.{NewKey, DistinctKeys, DistinctKeys-concat, DistinctKeys-NewKey}
use swornmail.Prelude.Results.{ok, >>=-eq-ok, ensure-eq-ok, ok_or-eq-ok}
use swornmail.Text.{Bytes}
use swornmail.Reason.{malformed}
use swornmail.Backend.{
  Value, integer, bytes, tag, array, map, no_items, item, Items, Entries, pairs, Ciborium,
}
use swornmail.Cose.{
  Label, int, label_eq, Headers, label_of, labelled, read_headers, headers_of, CoseSign1,
  take_bytes, decode_cbor, protected_of, cose_of_items, cose_of_value, parse_cose, cose_sign1_tag,
}
use swornmail.Cose.Rules.{label_eq_iff}

take_bytes-eq-ok : (v : Value) {b : Bytes} → take_bytes v ≡ ok b → v ≡ bytes b
unfolding take_bytes
take_bytes-eq-ok (bytes b) h = cc h
take_bytes-eq-ok _ h = cc

-- A label as a CBOR value, and a bucket as the pairs of a map.
abbrev pub label_value : Label → Value
label_value (int i) = integer i
label_value (Label.text s) = Value.text s

abbrev pub written : Headers → List (Value × Value)
written [] = []
written ((label, v) ∷ hs) = (label_value label, v) ∷ written hs

-- A header bucket: a map whose keys are labels, no two the same, in wire order.
abbrev pub IsBucket : Value → Headers → Type 0
IsBucket v hs = (es : Entries) × (v ≡ map es) × (pairs es ≡ written hs) × DistinctKeys hs

label_of-eq-ok : (v : Value) {label : Label} → label_of v ≡ ok label → v ≡ label_value label
label_of-eq-ok (integer i) h = cc h
label_of-eq-ok (Value.text s) h = cc h
label_of-eq-ok _ h = cc

label_of-label_value : (label : Label) → label_of (label_value label) ≡ ok label
label_of-label_value (int i) = refl
label_of-label_value (Label.text s) = refl

labelled_iff : (label : Label) (hs : Headers) → (any (labelled label) hs ≡ false) ↔ NewKey label hs
labelled_iff label =
    none_iff (labelled label) (λ (seen, v). seen ≢ label)
      (λ (seen, v). false_iff (label_eq seen label) (label_eq_iff seen label))

read_headers_sound :
    (es : List (Value × Value)) (out : Headers) {hs : Headers}
    → DistinctKeys out
    → read_headers es out ≡ ok hs
    → (more : Headers) × (es ≡ written more) × (hs ≡ out ++ more) × DistinctKeys hs
unfolding read_headers
read_headers_sound [] out {hs} d h =
    let same : out ≡ hs = cc h in
    ([], refl, sym same ∙ sym (append-nil out), subst DistinctKeys same d)
read_headers_sound ((key, v) ∷ es) out d h =
    let (label, is_label, h₁) = >>=-eq-ok (label_of key) _ h in
    let (new, h₂) = ensure-eq-ok (not (any (labelled label) out)) malformed _ h₁ in
    let fresh = (labelled_iff label out).0 (ground (arith, new)) in
    let (more, rest, whole, d') =
      read_headers_sound es (out ++ (label, v) ∷ []) (DistinctKeys-concat out label v d fresh) h₂ in
    (
      (label, v) ∷ more,
      cc (label_of-eq-ok key is_label, rest),
      whole ∙ append_assoc out ((label, v) ∷ []) more,
      d',
    )

read_headers_complete :
    (out more : Headers)
    → DistinctKeys (out ++ more)
    → read_headers (written more) out ≡ ok (out ++ more)
unfolding read_headers
read_headers_complete out [] d = ap ok (sym (append-nil out))
read_headers_complete out ((label, v) ∷ more) d =
    let regroup = append_assoc out ((label, v) ∷ []) more in
    let fresh = (labelled_iff label out).1 (DistinctKeys-NewKey out label v more d) in
    rw (label_of-label_value label) (
      rw fresh (
        read_headers_complete (out ++ (label, v) ∷ []) more (subst DistinctKeys (sym regroup) d)
        ∙ ap ok regroup))

-- `Headers::from_value` reads exactly the header buckets.
pub headers_of_iff : (v : Value) (hs : Headers) → (headers_of v ≡ ok hs) ↔ IsBucket v hs
unfolding headers_of
headers_of_iff v hs = (sound v, complete)
  where
    sound : (v : Value) → headers_of v ≡ ok hs → IsBucket v hs
    sound (map es) h =
        let (more, is, whole, d) = read_headers_sound (pairs es) [] tt h in
        (es, refl, is ∙ ap written (sym whole), d)
    sound _ h = cc

    complete : IsBucket v hs → headers_of v ≡ ok hs
    complete (es, is_map, is, d) =
        ap headers_of is_map ∙ ap (λ x. read_headers x []) is ∙ read_headers_complete [] hs d

module _ (cbor : Ciborium) where
  pub decode_cbor_iff :
      (raw : Bytes) (v : Value)
      → (decode_cbor cbor raw ≡ ok v) ↔ (cbor.from_reader raw ≡ some (v, length raw))
  unfolding decode_cbor
  decode_cbor_iff raw v = (
    λ h.
        let ((w, n), read, h₁) = ok_or-eq-ok (cbor.from_reader raw) malformed _ h in
        let (taken, h₂) = ensure-eq-ok (n == length raw) malformed (ok w) h₁ in
        read ∙ ap {B = Option (Value × ℕ)} some (cc (h₂, (==_iff n (length raw)).0 taken)),
    λ read. rw read (rw ((==_iff (length raw) (length raw)).1 refl) refl),
  )

  -- A protected bucket: no octets for no headers, or the encoding of a bucket.
  abbrev pub IsProtected : Bytes → Headers → Type 0
  IsProtected raw hs =
      ((raw ≡ []) × (hs ≡ []))
      ⊎ ((raw ≢ []) × ((v : Value) × (cbor.from_reader raw ≡ some (v, length raw)) × IsBucket v hs))

  pub protected_of_iff :
      (raw : Bytes) (hs : Headers) → (protected_of cbor raw ≡ ok hs) ↔ IsProtected raw hs
  unfolding protected_of
  protected_of_iff [] hs = (
    λ h. inl (refl, cc h),
    λ h. elim h [ inl (e, is) ↦ ap ok (sym is) | inr (n, rest) ↦ absurd (n refl) ],
  )
  protected_of_iff (b ∷ raw) hs = (
    λ h.
        let (v, read, h₁) = >>=-eq-ok (decode_cbor cbor (b ∷ raw)) headers_of h in
        let bucket = (headers_of_iff v hs).0 h₁ in
        inr ((λ e. cc e), (v, (decode_cbor_iff (b ∷ raw) v).0 read, bucket)),
    λ h. elim h [
      | inl (e, is) ↦ absurd cc
      | inr (n, (v, read, bucket)) ↦
          rw ((decode_cbor_iff (b ∷ raw) v).1 read) ((headers_of_iff v hs).1 bucket)
    ],
  )

  -- The items of an envelope, where `outside` is the unprotected bucket.
  abbrev layout : CoseSign1 → Value → Items
  layout cose outside =
      item (bytes cose.protected_raw)
        (item outside (item (bytes cose.payload) (item (bytes cose.signature) no_items)))

  record Laid (items : Items) (cose : CoseSign1) : Type 0 where
    pub outside : Value
    pub laid_out : items ≡ layout cose outside
    pub unprotected : IsBucket outside cose.unprotected
    pub protected : IsProtected cose.protected_raw cose.protected

  Laid-sound :
      (items : Items) {cose : CoseSign1} → cose_of_items cbor items ≡ ok cose → Laid items cose
  unfolding cose_of_items
  Laid-sound (item a (item b (item c (item d no_items)))) {cose} h =
      let (raw, is_raw, h₁) = >>=-eq-ok (take_bytes a) _ h in
      let (outside, is_bucket, h₂) = >>=-eq-ok (headers_of b) _ h₁ in
      let (payload, is_payload, h₃) = >>=-eq-ok (take_bytes c) _ h₂ in
      let (signature, signed, h₄) = >>=-eq-ok (take_bytes d) _ h₃ in
      let (inside, is_protected, h₅) = >>=-eq-ok (protected_of cbor raw) _ h₄ in
      let made : CoseSign1 = record {
        protected_raw = raw;
        protected = inside;
        unprotected = outside;
        payload = payload;
        signature = signature;
      } in
      let same : made ≡ cose = cc h₅ in
      subst (Laid (item a (item b (item c (item d no_items))))) same (record {
        outside = b;
        laid_out =
            cc
              (take_bytes-eq-ok a is_raw, take_bytes-eq-ok c is_payload, take_bytes-eq-ok d signed);
        unprotected = (headers_of_iff b outside).0 is_bucket;
        protected = (protected_of_iff raw inside).0 is_protected;
      })
  Laid-sound _ h = cc

  Laid-complete :
      (items : Items) {cose : CoseSign1} → Laid items cose → cose_of_items cbor items ≡ ok cose
  unfolding cose_of_items take_bytes
  Laid-complete items {cose} l =
      ap (cose_of_items cbor) l.laid_out
      ∙ rw ((headers_of_iff l.outside cose.unprotected).1 l.unprotected)
          (rw ((protected_of_iff cose.protected_raw cose.protected).1 l.protected) refl)

  tagged_sound :
      (v : Value) {cose : CoseSign1}
      → cose_of_value cbor v ≡ ok cose
      → (items : Items) × (v ≡ tag 18 (array items)) × Laid items cose
  unfolding cose_of_value
  tagged_sound (tag t (array items)) h = elim (Bool-cases (t == cose_sign1_tag)) [
    | inl e ↦
        (items, ap (λ n. tag n (array items)) ((==_iff t 18).0 e), Laid-sound items (rw e at h))
    | inr e ↦ absurd (ground (arith, e))
  ]
  tagged_sound _ h = cc

  -- The five parts of an envelope, in a tagged array of four items that takes all octets.
  pub record Envelope (token : Bytes) (cose : CoseSign1) : Type 0 where
    pub outside : Value
    pub read :
        cbor.from_reader token
        ≡ some (
          tag 18 (
              array (
                item (bytes cose.protected_raw) (
                  item outside
                    (item (bytes cose.payload) (item (bytes cose.signature) no_items))))),
          length token,
        )
    pub unprotected : IsBucket outside cose.unprotected
    pub protected : IsProtected cose.protected_raw cose.protected

  -- Octets parse to an envelope exactly when the decoder takes them all as a value tagged 18, an
  -- array of the protected octets, the unprotected bucket, the payload octets and the signature
  -- octets, where the bucket is a map whose keys are integers and texts, no two the same, and the
  -- protected octets are none for no headers or else decode, all of them, to such a map; the
  -- headers keep their order.
  pub parse_cose_iff :
      (token : Bytes) (cose : CoseSign1) → (parse_cose cbor token ≡ ok cose) ↔ Envelope token cose
  unfolding parse_cose cose_of_value
  parse_cose_iff token cose = (
    λ h.
        let (v, decoded, h₁) = >>=-eq-ok (decode_cbor cbor token) (cose_of_value cbor) h in
        let (items, is_tagged, l) = tagged_sound v h₁ in
        record {
          outside = l.outside;
          read =
              (decode_cbor_iff token v).0 decoded
              ∙ ap {B = Option (Value × ℕ)} (λ w. some (w, length token))
                  (is_tagged ∙ ap (λ x. tag 18 (array x)) l.laid_out);
          unprotected = l.unprotected;
          protected = l.protected;
        },
    λ e.
        let items = layout cose e.outside in
        rw ((decode_cbor_iff token (tag 18 (array items))).1 e.read) (
          Laid-complete items (record {
            outside = e.outside;
            laid_out = refl;
            unprotected = e.unprotected;
            protected = e.protected;
          })),
  )
