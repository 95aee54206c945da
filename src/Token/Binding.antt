-- ===== src/Token/Binding.antt =====
-- What the signed octets of a token determine.
use swornmail.Prelude.{ℕ, ◌≤◌, ◌≡◌, refl, sym, ap, ◌∙◌, some, List, [], arith, length}
use swornmail.Prelude.Int.{ℤ}
use swornmail.Prelude.Results.{ok}
use swornmail.Text.{Bytes, codes, to_ascii_lowercase}
use swornmail.Backend.{Value, bytes, tag, array, Items, no_items, item, Ciborium}
use swornmail.Address.{Ipv6Prefix}
use swornmail.Cose.{CoseSign1, protected_of, to_be_signed, get_header, label_kid}
use swornmail.Cose.Envelope.{Envelope, protected_of_iff}
use swornmail.Token.{Unverified, unit_at, parse_payload, parse_excluding}
use swornmail.Token.Claim.{parse_payload_iff}
use swornmail.Token.Local.{parse_excluding_iff}

-- RFC 9052's Sig_structure of a protected bucket and a payload.
abbrev pub sig_structure : Bytes → Bytes → Value
sig_structure protected payload = array (
    item (Value.text (codes "Signature1"))
      (item (bytes protected) (item (bytes []) (item (bytes payload) no_items))))

-- The octets of a value, if it is a byte string, are at most so many.
abbrev pub Fits : ℕ → Value → Type 0
Fits n (bytes b) = length b ≤ n
Fits n _ = Unit

abbrev pub AllFit : ℕ → Items → Type 0
AllFit n no_items = Unit
AllFit n (item v items) = Fits n v × AllFit n items

-- What is relied on of the CBOR crate: a byte string in a tagged array is no longer than the input,
-- and two Sig_structures of byte strings that fit into a token have different encodings.
pub record Unambiguous (cbor : Ciborium) : Type 0 where
  pub decodes_within :
      (raw : Bytes) (t : ℕ) (items : Items) (n : ℕ)
      → cbor.from_reader raw ≡ some (tag t (array items), n)
      → AllFit (length raw) items
  pub writes_apart :
      (protected payload protected' payload' : Bytes)
      → length protected ≤ 3072
      → length payload ≤ 3072
      → length protected' ≤ 3072
      → length payload' ≤ 3072
      → cbor.into_writer (sig_structure protected payload)
        ≡ cbor.into_writer (sig_structure protected' payload')
      → sig_structure protected payload ≡ sig_structure protected' payload'

module _ (cbor : Ciborium) where
  -- The signed parts of an envelope are no longer than the octets that it is read from.
  parts-fit :
      Unambiguous cbor
      → (token : Bytes) {cose : CoseSign1} → Envelope cbor token cose
      → (length cose.protected_raw ≤ length token) × (length cose.payload ≤ length token)
  parts-fit clear token {cose} e =
      let fits = clear.decodes_within token 18 _ (length token) e.read in (fits.0, fits.1.1.0)

  -- Two token's envelopes with the same signed octets.
  same_signed :
      Unambiguous cbor
      → (cose cose' : CoseSign1) → (length cose.protected_raw ≤ 3072) × (length cose.payload ≤ 3072)
      → (length cose'.protected_raw ≤ 3072) × (length cose'.payload ≤ 3072)
      → to_be_signed cbor cose ≡ to_be_signed cbor cose'
      → (cose.protected_raw ≡ cose'.protected_raw) × (cose.payload ≡ cose'.payload)
  unfolding to_be_signed
  same_signed clear cose cose' (p, q) (p', q') h =
      let same =
        clear.writes_apart cose.protected_raw cose.payload cose'.protected_raw cose'.payload p q p'
          q' h in
      (cc same, cc same)

  module _ (clear : Unambiguous cbor) where
    -- The signed octets determine the claim: if the CBOR crate decodes no byte string that is
    -- longer than its input and encodes different Sig_structures of at most 3072 octets a part
    -- differently, and two tokens are accepted by `parse_excluding`, from whatever sources and at
    -- whatever times, with the same octets to be signed, the second has the payload and the
    -- selector of the first, and differs only in the signature and in the units, which are cut from
    -- its own source.
    pub parse_excluding-signed :
        (token token' : Bytes) (source source' : ℕ) (now now' : ℤ)
        (ineligible ineligible' : List Ipv6Prefix) {u u' : Unverified}
        → parse_excluding cbor token source now ineligible ≡ ok u
        → parse_excluding cbor token' source' now' ineligible' ≡ ok u'
        → u.to_be_signed ≡ u'.to_be_signed
        → u' ≡ record u {
          unit = unit_at source' u.payload.unit;
          observed_unit = unit_at source' 64;
          signature = u'.signature;
        }
    parse_excluding-signed token token' source source' now now' ineligible ineligible' {u} {u'} h h'
          signed =
        let v = (parse_excluding_iff cbor token source now ineligible u).0 h in
        let v' = (parse_excluding_iff cbor token' source' now' ineligible' u').0 h' in
        let e = v.cose_read in
        let e' = v'.cose_read in
        let fits = parts-fit clear token e in
        let fits' = parts-fit clear token' e' in
        let octets : to_be_signed cbor v.cose ≡ to_be_signed cbor v'.cose =
          cc (v.result, v'.result, signed) in
        let (protected, claim) =
          same_signed clear v.cose v'.cose
            (omega (arith, v.bounded, fits.0), omega (arith, v.bounded, fits.1))
            (omega (arith, v'.bounded, fits'.0), omega (arith, v'.bounded, fits'.1)) octets in
        let bucket : v.cose.protected ≡ v'.cose.protected = cc (
          ap (protected_of cbor) protected,
          (protected_of_iff cbor v.cose.protected_raw v.cose.protected).1 e.protected,
          (protected_of_iff cbor v'.cose.protected_raw v'.cose.protected).1 e'.protected,
        ) in
        let kid : v.headers.kid ≡ v'.headers.kid = cc (
          ap (λ hs. get_header hs label_kid) bucket,
          v.headers.kid_protected,
          v'.headers.kid_protected,
        ) in
        let selector : v.selector ≡ v'.selector =
          v.headers.selector_folded ∙ ap to_ascii_lowercase kid ∙ sym v'.headers.selector_folded in
        let payload : v.payload ≡ v'.payload = cc (
          ap (parse_payload cbor) claim,
          (parse_payload_iff cbor v.cose.payload v.payload).1 v.payload_read,
          (parse_payload_iff cbor v'.cose.payload v'.payload).1 v'.payload_read,
        ) in
        rw v.result (rw v'.result (rw octets (rw selector (rw payload refl))))
