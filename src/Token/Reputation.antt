-- ===== src/Token/Reputation.antt =====
-- Where reputation attaches: the units of an accepted token.
use mathlib.Core.Path.{subst}
use swornmail.Prelude.{
  ℕ, ◌≤◌, ◌≡◌, refl, sym, ap, ◌∙◌, true, Option, some, List, arith, All, length, ◌==◌,
}
use swornmail.Prelude.Int.{ℤ}
use swornmail.Prelude.Results.{ok, ensure-eq-ok, ok_or-eq-ok}
use swornmail.Text.{Bytes}
use swornmail.Address.{IsAddr, Ipv6Prefix, IsPrefix, new, mask, contains}
use swornmail.Address.Ranges.{Covers}
use swornmail.Reason.{malformed}
use swornmail.Backend.{Value, Entries, map, pairs, Ciborium}
use swornmail.Payload.{Payload, key_prefix}
use swornmail.Payload.Valid.{Reads}
use swornmail.Payload.Wire.{HasOctets, find-HasOctets, decode_prefix-IsPrefix}
use swornmail.Cose.{decode_cbor}
use swornmail.Token.{Unverified, unit_at, parse_excluding}
use swornmail.Token.Local.{parse_excluding_iff}
use swornmail.Token.Units.{unit_at-Covers, unit_at-contains, prefix-Covers}
use swornmail.Token.Window.{ClaimOf-Reads}

-- The decoder returns octets where it returns byte strings.
abbrev pub DecodesOctets : Ciborium → Type 0
DecodesOctets cbor =
    (raw : Bytes) (es : Entries) (n : ℕ)
    → cbor.from_reader raw ≡ some (map es, n)
    → All (λ (key, v). HasOctets v) (pairs es)

-- The claimed unit contains the source's /64, lies inside the attested prefix, and could be built.
pub record UnitsNest (u : Unverified) (source : ℕ) : Type 0 where
  pub prefix_valid : IsPrefix u.payload.prefix
  pub observed : u.observed_unit ≡ unit_at source 64
  pub observed_holds : contains u.observed_unit source ≡ true
  pub claimed_built : new (mask source u.payload.unit) u.payload.unit ≡ some u.unit
  pub claimed_covers : Covers u.unit u.observed_unit
  pub prefix_covers : Covers u.payload.prefix u.unit

module _ (cbor : Ciborium) (octets : DecodesOctets cbor) where
  decode_cbor-octets :
      (raw : Bytes) (es : Entries)
      → decode_cbor cbor raw ≡ ok (map es)
      → All (λ (key, v). HasOctets v) (pairs es)
  unfolding decode_cbor
  decode_cbor-octets raw es h =
      let ((v, n), read, h₁) = ok_or-eq-ok (cbor.from_reader raw) malformed _ h in
      let (all_taken, h₂) = ensure-eq-ok (n == length raw) malformed (ok v) h₁ in
      let same : v ≡ map es = cc h₂ in
      octets raw es n (read ∙ ap {B = Option (Value × ℕ)} (λ w. some (w, n)) same)

  pub payload-IsPrefix :
      (raw : Bytes) (es : Entries) {p : Payload}
      → decode_cbor cbor raw ≡ ok (map es)
      → Reads (pairs es) p
      → IsPrefix p.prefix
  payload-IsPrefix raw es decoded r =
      decode_prefix-IsPrefix r.wire_prefix
        (find-HasOctets key_prefix (pairs es) (decode_cbor-octets raw es decoded) r.prefix_found)
        r.checked.decoded

  -- If the decoder returns only octets and the source is a 128-bit address, a token that
  -- `parse_excluding` returns has a valid prefix, an observed unit that is the source's /64 and
  -- holds the source, and a unit that `Ipv6Prefix::new` accepts, so the code's `expect` does not
  -- panic; the prefix covers the unit and the unit covers the observed unit.
  pub parse_excluding-UnitsNest :
      (token : Bytes) (source : ℕ) (now : ℤ) (ineligible : List Ipv6Prefix) {u : Unverified}
      → IsAddr source
      → parse_excluding cbor token source now ineligible ≡ ok u
      → UnitsNest u source
  parse_excluding-UnitsNest token source now ineligible {u} fits h =
      let v = (parse_excluding_iff cbor token source now ineligible u).0 h in
      let (es, decoded, reads) = ClaimOf-Reads cbor v.cose.payload v.payload_read in
      let valid = payload-IsPrefix v.cose.payload es decoded reads in
      let fine : v.payload.unit ≤ 64 = reads.checked.unit_le in
      subst (λ w. UnitsNest w source) (sym v.result)
        (record {
          prefix_valid = valid;
          observed = refl;
          observed_holds = unit_at-contains source 64 fits (omega arith);
          claimed_built = unfold new in ground arith;
          claimed_covers = unit_at-Covers source v.payload.unit 64 fits fine (omega arith);
          prefix_covers =
              prefix-Covers source v.payload.unit valid fits v.connects.member reads.checked.unit_ge
                (omega arith);
        })
