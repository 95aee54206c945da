-- ===== src/Token/Window.antt =====
-- What the theorems on the parts say of a token that has passed the local checks.
use mathlib.Core.Path.{subst}
use swornmail.Prelude.{ℕ, ◌+◌, ◌≤◌, ◌≡◌, sym, ap, ◌∙◌, [], arith}
use swornmail.Prelude.Int.{ℤ, pos, ◌≤ℤ◌, ◌+ℤ◌}
use swornmail.Prelude.Results.{ok}
use swornmail.Text.{Bytes}
use swornmail.Backend.{Entries, map, pairs, Ciborium}
use swornmail.Payload.{Payload}
use swornmail.Payload.Valid.{Reads}
use swornmail.Cose.{decode_cbor}
use swornmail.Token.{Unverified, parse}
use swornmail.Cose.Envelope.{decode_cbor_iff}
use swornmail.Token.Claim.{ClaimOf}
use swornmail.Token.Local.{same_payload, parse_excluding_iff}

window :
    (iat exp : ℕ) (now now' : ℤ)
    → exp ≤ iat + 86400
    → pos iat ≤ℤ now +ℤ pos 300
    → now' ≤ℤ pos (exp + 300)
    → now' ≤ℤ now +ℤ pos 87000
window iat exp now now' life early late = ground arith

module _ (cbor : Ciborium) where
  -- A claim comes from a map that takes the whole byte string.
  pub ClaimOf-Reads :
      (raw : Bytes) {p : Payload}
      → ClaimOf cbor raw p
      → (es : Entries) × (decode_cbor cbor raw ≡ ok (map es)) × Reads (pairs es) p
  ClaimOf-Reads raw (v, read, untagged, (es, is_map, reads, iat_fits, exp_fits)) =
      (es, (decode_cbor_iff cbor raw v).1 read ∙ ap ok is_map, reads)

  -- If one token is accepted by `parse` at two times, whatever the two sources are, the second time
  -- is at most 87000 seconds, a day and two tolerances, after the first.
  pub parse-window :
      (token : Bytes) (source source' : ℕ) (now now' : ℤ) {u u' : Unverified}
      → parse cbor token source now ≡ ok u
      → parse cbor token source' now' ≡ ok u'
      → now' ≤ℤ now +ℤ pos 87000
  unfolding parse
  parse-window token source source' now now' {u} {u'} h h' =
      let v = (parse_excluding_iff cbor token source now [] u).0 h in
      let v' = (parse_excluding_iff cbor token source' now' [] u').0 h' in
      let (es, decoded, reads) = ClaimOf-Reads v.cose.payload v.payload_read in
      let late : now' ≤ℤ pos (v.payload.exp + 300) =
        subst (λ p. now' ≤ℤ pos (Payload.exp p + 300)) (sym (same_payload cbor v v'))
          v'.connects.not_late in
      window v.payload.iat v.payload.exp now now' reads.checked.lifetime v.connects.not_early late
