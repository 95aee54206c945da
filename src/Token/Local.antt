-- ===== src/Token/Local.antt =====
-- The checks that need no key: `parse_excluding` and `parse`.
use swornmail.Prelude.{
  ℕ, ◌+◌, ◌≤◌, ◌≡◌, sym, ap, ◌↔◌, Bool, true, false, not, List, arith, ltb, leb_iff, any, length,
}
use swornmail.Prelude.Int.{ℤ, pos, ◌≤ℤ◌, ◌+ℤ◌}
use swornmail.Prelude.Results.{ok, >>=-eq-ok, ensure-eq-ok}
use swornmail.Text.{Bytes}
use swornmail.Address.{Ipv6Prefix, contains, is_eligible_source}
use swornmail.Reason.{malformed}
use swornmail.Backend.{Ciborium}
use swornmail.Payload.{Payload}
use swornmail.Cose.{CoseSign1, check_headers, parse_cose}
use swornmail.Token.{
  Unverified, check_connection, parse_payload, parse_excluding, pending_of, max_token_len,
}
use swornmail.Cose.Rules.{HeaderRules, check_headers_iff}
use swornmail.Cose.Envelope.{Envelope, parse_cose_iff}
use swornmail.Token.Claim.{ClaimOf, parse_payload_iff}

abbrev pub excluded : List Ipv6Prefix → ℕ → Bool
excluded ineligible source = any (λ p. contains p source) ineligible

-- What the connection must satisfy: an eligible source inside the prefix, at a time in the validity
-- window with 300 seconds of tolerance at both edges.
pub record Connects (payload : Payload) (source : ℕ) (now : ℤ) (ineligible : List Ipv6Prefix)
    : Type 0 where
  pub eligible : is_eligible_source source ≡ true
  pub not_excluded : excluded ineligible source ≡ false
  pub not_early : pos payload.iat ≤ℤ now +ℤ pos 300
  pub not_late : now ≤ℤ pos (payload.exp + 300)
  pub member : contains payload.prefix source ≡ true

pub check_connection_iff :
    (payload : Payload) (source : ℕ) (now : ℤ) (ineligible : List Ipv6Prefix)
    → (check_connection payload source now ineligible ≡ ok tt)
      ↔ Connects payload source now ineligible
unfolding check_connection
check_connection_iff payload source now ineligible = (λ h. ground arith, λ c. ground arith)

module _ (cbor : Ciborium) where
  -- What `parse_excluding` has established when it returns a token.
  pub record LocallyValid (token : Bytes) (source : ℕ) (now : ℤ) (ineligible : List Ipv6Prefix)
      (u : Unverified) : Type 0 where
    pub cose : CoseSign1
    pub selector : Bytes
    pub payload : Payload
    pub bounded : length token ≤ 3072
    pub cose_read : Envelope cbor token cose
    pub headers : HeaderRules cose selector
    pub payload_read : ClaimOf cbor cose.payload payload
    pub connects : Connects payload source now ineligible
    pub result : u ≡ pending_of cbor cose selector payload source

  module _ (token : Bytes) (source : ℕ) (now : ℤ) (ineligible : List Ipv6Prefix)
      (u : Unverified) where
    local_sound :
        parse_excluding cbor token source now ineligible ≡ ok u
        → LocallyValid token source now ineligible u
    unfolding parse_excluding
    local_sound h =
        let (bounded, h₁) = ensure-eq-ok (not (ltb max_token_len (length token))) malformed _ h in
        let (cose, read, h₂) = >>=-eq-ok (parse_cose cbor token) _ h₁ in
        let (selector, checked, h₃) = >>=-eq-ok (check_headers cose) _ h₂ in
        let (payload, parsed, h₄) = >>=-eq-ok (parse_payload cbor cose.payload) _ h₃ in
        let (done, connected, h₅) =
          >>=-eq-ok (check_connection payload source now ineligible)
            (λ _. ok (pending_of cbor cose selector payload source)) h₄ in
        record {
          cose = cose;
          selector = selector;
          payload = payload;
          bounded = omega (arith, (leb_iff (length token) 3072).0 (ground (arith, bounded)));
          cose_read = (parse_cose_iff cbor token cose).0 read;
          headers = (check_headers_iff cose selector).0 checked;
          payload_read = (parse_payload_iff cbor cose.payload payload).0 parsed;
          connects = (check_connection_iff payload source now ineligible).0 connected;
          result = cc h₅;
        }

    local_complete :
        LocallyValid token source now ineligible u
        → parse_excluding cbor token source now ineligible ≡ ok u
    unfolding parse_excluding
    local_complete v =
        let fits : not (ltb max_token_len (length token)) ≡ true = ground (arith, v.bounded) in
        rw fits (
          rw ((parse_cose_iff cbor token v.cose).1 v.cose_read) (
            rw ((check_headers_iff v.cose v.selector).1 v.headers) (
              rw ((parse_payload_iff cbor v.cose.payload v.payload).1 v.payload_read) (
                rw ((check_connection_iff v.payload source now ineligible).1 v.connects)
                  (ap ok (sym v.result))))))

    -- `parse_excluding` returns a token exactly when the octets are at most 3072, they are a COSE
    -- envelope, its headers meet the header rules, its payload is a claim's octets, and the
    -- connection has an eligible source outside the receiver's prefixes and inside the token's
    -- prefix, at a time at most 300 seconds before `iat` or after `exp`, and the token is the one
    -- made of these parts.
    pub parse_excluding_iff :
        (parse_excluding cbor token source now ineligible ≡ ok u)
        ↔ LocallyValid token source now ineligible u
    parse_excluding_iff = (local_sound, local_complete)

module _ (cbor : Ciborium) where
  -- The octets of the token determine the payload.
  pub same_payload :
      {token : Bytes} {s s' : ℕ} {n n' : ℤ} {xs xs' : List Ipv6Prefix} {u u' : Unverified}
      (v : LocallyValid cbor token s n xs u) (v' : LocallyValid cbor token s' n' xs' u')
      → v.payload ≡ v'.payload
  same_payload {token} v v' =
      let cose : v.cose ≡ v'.cose = cc (
        (parse_cose_iff cbor token v.cose).1 v.cose_read,
        (parse_cose_iff cbor token v'.cose).1 v'.cose_read,
      ) in
      cc (
        cose,
        (parse_payload_iff cbor v.cose.payload v.payload).1 v.payload_read,
        (parse_payload_iff cbor v'.cose.payload v'.payload).1 v'.payload_read,
      )
