-- ===== src/Token/Stages.antt =====
-- The reasons of the local checks, by the stage that gives them.
use mathlib.Core.Path.{subst}
use swornmail.Prelude.{
  ℕ, ◌+◌, ◌<◌, ◌≤◌, ◌⊎◌, ◌≡◌, refl, sym, ◌↔◌, true, false, not, List, arith, ltb, length,
  Bool-cases, inl, inr,
}
use swornmail.Prelude.Int.{ℤ, pos, ltb_ℤ, ◌≤ℤ◌, ◌+ℤ◌, ◌-ℤ◌}
use swornmail.Prelude.Results.{ok, err, >>=-eq-err, ensure-eq-err}
use swornmail.Text.{Bytes}
use swornmail.Address.{Ipv6Prefix, contains, is_eligible_source}
use swornmail.Reason.{Reason, malformed, ineligible_source, not_yet_valid, expired, off_prefix}
use swornmail.Backend.{Ciborium}
use swornmail.Payload.{Payload}
use swornmail.Cose.{CoseSign1, check_headers, parse_cose}
use swornmail.Token.{check_connection, parse_payload, parse_excluding, max_token_len, pending_of}
use swornmail.Cose.Envelope.{Envelope, parse_cose_iff}
use swornmail.Cose.Malformed.{parse_cose-err_iff}
use swornmail.Cose.Rules.{HeaderRules, check_headers_iff}
use swornmail.Cose.Refusals.{Broken, check_headers-err_iff}
use swornmail.Token.Claim.{ClaimOf, ClaimRefused, parse_payload_iff, parse_payload-err_iff}
use swornmail.Token.Local.{excluded}

-- The first test of the connection that fails, with its reason.
pub data Disconnects (payload : Payload) (source : ℕ) (now : ℤ) (ineligible : List Ipv6Prefix)
    : Reason → Type 0 where
  by_source :
      ((is_eligible_source source ≡ false) ⊎ (excluded ineligible source ≡ true))
      → Disconnects payload source now ineligible ineligible_source
  by_start :
      is_eligible_source source ≡ true
      → excluded ineligible source ≡ false
      → ¬ (pos payload.iat ≤ℤ now +ℤ pos 300)
      → Disconnects payload source now ineligible not_yet_valid
  by_end :
      is_eligible_source source ≡ true
      → excluded ineligible source ≡ false
      → pos payload.iat ≤ℤ now +ℤ pos 300
      → ¬ (now ≤ℤ pos (payload.exp + 300))
      → Disconnects payload source now ineligible expired
  by_prefix :
      is_eligible_source source ≡ true
      → excluded ineligible source ≡ false
      → pos payload.iat ≤ℤ now +ℤ pos 300
      → now ≤ℤ pos (payload.exp + 300)
      → contains payload.prefix source ≡ false
      → Disconnects payload source now ineligible off_prefix

module _ (payload : Payload) (source : ℕ) (now : ℤ) (ineligible : List Ipv6Prefix) where
  Disconnects-complete :
      {r : Reason}
      → Disconnects payload source now ineligible r
      → check_connection payload source now ineligible ≡ err r
  unfolding check_connection
  Disconnects-complete (by_source e) = ground arith
  Disconnects-complete (by_start a b c) = ground arith
  Disconnects-complete (by_end a b c d) = ground arith
  Disconnects-complete (by_prefix a b c d e) = ground arith

  Disconnects-sound :
      (r : Reason)
      → check_connection payload source now ineligible ≡ err r
      → Disconnects payload source now ineligible r
  unfolding check_connection
  Disconnects-sound r h = elim (Bool-cases (is_eligible_source source)) [
    | inr n ↦ subst (Disconnects payload source now ineligible) (ground arith) (by_source (inl n))
    | inl a ↦ elim (Bool-cases (excluded ineligible source)) [
      | inl x ↦ subst (Disconnects payload source now ineligible) (ground arith) (by_source (inr x))
      | inr b ↦ elim (Bool-cases (ltb_ℤ now (pos payload.iat -ℤ pos 300))) [
        | inl early ↦
            subst (Disconnects payload source now ineligible) (ground arith)
              (by_start a b (ground arith))
        | inr c ↦ elim (Bool-cases (ltb_ℤ (pos payload.exp +ℤ pos 300) now)) [
          | inl late ↦
              subst (Disconnects payload source now ineligible) (ground arith)
                (by_end a b (ground arith) (ground arith))
          | inr d ↦
              subst (Disconnects payload source now ineligible) (ground arith)
                (by_prefix a b (ground arith) (ground arith) (ground arith))
        ]
      ]
    ]
  ]

module _ (cbor : Ciborium) where
  -- The first stage of the local checks that fails, with its reason.
  pub data RefusedLocally (token : Bytes) (source : ℕ) (now : ℤ) (ineligible : List Ipv6Prefix)
      : Reason → Type 0 where
    by_length : 3072 < length token → RefusedLocally token source now ineligible malformed
    by_envelope :
        length token ≤ 3072
        → ((cose : CoseSign1) → ¬ Envelope cbor token cose)
        → RefusedLocally token source now ineligible malformed
    by_headers :
        (r : Reason) (cose : CoseSign1)
        → length token ≤ 3072
        → Envelope cbor token cose
        → Broken cose r
        → RefusedLocally token source now ineligible r
    by_payload :
        (r : Reason) (cose : CoseSign1) (selector : Bytes)
        → length token ≤ 3072
        → Envelope cbor token cose
        → HeaderRules cose selector
        → ClaimRefused cbor cose.payload r
        → RefusedLocally token source now ineligible r
    by_connection :
        (r : Reason) (cose : CoseSign1) (selector : Bytes) (payload : Payload)
        → length token ≤ 3072
        → Envelope cbor token cose
        → HeaderRules cose selector
        → ClaimOf cbor cose.payload payload
        → Disconnects payload source now ineligible r
        → RefusedLocally token source now ineligible r

  fits : (token : Bytes) → length token ≤ 3072 → not (ltb max_token_len (length token)) ≡ true
  fits token n = ground arith

  module _ (token : Bytes) (source : ℕ) (now : ℤ) (ineligible : List Ipv6Prefix) where
    RefusedLocally-complete :
        (r : Reason)
        → RefusedLocally token source now ineligible r
        → parse_excluding cbor token source now ineligible ≡ err r
    unfolding parse_excluding
    RefusedLocally-complete _ (by_length n) = ground arith
    RefusedLocally-complete _ (by_envelope n h) =
        rw (fits token n) (rw ((parse_cose-err_iff cbor token malformed).1 (refl, h)) refl)
    RefusedLocally-complete _ (by_headers r cose n a h) =
        rw (fits token n)
          (rw ((parse_cose_iff cbor token cose).1 a) (rw ((check_headers-err_iff cose r).1 h) refl))
    RefusedLocally-complete _ (by_payload r cose selector n a b h) = rw (fits token n) (
        rw ((parse_cose_iff cbor token cose).1 a) (
          rw ((check_headers_iff cose selector).1 b)
            (rw ((parse_payload-err_iff cbor cose.payload r).1 h) refl)))
    RefusedLocally-complete _ (by_connection r cose selector payload n a b c d) =
        rw (fits token n) (
          rw ((parse_cose_iff cbor token cose).1 a) (
            rw ((check_headers_iff cose selector).1 b) (
              rw ((parse_payload_iff cbor cose.payload payload).1 c)
                (rw (Disconnects-complete payload source now ineligible d) refl))))

    RefusedLocally-sound :
        (r : Reason)
        → parse_excluding cbor token source now ineligible ≡ err r
        → RefusedLocally token source now ineligible r
    unfolding parse_excluding
    RefusedLocally-sound r h =
        elim (ensure-eq-err (not (ltb max_token_len (length token))) malformed _ h) [
          | inl (long, e) ↦
              subst (RefusedLocally token source now ineligible) (sym e)
                (by_length (ground (arith, long)))
          | inr (short, h₁) ↦
              let n : length token ≤ 3072 = ground (arith, short) in
              elim (>>=-eq-err (parse_cose cbor token) _ h₁) [
                | inl e ↦
                    let (is, none_there) = (parse_cose-err_iff cbor token r).0 e in
                    subst (RefusedLocally token source now ineligible) (sym is)
                      (by_envelope n none_there)
                | inr (cose, read, h₂) ↦
                    let a = (parse_cose_iff cbor token cose).0 read in
                    elim (>>=-eq-err (check_headers cose) _ h₂) [
                      | inl e ↦ by_headers r cose n a ((check_headers-err_iff cose r).0 e)
                      | inr (selector, checked, h₃) ↦
                          let b = (check_headers_iff cose selector).0 checked in
                          elim (>>=-eq-err (parse_payload cbor cose.payload) _ h₃) [
                            | inl e ↦
                                by_payload r cose selector n a b
                                  ((parse_payload-err_iff cbor cose.payload r).0 e)
                            | inr (payload, parsed, h₄) ↦
                                let c = (parse_payload_iff cbor cose.payload payload).0 parsed in
                                elim (>>=-eq-err (check_connection payload source now ineligible)
                                  (λ _. ok (pending_of cbor cose selector payload source)) h₄) [
                                    | inl e ↦
                                        by_connection r cose selector payload n a b c
                                          (Disconnects-sound payload source now ineligible r e)
                                    | inr (done, d, h₅) ↦ cc h₅
                                  ]
                          ]
                    ]
              ]
        ]

    -- `parse_excluding` gives a reason exactly when the first stage to fail gives it: `malformed`
    -- for more than 3072 octets and for octets that are no COSE envelope, then the reason of the
    -- first header rule that is broken, then `malformed` for a payload that does not decode or has
    -- a tag on a defined field and the reason of the first check of the claim that fails, then the
    -- reasons for an ineligible or excluded source, a time more than 300 seconds before `iat`, a
    -- time more than 300 seconds after `exp`, and a source outside the prefix.
    pub parse_excluding-err_iff :
        (r : Reason)
        → (parse_excluding cbor token source now ineligible ≡ err r)
          ↔ RefusedLocally token source now ineligible r
    parse_excluding-err_iff r = (RefusedLocally-sound r, RefusedLocally-complete r)
