-- ===== src/Token/Attested.antt =====
-- What an accepted token proves of the connection, the operator's names and the operator's policy.
use mathlib.Core.Path.{subst}
use swornmail.Prelude.{ℕ, ◌≡◌, sym, ap, ◌∙◌, true, List, [], All-map, Any}
use swornmail.Prelude.Int.{ℤ}
use swornmail.Prelude.Results.{ok}
use swornmail.Text.{Bytes, to_ascii_lowercase}
use swornmail.Address.{IsAddr, Ipv6Prefix, IsPrefix, contains, is_attestable, is_eligible_source}
use swornmail.Address.Ranges.{Covers}
use swornmail.Backend.{Ciborium, Dalek}
use swornmail.Dns.{IsLabel, IsDomain}
use swornmail.Key
use swornmail.Payload.{is_operator_domain}
use swornmail.Payload.Domain.{is_label_iff, is_operator_domain_iff}
use swornmail.Payload.Lowercase.{
  lowercase-is_label, lowercase-is_operator_domain, to_ascii_lowercase_idem,
}
use swornmail.Record.{PolicyRecord, parse_policy}
use swornmail.Record.Policy.{PolicyValid, parse_policy-PolicyValid, authorizes_iff}
use swornmail.Token.{
  Unverified, Verified, Outcome, verified, unit_at, parse, parse_excluding, verify,
}
use swornmail.Token.Local.{parse_excluding_iff}
use swornmail.Token.Window.{ClaimOf-Reads}
use swornmail.Token.Reputation.{DecodesOctets, parse_excluding-UnitsNest}
use swornmail.Token.Verdict.{Accepted, verdict, verify_iff}
use swornmail.Token.Diagnostic.{verified-outcome_of}

folded-IsLabel : (s : Bytes) → IsLabel s → IsLabel (to_ascii_lowercase s)
folded-IsLabel s l = (is_label_iff _).0 (lowercase-is_label s ∙ (is_label_iff s).1 l)

folded-IsDomain : (s : Bytes) → is_operator_domain s ≡ true → IsDomain (to_ascii_lowercase s)
folded-IsDomain s h = (is_operator_domain_iff _).0 (lowercase-is_operator_domain s ∙ h)

-- The names from which a receiver builds its DNS queries, in lower case.
pub record QueryNames (operator selector : Bytes) : Type 0 where
  pub operator_domain : IsDomain operator
  pub operator_folded : to_ascii_lowercase operator ≡ operator
  pub selector_label : IsLabel selector
  pub selector_folded : to_ascii_lowercase selector ≡ selector

folded_names :
    (wire kid : Bytes) {operator selector : Bytes}
    → is_operator_domain wire ≡ true
    → operator ≡ to_ascii_lowercase wire
    → IsLabel kid
    → selector ≡ to_ascii_lowercase kid
    → QueryNames operator selector
folded_names wire kid domain o label s = record {
  operator_domain = subst IsDomain (sym o) (folded-IsDomain wire domain);
  operator_folded = ap to_ascii_lowercase o ∙ to_ascii_lowercase_idem wire ∙ sym o;
  selector_label = subst IsLabel (sym s) (folded-IsLabel kid label);
  selector_folded = ap to_ascii_lowercase s ∙ to_ascii_lowercase_idem kid ∙ sym s;
}

module _ (cbor : Ciborium) (token : Bytes) (source : ℕ) (now : ℤ) where
  -- The names from which a receiver builds its DNS queries are safe: the operator of a token that
  -- `parse_excluding` returns is a domain of LDH labels, its selector is one LDH label, and both
  -- are in lower case.
  pub parse_excluding-QueryNames :
      (ineligible : List Ipv6Prefix) {u : Unverified}
      → parse_excluding cbor token source now ineligible ≡ ok u
      → QueryNames u.payload.operator u.selector
  parse_excluding-QueryNames ineligible {u} h =
      let v = (parse_excluding_iff cbor token source now ineligible u).0 h in
      let (es, decoded, reads) = ClaimOf-Reads cbor v.cose.payload v.payload_read in
      let names : QueryNames v.payload.operator v.selector =
        folded_names reads.operator_text v.headers.kid reads.checked.domain reads.checked.folded
          v.headers.kid_label v.headers.selector_folded in
      subst (λ w. QueryNames (Unverified.payload w).operator (Unverified.selector w)) (sym v.result)
        names

  -- The source is attested by the operator of the policy.
  pub record Attested (policy : PolicyRecord) (v : Verified) : Type 0 where
    pub prefix_valid : IsPrefix v.prefix
    pub prefix_attestable : is_attestable v.prefix ≡ true
    pub source_eligible : is_eligible_source source ≡ true
    pub source_inside : contains v.prefix source ≡ true
    pub policy_covers :
        Any (λ allowed. (is_attestable allowed ≡ true) × Covers allowed v.prefix) policy.prefixes
    pub unit_from_policy : v.unit ≡ unit_at source policy.unit
    pub observed : v.observed_unit ≡ unit_at source 64
    pub unit_covers : Covers v.unit v.observed_unit
    pub prefix_covers : Covers v.prefix v.unit

  module _ (octets : DecodesOctets cbor) (dalek : Dalek) (key : Key.Ed25519PublicKey dalek)
      (fits : IsAddr source) where
    Accepted-Attested :
        {policy : PolicyRecord} {o : Outcome}
        → PolicyValid policy
        → (a : Accepted cbor dalek token key policy source now o)
        → Attested policy (verdict a.pending policy.testing policy.rua)
    unfolding parse
    Accepted-Attested {policy} valid a =
        let v = (parse_excluding_iff cbor token source now [] a.pending).0 a.locally_valid in
        let nest = parse_excluding-UnitsNest cbor octets token source now [] fits a.locally_valid in
        let listed = All-map policy.prefixes (λ p l. l.0) valid.listable in
        let (attestable, covers) =
          (authorizes_iff policy a.pending.payload.prefix listed nest.prefix_valid).0
            a.authorized in
        record {
          prefix_valid = nest.prefix_valid;
          prefix_attestable = attestable;
          source_eligible = v.connects.eligible;
          source_inside =
              ap (λ w. contains (Unverified.payload w).prefix source) v.result ∙ v.connects.member;
          policy_covers = covers;
          unit_from_policy =
              ap (λ w. Unverified.unit w) v.result
              ∙ ap (unit_at source)
                  (ap (λ w. (Unverified.payload w).unit) (sym v.result) ∙ sym a.unit_agrees);
          observed = nest.observed;
          unit_covers = nest.claimed_covers;
          prefix_covers = nest.prefix_covers;
        }

    -- If a decoder returns only octets, the source is a 128-bit address, the policy was parsed from
    -- a text and `verify` accepts the token, then the verdict's prefix is a valid attestable prefix
    -- that holds the eligible source, some attestable prefix of the policy covers all of it, the
    -- verdict's unit is the source cut to the policy's unit length, the observed unit is the
    -- source's /64, the unit covers it, and the prefix covers the unit.
    pub verify-Attested :
        (txt : Bytes) (policy : PolicyRecord) (o : Outcome)
        → parse_policy txt ≡ ok policy
        → verify cbor dalek token key policy source now ≡ ok o
        → Attested policy (verified o)
    verify-Attested txt policy o read h =
        let a = (verify_iff cbor dalek token key policy source now o).0 h in
        subst (Attested policy)
          (sym (ap verified a.reported ∙ verified-outcome_of a.pending policy))
          (Accepted-Attested (parse_policy-PolicyValid txt read) a)
