-- ===== src/Receive/Deployment.antt =====
-- An operator's records and tokens, and a receiver: all parts of the crate at work together.
use swornmail.Prelude.{
  ℕ, ◌≡◌, refl, ap, ◌∙◌, ◌^◌, ◌<◌, Bool, true, some, [], ◌∷◌, ◌++◌, All, Any, All-map, Bool-cases,
  inl, inr, if◌then◌else◌,
}
use swornmail.Prelude.Int.{ℤ}
use swornmail.Prelude.Results.{ok}
use swornmail.Text.{Bytes, codes, to_ascii_lowercase}
use swornmail.Text.Ipv6.Display.{display_ipv6}
use swornmail.Text.Ipv6.RoundTrip.{parse_ipv6-display_ipv6}
use swornmail.Address.{is_attestable}
use swornmail.Address.Display.{display_prefix}
use swornmail.Address.Ranges.{Covers}
use swornmail.Backend.{Ciborium, Dalek, Base64}
use swornmail.Key
use swornmail.Payload.{Payload}
use swornmail.Record.{PolicyRecord, authorizes, parse_policy, parse_key}
use swornmail.Record.Print.{IsVisible}
use swornmail.Record.Policy.{PolicyValid, authorizes_iff}
use swornmail.Record.Write.{write_policy, parse_policy-write_policy}
use swornmail.Record.Keys.{write_key, parse_key-write_key}
use swornmail.Token.{unit_at, verify_signature, finish_signature}
use swornmail.Token.Issue.{issue, issued, signed_part, Presented}
use swornmail.Token.Accept.{parse-issue}
use swornmail.Receive.{report, policy_qname, key_qname}
use swornmail.Receive.Endings.{Setting, run, authorized, ends_with_report, authorize-Consents}

-- The line for an accepted token.
abbrev pub accepted_line : Bool → ℕ → Bytes
accepted_line testing source =
    if testing
    then codes "sworn=none policy.testing=y policy.wouldbe=pass"
    else codes "sworn=pass unit=" ++ display_prefix (unit_at source 64)

module _ (cbor : Ciborium) (dalek : Dalek) (base64 : Base64) (lookup_txt : Bytes → Bytes) where
  module _ (p : Payload) (kid signature : Bytes) (policy : PolicyRecord)
      (key : Key.Ed25519PublicKey dalek) (encoded : Bytes) where
    -- What the operator has published and signed.
    pub record Deployed : Type 0 where
      pub policy_valid : PolicyValid policy
      pub policy_published : lookup_txt (policy_qname p.operator) ≡ write_policy policy
      pub unit_agrees : policy.unit ≡ p.unit
      pub covered :
          Any (λ allowed. (is_attestable allowed ≡ true) × Covers allowed p.prefix) policy.prefixes
      pub key_visible : All IsVisible encoded
      pub key_encoded : base64 encoded ≡ some (Key.to_bytes dalek key)
      pub key_taken : Key.from_bytes dalek (Key.to_bytes dalek key) ≡ some key
      pub key_published :
          lookup_txt (key_qname (to_ascii_lowercase kid) p.operator) ≡ write_key encoded
      pub signed : Key.verify dalek key (signed_part cbor p kid) signature ≡ true

    report-issued :
        (source : ℕ)
        → Key.verify dalek key (signed_part cbor p kid) signature ≡ true
        → report
            (verify_signature dalek (authorized (issued cbor p kid signature source) policy) key)
          ≡ accepted_line policy.testing source
    unfolding report verify_signature finish_signature
    report-issued source signed = elim (Bool-cases policy.testing) [
      | inl e ↦ rw signed (rw e refl)
      | inr e ↦ rw signed (rw e refl)
    ]

    module _ (source : ℕ) (now : ℤ) where
      abbrev pub deployed_setting : Setting
      deployed_setting = record {
        lookup_txt = lookup_txt;
        cbor = cbor;
        dalek = dalek;
        base64 = base64;
        token = issue cbor p kid signature;
        source_str = display_ipv6 source;
        now = now;
      }

      authorizes-deployed :
          Deployed → Presented cbor p kid signature source now → authorizes policy p.prefix ≡ true
      authorizes-deployed d t =
          (authorizes_iff policy p.prefix
              (All-map policy.prefixes (λ q l. l.0) d.policy_valid.listable) t.claim.prefix_valid).1
            (t.claim.attestable, d.covered)

      -- If an operator has published a valid policy and a key as the model writes them, the policy
      -- has the claim's unit and an attestable prefix that covers the claim's, base64 and the
      -- signature crate read the key back, and the key verifies the signature of a token issued as
      -- the draft says, then the receiver of the crate's documentation, given that token over a
      -- connection from a 128-bit address that the token allows, asks for the policy's name and
      -- then the key's and prints the line of an accepted token: observe-only if the policy has the
      -- testing flag, and a pass with the source's /64 if not.
      pub receive-deployed :
          Deployed
          → Presented cbor p kid signature source now
          → source < 2 ^ 128
          → run deployed_setting ≡ record {
            queries = policy_qname p.operator ∷ key_qname (to_ascii_lowercase kid) p.operator ∷ [];
            result = ok (accepted_line policy.testing source);
          }
      receive-deployed d t fits =
          let u = issued cbor p kid signature source in
          let granted = authorize-Consents u policy (authorizes-deployed d t, d.unit_agrees) in
          ends_with_report deployed_setting source (parse_ipv6-display_ipv6 source fits) u
            (parse-issue cbor p kid signature source now t) policy
            (ap parse_policy d.policy_published ∙ parse_policy-write_policy policy d.policy_valid)
            granted
            (ap (parse_key dalek base64) d.key_published
              ∙ parse_key-write_key dalek base64 key encoded (Key.to_bytes dalek key) d.key_visible
                  d.key_encoded d.key_taken)
          ∙ ap
              (λ line. record {
                queries =
                    policy_qname p.operator ∷ key_qname (to_ascii_lowercase kid) p.operator ∷ [];
                result = ok line;
              })
              (report-issued source d.signed)
