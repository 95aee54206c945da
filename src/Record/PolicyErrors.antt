-- ===== src/Record/PolicyErrors.antt =====
-- Which error a text gives that is no policy record.
use mathlib.Core.Path.{subst}
use swornmail.Prelude.{
  ℕ, ◌≤◌, ◌<◌, ◌≡◌, ◌≢◌, refl, sym, ap, ◌∙◌, ◌↔◌, true, Option, none, some, List, [], ◌∷◌, arith,
  any, ltb, Any, Bool-cases, inl, inr,
}
use swornmail.Prelude.Results.{
  Result, ok, err, ◌>>=◌, ◌>>◌, ensure, >>=-eq-err, ok_or-eq-err, Result-cases,
}
use swornmail.Text.{Bytes, codes, decimal}
use swornmail.Address.{Ipv6Prefix, is_attestable}
use swornmail.Address.Parse.{ParsePrefixError, parse_prefix, parse_decimal}
use swornmail.Record.{
  RecordError, bad_value, Tag, get, parse_tags, entry_error, read_prefix, read_prefixes, listed,
  policy_prefixes, policy_unit, policy_rua, valid_rua, parse_policy,
}
use swornmail.Record.Refusals.{TagsRefused, parse_tags-err_iff}
use swornmail.Record.Published.{
  SaysPrefixes, SaysUnit, SaysRua, prefixes_iff, rua_iff, read_prefix_iff, unit_iff,
}
use swornmail.Record.Rua.{IsReport, valid_rua_iff}

-- An entry of `p` that is no prefix, or a prefix that is not attestable.
abbrev pub BadEntry : Bytes → Type 0
BadEntry text = ¬ ((p : Ipv6Prefix) × (parse_prefix text ≡ ok p) × (is_attestable p ≡ true))

abbrev pub LacksUnit : Bytes → Type 0
LacksUnit value = (n : ℕ) → 1 ≤ n → n ≤ 64 → value ≢ decimal n

-- Why a text is no policy record: its tags, an entry of `p` among the first 64 that are not empty,
-- the value of `u`, the value of `rua`, or a prefix that is longer than the unit.
pub data PolicyRefused (txt : Bytes) : RecordError → Type 0 where
  by_tags : (e : RecordError) → TagsRefused txt e → PolicyRefused txt e
  by_entry :
      (tags : List Tag) (list : Bytes)
      → parse_tags txt ≡ ok tags
      → get tags (codes "p") ≡ some list
      → Any BadEntry (listed list)
      → PolicyRefused txt (bad_value (codes "p"))
  by_unit :
      (tags : List Tag) (ps : List Ipv6Prefix) (value : Bytes)
      → parse_tags txt ≡ ok tags
      → SaysPrefixes (get tags (codes "p")) ps
      → get tags (codes "u") ≡ some value
      → LacksUnit value
      → PolicyRefused txt (bad_value (codes "u"))
  by_rua :
      (tags : List Tag) (ps : List Ipv6Prefix) (unit : ℕ) (value : Bytes)
      → parse_tags txt ≡ ok tags
      → SaysPrefixes (get tags (codes "p")) ps
      → SaysUnit (get tags (codes "u")) unit
      → get tags (codes "rua") ≡ some value
      → ¬ IsReport value
      → PolicyRefused txt (bad_value (codes "rua"))
  by_width :
      (tags : List Tag) (ps : List Ipv6Prefix) (unit : ℕ) (rua : Option Bytes)
      → parse_tags txt ≡ ok tags
      → SaysPrefixes (get tags (codes "p")) ps
      → SaysUnit (get tags (codes "u")) unit
      → SaysRua (get tags (codes "rua")) rua
      → Any (λ p. unit < Ipv6Prefix.len p) ps
      → PolicyRefused txt (bad_value (codes "u"))

read_prefix-eq-err :
    (text : Bytes) (e : RecordError)
    → read_prefix text ≡ err e
    → (e ≡ bad_value (codes "p")) × BadEntry text
unfolding read_prefix
read_prefix-eq-err text e h = (
  reason (parse_prefix text) h,
  λ (p, read, attestable). cc (h, (read_prefix_iff text p).1 (read, attestable)),
)
  where
    reason :
        (m : Result ParsePrefixError Ipv6Prefix)
        → (entry_error m >>= λ q. (ensure (is_attestable q) (bad_value (codes "p")) >> ok q))
          ≡ err e
        → e ≡ bad_value (codes "p")
    reason (ok q) h = ground arith
    reason (err _) h = cc h

BadEntry-read_prefix :
    (text : Bytes) → BadEntry text → read_prefix text ≡ err (bad_value (codes "p"))
BadEntry-read_prefix text h = elim (Result-cases (read_prefix text)) [
  | inl (p, read) ↦
      let (parsed, attestable) = (read_prefix_iff text p).0 read in
      absurd (h (p, parsed, attestable))
  | inr (e, bad) ↦ bad ∙ ap err (read_prefix-eq-err text e bad).0
]

read_prefixes-eq-err :
    (texts : List Bytes) (e : RecordError)
    → read_prefixes texts ≡ err e
    → (e ≡ bad_value (codes "p")) × Any BadEntry texts
unfolding read_prefixes
read_prefixes-eq-err [] e h = cc
read_prefixes-eq-err (text ∷ texts) e h = elim (>>=-eq-err (read_prefix text) _ h) [
  | inl bad ↦ let (is, entry) = read_prefix-eq-err text e bad in (is, inl entry)
  | inr (p, read, h₁) ↦ elim (>>=-eq-err (read_prefixes texts) (λ rest. ok (p ∷ rest)) h₁) [
    | inl bad ↦ let (is, entry) = read_prefixes-eq-err texts e bad in (is, inr entry)
    | inr (rest, more, h₂) ↦ absurd cc
  ]
]

BadEntry-read_prefixes :
    (texts : List Bytes) → Any BadEntry texts → read_prefixes texts ≡ err (bad_value (codes "p"))
unfolding read_prefixes
BadEntry-read_prefixes [] h = absurd h
BadEntry-read_prefixes (text ∷ texts) (inl bad) = rw (BadEntry-read_prefix text bad) refl
BadEntry-read_prefixes (text ∷ texts) (inr later) = elim (Result-cases (read_prefix text)) [
  | inl (p, read) ↦ rw read (rw (BadEntry-read_prefixes texts later) refl)
  | inr (e, bad) ↦ rw bad (ap err (read_prefix-eq-err text e bad).0)
]

policy_prefixes-eq-err :
    (o : Option Bytes) (e : RecordError)
    → policy_prefixes o ≡ err e
    → (list : Bytes) × (o ≡ some list) × Any BadEntry (listed list) × (e ≡ bad_value (codes "p"))
unfolding policy_prefixes
policy_prefixes-eq-err none e h = cc
policy_prefixes-eq-err (some list) e h =
    let (is, entry) = read_prefixes-eq-err (listed list) e h in (list, refl, entry, is)

BadEntry-policy_prefixes :
    (list : Bytes)
    → Any BadEntry (listed list)
    → policy_prefixes (some list) ≡ err (bad_value (codes "p"))
unfolding policy_prefixes
BadEntry-policy_prefixes list h = BadEntry-read_prefixes (listed list) h

policy_unit-eq-err :
    (o : Option Bytes) (e : RecordError)
    → policy_unit o ≡ err e
    → (value : Bytes) × (o ≡ some value) × LacksUnit value × (e ≡ bad_value (codes "u"))
unfolding policy_unit
policy_unit-eq-err none e h = cc
policy_unit-eq-err (some value) e h = (
  value,
  refl,
  λ n lo hi is. cc (h, (unit_iff (some value) n).1 (inr (ap some is, lo, hi))),
  elim (ok_or-eq-err (parse_decimal value) (bad_value (codes "u")) _ h) [
    | inl (none_read, is) ↦ is
    | inr (n, read, h₁) ↦ ground (arith, h₁)
  ],
)

LacksUnit-policy_unit :
    (value : Bytes) → LacksUnit value → policy_unit (some value) ≡ err (bad_value (codes "u"))
LacksUnit-policy_unit value h = elim (Result-cases (policy_unit (some value))) [
  | inl (n, read) ↦ elim ((unit_iff (some value) n).0 read) [
    | inl (e, k) ↦ absurd cc
    | inr (e, lo, hi) ↦ absurd (h n lo hi (cc e))
  ]
  | inr (e, bad) ↦
      let (v, is, lacks, reason) = policy_unit-eq-err (some value) e bad in bad ∙ ap err reason
]

policy_rua-eq-err :
    (o : Option Bytes) (e : RecordError)
    → policy_rua o ≡ err e
    → (value : Bytes) × (o ≡ some value) × (¬ IsReport value) × (e ≡ bad_value (codes "rua"))
unfolding policy_rua
policy_rua-eq-err none e h = cc
policy_rua-eq-err (some value) e h = elim (Bool-cases (valid_rua value)) [
  | inl valid ↦ absurd (ground (arith, valid))
  | inr other ↦
      (value, refl, λ is. ground (arith, (valid_rua_iff value).1 is), ground (arith, other))
]

policy_rua-other :
    (value : Bytes) → ¬ IsReport value → policy_rua (some value) ≡ err (bad_value (codes "rua"))
unfolding policy_rua
policy_rua-other value h = elim (Bool-cases (valid_rua value)) [
  | inl valid ↦ absurd (h ((valid_rua_iff value).0 valid))
  | inr other ↦ rw other refl
]

any-wide_iff :
    (unit : ℕ) (ps : List Ipv6Prefix)
    → (any (λ p. ltb unit (Ipv6Prefix.len p)) ps ≡ true) ↔ Any (λ p. unit < Ipv6Prefix.len p) ps
any-wide_iff unit [] = (λ h. cc, λ h. absurd h)
any-wide_iff unit (p ∷ ps) =
    let rest = any-wide_iff unit ps in
    (
      λ h. elim (Bool-cases (ltb unit p.len)) [
        | inl e ↦ inl (ground (arith, e))
        | inr e ↦ inr (rest.0 (ground (arith, e)))
      ],
      λ h. elim h [ inl e ↦ ground (arith, e) | inr a ↦ ground (arith, rest.1 a) ],
    )

module _ (txt : Bytes) where
  PolicyRefused-parse_policy : {e : RecordError} → PolicyRefused txt e → parse_policy txt ≡ err e
  unfolding parse_policy
  PolicyRefused-parse_policy (by_tags e r) = rw ((parse_tags-err_iff txt e).1 r) refl
  PolicyRefused-parse_policy (by_entry tags list read there bad) =
      rw read (rw (ap policy_prefixes there ∙ BadEntry-policy_prefixes list bad) refl)
  PolicyRefused-parse_policy (by_unit tags ps value read prefixes there lacks) = rw read (
      rw ((prefixes_iff (get tags (codes "p")) ps).1 prefixes)
        (rw (ap policy_unit there ∙ LacksUnit-policy_unit value lacks) refl))
  PolicyRefused-parse_policy (by_rua tags ps unit value read prefixes unit_read there other) =
      rw read (
        rw ((prefixes_iff (get tags (codes "p")) ps).1 prefixes) (
          rw ((unit_iff (get tags (codes "u")) unit).1 unit_read)
            (rw (ap policy_rua there ∙ policy_rua-other value other) refl)))
  PolicyRefused-parse_policy (by_width tags ps unit rua read prefixes unit_read rua_read wide) =
      rw read (
        rw ((prefixes_iff (get tags (codes "p")) ps).1 prefixes) (
          rw ((unit_iff (get tags (codes "u")) unit).1 unit_read) (
            rw ((rua_iff (get tags (codes "rua")) rua).1 rua_read)
              (rw ((any-wide_iff unit ps).1 wide) refl))))

  parse_policy-PolicyRefused : (e : RecordError) → parse_policy txt ≡ err e → PolicyRefused txt e
  unfolding parse_policy
  parse_policy-PolicyRefused e h = elim (>>=-eq-err (parse_tags txt) _ h) [
    | inl bad ↦ by_tags e ((parse_tags-err_iff txt e).0 bad)
    | inr (tags, read, h₁) ↦ elim (>>=-eq-err (policy_prefixes (get tags (codes "p"))) _ h₁) [
      | inl bad ↦
          let (list, there, entry, is) = policy_prefixes-eq-err (get tags (codes "p")) e bad in
          subst (PolicyRefused txt) (sym is) (by_entry tags list read there entry)
      | inr (ps, prefixes_read, h₂) ↦
          let prefixes = (prefixes_iff (get tags (codes "p")) ps).0 prefixes_read in
          elim (>>=-eq-err (policy_unit (get tags (codes "u"))) _ h₂) [
            | inl bad ↦
                let (value, there, lacks, is) = policy_unit-eq-err (get tags (codes "u")) e bad in
                subst (PolicyRefused txt) (sym is) (by_unit tags ps value read prefixes there lacks)
            | inr (unit, unit_parsed, h₃) ↦
                let unit_read = (unit_iff (get tags (codes "u")) unit).0 unit_parsed in
                elim (>>=-eq-err (policy_rua (get tags (codes "rua"))) _ h₃) [
                  | inl bad ↦
                      let (value, there, other, is) =
                        policy_rua-eq-err (get tags (codes "rua")) e bad in
                      subst (PolicyRefused txt) (sym is)
                        (by_rua tags ps unit value read prefixes unit_read there other)
                  | inr (rua, rua_parsed, h₄) ↦
                      let rua_read = (rua_iff (get tags (codes "rua")) rua).0 rua_parsed in
                      let wide : any (λ p. ltb unit (Ipv6Prefix.len p)) ps ≡ true =
                        ground (arith, h₄) in
                      let is : bad_value (codes "u") ≡ e = ground (arith, wide, h₄) in
                      subst (PolicyRefused txt) is (
                        by_width tags ps unit rua read prefixes unit_read rua_read
                          ((any-wide_iff unit ps).0 wide))
                ]
          ]
    ]
  ]

  -- `parse_policy` gives an error exactly when the first fault gives it: the tags' own error,
  -- `bad_value` of `p` for an entry among the first 64 that is no attestable prefix, of `u` for a
  -- value that is no decimal form of a number from 1 to 64, of `rua` for a value of another form,
  -- and of `u` for a prefix that is longer than the unit.
  pub parse_policy-err_iff : (e : RecordError) → (parse_policy txt ≡ err e) ↔ PolicyRefused txt e
  parse_policy-err_iff e = (parse_policy-PolicyRefused e, PolicyRefused-parse_policy)
