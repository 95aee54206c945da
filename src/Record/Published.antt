-- ===== src/Record/Published.antt =====
-- All texts that are policy records, and what each says.
use mathlib.Core.Path.{subst}
use swornmail.Prelude.{
  ℕ, ◌≤◌, ◌≡◌, refl, sym, ap, ◌∙◌, ◌↔◌, ◌⊎◌, inl, inr, true, not, Option, none, some, List, [], ◌∷◌,
  arith, ltb, any, All, Any, within, Bool-cases, Bool-ext,
}
use swornmail.Prelude.Results.{
  Result, ok, err, ensure, ◌>>=◌, ◌>>◌, >>=-eq-ok, ensure-eq-ok, ok_or-eq-ok,
}
use swornmail.Text.{Bytes, codes, split, bytes_eq, bytes_eq_iff, decimal}
use swornmail.Address.{Ipv6Prefix, is_attestable}
use swornmail.Address.Parse.{ParsePrefixError, parse_prefix, parse_decimal}
use swornmail.Address.Decimal.{parse_decimal_iff}
use swornmail.Record.{
  bad_value, get, Tag, PolicyRecord, entry_error, read_prefix, read_prefixes, listed,
  policy_prefixes, policy_unit, policy_testing, policy_rua, valid_rua, parse_policy, parse_tags,
}
use swornmail.Record.Policy.{finer}
use swornmail.Record.Write.{policy_unit-decimal, fine_enough}
use swornmail.Record.Rua.{IsReport, valid_rua_iff}

-- The entries are the texts of attestable prefixes, one for one.
abbrev pub Entries : List Bytes → List Ipv6Prefix → Type 0
Entries [] [] = Unit
Entries (text ∷ texts) (p ∷ ps) =
    ((parse_prefix text ≡ ok p) × (is_attestable p ≡ true)) × Entries texts ps
Entries _ _ = ⊥

-- What the values of `p`, `u` and `rua` say.
abbrev pub SaysPrefixes : Option Bytes → List Ipv6Prefix → Type 0
SaysPrefixes o ps =
    ((o ≡ none) × (ps ≡ [])) ⊎ ((list : Bytes) × (o ≡ some list) × Entries (listed list) ps)

abbrev pub SaysUnit : Option Bytes → ℕ → Type 0
SaysUnit o n = ((o ≡ none) × (n ≡ 64)) ⊎ ((o ≡ some (decimal n)) × (1 ≤ n) × (n ≤ 64))

abbrev pub SaysRua : Option Bytes → Option Bytes → Type 0
SaysRua o r =
    ((o ≡ none) × (r ≡ none))
    ⊎ ((value : Bytes) × (o ≡ some value) × IsReport value × (r ≡ some value))

-- What the tags say of each field of a policy.
pub record Says (tags : List Tag) (policy : PolicyRecord) : Type 0 where
  pub prefixes : SaysPrefixes (get tags (codes "p")) policy.prefixes
  pub unit : SaysUnit (get tags (codes "u")) policy.unit
  pub testing : (policy.testing ≡ true) ↔ (
      (flags : Bytes) × (get tags (codes "t") ≡ some flags)
      × Any (λ flag. flag ≡ codes "y") (split b':' flags))
  pub rua : SaysRua (get tags (codes "rua")) policy.rua
  pub fine : All (λ p. Ipv6Prefix.len p ≤ policy.unit) policy.prefixes

pub read_prefix_iff :
    (text : Bytes) (p : Ipv6Prefix)
    → (read_prefix text ≡ ok p) ↔ ((parse_prefix text ≡ ok p) × (is_attestable p ≡ true))
unfolding read_prefix
read_prefix_iff text p = (λ h. sound (parse_prefix text) h, λ (a, b). rw a (rw b refl))
  where
    sound :
        (m : Result ParsePrefixError Ipv6Prefix)
        → (entry_error m >>= λ q. (ensure (is_attestable q) (bad_value (codes "p")) >> ok q)) ≡ ok p
        → (m ≡ ok p) × (is_attestable p ≡ true)
    sound (ok q) h = ground arith
    sound (err e) h = cc

pub read_prefixes_iff :
    (texts : List Bytes) (ps : List Ipv6Prefix) → (read_prefixes texts ≡ ok ps) ↔ Entries texts ps
unfolding read_prefixes
read_prefixes_iff [] [] = (λ h. tt, λ h. refl)
read_prefixes_iff [] (p ∷ ps) = (λ h. cc, λ h. absurd h)
read_prefixes_iff (text ∷ texts) [] = (
  λ h.
      let (p, one, h₁) = >>=-eq-ok (read_prefix text) _ h in
      let (rest, more, h₂) = >>=-eq-ok (read_prefixes texts) _ h₁ in cc h₂,
  λ h. absurd h,
)
read_prefixes_iff (text ∷ texts) (p ∷ ps) = (
  λ h.
      let (q, one, h₁) = >>=-eq-ok (read_prefix text) _ h in
      let (rest, more, h₂) = >>=-eq-ok (read_prefixes texts) _ h₁ in
      let first : q ≡ p = cc h₂ in
      let others : rest ≡ ps = cc h₂ in
      (
        (read_prefix_iff text p).0 (one ∙ ap ok first),
        (read_prefixes_iff texts ps).0 (more ∙ ap ok others),
      ),
  λ (one, more).
      rw ((read_prefix_iff text p).1 one) (rw ((read_prefixes_iff texts ps).1 more) refl),
)

pub prefixes_iff :
    (o : Option Bytes) (ps : List Ipv6Prefix) → (policy_prefixes o ≡ ok ps) ↔ SaysPrefixes o ps
unfolding policy_prefixes
prefixes_iff none ps = (
  λ h. inl (refl, cc h),
  λ h. elim h [ inl (e, k) ↦ ap ok (sym k) | inr (list, e, k) ↦ absurd cc ],
)
prefixes_iff (some list) ps = (
  λ h. inr (list, refl, (read_prefixes_iff (listed list) ps).0 h),
  λ h. elim h [
    | inl (e, k) ↦ absurd cc
    | inr (other, e, k) ↦
        let same : other ≡ list = cc in
        (read_prefixes_iff (listed list) ps).1 (subst (λ l. Entries (listed l) ps) same k)
  ],
)

pub unit_iff : (o : Option Bytes) (n : ℕ) → (policy_unit o ≡ ok n) ↔ SaysUnit o n
unfolding policy_unit
unit_iff none n = (λ h. inl (refl, ground arith), λ h. ground arith)
unit_iff (some value) n = (
  λ h.
      let (m, read, h₁) = ok_or-eq-ok (parse_decimal value) (bad_value (codes "u")) _ h in
      let (inside, h₂) = ensure-eq-ok (within 1 64 m) (bad_value (codes "u")) (ok m) h₁ in
      let same : m ≡ n = cc h₂ in
      let text : value ≡ decimal n = ((parse_decimal_iff value m).0 read).1 ∙ ap decimal same in
      inr (ap some text, ground arith, ground arith),
  λ h. elim h [
    | inl (e, k) ↦ absurd cc
    | inr (e, lo, hi) ↦ ap policy_unit e ∙ policy_unit-decimal n lo hi
  ],
)

any-flag_iff :
    (flags : List Bytes)
    → (any (λ flag. bytes_eq flag (codes "y")) flags ≡ true) ↔ Any (λ flag. flag ≡ codes "y") flags
any-flag_iff [] = (λ h. cc, λ h. absurd h)
any-flag_iff (flag ∷ flags) = elim (Bool-cases (bytes_eq flag (codes "y"))) [
  | inl e ↦ (λ h. inl ((bytes_eq_iff flag (codes "y")).0 e), λ h. rw e refl)
  | inr n ↦ (
    λ h. inr ((any-flag_iff flags).0 (ground arith)),
    λ h. elim h [
      | inl e ↦ absurd (ground (arith, (bytes_eq_iff flag (codes "y")).1 e))
      | inr a ↦ rw n ((any-flag_iff flags).1 a)
    ],
  )
]

testing_iff :
    (o : Option Bytes)
    → (policy_testing o ≡ true)
      ↔ ((flags : Bytes) × (o ≡ some flags) × Any (λ flag. flag ≡ codes "y") (split b':' flags))
unfolding policy_testing
testing_iff none = (λ h. cc, λ (f, e, a). cc)
testing_iff (some flags) = (
  λ h. (flags, refl, (any-flag_iff (split b':' flags)).0 h),
  λ (f, e, a).
      let same : flags ≡ f = cc in
      (any-flag_iff (split b':' flags)).1
        (subst (λ g. Any (λ flag. flag ≡ codes "y") (split b':' g)) (sym same) a),
)

pub rua_iff : (o r : Option Bytes) → (policy_rua o ≡ ok r) ↔ SaysRua o r
unfolding policy_rua
rua_iff none r = (λ h. inl (refl, ground arith), λ h. ground arith)
rua_iff (some value) r = (
  λ h. elim (Bool-cases (valid_rua value)) [
    | inl e ↦ inr (value, refl, (valid_rua_iff value).0 e, ground arith)
    | inr n ↦ absurd (ground arith)
  ],
  λ h. elim h [
    | inl (e, k) ↦ absurd cc
    | inr (v, e, report, k) ↦
        let same : v ≡ value = cc in
        rw ((valid_rua_iff value).1 (subst IsReport same report)) (ground arith)
  ],
)

module _ (tags : List Tag) where
  abbrev built : List Ipv6Prefix → ℕ → Option Bytes → PolicyRecord
  built ps unit rua = record {
    prefixes = ps;
    unit = unit;
    testing = policy_testing (get tags (codes "t"));
    rua = rua;
  }

-- A text parses to a policy exactly when its tags parse and say it: the prefixes are none without
-- `p` and else the first 64 entries of `p` that are not empty, each the text of an attestable
-- prefix; the unit is 64 without `u` and else from 1 to 64 with `u` its decimal form; the testing
-- flag is set exactly when `y` is among the flags of `t`; the report address is none without `rua`
-- and else the value of `rua`, of the right form; and no prefix is longer than the unit.
pub parse_policy_iff :
    (txt : Bytes) (policy : PolicyRecord)
    → (parse_policy txt ≡ ok policy)
      ↔ ((tags : List Tag) × (parse_tags txt ≡ ok tags) × Says tags policy)
unfolding parse_policy
parse_policy_iff txt policy = (
  λ h.
      let (tags, read, h₁) = >>=-eq-ok (parse_tags txt) _ h in
      let (ps, listed_ps, h₂) = >>=-eq-ok (policy_prefixes (get tags (codes "p"))) _ h₁ in
      let (unit, unit_read, h₃) = >>=-eq-ok (policy_unit (get tags (codes "u"))) _ h₂ in
      let (rua, rua_read, h₄) = >>=-eq-ok (policy_rua (get tags (codes "rua"))) _ h₃ in
      let (fine, h₅) =
        ensure-eq-ok (not (any (λ p. ltb unit (Ipv6Prefix.len p)) ps)) (bad_value (codes "u")) _
          h₄ in
      let same : built tags ps unit rua ≡ policy = cc h₅ in
      (
        tags,
        read,
        subst (Says tags) same (record {
          prefixes = (prefixes_iff (get tags (codes "p")) ps).0 listed_ps;
          unit = (unit_iff (get tags (codes "u")) unit).0 unit_read;
          testing = testing_iff (get tags (codes "t"));
          rua = (rua_iff (get tags (codes "rua")) rua).0 rua_read;
          fine = finer unit ps (ground (arith, fine));
        }),
      ),
  λ (tags, read, s).
      let t = testing_iff (get tags (codes "t")) in
      let flag =
        Bool-ext (policy_testing (get tags (codes "t"))) policy.testing
          (λ h. s.testing.1 (t.0 h), λ h. t.1 (s.testing.0 h)) in
      rw read (
        rw ((prefixes_iff (get tags (codes "p")) policy.prefixes).1 s.prefixes) (
          rw ((unit_iff (get tags (codes "u")) policy.unit).1 s.unit) (
            rw ((rua_iff (get tags (codes "rua")) policy.rua).1 s.rua)
              (rw (fine_enough policy.unit policy.prefixes s.fine) (rw flag refl))))),
)
