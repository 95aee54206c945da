-- ===== src/Record/Policy.antt =====
-- What a parsed policy holds, and what it authorizes.
use mathlib.Core.Path.{subst}
use swornmail.Prelude.{
  ℕ, suc, ◌≤◌, ◌≡◌, refl, ◌↔◌, inl, inr, true, false, not, Option, none, some, List, [], ◌∷◌, arith,
  leb_iff, ltb, any, All, Any, length, select, length-take-le, &&_iff, Bool-cases,
}
use swornmail.Prelude.Results.{Result, ok, err, >>=-eq-ok, ensure-eq-ok}
use swornmail.Text.{Bytes, codes, is_empty, split}
use swornmail.Address.{Ipv6Prefix, IsPrefix, is_attestable}
use swornmail.Address.Ranges.{Covers, Covers-iff}
use swornmail.Address.Parse.{ParsePrefixError, parse_prefix}
use swornmail.Address.Decimal.{parse_prefix-IsPrefix}
use swornmail.Record.{
  bad_value, get, PolicyRecord, entry_error, read_prefix, read_prefixes, listed, policy_prefixes,
  policy_unit, policy_testing, policy_rua, valid_rua, parse_policy, parse_tags, allows, authorizes,
}

-- A prefix that a policy may list.
abbrev pub Listable : Ipv6Prefix → Type 0
Listable p = IsPrefix p × (is_attestable p ≡ true)

-- What holds of every parsed policy.
pub record PolicyValid (policy : PolicyRecord) : Type 0 where
  pub listable : All Listable policy.prefixes
  pub capped : length policy.prefixes ≤ 64
  pub unit_pos : 1 ≤ policy.unit
  pub unit_le : policy.unit ≤ 64
  pub unit_fine : All (λ p. Ipv6Prefix.len p ≤ policy.unit) policy.prefixes
  pub safe_rua : (value : Bytes) → policy.rua ≡ some value → valid_rua value ≡ true

entry_error-eq-ok {ℓ} :
    {A : Type ℓ} (r : Result ParsePrefixError A) {a : A} → entry_error r ≡ ok a → r ≡ ok a
entry_error-eq-ok (ok a) h = ground arith
entry_error-eq-ok (err e) h = cc

read_prefix-Listable : (text : Bytes) {p : Ipv6Prefix} → read_prefix text ≡ ok p → Listable p
unfolding read_prefix
read_prefix-Listable text h =
    let (p, read, h₁) = >>=-eq-ok (entry_error (parse_prefix text)) _ h in
    let (attestable, h₂) = ensure-eq-ok (is_attestable p) (bad_value (codes "p")) (ok p) h₁ in
    let same : p ≡ _ = cc h₂ in
    subst Listable same
      (parse_prefix-IsPrefix text (entry_error-eq-ok (parse_prefix text) read), attestable)

read_prefixes-Listable :
    (texts : List Bytes) {ps : List Ipv6Prefix}
    → read_prefixes texts ≡ ok ps
    → All Listable ps × (length ps ≡ length texts)
unfolding read_prefixes
read_prefixes-Listable [] {ps} h =
    let same : ◌≡◌ {A = List Ipv6Prefix} [] ps = cc h in
    subst (λ qs. All Listable qs × (length qs ≡ 0)) same (tt, refl)
read_prefixes-Listable (text ∷ texts) {ps} h =
    let (p, one, h₁) = >>=-eq-ok (read_prefix text) _ h in
    let (rest, more, h₂) = >>=-eq-ok (read_prefixes texts) _ h₁ in
    let ih = read_prefixes-Listable texts more in
    let same : p ∷ rest ≡ ps = cc h₂ in
    subst (λ qs. All Listable qs × (length qs ≡ suc (length texts))) same
      ((read_prefix-Listable text one, ih.0), omega (arith, ih.1))

policy_prefixes-Listable :
    (o : Option Bytes) {ps : List Ipv6Prefix}
    → policy_prefixes o ≡ ok ps
    → All Listable ps × (length ps ≤ 64)
unfolding policy_prefixes
policy_prefixes-Listable none {ps} h =
    let same : ◌≡◌ {A = List Ipv6Prefix} [] ps = cc h in
    subst (λ qs. All Listable qs × (length qs ≤ 64)) same (tt, omega arith)
policy_prefixes-Listable (some list) h =
    let (valid, size) = read_prefixes-Listable (listed list) h in
    (
      valid,
      omega
          (arith, size, length-take-le 64 (select (λ text. not (is_empty text)) (split b',' list))),
    )

policy_unit-range : (o : Option Bytes) {n : ℕ} → policy_unit o ≡ ok n → (1 ≤ n) × (n ≤ 64)
unfolding policy_unit
policy_unit-range none h = ground arith
policy_unit-range (some value) h = ground arith

policy_rua-valid :
    (o : Option Bytes) {rua : Option Bytes}
    → policy_rua o ≡ ok rua
    → (value : Bytes) → rua ≡ some value
    → valid_rua value ≡ true
unfolding policy_rua
policy_rua-valid none h value e = ground arith
policy_rua-valid (some text) h value e = ground arith

pub finer :
    (unit : ℕ) (ps : List Ipv6Prefix)
    → any (λ p. ltb unit (Ipv6Prefix.len p)) ps ≡ false
    → All (λ p. Ipv6Prefix.len p ≤ unit) ps
finer unit [] h = tt
finer unit (p ∷ ps) h = ground (arith, finer unit ps)

-- A parsed policy lists at most 64 prefixes, each valid and attestable and none longer than the
-- policy's unit, which is between 1 and 64, and its report address, if any, passes `valid_rua`.
pub parse_policy-PolicyValid :
    (txt : Bytes) {policy : PolicyRecord} → parse_policy txt ≡ ok policy → PolicyValid policy
unfolding parse_policy
parse_policy-PolicyValid txt {policy} h =
    let (tags, read, h₁) = >>=-eq-ok (parse_tags txt) _ h in
    let (ps, listed_ps, h₂) = >>=-eq-ok (policy_prefixes (get tags (codes "p"))) _ h₁ in
    let (unit, unit_read, h₃) = >>=-eq-ok (policy_unit (get tags (codes "u"))) _ h₂ in
    let (rua, rua_read, h₄) = >>=-eq-ok (policy_rua (get tags (codes "rua"))) _ h₃ in
    let (fine, h₅) =
      ensure-eq-ok (not (any (λ p. ltb unit (Ipv6Prefix.len p)) ps)) (bad_value (codes "u")) _ h₄ in
    let (valid, size) = policy_prefixes-Listable (get tags (codes "p")) listed_ps in
    let range = policy_unit-range (get tags (codes "u")) unit_read in
    let made : PolicyRecord = record {
      prefixes = ps;
      unit = unit;
      testing = policy_testing (get tags (codes "t"));
      rua = rua;
    } in
    let same : made ≡ policy = cc h₅ in
    subst PolicyValid same (record {
      listable = valid;
      capped = size;
      unit_pos = range.0;
      unit_le = range.1;
      unit_fine = finer unit ps (ground (arith, fine));
      safe_rua = policy_rua-valid (get tags (codes "rua")) rua_read;
    })

allows_iff :
    {token allowed : Ipv6Prefix}
    → IsPrefix token
    → IsPrefix allowed
    → (allows token allowed ≡ true) ↔ ((is_attestable allowed ≡ true) × Covers allowed token)
allows_iff {token} {allowed} vt va =
    let covers = Covers-iff va vt in
    let longer = leb_iff allowed.len token.len in
    (
      λ h. (ground arith, covers.0 (longer.0 (ground arith), ground arith)),
      λ (attestable, c).
          let (len, inside) = covers.1 c in ground (arith, longer.1 len, inside, attestable),
    )

any-allows_iff :
    {token : Ipv6Prefix} (ps : List Ipv6Prefix)
    → IsPrefix token
    → All IsPrefix ps
    → (any (allows token) ps ≡ true)
      ↔ Any (λ allowed. (is_attestable allowed ≡ true) × Covers allowed token) ps
any-allows_iff [] vt vs = (λ h. cc, λ h. absurd h)
any-allows_iff {token} (p ∷ ps) vt (vp, vps) =
    let here = allows_iff vt vp in
    let later = any-allows_iff ps vt vps in
    (
      λ h. elim (Bool-cases (allows token p)) [
        | inl e ↦ inl (here.0 e)
        | inr e ↦ inr (later.0 (ground (arith, e)))
      ],
      λ h. elim h [ inl c ↦ ground (arith, here.1 c) | inr c ↦ ground (arith, later.1 c) ],
    )

-- If the listed prefixes and the token's are valid, a policy authorizes the token's prefix exactly
-- when it is attestable and one listed attestable prefix holds every address of it.
pub authorizes_iff :
    (policy : PolicyRecord) (token : Ipv6Prefix)
    → All IsPrefix policy.prefixes
    → IsPrefix token
    → (authorizes policy token ≡ true) ↔ (
        (is_attestable token ≡ true)
        × Any (λ allowed. (is_attestable allowed ≡ true) × Covers allowed token) policy.prefixes)
unfolding authorizes
authorizes_iff policy token vs vt =
    let listed_one = any-allows_iff policy.prefixes vt vs in
    (
      λ h.
          let (attestable, some_allows) =
            (&&_iff (is_attestable token) (any (allows token) policy.prefixes)).0 h in
          (attestable, listed_one.0 some_allows),
      λ (attestable, c).
          (&&_iff (is_attestable token) (any (allows token) policy.prefixes)).1
            (attestable, listed_one.1 c),
    )
