-- ===== src/Receive/Names.antt =====
-- The names that the receiver asks for.
use mathlib.Core.Path.{subst}
use mathlib.Core.List.{map-append}
use swornmail.Prelude.{
  ℕ, ◌≡◌, ◌∙◌, refl, sym, ap, ◌⊎◌, inl, inr, [], ◌∷◌, ◌++◌, arith, All, All-map, All-append,
}
use swornmail.Text.{Bytes, codes, to_ascii_lowercase, lowercase_byte}
use swornmail.Dns.{IsLdh, IsDomain}
use swornmail.Record.Rua.{join-All}
use swornmail.Token.{Unverified, parse}
use swornmail.Token.Attested.{QueryNames, parse_excluding-QueryNames}
use swornmail.Receive.{policy_qname, key_qname}
use swornmail.Receive.Endings.{Setting, run, Local}
use swornmail.Receive.Order.{receive-Order}

-- A letter, a digit, a hyphen, a dot or an underscore.
abbrev pub IsQueryByte : ℕ → Type 0
IsQueryByte c = IsLdh c ⊎ (c ≡ b'.') ⊎ (c ≡ b'_')

-- A name of such octets, in lower case.
abbrev pub QueryName : Bytes → Type 0
QueryName name = All IsQueryByte name × (to_ascii_lowercase name ≡ name)

QueryName-append : (a b : Bytes) → QueryName a → QueryName b → QueryName (a ++ b)
QueryName-append a b h k = (
  All-append IsQueryByte a b h.0 k.0,
  map-append lowercase_byte a b ∙ ap (λ x. x ++ to_ascii_lowercase b) h.1 ∙ ap (λ x. a ++ x) k.1,
)

IsDomain-QueryBytes : (s : Bytes) → IsDomain s → All IsQueryByte s
IsDomain-QueryBytes s d = subst (All IsQueryByte) (sym d.spelled) (
    join-All IsQueryByte b'.' (inr (inl refl)) (d.first ∷ d.others)
      (All-map (d.first ∷ d.others) (λ w l. All-map w (λ c k. inl k) l.ldh) d.labels))

policy_name-QueryName :
    (operator selector : Bytes) → QueryNames operator selector → QueryName (policy_qname operator)
policy_name-QueryName operator selector n =
    QueryName-append (codes "_prefixes._sworn.") operator (ground arith, refl)
      (IsDomain-QueryBytes operator n.operator_domain, n.operator_folded)

key_name-QueryName :
    (operator selector : Bytes)
    → QueryNames operator selector
    → QueryName (key_qname selector operator)
key_name-QueryName operator selector n =
    QueryName-append (selector ++ codes "._sworn.") operator
      (QueryName-append selector (codes "._sworn.")
        (All-map selector (λ c k. inl k) n.selector_label.ldh, n.selector_folded)
        (ground arith, refl))
      (IsDomain-QueryBytes operator n.operator_domain, n.operator_folded)

module _ (s : Setting) where
  Local-QueryNames : (u : Unverified) → Local s u → QueryNames u.payload.operator u.selector
  unfolding parse
  Local-QueryNames u (source, a, local) =
      parse_excluding-QueryNames s.cbor s.token source s.now [] local

  -- Every name that the receiver of the crate's documentation asks for consists of letters, digits,
  -- hyphens, dots and underscores and is in lower case, whatever the token's octets are.
  pub receive-QueryName : All QueryName (run s).queries
  receive-QueryName = elim (receive-Order s) [
    | inl (e, h) ↦ subst (All QueryName) (sym e) tt
    | inr (u, local, inl (e, h)) ↦
        let names = Local-QueryNames u local in
        subst (All QueryName) (sym e)
          (policy_name-QueryName u.payload.operator u.selector names, tt)
    | inr (u, local, inr (policy, read, consents, e)) ↦
        let names = Local-QueryNames u local in
        subst (All QueryName) (sym e) (
          policy_name-QueryName u.payload.operator u.selector names,
          (key_name-QueryName u.payload.operator u.selector names, tt),
        )
  ]
