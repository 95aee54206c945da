-- ===== src/Receive/Order.antt =====
-- In which order the receiver asks for names, and what it reports.
use mathlib.Core.Path.{subst}
use swornmail.Prelude.{ℕ, ◌≡◌, ap, ◌⊎◌, inl, inr, some, List, [], ◌∷◌, Option-cases}
use swornmail.Prelude.Results.{ok, err, Result-cases}
use swornmail.Text.{Bytes}
use swornmail.Text.Ipv6.{parse_ipv6}
use swornmail.Reason.{Reason}
use swornmail.Record.{PolicyRecord, parse_policy, parse_key}
use swornmail.Token.{Unverified, parse, authorize}
use swornmail.Receive.{Run}
use swornmail.Receive.Endings.{
  Setting, run, policy_name, key_name, authorized, PolicyRead, Consents, Local, authorize_cases,
  ends_locally, ends_without_policy, ends_unauthorized, ends_without_key, ends_with_report,
  ends_at_address,
}

module _ (s : Setting) where
  -- The names asked for, and why.
  abbrev pub Order : List Bytes → Type 0
  Order names =
      ((names ≡ []) × ((u : Unverified) → ¬ Local s u))
      ⊎ ((u : Unverified) × Local s u
          × (((names ≡ policy_name u ∷ [])
                × ((policy : PolicyRecord) → PolicyRead s u policy → ¬ Consents u policy))
              ⊎ ((policy : PolicyRecord) × PolicyRead s u policy
                  × Consents u policy
                  × (names ≡ policy_name u ∷ key_name u ∷ []))))

  found_once : (u : Unverified) {p q : PolicyRecord} → PolicyRead s u p → PolicyRead s u q → p ≡ q
  found_once u h k = cc

  fails_once :
      (source : ℕ) {r : Reason}
      → parse_ipv6 s.source_str ≡ some source
      → parse s.cbor s.token source s.now ≡ err r
      → (u : Unverified) → ¬ Local s u
  fails_once source a failed u (x, b, h) =
      let same : x ≡ source = cc in cc (subst (λ y. parse s.cbor s.token y s.now ≡ ok u) same h)

  both_names :
      (source : ℕ)
      → parse_ipv6 s.source_str ≡ some source
      → (u : Unverified) → parse s.cbor s.token source s.now ≡ ok u
      → (policy : PolicyRecord) → PolicyRead s u policy
      → authorize u policy ≡ ok (authorized u policy)
      → (run s).queries ≡ policy_name u ∷ key_name u ∷ []
  both_names source a u local policy read granted =
      elim (Result-cases (parse_key s.dalek s.base64 (s.lookup_txt (key_name u)))) [
        | inl (key, found) ↦
            ap Run.queries (ends_with_report s source a u local policy read granted found)
        | inr (e, failed) ↦
            ap Run.queries (ends_without_key s source a u local policy read granted failed)
      ]

  policy-Order :
      (u : Unverified)
      → Local s u
      → (policy : PolicyRecord) → PolicyRead s u policy
      → Order (run s).queries
  policy-Order u (source, a, local) policy read = elim (authorize_cases u policy) [
    | inr (refuses, r, failed) ↦
        let ends = ends_unauthorized s source a u local policy read failed in
        inr (
          u,
          (source, a, local),
          inl (
            ap Run.queries ends,
            λ other same c. refuses (subst (Consents u) (found_once u same read) c),
          ),
        )
    | inl (consents, granted) ↦ inr (
      u,
      (source, a, local),
      inr (policy, read, consents, both_names source a u local policy read granted),
    )
  ]

  -- The receiver of the crate's documentation asks for no name if the source's text or the token
  -- fails the local checks, for the policy's name alone if no policy that parses is found there or
  -- it does not authorize the token with its unit, and for the policy's name and then the key's if
  -- it does.
  pub receive-Order : Order (run s).queries
  receive-Order = elim (Option-cases (parse_ipv6 s.source_str)) [
    | inl n ↦ inl (ap Run.queries (ends_at_address s n), λ u (x, e, h). cc)
    | inr (source, a) ↦ elim (Result-cases (parse s.cbor s.token source s.now)) [
      | inr (r, failed) ↦ inl (
        ap Run.queries (ends_locally s source a failed),
        λ u (x, b, h). fails_once source a failed u (x, b, h),
      )
      | inl (u, local) ↦ elim (Result-cases (parse_policy (s.lookup_txt (policy_name u)))) [
        | inr (e, failed) ↦
            let ends = ends_without_policy s source a u local failed in
            inr (u, (source, a, local), inl (ap Run.queries ends, λ policy read. cc))
        | inl (policy, read) ↦ policy-Order u (source, a, local) policy read
      ]
    ]
  ]
