-- ===== src/Payload/Errors.antt =====
-- The reasons of `from_value`, from the value on.
use mathlib.Core.Path.{subst}
use mathlib.Core.Option as Options
use swornmail.Prelude.{
  ℕ, ◌≡◌, ◌≢◌, ◌⊎◌, refl, sym, ap, ◌∙◌, ◌↔◌, not, Option, none, some, List, [], ◌∷◌, arith, any,
  inl, inr,
}
use swornmail.Prelude.Int.{ℤ, eqb_ℤ}
use swornmail.Prelude.Results.{err, >>=-eq-err, ensure-eq-err, ok_or-eq-err, Result-cases}
use swornmail.Text.{Bytes}
use swornmail.Reason.{Reason, malformed}
use swornmail.Backend.{Value, integer, bytes, text, map, Entries, pairs}
use swornmail.Payload.{
  Collected, nothing, text_of, bytes_of, uint, store, collect_entry, collect, validate, from_value,
  check_fields, key_operator, key_prefix, key_unit, key_iat, key_exp, key_role,
}
use swornmail.Payload.Fields.{find, uint_value, Describes, collect-Describes}
use swornmail.Payload.Entries.{
  WellTyped, Faulty, Faulty-WellTyped, collect-Faulty, collect-WellTyped, WellTyped-collect,
}
use swornmail.Payload.Complete.{text_inside, bytes_inside, uint_inside}
use swornmail.Payload.Rejects.{Rejects, fields_complete, fields_sound}

store-malformed :
    (k : ℤ) (v : Value) (c : Collected) {r : Reason} → store k v c ≡ err r → r ≡ malformed
unfolding store text_of bytes_of uint
store-malformed k v c h = ground arith

entry-malformed :
    (k v : Value) (c : Collected) {r : Reason} → collect_entry k v c ≡ err r → r ≡ malformed
unfolding collect_entry
entry-malformed (integer i) v c h =
    elim (ensure-eq-err (not (any (eqb_ℤ i) c.seen)) malformed _ h) [
      | inl (a, e) ↦ e
      | inr (a, h₁) ↦ store-malformed i v _ h₁
    ]
entry-malformed _ v c h = cc

-- Whatever is wrong with an entry, the reason is the same.
collect-malformed :
    (es : List (Value × Value)) (c : Collected) {r : Reason} → collect es c ≡ err r → r ≡ malformed
unfolding collect
collect-malformed [] c h = cc
collect-malformed ((k, v) ∷ es) c h = elim (>>=-eq-err (collect_entry k v c) (collect es) h) [
  | inl e ↦ entry-malformed k v c e
  | inr (d, a, h₁) ↦ collect-malformed es d h₁
]

-- A REQUIRED key is not there.
abbrev pub Missing : List (Value × Value) → Type 0
Missing es =
    (find key_operator es ≡ none)
    ⊎ (find key_prefix es ≡ none)
    ⊎ (find key_iat es ≡ none)
    ⊎ (find key_exp es ≡ none)
    ⊎ (find key_role es ≡ none)

-- The values under the defined keys, when no REQUIRED key is missing.
pub record Found (es : List (Value × Value)) : Type 0 where
  pub operator : Bytes
  pub prefix_bytes : Bytes
  pub declared : Option ℕ
  pub iat : ℕ
  pub exp : ℕ
  pub role_text : Bytes
  pub is_operator : find key_operator es ≡ some (text operator)
  pub is_prefix : find key_prefix es ≡ some (bytes prefix_bytes)
  pub is_unit : find key_unit es ≡ Options.map uint_value declared
  pub is_iat : find key_iat es ≡ some (uint_value iat)
  pub is_exp : find key_exp es ≡ some (uint_value exp)
  pub is_role : find key_role es ≡ some (text role_text)

abbrev pub FoundRejects : (es : List (Value × Value)) → Found es → Reason → Type 0
FoundRejects es f = Rejects f.operator f.prefix_bytes f.role_text f.declared f.iat f.exp

-- What is wrong with a value, and the reason.
pub data Wrong (v : Value) : Reason → Type 0 where
  by_kind : ((es : Entries) → v ≢ map es) → Wrong v malformed
  by_entry : (es : Entries) → v ≡ map es → Faulty (pairs es) → Wrong v malformed
  by_absence :
      (es : Entries) → v ≡ map es → WellTyped (pairs es) → Missing (pairs es) → Wrong v malformed
  by_check :
      (r : Reason) (es : Entries)
      → v ≡ map es
      → WellTyped (pairs es)
      → (f : Found (pairs es)) → FoundRejects (pairs es) f r
      → Wrong v r

map-none {ℓ κ} :
    {A : Type ℓ} {B : Type κ} (f : A → B) (o : Option A) → Options.map f o ≡ none → o ≡ none
map-none f none h = refl
map-none f (some a) h = cc

module _ (es : List (Value × Value)) (c : Collected) (d : Describes es c) where
  validate-absent : Missing es → validate c ≡ err malformed
  unfolding validate
  validate-absent (inl h) =
      let e = map-none text c.operator (sym d.operator ∙ h) in ground (arith, e)
  validate-absent (inr (inl h)) =
      let e = map-none bytes c.prefix_bytes (sym d.prefix_bytes ∙ h) in ground (arith, e)
  validate-absent (inr (inr (inl h))) =
      let e = map-none uint_value c.iat (sym d.iat ∙ h) in ground (arith, e)
  validate-absent (inr (inr (inr (inl h)))) =
      let e = map-none uint_value c.exp (sym d.exp ∙ h) in ground (arith, e)
  validate-absent (inr (inr (inr (inr h)))) =
      let e = map-none text c.role_text (sym d.role_text ∙ h) in ground (arith, e)

  validate-present :
      (f : Found es)
      → validate c ≡ check_fields f.operator f.prefix_bytes f.role_text f.declared f.iat f.exp
  unfolding validate
  validate-present f =
      let o = text_inside c.operator (sym d.operator ∙ f.is_operator) in
      let x = bytes_inside c.prefix_bytes (sym d.prefix_bytes ∙ f.is_prefix) in
      let u = uint_inside c.unit f.declared (sym d.unit ∙ f.is_unit) in
      let i = uint_inside c.iat (some f.iat) (sym d.iat ∙ f.is_iat) in
      let e = uint_inside c.exp (some f.exp) (sym d.exp ∙ f.is_exp) in
      let t = text_inside c.role_text (sym d.role_text ∙ f.is_role) in
      rw o (rw x (rw i (rw e (rw t (rw u refl)))))

  validate_sound :
      (r : Reason)
      → validate c ≡ err r
      → (Missing es × (r ≡ malformed)) ⊎ ((f : Found es) × FoundRejects es f r)
  unfolding validate
  validate_sound r h = elim (ok_or-eq-err c.operator malformed _ h) [
    | inl (a, e) ↦ inl (inl (d.operator ∙ ap (Options.map text) a), e)
    | inr (operator, a, h₁) ↦ elim (ok_or-eq-err c.prefix_bytes malformed _ h₁) [
      | inl (b, e) ↦ inl (inr (inl (d.prefix_bytes ∙ ap (Options.map bytes) b)), e)
      | inr (prefix_bytes, b, h₂) ↦ elim (ok_or-eq-err c.iat malformed _ h₂) [
        | inl (i, e) ↦ inl (inr (inr (inl (d.iat ∙ ap (Options.map uint_value) i))), e)
        | inr (iat, i, h₃) ↦ elim (ok_or-eq-err c.exp malformed _ h₃) [
          | inl (x, e) ↦ inl (inr (inr (inr (inl (d.exp ∙ ap (Options.map uint_value) x)))), e)
          | inr (exp, x, h₄) ↦ elim (ok_or-eq-err c.role_text malformed _ h₄) [
            | inl (y, e) ↦ inl (inr (inr (inr (inr (d.role_text ∙ ap (Options.map text) y)))), e)
            | inr (role_text, y, h₅) ↦ inr (
              record {
                operator = operator;
                prefix_bytes = prefix_bytes;
                declared = c.unit;
                iat = iat;
                exp = exp;
                role_text = role_text;
                is_operator = d.operator ∙ ap (Options.map text) a;
                is_prefix = d.prefix_bytes ∙ ap (Options.map bytes) b;
                is_unit = d.unit;
                is_iat = d.iat ∙ ap (Options.map uint_value) i;
                is_exp = d.exp ∙ ap (Options.map uint_value) x;
                is_role = d.role_text ∙ ap (Options.map text) y;
              },
              fields_sound operator prefix_bytes role_text c.unit iat exp r h₅,
            )
          ]
        ]
      ]
    ]
  ]

Wrong-sound : (v : Value) (r : Reason) → from_value v ≡ err r → Wrong v r
unfolding from_value
Wrong-sound (map es) r h = elim (>>=-eq-err (collect (pairs es) nothing) validate h) [
  | inl e ↦
      subst (Wrong (map es)) (sym (collect-malformed (pairs es) nothing e))
        (by_entry es refl (collect-Faulty (pairs es) e))
  | inr (c, a, h₁) ↦
      let typed = collect-WellTyped (pairs es) a in
      elim (validate_sound (pairs es) c (collect-Describes (pairs es) a) r h₁) [
        | inl (missing, e) ↦ subst (Wrong (map es)) (sym e) (by_absence es refl typed missing)
        | inr (f, rejects) ↦ by_check r es refl typed f rejects
      ]
]
Wrong-sound v r h = let same : malformed ≡ r = cc in subst (Wrong v) same (by_kind (λ es e. cc))

not_map : (v : Value) → ((es : Entries) → v ≢ map es) → from_value v ≡ err malformed
unfolding from_value
not_map (map es) n = absurd (n es refl)
not_map _ n = refl

-- A map whose entries are accepted is judged by what follows the loop.
judged :
    (es : Entries) (r : Reason)
    → WellTyped (pairs es)
    → ((c : Collected) → Describes (pairs es) c → validate c ≡ err r)
    → from_value (map es) ≡ err r
unfolding from_value
judged es r typed h =
    let (c, collected) = WellTyped-collect (pairs es) typed in
    rw collected (h c (collect-Describes (pairs es) collected))

Wrong-complete : (v : Value) (r : Reason) → Wrong v r → from_value v ≡ err r
Wrong-complete v _ (by_kind n) = not_map v n
Wrong-complete v _ (by_entry es e faulty) =
    ap from_value e
    ∙ unfold from_value in
      (elim (Result-cases (collect (pairs es) nothing)) [
        | inl (c, h) ↦ absurd (Faulty-WellTyped (pairs es) faulty (collect-WellTyped (pairs es) h))
        | inr (r, h) ↦ rw h (ap err (collect-malformed (pairs es) nothing h))
      ])
Wrong-complete v _ (by_absence es e typed missing) =
    ap from_value e ∙ judged es malformed typed (λ c d. validate-absent (pairs es) c d missing)
Wrong-complete v _ (by_check r es e typed f rejects) =
    ap from_value e
    ∙ judged es r typed (λ c d.
      validate-present (pairs es) c d f
      ∙ fields_complete f.operator f.prefix_bytes f.role_text f.declared f.iat f.exp r rejects)

-- `from_value` gives a reason exactly when the first check to fail gives it: `malformed` for a
-- value that is no map, for a key that is no integer or comes twice, for a value under a defined
-- key that is not of its type (a text for 1 and 6, octets for 2, an unsigned integer of 64 bits for
-- 3, 4 and 5) and for an absent REQUIRED key, and then, in this order, `malformed` for the domain,
-- `bad_role`, `malformed` for a prefix that has not 17 octets, `bad_prefix` for a length above 128
-- or a prefix that is not attestable, `bad_validity` when `exp` is not after `iat`,
-- `lifetime_too_long` above 86400 seconds, and `bad_unit` for a unit above 64, below the prefix
-- length, or other than it for an ESP tenant.
pub from_value-err_iff : (v : Value) (r : Reason) → (from_value v ≡ err r) ↔ Wrong v r
from_value-err_iff v r = (Wrong-sound v r, Wrong-complete v r)
