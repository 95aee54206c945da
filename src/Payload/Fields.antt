-- ===== src/Payload/Fields.antt =====
-- What the loop of `from_value` has collected when it ends.
use mathlib.Core.Path.{subst}
use mathlib.Core.Option as Options
use mathlib.Core.List.{append-nil, append_assoc}
use swornmail.Prelude.{
  ℕ, ◌<◌, ◌^◌, ◌≡◌, ◌≢◌, refl, sym, ap, ◌∙◌, true, false, Option, none, some, List, [], ◌∷◌, ◌++◌,
  arith, if◌then◌else◌, any, any-append, All, All-append, Bool-cases, inl, inr,
}
use swornmail.Prelude.Int.{ℤ, pos, eqb_ℤ, eqb_ℤ_iff}
use swornmail.Prelude.Results.{ok, >>=-eq-ok}
use swornmail.Backend.{Value, integer, bytes, text}
use swornmail.Payload.{
  Collected, nothing, store, collect_entry, collect, text_of, bytes_of, uint, key_operator,
  key_prefix, key_unit, key_iat, key_exp, key_role,
}

-- The value of the first entry with an integer key.
abbrev pub find : ℤ → List (Value × Value) → Option Value
find k [] = none
find k ((integer i, v) ∷ es) = if eqb_ℤ i k then some v else find k es
find k ((_, v) ∷ es) = find k es

-- The keys of the entries, if all are integers.
abbrev pub keys : List (Value × Value) → Option (List ℤ)
keys [] = some []
keys ((integer i, v) ∷ es) = Options.map (◌∷◌ i) (keys es)
keys ((_, v) ∷ es) = none

abbrev pub Distinct : List ℤ → Type 0
Distinct [] = Unit
Distinct (k ∷ ks) = All (λ j. j ≢ k) ks × Distinct ks

-- The value found, or else an older one.
abbrev merge : Option Value → Option Value → Option Value
merge (some v) old = some v
merge none old = old

Distinct-concat :
    (ks : List ℤ) (k : ℤ) → Distinct ks → any (eqb_ℤ k) ks ≡ false → Distinct (ks ++ k ∷ [])
Distinct-concat [] k d h = (tt, tt)
Distinct-concat (j ∷ ks) k d h = (
  All-append (λ i. i ≢ j) ks (k ∷ []) d.0 ((λ e. ground (arith, (eqb_ℤ_iff k j).1 e)), tt),
  Distinct-concat ks k d.1 (ground arith),
)

abbrev pub mark : ℤ → Collected → Collected
mark k c = record c { seen = c.seen ++ k ∷ [] }

-- One round: the key was not seen, and the entry is stored.
collect_entry-eq-ok :
    (k : ℤ) (v : Value) (c : Collected) {c' : Collected}
    → collect_entry (integer k) v c ≡ ok c'
    → (any (eqb_ℤ k) c.seen ≡ false) × (store k v (mark k c) ≡ ok c')
unfolding collect_entry
collect_entry-eq-ok k v c h = (ground arith, ground arith)

pub store-seen : (k : ℤ) (v : Value) (c c' : Collected) → store k v c ≡ ok c' → c'.seen ≡ c.seen
unfolding store
store-seen k v c c' h = ground arith

-- A round, and the rounds after it.
pub collect-cons :
    (k : ℤ) (v : Value) (es : List (Value × Value)) (c : Collected) {c' : Collected}
    → collect ((integer k, v) ∷ es) c ≡ ok c'
    → (d : Collected) × (any (eqb_ℤ k) c.seen ≡ false)
      × (store k v (mark k c) ≡ ok d)
      × (d.seen ≡ c.seen ++ k ∷ [])
      × (collect es d ≡ ok c')
unfolding collect
collect-cons k v es c h =
    let (d, one, more) = >>=-eq-ok (collect_entry (integer k) v c) (collect es) h in
    let (new, put) = collect_entry-eq-ok k v c one in
    (d, new, put, store-seen k v (mark k c) d put, more)

-- A key that was seen does not come again.
seen_absent :
    (k : ℤ) (es : List (Value × Value)) (c : Collected) {c' : Collected}
    → any (eqb_ℤ k) c.seen ≡ true
    → collect es c ≡ ok c'
    → find k es ≡ none
seen_absent k [] c old h = refl
seen_absent k ((integer i, v) ∷ es) c old h =
    let (d, new, put, grown, more) = collect-cons i v es c h in
    ground (arith, eqb_ℤ_iff i k, seen_absent k es d (rw grown (rw any-append (ground arith))) more)
seen_absent k ((_, v) ∷ es) c old h = unfold collect collect_entry in cc

-- All keys are integers, and no two are equal.
collect-keys :
    (es : List (Value × Value)) (c : Collected) {c' : Collected}
    → Distinct c.seen
    → collect es c ≡ ok c'
    → (ks : List ℤ) × (keys es ≡ some ks) × (c'.seen ≡ c.seen ++ ks) × Distinct c'.seen
collect-keys [] c {c'} d h =
    let e : c.seen ≡ c'.seen = unfold collect in ground arith in
    ([], refl, sym e ∙ sym (append-nil c.seen), subst Distinct e d)
collect-keys ((integer i, v) ∷ es) c d h =
    let (c₁, new, put, grown, more) = collect-cons i v es c h in
    let (ks, read, grown', d') =
      collect-keys es c₁ (rw grown (Distinct-concat c.seen i d new)) more in
    (i ∷ ks, rw read, grown' ∙ rw grown (append_assoc c.seen (i ∷ []) ks), d')
collect-keys ((_, v) ∷ es) c d h = unfold collect collect_entry in cc

module _ (field : ℤ) (read : Collected → Option Value)
    (stored : (k : ℤ) (v : Value) (c c' : Collected)
      → store k v c ≡ ok c'
      → read c' ≡ (if eqb_ℤ k field then some v else read c))
    (unseen : (k : ℤ) (c : Collected) → read (mark k c) ≡ read c) where
  -- A field holds what `find` gives, or what it held before.
  collect-merge :
      (es : List (Value × Value)) (c : Collected) {c' : Collected}
      → collect es c ≡ ok c'
      → read c' ≡ merge (find field es) (read c)
  collect-merge [] c h = unfold collect in ground arith
  collect-merge ((integer k, v) ∷ es) c {c'} h =
      let (d, new, put, grown, more) = collect-cons k v es c h in
      elim (Bool-cases (eqb_ℤ k field)) [
        | inl same ↦
            let k-field = (eqb_ℤ_iff k field).0 same in
            let marked : any (eqb_ℤ field) d.seen ≡ true =
              rw grown (rw any-append (ground (arith, (eqb_ℤ_iff field k).1 (sym k-field)))) in
            ground (
              arith,
              seen_absent field es d marked more,
              collect-merge es d more,
              stored k v (mark k c) d put,
            )
        | inr other ↦
            ground (arith, collect-merge es d more, stored k v (mark k c) d put, unseen k c)
      ]
  collect-merge ((_, v) ∷ es) c h = unfold collect collect_entry in cc

-- An unsigned integer of 64 bits, as a CBOR value.
abbrev pub uint_value : ℕ → Value
uint_value n = integer (pos n)

abbrev pub IsU64 : ℕ → Type 0
IsU64 n = n < 2 ^ 64

-- What the entries of a map say about the collected fields.
pub record Describes (es : List (Value × Value)) (c : Collected) : Type 0 where
  pub integer_keys : keys es ≡ some c.seen
  pub distinct : Distinct c.seen
  pub operator : find key_operator es ≡ Options.map text c.operator
  pub prefix_bytes : find key_prefix es ≡ Options.map bytes c.prefix_bytes
  pub unit : find key_unit es ≡ Options.map uint_value c.unit
  pub iat : find key_iat es ≡ Options.map uint_value c.iat
  pub exp : find key_exp es ≡ Options.map uint_value c.exp
  pub role_text : find key_role es ≡ Options.map text c.role_text

merge-none : (o : Option Value) → merge o none ≡ o
merge-none none = refl
merge-none (some v) = refl

abbrev Stores : ℤ → (Collected → Option Value) → Type 0
Stores field read =
    (k : ℤ) (v : Value) (c c' : Collected)
    → store k v c ≡ ok c'
    → read c' ≡ (if eqb_ℤ k field then some v else read c)

operator-Stores : Stores key_operator (λ c. Options.map text c.operator)
unfolding store text_of bytes_of uint
operator-Stores k v c c' h = ground (arith, eqb_ℤ_iff k key_operator)

prefix-Stores : Stores key_prefix (λ c. Options.map bytes c.prefix_bytes)
unfolding store text_of bytes_of uint
prefix-Stores k v c c' h = ground (arith, eqb_ℤ_iff k key_prefix)

unit-Stores : Stores key_unit (λ c. Options.map uint_value c.unit)
unfolding store text_of bytes_of uint
unit-Stores k v c c' h = ground (arith, eqb_ℤ_iff k key_unit)

iat-Stores : Stores key_iat (λ c. Options.map uint_value c.iat)
unfolding store text_of bytes_of uint
iat-Stores k v c c' h = ground (arith, eqb_ℤ_iff k key_iat)

exp-Stores : Stores key_exp (λ c. Options.map uint_value c.exp)
unfolding store text_of bytes_of uint
exp-Stores k v c c' h = ground (arith, eqb_ℤ_iff k key_exp)

role-Stores : Stores key_role (λ c. Options.map text c.role_text)
unfolding store text_of bytes_of uint
role-Stores k v c c' h = ground (arith, eqb_ℤ_iff k key_role)

-- A loop that ends well has read the fields from the entries, whose keys are distinct integers.
pub collect-Describes :
    (es : List (Value × Value)) {c : Collected} → collect es nothing ≡ ok c → Describes es c
collect-Describes es {c} h =
    let (ks, read, seen, distinct) = collect-keys es nothing tt h in
    record {
      integer_keys = read ∙ ap some (sym seen);
      distinct = distinct;
      operator =
          at key_operator (λ c. Options.map text c.operator) operator-Stores refl (λ k c. refl);
      prefix_bytes =
          at key_prefix (λ c. Options.map bytes c.prefix_bytes) prefix-Stores refl (λ k c. refl);
      unit = at key_unit (λ c. Options.map uint_value c.unit) unit-Stores refl (λ k c. refl);
      iat = at key_iat (λ c. Options.map uint_value c.iat) iat-Stores refl (λ k c. refl);
      exp = at key_exp (λ c. Options.map uint_value c.exp) exp-Stores refl (λ k c. refl);
      role_text = at key_role (λ c. Options.map text c.role_text) role-Stores refl (λ k c. refl);
    }
  where
    at :
        (field : ℤ) (read : Collected → Option Value)
        → Stores field read
        → read nothing ≡ none
        → ((k : ℤ) (c : Collected) → read (mark k c) ≡ read c)
        → find field es ≡ read c
    at field read stores start unseen = sym (
        collect-merge field read stores unseen es nothing h ∙ rw start (merge-none (find field es)))
