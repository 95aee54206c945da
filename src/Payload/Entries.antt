-- ===== src/Payload/Entries.antt =====
-- The entries of a payload's map that the loop of `from_value` accepts, without the loop.
use mathlib.Core.Path.{subst}
use swornmail.Prelude.{
  ◌≡◌, ◌≢◌, refl, sym, true, none, some, List, [], ◌∷◌, arith, All, Bool-cases, Option-cases, inl,
  inr, ◌⊎◌,
}
use swornmail.Prelude.Int.{ℤ, eqb_ℤ, eqb_ℤ_iff}
use swornmail.Prelude.Results.{ok, err}
use swornmail.Reason.{Reason}
use swornmail.Backend.{Value, integer}
use swornmail.Payload.{Collected, nothing, store, collect, collect_entry}
use swornmail.Payload.Fields.{find, keys, Distinct, collect-Describes, collect-cons, mark}
use swornmail.Payload.Collect.{
  succeeds, result_of, found_Storable, absent, Fresh-start, collect-succeeds, HasType,
  HasType-Storable, Storable-HasType,
}

-- The keys are distinct integers, and the value under a defined key is of its type.
pub record WellTyped (es : List (Value × Value)) : Type 0 where
  pub seen : List ℤ
  pub integer_keys : keys es ≡ some seen
  pub distinct : Distinct seen
  pub typed : (k : ℤ) (v : Value) → find k es ≡ some v → HasType k v

-- What is wrong with the entries: a key that is no integer, a key that comes twice, or a value of
-- another type under a defined key.
pub data Faulty (es : List (Value × Value)) : Type 0 where
  by_key : keys es ≡ none → Faulty es
  by_repeat : (ks : List ℤ) → keys es ≡ some ks → ¬ Distinct ks → Faulty es
  by_type : (k : ℤ) (v : Value) → find k es ≡ some v → ¬ HasType k v → Faulty es

-- Entries are not both.
pub Faulty-WellTyped : (es : List (Value × Value)) → Faulty es → ¬ WellTyped es
Faulty-WellTyped es (by_key e) w = let k = w.integer_keys in cc
Faulty-WellTyped es (by_repeat ks e n) w =
    let same : w.seen ≡ ks = let k = w.integer_keys in ground (arith, k) in
    n (subst Distinct same w.distinct)
Faulty-WellTyped es (by_type k v found n) w = n (w.typed k v found)

All-apart_cases : (k : ℤ) (ks : List ℤ) → All (λ j. j ≢ k) ks ⊎ ¬ All (λ j. j ≢ k) ks
All-apart_cases k [] = inl tt
All-apart_cases k (j ∷ ks) = elim (Bool-cases (eqb_ℤ j k)) [
  | inl e ↦ inr (λ a. a.0 ((eqb_ℤ_iff j k).0 e))
  | inr e ↦ elim (All-apart_cases k ks) [
    | inl a ↦ inl ((λ same. ground (arith, (eqb_ℤ_iff j k).1 same)), a)
    | inr n ↦ inr (λ a. n a.1)
  ]
]

Distinct-cases : (ks : List ℤ) → Distinct ks ⊎ ¬ Distinct ks
Distinct-cases [] = inl tt
Distinct-cases (k ∷ ks) = elim (All-apart_cases k ks) [
  | inl a ↦ elim (Distinct-cases ks) [ inl d ↦ inl (a, d) | inr n ↦ inr (λ d. n d.1) ]
  | inr n ↦ inr (λ d. n d.0)
]

HasType-cases : (k : ℤ) (v : Value) → HasType k v ⊎ ¬ HasType k v
HasType-cases k v = elim (Bool-cases (succeeds (store k v nothing))) [
  | inl e ↦ inl (Storable-HasType k v nothing e)
  | inr e ↦ inr (λ h. let s = HasType-Storable k v h nothing in cc)
]

Ill : List (Value × Value) → Type 0
Ill es = (k : ℤ) × (v : Value) × (find k es ≡ some v) × ¬ HasType k v

typed_cases :
    (es : List (Value × Value)) {ks : List ℤ}
    → keys es ≡ some ks
    → Distinct ks
    → ((k : ℤ) (v : Value) → find k es ≡ some v → HasType k v) ⊎ Ill es
unfolding Ill
typed_cases [] h d = inl (λ k v found. cc)
typed_cases ((integer k, v) ∷ es) {ks} h d = elim (Option-cases (keys es)) [
  | inl e ↦ ground arith
  | inr (rest, e) ↦
      let same : k ∷ rest ≡ ks = ground arith in
      let distinct = subst Distinct (sym same) d in
      elim (HasType-cases k v) [
        | inr n ↦ inr (k, v, ground (arith, eqb_ℤ_iff k k), n)
        | inl h₀ ↦ elim (typed_cases es e distinct.1) [
          | inr (j, w, found, n) ↦
              inr (j, w, ground (arith, eqb_ℤ_iff k j, absent k es e distinct.0), n)
          | inl typed ↦ inl (λ j w found. elim (Bool-cases (eqb_ℤ k j)) [
            | inl here ↦
                let is : v ≡ w = ground arith in
                subst (λ x. HasType j x) is (subst (λ x. HasType x v) ((eqb_ℤ_iff k j).0 here) h₀)
            | inr there ↦ typed j w (ground arith)
          ])
        ]
      ]
]
typed_cases ((_, v) ∷ es) h d = cc

-- Entries are one or the other.
Faulty-cases : (es : List (Value × Value)) → WellTyped es ⊎ Faulty es
unfolding Ill
Faulty-cases es = elim (Option-cases (keys es)) [
  | inl e ↦ inr (by_key e)
  | inr (ks, e) ↦ elim (Distinct-cases ks) [
    | inr n ↦ inr (by_repeat ks e n)
    | inl d ↦ elim (typed_cases es e d) [
      | inl typed ↦ inl (record { seen = ks; integer_keys = e; distinct = d; typed = typed })
      | inr (k, v, found, n) ↦ inr (by_type k v found n)
    ]
  ]
]

collect-HasType :
    (es : List (Value × Value)) (c : Collected) {c' : Collected} (k : ℤ) (v : Value)
    → collect es c ≡ ok c'
    → find k es ≡ some v
    → HasType k v
collect-HasType [] c k v h found = cc
collect-HasType ((integer i, w) ∷ es) c k v h found =
    let (d, new, put, grown, more) = collect-cons i w es c h in
    elim (Bool-cases (eqb_ℤ i k)) [
      | inl here ↦
          let is : w ≡ v = ground arith in
          let stored : succeeds (store i w (mark i c)) ≡ true = rw put refl in
          subst (λ x. HasType k x) is
            (subst (λ x. HasType x w) ((eqb_ℤ_iff i k).0 here)
              (Storable-HasType i w (mark i c) stored))
      | inr there ↦ collect-HasType es d k v more (ground arith)
    ]
collect-HasType ((_, w) ∷ es) c k v h found = unfold collect collect_entry in cc

pub collect-WellTyped :
    (es : List (Value × Value)) {c : Collected} → collect es nothing ≡ ok c → WellTyped es
collect-WellTyped es {c} h =
    let d = collect-Describes es h in
    record {
      seen = c.seen;
      integer_keys = d.integer_keys;
      distinct = d.distinct;
      typed = λ k v found. collect-HasType es nothing k v h found;
    }

pub WellTyped-collect :
    (es : List (Value × Value)) → WellTyped es → (c : Collected) × (collect es nothing ≡ ok c)
WellTyped-collect es w =
    let storable =
      found_Storable es w.integer_keys w.distinct
        (λ k v found. HasType-Storable k v (w.typed k v found)) in
    result_of (collect es nothing)
      (collect-succeeds es nothing storable w.integer_keys w.distinct (Fresh-start w.seen))

pub collect-Faulty :
    (es : List (Value × Value)) {r : Reason} → collect es nothing ≡ err r → Faulty es
collect-Faulty es h = elim (Faulty-cases es) [
  | inl typed ↦ let (c, done) = WellTyped-collect es typed in cc
  | inr faulty ↦ faulty
]
