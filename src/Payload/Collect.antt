-- ===== src/Payload/Collect.antt =====
-- When the loop of `from_value` collects every entry.
use mathlib.Core.Path.{subst}
use swornmail.Prelude.{
  ◌≡◌, ◌≢◌, refl, sym, Bool, true, false, none, some, List, [], ◌∷◌, ◌++◌, ℕ, arith, any, All,
  Bool-cases, Option-cases, inl, inr, any-append,
}
use swornmail.Prelude.Int.{ℤ, pos, eqb_ℤ, eqb_ℤ_iff}
use swornmail.Prelude.Results.{Result, ok, err}
use swornmail.Text.{Bytes}
use swornmail.Reason.{Reason}
use swornmail.Backend.{Value, integer, bytes, text}
use swornmail.Payload.{
  Collected, nothing, store, text_of, bytes_of, uint, collect, collect_entry, key_operator,
  key_prefix, key_unit, key_iat, key_exp, key_role,
}
use swornmail.Payload.Fields.{find, keys, Distinct, uint_value, IsU64, store-seen, mark}

abbrev pub succeeds {ℓ} : {A : Type ℓ} → Result Reason A → Bool
succeeds (ok a) = true
succeeds (err r) = false

pub result_of {ℓ} : {A : Type ℓ} (r : Result Reason A) → succeeds r ≡ true → (a : A) × (r ≡ ok a)
result_of (ok a) h = (a, refl)
result_of (err r) h = cc

-- The entries can be stored, whatever was collected before.
abbrev Storable : ℤ → Value → Type 0
Storable k v = (c : Collected) → succeeds (store k v c) ≡ true

abbrev AllStorable : List (Value × Value) → Type 0
AllStorable [] = Unit
AllStorable ((integer k, v) ∷ es) = Storable k v × AllStorable es
AllStorable ((_, v) ∷ es) = ⊥

pub absent :
    (i : ℤ) (es : List (Value × Value)) {ks : List ℤ}
    → keys es ≡ some ks
    → All (λ j. j ≢ i) ks
    → find i es ≡ none
absent i [] h a = refl
absent i ((integer k, v) ∷ es) {ks} h a = elim (Option-cases (keys es)) [
  | inl e ↦ ground arith
  | inr (rest, e) ↦
      let same : k ∷ rest ≡ ks = ground arith in
      let apart = subst (All (λ j. j ≢ i)) (sym same) a in
      ground (arith, absent i es e apart.1, (eqb_ℤ_iff k i).0)
]
absent i ((_, v) ∷ es) h a = cc

pub found_Storable :
    (es : List (Value × Value)) {ks : List ℤ}
    → keys es ≡ some ks
    → Distinct ks
    → ((k : ℤ) (v : Value) → find k es ≡ some v → Storable k v)
    → AllStorable es
found_Storable [] h d f = tt
found_Storable ((integer k, v) ∷ es) {ks} h d f = elim (Option-cases (keys es)) [
  | inl e ↦ ground arith
  | inr (rest, e) ↦
      let same : k ∷ rest ≡ ks = ground arith in
      let distinct = subst Distinct (sym same) d in
      (
        f k v (ground (arith, eqb_ℤ_iff k k)),
        found_Storable es e distinct.1
            (λ j w found. f j w (ground (arith, eqb_ℤ_iff k j, absent k es e distinct.0))),
      )
]
found_Storable ((_, v) ∷ es) h d f = cc

abbrev Fresh : Collected → List ℤ → Type 0
Fresh c = All (λ j. any (eqb_ℤ j) c.seen ≡ false)

still_Fresh :
    (k : ℤ) (ks : List ℤ) (c d : Collected)
    → d.seen ≡ c.seen ++ k ∷ []
    → All (λ j. j ≢ k) ks
    → Fresh c ks
    → Fresh d ks
still_Fresh k [] c d e a f = tt
still_Fresh k (j ∷ ks) c d e a f = (
  rw e (rw any-append (ground (arith, f.0, a.0, (eqb_ℤ_iff j k).0))),
  still_Fresh k ks c d e a.1 f.1,
)

pub Fresh-start : (ks : List ℤ) → Fresh nothing ks
Fresh-start [] = tt
Fresh-start (k ∷ ks) = (refl, Fresh-start ks)

pub collect-succeeds :
    (es : List (Value × Value)) {ks : List ℤ} (c : Collected)
    → AllStorable es
    → keys es ≡ some ks
    → Distinct ks
    → Fresh c ks
    → succeeds (collect es c) ≡ true
unfolding collect collect_entry
collect-succeeds [] c s h d f = refl
collect-succeeds ((integer k, v) ∷ es) {ks} c s h d f = elim (Option-cases (keys es)) [
  | inl e ↦ ground arith
  | inr (rest, e) ↦
      let same : k ∷ rest ≡ ks = ground arith in
      let distinct = subst Distinct (sym same) d in
      let fresh = subst (Fresh c) (sym same) f in
      let (c', stored) = result_of (store k v (mark k c)) (s.0 (mark k c)) in
      let grown = store-seen k v (mark k c) c' stored in
      let more =
        collect-succeeds es c' s.1 e distinct.1
          (still_Fresh k rest c c' grown distinct.0 fresh.1) in
      rw fresh.0 (rw stored more)
]
collect-succeeds ((_, v) ∷ es) c s h d f = cc

abbrev IsText : Value → Type 0
IsText v = (t : Bytes) × (v ≡ text t)

abbrev IsBytes : Value → Type 0
IsBytes v = (b : Bytes) × (v ≡ bytes b)

abbrev IsUint : Value → Type 0
IsUint v = (n : ℕ) × (v ≡ uint_value n) × IsU64 n

-- The value under a defined key is of the key's type: a text, octets, or an unsigned integer of 64
-- bits. Under any other key it may be anything.
pub record HasType (k : ℤ) (v : Value) : Type 0 where
  pub operator : k ≡ key_operator → IsText v
  pub prefix : k ≡ key_prefix → IsBytes v
  pub unit : k ≡ key_unit → IsUint v
  pub iat : k ≡ key_iat → IsUint v
  pub exp : k ≡ key_exp → IsUint v
  pub role : k ≡ key_role → IsText v

pub HasType-Storable : (k : ℤ) (v : Value) → HasType k v → Storable k v
unfolding store text_of bytes_of uint
HasType-Storable k v h c = elim (Bool-cases (eqb_ℤ k key_operator)) [
  | inl e ↦ let (t, is) = h.operator ((eqb_ℤ_iff k key_operator).0 e) in ground (arith, is)
  | inr n0 ↦ elim (Bool-cases (eqb_ℤ k key_prefix)) [
    | inl e ↦ let (t, is) = h.prefix ((eqb_ℤ_iff k key_prefix).0 e) in ground (arith, is)
    | inr n1 ↦ elim (Bool-cases (eqb_ℤ k key_unit)) [
      | inl e ↦ let (n, is, fits) = h.unit ((eqb_ℤ_iff k key_unit).0 e) in ground (arith, is)
      | inr n2 ↦ elim (Bool-cases (eqb_ℤ k key_iat)) [
        | inl e ↦ let (n, is, fits) = h.iat ((eqb_ℤ_iff k key_iat).0 e) in ground (arith, is)
        | inr n3 ↦ elim (Bool-cases (eqb_ℤ k key_exp)) [
          | inl e ↦ let (n, is, fits) = h.exp ((eqb_ℤ_iff k key_exp).0 e) in ground (arith, is)
          | inr n4 ↦ elim (Bool-cases (eqb_ℤ k key_role)) [
            | inl e ↦ let (t, is) = h.role ((eqb_ℤ_iff k key_role).0 e) in ground (arith, is)
            | inr n5 ↦ ground arith
          ]
        ]
      ]
    ]
  ]
]

text_of-IsText : (v : Value) → succeeds (text_of v) ≡ true → IsText v
unfolding text_of
text_of-IsText (text t) h = (t, refl)
text_of-IsText _ h = cc

bytes_of-IsBytes : (v : Value) → succeeds (bytes_of v) ≡ true → IsBytes v
unfolding bytes_of
bytes_of-IsBytes (bytes b) h = (b, refl)
bytes_of-IsBytes _ h = cc

uint-IsUint : (v : Value) → succeeds (uint v) ≡ true → IsUint v
unfolding uint
uint-IsUint (integer (pos n)) h = (n, refl, ground arith)
uint-IsUint _ h = cc

module _ (v : Value) (c : Collected) where
  store-operator : succeeds (store key_operator v c) ≡ true → succeeds (text_of v) ≡ true
  unfolding store
  store-operator h = ground arith

  store-prefix : succeeds (store key_prefix v c) ≡ true → succeeds (bytes_of v) ≡ true
  unfolding store
  store-prefix h = ground arith

  store-unit : succeeds (store key_unit v c) ≡ true → succeeds (uint v) ≡ true
  unfolding store
  store-unit h = ground arith

  store-iat : succeeds (store key_iat v c) ≡ true → succeeds (uint v) ≡ true
  unfolding store
  store-iat h = ground arith

  store-exp : succeeds (store key_exp v c) ≡ true → succeeds (uint v) ≡ true
  unfolding store
  store-exp h = ground arith

  store-role : succeeds (store key_role v c) ≡ true → succeeds (text_of v) ≡ true
  unfolding store
  store-role h = ground arith

pub Storable-HasType :
    (k : ℤ) (v : Value) (c : Collected) → succeeds (store k v c) ≡ true → HasType k v
Storable-HasType k v c h = record {
  operator = λ e. text_of-IsText v (store-operator v c (at e));
  prefix = λ e. bytes_of-IsBytes v (store-prefix v c (at e));
  unit = λ e. uint-IsUint v (store-unit v c (at e));
  iat = λ e. uint-IsUint v (store-iat v c (at e));
  exp = λ e. uint-IsUint v (store-exp v c (at e));
  role = λ e. text_of-IsText v (store-role v c (at e));
}
  where
    at : {key : ℤ} → k ≡ key → succeeds (store key v c) ≡ true
    at e = subst (λ j. succeeds (store j v c) ≡ true) e h
