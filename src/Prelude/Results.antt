-- ===== src/Prelude/Results.antt =====
-- Rust's `Result` with `?`, and `ok_or`.
use mathlib.Core.Path.{◌≡◌, refl}
use mathlib.Core.Bool.{Bool, true, false}
use mathlib.Core.Option.{Option, none, some}
use mathlib.Core.Logic.{◌⊎◌, inl, inr}

pub data Result {ℓ κ} (E : Type ℓ) (A : Type κ) : Type (ℓ ⊔ κ) where
  ok : A → Result E A
  err : E → Result E A

module _ {ℓ κ μ} {E : Type ℓ} {A : Type κ} {B : Type μ} where
  infixl 5 ◌>>=◌
  -- The operator `?`.
  abbrev pub ◌>>=◌ : Result E A → (A → Result E B) → Result E B
  ok a >>= f = f a
  err e >>= f = err e

  -- Inversion of a successful bind.
  pub >>=-eq-ok :
      (step : Result E A) (next : A → Result E B) {last : B}
      → step >>= next ≡ ok last
      → (first : A) × (step ≡ ok first) × (next first ≡ ok last)
  >>=-eq-ok (err reason) next done = cc
  >>=-eq-ok (ok first) next done = (first, refl, done)

module _ {ℓ κ} {E : Type ℓ} {A : Type κ} where
  -- `Option::ok_or`
  abbrev pub ok_or : Option A → E → Result E A
  ok_or none e = err e
  ok_or (some a) e = ok a

-- `if !test { return Err(e) }`
abbrev pub ensure {ℓ} : {E : Type ℓ} → Bool → E → Result E (Unit {0})
ensure true e = ok tt
ensure false e = err e

infixl 5 ◌>>◌
abbrev pub ◌>>◌ {ℓ κ} : {E : Type ℓ} {B : Type κ} → Result E (Unit {0}) → Result E B → Result E B
m >> k = m >>= λ _. k

-- Inversions of the two common first steps.
pub ensure-eq-ok {ℓ κ} :
    {E : Type ℓ} {A : Type κ} (b : Bool) (e : E) (rest : Result E A) {a : A}
    → (ensure b e >> rest) ≡ ok a
    → (b ≡ true) × (rest ≡ ok a)
ensure-eq-ok true e rest h = (refl, h)
ensure-eq-ok false e rest h = cc

pub ok_or-eq-ok {ℓ κ μ} :
    {E : Type ℓ} {A : Type κ} {B : Type μ} (o : Option A) (e : E) (f : A → Result E B) {b : B}
    → (ok_or o e >>= f) ≡ ok b
    → (a : A) × (o ≡ some a) × (f a ≡ ok b)
ok_or-eq-ok none e f h = cc
ok_or-eq-ok (some a) e f h = (a, refl, h)

-- Inversions of a failure: the step that failed.
pub >>=-eq-err {ℓ κ μ} :
    {E : Type ℓ} {A : Type κ} {B : Type μ} (m : Result E A) (f : A → Result E B) {e : E}
    → (m >>= f) ≡ err e
    → (m ≡ err e) ⊎ ((a : A) × (m ≡ ok a) × (f a ≡ err e))
>>=-eq-err (ok a) f h = inr (a, refl, h)
>>=-eq-err (err e) f h = inl cc

pub ensure-eq-err {ℓ κ} :
    {E : Type ℓ} {A : Type κ} (b : Bool) (e : E) (rest : Result E A) {r : E}
    → (ensure b e >> rest) ≡ err r
    → ((b ≡ false) × (r ≡ e)) ⊎ ((b ≡ true) × (rest ≡ err r))
ensure-eq-err true e rest h = inr (refl, h)
ensure-eq-err false e rest h = inl (refl, cc)

pub ok_or-eq-err {ℓ κ μ} :
    {E : Type ℓ} {A : Type κ} {B : Type μ} (o : Option A) (e : E) (f : A → Result E B) {r : E}
    → (ok_or o e >>= f) ≡ err r
    → ((o ≡ none) × (r ≡ e)) ⊎ ((a : A) × (o ≡ some a) × (f a ≡ err r))
ok_or-eq-err none e f h = inl (refl, cc)
ok_or-eq-err (some a) e f h = inr (a, refl, h)

-- To split on a computed result and keep the equation.
pub Result-cases {ℓ κ} :
    {E : Type ℓ} {A : Type κ} (m : Result E A) → ((a : A) × (m ≡ ok a)) ⊎ ((e : E) × (m ≡ err e))
Result-cases (ok a) = inl (a, refl)
Result-cases (err e) = inr (e, refl)
