-- ===== src/Prelude/Asserts.antt =====
-- What a test asserts of a value that it unwraps.
use mathlib.Core.Bool.{Bool, true, false}
use mathlib.Core.Option.{Option, none, some}
use swornmail.Prelude.Results.{Result, ok, err}

-- `.unwrap()` of an option and of a result, and what is asserted of the value; false on a panic
abbrev pub unwrap {ℓ} : {A : Type ℓ} → Option A → (A → Bool) → Bool
unwrap none asserts = false
unwrap (some a) asserts = asserts a

abbrev pub unwrap_ok {ℓ κ} : {E : Type ℓ} {A : Type κ} → Result E A → (A → Bool) → Bool
unwrap_ok (ok a) asserts = asserts a
unwrap_ok (err e) asserts = false

abbrev pub unwrap_err {ℓ κ} : {E : Type ℓ} {A : Type κ} → Result E A → (E → Bool) → Bool
unwrap_err (ok a) asserts = false
unwrap_err (err e) asserts = asserts e

abbrev pub is_none {ℓ} : {A : Type ℓ} → Option A → Bool
is_none none = true
is_none (some a) = false

abbrev pub is_ok {ℓ κ} : {E : Type ℓ} {A : Type κ} → Result E A → Bool
is_ok (ok a) = true
is_ok (err e) = false
