-- ===== src/Receive.antt =====
-- src/lib.rs: the constants of the crate root, and the receiver that its documentation shows, with
-- the DNS names that it asks for in their order.
pub mod Endings
pub mod Order
pub mod Outcomes
pub mod Names
pub mod Deployment
use swornmail.Prelude.{ℕ, Option, none, some, List, [], ◌∷◌, ◌++◌}
use swornmail.Prelude.Int.{ℤ}
use swornmail.Prelude.Results.{Result, ok, err}
use swornmail.Text.{Bytes, codes}
use swornmail.Text.Ipv6.{parse_ipv6}
use swornmail.Address.Display.{display_prefix}
use swornmail.Reason.{Reason}
use swornmail.Backend.{Ciborium, Dalek, Base64}
use swornmail.Record.{RecordError, parse_policy, parse_key}
use swornmail.Token.{
  Outcome, pass, observe_only, operator_of, authorized_operator, authorized_selector, reason_str,
  unit_error, parse, authorize, verify_signature,
}

abbrev pub sworn_version : Bytes
sworn_version = codes "SWORN1"

abbrev pub dns_label : Bytes
dns_label = codes "_sworn"

abbrev pub default_unit_prefix_len : ℕ
default_unit_prefix_len = 64

abbrev pub recommended_token_bytes_classical : ℕ
recommended_token_bytes_classical = 512

abbrev pub max_token_lifetime_secs : ℕ
max_token_lifetime_secs = 86400

-- What `?` turns into a boxed error: an address that does not parse, a reason, or a record error.
pub data ReceiveError : Type 0 where
  bad_address : ReceiveError
  refused : Reason → ReceiveError
  unusable : RecordError → ReceiveError

-- A computation that may fail, with the names it has asked for.
pub record Run {ℓ} (A : Type ℓ) : Type ℓ where
  pub queries : List Bytes
  pub result : Result ReceiveError A

abbrev pub continue {ℓ κ} :
    {A : Type ℓ} {B : Type κ} → List Bytes → Result ReceiveError A → (A → Run B) → Run B
continue asked (err e) next = record { queries = asked; result = err e }
continue asked (ok a) next =
    let last = next a in record { queries = asked ++ last.queries; result = last.result }

infixl 5 ◌>>=◌
abbrev pub ◌>>=◌ {ℓ κ} : {A : Type ℓ} {B : Type κ} → Run A → (A → Run B) → Run B
step >>= next = continue step.queries step.result next

abbrev pub attempt {ℓ κ} : {E : Type κ} {A : Type ℓ} → (E → ReceiveError) → Result E A → Run A
attempt wrap (ok a) = record { queries = []; result = ok a }
attempt wrap (err e) = record { queries = []; result = err (wrap e) }

abbrev pub address_of : Option ℕ → Run ℕ
address_of none = record { queries = []; result = err bad_address }
address_of (some a) = record { queries = []; result = ok a }

-- `format!("_prefixes._sworn.{}", operator)` and `format!("{}._sworn.{}", selector, operator)`
abbrev pub policy_qname : Bytes → Bytes
policy_qname operator = codes "_prefixes._sworn." ++ operator

abbrev pub key_qname : Bytes → Bytes → Bytes
key_qname selector operator = selector ++ codes "._sworn." ++ operator

-- the line that is printed
unfoldable pub report : Result Reason Outcome → Bytes
unfolding reason_str
report (ok (pass v)) = codes "sworn=pass unit=" ++ display_prefix v.observed_unit
report (ok (observe_only v)) = codes "sworn=none policy.testing=y policy.wouldbe=pass"
report (err reason) = codes "sworn-reason=" ++ reason_str (unit_error reason)

module _ (lookup_txt : Bytes → Bytes) where
  abbrev pub lookup : Bytes → Run Bytes
  lookup qname = record { queries = qname ∷ []; result = ok (lookup_txt qname) }

  module _ (cbor : Ciborium) (dalek : Dalek) (base64 : Base64) where
    -- The example's `main`, with its three literals as arguments; `lookup_txt` is the resolver.
    unfoldable pub receive : Bytes → Bytes → ℤ → Run Bytes
    unfolding report
    receive token source_str now = do
      source ← address_of (parse_ipv6 source_str)
      pending ← attempt refused (parse cbor token source now)
      policy_txt ← lookup (policy_qname (operator_of pending))
      policy ← attempt unusable (parse_policy policy_txt)
      authorized ← attempt refused (authorize pending policy)
      key_txt ← lookup (key_qname (authorized_selector authorized) (authorized_operator authorized))
      published ← attempt unusable (parse_key dalek base64 key_txt)
      record {
        queries = [];
        result = ok (report (verify_signature dalek authorized published.public_key));
      }
