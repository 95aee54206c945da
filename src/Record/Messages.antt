-- ===== src/Record/Messages.antt =====
-- The messages of record errors tell the errors apart.
use swornmail.Prelude.{ℕ, ◌≡◌, refl, ap, Option, none, some, List, [], ◌∷◌, ◌++◌, if◌then◌else◌}
use swornmail.Text.{Bytes, codes, bytes_eq, strip_prefix}
use swornmail.Record.{
  RecordError, not_sworn, malformed_tag, duplicate_tag, unknown_algorithm, missing_tag, bad_value,
  display_record_error,
}

without_last : Bytes → Bytes
without_last [] = []
without_last (x ∷ []) = []
without_last (x ∷ y ∷ s) = x ∷ without_last (y ∷ s)

without_last-concat : (s : Bytes) (c : ℕ) → without_last (s ++ c ∷ []) ≡ s
unfolding without_last
without_last-concat [] c = refl
without_last-concat (x ∷ []) c = refl
without_last-concat (x ∷ y ∷ s) c = ap (◌∷◌ x) (without_last-concat (y ∷ s) c)

-- The error among four with a given message.
plain : List RecordError → Bytes → Option RecordError
plain [] s = none
plain (e ∷ es) s = if bytes_eq (display_record_error e) s then some e else plain es s

tagged : Option Bytes → Option Bytes → Option RecordError
tagged (some t) o = some (missing_tag (without_last t))
tagged none (some t) = some (bad_value (without_last t))
tagged none none = none

first_of : Option RecordError → Option RecordError → Option RecordError
first_of (some e) o = some e
first_of none o = o

-- The error with a given message.
read_message : Bytes → Option RecordError
read_message s =
    first_of (plain (not_sworn ∷ malformed_tag ∷ duplicate_tag ∷ unknown_algorithm ∷ []) s) (
      tagged (strip_prefix (codes "missing required tag ") s)
        (strip_prefix (codes "invalid value for tag ") s))

read_message-display : (e : RecordError) → read_message (display_record_error e) ≡ some e
unfolding read_message plain tagged first_of display_record_error bytes_eq
read_message-display not_sworn = refl
read_message-display malformed_tag = refl
read_message-display duplicate_tag = refl
read_message-display unknown_algorithm = refl
read_message-display (missing_tag tag) =
    ap (λ t. some (missing_tag t)) (without_last-concat tag b'=')
read_message-display (bad_value tag) = ap (λ t. some (bad_value t)) (without_last-concat tag b'=')

-- Two record errors with the same message are the same error.
pub display_record_error-injective :
    (a b : RecordError) → display_record_error a ≡ display_record_error b → a ≡ b
display_record_error-injective a b e =
    cc (read_message-display a, read_message-display b, ap read_message e)
