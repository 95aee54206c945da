-- ===== src/Payload.antt =====
-- src/payload.rs: the signed claim of a token, from its decoded CBOR map.
pub mod Domain
pub mod Lowercase
pub mod Fields
pub mod Collect
pub mod Entries
pub mod Valid
pub mod Complete
pub mod Claims
pub mod Order
pub mod Wire
pub mod Rejects
pub mod Errors
use swornmail.Prelude.{
  ℕ, ◌+◌, ◌-◌, ◌*◌, ◌%◌, ◌^◌, ◌≤◌, ◌<◌, Bool, true, false, not, ◌&&◌, ◌||◌, Option, none, some,
  List, [], ◌∷◌, ◌++◌, length, ltb, leb, ◌==◌, if◌then◌else◌, any, all, take,
}
use swornmail.Prelude.Int.{ℤ, pos, negsuc, eqb_ℤ}
use swornmail.Prelude.Results.{Result, ok, err, ◌>>=◌, ◌>>◌, ensure, ok_or}
use swornmail.Text.{
  Bytes, codes, bytes_eq, is_empty, is_ascii, is_ascii_alphanumeric, to_ascii_lowercase,
  starts_with, ends_with, split,
}
use swornmail.Address.{Ipv6Prefix, new, is_attestable, max_prefix_len}
use swornmail.Reason.{
  Reason, malformed, bad_role, bad_prefix, bad_validity, lifetime_too_long, bad_unit,
}
use swornmail.Backend.{Value, integer, bytes, text, map, pairs, Ciborium}

abbrev pub max_lifetime_secs : ℕ
max_lifetime_secs = 86400

abbrev pub default_unit : ℕ
default_unit = 64

abbrev pub key_operator : ℤ
key_operator = pos 1

abbrev pub key_prefix : ℤ
key_prefix = pos 2

abbrev pub key_unit : ℤ
key_unit = pos 3

abbrev pub key_iat : ℤ
key_iat = pos 4

abbrev pub key_exp : ℤ
key_exp = pos 5

abbrev pub key_role : ℤ
key_role = pos 6

pub data Role : Type 0 where
  mta esp_tenant forwarder : Role

-- `Role::as_str`
unfoldable pub role_str : Role → Bytes
role_str mta = codes "mta"
role_str esp_tenant = codes "esp-tenant"
role_str forwarder = codes "forwarder"

-- `Role::parse`
unfoldable pub parse_role : Bytes → Option Role
parse_role s =
    if bytes_eq s (codes "mta")
    then some mta
    else if bytes_eq s (codes "esp-tenant")
    then some esp_tenant
    else if bytes_eq s (codes "forwarder")
    then some forwarder
    else none

-- `role == Role::EspTenant`
abbrev pub is_esp_tenant : Role → Bool
is_esp_tenant esp_tenant = true
is_esp_tenant _ = false

pub record Payload : Type 0 where
  pub operator : Bytes
  pub prefix : Ipv6Prefix
  pub unit : ℕ
  pub iat : ℕ
  pub exp : ℕ
  pub role : Role

unfoldable pub text_of : Value → Result Reason Bytes
text_of (text s) = ok s
text_of _ = err malformed

unfoldable pub bytes_of : Value → Result Reason Bytes
bytes_of (bytes b) = ok b
bytes_of _ = err malformed

-- `u64::try_from` of an `i128`
unfoldable pub uint : Value → Result Reason ℕ
uint (integer (pos n)) = if ltb n (2 ^ 64) then ok n else err malformed
uint _ = err malformed

-- `Ipv6Addr::from` of 16 octets: the most significant first
abbrev pub from_octets : ℕ → Bytes → ℕ
from_octets acc [] = acc
from_octets acc (b ∷ s) = from_octets (acc * 256 + b) s

abbrev pub octet_at : ℕ → Bytes → ℕ
octet_at i [] = 0
octet_at ℕ.zero (b ∷ s) = b
octet_at (ℕ.suc i) (b ∷ s) = octet_at i s

unfoldable pub decode_prefix : Bytes → Result Reason Ipv6Prefix
decode_prefix b =
    if length b == 17
    then ok_or (new (from_octets 0 (take 16 b)) (octet_at 16 b)) bad_prefix
    else err malformed

-- the test of each label in `is_operator_domain`
unfoldable pub is_label : Bytes → Bool
is_label label =
    not (is_empty label)
    && leb (length label) 63
    && not (starts_with b'-' label)
    && not (ends_with b'-' label)
    && all (λ c. is_ascii_alphanumeric c || c == b'-') label

unfoldable pub is_operator_domain : Bytes → Bool
unfolding is_label
is_operator_domain s =
    if is_empty s || ltb 253 (length s) || not (is_ascii s)
    then false
    else all is_label (split b'.' s)

-- The local variables of the loop in `from_value`.
pub record Collected : Type 0 where
  pub operator : Option Bytes
  pub prefix_bytes : Option Bytes
  pub unit : Option ℕ
  pub iat : Option ℕ
  pub exp : Option ℕ
  pub role_text : Option Bytes
  pub seen : List ℤ

abbrev pub nothing : Collected
nothing = record {
  operator = none;
  prefix_bytes = none;
  unit = none;
  iat = none;
  exp = none;
  role_text = none;
  seen = [];
}

-- `match key` in the loop
unfoldable pub store : ℤ → Value → Collected → Result Reason Collected
unfolding text_of bytes_of uint
store key val c =
    if eqb_ℤ key key_operator
    then (do t ← text_of val; ok (record c { operator = some t }))
    else if eqb_ℤ key key_prefix
    then (do b ← bytes_of val; ok (record c { prefix_bytes = some b }))
    else if eqb_ℤ key key_unit
    then (do n ← uint val; ok (record c { unit = some n }))
    else if eqb_ℤ key key_iat
    then (do n ← uint val; ok (record c { iat = some n }))
    else if eqb_ℤ key key_exp
    then (do n ← uint val; ok (record c { exp = some n }))
    else if eqb_ℤ key key_role
    then (do t ← text_of val; ok (record c { role_text = some t }))
    else ok c

abbrev pub integer_key : Value → Result Reason ℤ
integer_key (integer i) = ok i
integer_key _ = err malformed

-- one round of the loop
unfoldable pub collect_entry : Value → Value → Collected → Result Reason Collected
collect_entry key val c = do
  k ← integer_key key
  ensure (not (any (eqb_ℤ k) c.seen)) malformed
  store k val (record c { seen = c.seen ++ k ∷ [] })

unfoldable pub collect : List (Value × Value) → Collected → Result Reason Collected
collect [] c = ok c
collect ((k, v) ∷ es) c = do c' ← collect_entry k v c; collect es c'

abbrev pub unit_or_default : Option ℕ → ℕ
unit_or_default none = default_unit
unit_or_default (some n) = n

-- from the validity bounds to the end of `from_value`
unfoldable pub check_bounds : Bytes → Role → Ipv6Prefix → Option ℕ → ℕ → ℕ → Result Reason Payload
check_bounds operator role prefix declared iat exp = do
  ensure (not (leb exp iat)) bad_validity
  ensure (not (ltb max_lifetime_secs (exp - iat))) lifetime_too_long
  let unit = unit_or_default declared
  ensure (not (ltb max_prefix_len unit || ltb unit prefix.len)) bad_unit
  let unit8 = unit % 256
  ensure (not (is_esp_tenant role && not (unit8 == prefix.len))) bad_unit
  ok (record {
    operator = to_ascii_lowercase operator;
    prefix = prefix;
    unit = unit8;
    iat = iat;
    exp = exp;
    role = role;
  })

-- the checks behind the match on the REQUIRED keys
unfoldable pub check_fields : Bytes → Bytes → Bytes → Option ℕ → ℕ → ℕ → Result Reason Payload
check_fields operator prefix_bytes role_text declared iat exp = do
  ensure (is_operator_domain operator) malformed
  role ← ok_or (parse_role role_text) bad_role
  prefix ← decode_prefix prefix_bytes
  ensure (is_attestable prefix) bad_prefix
  check_bounds operator role prefix declared iat exp

-- what follows the loop: the match on the five REQUIRED keys
unfoldable pub validate : Collected → Result Reason Payload
validate c = do
  operator ← ok_or c.operator malformed
  prefix_bytes ← ok_or c.prefix_bytes malformed
  iat ← ok_or c.iat malformed
  exp ← ok_or c.exp malformed
  role_text ← ok_or c.role_text malformed
  check_fields operator prefix_bytes role_text c.unit iat exp

unfoldable pub from_value : Value → Result Reason Payload
from_value (map es) = do c ← collect (pairs es) nothing; validate c
from_value _ = err malformed

abbrev pub defined_keys : List ℤ
defined_keys = key_operator ∷ key_prefix ∷ key_unit ∷ key_iat ∷ key_exp ∷ key_role ∷ []

-- `tag.is_some() && defined.contains(key)`
abbrev pub tagged_field : (ℤ × Option ℕ × Value) → Bool
tagged_field (key, none, v) = false
tagged_field (key, some t, v) = any (eqb_ℤ key) defined_keys

module _ (cbor : Ciborium) where
  unfoldable pub reject_tagged_fields : Bytes → Result Reason (Unit {0})
  reject_tagged_fields raw = do
    fields ← ok_or (cbor.captured_map raw) malformed
    ensure (not (any tagged_field fields)) malformed
