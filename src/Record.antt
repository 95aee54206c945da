-- ===== src/Record.antt =====
-- src/record.rs: the key record and the policy record of an operator.
pub mod Tags
pub mod Print
pub mod Messages
pub mod Policy
pub mod Published
pub mod Keys
pub mod Rua
pub mod Write
pub mod Grammar
pub mod Segments
pub mod Refusals
pub mod Printable
pub mod KeyErrors
pub mod PolicyErrors
use mathlib.Core.Option as Options
use swornmail.Prelude.{
  ℕ, ◌+◌, ◌≤◌, ◌<◌, Bool, true, false, not, ◌&&◌, ◌||◌, Option, none, some, List, [], ◌∷◌, ◌++◌,
  leb, ltb, ◌==◌, within, if◌then◌else◌, any, all, select, take,
}
use swornmail.Prelude.Results.{Result, ok, err, ◌>>=◌, ◌>>◌, ensure, ok_or}
use swornmail.Text.{
  Bytes, codes, bytes_eq, is_empty, is_ascii_alphanumeric, strip_prefix, count, split, split_once,
  trim,
}
use swornmail.Address.{Ipv6Prefix, contains, is_attestable, max_prefix_len}
use swornmail.Address.Parse.{ParsePrefixError, parse_decimal, parse_prefix}
use swornmail.Backend.{Dalek, Base64}
use swornmail.Key
use swornmail.Payload.{default_unit, is_operator_domain}

abbrev pub version : Bytes
version = codes "SWORN1"

abbrev pub max_policy_prefixes : ℕ
max_policy_prefixes = 64

pub data RecordError : Type 0 where
  not_sworn malformed_tag duplicate_tag unknown_algorithm : RecordError
  missing_tag bad_value : Bytes → RecordError

-- `Display` of an error
unfoldable pub display_record_error : RecordError → Bytes
display_record_error not_sworn = codes "record does not begin with v=SWORN1"
display_record_error malformed_tag = codes "malformed tag"
display_record_error duplicate_tag = codes "duplicate tag"
display_record_error (missing_tag tag) = codes "missing required tag " ++ tag ++ codes "="
display_record_error (bad_value tag) = codes "invalid value for tag " ++ tag ++ codes "="
display_record_error unknown_algorithm = codes "unimplemented k= algorithm"

abbrev pub Tag : Type 0
Tag = Bytes × Bytes

-- the gate on octets in `parse_tags`
abbrev pub is_record_byte : ℕ → Bool
is_record_byte c = c == b'\t' || within 0x20 0x7e c

abbrev pub is_blank : ℕ → Bool
is_blank c = c == b' ' || c == b'\t'

abbrev pub has_name : Bytes → Tag → Bool
has_name name (seen, value) = bytes_eq seen name

-- One segment that is not empty, behind the tags read so far.
unfoldable pub add_tag : List Tag → Bytes → Result RecordError (List Tag)
add_tag tags segment = do
  (raw_name, raw_value) ← ok_or (split_once b'=' segment) malformed_tag
  let name = trim raw_name
  let value = trim raw_value
  ensure (not (is_empty name || any is_blank value)) malformed_tag
  ensure (not (any (has_name name) tags)) duplicate_tag
  ok (tags ++ (name, value) ∷ [])

-- one round of the loop: an empty segment is skipped
unfoldable pub add_segment : List Tag → Bytes → Result RecordError (List Tag)
add_segment tags raw =
    let segment = trim raw in if is_empty segment then ok tags else add_tag tags segment

unfoldable pub read_segments : List Bytes → List Tag → Result RecordError (List Tag)
read_segments [] tags = ok tags
read_segments (raw ∷ segments) tags = do more ← add_segment tags raw; read_segments segments more

-- `match tags.first()`
unfoldable pub check_version : List Tag → Result RecordError (List Tag)
check_version [] = err not_sworn
check_version ((name, value) ∷ tags) =
    if bytes_eq name (codes "v") && bytes_eq value version
    then ok ((name, value) ∷ tags)
    else err not_sworn

unfoldable pub parse_tags : Bytes → Result RecordError (List Tag)
parse_tags txt = do
  ensure (not (any (λ c. not (is_record_byte c)) txt)) malformed_tag
  tags ← read_segments (split b';' txt) []
  check_version tags

-- The value of the first tag with a name.
unfoldable pub get : List Tag → Bytes → Option Bytes
get [] name = none
get ((tag, value) ∷ tags) name = if bytes_eq tag name then some value else get tags name

abbrev pub is_atom_byte : ℕ → Bool
is_atom_byte c = is_ascii_alphanumeric c || any (◌==◌ c) (codes "!#$%&'*+-/=?^_`{|}~")

abbrev pub is_atom : Bytes → Bool
is_atom atom = not (is_empty atom) && all is_atom_byte atom

unfoldable pub valid_address : Bytes → Bool
valid_address address =
    if not (count b'@' address == 1) then false else elim (split_once b'@' address) [
      | none ↦ false
      | some (local, domain) ↦
          not (is_empty local) && all is_atom (split b'.' local) && is_operator_domain domain
    ]

unfoldable pub valid_rua : Bytes → Bool
valid_rua value = elim (strip_prefix (codes "mailto:") value) [
  | none ↦ false
  | some address ↦ valid_address address
]

pub record PolicyRecord : Type 0 where
  pub prefixes : List Ipv6Prefix
  pub unit : ℕ
  pub testing : Bool
  pub rua : Option Bytes

abbrev pub entry_error {ℓ} : {A : Type ℓ} → Result ParsePrefixError A → Result RecordError A
entry_error (ok a) = ok a
entry_error (err e) = err (bad_value (codes "p"))

-- one round of the loop over the entries of `p=`
unfoldable pub read_prefix : Bytes → Result RecordError Ipv6Prefix
read_prefix text = do
  prefix ← entry_error (parse_prefix text)
  ensure (is_attestable prefix) (bad_value (codes "p"))
  ok prefix

unfoldable pub read_prefixes : List Bytes → Result RecordError (List Ipv6Prefix)
read_prefixes [] = ok []
read_prefixes (text ∷ texts) = do
  prefix ← read_prefix text
  rest ← read_prefixes texts
  ok (prefix ∷ rest)

-- The entries that are looked at: empty ones do not count against the cap.
abbrev pub listed : Bytes → List Bytes
listed list = take max_policy_prefixes (select (λ text. not (is_empty text)) (split b',' list))

unfoldable pub policy_prefixes : Option Bytes → Result RecordError (List Ipv6Prefix)
policy_prefixes none = ok []
policy_prefixes (some list) = read_prefixes (listed list)

unfoldable pub policy_unit : Option Bytes → Result RecordError ℕ
policy_unit none = ok default_unit
policy_unit (some value) = do
  unit ← ok_or (parse_decimal value) (bad_value (codes "u"))
  ensure (within 1 max_prefix_len unit) (bad_value (codes "u"))
  ok unit

unfoldable pub policy_testing : Option Bytes → Bool
policy_testing none = false
policy_testing (some flags) = any (λ flag. bytes_eq flag (codes "y")) (split b':' flags)

unfoldable pub policy_rua : Option Bytes → Result RecordError (Option Bytes)
policy_rua none = ok none
policy_rua (some value) =
    if not (valid_rua value) then err (bad_value (codes "rua")) else ok (some value)

-- `PolicyRecord::parse`
unfoldable pub parse_policy : Bytes → Result RecordError PolicyRecord
parse_policy txt = do
  tags ← parse_tags txt
  prefixes ← policy_prefixes (get tags (codes "p"))
  unit ← policy_unit (get tags (codes "u"))
  let testing = policy_testing (get tags (codes "t"))
  rua ← policy_rua (get tags (codes "rua"))
  ensure (not (any (λ prefix. ltb unit (Ipv6Prefix.len prefix)) prefixes)) (bad_value (codes "u"))
  ok (record { prefixes = prefixes; unit = unit; testing = testing; rua = rua })

-- the test of each policy prefix in `authorizes`
abbrev pub allows : Ipv6Prefix → Ipv6Prefix → Bool
allows token allowed =
    is_attestable allowed && leb allowed.len token.len && contains allowed token.addr

unfoldable pub authorizes : PolicyRecord → Ipv6Prefix → Bool
authorizes policy token = is_attestable token && any (allows token) policy.prefixes

module _ (dalek : Dalek) (base64 : Base64) where
  pub record KeyRecord : Type 0 where
    pub public_key : Key.Ed25519PublicKey dalek

  -- `KeyRecord::parse`
  unfoldable pub parse_key : Bytes → Result RecordError KeyRecord
  parse_key txt = do
    tags ← parse_tags txt
    algorithm ← ok_or (get tags (codes "k")) (missing_tag (codes "k"))
    ensure (bytes_eq algorithm (codes "ed25519")) unknown_algorithm
    encoded ← ok_or (get tags (codes "pk")) (missing_tag (codes "pk"))
    raw ← ok_or (base64 encoded) (bad_value (codes "pk"))
    public_key ← ok_or (Key.from_bytes dalek raw) (bad_value (codes "pk"))
    ok (record { public_key = public_key })
