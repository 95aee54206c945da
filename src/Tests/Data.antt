-- ===== src/Tests/Data.antt =====
-- The vector `valid_in_prefix` of the crate's shared tests, and backends that know its signature.
use swornmail.Prelude.{ℕ, false, ◌&&◌, none, some, [], ◌∷◌, ◌++◌, if◌then◌else◌}
use swornmail.Prelude.Int.{ℤ, pos}
use swornmail.Text.{Bytes, codes, bytes_eq}
use swornmail.Address.{Ipv6Prefix, segments}
use swornmail.Backend.{Dalek, Base64}
use swornmail.Payload.{Payload, mta}
use swornmail.Record.{PolicyRecord}
use swornmail.Token.{Unverified, Verified}

abbrev pub protected_octets : Bytes
protected_octets =
    0xa3 ∷ 0x01 ∷ 0x27 ∷ 0x03 ∷ 0x78 ∷ 0x1c ∷ 0x61 ∷ 0x70 ∷ 0x70 ∷ 0x6c ∷ 0x69 ∷ 0x63 ∷ 0x61 ∷ 0x74
    ∷ 0x69 ∷ 0x6f ∷ 0x6e ∷ 0x2f ∷ 0x73 ∷ 0x77 ∷ 0x6f ∷ 0x72 ∷ 0x6e ∷ 0x2d ∷ 0x74 ∷ 0x6f ∷ 0x6b
    ∷ 0x65 ∷ 0x6e ∷ 0x2b ∷ 0x63 ∷ 0x62 ∷ 0x6f ∷ 0x72 ∷ 0x04 ∷ 0x45 ∷ 0x32 ∷ 0x30 ∷ 0x32 ∷ 0x36
    ∷ 0x61 ∷ []

abbrev pub payload_octets : Bytes
payload_octets =
    0xa6 ∷ 0x01 ∷ 0x72 ∷ 0x6d ∷ 0x61 ∷ 0x69 ∷ 0x6c ∷ 0x65 ∷ 0x72 ∷ 0x2e ∷ 0x65 ∷ 0x78 ∷ 0x61 ∷ 0x6d
    ∷ 0x70 ∷ 0x6c ∷ 0x65 ∷ 0x2e ∷ 0x63 ∷ 0x6f ∷ 0x6d ∷ 0x02 ∷ 0x51 ∷ 0x20 ∷ 0x01 ∷ 0x0d ∷ 0xb8
    ∷ 0x0f ∷ 0x00 ∷ 0x00 ∷ 0x00 ∷ 0x00 ∷ 0x00 ∷ 0x00 ∷ 0x00 ∷ 0x00 ∷ 0x00 ∷ 0x00 ∷ 0x00 ∷ 0x30
    ∷ 0x03 ∷ 0x18 ∷ 0x40 ∷ 0x04 ∷ 0x1a ∷ 0x6a ∷ 0x78 ∷ 0xa4 ∷ 0x00 ∷ 0x05 ∷ 0x1a ∷ 0x6a ∷ 0x78
    ∷ 0xb2 ∷ 0x10 ∷ 0x06 ∷ 0x63 ∷ 0x6d ∷ 0x74 ∷ 0x61 ∷ []

abbrev pub signature_octets : Bytes
signature_octets =
    0xf1 ∷ 0xa9 ∷ 0x72 ∷ 0xad ∷ 0x7d ∷ 0xe7 ∷ 0x6f ∷ 0xde ∷ 0x3f ∷ 0xf9 ∷ 0x15 ∷ 0x54 ∷ 0x2d ∷ 0xca
    ∷ 0x1b ∷ 0x9e ∷ 0xac ∷ 0xec ∷ 0xfa ∷ 0x10 ∷ 0x3d ∷ 0x4c ∷ 0x31 ∷ 0x8e ∷ 0x8a ∷ 0x0b ∷ 0x3e
    ∷ 0xc0 ∷ 0x2f ∷ 0xd7 ∷ 0x6f ∷ 0xc8 ∷ 0x07 ∷ 0x6f ∷ 0x8c ∷ 0xcb ∷ 0x1a ∷ 0x25 ∷ 0xd9 ∷ 0xbe
    ∷ 0xcd ∷ 0xe9 ∷ 0x6c ∷ 0x33 ∷ 0xc7 ∷ 0x47 ∷ 0x47 ∷ 0xec ∷ 0xe0 ∷ 0xdf ∷ 0xac ∷ 0xb3 ∷ 0x47
    ∷ 0x9a ∷ 0x25 ∷ 0xa9 ∷ 0xee ∷ 0x7a ∷ 0x75 ∷ 0xe5 ∷ 0x94 ∷ 0x68 ∷ 0x30 ∷ 0x04 ∷ []

abbrev pub token : Bytes
token =
    (0xd2 ∷ 0x84 ∷ [])
    ++ (0x58 ∷ 0x29 ∷ [])
    ++ protected_octets
    ++ (0xa0 ∷ 0x58 ∷ 0x3c ∷ [])
    ++ payload_octets
    ++ (0x58 ∷ 0x40 ∷ [])
    ++ signature_octets

abbrev pub signed_octets : Bytes
signed_octets =
    (0x84 ∷ 0x6a ∷ [])
    ++ codes "Signature1"
    ++ (0x58 ∷ 0x29 ∷ [])
    ++ protected_octets
    ++ (0x40 ∷ 0x58 ∷ 0x3c ∷ [])
    ++ payload_octets

abbrev pub key_text : Bytes
key_text = codes "ebVWLo/mVPlAeLES6KmLp5AfhTrmlb7X4OORC60ElmQ="

abbrev pub key_record : Bytes
key_record = codes "v=SWORN1; k=ed25519; pk=" ++ key_text

abbrev pub key_octets : Bytes
key_octets =
    0x79 ∷ 0xb5 ∷ 0x56 ∷ 0x2e ∷ 0x8f ∷ 0xe6 ∷ 0x54 ∷ 0xf9 ∷ 0x40 ∷ 0x78 ∷ 0xb1 ∷ 0x12 ∷ 0xe8 ∷ 0xa9
    ∷ 0x8b ∷ 0xa7 ∷ 0x90 ∷ 0x1f ∷ 0x85 ∷ 0x3a ∷ 0xe6 ∷ 0x95 ∷ 0xbe ∷ 0xd7 ∷ 0xe0 ∷ 0xe3 ∷ 0x91
    ∷ 0x0b ∷ 0xad ∷ 0x04 ∷ 0x96 ∷ 0x64 ∷ []

-- A signature crate that accepts the recorded signature of the recorded key only.
abbrev pub dalek : Dalek
dalek = record {
  VerifyingKey = Bytes;
  from_bytes = λ raw. some raw;
  to_bytes = λ key. key;
  verify_strict = λ key message signature.
      bytes_eq key key_octets
      && bytes_eq message signed_octets
      && bytes_eq signature signature_octets;
}

abbrev pub base64 : Base64
base64 text = if bytes_eq text key_text then some key_octets else none

abbrev pub source : ℕ
source = segments 0x2001 0xdb8 0xf00 0x1234 0 0xa 0 1

abbrev pub now : ℤ
now = pos 1786293000

abbrev pub prefix : Ipv6Prefix
prefix = record { addr = segments 0x2001 0xdb8 0xf00 0 0 0 0 0; len = 48 }

abbrev pub unit_prefix : Ipv6Prefix
unit_prefix = record { addr = segments 0x2001 0xdb8 0xf00 0x1234 0 0 0 0; len = 64 }

abbrev pub policy_text : Bytes
policy_text = codes "v=SWORN1; p=2001:db8:f00::/48; u=64"

abbrev pub policy : PolicyRecord
policy = record { prefixes = prefix ∷ []; unit = 64; testing = false; rua = none }

abbrev pub payload : Payload
payload = record {
  operator = codes "mailer.example.com";
  prefix = prefix;
  unit = 64;
  iat = 1786291200;
  exp = 1786294800;
  role = mta;
}

abbrev pub pending : Unverified
pending = record {
  payload = payload;
  selector = codes "2026a";
  unit = unit_prefix;
  observed_unit = unit_prefix;
  to_be_signed = signed_octets;
  signature = signature_octets;
}

abbrev pub accepted : Verified
accepted = record {
  operator = codes "mailer.example.com";
  unit = unit_prefix;
  observed_unit = unit_prefix;
  prefix = prefix;
  selector = codes "2026a";
  role = mta;
  testing = false;
  rua = none;
}
