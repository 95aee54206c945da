-- ===== src/Tests/Signed.antt =====
-- What the signed octets determine: the test codec keeps Sig_structures apart, and a second token
-- with the signed octets of the vector.
use mathlib.Core.List.{append_assoc}
use swornmail.Prelude.{
  sym, true, ◌∙◌, ltb_iff, ℕ, ◌+◌, ◌/◌, ◌%◌, ◌≤◌, ◌<◌, ◌≡◌, refl, ap, [], ◌∷◌, ◌++◌, ◌⊎◌, inl, inr,
  arith, length, ltb, Bool-cases,
}
use swornmail.Text.{Bytes, codes}
use swornmail.Prelude.Int.{ℤ, pos}
use swornmail.Prelude.Results.{ok}
use swornmail.Backend.{pairs}
use swornmail.Address.{Ipv6Prefix, segments, mask, contains, is_eligible_source}
use swornmail.Cose.{
  parse_cose, check_headers, to_be_signed, decode_cbor, cose_of_value, cose_of_items, take_bytes,
  headers_of, read_headers, protected_of,
}
use swornmail.Cose.Rules.{check_headers_iff}
use swornmail.Token.{Unverified, check_connection, parse_excluding, pending_of, unit_at}
use swornmail.Cose.Envelope.{parse_cose_iff}
use swornmail.Token.Claim.{parse_payload_iff}
use swornmail.Token.Local.{check_connection_iff, parse_excluding_iff}
use swornmail.Tests.Data.{payload, payload_octets, protected_octets, token, source, now, pending}
use swornmail.Tests.Runs.{cose, test_headers, test_payload, test_parse_excluding}
use swornmail.Token.Binding.{Unambiguous, parse_excluding-signed}
use swornmail.Tests.Cbor.{cbor, from_reader, from_reader-value_ok, all_fit-AllFit, head}

-- The three forms of a head of at most 3072.
head-cases :
    (n : ℕ)
    → n ≤ 3072
    → ((n < 24) × (head 2 n ≡ (64 + n) ∷ []))
      ⊎ (((24 ≤ n) × (head 2 n ≡ 88 ∷ n ∷ [])) ⊎ (head 2 n ≡ 89 ∷ n / 256 ∷ n % 256 ∷ []))
head-cases n b = elim (Bool-cases (ltb n 24)) [
  | inl e ↦ inl (ground (arith, e), rw e refl)
  | inr e ↦ elim (Bool-cases (ltb n 256)) [
    | inl e' ↦ inr (inl (ground (arith, e), rw e (rw e' refl)))
    | inr e' ↦
        let small : ltb n 65536 ≡ true = (ltb_iff n 65536).1 (omega arith) in
        let hi : n / 256 % 256 ≡ n / 256 = omega arith in
        let lo : n / 1 % 256 ≡ n % 256 = omega arith in
        inr (inr (rw e (rw e' (rw small (rw hi (rw lo refl))))))
  ]
]

-- A head and what stands behind it are read off their octets.
head-injective :
    (n n' : ℕ) (r r' : Bytes)
    → n ≤ 3072
    → n' ≤ 3072
    → head 2 n ++ r ≡ head 2 n' ++ r'
    → (n ≡ n') × (r ≡ r')
head-injective n n' r r' b b' h = elim (head-cases n b) [
  | inl (lt, e) ↦ elim (head-cases n' b') [
    | inl (lt', e') ↦ ground (arith, aligned e e')
    | inr (inl (ge', e')) ↦ ground (arith, aligned e e')
    | inr (inr e') ↦ ground (arith, aligned e e')
  ]
  | inr (inl (ge, e)) ↦ elim (head-cases n' b') [
    | inl (lt', e') ↦ ground (arith, aligned e e')
    | inr (inl (ge', e')) ↦ ground (arith, aligned e e')
    | inr (inr e') ↦ ground (arith, aligned e e')
  ]
  | inr (inr e) ↦ elim (head-cases n' b') [
    | inl (lt', e') ↦ ground (arith, aligned e e')
    | inr (inl (ge', e')) ↦ ground (arith, aligned e e')
    | inr (inr e') ↦ ground (arith, aligned e e')
  ]
]
  where
    aligned : {a a' : Bytes} → head 2 n ≡ a → head 2 n' ≡ a' → a ++ r ≡ a' ++ r'
    aligned e e' = ap (λ x. x ++ r) (sym e) ∙ h ∙ ap (λ x. x ++ r') e'

append-injective :
    (a a' r r' : Bytes) → length a ≡ length a' → a ++ r ≡ a' ++ r' → (a ≡ a') × (r ≡ r')
append-injective [] [] r r' e h = (refl, h)
append-injective [] (x ∷ a') r r' e h = absurd (omega (arith, e))
append-injective (x ∷ a) [] r r' e h = absurd (omega (arith, e))
append-injective (x ∷ a) (y ∷ a') r r' e h =
    let (same, rest) = append-injective a a' r r' (omega (arith, e)) (cc h) in
    let first : x ≡ y = cc h in (cc (first, same), rest)

-- A byte string and what stands behind it.
bytes-injective :
    (a a' r r' : Bytes)
    → length a ≤ 3072
    → length a' ≤ 3072
    → (head 2 (length a) ++ a) ++ r ≡ (head 2 (length a') ++ a') ++ r'
    → (a ≡ a') × (r ≡ r')
bytes-injective a a' r r' b b' h =
    let (same, rest) =
      head-injective (length a) (length a') (a ++ r) (a' ++ r') b b' (
        sym (append_assoc (head 2 (length a)) a r) ∙ h ∙ append_assoc (head 2 (length a')) a' r') in
    append-injective a a' r r' same rest

-- The encoding behind its constant beginning.
abbrev tail : Bytes → Bytes → Bytes
tail p q = (head 2 (length p) ++ p) ++ ((64 ∷ []) ++ ((head 2 (length q) ++ q) ++ []))

tail-injective :
    (p q p' q' : Bytes)
    → length p ≤ 3072
    → length q ≤ 3072
    → length p' ≤ 3072
    → length q' ≤ 3072
    → tail p q ≡ tail p' q'
    → (p ≡ p') × (q ≡ q')
tail-injective p q p' q' bp bq bp' bq' h =
    let (first, rest) =
      bytes-injective p p' (64 ∷ (head 2 (length q) ++ q) ++ [])
        (64 ∷ (head 2 (length q') ++ q') ++ []) bp bp' h in
    let (second, none_left) = bytes-injective q q' [] [] bq bq' (cc rest) in (first, second)

pub cbor-Unambiguous : Unambiguous cbor
unfolding cbor
cbor-Unambiguous = record {
  decodes_within =
      λ raw t items n h. all_fit-AllFit (length raw) items (from_reader-value_ok raw h);
  writes_apart = λ p q p' q' bp bq bp' bq' h.
      let (first, second) = tail-injective p q p' q' bp bq bp' bq' (cc h) in
      rw first (rw second refl);
}

-- The vector with another signature, from another source in its prefix and at another time.
abbrev forged : Bytes
forged = payload_octets ++ (0 ∷ 0 ∷ 0 ∷ 0 ∷ [])

abbrev token' : Bytes
token' =
    (0xd2 ∷ 0x84 ∷ 0x58 ∷ 0x29 ∷ [])
    ++ protected_octets
    ++ (0xa0 ∷ 0x58 ∷ 0x3c ∷ [])
    ++ payload_octets
    ++ (0x58 ∷ 0x40 ∷ [])
    ++ forged

abbrev source' : ℕ
source' = segments 0x2001 0xdb8 0xf00 0x99 0 0 0 7

abbrev now' : ℤ
now' = pos 1786294000

abbrev unit' : Ipv6Prefix
unit' = record { addr = segments 0x2001 0xdb8 0xf00 0x99 0 0 0 0; len = 64 }

abbrev pending' : Unverified
pending' = record pending { unit = unit'; observed_unit = unit'; signature = forged }

test_cose' : parse_cose cbor token' ≡ ok (record cose { signature = forged })
unfolding parse_cose decode_cbor cbor from_reader cose_of_value cose_of_items take_bytes headers_of
    read_headers protected_of pairs
test_cose' = refl

test_connection' : check_connection payload source' now' [] ≡ ok tt
unfolding check_connection is_eligible_source contains mask
test_connection' = refl

test_headers' : check_headers (record cose { signature = forged }) ≡ ok (codes "2026a")
unfolding check_headers
test_headers' = test_headers

test_pending' :
    pending' ≡ pending_of cbor (record cose { signature = forged }) (codes "2026a") payload source'
unfolding to_be_signed cbor mask
test_pending' = refl

test_parse' : parse_excluding cbor token' source' now' [] ≡ ok pending'
test_parse' = (parse_excluding_iff cbor token' source' now' [] pending').1 (record {
  cose = record cose { signature = forged };
  selector = codes "2026a";
  payload = payload;
  bounded = omega arith;
  cose_read = (parse_cose_iff cbor token' (record cose { signature = forged })).0 test_cose';
  headers =
      (check_headers_iff (record cose { signature = forged }) (codes "2026a")).0 test_headers';
  payload_read = (parse_payload_iff cbor payload_octets payload).0 test_payload;
  connects = (check_connection_iff payload source' now' []).0 test_connection';
  result = test_pending';
})

parse_excluding-signed_example : pending' ≡ record pending {
  unit = unit_at source' 64;
  observed_unit = unit_at source' 64;
  signature = forged;
}
parse_excluding-signed_example =
    parse_excluding-signed cbor cbor-Unambiguous token token' source source' now now' [] []
      test_parse_excluding test_parse' refl
