-- ===== src/Payload/Lowercase.antt =====
-- Folding a name to lower case changes nothing in its syntax.
use swornmail.Prelude.{
  ℕ, suc, ◌<◌, ◌≡◌, refl, ap, ◌||◌, List, [], ◌∷◌, map, arith, ◌==◌, all, length,
}
use swornmail.Text.{
  Bytes, is_empty, is_ascii, is_ascii_alphanumeric, lowercase_byte, to_ascii_lowercase, starts_with,
  ends_with, split, split_step,
}
use swornmail.Payload.{is_label, is_operator_domain}

lowercase_byte-eq : (c : ℕ) (x : ℕ) → c < b'A' → (lowercase_byte x == c) ≡ (x == c)
lowercase_byte-eq c x h = ground arith

lowercase-is_empty : (s : Bytes) → is_empty (to_ascii_lowercase s) ≡ is_empty s
lowercase-is_empty [] = refl
lowercase-is_empty (x ∷ s) = refl

pub lowercase-length : (s : Bytes) → length (to_ascii_lowercase s) ≡ length s
lowercase-length [] = refl
lowercase-length (x ∷ s) = ap suc (lowercase-length s)

lowercase-starts_with : (s : Bytes) → starts_with b'-' (to_ascii_lowercase s) ≡ starts_with b'-' s
lowercase-starts_with [] = refl
lowercase-starts_with (x ∷ s) = lowercase_byte-eq b'-' x (omega arith)

lowercase-ends_with : (s : Bytes) → ends_with b'-' (to_ascii_lowercase s) ≡ ends_with b'-' s
lowercase-ends_with [] = refl
lowercase-ends_with (x ∷ []) = lowercase_byte-eq b'-' x (omega arith)
lowercase-ends_with (x ∷ y ∷ s) = lowercase-ends_with (y ∷ s)

lowercase-is_ascii : (s : Bytes) → is_ascii (to_ascii_lowercase s) ≡ is_ascii s
lowercase-is_ascii [] = refl
lowercase-is_ascii (x ∷ s) = ground (arith, lowercase-is_ascii s)

lowercase-all_ldh :
    (s : Bytes)
    → all (λ c. is_ascii_alphanumeric c || c == b'-') (to_ascii_lowercase s)
      ≡ all (λ c. is_ascii_alphanumeric c || c == b'-') s
lowercase-all_ldh [] = refl
lowercase-all_ldh (x ∷ s) = ground (arith, lowercase-all_ldh s)

pub lowercase-is_label : (s : Bytes) → is_label (to_ascii_lowercase s) ≡ is_label s
unfolding is_label
lowercase-is_label s = rw (
  lowercase-is_empty s,
  lowercase-length s,
  lowercase-starts_with s,
  lowercase-ends_with s,
  lowercase-all_ldh s,
)

lowercase-split_step :
    (x : ℕ) (ps : List Bytes)
    → split_step (lowercase_byte x == b'.') (lowercase_byte x) (map to_ascii_lowercase ps)
      ≡ map to_ascii_lowercase (split_step (x == b'.') x ps)
lowercase-split_step x [] = ground arith
lowercase-split_step x (p ∷ ps) = ground arith

lowercase-split :
    (s : Bytes) → split b'.' (to_ascii_lowercase s) ≡ map to_ascii_lowercase (split b'.' s)
unfolding split
lowercase-split [] = refl
lowercase-split (x ∷ s) = rw (lowercase-split s) (lowercase-split_step x (split b'.' s))

lowercase-all_labels :
    (ws : List Bytes) → all is_label (map to_ascii_lowercase ws) ≡ all is_label ws
lowercase-all_labels [] = refl
lowercase-all_labels (w ∷ ws) = rw (lowercase-is_label w, lowercase-all_labels ws)

-- Folding a text to lower case changes nothing in whether `is_operator_domain` accepts it.
pub lowercase-is_operator_domain :
    (s : Bytes) → is_operator_domain (to_ascii_lowercase s) ≡ is_operator_domain s
unfolding is_operator_domain
lowercase-is_operator_domain s = rw (
  lowercase-is_empty s,
  lowercase-length s,
  lowercase-is_ascii s,
  lowercase-split s,
  lowercase-all_labels (split b'.' s),
)

lowercase_byte_idem : (c : ℕ) → lowercase_byte (lowercase_byte c) ≡ lowercase_byte c
lowercase_byte_idem c = ground arith

pub to_ascii_lowercase_idem :
    (s : Bytes) → to_ascii_lowercase (to_ascii_lowercase s) ≡ to_ascii_lowercase s
to_ascii_lowercase_idem [] = refl
to_ascii_lowercase_idem (x ∷ s) = cc (lowercase_byte_idem x, to_ascii_lowercase_idem s)
