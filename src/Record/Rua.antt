-- ===== src/Record/Rua.antt =====
-- Report addresses: what `valid_rua` accepts.
use mathlib.Core.Path.{subst}
use swornmail.Prelude.{
  ℕ, ◌≤◌, ◌≡◌, ◌≢◌, refl, sym, ap, ◌∙◌, ◌↔◌, true, false, some, List, [], ◌∷◌, ◌++◌, arith, all_iff,
  All, All-append, All-map, length, Option-cases, inl, inr,
}
use swornmail.Text.{Bytes, codes, is_empty, strip_prefix, count, split, split_once}
use swornmail.Text.Split.{
  Lacks, join, join-split, split-ne-nil, split-join, split_once-append, split_once-eq-some,
}
use swornmail.Dns.{IsDomain}
use swornmail.Payload.Domain.{is_operator_domain_iff}
use swornmail.Record.{is_atom_byte, is_atom, valid_address, valid_rua}

-- `()<>[]:;@\,."`, the printable characters that no atom has.
abbrev specials : Bytes
specials =
    0x28 ∷ 0x29 ∷ 0x3c ∷ 0x3e ∷ 0x5b ∷ 0x5d ∷ 0x3a ∷ 0x3b ∷ 0x40 ∷ 0x5c ∷ 0x2c ∷ 0x2e ∷ 0x22 ∷ []

abbrev pub IsAtext : ℕ → Type 0
IsAtext c = (0x21 ≤ c) × (c ≤ 0x7e) × All (λ x. c ≢ x) specials

is_atom_byte-IsAtext : (c : ℕ) → is_atom_byte c ≡ true → IsAtext c
is_atom_byte-IsAtext c h = ground arith

IsAtext-is_atom_byte : (c : ℕ) → IsAtext c → is_atom_byte c ≡ true
IsAtext-is_atom_byte c h = ground arith

strip_prefix-eq-some : (p s r : Bytes) → strip_prefix p s ≡ some r → s ≡ p ++ r
strip_prefix-eq-some [] s r h = ground arith
strip_prefix-eq-some (x ∷ p) [] r h = cc
strip_prefix-eq-some (x ∷ p) (y ∷ s) r h = ground (arith, strip_prefix-eq-some p s r)

strip_prefix-append : (p r : Bytes) → strip_prefix p (p ++ r) ≡ some r
strip_prefix-append [] r = refl
strip_prefix-append (x ∷ p) r = ground (arith, strip_prefix-append p r)

count-Lacks : (c : ℕ) (s : Bytes) → Lacks c s → count c s ≡ 0
count-Lacks c [] h = refl
count-Lacks c (x ∷ s) h = ground (arith, count-Lacks c s h.1)

count-once : (c : ℕ) (a b : Bytes) → Lacks c a → Lacks c b → count c (a ++ c ∷ b) ≡ 1
count-once c [] b h k = ground (arith, count-Lacks c b k)
count-once c (x ∷ a) b h k = ground (arith, count-once c a b h.1 k)

pub join-All :
    (P : ℕ → Type 0) (c : ℕ) → P c → (ws : List Bytes) → All (All P) ws → All P (join c ws)
join-All P c pc [] h = tt
join-All P c pc (w ∷ []) h = h.0
join-All P c pc (w ∷ v ∷ ws) h =
    All-append P w (c ∷ join c (v ∷ ws)) h.0 (pc, join-All P c pc (v ∷ ws) h.1)

-- An atom: one or more of these characters.
abbrev pub IsAtom : Bytes → Type 0
IsAtom atom = (1 ≤ length atom) × All IsAtext atom

is_atom_iff : (atom : Bytes) → (is_atom atom ≡ true) ↔ IsAtom atom
is_atom_iff [] = ground arith
is_atom_iff (c ∷ s) =
    let chars =
      all_iff is_atom_byte IsAtext (λ x. (is_atom_byte-IsAtext x, IsAtext-is_atom_byte x))
        (c ∷ s) in
    (λ h. (omega arith, chars.0 (ground arith)), λ (n, h). ground (arith, chars.1 h))

-- `mailto:`, atoms joined by dots, an at sign, and a domain.
pub record IsReport (value : Bytes) : Type 0 where
  pub first : Bytes
  pub others : List Bytes
  pub domain : Bytes
  pub atoms : All IsAtom (first ∷ others)
  pub is_domain : IsDomain domain
  pub spelled : value ≡ codes "mailto:" ++ join b'.' (first ∷ others) ++ b'@' ∷ domain

atoms-Lacks : (c : ℕ) → (IsAtext c → ⊥) → (ws : List Bytes) → All IsAtom ws → All (Lacks c) ws
atoms-Lacks c h ws a = All-map ws (λ w i. All-map w (λ x k e. h (subst IsAtext e k)) i.1) a

domain-Lacks : (domain : Bytes) → IsDomain domain → Lacks b'@' domain
domain-Lacks domain d = subst (Lacks b'@') (sym d.spelled) (
    join-All (λ x. x ≢ b'@') b'.' (λ e. omega arith) (d.first ∷ d.others)
      (All-map (d.first ∷ d.others) (λ w l. All-map w (λ x k e. omega (arith, k, e)) l.ldh)
        d.labels))

pieces : (ws : List Bytes) → ws ≢ [] → (w : Bytes) × (vs : List Bytes) × (ws ≡ w ∷ vs)
pieces [] h = absurd (h refl)
pieces (w ∷ vs) h = (w, vs, refl)

address_sound :
    (address : Bytes) → valid_address address ≡ true → IsReport (codes "mailto:" ++ address)
unfolding valid_address
address_sound address h = elim (Option-cases (split_once b'@' address)) [
  | inl e ↦ ground arith
  | inr ((local, domain), e) ↦
      let (cut, lacks) = split_once-eq-some b'@' address e in
      let (w, vs, ws) = pieces (split b'.' local) (split-ne-nil b'.' local) in
      let atoms = (all_iff is_atom IsAtom is_atom_iff (split b'.' local)).0 (ground arith) in
      record {
        first = w;
        others = vs;
        domain = domain;
        atoms = subst (All IsAtom) ws atoms;
        is_domain = (is_operator_domain_iff domain).0 (ground arith);
        spelled =
            ap (λ a. codes "mailto:" ++ a)
              (cut
                ∙ ap (λ l. l ++ b'@' ∷ domain) (sym (join-split b'.' local) ∙ ap (join b'.') ws));
      }
]

join-not_empty : (w : Bytes) (ws : List Bytes) → IsAtom w → is_empty (join b'.' (w ∷ ws)) ≡ false
join-not_empty [] ws a = absurd (omega (arith, a.0))
join-not_empty (x ∷ w) [] a = refl
join-not_empty (x ∷ w) (v ∷ ws) a = refl

address_complete :
    (first : Bytes) (others : List Bytes) (domain : Bytes)
    → All IsAtom (first ∷ others)
    → IsDomain domain
    → valid_address (join b'.' (first ∷ others) ++ b'@' ∷ domain) ≡ true
unfolding valid_address
address_complete first others domain a d =
    let ws = first ∷ others in
    let lacks =
      join-All (λ x. x ≢ b'@') b'.' (λ e. omega arith) ws
        (atoms-Lacks b'@' (λ t. omega arith) ws a) in
    let once = count-once b'@' (join b'.' ws) domain lacks (domain-Lacks domain d) in
    let cut = split_once-append b'@' (join b'.' ws) domain lacks in
    let dots = split-join b'.' first others (atoms-Lacks b'.' (λ t. omega arith) ws a) in
    let atoms = (all_iff is_atom IsAtom is_atom_iff ws).1 a in
    rw once (
      rw cut (
        rw (join-not_empty first others a.0)
          (rw dots (rw atoms ((is_operator_domain_iff domain).1 d)))))

rua_sound : (value : Bytes) → valid_rua value ≡ true → IsReport value
unfolding valid_rua
rua_sound value h = elim (Option-cases (strip_prefix (codes "mailto:") value)) [
  | inl e ↦ ground arith
  | inr (address, e) ↦
      subst IsReport (sym (strip_prefix-eq-some (codes "mailto:") value address e))
        (address_sound address (ground arith))
]

rua_complete : (value : Bytes) → IsReport value → valid_rua value ≡ true
unfolding valid_rua
rua_complete value r =
    let stripped =
      strip_prefix-append (codes "mailto:") (join b'.' (r.first ∷ r.others) ++ b'@' ∷ r.domain) in
    rw r.spelled (address_complete r.first r.others r.domain r.atoms r.is_domain)

-- `valid_rua` accepts exactly the texts `mailto:`, a local part, an at sign and a domain of LDH
-- labels, where the local part is one or more atoms joined by dots, each one or more printable
-- ASCII characters other than the space and the thirteen specials of mail addresses.
pub valid_rua_iff : (value : Bytes) → (valid_rua value ≡ true) ↔ IsReport value
valid_rua_iff value = (rua_sound value, rua_complete value)
