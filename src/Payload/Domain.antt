-- ===== src/Payload/Domain.antt =====
-- `is_operator_domain` decides the syntax of operator domains.
use mathlib.Core.Path.{subst}
use swornmail.Prelude.{
  ℕ, ◌≤◌, ◌<◌, ◌≡◌, ◌≢◌, refl, sym, ap, ◌∙◌, ◌↔◌, true, not, ◌||◌, List, [], ◌∷◌, ◌++◌, arith, ltb,
  ◌==◌, All, all_iff, length, ltb_iff, eq-false, All-append, All-map, length-append,
}
use swornmail.Text.{Bytes, is_empty, is_ascii, is_ascii_alphanumeric, starts_with, ends_with, split}
use swornmail.Text.Split.{Lacks, join, join-split, split-join, split-ne-nil}
use swornmail.Dns.{IsLdh, IsLabel, IsDomain}
use swornmail.Payload.{is_label, is_operator_domain}

pub IsLdh-iff : (c : ℕ) → ((is_ascii_alphanumeric c || c == b'-') ≡ true) ↔ IsLdh c
IsLdh-iff c = ground arith

pub starts_with_iff :
    (c : ℕ) (s : Bytes) → (starts_with c s ≡ true) ↔ ((rest : Bytes) × (s ≡ c ∷ rest))
starts_with_iff c [] = (λ h. cc, λ (r, e). cc)
starts_with_iff c (x ∷ s) = (λ h. (s, ground arith), λ (r, e). ground arith)

ends_with-concat : (c : ℕ) (s : Bytes) → ends_with c (s ++ c ∷ []) ≡ true
ends_with-concat c [] = ground arith
ends_with-concat c (x ∷ []) = ground arith
ends_with-concat c (x ∷ y ∷ s) = ends_with-concat c (y ∷ s)

pub ends_with_iff :
    (c : ℕ) (s : Bytes) → (ends_with c s ≡ true) ↔ ((rest : Bytes) × (s ≡ rest ++ c ∷ []))
ends_with_iff c [] =
    (λ h. cc, λ (r, e). subst (λ t. ends_with c t ≡ true) (sym e) (ends_with-concat c r))
ends_with_iff c (x ∷ []) = (
  λ h. ([], ground arith),
  λ (r, e). subst (λ t. ends_with c t ≡ true) (sym e) (ends_with-concat c r),
)
ends_with_iff c (x ∷ y ∷ s) = (
  λ h. let (r, e) = (ends_with_iff c (y ∷ s)).0 h in (x ∷ r, ap (◌∷◌ x) e),
  λ (r, e). subst (λ t. ends_with c t ≡ true) (sym e) (ends_with-concat c r),
)

not_empty_iff : (s : Bytes) → (not (is_empty s) ≡ true) ↔ (1 ≤ length s)
not_empty_iff [] = ground arith
not_empty_iff (x ∷ s) = ground arith

pub is_label_iff : (label : Bytes) → (is_label label ≡ true) ↔ IsLabel label
unfolding is_label
is_label_iff label =
    let chars = all_iff (λ c. is_ascii_alphanumeric c || c == b'-') IsLdh IsLdh-iff label in
    let filled = not_empty_iff label in
    (
      λ h. record {
        not_empty = ground (arith, filled);
        short = ground arith;
        ldh = chars.0 (ground arith);
        no_lead = λ rest e. ground (arith, (starts_with_iff b'-' label).1 (rest, e));
        no_trail = λ rest e. ground (arith, (ends_with_iff b'-' label).1 (rest, e));
      },
      λ l.
          let lead =
            eq-false (starts_with b'-' label)
              (λ h. let (r, e) = (starts_with_iff b'-' label).0 h in l.no_lead r e) in
          let trail =
            eq-false (ends_with b'-' label)
              (λ h. let (r, e) = (ends_with_iff b'-' label).0 h in l.no_trail r e) in
          ground (arith, filled, lead, trail, chars.1 l.ldh),
    )

label-Lacks : (label : Bytes) → IsLabel label → Lacks b'.' label
label-Lacks label l = All-map label (λ c h. ldh-ne c h) l.ldh
  where
    ldh-ne : (c : ℕ) → IsLdh c → c ≢ b'.'
    ldh-ne c h = omega arith

pub IsLabel-ascii : (label : Bytes) → IsLabel label → All (λ c. c < 128) label
IsLabel-ascii label l = All-map label (λ c h. ldh-lt c h) l.ldh
  where
    ldh-lt : (c : ℕ) → IsLdh c → c < 128
    ldh-lt c h = omega arith

join-ascii :
    (w : Bytes) (ws : List Bytes) → All IsLabel (w ∷ ws) → All (λ c. c < 128) (join b'.' (w ∷ ws))
join-ascii w [] h = IsLabel-ascii w h.0
join-ascii w (v ∷ ws) h =
    All-append (λ c. c < 128) w _ (IsLabel-ascii w h.0) (omega arith, join-ascii v ws h.1)

join-not_empty : (w : Bytes) (ws : List Bytes) → 1 ≤ length w → 1 ≤ length (join b'.' (w ∷ ws))
join-not_empty w [] h = h
join-not_empty w (v ∷ ws) h = rw length-append (omega arith)

labels-Lacks : (ws : List Bytes) → All IsLabel ws → All (Lacks b'.') ws
labels-Lacks ws = All-map ws label-Lacks

pieces : (ws : List Bytes) → ws ≢ [] → (w : Bytes) × (vs : List Bytes) × (ws ≡ w ∷ vs)
pieces [] h = absurd (h refl)
pieces (w ∷ vs) h = (w, vs, refl)

is_ascii_iff : (s : Bytes) → (is_ascii s ≡ true) ↔ All (λ c. c < 128) s
is_ascii_iff = all_iff (λ c. ltb c 128) (λ c. c < 128) (λ c. ltb_iff c 128)

-- `is_operator_domain` accepts exactly the texts of at most 253 octets that are one or more labels
-- joined by dots, each of 1 to 63 letters, digits and hyphens with no hyphen at either end.
pub is_operator_domain_iff : (s : Bytes) → (is_operator_domain s ≡ true) ↔ IsDomain s
unfolding is_operator_domain
is_operator_domain_iff s = (
  λ h.
      let (w, vs, e) = pieces (split b'.' s) (split-ne-nil b'.' s) in
      let labels = (all_iff is_label IsLabel is_label_iff (split b'.' s)).0 (ground arith) in
      record {
        first = w;
        others = vs;
        labels = rw e at labels;
        spelled = sym (join-split b'.' s) ∙ ap (join b'.') e;
        fits = ground arith;
      },
  λ d.
      let read : split b'.' s ≡ d.first ∷ d.others =
        ap (split b'.') d.spelled
        ∙ split-join b'.' d.first d.others (labels-Lacks (d.first ∷ d.others) d.labels) in
      let ascii =
        (is_ascii_iff s).1
          (subst (All (λ c. c < 128)) (sym d.spelled) (join-ascii d.first d.others d.labels)) in
      let filled = (not_empty_iff s).1 (
        subst (λ t. 1 ≤ length t) (sym d.spelled)
          (join-not_empty d.first d.others d.labels.0.not_empty)) in
      ground (
        arith,
        ascii,
        filled,
        read,
        (all_iff is_label IsLabel is_label_iff (d.first ∷ d.others)).1 d.labels,
      ),
)
