-- ===== src/Record/Write.antt =====
-- Every valid policy has a record that parses to it.
use mathlib.Core.Path.{subst}
use swornmail.Prelude.{
  ℕ, zero, suc, ◌≤◌, ◌≡◌, refl, sym, ap, ◌∙◌, Bool, true, false, not, Option, none, some, List, [],
  ◌∷◌, ◌++◌, map, arith, ltb, any, take, select, length, All, All-append, All-map,
}
use swornmail.Prelude.Results.{ok}
use swornmail.Text.{Bytes, codes, bytes_eq, is_empty, split, decimal}
use swornmail.Text.Split.{Lacks, join, split-join}
use swornmail.Address.{Ipv6Prefix}
use swornmail.Address.Decimal.{parse_decimal_iff}
use swornmail.Address.Display.{
  display_prefix, display_prefix-IsPrefixByte, parse_prefix-display_prefix,
}
use swornmail.Text.Ipv6.Display.{display_ipv6}
use swornmail.Dns.{IsDomain}
use swornmail.Record.{
  Tag, version, get, PolicyRecord, read_prefix, read_prefixes, listed, policy_prefixes, policy_unit,
  policy_testing, policy_rua, valid_rua, parse_policy,
}
use swornmail.Record.Policy.{Listable, PolicyValid}
use swornmail.Record.Print.{IsVisible, IsWritable, write_tags, parse_tags-write_tags}
use swornmail.Record.Rua.{IsReport, join-All, valid_rua_iff}
use swornmail.Record.Tags.{DistinctNames}

abbrev prefix_list : List Ipv6Prefix → Bytes
prefix_list ps = join b',' (map display_prefix ps)

abbrev flags : Bool → Bytes
flags true = codes "y"
flags false = []

abbrev rua_tags : Option Bytes → List Tag
rua_tags none = []
rua_tags (some value) = (codes "rua", value) ∷ []

abbrev pub policy_tags : PolicyRecord → List Tag
policy_tags policy =
    (codes "p", prefix_list policy.prefixes)
    ∷ (codes "u", decimal policy.unit)
    ∷ (codes "t", flags policy.testing)
    ∷ rua_tags policy.rua

-- A policy as an operator may publish it.
abbrev pub write_policy : PolicyRecord → Bytes
write_policy policy = write_tags (codes "v", version) (policy_tags policy)

displays-Lacks : (ps : List Ipv6Prefix) → All Listable ps → All (Lacks b',') (map display_prefix ps)
displays-Lacks [] h = tt
displays-Lacks (p ∷ ps) h = (
  All-map (display_prefix p) (λ c k. ground arith) (display_prefix-IsPrefixByte p h.0.0),
  displays-Lacks ps h.1,
)

append-not_empty : (a b : Bytes) (x : ℕ) → is_empty (a ++ x ∷ b) ≡ false
append-not_empty [] b x = refl
append-not_empty (y ∷ a) b x = refl

display_prefix-not_empty : (p : Ipv6Prefix) → is_empty (display_prefix p) ≡ false
unfolding display_prefix
display_prefix-not_empty p = append-not_empty (display_ipv6 p.addr) (decimal p.len) b'/'

select-displays :
    (ps : List Ipv6Prefix)
    → select (λ text. not (is_empty text)) (map display_prefix ps) ≡ map display_prefix ps
select-displays [] = refl
select-displays (p ∷ ps) =
    rw (display_prefix-not_empty p) (ap (◌∷◌ (display_prefix p)) (select-displays ps))

take-all {ℓ} : {A : Type ℓ} (n : ℕ) (xs : List A) → length xs ≤ n → take n xs ≡ xs
take-all zero [] h = refl
take-all zero (x ∷ xs) h = absurd (omega arith)
take-all (suc n) [] h = refl
take-all (suc n) (x ∷ xs) h = ap (◌∷◌ x) (take-all n xs (omega arith))

length-displays : (ps : List Ipv6Prefix) → length (map display_prefix ps) ≡ length ps
length-displays [] = refl
length-displays (p ∷ ps) = ap suc (length-displays ps)

listed-prefix_list :
    (ps : List Ipv6Prefix)
    → All Listable ps
    → length ps ≤ 64
    → listed (prefix_list ps) ≡ map display_prefix ps
listed-prefix_list [] h k = unfold split in refl
listed-prefix_list (p ∷ ps) h k =
    rw (split-join b',' (display_prefix p) (map display_prefix ps) (displays-Lacks (p ∷ ps) h)) (
      ap (take 64) (select-displays (p ∷ ps))
      ∙ take-all 64 (map display_prefix (p ∷ ps)) (omega (arith, length-displays (p ∷ ps))))

read_prefixes-displays :
    (ps : List Ipv6Prefix) → All Listable ps → read_prefixes (map display_prefix ps) ≡ ok ps
unfolding read_prefixes read_prefix
read_prefixes-displays [] h = refl
read_prefixes-displays (p ∷ ps) h =
    rw (parse_prefix-display_prefix p h.0.0) (rw h.0.1 (rw (read_prefixes-displays ps h.1) refl))

pub policy_unit-decimal : (n : ℕ) → 1 ≤ n → n ≤ 64 → policy_unit (some (decimal n)) ≡ ok n
unfolding policy_unit
policy_unit-decimal n lo hi =
    rw ((parse_decimal_iff (decimal n) n).1 (omega arith, refl)) (ground arith)

policy_testing-flags : (b : Bool) → policy_testing (some (flags b)) ≡ b
unfolding policy_testing split bytes_eq
policy_testing-flags true = refl
policy_testing-flags false = refl

pub fine_enough :
    (unit : ℕ) (ps : List Ipv6Prefix)
    → All (λ p. Ipv6Prefix.len p ≤ unit) ps
    → any (λ p. ltb unit (Ipv6Prefix.len p)) ps ≡ false
fine_enough unit [] h = refl
fine_enough unit (p ∷ ps) h = ground (arith, fine_enough unit ps h.1)

prefix_list-IsVisible : (ps : List Ipv6Prefix) → All Listable ps → All IsVisible (prefix_list ps)
prefix_list-IsVisible ps h =
    join-All IsVisible b',' (omega arith) (map display_prefix ps) (displays ps h)
  where
    displays :
        (ps : List Ipv6Prefix) → All Listable ps → All (All IsVisible) (map display_prefix ps)
    displays [] h = tt
    displays (p ∷ ps) h = (
      All-map (display_prefix p) (λ c k. ground arith) (display_prefix-IsPrefixByte p h.0.0),
      displays ps h.1,
    )

pub IsDomain-IsVisible : (domain : Bytes) → IsDomain domain → All IsVisible domain
IsDomain-IsVisible domain d = subst (All IsVisible) (sym d.spelled) (
    join-All IsVisible b'.' (omega arith) (d.first ∷ d.others)
      (All-map (d.first ∷ d.others) (λ w l. All-map w (λ c k. ground arith) l.ldh) d.labels))

IsReport-IsVisible : (value : Bytes) → IsReport value → All IsVisible value
IsReport-IsVisible value r =
    let local = join b'.' (r.first ∷ r.others) in
    let atoms =
      join-All IsVisible b'.' (omega arith) (r.first ∷ r.others)
        (All-map (r.first ∷ r.others) (λ w a. All-map w (λ c k. ground arith) a.1) r.atoms) in
    subst (All IsVisible) (sym r.spelled) (
      All-append IsVisible (codes "mailto:") _ (ground arith)
        (All-append IsVisible local _ atoms (omega arith, IsDomain-IsVisible r.domain r.is_domain)))

decimal-IsVisible : (n : ℕ) → n ≤ 64 → All IsVisible (decimal n)
decimal-IsVisible n h = ground arith

rua_tags-IsWritable :
    (rua : Option Bytes)
    → ((value : Bytes) → rua ≡ some value → valid_rua value ≡ true)
    → All IsWritable (rua_tags rua)
rua_tags-IsWritable none h = tt
rua_tags-IsWritable (some value) h = (
  (
    λ e. cc,
    ground arith,
    ground arith,
    IsReport-IsVisible value ((valid_rua_iff value).0 (h value refl)),
  ),
  tt,
)

flags-IsVisible : (b : Bool) → All IsVisible (flags b)
flags-IsVisible true = ground arith
flags-IsVisible false = tt

policy_tags-IsWritable :
    (policy : PolicyRecord) → PolicyValid policy → All IsWritable (policy_tags policy)
policy_tags-IsWritable policy v = (
  (λ e. cc, ground arith, ground arith, prefix_list-IsVisible policy.prefixes v.listable),
  (
    (λ e. cc, ground arith, ground arith, decimal-IsVisible policy.unit v.unit_le),
    (
      (λ e. cc, ground arith, ground arith, flags-IsVisible policy.testing),
      rua_tags-IsWritable policy.rua v.safe_rua,
    ),
  ),
)

apart_names :
    (p u t : Bytes) (rua : Option Bytes)
    → DistinctNames
        ((codes "v", version) ∷ (codes "p", p) ∷ (codes "u", u) ∷ (codes "t", t) ∷ rua_tags rua)
apart_names p u t none = ground arith
apart_names p u t (some value) = ground arith

policy_tags-DistinctNames :
    (policy : PolicyRecord) → DistinctNames ((codes "v", version) ∷ policy_tags policy)
policy_tags-DistinctNames policy =
    apart_names (prefix_list policy.prefixes) (decimal policy.unit) (flags policy.testing)
      policy.rua

policy_rua-tags :
    (rua : Option Bytes)
    → ((value : Bytes) → rua ≡ some value → valid_rua value ≡ true)
    → policy_rua (get (rua_tags rua) (codes "rua")) ≡ ok rua
unfolding policy_rua get bytes_eq
policy_rua-tags none h = refl
policy_rua-tags (some value) h = rw (h value refl) refl

-- A policy with at most 64 valid and attestable prefixes that are no longer than its unit, a unit
-- from 1 to 64, and a report address that passes `valid_rua` if it has one, parses back from the
-- text that lists it tag by tag.
pub parse_policy-write_policy :
    (policy : PolicyRecord) → PolicyValid policy → parse_policy (write_policy policy) ≡ ok policy
unfolding parse_policy get bytes_eq policy_prefixes
parse_policy-write_policy policy v =
    let tags =
      parse_tags-write_tags (policy_tags policy) (policy_tags-IsWritable policy v)
        (policy_tags-DistinctNames policy) in
    rw tags (
      rw (listed-prefix_list policy.prefixes v.listable v.capped) (
        rw (read_prefixes-displays policy.prefixes v.listable) (
          rw (policy_unit-decimal policy.unit v.unit_pos v.unit_le) (
            rw (policy_rua-tags policy.rua v.safe_rua) (
              rw (fine_enough policy.unit policy.prefixes v.unit_fine)
                (rw (policy_testing-flags policy.testing) refl))))))
